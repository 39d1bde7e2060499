-- ===== src/Router/Step/Own.antt =====
-- The Haves that a node makes itself: pushed news, and the answer to the seen Wants.
use dash_router.Base.{
  ℕ, ◌≡◌, ◌≢◌, true, false, not, ◌&&◌, ◌||◌, none, some, List, [], ◌∷◌, refl, sym, arith, ◌∙◌,
  Bool-cases, inl, inr, if◌then◌else◌,
}
use dash_router.BtreeMap
use dash_router.Log.{Log, Authors}
use dash_router.LogRanges
use dash_router.LogRanges.{LogRanges}
use dash_router.LogRanges.Shape.{union-IsValid_log, difference-IsValid_log}
use dash_router.LogRanges.Sets.{contains-union_log, contains-difference_log}
use dash_router.LogRanges.Empty.{is_empty-contains_log}
use dash_router.Interest.Covering.{some_asks_log}
use dash_router.Router.{
  Config, State, recv_have, push, fire_have, Effect, send_have, ok, interests, relayed_have_ranges,
  note_relayed_haves, note_have, next_have,
}
use dash_router.Router.Folds.{
  IsValid, some_record, relayed_have_ranges-IsValid, contains-relayed_have_ranges,
  next_have-IsValid, contains-next_have,
}
use dash_router.Router.Step.{do_push, emit_have, do_fire_have, transition}
use dash_router.Router.Step.Haves.{
  sent, accepted, some_record-append, note_relayed-IsValid, note_have-IsValid,
}
use dash_router.Router.Step.Flood.{recv_have-known}

module _ ⦃t : Authors⦄ where
  -- A node that sends `ranges`, or nothing when they are empty, and notes them in both records.
  send_own : Config → State → LogRanges → State × List Effect
  send_own config s ranges = if LogRanges.is_empty ranges then (s, []) else (
    note_relayed_haves (note_have s s.id ranges config.have_ttl) ranges config.have_ttl,
    send_have ranges ∷ [],
  )

  -- What sending leaves: everything but the records as it was, and the Have counted as relayed.
  pub record SentOwn (s : State) (ranges : LogRanges) (s' : State) (fx : List Effect) : Type 0 where
    pub valid : IsValid s'
    pub id : s'.id ≡ s.id
    pub held : s'.held ≡ s.held
    pub have_timer : s'.have_timer ≡ s.have_timer
    pub sends : (l : Log) (q : ℕ) → sent fx l q ≡ LogRanges.contains ranges l q
    pub accepts : (l : Log) (q : ℕ) → accepted fx l q ≡ false
    pub relayed :
        (l : Log) (q : ℕ)
        → some_record s'.relayed_haves l q
          ≡ (some_record s.relayed_haves l q || LogRanges.contains ranges l q)

  send_own-SentOwn :
      (config : Config) (s : State) (ranges : LogRanges)
      → IsValid s
      → LogRanges.IsValid ranges
      → SentOwn s ranges (send_own config s ranges).0 (send_own config s ranges).1
  unfolding send_own note_relayed_haves note_have
  send_own-SentOwn config s ranges v w = elim (Bool-cases (LogRanges.is_empty ranges)) [
    | inl nothing ↦
        rw (nothing, send_own)
          (record {
            valid = v;
            id = refl;
            held = refl;
            have_timer = refl;
            sends = λ l q. ground (arith, is_empty-contains_log ranges l q nothing);
            accepts = λ l q. refl;
            relayed = λ l q. ground (arith, is_empty-contains_log ranges l q nothing);
          })
    | inr something ↦
        rw (something, send_own)
          (record {
            valid =
                note_relayed-IsValid (note_have s s.id ranges config.have_ttl) ranges
                  config.have_ttl (note_have-IsValid s s.id ranges config.have_ttl v w) w;
            id = refl;
            held = refl;
            have_timer = refl;
            sends = λ l q. ground arith;
            accepts = λ l q. refl;
            relayed = λ l q. ground (
              arith,
              some_record-append s.relayed_haves
                  (record { ranges = ranges; ttl_left = config.have_ttl } ∷ []) l q,
            );
          })
  ]

  fire_have_state : State → State
  fire_have_state s = record s { have_timer = none }

  fire_have_state-IsValid : (s : State) → IsValid s → IsValid (fire_have_state s)
  unfolding fire_have_state
  fire_have_state-IsValid s v = record {
    held = v.held;
    seen = v.seen;
    haves = v.haves;
    relayed = v.relayed;
  }

  emit_have-send_own :
      (config : Config) (s : State)
      → emit_have config s
        ≡ ok (send_own config s (next_have s)).0 (send_own config s (next_have s)).1
  unfolding emit_have send_own
  emit_have-send_own config s = elim (Bool-cases (LogRanges.is_empty (next_have s))) [
    | inl nothing ↦ rw nothing refl
    | inr something ↦ rw something refl
  ]

  -- A due Have timer of a valid state always fires. The node disarms it and sends exactly what
  -- it holds, some seen Want asks for, and no recent Have had. When any part of that comes
  -- back from another node as a Have, nothing is accepted or sent.
  pub fire_have-answers :
      (config : Config) (s : State) (from' : ℕ) (ranges' : LogRanges)
      → IsValid s
      → s.have_timer ≡ some (record { remaining = 0 })
      → LogRanges.IsValid ranges'
      → from' ≢ s.id
      → ((l : Log) (q : ℕ)
          → LogRanges.contains ranges' l q ≡ true
          → LogRanges.contains (next_have s) l q ≡ true)
      → (s' : State) × (fx : List Effect) × (transition config s fire_have ≡ ok s' fx)
        × (s'.have_timer ≡ none)
        × ((l : Log) (q : ℕ)
            → sent fx l q ≡ (
                LogRanges.contains s.held l q
                && (some_asks_log (interests s.seen) l q
                    && not (some_record (BtreeMap.values s.haves) l q))))
        × (transition config s' (recv_have from' ranges')
            ≡ ok (note_have s' from' ranges' config.have_ttl) [])
  unfolding transition do_fire_have fire_have_state
  fire_have-answers config s from' ranges' v due w n part =
      let s0 : State = fire_have_state s in
      let v0 : IsValid s0 = fire_have_state-IsValid s v in
      let m = send_own-SentOwn config s0 (next_have s0) v0 (next_have-IsValid s0 v0) in
      let sent_ranges : (l : Log) (q : ℕ)
          → LogRanges.contains (next_have s0) l q ≡ LogRanges.contains (next_have s) l q =
        λ l q. contains-next_have s0 l q v0 ∙ sym (contains-next_have s l q v) in
      (
        (send_own config s0 (next_have s0)).0,
        (send_own config s0 (next_have s0)).1,
        rw due (emit_have-send_own config s0),
        m.have_timer,
        λ l q. m.sends l q ∙ contains-next_have s0 l q v0,
        recv_have-known config (send_own config s0 (next_have s0)).0 from' ranges'
            (λ e. n (e ∙ m.id)) m.valid w
            (λ l q e. rw m.held ground (arith, part l q e, contains-next_have s l q v))
            (λ l q e. ground (arith, m.relayed l q, part l q e, sent_ranges l q)),
      )

  pushed : State → LogRanges → State
  pushed s ranges = record s { held = LogRanges.union s.held ranges }

  push-send_own :
      (config : Config) (s : State) (ranges : LogRanges)
      → LogRanges.is_empty ranges ≡ false
      → let fresh = LogRanges.difference ranges (relayed_have_ranges (pushed s ranges)) in
        do_push config s ranges
        ≡ ok (send_own config (pushed s ranges) fresh).0 (send_own config (pushed s ranges) fresh).1
  unfolding do_push send_own pushed
  push-send_own config s ranges some_news =
      elim (Bool-cases (
        LogRanges.is_empty (LogRanges.difference ranges (relayed_have_ranges (pushed s ranges))))) [
          | inl nothing ↦ rw (some_news, nothing) refl
          | inr something ↦ rw (some_news, something) refl
        ]

  -- In a valid state, a push of valid ranges that are not empty always succeeds. The node then
  -- holds the pushed numbers as well, accepts nothing, and sends exactly the ones that it had
  -- not relayed. When any part of the push comes back from another node, nothing is accepted
  -- or sent.
  pub push-floods_once :
      (config : Config) (s : State) (ranges : LogRanges) (from' : ℕ) (ranges' : LogRanges)
      → IsValid s
      → LogRanges.IsValid ranges
      → LogRanges.IsValid ranges'
      → LogRanges.is_empty ranges ≡ false
      → from' ≢ s.id
      → ((l : Log) (q : ℕ)
          → LogRanges.contains ranges' l q ≡ true
          → LogRanges.contains ranges l q ≡ true)
      → (s' : State) × (fx : List Effect) × (transition config s (push ranges) ≡ ok s' fx)
        × ((l : Log) (q : ℕ)
            → LogRanges.contains s'.held l q
              ≡ (LogRanges.contains s.held l q || LogRanges.contains ranges l q))
        × ((l : Log) (q : ℕ) → accepted fx l q ≡ false)
        × ((l : Log) (q : ℕ)
            → sent fx l q
              ≡ (LogRanges.contains ranges l q && not (some_record s.relayed_haves l q)))
        × (transition config s' (recv_have from' ranges')
            ≡ ok (note_have s' from' ranges' config.have_ttl) [])
  unfolding transition pushed
  push-floods_once config s ranges from' ranges' v w w' some_news n part =
      let s1 : State = pushed s ranges in
      let v1 : IsValid s1 = record {
        held = union-IsValid_log s.held ranges v.held w;
        seen = v.seen;
        haves = v.haves;
        relayed = v.relayed;
      } in
      let fresh : LogRanges = LogRanges.difference ranges (relayed_have_ranges s1) in
      let m = send_own-SentOwn config s1 fresh v1 (
        difference-IsValid_log ranges (relayed_have_ranges s1) w
          (relayed_have_ranges-IsValid s1 v1)) in
      let contains-fresh : (l : Log) (q : ℕ)
          → LogRanges.contains fresh l q
            ≡ (LogRanges.contains ranges l q && not (some_record s.relayed_haves l q)) =
        λ l q. ground (
          arith,
          contains-difference_log ranges (relayed_have_ranges s1) w
              (relayed_have_ranges-IsValid s1 v1) l q,
          contains-relayed_have_ranges s1 l q v1,
        ) in
      let held' : (l : Log) (q : ℕ)
          → LogRanges.contains (send_own config s1 fresh).0.held l q
            ≡ (LogRanges.contains s.held l q || LogRanges.contains ranges l q) =
        λ l q. rw m.held (contains-union_log s.held ranges v.held w l q) in
      (
        (send_own config s1 fresh).0,
        (send_own config s1 fresh).1,
        push-send_own config s ranges some_news,
        held',
        m.accepts,
        λ l q. m.sends l q ∙ contains-fresh l q,
        recv_have-known config (send_own config s1 fresh).0 from' ranges' (λ e. n (e ∙ m.id))
            m.valid w' (λ l q e. ground (arith, held' l q, part l q e))
            (λ l q e. ground (arith, m.relayed l q, contains-fresh l q, part l q e)),
      )
