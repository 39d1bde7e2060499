-- ===== src/Router/Step/Wants.antt =====
-- Whole Want transitions: emission cancels, and a Want is relayed on first sight only.
use dash_router.Base.{
  ℕ, ◌≤◌, ◌≡◌, ◌≢◌, true, false, not, ◌||◌, none, some, List, [], ◌∷◌, ◌++◌, refl, arith, ap, ◌∙◌,
  All, ◌==◌, Bool-cases, inl, inr, if◌then◌else◌,
}
use dash_router.Base.Order.{nat_ord}
use dash_router.BtreeMap
use dash_router.BtreeMap.{IsSorted, AllValues}
use dash_router.Log.{Log, Authors}
use dash_router.Ranges.{seq_max}
use dash_router.Interest
use dash_router.Interest.{Interest, any_uncovered_by, uncovered_by}
use dash_router.Interest.Asks
use dash_router.Interest.Asks.{asks_log}
use dash_router.Interest.Covering.{some_asks_log, uncovered_by_loses_nothing}
use dash_router.Interest.Whole.{from_held-IsValid, uncovered_by-IsValid}
use dash_router.Interest.Repeats.{
  empty-nil, any_uncovered_by-repeat, uncovered_by-once, seen-append,
}
use dash_router.Router.{
  Config, State, SeenWant, fire_want, recv_want, send_want, ok, interests, note_seen, my_interest,
  next_want, channels_of_interest,
}
use dash_router.Router.Folds.{IsValid}
use dash_router.Router.Step.{adopt, emit_want, do_fire_want, do_recv_want, transition}

interests-append :
    (ws : List SeenWant) (w : SeenWant) → interests (ws ++ w ∷ []) ≡ interests ws ++ w.interest ∷ []
unfolding interests
interests-append [] w = refl
interests-append (x ∷ ws) w = ap (λ is. x.interest ∷ is) (interests-append ws w)

some_asks_log-append :
    ⦃t : Authors⦄ (seen : List Interest) (i : Interest) (l : Log) (q : ℕ)
    → some_asks_log (seen ++ i ∷ []) l q ≡ (some_asks_log seen l q || asks_log i l q)
some_asks_log-append [] i l q = ground arith
some_asks_log-append (x ∷ seen) i l q = ground (arith, some_asks_log-append seen i l q)

module _ ⦃t : Authors⦄ where
  -- An interest that `Entry::new` could have built, entry by entry.
  abbrev pub IsInterest : Interest → Type 0
  IsInterest i = IsSorted i × AllValues Asks.IsValid i

  seen-values : (is : List Interest) → All IsInterest is → All (AllValues Asks.IsValid) is
  seen-values [] v = tt
  seen-values (i ∷ is) v = (v.0.1, seen-values is v.1)

  received : Config → State → Interest → State
  received config s i =
      note_seen (record s { heard = adopt config.heard_ttl s.held s.heard i }) i config.want_ttl

  received-seen :
      (config : Config) (s : State) (i : Interest)
      → interests (received config s i).seen ≡ interests s.seen ++ i ∷ []
  unfolding received note_seen
  received-seen config s i =
      interests-append s.seen (record { interest = i; ttl_left = config.want_ttl })

  received-IsValid :
      (config : Config) (s : State) (i : Interest)
      → IsValid s
      → IsInterest i
      → IsValid (received config s i)
  unfolding received note_seen
  received-IsValid config s i v w = record {
    held = v.held;
    seen =
        rw (received-seen config s i, received, note_seen)
          (seen-append IsInterest (interests s.seen) i v.seen w);
    haves = v.haves;
    relayed = v.relayed;
  }

  other_id : (a b : ℕ) → a ≢ b → (a == b) ≡ false
  other_id a b n = ground arith

  recv_want-ok :
      (config : Config) (s : State) (from : ℕ) (i : Interest)
      → from ≢ s.id
      → transition config s (recv_want from i)
        ≡ ok
            (received config s i)
            (if any_uncovered_by i (interests s.seen) then send_want i ∷ [] else [])
  unfolding transition do_recv_want received
  recv_want-ok config s from i n = rw (other_id from s.id n) refl

  -- In a valid state, taking a valid Want in from another node always succeeds and leaves a
  -- valid state; it is relayed whole when some entry of it is not covered by the seen Wants,
  -- and otherwise not. A repetition of it by another node right after is not relayed.
  pub recv_want-relays_once :
      (config : Config) (s : State) (from from' : ℕ) (i : Interest)
      → IsValid s
      → IsInterest i
      → from ≢ s.id
      → from' ≢ s.id
      → (s' : State) × (s'' : State) × (transition config s (recv_want from i)
          ≡ ok s' (if any_uncovered_by i (interests s.seen) then send_want i ∷ [] else []))
        × IsValid s'
        × (transition config s' (recv_want from' i) ≡ ok s'' [])
  unfolding received note_seen
  recv_want-relays_once config s from from' i v w n n' =
      let s' : State = received config s i in
      let silent : any_uncovered_by i (interests s'.seen) ≡ false =
        ap (any_uncovered_by i) (received-seen config s i)
        ∙ any_uncovered_by-repeat i (interests s.seen) w (seen-values (interests s.seen) v.seen) in
      (
        s',
        received config s' i,
        recv_want-ok config s from i n,
        received-IsValid config s i v w,
        recv_want-ok config s' from' i n'
            ∙ ap (λ b. ok (received config s' i) (if b then send_want i ∷ [] else [])) silent,
      )

  disarmed : State → State
  disarmed s = record s { want_timer = none }

  emitted : Config → State → State
  emitted config s =
      if Interest.is_empty (next_want s) then s else note_seen s (next_want s) config.want_ttl

  my_interest-IsInterest : (s : State) → IsValid s → IsInterest (my_interest s)
  unfolding my_interest
  my_interest-IsInterest s v = from_held-IsValid s.held (channels_of_interest s) v.held

  next_want-IsInterest : (s : State) → IsValid s → IsInterest (next_want s)
  unfolding next_want
  next_want-IsInterest s v =
      uncovered_by-IsValid (my_interest s) (interests s.seen) (my_interest-IsInterest s v)

  emitted-next_want : (config : Config) (s : State) → IsValid s → next_want (emitted config s) ≡ []
  unfolding emitted next_want note_seen my_interest channels_of_interest
  emitted-next_want config s v = elim (Bool-cases (Interest.is_empty (next_want s))) [
    | inl nothing ↦ rw (nothing, emitted) (empty-nil (next_want s) nothing)
    | inr something ↦
        rw (something, emitted)
          (ap (uncovered_by (my_interest s)) (
              interests-append s.seen
                (record { interest = next_want s; ttl_left = config.want_ttl }))
            ∙ uncovered_by-once (my_interest s) (interests s.seen) (my_interest-IsInterest s v)
                (next_want-IsInterest s v) (seen-values (interests s.seen) v.seen))
  ]

  asks_log-nil : (l : Log) (q : ℕ) → asks_log [] l q ≡ false
  unfolding BtreeMap.get
  asks_log-nil l q = refl

  emitted-asks :
      (config : Config) (s : State) (l : Log) (q : ℕ)
      → some_asks_log (interests (emitted config s).seen) l q
        ≡ (some_asks_log (interests s.seen) l q || asks_log (next_want s) l q)
  unfolding emitted note_seen
  emitted-asks config s l q = elim (Bool-cases (Interest.is_empty (next_want s))) [
    | inl nothing ↦
        rw (nothing, emitted, empty-nil (next_want s) nothing) ground (arith, asks_log-nil l q)
    | inr something ↦
        rw (something, emitted)
          (ap (λ is. some_asks_log is l q)
              (interests-append s.seen
                (record { interest = next_want s; ttl_left = config.want_ttl }))
            ∙ some_asks_log-append (interests s.seen) (next_want s) l q)
  ]

  fire_want-ok :
      (config : Config) (s : State)
      → s.want_timer ≡ some (record { remaining = 0 })
      → transition config s fire_want
        ≡ ok (emitted config (disarmed s)) (
            if Interest.is_empty (next_want (disarmed s))
            then []
            else send_want (next_want (disarmed s)) ∷ [])
  unfolding transition do_fire_want emit_want emitted disarmed
  fire_want-ok config s due =
      rw due (elim (Bool-cases (Interest.is_empty (next_want (disarmed s)))) [
        | inl nothing ↦ rw nothing refl
        | inr something ↦ rw something refl
      ])

  disarmed-IsValid : (s : State) → IsValid s → IsValid (disarmed s)
  unfolding disarmed
  disarmed-IsValid s v = record {
    held = v.held;
    seen = v.seen;
    haves = v.haves;
    relayed = v.relayed;
  }

  emitted-timer : (config : Config) (s : State) → (emitted config s).want_timer ≡ s.want_timer
  unfolding emitted note_seen
  emitted-timer config s = elim (Bool-cases (Interest.is_empty (next_want s))) [
    | inl nothing ↦ rw (nothing, emitted) refl
    | inr something ↦ rw (something, emitted) refl
  ]

  -- A due Want timer of a valid state always fires: the node disarms it and sends its next
  -- Want, or nothing when that is empty. It then has no next Want, and of any log the seen
  -- Wants ask for each `u32` number that the node's own interest asks for.
  pub fire_want-asks_once :
      (config : Config) (s : State) (l : Log) (q : ℕ)
      → IsValid s
      → s.want_timer ≡ some (record { remaining = 0 })
      → q ≤ seq_max
      → (s' : State) × (transition config s fire_want
          ≡ ok s' (if Interest.is_empty (next_want s) then [] else send_want (next_want s) ∷ []))
        × (s'.want_timer ≡ none)
        × (next_want s' ≡ [])
        × ((not (asks_log (my_interest s) l q) || some_asks_log (interests s'.seen) l q) ≡ true)
  unfolding disarmed next_want my_interest channels_of_interest
  fire_want-asks_once config s l q v due le =
      let s0 : State = disarmed s in
      let v0 : IsValid s0 = disarmed-IsValid s v in
      (
        emitted config s0,
        fire_want-ok config s due,
        emitted-timer config s0,
        emitted-next_want config s0 v0,
        ground (
          arith,
          emitted-asks config s0 l q,
          (uncovered_by_loses_nothing (my_interest s) (interests s.seen) l q
              (my_interest-IsInterest s v).0 (my_interest-IsInterest s v).1
              (seen-values (interests s.seen) v.seen) le).0,
        ),
      )
