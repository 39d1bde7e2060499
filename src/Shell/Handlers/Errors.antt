-- ===== src/Shell/Handlers/Errors.antt =====
-- shell.rs: whatever the stores answer, the router refuses nothing that the node asks of it.
use dash_router.Base.{
  ℕ, ◌≡◌, ◌⊎◌, true, false, not, ◌&&◌, Option, none, some, List, [], ◌∷◌, refl, ◌∙◌, arith, leb,
  ◌==◌, Bool-cases, inl, inr, if◌then◌else◌,
}
use dash_router.Log.{Log, Authors}
use dash_router.LogRanges
use dash_router.LogRanges.{LogRanges}
use dash_router.Storage.{Op}
use dash_router.Wire
use dash_router.Wire.{WireMessage, WireBody}
use dash_router.Router.{
  State, Effect, arm_want_timer, arm_have_timer, opens, recv_want, recv_have, network_ask,
}
use dash_router.Router.Step.Accepts.{
  recv_want-Accepts, recv_have-Accepts, opens-Accepts, arm_want-Accepts, arm_have-Accepts,
}
use dash_router.Node.{Parked, ranges_of, park, eviction_candidates}
use dash_router.Shell.{
  AsyncStorage, AsyncEvictableStorage, IntervalSource, CoreConfig, Out, Core, Outcome, Incoming,
  append_failed,
}
use dash_router.Shell.Glue.{reconcile_held}
use dash_router.Shell.Glue.Succeeds.{
  Succeeds, and_then-Succeeds, on_answer-Succeeds, if-Succeeds, step_router-Succeeds, SameTimers,
  reconcile_held-Succeeds,
}
use dash_router.Shell.Handlers.{
  is_armed, route, arm_want, arm_have, init, drop_msg, arm_for_want, receive_want, receive_have,
  receive, is_foreign, is_forged, accept_wire, append, add_pending, reopen, unsubscribe, hint,
  failing, shed_ranges, shed, maintain,
}

module _ {E R I : Type 0} ⦃t : Authors⦄ (exts : AsyncStorage E) (relays : AsyncEvictableStorage R)
    (intervals : IntervalSource I) (encoded_len : WireMessage → ℕ) (config : CoreConfig) where
  abbrev pub Any : Core E R I → Type 0
  Any c = Unit {0}

  pub any : (P : Core E R I → Type 0) (o : Outcome E R I) → Succeeds P o → Succeeds Any o
  any P (Outcome.ok c outs) h = tt
  any P (Outcome.err f c) h = h

  pub reconcile_held-Any :
      (c : Core E R I) (touched : Option (List Log)) (outs : List Out)
      → Succeeds Any (reconcile_held config exts relays c touched outs)
  reconcile_held-Any c touched outs =
      any (SameTimers config c) (reconcile_held config exts relays c touched outs)
        (reconcile_held-Succeeds config exts relays c touched outs)

  pub route-Succeeds :
      (c : Core E R I) (parked : Parked) (failed : List (Log × ℕ)) (fx : List Effect)
      (outs : List Out)
      → Succeeds
          (λ c'. c'.router ≡ c.router)
          (route exts relays intervals encoded_len config c parked failed fx outs)
  unfolding route
  route-Succeeds c parked failed fx outs = refl

  pub arm_want-Succeeds :
      (P : Core E R I → Type 0) (c : Core E R I) (outs : List Out)
      → c.router.want_timer ≡ none
      → ((i : I) (s : State)
          → s.want_timer ≡ some (record { remaining = (intervals.next_want c.intervals).0 })
          → s.have_timer ≡ c.router.have_timer
          → P (record c { intervals = i; router = s }))
      → Succeeds P (arm_want exts relays intervals encoded_len config c outs)
  unfolding arm_want
  arm_want-Succeeds P c outs h k =
      let next : ℕ × I = intervals.next_want c.intervals in
      step_router-Succeeds config _ P (record c { intervals = next.1 }) (arm_want_timer next.0) _
        (arm_want-Accepts config.router c.router next.0 h) (λ s fx v. k next.1 s v.0 v.1)

  pub arm_have-Succeeds :
      (P : Core E R I → Type 0) (c : Core E R I) (outs : List Out)
      → c.router.have_timer ≡ none
      → LogRanges.is_empty (network_ask c.router) ≡ false
      → ((i : I) (s : State)
          → s.have_timer ≡ some (record { remaining = (intervals.next_have c.intervals).0 })
          → s.want_timer ≡ c.router.want_timer
          → P (record c { intervals = i; router = s }))
      → Succeeds P (arm_have exts relays intervals encoded_len config c outs)
  unfolding arm_have
  arm_have-Succeeds P c outs h k v =
      let next : ℕ × I = intervals.next_have c.intervals in
      step_router-Succeeds config _ P (record c { intervals = next.1 }) (arm_have_timer next.0) _
        (arm_have-Accepts config.router c.router next.0 h k) (λ s fx w. v next.1 s w.0 w.1)

  init-Succeeds :
      (c : Core E R I)
      → c.router.want_timer ≡ none
      → Succeeds Any (init exts relays intervals encoded_len config c)
  unfolding init
  init-Succeeds c h =
      and_then-Succeeds (SameTimers config c) Any _ _
        (reconcile_held-Succeeds config exts relays c none [])
        (λ c' outs same. arm_want-Succeeds Any c' outs (same.0 ∙ h) (λ i s v w. tt))

  arm_for_want-Succeeds :
      (c : Core E R I) (outs : List Out)
      → Succeeds Any (arm_for_want exts relays intervals encoded_len config c outs)
  unfolding arm_for_want is_armed
  arm_for_want-Succeeds c outs =
      if-Succeeds Any
        (not (is_armed c.router.have_timer) && not (LogRanges.is_empty (network_ask c.router))) _ _
        (λ yes'.
          arm_have-Succeeds Any c outs (unarmed c.router.have_timer (ground arith)) (ground arith)
            (λ i s v w. tt))
        (λ no'. tt)
    where
      unarmed : {A : Type 0} (o : Option A) → is_armed o ≡ false → o ≡ none
      unarmed none h = refl
      unarmed (some x) h = cc

  receive-Succeeds :
      (c : Core E R I) (msg : WireMessage) (outs : List Out)
      → (msg.sender == c.router.id) ≡ false
      → Succeeds Any (receive exts relays intervals encoded_len config c msg outs)
  unfolding receive receive_want receive_have route
  receive-Succeeds c msg outs h = go msg.body
    where
      go :
          (b : WireBody)
          → Succeeds Any
              (receive exts relays intervals encoded_len config c (record msg { body = b }) outs)
      go (Wire.want interest) =
          step_router-Succeeds config _ Any _ (recv_want msg.sender interest) _
            (recv_want-Accepts config.router c.router msg.sender interest h)
            (λ s fx v.
              and_then-Succeeds Any Any _ _ tt (λ c' outs' w. arm_for_want-Succeeds c' outs'))
      go (Wire.have ops) =
          step_router-Succeeds config _ Any _ (recv_have msg.sender (ranges_of (park [] ops))) _
            (recv_have-Accepts config.router c.router msg.sender (ranges_of (park [] ops)) h)
            (λ s fx v.
              and_then-Succeeds _ Any _ _ (reconcile_held-Succeeds config exts relays _ _ _)
                (λ c' outs' w. tt))

  failing-Succeeds :
      (c : Core E R I) (r : R) (outs : List Out)
      → Succeeds Any (failing exts relays intervals encoded_len config c r outs)
  unfolding failing
  failing-Succeeds c r outs = tt

  -- Whatever bytes arrive from whomever, and whatever the stores answer, no error comes of a
  -- message: the router takes every action that the node asks of it.
  pub accept_wire-Succeeds :
      (decode : List ℕ → Option WireMessage) (peer_key : ℕ → Option ℕ) (inc : Incoming)
      (c : Core E R I) (outs : List Out)
      → Succeeds Any
          (accept_wire exts relays intervals encoded_len config decode peer_key inc c outs)
  unfolding accept_wire drop_msg
  accept_wire-Succeeds decode peer_key inc c outs =
      if-Succeeds Any (is_foreign exts relays intervals encoded_len config inc.remote) _ _ (λ h. tt)
        λ h. on_answer-Succeeds Any (decode inc.bytes) _ _ tt λ msg.
          if-Succeeds Any (msg.sender == c.router.id) _ _ (λ h'. tt)
            λ other.
              if-Succeeds Any
                (is_forged exts relays intervals encoded_len config peer_key inc.author msg.sender)
                _ _ (λ h'. tt) λ h'. receive-Succeeds _ msg outs other

  pub reopen-Succeeds :
      (touched : Option (List Log)) (c : Core E R I) (outs : List Out)
      → Succeeds Any (reopen exts relays intervals encoded_len config touched c outs)
  unfolding reopen
  reopen-Succeeds touched c outs =
      step_router-Succeeds config _ Any c (opens c.subscriptions) _
        (opens-Accepts config.router c.router c.subscriptions)
        (λ s fx v. reconcile_held-Any _ touched outs)

  hint-Succeeds :
      (logs : List Log) (c : Core E R I) (outs : List Out)
      → Succeeds Any (hint exts relays intervals encoded_len config logs c outs)
  unfolding hint
  hint-Succeeds [] c outs = reconcile_held-Any c none outs
  hint-Succeeds (l ∷ ls) c outs = reconcile_held-Any c (some (l ∷ ls)) outs

  shed_ranges-Succeeds :
      (c : Core E R I) (outs : List Out)
      → Succeeds Any (shed_ranges exts relays intervals encoded_len config c outs)
  unfolding shed_ranges failing
  shed_ranges-Succeeds c outs =
      let held : Option LogRanges × R = relays.storage.held_all c.io.relay in
      on_answer-Succeeds Any held.0 _ _ tt λ all.
        let full : LogRanges = LogRanges.difference all (network_ask c.router) in
        if-Succeeds Any (LogRanges.is_empty full) _ _ (λ h. tt)
          λ h.
            if-Succeeds Any (relays.evict held.1 full).0 _ _ (λ h'. reconcile_held-Any _ _ outs)
              (λ h'. tt)

  shed-Succeeds :
      (c : Core E R I) (outs : List Out)
      → Succeeds Any (shed exts relays intervals encoded_len config c outs)
  unfolding shed failing
  shed-Succeeds c outs =
      let held : Option LogRanges × R = relays.held_payloads c.io.relay in
      on_answer-Succeeds Any held.0 _ _ tt λ payloads.
        let candidates : LogRanges = eviction_candidates payloads (network_ask c.router) in
        if-Succeeds Any (LogRanges.is_empty candidates) _ _ (λ h. shed_ranges-Succeeds _ outs)
          λ h. if-Succeeds Any (relays.evict_payloads held.1 candidates).0 _ _ (λ h'. tt) (λ h'. tt)

  maintain-Succeeds :
      (c : Core E R I) (outs : List Out)
      → Succeeds Any (maintain exts relays intervals encoded_len config c outs)
  unfolding maintain failing
  maintain-Succeeds c outs = on_answer-Succeeds Any (relays.usage c.io.relay).0 _ _ tt λ usage.
      if-Succeeds Any (leb (if config.evict_mark == 0 then 1 else config.evict_mark) usage) _ _
        (λ over. shed-Succeeds _ outs) (λ h. tt)

  -- What unsubscribing, a hint and maintenance do once the node has caught up has no error, whatever
  -- the stores answer.
  pub commands-Succeed :
      (c : Core E R I) (outs : List Out) (channel : ℕ) (logs : List Log)
      → Succeeds Any (unsubscribe exts relays intervals encoded_len config channel c outs)
        × Succeeds Any (hint exts relays intervals encoded_len config logs c outs)
        × Succeeds Any (maintain exts relays intervals encoded_len config c outs)
  unfolding unsubscribe
  commands-Succeed c outs channel logs =
      (reopen-Succeeds none _ outs, hint-Succeeds logs c outs, maintain-Succeeds c outs)

  -- After the node has caught up: the op goes in, or the store does not take it.
  pub append-fails_or_Succeeds :
      (now : ℕ) (l : Log) (q : ℕ) (op : Op) (c : Core E R I) (outs : List Out)
      → let answer = exts.ingest c.io.ext l q op in
        ((answer.0 ≡ true)
          × Succeeds
              (λ c'. c'.latest_append ≡ now)
              (append exts relays intervals encoded_len config now l q op c outs))
        ⊎ ((answer.0 ≡ false)
            × (append exts relays intervals encoded_len config now l q op c outs
                ≡ Outcome.err append_failed (record c { io = record c.io { ext = answer.1 } })))
  unfolding append add_pending
  append-fails_or_Succeeds now l q op c outs = elim (Bool-cases (exts.ingest c.io.ext l q op).0) [
    | inl taken ↦ inl (
      taken,
      rw taken (
          and_then-Succeeds Any (λ c'. c'.latest_append ≡ now) _ _ (reconcile_held-Any _ _ outs)
            (λ c' outs' v. refl)),
    )
    | inr refused ↦ inr (refused, rw refused refl)
  ]
