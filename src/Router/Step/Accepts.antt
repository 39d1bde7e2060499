-- ===== src/Router/Step/Accepts.antt =====
-- router.rs: when the router takes an action, and what it does to the two timers.
use dash_router.Base.{
  ℕ, ◌≡◌, true, false, none, some, List, refl, arith, ◌==◌, Bool-cases, Option-cases, inl, inr,
}
use dash_router.Log.{Authors}
use dash_router.LogRanges
use dash_router.LogRanges.{LogRanges}
use dash_router.Interest
use dash_router.Interest.{Interest}
use dash_router.Router
use dash_router.Router.{
  Config, State, Timer, Action, Effect, Result, tick, arm_want_timer, arm_have_timer, fire_want,
  fire_have, opens, recv_want, recv_have, holds, push, earlier, next_due, is_due, want_due,
  have_due, network_ask, next_want, next_have, note_have, note_seen, note_relayed_haves,
  relayed_have_ranges,
}
use dash_router.Router.Step.{
  transition, do_tick, in_time, count_down, do_arm_want_timer, do_arm_have_timer, do_fire_want,
  emit_want, do_fire_have, emit_have, do_recv_want, do_recv_have, do_push, learn, flood,
}

-- The router takes the action, and the state after it has the property.
abbrev pub Accepts : (State → Type 0) → Result → Type 0
Accepts P (Router.ok s fx) = P s
Accepts P (Router.err e) = false ≡ true

-- Both timers are as they were.
abbrev pub KeepsTimers : State → State → Type 0
KeepsTimers s s' = (s'.want_timer ≡ s.want_timer) × (s'.have_timer ≡ s.have_timer)

module _ ⦃t : Authors⦄ (config : Config) (s : State) where
  pub holds-Accepts :
      (held : LogRanges) → Accepts (KeepsTimers s) (transition config s (holds held))
  unfolding transition
  holds-Accepts held = (refl, refl)

  pub opens-Accepts :
      (channels : List ℕ) → Accepts (KeepsTimers s) (transition config s (opens channels))
  unfolding transition
  opens-Accepts channels = (refl, refl)

  pub recv_want-Accepts :
      (from : ℕ) (i : Interest)
      → (from == s.id) ≡ false
      → Accepts (KeepsTimers s) (transition config s (recv_want from i))
  unfolding transition do_recv_want note_seen
  recv_want-Accepts from i h = rw (h, do_recv_want) (refl, refl)

  pub recv_have-Accepts :
      (from : ℕ) (r : LogRanges)
      → (from == s.id) ≡ false
      → Accepts (KeepsTimers s) (transition config s (recv_have from r))
  unfolding transition do_recv_have learn flood note_have note_relayed_haves
  recv_have-Accepts from r h = rw (h, do_recv_have) (ground arith)

  pub push-Accepts :
      (r : LogRanges)
      → LogRanges.is_empty r ≡ false
      → Accepts (KeepsTimers s) (transition config s (push r))
  unfolding transition do_push note_have note_relayed_haves
  push-Accepts r h =
      let s1 : State = record s { held = LogRanges.union s.held r } in
      elim (Bool-cases (LogRanges.is_empty (LogRanges.difference r (relayed_have_ranges s1)))) [
        | inl known ↦ rw (h, known, do_push) (refl, refl)
        | inr novel ↦ rw (h, novel, do_push) (refl, refl)
      ]

  pub arm_want-Accepts :
      (interval : ℕ)
      → s.want_timer ≡ none
      → Accepts
          (λ s'.
            (s'.want_timer ≡ some (record { remaining = interval }))
            × (s'.have_timer ≡ s.have_timer))
          (transition config s (arm_want_timer interval))
  unfolding transition do_arm_want_timer
  arm_want-Accepts interval h = rw (h, do_arm_want_timer) (refl, refl)

  pub arm_have-Accepts :
      (interval : ℕ)
      → s.have_timer ≡ none
      → LogRanges.is_empty (network_ask s) ≡ false
      → Accepts
          (λ s'.
            (s'.have_timer ≡ some (record { remaining = interval }))
            × (s'.want_timer ≡ s.want_timer))
          (transition config s (arm_have_timer interval))
  unfolding transition do_arm_have_timer
  arm_have-Accepts interval h k = rw (h, k, do_arm_have_timer) (refl, refl)

  pub fire_want-Accepts :
      want_due s ≡ true
      → Accepts
          (λ s'. (s'.want_timer ≡ none) × (s'.have_timer ≡ s.have_timer))
          (transition config s fire_want)
  unfolding transition do_fire_want emit_want want_due is_due note_seen
  fire_want-Accepts h = elim (Option-cases s.want_timer) [
    | inl none' ↦ absurd (cc (rw none' at h))
    | inr (timer, some') ↦
        let due : (timer.remaining == 0) ≡ true = rw some' at h in
        elim (Bool-cases (Interest.is_empty (next_want (record s { want_timer = none })))) [
          | inl nothing ↦ rw (some', due, nothing, do_fire_want) (refl, refl)
          | inr something ↦ rw (some', due, something, do_fire_want) (refl, refl)
        ]
  ]

  pub fire_have-Accepts :
      have_due s ≡ true
      → Accepts
          (λ s'. (s'.have_timer ≡ none) × (s'.want_timer ≡ s.want_timer))
          (transition config s fire_have)
  unfolding transition do_fire_have emit_have have_due is_due note_have note_relayed_haves
  fire_have-Accepts h = elim (Option-cases s.have_timer) [
    | inl none' ↦ absurd (cc (rw none' at h))
    | inr (timer, some') ↦
        let due : (timer.remaining == 0) ≡ true = rw some' at h in
        elim (Bool-cases (LogRanges.is_empty (next_have (record s { have_timer = none })))) [
          | inl nothing ↦ rw (some', due, nothing, do_fire_have) (refl, refl)
          | inr something ↦ rw (some', due, something, do_fire_have) (refl, refl)
        ]
  ]

  pub tick-Accepts :
      (dur : ℕ)
      → (dur == 0) ≡ false
      → in_time dur (next_due s) ≡ true
      → Accepts
          (λ s'.
            (s'.want_timer ≡ count_down dur s.want_timer)
            × (s'.have_timer ≡ count_down dur s.have_timer))
          (transition config s (tick dur))
  unfolding transition do_tick
  tick-Accepts dur h k = rw (h, k, do_tick) (refl, refl)
