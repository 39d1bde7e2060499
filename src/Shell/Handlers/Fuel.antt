-- ===== src/Shell/Handlers/Fuel.antt =====
-- shell.rs: the loop of `advance_to` ends, without an error, caught up with the target.
use dash_router.Base.{
  ℕ, zero, suc, ◌+◌, ◌-◌, ◌*◌, ◌≤◌, ◌<◌, ◌≡◌, ◌⊎◌, refl, Bool, true, false, not, List, [], arith,
}
use dash_router.Log.{Log, Authors}
use dash_router.Storage.{Op}
use dash_router.LogRanges
use dash_router.LogRanges.{LogRanges}
use dash_router.Wire.{WireMessage}
use dash_router.Router.{
  State, Effect, tick, push, fire_want, fire_have, earlier, next_due, is_due, want_due, have_due,
  network_ask,
}
use dash_router.Router.Step.{in_time}
use dash_router.Router.Step.Accepts.{
  push-Accepts, fire_want-Accepts, fire_have-Accepts, tick-Accepts,
}
use dash_router.Shell.{
  AsyncStorage, AsyncEvictableStorage, IntervalSource, CoreConfig, Out, Core, Outcome,
  append_failed,
}
use dash_router.Shell.Glue.{and_then, route_fx}
use dash_router.Shell.Glue.Succeeds.{Succeeds, and_then-Succeeds, if-Succeeds, step_router-Succeeds}
use dash_router.Shell.Handlers.{
  push_deadline, route, flush, fire_a_want, rearm_have, fire_a_have, nearest, until_push, step_to,
  advance_by, push_due, round, caught_up, advance_to, on_append,
}
use dash_router.Shell.Handlers.Errors.{
  append-fails_or_Succeeds, arm_want-Succeeds, arm_have-Succeeds,
}

abbrev bit : Bool → ℕ
bit true = 1
bit false = 0

module _ {E R I : Type 0} ⦃t : Authors⦄ (exts : AsyncStorage E) (relays : AsyncEvictableStorage R)
    (intervals : IntervalSource I) (encoded_len : WireMessage → ℕ) (config : CoreConfig) where
  -- The rounds left: four for each unit of time to the target, and one for each thing due.
  rounds_left : ℕ → Core E R I → ℕ
  rounds_left target c =
      4 * (target - c.now)
      + (bit (push_due exts relays intervals encoded_len config c)
          + (bit (want_due c.router) + bit (have_due c.router)))

  abbrev Less : ℕ → Core E R I → Core E R I → Type 0
  Less target c c' = rounds_left target c' < rounds_left target c

  -- The node after the routing of what the router decided.
  abbrev routed : Core E R I → State → List Effect → Core E R I
  routed c s fx = record c {
    router = s;
    io = (route_fx exts relays encoded_len config s.id c.subscriptions [] [] c.io fx).0;
  }

  flush-Less :
      (target : ℕ) (c : Core E R I) (outs : List Out)
      → push_due exts relays intervals encoded_len config c ≡ true
      → Succeeds (Less target c) (flush exts relays intervals encoded_len config c outs)
  unfolding flush route rounds_left push_due push_deadline want_due have_due
  flush-Less target c outs h =
      if-Succeeds (Less target c) (LogRanges.is_empty c.pending_push) _ _ (λ nothing. ground arith)
        (λ something.
          step_router-Succeeds config _ (Less target c) _ (push c.pending_push) _
            (push-Accepts config.router c.router c.pending_push something)
            (λ s fx same. rw (same.0, same.1) (ground arith)))

  fire_a_want-Less :
      (target : ℕ) (c : Core E R I) (outs : List Out)
      → ((i : I) → 1 ≤ (intervals.next_want i).0)
      → want_due c.router ≡ true
      → Succeeds (Less target c) (fire_a_want exts relays intervals encoded_len config c outs)
  unfolding fire_a_want and_then route rounds_left push_due push_deadline want_due have_due is_due
  fire_a_want-Less target c outs positive h =
      step_router-Succeeds config _ (Less target c) c fire_want _
        (fire_want-Accepts config.router c.router h)
        (λ s fx v.
          arm_want-Succeeds exts relays intervals encoded_len config (Less target c) (routed c s fx)
            _ v.0 (λ i s' w x. rw (w, x, v.1) (ground (arith, positive c.intervals))))

  fire_a_have-Less :
      (target : ℕ) (c : Core E R I) (outs : List Out)
      → ((i : I) → 1 ≤ (intervals.next_have i).0)
      → have_due c.router ≡ true
      → Succeeds (Less target c) (fire_a_have exts relays intervals encoded_len config c outs)
  unfolding fire_a_have rearm_have and_then route rounds_left push_due push_deadline want_due
      have_due is_due
  fire_a_have-Less target c outs positive h =
      step_router-Succeeds config _ (Less target c) c fire_have _
        (fire_have-Accepts config.router c.router h)
        (λ s fx v.
          if-Succeeds (Less target c) (not (LogRanges.is_empty (network_ask s))) _ _
            (λ asked.
              arm_have-Succeeds exts relays intervals encoded_len config (Less target c)
                (routed c s fx) _ v.0 (ground arith)
                (λ i s' w x. rw (w, x, v.1) (ground (arith, positive c.intervals))))
            (λ quiet. rw (v.0, v.1) (ground arith)))

  -- The step is at least one, and goes no further than the target and the timers.
  step_to_lem :
      (c : Core E R I) (target : ℕ)
      → caught_up exts relays intervals encoded_len config c target ≡ false
      → push_due exts relays intervals encoded_len config c ≡ false
      → want_due c.router ≡ false
      → have_due c.router ≡ false
      → let step = step_to exts relays intervals encoded_len config c target in
        (1 ≤ step) × (step ≤ target - c.now) × (in_time step (next_due c.router) ≡ true)
  unfolding caught_up step_to until_push push_due push_deadline nearest next_due earlier want_due
      have_due is_due in_time
  step_to_lem c target h p w v = ground arith

  advance_by-Less :
      (target step : ℕ) (c : Core E R I) (outs : List Out)
      → 1 ≤ step
      → step ≤ target - c.now
      → in_time step (next_due c.router) ≡ true
      → push_due exts relays intervals encoded_len config c ≡ false
      → want_due c.router ≡ false
      → have_due c.router ≡ false
      → Succeeds (Less target c) (advance_by exts relays intervals encoded_len config c step outs)
  unfolding advance_by rounds_left
  advance_by-Less target step c outs low high timely p w v =
      step_router-Succeeds config _ (Less target c) c (tick step) _
        (tick-Accepts config.router c.router step (ground arith) timely) (λ s fx x. ground arith)

  round-Less :
      (target : ℕ) (c : Core E R I) (outs : List Out)
      → ((i : I) → 1 ≤ (intervals.next_want i).0)
      → ((i : I) → 1 ≤ (intervals.next_have i).0)
      → caught_up exts relays intervals encoded_len config c target ≡ false
      → Succeeds (Less target c) (round exts relays intervals encoded_len config c target outs)
  unfolding round
  round-Less target c outs pw ph h =
      if-Succeeds (Less target c) (push_due exts relays intervals encoded_len config c) _ _
        (λ yes'. flush-Less target c outs yes')
        λ no'.
          if-Succeeds (Less target c) (want_due c.router) _ _
            (λ yes'. fire_a_want-Less target c outs pw yes')
            λ no''.
              if-Succeeds (Less target c) (have_due c.router) _ _
                (λ yes'. fire_a_have-Less target c outs ph yes')
                λ no'''.
                  let v = step_to_lem c target h no' no'' no''' in
                  advance_by-Less target (step_to exts relays intervals encoded_len config c target)
                    c outs v.0 v.1 v.2 no' no'' no'''

  -- Caught up, with the target.
  abbrev pub CaughtUp : ℕ → Core E R I → Type 0
  CaughtUp target c = caught_up exts relays intervals encoded_len config c target ≡ true

  nothing_left :
      (target : ℕ) (c : Core E R I)
      → rounds_left target c ≤ 0
      → caught_up exts relays intervals encoded_len config c target ≡ true
  unfolding rounds_left caught_up
  nothing_left target c h = ground arith

  advance-Succeeds :
      (fuel target : ℕ) (c : Core E R I) (outs : List Out)
      → ((i : I) → 1 ≤ (intervals.next_want i).0)
      → ((i : I) → 1 ≤ (intervals.next_have i).0)
      → rounds_left target c ≤ fuel
      → Succeeds
          (CaughtUp target)
          (advance_to exts relays intervals encoded_len config fuel target c outs)
  unfolding advance_to
  advance-Succeeds zero target c outs pw ph h =
      if-Succeeds (CaughtUp target) (caught_up exts relays intervals encoded_len config c target) _
        _ (λ yes'. yes') (λ no'. absurd (cc (nothing_left target c h)))
  advance-Succeeds (suc fuel) target c outs pw ph h =
      if-Succeeds (CaughtUp target) (caught_up exts relays intervals encoded_len config c target) _
        _ (λ yes'. yes')
        (λ no'.
          and_then-Succeeds (Less target c) (CaughtUp target)
            (round exts relays intervals encoded_len config c target outs) _
            (round-Less target c outs pw ph no')
            (λ c' outs' less. advance-Succeeds fuel target c' outs' pw ph (omega arith)))

  rounds_left-le : (target : ℕ) (c : Core E R I) → rounds_left target c ≤ 4 * (target - c.now) + 3
  unfolding rounds_left
  rounds_left-le target c = ground arith

  -- Where every interval is at least one, four rounds for each unit of time to the target and three
  -- more are enough: the loop ends without an error, its clock at the target or past it, and no push
  -- and no timer due.
  pub advance_to-Succeeds :
      (fuel target : ℕ) (c : Core E R I) (outs : List Out)
      → ((i : I) → 1 ≤ (intervals.next_want i).0)
      → ((i : I) → 1 ≤ (intervals.next_have i).0)
      → 4 * (target - c.now) + 3 ≤ fuel
      → Succeeds
          (CaughtUp target)
          (advance_to exts relays intervals encoded_len config fuel target c outs)
  advance_to-Succeeds fuel target c outs pw ph h =
      advance-Succeeds fuel target c outs pw ph (ground (arith, rounds_left-le target c))

  -- An outcome without an error is a node and what it put out.
  pub of_Succeeds :
      (P : Core E R I → Type 0) (o : Outcome E R I)
      → Succeeds P o
      → (c : Core E R I) × (outs : List Out) × (o ≡ Outcome.ok c outs)
  of_Succeeds P (Outcome.ok c outs) h = (c, outs, refl)
  of_Succeeds P (Outcome.err f c) h = absurd (cc h)

  -- Where every interval is at least one and the fuel is enough, an append of what is authored here
  -- first catches up with the time, without an error. Then, if the application's store takes the op,
  -- it has no error and the time is that of the latest append; and if not, its error is that of the
  -- append, the node is the one that caught up, with that store as it is after its answer, and what
  -- catching up put out is lost.
  pub on_append-fails_or_Succeeds :
      (fuel : ℕ) (c : Core E R I) (now : ℕ) (l : Log) (q : ℕ) (op : Op)
      → ((i : I) → 1 ≤ (intervals.next_want i).0)
      → ((i : I) → 1 ≤ (intervals.next_have i).0)
      → 4 * (now - c.now) + 3 ≤ fuel
      → (c1 : Core E R I) × (outs : List Out) × (advance_to exts relays intervals encoded_len config
            fuel now c []
          ≡ Outcome.ok c1 outs)
        × (((exts.ingest c1.io.ext l q op).0 ≡ true
              × Succeeds
                  (λ c'. c'.latest_append ≡ now)
                  (on_append exts relays intervals encoded_len config fuel c now l q op))
            ⊎ ((exts.ingest c1.io.ext l q op).0 ≡ false
                × (on_append exts relays intervals encoded_len config fuel c now l q op
                    ≡ Outcome.err append_failed (record c1 {
                      io = record c1.io { ext = (exts.ingest c1.io.ext l q op).1 };
                    }))))
  unfolding on_append and_then
  on_append-fails_or_Succeeds fuel c now l q op pw ph h =
      let (c1, outs, same) =
        of_Succeeds (CaughtUp now)
          (advance_to exts relays intervals encoded_len config fuel now c [])
          (advance_to-Succeeds fuel now c [] pw ph h) in
      (
        c1,
        outs,
        same,
        rw (same, and_then, on_append)
            (append-fails_or_Succeeds exts relays intervals encoded_len config now l q op c1 outs),
      )
