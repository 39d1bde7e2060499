-- ===== src/Shell/Glue/Succeeds.antt =====
-- shell.rs: outcomes without an error, and the glue that has such outcomes.
use dash_router.Base.{◌≡◌, Bool, true, false, Option, none, some, List, refl, if◌then◌else◌}
use dash_router.Log.{Log, Authors}
use dash_router.LogRanges.{LogRanges}
use dash_router.LogRanges
use dash_router.Router
use dash_router.Router.{State, Action, Effect, Result, holds}
use dash_router.Router.Step.{transition}
use dash_router.Router.Step.Accepts.{Accepts, KeepsTimers, holds-Accepts}
use dash_router.Shell.{
  AsyncStorage, AsyncEvictableStorage, CoreConfig, Out, Core, Outcome, router_refused,
}
use dash_router.Shell.Glue.{
  and_then, on_answer, refresh, step_router, tell_router, reconcile_logs, reconcile_all,
  reconcile_held, relay_failed, with_ext, with_relay,
}

module _ {E R I : Type 0} where
  -- There is no error, and the node after has the property.
  abbrev pub Succeeds : (Core E R I → Type 0) → Outcome E R I → Type 0
  Succeeds P (Outcome.ok c outs) = P c
  Succeeds P (Outcome.err f c) = false ≡ true

  pub and_then-Succeeds :
      (P Q : Core E R I → Type 0) (o : Outcome E R I) (next : Core E R I → List Out → Outcome E R I)
      → Succeeds P o
      → ((c : Core E R I) (outs : List Out) → P c → Succeeds Q (next c outs))
      → Succeeds Q (and_then o next)
  unfolding and_then
  and_then-Succeeds P Q (Outcome.ok c outs) next h k = k c outs h
  and_then-Succeeds P Q (Outcome.err f c) next h k = h

  pub on_answer-Succeeds :
      {A : Type 0} (P : Core E R I → Type 0) (o : Option A) (failed : Outcome E R I)
      (next : A → Outcome E R I)
      → Succeeds P failed
      → ((a : A) → Succeeds P (next a))
      → Succeeds P (on_answer o failed next)
  unfolding on_answer
  on_answer-Succeeds P none failed next h k = h
  on_answer-Succeeds P (some a) failed next h k = k a

  pub if-Succeeds :
      (P : Core E R I → Type 0) (b : Bool) (o o' : Outcome E R I)
      → (b ≡ true → Succeeds P o)
      → (b ≡ false → Succeeds P o')
      → Succeeds P (if b then o else o')
  if-Succeeds P true o o' h k = h refl
  if-Succeeds P false o o' h k = k refl

  module _ ⦃t : Authors⦄ (config : CoreConfig) where
    pub step_router-Succeeds :
        (P : State → Type 0) (Q : Core E R I → Type 0) (c : Core E R I) (a : Action)
        (next : Core E R I → List Effect → Outcome E R I)
        → Accepts P (transition config.router c.router a)
        → ((s : State) (fx : List Effect) → P s → Succeeds Q (next (record c { router = s }) fx))
        → Succeeds Q (step_router config c a next)
    unfolding step_router
    step_router-Succeeds P Q c a next h k = go (transition config.router c.router a) h
      where
        go :
            (r : Result)
            → Accepts P r
            → Succeeds Q (elim r [
              | Router.ok s fx ↦ next (record c { router = s }) fx
              | Router.err e ↦ Outcome.err (router_refused e) c
            ])
        go (Router.ok s fx) h = k s fx h
        go (Router.err e) h = h

    -- The node after has the timers of the node before.
    abbrev pub SameTimers : Core E R I → Core E R I → Type 0
    SameTimers c c' = KeepsTimers c.router c'.router

    tell_router-Succeeds :
        (c : Core E R I) (cache : LogRanges) (outs : List Out)
        → Succeeds (SameTimers c) (tell_router config c cache outs)
    unfolding tell_router
    tell_router-Succeeds c cache outs =
        step_router-Succeeds (KeepsTimers c.router) (SameTimers c) (record c { held_cache = cache })
          (holds cache) (λ c' fx. Outcome.ok c' outs) (holds-Accepts config.router c.router cache)
          (λ s fx h. h)

    module _ (exts : AsyncStorage E) (relays : AsyncEvictableStorage R) where
      pub reconcile_held-Succeeds :
          (c : Core E R I) (touched : Option (List Log)) (outs : List Out)
          → Succeeds (SameTimers c) (reconcile_held config exts relays c touched outs)
      unfolding reconcile_held reconcile_logs reconcile_all relay_failed with_ext with_relay
      reconcile_held-Succeeds c (some logs) outs =
          let in_ext = exts.held_of c.io.ext logs in
          let in_relay = relays.storage.held_of c.io.relay logs in
          on_answer-Succeeds (SameTimers c) in_ext.0 _ _ (refl, refl)
            λ ext_held.
              on_answer-Succeeds (SameTimers c) in_relay.0 _ _ (refl, refl)
                λ relay_held.
                  tell_router-Succeeds _
                    (refresh c.held_cache (LogRanges.union ext_held relay_held) logs) outs
      reconcile_held-Succeeds c none outs =
          let in_ext = exts.held_all c.io.ext in
          let in_relay = relays.storage.held_all c.io.relay in
          on_answer-Succeeds (SameTimers c) in_ext.0 _ _ (refl, refl)
            λ ext_all.
              on_answer-Succeeds (SameTimers c) in_relay.0 _ _ (refl, refl)
                λ relay_all. tell_router-Succeeds _ (LogRanges.union ext_all relay_all) outs
