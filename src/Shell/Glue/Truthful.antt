-- ===== src/Shell/Glue/Truthful.antt =====
-- shell.rs: the glue reports as delivered only what the application's store has.
use dash_router.Base.{◌≡◌, Bool, true, false, Option, none, some, List, refl, if◌then◌else◌}
use dash_router.Log.{Log, Authors}
use dash_router.LogRanges.{LogRanges}
use dash_router.Router
use dash_router.Router.{State, Action, Effect, Result, holds}
use dash_router.Router.Step.{transition}
use dash_router.Shell.{
  AsyncStorage, AsyncEvictableStorage, CoreConfig, Out, Core, Outcome, router_refused,
}
use dash_router.Shell.Glue.{
  and_then, on_answer, step_router, tell_router, reconcile_logs, reconcile_all, reconcile_held,
  relay_failed, with_ext, with_relay, relay_error,
}
use dash_router.Shell.Glue.Landing.{Keeps, Grows, Honest, Honest-append, Honest-Grows}

module _ {E R I : Type 0} where
  -- If there is no error, the node after and what it gives out have the property.
  abbrev pub Yields : (Core E R I → List Out → Type 0) → Outcome E R I → Type 0
  Yields P (Outcome.ok c outs) = P c outs
  Yields P (Outcome.err f c) = Unit {0}

  pub and_then-Yields :
      (P Q : Core E R I → List Out → Type 0) (o : Outcome E R I)
      (next : Core E R I → List Out → Outcome E R I)
      → Yields P o
      → ((c : Core E R I) (outs : List Out) → P c outs → Yields Q (next c outs))
      → Yields Q (and_then o next)
  unfolding and_then
  and_then-Yields P Q (Outcome.ok c outs) next h k = k c outs h
  and_then-Yields P Q (Outcome.err f c) next h k = tt

  pub on_answer-Yields :
      {A : Type 0} (P : Core E R I → List Out → Type 0) (o : Option A) (failed : Outcome E R I)
      (next : A → Outcome E R I)
      → Yields P failed
      → ((a : A) → Yields P (next a))
      → Yields P (on_answer o failed next)
  unfolding on_answer
  on_answer-Yields P none failed next h k = h
  on_answer-Yields P (some a) failed next h k = k a

  pub if-Yields :
      (P : Core E R I → List Out → Type 0) (b : Bool) (o o' : Outcome E R I)
      → Yields P o
      → Yields P o'
      → Yields P (if b then o else o')
  if-Yields P true o o' h k = h
  if-Yields P false o o' h k = k

  module _ ⦃t : Authors⦄ (config : CoreConfig) where
    pub step_router-Yields :
        (P : Core E R I → List Out → Type 0) (c : Core E R I) (a : Action)
        (next : Core E R I → List Effect → Outcome E R I)
        → ((s : State) (fx : List Effect) → Yields P (next (record c { router = s }) fx))
        → Yields P (step_router config c a next)
    unfolding step_router
    step_router-Yields P c a next k = go (transition config.router c.router a)
      where
        go :
            (r : Result)
            → Yields P (elim r [
              | Router.ok s fx ↦ next (record c { router = s }) fx
              | Router.err e ↦ Outcome.err (router_refused e) c
            ])
        go (Router.ok s fx) = k s fx
        go (Router.err e) = tt

    module _ (exts : AsyncStorage E) (relays : AsyncEvictableStorage R) (keeps : Keeps exts) where
      -- What is reported is in the application's store.
      abbrev pub Truthful : Core E R I → List Out → Type 0
      Truthful c outs = Honest exts relays keeps c.io.ext outs

      -- Nothing left the store, the subscriptions are the same, and the reports stay true.
      abbrev pub Stays : Core E R I → Core E R I → List Out → Type 0
      Stays c c' outs' =
          Grows exts relays keeps c.io.ext c'.io.ext
          × (c'.subscriptions ≡ c.subscriptions)
          × Truthful c' outs'

      pub reconcile_held-Stays :
          (c : Core E R I) (touched : Option (List Log)) (outs : List Out)
          → Truthful c outs
          → Yields (Stays c) (reconcile_held config exts relays c touched outs)
      unfolding reconcile_held reconcile_logs reconcile_all relay_failed with_ext with_relay
          tell_router relay_error
      reconcile_held-Stays c (some logs) outs h =
          let in_ext : Option LogRanges × E = exts.held_of c.io.ext logs in
          let in_relay : Option LogRanges × R = relays.storage.held_of c.io.relay logs in
          let grows : Grows exts relays keeps c.io.ext in_ext.1 =
            keeps.held_of-keeps c.io.ext logs in
          let honest : Honest exts relays keeps in_ext.1 outs =
            Honest-Grows exts relays keeps c.io.ext in_ext.1 outs grows h in
          on_answer-Yields (Stays c) in_ext.0 _ _
            (grows, refl, Honest-append exts relays keeps in_ext.1 outs _ honest tt)
            λ ext_held.
              on_answer-Yields (Stays c) in_relay.0 _ _ (grows, refl, honest)
                λ relay_held. step_router-Yields (Stays c) _ _ _ (λ s fx. (grows, refl, honest))
      reconcile_held-Stays c none outs h =
          let in_ext : Option LogRanges × E = exts.held_all c.io.ext in
          let in_relay : Option LogRanges × R = relays.storage.held_all c.io.relay in
          let grows : Grows exts relays keeps c.io.ext in_ext.1 = keeps.held_all-keeps c.io.ext in
          let honest : Honest exts relays keeps in_ext.1 outs =
            Honest-Grows exts relays keeps c.io.ext in_ext.1 outs grows h in
          on_answer-Yields (Stays c) in_ext.0 _ _
            (grows, refl, Honest-append exts relays keeps in_ext.1 outs _ honest tt)
            λ ext_all.
              on_answer-Yields (Stays c) in_relay.0 _ _ (grows, refl, honest)
                λ relay_all. step_router-Yields (Stays c) _ _ _ (λ s fx. (grows, refl, honest))
