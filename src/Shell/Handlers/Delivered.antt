-- ===== src/Shell/Handlers/Delivered.antt =====
-- shell.rs: what the node reports as delivered, while it handles a message, is in the application's
-- store.
use dash_router.Base.{ℕ, zero, suc, ◌+◌, not, ◌&&◌, Option, some, List, [], ◌++◌, ◌==◌}
use dash_router.Log.{Log, Authors}
use dash_router.LogRanges
use dash_router.LogRanges.{LogRanges}
use dash_router.Interest.{Interest}
use dash_router.Wire
use dash_router.Wire.{WireMessage, WireBody}
use dash_router.Router.{Effect, network_ask, want_due, have_due}
use dash_router.Node.{Parked, park}
use dash_router.Shell.{
  AsyncStorage, AsyncEvictableStorage, IntervalSource, CoreConfig, Out, Core, Incoming,
}
use dash_router.Shell.Glue.{Ingesting, ingest_parked, route_fx}
use dash_router.Shell.Glue.Landing.{
  Keeps, Honest-append, Honest-Grows, AllLanded, AllLanded-Grows, ingest_parked-AllLanded,
  ingest_parked-Honest, ingest_parked-Grows, route_fx-Honest,
}
use dash_router.Shell.Glue.Truthful.{
  Yields, and_then-Yields, on_answer-Yields, if-Yields, step_router-Yields, Truthful, Stays,
  reconcile_held-Stays,
}
use dash_router.Shell.Handlers.{
  is_armed, route, arm_want, arm_have, flush, fire_a_want, rearm_have, fire_a_have, advance_by,
  push_due, round, caught_up, advance_to, drop_msg, arm_for_want, receive_want, receive_have,
  receive, is_foreign, is_forged, accept_wire, on_wire, keys_of,
}

module _ {E R I : Type 0} ⦃t : Authors⦄ (exts : AsyncStorage E) (relays : AsyncEvictableStorage R)
    (intervals : IntervalSource I) (encoded_len : WireMessage → ℕ) (config : CoreConfig)
    (keeps : Keeps exts) where
  abbrev pub True : Core E R I → List Out → Type 0
  True = Truthful config exts relays keeps

  route-Truthful :
      (c : Core E R I) (parked : Parked) (failed : List (Log × ℕ)) (fx : List Effect)
      (outs : List Out)
      → AllLanded exts relays keeps c.subscriptions failed c.io.ext parked
      → True c outs
      → Yields True (route exts relays intervals encoded_len config c parked failed fx outs)
  unfolding route
  route-Truthful c parked failed fx outs v h =
      let r =
        route_fx-Honest exts relays keeps encoded_len config c.router.id c.subscriptions parked
          failed c.io fx v in
      let e : E =
        (route_fx exts relays encoded_len config c.router.id c.subscriptions parked failed c.io
          fx).0.ext in
      Honest-append exts relays keeps e outs _
        (Honest-Grows exts relays keeps c.io.ext e outs r.0 h) r.1

  arm_have-Truthful :
      (c : Core E R I) (outs : List Out)
      → True c outs
      → Yields True (arm_have exts relays intervals encoded_len config c outs)
  unfolding arm_have
  arm_have-Truthful c outs h = step_router-Yields config True _ _ _ (λ s fx. h)

  receive_want-Truthful :
      (c : Core E R I) (sender : ℕ) (interest : Interest) (outs : List Out)
      → True c outs
      → Yields True (receive_want exts relays intervals encoded_len config c sender interest outs)
  unfolding receive_want arm_for_want
  receive_want-Truthful c sender interest outs h = step_router-Yields config True c _ _ (λ s fx.
      and_then-Yields True True _ _ (route-Truthful (record c { router = s }) [] [] fx outs tt h)
        (λ c' outs' h'.
          if-Yields True
            (not (is_armed c'.router.have_timer)
              && not (LogRanges.is_empty (network_ask c'.router)))
            _ _ (arm_have-Truthful c' outs' h') h'))

  receive_have-Truthful :
      (c : Core E R I) (sender : ℕ) (parked : Parked) (outs : List Out)
      → True c outs
      → Yields True (receive_have exts relays intervals encoded_len config c sender parked outs)
  unfolding receive_have
  receive_have-Truthful c sender parked outs h = step_router-Yields config True c _ _ (λ s fx.
      let x : Ingesting exts relays =
        ingest_parked exts relays c.subscriptions config.relay_cap c.io parked in
      let c1 : Core E R I = record c { router = s; io = x.io } in
      and_then-Yields (Stays config exts relays keeps c1) True _ _
        (reconcile_held-Stays config exts relays keeps c1 (some (keys_of parked)) (outs ++ x.outs) (
          Honest-append exts relays keeps x.io.ext outs x.outs
            (Honest-Grows exts relays keeps c.io.ext x.io.ext outs
              (ingest_parked-Grows exts relays keeps c.subscriptions config.relay_cap c.io parked)
              h)
            (ingest_parked-Honest exts relays keeps x.io.ext c.subscriptions config.relay_cap c.io
              parked)))
        (λ c2 outs' v.
          route-Truthful c2 parked x.failed fx outs'
            (rw v.1 (
              AllLanded-Grows exts relays keeps c.subscriptions x.failed x.io.ext c2.io.ext parked
                v.0
                (ingest_parked-AllLanded exts relays keeps c.subscriptions config.relay_cap c.io
                  parked)))
            v.2))

  accept_wire-Truthful :
      (decode : List ℕ → Option WireMessage) (peer_key : ℕ → Option ℕ) (inc : Incoming)
      (c : Core E R I) (outs : List Out)
      → True c outs
      → Yields True
          (accept_wire exts relays intervals encoded_len config decode peer_key inc c outs)
  unfolding accept_wire drop_msg receive
  accept_wire-Truthful decode peer_key inc c outs h =
      if-Yields True (is_foreign exts relays intervals encoded_len config inc.remote) _ _ h (
        on_answer-Yields True (decode inc.bytes) _ _ h λ msg.
          if-Yields True (msg.sender == c.router.id) _ _ h (
            if-Yields True
              (is_forged exts relays intervals encoded_len config peer_key inc.author msg.sender) _
              _ h (body msg msg.body)))
    where
      body :
          (msg : WireMessage) (b : WireBody)
          → Yields True (
              receive exts relays intervals encoded_len config
                (record c { recv_msgs = c.recv_msgs + 1 })
                (record msg { body = b })
                outs)
      body msg (Wire.want interest) = receive_want-Truthful _ msg.sender interest outs h
      body msg (Wire.have ops) = receive_have-Truthful _ msg.sender (park [] ops) outs h

  arm_want-Truthful :
      (c : Core E R I) (outs : List Out)
      → True c outs
      → Yields True (arm_want exts relays intervals encoded_len config c outs)
  unfolding arm_want
  arm_want-Truthful c outs h = step_router-Yields config True _ _ _ (λ s fx. h)

  route_nothing-Truthful :
      (c : Core E R I) (fx : List Effect) (outs : List Out)
      → True c outs
      → Yields True (route exts relays intervals encoded_len config c [] [] fx outs)
  route_nothing-Truthful c fx outs h = route-Truthful c [] [] fx outs tt h

  round-Truthful :
      (c : Core E R I) (target : ℕ) (outs : List Out)
      → True c outs
      → Yields True (round exts relays intervals encoded_len config c target outs)
  unfolding round flush fire_a_want fire_a_have rearm_have advance_by
  round-Truthful c target outs h =
      if-Yields True (push_due exts relays intervals encoded_len config c) _ _
        (if-Yields True (LogRanges.is_empty c.pending_push) _ _ (route_nothing-Truthful _ [] outs h)
          (step_router-Yields config True _ _ _ (λ s fx. route_nothing-Truthful _ fx outs h)))
        (if-Yields True (want_due c.router) _ _
          (step_router-Yields config True c _ _ (λ s fx.
            and_then-Yields True True _ _ (route_nothing-Truthful _ fx outs h)
              (λ c' outs' h'. arm_want-Truthful c' outs' h')))
          (if-Yields True (have_due c.router) _ _
            (step_router-Yields config True c _ _ (λ s fx.
              and_then-Yields True True _ _ (route_nothing-Truthful _ fx outs h) (λ c' outs' h'.
                if-Yields True (not (LogRanges.is_empty (network_ask c'.router))) _ _
                  (arm_have-Truthful c' outs' h') h')))
            (step_router-Yields config True c _ _ (λ s fx. h))))

  advance_to-Truthful :
      (fuel target : ℕ) (c : Core E R I) (outs : List Out)
      → True c outs
      → Yields True (advance_to exts relays intervals encoded_len config fuel target c outs)
  unfolding advance_to
  advance_to-Truthful zero target c outs h =
      if-Yields True (caught_up exts relays intervals encoded_len config c target) _ _ h tt
  advance_to-Truthful (suc fuel) target c outs h =
      if-Yields True (caught_up exts relays intervals encoded_len config c target) _ _ h (
        and_then-Yields True True _ _ (round-Truthful c target outs h)
          (λ c' outs' h'. advance_to-Truthful fuel target c' outs' h'))

  -- Of an application's store that takes no op away, and has every op that it took with success: each
  -- op that the node reports as delivered, from when a message arrives until it is handled, is in
  -- that store at the end, whichever ingests failed.
  pub on_wire-Truthful :
      (decode : List ℕ → Option WireMessage) (peer_key : ℕ → Option ℕ) (fuel : ℕ) (c : Core E R I)
      (now : ℕ) (inc : Incoming)
      → Yields True
          (on_wire exts relays intervals encoded_len config decode peer_key fuel c now inc)
  unfolding on_wire
  on_wire-Truthful decode peer_key fuel c now inc =
      and_then-Yields True True (advance_to exts relays intervals encoded_len config fuel now c [])
        _ (advance_to-Truthful fuel now c [] tt)
        (λ c' outs h. accept_wire-Truthful decode peer_key inc c' outs h)
