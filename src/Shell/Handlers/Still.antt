-- ===== src/Shell/Handlers/Still.antt =====
-- shell.rs: a message that arrives makes the node panic only where its Want has an invalid entry.
use dash_router.Base.{
  ℕ, ◌+◌, ◌-◌, ◌*◌, ◌≤◌, ◌≡◌, Bool, not, ◌&&◌, Option, none, some, List, [], ◌++◌, ◌==◌, ◌∙◌, refl,
}
use dash_router.Log.{Log, Authors}
use dash_router.LogRanges
use dash_router.Interest.{Interest}
use dash_router.Wire
use dash_router.Wire.{WireMessage, WireBody}
use dash_router.Router.{Effect, network_ask, recv_want, recv_have}
use dash_router.Router.Step.Sends.{AllWants, recv_want-Sends, recv_have-Sends}
use dash_router.Node.{Parked, park, ranges_of}
use dash_router.Shell.{
  AsyncStorage, AsyncEvictableStorage, IntervalSource, CoreConfig, Out, Core, Outcome, Incoming,
}
use dash_router.Shell.Glue.{Ingesting, ingest_parked, and_then}
use dash_router.Shell.Glue.Succeeds.{Succeeds}
use dash_router.Shell.Glue.Truthful.{Yields, and_then-Yields, if-Yields, step_router-Yields}
use dash_router.Shell.Glue.Still.{
  ValidEntries, Still, ingest_parked-panicked, route_fx-panicked, step_router-Sends,
  reconcile_held-Still, on_answer-each, Succeeds-Yields,
}
use dash_router.Shell.Handlers.{
  is_armed, route, arm_have, advance_to, drop_msg, arm_for_want, receive_want, receive_have,
  receive, is_foreign, is_forged, accept_wire, on_wire, keys_of,
}
use dash_router.Shell.Handlers.Errors.{Any, accept_wire-Succeeds}
use dash_router.Shell.Handlers.Fuel.{CaughtUp, of_Succeeds, advance_to-Succeeds}

module _ {E R I : Type 0} ⦃t : Authors⦄ (exts : AsyncStorage E) (relays : AsyncEvictableStorage R)
    (intervals : IntervalSource I) (encoded_len : WireMessage → ℕ) (config : CoreConfig) where
  -- The entries of a Want that was decoded are valid.
  abbrev pub ValidBody : WireBody → Type 0
  ValidBody (Wire.want i) = ValidEntries i
  ValidBody (Wire.have ops) = Unit {0}

  abbrev pub ValidMessage : Option WireMessage → Type 0
  ValidMessage none = Unit {0}
  ValidMessage (some msg) = ValidBody msg.body

  route-Still :
      (b : Bool) (c : Core E R I) (parked : Parked) (failed : List (Log × ℕ)) (fx : List Effect)
      (outs : List Out)
      → AllWants ValidEntries fx
      → Still b c outs
      → Yields (Still b) (route exts relays intervals encoded_len config c parked failed fx outs)
  unfolding route
  route-Still b c parked failed fx outs v h =
      route_fx-panicked exts relays encoded_len config c.router.id c.subscriptions parked failed
        c.io fx v
      ∙ h

  arm_for_want-Still :
      (b : Bool) (c : Core E R I) (outs : List Out)
      → Still b c outs
      → Yields (Still b) (arm_for_want exts relays intervals encoded_len config c outs)
  unfolding arm_for_want arm_have
  arm_for_want-Still b c outs h =
      if-Yields (Still b)
        (not (is_armed c.router.have_timer) && not (LogRanges.is_empty (network_ask c.router))) _ _
        (step_router-Yields config (Still b) _ _ _ (λ s fx. h)) h

  receive_want-Still :
      (b : Bool) (c : Core E R I) (sender : ℕ) (i : Interest) (outs : List Out)
      → ValidBody (Wire.want i)
      → Still b c outs
      → Yields (Still b) (receive_want exts relays intervals encoded_len config c sender i outs)
  unfolding receive_want
  receive_want-Still b c sender i outs v h =
      step_router-Sends config ValidEntries (Still b) c (recv_want sender i) _
        (recv_want-Sends config.router c.router ValidEntries sender i v)
        (λ s fx w.
          and_then-Yields (Still b) (Still b) _ _
            (route-Still b (record c { router = s }) [] [] fx outs w h)
            (λ c' outs' h'. arm_for_want-Still b c' outs' h'))

  receive_have-Still :
      (b : Bool) (c : Core E R I) (sender : ℕ) (parked : Parked) (outs : List Out)
      → Still b c outs
      → Yields
          (Still b)
          (receive_have exts relays intervals encoded_len config c sender parked outs)
  unfolding receive_have
  receive_have-Still b c sender parked outs h =
      step_router-Sends config ValidEntries (Still b) c (recv_have sender (ranges_of parked)) _
        (recv_have-Sends config.router c.router ValidEntries sender (ranges_of parked))
        (λ s fx w.
          let x : Ingesting exts relays =
            ingest_parked exts relays c.subscriptions config.relay_cap c.io parked in
          let c1 : Core E R I = record c { router = s; io = x.io } in
          and_then-Yields (Still b) (Still b) _ _
            (reconcile_held-Still config exts relays b c1 (some (keys_of parked)) (outs ++ x.outs)
              (ingest_parked-panicked exts relays c.subscriptions config.relay_cap c.io parked ∙ h))
            (λ c2 outs' h'. route-Still b c2 parked x.failed fx outs' w h'))

  accept_wire-Still :
      (decode : List ℕ → Option WireMessage) (peer_key : ℕ → Option ℕ) (inc : Incoming) (b : Bool)
      (c : Core E R I) (outs : List Out)
      → ValidMessage (decode inc.bytes)
      → Still b c outs
      → Yields
          (Still b)
          (accept_wire exts relays intervals encoded_len config decode peer_key inc c outs)
  unfolding accept_wire drop_msg receive
  accept_wire-Still decode peer_key inc b c outs v h =
      if-Yields (Still b) (is_foreign exts relays intervals encoded_len config inc.remote) _ _ h (
        on_answer-each (Still b) (decode inc.bytes) _ _ h λ msg e.
          if-Yields (Still b) (msg.sender == c.router.id) _ _ h (
            if-Yields (Still b)
              (is_forged exts relays intervals encoded_len config peer_key inc.author msg.sender) _
              _ h (body msg msg.body (rw e at v))))
    where
      body :
          (msg : WireMessage) (x : WireBody)
          → ValidBody x
          → Yields (Still b) (
              receive exts relays intervals encoded_len config
                (record c { recv_msgs = c.recv_msgs + 1 })
                (record msg { body = x })
                outs)
      body msg (Wire.want i) v = receive_want-Still b _ msg.sender i outs v h
      body msg (Wire.have ops) v = receive_have-Still b _ msg.sender (park [] ops) outs h

  -- Where the fuel is enough, every interval is at least one, and the entries of the Want that a
  -- message decodes to, if it is one, are valid: the node catches up with the time without an error,
  -- and then handles the message without an error, whatever the stores answer, and without a panic.
  pub on_wire-Succeeds :
      (decode : List ℕ → Option WireMessage) (peer_key : ℕ → Option ℕ) (fuel : ℕ) (c : Core E R I)
      (now : ℕ) (inc : Incoming)
      → ((i : I) → 1 ≤ (intervals.next_want i).0)
      → ((i : I) → 1 ≤ (intervals.next_have i).0)
      → 4 * (now - c.now) + 3 ≤ fuel
      → ValidMessage (decode inc.bytes)
      → (c1 : Core E R I) × (outs : List Out) × (advance_to exts relays intervals encoded_len config
            fuel now c []
          ≡ Outcome.ok c1 outs)
        × Succeeds
            (λ c'. c'.io.panicked ≡ c1.io.panicked)
            (on_wire exts relays intervals encoded_len config decode peer_key fuel c now inc)
  unfolding on_wire and_then
  on_wire-Succeeds decode peer_key fuel c now inc pw ph h v =
      let (c1, outs, same) =
        of_Succeeds exts relays intervals encoded_len config
          (CaughtUp exts relays intervals encoded_len config now)
          (advance_to exts relays intervals encoded_len config fuel now c [])
          (advance_to-Succeeds exts relays intervals encoded_len config fuel now c [] pw ph h) in
      (
        c1,
        outs,
        same,
        rw (same, and_then, on_wire)
            (Succeeds-Yields (Any exts relays intervals encoded_len config) (Still c1.io.panicked)
              (λ c'. c'.io.panicked ≡ c1.io.panicked)
              (accept_wire exts relays intervals encoded_len config decode peer_key inc c1 outs)
              (λ c' outs' k. k)
              (accept_wire-Succeeds exts relays intervals encoded_len config decode peer_key inc c1
                outs)
              (accept_wire-Still decode peer_key inc c1.io.panicked c1 outs v refl)),
      )
