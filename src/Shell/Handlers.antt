-- ===== src/Shell/Handlers.antt =====
-- shell.rs: the time engine `advance_to`, and a handler for each thing that can happen to the node.
pub mod Errors
pub mod Fuel
pub mod Delivered
pub mod Still
pub mod Migrate
use dash_router.Base.{
  ℕ, zero, suc, ◌+◌, ◌-◌, Bool, true, false, not, ◌&&◌, ◌||◌, Option, none, some, List, [], ◌∷◌,
  ◌++◌, ltb, leb, ◌==◌, elem, if◌then◌else◌,
}
use dash_router.Base.Order.{Ord, same, nat_ord}
use dash_router.BtreeMap
use dash_router.BtreeMap.{BtreeMap}
use dash_router.Log.{Log, Authors, log_ord}
use dash_router.Ranges
use dash_router.Ranges.{Ranges}
use dash_router.LogRanges
use dash_router.LogRanges.{LogRanges}
use dash_router.Interest.{Interest}
use dash_router.Storage.{Op}
use dash_router.Wire
use dash_router.Wire.{WireMessage, WireBody}
use dash_router.Router
use dash_router.Router.{
  State, Action, tick, arm_want_timer, arm_have_timer, fire_want, fire_have, opens, recv_want,
  recv_have, push, Effect, want_due, have_due, next_due, network_ask,
}
use dash_router.Node.{Parked, ranges_of, park, eviction_candidates, full_each}
use dash_router.Lan.{IpAddr, is_lan}
use dash_router.Policy.{deadline}
use dash_router.Shell.{
  AsyncStorage, AsyncEvictableStorage, IntervalSource, CoreConfig, Context, subscribe_ingest, Out,
  storage_error, Failure, append_failed, out_of_fuel, Io, Core, Outcome, Incoming,
}
use dash_router.Shell.Glue.{
  Ingesting, ingest_parked, route_fx, step_router, and_then, on_answer, reconcile_held, relay_error,
}

-- `iter().map(|(l, _)| l).collect()`
logs_of : List (Log × Ranges) → List Log
logs_of [] = []
logs_of ((l, r) ∷ ps) = BtreeMap.set_insert (logs_of ps) l

keys_of : Parked → List Log
keys_of [] = []
keys_of (((l, s), op) ∷ parked) = BtreeMap.set_insert (keys_of parked) l

is_armed : {A : Type 0} → Option A → Bool
is_armed none = false
is_armed (some x) = true

module _ {E R I : Type 0} ⦃t : Authors⦄ (exts : AsyncStorage E) (relays : AsyncEvictableStorage R)
    (intervals : IntervalSource I) (encoded_len : WireMessage → ℕ) (config : CoreConfig) where
  -- `next_deadline`
  push_deadline : Core E R I → Option ℕ
  push_deadline c = elim c.pending_since [
    | none ↦ none
    | some oldest ↦ some (deadline config.debounce oldest c.latest_append)
  ]

  pub next_deadline : Core E R I → Option ℕ
  next_deadline c = elim (next_due c.router) [
    | none ↦ push_deadline c
    | some due ↦ elim (push_deadline c) [
      | none ↦ some (c.now + due)
      | some flush ↦ some (if ltb flush (c.now + due) then flush else c.now + due)
    ]
  ]

  -- `route_fx` with nothing parked.
  pub route : Core E R I → Parked → List (Log × ℕ) → List Effect → List Out → Outcome E R I
  route c parked failed fx outs =
      let (io, more) =
        route_fx exts relays encoded_len config c.router.id c.subscriptions parked failed c.io fx in
      Outcome.ok (record c { io = io }) (outs ++ more)

  pub arm_want : Core E R I → List Out → Outcome E R I
  arm_want c outs =
      let (interval, i) = intervals.next_want c.intervals in
      step_router config (record c { intervals = i }) (arm_want_timer interval)
        λ c' fx. Outcome.ok c' outs

  pub arm_have : Core E R I → List Out → Outcome E R I
  arm_have c outs =
      let (interval, i) = intervals.next_have c.intervals in
      step_router config (record c { intervals = i }) (arm_have_timer interval)
        λ c' fx. Outcome.ok c' outs

  pub init : Core E R I → Outcome E R I
  init c = and_then (reconcile_held config exts relays c none []) arm_want

  -- `flush_push`, and the routing of what it decides.
  flush : Core E R I → List Out → Outcome E R I
  flush c outs =
      let c1 = record c { pending_push = LogRanges.empty; pending_since = none } in
      if LogRanges.is_empty c.pending_push
      then route c1 [] [] [] outs
      else step_router config c1 (push c.pending_push) λ c2 fx. route c2 [] [] fx outs

  fire_a_want : Core E R I → List Out → Outcome E R I
  fire_a_want c outs =
      step_router config c fire_want λ c1 fx. and_then (route c1 [] [] fx outs) arm_want

  rearm_have : Core E R I → List Out → Outcome E R I
  rearm_have c outs =
      if not (LogRanges.is_empty (network_ask c.router)) then arm_have c outs else Outcome.ok c outs

  fire_a_have : Core E R I → List Out → Outcome E R I
  fire_a_have c outs =
      step_router config c fire_have λ c1 fx. and_then (route c1 [] [] fx outs) rearm_have

  -- The step to the nearest of the target, the timers and the deadline of the push.
  nearest : ℕ → Option ℕ → ℕ
  nearest step none = step
  nearest step (some due) = if ltb due step then due else step

  until_push : Core E R I → Option ℕ
  until_push c = elim (push_deadline c) [ none ↦ none | some flush ↦ some (flush - c.now) ]

  step_to : Core E R I → ℕ → ℕ
  step_to c target = nearest (nearest (target - c.now) (next_due c.router)) (until_push c)

  advance_by : Core E R I → ℕ → List Out → Outcome E R I
  advance_by c step outs =
      step_router config c (tick step) λ c' fx. Outcome.ok (record c' { now = c'.now + step }) outs

  push_due : Core E R I → Bool
  push_due c = elim (push_deadline c) [ none ↦ false | some flush ↦ leb flush c.now ]

  -- One round of the loop of `advance_to`, if it is not caught up.
  round : Core E R I → ℕ → List Out → Outcome E R I
  round c target outs =
      if push_due c
      then flush c outs
      else if want_due c.router
      then fire_a_want c outs
      else if have_due c.router
      then fire_a_have c outs
      else advance_by c (step_to c target) outs

  pub caught_up : Core E R I → ℕ → Bool
  caught_up c target =
      not (push_due c) && (not (want_due c.router) && (not (have_due c.router) && leb target c.now))

  pub advance_to : ℕ → ℕ → Core E R I → List Out → Outcome E R I
  advance_to zero target c outs =
      if caught_up c target then Outcome.ok c outs else Outcome.err out_of_fuel c
  advance_to (suc fuel) target c outs =
      if caught_up c target
      then Outcome.ok c outs
      else and_then (round c target outs) (advance_to fuel target)

  drop_msg : Core E R I → List Out → Outcome E R I
  drop_msg c outs = Outcome.ok (record c { dropped_msgs = c.dropped_msgs + 1 }) outs

  -- A Want arms the Have timer if it is not armed and the node has something to answer with.
  arm_for_want : Core E R I → List Out → Outcome E R I
  arm_for_want c outs =
      if not (is_armed c.router.have_timer) && not (LogRanges.is_empty (network_ask c.router))
      then arm_have c outs
      else Outcome.ok c outs

  receive_want : Core E R I → ℕ → Interest → List Out → Outcome E R I
  receive_want c sender interest outs =
      step_router config c (recv_want sender interest)
        λ c1 fx. and_then (route c1 [] [] fx outs) arm_for_want

  -- All parked bytes go in first; what `ext` did not take is not reported as delivered.
  pub receive_have : Core E R I → ℕ → Parked → List Out → Outcome E R I
  receive_have c sender parked outs =
      step_router config c (recv_have sender (ranges_of parked)) λ c1 fx.
        let s = ingest_parked exts relays c1.subscriptions config.relay_cap c1.io parked in
        and_then
          (reconcile_held config exts relays (record c1 { io = s.io }) (some (keys_of parked))
            (outs ++ s.outs))
          λ c2 outs'. route c2 parked s.failed fx outs'

  -- A message that passed the checks.
  pub receive : Core E R I → WireMessage → List Out → Outcome E R I
  receive c msg outs =
      let c1 = record c {
        peers_heard = BtreeMap.set_insert c.peers_heard msg.sender;
        peers_seen = BtreeMap.set_insert c.peers_seen msg.sender;
      } in
      elim msg.body [
        | Wire.want interest ↦ receive_want c1 msg.sender interest outs
        | Wire.have ops ↦ receive_have c1 msg.sender (park [] ops) outs
      ]

  is_foreign : Option IpAddr → Bool
  is_foreign none = false
  is_foreign (some ip) = not (is_lan ip)

  -- `msg.sender.peer_key() != Some(author)`, where the transport verified an author.
  is_forged : (ℕ → Option ℕ) → Option ℕ → ℕ → Bool
  is_forged peer_key none sender = false
  is_forged peer_key (some author) sender = elim (peer_key sender) [
    | none ↦ true
    | some key ↦ not (key == author)
  ]

  -- `on_wire` after `advance_to`.
  pub accept_wire :
      (List ℕ → Option WireMessage)
      → (ℕ → Option ℕ)
      → Incoming
      → Core E R I
      → List Out
      → Outcome E R I
  accept_wire decode peer_key inc c0 outs =
      let c = record c0 { recv_msgs = c0.recv_msgs + 1 } in
      if is_foreign inc.remote
      then drop_msg c outs
      else on_answer (decode inc.bytes) (drop_msg c outs) λ msg.
        if msg.sender == c.router.id
        then drop_msg c outs
        else if is_forged peer_key inc.author msg.sender
        then drop_msg c outs
        else receive c msg outs

  pub on_wire :
      (List ℕ → Option WireMessage) → (ℕ → Option ℕ) → ℕ → Core E R I → ℕ → Incoming → Outcome E R I
  on_wire decode peer_key fuel c now inc =
      and_then (advance_to fuel now c []) (accept_wire decode peer_key inc)

  add_pending : Core E R I → ℕ → Log → ℕ → List Out → Outcome E R I
  add_pending c now l q outs =
      Outcome.ok
        (record c {
          pending_push =
              LogRanges.union c.pending_push
                (LogRanges.from_pairs ((l, Ranges.from_seqs (q ∷ [])) ∷ []));
          pending_since = if is_armed c.pending_since then c.pending_since else some now;
          latest_append = now;
        })
        outs

  pub append : ℕ → Log → ℕ → Op → Core E R I → List Out → Outcome E R I
  append now l q op c outs =
      let answer = exts.ingest c.io.ext l q op in
      let c1 = record c { io = record c.io { ext = answer.1 } } in
      if answer.0
      then and_then (reconcile_held config exts relays c1 (some (l ∷ [])) outs)
          (λ c2 outs'. add_pending c2 now l q outs')
      else Outcome.err append_failed c1

  pub on_append : ℕ → Core E R I → ℕ → Log → ℕ → Op → Outcome E R I
  on_append fuel c now l q op = and_then (advance_to fuel now c []) (append now l q op)

  -- Open the channels subscribed, and reconcile.
  pub reopen : Option (List Log) → Core E R I → List Out → Outcome E R I
  reopen touched c outs =
      step_router config c (opens c.subscriptions)
        λ c1 fx. reconcile_held config exts relays c1 touched outs

  pub unsubscribe : ℕ → Core E R I → List Out → Outcome E R I
  unsubscribe channel c =
      reopen none (record c { subscriptions = BtreeMap.set_remove c.subscriptions channel })

  pub on_unsubscribe : ℕ → Core E R I → ℕ → ℕ → Outcome E R I
  on_unsubscribe fuel c now channel = and_then (advance_to fuel now c []) (unsubscribe channel)

  pub hint : List Log → Core E R I → List Out → Outcome E R I
  hint logs c outs = elim logs [
    | [] ↦ reconcile_held config exts relays c none outs
    | l ∷ ls ↦ reconcile_held config exts relays c (some (l ∷ ls)) outs
  ]

  pub on_hint : ℕ → Core E R I → ℕ → List Log → Outcome E R I
  on_hint fuel c now logs = and_then (advance_to fuel now c []) (hint logs)

  failing : Core E R I → R → List Out → Outcome E R I
  failing c r outs = Outcome.ok (record c { io = relay_error exts relays c.io r }) outs

  shed_ranges : Core E R I → List Out → Outcome E R I
  shed_ranges c outs =
      let held = relays.storage.held_all c.io.relay in
      on_answer held.0 (failing c held.1 outs) λ all.
        let full = LogRanges.difference all (network_ask c.router) in
        if LogRanges.is_empty full
        then Outcome.ok (record c { io = record c.io { relay = held.1 } }) outs
        else let evicted = relays.evict held.1 full in
          if evicted.0
          then reconcile_held config exts relays
              (record c { io = record c.io { relay = evicted.1 } })
              (some (logs_of (LogRanges.iter full))) outs
          else failing c evicted.1 outs

  -- Payloads nobody asks for go first; without any, whole ranges that nobody asks for.
  shed : Core E R I → List Out → Outcome E R I
  shed c outs =
      let held = relays.held_payloads c.io.relay in
      on_answer held.0 (failing c held.1 outs) λ payloads.
        let c1 = record c { io = record c.io { relay = held.1 } } in
        let candidates = eviction_candidates payloads (network_ask c.router) in
        if LogRanges.is_empty candidates
        then shed_ranges c1 outs
        else let evicted = relays.evict_payloads held.1 candidates in
          if evicted.0
          then Outcome.ok (record c { io = record c.io { relay = evicted.1 } }) outs
          else failing c evicted.1 outs

  pub maintain : Core E R I → List Out → Outcome E R I
  maintain c outs =
      let used = relays.usage c.io.relay in
      on_answer used.0 (failing c used.1 outs) λ usage.
        let c1 = record c { io = record c.io { relay = used.1 } } in
        if leb (if config.evict_mark == 0 then 1 else config.evict_mark) usage
        then shed c1 outs
        else Outcome.ok c1 outs

  pub on_maintain : ℕ → Core E R I → ℕ → Outcome E R I
  on_maintain fuel c now = and_then (advance_to fuel now c []) maintain
