-- ===== src/Node/Step/Cap.antt =====
-- The relay's store of a node stays within its cap, and a Have is never refused for want of room.
use dash_router.Base.{
  ℕ, ◌+◌, ◌≤◌, ◌≡◌, ◌≢◌, true, List, [], ◌∷◌, refl, arith, ◌∙◌, leb, Bool-cases, inl, inr,
}
use dash_router.BtreeMap
use dash_router.Base.Order.{nat_ord}
use dash_router.Log.{Log, Authors}
use dash_router.LogRanges
use dash_router.LogRanges.{LogRanges}
use dash_router.Storage.{Op, usage, ingest, ingest_delta, fetch}
use dash_router.Storage.Ingest.{usage-ingest}
use dash_router.Storage.Machines.{
  StoreResult, RelayAction, ExtAction, evicts, evicts_payloads, native_sync, app_gc,
  relay_transition, relay_transition-le_cap,
}
use dash_router.Router.Step.Flood.{recv_have_state, recv_have_effects, recv_have-ok, holds-ok}
use dash_router.Wire.{message_have, WireBody, want, have}
use dash_router.Router
use dash_router.Router.{
  State, Action, tick, arm_want_timer, arm_have_timer, fire_want, fire_have, opens, recv_want,
  recv_have, holds, push, Effect,
}
use dash_router.Router.Step.{transition}
use dash_router.Node.{
  Machine, Node, NodeError, NodeAction, router, recv, authored, subscribe, unsubscribe,
  native_syncs, app_gcs, relay_evict, relay_evict_payloads, NodeEffect, NodeResult, ok, err, Parked,
  held_union, is_subscribed, ranges_of, park, relay_logs_under,
}
use dash_router.Node.Step.{
  route_router_fx, step_relay, step_ext, ingest_fetched, ingest_parked_loop, ingest_parked,
  step_router, reconcile_held, do_router, do_recv, do_authored, open_channels, do_subscribe,
  node_transition,
}

-- A result whose node has its relay's store within the cap, if it has a node.
abbrev pub IsWithin : ℕ → NodeResult → Type 0
IsWithin cap (ok n out) = usage n.relay ≤ cap
IsWithin cap (err e) = Unit {0}

step_relay-IsWithin :
    (cap : ℕ) (n : Node) (a : RelayAction) (next : Node → NodeResult)
    → usage n.relay ≤ cap
    → ((n' : Node) → usage n'.relay ≤ cap → IsWithin cap (next n'))
    → IsWithin cap (step_relay cap n a next)
unfolding step_relay
step_relay-IsWithin cap n a next h k = go (relay_transition cap n.relay a) refl
  where
    go :
        (r : StoreResult)
        → relay_transition cap n.relay a ≡ r
        → IsWithin cap (elim r [
          | StoreResult.ok relay fx ↦ next (record n { relay = relay })
          | StoreResult.would_exceed_cap ↦ err NodeError.relay_refused
        ])
    go (StoreResult.ok relay fx) e =
        k (record n { relay = relay }) (relay_transition-le_cap cap n.relay relay a fx h e)
    go StoreResult.would_exceed_cap e = tt

ingest_fetched-relay :
    (n : Node) (ops : List (Log × ℕ × Op)) → (ingest_fetched n ops).relay ≡ n.relay
unfolding ingest_fetched step_ext
ingest_fetched-relay n [] = refl
ingest_fetched-relay n ((l, s, op) ∷ ops) =
    ingest_fetched-relay (step_ext n (ExtAction.ingests l s op)) ops

step_relay-fits :
    (cap : ℕ) (n : Node) (l : Log) (s : ℕ) (op : Op) (next : Node → NodeResult)
    → leb (usage n.relay + ingest_delta n.relay l s op) cap ≡ true
    → step_relay cap n (RelayAction.ingests l s op) next
      ≡ next (record n { relay = ingest n.relay l s op })
unfolding step_relay relay_transition
step_relay-fits cap n l s op next h = rw (h, step_relay) refl

-- The loop over the parked ops refuses nothing, as the usage that it tracks is the store's.
ingest_parked_loop-fits :
    (cap used : ℕ) (n : Node) (parked : Parked) (next : Node → NodeResult)
    → used ≡ usage n.relay
    → usage n.relay ≤ cap
    → (n' : Node) × (ingest_parked_loop cap used n parked next ≡ next n')
      × (usage n'.relay ≤ cap)
      × (n'.router ≡ n.router)
unfolding ingest_parked_loop step_ext
ingest_parked_loop-fits cap used n [] next u h = (n, refl, h, refl)
ingest_parked_loop-fits cap used n (((l, s), op) ∷ parked) next u h =
    elim (Bool-cases (is_subscribed n l)) [
      | inl mine ↦
          rw (mine, ingest_parked_loop)
            (ingest_parked_loop-fits cap used (step_ext n (ExtAction.ingests l s op)) parked next u
              h)
      | inr theirs ↦ elim (Bool-cases (leb (used + ingest_delta n.relay l s op) cap)) [
        | inr full' ↦
            rw (theirs, full', ingest_parked_loop)
              (ingest_parked_loop-fits cap used n parked next u h)
        | inl room ↦
            rw (theirs, room, ingest_parked_loop)
              (let n1 : Node = record n { relay = ingest n.relay l s op } in
                let (n', run', le', same') =
                  ingest_parked_loop-fits cap (used + ingest_delta n.relay l s op) n1 parked next
                    (omega (arith, usage-ingest n.relay l s op))
                    (ground (arith, usage-ingest n.relay l s op)) in
                (
                  n',
                  step_relay-fits cap n l s op
                        (λ n'.
                          ingest_parked_loop cap (used + ingest_delta n.relay l s op) n' parked
                            next)
                        (ground arith)
                      ∙ run',
                  le',
                  same',
                ))
      ]
    ]

module _ ⦃t : Authors⦄ where
  step_router-IsWithin :
      (cap : ℕ) (m : Machine) (n : Node) (a : Action) (next : Node → List Effect → NodeResult)
      → ((s : State) (fx : List Effect) → IsWithin cap (next (record n { router = s }) fx))
      → IsWithin cap (step_router m n a next)
  unfolding step_router
  step_router-IsWithin cap m n a next k = go (transition m.config n.router a)
    where
      go :
          (r : Router.Result)
          → IsWithin cap (elim r [
            | Router.ok s fx ↦ next (record n { router = s }) fx
            | Router.err e ↦ err (NodeError.router_refused e)
          ])
      go (Router.ok s fx) = k s fx
      go (Router.err e) = tt

  reconciled-IsWithin :
      (cap : ℕ) (m : Machine) (n : Node)
      → usage n.relay ≤ cap
      → IsWithin cap (reconcile_held m n (λ n'. ok n' []))
  unfolding reconcile_held
  reconciled-IsWithin cap m n h =
      step_router-IsWithin cap m n (holds (held_union n)) (λ n' _. ok n' []) (λ s fx. h)

  open_channels-IsWithin :
      (cap : ℕ) (m : Machine) (n : Node) → usage n.relay ≤ cap → IsWithin cap (open_channels m n)
  unfolding open_channels
  open_channels-IsWithin cap m n h =
      step_router-IsWithin cap m n (opens n.subscriptions)
        (λ n1 _. reconcile_held m n1 λ n2. ok n2 [])
        (λ s fx. reconciled-IsWithin cap m (record n { router = s }) h)

  do_subscribe-IsWithin :
      (m : Machine) (n : Node) (c : ℕ) → usage n.relay ≤ m.cap → IsWithin m.cap (do_subscribe m n c)
  unfolding do_subscribe
  do_subscribe-IsWithin m n c h =
      let n1 : Node = record n { subscriptions = BtreeMap.set_insert n.subscriptions c } in
      let under : LogRanges = relay_logs_under n1 c in
      elim (Bool-cases (LogRanges.is_empty under)) [
        | inl nothing ↦ rw nothing (open_channels-IsWithin m.cap m n1 h)
        | inr something ↦ rw something (
            step_relay-IsWithin m.cap (ingest_fetched n1 (fetch n1.relay under)) (evicts under)
              (open_channels m) (rw (ingest_fetched-relay n1 (fetch n1.relay under)) h)
              (λ n' h'. open_channels-IsWithin m.cap m n' h'))
      ]

  do_authored-IsWithin :
      (m : Machine) (n : Node) (l : Log) (s : ℕ) (op : Op)
      → usage n.relay ≤ m.cap
      → IsWithin m.cap (do_authored m n l s op)
  unfolding do_authored reconcile_held step_ext
  do_authored-IsWithin m n l s op h =
      step_router-IsWithin m.cap m (step_ext n (ExtAction.ingests l s op)) _ _
        (λ r fx. step_router-IsWithin m.cap m _ _ _ (λ r' fx'. h))

  do_recv-IsWithin :
      (m : Machine) (n : Node) (sender : ℕ) (body : WireBody)
      → usage n.relay ≤ m.cap
      → IsWithin m.cap (do_recv m n sender body)
  unfolding do_recv ingest_parked reconcile_held
  do_recv-IsWithin m n sender (want interest) h =
      step_router-IsWithin m.cap m n (recv_want sender interest) _ (λ s fx. h)
  do_recv-IsWithin m n sender (have ops) h =
      step_router-IsWithin m.cap m n (recv_have sender (ranges_of (park [] ops))) _ λ s fx.
        let n1 : Node = record n { router = s } in
        let (n', run', le', same') =
          ingest_parked_loop-fits m.cap (usage n1.relay) n1 (park [] ops)
            (λ n2. reconcile_held m n2 λ n3. ok n3 (route_router_fx n3 fx (park [] ops))) refl h in
        rw run' (step_router-IsWithin m.cap m n' (holds (held_union n')) _ (λ s' fx'. le'))

  do_router-IsWithin :
      (m : Machine) (n : Node) (a : Action)
      → usage n.relay ≤ m.cap
      → IsWithin m.cap (do_router m n a)
  unfolding do_router
  do_router-IsWithin m n (recv_want from interest) h = tt
  do_router-IsWithin m n (recv_have from ranges) h = tt
  do_router-IsWithin m n (holds ranges) h = tt
  do_router-IsWithin m n (push ranges) h = tt
  do_router-IsWithin m n (opens channels) h = tt
  do_router-IsWithin m n (tick dur) h = step_router-IsWithin m.cap m n (tick dur) _ (λ s fx. h)
  do_router-IsWithin m n (arm_want_timer i) h =
      step_router-IsWithin m.cap m n (arm_want_timer i) _ (λ s fx. h)
  do_router-IsWithin m n (arm_have_timer i) h =
      step_router-IsWithin m.cap m n (arm_have_timer i) _ (λ s fx. h)
  do_router-IsWithin m n fire_want h = step_router-IsWithin m.cap m n fire_want _ (λ s fx. h)
  do_router-IsWithin m n fire_have h = step_router-IsWithin m.cap m n fire_have _ (λ s fx. h)

  -- No action of a node that succeeds brings its relay's store, when it is within the cap, above it.
  pub node_transition-IsWithin :
      (m : Machine) (n : Node) (a : NodeAction)
      → usage n.relay ≤ m.cap
      → IsWithin m.cap (node_transition m n a)
  unfolding node_transition
  node_transition-IsWithin m n (router a) h = do_router-IsWithin m n a h
  node_transition-IsWithin m n (recv wire) h = do_recv-IsWithin m n wire.sender wire.body h
  node_transition-IsWithin m n (authored l s op) h = do_authored-IsWithin m n l s op h
  node_transition-IsWithin m n (subscribe c) h = do_subscribe-IsWithin m n c h
  node_transition-IsWithin m n (unsubscribe c) h =
      open_channels-IsWithin m.cap m
        (record n { subscriptions = BtreeMap.set_remove n.subscriptions c }) h
  node_transition-IsWithin m n (native_syncs l s op) h =
      unfold step_ext in reconciled-IsWithin m.cap m (step_ext n (native_sync l s op)) h
  node_transition-IsWithin m n (app_gcs ranges) h =
      unfold step_ext in reconciled-IsWithin m.cap m (step_ext n (app_gc ranges)) h
  node_transition-IsWithin m n (relay_evict ranges) h =
      step_relay-IsWithin m.cap n (evicts ranges) _ h (λ n' h'. reconciled-IsWithin m.cap m n' h')
  node_transition-IsWithin m n (relay_evict_payloads ranges) h =
      step_relay-IsWithin m.cap n (evicts_payloads ranges) _ h
        (λ n' h'. reconciled-IsWithin m.cap m n' h')

  step_router-ok :
      (m : Machine) (n : Node) (a : Action) (s : State) (fx : List Effect)
      (next : Node → List Effect → NodeResult)
      → transition m.config n.router a ≡ Router.ok s fx
      → step_router m n a next ≡ next (record n { router = s }) fx
  unfolding step_router
  step_router-ok m n a s fx next e = rw (e, step_router) refl

  reconcile_held-ok :
      (m : Machine) (n : Node) (next : Node → NodeResult)
      → reconcile_held m n next
        ≡ next (record n { router = record n.router { held = held_union n } })
  unfolding reconcile_held
  reconcile_held-ok m n next =
      step_router-ok m n (holds (held_union n)) (record n.router { held = held_union n }) []
        (λ n' _. next n') (holds-ok m.config n.router (held_union n))

  -- A Have from another node always succeeds when the relay's store is within its cap: ops that do
  -- not fit are shed. The relay's store is then still within the cap, and what the router takes to
  -- be held is what the two stores hold.
  pub recv_have-succeeds :
      (m : Machine) (n : Node) (sender : ℕ) (ops : List (Log × List (ℕ × Op)))
      → usage n.relay ≤ m.cap
      → sender ≢ n.router.id
      → (n' : Node) × (out : List NodeEffect) × (node_transition m n
            (recv (message_have sender ops))
          ≡ ok n' out)
        × (usage n'.relay ≤ m.cap)
        × (n'.router.held ≡ held_union n')
  unfolding node_transition do_recv ingest_parked message_have held_union
  recv_have-succeeds m n sender ops h other =
      let parked : Parked = park [] ops in
      let s1 : State = recv_have_state m.config n.router sender (ranges_of parked) in
      let fx : List Effect = recv_have_effects m.config n.router (ranges_of parked) in
      let n1 : Node = record n { router = s1 } in
      let next : Node → NodeResult =
        λ n2. reconcile_held m n2 λ n3. ok n3 (route_router_fx n3 fx parked) in
      let (n2, run', le', same') =
        ingest_parked_loop-fits m.cap (usage n1.relay) n1 parked next refl h in
      let n3 : Node = record n2 { router = record n2.router { held = held_union n2 } } in
      (
        n3,
        route_router_fx n3 fx parked,
        step_router-ok m n (recv_have sender (ranges_of parked)) s1 fx _
              (recv_have-ok m.config n.router sender (ranges_of parked) other)
            ∙ run'
            ∙ reconcile_held-ok m n2 (λ n3. ok n3 (route_router_fx n3 fx parked)),
        le',
        refl,
      )
