-- ===== src/Node/Step.antt =====
-- node.rs: what the node makes of the router's effects, the ingest of parked ops, and `transition`.
pub mod Cap
mod Tests
use Prim.Native.Nat.{Ordering}
use Prim.Native.Nat.Ordering.{lt, eq, gt}
use dash_router.Base.{
  ℕ, ◌+◌, Bool, true, false, not, ◌&&◌, ◌||◌, Option, none, some, List, [], ◌∷◌, ◌++◌, leb,
  if◌then◌else◌,
}
use dash_router.Base.Order.{Ord, same, nat_ord}
use dash_router.BtreeMap
use dash_router.Log.{Log, Authors, log_ord}
use dash_router.Ranges
use dash_router.Ranges.{Ranges}
use dash_router.LogRanges
use dash_router.LogRanges.{LogRanges}
use dash_router.Storage.{Op, OpsMap, has_payload, usage, ingest_delta, fetch}
use dash_router.Storage.Machines.{
  StoreEffect, StoreResult, RelayAction, ExtAction, evicts, evicts_payloads, native_sync, app_gc,
  relay_transition, ext_transition,
}
use dash_router.Wire.{WireBody, WireMessage, want, have, message_want, message_have}
use dash_router.Router
use dash_router.Router.{
  State, Action, tick, arm_want_timer, arm_have_timer, fire_want, fire_have, opens, recv_want,
  recv_have, holds, push, Effect, send_want, send_have, accept,
}
use dash_router.Router.Step.{transition}
use dash_router.Node.{
  Machine, Node, NodeAction, router, recv, authored, subscribe, unsubscribe, native_syncs, app_gcs,
  relay_evict, relay_evict_payloads, NodeEffect, broadcast, deliver, NodeError, router_refused,
  relay_refused, receiving_is_the_nodes, glue_is_the_nodes, NodeResult, ok, err, Parked, key_ord,
  compare_key, held_union, is_subscribed, relay_logs_under, group_ops, ranges_of, park,
}

deliveries : Log → Ranges → Parked → List NodeEffect
deliveries l r [] = []
deliveries l r (((k, s), op) ∷ parked) =
    let rest = deliveries l r parked in
    if same k l && Ranges.contains r s then deliver l s ∷ rest else rest

deliver_all : Node → Parked → List (Log × Ranges) → List NodeEffect
deliver_all n parked [] = []
deliver_all n parked ((l, r) ∷ ps) =
    let rest = deliver_all n parked ps in
    if not (is_subscribed n l) then rest else deliveries l r parked ++ rest

-- The order of `sort_by`: by log and number, and of one op the copy with its payload first.
abbrev payload_first : Op → Op → Ordering
payload_first a b =
    if has_payload a then (if has_payload b then eq else lt) else (if has_payload b then gt else eq)

abbrev comes_first : Log × ℕ × Op → Log × ℕ × Op → Bool
comes_first (l, s, op) (k, q, op') = elim (compare_key (l, s) (k, q)) [
  | lt ↦ true
  | eq ↦ elim (payload_first op op') [ gt ↦ false | _ ↦ true ]
  | gt ↦ false
]

-- A stable sort.
insert_op : Log × ℕ × Op → List (Log × ℕ × Op) → List (Log × ℕ × Op)
insert_op x [] = x ∷ []
insert_op x (y ∷ ys) = if comes_first x y then x ∷ y ∷ ys else y ∷ insert_op x ys

pub sort_ops : List (Log × ℕ × Op) → List (Log × ℕ × Op)
sort_ops [] = []
sort_ops (x ∷ xs) = insert_op x (sort_ops xs)

-- `dedup_by`: of a run of ops with one key, the first stays.
dedup_run : Log × ℕ × Op → List (Log × ℕ × Op) → List (Log × ℕ × Op)
dedup_run x [] = x ∷ []
dedup_run (l, s, op) ((k, q, op') ∷ ys) = elim (compare_key (k, q) (l, s)) [
  | eq ↦ dedup_run (l, s, op) ys
  | _ ↦ (l, s, op) ∷ dedup_run (k, q, op') ys
]

pub dedup_ops : List (Log × ℕ × Op) → List (Log × ℕ × Op)
dedup_ops [] = []
dedup_ops (x ∷ xs) = dedup_run x xs

hydrated : Node → LogRanges → List (Log × ℕ × Op)
hydrated n r = dedup_ops (sort_ops (fetch n.relay r ++ fetch n.ext r))

have_of_ops : ℕ → List (Log × ℕ × Op) → List NodeEffect
have_of_ops id [] = []
have_of_ops id (op ∷ ops) = broadcast (message_have id (group_ops (op ∷ ops))) ∷ []

route_one : Node → Parked → Effect → List NodeEffect
route_one n parked (accept novel) = deliver_all n parked (LogRanges.iter novel)
route_one n parked (send_want interest) = broadcast (message_want n.router.id interest) ∷ []
route_one n parked (send_have r) = have_of_ops n.router.id (hydrated n r)

pub route_router_fx : Node → List Effect → Parked → List NodeEffect
route_router_fx n [] parked = []
route_router_fx n (e ∷ fx) parked = route_one n parked e ++ route_router_fx n fx parked

-- `step` of a part, with what the node does next; a refusal ends the transition.
unfoldable pub step_relay : ℕ → Node → RelayAction → (Node → NodeResult) → NodeResult
step_relay cap n a next = elim (relay_transition cap n.relay a) [
  | StoreResult.ok relay fx ↦ next (record n { relay = relay })
  | StoreResult.would_exceed_cap ↦ err relay_refused
]

unfoldable pub step_ext : Node → ExtAction → Node
step_ext n a = record n { ext = (ext_transition n.ext a).0 }

-- The loop over the fetched ops in `Subscribe`.
pub ingest_fetched : Node → List (Log × ℕ × Op) → Node
ingest_fetched n [] = n
ingest_fetched n ((l, s, op) ∷ ops) = ingest_fetched (step_ext n (ExtAction.ingests l s op)) ops

-- The loop over the parked ops: subscribed logs go to the application's store, others to the
-- relay's while there is room. `used` is the usage that the loop tracks.
unfoldable pub ingest_parked_loop : ℕ → ℕ → Node → Parked → (Node → NodeResult) → NodeResult
ingest_parked_loop cap used n [] next = next n
ingest_parked_loop cap used n (((l, s), op) ∷ parked) next = elim (is_subscribed n l) [
  | true ↦ ingest_parked_loop cap used (step_ext n (ExtAction.ingests l s op)) parked next
  | false ↦ elim (leb (used + ingest_delta n.relay l s op) cap) [
    | false ↦ ingest_parked_loop cap used n parked next
    | true ↦
        step_relay cap n (RelayAction.ingests l s op)
          λ n'. ingest_parked_loop cap (used + ingest_delta n.relay l s op) n' parked next
  ]
]

unfoldable pub ingest_parked : ℕ → Node → Parked → (Node → NodeResult) → NodeResult
ingest_parked cap n parked next = ingest_parked_loop cap (usage n.relay) n parked next

module _ ⦃t : Authors⦄ where
  pub step_router : Machine → Node → Action → (Node → List Effect → NodeResult) → NodeResult
  step_router m n a next = elim (transition m.config n.router a) [
    | Router.ok s fx ↦ next (record n { router = s }) fx
    | Router.err e ↦ err (router_refused e)
  ]

  pub reconcile_held : Machine → Node → (Node → NodeResult) → NodeResult
  reconcile_held m n next = step_router m n (holds (held_union n)) (λ n' _. next n')

  -- The actions that a bare `NodeAction::Router` may carry.
  pub do_router : Machine → Node → Action → NodeResult
  do_router m n (recv_want from interest) = err receiving_is_the_nodes
  do_router m n (recv_have from ranges) = err receiving_is_the_nodes
  do_router m n (holds ranges) = err glue_is_the_nodes
  do_router m n (push ranges) = err glue_is_the_nodes
  do_router m n (opens channels) = err glue_is_the_nodes
  do_router m n a = step_router m n a (λ n' fx. ok n' (route_router_fx n' fx []))

  pub do_recv : Machine → Node → ℕ → WireBody → NodeResult
  do_recv m n sender (want interest) =
      step_router m n (recv_want sender interest) (λ n' fx. ok n' (route_router_fx n' fx []))
  do_recv m n sender (have ops) =
      let parked = park [] ops in
      step_router m n (recv_have sender (ranges_of parked)) λ n1 fx.
        ingest_parked m.cap n1 parked
          λ n2. reconcile_held m n2 λ n3. ok n3 (route_router_fx n3 fx parked)

  pub do_authored : Machine → Node → Log → ℕ → Op → NodeResult
  do_authored m n l s op = reconcile_held m (step_ext n (ExtAction.ingests l s op)) λ n1.
      step_router m n1 (push (LogRanges.from_pairs ((l, Ranges.from_seqs (s ∷ [])) ∷ [])))
        λ n2 fx. ok n2 (route_router_fx n2 fx [])

  -- `Open`, and the snapshot after it.
  pub open_channels : Machine → Node → NodeResult
  open_channels m n =
      step_router m n (opens n.subscriptions) λ n1 _. reconcile_held m n1 λ n2. ok n2 []

  pub do_subscribe : Machine → Node → ℕ → NodeResult
  do_subscribe m n c =
      let n1 = record n { subscriptions = BtreeMap.set_insert n.subscriptions c } in
      let under = relay_logs_under n1 c in
      if not (LogRanges.is_empty under)
      then step_relay m.cap (ingest_fetched n1 (fetch n1.relay under)) (evicts under)
          (open_channels m)
      else open_channels m n1

  pub node_transition : Machine → Node → NodeAction → NodeResult
  node_transition m n (router a) = do_router m n a
  node_transition m n (recv wire) = do_recv m n wire.sender wire.body
  node_transition m n (authored l s op) = do_authored m n l s op
  node_transition m n (subscribe c) = do_subscribe m n c
  node_transition m n (unsubscribe c) =
      open_channels m (record n { subscriptions = BtreeMap.set_remove n.subscriptions c })
  node_transition m n (native_syncs l s op) =
      reconcile_held m (step_ext n (native_sync l s op)) λ n'. ok n' []
  node_transition m n (app_gcs ranges) =
      reconcile_held m (step_ext n (app_gc ranges)) λ n'. ok n' []
  node_transition m n (relay_evict ranges) =
      step_relay m.cap n (evicts ranges) λ n'. reconcile_held m n' λ n2. ok n2 []
  node_transition m n (relay_evict_payloads ranges) =
      step_relay m.cap n (evicts_payloads ranges) λ n'. reconcile_held m n' λ n2. ok n2 []
