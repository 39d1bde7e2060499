-- ===== src/Node.antt =====
-- crates/dash-router-core/src/node.rs: one node, which composes the router with the relay's and the
-- application's store. A `step` of a part that fails is an error of the node.
pub mod Groups
pub mod Collected
pub mod Step
use Prim.Native.Nat.{compare, Ordering}
use Prim.Native.Nat.Ordering.{lt, eq, gt}
use dash_router.Base.{
  ℕ, ◌+◌, ◌≤◌, ◌≡◌, Bool, true, false, not, ◌&&◌, ◌||◌, Option, none, some, List, [], ◌∷◌, ◌++◌,
  leb, ltb, ◌==◌, arith, elem, if◌then◌else◌,
}
use dash_router.Base.Order.{Ord, IsComparison, same, nat_ord}
use dash_router.BtreeMap
use dash_router.BtreeMap.{BtreeMap}
use dash_router.Log.{Log, Authors, log_ord, compare_log}
use dash_router.Ranges
use dash_router.Ranges.{Ranges}
use dash_router.LogRanges
use dash_router.LogRanges.{LogRanges}
use dash_router.Interest.{Interest}
use dash_router.Storage
use dash_router.Storage.{
  Op, OpsMap, has_payload, usage, ingest_delta, held_all, held_payloads, fetch,
}
use dash_router.Storage.Machines
use dash_router.Storage.Machines.{
  StoreEffect, StoreResult, RelayAction, ExtAction, evicts, evicts_payloads, native_sync, app_gc,
  relay_transition, ext_transition,
}
use dash_router.Wire.{WireBody, WireMessage, want, have, message_want, message_have}
use dash_router.Router
use dash_router.Router.{
  Config, State, Action, Effect, send_want, send_have, accept, opens, recv_want, recv_have, holds,
  push, network_ask,
}
use dash_router.Router.Step.{transition}

pub record Machine : Type 0 where
  pub config : Config
  pub cap : ℕ

pub record Node : Type 0 where
  pub router : State
  pub relay : OpsMap
  pub ext : OpsMap
  pub subscriptions : List ℕ

pub data NodeAction : Type 0 where
  router : Action → NodeAction
  recv : WireMessage → NodeAction
  authored : Log → ℕ → Op → NodeAction
  subscribe : ℕ → NodeAction
  unsubscribe : ℕ → NodeAction
  native_syncs : Log → ℕ → Op → NodeAction
  app_gcs : LogRanges → NodeAction
  relay_evict : LogRanges → NodeAction
  relay_evict_payloads : LogRanges → NodeAction

pub data NodeEffect : Type 0 where
  broadcast : WireMessage → NodeEffect
  deliver : Log → ℕ → NodeEffect

pub data NodeError : Type 0 where
  router_refused : Router.Error → NodeError
  relay_refused receiving_is_the_nodes glue_is_the_nodes : NodeError

pub data NodeResult : Type 0 where
  ok : Node → List NodeEffect → NodeResult
  err : NodeError → NodeResult

-- The keys `(L, Seq)` of the parked ops.
abbrev pub compare_key : Log × ℕ → Log × ℕ → Ordering
compare_key (l, s) (k, q) = elim (compare_log l k) [ lt ↦ lt | eq ↦ compare s q | gt ↦ gt ]

pub compare_key-IsComparison : IsComparison compare_key
compare_key-IsComparison = ground arith

instance abbrev pub key_ord : Ord (Log × ℕ)
key_ord = record { cmp = compare_key; comparison = compare_key-IsComparison }

abbrev pub Parked : Type 0
Parked = BtreeMap (Log × ℕ) Op

held_union_of : OpsMap → OpsMap → LogRanges
held_union_of relay ext = LogRanges.union (held_all relay) (held_all ext)

pub held_union : Node → LogRanges
held_union n = held_union_of n.relay n.ext

unfoldable pub is_subscribed : Node → Log → Bool
is_subscribed n l = elem l.channel n.subscriptions

pub full_each : List (Log × Ranges) → List (Log × Ranges)
full_each [] = []
full_each ((l, r) ∷ ps) = (l, Ranges.full) ∷ full_each ps

relay_logs_under : Node → ℕ → LogRanges
relay_logs_under n c = LogRanges.from_pairs (full_each (LogRanges.channel (held_all n.relay) c))

pub node_holds : Node → Log → ℕ → Bool
node_holds n l s =
    LogRanges.contains (held_all n.ext) l s || LogRanges.contains (held_all n.relay) l s

-- Of the payloads that the relay holds, those that nobody asks for.
pub eviction_candidates : LogRanges → LogRanges → LogRanges
eviction_candidates relay_held_payloads ask = LogRanges.difference relay_held_payloads ask

collect_set : List ℕ → List ℕ → List ℕ
collect_set out [] = out
collect_set out (c ∷ cs) = collect_set (BtreeMap.set_insert out c) cs

pub new_node : ℕ → List ℕ → Node
new_node id subscriptions =
    let set = collect_set [] subscriptions in
    record {
      router = record (Router.new id (held_union_of [] [])) { opened = set };
      relay = [];
      ext = [];
      subscriptions = set;
    }

-- The head of `out` is the back of the vector, here and in its groups.
push_op : List (Log × List (ℕ × Op)) → Log → ℕ → Op → List (Log × List (ℕ × Op))
push_op [] l s op = (l, (s, op) ∷ []) ∷ []
push_op ((k, seqs) ∷ out) l s op =
    if same k l then (k, seqs ++ (s, op) ∷ []) ∷ out else (l, (s, op) ∷ []) ∷ (k, seqs) ∷ out

group_loop : List (Log × List (ℕ × Op)) → List (Log × ℕ × Op) → List (Log × List (ℕ × Op))
group_loop out [] = out
group_loop out ((l, s, op) ∷ ops) = group_loop (push_op out l s op) ops

reverse_onto : List (Log × List (ℕ × Op)) → List (Log × List (ℕ × Op)) → List (Log × List (ℕ × Op))
reverse_onto acc [] = acc
reverse_onto acc (g ∷ gs) = reverse_onto (g ∷ acc) gs

pub group_ops : List (Log × ℕ × Op) → List (Log × List (ℕ × Op))
group_ops ops = reverse_onto [] (group_loop [] ops)

-- `by_log.entry(log).or_default().push(seq)`
abbrev pub pushed_to : Option (List ℕ) → ℕ → List ℕ
pushed_to none s = s ∷ []
pushed_to (some seqs) s = seqs ++ s ∷ []

by_log : BtreeMap Log (List ℕ) → Parked → BtreeMap Log (List ℕ)
by_log m [] = m
by_log m (((l, s), op) ∷ parked) =
    by_log (BtreeMap.insert m l (pushed_to (BtreeMap.get m l) s)) parked

pub from_seqs_each : BtreeMap Log (List ℕ) → List (Log × Ranges)
from_seqs_each [] = []
from_seqs_each ((l, seqs) ∷ m) = (l, Ranges.from_seqs seqs) ∷ from_seqs_each m

pub ranges_of : Parked → LogRanges
ranges_of parked = LogRanges.from_pairs (from_seqs_each (by_log [] parked))

-- The ops of a Have by their keys; of two with one key the later stays.
park_seqs : Parked → Log → List (ℕ × Op) → Parked
park_seqs parked l [] = parked
park_seqs parked l ((s, op) ∷ seqs) = park_seqs (BtreeMap.insert parked (l, s) op) l seqs

pub park : Parked → List (Log × List (ℕ × Op)) → Parked
park parked [] = parked
park parked ((l, seqs) ∷ ops) = park (park_seqs parked l seqs) ops
