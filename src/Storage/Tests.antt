-- ===== src/Storage/Tests.antt =====
-- Instances of the theorems on a store of one log with three ops.
use dash_router.Base.{◌≤◌, ◌≡◌, ◌&&◌, none, some, [], ◌∷◌, refl, arith, ◌==◌, if◌then◌else◌}
use dash_router.Base.Order.{nat_ord, same}
use dash_router.BtreeMap
use dash_router.Log.{Log, log_ord}
use dash_router.LogRanges
use dash_router.LogRanges.{LogRanges}
use dash_router.Storage
use dash_router.Storage.{
  Op, OpsMap, ingest, get, ingest_delta, usage, held_all, fetch, evict, evict_payloads,
}
use dash_router.Storage.Ingest.{kept, get-ingest}
use dash_router.Storage.Usage.{usage-evictions-le}
use dash_router.Storage.Evict.{IsOrdered, get-evict}
use dash_router.Storage.Held.{IsStore, is_some, find, contains-held_all, find-fetch}
use dash_router.Storage.Machines.{evicts, changed, relay_transition, relay_transition-le_cap}

abbrev log11 : Log
log11 = record { channel = 1; author = 1 }

abbrev op_full : Op
op_full = record { header = 7 ∷ []; payload = some (8 ∷ 9 ∷ []) }

abbrev op_bare : Op
op_bare = record { header = 7 ∷ []; payload = none }

abbrev store : OpsMap
store = (log11, (0, op_full) ∷ (1, op_bare) ∷ (4, op_full) ∷ []) ∷ []

store-IsOrdered : IsOrdered store
store-IsOrdered = record { sorted = tt; logs = ((refl, (refl, tt)), tt) }

store-IsStore : IsStore store
unfolding BtreeMap.keys
store-IsStore = record { ordered = store-IsOrdered; seqs = omega arith }

abbrev ranges : LogRanges
ranges = (1, (1, 1 ∷ 5 ∷ []) ∷ []) ∷ []

ranges-IsValid : LogRanges.IsValid ranges
ranges-IsValid = record {
  sorted = tt;
  channels = (record { sorted = tt; nonempty = λ e. cc; ranges = omega arith }, tt);
}

get-ingest_example : get (ingest store log11 1 op_full) log11 1 ≡ (
    if same log11 log11 && (1 == 1)
    then some (kept (get store log11 1) op_full)
    else get store log11 1)
get-ingest_example = get-ingest store log11 log11 1 1 op_full

usage-evictions-le_example :
    (usage (evict store ranges) ≤ usage store) × (usage (evict_payloads store ranges) ≤ usage store)
usage-evictions-le_example = usage-evictions-le store ranges

get-evict_example :
    get (evict store ranges) log11 4
    ≡ (if LogRanges.contains ranges log11 4 then none else get store log11 4)
get-evict_example = get-evict store ranges log11 4 store-IsOrdered ranges-IsValid

contains-held_all_example :
    LogRanges.contains (held_all store) log11 4 ≡ is_some (get store log11 4)
contains-held_all_example = contains-held_all store log11 4 store-IsStore (omega arith)

find-fetch_example :
    find (fetch store ranges) log11 4
    ≡ (if LogRanges.contains ranges log11 4 then get store log11 4 else none)
find-fetch_example = find-fetch store ranges log11 4 store-IsOrdered ranges-IsValid

usage-store : usage store ≤ 6
unfolding usage Storage.log_units Storage.op_units Storage.has_payload
usage-store = omega arith

relay_transition-le_cap_example : usage (evict store ranges) ≤ 6
unfolding relay_transition
relay_transition-le_cap_example =
    relay_transition-le_cap 6 store (evict store ranges) (evicts ranges)
      (changed store (evict store ranges)) usage-store refl
