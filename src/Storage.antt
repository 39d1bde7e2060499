-- ===== src/Storage.antt =====
-- crates/dash-router-core/src/op.rs and storage.rs: ops, the in-memory store `OpsMap`, and the
-- machines of the relay's and the application's store.
pub mod Ingest
pub mod Usage
pub mod Evict
pub mod Held
pub mod Machines
mod Tests
use dash_router.Base.{
  ℕ, ◌+◌, ◌≡◌, Bool, true, false, not, ◌&&◌, Option, none, some, List, [], ◌∷◌, ◌++◌, leb,
  if◌then◌else◌,
}
use dash_router.Base.Order.{nat_ord}
use dash_router.BtreeMap
use dash_router.BtreeMap.{BtreeMap, IsSorted, AllValues}
use dash_router.Log.{Log, log_ord}
use dash_router.Ranges
use dash_router.Ranges.{Ranges}
use dash_router.LogRanges
use dash_router.LogRanges.{LogRanges}

-- A byte string is a list of numbers.
pub record Op : Type 0 where
  pub header : List ℕ
  pub payload : Option (List ℕ)

abbrev pub Ops : Type 0
Ops = BtreeMap ℕ Op

abbrev pub OpsMap : Type 0
OpsMap = BtreeMap Log Ops

pub has_payload : Op → Bool
has_payload op = elim op.payload [ none ↦ false | some _ ↦ true ]

seqs_of : Ops → Ranges
seqs_of ops = Ranges.from_seqs (BtreeMap.keys ops)

-- The requested logs, each with what is held of it; an unknown one with an empty range.
held_of_loop : OpsMap → List Log → List (Log × Ranges)
held_of_loop m [] = []
held_of_loop m (l ∷ ls) =
    (l, elim (BtreeMap.get m l) [ none ↦ Ranges.empty | some ops ↦ seqs_of ops ])
    ∷ held_of_loop m ls

pub held_of : OpsMap → List Log → LogRanges
held_of m ls = LogRanges.from_pairs (held_of_loop m ls)

-- The closure of `held_all`.
held_one : Log → Ops → Option Ranges
held_one l ops = elim ops [ [] ↦ none | (s, op) ∷ rest ↦ some (seqs_of ((s, op) ∷ rest)) ]

pub held_all : OpsMap → LogRanges
held_all m = LogRanges.collect held_one LogRanges.empty m

fetch_log : Log → Ranges → Ops → List (Log × ℕ × Op)
fetch_log l r [] = []
fetch_log l r ((s, op) ∷ ops) =
    if Ranges.contains r s then (l, s, op) ∷ fetch_log l r ops else fetch_log l r ops

fetch_loop : OpsMap → List (Log × Ranges) → List (Log × ℕ × Op)
fetch_loop m [] = []
fetch_loop m ((l, r) ∷ ps) =
    elim (BtreeMap.get m l) [ none ↦ [] | some ops ↦ fetch_log l r ops ] ++ fetch_loop m ps

-- The ops within the ranges that the store has.
pub fetch : OpsMap → LogRanges → List (Log × ℕ × Op)
fetch m ranges = fetch_loop m (LogRanges.iter ranges)

-- `m.entry(log).or_default()`
abbrev or_default : Option Ops → Ops
or_default none = []
or_default (some ops) = ops

-- A payload that is held is never lost to an op without one.
pub better : Option Op → Op → Op
better none op = op
better (some old) op = if has_payload op && not (has_payload old) then op else old

pub ingest : OpsMap → Log → ℕ → Op → OpsMap
ingest m l s op =
    let ops = or_default (BtreeMap.get m l) in
    BtreeMap.insert m l (BtreeMap.insert ops s (better (BtreeMap.get ops s) op))

pub get : OpsMap → Log → ℕ → Option Op
get m l s = BtreeMap.get (or_default (BtreeMap.get m l)) s

op_units : Op → ℕ
op_units op = if has_payload op then 2 else 1

-- What `ingest` would add to the usage.
pub ingest_delta : OpsMap → Log → ℕ → Op → ℕ
ingest_delta m l s op = elim (get m l s) [
  | none ↦ if has_payload op then 2 else 1
  | some old ↦ if not (has_payload old) && has_payload op then 1 else 0
]

pub log_units : Ops → ℕ
log_units [] = 0
log_units ((s, op) ∷ ops) = op_units op + log_units ops

-- 2 units for an op with its payload, 1 for a header.
unfoldable pub usage : OpsMap → ℕ
usage [] = 0
usage ((l, ops) ∷ m) = log_units ops + usage m

payload_seqs : Ops → List ℕ
payload_seqs [] = []
payload_seqs ((s, op) ∷ ops) = if has_payload op then s ∷ payload_seqs ops else payload_seqs ops

payloads_one : Log → Ops → Option Ranges
payloads_one l ops = LogRanges.nonempty (Ranges.from_seqs (payload_seqs ops))

-- The ops still held with their payload.
pub held_payloads : OpsMap → LogRanges
held_payloads m = LogRanges.collect payloads_one LogRanges.empty m

drop_payload : Ranges → ℕ → Op → Op
drop_payload r s op = if Ranges.contains r s then record op { payload = none } else op

evict_payloads_loop : OpsMap → List (Log × Ranges) → OpsMap
evict_payloads_loop m [] = m
evict_payloads_loop m ((l, r) ∷ ps) =
    evict_payloads_loop
      (elim (BtreeMap.get m l) [
        | none ↦ m
        | some ops ↦ BtreeMap.insert m l (BtreeMap.map_values (drop_payload r) ops)
      ])
      ps

pub evict_payloads : OpsMap → LogRanges → OpsMap
evict_payloads m ranges = evict_payloads_loop m (LogRanges.iter ranges)

-- A log goes with its last op.
put_back : OpsMap → Log → Ops → OpsMap
put_back m l [] = BtreeMap.remove m l
put_back m l (x ∷ ops) = BtreeMap.insert m l (x ∷ ops)

evict_loop : OpsMap → List (Log × Ranges) → OpsMap
evict_loop m [] = m
evict_loop m ((l, r) ∷ ps) =
    evict_loop
      (elim (BtreeMap.get m l) [
        | none ↦ m
        | some ops ↦ put_back m l (BtreeMap.retain (λ s _. not (Ranges.contains r s)) ops)
      ])
      ps

pub evict : OpsMap → LogRanges → OpsMap
evict m ranges = evict_loop m (LogRanges.iter ranges)
