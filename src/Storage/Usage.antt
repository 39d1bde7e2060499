-- ===== src/Storage/Usage.antt =====
-- Evictions: what is left, and that the usage does not grow.
use dash_router.Base.{
  ℕ, ◌+◌, ◌≤◌, ◌≡◌, Bool, not, some, List, [], ◌∷◌, arith, Option-cases, inl, inr,
}
use dash_router.Base.Order.{nat_ord}
use dash_router.BtreeMap
use dash_router.BtreeMap.{BtreeMap, IsSorted, Above, AllValues}
use dash_router.Log.{Log, log_ord}
use dash_router.Ranges
use dash_router.Ranges.{Ranges, seq_max}
use dash_router.LogRanges
use dash_router.LogRanges.{LogRanges}
use dash_router.Storage.{
  Op, Ops, OpsMap, has_payload, log_units, op_units, usage, drop_payload, evict_payloads_loop,
  evict_payloads, put_back, evict_loop, evict,
}
use dash_router.Storage.Ingest.{log_units_of, usage-insert}

log_units-drop :
    (r : Ranges) (ops : Ops) → log_units (BtreeMap.map_values (drop_payload r) ops) ≤ log_units ops
unfolding log_units BtreeMap.map_values drop_payload op_units has_payload
log_units-drop r [] = omega arith
log_units-drop r ((s, op) ∷ ops) = ground (arith, log_units-drop r ops)

log_units-retain :
    (p : ℕ → Op → Bool) (ops : Ops) → log_units (BtreeMap.retain p ops) ≤ log_units ops
unfolding log_units BtreeMap.retain
log_units-retain p [] = omega arith
log_units-retain p ((s, op) ∷ ops) = ground (arith, log_units-retain p ops)

usage-remove :
    (m : OpsMap) (l : Log) → usage (BtreeMap.remove m l) + log_units_of (BtreeMap.get m l) ≡ usage m
unfolding usage BtreeMap.remove BtreeMap.get log_units_of
usage-remove [] l = ground arith
usage-remove ((k, o) ∷ m) l = ground (arith, usage-remove m l)

usage-put_back :
    (m : OpsMap) (l : Log) (ops old : Ops)
    → BtreeMap.get m l ≡ some old
    → log_units ops ≤ log_units old
    → usage (put_back m l ops) ≤ usage m
unfolding put_back log_units_of
usage-put_back m l [] old e h = omega (arith, usage-remove m l)
usage-put_back m l (x ∷ ops) old e h = ground (arith, usage-insert m l (x ∷ ops))

usage-evict_loop-le : (m : OpsMap) (ps : List (Log × Ranges)) → usage (evict_loop m ps) ≤ usage m
unfolding evict_loop
usage-evict_loop-le m [] = omega arith
usage-evict_loop-le m ((l, r) ∷ ps) = elim (Option-cases (BtreeMap.get m l)) [
  | inl e ↦ rw (e, evict_loop) (usage-evict_loop-le m ps)
  | inr (ops, e) ↦
      let left : Ops = BtreeMap.retain (λ s _. not (Ranges.contains r s)) ops in
      rw (e, evict_loop)
        (omega (
          arith,
          usage-evict_loop-le (put_back m l left) ps,
          usage-put_back m l left ops e (log_units-retain (λ s _. not (Ranges.contains r s)) ops),
        ))
]

usage-evict_payloads_loop-le :
    (m : OpsMap) (ps : List (Log × Ranges)) → usage (evict_payloads_loop m ps) ≤ usage m
unfolding evict_payloads_loop log_units_of
usage-evict_payloads_loop-le m [] = omega arith
usage-evict_payloads_loop-le m ((l, r) ∷ ps) = elim (Option-cases (BtreeMap.get m l)) [
  | inl e ↦ rw (e, evict_payloads_loop) (usage-evict_payloads_loop-le m ps)
  | inr (ops, e) ↦
      let left : Ops = BtreeMap.map_values (drop_payload r) ops in
      rw (e, evict_payloads_loop)
        (ground (
          arith,
          usage-evict_payloads_loop-le (BtreeMap.insert m l left) ps,
          usage-insert m l left,
          log_units-drop r ops,
        ))
]

-- An eviction of either kind never adds to the usage.
pub usage-evictions-le :
    (m : OpsMap) (ranges : LogRanges)
    → (usage (evict m ranges) ≤ usage m) × (usage (evict_payloads m ranges) ≤ usage m)
unfolding evict evict_payloads
usage-evictions-le m ranges = (
  usage-evict_loop-le m (LogRanges.iter ranges),
  usage-evict_payloads_loop-le m (LogRanges.iter ranges),
)
