-- ===== src/Storage/Ingest.antt =====
-- What a store holds after an `ingest`, and what it adds to the usage.
use dash_router.Base.{
  ℕ, ◌+◌, ◌≡◌, not, ◌&&◌, Option, none, some, [], ◌∷◌, refl, arith, ◌==◌, if◌then◌else◌,
}
use dash_router.Base.Order.{nat_ord, same}
use dash_router.BtreeMap
use dash_router.BtreeMap.{BtreeMap, IsSorted, AllValues}
use dash_router.BtreeMap.Laws.{get-insert}
use dash_router.Log.{Log, log_ord}
use dash_router.Storage.{
  Op, Ops, OpsMap, has_payload, or_default, better, ingest, get, ingest_delta, log_units, op_units,
  usage,
}

-- Which of two ops is kept: a payload that is held stays, and one that is missing is taken.
abbrev pub kept : Option Op → Op → Op
kept none op = op
kept (some old) op = elim old.payload [
  | some held ↦ old
  | none ↦ elim op.payload [ some bytes ↦ op | none ↦ old ]
]

better-kept : (old : Option Op) (op : Op) → better old op ≡ kept old op
unfolding better has_payload
better-kept none op = refl
better-kept (some old) op = ground arith

-- After an ingest the store has, at that log and number, the op that was there if it has a payload
-- or the given one has none, and else the given one; every other op is as it was.
pub get-ingest :
    (m : OpsMap) (k l : Log) (s q : ℕ) (op : Op)
    → get (ingest m k s op) l q
      ≡ (if same l k && (q == s) then some (kept (get m k s) op) else get m l q)
unfolding get ingest
get-ingest m k l s q op = ground (
  arith,
  better-kept (get m k s) op,
  get-insert m k l (
      BtreeMap.insert (or_default (BtreeMap.get m k)) s
        (better (BtreeMap.get (or_default (BtreeMap.get m k)) s) op)),
  get-insert (or_default (BtreeMap.get m k)) s q
      (better (BtreeMap.get (or_default (BtreeMap.get m k)) s) op),
  log_ord.eq_of_cmp l k,
)

units_of : Option Op → ℕ
units_of none = 0
units_of (some op) = op_units op

-- An insertion replaces the units of what was there.
log_units-insert :
    (ops : Ops) (s : ℕ) (op : Op)
    → log_units (BtreeMap.insert ops s op) + units_of (BtreeMap.get ops s)
      ≡ log_units ops + op_units op
unfolding log_units BtreeMap.insert BtreeMap.get units_of
log_units-insert [] s op = ground arith
log_units-insert ((k, o) ∷ ops) s op = ground (arith, log_units-insert ops s op)

unfoldable pub log_units_of : Option Ops → ℕ
log_units_of none = 0
log_units_of (some ops) = log_units ops

pub usage-insert :
    (m : OpsMap) (l : Log) (ops : Ops)
    → usage (BtreeMap.insert m l ops) + log_units_of (BtreeMap.get m l) ≡ usage m + log_units ops
unfolding usage BtreeMap.insert BtreeMap.get log_units_of
usage-insert [] l ops = ground arith
usage-insert ((k, o) ∷ m) l ops = ground (arith, usage-insert m l ops)

units-better :
    (old : Option Op) (op : Op)
    → op_units (better old op)
      ≡ units_of old + elim old [
        | none ↦ if has_payload op then 2 else 1
        | some o ↦ if not (has_payload o) && has_payload op then 1 else 0
      ]
unfolding better op_units units_of
units-better none op = ground arith
units-better (some o) op = ground arith

log_units-or_default : (o : Option Ops) → log_units (or_default o) ≡ log_units_of o
unfolding log_units log_units_of
log_units-or_default none = refl
log_units-or_default (some ops) = refl

-- An ingest adds to the usage exactly the delta that was announced for it.
pub usage-ingest :
    (m : OpsMap) (l : Log) (s : ℕ) (op : Op)
    → usage (ingest m l s op) ≡ usage m + ingest_delta m l s op
unfolding ingest ingest_delta get
usage-ingest m l s op =
    let ops : Ops = or_default (BtreeMap.get m l) in
    let new : Op = better (BtreeMap.get ops s) op in
    omega (
      arith,
      usage-insert m l (BtreeMap.insert ops s new),
      log_units-insert ops s new,
      units-better (BtreeMap.get ops s) op,
      log_units-or_default (BtreeMap.get m l),
    )
