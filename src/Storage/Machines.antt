-- ===== src/Storage/Machines.antt =====
-- storage.rs: the machines of the relay's store, which has a cap, and of the application's store.
mod Equal
use dash_router.Base.{
  ℕ, ◌+◌, ◌≤◌, ◌≡◌, Bool, true, false, not, Option, none, some, List, [], ◌∷◌, refl, arith, leb,
  Bool-cases, inl, inr, if◌then◌else◌,
}
use dash_router.Log.{Log}
use dash_router.LogRanges.{LogRanges}
use dash_router.Storage.{Op, OpsMap, ingest, ingest_delta, usage, held_all, evict, evict_payloads}
use dash_router.Storage.Ingest.{usage-ingest}
use dash_router.Storage.Usage.{usage-evictions-le}
use Equal.{log_ranges_eq}

pub data StoreEffect : Type 0 where
  held_changed : LogRanges → StoreEffect

pub data StoreResult : Type 0 where
  ok : OpsMap → List StoreEffect → StoreResult
  would_exceed_cap : StoreResult

pub data RelayAction : Type 0 where
  ingests : Log → ℕ → Op → RelayAction
  evicts_payloads : LogRanges → RelayAction
  evicts : LogRanges → RelayAction

pub data ExtAction : Type 0 where
  ingests : Log → ℕ → Op → ExtAction
  native_sync : Log → ℕ → Op → ExtAction
  app_gc : LogRanges → ExtAction

-- The new snapshot, if it is another one.
pub changed : OpsMap → OpsMap → List StoreEffect
changed before after =
    if log_ranges_eq (held_all after) (held_all before)
    then []
    else held_changed (held_all after) ∷ []

unfoldable pub relay_transition : ℕ → OpsMap → RelayAction → StoreResult
relay_transition cap m (RelayAction.ingests l s op) =
    if leb (usage m + ingest_delta m l s op) cap
    then ok (ingest m l s op) (changed m (ingest m l s op))
    else would_exceed_cap
relay_transition cap m (evicts_payloads ranges) = ok (evict_payloads m ranges) []
relay_transition cap m (evicts ranges) = ok (evict m ranges) (changed m (evict m ranges))

unfoldable pub ext_transition : OpsMap → ExtAction → OpsMap × List StoreEffect
ext_transition m (ExtAction.ingests l s op) = (ingest m l s op, changed m (ingest m l s op))
ext_transition m (native_sync l s op) = (ingest m l s op, changed m (ingest m l s op))
ext_transition m (app_gc ranges) = (evict m ranges, changed m (evict m ranges))

-- No action that succeeds brings the relay's store, when it is within its cap, above it.
pub relay_transition-le_cap :
    (cap : ℕ) (m n : OpsMap) (a : RelayAction) (fx : List StoreEffect)
    → usage m ≤ cap
    → relay_transition cap m a ≡ ok n fx
    → usage n ≤ cap
unfolding relay_transition
relay_transition-le_cap cap m n (RelayAction.ingests l s op) fx h e =
    ground (arith, usage-ingest m l s op)
relay_transition-le_cap cap m n (evicts_payloads ranges) fx h e =
    ground (arith, usage-evictions-le m ranges)
relay_transition-le_cap cap m n (evicts ranges) fx h e = ground (arith, usage-evictions-le m ranges)

-- An ingest is refused exactly when the store would then use more than the cap, and otherwise
-- does what the store's ingest does, and reports a change of the snapshot.
pub relay_refuses_iff :
    (cap : ℕ) (m : OpsMap) (l : Log) (s : ℕ) (op : Op)
    → relay_transition cap m (RelayAction.ingests l s op) ≡ (
        if leb (usage (ingest m l s op)) cap
        then ok (ingest m l s op) (changed m (ingest m l s op))
        else would_exceed_cap)
unfolding relay_transition
relay_refuses_iff cap m l s op = rw (usage-ingest m l s op)
