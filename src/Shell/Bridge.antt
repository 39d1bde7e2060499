-- ===== src/Shell/Bridge.antt =====
-- storage.rs: every store that cannot fail is a store for the shell. The store here is `OpsMap`, and
-- it is one that the node can rely on.
use dash_router.Base.{
  ℕ, ◌+◌, ◌≤◌, ◌≡◌, Bool, true, false, ◌&&◌, ◌||◌, Option, none, some, refl, arith, ◌==◌,
}
use dash_router.Base.Order.{same, nat_ord}
use dash_router.Log.{Log, log_ord}
use dash_router.Storage.{
  Op, OpsMap, held_of, held_all, held_payloads, fetch, ingest, ingest_delta, usage, evict,
  evict_payloads, get,
}
use dash_router.Storage.Ingest.{get-ingest, usage-ingest}
use dash_router.Shell.{AsyncStorage, AsyncEvictableStorage}
use dash_router.Shell.Glue.Landing.{Keeps}
use dash_router.Shell.Glue.Cap.{Meters}

abbrev pub sync_storage : AsyncStorage OpsMap
sync_storage = record {
  held_of = λ m logs. (some (held_of m logs), m);
  held_all = λ m. (some (held_all m), m);
  fetch = λ m r. (some (fetch m r), m);
  ingest = λ m l q op. (true, ingest m l q op);
}

abbrev pub sync_evictable : AsyncEvictableStorage OpsMap
sync_evictable = record {
  storage = sync_storage;
  usage = λ m. (some (usage m), m);
  ingest_delta = λ m l q op. (some (ingest_delta m l q op), m);
  held_payloads = λ m. (some (held_payloads m), m);
  evict_payloads = λ m r. (true, evict_payloads m r);
  evict = λ m r. (true, evict m r);
}

abbrev pub stored : OpsMap → Log → ℕ → Bool
stored m l q = elim (get m l q) [ none ↦ false | some op ↦ true ]

stored-ingest :
    (m : OpsMap) (k l : Log) (s q : ℕ) (op : Op)
    → stored (ingest m k s op) l q ≡ ((same l k && (q == s)) || stored m l q)
stored-ingest m k l s q op = ground (arith, get-ingest m k l s q op)

pub ingest-stored : (m : OpsMap) (l : Log) (q : ℕ) (op : Op) → stored (ingest m l q op) l q ≡ true
ingest-stored m l q op = ground (arith, stored-ingest m l l q q op, log_ord.cmp_flip l l)

pub ingest-keeps_stored :
    (m : OpsMap) (l k : Log) (q p : ℕ) (op : Op)
    → stored m k p ≡ true
    → stored (ingest m l q op) k p ≡ true
ingest-keeps_stored m l k q p op h = ground (arith, stored-ingest m l k q p op)

abbrev pub sync_keeps : Keeps sync_storage
sync_keeps = record {
  has = stored;
  ingest-has = λ m l q op h. ingest-stored m l q op;
  ingest-keeps = ingest-keeps_stored;
  held_of-keeps = λ m logs k p h. h;
  held_all-keeps = λ m k p h. h;
  fetch-keeps = λ m r k p h. h;
}

pub answer-le : (a n : ℕ) → ◌≡◌ {A = Option ℕ} (some a) (some n) → a ≤ n
answer-le a n h = ground arith

pub usage-ingest_le :
    (m : OpsMap) (l : Log) (q : ℕ) (op : Op)
    → usage (ingest m l q op) ≤ usage m + ingest_delta m l q op
usage-ingest_le m l q op = ground (arith, usage-ingest m l q op)

abbrev pub sync_meters : Meters sync_evictable
sync_meters = record {
  size = usage;
  delta = ingest_delta;
  usage-size = λ m n h. answer-le (usage m) n h;
  usage-keeps_size = λ m. refl;
  usage-keeps_delta = λ m l q op. refl;
  ingest_delta-delta = λ m l q op n h. answer-le (ingest_delta m l q op) n h;
  ingest_delta-keeps_size = λ m l q op. refl;
  ingest_delta-keeps_delta = λ m l q op. refl;
  ingest-size = usage-ingest_le;
}
