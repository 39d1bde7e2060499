-- ===== src/Shell/Handlers/Migrate.antt =====
-- shell.rs: `on_subscribe` moves what the relay holds under the channel to the application's store.
pub mod Safe
use dash_router.Base.{
  ℕ, ◌+◌, ◌≡◌, Bool, true, false, not, ◌&&◌, ◌||◌, Option, none, some, List, [], ◌∷◌, ◌++◌,
  if◌then◌else◌,
}
use dash_router.Base.Order.{Ord, same, nat_ord}
use dash_router.BtreeMap
use dash_router.BtreeMap.{BtreeMap}
use dash_router.Log.{Log, Authors, log_ord}
use dash_router.Ranges
use dash_router.Ranges.{Ranges}
use dash_router.LogRanges
use dash_router.LogRanges.{LogRanges}
use dash_router.Storage.{Op}
use dash_router.Wire.{WireMessage}
use dash_router.Node.{full_each, from_seqs_each, pushed_to}
use dash_router.Shell.{
  AsyncStorage, AsyncEvictableStorage, IntervalSource, CoreConfig, subscribe_ingest, Out,
  storage_error, Io, Core, Outcome,
}
use dash_router.Shell.Glue.{and_then, relay_error}
use dash_router.Shell.Handlers.{advance_to, reopen, logs_of}

module _ {E R : Type 0} (exts : AsyncStorage E) (relays : AsyncEvictableStorage R) where
  -- The state of the loop over the fetched ops: the numbers that landed, by log.
  pub record Migrating : Type 0 where
    pub ext : E
    pub ingested : BtreeMap Log (List ℕ)
    pub outs : List Out

  migrate_op : Migrating → Log → ℕ → Op → Migrating
  migrate_op s l q op =
      let answer = exts.ingest s.ext l q op in
      if answer.0
      then record s {
        ext = answer.1;
        ingested = BtreeMap.insert s.ingested l (pushed_to (BtreeMap.get s.ingested l) q);
      }
      else record s { ext = answer.1; outs = s.outs ++ storage_error subscribe_ingest ∷ [] }

  migrate_loop : Migrating → List (Log × ℕ × Op) → Migrating
  migrate_loop s [] = s
  migrate_loop s ((l, q, op) ∷ ops) = migrate_loop (migrate_op s l q op) ops

  -- Only what landed leaves the relay.
  evict_landed : Io E R → LogRanges → Io E R
  evict_landed io landed =
      if LogRanges.is_empty landed
      then io
      else let evicted = relays.evict io.relay landed in
        if evicted.0 then record io { relay = evicted.1 } else relay_error exts relays io evicted.1

  pub migrate : Io E R → LogRanges → List Out → Io E R × List Out
  migrate io under outs =
      if LogRanges.is_empty under
      then (io, outs)
      else let answer = relays.storage.fetch io.relay under in
        elim answer.0 [
          | none ↦ (relay_error exts relays io answer.1, outs)
          | some ops ↦
              let s = migrate_loop (record { ext = io.ext; ingested = []; outs = outs }) ops in
              (
                evict_landed (record io { ext = s.ext; relay = answer.1 })
                    (LogRanges.from_pairs (from_seqs_each s.ingested)),
                s.outs,
              )
        ]

  -- Every log under the channel that the relay holds, as full ranges.
  under_channel : Io E R → ℕ → Io E R × LogRanges
  under_channel io channel =
      let held = relays.storage.held_all io.relay in
      elim held.0 [
        | some all ↦ (
          record io { relay = held.1 },
          LogRanges.from_pairs (full_each (LogRanges.channel all channel)),
        )
        | none ↦ (relay_error exts relays io held.1, LogRanges.empty)
      ]

  module _ {I : Type 0} ⦃t : Authors⦄ (intervals : IntervalSource I) (encoded_len : WireMessage → ℕ)
      (config : CoreConfig) where
    pub subscribe : ℕ → Core E R I → List Out → Outcome E R I
    subscribe channel c outs =
        let (io1, under) = under_channel c.io channel in
        let (io2, outs') = migrate io1 under outs in
        reopen exts relays intervals encoded_len config (some (logs_of (LogRanges.iter under)))
          (record c { io = io2; subscriptions = BtreeMap.set_insert c.subscriptions channel }) outs'

    pub on_subscribe : ℕ → Core E R I → ℕ → ℕ → Outcome E R I
    on_subscribe fuel c now channel =
        and_then (advance_to exts relays intervals encoded_len config fuel now c [])
          (subscribe channel)
