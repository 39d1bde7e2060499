-- ===== src/Shell/Glue.antt =====
-- shell.rs: the glue between the router and the stores: `ingest_parked`, `hydrate`, `route_fx`,
-- `reconcile_held` and `flush_push`.
pub mod Cap
pub mod Landing
pub mod Succeeds
pub mod Truthful
pub mod Still
use dash_router.Base.{
  ℕ, ◌+◌, Bool, true, false, not, ◌&&◌, ◌||◌, Option, none, some, List, [], ◌∷◌, ◌++◌, ltb, ◌==◌,
  elem, length, if◌then◌else◌,
}
use dash_router.Base.Order.{Ord, same, nat_ord}
use dash_router.BtreeMap
use dash_router.BtreeMap.{BtreeMap}
use dash_router.Log.{Log, Authors, log_ord}
use dash_router.Ranges
use dash_router.Ranges.{Ranges}
use dash_router.LogRanges
use dash_router.LogRanges.{LogRanges}
use dash_router.Storage.{Op}
use dash_router.Wire.{WireMessage}
use dash_router.Router
use dash_router.Router.{State, Action, Effect, send_want, send_have, accept, holds, push}
use dash_router.Router.Step.{transition}
use dash_router.Node.{Parked, key_ord}
use dash_router.Node.Step.{sort_ops, dedup_ops}
use dash_router.Pack.{pack_have}
use dash_router.Pack.Slices.{pack_want}
use dash_router.Shell.{
  AsyncStorage, AsyncEvictableStorage, CoreConfig, wire_bytes_of, Context, reconcile_held_of,
  reconcile_held_all, hydrate_fetch, parked_ingest, Out, broadcast, delivered, storage_error,
  Failure, router_refused, Io, Core, Outcome,
}

-- The key is in the set of those that `ext` did not take.
abbrev pub is_failed : List (Log × ℕ) → Log → ℕ → Bool
is_failed [] l s = false
is_failed (k ∷ failed) l s = same k (l, s) || is_failed failed l s

-- The order of what is delivered is that of the parked keys.
pub deliveries : Log → Ranges → List (Log × ℕ) → Parked → List Out
deliveries l r failed [] = []
deliveries l r failed (((k, s), op) ∷ parked) =
    let rest = deliveries l r failed parked in
    if same k l && (Ranges.contains r s && not (is_failed failed k s))
    then delivered l s ∷ rest
    else rest

pub deliver_all : List ℕ → List (Log × ℕ) → Parked → List (Log × Ranges) → List Out
deliver_all subscriptions failed parked [] = []
deliver_all subscriptions failed parked ((l, r) ∷ novel) =
    let rest = deliver_all subscriptions failed parked novel in
    if not (elem l.channel subscriptions) then rest else deliveries l r failed parked ++ rest

broadcasts : List WireMessage → List Out
broadcasts [] = []
broadcasts (m ∷ msgs) = broadcast m ∷ broadcasts msgs

-- What an answer adds to what is known, or the error it is.
fetched : Option (List (Log × ℕ × Op)) → List (Log × ℕ × Op)
fetched none = []
fetched (some ops) = ops

or_empty : Option Ranges → Ranges
or_empty none = []
or_empty (some r) = r

module _ {E R : Type 0} (exts : AsyncStorage E) (relays : AsyncEvictableStorage R) where
  unfoldable pub relay_error : Io E R → R → Io E R
  relay_error io relay = record io { relay = relay; relay_errors = io.relay_errors + 1 }

  -- The state of the loop of `ingest_parked`. `usage` is what the loop knows of the relay's.
  pub record Ingesting : Type 0 where
    pub io : Io E R
    pub usage : Option ℕ
    pub failed : List (Log × ℕ)
    pub outs : List Out

  unfoldable pub ingest_ext : Ingesting → Log → ℕ → Op → Ingesting
  ingest_ext s l q op =
      let answer = exts.ingest s.io.ext l q op in
      if answer.0 then record s { io = record s.io { ext = answer.1 } } else record s {
        io = record s.io { ext = answer.1 };
        failed = (l, q) ∷ s.failed;
        outs = s.outs ++ storage_error parked_ingest ∷ [];
      }

  -- With the relay's usage read or known: the op goes in if there is room.
  unfoldable pub ingest_if_room : ℕ → Ingesting → Log → ℕ → Op → ℕ → ℕ → Ingesting
  ingest_if_room cap s l q op units current =
      if ltb cap (current + units)
      then record s { usage = some current }
      else let answer = relays.storage.ingest s.io.relay l q op in
        if answer.0
        then record s { io = record s.io { relay = answer.1 }; usage = some (current + units) }
        else record s { io = relay_error s.io answer.1; usage = none }

  unfoldable pub ingest_relay : ℕ → Ingesting → Log → ℕ → Op → Ingesting
  ingest_relay cap s l q op =
      let delta = relays.ingest_delta s.io.relay l q op in
      elim delta.0 [
        | none ↦ record s { io = relay_error s.io delta.1; usage = none }
        | some units ↦ elim s.usage [
          | some current ↦
              ingest_if_room cap (record s { io = record s.io { relay = delta.1 } }) l q op units
                current
          | none ↦
              let used = relays.usage delta.1 in
              elim used.0 [
                | none ↦ record s { io = relay_error s.io used.1 }
                | some current ↦
                    ingest_if_room cap (record s { io = record s.io { relay = used.1 } }) l q op
                      units current
              ]
        ]
      ]

  unfoldable pub ingest_op : List ℕ → ℕ → Ingesting → Log → ℕ → Op → Ingesting
  ingest_op subscriptions cap s l q op =
      if elem l.channel subscriptions then ingest_ext s l q op else ingest_relay cap s l q op

  unfoldable pub ingest_loop : List ℕ → ℕ → Ingesting → Parked → Ingesting
  ingest_loop subscriptions cap s [] = s
  ingest_loop subscriptions cap s (((l, q), op) ∷ parked) =
      ingest_loop subscriptions cap (ingest_op subscriptions cap s l q op) parked

  unfoldable pub ingest_parked : List ℕ → ℕ → Io E R → Parked → Ingesting
  ingest_parked subscriptions cap io parked =
      ingest_loop subscriptions cap (record { io = io; usage = none; failed = []; outs = [] })
        parked

  -- The relay's part of `hydrate`, and the application's.
  relay_fetch : Io E R → LogRanges → Io E R × List (Log × ℕ × Op)
  relay_fetch io r =
      let answer = relays.storage.fetch io.relay r in
      elim answer.0 [
        | some ops ↦ (record io { relay = answer.1 }, ops)
        | none ↦ (relay_error io answer.1, [])
      ]

  ext_fetch : Io E R → LogRanges → Io E R × List (Log × ℕ × Op) × List Out
  ext_fetch io r =
      let answer = exts.fetch io.ext r in
      elim answer.0 [
        | some ops ↦ (record io { ext = answer.1 }, ops, [])
        | none ↦ (record io { ext = answer.1 }, [], storage_error hydrate_fetch ∷ [])
      ]

  module _ (encoded_len : WireMessage → ℕ) (config : CoreConfig) (id : ℕ) where
    -- The Io after, the messages, and the errors to report.
    pub hydrate : Io E R → LogRanges → Io E R × List WireMessage × List Out
    hydrate io r =
        let (io1, parked_ops) = relay_fetch io r in
        let (io2, more, outs) = ext_fetch io1 r in
        let (msgs, dropped) =
          pack_have encoded_len id (wire_bytes_of config.max_wire_bytes)
            (dedup_ops (sort_ops (parked_ops ++ more))) in
        (
          record io2 {
            oversize_drops = io2.oversize_drops + dropped;
            sent_msgs = io2.sent_msgs + length msgs;
          },
          msgs,
          outs,
        )

    module _ ⦃t : Authors⦄ where
      route_one : List ℕ → Parked → List (Log × ℕ) → Io E R → Effect → Io E R × List Out
      route_one subscriptions parked failed io (accept novel) =
          (io, deliver_all subscriptions failed parked (LogRanges.iter novel))
      route_one subscriptions parked failed io (send_want interest) =
          elim (pack_want encoded_len id (wire_bytes_of config.max_wire_bytes) interest) [
            | none ↦ (record io { panicked = true }, [])
            | some (msgs, truncated) ↦ (
              record io {
                oversize_drops = io.oversize_drops + truncated;
                sent_msgs = io.sent_msgs + length msgs;
              },
              broadcasts msgs,
            )
          ]
      route_one subscriptions parked failed io (send_have r) =
          let (io', msgs, outs) = hydrate io r in (io', outs ++ broadcasts msgs)

      pub route_fx : List ℕ → Parked → List (Log × ℕ) → Io E R → List Effect → Io E R × List Out
      route_fx subscriptions parked failed io [] = (io, [])
      route_fx subscriptions parked failed io (e ∷ fx) =
          let (io1, outs) = route_one subscriptions parked failed io e in
          let (io2, more) = route_fx subscriptions parked failed io1 fx in (io2, outs ++ more)

-- The cache under the logs that were touched: what the stores hold now, or nothing.
pub refresh : LogRanges → LogRanges → List Log → LogRanges
refresh cache merged [] = cache
refresh cache merged (l ∷ logs) =
    let r = or_empty (LogRanges.get merged l) in
    refresh (if Ranges.is_empty r then (LogRanges.remove cache l).0 else LogRanges.insert cache l r)
      merged logs

module _ {E R I : Type 0} where
  -- `?` on an outcome, and what comes after it.
  unfoldable pub and_then : Outcome E R I → (Core E R I → List Out → Outcome E R I) → Outcome E R I
  and_then (Outcome.ok c outs) next = next c outs
  and_then (Outcome.err f c) next = Outcome.err f c

  -- `match` on what a store answers: what to do on an error, and with an answer.
  pub on_answer : {A : Type 0} → Option A → Outcome E R I → (A → Outcome E R I) → Outcome E R I
  on_answer none failed next = failed
  on_answer (some a) failed next = next a

  module _ ⦃t : Authors⦄ (config : CoreConfig) where
    -- `self.router.step(action)?`
    pub step_router :
        Core E R I → Action → (Core E R I → List Effect → Outcome E R I) → Outcome E R I
    step_router c a next = elim (transition config.router c.router a) [
      | Router.ok s fx ↦ next (record c { router = s }) fx
      | Router.err e ↦ Outcome.err (router_refused e) c
    ]

    -- The end of `reconcile_held`: the router learns the new snapshot.
    unfoldable pub tell_router : Core E R I → LogRanges → List Out → Outcome E R I
    tell_router c cache outs =
        step_router (record c { held_cache = cache }) (holds cache) λ c' fx. Outcome.ok c' outs

    module _ (exts : AsyncStorage E) (relays : AsyncEvictableStorage R) where
      unfoldable pub with_ext : Core E R I → E → Core E R I
      with_ext c e = record c { io = record c.io { ext = e } }

      unfoldable pub with_relay : Core E R I → R → Core E R I
      with_relay c r = record c { io = record c.io { relay = r } }

      unfoldable pub relay_failed : Core E R I → R → List Out → Outcome E R I
      relay_failed c r outs = Outcome.ok (record c { io = relay_error exts relays c.io r }) outs

      -- Where a store does not answer, the stale cache stands.
      unfoldable pub reconcile_logs : Core E R I → List Log → List Out → Outcome E R I
      reconcile_logs c logs outs =
          let in_ext = exts.held_of c.io.ext logs in
          let c1 = with_ext c in_ext.1 in
          let in_relay = relays.storage.held_of c1.io.relay logs in
          on_answer in_ext.0 (Outcome.ok c1 (outs ++ storage_error reconcile_held_of ∷ []))
            λ ext_held. on_answer in_relay.0 (relay_failed c1 in_relay.1 outs) λ relay_held.
              tell_router (with_relay c1 in_relay.1)
                (refresh c.held_cache (LogRanges.union ext_held relay_held) logs) outs

      pub reconcile_all : Core E R I → List Out → Outcome E R I
      reconcile_all c outs =
          let in_ext = exts.held_all c.io.ext in
          let c1 = with_ext c in_ext.1 in
          let in_relay = relays.storage.held_all c1.io.relay in
          on_answer in_ext.0 (Outcome.ok c1 (outs ++ storage_error reconcile_held_all ∷ []))
            λ ext_all. on_answer in_relay.0 (relay_failed c1 in_relay.1 outs) λ relay_all.
              tell_router (with_relay c1 in_relay.1) (LogRanges.union ext_all relay_all) outs

      unfoldable pub reconcile_held : Core E R I → Option (List Log) → List Out → Outcome E R I
      reconcile_held c (some logs) outs = reconcile_logs c logs outs
      reconcile_held c none outs = reconcile_all c outs
