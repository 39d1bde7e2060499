-- ===== src/Shell/Tests.antt =====
-- Instances of the theorems on the shell: a node over two stores that cannot fail, but for a relay
-- whose eviction fails.
use dash_router.Base.{
  ℕ, ◌+◌, ◌*◌, ◌-◌, ◌≤◌, ◌≡◌, ◌⊎◌, Bool, true, false, ◌&&◌, ◌||◌, Option, none, some, List, [], ◌∷◌,
  refl, arith, leb, ◌==◌, All, Bool-cases, inl, inr, length, if◌then◌else◌,
}
use dash_router.Base.Order.{nat_ord, same}
use dash_router.Log.{Log, Authors, pair_authors, log_ord}
use dash_router.Ranges
use dash_router.Ranges.{Ranges, seq_max}
use dash_router.LogRanges
use dash_router.LogRanges.{LogRanges}
use dash_router.Storage
use dash_router.Storage.{Op, OpsMap}
use dash_router.Interest.{Entry, contains, contains_prefix}
use dash_router.Interest.Asks.{IsValid}
use dash_router.Wire
use dash_router.Wire.{WireMessage, wire_version, message_have}
use dash_router.Node.{NodeResult, Parked, new_node}
use dash_router.Node.Step
use dash_router.Shell.Refine.{with_stores, ingest_parked-refines}
use dash_router.Lan.{v4}
use dash_router.Shell.{
  AsyncEvictableStorage, IntervalSource, CoreConfig, Core, Out, Outcome, Incoming, new_core,
  append_failed,
}
use dash_router.Shell.Bridge.{sync_storage, sync_evictable, sync_keeps, sync_meters}
use dash_router.Shell.Glue.{ingest_parked}
use dash_router.Shell.Glue.Cap.{ingest_parked-IsMetered}
use dash_router.Shell.Glue.Succeeds.{Succeeds}
use dash_router.Shell.Glue.Truthful.{Yields}
use dash_router.Shell.Handlers.{on_append, hint, maintain, unsubscribe, on_wire, advance_to}
use dash_router.Shell.Handlers.Errors.{Any, commands-Succeed}
use dash_router.Shell.Handlers.Fuel.{CaughtUp, advance_to-Succeeds, on_append-fails_or_Succeeds}
use dash_router.Shell.Handlers.Still.{on_wire-Succeeds}
use dash_router.Shell.Handlers.Delivered.{True, on_wire-Truthful}
use dash_router.Shell.Handlers.Migrate.{subscribe}
use dash_router.Shell.Handlers.Migrate.Safe.{KeepsRest, StillHas, subscribe_loses_nothing}

instance abbrev authors : Authors
authors = pair_authors

abbrev steady : IntervalSource ℕ
steady = record { next_want = λ i. (10, i); next_have = λ i. (5, i) }

abbrev config : CoreConfig
config = record {
  router = record { want_ttl = 100; have_ttl = 50; heard_ttl = 200 };
  relay_cap = 4;
  evict_mark = 3;
  debounce = record { window = 2; max_latency = 6 };
  max_wire_bytes = none;
}

abbrev message_len : WireMessage → ℕ
message_len m = 100

abbrev no_ops : OpsMap
no_ops = []

-- Node 1, subscribed to channel 7.
abbrev node : Core OpsMap OpsMap ℕ
node = new_core 1 (7 ∷ []) no_ops no_ops 0

abbrev an_op : Op
an_op = record { header = 7 ∷ []; payload = some (1 ∷ []) }

abbrev a_log : Log
a_log = record { channel = 7; author = 1 }

abbrev other_log : Log
other_log = record { channel = 8; author = 1 }

-- A Have of node 2, with an op of a channel subscribed to and one of another.
abbrev decode : List ℕ → Option WireMessage
decode bytes = some (message_have 2 ((a_log, (0, an_op) ∷ []) ∷ (other_log, (3, an_op) ∷ []) ∷ []))

abbrev peer_key : ℕ → Option ℕ
peer_key id = none

abbrev incoming : Incoming
incoming = record { remote = some (v4 10 0 0 1); author = none; bytes = 1 ∷ [] }

now_is_zero : 4 * (20 - node.now) + 3 ≤ 83
unfolding new_core
now_is_zero = omega arith

advance_to-Succeeds_example :
    Succeeds
      (CaughtUp sync_storage sync_evictable steady message_len config 20)
      (advance_to sync_storage sync_evictable steady message_len config 83 20 node [])
advance_to-Succeeds_example =
    advance_to-Succeeds sync_storage sync_evictable steady message_len config 83 20 node []
      (λ i. omega arith) (λ i. omega arith) now_is_zero

-- A Want of one entry, over the whole space, that lists two logs.
abbrev want_entry : Entry
want_entry = record { lo = 0; hi = 4294967295; have = (1, 0 ∷ 2 ∷ []) ∷ (2, 4 ∷ []) ∷ [] }

abbrev decode_want : List ℕ → Option WireMessage
decode_want bytes =
    some (record { version = wire_version; sender = 2; body = Wire.want ((7, want_entry) ∷ []) })

want_entry-IsValid : IsValid want_entry
unfolding contains contains_prefix
want_entry-IsValid = record {
  scope = omega arith;
  sorted = (refl, tt);
  ranges = omega arith;
  within = λ a h. ground (arith, authors.prefix-le a);
}

on_wire-Succeeds_example :
    (c1 : Core OpsMap OpsMap ℕ) × (outs : List Out) × (advance_to sync_storage sync_evictable steady
        message_len config 83 20 node []
      ≡ Outcome.ok c1 outs)
    × Succeeds
        (λ c'. c'.io.panicked ≡ c1.io.panicked)
        (on_wire sync_storage sync_evictable steady message_len config decode_want peer_key 83 node
          20 incoming)
on_wire-Succeeds_example =
    on_wire-Succeeds sync_storage sync_evictable steady message_len config decode_want peer_key 83
      node 20 incoming (λ i. omega arith) (λ i. omega arith) now_is_zero (want_entry-IsValid, tt)

on_wire-Truthful_example :
    Yields (True sync_storage sync_evictable steady message_len config sync_keeps) (
      on_wire sync_storage sync_evictable steady message_len config decode peer_key 83 node 20
        incoming)
on_wire-Truthful_example =
    on_wire-Truthful sync_storage sync_evictable steady message_len config sync_keeps decode
      peer_key 83 node 20 incoming

commands-Succeed_example :
    Succeeds
      (Any sync_storage sync_evictable steady message_len config)
      (unsubscribe sync_storage sync_evictable steady message_len config 7 node [])
    × Succeeds
        (Any sync_storage sync_evictable steady message_len config)
        (hint sync_storage sync_evictable steady message_len config (a_log ∷ []) node [])
    × Succeeds
        (Any sync_storage sync_evictable steady message_len config)
        (maintain sync_storage sync_evictable steady message_len config node [])
commands-Succeed_example =
    commands-Succeed sync_storage sync_evictable steady message_len config node [] 7 (a_log ∷ [])

on_append-fails_or_Succeeds_example :
    (c1 : Core OpsMap OpsMap ℕ) × (outs : List Out) × (advance_to sync_storage sync_evictable steady
        message_len config 83 20 node []
      ≡ Outcome.ok c1 outs)
    × (((sync_storage.ingest c1.io.ext a_log 0 an_op).0 ≡ true
          × Succeeds
              (λ c'. c'.latest_append ≡ 20)
              (on_append sync_storage sync_evictable steady message_len config 83 node 20 a_log 0
                an_op))
        ⊎ ((sync_storage.ingest c1.io.ext a_log 0 an_op).0 ≡ false
            × (on_append sync_storage sync_evictable steady message_len config 83 node 20 a_log 0
                  an_op
                ≡ Outcome.err append_failed (record c1 {
                  io = record c1.io { ext = (sync_storage.ingest c1.io.ext a_log 0 an_op).1 };
                }))))
on_append-fails_or_Succeeds_example =
    on_append-fails_or_Succeeds sync_storage sync_evictable steady message_len config 83 node 20
      a_log 0 an_op (λ i. omega arith) (λ i. omega arith) now_is_zero

none_used : Storage.usage node.io.relay ≤ 3
unfolding new_core Storage.usage
none_used = omega arith

abbrev two_parked : Parked
two_parked = ((a_log, 0), an_op) ∷ ((other_log, 3), an_op) ∷ ((other_log, 4), an_op) ∷ []

ingest_parked-IsMetered_example :
    Storage.usage (ingest_parked sync_storage sync_evictable (7 ∷ []) 3 node.io two_parked).io.relay
    ≤ 3
ingest_parked-IsMetered_example =
    ingest_parked-IsMetered sync_storage sync_evictable sync_meters 3 3 (omega arith) (7 ∷ [])
      node.io two_parked none_used

ingest_parked-refines_example :
    Step.ingest_parked 3
      (with_stores (new_node 1 (7 ∷ [])) node.io)
      two_parked
      (λ n. NodeResult.ok n [])
    ≡ NodeResult.ok
        (with_stores
          (new_node 1 (7 ∷ []))
          (ingest_parked sync_storage sync_evictable
            (new_node 1 (7 ∷ [])).subscriptions
            3
            node.io
            two_parked).io)
        []
ingest_parked-refines_example =
    ingest_parked-refines 3 (new_node 1 (7 ∷ [])) node.io two_parked (λ n. NodeResult.ok n [])

-- A relay that is a list of ops; it evicts, but an eviction of more than one log's ops fails.
abbrev Listed : Type 0
Listed = List (Log × ℕ × Op)

abbrev listed : Listed → Log → ℕ → Bool
listed [] l q = false
listed ((k, p, op) ∷ ops) l q = (same l k && (q == p)) || listed ops l q

abbrev outside : LogRanges → Listed → Listed
outside r [] = []
outside r ((k, p, op) ∷ ops) =
    if LogRanges.contains r k p then outside r ops else (k, p, op) ∷ outside r ops

abbrev inside : LogRanges → Listed → Listed
inside r [] = []
inside r ((k, p, op) ∷ ops) =
    if LogRanges.contains r k p && leb p seq_max then (k, p, op) ∷ inside r ops else inside r ops

abbrev ranges_listed : Listed → List (Log × Ranges)
ranges_listed [] = []
ranges_listed ((k, p, op) ∷ ops) = (k, Ranges.from_seqs (p ∷ [])) ∷ ranges_listed ops

abbrev list_relay : AsyncEvictableStorage Listed
list_relay = record {
  storage = record {
    held_of = λ s logs. (some (LogRanges.from_pairs (ranges_listed s)), s);
    held_all = λ s. (some (LogRanges.from_pairs (ranges_listed s)), s);
    fetch = λ s r. (some (inside r s), s);
    ingest = λ s l q op. (true, (l, q, op) ∷ s);
  };
  usage = λ s. (some (length s), s);
  ingest_delta = λ s l q op. (some 1, s);
  held_payloads = λ s. (none, s);
  evict_payloads = λ s r. (false, s);
  evict = λ s r. (leb (length s) 5, outside r s);
}

listed-outside :
    (r : LogRanges) (ops : Listed) (l : Log) (q : ℕ)
    → listed ops l q ≡ true
    → LogRanges.contains r l q ≡ false
    → listed (outside r ops) l q ≡ true
listed-outside r [] l q h k = cc
listed-outside r ((k, p, op) ∷ ops) l q h v = elim (Bool-cases (same l k && (q == p))) [
  | inl here ↦
      let log' : l ≡ k = log_ord.eq_of_cmp l k (ground arith) in
      let number : q ≡ p = ground arith in
      let kept : LogRanges.contains r k p ≡ false = rw (log', number) at v in
      rw (kept, outside) (ground arith)
  | inr there ↦ ground (arith, listed-outside r ops l q)
]

inside_seqs : (r : LogRanges) (ops : Listed) → All (λ x. x.1 ≤ seq_max) (inside r ops)
inside_seqs r [] = tt
inside_seqs r ((k, p, op) ∷ ops) = elim (Bool-cases (LogRanges.contains r k p && leb p seq_max)) [
  | inl in_range ↦ rw (in_range, inside) (ground arith, inside_seqs r ops)
  | inr out ↦ rw (out, inside) (inside_seqs r ops)
]

fetch_seqs :
    (s : Listed) (r : LogRanges) (ops : Listed)
    → (list_relay.storage.fetch s r).0 ≡ some ops
    → All (λ x. x.1 ≤ seq_max) ops
fetch_seqs s r ops h = let found : inside r s ≡ ops = cc in rw found at (inside_seqs r s)

abbrev list_keeps : KeepsRest list_relay
list_keeps = record {
  has_op = listed;
  held_all-keeps_op = λ s k p h. h;
  held_of-keeps_op = λ s logs k p h. h;
  fetch-keeps_op = λ s r k p h. h;
  evict-keeps_op = λ s r k p h v. listed-outside r s k p h v;
  fetch-seqs = λ s r ops h. fetch_seqs s r ops h;
}

-- Node 1 with an op of channel 8 in its relay subscribes to that channel.
abbrev list_node : Core OpsMap Listed ℕ
list_node = new_core 1 (7 ∷ []) no_ops ((other_log, 3, an_op) ∷ []) 0

relay_has :
    (sync_keeps.has list_node.io.ext other_log 3 || listed list_node.io.relay other_log 3) ≡ true
unfolding new_core
relay_has = ground arith

subscribe_loses_nothing_example :
    Yields
      (StillHas sync_storage list_relay sync_keeps list_keeps steady message_len config other_log 3)
      (subscribe sync_storage list_relay steady message_len config 8 list_node [])
subscribe_loses_nothing_example =
    subscribe_loses_nothing sync_storage list_relay sync_keeps list_keeps steady message_len config
      other_log 3 8 list_node [] (omega arith) relay_has
