-- ===== src/Shell.antt =====
-- crates/dash-router/src/shell.rs and storage.rs: the node of the runtime. It runs the router over
-- two stores that may fail, where `Node` has stores that cannot. An operation of a store takes the
-- store's state, that of the world it answers from included, and gives an answer, `none` or `false`
-- for an error, and the state after it.
pub mod Glue
pub mod Handlers
pub mod Bridge
pub mod Refine
mod Tests
use dash_router.Base.{
  ℕ, ◌+◌, Bool, true, false, Option, none, some, List, [], ◌∷◌, ltb, if◌then◌else◌,
}
use dash_router.Log.{Log}
use dash_router.LogRanges
use dash_router.LogRanges.{LogRanges}
use dash_router.Storage.{Op}
use dash_router.Wire.{WireMessage}
use dash_router.Router
use dash_router.Router.{Config, State}
use dash_router.Lan.{IpAddr}
use dash_router.Policy.{PushDebouncePolicy}
use dash_router.Pack.{default_max_wire_bytes}

pub record AsyncStorage (S : Type 0) : Type 0 where
  pub held_of : S → List Log → Option LogRanges × S
  pub held_all : S → Option LogRanges × S
  pub fetch : S → LogRanges → Option (List (Log × ℕ × Op)) × S
  pub ingest : S → Log → ℕ → Op → Bool × S

pub record AsyncEvictableStorage (S : Type 0) : Type 0 where
  pub storage : AsyncStorage S
  pub usage : S → Option ℕ × S
  pub ingest_delta : S → Log → ℕ → Op → Option ℕ × S
  pub held_payloads : S → Option LogRanges × S
  pub evict_payloads : S → LogRanges → Bool × S
  pub evict : S → LogRanges → Bool × S

pub record IntervalSource (I : Type 0) : Type 0 where
  pub next_want : I → ℕ × I
  pub next_have : I → ℕ × I

-- `evict_mark` is the whole part of `evict_at * relay_cap`, a float there.
pub record CoreConfig : Type 0 where
  pub router : Config
  pub relay_cap : ℕ
  pub evict_mark : ℕ
  pub debounce : PushDebouncePolicy
  pub max_wire_bytes : Option ℕ

pub wire_bytes_of : Option ℕ → ℕ
wire_bytes_of none = default_max_wire_bytes
wire_bytes_of (some n) = n

-- Where a storage error was met.
pub data Context : Type 0 where
  subscribe_ingest hydrate_fetch reconcile_held_of reconcile_held_all parked_ingest : Context

pub data Out : Type 0 where
  broadcast : WireMessage → Out
  delivered : Log → ℕ → Out
  storage_error : Context → Out

pub data Failure : Type 0 where
  router_refused : Router.Error → Failure
  append_failed out_of_fuel : Failure

-- The fields of `NodeCore` that sending and ingesting touch. `panicked` is none of them: it says that
-- `pack_want` panicked, which ends the program, so that what a handler does after it does not happen.
pub record Io (E R : Type 0) : Type 0 where
  pub ext : E
  pub relay : R
  pub relay_errors : ℕ
  pub oversize_drops : ℕ
  pub sent_msgs : ℕ
  pub panicked : Bool

-- The other fields of `NodeCore`, but for the configuration.
pub record Core (E R I : Type 0) : Type 0 where
  pub router : State
  pub io : Io E R
  pub subscriptions : List ℕ
  pub held_cache : LogRanges
  pub intervals : I
  pub pending_push : LogRanges
  pub pending_since : Option ℕ
  pub latest_append : ℕ
  pub now : ℕ
  pub dropped_msgs : ℕ
  pub recv_msgs : ℕ
  pub peers_heard : List ℕ
  pub peers_seen : List ℕ

-- `Err` leaves the node in the state it had come to.
pub data Outcome (E R I : Type 0) : Type 0 where
  ok : Core E R I → List Out → Outcome E R I
  err : Failure → Core E R I → Outcome E R I

unfoldable pub new_core : {E R I : Type 0} → ℕ → List ℕ → E → R → I → Core E R I
new_core id subscriptions ext relay intervals = record {
  router = record (Router.new id LogRanges.empty) { opened = subscriptions };
  io = record {
    ext = ext;
    relay = relay;
    relay_errors = 0;
    oversize_drops = 0;
    sent_msgs = 0;
    panicked = false;
  };
  subscriptions = subscriptions;
  held_cache = LogRanges.empty;
  intervals = intervals;
  pending_push = LogRanges.empty;
  pending_since = none;
  latest_append = 0;
  now = 0;
  dropped_msgs = 0;
  recv_msgs = 0;
  peers_heard = [];
  peers_seen = [];
}

-- `log_summary`: the counts since the last summary start again.
pub log_summary : {E R I : Type 0} → Core E R I → Core E R I
log_summary c = record c { io = record c.io { sent_msgs = 0 }; recv_msgs = 0; peers_heard = [] }

-- crates/dash-router/src/transport.rs: what a transport received.
pub record Incoming : Type 0 where
  pub remote : Option IpAddr
  pub author : Option ℕ
  pub bytes : List ℕ
