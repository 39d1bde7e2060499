-- ===== src/Lib.antt =====
-- dash-router: a router that carries single-author append-only logs over local networks by
-- gossip. A node broadcasts Wants, which say what it has under each channel it cares about, and
-- answers the Wants of others with Haves, which carry ops.
--
-- The parts, bottom up, each with the file that models it (paths from the repository's root):
--   crates/dash-router-core/src/log.rs            Log: a log is a channel and an author
--   crates/dash-router-core/src/ranges.rs         Ranges, LogRanges
--   crates/dash-router-core/src/interest.rs       Interest: what a Want carries
--   crates/dash-router-core/src/router.rs         Router (state, queries), Router.Step (transition)
--   crates/dash-router-core/src/op.rs, storage.rs Storage, Storage.Machines
--   crates/dash-router-core/src/wire.rs           Wire: message types
--   crates/dash-router-core/src/node.rs           Node (state), Node.Step (transition)
--   crates/dash-router-net-model/src/fair.rs      Fair
--   crates/dash-router-net-model/src/topology.rs  Topology
--   crates/dash-router-net-model/src/net.rs       Net: several nodes, with messages in flight
--   crates/dash-router-policy/src/lib.rs          Policy
--   crates/dash-router/src/pack.rs                Pack (Haves), Pack.Slices (Wants)
--   crates/dash-router/src/lan.rs                 Lan
--   crates/dash-router/src/disk.rs                Disk (the keys of the rows)
--   crates/dash-router/src/storage.rs             Shell (interfaces of stores), Shell.Bridge
--   crates/dash-router/src/shell.rs               Shell (NodeCore), Shell.Glue, Shell.Handlers
-- Base has the shared names and tests, BtreeMap the ordered maps and sets of the standard library.
-- Children of a module prove what their names say; the children called Tests have instances of
-- the theorems at concrete inputs.
--
-- How they interact. The router decides ranges and holds no data: its transition takes an action
-- and gives a state with effects, or an error. The node's transition steps the router and the
-- two stores, gives the router a snapshot of the stores after each change, and turns the router's
-- effects into messages. Operations keep the names of the source; a match arm of `transition` is
-- a function `do_...`, and a loop a function of its own.
--
-- The shell is a second node, over stores that may fail: an operation of a store takes its state and
-- gives an answer and the state after, an error included. It advances its clock, firing what is due,
-- before each command, and packs what it sends. A handler's `?` is `and_then`, and `Outcome` says
-- whether the handler returned an error. A panic is neither: an `expect` or `assert!` that can fail is
-- `none` in Pack.Slices and Topology, and in the shell, whose one such call is `pack_want`, it sets
-- `panicked` of Io, after which what the handlers do does not happen. Shell.Handlers has a function for each handler, and one for
-- what it does after `advance_to`; Shell.Refine relates it to the node of Node.
--
-- Conventions. Node ids, channels, authors, times and bytes are natural numbers: the code asks
-- of them equality, order, and of times subtraction, which it guards, so that it never stops
-- at 0. A sequence number is at most 2^32 - 1, an author prefix too; both bounds are written out
-- where an operation could pass them (`checked_add` in `from_seqs`, `hi + 1` in `covered_by`). The
-- usage is a `u64` in the code, whose bound is not modelled. An ordered map is the list of its
-- entries, a vector a list. The author prefix of a log type is an argument, the interface Authors,
-- with the bound of its type. The loop of `combine` runs on fuel, one for each boundary: a round
-- passes at least one, so it never runs out, and the theorems on it hold without a condition on
-- the fuel. The loop of `slice_entry` that shrinks a run has fuel `rounds`, one for each boundary and
-- each author, which is enough where the ranges are valid. `advance_to` takes its fuel as an argument: four rounds for each unit
-- of time to the target and three more are enough, where no interval is 0. Every other loop is
-- structural. The length of an encoded message, decoding and the key of a peer are arguments; so are
-- the source of intervals and the derived order of the flights of a network. The product of
-- `evict_at` and `relay_cap`, a float, is a field of the configuration, rounded down.
--
-- Not modelled: serialisation (serde, postcard), random topologies, the sampling of intervals, and
-- of the crate dash-router the tokio loop around the shell, the table of the disk store with its
-- cache, and the transports; nor the simulator and the visualiser.
pub mod Base
pub mod BtreeMap
pub mod Disk
pub mod Fair
pub mod Interest
pub mod Lan
pub mod Log
pub mod LogRanges
pub mod Net
pub mod Node
pub mod Pack
pub mod Policy
pub mod Ranges
pub mod Router
pub mod Shell
pub mod Storage
pub mod Topology
pub mod Wire
