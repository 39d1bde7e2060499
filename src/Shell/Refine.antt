-- ===== src/Shell/Refine.antt =====
-- shell.rs and node.rs: over stores that cannot fail, the shell ingests what the pure node ingests.
use dash_router.Base.{
  ℕ, ◌+◌, ◌≡◌, Bool, true, false, none, some, [], ◌∷◌, refl, ◌∙◌, arith, ltb, leb, elem, Bool-cases,
  Option-cases, inl, inr,
}
use dash_router.Log.{Log}
use dash_router.Storage.{Op, OpsMap, ingest, ingest_delta, usage}
use dash_router.Storage.Ingest.{usage-ingest}
use dash_router.Storage.Machines.{RelayAction, relay_transition, ext_transition}
use dash_router.Node.{Node, NodeResult, Parked, is_subscribed}
use dash_router.Node.Step
use dash_router.Node.Step.{step_relay, step_ext, ingest_parked_loop}
use dash_router.Shell.{Io}
use dash_router.Shell.Bridge.{sync_storage, sync_evictable}
use dash_router.Shell.Glue.{
  Ingesting, ingest_ext, ingest_if_room, ingest_relay, ingest_op, ingest_loop, ingest_parked,
}

-- The node with the stores of the shell.
abbrev pub with_stores : Node → Io OpsMap OpsMap → Node
with_stores n io = record n { relay = io.relay; ext = io.ext }

abbrev Sync : Type 0
Sync = Ingesting sync_storage sync_evictable

-- The usage that the shell tracks, if any, is that of its relay.
abbrev IsKnown : Sync → Type 0
IsKnown s = (u : ℕ) → s.usage ≡ some u → u ≡ usage s.io.relay

-- With room, the relay takes the op; without, the op is shed.
relay_step : ℕ → Sync → Log → ℕ → Op → Bool → Sync
relay_step cap s l q op true = record s {
  io = record s.io { relay = ingest s.io.relay l q op };
  usage = some (usage s.io.relay + ingest_delta s.io.relay l q op);
}
relay_step cap s l q op false = record s { usage = some (usage s.io.relay) }

if_room-relay_step :
    (cap : ℕ) (s : Sync) (l : Log) (q : ℕ) (op : Op)
    → ingest_if_room sync_storage sync_evictable cap s l q op
        (ingest_delta s.io.relay l q op)
        (usage s.io.relay)
      ≡ relay_step cap s l q op (leb (usage s.io.relay + ingest_delta s.io.relay l q op) cap)
unfolding ingest_if_room relay_step
if_room-relay_step cap s l q op =
    elim (Bool-cases (leb (usage s.io.relay + ingest_delta s.io.relay l q op) cap)) [
      | inl room ↦
          let fits : ltb cap (usage s.io.relay + ingest_delta s.io.relay l q op) ≡ false =
            ground arith in
          rw (room, fits, relay_step) refl
      | inr full ↦
          let over : ltb cap (usage s.io.relay + ingest_delta s.io.relay l q op) ≡ true =
            ground arith in
          rw (full, over, relay_step) refl
    ]

ingest_relay-relay_step :
    (cap : ℕ) (s : Sync) (l : Log) (q : ℕ) (op : Op)
    → IsKnown s
    → ingest_relay sync_storage sync_evictable cap s l q op
      ≡ relay_step cap s l q op (leb (usage s.io.relay + ingest_delta s.io.relay l q op) cap)
unfolding ingest_relay ingest_if_room relay_step
ingest_relay-relay_step cap s l q op v = elim (Option-cases s.usage) [
  | inl none' ↦ rw (none', ingest_relay) (if_room-relay_step cap s l q op)
  | inr (u, known) ↦ rw (known, v u known, ingest_relay) (if_room-relay_step cap s l q op)
]

-- The machine of the relay's store takes an op for which there is room.
step_relay-takes :
    (cap : ℕ) (n : Node) (l : Log) (q : ℕ) (op : Op) (next : Node → NodeResult)
    → leb (usage n.relay + ingest_delta n.relay l q op) cap ≡ true
    → step_relay cap n (RelayAction.ingests l q op) next
      ≡ next (record n { relay = ingest n.relay l q op })
unfolding step_relay relay_transition
step_relay-takes cap n l q op next room = rw (room, step_relay) refl

-- One op: the shell's step, and the step of the node's loop.
step_matches :
    (cap : ℕ) (n : Node) (s : Sync) (l : Log) (q : ℕ) (op : Op) (parked : Parked)
    (next : Node → NodeResult)
    → IsKnown s
    → let s' : Sync = ingest_op sync_storage sync_evictable n.subscriptions cap s l q op in
      (ingest_parked_loop cap (usage s.io.relay) (with_stores n s.io) (((l, q), op) ∷ parked) next
        ≡ ingest_parked_loop cap (usage s'.io.relay) (with_stores n s'.io) parked next)
      × IsKnown s'
unfolding ingest_parked_loop is_subscribed step_relay relay_transition relay_step step_ext
    ext_transition ingest_op ingest_ext
step_matches cap n s l q op parked next v = elim (Bool-cases (elem l.channel n.subscriptions)) [
  | inl subscribed ↦ rw (subscribed, ingest_parked_loop) (refl, v)
  | inr other ↦
      rw (other, ingest_relay-relay_step cap s l q op v)
        (elim (Bool-cases (leb (usage s.io.relay + ingest_delta s.io.relay l q op) cap)) [
          | inl room ↦
              rw (other, room, usage-ingest s.io.relay l q op, ingest_parked_loop, relay_step)
                (
                  step_relay-takes cap (with_stores n s.io) l q op
                      (λ n'.
                        ingest_parked_loop cap (usage s.io.relay + ingest_delta s.io.relay l q op)
                          n' parked next)
                      room,
                  λ u e. cc,
                )
          | inr full ↦ rw (other, full, ingest_parked_loop, relay_step) (refl, λ u e. cc)
        ])
]

loop_matches :
    (cap : ℕ) (n : Node) (s : Sync) (parked : Parked) (next : Node → NodeResult)
    → IsKnown s
    → ingest_parked_loop cap (usage s.io.relay) (with_stores n s.io) parked next
      ≡ next
          (with_stores n (ingest_loop sync_storage sync_evictable n.subscriptions cap s parked).io)
unfolding ingest_loop
loop_matches cap n s [] next v = unfold ingest_parked_loop in refl
loop_matches cap n s (((l, q), op) ∷ parked) next v =
    let step = step_matches cap n s l q op parked next v in
    step.0
    ∙ loop_matches cap n (ingest_op sync_storage sync_evictable n.subscriptions cap s l q op) parked
        next step.1

-- The node's `ingest_parked` goes on with the stores that the shell's leaves, over stores that cannot
-- fail and start as the node's: the shell, which reads the relay's usage once and tracks it, takes
-- and sheds the same ops.
pub ingest_parked-refines :
    (cap : ℕ) (n : Node) (io : Io OpsMap OpsMap) (parked : Parked) (next : Node → NodeResult)
    → Step.ingest_parked cap (with_stores n io) parked next
      ≡ next (
          with_stores n
            (ingest_parked sync_storage sync_evictable n.subscriptions cap io parked).io)
unfolding ingest_parked Step.ingest_parked
ingest_parked-refines cap n io parked next =
    loop_matches cap n (record { io = io; usage = none; failed = []; outs = [] }) parked next
      (λ u e. absurd (cc e))
