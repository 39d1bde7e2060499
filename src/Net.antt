-- ===== src/Net.antt =====
-- crates/dash-router-net-model/src/net.rs: a bounded network of nodes, with the messages in flight.
pub mod Flights
mod Tests
use dash_router.Base.{
  ℕ, zero, suc, Bool, true, false, Option, none, some, List, [], ◌∷◌, ◌++◌, ltb, length,
  if◌then◌else◌,
}
use dash_router.Base.Order.{nat_ord}
use dash_router.BtreeMap
use dash_router.BtreeMap.{BtreeMap}
use dash_router.Log.{Authors}
use dash_router.Wire.{WireMessage}
use dash_router.Node.{
  Machine, Node, NodeAction, NodeEffect, NodeError, NodeResult, broadcast, deliver, recv,
}
use dash_router.Node.Step.{node_transition}
use dash_router.Topology.{Topology, neighbors}

-- A message on its way to one node.
pub record Flight : Type 0 where
  pub to : ℕ
  pub message : WireMessage

pub record NetState : Type 0 where
  pub nodes : BtreeMap ℕ Node
  pub inflight : List Flight

-- `inflight_cap` is the parameter `K`.
pub record NetMachine : Type 0 where
  pub topology : Topology
  pub node_machine : Machine
  pub inflight_cap : ℕ

pub data NetAction : Type 0 where
  acts : ℕ → NodeAction → NetAction
  deliver_at drop_at duplicate_at : ℕ → NetAction

pub data NetError : Type 0 where
  arrives_via_deliver no_node no_flight cap_reached : NetError
  node_refused : NodeError → NetError

pub data NetResult : Type 0 where
  ok : NetState → List (ℕ × NodeEffect) → NetResult
  err : NetError → NetResult

pub new_net : List Node → NetState
new_net nodes = record { nodes = by_id [] nodes; inflight = [] }
  where
    by_id : BtreeMap ℕ Node → List Node → BtreeMap ℕ Node
    by_id m [] = m
    by_id m (n ∷ ns) = by_id (BtreeMap.insert m n.router.id n) ns

-- `inflight.remove(i)`, and the flight that was there.
pub take_at : List Flight → ℕ → Option (Flight × List Flight)
take_at [] i = none
take_at (f ∷ fs) zero = some (f, fs)
take_at (f ∷ fs) (suc i) = elim (take_at fs i) [ none ↦ none | some (x, rest) ↦ some (x, f ∷ rest) ]

-- The derived order of flights is a parameter: whether the first comes before the second.
module _ (before : Flight → Flight → Bool) where
  pub insert_sorted : List Flight → Flight → List Flight
  insert_sorted [] x = x ∷ []
  insert_sorted (f ∷ fs) x = if before f x then f ∷ insert_sorted fs x else x ∷ f ∷ fs

  -- One flight for each neighbour, while there is room.
  send_to : ℕ → List ℕ → WireMessage → List Flight → Option (List Flight)
  send_to k [] m inflight = some inflight
  send_to k (to ∷ tos) m inflight =
      if ltb (length inflight) k
      then send_to k tos m (insert_sorted inflight (record { to = to; message = m }))
      else none

  -- `absorb_fx`: broadcasts become flights, and the other effects go on with the node's id.
  pub absorb :
      NetMachine → ℕ → List NodeEffect → List Flight → Option (List Flight × List (ℕ × NodeEffect))
  absorb m id [] inflight = some (inflight, [])
  absorb m id (broadcast message ∷ fx) inflight =
      elim (send_to m.inflight_cap (neighbors m.topology id) message inflight) [
        | none ↦ none
        | some more ↦ absorb m id fx more
      ]
  absorb m id (deliver l q ∷ fx) inflight = elim (absorb m id fx inflight) [
    | none ↦ none
    | some (more, out) ↦ some (more, (id, deliver l q) ∷ out)
  ]

  module _ ⦃t : Authors⦄ where
    -- What a node's step means for the network.
    settle : NetMachine → NetState → ℕ → NodeResult → NetResult
    settle m s id (NodeResult.err e) = err (node_refused e)
    settle m s id (NodeResult.ok n fx) = elim (absorb m id fx s.inflight) [
      | none ↦ err cap_reached
      | some (inflight, out) ↦
          ok (record { nodes = BtreeMap.insert s.nodes id n; inflight = inflight }) out
    ]

    pub apply : NetMachine → NetState → ℕ → NodeAction → NetResult
    apply m s id a = elim (BtreeMap.get s.nodes id) [
      | none ↦ err no_node
      | some n ↦ settle m s id (node_transition m.node_machine n a)
    ]

    do_node : NetMachine → NetState → ℕ → NodeAction → NetResult
    do_node m s id (recv message) = err arrives_via_deliver
    do_node m s id a = apply m s id a

    do_deliver : NetMachine → NetState → Option (Flight × List Flight) → NetResult
    do_deliver m s none = err no_flight
    do_deliver m s (some (f, rest)) = apply m (record s { inflight = rest }) f.to (recv f.message)

    do_drop : NetState → Option (Flight × List Flight) → NetResult
    do_drop s none = err no_flight
    do_drop s (some (f, rest)) = ok (record s { inflight = rest }) []

    do_duplicate : NetMachine → NetState → Option (Flight × List Flight) → NetResult
    do_duplicate m s found =
        if ltb (length s.inflight) m.inflight_cap
        then elim found [
          | none ↦ err no_flight
          | some (f, rest) ↦ ok (record s { inflight = insert_sorted s.inflight f }) []
        ]
        else err cap_reached

    pub net_transition : NetMachine → NetState → NetAction → NetResult
    net_transition m s (acts id a) = do_node m s id a
    net_transition m s (deliver_at i) = do_deliver m s (take_at s.inflight i)
    net_transition m s (drop_at i) = do_drop s (take_at s.inflight i)
    net_transition m s (duplicate_at i) = do_duplicate m s (take_at s.inflight i)
