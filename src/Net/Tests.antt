-- ===== src/Net/Tests.antt =====
-- Instances of the theorems on the network: three nodes in a line.
use dash_router.Base.{Bool, true, ◌&&◌, ◌||◌, none, [], ◌∷◌, ◌==◌, elem, ltb, arith, refl}
use dash_router.Base.Order.{nat_ord}
use dash_router.BtreeMap
use dash_router.Log.{Authors, pair_authors}
use dash_router.Wire.{message_want}
use dash_router.Node.{new_node}
use dash_router.Topology.{Topology, neighbors, from_edges, path, star}
use dash_router.Topology.Symmetric.{Gives, joined, side_by_side, hears-built}
use dash_router.Net.{Flight, NetState, NetMachine, deliver_at, new_net, net_transition}
use dash_router.Net.Flights.{Lands, Sound, IsSound, net_transition-IsSound}

instance abbrev authors : Authors
authors = pair_authors

abbrev line : Topology
line = (1, 2 ∷ []) ∷ (2, 1 ∷ 3 ∷ []) ∷ (3, 2 ∷ []) ∷ []

abbrev machine : NetMachine
machine = record {
  topology = line;
  node_machine = record {
    config = record { want_ttl = 10; have_ttl = 5; heard_ttl = 60 };
    cap = 2;
  };
  inflight_cap = 4;
}

abbrev first : Flight → Flight → Bool
first a b = ltb a.to b.to

-- A Want of node 1 is on its way to node 2.
abbrev net : NetState
net = record {
  nodes = (new_net (new_node 1 [] ∷ new_node 2 [] ∷ new_node 3 [] ∷ [])).nodes;
  inflight = record { to = 2; message = message_want 1 [] } ∷ [];
}

hears-built_example :
    Gives true (joined ((1, 2) ∷ (2, 3) ∷ [])) (from_edges ((1, 2) ∷ (2, 3) ∷ []))
    × Gives true (side_by_side none (2 ∷ 3 ∷ [])) (path (2 ∷ 3 ∷ []))
    × Gives true
        (λ x y. ((x == 1) && elem y (2 ∷ 3 ∷ [])) || ((y == 1) && elem x (2 ∷ 3 ∷ [])))
        (star (1 ∷ 2 ∷ 3 ∷ []))
hears-built_example = hears-built ((1, 2) ∷ (2, 3) ∷ []) 1 (2 ∷ 3 ∷ [])

net-IsSound : IsSound machine net.inflight
unfolding neighbors BtreeMap.get
net-IsSound = record { bounded = omega arith; addressed = ((1, refl), tt) }

net_transition-IsSound_example :
    Lands (Sound first machine) (net_transition first machine net (deliver_at 0))
net_transition-IsSound_example = net_transition-IsSound first machine net (deliver_at 0) net-IsSound
