-- ===== src/Node/Step/Tests.antt =====
-- Instances of the theorems on an empty node that takes a Have of one op in.
use dash_router.Base.{ℕ, ◌≤◌, ◌≡◌, List, [], ◌∷◌, some, none, arith}
use dash_router.Log.{Log, Authors, pair_authors}
use dash_router.Storage.{Op, usage}
use dash_router.Wire.{message_have}
use dash_router.Node.{Machine, Node, recv, NodeEffect, ok, new_node, held_union}
use dash_router.Node.Step.{node_transition}
use dash_router.Node.Step.Cap.{IsWithin, node_transition-IsWithin, recv_have-succeeds}

instance abbrev authors : Authors
authors = pair_authors

-- The relay has room for one op with its payload.
abbrev machine : Machine
machine = record { config = record { want_ttl = 10; have_ttl = 5; heard_ttl = 60 }; cap = 2 }

abbrev node : Node
node = record {
  router = record (new_node 1 []).router { id = 1 };
  relay = [];
  ext = [];
  subscriptions = [];
}

abbrev ops : List (Log × List (ℕ × Op))
ops =
    (
      record { channel = 3; author = 1 },
      (0, record { header = 7 ∷ []; payload = some (8 ∷ []) }) ∷ [],
    )
    ∷ []

usage-node : usage node.relay ≤ machine.cap
unfolding usage
usage-node = omega arith

node_transition-IsWithin_example :
    IsWithin 2 (node_transition machine node (recv (message_have 2 ops)))
node_transition-IsWithin_example =
    node_transition-IsWithin machine node (recv (message_have 2 ops)) usage-node

recv_have-succeeds_example :
    (n' : Node) × (out : List NodeEffect) × (node_transition machine node
        (recv (message_have 2 ops))
      ≡ ok n' out)
    × (usage n'.relay ≤ 2)
    × (n'.router.held ≡ held_union n')
recv_have-succeeds_example = recv_have-succeeds machine node 2 ops usage-node (ground arith)

-- Two ops of one log and one of another.
abbrev three_ops : List (Log × ℕ × Op)
three_ops =
    (record { channel = 3; author = 1 }, 0, record { header = 7 ∷ []; payload = none })
    ∷ (record { channel = 3; author = 1 }, 1, record { header = 8 ∷ []; payload = none })
    ∷ (record { channel = 4; author = 1 }, 0, record { header = 9 ∷ []; payload = none })
    ∷ []
