-- ===== src/Topology.antt =====
-- crates/dash-router-net-model/src/topology.rs: who hears whom. A random tree is not modelled.
pub mod Symmetric
use dash_router.Base.{
  ℕ, Bool, true, false, ◌&&◌, ◌||◌, Option, none, some, List, [], ◌∷◌, ◌==◌, elem, if◌then◌else◌,
}
use dash_router.Base.Order.{nat_ord}
use dash_router.BtreeMap
use dash_router.BtreeMap.{BtreeMap}

abbrev pub Topology : Type 0
Topology = BtreeMap ℕ (List ℕ)

-- `entry(n).or_default()`
unfoldable pub neighbors : Topology → ℕ → List ℕ
neighbors topo n = elim (BtreeMap.get topo n) [ none ↦ [] | some ns ↦ ns ]

pub add_node : Topology → ℕ → Topology
add_node topo n = BtreeMap.insert topo n (neighbors topo n)

-- One direction of an edge.
add_arc : Topology → ℕ → ℕ → Topology
add_arc topo a b = BtreeMap.insert topo a (BtreeMap.set_insert (neighbors topo a) b)

-- The panic of `assert!(a != b)` is `none`, here and in what adds edges.
pub add_edge : Topology → ℕ → ℕ → Option Topology
add_edge topo a b = if a == b then none else some (add_arc (add_arc topo a b) b a)

add_edges : Topology → List (ℕ × ℕ) → Option Topology
add_edges topo [] = some topo
add_edges topo ((a, b) ∷ edges) = elim (add_edge topo a b) [
  | none ↦ none
  | some next ↦ add_edges next edges
]

pub from_edges : List (ℕ × ℕ) → Option Topology
from_edges edges = add_edges [] edges

path_loop : Topology → Option ℕ → List ℕ → Option Topology
path_loop topo prev [] = some topo
path_loop topo none (n ∷ nodes) = path_loop (add_node topo n) (some n) nodes
path_loop topo (some p) (n ∷ nodes) = elim (add_edge (add_node topo n) p n) [
  | none ↦ none
  | some next ↦ path_loop next (some n) nodes
]

pub path : List ℕ → Option Topology
path nodes = path_loop [] none nodes

star_loop : Topology → ℕ → List ℕ → Option Topology
star_loop topo hub [] = some topo
star_loop topo hub (leaf ∷ nodes) = elim (add_edge topo hub leaf) [
  | none ↦ none
  | some next ↦ star_loop next hub nodes
]

pub star : List ℕ → Option Topology
star [] = some []
star (hub ∷ nodes) = star_loop (add_node [] hub) hub nodes
