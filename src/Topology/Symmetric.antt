-- ===== src/Topology/Symmetric.antt =====
-- topology.rs: what is built has the edges given, both ways, or panics on a self-edge.
use dash_router.Base.{
  ℕ, ◌≡◌, Bool, true, false, not, ◌&&◌, ◌||◌, Option, none, some, List, [], ◌∷◌, refl, sym, ◌∙◌,
  arith, ◌==◌, elem, Bool-cases, inl, inr,
}
use dash_router.Base.Order.{nat_ord}
use dash_router.BtreeMap
use dash_router.BtreeMap.{BtreeMap}
use dash_router.BtreeMap.Keys.{elem-set_insert}
use dash_router.BtreeMap.Laws.{get-insert}
use dash_router.Topology.{
  Topology, neighbors, add_node, add_arc, add_edge, add_edges, from_edges, path_loop, path,
  star_loop, star,
}

-- Node `b` hears node `a`.
abbrev pub hears : Topology → ℕ → ℕ → Bool
hears topo a b = elem b (neighbors topo a)

hears-add_arc :
    (topo : Topology) (a b x y : ℕ)
    → hears (add_arc topo a b) x y ≡ (((x == a) && (y == b)) || hears topo x y)
unfolding add_arc neighbors
hears-add_arc topo a b x y = ground (
  arith,
  get-insert topo a x (BtreeMap.set_insert (neighbors topo a) b),
  elem-set_insert (neighbors topo a) b y,
)

hears-add_node : (topo : Topology) (n x y : ℕ) → hears (add_node topo n) x y ≡ hears topo x y
unfolding add_node neighbors
hears-add_node topo n x y = ground (arith, get-insert topo n x (neighbors topo n))

-- An edge of the list joins the two, either way round.
abbrev pub joined : List (ℕ × ℕ) → ℕ → ℕ → Bool
joined [] x y = false
joined ((a, b) ∷ edges) x y = ((x == a) && (y == b)) || (((x == b) && (y == a)) || joined edges x y)

-- The two stand side by side in the list.
abbrev pub side_by_side : Option ℕ → List ℕ → ℕ → ℕ → Bool
side_by_side prev [] x y = false
side_by_side none (n ∷ nodes) x y = side_by_side (some n) nodes x y
side_by_side (some p) (n ∷ nodes) x y =
    ((x == p) && (y == n)) || (((x == n) && (y == p)) || side_by_side (some n) nodes x y)

-- There are no self-edges to add.
abbrev pub apart : List (ℕ × ℕ) → Bool
apart [] = true
apart ((a, b) ∷ edges) = not (a == b) && apart edges

abbrev pub steps_apart : Option ℕ → List ℕ → Bool
steps_apart prev [] = true
steps_apart none (n ∷ nodes) = steps_apart (some n) nodes
steps_apart (some p) (n ∷ nodes) = not (p == n) && steps_apart (some n) nodes

-- The topology is built exactly where that is `fine`, and then who hears whom is as given.
abbrev pub Gives : Bool → (ℕ → ℕ → Bool) → Option Topology → Type 0
Gives fine heard none = fine ≡ false
Gives fine heard (some topo) = (fine ≡ true) × ((x y : ℕ) → hears topo x y ≡ heard x y)

Gives-map :
    (fine fine' : Bool) (heard heard' : ℕ → ℕ → Bool) (o : Option Topology)
    → fine ≡ fine'
    → ((x y : ℕ) → heard x y ≡ heard' x y)
    → Gives fine heard o
    → Gives fine' heard' o
Gives-map fine fine' heard heard' none e k h = sym e ∙ h
Gives-map fine fine' heard heard' (some topo) e k h = (sym e ∙ h.0, λ x y. h.1 x y ∙ k x y)

-- The ends of an edge hear each other.
abbrev pub ends : ℕ → ℕ → ℕ → ℕ → Bool
ends a b x y = ((x == a) && (y == b)) || ((x == b) && (y == a))

-- After an edge, the rest of what is built decides.
edge-Gives :
    (fine : Bool) (heard : ℕ → ℕ → Bool) (topo : Topology) (a b : ℕ)
    (next : Topology → Option Topology)
    → ((t : Topology)
        → ((x y : ℕ) → hears t x y ≡ (ends a b x y || hears topo x y))
        → Gives fine heard (next t))
    → Gives
        (not (a == b) && fine)
        heard
        (elim (add_edge topo a b) [ none ↦ none | some t ↦ next t ])
unfolding add_edge
edge-Gives fine heard topo a b next k = elim (Bool-cases (a == b)) [
  | inl self ↦ rw (self, add_edge) refl
  | inr two ↦
      rw (two, add_edge)
        (k (add_arc (add_arc topo a b) b a) (λ x y.
          ground (arith, hears-add_arc (add_arc topo a b) b a x y, hears-add_arc topo a b x y)))
]

nobody_hears : (x y : ℕ) → hears [] x y ≡ false
unfolding neighbors BtreeMap.get
nobody_hears x y = refl

add_edges-Gives :
    (topo : Topology) (edges : List (ℕ × ℕ))
    → Gives (apart edges) (λ x y. joined edges x y || hears topo x y) (add_edges topo edges)
unfolding add_edges
add_edges-Gives topo [] = (refl, λ x y. refl)
add_edges-Gives topo ((a, b) ∷ edges) =
    edge-Gives (apart edges) (λ x y. joined ((a, b) ∷ edges) x y || hears topo x y) topo a b
      (λ t. add_edges t edges)
      λ t h.
        Gives-map (apart edges) (apart edges) (λ x y. joined edges x y || hears t x y) _
          (add_edges t edges) refl (λ x y. ground (arith, h x y)) (add_edges-Gives t edges)

path_loop-Gives :
    (topo : Topology) (prev : Option ℕ) (nodes : List ℕ)
    → Gives
        (steps_apart prev nodes)
        (λ x y. side_by_side prev nodes x y || hears topo x y)
        (path_loop topo prev nodes)
unfolding path_loop
path_loop-Gives topo prev [] = (refl, λ x y. refl)
path_loop-Gives topo none (n ∷ nodes) =
    Gives-map (steps_apart (some n) nodes) (steps_apart (some n) nodes)
      (λ x y. side_by_side (some n) nodes x y || hears (add_node topo n) x y) _
      (path_loop (add_node topo n) (some n) nodes) refl
      (λ x y. ground (arith, hears-add_node topo n x y))
      (path_loop-Gives (add_node topo n) (some n) nodes)
path_loop-Gives topo (some p) (n ∷ nodes) =
    edge-Gives (steps_apart (some n) nodes)
      (λ x y. side_by_side (some p) (n ∷ nodes) x y || hears topo x y) (add_node topo n) p n
      (λ t. path_loop t (some n) nodes)
      λ t h.
        Gives-map (steps_apart (some n) nodes) (steps_apart (some n) nodes)
          (λ x y. side_by_side (some n) nodes x y || hears t x y) _ (path_loop t (some n) nodes)
          refl (λ x y. ground (arith, h x y, hears-add_node topo n x y))
          (path_loop-Gives t (some n) nodes)

star_loop-Gives :
    (topo : Topology) (hub : ℕ) (nodes : List ℕ)
    → Gives
        (not (elem hub nodes))
        (λ x y. ((x == hub) && elem y nodes) || (((y == hub) && elem x nodes) || hears topo x y))
        (star_loop topo hub nodes)
unfolding star_loop
star_loop-Gives topo hub [] = (refl, λ x y. ground arith)
star_loop-Gives topo hub (leaf ∷ nodes) =
    Gives-map (not (hub == leaf) && not (elem hub nodes)) _
      (λ x y.
        ((x == hub) && elem y (leaf ∷ nodes))
        || (((y == hub) && elem x (leaf ∷ nodes)) || hears topo x y))
      _ (star_loop topo hub (leaf ∷ nodes)) (ground arith) (λ x y. refl)
      (edge-Gives (not (elem hub nodes))
        (λ x y.
          ((x == hub) && elem y (leaf ∷ nodes))
          || (((y == hub) && elem x (leaf ∷ nodes)) || hears topo x y))
        topo hub leaf (λ t. star_loop t hub nodes)
        λ t h.
          Gives-map (not (elem hub nodes)) (not (elem hub nodes))
            (λ x y. ((x == hub) && elem y nodes) || (((y == hub) && elem x nodes) || hears t x y)) _
            (star_loop t hub nodes) refl (λ x y. ground (arith, h x y))
            (star_loop-Gives t hub nodes))

-- Building panics exactly where there is a self-edge to add: an edge with equal ends, two equal nodes
-- side by side in a path, or the hub of a star among its leaves. Otherwise a node hears another in a
-- topology built from edges exactly where an edge joins the two, in a path where they stand side by
-- side, and in a star where one is the hub and the other a leaf; so hearing goes both ways.
pub hears-built :
    (edges : List (ℕ × ℕ)) (hub : ℕ) (nodes : List ℕ)
    → Gives (apart edges) (joined edges) (from_edges edges)
      × Gives (steps_apart none nodes) (side_by_side none nodes) (path nodes)
      × Gives
          (not (elem hub nodes))
          (λ x y. ((x == hub) && elem y nodes) || ((y == hub) && elem x nodes))
          (star (hub ∷ nodes))
unfolding from_edges path star
hears-built edges hub nodes = (
  Gives-map (apart edges) (apart edges) (λ x y. joined edges x y || hears [] x y) _
      (add_edges [] edges) refl (λ x y. ground (arith, nobody_hears x y))
      (add_edges-Gives [] edges),
  Gives-map (steps_apart none nodes) (steps_apart none nodes)
      (λ x y. side_by_side none nodes x y || hears [] x y) _ (path_loop [] none nodes) refl
      (λ x y. ground (arith, nobody_hears x y)) (path_loop-Gives [] none nodes),
  Gives-map (not (elem hub nodes)) (not (elem hub nodes))
      (λ x y.
        ((x == hub) && elem y nodes)
        || (((y == hub) && elem x nodes) || hears (add_node [] hub) x y))
      _ (star_loop (add_node [] hub) hub nodes) refl
      (λ x y. ground (arith, hears-add_node [] hub x y, nobody_hears x y))
      (star_loop-Gives (add_node [] hub) hub nodes),
)
