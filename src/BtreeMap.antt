-- ===== src/BtreeMap.antt =====
-- `std::collections::BTreeMap` and `BTreeSet`, as far as the crates use them: the entries in the
-- order of their keys. The children prove what each operation does to `get`.
pub mod Laws
pub mod Loops
pub mod Keys
pub mod Entries
use Prim.Native.Nat.Ordering.{lt, eq, gt}
use dash_router.Base.{
  ℕ, ◌≡◌, Bool, true, false, Option, none, some, List, [], ◌∷◌, foldl, if◌then◌else◌,
}
use dash_router.Base.Order.{Ord, ◌≺◌}

abbrev pub BtreeMap {ℓ κ} : Type ℓ → Type κ → Type (ℓ ⊔ κ)
BtreeMap K V = List (K × V)

module _ {ℓ κ} {K : Type ℓ} {V : Type κ} ⦃o : Ord K⦄ where
  unfoldable pub get : BtreeMap K V → K → Option V
  get [] q = none
  get ((k, v) ∷ m) q = elim (o.cmp q k) [ lt ↦ none | eq ↦ some v | gt ↦ get m q ]

  unfoldable pub insert : BtreeMap K V → K → V → BtreeMap K V
  insert [] q w = (q, w) ∷ []
  insert ((k, v) ∷ m) q w = elim (o.cmp q k) [
    | lt ↦ (q, w) ∷ (k, v) ∷ m
    | eq ↦ (q, w) ∷ m
    | gt ↦ (k, v) ∷ insert m q w
  ]

  unfoldable pub remove : BtreeMap K V → K → BtreeMap K V
  remove [] q = []
  remove ((k, v) ∷ m) q = elim (o.cmp q k) [ lt ↦ (k, v) ∷ m | eq ↦ m | gt ↦ (k, v) ∷ remove m q ]

  -- Every key comes after `q`.
  abbrev pub Above : K → BtreeMap K V → Type 0
  Above q [] = Unit
  Above q ((k, v) ∷ m) = (q ≺ k) × Above k m

  -- The keys are strictly increasing.
  abbrev pub IsSorted : BtreeMap K V → Type 0
  IsSorted [] = Unit
  IsSorted ((k, v) ∷ m) = Above k m

  -- `m.entry(k)`, and an insertion that sees what was there, for each entry of a second map.
  unfoldable pub upsert : (Option V → V → V) → BtreeMap K V → List (K × V) → BtreeMap K V
  upsert g m [] = m
  upsert g m ((k, v) ∷ r) = upsert g (insert m k (g (get m k) v)) r

module _ {ℓ κ} {K : Type ℓ} {V : Type κ} where
  -- `retain`, and the closure of `retain_mut` that never changes an entry.
  unfoldable pub retain : (K → V → Bool) → BtreeMap K V → BtreeMap K V
  retain p [] = []
  retain p ((k, v) ∷ m) = if p k v then (k, v) ∷ retain p m else retain p m

  -- `for v in m.values_mut() { *v = f(v) }`
  unfoldable pub map_values : (K → V → V) → BtreeMap K V → BtreeMap K V
  map_values f [] = []
  map_values f ((k, v) ∷ m) = (k, f k v) ∷ map_values f m

  unfoldable pub keys : BtreeMap K V → List K
  keys [] = []
  keys ((k, v) ∷ m) = k ∷ keys m

  unfoldable pub values : BtreeMap K V → List V
  values [] = []
  values ((k, v) ∷ m) = v ∷ values m

  -- Every value has the property.
  abbrev pub AllValues {μ} : (V → Type μ) → BtreeMap K V → Type μ
  AllValues P [] = Unit
  AllValues P ((k, v) ∷ m) = P v × AllValues P m

-- `BTreeSet::insert`: a set is the list of its members in order.
module _ {ℓ} {K : Type ℓ} ⦃o : Ord K⦄ where
  unfoldable pub set_insert : List K → K → List K
  set_insert [] q = q ∷ []
  set_insert (k ∷ s) q = elim (o.cmp q k) [ lt ↦ q ∷ k ∷ s | eq ↦ k ∷ s | gt ↦ k ∷ set_insert s q ]

  unfoldable pub set_remove : List K → K → List K
  set_remove [] q = []
  set_remove (k ∷ s) q = elim (o.cmp q k) [ lt ↦ k ∷ s | eq ↦ s | gt ↦ k ∷ set_remove s q ]
