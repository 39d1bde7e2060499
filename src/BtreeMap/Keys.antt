-- ===== src/BtreeMap/Keys.antt =====
-- Sets and the keys of a map, over numbers.
use dash_router.Base.{ℕ, ◌≡◌, true, false, ◌||◌, none, some, List, [], ◌∷◌, refl, arith, elem, ◌==◌}
use dash_router.Base.Order.{nat_ord}
use dash_router.BtreeMap.Laws.{get-Above, Above-weaken, IsSorted_of_Above}
use dash_router.BtreeMap.{BtreeMap, get, keys, set_insert, Above, IsSorted}

pub elem-set_insert : (s : List ℕ) (a q : ℕ) → elem q (set_insert s a) ≡ ((q == a) || elem q s)
unfolding set_insert
elem-set_insert [] a q = refl
elem-set_insert (k ∷ s) a q = ground (arith, elem-set_insert s a q)

pub get-not_key {ℓ} :
    {V : Type ℓ} (m : BtreeMap ℕ V) (k : ℕ) → elem k (keys m) ≡ false → get m k ≡ none
unfolding get keys
get-not_key [] k h = refl
get-not_key ((j, v) ∷ m) k h = ground (arith, get-not_key m k)

-- A key is listed exactly when the map has a value for it.
pub elem-keys {ℓ} :
    {V : Type ℓ} (m : BtreeMap ℕ V) (k : ℕ)
    → IsSorted m
    → elem k (keys m) ≡ elim (get m k) [ none ↦ false | some _ ↦ true ]
unfolding get keys
elem-keys [] k s = refl
elem-keys ((j, v) ∷ m) k s =
    ground (arith, elem-keys m k (IsSorted_of_Above j m s), get-Above m k, Above-weaken k j m)

pub get-tail {ℓ} :
    {V : Type ℓ} (k : ℕ) (m : BtreeMap ℕ V) (q : ℕ) (v w : V)
    → Above k m
    → get m q ≡ some w
    → get ((k, v) ∷ m) q ≡ some w
unfolding get
get-tail k m q v w a h = ground (arith, get-Above m q, Above-weaken q k m)
