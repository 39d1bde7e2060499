-- ===== src/BtreeMap/Loops.antt =====
-- Loops that fill a map from another.
use dash_router.Base.{◌≡◌, Option, none, some, [], ◌∷◌, refl, arith, Option-cases, inl, inr}
use dash_router.Base.Order.{Ord}
use dash_router.BtreeMap.{BtreeMap, get, insert, upsert, IsSorted, AllValues}
use dash_router.BtreeMap.Laws.{
  get-insert, get-Above, insert-IsSorted, IsSorted_of_Above, Above-weaken, AllValues-insert,
  AllValues-get,
}

-- What holds of the value that is there, if one is.
abbrev pub Holds {ℓ κ} : {V : Type ℓ} → (V → Type κ) → Option V → Type κ
Holds P none = Unit
Holds P (some v) = P v

module _ {ℓ κ} {K : Type ℓ} {V : Type κ} ⦃o : Ord K⦄ where
  -- Each key of the second map is combined with what the first had there.
  pub get-upsert :
      (g : Option V → V → V) (m t : BtreeMap K V) (q : K)
      → IsSorted t
      → get (upsert g m t) q ≡ elim (get t q) [ none ↦ get m q | some v ↦ some (g (get m q) v) ]
  unfolding upsert get
  get-upsert g m [] q s = refl
  get-upsert g m ((k, v) ∷ t) q s = ground (
    arith,
    get-upsert g (insert m k (g (get m k) v)) t q (IsSorted_of_Above k t s),
    get-insert m k q (g (get m k) v),
    get-Above t q,
    Above-weaken q k t,
    o.eq_of_cmp q k,
    o.cmp_flip k k,
    o.cmp_flip q q,
  )

  pub upsert-IsSorted :
      (g : Option V → V → V) (m t : BtreeMap K V) → IsSorted m → IsSorted (upsert g m t)
  unfolding upsert
  upsert-IsSorted g m [] s = s
  upsert-IsSorted g m ((k, v) ∷ t) s =
      upsert-IsSorted g (insert m k (g (get m k) v)) t (insert-IsSorted m k (g (get m k) v) s)

  pub get-Holds {μ} :
      (P : V → Type μ) (m : BtreeMap K V) (k : K) → AllValues P m → Holds P (get m k)
  get-Holds P m k a = elim (Option-cases (get m k)) [
    | inl e ↦ rw e tt
    | inr (v, e) ↦ rw e (AllValues-get P m k v a e)
  ]

  pub AllValues-upsert {μ ν} :
      (P : V → Type μ) (Q : V → Type ν) (g : Option V → V → V)
      → ((w : Option V) (v : V) → Holds P w → Q v → P (g w v))
      → (m t : BtreeMap K V) → AllValues P m
      → AllValues Q t
      → AllValues P (upsert g m t)
  unfolding upsert
  AllValues-upsert P Q g h m [] a b = a
  AllValues-upsert P Q g h m ((k, v) ∷ t) a b =
      AllValues-upsert P Q g h (insert m k (g (get m k) v)) t
        (AllValues-insert P m k (g (get m k) v) (h (get m k) v (get-Holds P m k a) b.0) a) b.1
