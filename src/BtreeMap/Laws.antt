-- ===== src/BtreeMap/Laws.antt =====
-- `get` after each operation, and that the keys stay in order.
use dash_router.Base.{◌≡◌, Bool, none, some, [], ◌∷◌, refl, arith, if◌then◌else◌}
use dash_router.Base.Order.{Ord, ◌≺◌, same}
use dash_router.BtreeMap.{
  BtreeMap, get, insert, remove, Above, IsSorted, retain, map_values, AllValues,
}

module _ {ℓ κ} {K : Type ℓ} {V : Type κ} ⦃o : Ord K⦄ where
  -- An insertion changes the map at one key.
  pub get-insert :
      (m : BtreeMap K V) (k q : K) (v : V)
      → get (insert m k v) q ≡ (if same q k then some v else get m q)
  unfolding get insert
  get-insert [] k q v = ground arith
  get-insert ((j, w) ∷ m) k q v = ground (
    arith,
    get-insert m k q v,
    o.eq_of_cmp k j,
    o.eq_of_cmp q k,
    o.cmp_flip k j,
    o.cmp_trans q k j,
    o.cmp_trans q j k,
  )

  pub Above-weaken : (p q : K) (m : BtreeMap K V) → p ≺ q → Above q m → Above p m
  Above-weaken p q [] h a = tt
  Above-weaken p q ((k, v) ∷ m) h a = (o.cmp_trans p q k h a.0, a.1)

  pub IsSorted_of_Above : (q : K) (m : BtreeMap K V) → Above q m → IsSorted m
  IsSorted_of_Above q [] a = tt
  IsSorted_of_Above q ((k, v) ∷ m) a = a.1

  pub get-Above : (m : BtreeMap K V) (q : K) → Above q m → get m q ≡ none
  unfolding get
  get-Above [] q a = refl
  get-Above ((k, v) ∷ m) q a = rw (a.0, get)

  insert-Above :
      (p : K) (m : BtreeMap K V) (k : K) (v : V) → p ≺ k → Above p m → Above p (insert m k v)
  unfolding insert
  insert-Above p [] k v h a = (h, tt)
  insert-Above p ((j, w) ∷ m) k v h a =
      ground (arith, insert-Above j m k v, o.cmp_flip k j, o.eq_of_cmp k j)

  pub insert-IsSorted : (m : BtreeMap K V) (k : K) (v : V) → IsSorted m → IsSorted (insert m k v)
  unfolding insert
  insert-IsSorted [] k v s = tt
  insert-IsSorted ((j, w) ∷ m) k v s =
      ground (arith, insert-Above j m k v, o.cmp_flip k j, o.eq_of_cmp k j)

  remove-Above : (p : K) (m : BtreeMap K V) (k : K) → Above p m → Above p (remove m k)
  unfolding remove
  remove-Above p [] k a = tt
  remove-Above p ((j, w) ∷ m) k a = ground (arith, remove-Above j m k, Above-weaken p j m)

  pub remove-IsSorted : (m : BtreeMap K V) (k : K) → IsSorted m → IsSorted (remove m k)
  unfolding remove
  remove-IsSorted [] k s = tt
  remove-IsSorted ((j, w) ∷ m) k s = ground (arith, remove-Above j m k, IsSorted_of_Above j m)

  pub get-remove :
      (m : BtreeMap K V) (k q : K)
      → IsSorted m
      → get (remove m k) q ≡ (if same q k then none else get m q)
  unfolding get remove
  get-remove [] k q s = ground arith
  get-remove ((j, w) ∷ m) k q s = ground (
    arith,
    get-remove m k q,
    IsSorted_of_Above j m,
    get-Above m q,
    Above-weaken q j m,
    o.eq_of_cmp k j,
    o.eq_of_cmp q k,
    o.cmp_flip k j,
    o.cmp_trans q k j,
    o.cmp_trans q j k,
  )

  retain-Above : (p : K → V → Bool) (q : K) (m : BtreeMap K V) → Above q m → Above q (retain p m)
  unfolding retain
  retain-Above p q [] a = tt
  retain-Above p q ((k, v) ∷ m) a =
      ground (arith, retain-Above p k m, retain-Above p q m, Above-weaken q k m)

  pub retain-IsSorted : (p : K → V → Bool) (m : BtreeMap K V) → IsSorted m → IsSorted (retain p m)
  unfolding retain
  retain-IsSorted p [] s = tt
  retain-IsSorted p ((k, v) ∷ m) s =
      ground (arith, retain-Above p k m, retain-IsSorted p m, IsSorted_of_Above k m)

  pub get-retain :
      (p : K → V → Bool) (m : BtreeMap K V) (q : K)
      → IsSorted m
      → get (retain p m) q
        ≡ elim (get m q) [ none ↦ none | some v ↦ if p q v then some v else none ]
  unfolding get retain
  get-retain p [] q s = refl
  get-retain p ((k, v) ∷ m) q s = ground (
    arith,
    get-retain p m q,
    IsSorted_of_Above k m,
    get-Above m q,
    Above-weaken q k m,
    o.eq_of_cmp q k,
  )

  map_values-Above :
      (f : K → V → V) (q : K) (m : BtreeMap K V) → Above q m → Above q (map_values f m)
  unfolding map_values
  map_values-Above f q [] a = tt
  map_values-Above f q ((k, v) ∷ m) a = (a.0, map_values-Above f k m a.1)

  pub map_values-IsSorted :
      (f : K → V → V) (m : BtreeMap K V) → IsSorted m → IsSorted (map_values f m)
  unfolding map_values
  map_values-IsSorted f [] s = tt
  map_values-IsSorted f ((k, v) ∷ m) s = map_values-Above f k m s

  pub get-map_values :
      (f : K → V → V) (m : BtreeMap K V) (q : K)
      → get (map_values f m) q ≡ elim (get m q) [ none ↦ none | some v ↦ some (f q v) ]
  unfolding get map_values
  get-map_values f [] q = refl
  get-map_values f ((k, v) ∷ m) q = ground (arith, get-map_values f m q, o.eq_of_cmp q k)

  pub AllValues-insert {μ} :
      (P : V → Type μ) (m : BtreeMap K V) (k : K) (v : V)
      → P v
      → AllValues P m
      → AllValues P (insert m k v)
  unfolding insert
  AllValues-insert P [] k v h a = (h, tt)
  AllValues-insert P ((j, w) ∷ m) k v h a = ground (arith, AllValues-insert P m k v)

  pub AllValues-remove {μ} :
      (P : V → Type μ) (m : BtreeMap K V) (k : K) → AllValues P m → AllValues P (remove m k)
  unfolding remove
  AllValues-remove P [] k a = tt
  AllValues-remove P ((j, w) ∷ m) k a = ground (arith, AllValues-remove P m k)

  pub AllValues-get {μ} :
      (P : V → Type μ) (m : BtreeMap K V) (k : K) (v : V) → AllValues P m → get m k ≡ some v → P v
  unfolding get
  AllValues-get P [] k v a e = cc
  AllValues-get P ((j, w) ∷ m) k v a e = ground (arith, AllValues-get P m k v a.1)
