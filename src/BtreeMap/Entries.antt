-- ===== src/BtreeMap/Entries.antt =====
-- Properties of all entries of a map, key and value.
use dash_router.Base.{ℕ, ◌≡◌, some, [], ◌∷◌, arith}
use dash_router.Base.Order.{nat_ord}
use dash_router.BtreeMap.{BtreeMap, IsSorted, get, insert, remove}
use dash_router.BtreeMap.Laws.{IsSorted_of_Above}
use dash_router.BtreeMap.Keys.{get-tail}

-- Every entry of a map has the property of its key and its value.
abbrev pub AllEntries : {V : Type 0} → (ℕ → V → Type 0) → BtreeMap ℕ V → Type 0
AllEntries P [] = Unit {0}
AllEntries P ((a, r) ∷ m) = P a r × AllEntries P m

module _ {V : Type 0} (P : ℕ → V → Type 0) where
  pub AllEntries-insert :
      (m : BtreeMap ℕ V) (a : ℕ) (r : V) → P a r → AllEntries P m → AllEntries P (insert m a r)
  unfolding insert
  AllEntries-insert [] a r p v = (p, tt)
  AllEntries-insert ((b, r') ∷ m) a r p v = ground (arith, AllEntries-insert m a r)

  pub AllEntries-remove : (m : BtreeMap ℕ V) (a : ℕ) → AllEntries P m → AllEntries P (remove m a)
  unfolding remove
  AllEntries-remove [] a v = tt
  AllEntries-remove ((b, r') ∷ m) a v = ground (arith, AllEntries-remove m a)

  pub AllEntries-get :
      (m : BtreeMap ℕ V) (a : ℕ) (r : V) → AllEntries P m → get m a ≡ some r → P a r
  unfolding get
  AllEntries-get [] a r v e = cc
  AllEntries-get ((b, r') ∷ m) a r v e =
      ground (arith, AllEntries-get m a r v.1, nat_ord.eq_of_cmp a b)

  -- What holds of all that can be found in a sorted map holds of its entries.
  pub AllEntries-each :
      (m : BtreeMap ℕ V)
      → IsSorted m
      → ((a : ℕ) (r : V) → get m a ≡ some r → P a r)
      → AllEntries P m
  unfolding get
  AllEntries-each [] s p = tt
  AllEntries-each ((a, r) ∷ m) s p = (
    p a r (ground (arith, nat_ord.cmp_flip a a)),
    AllEntries-each m (IsSorted_of_Above a m s) (λ b x h. p b x (get-tail a m b r x s h)),
  )
