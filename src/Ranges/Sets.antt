-- ===== src/Ranges/Sets.antt =====
-- The set operations of `Ranges`, and emptiness, against membership.
use dash_router.Base.{
  ℕ, suc, ◌≡◌, Bool, true, false, not, ◌&&◌, ◌||◌, [], ◌∷◌, arith, refl, odd-zero, ◌∙◌, ◌≤◌,
}
use dash_router.Ranges.{
  Ranges, IsFrom, IsValid, contains, union, intersection, difference, complement, full, is_empty,
  empty, seq_max,
}
use dash_router.Ranges.Combine.{contains-combine, combine-IsValid, contains-inside_at, inside_at}

pub contains-empty : (s : ℕ) → contains empty s ≡ false
unfolding contains empty
contains-empty s = odd-zero

pub contains-full : (s : ℕ) → contains full s ≡ true
unfolding full
contains-full s = rw (contains-inside_at (0 ∷ []) s) (ground arith)

full-IsValid : IsValid full
unfolding full
full-IsValid = omega arith

module _ (r o : Ranges) (vr : IsValid r) (vo : IsValid o) where
  -- Exactly the numbers of either set.
  pub contains-union : (s : ℕ) → contains (union r o) s ≡ (contains r s || contains o s)
  unfolding union
  contains-union s = contains-combine (λ a b. a || b) r o s vr vo refl

  pub contains-intersection :
      (s : ℕ) → contains (intersection r o) s ≡ (contains r s && contains o s)
  unfolding intersection
  contains-intersection s = contains-combine (λ a b. a && b) r o s vr vo refl

  pub contains-difference :
      (s : ℕ) → contains (difference r o) s ≡ (contains r s && not (contains o s))
  unfolding difference
  contains-difference s = contains-combine (λ a b. a && not b) r o s vr vo refl

  pub union-IsValid : IsValid (union r o)
  unfolding union
  union-IsValid = combine-IsValid (λ a b. a || b) r o vr vo

  pub intersection-IsValid : IsValid (intersection r o)
  unfolding intersection
  intersection-IsValid = combine-IsValid (λ a b. a && b) r o vr vo

  pub difference-IsValid : IsValid (difference r o)
  unfolding difference
  difference-IsValid = combine-IsValid (λ a b. a && not b) r o vr vo

-- The complement of a valid set has exactly the numbers that the set does not have.
pub contains-complement :
    (r : Ranges) (s : ℕ) → IsValid r → contains (complement r) s ≡ not (contains r s)
unfolding complement
contains-complement r s v =
    ground (arith, contains-difference full r full-IsValid v s, contains-full s)

-- An empty set contains nothing, and any other contains its first boundary.
pub is_empty-contains : (r : Ranges) (s : ℕ) → is_empty r ≡ true → contains r s ≡ false
unfolding is_empty
is_empty-contains [] s e = contains-inside_at [] s
is_empty-contains (x ∷ xs) s e = cc

inside_at-here : (b : Bool) (x : ℕ) (xs : Ranges) → IsFrom (suc x) xs → inside_at b xs x ≡ b
inside_at-here b x [] v = refl
inside_at-here b x (y ∷ ys) v = ground arith

pub contains-of_not_empty :
    (r : Ranges) → IsValid r → is_empty r ≡ false → (s : ℕ) × (s ≤ seq_max) × (contains r s ≡ true)
unfolding is_empty
contains-of_not_empty [] v e = cc
contains-of_not_empty (x ∷ xs) v e =
    (x, v.1, contains-inside_at (x ∷ xs) x ∙ ground (arith, inside_at-here true x xs v.2))

pub contains-nil : (s : ℕ) → contains [] s ≡ false
contains-nil s = contains-inside_at [] s
