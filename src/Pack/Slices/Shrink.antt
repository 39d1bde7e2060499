-- ===== src/Pack/Slices/Shrink.antt =====
-- The loop of `slice_entry` that shrinks a run: where the ranges are valid it does not panic, `rounds`
-- is fuel enough, and no step adds a number to an author's ranges.
use dash_router.Base.{
  ℕ, suc, zero, ◌≡◌, true, false, Option, none, some, [], ◌∷◌, ◌++◌, refl, arith, ◌==◌, odd,
  odd-suc, odd-zero, Bool-cases, inl, inr, if◌then◌else◌,
}
use dash_router.Base.Order.{nat_ord}
use dash_router.BtreeMap
use dash_router.BtreeMap.{BtreeMap, IsSorted, Above}
use dash_router.BtreeMap.Entries.{AllEntries, AllEntries-insert}
use dash_router.Ranges
use dash_router.Ranges.{Ranges, IsFrom}
use dash_router.Ranges.FromSeqs.{IsFrom-increasing}
use dash_router.Ranges.Combine.{inside_at}
use dash_router.Pack.Slices.{Run, extend, last_entry, take, keep_of, shrink_one, bind}

-- There is no panic, and what is returned has the property.
abbrev pub Returns : {A : Type 0} → (A → Type 0) → Option A → Type 0
Returns P none = false ≡ true
Returns P (some x) = P x

pub Returns-map :
    {A : Type 0} (P Q : A → Type 0) (o : Option A)
    → ((x : A) → P x → Q x)
    → Returns P o
    → Returns Q o
Returns-map P Q none h v = v
Returns-map P Q (some x) h v = h x v

pub bind-Returns :
    {A B : Type 0} (P : A → Type 0) (Q : B → Type 0) (o : Option A) (next : A → Option B)
    → Returns P o
    → ((x : A) → P x → Returns Q (next x))
    → Returns Q (bind o next)
bind-Returns P Q none next h k = h
bind-Returns P Q (some x) next h k = k x h

-- Cutting off whole ranges, or the open tail, leaves only numbers that were there.
pub inside_at-take :
    (k : ℕ) (b : Ranges) (q : ℕ)
    → odd k ≡ false
    → inside_at false (take k b) q ≡ true
    → inside_at false b q ≡ true
unfolding take
inside_at-take zero b q e h = cc
inside_at-take (suc zero) b q e h = ground (arith, odd-suc 0, odd-zero)
inside_at-take (suc (suc k)) [] q e h = h
inside_at-take (suc (suc k)) (x ∷ []) q e h = h
inside_at-take (suc (suc k)) (x ∷ y ∷ b) q e h =
    ground (arith, inside_at-take k b q, odd-suc k, odd-suc (suc k))

pub odd-keep_of : (b : Ranges) → odd (keep_of b) ≡ false
unfolding keep_of odd
odd-keep_of b = ground arith

-- A prefix of valid ranges is valid, and `from_boundaries` takes what is valid.
pub take-IsFrom : (n k : ℕ) (b : Ranges) → IsFrom n b → IsFrom n (take k b)
unfolding take
take-IsFrom n zero b v = tt
take-IsFrom n (suc k) [] v = tt
take-IsFrom n (suc k) (x ∷ b) v = (v.0, v.1, take-IsFrom (suc x) k b v.2)

from_boundaries_of_IsFrom :
    (n : ℕ) (b : Ranges) → IsFrom n b → Ranges.from_boundaries b ≡ Ranges.ok b
unfolding Ranges.from_boundaries
from_boundaries_of_IsFrom n b v = rw (IsFrom-increasing n b v) refl

-- What a step leaves of a run of valid ranges.
abbrev pub cut : BtreeMap ℕ Ranges → ℕ → Ranges → BtreeMap ℕ Ranges
cut run a b =
    if keep_of b == 0 then BtreeMap.remove run a else BtreeMap.insert run a (take (keep_of b) b)

pub shrink_one-cut :
    (run : BtreeMap ℕ Ranges) (a : ℕ) (b : Ranges)
    → Ranges.IsValid b
    → shrink_one run a b ≡ some (cut run a b)
unfolding shrink_one
shrink_one-cut run a b v = elim (Bool-cases (keep_of b == 0)) [
  | inl gone ↦ rw (gone, shrink_one) refl
  | inr kept ↦
      rw
        (
          kept,
          shrink_one,
          from_boundaries_of_IsFrom 0 (take (keep_of b) b) (take-IsFrom 0 (keep_of b) b v),
        )
        refl
]

module _ (P : ℕ → Ranges → Type 0) where
  pub AllEntries-append : (m n : Run) → AllEntries P m → AllEntries P n → AllEntries P (m ++ n)
  AllEntries-append [] n v w = w
  AllEntries-append (x ∷ m) n v w = (v.0, AllEntries-append m n v.1 w)

  pub AllEntries-extend :
      (have : BtreeMap ℕ Ranges) (run : Run)
      → AllEntries P have
      → AllEntries P run
      → AllEntries P (extend have run)
  unfolding extend
  AllEntries-extend have [] v w = v
  AllEntries-extend have ((a, r) ∷ run) v w =
      AllEntries-extend (BtreeMap.insert have a r) run (AllEntries-insert P have a r w.0 v) w.1

  pub AllEntries-last :
      (x : ℕ × Ranges) (m : BtreeMap ℕ Ranges)
      → AllEntries P (x ∷ m)
      → P (last_entry x m).0 (last_entry x m).1
  unfolding last_entry
  AllEntries-last x [] v = v.0
  AllEntries-last x (y ∷ m) v = AllEntries-last y m v.1
