-- ===== src/Ranges/Iter.antt =====
-- `iter`, `len` and `last` of `Ranges`.
use dash_router.Base.{
  ℕ, zero, suc, ◌+◌, ◌-◌, ◌≤◌, ◌<◌, ◌≡◌, Bool, true, false, not, ◌&&◌, ◌||◌, none, some, List, [],
  ◌∷◌, ◌++◌, refl, ◌∙◌, arith, length, length-append, elem, leb, ltb, odd, odd-suc, odd-zero,
  if◌then◌else◌,
}
use dash_router.Ranges.{
  Ranges, IsFrom, IsValid, contains, seq_max, run, iter, span, len, is_open, last, last_of,
  get_last, from_seqs,
}
use dash_router.Ranges.Combine.{contains-inside_at, inside_at}
use dash_router.Ranges.FromSeqs.{AreSeqs, from_seqs-IsValid, contains-from_seqs}
use dash_router.Ranges.Canonical.{eq_of_contains, inside_at-below}

elem-append : (s : ℕ) (xs ys : List ℕ) → elem s (xs ++ ys) ≡ (elem s xs || elem s ys)
elem-append s [] ys = refl
elem-append s (x ∷ xs) ys = ground (arith, elem-append s xs ys)

elem-run : (s a n : ℕ) → elem s (run a n) ≡ (leb a s && ltb s (a + n))
unfolding run
elem-run s a zero = ground arith
elem-run s a (suc n) = ground (arith, elem-run s (a + 1) n)

length-run : (a n : ℕ) → length (run a n) ≡ n
unfolding run
length-run a zero = refl
length-run a (suc n) = ground (arith, length-run (a + 1) n)

one_range :
    (a b s : ℕ) (rest : Bool)
    → a < b
    → (s < suc b → rest ≡ false)
    → ((leb a s && ltb s (a + (b - a))) || rest)
      ≡ (if leb a s then if leb b s then rest else true else false)
one_range a b s true h below = grind arith
one_range a b s false h below = ground arith

elem-iter :
    (n : ℕ) (r : Ranges) (s : ℕ) → s ≤ seq_max → IsFrom n r → elem s (iter r) ≡ inside_at false r s
unfolding iter
elem-iter n [] s h v = refl
elem-iter n (a ∷ []) s h v = ground (arith, elem-run s a (seq_max + 1 - a))
elem-iter n (a ∷ b ∷ r) s h v =
    rw (elem-append s (run a (b - a)) (iter r), elem-run s a (b - a), elem-iter (suc b) r s h v.2.2)
      (one_range a b s (inside_at false r s) v.2.0
        (λ lt. inside_at-below false (suc b) s r lt v.2.2))

-- The listing of a valid set has a `u32` exactly when the set contains it.
pub elem-iter-contains :
    (r : Ranges) (s : ℕ) → IsValid r → s ≤ seq_max → elem s (iter r) ≡ contains r s
elem-iter-contains r s v h = ground (arith, elem-iter 0 r s h v, contains-inside_at r s)

AreSeqs-append : (xs ys : List ℕ) → AreSeqs xs → AreSeqs ys → AreSeqs (xs ++ ys)
AreSeqs-append [] ys v w = w
AreSeqs-append (x ∷ xs) ys v w = (v.0, AreSeqs-append xs ys v.1 w)

run-AreSeqs : (a n : ℕ) → a + n ≤ seq_max + 1 → AreSeqs (run a n)
unfolding run
run-AreSeqs a zero h = tt
run-AreSeqs a (suc n) h = (omega arith, run-AreSeqs (a + 1) n (omega arith))

iter-AreSeqs : (n : ℕ) (r : Ranges) → IsFrom n r → AreSeqs (iter r)
unfolding iter
iter-AreSeqs n [] v = tt
iter-AreSeqs n (a ∷ []) v = run-AreSeqs a (seq_max + 1 - a) (omega arith)
iter-AreSeqs n (a ∷ b ∷ r) v =
    AreSeqs-append (run a (b - a)) (iter r) (run-AreSeqs a (b - a) (omega arith))
      (iter-AreSeqs (suc b) r v.2.2)

-- Listing the numbers of a valid set and building a set from the list gives the same
-- boundaries.
pub from_seqs-iter : (r : Ranges) → IsValid r → from_seqs (iter r) ≡ r
from_seqs-iter r v =
    let a : AreSeqs (iter r) = iter-AreSeqs 0 r v in
    eq_of_contains (from_seqs (iter r)) r (from_seqs-IsValid (iter r) a) v
      (λ s h. ground (arith, contains-from_seqs (iter r) a s h, elem-iter-contains r s v h))

span-iter : (n : ℕ) (r : Ranges) → IsFrom n r → odd (length r) ≡ false → span r ≡ length (iter r)
unfolding span iter
span-iter n [] v e = refl
span-iter n (a ∷ []) v e = ground (arith, odd-suc 0, odd-zero)
span-iter n (a ∷ b ∷ r) v e = ground (
  arith,
  length-append (run a (b - a)) (iter r),
  length-run a (b - a),
  span-iter (suc b) r v.2.2,
  odd-suc (length r),
  odd-suc (suc (length r)),
)

-- The count of a valid set that is not open is the length of its listing; an open one has no
-- count.
pub len-iter :
    (r : Ranges) → IsValid r → len r ≡ (if is_open r then none else some (length (iter r)))
unfolding len is_open
len-iter r v = ground (arith, span-iter 0 r v)

get_last-ge : (n x : ℕ) (xs : Ranges) → IsFrom n (x ∷ xs) → x ≤ get_last x xs
unfolding get_last
get_last-ge n x [] v = omega arith
get_last-ge n x (y ∷ ys) v = omega (arith, get_last-ge (suc x) y ys v.2)

-- Past the last boundary everything has flipped.
inside_at-past_last :
    (b : Bool) (n x s : ℕ) (xs : Ranges)
    → IsFrom n (x ∷ xs)
    → odd (length (x ∷ xs)) ≡ b
    → get_last x xs ≤ s
    → inside_at b (x ∷ xs) s ≡ false
unfolding get_last
inside_at-past_last b n x s [] v e h = ground (arith, odd-suc 0, odd-zero)
inside_at-past_last b n x s (y ∷ ys) v e h = ground (
  arith,
  odd-suc (suc (length ys)),
  get_last-ge (suc x) y ys v.2,
  inside_at-past_last (not b) (suc x) y s ys v.2,
)

-- Just before it, one flip is left.
inside_at-before_last :
    (b : Bool) (n x s : ℕ) (xs : Ranges)
    → IsFrom n (x ∷ xs)
    → odd (length (x ∷ xs)) ≡ b
    → suc s ≡ get_last x xs
    → inside_at b (x ∷ xs) s ≡ true
unfolding get_last
inside_at-before_last b n x s [] v e h = ground (arith, odd-suc 0, odd-zero)
inside_at-before_last b n x s (y ∷ ys) v e h = ground (
  arith,
  odd-suc (suc (length ys)),
  get_last-ge (suc x) y ys v.2,
  inside_at-before_last (not b) (suc x) y s ys v.2,
)

get_last-pos :
    (n x : ℕ) (xs : Ranges) → IsFrom n (x ∷ xs) → odd (length (x ∷ xs)) ≡ false → 1 ≤ get_last x xs
unfolding get_last
get_last-pos n x [] v e = ground (arith, odd-suc 0, odd-zero)
get_last-pos n x (y ∷ ys) v e = omega (arith, get_last-ge (suc x) y ys v.2)

-- Where a valid set has a last number, it contains that number and none that is larger.
pub last-largest :
    (r : Ranges) (m : ℕ)
    → IsValid r
    → last r ≡ some m
    → (contains r m ≡ true) × ((s : ℕ) → m < s → contains r s ≡ false)
unfolding last last_of is_open
last-largest [] m v e = ground arith
last-largest (x ∷ xs) m v e = (
  contains-inside_at (x ∷ xs) m ∙ inside_at-before_last false 0 x m xs v found.0 found.1,
  λ s h.
      contains-inside_at (x ∷ xs) s
      ∙ inside_at-past_last false 0 x s xs v found.0 (omega (arith, found.1)),
)
  where
    found : (odd (length (x ∷ xs)) ≡ false) × (suc m ≡ get_last x xs)
    found = ground (arith, get_last-pos 0 x xs v)
