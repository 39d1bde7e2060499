-- ===== src/Disk/Bounds.antt =====
-- disk.rs: the scan of one log meets the rows of that log, and of no other.
use dash_router.Base.{ℕ, ◌≡◌, ◌≢◌, ◌↔◌, List, [], ◌∷◌, ◌++◌, refl, arith, length}
use mathlib.Core.Path.{ap₂}
use Prim.Native.Nat.Ordering.{gt}
use dash_router.Disk.{to_be_bytes, LogKey, row_key, log_bounds, compare_bytes}

compare_bytes-same_prefix :
    (xs a b : List ℕ) → compare_bytes (xs ++ a) (xs ++ b) ≡ compare_bytes a b
unfolding compare_bytes
compare_bytes-same_prefix [] a b = refl
compare_bytes-same_prefix (x ∷ xs) a b = ground (arith, compare_bytes-same_prefix xs a b)

-- What two comparisons that hold say of the first bytes and of the rest.
compare_bytes-heads :
    (x y : ℕ) (xs ys us vs : List ℕ)
    → compare_bytes (x ∷ xs) (y ∷ ys) ≢ gt
    → compare_bytes (y ∷ us) (x ∷ vs) ≢ gt
    → (x ≡ y) × (compare_bytes xs ys ≢ gt) × (compare_bytes us vs ≢ gt)
unfolding compare_bytes
compare_bytes-heads x y xs ys us vs below above = ground arith

-- Two prefixes of one length that bracket each other are the same.
compare_bytes-antisym :
    (xs ys a b c d : List ℕ)
    → length xs ≡ length ys
    → compare_bytes (xs ++ a) (ys ++ b) ≢ gt
    → compare_bytes (ys ++ c) (xs ++ d) ≢ gt
    → xs ≡ ys
unfolding compare_bytes
compare_bytes-antisym [] [] a b c d len below above = refl
compare_bytes-antisym [] (y ∷ ys) a b c d len below above = absurd (omega arith)
compare_bytes-antisym (x ∷ xs) [] a b c d len below above = absurd (omega arith)
compare_bytes-antisym (x ∷ xs) (y ∷ ys) a b c d len below above =
    let (head, below', above') =
      compare_bytes-heads x y (xs ++ a) (ys ++ b) (ys ++ c) (xs ++ d) below above in
    ap₂ ◌∷◌ head (compare_bytes-antisym xs ys a b c d (omega arith) below' above')

to_be_bytes-least : (n : ℕ) → compare_bytes (to_be_bytes 0) (to_be_bytes n) ≢ gt
unfolding compare_bytes to_be_bytes
to_be_bytes-least n = ground arith

to_be_bytes-greatest : (n : ℕ) → compare_bytes (to_be_bytes n) (to_be_bytes 4294967295) ≢ gt
unfolding compare_bytes to_be_bytes
to_be_bytes-greatest n = ground arith

-- Where two logs write keys of one length, a row of the second is between the bounds of the first
-- just where the two keys are the same.
pub log_bounds-brackets :
    {L : Type 0} (key : LogKey L) (log other : L) (seq : ℕ)
    → length (key.write_key log) ≡ length (key.write_key other)
    → ((compare_bytes (log_bounds key log).0 (row_key key other seq) ≢ gt)
        × (compare_bytes (row_key key other seq) (log_bounds key log).1 ≢ gt))
      ↔ (key.write_key log ≡ key.write_key other)
unfolding log_bounds row_key
log_bounds-brackets key log other seq len =
    let k = key.write_key log in
    let k' = key.write_key other in
    let q = to_be_bytes seq in
    (
      λ w. compare_bytes-antisym k k' (to_be_bytes 0) q q (to_be_bytes 4294967295) len w.0 w.1,
      λ e. (
        rw (e, compare_bytes-same_prefix k' (to_be_bytes 0) q) (to_be_bytes-least seq),
        rw (e, compare_bytes-same_prefix k' q (to_be_bytes 4294967295)) (to_be_bytes-greatest seq),
      ),
    )
