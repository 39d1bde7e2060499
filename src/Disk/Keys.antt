-- ===== src/Disk/Keys.antt =====
-- disk.rs: a row's key gives its log and its number back.
use dash_router.Base.{
  ℕ, zero, suc, ◌+◌, ◌≤◌, ◌≡◌, none, some, List, [], ◌∷◌, ◌++◌, refl, ap, ◌∙◌, arith, length,
}
use dash_router.Disk.{
  to_be_bytes, from_be_bytes, get_first, skip, LogKey, row_key, row_seq, array_key, u32_key, u8_key,
  first_four, first_byte,
}

from_be_bytes-to_be_bytes : (n : ℕ) → n ≤ 4294967295 → from_be_bytes (to_be_bytes n) ≡ some n
unfolding from_be_bytes to_be_bytes
from_be_bytes-to_be_bytes n h = ap some (omega arith)

skip-append : (xs ys : List ℕ) (n : ℕ) → length xs ≡ n → skip n (xs ++ ys) ≡ ys
unfolding skip
skip-append [] ys zero h = refl
skip-append [] ys (suc n) h = absurd (omega arith)
skip-append (x ∷ xs) ys zero h = absurd (omega arith)
skip-append (x ∷ xs) ys (suc n) h = skip-append xs ys n (omega arith)

length-append : (xs ys : List ℕ) → length (xs ++ ys) ≡ length xs + length ys
length-append [] ys = ground arith
length-append (x ∷ xs) ys = ground (arith, length-append xs ys)

get_first-append : (xs ys : List ℕ) (n : ℕ) → length xs ≡ n → get_first n (xs ++ ys) ≡ some xs
unfolding get_first
get_first-append [] ys zero h = refl
get_first-append [] ys (suc n) h = absurd (omega arith)
get_first-append (x ∷ xs) ys zero h = absurd (omega arith)
get_first-append (x ∷ xs) ys (suc n) h =
    ap (λ o. elim o [ none ↦ none | some zs ↦ some (x ∷ zs) ])
      (get_first-append xs ys n (omega arith))

-- The key of a row is decoded to the log and the number it was made of.
abbrev pub RoundTrips : {L : Type 0} → LogKey L → L → ℕ → Type 0
RoundTrips key log seq =
    (key.read_key (row_key key log seq) ≡ some log) × (row_seq key (row_key key log seq) ≡ some seq)

length-to_be_bytes : (n : ℕ) → length (to_be_bytes n) ≡ 4
unfolding to_be_bytes
length-to_be_bytes n = ground arith

row_seq-row_key :
    {L : Type 0} (key : LogKey L) (log : L) (seq : ℕ)
    → length (key.write_key log) ≡ key.width
    → seq ≤ 4294967295
    → row_seq key (row_key key log seq) ≡ some seq
unfolding row_key row_seq to_be_bytes
row_seq-row_key key log seq len small =
    let all : length (key.write_key log ++ to_be_bytes seq) ≡ key.width + 4 =
      length-append (key.write_key log) (to_be_bytes seq) ∙ ap (λ n. n + 4) len in
    rw
      (
        skip-append (key.write_key log) (to_be_bytes seq) key.width len,
        from_be_bytes-to_be_bytes seq small,
      )
      (ground (arith, all))

first_four-to_be_bytes :
    (log : ℕ) (rest : List ℕ) → log ≤ 4294967295 → first_four (to_be_bytes log ++ rest) ≡ some log
unfolding first_four
first_four-to_be_bytes log rest h =
    ap (λ o. elim o [ none ↦ none | some xs ↦ from_be_bytes xs ])
      (get_first-append (to_be_bytes log) rest 4 (length-to_be_bytes log))
    ∙ from_be_bytes-to_be_bytes log h

-- The three kinds of key, an array of the key's width, a number of 32 bits and a byte, with a number
-- of 32 bits: from the row's key both the log and the number are decoded as they were.
pub row_key-decodes :
    (log : List ℕ) (word byte seq : ℕ)
    → word ≤ 4294967295
    → seq ≤ 4294967295
    → RoundTrips (array_key (length log)) log seq
      × RoundTrips u32_key word seq
      × RoundTrips u8_key byte seq
unfolding array_key u32_key u8_key row_key first_byte
row_key-decodes log word byte seq w h = (
  (
    get_first-append log (to_be_bytes seq) (length log) refl,
    row_seq-row_key (array_key (length log)) log seq refl h,
  ),
  (
    first_four-to_be_bytes word (to_be_bytes seq) w,
    row_seq-row_key u32_key word seq (length-to_be_bytes word) h,
  ),
  (refl, row_seq-row_key u8_key byte seq refl h),
)
