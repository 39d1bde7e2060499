-- ===== src/Disk.antt =====
-- crates/dash-router/src/disk.rs: the keys of the rows of the relay's table. A byte is a number, and
-- a fixed-width array of bytes a list of that length. The table itself is redb's.
pub mod Keys
pub mod Bounds
mod Tests
use dash_router.Base.{
  ℕ, zero, suc, ◌+◌, ◌*◌, ◌%◌, Bool, true, false, Option, none, some, List, [], ◌∷◌, ◌++◌, ◌==◌,
  length, if◌then◌else◌,
}
use Prim.Native.Nat.{◌/◌, Ordering, compare}
use Prim.Native.Nat.Ordering.{lt, eq, gt}

-- `to_be_bytes` and `from_be_bytes` of a `u32`; what is not four bytes long is none.
pub to_be_bytes : ℕ → List ℕ
to_be_bytes n = n / 16777216 % 256 ∷ n / 65536 % 256 ∷ n / 256 % 256 ∷ n % 256 ∷ []

pub from_be_bytes : List ℕ → Option ℕ
from_be_bytes (a ∷ b ∷ c ∷ d ∷ []) = some (a * 16777216 + b * 65536 + c * 256 + d)
from_be_bytes _ = none

-- `bytes.get(..n)` and the rest of the bytes.
pub get_first : ℕ → List ℕ → Option (List ℕ)
get_first zero bytes = some []
get_first (suc n) [] = none
get_first (suc n) (x ∷ bytes) = elim (get_first n bytes) [ none ↦ none | some xs ↦ some (x ∷ xs) ]

skip : ℕ → List ℕ → List ℕ
skip zero bytes = bytes
skip (suc n) [] = []
skip (suc n) (x ∷ bytes) = skip n bytes

pub record LogKey (L : Type 0) : Type 0 where
  pub width : ℕ
  pub write_key : L → List ℕ
  pub read_key : List ℕ → Option L

-- `impl LogKey for [u8; N]`, for 32 and 64 bytes.
pub array_key : ℕ → LogKey (List ℕ)
array_key n = record { width = n; write_key = λ bytes. bytes; read_key = get_first n }

first_four : List ℕ → Option ℕ
first_four bytes = elim (get_first 4 bytes) [ none ↦ none | some xs ↦ from_be_bytes xs ]

pub u32_key : LogKey ℕ
u32_key = record { width = 4; write_key = to_be_bytes; read_key = first_four }

first_byte : List ℕ → Option ℕ
first_byte [] = none
first_byte (x ∷ bytes) = some x

pub u8_key : LogKey ℕ
u8_key = record { width = 1; write_key = λ x. x ∷ []; read_key = first_byte }

module _ {L : Type 0} (key : LogKey L) where
  pub row_key : L → ℕ → List ℕ
  row_key log seq = key.write_key log ++ to_be_bytes seq

  pub row_seq : List ℕ → Option ℕ
  row_seq bytes =
      if length bytes == key.width + 4 then from_be_bytes (skip key.width bytes) else none

  pub log_bounds : L → List ℕ × List ℕ
  log_bounds log = (key.write_key log ++ to_be_bytes 0, key.write_key log ++ to_be_bytes 4294967295)

-- The order of byte strings, that of the table's keys.
pub compare_bytes : List ℕ → List ℕ → Ordering
compare_bytes [] [] = eq
compare_bytes [] (y ∷ ys) = lt
compare_bytes (x ∷ xs) [] = gt
compare_bytes (x ∷ xs) (y ∷ ys) = elim (compare x y) [
  | lt ↦ lt
  | eq ↦ compare_bytes xs ys
  | gt ↦ gt
]
