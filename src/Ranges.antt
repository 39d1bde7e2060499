-- ===== src/Ranges.antt =====
-- crates/dash-router-core/src/ranges.rs, `Ranges`: a set of sequence numbers as the list of its
-- boundaries. Even positions start a range, odd positions end it, an odd length is open-ended.
pub mod Combine
pub mod FromSeqs
pub mod Canonical
pub mod Sets
pub mod Iter
mod Tests
use dash_router.Base.{
  ℕ, zero, suc, ◌+◌, ◌-◌, ◌≤◌, ◌≡◌, Bool, true, false, not, ◌&&◌, ◌||◌, Option, none, some, List,
  [], ◌∷◌, ◌++◌, reverse, foldl, length, partition_point, ltb, leb, ◌==◌, odd, if◌then◌else◌,
}

-- `Seq::MAX`: a sequence number is a `u32`.
abbrev pub seq_max : ℕ
seq_max = 4294967295

abbrev pub Ranges : Type 0
Ranges = List ℕ

pub data Parsed : Type 0 where
  ok : Ranges → Parsed
  invalid : List ℕ → Parsed

-- The invariant: strictly increasing from `n` on, and every boundary a `u32`.
abbrev pub IsFrom : ℕ → Ranges → Type 0
IsFrom n [] = Unit {0}
IsFrom n (x ∷ xs) = (n ≤ x) × (x ≤ seq_max) × IsFrom (suc x) xs

abbrev pub IsValid : Ranges → Type 0
IsValid = IsFrom 0

pub empty : Ranges
empty = []

pub full : Ranges
full = 0 ∷ []

pub range : ℕ → ℕ → Ranges
range start end = if ltb start end then start ∷ end ∷ [] else empty

pub from : ℕ → Ranges
from start = start ∷ []

-- `boundaries.windows(2).all(|w| w[0] < w[1])`
unfoldable pub increasing : List ℕ → Bool
increasing [] = true
increasing (x ∷ []) = true
increasing (x ∷ y ∷ xs) = ltb x y && increasing (y ∷ xs)

unfoldable pub from_boundaries : List ℕ → Parsed
unfolding increasing
from_boundaries bs = if increasing bs then ok bs else invalid bs

unfoldable pub is_empty : Ranges → Bool
is_empty [] = true
is_empty (_ ∷ _) = false

pub is_open : Ranges → Bool
is_open r = odd (length r)

pub contains : Ranges → ℕ → Bool
contains r seq = odd (partition_point (λ b. leb b seq) r)

get_last : ℕ → List ℕ → ℕ
get_last x [] = x
get_last x (y ∷ ys) = get_last y ys

last_of : Ranges → Option ℕ
unfolding get_last
last_of [] = none
last_of (x ∷ xs) = some (get_last x xs - 1)

-- The largest number contained, of a finite and non-empty set.
pub last : Ranges → Option ℕ
unfolding last_of is_open
last r = if is_open r then none else last_of r

-- `start .. end`, as `n` numbers from `start`.
pub run : ℕ → ℕ → List ℕ
run start zero = []
run start (suc n) = start ∷ run (start + 1) n

-- Every number contained, in order; an open tail runs to `seq_max`.
pub iter : Ranges → List ℕ
unfolding run
iter [] = []
iter (start ∷ []) = run start (seq_max + 1 - start)
iter (start ∷ end ∷ r) = run start (end - start) ++ iter r

span : Ranges → ℕ
span [] = 0
span (start ∷ []) = 0
span (start ∷ end ∷ r) = (end - start) + span r

-- How many numbers are contained, of a finite set.
pub len : Ranges → Option ℕ
unfolding span is_open
len r = if is_open r then none else some (span r)

-- `Vec::sort_unstable`
insert_sorted : ℕ → List ℕ → List ℕ
insert_sorted s [] = s ∷ []
insert_sorted s (x ∷ xs) = if leb s x then s ∷ x ∷ xs else x ∷ insert_sorted s xs

sort : List ℕ → List ℕ
unfolding insert_sorted
sort [] = []
sort (x ∷ xs) = insert_sorted x (sort xs)

-- `Vec::dedup`: of a run of equal entries, one stays.
dedup_run : ℕ → List ℕ → List ℕ
dedup_run x [] = x ∷ []
dedup_run x (y ∷ ys) = if x == y then dedup_run x ys else x ∷ dedup_run y ys

dedup : List ℕ → List ℕ
unfolding dedup_run
dedup [] = []
dedup (x ∷ xs) = dedup_run x xs

-- `s.checked_add(1)`, and the push of the end.
push_end : List ℕ → ℕ → List ℕ
push_end out s = if ltb s seq_max then (s + 1) ∷ out else out

-- One round of the loop of `from_seqs`; the head of `out` is the back of the vector.
push_seq : List ℕ → ℕ → List ℕ
unfolding push_end
push_seq [] s = push_end (s ∷ []) s
push_seq (end ∷ out) s =
    if not (odd (length (end ∷ out))) && end == s
    then push_end out s
    else if odd (length (end ∷ out))
    then end ∷ out
    else push_end (s ∷ end ∷ out) s

pub from_seqs : List ℕ → Ranges
unfolding push_seq sort dedup
from_seqs seqs = reverse (foldl push_seq [] (dedup (sort seqs)))

-- `while v.get(i) == Some(&p) { i += 1 }`: the index, and the list from it on.
skip : ℕ → ℕ → List ℕ → ℕ × List ℕ
skip p i [] = (i, [])
skip p i (x ∷ xs) = if x == p then skip p (i + 1) xs else (i, x ∷ xs)

-- The smaller head; the loop of `sweep` has ended where there is none.
next_boundary : List ℕ → List ℕ → Option ℕ
next_boundary [] [] = none
next_boundary (x ∷ xs) [] = some x
next_boundary [] (y ∷ ys) = some y
next_boundary (x ∷ xs) (y ∷ ys) = some (if leb x y then x else y)

-- `now != inside`
abbrev flips : Bool → Bool → Bool
flips true inside = not inside
flips false inside = inside

-- The loop of `combine`: indices `i` and `j`, with the boundaries that are left behind them. Each
-- round passes a boundary at least, so the number of boundaries is enough fuel.
sweep : (Bool → Bool → Bool) → ℕ → ℕ → List ℕ → ℕ → List ℕ → Bool → List ℕ
unfolding skip next_boundary
sweep f zero i xs j ys inside = []
sweep f (suc fuel) i xs j ys inside = elim (next_boundary xs ys) [
  | none ↦ []
  | some p ↦
      let (i', xs') = skip p i xs in
      let (j', ys') = skip p j ys in
      let now = f (odd i') (odd j') in
      let rest = sweep f fuel i' xs' j' ys' now in if flips now inside then p ∷ rest else rest
]

pub combine : (Bool → Bool → Bool) → Ranges → Ranges → Ranges
unfolding sweep
combine f r o = sweep f (length r + length o) 0 r 0 o false

pub union : Ranges → Ranges → Ranges
union r o = combine (λ a b. a || b) r o

pub intersection : Ranges → Ranges → Ranges
intersection r o = combine (λ a b. a && b) r o

pub difference : Ranges → Ranges → Ranges
difference r o = combine (λ a b. a && not b) r o

pub complement : Ranges → Ranges
complement r = difference full r
