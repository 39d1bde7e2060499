-- ===== src/Pack/Slices/Rounds.antt =====
-- pack.rs: the loop of `slice_entry` that shrinks a run. `rounds` is fuel enough for it, and on valid
-- ranges it does not panic.
use dash_router.Base.{
  ℕ, suc, zero, ◌≤◌, ◌<◌, ◌≡◌, ◌⊎◌, Bool, true, List, [], ◌∷◌, refl, arith, ◌==◌, length,
  Bool-cases, inl, inr,
}
use Prim.Native.Nat.Ordering.{gt}
use dash_router.Base.Order.{nat_ord}
use dash_router.BtreeMap
use dash_router.BtreeMap.{BtreeMap, IsSorted, Above}
use dash_router.BtreeMap.Laws.{insert-IsSorted, remove-IsSorted}
use dash_router.Ranges
use dash_router.Ranges.{Ranges}
use dash_router.BtreeMap.Entries.{AllEntries, AllEntries-insert, AllEntries-remove}
use dash_router.Pack.Slices.{Run, extend, last_entry, take, keep_of, Shrunk, shrink, rounds}
use dash_router.Pack.Slices.Shrink.{
  Returns, cut, shrink_one-cut, take-IsFrom, AllEntries-extend, AllEntries-last,
}

length-take : (n : ℕ) (b : List ℕ) → length (take n b) ≤ n
unfolding take
length-take zero b = omega arith
length-take (suc n) [] = omega arith
length-take (suc n) (x ∷ b) = ground (arith, length-take n b)

-- A key below all keys of a map is below the last.
last-Above :
    (a : ℕ) (x : ℕ × Ranges) (m : BtreeMap ℕ Ranges)
    → Above a (x ∷ m)
    → nat_ord.cmp (last_entry x m).0 a ≡ gt
unfolding last_entry
last-Above a x [] s = ground (arith, nat_ord.cmp_flip a x.0)
last-Above a x (y ∷ m) s = last-Above a y m (nat_ord.cmp_trans a x.0 y.0 s.0 s.1.0, s.1.1)

-- Cutting the last entry off, or down, leaves fewer rounds.
rounds-remove :
    (x : ℕ × Ranges) (m : BtreeMap ℕ Ranges)
    → IsSorted (x ∷ m)
    → rounds (BtreeMap.remove (x ∷ m) (last_entry x m).0) < rounds (x ∷ m)
unfolding rounds last_entry BtreeMap.remove
rounds-remove (a, r) [] s = ground (arith, nat_ord.cmp_flip a a)
rounds-remove (a, r) ((b, r') ∷ m) s =
    ground (arith, rounds-remove (b, r') m s.1, last-Above a (b, r') m s)

rounds-insert :
    (x : ℕ × Ranges) (m : BtreeMap ℕ Ranges) (b : Ranges)
    → IsSorted (x ∷ m)
    → length b < length (last_entry x m).1
    → rounds (BtreeMap.insert (x ∷ m) (last_entry x m).0 b) < rounds (x ∷ m)
unfolding rounds last_entry BtreeMap.insert
rounds-insert (a, r) [] b s h = ground (arith, nat_ord.cmp_flip a a)
rounds-insert (a, r) (y ∷ m) b s h = ground (arith, rounds-insert y m b s.1 h, last-Above a y m s)

cut-rounds :
    (x : ℕ × Ranges) (m : BtreeMap ℕ Ranges)
    → IsSorted (x ∷ m)
    → let l : ℕ × Ranges = last_entry x m in rounds (cut (x ∷ m) l.0 l.1) < rounds (x ∷ m)
unfolding keep_of
cut-rounds x m s =
    let l : ℕ × Ranges = last_entry x m in
    elim (Bool-cases (keep_of l.1 == 0)) [
      | inl gone ↦ rw gone (rounds-remove x m s)
      | inr kept ↦ rw kept (
          rounds-insert x m (take (keep_of l.1) l.1) s
            (ground (arith, length-take (keep_of l.1) l.1)))
    ]

cut-IsSorted :
    (run : BtreeMap ℕ Ranges) (a : ℕ) (b : Ranges) → IsSorted run → IsSorted (cut run a b)
cut-IsSorted run a b s =
    ground (arith, remove-IsSorted run a s, insert-IsSorted run a (take (keep_of b) b) s)

pub extend-IsSorted : (m : BtreeMap ℕ Ranges) (run : Run) → IsSorted m → IsSorted (extend m run)
unfolding extend
extend-IsSorted m [] s = s
extend-IsSorted m ((a, r) ∷ run) s =
    extend-IsSorted (BtreeMap.insert m a r) run (insert-IsSorted m a r s)

-- A property of authors and their ranges that a cut of the ranges keeps, and that says they are valid.
module _ (P : ℕ → Ranges → Type 0) (keeps : (a : ℕ) (b : Ranges) → P a b → P a (take (keep_of b) b))
    (valid : (a : ℕ) (b : Ranges) → P a b → Ranges.IsValid b) where
  cut-AllEntries :
      (run : BtreeMap ℕ Ranges) (a : ℕ) (b : Ranges)
      → AllEntries P run
      → P a b
      → AllEntries P (cut run a b)
  cut-AllEntries run a b v w = elim (Bool-cases (keep_of b == 0)) [
    | inl gone ↦ rw gone (AllEntries-remove P run a v)
    | inr kept ↦ rw kept (AllEntries-insert P run a (take (keep_of b) b) (keeps a b w) v)
  ]

  -- The run fits or is empty, and has the property.
  abbrev pub Ends : (BtreeMap ℕ Ranges → Bool) → Shrunk → Type 0
  Ends fits s = ((s.run ≡ []) ⊎ (fits s.run ≡ true)) × AllEntries P s.run

  -- With fuel for its rounds, the loop ends with nothing left or with a run that fits.
  shrink-Returns :
      (fits : BtreeMap ℕ Ranges → Bool) (fuel : ℕ) (run : BtreeMap ℕ Ranges) (touched : List ℕ)
      → IsSorted run
      → rounds run ≤ fuel
      → AllEntries P run
      → Returns (Ends fits) (shrink fits fuel run touched)
  unfolding shrink rounds
  shrink-Returns fits fuel [] touched s h v = (inl refl, tt)
  shrink-Returns fits zero ((a, r) ∷ run) touched s h v = absurd (omega arith)
  shrink-Returns fits (suc fuel) (x ∷ run) touched s h v = elim (Bool-cases (fits (x ∷ run))) [
    | inl fit ↦ rw (fit, shrink) (inr fit, v)
    | inr over ↦
        let l : ℕ × Ranges = last_entry x run in
        let w : P l.0 l.1 = AllEntries-last P x run v in
        rw (over, shrink, shrink_one-cut (x ∷ run) l.0 l.1 (valid l.0 l.1 w))
          (shrink-Returns fits fuel (cut (x ∷ run) l.0 l.1) (BtreeMap.set_insert touched l.0)
            (cut-IsSorted (x ∷ run) l.0 l.1 s) (ground (arith, cut-rounds x run s))
            (cut-AllEntries (x ∷ run) l.0 l.1 v w))
  ]

  pub shrink_run-Returns :
      (fits : BtreeMap ℕ Ranges → Bool) (run : Run)
      → AllEntries P run
      → Returns (Ends fits) (shrink fits (rounds (extend [] run)) (extend [] run) [])
  shrink_run-Returns fits run v =
      let whole : BtreeMap ℕ Ranges = extend [] run in
      shrink-Returns fits (rounds whole) whole [] (extend-IsSorted [] run tt) (omega arith)
        (AllEntries-extend P [] run tt v)

abbrev pub HasValidRanges : ℕ → Ranges → Type 0
HasValidRanges a r = Ranges.IsValid r

-- A run whose ranges are valid is shrunk without a panic, until nothing is left of it or it fits; the
-- ranges left are valid.
pub shrink-ends :
    (fits : BtreeMap ℕ Ranges → Bool) (run : Run)
    → AllEntries HasValidRanges run
    → Returns
        (λ s. ((s.run ≡ []) ⊎ (fits s.run ≡ true)) × AllEntries HasValidRanges s.run)
        (shrink fits (rounds (extend [] run)) (extend [] run) [])
shrink-ends fits run =
    shrink_run-Returns HasValidRanges (λ a b v. take-IsFrom 0 (keep_of b) b v) (λ a b v. v) fits run
