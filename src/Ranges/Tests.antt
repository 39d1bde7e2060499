-- ===== src/Ranges/Tests.antt =====
-- Runs of ranges.rs on the inputs of its own tests, and instances of the theorems.
use dash_router.Base.{ℕ, ◌≡◌, ◌≤◌, ◌||◌, ◌&&◌, not, some, List, [], ◌∷◌, refl, arith, elem, odd}
use dash_router.Ranges.{
  Ranges, IsValid, full, contains, union, difference, complement, combine, sweep, from_seqs, iter,
  last, seq_max,
}
use dash_router.Ranges.Combine.{contains-combine, combine-IsValid}
use dash_router.Ranges.Canonical.{eq_of_contains, union_comm}
use dash_router.Ranges.FromSeqs.{AreSeqs, contains-from_seqs}

-- 0, 1, 2 and 5.
abbrev held : Ranges
held = 0 ∷ 3 ∷ 5 ∷ 6 ∷ []

held-IsValid : IsValid held
held-IsValid = omega arith

abbrev tail : Ranges
tail = 10 ∷ []

tail-IsValid : IsValid tail
tail-IsValid = omega arith

complement_held : complement held ≡ 3 ∷ 5 ∷ 6 ∷ []
unfolding complement difference combine sweep full odd
complement_held = refl

adjacent_coalesce : union (0 ∷ 3 ∷ []) (3 ∷ 5 ∷ []) ≡ 0 ∷ 5 ∷ []
unfolding union combine sweep odd
adjacent_coalesce = refl

from_seqs_run : from_seqs (5 ∷ 2 ∷ 0 ∷ 1 ∷ 7 ∷ 6 ∷ 2 ∷ []) ≡ 0 ∷ 3 ∷ 5 ∷ 8 ∷ []
unfolding from_seqs odd
from_seqs_run = refl

from_seqs_top : from_seqs (4294967294 ∷ 4294967295 ∷ []) ≡ 4294967294 ∷ []
unfolding from_seqs odd
from_seqs_top = refl

iter_run : iter (0 ∷ 3 ∷ 7 ∷ 9 ∷ []) ≡ 0 ∷ 1 ∷ 2 ∷ 7 ∷ 8 ∷ []
unfolding iter
iter_run = refl

last_run : last held ≡ some 5
unfolding last odd
last_run = refl

contains-combine_example :
    contains (combine (λ a b. a && not b) held tail) 5 ≡ (contains held 5 && not (contains tail 5))
contains-combine_example =
    contains-combine (λ a b. a && not b) held tail 5 held-IsValid tail-IsValid refl

combine-IsValid_example : IsValid (combine (λ a b. a || b) held tail)
combine-IsValid_example = combine-IsValid (λ a b. a || b) held tail held-IsValid tail-IsValid

same_members : (s : ℕ) → s ≤ seq_max → contains (union held tail) s ≡ contains (union tail held) s
same_members s h = rw (union_comm held tail held-IsValid tail-IsValid)

eq_of_contains_example : held ≡ 0 ∷ 3 ∷ 5 ∷ 6 ∷ []
eq_of_contains_example = eq_of_contains held held held-IsValid held-IsValid (λ s h. refl)

abbrev seqs : List ℕ
seqs = 5 ∷ 2 ∷ 0 ∷ 4294967295 ∷ []

seqs-AreSeqs : AreSeqs seqs
seqs-AreSeqs = omega arith

contains-from_seqs_example : contains (from_seqs seqs) 2 ≡ elem 2 seqs
contains-from_seqs_example = contains-from_seqs seqs seqs-AreSeqs 2 (omega arith)
