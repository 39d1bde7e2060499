-- ===== src/Node/Collected.antt =====
-- node.rs and shell.rs: the ranges of the numbers collected by log.
use dash_router.Base.{
  ℕ, ◌≤◌, ◌≡◌, ◌≢◌, true, Option, none, some, List, [], ◌∷◌, refl, ap, ◌∙◌, arith, elem,
  Option-cases, inl, inr, ◌==◌, ◌||◌, ◌&&◌, ◌++◌, Bool-cases,
}
use dash_router.Base.Order.{same}
use dash_router.BtreeMap
use dash_router.BtreeMap.{BtreeMap, IsSorted, Above, AllValues}
use dash_router.BtreeMap.Laws.{AllValues-get, get-insert}
use dash_router.Log.{Log, log_ord}
use dash_router.Ranges
use dash_router.Ranges.{seq_max}
use dash_router.Ranges.FromSeqs.{AreSeqs, contains-from_seqs}
use dash_router.LogRanges
use dash_router.LogRanges.Lookup.{get-from_pairs}
use dash_router.LogRanges.Sets.{has, contains-has}
use dash_router.Node.{from_seqs_each, pushed_to}

-- The numbers collected for a log.
abbrev pub seqs_at : BtreeMap Log (List ℕ) → Log → List ℕ
seqs_at m l = elim (BtreeMap.get m l) [ none ↦ [] | some seqs ↦ seqs ]

from_seqs_each-Above :
    (l : Log) (m : BtreeMap Log (List ℕ)) → Above l m → Above l (from_seqs_each m)
unfolding from_seqs_each
from_seqs_each-Above l [] a = tt
from_seqs_each-Above l ((k, seqs) ∷ m) a = (a.0, from_seqs_each-Above k m a.1)

from_seqs_each-IsSorted : (m : BtreeMap Log (List ℕ)) → IsSorted m → IsSorted (from_seqs_each m)
unfolding from_seqs_each
from_seqs_each-IsSorted [] s = tt
from_seqs_each-IsSorted ((k, seqs) ∷ m) s = from_seqs_each-Above k m s

get-from_seqs_each :
    (m : BtreeMap Log (List ℕ)) (l : Log)
    → BtreeMap.get (from_seqs_each m) l
      ≡ elim (BtreeMap.get m l) [ none ↦ none | some seqs ↦ some (Ranges.from_seqs seqs) ]
unfolding from_seqs_each BtreeMap.get
get-from_seqs_each [] l = refl
get-from_seqs_each ((k, seqs) ∷ m) l = ground (arith, get-from_seqs_each m l)

-- The map of what was collected has exactly that.
pub contains-collected :
    (m : BtreeMap Log (List ℕ)) (l : Log) (q : ℕ)
    → IsSorted m
    → AllValues AreSeqs m
    → q ≤ seq_max
    → LogRanges.contains (LogRanges.from_pairs (from_seqs_each m)) l q ≡ elem q (seqs_at m l)
contains-collected m l q s v h =
    contains-has (LogRanges.from_pairs (from_seqs_each m)) l q
    ∙ ap (λ o. has o q)
        (get-from_pairs (from_seqs_each m) l (from_seqs_each-IsSorted m s) ∙ get-from_seqs_each m l)
    ∙ elim (Option-cases (BtreeMap.get m l)) [
      | inl none' ↦ rw (none', seqs_at) refl
      | inr (seqs, some') ↦
          rw (some', seqs_at) (contains-from_seqs seqs (AllValues-get AreSeqs m l seqs v some') q h)
    ]

pub nothing_collected : (l : Log) (q : ℕ) → elem q (seqs_at [] l) ≢ true
unfolding BtreeMap.get
nothing_collected l q = cc

-- One number more for a log.
pub elem-pushed_to :
    (o : Option (List ℕ)) (p q : ℕ)
    → elem p (pushed_to o q) ≡ (elem p (elim o [ none ↦ [] | some seqs ↦ seqs ]) || (p == q))
elem-pushed_to none p q = ground arith
elem-pushed_to (some []) p q = ground arith
elem-pushed_to (some (x ∷ seqs)) p q = ground (arith, elem-pushed_to (some seqs) p q)

AreSeqs-append : (seqs : List ℕ) (q : ℕ) → q ≤ seq_max → AreSeqs seqs → AreSeqs (seqs ++ q ∷ [])
AreSeqs-append [] q h v = (h, tt)
AreSeqs-append (x ∷ seqs) q h v = (v.0, AreSeqs-append seqs q h v.1)

pub pushed_to-AreSeqs :
    (m : BtreeMap Log (List ℕ)) (l : Log) (q : ℕ)
    → q ≤ seq_max
    → AllValues AreSeqs m
    → AreSeqs (pushed_to (BtreeMap.get m l) q)
pushed_to-AreSeqs m l q h v = elim (Option-cases (BtreeMap.get m l)) [
  | inl none' ↦ rw (none', pushed_to) (h, tt)
  | inr (seqs, some') ↦
      rw (some', pushed_to) (AreSeqs-append seqs q h (AllValues-get AreSeqs m l seqs v some'))
]

pub elem-seqs_at-insert :
    (m : BtreeMap Log (List ℕ)) (l k : Log) (q p : ℕ)
    → elem p (seqs_at (BtreeMap.insert m l (pushed_to (BtreeMap.get m l) q)) k)
      ≡ (elem p (seqs_at m k) || (same k l && (p == q)))
elem-seqs_at-insert m l k q p = elim (Bool-cases (same k l)) [
  | inl here ↦
      let at_l : k ≡ l = log_ord.eq_of_cmp k l (ground arith) in
      rw (get-insert m l k (pushed_to (BtreeMap.get m l) q), here, seqs_at)
        (elem-pushed_to (BtreeMap.get m l) p q ∙ rw at_l (ground arith))
  | inr other ↦
      rw (get-insert m l k (pushed_to (BtreeMap.get m l) q), other, seqs_at) (ground arith)
]
