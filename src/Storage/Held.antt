-- ===== src/Storage/Held.antt =====
-- What a store reports to hold, and what it hands out, against what it has.
use mathlib.Core.Path.{ap₂}
use dash_router.Base.{
  ℕ, ◌≤◌, ◌≡◌, Bool, true, false, ◌&&◌, Option, none, some, List, [], ◌∷◌, ◌++◌, refl, arith, ap,
  ◌∙◌, ◌==◌, elem, Option-cases, inl, inr, if◌then◌else◌,
}
use dash_router.Base.Order.{nat_ord, same}
use dash_router.BtreeMap
use dash_router.BtreeMap.{BtreeMap, IsSorted, Above, AllValues}
use dash_router.BtreeMap.Loops.{Holds}
use dash_router.BtreeMap.Laws.{get-Above, Above-weaken, IsSorted_of_Above, AllValues-get}
use dash_router.BtreeMap.Keys.{elem-keys}
use dash_router.Log.{Log, log_ord}
use dash_router.Ranges
use dash_router.Ranges.{Ranges, seq_max}
use dash_router.Ranges.FromSeqs.{AreSeqs, contains-from_seqs, from_seqs-IsValid}
use dash_router.LogRanges
use dash_router.LogRanges.{LogRanges}
use dash_router.LogRanges.Lookup.{get-collect, get-empty, get-iter, iter-IsSorted}
use dash_router.LogRanges.Shape.{collect-IsValid, empty-IsValid, Inserts}
use dash_router.LogRanges.Sets.{has, contains-has}
use dash_router.Storage.{
  Op, Ops, OpsMap, get, seqs_of, held_one, held_all, fetch_log, fetch_loop, fetch,
}
use dash_router.Storage.Evict.{IsOrdered}

-- A store whose sequence numbers are `u32`s.
pub record IsStore (m : OpsMap) : Type 0 where
  pub ordered : IsOrdered m
  pub seqs : AllValues (λ ops. AreSeqs (BtreeMap.keys ops)) m

abbrev pub is_some {ℓ} : {A : Type ℓ} → Option A → Bool
is_some none = false
is_some (some _) = true

held_one-Holds :
    (l : Log) (ops : Ops) → AreSeqs (BtreeMap.keys ops) → Holds Ranges.IsValid (held_one l ops)
unfolding held_one seqs_of
held_one-Holds l [] v = tt
held_one-Holds l (x ∷ ops) v = from_seqs-IsValid (BtreeMap.keys (x ∷ ops)) v

has-held_one :
    (l : Log) (ops : Ops) (s : ℕ)
    → s ≤ seq_max
    → AreSeqs (BtreeMap.keys ops)
    → has (held_one l ops) s ≡ elem s (BtreeMap.keys ops)
unfolding held_one seqs_of
has-held_one l [] s h v = unfold BtreeMap.keys in refl
has-held_one l (x ∷ ops) s h v = contains-from_seqs (BtreeMap.keys (x ∷ ops)) v s h

held_all-Inserts :
    (m : OpsMap) → AllValues (λ ops. AreSeqs (BtreeMap.keys ops)) m → Inserts held_one m
held_all-Inserts [] v = tt
held_all-Inserts ((l, ops) ∷ m) v = (held_one-Holds l ops v.0, held_all-Inserts m v.1)

-- The snapshot of a store in order, with `u32` numbers, is a valid map of ranges.
pub held_all-IsValid : (m : OpsMap) → IsStore m → LogRanges.IsValid (held_all m)
unfolding held_all
held_all-IsValid m v =
    collect-IsValid held_one LogRanges.empty m empty-IsValid (held_all-Inserts m v.seqs)

-- The snapshot of a store in order has a `u32` number of a log exactly when the store has an
-- op there.
pub contains-held_all :
    (m : OpsMap) (l : Log) (s : ℕ)
    → IsStore m
    → s ≤ seq_max
    → LogRanges.contains (held_all m) l s ≡ is_some (get m l s)
contains-held_all m l s v h =
    contains-has (held_all m) l s ∙ ap (λ o. has o s) found ∙ go (BtreeMap.get m l) refl
  where
    found : LogRanges.get (held_all m) l ≡ elim (BtreeMap.get m l) [
      | none ↦ none
      | some ops ↦ elim (held_one l ops) [ none ↦ none | some r ↦ some r ]
    ]
    found =
        unfold held_all in
        get-collect held_one LogRanges.empty m l v.ordered.sorted ∙ ground (arith, get-empty l)

    go :
        (o : Option Ops)
        → BtreeMap.get m l ≡ o
        → has
            (elim o [
              | none ↦ none
              | some ops ↦ elim (held_one l ops) [ none ↦ none | some r ↦ some r ]
            ])
            s
          ≡ is_some (get m l s)
    go none e = unfold get BtreeMap.get in rw e
    go (some ops) e =
        unfold get in
        ground (
          arith,
          has-held_one l ops s h (AllValues-get (λ o. AreSeqs (BtreeMap.keys o)) m l ops v.seqs e),
          elem-keys ops s (AllValues-get IsSorted m l ops v.ordered.logs e),
        )

-- The op that a list has for a log and a number.
abbrev pub find : List (Log × ℕ × Op) → Log → ℕ → Option Op
find [] l s = none
find ((k, q, op) ∷ ops) l s = if same l k && (s == q) then some op else find ops l s

or_else : Option Op → Option Op → Option Op
or_else none b = b
or_else (some a) b = some a

find-append :
    (xs ys : List (Log × ℕ × Op)) (l : Log) (s : ℕ)
    → find (xs ++ ys) l s ≡ or_else (find xs l s) (find ys l s)
unfolding or_else
find-append [] ys l s = refl
find-append ((k, q, op) ∷ xs) ys l s = ground (arith, find-append xs ys l s)

find-fetch_log :
    (k l : Log) (r : Ranges) (ops : Ops) (s : ℕ)
    → IsSorted ops
    → find (fetch_log k r ops) l s
      ≡ (if same l k && Ranges.contains r s then BtreeMap.get ops s else none)
unfolding fetch_log BtreeMap.get
find-fetch_log k l r [] s o = ground arith
find-fetch_log k l r ((q, op) ∷ ops) s o = ground (
  arith,
  find-fetch_log k l r ops s (IsSorted_of_Above q ops o),
  get-Above ops s,
  Above-weaken s q ops,
)

fetch_one : OpsMap → Log → Ranges → List (Log × ℕ × Op)
fetch_one m k r = elim (BtreeMap.get m k) [ none ↦ [] | some ops ↦ fetch_log k r ops ]

fetch_loop-cons :
    (m : OpsMap) (k : Log) (r : Ranges) (ps : List (Log × Ranges))
    → fetch_loop m ((k, r) ∷ ps) ≡ fetch_one m k r ++ fetch_loop m ps
unfolding fetch_loop fetch_one
fetch_loop-cons m k r ps = refl

find-fetch_one :
    (m : OpsMap) (k l : Log) (r : Ranges) (s : ℕ)
    → IsOrdered m
    → find (fetch_one m k r) l s ≡ (if same l k && Ranges.contains r s then get m l s else none)
unfolding fetch_one get
find-fetch_one m k l r s o = elim (Option-cases (BtreeMap.get m k)) [
  | inl e ↦ rw (e, fetch_one) (ground (arith, log_ord.eq_of_cmp l k, get-Above {V = Op} [] s tt))
  | inr (ops, e) ↦
      rw (e, fetch_one)
        (ground (
          arith,
          log_ord.eq_of_cmp l k,
          find-fetch_log k l r ops s (AllValues-get IsSorted m k ops o.logs e),
        ))
]

join_lem :
    (m : OpsMap) (k l : Log) (r : Ranges) (ps : List (Log × Ranges)) (s : ℕ)
    → Above k ps
    → or_else
        (if same l k && Ranges.contains r s then get m l s else none)
        (if has (BtreeMap.get ps l) s then get m l s else none)
      ≡ (if has (BtreeMap.get ((k, r) ∷ ps) l) s then get m l s else none)
unfolding or_else BtreeMap.get
join_lem m k l r ps s a = ground (arith, get-Above ps l, Above-weaken l k ps, log_ord.eq_of_cmp l k)

find-fetch_loop :
    (m : OpsMap) (ps : List (Log × Ranges)) (l : Log) (s : ℕ)
    → IsOrdered m
    → IsSorted ps
    → find (fetch_loop m ps) l s ≡ (if has (BtreeMap.get ps l) s then get m l s else none)
find-fetch_loop m [] l s o i = unfold fetch_loop BtreeMap.get in refl
find-fetch_loop m ((k, r) ∷ ps) l s o i =
    ap (λ ops. find ops l s) (fetch_loop-cons m k r ps)
    ∙ find-append (fetch_one m k r) (fetch_loop m ps) l s
    ∙ ap₂ or_else (find-fetch_one m k l r s o)
        (find-fetch_loop m ps l s o (IsSorted_of_Above k ps i))
    ∙ join_lem m k l r ps s i

-- From a store in order, fetching valid ranges hands out, for each log and number in the
-- ranges, the op that the store has there, and nothing outside the ranges.
pub find-fetch :
    (m : OpsMap) (ranges : LogRanges) (l : Log) (s : ℕ)
    → IsOrdered m
    → LogRanges.IsValid ranges
    → find (fetch m ranges) l s ≡ (if LogRanges.contains ranges l s then get m l s else none)
unfolding fetch
find-fetch m ranges l s o v =
    find-fetch_loop m (LogRanges.iter ranges) l s o (iter-IsSorted ranges v)
    ∙ rw (get-iter ranges l v, contains-has ranges l s)
