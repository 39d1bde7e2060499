-- ===== src/LogRanges/Sets.antt =====
-- The set operations of `LogRanges`, log by log and number by number.
use dash_router.Base.{
  ℕ, ◌≡◌, Bool, true, false, not, ◌&&◌, ◌||◌, Option, none, some, refl, arith, ap, ◌∙◌,
  Option-cases, Bool-cases, inl, inr,
}
use dash_router.Base.Order.{nat_ord}
use dash_router.BtreeMap
use dash_router.BtreeMap.{BtreeMap, IsSorted, AllValues, upsert}
use dash_router.BtreeMap.Loops.{Holds, get-Holds, get-upsert}
use dash_router.Log.{Log}
use dash_router.Ranges
use dash_router.Ranges.{Ranges}
use dash_router.Ranges.Sets.{
  contains-union, contains-intersection, contains-difference, is_empty-contains,
}
use dash_router.LogRanges.{
  LogRanges, IsChannel, IsValid, empty, get, contains, or_default, iter, merge_ranges,
  merge_authors, union, intersection, difference, common, rest_of, nonempty,
}
use dash_router.LogRanges.Lookup.{get-collect, get-iter, iter-IsSorted, get-empty}
use dash_router.LogRanges.Shape.{get-Holds_log}

get-or_default :
    (o : Option (BtreeMap ℕ Ranges)) (a : ℕ)
    → BtreeMap.get (or_default o) a ≡ elim o [ none ↦ none | some authors ↦ BtreeMap.get authors a ]
unfolding BtreeMap.get
get-or_default none a = refl
get-or_default (some authors) a = refl

get-merge_authors :
    (mine : Option (BtreeMap ℕ Ranges)) (theirs : BtreeMap ℕ Ranges) (a : ℕ)
    → IsSorted theirs
    → BtreeMap.get (merge_authors mine theirs) a ≡ elim (BtreeMap.get theirs a) [
      | none ↦ BtreeMap.get (or_default mine) a
      | some r ↦ some (merge_ranges (BtreeMap.get (or_default mine) a) r)
    ]
unfolding merge_authors
get-merge_authors mine theirs a s = get-upsert merge_ranges (or_default mine) theirs a s

abbrev in_channel : Option (BtreeMap ℕ Ranges) → ℕ → Option Ranges
in_channel none a = none
in_channel (some authors) a = BtreeMap.get authors a

get-in : (m : LogRanges) (l : Log) → get m l ≡ in_channel (BtreeMap.get m l.channel) l.author
unfolding get
get-in m l = ground arith

in_channel-merged :
    (mine theirs : Option (BtreeMap ℕ Ranges)) (a : ℕ)
    → Holds IsChannel theirs
    → in_channel (elim theirs [ none ↦ mine | some v ↦ some (merge_authors mine v) ]) a
      ≡ elim (in_channel theirs a) [
        | none ↦ in_channel mine a
        | some r ↦ some (merge_ranges (in_channel mine a) r)
      ]
in_channel-merged mine none a h = refl
in_channel-merged none (some v) a h =
    get-merge_authors none v a h.sorted ∙ ground (arith, get-or_default none a)
in_channel-merged (some m) (some v) a h = get-merge_authors (some m) v a h.sorted

module _ (m o : LogRanges) (vm : IsValid m) (vo : IsValid o) (l : Log) where
  get-union :
      get (union m o) l
      ≡ elim (get o l) [ none ↦ get m l | some r ↦ some (merge_ranges (get m l) r) ]
  unfolding union
  get-union =
      get-in (upsert merge_authors m o) l
      ∙ ap (λ x. in_channel x l.author) (get-upsert merge_authors m o l.channel vo.sorted)
      ∙ in_channel-merged (BtreeMap.get m l.channel) (BtreeMap.get o l.channel) l.author
          (get-Holds IsChannel o l.channel vo.channels)
      ∙ ground (arith, get-in m l, get-in o l)

  get-intersection :
      get (intersection m o) l ≡ elim (get m l) [ none ↦ none | some r ↦ common o l r ]
  unfolding intersection
  get-intersection =
      get-collect (common o) empty (iter m) l (iter-IsSorted m vm)
      ∙ ground (arith, get-iter m l vm, get-empty l)

  get-difference : get (difference m o) l ≡ elim (get m l) [ none ↦ none | some r ↦ rest_of o l r ]
  unfolding difference
  get-difference =
      get-collect (rest_of o) empty (iter m) l (iter-IsSorted m vm)
      ∙ ground (arith, get-iter m l vm, get-empty l)

-- Whether the ranges of a log, if it is known, contain a number.
abbrev pub has : Option Ranges → ℕ → Bool
has none s = false
has (some r) s = Ranges.contains r s

pub contains-has : (m : LogRanges) (l : Log) (s : ℕ) → contains m l s ≡ has (get m l) s
unfolding contains
contains-has m l s = ground arith

has-merged :
    (w x : Option Ranges) (s : ℕ)
    → Holds Ranges.IsValid w
    → Holds Ranges.IsValid x
    → has (elim x [ none ↦ w | some r ↦ some (merge_ranges w r) ]) s ≡ (has w s || has x s)
unfolding merge_ranges
has-merged none none s h k = refl
has-merged (some m) none s h k = ground arith
has-merged none (some r) s h k = refl
has-merged (some m) (some r) s h k = contains-union m r h k s

pub has-nonempty : (r : Ranges) (s : ℕ) → has (nonempty r) s ≡ Ranges.contains r s
unfolding nonempty
has-nonempty r s = ground (arith, is_empty-contains r s)

has-common :
    (o : LogRanges) (w x : Option Ranges) (l : Log) (s : ℕ)
    → get o l ≡ x
    → Holds Ranges.IsValid w
    → Holds Ranges.IsValid x
    → has (elim w [ none ↦ none | some r ↦ common o l r ]) s ≡ (has w s && has x s)
unfolding common
has-common o none x l s e h k = refl
has-common o (some r) none l s e h k = rw (e, common) (ground arith)
has-common o (some r) (some t) l s e h k =
    rw (e, common) (has-nonempty (Ranges.intersection r t) s ∙ contains-intersection r t h k s)

has-rest_of :
    (o : LogRanges) (w x : Option Ranges) (l : Log) (s : ℕ)
    → get o l ≡ x
    → Holds Ranges.IsValid w
    → Holds Ranges.IsValid x
    → has (elim w [ none ↦ none | some r ↦ rest_of o l r ]) s ≡ (has w s && not (has x s))
unfolding rest_of
has-rest_of o none x l s e h k = refl
has-rest_of o (some r) none l s e h k = rw (e, rest_of) (has-nonempty r s ∙ ground arith)
has-rest_of o (some r) (some t) l s e h k =
    rw (e, rest_of) (has-nonempty (Ranges.difference r t) s ∙ contains-difference r t h k s)

module _ (m o : LogRanges) (vm : IsValid m) (vo : IsValid o) (l : Log) (s : ℕ) where
  -- The union of two valid maps has a number of a log exactly when one of them has it.
  pub contains-union_log : contains (union m o) l s ≡ (contains m l s || contains o l s)
  contains-union_log =
      rw
        (
          contains-has (union m o) l s,
          contains-has m l s,
          contains-has o l s,
          get-union m o vm vo l,
        )
        (has-merged (get m l) (get o l) s (get-Holds_log m l vm) (get-Holds_log o l vo))

  -- The intersection of two valid maps has a number of a log exactly when both have it.
  pub contains-intersection_log :
      contains (intersection m o) l s ≡ (contains m l s && contains o l s)
  contains-intersection_log =
      rw
        (
          contains-has (intersection m o) l s,
          contains-has m l s,
          contains-has o l s,
          get-intersection m o vm vo l,
        )
        (has-common o (get m l) (get o l) l s refl (get-Holds_log m l vm) (get-Holds_log o l vo))

  -- The difference of two valid maps has a number of a log exactly when the first has it and
  -- the second does not.
  pub contains-difference_log :
      contains (difference m o) l s ≡ (contains m l s && not (contains o l s))
  contains-difference_log =
      rw
        (
          contains-has (difference m o) l s,
          contains-has m l s,
          contains-has o l s,
          get-difference m o vm vo l,
        )
        (has-rest_of o (get m l) (get o l) l s refl (get-Holds_log m l vm) (get-Holds_log o l vo))

-- Whether a log is known, and whether it is known with something in it.
abbrev pub is_known : LogRanges → Log → Bool
is_known m l = elim (get m l) [ none ↦ false | some _ ↦ true ]

abbrev pub IsDropped : Option Ranges → Type 0
IsDropped none = Unit {0}
IsDropped (some r) = Ranges.is_empty r ≡ false

nonempty-IsDropped : (r : Ranges) → IsDropped (nonempty r)
unfolding nonempty
nonempty-IsDropped r = elim (Bool-cases (Ranges.is_empty r)) [ inl e ↦ rw e tt | inr e ↦ rw e e ]

common-IsDropped : (o : LogRanges) (l : Log) (r : Ranges) → IsDropped (common o l r)
unfolding common
common-IsDropped o l r = elim (Option-cases (get o l)) [
  | inl e ↦ rw (e, common) tt
  | inr (t, e) ↦ rw (e, common) (nonempty-IsDropped (Ranges.intersection r t))
]

rest_of-IsDropped : (o : LogRanges) (l : Log) (r : Ranges) → IsDropped (rest_of o l r)
unfolding rest_of
rest_of-IsDropped o l r =
    nonempty-IsDropped (elim (get o l) [ none ↦ r | some theirs ↦ Ranges.difference r theirs ])

-- Of two valid maps, the union knows a log exactly when one of them does, whatever its ranges;
-- the intersection and the difference have no log with an empty value.
pub markers :
    (m o : LogRanges) (l : Log)
    → IsValid m
    → IsValid o
    → (is_known (union m o) l ≡ (is_known m l || is_known o l))
      × IsDropped (get (intersection m o) l)
      × IsDropped (get (difference m o) l)
markers m o l vm vo = (
  rw (get-union m o vm vo l, is_known) (ground arith),
  rw (get-intersection m o vm vo l) (elim (Option-cases (get m l)) [
    | inl e ↦ rw e tt
    | inr (r, e) ↦ rw e (common-IsDropped o l r)
  ]),
  rw (get-difference m o vm vo l) (elim (Option-cases (get m l)) [
    | inl e ↦ rw e tt
    | inr (r, e) ↦ rw e (rest_of-IsDropped o l r)
  ]),
)
