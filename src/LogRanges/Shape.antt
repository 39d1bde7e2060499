-- ===== src/LogRanges/Shape.antt =====
-- The invariant of `LogRanges`: every operation keeps each channel non-empty and all in order.
use mathlib.Core.List.{append-nil}
use dash_router.Base.{
  ℕ, ◌≡◌, ◌≢◌, Option, none, some, List, [], ◌∷◌, refl, arith, Option-cases, Bool-cases, inl, inr,
  ◌++◌,
}
use dash_router.Base.Order.{nat_ord}
use dash_router.BtreeMap
use dash_router.BtreeMap.{BtreeMap, IsSorted, AllValues, upsert}
use dash_router.BtreeMap.Laws.{
  insert-IsSorted, remove-IsSorted, AllValues-insert, AllValues-remove, AllValues-get,
}
use dash_router.BtreeMap.Loops.{Holds, get-Holds, upsert-IsSorted, AllValues-upsert}
use dash_router.Log.{Log}
use dash_router.Ranges
use dash_router.Ranges.{Ranges}
use dash_router.Ranges.Sets.{union-IsValid, intersection-IsValid, difference-IsValid}
use dash_router.LogRanges.{
  LogRanges, IsChannel, IsValid, empty, get, insert, remove, or_default, collect, from_pairs, iter,
  tag, channel, merge_ranges, merge_authors, union, intersection, difference, common, rest_of,
  nonempty,
}

insert-ne-nil {ℓ} : {V : Type ℓ} (m : BtreeMap ℕ V) (k : ℕ) (v : V) → BtreeMap.insert m k v ≢ []
unfolding BtreeMap.insert
insert-ne-nil [] k v e = cc
insert-ne-nil ((j, w) ∷ m) k v e = ground arith

-- An author map that may be empty yet.
record IsAuthors (authors : BtreeMap ℕ Ranges) : Type 0 where
  sorted : IsSorted authors
  ranges : AllValues Ranges.IsValid authors

or_default-IsAuthors :
    (o : Option (BtreeMap ℕ Ranges)) → Holds IsChannel o → IsAuthors (or_default o)
or_default-IsAuthors none h = record { sorted = tt; ranges = tt }
or_default-IsAuthors (some authors) h = record { sorted = h.sorted; ranges = h.ranges }

pub empty-IsValid : IsValid empty
unfolding empty
empty-IsValid = record { sorted = tt; channels = tt }

pub insert-IsValid :
    (m : LogRanges) (l : Log) (r : Ranges) → IsValid m → Ranges.IsValid r → IsValid (insert m l r)
unfolding insert
insert-IsValid m l r v h =
    let o : Option (BtreeMap ℕ Ranges) = BtreeMap.get m l.channel in
    let old : IsAuthors (or_default o) =
      or_default-IsAuthors o (get-Holds IsChannel m l.channel v.channels) in
    record {
      sorted = insert-IsSorted m l.channel _ v.sorted;
      channels =
          AllValues-insert IsChannel m l.channel (BtreeMap.insert (or_default o) l.author r)
            (record {
              sorted = insert-IsSorted (or_default o) l.author r old.sorted;
              nonempty = insert-ne-nil (or_default o) l.author r;
              ranges = AllValues-insert Ranges.IsValid (or_default o) l.author r h old.ranges;
            })
            v.channels;
    }

-- Every value that a loop inserts is valid.
abbrev pub Inserts {ℓ} : {V : Type ℓ} → (Log → V → Option Ranges) → List (Log × V) → Type 0
Inserts h [] = Unit
Inserts h ((l, v) ∷ ps) = Holds Ranges.IsValid (h l v) × Inserts h ps

pub collect-IsValid {ℓ} :
    {V : Type ℓ} (h : Log → V → Option Ranges) (out : LogRanges) (ps : List (Log × V))
    → IsValid out
    → Inserts h ps
    → IsValid (collect h out ps)
unfolding collect
collect-IsValid h out [] v i = v
collect-IsValid h out ((l, w) ∷ ps) v i =
    collect-IsValid h (elim (h l w) [ none ↦ out | some r ↦ insert out l r ]) ps (one (h l w) i.0)
      i.1
  where
    one :
        (o : Option Ranges)
        → Holds Ranges.IsValid o
        → IsValid (elim o [ none ↦ out | some r ↦ insert out l r ])
    one none g = v
    one (some r) g = insert-IsValid out l r v g

pub get-Holds_log : (m : LogRanges) (l : Log) → IsValid m → Holds Ranges.IsValid (get m l)
unfolding get
get-Holds_log m l v = elim (Option-cases (BtreeMap.get m l.channel)) [
  | inl e ↦ rw (e, get) tt
  | inr (authors, e) ↦
      rw (e, get)
        (get-Holds Ranges.IsValid authors l.author
          (AllValues-get IsChannel m l.channel authors v.channels e).ranges)
]

-- The ranges of a listing are valid.
AllValues-tag :
    (c : ℕ) (authors : BtreeMap ℕ Ranges) (ps : List (Log × Ranges))
    → AllValues Ranges.IsValid authors
    → AllValues Ranges.IsValid ps
    → AllValues Ranges.IsValid (tag c authors ++ ps)
unfolding tag
AllValues-tag c [] ps a b = b
AllValues-tag c ((k, r) ∷ authors) ps a b = (a.0, AllValues-tag c authors ps a.1 b)

AllValues-iter_lem : (m : LogRanges) → AllValues IsChannel m → AllValues Ranges.IsValid (iter m)
unfolding iter
AllValues-iter_lem [] a = tt
AllValues-iter_lem ((c, authors) ∷ m) a =
    AllValues-tag c authors (iter m) a.0.ranges (AllValues-iter_lem m a.1)

pub AllValues-iter : (m : LogRanges) → IsValid m → AllValues Ranges.IsValid (iter m)
AllValues-iter m v = AllValues-iter_lem m v.channels

pub Inserts-each :
    (h : Log → Ranges → Option Ranges)
    → ((l : Log) (r : Ranges) → Ranges.IsValid r → Holds Ranges.IsValid (h l r))
    → (ps : List (Log × Ranges)) → AllValues Ranges.IsValid ps
    → Inserts h ps
Inserts-each h f [] a = tt
Inserts-each h f ((l, r) ∷ ps) a = (f l r a.0, Inserts-each h f ps a.1)

pub from_pairs-IsValid :
    (ps : List (Log × Ranges)) → AllValues Ranges.IsValid ps → IsValid (from_pairs ps)
unfolding from_pairs
from_pairs-IsValid ps a =
    collect-IsValid (λ _ r. some r) empty ps empty-IsValid
      (Inserts-each (λ _ r. some r) (λ l r h. h) ps a)

pub nonempty-Holds : (r : Ranges) → Ranges.IsValid r → Holds Ranges.IsValid (nonempty r)
unfolding nonempty
nonempty-Holds r v = elim (Bool-cases (Ranges.is_empty r)) [ inl e ↦ rw e tt | inr e ↦ rw e v ]

module _ (m o : LogRanges) (vm : IsValid m) (vo : IsValid o) where
  common-Holds : (l : Log) (r : Ranges) → Ranges.IsValid r → Holds Ranges.IsValid (common o l r)
  unfolding common
  common-Holds l r v = go (get o l) (get-Holds_log o l vo)
    where
      go :
          (x : Option Ranges)
          → Holds Ranges.IsValid x
          → Holds Ranges.IsValid
              (elim x [ none ↦ none | some theirs ↦ nonempty (Ranges.intersection r theirs) ])
      go none h = tt
      go (some t) h = nonempty-Holds (Ranges.intersection r t) (intersection-IsValid r t v h)

  rest_of-Holds : (l : Log) (r : Ranges) → Ranges.IsValid r → Holds Ranges.IsValid (rest_of o l r)
  unfolding rest_of
  rest_of-Holds l r v = go (get o l) (get-Holds_log o l vo)
    where
      go :
          (x : Option Ranges)
          → Holds Ranges.IsValid x
          → Holds Ranges.IsValid
              (nonempty (elim x [ none ↦ r | some theirs ↦ Ranges.difference r theirs ]))
      go none h = nonempty-Holds r v
      go (some t) h = nonempty-Holds (Ranges.difference r t) (difference-IsValid r t v h)

  pub intersection-IsValid_log : IsValid (intersection m o)
  unfolding intersection
  intersection-IsValid_log =
      collect-IsValid (common o) empty (iter m) empty-IsValid
        (Inserts-each (common o) common-Holds (iter m) (AllValues-iter m vm))

  pub difference-IsValid_log : IsValid (difference m o)
  unfolding difference
  difference-IsValid_log =
      collect-IsValid (rest_of o) empty (iter m) empty-IsValid
        (Inserts-each (rest_of o) rest_of-Holds (iter m) (AllValues-iter m vm))

upsert-ne-nil {ℓ} :
    {V : Type ℓ} (g : Option V → V → V) (m t : BtreeMap ℕ V) → m ≢ [] → upsert g m t ≢ []
unfolding upsert
upsert-ne-nil g m [] h = h
upsert-ne-nil g m ((k, v) ∷ t) h =
    upsert-ne-nil g (BtreeMap.insert m k (g (BtreeMap.get m k) v)) t (insert-ne-nil m k _)

upsert_all-ne-nil {ℓ} :
    {V : Type ℓ} (g : Option V → V → V) (m t : BtreeMap ℕ V) → t ≢ [] → upsert g m t ≢ []
unfolding upsert
upsert_all-ne-nil g m [] h = absurd (h refl)
upsert_all-ne-nil g m ((k, v) ∷ t) h =
    upsert-ne-nil g (BtreeMap.insert m k (g (BtreeMap.get m k) v)) t (insert-ne-nil m k _)

merge_ranges-IsValid :
    (w : Option Ranges) (r : Ranges)
    → Holds Ranges.IsValid w
    → Ranges.IsValid r
    → Ranges.IsValid (merge_ranges w r)
unfolding merge_ranges
merge_ranges-IsValid none r h v = v
merge_ranges-IsValid (some m) r h v = union-IsValid m r h v

merge_authors-IsChannel :
    (mine : Option (BtreeMap ℕ Ranges)) (theirs : BtreeMap ℕ Ranges)
    → Holds IsChannel mine
    → IsChannel theirs
    → IsChannel (merge_authors mine theirs)
unfolding merge_authors
merge_authors-IsChannel mine theirs h c =
    let old : IsAuthors (or_default mine) = or_default-IsAuthors mine h in
    record {
      sorted = upsert-IsSorted merge_ranges (or_default mine) theirs old.sorted;
      nonempty = upsert_all-ne-nil merge_ranges (or_default mine) theirs c.nonempty;
      ranges =
          AllValues-upsert Ranges.IsValid Ranges.IsValid merge_ranges merge_ranges-IsValid
            (or_default mine) theirs old.ranges c.ranges;
    }

pub union-IsValid_log : (m o : LogRanges) → IsValid m → IsValid o → IsValid (union m o)
unfolding union
union-IsValid_log m o vm vo = record {
  sorted = upsert-IsSorted merge_authors m o vm.sorted;
  channels =
      AllValues-upsert IsChannel IsChannel merge_authors merge_authors-IsChannel m o vm.channels
        vo.channels;
}

pub remove-IsValid : (m : LogRanges) (l : Log) → IsValid m → IsValid (remove m l).0
unfolding remove
remove-IsValid m l v = elim (Option-cases (BtreeMap.get m l.channel)) [
  | inl e ↦ rw (e, remove) v
  | inr (authors, e) ↦
      rw (e, remove)
        (left_over (BtreeMap.remove authors l.author)
          (remove-IsSorted authors l.author (old authors e).sorted)
          (AllValues-remove Ranges.IsValid authors l.author (old authors e).ranges))
]
  where
    old :
        (authors : BtreeMap ℕ Ranges) → BtreeMap.get m l.channel ≡ some authors → IsChannel authors
    old authors e = AllValues-get IsChannel m l.channel authors v.channels e

    left_over :
        (left : BtreeMap ℕ Ranges)
        → IsSorted left
        → AllValues Ranges.IsValid left
        → IsValid (elim left [
          | [] ↦ BtreeMap.remove m l.channel
          | entry ∷ rest ↦ BtreeMap.insert m l.channel (entry ∷ rest)
        ])
    left_over [] s a = record {
      sorted = remove-IsSorted m l.channel v.sorted;
      channels = AllValues-remove IsChannel m l.channel v.channels;
    }
    left_over (entry ∷ rest) s a = record {
      sorted = insert-IsSorted m l.channel (entry ∷ rest) v.sorted;
      channels =
          AllValues-insert IsChannel m l.channel (entry ∷ rest)
            (record { sorted = s; nonempty = λ e. cc; ranges = a }) v.channels;
    }

-- On valid maps, removing a log, union, intersection and difference leave no channel without a
-- log, no map out of order and no boundaries that do not increase.
pub operations-IsValid :
    (m o : LogRanges) (l : Log)
    → IsValid m
    → IsValid o
    → IsValid (remove m l).0
      × IsValid (union m o)
      × IsValid (intersection m o)
      × IsValid (difference m o)
operations-IsValid m o l vm vo = (
  remove-IsValid m l vm,
  union-IsValid_log m o vm vo,
  intersection-IsValid_log m o vm vo,
  difference-IsValid_log m o vm vo,
)

pub AllValues-channel : (m : LogRanges) (c : ℕ) → IsValid m → AllValues Ranges.IsValid (channel m c)
unfolding channel
AllValues-channel m c v = elim (Option-cases (BtreeMap.get m c)) [
  | inl e ↦ rw (e, channel) tt
  | inr (authors, e) ↦
      rw (e, channel)
        (rw append-nil at
          (AllValues-tag c authors [] (AllValues-get IsChannel m c authors v.channels e).ranges tt))
]
