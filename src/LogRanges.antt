-- ===== src/LogRanges.antt =====
-- crates/dash-router-core/src/ranges.rs, `LogRanges`: ranges across logs, by channel and then by
-- author. A log that is present with an empty value is known, and nothing is held of it.
pub mod Lookup
pub mod Shape
pub mod Sets
pub mod Empty
mod Tests
use dash_router.Base.{
  ℕ, ◌+◌, ◌≡◌, ◌≢◌, Bool, true, false, not, ◌&&◌, Option, none, some, List, [], ◌∷◌, ◌++◌, length,
  if◌then◌else◌,
}
use dash_router.Base.Order.{nat_ord}
use dash_router.BtreeMap
use dash_router.BtreeMap.{BtreeMap, IsSorted, AllValues, upsert}
use dash_router.Log.{Log, log_ord}
use dash_router.Ranges
use dash_router.Ranges.{Ranges}

abbrev pub LogRanges : Type 0
LogRanges = BtreeMap ℕ (BtreeMap ℕ Ranges)

-- One channel's authors: there is one, they are in order, and each has valid ranges.
pub record IsChannel (authors : BtreeMap ℕ Ranges) : Type 0 where
  pub sorted : IsSorted authors
  pub nonempty : authors ≢ []
  pub ranges : AllValues Ranges.IsValid authors

-- The invariant of the type: no channel has an empty author map.
pub record IsValid (m : LogRanges) : Type 0 where
  pub sorted : IsSorted m
  pub channels : AllValues IsChannel m

pub empty : LogRanges
empty = []

-- `self.0.get(&log.channel())?.get(&log.author())`
pub get : LogRanges → Log → Option Ranges
get m l = elim (BtreeMap.get m l.channel) [
  | none ↦ none
  | some authors ↦ BtreeMap.get authors l.author
]

-- `m.entry(c).or_default()`
abbrev pub or_default : Option (BtreeMap ℕ Ranges) → BtreeMap ℕ Ranges
or_default none = []
or_default (some authors) = authors

pub insert : LogRanges → Log → Ranges → LogRanges
insert m l r =
    BtreeMap.insert m l.channel (BtreeMap.insert (or_default (BtreeMap.get m l.channel)) l.author r)

-- A loop that inserts what `h` makes of each log.
pub collect {ℓ} : {V : Type ℓ} → (Log → V → Option Ranges) → LogRanges → List (Log × V) → LogRanges
collect h out [] = out
collect h out ((l, v) ∷ ps) = collect h (elim (h l v) [ none ↦ out | some r ↦ insert out l r ]) ps

pub from_pairs : List (Log × Ranges) → LogRanges
unfolding collect
from_pairs ps = collect (λ _ r. some r) empty ps

-- The logs of one channel, with their ids rebuilt.
pub tag : ℕ → BtreeMap ℕ Ranges → List (Log × Ranges)
tag c [] = []
tag c ((a, r) ∷ authors) = (record { channel = c; author = a }, r) ∷ tag c authors

pub iter : LogRanges → List (Log × Ranges)
unfolding tag
iter [] = []
iter ((c, authors) ∷ m) = tag c authors ++ iter m

pub len : LogRanges → ℕ
len [] = 0
len ((c, authors) ∷ m) = length authors + len m

pub channel : LogRanges → ℕ → List (Log × Ranges)
unfolding tag
channel m c = elim (BtreeMap.get m c) [ none ↦ [] | some authors ↦ tag c authors ]

pub channels : LogRanges → List ℕ
channels m = BtreeMap.keys m

unfoldable pub all_empty : BtreeMap ℕ Ranges → Bool
all_empty [] = true
all_empty ((a, r) ∷ authors) = Ranges.is_empty r && all_empty authors

-- Nothing but known logs.
unfoldable pub is_empty : LogRanges → Bool
unfolding all_empty
is_empty [] = true
is_empty ((c, authors) ∷ m) = all_empty authors && is_empty m

pub contains : LogRanges → Log → ℕ → Bool
contains m l seq = elim (get m l) [ none ↦ false | some r ↦ Ranges.contains r seq ]

-- The new map, and what was removed; a channel goes with its last log.
pub remove : LogRanges → Log → LogRanges × Option Ranges
remove m l = elim (BtreeMap.get m l.channel) [
  | none ↦ (m, none)
  | some authors ↦
      let left = BtreeMap.remove authors l.author in
      (
        elim left [
          | [] ↦ BtreeMap.remove m l.channel
          | entry ∷ rest ↦ BtreeMap.insert m l.channel (entry ∷ rest)
        ],
        BtreeMap.get authors l.author,
      )
]

-- The bodies of the two loops of `union`.
merge_ranges : Option Ranges → Ranges → Ranges
merge_ranges none r = r
merge_ranges (some m) r = Ranges.union m r

merge_authors : Option (BtreeMap ℕ Ranges) → BtreeMap ℕ Ranges → BtreeMap ℕ Ranges
unfolding merge_ranges
merge_authors mine theirs = upsert merge_ranges (or_default mine) theirs

pub union : LogRanges → LogRanges → LogRanges
unfolding merge_authors
union m o = upsert merge_authors m o

-- An empty result is dropped.
pub nonempty : Ranges → Option Ranges
nonempty r = if Ranges.is_empty r then none else some r

common : LogRanges → Log → Ranges → Option Ranges
unfolding nonempty get
common o l r = elim (get o l) [
  | none ↦ none
  | some theirs ↦ nonempty (Ranges.intersection r theirs)
]

pub intersection : LogRanges → LogRanges → LogRanges
unfolding common collect iter
intersection m o = collect (common o) empty (iter m)

rest_of : LogRanges → Log → Ranges → Option Ranges
unfolding nonempty get
rest_of o l r = nonempty (elim (get o l) [ none ↦ r | some theirs ↦ Ranges.difference r theirs ])

pub difference : LogRanges → LogRanges → LogRanges
unfolding rest_of collect iter
difference m o = collect (rest_of o) empty (iter m)
