-- ===== src/Interest/Tests.antt =====
-- Instances of the theorems on entries with the scopes of the tests of interest.rs.
use dash_router.Base.{ℕ, ◌≡◌, ◌↔◌, true, ◌||◌, ◌&&◌, List, [], ◌∷◌, arith, ◌==◌, All}
use dash_router.Base.Order.{nat_ord}
use dash_router.BtreeMap
use dash_router.BtreeMap.{BtreeMap, AllValues}
use dash_router.Log.{Log, Authors, pair_authors}
use dash_router.LogRanges
use dash_router.LogRanges.{LogRanges}
use dash_router.Interest.{
  Entry, Interest, contains, contains_prefix, covered_by, records_of, scope_covered, ask_within,
  interest_ask_within, uncovered_by,
}
use dash_router.Interest.Scope.{some_contains, scope_covered_iff}
use dash_router.Interest.Asks.{
  IsValid, asks, asks_log, contains-ask_within, contains-interest_ask_within,
}
use dash_router.Interest.Covering.{
  Covers, covered_by_iff, uncovered_by_loses_nothing, some_asks_log,
}

instance abbrev authors : Authors
authors = pair_authors

-- Author 1 has 0 to 9, over the whole space.
abbrev mine : Entry
mine = record { lo = 0; hi = 4294967295; have = (1, 0 ∷ 10 ∷ []) ∷ [] }

mine-IsValid : IsValid mine
unfolding contains contains_prefix
mine-IsValid = record {
  scope = omega arith;
  sorted = tt;
  ranges = omega arith;
  within = λ a h. ground (arith, authors.prefix-le a);
}

-- A pure want for the whole channel, seen under channel 7.
abbrev pure_want : Entry
pure_want = record { lo = 0; hi = 4294967295; have = [] }

pure_want-IsValid : IsValid pure_want
unfolding BtreeMap.keys
pure_want-IsValid = record { scope = omega arith; sorted = tt; ranges = tt; within = λ a h. cc }

abbrev seen : List Interest
seen = ((7, pure_want) ∷ []) ∷ []

seen-All : All (AllValues IsValid) seen
seen-All = ((pure_want-IsValid, tt), tt)

covered_by_iff_example : (covered_by mine 7 seen ≡ true) ↔ Covers mine (records_of 7 seen)
covered_by_iff_example = covered_by_iff mine 7 seen mine-IsValid seen-All

scope_covered_iff_example :
    (scope_covered mine (pure_want ∷ []) ≡ true)
    ↔ ((p : ℕ) → contains_prefix mine p ≡ true → some_contains p (pure_want ∷ []) ≡ true)
scope_covered_iff_example = scope_covered_iff mine (pure_want ∷ []) (omega arith)

abbrev interest : Interest
interest = (7, mine) ∷ []

abbrev log71 : Log
log71 = record { channel = 7; author = 1 }

uncovered_by_loses_nothing_example :
    (asks_log interest log71 12 ≡ true
      → (asks_log (uncovered_by interest seen) log71 12 || some_asks_log seen log71 12) ≡ true)
    × (asks_log (uncovered_by interest seen) log71 12 ≡ true → asks_log interest log71 12 ≡ true)
uncovered_by_loses_nothing_example =
    uncovered_by_loses_nothing interest seen log71 12 tt (mine-IsValid, tt) seen-All (omega arith)

abbrev held : LogRanges
held = (7, (1, 0 ∷ 20 ∷ []) ∷ []) ∷ []

held-IsValid : LogRanges.IsValid held
held-IsValid = record {
  sorted = tt;
  channels = (record { sorted = tt; nonempty = λ e. cc; ranges = omega arith }, tt);
}

contains-ask_within_example :
    LogRanges.contains (ask_within mine 7 held) log71 12
    ≡ ((7 == 7) && (LogRanges.contains held log71 12 && asks mine 1 12))
contains-ask_within_example = contains-ask_within mine 7 held log71 12 mine-IsValid held-IsValid

contains-interest_ask_within_example :
    LogRanges.contains (interest_ask_within interest held) log71 12
    ≡ (LogRanges.contains held log71 12 && asks_log interest log71 12)
contains-interest_ask_within_example =
    contains-interest_ask_within interest held log71 12 tt (mine-IsValid, tt) held-IsValid
