-- ===== src/Interest.antt =====
-- crates/dash-router-core/src/interest.rs: what a Want carries. An entry is the emitter's have
-- under one channel, within an interval of author prefixes; it asks for all else in that scope.
pub mod Scope
pub mod Asks
pub mod Common
pub mod Covering
pub mod Repeats
pub mod Whole
pub mod Build
mod Tests
use dash_router.Base.{
  ℕ, ◌+◌, ◌≤◌, ◌≡◌, Bool, true, false, not, ◌&&◌, ◌||◌, Option, none, some, List, [], ◌∷◌, ltb, leb,
  ◌==◌, if◌then◌else◌,
}
use dash_router.Base.Order.{nat_ord}
use dash_router.BtreeMap
use dash_router.BtreeMap.{BtreeMap, IsSorted, AllValues}
use dash_router.Log.{Log, Authors, prefix_max}
use dash_router.Ranges
use dash_router.Ranges.{Ranges}
use dash_router.LogRanges
use dash_router.LogRanges.{LogRanges}

pub record Entry : Type 0 where
  pub lo : ℕ
  pub hi : ℕ
  pub have : BtreeMap ℕ Ranges

pub data Error : Type 0 where
  inverted : ℕ → ℕ → Error
  outside : ℕ → Error

pub data Result : Type 0 where
  ok : Entry → Result
  err : Error → Result

unfoldable pub contains_prefix : Entry → ℕ → Bool
contains_prefix e p = leb e.lo p && leb p e.hi

pub is_whole : Entry → Bool
is_whole e = (e.lo == 0) && (e.hi == prefix_max)

-- Lists no author: asks for everything in scope.
pub is_pure : Entry → Bool
is_pure e = elim e.have [ [] ↦ true | _ ∷ _ ↦ false ]

-- The emitter's have for an author; empty when unlisted.
unfoldable pub have_of : Entry → ℕ → Ranges
have_of e a = elim (BtreeMap.get e.have a) [ none ↦ [] | some r ↦ r ]

-- At most one entry for each channel.
abbrev pub Interest : Type 0
Interest = BtreeMap ℕ Entry

pub empty : Interest
empty = []

pub insert : Interest → ℕ → Entry → Interest
insert i c e = BtreeMap.insert i c e

pub single : ℕ → Entry → Interest
single c e = insert empty c e

pub remove : Interest → ℕ → Interest × Option Entry
remove i c = (BtreeMap.remove i c, BtreeMap.get i c)

pub get : Interest → ℕ → Option Entry
get i c = BtreeMap.get i c

pub is_empty : Interest → Bool
is_empty i = elim i [ [] ↦ true | _ ∷ _ ↦ false ]

-- `seen.into_iter().filter_map(|i| i.get(c))`
pub records_of : ℕ → List Interest → List Entry
records_of c [] = []
records_of c (i ∷ seen) = elim (get i c) [
  | none ↦ records_of c seen
  | some e ↦ e ∷ records_of c seen
]

-- `scopes.sort_unstable()`, on pairs by the first and then by the second part.
scope_le : ℕ × ℕ → ℕ × ℕ → Bool
scope_le (a, b) (c, d) = ltb a c || ((a == c) && leb b d)

insert_scope : ℕ × ℕ → List (ℕ × ℕ) → List (ℕ × ℕ)
insert_scope x [] = x ∷ []
insert_scope x (y ∷ ys) = if scope_le x y then x ∷ y ∷ ys else y ∷ insert_scope x ys

sort_scopes : List (ℕ × ℕ) → List (ℕ × ℕ)
sort_scopes [] = []
sort_scopes (x ∷ xs) = insert_scope x (sort_scopes xs)

scopes_of : List Entry → List (ℕ × ℕ)
scopes_of [] = []
scopes_of (e ∷ es) = (e.lo, e.hi) ∷ scopes_of es

-- The loop over the sorted scopes: `need` is the least prefix that no scope has covered yet, up to
-- `top`, and `none` once there is no such prefix. `hi + 1` stays a `u32`, since `hi < top` there.
scan : ℕ → Option ℕ → List (ℕ × ℕ) → Option ℕ
scan top need [] = need
scan top none (x ∷ xs) = none
scan top (some n) ((lo, hi) ∷ xs) =
    let rest =
      scan top (if leb n hi then if leb top hi then none else some (hi + 1) else some n) xs in
    if ltb n lo then some n else rest

pub scope_covered : Entry → List Entry → Bool
scope_covered e records = elim (scan e.hi (some e.lo) (sort_scopes (scopes_of records))) [
  | none ↦ true
  | some _ ↦ false
]

-- The haves that the records with the author in their scope have in common.
meet : Option Ranges → Ranges → Ranges
meet none h = h
meet (some x) h = Ranges.intersection x h

module _ ⦃t : Authors⦄ where
  unfoldable pub contains : Entry → ℕ → Bool
  contains e a = contains_prefix e (t.author_prefix a)

  -- The loop of `new`, with the entry built so far.
  new_loop : Entry → BtreeMap ℕ Ranges → Result
  new_loop out [] = ok out
  new_loop out ((a, r) ∷ have) =
      if not (contains out a)
      then err (outside a)
      else new_loop
          (if Ranges.is_empty r then out else record out { have = BtreeMap.insert out.have a r })
          have

  pub new : ℕ → ℕ → BtreeMap ℕ Ranges → Result
  new lo hi have =
      if ltb hi lo
      then err (inverted lo hi)
      else new_loop (record { lo = lo; hi = hi; have = [] }) have

  -- `expect` on the result of `new`; `new-whole` shows that it is never an error.
  pub whole : BtreeMap ℕ Ranges → Entry
  whole have = elim (new 0 prefix_max have) [
    | ok e ↦ e
    | err _ ↦ record { lo = 0; hi = prefix_max; have = [] }
  ]

  -- The closure of `ask_within`.
  ask_log : Entry → Log → Ranges → Option Ranges
  ask_log e l r =
      if not (contains e l.author)
      then none
      else LogRanges.nonempty (Ranges.difference r (have_of e l.author))

  -- What an entry asks for under a channel, out of what is held.
  pub ask_within : Entry → ℕ → LogRanges → LogRanges
  ask_within e c held = LogRanges.collect (ask_log e) LogRanges.empty (LogRanges.channel held c)

  common_have : ℕ → Option Ranges → List Entry → Option Ranges
  common_have a common [] = common
  common_have a common (r ∷ records) =
      common_have a (if contains r a then some (meet common (have_of r a)) else common) records

  pub author_covered : Entry → List Entry → ℕ → Bool
  author_covered e records a = elim (common_have a none records) [
    | none ↦ false
    | some common ↦ Ranges.is_empty (Ranges.difference common (have_of e a))
  ]

  -- `authors.extend(r.have.keys().filter(|a| self.contains(a)))`
  extend_listed : Entry → List ℕ → List ℕ → List ℕ
  extend_listed e authors [] = authors
  extend_listed e authors (a ∷ as') =
      extend_listed e (if contains e a then BtreeMap.set_insert authors a else authors) as'

  listed : Entry → List ℕ → List Entry → List ℕ
  listed e authors [] = authors
  listed e authors (r ∷ records) = listed e (extend_listed e authors (BtreeMap.keys r.have)) records

  all_covered : Entry → List Entry → List ℕ → Bool
  all_covered e records [] = true
  all_covered e records (a ∷ authors) = author_covered e records a && all_covered e records authors

  -- Is everything this entry asks for under the channel asked for by `seen`?
  pub covered_by : Entry → ℕ → List Interest → Bool
  covered_by e c seen =
      let records = records_of c seen in
      elim records [
        | [] ↦ false
        | r ∷ rs ↦
            scope_covered e (r ∷ rs)
            && all_covered e (r ∷ rs) (listed e (BtreeMap.keys e.have) (r ∷ rs))
      ]

  -- The have of `from_held` under one channel.
  have_under : BtreeMap ℕ Ranges → List (Log × Ranges) → BtreeMap ℕ Ranges
  have_under out [] = out
  have_under out ((l, r) ∷ ps) =
      have_under (if Ranges.is_empty r then out else BtreeMap.insert out l.author r) ps

  from_held_loop : LogRanges → Interest → List ℕ → Interest
  from_held_loop held out [] = out
  from_held_loop held out (c ∷ cs) =
      from_held_loop held (insert out c (whole (have_under [] (LogRanges.channel held c)))) cs

  -- Whole-scope entries for the channels, each with what is held under it.
  pub from_held : LogRanges → List ℕ → Interest
  from_held held channels = from_held_loop held empty channels

  ask_loop : LogRanges → LogRanges → Interest → LogRanges
  ask_loop held acc [] = acc
  ask_loop held acc ((c, e) ∷ i) = ask_loop held (LogRanges.union acc (ask_within e c held)) i

  -- The union over the entries of what each asks for.
  pub interest_ask_within : Interest → LogRanges → LogRanges
  interest_ask_within i held = ask_loop held LogRanges.empty i

  -- The entries that `seen` does not cover.
  pub uncovered_by : Interest → List Interest → Interest
  uncovered_by i seen = BtreeMap.retain (λ c e. not (covered_by e c seen)) i

  pub any_uncovered_by : Interest → List Interest → Bool
  any_uncovered_by [] seen = false
  any_uncovered_by ((c, e) ∷ i) seen = not (covered_by e c seen) || any_uncovered_by i seen
