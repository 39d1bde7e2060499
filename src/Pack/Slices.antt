-- ===== src/Pack/Slices.antt =====
-- pack.rs: `slice_entry` and `pack_want`, the definitions. `none` is the panic of an `expect`.
pub mod Shrink
pub mod Runs
pub mod Tiles
pub mod Cuts
pub mod Wants
pub mod Rounds
use dash_router.Base.{
  ℕ, suc, zero, ◌+◌, ◌-◌, Bool, true, false, not, ◌&&◌, ◌||◌, Option, none, some, List, [], ◌∷◌,
  ◌++◌, ltb, leb, ◌==◌, odd, length, if◌then◌else◌,
}
use dash_router.Base.Order.{nat_ord}
use dash_router.BtreeMap
use dash_router.BtreeMap.{BtreeMap}
use dash_router.Log.{Authors}
use dash_router.Ranges
use dash_router.Ranges.{Ranges}
use dash_router.Interest
use dash_router.Interest.{Interest, Entry, new, single}
use dash_router.Wire.{WireMessage, message_want}

-- What comes after a step that may have panicked.
abbrev pub bind : {A B : Type 0} → Option A → (A → Option B) → Option B
bind none next = none
bind (some x) next = next x

-- postcard's varint width for a `u32`.
pub varint_len : ℕ → ℕ
varint_len v =
    if leb v 127
    then 1
    else if leb v 16383
    then 2
    else if leb v 2097151
    then 3
    else if leb v 268435455
    then 4
    else 5

-- `sort_by` on prefix and author; it is stable.
abbrev pub Author : Type 0
Author = ℕ × ℕ × Ranges

pub author_le : Author → Author → Bool
author_le (p, a, r) (q, b, r') = ltb p q || ((p == q) && leb a b)

pub insert_author : Author → List Author → List Author
insert_author x [] = x ∷ []
insert_author x (y ∷ ys) = if author_le x y then x ∷ y ∷ ys else y ∷ insert_author x ys

pub sort_authors : List Author → List Author
sort_authors [] = []
sort_authors (x ∷ xs) = insert_author x (sort_authors xs)

-- A run: the authors of one prefix, with their ranges.
abbrev pub Run : Type 0
Run = List (ℕ × Ranges)

-- The loop over the sorted authors; the run that grows is the last.
pub runs_loop : ℕ → Run → List Author → List (ℕ × Run)
runs_loop p run [] = (p, run) ∷ []
runs_loop p run ((q, a, r) ∷ authors) = elim (p == q) [
  | true ↦ runs_loop p (run ++ (a, r) ∷ []) authors
  | false ↦ (p, run) ∷ runs_loop q ((a, r) ∷ []) authors
]

pub runs_of : List Author → List (ℕ × Run)
runs_of [] = []
runs_of ((p, a, r) ∷ authors) = runs_loop p ((a, r) ∷ []) authors

-- `map.extend(run)`, and `collect` into a map.
pub extend : BtreeMap ℕ Ranges → Run → BtreeMap ℕ Ranges
extend have [] = have
extend have ((a, r) ∷ run) = extend (BtreeMap.insert have a r) run

-- `iter().next_back()`
pub last_entry : ℕ × Ranges → BtreeMap ℕ Ranges → ℕ × Ranges
last_entry x [] = x
last_entry x (y ∷ have) = last_entry y have

-- `b[..n]`
pub take : ℕ → List ℕ → List ℕ
take zero b = []
take (suc n) [] = []
take (suc n) (x ∷ b) = x ∷ take n b

-- How many boundaries stay when the last closed range, or the open tail, goes.
pub keep_of : Ranges → ℕ
keep_of b = if odd (length b) then length b - 1 else length b - 2

-- The state of the loop that shrinks a run: what is left of it, and the authors that it touched.
pub record Shrunk : Type 0 where
  pub run : BtreeMap ℕ Ranges
  pub touched : List ℕ

-- The last author loses a range, or goes. A prefix of boundaries that are not ordered may panic.
pub shrink_one : BtreeMap ℕ Ranges → ℕ → Ranges → Option (BtreeMap ℕ Ranges)
shrink_one run a b =
    if keep_of b == 0
    then some (BtreeMap.remove run a)
    else elim (Ranges.from_boundaries (take (keep_of b) b)) [
      | Ranges.ok r ↦ some (BtreeMap.insert run a r)
      | Ranges.invalid bs ↦ none
    ]

-- A bound on the rounds of the loop: a round takes a boundary, or an author.
pub rounds : BtreeMap ℕ Ranges → ℕ
rounds [] = 0
rounds ((a, r) ∷ run) = suc (length r) + rounds run

pub shrink : (BtreeMap ℕ Ranges → Bool) → ℕ → BtreeMap ℕ Ranges → List ℕ → Option Shrunk
shrink fits fuel [] touched = some (record { run = []; touched = touched })
shrink fits zero (x ∷ run) touched = some (record { run = x ∷ run; touched = touched })
shrink fits (suc fuel) (x ∷ run) touched = elim (fits (x ∷ run)) [
  | true ↦ some (record { run = x ∷ run; touched = touched })
  | false ↦
      let (a, b) = last_entry x run in
      bind (shrink_one (x ∷ run) a b) λ left. shrink fits fuel left (BtreeMap.set_insert touched a)
]

-- The state of the loop over the runs. `cur_first` is the first prefix of the slice that grows.
pub record Slicing : Type 0 where
  pub slices : List (ℕ × BtreeMap ℕ Ranges)
  pub cur : BtreeMap ℕ Ranges
  pub cur_first : Option ℕ
  pub truncated : ℕ

-- `if let Some(first) = cur_first.take() { slices.push((first, take(cur))) }`
pub push_slice :
    List (ℕ × BtreeMap ℕ Ranges) → Option ℕ → BtreeMap ℕ Ranges → List (ℕ × BtreeMap ℕ Ranges)
push_slice slices none cur = slices
push_slice slices (some first) cur = slices ++ (first, cur) ∷ []

-- `cur_first.get_or_insert(p)`
pub or_insert : Option ℕ → ℕ → Option ℕ
or_insert none p = some p
or_insert (some q) p = some q

pub slice_run : (BtreeMap ℕ Ranges → Bool) → Slicing → ℕ × Run → Option Slicing
slice_run fits s (p, run) =
    if fits (extend s.cur run)
    then some (record s { cur = extend s.cur run; cur_first = or_insert s.cur_first p })
    else let whole = extend [] run in
      bind (shrink fits (rounds whole) whole []) λ small. some (record {
        slices = push_slice s.slices s.cur_first s.cur;
        cur = small.run;
        cur_first = some p;
        truncated = s.truncated + length small.touched;
      })

pub slice_loop : (BtreeMap ℕ Ranges → Bool) → Slicing → List (ℕ × Run) → Option Slicing
slice_loop fits s [] = some s
slice_loop fits s (run ∷ runs) = bind (slice_run fits s run) λ next. slice_loop fits next runs

-- The state of the loop of `pack_want`.
pub record Wanting : Type 0 where
  pub msgs : List WireMessage
  pub truncated : ℕ
  pub cur : Interest

module _ ⦃t : Authors⦄ where
  pub with_prefix : BtreeMap ℕ Ranges → List Author
  with_prefix [] = []
  with_prefix ((a, r) ∷ have) = (t.author_prefix a, a, r) ∷ with_prefix have

  -- `expect` on the result of `Entry::new`.
  pub made : ℕ → ℕ → BtreeMap ℕ Ranges → Option Entry
  made lo hi have = elim (new lo hi have) [ Interest.ok e ↦ some e | Interest.err x ↦ none ]

  -- The scopes: from `lo` to just before the next slice's first prefix, the last to `hi`.
  pub scoped : ℕ → ℕ → List (ℕ × BtreeMap ℕ Ranges) → Option (List Entry)
  scoped lo hi [] = some []
  scoped lo hi ((first, have) ∷ []) = bind (made lo hi have) λ e. some (e ∷ [])
  scoped lo hi ((first, have) ∷ (next, have') ∷ slices) =
      bind (made lo (next - 1) have)
        λ e. bind (scoped next hi ((next, have') ∷ slices)) λ es. some (e ∷ es)

  -- Without a slice there is a pure want over the whole scope, if it fits, or nothing.
  pub scope_slices : Bool → ℕ → ℕ → ℕ → List (ℕ × BtreeMap ℕ Ranges) → Option (List Entry × ℕ)
  scope_slices pure_fits lo hi truncated [] =
      if pure_fits
      then bind (scoped lo hi ((lo, []) ∷ [])) (λ es. some (es, truncated))
      else some ([], truncated + 1)
  scope_slices pure_fits lo hi truncated (slice ∷ slices) =
      bind (scoped lo hi (slice ∷ slices)) λ es. some (es, truncated)

  module _ (encoded_len : WireMessage → ℕ) (sender : ℕ) (budget : ℕ) where
    pub interest_len : Interest → ℕ
    interest_len i = encoded_len (message_want sender i)

    -- The closure `fits` of `slice_entry`.
    slice_fits : ℕ → Entry → BtreeMap ℕ Ranges → Bool
    slice_fits c entry have = elim (new entry.lo entry.hi have) [
      | Interest.err x ↦ false
      | Interest.ok e ↦
          leb (interest_len (single c e) + ((5 - varint_len entry.lo) + (5 - varint_len entry.hi)))
            budget
    ]

    pub slices_of : ℕ → Entry → Option Slicing
    slices_of c entry =
        slice_loop (slice_fits c entry)
          (record { slices = []; cur = []; cur_first = none; truncated = 0 })
          (runs_of (sort_authors (with_prefix entry.have)))

    -- The slices, and the new count of what was truncated.
    pub slice_entry : ℕ → Entry → ℕ → Option (List Entry × ℕ)
    slice_entry c entry truncated = bind (slices_of c entry) λ s.
        scope_slices (slice_fits c entry []) entry.lo entry.hi (truncated + s.truncated)
          (push_slice s.slices s.cur_first s.cur)

    pub flush_want : List WireMessage → Interest → List WireMessage
    flush_want msgs [] = msgs
    flush_want msgs (x ∷ i) = msgs ++ message_want sender (x ∷ i) ∷ []

    slice_messages : ℕ → List Entry → List WireMessage
    slice_messages c [] = []
    slice_messages c (e ∷ es) = message_want sender (single c e) ∷ slice_messages c es

    pub pack_entry : Wanting → ℕ × Entry → Option Wanting
    pack_entry s (c, entry) =
        if leb (interest_len (single c entry)) budget
        then (if leb (interest_len (Interest.insert s.cur c entry)) budget
            then some (record s { cur = Interest.insert s.cur c entry })
            else some (record s { msgs = flush_want s.msgs s.cur; cur = single c entry }))
        else bind (slice_entry c entry s.truncated) λ out. some (record {
          msgs = flush_want s.msgs s.cur ++ slice_messages c out.0;
          truncated = out.1;
          cur = [];
        })

    pub want_loop : Wanting → Interest → Option Wanting
    want_loop s [] = some s
    want_loop s (e ∷ i) = bind (pack_entry s e) λ next. want_loop next i

    pub pack_want : Interest → Option (List WireMessage × ℕ)
    pack_want i =
        bind (want_loop (record { msgs = []; truncated = 0; cur = Interest.empty }) i)
          λ s. some (flush_want s.msgs s.cur, s.truncated)
