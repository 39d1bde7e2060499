-- ===== src/Interest/Asks.antt =====
-- What an entry and an interest ask for, log by log and number by number.
use dash_router.Base.{
  ℕ, ◌≤◌, ◌≡◌, Bool, true, false, not, ◌&&◌, ◌||◌, Option, none, some, [], ◌∷◌, refl, arith, ap,
  ◌∙◌, elem, ◌==◌, Bool-cases, inl, inr,
}
use dash_router.Base.Order.{nat_ord}
use dash_router.BtreeMap
use dash_router.BtreeMap.{BtreeMap, IsSorted, AllValues}
use dash_router.BtreeMap.Loops.{Holds, get-Holds}
use dash_router.BtreeMap.Laws.{get-Above, Above-weaken, IsSorted_of_Above}
use dash_router.Log.{Log, Authors, log_ord}
use dash_router.Ranges
use dash_router.Ranges.{Ranges}
use dash_router.Ranges.Sets.{contains-difference, difference-IsValid}
use dash_router.LogRanges
use dash_router.LogRanges.{LogRanges}
use dash_router.LogRanges.Lookup.{get-collect, get-channel, channel-IsSorted, get-empty}
use dash_router.LogRanges.Shape.{
  collect-IsValid, Inserts-each, AllValues-channel, empty-IsValid, union-IsValid_log,
  nonempty-Holds,
}
use dash_router.LogRanges.Sets.{has, contains-has, has-nonempty, contains-union_log}
use dash_router.Interest.{
  Entry, Interest, contains, have_of, ask_log, ask_within, ask_loop, interest_ask_within,
}

module _ ⦃t : Authors⦄ where
  -- The invariant of an entry: what `new` establishes, and decoding goes through `new`.
  pub record IsValid (e : Entry) : Type 0 where
    pub scope : e.lo ≤ e.hi
    pub sorted : IsSorted e.have
    pub ranges : AllValues Ranges.IsValid e.have
    pub within : (a : ℕ) → elem a (BtreeMap.keys e.have) ≡ true → contains e a ≡ true

  -- The numbers of an author that an entry asks for.
  abbrev pub asks : Entry → ℕ → ℕ → Bool
  asks e a s = contains e a && not (Ranges.contains (have_of e a) s)

  pub have_of-IsValid : (e : Entry) (a : ℕ) → IsValid e → Ranges.IsValid (have_of e a)
  unfolding have_of
  have_of-IsValid e a v = go (BtreeMap.get e.have a) (get-Holds Ranges.IsValid e.have a v.ranges)
    where
      go :
          (o : Option Ranges)
          → Holds Ranges.IsValid o
          → Ranges.IsValid (elim o [ none ↦ [] | some r ↦ r ])
      go none h = tt
      go (some r) h = h

  ask_log-Holds :
      (e : Entry)
      → IsValid e
      → (l : Log) (r : Ranges) → Ranges.IsValid r
      → Holds Ranges.IsValid (ask_log e l r)
  unfolding ask_log
  ask_log-Holds e v l r h = elim (Bool-cases (contains e l.author)) [
    | inl k ↦
        rw (k, ask_log)
          (nonempty-Holds (Ranges.difference r (have_of e l.author))
            (difference-IsValid r (have_of e l.author) h (have_of-IsValid e l.author v)))
    | inr k ↦ rw (k, ask_log) tt
  ]

  pub ask_within-IsValid :
      (e : Entry) (c : ℕ) (held : LogRanges)
      → IsValid e
      → LogRanges.IsValid held
      → LogRanges.IsValid (ask_within e c held)
  unfolding ask_within
  ask_within-IsValid e c held v h =
      collect-IsValid (ask_log e) LogRanges.empty (LogRanges.channel held c) empty-IsValid (
        Inserts-each (ask_log e) (ask_log-Holds e v) (LogRanges.channel held c)
          (AllValues-channel held c h))

  has-ask_log :
      (e : Entry) (l : Log) (o : Option Ranges) (s : ℕ)
      → IsValid e
      → Holds Ranges.IsValid o
      → has (elim o [ none ↦ none | some r ↦ ask_log e l r ]) s ≡ (has o s && asks e l.author s)
  unfolding ask_log
  has-ask_log e l none s v h = refl
  has-ask_log e l (some r) s v h = elim (Bool-cases (contains e l.author)) [
    | inl k ↦
        rw (k, ask_log)
          (has-nonempty (Ranges.difference r (have_of e l.author)) s
            ∙ contains-difference r (have_of e l.author) h (have_of-IsValid e l.author v) s)
    | inr k ↦ rw (k, ask_log) (ground arith)
  ]

  -- An entry asks for what is held under its channel, in its scope, and not in its have.
  pub contains-ask_within :
      (e : Entry) (c : ℕ) (held : LogRanges) (l : Log) (s : ℕ)
      → IsValid e
      → LogRanges.IsValid held
      → LogRanges.contains (ask_within e c held) l s
        ≡ ((l.channel == c) && (LogRanges.contains held l s && asks e l.author s))
  contains-ask_within e c held l s v h =
      contains-has (ask_within e c held) l s
      ∙ ap (λ o. has o s) found
      ∙ has-ask_log e l (BtreeMap.get (LogRanges.channel held c) l) s v
          (get-Holds Ranges.IsValid (LogRanges.channel held c) l (AllValues-channel held c h))
      ∙ ground (arith, get-channel held c l, contains-has held l s)
    where
      found :
          LogRanges.get (ask_within e c held) l ≡ elim (BtreeMap.get (LogRanges.channel held c) l) [
            | none ↦ none
            | some r ↦ ask_log e l r
          ]
      found =
          unfold ask_within in
          get-collect (ask_log e) LogRanges.empty (LogRanges.channel held c) l
            (channel-IsSorted held c h)
          ∙ ground (arith, get-empty l)

  ask_loop-IsValid :
      (i : Interest) (held acc : LogRanges)
      → AllValues IsValid i
      → LogRanges.IsValid held
      → LogRanges.IsValid acc
      → LogRanges.IsValid (ask_loop held acc i)
  unfolding ask_loop
  ask_loop-IsValid [] held acc v h k = k
  ask_loop-IsValid ((c, e) ∷ i) held acc v h k =
      ask_loop-IsValid i held (LogRanges.union acc (ask_within e c held)) v.1 h
        (union-IsValid_log acc (ask_within e c held) k (ask_within-IsValid e c held v.0 h))

  -- What an interest asks for of a log: the entry of its channel does.
  abbrev pub asks_log : Interest → Log → ℕ → Bool
  asks_log i l s = elim (BtreeMap.get i l.channel) [ none ↦ false | some e ↦ asks e l.author s ]

  pub asks_log-cons :
      (c : ℕ) (e : Entry) (i : Interest) (l : Log) (s : ℕ)
      → IsSorted ((c, e) ∷ i)
      → asks_log ((c, e) ∷ i) l s ≡ (((l.channel == c) && asks e l.author s) || asks_log i l s)
  unfolding BtreeMap.get
  asks_log-cons c e i l s o = ground (arith, get-Above i l.channel, Above-weaken l.channel c i)

  ask_loop-cons :
      (c : ℕ) (e : Entry) (i : Interest) (held acc : LogRanges)
      → ask_loop held acc ((c, e) ∷ i) ≡ ask_loop held (LogRanges.union acc (ask_within e c held)) i
  unfolding ask_loop
  ask_loop-cons c e i held acc = refl

  contains-ask_loop :
      (i : Interest) (held acc : LogRanges) (l : Log) (s : ℕ)
      → IsSorted i
      → AllValues IsValid i
      → LogRanges.IsValid held
      → LogRanges.IsValid acc
      → LogRanges.contains (ask_loop held acc i) l s
        ≡ (LogRanges.contains acc l s || (LogRanges.contains held l s && asks_log i l s))
  contains-ask_loop [] held acc l s o v h k = unfold ask_loop BtreeMap.get in ground arith
  contains-ask_loop ((c, e) ∷ i) held acc l s o v h k =
      let next : LogRanges = LogRanges.union acc (ask_within e c held) in
      let ih : LogRanges.contains (ask_loop held next i) l s
          ≡ (LogRanges.contains next l s || (LogRanges.contains held l s && asks_log i l s)) =
        contains-ask_loop i held next l s (IsSorted_of_Above c i o) v.1 h
          (union-IsValid_log acc (ask_within e c held) k (ask_within-IsValid e c held v.0 h)) in
      ap (λ m. LogRanges.contains m l s) (ask_loop-cons c e i held acc)
      ∙ ih
      ∙ ground (
        arith,
        contains-union_log acc (ask_within e c held) k (ask_within-IsValid e c held v.0 h) l s,
        contains-ask_within e c held l s v.0 h,
        asks_log-cons c e i l s o,
      )

  pub interest_ask_within-IsValid :
      (i : Interest) (held : LogRanges)
      → AllValues IsValid i
      → LogRanges.IsValid held
      → LogRanges.IsValid (interest_ask_within i held)
  unfolding interest_ask_within
  interest_ask_within-IsValid i held v h = ask_loop-IsValid i held LogRanges.empty v h empty-IsValid

  -- Of a valid map of what is held, a valid interest asks for a number of a log exactly when
  -- it is held, the log's author is in the scope of the entry for the channel, and the entry
  -- does not have it.
  pub contains-interest_ask_within :
      (i : Interest) (held : LogRanges) (l : Log) (s : ℕ)
      → IsSorted i
      → AllValues IsValid i
      → LogRanges.IsValid held
      → LogRanges.contains (interest_ask_within i held) l s
        ≡ (LogRanges.contains held l s && asks_log i l s)
  unfolding interest_ask_within
  contains-interest_ask_within i held l s o v h =
      contains-ask_loop i held LogRanges.empty l s o v h empty-IsValid
      ∙ ground (arith, contains-has LogRanges.empty l s, get-empty l)
