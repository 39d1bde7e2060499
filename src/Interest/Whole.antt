-- ===== src/Interest/Whole.antt =====
-- `from_held` builds valid interests: `new` on the whole space never fails.
use dash_router.Base.{
  ℕ, ◌≡◌, Bool, true, not, List, [], ◌∷◌, refl, sym, ap, arith, ◌∙◌, Bool-cases, inl, inr,
}
use dash_router.Base.Order.{nat_ord}
use dash_router.BtreeMap
use dash_router.BtreeMap.{BtreeMap, IsSorted, AllValues}
use dash_router.BtreeMap.Laws.{insert-IsSorted, AllValues-insert, retain-IsSorted}
use dash_router.Log.{Log, Authors, prefix_max}
use dash_router.Ranges
use dash_router.Ranges.{Ranges}
use dash_router.LogRanges
use dash_router.LogRanges.{LogRanges}
use dash_router.LogRanges.Shape.{AllValues-channel}
use dash_router.Interest
use dash_router.Interest.{
  Entry, Interest, contains, contains_prefix, new, new_loop, whole, have_under, from_held_loop,
  from_held, uncovered_by, covered_by,
}
use dash_router.Interest.Asks.{IsValid}

module _ ⦃t : Authors⦄ where
  open t use {author_prefix, prefix-le}

  -- An entry over the whole space with a have in order.
  record IsWhole (e : Entry) : Type 0 where
    lo : e.lo ≡ 0
    hi : e.hi ≡ prefix_max
    sorted : IsSorted e.have
    ranges : AllValues Ranges.IsValid e.have

  whole-contains : (e : Entry) (a : ℕ) → IsWhole e → contains e a ≡ true
  unfolding contains contains_prefix
  whole-contains e a w = rw (w.lo, w.hi) ground (arith, prefix-le a)

  new_loop-ok :
      (have : BtreeMap ℕ Ranges) (e : Entry)
      → IsWhole e
      → AllValues Ranges.IsValid have
      → (e' : Entry) × (new_loop e have ≡ Interest.ok e') × IsWhole e'
  unfolding new_loop
  new_loop-ok [] e w v = (e, refl, w)
  new_loop-ok ((a, r) ∷ have) e w v = elim (Bool-cases (Ranges.is_empty r)) [
    | inl nothing ↦ rw (whole-contains e a w, nothing) (new_loop-ok have e w v.1)
    | inr something ↦
        rw (whole-contains e a w, something)
          (new_loop-ok have (record e { have = BtreeMap.insert e.have a r })
            (record {
              lo = w.lo;
              hi = w.hi;
              sorted = insert-IsSorted e.have a r w.sorted;
              ranges = AllValues-insert Ranges.IsValid e.have a r v.0 w.ranges;
            })
            v.1)
  ]

  IsWhole-IsValid : (e : Entry) → IsWhole e → IsValid e
  IsWhole-IsValid e w = record {
    scope = rw (w.lo, w.hi) omega arith;
    sorted = w.sorted;
    ranges = w.ranges;
    within = λ a m. whole-contains e a w;
  }

  -- `new` on the whole space always builds an entry, and a valid one.
  pub new-whole :
      (have : BtreeMap ℕ Ranges)
      → AllValues Ranges.IsValid have
      → (new 0 prefix_max have ≡ Interest.ok (whole have)) × IsValid (whole have)
  unfolding new whole
  new-whole have v =
      let (e', eq', w) =
        new_loop-ok have (record { lo = 0; hi = prefix_max; have = [] })
          (record { lo = refl; hi = refl; sorted = tt; ranges = tt }) v in
      let built : whole have ≡ e' = rw (eq', whole) refl in
      (eq' ∙ ap Interest.ok (sym built), rw built (IsWhole-IsValid e' w))

  have_under-AllValues :
      (out : BtreeMap ℕ Ranges) (ps : List (Log × Ranges))
      → AllValues Ranges.IsValid out
      → AllValues Ranges.IsValid ps
      → AllValues Ranges.IsValid (have_under out ps)
  unfolding have_under
  have_under-AllValues out [] v w = v
  have_under-AllValues out ((l, r) ∷ ps) v w = elim (Bool-cases (Ranges.is_empty r)) [
    | inl nothing ↦ rw nothing (have_under-AllValues out ps v w.1)
    | inr something ↦ rw something (
        have_under-AllValues (BtreeMap.insert out l.author r) ps
          (AllValues-insert Ranges.IsValid out l.author r w.0 v) w.1)
  ]

  from_held_loop-IsValid :
      (held : LogRanges) (out : Interest) (cs : List ℕ)
      → LogRanges.IsValid held
      → IsSorted out × AllValues IsValid out
      → IsSorted (from_held_loop held out cs) × AllValues IsValid (from_held_loop held out cs)
  unfolding from_held_loop Interest.insert
  from_held_loop-IsValid held out [] v w = w
  from_held_loop-IsValid held out (c ∷ cs) v w =
      let e : Entry = whole (have_under [] (LogRanges.channel held c)) in
      from_held_loop-IsValid held (Interest.insert out c e) cs v (
        insert-IsSorted out c e w.0,
        AllValues-insert IsValid out c e
            (new-whole (have_under [] (LogRanges.channel held c)) (
              have_under-AllValues [] (LogRanges.channel held c) tt (AllValues-channel held c v))).1
            w.1,
      )

  pub from_held-IsValid :
      (held : LogRanges) (cs : List ℕ)
      → LogRanges.IsValid held
      → IsSorted (from_held held cs) × AllValues IsValid (from_held held cs)
  unfolding from_held Interest.empty
  from_held-IsValid held cs v = from_held_loop-IsValid held [] cs v (tt, tt)

  AllValues-retain :
      (p : ℕ → Entry → Bool) (i : Interest)
      → AllValues IsValid i
      → AllValues IsValid (BtreeMap.retain p i)
  unfolding BtreeMap.retain
  AllValues-retain p [] v = tt
  AllValues-retain p ((c, e) ∷ i) v = elim (Bool-cases (p c e)) [
    | inl k ↦ rw k (v.0, AllValues-retain p i v.1)
    | inr k ↦ rw k (AllValues-retain p i v.1)
  ]

  pub uncovered_by-IsValid :
      (i : Interest) (seen : List Interest)
      → IsSorted i × AllValues IsValid i
      → IsSorted (uncovered_by i seen) × AllValues IsValid (uncovered_by i seen)
  unfolding uncovered_by
  uncovered_by-IsValid i seen v = (
    retain-IsSorted (λ c e. not (covered_by e c seen)) i v.0,
    AllValues-retain (λ c e. not (covered_by e c seen)) i v.1,
  )
