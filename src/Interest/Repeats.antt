-- ===== src/Interest/Repeats.antt =====
-- An interest among the seen Wants covers itself, and more seen Wants cover no less.
use dash_router.Base.{
  ℕ, ◌≡◌, true, false, not, ◌||◌, some, List, [], ◌∷◌, ◌++◌, refl, arith, ap, ◌∙◌, Option-cases,
  Bool-cases, inl, inr, All,
}
use dash_router.Base.Order.{nat_ord}
use dash_router.BtreeMap
use dash_router.BtreeMap.{BtreeMap, IsSorted, AllValues, Above}
use dash_router.BtreeMap.Laws.{AllValues-get, get-retain, IsSorted_of_Above}
use dash_router.BtreeMap.Keys.{get-tail}
use dash_router.Interest
use dash_router.Log.{Authors}
use dash_router.Interest.{
  Entry, Interest, contains_prefix, records_of, covered_by, uncovered_by, any_uncovered_by,
}
use dash_router.Interest.Scope.{some_contains}
use dash_router.Interest.Common.{some_asks}
use dash_router.Interest.Asks.{IsValid}
use dash_router.Interest.Covering.{Covers, covered_by_iff}

records_of-append :
    (c : ℕ) (seen : List Interest) (i : Interest)
    → records_of c (seen ++ i ∷ []) ≡ records_of c seen ++ records_of c (i ∷ [])
unfolding records_of Interest.get
records_of-append c [] i = refl
records_of-append c (x ∷ seen) i = elim (Option-cases (BtreeMap.get x c)) [
  | inl e ↦ rw (e, records_of) (records_of-append c seen i)
  | inr (r, e) ↦ rw (e, records_of) (ap (λ rs. r ∷ rs) (records_of-append c seen i))
]

records_of-one :
    (c : ℕ) (i : Interest) (e : Entry) → BtreeMap.get i c ≡ some e → records_of c (i ∷ []) ≡ e ∷ []
unfolding records_of Interest.get
records_of-one c i e here = rw (here, records_of) refl

some_contains-append :
    (p : ℕ) (rs qs : List Entry)
    → some_contains p (rs ++ qs) ≡ (some_contains p rs || some_contains p qs)
some_contains-append p [] qs = refl
some_contains-append p (r ∷ rs) qs = ground (arith, some_contains-append p rs qs)

pub seen-append :
    (P : Interest → Type 0) (seen : List Interest) (i : Interest)
    → All P seen
    → P i
    → All P (seen ++ i ∷ [])
seen-append P [] i v w = (w, tt)
seen-append P (x ∷ seen) i v w = (v.0, seen-append P seen i v.1 w)

pub empty-nil : (i : Interest) → Interest.is_empty i ≡ true → i ≡ []
unfolding Interest.is_empty
empty-nil [] h = refl
empty-nil (x ∷ i) h = cc

module _ ⦃t : Authors⦄ where
  some_asks-append :
      (rs qs : List Entry) (a s : ℕ)
      → some_asks (rs ++ qs) a s ≡ (some_asks rs a s || some_asks qs a s)
  some_asks-append [] qs a s = refl
  some_asks-append (r ∷ rs) qs a s = ground (arith, some_asks-append rs qs a s)

  covered_by_self :
      (e : Entry) (c : ℕ) (seen : List Interest) (i : Interest)
      → IsValid e
      → All (AllValues IsValid) seen
      → AllValues IsValid i
      → BtreeMap.get i c ≡ some e
      → covered_by e c (seen ++ i ∷ []) ≡ true
  covered_by_self e c seen i v w k here =
      (covered_by_iff e c (seen ++ i ∷ []) v (seen-append (AllValues IsValid) seen i w k)).1
        (record {
          scope = λ p h.
              rw (records_of-append c seen i, records_of-one c i e here)
                (ground (arith, some_contains-append p (records_of c seen) (e ∷ [])));
          numbers = λ a s le h.
              rw (records_of-append c seen i, records_of-one c i e here)
                (ground (arith, some_asks-append (records_of c seen) (e ∷ []) a s));
        })

  covered_by-more :
      (e : Entry) (c : ℕ) (seen : List Interest) (i : Interest)
      → IsValid e
      → All (AllValues IsValid) seen
      → AllValues IsValid i
      → covered_by e c seen ≡ true
      → covered_by e c (seen ++ i ∷ []) ≡ true
  covered_by-more e c seen i v w k h =
      let covers : Covers e (records_of c seen) = (covered_by_iff e c seen v w).0 h in
      (covered_by_iff e c (seen ++ i ∷ []) v (seen-append (AllValues IsValid) seen i w k)).1
        (record {
          scope = λ p g. rw (records_of-append c seen i) (
              ground (
                arith,
                some_contains-append p (records_of c seen) (records_of c (i ∷ [])),
                covers.scope p g,
              ));
          numbers = λ a s le g. rw (records_of-append c seen i) (
              ground (
                arith,
                some_asks-append (records_of c seen) (records_of c (i ∷ [])) a s,
                covers.numbers a s le g,
              ));
        })

  -- Every entry of a sorted interest has the property that its look-ups have.
  each_covered :
      (i : Interest) (seen : List Interest)
      → IsSorted i
      → ((c : ℕ) (e : Entry) → BtreeMap.get i c ≡ some e → covered_by e c seen ≡ true)
      → any_uncovered_by i seen ≡ false
  unfolding any_uncovered_by BtreeMap.get
  each_covered [] seen s h = refl
  each_covered ((c, e) ∷ i) seen s h = ground (
    arith,
    h c e (ground arith),
    each_covered i seen (IsSorted_of_Above c i s) (λ c' e' k. h c' e' (at_tail c' e' k)),
  )
    where
      at_tail :
          (c' : ℕ) (e' : Entry)
          → BtreeMap.get i c' ≡ some e'
          → BtreeMap.get ((c, e) ∷ i) c' ≡ some e'
      at_tail c' e' k = get-tail c i c' e e' s k

  uncovered_by-none :
      (i : Interest) (seen : List Interest)
      → any_uncovered_by i seen ≡ false
      → uncovered_by i seen ≡ []
  unfolding any_uncovered_by uncovered_by BtreeMap.retain
  uncovered_by-none [] seen h = refl
  uncovered_by-none ((c, e) ∷ i) seen h = ground (arith, uncovered_by-none i seen)

  -- A valid interest asks for nothing new once it is among the seen Wants.
  pub any_uncovered_by-repeat :
      (i : Interest) (seen : List Interest)
      → IsSorted i × AllValues IsValid i
      → All (AllValues IsValid) seen
      → any_uncovered_by i (seen ++ i ∷ []) ≡ false
  any_uncovered_by-repeat i seen v w =
      each_covered i (seen ++ i ∷ []) v.0
        λ c e here. covered_by_self e c seen i (AllValues-get IsValid i c e v.1 here) w v.1 here

  -- With its uncovered part among the seen Wants, an interest has no uncovered part left.
  pub uncovered_by-once :
      (i : Interest) (seen : List Interest)
      → IsSorted i × AllValues IsValid i
      → IsSorted (uncovered_by i seen) × AllValues IsValid (uncovered_by i seen)
      → All (AllValues IsValid) seen
      → uncovered_by i (seen ++ uncovered_by i seen ∷ []) ≡ []
  unfolding uncovered_by
  uncovered_by-once i seen v u w = uncovered_by-none i (seen ++ uncovered_by i seen ∷ []) (
      each_covered i (seen ++ uncovered_by i seen ∷ []) v.0 λ c e here.
        let ve : IsValid e = AllValues-get IsValid i c e v.1 here in
        elim (Bool-cases (covered_by e c seen)) [
          | inl yes' ↦ covered_by-more e c seen (uncovered_by i seen) ve w u.1 yes'
          | inr no' ↦
              covered_by_self e c seen (uncovered_by i seen) ve w u.1
                (get-retain (λ c e. not (covered_by e c seen)) i c v.0 ∙ rw (here, no') refl)
        ])
