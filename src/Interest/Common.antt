-- ===== src/Interest/Common.antt =====
-- The second step of `covered_by`: one author, against the records with it in scope.
use dash_router.Base.{
  ℕ, ◌≤◌, ◌≡◌, ◌⊎◌, Bool, true, false, not, ◌&&◌, ◌||◌, none, some, List, [], ◌∷◌, refl, arith, ◌∙◌,
  Bool-cases, inl, inr, All,
}
use dash_router.Base.Order.{nat_ord}
use dash_router.Log.{Authors, log_ord}
use dash_router.Ranges
use dash_router.Ranges.{Ranges, seq_max}
use dash_router.Ranges.Sets.{
  contains-difference, contains-intersection, intersection-IsValid, difference-IsValid,
  is_empty-contains, contains-of_not_empty,
}
use dash_router.Interest.{
  Entry, contains, contains_prefix, have_of, meet, common_have, author_covered,
}
use dash_router.Interest.Scope.{some_contains}
use dash_router.Interest.Asks.{IsValid, asks, have_of-IsValid}

module _ ⦃t : Authors⦄ where
  open t use {author_prefix}

  -- Some record asks for the number of the author.
  abbrev pub some_asks : List Entry → ℕ → ℕ → Bool
  some_asks [] a s = false
  some_asks (r ∷ records) a s = asks r a s || some_asks records a s

  -- What the haves have in common is what no record asks for.
  record Common (a : ℕ) (records : List Entry) (x : Ranges) (y : Ranges) : Type 0 where
    valid : Ranges.IsValid y
    member : (s : ℕ) → Ranges.contains y s ≡ (Ranges.contains x s && not (some_asks records a s))

  Common-some :
      (a : ℕ) (x : Ranges) (records : List Entry)
      → Ranges.IsValid x
      → All IsValid records
      → (y : Ranges) × (common_have a (some x) records ≡ some y) × Common a records x y
  Common-some a x [] v w =
      (x, unfold common_have in refl, record { valid = v; member = λ s. ground arith })
  Common-some a x (r ∷ records) v w = elim (Bool-cases (contains r a)) [
    | inl k ↦
        let h : Ranges.IsValid (have_of r a) = have_of-IsValid r a w.0 in
        let (y, e, c) =
          Common-some a (Ranges.intersection x (have_of r a)) records
            (intersection-IsValid x (have_of r a) v h) w.1 in
        (
          y,
          first k ∙ e,
          record {
            valid = c.valid;
            member = λ s. c.member s ∙ ground (arith, contains-intersection x (have_of r a) v h s);
          },
        )
    | inr k ↦
        let (y, e, c) = Common-some a x records v w.1 in
        (y, skipped k ∙ e, record { valid = c.valid; member = λ s. c.member s ∙ ground arith })
  ]
    where
      first :
          contains r a ≡ true
          → common_have a (some x) (r ∷ records)
            ≡ common_have a (some (Ranges.intersection x (have_of r a))) records
      first k = unfold common_have meet in rw (k, common_have)

      skipped :
          contains r a ≡ false
          → common_have a (some x) (r ∷ records) ≡ common_have a (some x) records
      skipped k = unfold common_have in rw (k, common_have)

  pub contains-prefix : (e : Entry) (a : ℕ) → contains e a ≡ contains_prefix e (author_prefix a)
  unfolding contains
  contains-prefix e a = refl

  abbrev Found : ℕ → List Entry → Type 0
  Found a records =
      ((common_have a none records ≡ none) × (some_contains (author_prefix a) records ≡ false))
      ⊎ ((y : Ranges) × (common_have a none records ≡ some y)
          × Ranges.IsValid y
          × ((s : ℕ) → Ranges.contains y s ≡ not (some_asks records a s))
          × (some_contains (author_prefix a) records ≡ true))

  common_none : (a : ℕ) (records : List Entry) → All IsValid records → Found a records
  common_none a [] w = inl (unfold common_have in refl, refl)
  common_none a (r ∷ records) w = elim (Bool-cases (contains r a)) [
    | inl k ↦
        let h : Ranges.IsValid (have_of r a) = have_of-IsValid r a w.0 in
        let (y, e, c) = Common-some a (have_of r a) records h w.1 in
        inr (
          y,
          first k ∙ e,
          c.valid,
          λ s. c.member s ∙ ground arith,
          ground (arith, contains-prefix r a),
        )
    | inr k ↦ elim (common_none a records w.1) [
      | inl (e, n) ↦ inl (skipped k ∙ e, ground (arith, contains-prefix r a))
      | inr (y, e, v, m, n) ↦
          inr (y, skipped k ∙ e, v, λ s. m s ∙ ground arith, ground (arith, contains-prefix r a))
    ]
  ]
    where
      first :
          contains r a ≡ true
          → common_have a none (r ∷ records) ≡ common_have a (some (have_of r a)) records
      first k = unfold common_have meet in rw (k, common_have)

      skipped : contains r a ≡ false → common_have a none (r ∷ records) ≡ common_have a none records
      skipped k = unfold common_have in rw (k, common_have)

  -- For an author: some record has it in scope, and asks for all that the entry's have leaves out.
  abbrev pub Matched : Entry → List Entry → ℕ → Type 0
  Matched e records a =
      (some_contains (author_prefix a) records ≡ true)
      × ((s : ℕ)
          → s ≤ seq_max
          → Ranges.contains (have_of e a) s ≡ false
          → some_asks records a s ≡ true)

  module _ (e : Entry) (records : List Entry) (v : IsValid e) (w : All IsValid records)
      (a : ℕ) where
    pub author_sound : author_covered e records a ≡ true → Matched e records a
    author_sound h = elim (common_none a records w) [
      | inl (n, _) ↦ absurd (never n)
      | inr (y, k, vy, m, found) ↦ (
        found,
        λ s le out. ground (
          arith,
          m s,
          is_empty-contains (Ranges.difference y (have_of e a)) s (empties y k),
          contains-difference y (have_of e a) vy (have_of-IsValid e a v) s,
        ),
      )
    ]
      where
        never : common_have a none records ≡ none → ⊥
        never n = unfold author_covered in cc (rw (n, author_covered) at h)

        empties :
            (y : Ranges)
            → common_have a none records ≡ some y
            → Ranges.is_empty (Ranges.difference y (have_of e a)) ≡ true
        empties y k = unfold author_covered in rw (k, author_covered) at h

    pub author_complete : Matched e records a → author_covered e records a ≡ true
    unfolding author_covered
    author_complete h = elim (common_none a records w) [
      | inl (n, none_found) ↦ absurd (ground (arith, h.0))
      | inr (y, k, vy, m, found) ↦
          rw (k, author_covered)
            (elim (Bool-cases (Ranges.is_empty (Ranges.difference y (have_of e a)))) [
              | inl z ↦ z
              | inr some_left ↦
                  let hv : Ranges.IsValid (have_of e a) = have_of-IsValid e a v in
                  let (s, le, c) =
                    contains-of_not_empty (Ranges.difference y (have_of e a))
                      (difference-IsValid y (have_of e a) vy hv) some_left in
                  absurd
                    (ground (arith, h.1 s le, m s, contains-difference y (have_of e a) vy hv s))
            ])
    ]
