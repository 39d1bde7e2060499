-- ===== src/Interest/Scope.antt =====
-- The first step of `covered_by`: the loop over the sorted scopes decides whether they tile the
-- entry's own scope.
use dash_router.Base.{
  ℕ, ◌+◌, ◌≤◌, ◌<◌, ◌≡◌, ◌↔◌, Bool, true, false, ◌&&◌, ◌||◌, none, some, List, [], ◌∷◌, refl, arith,
  leb, Option-cases, inl, inr,
}
use dash_router.Interest.{
  Entry, contains_prefix, scope_le, insert_scope, sort_scopes, scopes_of, scan, scope_covered,
}

-- Some scope of the list has the prefix.
abbrev in_some : ℕ → List (ℕ × ℕ) → Bool
in_some p [] = false
in_some p ((lo, hi) ∷ xs) = (leb lo p && leb p hi) || in_some p xs

-- Some record has the prefix in its scope.
abbrev pub some_contains : ℕ → List Entry → Bool
some_contains p [] = false
some_contains p (r ∷ records) = contains_prefix r p || some_contains p records

in_some-insert :
    (p : ℕ) (x : ℕ × ℕ) (xs : List (ℕ × ℕ))
    → in_some p (insert_scope x xs) ≡ ((leb x.0 p && leb p x.1) || in_some p xs)
unfolding insert_scope
in_some-insert p x [] = refl
in_some-insert p x (y ∷ xs) = ground (arith, in_some-insert p x xs)

in_some-sort : (p : ℕ) (xs : List (ℕ × ℕ)) → in_some p (sort_scopes xs) ≡ in_some p xs
unfolding sort_scopes
in_some-sort p [] = refl
in_some-sort p (x ∷ xs) = ground (arith, in_some-insert p x (sort_scopes xs), in_some-sort p xs)

in_some-scopes : (p : ℕ) (es : List Entry) → in_some p (scopes_of es) ≡ some_contains p es
unfolding scopes_of contains_prefix
in_some-scopes p [] = refl
in_some-scopes p (e ∷ es) = ground (arith, in_some-scopes p es)

-- The starts are in order, from `n` on.
abbrev StartsFrom : ℕ → List (ℕ × ℕ) → Type 0
StartsFrom n [] = Unit {0}
StartsFrom n ((lo, hi) ∷ xs) = (n ≤ lo) × StartsFrom lo xs

insert-StartsFrom :
    (n : ℕ) (x : ℕ × ℕ) (xs : List (ℕ × ℕ))
    → n ≤ x.0
    → StartsFrom n xs
    → StartsFrom n (insert_scope x xs)
unfolding insert_scope scope_le
insert-StartsFrom n x [] h s = (h, tt)
insert-StartsFrom n x (y ∷ xs) h s = ground (arith, insert-StartsFrom y.0 x xs)

sort-StartsFrom : (xs : List (ℕ × ℕ)) → StartsFrom 0 (sort_scopes xs)
unfolding sort_scopes
sort-StartsFrom [] = tt
sort-StartsFrom (x ∷ xs) = insert-StartsFrom 0 x (sort_scopes xs) (omega arith) (sort-StartsFrom xs)

-- If the loop ends with nothing needed, every prefix from `n` to `top` is covered.
scan-none :
    (top n p : ℕ) (xs : List (ℕ × ℕ))
    → scan top (some n) xs ≡ none
    → n ≤ p
    → p ≤ top
    → in_some p xs ≡ true
unfolding scan
scan-none top n p [] e h k = cc
scan-none top n p ((lo, hi) ∷ xs) e h k =
    ground (arith, scan-none top (hi + 1) p xs, scan-none top n p xs)

none_before : (p n : ℕ) (xs : List (ℕ × ℕ)) → StartsFrom n xs → p < n → in_some p xs ≡ false
none_before p n [] s h = refl
none_before p n ((lo, hi) ∷ xs) s h = ground (arith, none_before p lo xs)

scan_done : (top : ℕ) (xs : List (ℕ × ℕ)) → scan top none xs ≡ none
unfolding scan
scan_done top [] = refl
scan_done top (x ∷ xs) = refl

-- If it ends with a prefix, that one lies between and is not covered.
scan-some :
    (top n m k : ℕ) (xs : List (ℕ × ℕ))
    → StartsFrom k xs
    → n ≤ top
    → scan top (some n) xs ≡ some m
    → (n ≤ m) × (m ≤ top) × (in_some m xs ≡ false)
unfolding scan
scan-some top n m k [] s h e = ground arith
scan-some top n m k ((lo, hi) ∷ xs) s h e = ground (
  arith,
  scan_done top xs,
  none_before n lo xs,
  scan-some top (hi + 1) m lo xs s.1,
  scan-some top n m lo xs s.1,
)

module _ (e : Entry) (records : List Entry) where
  covered_sound :
      scope_covered e records ≡ true
      → (p : ℕ) → contains_prefix e p ≡ true
      → some_contains p records ≡ true
  unfolding scope_covered contains_prefix
  covered_sound h p c = ground (
    arith,
    scan-none e.hi e.lo p (sort_scopes (scopes_of records)),
    in_some-sort p (scopes_of records),
    in_some-scopes p records,
  )

  covered_complete :
      e.lo ≤ e.hi
      → ((p : ℕ) → contains_prefix e p ≡ true → some_contains p records ≡ true)
      → scope_covered e records ≡ true
  unfolding scope_covered contains_prefix
  covered_complete le h =
      elim (Option-cases (scan e.hi (some e.lo) (sort_scopes (scopes_of records)))) [
        | inl done ↦ rw (done, scope_covered)
        | inr (m, gap) ↦
            let g : (e.lo ≤ m)
                × (m ≤ e.hi)
                × (in_some m (sort_scopes (scopes_of records)) ≡ false) =
              scan-some e.hi e.lo m 0 (sort_scopes (scopes_of records))
                (sort-StartsFrom (scopes_of records)) le gap in
            ground (arith, h m, in_some-sort m (scopes_of records), in_some-scopes m records)
      ]

  -- For a scope that is not inverted, the loop over the sorted scopes succeeds exactly when
  -- every prefix of the scope is in the scope of some record.
  pub scope_covered_iff :
      e.lo ≤ e.hi
      → (scope_covered e records ≡ true)
        ↔ ((p : ℕ) → contains_prefix e p ≡ true → some_contains p records ≡ true)
  scope_covered_iff le = (covered_sound, covered_complete le)
