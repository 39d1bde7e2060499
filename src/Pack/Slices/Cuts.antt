-- ===== src/Pack/Slices/Cuts.antt =====
-- The scopes of the slices cover the scope of the entry, so no slice's cut under-asks; and where the
-- entry is valid, cutting it does not panic.
use dash_router.Base.{
  ℕ, suc, ◌-◌, ◌≤◌, ◌≡◌, ◌≢◌, Bool, true, false, ◌||◌, List, [], ◌∷◌, ◌++◌, refl, sym, ap, ◌+◌, ◌∙◌,
  arith, ltb, elem, Bool-cases, inl, inr,
}
use dash_router.Base.Order.{nat_ord}
use dash_router.BtreeMap
use dash_router.BtreeMap.{BtreeMap, IsSorted, AllValues}
use dash_router.BtreeMap.Entries.{AllEntries, AllEntries-each}
use dash_router.Log.{Authors}
use dash_router.Ranges
use dash_router.Ranges.{Ranges}
use dash_router.Ranges.Combine.{contains-inside_at}
use dash_router.Interest
use dash_router.Interest.{Entry, new, contains, contains_prefix, is_pure}
use dash_router.Interest.Asks.{IsValid, asks}
use dash_router.Interest.Build.{
  pure_nothing, have_in, asks-have_in, new-ok, new-Builds, asks-Builds,
}
use dash_router.Wire.{WireMessage}
use dash_router.Pack.Slices.{
  take, keep_of, runs_of, sort_authors, with_prefix, push_slice, made, scoped, slice_fits,
  slices_of, scope_slices, slice_entry, Author, insert_author, runs_loop, Run,
}
use dash_router.Pack.Slices.Shrink.{Returns, bind-Returns, take-IsFrom, inside_at-take, odd-keep_of}
use dash_router.Pack.Slices.Runs.{Scoped, runs-RunsFrom}
use dash_router.Pack.Slices.Tiles.{AllEntries-map, Within, Tiles, IsTiled, slices-IsTiled}

-- The ranges are valid and list nothing that the have does not.
abbrev pub IsPart : BtreeMap ℕ Ranges → ℕ → Ranges → Type 0
IsPart have a r =
    ((q : ℕ) → Ranges.contains r q ≡ true → Ranges.contains (have_in have a) q ≡ true)
    × Ranges.IsValid r

IsPart-take :
    (have : BtreeMap ℕ Ranges) (a : ℕ) (b : Ranges)
    → IsPart have a b
    → IsPart have a (take (keep_of b) b)
IsPart-take have a b v = (
  λ q h. v.0 q (
      contains-inside_at b q
      ∙ inside_at-take (keep_of b) b q (odd-keep_of b)
          (sym (contains-inside_at (take (keep_of b) b) q) ∙ h)),
  take-IsFrom 0 (keep_of b) b v.1,
)

module _ ⦃t : Authors⦄ where
  open t use {author_prefix}

  -- Some entry asks for the number of the author.
  abbrev pub some_slice_asks : List Entry → ℕ → ℕ → Bool
  some_slice_asks [] a q = false
  some_slice_asks (e ∷ es) a q = asks e a q || some_slice_asks es a q

  -- The author is in the scope.
  abbrev InScope : ℕ → ℕ → ℕ → Ranges → Type 0
  InScope lo hi a r = (lo ≤ author_prefix a) × (author_prefix a ≤ hi)

  -- `Entry::new` takes a have whose authors are in a scope that is not empty.
  made-Returns :
      (lo hi : ℕ) (have : BtreeMap ℕ Ranges)
      → lo ≤ hi
      → AllEntries (InScope lo hi) have
      → Returns (λ e. new lo hi have ≡ Interest.ok e) (made lo hi have)
  unfolding made
  made-Returns lo hi have h v = let (e, eq') = new-ok lo hi have h v in rw (eq', made) refl

  -- The entry made of a part of a have asks, in its scope, for what the have does not list.
  made-IsPart :
      (lo hi : ℕ) (have whole : BtreeMap ℕ Ranges) (e : Entry) (a q : ℕ)
      → AllEntries (IsPart whole) have
      → Ranges.contains (have_in whole a) q ≡ false
      → new lo hi have ≡ Interest.ok e
      → lo ≤ author_prefix a
      → author_prefix a ≤ hi
      → asks e a q ≡ true
  made-IsPart lo hi have whole e a q v r k p h =
      asks-Builds (IsPart whole) lo hi e a q (new-Builds (IsPart whole) lo hi have e v k)
        (λ x part. ground (arith, part.0 q)) p h

  -- In the scope the entries ask for the number of the author, if the have does not list it.
  abbrev AskAll : BtreeMap ℕ Ranges → ℕ → ℕ → ℕ → ℕ → List Entry → Type 0
  AskAll whole lo hi a q es =
      Ranges.contains (have_in whole a) q ≡ false
      → lo ≤ author_prefix a
      → author_prefix a ≤ hi
      → some_slice_asks es a q ≡ true

  -- Slices that are parts of a have and tile the scope are scoped without a panic, and ask together
  -- for all in the scope that the have does not list.
  scoped-Returns :
      (bottom lo hi first : ℕ) (have whole : BtreeMap ℕ Ranges)
      (slices : List (ℕ × BtreeMap ℕ Ranges)) (a q : ℕ)
      → lo ≤ first
      → Tiles (IsPart whole) bottom hi (suc hi) ((first, have) ∷ slices)
      → Returns (AskAll whole lo hi a q) (scoped lo hi ((first, have) ∷ slices))
  unfolding scoped
  scoped-Returns bottom lo hi first have whole [] a q l (v0, v1, v2, v3, v4) =
      bind-Returns (λ e. new lo hi have ≡ Interest.ok e) _ (made lo hi have) _
        (made-Returns lo hi have (omega arith) (
          AllEntries-map (Within (IsPart whole) bottom hi first (suc hi)) (InScope lo hi) have
            (λ x y z. (omega arith, omega arith)) v3))
        (λ e k r p h. ground (
          arith,
          made-IsPart lo hi have whole e a q
              (AllEntries-map (Within (IsPart whole) bottom hi first (suc hi)) (IsPart whole) have
                (λ x y z. z.0) v3)
              r k p h,
        ))
  scoped-Returns bottom lo hi first have whole ((next, have') ∷ slices) a q l (v0, v1, v2, v3, v4) =
      bind-Returns (λ e. new lo (next - 1) have ≡ Interest.ok e) _ (made lo (next - 1) have) _
        (made-Returns lo (next - 1) have (omega arith) (
          AllEntries-map (Within (IsPart whole) bottom hi first next) (InScope lo (next - 1)) have
            (λ x y z. (omega arith, omega arith)) v3))
        (λ e k.
          bind-Returns _ _ (scoped next hi ((next, have') ∷ slices)) _
            (scoped-Returns bottom next hi next have' whole slices a q (omega arith) v4)
            (λ es rest r p h. elim (Bool-cases (ltb (author_prefix a) next)) [
              | inl before ↦ ground (
                arith,
                made-IsPart lo (next - 1) have whole e a q
                    (AllEntries-map (Within (IsPart whole) bottom hi first next) (IsPart whole) have
                      (λ x y z. z.0) v3)
                    r k p (ground arith),
              )
              | inr after ↦ ground (arith, rest r (ground arith) h)
            ]))

runs_loop_nonempty : (p : ℕ) (run : Run) (xs : List Author) → runs_loop p run xs ≢ []
unfolding runs_loop
runs_loop_nonempty p run [] = cc
runs_loop_nonempty p run ((q, a, r) ∷ xs) =
    ground (arith, runs_loop_nonempty p (run ++ (a, r) ∷ []) xs)

runs_of_nonempty : (xs : List Author) → xs ≢ [] → runs_of xs ≢ []
unfolding runs_of
runs_of_nonempty [] h = absurd (h refl)
runs_of_nonempty ((p, a, r) ∷ xs) h = runs_loop_nonempty p ((a, r) ∷ []) xs

insert_author_nonempty : (x : Author) (xs : List Author) → insert_author x xs ≢ []
unfolding insert_author
insert_author_nonempty x [] = cc
insert_author_nonempty x (y ∷ xs) = ground arith

module _ ⦃t : Authors⦄ where
  open t use {author_prefix}

  runs_nonempty :
      (x : ℕ × Ranges) (m : BtreeMap ℕ Ranges) → runs_of (sort_authors (with_prefix (x ∷ m))) ≢ []
  unfolding with_prefix sort_authors
  runs_nonempty (a, r) m =
      runs_of_nonempty (sort_authors (with_prefix ((a, r) ∷ m)))
        (insert_author_nonempty (t.author_prefix a, a, r) (sort_authors (with_prefix m)))

  AllEntries-keys :
      (C : ℕ → Type 0) (m : BtreeMap ℕ Ranges)
      → ((a : ℕ) → elem a (BtreeMap.keys m) ≡ true → C a)
      → AllEntries (λ a r. C a) m
  unfolding BtreeMap.keys
  AllEntries-keys C [] h = tt
  AllEntries-keys C ((a, r) ∷ m) h =
      (h a (ground arith), AllEntries-keys C m (λ b k. h b (ground (arith, k))))

  AllEntries-parts :
      (whole : BtreeMap ℕ Ranges) (m : BtreeMap ℕ Ranges) (lo hi : ℕ)
      → AllEntries
          (λ a r. (q : ℕ) → Ranges.contains r q ≡ true → Ranges.contains (have_in whole a) q ≡ true)
          m
      → AllValues Ranges.IsValid m
      → AllEntries (InScope lo hi) m
      → AllEntries (Scoped (IsPart whole) lo hi) m
  AllEntries-parts whole [] lo hi p v s = tt
  AllEntries-parts whole ((a, r) ∷ m) lo hi p v s =
      (((p.0, v.0), s.0.0, s.0.1), AllEntries-parts whole m lo hi p.1 v.1 s.1)

  -- The have of a valid entry.
  have-Scoped : (e : Entry) → IsValid e → AllEntries (Scoped (IsPart e.have) e.lo e.hi) e.have
  unfolding contains contains_prefix
  have-Scoped e v =
      AllEntries-parts e.have e.have e.lo e.hi
        (AllEntries-each
          (λ a r.
            (q : ℕ) → Ranges.contains r q ≡ true → Ranges.contains (have_in e.have a) q ≡ true)
          e.have v.sorted (λ a r h q k. rw (h, have_in) k))
        v.ranges
        (AllEntries-keys (λ a. (e.lo ≤ author_prefix a) × (author_prefix a ≤ e.hi)) e.have
          (λ a h. ground (arith, v.within a h)))

  module _ (encoded_len : WireMessage → ℕ) (sender : ℕ) (budget : ℕ) where
    -- The slices ask for what the entry asks for, if it lists an author.
    abbrev pub Slices : Entry → ℕ → ℕ → List Entry × ℕ → Type 0
    Slices e a q out = is_pure e ≡ false → asks e a q ≡ true → some_slice_asks out.0 a q ≡ true

    AskAll-Slices :
        (e : Entry) (a q truncated : ℕ) (es : List Entry)
        → AskAll e.have e.lo e.hi a q es
        → Slices e a q (es, truncated)
    AskAll-Slices e a q truncated es v n k = let ask = asks-have_in e a q k in v ask.2 ask.0 ask.1

    scope_slices-Returns :
        (pure_fits : Bool) (e : Entry) (truncated : ℕ) (slices : List (ℕ × BtreeMap ℕ Ranges))
        (a q : ℕ)
        → e.lo ≤ e.hi
        → (is_pure e ≡ false → slices ≢ [])
        → Tiles (IsPart e.have) e.lo e.hi (suc e.hi) slices
        → Returns (Slices e a q) (scope_slices pure_fits e.lo e.hi truncated slices)
    unfolding scope_slices
    scope_slices-Returns true e truncated [] a q v n w =
        bind-Returns (AskAll e.have e.lo e.hi a q) (Slices e a q)
          (scoped e.lo e.hi ((e.lo, []) ∷ [])) _
          (scoped-Returns e.lo e.lo e.hi e.lo [] e.have [] a q (omega arith)
            (omega arith, v, omega arith, tt, tt))
          (λ es k. AskAll-Slices e a q truncated es k)
    scope_slices-Returns false e truncated [] a q v n w = λ h k. absurd (n h refl)
    scope_slices-Returns pure_fits e truncated ((first, have) ∷ slices) a q v n w =
        bind-Returns (AskAll e.have e.lo e.hi a q) (Slices e a q)
          (scoped e.lo e.hi ((first, have) ∷ slices)) _
          (scoped-Returns e.lo e.lo e.hi first have e.have slices a q w.0 w)
          (λ es k. AskAll-Slices e a q truncated es k)

    listed-runs : (e : Entry) → is_pure e ≡ false → runs_of (sort_authors (with_prefix e.have)) ≢ []
    listed-runs e h = go e.have refl
      where
        go :
            (have : BtreeMap ℕ Ranges)
            → e.have ≡ have
            → runs_of (sort_authors (with_prefix have)) ≢ []
        go [] k =
            absurd (pure_nothing e.lo e.hi (sym (ap (λ m. is_pure (record e { have = m })) k) ∙ h))
        go (x ∷ m) k = runs_nonempty x m

    -- Cutting a valid entry does not panic, and if it lists an author, the slices ask together for all
    -- that it asks for.
    pub slice_entry-Returns :
        (c : ℕ) (e : Entry) (truncated : ℕ) (a q : ℕ)
        → IsValid e
        → Returns (Slices e a q) (slice_entry encoded_len sender budget c e truncated)
    unfolding slice_entry slices_of
    slice_entry-Returns c e truncated a q v =
        let runs : List (ℕ × Run) = runs_of (sort_authors (with_prefix e.have)) in
        bind-Returns (IsTiled (IsPart e.have) e.lo e.hi runs) (Slices e a q)
          (slices_of encoded_len sender budget c e) _
          (slices-IsTiled (IsPart e.have) e.lo e.hi (IsPart-take e.have) (λ x y z. z.1)
            (slice_fits encoded_len sender budget c e) runs v.scope
            (runs-RunsFrom (IsPart e.have) e.hi e.lo e.have (have-Scoped e v)))
          (λ s w.
            scope_slices-Returns (slice_fits encoded_len sender budget c e []) e
              (truncated + s.truncated) (push_slice s.slices s.cur_first s.cur) a q v.scope
              (λ h. w.1 (listed-runs e h)) w.0)
