-- ===== src/Pack/Slices/Runs.antt =====
-- The runs of `slice_entry`: of equal prefix each, in the order of their prefixes.
use dash_router.Base.{
  ℕ, suc, ◌≤◌, ◌≡◌, List, [], ◌∷◌, ◌++◌, refl, sym, ◌∙◌, arith, ◌==◌, Bool-cases, inl, inr,
}
use dash_router.BtreeMap.{BtreeMap}
use dash_router.BtreeMap.Entries.{AllEntries}
use dash_router.Log.{Authors}
use dash_router.Ranges.{Ranges}
use dash_router.Pack.Slices.{
  Author, author_le, insert_author, sort_authors, Run, runs_loop, runs_of, with_prefix,
}
use dash_router.Pack.Slices.Shrink.{AllEntries-append}

module _ ⦃t : Authors⦄ (P : ℕ → Ranges → Type 0) where
  open t use {author_prefix}

  -- The author has the property, and its prefix is in the scope.
  abbrev pub Scoped : ℕ → ℕ → ℕ → Ranges → Type 0
  Scoped lo hi a r = P a r × (lo ≤ author_prefix a) × (author_prefix a ≤ hi)

  module _ (hi : ℕ) where
    -- The authors are in the order of their prefixes, from `u` on.
    abbrev Ordered : ℕ → List Author → Type 0
    Ordered u [] = Unit {0}
    Ordered u ((p, a, r) ∷ xs) = (u ≤ p) × (p ≤ hi) × (author_prefix a ≡ p) × P a r × Ordered p xs

    Ordered-insert :
        (u p a : ℕ) (r : Ranges) (xs : List Author)
        → u ≤ p
        → p ≤ hi
        → author_prefix a ≡ p
        → P a r
        → Ordered u xs
        → Ordered u (insert_author (p, a, r) xs)
    unfolding insert_author author_le
    Ordered-insert u p a r [] h k e v w = (h, k, e, v, tt)
    Ordered-insert u p a r ((q, b, r') ∷ xs) h k e v (w0, w1, w2, w3, w4) =
        elim (Bool-cases (author_le (p, a, r) (q, b, r'))) [
          | inl le ↦ rw (le, insert_author) (h, k, e, v, (ground arith, w1, w2, w3, w4))
          | inr gt ↦
              rw (gt, insert_author)
                (w0, w1, w2, w3, Ordered-insert q p a r xs (ground arith) k e v w4)
        ]

    Ordered-sort :
        (lo : ℕ) (m : BtreeMap ℕ Ranges)
        → AllEntries (Scoped lo hi) m
        → Ordered lo (sort_authors (with_prefix m))
    unfolding sort_authors with_prefix
    Ordered-sort lo [] v = tt
    Ordered-sort lo ((a, r) ∷ m) v =
        Ordered-insert lo (author_prefix a) a r (sort_authors (with_prefix m)) v.0.1 v.0.2 refl
          v.0.0 (Ordered-sort lo m v.1)

    -- The author has the property and the prefix of the run.
    abbrev pub InRun : ℕ → ℕ → Ranges → Type 0
    InRun p a r = (author_prefix a ≡ p) × P a r

    abbrev pub RunsFrom : ℕ → List (ℕ × Run) → Type 0
    RunsFrom u [] = Unit {0}
    RunsFrom u ((p, run) ∷ runs) =
        (u ≤ p) × (p ≤ hi) × AllEntries (InRun p) run × RunsFrom (suc p) runs

    runs_loop-RunsFrom :
        (u p : ℕ) (run : Run) (xs : List Author)
        → u ≤ p
        → p ≤ hi
        → AllEntries (InRun p) run
        → Ordered p xs
        → RunsFrom u (runs_loop p run xs)
    unfolding runs_loop
    runs_loop-RunsFrom u p run [] h k v w = (h, k, v, tt)
    runs_loop-RunsFrom u p run ((q, a, r) ∷ xs) h k v (w0, w1, w2, w3, w4) =
        elim (Bool-cases (p == q)) [
          | inl same ↦
              let e : p ≡ q = ground arith in
              rw (same, runs_loop)
                (runs_loop-RunsFrom u p (run ++ (a, r) ∷ []) xs h k
                  (AllEntries-append (InRun p) run ((a, r) ∷ []) v ((w2 ∙ sym e, w3), tt))
                  (rw e w4))
          | inr other ↦
              rw (other, runs_loop)
                (
                  h,
                  k,
                  v,
                  runs_loop-RunsFrom (suc p) q ((a, r) ∷ []) xs (ground arith) w1 ((w2, w3), tt) w4,
                )
        ]

    -- The runs of a map whose authors are in scope.
    pub runs-RunsFrom :
        (lo : ℕ) (m : BtreeMap ℕ Ranges)
        → AllEntries (Scoped lo hi) m
        → RunsFrom lo (runs_of (sort_authors (with_prefix m)))
    unfolding runs_of
    runs-RunsFrom lo m v = go (sort_authors (with_prefix m)) (Ordered-sort lo m v)
      where
        go : (xs : List Author) → Ordered lo xs → RunsFrom lo (runs_of xs)
        go [] w = tt
        go ((p, a, r) ∷ xs) (w0, w1, w2, w3, w4) =
            runs_loop-RunsFrom lo p ((a, r) ∷ []) xs w0 w1 ((w2, w3), tt) w4
