-- ===== src/Pack/Slices/Tiles.antt =====
-- The slices of `slice_entry` are in the order of their first prefixes, the authors of each from its
-- own first prefix on and before the next one's; no step panics.
use dash_router.Base.{
  ℕ, suc, ◌≤◌, ◌<◌, ◌≡◌, ◌≢◌, Bool, Option, none, some, List, [], ◌∷◌, ◌++◌, refl, arith,
  Bool-cases, inl, inr,
}
use dash_router.BtreeMap.{BtreeMap}
use dash_router.BtreeMap.Entries.{AllEntries}
use dash_router.Log.{Authors}
use dash_router.Ranges
use dash_router.Ranges.{Ranges}
use dash_router.Pack.Slices.{
  Run, extend, take, keep_of, shrink, rounds, Slicing, push_slice, or_insert, slice_run, slice_loop,
}
use dash_router.Pack.Slices.Shrink.{Returns, Returns-map, bind-Returns, AllEntries-extend}
use dash_router.Pack.Slices.Rounds.{Ends, shrink_run-Returns}
use dash_router.Pack.Slices.Runs.{InRun, RunsFrom}

pub AllEntries-map :
    (P Q : ℕ → Ranges → Type 0) (m : BtreeMap ℕ Ranges)
    → ((a : ℕ) (r : Ranges) → P a r → Q a r)
    → AllEntries P m
    → AllEntries Q m
AllEntries-map P Q [] h v = tt
AllEntries-map P Q ((a, r) ∷ m) h v = (h a r v.0, AllEntries-map P Q m h v.1)

module _ ⦃t : Authors⦄ (P : ℕ → Ranges → Type 0) (lo hi : ℕ) where
  open t use {author_prefix}

  -- The author has the property, and its prefix is from `f` on and before `u`.
  abbrev pub Within : ℕ → ℕ → ℕ → Ranges → Type 0
  Within f u a r = P a r × (f ≤ author_prefix a) × (author_prefix a < u)

  Within-widen :
      (f u u' : ℕ) (m : BtreeMap ℕ Ranges)
      → u ≤ u'
      → AllEntries (Within f u) m
      → AllEntries (Within f u') m
  Within-widen f u u' m h =
      AllEntries-map (Within f u) (Within f u') m (λ a r v. (v.0, v.1, omega arith))

  -- Where the next slice begins, or the bound after the last.
  abbrev pub upper : ℕ → List (ℕ × BtreeMap ℕ Ranges) → ℕ
  upper u [] = u
  upper u ((g, m) ∷ slices) = g

  abbrev pub Tiles : ℕ → List (ℕ × BtreeMap ℕ Ranges) → Type 0
  Tiles u [] = Unit {0}
  Tiles u ((f, m) ∷ slices) =
      (lo ≤ f)
      × (f ≤ hi)
      × (f < upper u slices)
      × AllEntries (Within f (upper u slices)) m
      × Tiles u slices

  Tiles-widen :
      (u u' : ℕ) (slices : List (ℕ × BtreeMap ℕ Ranges)) → u ≤ u' → Tiles u slices → Tiles u' slices
  Tiles-widen u u' [] h v = tt
  Tiles-widen u u' ((f, m) ∷ []) h (v0, v1, v2, v3, v4) =
      (v0, v1, omega arith, Within-widen f u u' m h v3, tt)
  Tiles-widen u u' ((f, m) ∷ (g, n) ∷ slices) h (v0, v1, v2, v3, v4) =
      (v0, v1, v2, v3, Tiles-widen u u' ((g, n) ∷ slices) h v4)

  Tiles-push :
      (u f : ℕ) (m : BtreeMap ℕ Ranges) (slices : List (ℕ × BtreeMap ℕ Ranges))
      → lo ≤ f
      → f ≤ hi
      → f < u
      → AllEntries (Within f u) m
      → Tiles f slices
      → Tiles u (slices ++ (f, m) ∷ [])
  Tiles-push u f m [] a b c d v = (a, b, c, d, tt)
  Tiles-push u f m ((g, n) ∷ []) a b c d (v0, v1, v2, v3, v4) = (v0, v1, v2, v3, (a, b, c, d, tt))
  Tiles-push u f m ((g, n) ∷ (g', n') ∷ slices) a b c d (v0, v1, v2, v3, v4) =
      (v0, v1, v2, v3, Tiles-push u f m ((g', n') ∷ slices) a b c d v4)

  -- The slices cut so far, and the one that grows, before the prefix `u`.
  abbrev pub Growing : ℕ → List (ℕ × BtreeMap ℕ Ranges) → Option ℕ → BtreeMap ℕ Ranges → Type 0
  Growing u slices none cur = Tiles u slices × (cur ≡ [])
  Growing u slices (some f) cur =
      Tiles f slices × (lo ≤ f) × (f ≤ hi) × (f < u) × AllEntries (Within f u) cur

  abbrev pub IsCut : ℕ → Slicing → Type 0
  IsCut u s = Growing u s.slices s.cur_first s.cur

  -- A slice grows.
  abbrev pub Started : ℕ → Slicing → Type 0
  Started u s = IsCut u s × (s.cur_first ≢ none)

  Growing-widen :
      (u u' : ℕ) (slices : List (ℕ × BtreeMap ℕ Ranges)) (first : Option ℕ)
      (cur : BtreeMap ℕ Ranges)
      → u ≤ u'
      → Growing u slices first cur
      → Growing u' slices first cur
  Growing-widen u u' slices none cur h v = (Tiles-widen u u' slices h v.0, v.1)
  Growing-widen u u' slices (some f) cur h (v0, v1, v2, v3, v4) =
      (v0, v1, v2, omega arith, Within-widen f u u' cur h v4)

  pub push_slice-Tiles :
      (u : ℕ) (slices : List (ℕ × BtreeMap ℕ Ranges)) (first : Option ℕ) (cur : BtreeMap ℕ Ranges)
      → Growing u slices first cur
      → Tiles u (push_slice slices first cur)
  unfolding push_slice
  push_slice-Tiles u slices none cur v = v.0
  push_slice-Tiles u slices (some f) cur (v0, v1, v2, v3, v4) =
      Tiles-push u f cur slices v1 v2 v3 v4 v0

  InRun-Within :
      (p f : ℕ) (run : Run)
      → f ≤ p
      → AllEntries (InRun P hi p) run
      → AllEntries (Within f (suc p)) run
  InRun-Within p f run h =
      AllEntries-map (InRun P hi p) (Within f (suc p)) run
        (λ a r v. (v.1, omega arith, omega arith))

  push_slice_nonempty :
      (slices : List (ℕ × BtreeMap ℕ Ranges)) (first : Option ℕ) (cur : BtreeMap ℕ Ranges)
      → first ≢ none
      → push_slice slices first cur ≢ []
  unfolding push_slice
  push_slice_nonempty slices none cur h = absurd (h refl)
  push_slice_nonempty [] (some p) cur h = cc
  push_slice_nonempty (x ∷ slices) (some p) cur h = cc

  -- The slices that a loop from the start returns; there is one where there is a run.
  abbrev pub IsTiled : List (ℕ × Run) → Slicing → Type 0
  IsTiled runs s =
      Tiles (suc hi) (push_slice s.slices s.cur_first s.cur)
      × (runs ≢ [] → push_slice s.slices s.cur_first s.cur ≢ [])

  Started-IsTiled : (runs : List (ℕ × Run)) (s : Slicing) → Started (suc hi) s → IsTiled runs s
  Started-IsTiled runs s v = (
    push_slice-Tiles (suc hi) s.slices s.cur_first s.cur v.0,
    λ h. push_slice_nonempty s.slices s.cur_first s.cur v.1,
  )

  module _ (keeps : (a : ℕ) (b : Ranges) → P a b → P a (take (keep_of b) b))
      (valid : (a : ℕ) (b : Ranges) → P a b → Ranges.IsValid b) where
    slice_run-IsCut :
        (fits : BtreeMap ℕ Ranges → Bool) (u p : ℕ) (run : Run) (s : Slicing)
        → lo ≤ p
        → p ≤ hi
        → u ≤ p
        → AllEntries (InRun P hi p) run
        → IsCut u s
        → Returns (Started (suc p)) (slice_run fits s (p, run))
    unfolding slice_run or_insert
    slice_run-IsCut fits u p run s a b c w v = elim (Bool-cases (fits (extend s.cur run))) [
      | inl fit ↦ rw fit (grown s.cur_first v, started s.cur_first)
      | inr over ↦ rw over (
          bind-Returns (Ends (Within p (suc p)) within-keeps within-valid fits) (Started (suc p))
            (shrink fits (rounds (extend [] run)) (extend [] run) []) _
            (shrink_run-Returns (Within p (suc p)) within-keeps within-valid fits run
              (InRun-Within p p run (omega arith) w))
            (λ small z. (
              (
                Tiles-widen u p (push_slice s.slices s.cur_first s.cur) c
                    (push_slice-Tiles u s.slices s.cur_first s.cur v),
                a,
                b,
                omega arith,
                z.1,
              ),
              cc,
            )))
    ]
      where
        within-keeps :
            (x : ℕ) (y : Ranges) → Within p (suc p) x y → Within p (suc p) x (take (keep_of y) y)
        within-keeps x y k = (keeps x y k.0, k.1, k.2)

        within-valid : (x : ℕ) (y : Ranges) → Within p (suc p) x y → Ranges.IsValid y
        within-valid x y k = valid x y k.0

        started : (first : Option ℕ) → or_insert first p ≢ none
        started none = cc
        started (some f) = cc

        grown :
            (first : Option ℕ)
            → Growing u s.slices first s.cur
            → Growing (suc p) s.slices (or_insert first p) (extend s.cur run)
        grown none v = (
          Tiles-widen u p s.slices c v.0,
          a,
          b,
          omega arith,
          AllEntries-extend (Within p (suc p)) s.cur run (rw v.1 tt)
              (InRun-Within p p run (omega arith) w),
        )
        grown (some f) (v0, v1, v2, v3, v4) = (
          v0,
          v1,
          v2,
          omega arith,
          AllEntries-extend (Within f (suc p)) s.cur run
              (Within-widen f u (suc p) s.cur (omega arith) v4)
              (InRun-Within p f run (omega arith) w),
        )

    slice_loop-Started :
        (fits : BtreeMap ℕ Ranges → Bool) (u : ℕ) (s : Slicing) (runs : List (ℕ × Run))
        → lo ≤ u
        → u ≤ suc hi
        → Started u s
        → RunsFrom P hi u runs
        → Returns (Started (suc hi)) (slice_loop fits s runs)
    unfolding slice_loop
    slice_loop-Started fits u s [] a b v w =
        (Growing-widen u (suc hi) s.slices s.cur_first s.cur b v.0, v.1)
    slice_loop-Started fits u s ((p, run) ∷ runs) a b v (w0, w1, w2, w3) =
        bind-Returns (Started (suc p)) (Started (suc hi)) (slice_run fits s (p, run)) _
          (slice_run-IsCut fits u p run s (omega arith) w1 w0 w2 v.0)
          (λ s' v'. slice_loop-Started fits (suc p) s' runs (omega arith) (omega arith) v' w3)

    pub slices-IsTiled :
        (fits : BtreeMap ℕ Ranges → Bool) (runs : List (ℕ × Run))
        → lo ≤ hi
        → RunsFrom P hi lo runs
        → Returns (IsTiled runs) (
            slice_loop fits
              (record { slices = []; cur = []; cur_first = none; truncated = 0 })
              runs)
    unfolding slice_loop push_slice
    slices-IsTiled fits [] h w = (tt, λ n. absurd (n refl))
    slices-IsTiled fits ((p, run) ∷ runs) h (w0, w1, w2, w3) =
        let start : Slicing = record { slices = []; cur = []; cur_first = none; truncated = 0 } in
        bind-Returns (Started (suc p)) (IsTiled ((p, run) ∷ runs)) (slice_run fits start (p, run)) _
          (slice_run-IsCut fits lo p run start w0 w1 w0 w2 (tt, refl))
          (λ s v.
            Returns-map (Started (suc hi)) (IsTiled ((p, run) ∷ runs)) (slice_loop fits s runs)
              (Started-IsTiled ((p, run) ∷ runs))
              (slice_loop-Started fits (suc p) s runs (omega arith) (omega arith) v w3))
