-- ===== src/Fair/Bound.antt =====
-- In any run of the wrapped machine, the starving actions between two resets are bounded.
use dash_router.Base.{
  ℕ, ◌+◌, ◌≤◌, ◌≡◌, Bool, true, not, ◌&&◌, ◌||◌, Option, none, some, List, [], ◌∷◌, refl, ap, ◌∙◌,
  arith, if◌then◌else◌,
}
use dash_router.Fair.{
  Outcome, ok, err, FairError, unfair, Fair, next_streak, with_streak, fair_transition,
}

module _ {S A F E : Type 0} (fair : Fair S A F E) where
  -- The states of a run that takes each action of the list in turn, none of them refused.
  pub data Run : S × ℕ → List A → S × ℕ → Type 0 where
    done : {x : S × ℕ} → Run x [] x
    step :
        {x y z : S × ℕ} {a : A} {as' : List A} {fx : F}
        → fair_transition fair x a ≡ ok y fx
        → Run y as' z
        → Run x (a ∷ as') z

  -- No action of the list resets the streak.
  abbrev pub no_reset : List A → Bool
  no_reset [] = true
  no_reset (a ∷ as') = (fair.starving a || not (fair.progress a)) && no_reset as'

  abbrev pub starved : List A → ℕ
  starved [] = 0
  starved (a ∷ as') = if fair.starving a then 1 + starved as' else starved as'

  streak_of : Outcome (S × ℕ) F (FairError E) → Option ℕ
  streak_of (ok x fx) = some x.1
  streak_of (err e) = none

  -- One step moves the streak as `next_streak` says.
  step-streak :
      (x y : S × ℕ) (a : A) (fx : F)
      → fair_transition fair x a ≡ ok y fx
      → next_streak fair x.1 a ≡ some y.1
  unfolding fair_transition with_streak streak_of
  step-streak (s, k) y a fx e = go (next_streak fair k a) (fair.machine s a) refl e
    where
      go :
          (o : Option ℕ) (r : Outcome S F E)
          → next_streak fair k a ≡ o
          → elim o [ none ↦ err unfair | some k' ↦ with_streak fair k' r ] ≡ ok y fx
          → next_streak fair k a ≡ some y.1
      go none r h e = cc
      go (some k') (ok s' fx') h e = h ∙ ap streak_of e
      go (some k') (err x) h e = cc

  streak_le :
      (k k' : ℕ) (a : A)
      → k ≤ fair.max_consecutive
      → next_streak fair k a ≡ some k'
      → k' ≤ fair.max_consecutive
  unfolding next_streak
  streak_le k k' a h e = ground (arith, e)

  counted :
      (k k' j n : ℕ) (a : A)
      → (fair.starving a || not (fair.progress a)) ≡ true
      → next_streak fair k a ≡ some k'
      → j ≡ k' + n
      → j ≡ k + (if fair.starving a then 1 + n else n)
  unfolding next_streak
  counted k k' j n a keeps e h = ground (arith, e)

  -- A run of the wrapped machine whose actions never reset the streak, from a streak within
  -- the bound, ends with a streak that is larger by exactly the number of its starving
  -- actions, and still within the bound.
  pub Run-IsBounded :
      (x z : S × ℕ) (actions : List A)
      → x.1 ≤ fair.max_consecutive
      → no_reset actions ≡ true
      → Run x actions z
      → (z.1 ≡ x.1 + starved actions) × (z.1 ≤ fair.max_consecutive)
  Run-IsBounded x z [] h n done = (omega arith, h)
  Run-IsBounded x z (a ∷ as') h n (step {y = y} {fx = fx} e r) =
      let k : next_streak fair x.1 a ≡ some y.1 = step-streak x y a fx e in
      let le : y.1 ≤ fair.max_consecutive = streak_le x.1 y.1 a h k in
      let ih = Run-IsBounded y z as' le (ground arith) r in
      (counted x.1 y.1 z.1 (starved as') a (ground arith) k ih.0, ih.1)
