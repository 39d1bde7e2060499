-- ===== src/Fair/Tests.antt =====
-- An instance of the bound on a machine that accepts everything, as in the tests of fair.rs.
use dash_router.Base.{ℕ, ◌+◌, ◌≤◌, ◌≡◌, [], ◌∷◌, refl, arith, ◌==◌}
use dash_router.Fair
use dash_router.Fair.{Outcome, ok, FairError, Fair, fair_transition}
use dash_router.Fair.Bound.{Run, done, step, starved, Run-IsBounded}

-- Action 0 starves and action 1 is progress.
abbrev anything : Fair ℕ ℕ ℕ ℕ
anything = record {
  machine = λ s a. ok s 0;
  starving = λ a. a == 0;
  progress = λ a. a == 1;
  max_consecutive = 2;
}

three_steps : Run anything (5, 0) (0 ∷ 2 ∷ 0 ∷ []) (5, 2)
unfolding fair_transition Fair.next_streak Fair.with_streak
three_steps = step {fx = 0} refl (step {fx = 0} refl (step {fx = 0} refl done))

Run-IsBounded_example : (2 ≡ 0 + starved anything (0 ∷ 2 ∷ 0 ∷ [])) × (2 ≤ 2)
Run-IsBounded_example =
    Run-IsBounded anything (5, 0) (5, 2) (0 ∷ 2 ∷ 0 ∷ []) (omega arith) refl three_steps
