-- ===== src/Fair.antt =====
-- crates/dash-router-net-model/src/fair.rs: a combinator that bounds the starving actions of any
-- machine. The wrapped machine is a parameter.
pub mod Bound
mod Tests
use dash_router.Base.{
  ℕ, ◌+◌, Bool, true, false, not, ◌&&◌, Option, none, some, List, [], ◌∷◌, ltb, if◌then◌else◌,
}

-- What a machine's transition gives: a state with effects, or an error.
pub data Outcome (S : Type 0) (F : Type 0) (E : Type 0) : Type 0 where
  ok : S → F → Outcome S F E
  err : E → Outcome S F E

-- `unfair` is the error of the wrapper, `inner` one of the machine that it wraps.
pub data FairError (E : Type 0) : Type 0 where
  unfair : FairError E
  inner : E → FairError E

pub record Fair (S : Type 0) (A : Type 0) (F : Type 0) (E : Type 0) : Type 0 where
  pub machine : S → A → Outcome S F E
  pub starving : A → Bool
  pub progress : A → Bool
  pub max_consecutive : ℕ

module _ {S A F E : Type 0} (fair : Fair S A F E) where
  -- The streak after an action, if it is not refused.
  unfoldable pub next_streak : ℕ → A → Option ℕ
  next_streak streak a =
      if fair.starving a
      then (if ltb streak fair.max_consecutive then some (streak + 1) else none)
      else if fair.progress a
      then some 0
      else some streak

  unfoldable pub with_streak : ℕ → Outcome S F E → Outcome (S × ℕ) F (FairError E)
  with_streak streak (ok s fx) = ok (s, streak) fx
  with_streak streak (err e) = err (inner e)

  unfoldable pub fair_transition : S × ℕ → A → Outcome (S × ℕ) F (FairError E)
  fair_transition (s, streak) a = elim (next_streak streak a) [
    | none ↦ err unfair
    | some streak' ↦ with_streak streak' (fair.machine s a)
  ]
