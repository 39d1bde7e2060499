-- ===== src/Base/Order.antt =====
-- The keys of an ordered map: a three-way comparison, with what the trait `Ord` asks of it.
use Prim.Native.Nat.{ℕ, compare, Ordering}
use Prim.Native.Nat.Ordering.{lt, eq, gt}
use mathlib.Core.Bool.{Bool, true, false}
use mathlib.Core.Path.{◌≡◌}
use native.Mathlib.Omega.{arith}

-- `Ordering::reverse`
abbrev pub flipped : Ordering → Ordering
flipped lt = gt
flipped eq = eq
flipped gt = lt

-- Comparing the other way round flips the answer, equal keys are the same key, and `lt` is
-- transitive.
pub record IsComparison {ℓ} {K : Type ℓ} (c : K → K → Ordering) : Type ℓ where
  pub cmp_flip : (j k : K) → c k j ≡ flipped (c j k)
  pub eq_of_cmp : (j k : K) → c j k ≡ eq → j ≡ k
  pub cmp_trans : (i j k : K) → c i j ≡ lt → c j k ≡ lt → c i k ≡ lt

pub record Ord {ℓ} (K : Type ℓ) : Type ℓ where
  pub cmp : K → K → Ordering
  pub comparison : IsComparison cmp
  pub open comparison use *

pub compare-IsComparison : IsComparison compare
compare-IsComparison = ground arith

instance abbrev pub nat_ord : Ord ℕ
nat_ord = record { comparison = compare-IsComparison; cmp = compare }

-- `k == j`, by the order.
abbrev pub same {ℓ} : {K : Type ℓ} ⦃o : Ord K⦄ → K → K → Bool
same ⦃o⦄ k j = elim (o.cmp k j) [ eq ↦ true | _ ↦ false ]

infix 50 ◌≺◌
abbrev pub ◌≺◌ {ℓ} : {K : Type ℓ} ⦃o : Ord K⦄ → K → K → Type 0
◌≺◌ ⦃o⦄ j k = o.cmp j k ≡ lt
