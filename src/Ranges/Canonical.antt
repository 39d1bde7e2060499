-- ===== src/Ranges/Canonical.antt =====
-- A set of sequence numbers has one encoding.
use dash_router.Base.{ℕ, suc, ◌≤◌, ◌<◌, ◌≡◌, Bool, true, false, not, [], ◌∷◌, arith, refl, sym, ◌∙◌}
use native.Mathlib.Decide.{dec_lt}
use mathlib.Core.Path.{ap₂}
use dash_router.Ranges.{Ranges, IsFrom, IsValid, contains, seq_max, union}
use dash_router.Ranges.Combine.{contains-inside_at, inside_at}
use dash_router.Ranges.Sets.{contains-union, union-IsValid}

pub inside_at-below :
    (b : Bool) (n s : ℕ) (xs : Ranges) → s < n → IsFrom n xs → inside_at b xs s ≡ b
inside_at-below b n s [] h v = refl
inside_at-below b n s (x ∷ xs) h v = ground arith

not-differs : (b c : Bool) → b ≡ not b → c ≡ true
not-differs true c e = cc
not-differs false c e = cc

-- The first boundary is where membership changes.
starts_differ :
    (b : Bool) (x : ℕ) (xs ys : Ranges)
    → IsFrom (suc x) xs
    → IsFrom (suc x) ys
    → inside_at b (x ∷ xs) x ≡ inside_at b ys x
    → ⊥
starts_differ b x xs ys vx vy e =
    ground (arith, inside_at-below (not b) (suc x) x xs, inside_at-below b (suc x) x ys)

eq_of_inside_at :
    (b : Bool) (n : ℕ) (xs ys : Ranges)
    → IsFrom n xs
    → IsFrom n ys
    → ((s : ℕ) → n ≤ s → s ≤ seq_max → inside_at b xs s ≡ inside_at b ys s)
    → xs ≡ ys
eq_of_inside_at b n [] [] vx vy h = refl
eq_of_inside_at b n (x ∷ xs) [] vx vy h = absurd (starts_differ b x xs [] vx.2 tt (h x vx.0 vx.1))
eq_of_inside_at b n [] (y ∷ ys) vx vy h =
    absurd (starts_differ b y ys [] vy.2 tt (sym (h y vy.0 vy.1)))
eq_of_inside_at b n (x ∷ xs) (y ∷ ys) vx vy h = elim (dec_lt x y) [
  | yes lt ↦ absurd (starts_differ b x xs (y ∷ ys) vx.2 (lt, vy.1, vy.2) (h x vx.0 vx.1))
  | no ge ↦ elim (dec_lt y x) [
    | yes gt ↦ absurd (starts_differ b y ys (x ∷ xs) vy.2 (gt, vx.1, vx.2) (sym (h y vy.0 vy.1)))
    | no le ↦
        let e : x ≡ y = omega arith in
        ap₂ ◌∷◌ e
          (eq_of_inside_at (not b) (suc x) xs ys vx.2 (rw e vy.2) (λ s g m. ground (arith, e, h s)))
  ]
]

-- Two valid sets that contain the same `u32`s are the same list of boundaries.
pub eq_of_contains :
    (r o : Ranges)
    → IsValid r
    → IsValid o
    → ((s : ℕ) → s ≤ seq_max → contains r s ≡ contains o s)
    → r ≡ o
eq_of_contains r o vr vo h =
    eq_of_inside_at false 0 r o vr vo
      (λ s _ le. sym (contains-inside_at r s) ∙ h s le ∙ contains-inside_at o s)

-- So the set laws are equations of encodings.
pub union_comm : (r o : Ranges) → IsValid r → IsValid o → union r o ≡ union o r
union_comm r o vr vo =
    eq_of_contains (union r o) (union o r) (union-IsValid r o vr vo) (union-IsValid o r vo vr)
      (λ s _. ground (arith, contains-union r o vr vo s, contains-union o r vo vr s))
