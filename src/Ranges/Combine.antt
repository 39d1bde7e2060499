-- ===== src/Ranges/Combine.antt =====
-- `combine` and the set operations of ranges.rs, against membership.
use dash_router.Base.{
  ℕ, zero, suc, ◌+◌, ◌≤◌, ◌<◌, ◌≡◌, Bool, false, not, List, [], ◌∷◌, none, some, arith, length,
  partition_point, leb, odd, odd-suc, odd-zero, sym, if◌then◌else◌, refl, Option-cases, inl, inr,
}
use native.Mathlib.Decide.{ℕ_discrete}
use dash_router.Ranges.{
  Ranges, IsFrom, IsValid, contains, skip, next_boundary, flips, sweep, combine, seq_max,
}

-- Membership from a state on: `inside` flips at each boundary passed.
abbrev pub inside_at : Bool → List ℕ → ℕ → Bool
inside_at inside [] s = inside
inside_at inside (x ∷ xs) s = if leb x s then inside_at (not inside) xs s else inside

parity :
    (n : ℕ) (xs : List ℕ) (s : ℕ)
    → inside_at (odd n) xs s ≡ odd (n + partition_point (λ b. leb b s) xs)
parity n [] s = ground arith
parity n (x ∷ xs) s = ground (arith, parity (suc n) xs s, odd-suc n)

pub contains-inside_at : (r : Ranges) (s : ℕ) → contains r s ≡ inside_at false r s
unfolding contains
contains-inside_at r s = ground (arith, parity 0 r s, odd-zero)

before :
    (b : Bool) (xs : List ℕ) (p s : ℕ) → IsFrom (suc p) xs → leb p s ≡ false → inside_at b xs s ≡ b
before b [] p s v h = refl
before b (x ∷ xs) p s v h = ground arith

pub IsFrom-weaken : {m n : ℕ} (xs : List ℕ) → m ≤ n → IsFrom n xs → IsFrom m xs
IsFrom-weaken [] h v = tt
IsFrom-weaken (x ∷ xs) h v = (omega arith, v.1, v.2)

skip_past : (p i : ℕ) (xs : List ℕ) → IsFrom (suc p) xs → skip p i xs ≡ (i, xs)
unfolding skip
skip_past p i [] v = refl
skip_past p i (x ∷ xs) v = ground arith

-- What one `while` loop of the sweep does to a list whose boundaries are `p` at least.
record Skips (p i : ℕ) (xs : List ℕ) (r : ℕ × List ℕ) : Type 0 where
  after : IsFrom (suc p) r.1
  same : (s : ℕ) → inside_at (odd i) xs s ≡ (if leb p s then inside_at (odd r.0) r.1 s else odd i)
  fewer : length r.1 ≤ length xs

skip_hit : (p i x : ℕ) (xs : List ℕ) → x ≡ p → IsFrom p (x ∷ xs) → skip p i (x ∷ xs) ≡ (i + 1, xs)
unfolding skip
skip_hit p i x xs e v = ground (arith, skip_past p (i + 1) xs)

skip_miss : (p i x : ℕ) (xs : List ℕ) → p < x → skip p i (x ∷ xs) ≡ (i, x ∷ xs)
unfolding skip
skip_miss p i x xs h = ground arith

skip-Skips : (p i : ℕ) (xs : List ℕ) → IsFrom p xs → Skips p i xs (skip p i xs)
skip-Skips p i [] v =
    rw (skip_past p i [] tt) (record { after = tt; same = λ s. ground arith; fewer = omega arith })
skip-Skips p i (x ∷ xs) v = elim (ℕ_discrete x p) [
  | yes e ↦
      rw (skip_hit p i x xs e v) (record {
        after = rw (← e) v.2;
        same = λ s. ground (arith, odd-suc i);
        fewer = omega arith;
      })
  | no ne ↦
      rw (skip_miss p i x xs (omega arith))
        (record { after = (omega arith, v.1, v.2); same = λ s. ground arith; fewer = omega arith })
]

next-none : (xs ys : List ℕ) → next_boundary xs ys ≡ none → (xs ≡ []) × (ys ≡ [])
unfolding next_boundary
next-none [] [] e = (refl, refl)
next-none (x ∷ xs) [] e = cc
next-none [] (y ∷ ys) e = cc
next-none (x ∷ xs) (y ∷ ys) e = cc

record Next (n p : ℕ) (xs ys : List ℕ) : Type 0 where
  later : n ≤ p
  bounded : p ≤ seq_max
  left : IsFrom p xs
  right : IsFrom p ys
  fewer : (i j : ℕ) → length (skip p i xs).1 + length (skip p j ys).1 < length xs + length ys

Next-Next :
    {n p : ℕ} (xs ys : List ℕ)
    → IsFrom n xs
    → IsFrom n ys
    → next_boundary xs ys ≡ some p
    → Next n p xs ys
unfolding next_boundary
Next-Next [] [] vx vy e = cc
Next-Next {n} {p} (x ∷ xs) [] vx vy e = record {
  later = ground arith;
  bounded = ground arith;
  left = ground arith;
  right = tt;
  fewer = λ i j. ground (arith, skip_hit p i x xs, skip_past p j []);
}
Next-Next {n} {p} [] (y ∷ ys) vx vy e = record {
  later = ground arith;
  bounded = ground arith;
  left = tt;
  right = ground arith;
  fewer = λ i j. ground (arith, skip_past p i [], skip_hit p j y ys);
}
Next-Next {n} {p} (x ∷ xs) (y ∷ ys) vx vy e = record {
  later = ground arith;
  bounded = ground arith;
  left = ground arith;
  right = ground arith;
  fewer = λ i j.
      ground (arith, skip_hit p i x xs, skip_hit p j y ys, skip_miss p i x xs, skip_miss p j y ys);
}

module _ (f : Bool → Bool → Bool) where
  -- The result at the boundary `p`, and the boundaries that the later rounds emit.
  abbrev now_at : ℕ → ℕ → List ℕ → ℕ → List ℕ → Bool
  now_at p i xs j ys = f (odd (skip p i xs).0) (odd (skip p j ys).0)

  abbrev later_at : ℕ → ℕ → ℕ → List ℕ → ℕ → List ℕ → List ℕ
  later_at fuel p i xs j ys =
      sweep f fuel (skip p i xs).0 (skip p i xs).1 (skip p j ys).0 (skip p j ys).1
        (now_at p i xs j ys)

  sweep_go :
      (fuel i : ℕ) (xs : List ℕ) (j : ℕ) (ys : List ℕ) (inside : Bool) (p : ℕ)
      → next_boundary xs ys ≡ some p
      → sweep f (suc fuel) i xs j ys inside ≡ (
          if flips (now_at p i xs j ys) inside
          then p ∷ later_at fuel p i xs j ys
          else later_at fuel p i xs j ys)
  unfolding sweep
  sweep_go fuel i xs j ys inside p go = rw (go, sweep)

  round :
      (p i : ℕ) (xs : List ℕ) (j : ℕ) (ys : List ℕ) (inside : Bool) (s : ℕ) (rest : List ℕ)
      → Skips p i xs (skip p i xs)
      → Skips p j ys (skip p j ys)
      → inside ≡ f (odd i) (odd j)
      → inside_at (now_at p i xs j ys) rest s
        ≡ f
            (inside_at (odd (skip p i xs).0) (skip p i xs).1 s)
            (inside_at (odd (skip p j ys).0) (skip p j ys).1 s)
      → inside_at inside (if flips (now_at p i xs j ys) inside then p ∷ rest else rest) s
        ≡ f (inside_at (odd i) xs s) (inside_at (odd j) ys s)
  round p i xs j ys inside s rest X Y e ih =
      rw (X.same s, Y.same s)
        (ground (
          arith,
          before (odd (skip p i xs).0) (skip p i xs).1 p s X.after,
          before (odd (skip p j ys).0) (skip p j ys).1 p s Y.after,
        ))

  sweep-inside_at :
      (fuel n i : ℕ) (xs : List ℕ) (j : ℕ) (ys : List ℕ) (inside : Bool) (s : ℕ)
      → IsFrom n xs
      → IsFrom n ys
      → length xs + length ys ≤ fuel
      → inside ≡ f (odd i) (odd j)
      → inside_at inside (sweep f fuel i xs j ys inside) s
        ≡ f (inside_at (odd i) xs s) (inside_at (odd j) ys s)
  sweep-inside_at zero n i [] j [] inside s vx vy h e = unfold sweep in e
  sweep-inside_at zero n i (x ∷ xs) j ys inside s vx vy h e = absurd (omega arith)
  sweep-inside_at zero n i [] j (y ∷ ys) inside s vx vy h e = absurd (omega arith)
  sweep-inside_at (suc fuel) n i xs j ys inside s vx vy h e =
      elim (Option-cases (next_boundary xs ys)) [
        | inl stop ↦
            let ends = next-none xs ys stop in rw (ends.0, ends.1) (unfold sweep next_boundary in e)
        | inr (p, go) ↦
            let N : Next n p xs ys = Next-Next xs ys vx vy go in
            let X : Skips p i xs (skip p i xs) = skip-Skips p i xs N.left in
            let Y : Skips p j ys (skip p j ys) = skip-Skips p j ys N.right in
            rw (sweep_go fuel i xs j ys inside p go) (
              round p i xs j ys inside s (later_at fuel p i xs j ys) X Y e (
                sweep-inside_at fuel (suc p) (skip p i xs).0 (skip p i xs).1 (skip p j ys).0
                  (skip p j ys).1 (now_at p i xs j ys) s X.after Y.after
                  (omega (arith, N.fewer i j)) refl))
      ]

  sweep-IsFrom :
      (fuel n i : ℕ) (xs : List ℕ) (j : ℕ) (ys : List ℕ) (inside : Bool)
      → IsFrom n xs
      → IsFrom n ys
      → IsFrom n (sweep f fuel i xs j ys inside)
  sweep-IsFrom zero n i xs j ys inside vx vy = unfold sweep in tt
  sweep-IsFrom (suc fuel) n i xs j ys inside vx vy = elim (Option-cases (next_boundary xs ys)) [
    | inl stop ↦
        let ends = next-none xs ys stop in rw (ends.0, ends.1) (unfold sweep next_boundary in tt)
    | inr (p, go) ↦
        let N : Next n p xs ys = Next-Next xs ys vx vy go in
        rw (sweep_go fuel i xs j ys inside p go) (
          ground (
            arith,
            N.later,
            N.bounded,
            IsFrom-weaken {m = n} {n = suc p} (later_at fuel p i xs j ys),
            sweep-IsFrom fuel (suc p) (skip p i xs).0 (skip p i xs).1 (skip p j ys).0
                (skip p j ys).1 (now_at p i xs j ys) (skip-Skips p i xs N.left).after
                (skip-Skips p j ys N.right).after,
          ))
  ]

-- The sweep over two valid sets, for an operation that is false where neither has a number,
-- has a number exactly when the operation says so of the two memberships.
pub contains-combine :
    (f : Bool → Bool → Bool) (r o : Ranges) (s : ℕ)
    → IsValid r
    → IsValid o
    → f false false ≡ false
    → contains (combine f r o) s ≡ f (contains r s) (contains o s)
unfolding combine
contains-combine f r o s vr vo e =
    rw (contains-inside_at (combine f r o) s, contains-inside_at r s, contains-inside_at o s)
      (rw odd-zero at (
        sweep-inside_at f (length r + length o) 0 0 r 0 o false s vr vo (omega arith)
          (rw odd-zero (sym e))))

-- The sweep over two valid sets gives strictly increasing `u32` boundaries again, whatever the
-- operation.
pub combine-IsValid :
    (f : Bool → Bool → Bool) (r o : Ranges) → IsValid r → IsValid o → IsValid (combine f r o)
unfolding combine
combine-IsValid f r o vr vo = sweep-IsFrom f (length r + length o) 0 0 r 0 o false vr vo
