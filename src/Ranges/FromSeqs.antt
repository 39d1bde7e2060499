-- ===== src/Ranges/FromSeqs.antt =====
-- `from_boundaries` and `from_seqs` of ranges.rs.
use mathlib.Core.List.{reverse-cons, append_assoc, append-nil}
use native.Mathlib.Decide.{dec_lt, ℕ_discrete}
use dash_router.Base.{
  ℕ, suc, ◌+◌, ◌≤◌, ◌<◌, ◌≡◌, Bool, true, false, ◌||◌, List, [], ◌∷◌, ◌++◌, reverse, foldl, refl,
  arith, length, partition_point, count, count-reverse, elem, leb, ◌==◌, odd, odd-suc, odd-zero,
  ◌⊎◌, inl, inr, ◌∙◌, ap, Bool-cases,
}
use dash_router.Ranges.{
  IsFrom, IsValid, ok, invalid, contains, seq_max, increasing, from_boundaries, insert_sorted, sort,
  dedup_run, dedup, push_end, push_seq, from_seqs,
}
use dash_router.Ranges.Combine.{IsFrom-weaken}

-- Every entry is a `u32`.
abbrev pub AreSeqs : List ℕ → Type 0
AreSeqs [] = Unit {0}
AreSeqs (x ∷ xs) = (x ≤ seq_max) × AreSeqs xs

abbrev SortedFrom : ℕ → List ℕ → Type 0
SortedFrom n [] = Unit {0}
SortedFrom n (x ∷ xs) = (n ≤ x) × (x ≤ seq_max) × SortedFrom x xs

insert_sorted-SortedFrom :
    (n a : ℕ) (xs : List ℕ)
    → n ≤ a
    → a ≤ seq_max
    → SortedFrom n xs
    → SortedFrom n (insert_sorted a xs)
unfolding insert_sorted
insert_sorted-SortedFrom n a [] h m v = (h, m, tt)
insert_sorted-SortedFrom n a (x ∷ xs) h m v = ground (arith, insert_sorted-SortedFrom x a xs)

elem-insert_sorted : (q a : ℕ) (xs : List ℕ) → elem q (insert_sorted a xs) ≡ ((q == a) || elem q xs)
unfolding insert_sorted
elem-insert_sorted q a [] = refl
elem-insert_sorted q a (x ∷ xs) = ground (arith, elem-insert_sorted q a xs)

sort-SortedFrom : (xs : List ℕ) → AreSeqs xs → SortedFrom 0 (sort xs)
unfolding sort
sort-SortedFrom [] v = tt
sort-SortedFrom (x ∷ xs) v =
    insert_sorted-SortedFrom 0 x (sort xs) (omega arith) v.0 (sort-SortedFrom xs v.1)

elem-sort : (q : ℕ) (xs : List ℕ) → elem q (sort xs) ≡ elem q xs
unfolding sort
elem-sort q [] = refl
elem-sort q (x ∷ xs) = ground (arith, elem-insert_sorted q x (sort xs), elem-sort q xs)

dedup_run-IsFrom :
    (n x : ℕ) (ys : List ℕ) → n ≤ x → x ≤ seq_max → SortedFrom x ys → IsFrom n (dedup_run x ys)
unfolding dedup_run
dedup_run-IsFrom n x [] h m v = (h, m, tt)
dedup_run-IsFrom n x (y ∷ ys) h m v =
    ground (arith, dedup_run-IsFrom n x ys, dedup_run-IsFrom (suc x) y ys)

elem-dedup_run : (q x : ℕ) (ys : List ℕ) → elem q (dedup_run x ys) ≡ ((q == x) || elem q ys)
unfolding dedup_run
elem-dedup_run q x [] = refl
elem-dedup_run q x (y ∷ ys) = ground (arith, elem-dedup_run q x ys, elem-dedup_run q y ys)

dedup-IsFrom : (xs : List ℕ) → SortedFrom 0 xs → IsFrom 0 (dedup xs)
unfolding dedup
dedup-IsFrom [] v = tt
dedup-IsFrom (x ∷ xs) v = dedup_run-IsFrom 0 x xs v.0 v.1 v.2

elem-dedup : (q : ℕ) (xs : List ℕ) → elem q (dedup xs) ≡ elem q xs
unfolding dedup
elem-dedup q [] = refl
elem-dedup q (x ∷ xs) = elem-dedup_run q x xs

-- The boundaries pushed so far, last first, all below `n`.
abbrev IsDown : ℕ → List ℕ → Type 0
IsDown n [] = Unit {0}
IsDown n (y ∷ ys) = (y < n) × (y ≤ seq_max) × IsDown y ys

abbrev upto : ℕ → ℕ → Bool
upto q b = leb b q

count-all : (q n : ℕ) (out : List ℕ) → IsDown n out → n ≤ suc q → count (upto q) out ≡ length out
count-all q n [] v h = refl
count-all q n (y ∷ ys) v h = ground (arith, count-all q y ys)

IsDown-weaken : {m n : ℕ} (xs : List ℕ) → m ≤ n → IsDown m xs → IsDown n xs
IsDown-weaken [] h v = tt
IsDown-weaken (x ∷ xs) h v = (omega arith, v.1, v.2)

-- Between two numbers the vector has whole ranges, the last of which ends at `n` at most.
record Ready (n : ℕ) (out : List ℕ) : Type 0 where
  whole : odd (length out) ≡ false
  down : IsDown (suc n) out

record Pushed (s : ℕ) (out new : List ℕ) : Type 0 where
  ready : s < seq_max → Ready (suc s) new
  down : IsDown (suc seq_max) new
  member : (q : ℕ) → q ≤ seq_max → odd (count (upto q) new) ≡ ((q == s) || odd (count (upto q) out))

-- The previous range does not end at `s`.
push_fresh :
    (out : List ℕ) (s : ℕ)
    → s ≤ seq_max
    → odd (length out) ≡ false
    → IsDown s out
    → Pushed s out (push_end (s ∷ out) s)
unfolding push_end
push_fresh out s m w d = record {
  ready = λ h. record {
    whole = ground (arith, odd-suc (length out), odd-suc (suc (length out)));
    down = ground arith;
  };
  down = ground arith;
  member =
      λ q h. ground (arith, count-all q s out, odd-suc (length out), odd-suc (suc (length out)));
}

-- The previous range ends at `s`, and is extended.
push_extend :
    (out : List ℕ) (s : ℕ)
    → s ≤ seq_max
    → odd (suc (length out)) ≡ false
    → IsDown s out
    → Pushed s (s ∷ out) (push_end out s)
unfolding push_end
push_extend out s m w d = record {
  ready = λ h. record {
    whole = ground (arith, odd-suc (length out));
    down = ground (arith, IsDown-weaken {m = s} {n = suc s} out);
  };
  down =
      ground
        (arith, IsDown-weaken {m = s} {n = suc seq_max} out, IsDown-weaken {m = s} {n = s + 1} out);
  member = λ q h. ground (arith, count-all q s out, odd-suc (length out));
}

push_seq-Pushed : (out : List ℕ) (s : ℕ) → s ≤ seq_max → Ready s out → Pushed s out (push_seq out s)
unfolding push_seq
push_seq-Pushed [] s m r = push_fresh [] s m odd-zero tt
push_seq-Pushed (end ∷ out) s m r = elim (ℕ_discrete end s) [
  | yes e ↦
      let go : push_seq (end ∷ out) s ≡ push_end out s = ground (arith, r.whole) in
      rw go (rw e (push_extend out s m r.whole (rw (← e) r.down.2)))
  | no ne ↦
      let go : push_seq (end ∷ out) s ≡ push_end (s ∷ end ∷ out) s = ground (arith, r.whole) in
      let d : end < suc s = r.down.0 in
      rw go (push_fresh (end ∷ out) s m r.whole (omega arith, r.down.1, r.down.2))
]

Ready-weaken : {m n : ℕ} {out : List ℕ} → m ≤ n → Ready m out → Ready n out
Ready-weaken {m} {n} {out} h r = record {
  whole = r.whole;
  down = IsDown-weaken {m = suc m} {n = suc n} out (omega arith) r.down;
}

-- The whole loop, from a vector that may take a next number.
record Folded (out xs new : List ℕ) : Type 0 where
  down : IsDown (suc seq_max) new
  member :
      (q : ℕ) → q ≤ seq_max → odd (count (upto q) new) ≡ (elem q xs || odd (count (upto q) out))

none_above : (xs : List ℕ) → IsFrom (suc seq_max) xs → xs ≡ []
none_above [] v = refl
none_above (x ∷ xs) v = absurd (omega arith)

fold-Folded :
    (n : ℕ) (xs out : List ℕ)
    → n ≤ seq_max
    → IsFrom n xs
    → Ready n out
    → Folded out xs (foldl push_seq out xs)
fold-Folded n [] out m v r = record {
  down = IsDown-weaken {m = suc n} {n = suc seq_max} out (omega arith) r.down;
  member = λ q h. refl;
}
fold-Folded n (x ∷ xs) out m v r =
    let P : Pushed x out (push_seq out x) = push_seq-Pushed out x v.1 (Ready-weaken v.0 r) in
    elim (dec_lt x seq_max) [
      | yes below ↦
          let F : Folded (push_seq out x) xs (foldl push_seq (push_seq out x) xs) =
            fold-Folded (suc x) xs (push_seq out x) below v.2 (P.ready below) in
          record { down = F.down; member = λ q h. ground (arith, F.member q h, P.member q h) }
      | no top ↦
          rw (none_above xs (IsFrom-weaken {m = suc seq_max} {n = suc x} xs (omega arith) v.2))
            (record { down = P.down; member = λ q h. ground (arith, P.member q h) })
    ]

reverse-IsFrom :
    (n : ℕ) (out acc : List ℕ) → IsDown n out → IsFrom n acc → IsFrom 0 (reverse out ++ acc)
reverse-IsFrom n [] acc d v = IsFrom-weaken {m = 0} {n = n} acc (omega arith) v
reverse-IsFrom n (y ∷ ys) acc d v =
    rw (reverse-cons y ys, append_assoc (reverse ys) (y ∷ []) acc)
      (reverse-IsFrom y ys (y ∷ acc) d.2
        (omega arith, d.1, IsFrom-weaken {m = suc y} {n = n} acc d.0 v))

count-none : (q n : ℕ) (xs : List ℕ) → IsFrom n xs → q < n → count (upto q) xs ≡ 0
count-none q n [] v h = refl
count-none q n (x ∷ xs) v h = ground (arith, count-none q (suc x) xs)

partition_point-count :
    (q n : ℕ) (xs : List ℕ) → IsFrom n xs → partition_point (upto q) xs ≡ count (upto q) xs
partition_point-count q n [] v = refl
partition_point-count q n (x ∷ xs) v =
    ground (arith, partition_point-count q (suc x) xs, count-none q (suc x) xs)

module _ (seqs : List ℕ) (v : AreSeqs seqs) where
  folded : Folded [] (dedup (sort seqs)) (foldl push_seq [] (dedup (sort seqs)))
  folded =
      fold-Folded 0 (dedup (sort seqs)) [] (omega arith)
        (dedup-IsFrom (sort seqs) (sort-SortedFrom seqs v)) (record { whole = odd-zero; down = tt })

  -- A set built from a list of `u32`s has strictly increasing `u32` boundaries.
  pub from_seqs-IsValid : IsValid (from_seqs seqs)
  unfolding from_seqs
  from_seqs-IsValid =
      rw append-nil at
        (reverse-IsFrom (suc seq_max) (foldl push_seq [] (dedup (sort seqs))) [] folded.down tt)

  -- A set built from a list of `u32`s, in any order and with repetitions, has a `u32` exactly
  -- when the list does.
  pub contains-from_seqs : (q : ℕ) → q ≤ seq_max → contains (from_seqs seqs) q ≡ elem q seqs
  contains-from_seqs q h =
      ground
        (arith, member, folded.member q h, elem-dedup q (sort seqs), elem-sort q seqs, odd-zero)
    where
      member :
          contains (from_seqs seqs) q ≡ odd (count (upto q) (foldl push_seq [] (dedup (sort seqs))))
      member =
          unfold contains in
          ap odd (
            partition_point-count q 0 (from_seqs seqs) from_seqs-IsValid
            ∙ unfold from_seqs in count-reverse (upto q) (foldl push_seq [] (dedup (sort seqs))))

increasing-IsFrom :
    (n x : ℕ) (xs : List ℕ)
    → n ≤ x
    → AreSeqs (x ∷ xs)
    → increasing (x ∷ xs) ≡ true
    → IsFrom n (x ∷ xs)
unfolding increasing
increasing-IsFrom n x [] h v e = (h, v.0, tt)
increasing-IsFrom n x (y ∷ ys) h v e = ground (arith, increasing-IsFrom (suc x) y ys)

pub IsFrom-increasing : (n : ℕ) (xs : List ℕ) → IsFrom n xs → increasing xs ≡ true
unfolding increasing
IsFrom-increasing n [] v = refl
IsFrom-increasing n (x ∷ []) v = refl
IsFrom-increasing n (x ∷ y ∷ ys) v = ground (arith, IsFrom-increasing (suc x) (y ∷ ys))

increasing-IsValid : (bs : List ℕ) → AreSeqs bs → increasing bs ≡ true → IsValid bs
increasing-IsValid [] v e = tt
increasing-IsValid (x ∷ xs) v e = increasing-IsFrom 0 x xs (omega arith) v e

-- A raw list of `u32` boundaries is either valid and taken as it stands, or not valid and
-- handed back as an error.
pub from_boundaries_decides :
    (bs : List ℕ)
    → AreSeqs bs
    → ((from_boundaries bs ≡ ok bs) × IsValid bs)
      ⊎ ((from_boundaries bs ≡ invalid bs) × ¬ IsValid bs)
unfolding from_boundaries
from_boundaries_decides bs v = elim (Bool-cases (increasing bs)) [
  | inl e ↦ inl (rw e, increasing-IsValid bs v e)
  | inr e ↦ inr (rw e, λ w. ground (arith, IsFrom-increasing 0 bs w))
]
