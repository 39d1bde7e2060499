-- ===== src/LogRanges/Empty.antt =====
-- `is_empty`: nothing is contained, though logs may be known.
use dash_router.Base.{
  ℕ, ◌≤◌, ◌≡◌, true, false, some, [], ◌∷◌, refl, arith, Option-cases, Bool-cases, inl, inr,
}
use dash_router.Base.Order.{nat_ord}
use dash_router.BtreeMap
use dash_router.BtreeMap.{BtreeMap, IsSorted, Above, AllValues}
use dash_router.BtreeMap.Laws.{get-Above, Above-weaken, IsSorted_of_Above, AllValues-get}
use dash_router.Log.{Log}
use dash_router.Ranges
use dash_router.Ranges.{Ranges, seq_max}
use dash_router.Ranges.Sets.{is_empty-contains, contains-of_not_empty}
use dash_router.LogRanges.{LogRanges, IsChannel, IsValid, get, contains, all_empty, is_empty, empty}

get-head {ℓ} :
    {V : Type ℓ} (k : ℕ) (v : V) (m : BtreeMap ℕ V) → BtreeMap.get ((k, v) ∷ m) k ≡ some v
unfolding BtreeMap.get
get-head k v m = ground (arith, nat_ord.cmp_flip k k)

get-tail {ℓ} :
    {V : Type ℓ} (k q : ℕ) (v w : V) (m : BtreeMap ℕ V)
    → Above k m
    → BtreeMap.get m q ≡ some w
    → BtreeMap.get ((k, v) ∷ m) q ≡ some w
unfolding BtreeMap.get
get-tail k q v w m a e = ground (arith, get-Above m q, Above-weaken q k m, nat_ord.eq_of_cmp q k)

all_empty_of :
    (authors : BtreeMap ℕ Ranges)
    → IsSorted authors
    → ((a : ℕ) (r : Ranges) → BtreeMap.get authors a ≡ some r → Ranges.is_empty r ≡ true)
    → all_empty authors ≡ true
unfolding all_empty
all_empty_of [] s h = refl
all_empty_of ((a, r) ∷ authors) s h = rw (h a r (get-head a r authors)) (
    all_empty_of authors (IsSorted_of_Above a authors s)
      (λ b q e. h b q (get-tail a b r q authors s e)))

is_empty_of_channels :
    (m : LogRanges)
    → IsSorted m
    → ((c : ℕ) (authors : BtreeMap ℕ Ranges)
        → BtreeMap.get m c ≡ some authors
        → all_empty authors ≡ true)
    → is_empty m ≡ true
unfolding is_empty
is_empty_of_channels [] s h = refl
is_empty_of_channels ((c, authors) ∷ m) s h = rw (h c authors (get-head c authors m)) (
    is_empty_of_channels m (IsSorted_of_Above c m s)
      (λ d as' e. h d as' (get-tail c d authors as' m s e)))

-- Where no log contains a number, there is nothing to say.
pub is_empty_of_contains :
    (m : LogRanges)
    → IsValid m
    → ((l : Log) (s : ℕ) → s ≤ seq_max → contains m l s ≡ false)
    → is_empty m ≡ true
unfolding contains get
is_empty_of_contains m v h = is_empty_of_channels m v.sorted λ c authors e.
    let ch : IsChannel authors = AllValues-get IsChannel m c authors v.channels e in
    all_empty_of authors ch.sorted λ a r f. elim (Bool-cases (Ranges.is_empty r)) [
      | inl yes' ↦ yes'
      | inr no' ↦
          let (s, le, k) =
            contains-of_not_empty r (AllValues-get Ranges.IsValid authors a r ch.ranges f) no' in
          absurd (ground (arith, h (record { channel = c; author = a }) s le))
    ]

all_empty-get :
    (authors : BtreeMap ℕ Ranges) (a : ℕ) (r : Ranges)
    → all_empty authors ≡ true
    → BtreeMap.get authors a ≡ some r
    → Ranges.is_empty r ≡ true
unfolding all_empty BtreeMap.get
all_empty-get [] a r h e = cc
all_empty-get ((b, q) ∷ authors) a r h e = ground (arith, all_empty-get authors a r)

is_empty-get :
    (m : LogRanges) (c : ℕ) (authors : BtreeMap ℕ Ranges)
    → is_empty m ≡ true
    → BtreeMap.get m c ≡ some authors
    → all_empty authors ≡ true
unfolding is_empty BtreeMap.get
is_empty-get [] c authors h e = cc
is_empty-get ((d, as') ∷ m) c authors h e = ground (arith, is_empty-get m c authors)

pub is_empty-contains_log :
    (m : LogRanges) (l : Log) (s : ℕ) → is_empty m ≡ true → contains m l s ≡ false
unfolding contains get
is_empty-contains_log m l s h = elim (Option-cases (BtreeMap.get m l.channel)) [
  | inl e ↦ ground arith
  | inr (authors, e) ↦ elim (Option-cases (BtreeMap.get authors l.author)) [
    | inl f ↦ ground arith
    | inr (r, f) ↦ ground (
      arith,
      is_empty-contains r s,
      all_empty-get authors l.author r,
      is_empty-get m l.channel authors,
    )
  ]
]

pub contains-empty_log : (l : Log) (s : ℕ) → contains empty l s ≡ false
unfolding empty is_empty
contains-empty_log l s = is_empty-contains_log empty l s refl
