-- ===== src/LogRanges/Lookup.antt =====
-- What a log maps to after each operation that builds a `LogRanges`.
use mathlib.Core.List.{append-nil}
use dash_router.Base.{
  ℕ, ◌<◌, ◌≡◌, Option, none, some, List, [], ◌∷◌, ◌++◌, refl, arith, if◌then◌else◌, ◌==◌, ◌∙◌,
  Option-cases, inl, inr,
}
use dash_router.Base.Order.{same, nat_ord}
use dash_router.BtreeMap
use dash_router.BtreeMap.{BtreeMap, IsSorted, Above, AllValues}
use dash_router.BtreeMap.Laws.{
  get-insert, get-Above, IsSorted_of_Above, Above-weaken, AllValues-get,
}
use dash_router.Log.{Log, log_ord}
use dash_router.Ranges.{Ranges}
use dash_router.LogRanges.{
  IsChannel, IsValid, LogRanges, get, insert, collect, from_pairs, tag, channel, iter, empty,
  or_default,
}

pub get-empty : (l : Log) → get empty l ≡ none
unfolding get empty BtreeMap.get
get-empty l = refl

pub get-insert_log :
    (m : LogRanges) (k l : Log) (r : Ranges)
    → get (insert m k r) l ≡ (if same l k then some r else get m l)
unfolding get insert
get-insert_log m k l r = ground (
  arith,
  get-insert m k.channel l.channel
      (BtreeMap.insert (or_default (BtreeMap.get m k.channel)) k.author r),
  get-insert (or_default (BtreeMap.get m k.channel)) k.author l.author r,
  get-Above {V = Ranges} [] l.author tt,
)

set_one : Option Ranges → LogRanges → Log → LogRanges
set_one none out k = out
set_one (some r) out k = insert out k r

get-set_one :
    (x : Option Ranges) (out : LogRanges) (k l : Log)
    → get (set_one x out k) l
      ≡ (if same l k then elim x [ none ↦ get out l | some r ↦ some r ] else get out l)
unfolding set_one
get-set_one none out k l = ground arith
get-set_one (some r) out k l = get-insert_log out k l r

collect-cons {ℓ} :
    {V : Type ℓ} (h : Log → V → Option Ranges) (out : LogRanges) (k : Log) (v : V)
    (ps : List (Log × V))
    → collect h out ((k, v) ∷ ps) ≡ collect h (set_one (h k v) out k) ps
unfolding collect set_one
collect-cons h out k v ps = elim (Option-cases (h k v)) [
  | inl e ↦ rw (e, collect, set_one)
  | inr (r, e) ↦ rw (e, collect, set_one)
]

after_one {ℓ} :
    {V : Type ℓ} (h : Log → V → Option Ranges) (new old : Option Ranges) (k : Log) (v : V)
    (ps : List (Log × V)) (l : Log)
    → Above k ps
    → new ≡ (if same l k then elim (h k v) [ none ↦ old | some r ↦ some r ] else old)
    → elim (BtreeMap.get ps l) [
      | none ↦ new
      | some w ↦ elim (h l w) [ none ↦ new | some r ↦ some r ]
    ]
      ≡ elim (BtreeMap.get ((k, v) ∷ ps) l) [
        | none ↦ old
        | some w ↦ elim (h l w) [ none ↦ old | some r ↦ some r ]
      ]
unfolding BtreeMap.get
after_one h new old k v ps l s e =
    ground (arith, get-Above ps l, Above-weaken l k ps, log_ord.eq_of_cmp l k)

-- Where the keys are in order, a loop of insertions sets each log once.
pub get-collect {ℓ} :
    {V : Type ℓ} (h : Log → V → Option Ranges) (out : LogRanges) (ps : List (Log × V)) (l : Log)
    → IsSorted ps
    → get (collect h out ps) l ≡ elim (BtreeMap.get ps l) [
      | none ↦ get out l
      | some v ↦ elim (h l v) [ none ↦ get out l | some r ↦ some r ]
    ]
get-collect h out [] l s = unfold collect BtreeMap.get in refl
get-collect h out ((k, v) ∷ ps) l s =
    rw
      (
        collect-cons h out k v ps,
        get-collect h (set_one (h k v) out k) ps l (IsSorted_of_Above k ps s),
      )
      (after_one h (get (set_one (h k v) out k) l) (get out l) k v ps l s
        (get-set_one (h k v) out k l))

-- Every log of the list is in a later channel.
Beyond : ℕ → List (Log × Ranges) → Type 0
Beyond c [] = Unit {0}
Beyond c ((l, r) ∷ ps) = c < l.channel

get-tag :
    (c : ℕ) (authors : BtreeMap ℕ Ranges) (ps : List (Log × Ranges)) (l : Log)
    → Beyond c ps
    → BtreeMap.get (tag c authors ++ ps) l
      ≡ (if l.channel == c then BtreeMap.get authors l.author else BtreeMap.get ps l)
unfolding tag BtreeMap.get Beyond
get-tag c [] [] l b = ground arith
get-tag c [] ((k, r) ∷ ps) l b = ground arith
get-tag c ((a, r) ∷ authors) ps l b = ground (arith, get-tag c authors ps l b)

iter-Beyond : (c : ℕ) (m : LogRanges) → AllValues IsChannel m → Above c m → Beyond c (iter m)
unfolding iter tag Beyond
iter-Beyond c [] v a = tt
iter-Beyond c ((d, []) ∷ m) v a = absurd (v.0.nonempty refl)
iter-Beyond c ((d, (b, r) ∷ authors) ∷ m) v a = ground arith

get-cons :
    (d : ℕ) (authors : BtreeMap ℕ Ranges) (m : LogRanges) (l : Log)
    → Above d m
    → BtreeMap.get (iter m) l ≡ get m l
    → (if l.channel == d then BtreeMap.get authors l.author else BtreeMap.get (iter m) l)
      ≡ get ((d, authors) ∷ m) l
unfolding get BtreeMap.get
get-cons d authors m l above e = ground (arith, get-Above m l.channel, Above-weaken l.channel d m)

iter-cons :
    (c : ℕ) (authors : BtreeMap ℕ Ranges) (m : LogRanges)
    → iter ((c, authors) ∷ m) ≡ tag c authors ++ iter m
unfolding iter
iter-cons c authors m = refl

get-iter_lem :
    (m : LogRanges) (l : Log)
    → IsSorted m
    → AllValues IsChannel m
    → BtreeMap.get (iter m) l ≡ get m l
get-iter_lem [] l s a = unfold iter get BtreeMap.get in refl
get-iter_lem ((c, authors) ∷ m) l s a = rw (iter-cons c authors m) (
    get-tag c authors (iter m) l (iter-Beyond c m a.1 s)
    ∙ get-cons c authors m l s (get-iter_lem m l (IsSorted_of_Above c m s) a.1))

-- The listing holds each log with its ranges.
pub get-iter : (m : LogRanges) (l : Log) → IsValid m → BtreeMap.get (iter m) l ≡ get m l
get-iter m l v = get-iter_lem m l v.sorted v.channels

tag-Above :
    (c a : ℕ) (authors : BtreeMap ℕ Ranges) (ps : List (Log × Ranges))
    → Above a authors
    → Beyond c ps
    → IsSorted ps
    → Above (record { channel = c; author = a }) (tag c authors ++ ps)
unfolding tag Beyond
tag-Above c a [] [] h b s = tt
tag-Above c a [] ((k, r) ∷ ps) h b s = ground arith
tag-Above c a ((d, r) ∷ authors) ps h b s = (ground arith, tag-Above c d authors ps h.1 b s)

tag-IsSorted :
    (c : ℕ) (authors : BtreeMap ℕ Ranges) (ps : List (Log × Ranges))
    → IsSorted authors
    → Beyond c ps
    → IsSorted ps
    → IsSorted (tag c authors ++ ps)
unfolding tag
tag-IsSorted c [] ps h b s = s
tag-IsSorted c ((a, r) ∷ authors) ps h b s = tag-Above c a authors ps h b s

iter-IsSorted_lem : (m : LogRanges) → IsSorted m → AllValues IsChannel m → IsSorted (iter m)
unfolding iter
iter-IsSorted_lem [] s a = tt
iter-IsSorted_lem ((c, authors) ∷ n) s a =
    tag-IsSorted c authors (iter n) a.0.sorted (iter-Beyond c n a.1 s)
      (iter-IsSorted_lem n (IsSorted_of_Above c n s) a.1)

-- The listing is in order, by channel and then by author.
pub iter-IsSorted : (m : LogRanges) → IsValid m → IsSorted (iter m)
iter-IsSorted m v = iter-IsSorted_lem m v.sorted v.channels

-- A channel's logs are those of the map with that channel, in order.
pub get-channel :
    (m : LogRanges) (c : ℕ) (l : Log)
    → BtreeMap.get (channel m c) l ≡ (if l.channel == c then get m l else none)
unfolding channel get Beyond
get-channel m c l = elim (Option-cases (BtreeMap.get m c)) [
  | inl e ↦ ground (arith, get-Above {V = Ranges} [] l tt)
  | inr (authors, e) ↦
      rw (e, channel)
        (rw append-nil at (get-tag c authors [] l tt)
          ∙ ground (arith, get-Above {V = Ranges} [] l tt))
]

pub channel-IsSorted : (m : LogRanges) (c : ℕ) → IsValid m → IsSorted (channel m c)
unfolding channel Beyond
channel-IsSorted m c v = elim (Option-cases (BtreeMap.get m c)) [
  | inl e ↦ rw (e, channel) tt
  | inr (authors, e) ↦
      rw (e, channel)
        (rw append-nil at (
          tag-IsSorted c authors [] (AllValues-get IsChannel m c authors v.channels e).sorted tt
            tt))
]

-- What is built of sorted pairs has what they have.
pub get-from_pairs :
    (ps : List (Log × Ranges)) (l : Log) → IsSorted ps → get (from_pairs ps) l ≡ BtreeMap.get ps l
unfolding from_pairs
get-from_pairs ps l s = get-collect (λ _ r. some r) empty ps l s ∙ ground (arith, get-empty l)
