-- ===== src/Interest/Build.antt =====
-- What `Entry::new` builds: the scope as given, and the have without its empty ranges.
use dash_router.Base.{
  ℕ, ◌≤◌, ◌≡◌, ◌≢◌, true, false, none, some, [], ◌∷◌, refl, arith, ltb, ◌==◌, Bool-cases,
  Option-cases, inl, inr, if◌then◌else◌,
}
use dash_router.Base.Order.{nat_ord}
use dash_router.BtreeMap
use dash_router.BtreeMap.{BtreeMap}
use dash_router.BtreeMap.Entries.{AllEntries, AllEntries-insert, AllEntries-get}
use dash_router.Log.{Authors}
use dash_router.Ranges
use dash_router.Ranges.{Ranges}
use dash_router.Interest
use dash_router.BtreeMap.Laws.{get-insert}
use dash_router.Log.{Log}
use dash_router.Interest.{
  Interest, single, is_pure, Entry, contains, contains_prefix, have_of, new, new_loop,
}
use dash_router.Interest.Asks.{asks, asks_log}
use dash_router.Ranges.Sets.{contains-nil}

pub pure_nothing : (lo hi : ℕ) → is_pure (record { lo = lo; hi = hi; have = [] }) ≢ false
unfolding is_pure
pure_nothing lo hi = cc

pub is_pure_listed :
    (lo hi : ℕ) (x : ℕ × Ranges) (have : BtreeMap ℕ Ranges)
    → is_pure (record { lo = lo; hi = hi; have = x ∷ have }) ≢ true
unfolding is_pure
is_pure_listed lo hi x have = cc

-- What a have lists for an author.
abbrev pub have_in : BtreeMap ℕ Ranges → ℕ → Ranges
have_in have a = elim (BtreeMap.get have a) [ none ↦ [] | some r ↦ r ]

module _ ⦃t : Authors⦄ (P : ℕ → Ranges → Type 0) where
  -- Where `new` builds an entry, it has the scope, and its have has what every entry given has.
  pub record Builds (lo hi : ℕ) (e : Entry) : Type 0 where
    pub bottom : e.lo ≡ lo
    pub top : e.hi ≡ hi
    pub entries : AllEntries P e.have

  new_loop-Builds :
      (lo hi : ℕ) (have : BtreeMap ℕ Ranges) (out e : Entry)
      → Builds lo hi out
      → AllEntries P have
      → new_loop out have ≡ Interest.ok e
      → Builds lo hi e
  unfolding new_loop
  new_loop-Builds lo hi [] out e b v h = let same : out ≡ e = cc in rw same at b
  new_loop-Builds lo hi ((a, r) ∷ have) out e b v h = elim (Bool-cases (contains out a)) [
    | inl inside ↦ elim (Bool-cases (Ranges.is_empty r)) [
      | inl nothing ↦ new_loop-Builds lo hi have out e b v.1 (rw (inside, nothing) at h)
      | inr something ↦
          new_loop-Builds lo hi have (record out { have = BtreeMap.insert out.have a r }) e
            (record {
              bottom = b.bottom;
              top = b.top;
              entries = AllEntries-insert P out.have a r v.0 b.entries;
            })
            v.1 (rw (inside, something) at h)
    ]
    | inr outside' ↦ absurd (cc (rw outside' at h))
  ]

  pub new-Builds :
      (lo hi : ℕ) (have : BtreeMap ℕ Ranges) (e : Entry)
      → AllEntries P have
      → new lo hi have ≡ Interest.ok e
      → Builds lo hi e
  unfolding new
  new-Builds lo hi have e v h = elim (Bool-cases (ltb hi lo)) [
    | inl inverted' ↦ absurd (cc (rw inverted' at h))
    | inr fine ↦
        new_loop-Builds lo hi have (record { lo = lo; hi = hi; have = [] }) e
          (record { bottom = refl; top = refl; entries = tt }) v (rw fine at h)
  ]

  have_of-Builds :
      (lo hi : ℕ) (e : Entry) (a q : ℕ)
      → Builds lo hi e
      → ((r : Ranges) → P a r → Ranges.contains r q ≡ false)
      → Ranges.contains (have_of e a) q ≡ false
  unfolding have_of
  have_of-Builds lo hi e a q b v = elim (Option-cases (BtreeMap.get e.have a)) [
    | inl none' ↦ rw (none', have_of) (contains-nil q)
    | inr (x, some') ↦ rw (some', have_of) (v x (AllEntries-get P e.have a x b.entries some'))
  ]

  -- Where no range listed for the author has the number, a built entry asks for it in its scope.
  pub asks-Builds :
      (lo hi : ℕ) (e : Entry) (a q : ℕ)
      → Builds lo hi e
      → ((r : Ranges) → P a r → Ranges.contains r q ≡ false)
      → lo ≤ t.author_prefix a
      → t.author_prefix a ≤ hi
      → asks e a q ≡ true
  unfolding contains contains_prefix
  asks-Builds lo hi e a q b v l h = ground (arith, b.bottom, b.top, have_of-Builds lo hi e a q b v)

module _ ⦃t : Authors⦄ where
  -- What an entry asks for is in its scope and not listed.
  pub asks-have_in :
      (e : Entry) (a q : ℕ)
      → asks e a q ≡ true
      → (e.lo ≤ t.author_prefix a)
        × (t.author_prefix a ≤ e.hi)
        × (Ranges.contains (have_in e.have a) q ≡ false)
  unfolding contains contains_prefix have_of
  asks-have_in e a q h = ground arith

  pub single-asks_log :
      (c : ℕ) (e : Entry) (l : Log) (q : ℕ)
      → l.channel ≡ c
      → asks_log (single c e) l q ≡ asks e l.author q
  unfolding single Interest.insert Interest.empty
  single-asks_log c e l q h = ground (arith, get-insert [] c l.channel e)

  pub asks_log-insert :
      (i : Interest) (c : ℕ) (e : Entry) (l : Log) (q : ℕ)
      → asks_log (Interest.insert i c e) l q
        ≡ (if l.channel == c then asks e l.author q else asks_log i l q)
  unfolding Interest.insert
  asks_log-insert i c e l q = ground (arith, get-insert i c l.channel e)

  new_loop-ok :
      (lo hi : ℕ) (have out : BtreeMap ℕ Ranges)
      → AllEntries (λ a r. (lo ≤ t.author_prefix a) × (t.author_prefix a ≤ hi)) have
      → (e : Entry) × (new_loop (record { lo = lo; hi = hi; have = out }) have ≡ Interest.ok e)
  unfolding new_loop contains contains_prefix
  new_loop-ok lo hi [] out v = (record { lo = lo; hi = hi; have = out }, refl)
  new_loop-ok lo hi ((a, r) ∷ have) out v =
      let e : Entry = record { lo = lo; hi = hi; have = out } in
      let inside : contains e a ≡ true = ground (arith, v.0) in
      elim (Bool-cases (Ranges.is_empty r)) [
        | inl nothing ↦ rw (inside, nothing) (new_loop-ok lo hi have out v.1)
        | inr something ↦
            rw (inside, something) (new_loop-ok lo hi have (BtreeMap.insert out a r) v.1)
      ]

  -- `new` takes a have whose authors are in the scope, which is not empty.
  pub new-ok :
      (lo hi : ℕ) (have : BtreeMap ℕ Ranges)
      → lo ≤ hi
      → AllEntries (λ a r. (lo ≤ t.author_prefix a) × (t.author_prefix a ≤ hi)) have
      → (e : Entry) × (new lo hi have ≡ Interest.ok e)
  unfolding new
  new-ok lo hi have h v =
      let fine : ltb hi lo ≡ false = ground arith in rw fine (new_loop-ok lo hi have [] v)
