-- ===== src/Interest/Covering.antt =====
-- `covered_by` decides whether the seen Wants ask for everything that an entry asks for.
use dash_router.Base.{
  ℕ, ◌≤◌, ◌≡◌, ◌↔◌, Bool, true, false, not, ◌&&◌, ◌||◌, none, some, List, [], ◌∷◌, refl, arith, ap,
  ◌∙◌, elem, Option-cases, Bool-cases, inl, inr, if◌then◌else◌, All,
}
use dash_router.Base.Order.{nat_ord}
use dash_router.BtreeMap
use dash_router.BtreeMap.{BtreeMap, IsSorted, AllValues}
use dash_router.BtreeMap.Laws.{AllValues-get, get-retain}
use dash_router.Interest
use dash_router.BtreeMap.Keys.{elem-set_insert, get-not_key}
use dash_router.Log.{Log, Authors, log_ord}
use dash_router.Ranges
use dash_router.Ranges.{Ranges, seq_max}
use dash_router.Ranges.Sets.{contains-nil}
use dash_router.Interest.{
  Entry, Interest, contains, contains_prefix, have_of, records_of, meet, common_have,
  author_covered, extend_listed, listed, all_covered, scope_covered, covered_by, uncovered_by,
}
use dash_router.Interest.Scope.{some_contains, scope_covered_iff}
use dash_router.Interest.Common.{some_asks, contains-prefix, author_sound, author_complete}
use dash_router.Interest.Asks.{IsValid, asks, asks_log}

module _ ⦃t : Authors⦄ where
  open t use {author_prefix}

  all_sound :
      (e : Entry) (records : List Entry) (authors : List ℕ) (a : ℕ)
      → all_covered e records authors ≡ true
      → elem a authors ≡ true
      → author_covered e records a ≡ true
  unfolding all_covered
  all_sound e records [] a h m = cc
  all_sound e records (b ∷ authors) a h m = ground (arith, all_sound e records authors a)

  all_complete :
      (e : Entry) (records : List Entry) (authors : List ℕ)
      → ((a : ℕ) → elem a authors ≡ true → author_covered e records a ≡ true)
      → all_covered e records authors ≡ true
  unfolding all_covered
  all_complete e records [] h = refl
  all_complete e records (b ∷ authors) h =
      ground (arith, h b, all_complete e records authors (λ a m. h a (ground arith)))

  elem-extend_listed :
      (e : Entry) (authors ks : List ℕ) (a : ℕ)
      → elem a (extend_listed e authors ks) ≡ (elem a authors || (contains e a && elem a ks))
  unfolding extend_listed
  elem-extend_listed e authors [] a = ground arith
  elem-extend_listed e authors (k ∷ ks) a =
      elem-extend_listed e (if contains e k then BtreeMap.set_insert authors k else authors) ks a
      ∙ ground (arith, elem-set_insert authors k a)

  -- Some record lists the author.
  abbrev some_lists : List Entry → ℕ → Bool
  some_lists [] a = false
  some_lists (r ∷ records) a = elem a (BtreeMap.keys r.have) || some_lists records a

  elem-listed :
      (e : Entry) (authors : List ℕ) (records : List Entry) (a : ℕ)
      → elem a (listed e authors records)
        ≡ (elem a authors || (contains e a && some_lists records a))
  unfolding listed
  elem-listed e authors [] a = ground arith
  elem-listed e authors (r ∷ records) a =
      elem-listed e (extend_listed e authors (BtreeMap.keys r.have)) records a
      ∙ ground (arith, elem-extend_listed e authors (BtreeMap.keys r.have) a)

  -- An author that no record lists is asked for in full by each record with it in scope.
  have_of-unlisted :
      (e : Entry) (a s : ℕ)
      → elem a (BtreeMap.keys e.have) ≡ false
      → Ranges.contains (have_of e a) s ≡ false
  unfolding have_of
  have_of-unlisted e a s h = rw (get-not_key e.have a h, have_of) (contains-nil s)

  unlisted-asks :
      (records : List Entry) (a s : ℕ)
      → some_lists records a ≡ false
      → some_asks records a s ≡ some_contains (author_prefix a) records
  unlisted-asks [] a s h = refl
  unlisted-asks (r ∷ records) a s h =
      ground (arith, unlisted-asks records a s, have_of-unlisted r a s, contains-prefix r a)

  -- The records ask for everything that the entry asks for: every prefix of its scope is in some
  -- record's scope, and every number that it asks for some record asks for.
  pub record Covers (e : Entry) (records : List Entry) : Type 0 where
    pub scope : (p : ℕ) → contains_prefix e p ≡ true → some_contains p records ≡ true
    pub numbers : (a s : ℕ) → s ≤ seq_max → asks e a s ≡ true → some_asks records a s ≡ true

  module _ (e : Entry) (v : IsValid e) (r : Entry) (records : List Entry)
      (w : All IsValid (r ∷ records)) where
    abbrev decided : Bool
    decided =
        scope_covered e (r ∷ records)
        && all_covered e (r ∷ records) (listed e (BtreeMap.keys e.have) (r ∷ records))

    decided_sound : decided ≡ true → Covers e (r ∷ records)
    decided_sound h = record {
      scope = (scope_covered_iff e (r ∷ records) v.scope).0 (ground arith);
      numbers = λ a s le k. elim (Bool-cases (some_lists (r ∷ records) a)) [
        | inl yes' ↦
            (author_sound e (r ∷ records) v w a (
                all_sound e (r ∷ records) (listed e (BtreeMap.keys e.have) (r ∷ records)) a
                  (ground arith)
                  (ground (arith, elem-listed e (BtreeMap.keys e.have) (r ∷ records) a)))).1
              s le (ground arith)
        | inr no' ↦
            unlisted-asks (r ∷ records) a s no'
            ∙ (scope_covered_iff e (r ∷ records) v.scope).0 (ground arith) (author_prefix a)
                (ground (arith, contains-prefix e a))
      ];
    }

    decided_complete : Covers e (r ∷ records) → decided ≡ true
    decided_complete h = ground (
      arith,
      (scope_covered_iff e (r ∷ records) v.scope).1 h.scope,
      all_complete e (r ∷ records) (listed e (BtreeMap.keys e.have) (r ∷ records)) each,
    )
      where
        in_scope :
            (a : ℕ)
            → elem a (listed e (BtreeMap.keys e.have) (r ∷ records)) ≡ true
            → contains e a ≡ true
        in_scope a m =
            ground (arith, v.within a, elem-listed e (BtreeMap.keys e.have) (r ∷ records) a)

        each :
            (a : ℕ)
            → elem a (listed e (BtreeMap.keys e.have) (r ∷ records)) ≡ true
            → author_covered e (r ∷ records) a ≡ true
        each a m = author_complete e (r ∷ records) v w a (
          h.scope (author_prefix a) (ground (arith, in_scope a m, contains-prefix e a)),
          λ s le k. h.numbers a s le (ground (arith, in_scope a m)),
        )

  records-All :
      (c : ℕ) (seen : List Interest)
      → All (AllValues IsValid) seen
      → All IsValid (records_of c seen)
  unfolding records_of Interest.get
  records-All c [] v = tt
  records-All c (i ∷ seen) v = elim (Option-cases (BtreeMap.get i c)) [
    | inl e ↦ rw (e, records_of) (records-All c seen v.1)
    | inr (r, e) ↦ rw (e, records_of) (AllValues-get IsValid i c r v.0 e, records-All c seen v.1)
  ]

  -- For valid entries, `covered_by` holds exactly when the seen Wants ask for everything that
  -- the entry asks for: every prefix of its scope is in the scope of one of their entries for
  -- the channel, and each `u32` number that it asks for one of those entries asks for.
  pub covered_by_iff :
      (e : Entry) (c : ℕ) (seen : List Interest)
      → IsValid e
      → All (AllValues IsValid) seen
      → (covered_by e c seen ≡ true) ↔ Covers e (records_of c seen)
  covered_by_iff e c seen v w = go (records_of c seen) refl (records-All c seen w)
    where
      go :
          (records : List Entry)
          → records_of c seen ≡ records
          → All IsValid records
          → (covered_by e c seen ≡ true) ↔ Covers e records
      go [] k a = (
        λ h. unfold covered_by in cc (rw (k, covered_by) at h),
        λ h. absurd (unfold contains_prefix in ground (arith, h.scope e.lo, v.scope)),
      )
      go (r ∷ records) k a = (
        λ h. decided_sound e v r records a (unfold covered_by in rw (k, covered_by) at h),
        λ h. unfold covered_by in rw (k, covered_by) (decided_complete e v r records a h),
      )

  -- Some seen Want asks for the number of the log.
  abbrev pub some_asks_log : List Interest → Log → ℕ → Bool
  some_asks_log [] l s = false
  some_asks_log (i ∷ seen) l s = asks_log i l s || some_asks_log seen l s

  some_asks-records :
      (seen : List Interest) (l : Log) (s : ℕ)
      → some_asks (records_of l.channel seen) l.author s ≡ some_asks_log seen l s
  unfolding records_of Interest.get
  some_asks-records [] l s = refl
  some_asks-records (i ∷ seen) l s = elim (Option-cases (BtreeMap.get i l.channel)) [
    | inl e ↦ rw (e, records_of) (some_asks-records seen l s ∙ ground arith)
    | inr (r, e) ↦
        rw (e, records_of)
          (ap (λ b. asks r l.author s || b) (some_asks-records seen l s) ∙ ground arith)
  ]

  -- For valid interests and every `u32` number of every log: what an interest asks for is
  -- asked for by a seen Want or by the entries that are not covered, and those ask for nothing
  -- that the interest does not.
  pub uncovered_by_loses_nothing :
      (i : Interest) (seen : List Interest) (l : Log) (s : ℕ)
      → IsSorted i
      → AllValues IsValid i
      → All (AllValues IsValid) seen
      → s ≤ seq_max
      → (asks_log i l s ≡ true
          → (asks_log (uncovered_by i seen) l s || some_asks_log seen l s) ≡ true)
        × (asks_log (uncovered_by i seen) l s ≡ true → asks_log i l s ≡ true)
  unfolding uncovered_by
  uncovered_by_loses_nothing i seen l s o v w le = elim (Option-cases (BtreeMap.get i l.channel)) [
    | inl none_here ↦ (λ h. ground arith, λ h. ground (arith, kept))
    | inr (e, here) ↦
        let ve : IsValid e = AllValues-get IsValid i l.channel e v here in
        (
          λ h. elim (Bool-cases (covered_by e l.channel seen)) [
            | inl yes' ↦
                let c : Covers e (records_of l.channel seen) =
                  (covered_by_iff e l.channel seen ve w).0 yes' in
                ground (arith, kept, some_asks-records seen l s, c.numbers l.author s le)
            | inr no' ↦ ground (arith, kept)
          ],
          λ h. ground (arith, kept),
        )
  ]
    where
      kept :
          BtreeMap.get (BtreeMap.retain (λ c e. not (covered_by e c seen)) i) l.channel
          ≡ elim (BtreeMap.get i l.channel) [
            | none ↦ none
            | some e ↦ if not (covered_by e l.channel seen) then some e else none
          ]
      kept = get-retain (λ c e. not (covered_by e c seen)) i l.channel o
