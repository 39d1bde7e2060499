-- ===== src/Router/Step/Haves.antt =====
-- Receiving, pushing and firing a Have: what is learned, what is flooded, and that a flood ends.
use dash_router.Base.{
  ℕ, ◌≡◌, Bool, false, not, ◌&&◌, ◌||◌, List, [], ◌∷◌, ◌++◌, refl, arith, ◌∙◌, All, Bool-cases, inl,
  inr,
}
use dash_router.Base.Order.{nat_ord}
use dash_router.BtreeMap.Laws.{AllValues-insert}
use dash_router.Log.{Log, Authors}
use dash_router.LogRanges
use dash_router.LogRanges.{LogRanges}
use dash_router.LogRanges.Shape.{union-IsValid_log, difference-IsValid_log}
use dash_router.LogRanges.Sets.{contains-union_log, contains-difference_log}
use dash_router.LogRanges.Empty.{is_empty-contains_log}
use dash_router.Router.{
  Config, State, Record, Effect, send_want, send_have, accept, relayed_have_ranges,
  note_relayed_haves, note_have,
}
use dash_router.Router.Folds.{
  IsRecord, IsValid, some_record, relayed_have_ranges-IsValid, contains-relayed_have_ranges,
}
use dash_router.Router.Step.{learn, flood}

pub some_record-append :
    (rs qs : List Record) (l : Log) (q : ℕ)
    → some_record (rs ++ qs) l q ≡ (some_record rs l q || some_record qs l q)
some_record-append [] qs l q = refl
some_record-append (r ∷ rs) qs l q = ground (arith, some_record-append rs qs l q)

All-append_one :
    (rs : List Record) (r : Record) → All IsRecord rs → IsRecord r → All IsRecord (rs ++ r ∷ [])
All-append_one [] r v w = (w, tt)
All-append_one (x ∷ rs) r v w = (v.0, All-append_one rs r v.1 w)

-- The numbers that the effects send in Haves, and those that they hand up to be stored.
abbrev pub sent : List Effect → Log → ℕ → Bool
sent [] l q = false
sent (send_have r ∷ fx) l q = LogRanges.contains r l q || sent fx l q
sent (send_want i ∷ fx) l q = sent fx l q
sent (accept r ∷ fx) l q = sent fx l q

abbrev pub accepted : List Effect → Log → ℕ → Bool
accepted [] l q = false
accepted (send_have r ∷ fx) l q = accepted fx l q
accepted (send_want i ∷ fx) l q = accepted fx l q
accepted (accept r ∷ fx) l q = LogRanges.contains r l q || accepted fx l q

sent-append_have :
    (fx : List Effect) (r : LogRanges) (l : Log) (q : ℕ)
    → sent (fx ++ send_have r ∷ []) l q ≡ (sent fx l q || LogRanges.contains r l q)
sent-append_have [] r l q = ground arith
sent-append_have (send_have x ∷ fx) r l q = ground (arith, sent-append_have fx r l q)
sent-append_have (send_want x ∷ fx) r l q = sent-append_have fx r l q
sent-append_have (accept x ∷ fx) r l q = sent-append_have fx r l q

accepted-append_have :
    (fx : List Effect) (r : LogRanges) (l : Log) (q : ℕ)
    → accepted (fx ++ send_have r ∷ []) l q ≡ accepted fx l q
accepted-append_have [] r l q = refl
accepted-append_have (send_have x ∷ fx) r l q = accepted-append_have fx r l q
accepted-append_have (send_want x ∷ fx) r l q = accepted-append_have fx r l q
accepted-append_have (accept x ∷ fx) r l q = ground (arith, accepted-append_have fx r l q)

module _ ⦃t : Authors⦄ where
  -- What a state has after a message, besides what it had: `new` numbers held and relayed.
  pub record Grown (s s' : State) (new : Log → ℕ → Bool) (relay : Log → ℕ → Bool) : Type 0 where
    pub valid : IsValid s'
    pub id : s'.id ≡ s.id
    pub held :
        (l : Log) (q : ℕ)
        → LogRanges.contains s'.held l q ≡ (LogRanges.contains s.held l q || new l q)
    pub relayed :
        (l : Log) (q : ℕ)
        → some_record s'.relayed_haves l q ≡ (some_record s.relayed_haves l q || relay l q)

  pub note_relayed-IsValid :
      (s : State) (r : LogRanges) (ttl : ℕ)
      → IsValid s
      → LogRanges.IsValid r
      → IsValid (note_relayed_haves s r ttl)
  unfolding note_relayed_haves
  note_relayed-IsValid s r ttl v w = record {
    held = v.held;
    seen = v.seen;
    haves = v.haves;
    relayed = All-append_one s.relayed_haves (record { ranges = r; ttl_left = ttl }) v.relayed w;
  }

  pub note_have-IsValid :
      (s : State) (k : ℕ) (r : LogRanges) (ttl : ℕ)
      → IsValid s
      → LogRanges.IsValid r
      → IsValid (note_have s k r ttl)
  unfolding note_have
  note_have-IsValid s k r ttl v w = record {
    held = v.held;
    seen = v.seen;
    haves = AllValues-insert IsRecord s.haves k (record { ranges = r; ttl_left = ttl }) w v.haves;
    relayed = v.relayed;
  }

  module _ (config : Config) (s : State) (ranges : LogRanges) (v : IsValid s)
      (w : LogRanges.IsValid ranges) where
    novel : LogRanges
    novel = LogRanges.difference ranges s.held

    novel-IsValid : LogRanges.IsValid novel
    unfolding novel
    novel-IsValid = difference-IsValid_log ranges s.held w v.held

    contains-novel :
        (l : Log) (q : ℕ)
        → LogRanges.contains novel l q
          ≡ (LogRanges.contains ranges l q && not (LogRanges.contains s.held l q))
    unfolding novel
    contains-novel l q = contains-difference_log ranges s.held w v.held l q

    pub learn-Grown :
        Grown s (learn s ranges).0 (LogRanges.contains ranges) (λ _ _. false)
        × ((l : Log) (q : ℕ)
            → accepted (learn s ranges).1 l q
              ≡ (LogRanges.contains ranges l q && not (LogRanges.contains s.held l q)))
        × ((l : Log) (q : ℕ) → sent (learn s ranges).1 l q ≡ false)
    unfolding learn novel
    learn-Grown = elim (Bool-cases (LogRanges.is_empty novel)) [
      | inl none_new ↦
          rw (none_new, learn)
            (
              record {
                valid = v;
                id = refl;
                held = λ l q.
                    ground (arith, contains-novel l q, is_empty-contains_log novel l q none_new);
                relayed = λ l q. ground arith;
              },
              λ l q. ground (arith, contains-novel l q, is_empty-contains_log novel l q none_new),
              λ l q. refl,
            )
      | inr some_new ↦
          rw (some_new, learn)
            (
              record {
                valid = record {
                  held = union-IsValid_log s.held novel v.held novel-IsValid;
                  seen = v.seen;
                  haves = v.haves;
                  relayed = v.relayed;
                };
                id = refl;
                held = λ l q. ground (
                  arith,
                  contains-union_log s.held novel v.held novel-IsValid l q,
                  contains-novel l q,
                );
                relayed = λ l q. ground arith;
              },
              λ l q. ground (arith, contains-novel l q),
              λ l q. refl,
            )
    ]

    -- What was not relayed yet.
    fresh : LogRanges
    fresh = LogRanges.difference ranges (relayed_have_ranges s)

    fresh-IsValid : LogRanges.IsValid fresh
    unfolding fresh
    fresh-IsValid =
        difference-IsValid_log ranges (relayed_have_ranges s) w (relayed_have_ranges-IsValid s v)

    contains-fresh :
        (l : Log) (q : ℕ)
        → LogRanges.contains fresh l q
          ≡ (LogRanges.contains ranges l q && not (some_record s.relayed_haves l q))
    unfolding fresh
    contains-fresh l q =
        contains-difference_log ranges (relayed_have_ranges s) w (relayed_have_ranges-IsValid s v) l
          q
        ∙ ground (arith, contains-relayed_have_ranges s l q v)

    -- What a relay leaves: the numbers sent are the ones that were not relayed yet.
    pub record Flooded (s' : State) (fx : List Effect) (before : List Effect) : Type 0 where
      pub grown : Grown s s' (λ _ _. false) (LogRanges.contains ranges)
      pub sends :
          (l : Log) (q : ℕ)
          → sent fx l q ≡ (
              sent before l q
              || (LogRanges.contains ranges l q && not (some_record s.relayed_haves l q)))
      pub accepts : (l : Log) (q : ℕ) → accepted fx l q ≡ accepted before l q

    pub flood-Flooded :
        (fx : List Effect)
        → Flooded (flood config ranges (s, fx)).0 (flood config ranges (s, fx)).1 fx
    unfolding flood fresh note_relayed_haves
    flood-Flooded fx = elim (Bool-cases (LogRanges.is_empty fresh)) [
      | inl none_fresh ↦
          rw (none_fresh, flood)
            (record {
              grown = record {
                valid = v;
                id = refl;
                held = λ l q. ground arith;
                relayed = λ l q.
                    ground (arith, contains-fresh l q, is_empty-contains_log fresh l q none_fresh);
              };
              sends = λ l q.
                  ground (arith, contains-fresh l q, is_empty-contains_log fresh l q none_fresh);
              accepts = λ l q. refl;
            })
      | inr some_fresh ↦
          rw (some_fresh, flood)
            (record {
              grown = record {
                valid = note_relayed-IsValid s fresh config.have_ttl v fresh-IsValid;
                id = refl;
                held = λ l q. ground arith;
                relayed = λ l q. ground (
                  arith,
                  contains-fresh l q,
                  some_record-append s.relayed_haves
                      (record { ranges = fresh; ttl_left = config.have_ttl } ∷ []) l q,
                );
              };
              sends = λ l q. ground (arith, contains-fresh l q, sent-append_have fx fresh l q);
              accepts = λ l q. accepted-append_have fx fresh l q;
            })
    ]
