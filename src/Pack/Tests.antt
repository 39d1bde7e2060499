-- ===== src/Pack/Tests.antt =====
-- Instances of the theorems of pack.rs, with an encoder that counts numbers and boundaries.
use dash_router.Base.{
  ℕ, ◌+◌, ◌≡◌, ◌⊎◌, not, ◌||◌, Bool, true, none, some, List, [], ◌∷◌, arith, leb, length, refl, All,
}
use dash_router.Base.Order.{nat_ord}
use dash_router.BtreeMap.{BtreeMap}
use dash_router.BtreeMap.Entries.{AllEntries}
use dash_router.Interest.Asks.{IsValid, asks_log}
use dash_router.Log.{Log, Authors, pair_authors}
use dash_router.Ranges.{Ranges}
use dash_router.Interest.{Interest, contains, contains_prefix}
use dash_router.Storage.{Op}
use dash_router.Wire
use dash_router.Wire.{WireMessage, WireBody}
use dash_router.Interest.Build.{is_pure_listed}
use dash_router.Pack.{pack_have}
use dash_router.Pack.Haves.{Fits, Packs, ops_of, pack_have_lem}
use dash_router.Pack.Slices.{Run, extend, rounds, shrink, pack_want}
use dash_router.Pack.Slices.Shrink.{Returns}
use dash_router.Pack.Slices.Rounds.{HasValidRanges, shrink-ends}
use dash_router.Pack.Slices.Wants.{some_message_asks, pack_want-asks}

instance abbrev authors : Authors
authors = pair_authors

abbrev entry_len : BtreeMap ℕ Ranges → ℕ
entry_len [] = 0
entry_len ((a, r) ∷ have) = 1 + length r + entry_len have

abbrev interest_size : Interest → ℕ
interest_size [] = 0
interest_size ((c, e) ∷ i) = 3 + entry_len e.have + interest_size i

abbrev op_len : Op → ℕ
op_len op = length op.header + elim op.payload [ none ↦ 0 | some bytes ↦ length bytes ]

abbrev seqs_len : List (ℕ × Op) → ℕ
seqs_len [] = 0
seqs_len ((s, op) ∷ seqs) = 1 + op_len op + seqs_len seqs

abbrev groups_len : List (Log × List (ℕ × Op)) → ℕ
groups_len [] = 0
groups_len ((l, seqs) ∷ groups) = 2 + seqs_len seqs + groups_len groups

abbrev body_len : WireBody → ℕ
body_len (Wire.want i) = interest_size i
body_len (Wire.have groups) = groups_len groups

abbrev message_len : WireMessage → ℕ
message_len m = 2 + body_len m.body

-- Three ops of one log, of which the second has a large payload.
abbrev log : Log
log = record { channel = 7; author = 1 }

abbrev op : List ℕ → Op
op bytes = record { header = 7 ∷ 7 ∷ []; payload = some bytes }

abbrev three_ops : List (Log × ℕ × Op)
three_ops =
    (log, 0, op (1 ∷ [])) ∷ (log, 1, op (1 ∷ 2 ∷ 3 ∷ 4 ∷ 5 ∷ 6 ∷ [])) ∷ (log, 2, op (1 ∷ [])) ∷ []

pack_have_lem_example :
    All (Fits message_len 1 9) (pack_have message_len 1 9 three_ops).0
    × Packs message_len 1 9 three_ops
        (ops_of (pack_have message_len 1 9 three_ops).0)
        (pack_have message_len 1 9 three_ops).1
pack_have_lem_example = pack_have_lem message_len 1 9 three_ops

-- A run of two authors of one prefix, of which at most five numbers fit.
abbrev two_authors : Run
two_authors = (1, 0 ∷ 2 ∷ 4 ∷ 6 ∷ []) ∷ (2, 0 ∷ 1 ∷ 3 ∷ []) ∷ []

abbrev at_most_five : BtreeMap ℕ Ranges → Bool
at_most_five have = leb (entry_len have) 5

shrink-ends_example :
    Returns
      (λ s. ((s.run ≡ []) ⊎ (at_most_five s.run ≡ true)) × AllEntries HasValidRanges s.run)
      (shrink at_most_five (rounds (extend [] two_authors)) (extend [] two_authors) [])
shrink-ends_example = shrink-ends at_most_five two_authors (omega arith)

-- An entry that lists three authors, to be cut between them.
abbrev three_authors : Interest
three_authors =
    (
      7,
      record {
        lo = 0;
        hi = 4294967295;
        have = (1, 0 ∷ 2 ∷ []) ∷ (2, 0 ∷ 1 ∷ 3 ∷ []) ∷ (3, 4 ∷ []) ∷ [];
      },
    )
    ∷ []

abbrev three_haves : BtreeMap ℕ Ranges
three_haves = (1, 0 ∷ 2 ∷ []) ∷ (2, 0 ∷ 1 ∷ 3 ∷ []) ∷ (3, 4 ∷ []) ∷ []

three_authors-IsValid : IsValid (record { lo = 0; hi = 4294967295; have = three_haves })
unfolding contains contains_prefix
three_authors-IsValid = record {
  scope = omega arith;
  sorted = (refl, (refl, tt));
  ranges = omega arith;
  within = λ a h. ground (arith, authors.prefix-le a);
}

pack_want-asks_example :
    Returns
      (λ out.
        (not (asks_log three_authors (record { channel = 7; author = 2 }) 1)
          || some_message_asks out.0 (record { channel = 7; author = 2 }) 1)
        ≡ true)
      (pack_want message_len 1 7 three_authors)
pack_want-asks_example =
    pack_want-asks message_len 1 7 three_authors (record { channel = 7; author = 2 }) 1 tt
      (three_authors-IsValid, tt)
      (
        (λ h. absurd (
            is_pure_listed 0 4294967295 (1, 0 ∷ 2 ∷ []) ((2, 0 ∷ 1 ∷ 3 ∷ []) ∷ (3, 4 ∷ []) ∷ [])
              h)),
        tt,
      )
