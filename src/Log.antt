-- ===== src/Log.antt =====
-- crates/dash-router-core/src/log.rs: log ids. An id is determined by its channel and its author
-- (`Log::new` inverts them), so an id is that pair, ordered by channel first as `Pair` is. Channels
-- and authors are opaque ordered ids: natural numbers here.
use Prim.Native.Nat.{compare, Ordering}
use Prim.Native.Nat.Ordering.{eq}
use dash_router.Base.{ℕ, ◌≤◌, ◌*◌, ◌%◌, ◌^◌, arith}
use dash_router.Base.Order.{Ord, IsComparison}

pub record Log : Type 0 where
  pub channel : ℕ
  pub author : ℕ

-- `u32::MAX`
abbrev pub prefix_max : ℕ
prefix_max = 4294967295

-- The trait's `author_prefix`: the first four bytes of an author, a `u32`.
pub record Authors : Type 0 where
  pub author_prefix : ℕ → ℕ
  pub prefix-le : (a : ℕ) → author_prefix a ≤ prefix_max

-- `impl Log for Pair`: an author is one byte, its own first byte.
pub pair_prefix : ℕ → ℕ
pair_prefix a = (a % 256) * 2 ^ 24

pub pair_prefix-le : (a : ℕ) → pair_prefix a ≤ prefix_max
unfolding pair_prefix
pair_prefix-le a = omega arith

unfoldable pub pair_authors : Authors
unfolding pair_prefix
pair_authors = record { author_prefix = pair_prefix; prefix-le = pair_prefix-le }

-- `self_channeled!`: one author, `IdUnit`.
unfoldable pub unit_authors : Authors
unit_authors = record { author_prefix = λ _. 0; prefix-le = λ _. omega arith }

abbrev pub then : Ordering → Ordering → Ordering
then eq second = second
then first _ = first

-- `#[derive(Ord)]` on `Pair`.
abbrev pub compare_log : Log → Log → Ordering
compare_log l m = then (compare l.channel m.channel) (compare l.author m.author)

pub compare_log-IsComparison : IsComparison compare_log
compare_log-IsComparison = ground arith

instance abbrev pub log_ord : Ord Log
log_ord = record { cmp = compare_log; comparison = compare_log-IsComparison }
