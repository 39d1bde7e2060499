-- ===== src/Pack.antt =====
-- crates/dash-router/src/pack.rs: Haves and Wants cut to messages of at most a number of bytes. How
-- long a message is when encoded is postcard's to say, and a parameter.
pub mod Haves
pub mod Slices
mod Tests
use dash_router.Base.{
  ℕ, ◌+◌, ◌-◌, Bool, true, false, Option, none, some, List, [], ◌∷◌, ◌++◌, leb, if◌then◌else◌,
}
use dash_router.Log.{Log}
use dash_router.Storage.{Op}
use dash_router.Wire.{WireMessage, message_have}
use dash_router.Node.{group_ops}

-- `WIRE_HEADROOM_BYTES`
abbrev pub wire_headroom_bytes : ℕ
wire_headroom_bytes = 296

-- `saturating_sub`
pub wire_budget : ℕ → ℕ
wire_budget max_message_size = max_message_size - wire_headroom_bytes

-- `DEFAULT_MAX_WIRE_BYTES`
pub default_max_wire_bytes : ℕ
default_max_wire_bytes = wire_budget 4096

-- The state of the loop of `pack_have`.
pub record Packing : Type 0 where
  pub msgs : List WireMessage
  pub dropped : ℕ
  pub batch : List (Log × ℕ × Op)

pub without_payload : Log × ℕ × Op → Log × ℕ × Op
without_payload (l, s, op) = (l, s, record op { payload = none })

module _ (encoded_len : WireMessage → ℕ) (sender : ℕ) (budget : ℕ) where
  pub have_len : List (Log × ℕ × Op) → ℕ
  have_len batch = encoded_len (message_have sender (group_ops batch))

  -- The batch as a message, if it has an op.
  pub flush : List WireMessage → List (Log × ℕ × Op) → List WireMessage
  flush msgs [] = msgs
  flush msgs (op ∷ ops) = msgs ++ message_have sender (group_ops (op ∷ ops)) ∷ []

  -- An op alone: with its payload, or without, or not at all.
  pub pack_alone : List WireMessage → ℕ → Log × ℕ × Op → Packing
  pack_alone msgs dropped last =
      if leb (have_len (last ∷ [])) budget
      then record { msgs = msgs; dropped = dropped; batch = last ∷ [] }
      else if leb (have_len (without_payload last ∷ [])) budget
      then record { msgs = msgs; dropped = dropped; batch = without_payload last ∷ [] }
      else record { msgs = msgs; dropped = dropped + 1; batch = [] }

  pub pack_op : Packing → Log × ℕ × Op → Packing
  pack_op s item =
      if leb (have_len (s.batch ++ item ∷ [])) budget
      then record s { batch = s.batch ++ item ∷ [] }
      else pack_alone (flush s.msgs s.batch) s.dropped item

  pub pack_loop : Packing → List (Log × ℕ × Op) → Packing
  pack_loop s [] = s
  pack_loop s (item ∷ ops) = pack_loop (pack_op s item) ops

  pub pack_have : List (Log × ℕ × Op) → List WireMessage × ℕ
  pack_have ops =
      let s = pack_loop (record { msgs = []; dropped = 0; batch = [] }) ops in
      (flush s.msgs s.batch, s.dropped)
