-- ===== src/Wire.antt =====
-- crates/dash-router-core/src/wire.rs: the messages that nodes broadcast. `encode` and `decode`
-- are postcard's and not modelled.
use dash_router.Base.{ℕ, List}
use dash_router.Log.{Log}
use dash_router.Interest.{Interest}
use dash_router.Storage.{Op}

-- `WIRE_VERSION`
pub wire_version : ℕ
wire_version = 1

pub data WireBody : Type 0 where
  want : Interest → WireBody
  have : List (Log × List (ℕ × Op)) → WireBody

pub record WireMessage : Type 0 where
  pub version : ℕ
  pub sender : ℕ
  pub body : WireBody

unfoldable pub message_want : ℕ → Interest → WireMessage
message_want sender interest = record {
  version = wire_version;
  sender = sender;
  body = want interest;
}

unfoldable pub message_have : ℕ → List (Log × List (ℕ × Op)) → WireMessage
message_have sender ops = record { version = wire_version; sender = sender; body = have ops }
