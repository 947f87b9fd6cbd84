-- ===== src/Messages.antt =====
-- internal/services/canary_message.go: a message as JSON, and back. encoding/json is a parameter.
pub mod Log
pub mod Delivery
mod Tests
use strimzi_canary.Common.{ℕ, ◌≡◌, Option, none, some, String}
use strimzi_canary.Common.Int.{ℤ, pos}
use strimzi_canary.Config.Bounds.{IsInt64}
use strimzi_canary.Producer.{CanaryMessage}

-- What the messages use of encoding/json. `unmarshal` gives what it makes of a message that is there.
pub record Json : Type 1 where
  pub Bytes : Type 0
  pub no_bytes : Bytes
  pub marshal : CanaryMessage → Option Bytes
  pub unmarshal : Bytes → CanaryMessage → CanaryMessage

-- A message whose numbers are int64 values can be marshalled, and unmarshalling gives all of it back.
pub record IsJson (j : Json) : Type 0 where
  pub reads_back :
      (cm start : CanaryMessage)
      → IsInt64 cm.message_id
      → IsInt64 cm.timestamp
      → (b : j.Bytes) × (j.marshal cm ≡ some b) × (j.unmarshal b start ≡ cm)

module _ (j : Json) where
  open j use {Bytes, no_bytes, marshal, unmarshal}

  -- Both drop their errors.
  abbrev or_no_bytes : Option Bytes → Bytes
  or_no_bytes none = no_bytes
  or_no_bytes (some b) = b

  unfoldable pub json : CanaryMessage → Bytes
  json cm = or_no_bytes (marshal cm)

  unfoldable pub new_canary_message : Bytes → CanaryMessage
  new_canary_message bytes =
      unmarshal bytes (record { producer_id = ""; message_id = pos 0; timestamp = pos 0 })

  pub new_canary_message-json :
      (cm : CanaryMessage)
      → IsJson j
      → IsInt64 cm.message_id
      → IsInt64 cm.timestamp
      → new_canary_message (json cm) ≡ cm
  unfolding new_canary_message json
  new_canary_message-json cm doc h k =
      let (b, made, read) =
        doc.reads_back cm (record { producer_id = ""; message_id = pos 0; timestamp = pos 0 }) h
          k in
      rw made read
