-- ===== src/Proto.antt =====
-- The enumerations and messages of HareMQ/mqcommon/msg.proto as data types and records.
use hare_mq.Base.{ℕ, Text}

-- `enum ExchangeType`.
pub data ExchangeType : Type 0 where
  unknown_type direct fanout topic : ExchangeType

-- `enum DeliveryMode`.
pub data DeliveryMode : Type 0 where
  unknown_mode undurable durable : DeliveryMode

-- `message BasicProperties`.
pub record BasicProperties : Type 0 where
  pub id : Text
  pub delivery_mode : DeliveryMode
  pub routing_key : Text

-- `message Message.Payload`.
pub record Payload : Type 0 where
  pub properties : BasicProperties
  pub body : Text
  pub valid : Text

-- `message Message`: the payload, and where its bytes stand in the data file.
pub record Message : Type 0 where
  pub payload : Payload
  pub offset : ℕ
  pub length : ℕ
