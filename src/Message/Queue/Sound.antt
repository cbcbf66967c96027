-- ===== src/Message/Queue/Sound.antt =====
-- message.hpp: what `queue_message` keeps true of its containers and its data file.
pub mod Records
pub mod Index
pub mod Insert
pub mod Relocate
pub mod Collect
pub mod Live
pub mod Mark
pub mod Remove
pub mod Front
pub mod Recover
pub mod Run
pub mod Start
pub mod Places
use hare_mq.Base.{
  ℕ, ◌+◌, ◌^◌, ◌<◌, ◌≡◌, ◌≢◌, true, List, [], ◌∷◌, some, Text, codes, text_discrete, Map, find,
  length, take, get_elem?,
}
use hare_mq.Proto.{Payload, Message}
use hare_mq.Split.{All}
use hare_mq.Files.{Files}
use hare_mq.Message.Mapper.{Codec, size_width, Paths}
use hare_mq.Message.Mapper.Records.{encode_all, Holds}
use hare_mq.Message.Mapper.Load.{valid_only}
use hare_mq.Message.Queue.{Pointer, QueueMessage, is_durable, msg_id}

abbrev pub id_of : Payload → Text
id_of r = r.properties.id

-- No identifier twice.
abbrev pub UniqueIds : List Payload → Type 0
UniqueIds [] = Unit
UniqueIds (r ∷ rs) = All (λ s. id_of s ≢ id_of r) rs × UniqueIds rs

-- No pointer twice.
abbrev pub UniquePointers : List Pointer → Type 0
UniquePointers [] = Unit
UniquePointers (p ∷ ps) = All (λ s. s ≢ p) ps × UniquePointers ps

-- A valid record has its identifier in `durable_msgs`.
abbrev pub Listed : Map Text Pointer → Payload → Type 0
Listed d r = (r.valid ≡ codes "1") × (p : Pointer) × (find text_discrete (id_of r) d ≡ some p)

module _ (c : Codec) where
  -- Where the body of record `i` begins.
  abbrev pub offset_of : List Payload → ℕ → ℕ
  offset_of ps i = length (encode_all c (take i ps)) + size_width

  -- The object at `p` has the identifier `id` and knows the place of its record.
  abbrev pub Entry : List Payload → List Message → Text → Pointer → Type 0
  Entry ps heap id p =
      (msg : Message) × (i : ℕ) × (get_elem? heap p ≡ some msg)
      × (msg_id msg ≡ id)
      × (msg.payload.valid ≡ codes "1")
      × (get_elem? ps i ≡ some msg.payload)
      × (msg.offset ≡ offset_of ps i)
      × (msg.length ≡ length (c.serialize msg.payload))

  -- `durable_msgs` leads to the objects of the valid ones of the records `ps`, which take fewer
  -- than 2 ^ 32 bytes.
  abbrev pub Indexed : List Payload → List Message → Map Text Pointer → Type 0
  Indexed ps heap d =
      (length (encode_all c ps) < 2 ^ 32)
      × UniqueIds (valid_only ps)
      × All (Listed d) (valid_only ps)
      × ((id : Text) (p : Pointer) → find text_discrete id d ≡ some p → Entry ps heap id p)

  -- The data file holds the records, and `count` is the number of the valid ones.
  abbrev pub Stored : Files → Paths → List Payload → List Message → Map Text Pointer → ℕ → Type 0
  Stored fs paths ps heap d count =
      Holds c fs paths.data_file ps × (count ≡ length (valid_only ps)) × Indexed ps heap d

-- The object at `p`: if it is durable, `durable_msgs` leads to it.
abbrev pub Known : List Message → Map Text Pointer → Pointer → Message → Type 0
Known heap d p msg =
    (get_elem? heap p ≡ some msg)
    × (is_durable msg.payload.properties.delivery_mode ≡ true
        → find text_discrete (msg_id msg) d ≡ some p)

-- A pointer waits for its delivery or for its acknowledgement, at one place, and leads to a known
-- object; one that waits for its acknowledgement stands under its identifier.
abbrev pub Live : List Message → Map Text Pointer → List Pointer → Map Text Pointer → Type 0
Live heap d msgs wait =
    UniquePointers msgs
    × All (λ p. (msg : Message) × Known heap d p msg) msgs
    × ((id : Text) (p : Pointer)
        → find text_discrete id wait ≡ some p
        → All (λ s. s ≢ p) msgs × (msg : Message) × Known heap d p msg × (msg_id msg ≡ id))

module _ (c : Codec) where
  abbrev pub Sound : Files → QueueMessage → List Payload → Type 0
  Sound fs q ps =
      (q.mapper.data_file ≢ q.mapper.tmp_file)
      × Stored c fs q.mapper ps q.heap q.durable_msgs q.valid_count
      × Live q.heap q.durable_msgs q.msgs q.wait_ack_msgs
