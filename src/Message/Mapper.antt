-- ===== src/Message/Mapper.antt =====
-- HareMQ/mqserver/message.hpp: `message_mapper`, the data file of a queue. A record is the length
-- of the body in eight bytes, the lowest first, and the serialized payload.
-- Protocol Buffers are no part of the repository: `Codec` is a parameter, and `IsCodec` states
-- what their documentation says.
pub mod Records
pub mod Load
pub mod Collect
pub mod Gc
pub mod Termination
pub mod Untouched
use mathlib.Core.Option
use hare_mq.Base.{
  ℕ, zero, suc, ◌+◌, ◌*◌, ◌/◌, ◌%◌, ◌^◌, ◌<◌, ◌≡◌, Bool, true, false, not, List, [], ◌∷◌, ◌++◌,
  Option, none, some, Text, codes, text_discrete, text_eq, ltb, ◌==◌, if◌then◌else◌, length,
}
use hare_mq.Proto.{Payload, Message, BasicProperties, unknown_mode}
use hare_mq.Files
use hare_mq.Files.{Files}

-- `SerializeAsString` and `ParseFromString` of the payload.
pub record Codec : Type 0 where
  pub serialize : Payload → Text
  pub parse : Text → Payload

abbrev pub with_valid : Payload → Text → Payload
with_valid p v = record p { valid = v }

-- Parsing undoes serializing, and the length of the text does not depend on which character the
-- one-character text `valid` holds.
pub record IsCodec (c : Codec) : Type 0 where
  pub parse_serialize : (p : Payload) → c.parse (c.serialize p) ≡ p
  pub valid_length :
      (p : Payload) (a b : ℕ)
      → length (c.serialize (with_valid p (a ∷ []))) ≡ length (c.serialize (with_valid p (b ∷ [])))

-- The eight bytes of a `size_t`, `k` of them, and the number that they hold.
unfoldable pub bytes_of : ℕ → ℕ → Text
bytes_of zero n = []
bytes_of (suc k) n = n % 256 ∷ bytes_of k (n / 256)

unfoldable pub number_of : Text → ℕ
number_of [] = 0
number_of (b ∷ bytes) = b + 256 * number_of bytes

-- `sizeof(size_t)`.
abbrev pub size_width : ℕ
size_width = 8

-- The two paths of a mapper.
pub record Paths : Type 0 where
  pub data_file : Text
  pub tmp_file : Text

-- `dir.back() != '/'`; the directory is not empty.
unfoldable pub with_slash : Text → Text
with_slash [] = b'/' ∷ []
with_slash (c ∷ []) = if c == b'/' then c ∷ [] else c ∷ b'/' ∷ []
with_slash (c ∷ d ∷ dir) = c ∷ with_slash (d ∷ dir)

unfoldable pub paths : Text → Text → Paths
unfolding with_slash
paths base_dir qname = record {
  data_file = with_slash base_dir ++ (qname ++ codes ".mqd");
  tmp_file = with_slash base_dir ++ (qname ++ codes ".mqd.tmp");
}

-- `create_msg_file`, the last step of the constructor, which does not look at its result. For a
-- name of a queue that cannot be the name of a file the code makes none.
unfoldable pub create_msg_file : Files → Paths → Files
unfolding Files.exists Files.create
create_msg_file fs p = if Files.exists fs p.data_file then fs else Files.create fs p.data_file

unfoldable pub remove_msg_file : Files → Paths → Files
unfolding Files.remove
remove_msg_file fs p = (Files.remove (Files.remove fs p.data_file).0 p.tmp_file).0

-- A new `Message`: all fields have their defaults.
abbrev pub empty_properties : BasicProperties
empty_properties = record { id = []; delivery_mode = unknown_mode; routing_key = [] }

module _ (c : Codec) where
  -- `__insert`: the record goes to the end of the file, and the message learns where its body
  -- stands. Both fields of the message are `uint32`.
  unfoldable pub insert_at : Files → Text → Message → Files × Message × Bool
  insert_at fs file_name msg =
      let body = c.serialize msg.payload in
      let fsize = Files.size fs file_name in
      let (fs₁, wrote_size) = Files.write fs file_name fsize (bytes_of size_width (length body)) in
      let (fs₂, wrote_body) = Files.write fs₁ file_name (fsize + size_width) body in
      if not wrote_size then (fs₁, msg, false) else if not wrote_body then (fs₂, msg, false) else (
        fs₂,
        record msg { offset = (fsize + size_width) % 2 ^ 32; length = length body % 2 ^ 32 },
        true,
      )

  unfoldable pub insert : Files → Paths → Message → Files × Message × Bool
  unfolding insert_at
  insert fs p msg = insert_at fs p.data_file msg

  -- `remove`: the record stays, and its payload is written again with `valid` at "0".
  unfoldable pub remove : Files → Paths → Message → Files × Message × Bool
  remove fs p msg =
      let msg' : Message = record msg { payload = with_valid msg.payload (codes "0") } in
      let body = c.serialize msg'.payload in
      if not (length body == msg.length)
      then (fs, msg', false)
      else (let (fs', wrote) = Files.write fs p.data_file msg.offset body in (fs', msg', wrote))

  -- One round of `__load` at an offset below the size: the payload of the record, and the offset
  -- of the next. `none` is `return false`. For a length that no string can have the code throws and
  -- the server ends; what stands here is the code where the length that is read is below that.
  unfoldable pub load_record : Files → Text → ℕ → Option (Payload × ℕ)
  unfolding Files.read
  load_record fs file offset = elim (Files.read fs file offset size_width) [
    | none ↦ none
    | some head ↦
        let msg_size = number_of head in
        elim (Files.read fs file (offset + size_width) msg_size) [
          | none ↦ none
          | some body ↦ some (c.parse body, offset + size_width + msg_size)
        ]
  ]

  -- The loop of `__load`. Each round moves the offset on by eight bytes or more, so the size of the
  -- file is enough fuel. A failed read ends the loop: the list so far stays, with `false`.
  unfoldable pub load_from : ℕ → Files → Text → ℕ → List Message → List Message × Bool
  unfolding load_record
  load_from zero fs file offset lst = (lst, not (ltb offset (Files.size fs file)))
  load_from (suc fuel) fs file offset lst = elim (ltb offset (Files.size fs file)) [
    | false ↦ (lst, true)
    | true ↦ elim (load_record fs file offset) [
      | none ↦ (lst, false)
      | some (payload, next) ↦ load_from fuel fs file next (
          if text_eq payload.valid (codes "0")
          then lst
          else lst ++ (record { payload = payload; offset = 0; length = 0 }) ∷ [])
    ]
  ]

  unfoldable pub load : Files → Paths → List Message × Bool
  unfolding load_from Files.size
  load fs p = load_from (Files.size fs p.data_file) fs p.data_file 0 []

  -- The loop of `gc`: each message is written to the temporary file. `false`: a write failed.
  unfoldable pub insert_each : Files → Text → List Message → Files × List Message × Bool
  insert_each fs file [] = (fs, [], true)
  insert_each fs file (msg ∷ lst) =
      let (fs₁, msg', wrote) = insert_at fs file msg in
      let (fs₂, lst', done) = insert_each fs₁ file lst in
      if wrote then (fs₂, msg' ∷ lst', done) else (fs₁, msg' ∷ lst, false)

  -- `gc`: the valid messages are collected in a new file, which replaces the old one.
  unfoldable pub gc : Files → Paths → Files × List Message
  gc fs p =
      let (lst, loaded) = load fs p in
      let (fs₁, lst', done) = insert_each (Files.create fs p.tmp_file) p.tmp_file lst in
      let (fs₂, removed) = Files.remove fs₁ p.data_file in
      let (fs₃, _) = Files.rename fs₂ p.tmp_file p.data_file in
      if not loaded
      then (fs, lst)
      else if not done
      then (fs₁, lst')
      else if not removed
      then (fs₂, lst')
      else (fs₃, lst')
