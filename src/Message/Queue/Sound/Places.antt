-- ===== src/Message/Queue/Sound/Places.antt =====
-- message.hpp: the places of the messages lie inside the data file.
use hare_mq.Base.{
  ◌+◌, ◌^◌, ◌<◌, ◌≤◌, ◌≡◌, List, none, length, some, Text, text_discrete, arith, find, get_elem?,
}
use hare_mq.Proto.{Payload, Message}
use hare_mq.Files
use hare_mq.Files.{Files}
use hare_mq.Files.Laws.{size-find}
use hare_mq.Message.Mapper.{Codec, IsCodec, paths}
use hare_mq.Message.Mapper.Records.{encode_all}
use hare_mq.Message.Queue
use hare_mq.Message.Queue.{Pointer, QueueMessage, msg_id}
use hare_mq.Message.Queue.Sound.{UniqueIds, Sound}
use hare_mq.Message.Queue.Sound.Run.{Call, records, run}
use hare_mq.Message.Queue.Sound.Start.{run-new}
use hare_mq.Message.Queue.Sound.Records.{offset_of-bound}

module _ (c : Codec) where
  -- If the containers of a queue and its data file agree, each pointer of `durable_msgs` leads to a
  -- message with the identifier under which it stands, whose body lies inside the data file, and
  -- the size of the file fits into the 32 bits of the fields `offset` and `length`.
  Sound-inside :
      (fs : Files) (q : QueueMessage) (ps : List Payload) (id : Text) (p : Pointer)
      → Sound c fs q ps
      → find text_discrete id q.durable_msgs ≡ some p
      → (msg : Message) × (get_elem? q.heap p ≡ some msg)
        × (msg_id msg ≡ id)
        × (msg.offset + msg.length ≤ Files.size fs q.mapper.data_file)
        × (Files.size fs q.mapper.data_file < 2 ^ 32)
  Sound-inside fs q ps id p (names, (held, counted, (small, unique, listed, entries)), live) known =
      let (msg, i, at, named, valid, record_at, offset, len) = entries id p known in
      let size = size-find fs q.mapper.data_file (encode_all c ps) held in
      let inside = offset_of-bound c ps i msg.payload record_at in
      (msg, at, named, omega (arith, size, inside, offset, len), omega (arith, size, small))

module _ (c : Codec) (law : IsCodec c) where
  -- For a codec with the documented laws: if a queue is made where its data file does not exist
  -- yet, the identifiers of the durable messages that are to be inserted are all different and
  -- their records take fewer than 2 ^ 32 bytes, then after any calls of `insert`, `front` and
  -- `remove`, with the collections that they bring about, the fields `offset` and `length` of every
  -- message in `durable_msgs` lie inside the data file, whose size fits into their 32 bits.
  pub run-inside :
      (fs : Files) (base_dir qname : Text) (calls : List Call)
      → find text_discrete (paths base_dir qname).data_file fs ≡ none
      → UniqueIds (records calls)
      → length (encode_all c (records calls)) < 2 ^ 32
      → let (fs', q) = Queue.new fs base_dir qname in
        (fs'' : Files) × (q' : QueueMessage) × (run c calls fs' q ≡ some (fs'', q'))
        × ((id : Text) (p : Pointer)
            → find text_discrete id q'.durable_msgs ≡ some p
            → (msg : Message) × (get_elem? q'.heap p ≡ some msg)
              × (msg_id msg ≡ id)
              × (msg.offset + msg.length ≤ Files.size fs'' q'.mapper.data_file)
              × (Files.size fs'' q'.mapper.data_file < 2 ^ 32))
  run-inside fs base_dir qname calls absent unique bound =
      let (fs'', q', ps, done, s) = run-new c law fs base_dir qname calls absent unique bound in
      (fs'', q', done, λ id p known. Sound-inside c fs'' q' ps id p s known)
