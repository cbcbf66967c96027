-- ===== src/Message/Queue/Sound/Start.antt =====
-- message.hpp: a queue from its constructor on.
use hare_mq.Base.{
  ◌^◌, ◌<◌, ◌≡◌, ◌≢◌, refl, ap, List, [], ◌++◌, none, some, Text, codes, text_discrete, arith,
  length, length-append, find, false,
}
use hare_mq.Proto.{Payload}
use hare_mq.Files
use hare_mq.Files.{Files}
use hare_mq.Files.Laws.{create-find}
use hare_mq.Message.Mapper
use hare_mq.Message.Mapper.{Codec, IsCodec, Paths, with_slash, paths}
use hare_mq.Message.Mapper.Records.{encode_all}
use hare_mq.Message.Queue.{QueueMessage, new}
use hare_mq.Message.Queue.Sound.{UniqueIds, Sound}
use hare_mq.Message.Queue.Sound.Run.{Call, records, run, run-Sound}

-- The two files of a queue have different names.
pub paths-distinct :
    (base_dir qname : Text) → (paths base_dir qname).data_file ≢ (paths base_dir qname).tmp_file
unfolding paths
paths-distinct base_dir qname same =
    let dir = with_slash base_dir in
    omega (
      arith,
      ap length same,
      length-append dir (qname ++ codes ".mqd"),
      length-append dir (qname ++ codes ".mqd.tmp"),
      length-append qname (codes ".mqd"),
      length-append qname (codes ".mqd.tmp"),
    )

created :
    (fs : Files) (p : Paths)
    → find text_discrete p.data_file fs ≡ none
    → find text_discrete p.data_file (Mapper.create_msg_file fs p) ≡ some []
unfolding Mapper.create_msg_file
created fs p absent =
    let missing : Files.exists fs p.data_file ≡ false =
      unfold Files.exists in rw (absent, Files.exists) refl in
    rw (missing, Mapper.create_msg_file) (create-find fs p.data_file).0

module _ (c : Codec) where
  pub new-Sound :
      (fs : Files) (base_dir qname : Text)
      → find text_discrete (paths base_dir qname).data_file fs ≡ none
      → let (fs', q) = new fs base_dir qname in Sound c fs' q []
  unfolding new find
  new-Sound fs base_dir qname absent = (
    paths-distinct base_dir qname,
    (
      created fs (paths base_dir qname) absent,
      refl,
      (omega arith, tt, tt, (λ id p e. absurd (cc))),
    ),
    (tt, tt, (λ id p e. absurd (cc))),
  )

module _ (c : Codec) (law : IsCodec c) where
  -- For a codec with the documented laws: if a queue is made where its data file does not exist
  -- yet, the identifiers of the durable messages that are to be inserted are all different and
  -- their records take fewer than 2 ^ 32 bytes, then no sequence of calls of `insert`, `front` and
  -- `remove` runs into the assertion of a collection, and at its end the containers of the queue
  -- agree with its data file.
  pub run-new :
      (fs : Files) (base_dir qname : Text) (calls : List Call)
      → find text_discrete (paths base_dir qname).data_file fs ≡ none
      → UniqueIds (records calls)
      → length (encode_all c (records calls)) < 2 ^ 32
      → let (fs', q) = new fs base_dir qname in
        (fs'' : Files) × (q' : QueueMessage) × (ps : List Payload) × (run c calls fs' q
          ≡ some (fs'', q'))
        × Sound c fs'' q' ps
  run-new fs base_dir qname calls absent unique bound =
      run-Sound c law calls (new fs base_dir qname).0 (new fs base_dir qname).1 []
        (new-Sound c fs base_dir qname absent) unique bound
