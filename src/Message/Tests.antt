-- ===== src/Message/Tests.antt =====
-- The message store at a concrete data file of three messages, the second of which was removed.
use hare_mq.Base.{
  ap, get_or, ◌+◌, ◌%◌, ◌^◌, ◌<◌, ◌≡◌, ◌≢◌, refl, true, List, [], ◌∷◌, ◌++◌, map, none, some, Text,
  codes, text_discrete, ℕ_discrete, arith, length, find,
}
use hare_mq.Proto.{durable, Payload, Message}
use hare_mq.Split.{All}
use hare_mq.Files.{Files}
use hare_mq.Message.SampleCodec.{sample_codec, sample_codec-IsCodec, field, mode_code, serialize}
use hare_mq.Message.Mapper.{Paths, with_valid, remove, load, gc, size_width, bytes_of}
use hare_mq.Message.Mapper.Records.{encode_all, Holds, Fits}
use hare_mq.Message.Mapper.Load.{loaded, valid_only, load-Holds}
use hare_mq.Message.Mapper.Collect.{Located}
use hare_mq.Message.Mapper.Gc.{gc-Holds}
use hare_mq.Message.Queue.{QueueMessage, size_mod, recovery, insert_msg}
use hare_mq.Message.Queue.Sound.{Sound, UniqueIds}
use hare_mq.Message.Queue.Sound.Recover.{recovery-Sound}
use hare_mq.Message.Queue.Recovery.{waiting, recovery-Holds}
use hare_mq.Message.Queue.Durability.{recovery-insert_msg, recovery-remove}

abbrev payload : Text → Text → Payload
payload body valid = record {
  properties = record { id = body; delivery_mode = durable; routing_key = codes "k" };
  body = body;
  valid = valid;
}

abbrev first : Payload
first = payload (codes "a") (codes "1")

abbrev second : Payload
second = payload (codes "b") (codes "0")

abbrev third : Payload
third = payload (codes "c") (codes "1")

abbrev paths : Paths
paths = record { data_file = codes "d"; tmp_file = codes "d.t" }

abbrev records : List Payload
records = first ∷ second ∷ third ∷ []

abbrev files : Files
files = (codes "d", encode_all sample_codec records) ∷ []

abbrev queue : QueueMessage
queue = record {
  valid_count = 0;
  total_count = 0;
  mapper = paths;
  heap = [];
  msgs = [];
  durable_msgs = [];
  wait_ack_msgs = [];
}

files-Holds : Holds sample_codec files (codes "d") records
unfolding find text_discrete ℕ_discrete
files-Holds = refl

records-Fits : All (Fits sample_codec) records
unfolding serialize field mode_code
records-Fits = (omega arith, (omega arith, (omega arith, tt)))

apart : paths.data_file ≢ paths.tmp_file
apart e = cc

load-Holds_example : load sample_codec files paths ≡ (map loaded (valid_only records), true)
load-Holds_example =
    load-Holds sample_codec sample_codec-IsCodec files paths records files-Holds records-Fits

gc-Holds_example :
    let r = gc sample_codec files paths in
    Holds sample_codec r.0 paths.data_file (valid_only records)
    × (find text_discrete paths.tmp_file r.0 ≡ none)
    × (map (λ m. m.payload) r.1 ≡ valid_only records)
    × Located sample_codec sample_codec-IsCodec [] r.1
gc-Holds_example =
    gc-Holds sample_codec sample_codec-IsCodec files paths records apart files-Holds records-Fits

recovery-Holds_example :
    let (fs', q') = recovery sample_codec files queue in
    (waiting q'.heap q'.msgs ≡ map some (valid_only records))
    × (q'.valid_count ≡ length (valid_only records) % size_mod)
    × (q'.total_count ≡ length (valid_only records) % size_mod)
    × Holds sample_codec fs' paths.data_file (valid_only records)
recovery-Holds_example =
    recovery-Holds sample_codec sample_codec-IsCodec files queue records apart files-Holds
      records-Fits

abbrev fourth : Message
fourth = loaded (payload (codes "e") [])

fourth-Fits : Fits sample_codec (with_valid fourth.payload (codes "1"))
unfolding serialize field mode_code
fourth-Fits = omega arith

recovery-insert_msg_example :
    let (fs', q', done) = insert_msg sample_codec files queue fourth in
    let (fs'', q'') = recovery sample_codec fs' queue in
    (done ≡ true)
    × (waiting q''.heap q''.msgs
        ≡ map some (valid_only records ++ with_valid fourth.payload (codes "1") ∷ []))
recovery-insert_msg_example =
    recovery-insert_msg sample_codec sample_codec-IsCodec files queue queue records fourth refl refl
      apart files-Holds records-Fits fourth-Fits

-- The third message, whose record stands behind two others.
abbrev placed : Message
placed = record {
  payload = third;
  offset = length (encode_all sample_codec (first ∷ second ∷ [])) + size_width;
  length = length (sample_codec.serialize third);
}

recovery-remove_example :
    let (fs', msg', done) = remove sample_codec files queue.mapper placed in
    let (fs'', q'') = recovery sample_codec fs' queue in
    (done ≡ true)
    × (waiting q''.heap q''.msgs ≡ map some (valid_only (first ∷ second ∷ []) ++ valid_only []))
recovery-remove_example =
    recovery-remove sample_codec sample_codec-IsCodec files queue (first ∷ second ∷ []) [] placed
      b'1' apart files-Holds records-Fits refl refl refl

records_bound : length (encode_all sample_codec records) < 2 ^ 32
unfolding serialize field mode_code bytes_of
records_bound = omega arith

differ : codes "c" ≢ codes "a"
differ e = omega (arith, ap (λ (t : Text). get_or t 0 0) e)

records-UniqueIds : UniqueIds (valid_only records)
unfolding text_discrete ℕ_discrete
records-UniqueIds = ((differ, tt), (tt, tt))

records_marked : All (λ r. r.valid ≡ codes "1") (valid_only records)
unfolding text_discrete ℕ_discrete
records_marked = (refl, (refl, tt))

recovery-Sound_example :
    let (fs', q') = recovery sample_codec files queue in
    Sound sample_codec fs' q' (valid_only records)
recovery-Sound_example =
    recovery-Sound sample_codec sample_codec-IsCodec files queue records apart refl refl files-Holds
      records_bound records-UniqueIds records_marked
