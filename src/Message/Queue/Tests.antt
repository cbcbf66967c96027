-- ===== src/Message/Queue/Tests.antt =====
-- A queue in an empty directory that takes two messages, delivers one and forgets it.
use hare_mq.Base.{
  get_elem?, ap, get_or, ◌≡◌, ◌≢◌, refl, ◌+◌, ◌^◌, ◌<◌, ◌≤◌, ◌⊎◌, true, List, [], ◌∷◌, none, some,
  Text, codes, text_discrete, ℕ_discrete, find, length, arith,
}
use hare_mq.Proto.{durable, BasicProperties, Payload, Message}
use hare_mq.Files
use hare_mq.Files.{Files}
use hare_mq.Message.SampleCodec.{sample_codec, sample_codec-IsCodec, field, mode_code, serialize}
use hare_mq.Message.Mapper.{paths, bytes_of}
use hare_mq.Message.Mapper.Load.{valid_only}
use hare_mq.Message.Mapper.Records.{encode_all}
use hare_mq.Message.Queue.{Pointer, msg_id, QueueMessage, new, remove}
use hare_mq.Message.Queue.Sound.{Sound, UniqueIds}
use hare_mq.Message.Queue.Sound.Run.{Call, inserted, fronted, records, run, run-Sound}
use hare_mq.Message.Queue.Sound.Start.{new-Sound, run-new}
use hare_mq.Message.Queue.Sound.Remove.{remove-Sound}
use hare_mq.Message.Queue.Sound.Places.{run-inside}
use hare_mq.Message.Queue.Sound.Mark.{Without}

abbrev kept : BasicProperties
kept = record { id = codes "a"; delivery_mode = durable; routing_key = codes "k" }

-- Both messages are durable, and the first is delivered.
abbrev calls : List Call
calls =
    inserted (some kept) (codes "x") true (codes "u")
    ∷ inserted none (codes "y") true (codes "b")
    ∷ fronted
    ∷ []

differ : codes "b" ≢ codes "a"
differ e = omega (arith, ap (λ (t : Text). get_or t 0 0) e)

calls-UniqueIds : UniqueIds (records calls)
unfolding records text_discrete ℕ_discrete
calls-UniqueIds = ((differ, tt), (tt, tt))

calls_bound : length (encode_all sample_codec (records calls)) < 2 ^ 32
unfolding records serialize field mode_code bytes_of
calls_bound = omega arith

abbrev no_files : Files
no_files = []

none_there : find text_discrete (paths (codes "dir") (codes "q")).data_file no_files ≡ none
unfolding find
none_there = refl

abbrev made : Files × QueueMessage
unfolding new
made = new no_files (codes "dir") (codes "q")

made-Sound : Sound sample_codec made.0 made.1 []
unfolding made
made-Sound = new-Sound sample_codec no_files (codes "dir") (codes "q") none_there

run-Sound_example :
    (fs : Files) × (q : QueueMessage) × (ps : List Payload) × (run sample_codec calls made.0 made.1
      ≡ some (fs, q))
    × Sound sample_codec fs q ps
run-Sound_example =
    run-Sound sample_codec sample_codec-IsCodec calls made.0 made.1 [] made-Sound calls-UniqueIds
      calls_bound

-- Where the calls lead to: the first message waits for its acknowledgement.
reached :
    (fs : Files) × (q : QueueMessage) × (ps : List Payload) × (run sample_codec calls made.0 made.1
      ≡ some (fs, q))
    × Sound sample_codec fs q ps
unfolding made
reached =
    run-new sample_codec sample_codec-IsCodec no_files (codes "dir") (codes "q") calls none_there
      calls-UniqueIds calls_bound

remove-Sound_example :
    (fs' : Files) × (q' : QueueMessage) × (ps' : List Payload) × (remove sample_codec reached.0
        reached.1
        (codes "a")
      ≡ some (fs', q'))
    × Sound sample_codec fs' q' ps'
    × (find text_discrete (codes "a") q'.wait_ack_msgs ≡ none)
    × ((valid_only ps' ≡ valid_only reached.2)
        ⊎ Without sample_codec sample_codec-IsCodec (codes "a") reached.2 ps')
    × (length (encode_all sample_codec ps') ≤ length (encode_all sample_codec reached.2))
remove-Sound_example =
    remove-Sound sample_codec sample_codec-IsCodec reached.0 reached.1 reached.2 (codes "a")
      reached.4

run-inside_example :
    (fs : Files) × (q : QueueMessage) × (run sample_codec calls made.0 made.1 ≡ some (fs, q))
    × ((id : Text) (p : Pointer)
        → find text_discrete id q.durable_msgs ≡ some p
        → (msg : Message) × (get_elem? q.heap p ≡ some msg)
          × (msg_id msg ≡ id)
          × (msg.offset + msg.length ≤ Files.size fs q.mapper.data_file)
          × (Files.size fs q.mapper.data_file < 2 ^ 32))
unfolding made
run-inside_example =
    run-inside sample_codec sample_codec-IsCodec no_files (codes "dir") (codes "q") calls none_there
      calls-UniqueIds calls_bound
