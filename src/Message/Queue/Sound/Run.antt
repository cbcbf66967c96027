-- ===== src/Message/Queue/Sound/Run.antt =====
-- message.hpp: any sequence of `insert`, `front` and `remove` on one queue.
use hare_mq.Base.{
  ◌^◌, ◌<◌, ◌≤◌, ◌≡◌, ◌≢◌, ◌⊎◌, refl, sym, ap, List, [], ◌∷◌, ◌++◌, none, some, Text, codes, arith,
  length, length-append, inl, inr, subst, Bool-cases,
}
use hare_mq.Proto.{Payload, Message}
use hare_mq.Split.{All}
use hare_mq.Files.{Files}
use hare_mq.Message.Mapper.{Codec, IsCodec, with_valid}
use hare_mq.Message.Mapper.Records.{encode_all, encode_all-append}
use hare_mq.Message.Mapper.Load.{valid_only}
use hare_mq.Message.Queue.{QueueMessage, is_durable, remove}
use hare_mq.Message.Queue.Sound.{id_of, UniqueIds, Sound}
use hare_mq.Message.Queue.Sound.Records.{UniqueIds-middle}
use hare_mq.Message.Queue.{front}
use mathlib.Core.List.{append_assoc}
use hare_mq.Base.{Option, Bool, if◌then◌else◌}
use hare_mq.Proto.{BasicProperties}
use hare_mq.Message.Queue.{insert_body, new_message}
use hare_mq.Message.Queue.Durability.{All-before}
use hare_mq.Message.Queue.Sound.Insert.{insert_msg-Sound, insert_msg-Sound_undurable}
use hare_mq.Message.Queue.Sound.Index.{valid_only-snoc}
use hare_mq.Message.Queue.Sound.Front.{front-Sound}
use hare_mq.Message.Queue.Sound.Mark.{Without}
use hare_mq.Message.Queue.Sound.Remove.{remove-Sound}

-- A call of a method of the queue, with its arguments.
pub data Call : Type 0 where
  inserted : (bp : Option BasicProperties) (body : Text) (queue_durable : Bool) (uuid : Text) → Call
  fronted : Call
  removed : (id : Text) → Call

-- The records that the calls write.
unfoldable pub records : List Call → List Payload
unfolding new_message
records [] = []
records (inserted bp body queue_durable uuid ∷ calls) =
    let payload = (new_message bp body queue_durable uuid).payload in
    let rest = records calls in
    if is_durable payload.properties.delivery_mode
    then with_valid payload (codes "1") ∷ rest
    else rest
records (fronted ∷ calls) = records calls
records (removed id ∷ calls) = records calls

module _ (c : Codec) where
  -- The calls, one after the other; `none` if an assertion fails.
  unfoldable pub run : List Call → Files → QueueMessage → Option (Files × QueueMessage)
  unfolding insert_body front remove
  run [] fs q = some (fs, q)
  run (inserted bp body queue_durable uuid ∷ calls) fs q =
      let (fs', q', done) = insert_body c fs q bp body queue_durable uuid in run calls fs' q'
  run (fronted ∷ calls) fs q = run calls fs (front q).0
  run (removed id ∷ calls) fs q = elim (remove c fs q id) [
    | none ↦ none
    | some (fs', q') ↦ run calls fs' q'
  ]

module _ (c : Codec) (law : IsCodec c) where
  UniqueIds-Without :
      (id : Text) (ps ps' : List Payload) (rest : List Payload)
      → (valid_only ps' ≡ valid_only ps) ⊎ Without c law id ps ps'
      → UniqueIds (valid_only ps ++ rest)
      → UniqueIds (valid_only ps' ++ rest)
  UniqueIds-Without id ps ps' rest (inl same) u = subst (λ rs. UniqueIds (rs ++ rest)) (sym same) u
  UniqueIds-Without id ps ps' rest (inr (xs, r, ys, _, was, is)) u =
      subst (λ rs. UniqueIds (rs ++ rest)) (sym is)
        (subst UniqueIds (sym (append_assoc xs ys rest))
          (UniqueIds-middle xs (ys ++ rest) r (
            subst UniqueIds (append_assoc xs (r ∷ ys) rest)
              (subst (λ rs. UniqueIds (rs ++ rest)) was u))).0)

  -- The hypotheses of a run, for the calls that are left.
  abbrev pub Room : List Payload → List Payload → Type 0
  Room ps rs = UniqueIds (valid_only ps ++ rs) × (length (encode_all c (ps ++ rs)) < 2 ^ 32)

  Room-insert :
      (ps rs : List Payload) (r : Payload)
      → r.valid ≡ codes "1"
      → Room ps (r ∷ rs)
      → Room (ps ++ r ∷ []) rs
        × All (λ s. id_of s ≢ id_of r) (valid_only ps)
        × (length (encode_all c (ps ++ r ∷ [])) < 2 ^ 32)
  Room-insert ps rs r valid (unique, bound) =
      let whole : (ps ++ r ∷ []) ++ rs ≡ ps ++ r ∷ rs = append_assoc ps (r ∷ []) rs in
      (
        (
          rw (valid_only-snoc ps r valid)
              (subst UniqueIds (sym (append_assoc (valid_only ps) (r ∷ []) rs)) unique),
          subst (λ qs. length (encode_all c qs) < 2 ^ 32) (sym whole) bound,
        ),
        (All-before (λ s. id_of s ≢ id_of r) (valid_only ps) rs
            (UniqueIds-middle (valid_only ps) rs r unique).1).0,
        omega (
          arith,
          bound,
          ap (λ qs. length (encode_all c qs)) whole,
          ap length (encode_all-append c (ps ++ r ∷ []) rs),
          length-append (encode_all c (ps ++ r ∷ [])) (encode_all c rs),
        ),
      )

  Room-remove :
      (id : Text) (ps ps' rs : List Payload)
      → (valid_only ps' ≡ valid_only ps) ⊎ Without c law id ps ps'
      → length (encode_all c ps') ≤ length (encode_all c ps)
      → Room ps rs
      → Room ps' rs
  Room-remove id ps ps' rs what less (unique, bound) = (
    UniqueIds-Without id ps ps' rs what unique,
    omega (
      arith,
      bound,
      less,
      ap length (encode_all-append c ps rs),
      ap length (encode_all-append c ps' rs),
      length-append (encode_all c ps) (encode_all c rs),
      length-append (encode_all c ps') (encode_all c rs),
    ),
  )

  -- For a codec with the documented laws: if the containers of a queue and its data file agree, the
  -- identifiers of its valid records and of the durable messages that are to be inserted are all
  -- different, and all these records take fewer than 2 ^ 32 bytes, then no sequence of calls of
  -- `insert`, `front` and `remove` runs into the assertion of a collection, and containers and file
  -- agree at its end.
  pub run-Sound :
      (calls : List Call) (fs : Files) (q : QueueMessage) (ps : List Payload)
      → Sound c fs q ps
      → UniqueIds (valid_only ps ++ records calls)
      → length (encode_all c (ps ++ records calls)) < 2 ^ 32
      → (fs' : Files) × (q' : QueueMessage) × (ps' : List Payload) × (run c calls fs q
          ≡ some (fs', q'))
        × Sound c fs' q' ps'
  unfolding run insert_body new_message records
  run-Sound [] fs q ps s unique bound = (fs, q, ps, refl, s)
  run-Sound (fronted ∷ calls) fs q ps s unique bound =
      run-Sound calls fs (front q).0 ps (front-Sound c fs q ps s) unique bound
  run-Sound (removed id ∷ calls) fs q ps s unique bound =
      let (fs₁, q₁, ps₁, e, s₁, _, what, less) = remove-Sound c law fs q ps id s in
      let (unique₁, bound₁) = Room-remove id ps ps₁ (records calls) what less (unique, bound) in
      let (fs', q', ps', e', s') = run-Sound calls fs₁ q₁ ps₁ s₁ unique₁ bound₁ in
      (fs', q', ps', rw (e, run) e', s')
  run-Sound (inserted bp body queue_durable uuid ∷ calls) fs q ps s unique bound =
      let msg : Message = new_message bp body queue_durable uuid in
      elim (Bool-cases (is_durable msg.payload.properties.delivery_mode)) [
        | inl d ↦
            let marked : Payload = with_valid msg.payload (codes "1") in
            let grown : records (inserted bp body queue_durable uuid ∷ calls)
                ≡ marked ∷ records calls =
              rw (d, records) refl in
            let ((unique₁, bound₁), fresh, small) =
              Room-insert ps (records calls) marked refl (subst (Room ps) grown (unique, bound)) in
            let (fs₁, q₁, done) = insert_body c fs q bp body queue_durable uuid in
            let (_, s₁) = insert_msg-Sound c law fs q ps msg d s fresh small in
            run-Sound calls fs₁ q₁ (ps ++ marked ∷ []) s₁ unique₁ bound₁
        | inr d ↦
            let shrunk : records (inserted bp body queue_durable uuid ∷ calls) ≡ records calls =
              rw (d, records) refl in
            let (unique₁, bound₁) = subst (Room ps) shrunk (unique, bound) in
            let (fs₁, q₁, done) = insert_body c fs q bp body queue_durable uuid in
            let (_, s₁) = insert_msg-Sound_undurable c fs q ps msg d s in
            run-Sound calls fs₁ q₁ ps s₁ unique₁ bound₁
      ]
