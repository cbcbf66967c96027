-- ===== src/Message/Agreement/Calls.antt =====
-- message.hpp: each call of `message_manager` keeps the queues and their data files in agreement.
use mathlib.Core.Option.{some-injective}
use hare_mq.Base.{
  ℕ, ◌^◌, ◌<◌, ◌≡◌, ◌≢◌, inl, inr, refl, sym, ap, ◌∙◌, List, [], ◌∷◌, ◌++◌, none, some, Text, Bool,
  true, false, Option, codes, text_discrete, arith, find, assign, length, subst, find-assign, ◌+◌,
  Bool-cases, length-append,
}
use hare_mq.Proto.{BasicProperties, Payload, Message}
use hare_mq.Split.{All}
use hare_mq.Files
use hare_mq.Files.{Files}
use hare_mq.Files.Laws.{size-find}
use hare_mq.Message
use hare_mq.Message.{Manager}
use hare_mq.Message.Agreement.{At, Agrees, Agrees-At}
use hare_mq.Message.Mapper.{Codec, IsCodec, with_valid, paths}
use hare_mq.Message.Mapper.Load.{valid_only}
use hare_mq.Message.Mapper.Records.{encode, encode_all, encode_all-append}
use hare_mq.Message.Mapper.Untouched.{Untouched}
use hare_mq.Message.Queue
use hare_mq.Message.Queue.{QueueMessage, is_durable, msg_id, new_message}
use hare_mq.Message.Queue.Untouched.{front-mapper, insert_body-Leaves, remove-Leaves}
use hare_mq.Message.Queue.Sound.{id_of, Listed, Sound}
use hare_mq.Message.Queue.Sound.Records.{All-map}
use hare_mq.Message.Queue.Sound.Insert.{insert_msg-Sound, insert_msg-Sound_undurable}
use hare_mq.Message.Queue.Sound.Front.{front-Sound}
use hare_mq.Message.Queue.Sound.Remove.{remove-Sound}

found_self :
    (m : Manager) (qname : Text) (q : QueueMessage)
    → find text_discrete qname (assign text_discrete qname q m.queue_msgs) ≡ some q
found_self m qname q = ground (arith, find-assign text_discrete qname qname q m.queue_msgs)

found_other :
    (m : Manager) (qname : Text) (q : QueueMessage) (other : Text)
    → other ≢ qname
    → find text_discrete other (assign text_discrete qname q m.queue_msgs)
      ≡ find text_discrete other m.queue_msgs
found_other m qname q other differ =
    ground (arith, find-assign text_discrete qname other q m.queue_msgs)

module _ (c : Codec) where
  -- There is room for a durable message, and its identifier is not in use.
  abbrev pub Fresh : Files → QueueMessage → Message → Type 0
  Fresh fs q msg =
      is_durable msg.payload.properties.delivery_mode ≡ true
      → (find text_discrete (msg_id msg) q.durable_msgs ≡ none)
        × (Files.size fs q.mapper.data_file + length (encode c (with_valid msg.payload (codes "1")))
            < 2 ^ 32)

  -- A queue that was changed replaces the old one.
  put-Agrees :
      (fs fs' : Files) (m : Manager) (qname : Text) (q q' : QueueMessage) (ps : List Payload)
      → Agrees c fs m
      → q.mapper ≡ paths m.base_dir qname
      → (q'.mapper ≡ q.mapper) × Untouched q.mapper fs fs'
      → Sound c fs' q' ps
      → Agrees c fs' (Message.put m qname q')
  unfolding Message.put assign
  put-Agrees fs fs' m qname q q' ps a mapper (same, u) s =
      Agrees-At c fs fs' m (assign text_discrete qname q' m.queue_msgs) qname ps a
        (found_other m qname q') (subst (λ p. Untouched p fs fs') mapper u)
        (inr (q', (found_self m qname q', same ∙ mapper, s)))

  pub front-Agrees :
      (fs : Files) (m : Manager) (qname : Text)
      → Agrees c fs m
      → Agrees c fs (Message.front m qname).0
  unfolding Message.front
  front-Agrees fs m qname a = go (a qname)
    where
      go : (ps : List Payload) × At c fs m qname ps → Agrees c fs (Message.front m qname).0
      go (ps, inl (absent, _)) = rw (absent, Message.front) a
      go (ps, inr (q, (there, mapper, s))) =
          rw (there, Message.front)
            (put-Agrees fs fs m qname q (Queue.front q).0 ps a mapper
              (front-mapper q, λ other n n'. refl) (front-Sound c fs q ps s))

module _ (c : Codec) (law : IsCodec c) where
  fresh_records :
      (id : Text) (d : List (Text × ℕ)) (ps : List Payload)
      → find text_discrete id d ≡ none
      → All (Listed d) ps
      → All (λ s. id_of s ≢ id) ps
  fresh_records id d ps absent listed =
      All-map ps
        (λ r (_, p, known) same.
          absurd (cc (ap (λ (i : Text). find text_discrete i d) same, known, absent)))
        listed

  insert_body-Sound :
      (fs : Files) (q : QueueMessage) (ps : List Payload) (bp : Option BasicProperties)
      (body : Text) (d : Bool) (uuid : Text)
      → Sound c fs q ps
      → Fresh c fs q (new_message bp body d uuid)
      → (ps' : List Payload) × let (fs', q', done) = Queue.insert_body c fs q bp body d uuid in
          (done ≡ true) × Sound c fs' q' ps'
  unfolding Queue.insert_body
  insert_body-Sound fs q ps bp body d uuid s fresh =
      let msg = new_message bp body d uuid in
      let marked = with_valid msg.payload (codes "1") in
      elim (Bool-cases (is_durable msg.payload.properties.delivery_mode)) [
        | inr e ↦ (ps, insert_msg-Sound_undurable c fs q ps msg e s)
        | inl e ↦
            let (absent, room) = fresh e in
            (
              ps ++ marked ∷ [],
              insert_msg-Sound c law fs q ps msg e s
                  (fresh_records (msg_id msg) q.durable_msgs (valid_only ps) absent s.1.2.2)
                  (omega (
                    arith,
                    room,
                    size-find fs q.mapper.data_file (encode_all c ps) s.1.0,
                    ap length (encode_all-append c ps (marked ∷ [])),
                    length-append (encode_all c ps) (encode_all c (marked ∷ [])),
                    length-append (encode c marked) [],
                  )),
            )
      ]

  -- For a codec with the documented laws: if every queue agrees with its data file, inserting a
  -- message that is fresh into a queue that is there succeeds, and the agreement stays.
  pub insert_body-Agrees :
      (fs : Files) (m : Manager) (qname : Text) (q : QueueMessage) (bp : Option BasicProperties)
      (body : Text) (d : Bool) (uuid : Text)
      → Agrees c fs m
      → find text_discrete qname m.queue_msgs ≡ some q
      → Fresh c fs q (new_message bp body d uuid)
      → let (fs', m', done) = Message.insert_body c fs m qname bp body d uuid in
        (done ≡ true) × Agrees c fs' m'
  unfolding Message.insert_body
  insert_body-Agrees fs m qname q bp body d uuid a there fresh = go (a qname)
    where
      go :
          (ps : List Payload) × At c fs m qname ps
          → let (fs', m', done) = Message.insert_body c fs m qname bp body d uuid in
            (done ≡ true) × Agrees c fs' m'
      go (ps, inl (absent, _)) = absurd (cc)
      go (ps, inr (q₀, (there₀, mapper, s))) =
          let same : q₀ ≡ q = some-injective _ _ (sym there₀ ∙ there) in
          let (ps', (done, s')) =
            insert_body-Sound fs q₀ ps bp body d uuid s
              (subst (λ r. Fresh c fs r (new_message bp body d uuid)) (sym same) fresh) in
          let (fs', q', _) = Queue.insert_body c fs q₀ bp body d uuid in
          rw (there₀, Message.insert_body)
            (
              done,
              put-Agrees c fs fs' m qname q₀ q' ps' a mapper
                  (insert_body-Leaves c law fs q₀ bp body d uuid) s',
            )

  -- A message for a queue without a store is refused.
  pub insert_body-refused :
      (fs : Files) (m : Manager) (qname : Text) (bp : Option BasicProperties) (body : Text)
      (d : Bool) (uuid : Text)
      → find text_discrete qname m.queue_msgs ≡ none
      → Message.insert_body c fs m qname bp body d uuid ≡ (fs, m, false)
  unfolding Message.insert_body
  insert_body-refused fs m qname bp body d uuid absent = rw (absent, Message.insert_body) refl

  -- For a codec with the documented laws: if every queue agrees with its data file, an
  -- acknowledgement never fails, and the agreement stays.
  pub ack-Agrees :
      (fs : Files) (m : Manager) (qname id : Text)
      → Agrees c fs m
      → (fs' : Files) × (m' : Manager) × (Message.ack c fs m qname id ≡ some (fs', m'))
        × Agrees c fs' m'
  unfolding Message.ack
  ack-Agrees fs m qname id a = go (a qname)
    where
      go :
          (ps : List Payload) × At c fs m qname ps
          → (fs' : Files) × (m' : Manager) × (Message.ack c fs m qname id ≡ some (fs', m'))
            × Agrees c fs' m'
      go (ps, inl (absent, _)) = (fs, m, rw (absent, Message.ack) refl, a)
      go (ps, inr (q, (there, mapper, s))) =
          let (fs', q', ps', e, s', _, _, _) = remove-Sound c law fs q ps id s in
          (
            fs',
            Message.put m qname q',
            rw (there, Message.ack) (rw (e, Message.ack) refl),
            put-Agrees c fs fs' m qname q q' ps' a mapper (remove-Leaves c law fs fs' q q' id e) s',
          )
