-- ===== src/Message/Queue/Sound/Remove.antt =====
-- message.hpp, `remove` of `queue_message`: the assertion of its collection never fails, and the
-- containers and the data file agree afterwards.
use mathlib.Core.Option.{some-injective}
use hare_mq.Base.{
  ◌+◌, ◌-◌, ◌%◌, ◌≤◌, ◌≡◌, ◌≢◌, ◌⊎◌, refl, sym, ap, ◌∙◌, true, List, none, some, Text,
  text_discrete, arith, length, set, find, erase, find_cases, inl, inr, Bool-cases, ◌==◌,
}
use hare_mq.Proto.{Payload, Message}
use hare_mq.Files.{Files}
use hare_mq.Message.Mapper
use hare_mq.Message.Mapper.{Codec, IsCodec, Paths, size_width, with_valid}
use hare_mq.Message.Mapper.Records.{encode_all}
use hare_mq.Message.Mapper.Load.{valid_only}
use hare_mq.Message.Queue.{
  Pointer, QueueMessage, is_durable, relocate, gc, gc_check, size_mod, remove, remove_durable,
}
use hare_mq.Message.Queue.Sound.{Entry, Stored, Live, Sound}
use hare_mq.Message.Queue.Sound.Relocate.{relocate-payload, relocate-rest}
use hare_mq.Message.Queue.Sound.Collect.{Stored-collect, valid_only_twice, valid_only-shorter}
use hare_mq.Message.Queue.Sound.Live.{Keeps, Live-Keeps, Live-erase, Live-forget, erase_self}
use hare_mq.Message.Queue.Sound.Mark.{Without, Stored-marked}

module _ (c : Codec) (law : IsCodec c) where
  -- What a collection leaves as it is.
  abbrev pub Collected : Files → QueueMessage → List Payload → Files → QueueMessage → Type 0
  Collected fs q ps fs' q' =
      (ps' : List Payload) × (valid_only ps' ≡ valid_only ps)
      × (length (encode_all c ps') ≤ length (encode_all c ps))
      × Stored c fs' q.mapper ps' q'.heap q.durable_msgs q'.valid_count
      × Keeps q.heap q'.heap
      × (q'
          ≡ record q { heap = q'.heap; valid_count = q'.valid_count; total_count = q'.total_count })

  pub gc-Collected :
      (fs : Files) (q : QueueMessage) (ps : List Payload)
      → q.mapper.data_file ≢ q.mapper.tmp_file
      → Stored c fs q.mapper ps q.heap q.durable_msgs q.valid_count
      → (fs' : Files) × (q' : QueueMessage) × (gc c fs q ≡ some (fs', q'))
        × Collected fs q ps fs' q'
  unfolding gc
  gc-Collected fs q ps names s = elim (Bool-cases (gc_check c q)) [
    | inr e ↦
        (fs, q, rw (e, gc) refl, (ps, refl, omega arith, s, (λ p old at. (old, at, refl)), refl))
    | inl e ↦
        let (fs', lst) = Mapper.gc c fs q.mapper in
        let (counted, found, s') = Stored-collect c law fs q ps names s in
        let test : (length lst == q.valid_count) ≡ true = ground (arith, counted) in
        let q' : QueueMessage = record (relocate c q lst) {
          valid_count = length lst % size_mod;
          total_count = length lst % size_mod;
        } in
        (
          fs',
          q',
          rw (e, gc) (rw (test, gc) refl),
          (
            valid_only ps,
            valid_only_twice ps,
            valid_only-shorter c law ps,
            s',
            (λ p old at. relocate-payload c q lst p old found at),
            ap
                (λ (r : QueueMessage). record r {
                  valid_count = length lst % size_mod;
                  total_count = length lst % size_mod;
                })
                (relocate-rest c q lst found),
          ),
        )
  ]

  abbrev Removed : Files → QueueMessage → List Payload → Text → Type 0
  Removed fs q ps id =
      (fs' : Files) × (q' : QueueMessage) × (ps' : List Payload) × (remove c fs q id
        ≡ some (fs', q'))
      × Sound c fs' q' ps'
      × (find text_discrete id q'.wait_ack_msgs ≡ none)
      × ((valid_only ps' ≡ valid_only ps) ⊎ Without c law id ps ps')
      × (length (encode_all c ps') ≤ length (encode_all c ps))

  removed :
      (fs : Files) (q : QueueMessage) (ps : List Payload) (id : Text) (p : Pointer)
      → q.mapper.data_file ≢ q.mapper.tmp_file
      → Stored c fs q.mapper ps q.heap q.durable_msgs q.valid_count
      → Live q.heap q.durable_msgs q.msgs q.wait_ack_msgs
      → find text_discrete id q.wait_ack_msgs ≡ some p
      → find text_discrete id q.durable_msgs ≡ some p
      → (entry : Entry c ps q.heap id p)
      → is_durable entry.0.payload.properties.delivery_mode ≡ true
      → Removed fs q ps id
  unfolding remove remove_durable
  removed fs q ps id p names s live waits known entry durable =
      let (msg, i, at, named, valid, record_at, offset, len) = entry in
      let (fs₁, msg', done) = Mapper.remove c fs q.mapper msg in
      let (ps₁, s₁, (xs, r, ys, r_id, was, is), less₁) =
        Stored-marked c law fs q.mapper ps q.heap q.durable_msgs q.valid_count id p s entry in
      let q₁ : QueueMessage = record q {
        heap = set q.heap p msg';
        durable_msgs = erase text_discrete id q.durable_msgs;
        valid_count = (q.valid_count + size_mod - 1) % size_mod;
      } in
      let (fs₂, q₂, collected, (ps₂, same, less₂, s₂, keeps, shape)) =
        gc-Collected fs₁ q₁ ps₁ names s₁ in
      let wait = erase text_discrete id q.wait_ack_msgs in
      let d = erase text_discrete id q.durable_msgs in
      (
        fs₂,
        record q {
          heap = q₂.heap;
          durable_msgs = d;
          valid_count = q₂.valid_count;
          total_count = q₂.total_count;
          wait_ack_msgs = wait;
        },
        ps₂,
        rw (waits, remove)
            (rw (at, remove)
              (rw (durable, remove)
                (rw (collected, remove)
                  (ap
                    (λ (t : QueueMessage).
                      some
                        (fs₂, record t { wait_ack_msgs = erase text_discrete id t.wait_ack_msgs }))
                    shape)))),
        (
          names,
          s₂,
          Live-Keeps (set q.heap p msg') q₂.heap d q.msgs wait keeps (
              Live-erase q.heap q.durable_msgs q.msgs q.wait_ack_msgs id p msg msg' waits at named
                known live),
        ),
        erase_self q.wait_ack_msgs id,
        inr (xs, r, ys, r_id, was, same ∙ is),
        omega (arith, less₁, less₂),
      )

  -- For a codec with the documented laws: if the containers of a queue and its data file agree,
  -- removing a message never fails: the assertion of the collection holds. Containers and file
  -- agree afterwards, no message waits for an acknowledgement under the identifier, and the valid
  -- records are as before, but for one of this identifier at most.
  pub remove-Sound :
      (fs : Files) (q : QueueMessage) (ps : List Payload) (id : Text)
      → Sound c fs q ps
      → (fs' : Files) × (q' : QueueMessage) × (ps' : List Payload) × (remove c fs q id
          ≡ some (fs', q'))
        × Sound c fs' q' ps'
        × (find text_discrete id q'.wait_ack_msgs ≡ none)
        × ((valid_only ps' ≡ valid_only ps) ⊎ Without c law id ps ps')
        × (length (encode_all c ps') ≤ length (encode_all c ps))
  unfolding remove remove_durable
  remove-Sound fs q ps id (names, s, live) = elim (find_cases text_discrete id q.wait_ack_msgs) [
    | inl e ↦ (fs, q, ps, rw (e, remove) refl, (names, s, live), e, inl refl, omega arith)
    | inr (p, waits) ↦
        let (apart, msg, k, named) = live.2 id p waits in
        elim (Bool-cases (is_durable msg.payload.properties.delivery_mode)) [
          | inr e ↦ (
            fs,
            record q { wait_ack_msgs = erase text_discrete id q.wait_ack_msgs },
            ps,
            rw (waits, remove) (rw (k.0, remove) (rw (e, remove) refl)),
            (names, s, Live-forget q.heap q.durable_msgs q.msgs q.wait_ack_msgs id live),
            erase_self q.wait_ack_msgs id,
            inl refl,
            omega arith,
          )
          | inl e ↦
              let known =
                ap (λ (i : Text). find text_discrete i q.durable_msgs) (sym named) ∙ k.1 e in
              let entry = s.2.3 id p known in
              removed fs q ps id p names s live waits known entry (
                ap (λ (m : Message). is_durable m.payload.properties.delivery_mode)
                  (some-injective _ _ (sym entry.2 ∙ k.0))
                ∙ e)
        ]
  ]
