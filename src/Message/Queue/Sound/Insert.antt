-- ===== src/Message/Queue/Sound/Insert.antt =====
-- message.hpp, `insert`: the new message and its record are known afterwards.
use hare_mq.Base.{
  ◌^◌, ◌<◌, ◌≡◌, ◌≢◌, refl, true, false, List, [], ◌∷◌, ◌++◌, codes, text_discrete, arith, length,
  length-append, insert,
}
use hare_mq.Proto.{Payload, Message}
use hare_mq.Split.{All}
use hare_mq.Files.{Files}
use hare_mq.Message.Mapper
use hare_mq.Message.Mapper.{Codec, IsCodec, Paths, size_width, with_valid}
use hare_mq.Message.Mapper.Records.{encode_all, insert_at-Holds}
use hare_mq.Message.Mapper.Load.{valid_only}
use hare_mq.Message.Queue.{QueueMessage, is_durable, msg_id, insert_msg, push_back, note_durable}
use hare_mq.Message.Queue.Sound.{id_of, Sound}
use hare_mq.Base.{get_elem?-append_some}
use hare_mq.Message.Queue.Sound.Records.{length-valid_only}
use hare_mq.Message.Queue.Sound.Index.{
  valid_only-snoc, insert-keeps, insert-finds, Live-push, fresh-find, stored, Indexed-insert,
}

module _ (c : Codec) where
  -- For a codec with the documented laws: if the containers of a queue and its data file agree, a
  -- durable message whose identifier no valid record has is accepted, and they agree again, with
  -- its record behind the others, as long as the file stays below 2 ^ 32 bytes.
  pub insert_msg-Sound :
      (law : IsCodec c) (fs : Files) (q : QueueMessage) (ps : List Payload) (msg : Message)
      → is_durable msg.payload.properties.delivery_mode ≡ true
      → Sound c fs q ps
      → All (λ s. id_of s ≢ msg_id msg) (valid_only ps)
      → length (encode_all c (ps ++ with_valid msg.payload (codes "1") ∷ [])) < 2 ^ 32
      → let (fs', q', done) = insert_msg c fs q msg in
        (done ≡ true) × Sound c fs' q' (ps ++ with_valid msg.payload (codes "1") ∷ [])
  unfolding insert_msg Mapper.insert push_back note_durable
  insert_msg-Sound law fs q ps msg d (names, s, live) fresh bound =
      let marked : Message = record msg { payload = with_valid msg.payload (codes "1") } in
      let (done, held, made) = insert_at-Holds c fs q.mapper.data_file ps marked s.0 in
      let absent = fresh-find c ps q.heap q.durable_msgs (msg_id msg) s.2 fresh in
      rw (d, done, made)
        (
          refl,
          (
            names,
            (
              held,
              rw (valid_only-snoc ps marked.payload refl) (
                  omega (
                    arith,
                    s.1,
                    s.2.0,
                    length-append (valid_only ps) (marked.payload ∷ []),
                    length-valid_only c ps,
                  )),
              Indexed-insert c ps q.heap q.durable_msgs marked s.2 refl fresh bound,
            ),
            Live-push q.heap q.durable_msgs
                (insert text_discrete (msg_id msg) (length q.heap) q.durable_msgs) q.msgs
                q.wait_ack_msgs (stored c ps marked)
                (insert-keeps q.durable_msgs (msg_id msg) (length q.heap) absent)
                (λ _. insert-finds q.durable_msgs (msg_id msg) (length q.heap) absent) live,
          ),
        )

  -- A message that is not durable changes neither the file nor what is known of it.
  pub insert_msg-Sound_undurable :
      (fs : Files) (q : QueueMessage) (ps : List Payload) (msg : Message)
      → is_durable msg.payload.properties.delivery_mode ≡ false
      → Sound c fs q ps
      → let (fs', q', done) = insert_msg c fs q msg in (done ≡ true) × Sound c fs' q' ps
  unfolding insert_msg push_back
  insert_msg-Sound_undurable fs q ps msg d (names, s, live) =
      let (held, counted, (small, unique, listed, entries)) = s in
      rw d (
        refl,
        (
          names,
          (
            held,
            counted,
            (
              small,
              unique,
              listed,
              λ id p e.
                  let (m, i, at, named, valid, record_at, offset, len) = entries id p e in
                  (
                    m,
                    i,
                    get_elem?-append_some q.heap (msg ∷ []) p m at,
                    named,
                    valid,
                    record_at,
                    offset,
                    len,
                  ),
            ),
          ),
          Live-push q.heap q.durable_msgs q.durable_msgs q.msgs q.wait_ack_msgs msg (λ _ _ e. e)
              (λ durable. absurd (cc)) live,
        ),
      )
