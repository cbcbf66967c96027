-- ===== src/Message/Queue/Sound/Front.antt =====
-- message.hpp, `front`: the message that is delivered waits for its acknowledgement.
use hare_mq.Base.{
  ◌≡◌, ◌≢◌, refl, List, [], ◌∷◌, Text, text_discrete, find_cases, Map, inl, inr, subst,
}
use hare_mq.Proto.{Payload, Message}
use hare_mq.Split.{All}
use hare_mq.Files.{Files}
use hare_mq.Message.Mapper.{Codec}
use hare_mq.Message.Queue.{Pointer, QueueMessage, msg_id}
use hare_mq.Message.Queue.Sound.{Known, Live, Sound}
use hare_mq.Base.{insert, insert_present}
use hare_mq.Message.Queue.{front}
use hare_mq.Message.Queue.Sound.Index.{insert-find_cases}

Live-front :
    (heap : List Message) (d : Map Text Pointer) (p : Pointer) (rest : List Pointer)
    (wait : Map Text Pointer) (msg : Message)
    → Known heap d p msg
    → Live heap d (p ∷ rest) wait
    → Live heap d rest (insert text_discrete (msg_id msg) p wait)
Live-front heap d p rest wait msg k (unique, all, waiting) = (
  unique.1,
  all.1,
  λ id p' e. elim (find_cases text_discrete (msg_id msg) wait) [
    | inr (w, there) ↦
        let (apart, m, k', named) =
          waiting id p' (rw (insert_present text_discrete (msg_id msg) p w wait there) at e) in
        (apart.1, m, k', named)
    | inl absent ↦ elim (insert-find_cases wait (msg_id msg) p id p' absent e) [
      | inl (same_id, same_p) ↦
          subst
            (λ (x : Pointer).
              All (λ s. s ≢ x) rest × (m : Message) × Known heap d x m × (msg_id m ≡ id))
            same_p (unique.0, msg, k, same_id)
      | inr old ↦ let (apart, m, k', named) = waiting id p' old in (apart.1, m, k', named)
    ]
  ],
)

module _ (c : Codec) where
  -- Handing out a message keeps the containers and the data file in agreement.
  pub front-Sound :
      (fs : Files) (q : QueueMessage) (ps : List Payload)
      → Sound c fs q ps
      → Sound c fs (front q).0 ps
  unfolding front
  front-Sound fs q ps (names, s, live) = go q.msgs refl
    where
      go : (msgs : List Pointer) → q.msgs ≡ msgs → Sound c fs (front q).0 ps
      go [] e = rw (e, front) (names, s, live)
      go (p ∷ rest) e =
          let live' : Live q.heap q.durable_msgs (p ∷ rest) q.wait_ack_msgs = rw e at live in
          let (msg, k) = live'.1.0 in
          rw (e, front)
            (rw (k.0, front)
              (names, s, Live-front q.heap q.durable_msgs p rest q.wait_ack_msgs msg k live'))
