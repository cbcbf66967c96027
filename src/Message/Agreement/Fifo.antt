-- ===== src/Message/Agreement/Fifo.antt =====
-- message.hpp: what each call of `message_manager` does to the messages that wait in the queues.
use mathlib.Core.Logic.{apply_ite}
use mathlib.Core.Option
use mathlib.Core.Option.{some-injective}
use hare_mq.Base.{
  ◌≡◌, refl, sym, ap, ◌∙◌, Bool, List, [], ◌∷◌, ◌++◌, Option, none, some, Text, text_discrete, ite,
  if_pos, if_neg, find, find-assign, find-erase, find_cases, inl, inr,
}
use hare_mq.Proto.{BasicProperties, Payload}
use hare_mq.Files.{Files}
use hare_mq.Message
use hare_mq.Message.{Manager}
use hare_mq.Message.Agreement.{At, Agrees}
use hare_mq.Message.Mapper.{Codec, IsCodec}
use hare_mq.Message.Queue
use hare_mq.Message.Queue.{QueueMessage, new_message}
use hare_mq.Message.Queue.Fifo.{
  waiting_in, first, behind, as_stored, front-Fifo, insert_body-Fifo, remove-Fifo,
}

unfoldable pub waits_of : Option QueueMessage → List (Option Payload)
waits_of none = []
waits_of (some q) = waiting_in q

-- The messages that wait for delivery in a queue, the next one first.
unfoldable pub waits : Manager → Text → List (Option Payload)
unfolding waits_of find
waits m qname = waits_of (find text_discrete qname m.queue_msgs)

pub waits-find :
    (m : Manager) (qname : Text) (o : Option QueueMessage)
    → find text_discrete qname m.queue_msgs ≡ o
    → waits m qname ≡ waits_of o
unfolding waits
waits-find m qname o e = ap waits_of e

put-waits :
    (m : Manager) (qname : Text) (q' : QueueMessage) (other : Text)
    → waits (Message.put m qname q') other
      ≡ ite (text_discrete qname other) (waiting_in q') (waits m other)
unfolding waits waits_of Message.put
put-waits m qname q' other =
    ap waits_of (find-assign text_discrete qname other q' m.queue_msgs)
    ∙ apply_ite waits_of (text_discrete qname other) _ _

-- A queue that changes to what it was changes nothing.
pub waits_same :
    (m : Manager) (qname other : Text) (rs : List (Option Payload))
    → waits m qname ≡ rs
    → ite (text_discrete qname other) rs (waits m other) ≡ waits m other
waits_same m qname other rs e = elim (text_discrete qname other) [
  | yes same ↦ rw (if_pos _ same) (sym e ∙ ap (waits m) same)
  | no differ ↦ rw (if_neg _ differ) refl
]

-- What is handed out is the first message that waits in the queue.
pub front-waits :
    (m : Manager) (qname : Text)
    → let (m', msg) = Message.front m qname in
      (Option.map (λ r. r.payload) msg ≡ first (waits m qname))
      × ((other : Text)
          → waits m' other
            ≡ ite (text_discrete qname other) (behind (waits m qname)) (waits m other))
unfolding Message.front waits_of
front-waits m qname = elim (find_cases text_discrete qname m.queue_msgs) [
  | inl e ↦
      let nothing = waits-find m qname none e in
      rw (e, Message.front)
        (
          ap first (sym nothing),
          λ other. sym (
              waits_same m qname other (behind (waits m qname))
                (nothing ∙ sym (ap behind nothing))),
        )
  | inr (q, e) ↦
      let (rest, handed) = front-Fifo q in
      let there = waits-find m qname (some q) e in
      rw (e, Message.front)
        (
          handed ∙ ap first (sym there),
          λ other.
              put-waits m qname (Queue.front q).0 other
              ∙ ap (λ rs. ite (text_discrete qname other) rs (waits m other))
                  (rest ∙ ap behind (sym there)),
        )
]

pub destroy_queue_msg-waits :
    (fs : Files) (m : Manager) (qname other : Text)
    → waits (Message.destroy_queue_msg fs m qname).1 other
      ≡ ite (text_discrete qname other) [] (waits m other)
unfolding Message.destroy_queue_msg waits waits_of
destroy_queue_msg-waits fs m qname other = elim (find_cases text_discrete qname m.queue_msgs) [
  | inl e ↦
      rw (e, Message.destroy_queue_msg)
        (sym (unfold waits in waits_same m qname other [] (waits-find m qname none e)))
  | inr (q, e) ↦
      rw (e, Message.destroy_queue_msg)
        (ap waits_of (find-erase text_discrete qname other m.queue_msgs)
          ∙ apply_ite waits_of (text_discrete qname other) _ _)
]

module _ (c : Codec) where
  -- For a queue that is there: a message that is inserted waits behind the others.
  pub insert_body-waits :
      (fs : Files) (m : Manager) (qname : Text) (q : QueueMessage) (bp : Option BasicProperties)
      (body : Text) (d : Bool) (uuid other : Text)
      → Agrees c fs m
      → find text_discrete qname m.queue_msgs ≡ some q
      → waits (Message.insert_body c fs m qname bp body d uuid).1 other
        ≡ ite
            (text_discrete qname other)
            (waits m qname ++ some (as_stored (new_message bp body d uuid)) ∷ [])
            (waits m other)
  unfolding Message.insert_body waits_of
  insert_body-waits fs m qname q bp body d uuid other a there = go (a qname)
    where
      go :
          (ps : List Payload) × At c fs m qname ps
          → waits (Message.insert_body c fs m qname bp body d uuid).1 other
            ≡ ite
                (text_discrete qname other)
                (waits m qname ++ some (as_stored (new_message bp body d uuid)) ∷ [])
                (waits m other)
      go (ps, inl (absent, _)) = absurd (cc)
      go (ps, inr (q₀, (there₀, mapper, s))) =
          let (_, behind_all) = insert_body-Fifo c fs q₀ ps bp body d uuid s in
          rw (there₀, Message.insert_body)
            (put-waits m qname (Queue.insert_body c fs q₀ bp body d uuid).1 other
              ∙ ap (λ rs. ite (text_discrete qname other) rs (waits m other))
                  (behind_all
                    ∙ ap (λ rs. rs ++ some (as_stored (new_message bp body d uuid)) ∷ [])
                        (sym (waits-find m qname (some q₀) there₀))))

module _ (c : Codec) (law : IsCodec c) where
  -- An acknowledgement takes nothing from the messages that wait for delivery.
  pub ack-waits :
      (fs fs' : Files) (m m' : Manager) (qname id other : Text)
      → Agrees c fs m
      → Message.ack c fs m qname id ≡ some (fs', m')
      → waits m' other ≡ waits m other
  unfolding Message.ack waits_of
  ack-waits fs fs' m m' qname id other a e = go (a qname)
    where
      go : (ps : List Payload) × At c fs m qname ps → waits m' other ≡ waits m other
      go (ps, inl (absent, _)) =
          ap (λ (r : Files × Manager). waits r.1 other)
            (sym (some-injective _ _ (rw (absent, Message.ack) at e)))
      go (ps, inr (q, (there, mapper, s))) =
          acked (Queue.remove c fs q id) refl (rw (there, Message.ack) at e)
        where
          acked :
              (o : Option (Files × QueueMessage))
              → Queue.remove c fs q id ≡ o
              → elim o as (λ _. Option (Files × Manager)) [
                | none ↦ none
                | some (gs, q') ↦ some (gs, Message.put m qname q')
              ]
                ≡ some (fs', m')
              → waits m' other ≡ waits m other
          acked none f z = absurd (cc)
          acked (some (gs, q')) f z =
              ap (λ (r : Files × Manager). waits r.1 other) (sym (some-injective _ _ z))
              ∙ put-waits m qname q' other
              ∙ waits_same m qname other (waiting_in q')
                  (waits-find m qname (some q) there ∙ sym (remove-Fifo c law fs gs q q' ps id s f))
