-- ===== src/Message/Agreement/Opened.antt =====
-- message.hpp: stores that are made one after the other do not disturb one another.
use hare_mq.Base.{
  ◌≡◌, ◌≢◌, refl, sym, ap, ◌∙◌, List, map, Option, some, Text, text_discrete, if_pos, find, insert,
  find-insert, find_cases, inl, inr, arith, subst,
}
use hare_mq.Proto.{Payload}
use hare_mq.Files.{Files}
use hare_mq.Message
use hare_mq.Message.{Manager}
use hare_mq.Message.Agreement.{At, Agrees, At-other}
use hare_mq.Message.Agreement.Fifo.{waits, waits_of, waits-find}
use hare_mq.Message.Agreement.Recovered.{
  init_queue_msg-waits, recoverable, recoverable-Recoverable, opened,
}
use hare_mq.Message.Agreement.Restart.{At-Recoverable}
use hare_mq.Message.Mapper.{Codec, IsCodec, paths}
use hare_mq.Message.Mapper.Load.{valid_only}
use hare_mq.Message.Mapper.Untouched.{Untouched, Untouched-trans}
use hare_mq.Message.Queue
use hare_mq.Message.Queue.{QueueMessage}
use hare_mq.Message.Queue.Untouched.{new-Untouched, recovery-Leaves}

module _ (c : Codec) where
  -- The messages that a queue has, or finds in its data file.
  abbrev pub content : Files → Manager → Text → List (Option Payload)
  content fs m qname = opened (find text_discrete qname m.queue_msgs) (recoverable c fs m qname)

  -- The queue has a store afterwards.
  pub init_queue_msg-find_self :
      (fs : Files) (m : Manager) (qname : Text)
      → (q : QueueMessage) × (find text_discrete qname
            (Message.init_queue_msg c fs m qname).1.queue_msgs
          ≡ some q)
  unfolding Message.init_queue_msg
  init_queue_msg-find_self fs m qname = elim (find_cases text_discrete qname m.queue_msgs) [
    | inr (q, e) ↦ (q, rw (e, Message.init_queue_msg) e)
    | inl e ↦
        let (fs₁, q) = Queue.new fs m.base_dir qname in
        let (fs₂, q') = Queue.recovery c fs₁ q in
        (
          q',
          rw (e, Message.init_queue_msg)
              (ground (arith, e, find-insert text_discrete qname qname q' m.queue_msgs)),
        )
  ]

  -- The other queues have the stores that they had.
  pub init_queue_msg-find_other :
      (fs : Files) (m : Manager) (qname other : Text)
      → other ≢ qname
      → find text_discrete other (Message.init_queue_msg c fs m qname).1.queue_msgs
        ≡ find text_discrete other m.queue_msgs
  unfolding Message.init_queue_msg
  init_queue_msg-find_other fs m qname other differ =
      elim (find_cases text_discrete qname m.queue_msgs) [
        | inr (q, e) ↦ rw (e, Message.init_queue_msg) refl
        | inl e ↦
            let (fs₁, q) = Queue.new fs m.base_dir qname in
            let (fs₂, q') = Queue.recovery c fs₁ q in
            rw (e, Message.init_queue_msg)
              (ground (arith, differ, find-insert text_discrete qname other q' m.queue_msgs))
      ]

module _ (c : Codec) (law : IsCodec c) where
  content-At :
      (fs : Files) (m : Manager) (qname : Text) (ps : List Payload)
      → At c fs m qname ps
      → content c fs m qname
        ≡ opened (find text_discrete qname m.queue_msgs) (map some (valid_only ps))
  content-At fs m qname ps at =
      ap (opened (find text_discrete qname m.queue_msgs))
        (recoverable-Recoverable c law fs m qname ps (At-Recoverable c law fs m qname ps at))

  init_queue_msg-At :
      (fs : Files) (m : Manager) (qname other : Text) (ps : List Payload)
      → other ≢ qname
      → At c fs m other ps
      → let (fs', m') = Message.init_queue_msg c fs m qname in At c fs' m' other ps
  unfolding Message.init_queue_msg
  init_queue_msg-At fs m qname other ps differ at =
      elim (find_cases text_discrete qname m.queue_msgs) [
        | inr (q, e) ↦ rw (e, Message.init_queue_msg) at
        | inl e ↦
            let p = paths m.base_dir qname in
            let (fs₁, q) = Queue.new fs m.base_dir qname in
            let (fs₂, q') = Queue.recovery c fs₁ q in
            let (mapper, u) = new-Untouched fs m.base_dir qname in
            let (_, u') = recovery-Leaves c law fs₁ q in
            rw (e, Message.init_queue_msg)
              (At-other c fs fs₂ m (insert text_discrete qname q' m.queue_msgs) qname other ps
                differ
                (ground (arith, differ, find-insert text_discrete qname other q' m.queue_msgs))
                (Untouched-trans p fs fs₁ fs₂ u (subst (λ p'. Untouched p' fs₁ fs₂) mapper u')) at)
      ]

  -- Making a store changes the messages of no queue.
  pub init_queue_msg-content :
      (fs : Files) (m : Manager) (qname other : Text)
      → Agrees c fs m
      → let (fs', m') = Message.init_queue_msg c fs m qname in
        content c fs' m' other ≡ content c fs m other
  init_queue_msg-content fs m qname other a = elim (text_discrete other qname) [
    | no differ ↦
        let (fs', m') = Message.init_queue_msg c fs m qname in
        let (ps, at) = a other in
        content-At fs' m' other ps (init_queue_msg-At fs m qname other ps differ at)
        ∙ ap (λ o. opened o (map some (valid_only ps)))
            (init_queue_msg-find_other c fs m qname other differ)
        ∙ sym (content-At fs m other ps at)
    | yes same ↦
        let (fs', m') = Message.init_queue_msg c fs m qname in
        let (q, there) = init_queue_msg-find_self c fs m qname in
        let known : waits m' qname ≡ opened (some q) (recoverable c fs' m' qname) =
          unfold waits_of in waits-find m' qname (some q) there in
        subst (λ k. content c fs' m' k ≡ content c fs m k) (sym same)
          (ap (λ o. opened o (recoverable c fs' m' qname)) there
            ∙ sym known
            ∙ init_queue_msg-waits c law fs m qname qname a
            ∙ if_pos (text_discrete qname qname) refl _ _)
  ]
