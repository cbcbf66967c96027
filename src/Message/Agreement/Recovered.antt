-- ===== src/Message/Agreement/Recovered.antt =====
-- message.hpp: the messages that a queue has when it is declared.
use mathlib.Core.Logic.{apply_ite}
use hare_mq.Base.{
  ◌≡◌, refl, sym, ap, ◌∙◌, Bool, List, [], ◌∷◌, map, Option, none, some, Text, text_discrete, ite,
  find, find-insert, inl, inr,
}
use hare_mq.Proto.{Payload, Message}
use hare_mq.Files
use hare_mq.Files.{Files}
use hare_mq.Message
use hare_mq.Message.{Manager}
use hare_mq.Message.Agreement.{Recoverable, At, Agrees}
use hare_mq.Message.Agreement.Queues.{create_msg_file-Holds}
use hare_mq.Message.Mapper
use hare_mq.Message.Mapper.{Codec, IsCodec, Paths, paths}
use hare_mq.Message.Mapper.Load.{loaded, valid_only, load-Holds}
use hare_mq.Message.Queue
use hare_mq.Message.Queue.{QueueMessage, new_message}
use hare_mq.Message.Queue.Fifo.{waiting_in}
use hare_mq.Message.Queue.Recovery.{recovery-Holds}
use hare_mq.Message.Queue.Sound.Records.{Fits-All}
use hare_mq.Message.Queue.Sound.Start.{paths-distinct}
use hare_mq.Message.Agreement.Fifo.{waits, waits_of, waits-find, waits_same}

-- The messages of a queue that is declared: those that it has, if it has a store.
abbrev pub opened : Option QueueMessage → List (Option Payload) → List (Option Payload)
opened none rs = rs
opened (some q) rs = waiting_in q

module _ (c : Codec) where
  -- What a queue without a store finds in its data file.
  abbrev pub recoverable : Files → Manager → Text → List (Option Payload)
  unfolding Mapper.load
  recoverable fs m qname = map (λ r. some r.payload) (Mapper.load c fs (paths m.base_dir qname)).0

module _ (c : Codec) (law : IsCodec c) where
  map-loaded : (rs : List Payload) → map (λ r. some r.payload) (map loaded rs) ≡ map some rs
  map-loaded [] = refl
  map-loaded (r ∷ rs) = ap (◌∷◌ (some r)) (map-loaded rs)

  pub recoverable-Recoverable :
      (fs : Files) (m : Manager) (qname : Text) (ps : List Payload)
      → Recoverable c fs (paths m.base_dir qname).data_file ps
      → recoverable c fs m qname ≡ map some (valid_only ps)
  unfolding recoverable
  recoverable-Recoverable fs m qname ps (small, _, _, inr held) =
      let e = load-Holds c law fs (paths m.base_dir qname) ps held (Fits-All c ps small) in
      ap (λ (r : List Message × Bool). map (λ x. some x.payload) r.0) e ∙ map-loaded (valid_only ps)
  recoverable-Recoverable fs m qname ps (_, _, _, inl (absent, empty)) =
      rw empty
        (unfold Mapper.load Files.size in rw (absent, Files.size) (unfold Mapper.load_from in refl))

  -- A queue that is made has the messages of its data file.
  pub init_queue_msg-waits :
      (fs : Files) (m : Manager) (qname other : Text)
      → Agrees c fs m
      → waits (Message.init_queue_msg c fs m qname).1 other
        ≡ ite
            (text_discrete qname other)
            (opened (find text_discrete qname m.queue_msgs) (recoverable c fs m qname))
            (waits m other)
  unfolding Message.init_queue_msg waits waits_of recoverable
  init_queue_msg-waits fs m qname other a = go (a qname)
    where
      go :
          (ps : List Payload) × At c fs m qname ps
          → waits (Message.init_queue_msg c fs m qname).1 other
            ≡ ite
                (text_discrete qname other)
                (opened (find text_discrete qname m.queue_msgs) (recoverable c fs m qname))
                (waits m other)
      go (ps, inr (q, (there, _, _))) =
          rw (there, Message.init_queue_msg)
            (sym (
              unfold waits in
              waits_same m qname other (waiting_in q) (waits-find m qname (some q) there)))
      go (ps, inl (absent, r)) =
          let p = paths m.base_dir qname in
          let (fs₁, q) = Queue.new fs m.base_dir qname in
          let (fs₂, q') = Queue.recovery c fs₁ q in
          let recovered : waiting_in q' ≡ map some (valid_only ps) =
            unfold Queue.new in
            (recovery-Holds c law fs₁ q ps (paths-distinct m.base_dir qname)
              (create_msg_file-Holds c fs p ps r) (Fits-All c ps r.0)).0 in
          rw (absent, Message.init_queue_msg)
            (ap waits_of (find-insert text_discrete qname other q' m.queue_msgs)
              ∙ apply_ite waits_of (text_discrete qname other) _ _
              ∙ rw absent (
                  ap (λ rs. ite (text_discrete qname other) rs (waits m other))
                    (recovered ∙ sym (recoverable-Recoverable fs m qname ps r))))
