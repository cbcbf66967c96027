-- ===== src/Message/Agreement/Restart.antt =====
-- message.hpp: a server that is started again finds the durable messages of its queues.
use mathlib.Core.Option.{some-injective}
use hare_mq.Base.{
  ℕ, ◌≡◌, refl, sym, ◌∙◌, List, map, some, Text, text_discrete, find, get_elem?, subst, inl, inr,
}
use hare_mq.Proto.{Payload, Message}
use hare_mq.Split.{All}
use hare_mq.Files.{Files}
use hare_mq.Message
use hare_mq.Message.{Manager}
use hare_mq.Message.Agreement.{Recoverable, At, Agrees}
use hare_mq.Message.Agreement.Recovered.{recoverable-Recoverable, recoverable}
use hare_mq.Message.Mapper.{Codec, IsCodec, paths}
use hare_mq.Message.Mapper.Load.{valid_only}
use hare_mq.Message.Mapper.Records.{encode_all}
use hare_mq.Message.Queue.{Pointer, QueueMessage, msg_id}
use hare_mq.Message.Queue.Sound.{UniqueIds, Listed, Sound}
use hare_mq.Message.Queue.Sound.Records.{valid_only-get, All-map}

module _ (c : Codec) (law : IsCodec c) where
  -- What can be recovered from the data files of a server that agrees with them.
  pub At-Recoverable :
      (fs : Files) (m : Manager) (qname : Text) (ps : List Payload)
      → At c fs m qname ps
      → Recoverable c fs (paths m.base_dir qname).data_file ps
  At-Recoverable fs m qname ps (inl (_, r)) = r
  At-Recoverable fs m qname ps
        (inr (q, (_, mapper, (_, (held, _, (small, unique, listed, _)), _)))) =
      (
        small,
        unique,
        All-map (valid_only ps) (λ r known. known.0) listed,
        inr (subst (λ p. find text_discrete p.data_file fs ≡ some (encode_all c ps)) mapper held),
      )

  -- A manager that starts on the files of another one.
  pub restart-Agrees :
      (fs : Files) (m : Manager) → Agrees c fs m → Agrees c fs (Message.new m.base_dir)
  unfolding find
  restart-Agrees fs m a qname =
      let (ps, at) = a qname in (ps, inl (refl, At-Recoverable fs m qname ps at))

  -- The durable messages that a queue knows, each of them once.
  abbrev pub Durable : QueueMessage → List Payload → Type 0
  Durable q rs =
      UniqueIds rs
      × All (Listed q.durable_msgs) rs
      × ((id : Text) (p : Pointer)
          → find text_discrete id q.durable_msgs ≡ some p
          → (msg : Message) × (i : ℕ) × (get_elem? q.heap p ≡ some msg)
            × (msg_id msg ≡ id)
            × (get_elem? rs i ≡ some msg.payload))

  -- The data file of a queue holds the durable messages that it knows.
  pub recoverable-Durable :
      (fs : Files) (m : Manager) (qname : Text) (q : QueueMessage)
      → Agrees c fs m
      → find text_discrete qname m.queue_msgs ≡ some q
      → (rs : List Payload) × (recoverable c fs (Message.new m.base_dir) qname ≡ map some rs)
        × Durable q rs
  recoverable-Durable fs m qname q a there = go (a qname)
    where
      go :
          (ps : List Payload) × At c fs m qname ps
          → (rs : List Payload) × (recoverable c fs (Message.new m.base_dir) qname ≡ map some rs)
            × Durable q rs
      go (ps, inl (absent, _)) = absurd (cc)
      go (ps, inr (q₀, (there₀, mapper, s))) =
          let r = At-Recoverable fs m qname ps (inr (q₀, (there₀, mapper, s))) in
          let same : q₀ ≡ q = some-injective _ _ (sym there₀ ∙ there) in
          let (_, (_, _, (_, unique, listed, entries)), _) =
            subst (λ (x : QueueMessage). Sound c fs x ps) same s in
          (
            valid_only ps,
            recoverable-Recoverable c law fs (Message.new m.base_dir) qname ps r,
            (
              unique,
              listed,
              λ id p known.
                  let (msg, i, at, named, valid, record_at, _, _) = entries id p known in
                  let (j, found) = valid_only-get ps i msg.payload record_at valid in
                  (msg, j, at, named, found),
            ),
          )
