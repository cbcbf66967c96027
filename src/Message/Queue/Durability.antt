-- ===== src/Message/Queue/Durability.antt =====
-- message.hpp: what a restarted server knows of a durable message.
use hare_mq.Base.{
  ℕ, ◌+◌, ◌^◌, ◌<◌, ◌≡◌, ◌≢◌, refl, ap, ◌∙◌, true, List, [], ◌∷◌, ◌++◌, map, some, codes,
  text_discrete, text_eq, ℕ_discrete, Bool-cases, inl, inr, length, subst,
}
use hare_mq.Proto.{Payload, Message}
use hare_mq.Split.{All}
use hare_mq.Files.{Files}
use hare_mq.Message.Mapper.{Codec, IsCodec, with_valid, size_width}
use hare_mq.Message.Mapper
use hare_mq.Message.Mapper.Records.{encode_all, Holds, Fits, insert_at-Holds}
use hare_mq.Message.Mapper.Load.{valid_only}
use hare_mq.Message.Mapper.Collect.{same_length, remove-Holds}
use hare_mq.Message.Queue.{QueueMessage, is_durable, recovery, insert_msg}
use hare_mq.Message.Queue.Recovery.{waiting, recovery-Holds}

pub valid_only-append :
    (ps qs : List Payload) → valid_only (ps ++ qs) ≡ valid_only ps ++ valid_only qs
valid_only-append [] qs = refl
valid_only-append (p ∷ ps) qs = elim (Bool-cases (text_eq p.valid (codes "0"))) [
  | inl e ↦ simp (e, valid_only-append ps qs) refl
  | inr e ↦ simp (e, valid_only-append ps qs) refl
]

pub All-append {ℓ} :
    (P : Payload → Type ℓ) (ps qs : List Payload) → All P ps → All P qs → All P (ps ++ qs)
All-append P [] qs a b = b
All-append P (p ∷ ps) qs a b = (a.0, All-append P ps qs a.1 b)

pub All-before {ℓ} :
    (P : Payload → Type ℓ) (ps qs : List Payload) → All P (ps ++ qs) → All P ps × All P qs
All-before P [] qs a = (tt, a)
All-before P (p ∷ ps) qs a = let (b, d) = All-before P ps qs a.1 in ((a.0, b), d)

pub valid_only-marked :
    (p : Payload) → valid_only (with_valid p (codes "1") ∷ []) ≡ with_valid p (codes "1") ∷ []
unfolding text_discrete ℕ_discrete
valid_only-marked p = refl

pub valid_only-removed :
    (p : Payload) (ps : List Payload) → valid_only (with_valid p (codes "0") ∷ ps) ≡ valid_only ps
unfolding text_discrete ℕ_discrete
valid_only-removed p ps = refl

module _ (c : Codec) (law : IsCodec c) where
  pub insert_msg-Holds :
      (fs : Files) (q : QueueMessage) (ps : List Payload) (msg : Message)
      → is_durable msg.payload.properties.delivery_mode ≡ true
      → Holds c fs q.mapper.data_file ps
      → let (fs', q', done) = insert_msg c fs q msg in
        (done ≡ true)
        × Holds c fs' q.mapper.data_file (ps ++ with_valid msg.payload (codes "1") ∷ [])
  unfolding insert_msg Mapper.insert
  insert_msg-Holds fs q ps msg d h =
      let marked : Message = record msg { payload = with_valid msg.payload (codes "1") } in
      let (done, held, _) = insert_at-Holds c fs q.mapper.data_file ps marked h in
      rw (d, done) (refl, held)

  -- For a codec with the documented laws: if the data file of a queue holds records whose
  -- lengths fit into eight bytes and the temporary file has another name, a durable message
  -- whose record fits is accepted, and a queue of the same files that is recovered after that
  -- delivers it, behind the messages that were not removed before.
  pub recovery-insert_msg :
      (fs : Files) (q fresh : QueueMessage) (ps : List Payload) (msg : Message)
      → is_durable msg.payload.properties.delivery_mode ≡ true
      → fresh.mapper ≡ q.mapper
      → q.mapper.data_file ≢ q.mapper.tmp_file
      → Holds c fs q.mapper.data_file ps
      → All (Fits c) ps
      → Fits c (with_valid msg.payload (codes "1"))
      → let (fs', q', done) = insert_msg c fs q msg in
        let (fs'', q'') = recovery c fs' fresh in
        (done ≡ true)
        × (waiting q''.heap q''.msgs
            ≡ map some (valid_only ps ++ with_valid msg.payload (codes "1") ∷ []))
  recovery-insert_msg fs q fresh ps msg d m n h a fits =
      let (done, held) = insert_msg-Holds fs q ps msg d h in
      let p : Payload = with_valid msg.payload (codes "1") in
      (
        done,
        (recovery-Holds c law (insert_msg c fs q msg).0 fresh (ps ++ p ∷ []) (simp m n)
              (simp m held) (All-append (Fits c) ps (p ∷ []) a (fits, tt))).0
            ∙ ap (map some) (
                valid_only-append ps (p ∷ [])
                ∙ ap (λ (r : List Payload). valid_only ps ++ r) (valid_only-marked msg.payload)),
      )

  -- For a codec with the documented laws: if a message knows where its record stands in the
  -- data file and its valid flag is one character, the lengths of the records fit into eight
  -- bytes and the temporary file has another name, then marking it as removed succeeds, and a
  -- queue of the same files that is recovered after that delivers the other messages that were
  -- not removed, in their order, and not this one.
  pub recovery-remove :
      (fs : Files) (fresh : QueueMessage) (before after : List Payload) (msg : Message) (v : ℕ)
      → fresh.mapper.data_file ≢ fresh.mapper.tmp_file
      → Holds c fs fresh.mapper.data_file (before ++ msg.payload ∷ after)
      → All (Fits c) (before ++ msg.payload ∷ after)
      → msg.offset ≡ length (encode_all c before) + size_width
      → msg.length ≡ length (c.serialize msg.payload)
      → msg.payload.valid ≡ v ∷ []
      → let (fs', msg', done) = Mapper.remove c fs fresh.mapper msg in
        let (fs'', q'') = recovery c fs' fresh in
        (done ≡ true)
        × (waiting q''.heap q''.msgs ≡ map some (valid_only before ++ valid_only after))
  recovery-remove fs fresh before after msg v n h a at len one =
      let (done, held) = remove-Holds c law fs fresh.mapper before after msg v h at len one in
      let gone : Payload = with_valid msg.payload (codes "0") in
      let (before_fits, rest_fits) = All-before (Fits c) before (msg.payload ∷ after) a in
      (
        done,
        (recovery-Holds c law (Mapper.remove c fs fresh.mapper msg).0 fresh (before ++ gone ∷ after)
              n held
              (All-append (Fits c) before (gone ∷ after) before_fits (
                subst (λ (k : ℕ). k < 256 ^ size_width) (same_length c law msg.payload v one)
                    rest_fits.0,
                rest_fits.1,
              ))).0
            ∙ ap (map some) (
                valid_only-append before (gone ∷ after)
                ∙ ap (λ (r : List Payload). valid_only before ++ r)
                    (valid_only-removed msg.payload after)),
      )
