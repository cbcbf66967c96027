-- ===== src/Message/Queue/Sound/Collect.antt =====
-- message.hpp, `gc` of `queue_message`: the assertion holds, and the containers and the new data
-- file agree.
use mathlib.Core.Option.{some-injective}
use mathlib.Core.List.{append-nil, append_assoc}
use hare_mq.Base.{
  ℕ, zero, suc, ◌+◌, ◌%◌, ◌^◌, ◌<◌, ◌≤◌, ◌≡◌, ◌≢◌, refl, sym, ap, ◌∙◌, List, [], ◌∷◌, ◌++◌, map,
  some, Text, codes, text_discrete, text_eq, arith, length, length-append, take, get_elem?, find,
  inl, inr, subst, Bool-cases,
}
use hare_mq.Proto.{Payload, Message}
use hare_mq.Split.{All}
use hare_mq.Files.{Files}
use hare_mq.Message.Mapper
use hare_mq.Message.Mapper.{Codec, IsCodec, Paths, size_width}
use hare_mq.Message.Mapper.Records.{encode, encode_all}
use hare_mq.Message.Mapper.Load.{valid_only}
use hare_mq.Message.Mapper.Collect.{Located}
use hare_mq.Message.Mapper.Gc.{gc-Holds}
use hare_mq.Message.Queue.{Pointer, QueueMessage, msg_id, relocate, size_mod}
use hare_mq.Message.Queue.Sound.{id_of, UniqueIds, Listed, Entry, Stored}
use hare_mq.Base.{get_elem?-bound}
use hare_mq.Message.Queue.Sound.Records.{
  All-map, get_elem?-map, valid_only-get, length-valid_only, Fits-All, offset_of-bound,
}
use hare_mq.Message.Queue.Sound.Relocate.{UniqueMessages, Found, moved, relocate-placed}

pub All-payloads {κ} :
    (P : Payload → Type κ) (lst : List Message)
    → All P (map (λ m. m.payload) lst)
    → All (λ m. P m.payload) lst
All-payloads P [] a = tt
All-payloads P (m ∷ lst) a = (a.0, All-payloads P lst a.1)

UniqueIds-payloads :
    (lst : List Message) → UniqueIds (map (λ m. m.payload) lst) → UniqueMessages lst
UniqueIds-payloads [] u = tt
UniqueIds-payloads (m ∷ lst) u =
    (All-payloads (λ s. id_of s ≢ msg_id m) lst u.0, UniqueIds-payloads lst u.1)

pub valid_only_twice : (ps : List Payload) → valid_only (valid_only ps) ≡ valid_only ps
valid_only_twice [] = refl
valid_only_twice (p ∷ ps) = elim (Bool-cases (text_eq p.valid (codes "0"))) [
  | inl e ↦ rw e (valid_only_twice ps)
  | inr e ↦ rw e (rw e (ap (◌∷◌ p) (valid_only_twice ps)))
]

pub length-map {ℓ κ} :
    {A : Type ℓ} {B : Type κ} (f : A → B) (xs : List A) → length (map f xs) ≡ length xs
length-map f [] = refl
length-map f (x ∷ xs) = ap suc (length-map f xs)

module _ (c : Codec) (law : IsCodec c) where
  pub valid_only-shorter :
      (ps : List Payload) → length (encode_all c (valid_only ps)) ≤ length (encode_all c ps)
  valid_only-shorter [] = omega arith
  valid_only-shorter (p ∷ ps) = elim (Bool-cases (text_eq p.valid (codes "0"))) [
    | inl e ↦
        rw e (omega (arith, length-append (encode c p) (encode_all c ps), valid_only-shorter ps))
    | inr e ↦ rw e (
        omega (
          arith,
          length-append (encode c p) (encode_all c ps),
          length-append (encode c p) (encode_all c (valid_only ps)),
          valid_only-shorter ps,
        ))
  ]

  Located-get :
      (before : List Payload) (lst : List Message) (j : ℕ) (m : Message)
      → Located c law before lst
      → get_elem? lst j ≡ some m
      → (m.offset
          ≡ (length (encode_all c (before ++ take j (map (λ m. m.payload) lst))) + size_width)
            % 2 ^ 32)
        × (m.length ≡ length (c.serialize m.payload) % 2 ^ 32)
  Located-get before [] j m l e = absurd (cc)
  Located-get before (m₀ ∷ lst) zero m l e =
      let same : m₀ ≡ m = some-injective _ _ e in
      subst
        (λ (x : Message).
          (x.offset ≡ (length (encode_all c (before ++ [])) + size_width) % 2 ^ 32)
          × (x.length ≡ length (c.serialize x.payload) % 2 ^ 32))
        same (rw append-nil (l.0, l.1))
  Located-get before (m₀ ∷ lst) (suc j) m l e =
      let (offset, len) = Located-get (before ++ m₀.payload ∷ []) lst j m l.2 e in
      (rw append_assoc at offset, len)

  -- An object stands under one identifier.
  injective :
      (q : QueueMessage) (ps : List Payload) (p : Pointer)
      → ((id : Text) (p : Pointer)
          → find text_discrete id q.durable_msgs ≡ some p
          → Entry c ps q.heap id p)
      → (a b : Text) → find text_discrete a q.durable_msgs ≡ some p
      → find text_discrete b q.durable_msgs ≡ some p
      → a ≡ b
  injective q ps p entries a b known_a known_b =
      let (m, _, at, named, _, _, _, _) = entries a p known_a in
      let (m', _, at', named', _, _, _, _) = entries b p known_b in
      sym named ∙ ap msg_id (some-injective _ _ (sym at ∙ at')) ∙ named'

  -- The object at `p` has its new place.
  Entry-moved :
      (q : QueueMessage) (ps : List Payload) (lst : List Message) (id : Text) (p : Pointer)
      → map (λ m. m.payload) lst ≡ valid_only ps
      → Located c law [] lst
      → length (encode_all c ps) < 2 ^ 32
      → Found q.durable_msgs q.heap lst
      → UniqueMessages lst
      → ((id : Text) (p : Pointer)
          → find text_discrete id q.durable_msgs ≡ some p
          → Entry c ps q.heap id p)
      → find text_discrete id q.durable_msgs ≡ some p
      → Entry c (valid_only ps) (relocate c q lst).heap id p
  Entry-moved q ps lst id p same located small found unique entries known =
      let (msg, i, at, named, valid, record_at, offset, len) = entries id p known in
      let (j, there) = valid_only-get ps i msg.payload record_at valid in
      let (m, m_at, m_payload) = get_elem?-map lst j msg.payload (rw same there) in
      let (m_offset, m_length) = Located-get [] lst j m located m_at in
      let bound = offset_of-bound c (valid_only ps) j msg.payload there in
      (
        moved msg m,
        j,
        relocate-placed c q lst j m p msg found unique (injective q ps p entries) m_at
            (ap (λ (r : Payload). find text_discrete (id_of r) q.durable_msgs) m_payload
              ∙ ap (λ (k : Text). find text_discrete k q.durable_msgs) named
              ∙ known)
            at,
        named,
        valid,
        there,
        omega (
          arith,
          m_offset,
          ap (λ (rs : List Payload). length (encode_all c (take j rs))) same,
          bound,
          small,
          valid_only-shorter ps,
        ),
        omega (
          arith,
          m_length,
          ap (λ (r : Payload). length (c.serialize r)) m_payload,
          bound,
          small,
          valid_only-shorter ps,
        ),
      )

  -- The state after the collection, where `wait` may differ from what the queue has.
  pub Stored-collect :
      (fs : Files) (q : QueueMessage) (ps : List Payload)
      → q.mapper.data_file ≢ q.mapper.tmp_file
      → Stored c fs q.mapper ps q.heap q.durable_msgs q.valid_count
      → let (fs', lst) = Mapper.gc c fs q.mapper in
        (length lst ≡ q.valid_count)
        × Found q.durable_msgs q.heap lst
        × Stored c fs' q.mapper
            (valid_only ps)
            (relocate c q lst).heap
            q.durable_msgs
            (length lst % size_mod)
  Stored-collect fs q ps names (held, counted, (small, ids, listed, entries)) =
      let lst = (Mapper.gc c fs q.mapper).1 in
      let (held', _, same, located) =
        gc-Holds c law fs q.mapper ps names held (Fits-All c ps small) in
      let all : length lst ≡ length (valid_only ps) =
        sym (length-map (λ (m : Message). m.payload) lst) ∙ ap length same in
      let unique : UniqueMessages lst = UniqueIds-payloads lst (rw same ids) in
      let found : Found q.durable_msgs q.heap lst =
        All-map lst
          (λ m (_, p, known).
            let (msg, _, at, _, _, _, _, _) = entries (msg_id m) p known in
            (p, known, get_elem?-bound q.heap p msg at))
          (All-payloads (Listed q.durable_msgs) lst (rw same listed)) in
      (
        all ∙ sym counted,
        found,
        (
          held',
          rw (valid_only_twice ps) (omega (arith, all, small, length-valid_only c ps)),
          (
            omega (arith, small, valid_only-shorter ps),
            rw (valid_only_twice ps) ids,
            rw (valid_only_twice ps) listed,
            λ id p known. Entry-moved q ps lst id p same located small found unique entries known,
          ),
        ),
      )
