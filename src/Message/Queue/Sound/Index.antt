-- ===== src/Message/Queue/Sound/Index.antt =====
-- message.hpp: a message that is pushed to the containers, and its record.
use hare_mq.Base.{
  ◌+◌, ◌%◌, ◌^◌, ◌<◌, ◌≡◌, ◌≢◌, ◌⊎◌, refl, sym, ap, ◌∙◌, true, List, [], ◌∷◌, ◌++◌, none, some,
  Text, codes, text_discrete, arith, length, take-append, get_elem?, get_elem?-append_self, find,
  insert, find-insert, find_cases, Map, ite-eq-some, inl, inr, subst,
}
use hare_mq.Proto.{Payload, Message}
use hare_mq.Split.{All}
use hare_mq.Message.Mapper.{Codec, size_width}
use hare_mq.Message.Mapper.Records.{encode_all}
use hare_mq.Message.Mapper.Load.{valid_only}
use hare_mq.Message.Queue.{Pointer, is_durable, msg_id}
use hare_mq.Message.Queue.Durability.{valid_only-append}
use hare_mq.Message.Queue.Sound.{
  id_of, UniquePointers, Listed, offset_of, Entry, Indexed, Known, Live,
}
use hare_mq.Base.{get_elem?-bound, get_elem?-append_some}
use hare_mq.Message.Queue.Sound.Records.{
  All-map, All-get, All-snoc, UniqueIds-snoc, offset_of-append, offset_of-bound, valid_only-get,
  is_valid,
}

UniquePointers-snoc :
    (ps : List Pointer) (p : Pointer)
    → UniquePointers ps
    → All (λ s. s ≢ p) ps
    → UniquePointers (ps ++ p ∷ [])
UniquePointers-snoc [] p u a = (tt, tt)
UniquePointers-snoc (x ∷ ps) p u a =
    (All-snoc (λ s. s ≢ x) ps p u.0 (λ e. a.0 (sym e)), UniquePointers-snoc ps p u.1 a.1)

-- A pointer to an object is not the next new one.
known_ne :
    (heap : List Message) (p : Pointer) (msg : Message)
    → get_elem? heap p ≡ some msg
    → p ≢ length heap
known_ne heap p msg e same = omega (arith, get_elem?-bound heap p msg e, same)

-- `push_back`, where `durable_msgs` may have grown.
pub Live-push :
    (heap : List Message) (d d' : Map Text Pointer) (msgs : List Pointer) (wait : Map Text Pointer)
    (msg : Message)
    → ((id : Text) (p : Pointer)
        → find text_discrete id d ≡ some p
        → find text_discrete id d' ≡ some p)
    → (is_durable msg.payload.properties.delivery_mode ≡ true
        → find text_discrete (msg_id msg) d' ≡ some (length heap))
    → Live heap d msgs wait
    → Live (heap ++ msg ∷ []) d' (msgs ++ length heap ∷ []) wait
Live-push heap d d' msgs wait msg grows new (unique, known, waiting) =
    let kept : (p : Pointer) (m : Message) → Known heap d p m → Known (heap ++ msg ∷ []) d' p m =
      λ p m k.
        (get_elem?-append_some heap (msg ∷ []) p m k.0, λ dur. grows (msg_id m) p (k.1 dur)) in
    (
      UniquePointers-snoc msgs (length heap) unique
          (All-map msgs (λ p k. known_ne heap p k.0 k.1.0) known),
      All-snoc (λ p. (m : Message) × Known (heap ++ msg ∷ []) d' p m) msgs (length heap)
          (All-map msgs (λ p k. (k.0, kept p k.0 k.1)) known)
          (msg, (get_elem?-append_self heap msg, new)),
      λ id p e.
          let (apart, m, k, named) = waiting id p e in
          (
            All-snoc (λ s. s ≢ p) msgs (length heap) apart
                (λ same. known_ne heap p m k.0 (sym same)),
            m,
            kept p m k,
            named,
          ),
    )

pub insert-keeps :
    (d : Map Text Pointer) (id : Text) (p : Pointer)
    → find text_discrete id d ≡ none
    → (id' : Text) (p' : Pointer) → find text_discrete id' d ≡ some p'
    → find text_discrete id' (insert text_discrete id p d) ≡ some p'
insert-keeps d id p absent id' p' e =
    ground (arith, absent, e, find-insert text_discrete id id' p d)

pub insert-finds :
    (d : Map Text Pointer) (id : Text) (p : Pointer)
    → find text_discrete id d ≡ none
    → find text_discrete id (insert text_discrete id p d) ≡ some p
insert-finds d id p absent = ground (arith, absent, find-insert text_discrete id id p d)

pub insert-find_cases :
    (d : Map Text Pointer) (id : Text) (p : Pointer) (id' : Text) (p' : Pointer)
    → find text_discrete id d ≡ none
    → find text_discrete id' (insert text_discrete id p d) ≡ some p'
    → ((id ≡ id') × (p ≡ p')) ⊎ (find text_discrete id' d ≡ some p')
insert-find_cases d id p id' p' absent e =
    ite-eq-some (text_discrete id id') p (find text_discrete id' d)
      (ground (arith, absent, e, find-insert text_discrete id id' p d))

pub valid_only-snoc :
    (ps : List Payload) (r : Payload)
    → r.valid ≡ codes "1"
    → valid_only (ps ++ r ∷ []) ≡ valid_only ps ++ r ∷ []
valid_only-snoc ps r v =
    valid_only-append ps (r ∷ [])
    ∙ ap (λ (rs : List Payload). valid_only ps ++ rs) (rw (is_valid r v) refl)

module _ (c : Codec) where
  -- An identifier that no valid record has is not in `durable_msgs`.
  pub fresh-find :
      (ps : List Payload) (heap : List Message) (d : Map Text Pointer) (id : Text)
      → Indexed c ps heap d
      → All (λ s. id_of s ≢ id) (valid_only ps)
      → find text_discrete id d ≡ none
  fresh-find ps heap d id (_, _, _, entries) fresh = elim (find_cases text_discrete id d) [
    | inl e ↦ e
    | inr (p, e) ↦
        let (msg, i, at, named, valid, record_at, _, _) = entries id p e in
        let (j, there) = valid_only-get ps i msg.payload record_at valid in
        absurd (All-get (λ s. id_of s ≢ id) (valid_only ps) j msg.payload there fresh named)
  ]

  Entry-append :
      (ps : List Payload) (heap : List Message) (r : Payload) (msg : Message) (id : Text)
      (p : Pointer)
      → Entry c ps heap id p
      → Entry c (ps ++ r ∷ []) (heap ++ msg ∷ []) id p
  Entry-append ps heap r msg id p (m, i, at, named, valid, record_at, offset, len) = (
    m,
    i,
    get_elem?-append_some heap (msg ∷ []) p m at,
    named,
    valid,
    get_elem?-append_some ps (r ∷ []) i m.payload record_at,
    offset
        ∙ sym (
            offset_of-append c ps (r ∷ []) i
              (omega (arith, get_elem?-bound ps i m.payload record_at))),
    len,
  )

  -- The object that `insert_at` makes.
  abbrev pub stored : List Payload → Message → Message
  stored ps msg = record msg {
    offset = (length (encode_all c ps) + size_width) % 2 ^ 32;
    length = length (c.serialize msg.payload) % 2 ^ 32;
  }

  Entry-stored :
      (ps : List Payload) (heap : List Message) (msg : Message)
      → msg.payload.valid ≡ codes "1"
      → length (encode_all c (ps ++ msg.payload ∷ [])) < 2 ^ 32
      → Entry c (ps ++ msg.payload ∷ []) (heap ++ stored ps msg ∷ []) (msg_id msg) (length heap)
  Entry-stored ps heap msg valid bound =
      let last : get_elem? (ps ++ msg.payload ∷ []) (length ps) ≡ some msg.payload =
        get_elem?-append_self ps msg.payload in
      let front : offset_of c (ps ++ msg.payload ∷ []) (length ps)
          ≡ length (encode_all c ps) + size_width =
        ap (λ (rs : List Payload). length (encode_all c rs) + size_width)
          (take-append ps (msg.payload ∷ [])) in
      let below = offset_of-bound c (ps ++ msg.payload ∷ []) (length ps) msg.payload last in
      (
        stored ps msg,
        length ps,
        get_elem?-append_self heap (stored ps msg),
        refl,
        valid,
        last,
        omega (arith, front, below, bound),
        omega (arith, front, below, bound),
      )

  Listed-insert :
      (d : Map Text Pointer) (id : Text) (p : Pointer) (rs : List Payload)
      → find text_discrete id d ≡ none
      → All (Listed d) rs
      → All (Listed (insert text_discrete id p d)) rs
  Listed-insert d id p rs absent =
      All-map rs (λ r (valid, at, e). (valid, at, insert-keeps d id p absent (id_of r) at e))

  -- A record goes behind the others, and its object to the end of the heap.
  pub Indexed-insert :
      (ps : List Payload) (heap : List Message) (d : Map Text Pointer) (msg : Message)
      → Indexed c ps heap d
      → msg.payload.valid ≡ codes "1"
      → All (λ s. id_of s ≢ msg_id msg) (valid_only ps)
      → length (encode_all c (ps ++ msg.payload ∷ [])) < 2 ^ 32
      → Indexed c
          (ps ++ msg.payload ∷ [])
          (heap ++ stored ps msg ∷ [])
          (insert text_discrete (msg_id msg) (length heap) d)
  Indexed-insert ps heap d msg s valid fresh bound =
      let (small, unique, listed, entries) = s in
      let absent = fresh-find ps heap d (msg_id msg) s fresh in
      let grown = valid_only-snoc ps msg.payload valid in
      let new_find : find text_discrete (msg_id msg)
            (insert text_discrete (msg_id msg) (length heap) d)
          ≡ some (length heap) =
        insert-finds d (msg_id msg) (length heap) absent in
      (
        bound,
        rw grown (UniqueIds-snoc (valid_only ps) msg.payload unique fresh),
        rw grown (
            All-snoc (Listed (insert text_discrete (msg_id msg) (length heap) d)) (valid_only ps)
              msg.payload (Listed-insert d (msg_id msg) (length heap) (valid_only ps) absent listed)
              (valid, length heap, new_find)),
        λ id p e. elim (insert-find_cases d (msg_id msg) (length heap) id p absent e) [
          | inl (same_id, same_p) ↦
              subst (λ i. Entry c (ps ++ msg.payload ∷ []) (heap ++ stored ps msg ∷ []) i p) same_id
                (subst (Entry c (ps ++ msg.payload ∷ []) (heap ++ stored ps msg ∷ []) (msg_id msg))
                  same_p (Entry-stored ps heap msg valid bound))
          | inr old ↦ Entry-append ps heap msg.payload (stored ps msg) id p (entries id p old)
        ],
      )
