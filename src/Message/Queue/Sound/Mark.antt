-- ===== src/Message/Queue/Sound/Mark.antt =====
-- message.hpp, `remove` of `message_mapper`: the record of a known message is marked.
use mathlib.Core.Option.{some-injective}
use hare_mq.Base.{
  ℕ, suc, ◌+◌, ◌-◌, ◌%◌, ◌≤◌, ◌≡◌, ◌≢◌, refl, sym, ap, ◌∙◌, List, ◌∷◌, ◌++◌, some, Text, codes,
  text_discrete, arith, length, length-append, take, drop, get_elem?, set, get_elem?-set_ne, erase,
  Map, inl, inr, Bool-cases, ◌==◌,
}
use hare_mq.Proto.{Payload, Message}
use hare_mq.Files.{Files}
use hare_mq.Message.Mapper
use hare_mq.Message.Mapper.{Codec, IsCodec, Paths, size_width, with_valid}
use hare_mq.Message.Mapper.Records.{encode, encode_all, encode_all-append, length-encode}
use hare_mq.Message.Mapper.Load.{valid_only}
use hare_mq.Message.Mapper.Collect.{same_length, remove-Holds}
use hare_mq.Message.Queue.Durability.{valid_only-append, valid_only-removed}
use hare_mq.Message.Queue.{Pointer, msg_id, size_mod}
use hare_mq.Message.Queue.Sound.{id_of, Listed, Entry, Stored}
use hare_mq.Message.Queue.Sound.Records.{
  All-zip, All-drop_middle, UniqueIds-middle, get_elem?-take_drop, set-take_drop, offset_of-set,
  length-valid_only, is_valid,
}
use hare_mq.Message.Queue.Sound.Live.{erase-some, Listed-erase}

module _ (c : Codec) (law : IsCodec c) where
  removed-payload :
      (fs : Files) (paths : Paths) (msg : Message)
      → (Mapper.remove c fs paths msg).1
        ≡ record msg { payload = with_valid msg.payload (codes "0") }
  unfolding Mapper.remove
  removed-payload fs paths msg =
      let body : Text = c.serialize (with_valid msg.payload (codes "0")) in
      elim (Bool-cases (length body == msg.length)) [
        | inl e ↦ rw (e, Mapper.remove) refl
        | inr e ↦ rw (e, Mapper.remove) refl
      ]

  pub valid_only-middle :
      (before after : List Payload) (r : Payload)
      → r.valid ≡ codes "1"
      → (valid_only (before ++ r ∷ after) ≡ valid_only before ++ r ∷ valid_only after)
        × (valid_only (before ++ with_valid r (codes "0") ∷ after)
            ≡ valid_only before ++ valid_only after)
  valid_only-middle before after r v = (
    valid_only-append before (r ∷ after)
        ∙ ap (λ (rs : List Payload). valid_only before ++ rs) (rw (is_valid r v) refl),
    valid_only-append before (with_valid r (codes "0") ∷ after)
        ∙ ap (λ (rs : List Payload). valid_only before ++ rs) (valid_only-removed r after),
  )

  length-marked :
      (r : Payload)
      → r.valid ≡ codes "1"
      → length (encode c (with_valid r (codes "0"))) ≡ length (encode c r)
  length-marked r v = omega (
    arith,
    length-encode c r,
    length-encode c (with_valid r (codes "0")),
    same_length c law r b'1' v,
  )

  length-encode_all_marked :
      (before after : List Payload) (r : Payload)
      → r.valid ≡ codes "1"
      → length (encode_all c (before ++ with_valid r (codes "0") ∷ after))
        ≡ length (encode_all c (before ++ r ∷ after))
  length-encode_all_marked before after r v =
      let r₀ : Payload = with_valid r (codes "0") in
      omega (
        arith,
        ap length (encode_all-append c before (r₀ ∷ after)),
        ap length (encode_all-append c before (r ∷ after)),
        length-append (encode_all c before) (encode_all c (r₀ ∷ after)),
        length-append (encode_all c before) (encode_all c (r ∷ after)),
        length-append (encode c r₀) (encode_all c after),
        length-append (encode c r) (encode_all c after),
        length-marked r v,
      )

  -- The object of another record knows its place after record `i` was marked.
  Entry-marked :
      (ps : List Payload) (heap : List Message) (id id' : Text) (p p' : Pointer) (msg new : Message)
      (i : ℕ)
      → get_elem? heap p ≡ some msg
      → msg_id msg ≡ id
      → msg.payload.valid ≡ codes "1"
      → get_elem? ps i ≡ some msg.payload
      → id ≢ id'
      → Entry c ps heap id' p'
      → Entry c (set ps i (with_valid msg.payload (codes "0"))) (set heap p new) id' p'
  Entry-marked ps heap id id' p p' msg new i at named valid record_at differ
        (m, i', at', named', valid', record_at', offset, len) =
      let apart : p ≢ p' = λ same. differ (
        sym named
        ∙ ap msg_id (some-injective _ _ (sym at ∙ ap (get_elem? heap) same ∙ at'))
        ∙ named') in
      let elsewhere : i ≢ i' = λ same. differ (
        sym named
        ∙ ap id_of (some-injective _ _ (sym record_at ∙ ap (get_elem? ps) same ∙ record_at'))
        ∙ named') in
      (
        m,
        i',
        get_elem?-set_ne heap p p' new apart ∙ at',
        named',
        valid',
        get_elem?-set_ne ps i i' (with_valid msg.payload (codes "0")) elsewhere ∙ record_at',
        offset
            ∙ sym (
                offset_of-set c ps i' i msg.payload (with_valid msg.payload (codes "0")) record_at
                  (length-marked msg.payload valid)),
        len,
      )

  -- The records without that of `id`.
  abbrev pub Without : Text → List Payload → List Payload → Type 0
  Without id ps ps' =
      (xs : List Payload) × (r : Payload) × (ys : List Payload) × (id_of r ≡ id)
      × (valid_only ps ≡ xs ++ r ∷ ys)
      × (valid_only ps' ≡ xs ++ ys)

  pub Stored-marked :
      (fs : Files) (paths : Paths) (ps : List Payload) (heap : List Message) (d : Map Text Pointer)
      (count : ℕ) (id : Text) (p : Pointer)
      → Stored c fs paths ps heap d count
      → (entry : Entry c ps heap id p)
      → let (fs', msg', done) = Mapper.remove c fs paths entry.0 in
        (ps' : List Payload) × Stored c fs' paths ps'
          (set heap p msg')
          (erase text_discrete id d)
          ((count + size_mod - 1) % size_mod)
        × Without id ps ps'
        × (length (encode_all c ps') ≤ length (encode_all c ps))
  Stored-marked fs paths ps heap d count id p s entry =
      let (held, counted, (small, ids, listed, entries)) = s in
      let (msg, i, at, named, valid, record_at, offset, len) = entry in
      let before = take i ps in
      let after = drop (suc i) ps in
      let marked : Payload = with_valid msg.payload (codes "0") in
      let split = get_elem?-take_drop ps i msg.payload record_at in
      let (_, held') =
        remove-Holds c law fs paths before after msg b'1'
          (held ∙ ap (λ rs. some (encode_all c rs)) split) offset len valid in
      let replaced : set ps i marked ≡ before ++ marked ∷ after =
        set-take_drop ps i msg.payload marked record_at in
      let (was, is) = valid_only-middle before after msg.payload valid in
      let old : valid_only ps ≡ valid_only before ++ msg.payload ∷ valid_only after =
        ap valid_only split ∙ was in
      let new : valid_only (set ps i marked) ≡ valid_only before ++ valid_only after =
        ap valid_only replaced ∙ is in
      let size : length (encode_all c (set ps i marked)) ≤ length (encode_all c ps) = omega (
        arith,
        ap (λ rs. length (encode_all c rs)) split,
        ap (λ rs. length (encode_all c rs)) replaced,
        length-encode_all_marked before after msg.payload valid,
      ) in
      let (ids', others) =
        UniqueIds-middle (valid_only before) (valid_only after) msg.payload (rw old at ids) in
      (
        set ps i marked,
        (
          held' ∙ ap (λ rs. some (encode_all c rs)) (sym replaced),
          omega (
            arith,
            counted,
            small,
            length-valid_only c ps,
            ap length old,
            ap length new,
            length-append (valid_only before) (msg.payload ∷ valid_only after),
            length-append (valid_only before) (valid_only after),
          ),
          (
            omega (arith, small, size),
            rw new ids',
            rw new (
                All-zip (valid_only before ++ valid_only after)
                  (λ r l differ. Listed-erase d id r (λ same. differ (sym same ∙ sym named)) l)
                  (All-drop_middle (Listed d) (valid_only before) (valid_only after) msg.payload
                    (rw old at listed))
                  others),
            λ id' p' e.
                let (differ, known') = erase-some d id id' p' e in
                rw (removed-payload fs paths msg) (
                  Entry-marked ps heap id id' p p' msg (record msg { payload = marked }) i at named
                    valid record_at differ (entries id' p' known')),
          ),
        ),
        (valid_only before, msg.payload, valid_only after, named, old, new),
        size,
      )
