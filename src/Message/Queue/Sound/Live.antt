-- ===== src/Message/Queue/Sound/Live.antt =====
-- message.hpp: the pointers that wait, when objects move or leave.
use mathlib.Core.Option.{some-injective}
use hare_mq.Base.{
  ◌≡◌, ◌≢◌, sym, ap, ◌∙◌, List, none, some, Text, text_discrete, arith, get_elem?, set,
  get_elem?-set_ne, find, erase, find-erase, Map,
}
use hare_mq.Proto.{Payload, Message}
use hare_mq.Message.Queue.{Pointer, is_durable, msg_id}
use hare_mq.Message.Queue.Sound.{id_of, Listed, Known, Live}
use hare_mq.Message.Queue.Sound.Records.{All-map, All-zip}

-- Every object keeps its payload.
abbrev pub Keeps : List Message → List Message → Type 0
Keeps heap heap' =
    (p : Pointer) (old : Message)
    → get_elem? heap p ≡ some old
    → (m : Message) × (get_elem? heap' p ≡ some m) × (m.payload ≡ old.payload)

pub Live-Keeps :
    (heap heap' : List Message) (d : Map Text Pointer) (msgs : List Pointer)
    (wait : Map Text Pointer)
    → Keeps heap heap'
    → Live heap d msgs wait
    → Live heap' d msgs wait
Live-Keeps heap heap' d msgs wait keeps (unique, known, waiting) =
    let kept : (p : Pointer) (m : Message)
        → Known heap d p m
        → (m' : Message) × Known heap' d p m' × (m'.payload ≡ m.payload) =
      λ p m k.
        let (m', at, same) = keeps p m k.0 in
        (
          m',
          (
            at,
            λ durable.
                ap (λ (r : Payload). find text_discrete (id_of r) d) same
                ∙ k.1 (
                    ap (λ (r : Payload). is_durable r.properties.delivery_mode) (sym same)
                    ∙ durable),
          ),
          same,
        ) in
    (
      unique,
      All-map msgs (λ p k. let (m', k', _) = kept p k.0 k.1 in (m', k')) known,
      λ id p e.
          let (apart, m, k, named) = waiting id p e in
          let (m', k', same) = kept p m k in (apart, m', k', ap id_of same ∙ named),
    )

-- What stands in a table after an entry was erased.
pub erase-some :
    (d : Map Text Pointer) (id id' : Text) (p : Pointer)
    → find text_discrete id' (erase text_discrete id d) ≡ some p
    → (id ≢ id') × (find text_discrete id' d ≡ some p)
erase-some d id id' p e = elim (text_discrete id id') [
  | yes same ↦ absurd (ground (arith, same, e, find-erase text_discrete id id' d))
  | no differ ↦ (differ, ground (arith, differ, e, find-erase text_discrete id id' d))
]

pub erase-other :
    (d : Map Text Pointer) (id id' : Text) (p : Pointer)
    → id ≢ id'
    → find text_discrete id' d ≡ some p
    → find text_discrete id' (erase text_discrete id d) ≡ some p
erase-other d id id' p differ e = ground (arith, differ, e, find-erase text_discrete id id' d)

pub erase_self :
    (d : Map Text Pointer) (id : Text) → find text_discrete id (erase text_discrete id d) ≡ none
erase_self d id = ground (arith, find-erase text_discrete id id d)

pub Listed-erase :
    (d : Map Text Pointer) (id : Text) (r : Payload)
    → id ≢ id_of r
    → Listed d r
    → Listed (erase text_discrete id d) r
Listed-erase d id r differ (valid, p, known) = (valid, p, erase-other d id (id_of r) p differ known)

-- A durable message leaves.
pub Live-erase :
    (heap : List Message) (d : Map Text Pointer) (msgs : List Pointer) (wait : Map Text Pointer)
    (id : Text) (p : Pointer) (msg new : Message)
    → find text_discrete id wait ≡ some p
    → get_elem? heap p ≡ some msg
    → msg_id msg ≡ id
    → find text_discrete id d ≡ some p
    → Live heap d msgs wait
    → Live (set heap p new) (erase text_discrete id d) msgs (erase text_discrete id wait)
Live-erase heap d msgs wait id p msg new waits at named known (unique, all, waiting) =
    let kept : (p' : Pointer) (m : Message)
        → p' ≢ p
        → Known heap d p' m
        → Known (set heap p new) (erase text_discrete id d) p' m =
      λ p' m differ k. (
        get_elem?-set_ne heap p p' new (λ same. differ (sym same)) ∙ k.0,
        λ durable.
            erase-other d id (msg_id m) p'
              (λ same. differ (
                some-injective _ _ (
                  sym (k.1 durable)
                  ∙ ap (λ (i : Text). find text_discrete i d) (sym same)
                  ∙ known)))
              (k.1 durable),
      ) in
    (
      unique,
      All-zip msgs (λ p' differ k. (k.0, kept p' k.0 differ k.1)) (waiting id p waits).0 all,
      λ id' p' e.
          let (differ, waits') = erase-some wait id id' p' e in
          let (apart, m, k, named') = waiting id' p' waits' in
          (
            apart,
            m,
            kept p' m
                (λ same. differ (
                  sym named
                  ∙ ap msg_id (some-injective _ _ (sym at ∙ ap (get_elem? heap) (sym same) ∙ k.0))
                  ∙ named'))
                k,
            named',
          ),
    )

pub Live-forget :
    (heap : List Message) (d : Map Text Pointer) (msgs : List Pointer) (wait : Map Text Pointer)
    (id : Text)
    → Live heap d msgs wait
    → Live heap d msgs (erase text_discrete id wait)
Live-forget heap d msgs wait id (unique, all, waiting) =
    (unique, all, λ id' p' e. waiting id' p' (erase-some wait id id' p' e).1)
