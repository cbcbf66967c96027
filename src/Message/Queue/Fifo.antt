-- ===== src/Message/Queue/Fifo.antt =====
-- message.hpp: what each call of `queue_message` does to the messages that wait for delivery.
use mathlib.Core.Option
use mathlib.Core.Option.{some-injective}
use hare_mq.Base.{
  ◌+◌, ◌-◌, ◌%◌, ◌≡◌, ◌≢◌, refl, sym, ap, ◌∙◌, Bool, true, List, [], ◌∷◌, ◌++◌, Option, none, some,
  Text, codes, text_discrete, get_elem?, set, get_elem?-set_ne, get_elem?-append_some,
  get_elem?-append_self, find, erase, find_cases, Bool-cases, inl, inr, length, if◌then◌else◌,
  subst,
}
use hare_mq.Proto.{BasicProperties, Payload, Message}
use hare_mq.Split.{All}
use hare_mq.Files.{Files}
use hare_mq.Message.Mapper
use hare_mq.Message.Mapper.{Codec, IsCodec, with_valid}
use hare_mq.Message.Mapper.Records.{insert_at-Holds}
use hare_mq.Message.Queue.{
  Pointer, QueueMessage, is_durable, new_message, insert_body, insert_msg, push_back, note_durable,
  remove, remove_durable, front, forget, size_mod,
}
use hare_mq.Message.Queue.Recovery.{waiting}
use hare_mq.Message.Queue.Sound.Records.{All-map, All-zip}
use hare_mq.Message.Queue.Sound.{Live, Sound, Entry}
use hare_mq.Message.Queue.Sound.Live.{Keeps}
use hare_mq.Message.Queue.Sound.Mark.{Stored-marked}
use hare_mq.Message.Queue.Sound.Remove.{gc-Collected}

-- The messages that wait for delivery, the next one first.
abbrev pub waiting_in : QueueMessage → List (Option Payload)
waiting_in q = waiting q.heap q.msgs

abbrev pub first : List (Option Payload) → Option Payload
first [] = none
first (r ∷ rs) = r

abbrev pub behind : List (Option Payload) → List (Option Payload)
behind [] = []
behind (r ∷ rs) = rs

-- A durable message is marked as valid when it is stored.
abbrev pub as_stored : Message → Payload
as_stored msg =
    if is_durable msg.payload.properties.delivery_mode
    then with_valid msg.payload (codes "1")
    else msg.payload

waiting-Keeps :
    (heap heap' : List Message) (ps : List Pointer)
    → Keeps heap heap'
    → All (λ p. (m : Message) × (get_elem? heap p ≡ some m)) ps
    → waiting heap' ps ≡ waiting heap ps
unfolding waiting
waiting-Keeps heap heap' [] keeps known = refl
waiting-Keeps heap heap' (p ∷ ps) keeps ((m, at), known) =
    let (m', at', same) = keeps p m at in
    rw (at', at) (rw same (ap (◌∷◌ (some m.payload)) (waiting-Keeps heap heap' ps keeps known)))

waiting-set :
    (heap : List Message) (p : Pointer) (v : Message) (ps : List Pointer)
    → All (λ s. s ≢ p) ps
    → waiting (set heap p v) ps ≡ waiting heap ps
unfolding waiting
waiting-set heap p v [] apart = refl
waiting-set heap p v (s ∷ ps) (differ, apart) =
    rw (get_elem?-set_ne heap p s v (λ e. differ (sym e)))
      (ap (◌∷◌ (Option.map (λ m. m.payload) (get_elem? heap s))) (waiting-set heap p v ps apart))

waiting-snoc :
    (heap : List Message) (ps : List Pointer) (p : Pointer) (m : Message)
    → get_elem? heap p ≡ some m
    → waiting heap (ps ++ p ∷ []) ≡ waiting heap ps ++ some m.payload ∷ []
unfolding waiting
waiting-snoc heap [] p m at = rw at refl
waiting-snoc heap (s ∷ ps) p m at =
    ap (◌∷◌ (Option.map (λ m. m.payload) (get_elem? heap s))) (waiting-snoc heap ps p m at)

-- A new object does not change what the other pointers lead to.
waiting-push :
    (q : QueueMessage) (msg : Message)
    → Live q.heap q.durable_msgs q.msgs q.wait_ack_msgs
    → waiting_in (push_back q msg) ≡ waiting_in q ++ some msg.payload ∷ []
unfolding push_back
waiting-push q msg (_, known, _) =
    waiting-snoc (q.heap ++ msg ∷ []) q.msgs (length q.heap) msg (get_elem?-append_self q.heap msg)
    ∙ ap (λ rs. rs ++ some msg.payload ∷ [])
        (waiting-Keeps q.heap (q.heap ++ msg ∷ []) q.msgs
          (λ p old at. (old, get_elem?-append_some q.heap (msg ∷ []) p old at, refl))
          (All-map q.msgs (λ p k. (k.0, k.1.0)) known))

-- What is handed out is the first message that waits, and the others stay.
pub front-Fifo :
    (q : QueueMessage)
    → let (q', p) = front q in
      (waiting_in q' ≡ behind (waiting_in q))
      × (Option.map (λ m. m.payload) (elim p [ none ↦ none | some i ↦ get_elem? q'.heap i ])
          ≡ first (waiting_in q))
unfolding front waiting
front-Fifo q = go q.msgs refl
  where
    go :
        (msgs : List Pointer)
        → q.msgs ≡ msgs
        → let (q', p) = front q in
          (waiting_in q' ≡ behind (waiting_in q))
          × (Option.map (λ m. m.payload) (elim p [ none ↦ none | some i ↦ get_elem? q'.heap i ])
              ≡ first (waiting_in q))
    go [] e = rw (e, front) (rw e (refl, refl))
    go (p ∷ rest) e = rw (e, front) (rw e (refl, refl))

module _ (c : Codec) where
  -- A message that is inserted waits behind the others.
  pub insert_body-Fifo :
      (fs : Files) (q : QueueMessage) (ps : List Payload) (bp : Option BasicProperties)
      (body : Text) (d : Bool) (uuid : Text)
      → Sound c fs q ps
      → let (fs', q', done) = insert_body c fs q bp body d uuid in
        (done ≡ true)
        × (waiting_in q' ≡ waiting_in q ++ some (as_stored (new_message bp body d uuid)) ∷ [])
  unfolding insert_body insert_msg Mapper.insert note_durable
  insert_body-Fifo fs q ps bp body d uuid (names, s, live) =
      let msg : Message = new_message bp body d uuid in
      let marked : Message = record msg { payload = with_valid msg.payload (codes "1") } in
      elim (Bool-cases (is_durable msg.payload.properties.delivery_mode)) [
        | inr e ↦ rw e (refl, waiting-push q msg live)
        | inl e ↦
            let (done, _, made) = insert_at-Holds c fs q.mapper.data_file ps marked s.0 in
            rw (e, done, made) (refl, unfold push_back in waiting-push q _ live)
      ]

module _ (c : Codec) (law : IsCodec c) where
  durable-Fifo :
      (fs fs' : Files) (q q' : QueueMessage) (ps : List Payload) (id : Text) (p : Pointer)
      → Sound c fs q ps
      → (entry : Entry c ps q.heap id p) → All (λ s. s ≢ p) q.msgs
      → remove_durable c fs q id p entry.0 ≡ some (fs', q')
      → waiting_in q' ≡ waiting_in q
  unfolding remove_durable
  durable-Fifo fs fs' q q' ps id p (names, s, live) entry apart e =
      let (fs₁, msg', done) = Mapper.remove c fs q.mapper entry.0 in
      let (ps₁, s₁, _, _) =
        Stored-marked c law fs q.mapper ps q.heap q.durable_msgs q.valid_count id p s entry in
      let q₁ : QueueMessage = record q {
        heap = set q.heap p msg';
        durable_msgs = erase text_discrete id q.durable_msgs;
        valid_count = (q.valid_count + size_mod - 1) % size_mod;
      } in
      let (fs₂, q₂, collected, (_, _, _, _, keeps, shape)) =
        gc-Collected c law fs₁ q₁ ps₁ names s₁ in
      let same : q₂ ≡ q' = ap (λ r. r.1) (some-injective _ _ (sym collected ∙ e)) in
      let there : All (λ s. (m : Message) × (get_elem? (set q.heap p msg') s ≡ some m)) q.msgs =
        All-zip q.msgs
          (λ s differ k. (k.0, get_elem?-set_ne q.heap p s msg' (λ w. differ (sym w)) ∙ k.1.0))
          apart live.1 in
      subst (λ (r : QueueMessage). waiting_in r ≡ waiting_in q) same
        (ap (λ (r : QueueMessage). waiting q₂.heap r.msgs) shape
          ∙ waiting-Keeps (set q.heap p msg') q₂.heap q.msgs keeps there
          ∙ waiting-set q.heap p msg' q.msgs apart)

  forgotten :
      (q : QueueMessage) (id : Text) (o : Option (Files × QueueMessage))
      → ((fs' : Files) (q' : QueueMessage) → o ≡ some (fs', q') → waiting_in q' ≡ waiting_in q)
      → (fs' : Files) (q' : QueueMessage) → forget c id o ≡ some (fs', q')
      → waiting_in q' ≡ waiting_in q
  unfolding forget
  forgotten q id none same fs' q' e = absurd (cc)
  forgotten q id (some (fs₁, q₁)) same fs' q' e =
      subst (λ (r : QueueMessage). waiting_in r ≡ waiting_in q)
        (ap (λ r. r.1) (some-injective _ _ e)) (same fs₁ q₁ refl)

  -- A message that is removed did not wait for its delivery any more.
  pub remove-Fifo :
      (fs fs' : Files) (q q' : QueueMessage) (ps : List Payload) (id : Text)
      → Sound c fs q ps
      → remove c fs q id ≡ some (fs', q')
      → waiting_in q' ≡ waiting_in q
  unfolding remove
  remove-Fifo fs fs' q q' ps id (names, s, live) e =
      elim (find_cases text_discrete id q.wait_ack_msgs) [
        | inl f ↦ same (some-injective _ _ (rw (f, remove) at e))
        | inr (p, waits) ↦
            let (apart, msg, k, named) = live.2 id p waits in
            let e₁ = rw (k.0, remove) at (rw (waits, remove) at e) in
            elim (Bool-cases (is_durable msg.payload.properties.delivery_mode)) [
              | inr d ↦
                  forgotten q id (some (fs, q)) (λ fs₁ q₁ z. same (some-injective _ _ z)) fs' q'
                    (rw (d, remove) at e₁)
              | inl d ↦
                  let known =
                    ap (λ (i : Text). find text_discrete i q.durable_msgs) (sym named) ∙ k.1 d in
                  let entry = s.2.3 id p known in
                  let is_entry : entry.0 ≡ msg = some-injective _ _ (sym entry.2 ∙ k.0) in
                  forgotten q id (remove_durable c fs q id p msg)
                    (λ fs₁ q₁ z.
                      durable-Fifo fs fs₁ q q₁ ps id p (names, s, live) entry apart
                        (ap (remove_durable c fs q id p) is_entry ∙ z))
                    fs' q' (rw (d, remove) at e₁)
            ]
      ]
    where
      same :
          {r : QueueMessage} {gs : Files}
          → ◌≡◌ {A = Files × QueueMessage} (fs, q) (gs, r)
          → waiting_in r ≡ waiting_in q
      same z = ap (λ t. waiting_in t.1) (sym z)
