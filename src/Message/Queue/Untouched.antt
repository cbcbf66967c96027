-- ===== src/Message/Queue/Untouched.antt =====
-- message.hpp, `queue_message`: a call on one queue touches the two files of its mapper only.
use hare_mq.Base.{
  ◌≡◌, refl, Bool, List, [], ◌∷◌, Option, none, some, Text, codes, text_discrete, arith, find,
  get_elem?, set, erase, length, Bool-cases, Option-cases, inl, inr, subst, ◌==◌, ◌+◌, ◌-◌, ◌%◌,
}
use hare_mq.Proto.{BasicProperties, Message}
use hare_mq.Files.{Files}
use hare_mq.Message.Mapper
use hare_mq.Message.Mapper.{Codec, IsCodec, Paths, with_valid, paths}
use hare_mq.Message.Mapper.Untouched.{
  Untouched, Untouched-trans, create_msg_file-Untouched, remove_msg_file-Untouched,
  insert-Untouched, remove-Untouched, gc-Untouched,
}
use hare_mq.Message.Queue.{
  Pointer, QueueMessage, new, is_durable, new_message, insert_msg, insert_body, push_back,
  note_durable, recover_each, recovery, relocate, gc, gc_check, remove, remove_durable, front,
  clear, msg_id, size_mod, forget,
}

-- The paths stay, and so do the other files.
abbrev pub Leaves : Files → QueueMessage → Files → QueueMessage → Type 0
Leaves fs q fs' q' = (q'.mapper ≡ q.mapper) × Untouched q.mapper fs fs'

pub new-Untouched :
    (fs : Files) (base_dir qname : Text)
    → let (fs', q) = new fs base_dir qname in
      (q.mapper ≡ paths base_dir qname) × Untouched (paths base_dir qname) fs fs'
unfolding new
new-Untouched fs base_dir qname = (refl, create_msg_file-Untouched fs (paths base_dir qname))

pub front-mapper : (q : QueueMessage) → (front q).0.mapper ≡ q.mapper
unfolding front
front-mapper q = ground arith

pub clear-Untouched : (fs : Files) (q : QueueMessage) → Untouched q.mapper fs (clear fs q).0
unfolding clear
clear-Untouched fs q = remove_msg_file-Untouched fs q.mapper

module _ (c : Codec) where
  recover_each-mapper :
      (q : QueueMessage) (lst : List Message) → (recover_each c q lst).mapper ≡ q.mapper
  unfolding recover_each push_back note_durable
  recover_each-mapper q [] = refl
  recover_each-mapper q (m ∷ lst) = recover_each-mapper (push_back (note_durable q m) m) lst

  relocate-mapper : (q : QueueMessage) (lst : List Message) → (relocate c q lst).mapper ≡ q.mapper
  unfolding relocate push_back note_durable
  relocate-mapper q [] = refl
  relocate-mapper q (m ∷ lst) = elim (Option-cases (find text_discrete (msg_id m) q.durable_msgs)) [
    | inl e ↦ rw (e, relocate) (relocate-mapper (push_back (note_durable q m) m) lst)
    | inr (p, e) ↦ elim (Option-cases (get_elem? q.heap p)) [
      | inl e' ↦ rw (e, relocate) (rw (e', relocate) (relocate-mapper q lst))
      | inr (old, e') ↦
          rw (e, relocate)
            (rw (e', relocate)
              (relocate-mapper
                (record q {
                  heap = set q.heap p (record old { offset = m.offset; length = m.length });
                })
                lst))
    ]
  ]

module _ (c : Codec) (law : IsCodec c) where
  pub insert_body-Leaves :
      (fs : Files) (q : QueueMessage) (bp : Option BasicProperties) (body : Text) (d : Bool)
      (uuid : Text)
      → let (fs', q', _) = insert_body c fs q bp body d uuid in Leaves fs q fs' q'
  unfolding insert_body insert_msg push_back note_durable
  insert_body-Leaves fs q bp body d uuid =
      let msg : Message = new_message bp body d uuid in
      let marked : Message = record msg { payload = with_valid msg.payload (codes "1") } in
      elim (Bool-cases (is_durable msg.payload.properties.delivery_mode)) [
        | inr e ↦ rw e (refl, λ other n n'. refl)
        | inl e ↦
            let kept = insert-Untouched c law fs q.mapper marked in
            elim (Bool-cases (Mapper.insert c fs q.mapper marked).2) [
              | inl wrote ↦ rw e (rw wrote (refl, kept))
              | inr failed ↦ rw e (rw failed (refl, kept))
            ]
      ]

  pub recovery-Leaves :
      (fs : Files) (q : QueueMessage) → let (fs', q') = recovery c fs q in Leaves fs q fs' q'
  unfolding recovery
  recovery-Leaves fs q = (
    recover_each-mapper c (record q { msgs = [] }) (Mapper.gc c fs q.mapper).1,
    gc-Untouched c law fs q.mapper,
  )

  -- What a call that may stop leaves as it is, if it does not.
  abbrev LeavesIf : Files → QueueMessage → Option (Files × QueueMessage) → Type 0
  LeavesIf fs q none = Unit
  LeavesIf fs q (some (fs', q')) = Leaves fs q fs' q'

  gc-Leaves : (fs : Files) (q : QueueMessage) → LeavesIf fs q (gc c fs q)
  unfolding gc
  gc-Leaves fs q =
      let (fs', lst) = Mapper.gc c fs q.mapper in
      elim (Bool-cases (gc_check c q)) [
        | inr e ↦ rw (e, gc) (refl, λ other n n'. refl)
        | inl e ↦ elim (Bool-cases (length lst == q.valid_count)) [
          | inl t ↦
              rw (e, gc) (rw (t, gc) (relocate-mapper c q lst, gc-Untouched c law fs q.mapper))
          | inr t ↦ rw (e, gc) (rw (t, gc) tt)
        ]
      ]

  durable-Leaves :
      (fs : Files) (q : QueueMessage) (id : Text) (p : Pointer) (msg : Message)
      → LeavesIf fs q (remove_durable c fs q id p msg)
  unfolding remove_durable
  durable-Leaves fs q id p msg = go (gc c fs₁ q₁) (gc-Leaves fs₁ q₁)
    where
      fs₁ : Files
      fs₁ = (Mapper.remove c fs q.mapper msg).0

      q₁ : QueueMessage
      q₁ = record q {
        heap = set q.heap p (Mapper.remove c fs q.mapper msg).1;
        durable_msgs = erase text_discrete id q.durable_msgs;
        valid_count = (q.valid_count + size_mod - 1) % size_mod;
      }

      go : (o : Option (Files × QueueMessage)) → LeavesIf fs₁ q₁ o → LeavesIf fs q o
      go none u = tt
      go (some (fs', q')) (same, u) =
          (same, Untouched-trans q.mapper fs fs₁ fs' (remove-Untouched c law fs q.mapper msg) u)

  forget-Leaves :
      (fs : Files) (q : QueueMessage) (id : Text) (o : Option (Files × QueueMessage))
      → LeavesIf fs q o
      → LeavesIf fs q (forget c id o)
  unfolding forget
  forget-Leaves fs q id none u = tt
  forget-Leaves fs q id (some (fs', q')) u = u

  remove-LeavesIf : (fs : Files) (q : QueueMessage) (id : Text) → LeavesIf fs q (remove c fs q id)
  unfolding remove
  remove-LeavesIf fs q id = elim (Option-cases (find text_discrete id q.wait_ack_msgs)) [
    | inl e ↦ rw (e, remove) (refl, λ other n n'. refl)
    | inr (p, e) ↦ elim (Option-cases (get_elem? q.heap p)) [
      | inl e' ↦ rw (e, remove) (rw (e', remove) tt)
      | inr (msg, e') ↦ elim (Bool-cases (is_durable msg.payload.properties.delivery_mode)) [
        | inl d ↦
            rw (e, remove)
              (rw (e', remove)
                (rw (d, remove)
                  (forget-Leaves fs q id (remove_durable c fs q id p msg)
                    (durable-Leaves fs q id p msg))))
        | inr d ↦ rw (e, remove) (rw (e', remove) (rw (d, remove) (refl, λ other n n'. refl)))
      ]
    ]
  ]

  pub remove-Leaves :
      (fs fs' : Files) (q q' : QueueMessage) (id : Text)
      → remove c fs q id ≡ some (fs', q')
      → Leaves fs q fs' q'
  remove-Leaves fs fs' q q' id e = subst (LeavesIf fs q) e (remove-LeavesIf fs q id)
