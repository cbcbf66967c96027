-- ===== src/VirtualHost/Fifo.antt =====
-- virtual_host.hpp: the host as a set of named queues, first in, first out.
use mathlib.Core.Option.{some-injective}
use hare_mq.Base.{
  ◌≡◌, refl, sym, ap, ◌∙◌, List, [], ◌∷◌, ◌++◌, Option, none, some, Text, text_discrete, ite, find,
  Option-cases, inl, inr,
}
use mathlib.Core.List.{append-nil}
use hare_mq.Proto.{BasicProperties, Payload}
use hare_mq.Queue
use hare_mq.Queue.{MsgQueue}
use hare_mq.Message
use hare_mq.Message.Agreement.Calls.{insert_body-refused}
use hare_mq.Message.Agreement.Fifo.{
  waits, front-waits, insert_body-waits, ack-waits, destroy_queue_msg-waits, waits_same,
}
use hare_mq.Message.Agreement.Recovered.{init_queue_msg-waits, recoverable, opened}
use hare_mq.Message.Mapper.{IsCodec}
use hare_mq.Message.Queue.{QueueMessage, new_message}
use hare_mq.Message.Queue.Fifo.{behind, as_stored}
use hare_mq.VirtualHost
use hare_mq.VirtualHost.{Env, Host, ◌>>=◌, >>=-eq-some}
use hare_mq.VirtualHost.Calls.{
  Call, declare_exchange, delete_exchange, declare_queue, delete_queue, bind, unbind, basic_publish,
  basic_consume, basic_ack, call, bind-cases,
}
use hare_mq.VirtualHost.Safety.{HostAgrees}

module _ (env : Env) where
  -- The messages that wait for delivery in a queue of the host, the next one first.
  abbrev pub waits_at : Host env → Text → List (Option Payload)
  waits_at h qname = waits h.messages qname

  abbrev pub queue_of : Host env → Text → Option MsgQueue
  queue_of h qname = Queue.select_queue env.split env.queue_sql h.queues qname

  abbrev pub store_of : Host env → Text → Option QueueMessage
  store_of h qname = find text_discrete qname h.messages.queue_msgs

  -- What publishing adds to a queue: one message, if the queue is declared and has a store.
  abbrev pub added :
      Host env
      → Option BasicProperties
      → Text
      → Option MsgQueue
      → Option QueueMessage
      → List (Option Payload)
  added h bp body none store = []
  added h bp body (some x) none = []
  added h bp body (some x) (some q) =
      some (as_stored (new_message bp body x.durable (env.uuid h.drawn))) ∷ []

  -- The messages that wait in the queue `other` after a call.
  unfoldable pub after : Host env → Call env → Text → List (Option Payload)
  after h (basic_publish qname bp body) other =
      ite (text_discrete qname other)
        (waits_at h qname ++ added h bp body (queue_of h qname) (store_of h qname))
        (waits_at h other)
  after h (basic_consume qname) other =
      ite (text_discrete qname other) (behind (waits_at h qname)) (waits_at h other)
  after h (declare_queue q) other =
      ite (text_discrete q.name other)
        (opened (store_of h q.name) (recoverable env.codec h.files h.messages q.name))
        (waits_at h other)
  after h (delete_queue qname) other = ite (text_discrete qname other) [] (waits_at h other)
  after h (basic_ack qname id) other = waits_at h other
  after h (declare_exchange x) other = waits_at h other
  after h (delete_exchange ename) other = waits_at h other
  after h (bind ename qname key) other = waits_at h other
  after h (unbind ename qname) other = waits_at h other

module _ (env : Env) (law : IsCodec env.codec) where
  -- A message that is not stored changes nothing.
  unchanged :
      (h : Host env) (qname other : Text) (rs : List (Option Payload))
      → rs ≡ []
      → waits_at env h other
        ≡ ite (text_discrete qname other) (waits_at env h qname ++ rs) (waits_at env h other)
  unchanged h qname other rs nothing = sym (
      waits_same h.messages qname other (waits_at env h qname ++ rs)
        (sym (ap (λ r. waits_at env h qname ++ r) nothing ∙ append-nil (waits_at env h qname))))

  publish-after :
      (h : Host env) (qname : Text) (bp : Option BasicProperties) (body other : Text)
      → HostAgrees env h
      → waits_at env (VirtualHost.basic_publish env h qname bp body).0 other
        ≡ after env h (basic_publish qname bp body) other
  unfolding VirtualHost.basic_publish after
  publish-after h qname bp body other a = elim (Option-cases (queue_of env h qname)) [
    | inl e ↦ rw (e, VirtualHost.basic_publish) (unchanged h qname other [] refl)
    | inr (x, e) ↦
        let uuid = env.uuid h.drawn in
        elim (Option-cases (store_of env h qname)) [
          | inl absent ↦
              let refused =
                insert_body-refused env.codec law h.files h.messages qname bp body x.durable uuid
                  absent in
              rw (e, VirtualHost.basic_publish)
                (rw refused (rw absent (unchanged h qname other [] refl)))
          | inr (q, there) ↦
              rw (e, VirtualHost.basic_publish)
                (rw there (
                  insert_body-waits env.codec h.files h.messages qname q bp body x.durable uuid
                    other a there))
        ]
  ]

  ack-after :
      (h h' : Host env) (qname id other : Text)
      → HostAgrees env h
      → VirtualHost.basic_ack env h qname id ≡ some h'
      → waits_at env h' other ≡ waits_at env h other
  unfolding VirtualHost.basic_ack
  ack-after h h' qname id other a e =
      let ((fs, m), acked, made) =
        >>=-eq-some (Message.ack env.codec h.files h.messages qname id) _ e in
      ap (λ (r : Host env). waits_at env r other) (sym (some-injective _ _ made))
      ∙ ack-waits env.codec law h.files fs h.messages m qname id other a acked

  bind-after :
      (h : Host env) (ename qname key other : Text)
      → waits_at env (VirtualHost.bind env h ename qname key).0 other ≡ waits_at env h other
  bind-after h ename qname key other = elim (bind-cases env h ename qname key) [
    | inl same ↦ ap (λ r. waits_at env r other) same
    | inr (_, _, (_, made)) ↦ ap (λ r. waits_at env r other) made
  ]

  -- For a codec with the documented laws: if every queue agrees with its data file or can be
  -- recovered from it, a call of the host that does not stop the server changes the messages that
  -- wait as in a set of named queues, first in, first out: publishing adds the message behind the
  -- others if the queue is declared and has a store, taking a message takes the first one, declaring
  -- a queue without a store gives it the messages of its data file, deleting a queue leaves none,
  -- and all else, in the other queues too, stays as it was.
  pub call-after :
      (h h' : Host env) (k : Call env) (other : Text)
      → HostAgrees env h
      → call env h k ≡ some h'
      → waits_at env h' other ≡ after env h k other
  unfolding call
  call-after h h' k other a e = go k e
    where
      same : {r : Host env} → some r ≡ some h' → waits_at env h' other ≡ waits_at env r other
      same z = ap (λ (r : Host env). waits_at env r other) (sym (some-injective _ _ z))

      go : (k : Call env) → call env h k ≡ some h' → waits_at env h' other ≡ after env h k other
      go (declare_exchange x) z = same z ∙ unfold after VirtualHost.declare_exchange in refl
      go (delete_exchange ename) z = same z ∙ unfold after VirtualHost.delete_exchange in refl
      go (declare_queue q) z =
          same z
          ∙ unfold after VirtualHost.declare_queue in
            init_queue_msg-waits env.codec law h.files h.messages q.name other a
      go (delete_queue qname) z =
          same z
          ∙ unfold after VirtualHost.delete_queue in
            destroy_queue_msg-waits h.files h.messages qname other
      go (bind ename qname key) z = same z ∙ unfold after in bind-after h ename qname key other
      go (unbind ename qname) z = same z ∙ unfold after VirtualHost.unbind in refl
      go (basic_publish qname bp body) z = same z ∙ publish-after h qname bp body other a
      go (basic_consume qname) z =
          same z ∙ unfold after VirtualHost.basic_consume in (front-waits h.messages qname).1 other
      go (basic_ack qname id) z = unfold after in ack-after h h' qname id other a z
