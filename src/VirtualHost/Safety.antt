-- ===== src/VirtualHost/Safety.antt =====
-- virtual_host.hpp: the queues of a host agree with their data files, so no call of the host runs
-- into the assertion of a collection.
pub mod Start
use hare_mq.Split.{AllChars}
use hare_mq.Base.{
  ◌≡◌, ◌+◌, ◌≤◌, ◌&&◌, not, ◌==◌, length, refl, sym, ap, ◌∙◌, List, [], ◌∷◌, Option, none, some,
  Text, text_discrete, find, find_cases, Option-cases, inl, inr, subst, Map, true,
}
use hare_mq.Proto.{BasicProperties, Payload}
use hare_mq.Files.{Files}
use hare_mq.Queue
use hare_mq.Queue.{MsgQueue}
use hare_mq.Message
use hare_mq.Message.Agreement.{Recoverable, Agrees}
use hare_mq.Message.Agreement.Calls.{
  Fresh, front-Agrees, insert_body-Agrees, insert_body-refused, ack-Agrees,
}
use hare_mq.Message.Agreement.Queues.{init_queue_msg-Agrees, destroy_queue_msg-Agrees}
use hare_mq.Message.Mapper.{Codec, IsCodec, paths}
use hare_mq.Message.Queue.{QueueMessage, new_message}
use hare_mq.VirtualHost.{Env, Host, ◌>>=◌, init_each, open_host}
use hare_mq.VirtualHost
use hare_mq.VirtualHost.Calls.{
  Call, declare_exchange, delete_exchange, declare_queue, delete_queue, bind, unbind, basic_publish,
  basic_consume, basic_ack, call, bind-cases,
}

-- `open` makes a file of the directory under this name with the longest suffix: there is no `/` and
-- no NUL in it, and it is not too long. `Files.create` is `file_helper::create` for such names.
abbrev pub IsFileName : Text → Type 0
IsFileName qname = AllChars (λ c. not (c == b'/') && not (c == 0)) qname × (length qname + 8 ≤ 255)

module _ (env : Env) where
  -- Every queue of the host agrees with its data file, or can be recovered from it.
  abbrev pub HostAgrees : Host env → Type 0
  HostAgrees h = Agrees env.codec h.files h.messages

  -- A durable message that is published has an identifier that its queue does not know, and its
  -- record fits into the data file.
  abbrev pub Publishable : Host env → Text → Option BasicProperties → Text → Type 0
  Publishable h qname bp body =
      (x : MsgQueue) (q : QueueMessage)
      → Queue.select_queue env.split env.queue_sql h.queues qname ≡ some x
      → find text_discrete qname h.messages.queue_msgs ≡ some q
      → Fresh env.codec h.files q (new_message bp body x.durable (env.uuid h.drawn))

  -- The queues that a host has read back have names of files.
  abbrev pub NamedFiles : Host env → Type 0
  NamedFiles h =
      (qname : Text) (x : MsgQueue)
      → Queue.select_queue env.split env.queue_sql h.queues qname ≡ some x
      → IsFileName qname

  abbrev pub Admissible : Host env → Call env → Type 0
  Admissible h (declare_exchange x) = Unit
  Admissible h (delete_exchange ename) = Unit
  Admissible h (declare_queue q) = IsFileName q.name
  Admissible h (delete_queue qname) = Unit
  Admissible h (bind ename qname key) = Unit
  Admissible h (unbind ename qname) = Unit
  Admissible h (basic_publish qname bp body) = Publishable h qname bp body
  Admissible h (basic_consume qname) = Unit
  Admissible h (basic_ack qname id) = Unit

module _ (env : Env) (law : IsCodec env.codec) where
  pub declare_queue-Agrees :
      (h : Host env) (x : MsgQueue)
      → HostAgrees env h
      → HostAgrees env (VirtualHost.declare_queue env h x).0
  unfolding VirtualHost.declare_queue
  declare_queue-Agrees h x a = init_queue_msg-Agrees env.codec law h.files h.messages x.name a

  pub delete_queue-Agrees :
      (h : Host env) (qname : Text)
      → HostAgrees env h
      → HostAgrees env (VirtualHost.delete_queue env h qname)
  unfolding VirtualHost.delete_queue
  delete_queue-Agrees h qname a = destroy_queue_msg-Agrees env.codec h.files h.messages qname a

  pub bind-Agrees :
      (h : Host env) (ename qname key : Text)
      → HostAgrees env h
      → HostAgrees env (VirtualHost.bind env h ename qname key).0
  bind-Agrees h ename qname key a = elim (bind-cases env h ename qname key) [
    | inl same ↦ subst (HostAgrees env) (sym same) a
    | inr (_, _, (_, made)) ↦ subst (HostAgrees env) (sym made) a
  ]

  pub basic_consume-Agrees :
      (h : Host env) (qname : Text)
      → HostAgrees env h
      → HostAgrees env (VirtualHost.basic_consume env h qname).0
  unfolding VirtualHost.basic_consume
  basic_consume-Agrees h qname a = front-Agrees env.codec h.files h.messages qname a

  pub basic_publish-Agrees :
      (h : Host env) (qname : Text) (bp : Option BasicProperties) (body : Text)
      → HostAgrees env h
      → Publishable env h qname bp body
      → HostAgrees env (VirtualHost.basic_publish env h qname bp body).0
  unfolding VirtualHost.basic_publish
  basic_publish-Agrees h qname bp body a fresh =
      elim (Option-cases (Queue.select_queue env.split env.queue_sql h.queues qname)) [
        | inl e ↦ rw (e, VirtualHost.basic_publish) a
        | inr (x, e) ↦
            let uuid = env.uuid h.drawn in
            elim (find_cases text_discrete qname h.messages.queue_msgs) [
              | inl absent ↦
                  let refused =
                    insert_body-refused env.codec law h.files h.messages qname bp body x.durable
                      uuid absent in
                  rw (e, VirtualHost.basic_publish) (rw refused a)
              | inr (q, there) ↦
                  rw (e, VirtualHost.basic_publish)
                    (insert_body-Agrees env.codec law h.files h.messages qname q bp body x.durable
                      uuid a there (fresh x q e there)).1
            ]
      ]

  pub basic_ack-Agrees :
      (h : Host env) (qname id : Text)
      → HostAgrees env h
      → (h' : Host env) × (VirtualHost.basic_ack env h qname id ≡ some h') × HostAgrees env h'
  unfolding VirtualHost.basic_ack
  basic_ack-Agrees h qname id a =
      let (fs, m, e, a') = ack-Agrees env.codec law h.files h.messages qname id a in
      (record h { files = fs; messages = m }, rw e refl, a')

  -- A call of the host does not stop the server, and the queues agree with their files afterwards.
  pub call-Agrees :
      (h : Host env) (k : Call env)
      → HostAgrees env h
      → Admissible env h k
      → (h' : Host env) × (call env h k ≡ some h') × HostAgrees env h'
  unfolding call
  call-Agrees h (declare_exchange x) a ok = (_, refl, unfold VirtualHost.declare_exchange in a)
  call-Agrees h (delete_exchange ename) a ok = (_, refl, unfold VirtualHost.delete_exchange in a)
  call-Agrees h (declare_queue q) a ok = (_, refl, declare_queue-Agrees h q a)
  call-Agrees h (delete_queue qname) a ok = (_, refl, delete_queue-Agrees h qname a)
  call-Agrees h (bind ename qname key) a ok = (_, refl, bind-Agrees h ename qname key a)
  call-Agrees h (unbind ename qname) a ok = (_, refl, unfold VirtualHost.unbind in a)
  call-Agrees h (basic_publish qname bp body) a ok =
      (_, refl, basic_publish-Agrees h qname bp body a ok)
  call-Agrees h (basic_consume qname) a ok = (_, refl, basic_consume-Agrees h qname a)
  call-Agrees h (basic_ack qname id) a ok = basic_ack-Agrees h qname id a
