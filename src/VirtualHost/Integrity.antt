-- ===== src/VirtualHost/Integrity.antt =====
-- virtual_host.hpp: no binding outlives its exchange or its queue.
use mathlib.Core.Option.{some-injective}
use hare_mq.Message
use hare_mq.Base.{
  ◌≡◌, sym, Bool, Option, none, some, Text, text_discrete, ite, Option-cases, inl, inr, subst,
}
use hare_mq.Proto.{BasicProperties}
use hare_mq.Exchange.{Exchange}
use hare_mq.Queue
use hare_mq.Queue.{MsgQueue}
use hare_mq.Binding
use hare_mq.Binding.{Binding, find_binding}
use hare_mq.Binding.Removal.{
  bind-Changed, unbind-Changed, get_binding-unbind_exchange, get_binding-unbind_queue,
}
use hare_mq.Files.{Files}
use hare_mq.VirtualHost.{Env, Host, ◌>>=◌}
use hare_mq.VirtualHost
use hare_mq.VirtualHost.Entries.{
  IsSome, ite-none-IsSome, ite-IsSome, exchange_at, queue_at, binding_at, declare_exchange-keeps,
  delete_exchange-find, declare_queue-keeps, delete_queue-find,
}
use hare_mq.VirtualHost.Calls.{
  Call, declare_exchange, delete_exchange, declare_queue, delete_queue, bind, unbind, basic_publish,
  basic_consume, basic_ack, call, bind-cases,
}

module _ (env : Env) where
  -- What is bound exists.
  unfoldable pub Integrity : Host env → Type 0
  Integrity h =
      (ename qname : Text)
      → IsSome (binding_at env h ename qname)
      → IsSome (exchange_at env h ename) × IsSome (queue_at env h qname)

  declare_exchange-Integrity :
      (h : Host env) (x : Exchange)
      → Integrity h
      → Integrity (VirtualHost.declare_exchange env h x).0
  unfolding Integrity VirtualHost.declare_exchange
  declare_exchange-Integrity h x v ename qname b = (
    unfold VirtualHost.declare_exchange in declare_exchange-keeps env h x ename (v ename qname b).0,
    (v ename qname b).1,
  )

  declare_queue-Integrity :
      (h : Host env) (x : MsgQueue) → Integrity h → Integrity (VirtualHost.declare_queue env h x).0
  unfolding Integrity VirtualHost.declare_queue
  declare_queue-Integrity h x v ename qname b = (
    (v ename qname b).0,
    unfold VirtualHost.declare_queue in declare_queue-keeps env h x qname (v ename qname b).1,
  )

  delete_exchange-Integrity :
      (h : Host env) (gone : Text)
      → Integrity h
      → Integrity (VirtualHost.delete_exchange env h gone)
  unfolding Integrity
  delete_exchange-Integrity h gone v ename qname s =
      let (was, keeps) =
        ite-none-IsSome (text_discrete gone ename) (binding_at env h ename qname)
          (exchange_at env h ename) (subst IsSome removed s) in
      let (x, q) = v ename qname was in
      (
        subst IsSome (sym (delete_exchange-find env h gone ename)) (keeps x),
        unfold VirtualHost.delete_exchange in q,
      )
    where
      removed :
          binding_at env (VirtualHost.delete_exchange env h gone) ename qname
          ≡ ite (text_discrete gone ename) none (binding_at env h ename qname)
      removed =
          unfold VirtualHost.delete_exchange Binding.get_binding in
          get_binding-unbind_exchange env.binding_sql h.bindings gone ename qname

  delete_queue-Integrity :
      (h : Host env) (gone : Text) → Integrity h → Integrity (VirtualHost.delete_queue env h gone)
  unfolding Integrity
  delete_queue-Integrity h gone v ename qname s =
      let (was, keeps) =
        ite-none-IsSome (text_discrete gone qname) (binding_at env h ename qname)
          (queue_at env h qname) (subst IsSome removed s) in
      let (x, q) = v ename qname was in
      (
        unfold VirtualHost.delete_queue in x,
        subst IsSome (sym (delete_queue-find env h gone qname)) (keeps q),
      )
    where
      removed :
          binding_at env (VirtualHost.delete_queue env h gone) ename qname
          ≡ ite (text_discrete gone qname) none (binding_at env h ename qname)
      removed =
          unfold VirtualHost.delete_queue Binding.get_binding in
          get_binding-unbind_queue env.binding_sql h.bindings gone ename qname

  unbind-Integrity :
      (h : Host env) (e q : Text) → Integrity h → Integrity (VirtualHost.unbind env h e q)
  unfolding Integrity VirtualHost.unbind
  unbind-Integrity h e q v ename qname s =
      elim (ite-IsSome (text_discrete e ename) (text_discrete q qname) none
        (binding_at env h ename qname)
        (subst IsSome (unbind-Changed env.binding_sql h.bindings e q ename qname) s)) [
          | inl (_, _, (_, z)) ↦ absurd (cc)
          | inr was ↦ v ename qname was
        ]

  manager_bind-Integrity :
      (h : Host env) (e q key : Text) (durable : Bool)
      → IsSome (exchange_at env h e)
      → IsSome (queue_at env h q)
      → Integrity h
      → Integrity
          (record h { bindings = (Binding.bind env.binding_sql h.bindings e q key durable).0 })
  unfolding Integrity
  manager_bind-Integrity h e q key durable x y v ename qname s =
      elim (ite-IsSome (text_discrete e ename) (text_discrete q qname) _
        (binding_at env h ename qname)
        (subst IsSome ((bind-Changed env.binding_sql h.bindings e q key durable).0 ename qname)
          s)) [
            | inl (at, at', _) ↦ (
              subst (λ k. IsSome (exchange_at env h k)) at x,
              subst (λ k. IsSome (queue_at env h k)) at' y,
            )
            | inr was ↦ v ename qname was
          ]

  bind-Integrity :
      (h : Host env) (e q key : Text) → Integrity h → Integrity (VirtualHost.bind env h e q key).0
  bind-Integrity h e q key v = elim (bind-cases env h e q key) [
    | inl same ↦ subst Integrity (sym same) v
    | inr (x, y, (durable, made)) ↦
        subst Integrity (sym made) (manager_bind-Integrity h e q key durable x y v)
  ]

  publish-Integrity :
      (h : Host env) (q : Text) (bp : Option BasicProperties) (body : Text)
      → Integrity h
      → Integrity (VirtualHost.basic_publish env h q bp body).0
  unfolding Integrity VirtualHost.basic_publish
  publish-Integrity h q bp body v =
      elim (Option-cases (Queue.select_queue env.split env.queue_sql h.queues q)) [
        | inl e ↦ rw (e, VirtualHost.basic_publish) v
        | inr (x, e) ↦ rw (e, VirtualHost.basic_publish) v
      ]

  ack-Integrity :
      (h h' : Host env) (q id : Text)
      → Integrity h
      → VirtualHost.basic_ack env h q id ≡ some h'
      → Integrity h'
  unfolding VirtualHost.basic_ack
  ack-Integrity h h' q id v e = acked (Message.ack env.codec h.files h.messages q id) e
    where
      acked :
          (o : Option (Files × Message.Manager))
          → (do (fs, mmp) ← o; some (record h { files = fs; messages = mmp })) ≡ some h'
          → Integrity h'
      acked none z = absurd (cc)
      acked (some r) z = unfold Integrity in subst Integrity (some-injective _ _ z) v

  call-Integrity :
      (h h' : Host env) (k : Call env) → Integrity h → call env h k ≡ some h' → Integrity h'
  unfolding call
  call-Integrity h h' (declare_exchange x) v e =
      subst Integrity (some-injective _ _ e) (declare_exchange-Integrity h x v)
  call-Integrity h h' (delete_exchange ename) v e =
      subst Integrity (some-injective _ _ e) (delete_exchange-Integrity h ename v)
  call-Integrity h h' (declare_queue q) v e =
      subst Integrity (some-injective _ _ e) (declare_queue-Integrity h q v)
  call-Integrity h h' (delete_queue qname) v e =
      subst Integrity (some-injective _ _ e) (delete_queue-Integrity h qname v)
  call-Integrity h h' (bind ename qname key) v e =
      subst Integrity (some-injective _ _ e) (bind-Integrity h ename qname key v)
  call-Integrity h h' (unbind ename qname) v e =
      subst Integrity (some-injective _ _ e) (unbind-Integrity h ename qname v)
  call-Integrity h h' (basic_publish qname bp body) v e =
      subst Integrity (some-injective _ _ e) (publish-Integrity h qname bp body v)
  call-Integrity h h' (basic_consume qname) v e =
      subst Integrity (some-injective _ _ e) (unfold Integrity VirtualHost.basic_consume in v)
  call-Integrity h h' (basic_ack qname id) v e = ack-Integrity h h' qname id v e

  -- The calls that have succeeded lead from one host to another.
  pub data Reach (h : Host env) : Host env → Type 0 where
    here : Reach h h
    next :
        {h' h'' : Host env} → Reach h h' → (k : Call env) → call env h' k ≡ some h'' → Reach h h''

  -- If every bound pair consists of an exchange and a queue that exist, this stays so whatever
  -- calls of the host follow, calls that are refused included, as long as no assertion stops
  -- the server.
  pub Reach-Integrity : {h h' : Host env} → Reach h h' → Integrity h → Integrity h'
  Reach-Integrity here v = v
  Reach-Integrity (next r k e) v = call-Integrity _ _ k (Reach-Integrity r v) e
