-- ===== src/VirtualHost/Sound.antt =====
-- virtual_host.hpp: hosts on which no call and no query runs into an assertion.
use mathlib.Core.Option.{some-injective}
use hare_mq.Base.{◌≡◌, sym, Option, some, Text, Option-cases, inl, inr, subst}
use hare_mq.Proto.{BasicProperties}
use hare_mq.Files.{Files}
use hare_mq.Exchange
use hare_mq.Exchange.{Exchange}
use hare_mq.Queue
use hare_mq.Queue.{MsgQueue}
use hare_mq.Binding
use hare_mq.Message
use hare_mq.Message.Mapper.{IsCodec}
use hare_mq.VirtualHost
use hare_mq.VirtualHost.{Env, Host, ◌>>=◌, >>=-eq-some, init_each, open_host}
use hare_mq.VirtualHost.Calls.{bind-cases}
use hare_mq.VirtualHost.Query.Filed.{
  Filed, bind-Filed, unbind-Filed, unbind_exchange-Filed, unbind_queue-Filed, open_manager-Filed,
}
use hare_mq.VirtualHost.Safety.{
  HostAgrees, Publishable, declare_queue-Agrees, delete_queue-Agrees, bind-Agrees,
  basic_consume-Agrees, basic_publish-Agrees, basic_ack-Agrees,
}
use hare_mq.VirtualHost.Safety.Start.{RecoverableIn, open_host-Agrees}

module _ (env : Env) where
  abbrev HostFiled : Host env → Type 0
  HostFiled h = Filed h.bindings.bindings

  -- The queues agree with their data files, and each binding stands in the map of its exchange.
  abbrev pub HostSound : Host env → Type 0
  HostSound h = HostAgrees env h × HostFiled h

  pub declare_exchange-Sound :
      (h : Host env) (x : Exchange)
      → HostSound h
      → HostSound (VirtualHost.declare_exchange env h x).0
  unfolding VirtualHost.declare_exchange
  declare_exchange-Sound h x s = s

  pub delete_exchange-Sound :
      (h : Host env) (ename : Text)
      → HostSound h
      → HostSound (VirtualHost.delete_exchange env h ename)
  unfolding VirtualHost.delete_exchange
  delete_exchange-Sound h ename (a, f) =
      (a, unbind_exchange-Filed env.binding_sql h.bindings ename f)

  pub unbind-Sound :
      (h : Host env) (ename qname : Text)
      → HostSound h
      → HostSound (VirtualHost.unbind env h ename qname)
  unfolding VirtualHost.unbind
  unbind-Sound h ename qname (a, f) = (a, unbind-Filed env.binding_sql h.bindings ename qname f)

  bind-HostFiled :
      (h : Host env) (ename qname key : Text)
      → HostFiled h
      → HostFiled (VirtualHost.bind env h ename qname key).0
  bind-HostFiled h ename qname key f = elim (bind-cases env h ename qname key) [
    | inl same ↦ subst HostFiled (sym same) f
    | inr (_, _, (durable, made)) ↦
        subst HostFiled (sym made) (bind-Filed env.binding_sql h.bindings ename qname key durable f)
  ]

  publish-HostFiled :
      (h : Host env) (qname : Text) (bp : Option BasicProperties) (body : Text)
      → HostFiled h
      → HostFiled (VirtualHost.basic_publish env h qname bp body).0
  unfolding VirtualHost.basic_publish
  publish-HostFiled h qname bp body f =
      elim (Option-cases (Queue.select_queue env.split env.queue_sql h.queues qname)) [
        | inl e ↦ rw (e, VirtualHost.basic_publish) f
        | inr (x, e) ↦ rw (e, VirtualHost.basic_publish) f
      ]

  ack-HostFiled :
      (h h' : Host env) (qname id : Text)
      → HostFiled h
      → VirtualHost.basic_ack env h qname id ≡ some h'
      → HostFiled h'
  unfolding VirtualHost.basic_ack
  ack-HostFiled h h' qname id f e =
      let (_, _, made) = >>=-eq-some (Message.ack env.codec h.files h.messages qname id) _ e in
      subst HostFiled (some-injective _ _ made) f

module _ (env : Env) (law : IsCodec env.codec) where
  pub declare_queue-Sound :
      (h : Host env) (x : MsgQueue)
      → HostSound env h
      → HostSound env (VirtualHost.declare_queue env h x).0
  declare_queue-Sound h x (a, f) =
      (declare_queue-Agrees env law h x a, unfold VirtualHost.declare_queue in f)

  pub delete_queue-Sound :
      (h : Host env) (qname : Text)
      → HostSound env h
      → HostSound env (VirtualHost.delete_queue env h qname)
  delete_queue-Sound h qname (a, f) = (
    delete_queue-Agrees env law h qname a,
    unfold VirtualHost.delete_queue in unbind_queue-Filed env.binding_sql h.bindings qname f,
  )

  pub bind-Sound :
      (h : Host env) (ename qname key : Text)
      → HostSound env h
      → HostSound env (VirtualHost.bind env h ename qname key).0
  bind-Sound h ename qname key (a, f) =
      (bind-Agrees env law h ename qname key a, bind-HostFiled env h ename qname key f)

  pub basic_consume-Sound :
      (h : Host env) (qname : Text)
      → HostSound env h
      → HostSound env (VirtualHost.basic_consume env h qname).0
  basic_consume-Sound h qname (a, f) =
      (basic_consume-Agrees env law h qname a, unfold VirtualHost.basic_consume in f)

  pub basic_publish-Sound :
      (h : Host env) (qname : Text) (bp : Option BasicProperties) (body : Text)
      → HostSound env h
      → Publishable env h qname bp body
      → HostSound env (VirtualHost.basic_publish env h qname bp body).0
  basic_publish-Sound h qname bp body (a, f) fresh = (
    basic_publish-Agrees env law h qname bp body a fresh,
    publish-HostFiled env h qname bp body f,
  )

  pub basic_ack-Sound :
      (h : Host env) (qname id : Text)
      → HostSound env h
      → (h' : Host env) × (VirtualHost.basic_ack env h qname id ≡ some h') × HostSound env h'
  basic_ack-Sound h qname id (a, f) =
      let (h', e, a') = basic_ack-Agrees env law h qname id a in
      (h', e, (a', ack-HostFiled env h h' qname id f e))

  open_host-HostFiled :
      (base_dir : Text) (fs : Files) (exchange_db : env.exchange_sql.Db)
      (queue_db : env.queue_sql.Db) (binding_db : env.binding_sql.Db) (h : Host env)
      → open_host env base_dir fs exchange_db queue_db binding_db ≡ some h
      → Filed h.bindings.bindings
  unfolding open_host
  open_host-HostFiled base_dir fs exchange_db queue_db binding_db h e =
      let (emp, _, e₁) =
        >>=-eq-some (Exchange.open_manager env.split env.exchange_sql exchange_db) _ e in
      let (mqmp, _, e₂) = >>=-eq-some (Queue.open_manager env.split env.queue_sql queue_db) _ e₁ in
      let (bmp, made, e₃) = >>=-eq-some (Binding.open_manager env.binding_sql binding_db) _ e₂ in
      subst (λ (r : Host env). Filed r.bindings.bindings) (some-injective _ _ e₃)
        (open_manager-Filed env.binding_sql binding_db bmp made)

  pub open_host-Sound :
      (base_dir : Text) (fs : Files) (exchange_db : env.exchange_sql.Db)
      (queue_db : env.queue_sql.Db) (binding_db : env.binding_sql.Db) (h : Host env)
      → open_host env base_dir fs exchange_db queue_db binding_db ≡ some h
      → RecoverableIn env.codec base_dir fs
      → HostSound env h
  open_host-Sound base_dir fs exchange_db queue_db binding_db h e r = (
    open_host-Agrees env law base_dir fs exchange_db queue_db binding_db h e r,
    open_host-HostFiled base_dir fs exchange_db queue_db binding_db h e,
  )
