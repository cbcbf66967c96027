-- ===== src/VirtualHost/Calls.antt =====
-- virtual_host.hpp: the calls of a host as one step of it.
use hare_mq.Base.{
  ◌≡◌, refl, ◌⊎◌, Bool, ◌&&◌, Option, some, Text, text_discrete, find_cases, inl, inr,
}
use hare_mq.Proto.{BasicProperties}
use hare_mq.Exchange
use hare_mq.Exchange.{Exchange}
use hare_mq.Queue
use hare_mq.Queue.{MsgQueue}
use hare_mq.Binding
use hare_mq.Binding.{Binding, find_binding}
use hare_mq.VirtualHost.{Env, Host, ◌>>=◌}
use hare_mq.VirtualHost
use hare_mq.VirtualHost.Entries.{IsSome, exchange_at, queue_at}

module _ (env : Env) where
  -- The calls of a host.
  pub data Call : Type 0 where
    declare_exchange : Exchange → Call
    delete_exchange : Text → Call
    declare_queue : MsgQueue → Call
    delete_queue : Text → Call
    bind : (ename qname key : Text) → Call
    unbind : (ename qname : Text) → Call
    basic_publish : (qname : Text) → Option BasicProperties → (body : Text) → Call
    basic_consume : (qname : Text) → Call
    basic_ack : (qname id : Text) → Call

  -- `none` is the failed `assert` of a collection.
  unfoldable pub call : Host env → Call → Option (Host env)
  call h (declare_exchange x) = some (VirtualHost.declare_exchange env h x).0
  call h (delete_exchange ename) = some (VirtualHost.delete_exchange env h ename)
  call h (declare_queue q) = some (VirtualHost.declare_queue env h q).0
  call h (delete_queue qname) = some (VirtualHost.delete_queue env h qname)
  call h (bind ename qname key) = some (VirtualHost.bind env h ename qname key).0
  call h (unbind ename qname) = some (VirtualHost.unbind env h ename qname)
  call h (basic_publish qname bp body) = some (VirtualHost.basic_publish env h qname bp body).0
  call h (basic_consume qname) = some (VirtualHost.basic_consume env h qname).0
  call h (basic_ack qname id) = VirtualHost.basic_ack env h qname id

  -- `bind` does nothing, or the exchange and the queue are there and the manager binds them.
  pub bind-cases :
      (h : Host env) (e q key : Text)
      → ((VirtualHost.bind env h e q key).0 ≡ h)
        ⊎ (IsSome (exchange_at env h e)
            × IsSome (queue_at env h q)
            × ((durable : Bool) × ((VirtualHost.bind env h e q key).0 ≡ record h {
              bindings = (Binding.bind env.binding_sql h.bindings e q key durable).0;
            })))
  unfolding VirtualHost.bind Exchange.select_exchange Queue.select_queue
  bind-cases h e q key = elim (find_cases text_discrete e h.exchanges.exchanges) [
    | inl f ↦ inl (rw (f, VirtualHost.bind) refl)
    | inr (x, f) ↦ elim (find_cases text_discrete q h.queues.queues) [
      | inl g ↦ inl (rw (f, VirtualHost.bind, g) refl)
      | inr (y, g) ↦
          inr ((x, f), (y, g), (x.durable && y.durable, rw (f, VirtualHost.bind, g) refl))
    ]
  ]
