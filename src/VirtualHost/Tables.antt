-- ===== src/VirtualHost/Tables.antt =====
-- virtual_host.hpp: the calls of a host and the tables of its exchanges and queues.
use mathlib.Core.Option.{some-injective}
use hare_mq.Base.{[], ◌∷◌, ◌≡◌, sym, Option, some, Text, Option-cases, inl, inr, subst}
use hare_mq.Proto.{BasicProperties}
use hare_mq.Sqlite.{IsTable, Printable}
use hare_mq.Exchange
use hare_mq.Binding
use hare_mq.Exchange.{Exchange}
use hare_mq.Queue
use hare_mq.Queue.{MsgQueue}
use hare_mq.Message
use hare_mq.VirtualHost
use hare_mq.VirtualHost.{Env, Host, ◌>>=◌, >>=-eq-some, init_each, open_host}
use hare_mq.VirtualHost.Calls.{
  Call, declare_exchange, delete_exchange, declare_queue, delete_queue, bind, unbind, basic_publish,
  basic_consume, basic_ack, call, bind-cases,
}
use hare_mq.VirtualHost.Fifo.{queue_of}

module _ (env : Env) where
  -- The texts of the call can be printed into the statements that it sends.
  abbrev pub PrintableCall : Call env → Type 0
  PrintableCall (declare_exchange x) = Printable (Exchange.Persist.texts (Exchange.to_row x))
  PrintableCall (delete_exchange ename) = Printable (ename ∷ [])
  PrintableCall (declare_queue q) = Printable (Queue.Rows.texts (Queue.to_row q))
  PrintableCall (delete_queue qname) = Printable (qname ∷ [])
  PrintableCall (bind ename qname key) = Printable (ename ∷ qname ∷ key ∷ [])
  PrintableCall (unbind ename qname) = Printable (ename ∷ qname ∷ [])
  PrintableCall (basic_publish qname bp body) = Unit
  PrintableCall (basic_consume qname) = Unit
  PrintableCall (basic_ack qname id) = Unit

module _ (env : Env)
    (exchange_law : IsTable env.exchange_sql Exchange.Persist.texts Exchange.Persist.cond_texts
      Exchange.Persist.holds Exchange.Persist.clash)
    (queue_law : IsTable env.queue_sql Queue.Rows.texts Queue.Rows.cond_texts Queue.Rows.holds
      Queue.Rows.clash)
    (binding_law : IsTable env.binding_sql Binding.Persist.texts Binding.Persist.cond_texts
      Binding.Persist.holds Binding.Persist.clash) where
  -- The tables of the exchanges and of the queues hold the durable ones, and the table of the
  -- bindings holds nothing that is not bound.
  abbrev pub Tables : Host env → Type 0
  Tables h =
      Exchange.Persist.Inv env.split env.exchange_sql exchange_law h.exchanges
      × Queue.Persist.Inv env.split env.queue_sql queue_law h.queues
      × Binding.Restart.Inv env.binding_sql binding_law h.bindings

  bind-Tables :
      (h : Host env) (ename qname key : Text)
      → Tables h
      → Printable (ename ∷ qname ∷ key ∷ [])
      → Tables (VirtualHost.bind env h ename qname key).0
  bind-Tables h ename qname key (x, q, b) p = elim (bind-cases env h ename qname key) [
    | inl same ↦ subst Tables (sym same) (x, q, b)
    | inr (_, _, (durable, made)) ↦ subst Tables (sym made) (
      x,
      q,
      Binding.Restart.bind-Inv env.binding_sql binding_law h.bindings ename qname key durable b p,
    )
  ]

  publish-Tables :
      (h : Host env) (qname : Text) (bp : Option BasicProperties) (body : Text)
      → Tables h
      → Tables (VirtualHost.basic_publish env h qname bp body).0
  unfolding VirtualHost.basic_publish
  publish-Tables h qname bp body t = elim (Option-cases (queue_of env h qname)) [
    | inl e ↦ rw (e, VirtualHost.basic_publish) t
    | inr (x, e) ↦ rw (e, VirtualHost.basic_publish) t
  ]

  ack-Tables :
      (h h' : Host env) (qname id : Text)
      → Tables h
      → VirtualHost.basic_ack env h qname id ≡ some h'
      → Tables h'
  unfolding VirtualHost.basic_ack
  ack-Tables h h' qname id t e =
      let (_, _, made) = >>=-eq-some (Message.ack env.codec h.files h.messages qname id) _ e in
      subst Tables (some-injective _ _ made) t

  pub call-Tables :
      (h h' : Host env) (k : Call env)
      → Tables h
      → PrintableCall env k
      → call env h k ≡ some h'
      → Tables h'
  unfolding call
  call-Tables h h' k (x, q, b) = go k
    where
      same : {r : Host env} → some r ≡ some h' → Tables r → Tables h'
      same z = subst Tables (some-injective _ _ z)

      go : (k : Call env) → PrintableCall env k → call env h k ≡ some h' → Tables h'
      go (declare_exchange y) p z = same z (
          unfold VirtualHost.declare_exchange in
          (
            Exchange.Persist.declare_exchange-Inv env.split env.exchange_sql exchange_law
                h.exchanges y x p,
            q,
            b,
          ))
      go (delete_exchange ename) p z = same z (
          unfold VirtualHost.delete_exchange in
          (
            Exchange.Persist.delete_exchange-Inv env.split env.exchange_sql exchange_law h.exchanges
                ename x p,
            q,
            Binding.Restart.unbind_exchange-Inv env.binding_sql binding_law h.bindings ename b p,
          ))
      go (declare_queue y) p z = same z (
          unfold VirtualHost.declare_queue in
          (x, Queue.Persist.declare_queue-Inv env.split env.queue_sql queue_law h.queues y q p, b))
      go (delete_queue qname) p z = same z (
          unfold VirtualHost.delete_queue in
          (
            x,
            Queue.Persist.delete_queue-Inv env.split env.queue_sql queue_law h.queues qname q p,
            Binding.Restart.unbind_queue-Inv env.binding_sql binding_law h.bindings qname b p,
          ))
      go (bind ename qname key) p z = same z (bind-Tables h ename qname key (x, q, b) p)
      go (unbind ename qname) p z = same z (
          unfold VirtualHost.unbind in
          (x, q, Binding.Restart.unbind-Inv env.binding_sql binding_law h.bindings ename qname b p))
      go (basic_publish qname bp body) p z = same z (publish-Tables h qname bp body (x, q, b))
      go (basic_consume qname) p z = same z (unfold VirtualHost.basic_consume in (x, q, b))
      go (basic_ack qname id) p z = ack-Tables h h' qname id (x, q, b) z
