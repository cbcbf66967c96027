-- ===== src/VirtualHost/Entries.antt =====
-- virtual_host.hpp: what a host has under a name.
use hare_mq.Base.{
  ◌≡◌, ◌⊎◌, Option, none, some, Text, text_discrete, ite, arith, find, insert, find-insert,
  find-erase, find_cases, Bool-cases, inl, inr,
}
use hare_mq.Exchange
use hare_mq.Exchange.{Exchange}
use hare_mq.Queue
use hare_mq.Queue.{MsgQueue}
use hare_mq.Binding.{Binding, find_binding}
use hare_mq.VirtualHost.{Env, Host, ◌>>=◌}
use hare_mq.VirtualHost

abbrev pub IsSome {ℓ} : {A : Type ℓ} → Option A → Type ℓ
IsSome {A} o = (a : A) × (o ≡ some a)

pub ite-none-IsSome {ℓ κ} :
    {P : Type κ} {A B : Type ℓ} (d : Dec P) (o : Option A) (o' : Option B)
    → IsSome (ite d none o)
    → IsSome o × (IsSome o' → IsSome (ite d none o'))
ite-none-IsSome (yes p) o o' (a, e) = absurd (cc)
ite-none-IsSome (no n) o o' h = (h, λ s. s)

pub ite-IsSome {ℓ κ μ} :
    {P : Type κ} {Q : Type μ} {A : Type ℓ} (d : Dec P) (d' : Dec Q) (o o' : Option A)
    → IsSome (ite d (ite d' o o') o')
    → (P × Q × IsSome o) ⊎ IsSome o'
ite-IsSome (yes p) (yes q) o o' h = inl (p, q, h)
ite-IsSome (yes p) (no n) o o' h = inr h
ite-IsSome (no n) d' o o' h = inr h

module _ (env : Env) where
  abbrev pub exchange_at : Host env → Text → Option Exchange
  exchange_at h ename = find text_discrete ename h.exchanges.exchanges

  abbrev pub queue_at : Host env → Text → Option MsgQueue
  queue_at h qname = find text_discrete qname h.queues.queues

  abbrev pub binding_at : Host env → Text → Text → Option Binding
  binding_at h ename qname = find_binding ename qname h.bindings.bindings

  pub declare_exchange-keeps :
      (h : Host env) (x : Exchange) (ename : Text)
      → IsSome (exchange_at h ename)
      → IsSome (exchange_at (VirtualHost.declare_exchange env h x).0 ename)
  unfolding VirtualHost.declare_exchange Exchange.declare_exchange
  declare_exchange-keeps h x ename (y, e) =
      elim (find_cases text_discrete x.name h.exchanges.exchanges) [
        | inl f ↦ (
          y,
          rw (f, Exchange.declare_exchange)
              (ground
                (arith, e, f, find-insert text_discrete x.name ename x h.exchanges.exchanges)),
        )
        | inr (z, f) ↦ (y, rw (f, Exchange.declare_exchange) e)
      ]

  pub delete_exchange-find :
      (h : Host env) (gone ename : Text)
      → exchange_at (VirtualHost.delete_exchange env h gone) ename
        ≡ ite (text_discrete gone ename) none (exchange_at h ename)
  unfolding VirtualHost.delete_exchange Exchange.delete_exchange
  delete_exchange-find h gone ename = elim (find_cases text_discrete gone h.exchanges.exchanges) [
    | inl e ↦ rw (e, Exchange.delete_exchange) (ground (arith, e))
    | inr (x, e) ↦
        rw (e, Exchange.delete_exchange) (find-erase text_discrete gone ename h.exchanges.exchanges)
  ]

  pub declare_queue-keeps :
      (h : Host env) (x : MsgQueue) (qname : Text)
      → IsSome (queue_at h qname)
      → IsSome (queue_at (VirtualHost.declare_queue env h x).0 qname)
  unfolding VirtualHost.declare_queue Queue.declare_queue Queue.add_queue
  declare_queue-keeps h x qname (y, e) = elim (find_cases text_discrete x.name h.queues.queues) [
    | inr (z, f) ↦ (y, rw (f, Queue.declare_queue) e)
    | inl f ↦ elim (Bool-cases x.durable) [
      | inr d ↦ (y, rw (f, Queue.declare_queue) (simp d added))
      | inl d ↦ elim (Bool-cases (Queue.mapper_insert env.split env.queue_sql h.queues.db x).1) [
        | inl w ↦ (y, rw (f, Queue.declare_queue) (simp (d, w) added))
        | inr w ↦ (y, rw (f, Queue.declare_queue) (simp (d, w) e))
      ]
    ]
  ]
    where
      added : find text_discrete qname (insert text_discrete x.name x h.queues.queues) ≡ some y
      added = ground (arith, e, find-insert text_discrete x.name qname x h.queues.queues)

  pub delete_queue-find :
      (h : Host env) (gone qname : Text)
      → queue_at (VirtualHost.delete_queue env h gone) qname
        ≡ ite (text_discrete gone qname) none (queue_at h qname)
  unfolding VirtualHost.delete_queue Queue.delete_queue
  delete_queue-find h gone qname = elim (find_cases text_discrete gone h.queues.queues) [
    | inl e ↦ rw (e, Queue.delete_queue) (ground (arith, e))
    | inr (q, e) ↦ rw (e, Queue.delete_queue) (find-erase text_discrete gone qname h.queues.queues)
  ]
