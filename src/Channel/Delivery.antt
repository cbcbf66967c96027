-- ===== src/Channel/Delivery.antt =====
-- channel.hpp, `consume`: what a run of the task of the thread pool sends.
use mathlib.Core.List.{append-nil}
use mathlib.Core.Option.{some-injective}
use hare_mq.Base.{
  ℕ, arith, ◌==◌, ◌≡◌, sym, ap, refl, ◌%◌, find, find_cases, text_discrete, length, get_elem?, ◌∙◌,
  Bool, true, false, List, [], ◌∷◌, ◌++◌, Option, none, some, Text, if◌then◌else◌, Option-cases,
  inl, inr,
}
use mathlib.Core.Option
use hare_mq.Proto.{Payload}
use hare_mq.Consumer
use hare_mq.Consumer.{Consumers}
use hare_mq.Consumer.Queue.{Consumer, QueueConsumer}
use hare_mq.Message.Queue.Fifo.{first}
use hare_mq.Message.Agreement.Fifo.{front-waits}
use hare_mq.VirtualHost.Fifo.{waits_at}
use hare_mq.VirtualHost
use hare_mq.VirtualHost.{Env, Host, ◌>>=◌}
use hare_mq.Channel.{Shared, Response, deliver, send, consume_cb, consume}

-- The consumer whose turn it is: the counter goes round the consumers of the queue.
abbrev pub turn_of : Option QueueConsumer → Option Consumer
turn_of none = none
turn_of (some qc) = get_elem? qc.consumers (qc.rr_seq % length qc.consumers)

abbrev pub turn : Consumers → Text → Option Consumer
turn m qname = turn_of (find text_discrete qname m)

-- The response that takes a message to a consumer, if there are both.
abbrev pub deliveries : Option Payload → Option Consumer → List (ℕ × Response)
deliveries none chosen = []
deliveries (some r) none = []
deliveries (some r) (some c) = (c.conn, deliver c.cid c.tag r.body r.properties) ∷ []

rr_choose-turn :
    (qc : QueueConsumer)
    → (Consumer.Queue.rr_choose qc).1 ≡ get_elem? qc.consumers (qc.rr_seq % length qc.consumers)
unfolding Consumer.Queue.rr_choose
rr_choose-turn qc = go qc.consumers refl
  where
    go :
        (cs : List Consumer)
        → qc.consumers ≡ cs
        → (Consumer.Queue.rr_choose qc).1 ≡ get_elem? qc.consumers (qc.rr_seq % length qc.consumers)
    go [] e = rw (e, Consumer.Queue.rr_choose) refl
    go (c ∷ cs) e =
        let some_there : (length qc.consumers == 0) ≡ false = rw e (ground arith) in
        rw (some_there, Consumer.Queue.rr_choose) refl

choose-turn : (m : Consumers) (qname : Text) → (Consumer.choose m qname).1 ≡ turn m qname
unfolding Consumer.choose
choose-turn m qname = elim (find_cases text_discrete qname m) [
  | inl e ↦ rw (e, Consumer.choose) refl
  | inr (qc, e) ↦ rw (e, Consumer.choose) (rr_choose-turn qc)
]

module _ (env : Env) where
  acked :
      (told s' : Shared env) (o : Option (Host env))
      → (do host ← o; some (record told { host = host })) ≡ some s'
      → s'.sent ≡ told.sent
  acked told s' none e = absurd (cc)
  acked told s' (some host) e = sym (ap (λ (s : Shared env). s.sent) (some-injective _ _ e))

  sent_by : {told s' : Shared env} → some told ≡ some s' → s'.sent ≡ told.sent
  sent_by e = sym (ap (λ (s : Shared env). s.sent) (some-injective _ _ e))

  finish :
      (auto_ack : Bool) (told s' : Shared env) (o : Option (Host env))
      → (if auto_ack then (do host ← o; some (record told { host = host })) else some told)
        ≡ some s'
      → s'.sent ≡ told.sent
  finish true told s' o e = acked told s' o e
  finish false told s' o e = sent_by e

  -- What is sent, by what the host and the consumers give.
  consume-sent :
      (s s' : Shared env) (qname : Text)
      → consume env s qname ≡ some s'
      → s'.sent
        ≡ s.sent
          ++ deliveries
              (Option.map (λ r. r.payload) (VirtualHost.basic_consume env s.host qname).1)
              (Consumer.choose s.consumers qname).1
  unfolding consume consume_cb send
  consume-sent s s' qname e = elim (Option-cases (VirtualHost.basic_consume env s.host qname).1) [
    | inl t ↦ rw t (sent_by (rw (t, consume) at e) ∙ sym (append-nil s.sent))
    | inr (msg, t) ↦ elim (Option-cases (Consumer.choose s.consumers qname).1) [
      | inl h ↦ rw (t, h) (sent_by (rw (t, consume, h) at e) ∙ sym (append-nil s.sent))
      | inr (c, h) ↦
          rw (t, h)
            (finish c.auto_ack
              (consume_cb env
                (record s {
                  host = (VirtualHost.basic_consume env s.host qname).0;
                  consumers = (Consumer.choose s.consumers qname).0;
                })
                c msg)
              s' _ (rw (t, consume, h) at e))
    ]
  ]

  -- If the task of the pool does not stop the server, it sends the first message that waits in its
  -- queue to the consumer at which the counter of the queue stands, modulo their number, and nothing
  -- else. It sends nothing if no message waits or there is no consumer.
  pub consume-deliveries :
      (s s' : Shared env) (qname : Text)
      → consume env s qname ≡ some s'
      → s'.sent ≡ s.sent ++ deliveries (first (waits_at env s.host qname)) (turn s.consumers qname)
  consume-deliveries s s' qname e =
      let handed : Option.map (λ r. r.payload) (VirtualHost.basic_consume env s.host qname).1
          ≡ first (waits_at env s.host qname) =
        unfold VirtualHost.basic_consume in (front-waits s.host.messages qname).0 in
      consume-sent s s' qname e
      ∙ ap (λ r. s.sent ++ deliveries r (Consumer.choose s.consumers qname).1) handed
      ∙ ap (λ c. s.sent ++ deliveries (first (waits_at env s.host qname)) c)
          (choose-turn s.consumers qname)
