-- ===== src/VirtualHost/Restart.antt =====
-- virtual_host.hpp: a host that is opened on the files of another one.
use mathlib.Core.Option.{some-injective}
use hare_mq.Base.{
  ◌≡◌, refl, sym, ap, ◌∙◌, List, [], ◌∷◌, map, some, Text, text_discrete, find, Map, arith,
}
use hare_mq.Proto.{Payload}
use hare_mq.Files.{Files}
use hare_mq.Exchange
use hare_mq.Queue
use hare_mq.Queue.{MsgQueue}
use hare_mq.Binding
use hare_mq.Message
use hare_mq.Message.Agreement.{Agrees}
use hare_mq.Message.Agreement.Fifo.{waits, waits_of, waits-find}
use hare_mq.Message.Agreement.Recovered.{recoverable, opened}
use hare_mq.Message.Agreement.Opened.{
  content, init_queue_msg-find_self, init_queue_msg-find_other, init_queue_msg-content,
}
use hare_mq.Message.Agreement.Queues.{init_queue_msg-Agrees}
use hare_mq.Message.Agreement.Restart.{Durable, recoverable-Durable, restart-Agrees}
use hare_mq.Message.Mapper.{IsCodec}
use hare_mq.Message.Queue.{QueueMessage}
use hare_mq.VirtualHost.{Env, Host, >>=-eq-some, init_each, open_host}
use hare_mq.VirtualHost.Fifo.{waits_at, queue_of}
use hare_mq.VirtualHost.Safety.{HostAgrees}

module _ (env : Env) where
  -- A store that is there stays, and each queue of the loop gets one.
  init_each-find_there :
      (fs : Files) (m : Message.Manager) (qs : Map Text MsgQueue) (other : Text) (q : QueueMessage)
      → find text_discrete other m.queue_msgs ≡ some q
      → (q' : QueueMessage) × (find text_discrete other (init_each env fs m qs).1.queue_msgs
          ≡ some q')
  unfolding init_each
  init_each-find_there fs m [] other q there = (q, there)
  init_each-find_there fs m ((qname, x) ∷ qs) other q there =
      let (fs', m') = Message.init_queue_msg env.codec fs m qname in
      elim (text_discrete other qname) [
        | yes same ↦
            let (q', there') = init_queue_msg-find_self env.codec fs m qname in
            init_each-find_there fs' m' qs other q'
              (ap (λ k. find text_discrete k m'.queue_msgs) same ∙ there')
        | no differ ↦
            init_each-find_there fs' m' qs other q
              (init_queue_msg-find_other env.codec fs m qname other differ ∙ there)
      ]

  init_each-find :
      (fs : Files) (m : Message.Manager) (qs : Map Text MsgQueue) (other : Text) (x : MsgQueue)
      → find text_discrete other qs ≡ some x
      → (q' : QueueMessage) × (find text_discrete other (init_each env fs m qs).1.queue_msgs
          ≡ some q')
  unfolding init_each find
  init_each-find fs m [] other x known = absurd (cc)
  init_each-find fs m ((qname, y) ∷ qs) other x known =
      let (fs', m') = Message.init_queue_msg env.codec fs m qname in
      elim (text_discrete qname other) [
        | yes same ↦
            let (q', there') = init_queue_msg-find_self env.codec fs m qname in
            init_each-find_there fs' m' qs other q'
              (ap (λ k. find text_discrete k m'.queue_msgs) (sym same) ∙ there')
        | no differ ↦ init_each-find fs' m' qs other x (ground (arith, differ, known))
      ]

module _ (env : Env) (law : IsCodec env.codec) where
  init_each-content :
      (fs : Files) (m : Message.Manager) (qs : Map Text MsgQueue) (other : Text)
      → Agrees env.codec fs m
      → let (fs', m') = init_each env fs m qs in
        content env.codec fs' m' other ≡ content env.codec fs m other
  unfolding init_each
  init_each-content fs m [] other a = refl
  init_each-content fs m ((qname, x) ∷ qs) other a =
      let (fs', m') = Message.init_queue_msg env.codec fs m qname in
      init_each-content fs' m' qs other (init_queue_msg-Agrees env.codec law fs m qname a)
      ∙ init_queue_msg-content env.codec law fs m qname other a

  -- A queue that the loop reads back has the messages of its data file.
  init_each-waits :
      (fs : Files) (base_dir : Text) (qs : Map Text MsgQueue) (other : Text) (x : MsgQueue)
      → Agrees env.codec fs (Message.new base_dir)
      → find text_discrete other qs ≡ some x
      → waits (init_each env fs (Message.new base_dir) qs).1 other
        ≡ recoverable env.codec fs (Message.new base_dir) other
  unfolding find
  init_each-waits fs base_dir qs other x a known =
      let (fs', m') = init_each env fs (Message.new base_dir) qs in
      let (q', there) = init_each-find env fs (Message.new base_dir) qs other x known in
      let started : waits m' other ≡ opened (some q') (recoverable env.codec fs' m' other) =
        unfold waits_of in waits-find m' other (some q') there in
      started
      ∙ ap (λ o. opened o (recoverable env.codec fs' m' other)) (sym there)
      ∙ init_each-content fs (Message.new base_dir) qs other a

  -- For a codec with the documented laws: if every queue of a host agrees with its data file when
  -- the server ends, and a new host is opened on these files, whatever the tables of the database
  -- hold, then a queue that is read back and had a store delivers exactly the durable messages that
  -- it knew, those that waited for their delivery and those that waited for their acknowledgement,
  -- each of them once.
  pub open_host-Durable :
      (h h' : Host env) (exchange_db : env.exchange_sql.Db) (queue_db : env.queue_sql.Db)
      (binding_db : env.binding_sql.Db) (qname : Text) (x : MsgQueue) (q : QueueMessage)
      → HostAgrees env h
      → open_host env h.messages.base_dir h.files exchange_db queue_db binding_db ≡ some h'
      → queue_of env h' qname ≡ some x
      → find text_discrete qname h.messages.queue_msgs ≡ some q
      → (rs : List Payload) × (waits_at env h' qname ≡ map some rs) × Durable env.codec law q rs
  unfolding open_host Queue.select_queue find
  open_host-Durable h h' exchange_db queue_db binding_db qname x q a e known there =
      let (emp, _, e₁) =
        >>=-eq-some (Exchange.open_manager env.split env.exchange_sql exchange_db) _ e in
      let (mqmp, _, e₂) = >>=-eq-some (Queue.open_manager env.split env.queue_sql queue_db) _ e₁ in
      let (bmp, _, e₃) = >>=-eq-some (Binding.open_manager env.binding_sql binding_db) _ e₂ in
      let is = some-injective _ _ e₃ in
      let (rs, holds, durable) =
        recoverable-Durable env.codec law h.files h.messages qname q a there in
      (
        rs,
        ap (λ (r : Host env). waits_at env r qname) (sym is)
            ∙ init_each-waits h.files h.messages.base_dir mqmp.queues qname x
                (restart-Agrees env.codec law h.files h.messages a)
                (ap (λ (r : Host env). find text_discrete qname r.queues.queues) is ∙ known)
            ∙ holds,
        durable,
      )
