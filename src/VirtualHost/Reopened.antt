-- ===== src/VirtualHost/Reopened.antt =====
-- virtual_host.hpp: calls of a host, and the host that is opened on its files and tables.
use hare_mq.Base.{
  Distinct, text_discrete, ◌≡◌, refl, sym, ap, ◌∙◌, true, List, [], ◌∷◌, map, some, Text, if_true,
}
use hare_mq.Proto.{Payload}
use hare_mq.Files.{Files}
use hare_mq.Sqlite.{IsTable}
use hare_mq.Exchange
use hare_mq.Exchange.{Exchange}
use hare_mq.Queue
use hare_mq.Queue.{MsgQueue}
use hare_mq.Binding
use hare_mq.Binding.{Binding, BindingCond}
use hare_mq.Message
use hare_mq.Message.Agreement.Restart.{Durable}
use hare_mq.Message.Mapper.{IsCodec}
use hare_mq.Message.Queue.{QueueMessage}
use hare_mq.VirtualHost.{Env, Host, init_each, open_host}
use hare_mq.VirtualHost.Calls.{Call}
use hare_mq.VirtualHost.Fifo.{waits_at, queue_of, store_of}
use hare_mq.VirtualHost.Restart.{open_host-Durable}
use hare_mq.VirtualHost.Safety.{HostAgrees, call-Agrees}
use hare_mq.VirtualHost.Safety.Start.{AllAdmissible, run}
use hare_mq.Split.{All, SplitsJoined}
use hare_mq.Args.Roundtrip.{IsPlain}
use hare_mq.VirtualHost.Tables.{PrintableCall, Tables, call-Tables}

module _ (env : Env) (law : IsCodec env.codec)
    (exchange_law : IsTable env.exchange_sql Exchange.Persist.texts Exchange.Persist.cond_texts
      Exchange.Persist.holds Exchange.Persist.clash)
    (queue_law : IsTable env.queue_sql Queue.Rows.texts Queue.Rows.cond_texts Queue.Rows.holds
      Queue.Rows.clash)
    (binding_law : IsTable env.binding_sql Binding.Persist.texts Binding.Persist.cond_texts
      Binding.Persist.holds Binding.Persist.clash) where
  run-kept :
      (h : Host env) (ks : List (Call env))
      → HostAgrees env h
      → Tables env exchange_law queue_law binding_law h
      → AllAdmissible env h ks
      → All (PrintableCall env) ks
      → (h' : Host env) × (run env h ks ≡ some h')
        × HostAgrees env h'
        × Tables env exchange_law queue_law binding_law h'
  unfolding run
  run-kept h [] a t ok ps = (h, refl, a, t)
  run-kept h (k ∷ ks) a t (ok, later) (p, ps) =
      let (h₁, e, a₁) = call-Agrees env law h k a ok in
      let (h', e', a', t') =
        run-kept h₁ ks a₁ (call-Tables env exchange_law queue_law binding_law h h₁ k t p e)
          (later h₁ e) ps in
      (h', rw (e, run) e', a', t')

  -- What the host `h'` has of the host `h`: the durable exchanges and the durable queues, but
  -- for their arguments, in each durable queue the durable messages that it knew, and no
  -- binding that `h` has not.
  abbrev pub Restored : Host env → Host env → Type 0
  Restored h h' =
      ((ename : Text)
        → Exchange.select_exchange env.split env.exchange_sql h'.exchanges ename
          ≡ Exchange.Persist.exchange_survives env.split
              (Exchange.select_exchange env.split env.exchange_sql h.exchanges ename))
      × ((qname : Text)
          → queue_of env h' qname ≡ Queue.Rows.survives env.split (queue_of env h qname))
      × ((qname : Text) (x : MsgQueue) (q : QueueMessage)
          → queue_of env h qname ≡ some x
          → x.durable ≡ true
          → store_of env h qname ≡ some q
          → (rs : List Payload) × (waits_at env h' qname ≡ map some rs)
            × Durable env.codec law q rs)
      × ((ename qname : Text) (b : Binding)
          → Binding.get_binding env.binding_sql h'.bindings ename qname ≡ some b
          → Binding.get_binding env.binding_sql h.bindings ename qname ≡ some b)
      × ((ename : Text) (x : Exchange)
          → Exchange.select_exchange env.split env.exchange_sql h.exchanges ename ≡ some x
          → x.durable ≡ true
          → IsPlain x.args
          → Distinct text_discrete x.args
          → Exchange.select_exchange env.split env.exchange_sql h'.exchanges ename
            ≡ some (Exchange.Persist.plainly x))
      × ((qname : Text) (x : MsgQueue)
          → queue_of env h qname ≡ some x
          → x.durable ≡ true
          → IsPlain x.args
          → Distinct text_discrete x.args
          → queue_of env h' qname ≡ some (Queue.Rows.plainly x))

  made :
      (base_dir : Text) (fs : Files) (exchange_db : env.exchange_sql.Db)
      (queue_db : env.queue_sql.Db) (binding_db : env.binding_sql.Db)
      (emp : Exchange.Manager env.split env.exchange_sql)
      (mqmp : Queue.Manager env.split env.queue_sql) (bmp : Binding.Manager env.binding_sql)
      → Exchange.open_manager env.split env.exchange_sql exchange_db ≡ some emp
      → Queue.open_manager env.split env.queue_sql queue_db ≡ some mqmp
      → Binding.open_manager env.binding_sql binding_db ≡ some bmp
      → (h' : Host env) × (open_host env base_dir fs exchange_db queue_db binding_db ≡ some h')
        × (h'.exchanges ≡ emp)
        × (h'.queues ≡ mqmp)
        × (h'.bindings ≡ bmp)
  unfolding open_host
  made base_dir fs exchange_db queue_db binding_db emp mqmp bmp e₁ e₂ e₃ =
      let (fs', mmp) = init_each env fs (Message.new base_dir) mqmp.queues in
      let h' : Host env = record {
        files = fs';
        exchanges = emp;
        queues = mqmp;
        bindings = bmp;
        messages = mmp;
        drawn = 0;
      } in
      (h', rw (e₁, e₂, e₃) refl, refl, refl, refl)

  open_host-Restored :
      (h : Host env)
      → SplitsJoined env.split
      → HostAgrees env h
      → Tables env exchange_law queue_law binding_law h
      → (h' : Host env) × (open_host env h.messages.base_dir h.files h.exchanges.db h.queues.db
            h.bindings.db
          ≡ some h')
        × Restored h h'
  open_host-Restored h joined a (x, q, b) =
      let (emp, e₁, exchanges) =
        Exchange.Persist.reopen env.split env.exchange_sql exchange_law h.exchanges x in
      let (mqmp, e₂, queues) = Queue.Persist.reopen env.split env.queue_sql queue_law h.queues q in
      let (bmp, e₃, bound) = Binding.Restart.reopen env.binding_sql binding_law h.bindings b in
      let opened : (h' : Host env) × (open_host env h.messages.base_dir h.files h.exchanges.db
              h.queues.db h.bindings.db
            ≡ some h')
          × (h'.exchanges ≡ emp)
          × (h'.queues ≡ mqmp)
          × (h'.bindings ≡ bmp) =
        made h.messages.base_dir h.files h.exchanges.db h.queues.db h.bindings.db emp mqmp bmp e₁ e₂
          e₃ in
      let (h', e, x_is, q_is, b_is) = opened in
      let exchanges' : (ename : Text)
          → Exchange.select_exchange env.split env.exchange_sql h'.exchanges ename
            ≡ Exchange.Persist.exchange_survives env.split
                (Exchange.select_exchange env.split env.exchange_sql h.exchanges ename) =
        λ ename.
          ap (λ r. Exchange.select_exchange env.split env.exchange_sql r ename) x_is
          ∙ exchanges ename in
      let queues' : (qname : Text)
          → queue_of env h' qname ≡ Queue.Rows.survives env.split (queue_of env h qname) =
        λ qname. ap (λ r. Queue.select_queue env.split env.queue_sql r qname) q_is ∙ queues qname in
      (
        h',
        e,
        (
          exchanges',
          queues',
          λ qname y store known durable there.
              open_host-Durable env law h h' h.exchanges.db h.queues.db h.bindings.db qname _ store
                a e
                (queues' qname
                  ∙ ap (Queue.Rows.survives env.split) known
                  ∙ if_true y.durable _ _ durable)
                there,
          λ ename qname y known.
              bound ename qname y
                (ap (λ r. Binding.get_binding env.binding_sql r ename qname) (sym b_is) ∙ known),
          λ ename y known durable plain distinct.
              exchanges' ename
              ∙ ap (Exchange.Persist.exchange_survives env.split) known
              ∙ Exchange.Persist.survives-plainly env.split y joined durable plain distinct,
          λ qname y known durable plain distinct.
              queues' qname
              ∙ ap (Queue.Rows.survives env.split) known
              ∙ Queue.Rows.survives-plainly env.split y joined durable plain distinct,
        ),
      )

  -- For a codec, a splitter and tables with the documented laws: if the queues of a host agree with their data
  -- files, the tables of the exchanges and of the queues hold the durable ones, that of the
  -- bindings nothing that is not bound, each call is admissible when its turn comes, and its texts
  -- can be printed into its statements, then no call stops the server, and a new host can be opened
  -- on the files and the tables that the calls leave. It has exactly the durable exchanges and the
  -- durable queues, the same but for arguments that were written out and read back, and no binding
  -- that was not there. Where the arguments are plain and have no key twice, they are the same but
  -- for an extra argument with the empty key, unless that is there. In each durable queue that had a store, exactly the durable messages that
  -- the queue knew wait for their delivery, each of them once.
  pub run-Restored :
      (h : Host env) (ks : List (Call env))
      → SplitsJoined env.split
      → HostAgrees env h
      → Tables env exchange_law queue_law binding_law h
      → AllAdmissible env h ks
      → All (PrintableCall env) ks
      → (h₁ : Host env) × (run env h ks ≡ some h₁)
        × (h₂ : Host env) × (open_host env h₁.messages.base_dir h₁.files h₁.exchanges.db
              h₁.queues.db h₁.bindings.db
            ≡ some h₂)
        × Restored h₁ h₂
  run-Restored h ks joined a t ok ps =
      let (h₁, e, a₁, t₁) = run-kept h ks a t ok ps in
      let (h₂, opened, restored) = open_host-Restored h₁ joined a₁ t₁ in
      (h₁, e, h₂, opened, restored)
