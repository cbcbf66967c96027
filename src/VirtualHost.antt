-- ===== src/VirtualHost.antt =====
-- HareMQ/mqserver/virtual_host.hpp: the exchanges, queues, bindings and messages of one host.
-- A call of the host makes its calls of the managers one after the other.
pub mod Sample
mod Tests
pub mod Entries
pub mod Query
pub mod Calls
pub mod Integrity
pub mod Safety
pub mod Sound
pub mod Fifo
pub mod Restart
pub mod Tables
pub mod Reopened
use hare_mq.Base.{
  ◌≡◌, refl, ℕ, suc, Bool, true, false, ◌&&◌, List, [], ◌∷◌, ◌++◌, Option, none, some, Text, codes,
  text_discrete, if◌then◌else◌, Map, find,
}
use hare_mq.Split.{Splitter}
use hare_mq.Proto.{BasicProperties, Message}
use hare_mq.Files.{Files}
use hare_mq.Sqlite.{Sqlite}
use hare_mq.Exchange
use hare_mq.Exchange.{Exchange, ExchangeRow, ExchangeCond}
use hare_mq.Queue
use hare_mq.Queue.{MsgQueue, QueueRow, QueueCond}
use hare_mq.Binding
use hare_mq.Binding.{Binding, BindingCond, QueueBindings}
use hare_mq.Message
use hare_mq.Message.Mapper.{Codec}

-- What the host uses and the repository does not hold. The three tables stand in one database
-- file; each manager has its own connection and touches its own table only. `uuid n` is what the
-- n-th call of `uuid_helper::uuid()` returns.
pub record Env : Type 1 where
  pub split : Splitter
  pub codec : Codec
  pub exchange_sql : Sqlite ExchangeRow ExchangeCond
  pub queue_sql : Sqlite QueueRow QueueCond
  pub binding_sql : Sqlite Binding BindingCond
  pub uuid : ℕ → Text

-- The result of a chain of calls that may abort.
infixl 5 ◌>>=◌
abbrev pub ◌>>=◌ {ℓ κ} : {A : Type ℓ} {B : Type κ} → Option A → (A → Option B) → Option B
none >>= f = none
some a >>= f = f a

-- A chain that succeeds, succeeds in its first call and in the rest.
pub >>=-eq-some {ℓ κ} :
    {A : Type ℓ} {B : Type κ} (o : Option A) (f : A → Option B) {b : B}
    → (o >>= f) ≡ some b
    → (a : A) × (o ≡ some a) × (f a ≡ some b)
>>=-eq-some none f e = absurd (cc)
>>=-eq-some (some a) f e = (a, refl, e)

module _ (env : Env) where
  open env use {split, codec, exchange_sql, queue_sql, binding_sql, uuid}

  pub record Host : Type 0 where
    pub files : Files
    pub exchanges : Exchange.Manager split exchange_sql
    pub queues : Queue.Manager split queue_sql
    pub bindings : Binding.Manager binding_sql
    pub messages : Message.Manager
    pub drawn : ℕ

  -- The loop of the constructor over the queues that were read back.
  init_each : Files → Message.Manager → Map Text MsgQueue → Files × Message.Manager
  unfolding Message.init_queue_msg
  init_each fs m [] = (fs, m)
  init_each fs m ((qname, q) ∷ qs) =
      let (fs', m') = Message.init_queue_msg codec fs m qname in init_each fs' m' qs

  unfoldable pub open_host :
      Text → Files → exchange_sql.Db → queue_sql.Db → binding_sql.Db → Option Host
  unfolding init_each Exchange.open_manager Queue.open_manager Binding.open_manager
  open_host base_dir fs exchange_db queue_db binding_db = do
    emp ← Exchange.open_manager split exchange_sql exchange_db
    mqmp ← Queue.open_manager split queue_sql queue_db
    bmp ← Binding.open_manager binding_sql binding_db
    let (fs', mmp) = init_each fs (Message.new base_dir) mqmp.queues
    some (record {
      files = fs';
      exchanges = emp;
      queues = mqmp;
      bindings = bmp;
      messages = mmp;
      drawn = 0;
    })

  unfoldable pub declare_exchange : Host → Exchange → Host × Bool
  unfolding Exchange.declare_exchange
  declare_exchange h e =
      let (emp, done) = Exchange.declare_exchange split exchange_sql h.exchanges e in
      (record h { exchanges = emp }, done)

  unfoldable pub delete_exchange : Host → Text → Host
  unfolding Binding.unbind_exchange Exchange.delete_exchange
  delete_exchange h name = record h {
    bindings = Binding.unbind_exchange binding_sql h.bindings name;
    exchanges = Exchange.delete_exchange split exchange_sql h.exchanges name;
  }

  unfoldable pub declare_queue : Host → MsgQueue → Host × Bool
  unfolding Message.init_queue_msg Queue.declare_queue
  declare_queue h q =
      let (fs, mmp) = Message.init_queue_msg codec h.files h.messages q.name in
      let (mqmp, done) = Queue.declare_queue split queue_sql h.queues q in
      (record h { files = fs; messages = mmp; queues = mqmp }, done)

  unfoldable pub delete_queue : Host → Text → Host
  unfolding Message.destroy_queue_msg Binding.unbind_queue Queue.delete_queue
  delete_queue h name =
      let (fs, mmp) = Message.destroy_queue_msg h.files h.messages name in
      record h {
        files = fs;
        messages = mmp;
        bindings = Binding.unbind_queue binding_sql h.bindings name;
        queues = Queue.delete_queue split queue_sql h.queues name;
      }

  unfoldable pub bind : Host → Text → Text → Text → Host × Bool
  unfolding Exchange.select_exchange Queue.select_queue Binding.bind
  bind h ename qname key = elim (Exchange.select_exchange split exchange_sql h.exchanges ename) [
    | none ↦ (h, false)
    | some e ↦ elim (Queue.select_queue split queue_sql h.queues qname) [
      | none ↦ (h, false)
      | some q ↦
          let (bmp, done) =
            Binding.bind binding_sql h.bindings ename qname key (e.durable && q.durable) in
          (record h { bindings = bmp }, done)
    ]
  ]

  unfoldable pub unbind : Host → Text → Text → Host
  unfolding Binding.unbind
  unbind h ename qname = record h { bindings = Binding.unbind binding_sql h.bindings ename qname }

  abbrev pub exchange_bindings : Host → Text → QueueBindings
  unfolding Binding.get_exchange_bindings
  exchange_bindings h ename = Binding.get_exchange_bindings binding_sql h.bindings ename

  abbrev pub all_queues : Host → Map Text MsgQueue
  all_queues h = h.queues.queues

  -- `uuid()` is called for a message without properties only.
  unfoldable pub basic_publish : Host → Text → Option BasicProperties → Text → Host × Bool
  unfolding Queue.select_queue Message.insert_body
  basic_publish h qname bp body = elim (Queue.select_queue split queue_sql h.queues qname) [
    | none ↦ (h, false)
    | some q ↦
        let (fs, mmp, done) =
          Message.insert_body codec h.files h.messages qname bp body q.durable (uuid h.drawn) in
        let drawn : ℕ = elim bp [ none ↦ suc h.drawn | some _ ↦ h.drawn ] in
        (record h { files = fs; messages = mmp; drawn = drawn }, done)
  ]

  unfoldable pub basic_consume : Host → Text → Host × Option Message
  unfolding Message.front
  basic_consume h qname =
      let (mmp, msg) = Message.front h.messages qname in (record h { messages = mmp }, msg)

  unfoldable pub basic_ack : Host → Text → Text → Option Host
  unfolding Message.ack
  basic_ack h qname id = do
    (fs, mmp) ← Message.ack codec h.files h.messages qname id
    some (record h { files = fs; messages = mmp })

  unfoldable pub clear : Host → Option Host
  unfolding Exchange.clear_exchange Queue.clear_queues Binding.clear_bindings Message.clear
  clear h = do
    emp ← Exchange.clear_exchange split exchange_sql h.exchanges
    mqmp ← Queue.clear_queues split queue_sql h.queues
    bmp ← Binding.clear_bindings binding_sql h.bindings
    let (fs, mmp) = Message.clear h.files h.messages
    some (record h { files = fs; exchanges = emp; queues = mqmp; bindings = bmp; messages = mmp })

  abbrev pub exists_exchange : Host → Text → Bool
  unfolding Exchange.exists
  exists_exchange h ename = Exchange.exists split exchange_sql h.exchanges ename

  abbrev pub exists_queue : Host → Text → Bool
  unfolding Queue.exists
  exists_queue h qname = Queue.exists split queue_sql h.queues qname

  abbrev pub exists_binding : Host → Text → Text → Bool
  unfolding Binding.exists
  exists_binding h ename qname = Binding.exists binding_sql h.bindings ename qname

  abbrev pub select_exchange : Host → Text → Option Exchange
  unfolding Exchange.select_exchange
  select_exchange h ename = Exchange.select_exchange split exchange_sql h.exchanges ename
