-- ===== src/VirtualHost/Tests.antt =====
-- A host on which an exchange and a queue are declared and bound, and the queue is deleted again.
use hare_mq.Message.SampleCodec.{sample_codec, sample_codec-IsCodec, serialize}
use hare_mq.VirtualHost.Safety.{HostAgrees, Publishable, declare_queue-Agrees}
use hare_mq.VirtualHost.Fifo.{waits_at, after, call-after}
use hare_mq.VirtualHost.Calls.{Call, declare_exchange, declare_queue, delete_queue, call}
use hare_mq.VirtualHost.Calls
use hare_mq.Base.{arith, inl}
use hare_mq.Base.{
  ◌≡◌, refl, ◌⊎◌, true, false, [], ◌∷◌, subst, none, some, ℕ_discrete, codes, text_discrete, ite,
  find,
}
use hare_mq.Proto.{topic}
use hare_mq.Exchange.{Exchange}
use hare_mq.Queue.{MsgQueue}
use hare_mq.Message
use hare_mq.Message.Queue.{QueueMessage, new_message}
use hare_mq.Message.Mapper
use hare_mq.Message.Mapper.{bytes_of}
use hare_mq.Message.Agreement.Calls.{Fresh}
use hare_mq.Files
use mathlib.Core.Option.{some-injective}
use hare_mq.Sqlite.{IsTable}
use hare_mq.Sqlite.Memory
use hare_mq.Sqlite.Memory.{memory-IsTable}
use hare_mq.VirtualHost.Safety.Start.{run}
use hare_mq.Args.{get_args}
use hare_mq.VirtualHost.Tables.{PrintableCall, Tables, call-Tables}
use hare_mq.Split.{split_on-SplitsJoined}
use hare_mq.VirtualHost.Reopened.{Restored, run-Restored}
use hare_mq.Queue
use hare_mq.Exchange
use hare_mq.Binding
use hare_mq.Binding.{Binding, Manager, find_binding, bind, unbind_queue, get_binding, exists}
use hare_mq.Binding.Removal.{Changed, bound, bind-Changed, get_binding-unbind_queue}
use hare_mq.VirtualHost.{Host}
use hare_mq.VirtualHost
use hare_mq.VirtualHost.Integrity.{Integrity, Reach, here, next, Reach-Integrity}
use hare_mq.VirtualHost.Sample.{sample_env, sample_host}

abbrev news : Exchange
news = record { name = codes "news"; type = topic; durable = true; auto_delete = false; args = [] }

abbrev music : MsgQueue
music = record {
  name = codes "music";
  durable = true;
  exclusive = false;
  auto_delete = false;
  args = [];
}

abbrev with_news : Host sample_env
with_news = (VirtualHost.declare_exchange sample_env sample_host news).0

abbrev with_music : Host sample_env
with_music = (VirtualHost.declare_queue sample_env with_news music).0

abbrev with_binding : Host sample_env
with_binding =
    (VirtualHost.bind sample_env with_music (codes "news") (codes "music") (codes "news.#")).0

abbrev last : Host sample_env
last = VirtualHost.delete_queue sample_env with_binding (codes "music")

steps : Reach sample_env sample_host last
unfolding call
steps =
    next
      (next (next (next here (declare_exchange news) refl) (declare_queue music) refl)
        (Calls.bind (codes "news") (codes "music") (codes "news.#")) refl)
      (delete_queue (codes "music")) refl

sample_host-Integrity : Integrity sample_env sample_host
unfolding Integrity find_binding find
sample_host-Integrity ename qname (b, e) = absurd (cc)

Reach-Integrity_example : Integrity sample_env last
Reach-Integrity_example = Reach-Integrity sample_env steps sample_host-Integrity

abbrev manager : Manager sample_env.binding_sql
manager = with_binding.bindings

bind-Changed_example :
    let (m', done) =
      bind sample_env.binding_sql manager (codes "news") (codes "jazz") (codes "#") true in
    let b : Binding = record {
      exchange_name = codes "news";
      msg_queue_name = codes "jazz";
      binding_key = codes "#";
    } in
    Changed manager.bindings
      (codes "news")
      (codes "jazz")
      (bound sample_env.binding_sql
        (find_binding (codes "news") (codes "jazz") manager.bindings)
        done
        b)
      m'.bindings
    × ((true ≡ false) ⊎ (exists sample_env.binding_sql manager (codes "news") (codes "jazz") ≡ true)
        → done ≡ true)
bind-Changed_example =
    bind-Changed sample_env.binding_sql manager (codes "news") (codes "jazz") (codes "#") true

get_binding-unbind_queue_example :
    get_binding sample_env.binding_sql
      (unbind_queue sample_env.binding_sql manager (codes "music"))
      (codes "news")
      (codes "music")
    ≡ ite
        (text_discrete (codes "music") (codes "music"))
        none
        (get_binding sample_env.binding_sql manager (codes "news") (codes "music"))
get_binding-unbind_queue_example =
    get_binding-unbind_queue sample_env.binding_sql manager (codes "music") (codes "news")
      (codes "music")

with_music-Agrees : HostAgrees sample_env with_music
unfolding find VirtualHost.declare_exchange
with_music-Agrees =
    declare_queue-Agrees sample_env sample_codec-IsCodec with_news music
      (λ qname. ([], inl (refl, (omega arith, tt, tt, inl (refl, refl)))))

abbrev hello : Call sample_env
hello = Calls.basic_publish (codes "music") none (codes "hello")

abbrev with_hello : Host sample_env
with_hello =
    (VirtualHost.basic_publish sample_env with_music (codes "music") none (codes "hello")).0

call-after_example :
    waits_at sample_env with_hello (codes "music")
    ≡ after sample_env with_music hello (codes "music")
unfolding call
call-after_example =
    call-after sample_env sample_codec-IsCodec with_music with_hello hello (codes "music")
      with_music-Agrees refl

-- The store of the queue.
abbrev music_store : QueueMessage
unfolding Message.Queue.new
music_store = (Message.Queue.new [] (codes "dir") (codes "music")).1

with_music-Publishable : Publishable sample_env with_music (codes "music") none (codes "hello")
unfolding new_message Memory.run ℕ_discrete text_discrete find Queue.select_queue Mapper.load
    Mapper.insert_each Files.rename bytes_of serialize music_store VirtualHost.declare_queue
    VirtualHost.declare_exchange Files.remove
with_music-Publishable x q chosen there =
    let chosen' : some music ≡ some x = chosen in
    let there' : some music_store ≡ some q = there in
    subst
      (λ (r : MsgQueue).
        Fresh sample_codec with_music.files q
          (new_message none (codes "hello") r.durable (sample_env.uuid 0)))
      (some-injective _ _ chosen')
      (subst
        (λ (p : QueueMessage).
          Fresh sample_codec with_music.files p
            (new_message none (codes "hello") true (sample_env.uuid 0)))
        (some-injective _ _ there') (λ _. (refl, omega arith)))

exchange_law :
    IsTable sample_env.exchange_sql Exchange.Persist.texts Exchange.Persist.cond_texts
      Exchange.Persist.holds Exchange.Persist.clash
exchange_law =
    memory-IsTable Exchange.Persist.holds Exchange.Persist.clash Exchange.Persist.texts
      Exchange.Persist.cond_texts

queue_law :
    IsTable sample_env.queue_sql Queue.Rows.texts Queue.Rows.cond_texts Queue.Rows.holds
      Queue.Rows.clash
queue_law = memory-IsTable Queue.Rows.holds Queue.Rows.clash Queue.Rows.texts Queue.Rows.cond_texts

binding_law :
    IsTable sample_env.binding_sql Binding.Persist.texts Binding.Persist.cond_texts
      Binding.Persist.holds Binding.Persist.clash
binding_law =
    memory-IsTable Binding.Persist.holds Binding.Persist.clash Binding.Persist.texts
      Binding.Persist.cond_texts

news-Printable : PrintableCall sample_env (declare_exchange news)
unfolding Exchange.to_row get_args
news-Printable = (((refl, (refl, (refl, (refl, tt)))), (tt, tt)), omega arith)

music-Printable : PrintableCall sample_env (declare_queue music)
unfolding Queue.to_row get_args
music-Printable = (((refl, (refl, (refl, (refl, (refl, tt))))), (tt, tt)), omega arith)

with_music-Tables : Tables sample_env exchange_law queue_law binding_law with_music
unfolding call memory-IsTable exchange_law queue_law binding_law Binding.Persist.row_at
with_music-Tables =
    call-Tables sample_env exchange_law queue_law binding_law with_news with_music
      (declare_queue music)
      (call-Tables sample_env exchange_law queue_law binding_law sample_host with_news
        (declare_exchange news)
        (
          record { tabled = refl; named = tt; distinct = tt },
          record { tabled = refl; named = tt; distinct = tt },
          ([], refl, λ e q b at. absurd (cc)),
        )
        news-Printable refl)
      music-Printable refl

run-Restored_example :
    (h₁ : Host sample_env) × (run sample_env with_music (hello ∷ []) ≡ some h₁)
    × (h₂ : Host sample_env) × (VirtualHost.open_host sample_env h₁.messages.base_dir h₁.files
          h₁.exchanges.db h₁.queues.db h₁.bindings.db
        ≡ some h₂)
    × Restored sample_env sample_codec-IsCodec exchange_law queue_law binding_law h₁ h₂
run-Restored_example =
    run-Restored sample_env sample_codec-IsCodec exchange_law queue_law binding_law with_music
      (hello ∷ []) split_on-SplitsJoined with_music-Agrees with_music-Tables
      (with_music-Publishable, λ _ _. tt) (tt, tt)
