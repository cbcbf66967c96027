-- ===== src/Broker/Safety/Tests.antt =====
-- A server that starts in an empty directory: a client declares an exchange and a queue, binds them
-- and publishes a durable message, and the pool runs its task.
use mathlib.Core.Option.{some-injective}
use hare_mq.Base.{
  ◌≡◌, refl, true, false, List, [], ◌∷◌, ◌++◌, Option, none, some, codes, arith, subst, inl, find,
  text_discrete, ℕ_discrete,
}
use hare_mq.Proto.{topic, durable, BasicProperties}
use hare_mq.Exchange.{Exchange}
use hare_mq.Queue
use hare_mq.Queue.{MsgQueue}
use hare_mq.Files.{Files}
use hare_mq.Sqlite.Memory
use hare_mq.Message
use hare_mq.Message.SampleCodec.{sample_codec, sample_codec-IsCodec, serialize}
use hare_mq.Message.Mapper.{bytes_of}
use hare_mq.Message.Mapper
use hare_mq.Files
use hare_mq.Binding
use hare_mq.Message.Queue.{QueueMessage, new_message}
use hare_mq.Message.Agreement.Calls.{Fresh}
use hare_mq.VirtualHost.{open_host}
use hare_mq.VirtualHost.Sample.{sample_env, sample_host}
use hare_mq.VirtualHost.Safety.{Publishable, IsFileName, NamedFiles}
use hare_mq.VirtualHost.Safety.Start.{RecoverableIn}
use hare_mq.Broker.{
  Broker, Event, connected, open_channel, request, run_task, declare_exchange, declare_queue, bind,
  basic_publish, start,
}
use hare_mq.Broker.Safety.Run.{AdmissibleEvent, AllAdmissible-append, BrokerAgrees, run, run-start}

abbrev news : Exchange
news = record { name = codes "news"; type = topic; durable = true; auto_delete = false; args = [] }

abbrev music : MsgQueue
music = record {
  name = codes "music";
  durable = true;
  exclusive = false;
  auto_delete = false;
  args = [];
}

abbrev kept : BasicProperties
kept = record { id = codes "a"; delivery_mode = durable; routing_key = codes "news.pop" }

abbrev declared : List Event
declared =
    connected 1
    ∷ open_channel 1 (codes "1") (codes "c")
    ∷ request 1 (codes "2") (codes "c") (declare_exchange news)
    ∷ request 1 (codes "3") (codes "c") (declare_queue music)
    ∷ request 1 (codes "4") (codes "c") (bind (codes "news") (codes "music") (codes "news.#"))
    ∷ []

abbrev published : Event
published =
    request 1 (codes "5") (codes "c") (basic_publish (codes "news") (some kept) (codes "hello"))

abbrev no_files : Files
no_files = []

opened : open_host sample_env (codes "dir") no_files none none none ≡ some sample_host
unfolding open_host Memory.run Memory.rows
opened = refl

nothing_there : RecoverableIn sample_codec (codes "dir") no_files
unfolding find
nothing_there qname = ([], (omega arith, tt, tt, inl (refl, refl)))

no_queues : NamedFiles sample_env sample_host
unfolding find Queue.select_queue
no_queues qname x e = absurd (cc)

music-IsFileName : IsFileName (codes "music")
music-IsFileName = ((refl, (refl, (refl, (refl, (refl, tt))))), omega arith)

abbrev state : Option (Broker sample_env) → Broker sample_env
unfolding start
state none = start sample_env sample_host
state (some b) = b

-- The server before the message is published.
abbrev ready : Broker sample_env
unfolding run ℕ_discrete text_discrete Memory.run
ready = state (run sample_env (start sample_env sample_host) declared)

run-declared : run sample_env (start sample_env sample_host) declared ≡ some ready
unfolding run ℕ_discrete text_discrete Memory.run ready start
run-declared = refl

abbrev fresh_store : QueueMessage
unfolding Message.Queue.new
fresh_store = (Message.Queue.new no_files (codes "dir") (codes "music")).1

ready-Publishable :
    Publishable sample_env ready.shared.host (codes "music") (some kept) (codes "hello")
unfolding ready new_message run ℕ_discrete text_discrete Memory.run start find Queue.select_queue
    Mapper.load Mapper.insert_each Files.rename bytes_of serialize
ready-Publishable x q chosen there =
    let chosen' : some music ≡ some x = chosen in
    let x_is : music ≡ x = some-injective _ _ chosen' in
    let there' : some fresh_store ≡ some q = there in
    let q_is : fresh_store ≡ q = some-injective _ _ there' in
    subst
      (λ (r : MsgQueue).
        Fresh sample_codec ready.shared.host.files q
          (new_message (some kept) (codes "hello") r.durable (codes "u")))
      x_is
      (subst
        (λ (p : QueueMessage).
          Fresh sample_codec ready.shared.host.files p
            (new_message (some kept) (codes "hello") true (codes "u")))
        q_is (λ _. (refl, omega arith)))

published-AdmissibleEvent : AdmissibleEvent sample_env ready published
unfolding ready run ℕ_discrete text_discrete Memory.run start find Binding.get_exchange_bindings
published-AdmissibleEvent e chosen = ((λ passes. ready-Publishable), tt)

run-start_example :
    (b : Broker sample_env) × (run sample_env
        (start sample_env sample_host)
        (declared ++ published ∷ run_task ∷ [])
      ≡ some b)
    × BrokerAgrees sample_env b
run-start_example =
    run-start sample_env sample_codec-IsCodec (codes "dir") no_files none none none sample_host
      (declared ++ published ∷ run_task ∷ []) opened no_queues nothing_there
      (AllAdmissible-append sample_env declared (published ∷ run_task ∷ [])
        (start sample_env sample_host) ready
        (tt, λ _ _. (tt, λ _ _. (tt, λ _ _. (music-IsFileName, λ _ _. (tt, λ _ _. tt)))))
        run-declared (published-AdmissibleEvent, λ _ _. (tt, λ _ _. tt)))
