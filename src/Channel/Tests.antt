-- ===== src/Channel/Tests.antt =====
-- A queue with one message and one consumer.
use hare_mq.Base.{
  ◌≡◌, refl, false, [], ◌∷◌, ◌++◌, none, some, codes, find, text_discrete, ℕ_discrete,
}
use hare_mq.Proto.{topic, durable, Message}
use hare_mq.Consumer
use hare_mq.Consumer.Queue.{Consumer, rr_choose}
use hare_mq.Message
use hare_mq.Message.Mapper.{paths}
use hare_mq.Message.Queue.{QueueMessage}
use hare_mq.Message.Queue
use hare_mq.VirtualHost
use hare_mq.VirtualHost.{Host}
use hare_mq.VirtualHost.Sample.{sample_env, sample_host}
use hare_mq.Channel.{Channel, Shared, consume_cb, consume, basic_publish, routing_key_of}
use hare_mq.Channel.Publish.{matching_of, basic_publish-tasks}
use hare_mq.Message.Queue.Fifo.{first}
use hare_mq.VirtualHost.Fifo.{waits_at}
use hare_mq.Channel.Delivery.{turn, deliveries, consume-deliveries}

abbrev message : Message
message = record {
  payload = record {
    properties = record { id = codes "id"; delivery_mode = durable; routing_key = codes "k" };
    body = codes "hello";
    valid = codes "1";
  };
  offset = 8;
  length = 20;
}

abbrev queue : QueueMessage
queue = record {
  valid_count = 1;
  total_count = 1;
  mapper = paths (codes "dir") (codes "music");
  heap = message ∷ [];
  msgs = 0 ∷ [];
  durable_msgs = (codes "id", 0) ∷ [];
  wait_ack_msgs = [];
}

abbrev consumer : Consumer
consumer = record {
  tag = codes "t";
  qname = codes "music";
  auto_ack = false;
  conn = 2;
  cid = codes "c";
}

abbrev shared : Shared sample_env
shared = record {
  host = record sample_host {
    messages = record { base_dir = codes "dir"; queue_msgs = (codes "music", queue) ∷ [] };
  };
  consumers =
      (codes "music", record { qname = codes "music"; rr_seq = 0; consumers = consumer ∷ [] }) ∷ [];
  tasks = [];
  sent = [];
}

abbrev after : Shared sample_env
after =
    consume_cb sample_env
      (record shared {
        host = (VirtualHost.basic_consume sample_env shared.host (codes "music")).0;
        consumers = (Consumer.choose shared.consumers (codes "music")).0;
      })
      consumer message

consumes : consume sample_env shared (codes "music") ≡ some after
unfolding consume VirtualHost.basic_consume Message.front Message.Queue.front Consumer.choose
    rr_choose find text_discrete ℕ_discrete
consumes = refl

consume-deliveries_example :
    after.sent
    ≡ shared.sent
      ++ deliveries
          (first (waits_at sample_env shared.host (codes "music")))
          (turn shared.consumers (codes "music"))
consume-deliveries_example = consume-deliveries sample_env shared after (codes "music") consumes

-- An exchange to which the queue is bound.
abbrev bound_to_news : Shared sample_env
bound_to_news = record shared {
  host = record shared.host {
    exchanges = record {
      db = none;
      exchanges =
          (
            codes "news",
            record {
              name = codes "news";
              type = topic;
              durable = false;
              auto_delete = false;
              args = [];
            },
          )
          ∷ [];
    };
    bindings = record {
      db = none;
      bindings =
          (
            codes "news",
            (
              codes "music",
              record {
                exchange_name = codes "news";
                msg_queue_name = codes "music";
                binding_key = codes "news.#";
              },
            )
                ∷ [],
          )
          ∷ [];
    };
  };
}

abbrev channel : Channel
channel = record { cid = codes "c"; consumer = none; conn = 1 }

basic_publish-tasks_example :
    (basic_publish sample_env bound_to_news channel
      (codes "r")
      (codes "c")
      (codes "news")
      (some message.payload.properties)
      (codes "hello")).tasks
    ≡ bound_to_news.tasks
      ++ matching_of sample_env
          (VirtualHost.select_exchange sample_env bound_to_news.host (codes "news"))
          (routing_key_of sample_env (some message.payload.properties))
          (VirtualHost.exchange_bindings sample_env bound_to_news.host (codes "news"))
basic_publish-tasks_example =
    basic_publish-tasks sample_env bound_to_news channel (codes "r") (codes "c") (codes "news")
      (some message.payload.properties) (codes "hello")
