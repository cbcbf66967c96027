-- ===== src/VirtualHost/Sample.antt =====
-- A host whose tables are kept in memory, for the instances of the theorems.
use hare_mq.Base.{[], ◌∷◌, some, codes}
use hare_mq.Split.{split_on}
use hare_mq.Sqlite.Memory.{memory}
use hare_mq.Exchange
use hare_mq.Queue
use hare_mq.Queue.Rows
use hare_mq.Binding
use hare_mq.Message
use hare_mq.Message.SampleCodec.{sample_codec}
use hare_mq.VirtualHost.{Env, Host}

abbrev pub sample_env : Env
sample_env = record {
  split = split_on;
  codec = sample_codec;
  exchange_sql = memory Exchange.Persist.holds Exchange.Persist.clash;
  queue_sql = memory Queue.Rows.holds Queue.Rows.clash;
  binding_sql = memory Binding.Persist.holds Binding.Persist.clash;
  uuid = λ n. n ∷ [];
}

-- The host that the constructor makes in an empty directory.
abbrev pub sample_host : Host sample_env
sample_host = record {
  files = [];
  exchanges = record { db = some []; exchanges = [] };
  queues = record { db = some []; queues = [] };
  bindings = record { db = some []; bindings = [] };
  messages = Message.new (codes "dir");
  drawn = 0;
}
