-- ===== src/Client/Tests.antt =====
-- A client that declares a queue.
use hare_mq.Base.{
  ◌≡◌, refl, ◌⊎◌, [], ◌∷◌, none, some, false, text_discrete, ℕ_discrete, find, codes, Bool,
  ite-eq-some, inl, inr, ap, sym, ◌∙◌, subst,
}
use hare_mq.Queue.{MsgQueue}
use hare_mq.VirtualHost.Sample.{sample_env, sample_host}
use hare_mq.Channel.{Channel}
use hare_mq.Broker.{Broker, Channels, Request}
use hare_mq.Broker.Owned.{Owned, OwnedBy}
use hare_mq.Client.Channel as ClientChannel
use hare_mq.Client.Channel.{Outgoing, asks, returns_ok}
use hare_mq.Client.Connection.{Connection, put, select_channel}
use hare_mq.VirtualHost
use hare_mq.Client.Remote.{call-declare_queue}
use hare_mq.Client.Rpc.{Link, call, Replied, Stops, call-Replied}

abbrev server_channel : Channel
server_channel = record { cid = codes "c"; consumer = none; conn = 1 }

abbrev server_channels : Channels
server_channels = (codes "c", server_channel) ∷ []

abbrev server : Broker sample_env
server = record {
  shared = record { host = sample_host; consumers = []; tasks = []; sent = [] };
  conns = (1, server_channels) ∷ [];
  shut = [];
}

server_channels-OwnedBy : OwnedBy 1 server_channels
unfolding find
server_channels-OwnedBy cid ch e =
    elim (ite-eq-some (text_discrete (codes "c") cid) server_channel none e) [
      | inl (named, found) ↦ (
        ap (λ (c : Channel). c.conn) (sym found),
        ap (λ (c : Channel). c.cid) (sym found) ∙ named,
      )
      | inr nothing ↦ absurd (cc)
    ]

server-Owned : Owned sample_env server
unfolding find
server-Owned conn channels e = elim (ite-eq-some (ℕ_discrete 1 conn) server_channels none e) [
  | inl (at_one, listed) ↦
      subst (OwnedBy conn) listed
        (subst (λ k. OwnedBy k server_channels) at_one server_channels-OwnedBy)
  | inr nothing ↦ absurd (cc)
]

abbrev jobs : MsgQueue
jobs = record {
  name = codes "jobs";
  durable = false;
  exclusive = false;
  auto_delete = false;
  args = [];
}

-- A channel that was just made, and its connection.
abbrev channel : ClientChannel.Channel
channel = record { cid = codes "c"; consumer = none; basic_resp = []; basic_query_resp = [] }

abbrev connection : Connection
connection = record {
  heap = channel ∷ [];
  channels = (codes "c", 0) ∷ [];
  tasks = [];
  received = [];
}

abbrev declare_jobs : Request
declare_jobs = Request.declare_queue jobs

link : Link sample_env server 1 connection 0 channel
unfolding find ℕ_discrete text_discrete select_channel
link = record {
  channels = server_channels;
  server_channel = server_channel;
  connected = refl;
  opened = refl;
  registered = refl;
  stored = refl;
}

call-Replied_example :
    ((b' : Broker sample_env) × (ok : Bool) × (call sample_env server 1 connection 0
          (asks (codes "r") (Outgoing.request (codes "r") (codes "c") declare_jobs) returns_ok)
        ≡ some (b', put connection 0 channel, ok))
      × Replied sample_env server b' 1 (codes "r") (codes "c") ok)
    ⊎ Stops sample_env server declare_jobs
unfolding find
call-Replied_example =
    call-Replied sample_env server 1 connection 0 channel (codes "r") declare_jobs returns_ok
      server-Owned link refl (λ e. cc)

call-declare_queue_example :
    (b' : Broker sample_env) × (call sample_env server 1 connection 0
        (ClientChannel.declare_queue channel (codes "r") jobs)
      ≡ some (b', connection, (VirtualHost.declare_queue sample_env sample_host jobs).1))
    × (b'.shared.host ≡ (VirtualHost.declare_queue sample_env sample_host jobs).0)
unfolding find
call-declare_queue_example =
    call-declare_queue sample_env server 1 connection 0 channel (codes "r") jobs server-Owned link
      refl tt
