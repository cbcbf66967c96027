-- ===== src/Broker/Tests.antt =====
-- A channel that acknowledges a message.
use hare_mq.Base.{[], ◌∷◌, none, find, insert, refl, codes}
use hare_mq.VirtualHost
use hare_mq.VirtualHost.Sample.{sample_env, sample_host}
use hare_mq.Channel.{Channel, Shared}
use hare_mq.Broker.{Broker, connected, step}
use hare_mq.Broker.Owned.{Owned}
use hare_mq.Broker.Events.{here, next, Reach-Owned}

abbrev shared : Shared sample_env
shared = record { host = sample_host; consumers = []; tasks = []; sent = [] }

abbrev channel : Channel
channel = record { cid = codes "c"; consumer = none; conn = 1 }

-- A server without connections.
abbrev idle : Broker sample_env
idle = record { shared = shared; conns = []; shut = [] }

idle-Owned : Owned sample_env idle
unfolding find
idle-Owned conn channels e = absurd (cc)

Reach-Owned_example : Owned sample_env (record idle { conns = (1, []) ∷ [] })
unfolding step insert
Reach-Owned_example = Reach-Owned sample_env {b = idle} (next here (connected 1) refl) idle-Owned
