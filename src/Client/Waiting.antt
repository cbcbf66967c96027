-- ===== src/Client/Waiting.antt =====
-- HareMQ/mqclient/channel.hpp and connection.hpp: a thread that waits for a response is woken by it.
use hare_mq.Base.{
  get_elem?-bound, set-set, ◌≡◌, refl, ap, Bool, [], ◌∷◌, none, some, Text, text_discrete, arith,
  Map, find, insert, erase, find-insert, get_elem?, get_elem?-set_self,
}
use hare_mq.Client.Channel as ClientChannel
use hare_mq.Client.Channel.{Method, Outgoing, returns, asks, queries, push_basic_response}
use hare_mq.Client.Connection.{
  Connection, Pointer, put, common_response, on_channel, select_channel, resume,
}

erase-insert :
    (k : Text) (v : Bool) (m : Map Text Bool)
    → find text_discrete k m ≡ none
    → erase text_discrete k (insert text_discrete k v m) ≡ m
unfolding find insert erase
erase-insert k v [] h = ground arith
erase-insert k v ((j, w) ∷ m) h = ground (arith, erase-insert k v m)

on_channel-put :
    (c : Connection) (cid : Text) (p : Pointer) (ch : ClientChannel.Channel)
    (f : ClientChannel.Channel → ClientChannel.Channel)
    → select_channel c cid ≡ some p
    → get_elem? c.heap p ≡ some ch
    → on_channel c cid f ≡ put c p (f ch)
unfolding on_channel
on_channel-put c cid p ch f registered stored =
    rw (registered, on_channel) (rw (stored, on_channel) refl)

resume-put :
    (c : Connection) (p : Pointer) (ch ch' ch'' : ClientChannel.Channel) (m : Method) (r : Bool)
    → get_elem? c.heap p ≡ some ch
    → ClientChannel.resume ch' m ≡ some (ch'', r)
    → resume (put c p ch') p m ≡ some (put c p ch'', r)
unfolding resume
resume-put c p ch ch' ch'' m r stored e =
    rw (get_elem?-set_self c.heap p ch' (get_elem?-bound c.heap p ch stored), resume)
      (rw (e, resume) (ap (λ heap. some (record c { heap = heap }, r)) (set-set c.heap p ch' ch'')))

-- A response is there for its waiter, who leaves nothing of it.
resume-push :
    (ch : ClientChannel.Channel) (rid : Text) (out : Outgoing) (ok : Bool)
    (k : ClientChannel.Channel → Bool → ClientChannel.Channel × Bool)
    → find text_discrete rid ch.basic_resp ≡ none
    → ClientChannel.resume (push_basic_response ch rid ok) (asks rid out k) ≡ some (k ch ok)
unfolding ClientChannel.resume push_basic_response ClientChannel.wait_response
resume-push ch rid out ok k fresh =
    let found : find text_discrete rid (insert text_discrete rid ok ch.basic_resp) ≡ some ok =
      ground (arith, fresh, find-insert text_discrete rid rid ok ch.basic_resp) in
    rw (found, ClientChannel.resume)
      (ap (λ m. some (k (record ch { basic_resp = m }) ok))
        (erase-insert rid ok ch.basic_resp fresh))

-- A waiting thread is woken by the response to its request and leaves no trace of it.
pub common_response-resume :
    (c : Connection) (p : Pointer) (ch : ClientChannel.Channel) (rid : Text) (out : Outgoing)
    (ok : Bool) (k : ClientChannel.Channel → Bool → ClientChannel.Channel × Bool)
    → select_channel c ch.cid ≡ some p
    → get_elem? c.heap p ≡ some ch
    → find text_discrete rid ch.basic_resp ≡ none
    → resume (common_response c rid ch.cid ok) p (asks rid out k)
      ≡ some (put c p (k ch ok).0, (k ch ok).1)
common_response-resume c p ch rid out ok k registered stored fresh =
    unfold common_response in
    rw (on_channel-put c ch.cid p ch (λ ch'. push_basic_response ch' rid ok) registered stored) (
      resume-put c p ch (push_basic_response ch rid ok) (k ch ok).0 (asks rid out k) (k ch ok).1
        stored (resume-push ch rid out ok k fresh))
