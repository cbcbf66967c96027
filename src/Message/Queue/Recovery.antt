-- ===== src/Message/Queue/Recovery.antt =====
-- message.hpp, `recovery`: the queue that a restarted server works with.
use mathlib.Core.List.{append-nil, append_assoc}
use mathlib.Core.Option
use hare_mq.Base.{
  ℕ, suc, ◌%◌, ◌≡◌, ◌≢◌, refl, sym, ap, ◌∙◌, List, [], ◌∷◌, ◌++◌, map, Option, some, get_elem?,
  length,
}
use hare_mq.Proto.{Payload, Message}
use hare_mq.Split.{All}
use hare_mq.Files.{Files}
use hare_mq.Message.Mapper.{Codec, IsCodec}
use hare_mq.Message.Mapper
use hare_mq.Message.Mapper.Records.{Holds, Fits}
use hare_mq.Message.Mapper.Load.{valid_only}
use hare_mq.Message.Mapper.Gc.{gc-Holds}
use hare_mq.Message.Queue.{
  QueueMessage, Pointer, recover_each, recovery, push_back, note_durable, size_mod,
}

-- The bodies that the pointers of `msgs` lead to, in the order in which they are delivered.
unfoldable pub waiting : List Message → List Pointer → List (Option Payload)
waiting heap [] = []
waiting heap (p ∷ ps) = Option.map (λ m. m.payload) (get_elem? heap p) ∷ waiting heap ps

get_elem?-append :
    (h rest : List Message) (m : Message) → get_elem? (h ++ m ∷ rest) (length h) ≡ some m
get_elem?-append [] rest m = refl
get_elem?-append (x ∷ h) rest m = get_elem?-append h rest m

map-some :
    (lst : List Message) → map (λ m. some m.payload) lst ≡ map some (map (λ m. m.payload) lst)
map-some [] = refl
map-some (m ∷ lst) = ap (◌∷◌ (some m.payload)) (map-some lst)

length-payloads : (lst : List Message) → length lst ≡ length (map (λ m. m.payload) lst)
length-payloads [] = refl
length-payloads (m ∷ lst) = ap suc (length-payloads lst)

module _ (c : Codec) (law : IsCodec c) where
  recover_each-heap :
      (q : QueueMessage) (lst : List Message) → (recover_each c q lst).heap ≡ q.heap ++ lst
  unfolding recover_each push_back note_durable
  recover_each-heap q [] = sym (append-nil q.heap)
  recover_each-heap q (m ∷ lst) =
      recover_each-heap (push_back (note_durable q m) m) lst ∙ append_assoc q.heap (m ∷ []) lst

  recover_each-msgs :
      (q : QueueMessage) (lst : List Message)
      → (ps : List Pointer) × ((recover_each c q lst).msgs ≡ q.msgs ++ ps)
        × (waiting (q.heap ++ lst) ps ≡ map (λ m. some m.payload) lst)
  unfolding recover_each push_back note_durable waiting
  recover_each-msgs q [] = ([], sym (append-nil q.msgs), refl)
  recover_each-msgs q (m ∷ lst) =
      let (ps, at, same) = recover_each-msgs (push_back (note_durable q m) m) lst in
      (
        length q.heap ∷ ps,
        at ∙ append_assoc q.msgs (length q.heap ∷ []) ps,
        rw (get_elem?-append q.heap lst m) (
            ap (◌∷◌ (some m.payload)) (
              ap (λ (h : List Message). waiting h ps) (sym (append_assoc q.heap (m ∷ []) lst))
              ∙ same)),
      )

  -- For a codec with the documented laws: if the data file holds records whose lengths fit into
  -- eight bytes and the temporary file has another name, then after `recovery` exactly the
  -- records that were not removed wait for delivery, in the order in which they were written,
  -- the counters are their number modulo 2 ^ 64, and the data file holds them and nothing else.
  pub recovery-Holds :
      (fs : Files) (q : QueueMessage) (ps : List Payload)
      → q.mapper.data_file ≢ q.mapper.tmp_file
      → Holds c fs q.mapper.data_file ps
      → All (Fits c) ps
      → let (fs', q') = recovery c fs q in
        (waiting q'.heap q'.msgs ≡ map some (valid_only ps))
        × (q'.valid_count ≡ length (valid_only ps) % size_mod)
        × (q'.total_count ≡ length (valid_only ps) % size_mod)
        × Holds c fs' q.mapper.data_file (valid_only ps)
  unfolding recovery
  recovery-Holds fs q ps n h a =
      let (held, _, same, _) = gc-Holds c law fs q.mapper ps n h a in
      let lst : List Message = (Mapper.gc c fs q.mapper).1 in
      let start : QueueMessage = record q { msgs = [] } in
      let (pointers, at, delivered) = recover_each-msgs start lst in
      (
        rw (recover_each-heap start lst, at) (delivered ∙ map-some lst ∙ ap (map some) same),
        ap (λ (n : ℕ). n % size_mod) (counted lst same),
        ap (λ (n : ℕ). n % size_mod) (counted lst same),
        held,
      )
    where
      counted :
          (lst : List Message)
          → map (λ m. m.payload) lst ≡ valid_only ps
          → length lst ≡ length (valid_only ps)
      counted lst e = length-payloads lst ∙ ap length e
