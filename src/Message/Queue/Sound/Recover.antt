-- ===== src/Message/Queue/Sound/Recover.antt =====
-- message.hpp, the constructor and `recovery`: the containers of a queue that is read back.
use hare_mq.Base.{
  ◌+◌, ◌%◌, ◌^◌, ◌<◌, ◌≡◌, ◌≢◌, refl, sym, ap, ◌∙◌, List, [], ◌∷◌, ◌++◌, codes, text_discrete,
  arith, length, length-append, find, subst,
}
use hare_mq.Proto.{Payload, Message}
use hare_mq.Split.{All}
use hare_mq.Files.{Files}
use hare_mq.Message.Mapper
use hare_mq.Message.Mapper.{Codec, IsCodec, Paths, size_width, with_valid}
use hare_mq.Message.Mapper.Records.{encode_all, encode_all-append, Holds}
use hare_mq.Message.Mapper.Load.{valid_only}
use hare_mq.Message.Queue.{QueueMessage, msg_id}
use hare_mq.Message.Queue.Sound.{id_of, UniqueIds, Indexed, Live, Sound}
use hare_mq.Message.Queue.Sound.Records.{UniqueIds-middle, length-valid_only}
use hare_mq.Message.Queue.Sound.Collect.{valid_only_twice, valid_only-shorter}
use mathlib.Core.Path.{ap₂}
use hare_mq.Message.Queue.Sound.Mark.{valid_only-middle}
use mathlib.Core.List.{append-nil, append_assoc}
use hare_mq.Base.{insert, length-append, map}
use hare_mq.Message.Mapper.Collect.{Located}
use hare_mq.Message.Mapper.Gc.{gc-Holds}
use hare_mq.Message.Queue.{recover_each, recovery, push_back, note_durable}
use hare_mq.Message.Queue.Sound.Records.{Fits-All}
use hare_mq.Message.Queue.Durability.{All-before}
use hare_mq.Message.Queue.Sound.Index.{
  insert-keeps, insert-finds, Live-push, fresh-find, stored, Indexed-insert,
}
use hare_mq.Message.Queue.Sound.Collect.{
  All-payloads, length-map, valid_only_twice, valid_only-shorter,
}

module _ (c : Codec) (law : IsCodec c) where
  -- The queue that knows the records in front, and after the rest is taken in.
  abbrev Recovered : List Payload → QueueMessage → Type 0
  Recovered ps q =
      Indexed c ps q.heap q.durable_msgs × Live q.heap q.durable_msgs q.msgs q.wait_ack_msgs

  stored-Located :
      (before : List Payload) (m : Message)
      → m.offset ≡ (length (encode_all c before) + size_width) % 2 ^ 32
      → m.length ≡ length (c.serialize m.payload) % 2 ^ 32
      → stored c before m ≡ m
  stored-Located before m offset len =
      sym (ap₂ (λ o l. record m { offset = o; length = l }) offset len)

  take_in :
      (before : List Payload) (q : QueueMessage) (m : Message)
      → stored c before m ≡ m
      → m.payload.valid ≡ codes "1"
      → All (λ s. id_of s ≢ msg_id m) (valid_only before)
      → length (encode_all c (before ++ m.payload ∷ [])) < 2 ^ 32
      → Recovered before q
      → Recovered (before ++ m.payload ∷ []) (push_back (note_durable q m) m)
  unfolding push_back note_durable
  take_in before q m same valid fresh bound (known, live) =
      let absent = fresh-find c before q.heap q.durable_msgs (msg_id m) known fresh in
      (
        subst
            (λ (x : Message).
              Indexed c (before ++ m.payload ∷ []) (q.heap ++ x ∷ [])
                (insert text_discrete (msg_id m) (length q.heap) q.durable_msgs))
            same (Indexed-insert c before q.heap q.durable_msgs m known valid fresh bound),
        Live-push q.heap q.durable_msgs
            (insert text_discrete (msg_id m) (length q.heap) q.durable_msgs) q.msgs q.wait_ack_msgs
            m (insert-keeps q.durable_msgs (msg_id m) (length q.heap) absent)
            (λ _. insert-finds q.durable_msgs (msg_id m) (length q.heap) absent) live,
      )

  recover_each-Recovered :
      (before : List Payload) (lst : List Message) (q : QueueMessage)
      → Located c law before lst
      → All (λ m. m.payload.valid ≡ codes "1") lst
      → UniqueIds (valid_only (before ++ map (λ m. m.payload) lst))
      → length (encode_all c (before ++ map (λ m. m.payload) lst)) < 2 ^ 32
      → Recovered before q
      → Recovered (before ++ map (λ m. m.payload) lst) (recover_each c q lst)
        × ((recover_each c q lst).mapper ≡ q.mapper)
  unfolding recover_each
  recover_each-Recovered before [] q located valid unique bound r = (rw (append-nil before) r, refl)
  recover_each-Recovered before (m ∷ lst) q located valid unique bound r =
      let rest = map (λ m. m.payload) lst in
      let whole : (before ++ m.payload ∷ []) ++ rest ≡ before ++ m.payload ∷ rest =
        append_assoc before (m.payload ∷ []) rest in
      let (was, _) = valid_only-middle c law before rest m.payload valid.0 in
      let fresh : All (λ s. id_of s ≢ msg_id m) (valid_only before) =
        (All-before (λ s. id_of s ≢ msg_id m) (valid_only before) (valid_only rest)
          (UniqueIds-middle (valid_only before) (valid_only rest) m.payload
            (rw was at unique)).1).0 in
      let first : length (encode_all c (before ++ m.payload ∷ [])) < 2 ^ 32 = omega (
        arith,
        bound,
        ap (λ rs. length (encode_all c rs)) whole,
        ap length (encode_all-append c (before ++ m.payload ∷ []) rest),
        length-append (encode_all c (before ++ m.payload ∷ [])) (encode_all c rest),
      ) in
      let (r', mapper) =
        recover_each-Recovered (before ++ m.payload ∷ []) lst (push_back (note_durable q m) m)
          located.2 valid.1 (subst (λ rs. UniqueIds (valid_only rs)) (sym whole) unique)
          (subst (λ rs. length (encode_all c rs) < 2 ^ 32) (sym whole) bound)
          (take_in before q m (stored-Located before m located.0 located.1) valid.0 fresh first
            r) in
      (
        subst (λ rs. Recovered rs (recover_each c (push_back (note_durable q m) m) lst)) whole r',
        mapper,
      )

  nothing_known :
      (q : QueueMessage) → q.durable_msgs ≡ [] → q.wait_ack_msgs ≡ [] → q.msgs ≡ [] → Recovered [] q
  unfolding find
  nothing_known q none_durable none_waits none_listed =
      rw (none_durable, none_waits, none_listed)
        ((omega arith, tt, tt, (λ id p e. absurd (cc))), (tt, tt, (λ id p e. absurd (cc))))

  -- For a codec with the documented laws: if the data file holds records that take fewer than
  -- 2 ^ 32 bytes, the valid ones are marked by "1" and no two of them have the same identifier,
  -- then a new queue on this file that is recovered has containers that agree with the file.
  pub recovery-Sound :
      (fs : Files) (q : QueueMessage) (ps : List Payload)
      → q.mapper.data_file ≢ q.mapper.tmp_file
      → q.durable_msgs ≡ []
      → q.wait_ack_msgs ≡ []
      → Holds c fs q.mapper.data_file ps
      → length (encode_all c ps) < 2 ^ 32
      → UniqueIds (valid_only ps)
      → All (λ r. r.valid ≡ codes "1") (valid_only ps)
      → let (fs', q') = recovery c fs q in Sound c fs' q' (valid_only ps)
  unfolding recovery
  recovery-Sound fs q ps names none_durable none_waits held small unique valid =
      let (fs', lst) = Mapper.gc c fs q.mapper in
      let (held', _, same, located) =
        gc-Holds c law fs q.mapper ps names held (Fits-All c ps small) in
      let start : QueueMessage = record q { msgs = [] } in
      let (found, mapper) =
        recover_each-Recovered [] lst start located
          (All-payloads (λ r. r.valid ≡ codes "1") lst (rw same valid))
          (rw (same, valid_only_twice ps) unique)
          (omega
            (arith, small, ap (λ rs. length (encode_all c rs)) same, valid_only-shorter c law ps))
          (nothing_known start none_durable none_waits refl) in
      let (known, live) = subst (λ rs. Recovered rs (recover_each c start lst)) same found in
      let counted : length lst ≡ length (valid_only ps) =
        sym (length-map (λ (m : Message). m.payload) lst) ∙ ap length same in
      rw mapper (
        names,
        (
          held',
          rw (valid_only_twice ps) (omega (arith, counted, small, length-valid_only c ps)),
          known,
        ),
        live,
      )
