-- ===== src/Message/Agreement/Queues.antt =====
-- message.hpp: making and destroying the store of a queue keeps the agreement with the disk.
use hare_mq.Base.{
  ◌≡◌, ◌≢◌, inl, inr, refl, sym, ap, ◌∙◌, List, [], none, some, Text, true, false, text_discrete,
  arith, find, insert, erase, subst, find-erase, find-insert, find_cases,
}
use hare_mq.Proto.{Payload}
use hare_mq.Files
use hare_mq.Files.{Files}
use hare_mq.Files.Laws.{create-find, remove-find, remove-find_ne}
use hare_mq.Message
use hare_mq.Message.{Manager}
use hare_mq.Message.Agreement.{Recoverable, At, Agrees, Agrees-At}
use hare_mq.Message.Mapper
use hare_mq.Message.Mapper.{Codec, IsCodec, Paths, paths}
use hare_mq.Message.Mapper.Load.{valid_only}
use hare_mq.Message.Mapper.Records.{encode_all, Holds}
use hare_mq.Message.Mapper.Untouched.{Untouched, Untouched-trans}
use hare_mq.Message.Queue
use hare_mq.Message.Queue.{QueueMessage}
use hare_mq.Message.Queue.Untouched.{new-Untouched, clear-Untouched, recovery-Leaves}
use hare_mq.Message.Queue.Sound.{Sound}
use hare_mq.Message.Queue.Sound.Start.{paths-distinct}
use hare_mq.Message.Queue.Sound.Recover.{recovery-Sound}

module _ (c : Codec) where
  pub create_msg_file-Holds :
      (fs : Files) (p : Paths) (ps : List Payload)
      → Recoverable c fs p.data_file ps
      → Holds c (Mapper.create_msg_file fs p) p.data_file ps
  unfolding Mapper.create_msg_file
  create_msg_file-Holds fs p ps (_, _, _, inr held) =
      let there : Files.exists fs p.data_file ≡ true =
        unfold Files.exists in rw (held, Files.exists) refl in
      rw (there, Mapper.create_msg_file) held
  create_msg_file-Holds fs p ps (_, _, _, inl (absent, empty)) =
      let missing : Files.exists fs p.data_file ≡ false =
        unfold Files.exists in rw (absent, Files.exists) refl in
      rw (missing, Mapper.create_msg_file)
        ((create-find fs p.data_file).0 ∙ ap (λ qs. some (encode_all c qs)) (sym empty))

  remove_msg_file-find :
      (fs : Files) (p : Paths)
      → p.data_file ≢ p.tmp_file
      → find text_discrete p.data_file (Mapper.remove_msg_file fs p) ≡ none
  unfolding Mapper.remove_msg_file
  remove_msg_file-find fs p names =
      remove-find_ne (Files.remove fs p.data_file).0 p.tmp_file p.data_file names
      ∙ (elim (find_cases text_discrete p.data_file fs) [
        | inl e ↦ unfold Files.remove in rw (e, Files.remove) e
        | inr (bytes, e) ↦ (remove-find fs p.data_file bytes e).1
      ])

  -- The store of a queue that is destroyed leaves no data file, and the others agree as before.
  pub destroy_queue_msg-Agrees :
      (fs : Files) (m : Manager) (qname : Text)
      → Agrees c fs m
      → let (fs', m') = Message.destroy_queue_msg fs m qname in Agrees c fs' m'
  unfolding Message.destroy_queue_msg
  destroy_queue_msg-Agrees fs m qname a = go (a qname)
    where
      go :
          (ps : List Payload) × At c fs m qname ps
          → let (fs', m') = Message.destroy_queue_msg fs m qname in Agrees c fs' m'
      go (ps, inl (absent, _)) = rw (absent, Message.destroy_queue_msg) a
      go (ps, inr (q, (there, mapper, s))) =
          let fs' = (Queue.clear fs q).0 in
          let none_left : find text_discrete (paths m.base_dir qname).data_file fs' ≡ none =
            subst (λ (p : Paths). find text_discrete p.data_file fs' ≡ none) mapper
              (unfold Queue.clear in remove_msg_file-find fs q.mapper s.0) in
          rw (there, Message.destroy_queue_msg)
            (Agrees-At c fs fs' m (erase text_discrete qname m.queue_msgs) qname [] a
              (λ other differ. ground (arith, find-erase text_discrete qname other m.queue_msgs))
              (subst (λ p. Untouched p fs fs') mapper (clear-Untouched fs q))
              (inl (
                ground (arith, find-erase text_discrete qname qname m.queue_msgs),
                (omega arith, tt, tt, inl (none_left, refl)),
              )))

module _ (c : Codec) (law : IsCodec c) where
  -- For a codec with the documented laws: if every queue agrees with its data file, or can be
  -- recovered from it, the store that is made for a queue agrees with the file, too.
  pub init_queue_msg-Agrees :
      (fs : Files) (m : Manager) (qname : Text)
      → Agrees c fs m
      → let (fs', m') = Message.init_queue_msg c fs m qname in Agrees c fs' m'
  unfolding Message.init_queue_msg
  init_queue_msg-Agrees fs m qname a = go (a qname)
    where
      go :
          (ps : List Payload) × At c fs m qname ps
          → let (fs', m') = Message.init_queue_msg c fs m qname in Agrees c fs' m'
      go (ps, inr (q, (there, _, _))) = rw (there, Message.init_queue_msg) a
      go (ps, inl (absent, r)) =
          let p = paths m.base_dir qname in
          let (fs₁, q) = Queue.new fs m.base_dir qname in
          let (fs₂, q') = Queue.recovery c fs₁ q in
          let (mapper, u) = new-Untouched fs m.base_dir qname in
          let (mapper', u') = recovery-Leaves c law fs₁ q in
          let s : Sound c fs₂ q' (valid_only ps) =
            unfold Queue.new in
            recovery-Sound c law fs₁ q ps (paths-distinct m.base_dir qname) refl refl
              (create_msg_file-Holds c fs p ps r) r.0 r.1 r.2 in
          rw (absent, Message.init_queue_msg)
            (Agrees-At c fs fs₂ m (insert text_discrete qname q' m.queue_msgs) qname (valid_only ps)
              a
              (λ other differ.
                ground (arith, find-insert text_discrete qname other q' m.queue_msgs))
              (Untouched-trans p fs fs₁ fs₂ u (subst (λ p'. Untouched p' fs₁ fs₂) mapper u'))
              (inr (
                q',
                (
                  ground (arith, absent, find-insert text_discrete qname qname q' m.queue_msgs),
                  mapper' ∙ mapper,
                  s,
                ),
              )))
