-- ===== src/Message/Agreement.antt =====
-- message.hpp, `message_manager`: the queues of one directory and their data files.
pub mod Calls
pub mod Queues
pub mod Fifo
pub mod Recovered
pub mod Restart
pub mod Opened
use mathlib.Core.List.{append_cancel_left, append_cancel_right, reverse, reverse-append}
use hare_mq.Base.{
  ◌^◌, ◌<◌, ◌≡◌, ◌≢◌, ◌⊎◌, inl, inr, refl, sym, ap, ◌∙◌, List, [], ◌∷◌, ◌++◌, none, some, Text,
  codes, text_discrete, arith, find, length, get_or, subst, assign, find-assign,
}
use hare_mq.Proto.{Payload}
use hare_mq.Split.{All}
use hare_mq.Files.{Files}
use hare_mq.Message.{Manager}
use hare_mq.Message.Mapper.{Codec, Paths, with_slash, paths}
use hare_mq.Message.Mapper.Load.{valid_only}
use hare_mq.Message.Mapper.Records.{encode_all, Holds}
use hare_mq.Message.Mapper.Untouched.{Untouched}
use hare_mq.Message.Queue.{QueueMessage}
use hare_mq.Message.Queue.Sound.{UniqueIds, Sound}

-- The data file of a queue is no file of another queue of the directory.
pub data_file-apart :
    (base_dir qname other : Text)
    → other ≢ qname
    → ((paths base_dir other).data_file ≢ (paths base_dir qname).data_file)
      × ((paths base_dir other).data_file ≢ (paths base_dir qname).tmp_file)
unfolding paths
data_file-apart base_dir qname other differ = (
  λ same. differ (append_cancel_right other qname (codes ".mqd") (append_cancel_left dir _ _ same)),
  λ same.
      let ends : other ++ codes ".mqd" ≡ qname ++ codes ".mqd.tmp" =
        append_cancel_left dir _ _ same in
      omega (
        arith,
        ap (λ (t : Text). get_or t 0 0)
            (sym (reverse-append other (codes ".mqd"))
              ∙ ap reverse ends
              ∙ reverse-append qname (codes ".mqd.tmp")),
      ),
)
  where
    dir : Text
    dir = with_slash base_dir

module _ (c : Codec) where
  -- A queue can be recovered from its data file, if there is one.
  abbrev pub Recoverable : Files → Text → List Payload → Type 0
  Recoverable fs file ps =
      (length (encode_all c ps) < 2 ^ 32)
      × UniqueIds (valid_only ps)
      × All (λ r. r.valid ≡ codes "1") (valid_only ps)
      × (((find text_discrete file fs ≡ none) × (ps ≡ [])) ⊎ Holds c fs file ps)

  -- The queue that has a store in the map agrees with its data file.
  abbrev pub Stores : Files → Manager → Text → QueueMessage → List Payload → Type 0
  Stores fs m qname q ps =
      (find text_discrete qname m.queue_msgs ≡ some q)
      × (q.mapper ≡ paths m.base_dir qname)
      × Sound c fs q ps

  abbrev pub At : Files → Manager → Text → List Payload → Type 0
  At fs m qname ps =
      ((find text_discrete qname m.queue_msgs ≡ none)
        × Recoverable fs (paths m.base_dir qname).data_file ps)
      ⊎ ((q : QueueMessage) × Stores fs m qname q ps)

  -- Every queue agrees with its data file, and those that have no store can be recovered.
  abbrev pub Agrees : Files → Manager → Type 0
  Agrees fs m = (qname : Text) → (ps : List Payload) × At fs m qname ps

  -- Another file system that has the same data file.
  pub Sound-same :
      (fs fs' : Files) (q : QueueMessage) (ps : List Payload)
      → find text_discrete q.mapper.data_file fs' ≡ find text_discrete q.mapper.data_file fs
      → Sound c fs q ps
      → Sound c fs' q ps
  Sound-same fs fs' q ps same (names, (held, counted, known), live) =
      (names, (same ∙ held, counted, known), live)

  Recoverable-same :
      (fs fs' : Files) (file : Text) (ps : List Payload)
      → find text_discrete file fs' ≡ find text_discrete file fs
      → Recoverable fs file ps
      → Recoverable fs' file ps
  Recoverable-same fs fs' file ps same (small, unique, valid, inl (absent, empty)) =
      (small, unique, valid, inl (same ∙ absent, empty))
  Recoverable-same fs fs' file ps same (small, unique, valid, inr held) =
      (small, unique, valid, inr (same ∙ held))

  -- Work on one queue leaves the others as they are.
  pub At-other :
      (fs fs' : Files) (m : Manager) (qs : List (Text × QueueMessage)) (qname other : Text)
      (ps : List Payload)
      → other ≢ qname
      → find text_discrete other qs ≡ find text_discrete other m.queue_msgs
      → Untouched (paths m.base_dir qname) fs fs'
      → At fs m other ps
      → At fs' (record m { queue_msgs = qs }) other ps
  At-other fs fs' m qs qname other ps differ found u at =
      let (apart, apart') = data_file-apart m.base_dir qname other differ in
      let same = u (paths m.base_dir other).data_file apart apart' in
      elim at [
        | inl (absent, r) ↦
            inl
              (found ∙ absent, Recoverable-same fs fs' (paths m.base_dir other).data_file ps same r)
        | inr (q, (there, mapper, s)) ↦ inr (
          q,
          (
            found ∙ there,
            mapper,
            Sound-same fs fs' q ps
                (subst
                  (λ (p : Paths).
                    find text_discrete p.data_file fs' ≡ find text_discrete p.data_file fs)
                  (sym mapper) same)
                s,
          ),
        )
      ]

  -- Work on one queue keeps the agreement, if it does for this queue.
  pub Agrees-At :
      (fs fs' : Files) (m : Manager) (qs : List (Text × QueueMessage)) (qname : Text)
      (ps : List Payload)
      → Agrees fs m
      → ((other : Text)
          → other ≢ qname
          → find text_discrete other qs ≡ find text_discrete other m.queue_msgs)
      → Untouched (paths m.base_dir qname) fs fs'
      → At fs' (record m { queue_msgs = qs }) qname ps
      → Agrees fs' (record m { queue_msgs = qs })
  Agrees-At fs fs' m qs qname ps a found u at other = elim (text_discrete other qname) [
    | yes same ↦ (ps, subst (λ k. At fs' (record m { queue_msgs = qs }) k ps) (sym same) at)
    | no differ ↦
        let (ps', at') = a other in
        (ps', At-other fs fs' m qs qname other ps' differ (found other differ) u at')
  ]
