-- ===== src/Message/Mapper/Untouched.antt =====
-- message.hpp, `message_mapper`: the other files are as they were.
use hare_mq.Base.{
  ◌≡◌, ◌≢◌, refl, ◌∙◌, Text, text_discrete, arith, find, Bool-cases, inl, inr, not, length, ◌==◌,
  codes,
}
use hare_mq.Proto.{Message}
use hare_mq.Files
use hare_mq.Files.{Files}
use hare_mq.Files.Laws.{create-find, write-find_ne, remove-find_ne, rename-find_ne}
use hare_mq.Message.Mapper
use hare_mq.Message.Mapper.{Codec, IsCodec, Paths, load, insert_each}
use hare_mq.Message.Mapper.Collect.{insert_at-find_ne, insert_each-find_ne}

-- Every file but the two of a mapper is as before.
abbrev pub Untouched : Paths → Files → Files → Type 0
Untouched p fs fs' =
    (other : Text)
    → other ≢ p.data_file
    → other ≢ p.tmp_file
    → find text_discrete other fs' ≡ find text_discrete other fs

pub Untouched-trans :
    (p : Paths) (fs fs' fs'' : Files)
    → Untouched p fs fs'
    → Untouched p fs' fs''
    → Untouched p fs fs''
Untouched-trans p fs fs' fs'' u v other n n' = v other n n' ∙ u other n n'

pub create_msg_file-Untouched :
    (fs : Files) (p : Paths) → Untouched p fs (Mapper.create_msg_file fs p)
unfolding Mapper.create_msg_file
create_msg_file-Untouched fs p other n n' = elim (Bool-cases (Files.exists fs p.data_file)) [
  | inl e ↦ rw (e, Mapper.create_msg_file) refl
  | inr e ↦ rw (e, Mapper.create_msg_file) ((create-find fs p.data_file).1 other n)
]

pub remove_msg_file-Untouched :
    (fs : Files) (p : Paths) → Untouched p fs (Mapper.remove_msg_file fs p)
unfolding Mapper.remove_msg_file
remove_msg_file-Untouched fs p other n n' =
    remove-find_ne (Files.remove fs p.data_file).0 p.tmp_file other n'
    ∙ remove-find_ne fs p.data_file other n

module _ (c : Codec) (law : IsCodec c) where
  pub insert-Untouched :
      (fs : Files) (p : Paths) (msg : Message) → Untouched p fs (Mapper.insert c fs p msg).0
  unfolding Mapper.insert
  insert-Untouched fs p msg other n n' = insert_at-find_ne c law fs p.data_file other msg n

  pub remove-Untouched :
      (fs : Files) (p : Paths) (msg : Message) → Untouched p fs (Mapper.remove c fs p msg).0
  unfolding Mapper.remove
  remove-Untouched fs p msg other n n' =
      let body = c.serialize (Mapper.with_valid msg.payload (codes "0")) in
      elim (Bool-cases (not (length body == msg.length))) [
        | inl e ↦ rw e refl
        | inr e ↦ rw e (write-find_ne fs p.data_file other body msg.offset n)
      ]

  pub gc-Untouched : (fs : Files) (p : Paths) → Untouched p fs (Mapper.gc c fs p).0
  unfolding Mapper.gc
  gc-Untouched fs p other n n' =
      let lst = (load c fs p).0 in
      let start = Files.create fs p.tmp_file in
      let fs₁ = (insert_each c start p.tmp_file lst).0 in
      let fs₂ = (Files.remove fs₁ p.data_file).0 in
      ground (
        arith,
        (create-find fs p.tmp_file).1 other n',
        insert_each-find_ne c law start p.tmp_file other lst n',
        remove-find_ne fs₁ p.data_file other n,
        rename-find_ne fs₂ p.tmp_file p.data_file other n' n,
      )
