-- ===== src/Message/Mapper/Collect.antt =====
-- Removing a record marks it in place; a collection keeps the records that are not marked.
use mathlib.Core.List.{append-nil, append_assoc}
use hare_mq.Base.{
  ℕ, ◌+◌, ◌%◌, ◌^◌, ◌≡◌, ◌≢◌, refl, sym, ap, ◌∙◌, true, List, [], ◌∷◌, ◌++◌, map, some, Text, codes,
  text_discrete, ◌==◌, arith, length, length-append, find, subst,
}
use hare_mq.Proto.{Payload, Message}
use hare_mq.Files
use hare_mq.Files.{Files}
use hare_mq.Files.Laws.{overwrite-middle, write-find, write-find_ne}
use hare_mq.Message.Mapper.{
  Codec, IsCodec, with_valid, bytes_of, size_width, Paths, insert_at, insert_each, remove,
}
use hare_mq.Message.Mapper.Records.{
  encode_all, encode_all-append, length-bytes_of, Holds, insert_at-Holds,
}

module _ (c : Codec) (law : IsCodec c) where
  pub same_length :
      (p : Payload) (v : ℕ)
      → p.valid ≡ v ∷ []
      → length (c.serialize p) ≡ length (c.serialize (with_valid p (codes "0")))
  same_length p v e =
      subst
        (λ t.
          length (c.serialize (with_valid p t)) ≡ length (c.serialize (with_valid p (codes "0"))))
        (sym e) (law.valid_length p v b'0')

  -- For a codec with the documented laws: if a message knows where its record stands in the
  -- data file and its valid flag is one character, removing it succeeds, marks this record with
  -- the valid flag "0" and leaves the others as they are.
  pub remove-Holds :
      (fs : Files) (p : Paths) (before after : List Payload) (msg : Message) (v : ℕ)
      → Holds c fs p.data_file (before ++ msg.payload ∷ after)
      → msg.offset ≡ length (encode_all c before) + size_width
      → msg.length ≡ length (c.serialize msg.payload)
      → msg.payload.valid ≡ v ∷ []
      → let r = remove c fs p msg in
        (r.2 ≡ true)
        × Holds c r.0 p.data_file (before ++ with_valid msg.payload (codes "0") ∷ after)
  unfolding remove
  remove-Holds fs p before after msg v h at len one =
      rw (to_test, at) (written.0, written.1 ∙ ap some replaced)
    where
      old : Text
      old = c.serialize msg.payload

      new : Text
      new = c.serialize (with_valid msg.payload (codes "0"))

      head : Text
      head = bytes_of size_width (length old)

      same : length old ≡ length new
      same = same_length msg.payload v one

      to_test : (length new == msg.length) ≡ true
      to_test = ground (arith, same)

      pre : Text
      pre = encode_all c before ++ head

      text : encode_all c (before ++ msg.payload ∷ after) ≡ pre ++ (old ++ encode_all c after)
      text = rw (encode_all-append c before (msg.payload ∷ after)) (simp append_assoc refl)

      place : length pre ≡ length (encode_all c before) + size_width
      place =
          omega (
            arith,
            length-append (encode_all c before) head,
            length-bytes_of size_width (length old),
          )

      written :
          ((Files.write fs p.data_file (length (encode_all c before) + size_width) new).1 ≡ true)
          × (find text_discrete p.data_file
                (Files.write fs p.data_file (length (encode_all c before) + size_width) new).0
              ≡ some (pre ++ (new ++ encode_all c after)))
      written =
          let (done, found) =
            write-find fs p.data_file (pre ++ (old ++ encode_all c after)) new
              (length (encode_all c before) + size_width) (h ∙ ap some text) in
          (
            done,
            found ∙ ap some (rw (← place) (overwrite-middle pre old (encode_all c after) new same)),
          )

      replaced :
          pre ++ (new ++ encode_all c after)
          ≡ encode_all c (before ++ with_valid msg.payload (codes "0") ∷ after)
      replaced =
          rw (encode_all-append c before (with_valid msg.payload (codes "0") ∷ after), ← same)
            (simp append_assoc refl)

  -- Each message knows where its record stands, if the records of `before` stand in front.
  abbrev pub Located : List Payload → List Message → Type 0
  Located before [] = Unit
  Located before (m ∷ ms) =
      (m.offset ≡ (length (encode_all c before) + size_width) % 2 ^ 32)
      × (m.length ≡ length (c.serialize m.payload) % 2 ^ 32)
      × Located (before ++ m.payload ∷ []) ms

  abbrev pub payloads : List Message → List Payload
  payloads = map (λ m. m.payload)

  pub insert_at-find_ne :
      (fs : Files) (file other : Text) (msg : Message)
      → other ≢ file
      → find text_discrete other (insert_at c fs file msg).0 ≡ find text_discrete other fs
  unfolding insert_at
  insert_at-find_ne fs file other msg n =
      let body : Text = c.serialize msg.payload in
      let head : Text = bytes_of size_width (length body) in
      let fsize : ℕ = Files.size fs file in
      ground (
        arith,
        write-find_ne fs file other head fsize n,
        write-find_ne (Files.write fs file fsize head).0 file other body (fsize + size_width) n,
      )

  pub insert_each-find_ne :
      (fs : Files) (file other : Text) (lst : List Message)
      → other ≢ file
      → find text_discrete other (insert_each c fs file lst).0 ≡ find text_discrete other fs
  unfolding insert_each
  insert_each-find_ne fs file other [] n = refl
  insert_each-find_ne fs file other (msg ∷ lst) n = ground (
    arith,
    insert_at-find_ne fs file other msg n,
    insert_each-find_ne (insert_at c fs file msg).0 file other lst n,
  )

  pub insert_each-Holds :
      (fs : Files) (file : Text) (ps : List Payload) (lst : List Message)
      → Holds c fs file ps
      → let r = insert_each c fs file lst in
        (r.2 ≡ true)
        × Holds c r.0 file (ps ++ payloads lst)
        × (payloads r.1 ≡ payloads lst)
        × Located ps r.1
  unfolding insert_each
  insert_each-Holds fs file ps [] h = (refl, rw append-nil h, refl, tt)
  insert_each-Holds fs file ps (msg ∷ lst) h =
      let (done, held, made) = insert_at-Holds c fs file ps msg h in
      let (done', held', same, located) =
        insert_each-Holds (insert_at c fs file msg).0 file (ps ++ msg.payload ∷ []) lst held in
      rw done (
        done',
        held'
            ∙ ap (λ (r : List Payload). some (encode_all c r))
                (append_assoc ps (msg.payload ∷ []) (payloads lst)),
        rw (made, same) refl,
        rw made (refl, refl, located),
      )
