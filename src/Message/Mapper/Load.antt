-- ===== src/Message/Mapper/Load.antt =====
-- `__load` gives the valid records of the file, in the order in which they were written.
use mathlib.Core.List.{append-nil, append_assoc}
use hare_mq.Base.{
  ℕ, zero, suc, ◌+◌, ◌≤◌, ◌≡◌, refl, sym, ap, ◌∙◌, true, false, List, [], ◌∷◌, ◌++◌, map, some,
  Text, codes, text_discrete, text_eq, ltb, arith, if◌then◌else◌, Bool-cases, inl, inr, length,
  length-append, find, subst,
}
use hare_mq.Proto.{Payload, Message}
use hare_mq.Split.{All}
use hare_mq.Files.{Files, size, read}
use hare_mq.Files.Laws.{read-middle, size-find}
use hare_mq.Message.Mapper.{
  Codec, IsCodec, bytes_of, number_of, size_width, Paths, load_record, load_from, load,
}
use hare_mq.Message.Mapper.Records.{
  number_of-bytes_of, length-bytes_of, encode, encode_all, encode_all-append, length-encode, Holds,
  Fits,
}

-- A message as `__load` makes it: its place is not filled in.
abbrev pub loaded : Payload → Message
loaded p = record { payload = p; offset = 0; length = 0 }

-- The payloads that were not removed.
abbrev pub valid_only : List Payload → List Payload
valid_only [] = []
valid_only (p ∷ ps) = if text_eq p.valid (codes "0") then valid_only ps else p ∷ valid_only ps

module _ (c : Codec) (law : IsCodec c) where
  load_record-some :
      (fs : Files) (file head body : Text) (offset n : ℕ)
      → read fs file offset size_width ≡ some head
      → number_of head ≡ n
      → read fs file (offset + size_width) n ≡ some body
      → load_record c fs file offset ≡ some (c.parse body, offset + size_width + n)
  unfolding load_record
  load_record-some fs file head body offset n e f g = ground arith

  load_record-encode :
      (fs : Files) (file pre post : Text) (p : Payload)
      → find text_discrete file fs ≡ some (pre ++ (encode c p ++ post))
      → Fits c p
      → load_record c fs file (length pre)
        ≡ some (p, length pre + size_width + length (c.serialize p))
  load_record-encode fs file pre post p h fits =
      load_record-some fs file head body (length pre) (length body) head_read
        (number_of-bytes_of size_width (length body) fits) body_read
      ∙ ap (λ (q : Payload). some (q, length pre + size_width + length body))
          (law.parse_serialize p)
    where
      body : Text
      body = c.serialize p

      head : Text
      head = bytes_of size_width (length body)

      head_read : read fs file (length pre) size_width ≡ some head
      head_read =
          subst (λ k. read fs file (length pre) k ≡ some head)
            (length-bytes_of size_width (length body))
            (read-middle fs file pre head (body ++ post)
              (h ∙ ap (λ (t : Text). some (pre ++ t)) (append_assoc head body post)))

      behind : length (pre ++ head) ≡ length pre + size_width
      behind = omega (arith, length-append pre head, length-bytes_of size_width (length body))

      body_read : read fs file (length pre + size_width) (length body) ≡ some body
      body_read =
          subst (λ k. read fs file k (length body) ≡ some body) behind
            (read-middle fs file (pre ++ head) body post (h ∙ ap some (simp append_assoc refl)))

  next-offset :
      (dn : List Payload) (p : Payload)
      → length (encode_all c dn) + size_width + length (c.serialize p)
        ≡ length (encode_all c (dn ++ p ∷ []))
  next-offset dn p = omega (
    arith,
    ap length (encode_all-append c dn (p ∷ [])),
    length-append (encode_all c dn) (encode c p ++ []),
    length-append (encode c p) [],
    length-encode c p,
  )

  at_end :
      (fs : Files) (file : Text) (dn : List Payload)
      → Holds c fs file (dn ++ [])
      → ltb (length (encode_all c dn)) (size fs file) ≡ false
  at_end fs file dn h = ground (
    arith,
    size-find fs file (encode_all c (dn ++ [])) h,
    ap (λ (r : List Payload). length (encode_all c r)) (append-nil dn),
  )

  kept :
      (p : Payload) (ps : List Payload) (lst : List Message)
      → (if text_eq p.valid (codes "0") then lst else lst ++ loaded p ∷ [])
          ++ map loaded (valid_only ps)
        ≡ lst ++ map loaded (valid_only (p ∷ ps))
  kept p ps lst = elim (Bool-cases (text_eq p.valid (codes "0"))) [
    | inl e ↦ simp e refl
    | inr e ↦ simp e (append_assoc lst (loaded p ∷ []) (map loaded (valid_only ps)))
  ]

  load_from-Holds :
      (fuel : ℕ) (fs : Files) (file : Text) (dn rest : List Payload) (lst : List Message)
      → Holds c fs file (dn ++ rest)
      → All (Fits c) rest
      → length (encode_all c rest) ≤ fuel
      → load_from c fuel fs file (length (encode_all c dn)) lst
        ≡ (lst ++ map loaded (valid_only rest), true)
  unfolding load_from
  load_from-Holds zero fs file dn [] lst h a le =
      rw (at_end fs file dn h, load_from) (simp append-nil refl)
  load_from-Holds zero fs file dn (p ∷ ps) lst h a le =
      absurd (omega (arith, length-append (encode c p) (encode_all c ps), length-encode c p))
  load_from-Holds (suc fuel) fs file dn [] lst h a le =
      rw (at_end fs file dn h, load_from) (simp append-nil refl)
  load_from-Holds (suc fuel) fs file dn (p ∷ ps) lst h a le =
      rw
        (
          size-find fs file (encode_all c (dn ++ p ∷ ps)) h,
          more,
          load_from,
          load_record-encode fs file (encode_all c dn) (encode_all c ps) p
              (h ∙ ap some (encode_all-append c dn (p ∷ ps))) a.0,
          load_from,
          next-offset dn p,
        )
        (load_from-Holds fuel fs file (dn ++ p ∷ []) ps _
            (h
              ∙ ap (λ (r : List Payload). some (encode_all c r))
                  (sym (append_assoc dn (p ∷ []) ps)))
            a.1 (omega (arith, length-append (encode c p) (encode_all c ps), length-encode c p))
          ∙ ap (λ (l : List Message). (l, true)) (kept p ps lst))
    where
      more : ltb (length (encode_all c dn)) (length (encode_all c (dn ++ p ∷ ps))) ≡ true
      more = ground (
        arith,
        ap length (encode_all-append c dn (p ∷ ps)),
        length-append (encode_all c dn) (encode c p ++ encode_all c ps),
        length-append (encode c p) (encode_all c ps),
        length-encode c p,
      )

  -- For a codec with the documented laws: if the file holds records whose lengths fit into
  -- eight bytes, `__load` succeeds with exactly those that are not marked as removed, in the
  -- order of the file.
  pub load-Holds :
      (fs : Files) (p : Paths) (ps : List Payload)
      → Holds c fs p.data_file ps
      → All (Fits c) ps
      → load c fs p ≡ (map loaded (valid_only ps), true)
  unfolding load
  load-Holds fs p ps h a =
      load_from-Holds (size fs p.data_file) fs p.data_file [] ps [] h a
        (omega (arith, size-find fs p.data_file (encode_all c ps) h))
