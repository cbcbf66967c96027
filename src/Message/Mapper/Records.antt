-- ===== src/Message/Mapper/Records.antt =====
-- The data file of message.hpp as a list of records: what the mapper writes, it reads back.
use mathlib.Core.List.{append-nil, append_assoc}
use native.Mathlib.Nat.{pow-suc}
use hare_mq.Base.{
  ℕ, zero, suc, ◌+◌, ◌/◌, ◌%◌, ◌^◌, ◌<◌, ◌≡◌, refl, sym, ap, ◌∙◌, true, List, [], ◌∷◌, ◌++◌, some,
  Text, text_discrete, arith, length, length-append, find,
}
use hare_mq.Proto.{Payload, Message}
use hare_mq.Files.{Files, write}
use hare_mq.Files.Laws.{overwrite-end, write-find, size-find}
use hare_mq.Message.Mapper.{Codec, bytes_of, number_of, size_width, insert_at}

-- `k` bytes hold the numbers below `256 ^ k`.
pub number_of-bytes_of : (k n : ℕ) → n < 256 ^ k → number_of (bytes_of k n) ≡ n
unfolding number_of bytes_of
number_of-bytes_of zero n h = omega arith
number_of-bytes_of (suc k) n h =
    omega (arith, number_of-bytes_of k (n / 256) (omega (arith, pow-suc 256 k)))

pub length-bytes_of : (k n : ℕ) → length (bytes_of k n) ≡ k
unfolding bytes_of
length-bytes_of zero n = refl
length-bytes_of (suc k) n = ap suc (length-bytes_of k (n / 256))

module _ (c : Codec) where
  -- A record: the length of the body, and the body.
  abbrev pub encode : Payload → Text
  encode p = bytes_of size_width (length (c.serialize p)) ++ c.serialize p

  abbrev pub encode_all : List Payload → Text
  encode_all [] = []
  encode_all (p ∷ ps) = encode p ++ encode_all ps

  -- The file holds these records and nothing else.
  abbrev pub Holds : Files → Text → List Payload → Type 0
  Holds fs file ps = find text_discrete file fs ≡ some (encode_all ps)

  -- The body is short enough for eight bytes.
  abbrev pub Fits : Payload → Type 0
  Fits p = length (c.serialize p) < 256 ^ size_width

  pub encode_all-append :
      (ps qs : List Payload) → encode_all (ps ++ qs) ≡ encode_all ps ++ encode_all qs
  encode_all-append [] qs = refl
  encode_all-append (p ∷ ps) qs =
      rw (encode_all-append ps qs) (sym (append_assoc (encode p) (encode_all ps) (encode_all qs)))

  pub length-encode : (p : Payload) → length (encode p) ≡ size_width + length (c.serialize p)
  length-encode p = omega (
    arith,
    length-append (bytes_of size_width (length (c.serialize p))) (c.serialize p),
    length-bytes_of size_width (length (c.serialize p)),
  )

  -- If a file holds records, inserting a message succeeds and appends its record, and the
  -- message gets the place and the length of its body, modulo 2 ^ 32.
  pub insert_at-Holds :
      (fs : Files) (file : Text) (ps : List Payload) (msg : Message)
      → Holds fs file ps
      → let r = insert_at c fs file msg in
        (r.2 ≡ true)
        × Holds r.0 file (ps ++ msg.payload ∷ [])
        × (r.1 ≡ record msg {
          offset = (length (encode_all ps) + size_width) % 2 ^ 32;
          length = length (c.serialize msg.payload) % 2 ^ 32;
        })
  unfolding insert_at
  insert_at-Holds fs file ps msg h =
      rw (size-find fs file (encode_all ps) h)
        (rw (first.0, second.0) (refl, second.1 ∙ ap some placed, refl))
    where
      body : Text
      body = c.serialize msg.payload

      head : Text
      head = bytes_of size_width (length body)

      first :
          ((write fs file (length (encode_all ps)) head).1 ≡ true)
          × (find text_discrete file (write fs file (length (encode_all ps)) head).0
              ≡ some (encode_all ps ++ head))
      first =
          let (done, found) = write-find fs file (encode_all ps) head (length (encode_all ps)) h in
          (done, found ∙ ap some (overwrite-end (encode_all ps) head))

      end : length (encode_all ps) + size_width ≡ length (encode_all ps ++ head)
      end =
          omega
            (arith, length-append (encode_all ps) head, length-bytes_of size_width (length body))

      second :
          let fs₁ = (write fs file (length (encode_all ps)) head).0 in
          ((write fs₁ file (length (encode_all ps) + size_width) body).1 ≡ true)
          × (find text_discrete file (write fs₁ file (length (encode_all ps) + size_width) body).0
              ≡ some ((encode_all ps ++ head) ++ body))
      second = rw end (
          let fs₁ = (write fs file (length (encode_all ps)) head).0 in
          let (done, found) =
            write-find fs₁ file (encode_all ps ++ head) body (length (encode_all ps ++ head))
              first.1 in
          (done, found ∙ ap some (overwrite-end (encode_all ps ++ head) body)))

      placed : (encode_all ps ++ head) ++ body ≡ encode_all (ps ++ msg.payload ∷ [])
      placed = rw (encode_all-append ps (msg.payload ∷ [])) (simp (append-nil, append_assoc) refl)
