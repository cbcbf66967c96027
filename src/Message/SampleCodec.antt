-- ===== src/Message/SampleCodec.antt =====
-- A concrete codec for the instances of the theorems: a field is a list of characters with a 1 in
-- front of each and a 0 at the end.
use hare_mq.Base.{ℕ, zero, suc, ◌≡◌, refl, [], ◌∷◌, Text}
use hare_mq.Proto.{DeliveryMode, unknown_mode, undurable, durable, Payload}
use hare_mq.Message.Mapper.{Codec, IsCodec}

unfoldable pub field : Text → Text → Text
field [] rest = 0 ∷ rest
field (x ∷ xs) rest = 1 ∷ x ∷ field xs rest

parse_field : Text → Text × Text
parse_field [] = ([], [])
parse_field (zero ∷ rest) = ([], rest)
parse_field (suc n ∷ []) = ([], [])
parse_field (suc n ∷ x ∷ rest) = let (t, r) = parse_field rest in (x ∷ t, r)

parse_field-field : (t rest : Text) → parse_field (field t rest) ≡ (t, rest)
unfolding field parse_field
parse_field-field [] rest = refl
parse_field-field (x ∷ xs) rest = rw (parse_field-field xs rest) refl

unfoldable pub mode_code : DeliveryMode → ℕ
mode_code unknown_mode = 0
mode_code undurable = 1
mode_code durable = 2

mode_of : ℕ → DeliveryMode
mode_of zero = unknown_mode
mode_of (suc zero) = undurable
mode_of (suc (suc n)) = durable

mode_of-mode_code : (m : DeliveryMode) → mode_of (mode_code m) ≡ m
unfolding mode_of mode_code
mode_of-mode_code unknown_mode = refl
mode_of-mode_code undurable = refl
mode_of-mode_code durable = refl

unfoldable pub serialize : Payload → Text
unfolding field mode_code
serialize p = field p.valid (
    field p.body (
      field p.properties.id
        (field p.properties.routing_key (mode_code p.properties.delivery_mode ∷ []))))

mode_in : Text → DeliveryMode
unfolding mode_of
mode_in [] = unknown_mode
mode_in (n ∷ rest) = mode_of n

pub parse : Text → Payload
unfolding parse_field mode_in
parse text =
    let (valid, rest) = parse_field text in
    let (body, rest') = parse_field rest in
    let (id, rest'') = parse_field rest' in
    let (key, rest''') = parse_field rest'' in
    record {
      properties = record { id = id; delivery_mode = mode_in rest'''; routing_key = key };
      body = body;
      valid = valid;
    }

abbrev pub sample_codec : Codec
sample_codec = record { serialize = serialize; parse = parse }

parse-serialize : (p : Payload) → parse (serialize p) ≡ p
unfolding parse serialize mode_in
parse-serialize p =
    rw
      (
        parse_field-field p.valid _,
        parse_field-field p.body _,
        parse_field-field p.properties.id _,
        parse_field-field p.properties.routing_key _,
        mode_of-mode_code p.properties.delivery_mode,
      )
      refl

pub sample_codec-IsCodec : IsCodec sample_codec
unfolding serialize field parse
sample_codec-IsCodec = record { parse_serialize = parse-serialize; valid_length = λ p a b. refl }
