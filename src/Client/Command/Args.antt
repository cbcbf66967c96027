-- ===== src/Client/Command/Args.antt =====
-- client.cc, `run_cmd`: the words of a declaration, and of a delivery mode.
use hare_mq.Base.{
  Bool, true, false, List, [], ◌∷◌, Option, none, some, Text, codes, text_discrete, text_eq, ◌==◌,
  if◌then◌else◌, Map, insert,
}
use hare_mq.Split.{Splitter}
use hare_mq.Proto.{
  ExchangeType, unknown_type, direct, fanout, topic, DeliveryMode, unknown_mode, undurable, durable,
}

-- The test of a word for "true" and "false", and its value.
unfoldable pub flag : Text → Option Bool
unfolding text_discrete
flag w =
    if text_eq w (codes "true")
    then some true
    else if text_eq w (codes "false")
    then some false
    else none

-- `e.find('=')` and the two `substr`.
unfoldable pub cut : Text → Option (Text × Text)
cut [] = none
cut (c ∷ e) =
    let rest = cut e in
    if c == b'='
    then some ([], e)
    else elim rest [ none ↦ none | some (left, right) ↦ some (c ∷ left, right) ]

-- The loop over the arguments; `none`: a piece without '='.
unfoldable pub add_args : List Text → Map Text Text → Option (Map Text Text)
unfolding cut insert text_discrete
add_args [] m = some m
add_args (e ∷ args) m = elim (cut e) [
  | none ↦ none
  | some (left, right) ↦ add_args args (insert text_discrete left right m)
]

-- The arguments of a declaration; an empty word is none.
unfoldable pub parse_args : Splitter → List Text → Option (Map Text Text)
unfolding add_args
parse_args split [] = some []
parse_args split ([] ∷ ws) = some []
parse_args split ((c ∷ w) ∷ ws) = add_args (split b'&' (c ∷ w)) []

unfoldable pub exchange_type : Text → ExchangeType
unfolding text_discrete
exchange_type w =
    if text_eq w (codes "FANOUT")
    then fanout
    else if text_eq w (codes "DIRECT")
    then direct
    else if text_eq w (codes "TOPIC")
    then topic
    else unknown_type

unfoldable pub delivery_mode : Text → DeliveryMode
unfolding text_discrete
delivery_mode w =
    if text_eq w (codes "DURABLE")
    then durable
    else if text_eq w (codes "DIRECT")
    then undurable
    else unknown_mode
