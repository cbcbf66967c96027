-- ===== src/Client/Command.antt =====
-- HareMQ/mqclient/client.cc: the commands of the interactive client. What a command prints is left
-- out; `split` is `string_helper::split`.
pub mod Args
pub mod Words
pub mod Session
pub mod Config
mod Tests
use hare_mq.Base.{
  ℕ, Bool, true, false, List, [], ◌∷◌, ◌++◌, Option, none, some, Text, codes, text_discrete,
  text_eq, ◌==◌, if◌then◌else◌, Map, insert,
}
use hare_mq.Split.{Splitter}
use hare_mq.Proto.{
  ExchangeType, unknown_type, direct, fanout, topic, DeliveryMode, unknown_mode, undurable, durable,
  BasicProperties,
}
use hare_mq.Client.Command.Args.{flag, parse_args, exchange_type, delivery_mode}
use hare_mq.Client.Channel
use hare_mq.Client.Channel.{Channel, Method}

-- The keys of `__valid_cmds`.
abbrev pub valid_cmds : List Text
valid_cmds =
    codes "subscribe"
    ∷ codes "publish"
    ∷ codes "publish_mode"
    ∷ codes "svrstat"
    ∷ codes "declare_exchange"
    ∷ codes "declare_queue"
    ∷ codes "delete_exchange"
    ∷ codes "delete_queue"
    ∷ codes "bind"
    ∷ codes "unbind"
    ∷ codes "cid"
    ∷ codes "cmds"
    ∷ codes "exit"
    ∷ codes "clear"
    ∷ codes "logo"
    ∷ []

-- What a command does: it shows its usage and fails, it prints something, it calls a method of the
-- channel and returns its result, it publishes the lines of the input, it waits for deliveries, or
-- it runs into `assert(false)`.
pub data Action : Type 0 where
  refused : Action
  shown : Action
  calls : Method → Action
  publishes : (repeated : Bool) (exchange_name : Text) → BasicProperties → Action
  subscribes : (consumer_name queue_name : Text) (auto_ack : Bool) → Action
  asserts : Action

-- A declaration with its flags and arguments, once the words are counted and the type is known.
unfoldable pub declare_typed :
    Splitter → Channel → Text → Text → ExchangeType → (w₃ w₄ : Text) → List Text → Action
unfolding flag parse_args Channel.declare_exchange
declare_typed split ch rid name type w₃ w₄ args = elim (flag w₃) [
  | none ↦ refused
  | some d ↦ elim (flag w₄) [
    | none ↦ refused
    | some a ↦ elim (parse_args split args) [
      | none ↦ refused
      | some m ↦ calls (
          Channel.declare_exchange ch rid
            (record { name = name; type = type; durable = d; auto_delete = a; args = m }))
    ]
  ]
]

unfoldable pub declare_exchange_with :
    Splitter → Channel → Text → (name w₂ w₃ w₄ : Text) → List Text → Action
unfolding exchange_type declare_typed
declare_exchange_with split ch rid name w₂ w₃ w₄ args = elim (exchange_type w₂) [
  | unknown_type ↦ refused
  | type ↦ declare_typed split ch rid name type w₃ w₄ args
]

unfoldable pub declare_exchange_cmd : Splitter → Channel → Text → List Text → Action
unfolding declare_exchange_with
declare_exchange_cmd split ch rid (name ∷ type ∷ w₃ ∷ w₄ ∷ []) =
    declare_exchange_with split ch rid name type w₃ w₄ []
declare_exchange_cmd split ch rid (name ∷ type ∷ w₃ ∷ w₄ ∷ w₅ ∷ []) =
    declare_exchange_with split ch rid name type w₃ w₄ (w₅ ∷ [])
declare_exchange_cmd split ch rid _ = refused

unfoldable pub declare_queue_with :
    Splitter → Channel → Text → (name w₂ w₃ w₄ : Text) → List Text → Action
unfolding flag parse_args Channel.declare_queue
declare_queue_with split ch rid name w₂ w₃ w₄ args = elim (flag w₂) [
  | none ↦ refused
  | some d ↦ elim (flag w₃) [
    | none ↦ refused
    | some x ↦ elim (flag w₄) [
      | none ↦ refused
      | some a ↦ elim (parse_args split args) [
        | none ↦ refused
        | some m ↦ calls (
            Channel.declare_queue ch rid
              (record { name = name; durable = d; exclusive = x; auto_delete = a; args = m }))
      ]
    ]
  ]
]

unfoldable pub declare_queue_cmd : Splitter → Channel → Text → List Text → Action
unfolding declare_queue_with
declare_queue_cmd split ch rid (name ∷ w₂ ∷ w₃ ∷ w₄ ∷ []) =
    declare_queue_with split ch rid name w₂ w₃ w₄ []
declare_queue_cmd split ch rid (name ∷ w₂ ∷ w₃ ∷ w₄ ∷ w₅ ∷ []) =
    declare_queue_with split ch rid name w₂ w₃ w₄ (w₅ ∷ [])
declare_queue_cmd split ch rid _ = refused

unfoldable pub bind_cmd : Channel → Text → List Text → Action
unfolding Channel.bind
bind_cmd ch rid (ename ∷ qname ∷ key ∷ []) = calls (Channel.bind ch rid ename qname key)
bind_cmd ch rid _ = refused

unfoldable pub unbind_cmd : Channel → Text → List Text → Action
unfolding Channel.unbind
unbind_cmd ch rid (ename ∷ qname ∷ []) = calls (Channel.unbind ch rid ename qname)
unbind_cmd ch rid _ = refused

unfoldable pub delete_exchange_cmd : Channel → Text → List Text → Action
unfolding Channel.delete_exchange
delete_exchange_cmd ch rid (name ∷ []) = calls (Channel.delete_exchange ch rid name)
delete_exchange_cmd ch rid _ = refused

unfoldable pub delete_queue_cmd : Channel → Text → List Text → Action
unfolding Channel.delete_queue
delete_queue_cmd ch rid (name ∷ []) = calls (Channel.delete_queue ch rid name)
delete_queue_cmd ch rid _ = refused

-- The routing key, the last word, is read and not used. `uuid` is the identifier that is drawn.
unfoldable pub publish_cmd : Bool → Text → List Text → Action
unfolding delivery_mode
publish_cmd repeated uuid (exchange_name ∷ mode ∷ routing_key ∷ []) =
    publishes repeated exchange_name
      (record { id = uuid; delivery_mode = delivery_mode mode; routing_key = [] })
publish_cmd repeated uuid _ = refused

unfoldable pub subscribe_cmd : List Text → Action
unfolding flag
subscribe_cmd (consumer_name ∷ queue_name ∷ w₃ ∷ []) = elim (flag w₃) [
  | none ↦ refused
  | some auto_ack ↦ subscribes consumer_name queue_name auto_ack
]
subscribe_cmd _ = refused

-- `run_cmd`, for a first word and the other words.
unfoldable pub run_cmd : Splitter → Channel → (rid uuid : Text) → Text → List Text → Action
unfolding bind_cmd unbind_cmd declare_exchange_cmd delete_exchange_cmd declare_queue_cmd
    delete_queue_cmd publish_cmd subscribe_cmd Channel.basic_query text_discrete
run_cmd split ch rid uuid cmd ws =
    if text_eq cmd (codes "cmds")
    then shown
    else if text_eq cmd (codes "cid")
    then shown
    else if text_eq cmd (codes "bind")
    then bind_cmd ch rid ws
    else if text_eq cmd (codes "unbind")
    then unbind_cmd ch rid ws
    else if text_eq cmd (codes "declare_exchange")
    then declare_exchange_cmd split ch rid ws
    else if text_eq cmd (codes "delete_exchange")
    then delete_exchange_cmd ch rid ws
    else if text_eq cmd (codes "declare_queue")
    then declare_queue_cmd split ch rid ws
    else if text_eq cmd (codes "delete_queue")
    then delete_queue_cmd ch rid ws
    else if text_eq cmd (codes "svrstat")
    then calls (Channel.basic_query ch rid)
    else if text_eq cmd (codes "publish")
    then publish_cmd false uuid ws
    else if text_eq cmd (codes "publish_mode")
    then publish_cmd true uuid ws
    else if text_eq cmd (codes "subscribe")
    then subscribe_cmd ws
    else if text_eq cmd (codes "clear")
    then shown
    else if text_eq cmd (codes "logo")
    then shown
    else asserts

-- The loop of `publish` and `publish_mode` over the lines of the input: what is published, and the
-- lines that are left. At the end of the input `getline` leaves an empty line, each time: then
-- `publish_mode` does not end, `none`.
unfoldable pub publish_loop : Bool → List Text → Option (List Text × List Text)
unfolding text_discrete
publish_loop repeated [] = if repeated then none else some ([] ∷ [], [])
publish_loop repeated (mesg ∷ lines) =
    let rest = publish_loop repeated lines in
    if text_eq mesg (codes "quit")
    then some ([], lines)
    else if repeated
    then elim rest [ none ↦ none | some (published, left) ↦ some (mesg ∷ published, left) ]
    else some (mesg ∷ [], lines)

-- `__valid_cmds.find(cmd) != end()`.
unfoldable pub is_valid_cmd : List Text → Text → Bool
unfolding text_discrete
is_valid_cmd [] cmd = false
is_valid_cmd (w ∷ ws) cmd = if text_eq w cmd then true else is_valid_cmd ws cmd

module _ {S : Type 0} (split : Splitter) (exec : S → Text → List Text → Option (S × Bool)) where
  -- `run_config` over the lines of the file, where `exec` is `run_cmd` and its effect: `none` if
  -- an assertion stops the client.
  unfoldable pub run_config : List Text → S → Option (S × Bool)
  unfolding is_valid_cmd
  run_config [] s = some (s, true)
  run_config (line ∷ lines) s = elim (split b' ' line) [
    | [] ↦ run_config lines s
    | cmd ∷ ws ↦
        if is_valid_cmd valid_cmds cmd
        then (elim (exec s cmd ws) [
          | none ↦ none
          | some (s', res) ↦ if res then run_config lines s' else some (s', false)
        ])
        else some (s, false)
  ]

  -- The loop of `run` over the lines that were typed so far, up to "exit".
  unfoldable pub run_lines : List Text → S → Option S
  unfolding is_valid_cmd text_discrete
  run_lines [] s = some s
  run_lines (line ∷ lines) s = elim (split b' ' line) [
    | [] ↦ run_lines lines s
    | cmd ∷ ws ↦
        if is_valid_cmd valid_cmds cmd
        then (if text_eq cmd (codes "exit")
            then some s
            else (elim (exec s cmd ws) [ none ↦ none | some (s', res) ↦ run_lines lines s' ]))
        else run_lines lines s
  ]
