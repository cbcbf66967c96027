-- ===== src/Args.antt =====
-- `set_args` and `get_args`, which HareMQ/mqserver/queue.hpp and exchange.hpp spell alike: the
-- extra arguments of a queue or an exchange as `key=value&key=value&`.
mod Tests
pub mod Roundtrip
use hare_mq.Base.{
  ℕ, zero, suc, ◌+◌, List, [], ◌∷◌, ◌++◌, map, Option, none, some, Text, text_discrete, ◌==◌,
  if◌then◌else◌, take, drop, Map, insert, insert_all,
}
use hare_mq.Split.{Splitter}
use mathlib.Core.Option

-- `text.find(ch)`; `none` is `npos`.
unfoldable pub find_char : ℕ → Text → Option ℕ
find_char ch [] = none
find_char ch (c ∷ text) = if c == ch then some 0 else Option.map suc (find_char ch text)

-- Without a `=` the position is `npos`: `substr(0, npos)` is the whole text, and `npos + 1` wraps
-- to 0, so `substr(npos + 1)` is the whole text too.
unfoldable pub arg_entry : Text → Text × Text
unfolding find_char
arg_entry arg = elim (find_char b'=' arg) [
  | none ↦ (arg, arg)
  | some pos ↦ (take pos arg, drop (suc pos) arg)
]

unfoldable pub set_args : Splitter → Text → Map Text Text → Map Text Text
unfolding arg_entry insert_all text_discrete
set_args split text args = insert_all text_discrete (map arg_entry (split b'&' text)) args

unfoldable pub get_args : Map Text Text → Text
get_args [] = []
get_args ((key, val) ∷ args) = (key ++ b'=' ∷ val) ++ b'&' ∷ get_args args
