-- ===== src/Args/Tests.antt =====
-- Two arguments, written and read back.
use hare_mq.Base.{
  ◌≡◌, refl, [], ◌∷◌, Text, codes, text_discrete, ℕ_discrete, Map, insert, find, Distinct, arith,
}
use hare_mq.Split.{split_on, split_on-SplitsJoined}
use hare_mq.Args.{set_args, get_args}
use hare_mq.Args.Roundtrip.{IsPlain, set_args-get_args}

abbrev args : Map Text Text
args = (codes "k", codes "v") ∷ (codes "max", codes "") ∷ []

args-IsPlain : IsPlain args
args-IsPlain = (
  ((λ e. omega arith), tt),
  ((λ e. omega arith), tt),
  ((λ e. omega arith), tt),
  (
    ((λ e. omega arith), ((λ e. omega arith), ((λ e. omega arith), tt))),
    ((λ e. omega arith), ((λ e. omega arith), ((λ e. omega arith), tt))),
    tt,
    tt,
  ),
)

args-Distinct : Distinct text_discrete args
unfolding find text_discrete ℕ_discrete
args-Distinct = (refl, (refl, tt))

set_args-get_args_example : set_args split_on (get_args args) [] ≡ insert text_discrete [] [] args
set_args-get_args_example =
    set_args-get_args split_on args split_on-SplitsJoined args-IsPlain args-Distinct
