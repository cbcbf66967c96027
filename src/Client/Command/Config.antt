-- ===== src/Client/Command/Config.antt =====
-- client.cc, `run_config`: a file of commands succeeds exactly if each of its lines does.
use mathlib.Core.Option.{some-injective}
use hare_mq.Base.{
  ◌≡◌, refl, ap, Bool, true, false, List, [], ◌∷◌, Option, none, some, Text, Bool-cases,
  Option-cases, inl, inr, subst,
}
use hare_mq.Split.{Splitter, SplitsSome}
use hare_mq.Client.Command.{valid_cmds, is_valid_cmd, run_config}

none-some : {S : Type 0} {r : Option (S × Bool)} {s : S × Bool} → r ≡ none → r ≡ some s → ⊥
none-some e f = cc

refused_line :
    {S : Type 0} {r : Option (S × Bool)} {s s' : S} → r ≡ some (s, false) → r ≡ some (s', true) → ⊥
refused_line e f = cc

module _ {S : Type 0} (split : Splitter) (exec : S → Text → List Text → Option (S × Bool)) where
  -- Each line begins with a valid command, and the commands succeed one after the other.
  pub data Ran : List Text → S → S → Type 0 where
    done : {s : S} → Ran [] s s
    ran :
        {s s' s'' : S} {line cmd : Text} {ws lines : List Text}
        → split b' ' line ≡ cmd ∷ ws
        → is_valid_cmd valid_cmds cmd ≡ true
        → exec s cmd ws ≡ some (s', true)
        → Ran lines s' s''
        → Ran (line ∷ lines) s s''

  pub Ran-run_config :
      {s s' : S} {lines : List Text}
      → Ran lines s s'
      → run_config split exec lines s ≡ some (s', true)
  unfolding run_config
  Ran-run_config done = refl
  Ran-run_config (ran words valid e rest) =
      rw (words, run_config) (rw (valid, run_config) (rw (e, run_config) (Ran-run_config rest)))

  -- For a splitter that returns one word at least: if `run_config` succeeds, each line of the
  -- file begins with a valid command, and the commands succeed one after the other and lead to
  -- the state in which it ends.
  pub run_config-Ran :
      (s s' : S) (lines : List Text)
      → SplitsSome split
      → run_config split exec lines s ≡ some (s', true)
      → Ran lines s s'
  unfolding run_config
  run_config-Ran s s' [] law e =
      subst (Ran [] s) (ap (λ (r : S × Bool). r.0) (some-injective _ _ e)) done
  run_config-Ran s s' (line ∷ lines) law e =
      words (split b' ' line) refl (λ s₁ f. run_config-Ran s₁ s' lines law f)
    where
      words :
          (l : List Text)
          → split b' ' line ≡ l
          → ((s₁ : S) → run_config split exec lines s₁ ≡ some (s', true) → Ran lines s₁ s')
          → Ran (line ∷ lines) s s'
      words [] f rest = absurd (law b' ' line f)
      words (cmd ∷ ws) f rest = elim (Bool-cases (is_valid_cmd valid_cmds cmd)) [
        | inr v ↦ absurd (refused_line refl (rw (f, run_config, v) at e))
        | inl v ↦ elim (Option-cases (exec s cmd ws)) [
          | inl g ↦ absurd (none-some refl (rw (f, run_config, v, g) at e))
          | inr ((s₁, true), g) ↦ ran f v g (rest s₁ (rw (f, run_config, v, g) at e))
          | inr ((s₁, false), g) ↦ absurd (refused_line refl (rw (f, run_config, v, g) at e))
        ]
      ]
