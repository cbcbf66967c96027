-- ===== src/Split/Sample.antt =====
-- A splitter that behaves as documented, for the instances of the theorems.
use hare_mq.Base.{
  Bool-cases, inl, inr, ℕ, Bool, true, false, ◌≡◌, refl, ap, ◌∙◌, ◌≢◌, List, [], ◌∷◌, ◌++◌, Text,
  arith, ◌==◌, if◌then◌else◌,
}
use hare_mq.Split.Laws.{
  Splitter, All, AllChars, KeepsChars, SplitsJoined, SplitsSome, IsPiece, join_ended,
}

cons_head : ℕ → List Text → List Text
cons_head c [] = (c ∷ []) ∷ []
cons_head c (w ∷ ws) = (c ∷ w) ∷ ws

-- `ended` says that the character before was a separator.
split_from : ℕ → Bool → Text → List Text
unfolding cons_head
split_from sep ended [] = [] ∷ []
split_from sep ended (c ∷ text) = elim (c == sep) [
  | true ↦ if ended then split_from sep true text else [] ∷ split_from sep true text
  | false ↦ cons_head c (split_from sep false text)
]

unfoldable pub split_on : Splitter
unfolding split_from
split_on sep text = split_from sep false text

cons_head-AllChars :
    (p : ℕ → Bool) (c : ℕ) (ws : List Text)
    → p c ≡ true
    → All (AllChars p) ws
    → All (AllChars p) (cons_head c ws)
unfolding cons_head
cons_head-AllChars p c [] h a = ((h, tt), tt)
cons_head-AllChars p c (w ∷ ws) h a = ((h, a.0), a.1)

split_from-AllChars :
    (sep : ℕ) (p : ℕ → Bool) (ended : Bool) (text : Text)
    → AllChars p text
    → All (AllChars p) (split_from sep ended text)
unfolding split_from
split_from-AllChars sep p ended [] a = (tt, tt)
split_from-AllChars sep p ended (c ∷ text) a = ground (
  arith,
  split_from-AllChars sep p true text,
  split_from-AllChars sep p false text,
  cons_head-AllChars p c (split_from sep false text),
)

pub split_on-KeepsChars : KeepsChars split_on
unfolding split_on
split_on-KeepsChars sep p text a = split_from-AllChars sep p false text a

split_from-piece :
    (sep c : ℕ) (w rest : Text)
    → All (λ d. d ≢ sep) (c ∷ w)
    → (ended : Bool)
    → split_from sep ended ((c ∷ w) ++ sep ∷ rest) ≡ (c ∷ w) ∷ split_from sep true rest
unfolding split_from cons_head
split_from-piece sep c [] rest a ended = ground arith
split_from-piece sep c (d ∷ w) rest a ended =
    ground (arith, split_from-piece sep d w rest a.1 false)

split_from-pieces :
    (sep : ℕ) (ws : List Text)
    → All (IsPiece sep) ws
    → (ended : Bool) → split_from sep ended (join_ended sep ws) ≡ ws ++ [] ∷ []
unfolding join_ended
split_from-pieces sep [] a ended = unfold split_from in refl
split_from-pieces sep ([] ∷ ws) a ended = absurd (a.0.0 refl)
split_from-pieces sep ((c ∷ w) ∷ ws) a ended =
    split_from-piece sep c w (join_ended sep ws) a.0.1 ended
    ∙ ap (◌∷◌ (c ∷ w)) (split_from-pieces sep ws a.1 true)

pub split_on-SplitsJoined : SplitsJoined split_on
unfolding split_on
split_on-SplitsJoined sep ws a = split_from-pieces sep ws a false

cons_head-some : (c : ℕ) (ws : List Text) → cons_head c ws ≢ []
unfolding cons_head
cons_head-some c [] e = cc
cons_head-some c (w ∷ ws) e = cc

split_from-some : (sep : ℕ) (ended : Bool) (text : Text) → split_from sep ended text ≢ []
unfolding split_from
split_from-some sep ended [] = λ e. cc
split_from-some sep ended (c ∷ text) = elim (Bool-cases (c == sep)) [
  | inr f ↦ rw (f, split_from) (cons_head-some c (split_from sep false text))
  | inl f ↦ rw (f, split_from) (ended_cases ended (split_from-some sep true text))
]
  where
    ended_cases :
        (b : Bool)
        → split_from sep true text ≢ []
        → (if b then split_from sep true text else [] ∷ split_from sep true text) ≢ []
    ended_cases true more = more
    ended_cases false more = λ e. cc

pub split_on-SplitsSome : SplitsSome split_on
unfolding split_on
split_on-SplitsSome sep text = split_from-some sep false text
