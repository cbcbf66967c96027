-- ===== src/Router/Keys.antt =====
-- Keys that pass the legality checks of route.hpp.
use hare_mq.Base.{
  ℕ, true, false, ◌&&◌, ◌||◌, not, ◌≡◌, refl, ◌↔◌, ◌⊎◌, inl, inr, ℕ_discrete, List, [], ◌∷◌, Text,
  arith, ltb, ◌==◌, length,
}
use hare_mq.Split.{Splitter, All, AllChars, KeepsChars}
use hare_mq.Proto.{topic}
use hare_mq.Router.{
  hash, star, is_routing_char, is_legal_routing_key, is_legal_binding_key, route, wildcards_alone,
  wildcards_apart, contains,
}
use hare_mq.Router.Pattern.{Matches}
use hare_mq.Router.Words.{NoHash}
use hare_mq.Router.Matching.{route-topic_iff}

routing_char-ne-hash : (c : ℕ) → is_routing_char c ≡ true → not (c == b'#') ≡ true
unfolding is_routing_char
routing_char-ne-hash c h = ground arith

legal-AllChars :
    (key : Text) → is_legal_routing_key key ≡ true → AllChars (λ c. not (c == b'#')) key
unfolding is_legal_routing_key
legal-AllChars [] h = tt
legal-AllChars (c ∷ key) h =
    (routing_char-ne-hash c (ground arith), legal-AllChars key (ground arith))

AllChars-NoHash : (ws : List Text) → All (AllChars (λ c. not (c == b'#'))) ws → NoHash ws
AllChars-NoHash [] a = tt
AllChars-NoHash ([] ∷ ws) a = ((λ e. cc), AllChars-NoHash ws a.1)
AllChars-NoHash ((c ∷ w) ∷ ws) a = ((λ e. ground arith), AllChars-NoHash ws a.1)

-- For a splitter that invents no characters, a topic exchange passes a message with a legal routing
-- key to a binding exactly when the words of the key match the words of the binding key.
pub route-legal_iff :
    (split : Splitter) (routing_key binding_key : Text)
    → KeepsChars split
    → is_legal_routing_key routing_key ≡ true
    → (route (split b'.') topic routing_key binding_key ≡ true)
      ↔ Matches (split b'.' binding_key) (split b'.' routing_key)
route-legal_iff split routing_key binding_key keeps legal =
    route-topic_iff (split b'.') routing_key binding_key
      (AllChars-NoHash _ (keeps b'.' _ routing_key (legal-AllChars routing_key legal)))

-- A word of a legal pattern: a wildcard, or a text in which no wildcard occurs.
abbrev pub IsPatternWord : Text → Type 0
IsPatternWord w = (w ≡ star) ⊎ (w ≡ hash) ⊎ ((contains b'*' w ≡ false) × (contains b'#' w ≡ false))

-- No `#` stands next to a wildcard.
abbrev pub Apart : List Text → Type 0
Apart [] = Unit
Apart (e ∷ []) = Unit
Apart (e ∷ f ∷ sub) =
    ¬ ((e ≡ star) × (f ≡ hash))
    × ¬ ((e ≡ hash) × (f ≡ hash))
    × ¬ ((e ≡ hash) × (f ≡ star))
    × Apart (f ∷ sub)

alone-IsPatternWord :
    (w : Text)
    → (ltb 1 (length w) && (contains b'*' w || contains b'#' w)) ≡ false
    → IsPatternWord w
unfolding contains
alone-IsPatternWord [] h = inr (inr (refl, refl))
alone-IsPatternWord (c ∷ []) h = elim (ℕ_discrete c b'*') [
  | yes e ↦ inl (ground arith)
  | no n ↦ elim (ℕ_discrete c b'#') [
    | yes e ↦ inr (inl (ground arith))
    | no m ↦ inr (inr (ground arith, ground arith))
  ]
]
alone-IsPatternWord (c ∷ d ∷ w) h = inr (inr (ground arith, ground arith))

wildcards_alone-All : (sub : List Text) → wildcards_alone sub ≡ true → All IsPatternWord sub
unfolding wildcards_alone
wildcards_alone-All [] h = tt
wildcards_alone-All (w ∷ sub) h =
    (alone-IsPatternWord w (ground arith), wildcards_alone-All sub (ground arith))

wildcards_apart-Apart : (sub : List Text) → wildcards_apart sub ≡ true → Apart sub
unfolding wildcards_apart
wildcards_apart-Apart [] h = tt
wildcards_apart-Apart (e ∷ []) h = tt
wildcards_apart-Apart (e ∷ f ∷ sub) h = (
  λ p. ground arith,
  λ p. ground arith,
  λ p. ground arith,
  wildcards_apart-Apart (f ∷ sub) (ground arith),
)

-- A binding key that is accepted has only words that are a wildcard or free of wildcards, and no
-- `#` in it stands next to a wildcard.
pub is_legal_binding_key-words :
    (split : Splitter) (key : Text)
    → is_legal_binding_key (split b'.') key ≡ true
    → All IsPatternWord (split b'.' key) × Apart (split b'.' key)
unfolding is_legal_binding_key
is_legal_binding_key-words split key h = (
  wildcards_alone-All (split b'.' key) (ground arith),
  wildcards_apart-Apart (split b'.' key) (ground arith),
)
