-- ===== src/Split/Laws.antt =====
-- What the documentation of `boost::split` says of the words that it returns.
use hare_mq.Base.{ℕ, Bool, true, ◌≡◌, ◌≢◌, List, [], ◌∷◌, ◌++◌, Text}

-- A separator, a text, and the words between the separators; runs of separators count as one.
abbrev pub Splitter : Type 0
Splitter = ℕ → Text → List Text

abbrev pub All {ℓ κ} : {A : Type ℓ} → (A → Type κ) → List A → Type κ
All P [] = Unit
All P (x ∷ xs) = P x × All P xs

-- Every character of a text passes the test.
abbrev pub AllChars : (ℕ → Bool) → Text → Type 0
AllChars p = All (λ c. p c ≡ true)

-- The words are made of characters of the text.
abbrev pub KeepsChars : Splitter → Type 0
KeepsChars split =
    (sep : ℕ) (p : ℕ → Bool) (text : Text) → AllChars p text → All (AllChars p) (split sep text)

-- Each piece with a separator behind it.
unfoldable pub join_ended : ℕ → List Text → Text
join_ended sep [] = []
join_ended sep (w ∷ ws) = w ++ sep ∷ join_ended sep ws

-- A piece that is not empty and holds no separator.
abbrev pub IsPiece : ℕ → Text → Type 0
IsPiece sep w = (w ≢ []) × All (λ c. c ≢ sep) w

-- A text of ended pieces is split into the pieces and the empty text behind the last separator.
abbrev pub SplitsJoined : Splitter → Type 0
SplitsJoined split =
    (sep : ℕ) (ws : List Text)
    → All (IsPiece sep) ws
    → split sep (join_ended sep ws) ≡ ws ++ [] ∷ []

-- There is one word at least.
abbrev pub SplitsSome : Splitter → Type 0
SplitsSome split = (sep : ℕ) (text : Text) → split sep text ≢ []
