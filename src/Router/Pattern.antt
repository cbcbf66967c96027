-- ===== src/Router/Pattern.antt =====
-- What a topic pattern means, word by word, independent of the table of route.hpp.
use mathlib.Core.List.{reverse, reverse-cons, reverse-append, append_assoc, append-nil}
use hare_mq.Base.{◌≡◌, List, [], ◌∷◌, ◌++◌, Text}
use hare_mq.Router.{star, hash}

-- A literal word stands for itself, `*` for one word, `#` for any number of words.
pub data Matches : List Text → List Text → Type 0 where
  done : Matches [] []
  word : {p r : List Text} (b w : Text) → b ≡ w → Matches p r → Matches (b ∷ p) (w ∷ r)
  any_word : {p r : List Text} (b w : Text) → b ≡ star → Matches p r → Matches (b ∷ p) (w ∷ r)
  any_words :
      {p r s : List Text} (b : Text) (ws : List Text)
      → b ≡ hash
      → s ≡ ws ++ r
      → Matches p r
      → Matches (b ∷ p) s

Matches-append : {p r q s : List Text} → Matches p r → Matches q s → Matches (p ++ q) (r ++ s)
Matches-append done n = n
Matches-append (word b w e m) n = word b w e (Matches-append m n)
Matches-append (any_word b w e m) n = any_word b w e (Matches-append m n)
Matches-append {s} (any_words {r} b ws e f m) n =
    any_words b ws e (rw f (append_assoc ws r s)) (Matches-append m n)

-- The meaning does not depend on the direction of reading.
pub Matches-reverse : {p r : List Text} → Matches p r → Matches (reverse p) (reverse r)
Matches-reverse done = done
Matches-reverse (word {p} {r} b w e m) =
    rw (reverse-cons b p, reverse-cons w r) (Matches-append (Matches-reverse m) (word b w e done))
Matches-reverse (any_word {p} {r} b w e m) =
    rw (reverse-cons b p, reverse-cons w r)
      (Matches-append (Matches-reverse m) (any_word b w e done))
Matches-reverse (any_words {p} {r} b ws e f m) =
    rw (reverse-cons b p, f, reverse-append ws r)
      (Matches-append (Matches-reverse m) (any_words b (reverse ws) e (rw append-nil) done))
