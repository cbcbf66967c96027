-- ===== src/Router/Words.antt =====
-- The recurrence of the table of route.hpp as a function on words, and what it decides.
use hare_mq.Base.{
  ℕ, zero, suc, Bool, true, false, ◌&&◌, ◌||◌, ◌≡◌, refl, ap, ◌∙◌, ◌≢◌, ◌↔◌, List, [], ◌∷◌, ◌++◌,
  Text, text_discrete, text_eq, arith, if◌then◌else◌, Bool-cases, inl, inr, length, get_or,
}
use mathlib.Core.List.{reverse, reverse-cons}
use hare_mq.Router.{star, hash}
use hare_mq.Router.Pattern.{Matches, done, word, any_word, any_words}

unfoldable pub match_words : List Text → List Text → Bool
match_words [] [] = true
match_words [] (r ∷ rs) = false
match_words (b ∷ bs) [] = text_eq b hash && match_words bs []
match_words (b ∷ bs) (r ∷ rs) =
    if text_eq b r || text_eq b star
    then match_words bs rs
    else if text_eq b hash
    then match_words bs rs || match_words (b ∷ bs) rs || match_words bs (r ∷ rs)
    else false

-- No word of a routing key is `#`.
abbrev pub NoHash : List Text → Type 0
NoHash [] = Unit
NoHash (r ∷ rs) = (r ≢ hash) × NoHash rs

Matches-grow :
    {b : Text} {p s : List Text} (r : Text) → b ≡ hash → Matches (b ∷ p) s → Matches (b ∷ p) (r ∷ s)
Matches-grow r e (word b w f m) = any_words b (r ∷ w ∷ []) e refl m
Matches-grow r e (any_word b w f m) = any_words b (r ∷ w ∷ []) e refl m
Matches-grow r e (any_words b ws f g m) = any_words b (r ∷ ws) e (ap (◌∷◌ r) g) m

-- The three ways in which `#` goes on.

match_words_sound : (p r : List Text) → match_words p r ≡ true → Matches p r
unfolding match_words
match_words_sound [] [] h = done
match_words_sound [] (r ∷ rs) h = absurd (ground arith)
match_words_sound (b ∷ bs) [] h =
    any_words b [] (ground arith) refl (match_words_sound bs [] (ground arith))
match_words_sound (b ∷ bs) (r ∷ rs) h = elim (text_discrete b r) [
  | yes e ↦ word b r e (match_words_sound bs rs (ground arith))
  | no n ↦ elim (text_discrete b star) [
    | yes e ↦ any_word b r e (match_words_sound bs rs (ground arith))
    | no m ↦ elim (text_discrete b hash) [
      | no k ↦ absurd (ground arith)
      | yes e ↦ elim (Bool-cases (match_words bs rs)) [
        | inl t ↦ any_words b (r ∷ []) e refl (match_words_sound bs rs t)
        | inr f ↦ elim (Bool-cases (match_words (b ∷ bs) rs)) [
          | inl t ↦ Matches-grow r e (match_words_sound (b ∷ bs) rs t)
          | inr g ↦ any_words b [] e refl (match_words_sound bs (r ∷ rs) (ground arith))
        ]
      ]
    ]
  ]
]

star-ne-hash : star ≢ hash
star-ne-hash e = ground arith

match_words-hash :
    (b : Text) (p ws r : List Text)
    → b ≡ hash
    → NoHash (ws ++ r)
    → match_words p r ≡ true
    → match_words (b ∷ p) (ws ++ r) ≡ true
unfolding match_words
match_words-hash b p [] [] e n h = ground arith
match_words-hash b p [] (x ∷ r) e n h = ground (arith, star-ne-hash)
match_words-hash b p (w ∷ ws) r e n h =
    ground (arith, star-ne-hash, match_words-hash b p ws r e n.1 h)

NoHash-append : (ws r : List Text) → NoHash (ws ++ r) → NoHash r
NoHash-append [] r n = n
NoHash-append (w ∷ ws) r n = NoHash-append ws r n.1

match_words_complete : {p r : List Text} → NoHash r → Matches p r → match_words p r ≡ true
unfolding match_words
match_words_complete n done = refl
match_words_complete n (word b w e m) = ground (arith, match_words_complete n.1 m)
match_words_complete n (any_word b w e m) = ground (arith, match_words_complete n.1 m)
match_words_complete n (any_words {p} {r} b ws e f m) = rw f (
    match_words-hash b p ws r e (rw f at n)
      (match_words_complete (NoHash-append ws r (rw f at n)) m))

pub match_words_iff : (p r : List Text) → NoHash r → (match_words p r ≡ true) ↔ Matches p r
match_words_iff p r n = (match_words_sound p r, match_words_complete n)

-- The first `i` words, last one first.
unfoldable pub prefix_rev : List Text → ℕ → List Text
prefix_rev xs zero = []
prefix_rev xs (suc i) = get_or xs i [] ∷ prefix_rev xs i

prefix_rev-cons :
    (x : Text) (xs : List Text) (n : ℕ) → prefix_rev (x ∷ xs) (suc n) ≡ prefix_rev xs n ++ x ∷ []
unfolding prefix_rev
prefix_rev-cons x xs zero = refl
prefix_rev-cons x xs (suc n) = ap (◌∷◌ (get_or xs n [])) (prefix_rev-cons x xs n)

pub prefix_rev-reverse : (xs : List Text) → prefix_rev xs (length xs) ≡ reverse xs
unfolding prefix_rev
prefix_rev-reverse [] = refl
prefix_rev-reverse (x ∷ xs) =
    prefix_rev-cons x xs (length xs) ∙ (rw (prefix_rev-reverse xs, reverse-cons x xs))

NoHash-snoc : (r : List Text) (w : Text) → NoHash r → w ≢ hash → NoHash (r ++ w ∷ [])
NoHash-snoc [] w n h = (h, tt)
NoHash-snoc (x ∷ r) w n h = (n.0, NoHash-snoc r w n.1 h)

pub NoHash-reverse : (r : List Text) → NoHash r → NoHash (reverse r)
NoHash-reverse [] n = tt
NoHash-reverse (w ∷ r) n =
    rw (reverse-cons w r) (NoHash-snoc (reverse r) w (NoHash-reverse r n.1) n.0)
