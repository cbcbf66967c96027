-- ===== src/Router/Matching.antt =====
-- `router::route` decides what the patterns mean.
use mathlib.Core.List.{reverse, reverse-append, reverse-cons, reverse-reverse, append-nil}
use hare_mq.Base.{
  true, false, ◌≡◌, refl, sym, ◌∙◌, ◌≢◌, ◌↔◌, List, [], ◌∷◌, ◌++◌, Text, text_discrete, arith,
}
use hare_mq.Proto.{topic}
use hare_mq.Router.{hash, dp_matching, route}
use hare_mq.Router.Pattern.{Matches, done, any_words, Matches-reverse}
use hare_mq.Router.Words.{match_words, match_words_iff, NoHash, NoHash-reverse, prefix_rev-reverse}
use hare_mq.Router.Table.{dp_matching-match_words}

Matches-reverse_iff : (p r : List Text) → Matches (reverse p) (reverse r) ↔ Matches p r
Matches-reverse_iff p r =
    (λ m. rw (← reverse-reverse p, ← reverse-reverse r) (Matches-reverse m), Matches-reverse)

dp_matching-reverse :
    (bs rs : List Text) → dp_matching bs rs ≡ match_words (reverse bs) (reverse rs)
dp_matching-reverse bs rs =
    rw (dp_matching-match_words bs rs, prefix_rev-reverse bs, prefix_rev-reverse rs)

pub dp_matching_iff : (bs rs : List Text) → NoHash rs → (dp_matching bs rs ≡ true) ↔ Matches bs rs
dp_matching_iff bs rs n =
    let e = match_words_iff (reverse bs) (reverse rs) (NoHash-reverse rs n) in
    let f = Matches-reverse_iff bs rs in
    (
      λ h. f.0 (e.0 (sym (dp_matching-reverse bs rs) ∙ h)),
      λ m. dp_matching-reverse bs rs ∙ e.1 (f.1 m),
    )

match_words-nil : (ws : List Text) (w : Text) → match_words [] (ws ++ w ∷ []) ≡ false
unfolding match_words
match_words-nil [] w = refl
match_words-nil (v ∷ ws) w = refl

match_words-last_hash :
    (ws : List Text)
    → ws ≢ []
    → match_words (reverse (hash ∷ [])) (reverse (ws ++ hash ∷ [])) ≡ false
match_words-last_hash [] h = absurd (h refl)
match_words-last_hash (w ∷ ws) h =
    rw (reverse-append (w ∷ ws) (hash ∷ []), reverse-cons w ws)
      (unfold match_words text_discrete in ground (arith, match_words-nil (reverse ws) w))

module _ (split : Text → List Text) where
  -- A topic exchange passes a message to a binding exactly when the words of the routing key match
  -- the words of the binding key, provided that no word of the routing key is `#`.
  pub route-topic_iff :
      (routing_key binding_key : Text)
      → NoHash (split routing_key)
      → (route split topic routing_key binding_key ≡ true)
        ↔ Matches (split binding_key) (split routing_key)
  unfolding route
  route-topic_iff routing_key binding_key n =
      dp_matching_iff (split binding_key) (split routing_key) n

  -- If the last of two or more words of a routing key is `#`, the binding key `#` does not get the
  -- message, although `#` stands for any words.
  pub route-hash_word :
      (routing_key binding_key : Text) (ws : List Text)
      → ws ≢ []
      → split routing_key ≡ ws ++ hash ∷ []
      → split binding_key ≡ hash ∷ []
      → (route split topic routing_key binding_key ≡ false)
        × Matches (split binding_key) (split routing_key)
  unfolding route
  route-hash_word routing_key binding_key ws h e f =
      rw (e, f)
        (
          dp_matching-reverse (hash ∷ []) (ws ++ hash ∷ []) ∙ match_words-last_hash ws h,
          any_words hash (ws ++ hash ∷ []) refl (sym (append-nil _)) done,
        )
