-- ===== src/Router/Tests.antt =====
-- The router at concrete keys.
use hare_mq.Base.{true, false, ◌≡◌, refl, ◌↔◌, [], ◌∷◌, Text, codes, text_discrete, ℕ_discrete}
use hare_mq.Split.{split_on, split_on-KeepsChars, All}
use hare_mq.Proto.{direct, topic}
use hare_mq.Router.{route, is_legal_routing_key, is_legal_binding_key}
use hare_mq.Router.Pattern.{Matches}
use hare_mq.Router.Matching.{route-topic_iff, route-hash_word}
use hare_mq.Router.Keys.{route-legal_iff, is_legal_binding_key-words, IsPatternWord, Apart}

abbrev news : Text
news = codes "news.music.pop"

abbrev all_music : Text
all_music = codes "news.music.#"

routes :
    (route (split_on b'.') topic news all_music ≡ true)
    × (route (split_on b'.') topic news (codes "news.*.*") ≡ true)
    × (route (split_on b'.') topic news (codes "*.pop") ≡ false)
    × (route (split_on b'.') topic news (codes "#.pop") ≡ true)
    × (route (split_on b'.') direct news all_music ≡ false)
unfolding route split_on ℕ_discrete
routes = (refl, refl, refl, refl, refl)

legal :
    (is_legal_binding_key (split_on b'.') all_music ≡ true)
    × (is_legal_binding_key (split_on b'.') (codes "a.#.*") ≡ false)
    × (is_legal_binding_key (split_on b'.') (codes "a.#b") ≡ false)
    × (is_legal_routing_key news ≡ true)
unfolding is_legal_binding_key is_legal_routing_key split_on text_discrete ℕ_discrete
legal = (refl, refl, refl, refl)

route-topic_iff_example :
    (route (split_on b'.') topic news all_music ≡ true)
    ↔ Matches (split_on b'.' all_music) (split_on b'.' news)
unfolding split_on
route-topic_iff_example =
    route-topic_iff (split_on b'.') news all_music ((λ e. cc), ((λ e. cc), ((λ e. cc), tt)))

route-legal_iff_example :
    (route (split_on b'.') topic news all_music ≡ true)
    ↔ Matches (split_on b'.' all_music) (split_on b'.' news)
route-legal_iff_example = route-legal_iff split_on news all_music split_on-KeepsChars legal.3

route-hash_word_example :
    (route (split_on b'.') topic (codes "news.#") (codes "#") ≡ false)
    × Matches (split_on b'.' (codes "#")) (split_on b'.' (codes "news.#"))
unfolding split_on
route-hash_word_example =
    route-hash_word (split_on b'.') (codes "news.#") (codes "#") (codes "news" ∷ []) (λ e. cc) refl
      refl

is_legal_binding_key-words_example :
    All IsPatternWord (split_on b'.' all_music) × Apart (split_on b'.' all_music)
is_legal_binding_key-words_example = is_legal_binding_key-words split_on all_music legal.0
