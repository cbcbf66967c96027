-- ===== src/Args/Roundtrip.antt =====
-- What reading back the stored text of the arguments gives.
use mathlib.Core.List.{map-append}
use hare_mq.Base.{
  ℕ, suc, ◌≡◌, refl, ◌≢◌, List, [], ◌∷◌, ◌++◌, map, some, Text, text_discrete, arith, drop, length,
  take-append, Map, insert, insert_all, Distinct, insert_all-append, insert_all-Distinct,
}
use hare_mq.Split.{Splitter, All, IsPiece, SplitsJoined, join_ended}
use hare_mq.Args.{find_char, arg_entry, set_args, get_args}

abbrev Free : ℕ → Text → Type 0
Free ch = All (λ c. c ≢ ch)

-- Keys without `=` and `&`, values without `&`.
abbrev pub IsPlain : Map Text Text → Type 0
IsPlain [] = Unit
IsPlain ((key, val) ∷ args) = Free b'=' key × Free b'&' key × Free b'&' val × IsPlain args

pieces : Map Text Text → List Text
pieces [] = []
pieces ((key, val) ∷ args) = (key ++ b'=' ∷ val) ∷ pieces args

get_args-join_ended : (args : Map Text Text) → get_args args ≡ join_ended b'&' (pieces args)
unfolding get_args pieces join_ended
get_args-join_ended [] = refl
get_args-join_ended ((key, val) ∷ args) = rw (get_args-join_ended args)

Free-append : (ch : ℕ) (s t : Text) → Free ch s → Free ch t → Free ch (s ++ t)
Free-append ch [] t h k = k
Free-append ch (c ∷ s) t h k = (h.0, Free-append ch s t h.1 k)

pair-IsPiece : (key val : Text) → Free b'&' key → Free b'&' val → IsPiece b'&' (key ++ b'=' ∷ val)
pair-IsPiece [] val h k = ((λ e. cc), ((λ e. ground arith), k))
pair-IsPiece (c ∷ key) val h k =
    ((λ e. cc), Free-append b'&' (c ∷ key) (b'=' ∷ val) h ((λ e. ground arith), k))

pieces-All : (args : Map Text Text) → IsPlain args → All (IsPiece b'&') (pieces args)
unfolding pieces
pieces-All [] p = tt
pieces-All ((key, val) ∷ args) p = (pair-IsPiece key val p.1 p.2, pieces-All args p.3)

find_char-append : (ch : ℕ) (s t : Text) → Free ch s → find_char ch (s ++ ch ∷ t) ≡ some (length s)
unfolding find_char
find_char-append ch [] t h = ground arith
find_char-append ch (c ∷ s) t h = rw (find_char-append ch s t h.1) (ground arith)

drop-suc-append : (s : Text) (c : ℕ) (t : Text) → drop (suc (length s)) (s ++ c ∷ t) ≡ t
drop-suc-append [] c t = refl
drop-suc-append (d ∷ s) c t = drop-suc-append s c t

arg_entry-piece : (key val : Text) → Free b'=' key → arg_entry (key ++ b'=' ∷ val) ≡ (key, val)
unfolding arg_entry
arg_entry-piece key val h = rw (
  find_char-append b'=' key val h,
  arg_entry,
  take-append key (b'=' ∷ val),
  drop-suc-append key b'=' val,
)

entries-pieces : (args : Map Text Text) → IsPlain args → map arg_entry (pieces args) ≡ args
unfolding pieces
entries-pieces [] p = refl
entries-pieces ((key, val) ∷ args) p = rw (arg_entry-piece key val p.0, entries-pieces args p.3)

-- For a splitter with the documented law: if no key holds `=` or `&`, no value holds `&` and no
-- key stands twice, reading back the text that `get_args` writes gives the same arguments and,
-- unless the empty key is there, an extra entry with the empty key and the empty value.
pub set_args-get_args :
    (split : Splitter) (args : Map Text Text)
    → SplitsJoined split
    → IsPlain args
    → Distinct text_discrete args
    → set_args split (get_args args) [] ≡ insert text_discrete [] [] args
unfolding set_args
set_args-get_args split args law p d =
    rw
      (
        get_args-join_ended args,
        law b'&' (pieces args) (pieces-All args p),
        map-append arg_entry (pieces args) ([] ∷ []),
        entries-pieces args p,
        insert_all-append text_discrete args (arg_entry [] ∷ []) [],
        insert_all-Distinct text_discrete args d,
      )
      (unfold arg_entry find_char insert_all in refl)
