-- ===== src/Router.antt =====
-- HareMQ/mqserver/route.hpp: the legality of keys and the routing decision.
-- `split` stands for `string_helper::split(key, ".", ...)`, which calls Boost.
pub mod Pattern
mod Words
mod Fill
mod Table
pub mod Matching
pub mod Keys
mod Tests
use hare_mq.Base.{
  ℕ, zero, suc, ◌+◌, ◌-◌, Bool, true, false, ◌&&◌, ◌||◌, not, List, [], ◌∷◌, Text, codes, text_eq,
  text_discrete, ltb, leb, ◌==◌, if◌then◌else◌, length, get_or, set, replicate,
}
use hare_mq.Proto.{ExchangeType, unknown_type, direct, fanout, topic}

abbrev pub star : Text
star = codes "*"

abbrev pub hash : Text
hash = codes "#"

-- The test of one character in `is_legal_routing_key`.
unfoldable pub is_routing_char : ℕ → Bool
is_routing_char ch =
    (leb b'a' ch && leb ch b'z')
    || (leb b'A' ch && leb ch b'Z')
    || (leb b'0' ch && leb ch b'9')
    || ch == b'_'
    || ch == b'.'

unfoldable pub is_legal_routing_key : Text → Bool
unfolding is_routing_char
is_legal_routing_key [] = true
is_legal_routing_key (ch ∷ key) = if is_routing_char ch then is_legal_routing_key key else false

-- The test of one character in `is_legal_binding_key`.
unfoldable pub is_binding_char : ℕ → Bool
unfolding is_routing_char
is_binding_char ch = is_routing_char ch || ch == b'*' || ch == b'#'

unfoldable pub all_binding_chars : Text → Bool
unfolding is_binding_char
all_binding_chars [] = true
all_binding_chars (ch ∷ key) = if is_binding_char ch then all_binding_chars key else false

-- `e.find(ch) != npos`.
unfoldable pub contains : ℕ → Text → Bool
contains ch [] = false
contains ch (c ∷ word) = c == ch || contains ch word

-- Step 2: `*` and `#` are words of their own.
unfoldable pub wildcards_alone : List Text → Bool
unfolding contains
wildcards_alone [] = true
wildcards_alone (e ∷ sub) =
    if ltb 1 (length e) && (contains b'*' e || contains b'#' e) then false else wildcards_alone sub

-- The pairs of neighbours that step 3 refuses: `*.#`, `#.#` and `#.*`.
unfoldable pub is_bad_pair : Text → Text → Bool
is_bad_pair before here =
    (text_eq here hash && text_eq before star)
    || (text_eq here hash && text_eq before hash)
    || (text_eq here star && text_eq before hash)

-- Step 3: the loop over neighbours.
unfoldable pub wildcards_apart : List Text → Bool
unfolding is_bad_pair text_discrete
wildcards_apart [] = true
wildcards_apart (e ∷ []) = true
wildcards_apart (e ∷ f ∷ sub) = if is_bad_pair e f then false else wildcards_apart (f ∷ sub)

-- The table `dp`, and its cells. The loops stay inside the table.
abbrev pub Cells : Type 0
Cells = List (List Bool)

abbrev pub cell : Cells → ℕ → ℕ → Bool
cell dp i j = get_or (get_or dp i []) j false

abbrev pub set_cell : Cells → ℕ → ℕ → Bool → Cells
set_cell dp i j v = set dp i (set (get_or dp i []) j v)

-- `rounds` rounds of a counting loop, the first at index `i`.
unfoldable pub for_from {ℓ} : {S : Type ℓ} → ℕ → ℕ → (ℕ → S → S) → S → S
for_from zero i body s = s
for_from (suc rounds) i body s = for_from rounds (suc i) body (body i s)

-- Step 3 of `__dp_matching`: column 0 below the leading `#` words, up to the `break`.
unfoldable pub mark_hashes : List Text → ℕ → Cells → Cells
unfolding text_discrete
mark_hashes [] i dp = dp
mark_hashes (b ∷ bkeys) i dp =
    if text_eq b hash then mark_hashes bkeys (suc i) (set_cell dp i 0 true) else dp

module _ (bkeys rkeys : List Text) where
  -- The body of the inner loop of step 4, at `dp[i][j]`; both loops start at 1.
  unfoldable pub fill_cell : ℕ → ℕ → Cells → Cells
  unfolding text_discrete
  fill_cell i j dp =
      let b = get_or bkeys (i - 1) [] in
      let r = get_or rkeys (j - 1) [] in
      if text_eq b r || text_eq b star
      then set_cell dp i j (cell dp (i - 1) (j - 1))
      else if text_eq b hash
      then set_cell dp i j (cell dp (i - 1) (j - 1) || cell dp i (j - 1) || cell dp (i - 1) j)
      else dp

  unfoldable pub fill_row : ℕ → Cells → Cells
  unfolding for_from fill_cell
  fill_row i dp = for_from (length rkeys) 1 (fill_cell i) dp

  -- `__dp_matching` after the two keys are split.
  unfoldable pub dp_matching : Bool
  unfolding mark_hashes for_from fill_row
  dp_matching =
      let empty =
        replicate {A = List Bool} (length bkeys + 1) (replicate (length rkeys + 1) false) in
      let started = mark_hashes bkeys 1 (set_cell empty 0 0 true) in
      cell (for_from (length bkeys) 1 fill_row started) (length bkeys) (length rkeys)

module _ (split : Text → List Text) where
  unfoldable pub is_legal_binding_key : Text → Bool
  unfolding all_binding_chars wildcards_alone wildcards_apart
  is_legal_binding_key key =
      if not (all_binding_chars key)
      then false
      else if not (wildcards_alone (split key))
      then false
      else wildcards_apart (split key)

  unfoldable pub route : ExchangeType → Text → Text → Bool
  unfolding dp_matching text_discrete
  route direct routing_key binding_key = text_eq routing_key binding_key
  route fanout routing_key binding_key = true
  route topic routing_key binding_key = dp_matching (split binding_key) (split routing_key)
  route unknown_type routing_key binding_key = dp_matching (split binding_key) (split routing_key)
