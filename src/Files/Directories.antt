-- ===== src/Files/Directories.antt =====
-- `create_dir` and `parent_dir` of HareMQ/mqcommon/helper.hpp. `mkdir` of the system is a parameter,
-- with what its documentation says as `IsMkdir`.
mod Tests
pub mod Created
use mathlib.Core.Option
use mathlib.Core.List.{append_assoc, append-nil}
use hare_mq.Base.{
  ℕ, ◌≡◌, ◌≢◌, refl, sym, ap, ◌∙◌, Bool, true, false, List, [], ◌∷◌, ◌++◌, Option, none, some, Text,
  codes, if◌then◌else◌, ◌==◌, arith, Bool-cases, inl, inr,
}
use hare_mq.Split.{All}

-- What `mkdir` returns: 0, -1 with `EEXIST`, or -1 with another number.
pub data Made : Type 0 where
  made : Made
  exists : Made
  failed : Made

-- The directories, and the call.
pub record System : Type 1 where
  pub Dirs : Type 0
  pub mkdir : Dirs → Text → Dirs × Made

-- `has d p`: there is a directory of this name. The name may not be empty, directories stay, a call
-- that returns 0 has made one, and one that returns 0 or `EEXIST` has found directories on the way:
-- else it is `ENOENT` or `ENOTDIR`. By `EEXIST` itself the last name may be that of any file.
pub record IsMkdir (sys : System) : Type 0 where
  pub has : sys.Dirs → Text → Bool
  pub empty : (d : sys.Dirs) → sys.mkdir d [] ≡ (d, failed)
  pub kept : (d : sys.Dirs) (p q : Text) → has d q ≡ true → has (sys.mkdir d p).0 q ≡ true
  pub there : (d : sys.Dirs) (p : Text) → (sys.mkdir d p).1 ≡ made → has (sys.mkdir d p).0 p ≡ true
  pub parent :
      (d : sys.Dirs) (c : ℕ) (p q : Text)
      → (sys.mkdir d ((c ∷ p) ++ b'/' ∷ q)).1 ≢ failed
      → has d (c ∷ p) ≡ true

-- On the way it is no error if the directory is there already; at the end it is.
abbrev pub passes : Made → Bool
passes made = true
passes exists = true
passes failed = false

abbrev pub is_made : Made → Bool
is_made made = true
is_made exists = false
is_made failed = false

-- The loop of `create_dir`. `seen` is the path up to here; `open_part` says that its last part, the
-- one behind `idx`, is not empty.
module _ (sys : System) where
  open sys use {Dirs, mkdir}

  unfoldable pub create_from : Dirs → Text → Bool → Text → Dirs × Bool
  create_from d seen true [] = let (d', r) = mkdir d seen in (d', is_made r)
  create_from d seen false [] = (d, true)
  create_from d seen open_part (c ∷ path) =
      let (d', r) = mkdir d seen in
      let next = create_from d' (seen ++ c ∷ []) false path in
      let along = create_from d (seen ++ c ∷ []) true path in
      if c == b'/' then (if passes r then next else (d', false)) else along

  unfoldable pub create_dir : Dirs → Text → Dirs × Bool
  unfolding create_from
  create_dir d path = create_from d [] false path

-- `find_last_of("/")`, with what stands before it.
unfoldable pub before_last : Text → Option Text
before_last [] = none
before_last (c ∷ name) = elim (before_last name) [
  | some dir ↦ some (c ∷ dir)
  | none ↦ if c == b'/' then some [] else none
]

unfoldable pub parent_dir : Text → Text
unfolding before_last
parent_dir file_name = elim (before_last file_name) [ none ↦ codes "./" | some dir ↦ dir ]

-- `remove_dir`, for `system` of the C library: whether the shell was run, and not what came of it.
unfoldable pub remove_dir {ℓ} :
    {State : Type ℓ} → (State → Text → State × Bool) → State → Text → State × Bool
remove_dir system s path = system s (codes "rm -rf " ++ path)
