-- ===== src/Files.antt =====
-- `file_helper` of HareMQ/mqcommon/helper.hpp over a file system in memory: a map from paths to
-- bytes. The disk does not fail by itself: a call fails where the file is missing or too short.
pub mod Laws
pub mod Directories
use hare_mq.Base.{
  ℕ, ◌+◌, ◌-◌, Bool, true, false, List, [], ◌∷◌, ◌++◌, Option, none, some, Text, text_discrete, leb,
  if◌then◌else◌, length, take, drop, replicate, Map, find, assign, erase,
}

abbrev pub Files : Type 0
Files = Map Text Text

unfoldable pub exists : Files → Text → Bool
unfolding find
exists fs path = elim (find text_discrete path fs) [ none ↦ false | some _ ↦ true ]

unfoldable pub size : Files → Text → ℕ
unfolding find
size fs path = elim (find text_discrete path fs) [ none ↦ 0 | some bytes ↦ length bytes ]

-- `read(body, offset, len)`: `none` if the file is missing or ends before the last byte.
unfoldable pub read : Files → Text → ℕ → ℕ → Option Text
unfolding find
read fs path offset len = elim (find text_discrete path fs) [
  | none ↦ none
  | some bytes ↦
      if leb (offset + len) (length bytes) then some (take len (drop offset bytes)) else none
]

-- A write at `offset`: what it leaves before and behind stays; a gap is filled with zeros.
unfoldable pub overwrite : Text → ℕ → Text → Text
overwrite bytes offset body =
    (take offset bytes ++ replicate (offset - length bytes) 0)
    ++ (body ++ drop (offset + length body) bytes)

-- `write(body, offset, len)`: the file is opened for reading and writing, so it has to exist.
unfoldable pub write : Files → Text → ℕ → Text → Files × Bool
unfolding find assign overwrite
write fs path offset body = elim (find text_discrete path fs) [
  | none ↦ (fs, false)
  | some bytes ↦ (assign text_discrete path (overwrite bytes offset body) fs, true)
]

-- `create`: a file that exists is emptied. It stands for a path in a directory that is there, whose
-- last part can be the name of a file; where the code cannot open the path, it returns false.
unfoldable pub create : Files → Text → Files
unfolding assign
create fs path = assign text_discrete path [] fs

unfoldable pub remove : Files → Text → Files × Bool
unfolding find erase
remove fs path = elim (find text_discrete path fs) [
  | none ↦ (fs, false)
  | some _ ↦ (erase text_discrete path fs, true)
]

-- `rename`: a file that stands under the new name is replaced.
unfoldable pub rename : Files → Text → Text → Files × Bool
unfolding find assign erase
rename fs path name = elim (find text_discrete path fs) [
  | none ↦ (fs, false)
  | some bytes ↦ (assign text_discrete name bytes (erase text_discrete path fs), true)
]
