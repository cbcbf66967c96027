-- ===== src/Files/Directories/Created.antt =====
-- helper.hpp, `create_dir`: which directories are there afterwards.
use hare_mq.Base.{Bool, true, false, List, [], ◌∷◌, ◌++◌, Text, if◌then◌else◌, ◌==◌}

-- The directories on the way, and the last one unless it ends in `/`.
abbrev pub on_way_from : Text → Bool → Text → List Text
on_way_from seen true [] = seen ∷ []
on_way_from seen false [] = []
on_way_from seen open_part (c ∷ path) =
    let next = on_way_from (seen ++ c ∷ []) false path in
    let along = on_way_from (seen ++ c ∷ []) true path in if c == b'/' then seen ∷ next else along

abbrev pub on_way : Text → List Text
on_way path = on_way_from [] false path

-- The path does not end in `/`: the last part is made after the loop.
abbrev pub ends_open : Bool → Text → Bool
ends_open open_part [] = open_part
ends_open open_part (c ∷ path) =
    let next = ends_open false path in
    let along = ends_open true path in if c == b'/' then next else along
