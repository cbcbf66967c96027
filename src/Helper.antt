-- ===== src/Helper.antt =====
-- HareMQ/mqcommon/helper.hpp: `map_helper`.
pub mod Uuid
pub mod Unique
mod Tests
use mathlib.Core.List.{append-nil, append_assoc}
use hare_mq.Base.{
  ◌≡◌, refl, sym, ◌∙◌, [], ◌∷◌, ◌++◌, none, arith, Text, text_discrete, Map, find, assign, Distinct,
  Distinct-middle,
}

-- The loop of both conversions, `to[kv.first] = kv.second` for each entry.
unfoldable pub assign_all : Map Text Text → Map Text Text → Map Text Text
unfolding assign
assign_all [] to = to
assign_all ((k, v) ∷ from) to = assign_all from (assign text_discrete k v to)

-- `ConvertStdMapToProtoMap` and `ConvertProtoMapToStdMap`, which are the same loop.
unfoldable pub convert_map : Map Text Text → Map Text Text
unfolding assign_all
convert_map m = assign_all m []

-- `m[k] = v` for a new key appends the entry.
assign_absent :
    (k v : Text) (m : Map Text Text)
    → find text_discrete k m ≡ none
    → assign text_discrete k v m ≡ m ++ (k, v) ∷ []
unfolding find assign
assign_absent k v [] h = refl
assign_absent k v ((j, w) ∷ m) h = ground (arith, assign_absent k v m)

assign_all_disjoint :
    (from to : Map Text Text)
    → Distinct text_discrete (to ++ from)
    → assign_all from to ≡ to ++ from
unfolding assign_all
assign_all_disjoint [] to d = sym (append-nil to)
assign_all_disjoint ((k, v) ∷ from) to d =
    rw (assign_absent k v to (Distinct-middle text_discrete to from k v d)) (
      assign_all_disjoint from (to ++ (k, v) ∷ []) (rw append_assoc d)
      ∙ append_assoc to ((k, v) ∷ []) from)

-- A map, whose keys are distinct, is converted to itself.
pub convert_map-Distinct : (m : Map Text Text) → Distinct text_discrete m → convert_map m ≡ m
unfolding convert_map
convert_map-Distinct m d = assign_all_disjoint m [] d
