-- ===== src/Split.antt =====
-- `string_helper::split` of HareMQ/mqcommon/helper.hpp. It calls `boost::split`, which is no part
-- of the repository: the models take the function as a parameter, and the theorems that need its
-- documented behaviour name it by one of the predicates below.
mod Laws
mod Sample
unfoldable pub use Laws.*
unfoldable pub use Sample.{split_on}
pub use Sample.{split_on-KeepsChars, split_on-SplitsJoined, split_on-SplitsSome}
