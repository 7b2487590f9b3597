-- ===== src/Topic.antt =====
-- `Topic` (a17/dispatch/topic.h and topic.cpp): the full name of a topic.
pub mod Path
mod Tests
use general_tools.Common.{
  ℕ, Bool, true, false, ◌&&◌, not, List, [], ◌∷◌, ◌++◌, Text, if◌then◌else◌, ◌==◌, is_empty,
}

pub record Topic : Type 0 where
  pub device_name : Text
  pub node_name : Text
  pub topic : Text

abbrev pub slash : ℕ
slash = b'/'

-- `str.back() != '/'`, of a string that is not empty.
abbrev pub ends_open : Text → Bool
ends_open [] = false
ends_open (c ∷ []) = not (c == slash)
ends_open (c ∷ d ∷ cs) = ends_open (d ∷ cs)

-- One `if` of `str()`: the name so far, and the part that comes behind it.
unfoldable pub append_part : Text → Text → Text
append_part s part =
    if is_empty part
    then s
    else if not (is_empty s) && ends_open s
    then s ++ (slash ∷ part)
    else s ++ part

unfoldable pub str : Topic → Text
unfolding append_part
str t =
    append_part (append_part (if is_empty t.device_name then [] else t.device_name) t.node_name)
      t.topic
