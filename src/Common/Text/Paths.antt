-- ===== src/Common/Text/Paths.antt =====
-- Paths, as crates/kit uses `camino::Utf8Path`: `join`, `file_name`, `file_stem` and `parent`. The
-- standard library's rules are written out: empty and `.` components do not count.
use bcvk.Common.Tests.{if◌then◌else◌}
use bcvk.Common.Text.{format, join, starts_with, ends_with, is_empty_text, split}
use Prim.Native.String.{String}
use mathlib.Core.Bool.{Bool, ◌||◌}
use mathlib.Core.Option.{Option, none, some}
use mathlib.Core.List.{List, [], ◌∷◌, reverse}
use text.Mathlib.Text.{◌==◌}

-- `dir.join(name)`
unfoldable pub join_path : String → String → String
join_path dir name =
    if starts_with "/" name || is_empty_text dir
    then name
    else if ends_with "/" dir
    then format (dir ∷ name ∷ [])
    else format (dir ∷ "/" ∷ name ∷ [])

-- the components from the last one, without the empty and `.` ones that follow it
drop_empty : List String → List String
drop_empty [] = []
drop_empty (c ∷ rest) =
    let more = drop_empty rest in if is_empty_text c || c == "." then more else c ∷ rest

unfoldable pub from_last : String → List String
unfolding drop_empty
from_last path = drop_empty (reverse (split "/" path))

first_name : List String → Option String
first_name [] = none
first_name (c ∷ _) = if c == ".." then none else some c

unfoldable pub file_name : String → Option String
unfolding first_name from_last
file_name path = first_name (from_last path)

stem_of : String → List String → String
stem_of name [] = name
stem_of name (_ ∷ []) = name
stem_of name (last ∷ a ∷ before) =
    let stem = join "." (reverse (a ∷ before)) in if is_empty_text stem then name else stem

-- the file name up to its last dot, unless that begins it
unfoldable pub file_stem : String → String
unfolding stem_of file_name
file_stem path = elim (file_name path) [ none ↦ "" | some n ↦ stem_of n (reverse (split "." n)) ]

parent_of : Bool → List String → String
parent_of absolute [] = if absolute then "/" else ""
parent_of absolute (c ∷ rest) = join "/" (reverse (c ∷ rest))

above : List String → List String
above [] = []
above (_ ∷ rest) = rest

-- `parent()`, for a path that has a file name
unfoldable pub parent : String → String
unfolding parent_of above from_last
parent path = parent_of (starts_with "/" path) (drop_empty (above (from_last path)))
