-- ===== src/Common/Text/Search.antt =====
-- The first place of a text within another.
use mathlib.Core.Option.{Option}
use Prim.Native.String.{String}
use bcvk.Common.Tests.{or_else}
use bcvk.Common.Text.{strip_prefix}

-- what follows the first place: `str::split_once`, for what comes after
unfoldable pub after : String → String → Option String
after p String.[] = strip_prefix p ""
after p (String.◌∷◌ c s) = or_else (strip_prefix p (String.◌∷◌ c s)) (after p s)
