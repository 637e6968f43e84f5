-- ===== src/Ephemeral/Podman/Hint.antt =====
-- crates/kit/src/podman_hint.rs: the text of the error where podman does not see a path that bcvk sees.
use bcvk.Common.{
  String, Bool, Option, none, some, List, [], ◌∷◌, if◌then◌else◌, format, trim_end, lines,
  strip_suffix,
}
use bcvk.Common.Text.Search.{after}

-- the source of a bind mount that podman reports missing
unfoldable pub missing_bind_source : List String → Option String
missing_bind_source [] = none
missing_bind_source (line ∷ more) =
    let later = missing_bind_source more in
    elim (after "statfs " line) [
      | none ↦ later
      | some rest ↦ elim (strip_suffix ": no such file or directory" (trim_end rest)) [
        | none ↦ later
        | some path ↦ some path
      ]
    ]

unfoldable pub with_hint_if : String → String → (String → Bool) → String
unfolding missing_bind_source
with_hint_if e stderr exists = elim (missing_bind_source (lines stderr)) [
  | none ↦ e
  | some path ↦
      if exists path
      then format (
          "podman could not find " ∷ path
          ∷ ", but bcvk can see it: podman is not seeing bcvk's filesystem" ∷ [])
      else e
]
