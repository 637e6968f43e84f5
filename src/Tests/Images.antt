-- ===== src/Tests/Images.antt =====
-- The theorems on the contents of images and on their mounts, applied.
use bcvk.Common.{[], ◌∷◌, ◌≡◌, ◌≢◌, eq_iff, arith, refl, format, any_char}
use bcvk.Credentials.{guest_path_to_unit_name}
use bcvk.Credentials.UnitNames.{guest_path_to_unit_name-distinct}

guest_path_to_unit_name-distinct_example :
    guest_path_to_unit_name (format ("/" ∷ "mnt/a-b" ∷ []))
    ≢ guest_path_to_unit_name (format ("/" ∷ "mnt/a/b" ∷ []))
unfolding any_char
guest_path_to_unit_name-distinct_example =
    guest_path_to_unit_name-distinct "mnt/a-b" "mnt/a/b" refl refl
      (λ h. ground (arith, eq_iff "mnt/a-b" "mnt/a/b"))

escaped_example : guest_path_to_unit_name "/mnt/test-rw" ≡ "mnt-test\\x2drw.mount"
unfolding guest_path_to_unit_name
escaped_example = refl

backslash_example : guest_path_to_unit_name "/mnt/a-b" ≡ guest_path_to_unit_name "/mnt/a\\x2db"
unfolding guest_path_to_unit_name
backslash_example = refl
