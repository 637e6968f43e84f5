-- ===== src/InstanceType/Names.antt =====
-- The names and the sizes of the instance types (crates/kit/src/instancetypes.rs).
use bcvk.Common.{some, ◌≡◌, refl}
use bcvk.InstanceType.{
  InstanceType, u1_nano, u1_micro, u1_small, u1_medium, u1_two_x_medium, u1_large, u1_x_large,
  u1_two_x_large, u1_four_x_large, u1_eight_x_large, from_text, to_text,
}

-- The name of an instance type is read back as that instance type.
pub from_text-to_text : (t : InstanceType) → from_text (to_text t) ≡ some t
unfolding from_text to_text
from_text-to_text u1_nano = refl
from_text-to_text u1_micro = refl
from_text-to_text u1_small = refl
from_text-to_text u1_medium = refl
from_text-to_text u1_two_x_medium = refl
from_text-to_text u1_large = refl
from_text-to_text u1_x_large = refl
from_text-to_text u1_two_x_large = refl
from_text-to_text u1_four_x_large = refl
from_text-to_text u1_eight_x_large = refl
