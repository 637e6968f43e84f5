-- ===== src/InstanceType.antt =====
-- crates/kit/src/instancetypes.rs: the U series of instance types.
pub mod Names
use bcvk.Common.{
  ℕ, String, Option, none, some, ◌≡◌, refl, ◌==◌, if◌then◌else◌, ◌≤◌, ◌<◌, arith, ◌*◌,
}

pub data InstanceType : Type 0 where
  u1_nano u1_micro u1_small u1_medium u1_two_x_medium u1_large u1_x_large u1_two_x_large
        u1_four_x_large u1_eight_x_large :
      InstanceType

-- `strum::Display`, by the `serialize` attributes
unfoldable pub to_text : InstanceType → String
to_text u1_nano = "u1.nano"
to_text u1_micro = "u1.micro"
to_text u1_small = "u1.small"
to_text u1_medium = "u1.medium"
to_text u1_two_x_medium = "u1.2xmedium"
to_text u1_large = "u1.large"
to_text u1_x_large = "u1.xlarge"
to_text u1_two_x_large = "u1.2xlarge"
to_text u1_four_x_large = "u1.4xlarge"
to_text u1_eight_x_large = "u1.8xlarge"

-- `strum::EnumString`
unfoldable pub from_text : String → Option InstanceType
from_text s =
    if s == "u1.nano"
    then some u1_nano
    else if s == "u1.micro"
    then some u1_micro
    else if s == "u1.small"
    then some u1_small
    else if s == "u1.medium"
    then some u1_medium
    else if s == "u1.2xmedium"
    then some u1_two_x_medium
    else if s == "u1.large"
    then some u1_large
    else if s == "u1.xlarge"
    then some u1_x_large
    else if s == "u1.2xlarge"
    then some u1_two_x_large
    else if s == "u1.4xlarge"
    then some u1_four_x_large
    else if s == "u1.8xlarge"
    then some u1_eight_x_large
    else none

unfoldable pub vcpus : InstanceType → ℕ
vcpus u1_nano = 1
vcpus u1_micro = 1
vcpus u1_small = 1
vcpus u1_medium = 1
vcpus u1_two_x_medium = 2
vcpus u1_large = 2
vcpus u1_x_large = 4
vcpus u1_two_x_large = 8
vcpus u1_four_x_large = 16
vcpus u1_eight_x_large = 32

unfoldable pub memory_mb : InstanceType → ℕ
memory_mb u1_nano = 512
memory_mb u1_micro = 1024
memory_mb u1_small = 2048
memory_mb u1_medium = 4096
memory_mb u1_two_x_medium = 4096
memory_mb u1_large = 8192
memory_mb u1_x_large = 16384
memory_mb u1_two_x_large = 32768
memory_mb u1_four_x_large = 65536
memory_mb u1_eight_x_large = 131072
