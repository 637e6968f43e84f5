-- ===== src/Tests.antt =====
-- Concrete hosts and domains that the theorems are applied to.
pub mod Removal
pub mod Disks
pub mod Texts
pub mod Machines
pub mod Images
pub mod Keys
pub mod Logs
pub mod Runs
pub mod Installs
pub mod Podman
use bcvk.Common.{ℕ, String, List, [], ◌∷◌, Option, none, some, Bool, true, false}
use bcvk.Result.{Result, ok, err}
use bcvk.Host.{Host, Machine, Action, Output, QemuImgInfo}
use bcvk.Host.Persisted.{moved}
use bcvk.Xml.{Event}
use bcvk.DomainList.{PodmanBootcDomain}

abbrev pub printed : String → Output
printed text = record { success = true; stdout = text; stderr = "" }

abbrev pub failed : String → Output
failed text = record { success = false; stdout = ""; stderr = text }

abbrev pub overlay : QemuImgInfo
overlay = record {
  virtual_size = 1024;
  backing_filename = some "other.qcow2";
  full_backing_filename = none;
}

-- `answer` is what every virsh command comes to, and `there` whether files exist.
abbrev pub host : Result Output → Bool → Host (Unit {0})
host answer there = record {
  virsh = λ uri args w. (answer, w);
  exists = λ path w. there;
  remove_file = λ path w. (ok tt, w);
  image_info = λ path w. ok overlay;
  getxattr = λ path key w. ok none;
  setxattr = λ path key value w. (ok tt, w);
  create_dir_all = λ path w. (ok tt, w);
  create_temp = λ prefix suffix dir w. (ok "/pool/new", w);
  write_file = λ path text w. (ok tt, w);
  persist = λ from to w. (ok moved, w);
  env = λ name. none;
  read_dir = λ dir w. ok [];
  read_events =
      λ text. ok (Event.start "path" []) ∷ ok (Event.text "/pool") ∷ ok (Event.end "path") ∷ [];
  unescape = λ text. some text;
  decode_base64 = λ text. none;
}

abbrev pub begin : Machine (Unit {0})
begin = record { world = tt; log = [] }

abbrev pub domain : String → Option String → PodmanBootcDomain
domain state disk_path = record {
  name = "web";
  state = state;
  image = none;
  memory_mb = none;
  vcpus = none;
  disk_path = disk_path;
  labels = [];
  ssh_port = none;
  has_ssh_key = false;
  ssh_private_key = none;
}
