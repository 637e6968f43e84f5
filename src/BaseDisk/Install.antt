-- ===== src/BaseDisk/Install.antt =====
-- A base disk of crates/kit/src/libvirt/base_disks.rs over the installation of crates/kit/src/to_disk.rs.
use bcvk.Common.{String, [], ◌∷◌, Option, some, true, ◌≡◌, ◌≢◌, refl, subst, format, ◌⊎◌, inl, inr}
use bcvk.Common.Text.Paths.{file_stem, parent}
use bcvk.Result.{ok}
use bcvk.Host.{Machine}
use bcvk.Host.Persisted.{moved}
use bcvk.Host.Exec.{Exec, pure, create_temp, persist, virsh, ◌>>=◌, ◌>>◌}
use bcvk.Cache.{CacheInputs, InstallOptions, valid, check_cached_disk}
use bcvk.ToDisk.{ToDiskOpts, ToDiskHost, RunOutcome, ImageInspect}
use bcvk.ToDisk.Command.{normalized, run}
use bcvk.ToDisk.Outcome.{run-Installed}
use bcvk.ToDisk.Again.{Unwritten, Unwritten-cases, write_disk_metadata-valid}
use bcvk.BaseDisk.{to_disk_opts, persist_disk, keep_if_valid, install_checked, create_base_disk}

-- what `create_base_disk` makes of the installation: its outcome aside, a disk or an error
abbrev pub installation :
    {W : Type 0} → ToDiskHost W → (CacheInputs → String) → ToDiskOpts → Exec W (Unit {0})
installation t hash_of opts = run t hash_of opts >> pure tt

-- Where the installation has created a disk, either the metadata could not be written on it, which
-- the installation passes over, or the creation of a base disk over it returns without an error:
-- what the one writes on the disk is what the other looks for. The image's name has no
-- `containers-storage:` before it, which the installation cuts off and the check does not; the
-- temporary file and the image are there, and the file can be moved then. What is taken for granted:
-- an attribute that could be set reads back as it was set, and setting one leaves the others and the
-- image alone.
pub create_base_disk-installs :
    {W : Type 0} (t : ToDiskHost W) (hash_of : CacheInputs → String) (uri : Option String)
    (path image temp : String) (o : InstallOptions) (virtiofsd : Option String) (i : ImageInspect)
    (s s1 s2 : Machine W)
    → (normalized (to_disk_opts image temp o virtiofsd)).source_image ≡ image
    → ((k x : String) (w : W) → t.inspect image (t.host.setxattr temp k x w).1 ≡ t.inspect image w)
    → t.inspect image s2.world ≡ ok i
    → ((k x : String) (w w' : W)
        → t.host.setxattr temp k x w ≡ (ok tt, w')
        → t.host.getxattr temp k w' ≡ ok (some x))
    → ((k j x : String) (w : W)
        → k ≢ j
        → t.host.getxattr temp k (t.host.setxattr temp j x w).1 ≡ t.host.getxattr temp k w)
    → (t.host.persist temp path s2.world).0 ≡ ok moved
    → t.host.exists temp s2.world ≡ true
    → create_temp t.host (format (file_stem path ∷ "." ∷ [])) ".tmp.qcow2" (parent path) s
      ≡ (ok temp, s1)
    → run t hash_of (to_disk_opts image temp o virtiofsd) s1 ≡ (ok RunOutcome.created, s2)
    → Unwritten t hash_of (normalized (to_disk_opts image temp o virtiofsd)) s2
      ⊎ ((create_base_disk t.host hash_of uri
            (installation t hash_of)
            path
            image
            i.digest
            o
            virtiofsd
            s).0
          ≡ ok tt)
unfolding create_base_disk install_checked keep_if_valid persist_disk persist virsh to_disk_opts
    normalized ◌>>=◌
create_base_disk-installs t hash_of uri path image temp o virtiofsd i s s1 s2 plain kept inspected
      own other moves there opened installed =
    let opts = normalized (to_disk_opts image temp o virtiofsd) in
    let (u, here, after) = run-Installed t hash_of _ s1 s2 installed in
    elim (Unwritten-cases t hash_of opts u s2 here after) [
      | inl failed ↦ inl failed
      | inr done ↦
          let full =
            write_disk_metadata-valid t hash_of opts i u s2 (rw plain kept) (rw plain inspected) own
              other done there in
          let checked : check_cached_disk hash_of t.host temp i.digest image o s2 ≡ (ok valid, s2) =
            subst (λ n. check_cached_disk hash_of t.host temp i.digest n o s2 ≡ (ok valid, s2))
              plain full in
          inr (rw opened (rw installed (rw checked (rw moves refl))))
    ]
