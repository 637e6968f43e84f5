-- ===== src/Pool.antt =====
-- The default storage pool of libvirt, in crates/kit/src/libvirt/run.rs: `ensure_default_pool`,
-- `get_libvirt_storage_pool_path` and `list_storage_pool_volumes`.
pub mod Setup
use bcvk.Common.{
  String, List, [], ◌∷◌, Option, none, some, Bool, true, false, not, ◌||◌, format, if◌then◌else◌,
  contains, ends_with, trim, is_empty_text,
}
use bcvk.Common.Text.Paths.{join_path}
use bcvk.Result.{Result, ok, err}
use bcvk.Host.{Host, Output}
use bcvk.Host.Exec.{
  Exec, pure, fail, lift, reads, queries, with_context, attempt, virsh, remove_file, create_dir_all,
  create_temp, write_file, ◌>>=◌, ◌>>◌,
}
use bcvk.Xml.{XmlNode, find, text_content}
use bcvk.DomainList.{run_virsh_xml}

-- `{:?}` of a path, for the text of an error; characters that it escapes are left as they are
unfoldable pub quoted : String → String
quoted path = format ("\"" ∷ path ∷ "\"" ∷ [])

module _ {W : Type 0} (h : Host W) where
  home_data : Option String → String
  home_data none = join_path "." ".local/share"
  home_data (some home) = join_path home ".local/share"

  data_home : Option String → String
  unfolding home_data
  data_home none = home_data (h.env "HOME")
  data_home (some dir) = dir

  unfoldable pub get_default_pool_path : String → String
  unfolding data_home
  get_default_pool_path connect_uri =
      if contains "/session" connect_uri
      then join_path (data_home (h.env "XDG_DATA_HOME")) "libvirt/images"
      else "/var/lib/libvirt/images"

  module _ (connect_uri : Option String) where
    pool_command : List String → String → Exec W Output
    pool_command args what = with_context (virsh h connect_uri args) what

    -- by the connection, which is asked for where none is given
    default_path : Option String → Exec W String
    unfolding get_default_pool_path
    default_path (some uri) = pure (get_default_pool_path uri)
    default_path none = do
      output ← with_context (virsh h none ("uri" ∷ [])) "Failed to query default libvirt URI"
      pure (get_default_pool_path (trim output.stdout))

    pool_xml : String → String
    pool_xml pool_path = format (
        "<pool type='dir'>\n  <name>default</name>\n  <target>\n    <path>" ∷ pool_path
        ∷ "</path>\n  </target>\n</pool>" ∷ [])

    -- what follows a `pool-define` that succeeded
    unfoldable pub start_pool : Exec W (Unit {0})
    unfolding pool_command
    start_pool = do
      attempt (virsh h connect_uri ("pool-build" ∷ "default" ∷ []))
      output ← pool_command ("pool-start" ∷ "default" ∷ []) "Failed to start pool"
      if not output.success
          then fail (format ("Failed to start default pool: " ∷ output.stderr ∷ []))
          else (do attempt (virsh h connect_uri ("pool-autostart" ∷ "default" ∷ [])); pure tt)

    -- what follows a `pool-define` that failed: another process may have been first
    unfoldable pub define_failed : String → String → Exec W (Unit {0})
    define_failed xml_path stderr = do
      attempt (remove_file h xml_path)
      if contains "already exists" stderr
          then pure tt
          else fail (format ("Failed to define default pool: " ∷ stderr ∷ []))

    -- the definition of the pool by the text in the temporary file
    unfoldable pub define_pool : String → String → Exec W (Unit {0})
    unfolding pool_command pool_xml start_pool define_failed
    define_pool pool_path xml_path = do
      with_context (write_file h xml_path (pool_xml pool_path)) "Failed to write pool XML"
      output ← pool_command ("pool-define" ∷ xml_path ∷ []) "Failed to define pool"
      if not output.success then define_failed xml_path output.stderr else start_pool

    -- The temporary file is removed when it is dropped, whatever comes before.
    unfoldable pub create_pool : Exec W (Unit {0})
    unfolding default_path define_pool quoted
    create_pool = do
      pool_path ← default_path connect_uri
      with_context (create_dir_all h pool_path)
          (format ("Failed to create pool directory: " ∷ quoted pool_path ∷ []))
      xml_path ← create_temp h "bcvk-libvirt" "" ""
      r ← attempt (define_pool pool_path xml_path)
      attempt (remove_file h xml_path)
      lift r

    unfoldable pub ensure_default_pool : Exec W (Unit {0})
    unfolding pool_command create_pool
    ensure_default_pool = do
      output ← pool_command ("pool-info" ∷ "default" ∷ []) "Failed to check for default pool"
      if output.success
          then (do attempt (virsh h connect_uri ("pool-start" ∷ "default" ∷ [])); pure tt)
          else create_pool

    path_of : Option XmlNode → Exec W String
    path_of none = fail "Could not find path in storage pool XML"
    path_of (some n) =
        let path = trim (text_content n) in
        if not (is_empty_text path)
        then pure path
        else fail "Could not find path in storage pool XML"

    unfoldable pub get_libvirt_storage_pool_path : Exec W String
    unfolding ensure_default_pool path_of run_virsh_xml
    get_libvirt_storage_pool_path = do
      ensure_default_pool
      dom ←
          with_context (run_virsh_xml h connect_uri ("pool-dumpxml" ∷ "default" ∷ []))
            "Failed to get default storage pool info"
      path_of (find "path" dom)

    volumes_in : String → List String → List String
    volumes_in pool_path [] = []
    volumes_in pool_path (name ∷ rest) =
        let path = join_path pool_path name in
        let more = volumes_in pool_path rest in
        if ends_with ".raw" path || ends_with ".qcow2" path then path ∷ more else more

    unfoldable pub volumes_of : String → Result (List String) → List String
    unfolding volumes_in
    volumes_of pool_path (err _) = []
    volumes_of pool_path (ok names) = volumes_in pool_path names

    unfoldable pub list_storage_pool_volumes : Exec W (List String)
    unfolding volumes_of get_libvirt_storage_pool_path
    list_storage_pool_volumes = do
      pool_path ← get_libvirt_storage_pool_path
      reads (λ w. volumes_of pool_path (h.read_dir pool_path w))
