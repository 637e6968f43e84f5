-- ===== src/Run/Logs.antt =====
-- crates/kit/src/libvirt/run.rs: the streams of a new domain's logs, to the journal and to files.
use bcvk.Common.{
  String, Bool, false, not, ◌&&◌, ◌||◌, Option, none, some, List, [], ◌∷◌, ◌==◌, if◌then◌else◌,
  format, is_empty, is_empty_text, unwrap_or, or_else,
}
use bcvk.Common.Text.Paths.{join_path, parent, file_name, from_last}
use bcvk.Host.{Action}
use bcvk.Host.Exec.{Exec, pure, fail, reads, with_context, ◌>>=◌, ◌>>◌}
use bcvk.Builder.{
  DomainBuilder, with_journal_channel_file, with_journal_initrd_channel_file,
  with_virtio_console_log, with_serial_console_log,
}
use bcvk.Ephemeral.{LogDir, journal_path, journal_initrd_path, console_path}
use bcvk.Run.{LibvirtRunOpts, RunHost}
use bcvk.Run.Configuration.{optionally}
use bcvk.Run.Keys.{canonicalize}

module _ {W : Type 0} (r : RunHost W) where
  abbrev journal_creds : List String
  journal_creds =
      format (
        "io.systemd.credential.binary:systemd.extra-unit.bcvk-journal-stream.service="
        ∷ r.encode r.journal_stream_unit
        ∷ [])
      ∷ format (
          "io.systemd.credential.binary:systemd.extra-unit.bcvk-journal-stream-initrd.service="
          ∷ r.encode r.journal_stream_initrd_unit
          ∷ [])
      ∷ format (
          "io.systemd.credential.binary:systemd.unit-dropin.sysinit.target~bcvk-journal="
          ∷ r.encode
              "[Unit]\nWants=bcvk-journal-stream.service bcvk-journal-stream-initrd.service\n"
          ∷ [])
      ∷ []

  -- the credentials for the journal's path, where its directory is there
  unfoldable pub journal_credentials : Option String → Exec W (List String)
  journal_credentials none = pure []
  journal_credentials (some path) = do
    there ← reads (r.host.exists (parent path))
    if not (is_empty_text (parent path)) && not there
        then fail
            (format ("--log-dir journal parent directory does not exist: " ∷ parent path ∷ []))
        else pure journal_creds

  unfoldable open_log : String → Exec W (Unit {0})
  open_log path s =
      let (done, w) = r.open_or_create path s.world in
      (done, record { world = w; log = Action.write_file path ∷ s.log })

  abbrev log_parent : String → String
  log_parent path =
      if is_empty (from_last path) || is_empty_text (parent path) then "." else parent path

  unfoldable pub resolve_log_path : String → String → Exec W String
  unfolding canonicalize open_log
  resolve_log_path log_path flag = do
    dir ←
        with_context (canonicalize r (log_parent log_path))
          (format (flag ∷ " parent directory not found: " ∷ log_path ∷ []))
    let abs : String = join_path dir (unwrap_or (file_name log_path) log_path)
    is_dir ← reads (r.is_dir abs)
    if is_dir then fail (format (flag ∷ " path is a directory: " ∷ abs ∷ [])) else pure tt
    with_context (open_log abs) (format ("create " ∷ flag ∷ " log file " ∷ abs ∷ []))
    pure abs

  unfoldable pub resolve_log : Option String → String → Exec W (Option String)
  unfolding resolve_log_path
  resolve_log none flag = pure none
  resolve_log (some path) flag = do abs ← resolve_log_path path flag; pure (some abs)

  abbrev same_log : Option String → Option String → Bool
  same_log (some v) (some s) = v == s
  same_log (some v) none = false
  same_log none s = false

  unfoldable pub add_logs : LibvirtRunOpts → DomainBuilder → Exec W DomainBuilder
  unfolding resolve_log
  add_logs opts b = do
    let console : Option String = elim opts.log_dir [ none ↦ none | some d ↦ console_path d ]
    virtio_log ← resolve_log (or_else console opts.console_log) "--log-dir/--console-log"
    serial_log ← resolve_log opts.platform_console_log "--platform-console-log"
    if same_log virtio_log serial_log
        then fail (
            format (
              "--console-log and --platform-console-log cannot point to the same file (QEMU opens each "
              ∷ "chardev logfile independently and returns EBUSY if both paths are identical)"
              ∷ []))
        else pure tt
    pure (
        optionally with_serial_console_log serial_log
          (optionally with_virtio_console_log virtio_log b))

  unfoldable pub journal_channels : Option LogDir → DomainBuilder → DomainBuilder
  journal_channels none b = b
  journal_channels (some d) b =
      optionally with_journal_initrd_channel_file (journal_initrd_path d)
        (optionally with_journal_channel_file (journal_path d) b)
