-- ===== src/ToDisk/Script.antt =====
-- crates/kit/src/to_disk.rs: `generate_bootc_install_command`, the script that installs an image from
-- within the machine. `try_quote` is that of shlex.
use bcvk.Common.{ℕ, ◌/◌, String, Option, none, some, List, [], ◌∷◌, format, join, to_string}
use bcvk.Common.Text.Replace.{replace}
use bcvk.Result.{Result, ok, err, ◌>>=◌}
use bcvk.Cache.{to_bootc_args}
use bcvk.ToDisk.{ToDiskOpts}

-- The text as it stands between the quotes: some of its lines have no indentation, so `indoc` removes
-- none.
unfoldable script : String
script = join "\n" (
    "            set -euo pipefail" ∷ ""
    ∷ "            echo \"Setting up temporary filesystems...\""
    ∷ "            # Mount /var/tmp as a large tmpfs, then symlink /var/lib/containers to it"
    ∷ "            # to consolidate temporary storage in one location"
    ∷ "            mount -t tmpfs -o {TMPFS_SIZE} tmpfs /var/tmp"
    ∷ "            mkdir -p /var/tmp/containers" ∷ "            rm /var/lib/containers -rf"
    ∷ "            ln -sr /var/tmp/containers /var/lib/containers" ∷ ""
    ∷ "            # Ensure virtiofs mount is available (fallback for older systemd without SMBIOS support)"
    ∷ "            AIS=/run/virtiofs-mnt-hoststorage/"
    ∷ "            if ! mountpoint -q ${AIS} &>/dev/null; then"
    ∷ "                echo \"virtiofs mount not found at ${AIS}, mounting manually...\""
    ∷ "                mkdir -p ${AIS}"
    ∷ "                mount -t virtiofs mount_hoststorage ${AIS} -o ro" ∷ "            fi" ∷ ""
    ∷ "            echo \"Starting bootc installation...\""
    ∷ "            echo \"Source image: {SOURCE_IMGREF}\""
    ∷ "            echo \"Additional args: {BOOTC_ARGS}\"" ∷ "" ∷ "            tty="
    ∷ "            if test -t 0; then" ∷ "                tty=--tty" ∷ "            fi" ∷ ""
    ∷ "            # Try bootc install first with the image from additionalimagestore"
    ∷ "            # This avoids a deep copy when possible (issue #126)"
    ∷ "            export STORAGE_OPTS=additionalimagestore=${AIS}" ∷ ""
    ∷ "            # Execute bootc installation"
    ∷ "            # Mount /var/tmp into inner container to avoid cross-device link errors (issue #125)"
    ∷ "            set +e  # Don't exit on error, we'll check for signature error and retry"
    ∷ "            ERROR_LOG=$(mktemp)"
    ∷ "            podman run --rm -i ${tty} --privileged --pid=host --net=none -v /sys:/sys:ro \\"
    ∷ "                -v /var/lib/containers:/var/lib/containers -v /var/tmp:/var/tmp -v /dev:/dev -v \"${AIS}:${AIS}\" \\"
    ∷ "                --security-opt label=type:unconfined_t \\"
    ∷ "                --env=STORAGE_OPTS \\" ∷ "                {INSTALL_LOG} \\"
    ∷ "                {EXTRA_PODMAN_ARGS} \\" ∷ "                {SOURCE_IMGREF} \\"
    ∷ "                bootc install to-disk \\" ∷ "                --generic-image \\"
    ∷ "                --skip-fetch-check \\" ∷ "                {BOOTC_ARGS} \\"
    ∷ "                /dev/disk/by-id/virtio-output 2> \"$ERROR_LOG\""
    ∷ "            BOOTC_EXIT=$?" ∷ "            set -e" ∷ ""
    ∷ "            # Check if bootc failed with signature validation error"
    ∷ "            if [ $BOOTC_EXIT -ne 0 ] && grep -q \"Would invalidate signatures\" \"$ERROR_LOG\"; then"
    ∷ "                echo \"Signature validation error detected, retrying with signature removal...\""
    ∷ "" ∷ "                # Workaround for issue #126 and containers/image#2590:"
    ∷ "                # Copy image to local storage without signatures when we hit the signature error."
    ∷ "                # This is a fallback - we only do the deep copy when necessary."
    ∷ "                # Note: containers/container-libs#144 would make this copy faster via reflinks."
    ∷ "                # The real fix is containers/image#2590 to carry signatures across representation changes."
    ∷ "                mkdir -p /etc/containers"
    ∷ "                cat > /etc/containers/policy.json <<'EOF'" ∷ "{"
    ∷ "  \"default\": [{\"type\": \"insecureAcceptAnything\"}]," ∷ "  \"transports\": {"
    ∷ "    \"containers-storage\": {\"\": [{\"type\": \"insecureAcceptAnything\"}]},"
    ∷ "    \"docker\": {\"\": [{\"type\": \"insecureAcceptAnything\"}]}" ∷ "  }" ∷ "}" ∷ "EOF" ∷ ""
    ∷ "                # Copy image without signatures"
    ∷ "                skopeo copy --remove-signatures {SOURCE_IMGREF} containers-storage:{SOURCE_IMAGE}"
    ∷ "" ∷ "                # Retry bootc install with the unsigned local copy"
    ∷ "                podman run --rm -i ${tty} --privileged --pid=host --net=none -v /sys:/sys:ro \\"
    ∷ "                    -v /var/lib/containers:/var/lib/containers -v /var/tmp:/var/tmp -v /dev:/dev -v \"${AIS}:${AIS}\" \\"
    ∷ "                    --security-opt label=type:unconfined_t \\"
    ∷ "                    --env=STORAGE_OPTS \\" ∷ "                    {INSTALL_LOG} \\"
    ∷ "                    {EXTRA_PODMAN_ARGS} \\"
    ∷ "                    containers-storage:{SOURCE_IMAGE} \\"
    ∷ "                    bootc install to-disk \\" ∷ "                    --generic-image \\"
    ∷ "                    --skip-fetch-check \\" ∷ "                    {BOOTC_ARGS} \\"
    ∷ "                    /dev/disk/by-id/virtio-output"
    ∷ "            elif [ $BOOTC_EXIT -ne 0 ]; then"
    ∷ "                # Some other error, display it and fail"
    ∷ "                cat \"$ERROR_LOG\" >&2" ∷ "                rm -f \"$ERROR_LOG\""
    ∷ "                exit $BOOTC_EXIT" ∷ "            fi" ∷ ""
    ∷ "            rm -f \"$ERROR_LOG\"" ∷ ""
    ∷ "            echo \"Installation completed successfully!\"" ∷ "        " ∷ [])

module _ (try_quote : String → Result String) where
  -- an error under a message that ends with it
  abbrev reported : String → Result String → Result String
  reported message (ok quoted) = ok quoted
  reported message (err e) = err (format (message ∷ e ∷ []))

  unfoldable quote_all : String → List String → Result (List String)
  quote_all what [] = ok []
  quote_all what (a ∷ rest) = do
    quoted ← reported (format ("Failed to quote " ∷ what ∷ " '" ∷ a ∷ "': " ∷ [])) (try_quote a)
    more ← quote_all what rest
    ok (quoted ∷ more)

  abbrev install_log_arg : Option String → Result String
  install_log_arg none = ok ""
  install_log_arg (some v) = do quoted ← try_quote v; ok (format ("--env=RUST_LOG=" ∷ quoted ∷ []))

  unfoldable pub generate_bootc_install_command : ToDiskOpts → ℕ → Result (List String)
  unfolding script quote_all
  generate_bootc_install_command opts disk_size = do
    let source_imgref : String = format ("containers-storage:" ∷ opts.source_image ∷ [])
    bootc_args ← quote_all "bootc argument" (to_bootc_args opts.install)
    quoted_source_imgref ←
        reported (format ("Failed to quote source imgref '" ∷ source_imgref ∷ "': " ∷ []))
          (try_quote source_imgref)
    quoted_source_image ←
        reported (format ("Failed to quote source image '" ∷ opts.source_image ∷ "': " ∷ []))
          (try_quote opts.source_image)
    install_log ← install_log_arg opts.additional.install_log
    extra_podman_args ← quote_all "podman arg" opts.additional.bootc_install_podman_args
    tmpfs_size ←
        reported "Failed to quote tmpfs size: "
          (try_quote (format ("size=" ∷ to_string (disk_size / 1024) ∷ "k" ∷ [])))
    let text : String = replace "{BOOTC_ARGS}" (join " " bootc_args) (
        replace "{EXTRA_PODMAN_ARGS}" (join " " extra_podman_args) (
          replace "{INSTALL_LOG}" install_log (
            replace "{SOURCE_IMAGE}" quoted_source_image (
              replace "{SOURCE_IMGREF}" quoted_source_imgref
                (replace "{TMPFS_SIZE}" tmpfs_size script)))))
    ok ("/bin/bash" ∷ "-c" ∷ text ∷ [])
