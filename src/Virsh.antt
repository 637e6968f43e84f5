-- ===== src/Virsh.antt =====
-- crates/kit/src/libvirt/virsh.rs: running virsh again while the session's daemon restarts.
pub mod Attempts
pub mod Recovery
use bcvk.Common.{
  ℕ, zero, suc, ◌+◌, ◌*◌, String, Bool, true, false, not, ◌&&◌, ◌||◌, Option, none, some, List, [],
  ◌∷◌, any, leb, ltb, or_else, if◌then◌else◌, ends_with, contains, lines, split_once,
}
use bcvk.Result.{Result, ok, err}
use bcvk.Host.{Output}
use bcvk.Clock.{Clock}

abbrev pub connect_retry_timeout : ℕ
connect_retry_timeout = 60000

abbrev pub initial_backoff : ℕ
initial_backoff = 250

abbrev pub max_backoff : ℕ
max_backoff = 4000

abbrev pub connect_failed : String
connect_failed = "failed to connect to the hypervisor"

abbrev pub socket_connect_failed : String
socket_connect_failed = "Failed to connect socket to"

abbrev pub transient_socket_errors : List String
transient_socket_errors = "No such file or directory" ∷ "Connection refused" ∷ []

abbrev pub transient_stream_errors : List String
transient_stream_errors = "End of file while reading data" ∷ "Connection reset by peer" ∷ []

-- `uses_session_daemon`
unfoldable pub uses_session_daemon : Option String → Bool → Bool
uses_session_daemon none is_root = not is_root
uses_session_daemon (some uri) is_root =
    let without_query : String = elim (split_once "?" uri) [ none ↦ uri | some parts ↦ parts.0 ] in
    ends_with "/session" without_query

transient_line : String → Bool
transient_line line =
    let socket_gone =
      contains socket_connect_failed line && any (λ e. ends_with e line) transient_socket_errors in
    socket_gone || any (λ e. contains e line) transient_stream_errors

-- `is_transient_connect_failure`
unfoldable pub is_transient_connect_failure : Output → Bool
unfolding transient_line
is_transient_connect_failure output =
    not output.success
    && (contains connect_failed output.stderr && any transient_line (lines output.stderr))

-- `(backoff * 2).min(MAX_BACKOFF)`
abbrev pub longer : ℕ → ℕ
longer backoff = if leb (backoff * 2) max_backoff then backoff * 2 else max_backoff

module _ {W : Type 0} (clock : Clock W) (run : W → Result Output × W) where
  -- what an attempt comes to: the end, or the rounds that follow
  abbrev pub settle :
      ℕ → Result Output → W → Option (Result Output) × W → Option (Result Output) × W
  settle deadline (err e) w later = (some (err e), w)
  settle deadline (ok output) w later =
      if not (is_transient_connect_failure output) || leb deadline (clock.now w)
      then (some (ok output), w)
      else later

  -- the loop of `output_with_retry`; none where the rounds run out
  unfoldable pub attempts : ℕ → ℕ → ℕ → W → Option (Result Output) × W
  attempts zero deadline backoff w = (none, w)
  attempts (suc rounds) deadline backoff w =
      let (r, w') = run w in
      let later = attempts rounds deadline (longer backoff) (clock.sleep backoff w') in
      settle deadline r w' later

  unfoldable pub output_with_retry : ℕ → ℕ → ℕ → W → Option (Result Output) × W
  unfolding attempts
  output_with_retry rounds timeout backoff w = attempts rounds (clock.now w + timeout) backoff w

  -- `VirshCommand::new` and `VirshCommand::output`
  unfoldable pub output : ℕ → Option String → Option String → Bool → W → Option (Result Output) × W
  unfolding output_with_retry uses_session_daemon
  output rounds connect_uri default_uri is_root w =
      if uses_session_daemon (or_else connect_uri default_uri) is_root
      then output_with_retry rounds connect_retry_timeout initial_backoff w
      else let (r, w') = run w in (some r, w')
