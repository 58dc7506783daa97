-- ===== src/Host/Exec/Run.antt =====
-- `run` of src/exec.rs: a command from its check to its result. What the process and the clock do is
-- the record `Shell`; the two readers end as the pair `s`, which a list of their events leads to.
use shellfleet_agent.Common.{
  ℕ, Bool, true, false, not, ◌&&◌, ◌||◌, List, [], ◌∷◌, ◌++◌, Option, none, some, if◌then◌else◌,
  min, max, Text, Bytes, lit, ℤ, negsuc, Result, ok, err,
}
use shellfleet_agent.Host.Exec.{AllowlistError, parse_command_allowlist, command_allowed}
use shellfleet_agent.Host.Exec.Readers.{Phase, closed, cut, broken, died, Pair, concatenate}

pub data ExecError : Type 0 where
  no_allowlist : AllowlistError → ExecError
  blocked : ExecError
  spawn_failed reader_failed : Text → ExecError

pub record ExecResult : Type 0 where
  pub exit_code : ℤ
  pub stdout : Text
  pub stderr : Text
  pub error : Option ExecError
  pub truncated : Bool
  pub timed_out : Bool
  pub duration_ms : ℕ

-- Which branch of the `select!` on the process is taken.
pub data WaitOutcome : Type 0 where
  exited : (code : Option ℤ) → WaitOutcome
  wait_failed expired over_limit : WaitOutcome

-- `kill_process`, and the signal to the process group alone.
pub data Kill : Type 0 where
  process_killed group_killed : Kill

-- The result, the commands that were given to `sh -c`, and the kills.
pub record Ran : Type 0 where
  pub result : ExecResult
  pub spawned : List Text
  pub kills : List Kill

pub record Shell : Type 0 where
  pub allow_json : Option Text
  pub from_json : Text → Result Text (List Text)
  pub spawn_fault : Option Text
  pub elapsed_ms : ℕ
  -- What happens first, under a deadline in seconds.
  pub waited : ℕ → WaitOutcome
  -- Whether the loop of joins sees that a reader has ended, before the grace is over.
  pub sees_stdout : Bool
  pub sees_stderr : Bool
  pub has_group : Bool
  pub max_output_bytes : ℕ
  pub from_utf8_lossy : Bytes → Text

unfoldable pub blocked_result : ExecError → ExecResult
blocked_result e = record {
  exit_code = negsuc 0;
  stdout = [];
  stderr = [];
  error = some e;
  truncated = false;
  timed_out = false;
  duration_ms = 0;
}

-- `timeout_secs.clamp(1, 3600)`
unfoldable pub deadline_secs : ℕ → ℕ
deadline_secs timeout_secs = min (max timeout_secs 1) 3600

unfoldable pub exit_code_of : WaitOutcome → ℤ
exit_code_of (exited (some code)) = code
exit_code_of (exited none) = negsuc 0
exit_code_of wait_failed = negsuc 0
exit_code_of expired = negsuc 0
exit_code_of over_limit = negsuc 0

unfoldable pub is_expired : WaitOutcome → Bool
is_expired expired = true
is_expired _ = false

unfoldable pub wait_kills : WaitOutcome → List Kill
wait_kills expired = process_killed ∷ []
wait_kills over_limit = process_killed ∷ []
wait_kills _ = []

unfoldable pub reader_ended : Phase → Bool
reader_ended closed = true
reader_ended cut = true
reader_ended (broken reason) = true
reader_ended (died reason) = true
reader_ended _ = false

-- What a join of a reader reports.
unfoldable pub join_error : Phase → Option Text
join_error (broken reason) = some (lit "reader: " ++ reason)
join_error (died reason) = some (lit "join: " ++ reason)
join_error _ = none

unfoldable pub error_if : Bool → Option Text → Option Text
error_if true e = e
error_if false e = none

unfoldable pub reader_error : Option Text → Option Text → Option ExecError
reader_error (some e₁) (some e₂) =
    some (reader_failed (lit "stdout: " ++ (e₁ ++ (lit ", stderr: " ++ e₂))))
reader_error (some e₁) none = some (reader_failed e₁)
reader_error none (some e₂) = some (reader_failed e₂)
reader_error none none = none

abbrev is_set : Option Text → Bool
is_set none = false
is_set (some e) = true

module _ (sh : Shell) where
  unfoldable pub stdout_joined : Pair → Bool
  stdout_joined s = sh.sees_stdout && reader_ended s.out.phase

  unfoldable pub stderr_joined : Pair → Bool
  stderr_joined s = sh.sees_stderr && reader_ended s.errors.phase

  unfoldable pub readers_aborted : Pair → Bool
  readers_aborted s = not (stdout_joined s) || not (stderr_joined s)

  unfoldable pub stdout_err : Pair → Option Text
  stdout_err s = error_if (stdout_joined s) (join_error s.out.phase)

  unfoldable pub stderr_err : Pair → Option Text
  stderr_err s = error_if (stderr_joined s) (join_error s.errors.phase)

  unfoldable pub reader_failure : Pair → Bool
  reader_failure s = is_set (stdout_err s) || is_set (stderr_err s)

  -- From the end of the process on.
  unfoldable pub collected : WaitOutcome → Pair → ExecResult
  collected waited s = record {
    exit_code = exit_code_of waited;
    stdout = sh.from_utf8_lossy (concatenate sh.max_output_bytes s.out.chunks);
    stderr = sh.from_utf8_lossy (concatenate sh.max_output_bytes s.errors.chunks);
    error = reader_error (stdout_err s) (stderr_err s);
    truncated = s.account.limited || readers_aborted s || reader_failure s;
    timed_out = is_expired waited;
    duration_ms = sh.elapsed_ms;
  }

  unfoldable pub reader_kills : Pair → List Kill
  reader_kills s = if readers_aborted s && sh.has_group then group_killed ∷ [] else []

  -- From the call of `/bin/sh -c` on.
  unfoldable pub execute_command : Text → ℕ → Pair → Ran
  execute_command command timeout_secs s = elim sh.spawn_fault [
    | some e ↦ record {
      result = record (blocked_result (spawn_failed e)) { duration_ms = sh.elapsed_ms };
      spawned = command ∷ [];
      kills = [];
    }
    | none ↦
        let waited = sh.waited (deadline_secs timeout_secs) in
        record {
          result = collected waited s;
          spawned = command ∷ [];
          kills = wait_kills waited ++ reader_kills s;
        }
  ]

  unfoldable pub run : Text → ℕ → Pair → Ran
  run command timeout_secs s = elim (parse_command_allowlist sh.from_json sh.allow_json) [
    | err e ↦ record { result = blocked_result (no_allowlist e); spawned = []; kills = [] }
    | ok allowlist ↦
        let ran = execute_command command timeout_secs s in
        if command_allowed command allowlist
        then ran
        else record { result = blocked_result blocked; spawned = []; kills = [] }
  ]
