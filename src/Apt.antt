-- ===== src/Apt.antt =====
-- src/apt.rs: package lists, and one upgrade at a time in a unit of systemd, journalled in
-- /var/lib/shellfleet/apt-run.json so that an agent that restarts goes on watching.
pub mod Listing
pub mod Run
pub mod Upgrade
mod Tests
use shellfleet_agent.Common.{
  ℕ, ℤ, ◌+◌, ◌-◌, ◌&&◌, ◌||◌, Bool, true, false, not, List, [], ◌∷◌, ◌++◌, Option, none, some,
  if◌then◌else◌, ◌==◌, ltb, is_empty, all, Text, lit, str_len, starts_with, ends_with,
  is_ascii_alphanumeric, to_decimal, Result, ok, err, Output,
}
use shellfleet_agent.Docker.Actions.{drain, cut_mark}

-- What went wrong; a text is the system's own.
pub data AptError : Type 0 where
  empty_name bad_dash bad_char old_marker ended_early : AptError
  spawn failed script unit_said : Text → AptError
  exit_status : Option ℤ → AptError

-- The messages `(success, log, error)`.
pub record Report : Type 0 where
  pub success : Bool
  pub log : Text
  pub error : Option AptError

pub record AptRunState : Type 0 where
  pub package_name : Option Text
  pub started_at : ℕ
  pub log : Text
  pub bytes_written : ℕ
  pub unit_name : Option Text
  pub log_path : Option Text
  pub result_path : Option Text
  pub script_path : Option Text

-- `truncate_log` of a text from `from_utf8_lossy`; `none` is the panic of a slice that would begin
-- inside of a character, which is where `String::drain` has it.
unfoldable pub truncate_log : Text → ℕ → Option Text
truncate_log text limit =
    if not (ltb limit (str_len text)) then some text else elim (drain (str_len text - limit) text) [
      | none ↦ none
      | some rest ↦ some (cut_mark (str_len text - limit) ++ rest)
    ]

-- What `refresh` adds to the log for stderr.
unfoldable pub errors_of : Output → Option Text
errors_of output =
    if is_empty output.stderr then some [] else elim (truncate_log output.stderr 4000) [
      | none ↦ none
      | some log ↦ some (lit "\n--- stderr ---\n" ++ log)
    ]

-- `refresh` after the call; `none` is the panic.
unfoldable pub refresh : Result Text Output → Option Report
refresh (err e) = some (record { success = false; log = []; error = some (spawn e) })
refresh (ok output) = elim (truncate_log output.stdout 4000) [
  | none ↦ none
  | some out ↦ elim (errors_of output) [
    | none ↦ none
    | some rest ↦ some (record {
      success = output.success;
      log = out ++ rest;
      error = if output.success then none else some (exit_status output.code);
    })
  ]
]

unfoldable pub package_char : ℕ → Bool
package_char c =
    is_ascii_alphanumeric c || (c == b'.' || c == b'+' || c == b'-' || c == b':' || c == b'~')

unfoldable pub validate_package_arg : Text → Result AptError (Unit {0})
validate_package_arg name =
    if is_empty name
    then err empty_name
    else if starts_with name (lit "-") || ends_with name (lit "-")
    then err bad_dash
    else if all package_char name
    then ok tt
    else err bad_char
