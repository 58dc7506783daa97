-- ===== src/Apt/Upgrade.antt =====
-- src/apt.rs: the start of a run, `upgrade` and `resume_pending_upgrade`, and what the wrapper script
-- of a run writes as its result.
pub mod Once
pub mod Script
pub mod Stuck
use shellfleet_agent.Common.{
  ℕ, ◌==◌, ◌&&◌, Bool, true, false, List, [], ◌∷◌, ◌++◌, Option, none, some, if◌then◌else◌,
  is_empty, Text, lit, str_len, trim, to_decimal, Result, ok, err, Output,
}
use shellfleet_agent.Apt.{
  AptError, spawn, failed, script, Report, AptRunState, validate_package_arg,
}
use shellfleet_agent.Apt.Run.{
  Tick, Machine, Store, Watched, waiting, panicked, finished, cleanup_run_files, write_state,
  clear_state, read_state, watch_systemd_run,
}

unfoldable pub state_file : Text → Text
state_file name = lit "/var/lib/shellfleet/" ++ name

unfoldable pub run_id : Machine → Text
run_id env = to_decimal env.now ++ (lit "-" ++ to_decimal env.pid)

unfoldable pub unit_of : Text → Text
unit_of id = lit "shellfleet-apt-" ++ (id ++ lit ".service")

unfoldable pub run_file : Text → Text → Text
run_file id extension = state_file (lit "apt-run-" ++ (id ++ extension))

unfoldable pub new_state : Machine → Option Text → AptRunState
new_state env name =
    let log =
      lit "[shellfleet] starting apt in detached systemd unit "
      ++ (unit_of (run_id env) ++ lit "\n") in
    record {
      package_name = name;
      started_at = env.now;
      log = log;
      bytes_written = str_len log;
      unit_name = some (unit_of (run_id env));
      log_path = some (run_file (run_id env) (lit ".log"));
      result_path = some (run_file (run_id env) (lit ".result"));
      script_path = some (run_file (run_id env) (lit ".sh"));
    }

unfoldable pub package_args : Option Text → List Text
package_args none = lit "all" ∷ []
package_args (some name) = lit "package" ∷ name ∷ []

-- The arguments of `systemd-run`.
unfoldable pub launch_args : Machine → Option Text → List Text
launch_args env name =
    (lit "--unit"
      ∷ unit_of (run_id env)
      ∷ lit "--description"
      ∷ lit "shellfleet apt upgrade"
      ∷ lit "--property=Restart=no"
      ∷ lit "--property=TimeoutStartSec=0"
      ∷ lit "--no-block"
      ∷ lit "/bin/sh"
      ∷ run_file (run_id env) (lit ".sh")
      ∷ [])
    ++ package_args name

unfoldable pub check_package : Option Text → Result AptError (Unit {0})
check_package none = ok tt
check_package (some name) = validate_package_arg name

unfoldable pub failure_text : Output → Text
failure_text output =
    if is_empty (trim output.stderr) then trim output.stdout else trim output.stderr

module _ (env : Machine) where
  -- From the end of `systemd-run` on.
  unfoldable pub launched_state :
      Result Text Output → AptRunState → Store → Result AptError AptRunState × Store
  launched_state (err e) state w = (err (spawn e), w)
  launched_state (ok output) state w =
      if output.success
      then (ok state, w)
      else (err (failed (failure_text output)), clear_state env (cleanup_run_files state w))

  -- From the wrapper script on.
  unfoldable pub launch : Option Text → Store → Result AptError AptRunState × Store
  launch name w =
      let v = write_state env (new_state env name) w in
      launched_state (env.runner (lit "systemd-run") (launch_args env name)) (new_state env name)
        (record v { launched = v.launched ++ launch_args env name ∷ [] })

  unfoldable pub start_systemd_run : Option Text → Store → Result AptError AptRunState × Store
  start_systemd_run name w = elim (check_package name) [
    | err e ↦ (err e, w)
    | ok _ ↦ elim env.script_fault [ some e ↦ (err (script e), w) | none ↦ launch name w ]
  ]

  unfoldable pub upgrade : List Tick → Option Text → Store → Watched × Store
  upgrade ticks name w = elim (read_state env w) [
    | some existing ↦ watch_systemd_run env ticks existing w
    | none ↦ elim (start_systemd_run name w).0 [
      | ok state ↦ watch_systemd_run env ticks state (start_systemd_run name w).1
      | err e ↦ (
        finished (record { success = false; log = []; error = some e }),
        (start_systemd_run name w).1,
      )
    ]
  ]

  -- The package of the run and the answer, if a run was journalled.
  unfoldable pub resume_pending_upgrade : List Tick → Store → Option (Option Text × Watched) × Store
  resume_pending_upgrade ticks w = elim (read_state env w) [
    | none ↦ (none, w)
    | some state ↦
        let watched = watch_systemd_run env ticks state w in
        (some (state.package_name, watched.0), watched.1)
  ]

-- The exit codes of `apt-get`, and of `dpkg --configure -a` and `apt-get -f install` after it failed.
unfoldable pub script_code : ℕ → ℕ → ℕ → ℕ
script_code rc dpkg_rc fix_rc =
    if rc == 0 then rc else if dpkg_rc == 0 && fix_rc == 0 then 0 else rc

-- What the script writes into the result's file.
unfoldable pub script_result : ℕ → Text
script_result rc = if rc == 0 then lit "success\n" else lit "failed:" ++ (to_decimal rc ++ lit "\n")
