-- ===== src/Apt/Run.antt =====
-- src/apt.rs: `upgrade`, `resume_pending_upgrade`, and the watch on a run. A run is watched over the
-- list of what each tick finds.
pub mod Watch
pub mod Ends
use shellfleet_agent.Common.{
  ℕ, Bool, true, false, ◌&&◌, ◌||◌, not, List, [], ◌∷◌, ◌++◌, Option, none, some, if◌then◌else◌,
  is_empty, Text, lit, str_len, strip_prefix, trim, lines, equal, to_decimal, Result, ok, err,
  Output, Runner,
}
use shellfleet_agent.Apt.{
  AptError, old_marker, ended_early, spawn, failed, script, unit_said, Report, AptRunState,
  truncate_log, validate_package_arg,
}

-- What a tick finds: the log and the result that the unit wrote, and what `systemctl show` says of it.
pub record Tick : Type 0 where
  pub log : Option Text
  pub result : Option Text
  pub shown : Result Text Output

pub record Machine : Type 0 where
  pub now : ℕ
  pub pid : ℕ
  pub runner : Runner
  -- What `write_upgrade_script` reports.
  pub script_fault : Option Text
  -- `serde_json`, and the journal's file after a write and after its removal.
  pub to_string : AptRunState → Option Text
  pub from_str : Text → Option AptRunState
  pub written : Option Text → Text → Option Text
  pub unlinked : Option Text → Option Text

-- The journal's file, the command lines of `systemd-run`, and the files whose removal was asked for.
pub record Store : Type 0 where
  pub journal : Option Text
  pub launched : List (List Text)
  pub removed : List Text

-- Still waiting, the panic of `truncate_log`, or an answer.
pub data Watched : Type 0 where
  waiting : AptRunState → Watched
  panicked : Watched
  finished : Report → Watched

abbrev path_list : Option Text → List Text
path_list none = []
path_list (some path) = path ∷ []

unfoldable pub cleanup_run_files : AptRunState → Store → Store
cleanup_run_files state w = record w {
  removed =
      w.removed
      ++ (path_list state.log_path ++ (path_list state.script_path ++ path_list state.result_path));
}

-- The properties that `systemctl show` prints; a later line wins.
pub record UnitState : Type 0 where
  pub load_state : Text
  pub active : Text
  pub result : Text

unfoldable pub read_property : UnitState → Text → UnitState
read_property u line = elim (strip_prefix line (lit "LoadState=")) [
  | some v ↦ record u { load_state = v }
  | none ↦ elim (strip_prefix line (lit "ActiveState=")) [
    | some v ↦ record u { active = v }
    | none ↦ elim (strip_prefix line (lit "Result=")) [
      | some v ↦ record u { result = v }
      | none ↦ u
    ]
  ]
]

unfoldable pub read_properties : UnitState → List Text → UnitState
read_properties u [] = u
read_properties u (line ∷ rest) = read_properties (read_property u line) rest

unfoldable pub systemctl_unit_state : Result Text Output → Option UnitState
systemctl_unit_state (err e) = none
systemctl_unit_state (ok output) =
    if output.success
    then some (
        read_properties (record { load_state = []; active = []; result = [] })
          (lines output.stdout))
    else none

-- The answer when the unit has written its result.
unfoldable pub result_report : AptRunState → Text → Report
result_report state text =
    let success = equal (trim text) (lit "success") in
    record {
      success = success;
      log =
          if is_empty state.log
          then lit "[shellfleet] apt unit completed with no captured log\n"
          else state.log;
      error = if success then none else some (unit_said (trim text));
    }

unfoldable pub has_ended : UnitState → Bool
has_ended u =
    equal u.load_state (lit "not-found")
    || (equal u.active (lit "failed") && not (equal u.result (lit "success")))

-- The answer when the unit is gone without a result.
unfoldable pub ended_report : AptRunState → UnitState → Report
ended_report state u = record {
  success = false;
  log =
      state.log
      ++ (lit "\n[shellfleet] apt transient unit ended unexpectedly: load="
          ++ (u.load_state
              ++ (lit " active=" ++ (u.active ++ (lit " result=" ++ (u.result ++ lit "\n"))))));
  error = some ended_early;
}

unfoldable pub unit_report : AptRunState → Result Text Output → Option Report
unit_report state shown = elim state.unit_name [
  | none ↦ none
  | some unit ↦ elim (systemctl_unit_state shown) [
    | none ↦ none
    | some u ↦ if has_ended u then some (ended_report state u) else none
  ]
]

-- What a tick answers, if anything, once the log has been read.
unfoldable pub verdict : AptRunState → Tick → Option Report
verdict state tick = elim tick.result [
  | some text ↦ some (result_report state text)
  | none ↦ unit_report state tick.shown
]

-- The answer for a run that an older agent left behind.
unfoldable pub old_report : AptRunState → Report
old_report state = record {
  success = false;
  log =
      if is_empty state.log
      then lit "[shellfleet] older agent left an apt run marker without a detached unit\n"
      else state.log;
  error = some old_marker;
}

module _ (env : Machine) where
  unfoldable pub write_state : AptRunState → Store → Store
  write_state state w = elim (env.to_string state) [
    | none ↦ w
    | some json ↦ record w { journal = env.written w.journal json }
  ]

  unfoldable pub clear_state : Store → Store
  clear_state w = record w { journal = env.unlinked w.journal }

  unfoldable pub read_state : Store → Option AptRunState
  read_state w = elim w.journal [ none ↦ none | some json ↦ env.from_str json ]

  -- The log of a tick, kept in the state and in the journal; `none` is the panic.
  unfoldable pub read_log : AptRunState → Tick → Store → Option (AptRunState × Store)
  read_log state tick w = elim state.log_path [
    | none ↦ some (state, w)
    | some path ↦ elim tick.log [
      | none ↦ some (state, w)
      | some bytes ↦ elim (truncate_log bytes 16000) [
        | none ↦ none
        | some log ↦
            let next = record state { log = log; bytes_written = str_len log } in
            some (next, write_state next w)
      ]
    ]
  ]

  unfoldable pub watch_loop : List Tick → AptRunState → Store → Watched × Store
  watch_loop [] state w = (waiting state, w)
  watch_loop (tick ∷ ticks) state w = elim (read_log state tick w) [
    | none ↦ (panicked, w)
    | some (next, v) ↦ elim (verdict next tick) [
      | some report ↦ (finished report, clear_state (cleanup_run_files next v))
      | none ↦ watch_loop ticks next v
    ]
  ]

  unfoldable pub watch_systemd_run : List Tick → AptRunState → Store → Watched × Store
  watch_systemd_run ticks state w = elim state.result_path [
    | some path ↦ watch_loop ticks state w
    | none ↦ (finished (old_report state), clear_state w)
  ]
