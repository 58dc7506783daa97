-- ===== src/Apt/Tests.antt =====
-- Runs of the package operations, and their theorems at concrete values. A journal holds `j`, which
-- reads as the one state that the tests journal.
use shellfleet_agent.Common.{
  zero, suc, ℕ, ◌≡◌, inl, inr, refl, true, false, [], ◌∷◌, Option, none, some, All, Text, lit, trim,
  lines, err, arith,
}
use shellfleet_agent.Apt.Upgrade.{
  run_id, new_state, check_package, upgrade, script_code, script_result,
}
use shellfleet_agent.Apt.{
  truncate_log, Report, AptRunState, spawn, validate_package_arg, package_char,
}
use shellfleet_agent.Apt.Run.{
  unit_report, systemctl_unit_state, Tick, Machine, Store, panicked, finished, read_log, verdict,
  result_report, write_state, read_state, clear_state, cleanup_run_files, watch_loop,
  watch_systemd_run,
}
use shellfleet_agent.Docker.Actions.{drain}
use shellfleet_agent.Apt.Listing.{
  parse_apt_list, parse_lines, parse_line, entry, split_whitespace, words_onto, split_source,
  current_version_of, text_after, trim_end_brackets,
}
use shellfleet_agent.Apt.Run.Watch.{IsHonest, watch_systemd_run-IsHonest}
use shellfleet_agent.Apt.Run.Ends.{IsPlain, watch_systemd_run-Written}
use shellfleet_agent.Apt.Upgrade.Once.{StartsOnce, upgrade-StartsOnce}
use shellfleet_agent.Apt.Upgrade.Stuck.{upgrade-panicked, upgrade-journalled}
use shellfleet_agent.Apt.Upgrade.Script.{result_report-script_result}

listing_parsed :
    parse_apt_list
      (lit "Listing... Done\nfoo/stable,now 1.2 amd64 [upgradable from: 1.1]\nbar/x 2 all\n")
    ≡ record {
      name = lit "foo";
      current_version = lit "1.1";
      new_version = lit "1.2";
      source = lit "stable,now";
    }
      ∷ record { name = lit "bar"; current_version = []; new_version = lit "2"; source = lit "x" }
      ∷ []
unfolding parse_apt_list parse_lines parse_line entry split_whitespace words_onto split_source
    current_version_of text_after trim_end_brackets lines trim
listing_parsed = refl

abbrev saved : AptRunState
saved = record {
  package_name = some (lit "curl");
  started_at = 5;
  log = [];
  bytes_written = 0;
  unit_name = some (lit "u.service");
  log_path = some (lit "/l");
  result_path = some (lit "/r");
  script_path = some (lit "/s");
}

abbrev machine : Machine
machine = record {
  now = 5;
  pid = 7;
  runner = λ program args. err (lit "no such program");
  script_fault = none;
  to_string = λ state. some (lit "j");
  from_str = λ json. some saved;
  written = λ old json. some json;
  unlinked = λ old. none;
}

abbrev idle : Store
idle = record { journal = none; launched = []; removed = [] }

abbrev busy : Store
busy = record idle { journal = some (lit "j") }

abbrev quiet : Tick
quiet = record { log = some (lit "unpacking"); result = none; shown = err (lit "no such program") }

abbrev done : Tick
done = record { log = some (lit "unpacking done"); result = some (lit "success\n"); shown = err [] }

-- A run that is watched to its end.
watched : upgrade machine (quiet ∷ done ∷ []) none busy ≡ (
  finished (record { success = true; log = lit "unpacking done"; error = none }),
  record { journal = none; launched = []; removed = lit "/l" ∷ lit "/s" ∷ lit "/r" ∷ [] },
)
unfolding upgrade read_state watch_systemd_run watch_loop read_log truncate_log write_state verdict
    unit_report systemctl_unit_state result_report clear_state cleanup_run_files trim
watched = refl

upgrade-StartsOnce_example :
    StartsOnce machine
      (some (lit "curl"))
      idle
      (upgrade machine (done ∷ []) (some (lit "curl")) idle).1
upgrade-StartsOnce_example = upgrade-StartsOnce machine (done ∷ []) (some (lit "curl")) idle

abbrev success_report : Report
success_report = record { success = true; log = lit "unpacking done"; error = none }

answered : (watch_systemd_run machine (quiet ∷ done ∷ []) saved busy).0 ≡ finished success_report
unfolding watch_systemd_run watch_loop read_log truncate_log write_state verdict unit_report
    systemctl_unit_state result_report trim
answered = refl

watch_systemd_run-IsHonest_example :
    ((v : Store) × ((watch_systemd_run machine (quiet ∷ done ∷ []) saved busy).1
        ≡ clear_state machine v))
    × IsHonest (quiet ∷ done ∷ []) success_report
watch_systemd_run-IsHonest_example =
    watch_systemd_run-IsHonest machine (quiet ∷ done ∷ []) saved busy success_report answered

logs-IsPlain : All (λ (tick : Tick). IsPlain tick.log) (quiet ∷ done ∷ [])
logs-IsPlain = ground arith

watch_systemd_run-Written_example :
    (r : Report) × ((watch_systemd_run machine (quiet ∷ done ∷ []) saved busy).0 ≡ finished r)
watch_systemd_run-Written_example =
    watch_systemd_run-Written machine (quiet ∷ done ∷ []) saved busy logs-IsPlain
      (inr (inl (lit "success\n", refl)))

result_report-script_result_example :
    (result_report saved (script_result (script_code 100 0 1))).success ≡ false
result_report-script_result_example = result_report-script_result saved 100 0 1

-- A log of the limit's length behind one character of two bytes.
abbrev dots : ℕ → Text
dots zero = []
dots (suc n) = b'.' ∷ dots n

abbrev long_log : Text
long_log = 0xe9 ∷ dots 15999

abbrev long_tick : Tick
long_tick = record { log = some long_log; result = some (lit "success\n"); shown = err [] }

upgrade-panicked_example : upgrade machine (long_tick ∷ []) none busy ≡ (panicked, busy)
unfolding read_state drain
upgrade-panicked_example =
    upgrade-panicked machine long_tick [] none busy saved (lit "/l") (lit "/r") long_log refl refl
      refl refl (omega arith) refl

abbrev fresh : Option Text
fresh = some (lit "curl")

abbrev started_machine : Machine
started_machine = record machine { from_str = λ json. some (new_state machine fresh) }

upgrade-journalled_example :
    ((upgrade started_machine [] fresh idle).0
      ≡ finished
          (record { success = false; log = []; error = some (spawn (lit "no such program")) }))
    × (upgrade started_machine (quiet ∷ []) none (upgrade started_machine [] fresh idle).1
        ≡ watch_systemd_run started_machine
            (quiet ∷ [])
            (new_state started_machine fresh)
            (upgrade started_machine [] fresh idle).1)
unfolding check_package validate_package_arg package_char read_state new_state run_id
upgrade-journalled_example =
    upgrade-journalled started_machine [] (quiet ∷ []) fresh none idle (lit "no such program")
      (lit "j") refl refl refl refl refl refl refl
