-- ===== src/Host/Exec/Tests.antt =====
-- Runs of a command and of its two readers, and their theorems at concrete values. The limit is four
-- bytes.
use shellfleet_agent.Common.{
  ◌+◌, ◌≡◌, ◌⊎◌, refl, true, false, List, [], ◌∷◌, none, some, is_empty, length, map, Text, lit,
  trim, pos, ok,
}
use shellfleet_agent.Host.Exec.{
  parse_command_allowlist, command_allowed, configured, entries_of, IsIn,
}
use shellfleet_agent.Host.Exec.Readers.{
  closed, cut, Side, on_stdout, on_stderr, ReaderEvent, arrives, closes, loads, swaps,
  swaps_spuriously, Pair, deliver, load, exchange, reader_step, put_out, put_errors, pair_step,
  interleave, new_pair, concatenate,
}
use shellfleet_agent.Host.Exec.Steps.{joined}
use shellfleet_agent.Host.Exec.Bounded.{interleave-bounded}
use shellfleet_agent.Host.Exec.Run.{
  Shell, exited, reader_ended, join_error, error_if, stdout_joined, stderr_joined, readers_aborted,
  stdout_err, stderr_err, reader_failure, collected, execute_command, run,
}
use shellfleet_agent.Host.Exec.Complete.{run-IsIn, run_complete}

-- Both readers load the budget, one exchange succeeds, and the other one has to load again.
abbrev crossing : List (Side × ReaderEvent)
crossing =
    (on_stdout, arrives (1 ∷ 2 ∷ 3 ∷ []))
    ∷ (on_stderr, arrives (7 ∷ 8 ∷ 9 ∷ []))
    ∷ (on_stdout, loads)
    ∷ (on_stderr, loads)
    ∷ (on_stdout, swaps)
    ∷ (on_stderr, swaps)
    ∷ (on_stderr, loads)
    ∷ (on_stderr, swaps)
    ∷ (on_stdout, closes)
    ∷ []

abbrev crossed : Pair
crossed = record {
  out = record { phase = closed; seen = 1 ∷ 2 ∷ 3 ∷ []; chunks = (1 ∷ 2 ∷ 3 ∷ []) ∷ [] };
  errors = record { phase = cut; seen = 7 ∷ 8 ∷ 9 ∷ []; chunks = (7 ∷ []) ∷ [] };
  account = record { budget = 0; limited = true; notified = true };
}

crossing_ends : interleave crossing (new_pair 4) ≡ some crossed
unfolding interleave pair_step put_out put_errors reader_step load exchange deliver new_pair
crossing_ends = refl

interleave-bounded_example :
    (0 + (length (concatenate 4 crossed.out.chunks) + length (concatenate 4 crossed.errors.chunks))
      ≡ 4)
    × (concatenate 4 crossed.out.chunks ≡ joined crossed.out.chunks)
    × (concatenate 4 crossed.errors.chunks ≡ joined crossed.errors.chunks)
interleave-bounded_example = interleave-bounded 4 crossing crossed crossing_ends

abbrev short : List (Side × ReaderEvent)
short =
    (on_stdout, arrives (1 ∷ 2 ∷ []))
    ∷ (on_stderr, closes)
    ∷ (on_stdout, loads)
    ∷ (on_stdout, swaps_spuriously)
    ∷ (on_stdout, loads)
    ∷ (on_stdout, swaps)
    ∷ (on_stdout, closes)
    ∷ []

abbrev done : Pair
done = record {
  out = record { phase = closed; seen = 1 ∷ 2 ∷ []; chunks = (1 ∷ 2 ∷ []) ∷ [] };
  errors = record { phase = closed; seen = []; chunks = [] };
  account = record { budget = 2; limited = false; notified = false };
}

short_ends : interleave short (new_pair 4) ≡ some done
unfolding interleave pair_step put_out put_errors reader_step load exchange deliver new_pair
short_ends = refl

abbrev shell : Shell
shell = record {
  allow_json = some (lit "json");
  from_json = λ raw. ok (lit " uptime " ∷ []);
  spawn_fault = none;
  elapsed_ms = 12;
  waited = λ secs. exited (some (pos 0));
  sees_stdout = true;
  sees_stderr = true;
  has_group = true;
  max_output_bytes = 4;
  from_utf8_lossy = λ bytes. bytes;
}

allowlist_read : parse_command_allowlist shell.from_json shell.allow_json ≡ ok (lit "uptime" ∷ [])
unfolding parse_command_allowlist configured entries_of trim
allowlist_read = refl

uptime_allowed : command_allowed (lit "uptime") (lit "uptime" ∷ []) ≡ true
unfolding command_allowed trim
uptime_allowed = refl

not_cut : (run shell (lit "uptime") 5 done).result.truncated ≡ false
unfolding run execute_command collected parse_command_allowlist configured entries_of trim
    command_allowed readers_aborted reader_failure stdout_joined stderr_joined stdout_err stderr_err
    error_if reader_ended join_error
not_cut = refl

run_complete_example :
    ((run shell (lit "uptime") 5 done).result.stdout ≡ (1 ∷ 2 ∷ []))
    × (closed ≡ closed)
    × ((run shell (lit "uptime") 5 done).result.stderr ≡ [])
    × (closed ≡ closed)
    × ((run shell (lit "uptime") 5 done).result.error ≡ none)
run_complete_example =
    run_complete shell (lit "uptime") 5 (lit "uptime" ∷ []) short done allowlist_read uptime_allowed
      refl short_ends not_cut

run-IsIn_example :
    ((run shell (lit "uptime") 5 done).spawned ≡ [])
    ⊎ ((run shell (lit "uptime") 5 done).spawned ≡ lit "uptime" ∷ [])
      × ((raw : Text) × (entries : List Text) × (shell.allow_json ≡ some raw)
          × (shell.from_json raw ≡ ok entries)
          × (is_empty (trim (lit "uptime")) ≡ false)
          × IsIn (trim (lit "uptime")) (map trim entries))
run-IsIn_example = run-IsIn shell (lit "uptime") 5 done
