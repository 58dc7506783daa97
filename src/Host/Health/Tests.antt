-- ===== src/Host/Health/Tests.antt =====
-- Runs of a probe and of its loop, and their theorems at concrete values.
use shellfleet_agent.Common.{
  err, ◌≡◌, refl, true, false, List, [], ◌∷◌, ◌++◌, none, some, All, Text, lit, trim, lines,
  contains, contains_char, ok, pos,
}
use shellfleet_agent.Host.Health.Probe.{
  exec, http, HealthProbeSpec, green, red, plain_ok, fine, said, Net, probe, probe_exec, probe_http,
  response_sample, status_ok, body_sample, collect_body, append_body_chunk, exec_command,
  is_bad_target, probe_path, probe_env, default_path, vetted, split_once_eq, is_safe_probe_env_key,
  key_bytes, key_byte, process_sample, output_sample, first_line,
}
use shellfleet_agent.Host.Health.Reports.{
  full, is_last, same_state, report_of, received, last_taken, Moment, run_probe, view, Alternate,
  run_probe-view,
}
use shellfleet_agent.Host.Health.Environment.{value_of, IsUnset, steering, exec_command-IsUnset}

abbrev net : Net
net = record {
  client_fault = none;
  get = λ url timeout.
      ok (record { status = 204; chunks = ok (lit "all ") ∷ ok (lit "is well") ∷ [] });
  from_utf8_lossy = λ bytes. bytes;
  tcp_connect = λ target timeout. none;
  is_file = λ path. true;
  run_script = λ path env timeout.
      ok (record { success = true; code = some (pos 0); stdout = lit "\nup\n"; stderr = [] });
}

abbrev script : HealthProbeSpec
script = record {
  id = lit "p";
  kind = exec;
  target = lit " disk.sh ";
  expect_status = none;
  expect_body = some (lit "is well");
  env = lit "LD_PRELOAD=/tmp/x.so" ∷ lit "MOUNT=/srv" ∷ lit "PATH=/tmp" ∷ lit "odd" ∷ [];
  interval_secs = 30;
  timeout_secs = 0;
}

script_probed : probe net script ≡ (green, said (lit "up"))
unfolding probe probe_exec exec_command is_bad_target probe_path probe_env vetted split_once_eq
    is_safe_probe_env_key key_bytes key_byte process_sample output_sample first_line trim lines
script_probed = refl

page_probed : probe net (record script { kind = http }) ≡ (green, fine 204)
unfolding probe probe_http response_sample status_ok body_sample collect_body append_body_chunk
page_probed = refl

abbrev script_env : List (Text × Text)
script_env = (lit "PATH", default_path) ∷ (lit "MOUNT", lit "/srv") ∷ []

script_accepted : exec_command net script ≡ ok (lit "/etc/shellfleet/probes.d/disk.sh", script_env)
unfolding exec_command is_bad_target probe_path probe_env vetted split_once_eq is_safe_probe_env_key
    key_bytes key_byte trim
script_accepted = refl

exec_command-IsUnset_example :
    (lit "/etc/shellfleet/probes.d/disk.sh" ≡ lit "/etc/shellfleet/probes.d/" ++ trim script.target)
    × (contains_char b'/' (trim script.target) ≡ false)
    × (contains (trim script.target) (lit "..") ≡ false)
    × (net.is_file (lit "/etc/shellfleet/probes.d/disk.sh") ≡ true)
    × (value_of (lit "PATH") script_env ≡ some default_path)
    × IsUnset script_env (lit "LD_PRELOAD")
    × IsUnset script_env (lit "DYLD_PRELOAD")
    × All (IsUnset script_env) steering
exec_command-IsUnset_example =
    exec_command-IsUnset net script (lit "/etc/shellfleet/probes.d/disk.sh") script_env
      (lit "PRELOAD") script_accepted

abbrev up : Moment
up = record { sample = (green, plain_ok); elapsed_ms = 3; at = 100; send = ok tt }

abbrev down : Moment
down = record { sample = (red, fine 500); elapsed_ms = 4; at = 130; send = ok tt }

-- The same while the queue is full.
abbrev down_lost : Moment
down_lost = record down { send = err full }

abbrev day : List Moment
day = up ∷ up ∷ down_lost ∷ down ∷ up ∷ []

day_ends_taken : last_taken true (run_probe (lit "p") none day) ≡ true
unfolding run_probe is_last same_state
day_ends_taken = refl

run_probe-view_example :
    (view none (received (run_probe (lit "p") none day)) ≡ some green)
    × Alternate none (run_probe (lit "p") none day)
run_probe-view_example = run_probe-view (lit "p") none day day_ends_taken

-- A report that was lost is not sent again: the receiver goes on taking the probe for green.
outage_unseen :
    view none (received (run_probe (lit "p") none (up ∷ down_lost ∷ down ∷ down ∷ []))) ≡ some green
unfolding run_probe is_last same_state report_of
outage_unseen = refl

-- Variables that load code, and are not among those refused.
loaders_set :
    vetted (lit "GLIBC_TUNABLES=a" ∷ lit "_JAVA_OPTIONS=b" ∷ lit "LUA_INIT=c" ∷ [])
    ≡ (lit "GLIBC_TUNABLES", lit "a")
      ∷ (lit "_JAVA_OPTIONS", lit "b")
      ∷ (lit "LUA_INIT", lit "c")
      ∷ []
unfolding vetted split_once_eq is_safe_probe_env_key key_bytes key_byte
loaders_set = refl
