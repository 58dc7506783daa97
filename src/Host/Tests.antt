-- ===== src/Host/Tests.antt =====
-- The checks of the host's services on concrete values.
use shellfleet_agent.Host.Health.Running.{signature-sync}
use shellfleet_agent.Host.Health.Tidy.{IsTidy}
use shellfleet_agent.Host.Health.{
  Probes, sync, apply_probes, apply_probe, lookup, abort, remove, spawn, insert, to_remove, kept,
  abort_all, signature, wanted,
}
use shellfleet_agent.Common.{
  ◌≡◌, ◌⊎◌, refl, true, not, List, [], ◌∷◌, ◌++◌, Option, none, some, if◌then◌else◌, all,
  starts_with, Text, lit, trim, is_whitespace, Result, ok, err, Output, Runner, pos, All, arith,
  to_decimal,
}
use shellfleet_agent.Host.Systemd.{
  is_safe_unit_name, token_char, control_service, IsOperand, Agree, control_service-Agree,
}
use shellfleet_agent.Host.Journal.{
  StreamArgs, argv_start, build_argv, unit_args, checked_arg, allowed_priorities, is_safe_since,
  since_char, is_safe_grep, IsArg, build_argv-All,
}
use shellfleet_agent.Host.Exec.{configured, entries_of, parse_command_allowlist}
use shellfleet_agent.Host.Backup.{
  FilePath, root_dir, parent_dir, normal, same_component, normalize_lexical, normalize_from,
  normalize_step, path_starts_with, pop, canonical_root, canonical_ok, within_roots, IsPlain,
  BelowOne, within_roots-BelowOne,
}

abbrev done : Output
done = record { success = true; code = some (pos 0); stdout = []; stderr = [] }

abbrev machine : Runner
machine program args = ok done

-- It runs only command lines without an option.
abbrev careful : Runner
careful program args =
    if all (λ w. not (starts_with w (lit "-"))) args then ok done else err (lit "refused")

all-IsOperand :
    (args : List Text) → All IsOperand args → all (λ w. not (starts_with w (lit "-"))) args ≡ true
all-IsOperand [] h = refl
all-IsOperand (w ∷ args) h = ground (arith, h.0, all-IsOperand args h.1)

machine-careful : Agree machine careful
machine-careful args h = rw (all-IsOperand args h) refl

control_service-Agree_example :
    control_service machine (lit "nginx.service") (lit "restart")
    ≡ control_service careful (lit "nginx.service") (lit "restart")
control_service-Agree_example =
    control_service-Agree machine careful machine-careful (lit "nginx.service") (lit "restart")

abbrev follow_web : StreamArgs
follow_web = record {
  stream_id = lit "1";
  units = lit "nginx.service" ∷ [];
  priority = some (lit "err");
  since = some (lit "-1h");
  grep = none;
  identifier = none;
  line_count = 20000;
  follow = true;
}

abbrev web : StreamArgs
web = record follow_web { since = some (lit "1 hour ago") }

abbrev web_argv : List Text
web_argv =
    lit "--no-pager"
    ∷ lit "--output=short-iso"
    ∷ lit "--follow"
    ∷ lit "--lines=10000"
    ∷ lit "-u"
    ∷ lit "nginx.service"
    ∷ lit "-p"
    ∷ lit "err"
    ∷ lit "--since"
    ∷ lit "1 hour ago"
    ∷ []

web_built : build_argv web ≡ ok web_argv
unfolding build_argv argv_start unit_args checked_arg allowed_priorities is_safe_unit_name
    token_char is_safe_since since_char is_safe_grep to_decimal
web_built = refl

build_argv-All_example :
    (rest : List Text) × (web_argv ≡ argv_start web ++ rest) × All IsArg web_argv
build_argv-All_example = build_argv-All web web_argv web_built

abbrev read_list : Text → Result Text (List Text)
read_list s = ok (lit "uptime " ∷ lit " " ∷ [])

uptime_parsed : parse_command_allowlist read_list (some (lit "x")) ≡ ok (lit "uptime" ∷ [])
unfolding parse_command_allowlist configured entries_of trim is_whitespace
uptime_parsed = refl

abbrev state_dir : FilePath
state_dir = root_dir ∷ normal (lit "var") ∷ []

abbrev archive : FilePath
archive = root_dir ∷ normal (lit "tmp") ∷ parent_dir ∷ normal (lit "var") ∷ normal (lit "a") ∷ []

-- A file system in which every path resolves to its normal form.
abbrev plain_disk : FilePath → Option FilePath
plain_disk p = some (normalize_lexical p)

archive_within : within_roots plain_disk archive (state_dir ∷ []) ≡ true
unfolding within_roots canonical_ok canonical_root normalize_lexical normalize_from normalize_step
    pop same_component path_starts_with
archive_within = refl

within_roots-BelowOne_example :
    All IsPlain (normalize_lexical archive)
    × BelowOne normalize_lexical (normalize_lexical archive) (state_dir ∷ [])
    × ((plain_disk archive ≡ none)
        ⊎ ((canon : FilePath) × (plain_disk archive ≡ some canon)
            × BelowOne (canonical_root plain_disk) canon (state_dir ∷ [])))
within_roots-BelowOne_example =
    within_roots-BelowOne plain_disk archive (state_dir ∷ []) archive_within

abbrev one_probe : Probes
one_probe = record {
  tasks = (lit "a", (lit "old", 0)) ∷ (lit "b", (lit "b1", 1)) ∷ [];
  spawned = 2;
  aborted = [];
}

-- The changed probe is spawned again, and the two old tasks are aborted.
resynced :
    sync ((lit "a", some (lit "new")) ∷ []) one_probe
    ≡ record { tasks = (lit "a", (lit "new", 2)) ∷ []; spawned = 3; aborted = 0 ∷ 1 ∷ [] }
unfolding sync apply_probes apply_probe lookup abort remove spawn insert to_remove kept abort_all
resynced = refl

one_probe-IsTidy : IsTidy one_probe
unfolding lookup
one_probe-IsTidy = record {
  unique = (refl, refl, (refl, refl, tt));
  exact = λ m. ground arith;
  fresh = λ m h. refl;
}

-- Before the first call nothing runs.
abbrev no_probes : Probes
no_probes = record { tasks = []; spawned = 0; aborted = [] }

no_probes-IsTidy : IsTidy no_probes
no_probes-IsTidy = record { unique = tt; exact = λ m. ground arith; fresh = λ m h. refl }

signature-sync_example :
    ((id : Text)
      → signature id (sync ((lit "a", some (lit "new")) ∷ []) one_probe).tasks
        ≡ wanted id ((lit "a", some (lit "new")) ∷ []))
    × IsTidy (sync ((lit "a", some (lit "new")) ∷ []) one_probe)
signature-sync_example =
    signature-sync ((lit "a", some (lit "new")) ∷ []) one_probe one_probe-IsTidy
