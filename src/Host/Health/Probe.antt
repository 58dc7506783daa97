-- ===== src/Host/Health/Probe.antt =====
-- src/health.rs: one run of a probe. The network and the process are the record `Net`; a duration is
-- a number of seconds.
use shellfleet_agent.Common.{
  ℕ, ◌+◌, max, Bool, true, false, not, ◌&&◌, ◌||◌, List, [], ◌∷◌, ◌++◌, Option, none, some,
  if◌then◌else◌, ◌==◌, ltb, leb, is_empty, length, take, all, find, Text, Bytes, lit, as_bytes,
  trim, lines, contains, contains_char, starts_with, one_of, is_ascii_alphanumeric,
  is_ascii_alphabetic, ℤ, negsuc, Result, ok, err, Output,
}

pub data HealthProbeKind : Type 0 where
  http tcp exec : HealthProbeKind

pub data HealthProbeState : Type 0 where
  green red : HealthProbeState

pub record HealthProbeSpec : Type 0 where
  pub id : Text
  pub kind : HealthProbeKind
  pub target : Text
  pub expect_status : Option ℕ
  pub expect_body : Option Text
  pub env : List Text
  pub interval_secs : ℕ
  pub timeout_secs : ℕ

pub data Detail : Type 0 where
  client_build connect read_body spawn wait invalid_target not_found said : Text → Detail
  unexpected_status fine timed_out : ℕ → Detail
  body_missing : Text → ℕ → Detail
  too_large plain_ok : Detail
  exit_said : ℤ → Text → Detail

abbrev pub Sample : Type 0
Sample = HealthProbeState × Detail

pub record Response : Type 0 where
  pub status : ℕ
  pub chunks : List (Result Text Bytes)

pub data ProcessFault : Type 0 where
  not_spawned not_waited : Text → ProcessFault
  too_late : ProcessFault

pub record Net : Type 0 where
  pub client_fault : Option Text
  pub get : Text → ℕ → Result Text Response
  pub from_utf8_lossy : Bytes → Text
  -- `TcpStream::connect`; `none` is the timeout.
  pub tcp_connect : Text → ℕ → Option (Result Text (Unit {0}))
  pub is_file : Text → Bool
  pub run_script : Text → List (Text × Text) → ℕ → Result ProcessFault Output

abbrev pub http_body_cap : ℕ
http_body_cap = 1048576

-- `saturating_add` does not saturate below the cap.
unfoldable pub append_body_chunk : Bytes → Bytes → Option Bytes
append_body_chunk body chunk =
    if ltb http_body_cap (length body + length chunk) then none else some (body ++ chunk)

unfoldable pub collect_body : Bytes → List (Result Text Bytes) → Result Detail Bytes
collect_body body [] = ok body
collect_body body (err e ∷ rest) = err (read_body e)
collect_body body (ok chunk ∷ rest) = elim (append_body_chunk body chunk) [
  | none ↦ err too_large
  | some more ↦ collect_body more rest
]

unfoldable pub status_ok : Option ℕ → ℕ → Bool
status_ok (some want) status = status == want
status_ok none status = leb 200 status && ltb status 300

unfoldable pub body_sample : Net → Response → Option Text → Sample
body_sample net resp none = (green, fine resp.status)
body_sample net resp (some want) = elim (collect_body [] resp.chunks) [
  | err d ↦ (red, d)
  | ok bytes ↦
      if contains (net.from_utf8_lossy bytes) want
      then (green, fine resp.status)
      else (red, body_missing want resp.status)
]

unfoldable pub response_sample : Net → HealthProbeSpec → Response → Sample
response_sample net spec resp =
    if status_ok spec.expect_status resp.status
    then body_sample net resp spec.expect_body
    else (red, unexpected_status resp.status)

unfoldable pub probe_http : Net → HealthProbeSpec → ℕ → Sample
probe_http net spec timeout = elim net.client_fault [
  | some e ↦ (red, client_build e)
  | none ↦ elim (net.get spec.target timeout) [
    | err e ↦ (red, connect e)
    | ok resp ↦ response_sample net spec resp
  ]
]

unfoldable pub probe_tcp : Net → HealthProbeSpec → ℕ → Sample
probe_tcp net spec timeout = elim (net.tcp_connect spec.target timeout) [
  | none ↦ (red, timed_out timeout)
  | some answer ↦ elim answer [ ok _ ↦ (green, plain_ok) | err e ↦ (red, connect e) ]
]

unfoldable pub key_byte : ℕ → Bool
key_byte b = b == b'_' || is_ascii_alphanumeric b

-- The byte at index 0 is no digit.
unfoldable pub key_bytes : Bytes → Bool
key_bytes [] = true
key_bytes (b ∷ rest) = key_byte b && (b == b'_' || is_ascii_alphabetic b) && all key_byte rest

abbrev pub controls : List Text
controls =
    lit "PATH"
    ∷ lit "BASH_ENV"
    ∷ lit "ENV"
    ∷ lit "CDPATH"
    ∷ lit "GLOBIGNORE"
    ∷ lit "SHELLOPTS"
    ∷ lit "BASHOPTS"
    ∷ lit "PYTHONHOME"
    ∷ lit "PYTHONPATH"
    ∷ lit "PYTHONSTARTUP"
    ∷ lit "PERL5LIB"
    ∷ lit "PERL5OPT"
    ∷ lit "RUBYLIB"
    ∷ lit "RUBYOPT"
    ∷ lit "NODE_OPTIONS"
    ∷ lit "JAVA_TOOL_OPTIONS"
    ∷ lit "JDK_JAVA_OPTIONS"
    ∷ []

unfoldable pub is_safe_probe_env_key : Text → Bool
is_safe_probe_env_key key =
    if is_empty key || not (key_bytes (as_bytes key))
    then false
    else not (one_of controls key)
      && not (starts_with key (lit "LD_"))
      && not (starts_with key (lit "DYLD_"))

-- `split_once('=')`
unfoldable pub split_once_eq : Text → Option (Text × Text)
split_once_eq [] = none
split_once_eq (c ∷ s) =
    let later = split_once_eq s in
    if c == b'='
    then some ([], s)
    else elim later [ none ↦ none | some (key, value) ↦ some (c ∷ key, value) ]

-- The calls of `cmd.env` for the pairs of the spec.
unfoldable pub vetted : List Text → List (Text × Text)
vetted [] = []
vetted (kv ∷ rest) =
    let others = vetted rest in
    elim (split_once_eq kv) [
      | none ↦ others
      | some (key, value) ↦ if is_safe_probe_env_key key then (key, value) ∷ others else others
    ]

abbrev pub default_path : Text
default_path = lit "/usr/local/sbin:/usr/local/bin:/usr/sbin:/usr/bin:/sbin:/bin"

-- All calls of `cmd.env` after `env_clear`; of two with one key the later one counts.
unfoldable pub probe_env : List Text → List (Text × Text)
probe_env pairs = (lit "PATH", default_path) ∷ vetted pairs

unfoldable pub probe_path : Text → Text
probe_path target = lit "/etc/shellfleet/probes.d/" ++ target

unfoldable pub is_bad_target : Text → Bool
is_bad_target target =
    is_empty target
    || contains_char b'/' target
    || contains_char b'\\' target
    || contains target (lit "..")

-- The program and its environment, up to the spawn.
unfoldable pub exec_command : Net → HealthProbeSpec → Result Detail (Text × List (Text × Text))
exec_command net spec =
    if is_bad_target (trim spec.target)
    then err (invalid_target (trim spec.target))
    else if net.is_file (probe_path (trim spec.target))
    then ok (probe_path (trim spec.target), probe_env spec.env)
    else err (not_found (probe_path (trim spec.target)))

unfoldable pub first_line : Text → Text
first_line stdout = elim (find (λ line. not (is_empty (trim line))) (lines stdout)) [
  | none ↦ []
  | some line ↦ take 200 line
]

unfoldable pub first_error : List Text → Text
first_error [] = []
first_error (line ∷ rest) = take 200 line

unfoldable pub status_code : Option ℤ → ℤ
status_code none = negsuc 0
status_code (some c) = c

unfoldable pub output_sample : Output → Sample
output_sample output =
    let said_first = first_line output.stdout in
    if output.success then (green, if is_empty said_first then plain_ok else said said_first) else (
      red,
      exit_said (status_code output.code)
          (if is_empty said_first then first_error (lines output.stderr) else said_first),
    )

unfoldable pub process_sample : ℕ → Result ProcessFault Output → Sample
process_sample timeout (ok output) = output_sample output
process_sample timeout (err (not_spawned e)) = (red, spawn e)
process_sample timeout (err (not_waited e)) = (red, wait e)
process_sample timeout (err too_late) = (red, timed_out timeout)

unfoldable pub probe_exec : Net → HealthProbeSpec → ℕ → Sample
probe_exec net spec timeout = elim (exec_command net spec) [
  | err d ↦ (red, d)
  | ok (path, env) ↦ process_sample timeout (net.run_script path env timeout)
]

unfoldable pub probe : Net → HealthProbeSpec → Sample
probe net spec = elim spec.kind [
  | http ↦ probe_http net spec (max spec.timeout_secs 1)
  | tcp ↦ probe_tcp net spec (max spec.timeout_secs 1)
  | exec ↦ probe_exec net spec (max spec.timeout_secs 1)
]
