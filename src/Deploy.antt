-- ===== src/Deploy.antt =====
-- src/deploy.rs: the command lines of `docker run` and `docker service create`.
pub mod Words
pub mod Flags
pub mod Containers
pub mod Services
pub mod Create
mod Tests
use shellfleet_agent.Common.{
  ℕ, Bool, true, false, not, ◌&&◌, ◌||◌, List, [], ◌∷◌, ◌++◌, Option, none, some, if◌then◌else◌,
  ◌==◌, is_empty, equal, Text, lit, trim, lines, to_decimal, is_whitespace, find, ℤ, Output, Runner,
  Result, ok, err,
}

-- The loop of `split_command`: the words so far, the word at hand, the open quote and the escape flag.
pub record Splitter : Type 0 where
  pub out : List Text
  pub cur : Text
  pub quote : Option ℕ
  pub escaped : Bool

abbrev pub push_char : Splitter → ℕ → Splitter
push_char s ch = record s { cur = s.cur ++ ch ∷ [] }

-- `if !cur.is_empty() { out.push(take(&mut cur)) }`
abbrev pub end_word : Splitter → Splitter
end_word s = if is_empty s.cur then s else record s { out = s.out ++ s.cur ∷ []; cur = [] }

-- The match on the open quote.
unfoldable pub quoted_char : Option ℕ → Splitter → ℕ → Splitter
quoted_char (some q) s ch = if q == ch then record s { quote = none } else push_char s ch
quoted_char none s ch =
    if ch == b'"' || ch == b'\''
    then record s { quote = some ch }
    else if is_whitespace ch
    then end_word s
    else push_char s ch

unfoldable pub split_step : Splitter → ℕ → Splitter
unfolding quoted_char
split_step s ch =
    if s.escaped
    then record (push_char s ch) { escaped = false }
    else if ch == b'\\'
    then record s { escaped = true }
    else quoted_char s.quote s ch

unfoldable pub split_from : Splitter → Text → Splitter
split_from s [] = s
split_from s (ch ∷ rest) = split_from (split_step s ch) rest

unfoldable pub split_command : Text → List Text
unfolding split_from
split_command cmd =
    (end_word (split_from (record { out = []; cur = []; quote = none; escaped = false }) cmd)).out

unfoldable pub collect_log : Text → Text → Text
collect_log stdout stderr =
    if is_empty stderr
    then stdout
    else (if is_empty stdout then stdout else stdout ++ b'\n' ∷ []) ++ stderr

-- `shared::ContainerSpec` and `shared::ServiceSpec`, with the fields that the source reads.
pub record ContainerSpec : Type 0 where
  pub image : Text
  pub detached : Bool
  pub name : Option Text
  pub ports : List Text
  pub env : List Text
  pub volumes : List Text
  pub restart_policy : Option Text
  pub network : Option Text
  pub pull : Bool
  pub command : Option Text

pub record ServiceSpec : Type 0 where
  pub image : Text
  pub name : Text
  pub mode : Option Text
  pub replicas : Option ℕ
  pub ports : List Text
  pub env : List Text
  pub mounts : List Text
  pub constraints : List Text
  pub networks : List Text
  pub restart_condition : Option Text
  pub command : Option Text

-- `let v = v.trim(); if !v.is_empty() { cmd.arg(flag).arg(v); }`
unfoldable pub trimmed_arg : Text → Text → List Text
trimmed_arg flag v = if is_empty (trim v) then [] else flag ∷ trim v ∷ []

-- The loop of that over a list, and that for `Some(v)`.
unfoldable pub each_arg : Text → List Text → List Text
each_arg flag [] = []
each_arg flag (v ∷ vs) = trimmed_arg flag v ++ each_arg flag vs

unfoldable pub some_arg : Text → Option Text → List Text
some_arg flag none = []
some_arg flag (some v) = trimmed_arg flag v

-- The policy `no` is the default and is left out.
unfoldable pub restart_arg : Option Text → List Text
restart_arg none = []
restart_arg (some v) =
    if is_empty (trim v) || equal (trim v) (lit "no") then [] else lit "--restart" ∷ trim v ∷ []

-- `--` and the words of the command.
unfoldable pub command_args : Option Text → List Text
command_args none = []
command_args (some command) = lit "--" ∷ split_command command

-- The arguments of `docker`.
unfoldable pub container_args : ContainerSpec → List Text
container_args spec =
    lit "run"
    ∷ ((if spec.detached then lit "-d" ∷ [] else [])
        ++ (some_arg (lit "--name") spec.name
            ++ (each_arg (lit "-p") spec.ports
                ++ (each_arg (lit "-e") spec.env
                    ++ (each_arg (lit "-v") spec.volumes
                        ++ (restart_arg spec.restart_policy
                            ++ (some_arg (lit "--network") spec.network
                                ++ ((if spec.pull then lit "--pull" ∷ lit "always" ∷ [] else [])
                                    ++ (spec.image ∷ command_args spec.command)))))))))

-- `--replicas`, unless the mode is `global`.
unfoldable pub replicas_arg : Option Text → Option ℕ → List Text
replicas_arg mode none = []
replicas_arg none (some n) = lit "--replicas" ∷ to_decimal n ∷ []
replicas_arg (some mode) (some n) =
    if equal mode (lit "global") then [] else lit "--replicas" ∷ to_decimal n ∷ []

unfoldable pub service_args : ServiceSpec → List Text
service_args spec =
    lit "service"
    ∷ lit "create"
    ∷ lit "--detach=true"
    ∷ lit "--name"
    ∷ trim spec.name
    ∷ (some_arg (lit "--mode") spec.mode
        ++ (replicas_arg spec.mode spec.replicas
            ++ (each_arg (lit "--publish") spec.ports
                ++ (each_arg (lit "--env") spec.env
                    ++ (each_arg (lit "--mount") spec.mounts
                        ++ (each_arg (lit "--constraint") spec.constraints
                            ++ (each_arg (lit "--network") spec.networks
                                ++ (some_arg (lit "--restart-condition") spec.restart_condition
                                    ++ (spec.image ∷ command_args spec.command)))))))))

pub data DeployError : Type 0 where
  image_required name_required : DeployError
  docker_spawn : Text → DeployError
  exit_code : Option ℤ → DeployError

-- What `create_container` and `create_service` return: success, id, log and error.
pub record Created : Type 0 where
  pub success : Bool
  pub id : Option Text
  pub log : Text
  pub error : Option DeployError

abbrev pub refused : DeployError → Created
refused e = record { success = false; id = none; log = []; error = some e }

-- The end of both functions; `pick` takes the id from the lines of stdout.
unfoldable pub created : (List Text → Text) → Output → Created
unfolding collect_log
created pick output =
    let id = trim (pick (lines output.stdout)) in
    record {
      success = output.success;
      id = if output.success && not (is_empty id) then some id else none;
      log = collect_log output.stdout output.stderr;
      error = if output.success then none else some (exit_code output.code);
    }

-- `lines().last().unwrap_or("")`
unfoldable pub last_line : List Text → Text
last_line [] = []
last_line (x ∷ []) = x
last_line (x ∷ y ∷ xs) = last_line (y ∷ xs)

-- `lines().find(|l| !l.trim().is_empty()).unwrap_or("")`
unfoldable pub first_full_line : List Text → Text
first_full_line ls = elim (find (λ l. not (is_empty (trim l))) ls) [ none ↦ [] | some l ↦ l ]

unfoldable pub create_container : Runner → ContainerSpec → Created
create_container run spec =
    if is_empty (trim spec.image)
    then refused image_required
    else elim (run (lit "docker") (container_args spec)) [
      | err e ↦ refused (docker_spawn e)
      | ok output ↦ created last_line output
    ]

unfoldable pub create_service : Runner → ServiceSpec → Created
create_service run spec =
    if is_empty (trim spec.image)
    then refused image_required
    else if is_empty (trim spec.name)
    then refused name_required
    else elim (run (lit "docker") (service_args spec)) [
      | err e ↦ refused (docker_spawn e)
      | ok output ↦ created first_full_line output
    ]
