-- ===== src/Docker/Actions.antt =====
-- The operations of src/docker.rs that change containers, services, images, networks and volumes.
use shellfleet_agent.Common.{
  ◌==◌, ℕ, Bool, false, List, [], ◌∷◌, ◌++◌, Option, none, some, if◌then◌else◌, ◌-◌, is_empty, ltb,
  Text, len_utf8, str_len, lit, to_decimal, ℤ, Output, Runner, Result, ok, err,
}
use shellfleet_agent.Docker.{RefError, validate_object_ref, validate_image_ref}
use shellfleet_agent.Deploy.{collect_log}

pub data DockerError : Type 0 where
  bad_ref : RefError → DockerError
  spawn write_stdin wait : Text → DockerError
  exited : Text → Option ℤ → DockerError
  too_large : DockerError
  reported_text : Text → DockerError

-- `(bool, String, Option<String>)`
pub record Report : Type 0 where
  pub success : Bool
  pub log : Text
  pub error : Option DockerError

abbrev pub failed : DockerError → Report
failed e = record { success = false; log = []; error = some e }

-- `String::drain(..cut)`; `none` is the panic where `cut` is inside of a character.
unfoldable pub drain : ℕ → Text → Option Text
drain cut [] = if cut == 0 then some [] else none
drain cut (c ∷ s) =
    let rest = drain (cut - len_utf8 c) s in
    if cut == 0 then some (c ∷ s) else if ltb cut (len_utf8 c) then none else rest

-- `…[{cut} bytes truncated]…\n`
unfoldable pub cut_mark : ℕ → Text
cut_mark cut =
    0x2026 ∷ (lit "[" ++ (to_decimal cut ++ (lit " bytes truncated]" ++ 0x2026 ∷ b'\n' ∷ [])))

-- Both streams, under a mark where stderr starts.
unfoldable pub both_streams : Output → Text
both_streams output =
    if is_empty output.stderr
    then output.stdout
    else (if is_empty output.stdout then [] else output.stdout ++ lit "\n--- stderr ---\n")
      ++ output.stderr

unfoldable pub keep_end : Text → Option Text
keep_end s =
    let cut = str_len s - 8000 in
    if ltb 8000 (str_len s)
    then elim (drain cut s) [ none ↦ none | some rest ↦ some (cut_mark cut ++ rest) ]
    else some s

unfoldable pub combine_stdout_stderr : Output → Option Text
combine_stdout_stderr output = keep_end (both_streams output)

-- `if let Err(error) = validate(name) { return … }`
abbrev pub unless_refused {ℓ} : {A : Type ℓ} → Result RefError (Unit {0}) → (RefError → A) → A → A
unless_refused (err e) refuse next = refuse e
unless_refused (ok _) refuse next = next

-- The end of the operations whose log is not cut.
unfoldable pub ran : Result Text Output → Report
ran (err e) = failed (spawn e)
ran (ok output) = record {
  success = output.success;
  log = collect_log output.stdout output.stderr;
  error = if output.success then none else some (exited (lit "exit code") output.code);
}

-- The end of those whose log is; `none` is the panic.
unfoldable pub ran_cut : Text → Result Text Output → Option Report
ran_cut what (err e) = some (failed (spawn e))
ran_cut what (ok output) = elim (combine_stdout_stderr output) [
  | none ↦ none
  | some log ↦ some (record {
    success = output.success;
    log = log;
    error = if output.success then none else some (exited what output.code);
  })
]

pub data DockerContainerAction : Type 0 where
  start stop restart remove : DockerContainerAction

unfoldable pub container_action_args : DockerContainerAction → Text → List Text
container_action_args start id = lit "start" ∷ id ∷ []
container_action_args stop id = lit "stop" ∷ id ∷ []
container_action_args restart id = lit "restart" ∷ id ∷ []
container_action_args remove id = lit "rm" ∷ lit "-f" ∷ id ∷ []

unfoldable pub run_container_action : Runner → Text → DockerContainerAction → Report
run_container_action run id action =
    unless_refused (validate_object_ref id) (λ e. failed (bad_ref e))
      (ran (run (lit "docker") (container_action_args action id)))

pub data SwarmAction : Type 0 where
  scale : ℕ → SwarmAction
  force_update remove_service : SwarmAction

unfoldable pub swarm_action_args : SwarmAction → Text → List Text
swarm_action_args (scale n) name =
    lit "service" ∷ lit "scale" ∷ (name ++ (b'=' ∷ to_decimal n)) ∷ []
swarm_action_args force_update name = lit "service" ∷ lit "update" ∷ lit "--force" ∷ name ∷ []
swarm_action_args remove_service name = lit "service" ∷ lit "rm" ∷ name ∷ []

unfoldable pub run_swarm_action : Runner → Text → SwarmAction → Report
run_swarm_action run name action =
    unless_refused (validate_object_ref name) (λ e. failed (bad_ref e))
      (ran (run (lit "docker") (swarm_action_args action name)))

-- A child that is given a text on its standard input.
pub data PipeError : Type 0 where
  spawn_failed write_failed wait_failed : Text → PipeError

abbrev pub Piped : Type 0
Piped = Text → List Text → Text → Result PipeError Output

unfoldable pub piped_error : PipeError → DockerError
piped_error (spawn_failed e) = spawn e
piped_error (write_failed e) = write_stdin e
piped_error (wait_failed e) = wait e

unfoldable pub piped_ran : Result PipeError Output → Report
piped_ran (err e) = failed (piped_error e)
piped_ran (ok output) = ran (ok output)

unfoldable pub stack_args : Bool → Text → List Text
stack_args prune stack_name =
    lit "stack"
    ∷ lit "deploy"
    ∷ lit "--compose-file"
    ∷ lit "-"
    ∷ lit "--with-registry-auth"
    ∷ ((if prune then lit "--prune" ∷ [] else []) ++ stack_name ∷ [])

unfoldable pub stack_deploy : Piped → Text → Text → Bool → Report
stack_deploy piped stack_name compose_yaml prune =
    unless_refused (validate_object_ref stack_name) (λ e. failed (bad_ref e))
      (piped_ran (piped (lit "docker") (stack_args prune stack_name) compose_yaml))

abbrev pub forced : Bool → List Text
forced force = if force then lit "--force" ∷ [] else []

unfoldable pub remove_image : Runner → Text → Bool → Option Report
remove_image run id force =
    unless_refused (validate_image_ref id) (λ e. some (failed (bad_ref e)))
      (ran_cut (lit "docker rmi exit") (run (lit "docker") (lit "rmi" ∷ (forced force ++ id ∷ []))))

unfoldable pub pull_image : Runner → Text → Option Report
pull_image run reference =
    unless_refused (validate_image_ref reference) (λ e. some (failed (bad_ref e)))
      (ran_cut (lit "docker pull exit") (run (lit "docker") (lit "pull" ∷ reference ∷ [])))

unfoldable pub remove_network : Runner → Text → Option Report
remove_network run id =
    unless_refused (validate_object_ref id) (λ e. some (failed (bad_ref e)))
      (ran_cut (lit "docker network rm exit")
        (run (lit "docker") (lit "network" ∷ lit "rm" ∷ id ∷ [])))

unfoldable pub remove_volume : Runner → Text → Bool → Option Report
remove_volume run name force =
    unless_refused (validate_object_ref name) (λ e. some (failed (bad_ref e)))
      (ran_cut (lit "docker volume rm exit")
        (run (lit "docker") (lit "volume" ∷ lit "rm" ∷ (forced force ++ name ∷ []))))
