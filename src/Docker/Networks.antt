-- ===== src/Docker/Networks.antt =====
-- The operations of src/docker.rs that look into networks and volumes, and that create a network.
use shellfleet_agent.Common.{
  Output, ℕ, Bool, true, false, ◌&&◌, List, [], ◌∷◌, ◌++◌, Option, none, some, if◌then◌else◌,
  is_empty, ltb, Text, str_len, lit, trim, Runner, Result, ok, err, ◌>>=◌,
}
use shellfleet_agent.Docker.Actions.{
  unless_refused, bad_ref, spawn, too_large, reported_text, Report, failed, ran_cut,
}
use shellfleet_agent.Docker.{
  RefError, validate_object_ref, validate_network_driver, validate_subnet,
}

-- `shared::MAX_OUTPUT_BYTES` is an argument.
unfoldable pub network_inspected : ℕ → Result Text Output → Report
network_inspected max_output_bytes (err e) = failed (spawn e)
network_inspected max_output_bytes (ok output) =
    if output.success && ltb max_output_bytes (str_len output.stdout)
    then failed too_large
    else if output.success
    then record { success = true; log = output.stdout; error = none }
    else record {
      success = false;
      log = output.stdout;
      error = some (reported_text (trim output.stderr));
    }

unfoldable pub inspect_network : ℕ → Runner → Text → Report
inspect_network max_output_bytes run id =
    unless_refused (validate_object_ref id) (λ e. failed (bad_ref e))
      (network_inspected max_output_bytes
        (run (lit "docker") (lit "network" ∷ lit "inspect" ∷ id ∷ [])))

unfoldable pub volume_inspected : Result Text Output → Report
volume_inspected (err e) = failed (spawn e)
volume_inspected (ok output) =
    if output.success
    then record { success = true; log = output.stdout; error = none }
    else record {
      success = false;
      log = output.stdout;
      error = some (reported_text (trim output.stderr));
    }

unfoldable pub inspect_volume : Runner → Text → Report
inspect_volume run name =
    unless_refused (validate_object_ref name) (λ e. failed (bad_ref e))
      (volume_inspected (run (lit "docker") (lit "volume" ∷ lit "inspect" ∷ name ∷ [])))

pub record NetworkReport : Type 0 where
  pub report : Report
  pub id : Option Text

-- The subnet, checked unless it is empty, as arguments.
unfoldable pub subnet_args : Option Text → Result RefError (List Text)
subnet_args none = ok []
subnet_args (some s) =
    if is_empty s then ok [] else validate_subnet s >>= λ _. ok (lit "--subnet" ∷ s ∷ [])

-- The arguments after `--driver`'s.
unfoldable pub network_options : Bool → Bool → Text → List Text
network_options attachable internal name =
    (if attachable then lit "--attachable" ∷ [] else [])
    ++ ((if internal then lit "--internal" ∷ [] else []) ++ name ∷ [])

unfoldable pub network_line : Text → List Text → List Text → List Text
network_line driver net options =
    lit "network" ∷ lit "create" ∷ lit "--driver" ∷ driver ∷ (net ++ options)

unfoldable pub network_args : Text → Text → Option Text → Bool → Bool → Result RefError (List Text)
network_args name driver subnet attachable internal = do
  _ ← validate_object_ref name
  _ ← validate_network_driver driver
  net ← subnet_args subnet
  ok (network_line driver net (network_options attachable internal name))

unfoldable pub network_created : Result Text Output → Option NetworkReport
network_created (err e) = some (record { report = failed (spawn e); id = none })
network_created (ok output) = elim (ran_cut (lit "docker network create exit") (ok output)) [
  | none ↦ none
  | some report ↦
      some (record {
        report = report;
        id = if output.success then some (trim output.stdout) else none;
      })
]

abbrev pub unless_bad_args :
    Result RefError (List Text) → (List Text → Option NetworkReport) → Option NetworkReport
unless_bad_args (err e) next = some (record { report = failed (bad_ref e); id = none })
unless_bad_args (ok args) next = next args

unfoldable pub create_network :
    Runner → Text → Text → Option Text → Bool → Bool → Option NetworkReport
create_network run name driver subnet attachable internal =
    unless_bad_args (network_args name driver subnet attachable internal)
      (λ args. network_created (run (lit "docker") args))
