-- ===== src/K8s/Policy.antt =====
-- What a manifest may ask for: `validate_pod_spec` and `validate_apply_document` of src/k8s.rs.
use shellfleet_agent.Common.{
  Bool, true, false, not, ◌&&◌, List, [], ◌∷◌, Option, none, some, if◌then◌else◌, equal, ltb,
  one_of, any, filterb, map, is_empty, Text, lit, trim, split, to_ascii_lowercase, Result, ok,
  ensure, ok_or, ◌>>=◌, ◌>>◌,
}
use shellfleet_agent.K8s.{
  Json, Items, no_items, item, pointer, as_u64, and_then, bool_at, str_at, array_at, any_item,
}

pub data Refusal : Type 0 where
  host_namespace : Text → Refusal
  automount host_path projected_token : Refusal
  privileged escalation capabilities unmasked no_seccomp host_process host_ports : Text → Refusal
  forced no_api_version no_kind not_allowed no_namespace bad_namespace no_pod_spec : Refusal

abbrev is_true : Option Bool → Bool
is_true (some true) = true
is_true _ = false

abbrev is_false : Option Bool → Bool
is_false (some false) = true
is_false _ = false

abbrev pub security : List Text → List Text
security path = lit "securityContext" ∷ path

unfoldable pub set_true : List Text → Json → Bool
set_true path v = is_true (bool_at path v)

unfoldable pub set_false : List Text → Json → Bool
set_false path v = is_false (bool_at path v)

-- `.is_some_and(|mode| mode.eq_ignore_ascii_case(name))`, for a name in lower case
unfoldable pub mode_is : Text → List Text → Json → Bool
mode_is name path v = elim (str_at path v) [
  | none ↦ false
  | some mode ↦ equal (to_ascii_lowercase mode) name
]

-- `.is_some_and(|list| !list.is_empty())`
unfoldable pub has_items : List Text → Json → Bool
has_items path v = elim (array_at path v) [ none ↦ false | some items ↦ any_item (λ _. true) items ]

-- `.is_some_and(|list| list.iter().any(test))`
unfoldable pub some_item : (Json → Bool) → List Text → Json → Bool
some_item test path v = elim (array_at path v) [ none ↦ false | some items ↦ any_item test items ]

abbrev is_some {ℓ} : {A : Type ℓ} → Option A → Bool
is_some none = false
is_some (some a) = true

unfoldable pub has : List Text → Json → Bool
has path v = is_some (pointer path v)

unfoldable pub positive_port : Json → Bool
positive_port port = elim (and_then (pointer (lit "hostPort" ∷ []) port) as_u64) [
  | none ↦ false
  | some n ↦ ltb 0 n
]

unfoldable pub check_volume : Json → Result Refusal (Unit {0})
check_volume volume = do
  ensure (not (has (lit "hostPath" ∷ []) volume)) host_path
  ensure
      (not (
        some_item (has (lit "serviceAccountToken" ∷ [])) (lit "projected" ∷ lit "sources" ∷ [])
          volume))
      projected_token

unfoldable pub check_container : Text → Json → Result Refusal (Unit {0})
check_container container_field c = do
  ensure (not (set_true (security (lit "privileged" ∷ [])) c)) (privileged container_field)
  ensure (not (set_true (security (lit "allowPrivilegeEscalation" ∷ [])) c))
      (escalation container_field)
  ensure (not (has_items (security (lit "capabilities" ∷ lit "add" ∷ [])) c))
      (capabilities container_field)
  ensure (not (mode_is (lit "unmasked") (security (lit "procMount" ∷ [])) c))
      (unmasked container_field)
  ensure (not (mode_is (lit "unconfined") (security (lit "seccompProfile" ∷ lit "type" ∷ [])) c))
      (no_seccomp container_field)
  ensure (not (set_true (security (lit "windowsOptions" ∷ lit "hostProcess" ∷ [])) c))
      (host_process container_field)
  ensure (not (some_item positive_port (lit "ports" ∷ []) c)) (host_ports container_field)

-- A loop that returns at the first error.
unfoldable pub each_item : (Json → Result Refusal (Unit {0})) → Items → Result Refusal (Unit {0})
each_item check no_items = ok tt
each_item check (item v rest) = check v >> each_item check rest

-- `if let Some(list) = …` in front of the loop.
unfoldable pub each_at :
    (Json → Result Refusal (Unit {0})) → List Text → Json → Result Refusal (Unit {0})
each_at check path v = elim (array_at path v) [ none ↦ ok tt | some items ↦ each_item check items ]

unfoldable pub check_containers : Text → Json → Result Refusal (Unit {0})
check_containers container_field = each_at (check_container container_field) (container_field ∷ [])

unfoldable pub validate_pod_spec : Json → Result Refusal (Unit {0})
validate_pod_spec spec = do
  ensure (not (set_true (lit "hostNetwork" ∷ []) spec)) (host_namespace (lit "hostNetwork"))
  ensure (not (set_true (lit "hostPID" ∷ []) spec)) (host_namespace (lit "hostPID"))
  ensure (not (set_true (lit "hostIPC" ∷ []) spec)) (host_namespace (lit "hostIPC"))
  ensure (set_false (lit "automountServiceAccountToken" ∷ []) spec) automount
  each_at check_volume (lit "volumes" ∷ []) spec
  check_containers (lit "containers") spec
  check_containers (lit "initContainers") spec
  check_containers (lit "ephemeralContainers") spec

-- `ALLOWED_APPLY_RESOURCES`
unfoldable pub allowed_apply_resources : List (Text × Text)
allowed_apply_resources =
    (lit "v1", lit "Pod")
    ∷ (lit "v1", lit "Service")
    ∷ (lit "v1", lit "ConfigMap")
    ∷ (lit "v1", lit "Secret")
    ∷ (lit "v1", lit "PersistentVolumeClaim")
    ∷ (lit "apps/v1", lit "Deployment")
    ∷ (lit "apps/v1", lit "StatefulSet")
    ∷ (lit "apps/v1", lit "DaemonSet")
    ∷ (lit "apps/v1", lit "ReplicaSet")
    ∷ (lit "batch/v1", lit "Job")
    ∷ (lit "batch/v1", lit "CronJob")
    ∷ (lit "networking.k8s.io/v1", lit "Ingress")
    ∷ (lit "autoscaling/v2", lit "HorizontalPodAutoscaler")
    ∷ []

unfoldable pub pod_spec_pointer : Text → Option (List Text)
pod_spec_pointer kind =
    if equal kind (lit "Pod")
    then some (lit "spec" ∷ [])
    else if one_of
        (lit "Deployment" ∷ lit "StatefulSet" ∷ lit "DaemonSet" ∷ lit "ReplicaSet" ∷ lit "Job" ∷ [])
        kind
    then some (lit "spec" ∷ lit "template" ∷ lit "spec" ∷ [])
    else if equal kind (lit "CronJob")
    then some (lit "spec" ∷ lit "jobTemplate" ∷ lit "spec" ∷ lit "template" ∷ lit "spec" ∷ [])
    else none

-- `if let Some(pointer) = pod_spec_pointer { … }`
unfoldable pub check_pod_spec : Option (List Text) → Json → Result Refusal (Unit {0})
check_pod_spec none document = ok tt
check_pod_spec (some path) document =
    ok_or (pointer path document) no_pod_spec >>= validate_pod_spec

unfoldable pub listed : Text → Text → Bool
listed api_version kind = any (λ r. equal r.0 api_version && equal r.1 kind) allowed_apply_resources

-- `.filter(|namespace| !namespace.is_empty())`
abbrev not_empty : Option Text → Option Text
not_empty none = none
not_empty (some s) = if is_empty s then none else some s

unfoldable pub validate_apply_document : Json → List Text → Bool → Result Refusal (Unit {0})
validate_apply_document document allowed_namespaces force = do
  ensure (not force) forced
  api_version ← ok_or (str_at (lit "apiVersion" ∷ []) document) no_api_version
  kind ← ok_or (str_at (lit "kind" ∷ []) document) no_kind
  ensure (listed api_version kind) not_allowed
  namespace ←
      ok_or (not_empty (str_at (lit "metadata" ∷ lit "namespace" ∷ []) document)) no_namespace
  ensure (one_of allowed_namespaces namespace) bad_namespace
  check_pod_spec (pod_spec_pointer kind) document

pub data NamespacesError : Type 0 where
  not_set empty_list wildcard : NamespacesError

-- `raw.split(',').map(str::trim).filter(…)`
unfoldable pub listed_namespaces : Text → List Text
listed_namespaces raw = filterb (λ s. not (is_empty s)) (map trim (split b',' raw))

-- The environment variable is an argument.
unfoldable pub configured_apply_namespaces : Option Text → Result NamespacesError (List Text)
configured_apply_namespaces var = do
  raw ← ok_or var not_set
  ensure (not (is_empty (listed_namespaces raw))) empty_list
  ensure (not (one_of (listed_namespaces raw) (lit "*"))) wildcard
  ok (listed_namespaces raw)
