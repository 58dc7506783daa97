-- ===== src/K8s/Accepted.antt =====
-- What `validate_apply_document` and `configured_apply_namespaces` of src/k8s.rs let through.
use shellfleet_agent.K8s.Policy.{
  listed_namespaces, listed, allowed_apply_resources, pod_spec_pointer, check_pod_spec,
  validate_apply_document, configured_apply_namespaces,
}
use shellfleet_agent.Common.{
  ◌&&◌, refl, subst, any, equal, equal_iff, Bool-cases, ◌≡◌, inl, inr, Bool, true, false, not, List,
  [], ◌∷◌, Option, none, some, Text, lit, one_of, is_empty, ok, arith, Option-cases, All, filterb,
  map, trim, split,
}
use shellfleet_agent.K8s.{Json, pointer, str_at}
use shellfleet_agent.K8s.Safe.{PodIsSafe, validate_pod_spec-PodIsSafe}

-- The resources that may be applied, by API version and kind.
pub data IsApplicable : Text → Text → Type 0 where
  pods : IsApplicable (lit "v1") (lit "Pod")
  services : IsApplicable (lit "v1") (lit "Service")
  config_maps : IsApplicable (lit "v1") (lit "ConfigMap")
  secrets : IsApplicable (lit "v1") (lit "Secret")
  claims : IsApplicable (lit "v1") (lit "PersistentVolumeClaim")
  deployments : IsApplicable (lit "apps/v1") (lit "Deployment")
  stateful_sets : IsApplicable (lit "apps/v1") (lit "StatefulSet")
  daemon_sets : IsApplicable (lit "apps/v1") (lit "DaemonSet")
  replica_sets : IsApplicable (lit "apps/v1") (lit "ReplicaSet")
  jobs : IsApplicable (lit "batch/v1") (lit "Job")
  cron_jobs : IsApplicable (lit "batch/v1") (lit "CronJob")
  ingresses : IsApplicable (lit "networking.k8s.io/v1") (lit "Ingress")
  autoscalers : IsApplicable (lit "autoscaling/v2") (lit "HorizontalPodAutoscaler")

-- Where a kind that runs pods has their specification.
pub data RunsPodsAt : Text → List Text → Type 0 where
  at_spec : RunsPodsAt (lit "Pod") (lit "spec" ∷ [])
  of_deployment : RunsPodsAt (lit "Deployment") (lit "spec" ∷ lit "template" ∷ lit "spec" ∷ [])
  of_stateful_set : RunsPodsAt (lit "StatefulSet") (lit "spec" ∷ lit "template" ∷ lit "spec" ∷ [])
  of_daemon_set : RunsPodsAt (lit "DaemonSet") (lit "spec" ∷ lit "template" ∷ lit "spec" ∷ [])
  of_replica_set : RunsPodsAt (lit "ReplicaSet") (lit "spec" ∷ lit "template" ∷ lit "spec" ∷ [])
  of_job : RunsPodsAt (lit "Job") (lit "spec" ∷ lit "template" ∷ lit "spec" ∷ [])
  of_cron_job :
      RunsPodsAt
        (lit "CronJob")
        (lit "spec" ∷ lit "jobTemplate" ∷ lit "spec" ∷ lit "template" ∷ lit "spec" ∷ [])

RunsPodsAt-pod_spec_pointer :
    {kind : Text} {path : List Text} → RunsPodsAt kind path → pod_spec_pointer kind ≡ some path
unfolding pod_spec_pointer
RunsPodsAt-pod_spec_pointer at_spec = refl
RunsPodsAt-pod_spec_pointer of_deployment = refl
RunsPodsAt-pod_spec_pointer of_stateful_set = refl
RunsPodsAt-pod_spec_pointer of_daemon_set = refl
RunsPodsAt-pod_spec_pointer of_replica_set = refl
RunsPodsAt-pod_spec_pointer of_job = refl
RunsPodsAt-pod_spec_pointer of_cron_job = refl

-- A test of `contains` over pairs, where every pair of the list is permitted.
any-IsApplicable :
    (api_version kind : Text) (rs : List (Text × Text))
    → All (λ r. IsApplicable r.0 r.1) rs
    → any (λ r. equal r.0 api_version && equal r.1 kind) rs ≡ true
    → IsApplicable api_version kind
any-IsApplicable api_version kind [] h e = cc
any-IsApplicable api_version kind (r ∷ rs) h e = elim (Bool-cases (equal r.0 api_version)) [
  | inr a ↦ any-IsApplicable api_version kind rs h.1 (ground (arith, e, a))
  | inl a ↦ elim (Bool-cases (equal r.1 kind)) [
    | inr b ↦ any-IsApplicable api_version kind rs h.1 (ground (arith, e, a, b))
    | inl b ↦
        subst (IsApplicable api_version) ((equal_iff r.1 kind).0 b)
          (subst (λ v. IsApplicable v r.1) ((equal_iff r.0 api_version).0 a) h.0)
  ]
]

listed-IsApplicable :
    (api_version kind : Text) → listed api_version kind ≡ true → IsApplicable api_version kind
unfolding listed allowed_apply_resources
listed-IsApplicable api_version kind h =
    any-IsApplicable api_version kind allowed_apply_resources
      (
        pods,
        (
          services,
          (
            config_maps,
            (
              secrets,
              (
                claims,
                (
                  deployments,
                  (
                    stateful_sets,
                    (
                      daemon_sets,
                      (replica_sets, (jobs, (cron_jobs, (ingresses, (autoscalers, tt))))),
                    ),
                  ),
                ),
              ),
            ),
          ),
        ),
      )
      h

-- What an accepted document satisfies.
pub record DocumentIsSafe (document : Json) (allowed_namespaces : List Text) (force : Bool)
    : Type 0 where
  pub not_forced : force ≡ false
  pub api_version : Text
  pub kind : Text
  pub has_api_version : str_at (lit "apiVersion" ∷ []) document ≡ some api_version
  pub has_kind : str_at (lit "kind" ∷ []) document ≡ some kind
  pub is_applicable : IsApplicable api_version kind
  pub namespace : Text
  pub has_namespace : str_at (lit "metadata" ∷ lit "namespace" ∷ []) document ≡ some namespace
  pub is_allowed : one_of allowed_namespaces namespace ≡ true
  pub pod_is_safe :
      (path : List Text)
      → RunsPodsAt kind path
      → (spec : Json) × (pointer path document ≡ some spec) × PodIsSafe spec

check_pod_spec-PodIsSafe :
    (where_is : Option (List Text)) (document : Json)
    → check_pod_spec where_is document ≡ ok tt
    → (path : List Text) → where_is ≡ some path
    → (spec : Json) × (pointer path document ≡ some spec) × PodIsSafe spec
unfolding check_pod_spec
check_pod_spec-PodIsSafe none document h path e = cc
check_pod_spec-PodIsSafe (some path') document h path e =
    elim (Option-cases (pointer path' document)) [
      | inl n ↦ ground (arith, n)
      | inr (spec, k) ↦
          let same : path' ≡ path = cc in
          (spec, rw (← same) k, validate_pod_spec-PodIsSafe spec (rw (k) at h))
    ]

-- An accepted document is applied without force, has the API version and kind of one of the thirteen
-- resources that `IsApplicable` lists, names a namespace that the configuration allows, and, when it is
-- a Pod, a Deployment, a StatefulSet, a DaemonSet, a ReplicaSet, a Job or a CronJob, has at the place
-- of its kind a pod specification that `PodIsSafe` describes, field by field.
pub validate_apply_document-IsSafe :
    (document : Json) (allowed_namespaces : List Text) (force : Bool)
    → validate_apply_document document allowed_namespaces force ≡ ok tt
    → DocumentIsSafe document allowed_namespaces force
unfolding validate_apply_document
validate_apply_document-IsSafe document allowed_namespaces force h =
    elim (Option-cases (str_at (lit "apiVersion" ∷ []) document)) [
      | inl n ↦ ground (arith, n)
      | inr (api_version, a) ↦ elim (Option-cases (str_at (lit "kind" ∷ []) document)) [
        | inl n ↦ ground (arith, n, a)
        | inr (kind, k) ↦
            elim (Option-cases (str_at (lit "metadata" ∷ lit "namespace" ∷ []) document)) [
              | inl n ↦ ground (arith, n, a, k)
              | inr (namespace, s) ↦
                  let (f, l, m, p) : (force ≡ false)
                      × (listed api_version kind ≡ true)
                      × (one_of allowed_namespaces namespace ≡ true)
                      × (check_pod_spec (pod_spec_pointer kind) document ≡ ok tt) =
                    ground (arith, a, k, s) in
                  record {
                    not_forced = f;
                    api_version = api_version;
                    kind = kind;
                    has_api_version = a;
                    has_kind = k;
                    is_applicable = listed-IsApplicable api_version kind l;
                    namespace = namespace;
                    has_namespace = s;
                    is_allowed = m;
                    pod_is_safe = λ path at.
                        check_pod_spec-PodIsSafe (pod_spec_pointer kind) document p path
                          (RunsPodsAt-pod_spec_pointer at);
                  }
            ]
      ]
    ]

filterb-All : (test : Text → Bool) (ts : List Text) → All (λ t. test t ≡ true) (filterb test ts)
filterb-All test [] = tt
filterb-All test (t ∷ ts) = elim (Bool-cases (test t)) [
  | inl e ↦ rw e (e, filterb-All test ts)
  | inr e ↦ rw e (filterb-All test ts)
]

listed_namespaces-All : (raw : Text) → All (λ s. not (is_empty s) ≡ true) (listed_namespaces raw)
unfolding listed_namespaces
listed_namespaces-All raw = filterb-All (λ s. not (is_empty s)) (map trim (split b',' raw))

-- The namespaces of the configuration: at least one, none of them empty and none the wildcard.
configured_apply_namespaces-eq_ok :
    (var : Option Text) (namespaces : List Text)
    → configured_apply_namespaces var ≡ ok namespaces
    → (is_empty namespaces ≡ false)
      × (one_of namespaces (lit "*") ≡ false)
      × All (λ s. not (is_empty s) ≡ true) namespaces
unfolding configured_apply_namespaces
configured_apply_namespaces-eq_ok none namespaces h = cc
configured_apply_namespaces-eq_ok (some raw) namespaces h =
    let (a, b, e) : (is_empty (listed_namespaces raw) ≡ false)
        × (one_of (listed_namespaces raw) (lit "*") ≡ false)
        × (listed_namespaces raw ≡ namespaces) =
      ground arith in
    rw (← e) (a, b, listed_namespaces-All raw)
