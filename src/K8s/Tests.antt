-- ===== src/K8s/Tests.antt =====
-- A manifest on its way through the checks.
use shellfleet_agent.Common.{
  ◌≡◌, refl, Bool, true, false, [], ◌∷◌, some, lit, ok, err, is_whitespace, trim,
}
use shellfleet_agent.K8s.{
  Json, bool, unsigned, string, array, object, no_items, item, no_fields, field, get, get_field,
  pointer, as_bool, as_str, as_array, bool_at, str_at, array_at, any_item,
}
use shellfleet_agent.K8s.Policy.{
  validate_pod_spec, validate_apply_document, configured_apply_namespaces, listed_namespaces,
  set_true, set_false, mode_is, has_items, some_item, positive_port, check_container, each_item,
  each_at, check_containers, allowed_apply_resources, pod_spec_pointer, check_pod_spec, listed,
  privileged,
}
use shellfleet_agent.K8s.Safe.{PodIsSafe, validate_pod_spec-PodIsSafe}
use shellfleet_agent.K8s.Accepted.{DocumentIsSafe, validate_apply_document-IsSafe}

-- A container with a port, and the security context `{ "privileged": value }`.
abbrev web : Bool → Json
web value = object (
    field (lit "securityContext") (object (field (lit "privileged") (bool value) no_fields)) (
      field (lit "ports")
        (array (item (object (field (lit "containerPort") (unsigned 80) no_fields)) no_items))
        no_fields))

abbrev pod : Bool → Json
pod value = object (
    field (lit "automountServiceAccountToken") (bool false)
      (field (lit "containers") (array (item (web value) no_items)) no_fields))

abbrev manifest : Json
manifest = object (
    field (lit "apiVersion") (string (lit "v1")) (
      field (lit "kind") (string (lit "Pod")) (
        field (lit "metadata") (object (field (lit "namespace") (string (lit "apps")) no_fields))
          (field (lit "spec") (pod false) no_fields))))

pod_accepted : validate_pod_spec (pod false) ≡ ok tt
unfolding validate_pod_spec set_true set_false bool_at pointer get get_field as_bool each_at
    array_at as_array check_containers each_item check_container has_items mode_is str_at some_item
    any_item positive_port
pod_accepted = refl

-- A pod that turns seccomp off for all of its containers, which leave it and
-- `allowPrivilegeEscalation` out.
abbrev unconfined_pod : Json
unconfined_pod = object (
    field (lit "securityContext")
      (object (
        field (lit "seccompProfile")
          (object (field (lit "type") (string (lit "Unconfined")) no_fields)) no_fields))
      (field (lit "automountServiceAccountToken") (bool false)
        (field (lit "containers") (array (item (web false) no_items)) no_fields)))

unconfined_pod_accepted : validate_pod_spec unconfined_pod ≡ ok tt
unfolding validate_pod_spec set_true set_false bool_at pointer get get_field as_bool each_at
    array_at as_array check_containers each_item check_container has_items mode_is str_at some_item
    any_item positive_port
unconfined_pod_accepted = refl

pod_refused : validate_pod_spec (pod true) ≡ err (privileged (lit "containers"))
unfolding validate_pod_spec set_true set_false bool_at pointer get get_field as_bool each_at
    array_at as_array check_containers each_item check_container has_items mode_is str_at some_item
    any_item positive_port
pod_refused = refl

manifest_accepted : validate_apply_document manifest (lit "apps" ∷ []) false ≡ ok tt
unfolding validate_apply_document str_at pointer get get_field as_str listed allowed_apply_resources
    pod_spec_pointer check_pod_spec
manifest_accepted = pod_accepted

namespaces_accepted :
    configured_apply_namespaces (some (lit " apps,,web ")) ≡ ok (lit "apps" ∷ lit "web" ∷ [])
unfolding configured_apply_namespaces listed_namespaces trim is_whitespace
namespaces_accepted = refl

validate_pod_spec-PodIsSafe_example : PodIsSafe (pod false)
validate_pod_spec-PodIsSafe_example = validate_pod_spec-PodIsSafe (pod false) pod_accepted

validate_apply_document-IsSafe_example : DocumentIsSafe manifest (lit "apps" ∷ []) false
validate_apply_document-IsSafe_example =
    validate_apply_document-IsSafe manifest (lit "apps" ∷ []) false manifest_accepted
