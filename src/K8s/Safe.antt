-- ===== src/K8s/Safe.antt =====
-- What a pod may not ask for, said of the values at its paths, against `validate_pod_spec`.
use shellfleet_agent.Common.{
  ◌||◌, >>=-eq-ok, ℕ, ◌≡◌, ◌≢◌, Bool, true, false, List, [], ◌∷◌, none, some, Text, lit, equal_iff,
  to_ascii_lowercase, Result, ok, arith,
}
use shellfleet_agent.K8s.{
  Json, bool, unsigned, Items, no_items, item, pointer, as_bool, as_u64, bool_at, str_at, array_at,
  any_item, Each,
}
use shellfleet_agent.K8s.Policy.{
  Refusal, security, set_true, set_false, mode_is, has_items, some_item, has, positive_port,
  check_volume, check_container, each_item, each_at, check_containers, validate_pod_spec,
}

-- Nothing stands at a path, not `true`, no list with an item, and no list with a bad item.
abbrev pub Absent : List Text → Json → Type 0
Absent path v = pointer path v ≡ none

abbrev pub NotTrue : List Text → Json → Type 0
NotTrue path v = pointer path v ≢ some (bool true)

abbrev pub NoItem : List Text → Json → Type 0
NoItem path v = (items : Items) → array_at path v ≡ some items → items ≡ no_items

abbrev pub NoMode : Text → List Text → Json → Type 0
NoMode name path v = (mode : Text) → str_at path v ≡ some mode → to_ascii_lowercase mode ≢ name

abbrev pub EachAt : (Json → Type 0) → List Text → Json → Type 0
EachAt P path v = (items : Items) → array_at path v ≡ some items → Each P items

-- A volume that is neither of the host nor a service account's token.
abbrev pub VolumeIsSafe : Json → Type 0
VolumeIsSafe volume =
    Absent (lit "hostPath" ∷ []) volume
    × EachAt (Absent (lit "serviceAccountToken" ∷ [])) (lit "projected" ∷ lit "sources" ∷ []) volume

abbrev pub PortIsSafe : Json → Type 0
PortIsSafe port = (n : ℕ) → pointer (lit "hostPort" ∷ []) port ≡ some (unsigned n) → n ≡ 0

abbrev pub ContainerIsSafe : Json → Type 0
ContainerIsSafe c =
    NotTrue (security (lit "privileged" ∷ [])) c
    × NotTrue (security (lit "allowPrivilegeEscalation" ∷ [])) c
    × NoItem (security (lit "capabilities" ∷ lit "add" ∷ [])) c
    × NoMode (lit "unmasked") (security (lit "procMount" ∷ [])) c
    × NoMode (lit "unconfined") (security (lit "seccompProfile" ∷ lit "type" ∷ [])) c
    × NotTrue (security (lit "windowsOptions" ∷ lit "hostProcess" ∷ [])) c
    × EachAt PortIsSafe (lit "ports" ∷ []) c

abbrev pub PodIsSafe : Json → Type 0
PodIsSafe spec =
    NotTrue (lit "hostNetwork" ∷ []) spec
    × NotTrue (lit "hostPID" ∷ []) spec
    × NotTrue (lit "hostIPC" ∷ []) spec
    × (pointer (lit "automountServiceAccountToken" ∷ []) spec ≡ some (bool false))
    × EachAt VolumeIsSafe (lit "volumes" ∷ []) spec
    × EachAt ContainerIsSafe (lit "containers" ∷ []) spec
    × EachAt ContainerIsSafe (lit "initContainers" ∷ []) spec
    × EachAt ContainerIsSafe (lit "ephemeralContainers" ∷ []) spec

set_true-NotTrue : (path : List Text) (v : Json) → set_true path v ≡ false → NotTrue path v
unfolding set_true bool_at as_bool
set_true-NotTrue path v h = λ e. ground (arith, e)

set_false-false :
    (path : List Text) (v : Json) → set_false path v ≡ true → pointer path v ≡ some (bool false)
unfolding set_false bool_at as_bool
set_false-false path v h = ground arith

has-Absent : (path : List Text) (v : Json) → has path v ≡ false → Absent path v
unfolding has
has-Absent path v h = ground arith

has_items-NoItem : (path : List Text) (v : Json) → has_items path v ≡ false → NoItem path v
unfolding has_items any_item
has_items-NoItem path v h items e = ground (arith, e)

mode_is-NoMode :
    (name : Text) (path : List Text) (v : Json) → mode_is name path v ≡ false → NoMode name path v
unfolding mode_is
mode_is-NoMode name path v h mode e =
    λ k. ground (arith, e, k, (equal_iff (to_ascii_lowercase mode) name).1 k)

||-eq_false : (a b : Bool) → (a || b) ≡ false → (a ≡ false) × (b ≡ false)
||-eq_false a b h = ground arith

module _ (test : Json → Bool) (P : Json → Type 0) (sound : (v : Json) → test v ≡ false → P v) where
  any_item-Each : (items : Items) → any_item test items ≡ false → Each P items
  unfolding any_item
  any_item-Each no_items h = tt
  any_item-Each (item v rest) h =
      let (a, b) = ||-eq_false (test v) (any_item test rest) h in (sound v a, any_item-Each rest b)

  some_item-EachAt : (path : List Text) (v : Json) → some_item test path v ≡ false → EachAt P path v
  unfolding some_item
  some_item-EachAt path v h items e = any_item-Each items (ground (arith, e))

module _ (check : Json → Result Refusal (Unit {0})) (P : Json → Type 0)
    (sound : (v : Json) → check v ≡ ok tt → P v) where
  each_item-Each : (items : Items) → each_item check items ≡ ok tt → Each P items
  unfolding each_item
  each_item-Each no_items h = tt
  each_item-Each (item v rest) h =
      let (_, a, b) = >>=-eq-ok (check v) (λ _. each_item check rest) h in
      (sound v a, each_item-Each rest b)

  each_at-EachAt : (path : List Text) (v : Json) → each_at check path v ≡ ok tt → EachAt P path v
  unfolding each_at
  each_at-EachAt path v h items e = each_item-Each items (rw (e, each_at) at h)

positive_port-PortIsSafe : (port : Json) → positive_port port ≡ false → PortIsSafe port
unfolding positive_port as_u64
positive_port-PortIsSafe port h n e = ground (arith, e)

check_volume-VolumeIsSafe : (volume : Json) → check_volume volume ≡ ok tt → VolumeIsSafe volume
unfolding check_volume
check_volume-VolumeIsSafe volume h =
    let token = has (lit "serviceAccountToken" ∷ []) in
    let sources = lit "projected" ∷ lit "sources" ∷ [] in
    let (a, b) : (has (lit "hostPath" ∷ []) volume ≡ false)
        × (some_item token sources volume ≡ false) =
      ground arith in
    (
      has-Absent (lit "hostPath" ∷ []) volume a,
      some_item-EachAt token (Absent (lit "serviceAccountToken" ∷ []))
          (has-Absent (lit "serviceAccountToken" ∷ [])) sources volume b,
    )

-- The seven tests of an accepted container, each of them false.
check_container-tests :
    (container_field : Text) (c : Json)
    → check_container container_field c ≡ ok tt
    → (set_true (security (lit "privileged" ∷ [])) c ≡ false)
      × (set_true (security (lit "allowPrivilegeEscalation" ∷ [])) c ≡ false)
      × (has_items (security (lit "capabilities" ∷ lit "add" ∷ [])) c ≡ false)
      × (mode_is (lit "unmasked") (security (lit "procMount" ∷ [])) c ≡ false)
      × (mode_is (lit "unconfined") (security (lit "seccompProfile" ∷ lit "type" ∷ [])) c ≡ false)
      × (set_true (security (lit "windowsOptions" ∷ lit "hostProcess" ∷ [])) c ≡ false)
      × (some_item positive_port (lit "ports" ∷ []) c ≡ false)
unfolding check_container
check_container-tests container_field c h = ground arith

check_container-ContainerIsSafe :
    (container_field : Text) (c : Json)
    → check_container container_field c ≡ ok tt
    → ContainerIsSafe c
check_container-ContainerIsSafe container_field c h =
    let (p, e, k, m, s, w, q) = check_container-tests container_field c h in
    (
      set_true-NotTrue _ c p,
      set_true-NotTrue _ c e,
      has_items-NoItem _ c k,
      mode_is-NoMode _ _ c m,
      mode_is-NoMode _ _ c s,
      set_true-NotTrue _ c w,
      some_item-EachAt positive_port PortIsSafe positive_port-PortIsSafe (lit "ports" ∷ []) c q,
    )

check_containers-EachAt :
    (container_field : Text) (spec : Json)
    → check_containers container_field spec ≡ ok tt
    → EachAt ContainerIsSafe (container_field ∷ []) spec
unfolding check_containers
check_containers-EachAt container_field spec h =
    each_at-EachAt (check_container container_field) ContainerIsSafe
      (check_container-ContainerIsSafe container_field) (container_field ∷ []) spec h

-- The tests of an accepted pod.
validate_pod_spec-tests :
    (spec : Json)
    → validate_pod_spec spec ≡ ok tt
    → (set_true (lit "hostNetwork" ∷ []) spec ≡ false)
      × (set_true (lit "hostPID" ∷ []) spec ≡ false)
      × (set_true (lit "hostIPC" ∷ []) spec ≡ false)
      × (set_false (lit "automountServiceAccountToken" ∷ []) spec ≡ true)
      × (each_at check_volume (lit "volumes" ∷ []) spec ≡ ok tt)
      × (check_containers (lit "containers") spec ≡ ok tt)
      × (check_containers (lit "initContainers") spec ≡ ok tt)
      × (check_containers (lit "ephemeralContainers") spec ≡ ok tt)
unfolding validate_pod_spec
validate_pod_spec-tests spec h = ground arith

-- A pod that `validate_pod_spec` accepts sets none of `hostNetwork`, `hostPID` and `hostIPC` to true,
-- sets `automountServiceAccountToken` to false, and has no volume with a `hostPath` or a projected
-- service account's token. None of its containers, of each of the three kinds, sets `privileged`,
-- `allowPrivilegeEscalation` or `hostProcess` to true, adds a capability, names `Unmasked` as its
-- `procMount` or `Unconfined` as its own seccomp type, in any case, or takes a port of the host. Any
-- other field may be left out, and the pod's own security context is not restricted.
pub validate_pod_spec-PodIsSafe : (spec : Json) → validate_pod_spec spec ≡ ok tt → PodIsSafe spec
validate_pod_spec-PodIsSafe spec h =
    let (n, p, i, a, v, c, d, e) = validate_pod_spec-tests spec h in
    (
      set_true-NotTrue _ spec n,
      set_true-NotTrue _ spec p,
      set_true-NotTrue _ spec i,
      set_false-false _ spec a,
      each_at-EachAt check_volume VolumeIsSafe check_volume-VolumeIsSafe _ spec v,
      check_containers-EachAt _ spec c,
      check_containers-EachAt _ spec d,
      check_containers-EachAt _ spec e,
    )
