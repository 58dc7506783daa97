-- ===== src/Host/Health.antt =====
-- src/health.rs: the set of running probes, `HealthProbes::sync`.
pub mod Tidy
pub mod Running
pub mod Probe
pub mod Reports
pub mod Environment
mod Tests
use shellfleet_agent.Common.{
  ℕ, ◌+◌, ◌≡◌, ◌⊎◌, inl, inr, refl, ap, sym, ◌∙◌, Bool, true, false, not, List, [], ◌∷◌, ◌++◌,
  Option, none, some, if◌then◌else◌, equal, equal_iff, equal_refl, Text, Bool-cases, Option-cases,
  arith,
}

-- The signature and the handle of a running task; handles are numbered as they are spawned.
abbrev pub Task : Type 0
Task = Text × ℕ

abbrev pub Tasks : Type 0
Tasks = List (Text × Task)

-- `HashMap::get`, `remove` and `insert`
unfoldable pub lookup : Text → Tasks → Option Task
lookup id [] = none
lookup id ((k, t) ∷ rest) = if equal k id then some t else lookup id rest

unfoldable pub remove : Text → Tasks → Tasks
remove id [] = []
remove id ((k, t) ∷ rest) = if equal k id then remove id rest else (k, t) ∷ remove id rest

unfoldable pub insert : Text → Task → Tasks → Tasks
insert id t tasks = (id, t) ∷ remove id tasks

-- `Inner`, with the number of tasks spawned so far and the handles aborted.
pub record Probes : Type 0 where
  pub tasks : Tasks
  pub spawned : ℕ
  pub aborted : List ℕ

unfoldable pub spawn : Text → Text → Probes → Probes
spawn id sig s = record {
  tasks = insert id (sig, s.spawned) s.tasks;
  spawned = s.spawned + 1;
  aborted = s.aborted;
}

unfoldable pub abort : Text → Probes → Probes
abort id s = elim (lookup id s.tasks) [
  | none ↦ s
  | some task ↦ record s { tasks = remove id s.tasks; aborted = s.aborted ++ task.1 ∷ [] }
]

-- The body of the loop over the probes that serialize.
unfoldable pub apply_probe : Text → Text → Probes → Probes
apply_probe id sig s = elim (lookup id s.tasks) [
  | none ↦ spawn id sig s
  | some task ↦ if equal task.0 sig then s else spawn id sig (abort id s)
]

-- A probe, by its id and what `serde_json::to_string` makes of it, `none` for an error.
abbrev pub Probe : Type 0
Probe = Text × Option Text

unfoldable pub apply_probes : List Probe → Probes → Probes
apply_probes [] s = s
apply_probes ((id, none) ∷ rest) s = apply_probes rest s
apply_probes ((id, some sig) ∷ rest) s = apply_probes rest (apply_probe id sig s)

-- The set `keep`.
unfoldable pub kept : Text → List Probe → Bool
kept id [] = false
kept id ((k, none) ∷ rest) = kept id rest
kept id ((k, some sig) ∷ rest) = if equal k id then true else kept id rest

-- The keys that are in `tasks` and not in `keep`, and the loop that aborts them.
unfoldable pub to_remove : List Probe → Tasks → List Text
to_remove probes [] = []
to_remove probes ((k, t) ∷ rest) =
    if kept k probes then to_remove probes rest else k ∷ to_remove probes rest

unfoldable pub abort_all : List Text → Probes → Probes
abort_all [] s = s
abort_all (id ∷ ids) s = abort_all ids (abort id s)

unfoldable pub sync : List Probe → Probes → Probes
sync probes s =
    let applied = apply_probes probes s in abort_all (to_remove probes applied.tasks) applied

-- The signature that runs under an id.
abbrev pub signature : Text → Tasks → Option Text
signature id tasks = elim (lookup id tasks) [ none ↦ none | some task ↦ some task.0 ]

-- The signature that a probe set asks for under an id: that of its last probe with this id.
unfoldable pub wanted : Text → List Probe → Option Text
wanted id [] = none
wanted id ((k, sig) ∷ rest) = elim (wanted id rest) [
  | some later ↦ some later
  | none ↦ if equal k id then sig else none
]

lookup-remove_self : (id : Text) (tasks : Tasks) → lookup id (remove id tasks) ≡ none
unfolding lookup remove
lookup-remove_self id [] = refl
lookup-remove_self id ((j, t) ∷ rest) = ground (arith, lookup-remove_self id rest)

lookup-remove_other :
    (id k : Text) (tasks : Tasks)
    → equal k id ≡ false
    → lookup id (remove k tasks) ≡ lookup id tasks
unfolding lookup remove
lookup-remove_other id k [] h = refl
lookup-remove_other id k ((j, t) ∷ rest) h = elim (Bool-cases (equal j k)) [
  | inl e ↦
      ground (arith, lookup-remove_other id k rest h, e, ap (λ x. equal x id) ((equal_iff j k).0 e))
  | inr e ↦ ground (arith, lookup-remove_other id k rest h, e)
]

-- What a task table says under an id after each operation.
pub signature-apply_probe_self :
    (id sig : Text) (s : Probes) → signature id (apply_probe id sig s).tasks ≡ some sig
unfolding apply_probe spawn insert lookup
signature-apply_probe_self id sig s = elim (Option-cases (lookup id s.tasks)) [
  | inl n ↦ ground (arith, n, equal_refl id)
  | inr (task, e) ↦ elim (Bool-cases (equal task.0 sig)) [
    | inl q ↦ ground (arith, e, q, (equal_iff task.0 sig).0 q)
    | inr q ↦ ground (arith, e, q, equal_refl id)
  ]
]

pub lookup-abort_other :
    (id k : Text) (s : Probes)
    → equal k id ≡ false
    → lookup id (abort k s).tasks ≡ lookup id s.tasks
unfolding abort
lookup-abort_other id k s h = elim (Option-cases (lookup k s.tasks)) [
  | inl n ↦ ground (arith, n)
  | inr (task, e) ↦ ground (arith, e, lookup-remove_other id k s.tasks h)
]

pub lookup-abort_self : (id : Text) (s : Probes) → lookup id (abort id s).tasks ≡ none
unfolding abort
lookup-abort_self id s = elim (Option-cases (lookup id s.tasks)) [
  | inl n ↦ ground (arith, n)
  | inr (task, e) ↦ ground (arith, e, lookup-remove_self id s.tasks)
]

lookup-spawn_other :
    (id k sig : Text) (s : Probes)
    → equal k id ≡ false
    → lookup id (spawn k sig s).tasks ≡ lookup id s.tasks
unfolding spawn insert lookup
lookup-spawn_other id k sig s h = rw (h, lookup-remove_other id k s.tasks h) refl

pub lookup-apply_probe_other :
    (id k sig : Text) (s : Probes)
    → equal k id ≡ false
    → lookup id (apply_probe k sig s).tasks ≡ lookup id s.tasks
unfolding apply_probe
lookup-apply_probe_other id k sig s h = elim (Option-cases (lookup k s.tasks)) [
  | inl n ↦ ground (arith, n, lookup-spawn_other id k sig s h)
  | inr (task, e) ↦ elim (Bool-cases (equal task.0 sig)) [
    | inl q ↦ ground (arith, e, q)
    | inr q ↦
        ground (arith, e, q, lookup-spawn_other id k sig (abort k s) h, lookup-abort_other id k s h)
  ]
]
