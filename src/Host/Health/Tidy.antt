-- ===== src/Host/Health/Tidy.antt =====
-- The tasks of src/health.rs that run are those of the table: what each step of `sync` keeps.
use shellfleet_agent.Common.{
  ℕ, ◌≡◌, inl, inr, refl, ap, sym, ◌∙◌, Bool, true, false, not, ◌&&◌, ◌||◌, List, [], ◌∷◌, ◌++◌,
  none, some, equal, equal_iff, ==_iff, Text, Bool-cases, Option-cases, ltb, ◌==◌, arith,
}
use shellfleet_agent.Host.Health.{
  Task, Tasks, Probes, Probe, lookup, remove, insert, spawn, abort, apply_probe, apply_probes,
  to_remove, abort_all, sync, lookup-abort_self,
}

-- The table has a task with this handle.
abbrev pub owned : ℕ → Tasks → Bool
owned m [] = false
owned m ((k, t) ∷ rest) = (m == t.1) || owned m rest

abbrev pub among : ℕ → List ℕ → Bool
among m [] = false
among m (n ∷ ns) = (m == n) || among m ns

-- A task runs when it was spawned and not aborted.
abbrev pub runs : ℕ → Probes → Bool
runs m s = ltb m s.spawned && not (among m s.aborted)

-- No id and no handle stands twice.
abbrev pub IsUnique : Tasks → Type 0
IsUnique [] = Unit {0}
IsUnique ((k, t) ∷ rest) = (lookup k rest ≡ none) × (owned t.1 rest ≡ false) × IsUnique rest

pub record IsTidy (s : Probes) : Type 0 where
  pub unique : IsUnique s.tasks
  pub exact : (m : ℕ) → runs m s ≡ owned m s.tasks
  pub fresh : (m : ℕ) → ltb m s.spawned ≡ false → among m s.aborted ≡ false

remove_absent : (id : Text) (tasks : Tasks) → lookup id tasks ≡ none → remove id tasks ≡ tasks
unfolding lookup remove
remove_absent id [] h = refl
remove_absent id ((k, t) ∷ rest) h = elim (Bool-cases (equal k id)) [
  | inl e ↦ ground (arith, h, e)
  | inr e ↦ ground (arith, h, e, remove_absent id rest (ground (arith, h, e)))
]

lookup-owned :
    (id : Text) (tasks : Tasks) (task : Task)
    → lookup id tasks ≡ some task
    → owned task.1 tasks ≡ true
unfolding lookup
lookup-owned id [] task h = cc
lookup-owned id ((k, t) ∷ rest) task h = elim (Bool-cases (equal k id)) [
  | inl e ↦ ground (arith, h, e)
  | inr e ↦ ground (arith, h, e, lookup-owned id rest task (ground (arith, h, e)))
]

own_handle :
    (t task : Task) (rest : Tasks) → t ≡ task → owned t.1 rest ≡ false → owned task.1 rest ≡ false
own_handle t task rest e own = rw (← e) own

handle_test : (m : ℕ) (t task : Task) → t ≡ task → (m == t.1) ≡ (m == task.1)
handle_test m t task e = ap (λ (x : Task). m == x.1) e

owned-remove :
    (id : Text) (tasks : Tasks) (task : Task) (m : ℕ)
    → IsUnique tasks
    → lookup id tasks ≡ some task
    → owned m (remove id tasks) ≡ owned m tasks && not (m == task.1)
unfolding lookup remove
owned-remove id [] task m u h = cc
owned-remove id ((k, t) ∷ rest) task m (away, own, u) h = elim (Bool-cases (equal k id)) [
  | inl e ↦
      let same = (equal_iff k id).0 e in
      let mine = own_handle t task rest (ground (arith, h, e)) own in
      let rest_same = remove_absent id rest (ap (λ x. lookup x rest) (sym same) ∙ away) in
      elim (Bool-cases (m == task.1)) [
        | inl q ↦
            ground (arith, e, q, rest_same, mine, ap (λ n. owned n rest) ((==_iff m task.1).0 q))
        | inr q ↦ ground (arith, e, q, rest_same, handle_test m t task (ground (arith, h, e)))
      ]
  | inr e ↦
      let found = lookup-owned id rest task (ground (arith, h, e)) in
      let ih = owned-remove id rest task m u (ground (arith, h, e)) in
      elim (Bool-cases (m == t.1)) [
        | inl q ↦ elim (Bool-cases (m == task.1)) [
          | inl r ↦ ground (
            arith,
            ap (λ n. owned n rest) ((==_iff m t.1).0 q),
            ap (λ n. owned n rest) ((==_iff m task.1).0 r),
          )
          | inr r ↦ ground (arith, e, q, r, ih, ap (λ n. owned n rest) ((==_iff m t.1).0 q))
        ]
        | inr q ↦ ground (arith, e, q, ih)
      ]
]

lookup-remove_absent :
    (k id : Text) (tasks : Tasks) → lookup k tasks ≡ none → lookup k (remove id tasks) ≡ none
unfolding lookup remove
lookup-remove_absent k id [] h = refl
lookup-remove_absent k id ((j, t) ∷ rest) h = elim (Bool-cases (equal j k)) [
  | inl e ↦ ground (arith, h, e)
  | inr e ↦ elim (Bool-cases (equal j id)) [
    | inl q ↦ ground (arith, h, e, q, lookup-remove_absent k id rest (ground (arith, h, e)))
    | inr q ↦ ground (arith, h, e, q, lookup-remove_absent k id rest (ground (arith, h, e)))
  ]
]

owned-remove_absent :
    (m : ℕ) (id : Text) (tasks : Tasks) → owned m tasks ≡ false → owned m (remove id tasks) ≡ false
unfolding remove
owned-remove_absent m id [] h = refl
owned-remove_absent m id ((j, t) ∷ rest) h = elim (Bool-cases (m == t.1)) [
  | inl e ↦ ground (arith, h, e)
  | inr e ↦ elim (Bool-cases (equal j id)) [
    | inl q ↦ ground (arith, h, e, q, owned-remove_absent m id rest (ground (arith, h, e)))
    | inr q ↦ ground (arith, h, e, q, owned-remove_absent m id rest (ground (arith, h, e)))
  ]
]

remove-IsUnique : (id : Text) (tasks : Tasks) → IsUnique tasks → IsUnique (remove id tasks)
unfolding remove
remove-IsUnique id [] u = tt
remove-IsUnique id ((k, t) ∷ rest) (away, own, u) = elim (Bool-cases (equal k id)) [
  | inl e ↦ rw e (remove-IsUnique id rest u)
  | inr e ↦ rw e (
    lookup-remove_absent k id rest away,
    owned-remove_absent t.1 id rest own,
    remove-IsUnique id rest u,
  )
]

among-snoc : (m n : ℕ) (ns : List ℕ) → among m (ns ++ n ∷ []) ≡ among m ns || (m == n)
among-snoc m n [] = ground arith
among-snoc m n (k ∷ ns) = ground (arith, among-snoc m n ns)

spawn-IsTidy :
    (id sig : Text) (s : Probes) → lookup id s.tasks ≡ none → IsTidy s → IsTidy (spawn id sig s)
unfolding spawn insert
spawn-IsTidy id sig s none_yet tidy =
    let same = remove_absent id s.tasks none_yet in
    let new_handle : owned s.spawned s.tasks ≡ false = sym (tidy.exact s.spawned) ∙ ground arith in
    record {
      unique = rw same (none_yet, new_handle, tidy.unique);
      exact = λ m. elim (Bool-cases (m == s.spawned)) [
        | inl e ↦ ground (arith, e, tidy.fresh m (ground (arith, e)))
        | inr e ↦ ground (arith, e, same, tidy.exact m)
      ];
      fresh = λ m h. tidy.fresh m (ground (arith, h));
    }

abbrev aborted_one : Text → Task → Probes → Probes
aborted_one id task s = record s { tasks = remove id s.tasks; aborted = s.aborted ++ task.1 ∷ [] }

aborted_one-IsTidy :
    (id : Text) (task : Task) (s : Probes)
    → lookup id s.tasks ≡ some task
    → IsTidy s
    → IsTidy (aborted_one id task s)
aborted_one-IsTidy id task s found tidy = record {
  unique = remove-IsUnique id s.tasks tidy.unique;
  exact = λ m. ground (
    arith,
    among-snoc m task.1 s.aborted,
    tidy.exact m,
    owned-remove id s.tasks task m tidy.unique found,
  );
  fresh = λ m h. elim (Bool-cases (m == task.1)) [
    | inl e ↦ ground (
      arith,
      h,
      ap (λ n. ltb n s.spawned) ((==_iff m task.1).0 e),
      tidy.exact task.1,
      lookup-owned id s.tasks task found,
    )
    | inr e ↦ ground (arith, e, among-snoc m task.1 s.aborted, tidy.fresh m h)
  ];
}

abort-IsTidy : (id : Text) (s : Probes) → IsTidy s → IsTidy (abort id s)
unfolding abort
abort-IsTidy id s tidy = elim (Option-cases (lookup id s.tasks)) [
  | inl n ↦ rw (abort, n) tidy
  | inr (task, e) ↦ rw (abort, e) (aborted_one-IsTidy id task s e tidy)
]

apply_probe-IsTidy : (id sig : Text) (s : Probes) → IsTidy s → IsTidy (apply_probe id sig s)
unfolding apply_probe
apply_probe-IsTidy id sig s tidy = elim (Option-cases (lookup id s.tasks)) [
  | inl n ↦ rw (apply_probe, n) (spawn-IsTidy id sig s n tidy)
  | inr (task, e) ↦ elim (Bool-cases (equal task.0 sig)) [
    | inl q ↦ rw (apply_probe, e, q) tidy
    | inr q ↦
        rw (apply_probe, e, q)
          (spawn-IsTidy id sig (abort id s) (lookup-abort_self id s) (abort-IsTidy id s tidy))
  ]
]

apply_probes-IsTidy : (ps : List Probe) (s : Probes) → IsTidy s → IsTidy (apply_probes ps s)
unfolding apply_probes
apply_probes-IsTidy [] s tidy = tidy
apply_probes-IsTidy ((id, none) ∷ rest) s tidy = apply_probes-IsTidy rest s tidy
apply_probes-IsTidy ((id, some sig) ∷ rest) s tidy =
    apply_probes-IsTidy rest (apply_probe id sig s) (apply_probe-IsTidy id sig s tidy)

abort_all-IsTidy : (ids : List Text) (s : Probes) → IsTidy s → IsTidy (abort_all ids s)
unfolding abort_all
abort_all-IsTidy [] s tidy = tidy
abort_all-IsTidy (id ∷ ids) s tidy = abort_all-IsTidy ids (abort id s) (abort-IsTidy id s tidy)

pub sync-IsTidy : (ps : List Probe) (s : Probes) → IsTidy s → IsTidy (sync ps s)
unfolding sync
sync-IsTidy ps s tidy =
    let applied = apply_probes ps s in
    abort_all-IsTidy (to_remove ps applied.tasks) applied (apply_probes-IsTidy ps s tidy)
