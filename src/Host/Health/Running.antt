-- ===== src/Host/Health/Running.antt =====
-- After `sync` of src/health.rs, the tasks that run are those that the probe set asks for.
use shellfleet_agent.Common.{
  ◌≡◌, ◌⊎◌, inl, inr, refl, ap, sym, ◌∙◌, true, false, List, [], ◌∷◌, Option, none, some, equal,
  equal_iff, one_of, Text, Bool-cases, Option-cases, arith,
}
use shellfleet_agent.Host.Health.Tidy.{IsTidy, sync-IsTidy}
use shellfleet_agent.Host.Health.{
  Task, Tasks, Probes, Probe, lookup, abort, apply_probe, apply_probes, kept, to_remove, abort_all,
  sync, signature, wanted, signature-apply_probe_self, lookup-apply_probe_other, lookup-abort_other,
  lookup-abort_self,
}

-- The signature wanted, or the one that was there.
abbrev or_else : Option Text → Option Text → Option Text
or_else (some sig) old = some sig
or_else none old = old

signature-lookup :
    (id : Text) (t u : Tasks) → lookup id t ≡ lookup id u → signature id t ≡ signature id u
signature-lookup id t u h = ap (λ o. elim o [ none ↦ none | some task ↦ some task.0 ]) h

signature-apply_probes :
    (id : Text) (ps : List Probe) (s : Probes)
    → signature id (apply_probes ps s).tasks ≡ or_else (wanted id ps) (signature id s.tasks)
unfolding apply_probes wanted
signature-apply_probes id [] s = refl
signature-apply_probes id ((k, none) ∷ rest) s = ground (arith, signature-apply_probes id rest s)
signature-apply_probes id ((k, some sig) ∷ rest) s = elim (Bool-cases (equal k id)) [
  | inl e ↦
      let same = (equal_iff k id).0 e in
      ground (
        arith,
        e,
        signature-apply_probes id rest (apply_probe k sig s),
        ap (λ x. signature x (apply_probe k sig s).tasks) (sym same),
        signature-apply_probe_self k sig s,
      )
  | inr e ↦ ground (
    arith,
    e,
    signature-apply_probes id rest (apply_probe k sig s),
    signature-lookup id (apply_probe k sig s).tasks s.tasks (lookup-apply_probe_other id k sig s e),
  )
]

kept-wanted :
    (id : Text) (ps : List Probe)
    → ((kept id ps ≡ false) × (wanted id ps ≡ none))
      ⊎ ((sig : Text) × (kept id ps ≡ true) × (wanted id ps ≡ some sig))
unfolding kept wanted
kept-wanted id [] = inl (refl, refl)
kept-wanted id ((k, none) ∷ rest) = elim (kept-wanted id rest) [
  | inl (a, w) ↦ inl (a, ground (arith, w))
  | inr (later, a, w) ↦ inr (later, a, ground (arith, w))
]
kept-wanted id ((k, some sig) ∷ rest) = elim (kept-wanted id rest) [
  | inr (later, a, w) ↦ inr (later, ground (arith, a), ground (arith, w))
  | inl (a, w) ↦ elim (Bool-cases (equal k id)) [
    | inl e ↦ inr (sig, ground (arith, e), ground (arith, w, e))
    | inr e ↦ inl (ground (arith, a, e), ground (arith, w, e))
  ]
]

to_remove-kept :
    (id : Text) (ps : List Probe) (tasks : Tasks)
    → kept id ps ≡ true
    → one_of (to_remove ps tasks) id ≡ false
unfolding to_remove
to_remove-kept id ps [] h = refl
to_remove-kept id ps ((k, t) ∷ rest) h = elim (Bool-cases (equal id k)) [
  | inl e ↦
      ground (arith, h, ap (λ x. kept x ps) ((equal_iff id k).0 e), to_remove-kept id ps rest h)
  | inr e ↦ ground (arith, e, to_remove-kept id ps rest h)
]

to_remove-lookup :
    (id : Text) (ps : List Probe) (tasks : Tasks) (task : Task)
    → kept id ps ≡ false
    → lookup id tasks ≡ some task
    → one_of (to_remove ps tasks) id ≡ true
unfolding to_remove lookup
to_remove-lookup id ps [] task h e = cc
to_remove-lookup id ps ((k, t) ∷ rest) task h e = elim (Bool-cases (equal k id)) [
  | inl q ↦ ground (
    arith,
    h,
    ap (λ x. kept x ps) ((equal_iff k id).0 q),
    (equal_iff id k).1 (sym ((equal_iff k id).0 q)),
  )
  | inr q ↦ ground (arith, to_remove-lookup id ps rest task h (ground (arith, e, q)))
]

abort_keeps_absence :
    (id k : Text) (s : Probes) → lookup id s.tasks ≡ none → lookup id (abort k s).tasks ≡ none
abort_keeps_absence id k s h = elim (Bool-cases (equal k id)) [
  | inl e ↦ rw ((equal_iff k id).0 e) (lookup-abort_self id s)
  | inr e ↦ lookup-abort_other id k s e ∙ h
]

abort_all_keeps_absence :
    (id : Text) (ids : List Text) (s : Probes)
    → lookup id s.tasks ≡ none
    → lookup id (abort_all ids s).tasks ≡ none
unfolding abort_all
abort_all_keeps_absence id [] s h = h
abort_all_keeps_absence id (k ∷ ids) s h =
    abort_all_keeps_absence id ids (abort k s) (abort_keeps_absence id k s h)

lookup-abort_all_other :
    (id : Text) (ids : List Text) (s : Probes)
    → one_of ids id ≡ false
    → lookup id (abort_all ids s).tasks ≡ lookup id s.tasks
unfolding abort_all
lookup-abort_all_other id [] s h = refl
lookup-abort_all_other id (k ∷ ids) s h = elim (Bool-cases (equal k id)) [
  | inl e ↦ ground (arith, h, (equal_iff id k).1 (sym ((equal_iff k id).0 e)))
  | inr e ↦
      lookup-abort_all_other id ids (abort k s) (ground (arith, h)) ∙ lookup-abort_other id k s e
]

lookup-abort_all_self :
    (id : Text) (ids : List Text) (s : Probes)
    → one_of ids id ≡ true
    → lookup id (abort_all ids s).tasks ≡ none
unfolding abort_all
lookup-abort_all_self id [] s h = cc
lookup-abort_all_self id (k ∷ ids) s h = elim (Bool-cases (equal id k)) [
  | inl e ↦
      abort_all_keeps_absence id ids (abort k s)
        (rw (← (equal_iff id k).0 e) (lookup-abort_self id s))
  | inr e ↦ lookup-abort_all_self id ids (abort k s) (ground (arith, h, e))
]

signature-sync_lem :
    (id : Text) (probes : List Probe) (s : Probes)
    → signature id (sync probes s).tasks ≡ wanted id probes
unfolding sync
signature-sync_lem id probes s =
    let applied = apply_probes probes s in
    let removed = to_remove probes applied.tasks in
    elim (kept-wanted id probes) [
      | inr (sig, k, w) ↦
          signature-lookup id (abort_all removed applied).tasks applied.tasks
            (lookup-abort_all_other id removed applied (to_remove-kept id probes applied.tasks k))
          ∙ signature-apply_probes id probes s
          ∙ ap (λ o. or_else o (signature id s.tasks)) w
          ∙ sym w
      | inl (k, w) ↦ elim (Option-cases (lookup id applied.tasks)) [
        | inl n ↦
            ap (λ o. elim o [ none ↦ none | some task ↦ some task.0 ])
              (abort_all_keeps_absence id removed applied n)
            ∙ sym w
        | inr (task, e) ↦
            ap (λ o. elim o [ none ↦ none | some task ↦ some task.0 ])
              (lookup-abort_all_self id removed applied
                (to_remove-lookup id probes applied.tasks task k e))
            ∙ sym w
      ]
    ]

-- In a table where no id and no handle stands twice, which has the tasks that run, spawned and not
-- aborted, and no other: after `sync` the table has under each id the signature that the probe set
-- asks for, that of the last of its probes with this id that serializes, and under any other id none;
-- and it is again such a table, so that each task that `sync` has taken out of it was aborted.
pub signature-sync :
    (probes : List Probe) (s : Probes)
    → IsTidy s
    → ((id : Text) → signature id (sync probes s).tasks ≡ wanted id probes) × IsTidy (sync probes s)
signature-sync probes s tidy = (λ id. signature-sync_lem id probes s, sync-IsTidy probes s tidy)
