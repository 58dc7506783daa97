-- ===== src/Apt/Run/Watch.antt =====
-- What becomes of a watched run: its journal, its answer, and when the watch ends.
use shellfleet_agent.Common.{
  str_len, subst, ◌≡◌, ◌∙◌, ◌⊎◌, inl, inr, refl, sym, ap, true, false, List, [], ◌∷◌, none, some,
  Text, lit, trim, equal, equal_iff, Bool-cases, Option-cases, arith,
}
use shellfleet_agent.Apt.Run.{
  old_report, Tick, Machine, Store, Watched, panicked, finished, cleanup_run_files, result_report,
  ended_report, has_ended, unit_report, systemctl_unit_state, verdict, write_state, clear_state,
  read_log, watch_loop, watch_systemd_run,
}
use shellfleet_agent.Apt.{
  old_marker, AptError, unit_said, ended_early, Report, AptRunState, truncate_log,
}

-- The unit has written `success`.
abbrev pub Succeeded : Tick → Type 0
Succeeded tick = (text : Text) × (tick.result ≡ some text) × (trim text ≡ lit "success")

abbrev pub SomeTick : (Tick → Type 0) → List Tick → Type 0
SomeTick P [] = ⊥
SomeTick P (tick ∷ rest) = P tick ⊎ SomeTick P rest

-- An answer of success is that of a tick; any other one names an error.
abbrev pub IsHonest : List Tick → Report → Type 0
IsHonest ticks r =
    ((r.success ≡ true) × (r.error ≡ none) × SomeTick Succeeded ticks)
    ⊎ ((r.success ≡ false) × ((e : AptError) × (r.error ≡ some e)))

verdict-IsHonest :
    (state : AptRunState) (tick : Tick) (rest : List Tick) (r : Report)
    → verdict state tick ≡ some r
    → IsHonest (tick ∷ rest) r
unfolding verdict unit_report result_report ended_report
verdict-IsHonest state tick rest r h = elim (Option-cases tick.result) [
  | inr (text, e) ↦ elim (Bool-cases (equal (trim text) (lit "success"))) [
    | inl k ↦
        let q : result_report state text ≡ r = ground (arith, e, h) in
        inl (
          ap (λ (x : Report). x.success) (sym q) ∙ k,
          ap (λ (x : Report). x.error) (sym q) ∙ ground (arith, k),
          inl (text, e, (equal_iff (trim text) (lit "success")).0 k),
        )
    | inr k ↦
        let q : result_report state text ≡ r = ground (arith, e, h) in
        inr (
          ap (λ (x : Report). x.success) (sym q) ∙ k,
          (unit_said (trim text), ap (λ (x : Report). x.error) (sym q) ∙ ground (arith, k)),
        )
  ]
  | inl e ↦ elim (Option-cases state.unit_name) [
    | inl k ↦ ground (arith, e, h, k)
    | inr (unit, k) ↦ elim (Option-cases (systemctl_unit_state tick.shown)) [
      | inl d ↦ ground (arith, e, h, k, d)
      | inr (u, d) ↦ elim (Bool-cases (has_ended u)) [
        | inr b ↦ ground (arith, e, h, k, d, b)
        | inl b ↦
            let q : ended_report state u ≡ r = ground (arith, e, h, k, d, b) in
            inr (
              ap (λ (x : Report). x.success) (sym q),
              (ended_early, ap (λ (x : Report). x.error) (sym q)),
            )
      ]
    ]
  ]
]

later :
    (tick : Tick) (ticks : List Tick) (r : Report) → IsHonest ticks r → IsHonest (tick ∷ ticks) r
later tick ticks r (inl (s, e, t)) = inl (s, e, inr t)
later tick ticks r (inr x) = inr x

module _ (env : Machine) where
  module _ (tick : Tick) (ticks : List Tick) (state next : AptRunState) (w v : Store) where
    pub watch_loop-answer :
        (r : Report)
        → read_log env state tick w ≡ some (next, v)
        → verdict next tick ≡ some r
        → watch_loop env (tick ∷ ticks) state w
          ≡ (finished r, clear_state env (cleanup_run_files next v))
    unfolding watch_loop
    watch_loop-answer r e h = ground (arith, e, h)

    pub watch_loop-wait :
        read_log env state tick w ≡ some (next, v)
        → verdict next tick ≡ none
        → watch_loop env (tick ∷ ticks) state w ≡ watch_loop env ticks next v
    unfolding watch_loop
    watch_loop-wait e h = ground (arith, e, h)

  pub watch_loop-panic :
      (tick : Tick) (ticks : List Tick) (state : AptRunState) (w : Store)
      → read_log env state tick w ≡ none
      → watch_loop env (tick ∷ ticks) state w ≡ (panicked, w)
  unfolding watch_loop
  watch_loop-panic tick ticks state w e = ground (arith, e)

  ended_launched :
      (state : AptRunState) (w : Store)
      → (clear_state env (cleanup_run_files state w)).launched ≡ w.launched
  unfolding clear_state cleanup_run_files
  ended_launched state w = refl

  -- How a watch may leave the journal and what it may answer.
  abbrev Ends : List Tick → Watched × Store → Type 0
  Ends ticks out =
      (r : Report)
      → out.0 ≡ finished r
      → ((v : Store) × (out.1 ≡ clear_state env v)) × IsHonest ticks r

  watch_loop-Ends :
      (ticks : List Tick) (state : AptRunState) (w : Store)
      → Ends ticks (watch_loop env ticks state w)
  unfolding watch_loop
  watch_loop-Ends [] state w r h = cc
  watch_loop-Ends (tick ∷ ticks) state w r h = elim (Option-cases (read_log env state tick w)) [
    | inl e ↦ let k = watch_loop-panic tick ticks state w e in cc
    | inr ((next, v), e) ↦ elim (Option-cases (verdict next tick)) [
      | inr (r', k) ↦
          let q = watch_loop-answer tick ticks state next w v r' e k in
          let same : r' ≡ r = cc in
          (
            (cleanup_run_files next v, ap (λ o. o.1) q),
            subst (IsHonest (tick ∷ ticks)) same (verdict-IsHonest next tick ticks r' k),
          )
      | inl k ↦
          let q = watch_loop-wait tick ticks state next w v e k in
          let ((u, l), honest) = watch_loop-Ends ticks next v r (sym (ap (λ o. o.0) q) ∙ h) in
          ((u, ap (λ o. o.1) q ∙ l), later tick ticks r honest)
    ]
  ]

  -- A watch that answers takes the journal away, its success is one that the unit has written, and
  -- with no success it names an error.
  pub watch_systemd_run-IsHonest :
      (ticks : List Tick) (state : AptRunState) (w : Store) (r : Report)
      → (watch_systemd_run env ticks state w).0 ≡ finished r
      → ((v : Store) × ((watch_systemd_run env ticks state w).1 ≡ clear_state env v))
        × IsHonest ticks r
  unfolding watch_systemd_run old_report
  watch_systemd_run-IsHonest ticks state w r h = elim (Option-cases state.result_path) [
    | inr (path, e) ↦
        let q : watch_systemd_run env ticks state w ≡ watch_loop env ticks state w =
          ground (arith, e) in
        let ((u, l), honest) = watch_loop-Ends ticks state w r (sym (ap (λ o. o.0) q) ∙ h) in
        ((u, ap (λ o. o.1) q ∙ l), honest)
    | inl e ↦
        let q : watch_systemd_run env ticks state w
            ≡ (finished (old_report state), clear_state env w) =
          ground (arith, e) in
        let same : old_report state ≡ r = cc in
        (
          (w, ap (λ o. o.1) q),
          inr (
            ap (λ (x : Report). x.success) (sym same),
            (old_marker, ap (λ (x : Report). x.error) (sym same)),
          ),
        )
  ]

  read_log-launched :
      (state : AptRunState) (tick : Tick) (w : Store) (next : AptRunState) (v : Store)
      → read_log env state tick w ≡ some (next, v)
      → v.launched ≡ w.launched
  unfolding read_log write_state
  read_log-launched state tick w next v h = elim (Option-cases state.log_path) [
    | inl e ↦ ground (arith, e, h)
    | inr (path, e) ↦ elim (Option-cases tick.log) [
      | inl k ↦ ground (arith, e, k, h)
      | inr (bytes, k) ↦ elim (Option-cases (truncate_log bytes 16000)) [
        | inl d ↦ ground (arith, e, k, d, h)
        | inr (log, d) ↦
            elim (Option-cases
              (env.to_string (record state { log = log; bytes_written = str_len log }))) [
                | inl f ↦ ground (arith, e, k, d, h, f)
                | inr (json, f) ↦ ground (arith, e, k, d, h, f)
              ]
      ]
    ]
  ]

  watch_loop-launched :
      (ticks : List Tick) (state : AptRunState) (w : Store)
      → (watch_loop env ticks state w).1.launched ≡ w.launched
  unfolding watch_loop
  watch_loop-launched [] state w = refl
  watch_loop-launched (tick ∷ ticks) state w = elim (Option-cases (read_log env state tick w)) [
    | inl e ↦ ap (λ o. o.1.launched) (watch_loop-panic tick ticks state w e)
    | inr ((next, v), e) ↦ elim (Option-cases (verdict next tick)) [
      | inr (r, k) ↦
          ap (λ o. o.1.launched) (watch_loop-answer tick ticks state next w v r e k)
          ∙ ended_launched next v
          ∙ read_log-launched state tick w next v e
      | inl k ↦
          ap (λ o. o.1.launched) (watch_loop-wait tick ticks state next w v e k)
          ∙ watch_loop-launched ticks next v
          ∙ read_log-launched state tick w next v e
    ]
  ]

  -- A watch starts nothing.
  pub watch_systemd_run-launched :
      (ticks : List Tick) (state : AptRunState) (w : Store)
      → (watch_systemd_run env ticks state w).1.launched ≡ w.launched
  unfolding watch_systemd_run clear_state
  watch_systemd_run-launched ticks state w = elim (Option-cases state.result_path) [
    | inr (path, e) ↦ ground (arith, e, watch_loop-launched ticks state w)
    | inl e ↦ ground (arith, e)
  ]
