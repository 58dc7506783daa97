-- ===== src/Apt/Upgrade/Once.antt =====
-- At most one run at a time, for a checked package.
use shellfleet_agent.Common.{
  Output, ◌≡◌, ◌∙◌, ◌⊎◌, inl, inr, refl, ap, false, List, [], ◌∷◌, ◌++◌, Option, none, some, All,
  Text, lit, starts_with, Result, ok, err, Option-cases, Result-cases, arith,
}
use shellfleet_agent.Apt.{AptRunState, validate_package_arg}
use shellfleet_agent.Apt.Run.{
  Tick, Machine, Store, read_state, write_state, clear_state, cleanup_run_files,
}
use shellfleet_agent.Apt.Run.Watch.{watch_systemd_run-launched}
use shellfleet_agent.Apt.Upgrade.{
  package_args, launch_args, check_package, launched_state, launch, start_systemd_run, upgrade,
  new_state,
}

abbrev pub IsOperand : Text → Type 0
IsOperand w = starts_with w (lit "-") ≡ false

package_args-IsOperand :
    (name : Option Text) → check_package name ≡ ok tt → All IsOperand (package_args name)
unfolding check_package package_args validate_package_arg
package_args-IsOperand none h = (refl, tt)
package_args-IsOperand (some []) h = ground (arith, h)
package_args-IsOperand (some (c ∷ name)) h = ground (arith, h)

-- Nothing was started, or this one run while none was journalled, and the words that the request
-- gives are no options.
abbrev pub StartsOnce : Machine → Option Text → Store → Store → Type 0
StartsOnce env name w v =
    (v.launched ≡ w.launched)
    ⊎ ((read_state env w ≡ none)
        × (v.launched ≡ w.launched ++ launch_args env name ∷ [])
        × All IsOperand (package_args name))

module _ (env : Machine) where
  launched_state-launched :
      (outcome : Result Text Output) (state : AptRunState) (w : Store)
      → (launched_state env outcome state w).1.launched ≡ w.launched
  unfolding launched_state clear_state cleanup_run_files
  launched_state-launched (err e) state w = refl
  launched_state-launched (ok output) state w = ground arith

  write_state-launched :
      (state : AptRunState) (w : Store) → (write_state env state w).launched ≡ w.launched
  unfolding write_state
  write_state-launched state w = ground arith

  launch-launched :
      (name : Option Text) (w : Store)
      → (launch env name w).1.launched ≡ w.launched ++ launch_args env name ∷ []
  unfolding launch
  launch-launched name w =
      let v = write_state env (new_state env name) w in
      launched_state-launched (env.runner (lit "systemd-run") (launch_args env name))
        (new_state env name) (record v { launched = v.launched ++ launch_args env name ∷ [] })
      ∙ ap (λ l. l ++ launch_args env name ∷ []) (write_state-launched (new_state env name) w)

  start_systemd_run-StartsOnce :
      (name : Option Text) (w : Store)
      → read_state env w ≡ none
      → StartsOnce env name w (start_systemd_run env name w).1
  unfolding start_systemd_run
  start_systemd_run-StartsOnce name w none_yet = elim (Result-cases (check_package name)) [
    | inr (f, e) ↦ inl (ground (arith, e))
    | inl (u, e) ↦ elim (Option-cases env.script_fault) [
      | inr (f, k) ↦ inl (ground (arith, e, k))
      | inl k ↦
          inr
            (none_yet, ground (arith, e, k, launch-launched name w), package_args-IsOperand name e)
    ]
  ]

  moved :
      (name : Option Text) (w u v : Store)
      → v.launched ≡ u.launched
      → StartsOnce env name w u
      → StartsOnce env name w v
  moved name w u v e (inl h) = inl (e ∙ h)
  moved name w u v e (inr (n, h, a)) = inr (n, e ∙ h, a)

  upgrade-launched :
      (ticks : List Tick) (name : Option Text) (w : Store)
      → read_state env w ≡ none
      → (upgrade env ticks name w).1.launched ≡ (start_systemd_run env name w).1.launched
  unfolding upgrade
  upgrade-launched ticks name w e = elim (Result-cases (start_systemd_run env name w).0) [
    | inr (f, k) ↦ ground (arith, e, k)
    | inl (state, k) ↦
        ground
          (arith, e, k, watch_systemd_run-launched env ticks state (start_systemd_run env name w).1)
  ]

  -- Whatever a request asks for, `upgrade` starts nothing, or it starts one run: then no run was
  -- journalled, and the words of the request on the command line are no options.
  pub upgrade-StartsOnce :
      (ticks : List Tick) (name : Option Text) (w : Store)
      → StartsOnce env name w (upgrade env ticks name w).1
  unfolding upgrade
  upgrade-StartsOnce ticks name w = elim (Option-cases (read_state env w)) [
    | inr (existing, e) ↦ inl (ground (arith, e, watch_systemd_run-launched env ticks existing w))
    | inl e ↦
        moved name w (start_systemd_run env name w).1 (upgrade env ticks name w).1
          (upgrade-launched ticks name w e) (start_systemd_run-StartsOnce name w e)
  ]
