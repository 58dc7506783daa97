-- ===== src/Apt/Upgrade/Stuck.antt =====
-- Runs whose journal stays: a log that is cut inside of a character, and a `systemd-run` that could
-- not be called.
use shellfleet_agent.Common.{
  ◌-◌, ◌<◌, ◌≡◌, ◌∙◌, refl, ap, false, List, [], ◌∷◌, ◌++◌, Option, none, some, Text, lit, str_len,
  ok, err, arith,
}
use shellfleet_agent.Docker.Actions.{drain}
use shellfleet_agent.Apt.{AptRunState, truncate_log, spawn}
use shellfleet_agent.Apt.Run.{
  Tick, Machine, Store, panicked, finished, read_log, read_state, write_state, watch_systemd_run,
}
use shellfleet_agent.Apt.Run.Watch.{watch_loop-panic}
use shellfleet_agent.Apt.Upgrade.{
  launch_args, check_package, launched_state, launch, start_systemd_run, upgrade, new_state,
}

module _ (env : Machine) where
  -- While a run is journalled whose log is over the limit and begins, where it would be cut, inside
  -- of a character, every `upgrade` panics on its first look at the log and leaves the journal as it
  -- is, so that the next one panics too.
  pub upgrade-panicked :
      (tick : Tick) (ticks : List Tick) (name : Option Text) (w : Store) (state : AptRunState)
      (log_path result_path log : Text)
      → read_state env w ≡ some state
      → state.log_path ≡ some log_path
      → state.result_path ≡ some result_path
      → tick.log ≡ some log
      → 16000 < str_len log
      → drain (str_len log - 16000) log ≡ none
      → upgrade env (tick ∷ ticks) name w ≡ (panicked, w)
  unfolding upgrade watch_systemd_run read_log truncate_log
  upgrade-panicked tick ticks name w state log_path result_path log e l r t n d =
      let read : read_log env state tick w ≡ none = ground (arith, l, t, n, d) in
      ground (arith, e, r, watch_loop-panic env tick ticks state w read)

  start_systemd_run-unspawned :
      (name : Option Text) (w : Store) (reason json : Text)
      → check_package name ≡ ok tt
      → env.script_fault ≡ none
      → env.runner (lit "systemd-run") (launch_args env name) ≡ err reason
      → env.to_string (new_state env name) ≡ some json
      → env.written w.journal json ≡ some json
      → start_systemd_run env name w ≡ (
        err (spawn reason),
        record w { journal = some json; launched = w.launched ++ launch_args env name ∷ [] },
      )
  unfolding start_systemd_run launch launched_state write_state
  start_systemd_run-unspawned name w reason json c f r t x = ground (arith, c, f, r, t, x)

  read_back :
      (w : Store) (json : Text) (state : AptRunState)
      → w.journal ≡ some json
      → env.from_str json ≡ some state
      → read_state env w ≡ some state
  unfolding read_state
  read_back w json state e h = ground (arith, e, h)

  upgrade-watches :
      (ticks : List Tick) (name : Option Text) (w : Store) (state : AptRunState)
      → read_state env w ≡ some state
      → upgrade env ticks name w ≡ watch_systemd_run env ticks state w
  unfolding upgrade
  upgrade-watches ticks name w state e = ground (arith, e)

  -- When `systemd-run` cannot be called, the request fails and yet the run stays in the journal, so
  -- that the next `upgrade` watches it instead of starting one.
  pub upgrade-journalled :
      (ticks later : List Tick) (name other : Option Text) (w : Store) (reason json : Text)
      → read_state env w ≡ none
      → check_package name ≡ ok tt
      → env.script_fault ≡ none
      → env.runner (lit "systemd-run") (launch_args env name) ≡ err reason
      → env.to_string (new_state env name) ≡ some json
      → env.written w.journal json ≡ some json
      → env.from_str json ≡ some (new_state env name)
      → ((upgrade env ticks name w).0
          ≡ finished (record { success = false; log = []; error = some (spawn reason) }))
        × (upgrade env later other (upgrade env ticks name w).1
            ≡ watch_systemd_run env later (new_state env name) (upgrade env ticks name w).1)
  unfolding upgrade
  upgrade-journalled ticks later name other w reason json n c f r t x b =
      let v = record w {
        journal = some json;
        launched = w.launched ++ launch_args env name ∷ [];
      } in
      let started = start_systemd_run-unspawned name w reason json c f r t x in
      let first : upgrade env ticks name w
          ≡ (finished (record { success = false; log = []; error = some (spawn reason) }), v) =
        ground (arith, n, started) in
      (
        ap (λ o. o.0) first,
        upgrade-watches later other (upgrade env ticks name w).1 (new_state env name)
            (ap (λ o. read_state env o.1) first ∙ read_back v json (new_state env name) refl b),
      )
