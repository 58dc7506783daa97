-- ===== src/Apt/Run/Ends.antt =====
-- When the watch on a run ends.
use shellfleet_agent.Common.{
  ◌++◌, ℕ, ◌-◌, ◌<◌, ◌≡◌, ◌∙◌, inl, inr, ap, subst, List, [], ◌∷◌, Option, none, some, All, Text,
  str_len, ltb, Bool-cases, Option-cases, arith,
}
use shellfleet_agent.Docker.Actions.{cut_mark}
use shellfleet_agent.Docker.Log.{drain-ascii}
use shellfleet_agent.Apt.{Report, AptRunState, truncate_log}
use shellfleet_agent.Apt.Run.{
  Tick, Machine, Store, finished, old_report, verdict, write_state, read_log, watch_loop,
  watch_systemd_run,
}
use shellfleet_agent.Apt.Run.Watch.{SomeTick, watch_loop-answer, watch_loop-wait}

-- A log of ASCII characters.
abbrev pub IsPlain : Option Text → Type 0
IsPlain none = Unit
IsPlain (some log) = All (λ c. c < 0x80) log

-- The unit has written a result.
abbrev pub Written : Tick → Type 0
Written tick = (text : Text) × (tick.result ≡ some text)

pub truncate_log-ascii :
    (text : Text) (limit : ℕ)
    → All (λ c. c < 0x80) text
    → (log : Text) × (truncate_log text limit ≡ some log)
unfolding truncate_log
truncate_log-ascii text limit a = elim (Bool-cases (ltb limit (str_len text))) [
  | inr e ↦ (text, ground (arith, e))
  | inl e ↦
      let (rest, k) = drain-ascii (str_len text - limit) text a (omega arith) in
      (cut_mark (str_len text - limit) ++ rest, ground (arith, e, k))
]

undecided :
    (state : AptRunState) (tick : Tick) (text : Text)
    → verdict state tick ≡ none
    → tick.result ≡ some text
    → ⊥
unfolding verdict
undecided state tick text h e = ground (arith, h, e)

module _ (env : Machine) where
  read_log-plain :
      (state : AptRunState) (tick : Tick) (w : Store)
      → IsPlain tick.log
      → (next : AptRunState) × (v : Store) × (read_log env state tick w ≡ some (next, v))
  unfolding read_log
  read_log-plain state tick w a = elim (Option-cases state.log_path) [
    | inl e ↦ (state, w, ground (arith, e))
    | inr (path, e) ↦ elim (Option-cases tick.log) [
      | inl k ↦ (state, w, ground (arith, e, k))
      | inr (bytes, k) ↦
          let (log, d) = truncate_log-ascii bytes 16000 (subst IsPlain k a) in
          let next = record state { log = log; bytes_written = str_len log } in
          (next, write_state env next w, ground (arith, e, k, d))
    ]
  ]

  watch_loop-Written :
      (ticks : List Tick) (state : AptRunState) (w : Store)
      → All (λ (tick : Tick). IsPlain tick.log) ticks
      → SomeTick Written ticks
      → (r : Report) × ((watch_loop env ticks state w).0 ≡ finished r)
  unfolding watch_loop
  watch_loop-Written [] state w a found = absurd found
  watch_loop-Written (tick ∷ ticks) state w a found =
      let (next, v, e) = read_log-plain state tick w a.0 in
      elim (Option-cases (verdict next tick)) [
        | inr (r, k) ↦ (r, ap (λ o. o.0) (watch_loop-answer env tick ticks state next w v r e k))
        | inl k ↦ elim found [
          | inl (text, f) ↦ absurd (undecided next tick text k f)
          | inr rest ↦
              let (r, h) = watch_loop-Written ticks next v a.1 rest in
              (r, ap (λ o. o.0) (watch_loop-wait env tick ticks state next w v e k) ∙ h)
        ]
      ]

  -- A watch ends once the unit has written a result, if the logs it reads on the way are ASCII.
  pub watch_systemd_run-Written :
      (ticks : List Tick) (state : AptRunState) (w : Store)
      → All (λ (tick : Tick). IsPlain tick.log) ticks
      → SomeTick Written ticks
      → (r : Report) × ((watch_systemd_run env ticks state w).0 ≡ finished r)
  unfolding watch_systemd_run
  watch_systemd_run-Written ticks state w a found = elim (Option-cases state.result_path) [
    | inl e ↦ (old_report state, ground (arith, e))
    | inr (path, e) ↦
        let (r, h) = watch_loop-Written ticks state w a found in (r, ground (arith, e, h))
  ]
