-- ===== src/Host/Exec/Complete.antt =====
-- What the result of `run` says of the command and of its output.
use shellfleet_agent.Common.{
  ℕ, ◌≡◌, ◌∙◌, ◌⊎◌, inl, inr, refl, sym, ap, subst, true, false, ◌&&◌, List, [], ◌∷◌, none, some,
  is_empty, map, Text, trim, ok, Bool-cases, Option-cases, Result-cases, arith,
}
use shellfleet_agent.Host.Exec.{
  parse_command_allowlist, command_allowed, configured, IsIn, command_allowed_iff,
}
use shellfleet_agent.Host.Exec.Readers.{
  Phase, reading, closed, cut, holding, loaded, broken, died, Reader, ReaderEvent, Side, Pair,
  interleave, new_pair,
}
use shellfleet_agent.Host.Exec.Steps.{joined, IsFaithful}
use shellfleet_agent.Host.Exec.Bounded.{interleave-bounded, interleave-IsFaithful}
use shellfleet_agent.Host.Exec.Run.{
  Shell, ExecResult, WaitOutcome, reader_ended, join_error, error_if, reader_error, stdout_joined,
  stderr_joined, readers_aborted, stdout_err, stderr_err, reader_failure, collected,
  execute_command, run, deadline_secs,
}

-- A reader that has ended, without an error, while nothing was cut.
ended_clean :
    (p : Phase) (r : Reader)
    → IsFaithful p r false
    → reader_ended p ≡ true
    → join_error p ≡ none
    → (p ≡ closed) × (joined r.chunks ≡ r.seen)
unfolding reader_ended join_error
ended_clean closed r f h e = (refl, f)
ended_clean cut r f h e = cc
ended_clean (broken reason) r f h e = cc
ended_clean (died reason) r f h e = cc
ended_clean reading r f h e = cc
ended_clean (holding chunk) r f h e = cc
ended_clean (loaded chunk cur) r f h e = cc

module _ (sh : Shell) where
  -- Nothing is cut, both readers have been joined, and neither has failed.
  not_truncated :
      (waited : WaitOutcome) (s : Pair)
      → (collected sh waited s).truncated ≡ false
      → (s.account.limited ≡ false)
        × (reader_ended s.out.phase ≡ true)
        × (reader_ended s.errors.phase ≡ true)
        × (join_error s.out.phase ≡ none)
        × (join_error s.errors.phase ≡ none)
  unfolding collected readers_aborted reader_failure stdout_joined stderr_joined stdout_err
      stderr_err error_if
  not_truncated waited s h =
      let limited : s.account.limited ≡ false = ground (arith, h) in
      let out : sh.sees_stdout && reader_ended s.out.phase ≡ true = ground (arith, h) in
      let errors : sh.sees_stderr && reader_ended s.errors.phase ≡ true = ground (arith, h) in
      (
        limited,
        ground (arith, out),
        ground (arith, errors),
        elim (Option-cases (join_error s.out.phase)) [
          | inl k ↦ k
          | inr (e, k) ↦ ground (arith, h, k, out)
        ],
        elim (Option-cases (join_error s.errors.phase)) [
          | inl k ↦ k
          | inr (e, k) ↦ ground (arith, h, k, errors)
        ],
      )

  execute_command-spawned :
      (command : Text) (timeout_secs : ℕ) (s : Pair)
      → (execute_command sh command timeout_secs s).spawned ≡ command ∷ []
  unfolding execute_command
  execute_command-spawned command timeout_secs s = ground arith

  allowed_entry :
      (command : Text) (allowlist : List Text)
      → parse_command_allowlist sh.from_json sh.allow_json ≡ ok allowlist
      → command_allowed command allowlist ≡ true
      → (raw : Text) × (entries : List Text) × (sh.allow_json ≡ some raw)
        × (sh.from_json raw ≡ ok entries)
        × (is_empty (trim command) ≡ false)
        × IsIn (trim command) (map trim entries)
  unfolding parse_command_allowlist configured
  allowed_entry command allowlist p a = elim (Option-cases sh.allow_json) [
    | inl e ↦ ground (arith, e, p)
    | inr (raw, e) ↦ elim (Result-cases (sh.from_json raw)) [
      | inr (f, k) ↦ elim (Bool-cases (is_empty (trim raw))) [
        | inl b ↦ ground (arith, e, p, k, b)
        | inr b ↦ ground (arith, e, p, k, b)
      ]
      | inl (entries, k) ↦
          let q = subst (λ j. parse_command_allowlist sh.from_json j ≡ ok allowlist) e p in
          let (trimmed, found) =
            (command_allowed_iff sh.from_json raw entries allowlist command k q).0 a in
          (raw, entries, e, k, trimmed, found)
    ]
  ]

  -- `run` gives a command to the shell only if the configuration is a JSON array of strings, and the
  -- command's text without the space around it is not empty and is that of an entry.
  pub run-IsIn :
      (command : Text) (timeout_secs : ℕ) (s : Pair)
      → ((run sh command timeout_secs s).spawned ≡ [])
        ⊎ ((run sh command timeout_secs s).spawned ≡ command ∷ [])
          × ((raw : Text) × (entries : List Text) × (sh.allow_json ≡ some raw)
              × (sh.from_json raw ≡ ok entries)
              × (is_empty (trim command) ≡ false)
              × IsIn (trim command) (map trim entries))
  unfolding run
  run-IsIn command timeout_secs s =
      elim (Result-cases (parse_command_allowlist sh.from_json sh.allow_json)) [
        | inr (f, e) ↦ inl (ground (arith, e))
        | inl (allowlist, e) ↦ elim (Bool-cases (command_allowed command allowlist)) [
          | inr k ↦ inl (ground (arith, e, k))
          | inl k ↦ inr (
            ground (arith, e, k, execute_command-spawned command timeout_secs s),
            allowed_entry command allowlist e k,
          )
        ]
      ]

  clean_error :
      (s : Pair)
      → s.out.phase ≡ closed
      → s.errors.phase ≡ closed
      → reader_error (stdout_err sh s) (stderr_err sh s) ≡ none
  unfolding stdout_err stderr_err error_if reader_error join_error
  clean_error s a b = ground (arith, a, b)

  -- When the result of a command that was started is not marked as truncated, each stream is all that
  -- its reader took from the pipe up to its end, and no error is reported.
  pub run_complete :
      (command : Text) (timeout_secs : ℕ) (allowlist : List Text) (es : List (Side × ReaderEvent))
      (s : Pair)
      → parse_command_allowlist sh.from_json sh.allow_json ≡ ok allowlist
      → command_allowed command allowlist ≡ true
      → sh.spawn_fault ≡ none
      → interleave es (new_pair sh.max_output_bytes) ≡ some s
      → (run sh command timeout_secs s).result.truncated ≡ false
      → ((run sh command timeout_secs s).result.stdout ≡ sh.from_utf8_lossy s.out.seen)
        × (s.out.phase ≡ closed)
        × ((run sh command timeout_secs s).result.stderr ≡ sh.from_utf8_lossy s.errors.seen)
        × (s.errors.phase ≡ closed)
        × ((run sh command timeout_secs s).result.error ≡ none)
  unfolding run execute_command collected
  run_complete command timeout_secs allowlist es s p a f i t =
      let waited = sh.waited (deadline_secs timeout_secs) in
      let q : (run sh command timeout_secs s).result
          ≡ collected sh (sh.waited (deadline_secs timeout_secs)) s =
        ground (arith, p, a, f) in
      let (limited, out_ended, errors_ended, out_clean, errors_clean) =
        not_truncated waited s (sym (ap (λ (r : ExecResult). r.truncated) q) ∙ t) in
      let (out, errors) = interleave-IsFaithful sh.max_output_bytes es s i in
      let (balance, out_all, errors_all) = interleave-bounded sh.max_output_bytes es s i in
      let (out_closed, out_seen) =
        ended_clean s.out.phase s.out (subst (IsFaithful s.out.phase s.out) limited out) out_ended
          out_clean in
      let (errors_closed, errors_seen) =
        ended_clean s.errors.phase s.errors
          (subst (IsFaithful s.errors.phase s.errors) limited errors) errors_ended errors_clean in
      (
        ap (λ (r : ExecResult). r.stdout) q ∙ ap sh.from_utf8_lossy (out_all ∙ out_seen),
        out_closed,
        ap (λ (r : ExecResult). r.stderr) q ∙ ap sh.from_utf8_lossy (errors_all ∙ errors_seen),
        errors_closed,
        ap (λ (r : ExecResult). r.error) q ∙ clean_error s out_closed errors_closed,
      )
