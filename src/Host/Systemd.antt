-- ===== src/Host/Systemd.antt =====
-- src/systemd.rs: `control_service` and its check on unit names.
use shellfleet_agent.Common.{
  ℕ, ◌≡◌, inl, inr, refl, ap, Bool, true, false, not, ◌||◌, List, [], ◌∷◌, if◌then◌else◌, ◌==◌, ltb,
  is_empty, all, one_of, starts_with, Text, lit, str_len, trim, is_ascii_alphanumeric, Output,
  Runner, Result, ok, err, Bool-cases, arith, All,
}

unfoldable pub token_char : ℕ → Bool
token_char c =
    is_ascii_alphanumeric c
    || (c == b'.' || c == b'_' || c == b'-' || c == b'@' || c == b':' || c == b'\\')

-- `is_safe_unit_name`, and `is_safe_token` of src/journal_stream.rs, which is the same test.
unfoldable pub is_safe_unit_name : Text → Bool
is_safe_unit_name name =
    if is_empty name || starts_with name (lit "-") || ltb 256 (str_len name)
    then false
    else all token_char name

pub data SystemdError : Type 0 where
  invalid_action invalid_unit spawn failed : Text → SystemdError

unfoldable pub controlled : Result Text Output → Result SystemdError (Unit {0})
controlled (err e) = err (spawn e)
controlled (ok output) = if output.success then ok tt else err (failed (trim output.stderr))

unfoldable pub control_service : Runner → Text → Text → Result SystemdError (Unit {0})
control_service run name action =
    if not (one_of (lit "start" ∷ lit "stop" ∷ lit "restart" ∷ lit "reload" ∷ []) action)
    then err (invalid_action action)
    else if not (is_safe_unit_name name)
    then err (invalid_unit name)
    else controlled (run (lit "systemctl") (action ∷ name ∷ []))

-- No option: a word that does not start with a dash.
abbrev pub IsOperand : Text → Type 0
IsOperand w = starts_with w (lit "-") ≡ false

abbrev pub Agree : Runner → Runner → Type 0
Agree run₁ run₂ =
    (args : List Text)
    → All IsOperand args
    → run₁ (lit "systemctl") args ≡ run₂ (lit "systemctl") args

pub is_safe_unit_name-IsOperand : (w : Text) → is_safe_unit_name w ≡ true → IsOperand w
unfolding is_safe_unit_name
is_safe_unit_name-IsOperand w h = ground arith

one_of_actions :
    (action : Text)
    → one_of (lit "start" ∷ lit "stop" ∷ lit "restart" ∷ lit "reload" ∷ []) action ≡ true
    → IsOperand action
one_of_actions [] h = refl
one_of_actions (c ∷ action) h = ground arith

-- Two machines on which `systemctl` does the same with every command line that holds no option
-- give the same reply: whatever action and name a request has, no other command line is run.
pub control_service-Agree :
    (run₁ run₂ : Runner)
    → Agree run₁ run₂
    → (name action : Text) → control_service run₁ name action ≡ control_service run₂ name action
unfolding control_service
control_service-Agree run₁ run₂ agree name action =
    elim (Bool-cases
      (one_of (lit "start" ∷ lit "stop" ∷ lit "restart" ∷ lit "reload" ∷ []) action)) [
        | inr e ↦ ground (arith, e)
        | inl e ↦ elim (Bool-cases (is_safe_unit_name name)) [
          | inr k ↦ ground (arith, e, k)
          | inl k ↦
              let same =
                agree (action ∷ name ∷ [])
                  (one_of_actions action e, (is_safe_unit_name-IsOperand name k, tt)) in
              ground (arith, e, k, ap controlled same)
        ]
      ]
