-- ===== src/Apt/Upgrade/Script.antt =====
-- The wrapper script of a run, and the answer of the watch on what it wrote.
use mathlib.Core.List.{reverse, reverse-cons, reverse-append}
use shellfleet_agent.Common.{
  ℕ, ◌≡◌, ◌∙◌, inl, inr, refl, ap, true, false, ◌&&◌, ◌||◌, ◌==◌, [], ◌∷◌, ◌++◌, Text, lit,
  is_whitespace, trim_start, trim, equal, to_decimal, Bool-cases, arith,
}
use shellfleet_agent.Apt.{AptRunState}
use shellfleet_agent.Apt.Run.{result_report}
use shellfleet_agent.Apt.Upgrade.{script_code, script_result}

trim_start_last :
    (c : ℕ) (xs : Text)
    → is_whitespace c ≡ false
    → (t : Text) × (trim_start (xs ++ c ∷ []) ≡ t ++ c ∷ [])
trim_start_last c [] h = ([], ground (arith, h))
trim_start_last c (x ∷ xs) h = elim (Bool-cases (is_whitespace x)) [
  | inl e ↦ let (t, k) = trim_start_last c xs h in (t, ground (arith, e, k))
  | inr e ↦ (x ∷ xs, ground (arith, e))
]

-- What does not begin with white space begins the same once trimmed.
trim_first : (c : ℕ) (s : Text) → is_whitespace c ≡ false → (t : Text) × (trim (c ∷ s) ≡ c ∷ t)
unfolding trim
trim_first c s h =
    let (t, k) = trim_start_last c (reverse s) h in
    let start : trim_start (c ∷ s) ≡ c ∷ s = ground (arith, h) in
    (
      reverse t,
      ap (λ x. reverse (trim_start (reverse x))) start
          ∙ ap (λ x. reverse (trim_start x)) (reverse-cons c s)
          ∙ ap reverse k
          ∙ reverse-append t (c ∷ []),
    )

success_trimmed : equal (trim (lit "success\n")) (lit "success") ≡ true
unfolding trim
success_trimmed = refl

f_is_no_space : is_whitespace b'f' ≡ false
unfolding is_whitespace
f_is_no_space = refl

failed_trimmed :
    (n : ℕ) → equal (trim (lit "failed:" ++ (to_decimal n ++ lit "\n"))) (lit "success") ≡ false
failed_trimmed n =
    let (t, k) = trim_first b'f' (lit "ailed:" ++ (to_decimal n ++ lit "\n")) f_is_no_space in
    ap (λ s. equal s (lit "success")) k

-- What the watch answers on the result that the script writes: success exactly when `apt-get`
-- succeeded, or when both steps of the recovery did.
pub result_report-script_result :
    (state : AptRunState) (rc dpkg_rc fix_rc : ℕ)
    → (result_report state (script_result (script_code rc dpkg_rc fix_rc))).success
      ≡ ((rc == 0) || (dpkg_rc == 0 && fix_rc == 0))
unfolding result_report script_result script_code
result_report-script_result state rc dpkg_rc fix_rc = elim (Bool-cases (rc == 0)) [
  | inl e ↦ ground (arith, e, success_trimmed)
  | inr e ↦ elim (Bool-cases (dpkg_rc == 0 && fix_rc == 0)) [
    | inl k ↦ ground (arith, e, k, success_trimmed)
    | inr k ↦ ground (arith, e, k, failed_trimmed rc)
  ]
]
