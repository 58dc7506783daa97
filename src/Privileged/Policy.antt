-- ===== src/Privileged/Policy.antt =====
-- src/privileged/policy.rs: `classify`, and an independent statement of what it permits.
pub mod Permitted
use shellfleet_agent.Common.{
  ℕ, suc, ◌+◌, ◌*◌, ◌≤◌, ◌<◌, ◌≡◌, ◌≢◌, refl, ◌↔◌, Bool, true, false, not, ◌&&◌, ◌||◌, List, [],
  ◌∷◌, arith, if◌then◌else◌, ltb, leb, within, ◌==◌, any, equal, equal_iff, length, Text, lit,
  str_len, starts_with, contains_char, one_of, Result, ok, err, All, ◌⊎◌, inl, inr, Bool-cases,
}
use shellfleet_agent.Privileged.Wire.{TrustedOperation, root_command, root_pty}

pub data Tier : Type 0 where
  two : Tier

pub data PolicyError : Type 0 where
  program_not_bounded_absolute arguments_exceed_limits timeout_outside_limits : PolicyError
  shell_not_allowed pty_limits_invalid : PolicyError

abbrev pub max_arg_len : ℕ
max_arg_len = 16 * 1024

abbrev pub shells : List Text
shells = lit "/bin/bash" ∷ lit "/bin/sh" ∷ lit "/usr/bin/bash" ∷ []

unfoldable pub classify : TrustedOperation → Result PolicyError Tier
classify (root_command program args timeout_secs) =
    if not (starts_with program (b'/' ∷ []))
      || contains_char 0 program
      || ltb 4096 (str_len program)
    then err program_not_bounded_absolute
    else if ltb 256 (length args)
        || any (λ arg. contains_char 0 arg || ltb max_arg_len (str_len arg)) args
    then err arguments_exceed_limits
    else if not (within 1 3600 timeout_secs)
    then err timeout_outside_limits
    else ok two
classify (root_pty shell ttl_secs cols rows) =
    if not (one_of shells shell)
    then err shell_not_allowed
    else if not (within 60 3600 ttl_secs) || cols == 0 || rows == 0
    then err pty_limits_invalid
    else ok two
