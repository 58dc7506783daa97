-- ===== src/Privileged/Policy/Permitted.antt =====
-- What src/privileged/policy.rs permits, said without its tests, and that `classify` decides it.
use shellfleet_agent.Common.{
  ℕ, ◌≤◌, ◌≡◌, ◌≢◌, refl, sym, subst, ◌↔◌, true, false, ◌||◌, List, [], ◌∷◌, arith, ltb, any, equal,
  equal_iff, length, Text, lit, str_len, contains_char, one_of, ok, All, ◌⊎◌, inl, inr, Bool-cases,
}
use shellfleet_agent.Privileged.Wire.{TrustedOperation, root_command, root_pty}
use shellfleet_agent.Privileged.Policy.{two, shells, max_arg_len, classify}

-- An argument of bounded size with no NUL.
abbrev pub IsBoundedArg : Text → Type 0
IsBoundedArg arg = All (λ c. c ≢ 0) arg × (str_len arg ≤ 16384)

-- What may run as root, said without the code's tests.
pub data IsPermitted : TrustedOperation → Type 0 where
  command :
      (rest : Text) (args : List Text) (timeout_secs : ℕ)
      → All (λ c. c ≢ 0) rest
      → str_len (b'/' ∷ rest) ≤ 4096
      → length args ≤ 256
      → All IsBoundedArg args
      → 1 ≤ timeout_secs
      → timeout_secs ≤ 3600
      → IsPermitted (root_command (b'/' ∷ rest) args timeout_secs)
  pty :
      (shell : Text) (ttl_secs cols rows : ℕ)
      → (shell ≡ lit "/bin/bash") ⊎ ((shell ≡ lit "/bin/sh") ⊎ (shell ≡ lit "/usr/bin/bash"))
      → 60 ≤ ttl_secs
      → ttl_secs ≤ 3600
      → 1 ≤ cols
      → 1 ≤ rows
      → IsPermitted (root_pty shell ttl_secs cols rows)

contains_nul→All : (s : Text) → contains_char 0 s ≡ false → All (λ c. c ≢ 0) s
contains_nul→All [] h = tt
contains_nul→All (c ∷ s) h = (ground arith, contains_nul→All s (ground arith))

All→contains_nul : (s : Text) → All (λ c. c ≢ 0) s → contains_char 0 s ≡ false
All→contains_nul [] h = refl
All→contains_nul (c ∷ s) h = ground (arith, All→contains_nul s h.1, h.0)

args→All :
    (args : List Text)
    → any (λ arg. contains_char 0 arg || ltb max_arg_len (str_len arg)) args ≡ false
    → All IsBoundedArg args
args→All [] h = tt
args→All (a ∷ args) h =
    ((contains_nul→All a (ground arith), ground arith), args→All args (ground arith))

All→args :
    (args : List Text)
    → All IsBoundedArg args
    → any (λ arg. contains_char 0 arg || ltb max_arg_len (str_len arg)) args ≡ false
All→args [] h = refl
All→args (a ∷ args) h = ground (arith, All→contains_nul a h.0.0, h.0.1, All→args args h.1)

shell→one :
    (s : Text)
    → one_of shells s ≡ true
    → (s ≡ lit "/bin/bash") ⊎ ((s ≡ lit "/bin/sh") ⊎ (s ≡ lit "/usr/bin/bash"))
shell→one s h = elim (Bool-cases (equal s (lit "/bin/bash"))) [
  | inl e ↦ inl ((equal_iff s (lit "/bin/bash")).0 e)
  | inr e ↦ elim (Bool-cases (equal s (lit "/bin/sh"))) [
    | inl f ↦ inr (inl ((equal_iff s (lit "/bin/sh")).0 f))
    | inr f ↦ inr (inr ((equal_iff s (lit "/usr/bin/bash")).0 (ground arith)))
  ]
]

one→shell :
    (s : Text)
    → (s ≡ lit "/bin/bash") ⊎ ((s ≡ lit "/bin/sh") ⊎ (s ≡ lit "/usr/bin/bash"))
    → one_of shells s ≡ true
one→shell s (inl e) = rw e
one→shell s (inr (inl e)) = rw e
one→shell s (inr (inr e)) = rw e

command_facts :
    (c : ℕ) (rest : Text) (args : List Text) (t : ℕ)
    → classify (root_command (c ∷ rest) args t) ≡ ok two
    → (c ≡ b'/')
      × (contains_char 0 rest ≡ false)
      × (str_len (c ∷ rest) ≤ 4096)
      × (length args ≤ 256)
      × (any (λ arg. contains_char 0 arg || ltb max_arg_len (str_len arg)) args ≡ false)
      × (1 ≤ t)
      × (t ≤ 3600)
unfolding classify
command_facts c rest args t h = ground arith

classify→IsPermitted : (op : TrustedOperation) → classify op ≡ ok two → IsPermitted op
unfolding classify
classify→IsPermitted (root_command [] args t) h = absurd (ground arith)
classify→IsPermitted (root_command (c ∷ rest) args t) h =
    let (slash, nul, short, few, bounded, lo, hi) = command_facts c rest args t h in
    subst (λ x. IsPermitted (root_command (x ∷ rest) args t)) (sym slash)
      (command rest args t (contains_nul→All rest nul)
        (subst (λ x. str_len (x ∷ rest) ≤ 4096) slash short) few (args→All args bounded) lo hi)
classify→IsPermitted (root_pty shell ttl cols rows) h =
    pty shell ttl cols rows (shell→one shell (ground arith)) (ground arith) (ground arith)
      (ground arith) (ground arith)

IsPermitted→classify : (op : TrustedOperation) → IsPermitted op → classify op ≡ ok two
unfolding classify
IsPermitted→classify op (command rest args t z n l a lo hi) =
    ground (arith, All→contains_nul rest z, All→args args a)
IsPermitted→classify op (pty shell t c r s lo hi cp rp) = ground (arith, one→shell shell s)

-- `classify` accepts exactly the permitted operations.
pub classify-IsPermitted : (op : TrustedOperation) → (classify op ≡ ok two) ↔ IsPermitted op
classify-IsPermitted op = (classify→IsPermitted op, IsPermitted→classify op)
