-- ===== src/Host/Health/Environment.antt =====
-- The environment and the program of a probe's script.
use shellfleet_agent.Common.{
  ◌≡◌, ◌∙◌, inl, inr, refl, sym, ap, subst, true, false, List, [], ◌∷◌, ◌++◌, Option, none, some,
  if◌then◌else◌, equal, equal_iff, All, Text, lit, trim, contains, contains_char, ok, Bool-cases,
  Option-cases, arith,
}
use shellfleet_agent.Host.Health.Probe.{
  HealthProbeSpec, Net, is_safe_probe_env_key, split_once_eq, vetted, default_path, probe_env,
  probe_path, is_bad_target, exec_command,
}

-- The value of a variable: that of its last setting.
abbrev pub value_of : Text → List (Text × Text) → Option Text
value_of key [] = none
value_of key ((k, v) ∷ rest) = elim (value_of key rest) [
  | some w ↦ some w
  | none ↦ if equal k key then some v else none
]

-- A key that is not safe is not set.
vetted_hidden :
    (key : Text) (pairs : List Text)
    → is_safe_probe_env_key key ≡ false
    → value_of key (vetted pairs) ≡ none
unfolding vetted
vetted_hidden key [] h = refl
vetted_hidden key (kv ∷ rest) h =
    let ih = vetted_hidden key rest h in
    elim (Option-cases (split_once_eq kv)) [
      | inl e ↦ ground (arith, e, ih)
      | inr ((k, v), e) ↦ elim (Bool-cases (is_safe_probe_env_key k)) [
        | inr s ↦ ground (arith, e, s, ih)
        | inl s ↦ elim (Bool-cases (equal k key)) [
          | inr d ↦ ground (arith, e, s, d, ih)
          | inl d ↦
              let same : k ≡ key = (equal_iff k key).0 d in
              let clash = sym s ∙ ap is_safe_probe_env_key same ∙ h in cc
        ]
      ]
    ]

-- The variables that load code or steer the interpreter.
abbrev pub IsUnset : List (Text × Text) → Text → Type 0
IsUnset env key = value_of key env ≡ none

abbrev pub steering : List Text
steering =
    lit "BASH_ENV"
    ∷ lit "ENV"
    ∷ lit "CDPATH"
    ∷ lit "GLOBIGNORE"
    ∷ lit "SHELLOPTS"
    ∷ lit "BASHOPTS"
    ∷ lit "PYTHONHOME"
    ∷ lit "PYTHONPATH"
    ∷ lit "PYTHONSTARTUP"
    ∷ lit "PERL5LIB"
    ∷ lit "PERL5OPT"
    ∷ lit "RUBYLIB"
    ∷ lit "RUBYOPT"
    ∷ lit "NODE_OPTIONS"
    ∷ lit "JAVA_TOOL_OPTIONS"
    ∷ lit "JDK_JAVA_OPTIONS"
    ∷ []

path_is_unsafe : is_safe_probe_env_key (lit "PATH") ≡ false
unfolding is_safe_probe_env_key
path_is_unsafe = ground arith

ld_is_unsafe : (rest : Text) → is_safe_probe_env_key (lit "LD_" ++ rest) ≡ false
unfolding is_safe_probe_env_key
ld_is_unsafe rest = ground arith

dyld_is_unsafe : (rest : Text) → is_safe_probe_env_key (lit "DYLD_" ++ rest) ≡ false
unfolding is_safe_probe_env_key
dyld_is_unsafe rest = ground arith

steering_is_unsafe : All (λ key. is_safe_probe_env_key key ≡ false) steering
unfolding is_safe_probe_env_key
steering_is_unsafe = ground arith

vetted-IsUnset :
    (keys pairs : List Text)
    → All (λ key. is_safe_probe_env_key key ≡ false) keys
    → All (IsUnset (vetted pairs)) keys
vetted-IsUnset [] pairs h = tt
vetted-IsUnset (key ∷ keys) pairs h = (vetted_hidden key pairs h.0, vetted-IsUnset keys pairs h.1)

-- Behind a setting of another key.
behind_path :
    (key : Text) (env : List (Text × Text))
    → equal (lit "PATH") key ≡ false
    → value_of key env ≡ none
    → value_of key ((lit "PATH", default_path) ∷ env) ≡ none
behind_path key env d h = ground (arith, d, h)

all_behind_path :
    (keys : List Text) (env : List (Text × Text))
    → All (λ key. equal (lit "PATH") key ≡ false) keys
    → All (IsUnset env) keys
    → All (IsUnset ((lit "PATH", default_path) ∷ env)) keys
all_behind_path [] env d h = tt
all_behind_path (key ∷ keys) env d h =
    (behind_path key env d.0 h.0, all_behind_path keys env d.1 h.1)

steering_is_not_path : All (λ key. equal (lit "PATH") key ≡ false) steering
steering_is_not_path = ground arith

path_first :
    (pairs : List Text)
    → value_of (lit "PATH") ((lit "PATH", default_path) ∷ vetted pairs) ≡ some default_path
path_first pairs = ground (arith, vetted_hidden (lit "PATH") pairs path_is_unsafe)

exec_command-accepted :
    (net : Net) (spec : HealthProbeSpec) (path : Text) (env : List (Text × Text))
    → exec_command net spec ≡ ok (path, env)
    → (is_bad_target (trim spec.target) ≡ false)
      × (net.is_file (probe_path (trim spec.target)) ≡ true)
      × (probe_path (trim spec.target) ≡ path)
      × (probe_env spec.env ≡ env)
unfolding exec_command
exec_command-accepted net spec path env h = elim (Bool-cases (is_bad_target (trim spec.target))) [
  | inl e ↦ ground (arith, e, h)
  | inr e ↦ elim (Bool-cases (net.is_file (probe_path (trim spec.target)))) [
    | inr k ↦ ground (arith, e, k, h)
    | inl k ↦ (e, k, ground (arith, e, k, h), ground (arith, e, k, h))
  ]
]

good_target :
    (target : Text)
    → is_bad_target target ≡ false
    → (contains_char b'/' target ≡ false) × (contains target (lit "..") ≡ false)
unfolding is_bad_target
good_target target h = ground arith

-- A script that a probe runs is a file right in `/etc/shellfleet/probes.d`; whatever the variables of
-- the probe are, it gets the fixed `PATH`, none whose name starts with `LD_` or `DYLD_`, and none of
-- the sixteen that `steering` lists. Other variables of the probe, among them some that load code too,
-- are not restricted.
pub exec_command-IsUnset :
    (net : Net) (spec : HealthProbeSpec) (path : Text) (env : List (Text × Text)) (rest : Text)
    → exec_command net spec ≡ ok (path, env)
    → (path ≡ lit "/etc/shellfleet/probes.d/" ++ trim spec.target)
      × (contains_char b'/' (trim spec.target) ≡ false)
      × (contains (trim spec.target) (lit "..") ≡ false)
      × (net.is_file path ≡ true)
      × (value_of (lit "PATH") env ≡ some default_path)
      × IsUnset env (lit "LD_" ++ rest)
      × IsUnset env (lit "DYLD_" ++ rest)
      × All (IsUnset env) steering
unfolding probe_env probe_path
exec_command-IsUnset net spec path env rest h =
    let (good, file, at, e) = exec_command-accepted net spec path env h in
    let (slash, dots) = good_target (trim spec.target) good in
    (
      sym at,
      slash,
      dots,
      subst (λ p. net.is_file p ≡ true) at file,
      subst (λ l. value_of (lit "PATH") l ≡ some default_path) e (path_first spec.env),
      subst (λ l. IsUnset l (lit "LD_" ++ rest)) e
          (behind_path (lit "LD_" ++ rest) (vetted spec.env) refl
            (vetted_hidden (lit "LD_" ++ rest) spec.env (ld_is_unsafe rest))),
      subst (λ l. IsUnset l (lit "DYLD_" ++ rest)) e
          (behind_path (lit "DYLD_" ++ rest) (vetted spec.env) refl
            (vetted_hidden (lit "DYLD_" ++ rest) spec.env (dyld_is_unsafe rest))),
      subst (λ l. All (IsUnset l) steering) e
          (all_behind_path steering (vetted spec.env) steering_is_not_path
            (vetted-IsUnset steering spec.env steering_is_unsafe)),
    )
