-- ===== src/Host/Journal.antt =====
-- src/journal_stream.rs: the arguments that `journalctl` gets.
use shellfleet_agent.Common.{
  sym, ℕ, ◌≡◌, inl, inr, refl, subst, min, Bool, true, false, not, ◌||◌, List, [], ◌∷◌, ◌++◌,
  Option, none, some, if◌then◌else◌, ◌==◌, ltb, is_empty, all, one_of, starts_with, Text, lit,
  str_len, to_decimal, is_ascii_alphanumeric, Result, ok, err, ◌>>=◌, >>=-eq-ok, Bool-cases, arith,
  All, All-append,
}
use shellfleet_agent.Host.Systemd.{is_safe_unit_name}

pub record StreamArgs : Type 0 where
  pub stream_id : Text
  pub units : List Text
  pub priority : Option Text
  pub since : Option Text
  pub grep : Option Text
  pub identifier : Option Text
  pub line_count : ℕ
  pub follow : Bool

pub data ArgError : Type 0 where
  invalid_unit invalid_priority invalid_identifier invalid_since : Text → ArgError
  invalid_grep : ArgError

unfoldable pub since_char : ℕ → Bool
since_char c =
    is_ascii_alphanumeric c
    || (c == b' ' || c == b':' || c == b'+' || c == b',' || c == b'.' || c == b'-')

unfoldable pub is_safe_since : Text → Bool
is_safe_since s =
    if is_empty s || starts_with s (lit "-") || ltb 64 (str_len s) then false else all since_char s

unfoldable pub is_safe_grep : Text → Bool
is_safe_grep g = not (is_empty g || ltb 256 (str_len g) || starts_with g (lit "-"))

unfoldable pub allowed_priorities : List Text
allowed_priorities =
    lit "emerg"
    ∷ lit "alert"
    ∷ lit "crit"
    ∷ lit "err"
    ∷ lit "warning"
    ∷ lit "notice"
    ∷ lit "info"
    ∷ lit "debug"
    ∷ []

-- `if let Some(v) = … { if !test(v) { return Err } argv.push(flag); argv.push(v) }`
unfoldable pub checked_arg :
    (Text → Bool) → (Text → ArgError) → Text → Option Text → Result ArgError (List Text)
checked_arg test refuse flag none = ok []
checked_arg test refuse flag (some v) = if test v then ok (flag ∷ v ∷ []) else err (refuse v)

unfoldable pub unit_args : List Text → Result ArgError (List Text)
unit_args [] = ok []
unit_args (unit ∷ units) =
    checked_arg is_safe_unit_name invalid_unit (lit "-u") (some unit) >>= λ args.
    unit_args units >>= λ rest. ok (args ++ rest)

unfoldable pub argv_start : StreamArgs → List Text
argv_start args =
    lit "--no-pager"
    ∷ lit "--output=short-iso"
    ∷ ((if args.follow then lit "--follow" ∷ [] else [])
        ++ (lit "--lines=" ++ to_decimal (min args.line_count 10000)) ∷ [])

unfoldable pub build_argv : StreamArgs → Result ArgError (List Text)
build_argv args = do
  units ← unit_args args.units
  priority ← checked_arg (one_of allowed_priorities) invalid_priority (lit "-p") args.priority
  identifier ← checked_arg is_safe_unit_name invalid_identifier (lit "-t") args.identifier
  since ← checked_arg is_safe_since invalid_since (lit "--since") args.since
  grep ← checked_arg is_safe_grep (λ _. invalid_grep) (lit "-g") args.grep
  ok (argv_start args ++ (units ++ (priority ++ (identifier ++ (since ++ grep)))))

-- A word that `journalctl` is meant to take for an option, or one that it takes for no option.
abbrev pub options : List Text
options =
    lit "--no-pager"
    ∷ lit "--output=short-iso"
    ∷ lit "--follow"
    ∷ lit "-u"
    ∷ lit "-p"
    ∷ lit "-t"
    ∷ lit "--since"
    ∷ lit "-g"
    ∷ []

abbrev pub IsArg : Text → Type 0
IsArg w =
    (one_of options w || starts_with w (lit "--lines=") || not (starts_with w (lit "-"))) ≡ true

operand-IsArg : (w : Text) → starts_with w (lit "-") ≡ false → IsArg w
operand-IsArg w h = ground arith

priority-IsArg : (w : Text) → one_of allowed_priorities w ≡ true → IsArg w
unfolding allowed_priorities
priority-IsArg [] h = refl
priority-IsArg (c ∷ w) h = operand-IsArg (c ∷ w) (ground arith)

since-IsArg : (w : Text) → is_safe_since w ≡ true → IsArg w
unfolding is_safe_since
since-IsArg w h = operand-IsArg w (ground arith)

grep-IsArg : (w : Text) → is_safe_grep w ≡ true → IsArg w
unfolding is_safe_grep
grep-IsArg w h = operand-IsArg w (ground arith)

token-IsArg : (w : Text) → is_safe_unit_name w ≡ true → IsArg w
unfolding is_safe_unit_name
token-IsArg w h = operand-IsArg w (ground arith)

module _ (test : Text → Bool) (refuse : Text → ArgError)
    (sound : (w : Text) → test w ≡ true → IsArg w) (flag : Text) (is_flag : IsArg flag) where
  checked_arg-All :
      (o : Option Text) (ws : List Text) → checked_arg test refuse flag o ≡ ok ws → All IsArg ws
  unfolding checked_arg
  checked_arg-All none ws h = let e : [] ≡ ws = cc in subst (All IsArg) e tt
  checked_arg-All (some v) ws h = elim (Bool-cases (test v)) [
    | inr k ↦ ground (arith, k)
    | inl k ↦
        let e : flag ∷ v ∷ [] ≡ ws = ground (arith, k) in
        subst (All IsArg) e (is_flag, (sound v k, tt))
  ]

unit_args-All : (units ws : List Text) → unit_args units ≡ ok ws → All IsArg ws
unfolding unit_args
unit_args-All [] ws h = let e : [] ≡ ws = cc in subst (All IsArg) e tt
unit_args-All (unit ∷ units) ws h =
    let (args, a, h₁) =
      >>=-eq-ok (checked_arg is_safe_unit_name invalid_unit (lit "-u") (some unit)) _ h in
    let (rest, r, h₂) = >>=-eq-ok (unit_args units) _ h₁ in
    let e : args ++ rest ≡ ws = cc in
    subst (All IsArg) e (
      All-append IsArg args rest
        (checked_arg-All is_safe_unit_name invalid_unit token-IsArg (lit "-u") refl (some unit) args
          a)
        (unit_args-All units rest r))

argv_start-All : (args : StreamArgs) → All IsArg (argv_start args)
unfolding argv_start
argv_start-All args = elim (Bool-cases args.follow) [
  | inl e ↦ rw e (refl, (refl, (refl, (refl, tt))))
  | inr e ↦ rw e (refl, (refl, (refl, tt)))
]

-- Whatever a request asks for, an argument list that `build_argv` returns starts with its fixed
-- options and a bound on the lines of at most 10000, and each further word is an option that the
-- source writes or does not start with a dash.
pub build_argv-All :
    (args : StreamArgs) (argv : List Text)
    → build_argv args ≡ ok argv
    → (rest : List Text) × (argv ≡ argv_start args ++ rest) × All IsArg argv
unfolding build_argv
build_argv-All args argv h =
    let (units, u, h₁) = >>=-eq-ok (unit_args args.units) _ h in
    let (priority, p, h₂) =
      >>=-eq-ok (checked_arg (one_of allowed_priorities) invalid_priority (lit "-p") args.priority)
        _ h₁ in
    let (identifier, i, h₃) =
      >>=-eq-ok (checked_arg is_safe_unit_name invalid_identifier (lit "-t") args.identifier) _
        h₂ in
    let (since, s, h₄) =
      >>=-eq-ok (checked_arg is_safe_since invalid_since (lit "--since") args.since) _ h₃ in
    let (grep, g, h₅) =
      >>=-eq-ok (checked_arg is_safe_grep (λ _. invalid_grep) (lit "-g") args.grep) _ h₄ in
    let rest = units ++ (priority ++ (identifier ++ (since ++ grep))) in
    let e : argv_start args ++ rest ≡ argv = cc in
    (
      rest,
      sym e,
      subst (All IsArg) e (
          All-append IsArg (argv_start args) rest (argv_start-All args) (
            All-append IsArg units _ (unit_args-All args.units units u) (
              All-append IsArg priority _
                (checked_arg-All (one_of allowed_priorities) invalid_priority priority-IsArg
                  (lit "-p") refl args.priority priority p)
                (All-append IsArg identifier _
                  (checked_arg-All is_safe_unit_name invalid_identifier token-IsArg (lit "-t") refl
                    args.identifier identifier i)
                  (All-append IsArg since grep
                    (checked_arg-All is_safe_since invalid_since since-IsArg (lit "--since") refl
                      args.since since s)
                    (checked_arg-All is_safe_grep (λ _. invalid_grep) grep-IsArg (lit "-g") refl
                      args.grep grep g)))))),
    )
