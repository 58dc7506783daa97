-- ===== src/Host/Exec.antt =====
-- src/exec.rs: the commands that may be run.
pub mod Readers
pub mod Bounded
pub mod Run
pub mod Complete
pub mod Steps
mod Tests
use shellfleet_agent.Common.{
  ◌>>◌, subst, ap, sym, ◌∙◌, ◌≡◌, ◌⊎◌, ◌↔◌, inl, inr, Bool, true, false, not, ◌&&◌, List, [], ◌∷◌,
  Option, none, some, if◌then◌else◌, is_empty, equal, equal_iff, filterb, map, any, Text, trim,
  Result, ok, err, map_err, ensure, ok_or, ◌>>=◌, Bool-cases, arith,
}

pub data AllowlistError : Type 0 where
  not_configured no_command : AllowlistError
  not_an_array : Text → AllowlistError

-- `.filter(|value| !value.trim().is_empty())`
unfoldable pub configured : Option Text → Option Text
configured none = none
configured (some raw) = if is_empty (trim raw) then none else some raw

unfoldable pub entries_of : List Text → List Text
entries_of entries = filterb (λ e. not (is_empty e)) (map trim entries)

-- `from_json` is `serde_json::from_str::<Vec<String>>`.
unfoldable pub parse_command_allowlist :
    (Text → Result Text (List Text)) → Option Text → Result AllowlistError (List Text)
parse_command_allowlist from_json raw = do
  value ← ok_or (configured raw) not_configured
  entries ← map_err not_an_array (from_json value)
  ensure (not (is_empty (entries_of entries))) no_command
  ok (entries_of entries)

unfoldable pub command_allowed : Text → List Text → Bool
command_allowed command allowlist =
    not (is_empty (trim command)) && any (equal (trim command)) allowlist

-- `enabled`; the environment variable is an argument.
unfoldable pub enabled : (Text → Result Text (List Text)) → Option Text → Bool
enabled from_json raw = elim (parse_command_allowlist from_json raw) [ ok _ ↦ true | err _ ↦ false ]

-- An item of a list.
abbrev pub IsIn : Text → List Text → Type 0
IsIn t [] = ⊥
IsIn t (u ∷ us) = (t ≡ u) ⊎ IsIn t us

any-IsIn :
    (t : Text) (us : List Text)
    → any (equal t) (filterb (λ e. not (is_empty e)) us) ≡ true
    → IsIn t us
any-IsIn t [] h = cc
any-IsIn t (u ∷ us) h = elim (Bool-cases (is_empty u)) [
  | inl e ↦ inr (any-IsIn t us (ground (arith, e)))
  | inr e ↦ elim (Bool-cases (equal t u)) [
    | inl q ↦ inl ((equal_iff t u).0 q)
    | inr q ↦ inr (any-IsIn t us (ground (arith, e, q)))
  ]
]

IsIn-any :
    (t : Text) (us : List Text)
    → is_empty t ≡ false
    → IsIn t us
    → any (equal t) (filterb (λ e. not (is_empty e)) us) ≡ true
IsIn-any t [] h k = absurd k
IsIn-any t (u ∷ us) h (inl e) = ground (arith, (equal_iff t u).1 e, sym (ap is_empty e) ∙ h)
IsIn-any t (u ∷ us) h (inr k) = ground (arith, IsIn-any t us h k)

entries_of-ok :
    (from_json : Text → Result Text (List Text)) (raw : Text) (entries allowlist : List Text)
    → from_json raw ≡ ok entries
    → parse_command_allowlist from_json (some raw) ≡ ok allowlist
    → entries_of entries ≡ allowlist
unfolding parse_command_allowlist configured
entries_of-ok from_json raw entries allowlist j h = ground (arith, j)

command_allowed-tests :
    (command : Text) (entries : List Text)
    → command_allowed command (entries_of entries) ≡ true
    → (is_empty (trim command) ≡ false) × (any (equal (trim command)) (entries_of entries) ≡ true)
unfolding command_allowed
command_allowed-tests command entries h = ground arith

-- With a configuration that is read, a command may run exactly when its text without the space
-- around it is not empty and is that of an entry of the JSON array.
pub command_allowed_iff :
    (from_json : Text → Result Text (List Text)) (raw : Text) (entries allowlist : List Text)
    (command : Text)
    → from_json raw ≡ ok entries
    → parse_command_allowlist from_json (some raw) ≡ ok allowlist
    → (command_allowed command allowlist ≡ true)
      ↔ ((is_empty (trim command) ≡ false) × IsIn (trim command) (map trim entries))
unfolding command_allowed entries_of
command_allowed_iff from_json raw entries allowlist command j h =
    let e = entries_of-ok from_json raw entries allowlist j h in
    (
      λ k.
          let (a, b) =
            command_allowed-tests command entries
              (subst (λ l. command_allowed command l ≡ true) (sym e) k) in
          (a, any-IsIn (trim command) (map trim entries) b),
      λ (a, b).
          subst (λ l. command_allowed command l ≡ true) e
            (ground (arith, a, IsIn-any (trim command) (map trim entries) a b)),
    )
