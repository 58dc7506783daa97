-- ===== src/Config/Confined.antt =====
-- src/config.rs: what `check`, `check_read` and `check_write` accept, and what `check_write` misses.
use shellfleet_agent.Common.{
  ◌≡◌, refl, sym, ap, ◌∙◌, true, List, [], ◌∷◌, ◌++◌, arith, any, equal_refl, Bool-cases, inl, inr,
  some, Text, lit, starts_with, one_of, ok, >>=-eq-ok, map_err-eq_ok, ok_or-eq_ok, map_err, ok_or,
  to_ascii_lowercase, lower,
}
use shellfleet_agent.Config.{
  outside_allow_list, invalid_utf8, resolve_failed, allow_prefixes, is_allowed, denied_path, judge,
  check,
}
use shellfleet_agent.Config.Normal.{IsNormal, check-IsNormal, check-Checked, judge-eq_ok}
use shellfleet_agent.Config.Secrets.{IsSecret, below, denied_path-IsSecret}
use shellfleet_agent.Config.Access.{
  OsPath, utf8, raw, to_str, FileSystem, file_name, parent, check_read, as_dir, check_write,
}

-- A path below one of the allowed locations.
pub record IsBelowAllowed (t : Text) : Type 0 where
  pub prefix : Text
  pub rest : Text
  pub listed : one_of allow_prefixes prefix ≡ true
  pub spelled : t ≡ prefix ++ rest

starts_with-split : (s p : Text) → starts_with s p ≡ true → (rest : Text) × (s ≡ p ++ rest)
starts_with-split s [] h = (s, refl)
starts_with-split [] (q ∷ p) h = cc
starts_with-split (c ∷ s) (q ∷ p) h =
    let (rest, e) = starts_with-split s p (ground arith) in (rest, ground arith)

IsBelowAllowed-any :
    (t : Text) (l : List Text)
    → any (starts_with t) l ≡ true
    → (p : Text) × (one_of l p ≡ true) × (rest : Text) × (t ≡ p ++ rest)
IsBelowAllowed-any t [] h = cc
IsBelowAllowed-any t (p ∷ l) h = elim (Bool-cases (starts_with t p)) [
  | inl e ↦ let (rest, s) = starts_with-split t p e in (p, ground (arith, equal_refl p), rest, s)
  | inr e ↦
      let (q, m, rest, s) = IsBelowAllowed-any t l (ground arith) in (q, ground arith, rest, s)
]

is_allowed-IsBelowAllowed : (t : Text) → is_allowed t ≡ true → IsBelowAllowed t
unfolding is_allowed
is_allowed-IsBelowAllowed t h =
    let (p, m, rest, s) = IsBelowAllowed-any t allow_prefixes h in
    record { prefix = p; rest = rest; listed = m; spelled = s }

-- An allowed place that is no secret.
pub record IsSafe (t : Text) : Type 0 where
  pub below_allowed : IsBelowAllowed (to_ascii_lowercase t)
  pub not_secret : ¬ IsSecret (to_ascii_lowercase t)

judge-IsSafe {ℓ} :
    {A : Type ℓ} (path origin : Text) (a : A) {b : A}
    → judge path origin a ≡ ok b
    → IsBelowAllowed path × (¬ IsSecret path) × (a ≡ b)
judge-IsSafe path origin a h =
    let (d, p, e) = judge-eq_ok path origin a h in
    (is_allowed-IsBelowAllowed path p, λ s. denied_path-IsSecret path s d, e)

-- A path that `check` accepts is normal (segments behind single slashes, none of them empty, `.` or
-- `..`, and no NUL), and its lower-case form lies below an allowed location and is no secret: no
-- deny-listed prefix, no credential directory or file at any depth, no Docker configuration.
pub check-IsSafe : (path : Text) {s : Text} → check path ≡ ok s → IsNormal s × IsSafe s
check-IsSafe path {s} h =
    let c = check-Checked path h in
    (
      check-IsNormal path h,
      record {
        below_allowed = is_allowed-IsBelowAllowed (to_ascii_lowercase s) c.allowed;
        not_secret = λ x. denied_path-IsSecret (to_ascii_lowercase s) x c.not_denied;
      },
    )

to_str-eq_some : (p : OsPath) {t : Text} → to_str p ≡ some t → p ≡ utf8 t
to_str-eq_some (utf8 t) h = cc
to_str-eq_some (raw b) h = cc

-- `c` is what the file system makes of a checked path, and is itself a safe place.
pub record ReadsSafely (fs : FileSystem) (path : Text) (c : OsPath) : Type 0 where
  pub lex : Text
  pub text : Text
  pub checked : check path ≡ ok lex
  pub resolved : fs.canonicalize lex ≡ ok c
  pub is_utf8 : c ≡ utf8 text
  pub safe : IsSafe text

-- `c` is what the file system makes of the parent of a checked path, `f` is the last name of that
-- path, and the directory is a safe place.
pub record WritesSafely (fs : FileSystem) (path : Text) (c : OsPath) (f : Text) : Type 0 where
  pub lex : Text
  pub dir : Text
  pub text : Text
  pub checked : check path ≡ ok lex
  pub up : parent lex ≡ some dir
  pub last : file_name lex ≡ some f
  pub resolved : fs.canonicalize dir ≡ ok (utf8 text)
  pub is_utf8 : c ≡ utf8 text
  pub below_allowed : IsBelowAllowed (as_dir (to_ascii_lowercase text))
  pub not_secret : ¬ IsSecret (as_dir (to_ascii_lowercase text))

-- When `check_read` hands out a path, it is UTF-8, it is what the file system resolves the checked
-- path to, and that resolved path itself lies below an allowed location and is no secret.
pub check_read-IsSafe :
    (fs : FileSystem) (path : Text) {c : OsPath} → check_read fs path ≡ ok c → ReadsSafely fs path c
unfolding check_read
check_read-IsSafe fs path h =
    let (lex, checked, h1) = >>=-eq-ok (check path) _ h in
    let (c, resolved, h2) = >>=-eq-ok (map_err resolve_failed (fs.canonicalize lex)) _ h1 in
    let (t, decoded, h3) = >>=-eq-ok (ok_or (to_str c) invalid_utf8) _ h2 in
    let (placed, safe, same) = judge-IsSafe (to_ascii_lowercase t) _ c h3 in
    record {
      lex = lex;
      text = t;
      checked = checked;
      resolved = map_err-eq_ok resolve_failed (fs.canonicalize lex) resolved ∙ ap ok same;
      is_utf8 = sym same ∙ to_str-eq_some c (ok_or-eq_ok (to_str c) invalid_utf8 decoded);
      safe = record { below_allowed = placed; not_secret = safe };
    }

-- When `check_write` hands out a directory and a name, the name is the last one of the checked path,
-- and the directory is UTF-8, is what the file system resolves the checked path's parent to, and,
-- with a slash at its end, lies below an allowed location and is no secret.
pub check_write-IsSafe :
    (fs : FileSystem) (path : Text) {c : OsPath} {f : Text}
    → check_write fs path ≡ ok (c, f)
    → WritesSafely fs path c f
unfolding check_write
check_write-IsSafe fs path h =
    let (lex, checked, h1) = >>=-eq-ok (check path) _ h in
    let (dir, up, h2) = >>=-eq-ok (ok_or (parent lex) outside_allow_list) _ h1 in
    let (file, named, h3) = >>=-eq-ok (ok_or (file_name lex) outside_allow_list) _ h2 in
    let (c, resolved, h4) = >>=-eq-ok (map_err resolve_failed (fs.canonicalize dir)) _ h3 in
    let (t, decoded, h5) = >>=-eq-ok (ok_or (to_str c) invalid_utf8) _ h4 in
    let (placed, safe, same) = judge-IsSafe (as_dir (to_ascii_lowercase t)) _ (c, file) h5 in
    let is_utf8 = to_str-eq_some c (ok_or-eq_ok (to_str c) invalid_utf8 decoded) in
    record {
      lex = lex;
      dir = dir;
      text = t;
      checked = checked;
      up = ok_or-eq_ok (parent lex) outside_allow_list up;
      last = ok_or-eq_ok (file_name lex) outside_allow_list named ∙ ap (λ x. some x.1) same;
      resolved = map_err-eq_ok resolve_failed (fs.canonicalize dir) resolved ∙ ap ok is_utf8;
      is_utf8 = sym (ap (λ x. x.0) same) ∙ is_utf8;
      below_allowed = placed;
      not_secret = safe;
    }

abbrev pub etc : Text
etc = lit "/etc"

-- Wherever the parent of a checked path resolves to `/etc`, through a link below another allowed
-- location for one, `check_write` accepts every file name, one that begins with `shadow` too,
-- although the file to be written is then a secret of the deny-list.
pub check_write-IsSecret :
    (fs : FileSystem) (path lex dir rest : Text)
    → check path ≡ ok lex
    → parent lex ≡ some dir
    → file_name lex ≡ some (lit "shadow" ++ rest)
    → fs.canonicalize dir ≡ ok (utf8 etc)
    → (check_write fs path ≡ ok (utf8 etc, lit "shadow" ++ rest))
      × IsSecret (to_ascii_lowercase (etc ++ b'/' ∷ (lit "shadow" ++ rest)))
unfolding check_write judge is_allowed denied_path lower
check_write-IsSecret fs path lex dir rest checked up named resolved = (
  rw (checked, up, named, resolved),
  below (lit "/etc/shadow") (to_ascii_lowercase rest) refl refl,
)
