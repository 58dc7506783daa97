-- ===== src/Apt/Listing.antt =====
-- src/apt.rs: `parse_apt_list` and `list_upgradable`.
use mathlib.Core.List.{reverse}
use shellfleet_agent.Common.{
  ◌||◌, List, [], ◌∷◌, Option, none, some, if◌then◌else◌, ◌==◌, is_empty, Text, lit, starts_with,
  strip_prefix, is_whitespace, trim, lines, join, Result, ok, err, Runner,
}
use shellfleet_agent.Apt.{AptError, spawn, failed}

pub record AptUpgradable : Type 0 where
  pub name : Text
  pub current_version : Text
  pub new_version : Text
  pub source : Text

-- `str::split_whitespace`: the words, none of them empty.
unfoldable pub words_onto : Text → Text → List Text
words_onto [] [] = []
words_onto (w ∷ word) [] = reverse (w ∷ word) ∷ []
words_onto word (c ∷ s) =
    let closed = words_onto [] s in
    let longer = words_onto (c ∷ word) s in
    if is_whitespace c then (if is_empty word then closed else reverse word ∷ closed) else longer

unfoldable pub split_whitespace : Text → List Text
split_whitespace s = words_onto [] s

-- What follows the first occurrence: `find` and the slice behind it.
unfoldable pub text_after : Text → Text → Option Text
text_after pattern [] = strip_prefix [] pattern
text_after pattern (c ∷ s) =
    let later = text_after pattern s in
    elim (strip_prefix (c ∷ s) pattern) [ some rest ↦ some rest | none ↦ later ]

abbrev drop_brackets : Text → Text
drop_brackets [] = []
drop_brackets (c ∷ s) = if c == b']' then drop_brackets s else c ∷ s

-- `trim_end_matches(']')`
unfoldable pub trim_end_brackets : Text → Text
trim_end_brackets s = reverse (drop_brackets (reverse s))

-- `splitn(2, '/')`: the text before the first slash, and what follows it or nothing.
unfoldable pub split_source : Text → Text × Text
split_source [] = ([], [])
split_source (c ∷ s) =
    let rest = split_source s in if c == b'/' then ([], s) else (c ∷ rest.0, rest.1)

unfoldable pub current_version_of : List Text → Text
current_version_of rest = elim (text_after (lit "upgradable from: ") (join (lit " ") rest)) [
  | none ↦ []
  | some tail ↦ trim (trim_end_brackets tail)
]

-- `parts` behind the name and the new version; the next one is the architecture.
abbrev tail_of : List Text → List Text
tail_of [] = []
tail_of (arch ∷ rest) = rest

unfoldable pub entry : List Text → Option AptUpgradable
entry [] = none
entry (name_source ∷ []) = none
entry (name_source ∷ new_version ∷ parts) =
    if is_empty (split_source name_source).0
    then none
    else some (record {
      name = (split_source name_source).0;
      current_version = current_version_of (tail_of parts);
      new_version = new_version;
      source = (split_source name_source).1;
    })

-- The body of the loop; `none` is `continue`.
unfoldable pub parse_line : Text → Option AptUpgradable
parse_line line =
    if is_empty line || starts_with line (lit "Listing") || starts_with line (lit "WARNING")
    then none
    else entry (split_whitespace line)

unfoldable pub parse_lines : List Text → List AptUpgradable
parse_lines [] = []
parse_lines (line ∷ rest) =
    let out = parse_lines rest in elim (parse_line line) [ none ↦ out | some u ↦ u ∷ out ]

unfoldable pub parse_apt_list : Text → List AptUpgradable
parse_apt_list stdout = parse_lines (lines stdout)

unfoldable pub list_upgradable : Runner → Result AptError (List AptUpgradable)
list_upgradable run = elim (run (lit "apt") (lit "list" ∷ lit "--upgradable" ∷ [])) [
  | err e ↦ err (spawn e)
  | ok output ↦
      if output.success
      then ok (parse_apt_list output.stdout)
      else err (failed (trim output.stderr))
]
