-- ===== src/Config/Access.antt =====
-- src/config.rs: `check_read` and `check_write`. The file system is a parameter: `canonicalize`
-- gives the real path of a path or the text of an I/O error.
use shellfleet_agent.Common.{
  false, not, List, [], ◌∷◌, ◌++◌, if◌then◌else◌, is_empty, equal, filterb, Option, none, some,
  Text, Bytes, lit, ends_with, split, Result, ◌>>=◌, map_err, ok_or, to_ascii_lowercase,
}
use shellfleet_agent.Config.{
  PathError, outside_allow_list, invalid_utf8, resolve_failed, judge, check, keep_segment, pop,
  push_segments,
}

-- A path of the operating system need not be UTF-8.
pub data OsPath : Type 0 where
  utf8 : Text → OsPath
  raw : Bytes → OsPath

-- `Path::to_str`
abbrev pub to_str : OsPath → Option Text
to_str (utf8 t) = some t
to_str (raw b) = none

pub record FileSystem : Type 0 where
  pub canonicalize : Text → Result Text OsPath

-- The components of an absolute path behind its root.
abbrev components : Text → List Text
components path = filterb keep_segment (split b'/' path)

last? : List Text → Option Text
last? [] = none
last? (x ∷ []) = some x
last? (x ∷ y ∷ xs) = last? (y ∷ xs)

-- `Path::file_name`: the last component, unless it is `..`.
unfoldable pub file_name : Text → Option Text
unfolding last?
file_name path = elim (last? (components path)) [
  | none ↦ none
  | some f ↦ if equal f (lit "..") then none else some f
]

-- `Path::parent` of an absolute path.
unfoldable pub parent : Text → Option Text
unfolding pop push_segments
parent path =
    let cs = components path in
    if is_empty cs then none else some (push_segments false (b'/' ∷ []) (pop cs))

unfoldable pub check_read : FileSystem → Text → Result PathError OsPath
check_read fs path = do
  lex ← check path
  canonical ← map_err resolve_failed (fs.canonicalize lex)
  text ← ok_or (to_str canonical) invalid_utf8
  judge (to_ascii_lowercase text) (lit " (resolved from " ++ (path ++ lit ")")) canonical

-- The parent, with a slash at its end.
abbrev pub as_dir : Text → Text
as_dir s = if not (ends_with s (b'/' ∷ [])) then s ++ b'/' ∷ [] else s

unfoldable pub check_write : FileSystem → Text → Result PathError (OsPath × Text)
check_write fs path = do
  lex ← check path
  dir ← ok_or (parent lex) outside_allow_list
  file ← ok_or (file_name lex) outside_allow_list
  canonical ← map_err resolve_failed (fs.canonicalize dir)
  text ← ok_or (to_str canonical) invalid_utf8
  judge (as_dir (to_ascii_lowercase text)) (lit " (parent resolved from " ++ (path ++ lit ")"))
      (canonical, file)
