-- ===== src/Config.antt =====
-- src/config.rs: the guard of the config-file surface, its lexical layer `check` and the layers
-- `check_read` and `check_write` that resolve symbolic links. A path is the list of its `char`s.
pub mod Normal
pub mod Secrets
pub mod Access
pub mod Confined
mod Tests
use shellfleet_agent.Common.{
  ℕ, suc, ◌≡◌, Bool, true, false, not, ◌&&◌, ◌||◌, Option, none, some, List, [], ◌∷◌, ◌++◌,
  if◌then◌else◌, is_empty, filterb, any, find, equal, Result, ok, err, ◌>>=◌, map_err, ok_or, Text,
  Bytes, lit, starts_with, ends_with, contains_char, one_of, to_ascii_lowercase, split, lower,
}

abbrev pub allow_prefixes : List Text
allow_prefixes =
    lit "/etc/"
    ∷ lit "/opt/"
    ∷ lit "/usr/local/etc/"
    ∷ lit "/srv/"
    ∷ lit "/home/"
    ∷ lit "/var/log/"
    ∷ []

abbrev pub deny_prefixes : List Text
deny_prefixes =
    lit "/etc/shadow"
    ∷ lit "/etc/gshadow"
    ∷ lit "/etc/sudoers"
    ∷ lit "/etc/ssh/"
    ∷ lit "/etc/letsencrypt/"
    ∷ lit "/etc/ssl/private/"
    ∷ lit "/etc/kubernetes/"
    ∷ lit "/etc/shellfleet/agent-token"
    ∷ lit "/root/"
    ∷ lit "/home/.ssh/"
    ∷ lit "/proc/"
    ∷ lit "/sys/"
    ∷ lit "/dev/"
    ∷ []

abbrev pub secret_dirs : List Text
secret_dirs = lit ".ssh" ∷ lit ".aws" ∷ lit ".kube" ∷ lit ".gnupg" ∷ []

-- The reason, as the source words it.
unfoldable pub denied_path : Text → Option Text
denied_path path = elim (find (starts_with path) deny_prefixes) [
  | some prefix ↦ some prefix
  | none ↦ elim (find (one_of secret_dirs) (split b'/' path)) [
    | some component ↦ some (lit "any " ++ (component ++ lit " directory"))
    | none ↦
        if any (equal (lit ".netrc")) (split b'/' path)
        then some (lit "any .netrc file")
        else if ends_with path (lit "/.docker/config.json")
        then some (lit "any .docker/config.json file")
        else none
  ]
]

pub data PathError : Type 0 where
  not_absolute outside_allow_list invalid_utf8 empty : PathError
  blocked_by_deny_list resolve_failed : Text → PathError

-- `Vec::pop`
unfoldable pub pop : List Text → List Text
pop [] = []
pop (x ∷ []) = []
pop (x ∷ y ∷ xs) = x ∷ pop (y ∷ xs)

-- The filter in front of the loop.
abbrev pub keep_segment : Text → Bool
keep_segment s = not (is_empty s) && not (equal s (lit "."))

-- The loop over the segments.
unfoldable pub resolve : List Text → List Text → List Text
unfolding pop
resolve stack [] = stack
resolve stack (seg ∷ segs) =
    resolve (if equal seg (lit "..") then pop stack else stack ++ seg ∷ []) segs

-- The loop that writes the segments; the flag is `i > 0`.
unfoldable pub push_segments : Bool → Text → List Text → Text
push_segments later s [] = s
push_segments later s (seg ∷ segs) =
    push_segments true ((if later then s ++ b'/' ∷ [] else s) ++ seg) segs

unfoldable pub normalize : Text → Text
unfolding resolve push_segments
normalize path =
    let stack = resolve [] (filterb keep_segment (split b'/' path)) in
    let s = push_segments false (b'/' ∷ []) stack in
    if ends_with path (b'/' ∷ []) && not (is_empty stack) then s ++ b'/' ∷ [] else s

unfoldable pub is_allowed : Text → Bool
is_allowed path = any (starts_with path) allow_prefixes

-- The deny-list, then the allow-list; `origin` is what is added to the reason.
unfoldable pub judge {ℓ} : {A : Type ℓ} → Text → Text → A → Result PathError A
judge path origin a = elim (denied_path path) [
  | some reason ↦ err (blocked_by_deny_list (reason ++ origin))
  | none ↦ if not (is_allowed path) then err outside_allow_list else ok a
]

unfoldable pub check : Text → Result PathError Text
check path =
    if is_empty path
    then err empty
    else if not (starts_with path (b'/' ∷ []))
    then err not_absolute
    else if contains_char 0 path
    then err invalid_utf8
    else let s = normalize path in judge (to_ascii_lowercase s) [] s
