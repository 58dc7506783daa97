-- ===== src/Host/Backup.antt =====
-- src/backup.rs: the paths that a backup or a restore may touch.
pub mod Run
pub mod Confined
mod Tests
use shellfleet_agent.Common.{
  ◌≡◌, ◌⊎◌, inl, inr, refl, ap, Bool, true, false, not, ◌&&◌, List, [], ◌∷◌, ◌++◌, Option, none,
  some, if◌then◌else◌, is_empty, equal, equal_iff, any, map, filterb, Text, lit, trim, split,
  Bool-cases, Option-cases, arith, All, All-append,
}

-- `std::path::Component`, less the prefixes of Windows; a path is the list of its components.
pub data Component : Type 0 where
  root_dir cur_dir parent_dir : Component
  normal : Text → Component

abbrev pub FilePath : Type 0
FilePath = List Component

unfoldable pub same_component : Component → Component → Bool
same_component root_dir root_dir = true
same_component cur_dir cur_dir = true
same_component parent_dir parent_dir = true
same_component (normal a) (normal b) = equal a b
same_component _ _ = false

-- `PathBuf::pop`: the root has no parent.
unfoldable pub pop : FilePath → FilePath
pop [] = []
pop (root_dir ∷ []) = root_dir ∷ []
pop (cur_dir ∷ []) = []
pop (parent_dir ∷ []) = []
pop (normal s ∷ []) = []
pop (c ∷ d ∷ rest) = c ∷ pop (d ∷ rest)

-- The match on a component; pushing the root replaces the path.
unfoldable pub normalize_step : FilePath → Component → FilePath
normalize_step out parent_dir = pop out
normalize_step out cur_dir = out
normalize_step out root_dir = root_dir ∷ []
normalize_step out (normal s) = out ++ normal s ∷ []

unfoldable pub normalize_from : FilePath → FilePath → FilePath
normalize_from out [] = out
normalize_from out (comp ∷ rest) = normalize_from (normalize_step out comp) rest

unfoldable pub normalize_lexical : FilePath → FilePath
normalize_lexical p = normalize_from [] p

-- `Path::path_starts_with`
unfoldable pub path_starts_with : FilePath → FilePath → Bool
path_starts_with p [] = true
path_starts_with [] (r ∷ rs) = false
path_starts_with (c ∷ p) (r ∷ rs) = same_component c r && path_starts_with p rs

-- `canonicalize` is a parameter: `none` is its error.
module _ (canonicalize : FilePath → Option FilePath) where
  -- `r.canonicalize().unwrap_or_else(|_| normalize_lexical(r))`
  unfoldable pub canonical_root : FilePath → FilePath
  canonical_root r = elim (canonicalize r) [ none ↦ normalize_lexical r | some c ↦ c ]

  unfoldable pub canonical_ok : FilePath → List FilePath → Bool
  canonical_ok p roots = elim (canonicalize p) [
    | none ↦ true
    | some canon ↦ any (λ r. path_starts_with canon (canonical_root r)) roots
  ]

  unfoldable pub within_roots : FilePath → List FilePath → Bool
  within_roots p roots =
      if any (λ r. path_starts_with (normalize_lexical p) (normalize_lexical r)) roots
      then canonical_ok p roots
      else false

-- `DEFAULT_BACKUP_ROOTS`
unfoldable pub default_backup_roots : List Text
default_backup_roots = lit "/var/lib/shellfleet" ∷ lit "/var/backups/shellfleet" ∷ []

unfoldable pub split_roots : Text → List Text
split_roots raw = filterb (λ s. not (is_empty s)) (map trim (split b':' raw))

unfoldable pub configured_backup_roots : Option Text → List Text
configured_backup_roots none = default_backup_roots
configured_backup_roots (some raw) =
    if is_empty (split_roots raw) then default_backup_roots else split_roots raw

-- A component that names something: the root or a normal one.
abbrev pub IsPlain : Component → Type 0
IsPlain root_dir = Unit
IsPlain cur_dir = ⊥
IsPlain parent_dir = ⊥
IsPlain (normal s) = Unit

-- One path lies below another: the components of the second start it.
abbrev pub IsBelow : FilePath → FilePath → Type 0
IsBelow p r = (rest : FilePath) × (p ≡ r ++ rest)

-- A root of the list below which a path lies, after the change that `f` makes to the root.
abbrev pub BelowOne : (FilePath → FilePath) → FilePath → List FilePath → Type 0
BelowOne f p [] = ⊥
BelowOne f p (r ∷ rs) = IsBelow p (f r) ⊎ BelowOne f p rs

same_component-eq : (c d : Component) → same_component c d ≡ true → c ≡ d
unfolding same_component
same_component-eq root_dir root_dir h = refl
same_component-eq cur_dir cur_dir h = refl
same_component-eq parent_dir parent_dir h = refl
same_component-eq (normal a) (normal b) h = ap normal ((equal_iff a b).0 h)
same_component-eq _ _ h = cc

path_starts_with-IsBelow : (p r : FilePath) → path_starts_with p r ≡ true → IsBelow p r
unfolding path_starts_with
path_starts_with-IsBelow p [] h = (p, refl)
path_starts_with-IsBelow [] (r ∷ rs) h = cc
path_starts_with-IsBelow (c ∷ p) (r ∷ rs) h =
    let (a, b) : (same_component c r ≡ true) × (path_starts_with p rs ≡ true) = ground arith in
    let (rest, e) = path_starts_with-IsBelow p rs b in
    let k = same_component-eq c r a in (rest, rw (k, e) refl)

any-BelowOne :
    (f : FilePath → FilePath) (p : FilePath) (rs : List FilePath)
    → any (λ r. path_starts_with p (f r)) rs ≡ true
    → BelowOne f p rs
any-BelowOne f p [] h = cc
any-BelowOne f p (r ∷ rs) h = elim (Bool-cases (path_starts_with p (f r))) [
  | inl e ↦ inl (path_starts_with-IsBelow p (f r) e)
  | inr e ↦ inr (any-BelowOne f p rs (ground (arith, e)))
]

pop-All : (p : FilePath) → All IsPlain p → All IsPlain (pop p)
unfolding pop
pop-All [] h = tt
pop-All (root_dir ∷ []) h = h
pop-All (cur_dir ∷ []) h = tt
pop-All (parent_dir ∷ []) h = tt
pop-All (normal s ∷ []) h = tt
pop-All (c ∷ d ∷ rest) h = (h.0, pop-All (d ∷ rest) h.1)

normalize_from-All : (out p : FilePath) → All IsPlain out → All IsPlain (normalize_from out p)
unfolding normalize_from normalize_step
normalize_from-All out [] h = h
normalize_from-All out (parent_dir ∷ rest) h = normalize_from-All (pop out) rest (pop-All out h)
normalize_from-All out (cur_dir ∷ rest) h = normalize_from-All out rest h
normalize_from-All out (root_dir ∷ rest) h = normalize_from-All (root_dir ∷ []) rest (tt, tt)
normalize_from-All out (normal s ∷ rest) h =
    normalize_from-All (out ++ normal s ∷ []) rest
      (All-append IsPlain out (normal s ∷ []) h (tt, tt))

normalized_All : (p : FilePath) → All IsPlain (normalize_lexical p)
unfolding normalize_lexical
normalized_All p = normalize_from-All [] p tt

-- A path that `within_roots` accepts normalizes to one without `.` and `..` that lies below a
-- normalized root; and where the path exists, its resolved form lies below a resolved root.
pub within_roots-BelowOne :
    (canonicalize : FilePath → Option FilePath) (p : FilePath) (roots : List FilePath)
    → within_roots canonicalize p roots ≡ true
    → All IsPlain (normalize_lexical p)
      × BelowOne normalize_lexical (normalize_lexical p) roots
      × ((canonicalize p ≡ none)
          ⊎ ((canon : FilePath) × (canonicalize p ≡ some canon)
              × BelowOne (canonical_root canonicalize) canon roots))
unfolding within_roots canonical_ok
within_roots-BelowOne canonicalize p roots h =
    let (a, b) : (any (λ r. path_starts_with (normalize_lexical p) (normalize_lexical r)) roots
          ≡ true)
        × (canonical_ok canonicalize p roots ≡ true) =
      ground arith in
    (
      normalized_All p,
      any-BelowOne normalize_lexical (normalize_lexical p) roots a,
      elim (Option-cases (canonicalize p)) [
        | inl n ↦ inl n
        | inr (canon, e) ↦ inr (
          canon,
          e,
          any-BelowOne (canonical_root canonicalize) canon roots (ground (arith, e, b)),
        )
      ],
    )

filterb-All : (ts : List Text) → All (λ r. is_empty r ≡ false) (filterb (λ s. not (is_empty s)) ts)
filterb-All [] = tt
filterb-All ([] ∷ ts) = filterb-All ts
filterb-All ((c ∷ s) ∷ ts) = (refl, filterb-All ts)

split_roots-All : (raw : Text) → All (λ r. is_empty r ≡ false) (split_roots raw)
unfolding split_roots
split_roots-All raw = filterb-All (map trim (split b':' raw))

-- The configured roots are never an empty list, and none of them is the empty path, which would
-- start every path.
configured_backup_roots-All :
    (raw : Option Text)
    → (is_empty (configured_backup_roots raw) ≡ false)
      × All (λ r. is_empty r ≡ false) (configured_backup_roots raw)
unfolding configured_backup_roots default_backup_roots
configured_backup_roots-All none = (refl, (refl, (refl, tt)))
configured_backup_roots-All (some raw) = elim (Bool-cases (is_empty (split_roots raw))) [
  | inl e ↦ rw e (refl, (refl, (refl, tt)))
  | inr e ↦ rw e (e, split_roots-All raw)
]
