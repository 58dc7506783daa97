-- ===== src/Config/Secrets.antt =====
-- Which paths hold secrets, said without the code's tests, and that `denied_path` knows them all.
use mathlib.Core.Bool.{false≢true}
use shellfleet_agent.Common.{
  ℕ, ◌≡◌, ◌≢◌, refl, sym, ap, subst, ◌∙◌, Bool, true, false, not, List, [], ◌∷◌, ◌++◌, arith,
  if◌then◌else◌, any, find, equal, equal_iff, equal_refl, drop, Bool-cases, ◌⊎◌, inl, inr, Option,
  none, some, Text, lit, starts_with, ends_with, contains_char, split, onto_first, one_of, ◌==◌,
}
use shellfleet_agent.Config.{deny_prefixes, secret_dirs, denied_path}
use shellfleet_agent.Config.Normal.{split-segment}

-- A credential directory or file name.
abbrev pub secret_names : List Text
secret_names = lit ".netrc" ∷ secret_dirs

pub data IsSecret (t : Text) : Type 0 where
  below : (p rest : Text) → one_of deny_prefixes p ≡ true → t ≡ p ++ rest → IsSecret t
  named :
      (before name after : Text)
      → one_of secret_names name ≡ true
      → (after ≡ []) ⊎ ((rest : Text) × (after ≡ b'/' ∷ rest))
      → t ≡ before ++ b'/' ∷ (name ++ after)
      → IsSecret t
  docker : (before : Text) → t ≡ before ++ lit "/.docker/config.json" → IsSecret t

find-one_of :
    (test : Text → Bool) (l : List Text) (p : Text)
    → one_of l p ≡ true
    → test p ≡ true
    → find test l ≢ none
find-one_of test [] p h t = cc
find-one_of test (q ∷ l) p h t = elim (Bool-cases (equal p q)) [
  | inl e ↦ rw (← (equal_iff p q).0 e, t) (λ n. cc)
  | inr e ↦ ground (arith, find-one_of test l p)
]

starts_with-append : (p rest : Text) → starts_with (p ++ rest) p ≡ true
starts_with-append [] [] = refl
starts_with-append [] (c ∷ r) = refl
starts_with-append (c ∷ p) rest = ground (arith, starts_with-append p rest)

ends_with_self : (p : Text) → ends_with p p ≡ true
ends_with_self [] = refl
ends_with_self (c ∷ p) = rw equal_refl

ends_with-append : (before p : Text) → ends_with (before ++ p) p ≡ true
ends_with-append [] p = ends_with_self p
ends_with-append (c ∷ before) p = ground (arith, ends_with-append before p)

drop-onto_first : (c : ℕ) (ps : List Text) → drop 1 (onto_first c ps) ≡ drop 1 ps
drop-onto_first c [] = refl
drop-onto_first c (p ∷ ps) = refl

split_after :
    (after : Text)
    → (after ≡ []) ⊎ ((rest : Text) × (after ≡ b'/' ∷ rest))
    → (rest : List Text) × (split b'/' after ≡ [] ∷ rest)
split_after after (inl e) = ([], ap (split b'/') e)
split_after after (inr (r, e)) = (split b'/' r, ap (split b'/') e)

one_of-drop : (ps : List Text) (d : Text) → one_of (drop 1 ps) d ≡ true → one_of ps d ≡ true
one_of-drop [] d h = h
one_of-drop (p ∷ ps) d h = ground arith

-- A name between slashes is a later piece of the split.
split-named :
    (before name after : Text)
    → contains_char b'/' name ≡ false
    → (after ≡ []) ⊎ ((rest : Text) × (after ≡ b'/' ∷ rest))
    → one_of (drop 1 (split b'/' (before ++ b'/' ∷ (name ++ after)))) name ≡ true
split-named [] name after c e =
    let (rest, s) = split_after after e in
    rw (split-segment name after rest c s) (rw (equal_refl name))
split-named (x ∷ before) name after c e = elim (Bool-cases (x == b'/')) [
  | inl s ↦ rw s (
      one_of-drop (split b'/' (before ++ b'/' ∷ (name ++ after))) name
        (split-named before name after c e))
  | inr s ↦ rw (s, drop-onto_first) (split-named before name after c e)
]

-- A test that holds of every entry holds of what the list contains.
one_of-any :
    (test : Text → Bool) (l : List Text) (d : Text)
    → one_of l d ≡ true
    → any (λ p. not (test p)) l ≡ false
    → test d ≡ true
one_of-any test [] d h a = cc
one_of-any test (q ∷ l) d h a = elim (Bool-cases (equal d q)) [
  | inl e ↦ rw ((equal_iff d q).0 e) (ground arith)
  | inr e ↦ ground (arith, one_of-any test l d)
]

secret_name-no_slash : (d : Text) → one_of secret_names d ≡ true → contains_char b'/' d ≡ false
secret_name-no_slash d h =
    ground (arith, one_of-any (λ p. not (contains_char b'/' p)) secret_names d h refl)

one_of-find_pieces :
    (pieces : List Text) (d : Text)
    → one_of pieces d ≡ true
    → one_of secret_names d ≡ true
    → (find (one_of secret_dirs) pieces ≢ none) ⊎ (any (equal (lit ".netrc")) pieces ≡ true)
one_of-find_pieces pieces d h n = elim (Bool-cases (one_of secret_dirs d)) [
  | inl e ↦ inl (find-one_of (one_of secret_dirs) pieces d h e)
  | inr e ↦
      let same : d ≡ lit ".netrc" = (equal_iff d (lit ".netrc")).0 (first_name e n) in
      inr (any-one_of pieces (lit ".netrc") (subst (λ x. one_of pieces x ≡ true) same h))
]
  where
    first_name :
        one_of secret_dirs d ≡ false → one_of secret_names d ≡ true → equal d (lit ".netrc") ≡ true
    first_name f g = elim (Bool-cases (equal d (lit ".netrc"))) [
      | inl e ↦ e
      | inr e ↦ absurd (false≢true (sym f ∙ (rw e at g)))
    ]

    any-one_of : (ps : List Text) (x : Text) → one_of ps x ≡ true → any (equal x) ps ≡ true
    any-one_of [] x h = h
    any-one_of (p ∷ ps) x h = ground (arith, any-one_of ps x)

denied_none :
    (path : Text)
    → denied_path path ≡ none
    → (find (starts_with path) deny_prefixes ≡ none)
      × (find (one_of secret_dirs) (split b'/' path) ≡ none)
      × (any (equal (lit ".netrc")) (split b'/' path) ≡ false)
      × (ends_with path (lit "/.docker/config.json") ≡ false)
unfolding denied_path
denied_none path n =
    split_tests (find (starts_with path) deny_prefixes)
      (find (one_of secret_dirs) (split b'/' path)) (any (equal (lit ".netrc")) (split b'/' path))
      (ends_with path (lit "/.docker/config.json")) n
  where
    split_tests :
        (o : Option Text) (q : Option Text) (a b : Bool)
        → (elim o [
          | some prefix ↦ some prefix
          | none ↦ elim q [
            | some component ↦ some (lit "any " ++ (component ++ lit " directory"))
            | none ↦
                if a
                then some (lit "any .netrc file")
                else if b
                then some (lit "any .docker/config.json file")
                else none
          ]
        ])
          ≡ none
        → (o ≡ none) × (q ≡ none) × (a ≡ false) × (b ≡ false)
    split_tests o q a b h = ground arith

-- Every spelling of a secret is denied.
pub denied_path-IsSecret : (path : Text) → IsSecret path → denied_path path ≢ none
denied_path-IsSecret path (below p rest d e) n =
    find-one_of (starts_with path) deny_prefixes p d (rw e (starts_with-append p rest))
      (denied_none path n).0
denied_path-IsSecret path (named before name after d f e) n =
    let (a, b, c, _) = denied_none path n in
    elim (one_of-find_pieces (split b'/' path) name
      (rw e (
        one_of-drop (split b'/' (before ++ b'/' ∷ (name ++ after))) name
          (split-named before name after (secret_name-no_slash name d) f)))
      d) [ inl h ↦ h b | inr h ↦ false≢true (sym c ∙ h) ]
denied_path-IsSecret path (docker before e) n =
    false≢true
      (sym (denied_none path n).3 ∙ (rw e (ends_with-append before (lit "/.docker/config.json"))))
