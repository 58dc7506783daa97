-- ===== src/Config/Normal.antt =====
-- The form of the paths that `check` accepts, and that a second check changes nothing.
use mathlib.Core.Bool.{false≢true}
use shellfleet_agent.Common.{
  ℕ, ◌≡◌, refl, sym, ap, ap₂, ◌∙◌, Bool, true, false, not, ◌&&◌, ◌||◌, List, [], ◌∷◌, ◌++◌,
  append_assoc, append-nil, arith, if◌then◌else◌, is_empty, filterb, equal, All, All-append, none,
  subst, Bool-cases, inl, inr, ok, Text, lit, starts_with, ends_with, contains_char, split,
  onto_first, to_ascii_lowercase, lower, ◌==◌,
}
use shellfleet_agent.Config.{
  is_allowed, keep_segment, pop, resolve, push_segments, normalize, judge, check, denied_path,
}

-- A segment of a normal path.
pub record IsSegment (s : Text) : Type 0 where
  pub no_slash : contains_char b'/' s ≡ false
  pub no_nul : contains_char 0 s ≡ false
  pub kept : keep_segment s ≡ true
  pub no_parent : equal s (lit "..") ≡ false

-- Each segment behind a slash.
abbrev pub slashed : List Text → Text
slashed [] = []
slashed (x ∷ xs) = b'/' ∷ (x ++ slashed xs)

push_segments-slashed : (xs : List Text) (s : Text) → push_segments true s xs ≡ s ++ slashed xs
unfolding push_segments
push_segments-slashed [] s = sym (append-nil s)
push_segments-slashed (x ∷ xs) s =
    push_segments-slashed xs ((s ++ b'/' ∷ []) ++ x) ∙ simp append_assoc

pop-IsSegment : (xs : List Text) → All IsSegment xs → All IsSegment (pop xs)
unfolding pop
pop-IsSegment [] h = tt
pop-IsSegment (x ∷ []) h = tt
pop-IsSegment (x ∷ y ∷ xs) h = (h.0, pop-IsSegment (y ∷ xs) h.1)

-- What `split` and the filter leave of a path with no NUL.
record IsPiece (s : Text) : Type 0 where
  no_slash : contains_char b'/' s ≡ false
  no_nul : contains_char 0 s ≡ false

onto_first-IsPiece :
    (c : ℕ) (ps : List Text)
    → (c == b'/') ≡ false
    → (c == 0) ≡ false
    → All IsPiece ps
    → All IsPiece (onto_first c ps)
onto_first-IsPiece c [] s z h = ground arith
onto_first-IsPiece c (p ∷ ps) s z h = ground arith

split-IsPiece : (s : Text) → contains_char 0 s ≡ false → All IsPiece (split b'/' s)
split-IsPiece [] h = ground arith
split-IsPiece (c ∷ s) h = elim (Bool-cases (c == b'/')) [
  | inl e ↦ rw e (ground (arith, split-IsPiece s))
  | inr e ↦
      rw e (onto_first-IsPiece c (split b'/' s) e (ground arith) (split-IsPiece s (ground arith)))
]

resolve_step-IsSegment :
    (stack : List Text) (seg : Text)
    → IsPiece seg
    → keep_segment seg ≡ true
    → All IsSegment stack
    → All IsSegment (if equal seg (lit "..") then pop stack else stack ++ seg ∷ [])
resolve_step-IsSegment stack seg p k h = elim (Bool-cases (equal seg (lit ".."))) [
  | inl up ↦ rw up (pop-IsSegment stack h)
  | inr down ↦ rw down (
      All-append IsSegment stack (seg ∷ []) h
        (record { no_slash = p.no_slash; no_nul = p.no_nul; kept = k; no_parent = down }, tt))
]

resolve-IsSegment :
    (segs stack : List Text)
    → All IsPiece segs
    → All IsSegment stack
    → All IsSegment (resolve stack (filterb keep_segment segs))
unfolding resolve
resolve-IsSegment [] stack p h = h
resolve-IsSegment (seg ∷ segs) stack p h = elim (Bool-cases (keep_segment seg)) [
  | inr e ↦ rw e (resolve-IsSegment segs stack p.1 h)
  | inl e ↦ rw e (resolve-IsSegment segs _ p.1 (resolve_step-IsSegment stack seg p.0 e h))
]

-- A normal path: `/` alone, or segments behind slashes with a slash at the end or not.
abbrev pub slash_if : Bool → Text
slash_if b = if b then b'/' ∷ [] else []

pub record IsNormal (s : Text) : Type 0 where
  pub first : Text
  pub others : List Text
  pub trailing : Bool
  pub segments : All IsSegment (first ∷ others)
  pub spelled : s ≡ slashed (first ∷ others) ++ slash_if trailing

abbrev stack_of : Text → List Text
stack_of path = resolve [] (filterb keep_segment (split b'/' path))

-- What `normalize` writes for a stack.
abbrev spell : Bool → List Text → Text
spell t [] = b'/' ∷ []
spell t (x ∷ xs) = slashed (x ∷ xs) ++ slash_if t

normalize-spell :
    (path : Text) → normalize path ≡ spell (ends_with path (b'/' ∷ [])) (stack_of path)
unfolding normalize
normalize-spell path = go (stack_of path)
  where
    go :
        (stack : List Text)
        → (let s = push_segments false (b'/' ∷ []) stack in
            if ends_with path (b'/' ∷ []) && not (is_empty stack) then s ++ b'/' ∷ [] else s)
          ≡ spell (ends_with path (b'/' ∷ [])) stack
    go [] = elim (Bool-cases (ends_with path (b'/' ∷ []))) [ inl e ↦ rw e | inr e ↦ rw e ]
    go (x ∷ xs) = elim (Bool-cases (ends_with path (b'/' ∷ []))) [
      | inl e ↦ rw (e, push_segments-slashed xs)
      | inr e ↦ rw (e, push_segments-slashed xs, append-nil)
    ]

pub split-segment :
    (x r : Text) (rest : List Text)
    → contains_char b'/' x ≡ false
    → split b'/' r ≡ [] ∷ rest
    → split b'/' (x ++ r) ≡ x ∷ rest
split-segment [] r rest h e = e
split-segment (c ∷ x) r rest h e = ground (arith, split-segment x r rest)

-- What stands between the first slash and the end.
split-slashed :
    (xs : List Text) (t : Bool)
    → All IsSegment xs
    → split b'/' (slashed xs ++ slash_if t) ≡ [] ∷ (xs ++ (if t then [] ∷ [] else []))
split-slashed [] true h = refl
split-slashed [] false h = refl
split-slashed (x ∷ xs) t h =
    ap (λ l. [] ∷ l)
      (ap (split b'/') (append_assoc x (slashed xs) (slash_if t))
        ∙ split-segment x (slashed xs ++ slash_if t) _ h.0.no_slash (split-slashed xs t h.1))

filterb-segments :
    (xs tail : List Text)
    → All IsSegment xs
    → filterb keep_segment (xs ++ tail) ≡ xs ++ filterb keep_segment tail
filterb-segments [] tail h = refl
filterb-segments (x ∷ xs) tail h = rw h.0.kept (ap (◌∷◌ x) (filterb-segments xs tail h.1))

resolve-segments : (xs stack : List Text) → All IsSegment xs → resolve stack xs ≡ stack ++ xs
unfolding resolve
resolve-segments [] stack h = sym (append-nil stack)
resolve-segments (x ∷ xs) stack h =
    rw (h.0.no_parent, resolve)
      (resolve-segments xs (stack ++ x ∷ []) h.1 ∙ append_assoc stack (x ∷ []) xs)

stack_of-spelled :
    (xs : List Text) (t : Bool) → All IsSegment xs → stack_of (slashed xs ++ slash_if t) ≡ xs
stack_of-spelled xs t h =
    ap (λ l. resolve [] (filterb keep_segment l)) (split-slashed xs t h)
    ∙ ap (resolve []) (filterb-segments xs (if t then [] ∷ [] else []) h ∙ tail t)
    ∙ resolve-segments xs [] h
  where
    tail : (b : Bool) → xs ++ filterb keep_segment (if b then [] ∷ [] else []) ≡ xs
    tail true = append-nil xs
    tail false = append-nil xs

ends_with-cons :
    (c b : ℕ) (s : Text) → is_empty s ≡ false → ends_with (c ∷ s) (b ∷ []) ≡ ends_with s (b ∷ [])
ends_with-cons c b [] h = cc
ends_with-cons c b (d ∷ s) h = ground arith

ends_with-append :
    (x r : Text) → is_empty r ≡ false → ends_with (x ++ r) (b'/' ∷ []) ≡ ends_with r (b'/' ∷ [])
ends_with-append [] r h = refl
ends_with-append (c ∷ []) r h = ends_with-cons c b'/' r h
ends_with-append (c ∷ d ∷ x) r h =
    ends_with-cons c b'/' (d ∷ (x ++ r)) refl ∙ ends_with-append (d ∷ x) r h

ends_with-no_slash : (x : Text) → contains_char b'/' x ≡ false → ends_with x (b'/' ∷ []) ≡ false
ends_with-no_slash [] h = refl
ends_with-no_slash (c ∷ []) h = ground arith
ends_with-no_slash (c ∷ d ∷ x) h = ground (arith, ends_with-no_slash (d ∷ x))

IsSegment-ne_nil : (x : Text) → IsSegment x → is_empty x ≡ false
IsSegment-ne_nil [] h = absurd (false≢true h.kept)
IsSegment-ne_nil (c ∷ x) h = refl

ends_with-slashed :
    (x : Text) (xs : List Text) (t : Bool)
    → All IsSegment (x ∷ xs)
    → ends_with (slashed (x ∷ xs) ++ slash_if t) (b'/' ∷ []) ≡ t
ends_with-slashed x xs true h = ends_with-append (slashed (x ∷ xs)) (b'/' ∷ []) refl
ends_with-slashed x [] false h =
    ap (λ s. ends_with (b'/' ∷ s) (b'/' ∷ [])) {x = (x ++ []) ++ []} {y = x} (simp append-nil)
    ∙ ends_with-cons b'/' b'/' x (IsSegment-ne_nil x h.0)
    ∙ ends_with-no_slash x h.0.no_slash
ends_with-slashed x (y ∷ ys) false h =
    ap (λ s. ends_with (b'/' ∷ s) (b'/' ∷ [])) (append_assoc x (slashed (y ∷ ys)) [])
    ∙ ends_with-append (b'/' ∷ x) (slashed (y ∷ ys) ++ []) refl
    ∙ ends_with-slashed y ys false h.1

contains_char-append :
    (c : ℕ) (x r : Text) → contains_char c (x ++ r) ≡ (contains_char c x || contains_char c r)
contains_char-append c [] r = refl
contains_char-append c (d ∷ x) r = ground (arith, contains_char-append c x r)

contains_nul-slashed :
    (xs : List Text) (t : Bool)
    → All IsSegment xs
    → contains_char 0 (slashed xs ++ slash_if t) ≡ false
contains_nul-slashed [] true h = refl
contains_nul-slashed [] false h = refl
contains_nul-slashed (x ∷ xs) t h =
    ap (contains_char 0) (append_assoc x (slashed xs) (slash_if t))
    ∙ contains_char-append 0 x (slashed xs ++ slash_if t)
    ∙ ground (arith, h.0.no_nul, contains_nul-slashed xs t h.1)

normalize-spelled :
    (x : Text) (xs : List Text) (t : Bool)
    → All IsSegment (x ∷ xs)
    → let s = slashed (x ∷ xs) ++ slash_if t in normalize s ≡ s
normalize-spelled x xs t h =
    normalize-spell (slashed (x ∷ xs) ++ slash_if t)
    ∙ ap₂ spell (ends_with-slashed x xs t h) (stack_of-spelled (x ∷ xs) t h)

pub judge-eq_ok {ℓ} :
    {A : Type ℓ} (path origin : Text) (a : A) {b : A}
    → judge path origin a ≡ ok b
    → (denied_path path ≡ none) × (is_allowed path ≡ true) × (a ≡ b)
unfolding judge
judge-eq_ok path origin a h = ground arith

-- What the guards of `check` establish.
pub record Checked (path s : Text) : Type 0 where
  pub absolute : starts_with path (b'/' ∷ []) ≡ true
  pub no_nul : contains_char 0 path ≡ false
  pub normal : normalize path ≡ s
  pub not_denied : denied_path (to_ascii_lowercase s) ≡ none
  pub allowed : is_allowed (to_ascii_lowercase s) ≡ true

pub check-Checked : (path : Text) {s : Text} → check path ≡ ok s → Checked path s
unfolding check
check-Checked path {s} h =
    ground (arith, judge-eq_ok (to_ascii_lowercase (normalize path)) [] (normalize path) {b = s})

pub judge_pass {ℓ} :
    {A : Type ℓ} (path origin : Text) (a : A)
    → denied_path path ≡ none
    → is_allowed path ≡ true
    → judge path origin a ≡ ok a
unfolding judge
judge_pass path origin a d p = ground arith

Checked-check : {path s : Text} → is_empty path ≡ false → Checked path s → check path ≡ ok s
unfolding check
Checked-check {s} e c =
    rw (e, c.absolute, c.no_nul, c.normal)
      (judge_pass (to_ascii_lowercase s) [] s c.not_denied c.allowed)

IsNormal-spell :
    (t : Bool) (stack : List Text) {s : Text}
    → All IsSegment stack
    → s ≡ spell t stack
    → is_allowed (to_ascii_lowercase s) ≡ true
    → IsNormal s
unfolding is_allowed lower
IsNormal-spell t [] h e a = absurd (false≢true (rw e at a))
IsNormal-spell t (x ∷ xs) h e a = record {
  first = x;
  others = xs;
  trailing = t;
  segments = h;
  spelled = e;
}

pub check-IsNormal : (path : Text) {s : Text} → check path ≡ ok s → IsNormal s
check-IsNormal path h =
    let c = check-Checked path h in
    IsNormal-spell (ends_with path (b'/' ∷ [])) (stack_of path)
      (resolve-IsSegment (split b'/' path) [] (split-IsPiece path c.no_nul) tt)
      (sym c.normal ∙ normalize-spell path) c.allowed

normal_form :
    {s : Text}
    → IsNormal s
    → (is_empty s ≡ false)
      × (starts_with s (b'/' ∷ []) ≡ true)
      × (contains_char 0 s ≡ false)
      × (normalize s ≡ s)
normal_form {s} n =
    subst
      (λ r.
        (is_empty r ≡ false)
        × (starts_with r (b'/' ∷ []) ≡ true)
        × (contains_char 0 r ≡ false)
        × (normalize r ≡ r))
      (sym n.spelled)
      (
        refl,
        refl,
        contains_nul-slashed (n.first ∷ n.others) n.trailing n.segments,
        normalize-spelled n.first n.others n.trailing n.segments,
      )

-- The path that `check` returns is accepted again, and stays as it is.
check-idempotent : (path : Text) {s : Text} → check path ≡ ok s → check s ≡ ok s
check-idempotent path h =
    let c = check-Checked path h in
    let (e, a, z, f) = normal_form (check-IsNormal path h) in
    Checked-check e (record {
      absolute = a;
      no_nul = z;
      normal = f;
      not_denied = c.not_denied;
      allowed = c.allowed;
    })
