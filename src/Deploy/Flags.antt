-- ===== src/Deploy/Flags.antt =====
-- What a reader of options in the manner of `docker` makes of the argument lists of src/deploy.rs.
use shellfleet_agent.Common.{
  true, false, not, List, [], ◌∷◌, ◌++◌, Option, none, some, if◌then◌else◌, is_empty, Text, lit,
  trim, map, filterb, one_of, starts_with, ◌≡◌, ◌∙◌, ap, refl, sym, append_assoc, arith, ◌⊎◌, inl,
  inr,
}
use shellfleet_agent.Deploy.{split_command, command_args, trimmed_arg, each_arg, some_arg}

-- An option and its value, if it takes one.
abbrev pub Flag : Type 0
Flag = Text × Option Text

-- `[OPTIONS] IMAGE [COMMAND]`: the options, the image and what follows it.
pub record CommandLine : Type 0 where
  pub flags : List Flag
  pub image : Text
  pub rest : List Text

abbrev pub with_flags : List Flag → Option CommandLine → Option CommandLine
with_flags fs none = none
with_flags fs (some line) = some (record line { flags = fs ++ line.flags })

-- `switches` stand alone, `valued` options take the next argument, whatever it is; another word
-- that starts with a dash is refused, and the first word that does not is the image.
module _ (switches valued : List Text) where
  unfoldable pub read_line : Option Text → List Text → Option CommandLine
  read_line pending [] = none
  read_line (some flag) (value ∷ rest) = with_flags ((flag, some value) ∷ []) (read_line none rest)
  read_line none (word ∷ rest) =
      let line = read_line (if one_of valued word then some word else none) rest in
      if one_of valued word
      then line
      else if one_of switches word
      then with_flags ((word, none) ∷ []) line
      else if starts_with word (lit "-")
      then none
      else some (record { flags = []; image = word; rest = rest })

  pub with_flags-append :
      (fs gs : List Flag) (o : Option CommandLine)
      → with_flags fs (with_flags gs o) ≡ with_flags (fs ++ gs) o
  with_flags-append fs gs none = refl
  with_flags-append fs gs (some line) =
      ap (λ l. some (record line { flags = l })) (sym (append_assoc fs gs line.flags))

  with_flags-nil : (o : Option CommandLine) → with_flags [] o ≡ o
  with_flags-nil none = refl
  with_flags-nil (some line) = refl

  pub read_line-valued :
      (flag value : Text) (rest : List Text)
      → one_of valued flag ≡ true
      → read_line none (flag ∷ value ∷ rest)
        ≡ with_flags ((flag, some value) ∷ []) (read_line none rest)
  unfolding read_line
  read_line-valued flag value rest h = ground arith

  pub read_line-switch :
      (word : Text) (rest : List Text)
      → one_of valued word ≡ false
      → one_of switches word ≡ true
      → read_line none (word ∷ rest) ≡ with_flags ((word, none) ∷ []) (read_line none rest)
  unfolding read_line
  read_line-switch word rest h k = ground arith

  pub read_line-image :
      (word : Text) (rest : List Text)
      → one_of valued word ≡ false
      → one_of switches word ≡ false
      → starts_with word (lit "-") ≡ false
      → read_line none (word ∷ rest) ≡ some (record { flags = []; image = word; rest = rest })
  unfolding read_line
  read_line-image word rest h k l = ground arith

  -- What `args` adds to the reading of the words behind them.
  abbrev pub Reads : List Text → List Flag → Type 0
  Reads args fs =
      (rest : List Text) → read_line none (args ++ rest) ≡ with_flags fs (read_line none rest)

  pub Reads-nil : Reads [] []
  Reads-nil rest = sym (with_flags-nil _)

  pub Reads-append :
      (xs ys : List Text) (fs gs : List Flag)
      → Reads xs fs
      → Reads ys gs
      → Reads (xs ++ ys) (fs ++ gs)
  Reads-append xs ys fs gs h k rest =
      ap (read_line none) (append_assoc xs ys rest)
      ∙ h (ys ++ rest)
      ∙ ap (with_flags fs) (k rest)
      ∙ with_flags-append fs gs _

  pub Reads-before :
      (xs : List Text) (fs : List Flag) (ys : List Text) {line : CommandLine}
      → Reads xs fs
      → read_line none ys ≡ some line
      → read_line none (xs ++ ys) ≡ some (record line { flags = fs ++ line.flags })
  Reads-before xs fs ys h k = h ys ∙ ap (with_flags fs) k

-- The values that an option takes from a list, and from an optional field: trimmed, not empty.
unfoldable pub values : List Text → List Text
values vs = filterb (λ v. not (is_empty v)) (map trim vs)

unfoldable pub flags_of : Text → List Text → List Flag
flags_of flag vs = map (λ v. (flag, some v)) (values vs)

abbrev pub optional {ℓ} : {A : Type ℓ} → Option A → List A
optional none = []
optional (some a) = a ∷ []

-- `trimmed_arg` by its two cases.
trimmed_arg-flags_of :
    (flag v : Text)
    → ((trimmed_arg flag v ≡ []) × (flags_of flag (v ∷ []) ≡ []))
      ⊎ ((trimmed_arg flag v ≡ flag ∷ trim v ∷ [])
          × (flags_of flag (v ∷ []) ≡ (flag, some (trim v)) ∷ []))
unfolding trimmed_arg flags_of values
trimmed_arg-flags_of flag v = ground arith

flags_of-cons :
    (flag v : Text) (vs : List Text)
    → flags_of flag (v ∷ vs) ≡ flags_of flag (v ∷ []) ++ flags_of flag vs
unfolding flags_of values
flags_of-cons flag v vs = ground arith

module _ (switches valued : List Text) (flag : Text) (h : one_of valued flag ≡ true) where
  Reads-trimmed_arg :
      (v : Text) → Reads switches valued (trimmed_arg flag v) (flags_of flag (v ∷ []))
  Reads-trimmed_arg v rest = elim (trimmed_arg-flags_of flag v) [
    | inl (a, b) ↦ rw (a, b) (Reads-nil switches valued rest)
    | inr (a, b) ↦ rw (a, b) (read_line-valued switches valued flag (trim v) rest h)
  ]

  pub Reads-each_arg :
      (vs : List Text) → Reads switches valued (each_arg flag vs) (flags_of flag vs)
  unfolding each_arg flags_of values
  Reads-each_arg [] rest = Reads-nil switches valued rest
  Reads-each_arg (v ∷ vs) rest = rw (flags_of-cons flag v vs) (
      Reads-append switches valued (trimmed_arg flag v) (each_arg flag vs) (flags_of flag (v ∷ []))
        (flags_of flag vs) (Reads-trimmed_arg v) (Reads-each_arg vs) rest)

  pub Reads-some_arg :
      (o : Option Text) → Reads switches valued (some_arg flag o) (flags_of flag (optional o))
  unfolding some_arg flags_of values
  Reads-some_arg none rest = Reads-nil switches valued rest
  Reads-some_arg (some v) rest = Reads-trimmed_arg v rest

-- What stands behind the image: nothing, or `--` and the words of the command.
abbrev pub words_behind : Option Text → List Text
words_behind none = []
words_behind (some command) = lit "--" ∷ split_command command

pub command_args-words_behind :
    (command : Option Text) → command_args command ≡ words_behind command
unfolding command_args
command_args-words_behind none = refl
command_args-words_behind (some command) = refl
