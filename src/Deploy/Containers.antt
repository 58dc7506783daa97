-- ===== src/Deploy/Containers.antt =====
-- What a reader of options takes from the arguments of `create_container`.
use shellfleet_agent.Common.{
  Bool, true, false, not, List, [], ◌∷◌, ◌++◌, Option, none, some, if◌then◌else◌, Text, lit,
  filterb, one_of, starts_with, drop, ◌≡◌, ◌∙◌, ◌⊎◌, inl, inr, ap, refl, append-nil, arith,
}
use shellfleet_agent.Deploy.Flags.{
  words_behind, command_args-words_behind, Flag, CommandLine, with_flags, read_line,
  read_line-valued, read_line-switch, read_line-image, Reads, Reads-nil, Reads-before,
  Reads-each_arg, Reads-some_arg, values, flags_of, optional,
}
use shellfleet_agent.Deploy.{ContainerSpec, restart_arg, command_args, container_args}

-- The options of `docker run` that the source writes.
abbrev pub run_switches : List Text
run_switches = lit "-d" ∷ []

abbrev pub run_valued : List Text
run_valued =
    lit "--name"
    ∷ lit "-p"
    ∷ lit "-e"
    ∷ lit "-v"
    ∷ lit "--restart"
    ∷ lit "--network"
    ∷ lit "--pull"
    ∷ []

-- What a container's specification asks for, option by option.
unfoldable pub restart_flags : Option Text → List Flag
restart_flags policy =
    filterb (λ f. not (one_of (lit "no" ∷ []) (elim f.1 [ none ↦ [] | some v ↦ v ])))
      (flags_of (lit "--restart") (optional policy))

unfoldable pub run_flags : ContainerSpec → List Flag
run_flags spec =
    (if spec.detached then (lit "-d", none) ∷ [] else [])
    ++ (flags_of (lit "--name") (optional spec.name)
        ++ (flags_of (lit "-p") spec.ports
            ++ (flags_of (lit "-e") spec.env
                ++ (flags_of (lit "-v") spec.volumes
                    ++ (restart_flags spec.restart_policy
                        ++ (flags_of (lit "--network") (optional spec.network)
                            ++ (if spec.pull
                                then (lit "--pull", some (lit "always")) ∷ []
                                else [])))))))

Reads-detached :
    (b : Bool)
    → Reads run_switches run_valued
        (if b then lit "-d" ∷ [] else [])
        (if b then (lit "-d", none) ∷ [] else [])
Reads-detached true rest = read_line-switch run_switches run_valued (lit "-d") rest refl refl
Reads-detached false rest = Reads-nil run_switches run_valued rest

Reads-pull :
    (b : Bool)
    → Reads run_switches run_valued
        (if b then lit "--pull" ∷ lit "always" ∷ [] else [])
        (if b then (lit "--pull", some (lit "always")) ∷ [] else [])
Reads-pull true rest =
    read_line-valued run_switches run_valued (lit "--pull") (lit "always") rest refl
Reads-pull false rest = Reads-nil run_switches run_valued rest

restart_arg-restart_flags :
    (policy : Option Text)
    → ((restart_arg policy ≡ []) × (restart_flags policy ≡ []))
      ⊎ ((v : Text) × (restart_arg policy ≡ lit "--restart" ∷ v ∷ [])
          × (restart_flags policy ≡ (lit "--restart", some v) ∷ []))
unfolding restart_arg restart_flags flags_of values
restart_arg-restart_flags none = inl (refl, refl)
restart_arg-restart_flags (some v) = ground arith

Reads-restart_arg :
    (policy : Option Text)
    → Reads run_switches run_valued (restart_arg policy) (restart_flags policy)
Reads-restart_arg policy rest = elim (restart_arg-restart_flags policy) [
  | inl (a, b) ↦ rw (a, b) (Reads-nil run_switches run_valued rest)
  | inr (v, a, b) ↦
      rw (a, b) (read_line-valued run_switches run_valued (lit "--restart") v rest refl)
]

one_of-dash :
    (image : Text)
    → starts_with image (lit "-") ≡ false
    → (one_of run_valued image ≡ false) × (one_of run_switches image ≡ false)
one_of-dash [] h = (refl, refl)
one_of-dash (c ∷ image) h = ground arith

before :
    (xs : List Text) (fs : List Flag) (ys : List Text) {line : CommandLine}
    → Reads run_switches run_valued xs fs
    → read_line run_switches run_valued none ys ≡ some line
    → read_line run_switches run_valued none (xs ++ ys)
      ≡ some (record line { flags = fs ++ line.flags })
before xs fs ys h k = Reads-before run_switches run_valued xs fs ys h k

pull_then_image :
    (b : Bool) (image : Text) (rest : List Text)
    → starts_with image (lit "-") ≡ false
    → read_line run_switches run_valued none
        ((if b then lit "--pull" ∷ lit "always" ∷ [] else []) ++ (image ∷ rest))
      ≡ some (record {
        flags = if b then (lit "--pull", some (lit "always")) ∷ [] else [];
        image = image;
        rest = rest;
      })
pull_then_image b image rest h =
    let (v, s) = one_of-dash image h in
    Reads-pull b (image ∷ rest)
    ∙ ap (with_flags (if b then (lit "--pull", some (lit "always")) ∷ [] else []))
        (read_line-image run_switches run_valued image rest v s h)
    ∙ ap (λ fs. some (record { flags = fs; image = image; rest = rest }))
        (append-nil (if b then (lit "--pull", some (lit "always")) ∷ [] else []))

container_line :
    (spec : ContainerSpec)
    → starts_with spec.image (lit "-") ≡ false
    → read_line run_switches run_valued none (drop 1 (container_args spec))
      ≡ some
          (record { flags = run_flags spec; image = spec.image; rest = command_args spec.command })
unfolding container_args run_flags
container_line spec h =
    let each = Reads-each_arg run_switches run_valued in
    let opt = Reads-some_arg run_switches run_valued in
    before _ _ _ (Reads-detached spec.detached) (
      before _ _ _ (opt (lit "--name") refl spec.name) (
        before _ _ _ (each (lit "-p") refl spec.ports) (
          before _ _ _ (each (lit "-e") refl spec.env) (
            before _ _ _ (each (lit "-v") refl spec.volumes) (
              before _ _ _ (Reads-restart_arg spec.restart_policy) (
                before _ _ _ (opt (lit "--network") refl spec.network)
                  (pull_then_image spec.pull spec.image (command_args spec.command) h)))))))

-- For an image that does not start with a dash, and whatever the request's other texts are: a reader
-- of `docker run [OPTIONS] IMAGE [ARG...]` takes from the arguments after `run` the options that
-- the specification asks for, in order, and no other, then the image. The words left over for the
-- container are none without a command, and else `--` and the words into which `split_command`
-- splits the command.
pub read_line-container_args :
    (spec : ContainerSpec)
    → starts_with spec.image (lit "-") ≡ false
    → read_line run_switches run_valued none (drop 1 (container_args spec))
      ≡ some
          (record { flags = run_flags spec; image = spec.image; rest = words_behind spec.command })
read_line-container_args spec h =
    container_line spec h
    ∙ ap (λ words. some (record { flags = run_flags spec; image = spec.image; rest = words }))
        (command_args-words_behind spec.command)
