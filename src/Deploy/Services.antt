-- ===== src/Deploy/Services.antt =====
-- What a reader of options takes from the arguments of `create_service`.
use shellfleet_agent.Common.{
  ℕ, false, List, [], ◌∷◌, ◌++◌, Option, none, some, if◌then◌else◌, Text, lit, trim, one_of,
  starts_with, equal, drop, to_decimal, ◌≡◌, ◌∙◌, ◌⊎◌, inl, inr, ap, refl, append-nil, arith,
  Bool-cases,
}
use shellfleet_agent.Deploy.Flags.{
  words_behind, command_args-words_behind, Flag, CommandLine, with_flags, read_line,
  read_line-valued, read_line-switch, read_line-image, Reads, Reads-nil, Reads-append, Reads-before,
  Reads-each_arg, Reads-some_arg, flags_of, optional,
}
use shellfleet_agent.Deploy.{ServiceSpec, some_arg, replicas_arg, command_args, service_args}

-- The options of `docker service create` that the source writes.
abbrev pub service_switches : List Text
service_switches = lit "--detach=true" ∷ []

abbrev pub service_valued : List Text
service_valued =
    lit "--name"
    ∷ lit "--mode"
    ∷ lit "--replicas"
    ∷ lit "--publish"
    ∷ lit "--env"
    ∷ lit "--mount"
    ∷ lit "--constraint"
    ∷ lit "--network"
    ∷ lit "--restart-condition"
    ∷ []

-- What a service's specification asks for, option by option.
abbrev text_or_empty : Option Text → Text
text_or_empty none = []
text_or_empty (some t) = t

unfoldable pub replicas_flags : Option Text → Option ℕ → List Flag
replicas_flags mode none = []
replicas_flags mode (some n) =
    if equal (text_or_empty mode) (lit "global")
    then []
    else (lit "--replicas", some (to_decimal n)) ∷ []

unfoldable pub service_flags : ServiceSpec → List Flag
service_flags spec =
    (lit "--detach=true", none)
    ∷ (lit "--name", some (trim spec.name))
    ∷ (flags_of (lit "--mode") (optional spec.mode)
        ++ (replicas_flags spec.mode spec.replicas
            ++ (flags_of (lit "--publish") spec.ports
                ++ (flags_of (lit "--env") spec.env
                    ++ (flags_of (lit "--mount") spec.mounts
                        ++ (flags_of (lit "--constraint") spec.constraints
                            ++ (flags_of (lit "--network") spec.networks
                                ++ flags_of (lit "--restart-condition")
                                    (optional spec.restart_condition))))))))

one_of-dash :
    (image : Text)
    → starts_with image (lit "-") ≡ false
    → (one_of service_valued image ≡ false) × (one_of service_switches image ≡ false)
one_of-dash [] h = (refl, refl)
one_of-dash (c ∷ image) h = ground arith

before :
    (xs : List Text) (fs : List Flag) (ys : List Text) {line : CommandLine}
    → Reads service_switches service_valued xs fs
    → read_line service_switches service_valued none ys ≡ some line
    → read_line service_switches service_valued none (xs ++ ys)
      ≡ some (record line { flags = fs ++ line.flags })
before xs fs ys h k = Reads-before service_switches service_valued xs fs ys h k

replicas_arg-cases :
    (mode : Option Text) (replicas : Option ℕ)
    → ((replicas_arg mode replicas ≡ []) × (replicas_flags mode replicas ≡ []))
      ⊎ ((v : Text) × (replicas_arg mode replicas ≡ lit "--replicas" ∷ v ∷ [])
          × (replicas_flags mode replicas ≡ (lit "--replicas", some v) ∷ []))
unfolding replicas_arg replicas_flags
replicas_arg-cases mode none = inl (refl, refl)
replicas_arg-cases none (some n) = inr (to_decimal n, refl, refl)
replicas_arg-cases (some mode) (some n) = elim (Bool-cases (equal mode (lit "global"))) [
  | inl e ↦ inl (ground (arith, e), ground (arith, e))
  | inr e ↦ inr (to_decimal n, ground (arith, e), ground (arith, e))
]

Reads-replicas_arg :
    (mode : Option Text) (replicas : Option ℕ)
    → Reads service_switches service_valued
        (replicas_arg mode replicas)
        (replicas_flags mode replicas)
Reads-replicas_arg mode replicas rest = elim (replicas_arg-cases mode replicas) [
  | inl (a, b) ↦ rw (a, b) (Reads-nil service_switches service_valued rest)
  | inr (v, a, b) ↦
      rw (a, b) (read_line-valued service_switches service_valued (lit "--replicas") v rest refl)
]

Reads-start :
    (name : Text)
    → Reads service_switches service_valued
        (lit "--detach=true" ∷ lit "--name" ∷ name ∷ [])
        ((lit "--detach=true", none) ∷ (lit "--name", some name) ∷ [])
Reads-start name =
    Reads-append service_switches service_valued (lit "--detach=true" ∷ [])
      (lit "--name" ∷ name ∷ []) ((lit "--detach=true", none) ∷ []) ((lit "--name", some name) ∷ [])
      (λ rest.
        read_line-switch service_switches service_valued (lit "--detach=true") rest refl refl)
      (λ rest. read_line-valued service_switches service_valued (lit "--name") name rest refl)

last_then_image :
    (condition : Option Text) (image : Text) (rest : List Text)
    → starts_with image (lit "-") ≡ false
    → read_line service_switches service_valued none
        (some_arg (lit "--restart-condition") condition ++ (image ∷ rest))
      ≡ some (record {
        flags = flags_of (lit "--restart-condition") (optional condition);
        image = image;
        rest = rest;
      })
last_then_image condition image rest h =
    let (v, s) = one_of-dash image h in
    let fs = flags_of (lit "--restart-condition") (optional condition) in
    Reads-some_arg service_switches service_valued (lit "--restart-condition") refl condition
      (image ∷ rest)
    ∙ ap (with_flags fs) (read_line-image service_switches service_valued image rest v s h)
    ∙ ap (λ gs. some (record { flags = gs; image = image; rest = rest })) (append-nil fs)

service_line :
    (spec : ServiceSpec)
    → starts_with spec.image (lit "-") ≡ false
    → read_line service_switches service_valued none (drop 2 (service_args spec))
      ≡ some (record {
        flags = service_flags spec;
        image = spec.image;
        rest = command_args spec.command;
      })
unfolding service_args service_flags
service_line spec h =
    let each = Reads-each_arg service_switches service_valued in
    let opt = Reads-some_arg service_switches service_valued in
    before (lit "--detach=true" ∷ lit "--name" ∷ trim spec.name ∷ [])
      ((lit "--detach=true", none) ∷ (lit "--name", some (trim spec.name)) ∷ []) _
      (Reads-start (trim spec.name))
      (before _ _ _ (opt (lit "--mode") refl spec.mode) (
        before _ _ _ (Reads-replicas_arg spec.mode spec.replicas) (
          before _ _ _ (each (lit "--publish") refl spec.ports) (
            before _ _ _ (each (lit "--env") refl spec.env) (
              before _ _ _ (each (lit "--mount") refl spec.mounts) (
                before _ _ _ (each (lit "--constraint") refl spec.constraints) (
                  before _ _ _ (each (lit "--network") refl spec.networks) (
                    last_then_image spec.restart_condition spec.image (command_args spec.command)
                      h))))))))

-- For an image that does not start with a dash, and whatever the request's other texts are: a reader
-- of `docker service create [OPTIONS] IMAGE [ARG...]` takes from the arguments after
-- `service create` the options that the specification asks for, in order, and no other, then the
-- image. The words left over for the container are none without a command, and else `--` and the
-- words into which `split_command` splits the command.
pub read_line-service_args :
    (spec : ServiceSpec)
    → starts_with spec.image (lit "-") ≡ false
    → read_line service_switches service_valued none (drop 2 (service_args spec))
      ≡ some (record {
        flags = service_flags spec;
        image = spec.image;
        rest = words_behind spec.command;
      })
read_line-service_args spec h =
    service_line spec h
    ∙ ap (λ words. some (record { flags = service_flags spec; image = spec.image; rest = words }))
        (command_args-words_behind spec.command)
