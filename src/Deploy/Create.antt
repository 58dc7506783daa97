-- ===== src/Deploy/Create.antt =====
-- What `create_container` and `create_service` of src/deploy.rs report.
use shellfleet_agent.Common.{
  ◌≡◌, ◌≢◌, ◌⊎◌, inl, inr, true, false, ◌||◌, List, none, is_empty, Text, lit, trim, Output, Runner,
  ok, Bool-cases, Result-cases, arith,
}
use shellfleet_agent.Deploy.{
  ContainerSpec, ServiceSpec, container_args, service_args, Created, created, create_container,
  create_service, last_line, first_full_line,
}

-- A reply that claims success has no error and comes from a run of the arguments that succeeded;
-- any other reply has an error and no id.
abbrev pub IsHonest : Runner → List Text → Created → Type 0
IsHonest run args c =
    ((c.success ≡ true)
      × (c.error ≡ none)
      × ((output : Output) × (run (lit "docker") args ≡ ok output) × (output.success ≡ true)))
    ⊎ ((c.success ≡ false) × (c.error ≢ none) × (c.id ≡ none))

created-IsHonest :
    (run : Runner) (args : List Text) (pick : List Text → Text) (output : Output)
    → run (lit "docker") args ≡ ok output
    → IsHonest run args (created pick output)
unfolding created
created-IsHonest run args pick output e = elim (Bool-cases output.success) [
  | inl s ↦ inl (s, ground (arith, s), (output, e, s))
  | inr s ↦ inr (s, ground (arith, s), ground (arith, s))
]

create_container-IsHonest :
    (run : Runner) (spec : ContainerSpec)
    → IsHonest run (container_args spec) (create_container run spec)
unfolding create_container
create_container-IsHonest run spec = elim (Bool-cases (is_empty (trim spec.image))) [
  | inl e ↦ inr (ground (arith, e), ground (arith, e), ground (arith, e))
  | inr e ↦ elim (Result-cases (run (lit "docker") (container_args spec))) [
    | inr (t, r) ↦ inr (ground (arith, e, r), ground (arith, e, r), ground (arith, e, r))
    | inl (output, r) ↦
        let same : create_container run spec ≡ created last_line output = ground (arith, e, r) in
        rw same (created-IsHonest run (container_args spec) last_line output r)
  ]
]

create_service-IsHonest :
    (run : Runner) (service : ServiceSpec)
    → IsHonest run (service_args service) (create_service run service)
unfolding create_service
create_service-IsHonest run service =
    elim (Bool-cases (is_empty (trim service.image) || is_empty (trim service.name))) [
      | inl e ↦ inr (ground (arith, e), ground (arith, e), ground (arith, e))
      | inr e ↦ elim (Result-cases (run (lit "docker") (service_args service))) [
        | inr (t, r) ↦ inr (ground (arith, e, r), ground (arith, e, r), ground (arith, e, r))
        | inl (output, r) ↦
            let same : create_service run service ≡ created first_full_line output =
              ground (arith, e, r) in
            rw same (created-IsHonest run (service_args service) first_full_line output r)
      ]
    ]

-- What `create_container` and `create_service` report is honest, whatever `docker` does: success
-- and no error only after a run of the request's arguments that succeeded, and else an error and
-- no id.
create-IsHonest :
    (run : Runner) (spec : ContainerSpec) (service : ServiceSpec)
    → IsHonest run (container_args spec) (create_container run spec)
      × IsHonest run (service_args service) (create_service run service)
create-IsHonest run spec service =
    (create_container-IsHonest run spec, create_service-IsHonest run service)
