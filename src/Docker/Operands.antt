-- ===== src/Docker/Operands.antt =====
-- No text of a request becomes an option of `docker` in the operations of src/docker.rs.
use shellfleet_agent.Docker.Networks.{
  network_options, network_line, inspect_network, inspect_volume, create_network, network_args,
  subnet_args,
}
use shellfleet_agent.Common.{
  as_bytes, >>=-eq-ok, All-append, subst, ℕ, Bool, true, false, ◌||◌, List, [], ◌∷◌, ◌++◌, Option,
  none, some, Text, lit, one_of, is_ascii_alphanumeric, Runner, ok, ◌≡◌, inl, inr, All, refl,
  Result-cases, arith, to_decimal,
}
use shellfleet_agent.Docker.Refs.{first_is-as_bytes, is_ascii_hexdigit-Ascii, validate-IsName}
use shellfleet_agent.Docker.{
  is_ascii_hexdigit, validate_object_ref, validate_image_ref, validate_network_driver,
  validate_subnet, first_is,
}
use shellfleet_agent.Docker.Actions.{
  DockerContainerAction, start, stop, restart, remove, SwarmAction, scale, force_update,
  remove_service, container_action_args, swarm_action_args, run_container_action, run_swarm_action,
  remove_image, pull_image, remove_network, remove_volume, forced,
}

-- The options that the source itself writes.
abbrev pub options : List Text
options =
    lit "-f"
    ∷ lit "--force"
    ∷ lit "--driver"
    ∷ lit "--subnet"
    ∷ lit "--attachable"
    ∷ lit "--internal"
    ∷ []

-- A word of a command line: one of those options, or a text that starts with a letter or digit.
abbrev pub IsWord : Text → Type 0
IsWord w = (one_of options w || first_is is_ascii_alphanumeric w) ≡ true

-- Two machines on which every such command line does the same.
abbrev pub Agree : Runner → Runner → Type 0
Agree run₁ run₂ =
    (args : List Text) → All IsWord args → run₁ (lit "docker") args ≡ run₂ (lit "docker") args

operand-IsWord : (w : Text) → first_is is_ascii_alphanumeric w ≡ true → IsWord w
operand-IsWord w h = ground arith

object-IsWord : (w : Text) {u : Unit {0}} → validate_object_ref w ≡ ok u → IsWord w
object-IsWord w h = operand-IsWord w (((validate-IsName w).0).0 h).0

image-IsWord : (w : Text) {u : Unit {0}} → validate_image_ref w ≡ ok u → IsWord w
image-IsWord w h = operand-IsWord w (((validate-IsName w).1).0 h).0

driver-IsWord : (w : Text) {u : Unit {0}} → validate_network_driver w ≡ ok u → IsWord w
unfolding validate_network_driver
driver-IsWord w h = elim (Result-cases (validate_object_ref w)) [
  | inl (_, e) ↦ object-IsWord w e
  | inr (_, e) ↦ cc
]

container_action-All :
    (action : DockerContainerAction) (id : Text)
    → IsWord id
    → All IsWord (container_action_args action id)
unfolding container_action_args
container_action-All start id h = (refl, (h, tt))
container_action-All stop id h = (refl, (h, tt))
container_action-All restart id h = (refl, (h, tt))
container_action-All remove id h = (refl, (refl, (h, tt)))

append-IsWord :
    (name rest : Text) {u : Unit {0}} → validate_object_ref name ≡ ok u → IsWord (name ++ rest)
append-IsWord [] rest h = let e = (((validate-IsName []).0).0 h).0 in cc
append-IsWord (c ∷ s) rest h = operand-IsWord (c ∷ s ++ rest) (((validate-IsName (c ∷ s)).0).0 h).0

swarm_action-All :
    (action : SwarmAction) (name : Text) {u : Unit {0}}
    → validate_object_ref name ≡ ok u
    → All IsWord (swarm_action_args action name)
unfolding swarm_action_args
swarm_action-All (scale n) name h = (refl, (refl, (append-IsWord name (b'=' ∷ to_decimal n) h, tt)))
swarm_action-All force_update name h = (refl, (refl, (refl, (object-IsWord name h, tt))))
swarm_action-All remove_service name h = (refl, (refl, (object-IsWord name h, tt)))

forced-All : (force : Bool) (w : Text) → IsWord w → All IsWord (forced force ++ w ∷ [])
forced-All true w h = (refl, (h, tt))
forced-All false w h = (h, tt)

module _ (run₁ run₂ : Runner) (agree : Agree run₁ run₂) where
  -- Starting, stopping, restarting and removing a container, and scaling, updating and removing a
  -- service, do the same on two machines where only the command lines without any option from the
  -- request do the same: whatever the request's texts are, no other command line is run.
  pub action-Agree :
      (id : Text)
      → ((action : DockerContainerAction)
          → run_container_action run₁ id action ≡ run_container_action run₂ id action)
        × ((action : SwarmAction)
            → run_swarm_action run₁ id action ≡ run_swarm_action run₂ id action)
  unfolding run_container_action run_swarm_action
  action-Agree id = elim (Result-cases (validate_object_ref id)) [
    | inl (_, e) ↦ (
      λ action. rw (e, agree _ (container_action-All action id (object-IsWord id e))) refl,
      λ action. rw (e, agree _ (swarm_action-All action id e)) refl,
    )
    | inr (_, e) ↦ (λ action. rw e refl, λ action. rw e refl)
  ]

  -- The same of removing and pulling an image.
  image-Agree :
      (id : Text) (force : Bool)
      → (remove_image run₁ id force ≡ remove_image run₂ id force)
        × (pull_image run₁ id ≡ pull_image run₂ id)
  unfolding remove_image pull_image
  image-Agree id force = elim (Result-cases (validate_image_ref id)) [
    | inl (_, e) ↦ (
      rw
          (
            e,
            agree (lit "rmi" ∷ (forced force ++ id ∷ []))
                (refl, forced-All force id (image-IsWord id e)),
          )
          refl,
      rw (e, agree (lit "pull" ∷ id ∷ []) (refl, (image-IsWord id e, tt))) refl,
    )
    | inr (_, e) ↦ (rw e refl, rw e refl)
  ]

  -- The same of removing and inspecting a network or a volume.
  object-Agree :
      (max_output_bytes : ℕ) (id : Text) (force : Bool)
      → (remove_network run₁ id ≡ remove_network run₂ id)
        × (remove_volume run₁ id force ≡ remove_volume run₂ id force)
        × (inspect_network max_output_bytes run₁ id ≡ inspect_network max_output_bytes run₂ id)
        × (inspect_volume run₁ id ≡ inspect_volume run₂ id)
  unfolding remove_network remove_volume inspect_network inspect_volume
  object-Agree max_output_bytes id force = elim (Result-cases (validate_object_ref id)) [
    | inl (_, e) ↦
        let w = object-IsWord id e in
        (
          rw (e, agree (lit "network" ∷ lit "rm" ∷ id ∷ []) (refl, (refl, (w, tt)))) refl,
          rw
              (
                e,
                agree (lit "volume" ∷ lit "rm" ∷ (forced force ++ id ∷ []))
                    (refl, (refl, forced-All force id w)),
              )
              refl,
          rw (e, agree (lit "network" ∷ lit "inspect" ∷ id ∷ []) (refl, (refl, (w, tt)))) refl,
          rw (e, agree (lit "volume" ∷ lit "inspect" ∷ id ∷ []) (refl, (refl, (w, tt)))) refl,
        )
    | inr (_, e) ↦ (rw e refl, rw e refl, rw e refl, rw e refl)
  ]

hexdigit-IsWord : (s : Text) → first_is is_ascii_hexdigit s ≡ true → IsWord s
hexdigit-IsWord [] h = cc
hexdigit-IsWord (c ∷ s) h = operand-IsWord (c ∷ s) (ground arith)

subnet-IsWord : (s : Text) {u : Unit {0}} → validate_subnet s ≡ ok u → IsWord s
unfolding validate_subnet
subnet-IsWord s h =
    let e : first_is is_ascii_hexdigit (as_bytes s) ≡ true = ground arith in
    hexdigit-IsWord s (rw (← first_is-as_bytes is_ascii_hexdigit is_ascii_hexdigit-Ascii s) e)

subnet_args-All :
    (subnet : Option Text) (net : List Text) → subnet_args subnet ≡ ok net → All IsWord net
unfolding subnet_args
subnet_args-All none net h = let e : [] ≡ net = cc in rw (← e) tt
subnet_args-All (some []) net h = let e : [] ≡ net = cc in rw (← e) tt
subnet_args-All (some (c ∷ s)) net h =
    let (_, v, k) =
      >>=-eq-ok (validate_subnet (c ∷ s)) (λ _. ok (lit "--subnet" ∷ (c ∷ s) ∷ [])) h in
    let e : lit "--subnet" ∷ (c ∷ s) ∷ [] ≡ net = cc in
    rw (← e) (refl, (subnet-IsWord (c ∷ s) v, tt))

network_options-All :
    (attachable internal : Bool) (name : Text)
    → IsWord name
    → All IsWord (network_options attachable internal name)
unfolding network_options
network_options-All true true name h = (refl, (refl, (h, tt)))
network_options-All true false name h = (refl, (h, tt))
network_options-All false true name h = (refl, (h, tt))
network_options-All false false name h = (h, tt)

network_args-All :
    (name driver : Text) (subnet : Option Text) (attachable internal : Bool) (args : List Text)
    → network_args name driver subnet attachable internal ≡ ok args
    → All IsWord args
unfolding network_args network_line
network_args-All name driver subnet attachable internal args h =
    let (_, n, h₁) = >>=-eq-ok (validate_object_ref name) _ h in
    let (_, d, h₂) = >>=-eq-ok (validate_network_driver driver) _ h₁ in
    let (net, s, h₃) = >>=-eq-ok (subnet_args subnet) _ h₂ in
    let options = network_options attachable internal name in
    let e : network_line driver net options ≡ args = cc in
    subst (All IsWord) e (
      refl,
      (
        refl,
        (
          refl,
          (
            driver-IsWord driver d,
            All-append IsWord net options (subnet_args-All subnet net s)
                (network_options-All attachable internal name (object-IsWord name n)),
          ),
        ),
      ),
    )

-- Creating a network does the same on two machines where only the command lines without any
-- option from the request do the same: name, driver and subnet never reach another one.
create_network-Agree :
    (run₁ run₂ : Runner)
    → Agree run₁ run₂
    → (name driver : Text) (subnet : Option Text) (attachable internal : Bool)
    → create_network run₁ name driver subnet attachable internal
      ≡ create_network run₂ name driver subnet attachable internal
unfolding create_network
create_network-Agree run₁ run₂ agree name driver subnet attachable internal =
    elim (Result-cases (network_args name driver subnet attachable internal)) [
      | inl (args, e) ↦
          rw (e, agree args (network_args-All name driver subnet attachable internal args e)) refl
      | inr (_, e) ↦ rw e refl
    ]

-- Removing and pulling an image, creating, removing and inspecting a network, and removing and
-- inspecting a volume do the same on two machines where only the command lines without any option
-- from the request do the same: name, driver and subnet never reach another one.
pub resource-Agree :
    (run₁ run₂ : Runner)
    → Agree run₁ run₂
    → (max_output_bytes : ℕ) (id driver : Text) (subnet : Option Text)
      (force attachable internal : Bool)
    → (remove_image run₁ id force ≡ remove_image run₂ id force)
      × (pull_image run₁ id ≡ pull_image run₂ id)
      × (create_network run₁ id driver subnet attachable internal
          ≡ create_network run₂ id driver subnet attachable internal)
      × (remove_network run₁ id ≡ remove_network run₂ id)
      × (inspect_network max_output_bytes run₁ id ≡ inspect_network max_output_bytes run₂ id)
      × (remove_volume run₁ id force ≡ remove_volume run₂ id force)
      × (inspect_volume run₁ id ≡ inspect_volume run₂ id)
resource-Agree run₁ run₂ agree max_output_bytes id driver subnet force attachable internal =
    let (image, pulled) = image-Agree run₁ run₂ agree id force in
    let (network, volume, shown, inspected) =
      object-Agree run₁ run₂ agree max_output_bytes id force in
    (
      image,
      pulled,
      create_network-Agree run₁ run₂ agree id driver subnet attachable internal,
      network,
      shown,
      volume,
      inspected,
    )
