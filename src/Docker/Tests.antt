-- ===== src/Docker/Tests.antt =====
-- The operations of `docker` on concrete requests.
use shellfleet_agent.Common.{
  ℕ, zero, suc, true, false, ◌||◌, List, [], ◌∷◌, some, if◌then◌else◌, Text, lit, all, one_of,
  is_ascii_alphanumeric, All, ◌≡◌, ◌↔◌, refl, ok, err, Output, Runner, arith, str_len, pos,
}
use shellfleet_agent.Docker.{validate_object_ref, validate_image_ref, first_is}
use shellfleet_agent.Docker.Refs.{or_one_of, IsName, validate-IsName}
use shellfleet_agent.Docker.Actions.{
  keep_end, both_streams, combine_stdout_stderr, DockerContainerAction, SwarmAction,
  run_container_action, run_swarm_action, remove_image, pull_image, remove_network, remove_volume,
}
use shellfleet_agent.Docker.Networks.{inspect_network, inspect_volume, create_network}
use shellfleet_agent.Docker.Operands.{options, IsWord, Agree, action-Agree, resource-Agree}

abbrev done : Output
done = record { success = true; code = some (pos 0); stdout = lit "web\n"; stderr = [] }

-- One machine, and another that runs only the lines without foreign options.
abbrev machine : Runner
machine program args = ok done

abbrev careful : Runner
careful program args =
    if all (λ w. one_of options w || first_is is_ascii_alphanumeric w) args
    then ok done
    else err (lit "refused")

all-IsWord :
    (args : List Text)
    → All IsWord args
    → all (λ w. one_of options w || first_is is_ascii_alphanumeric w) args ≡ true
all-IsWord [] h = refl
all-IsWord (w ∷ args) h = ground (arith, h.0, all-IsWord args h.1)

machine-careful : Agree machine careful
machine-careful args h = rw (all-IsWord args h) refl

validate-IsName_example :
    ((validate_object_ref (lit "web-1") ≡ ok tt)
      ↔ IsName is_ascii_alphanumeric (or_one_of (lit "._-:")) 255 (lit "web-1"))
    × ((validate_image_ref (lit "web-1") ≡ ok tt)
        ↔ IsName is_ascii_alphanumeric (or_one_of (lit "._-:/@+")) 512 (lit "web-1"))
validate-IsName_example = validate-IsName (lit "web-1")

action-Agree_example :
    ((action : DockerContainerAction)
      → run_container_action machine (lit "web") action
        ≡ run_container_action careful (lit "web") action)
    × ((action : SwarmAction)
        → run_swarm_action machine (lit "web") action ≡ run_swarm_action careful (lit "web") action)
action-Agree_example = action-Agree machine careful machine-careful (lit "web")

resource-Agree_example :
    (remove_image machine (lit "net") true ≡ remove_image careful (lit "net") true)
    × (pull_image machine (lit "net") ≡ pull_image careful (lit "net"))
    × (create_network machine (lit "net") (lit "bridge") (some (lit "10.0.0.0/8")) true false
        ≡ create_network careful (lit "net") (lit "bridge") (some (lit "10.0.0.0/8")) true false)
    × (remove_network machine (lit "net") ≡ remove_network careful (lit "net"))
    × (inspect_network 100 machine (lit "net") ≡ inspect_network 100 careful (lit "net"))
    × (remove_volume machine (lit "net") true ≡ remove_volume careful (lit "net") true)
    × (inspect_volume machine (lit "net") ≡ inspect_volume careful (lit "net"))
resource-Agree_example =
    resource-Agree machine careful machine-careful 100 (lit "net") (lit "bridge")
      (some (lit "10.0.0.0/8")) true true false

-- A text of `n` times the letter `a`.
abbrev letters : ℕ → Text
letters zero = []
letters (suc n) = b'a' ∷ letters n

str_len-letters : (n : ℕ) → str_len (letters n) ≡ n
str_len-letters zero = refl
str_len-letters (suc n) = omega (arith, str_len-letters n)

abbrev printed : Text → Output
printed s = record { success = true; code = some (pos 0); stdout = s; stderr = [] }

combine_done : combine_stdout_stderr done ≡ some (lit "web\n")
unfolding combine_stdout_stderr both_streams keep_end
combine_done = refl
