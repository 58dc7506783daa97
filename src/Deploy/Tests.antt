-- ===== src/Deploy/Tests.antt =====
-- The command lines on concrete requests.
use shellfleet_agent.Deploy.Flags.{words_behind, read_line}
use shellfleet_agent.Common.{
  err, Runner, true, [], ◌∷◌, none, some, lit, drop, ◌≡◌, refl, is_whitespace,
}
use shellfleet_agent.Deploy.{
  ServiceSpec, service_args, ContainerSpec, split_command, split_from, split_step, quoted_char,
  container_args,
}
use shellfleet_agent.Deploy.Words.{write_command, split_command-write_command}
use shellfleet_agent.Deploy.Services.{
  service_switches, service_valued, service_flags, read_line-service_args,
}
use shellfleet_agent.Deploy.Containers.{
  run_switches, run_valued, run_flags, read_line-container_args,
}

abbrev web : ContainerSpec
web = record {
  image = lit "nginx:1";
  detached = true;
  name = some (lit " web ");
  ports = lit "80:80" ∷ lit " " ∷ [];
  env = lit "--privileged" ∷ [];
  volumes = [];
  restart_policy = some (lit "no");
  network = none;
  pull = true;
  command = some (lit "sh -c 'a b'");
}

quoted_words : split_command (lit "sh -c 'a b'") ≡ lit "sh" ∷ lit "-c" ∷ lit "a b" ∷ []
unfolding split_command split_from split_step quoted_char is_whitespace
quoted_words = refl

-- An empty quoted word is lost.
empty_word : split_command (lit "a '' b") ≡ lit "a" ∷ lit "b" ∷ []
unfolding split_command split_from split_step quoted_char is_whitespace
empty_word = refl

split_command-write_command_example :
    split_command (write_command (lit "sh" ∷ lit "a 'b" ∷ [])) ≡ lit "sh" ∷ lit "a 'b" ∷ []
split_command-write_command_example =
    split_command-write_command (lit "sh" ∷ lit "a 'b" ∷ []) (refl, (refl, tt))

read_line-container_args_example :
    read_line run_switches run_valued none (drop 1 (container_args web))
    ≡ some
        (record { flags = run_flags web; image = lit "nginx:1"; rest = words_behind web.command })
read_line-container_args_example = read_line-container_args web refl

abbrev no_docker : Runner
no_docker program args = err (lit "not found")

abbrev web_service : ServiceSpec
web_service = record {
  image = lit "nginx:1";
  name = lit "web";
  mode = none;
  replicas = some 2;
  ports = [];
  env = [];
  mounts = [];
  constraints = [];
  networks = [];
  restart_condition = none;
  command = none;
}

read_line-service_args_example :
    read_line service_switches service_valued none (drop 2 (service_args web_service))
    ≡ some (record {
      flags = service_flags web_service;
      image = lit "nginx:1";
      rest = words_behind none;
    })
read_line-service_args_example = read_line-service_args web_service refl
