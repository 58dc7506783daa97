-- ===== src/Privileged/Gate/Output.antt =====
-- What `run_command` keeps of a command's output.
use shellfleet_agent.Common.{
  ◌+◌, ◌-◌, min, ◌≡◌, length, take, length-take, IsStart, take-IsStart, arith,
}
use shellfleet_agent.Privileged.Gate.{CommandOutput, kept_stdout, kept_stderr, max_command_output}

-- What is sent of a command's output is as much as `MAX_COMMAND_OUTPUT` allows over both streams
-- together, all of it when it fits, and each part is the beginning of its stream.
kept-bounded :
    (o : CommandOutput)
    → (length (kept_stdout o) + length (kept_stderr o)
        ≡ min max_command_output (length o.stdout + length o.stderr))
      × IsStart (kept_stdout o) o.stdout
      × IsStart (kept_stderr o) o.stderr
unfolding kept_stdout kept_stderr
kept-bounded o =
    let a = length-take max_command_output o.stdout in
    let b = length-take (max_command_output - length (take max_command_output o.stdout)) o.stderr in
    (
      omega (arith, a, b),
      take-IsStart max_command_output o.stdout,
      take-IsStart (max_command_output - length (take max_command_output o.stdout)) o.stderr,
    )
