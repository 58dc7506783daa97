-- ===== src/Common/Process.antt =====
-- What a child process leaves behind, as `std::process::Output` after `String::from_utf8_lossy`.
use mathlib.Core.Bool.{Bool}
use mathlib.Core.Option.{Option}
use mathlib.Core.List.{List}
use shellfleet_agent.Common.Outcome.{Result}
use shellfleet_agent.Common.Int.{ℤ}
use shellfleet_agent.Common.Strings.{Text}

pub record Output : Type 0 where
  pub success : Bool
  pub code : Option ℤ
  pub stdout : Text
  pub stderr : Text

-- `Command::new(program).args(args).output()`: the output, or the text of the error.
abbrev pub Runner : Type 0
Runner = Text → List Text → Result Text Output
