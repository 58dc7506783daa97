-- ===== src/Privileged/Gate.antt =====
-- src/bin/shellfleet-approval-gate.rs: one connection of the approval gate. Its state, the calls on
-- the socket, and the run of an approved command. What the operating system answers is the parameter
-- `Host`; a write that fails ends the connection, so the bytes it got out are left out.
pub mod Pty
pub mod Handle
pub mod Rules
pub mod Approved
pub mod Steps
pub mod Safe
pub mod Enroll
pub mod Output
pub mod Tests
use shellfleet_agent.Common.{
  ℕ, ◌+◌, ◌-◌, ℤ, negsuc, Bool, true, false, List, [], ◌∷◌, ◌++◌, Option, none, some, if◌then◌else◌,
  is_empty, length, take, Text, Bytes, lit, Result, ok, err,
}
use shellfleet_agent.Privileged.Wire.{
  TrustedOperation, TrustedHostFrame, error, ciphertext, TrustedPlaintext, output, exit,
  SignedTrustedManifest, Shared,
}
use shellfleet_agent.Privileged.Framing.{FrameError, WriteFault, read_frame, write_frame}
use shellfleet_agent.Privileged.Crypto.{Primitives, Transport, CryptoError, encrypt}
use shellfleet_agent.Privileged.Approval.{Env, GateError, Db}

pub data Failure : Type 0 where
  peer decode encode canonical encode_plaintext spawn pty : Text → Failure
  wrong_uid : ℕ → ℕ → Failure
  frame : FrameError → Failure
  gate : GateError → Failure
  crypto : CryptoError → Failure
  expected_approval differs timed_out unexpected_frame : Failure

-- What the gate has done with the shell of a root terminal. The shell may also end by itself, as
-- when its terminal is closed.
pub data Child : Type 0 where
  none_yet spawned killed : Child

-- The socket, with the number of frames that were sent, the table of requests, the operations that
-- were started, and what the shell was given to read.
pub record World : Type 0 where
  pub input : Bytes
  pub written : Bytes
  pub sent : ℕ
  pub db : Db
  pub started : List TrustedOperation
  pub child : Child
  pub typed : Bytes

-- What a root command leaves behind.
pub record CommandOutput : Type 0 where
  pub code : Option ℤ
  pub stdout : Bytes
  pub stderr : Bytes

pub data CommandFault : Type 0 where
  too_late : CommandFault
  not_spawned : Text → CommandFault

-- What wins a round of `select!` in the terminal's loop. A read of a frame that loses is dropped with
-- the bytes it `taken` from the socket; a frame has the error of the terminal's call, if any.
pub data PtyEvent : Type 0 where
  deadline : PtyEvent
  printed : (taken : ℕ) (chunk : Option Bytes) → PtyEvent
  incoming : (fault : Option Text) → PtyEvent

pub record Host : Type 0 where
  pub peer_uid : Result Text ℕ
  pub agent_uid : Result Text ℕ
  pub at_challenge : Env
  pub at_approval : Env
  pub random : Bytes
  pub challenge_time : ℕ
  pub approval_time : ℕ
  -- What other connections do to the table between the challenge and the approval.
  pub meanwhile : Db → Db
  pub write_fault : ℕ → WriteFault
  pub run_program : Text → List Text → ℕ → Result CommandFault CommandOutput
  -- The errors of `openpty`, `spawn_command`, `try_clone_reader` and `take_writer`
  pub open_fault : Option Text
  pub spawn_fault : Option Text
  pub clone_fault : Option Text
  pub writer_fault : Option Text
  pub events : List PtyEvent
  -- `serde_json::to_vec`, and `PartialEq` of the crate's manifests
  pub to_json : TrustedPlaintext → Result Text Bytes
  pub same_manifest : SignedTrustedManifest → SignedTrustedManifest → Bool

-- A step of the connection: what was done before a failure stays done.
abbrev pub Action : Type 0 → Type 0
Action A = World → Result Failure A × World

infixl 5 ◌>>=◌ ◌>>◌
unfoldable pub ◌>>=◌ : {A B : Type 0} → Action A → (A → Action B) → Action B
◌>>=◌ m next w = elim (m w).0 [ ok a ↦ next a (m w).1 | err e ↦ (err e, (m w).1) ]

abbrev pub ◌>>◌ : {B : Type 0} → Action (Unit {0}) → Action B → Action B
m >> next = m >>= λ _. next

module _ {A : Type 0} where
  abbrev pub pure : A → Action A
  pure a w = (ok a, w)

  abbrev pub fail : Failure → Action A
  fail e w = (err e, w)

  -- `map_err(…)?`
  unfoldable pub lift : {E : Type 0} → (E → Failure) → Result E A → Action A
  lift f (ok a) w = (ok a, w)
  lift f (err e) w = (err (f e), w)

-- A call that reports an error or nothing.
unfoldable pub call : (Text → Failure) → Option Text → Action (Unit {0})
call f none w = (ok tt, w)
call f (some e) w = (err (f e), w)

-- `if test { return Err(e) }`
abbrev pub fail_if : Bool → Failure → Action (Unit {0})
fail_if c e w = (if c then err e else ok tt, w)

abbrev pub modify : (World → World) → Action (Unit {0})
modify f w = (ok tt, f w)

-- `MAX_COMMAND_OUTPUT`
abbrev pub max_command_output : ℕ
max_command_output = 8388608

unfoldable pub command_fault : CommandFault → Failure
command_fault too_late = timed_out
command_fault (not_spawned e) = spawn e

-- `Vec::truncate` of both streams.
unfoldable pub kept_stdout : CommandOutput → Bytes
kept_stdout o = take max_command_output o.stdout

unfoldable pub kept_stderr : CommandOutput → Bytes
kept_stderr o = take (max_command_output - length (kept_stdout o)) o.stderr

unfoldable pub reported_code : CommandOutput → ℤ
reported_code o = elim o.code [ none ↦ negsuc 0 | some c ↦ c ]

module _ (sh : Shared) (p : Primitives) (host : Host) where
  -- `framing::read_frame` on the socket.
  unfoldable pub receive_frame : Action Bytes
  receive_frame w = elim (read_frame sh.max_frame_bytes w.input) [
    | ok (body, rest) ↦ (ok body, record w { input = rest })
    | err e ↦ (err (frame e), record w { input = [] })
  ]

  -- `framing::write_frame` on the socket.
  unfoldable pub write : Bytes → Action (Unit {0})
  write body w = elim (write_frame sh.max_frame_bytes (host.write_fault w.sent) w.written body) [
    | ok bytes ↦ (ok tt, record w { written = bytes; sent = w.sent + 1 })
    | err e ↦ (err (frame e), record w { sent = w.sent + 1 })
  ]

  unfoldable pub send_host : TrustedHostFrame → Action (Unit {0})
  send_host f = lift encode (sh.encode_host f) >>= write

  unfoldable pub send_error : Text → Action (Unit {0})
  send_error message = send_host (error message)

  -- The transport as it is after the frame.
  unfoldable pub send_encrypted : Transport → TrustedPlaintext → Action Transport
  send_encrypted t plaintext = do
    encoded ← lift encode_plaintext (host.to_json plaintext)
    sealed ← lift crypto (encrypt p t encoded)
    send_host (ciphertext sealed.0.0 sealed.0.1)
    pure sealed.1

  -- `if !data.is_empty() { send_encrypted(…) }`
  unfoldable pub send_stream : Text → Bytes → Transport → Action Transport
  send_stream stream [] t = pure t
  send_stream stream (b ∷ bytes) t = send_encrypted t (output stream (b ∷ bytes))

  -- From the end of the command on.
  unfoldable pub report_command : Transport → Result CommandFault CommandOutput → Action (Unit {0})
  report_command t outcome = do
    o ← lift command_fault outcome
    t₁ ← send_stream (lit "stdout") (kept_stdout o) t
    t₂ ← send_stream (lit "stderr") (kept_stderr o) t₁
    t₃ ← send_encrypted t₂ (exit (reported_code o) (lit "root command complete"))
    pure tt

  unfoldable pub run_command : Transport → Text → List Text → ℕ → Action (Unit {0})
  run_command t program args timeout_secs = do
    modify (λ w. record w {
      started = w.started ++ TrustedOperation.root_command program args timeout_secs ∷ [];
    })
    report_command t (host.run_program program args timeout_secs)
