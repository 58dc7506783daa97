-- ===== src/Privileged/Gate/Tests.antt =====
-- Runs of one connection of the approval gate, and its theorems at concrete values.
use shellfleet_agent.Common.{
  lines, Bool-cases, equal_iff, inl, inr, arith, equal, if◌then◌else◌, pos, ◌≡◌, refl, Bool, true,
  false, List, [], ◌∷◌, ◌++◌, none, some, Text, Bytes, lit, Result, ok, err,
}
use shellfleet_agent.Privileged.Gate.Enroll.{
  ReadsBack, old_keyring, is_approver_id, insert_key, configured_agent_uid, find_uid, passwd_uid,
  parse_u32, unsigned_digits, digits_onto, Keyring, Writing, Enrols, enroll_approver,
  enroll_approver-load_approvers,
}
use shellfleet_agent.Privileged.Approval.{
  Encodings, challenge, validate_request_id, insert_row, find_row, approve_request, clamp, consume,
  consume_rows, decode_keys, is_current, load_approvers, manifest_for, requested_ttl,
}
use shellfleet_agent.Privileged.Crypto.{
  Transport, be_bytes64, broker, checked_add_one, derive, encrypt, nonce, decrypt,
}
use shellfleet_agent.Privileged.Gate.{
  ◌>>=◌, lift, receive_frame, send_host, write, send_encrypted, send_stream, run_command,
  report_command, command_fault, reported_code, kept_stderr, kept_stdout, call, World, none_yet,
  spawned, Host, CommandOutput, PtyEvent, incoming,
}
use shellfleet_agent.Privileged.Framing.{
  read_frame, read_u32, read_exact, write_frame, be_bytes32, no_fault,
}
use shellfleet_agent.Privileged.Policy.{classify}
use shellfleet_agent.Privileged.Gate.Handle.{
  handle, check_peer, issue, serve_issued, accept, check_same, execute, serve, serve_approved, wait,
}
use shellfleet_agent.Privileged.Gate.Pty.{
  attempt, client_frame, client_payload, pty_loop, pty_round, run_pty, start_shell,
}
use native.Mathlib.Decide.{ℕ_discrete}
use shellfleet_agent.Privileged.Wire.{
  TrustedOperation, root_pty, TrustedManifest, SignedTrustedManifest, TrustedClientFrame, start,
  approve, ciphertext, close, Shared,
}
use shellfleet_agent.Privileged.Tests.{
  plain, flat, one_key, open_signatures, host, healthy, id_command, request, the_challenge,
  operator_key, spent,
}
use shellfleet_agent.Privileged.Gate.Approved.{SameIsSound, IsSafe, ledger}
use shellfleet_agent.Privileged.Gate.Safe.{handle-IsSafe}

TrustedOperation-discrete : Discrete TrustedOperation
TrustedOperation-discrete = hlevel ℕ_discrete

TrustedManifest-discrete : Discrete TrustedManifest
TrustedManifest-discrete = hlevel (ℕ_discrete, TrustedOperation-discrete)

SignedTrustedManifest-discrete : Discrete SignedTrustedManifest
SignedTrustedManifest-discrete = hlevel (ℕ_discrete, TrustedManifest-discrete)

abbrev answer : {A : Type 0} → Dec A → Bool
answer (yes _) = true
answer (no _) = false

abbrev same : SignedTrustedManifest → SignedTrustedManifest → Bool
same a b = answer (SignedTrustedManifest-discrete a b)

answer-yes : {A : Type 0} (d : Dec A) → answer d ≡ true → A
answer-yes (yes a) h = a
answer-yes (no _) h = cc

-- Frame 1 asks, frame 2 approves, and any other one closes.
abbrev read_client : TrustedOperation → Bytes → Result Text TrustedClientFrame
read_client op s =
    if equal s (1 ∷ [])
    then ok (start request op (3 ∷ []))
    else if equal s (2 ∷ [])
    then ok (approve the_challenge operator_key (operator_key ++ request))
    else if equal s (3 ∷ [])
    then ok (ciphertext 5 [])
    else ok close

abbrev protocol : TrustedOperation → Shared
protocol op = record flat { decode_client = read_client op; encode_host = λ f. ok (9 ∷ []) }

abbrev machine : (SignedTrustedManifest → SignedTrustedManifest → Bool) → List PtyEvent → Host
machine equality events = record {
  peer_uid = ok 999;
  agent_uid = ok 999;
  at_challenge = healthy;
  at_approval = healthy;
  random = 8 ∷ 8 ∷ [];
  challenge_time = 100;
  approval_time = 101;
  meanwhile = λ db. db;
  write_fault = λ n. no_fault;
  run_program =
      λ program args secs. ok (record { code = some (pos 0); stdout = 49 ∷ []; stderr = [] });
  open_fault = none;
  spawn_fault = none;
  clone_fault = none;
  writer_fault = none;
  events = events;
  to_json = λ message. ok (1 ∷ []);
  same_manifest = equality;
}

abbrev asked : World
asked = record {
  input = 0 ∷ 0 ∷ 0 ∷ 1 ∷ 1 ∷ 0 ∷ 0 ∷ 0 ∷ 1 ∷ 2 ∷ [];
  written = [];
  sent = 0;
  db = [];
  started = [];
  child = none_yet;
  typed = [];
}

abbrev gate_run : World
gate_run =
    (handle (protocol id_command) open_signatures plain one_key host (machine (λ a b. true) [])
      asked).1

command_started : (gate_run.started ≡ id_command ∷ []) × (gate_run.sent ≡ 4) × (gate_run.db ≡ spent)
unfolding read_frame read_u32 read_exact write_frame be_bytes32 challenge validate_request_id
    insert_row find_row approve_request clamp consume consume_rows decode_keys is_current
    load_approvers manifest_for requested_ttl classify be_bytes64 broker checked_add_one derive
    encrypt nonce handle check_peer issue serve_issued accept check_same execute serve
    serve_approved wait ◌>>=◌ lift receive_frame send_host write send_encrypted send_stream
    run_command report_command command_fault reported_code kept_stderr kept_stdout
command_started = (refl, refl, refl)

same-SameIsSound : (events : List PtyEvent) → SameIsSound (machine same events)
same-SameIsSound events a b h = answer-yes (SignedTrustedManifest-discrete a b) h

handle-IsSafe_example :
    IsSafe
      (protocol id_command)
      open_signatures
      plain
      one_key
      host
      (machine same [])
      (ledger asked)
      (ledger
        (handle (protocol id_command) open_signatures plain one_key host (machine same []) asked).1)
handle-IsSafe_example =
    handle-IsSafe (protocol id_command) open_signatures plain one_key host (machine same []) asked
      (same-SameIsSound [])

-- A root terminal whose client sends a frame that does not open: the gate
-- ends the connection without having killed the shell.

abbrev shell_op : TrustedOperation
shell_op = root_pty (lit "/bin/bash") 900 80 24

abbrev shell_transport : Transport
shell_transport = record {
  send = 1 ∷ [];
  receive = 2 ∷ [];
  send_counter = 0;
  receive_counter = 0;
  request_id = request;
}

abbrev bad_frame : World
bad_frame = record asked { input = 0 ∷ 0 ∷ 0 ∷ 1 ∷ 3 ∷ [] }

abbrev one_frame : Host
one_frame = machine same (incoming none ∷ [])

shell_not_killed :
    (run_pty
      (protocol shell_op)
      plain
      one_frame
      shell_transport
      (lit "/bin/bash")
      900
      80
      24
      bad_frame).1.child
    ≡ spawned
unfolding start_shell ◌>>=◌ call run_pty pty_loop pty_round attempt receive_frame client_payload
    client_frame lift decrypt read_frame read_u32 read_exact
shell_not_killed = refl

abbrev abc : CommandOutput
abc = record { code = none; stdout = lit "ab"; stderr = lit "c" }

-- Enrolment: what can be written is a keyring of one entry, that of `alice`, as its encoded key.

abbrev write_one : Keyring → Result Text Text
write_one [] = err (lit "empty")
write_one ((id, value) ∷ []) = if equal id (lit "alice") then ok value else err (lit "name")
write_one ((id, value) ∷ entry ∷ rest) = err (lit "long")

abbrev read_one : Encodings
read_one = record { parse_map = λ raw. some ((lit "alice", raw) ∷ []); decode64 = λ v. some v }

abbrev disk : Writing
disk = record {
  to_vec_pretty = write_one;
  write_fault = none;
  mode_fault = none;
  rename_fault = none;
}

disk-ReadsBack : ReadsBack read_one disk
disk-ReadsBack [] text h = cc
disk-ReadsBack ((id, value) ∷ []) text h = elim (Bool-cases (equal id (lit "alice"))) [
  | inl e ↦
      let alice : id ≡ lit "alice" = (equal_iff id (lit "alice")).0 e in
      let kept : value ≡ text = ground (arith, e, h) in cc
  | inr e ↦ ground (arith, e, h)
]
disk-ReadsBack ((id, value) ∷ entry ∷ rest) text h = cc

no_file :
    decode_keys read_one (old_keyring open_signatures read_one disk (err (lit "no such file")))
    ≡ ok []
unfolding decode_keys old_keyring
no_file = refl

enrolled :
    enroll_approver open_signatures read_one disk 0
      (err (lit "no such file"))
      (lit "alice")
      operator_key
    ≡ ok operator_key
unfolding enroll_approver is_approver_id insert_key old_keyring
enrolled = refl

enroll_approver-load_approvers_example : Enrols read_one (ok operator_key) operator_key
enroll_approver-load_approvers_example =
    enroll_approver-load_approvers open_signatures read_one disk 0 (err (lit "no such file"))
      (lit "alice") operator_key operator_key operator_key [] disk-ReadsBack no_file refl enrolled

passwd_found :
    configured_agent_uid none
      (ok (lit "root:x:0:0::/root:/bin/sh\nshellfleet:x:987:987::/:/bin/false\n"))
    ≡ ok 987
unfolding lines configured_agent_uid find_uid passwd_uid parse_u32 unsigned_digits digits_onto
passwd_found = refl
