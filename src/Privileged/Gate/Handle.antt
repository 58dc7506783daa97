-- ===== src/Privileged/Gate/Handle.antt =====
-- `handle` of src/bin/shellfleet-approval-gate.rs: a connection from its first byte to its last.
use shellfleet_agent.Common.{◌==◌, Bool, true, false, not, Text, Bytes, lit, ok, err}
use shellfleet_agent.Privileged.Wire.{
  TrustedOperation, root_command, root_pty, TrustedManifest, SignedTrustedManifest,
  TrustedClientFrame, start, approve, ciphertext, resize, close, TrustedHostFrame, closed, Shared,
}
use shellfleet_agent.Privileged.Crypto.{Primitives, Transport, broker}
use shellfleet_agent.Privileged.Approval.{Ed25519, Encodings, GateState, challenge, approve_request}
use shellfleet_agent.Privileged.Gate.{
  Failure, peer, decode, wrong_uid, gate, canonical, crypto, expected_approval, differs, Host,
  Action, ◌>>=◌, ◌>>◌, pure, fail, lift, fail_if, receive_frame, send_host, send_error, run_command,
}
use shellfleet_agent.Privileged.Gate.Pty.{run_pty}

module _ (sh : Shared) (ed : Ed25519) (p : Primitives) (enc : Encodings) (state : GateState)
    (host : Host) where
  -- `state.challenge(…)?`: only a success changes the table.
  unfoldable pub issue : TrustedClientFrame → Action SignedTrustedManifest
  issue f w =
      elim (challenge sh ed p enc state host.at_challenge host.random f host.challenge_time w.db) [
        | ok (signed, db) ↦ (ok signed, record w { db = db })
        | err e ↦ (err (gate e), w)
      ]

  -- The other connections, between the two transactions.
  unfoldable pub wait : Action (Unit {0})
  wait w = (ok tt, record w { db = host.meanwhile w.db })

  -- `state.approve(…)?`
  unfoldable pub accept : SignedTrustedManifest → Bytes → Bytes → Action TrustedManifest
  accept signed key signature w =
      elim (approve_request sh ed p enc state host.at_approval signed key signature
        host.approval_time w.db) [
          | ok (manifest, db) ↦ (ok manifest, record w { db = db })
          | err e ↦ (err (gate e), w)
        ]

  -- The match on the operation.
  unfoldable pub execute : Transport → TrustedOperation → Action (Unit {0})
  execute t (root_command program args timeout_secs) =
      run_command sh p host t program args timeout_secs
  execute t (root_pty shell ttl_secs cols rows) = run_pty sh p host t shell ttl_secs cols rows

  unfoldable pub serve_approved : TrustedManifest → Action (Unit {0})
  serve_approved manifest = do
    bytes ← lift canonical (sh.canonical_bytes manifest)
    t ←
        lift crypto (
          broker p state.transport_secret manifest.client_ephemeral_public bytes
            manifest.request_id)
    execute t manifest.operation
    send_host sh p host closed

  unfoldable pub refuse : {A : Type 0} → Text → Failure → Action A
  refuse message e = send_error sh p host message >> fail e

  unfoldable pub check_same : Bool → Action (Unit {0})
  check_same true = pure tt
  check_same false = refuse (lit "approved manifest differs from broker challenge") differs

  -- From `let TrustedClientFrame::Approve { … } = approval else { … }` on.
  unfoldable pub serve : SignedTrustedManifest → TrustedClientFrame → Action (Unit {0})
  serve issued (approve signed key signature) = do
    check_same (host.same_manifest signed issued)
    manifest ← accept signed key signature
    serve_approved manifest
  serve issued (start id operation key) = refuse (lit "expected signed approval") expected_approval
  serve issued (ciphertext counter payload) =
      refuse (lit "expected signed approval") expected_approval
  serve issued (resize cols rows) = refuse (lit "expected signed approval") expected_approval
  serve issued close = refuse (lit "expected signed approval") expected_approval

  unfoldable pub check_peer : Action (Unit {0})
  check_peer = do
    uid ← lift peer host.peer_uid
    expected ← lift peer host.agent_uid
    fail_if (not (uid == expected)) (wrong_uid uid expected)

  -- From the challenge on.
  unfoldable pub serve_issued : SignedTrustedManifest → Action (Unit {0})
  serve_issued issued = do
    send_host sh p host (TrustedHostFrame.challenge issued)
    wait
    second ← receive_frame sh p host
    approval ← lift decode (sh.decode_client second)
    serve issued approval

  unfoldable pub handle : Action (Unit {0})
  handle = do
    check_peer
    first ← receive_frame sh p host
    request ← lift decode (sh.decode_client first)
    issued ← issue request
    serve_issued issued
