-- ===== src/Privileged/Gate/Pty.antt =====
-- `run_pty` of src/bin/shellfleet-approval-gate.rs: an approved root terminal. The loop runs over the
-- list of what wins each round of `select!`; the list ends at the deadline.
use shellfleet_agent.Common.{
  ℕ, List, [], ◌∷◌, ◌++◌, Option, none, some, drop, Text, Bytes, lit, ok, err, pos,
}
use shellfleet_agent.Privileged.Wire.{
  TrustedOperation, TrustedClientFrame, start, approve, ciphertext, resize, close, output, exit,
  Shared,
}
use shellfleet_agent.Privileged.Crypto.{Primitives, Transport, decrypt}
use shellfleet_agent.Privileged.Gate.{
  decode, crypto, pty, unexpected_frame, spawned, killed, PtyEvent, deadline, printed, incoming,
  Host, Action, ◌>>=◌, ◌>>◌, pure, fail, lift, call, modify, receive_frame, send_encrypted,
}

-- `match incoming { Ok(value) => value, Err(_) => break }`
unfoldable pub attempt : {A : Type 0} → Action A → Action (Option A)
attempt m w = elim (m w).0 [ ok a ↦ (ok (some a), (m w).1) | err _ ↦ (ok none, (m w).1) ]

module _ (sh : Shared) (p : Primitives) (host : Host) where
  -- The match on a frame; `none` is `break`.
  unfoldable pub client_frame :
      Option Text → TrustedClientFrame → Transport → Action (Option Transport)
  client_frame fault (ciphertext counter payload) t = do
    opened ← lift crypto (decrypt p t counter payload)
    call pty fault
    modify (λ w. record w { typed = w.typed ++ opened.0 })
    pure (some opened.1)
  client_frame fault (resize cols rows) t = do call pty fault; pure (some t)
  client_frame fault close t = pure none
  client_frame fault (start id operation key) t = fail unexpected_frame
  client_frame fault (approve signed key signature) t = fail unexpected_frame

  unfoldable pub client_payload : Option Text → Option Bytes → Transport → Action (Option Transport)
  client_payload fault none t = pure none
  client_payload fault (some payload) t = do
    f ← lift decode (sh.decode_client payload)
    client_frame fault f t

  -- One round of the loop.
  unfoldable pub pty_round : PtyEvent → Transport → Action (Option Transport)
  pty_round deadline t = pure none
  pty_round (printed taken none) t = pure none
  pty_round (printed taken (some chunk)) t = do
    modify (λ w. record w { input = drop taken w.input })
    next ← send_encrypted sh p host t (output (lit "pty") chunk)
    pure (some next)
  pty_round (incoming fault) t = do
    payload ← attempt (receive_frame sh p host)
    client_payload fault payload t

  unfoldable pub pty_loop : List PtyEvent → Transport → Action Transport
  pty_loop [] t = pure t
  pty_loop (event ∷ events) t = do
    next ← pty_round event t
    elim next [ none ↦ pure t | some u ↦ pty_loop events u ]

  unfoldable pub start_shell : Text → ℕ → ℕ → ℕ → Action (Unit {0})
  start_shell shell ttl_secs cols rows = do
    call pty host.open_fault
    modify (λ w. record w {
      started = w.started ++ TrustedOperation.root_pty shell ttl_secs cols rows ∷ [];
    })
    call pty host.spawn_fault
    modify (λ w. record w { child = spawned })
    call pty host.clone_fault
    call pty host.writer_fault

  -- From the end of the loop on.
  unfoldable pub close_shell : Transport → Action (Unit {0})
  close_shell last = do
    modify (λ w. record w { child = killed })
    sent ← send_encrypted sh p host last (exit (pos 0) (lit "root PTY closed"))
    pure tt

  unfoldable pub run_pty : Transport → Text → ℕ → ℕ → ℕ → Action (Unit {0})
  run_pty t shell ttl_secs cols rows = do
    start_shell shell ttl_secs cols rows
    last ← pty_loop host.events t
    close_shell last
