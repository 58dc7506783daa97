-- ===== src/Privileged/Gate/Safe.antt =====
-- A connection of the approval gate starts nothing that was not approved.
use shellfleet_agent.Privileged.Gate.Steps.{
  refuse-Stage, check_same-Stage, accept-Stage, issue-Stage, wait-Stage,
}
use shellfleet_agent.Privileged.Gate.Handle.{serve_issued, serve, check_peer, handle}
use shellfleet_agent.Privileged.Gate.Rules.{
  IsQuiet, bind-IsQuiet, lift-IsQuiet, receive_frame-IsQuiet, send_host-IsQuiet,
}
use shellfleet_agent.Privileged.Approval.{Ed25519, Encodings, GateState}
use shellfleet_agent.Common.{◌≡◌, ◌∙◌, inl, inr, refl, sym, ap, true, lit, ok, Result-cases, arith}
use shellfleet_agent.Privileged.Wire.{
  SignedTrustedManifest, TrustedClientFrame, start, approve, ciphertext, resize, close,
  TrustedHostFrame, Shared,
}
use shellfleet_agent.Privileged.Crypto.{Primitives}
use shellfleet_agent.Privileged.Gate
use shellfleet_agent.Privileged.Gate.{
  Failure, World, Host, Action, ◌>>=◌, ◌>>◌, pure, fail, lift, fail_if, receive_frame, send_host,
  send_error,
}
use shellfleet_agent.Privileged.Gate.Approved.{
  Ledger, ledger, SameIsSound, PeerIsAgent, IsSafe, WasIssued, Waited, WasAccepted, Stage,
  stage-bind, quiet-Stage, Waited-IsSafe, serve_approved-Stage,
}

module _ (sh : Shared) (ed : Ed25519) (p : Primitives) (enc : Encodings) (state : GateState)
    (host : Host) where
  serve-Stage :
      (l : Ledger) (issued : SignedTrustedManifest) (f : TrustedClientFrame)
      → SameIsSound host
      → Stage sh ed p enc state host l
          (Waited sh ed p enc state host l issued)
          (serve sh ed p enc state host issued f)
          (λ _. IsSafe sh ed p enc state host l)
  unfolding serve
  serve-Stage l issued (approve signed key signature) sound =
      stage-bind sh ed p enc state host l (Waited sh ed p enc state host l issued)
        (λ _ c.
          (host.same_manifest signed issued ≡ true) × Waited sh ed p enc state host l issued c)
        (λ _. IsSafe sh ed p enc state host l) _ _
        (check_same-Stage sh ed p enc state host l (Waited sh ed p enc state host l issued)
          (host.same_manifest signed issued) (Waited-IsSafe sh ed p enc state host l issued))
        λ _.
          stage-bind sh ed p enc state host l
            (λ c.
              (host.same_manifest signed issued ≡ true) × Waited sh ed p enc state host l issued c)
            (WasAccepted sh ed p enc state host l) (λ _. IsSafe sh ed p enc state host l) _ _
            (λ w (b, (i, s, e)).
              accept-Stage sh ed p enc state host l signed key signature w
                (i, s ∙ sym (sound signed issued b), e))
            (serve_approved-Stage sh ed p enc state host l)
  serve-Stage l issued (start id operation key) sound =
      refuse-Stage sh ed p enc state host l (Waited sh ed p enc state host l issued)
        (λ _. IsSafe sh ed p enc state host l) (lit "expected signed approval")
        Gate.expected_approval (Waited-IsSafe sh ed p enc state host l issued)
  serve-Stage l issued (ciphertext counter payload) sound =
      refuse-Stage sh ed p enc state host l (Waited sh ed p enc state host l issued)
        (λ _. IsSafe sh ed p enc state host l) (lit "expected signed approval")
        Gate.expected_approval (Waited-IsSafe sh ed p enc state host l issued)
  serve-Stage l issued (resize cols rows) sound =
      refuse-Stage sh ed p enc state host l (Waited sh ed p enc state host l issued)
        (λ _. IsSafe sh ed p enc state host l) (lit "expected signed approval")
        Gate.expected_approval (Waited-IsSafe sh ed p enc state host l issued)
  serve-Stage l issued close sound =
      refuse-Stage sh ed p enc state host l (Waited sh ed p enc state host l issued)
        (λ _. IsSafe sh ed p enc state host l) (lit "expected signed approval")
        Gate.expected_approval (Waited-IsSafe sh ed p enc state host l issued)

  check_peer-IsQuiet : IsQuiet (check_peer sh ed p enc state host)
  unfolding check_peer
  check_peer-IsQuiet =
      bind-IsQuiet _ _ (lift-IsQuiet Gate.peer host.peer_uid)
        λ uid. bind-IsQuiet _ _ (lift-IsQuiet Gate.peer host.agent_uid) λ expected. λ w. refl

  -- A connection that gets past its first check has the agent at its other end.
  check_peer-PeerIsAgent :
      (w : World) (u : Unit {0}) → (check_peer sh ed p enc state host w).0 ≡ ok u → PeerIsAgent host
  unfolding check_peer ◌>>=◌ lift
  check_peer-PeerIsAgent w u h = elim (Result-cases host.peer_uid) [
    | inr (f, e) ↦ ground (arith, e)
    | inl (uid, e) ↦ elim (Result-cases host.agent_uid) [
      | inr (f, k) ↦ ground (arith, e, k)
      | inl (expected, k) ↦
          let same : uid ≡ expected = ground (arith, e, k) in
          record { uid = uid; of_peer = e; of_agent = k ∙ ap ok (sym same) }
    ]
  ]

  check_peer-Stage :
      (l : Ledger)
      → Stage sh ed p enc state host l
          (λ c. c ≡ l)
          (check_peer sh ed p enc state host)
          (λ _ c. PeerIsAgent host × (c ≡ l))
  check_peer-Stage l w e =
      let kept =
        quiet-Stage sh ed p enc state host l (λ c. c ≡ l) (check_peer sh ed p enc state host)
          (λ c k. inl (ap (λ (x : Ledger). x.started) k)) check_peer-IsQuiet w e in
      (λ a k. (check_peer-PeerIsAgent w a k, kept.0 a k), kept.1)

  WasIssued-IsSafe :
      (l : Ledger) (signed : SignedTrustedManifest) (c : Ledger)
      → WasIssued sh ed p enc state host l signed c
      → IsSafe sh ed p enc state host l c
  WasIssued-IsSafe l signed c (a, _, e) = inl (ap (λ (x : Ledger). x.started) e)

  -- `handle` from the challenge on.
  after_issue :
      (l : Ledger)
      → SameIsSound host
      → (signed : SignedTrustedManifest)
      → Stage sh ed p enc state host l
          (WasIssued sh ed p enc state host l signed)
          (serve_issued sh ed p enc state host signed)
          (λ _. IsSafe sh ed p enc state host l)
  unfolding serve_issued
  after_issue l sound signed =
      let Safe = λ (_ : Unit {0}). IsSafe sh ed p enc state host l in
      let I = WasIssued sh ed p enc state host l signed in
      let W = Waited sh ed p enc state host l signed in
      stage-bind sh ed p enc state host l I (λ _. I) Safe _ _
        (quiet-Stage sh ed p enc state host l I
          (send_host sh p host (TrustedHostFrame.challenge signed)) (WasIssued-IsSafe l signed)
          (send_host-IsQuiet sh p host _))
        λ _.
          stage-bind sh ed p enc state host l I (λ _. W) Safe _ _
            (wait-Stage sh ed p enc state host l signed)
            λ _.
              stage-bind sh ed p enc state host l W (λ _. W) Safe _ _
                (quiet-Stage sh ed p enc state host l W (receive_frame sh p host)
                  (Waited-IsSafe sh ed p enc state host l signed) (receive_frame-IsQuiet sh p host))
                λ second.
                  stage-bind sh ed p enc state host l W (λ _. W) Safe _ _
                    (quiet-Stage sh ed p enc state host l W
                      (lift Gate.decode (sh.decode_client second))
                      (Waited-IsSafe sh ed p enc state host l signed) (lift-IsQuiet _ _))
                    λ approval. serve-Stage l signed approval sound

  handle-Stage :
      (l : Ledger)
      → SameIsSound host
      → Stage sh ed p enc state host l
          (λ c. c ≡ l)
          (handle sh ed p enc state host)
          (λ _. IsSafe sh ed p enc state host l)
  unfolding handle
  handle-Stage l sound =
      let Safe = λ (_ : Unit {0}). IsSafe sh ed p enc state host l in
      let F = λ (c : Ledger). PeerIsAgent host × (c ≡ l) in
      let W = Waited sh ed p enc state host l in
      let quiet = quiet-Stage sh ed p enc state host l in
      let started_safe = λ (c : Ledger) (k : F c). inl (ap (λ (x : Ledger). x.started) k.1) in
      stage-bind sh ed p enc state host l (λ c. c ≡ l) (λ _. F) Safe _ _ (check_peer-Stage l)
        λ _.
          stage-bind sh ed p enc state host l F (λ _. F) Safe _ _
            (quiet F (receive_frame sh p host) started_safe (receive_frame-IsQuiet sh p host))
            λ first.
              stage-bind sh ed p enc state host l F (λ _. F) Safe _ _
                (quiet-Stage sh ed p enc state host l F (lift Gate.decode (sh.decode_client first))
                  started_safe (lift-IsQuiet _ _))
                λ request.
                  stage-bind sh ed p enc state host l F (WasIssued sh ed p enc state host l) Safe _
                    _ (λ w (peer, e). issue-Stage sh ed p enc state host l peer request w e)
                    (after_issue l sound)

  -- Given that the equality of manifests holds only of equal ones: whatever the other end sends,
  -- whatever other connections do to the table meanwhile, and whatever
  -- fails, a connection starts no operation, or exactly one: then the other end is the agent's user,
  -- the gate issued a challenge on this connection, and the table at hand approved that very
  -- challenge, whose operation it is.
  pub handle-IsSafe :
      (w : World)
      → SameIsSound host
      → IsSafe sh ed p enc state host (ledger w) (ledger (handle sh ed p enc state host w).1)
  handle-IsSafe w sound =
      let post = handle-Stage (ledger w) sound w refl in
      elim (Result-cases (handle sh ed p enc state host w).0) [
        | inl (a, e) ↦ post.0 a e
        | inr (f, e) ↦ post.1 f e
      ]
