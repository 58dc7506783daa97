-- ===== src/Privileged/Gate/Steps.antt =====
-- The steps of a connection that use the table of requests, and what holds after each.
use shellfleet_agent.Privileged.Gate.Handle.{issue, wait, accept, refuse, check_same}
use shellfleet_agent.Privileged.Gate.Rules.{Post-ok, Post-err, send_host-IsQuiet}
use shellfleet_agent.Privileged.Approval.{
  GateError, Ed25519, Encodings, GateState, Db, challenge, approve_request,
}
use shellfleet_agent.Common.{
  ◌≡◌, ◌∙◌, inl, inr, refl, sym, ap, Bool, true, false, Text, Bytes, lit, ok, err, Result-cases,
  arith,
}
use shellfleet_agent.Privileged.Wire.{
  TrustedManifest, SignedTrustedManifest, TrustedClientFrame, Shared,
}
use shellfleet_agent.Privileged.Crypto.{Primitives}
use shellfleet_agent.Privileged.Gate
use shellfleet_agent.Privileged.Gate.{
  Failure, World, Host, Action, ◌>>=◌, ◌>>◌, pure, fail, lift, fail_if, receive_frame, send_host,
  send_error,
}
use shellfleet_agent.Privileged.Gate.Approved.{
  Ledger, ledger, PeerIsAgent, IsSafe, WasIssued, Waited, WasAccepted, Stage, stage-bind,
  quiet-Stage, Waited-IsSafe,
}

module _ (sh : Shared) (ed : Ed25519) (p : Primitives) (enc : Encodings) (state : GateState)
    (host : Host) where
  -- A refusal starts nothing.
  pub refuse-Stage :
      {A : Type 0} (l : Ledger) (F : Ledger → Type 0) (G : A → Ledger → Type 0) (message : Text)
      (e : Failure)
      → ((c : Ledger) → F c → IsSafe sh ed p enc state host l c)
      → Stage sh ed p enc state host l F (refuse sh ed p enc state host message e) G
  unfolding refuse send_error
  refuse-Stage l F G message e safe =
      stage-bind sh ed p enc state host l F (λ _. F) G _ _
        (quiet-Stage sh ed p enc state host l F (send_host sh p host (Gate.error message)) safe
          (send_host-IsQuiet sh p host (Gate.error message)))
        λ _. λ w f. (λ a k. cc, λ g k. safe (ledger w) f)

  pub check_same-Stage :
      (l : Ledger) (F : Ledger → Type 0) (b : Bool)
      → ((c : Ledger) → F c → IsSafe sh ed p enc state host l c)
      → Stage sh ed p enc state host l F
          (check_same sh ed p enc state host b)
          (λ _ c. (b ≡ true) × F c)
  unfolding check_same
  check_same-Stage l F true safe = λ w f. (λ a k. (refl, f), λ g k. cc)
  check_same-Stage l F false safe =
      refuse-Stage l F (λ _ c. (false ≡ true) × F c)
        (lit "approved manifest differs from broker challenge") Gate.differs safe

  pub accept-ok :
      (signed : SignedTrustedManifest) (key signature : Bytes) (w : World)
      (r : TrustedManifest × Db)
      → approve_request sh ed p enc state host.at_approval signed key signature host.approval_time
          w.db
        ≡ ok r
      → accept sh ed p enc state host signed key signature w ≡ (ok r.0, record w { db = r.1 })
  unfolding accept
  accept-ok signed key signature w r e = ground (arith, e)

  pub accept-err :
      (signed : SignedTrustedManifest) (key signature : Bytes) (w : World) (f : GateError)
      → approve_request sh ed p enc state host.at_approval signed key signature host.approval_time
          w.db
        ≡ err f
      → accept sh ed p enc state host signed key signature w ≡ (err (Gate.gate f), w)
  unfolding accept
  accept-err signed key signature w f e = ground (arith, e)

  pub accept-Stage :
      (l : Ledger) (signed : SignedTrustedManifest) (key signature : Bytes)
      → Stage sh ed p enc state host l
          (Waited sh ed p enc state host l signed)
          (accept sh ed p enc state host signed key signature)
          (WasAccepted sh ed p enc state host l)
  accept-Stage l signed key signature w (i, s, e) =
      let run = accept sh ed p enc state host signed key signature w in
      elim (Result-cases (
        approve_request sh ed p enc state host.at_approval signed key signature host.approval_time
          w.db)) [
            | inl (r, k) ↦
                Post-ok (λ a v. WasAccepted sh ed p enc state host l a (ledger v))
                  (λ v. IsSafe sh ed p enc state host l (ledger v)) run r.0 (record w { db = r.1 })
                  (accept-ok signed key signature w r k)
                  (
                    record {
                      issued = i;
                      key = key;
                      signature = signature;
                      manifest = r.0;
                      db₂ = r.1;
                      approval =
                          ap
                            (λ x.
                              approve_request sh ed p enc state host.at_approval x key signature
                                host.approval_time (host.meanwhile i.db₁))
                            s
                          ∙ ap
                              (λ (x : Ledger).
                                approve_request sh ed p enc state host.at_approval signed key
                                  signature host.approval_time x.db)
                              (sym e)
                          ∙ k;
                    },
                    refl,
                    ap (λ (x : Ledger). record x { db = r.1 }) e,
                  )
            | inr (f, k) ↦
                Post-err (λ a v. WasAccepted sh ed p enc state host l a (ledger v))
                  (λ v. IsSafe sh ed p enc state host l (ledger v)) run (Gate.gate f) w
                  (accept-err signed key signature w f k)
                  (Waited-IsSafe sh ed p enc state host l signed (ledger w) (i, s, e))
          ]

  pub issue-ok :
      (f : TrustedClientFrame) (w : World) (r : SignedTrustedManifest × Db)
      → challenge sh ed p enc state host.at_challenge host.random f host.challenge_time w.db ≡ ok r
      → issue sh ed p enc state host f w ≡ (ok r.0, record w { db = r.1 })
  unfolding issue
  issue-ok f w r e = ground (arith, e)

  pub issue-err :
      (f : TrustedClientFrame) (w : World) (g : GateError)
      → challenge sh ed p enc state host.at_challenge host.random f host.challenge_time w.db ≡ err g
      → issue sh ed p enc state host f w ≡ (err (Gate.gate g), w)
  unfolding issue
  issue-err f w g e = ground (arith, e)

  pub issue-Stage :
      (l : Ledger) (peer : PeerIsAgent host) (f : TrustedClientFrame)
      → Stage sh ed p enc state host l
          (λ c. c ≡ l)
          (issue sh ed p enc state host f)
          (WasIssued sh ed p enc state host l)
  issue-Stage l peer f w e =
      let run = issue sh ed p enc state host f w in
      elim (Result-cases
        (challenge sh ed p enc state host.at_challenge host.random f host.challenge_time w.db)) [
          | inl (r, k) ↦
              Post-ok (λ a v. WasIssued sh ed p enc state host l a (ledger v))
                (λ v. IsSafe sh ed p enc state host l (ledger v)) run r.0 (record w { db = r.1 })
                (issue-ok f w r k)
                (
                  record {
                    peer_is_agent = peer;
                    request = f;
                    signed = r.0;
                    db₁ = r.1;
                    issuing =
                        ap
                          (λ (x : Ledger).
                            challenge sh ed p enc state host.at_challenge host.random f
                              host.challenge_time x.db)
                          (sym e)
                        ∙ k;
                  },
                  refl,
                  ap (λ (x : Ledger). record x { db = r.1 }) e,
                )
          | inr (g, k) ↦
              Post-err (λ a v. WasIssued sh ed p enc state host l a (ledger v))
                (λ v. IsSafe sh ed p enc state host l (ledger v)) run (Gate.gate g) w
                (issue-err f w g k) (inl (ap (λ (x : Ledger). x.started) e))
        ]

  pub wait-Stage :
      (l : Ledger) (signed : SignedTrustedManifest)
      → Stage sh ed p enc state host l
          (WasIssued sh ed p enc state host l signed)
          (wait sh ed p enc state host)
          (λ _. Waited sh ed p enc state host l signed)
  unfolding wait
  wait-Stage l signed w (i, s, e) =
      (λ a k. (i, s, ap (λ (x : Ledger). record x { db = host.meanwhile x.db }) e), λ g k. cc)
