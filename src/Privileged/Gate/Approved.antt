-- ===== src/Privileged/Gate/Approved.antt =====
-- What the approval gate runs is what an approver has approved.
use shellfleet_agent.Privileged.Gate.Pty.{close_shell, pty_loop, start_shell, run_pty}
use shellfleet_agent.Privileged.Gate.{
  report_command, CommandFault, CommandOutput, Failure, World, Host, Action, ◌>>=◌, ◌>>◌, pure,
  fail, lift, call, modify, receive_frame, send_host, send_error, send_stream, send_encrypted,
  run_command,
}
use shellfleet_agent.Common.{
  pos, ℕ, ◌≡◌, ◌∙◌, ◌⊎◌, inl, inr, refl, sym, ap, subst, true, List, [], ◌∷◌, ◌++◌, Option, Text,
  Bytes, lit, Result, ok,
}
use shellfleet_agent.Privileged.Wire.{
  exit, TrustedOperation, root_command, root_pty, TrustedManifest, SignedTrustedManifest,
  TrustedClientFrame, closed, Shared,
}
use shellfleet_agent.Privileged.Crypto.{Primitives, Transport, broker}
use shellfleet_agent.Privileged.Approval.{
  Ed25519, Encodings, GateState, Db, challenge, approve_request,
}
use shellfleet_agent.Privileged.Gate
use shellfleet_agent.Privileged.Gate.Handle.{execute, serve_approved}
use shellfleet_agent.Privileged.Gate.Rules.{
  Core, IsQuiet, Keeps, bind-Keeps, bind-IsQuiet, lift-IsQuiet, call-IsQuiet, Ensures, bind-Ensures,
  keeps-Ensures, weaken, send_host-IsQuiet, send_encrypted-IsQuiet, send_stream-IsQuiet,
  pty_loop-IsQuiet,
}

-- The operations started and the table.
pub record Ledger : Type 0 where
  pub started : List TrustedOperation
  pub db : Db

abbrev pub ledger : World → Ledger
ledger w = record { started = w.started; db = w.db }

quiet-Keeps : {A : Type 0} (m : Action A) → IsQuiet m → Keeps ledger m
quiet-Keeps m h w = ap (λ (c : Core). record { started = c.started; db = c.db }) (h w)

call-Keeps : (e : Option Text) → Keeps ledger (call Gate.pty e)
call-Keeps e = quiet-Keeps (call Gate.pty e) (call-IsQuiet Gate.pty e)

-- After a step that may start an operation: nothing more than that, and the table is as it was.
abbrev pub Near : TrustedOperation → Ledger → World → Type 0
Near op l w = (ledger w ≡ l) ⊎ (ledger w ≡ record l { started = l.started ++ op ∷ [] })

-- The ledger with one more operation.
abbrev pub entered : TrustedOperation → Ledger → Ledger
entered op l = record l { started = l.started ++ op ∷ [] }

Keeps-Near :
    {A : Type 0} (op : TrustedOperation) (l : Ledger) (m : Action A)
    → Keeps ledger m
    → Ensures (λ w. ledger w ≡ entered op l) m (λ _ w. ledger w ≡ entered op l) (Near op l)
Keeps-Near op l m h w e = (λ a k. h w ∙ e, λ f k. inr (h w ∙ e))

-- What follows once an operation has been entered into the list.
entered-Near :
    (op : TrustedOperation) (l : Ledger) (rest : Action (Unit {0}))
    → Keeps ledger rest
    → Ensures
        (λ w. ledger w ≡ l)
        (modify (λ w. record w { started = w.started ++ op ∷ [] }) >>= λ _. rest)
        (λ _ w. ledger w ≡ entered op l)
        (Near op l)
entered-Near op l rest h =
    bind-Ensures (λ w. ledger w ≡ l) (Near op l) (λ _ w. ledger w ≡ entered op l)
      (λ _ w. ledger w ≡ entered op l) (modify (λ w. record w { started = w.started ++ op ∷ [] }))
      (λ _. rest) (λ w e. (λ a k. ap (entered op) e, λ f k. cc)) λ _. Keeps-Near op l rest h

module _ (sh : Shared) (ed : Ed25519) (p : Primitives) (enc : Encodings) (state : GateState)
    (host : Host) where
  start_shell-Near :
      (shell : Text) (ttl_secs cols rows : ℕ) (l : Ledger)
      → Ensures
          (λ w. ledger w ≡ l)
          (start_shell sh p host shell ttl_secs cols rows)
          (λ _ w. ledger w ≡ entered (root_pty shell ttl_secs cols rows) l)
          (Near (root_pty shell ttl_secs cols rows) l)
  unfolding start_shell
  start_shell-Near shell ttl_secs cols rows l =
      let op = root_pty shell ttl_secs cols rows in
      bind-Ensures (λ w. ledger w ≡ l) (Near op l) (λ _ w. ledger w ≡ l)
        (λ _ w. ledger w ≡ entered op l) _ _
        (weaken (λ w. ledger w ≡ l) (λ w. ledger w ≡ l) (Near op l) (λ _ w. ledger w ≡ l)
          (λ _ w. ledger w ≡ l) (call Gate.pty host.open_fault) (λ a w e. e) (λ w e. inl e)
          (keeps-Ensures ledger (λ x. x ≡ l) (call Gate.pty host.open_fault)
            (call-Keeps host.open_fault)))
        λ _. entered-Near op l _ (
          bind-Keeps ledger _ _ (call-Keeps host.spawn_fault) λ _.
            bind-Keeps ledger _ _ (λ w. refl)
              λ _.
                bind-Keeps ledger _ _ (call-Keeps host.clone_fault)
                  λ _. call-Keeps host.writer_fault)

  report_command-IsQuiet :
      (t : Transport) (outcome : Result CommandFault CommandOutput)
      → IsQuiet (report_command sh p host t outcome)
  unfolding report_command
  report_command-IsQuiet t outcome = bind-IsQuiet _ _ (lift-IsQuiet _ _) λ o.
      bind-IsQuiet _ _ (send_stream-IsQuiet sh p host _ _ t) λ t₁.
        bind-IsQuiet _ _ (send_stream-IsQuiet sh p host _ _ t₁)
          λ t₂. bind-IsQuiet _ _ (send_encrypted-IsQuiet sh p host t₂ _) λ t₃. λ w. refl

  close_shell-Keeps : (last : Transport) → Keeps ledger (close_shell sh p host last)
  unfolding close_shell
  close_shell-Keeps last =
      bind-Keeps ledger (modify (λ w. record w { child = Gate.killed })) _ (λ w. refl)
        λ _.
          bind-Keeps ledger _ _
            (quiet-Keeps {A = Transport}
              (send_encrypted sh p host last (exit (pos 0) (lit "root PTY closed")))
              (send_encrypted-IsQuiet sh p host last (exit (pos 0) (lit "root PTY closed"))))
            λ u. λ w. refl

  execute-Near :
      (t : Transport) (op : TrustedOperation) (l : Ledger)
      → Ensures
          (λ w. ledger w ≡ l)
          (execute sh ed p enc state host t op)
          (λ _ w. ledger w ≡ entered op l)
          (Near op l)
  unfolding execute run_command run_pty
  execute-Near t (root_command program args timeout_secs) l =
      entered-Near (root_command program args timeout_secs) l
        (report_command sh p host t (host.run_program program args timeout_secs))
        (quiet-Keeps (report_command sh p host t (host.run_program program args timeout_secs))
          (report_command-IsQuiet t (host.run_program program args timeout_secs)))
  execute-Near t (root_pty shell ttl_secs cols rows) l =
      let op = root_pty shell ttl_secs cols rows in
      bind-Ensures (λ w. ledger w ≡ l) (Near op l) (λ _ w. ledger w ≡ entered op l)
        (λ _ w. ledger w ≡ entered op l) _ _ (start_shell-Near shell ttl_secs cols rows l)
        λ _. Keeps-Near op l (pty_loop sh p host host.events t >>= close_shell sh p host) (
          bind-Keeps ledger (pty_loop sh p host host.events t) (close_shell sh p host)
            (quiet-Keeps (pty_loop sh p host host.events t)
              (pty_loop-IsQuiet sh p host host.events t))
            close_shell-Keeps)

-- The derived equality of manifests tells manifests apart.
abbrev pub SameIsSound : Host → Type 0
SameIsSound host = (a b : SignedTrustedManifest) → host.same_manifest a b ≡ true → a ≡ b

-- One user on both ends of the socket.
pub record PeerIsAgent (host : Host) : Type 0 where
  pub uid : ℕ
  pub of_peer : host.peer_uid ≡ ok uid
  pub of_agent : host.agent_uid ≡ ok uid

module _ (sh : Shared) (ed : Ed25519) (p : Primitives) (enc : Encodings) (state : GateState)
    (host : Host) where
  -- The challenge that was issued at a table.
  pub record Issued (db : Db) : Type 0 where
    pub peer_is_agent : PeerIsAgent host
    pub request : TrustedClientFrame
    pub signed : SignedTrustedManifest
    pub db₁ : Db
    pub issuing :
        challenge sh ed p enc state host.at_challenge host.random request host.challenge_time db
        ≡ ok (signed, db₁)

  -- Its approval.
  pub record Accepted (db : Db) : Type 0 where
    pub issued : Issued db
    pub key : Bytes
    pub signature : Bytes
    pub manifest : TrustedManifest
    pub db₂ : Db
    pub approval :
        approve_request sh ed p enc state host.at_approval issued.signed key signature
          host.approval_time
          (host.meanwhile issued.db₁)
        ≡ ok (manifest, db₂)

  -- A connection that began at `l` has started one operation, the approved one.
  pub record RanApproved (l c : Ledger) : Type 0 where
    pub accepted : Accepted l.db
    pub started_is : c.started ≡ l.started ++ accepted.manifest.operation ∷ []
    pub db_is : c.db ≡ accepted.db₂

  abbrev pub IsSafe : Ledger → Ledger → Type 0
  IsSafe l c = (c.started ≡ l.started) ⊎ RanApproved l c

  -- What holds at each stage of `handle`, of a ledger.
  abbrev pub WasIssued : Ledger → SignedTrustedManifest → Ledger → Type 0
  WasIssued l signed c = (i : Issued l.db) × (i.signed ≡ signed) × (c ≡ record l { db = i.db₁ })

  abbrev pub Waited : Ledger → SignedTrustedManifest → Ledger → Type 0
  Waited l signed c =
      (i : Issued l.db) × (i.signed ≡ signed) × (c ≡ record l { db = host.meanwhile i.db₁ })

  abbrev pub WasAccepted : Ledger → TrustedManifest → Ledger → Type 0
  WasAccepted l manifest c =
      (a : Accepted l.db) × (a.manifest ≡ manifest) × (c ≡ record l { db = a.db₂ })

  -- A step after which a stage holds, and behind which come others.
  abbrev pub Stage :
      {A : Type 0} → Ledger → (Ledger → Type 0) → Action A → (A → Ledger → Type 0) → Type 0
  Stage l F m G = Ensures (λ w. F (ledger w)) m (λ a w. G a (ledger w)) (λ w. IsSafe l (ledger w))

  pub stage-bind :
      {A B : Type 0} (l : Ledger) (F : Ledger → Type 0) (G : A → Ledger → Type 0)
      (S : B → Ledger → Type 0) (m : Action A) (next : A → Action B)
      → Stage l F m G
      → ((a : A) → Stage l (G a) (next a) S)
      → Stage l F (m >>= next) S
  stage-bind l F G S m next h k =
      bind-Ensures (λ w. F (ledger w)) (λ w. IsSafe l (ledger w)) (λ a w. G a (ledger w))
        (λ b w. S b (ledger w)) m next h k

  -- A quiet step at a stage that is safe.
  pub quiet-Stage :
      {A : Type 0} (l : Ledger) (F : Ledger → Type 0) (m : Action A)
      → ((c : Ledger) → F c → IsSafe l c)
      → IsQuiet m
      → Stage l F m (λ _. F)
  quiet-Stage l F m safe h =
      weaken (λ w. F (ledger w)) (λ w. F (ledger w)) (λ w. IsSafe l (ledger w))
        (λ _ w. F (ledger w)) (λ _ w. F (ledger w)) m (λ a w f. f) (λ w. safe (ledger w))
        (keeps-Ensures ledger F m (quiet-Keeps m h))

  Accepted-IsSafe :
      (l : Ledger) (manifest : TrustedManifest) (c : Ledger) → WasAccepted l manifest c → IsSafe l c
  Accepted-IsSafe l manifest c (a, _, e) = inl (ap (λ (x : Ledger). x.started) e)

  pub Waited-IsSafe :
      (l : Ledger) (signed : SignedTrustedManifest) (c : Ledger) → Waited l signed c → IsSafe l c
  Waited-IsSafe l signed c (a, _, e) = inl (ap (λ (x : Ledger). x.started) e)

  Near-IsSafe :
      (l : Ledger) (manifest : TrustedManifest) (c d : Ledger)
      → WasAccepted l manifest c
      → (d ≡ c) ⊎ (d ≡ entered manifest.operation c)
      → IsSafe l d
  Near-IsSafe l manifest c d h (inl e) = subst (IsSafe l) (sym e) (Accepted-IsSafe l manifest c h)
  Near-IsSafe l manifest c d (a, m, k) (inr e) = inr (record {
    accepted = a;
    started_is =
        ap (λ (x : Ledger). x.started) (e ∙ ap (entered manifest.operation) k)
        ∙ ap (λ (x : TrustedManifest). l.started ++ x.operation ∷ []) (sym m);
    db_is = ap (λ (x : Ledger). x.db) (e ∙ ap (entered manifest.operation) k);
  })

  execute-Stage :
      (l : Ledger) (manifest : TrustedManifest) (t : Transport)
      → Stage l
          (WasAccepted l manifest)
          (execute sh ed p enc state host t manifest.operation)
          (λ _. IsSafe l)
  execute-Stage l manifest t w h =
      let near = execute-Near sh ed p enc state host t manifest.operation (ledger w) w refl in
      (
        λ a e. Near-IsSafe l manifest (ledger w) _ h (inr (near.0 a e)),
        λ f e. Near-IsSafe l manifest (ledger w) _ h (near.1 f e),
      )

  pub serve_approved-Stage :
      (l : Ledger) (manifest : TrustedManifest)
      → Stage l
          (WasAccepted l manifest)
          (serve_approved sh ed p enc state host manifest)
          (λ _. IsSafe l)
  unfolding serve_approved
  serve_approved-Stage l manifest =
      let F = WasAccepted l manifest in
      stage-bind l F (λ _. F) (λ _. IsSafe l) _ _
        (quiet-Stage l F (lift Gate.canonical (sh.canonical_bytes manifest))
          (Accepted-IsSafe l manifest) (lift-IsQuiet _ _))
        λ bytes.
          stage-bind l F (λ _. F) (λ _. IsSafe l) _ _
            (quiet-Stage l F
              (lift Gate.crypto (
                broker p state.transport_secret manifest.client_ephemeral_public bytes
                  manifest.request_id))
              (Accepted-IsSafe l manifest) (lift-IsQuiet _ _))
            λ t.
              stage-bind l F (λ _. IsSafe l) (λ _. IsSafe l) _ _ (execute-Stage l manifest t)
                λ _.
                  quiet-Stage l (IsSafe l) (send_host sh p host closed) (λ c s. s)
                    (send_host-IsQuiet sh p host closed)
