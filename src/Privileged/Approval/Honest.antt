-- ===== src/Privileged/Approval/Honest.antt =====
-- src/privileged/approval.rs: a challenge that an enrolled approver signs in time is approved.
use shellfleet_agent.Common.{
  ℕ, ◌≤◌, ◌≡◌, refl, sym, subst, ◌∙◌, arith, equal_iff, equal_refl, true, List, [], ◌∷◌, ◌++◌, none,
  some, any, equal, Text, Bytes, ok,
}
use shellfleet_agent.Privileged.Wire.{
  TrustedOperation, TrustedManifest, SignedTrustedManifest, start, Shared,
}
use shellfleet_agent.Privileged.Policy.{two, classify}
use shellfleet_agent.Privileged.Crypto.{Primitives}
use shellfleet_agent.Privileged.Approval.{
  Ed25519, Encodings, pending, consumed, Row, Db, Env, GateState, find_row, consume_rows,
  load_approvers, manifest_for, challenge, is_current, consume, approve_request,
}
use shellfleet_agent.Privileged.Approval.Accepted.{consumed_row}
use shellfleet_agent.Privileged.Approval.SingleUse.{
  challenge-Challenges, challenge-eq_ok, insert_row-eq_some,
}

-- What the documentation of Ed25519 promises of a key pair's own signature.
pub record IsLawful (ed : Ed25519) : Type 0 where
  pub key_is_key : (secret : Bytes) → ed.is_key (ed.verifying_key secret) ≡ true
  pub sign_is_signature : (secret msg : Bytes) → ed.is_signature (ed.sign secret msg) ≡ true
  pub verify-sign :
      (secret msg : Bytes) → ed.verify (ed.verifying_key secret) msg (ed.sign secret msg) ≡ true

-- No call on the database fails.
pub record IsHealthy (env : Env) : Type 0 where
  pub open_works : env.open_fault ≡ none
  pub begin_works : env.begin_fault ≡ none
  pub query_works : env.query_fault ≡ none
  pub update_works : env.update_fault ≡ none
  pub commit_works : env.commit_fault ≡ none

find_row_new :
    (id : Text) (row : Row) (db : Db)
    → find_row id db ≡ none
    → find_row id (db ++ (id, row) ∷ []) ≡ some row
unfolding find_row
find_row_new id row [] h = rw equal_refl
find_row_new id row ((k, r) ∷ db) h = ground (arith, find_row_new id row db)

consume_rows_new :
    (id : Text) (row : Row) (now : ℕ) (db : Db)
    → find_row id db ≡ none
    → row.status ≡ pending
    → consume_rows id now (db ++ (id, row) ∷ []) ≡ (db ++ (id, consumed_row now row) ∷ [], 1)
unfolding find_row consume_rows
consume_rows_new id row now [] h p = rw (equal_refl id, p)
consume_rows_new id row now ((k, r) ∷ db) h p = ground (arith, consume_rows_new id row now db)

module _ (sh : Shared) (ed : Ed25519) (prim : Primitives) (enc : Encodings) (gate : GateState) where
  consume_new :
      (env : Env) (id : Text) (row : Row) (now : ℕ) (db : Db)
      → IsHealthy env
      → find_row id db ≡ none
      → row.status ≡ pending
      → now ≤ row.expires_at
      → consume sh ed prim enc gate env id row.manifest now (db ++ (id, row) ∷ [])
        ≡ ok (db ++ (id, consumed_row now row) ∷ [])
  unfolding consume
  consume_new env id row now db w f p t =
      rw
        (
          w.open_works,
          w.begin_works,
          w.query_works,
          find_row_new id row db f,
          w.update_works,
          consume_rows_new id row now db f p,
          w.commit_works,
        )
        (ground (arith, equal_refl row.manifest))

  is_current_manifest :
      (env : Env) (m : TrustedManifest) (signature : Bytes) (now : ℕ)
      → m.version ≡ sh.protocol_version
      → m.host_id ≡ gate.host_id
      → m.policy_version ≡ env.policy_version
      → now ≤ m.expires_at
      → is_current sh ed prim enc gate env
          (record {
            manifest = m;
            host_identity_public = ed.verifying_key gate.host_signing;
            signature = signature;
          })
          now
        ≡ true
  unfolding is_current
  is_current_manifest env m signature now v h p t = ground (
    arith,
    equal_iff m.host_id gate.host_id,
    equal_iff m.policy_version env.policy_version,
    equal_refl (ed.verifying_key gate.host_signing),
  )

  manifest_fields :
      (env : Env) (id : Text) (op : TrustedOperation) (key nonce : Bytes) (now : ℕ)
      → let m = manifest_for sh ed prim enc gate env id op key nonce now in
        (m.version ≡ sh.protocol_version)
        × (m.host_id ≡ gate.host_id)
        × (m.policy_version ≡ env.policy_version)
        × (m.operation ≡ op)
        × (m.request_id ≡ id)
  unfolding manifest_for
  manifest_fields env id op key nonce now = (refl, refl, refl, refl, refl)

  approve_accepts :
      IsLawful ed
      → (env : Env) (m : TrustedManifest) (secret bytes : Bytes) (approvers : List (Text × Bytes))
        (now : ℕ) (db db' : Db)
      → let signed : SignedTrustedManifest = record {
        manifest = m;
        host_identity_public = ed.verifying_key gate.host_signing;
        signature = ed.sign gate.host_signing bytes;
      } in
        is_current sh ed prim enc gate env signed now ≡ true
        → classify m.operation ≡ ok two
        → sh.canonical_bytes m ≡ ok bytes
        → load_approvers enc env.keyring ≡ ok approvers
        → any (λ entry. equal entry.1 (ed.verifying_key secret)) approvers ≡ true
        → consume sh ed prim enc gate env m.request_id bytes now db ≡ ok db'
        → approve_request sh ed prim enc gate env signed
            (ed.verifying_key secret)
            (ed.sign secret bytes)
            now
            db
          ≡ ok (m, db')
  unfolding approve_request
  approve_accepts law env m secret bytes approvers now db db' c k b l e d =
      rw (c, k, b, l)
        (rw (law.sign_is_signature gate.host_signing bytes, law.verify-sign gate.host_signing bytes)
          (rw
            (
              e,
              law.key_is_key secret,
              law.sign_is_signature secret bytes,
              law.verify-sign secret bytes,
            )
            (rw d)))

  -- The row that a challenge has written, once it is consumed.
  abbrev pub spent_entry : TrustedManifest → Bytes → ℕ → Text × Row
  spent_entry m bytes now = (
    m.request_id,
    record {
      manifest = bytes;
      status = consumed;
      expires_at = m.expires_at;
      consumed_at = some now;
    },
  )

  -- With lawful signatures and a healthy database: when a challenge has been handed out and an
  -- enrolled approver signs its canonical bytes before it expires, under the same policy version,
  -- then the approval succeeds with that manifest, and the request's row is consumed.
  pub honest_approval :
      IsLawful ed
      → (env env' : Env) (nonce : Bytes) (id : Text) (op : TrustedOperation) (key : Bytes)
        (start_time now : ℕ) (db : Db) (secret bytes : Bytes) (approvers : List (Text × Bytes))
        {signed : SignedTrustedManifest} {db' : Db}
      → challenge sh ed prim enc gate env nonce (start id op key) start_time db ≡ ok (signed, db')
      → sh.canonical_bytes signed.manifest ≡ ok bytes
      → IsHealthy env'
      → env'.policy_version ≡ env.policy_version
      → load_approvers enc env'.keyring ≡ ok approvers
      → any (λ entry. equal entry.1 (ed.verifying_key secret)) approvers ≡ true
      → now ≤ signed.manifest.expires_at
      → approve_request sh ed prim enc gate env' signed
          (ed.verifying_key secret)
          (ed.sign secret bytes)
          now
          db'
        ≡ ok (signed.manifest, db ++ spent_entry signed.manifest bytes now ∷ [])
  unfolding manifest_for
  honest_approval law env env' nonce id op key t0 now db secret bytes approvers {signed} {db'} h b w
        v l e t =
      let m = manifest_for sh ed prim enc gate env id op key nonce t0 in
      let is_m : signed.manifest ≡ m =
        (challenge-Challenges sh ed prim enc gate env nonce id op key t0 db h).manifest_is in
      let b' : sh.canonical_bytes m ≡ ok bytes =
        subst (λ x. sh.canonical_bytes x ≡ ok bytes) is_m b in
      let (s, i, _, k) = challenge-eq_ok sh ed prim enc gate env nonce id op key t0 db bytes h b' in
      let row : Row = record {
        manifest = bytes;
        status = pending;
        expires_at = m.expires_at;
        consumed_at = none;
      } in
      let (free, grown) = insert_row-eq_some id row db i in
      let (version, host, policy_is, op_is, id_is) = manifest_fields env id op key nonce t0 in
      let t' : now ≤ m.expires_at = subst (λ (x : TrustedManifest). now ≤ x.expires_at) is_m t in
      let spent =
        subst
          (λ (x : Text).
            consume sh ed prim enc gate env' x bytes now (db ++ (id, row) ∷ [])
            ≡ ok (db ++ (id, consumed_row now row) ∷ []))
          (sym id_is) (consume_new env' id row now db w free refl t') in
      let accepted =
        approve_accepts law env' m secret bytes approvers now (db ++ (id, row) ∷ [])
          (db ++ (id, consumed_row now row) ∷ [])
          (is_current_manifest env' m (ed.sign gate.host_signing bytes) now version host
            (policy_is ∙ sym v) t')
          (subst (λ x. classify x ≡ ok two) (sym op_is) k) b' l e spent in
      subst
        (λ (x : SignedTrustedManifest).
          approve_request sh ed prim enc gate env' x (ed.verifying_key secret)
            (ed.sign secret bytes) now db'
          ≡ ok (x.manifest, db ++ spent_entry x.manifest bytes now ∷ []))
        (sym s)
        (subst
          (λ (d : Db).
            approve_request sh ed prim enc gate env'
              (record {
                manifest = m;
                host_identity_public = ed.verifying_key gate.host_signing;
                signature = ed.sign gate.host_signing bytes;
              })
              (ed.verifying_key secret) (ed.sign secret bytes) now d
            ≡ ok (m, db ++ spent_entry m bytes now ∷ []))
          (sym grown) accepted)
