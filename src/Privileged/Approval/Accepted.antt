-- ===== src/Privileged/Approval/Accepted.antt =====
-- src/privileged/approval.rs: what an accepted approval establishes, and what it does to the table.
use shellfleet_agent.Common.{
  ℕ, ◌≤◌, ◌≡◌, ◌≢◌, ap, subst, ◌∙◌, inl, inr, arith, Bool-cases, equal_iff, equal_refl, >>=-eq-ok,
  ok_or-eq_ok, map_err-eq_ok, ensure-eq_ok, true, false, not, ◌||◌, List, [], ◌∷◌, some,
  if◌then◌else◌, ltb, ◌==◌, any, equal, Text, Bytes, ok, ensure, ok_or, map_err, reported,
}
use shellfleet_agent.Privileged.Wire.{
  TrustedOperation, TrustedManifest, SignedTrustedManifest, Shared,
}
use shellfleet_agent.Privileged.Policy.{Tier, two, classify}
use shellfleet_agent.Privileged.Policy.Permitted.{IsPermitted, classify-IsPermitted}
use shellfleet_agent.Privileged.Crypto.{Primitives}
use shellfleet_agent.Privileged.Approval.{
  is_pending, Ed25519, Encodings, stale, invalid_host_signature, not_enrolled, invalid_approver_key,
  invalid_approver_signature, unknown_request, altered_expired_or_consumed, already_consumed,
  policy, canonical, database, pending, consumed, Row, Db, Env, GateState, find_row, consume_rows,
  load_approvers, is_current, consume, approve_request,
}

abbrev pub consumed_row : ℕ → Row → Row
consumed_row now row = record row { status = consumed; consumed_at = some now }

pub consume_row : ℕ → Row → Row
consume_row now row = elim row.status [ pending ↦ consumed_row now row | consumed ↦ row ]

-- The table behind `UPDATE`, read at any request id.
pub find_row-consume_rows :
    (id j : Text) (now : ℕ) (db : Db) {row : Row}
    → find_row j db ≡ some row
    → find_row j (consume_rows id now db).0 ≡ some (if equal j id then consume_row now row else row)
unfolding find_row consume_rows consume_row
find_row-consume_rows id j now [] h = cc
find_row-consume_rows id j now ((k, r) ∷ db) {row} h =
    ground (arith, equal_iff k j, find_row-consume_rows id j now db {row = row})

-- What the transaction establishes of the row, and what it makes of the table.
pub record Consumes (id : Text) (bytes : Bytes) (now : ℕ) (db db' : Db) : Type 0 where
  pub row : Row
  pub found : find_row id db ≡ some row
  pub same_bytes : row.manifest ≡ bytes
  pub was_pending : row.status ≡ pending
  pub in_time : now ≤ row.expires_at
  pub after : find_row id db' ≡ some (consumed_row now row)
  pub others : (j : Text) (r : Row) → j ≢ id → find_row j db ≡ some r → find_row j db' ≡ some r

module _ (sh : Shared) (ed : Ed25519) (prim : Primitives) (enc : Encodings) (gate : GateState) where
  row-facts :
      (row : Row) (bytes : Bytes) (now : ℕ)
      → not
          (not (equal row.manifest bytes) || not (is_pending row.status) || ltb row.expires_at now)
        ≡ true
      → (equal row.manifest bytes ≡ true) × (row.status ≡ pending) × (now ≤ row.expires_at)
  row-facts row bytes now h = ground arith

  pub consume-Consumes :
      (env : Env) (id : Text) (bytes : Bytes) (now : ℕ) (db : Db) {db' : Db}
      → consume sh ed prim enc gate env id bytes now db ≡ ok db'
      → Consumes id bytes now db db'
  unfolding consume consume_row
  consume-Consumes env id bytes now db {db'} h =
      let (_, _, h1) = >>=-eq-ok (reported database env.open_fault) _ h in
      let (_, _, h2) = >>=-eq-ok (reported database env.begin_fault) _ h1 in
      let (_, _, h3) = >>=-eq-ok (reported database env.query_fault) _ h2 in
      let (row, f, h4) = >>=-eq-ok (ok_or (find_row id db) unknown_request) _ h3 in
      let (_, g, h5) =
        >>=-eq-ok
          (ensure
            (not (
              not (equal row.manifest bytes)
              || not (is_pending row.status)
              || ltb row.expires_at now))
            altered_expired_or_consumed)
          _ h4 in
      let (_, _, h6) = >>=-eq-ok (reported database env.update_fault) _ h5 in
      let (_, _, h7) = >>=-eq-ok (ensure ((consume_rows id now db).1 == 1) already_consumed) _ h6 in
      let (_, _, h8) = >>=-eq-ok (reported database env.commit_fault) _ h7 in
      let found = ok_or-eq_ok (find_row id db) unknown_request f in
      let (same, state, time) =
        row-facts row bytes now (ensure-eq_ok _ altered_expired_or_consumed g) in
      let final : (consume_rows id now db).0 ≡ db' = cc h8 in
      let behind : consume_row now row ≡ consumed_row now row = rw (state, consume_row) in
      record {
        row = row;
        found = found;
        same_bytes = (equal_iff row.manifest bytes).0 same;
        was_pending = state;
        in_time = time;
        after =
            subst (λ d. find_row id d ≡ some (consumed_row now row)) final
              (find_row-consume_rows id id now db found ∙ rw (equal_refl id) (ap some behind));
        others = λ j r ne e.
            subst (λ d. find_row j d ≡ some r) final
              (find_row-consume_rows id j now db e ∙ rw (not_same j ne));
      }
    where
      not_same : (j : Text) → j ≢ id → equal j id ≡ false
      not_same j ne = elim (Bool-cases (equal j id)) [
        | inl e ↦ absurd (ne ((equal_iff j id).0 e))
        | inr e ↦ e
      ]

-- What holds of a request that the gate has approved.
pub record Approved (sh : Shared) (ed : Ed25519) (enc : Encodings) (gate : GateState) (env : Env)
    (signed : SignedTrustedManifest) (approver_public approver_signature : Bytes) (now : ℕ)
    (db db' : Db) : Type 0 where
  pub bytes : Bytes
  pub canonical_is : sh.canonical_bytes signed.manifest ≡ ok bytes
  pub for_this_version : signed.manifest.version ≡ sh.protocol_version
  pub for_this_host : signed.manifest.host_id ≡ gate.host_id
  pub for_this_policy : signed.manifest.policy_version ≡ env.policy_version
  pub not_expired : now ≤ signed.manifest.expires_at
  pub permitted : IsPermitted signed.manifest.operation
  pub host_signed : ed.verify (ed.verifying_key gate.host_signing) bytes signed.signature ≡ true
  pub approvers : List (Text × Bytes)
  pub keyring_is : load_approvers enc env.keyring ≡ ok approvers
  pub enrolled : any (λ entry. equal entry.1 approver_public) approvers ≡ true
  pub approver_signed : ed.verify approver_public bytes approver_signature ≡ true
  pub consumes : Consumes signed.manifest.request_id bytes now db db'

module _ (sh : Shared) (ed : Ed25519) (prim : Primitives) (enc : Encodings) (gate : GateState) where
  current-facts :
      (env : Env) (signed : SignedTrustedManifest) (now : ℕ)
      → is_current sh ed prim enc gate env signed now ≡ true
      → (signed.manifest.version ≡ sh.protocol_version)
        × (signed.manifest.host_id ≡ gate.host_id)
        × (signed.manifest.policy_version ≡ env.policy_version)
        × (now ≤ signed.manifest.expires_at)
  unfolding is_current
  current-facts env signed now h = ground (
    arith,
    equal_iff signed.manifest.host_id gate.host_id,
    equal_iff signed.manifest.policy_version env.policy_version,
  )

  classify-eq_ok : (op : TrustedOperation) (t : Tier) → classify op ≡ ok t → classify op ≡ ok two
  classify-eq_ok op two h = h

  -- When `approve` hands out a manifest, it is the one that was presented; it is for this version,
  -- host and policy and has not expired; its operation is permitted; the host's key and an enrolled
  -- approver's key have signed its canonical bytes; and the table held a pending row of the same
  -- bytes, not expired, which is now consumed, while the rows of other requests are as before.
  pub approve-Approved :
      (env : Env) (signed : SignedTrustedManifest) (key signature : Bytes) (now : ℕ) (db : Db)
      {m : TrustedManifest} {db' : Db}
      → approve_request sh ed prim enc gate env signed key signature now db ≡ ok (m, db')
      → (m ≡ signed.manifest) × Approved sh ed enc gate env signed key signature now db db'
  unfolding approve_request
  approve-Approved env signed key signature now db {m} {db'} h =
      let (_, c, h1) =
        >>=-eq-ok (ensure (is_current sh ed prim enc gate env signed now) stale) _ h in
      let (t, p, h2) = >>=-eq-ok (map_err policy (classify signed.manifest.operation)) _ h1 in
      let (bytes, b, h3) =
        >>=-eq-ok (map_err canonical (sh.canonical_bytes signed.manifest)) _ h2 in
      let (_, _, h4) =
        >>=-eq-ok (ensure (ed.is_signature signed.signature) invalid_host_signature) _ h3 in
      let host_check = ed.verify (ed.verifying_key gate.host_signing) bytes signed.signature in
      let (_, v, h5) = >>=-eq-ok (ensure host_check invalid_host_signature) _ h4 in
      let (approvers, a, h6) = >>=-eq-ok (load_approvers enc env.keyring) _ h5 in
      let (_, e, h7) =
        >>=-eq-ok (ensure (any (λ entry. equal entry.1 key) approvers) not_enrolled) _ h6 in
      let (_, _, h8) = >>=-eq-ok (ensure (ed.is_key key) invalid_approver_key) _ h7 in
      let (_, _, h9) =
        >>=-eq-ok (ensure (ed.is_signature signature) invalid_approver_signature) _ h8 in
      let (_, s, h10) =
        >>=-eq-ok (ensure (ed.verify key bytes signature) invalid_approver_signature) _ h9 in
      let (d, k, h11) =
        >>=-eq-ok (consume sh ed prim enc gate env signed.manifest.request_id bytes now db) _ h10 in
      let (version, host, policy_is, time) =
        current-facts env signed now (ensure-eq_ok _ stale c) in
      let final : d ≡ db' = cc h11 in
      (
        cc h11,
        record {
          bytes = bytes;
          canonical_is = map_err-eq_ok canonical (sh.canonical_bytes signed.manifest) b;
          for_this_version = version;
          for_this_host = host;
          for_this_policy = policy_is;
          not_expired = time;
          permitted = (classify-IsPermitted signed.manifest.operation).0 (
              classify-eq_ok signed.manifest.operation t
                (map_err-eq_ok policy (classify signed.manifest.operation) p));
          host_signed = ensure-eq_ok host_check invalid_host_signature v;
          approvers = approvers;
          keyring_is = a;
          enrolled = ensure-eq_ok _ not_enrolled e;
          approver_signed = ensure-eq_ok _ invalid_approver_signature s;
          consumes =
              subst (Consumes signed.manifest.request_id bytes now db) final (
                consume-Consumes sh ed prim enc gate env signed.manifest.request_id bytes now db k);
        },
      )
