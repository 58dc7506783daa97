-- ===== src/Privileged/Approval/SingleUse.antt =====
-- src/privileged/approval.rs: a request is approved at most once, whatever is challenged and approved
-- between.
use mathlib.Core.Bool.{false≢true}
use shellfleet_agent.Common.{
  ℕ, ◌+◌, ◌≤◌, ◌≡◌, ◌≢◌, refl, sym, ap, subst, ◌∙◌, inl, inr, arith, Bool-cases, Result-cases,
  equal_iff, [], ◌∷◌, ◌++◌, none, some, equal, Text, Bytes, ok, err,
}
use shellfleet_agent.Privileged.Wire.{
  TrustedOperation, TrustedManifest, SignedTrustedManifest, start, Shared,
}
use shellfleet_agent.Privileged.Policy.{two, classify}
use shellfleet_agent.Privileged.Policy.Permitted.{IsPermitted, classify-IsPermitted}
use shellfleet_agent.Privileged.Crypto.{Primitives}
use shellfleet_agent.Privileged.Approval.{
  Ed25519, Encodings, pending, consumed, Row, Db, Env, GateState, validate_request_id, find_row,
  insert_row, requested_ttl, clamp, manifest_for, challenge, approve_request,
}
use shellfleet_agent.Privileged.Approval.Accepted.{consumed_row, Consumes, approve-Approved}

-- The row of a request has been consumed.
record IsSpent (id : Text) (db : Db) : Type 0 where
  row : Row
  found : find_row id db ≡ some row
  spent : row.status ≡ consumed

find_row-append :
    (id : Text) (db more : Db) {row : Row}
    → find_row id db ≡ some row
    → find_row id (db ++ more) ≡ some row
unfolding find_row
find_row-append id [] more h = cc
find_row-append id ((k, r) ∷ db) more {row} h =
    ground (arith, find_row-append id db more {row = row})

pub insert_row-eq_some :
    (id : Text) (row : Row) (db : Db) {db' : Db}
    → insert_row id row db ≡ some db'
    → (find_row id db ≡ none) × (db' ≡ db ++ (id, row) ∷ [])
unfolding insert_row
insert_row-eq_some id row db h = ground arith

module _ (sh : Shared) (ed : Ed25519) (prim : Primitives) (enc : Encodings) (gate : GateState) where
  -- What a challenge does to the table: one pending row under an id that it did not hold.
  pub record Issues (m : TrustedManifest) (db db' : Db) : Type 0 where
    pub bytes : Bytes
    pub canonical_is : sh.canonical_bytes m ≡ ok bytes
    pub was_free : find_row m.request_id db ≡ none
    pub grows :
        db'
        ≡ db
          ++ (
            m.request_id,
            record {
              manifest = bytes;
              status = pending;
              expires_at = m.expires_at;
              consumed_at = none;
            },
          )
            ∷ []

  pub challenge-eq_ok :
      (env : Env) (nonce : Bytes) (id : Text) (op : TrustedOperation) (key : Bytes) (now : ℕ)
      (db : Db) (bytes : Bytes) {signed : SignedTrustedManifest} {db' : Db}
      → let m = manifest_for sh ed prim enc gate env id op key nonce now in
        challenge sh ed prim enc gate env nonce (start id op key) now db ≡ ok (signed, db')
        → sh.canonical_bytes m ≡ ok bytes
        → (signed ≡ record {
          manifest = m;
          host_identity_public = ed.verifying_key gate.host_signing;
          signature = ed.sign gate.host_signing bytes;
        })
          × (insert_row id
                (record {
                  manifest = bytes;
                  status = pending;
                  expires_at = m.expires_at;
                  consumed_at = none;
                })
                db
              ≡ some db')
          × (validate_request_id id ≡ ok tt)
          × (classify op ≡ ok two)
  unfolding challenge
  challenge-eq_ok env nonce id op key now db bytes {signed} {db'} h b = ground arith

  -- A challenge is for the request it was asked for, of a permitted operation, and lives for its
  -- requested time, but at least a minute and at most an hour.
  pub record Challenges (env : Env) (nonce : Bytes) (id : Text) (op : TrustedOperation)
      (key : Bytes) (now : ℕ) (db db' : Db) (signed : SignedTrustedManifest) : Type 0 where
    pub manifest_is : signed.manifest ≡ manifest_for sh ed prim enc gate env id op key nonce now
    pub permitted : IsPermitted op
    pub at_least : now + 60 ≤ signed.manifest.expires_at
    pub at_most : signed.manifest.expires_at ≤ now + 3600
    pub issues : Issues signed.manifest db db'

  clamp_bounds : (x : ℕ) → (60 ≤ clamp x 60 3600) × (clamp x 60 3600 ≤ 3600)
  unfolding clamp
  clamp_bounds x = ground arith

  expires-bounds :
      (env : Env) (id : Text) (op : TrustedOperation) (key nonce : Bytes) (now : ℕ)
      → let m = manifest_for sh ed prim enc gate env id op key nonce now in
        (now + 60 ≤ m.expires_at) × (m.expires_at ≤ now + 3600) × (m.request_id ≡ id)
  unfolding manifest_for
  expires-bounds env id op key nonce now = ground (arith, clamp_bounds (requested_ttl op))

  challenge_no_bytes :
      (env : Env) (nonce : Bytes) (id : Text) (op : TrustedOperation) (key : Bytes) (now : ℕ)
      (db : Db) (e : Text) {r : SignedTrustedManifest × Db}
      → challenge sh ed prim enc gate env nonce (start id op key) now db ≡ ok r
      → sh.canonical_bytes (manifest_for sh ed prim enc gate env id op key nonce now) ≢ err e
  unfolding challenge
  challenge_no_bytes env nonce id op key now db e h b = ground arith

  -- A challenge that is handed out carries the manifest that was asked for; its operation is
  -- permitted; it expires at least a minute and at most an hour from now; and the table has gained
  -- one pending row with its canonical bytes, under an id that it did not hold.
  pub challenge-Challenges :
      (env : Env) (nonce : Bytes) (id : Text) (op : TrustedOperation) (key : Bytes) (now : ℕ)
      (db : Db) {signed : SignedTrustedManifest} {db' : Db}
      → challenge sh ed prim enc gate env nonce (start id op key) now db ≡ ok (signed, db')
      → Challenges env nonce id op key now db db' signed
  challenge-Challenges env nonce id op key now db {signed} {db'} h =
      elim (Result-cases
        (sh.canonical_bytes (manifest_for sh ed prim enc gate env id op key nonce now))) [
          | inl (bytes, b) ↦
              let m = manifest_for sh ed prim enc gate env id op key nonce now in
              let (s, i, v, c) = challenge-eq_ok env nonce id op key now db bytes h b in
              let same : signed.manifest ≡ m = ap (λ (x : SignedTrustedManifest). x.manifest) s in
              let (lo, hi, named) = expires-bounds env id op key nonce now in
              let (free, grown) = insert_row-eq_some id _ db i in
              record {
                manifest_is = same;
                permitted = (classify-IsPermitted op).0 c;
                at_least = rw same lo;
                at_most = rw same hi;
                issues =
                    subst (λ x. Issues x db db') (sym same)
                      (record {
                        bytes = bytes;
                        canonical_is = b;
                        was_free = rw named free;
                        grows = rw named grown;
                      });
              }
          | inr (e, b) ↦ absurd (challenge_no_bytes env nonce id op key now db e h b)
        ]

  -- The table as requests come and go: any challenge and any approval, at any times and under any
  -- conditions of the system. What fails changes nothing.
  pub data Steps (db : Db) : Db → Type 0 where
    here : Steps db db
    challenged :
        {u v : Db} (env : Env) (nonce : Bytes) (id : Text) (op : TrustedOperation) (key : Bytes)
        (now : ℕ) {signed : SignedTrustedManifest}
        → Steps db u
        → challenge sh ed prim enc gate env nonce (start id op key) now u ≡ ok (signed, v)
        → Steps db v
    approved :
        {u v : Db} (env : Env) (signed : SignedTrustedManifest) (key signature : Bytes) (now : ℕ)
        {m : TrustedManifest}
        → Steps db u
        → approve_request sh ed prim enc gate env signed key signature now u ≡ ok (m, v)
        → Steps db v

  Issues-IsSpent :
      (id : Text) {m : TrustedManifest} {u v : Db} → Issues m u v → IsSpent id u → IsSpent id v
  Issues-IsSpent id i s = record {
    row = s.row;
    found = subst (λ d. find_row id d ≡ some s.row) (sym i.grows) (find_row-append id _ _ s.found);
    spent = s.spent;
  }

  Consumes-IsSpent :
      (id j : Text) {bytes : Bytes} {now : ℕ} {u v : Db}
      → Consumes j bytes now u v
      → IsSpent id u
      → IsSpent id v
  Consumes-IsSpent id j {now = now} {v = v} c s = elim (Bool-cases (equal id j)) [
    | inl e ↦ record {
      row = consumed_row now c.row;
      found =
          subst (λ k. find_row k v ≡ some (consumed_row now c.row)) (sym ((equal_iff id j).0 e))
            c.after;
      spent = refl;
    }
    | inr e ↦ record {
      row = s.row;
      found = c.others id s.row (λ same. false≢true (sym e ∙ (equal_iff id j).1 same)) s.found;
      spent = s.spent;
    }
  ]

  Steps-IsSpent : (id : Text) {u v : Db} → Steps u v → IsSpent id u → IsSpent id v
  Steps-IsSpent id here s = s
  Steps-IsSpent id (challenged {u} env nonce j op key now st h) s =
      Issues-IsSpent id (challenge-Challenges env nonce j op key now u h).issues
        (Steps-IsSpent id st s)
  Steps-IsSpent id (approved {u} env signed key signature now st h) s =
      Consumes-IsSpent id signed.manifest.request_id
        (approve-Approved sh ed prim enc gate env signed key signature now u h).1.consumes
        (Steps-IsSpent id st s)

  -- Once a request has been approved it is never approved again, whatever is challenged and approved
  -- between, and whatever is presented under its id.
  pub approve_once :
      (env : Env) (signed : SignedTrustedManifest) (key signature : Bytes) (now : ℕ) (db : Db)
      (env' : Env) (again : SignedTrustedManifest) (key' signature' : Bytes) (now' : ℕ)
      {m : TrustedManifest} {db₁ db₂ : Db}
      → approve_request sh ed prim enc gate env signed key signature now db ≡ ok (m, db₁)
      → Steps db₁ db₂
      → again.manifest.request_id ≡ signed.manifest.request_id
      → (r : TrustedManifest × Db)
      → approve_request sh ed prim enc gate env' again key' signature' now' db₂ ≢ ok r
  approve_once env signed key signature now db env' again key' signature' now' {db₂ = db₂} h st e r
        h' =
      let first =
        (approve-Approved sh ed prim enc gate env signed key signature now db h).1.consumes in
      let second =
        (approve-Approved sh ed prim enc gate env' again key' signature' now' db₂ h').1.consumes in
      let spent =
        Steps-IsSpent signed.manifest.request_id st
          (record { row = consumed_row now first.row; found = first.after; spent = refl }) in
      let same = sym spent.found ∙ subst (λ k. find_row k db₂ ≡ some second.row) e second.found in
      differ spent.row second.row spent.spent second.was_pending same
    where
      differ : (a b : Row) → a.status ≡ consumed → b.status ≡ pending → some a ≡ some b → ⊥
      differ a b c p e = ground arith
