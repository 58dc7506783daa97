-- ===== src/Privileged/Approval.antt =====
-- src/privileged/approval.rs: the challenge, its approval, and the table of requests. Ed25519, JSON
-- and base64 are parameters, and so is what the operating system answers at each call (`Env`). The
-- table changes only by the last step of a success, so only a success carries the new one; a
-- transaction that fails is rolled back.
pub mod Accepted
pub mod SingleUse
pub mod Honest
use shellfleet_agent.Common.{
  ℕ, ◌+◌, min, max, Bool, true, false, not, ◌&&◌, ◌||◌, List, [], ◌∷◌, ◌++◌, Option, none, some,
  if◌then◌else◌, ltb, ◌==◌, within, is_empty, length, any, all, equal, is_ascii_alphanumeric,
  contains_char, Text, Bytes, lit, str_len, Result, ok, err, ◌>>=◌, ◌>>◌, ensure, ok_or, map_err,
  reported,
}
use shellfleet_agent.Privileged.Wire.{
  TrustedOperation, root_command, root_pty, TrustedManifest, SignedTrustedManifest,
  TrustedClientFrame, start, approve, ciphertext, resize, close, Shared,
}
use shellfleet_agent.Privileged.Policy.{PolicyError, classify}
use shellfleet_agent.Privileged.Crypto.{Primitives}

-- Ed25519: a public key and a signature of a secret key, the checks on raw bytes, and `verify`.
pub record Ed25519 : Type 0 where
  pub verifying_key : Bytes → Bytes
  pub sign : Bytes → Bytes → Bytes
  pub is_key : Bytes → Bool
  pub is_signature : Bytes → Bool
  pub verify : Bytes → Bytes → Bytes → Bool

-- `serde_json::from_str` into a map of strings, and base64.
pub record Encodings : Type 0 where
  pub parse_map : Text → Option (List (Text × Text))
  pub decode64 : Text → Option Bytes

pub data GateError : Type 0 where
  first_frame_not_start invalid_request_id request_exists stale : GateError
  invalid_host_signature not_enrolled invalid_approver_key invalid_approver_signature : GateError
  unknown_request altered_expired_or_consumed already_consumed : GateError
  invalid_keyring_json empty_keyring invalid_key_encoding key_not_32_bytes : GateError
  policy : PolicyError → GateError
  canonical database read_keyring : Text → GateError

pub data Status : Type 0 where
  pending consumed : Status

-- A row of `trusted_requests`.
pub record Row : Type 0 where
  pub manifest : Bytes
  pub status : Status
  pub expires_at : ℕ
  pub consumed_at : Option ℕ

abbrev pub Db : Type 0
Db = List (Text × Row)

-- The error of each call on the database, and what else a call reads from outside.
pub record Env : Type 0 where
  pub open_fault : Option Text
  pub insert_fault : Option Text
  pub begin_fault : Option Text
  pub query_fault : Option Text
  pub update_fault : Option Text
  pub commit_fault : Option Text
  pub policy_version : Text
  pub keyring : Result Text Text

pub record GateState : Type 0 where
  pub host_signing : Bytes
  pub transport_secret : Bytes
  pub host_id : Text

unfoldable pub validate_request_id : Text → Result GateError (Unit {0})
validate_request_id id =
    ensure
      (within 8 128 (str_len id)
        && all (λ c. is_ascii_alphanumeric c || contains_char c (lit "._-")) id)
      invalid_request_id

unfoldable pub find_row : Text → Db → Option Row
find_row id [] = none
find_row id ((k, row) ∷ db) = if equal k id then some row else find_row id db

-- `INSERT`: the request id is the primary key.
unfoldable pub insert_row : Text → Row → Db → Option Db
insert_row id row db = elim (find_row id db) [ some _ ↦ none | none ↦ some (db ++ (id, row) ∷ []) ]

abbrev pub is_pending : Status → Bool
is_pending pending = true
is_pending consumed = false

-- `UPDATE … SET status='consumed' … WHERE request_id=?1 AND status='pending'`, with the number of
-- rows changed.
unfoldable pub consume_rows : Text → ℕ → Db → Db × ℕ
consume_rows id now [] = ([], 0)
consume_rows id now ((k, row) ∷ db) =
    let (rest, n) = consume_rows id now db in
    if equal k id && is_pending row.status
    then ((k, record row { status = consumed; consumed_at = some now }) ∷ rest, n + 1)
    else ((k, row) ∷ rest, n)

unfoldable pub requested_ttl : TrustedOperation → ℕ
requested_ttl (root_command program args timeout_secs) = timeout_secs + 60
requested_ttl (root_pty shell ttl_secs cols rows) = ttl_secs

-- `i64::clamp`
unfoldable pub clamp : ℕ → ℕ → ℕ → ℕ
clamp x lo hi = if ltb x lo then lo else if ltb hi x then hi else x

module _ (enc : Encodings) where
  unfoldable pub decode_keys : List (Text × Text) → Result GateError (List (Text × Bytes))
  decode_keys [] = ok []
  decode_keys ((id, value) ∷ rest) = do
    decoded ← ok_or (enc.decode64 value) invalid_key_encoding
    ensure (length decoded == 32) key_not_32_bytes
    keys ← decode_keys rest
    ok ((id, decoded) ∷ keys)

  unfoldable pub load_approvers : Result Text Text → Result GateError (List (Text × Bytes))
  load_approvers file = do
    raw ← map_err read_keyring file
    encoded ← ok_or (enc.parse_map raw) invalid_keyring_json
    ensure (not (is_empty encoded)) empty_keyring
    decode_keys encoded

module _ (sh : Shared) (ed : Ed25519) (prim : Primitives) (enc : Encodings) (gate : GateState) where
  -- The manifest that the gate writes for a request.
  unfoldable pub manifest_for : Env → Text → TrustedOperation → Bytes → Bytes → ℕ → TrustedManifest
  unfolding requested_ttl clamp
  manifest_for env request_id operation client_public nonce now = record {
    version = sh.protocol_version;
    request_id = request_id;
    host_id = gate.host_id;
    operation = operation;
    client_ephemeral_public = client_public;
    broker_transport_public = prim.public_key gate.transport_secret;
    nonce = nonce;
    created_at = now;
    expires_at = now + clamp (requested_ttl operation) 60 3600;
    policy_version = env.policy_version;
  }

  -- `nonce` is what the random generator gives.
  unfoldable pub challenge :
      Env → Bytes → TrustedClientFrame → ℕ → Db → Result GateError (SignedTrustedManifest × Db)
  challenge env nonce (start request_id operation client_public) now db = do
    validate_request_id request_id
    tier ← map_err policy (classify operation)
    let manifest = manifest_for env request_id operation client_public nonce now
    bytes ← map_err canonical (sh.canonical_bytes manifest)
    let signature = ed.sign gate.host_signing bytes
    reported database env.open_fault
    reported (λ _. request_exists) env.insert_fault
    db' ←
        ok_or
          (insert_row request_id
            (record {
              manifest = bytes;
              status = pending;
              expires_at = manifest.expires_at;
              consumed_at = none;
            })
            db)
          request_exists
    ok (
      record {
        manifest = manifest;
        host_identity_public = ed.verifying_key gate.host_signing;
        signature = signature;
      },
      db',
    )
  challenge env nonce (approve m k s) now db = err first_frame_not_start
  challenge env nonce (ciphertext c d) now db = err first_frame_not_start
  challenge env nonce (resize c r) now db = err first_frame_not_start
  challenge env nonce close now db = err first_frame_not_start

  -- The guard at the head of `approve`.
  unfoldable pub is_current : Env → SignedTrustedManifest → ℕ → Bool
  is_current env signed now = not (
      not (signed.manifest.version == sh.protocol_version)
      || not (equal signed.manifest.host_id gate.host_id)
      || not (equal signed.host_identity_public (ed.verifying_key gate.host_signing))
      || ltb signed.manifest.expires_at now
      || not (equal signed.manifest.policy_version env.policy_version))

  -- The transaction at the end of `approve`.
  unfoldable pub consume : Env → Text → Bytes → ℕ → Db → Result GateError Db
  consume env id bytes now db = do
    reported database env.open_fault
    reported database env.begin_fault
    reported database env.query_fault
    row ← ok_or (find_row id db) unknown_request
    ensure
        (not
          (not (equal row.manifest bytes) || not (is_pending row.status) || ltb row.expires_at now))
        altered_expired_or_consumed
    reported database env.update_fault
    let changed = consume_rows id now db
    ensure (changed.1 == 1) already_consumed
    reported database env.commit_fault
    ok changed.0

  unfoldable pub approve_request :
      Env → SignedTrustedManifest → Bytes → Bytes → ℕ → Db → Result GateError (TrustedManifest × Db)
  approve_request env signed approver_public approver_signature now db = do
    ensure (is_current env signed now) stale
    tier ← map_err policy (classify signed.manifest.operation)
    bytes ← map_err canonical (sh.canonical_bytes signed.manifest)
    ensure (ed.is_signature signed.signature) invalid_host_signature
    ensure (ed.verify (ed.verifying_key gate.host_signing) bytes signed.signature)
        invalid_host_signature
    approvers ← load_approvers enc env.keyring
    ensure (any (λ entry. equal entry.1 approver_public) approvers) not_enrolled
    ensure (ed.is_key approver_public) invalid_approver_key
    ensure (ed.is_signature approver_signature) invalid_approver_signature
    ensure (ed.verify approver_public bytes approver_signature) invalid_approver_signature
    db' ← consume env signed.manifest.request_id bytes now db
    ok (signed.manifest, db')
