-- ===== src/Privileged/Wire.antt =====
-- The values of the crate `shared` that src/privileged and src/bin/shellfleet-approval-gate.rs build
-- and match on, with the fields and variants that they name. What that crate computes, the encodings,
-- the protocol version and the frame limit, is the parameter `Shared`.
use shellfleet_agent.Common.{ℕ, ℤ, Text, Bytes, List, Result}

-- `shared::trusted::TrustedOperation`
pub data TrustedOperation : Type 0 where
  root_command : (program : Text) (args : List Text) (timeout_secs : ℕ) → TrustedOperation
  root_pty : (shell : Text) (ttl_secs cols rows : ℕ) → TrustedOperation

-- `shared::trusted::TrustedManifest`; times are seconds since the epoch, never negative.
pub record TrustedManifest : Type 0 where
  pub version : ℕ
  pub request_id : Text
  pub host_id : Text
  pub operation : TrustedOperation
  pub client_ephemeral_public : Bytes
  pub broker_transport_public : Bytes
  pub nonce : Bytes
  pub created_at : ℕ
  pub expires_at : ℕ
  pub policy_version : Text

-- `shared::trusted::SignedTrustedManifest`
pub record SignedTrustedManifest : Type 0 where
  pub manifest : TrustedManifest
  pub host_identity_public : Bytes
  pub signature : Bytes

-- `shared::trusted::TrustedClientFrame`
pub data TrustedClientFrame : Type 0 where
  start :
      (request_id : Text) (operation : TrustedOperation) (client_ephemeral_public : Bytes)
      → TrustedClientFrame
  approve :
      (signed_manifest : SignedTrustedManifest) (approver_public approver_signature : Bytes)
      → TrustedClientFrame
  ciphertext : (counter : ℕ) (payload : Bytes) → TrustedClientFrame
  resize : (cols rows : ℕ) → TrustedClientFrame
  close : TrustedClientFrame

-- `shared::trusted::TrustedHostFrame`
pub data TrustedHostFrame : Type 0 where
  challenge : SignedTrustedManifest → TrustedHostFrame
  error : (message : Text) → TrustedHostFrame
  ciphertext : (counter : ℕ) (payload : Bytes) → TrustedHostFrame
  closed : TrustedHostFrame

-- `shared::trusted::TrustedPlaintext`
pub data TrustedPlaintext : Type 0 where
  output : (stream : Text) (payload : Bytes) → TrustedPlaintext
  exit : (code : ℤ) (message : Text) → TrustedPlaintext

-- What the crate computes.
pub record Shared : Type 0 where
  pub protocol_version : ℕ
  pub max_frame_bytes : ℕ
  pub canonical_bytes : TrustedManifest → Result Text Bytes
  pub decode_client : Bytes → Result Text TrustedClientFrame
  pub encode_host : TrustedHostFrame → Result Text Bytes
