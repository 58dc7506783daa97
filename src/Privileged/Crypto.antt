-- ===== src/Privileged/Crypto.antt =====
-- src/privileged/crypto.rs: the encrypted channel between a client and the gate. X25519, SHA-256,
-- HKDF and ChaCha20-Poly1305 are the parameter `Primitives`. A failed call leaves the transport as it
-- was, so only a success carries the new one.
pub mod Channel
pub mod Nonces
use shellfleet_agent.Common.{
  ℕ, ◌+◌, ◌*◌, ◌/◌, ◌%◌, ◌^◌, ◌≡◌, Bool, true, false, List, [], ◌∷◌, ◌++◌, Option, none, some,
  if◌then◌else◌, ltb, ◌==◌, Text, Bytes, lit, as_bytes, Result, ok, err, ◌>>=◌, ◌>>◌, ensure, ok_or,
  not,
}

pub record Primitives : Type 0 where
  -- `StaticSecret::diffie_hellman` and `PublicKey::from`
  pub diffie_hellman : Bytes → Bytes → Bytes
  pub public_key : Bytes → Bytes
  pub sha256 : Bytes → Bytes
  -- `Hkdf::new(Some(salt), shared).expand(info, &mut [0u8; 32])`
  pub hkdf_expand : Bytes → Bytes → Bytes → Option Bytes
  -- `encrypt` and `decrypt` at a key, a nonce, associated data and a message
  pub aead_encrypt : Bytes → Bytes → Bytes → Bytes → Option Bytes
  pub aead_decrypt : Bytes → Bytes → Bytes → Bytes → Option Bytes

-- What the documentation of those crates promises.
pub record IsLawful (p : Primitives) : Type 0 where
  pub agree :
      (a b : Bytes) → p.diffie_hellman a (p.public_key b) ≡ p.diffie_hellman b (p.public_key a)
  pub decrypt-encrypt :
      (key nonce aad msg : Bytes) {sealed : Bytes}
      → p.aead_encrypt key nonce aad msg ≡ some sealed
      → p.aead_decrypt key nonce aad sealed ≡ some msg

pub data CryptoError : Type 0 where
  key_derivation_failed encryption_failed counter_exhausted : CryptoError
  replay_or_reordering authentication_failed : CryptoError

pub record Transport : Type 0 where
  pub send : Bytes
  pub receive : Bytes
  pub send_counter : ℕ
  pub receive_counter : ℕ
  pub request_id : Text

-- `u64::to_be_bytes`
unfoldable pub be_bytes64 : ℕ → Bytes
be_bytes64 n =
    (n / 2 ^ 56 % 256)
    ∷ (n / 2 ^ 48 % 256)
    ∷ (n / 2 ^ 40 % 256)
    ∷ (n / 2 ^ 32 % 256)
    ∷ (n / 2 ^ 24 % 256)
    ∷ (n / 2 ^ 16 % 256)
    ∷ (n / 2 ^ 8 % 256)
    ∷ (n % 256)
    ∷ []

unfoldable pub nonce : ℕ → Bytes
nonce counter = 0 ∷ 0 ∷ 0 ∷ 0 ∷ be_bytes64 counter

-- `u64::checked_add(1)`
unfoldable pub checked_add_one : ℕ → Option ℕ
checked_add_one n = if ltb (n + 1) (2 ^ 64) then some (n + 1) else none

module _ (p : Primitives) where
  unfoldable pub derive : Bytes → Bytes → Text → Bool → Result CryptoError Transport
  derive shared manifest request_id client = do
    let salt = p.sha256 manifest
    client_to_host ←
        ok_or (p.hkdf_expand salt shared (lit "shellfleet-root-client-to-host-v1"))
          key_derivation_failed
    host_to_client ←
        ok_or (p.hkdf_expand salt shared (lit "shellfleet-root-host-to-client-v1"))
          key_derivation_failed
    ok (record {
      send = if client then client_to_host else host_to_client;
      receive = if client then host_to_client else client_to_host;
      send_counter = 0;
      receive_counter = 0;
      request_id = request_id;
    })

  unfoldable pub broker : Bytes → Bytes → Bytes → Text → Result CryptoError Transport
  broker secret client_public manifest request_id =
      derive (p.diffie_hellman secret client_public) manifest request_id false

  unfoldable pub client : Bytes → Bytes → Bytes → Text → Result CryptoError Transport
  client secret broker_public manifest request_id =
      derive (p.diffie_hellman secret broker_public) manifest request_id true

  unfoldable pub encrypt : Transport → Bytes → Result CryptoError ((ℕ × Bytes) × Transport)
  encrypt t plaintext = do
    let counter = t.send_counter
    sealed ←
        ok_or (p.aead_encrypt t.send (nonce counter) (as_bytes t.request_id) plaintext)
          encryption_failed
    next ← ok_or (checked_add_one t.send_counter) counter_exhausted
    ok ((counter, sealed), record t { send_counter = next })

  unfoldable pub decrypt : Transport → ℕ → Bytes → Result CryptoError (Bytes × Transport)
  decrypt t counter sealed = do
    ensure (counter == t.receive_counter) replay_or_reordering
    plaintext ←
        ok_or (p.aead_decrypt t.receive (nonce counter) (as_bytes t.request_id) sealed)
          authentication_failed
    next ← ok_or (checked_add_one t.receive_counter) counter_exhausted
    ok (plaintext, record t { receive_counter = next })
