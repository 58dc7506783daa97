-- ===== src/Privileged/Tests.antt =====
-- Runs of the privileged modules, and their theorems at concrete values. The stand-ins for the
-- cryptography are functions that meet the assumptions, and hide nothing.
use shellfleet_agent.Common.{
  ℕ, ◌+◌, ◌≡◌, ◌≢◌, refl, ap, ◌↔◌, true, List, [], ◌∷◌, ◌++◌, Option, none, some, take, equal,
  equal_refl, Text, Bytes, lit, as_bytes, ok, err, arith,
}
use shellfleet_agent.Privileged.Wire.{
  TrustedOperation, root_command, TrustedManifest, SignedTrustedManifest, start, close, Shared,
}
use shellfleet_agent.Privileged.Policy.{two, classify}
use shellfleet_agent.Privileged.Policy.Permitted.{IsPermitted, classify-IsPermitted}
use shellfleet_agent.Privileged.Framing.{be_bytes32, read_u32, read_exact, read_frame, write_frame}
use shellfleet_agent.Privileged.Framing.RoundTrip.{
  read_frames, write_frames, read_frames-write_frames,
}
use shellfleet_agent.Privileged.Crypto
use shellfleet_agent.Privileged.Crypto.{
  Primitives, Transport, be_bytes64, nonce, checked_add_one, derive, broker, client, encrypt,
  decrypt, replay_or_reordering,
}
use shellfleet_agent.Privileged.Crypto.Nonces.{
  SealedEach, Distinct, nonces, encrypt_all, encrypt_all-Distinct,
}
use shellfleet_agent.Privileged.Crypto.Channel.{
  FeedsInto, decrypt_all, AreEnds, client_to_broker, Evolves, replay_refused,
}
use shellfleet_agent.Privileged.Approval.{
  Ed25519, Encodings, Env, GateState, Db, pending, consumed, find_row, insert_row, consume_rows,
  requested_ttl, clamp, decode_keys, load_approvers, validate_request_id, manifest_for, challenge,
  is_current, consume, approve_request,
}
use shellfleet_agent.Privileged.Approval.Accepted.{Approved, approve-Approved}
use shellfleet_agent.Privileged.Approval.SingleUse.{
  Challenges, challenge-Challenges, here, approve_once,
}
use shellfleet_agent.Privileged.Approval.Honest
use shellfleet_agent.Privileged.Approval.Honest.{IsHealthy, honest_approval}

-- Framing

frames_written :
    write_frames 8 [] ((1 ∷ 2 ∷ []) ∷ (3 ∷ []) ∷ [])
    ≡ ok (0 ∷ 0 ∷ 0 ∷ 2 ∷ 1 ∷ 2 ∷ 0 ∷ 0 ∷ 0 ∷ 1 ∷ 3 ∷ [])
unfolding write_frames write_frame be_bytes32
frames_written = refl

read_frames-write_frames_example :
    (new : Bytes) × (0 ∷ 0 ∷ 0 ∷ 2 ∷ 1 ∷ 2 ∷ 0 ∷ 0 ∷ 0 ∷ 1 ∷ 3 ∷ [] ≡ [] ++ new)
    × (read_frames 8 2 (new ++ (9 ∷ [])) ≡ ok ((1 ∷ 2 ∷ []) ∷ (3 ∷ []) ∷ [], 9 ∷ []))
read_frames-write_frames_example =
    read_frames-write_frames 8 ((1 ∷ 2 ∷ []) ∷ (3 ∷ []) ∷ []) [] (9 ∷ []) (omega arith)
      frames_written

frame_read : read_frame 8 (0 ∷ 0 ∷ 0 ∷ 1 ∷ 7 ∷ 9 ∷ []) ≡ ok (7 ∷ [], 9 ∷ [])
unfolding read_frame read_u32 read_exact
frame_read = refl

-- Policy

abbrev pub id_command : TrustedOperation
id_command = root_command (lit "/usr/bin/id") (lit "-u" ∷ []) 10

classify-IsPermitted_example : (classify id_command ≡ ok two) ↔ IsPermitted id_command
classify-IsPermitted_example = classify-IsPermitted id_command

-- Crypto: the shared secret is the sum of the two keys, a sealed message has its key and nonce in front.

abbrev first_byte : Bytes → ℕ
first_byte [] = 0
first_byte (b ∷ _) = b

abbrev open_front : Bytes → Bytes → Option Bytes
open_front [] s = some s
open_front (k ∷ ks) [] = none
open_front (k ∷ ks) (c ∷ s) = open_front ks s

abbrev pub plain : Primitives
plain = record {
  diffie_hellman = λ a b. (first_byte a + first_byte b) ∷ [];
  public_key = λ a. a;
  sha256 = λ m. m;
  hkdf_expand = λ salt ikm info. some (ikm ++ take 20 info);
  aead_encrypt = λ k n aad m. some ((k ++ n) ++ m);
  aead_decrypt = λ k n aad c. open_front (k ++ n) c;
}

open_front-append : (k m : Bytes) → open_front k (k ++ m) ≡ some m
open_front-append [] m = refl
open_front-append (c ∷ k) m = open_front-append k m

plain-IsLawful : Crypto.IsLawful plain
plain-IsLawful = record {
  agree = λ a b. ap (λ (n : ℕ). n ∷ []) (omega arith);
  decrypt-encrypt = λ k n aad m e. opened k n m e;
}
  where
    opened :
        (k n m : Bytes) {s : Bytes} → some ((k ++ n) ++ m) ≡ some s → open_front (k ++ n) s ≡ some m
    opened k n m {s} e =
        let same : (k ++ n) ++ m ≡ s = cc e in rw (← same) (open_front-append (k ++ n) m)

abbrev end : Bytes → Bytes → Transport
end s r = record {
  send = s;
  receive = r;
  send_counter = 0;
  receive_counter = 0;
  request_id = lit "request-1";
}

abbrev up_key : Bytes
up_key = 12 ∷ as_bytes (lit "shellfleet-root-clie")

abbrev down_key : Bytes
down_key = 12 ∷ as_bytes (lit "shellfleet-root-host")

the_ends : AreEnds plain (end up_key down_key) (end down_key up_key)
unfolding client broker derive
the_ends = record {
  client_secret = 5 ∷ [];
  broker_secret = 7 ∷ [];
  manifest = 1 ∷ [];
  request_id = lit "request-1";
  client_is = refl;
  broker_is = refl;
}

abbrev sealed : ℕ → Bytes → Bytes → ℕ × Bytes
sealed n key msg = (n, (key ++ (0 ∷ 0 ∷ 0 ∷ 0 ∷ 0 ∷ 0 ∷ 0 ∷ 0 ∷ 0 ∷ 0 ∷ 0 ∷ n ∷ [])) ++ msg)

abbrev two_frames : List (ℕ × Bytes)
two_frames = sealed 0 up_key (1 ∷ 2 ∷ []) ∷ sealed 1 up_key (3 ∷ []) ∷ []

sent_up :
    encrypt_all plain (end up_key down_key) ((1 ∷ 2 ∷ []) ∷ (3 ∷ []) ∷ [])
    ≡ ok (two_frames, record (end up_key down_key) { send_counter = 2 })
unfolding encrypt_all encrypt nonce be_bytes64 checked_add_one
sent_up = refl

encrypt_all-Distinct_example :
    SealedEach plain (end up_key down_key) ((1 ∷ 2 ∷ []) ∷ (3 ∷ []) ∷ []) two_frames
    × Distinct (nonces plain two_frames)
encrypt_all-Distinct_example =
    encrypt_all-Distinct plain (end up_key down_key) ((1 ∷ 2 ∷ []) ∷ (3 ∷ []) ∷ []) sent_up

client_to_broker_example :
    (b' : Transport) × (decrypt_all plain (end down_key up_key) two_frames
      ≡ ok ((1 ∷ 2 ∷ []) ∷ (3 ∷ []) ∷ [], b'))
    × FeedsInto (record (end up_key down_key) { send_counter = 2 }) b'
client_to_broker_example =
    client_to_broker plain plain-IsLawful (end up_key down_key) (end down_key up_key)
      ((1 ∷ 2 ∷ []) ∷ (3 ∷ []) ∷ []) the_ends sent_up

first_received :
    decrypt plain (end down_key up_key) 0 (sealed 0 up_key (1 ∷ 2 ∷ [])).1
    ≡ ok (1 ∷ 2 ∷ [], record (end down_key up_key) { receive_counter = 1 })
unfolding decrypt nonce be_bytes64 checked_add_one
first_received = refl

replay_refused_example :
    decrypt plain
      (record (end down_key up_key) { receive_counter = 1 })
      0
      (sealed 0 up_key (9 ∷ [])).1
    ≡ err replay_or_reordering
replay_refused_example =
    replay_refused plain (end down_key up_key) 0 (sealed 0 up_key (1 ∷ 2 ∷ [])).1
      (sealed 0 up_key (9 ∷ [])).1 first_received Evolves.start

-- Approval: a signature is the key and the message, and a keyring file is one encoded key.

abbrev pub open_signatures : Ed25519
open_signatures = record {
  verifying_key = λ s. s;
  sign = λ s m. s ++ m;
  is_key = λ k. true;
  is_signature = λ s. true;
  verify = λ k m s. equal s (k ++ m);
}

open_signatures-IsLawful : Honest.IsLawful open_signatures
open_signatures-IsLawful = record {
  key_is_key = λ s. refl;
  sign_is_signature = λ s m. refl;
  verify-sign = λ s m. equal_refl (s ++ m);
}

abbrev pub flat : Shared
flat = record {
  protocol_version = 1;
  max_frame_bytes = 65536;
  canonical_bytes = λ m. ok (as_bytes m.request_id);
  decode_client = λ b. ok close;
  encode_host = λ f. ok [];
}

abbrev pub one_key : Encodings
one_key = record { parse_map = λ raw. some ((lit "operator", raw) ∷ []); decode64 = λ v. some v }

abbrev pub operator_key : Bytes
operator_key = lit "0123456789abcdef0123456789abcdef"

abbrev pub healthy : Env
healthy = record {
  open_fault = none;
  insert_fault = none;
  begin_fault = none;
  query_fault = none;
  update_fault = none;
  commit_fault = none;
  policy_version = lit "builtin-v1";
  keyring = ok operator_key;
}

abbrev pub host : GateState
host = record { host_signing = 4 ∷ 2 ∷ []; transport_secret = 7 ∷ []; host_id = lit "0402" }

abbrev pub request : Text
request = lit "request-123"

abbrev the_manifest : TrustedManifest
the_manifest = record {
  version = 1;
  request_id = request;
  host_id = lit "0402";
  operation = id_command;
  client_ephemeral_public = 3 ∷ [];
  broker_transport_public = 7 ∷ [];
  nonce = 8 ∷ 8 ∷ [];
  created_at = 100;
  expires_at = 170;
  policy_version = lit "builtin-v1";
}

abbrev pub the_challenge : SignedTrustedManifest
the_challenge = record {
  manifest = the_manifest;
  host_identity_public = 4 ∷ 2 ∷ [];
  signature = 4 ∷ 2 ∷ request;
}

abbrev issued : Db
issued =
    (request, record { manifest = request; status = pending; expires_at = 170; consumed_at = none })
    ∷ []

abbrev pub spent : Db
spent =
    (
      request,
      record { manifest = request; status = consumed; expires_at = 170; consumed_at = some 101 },
    )
    ∷ []

challenged :
    challenge flat open_signatures plain one_key host healthy
      (8 ∷ 8 ∷ [])
      (start request id_command (3 ∷ []))
      100
      []
    ≡ ok (the_challenge, issued)
unfolding challenge validate_request_id classify manifest_for requested_ttl clamp insert_row
    find_row
challenged = refl

approved :
    approve_request flat open_signatures plain one_key host healthy the_challenge operator_key
      (operator_key ++ request)
      101
      issued
    ≡ ok (the_manifest, spent)
unfolding approve_request is_current classify load_approvers decode_keys consume find_row
    consume_rows
approved = refl

challenge-Challenges_example :
    Challenges flat open_signatures plain one_key host healthy
      (8 ∷ 8 ∷ [])
      request
      id_command
      (3 ∷ [])
      100
      []
      issued
      the_challenge
challenge-Challenges_example =
    challenge-Challenges flat open_signatures plain one_key host healthy (8 ∷ 8 ∷ []) request
      id_command (3 ∷ []) 100 [] challenged

approve-Approved_example :
    (the_manifest ≡ the_challenge.manifest)
    × Approved flat open_signatures one_key host healthy the_challenge operator_key
        (operator_key ++ request)
        101
        issued
        spent
approve-Approved_example =
    approve-Approved flat open_signatures plain one_key host healthy the_challenge operator_key
      (operator_key ++ request) 101 issued approved

approve_once_example :
    approve_request flat open_signatures plain one_key host healthy the_challenge operator_key
      (operator_key ++ request)
      102
      spent
    ≢ ok (the_manifest, spent)
approve_once_example =
    approve_once flat open_signatures plain one_key host healthy the_challenge operator_key
      (operator_key ++ request) 101 issued healthy the_challenge operator_key
      (operator_key ++ request) 102 approved here refl (the_manifest, spent)

honest_approval_example :
    approve_request flat open_signatures plain one_key host healthy the_challenge operator_key
      (operator_key ++ request)
      101
      issued
    ≡ ok (the_manifest, spent)
unfolding load_approvers decode_keys
honest_approval_example =
    honest_approval flat open_signatures plain one_key host open_signatures-IsLawful healthy healthy
      (8 ∷ 8 ∷ []) request id_command (3 ∷ []) 100 101 [] operator_key request
      ((lit "operator", operator_key) ∷ []) challenged refl
      (record {
        open_works = refl;
        begin_works = refl;
        query_works = refl;
        update_works = refl;
        commit_works = refl;
      })
      refl refl refl (omega arith)
