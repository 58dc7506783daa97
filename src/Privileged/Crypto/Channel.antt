-- ===== src/Privileged/Crypto/Channel.antt =====
-- src/privileged/crypto.rs: what one end seals, the other end opens, in order and only once.
use shellfleet_agent.Common.{
  ℕ, ◌+◌, ◌^◌, ◌≡◌, true, false, List, [], ◌∷◌, some, refl, sym, subst, ap, ◌∙◌, ◌≤◌, ◌<◌, arith,
  >>=-eq-ok, ==_iff, Text, Bytes, as_bytes, Result, ok, err, ◌>>=◌,
}
use shellfleet_agent.Privileged.Crypto.{
  Primitives, IsLawful, Transport, CryptoError, replay_or_reordering, nonce, checked_add_one,
  derive, broker, client, encrypt, decrypt,
}
use shellfleet_agent.Privileged.Crypto.Nonces.{Encrypted, encrypt-Encrypted, encrypt_all}

checked_add_one-below : (n : ℕ) → n + 1 < 2 ^ 64 → checked_add_one n ≡ some (n + 1)
unfolding checked_add_one
checked_add_one-below n h = ground arith

-- The sending half of one end fits the receiving half of the other.
pub record FeedsInto (t r : Transport) : Type 0 where
  pub key : r.receive ≡ t.send
  pub counter : r.receive_counter ≡ t.send_counter
  pub request : r.request_id ≡ t.request_id

module _ (p : Primitives) where
  -- A receiver of a row of frames.
  unfoldable pub decrypt_all :
      Transport → List (ℕ × Bytes) → Result CryptoError (List Bytes × Transport)
  decrypt_all r [] = ok ([], r)
  decrypt_all r (f ∷ fs) = do
    (m, r') ← decrypt p r f.0 f.1
    (ms, last) ← decrypt_all r' fs
    ok (m ∷ ms, last)

  -- The receiver's state behind n frames.
  abbrev advanced : Transport → ℕ → Transport
  advanced r n = record r { receive_counter = n }

  decrypt-Encrypted :
      IsLawful p
      → (t r : Transport) (msg : Bytes) {f : ℕ × Bytes} {t' : Transport} → FeedsInto t r
      → Encrypted p t msg f t'
      → decrypt p r f.0 f.1 ≡ ok (msg, advanced r (t.send_counter + 1))
  unfolding decrypt
  decrypt-Encrypted law t r msg {f} i e =
      rw (i.key, i.request, i.counter, e.counter)
        (rw
          (
            (==_iff t.send_counter t.send_counter).1 refl,
            law.decrypt-encrypt t.send (nonce t.send_counter) (as_bytes t.request_id) msg e.sealed,
          )
          (rw (checked_add_one-below t.send_counter e.below)))

  derive-FeedsInto :
      (shared manifest : Bytes) (request_id : Text) {c b : Transport}
      → derive p shared manifest request_id true ≡ ok c
      → derive p shared manifest request_id false ≡ ok b
      → FeedsInto c b × FeedsInto b c
  unfolding derive
  derive-FeedsInto shared manifest request_id h k = ground arith

  decrypt_all-encrypt_all :
      IsLawful p
      → (ms : List Bytes) (t r : Transport) {fs : List (ℕ × Bytes)} {t' : Transport} → FeedsInto t r
      → encrypt_all p t ms ≡ ok (fs, t')
      → (r' : Transport) × (decrypt_all r fs ≡ ok (ms, r')) × FeedsInto t' r'
  unfolding encrypt_all decrypt_all
  decrypt_all-encrypt_all law [] t r {fs} {t'} i h =
      let none_sent : [] ≡ fs = cc h in
      let same : t ≡ t' = cc h in
      (
        r,
        subst (λ x. decrypt_all r x ≡ ok ([], r)) none_sent refl,
        subst (λ x. FeedsInto x r) same i,
      )
  decrypt_all-encrypt_all law (m ∷ ms) t r {fs} {t'} i h =
      let (a, e, h1) = >>=-eq-ok (encrypt p t m) _ h in
      let (b, later, h2) = >>=-eq-ok (encrypt_all p a.1 ms) _ h1 in
      let done = encrypt-Encrypted p t m e in
      let here = decrypt-Encrypted law t r m i done in
      let onward : FeedsInto a.1 (advanced r (t.send_counter + 1)) = record {
        key = i.key ∙ sym (ap (λ x. x.send) done.after);
        counter = sym (ap (λ x. x.send_counter) done.after);
        request = i.request ∙ sym (ap (λ x. x.request_id) done.after);
      } in
      let (r', opened, feeds) =
        decrypt_all-encrypt_all law ms a.1 (advanced r (t.send_counter + 1)) onward later in
      let same : a.0 ∷ b.0 ≡ fs = cc h2 in
      let last : b.1 ≡ t' = cc h2 in
      (
        r',
        subst (λ x. decrypt_all r x ≡ ok (m ∷ ms, r')) same (rw (here, decrypt_all) (rw opened)),
        subst (λ x. FeedsInto x r') last feeds,
      )

  -- The two ends of one approved request.
  pub record AreEnds (c b : Transport) : Type 0 where
    pub client_secret : Bytes
    pub broker_secret : Bytes
    pub manifest : Bytes
    pub request_id : Text
    pub client_is : client p client_secret (p.public_key broker_secret) manifest request_id ≡ ok c
    pub broker_is : broker p broker_secret (p.public_key client_secret) manifest request_id ≡ ok b

  ends-FeedsInto : IsLawful p → {c b : Transport} → AreEnds c b → FeedsInto c b × FeedsInto b c
  unfolding client broker
  ends-FeedsInto law {c} {b} e =
      derive-FeedsInto (p.diffie_hellman e.client_secret (p.public_key e.broker_secret)) e.manifest
        e.request_id e.client_is
        (subst (λ k. derive p k e.manifest e.request_id false ≡ ok b)
          (sym (law.agree e.client_secret e.broker_secret)) e.broker_is)

  -- With lawful primitives, and with the client's and the broker's transports set up for the same
  -- manifest and request from each other's public keys: whatever row of messages the client seals,
  -- the broker opens, in order and unchanged.
  pub client_to_broker :
      IsLawful p
      → (c b : Transport) (ms : List Bytes) {fs : List (ℕ × Bytes)} {c' : Transport} → AreEnds c b
      → encrypt_all p c ms ≡ ok (fs, c')
      → (b' : Transport) × (decrypt_all b fs ≡ ok (ms, b')) × FeedsInto c' b'
  client_to_broker law c b ms e h = decrypt_all-encrypt_all law ms c b (ends-FeedsInto law e).0 h

  -- The same from the broker to the client.
  pub broker_to_client :
      IsLawful p
      → (c b : Transport) (ms : List Bytes) {fs : List (ℕ × Bytes)} {b' : Transport} → AreEnds c b
      → encrypt_all p b ms ≡ ok (fs, b')
      → (c' : Transport) × (decrypt_all c fs ≡ ok (ms, c')) × FeedsInto b' c'
  broker_to_client law c b ms e h = decrypt_all-encrypt_all law ms b c (ends-FeedsInto law e).1 h

  -- What a receiver becomes as frames arrive, whoever sent them; it may also send in between.
  pub data Evolves (t : Transport) : Transport → Type 0 where
    start : Evolves t t
    received :
        {u v : Transport} (n : ℕ) (sealed : Bytes) {msg : Bytes}
        → Evolves t u
        → decrypt p u n sealed ≡ ok (msg, v)
        → Evolves t v
    sent :
        {u v : Transport} (msg : Bytes) {f : ℕ × Bytes}
        → Evolves t u
        → encrypt p u msg ≡ ok (f, v)
        → Evolves t v

  decrypt-counter :
      (u : Transport) (n : ℕ) (sealed : Bytes) {msg : Bytes} {v : Transport}
      → decrypt p u n sealed ≡ ok (msg, v)
      → (n ≡ u.receive_counter) × (v.receive_counter ≡ u.receive_counter + 1)
  unfolding decrypt checked_add_one
  decrypt-counter u n sealed h = ground arith

  Evolves-le : {t u : Transport} → Evolves t u → t.receive_counter ≤ u.receive_counter
  Evolves-le start = omega arith
  Evolves-le (received {u} n s e d) = omega (arith, Evolves-le e, (decrypt-counter u n s d).1)
  Evolves-le (sent {u} m e d) =
      let same = ap (λ x. x.receive_counter) (encrypt-Encrypted p u m d).after in
      omega (arith, Evolves-le e, same)

  -- Once a frame has been accepted, every frame under its counter is refused as a replay, whatever its
  -- bytes, however many frames have been received and sent since.
  pub replay_refused :
      (t : Transport) (n : ℕ) (sealed again : Bytes) {msg : Bytes} {t' u : Transport}
      → decrypt p t n sealed ≡ ok (msg, t')
      → Evolves t' u
      → decrypt p u n again ≡ err replay_or_reordering
  unfolding decrypt
  replay_refused t n sealed again {u = u} h e =
      let (now, next) = decrypt-counter t n sealed h in
      let passed : n < u.receive_counter = omega (arith, Evolves-le e) in ground arith
