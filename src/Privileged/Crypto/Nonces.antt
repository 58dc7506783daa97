-- ===== src/Privileged/Crypto/Nonces.antt =====
-- src/privileged/crypto.rs: no nonce is used twice with a key.
use shellfleet_agent.Common.{
  ℕ, ◌+◌, ◌*◌, ◌^◌, ◌≡◌, List, [], ◌∷◌, some, sym, subst, ap, ◌∙◌, ◌≢◌, ◌≤◌, ◌<◌, arith, All,
  >>=-eq-ok, ok_or-eq_ok, Bytes, as_bytes, Result, ok, ◌>>=◌, ok_or,
}
use shellfleet_agent.Privileged.Crypto.{
  Primitives, Transport, CryptoError, be_bytes64, nonce, checked_add_one, encrypt,
  encryption_failed, counter_exhausted,
}

from_be_bytes : Bytes → ℕ
from_be_bytes (a ∷ b ∷ c ∷ d ∷ e ∷ f ∷ g ∷ h ∷ []) =
    a * 2 ^ 56 + b * 2 ^ 48 + c * 2 ^ 40 + d * 2 ^ 32 + e * 2 ^ 24 + f * 2 ^ 16 + g * 2 ^ 8 + h
from_be_bytes _ = 0

from_be_bytes-be_bytes64 : (n : ℕ) → n < 2 ^ 64 → from_be_bytes (be_bytes64 n) ≡ n
unfolding from_be_bytes be_bytes64
from_be_bytes-be_bytes64 n h = omega arith

drop_four : Bytes → Bytes
drop_four (_ ∷ _ ∷ _ ∷ _ ∷ r) = r
drop_four r = r

-- Counters of 64 bits have nonces of their own.
nonce_injective : (m n : ℕ) → m < 2 ^ 64 → n < 2 ^ 64 → nonce m ≡ nonce n → m ≡ n
unfolding nonce drop_four
nonce_injective m n hm hn e =
    sym (from_be_bytes-be_bytes64 m hm)
    ∙ ap (λ s. from_be_bytes (drop_four s)) e
    ∙ from_be_bytes-be_bytes64 n hn

pub checked_add_one-eq_some :
    (n : ℕ) {m : ℕ} → checked_add_one n ≡ some m → (m ≡ n + 1) × (n + 1 < 2 ^ 64)
unfolding checked_add_one
checked_add_one-eq_some n h = ground arith

-- Whether `x` differs from all of a list, and whether a list has no value twice.
abbrev pub Distinct : List Bytes → Type 0
Distinct [] = Unit
Distinct (x ∷ xs) = All (λ y. x ≢ y) xs × Distinct xs

module _ (p : Primitives) where
  -- What one `encrypt` does to the transport.
  pub record Encrypted (t : Transport) (msg : Bytes) (f : ℕ × Bytes) (t' : Transport) : Type 0 where
    pub sealed : p.aead_encrypt t.send (nonce t.send_counter) (as_bytes t.request_id) msg ≡ some f.1
    pub counter : f.0 ≡ t.send_counter
    pub below : t.send_counter + 1 < 2 ^ 64
    pub after : t' ≡ record t { send_counter = t.send_counter + 1 }

  pub encrypt-Encrypted :
      (t : Transport) (msg : Bytes) {f : ℕ × Bytes} {t' : Transport}
      → encrypt p t msg ≡ ok (f, t')
      → Encrypted t msg f t'
  unfolding encrypt
  encrypt-Encrypted t msg {f} {t'} h =
      let (s, e, h1) =
        >>=-eq-ok
          (ok_or (p.aead_encrypt t.send (nonce t.send_counter) (as_bytes t.request_id) msg)
            encryption_failed)
          _ h in
      let (n, c, h2) = >>=-eq-ok (ok_or (checked_add_one t.send_counter) counter_exhausted) _ h1 in
      let (same, small) =
        checked_add_one-eq_some t.send_counter
          (ok_or-eq_ok (checked_add_one t.send_counter) counter_exhausted c) in
      record {
        sealed =
            ok_or-eq_ok (p.aead_encrypt t.send (nonce t.send_counter) (as_bytes t.request_id) msg)
              encryption_failed e
            ∙ ap some (cc h2);
        counter = cc h2;
        below = small;
        after = cc (h2, same);
      }

  -- A client or a broker that sends one message after the other.
  unfoldable pub encrypt_all :
      Transport → List Bytes → Result CryptoError (List (ℕ × Bytes) × Transport)
  encrypt_all t [] = ok ([], t)
  encrypt_all t (m ∷ ms) = do
    (f, t') ← encrypt p t m
    (fs, last) ← encrypt_all t' ms
    ok (f ∷ fs, last)

  -- The nonces used for some frames.
  abbrev pub nonces : List (ℕ × Bytes) → List Bytes
  nonces [] = []
  nonces (f ∷ fs) = nonce f.0 ∷ nonces fs

  -- All counters lie between two numbers.
  abbrev Between : ℕ → List (ℕ × Bytes) → Type 0
  Between lo fs = All (λ f. (lo ≤ f.0) × (f.0 < 2 ^ 64)) fs

  Between-mono : (lo hi : ℕ) (fs : List (ℕ × Bytes)) → lo ≤ hi → Between hi fs → Between lo fs
  Between-mono lo hi [] h b = tt
  Between-mono lo hi (f ∷ fs) h b = ((omega arith, b.0.1), Between-mono lo hi fs h b.1)

  fresh :
      (c : ℕ) (fs : List (ℕ × Bytes))
      → c < 2 ^ 64
      → Between (c + 1) fs
      → All (λ y. nonce c ≢ y) (nonces fs)
  fresh c [] h b = tt
  fresh c (f ∷ fs) h b =
      (λ e. let same = nonce_injective c f.0 h b.0.1 e in absurd (omega arith), fresh c fs h b.1)

  encrypt_all-Between :
      (t : Transport) (ms : List Bytes) {fs : List (ℕ × Bytes)} {last : Transport}
      → encrypt_all t ms ≡ ok (fs, last)
      → Between t.send_counter fs × Distinct (nonces fs)
  unfolding encrypt_all
  encrypt_all-Between t [] {fs} h =
      let same : [] ≡ fs = cc h in
      subst (λ x. Between t.send_counter x × Distinct (nonces x)) same (tt, tt)
  encrypt_all-Between t (m ∷ ms) {fs} h =
      let (a, e, h1) = >>=-eq-ok (encrypt p t m) _ h in
      let (b, later, h2) = >>=-eq-ok (encrypt_all a.1 ms) _ h1 in
      let done = encrypt-Encrypted t m e in
      let (between, distinct) = encrypt_all-Between a.1 ms later in
      let next : a.1.send_counter ≡ t.send_counter + 1 = ap (λ x. x.send_counter) done.after in
      let above = subst (λ n. Between n b.0) next between in
      let low : t.send_counter < 2 ^ 64 = omega (arith, done.below) in
      let same : a.0 ∷ b.0 ≡ fs = cc h2 in
      subst (λ x. Between t.send_counter x × Distinct (nonces x)) same
        (
          (
            (omega (arith, done.counter), omega (arith, done.counter)),
            Between-mono t.send_counter (t.send_counter + 1) b.0 (omega arith) above,
          ),
          (
            subst (λ c. All (λ y. nonce c ≢ y) (nonces b.0)) (sym done.counter)
                (fresh t.send_counter b.0 low above),
            distinct,
          ),
        )

  -- Each frame is its message, sealed with the key of the transport under the nonce of its counter.
  abbrev pub SealedEach : Transport → List Bytes → List (ℕ × Bytes) → Type 0
  SealedEach t [] [] = Unit
  SealedEach t (m ∷ ms) (f ∷ fs) =
      (p.aead_encrypt t.send (nonce f.0) (as_bytes t.request_id) m ≡ some f.1) × SealedEach t ms fs
  SealedEach t _ _ = ⊥

  SealedEach-later :
      (t : Transport) (n : ℕ) (ms : List Bytes) (fs : List (ℕ × Bytes))
      → SealedEach (record t { send_counter = n }) ms fs
      → SealedEach t ms fs
  SealedEach-later t n [] [] h = tt
  SealedEach-later t n (m ∷ ms) (f ∷ fs) h = (h.0, SealedEach-later t n ms fs h.1)
  SealedEach-later t n [] (f ∷ fs) h = h
  SealedEach-later t n (m ∷ ms) [] h = h

  encrypt_all-SealedEach :
      (t : Transport) (ms : List Bytes) {fs : List (ℕ × Bytes)} {last : Transport}
      → encrypt_all t ms ≡ ok (fs, last)
      → SealedEach t ms fs
  unfolding encrypt_all
  encrypt_all-SealedEach t [] {fs} h = let same : [] ≡ fs = cc h in subst (SealedEach t []) same tt
  encrypt_all-SealedEach t (m ∷ ms) {fs} h =
      let (a, e, h1) = >>=-eq-ok (encrypt p t m) _ h in
      let (b, later, h2) = >>=-eq-ok (encrypt_all a.1 ms) _ h1 in
      let done = encrypt-Encrypted t m e in
      let rest =
        subst (λ u. SealedEach u ms b.0) done.after (encrypt_all-SealedEach a.1 ms later) in
      let same : a.0 ∷ b.0 ≡ fs = cc h2 in
      subst (SealedEach t (m ∷ ms)) same (
        subst (λ n. p.aead_encrypt t.send (nonce n) (as_bytes t.request_id) m ≡ some a.0.1)
            (sym done.counter) done.sealed,
        SealedEach-later t (t.send_counter + 1) ms b.0 rest,
      )

  -- However many messages are sent over a transport, each is sealed with the transport's key under
  -- the nonce of the counter that is sent with it, and no two of these nonces are the same.
  pub encrypt_all-Distinct :
      (t : Transport) (ms : List Bytes) {fs : List (ℕ × Bytes)} {last : Transport}
      → encrypt_all t ms ≡ ok (fs, last)
      → SealedEach t ms fs × Distinct (nonces fs)
  encrypt_all-Distinct t ms h = (encrypt_all-SealedEach t ms h, (encrypt_all-Between t ms h).1)
