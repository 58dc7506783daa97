-- ===== src/Privileged/Gate/Rules.antt =====
-- What steps of the approval gate's connection keep, and the rule of `?` for what they ensure.
use shellfleet_agent.Common.{
  ◌≡◌, ◌∙◌, inl, inr, refl, sym, ap, subst, List, [], ◌∷◌, Option, none, some, Text, Bytes, Result,
  ok, err, Result-cases, arith,
}
use shellfleet_agent.Privileged.Wire.{
  TrustedOperation, TrustedHostFrame, TrustedPlaintext, TrustedClientFrame, start, approve,
  ciphertext, resize, close, Shared,
}
use shellfleet_agent.Privileged.Framing.{read_frame, write_frame}
use shellfleet_agent.Privileged.Crypto.{Primitives, Transport, encrypt, decrypt}
use shellfleet_agent.Privileged.Approval.{Db}
use shellfleet_agent.Privileged.Gate
use shellfleet_agent.Privileged.Gate.{
  Failure, Child, World, PtyEvent, deadline, printed, incoming, Host, Action, ◌>>=◌, ◌>>◌, pure,
  fail, lift, call, fail_if, modify, receive_frame, write, send_host, send_error, send_encrypted,
  send_stream,
}
use shellfleet_agent.Privileged.Gate.Pty.{
  attempt, client_frame, client_payload, pty_round, pty_loop,
}

-- The operations started, the table and the shell.
pub record Core : Type 0 where
  pub started : List TrustedOperation
  pub db : Db
  pub child : Child

abbrev pub core : World → Core
core w = record { started = w.started; db = w.db; child = w.child }

-- A step that starts nothing, and touches neither the table nor the shell.
abbrev pub IsQuiet : {A : Type 0} → Action A → Type 0
IsQuiet m = (w : World) → core (m w).1 ≡ core w

pub >>=-eq_ok :
    {A B : Type 0} (m : Action A) (next : A → Action B) (w : World) (a : A)
    → (m w).0 ≡ ok a
    → (m >>= next) w ≡ next a (m w).1
unfolding ◌>>=◌
>>=-eq_ok m next w a e = ground (arith, e)

pub >>=-eq_err :
    {A B : Type 0} (m : Action A) (next : A → Action B) (w : World) (f : Failure)
    → (m w).0 ≡ err f
    → (m >>= next) w ≡ (err f, (m w).1)
unfolding ◌>>=◌
>>=-eq_err m next w f e = ground (arith, e)

-- The same of a part of the world, `π`.
abbrev pub Keeps : {X A : Type 0} → (World → X) → Action A → Type 0
Keeps π m = (w : World) → π (m w).1 ≡ π w

pub bind-Keeps :
    {X A B : Type 0} (π : World → X) (m : Action A) (next : A → Action B)
    → Keeps π m
    → ((a : A) → Keeps π (next a))
    → Keeps π (m >>= next)
bind-Keeps π m next h k w = elim (Result-cases (m w).0) [
  | inl (a, e) ↦ ap (λ r. π r.1) (>>=-eq_ok m next w a e) ∙ k a (m w).1 ∙ h w
  | inr (f, e) ↦ ap (λ r. π r.1) (>>=-eq_err m next w f e) ∙ h w
]

pub bind-IsQuiet :
    {A B : Type 0} (m : Action A) (next : A → Action B)
    → IsQuiet m
    → ((a : A) → IsQuiet (next a))
    → IsQuiet (m >>= next)
bind-IsQuiet m next h k = bind-Keeps core m next h k

pub lift-IsQuiet : {A E : Type 0} (f : E → Failure) (r : Result E A) → IsQuiet (lift f r)
unfolding lift
lift-IsQuiet f (ok a) w = refl
lift-IsQuiet f (err e) w = refl

pub call-IsQuiet : (f : Text → Failure) (r : Option Text) → IsQuiet (call f r)
unfolding call
call-IsQuiet f none w = refl
call-IsQuiet f (some e) w = refl

-- What holds after a success with a value, and after a failure.
abbrev pub Post :
    {A : Type 0} → (A → World → Type 0) → (World → Type 0) → Result Failure A × World → Type 0
Post Q R r = ((a : _) → r.0 ≡ ok a → Q a r.1) × ((e : Failure) → r.0 ≡ err e → R r.1)

abbrev pub Ensures :
    {A : Type 0} → (World → Type 0) → Action A → (A → World → Type 0) → (World → Type 0) → Type 0
Ensures P m Q R = (w : World) → P w → Post Q R (m w)

pub bind-Ensures :
    {A B : Type 0} (P R : World → Type 0) (Q : A → World → Type 0) (S : B → World → Type 0)
    (m : Action A) (next : A → Action B)
    → Ensures P m Q R
    → ((a : A) → Ensures (Q a) (next a) S R)
    → Ensures P (m >>= next) S R
bind-Ensures P R Q S m next h k w p = elim (Result-cases (m w).0) [
  | inl (a, e) ↦ subst (Post S R) (sym (>>=-eq_ok m next w a e)) (k a (m w).1 ((h w p).0 a e))
  | inr (f, e) ↦ subst (Post S R) (sym (>>=-eq_err m next w f e)) (λ b c. cc, λ g c. (h w p).1 f e)
]

-- A step that keeps a part of the world keeps what is said of it.
pub keeps-Ensures :
    {X A : Type 0} (π : World → X) (F : X → Type 0) (m : Action A)
    → Keeps π m
    → Ensures (λ w. F (π w)) m (λ _ w. F (π w)) (λ w. F (π w))
keeps-Ensures π F m h w p = let kept = subst F (sym (h w)) p in (λ a e. kept, λ e f. kept)

pub weaken :
    {A : Type 0} (P R R' : World → Type 0) (Q Q' : A → World → Type 0) (m : Action A)
    → ((a : A) (w : World) → Q a w → Q' a w)
    → ((w : World) → R w → R' w)
    → Ensures P m Q R
    → Ensures P m Q' R'
weaken P R R' Q Q' m q r h w p =
    (λ a e. q a (m w).1 ((h w p).0 a e), λ f e. r (m w).1 ((h w p).1 f e))

module _ (sh : Shared) (p : Primitives) (host : Host) where
  pub receive_frame-IsQuiet : IsQuiet (receive_frame sh p host)
  unfolding receive_frame
  receive_frame-IsQuiet w = elim (Result-cases (read_frame sh.max_frame_bytes w.input)) [
    | inl (a, e) ↦ ground (arith, e)
    | inr (f, e) ↦ ground (arith, e)
  ]

  pub write-IsQuiet : (body : Bytes) → IsQuiet (write sh p host body)
  unfolding write
  write-IsQuiet body w =
      elim (Result-cases
        (write_frame sh.max_frame_bytes (host.write_fault w.sent) w.written body)) [
          | inl (a, e) ↦ ground (arith, e)
          | inr (f, e) ↦ ground (arith, e)
        ]

  pub send_host-IsQuiet : (f : TrustedHostFrame) → IsQuiet (send_host sh p host f)
  unfolding send_host
  send_host-IsQuiet f =
      bind-IsQuiet (lift Gate.encode (sh.encode_host f)) (write sh p host)
        (lift-IsQuiet Gate.encode (sh.encode_host f)) write-IsQuiet

  pub send_encrypted-IsQuiet :
      (t : Transport) (plain : TrustedPlaintext) → IsQuiet (send_encrypted sh p host t plain)
  unfolding send_encrypted
  send_encrypted-IsQuiet t plain =
      bind-IsQuiet _ _ (lift-IsQuiet Gate.encode_plaintext (host.to_json plain)) λ encoded.
        bind-IsQuiet _ _ (lift-IsQuiet Gate.crypto (encrypt p t encoded))
          λ sealed. bind-IsQuiet _ _ (send_host-IsQuiet _) λ _. λ w. refl

  pub send_stream-IsQuiet :
      (stream : Text) (bytes : Bytes) (t : Transport)
      → IsQuiet (send_stream sh p host stream bytes t)
  unfolding send_stream
  send_stream-IsQuiet stream [] t = λ w. refl
  send_stream-IsQuiet stream (b ∷ bytes) t = send_encrypted-IsQuiet t _

  attempt-IsQuiet : {A : Type 0} (m : Action A) → IsQuiet m → IsQuiet (attempt m)
  unfolding attempt
  attempt-IsQuiet m h w = elim (Result-cases (m w).0) [
    | inl (a, e) ↦ ground (arith, e, h w)
    | inr (f, e) ↦ ground (arith, e, h w)
  ]

  client_frame-IsQuiet :
      (fault : Option Text) (f : TrustedClientFrame) (t : Transport)
      → IsQuiet (client_frame sh p host fault f t)
  unfolding client_frame
  client_frame-IsQuiet fault (ciphertext counter payload) t =
      bind-IsQuiet _ _ (lift-IsQuiet Gate.crypto (decrypt p t counter payload)) λ opened.
        bind-IsQuiet _ _ (call-IsQuiet Gate.pty fault)
          λ _. bind-IsQuiet _ _ (λ w. refl) λ _. λ w. refl
  client_frame-IsQuiet fault (resize cols rows) t =
      bind-IsQuiet _ _ (call-IsQuiet Gate.pty fault) λ _. λ w. refl
  client_frame-IsQuiet fault close t = λ w. refl
  client_frame-IsQuiet fault (start id operation key) t = λ w. refl
  client_frame-IsQuiet fault (approve signed key signature) t = λ w. refl

  pty_round-IsQuiet : (event : PtyEvent) (t : Transport) → IsQuiet (pty_round sh p host event t)
  unfolding pty_round client_payload
  pty_round-IsQuiet deadline t = λ w. refl
  pty_round-IsQuiet (printed taken none) t = λ w. refl
  pty_round-IsQuiet (printed taken (some chunk)) t =
      bind-IsQuiet _ _ (λ w. refl)
        λ _. bind-IsQuiet _ _ (send_encrypted-IsQuiet t _) λ next. λ w. refl
  pty_round-IsQuiet (incoming fault) t =
      bind-IsQuiet _ _ (attempt-IsQuiet (receive_frame sh p host) receive_frame-IsQuiet)
        payload_quiet
    where
      payload_quiet : (payload : Option Bytes) → IsQuiet (client_payload sh p host fault payload t)
      payload_quiet none = λ w. refl
      payload_quiet (some payload) =
          bind-IsQuiet _ _ (lift-IsQuiet Gate.decode (sh.decode_client payload))
            λ f. client_frame-IsQuiet fault f t

  continue-IsQuiet :
      (events : List PtyEvent) (t : Transport)
      → ((u : Transport) → IsQuiet (pty_loop sh p host events u))
      → (next : Option Transport)
      → IsQuiet (elim next as (λ _. Action Transport) [
        | none ↦ pure t
        | some u ↦ pty_loop sh p host events u
      ])
  continue-IsQuiet events t h none = λ w. refl
  continue-IsQuiet events t h (some u) = h u

  pub pty_loop-IsQuiet :
      (events : List PtyEvent) (t : Transport) → IsQuiet (pty_loop sh p host events t)
  unfolding pty_loop
  pty_loop-IsQuiet [] t = λ w. refl
  pty_loop-IsQuiet (event ∷ events) t =
      bind-IsQuiet (pty_round sh p host event t) _ (pty_round-IsQuiet event t)
        (continue-IsQuiet events t (pty_loop-IsQuiet events))

-- The outcome of a step that is known.
pub Post-ok :
    {A : Type 0} (Q : A → World → Type 0) (R : World → Type 0) (r : Result Failure A × World)
    (a : A) (w : World)
    → r ≡ (ok a, w)
    → Q a w
    → Post Q R r
Post-ok Q R r a w e q =
    subst (Post Q R) (sym e) (λ b k. let s : a ≡ b = cc in subst (λ c. Q c w) s q, λ f k. cc)

pub Post-err :
    {A : Type 0} (Q : A → World → Type 0) (R : World → Type 0) (r : Result Failure A × World)
    (f : Failure) (w : World)
    → r ≡ (err f, w)
    → R w
    → Post Q R r
Post-err Q R r f w e q = subst (Post Q R) (sym e) (λ b k. cc, λ g k. q)
