-- ===== src/Host/Exec/Bounded.antt =====
-- What the two readers of src/exec.rs keep, however they interleave.
use shellfleet_agent.Common.{
  ℕ, ◌+◌, ◌≤◌, ◌≡◌, ◌∙◌, inl, inr, refl, sym, ap, subst, Bool, true, false, List, [], ◌∷◌, ◌++◌,
  append_assoc, append-nil, some, ltb, length, length-append, Bytes, Option-cases, arith,
}
use shellfleet_agent.Host.Exec.Readers.{
  Phase, reading, closed, cut, holding, loaded, broken, died, Reader, ReaderEvent, reader_step,
  Pair, Side, on_stdout, on_stderr, put_out, put_errors, pair_step, interleave, new_pair,
  concatenate_onto, concatenate,
}
use shellfleet_agent.Host.Exec.Steps.{joined, IsFaithful, reader_step-IsStep}

IsFaithful-stays :
    (p : Phase) (r : Reader) (l l' : Bool)
    → ((l ≡ true) → l' ≡ true)
    → IsFaithful p r l
    → IsFaithful p r l'
IsFaithful-stays cut r l l' stays (limited, start) = (stays limited, start)
IsFaithful-stays reading r l l' stays f = f
IsFaithful-stays closed r l l' stays f = f
IsFaithful-stays (holding chunk) r l l' stays f = f
IsFaithful-stays (loaded chunk cur) r l l' stays f = f
IsFaithful-stays (broken reason) r l l' stays f = f
IsFaithful-stays (died reason) r l l' stays f = f

-- The invariant of both readers and the budget.
record IsBalanced (max_output_bytes : ℕ) (s : Pair) : Type 0 where
  pub out : IsFaithful s.out.phase s.out s.account.limited
  pub errors : IsFaithful s.errors.phase s.errors s.account.limited
  pub balance :
      s.account.budget + (length (joined s.out.chunks) + length (joined s.errors.chunks))
      ≡ max_output_bytes

pair_step-IsBalanced :
    (m : ℕ) (e : Side × ReaderEvent) (s t : Pair)
    → IsBalanced m s
    → pair_step e s ≡ some t
    → IsBalanced m t
unfolding pair_step put_out put_errors
pair_step-IsBalanced m (on_stdout, e) s t b h =
    elim (Option-cases (reader_step e s.out.phase s.out s.account)) [
      | inl k ↦ ground (arith, h, k)
      | inr ((r, a), k) ↦
          let step = reader_step-IsStep e s.out.phase s.out s.account (r, a) b.out k in
          let q : record s { out = r; account = a } ≡ t = ground (arith, h, k) in
          subst (IsBalanced m) q (record {
            out = step.faithful;
            errors =
                IsFaithful-stays s.errors.phase s.errors s.account.limited a.limited step.stays
                  b.errors;
            balance = omega (arith, step.balance, b.balance);
          })
    ]
pair_step-IsBalanced m (on_stderr, e) s t b h =
    elim (Option-cases (reader_step e s.errors.phase s.errors s.account)) [
      | inl k ↦ ground (arith, h, k)
      | inr ((r, a), k) ↦
          let step = reader_step-IsStep e s.errors.phase s.errors s.account (r, a) b.errors k in
          let q : record s { errors = r; account = a } ≡ t = ground (arith, h, k) in
          subst (IsBalanced m) q (record {
            out = IsFaithful-stays s.out.phase s.out s.account.limited a.limited step.stays b.out;
            errors = step.faithful;
            balance = omega (arith, step.balance, b.balance);
          })
    ]

interleave-IsBalanced :
    (m : ℕ) (es : List (Side × ReaderEvent)) (s t : Pair)
    → IsBalanced m s
    → interleave es s ≡ some t
    → IsBalanced m t
unfolding interleave
interleave-IsBalanced m [] s t b h = let q : s ≡ t = cc in subst (IsBalanced m) q b
interleave-IsBalanced m (e ∷ es) s t b h = elim (Option-cases (pair_step e s)) [
  | inl k ↦ ground (arith, h, k)
  | inr (u, k) ↦
      interleave-IsBalanced m es u t (pair_step-IsBalanced m e s u b k) (ground (arith, h, k))
]

new_pair-IsBalanced : (m : ℕ) → IsBalanced m (new_pair m)
unfolding new_pair
new_pair-IsBalanced m = record { out = refl; errors = refl; balance = omega arith }

concatenate_onto-joined :
    (m : ℕ) (buf : Bytes) (chunks : List Bytes)
    → length buf + length (joined chunks) ≤ m
    → concatenate_onto m buf chunks ≡ buf ++ joined chunks
unfolding concatenate_onto
concatenate_onto-joined m buf [] h = sym (append-nil buf)
concatenate_onto-joined m buf (chunk ∷ rest) h =
    let ih =
      concatenate_onto-joined m (buf ++ chunk) rest
        (omega (arith, h, length-append buf chunk, length-append chunk (joined rest))) in
    let small : ltb m (length buf + length chunk) ≡ false =
      ground (arith, h, length-append chunk (joined rest)) in
    ground (arith, small, ih) ∙ append_assoc buf chunk (joined rest)

-- However the two readers interleave, what they have sent fits the limit together with what is left
-- of the budget, and `concatenate` gives back all that a reader has sent.
pub interleave-bounded :
    (max_output_bytes : ℕ) (es : List (Side × ReaderEvent)) (s : Pair)
    → interleave es (new_pair max_output_bytes) ≡ some s
    → (s.account.budget
          + (length (concatenate max_output_bytes s.out.chunks)
              + length (concatenate max_output_bytes s.errors.chunks))
        ≡ max_output_bytes)
      × (concatenate max_output_bytes s.out.chunks ≡ joined s.out.chunks)
      × (concatenate max_output_bytes s.errors.chunks ≡ joined s.errors.chunks)
unfolding concatenate
interleave-bounded m es s h =
    let b = interleave-IsBalanced m es (new_pair m) s (new_pair-IsBalanced m) h in
    let out = concatenate_onto-joined m [] s.out.chunks (omega (arith, b.balance)) in
    let errors = concatenate_onto-joined m [] s.errors.chunks (omega (arith, b.balance)) in
    (omega (arith, b.balance, ap length out, ap length errors), out, errors)

-- Both readers are faithful at the end.
pub interleave-IsFaithful :
    (max_output_bytes : ℕ) (es : List (Side × ReaderEvent)) (s : Pair)
    → interleave es (new_pair max_output_bytes) ≡ some s
    → IsFaithful s.out.phase s.out s.account.limited
      × IsFaithful s.errors.phase s.errors s.account.limited
interleave-IsFaithful m es s h =
    let b = interleave-IsBalanced m es (new_pair m) s (new_pair-IsBalanced m) h in (b.out, b.errors)
