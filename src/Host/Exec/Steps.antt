-- ===== src/Host/Exec/Steps.antt =====
-- What one step of a reader of src/exec.rs does to its chunks and to the budget.
use shellfleet_agent.Common.{
  ==_iff, ℕ, ◌+◌, ◌-◌, ◌≤◌, min, ◌≡◌, ◌∙◌, inl, inr, refl, sym, ap, subst, Bool, true, false, ◌||◌,
  List, [], ◌∷◌, ◌++◌, append_assoc, append-nil, some, ◌==◌, ltb, is_empty, length, length-append,
  length-take, take, IsStart, take-IsStart, Bytes, Bool-cases, arith,
}
use shellfleet_agent.Host.Exec.Readers.{
  Phase, reading, closed, cut, holding, loaded, broken, died, Reader, Account, ReaderEvent, arrives,
  closes, loads, swaps, swaps_spuriously, breaks, dies, deliver, load, exchange, reader_step,
}

-- The bytes of the chunks.
abbrev pub joined : List Bytes → Bytes
joined [] = []
joined (chunk ∷ rest) = chunk ++ joined rest

joined-append : (a : List Bytes) (c : Bytes) → joined (a ++ c ∷ []) ≡ joined a ++ c
joined-append [] c = append-nil c
joined-append (x ∷ a) c = ap (λ s. x ++ s) (joined-append a c) ∙ sym (append_assoc x (joined a) c)

-- What a reader has sent and holds is what it has seen, unless it was cut at the limit.
abbrev pub IsFaithful : Phase → Reader → Bool → Type 0
IsFaithful cut r limited = (limited ≡ true) × IsStart (joined r.chunks) r.seen
IsFaithful reading r limited = joined r.chunks ≡ r.seen
IsFaithful closed r limited = joined r.chunks ≡ r.seen
IsFaithful (holding chunk) r limited = joined r.chunks ++ chunk ≡ r.seen
IsFaithful (loaded chunk cur) r limited = joined r.chunks ++ chunk ≡ r.seen
IsFaithful (broken reason) r limited = joined r.chunks ≡ r.seen
IsFaithful (died reason) r limited = joined r.chunks ≡ r.seen

-- What a step makes of a reader and the account.
pub record IsStep (r : Reader) (a : Account) (out : Reader × Account) : Type 0 where
  pub faithful : IsFaithful out.0.phase out.0 out.1.limited
  pub balance : out.1.budget + length (joined out.0.chunks) ≡ a.budget + length (joined r.chunks)
  pub stays : (a.limited ≡ true) → out.1.limited ≡ true

ltb-false : (a b : ℕ) → ltb a b ≡ false → b ≤ a
ltb-false a b h = ground arith

deliver-cut :
    (chunk : Bytes) (reserved : ℕ) (r : Reader) (a : Account)
    → ltb reserved (length chunk) ≡ true
    → deliver chunk reserved r a ≡ (
      record r { phase = cut; chunks = r.chunks ++ take reserved chunk ∷ [] },
      record a { limited = true; notified = true },
    )
unfolding deliver
deliver-cut chunk reserved r a e = ground (arith, e)

deliver-whole :
    (chunk : Bytes) (reserved : ℕ) (r : Reader) (a : Account)
    → ltb reserved (length chunk) ≡ false
    → deliver chunk reserved r a
      ≡ (record r { phase = reading; chunks = r.chunks ++ chunk ∷ [] }, a)
unfolding deliver
deliver-whole chunk reserved r a e = ground (arith, e)

deliver-IsStep :
    (chunk : Bytes) (reserved : ℕ) (r : Reader) (a a₀ : Account)
    → joined r.chunks ++ chunk ≡ r.seen
    → reserved ≤ length chunk
    → a.budget + reserved ≡ a₀.budget
    → a.limited ≡ a₀.limited
    → IsStep r a₀ (deliver chunk reserved r a)
deliver-IsStep chunk reserved r a a₀ f l b m = elim (Bool-cases (ltb reserved (length chunk))) [
  | inl e ↦ subst (IsStep r a₀) (sym (deliver-cut chunk reserved r a e)) (record {
    faithful =
        let (rest, k) = take-IsStart reserved chunk in
        (
          refl,
          (
            rest,
            ap (λ s. s ++ rest) (joined-append r.chunks (take reserved chunk))
                ∙ append_assoc (joined r.chunks) (take reserved chunk) rest
                ∙ ap (λ s. joined r.chunks ++ s) k
                ∙ f,
          ),
        );
    balance = omega (
      arith,
      b,
      ap length (joined-append r.chunks (take reserved chunk)),
      length-append (joined r.chunks) (take reserved chunk),
      length-take reserved chunk,
      l,
    );
    stays = λ h. refl;
  })
  | inr e ↦ subst (IsStep r a₀) (sym (deliver-whole chunk reserved r a e)) (record {
    faithful = joined-append r.chunks chunk ∙ f;
    balance = omega (
      arith,
      b,
      l,
      ltb-false reserved (length chunk) e,
      ap length (joined-append r.chunks chunk),
      length-append (joined r.chunks) chunk,
    );
    stays = λ h. m ∙ h;
  })
]

load-IsStep :
    (chunk : Bytes) (r : Reader) (a : Account)
    → joined r.chunks ++ chunk ≡ r.seen
    → IsStep r a (load chunk r a)
unfolding load
load-IsStep chunk r a f = elim (Bool-cases (min (length chunk) a.budget == 0)) [
  | inl e ↦
      let q : load chunk r a ≡ deliver chunk 0 r a = ground (arith, e) in
      subst (IsStep r a) (sym q) (deliver-IsStep chunk 0 r a a f (omega arith) (omega arith) refl)
  | inr e ↦
      let q : load chunk r a ≡ (record r { phase = loaded chunk a.budget }, a) =
        ground (arith, e) in
      subst (IsStep r a) (sym q) (record { faithful = f; balance = refl; stays = λ h. h })
]

exchange-IsStep :
    (chunk : Bytes) (cur : ℕ) (r : Reader) (a : Account)
    → joined r.chunks ++ chunk ≡ r.seen
    → IsStep r a (exchange chunk cur r a)
unfolding exchange
exchange-IsStep chunk cur r a f = elim (Bool-cases (a.budget == cur)) [
  | inl e ↦
      let taken = min (length chunk) cur in
      let paid = record a { budget = cur - min (length chunk) cur } in
      let q : exchange chunk cur r a ≡ deliver chunk (min (length chunk) cur) r paid =
        ground (arith, e) in
      subst (IsStep r a) (sym q) (
        deliver-IsStep chunk (min (length chunk) cur) r paid a f (omega arith)
          (omega (arith, (==_iff a.budget cur).0 e)) refl)
  | inr e ↦
      let q : exchange chunk cur r a ≡ (record r { phase = holding chunk }, a) =
        ground (arith, e) in
      subst (IsStep r a) (sym q) (record { faithful = f; balance = refl; stays = λ h. h })
]

pub reader_step-IsStep :
    (e : ReaderEvent) (p : Phase) (r : Reader) (a : Account) (next : Reader × Account)
    → IsFaithful p r a.limited
    → reader_step e p r a ≡ some next
    → IsStep r a next
unfolding reader_step
reader_step-IsStep (arrives chunk) reading r a next f h =
    elim (Bool-cases (is_empty chunk || ltb 8192 (length chunk))) [
      | inl e ↦ ground (arith, e, h)
      | inr e ↦
          let q : (record r { phase = holding chunk; seen = r.seen ++ chunk }, a) ≡ next =
            ground (arith, e, h) in
          subst (IsStep r a) q
            (record { faithful = ap (λ s. s ++ chunk) f; balance = refl; stays = λ k. k })
    ]
reader_step-IsStep closes reading r a next f h =
    let q : (record r { phase = closed }, a) ≡ next = cc in
    subst (IsStep r a) q (record { faithful = f; balance = refl; stays = λ k. k })
reader_step-IsStep (breaks reason) reading r a next f h =
    let q : (record r { phase = broken reason }, a) ≡ next = cc in
    subst (IsStep r a) q (record { faithful = f; balance = refl; stays = λ k. k })
reader_step-IsStep (dies reason) reading r a next f h =
    let q : (record r { phase = died reason }, a) ≡ next = cc in
    subst (IsStep r a) q (record { faithful = f; balance = refl; stays = λ k. k })
reader_step-IsStep loads (holding chunk) r a next f h =
    let q : load chunk r a ≡ next = cc in subst (IsStep r a) q (load-IsStep chunk r a f)
reader_step-IsStep swaps (loaded chunk cur) r a next f h =
    let q : exchange chunk cur r a ≡ next = cc in
    subst (IsStep r a) q (exchange-IsStep chunk cur r a f)
reader_step-IsStep swaps_spuriously (loaded chunk cur) r a next f h =
    let q : (record r { phase = holding chunk }, a) ≡ next = cc in
    subst (IsStep r a) q (record { faithful = f; balance = refl; stays = λ k. k })
reader_step-IsStep _ _ r a next f h = cc
