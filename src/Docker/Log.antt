-- ===== src/Docker/Log.antt =====
-- The cut of a log in src/docker.rs: the last bytes, behind a mark.
use shellfleet_agent.Common.{
  Bool-cases, is_empty, All-append, lit, all, sym, ap, ◌∙◌, ℕ, ◌+◌, ◌-◌, ◌≤◌, ◌<◌, true, [], ◌∷◌,
  ◌++◌, none, some, if◌then◌else◌, ltb, Text, len_utf8, str_len, ◌≡◌, ◌⊎◌, inl, inr, refl, arith,
  All, Option-cases, Output,
}
use shellfleet_agent.Docker.Actions.{drain, keep_end, cut_mark, both_streams, combine_stdout_stderr}

drain-cases :
    (cut c : ℕ) (s : Text)
    → ((cut ≡ 0) × (drain cut (c ∷ s) ≡ some (c ∷ s)))
      ⊎ ((len_utf8 c ≤ cut) × (drain cut (c ∷ s) ≡ drain (cut - len_utf8 c) s))
      ⊎ ((0 < cut) × (cut < len_utf8 c) × (drain cut (c ∷ s) ≡ none))
unfolding drain
drain-cases cut c s = ground arith

drain-nil_cases :
    (cut : ℕ) → ((cut ≡ 0) × (drain cut [] ≡ some [])) ⊎ ((0 < cut) × (drain cut [] ≡ none))
unfolding drain
drain-nil_cases cut = ground arith

-- What `drain` leaves: an end of the text, shorter by the bytes that were asked for.
drain-eq_some :
    (cut : ℕ) (s : Text) (rest : Text)
    → drain cut s ≡ some rest
    → (front : Text) × (s ≡ front ++ rest) × (str_len front ≡ cut)
drain-eq_some cut [] rest h = elim (drain-nil_cases cut) [
  | inl (z, e) ↦ ([], ground arith, ground arith)
  | inr (z, e) ↦ ground arith
]
drain-eq_some cut (c ∷ s) rest h = elim (drain-cases cut c s) [
  | inl (z, e) ↦ ([], ground arith, ground arith)
  | inr (inl (l, e)) ↦
      let (front, k, n) = drain-eq_some (cut - len_utf8 c) s rest (sym e ∙ h) in
      (c ∷ front, ap (◌∷◌ c) k, omega (arith, n, l))
  | inr (inr (_, _, e)) ↦ ground arith
]

-- It does not panic on ASCII.
pub drain-ascii :
    (cut : ℕ) (s : Text)
    → All (λ c. c < 0x80) s
    → cut ≤ str_len s
    → (rest : Text) × (drain cut s ≡ some rest)
drain-ascii cut [] a h = elim (drain-nil_cases cut) [
  | inl (z, e) ↦ ([], e)
  | inr (z, e) ↦ ([], ground arith)
]
drain-ascii cut (c ∷ s) a h = elim (drain-cases cut c s) [
  | inl (z, e) ↦ (c ∷ s, e)
  | inr (inl (l, e)) ↦
      let (rest, k) = drain-ascii (cut - len_utf8 c) s a.1 (omega (arith, h, l)) in (rest, e ∙ k)
  | inr (inr (z, l, e)) ↦ ([], ground (arith, a.0))
]

keep_end-cases :
    (s : Text)
    → ((str_len s ≤ 8000) × (keep_end s ≡ some s))
      ⊎ ((rest : Text) × (8000 < str_len s)
          × (drain (str_len s - 8000) s ≡ some rest)
          × (keep_end s ≡ some (cut_mark (str_len s - 8000) ++ rest)))
      ⊎ ((8000 < str_len s) × (drain (str_len s - 8000) s ≡ none) × (keep_end s ≡ none))
unfolding keep_end
keep_end-cases s = elim (Option-cases (drain (str_len s - 8000) s)) [
  | inl d ↦ ground (arith, d)
  | inr (rest, d) ↦ ground (arith, d)
]

str_len-append : (s t : Text) → str_len (s ++ t) ≡ str_len s + str_len t
str_len-append [] t = omega arith
str_len-append (c ∷ s) t = omega (arith, str_len-append s t)

all_below : (s : Text) → all (λ c. ltb c 0x80) s ≡ true → All (λ c. c < 0x80) s
all_below [] h = tt
all_below (c ∷ s) h = (ground arith, all_below s (ground arith))

headed_ascii :
    (s : Text)
    → All (λ c. c < 0x80) s
    → All (λ c. c < 0x80) (if is_empty s then [] else s ++ lit "\n--- stderr ---\n")
headed_ascii [] a = tt
headed_ascii (c ∷ s) a =
    All-append (λ c. c < 0x80) (c ∷ s) (lit "\n--- stderr ---\n") a
      (all_below (lit "\n--- stderr ---\n") refl)

both_streams-ascii :
    (output : Output)
    → All (λ c. c < 0x80) output.stdout
    → All (λ c. c < 0x80) output.stderr
    → All (λ c. c < 0x80) (both_streams output)
unfolding both_streams
both_streams-ascii output a b = elim (Bool-cases (is_empty output.stderr)) [
  | inl e ↦ rw e a
  | inr e ↦ rw e (
      All-append (λ c. c < 0x80)
        (if is_empty output.stdout then [] else output.stdout ++ lit "\n--- stderr ---\n")
        output.stderr (headed_ascii output.stdout a) b)
]

-- The log that an operation reports: both streams if they have at most 8000 bytes, and else a
-- mark that counts the bytes cut from the front, and the last 8000 bytes.
combine_stdout_stderr-eq_some :
    (output : Output) (log : Text)
    → combine_stdout_stderr output ≡ some log
    → ((str_len (both_streams output) ≤ 8000) × (log ≡ both_streams output))
      ⊎ ((front : Text) × (rest : Text) × (both_streams output ≡ front ++ rest)
          × (str_len rest ≡ 8000)
          × (log ≡ cut_mark (str_len front) ++ rest))
unfolding combine_stdout_stderr
combine_stdout_stderr-eq_some output log h =
    let s = both_streams output in
    elim (keep_end-cases s) [
      | inl (l, e) ↦ inl (l, cc)
      | inr (inl (rest, l, d, e)) ↦
          let (front, k, n) = drain-eq_some (str_len s - 8000) s rest d in
          inr (
            front,
            rest,
            k,
            omega (arith, l, n, str_len-append front rest, ap str_len k),
            (let q : cut_mark (str_len s - 8000) ++ rest ≡ log = cc in sym q)
                ∙ ap (λ cut. cut_mark cut ++ rest) (sym n),
          )
      | inr (inr (l, d, e)) ↦ cc
    ]

-- Logs of ASCII characters are never the cause of a panic.
combine_stdout_stderr-ascii :
    (output : Output)
    → All (λ c. c < 0x80) output.stdout
    → All (λ c. c < 0x80) output.stderr
    → (log : Text) × (combine_stdout_stderr output ≡ some log)
unfolding combine_stdout_stderr
combine_stdout_stderr-ascii output a b =
    let s = both_streams output in
    elim (keep_end-cases s) [
      | inl (l, e) ↦ (s, e)
      | inr (inl (rest, l, d, e)) ↦ (cut_mark (str_len s - 8000) ++ rest, e)
      | inr (inr (l, d, e)) ↦
          let (rest, k) =
            drain-ascii (str_len s - 8000) s (both_streams-ascii output a b) (omega arith) in
          cc
    ]

keep_end-eq_none :
    (c : ℕ) (s : Text)
    → 8000 < str_len (c ∷ s)
    → str_len (c ∷ s) < 8000 + len_utf8 c
    → keep_end (c ∷ s) ≡ none
keep_end-eq_none c s l h = elim (drain-cases (str_len (c ∷ s) - 8000) c s) [
  | inl (z, _) ↦ absurd (omega (arith, z, l))
  | inr (inl (z, _)) ↦ absurd (omega (arith, z, h))
  | inr (inr (_, _, d)) ↦ elim (keep_end-cases (c ∷ s)) [
    | inl (k, _) ↦ absurd (omega (arith, k, l))
    | inr (inl (rest, _, q, _)) ↦ cc
    | inr (inr (_, _, e)) ↦ e
  ]
]

both_streams-stdout : (output : Output) → output.stderr ≡ [] → both_streams output ≡ output.stdout
unfolding both_streams
both_streams-stdout output e = rw e refl

-- When stderr is empty and the cut falls inside of the first character of stdout, which has then
-- more than one byte, the operation panics after `docker` has run.
combine_stdout_stderr-eq_none :
    (output : Output) (c : ℕ) (s : Text)
    → output.stdout ≡ c ∷ s
    → output.stderr ≡ []
    → 8000 < str_len (c ∷ s)
    → str_len (c ∷ s) < 8000 + len_utf8 c
    → combine_stdout_stderr output ≡ none
unfolding combine_stdout_stderr
combine_stdout_stderr-eq_none output c s o e l h =
    ap keep_end (both_streams-stdout output e ∙ o) ∙ keep_end-eq_none c s l h
