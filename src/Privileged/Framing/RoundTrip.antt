-- ===== src/Privileged/Framing/RoundTrip.antt =====
-- What `write_frame` writes, `read_frame` reads, and nothing else.
use shellfleet_agent.Common.{
  ℕ, zero, suc, ◌%◌, ◌^◌, ◌≤◌, ◌<◌, ◌≡◌, refl, sym, ap, ap₂, ◌∙◌, false, ◌||◌, List, [], ◌∷◌, ◌++◌,
  some, ltb, ◌==◌, is_empty, length, take, drop, Bytes, Result, ok, ◌>>=◌, ensure, ok_or,
  ok_or-eq_ok, >>=-eq-ok, not, length-take, arith, append_assoc, append-nil, take-append_self,
  drop-append_self, length-append, All,
}
use shellfleet_agent.Privileged.Framing.{
  FrameError, invalid_length, read_length, read_body, be_bytes32, read_u32, read_exact, read_frame,
  WriteFault, no_fault, write_frame,
}

-- The bytes of one frame.
abbrev pub frame : Bytes → Bytes
frame body = be_bytes32 (length body) ++ body

read_u32-be_bytes32 :
    (n : ℕ) (rest : Bytes) → n < 2 ^ 32 → read_u32 (be_bytes32 n ++ rest) ≡ some (n, rest)
unfolding read_u32 be_bytes32
read_u32-be_bytes32 n rest h = ground arith

read_exact-append :
    (body rest : Bytes) → read_exact (length body) (body ++ rest) ≡ some (body, rest)
unfolding read_exact
read_exact-append body rest =
    ground (arith, length-append body rest, take-append_self body rest, drop-append_self body rest)

write_frame-eq_ok :
    (max_bytes : ℕ) (fault : WriteFault) (writer body : Bytes) {w : Bytes}
    → max_bytes < 2 ^ 32
    → write_frame max_bytes fault writer body ≡ ok w
    → (1 ≤ length body) × (length body ≤ max_bytes) × (w ≡ writer ++ frame body)
unfolding write_frame
write_frame-eq_ok m no_fault s body b h =
    let small : length body ≤ m → length body % 2 ^ 32 ≡ length body = λ le. omega arith in
    ground (arith, nonempty body, small (ground arith))
  where
    nonempty : (x : Bytes) → is_empty x ≡ false → 1 ≤ length x
    nonempty [] e = cc
    nonempty (c ∷ x) e = omega arith
write_frame-eq_ok m f s body b h = ground arith

read_frame-frame :
    (max_bytes : ℕ) (body rest : Bytes)
    → max_bytes < 2 ^ 32
    → 1 ≤ length body
    → length body ≤ max_bytes
    → read_frame max_bytes (frame body ++ rest) ≡ ok (body, rest)
unfolding read_frame
read_frame-frame m body rest b lo hi =
    rw
      (
        append_assoc (be_bytes32 (length body)) body rest,
        read_u32-be_bytes32 (length body) (body ++ rest) (omega arith),
      )
      (rw (read_exact-append body rest) (ground arith))

-- A run of frames, as the relay and the gate exchange them.
unfoldable pub write_frames : ℕ → Bytes → List Bytes → Result FrameError Bytes
write_frames m writer [] = ok writer
write_frames m writer (b ∷ bs) = do w ← write_frame m no_fault writer b; write_frames m w bs

unfoldable pub read_frames : ℕ → ℕ → Bytes → Result FrameError (List Bytes × Bytes)
read_frames m zero reader = ok ([], reader)
read_frames m (suc n) reader = do
  (b, rest) ← read_frame m reader
  (bs, last) ← read_frames m n rest
  ok (b ∷ bs, last)

abbrev frames : List Bytes → Bytes
frames [] = []
frames (b ∷ bs) = frame b ++ frames bs

abbrev Fits : ℕ → Bytes → Type 0
Fits m b = (1 ≤ length b) × (length b ≤ m)

write_frames-eq_ok :
    (m : ℕ) (bs : List Bytes) (writer : Bytes) {w : Bytes}
    → m < 2 ^ 32
    → write_frames m writer bs ≡ ok w
    → All (Fits m) bs × (w ≡ writer ++ frames bs)
unfolding write_frames
write_frames-eq_ok m [] writer s h = (tt, cc (append-nil writer))
write_frames-eq_ok m (b ∷ bs) writer s h =
    let (v, e, later) = >>=-eq-ok (write_frame m no_fault writer b) (λ x. write_frames m x bs) h in
    let (lo, hi, same) = write_frame-eq_ok m no_fault writer b s e in
    let (fits, rest) = write_frames-eq_ok m bs v s later in
    (
      ((lo, hi), fits),
      rest ∙ ap (λ x. x ++ frames bs) same ∙ append_assoc writer (frame b) (frames bs),
    )

read_frames-frames :
    (m : ℕ) (bs : List Bytes) (rest : Bytes)
    → m < 2 ^ 32
    → All (Fits m) bs
    → read_frames m (length bs) (frames bs ++ rest) ≡ ok (bs, rest)
unfolding read_frames
read_frames-frames m [] rest s h = refl
read_frames-frames m (b ∷ bs) rest s h =
    rw
      (
        append_assoc (frame b) (frames bs) rest,
        read_frame-frame m b (frames bs ++ rest) s h.0.0 h.0.1,
      )
      (rw (read_frames-frames m bs rest s h.1))

-- With a frame limit below 2^32, the frames that are written in a row to a writer, whatever was
-- written before, are read back one by one, with what follows them left over.
pub read_frames-write_frames :
    (max_bytes : ℕ) (bodies : List Bytes) (writer rest : Bytes) {w : Bytes}
    → max_bytes < 2 ^ 32
    → write_frames max_bytes writer bodies ≡ ok w
    → (new : Bytes) × (w ≡ writer ++ new)
      × (read_frames max_bytes (length bodies) (new ++ rest) ≡ ok (bodies, rest))
read_frames-write_frames m bs writer rest s h =
    let (fits, same) = write_frames-eq_ok m bs writer s h in
    (frames bs, same, read_frames-frames m bs rest s fits)

take-append-drop : (n : ℕ) (xs : Bytes) → take n xs ++ drop n xs ≡ xs
take-append-drop zero xs = refl
take-append-drop (suc n) [] = refl
take-append-drop (suc n) (x ∷ xs) = ap (◌∷◌ x) (take-append-drop n xs)

read_u32-eq_some :
    (reader : Bytes) {n : ℕ} {rest : Bytes}
    → All (λ b. b < 256) reader
    → read_u32 reader ≡ some (n, rest)
    → (n < 2 ^ 32) × (reader ≡ be_bytes32 n ++ rest)
unfolding read_u32 be_bytes32
read_u32-eq_some (a ∷ b ∷ c ∷ d ∷ r) h e = ground arith
read_u32-eq_some [] h e = cc
read_u32-eq_some (a ∷ []) h e = cc
read_u32-eq_some (a ∷ b ∷ []) h e = cc
read_u32-eq_some (a ∷ b ∷ c ∷ []) h e = cc

read_exact-eq_some :
    (n : ℕ) (s : Bytes) {body rest : Bytes}
    → read_exact n s ≡ some (body, rest)
    → (length body ≡ n) × (s ≡ body ++ rest)
unfolding read_exact
read_exact-eq_some n s h = ground (arith, take-append-drop n s, length-take n s)

ensure-bounds :
    (m n : ℕ) {u : Unit {0}}
    → ensure (not (n == 0 || ltb m n)) invalid_length ≡ ok u
    → (1 ≤ n) × (n ≤ m)
ensure-bounds m n h = ground arith

write_frame-frame :
    (m : ℕ) (body : Bytes)
    → 1 ≤ length body
    → length body ≤ m
    → length body < 2 ^ 32
    → write_frame m no_fault [] body ≡ ok (frame body)
unfolding write_frame
write_frame-frame m [] lo hi s = absurd (omega arith)
write_frame-frame m (c ∷ body) lo hi s =
    let small : length (c ∷ body) % 2 ^ 32 ≡ length (c ∷ body) = omega arith in ground arith

-- A reader of bytes gives up a frame only if it begins with exactly what `write_frame` writes for
-- that frame, and the frame keeps the limit.
read_frame-write_frame :
    (max_bytes : ℕ) (reader : Bytes) {body rest : Bytes}
    → All (λ b. b < 256) reader
    → read_frame max_bytes reader ≡ ok (body, rest)
    → (w : Bytes) × (write_frame max_bytes no_fault [] body ≡ ok w)
      × (reader ≡ w ++ rest)
      × (1 ≤ length body)
      × (length body ≤ max_bytes)
unfolding read_frame
read_frame-write_frame m reader {body} {rest} h e =
    let (p, u, h1) = >>=-eq-ok (ok_or (read_u32 reader) read_length) _ e in
    let (_, g, h2) = >>=-eq-ok (ensure (not (p.0 == 0 || ltb m p.0)) invalid_length) _ h1 in
    let (small, head) = read_u32-eq_some reader h (ok_or-eq_ok (read_u32 reader) read_length u) in
    let (len, tail) = read_exact-eq_some p.0 p.1 (ok_or-eq_ok (read_exact p.0 p.1) read_body h2) in
    let (lo, hi) = ensure-bounds m p.0 g in
    (
      frame body,
      write_frame-frame m body (omega arith) (omega arith) (omega arith),
      head
          ∙ ap₂ (λ (n : ℕ) (s : Bytes). be_bytes32 n ++ s) (sym len) tail
          ∙ sym (append_assoc (be_bytes32 (length body)) body rest),
      omega arith,
      omega arith,
    )
