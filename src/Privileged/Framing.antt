-- ===== src/Privileged/Framing.antt =====
-- src/privileged/framing.rs: frames behind a length of four bytes. A reader is the bytes that are
-- still to come, behind which the stream ends; a writer is the bytes written so far. The texts of
-- I/O errors are left out.
pub mod RoundTrip
use shellfleet_agent.Common.{
  ℕ, zero, suc, ◌+◌, ◌*◌, ◌/◌, ◌%◌, ◌^◌, Bool, ◌||◌, List, [], ◌∷◌, ◌++◌, Option, none, some,
  if◌then◌else◌, ltb, leb, ◌==◌, is_empty, length, take, drop, Bytes, Result, ok, err, ◌>>=◌, ◌>>◌,
  ensure, ok_or, not,
}

pub data FrameError : Type 0 where
  read_length read_body invalid_length write_length write_body flush : FrameError

-- `u32::to_be_bytes`
unfoldable pub be_bytes32 : ℕ → Bytes
be_bytes32 n = (n / 16777216 % 256) ∷ (n / 65536 % 256) ∷ (n / 256 % 256) ∷ (n % 256) ∷ []

-- `AsyncReadExt::read_u32`
unfoldable pub read_u32 : Bytes → Option (ℕ × Bytes)
read_u32 (a ∷ b ∷ c ∷ d ∷ rest) = some (a * 16777216 + b * 65536 + c * 256 + d, rest)
read_u32 _ = none

-- `AsyncReadExt::read_exact` of n bytes
unfoldable pub read_exact : ℕ → Bytes → Option (Bytes × Bytes)
read_exact n s = if leb n (length s) then some (take n s, drop n s) else none

unfoldable pub read_frame : ℕ → Bytes → Result FrameError (Bytes × Bytes)
read_frame max_bytes reader = do
  (len, body) ← ok_or (read_u32 reader) read_length
  ensure (not (len == 0 || ltb max_bytes len)) invalid_length
  ok_or (read_exact len body) read_body

-- Which call on the writer fails, if any.
pub data WriteFault : Type 0 where
  no_fault at_length at_body at_flush : WriteFault

unfoldable pub write_frame : ℕ → WriteFault → Bytes → Bytes → Result FrameError Bytes
write_frame max_bytes fault writer body =
    if is_empty body || ltb max_bytes (length body) then err invalid_length else elim fault [
      | no_fault ↦ ok (writer ++ (be_bytes32 (length body % 2 ^ 32) ++ body))
      | at_length ↦ err write_length
      | at_body ↦ err write_body
      | at_flush ↦ err flush
    ]
