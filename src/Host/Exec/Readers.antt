-- ===== src/Host/Exec/Readers.antt =====
-- `read_to_limit` and `concatenate` of src/exec.rs: two readers that share one budget of bytes. An
-- interleaving is a list of events; a chunk is reserved by a load of the budget and a
-- compare-and-exchange, with the other reader's steps between. What follows a successful exchange
-- touches only the reader's own channel and the two flags, up to the next read.
use shellfleet_agent.Common.{
  ◌||◌, ℕ, ◌+◌, ◌-◌, min, Bool, true, false, List, [], ◌∷◌, ◌++◌, Option, none, some, if◌then◌else◌,
  ◌==◌, ltb, is_empty, length, take, Text, Bytes,
}

-- Where a reader stands: it waits for the pipe, holds a chunk, has loaded the budget for it, or has
-- ended by the end of the pipe, by the limit, by an error of the pipe, or by a panic.
pub data Phase : Type 0 where
  reading closed cut : Phase
  holding : (chunk : Bytes) → Phase
  loaded : (chunk : Bytes) (cur : ℕ) → Phase
  broken died : (reason : Text) → Phase

-- `seen` is all that the reader has taken from its pipe, `chunks` what its channel holds.
pub record Reader : Type 0 where
  pub phase : Phase
  pub seen : Bytes
  pub chunks : List Bytes

-- What the readers share; `notified` is the message in the channel of the limit.
pub record Account : Type 0 where
  pub budget : ℕ
  pub limited : Bool
  pub notified : Bool

pub data ReaderEvent : Type 0 where
  arrives : (chunk : Bytes) → ReaderEvent
  closes loads swaps swaps_spuriously : ReaderEvent
  breaks dies : (reason : Text) → ReaderEvent

-- The end of a round, with `reserved` bytes of the budget for the chunk.
unfoldable pub deliver : Bytes → ℕ → Reader → Account → Reader × Account
deliver chunk reserved r a =
    if ltb reserved (length chunk)
    then (
      record r { phase = cut; chunks = r.chunks ++ take reserved chunk ∷ [] },
      record a { limited = true; notified = true },
    )
    else (record r { phase = reading; chunks = r.chunks ++ chunk ∷ [] }, a)

-- `budget.load`, and the `break 0` when nothing is left.
unfoldable pub load : Bytes → Reader → Account → Reader × Account
load chunk r a =
    if min (length chunk) a.budget == 0
    then deliver chunk 0 r a
    else (record r { phase = loaded chunk a.budget }, a)

-- `compare_exchange_weak`; when it fails the budget is loaded again.
unfoldable pub exchange : Bytes → ℕ → Reader → Account → Reader × Account
exchange chunk cur r a =
    if a.budget == cur
    then deliver chunk (min (length chunk) cur) r
        (record a { budget = cur - min (length chunk) cur })
    else (record r { phase = holding chunk }, a)

-- One step of a reader; `none` where the event does not fit the phase. A read gives at least one
-- byte and at most a buffer.
unfoldable pub reader_step : ReaderEvent → Phase → Reader → Account → Option (Reader × Account)
reader_step (arrives chunk) reading r a =
    if is_empty chunk || ltb 8192 (length chunk)
    then none
    else some (record r { phase = holding chunk; seen = r.seen ++ chunk }, a)
reader_step closes reading r a = some (record r { phase = closed }, a)
reader_step (breaks reason) reading r a = some (record r { phase = broken reason }, a)
reader_step (dies reason) reading r a = some (record r { phase = died reason }, a)
reader_step loads (holding chunk) r a = some (load chunk r a)
reader_step swaps (loaded chunk cur) r a = some (exchange chunk cur r a)
reader_step swaps_spuriously (loaded chunk cur) r a = some (record r { phase = holding chunk }, a)
reader_step _ _ r a = none

-- Both readers and what they share.
pub record Pair : Type 0 where
  pub out : Reader
  pub errors : Reader
  pub account : Account

pub data Side : Type 0 where
  on_stdout on_stderr : Side

unfoldable pub put_out : Pair → Option (Reader × Account) → Option Pair
put_out s none = none
put_out s (some (r, a)) = some (record s { out = r; account = a })

unfoldable pub put_errors : Pair → Option (Reader × Account) → Option Pair
put_errors s none = none
put_errors s (some (r, a)) = some (record s { errors = r; account = a })

unfoldable pub pair_step : Side × ReaderEvent → Pair → Option Pair
pair_step (on_stdout, e) s = put_out s (reader_step e s.out.phase s.out s.account)
pair_step (on_stderr, e) s = put_errors s (reader_step e s.errors.phase s.errors s.account)

unfoldable pub interleave : List (Side × ReaderEvent) → Pair → Option Pair
interleave [] s = some s
interleave (e ∷ es) s = elim (pair_step e s) [ none ↦ none | some t ↦ interleave es t ]

abbrev pub new_reader : Reader
new_reader = record { phase = reading; seen = []; chunks = [] }

-- The readers as they are spawned.
unfoldable pub new_pair : ℕ → Pair
new_pair max_output_bytes = record {
  out = new_reader;
  errors = new_reader;
  account = record { budget = max_output_bytes; limited = false; notified = false };
}

-- `concatenate` up to its `from_utf8_lossy`, with what is in the buffer.
unfoldable pub concatenate_onto : ℕ → Bytes → List Bytes → Bytes
concatenate_onto max_output_bytes buf [] = buf
concatenate_onto max_output_bytes buf (chunk ∷ rest) =
    let more = concatenate_onto max_output_bytes (buf ++ chunk) rest in
    if ltb max_output_bytes (length buf + length chunk)
    then buf ++ take (max_output_bytes - length buf) chunk
    else more

unfoldable pub concatenate : ℕ → List Bytes → Bytes
concatenate max_output_bytes chunks = concatenate_onto max_output_bytes [] chunks
