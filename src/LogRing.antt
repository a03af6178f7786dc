-- ===== src/LogRing.antt =====
-- apps/daemon/src/log_ring.rs: the ring of recent log lines, and the writer that fills it.
--
-- Standard output, the lossy decoding of bytes and the clock are outside: a write is given its text
-- and the time at which it happens.
pub mod Recent
pub mod Lines
use andler.Base.{
  ℕ, zero, suc, ◌≤◌, Bool, true, false, not, ◌&&◌, Option, none, some, List, [], ◌∷◌, ◌++◌, Text,
  length, leb, ◌==◌, retain, is_empty, if◌then◌else◌,
}
use andler.Words.{trim}

abbrev pub ring_capacity : ℕ
ring_capacity = 4096

-- A line and its time in milliseconds.
abbrev pub Line : Type 0
Line = ℕ × Text

-- The buffer, oldest first, and the lines that went to the subscribers, newest first.
pub record LogRing : Type 0 where
  pub buf : List Line
  pub sent : List Text

abbrev pub new_ring : LogRing
new_ring = record { buf = []; sent = [] }

abbrev pub pop_front : List Line → List Line
pop_front [] = []
pop_front (line ∷ lines) = lines

unfoldable pub push : LogRing → ℕ → Text → LogRing
push ring ts_ms line =
    let kept = if length ring.buf == ring_capacity then pop_front ring.buf else ring.buf in
    record { buf = kept ++ (ts_ms, line) ∷ []; sent = line ∷ ring.sent }

unfoldable pub snapshot : LogRing → ℕ → List Line
snapshot ring since_ms = retain (λ line. leb since_ms line.0) ring.buf

pub record RingWriter : Type 0 where
  pub ring : LogRing
  pub pending : Text

abbrev pub onto_line : ℕ → Option (Text × Text) → Option (Text × Text)
onto_line c none = none
onto_line c (some (line, rest)) = some (c ∷ line, rest)

-- The text up to the first line feed and with it, and the text after.
unfoldable pub take_line : Text → Option (Text × Text)
take_line [] = none
take_line (c ∷ t) =
    let later = onto_line c (take_line t) in if c == b'\n' then some (c ∷ [], t) else later

unfoldable pub push_line : LogRing → ℕ → Text → LogRing
push_line ring ts_ms line = if not (is_empty (trim line)) then push ring ts_ms line else ring

-- The `while let` loop; a round takes a character at least, so the length of the text is fuel enough.
unfoldable pub drain_lines : ℕ → ℕ → LogRing → Text → RingWriter
drain_lines zero ts_ms ring text = record { ring = ring; pending = text }
drain_lines (suc fuel) ts_ms ring text = elim (take_line text) [
  | some (line, rest) ↦ drain_lines fuel ts_ms (push_line ring ts_ms line) rest
  | none ↦ record { ring = ring; pending = text }
]

unfoldable pub write : RingWriter → ℕ → Text → RingWriter
unfolding drain_lines
write w ts_ms input = let text = w.pending ++ input in drain_lines (length text) ts_ms w.ring text

unfoldable pub flush : RingWriter → ℕ → RingWriter
flush w ts_ms =
    if not (is_empty w.pending)
    then record { ring = push w.ring ts_ms w.pending; pending = [] }
    else w
