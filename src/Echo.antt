-- ===== src/Echo.antt =====
-- examples/echo_server.cc: the session `echo`, as it is resumed by the completions of its reads and
-- writes. Bytes are natural numbers. A stop of the session's token is a read that fails.
pub mod Prefix
pub mod Run
use reactor.Prelude.{
  ℕ, zero, suc, ◌+◌, ◌≤◌, ◌≡◌, Bool, true, false, ◌||◌, List, [], ◌∷◌, ◌++◌, if◌then◌else◌, ◌==◌,
  length, replicate,
}

-- The size of `buf`.
abbrev pub capacity : ℕ
capacity = 4096

-- Where the session waits.
pub data Pc : Type 0 where
  reading : Pc
  writing : (n : ℕ) → Pc
  ended : Pc

-- `received` and `sent` are what the peer sent that a read has taken, and what writes have sent to it.
pub record Echo : Type 0 where
  pub pc : Pc
  pub buf : List ℕ
  pub received : List ℕ
  pub sent : List ℕ
  pub write_error : Bool  -- of the last write
  pub shutdowns : ℕ

-- The session at its first read.
abbrev pub begin : List ℕ → Echo
begin buf = record {
  pc = reading;
  buf = buf;
  received = [];
  sent = [];
  write_error = false;
  shutdowns = 0;
}

-- The completion of `async_read_some`, with what it has put in the buffer, and of `async_write`,
-- with how many bytes it has sent.
pub data Completion : Type 0 where
  read : (error : Bool) (bytes : List ℕ) → Completion
  written : (error : Bool) (count : ℕ) → Completion

abbrev pub take : ℕ → List ℕ → List ℕ
take zero xs = []
take (suc n) [] = []
take (suc n) (x ∷ xs) = x ∷ take n xs

-- The buffer with `bytes` over its front.
abbrev pub fill : List ℕ → List ℕ → List ℕ
fill [] buf = buf
fill (b ∷ bytes) [] = []
fill (b ∷ bytes) (x ∷ buf) = b ∷ fill bytes buf

-- The end of the loop, and the shutdown after it.
abbrev pub finish : Echo → Echo
finish s = record s { pc = ended; shutdowns = s.shutdowns + 1 }

-- A completion of another operation than the pending one changes nothing.
unfoldable pub resume_at : Pc → Completion → Echo → Echo
resume_at reading (read error bytes) s =
    let t : Echo = record s { buf = fill bytes s.buf; received = s.received ++ bytes } in
    if error || (length bytes == 0) then finish t else record t { pc = writing (length bytes) }
resume_at (writing n) (written error count) s =
    let t : Echo = record s { sent = s.sent ++ take count (take n s.buf); write_error = error } in
    if error then finish t else record t { pc = reading }
resume_at reading (written error count) s = s
resume_at (writing n) (read error bytes) s = s
resume_at ended c s = s

unfoldable pub resume : Echo → Completion → Echo
unfolding resume_at
resume s c = resume_at s.pc c s

-- What Asio completes an operation with, for a buffer of `size` bytes: a read takes no more than fits
-- the buffer, and nothing with an error, and a write without an error sends all that it was given.
pub data Completes (size : ℕ) : Pc → Completion → Type 0 where
  reads : {bytes : List ℕ} → length bytes ≤ size → Completes size reading (read false bytes)
  read_fails : Completes size reading (read true [])
  writes : {n : ℕ} → Completes size (writing n) (written false n)
  write_fails : {n count : ℕ} → count ≤ n → Completes size (writing n) (written true count)

-- The session from one state to another.
pub data Resumes (s : Echo) : Echo → Type 0 where
  here : Resumes s s
  later :
      {t : Echo} {c : Completion}
      → Resumes s t
      → Completes (length t.buf) t.pc c
      → Resumes s (resume t c)
