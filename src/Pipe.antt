-- ===== src/Pipe.antt =====
-- A pipe, kernel/fs/pipe.c: `pipeWrite` of one thread and `pipeRead` of another, interleaved between
-- any two accesses to what they share. The semaphores are their counts: `semWait` waits until the
-- count is above 0 and takes one, and `semSignal` gives one.
pub mod Ring
pub mod Keep
pub mod Fifo
mod Tests
use mirai_os.Prelude.{
  ℕ, zero, suc, ◌+◌, ◌-◌, ◌%◌, ◌==◌, ◌≡◌, Bool, true, false, if◌then◌else◌, Option, none, some,
  List, [], ◌∷◌, ◌++◌,
}

abbrev pub pipe_buf : ℕ
pipe_buf = 4096

-- `struct Pipe`, and the bytes that the reader has put into its buffer.
pub record Pipe : Type 0 where
  pub bytes_free : ℕ
  pub bytes_used : ℕ
  pub r_index : ℕ
  pub w_index : ℕ
  pub buf : ℕ → ℕ
  pub got : List ℕ

-- Where `pipeWrite` stands in a round of its loop, with the bytes that it has still to write.
pub data Writer : Type 0 where
  write_loop : (left : List ℕ) → Writer
  store : (byte : ℕ) (left : List ℕ) → Writer  -- behind `semWait`
  signal_used : (left : List ℕ) → Writer
  advance_w : (left : List ℕ) → Writer

-- Where `pipeRead` stands, with the number of bytes that it has still to read.
pub data Reader : Type 0 where
  read_loop : (left : ℕ) → Reader
  load : (left : ℕ) → Reader  -- behind `semWait`
  signal_free : (left : ℕ) → Reader
  advance_r : (left : ℕ) → Reader

abbrev pub set_byte : (ℕ → ℕ) → (i byte : ℕ) → ℕ → ℕ
set_byte buf i byte j = if j == i then byte else buf j

-- `semInit(&pipe->bytesFree, PIPE_BUF)`, `semInit(&pipe->bytesUsed, 0)`
abbrev pub empty_pipe : (ℕ → ℕ) → Pipe
empty_pipe buf = record {
  bytes_free = pipe_buf;
  bytes_used = 0;
  r_index = 0;
  w_index = 0;
  buf = buf;
  got = [];
}

-- The next access of `pipeWrite`; none where it waits or has returned.
pub write_step : Writer → Pipe → Option (Writer × Pipe)
write_step (write_loop []) p = none
write_step (write_loop (b ∷ bs)) p =
    if p.bytes_free == 0
    then none
    else some (store b bs, record p { bytes_free = p.bytes_free - 1 })
write_step (store b bs) p = some (signal_used bs, record p { buf = set_byte p.buf p.w_index b })
write_step (signal_used bs) p = some (advance_w bs, record p { bytes_used = p.bytes_used + 1 })
write_step (advance_w bs) p =
    some (write_loop bs, record p { w_index = (p.w_index + 1) % pipe_buf })

-- The next access of `pipeRead`.
pub read_step : Reader → Pipe → Option (Reader × Pipe)
read_step (read_loop zero) p = none
read_step (read_loop (suc n)) p =
    if p.bytes_used == 0 then none else some (load n, record p { bytes_used = p.bytes_used - 1 })
read_step (load n) p = some (signal_free n, record p { got = p.got ++ p.buf p.r_index ∷ [] })
read_step (signal_free n) p = some (advance_r n, record p { bytes_free = p.bytes_free + 1 })
read_step (advance_r n) p = some (read_loop n, record p { r_index = (p.r_index + 1) % pipe_buf })

-- Both threads and the pipe.
pub record System : Type 0 where
  pub writer : Writer
  pub reader : Reader
  pub pipe : Pipe

-- One access of one of the threads.
pub data Step (s : System) : System → Type 0 where
  by_writer :
      (w : Writer) (p : Pipe)
      → write_step s.writer s.pipe ≡ some (w, p)
      → Step s (record s { writer = w; pipe = p })
  by_reader :
      (r : Reader) (p : Pipe)
      → read_step s.reader s.pipe ≡ some (r, p)
      → Step s (record s { reader = r; pipe = p })

-- `pipeWrite` of `bytes` and `pipeRead` of `n` bytes begin on an empty pipe.
abbrev pub begin : (bytes : List ℕ) (n : ℕ) (buf : ℕ → ℕ) → System
begin bytes n buf = record {
  writer = write_loop bytes;
  reader = read_loop n;
  pipe = empty_pipe buf;
}

pub data Reach (start : System) : System → Type 0 where
  here : Reach start start
  later : {s t : System} → Reach start s → Step s t → Reach start t
