-- ===== src/Bufio.antt =====
-- The streams of phlibc/src/bufio.c, with `read` and `write` of phlibc/src/basicio.c. A stream's
-- buffer is the list of the bytes from `buf` to `writeEnd`; what lies behind `writeEnd` is never
-- read. Of `flags` each bit is a field. Parameters: the system calls `sysWrite` and `sysRead`, on a
-- world of their own, and whether `malloc` succeeds. The bytes that `fwrite` gets are a list, of
-- `size * nmemb` elements.
pub mod Lines
pub mod Full
mod Tests
use mirai_os.Prelude.{
  ℕ, zero, suc, ◌+◌, ◌-◌, ◌*◌, ◌/◌, ◌%◌, ◌==◌, ltb, leb, Bool, true, false, not, ◌&&◌, ◌||◌,
  if◌then◌else◌, Option, none, some, List, [], ◌∷◌, ◌++◌, length, take, drop, ℤ, pos, negsuc, neg,
  is_neg, truth, pos_part, ◌==ℤ◌,
}

-- `FILE`: `size` is `bufEnd - buf`.
pub record File : Type 0 where
  pub fd : ℤ
  pub mode : ℕ
  pub free_buf : Bool
  pub eof : Bool
  pub error : Bool
  pub cbuf : ℤ
  pub content : List ℕ
  pub size : ℕ

-- A stream, `errno`, and what the system calls change.
pub record Stream (W : Type 0) : Type 0 where
  pub file : File
  pub errno : ℤ
  pub world : W

abbrev pub SysWrite : Type 0 → Type 0
SysWrite W = ℤ → List ℕ → W → ℤ × W

abbrev pub SysRead : Type 0 → Type 0
SysRead W = ℤ → ℕ → W → ℤ × List ℕ × W

abbrev pub einval : ℕ
einval = 2

abbrev negate : ℤ → ℤ
negate (pos n) = neg n
negate (negsuc n) = pos (suc n)

abbrev is_empty : List ℕ → Bool
is_empty [] = true
is_empty (b ∷ bs) = false

-- One case of `parseMode`, behind the letter: `+` adds `more` to the flags.
mode_flags : (flags more : ℕ) → List ℕ → (errno : ℤ) → ℤ × ℤ
mode_flags flags more [] errno = (pos flags, errno)
mode_flags flags more (b ∷ bs) errno =
    if b == 43 then (pos (flags + more), errno) else (neg 1, pos einval)

-- `parseMode` of the bytes of a string, and `errno`. The flags of `sysOpen` are CREATE 1, READ 2,
-- WRITE 4, APPEND 16 and TRUNC 128; the letters are r, w and a.
pub parse_mode : (mode : List ℕ) (errno : ℤ) → ℤ × ℤ
parse_mode [] errno = (neg 1, pos einval)
parse_mode (b ∷ bs) errno =
    if b == 114
    then mode_flags 2 4 bs errno
    else if b == 119
    then mode_flags 133 2 bs errno
    else if b == 97
    then mode_flags 20 2 bs errno
    else (neg 1, pos einval)

-- The bytes up to the end of the first line: `memchr(str, '\n', totalSize)` and the rest of the
-- first part of the loop of `fwrite`.
pub line_size : List ℕ → ℕ
line_size [] = 0
line_size (b ∷ bs) = if b == 10 then 1 else suc (line_size bs)

module _ {W : Type 0} where
  pub fflush : SysWrite W → Stream W → ℤ × Stream W
  fflush sys_write s =
      let r = sys_write s.file.fd s.file.content s.world in
      let empty = record s.file { content = [] } in
      if is_empty s.file.content
      then (pos 0, s)
      else if is_neg r.0
      then (neg 1, record { file = record empty { error = true }; errno = negate r.0; world = r.1 })
      else (pos 0, record { file = empty; errno = s.errno; world = r.1 })

  -- `write` of basicio.c
  pub write : SysWrite W → List ℕ → Stream W → ℤ × Stream W
  write sys_write bytes s =
      let r = sys_write s.file.fd bytes s.world in
      if truth r.0
      then (neg 1, record s { errno = negate r.0; world = r.1 })
      else (pos (length bytes), record s { world = r.1 })

  -- `memcpy(stream->writeEnd, src, totalSize); stream->writeEnd += totalSize;`
  abbrev pub append : List ℕ → Stream W → Stream W
  append src s = record s { file = record s.file { content = s.file.content ++ src } }

  abbrev pub set_error : Stream W → Stream W
  set_error s = record s { file = record s.file { error = true } }

  -- `fwriteFBF` behind its call of `fflush`: `src` is what did not fit, and the bytes that are
  -- written without the buffer are the first ones of `bytes`.
  write_rest : SysWrite W → (bytes src : List ℕ) (nmemb : ℕ) → Stream W → ℕ × Stream W
  write_rest sys_write bytes src nmemb s =
      let w = write sys_write (take (length src) bytes) s in
      if ltb s.file.size (length src)
      then (if is_neg w.0 then (0, set_error w.1) else (nmemb, w.1))
      else (nmemb, append src s)

  pub fwrite_fbf : SysWrite W → (bytes : List ℕ) (nmemb : ℕ) → Stream W → ℕ × Stream W
  fwrite_fbf sys_write bytes nmemb s =
      let write_size = s.file.size - length s.file.content in
      let flushed = fflush sys_write s in
      if ltb write_size (length bytes)
      then (if truth flushed.0
          then (0, flushed.1)
          else write_rest sys_write bytes (drop write_size bytes) nmemb flushed.1)
      else (nmemb, append bytes s)

  -- The loop of `fwrite` on a stream that is buffered by lines: whether it came to its end.
  pub fwrite_lines : (fuel : ℕ) → SysWrite W → List ℕ → Stream W → Option (Bool × Stream W)
  fwrite_lines zero sys_write bytes s = none
  fwrite_lines (suc fuel) sys_write bytes s =
      let diff = line_size bytes in
      let put = fwrite_fbf sys_write (take diff bytes) diff s in
      let flushed = fflush sys_write put.1 in
      let rest = fwrite_lines fuel sys_write (drop diff bytes) flushed.1 in
      if is_empty bytes
      then some (true, s)
      else if put.0 == 0
      then some (false, put.1)
      else if is_neg flushed.0
      then some (false, flushed.1)
      else rest

  -- `fwrite` on a stream without a buffer
  fwrite_nbf : SysWrite W → (bytes : List ℕ) (nmemb : ℕ) → Stream W → ℕ × Stream W
  fwrite_nbf sys_write bytes nmemb s =
      let flushed = fflush sys_write s in
      let w = write sys_write bytes flushed.1 in
      if is_neg flushed.0
      then (0, flushed.1)
      else if is_neg w.0
      then (0, set_error w.1)
      else (nmemb, w.1)

  -- _IOFBF is 0, _IOLBF is 1.
  pub fwrite :
      (fuel : ℕ) → SysWrite W → (bytes : List ℕ) (nmemb : ℕ) → Stream W → Option (ℕ × Stream W)
  fwrite fuel sys_write bytes nmemb s =
      let lines = fwrite_lines fuel sys_write bytes s in
      if s.file.mode == 1
      then elim lines [ none ↦ none | some r ↦ some (if r.0 then nmemb else 0, r.1) ]
      else if s.file.mode == 0
      then some (fwrite_fbf sys_write bytes nmemb s)
      else some (fwrite_nbf sys_write bytes nmemb s)

  -- `setvbuf`: `given` says that there is a buffer, `got` that `malloc` gives one.
  set_buffer : (free_buf : Bool) (mode size : ℕ) → Stream W → Stream W
  set_buffer free_buf mode size s = record s {
    file = record s.file { free_buf = free_buf; content = []; size = size; mode = mode % 4 };
  }

  pub setvbuf : SysWrite W → (given got : Bool) (mode size : ℕ) → Stream W → ℤ × Stream W
  setvbuf sys_write given got mode size s =
      let flushed = fflush sys_write s in
      if truth flushed.0
      then (neg 1, flushed.1)
      else if given
      then (pos 0, set_buffer false mode size flushed.1)
      else if got
      then (pos 0, set_buffer true mode size flushed.1)
      else (neg 1, flushed.1)

  pub setbuf : SysWrite W → (given got : Bool) → Stream W → Stream W
  setbuf sys_write given got s = (setvbuf sys_write given got s.file.mode 512 s).1

  -- `fread` behind the test of `cbuf`: `first` is the byte of `cbuf`, and `sz` what is missing.
  read_rest : SysRead W → (size sz : ℕ) (first : List ℕ) → Stream W → ℕ × List ℕ × Stream W
  read_rest sys_read size sz first s =
      let r = sys_read s.file.fd sz s.world in
      let after = record s { world = r.2 } in
      if is_neg r.0
      then (0, first, record (set_error after) { errno = negate r.0 })
      else if not (truth r.0)
      then (0, first, set_error after)
      else if r.0 ==ℤ pos sz
      then (sz / size, first ++ r.1, after)
      else (pos_part r.0 / size, first ++ r.1, record after { file = record s.file { eof = true } })

  -- The result, the bytes at `ptr`, and the stream.
  pub fread : SysRead W → (size nmemb : ℕ) → Stream W → ℕ × List ℕ × Stream W
  fread sys_read size nmemb s =
      let sz = size * nmemb in
      if sz == 0
      then (0, [], s)
      else if s.file.cbuf ==ℤ neg 1
      then read_rest sys_read size sz [] s
      else if sz == 1
      then (1, pos_part s.file.cbuf ∷ [], s)
      else read_rest sys_read size (sz - 1) (pos_part s.file.cbuf ∷ []) s

  pub feof : Stream W → Bool
  feof s = s.file.eof

  pub ferror : Stream W → Bool
  ferror s = s.file.error

  pub clearerr : Stream W → Stream W
  clearerr s = record s { file = record s.file { error = false } }
