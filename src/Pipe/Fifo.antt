-- ===== src/Pipe/Fifo.antt =====
-- What `pipeRead` gets is what `pipeWrite` writes, in every interleaving, and neither waits for ever.
use mathlib.Core.Path.{subst}
use mirai_os.Prelude.{
  ℕ, zero, suc, ◌+◌, ◌-◌, ◌*◌, ◌%◌, ◌≤◌, ◌==◌, ◌≡◌, ◌≢◌, refl, true, Option, none, some, List, [],
  ◌∷◌, ◌++◌, length, length-append, take, arith, ap, sym, ◌∙◌, inl, inr, Bool-cases,
}
use mirai_os.Pipe.{
  Pipe, Writer, write_loop, store, signal_used, advance_w, Reader, read_loop, load, signal_free,
  advance_r, write_step, read_step, pipe_buf, set_byte, System, Step, by_writer, by_reader, begin,
  Reach, here, later,
}
use mirai_os.Pipe.Ring.{window}
use mirai_os.Pipe.Keep.{
  w_held, w_pending, r_held, r_claimed, unsent, unread, in_flight, front, IsFifo, KeptW, KeptR,
  write_step-IsFifo, read_step-IsFifo,
}

length-window : (buf : ℕ → ℕ) (h k : ℕ) → length (window buf h k) ≡ k
length-window buf h zero = refl
length-window buf h (suc k) = ap suc (length-window buf ((h + 1) % pipe_buf) k)

-- The bytes in the pipe are among those that the semaphores count.
pending :
    (w : Writer) (r : Reader) (p : Pipe)
    → p.bytes_free + p.bytes_used + w_held w + r_held r ≡ pipe_buf
    → in_flight w r p ≤ pipe_buf
pending w r p c = omega (arith, w_le w, r_le r)
  where
    w_le : (w : Writer) → w_pending w ≤ w_held w
    w_le (write_loop bs) = omega arith
    w_le (store b bs) = omega arith
    w_le (signal_used bs) = omega arith
    w_le (advance_w bs) = omega arith

    r_le : (r : Reader) → r_claimed r ≤ r_held r
    r_le (read_loop n) = omega arith
    r_le (load n) = omega arith
    r_le (signal_free n) = omega arith
    r_le (advance_r n) = omega arith

take-append : (xs ys : List ℕ) → take (length xs) (xs ++ ys) ≡ xs
take-append [] ys = refl
take-append (x ∷ xs) ys = ap (λ l. x ∷ l) (take-append xs ys)

-- `pipeRead` is not done, and what the invariant says leaves one of the threads a step.
reader-Step :
    (bytes : List ℕ) (n m : ℕ) (w : Writer) (p : Pipe)
    → IsFifo bytes n w (read_loop (suc m)) p
    → n ≤ length bytes
    → (t : System) × Step (record { writer = w; reader = read_loop (suc m); pipe = p }) t
unfolding write_step read_step
reader-Step bytes n m w p h le = elim (Bool-cases (p.bytes_used == 0)) [
  | inr e ↦ (
    record { writer = w; reader = load m; pipe = record p { bytes_used = p.bytes_used - 1 } },
    by_reader (load m) (record p { bytes_used = p.bytes_used - 1 }) (rw e refl),
  )
  | inl e ↦ writer_steps w h e
]
  where
    writer_steps :
        (w : Writer)
        → IsFifo bytes n w (read_loop (suc m)) p
        → (p.bytes_used == 0) ≡ true
        → (t : System) × Step (record { writer = w; reader = read_loop (suc m); pipe = p }) t
    writer_steps (write_loop []) h e =
        let none_used : p.bytes_used + 0 + 0 ≡ 0 = ground arith in
        let all_got : bytes ≡ p.got ++ [] =
          subst (λ k. bytes ≡ p.got ++ (window p.buf (front (read_loop (suc m)) p) k ++ []))
            none_used h.bytes in
        absurd (omega (arith, ap length all_got, length-append p.got [], h.total, le))
    writer_steps (write_loop (b ∷ bs)) h e = elim (Bool-cases (p.bytes_free == 0)) [
      | inl full ↦ let c = h.counts in absurd (ground arith)
      | inr room ↦ (
        record {
          writer = store b bs;
          reader = read_loop (suc m);
          pipe = record p { bytes_free = p.bytes_free - 1 };
        },
        by_writer (store b bs) (record p { bytes_free = p.bytes_free - 1 }) (rw room refl),
      )
    ]
    writer_steps (store b bs) h e = (
      record {
        writer = signal_used bs;
        reader = read_loop (suc m);
        pipe = record p { buf = set_byte p.buf p.w_index b };
      },
      by_writer (signal_used bs) (record p { buf = set_byte p.buf p.w_index b }) refl,
    )
    writer_steps (signal_used bs) h e = (
      record {
        writer = advance_w bs;
        reader = read_loop (suc m);
        pipe = record p { bytes_used = p.bytes_used + 1 };
      },
      by_writer (advance_w bs) (record p { bytes_used = p.bytes_used + 1 }) refl,
    )
    writer_steps (advance_w bs) h e = (
      record {
        writer = write_loop bs;
        reader = read_loop (suc m);
        pipe = record p { w_index = (p.w_index + 1) % pipe_buf };
      },
      by_writer (write_loop bs) (record p { w_index = (p.w_index + 1) % pipe_buf }) refl,
    )

reader_steps :
    (bytes : List ℕ) (n : ℕ) (w : Writer) (r : Reader) (p : Pipe)
    → IsFifo bytes n w r p
    → n ≤ length bytes
    → r ≢ read_loop 0
    → (t : System) × Step (record { writer = w; reader = r; pipe = p }) t
unfolding read_step
reader_steps bytes n w (read_loop zero) p h le busy = absurd (busy refl)
reader_steps bytes n w (read_loop (suc m)) p h le busy = reader-Step bytes n m w p h le
reader_steps bytes n w (load m) p h le busy = (
  record {
    writer = w;
    reader = signal_free m;
    pipe = record p { got = p.got ++ p.buf p.r_index ∷ [] };
  },
  by_reader (signal_free m) (record p { got = p.got ++ p.buf p.r_index ∷ [] }) refl,
)
reader_steps bytes n w (signal_free m) p h le busy = (
  record { writer = w; reader = advance_r m; pipe = record p { bytes_free = p.bytes_free + 1 } },
  by_reader (advance_r m) (record p { bytes_free = p.bytes_free + 1 }) refl,
)
reader_steps bytes n w (advance_r m) p h le busy = (
  record {
    writer = w;
    reader = read_loop m;
    pipe = record p { r_index = (p.r_index + 1) % pipe_buf };
  },
  by_reader (read_loop m) (record p { r_index = (p.r_index + 1) % pipe_buf }) refl,
)

-- The accesses that are left.
abbrev pub w_weight : Writer → ℕ
w_weight (write_loop bs) = 4 * length bs
w_weight (store b bs) = 4 * length bs + 3
w_weight (signal_used bs) = 4 * length bs + 2
w_weight (advance_w bs) = 4 * length bs + 1

abbrev pub r_weight : Reader → ℕ
r_weight (read_loop m) = 4 * m
r_weight (load m) = 4 * m + 3
r_weight (signal_free m) = 4 * m + 2
r_weight (advance_r m) = 4 * m + 1

abbrev LighterW : Writer → Option (Writer × Pipe) → Type 0
LighterW w none = Unit
LighterW w (some s) = w_weight s.0 + 1 ≡ w_weight w

abbrev LighterR : Reader → Option (Reader × Pipe) → Type 0
LighterR r none = Unit
LighterR r (some s) = r_weight s.0 + 1 ≡ r_weight r

write_step-weight : (w : Writer) (p : Pipe) → LighterW w (write_step w p)
unfolding write_step
write_step-weight (write_loop []) p = tt
write_step-weight (write_loop (b ∷ bs)) p = elim (Bool-cases (p.bytes_free == 0)) [
  | inl e ↦ rw e tt
  | inr e ↦ rw e (omega arith)
]
write_step-weight (store b bs) p = omega arith
write_step-weight (signal_used bs) p = omega arith
write_step-weight (advance_w bs) p = omega arith

read_step-weight : (r : Reader) (p : Pipe) → LighterR r (read_step r p)
unfolding read_step
read_step-weight (read_loop zero) p = tt
read_step-weight (read_loop (suc m)) p = elim (Bool-cases (p.bytes_used == 0)) [
  | inl e ↦ rw e tt
  | inr e ↦ rw e (omega arith)
]
read_step-weight (load m) p = omega arith
read_step-weight (signal_free m) p = omega arith
read_step-weight (advance_r m) p = omega arith

Step-weight :
    (s t : System)
    → Step s t
    → w_weight t.writer + r_weight t.reader + 1 ≡ w_weight s.writer + r_weight s.reader
Step-weight s t (by_writer w p e) =
    let l = subst (LighterW s.writer) e (write_step-weight s.writer s.pipe) in omega (arith, l)
Step-weight s t (by_reader r p e) =
    let l = subst (LighterR s.reader) e (read_step-weight s.reader s.pipe) in omega (arith, l)

-- The number of accesses.
pub steps : {s t : System} → Reach s t → ℕ
steps here = 0
steps (later r step) = steps r + 1

module _ (bytes : List ℕ) (n : ℕ) (buf : ℕ → ℕ) where
  begin-IsFifo : IsFifo bytes n (write_loop bytes) (read_loop n) (begin bytes n buf).pipe
  begin-IsFifo = record {
    counts = refl;
    place = refl;
    w_small = omega arith;
    r_small = omega arith;
    bytes = refl;
    total = omega arith;
  }

  Step-IsFifo :
      (s t : System)
      → Step s t
      → IsFifo bytes n s.writer s.reader s.pipe
      → IsFifo bytes n t.writer t.reader t.pipe
  Step-IsFifo s t (by_writer w p e) h =
      subst (KeptW bytes n s.reader) e (write_step-IsFifo bytes n s.writer s.reader s.pipe h)
  Step-IsFifo s t (by_reader r p e) h =
      subst (KeptR bytes n s.writer) e (read_step-IsFifo bytes n s.writer s.reader s.pipe h)

  Reach-IsFifo :
      (s : System) → Reach (begin bytes n buf) s → IsFifo bytes n s.writer s.reader s.pipe
  Reach-IsFifo s here = begin-IsFifo
  Reach-IsFifo t (later {s = m} r step) = Step-IsFifo m t step (Reach-IsFifo m r)

  -- In every state that `pipeWrite` of `bytes` and `pipeRead` of `n` bytes reach from an empty pipe,
  -- `bytes` are, in this order, those that have been read, at most PIPE_BUF bytes in the pipe, and
  -- those that have not been stored yet; and what has been read and what is still to be read are
  -- `n` bytes.
  pub Reach-fifo :
      (s : System)
      → Reach (begin bytes n buf) s
      → (ring : List ℕ) × (bytes ≡ s.pipe.got ++ (ring ++ unsent s.writer))
        × (length ring ≤ pipe_buf)
        × (length s.pipe.got + unread s.reader ≡ n)
  Reach-fifo s r =
      let h = Reach-IsFifo s r in
      let c = h.counts in
      let k = in_flight s.writer s.reader s.pipe in
      (
        window s.pipe.buf (front s.reader s.pipe) k,
        h.bytes,
        rw (length-window s.pipe.buf (front s.reader s.pipe) k)
            (pending s.writer s.reader s.pipe c),
        h.total,
      )

  -- With `n` at most the length of `bytes`, in every state that they reach before `pipeRead` has
  -- returned, some thread has a next access.
  pub Reach-live :
      (s : System)
      → Reach (begin bytes n buf) s
      → n ≤ length bytes
      → s.reader ≢ read_loop 0
      → (t : System) × Step s t
  Reach-live s r le = reader_steps bytes n s.writer s.reader s.pipe (Reach-IsFifo s r) le

  Reach-weight :
      (s : System) (r : Reach (begin bytes n buf) s)
      → steps r + (w_weight s.writer + r_weight s.reader) ≡ 4 * (length bytes + n)
  unfolding steps
  Reach-weight s here = omega arith
  Reach-weight t (later {s = m} r step) = omega (arith, Reach-weight m r, Step-weight m t step)

  -- No run of them has more than 4 accesses for each byte that is to be written or read.
  pub Reach-steps :
      (s : System) (r : Reach (begin bytes n buf) s) → steps r ≤ 4 * (length bytes + n)
  Reach-steps s r = omega (arith, Reach-weight s r)

  -- When `pipeRead` has returned, it has read the first `n` bytes of `bytes`.
  pub Reach-read :
      (s : System)
      → Reach (begin bytes n buf) s
      → s.reader ≡ read_loop 0
      → s.pipe.got ≡ take n bytes
  Reach-read s r done =
      let f = Reach-fifo s r in
      let count : length s.pipe.got ≡ n = omega (arith, f.3, ap unread done) in
      sym (
        ap (take n) f.1
        ∙ ap (λ k. take k (s.pipe.got ++ (f.0 ++ unsent s.writer))) (sym count)
        ∙ take-append s.pipe.got (f.0 ++ unsent s.writer))
