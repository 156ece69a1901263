-- ===== src/Pipe/Keep.antt =====
-- What holds between any two accesses, and that each access keeps it.
use mathlib.Core.Path.{subst}
use mirai_os.Prelude.{
  ℕ, zero, suc, ◌+◌, ◌-◌, ◌%◌, ◌<◌, ◌==◌, ◌≡◌, refl, Option, none, some, List, [], ◌∷◌, ◌++◌,
  length, length-append, append_assoc, arith, ap, sym, ◌∙◌, inl, inr, Bool-cases,
}
use mirai_os.Pipe.{
  Pipe, Writer, write_loop, store, signal_used, advance_w, Reader, read_loop, load, signal_free,
  advance_r, write_step, read_step, pipe_buf, set_byte,
}
use mirai_os.Pipe.Ring.{window, window-snoc}

-- The bytes that the writer has not stored yet.
abbrev pub unsent : Writer → List ℕ
unsent (write_loop bs) = bs
unsent (store b bs) = b ∷ bs
unsent (signal_used bs) = bs
unsent (advance_w bs) = bs

-- A free byte that the writer has taken and not given to the reader,
abbrev pub w_held : Writer → ℕ
w_held (write_loop bs) = 0
w_held (store b bs) = 1
w_held (signal_used bs) = 1
w_held (advance_w bs) = 0

-- one that is stored and not signalled,
abbrev pub w_pending : Writer → ℕ
w_pending (write_loop bs) = 0
w_pending (store b bs) = 0
w_pending (signal_used bs) = 1
w_pending (advance_w bs) = 0

-- and one that is stored where `wIndex` still points.
abbrev pub w_ahead : Writer → ℕ
w_ahead (write_loop bs) = 0
w_ahead (store b bs) = 0
w_ahead (signal_used bs) = 1
w_ahead (advance_w bs) = 1

-- The same for the reader.
abbrev pub r_held : Reader → ℕ
r_held (read_loop n) = 0
r_held (load n) = 1
r_held (signal_free n) = 1
r_held (advance_r n) = 0

abbrev pub r_claimed : Reader → ℕ
r_claimed (read_loop n) = 0
r_claimed (load n) = 1
r_claimed (signal_free n) = 0
r_claimed (advance_r n) = 0

abbrev pub r_ahead : Reader → ℕ
r_ahead (read_loop n) = 0
r_ahead (load n) = 0
r_ahead (signal_free n) = 1
r_ahead (advance_r n) = 1

-- The number of bytes that the reader has not loaded yet.
abbrev pub unread : Reader → ℕ
unread (read_loop n) = n
unread (load n) = suc n
unread (signal_free n) = n
unread (advance_r n) = n

-- The bytes stored and not loaded: their number, and the place of the first.
abbrev pub in_flight : Writer → Reader → Pipe → ℕ
in_flight w r p = p.bytes_used + w_pending w + r_claimed r

abbrev pub front : Reader → Pipe → ℕ
front r p = (p.r_index + r_ahead r) % pipe_buf

pub record IsFifo (input : List ℕ) (n : ℕ) (w : Writer) (r : Reader) (p : Pipe) : Type 0 where
  pub counts : p.bytes_free + p.bytes_used + w_held w + r_held r ≡ pipe_buf
  pub place :
      (p.w_index + w_ahead w) % pipe_buf ≡ (p.r_index + r_ahead r + in_flight w r p) % pipe_buf
  pub w_small : p.w_index < pipe_buf
  pub r_small : p.r_index < pipe_buf
  pub bytes : input ≡ p.got ++ (window p.buf (front r p) (in_flight w r p) ++ unsent w)
  pub total : length p.got + unread r ≡ n

-- After an access, if there was one.
abbrev pub KeptW : List ℕ → ℕ → Reader → Option (Writer × Pipe) → Type 0
KeptW input n r none = Unit
KeptW input n r (some s) = IsFifo input n s.0 r s.1

abbrev pub KeptR : List ℕ → ℕ → Writer → Option (Reader × Pipe) → Type 0
KeptR input n w none = Unit
KeptR input n w (some s) = IsFifo input n w s.0 s.1

module _ (input : List ℕ) (n : ℕ) where
  -- `in_flight` and `front` are what they were, written otherwise.
  bytes_same :
      (got left left' : List ℕ) (buf : ℕ → ℕ) (h h' k k' : ℕ)
      → h ≡ h'
      → k ≡ k'
      → left ≡ left'
      → input ≡ got ++ (window buf h k ++ left)
      → input ≡ got ++ (window buf h' k' ++ left')
  bytes_same got left left' buf h h' k k' e e' e'' b =
      subst (λ l. input ≡ got ++ (window buf h' k' ++ l)) e''
        (subst (λ j. input ≡ got ++ (window buf h' j ++ left)) e'
          (subst (λ i. input ≡ got ++ (window buf i k ++ left)) e b))

  pub write_step-IsFifo :
      (w : Writer) (r : Reader) (p : Pipe) → IsFifo input n w r p → KeptW input n r (write_step w p)
  unfolding write_step
  write_step-IsFifo (write_loop []) r p h = tt
  write_step-IsFifo (write_loop (b ∷ bs)) r p h = elim (Bool-cases (p.bytes_free == 0)) [
    | inl e ↦ rw e tt
    | inr e ↦
        let c = h.counts in
        rw e (record {
          counts = ground arith;
          place = h.place;
          w_small = h.w_small;
          r_small = h.r_small;
          bytes = h.bytes;
          total = h.total;
        })
  ]
  write_step-IsFifo (store b bs) r p h =
      let c = h.counts in
      let l = h.place in
      let small = h.w_small in
      let k = in_flight (store b bs) r p in
      let snoc =
        window-snoc p.buf (front r p) k p.w_index b (omega arith) (ground arith) (omega arith) in
      record {
        counts = h.counts;
        place = omega arith;
        w_small = h.w_small;
        r_small = h.r_small;
        bytes =
            bytes_same p.got bs bs (set_byte p.buf p.w_index b) (front r p) (front r p) (suc k)
              (p.bytes_used + 1 + r_claimed r) refl (omega arith) refl
              (h.bytes
                ∙ ap (λ l. p.got ++ l)
                    (sym (
                      ap (λ l. l ++ bs) snoc
                      ∙ append_assoc (window p.buf (front r p) k) (b ∷ []) bs)));
        total = h.total;
      }
  write_step-IsFifo (signal_used bs) r p h =
      let c = h.counts in
      let l = h.place in
      record {
        counts = omega arith;
        place = omega arith;
        w_small = h.w_small;
        r_small = h.r_small;
        bytes =
            bytes_same p.got bs bs p.buf (front r p) (front r p) (p.bytes_used + 1 + r_claimed r)
              (p.bytes_used + 1 + 0 + r_claimed r) refl (omega arith) refl h.bytes;
        total = h.total;
      }
  write_step-IsFifo (advance_w bs) r p h =
      let l = h.place in
      record {
        counts = h.counts;
        place = omega arith;
        w_small = omega arith;
        r_small = h.r_small;
        bytes = h.bytes;
        total = h.total;
      }

  pub read_step-IsFifo :
      (w : Writer) (r : Reader) (p : Pipe) → IsFifo input n w r p → KeptR input n w (read_step r p)
  unfolding read_step
  read_step-IsFifo w (read_loop zero) p h = tt
  read_step-IsFifo w (read_loop (suc m)) p h = elim (Bool-cases (p.bytes_used == 0)) [
    | inl e ↦ rw e tt
    | inr e ↦
        let c = h.counts in
        let l = h.place in
        rw e (record {
          counts = ground arith;
          place = ground arith;
          w_small = h.w_small;
          r_small = h.r_small;
          bytes =
              bytes_same p.got (unsent w) (unsent w) p.buf ((p.r_index + 0) % pipe_buf)
                ((p.r_index + 0) % pipe_buf) (p.bytes_used + w_pending w + 0)
                (p.bytes_used - 1 + w_pending w + 1) refl (ground arith) refl h.bytes;
          total = h.total;
        })
  ]
  read_step-IsFifo w (load m) p h =
      let c = h.counts in
      let l = h.place in
      let small = h.r_small in
      let k = p.bytes_used + w_pending w in
      let rest = window p.buf ((p.r_index + 1) % pipe_buf) k in
      let one_more : window p.buf ((p.r_index + 0) % pipe_buf) (k + 1) ≡ p.buf p.r_index ∷ rest =
        first_of k in
      record {
        counts = h.counts;
        place = omega arith;
        w_small = h.w_small;
        r_small = h.r_small;
        bytes =
            bytes_same (p.got ++ p.buf p.r_index ∷ []) (unsent w) (unsent w) p.buf
              ((p.r_index + 1) % pipe_buf) ((p.r_index + 1) % pipe_buf) k (k + 0) refl (omega arith)
              refl
              (h.bytes
                ∙ ap (λ l. p.got ++ (l ++ unsent w)) one_more
                ∙ sym (append_assoc p.got (p.buf p.r_index ∷ []) (rest ++ unsent w)));
        total = omega (arith, h.total, length-append p.got (p.buf p.r_index ∷ []));
      }
    where
      first_of :
          (k : ℕ)
          → window p.buf ((p.r_index + 0) % pipe_buf) (k + 1)
            ≡ p.buf p.r_index ∷ window p.buf ((p.r_index + 1) % pipe_buf) k
      first_of k =
          let same : (p.r_index + 0) % pipe_buf ≡ p.r_index =
            let small = h.r_small in omega arith in
          let more : k + 1 ≡ suc k = omega arith in rw (same, more) refl
  read_step-IsFifo w (signal_free m) p h =
      let c = h.counts in
      record {
        counts = omega arith;
        place = h.place;
        w_small = h.w_small;
        r_small = h.r_small;
        bytes = h.bytes;
        total = h.total;
      }
  read_step-IsFifo w (advance_r m) p h =
      let l = h.place in
      record {
        counts = h.counts;
        place = omega arith;
        w_small = h.w_small;
        r_small = omega arith;
        bytes =
            bytes_same p.got (unsent w) (unsent w) p.buf ((p.r_index + 1) % pipe_buf)
              (((p.r_index + 1) % pipe_buf + 0) % pipe_buf) (p.bytes_used + w_pending w + 0)
              (p.bytes_used + w_pending w + 0) (omega arith) refl refl h.bytes;
        total = h.total;
      }
