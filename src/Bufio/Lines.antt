-- ===== src/Bufio/Lines.antt =====
-- `fwrite` on a stream that is buffered by lines.
use mirai_os.Prelude.{
  ℕ, zero, suc, ◌-◌, ◌<◌, ◌≤◌, ◌==◌, ltb, ◌≡◌, refl, true, false, some, List, [], ◌∷◌, ◌++◌,
  append_nil, append_assoc, length, take, drop, ℤ, pos, is_neg, arith, ap, sym, ◌∙◌, inl, inr,
  Bool-cases,
}
use mirai_os.Bufio.{File, Stream, SysWrite, fflush, append, fwrite_fbf, line_size, fwrite_lines}

-- The system call takes all bytes: `output` is what has been written.
abbrev pub Accepts : {W : Type 0} → SysWrite W → (W → List ℕ) → Type 0
Accepts {W} sys_write output =
    (fd : ℤ) (bytes : List ℕ) (w : W)
    → (is_neg (sys_write fd bytes w).0 ≡ false)
      × (output (sys_write fd bytes w).1 ≡ output w ++ bytes)

-- No line is longer than the buffer.
abbrev pub LinesFit : ℕ → List ℕ → Type 0
LinesFit size [] = Unit
LinesFit size (b ∷ bs) = (line_size (b ∷ bs) ≤ size) × LinesFit size bs

LinesFit-drop : (size n : ℕ) (bs : List ℕ) → LinesFit size bs → LinesFit size (drop n bs)
LinesFit-drop size zero bs h = h
LinesFit-drop size (suc n) [] h = tt
LinesFit-drop size (suc n) (b ∷ bs) h = LinesFit-drop size n bs h.1

line_size-suc : (b : ℕ) (bs : List ℕ) → (k : ℕ) × (line_size (b ∷ bs) ≡ suc k) × (k ≤ length bs)
unfolding line_size
line_size-suc b bs = elim (Bool-cases (b == 10)) [
  | inl e ↦ (0, rw e refl, omega arith)
  | inr e ↦ (line_size bs, rw e refl, line_size-le bs)
]
  where
    line_size-le : (bs : List ℕ) → line_size bs ≤ length bs
    line_size-le [] = omega arith
    line_size-le (b ∷ bs) = elim (Bool-cases (b == 10)) [
      | inl e ↦ rw e (omega arith)
      | inr e ↦ rw e (omega (arith, line_size-le bs))
    ]

take-drop : (n : ℕ) (bs : List ℕ) → take n bs ++ drop n bs ≡ bs
take-drop zero bs = refl
take-drop (suc n) [] = refl
take-drop (suc n) (b ∷ bs) = ap (λ l. b ∷ l) (take-drop n bs)

length-take_le : (n : ℕ) (bs : List ℕ) → length (take n bs) ≤ n
length-take_le zero bs = omega arith
length-take_le (suc n) [] = omega arith
length-take_le (suc n) (b ∷ bs) = omega (arith, length-take_le n bs)

length-drop_le : (n : ℕ) (bs : List ℕ) → length (drop n bs) ≤ length bs
length-drop_le zero bs = omega arith
length-drop_le (suc n) [] = omega arith
length-drop_le (suc n) (b ∷ bs) = omega (arith, length-drop_le n bs)

module _ {W : Type 0} (sys_write : SysWrite W) (output : W → List ℕ)
    (accepts : Accepts sys_write output) (f : File) (e : ℤ) where
  -- The stream with an empty buffer.
  abbrev pub idle : W → Stream W
  idle w = record { file = record f { content = [] }; errno = e; world = w }

  put_line :
      (w : W) (ln : List ℕ) (n : ℕ)
      → length ln ≤ f.size
      → fwrite_fbf sys_write ln n (idle w) ≡ (n, append ln (idle w))
  unfolding fwrite_fbf
  put_line w ln n le =
      let test : ltb (f.size - 0) (length ln) ≡ false = ground arith in rw test refl

  flush_line :
      (w : W) (b : ℕ) (bs : List ℕ)
      → fflush sys_write (append (b ∷ bs) (idle w)) ≡ (pos 0, idle (sys_write f.fd (b ∷ bs) w).1)
  unfolding fflush
  flush_line w b bs = rw (accepts f.fd (b ∷ bs) w).0 refl

  -- The lines of `bytes` have been written, and the buffer is empty again.
  abbrev Delivered : (fuel : ℕ) → List ℕ → W → Type 0
  Delivered fuel bytes w =
      (w' : W) × (fwrite_lines fuel sys_write bytes (idle w) ≡ some (true, idle w'))
      × (output w' ≡ output w ++ bytes)

  -- One round, on a line of `suc k` bytes.
  line_round :
      (fuel k b : ℕ) (bs : List ℕ) (w : W)
      → line_size (b ∷ bs) ≡ suc k
      → suc k ≤ f.size
      → Delivered fuel (drop k bs) (sys_write f.fd (b ∷ take k bs) w).1
      → Delivered (suc fuel) (b ∷ bs) w
  unfolding fwrite_lines
  line_round fuel k b bs w size fits rest =
      let put = put_line w (b ∷ take k bs) (suc k) (omega (arith, length-take_le k bs)) in
      let some_bytes : (suc k == 0) ≡ false = ground arith in
      (
        rest.0,
        rw (size, put, some_bytes, flush_line w b (take k bs)) rest.1,
        rest.2
            ∙ ap (λ l. l ++ drop k bs) (accepts f.fd (b ∷ take k bs) w).1
            ∙ append_assoc (output w) (b ∷ take k bs) (drop k bs)
            ∙ ap (λ l. output w ++ b ∷ l) (take-drop k bs),
      )

  -- On a stream with an empty buffer, where the system call takes all bytes, no line is longer than
  -- the buffer, and there is more fuel than bytes, the loop of `fwrite` for streams buffered by
  -- lines comes to its end: all bytes have been written in order, and the buffer is empty again.
  pub fwrite_lines-Delivered :
      (fuel : ℕ) (bytes : List ℕ) (w : W)
      → length bytes < fuel
      → LinesFit f.size bytes
      → (w' : W) × (fwrite_lines fuel sys_write bytes (idle w) ≡ some (true, idle w'))
        × (output w' ≡ output w ++ bytes)
  unfolding fwrite_lines
  fwrite_lines-Delivered zero bytes w lt fits = absurd (omega arith)
  fwrite_lines-Delivered (suc fuel) [] w lt fits = (w, refl, sym (append_nil (output w)))
  fwrite_lines-Delivered (suc fuel) (b ∷ bs) w lt fits =
      let line = line_size-suc b bs in
      let k = line.0 in
      line_round fuel k b bs w line.1 (omega (arith, line.1, fits.0)) (
        fwrite_lines-Delivered fuel (drop k bs) (sys_write f.fd (b ∷ take k bs) w).1
          (omega (arith, length-drop_le k bs)) (LinesFit-drop f.size k bs fits.1))
