-- ===== src/Bufio/Full.antt =====
-- `fwriteFBF`, on a stream with a buffer, and the flush after it.
use mirai_os.Prelude.{
  ℕ, ◌-◌, ◌≤◌, ltb, ◌≡◌, refl, true, false, if◌then◌else◌, List, [], ◌∷◌, ◌++◌, append_nil,
  append_assoc, length, drop, ℤ, pos, arith, ap, sym, ◌∙◌, inl, inr, Bool-cases,
}
use mirai_os.Bufio.{File, Stream, SysWrite, fflush, fwrite_fbf, write_rest}
use mirai_os.Bufio.Lines.{Accepts}

-- What the buffer, with room for `room` bytes, takes of the bytes in the end: where they do not
-- fit, the ones that would fill it are lost.
abbrev pub kept : (room : ℕ) → List ℕ → List ℕ
kept room bytes = if ltb room (length bytes) then drop room bytes else bytes

module _ {W : Type 0} (sys_write : SysWrite W) (output : W → List ℕ)
    (accepts : Accepts sys_write output) (f : File) (e : ℤ) where
  -- The stream with `c` in its buffer.
  abbrev pub holding : List ℕ → W → Stream W
  holding c w = record { file = record f { content = c }; errno = e; world = w }

  -- `fflush` writes the buffer.
  abbrev pub Flushed : List ℕ → W → ℤ × Stream W → Type 0
  Flushed bytes w r = (w' : W) × (r ≡ (pos 0, holding [] w')) × (output w' ≡ output w ++ bytes)

  fflush-Flushed : (c : List ℕ) (w : W) → Flushed c w (fflush sys_write (holding c w))
  unfolding fflush
  fflush-Flushed [] w = (w, refl, sym (append_nil (output w)))
  fflush-Flushed (b ∷ c) w =
      ((sys_write f.fd (b ∷ c) w).1, rw (accepts f.fd (b ∷ c) w).0 refl, (accepts f.fd (b ∷ c) w).1)

  fits_case :
      (c bytes : List ℕ) (n : ℕ) (w : W)
      → ltb (f.size - length c) (length bytes) ≡ false
      → fwrite_fbf sys_write bytes n (holding c w) ≡ (n, holding (c ++ bytes) w)
  unfolding fwrite_fbf
  fits_case c bytes n w test = rw test refl

  overflow_case :
      (c bytes : List ℕ) (n : ℕ) (w w' : W)
      → ltb (f.size - length c) (length bytes) ≡ true
      → length (drop (f.size - length c) bytes) ≤ f.size
      → fflush sys_write (holding c w) ≡ (pos 0, holding [] w')
      → fwrite_fbf sys_write bytes n (holding c w)
        ≡ (n, holding (drop (f.size - length c) bytes) w')
  unfolding fwrite_fbf write_rest
  overflow_case c bytes n w w' test le flushed =
      let small : ltb f.size (length (drop (f.size - length c) bytes)) ≡ false = ground arith in
      rw (test, flushed, small) refl

  -- On a stream with a buffer that holds `c`, where the system call takes all bytes, and those that
  -- do not fit at first fit into an empty buffer: `fwriteFBF` reports success, and after a flush
  -- `c` has been written and behind it the bytes, if they fitted at once; if not, the first of them,
  -- as many as there was room for, are missing.
  pub fwrite_fbf-Flushed :
      (c bytes : List ℕ) (n : ℕ) (w : W)
      → length (drop (f.size - length c) bytes) ≤ f.size
      → let r = fwrite_fbf sys_write bytes n (holding c w) in
        (r.0 ≡ n) × Flushed (c ++ kept (f.size - length c) bytes) w (fflush sys_write r.1)
  fwrite_fbf-Flushed c bytes n w le =
      let room = f.size - length c in
      elim (Bool-cases (ltb room (length bytes))) [
        | inl e ↦
            let first = fflush-Flushed c w in
            let rest = drop room bytes in
            let second = fflush-Flushed rest first.0 in
            rw (overflow_case c bytes n w first.0 e le first.1, e)
              (
                refl,
                (
                  second.0,
                  second.1,
                  second.2 ∙ ap (λ l. l ++ rest) first.2 ∙ append_assoc (output w) c rest,
                ),
              )
        | inr e ↦ rw (fits_case c bytes n w e, e) (refl, fflush-Flushed (c ++ bytes) w)
      ]
