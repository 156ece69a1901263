-- ===== src/Pipe/Ring.antt =====
-- The bytes in the ring of a pipe.
use mirai_os.Prelude.{
  ℕ, zero, suc, ◌+◌, ◌%◌, ◌<◌, ◌==◌, ◌≡◌, refl, true, false, List, [], ◌∷◌, ◌++◌, arith, ap,
}
use mirai_os.Pipe.{set_byte, pipe_buf}

-- The `k` bytes from `h` on, going round.
abbrev pub window : (ℕ → ℕ) → ℕ → ℕ → List ℕ
window buf h zero = []
window buf h (suc k) = buf h ∷ window buf ((h + 1) % pipe_buf) k

-- A byte behind the last one.
pub window-snoc :
    (buf : ℕ → ℕ) (h k i b : ℕ)
    → h < pipe_buf
    → k < pipe_buf
    → i ≡ (h + k) % pipe_buf
    → window (set_byte buf i b) h (suc k) ≡ window buf h k ++ b ∷ []
window-snoc buf h zero i b lt room e = let at : (h == i) ≡ true = ground arith in rw at refl
window-snoc buf h (suc k) i b lt room e =
    let away : (h == i) ≡ false = ground arith in
    let rest =
      window-snoc buf ((h + 1) % pipe_buf) k i b (omega arith) (omega arith) (omega arith) in
    rw away (ap (λ l. buf h ∷ l) rest)
