-- ===== src/Printf/Format.antt =====
-- `vsnprintf` on plain text.
use mirai_os.Prelude.{
  ℕ, zero, suc, ◌<◌, ◌==◌, ◌≡◌, refl, ℤ, false, List, [], ◌∷◌, ◌++◌, length, arith, ap, sym, ◌∙◌,
  All,
}
use mirai_os.Printf.{Output, done, format_loop, vsnprintf}

append_nil : (xs : List ℕ) → xs ++ [] ≡ xs
append_nil [] = refl
append_nil (x ∷ xs) = ap (λ ys. x ∷ ys) (append_nil xs)

append_cons : (xs : List ℕ) (x : ℕ) (ys : List ℕ) → (xs ++ x ∷ []) ++ ys ≡ xs ++ x ∷ ys
append_cons [] x ys = refl
append_cons (z ∷ xs) x ys = ap (λ zs. z ∷ zs) (append_cons xs x ys)

module _ (strings : ℕ → List ℕ) (print_float : ℤ → ℕ → Output) where
  format_loop-plain :
      (fuel size : ℕ) (format args buf : List ℕ)
      → length format < fuel
      → All (λ c. (c == 37) ≡ false) format
      → format_loop strings print_float fuel size format args buf ≡ done (buf ++ format)
  unfolding format_loop
  format_loop-plain zero size format args buf lt plain = absurd (omega arith)
  format_loop-plain (suc fuel) size [] args buf lt plain = ap done (sym (append_nil buf))
  format_loop-plain (suc fuel) size (c ∷ format) args buf lt (ne, plain) = rw ne (
      format_loop-plain fuel size format args (buf ++ c ∷ []) (omega arith) plain
      ∙ ap done (append_cons buf c format))

  -- On a format without `%`, `vsnprintf` ends and has written the whole format, whatever the size
  -- of the buffer.
  pub vsnprintf-plain :
      (fuel size : ℕ) (format args : List ℕ)
      → length format < fuel
      → All (λ c. (c == 37) ≡ false) format
      → vsnprintf strings print_float fuel size format args ≡ done format
  unfolding vsnprintf
  vsnprintf-plain fuel size format args lt plain =
      format_loop-plain fuel size format args [] lt plain
