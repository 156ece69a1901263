-- ===== src/Print/Dec.antt =====
-- `decprint` prints the last nine digits of a number.
use mirai_os.Prelude.{
  ℕ, zero, suc, ◌+◌, ◌-◌, ◌*◌, ◌/◌, ◌%◌, ◌^◌, ◌<◌, ◌==◌, ◌≡◌, true, false, List, [], ◌∷◌, arith, ap,
  sym, ◌∙◌, inl, inr, Bool-cases, pos,
}
use mirai_os.Print.{decprint_loop, decprint}
use mirai_os.Print.Hex.{digit_split, power_suc, power_pos}

-- The value of digits behind a number `n`.
abbrev pub read_dec : ℕ → List ℕ → ℕ
read_dec n [] = n
read_dec n (c ∷ cs) = read_dec (n * 10 + (c - 48)) cs

-- A digit before the last `i` places.
place :
    (i value n : ℕ)
    → let p = 10 ^ i in
      (n * 10 + value / p % 10) * p + value % p ≡ n * 10 ^ suc i + value % 10 ^ suc i
place i value n =
    let p = 10 ^ i in
    let d = value / p % 10 in
    let split = digit_split value p 10 (power_pos 10 i (omega arith)) (omega arith) in
    let sum : (n * 10 + d) * p + value % p ≡ n * (p * 10) + (d * p + value % p) = omega arith in
    sum
    ∙ ap (λ k. n * (p * 10) + k) (sym split)
    ∙ ap (λ q. n * q + value % q) (sym (power_suc 10 i))

read_dec-rest :
    (i value n : ℕ) → read_dec n (decprint_loop i value false) ≡ n * 10 ^ i + value % 10 ^ i
unfolding decprint_loop
read_dec-rest zero value n = omega arith
read_dec-rest (suc i) value n =
    let d = value / 10 ^ i % 10 in
    let digit : d + 48 - 48 ≡ d = omega arith in
    ap (λ k. read_dec (n * 10 + k) (decprint_loop i value false)) digit
    ∙ read_dec-rest i value (n * 10 + d)
    ∙ place i value n

read_dec-front : (i value : ℕ) → read_dec 0 (decprint_loop i value true) ≡ value % 10 ^ i
unfolding decprint_loop
read_dec-front zero value = omega arith
read_dec-front (suc i) value =
    let d = value / 10 ^ i % 10 in
    let digit : 0 * 10 + (d + 48 - 48) ≡ 0 * 10 + d = omega arith in
    let here = place i value 0 in
    elim (Bool-cases (d == 0)) [
      | inl e ↦
          let none : d ≡ 0 = ground arith in
          rw e (read_dec-front i value ∙ omega (arith, here, none, ap (λ k. k * 10 ^ i) none))
      | inr e ↦ rw e (
          ap (λ k. read_dec k (decprint_loop i value false)) digit
          ∙ read_dec-rest i value (0 * 10 + d)
          ∙ here
          ∙ omega arith)
    ]

-- For a number above 0, what `decprint` prints are digits whose value is the number modulo 10 ^ 9.
pub read_dec-decprint : (value : ℕ) → 0 < value → read_dec 0 (decprint (pos value)) ≡ value % 10 ^ 9
unfolding decprint
read_dec-decprint zero some_value = absurd (omega arith)
read_dec-decprint (suc n) some_value = read_dec-front 9 (suc n)
