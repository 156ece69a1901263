-- ===== src/Print/Hex.antt =====
-- `hexprint` prints a number that can be read back.
use native.Mathlib.Numerals.{unary_clauses}
use native.Mathlib.Nat.{
  div-add-mod', mod-lt, mul-add-mod_self_left, mod-eq_of_lt, mul-le-mul_right, mul-le-mul,
}
use mirai_os.Prelude.{
  ℕ, zero, suc, ◌+◌, ◌-◌, ◌*◌, ◌/◌, ◌%◌, ◌^◌, ◌<◌, ◌≤◌, ltb, ◌≡◌, if◌then◌else◌, List, [], ◌∷◌,
  arith, ap, sym, ◌∙◌,
}
use mirai_os.Print.{nibble_char, hexprint}

-- The value of a hexadecimal digit, and of digits behind a number `n`.
abbrev pub nibble_of : ℕ → ℕ
nibble_of c = if ltb c 58 then c - 48 else c - 55

abbrev pub read_hex : ℕ → List ℕ → ℕ
read_hex n [] = n
read_hex n (c ∷ cs) = read_hex (n * 16 + nibble_of c) cs

nibble_of-nibble_char : (n : ℕ) → n < 16 → nibble_of (nibble_char n) ≡ n
nibble_of-nibble_char n lt = ground arith

-- A number has a digit before its last places.
pub digit_split : (v p base : ℕ) → 0 < p → 0 < base → v % (p * base) ≡ v / p % base * p + v % p
digit_split v p base pos some_base =
    let q = v / p in
    let r = v % p in
    let a = q / base in
    let b = q % base in
    let v_parts : q * p + r ≡ v = div-add-mod' v p in
    let q_parts : a * base + b ≡ q = div-add-mod' q base in
    let r_less : r < p = mod-lt v pos in
    let b_less : b < base = mod-lt q some_base in
    let product : (a * base + b) * p + r ≡ v = ap (λ x. x * p + r) q_parts ∙ v_parts in
    let whole : p * base * a + (b * p + r) ≡ v = omega (arith, product) in
    let bound : (b + 1) * p ≤ base * p = mul-le-mul_right p (omega (arith, b_less)) in
    let less : b * p + r < p * base = omega (arith, bound, r_less) in
    ap (λ n. n % (p * base)) (sym whole)
    ∙ mul-add-mod_self_left (p * base) a (b * p + r)
    ∙ mod-eq_of_lt less

pub power_suc : (base k : ℕ) → base ^ suc k ≡ base ^ k * base
power_suc base k = simp unary_clauses

pub power_pos : (base k : ℕ) → 0 < base → 0 < base ^ k
power_pos base zero pos = simp unary_clauses (omega arith)
power_pos base (suc k) pos =
    let before = power_pos base k pos in
    let product : 1 * 1 ≤ base ^ k * base = mul-le-mul before pos in
    simp unary_clauses (omega (arith, product))

-- `hexprint` of the places from `len` down to 0 prints digits whose value, behind a number `n`, is
-- that of these places.
pub read_hex-hexprint :
    (len value n : ℕ) → read_hex n (hexprint len value) ≡ n * 16 ^ suc len + value % 16 ^ suc len
unfolding hexprint
read_hex-hexprint zero value n =
    let digit = nibble_of-nibble_char (value / 1 % 16) (omega arith) in rw digit (omega arith)
read_hex-hexprint (suc len) value n =
    let p = 16 ^ suc len in
    let d = value / p % 16 in
    let digit = nibble_of-nibble_char d (mod-lt (value / p) (omega arith)) in
    let split = digit_split value p 16 (power_pos 16 (suc len) (omega arith)) (omega arith) in
    let sum : (n * 16 + d) * p + value % p ≡ n * (p * 16) + (d * p + value % p) = omega arith in
    ap (λ k. read_hex (n * 16 + k) (hexprint len value)) digit
    ∙ read_hex-hexprint len value (n * 16 + d)
    ∙ sum
    ∙ ap (λ k. n * (p * 16) + k) (sym split)
    ∙ ap (λ q. n * q + value % q) (sym (power_suc 16 (suc len)))
