-- ===== src/Initrd/Hex.antt =====
-- `parseHex` reads what a number's hexadecimal digits say.
use mirai_os.Prelude.{
  ℕ, zero, suc, ◌+◌, ◌*◌, ◌/◌, ◌%◌, ◌^◌, ◌<◌, ◌≡◌, ltb, if◌then◌else◌, arith, ap, ◌∙◌,
}
use mirai_os.Print.Hex.{digit_split, power_suc, power_pos}
use mirai_os.Initrd.{Ptr, Mem, digit_of, parse_from, parse_hex}

-- The byte of a digit, with upper-case letters.
abbrev pub hex_char : ℕ → ℕ
hex_char d = if ltb d 10 then 48 + d else 55 + d

-- The `n` bytes from `p` on are the last `n` hexadecimal digits of `v`.
abbrev pub IsHex : (n : ℕ) (p : Ptr) (v : ℕ) → Mem → Type 0
IsHex zero p v mem = Unit
IsHex (suc n) p v mem = (mem p ≡ hex_char (v / 16 ^ n % 16)) × IsHex n (p + 1) v mem

digit_of-hex_char : (d : ℕ) → d < 16 → digit_of (hex_char d) ≡ d
digit_of-hex_char d lt = ground arith

parse_from-IsHex :
    (n i : ℕ) (str : Ptr) (result v : ℕ) (mem : Mem)
    → IsHex n (str + i) v mem
    → result + v % 16 ^ n < 2 ^ 32
    → parse_from n i str result mem ≡ result + v % 16 ^ n
unfolding parse_from
parse_from-IsHex zero i str result v mem h lt = omega arith
parse_from-IsHex (suc n) i str result v mem h lt =
    let p = 16 ^ n in
    let d = v / p % 16 in
    let place = power_suc 16 n in
    let split : v % 16 ^ suc n ≡ d * p + v % p =
      ap (λ q. v % q) place ∙ digit_split v p 16 (power_pos 16 n (omega arith)) (omega arith) in
    let read : digit_of (mem (str + i)) ≡ d = ap digit_of h.0 ∙ digit_of-hex_char d (omega arith) in
    let at : str + i + 1 ≡ str + (i + 1) = omega arith in
    let less : result + d * p + v % p < 2 ^ 32 = omega (arith, split) in
    let no_wrap : (result + digit_of (mem (str + i)) * p) % 2 ^ 32 ≡ result + d * p =
      ap (λ x. (result + x * p) % 2 ^ 32) read ∙ small (result + d * p) (omega arith) in
    ap (λ r. parse_from n (i + 1) str r mem) no_wrap
    ∙ parse_from-IsHex n (i + 1) str (result + d * p) v mem (rw⁻¹ at h.1) less
    ∙ omega (arith, split)
  where
    small : (r : ℕ) → r < 2 ^ 32 → r % 2 ^ 32 ≡ r
    small r lt = omega arith

-- `parseHex` of the eight hexadecimal digits of a number of 32 bits, with upper-case letters, is that
-- number.
pub parse_hex-IsHex :
    (str v : ℕ) (mem : Mem) → IsHex 8 str v mem → v < 2 ^ 32 → parse_hex str mem ≡ v
unfolding parse_hex
parse_hex-IsHex str v mem h lt =
    let at : str + 0 ≡ str = omega arith in
    parse_from-IsHex 8 0 str 0 v mem (rw at h) (omega arith) ∙ omega arith
