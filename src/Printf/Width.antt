-- ===== src/Printf/Width.antt =====
-- A field that is wider than its number.
use mirai_os.Prelude.{
  ℕ, ◌+◌, ◌-◌, ◌^◌, ◌≤◌, ◌<◌, ◌==◌, ◌≡◌, pos, negsuc, Bool, false, List, [], ◌∷◌, ◌++◌, length,
  length-append, arith, Bool-cases, inl, inr,
}
use mirai_os.Printf.{
  Output, done, bind_temp, copy_reverse, flag_present, missing, print_padded, print_dec,
  truncate_int, put_plus, pad_loop, dec_digits,
}
use mirai_os.Printf.Buffer.{Filled, fill_loop-Filled}
use mirai_os.Printf.Digits.{Digits, dec_digits-Digits, add_to_buf-done}
use mirai_os.Printf.Dec.{copy_reverse-Copied, truncate_int-bound, is_negative}

print_padded-wide :
    (fuel n width : ℕ) (buf temp out : List ℕ)
    → length temp < width
    → n < length out + fuel
    → length out ≤ n
    → copy_reverse (pos n) temp buf ≡ done out
    → Filled n (print_padded fuel (pos n) [] (pos width) buf temp)
unfolding print_padded missing flag_present
print_padded-wide fuel n width buf temp out wide enough le copied =
    let test : (width - length temp == 0) ≡ false = ground arith in
    rw (copied, test) (fill_loop-Filled fuel n 32 out le enough)

digits-wide :
    (fuel n width m : ℕ) (buf : List ℕ) (o : Output)
    → 20 < width
    → n < fuel
    → length buf + 20 ≤ n
    → Digits (48 ∷ []) m 20 [] o
    → Filled n (
        bind_temp buf o (λ digits.
          bind_temp buf
            (pad_loop 0 (pos 100) 48 digits)
            (print_padded fuel (pos n) [] (pos width) buf)))
unfolding pad_loop
digits-wide fuel n width m buf o wide enough room ds =
    let count = ds.count in
    let out = copy_reverse-Copied n ds.digits buf ds.all (omega (arith, count)) in
    let same = out.count in
    let long = length-append buf out.digits in
    rw ds.output (
      print_padded-wide fuel n width buf ds.digits (buf ++ out.digits) (omega (arith, count))
        (omega arith) (omega (arith, count, same, long)) out.output)

-- Without flags, `printDec` with a width above 20 fails with E2BIG for every number, however large
-- the buffer of at least 21 bytes is, and fills it: no width is ever filled up on the right.
pub print_dec-wide :
    (fuel n width v : ℕ) (sign : Bool) (var_length : ℕ)
    → 20 < width
    → 21 ≤ n
    → n < fuel
    → v < 2 ^ 64
    → Filled n (print_dec fuel (pos n) v sign [] (pos width) (negsuc 0) var_length)
unfolding print_dec missing put_plus flag_present
print_dec-wide fuel n width v sign var_length wide room lt small =
    let w = truncate_int v sign var_length in
    let bound = truncate_int-bound v sign var_length small in
    elim (Bool-cases (is_negative sign w)) [
      | inl e ↦
          rw (e, add_to_buf-done n [] 45 (omega arith))
            (digits-wide fuel n width (2 ^ 64 - w) (45 ∷ []) (dec_digits fuel (2 ^ 64 - w)) wide lt
              (omega arith) (dec_digits-Digits fuel (2 ^ 64 - w) (omega arith) (ground arith)))
      | inr e ↦ rw e (
          digits-wide fuel n width w [] (dec_digits fuel w) wide lt (omega arith)
            (dec_digits-Digits fuel w (omega arith) bound))
    ]
