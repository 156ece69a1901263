-- ===== src/Printf/Buffer.antt =====
-- The bound that `ADD_TO_BUF` keeps, and its length.
use mirai_os.Prelude.{
  ℕ, zero, suc, ◌≤◌, ◌==◌, ℤ, pos, Bool, true, false, ◌||◌, ◌^◌, if◌then◌else◌, List, [], ◌∷◌,
  length, length-append, arith, Bool-cases, inl, inr, ◌≡◌, refl, ◌+◌, ◌<◌, ◌++◌,
}
use mirai_os.Printf.{
  Output, done, fail, no_fuel, bind, bind_temp, add_to_buf, pad_loop, fill_loop, copy_reverse,
  put_plus, print_padded, print_dec, missing, dec_digits, flag_present, truncate_int, e2big,
}
use mirai_os.Printf.Digits.{dec_digits-Digits}
use mirai_os.Printf.Dec.{truncate_int-bound, is_negative, magnitude}

-- What is written fits in `n` bytes, and an error is E2BIG; fuel does not run out.
abbrev pub Fits : ℕ → Output → Type 0
Fits n (done buf) = length buf ≤ n
Fits n (fail e buf) = (e ≡ e2big) × (length buf ≤ n)
Fits n no_fuel = ⊥

bind-Fits :
    (n : ℕ) (o : Output) (f : List ℕ → Output)
    → Fits n o
    → ((buf : List ℕ) → length buf ≤ n → Fits n (f buf))
    → Fits n (bind o f)
bind-Fits n (done buf) f h k = k buf h
bind-Fits n (fail e buf) f h k = h
bind-Fits n no_fuel f h k = h

-- The buffer is as it was while `temp`, of `m` bytes, is written.
bind_temp-Fits :
    (n m : ℕ) (buf : List ℕ) (o : Output) (f : List ℕ → Output)
    → length buf ≤ n
    → Fits m o
    → ((temp : List ℕ) → length temp ≤ m → Fits n (f temp))
    → Fits n (bind_temp buf o f)
bind_temp-Fits n m buf (done temp) f le h k = k temp h
bind_temp-Fits n m buf (fail e temp) f le h k = (h.0, le)
bind_temp-Fits n m buf no_fuel f le h k = h

if-Fits : (n : ℕ) (b : Bool) (o p : Output) → Fits n o → Fits n p → Fits n (if b then o else p)
if-Fits n true o p h k = h
if-Fits n false o p h k = k

add_to_buf-Fits :
    (n : ℕ) (buf : List ℕ) (c : ℕ) → length buf ≤ n → Fits n (add_to_buf (pos n) buf c)
unfolding add_to_buf
add_to_buf-Fits n buf c h = elim (Bool-cases (length buf == n)) [
  | inl e ↦ rw e (refl, h)
  | inr e ↦ rw e (ground (arith, length-append buf (c ∷ [])))
]

copy_reverse-Fits :
    (n : ℕ) (temp buf : List ℕ) → length buf ≤ n → Fits n (copy_reverse (pos n) temp buf)
unfolding copy_reverse
copy_reverse-Fits n [] buf h = h
copy_reverse-Fits n (c ∷ temp) buf h =
    bind-Fits n (copy_reverse (pos n) temp buf) (λ b. add_to_buf (pos n) b c)
      (copy_reverse-Fits n temp buf h) (λ b h'. add_to_buf-Fits n b c h')

pad_loop-Fits : (k n c : ℕ) (buf : List ℕ) → length buf ≤ n → Fits n (pad_loop k (pos n) c buf)
unfolding pad_loop
pad_loop-Fits zero n c buf h = h
pad_loop-Fits (suc k) n c buf h =
    bind-Fits n (add_to_buf (pos n) buf c) (pad_loop k (pos n) c) (add_to_buf-Fits n buf c h)
      (λ b h'. pad_loop-Fits k n c b h')

-- The loop that adds bytes without end stops where the buffer is full.
-- The buffer is full, and the error is E2BIG.
abbrev pub Filled : ℕ → Output → Type 0
Filled n o = (out : List ℕ) × (o ≡ fail e2big out) × (length out ≡ n)

pub fill_loop-Filled :
    (fuel n c : ℕ) (buf : List ℕ)
    → length buf ≤ n
    → n < length buf + fuel
    → Filled n (fill_loop fuel (pos n) c buf)
unfolding fill_loop add_to_buf
fill_loop-Filled zero n c buf le lt = absurd (omega arith)
fill_loop-Filled (suc fuel) n c buf le lt = elim (Bool-cases (length buf == n)) [
  | inl e ↦ (buf, rw e refl, ground arith)
  | inr e ↦
      let long = length-append buf (c ∷ []) in
      rw e (fill_loop-Filled fuel n c (buf ++ c ∷ []) (ground (arith, long)) (omega (arith, long)))
]

fill_loop-Fits :
    (fuel n c : ℕ) (buf : List ℕ)
    → length buf ≤ n
    → n < fuel
    → Fits n (fill_loop fuel (pos n) c buf)
fill_loop-Fits fuel n c buf h lt =
    let full = fill_loop-Filled fuel n c buf h (omega arith) in
    rw full.1 (refl, omega (arith, full.2))

dec_digits-Fits : (fuel n : ℕ) → 20 < fuel → n < 2 ^ 64 → Fits 20 (dec_digits fuel n)
dec_digits-Fits fuel n lt small =
    let ds = dec_digits-Digits fuel n lt small in rw ds.output ds.count

put_plus-Fits : (n : ℕ) (flags : List ℕ) → Fits n (put_plus (pos n) flags)
unfolding put_plus
put_plus-Fits n flags =
    let empty : length {A = ℕ} [] ≤ n = omega arith in
    if-Fits n (flag_present flags 43) _ _ (add_to_buf-Fits n [] 43 empty)
      (if-Fits n (flag_present flags 32) _ _ (add_to_buf-Fits n [] 32 empty) empty)

magnitude-bound : (sign : Bool) (v : ℕ) → v < 2 ^ 64 → magnitude sign v < 2 ^ 64
magnitude-bound sign v h = ground arith

print_padded-Fits :
    (fuel n : ℕ) (flags : List ℕ) (width : ℤ) (buf temp : List ℕ)
    → n < fuel
    → length buf ≤ n
    → length temp ≤ 100
    → Fits n (print_padded fuel (pos n) flags width buf temp)
unfolding print_padded
print_padded-Fits fuel n flags width buf temp lt h small =
    let pad = if flag_present flags 48 then 48 else 32 in
    bind_temp-Fits n 100 buf _ _ h
      (if-Fits 100 (flag_present flags 45) _ _
        (pad_loop-Fits (missing width (length temp)) 100 pad temp small) small)
      (λ temp' small'.
        bind-Fits n (copy_reverse (pos n) temp' buf) _ (copy_reverse-Fits n temp' buf h) (λ out h'.
          if-Fits n (flag_present flags 45 || (missing width (length temp') == 0)) _ _ h'
            (fill_loop-Fits fuel n pad out h' lt)))

-- For every number of 64 bits, with any flags, width and precision, a buffer of `n` bytes and more
-- fuel than 20 and `n`, `printDec` comes to an end, with a result or with E2BIG, and it has written
-- at most `n` bytes.
pub print_dec-Fits :
    (fuel n v : ℕ) (sign : Bool) (flags : List ℕ) (width precision : ℤ) (var_length : ℕ)
    → 20 < fuel
    → n < fuel
    → v < 2 ^ 64
    → Fits n (print_dec fuel (pos n) v sign flags width precision var_length)
unfolding print_dec
print_dec-Fits fuel n v sign flags width precision var_length lt more small =
    let empty : length {A = ℕ} [] ≤ n = omega arith in
    let in' = truncate_int v sign var_length in
    let bound = truncate_int-bound v sign var_length small in
    let left = magnitude sign in' in
    let left_bound = magnitude-bound sign in' bound in
    bind-Fits n _ _
      (if-Fits n (is_negative sign in') _ _ (add_to_buf-Fits n [] 45 empty) (put_plus-Fits n flags))
      (λ buf h.
        bind_temp-Fits n 20 buf (dec_digits fuel left) _ h (dec_digits-Fits fuel left lt left_bound)
          (λ digits short.
            bind_temp-Fits n 100 buf _ (print_padded fuel (pos n) flags width buf) h
              (pad_loop-Fits (missing precision (length digits)) 100 48 digits (omega arith))
              (λ temp long. print_padded-Fits fuel n flags width buf temp more h long)))
