-- ===== src/Printf.antt =====
-- The formatter of phlibc/src/printf.c. A buffer is the list of the bytes that are written to it so
-- far, first to last, and `used` is its length; `bufLen` is an `int`. With a negative result comes
-- the error number in it. Numbers are 64 bits wide; the loops over them have fuel.
pub mod Buffer
pub mod Digits
pub mod Dec
pub mod Width
pub mod Format
mod Tests
use mirai_os.Prelude.{
  ℕ, zero, suc, ◌+◌, ◌-◌, ◌*◌, ◌/◌, ◌%◌, ◌^◌, ◌==◌, ltb, leb, ℤ, pos, negsuc, sub_ℕ, ◌==ℤ◌, Bool,
  true, false, not, ◌&&◌, ◌||◌, if◌then◌else◌, List, [], ◌∷◌, ◌++◌, length, take, get_or,
}

-- What a printing function leaves: the buffer, a negative error number and what the buffer has got
-- before, or fuel that ran out.
pub data Output : Type 0 where
  done : List ℕ → Output
  fail : ℕ → List ℕ → Output
  no_fuel : Output

-- The statements that follow are run where there was no error.
abbrev pub bind : Output → (List ℕ → Output) → Output
bind (done buf) f = f buf
bind (fail e buf) f = fail e buf
bind no_fuel f = no_fuel

-- The same for statements that write to `temp`, while `buf` is in the buffer.
abbrev pub bind_temp : (buf : List ℕ) → Output → (List ℕ → Output) → Output
bind_temp buf (done temp) f = f temp
bind_temp buf (fail e temp) f = fail e buf
bind_temp buf no_fuel f = no_fuel

-- What is printed behind the bytes `buf`.
abbrev pub append_output : (buf : List ℕ) → Output → Output
append_output buf (done out) = done (buf ++ out)
append_output buf (fail e out) = fail e (buf ++ out)
append_output buf no_fuel = no_fuel

abbrev pub einval : ℕ
einval = 2

abbrev pub e2big : ℕ
e2big = 15

-- `ADD_TO_BUF(buf, bufLen, used, c)`
pub add_to_buf : ℤ → List ℕ → ℕ → Output
add_to_buf buf_len buf c =
    if pos (length buf) ==ℤ buf_len then fail e2big buf else done (buf ++ c ∷ [])

pub is_flag : ℕ → Bool
is_flag c = (c == 45) || (c == 43) || (c == 32) || (c == 35) || (c == 48)

-- `flags` has `nFlags` bytes.
pub flag_present : List ℕ → ℕ → Bool
flag_present [] flag = false
flag_present (f ∷ flags) flag = if f == flag then true else flag_present flags flag

-- The low `bits` bits, which are 32 or 16, with the sign extended to 64.
abbrev pub extend : (bits : ℕ) (sign : Bool) → ℕ → ℕ
extend bits sign n =
    if sign && leb (2 ^ (bits - 1)) (n % 2 ^ bits)
    then n % 2 ^ bits + (2 ^ 64 - 2 ^ bits)
    else n % 2 ^ bits

pub truncate_int : ℕ → Bool → ℕ → ℕ
truncate_int n sign var_length =
    if var_length == 0 then extend 32 sign n else if var_length == 104 then extend 16 sign n else n

-- The number of rounds of a loop `while (want - nLen > 0)` that adds a byte in each.
pub missing : ℤ → ℕ → ℕ
missing (pos want) n = want - n
missing (negsuc want) n = 0

pub pad_loop : ℕ → ℤ → ℕ → List ℕ → Output
pad_loop zero buf_len c buf = done buf
pad_loop (suc k) buf_len c buf = bind (add_to_buf buf_len buf c) (pad_loop k buf_len c)

-- The last loop of `printDec`, whose test `width - nLen > 0` does not change in it: where the test
-- holds, only the error of `ADD_TO_BUF` ends it.
pub fill_loop : ℕ → ℤ → ℕ → List ℕ → Output
fill_loop zero buf_len c buf = no_fuel
fill_loop (suc fuel) buf_len c buf = bind (add_to_buf buf_len buf c) (fill_loop fuel buf_len c)

-- The copy of `temp` to `buf`, from its last byte to its first.
pub copy_reverse : ℤ → List ℕ → List ℕ → Output
copy_reverse buf_len [] buf = done buf
copy_reverse buf_len (c ∷ temp) buf =
    bind (copy_reverse buf_len temp buf) (λ b. add_to_buf buf_len b c)

-- The digits of `in`, last one first, behind `temp`.
pub dec_loop : ℕ → ℕ → List ℕ → Output
dec_loop zero n temp = no_fuel
dec_loop (suc fuel) n temp =
    if n == 0
    then done temp
    else bind (add_to_buf (pos 100) temp (n % 10 + 48)) (dec_loop fuel (n / 10))

pub dec_digits : ℕ → ℕ → Output
dec_digits fuel n = if n == 0 then done (48 ∷ []) else dec_loop fuel n []

-- The sign that `printDec` and `printHex` print for a number that is not negative.
pub put_plus : ℤ → List ℕ → Output
put_plus buf_len flags =
    if flag_present flags 43
    then add_to_buf buf_len [] 43
    else if flag_present flags 32
    then add_to_buf buf_len [] 32
    else done []

-- `printDec` from `char pad` on, where `buf` holds the sign and `temp` the digits.
pub print_padded :
    (fuel : ℕ) (buf_len : ℤ) (flags : List ℕ) (width : ℤ) (buf temp : List ℕ) → Output
print_padded fuel buf_len flags width buf temp =
    let pad = if flag_present flags 48 then 48 else 32 in
    let l_justify = flag_present flags 45 in
    bind_temp buf
      (if l_justify then pad_loop (missing width (length temp)) (pos 100) pad temp else done temp)
      (λ temp'. bind (copy_reverse buf_len temp' buf) (λ out.
        if l_justify || (missing width (length temp') == 0)
        then done out
        else fill_loop fuel buf_len pad out))

-- `printDec`: its result is the length of the buffer.
pub print_dec :
    (fuel : ℕ) (buf_len : ℤ) (n : ℕ) (sign : Bool) (flags : List ℕ) (width precision : ℤ)
    (var_length : ℕ)
    → Output
print_dec fuel buf_len n sign flags width precision var_length =
    let in' = truncate_int n sign var_length in
    let negative = sign && leb (2 ^ 63) in' in
    bind (if negative then add_to_buf buf_len [] 45 else put_plus buf_len flags) (λ buf.
      bind_temp buf (dec_digits fuel (if negative then 2 ^ 64 - in' else in')) (λ digits.
        bind_temp buf (pad_loop (missing precision (length digits)) (pos 100) 48 digits)
          (print_padded fuel buf_len flags width buf)))

pub hex_digit : Bool → ℕ → ℕ
hex_digit caps d = if ltb d 10 then d + 48 else if caps then d + 55 else d + 87

-- The loop of `printHex`, tested at its head for `precision != 0`.
pub hex_loop : (fuel : ℕ) (caps : Bool) (n : ℕ) (precision : ℤ) (temp : List ℕ) → Output
hex_loop zero caps n precision temp = no_fuel
hex_loop (suc fuel) caps n (pos zero) temp = done temp
hex_loop (suc fuel) caps n (pos (suc p)) temp =
    bind (add_to_buf (pos 100) temp (hex_digit caps (n % 16))) (hex_loop fuel caps (n / 16) (pos p))
hex_loop (suc fuel) caps n (negsuc zero) temp =
    bind (add_to_buf (pos 100) temp (hex_digit caps (n % 16)))
      (λ t. if n / 16 == 0 then done t else hex_loop fuel caps (n / 16) (negsuc zero) t)
hex_loop (suc fuel) caps n (negsuc (suc p)) temp =
    bind (add_to_buf (pos 100) temp (hex_digit caps (n % 16)))
      (hex_loop fuel caps (n / 16) (negsuc (suc (suc p))))

-- `printHex`: the bytes that its result `nLen`, the number of digits, covers.
pub print_hex :
    (fuel : ℕ) (buf_len : ℤ) (n : ℕ) (caps : Bool) (flags : List ℕ) (precision : ℤ) (var_length : ℕ)
    → Output
print_hex fuel buf_len n caps flags precision var_length =
    let in' = truncate_int n false var_length in
    bind (put_plus buf_len flags) (λ buf.
      bind_temp buf
        (if (in' == 0) && (precision ==ℤ negsuc 0)
          then done (0 ∷ [])
          else hex_loop fuel caps in' precision [])
        (λ temp. bind (copy_reverse buf_len temp buf) (λ out. done (take (length temp) out))))

-- At most `k` bytes that are flags, behind `flags`, and what follows them.
pub take_flags : ℕ → List ℕ → List ℕ → List ℕ × List ℕ
take_flags zero flags format = (flags, format)
take_flags (suc k) flags [] = (flags, [])
take_flags (suc k) flags (c ∷ format) =
    if is_flag c then take_flags k (flags ++ c ∷ []) format else (flags, c ∷ format)

pub is_digit : ℕ → Bool
is_digit c = leb 48 c && leb c 57

pub skip_digits : List ℕ → List ℕ
skip_digits [] = []
skip_digits (c ∷ format) = if is_digit c then skip_digits format else c ∷ format

-- `va_arg`; an argument that is missing is read as 0.
abbrev pub first_arg : List ℕ → ℕ
first_arg args = get_or args 0 0

abbrev pub rest_args : List ℕ → List ℕ
rest_args [] = []
rest_args (a ∷ args) = args

abbrev pub int_arg : ℕ → ℤ
int_arg a = if ltb (a % 2 ^ 32) (2 ^ 31) then pos (a % 2 ^ 32) else negsuc (2 ^ 32 - 1 - a % 2 ^ 32)

-- A width or a precision: digits are skipped, `*` is the next argument. What is left of the format
-- and of the arguments comes with it.
pub read_number : List ℕ → List ℕ → ℤ × List ℕ × List ℕ
read_number [] args = (negsuc 0, [], args)
read_number (c ∷ format) args =
    if is_digit c
    then (negsuc 0, skip_digits format, args)
    else if c == 42
    then (int_arg (first_arg args), format, rest_args args)
    else (negsuc 0, c ∷ format, args)

pub read_precision : List ℕ → List ℕ → ℤ × List ℕ × List ℕ
read_precision [] args = (negsuc 0, [], args)
read_precision (c ∷ format) args =
    if c == 46 then read_number format args else (negsuc 0, c ∷ format, args)

-- The last of the bytes `h`, `I`, `L` and `l`.
pub read_length : ℕ → List ℕ → ℕ × List ℕ
read_length var_length [] = (var_length, [])
read_length var_length (c ∷ format) =
    if (c == 104) || (c == 73) || (c == 76) || (c == 108)
    then read_length c format
    else (var_length, c ∷ format)

-- What stands between `%` and the letter of the conversion.
pub record Conversion : Type 0 where
  pub flags : List ℕ
  pub width : ℤ
  pub precision : ℤ
  pub var_length : ℕ
  pub format : List ℕ
  pub args : List ℕ

pub read_conversion : List ℕ → List ℕ → Conversion
read_conversion format args =
    let flags = take_flags 5 [] format in
    let width = read_number flags.1 args in
    let precision = read_precision width.1 width.2 in
    let var_length = read_length 0 precision.1 in
    record {
      flags = flags.0;
      width = width.0;
      precision = precision.0;
      var_length = var_length.0;
      format = var_length.1;
      args = precision.2;
    }

-- Bytes that `ADD_TO_BUF` adds one by one.
pub add_all : ℤ → List ℕ → List ℕ → Output
add_all buf_len [] buf = done buf
add_all buf_len (c ∷ s) buf = bind (add_to_buf buf_len buf c) (add_all buf_len s)

-- `strings` are the bytes of the string at an address, and `print_float` is `printFloat`, whose
-- numbers are those of the processor.
module _ (strings : ℕ → List ℕ) (print_float : ℤ → ℕ → Output) where
  -- The `switch` of `vsnprintf` for the letter `c`, with `a` for the argument that it takes.
  pub convert : (fuel size c a : ℕ) → Conversion → List ℕ → Output
  convert fuel size c a k buf =
      let room = sub_ℕ size (length buf) in
      if c == 37
      then add_to_buf (pos size) buf 37
      else if c == 99
      then add_to_buf (pos size) buf (a % 256)
      else if c == 115
      then (if a == 0 then add_to_buf (pos size) buf 37 else add_all (pos size) (strings a) buf)
      else if c == 110
      then done buf
      else if (c == 100) || (c == 105)
      then append_output buf (print_dec fuel room a true k.flags k.width k.precision k.var_length)
      else if c == 117
      then append_output buf (print_dec fuel room a false k.flags k.width k.precision k.var_length)
      else if c == 120
      then append_output buf (print_hex fuel room a false k.flags k.precision k.var_length)
      else if c == 112
      then append_output buf (print_hex fuel room a true k.flags k.precision 108)
      else if c == 88
      then append_output buf (print_hex fuel room a true k.flags k.precision k.var_length)
      else if (c == 103) || (c == 102)
      then append_output buf (print_float room a)
      else fail einval buf

  -- The arguments behind the conversion `c`: `%`, `n` and an unknown letter take none.
  pub args_behind : ℕ → List ℕ → List ℕ
  args_behind c args = if (c == 37) || (c == 110) then args else rest_args args

  -- The loop of `vsnprintf`.
  pub format_loop : (fuel size : ℕ) (format args buf : List ℕ) → Output
  format_loop zero size format args buf = no_fuel
  format_loop (suc fuel) size [] args buf = done buf
  format_loop (suc fuel) size (c ∷ format) args buf =
      let k = read_conversion format args in
      let letter = get_or k.format 0 0 in
      let converted = convert fuel size letter (first_arg k.args) k buf in
      if c == 37
      then bind converted (format_loop fuel size (rest_args k.format) (args_behind letter k.args))
      else format_loop fuel size format args (buf ++ c ∷ [])

  -- `vsnprintf`: the bytes that it leaves, without the 0 that it puts behind them where it succeeds.
  pub vsnprintf : (fuel size : ℕ) (format args : List ℕ) → Output
  vsnprintf fuel size format args = format_loop fuel size format args []
