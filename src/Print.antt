-- ===== src/Print.antt =====
-- The output of the kernel, kernel/main/print.c: what it hands to `stdout`, as a list of bytes. The
-- buffers of 512 and 17 bytes are not bounded here, as they are not in the code.
pub mod Hex
pub mod Dec
mod Tests
use mirai_os.Prelude.{
  ℕ, zero, suc, ◌+◌, ◌-◌, ◌*◌, ◌/◌, ◌%◌, ◌^◌, ◌==◌, ltb, Bool, true, false, not, ◌&&◌, ◌||◌,
  if◌then◌else◌, Option, none, some, List, [], ◌∷◌, ◌++◌, ℤ, pos, negsuc,
}

-- The character of a nibble.
abbrev pub nibble_char : ℕ → ℕ
nibble_char n = if ltb n 10 then n + 48 else n + 55

-- `hexprint`: the nibbles from `len` down to 0.
pub hexprint : (len value : ℕ) → List ℕ
hexprint zero value = nibble_char (value / 16 ^ 0 % 16) ∷ []
hexprint (suc len) value = nibble_char (value / 16 ^ suc len % 16) ∷ hexprint len value

-- The two loops of `decprint`: the digits of 10 ^ (i - 1) down to 1, without zeros in front.
pub decprint_loop : (i value : ℕ) (is_front : Bool) → List ℕ
decprint_loop zero value is_front = []
decprint_loop (suc i) value is_front =
    let digit = value / 10 ^ i % 10 in
    if not is_front || not (digit == 0)
    then (digit + 48) ∷ decprint_loop i value false
    else decprint_loop i value true

-- `decprint`. The second loop begins at `buffer[1]`, so there are nine digits. -2 ^ 31, of which
-- `-value` overflows, is taken as if it did not.
pub decprint : ℤ → List ℕ
decprint (pos zero) = 48 ∷ []
decprint (pos (suc n)) = decprint_loop 9 (suc n) true
decprint (negsuc n) = 45 ∷ decprint_loop 9 (suc n) true

-- An argument of `vprintk`.
pub data Arg : Type 0 where
  int_arg : ℤ → Arg
  word_arg : ℕ → Arg
  string_arg : List ℕ → Arg

-- One conversion of `vprintk`: its character and its argument. A character that is none of them
-- prints nothing; an argument of another type is not what the format says, and prints nothing here.
abbrev pub conversion : (c : ℕ) → Arg → List ℕ
conversion c (int_arg z) = if c == 100 then decprint z else []
conversion c (word_arg n) =
    if c == 99
    then n % 256 ∷ []
    else if c == 120
    then hexprint 7 (n % 2 ^ 32)
    else if c == 88
    then hexprint 15 n
    else []
conversion c (string_arg s) = if c == 115 then s else []

-- c, d, s, x and X take an argument.
abbrev pub takes_arg : ℕ → Bool
takes_arg c = c == 99 || c == 100 || c == 115 || c == 120 || c == 88

abbrev pub convert : (c : ℕ) → List Arg → List ℕ
convert c [] = if c == 37 then 37 ∷ [] else []
convert c (a ∷ args) = if c == 37 then 37 ∷ [] else conversion c a

abbrev pub args_left : (c : ℕ) → List Arg → List Arg
args_left c [] = []
args_left c (a ∷ args) = if takes_arg c then args else a ∷ args

abbrev pub put_after : List ℕ → Option (List ℕ) → Option (List ℕ)
put_after bs none = none
put_after bs (some out) = some (bs ++ out)

-- The loop of `vprintk`; none where the format ends behind a %: then `vprintk` returns at once.
pub vprintk_loop : (fmt : List ℕ) → List Arg → Option (List ℕ)
vprintk_loop [] args = some []
vprintk_loop (c ∷ []) args = if c == 37 then none else some (c ∷ [])
vprintk_loop (c ∷ d ∷ cs) args =
    let plain = put_after (c ∷ []) (vprintk_loop (d ∷ cs) args) in
    let converted = put_after (convert d args) (vprintk_loop cs (args_left d args)) in
    if c == 37 then converted else plain

-- The texts that `stdout` is called with, where `stdout` is not NULL.
pub vprintk : (has_stdout : Bool) (fmt : List ℕ) → List Arg → List (List ℕ)
vprintk has_stdout fmt args = elim (vprintk_loop fmt args) [
  | none ↦ []
  | some out ↦ if has_stdout then out ∷ [] else []
]

pub putc : (has_stdout : Bool) (c : ℕ) → List (List ℕ)
putc has_stdout c = if has_stdout then (c ∷ []) ∷ [] else []

pub puts : (has_stdout : Bool) (text : List ℕ) → List (List ℕ)
puts has_stdout text = if has_stdout then text ∷ [] else []

pub hexprint64 : (has_stdout : Bool) (value : ℕ) → List (List ℕ)
hexprint64 has_stdout value = if has_stdout then hexprint 15 value ∷ [] else []

pub hexprintln64 : (has_stdout : Bool) (value : ℕ) → List (List ℕ)
hexprintln64 has_stdout value =
    if has_stdout then hexprint64 has_stdout value ++ (10 ∷ []) ∷ [] else []
