-- ===== src/Printf/Dec.antt =====
-- `printDec` prints the number it is given.
use mirai_os.Prelude.{
  ℕ, zero, suc, ◌+◌, ◌-◌, ◌*◌, ◌^◌, ◌≤◌, ◌<◌, leb, ◌≡◌, refl, pos, negsuc, Bool, ◌&&◌,
  if◌then◌else◌, List, [], ◌∷◌, ◌++◌, length, length-append, arith, ap, sym, ◌∙◌, Bool-cases, inl,
  inr, All,
}
use mathlib.Core.Path.{subst}
use mirai_os.Printf.{
  Output, done, bind_temp, truncate_int, copy_reverse, put_plus, flag_present, dec_digits,
  print_padded, print_dec, pad_loop, missing,
}
use mirai_os.Printf.Digits.{
  value, IsDigit, IsTop, IsLed, Digits, dec_digits-Digits, add_to_buf-done,
}

-- The number that digits from the first one on say.
abbrev pub read_dec : ℕ → List ℕ → ℕ
read_dec acc [] = acc
read_dec acc (c ∷ cs) = read_dec (10 * acc + (c - 48)) cs

read_dec_snoc :
    (acc c : ℕ) (cs : List ℕ) → read_dec acc (cs ++ c ∷ []) ≡ 10 * read_dec acc cs + (c - 48)
read_dec_snoc acc c [] = refl
read_dec_snoc acc c (d ∷ cs) = read_dec_snoc (10 * acc + (d - 48)) c cs

All-snoc : (cs : List ℕ) (c : ℕ) → All IsDigit cs → IsDigit c → All IsDigit (cs ++ c ∷ [])
All-snoc [] c h d = (d, tt)
All-snoc (x ∷ cs) c h d = (h.0, All-snoc cs c h.1 d)

append_assoc : (xs ys zs : List ℕ) → (xs ++ ys) ++ zs ≡ xs ++ (ys ++ zs)
append_assoc [] ys zs = refl
append_assoc (x ∷ xs) ys zs = ap (λ l. x ∷ l) (append_assoc xs ys zs)

append_nil : (xs : List ℕ) → xs ++ [] ≡ xs
append_nil [] = refl
append_nil (x ∷ xs) = ap (λ ys. x ∷ ys) (append_nil xs)

-- Digits without a 0 at the front, but for a single 0.
abbrev pub IsCanonical : List ℕ → Type 0
IsCanonical [] = ⊥
IsCanonical (c ∷ []) = Unit
IsCanonical (c ∷ d ∷ cs) = 48 < c

abbrev rev : List ℕ → List ℕ
rev [] = []
rev (c ∷ cs) = rev cs ++ c ∷ []

abbrev IsFirst : List ℕ → Type 0
IsFirst [] = ⊥
IsFirst (c ∷ cs) = 48 < c

IsFirst-append : (xs ys : List ℕ) → IsFirst xs → IsFirst (xs ++ ys)
IsFirst-append [] ys h = absurd h
IsFirst-append (x ∷ xs) ys h = h

IsFirst-rev : (ds : List ℕ) → IsTop ds → IsFirst (rev ds)
IsFirst-rev [] h = h
IsFirst-rev (c ∷ []) h = h
IsFirst-rev (c ∷ d ∷ ds) h = IsFirst-append (rev (d ∷ ds)) (c ∷ []) (IsFirst-rev (d ∷ ds) h)

IsFirst-IsCanonical : (cs : List ℕ) → IsFirst cs → IsCanonical cs
IsFirst-IsCanonical [] h = h
IsFirst-IsCanonical (c ∷ []) h = tt
IsFirst-IsCanonical (c ∷ d ∷ cs) h = h

rev-IsCanonical : (m : ℕ) (ds : List ℕ) → IsLed (48 ∷ []) m ds → IsCanonical (rev ds)
rev-IsCanonical zero ds h = subst (λ t. IsCanonical (rev t)) (sym h) tt
rev-IsCanonical (suc m) ds h = IsFirst-IsCanonical (rev ds) (IsFirst-rev ds h)

-- The bytes `start` and behind them the decimal digits of the number `m`.
pub record Printed (start : List ℕ) (m : ℕ) (o : Output) : Type 0 where
  pub digits : List ℕ
  pub output : o ≡ done (start ++ digits)
  pub number : read_dec 0 digits ≡ m
  pub all : All IsDigit digits
  pub count : length digits ≤ 20
  pub canonical : IsCanonical digits

-- Digits that are copied from the last to the first are read as the number they are worth.
pub record Copied (buf temp : List ℕ) (o : Output) : Type 0 where
  pub digits : List ℕ
  pub output : o ≡ done (buf ++ digits)
  pub number : read_dec 0 digits ≡ value temp
  pub all : All IsDigit digits
  pub count : length digits ≡ length temp
  pub reversed : digits ≡ rev temp

pub copy_reverse-Copied :
    (n : ℕ) (temp buf : List ℕ)
    → All IsDigit temp
    → length buf + length temp ≤ n
    → Copied buf temp (copy_reverse (pos n) temp buf)
unfolding copy_reverse
copy_reverse-Copied n [] buf h room = record {
  digits = [];
  output = ap done (sym (append_nil buf));
  number = refl;
  all = tt;
  count = refl;
  reversed = refl;
}
copy_reverse-Copied n (c ∷ temp) buf h room =
    let rest = copy_reverse-Copied n temp buf h.1 (omega arith) in
    let long = length-append buf rest.digits in
    let snoc = length-append rest.digits (c ∷ []) in
    let count = rest.count in
    let number = rest.number in
    rw rest.output (record {
      digits = rest.digits ++ c ∷ [];
      output =
          add_to_buf-done n (buf ++ rest.digits) c (omega (arith, long, count))
          ∙ ap done (append_assoc buf rest.digits (c ∷ []));
      number = read_dec_snoc 0 c rest.digits ∙ omega (arith, number);
      all = All-snoc rest.digits c rest.all h.0;
      count = omega (arith, snoc, count);
      reversed = ap (λ cs. cs ++ c ∷ []) rest.reversed;
    })

-- Without flags and width the digits are copied behind the sign.
print_padded-Printed :
    (fuel n m : ℕ) (buf : List ℕ) (o : Output)
    → length buf + 20 ≤ n
    → Digits (48 ∷ []) m 20 [] o
    → Printed buf m (
        bind_temp buf o (λ digits.
          bind_temp buf
            (pad_loop 0 (pos 100) 48 digits)
            (print_padded fuel (pos n) [] (negsuc 0) buf)))
unfolding print_padded pad_loop missing flag_present
print_padded-Printed fuel n m buf o room ds =
    let count = ds.count in
    let out = copy_reverse-Copied n ds.digits buf ds.all (omega (arith, count)) in
    let same = out.count in
    rw (ds.output, out.output)
      (record {
        digits = out.digits;
        output = refl;
        number = out.number ∙ ds.worth;
        all = out.all;
        count = omega (arith, count, same);
        canonical = subst IsCanonical (sym out.reversed) (rev-IsCanonical m ds.digits ds.lead);
      })

pub truncate_int-bound : (n : ℕ) (sign : Bool) (k : ℕ) → n < 2 ^ 64 → truncate_int n sign k < 2 ^ 64
unfolding truncate_int
truncate_int-bound n sign k h = ground arith

-- The sign and the size of the 64 bits `v`.
abbrev pub is_negative : Bool → ℕ → Bool
is_negative sign v = sign && leb (2 ^ 63) v

abbrev pub magnitude : Bool → ℕ → ℕ
magnitude sign v = if is_negative sign v then 2 ^ 64 - v else v

-- With no flags, width or precision, a buffer of at least 21 bytes, and more than 20 rounds of
-- fuel, `printDec` succeeds: it prints `-` where the number that `truncateInt` gives is negative,
-- and behind it at most 20 decimal digits that say its absolute value, at least one, the first of
-- which is 0 only where it is the only one.
pub print_dec-Printed :
    (fuel n v : ℕ) (sign : Bool) (var_length : ℕ)
    → 20 < fuel
    → 21 ≤ n
    → v < 2 ^ 64
    → let w = truncate_int v sign var_length in
      Printed
        (if is_negative sign w then 45 ∷ [] else [])
        (magnitude sign w)
        (print_dec fuel (pos n) v sign [] (negsuc 0) (negsuc 0) var_length)
unfolding print_dec missing put_plus flag_present
print_dec-Printed fuel n v sign var_length lt room small =
    let w = truncate_int v sign var_length in
    let bound = truncate_int-bound v sign var_length small in
    elim (Bool-cases (is_negative sign w)) [
      | inl e ↦
          rw (e, add_to_buf-done n [] 45 (omega arith))
            (print_padded-Printed fuel n (2 ^ 64 - w) (45 ∷ []) (dec_digits fuel (2 ^ 64 - w))
              (omega arith) (dec_digits-Digits fuel (2 ^ 64 - w) lt (ground arith)))
      | inr e ↦ rw e (
          print_padded-Printed fuel n w [] (dec_digits fuel w) (omega arith)
            (dec_digits-Digits fuel w lt bound))
    ]
