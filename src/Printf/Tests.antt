-- ===== src/Printf/Tests.antt =====
-- Runs of the formatter, and instances of its theorems.
use mirai_os.Prelude.{ℕ, ℤ, pos, negsuc, true, List, [], ◌∷◌, arith, if◌then◌else◌}
use mirai_os.Printf.{Output, done, print_dec, truncate_int}
use mirai_os.Printf.Buffer.{Fits, print_dec-Fits}
use mirai_os.Printf.Dec.{Printed, is_negative, magnitude, print_dec-Printed}

abbrev no_strings : ℕ → List ℕ
no_strings a = []

abbrev no_floats : ℤ → ℕ → Output
no_floats room a = done []

-- -7 as 32 bits
abbrev minus_seven : ℕ
minus_seven = 4294967289

-- Four bytes are not enough for `-` and four digits.
print_dec-Fits_example : Fits 4 (print_dec 30 (pos 4) minus_seven true [] (negsuc 0) (pos 4) 0)
print_dec-Fits_example =
    print_dec-Fits 30 4 minus_seven true [] (negsuc 0) (pos 4) 0 (omega arith) (omega arith)
      (omega arith)

print_dec-Printed_example :
    let w = truncate_int minus_seven true 0 in
    Printed
      (if is_negative true w then 45 ∷ [] else [])
      (magnitude true w)
      (print_dec 30 (pos 40) minus_seven true [] (negsuc 0) (negsuc 0) 0)
print_dec-Printed_example =
    print_dec-Printed 30 40 minus_seven true 0 (omega arith) (omega arith) (omega arith)
