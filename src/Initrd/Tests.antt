-- ===== src/Initrd/Tests.antt =====
-- Instances of the theorems on the archive of the first files, kernel/fs/initrd.c
use mirai_os.Prelude.{◌≡◌, ◌==◌, refl, if◌then◌else◌, some, List, [], arith, ℤ, neg}
use mirai_os.Initrd.{Mem, CpioFile, parse_from, parse_hex, parse_initrd}
use mirai_os.Initrd.Hex.{IsHex}
use mirai_os.Initrd.Ends.{parse_initrd-ends}

-- "000000A7" at 0
abbrev digits : Mem
digits a = if a == 6 then 65 else if a == 7 then 55 else 48

digits-IsHex : IsHex 8 0 167 digits
digits-IsHex = (refl, (refl, (refl, (refl, (refl, (refl, (refl, (refl, tt))))))))

parse_initrd-ends_example : (r : ℤ × List CpioFile) × (parse_initrd 4 0 300 0 digits ≡ some r)
parse_initrd-ends_example = parse_initrd-ends 3 0 300 0 digits (omega arith) (omega arith)

-- "a" is no digit to `parseHex`, but 0x2A.
lower_case : parse_hex 0 (λ i. if i == 7 then 97 else 48) ≡ 42
unfolding parse_hex parse_from
lower_case = refl

-- There is no header in the bytes of a number.
no_magic : parse_initrd 4 0 300 0 digits ≡ some (neg 2, [])
unfolding parse_initrd
no_magic = refl
