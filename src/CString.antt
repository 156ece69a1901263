-- ===== src/CString.antt =====
-- The string functions of phlibc/src/string.c over a byte memory. A pointer is the address of a
-- byte, objects do not wrap round the address space, and NULL is 0. Loops with a counter recur on
-- the rounds left; loops that run to a terminating byte have fuel, and `none` means that it ran out.
pub mod Memcpy
pub mod Compare
pub mod Scan
mod Tests
use mirai_os.Prelude.{
  ℕ, zero, suc, ◌+◌, ◌-◌, ◌*◌, ◌/◌, ◌%◌, ◌^◌, ◌==◌, ltb, ℤ, pos, neg, negsuc, sub_ℕ, is_neg, truth,
  ◌==ℤ◌, Bool, true, false, not, if◌then◌else◌, Option, none, some,
}

abbrev pub Ptr : Type 0
Ptr = ℕ

-- Bytes by address, each below 256.
abbrev pub Mem : Type 0
Mem = ℕ → ℕ

abbrev pub write_byte : Mem → Ptr → ℕ → Mem
write_byte mem p v a = if a == p then v else mem a

-- The value of a byte as a `char`, which is signed here.
abbrev pub schar : ℕ → ℤ
schar b = if ltb b 128 then pos b else negsuc (255 - b)

-- a - b on the values of two `char`s.
abbrev pub sub_char : ℕ → ℕ → ℤ
sub_char a b =
    if ltb a 128
    then (if ltb b 128 then sub_ℕ a b else pos (a + 256 - b))
    else (if ltb b 128 then neg (b + 256 - a) else sub_ℕ a b)

-- The byte loop of `memcpy`, from round `i` on with `n` rounds left.
pub copy_bytes : ℕ → ℕ → Ptr → Ptr → Mem → Mem
copy_bytes zero i dest src mem = mem
copy_bytes (suc n) i dest src mem =
    copy_bytes n (i + 1) dest src (write_byte mem (dest + i) (mem (src + i)))

-- `ldest[i] = lsrc[i]`: eight bytes are read, then written.
pub write_long : Mem → Ptr → Ptr → Mem
write_long mem d s a = if ltb a d then mem a else if ltb a (d + 8) then mem (s + (a - d)) else mem a

-- The loop of `memcpy` over longs.
pub copy_longs : ℕ → ℕ → Ptr → Ptr → Mem → Mem
copy_longs zero i dest src mem = mem
copy_longs (suc n) i dest src mem =
    copy_longs n (i + 1) dest src (write_long mem (dest + 8 * i) (src + 8 * i))

-- `memcpy`: the memory afterwards (the result is `dest`).
pub memcpy : Ptr → Ptr → ℕ → Mem → Mem
memcpy dest src n mem =
    if n % 8 == 0 then copy_longs (n / 8) 0 dest src mem else copy_bytes n 0 dest src mem

pub set_bytes : ℕ → ℕ → Ptr → ℕ → Mem → Mem
set_bytes zero i str c mem = mem
set_bytes (suc n) i str c mem = set_bytes n (i + 1) str c (write_byte mem (str + i) c)

-- `memset`: `c` is the byte that the `int` argument is cut to.
pub memset : Ptr → ℕ → ℕ → Mem → Mem
memset str c n mem = set_bytes n 0 str (c % 256) mem

pub compare_bytes : ℕ → ℕ → Ptr → Ptr → Mem → ℤ
compare_bytes zero i a b mem = pos 0
compare_bytes (suc n) i a b mem =
    let ret = sub_char (mem (a + i)) (mem (b + i)) in
    let rest = compare_bytes n (i + 1) a b mem in if truth ret then ret else rest

-- `memcmp`
pub memcmp : Ptr → Ptr → ℕ → Mem → ℤ
memcmp a b n mem = compare_bytes n 0 a b mem

find_byte : ℕ → ℕ → Ptr → ℤ → Mem → Ptr
find_byte zero i s c mem = 0
find_byte (suc n) i s c mem =
    let rest = find_byte n (i + 1) s c mem in if schar (mem (s + i)) ==ℤ c then s + i else rest

-- `memchr`, which compares with the `int` `c` as it is.
pub memchr : Ptr → ℤ → ℕ → Mem → Ptr
memchr s c n mem = find_byte n 0 s c mem

-- The loop of `strlen` at `str` with `ret` bytes counted.
strlen_loop : ℕ → Ptr → ℕ → Mem → Option ℕ
strlen_loop zero str ret mem = none
strlen_loop (suc fuel) str ret mem =
    let rest = strlen_loop fuel (str + 1) (ret + 1) mem in if mem str == 0 then some ret else rest

-- `strlen`
pub strlen : ℕ → Ptr → Mem → Option ℕ
strlen fuel str mem = strlen_loop fuel str 0 mem

-- `strcpy`: the memory afterwards (the result is `dest`).
pub strcpy : ℕ → Ptr → Ptr → Mem → Option Mem
strcpy zero dest src mem = none
strcpy (suc fuel) dest src mem =
    let mem' = write_byte mem dest (mem src) in
    let rest = strcpy fuel (dest + 1) (src + 1) mem' in if mem' dest == 0 then some mem' else rest

-- `strchr`: NULL where the byte is not found before the end of the string.
pub strchr : ℕ → Ptr → ℤ → Mem → Option Ptr
strchr zero s c mem = none
strchr (suc fuel) s c mem =
    let rest = strchr fuel (s + 1) c mem in
    if mem s == 0 then some 0 else if schar (mem s) ==ℤ c then some s else rest

-- `strchrnul`: the end of the string where the byte is not found.
pub strchrnul : ℕ → Ptr → ℤ → Mem → Option Ptr
strchrnul zero s c mem = none
strchrnul (suc fuel) s c mem =
    let rest = strchrnul fuel (s + 1) c mem in
    if mem s == 0 then some s else if schar (mem s) ==ℤ c then some s else rest

-- `strcmp`, for lengths that fit an `int`.
pub strcmp : ℕ → Ptr → Ptr → Mem → Option ℤ
strcmp fuel s1 s2 mem = elim (strlen fuel s1 mem) [
  | none ↦ none
  | some n ↦ some (memcmp s1 s2 (n + 1) mem)
]

-- The inner loop of `strpbrk` and `strspn`: is `c` one of the bytes of the string at `a`?
accepted : ℕ → ℕ → Ptr → Mem → Option Bool
accepted zero c a mem = none
accepted (suc fuel) c a mem =
    let rest = accepted fuel c (a + 1) mem in
    if mem a == 0 then some false else if c == mem a then some true else rest

-- `strpbrk`
pub strpbrk : ℕ → Ptr → Ptr → Mem → Option Ptr
strpbrk zero s accept mem = none
strpbrk (suc fuel) s accept mem =
    let rest = strpbrk fuel (s + 1) accept mem in
    let found = accepted (suc fuel) (mem s) accept mem in
    if mem s == 0 then some 0 else elim found [ none ↦ none | some b ↦ if b then some s else rest ]

-- The loop of `strspn`: `ret` is not changed in it.
strspn_loop : ℕ → Ptr → Ptr → ℕ → Mem → Option ℕ
strspn_loop zero s accept ret mem = none
strspn_loop (suc fuel) s accept ret mem =
    let rest = strspn_loop fuel s accept ret mem in
    let found = accepted (suc fuel) (mem (s + ret)) accept mem in
    if mem (s + ret) == 0
    then some ret
    else elim found [ none ↦ none | some b ↦ if b then rest else some ret ]

-- `strspn`
pub strspn : ℕ → Ptr → Ptr → Mem → Option ℕ
strspn fuel s accept mem = strspn_loop fuel s accept 0 mem

-- The loop of `strstr`, where `len` is the length of `substr`.
strstr_loop : ℕ → Ptr → Ptr → ℕ → ℕ → Mem → Option Ptr
strstr_loop zero str substr len at mem = none
strstr_loop (suc fuel) str substr len at mem =
    let rest = strstr_loop fuel str substr len (at + 1) mem in
    if mem (str + at) == 0
    then some 0
    else if not (truth (memcmp str substr len mem))
    then some (str + at)
    else rest

-- `strstr`
pub strstr : ℕ → Ptr → Ptr → Mem → Option Ptr
strstr fuel str substr mem = elim (strlen fuel substr mem) [
  | none ↦ none
  | some len ↦ strstr_loop fuel str substr len 0 mem
]
