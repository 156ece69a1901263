-- ===== src/Initrd.antt =====
-- The archive of the first files, kernel/fs/initrd.c: `parseHex`, and the loop of `parseInitrd` over the
-- bytes of a cpio archive. What the loop gives to `createDirs` is its result; `ioremap` gives the
-- address of the archive. The positions are 64 bits.
pub mod Hex
pub mod Ends
mod Tests
use mirai_os.Prelude.{
  ℕ, zero, suc, ◌+◌, ◌-◌, ◌*◌, ◌/◌, ◌%◌, ◌^◌, ◌==◌, ltb, leb, Bool, true, false, not, ◌&&◌,
  if◌then◌else◌, Option, none, some, ◌>>=◌, List, [], ◌∷◌, ℤ, pos, neg,
}

abbrev pub Ptr : Type 0
Ptr = ℕ

-- Bytes by address, each below 256.
abbrev pub Mem : Type 0
Mem = Ptr → ℕ

-- The digit of a byte, on 32 bits: a byte from 128 on is a negative `char`.
abbrev pub digit_of : ℕ → ℕ
digit_of c =
    if leb 65 c && ltb c 128
    then c - 65 + 10
    else if leb 128 c
    then 2 ^ 32 + c - 256 - 48
    else (2 ^ 32 + c - 48) % 2 ^ 32

-- The loop of `parseHex`, from the byte `i` on with `n` bytes left.
pub parse_from : (n i : ℕ) (str : Ptr) (result : ℕ) → Mem → ℕ
parse_from zero i str result mem = result
parse_from (suc n) i str result mem =
    parse_from n (i + 1) str ((result + digit_of (mem (str + i)) * 16 ^ n) % 2 ^ 32) mem

-- `parseHex`
pub parse_hex : (str : Ptr) → Mem → ℕ
parse_hex str mem = parse_from 8 0 str 0 mem

-- `sizeof(struct CpioHeader)`, and the places of two of its fields.
abbrev pub header_size : ℕ
header_size = 110

abbrev pub filesize_at : ℕ
filesize_at = 54

abbrev pub namesize_at : ℕ
namesize_at = 94

-- The bytes at `p` are those of the list.
abbrev pub has_bytes : (p : Ptr) → List ℕ → Mem → Bool
has_bytes p [] mem = true
has_bytes p (b ∷ bs) mem = (mem p == b) && has_bytes (p + 1) bs mem

-- `cpioMagic`, and `cpioEndName` with its 0.
abbrev pub cpio_magic : List ℕ
cpio_magic = 48 ∷ 55 ∷ 48 ∷ 55 ∷ 48 ∷ 49 ∷ []

abbrev pub cpio_end_name : List ℕ
cpio_end_name = 84 ∷ 82 ∷ 65 ∷ 73 ∷ 76 ∷ 69 ∷ 82 ∷ 33 ∷ 33 ∷ 33 ∷ 0 ∷ []

-- The position that `curPosition & 3` moves on.
abbrev pub align_four : ℕ → ℕ
align_four n = if n % 4 == 0 then n else (n - n % 4 + 4) % 2 ^ 64

-- The arguments of a call of `createDirs`.
pub record CpioFile : Type 0 where
  pub name : Ptr
  pub name_len : ℕ
  pub file_size : ℕ
  pub contents : Ptr

-- The name length and the file that begin at a position.
abbrev pub name_len_at : (initrd position : ℕ) → Mem → ℕ
name_len_at initrd position mem = parse_hex (initrd + position + namesize_at) mem

abbrev pub file_at : (initrd position : ℕ) → Mem → CpioFile
file_at initrd position mem =
    let name_len = name_len_at initrd position mem in
    record {
      name = initrd + position + header_size;
      name_len = name_len;
      file_size = parse_hex (initrd + position + filesize_at) mem;
      contents = initrd + align_four ((position + header_size + name_len) % 2 ^ 64);
    }

-- Where the next header begins.
abbrev pub next_position : (initrd position : ℕ) → Mem → ℕ
next_position initrd position mem =
    let file = file_at initrd position mem in
    align_four
      ((align_four ((position + header_size + file.name_len) % 2 ^ 64) + file.file_size) % 2 ^ 64)

abbrev pub add_file : CpioFile → ℤ × List CpioFile → ℤ × List CpioFile
add_file file (error, files) = (error, file ∷ files)

-- The loop of `parseInitrd`
pub parse_initrd : (fuel initrd len position : ℕ) → Mem → Option (ℤ × List CpioFile)
parse_initrd zero initrd len position mem = none
parse_initrd (suc fuel) initrd len position mem =
    let rest = parse_initrd fuel initrd len (next_position initrd position mem) mem in
    if leb len position
    then some (pos 0, [])
    else if not (has_bytes (initrd + position) cpio_magic mem)
    then some (neg 2, [])
    else if (name_len_at initrd position mem == 11)
        && has_bytes (initrd + position + header_size) cpio_end_name mem
    then some (pos 0, [])
    else (rest >>= λ r. some (add_file (file_at initrd position mem) r))
