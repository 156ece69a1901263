-- ===== src/Initrd/Ends.antt =====
-- The loop of `parseInitrd` ends.
use mirai_os.Prelude.{
  ℕ, zero, suc, ◌+◌, ◌*◌, ◌%◌, ◌^◌, ◌≤◌, ◌<◌, ◌≡◌, ◌==◌, refl, inl, inr, Bool-cases, true, leb, not,
  ◌&&◌, some, List, [], arith, ℤ, pos, neg,
}
use mirai_os.Initrd.{
  Mem, CpioFile, digit_of, parse_from, parse_hex, align_four, name_len_at, file_at, next_position,
  header_size, has_bytes, cpio_magic, cpio_end_name, parse_initrd, namesize_at, filesize_at,
  add_file,
}

parse_from-lt :
    (n i str result : ℕ) (mem : Mem) → result < 2 ^ 32 → parse_from n i str result mem < 2 ^ 32
unfolding parse_from
parse_from-lt zero i str result mem lt = lt
parse_from-lt (suc n) i str result mem lt =
    parse_from-lt n (i + 1) str ((result + digit_of (mem (str + i)) * 16 ^ n) % 2 ^ 32) mem
      (small _)
  where
    small : (k : ℕ) → k % 2 ^ 32 < 2 ^ 32
    small k = omega arith

parse_hex-lt : (str : ℕ) (mem : Mem) → parse_hex str mem < 2 ^ 32
unfolding parse_hex
parse_hex-lt str mem = parse_from-lt 8 0 str 0 mem (omega arith)

-- On values: the position moves on by the header at least.
position_moves :
    (position name_len file_size : ℕ)
    → position < 2 ^ 63
    → name_len < 2 ^ 32
    → file_size < 2 ^ 32
    → position + 110
      ≤ align_four ((align_four ((position + 110 + name_len) % 2 ^ 64) + file_size) % 2 ^ 64)
position_moves position name_len file_size small a b =
    let first = (position + 110 + name_len) % 2 ^ 64 in
    let low = align_four-le first (omega arith) in
    let second = (align_four first + file_size) % 2 ^ 64 in
    let high = align_four-le second (omega (arith, low.1)) in omega (arith, low.0, low.1, high.0)
  where
    align_four-le : (k : ℕ) → k < 2 ^ 63 + 2 ^ 40 → (k ≤ align_four k) × (align_four k ≤ k + 4)
    align_four-le k lt = (ground arith, ground arith)

at_end_of :
    (rounds initrd len position : ℕ) (mem : Mem)
    → leb len position ≡ true
    → (r : ℤ × List CpioFile) × (parse_initrd (suc rounds) initrd len position mem ≡ some r)
unfolding parse_initrd
at_end_of rounds initrd len position mem e = ((pos 0, []), rw e refl)

-- One round that is not the last.
round-ends :
    (fuel initrd len position : ℕ) (mem : Mem)
    → (r : ℤ × List CpioFile) × (parse_initrd fuel initrd len
          (next_position initrd position mem)
          mem
        ≡ some r)
    → (r : ℤ × List CpioFile) × (parse_initrd (suc fuel) initrd len position mem ≡ some r)
unfolding parse_initrd
round-ends fuel initrd len position mem rest = elim (Bool-cases (leb len position)) [
  | inl e ↦ ((pos 0, []), rw e refl)
  | inr more ↦ elim (Bool-cases (not (has_bytes (initrd + position) cpio_magic mem))) [
    | inl e ↦ ((neg 2, []), rw (more, e) refl)
    | inr magic ↦
        elim (Bool-cases (
          (name_len_at initrd position mem == 11)
          && has_bytes (initrd + position + header_size) cpio_end_name mem)) [
            | inl e ↦ ((pos 0, []), rw (more, magic, e) refl)
            | inr file ↦
                (add_file (file_at initrd position mem) rest.0, rw (more, magic, file, rest.1) refl)
          ]
  ]
]

-- For an archive of at most 2^63 bytes, whatever they are, the loop of `parseInitrd` ends after at most
-- a round for each 110 bytes that are left and one more.
pub parse_initrd-ends :
    (rounds initrd len position : ℕ) (mem : Mem)
    → len ≤ 2 ^ 63
    → len ≤ position + rounds * 110
    → (r : ℤ × List CpioFile) × (parse_initrd (suc rounds) initrd len position mem ≡ some r)
parse_initrd-ends zero initrd len position mem small enough =
    at_end_of 0 initrd len position mem (ground arith)
parse_initrd-ends (suc rounds) initrd len position mem small enough =
    elim (Bool-cases (leb len position)) [
      | inl e ↦ at_end_of (suc rounds) initrd len position mem e
      | inr more ↦
          (let file = file_at initrd position mem in
            let moved =
              position_moves position file.name_len file.file_size (ground arith)
                (parse_hex-lt (initrd + position + namesize_at) mem)
                (parse_hex-lt (initrd + position + filesize_at) mem) in
            round-ends (suc rounds) initrd len position mem (
              parse_initrd-ends rounds initrd len (next_position initrd position mem) mem small
                (omega (arith, moved))))
    ]
