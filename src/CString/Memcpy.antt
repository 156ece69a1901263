-- ===== src/CString/Memcpy.antt =====
-- `memcpy` copies, by bytes and by longs.
use mirai_os.Prelude.{
  ℕ, zero, suc, ◌+◌, ◌-◌, ◌*◌, ◌/◌, ◌%◌, ◌≤◌, ◌<◌, ◌==◌, ltb, ◌≡◌, ◌⊎◌, inl, inr, true, false,
  if◌then◌else◌, arith, ap, ◌∙◌, Bool-cases,
}
use mirai_os.CString.{Ptr, Mem, write_byte, write_long, copy_bytes, copy_longs, memcpy}

-- The memory in which the `k` bytes from `dest` on are those that were at `src`.
abbrev pub copied : Ptr → Ptr → ℕ → Mem → Mem
copied dest src k mem a =
    if ltb a dest then mem a else if ltb a (dest + k) then mem (src + (a - dest)) else mem a

-- The areas are disjoint, or the copy goes towards lower addresses.
abbrev pub IsSafe : Ptr → Ptr → ℕ → Type 0
IsSafe dest src n = (dest ≤ src) ⊎ (src + n ≤ dest)

module _ (dest src : Ptr) (mem0 : Mem) where
  pub byte_source :
      (i n : ℕ) (mem : Mem)
      → IsSafe dest src n
      → i < n
      → ((a : ℕ) → mem a ≡ copied dest src i mem0 a)
      → mem (src + i) ≡ mem0 (src + i)
  byte_source i n mem safe lt h = ground (arith, h (src + i))

  pub byte_step :
      (i n : ℕ) (mem : Mem)
      → IsSafe dest src n
      → i < n
      → ((a : ℕ) → mem a ≡ copied dest src i mem0 a)
      → (a : ℕ) → write_byte mem (dest + i) (mem (src + i)) a ≡ copied dest src (i + 1) mem0 a
  byte_step i n mem safe lt h a = elim (Bool-cases (a == dest + i)) [
    | inl e ↦
        let here : mem0 (src + (a - dest)) ≡ mem0 (src + i) = ap mem0 (ground arith) in
        ground (arith, byte_source i n mem safe lt h)
    | inr e ↦ ground (arith, h a)
  ]

  copy_bytes-copied :
      (n i all : ℕ) (mem : Mem)
      → IsSafe dest src all
      → i + n ≡ all
      → ((a : ℕ) → mem a ≡ copied dest src i mem0 a)
      → (a : ℕ) → copy_bytes n i dest src mem a ≡ copied dest src all mem0 a
  unfolding copy_bytes
  copy_bytes-copied zero i all mem safe e h a =
      let same : i ≡ all = omega arith in rw (← same) (h a)
  copy_bytes-copied (suc n) i all mem safe e h a =
      copy_bytes-copied n (i + 1) all (write_byte mem (dest + i) (mem (src + i))) safe (omega arith)
        (byte_step i all mem safe (omega arith) h) a

  -- The three places of a byte: below the copied long, in it, above it.
  long_below :
      (k : ℕ) (mem : Mem) (a : Ptr)
      → ltb a (dest + k) ≡ true
      → mem a ≡ copied dest src k mem0 a
      → write_long mem (dest + k) (src + k) a ≡ copied dest src (k + 8) mem0 a
  unfolding write_long
  long_below k mem a e old = ground arith

  long_in :
      (k n : ℕ) (mem : Mem) (a : Ptr)
      → IsSafe dest src n
      → k + 8 ≤ n
      → ltb a (dest + k) ≡ false
      → ltb a (dest + k + 8) ≡ true
      → ((b : ℕ) → mem b ≡ copied dest src k mem0 b)
      → write_long mem (dest + k) (src + k) a ≡ copied dest src (k + 8) mem0 a
  unfolding write_long
  long_in k n mem a safe le e e' h =
      let at = src + k + (a - (dest + k)) in
      let here : mem0 (src + (a - dest)) ≡ mem0 at = ap mem0 (ground arith) in ground (arith, h at)

  long_above :
      (k : ℕ) (mem : Mem) (a : Ptr)
      → ltb a (dest + k + 8) ≡ false
      → mem a ≡ copied dest src k mem0 a
      → write_long mem (dest + k) (src + k) a ≡ copied dest src (k + 8) mem0 a
  unfolding write_long
  long_above k mem a e old = ground arith

  long_step :
      (k n : ℕ) (mem : Mem)
      → IsSafe dest src n
      → k + 8 ≤ n
      → ((a : ℕ) → mem a ≡ copied dest src k mem0 a)
      → (a : ℕ) → write_long mem (dest + k) (src + k) a ≡ copied dest src (k + 8) mem0 a
  long_step k n mem safe le h a = elim (Bool-cases (ltb a (dest + k))) [
    | inl e ↦ long_below k mem a e (h a)
    | inr e ↦ elim (Bool-cases (ltb a (dest + k + 8))) [
      | inl e' ↦ long_in k n mem a safe le e e' h
      | inr e' ↦ long_above k mem a e' (h a)
    ]
  ]

  copy_longs-copied :
      (n i all : ℕ) (mem : Mem)
      → IsSafe dest src (8 * all)
      → i + n ≡ all
      → ((a : ℕ) → mem a ≡ copied dest src (8 * i) mem0 a)
      → (a : ℕ) → copy_longs n i dest src mem a ≡ copied dest src (8 * all) mem0 a
  unfolding copy_longs
  copy_longs-copied zero i all mem safe e h a =
      let same : i ≡ all = omega arith in rw (← same) (h a)
  copy_longs-copied (suc n) i all mem safe e h a =
      copy_longs-copied n (i + 1) all (write_long mem (dest + 8 * i) (src + 8 * i)) safe
        (omega arith)
        (λ b.
          long_step (8 * i) (8 * all) mem safe (omega arith) h b
          ∙ ap (λ k. copied dest src k mem0 b) (omega arith))
        a

-- Where the areas are disjoint or `dest` is not above `src`, after `memcpy(dest, src, n)` the `n`
-- bytes at `dest` are those that were at `src`, and every other byte is as it was, whether the
-- loop copies bytes or longs.
pub memcpy_lem :
    (dest src : Ptr) (n : ℕ) (mem : Mem)
    → IsSafe dest src n
    → (a : ℕ) → memcpy dest src n mem a ≡ copied dest src n mem a
unfolding memcpy
memcpy_lem dest src n mem safe a = elim (Bool-cases (n % 8 == 0)) [
  | inl e ↦
      let all : 8 * (n / 8) ≡ n = ground arith in
      rw e (
        copy_longs-copied dest src mem (n / 8) 0 (n / 8) mem (rw all safe) (omega arith)
          (λ b. ground arith) a
        ∙ ap (λ k. copied dest src k mem a) all)
  | inr e ↦ rw e (copy_bytes-copied dest src mem n 0 n mem safe (omega arith) (λ b. ground arith) a)
]
