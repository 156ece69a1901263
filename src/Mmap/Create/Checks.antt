-- ===== src/Mmap/Create/Checks.antt =====
-- The tests of `sysMmap` and of `validateUserPointer`.
use mirai_os.Prelude.{
  ℕ, ◌+◌, ◌-◌, ◌%◌, ◌^◌, ◌≤◌, ◌<◌, ◌≡◌, ◌⊎◌, refl, ap, inl, inr, Bool-cases, ◌==◌, leb, ltb, true,
  false, not, ◌&&◌, ◌||◌, if◌then◌else◌, some, arith, ℤ, pos, negsuc, truth,
}
use mirai_os.Mmap.{Store, sub64, has_flag, mmap_anon}
use mirai_os.Mmap.Create.{validate_user_pointer, page_size, check_mmap, mmap_checked, sys_mmap}

-- The range does not reach the upper half of the address space.
pub validate_user_pointer-low :
    (ptr size : ℕ) → ptr < 2 ^ 47 → size ≤ 2 ^ 47 → truth (validate_user_pointer ptr size) ≡ false
unfolding validate_user_pointer
validate_user_pointer-low ptr size low small = ground arith

-- What `sysMmap` does not refuse: anonymous memory, at no given address or at a page below 2^47 with
-- whole pages below the upper half.
abbrev pub IsAccepted : (addr size flags : ℕ) → Type 0
IsAccepted addr size flags =
    (has_flag flags mmap_anon ≡ true)
    × ((addr ≡ 0)
        ⊎ ((addr < 2 ^ 47)
            × (addr + size ≤ 2 ^ 64 - 2 ^ 47)
            × (addr % page_size ≡ 0)
            × (size % page_size ≡ 0)
            × (0 < size)))

check_mmap-accepts :
    (addr size flags : ℕ) → IsAccepted addr size flags → check_mmap addr size flags ≡ pos 0
unfolding check_mmap validate_user_pointer
check_mmap-accepts addr size flags (anon, inl h) = ground arith
check_mmap-accepts addr size flags (anon, inr h) = ground arith

check_mmap-refuses :
    (addr size flags : ℕ)
    → ¬ IsAccepted addr size flags
    → (n : ℕ) × (check_mmap addr size flags ≡ negsuc n)
unfolding check_mmap validate_user_pointer
check_mmap-refuses addr size flags refused = elim (Bool-cases (has_flag flags mmap_anon)) [
  | inl anon ↦ elim (Bool-cases (addr == 0)) [
    | inl e ↦ absurd (refused (anon, inl (ground arith)))
    | inr at ↦ elim (Bool-cases (leb (2 ^ 47) addr || ltb (sub64 (2 ^ 64 - 2 ^ 47) addr) size)) [
      | inl bad ↦ (1, rw (at, bad) refl)
      | inr ok ↦
          elim (Bool-cases
            (not (addr % page_size == 0) || not (size % page_size == 0) || (size == 0))) [
              | inl bad ↦ (1, rw (at, ok, bad) refl)
              | inr whole ↦ absurd (refused (anon, inr (range addr size ok whole)))
            ]
    ]
  ]
  | inr no_anon ↦
      elim (Bool-cases
        (not (addr == 0) && (leb (2 ^ 47) addr || ltb (sub64 (2 ^ 64 - 2 ^ 47) addr) size))) [
          | inl bad ↦ (1, ground arith)
          | inr ok ↦
              elim (Bool-cases (
                not (addr == 0)
                && (not (addr % page_size == 0) || not (size % page_size == 0) || (size == 0)))) [
                  | inl bad ↦ (1, ground arith)
                  | inr whole ↦ (6, ground arith)
                ]
        ]
]
  where
    range :
        (addr size : ℕ)
        → (leb (2 ^ 47) addr || ltb (sub64 (2 ^ 64 - 2 ^ 47) addr) size) ≡ false
        → (not (addr % page_size == 0) || not (size % page_size == 0) || (size == 0)) ≡ false
        → (addr < 2 ^ 47)
          × (addr + size ≤ 2 ^ 64 - 2 ^ 47)
          × (addr % page_size ≡ 0)
          × (size % page_size ≡ 0)
          × (0 < size)
    range addr size ok whole =
        (ground arith, ground arith, ground arith, ground arith, ground arith)

-- `sysMmap` returns a negative number and changes nothing, unless it is for anonymous memory, at no
-- given address or at a page below 2^47 with whole pages below the upper half.
pub sys_mmap-refuses :
    (fuel addr size flags garbage : ℕ) (st : Store)
    → ¬ IsAccepted addr size flags
    → (n : ℕ) × (sys_mmap fuel addr size flags garbage st ≡ some (negsuc n, st))
unfolding sys_mmap
sys_mmap-refuses fuel addr size flags garbage st bad =
    let rest = mmap_checked fuel addr size flags garbage st in
    let r = check_mmap-refuses addr size flags bad in
    (r.0, ap (λ (z : ℤ). if truth z then some (z, st) else rest) r.1)

-- For the arguments that its tests accept it does what is behind them.
pub sys_mmap-accepts :
    (fuel addr size flags garbage : ℕ) (st : Store)
    → IsAccepted addr size flags
    → sys_mmap fuel addr size flags garbage st ≡ mmap_checked fuel addr size flags garbage st
unfolding sys_mmap
sys_mmap-accepts fuel addr size flags garbage st good =
    let rest = mmap_checked fuel addr size flags garbage st in
    ap (λ (z : ℤ). if truth z then some (z, st) else rest) (check_mmap-accepts addr size flags good)
