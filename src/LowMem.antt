-- ===== src/LowMem.antt =====
-- The allocator of pages in low memory, kernel/mm/lowmem.c. The bitmap is the bits of its segments
-- of 16 pages: page p is bit p % 16 of bitmap[p / 16], and a set bit is a free page. The atomic
-- exchange keeps other callers from a segment, so that each call is one step.
pub mod Alloc
pub mod Dealloc
mod Tests
use mirai_os.Prelude.{
  ℕ, zero, suc, ◌+◌, ◌-◌, ◌*◌, ◌/◌, ◌%◌, ◌^◌, ◌==◌, ltb, leb, Bool, true, false, not, ◌&&◌, ◌||◌,
  if◌then◌else◌, Option, none, some,
}

abbrev pub Bitmap : Type 0
Bitmap = ℕ → Bool

abbrev pub bits_per_seg : ℕ
bits_per_seg = 16

abbrev pub page_size : ℕ
page_size = 4096

-- `((val >> i) & bitmask) == bitmask`: are the `n` bits from `page` on set?
pub all_free : (n page : ℕ) → Bitmap → Bool
all_free zero page map = true
all_free (suc n) page map = map page && all_free n (page + 1) map

-- `val & ~(bitmask << i)`
abbrev pub taken : (page n : ℕ) → Bitmap → Bitmap
taken page n map p = if leb page p && ltb p (page + n) then false else map p

-- The inner loop of `allocLowPhysPages` at `page`, with `k` places left: the page that it finds.
pub find_in_seg : (k page n : ℕ) → Bitmap → Option ℕ
find_in_seg zero page n map = none
find_in_seg (suc k) page n map =
    let rest = find_in_seg k (page + 1) n map in if all_free n page map then some page else rest

-- The outer loop from segment `seg` on, with `k` segments left.
pub find_pages : (k seg n : ℕ) → Bitmap → Option ℕ
find_pages zero seg n map = none
find_pages (suc k) seg n map =
    let rest = find_pages k (seg + 1) n map in
    elim (find_in_seg (bits_per_seg - n + 1) (seg * bits_per_seg) n map) [
      | none ↦ rest
      | some page ↦ some page
    ]

-- The page that was found is taken.
pub take_pages : (n : ℕ) → Option ℕ → Bitmap → ℕ × Bitmap
take_pages n none map = (0, map)
take_pages n (some page) map = (page * page_size, taken page n map)

-- `allocLowPhysPages` on `segs` segments: the address, or 0.
pub alloc_low_phys_pages : (segs n : ℕ) → Bitmap → ℕ × Bitmap
alloc_low_phys_pages segs n map =
    if ltb bits_per_seg n then (0, map) else take_pages n (find_pages segs 0 n map) map

-- The `n` bits from `page` on are set.
abbrev pub freed : (page n : ℕ) → Bitmap → Bitmap
freed page n map p = if leb page p && ltb p (page + n) then true else map p

-- The loop of `deallocLowPhysPages` at `page` (`seg * 16 + bit`), with `i` pages done, which
-- is a number of 16 bits.
pub dealloc_loop : (fuel page i n : ℕ) → Bitmap → Option Bitmap
dealloc_loop zero page i n map = none
dealloc_loop (suc fuel) page i n map =
    let whole = (page % bits_per_seg == 0) && leb bits_per_seg n in
    let k = if whole then bits_per_seg else 1 in
    let rest = dealloc_loop fuel (page + k) ((i + k) % 2 ^ 16) n (freed page k map) in
    if ltb i n then rest else some map

-- `deallocLowPhysPages`
pub dealloc_low_phys_pages : (fuel start_page n : ℕ) → Bitmap → Option Bitmap
dealloc_low_phys_pages fuel start_page n map = dealloc_loop fuel (start_page / page_size) 0 n map
