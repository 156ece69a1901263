-- ===== src/Heap.antt =====
-- The kernel's heap (kernel/mm/heap.c): areas with a word before and behind them that hold the
-- size, and the bit AREA_INUSE. The memory gives the 64-bit word at an address; the words lie at
-- multiples of 8. `heap` is `heapStart`, and NULL is 0.
pub mod Areas
pub mod Find
pub mod Take
pub mod Alloc
pub mod Higher
pub mod Lower
pub mod Free
pub mod Joined
pub mod Kernel
mod Tests
use mirai_os.Prelude.{
  ℕ, zero, suc, ◌+◌, ◌-◌, ◌*◌, ◌%◌, ◌^◌, ◌==◌, ltb, leb, Bool, true, false, not, ◌&&◌, ◌||◌,
  if◌then◌else◌, Option, none, some,
}

abbrev pub Ptr : Type 0
Ptr = ℕ

abbrev pub Mem : Type 0
Mem = Ptr → ℕ

-- `*p = v`
abbrev pub put : Ptr → ℕ → Mem → Mem
put p v mem a = if a == p then v else mem a

-- `v & AREA_SIZE` and `v & AREA_INUSE`
abbrev pub area_size : ℕ → ℕ
area_size v = v - v % 16

abbrev pub in_use : ℕ → Bool
in_use v = v % 2 == 1

-- `v | AREA_INUSE` and `v & ~AREA_INUSE`
abbrev pub mark : ℕ → ℕ
mark v = v - v % 2 + 1

abbrev pub unmark : ℕ → ℕ
unmark v = v - v % 2

abbrev pub add64 : ℕ → ℕ → ℕ
add64 a b = (a + b) % 2 ^ 64

abbrev pub sub64 : ℕ → ℕ → ℕ
sub64 a b = (a + 2 ^ 64 - b) % 2 ^ 64

-- `heap + heapSize - sizeof(memArea_t)`
abbrev pub heap_end : ℕ → ℕ → Ptr
heap_end heap heap_size = sub64 (add64 heap heap_size) 8

-- `getFooterFromHeader` and `getHeaderFromFooter`
abbrev pub footer_of : Mem → Ptr → Ptr
footer_of mem header = header + area_size (mem header) - 8

abbrev pub header_of : Mem → Ptr → Ptr
header_of mem footer = footer + 8 - area_size (mem footer)

-- `initHeap` at the page `base`: `heapStart` is the next word.
pub init_heap : Ptr → Mem → Ptr × Mem
init_heap base mem =
    let heap_size = 4096 - 8 in
    let footer = base + heap_size - 8 in
    let mem1 = put (base + 8) (heap_size - 8) mem in (base + 8, put footer (mem1 (base + 8)) mem1)

-- The loop of `heapAlloc` at `p`: the first free area that is large enough, or NULL. `stop` is
-- `heap_end`.
pub find_area : (fuel : ℕ) (p stop total_size : ℕ) → Mem → Option Ptr
find_area zero p stop total_size mem = none
find_area (suc fuel) p stop total_size mem =
    let rest = find_area fuel (add64 p (area_size (mem p))) stop total_size mem in
    if ltb p stop
    then (if not (in_use (mem p)) && leb total_size (mem p)
        then some p
        else if mem p == 0
        then some 0
        else rest)
    else some 0

-- `heapAlloc` where `newHeader` is `p` and `oldSize` is `old`: the split, and its result
-- `newFooter`.
pub split_area : (p old total_size : ℕ) → Mem → Ptr × Mem
split_area p old total_size mem =
    let free_footer = footer_of mem p in
    let mem1 = put p total_size mem in
    let mem2 = put free_footer (old - total_size) mem1 in
    if ltb 16 (old - total_size)
    then (footer_of mem1 p, put (header_of mem2 free_footer) (mem2 free_footer) mem2)
    else (footer_of (put p old mem1) p, put p old mem1)

-- `heapAlloc` where an area was found at `p`.
pub take_area : (p total_size : ℕ) → Mem → Mem
take_area p total_size mem =
    let split = split_area p (mem p) total_size mem in
    let mem1 = put p (mark (split.1 p)) split.1 in put split.0 (mem1 p) mem1

-- `heapAlloc`: the address behind the header, or NULL.
pub heap_alloc : (fuel size heap heap_size : ℕ) → Mem → Option (Ptr × Mem)
heap_alloc fuel size heap heap_size mem =
    elim (find_area fuel heap (heap_end heap heap_size) (size + 16) mem) [
      | none ↦ none
      | some p ↦ some (if p == 0 then (0, mem) else (p + 8, take_area p (size + 16) mem))
    ]

-- `heapFree` on the area behind `header`, from `*header &= ~AREA_INUSE` to `*footer &=
-- ~AREA_INUSE`: the footer, and the memory. The bound `heap + heapSize` counts words of 8 bytes.
pub merge_higher : (header heap heap_size : ℕ) → Mem → Ptr × Mem
merge_higher header heap heap_size mem =
    let mem1 = put header (unmark (mem header)) mem in
    let footer = footer_of mem1 header in
    let next = footer + 8 in
    let next_footer = footer_of mem1 next in
    let mem2 = put header (add64 (mem1 header) (mem1 next)) mem1 in
    let merged = put next_footer (mem2 header) mem2 in
    if ltb next (add64 heap (8 * heap_size)) && not (in_use (mem1 next))
    then (next_footer, put next_footer (unmark (merged next_footer)) merged)
    else (footer, put footer (unmark (mem1 footer)) mem1)

-- The rest of `heapFree`.
pub merge_lower : (header footer : ℕ) → Mem → Mem
merge_lower header footer mem =
    let prev_footer = header - 8 in
    let prev_header = header_of mem prev_footer in
    let mem1 = put prev_header (add64 (mem prev_header) (mem header)) mem in
    if not (mem prev_footer == 0) && not (in_use (mem prev_footer))
    then put footer (mem1 prev_header) mem1
    else mem

pub free_area : (header heap heap_size : ℕ) → Mem → Mem
free_area header heap heap_size mem =
    let merged = merge_higher header heap heap_size mem in merge_lower header merged.0 merged.1

-- `heapFree`
pub heap_free : (addr heap heap_size : ℕ) → Mem → Mem
heap_free addr heap heap_size mem =
    if leb heap addr && ltb addr (add64 heap heap_size) && in_use (mem (addr - 8))
    then free_area (addr - 8) heap heap_size mem
    else mem
