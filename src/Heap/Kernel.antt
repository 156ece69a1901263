-- ===== src/Heap/Kernel.antt =====
-- `kmalloc`, `kzalloc`, `kfree` and `krealloc`. The heap's lock is held for the whole of each call.
-- Parameters: `grow`, the call of `allocPageAt` at an address for a number of bytes; and `fill` and
-- `copy`, the `memset` to 0 and the `memcpy`, which are string instructions of the processor.
pub mod Grow
pub mod Serve
pub mod Resize
use mirai_os.Prelude.{
  ℕ, zero, suc, ◌+◌, ◌-◌, ◌*◌, ◌%◌, ◌^◌, ◌==◌, ltb, leb, Bool, true, false, not, ◌&&◌, ◌||◌,
  if◌then◌else◌, Option, none, some,
}
use mirai_os.Heap.{
  Ptr, Mem, put, add64, sub64, area_size, in_use, mark, footer_of, header_of, heap_alloc, heap_free,
}

-- `heapStart`, `heapSize` and the memory.
pub record KernelHeap : Type 0 where
  pub start : Ptr
  pub size : ℕ
  pub mem : Mem

-- `align` of a number, and the rounding that `kmalloc` and `krealloc` write out.
abbrev pub round_up : ℕ → ℕ → ℕ
round_up n to = if n % to == 0 then n else add64 (n - n % to) to

abbrev pub max_alloc : ℕ
max_alloc = 2048 * 1024

-- The header that `kmalloc` enlarges, the bytes that it lacks, and the memory.
pub last_area : (total_size : ℕ) → KernelHeap → Ptr × ℕ × Mem
last_area total_size h =
    let last_footer = sub64 (add64 h.start h.size) 16 in
    let p = header_of h.mem last_footer in
    if in_use (h.mem last_footer)
    then (last_footer + 8, total_size, put (last_footer + 8) 0 h.mem)
    else (p, sub64 total_size (h.mem p), h.mem)

-- `kmalloc` where `heapAlloc` has returned NULL, up to `*newFooter = *newHeader`.
pub grow_heap : (grow : Ptr → ℕ → Mem → Mem) (size : ℕ) → KernelHeap → KernelHeap
grow_heap grow size h =
    let last = last_area (size + 16) h in
    let mem1 = grow (add64 h.start h.size) last.1 last.2 in
    let more = round_up last.1 4096 in
    let mem2 = put last.0 (add64 (mem1 last.0) more) mem1 in
    record {
      start = h.start;
      size = add64 h.size more;
      mem = put (footer_of mem2 last.0) (mem2 last.0) mem2;
    }

-- A call of `heapAlloc` on the kernel's heap.
pub try_alloc : (fuel size : ℕ) → KernelHeap → Option (Ptr × KernelHeap)
try_alloc fuel size h = elim (heap_alloc fuel size h.start h.size h.mem) [
  | none ↦ none
  | some r ↦ some (r.0, record h { mem = r.1 })
]

-- `kmalloc` of a size that has been rounded.
pub alloc_rounded :
    (fuel : ℕ) (grow : Ptr → ℕ → Mem → Mem) (size : ℕ) → KernelHeap → Option (Ptr × KernelHeap)
alloc_rounded fuel grow size h = elim (try_alloc fuel size h) [
  | none ↦ none
  | some r ↦
      if r.0 == 0
      then try_alloc fuel (round_up size 16) (grow_heap grow (round_up size 16) r.1)
      else some r
]

pub kmalloc :
    (fuel : ℕ) (grow : Ptr → ℕ → Mem → Mem) (size : ℕ) → KernelHeap → Option (Ptr × KernelHeap)
kmalloc fuel grow size h =
    if size == 0 || ltb max_alloc size
    then some (0, h)
    else alloc_rounded fuel grow (round_up size 16) h

pub kzalloc :
    (fuel : ℕ) (grow fill : Ptr → ℕ → Mem → Mem) (size : ℕ) → KernelHeap → Option (Ptr × KernelHeap)
kzalloc fuel grow fill size h = elim (kmalloc fuel grow size h) [
  | none ↦ none
  | some r ↦ some (if r.0 == 0 then (0, r.1) else (r.0, record r.1 { mem = fill r.0 size r.1.mem }))
]

pub kfree : Ptr → KernelHeap → KernelHeap
kfree addr h =
    if addr == 0
    then h
    else if ltb h.start addr && ltb addr (add64 h.start h.size)
    then record h { mem = heap_free addr h.start h.size h.mem }
    else h

-- `krealloc` to fewer bytes than the area has: `diff` bytes become free.
pub shrink : (current next new_size diff : ℕ) → Mem → Mem
shrink current next new_size diff mem =
    let mem1 = put current (mark new_size) mem in
    let footer = footer_of mem1 current in
    let mem2 = put footer (mem1 current) mem1 in
    let used = put (footer + 8) diff mem2 in
    let next_footer = footer_of mem2 next in
    let free = put (footer + 8) (add64 (mem2 next) diff) mem2 in
    if in_use (mem2 next)
    then put (footer_of used (footer + 8)) (used (footer + 8)) used
    else put next_footer (free (footer + 8)) free

-- `krealloc` into the free area behind, which is larger than `more` bytes or has them just so.
pub expand : (current next new_size more : ℕ) → Mem → Mem
expand current next new_size more mem =
    let next_footer = footer_of mem next in
    let mem1 = put current (mark (new_size + 16)) mem in
    let footer = footer_of mem1 current in
    let mem2 = put footer (mem1 current) mem1 in
    let mem3 = put next_footer (sub64 (mem2 next_footer) more) mem2 in
    if more == area_size (mem1 next)
    then put next_footer (mem1 current) mem1
    else put (footer + 8) (mem3 next_footer) mem3

-- `krealloc` where the area is copied to a new one. `kmalloc` may have returned NULL.
pub move :
    (fuel : ℕ) (grow : Ptr → ℕ → Mem → Mem) (copy : Ptr → Ptr → ℕ → Mem → Mem)
    (addr old_size new_size : ℕ)
    → KernelHeap
    → Option (Ptr × KernelHeap)
move fuel grow copy addr old_size new_size h = elim (kmalloc fuel grow new_size h) [
  | none ↦ none
  | some r ↦ some (r.0, kfree addr (record r.1 { mem = copy r.0 addr old_size r.1.mem }))
]

-- `krealloc` of an area to a size that has been rounded.
pub resize :
    (fuel : ℕ) (grow : Ptr → ℕ → Mem → Mem) (copy : Ptr → Ptr → ℕ → Mem → Mem) (addr new_size : ℕ)
    → KernelHeap
    → Option (Ptr × KernelHeap)
resize fuel grow copy addr new_size h =
    let current = addr - 8 in
    let next = footer_of h.mem current + 8 in
    let old_size = sub64 (area_size (h.mem current)) 16 in
    let diff = old_size - new_size + 16 in
    let more = new_size - old_size in
    if leb new_size old_size
    then (if ltb diff 64
        then some (addr, h)
        else some (addr, record h { mem = shrink current next new_size diff h.mem }))
    else if in_use (h.mem next) || leb (area_size (h.mem next)) more
    then move fuel grow copy addr old_size new_size h
    else some (addr, record h { mem = expand current next new_size more h.mem })

pub krealloc :
    (fuel : ℕ) (grow : Ptr → ℕ → Mem → Mem) (copy : Ptr → Ptr → ℕ → Mem → Mem) (addr new_size : ℕ)
    → KernelHeap
    → Option (Ptr × KernelHeap)
krealloc fuel grow copy addr new_size h =
    if addr == 0
    then kmalloc fuel grow new_size h
    else if new_size == 0
    then some (0, kfree addr h)
    else resize fuel grow copy addr (round_up new_size 16) h
