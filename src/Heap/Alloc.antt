-- ===== src/Heap/Alloc.antt =====
-- `heapAlloc` allocates by first fit.
use mathlib.Core.Path.{subst}
use mirai_os.Prelude.{
  ℕ, ◌+◌, ◌%◌, ◌≤◌, ◌<◌, ◌==◌, ◌≡◌, refl, false, Option, none, some, List, ◌∷◌, ◌++◌, length, arith,
  inl, inr, ◌⊎◌,
}
use mirai_os.Heap.{Ptr, Mem, find_area, take_area, heap_alloc, heap_end}
use mirai_os.Heap.Areas.{
  Area, area, IsAreas, IsAreas-le, IsAreas-frame, IsAreas-split, IsAreas-append, sizes,
}
use mirai_os.Heap.Find.{Fit, first_fit, first_fit-Divides, Divides, address, find_area-first_fit}
use mirai_os.Heap.Take.{parts, TookArea, take_area-TookArea}

-- The areas after `t` bytes are taken from the first area that fits.
abbrev pub allocated : ℕ → Fit → List Area
allocated t f = f.before ++ (parts f.size t ++ f.behind)

-- What is left of a heap whose areas are `xs`.
abbrev pub Allocated : (t heap stop : ℕ) → List Area → Mem → Option Fit → Ptr × Mem → Type 0
Allocated t heap stop xs mem none r = (r.0 ≡ 0) × (r.1 ≡ mem)
Allocated t heap stop xs mem (some f) r =
    (r.0 ≡ heap + sizes f.before + 8)
    × IsAreas r.1 heap stop (allocated t f)
    × ((a : ℕ) → (a < heap) ⊎ (stop ≤ a) → r.1 a ≡ mem a)

-- The areas before and behind the changed one are as they were.
take-IsAreas :
    (mem mem' : Mem) (heap stop t : ℕ) (f : Fit)
    → IsAreas mem heap stop (f.before ++ area f.size false ∷ f.behind)
    → TookArea (heap + sizes f.before) f.size t mem mem'
    → IsAreas mem' heap stop (allocated t f)
take-IsAreas mem mem' heap stop t f h took =
    let p = heap + sizes f.before in
    let at = IsAreas-split mem heap stop f.before (area f.size false ∷ f.behind) h in
    IsAreas-append mem' heap p stop f.before (parts f.size t ++ f.behind)
      (IsAreas-frame mem mem' heap p f.before (λ a le lt. took.below a lt) at.0)
      (IsAreas-append mem' p (p + f.size) stop (parts f.size t) f.behind took.areas
        (IsAreas-frame mem mem' (p + f.size) stop f.behind (λ a le lt. took.above a le) at.1.4))

take_found :
    (mem : Mem) (heap stop t : ℕ) (xs : List Area) (f : Fit)
    → IsAreas mem heap stop xs
    → Divides t xs (some f)
    → t % 16 ≡ 0
    → 16 ≤ t
    → let p = heap + sizes f.before in
      Allocated t heap stop xs mem (some f) (p + 8, take_area p t mem)
take_found mem heap stop t xs f h d whole big =
    let p = heap + sizes f.before in
    let h' : IsAreas mem heap stop (f.before ++ area f.size false ∷ f.behind) =
      subst (IsAreas mem heap stop) d.0 h in
    let here = (IsAreas-split mem heap stop f.before (area f.size false ∷ f.behind) h').1 in
    let end = IsAreas-le mem (p + f.size) stop f.behind here.4 in
    let took = take_area-TookArea p f.size t mem here.0 here.2 whole big d.1 in
    (
      refl,
      take-IsAreas mem (take_area p t mem) heap stop t f h' took,
      λ a out. elim out [
        | inl lt ↦ took.below a (omega arith)
        | inr le ↦ took.above a (omega (arith, end))
      ],
    )

alloc_found :
    (fuel size heap heap_size : ℕ) (mem : Mem) (xs : List Area) (o : Option Fit)
    → size % 16 ≡ 0
    → 0 < heap
    → IsAreas mem heap (heap_end heap heap_size) xs
    → find_area fuel heap (heap_end heap heap_size) (size + 16) mem ≡ some (address heap o)
    → Divides (size + 16) xs o
    → (r : Ptr × Mem) × (heap_alloc fuel size heap heap_size mem ≡ some r)
      × Allocated (size + 16) heap (heap_end heap heap_size) xs mem o r
unfolding heap_alloc
alloc_found fuel size heap heap_size mem xs none whole pos h found d =
    ((0, mem), rw (found, heap_alloc), (refl, refl))
alloc_found fuel size heap heap_size mem xs (some f) whole pos h found d =
    let p = heap + sizes f.before in
    let test : (p == 0) ≡ false = ground arith in
    (
      (p + 8, take_area p (size + 16) mem),
      rw (found, heap_alloc, test),
      take_found mem heap (heap_end heap heap_size) (size + 16) xs f h d (omega arith)
          (omega arith),
    )

-- On a heap whose areas are `xs`, `heapAlloc` of a size that is a multiple of 16, with more fuel
-- than areas, returns NULL and changes nothing where no free area has 16 bytes more than the size;
-- otherwise it returns the address behind the header of the first one that has: this is in use, what
-- it does not need is a free area of its own if it is above 16 bytes, every other area is as it was,
-- and so is the memory outside the heap.
pub heap_alloc-Allocated :
    (fuel size heap heap_size : ℕ) (mem : Mem) (xs : List Area)
    → length xs < fuel
    → size % 16 ≡ 0
    → 0 < heap
    → IsAreas mem heap (heap_end heap heap_size) xs
    → (r : Ptr × Mem) × (heap_alloc fuel size heap heap_size mem ≡ some r)
      × Allocated (size + 16) heap (heap_end heap heap_size) xs mem (first_fit (size + 16) xs) r
heap_alloc-Allocated fuel size heap heap_size mem xs lt whole pos h =
    alloc_found fuel size heap heap_size mem xs (first_fit (size + 16) xs) whole pos h
      (find_area-first_fit fuel heap (heap_end heap heap_size) (size + 16) mem xs lt (omega arith)
        (omega arith) h)
      (first_fit-Divides (size + 16) xs)
