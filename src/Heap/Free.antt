-- ===== src/Heap/Free.antt =====
-- `heapFree` makes an area free and joins it with its free neighbours.
use mathlib.Core.Path.{subst}
use mirai_os.Prelude.{
  ℕ, ◌+◌, ◌-◌, ◌*◌, ◌^◌, ◌≤◌, ◌<◌, ltb, leb, ◌≡◌, refl, true, false, List, [], ◌∷◌, ◌++◌, arith,
  sym, ◌∙◌, Bool-cases, inl, inr,
}
use mirai_os.Heap.{Mem, add64, merge_higher, merge_lower, free_area, heap_free}
use mirai_os.Heap.Areas.{
  Area, area, IsAreas, IsAreas-le, IsAreas-frame, IsAreas-split, IsAreas-append, sizes, Changed,
}
use mirai_os.Heap.Find.{tag_parts}
use mirai_os.Heap.Higher.{higher, Merged, merge_higher-Higher}
use mirai_os.Heap.Lower.{lower, lower-Changed}

-- The areas after the one of `s` bytes between `xs` and `ys` is freed.
abbrev pub freed : List Area → ℕ → List Area → List Area
freed xs s ys = lower xs (higher s ys).0.size ++ (higher s ys).1

-- `merge_higher` keeps the areas before the one it changes.
higher-Changed :
    (heap stop : ℕ) (xs : List Area) (x : Area) (ys : List Area) (mem mem' : Mem)
    → IsAreas mem heap (heap + sizes xs) xs
    → heap + sizes xs < stop
    → Merged (heap + sizes xs) stop x ys mem mem'
    → Changed heap stop (xs ++ x ∷ ys) mem mem'
higher-Changed heap stop xs x ys mem mem' h lt merged = (
  IsAreas-append mem' heap (heap + sizes xs) stop xs (x ∷ ys)
      (IsAreas-frame mem mem' heap (heap + sizes xs) xs (λ a from to. merged.below a to) h)
      merged.areas,
  λ a out. elim out [ inl lt ↦ merged.below a (omega arith) | inr le ↦ merged.above a le ],
)

higher-free : (s : ℕ) (ys : List Area) → (higher s ys).0 ≡ area (higher s ys).0.size false
higher-free s [] = refl
higher-free s (y ∷ ys) = elim (Bool-cases y.used) [ inl e ↦ rw e refl | inr e ↦ rw e refl ]

pub freed-Changed :
    (heap heap_size s : ℕ) (xs ys : List Area) (mem : Mem)
    → let stop = heap + heap_size - 8 in
      let p = heap + sizes xs in
      IsAreas mem heap stop (xs ++ area s true ∷ ys)
      → 8 ≤ heap
      → 8 ≤ heap_size
      → mem (heap - 8) ≡ 0
      → mem stop ≡ 0
      → heap + 8 * heap_size < 2 ^ 64
      → Changed heap stop (freed xs s ys) mem (free_area p heap heap_size mem)
unfolding free_area
freed-Changed heap heap_size s xs ys mem h above_zero some_size null end small =
    let stop = heap + heap_size - 8 in
    let p = heap + sizes xs in
    let at = IsAreas-split mem heap stop xs (area s true ∷ ys) h in
    let size = IsAreas-le mem p stop (area s true ∷ ys) at.1 in
    let up = merge_higher-Higher p s stop heap heap_size mem ys at.1 end (omega arith) small in
    let merged = merge_higher p heap heap_size mem in
    let n = (higher s ys).0.size in
    let big = at.1.3 in
    let mid =
      higher-Changed heap stop xs (higher s ys).0 (higher s ys).1 mem merged.1 at.0 (omega arith)
        up.1 in
    let ys' = (higher s ys).1 in
    let split = subst (λ x. IsAreas merged.1 heap stop (xs ++ x ∷ ys')) (higher-free s ys) mid.0 in
    let low =
      lower-Changed heap stop n xs ys' merged.1 split (mid.1 (heap - 8) (inl (omega arith)) ∙ null)
        (omega arith) in
    let done =
      subst (λ f. Changed heap stop (lower xs n ++ ys') merged.1 (merge_lower p f merged.1))
        (sym up.0) low in
    (done.0, λ a out. done.1 a out ∙ mid.1 a out)

-- On a heap whose areas are `xs`, one of `s` bytes and `ys`, with a word 0 before and behind it,
-- `heapFree` of the address behind that area's header makes it free if it is in use, joins it with
-- the area behind it if that is free, and then with the one before it if that is free; every
-- other area is as it was, and so is the memory outside the heap.
pub heap_free-freed :
    (heap heap_size s : ℕ) (xs ys : List Area) (mem : Mem)
    → let stop = heap + heap_size - 8 in
      IsAreas mem heap stop (xs ++ area s true ∷ ys)
      → 8 ≤ heap
      → 8 ≤ heap_size
      → mem (heap - 8) ≡ 0
      → mem stop ≡ 0
      → heap + 8 * heap_size < 2 ^ 64
      → Changed heap stop (freed xs s ys) mem (heap_free (heap + sizes xs + 8) heap heap_size mem)
unfolding heap_free
heap_free-freed heap heap_size s xs ys mem h above_zero some_size null end small =
    let stop = heap + heap_size - 8 in
    let p = heap + sizes xs in
    let here = (IsAreas-split mem heap stop xs (area s true ∷ ys) h).1 in
    let size = IsAreas-le mem p stop (area s true ∷ ys) here in
    let big = here.3 in
    let back : p + 8 - 8 ≡ p = omega arith in
    let from : leb heap (p + 8) ≡ true = ground arith in
    let top : add64 heap heap_size ≡ heap + heap_size = omega arith in
    let to : ltb (p + 8) (heap + heap_size) ≡ true = ground arith in
    rw (back, (tag_parts (mem p) s true here.2 here.0).1, from, top, to)
      (freed-Changed heap heap_size s xs ys mem h above_zero some_size null end small)

-- `heapFree` of the address behind the header of an area that is free changes nothing.
pub heap_free-again :
    (heap heap_size s : ℕ) (xs ys : List Area) (mem : Mem)
    → IsAreas mem heap (heap + heap_size - 8) (xs ++ area s false ∷ ys)
    → heap_free (heap + sizes xs + 8) heap heap_size mem ≡ mem
unfolding heap_free
heap_free-again heap heap_size s xs ys mem h =
    let p = heap + sizes xs in
    let here = (IsAreas-split mem heap (heap + heap_size - 8) xs (area s false ∷ ys) h).1 in
    let back : p + 8 - 8 ≡ p = omega arith in
    rw (back, (tag_parts (mem p) s false here.2 here.0).1) (ground arith)
