-- ===== src/Heap/Kernel/Resize.antt =====
-- `krealloc` of an area with a free one behind it.
use mathlib.Core.Path.{subst}
use mirai_os.Prelude.{
  ℕ, ◌+◌, ◌-◌, ◌%◌, ◌^◌, ◌≤◌, ◌<◌, ◌==◌, leb, ◌≡◌, refl, true, false, some, List, [], ◌∷◌, ◌++◌,
  arith, ap, ◌∙◌, inl, inr, ◌⊎◌,
}
use mirai_os.Heap.{Ptr, Mem, put}
use mirai_os.Heap.Areas.{
  Area, area, IsAreas, IsAreas-le, IsAreas-frame, IsAreas-split, IsAreas-append, sizes,
}
use mirai_os.Heap.Kernel.{KernelHeap, round_up, expand, resize, krealloc}
use mirai_os.Heap.Kernel.Grow.{IsKernelHeap, round_up-word}

-- An area in use of `s` bytes at `p` and a free one of `n` bytes behind it; `size` bytes are wanted.
module _ (p s n size : ℕ) (mem : Mem) (whole_s : s % 16 ≡ 0) (whole_n : n % 16 ≡ 0)
    (whole : size % 16 ≡ 0) (used : mem p ≡ s + 1) (free : mem (p + s) ≡ n)
    (foot : mem (p + s + n - 8) ≡ n) (big : 16 ≤ s) (grows : s < size + 16)
    (fits : size + 16 < s + n) (small : p + s + n < 2 ^ 64) where
  expand_writes :
      expand p (p + s) size (size + 16 - s) mem
      ≡ put (p + size + 16) (s + n - (size + 16)) (
          put
            (p + s + n - 8)
            (s + n - (size + 16))
            (put (p + size + 8) (size + 17) (put p (size + 17) mem)))
  unfolding expand
  expand_writes =
      let size_n : n - n % 16 ≡ n = omega arith in
      let set : size + 16 - (size + 16) % 2 + 1 ≡ size + 17 = omega arith in
      let at_p : (p == p) ≡ true = ground arith in
      let size_new : size + 17 - (size + 17) % 16 ≡ size + 16 = omega arith in
      let footer : p + (size + 16) - 8 ≡ p + size + 8 = omega arith in
      let behind : p + size + 8 + 8 ≡ p + size + 16 = omega arith in
      let other : (p + s == p) ≡ false = ground arith in
      let test : (size + 16 - s == n) ≡ false = ground arith in
      let last : (p + s + n - 8 == p + size + 8) ≡ false = ground arith in
      let last' : (p + s + n - 8 == p) ≡ false = ground arith in
      let same : (p + s + n - 8 == p + s + n - 8) ≡ true = ground arith in
      let rest : (n + 2 ^ 64 - (size + 16 - s)) % 2 ^ 64 ≡ s + n - (size + 16) = omega arith in
      rw
        (
          free, size_n, set, at_p, size_new, footer, behind, other, size_n, test, last, last', foot,
          same, rest,
        )
        refl

  expand_areas :
      (mem' : Mem)
      → mem'
        ≡ put (p + size + 16) (s + n - (size + 16)) (
            put
              (p + s + n - 8)
              (s + n - (size + 16))
              (put (p + size + 8) (size + 17) (put p (size + 17) mem)))
      → IsAreas mem' p (p + s + n) (area (size + 16) true ∷ area (s + n - (size + 16)) false ∷ [])
        × ((a : ℕ) → (a < p) ⊎ (p + s + n ≤ a) → mem' a ≡ mem a)
  expand_areas mem' e =
      let at : (a : Ptr)
          → mem' a
            ≡ put (p + size + 16) (s + n - (size + 16))
                (put (p + s + n - 8) (s + n - (size + 16))
                  (put (p + size + 8) (size + 17) (put p (size + 17) mem)))
                a =
        λ a. ap (λ m. m a) e in
      (
        (
          ground (arith, at p),
          ground (arith, at (p + (size + 16) - 8)),
          omega arith,
          omega arith,
          (
            ground (arith, at (p + (size + 16))),
            ground (arith, at (p + (size + 16) + (s + n - (size + 16)) - 8)),
            omega arith,
            omega arith,
            omega arith,
          ),
        ),
        λ a out. elim out [ inl lt ↦ ground (arith, at a) | inr le ↦ ground (arith, at a) ],
      )

-- `resize` where the area behind is free and larger than what is missing.
resize_expands :
    (fuel addr size s n : ℕ) (grow : Ptr → ℕ → Mem → Mem) (copy : Ptr → Ptr → ℕ → Mem → Mem)
    (h : KernelHeap)
    → h.mem (addr - 8) ≡ s + 1
    → h.mem (addr - 8 + s) ≡ n
    → 8 ≤ addr
    → 16 ≤ s
    → s % 16 ≡ 0
    → n % 16 ≡ 0
    → s < size + 16
    → size + 16 < s + n
    → s < 2 ^ 64
    → resize fuel grow copy addr size h
      ≡ some (addr, record h { mem = expand (addr - 8) (addr - 8 + s) size (size + 16 - s) h.mem })
unfolding resize
resize_expands fuel addr size s n grow copy h used free low big whole_s whole_n grows fits small =
    let size_s : s + 1 - (s + 1) % 16 ≡ s = omega arith in
    let next : addr - 8 + s - 8 + 8 ≡ addr - 8 + s = omega arith in
    let size_n : n - n % 16 ≡ n = omega arith in
    let old : (s + 2 ^ 64 - 16) % 2 ^ 64 ≡ s - 16 = omega arith in
    let more : size - (s - 16) ≡ size + 16 - s = omega arith in
    let test : leb size (s - 16) ≡ false = ground arith in
    let set : (n % 2 == 1) ≡ false = ground arith in
    let enough : leb n (size + 16 - s) ≡ false = ground arith in
    rw (used, size_s, next, old, free, size_n, more, test, set, enough) refl

-- On a heap of areas `ws`, one in use of `s` bytes, a free one of `n` bytes and `ys`, `krealloc` of
-- the address behind the header of the one in use, to a size that with its two words, rounded up
-- to 16, is above `s` and below `s + n`, returns the same address, makes that area as large as this,
-- and leaves the rest of the `s + n` bytes as a free area; the other areas are as they were.
pub krealloc-expands :
    (fuel size s n : ℕ) (grow : Ptr → ℕ → Mem → Mem) (copy : Ptr → Ptr → ℕ → Mem → Mem)
    (ws ys : List Area) (h : KernelHeap)
    → let total = round_up size 16 + 16 in
      let addr = h.start + sizes ws + 8 in
      IsKernelHeap h (ws ++ area s true ∷ area n false ∷ ys)
      → h.start + h.size < 2 ^ 64
      → 0 < size
      → size + 16 < 2 ^ 64
      → s < total
      → total < s + n
      → (h' : KernelHeap) × (krealloc fuel grow copy addr size h ≡ some (addr, h'))
        × IsKernelHeap h' (ws ++ area total true ∷ area (s + n - total) false ∷ ys)
unfolding krealloc
krealloc-expands fuel size s n grow copy ws ys h areas top some_size fit grows fits =
    let stop = h.start + h.size - 8 in
    let new = round_up size 16 in
    let bounds = round_up-word size fit in
    let p = h.start + sizes ws in
    let split = IsAreas-split h.mem h.start stop ws (area s true ∷ area n false ∷ ys) areas in
    let here = split.1 in
    let next = here.4 in
    let end = IsAreas-le h.mem (p + s + n) stop ys next.4 in
    let mem' = expand p (p + s) new (new + 16 - s) h.mem in
    let big = here.3 in
    let writes =
      expand_writes p s n new h.mem here.2 next.2 bounds.2 here.0 next.0 next.1 here.3 grows fits
        (omega (arith, end)) in
    let new_areas =
      expand_areas p s n new h.mem here.2 next.2 bounds.2 here.0 next.0 next.1 here.3 grows fits
        (omega (arith, end)) mem' writes in
    let back : p + 8 - 8 ≡ p = omega arith in
    let not_null : (p + 8 == 0) ≡ false = ground arith in
    let not_free : (size == 0) ≡ false = ground arith in
    (
      record h { mem = mem' },
      rw (not_null, not_free)
          (subst
            (λ q.
              resize fuel grow copy (p + 8) new h
              ≡ some (p + 8, record h { mem = expand q (q + s) new (new + 16 - s) h.mem }))
            back
            (resize_expands fuel (p + 8) new s n grow copy h (ap h.mem back ∙ here.0)
              (ap (λ q. h.mem (q + s)) back ∙ next.0) (omega arith) here.3 here.2 next.2 grows fits
              (omega (arith, end)))),
      IsAreas-append mem' h.start p stop ws
          (area (new + 16) true ∷ area (s + n - (new + 16)) false ∷ ys)
          (IsAreas-frame h.mem mem' h.start p ws (λ a from to. new_areas.1 a (inl to)) split.0)
          (IsAreas-append mem' p (p + s + n) stop
            (area (new + 16) true ∷ area (s + n - (new + 16)) false ∷ []) ys new_areas.0
            (IsAreas-frame h.mem mem' (p + s + n) stop ys (λ a from to. new_areas.1 a (inr from))
              next.4)),
    )
