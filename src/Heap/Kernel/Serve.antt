-- ===== src/Heap/Kernel/Serve.antt =====
-- `kmalloc` always returns memory.
use mathlib.Core.Path.{subst}
use mirai_os.Prelude.{
  ℕ, ◌+◌, ◌-◌, ◌%◌, ◌^◌, ◌≤◌, ◌<◌, ◌==◌, ltb, leb, ◌≡◌, ◌≢◌, refl, Bool, true, false, ◌||◌,
  if◌then◌else◌, Option, none, some, List, [], ◌∷◌, ◌++◌, length, length-append, arith, ap, sym,
  Bool-cases, inl, inr,
}
use mirai_os.Heap.{Ptr, Mem, heap_alloc, heap_end}
use mirai_os.Heap.Areas.{Area, area, IsAreas, IsAreas-le, sizes}
use mirai_os.Heap.Find.{Fit, first_fit, first_fit-Divides, Divides, first_fit-finds}
use mirai_os.Heap.Take.{parts}
use mirai_os.Heap.Alloc.{Allocated, heap_alloc-Allocated}
use mirai_os.Heap.Kernel.{
  KernelHeap, round_up, try_alloc, grow_heap, alloc_rounded, kmalloc, max_alloc,
}
use mirai_os.Heap.Kernel.Grow.{
  KeepsBelow, IsKernelHeap, round_up-page, round_up-word, grow-used, grow-free,
}

-- The address is that of an area in use of at least `size` bytes without its words.
pub record Serves (size : ℕ) (r : Ptr × KernelHeap) : Type 0 where
  pub before : List Area
  pub bytes : ℕ
  pub behind : List Area
  pub areas : IsKernelHeap r.1 (before ++ area bytes true ∷ behind)
  pub address : r.0 ≡ r.1.start + sizes before + 8
  pub enough : size + 16 ≤ bytes

parts_first :
    (s t : ℕ) → t ≤ s → (n : ℕ) × (xs : List Area) × (parts s t ≡ area n true ∷ xs) × (t ≤ n)
parts_first s t le = elim (Bool-cases (ltb 16 (s - t))) [
  | inl e ↦ (
    t,
    area (s - t) false ∷ [],
    ap (λ u. if u then area t true ∷ area (s - t) false ∷ [] else area s true ∷ []) e,
    omega arith,
  )
  | inr e ↦
      (s, [], ap (λ u. if u then area t true ∷ area (s - t) false ∷ [] else area s true ∷ []) e, le)
]

Allocated-Serves :
    (size : ℕ) (h : KernelHeap) (xs : List Area) (f : Fit) (r : Ptr × Mem)
    → size + 16 ≤ f.size
    → Allocated (size + 16) h.start (h.start + h.size - 8) xs h.mem (some f) r
    → Serves size (r.0, record h { mem = r.1 })
Allocated-Serves size h xs f r le a =
    let p = parts_first f.size (size + 16) le in
    record {
      before = f.before;
      bytes = p.0;
      behind = p.1 ++ f.behind;
      areas =
          subst (λ l. IsAreas r.1 h.start (h.start + h.size - 8) (f.before ++ (l ++ f.behind))) p.2
            a.1;
      address = a.0;
      enough = p.3;
    }

-- A call of `heapAlloc`: NULL and no change where nothing fits, and otherwise memory.
abbrev Tried : (size : ℕ) → KernelHeap → List Area → Option Fit → Ptr × KernelHeap → Type 0
Tried size h xs none r = (r.0 ≡ 0) × (r.1 ≡ h)
Tried size h xs (some f) r = Serves size r

-- A heap that ends below 2^64 ends where `heapAlloc` stops.
kernel_alloc :
    (fuel size : ℕ) (h : KernelHeap) (xs : List Area)
    → length xs < fuel
    → size % 16 ≡ 0
    → 0 < h.start
    → h.start + h.size < 2 ^ 64
    → IsKernelHeap h xs
    → (r : Ptr × Mem) × (heap_alloc fuel size h.start h.size h.mem ≡ some r)
      × Allocated (size + 16) h.start (h.start + h.size - 8) xs h.mem (first_fit (size + 16) xs) r
kernel_alloc fuel size h xs lt whole pos top areas =
    let long = IsAreas-le h.mem h.start (h.start + h.size - 8) xs areas in
    let stop : h.start + h.size - 8 ≡ heap_end h.start h.size = omega (arith, long) in
    subst
      (λ q.
        (r : Ptr × Mem) × (heap_alloc fuel size h.start h.size h.mem ≡ some r)
        × Allocated (size + 16) h.start q xs h.mem (first_fit (size + 16) xs) r)
      (sym stop)
      (heap_alloc-Allocated fuel size h.start h.size h.mem xs lt whole pos
        (subst (λ q. IsAreas h.mem h.start q xs) stop areas))

try_alloc-Tried :
    (fuel size : ℕ) (h : KernelHeap) (xs : List Area) (o : Option Fit)
    → length xs < fuel
    → size % 16 ≡ 0
    → 0 < h.start
    → h.start + h.size < 2 ^ 64
    → IsKernelHeap h xs
    → first_fit (size + 16) xs ≡ o
    → (r : Ptr × KernelHeap) × (try_alloc fuel size h ≡ some r) × Tried size h xs o r
unfolding try_alloc
try_alloc-Tried fuel size h xs none lt whole pos top areas e =
    let got = kernel_alloc fuel size h xs lt whole pos top areas in
    let a =
      subst (λ o. Allocated (size + 16) h.start (h.start + h.size - 8) xs h.mem o got.0) e got.2 in
    (
      (got.0.0, record h { mem = got.0.1 }),
      rw (got.1, try_alloc) refl,
      (a.0, ap (λ m. record h { mem = m }) a.1),
    )
try_alloc-Tried fuel size h xs (some f) lt whole pos top areas e =
    let got = kernel_alloc fuel size h xs lt whole pos top areas in
    let a =
      subst (λ o. Allocated (size + 16) h.start (h.start + h.size - 8) xs h.mem o got.0) e got.2 in
    let d = subst (Divides (size + 16) xs) e (first_fit-Divides (size + 16) xs) in
    (
      (got.0.0, record h { mem = got.0.1 }),
      rw (got.1, try_alloc) refl,
      Allocated-Serves size h xs f got.0 d.1 a,
    )

-- A search that fails says that the last area does not fit.
last_small : (t s : ℕ) (ws : List Area) → first_fit t (ws ++ area s false ∷ []) ≡ none → s < t
last_small t s ws e = elim (Bool-cases (leb t s)) [
  | inl fits ↦ let f = first_fit-finds t ws (area s false) [] fits in absurd (cc (e, f.1))
  | inr not_fit ↦ ground arith
]

-- The last area of the heap that has grown is free and fits.
last_fits :
    (fuel size n : ℕ) (h : KernelHeap) (xs : List Area)
    → length (xs ++ area n false ∷ []) < fuel
    → size % 16 ≡ 0
    → 0 < h.start
    → h.start + h.size < 2 ^ 64
    → IsKernelHeap h (xs ++ area n false ∷ [])
    → size + 16 ≤ n
    → (r : Ptr × KernelHeap) × (try_alloc fuel size h ≡ some r) × Serves size r
last_fits fuel size n h xs lt whole pos top areas big =
    let f = first_fit-finds (size + 16) xs (area n false) [] (ground arith) in
    try_alloc-Tried fuel size h (xs ++ area n false ∷ []) (some f.0) lt whole pos top areas f.1

-- The heap grows, and the second search finds the new area.
module _ (fuel size s : ℕ) (grow : Ptr → ℕ → Mem → Mem) (ws : List Area) (h : KernelHeap)
    (keeps : KeepsBelow grow) (lt : length ws + 2 < fuel) (whole : size % 16 ≡ 0)
    (pos : 0 < h.start) (fit : h.start + h.size + (size + 16) + 4096 < 2 ^ 64) where
  serve_used :
      IsKernelHeap h (ws ++ area s true ∷ [])
      → (r : Ptr × KernelHeap) × (try_alloc fuel size (grow_heap grow size h) ≡ some r)
        × Serves size r
  unfolding grow_heap
  serve_used areas =
      let more = round_up (size + 16) 4096 in
      let bounds = round_up-page (size + 16) (omega arith) in
      let grew = grow-used grow size s ws h fit keeps areas in
      last_fits fuel size more (grow_heap grow size h) (ws ++ area s true ∷ [])
        (omega (
          arith,
          length-append (ws ++ area s true ∷ []) (area more false ∷ []),
          length-append ws (area s true ∷ []),
        ))
        whole pos grew.1 grew.0 bounds.0

  serve_free :
      IsKernelHeap h (ws ++ area s false ∷ [])
      → s < size + 16
      → (r : Ptr × KernelHeap) × (try_alloc fuel size (grow_heap grow size h) ≡ some r)
        × Serves size r
  unfolding grow_heap
  serve_free areas less =
      let more = round_up (size + 16 - s) 4096 in
      let bounds = round_up-page (size + 16 - s) (omega arith) in
      let grew = grow-free grow size s ws h fit keeps areas less in
      last_fits fuel size (s + more) (grow_heap grow size h) ws
        (omega (arith, length-append ws (area (s + more) false ∷ []))) whole pos grew.1 grew.0
        (omega (arith, bounds))

  serve_grown :
      (u : Bool)
      → IsKernelHeap h (ws ++ area s u ∷ [])
      → first_fit (size + 16) (ws ++ area s u ∷ []) ≡ none
      → (r : Ptr × KernelHeap) × (try_alloc fuel size (grow_heap grow size h) ≡ some r)
        × Serves size r
  serve_grown true areas e = serve_used areas
  serve_grown false areas e = serve_free areas (last_small (size + 16) s ws e)

  serve_tried :
      (u : Bool) (o : Option Fit)
      → IsKernelHeap h (ws ++ area s u ∷ [])
      → first_fit (size + 16) (ws ++ area s u ∷ []) ≡ o
      → (r : Ptr × KernelHeap) × (alloc_rounded fuel grow size h ≡ some r) × Serves size r
  unfolding alloc_rounded
  serve_tried u none areas e =
      let first =
        try_alloc-Tried fuel size h (ws ++ area s u ∷ []) none
          (omega (arith, length-append ws (area s u ∷ []))) whole pos (omega arith) areas e in
      let grown = serve_grown u areas e in
      let null : (first.0.0 == 0) ≡ true = ground (arith, first.2.0) in
      let test : (size % 16 == 0) ≡ true = ground arith in
      (grown.0, rw (first.1, alloc_rounded, null, first.2.1, test) grown.1, grown.2)
  serve_tried u (some f) areas e =
      let first =
        try_alloc-Tried fuel size h (ws ++ area s u ∷ []) (some f)
          (omega (arith, length-append ws (area s u ∷ []))) whole pos (omega arith) areas e in
      let found : (first.0.0 == 0) ≡ false = ground (arith, first.2.address) in
      (first.0, rw (first.1, alloc_rounded, found) refl, first.2)

-- On a heap of areas of which the last one ends at the heap's end, if pages that are mapped keep the
-- memory below them, there are more than `size` and 2^13 bytes of addresses from the heap's end to
-- 2^64, so that the heap can grow without a wrap, and with fuel for two areas more than the heap
-- has, `kmalloc` of `size` bytes, which are 1 to MAX_ALLOC, returns the address behind the header of an area in use of that many bytes or
-- more, and never NULL, whether an area fits or the heap has to grow.
pub kmalloc-Serves :
    (fuel size s : ℕ) (u : Bool) (grow : Ptr → ℕ → Mem → Mem) (ws : List Area) (h : KernelHeap)
    → KeepsBelow grow
    → length ws + 2 < fuel
    → 0 < h.start
    → h.start + h.size + size + 2 ^ 13 < 2 ^ 64
    → IsKernelHeap h (ws ++ area s u ∷ [])
    → 0 < size
    → size ≤ max_alloc
    → (r : Ptr × KernelHeap) × (kmalloc fuel grow size h ≡ some r) × (r.0 ≢ 0) × Serves size r
unfolding kmalloc
kmalloc-Serves fuel size s u grow ws h keeps lt pos fit areas some_size le =
    let n = round_up size 16 in
    let bounds = round_up-word size (omega arith) in
    let got =
      serve_tried fuel n s grow ws h keeps lt bounds.2 pos (omega (arith, bounds)) u
        (first_fit (n + 16) (ws ++ area s u ∷ [])) areas refl in
    let test : (size == 0 || ltb max_alloc size) ≡ false = ground arith in
    let served = got.2 in
    (
      got.0,
      rw test got.1,
      ground (arith, served.address),
      record {
        before = served.before;
        bytes = served.bytes;
        behind = served.behind;
        areas = served.areas;
        address = served.address;
        enough = omega (arith, served.enough, bounds);
      },
    )
