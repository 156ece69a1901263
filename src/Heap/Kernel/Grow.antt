-- ===== src/Heap/Kernel/Grow.antt =====
-- `kmalloc` makes the heap larger where no area fits.
use mathlib.Core.Path.{subst}
use mirai_os.Prelude.{
  ℕ, ◌+◌, ◌-◌, ◌%◌, ◌^◌, ◌≤◌, ◌<◌, ◌==◌, ◌≡◌, ◌≢◌, refl, Bool, true, false, List, [], ◌∷◌, ◌++◌,
  arith, ap, sym, ◌∙◌, Bool-cases, inl, inr,
}
use mirai_os.Heap.{Ptr, Mem, put, add64, sub64, footer_of}
use mirai_os.Heap.Areas.{Area, area, IsAreas, IsAreas-frame, IsAreas-split, IsAreas-append, sizes}
use mirai_os.Heap.Kernel.{KernelHeap, round_up, last_area, grow_heap}

-- What is left below `p` when `grow` maps pages from `p` on.
abbrev pub KeepsBelow : (Ptr → ℕ → Mem → Mem) → Type 0
KeepsBelow grow = (p n : ℕ) (mem : Mem) (a : Ptr) → a < p → grow p n mem a ≡ mem a

pub round_up-page :
    (n : ℕ)
    → n + 4096 < 2 ^ 64
    → (n ≤ round_up n 4096) × (round_up n 4096 < n + 4096) × (round_up n 4096 % 16 ≡ 0)
round_up-page n fit = elim (Bool-cases (n % 4096 == 0)) [
  | inl e ↦ let z : n % 4096 ≡ 0 = ground arith in rw e (omega arith, omega arith, omega arith)
  | inr e ↦
      let wrap : (n - n % 4096 + 4096) % 2 ^ 64 ≡ n - n % 4096 + 4096 = omega arith in
      let z : n % 4096 ≢ 0 = ground arith in rw (e, wrap) (omega arith, omega arith, omega arith)
]

pub round_up-word :
    (n : ℕ)
    → n + 16 < 2 ^ 64
    → (n ≤ round_up n 16) × (round_up n 16 < n + 16) × (round_up n 16 % 16 ≡ 0)
round_up-word n fit = elim (Bool-cases (n % 16 == 0)) [
  | inl e ↦ let z : n % 16 ≡ 0 = ground arith in rw e (omega arith, omega arith, omega arith)
  | inr e ↦
      let wrap : (n - n % 16 + 16) % 2 ^ 64 ≡ n - n % 16 + 16 = omega arith in
      let z : n % 16 ≢ 0 = ground arith in rw (e, wrap) (omega arith, omega arith, omega arith)
]

-- The last area of `s` bytes ends at `stop`, and is in use or free.
module _ (h : KernelHeap) (s total stop : ℕ) (end : stop + 8 ≡ h.start + h.size)
    (top : stop + 8 < 2 ^ 64) (big : 16 ≤ s) (le : s ≤ stop) (whole : s % 16 ≡ 0) where
  last_area-used : h.mem (stop - 8) ≡ s + 1 → last_area total h ≡ (stop, total, put stop 0 h.mem)
  unfolding last_area
  last_area-used e =
      let footer : sub64 (add64 h.start h.size) 16 ≡ stop - 8 = omega arith in
      let set : ((s + 1) % 2 == 1) ≡ true = ground arith in
      let p : stop - 8 + 8 ≡ stop = omega arith in rw (footer, e, set, p) refl

  last_area-free :
      h.mem (stop - 8) ≡ s
      → h.mem (stop - s) ≡ s
      → s < total
      → total < 2 ^ 64
      → last_area total h ≡ (stop - s, total - s, h.mem)
  unfolding last_area
  last_area-free e front lt fit =
      let footer : sub64 (add64 h.start h.size) 16 ≡ stop - 8 = omega arith in
      let set : (s % 2 == 1) ≡ false = ground arith in
      let size : s - s % 16 ≡ s = omega arith in
      let p : stop - 8 + 8 - s ≡ stop - s = omega arith in
      let rest : (total + 2 ^ 64 - s) % 2 ^ 64 ≡ total - s = omega arith in
      rw (footer, e, set, size, p, front, rest) refl

-- The last area, of `old` bytes from `p` on, gets `more` bytes.
enlarged :
    (p old more : ℕ) (mem : Mem)
    → mem p ≡ old
    → old % 16 ≡ 0
    → more % 16 ≡ 0
    → 16 ≤ more
    → old + more < 2 ^ 64
    → let mem2 = put p (add64 (mem p) more) mem in
      IsAreas
        (put (footer_of mem2 p) (mem2 p) mem2)
        p
        (p + (old + more))
        (area (old + more) false ∷ [])
      × ((a : ℕ) → a < p → put (footer_of mem2 p) (mem2 p) mem2 a ≡ mem a)
enlarged p old more mem e whole_old whole big fit =
    let sum : (old + more) % 2 ^ 64 ≡ old + more = omega arith in
    let at : (p == p) ≡ true = ground arith in
    let size : old + more - (old + more) % 16 ≡ old + more = omega arith in
    rw (e, sum, at, size)
      ((ground arith, ground arith, omega arith, omega arith, refl), λ a lt. ground arith)

-- The areas after the heap has got `more` bytes.
abbrev pub grown : List Area → (s : ℕ) → Bool → (more : ℕ) → List Area
grown ws s true more = (ws ++ area s true ∷ []) ++ area more false ∷ []
grown ws s false more = ws ++ area (s + more) false ∷ []

-- The memory that `grow_heap` leaves, by what `last_area` gives.
abbrev end_mem : (grow : Ptr → ℕ → Mem → Mem) → Ptr → Ptr × ℕ × Mem → Mem
end_mem grow at last =
    let mem1 = grow at last.1 last.2 in
    let mem2 = put last.0 (add64 (mem1 last.0) (round_up last.1 4096)) mem1 in
    put (footer_of mem2 last.0) (mem2 last.0) mem2

abbrev pub IsKernelHeap : KernelHeap → List Area → Type 0
IsKernelHeap h xs = IsAreas h.mem h.start (h.start + h.size - 8) xs

-- The heap ends below 2^64, and so it does after it has grown.
module _ (grow : Ptr → ℕ → Mem → Mem) (size s : ℕ) (ws : List Area) (h : KernelHeap)
    (fit : h.start + h.size + (size + 16) + 4096 < 2 ^ 64) where
  -- The heap after it has grown.
  abbrev pub GrewTo : List Area → Type 0
  GrewTo xs = let h' = grow_heap grow size h in IsKernelHeap h' xs × (h'.start + h'.size < 2 ^ 64)

  grow_heap-last :
      (last : Ptr × ℕ × Mem) (xs : List Area)
      → h.start + h.size + round_up last.1 4096 < 2 ^ 64
      → last_area (size + 16) h ≡ last
      → IsAreas
          (end_mem grow (h.start + h.size) last)
          h.start
          (h.start + (h.size + round_up last.1 4096) - 8)
          xs
      → GrewTo xs
  unfolding grow_heap
  grow_heap-last last xs top e areas =
      let from : add64 h.start h.size ≡ h.start + h.size = omega arith in
      let size' : add64 h.size (round_up last.1 4096) ≡ h.size + round_up last.1 4096 =
        omega arith in
      rw (from, e, size') (areas, omega arith)

  pub grow-used :
      KeepsBelow grow
      → IsKernelHeap h (ws ++ area s true ∷ [])
      → GrewTo (grown ws s true (round_up (size + 16) 4096))
  grow-used keeps areas =
      let stop = h.start + h.size - 8 in
      let total = size + 16 in
      let more = round_up total 4096 in
      let last = (IsAreas-split h.mem h.start stop ws (area s true ∷ []) areas).1 in
      let ends : h.start + sizes ws + s ≡ stop = last.4 in
      let big = last.3 in
      let foot : h.mem (stop - 8) ≡ s + 1 = subst (λ q. h.mem (q - 8) ≡ s + 1) ends last.1 in
      let bounds = round_up-page total (omega arith) in
      let mem1 = grow (h.start + h.size) total (put stop 0 h.mem) in
      let zero_there : mem1 stop ≡ 0 =
        keeps (h.start + h.size) total (put stop 0 h.mem) stop (omega arith) ∙ ground arith in
      let new =
        enlarged stop 0 more mem1 zero_there refl bounds.2 (omega (arith, bounds))
          (omega (arith, bounds)) in
      let zero_plus : 0 + more ≡ more = omega arith in
      let mem' = end_mem grow (h.start + h.size) (stop, total, put stop 0 h.mem) in
      let same : (a : Ptr) → h.start ≤ a → a < stop → mem' a ≡ h.mem a = λ a from to.
        new.1 a to
        ∙ keeps (h.start + h.size) total (put stop 0 h.mem) a (omega arith)
        ∙ ground arith in
      grow_heap-last (stop, total, put stop 0 h.mem) (grown ws s true more) (omega (arith, bounds))
        (last_area-used h s total stop (omega arith) (omega arith) big (omega arith) last.2 foot)
        (IsAreas-append mem' h.start stop (h.start + (h.size + more) - 8) (ws ++ area s true ∷ [])
          (area more false ∷ [])
          (IsAreas-frame h.mem mem' h.start stop (ws ++ area s true ∷ []) same areas)
          (subst (λ q. IsAreas mem' stop q (area more false ∷ [])) {x = stop + more} (omega arith)
            (subst (λ n. IsAreas mem' stop (stop + n) (area n false ∷ [])) zero_plus new.0)))

  pub grow-free :
      KeepsBelow grow
      → IsKernelHeap h (ws ++ area s false ∷ [])
      → s < size + 16
      → GrewTo (grown ws s false (round_up (size + 16 - s) 4096))
  grow-free keeps areas less =
      let stop = h.start + h.size - 8 in
      let total = size + 16 in
      let more = round_up (total - s) 4096 in
      let split = IsAreas-split h.mem h.start stop ws (area s false ∷ []) areas in
      let last = split.1 in
      let p = h.start + sizes ws in
      let ends : p + s ≡ stop = last.4 in
      let big = last.3 in
      let foot : h.mem (stop - 8) ≡ s = subst (λ q. h.mem (q - 8) ≡ s) ends last.1 in
      let head : stop - s ≡ p = omega arith in
      let bounds = round_up-page (total - s) (omega arith) in
      let mem1 = grow (h.start + h.size) (total - s) h.mem in
      let front : mem1 p ≡ s =
        keeps (h.start + h.size) (total - s) h.mem p (omega arith) ∙ last.0 in
      let new =
        enlarged p s more mem1 front last.2 bounds.2 (omega (arith, bounds))
          (omega (arith, bounds)) in
      let mem' = end_mem grow (h.start + h.size) (p, total - s, h.mem) in
      let same : (a : Ptr) → h.start ≤ a → a < p → mem' a ≡ h.mem a =
        λ a from to. new.1 a to ∙ keeps (h.start + h.size) (total - s) h.mem a (omega arith) in
      grow_heap-last (p, total - s, h.mem) (grown ws s false more) (omega (arith, bounds))
        (last_area-free h s total stop (omega arith) (omega arith) big (omega arith) last.2 foot
            (subst (λ q. h.mem q ≡ s) (sym head) last.0) less (omega arith)
          ∙ ap (λ q. (q, total - s, h.mem)) head)
        (IsAreas-append mem' h.start p (h.start + (h.size + more) - 8) ws
          (area (s + more) false ∷ []) (IsAreas-frame h.mem mem' h.start p ws same split.0)
          (subst (λ q. IsAreas mem' p q (area (s + more) false ∷ [])) (omega arith) new.0))
