-- ===== src/LowMem/Dealloc.antt =====
-- The pages that `deallocLowPhysPages` frees.
use mirai_os.Prelude.{
  ℕ, zero, suc, ◌+◌, ◌*◌, ◌/◌, ◌%◌, ◌^◌, ◌≤◌, ◌<◌, ◌==◌, ltb, leb, ◌≡◌, true, false, ◌&&◌, some,
  arith, ap, ◌∙◌, Bool-cases, inl, inr,
}
use mirai_os.LowMem.{Bitmap, freed, dealloc_loop, dealloc_low_phys_pages}

dealloc_loop-few :
    (fuel page i n : ℕ) (map0 map : Bitmap) (start : ℕ)
    → n < 16
    → i ≤ n
    → n < fuel + i
    → start + i ≡ page
    → ((p : ℕ) → map p ≡ freed start i map0 p)
    → (map' : Bitmap) × (dealloc_loop fuel page i n map ≡ some map')
      × ((p : ℕ) → map' p ≡ freed start n map0 p)
unfolding dealloc_loop
dealloc_loop-few zero page i n map0 map start few le lt at h = absurd (omega arith)
dealloc_loop-few (suc fuel) page i n map0 map start few le lt at h =
    let whole : ((page % 16 == 0) && leb 16 n) ≡ false = ground arith in
    let next : (i + 1) % 2 ^ 16 ≡ i + 1 = omega arith in
    elim (Bool-cases (ltb i n)) [
      | inl e ↦
          rw (whole, e, next)
            (dealloc_loop-few fuel (page + 1) (i + 1) n map0 (freed page 1 map) start few
              (ground arith) (omega arith) (omega arith) (λ p. let old = h p in ground arith))
      | inr e ↦
          let same : i ≡ n = ground arith in
          (map, rw (whole, e), λ p. h p ∙ ap (λ k. freed start k map0 p) same)
    ]

-- For fewer than 16 pages, and more fuel than pages, `deallocLowPhysPages` ends, and has freed just
-- the `n` pages from the start page on.
pub dealloc_low_phys_pages-few :
    (fuel start n : ℕ) (map : Bitmap)
    → n < 16
    → n < fuel
    → (map' : Bitmap) × (dealloc_low_phys_pages fuel (start * 4096) n map ≡ some map')
      × ((p : ℕ) → map' p ≡ freed start n map p)
unfolding dealloc_low_phys_pages
dealloc_low_phys_pages-few fuel start n map few lt =
    let at : start * 4096 / 4096 ≡ start = omega arith in
    rw at (
      dealloc_loop-few fuel start 0 n map map start few (omega arith) (omega arith) (omega arith)
        (λ p. ground arith))

dealloc_loop-whole :
    (fuel page i j n : ℕ) (map : Bitmap)
    → page % 16 ≡ 0
    → 16 ≤ n
    → i < n
    → (i + 16) % 2 ^ 16 ≡ j
    → dealloc_loop (suc fuel) page i n map ≡ dealloc_loop fuel (page + 16) j n (freed page 16 map)
unfolding dealloc_loop
dealloc_loop-whole fuel page i j n map first more lt next =
    let whole : ((page % 16 == 0) && leb 16 n) ≡ true = ground arith in
    let test : ltb i n ≡ true = ground arith in rw (whole, test, next)

dealloc_loop-stop :
    (fuel page i n : ℕ) (map : Bitmap) → n ≤ i → dealloc_loop (suc fuel) page i n map ≡ some map
unfolding dealloc_loop
dealloc_loop-stop fuel page i n map le = let test : ltb i n ≡ false = ground arith in rw test

-- Of 17 to 31 pages from the first of a segment on, `deallocLowPhysPages` frees 32 (three rounds
-- of the loop are enough), also those that were not asked for.
pub dealloc_low_phys_pages-overrun :
    (fuel seg n : ℕ) (map : Bitmap) (p : ℕ)
    → 16 < n
    → n < 32
    → 16 * seg ≤ p
    → p < 16 * seg + 32
    → (map' : Bitmap) × (dealloc_low_phys_pages (suc (suc (suc fuel))) (16 * seg * 4096) n map
        ≡ some map')
      × (map' p ≡ true)
unfolding dealloc_low_phys_pages
dealloc_low_phys_pages-overrun fuel seg n map p more few le lt =
    let at : 16 * seg * 4096 / 4096 ≡ 16 * seg = omega arith in
    let map1 = freed (16 * seg) 16 map in
    let map2 = freed (16 * seg + 16) 16 map1 in
    (
      map2,
      ap (λ q. dealloc_loop (suc (suc (suc fuel))) q 0 n map) at
          ∙ dealloc_loop-whole (suc (suc fuel)) (16 * seg) 0 16 n map (omega arith) (omega arith)
              (omega arith) (omega arith)
          ∙ dealloc_loop-whole (suc fuel) (16 * seg + 16) 16 32 n map1 (omega arith) (omega arith)
              (omega arith) (omega arith)
          ∙ dealloc_loop-stop fuel (16 * seg + 16 + 16) 32 n map2 (omega arith),
      ground arith,
    )
