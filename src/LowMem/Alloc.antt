-- ===== src/LowMem/Alloc.antt =====
-- The pages that `allocLowPhysPages` gives.
use mathlib.Core.Path.{subst}
use mirai_os.Prelude.{
  ℕ, zero, suc, ◌+◌, ◌-◌, ◌*◌, ◌%◌, ◌≤◌, ◌<◌, ◌==◌, ltb, ◌≡◌, refl, true, false, Option, none, some,
  arith, Bool-cases, inl, inr,
}
use mirai_os.LowMem.{
  Bitmap, all_free, taken, find_in_seg, find_pages, take_pages, alloc_low_phys_pages,
}

all_free-get :
    (n page : ℕ) (map : Bitmap)
    → all_free n page map ≡ true
    → (p : ℕ) → page ≤ p
    → p < page + n
    → map p ≡ true
unfolding all_free
all_free-get zero page map h p le lt = absurd (omega arith)
all_free-get (suc n) page map h p le lt = elim (Bool-cases (p == page)) [
  | inl e ↦ let same : p ≡ page = ground arith in rw same (ground arith)
  | inr e ↦ all_free-get n (page + 1) map (ground arith) p (ground arith) (omega arith)
]

-- Where a search ends with `page`, the `n` pages from there on are free, in one segment, and below
-- the limit.
abbrev IsRun : (limit n : ℕ) → Bitmap → Option ℕ → Type 0
IsRun limit n map none = Unit
IsRun limit n map (some page) =
    (all_free n page map ≡ true) × (page % 16 + n ≤ 16) × (page + n ≤ limit)

find_in_seg-IsRun :
    (k seg i n limit : ℕ) (map : Bitmap)
    → n ≤ 16
    → i + k ≤ 16 - n + 1
    → 16 * seg + 16 ≤ limit
    → IsRun limit n map (find_in_seg k (16 * seg + i) n map)
unfolding find_in_seg
find_in_seg-IsRun zero seg i n limit map small room below = tt
find_in_seg-IsRun (suc k) seg i n limit map small room below =
    elim (Bool-cases (all_free n (16 * seg + i) map)) [
      | inl e ↦ rw e (e, omega arith, omega arith)
      | inr e ↦ rw e (
          subst (λ p. IsRun limit n map (find_in_seg k p n map)) (omega arith)
            (find_in_seg-IsRun k seg (i + 1) n limit map small (omega arith) below))
    ]

-- Where a search of `k` places from `page` on finds nothing, none of them has `n` free pages.
abbrev IsFull : (k page n : ℕ) → Bitmap → Option ℕ → Type 0
IsFull k page n map none = (p : ℕ) → page ≤ p → p < page + k → all_free n p map ≡ false
IsFull k page n map (some q) = Unit

IsFull-suc :
    (k page n : ℕ) (map : Bitmap) (o : Option ℕ)
    → all_free n page map ≡ false
    → IsFull k (page + 1) n map o
    → IsFull (suc k) page n map o
IsFull-suc k page n map none used h = λ p le lt. elim (Bool-cases (p == page)) [
  | inl e ↦ let same : p ≡ page = ground arith in rw same used
  | inr e ↦ h p (ground arith) (omega arith)
]
IsFull-suc k page n map (some q) used h = tt

find_in_seg-IsFull : (k page n : ℕ) (map : Bitmap) → IsFull k page n map (find_in_seg k page n map)
unfolding find_in_seg
find_in_seg-IsFull zero page n map = λ p le lt. absurd (omega arith)
find_in_seg-IsFull (suc k) page n map = elim (Bool-cases (all_free n page map)) [
  | inl e ↦ rw e tt
  | inr e ↦ rw e (
      IsFull-suc k page n map (find_in_seg k (page + 1) n map) e
        (find_in_seg-IsFull k (page + 1) n map))
]

-- What the search from segment `seg` on through `k` segments finds: a run of `n` free pages in
-- one segment, or nothing, where no segment has one.
abbrev pub IsSearch : (seg k limit n : ℕ) → Bitmap → Option ℕ → Type 0
IsSearch seg k limit n map none =
    (s j : ℕ) → seg ≤ s → s < seg + k → j + n ≤ 16 → all_free n (16 * s + j) map ≡ false
IsSearch seg k limit n map (some page) =
    (all_free n page map ≡ true) × (page % 16 + n ≤ 16) × (page + n ≤ limit)

IsSearch-next :
    (seg k limit n : ℕ) (map : Bitmap) (o rest : Option ℕ)
    → n ≤ 16
    → IsRun limit n map o
    → IsFull (16 - n + 1) (16 * seg) n map o
    → IsSearch (seg + 1) k limit n map rest
    → IsSearch seg (suc k) limit n map (elim o [ none ↦ rest | some page ↦ some page ])
IsSearch-next seg k limit n map (some page) rest small run full h = run
IsSearch-next seg k limit n map none (some page) small run full h = h
IsSearch-next seg k limit n map none none small run full h = λ s j le lt fits.
    elim (Bool-cases (s == seg)) [
      | inl e ↦
          let same : s ≡ seg = ground arith in
          rw same (full (16 * seg + j) (omega arith) (omega arith))
      | inr e ↦ h s j (ground arith) (omega arith) fits
    ]

find_pages-IsSearch :
    (k seg n limit : ℕ) (map : Bitmap)
    → n ≤ 16
    → 16 * (seg + k) ≤ limit
    → IsSearch seg k limit n map (find_pages k seg n map)
unfolding find_pages
find_pages-IsSearch zero seg n limit map small below = λ s j le lt fits. absurd (omega arith)
find_pages-IsSearch (suc k) seg n limit map small below =
    let at : 16 * seg ≡ seg * 16 = omega arith in
    IsSearch-next seg k limit n map (find_in_seg (16 - n + 1) (seg * 16) n map)
      (find_pages k (seg + 1) n map) small
      (subst (λ p. IsRun limit n map (find_in_seg (16 - n + 1) p n map)) (omega arith)
        (find_in_seg-IsRun (16 - n + 1) seg 0 n limit map small (omega arith) (omega arith)))
      (rw at (find_in_seg-IsFull (16 - n + 1) (seg * 16) n map))
      (find_pages-IsSearch k (seg + 1) n limit map small (omega arith))

-- The pages that `allocLowPhysPages` returns.
pub data Allocated (segs n : ℕ) (map : Bitmap) (r : ℕ × Bitmap) : Type 0 where
  found :
      (page : ℕ)
      → r.0 ≡ page * 4096
      → ((p : ℕ) → page ≤ p → p < page + n → map p ≡ true)
      → page % 16 + n ≤ 16
      → page + n ≤ 16 * segs
      → ((p : ℕ) → r.1 p ≡ taken page n map p)
      → Allocated segs n map r
  exhausted :
      r ≡ (0, map)
      → ((s j : ℕ) → s < segs → j + n ≤ 16 → all_free n (16 * s + j) map ≡ false)
      → Allocated segs n map r

take_pages-Allocated :
    (segs n : ℕ) (map : Bitmap) (o : Option ℕ)
    → IsSearch 0 segs (16 * segs) n map o
    → Allocated segs n map (take_pages n o map)
unfolding take_pages
take_pages-Allocated segs n map none h =
    Allocated.exhausted refl (λ s j lt fits. h s j (omega arith) (omega arith) fits)
take_pages-Allocated segs n map (some page) h =
    Allocated.found page refl (all_free-get n page map h.0) h.1 h.2 (λ p. refl)

-- For at most 16 pages, `allocLowPhysPages` returns the address of pages that were all free, stand
-- in one segment of the bitmap, and are then the only ones that are no longer free; or it returns
-- 0 and changes nothing, and then no segment has that many free pages in a row.
pub alloc_low_phys_pages-Allocated :
    (segs n : ℕ) (map : Bitmap) → n ≤ 16 → Allocated segs n map (alloc_low_phys_pages segs n map)
unfolding alloc_low_phys_pages
alloc_low_phys_pages-Allocated segs n map small =
    let test : ltb 16 n ≡ false = ground arith in
    rw test (
      take_pages-Allocated segs n map (find_pages segs 0 n map)
        (find_pages-IsSearch segs 0 n (16 * segs) map small (omega arith)))
