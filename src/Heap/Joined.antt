-- ===== src/Heap/Joined.antt =====
-- No two neighbours of a heap are free: what `heapAlloc` and `heapFree` do together.
use mathlib.Core.Path.{subst}
use mirai_os.Prelude.{
  ℕ, ◌+◌, ◌-◌, ◌*◌, ◌%◌, ◌^◌, ◌≤◌, ◌<◌, ltb, ◌≡◌, ◌≢◌, refl, Bool, true, false, if◌then◌else◌,
  Option, none, some, List, [], ◌∷◌, ◌++◌, length, arith, ap, sym, ◌∙◌, Bool-cases, inl, inr,
}
use mirai_os.Heap.{Ptr, Mem, heap_alloc, heap_free, heap_end}
use mirai_os.Heap.Areas.{Area, area, IsAreas, sizes, Changed}
use mirai_os.Heap.Find.{Fit, first_fit, first_fit-Divides, Divides}
use mirai_os.Heap.Take.{parts}
use mirai_os.Heap.Alloc.{allocated, Allocated, heap_alloc-Allocated}
use mirai_os.Heap.Higher.{higher}
use mirai_os.Heap.Lower.{lower, lower-nil, lower-one, lower-more}
use mirai_os.Heap.Free.{freed, heap_free-freed}

-- A free area has no free area behind it.
abbrev pub Follows : Bool → List Area → Type 0
Follows u [] = Unit
Follows u (x ∷ xs) = u ≡ false → x.used ≡ true

abbrev pub IsJoined : List Area → Type 0
IsJoined [] = Unit
IsJoined (x ∷ xs) = Follows x.used xs × IsJoined xs

higher_joined : (s : ℕ) (ys : List Area) → Follows false ys → higher s ys ≡ (area s false, ys)
higher_joined s [] h = refl
higher_joined s (y ∷ ys) h =
    ap (λ u. if u then (area s false, y ∷ ys) else (area (s + y.size) false, ys)) (h refl)

lower_joined :
    (s : ℕ) (xs ys : List Area)
    → IsJoined (xs ++ area s false ∷ ys)
    → lower xs s ≡ xs ++ area s false ∷ []
lower_joined s [] ys h = lower-nil s
lower_joined s (x ∷ []) ys h =
    let used : x.used ≡ true = elim (Bool-cases x.used) [
      | inl e ↦ e
      | inr e ↦ absurd (ground (arith, h.0 e))
    ] in
    lower-one s x ∙ ap (λ u. if u then x ∷ area s false ∷ [] else area (x.size + s) false ∷ []) used
lower_joined s (x ∷ y ∷ xs) ys h =
    lower-more s x y xs ∙ ap (λ l. x ∷ l) (lower_joined s (y ∷ xs) ys h.1)

IsJoined-behind :
    (xs : List Area) (x : Area) (ys : List Area)
    → IsJoined (xs ++ x ∷ ys)
    → Follows x.used ys × IsJoined ys
IsJoined-behind [] x ys h = h
IsJoined-behind (z ∷ xs) x ys h = IsJoined-behind xs x ys h.1

higher-parts :
    (s t : ℕ) (xs : List Area)
    → t ≤ s
    → Follows false xs
    → (n : ℕ) × (ys : List Area) × (parts s t ++ xs ≡ area n true ∷ ys)
      × (higher n ys ≡ (area s false, xs))
higher-parts s t xs le h = elim (Bool-cases (ltb 16 (s - t))) [
  | inl e ↦ (
    t,
    area (s - t) false ∷ xs,
    ap (λ u. (if u then area t true ∷ area (s - t) false ∷ [] else area s true ∷ []) ++ xs) e,
    ap (λ n. (area n false, xs)) (omega arith),
  )
  | inr e ↦ (
    s,
    xs,
    ap (λ u. (if u then area t true ∷ area (s - t) false ∷ [] else area s true ∷ []) ++ xs) e,
    higher_joined s xs h,
  )
]

append_one : (xs : List Area) (x : Area) (ys : List Area) → (xs ++ x ∷ []) ++ ys ≡ xs ++ x ∷ ys
append_one [] x ys = refl
append_one (z ∷ xs) x ys = ap (λ l. z ∷ l) (append_one xs x ys)

-- The area that was taken is given back.
free_taken :
    (t heap heap_size : ℕ) (f : Fit) (mem : Mem)
    → let stop = heap + heap_size - 8 in
      IsAreas mem heap stop (allocated t f)
      → t ≤ f.size
      → IsJoined (f.before ++ area f.size false ∷ f.behind)
      → 8 ≤ heap
      → 8 ≤ heap_size
      → mem (heap - 8) ≡ 0
      → mem stop ≡ 0
      → heap + 8 * heap_size < 2 ^ 64
      → Changed heap stop
          (f.before ++ area f.size false ∷ f.behind)
          mem
          (heap_free (heap + sizes f.before + 8) heap heap_size mem)
free_taken t heap heap_size f mem h le joined above_zero some_size null end small =
    let stop = heap + heap_size - 8 in
    let behind = IsJoined-behind f.before (area f.size false) f.behind joined in
    let p = higher-parts f.size t f.behind le behind.0 in
    let h' = subst (λ l. IsAreas mem heap stop (f.before ++ l)) p.2 h in
    let e : freed f.before p.0 p.1 ≡ f.before ++ area f.size false ∷ f.behind =
      ap (λ r. lower f.before r.0.size ++ r.1) p.3
      ∙ ap (λ l. l ++ f.behind) (lower_joined f.size f.before f.behind joined)
      ∙ append_one f.before (area f.size false) f.behind in
    subst (λ l. Changed heap stop l mem (heap_free (heap + sizes f.before + 8) heap heap_size mem))
      e (heap_free-freed heap heap_size p.0 f.before p.1 mem h' above_zero some_size null end small)

-- `heapFree` on what `heapAlloc` has returned.
free_allocated :
    (t heap heap_size : ℕ) (mem : Mem) (xs : List Area) (o : Option Fit) (r : Ptr × Mem)
    → let stop = heap + heap_size - 8 in
      Divides t xs o
      → Allocated t heap stop xs mem o r
      → r.0 ≢ 0
      → IsJoined xs
      → 8 ≤ heap
      → 8 ≤ heap_size
      → mem (heap - 8) ≡ 0
      → mem stop ≡ 0
      → heap + 8 * heap_size < 2 ^ 64
      → Changed heap stop xs mem (heap_free r.0 heap heap_size r.1)
free_allocated t heap heap_size mem xs none r d a found joined above_zero some_size null end small =
    absurd (found a.0)
free_allocated t heap heap_size mem xs (some f) r d a found joined above_zero some_size null end
      small =
    let stop = heap + heap_size - 8 in
    let done =
      free_taken t heap heap_size f r.1 a.1 d.1 (subst IsJoined d.0 joined) above_zero some_size
        (a.2 (heap - 8) (inl (omega arith)) ∙ null) (a.2 stop (inr (omega arith)) ∙ end) small in
    let whole : Changed heap stop (f.before ++ area f.size false ∷ f.behind) mem
        (heap_free (heap + sizes f.before + 8) heap heap_size r.1) =
      (done.0, λ x out. done.1 x out ∙ a.2 x out) in
    subst (λ p. Changed heap stop xs mem (heap_free p heap heap_size r.1)) (sym a.0)
      (subst
        (λ l. Changed heap stop l mem (heap_free (heap + sizes f.before + 8) heap heap_size r.1))
        (sym d.0) whole)

-- On a heap of areas `xs`, of which no two neighbours are free, with a word 0 before and behind it,
-- if `heapAlloc` of a multiple of 16 returns an address that is not NULL, then `heapFree` of that
-- address gives a heap whose areas are `xs` again, with the memory outside as it was.
pub heap_free-heap_alloc :
    (fuel size heap heap_size : ℕ) (mem : Mem) (xs : List Area) (r : Ptr × Mem)
    → let stop = heap + heap_size - 8 in
      length xs < fuel
      → size % 16 ≡ 0
      → IsAreas mem heap stop xs
      → IsJoined xs
      → 8 ≤ heap
      → 8 ≤ heap_size
      → mem (heap - 8) ≡ 0
      → mem stop ≡ 0
      → heap + 8 * heap_size < 2 ^ 64
      → heap_alloc fuel size heap heap_size mem ≡ some r
      → r.0 ≢ 0
      → Changed heap stop xs mem (heap_free r.0 heap heap_size r.1)
heap_free-heap_alloc fuel size heap heap_size mem xs r lt whole h joined above_zero some_size null
      end small e found =
    let stop : heap + heap_size - 8 ≡ heap_end heap heap_size = omega arith in
    let got =
      heap_alloc-Allocated fuel size heap heap_size mem xs lt whole (omega arith)
        (subst (λ q. IsAreas mem heap q xs) stop h) in
    let same : got.0 ≡ r = ap (λ o. elim o [ none ↦ r | some q ↦ q ]) (sym got.1 ∙ e) in
    free_allocated (size + 16) heap heap_size mem xs (first_fit (size + 16) xs) r
      (first_fit-Divides (size + 16) xs)
      (subst (λ q. Allocated (size + 16) heap q xs mem (first_fit (size + 16) xs) r) (sym stop)
        (subst
          (Allocated (size + 16) heap (heap_end heap heap_size) xs mem (first_fit (size + 16) xs))
          same got.2))
      found joined above_zero some_size null end small
