-- ===== src/Mmap/Lookup.antt =====
-- `findLowerHigher` and `mmapGetEntry` on a memory map.
use mirai_os.Prelude.{
  ℕ, zero, suc, ◌+◌, ◌≤◌, ◌<◌, ◌≡◌, ◌⊎◌, ap, ◌∙◌, inl, inr, Bool-cases, ◌==◌, ltb, leb, ◌&&◌, some,
  List, [], ◌∷◌, ◌++◌, arith, ◌∈◌, length,
}
use mirai_os.Thread.{Ptr, null}
use mirai_os.ThreadQueue.Links.{head_or, last_or}
use mirai_os.Mmap.{MemoryEntry, Store, find_from, find_lower_higher, get_from, mmap_get_entry}
use mirai_os.Mmap.Lists.{Chain, IsMap, IsSorted}

-- `addr` is in the entry.
abbrev pub Covers : MemoryEntry → (addr : ℕ) → Type 0
Covers e addr = (e.vaddr ≤ addr) × (addr < e.vaddr + e.size)

find_from-split :
    (fuel : ℕ) (lower start : ℕ) (st : Store) (xs ys : List Ptr)
    → Chain st.entries lower null (xs ++ ys)
    → ((p : Ptr) → p ∈ xs → (st.entries p).vaddr ≤ start)
    → ((p : Ptr) → p ∈ ys → start < (st.entries p).vaddr)
    → length xs < fuel
    → find_from fuel (head_or null (xs ++ ys)) lower start st
      ≡ some (last_or lower xs, head_or null ys)
unfolding find_from
find_from-split zero lower start st xs ys l below above enough = absurd (omega arith)
find_from-split (suc fuel) lower start st [] [] l below above enough = ground arith
find_from-split (suc fuel) lower start st [] (y ∷ ys) l below above enough =
    ground (arith, above y, l.0)
find_from-split (suc fuel) lower start st (x ∷ xs) ys l below above enough =
    let rest =
      find_from-split fuel x start st xs ys l.4 (λ p h. below p (ground arith)) above
        (omega arith) in
    ground (arith, rest, l.0, l.2, below x)

-- In a map of the entries `xs`, which begin at or below `start`, and then `ys`, which begin above it,
-- `findLowerHigher` finds the last of `xs` and the first of `ys`, or NULL for none.
pub find_lower_higher-split :
    (fuel start : ℕ) (st : Store) (xs ys : List Ptr)
    → IsMap st (xs ++ ys)
    → ((p : Ptr) → p ∈ xs → (st.entries p).vaddr ≤ start)
    → ((p : Ptr) → p ∈ ys → start < (st.entries p).vaddr)
    → length xs < fuel
    → find_lower_higher fuel start st ≡ some (last_or null xs, head_or null ys)
unfolding find_lower_higher
find_lower_higher-split fuel start st xs ys is below above enough =
    ap (λ c. find_from fuel c null start st) is.first
    ∙ find_from-split fuel null start st xs ys is.links below above enough

get_from-miss :
    (fuel prev addr : ℕ) (st : Store) (xs : List Ptr)
    → Chain st.entries prev null xs
    → IsSorted st.entries xs
    → ((p : Ptr) → p ∈ xs → ¬ Covers (st.entries p) addr)
    → length xs < fuel
    → get_from fuel (head_or null xs) addr st ≡ some null
unfolding get_from
get_from-miss zero prev addr st xs l s miss enough = absurd (omega arith)
get_from-miss (suc fuel) prev addr st [] l s miss enough = ground arith
get_from-miss (suc fuel) prev addr st (x ∷ xs) l s miss enough =
    let rest =
      get_from-miss fuel x addr st xs l.4 s.2 (λ p h. miss p (ground arith)) (omega arith) in
    let out : ¬ Covers (st.entries x) addr = miss x (ground arith) in
    ground (arith, rest, l.0, l.2, s.0, out)

get_from-hit :
    (fuel prev addr p : ℕ) (st : Store) (xs : List Ptr)
    → Chain st.entries prev null xs
    → IsSorted st.entries xs
    → p ∈ xs
    → Covers (st.entries p) addr
    → length xs < fuel
    → get_from fuel (head_or null xs) addr st ≡ some p
unfolding get_from
get_from-hit zero prev addr p st xs l s m c enough = absurd (omega arith)
get_from-hit (suc fuel) prev addr p st [] l s m c enough = absurd (ground arith)
get_from-hit (suc fuel) prev addr p st (x ∷ xs) l s m c enough = elim (Bool-cases (p == x)) [
  | inl e ↦ ground (arith, l.0, s.0, c.0, c.1)
  | inr ne ↦
      (let m' : p ∈ xs = ground arith in
        let rest = get_from-hit fuel x addr p st xs l.4 s.2 m' c (omega arith) in
        let out = s.1 p m' in ground (arith, rest, l.0, l.2, out, s.0, c.0))
]

-- In a map whose entries do not overlap, `mmapGetEntry` finds the entry that `addr` is in, and NULL
-- where it is in none.
pub mmap_get_entry-Covers :
    (fuel addr : ℕ) (st : Store) (xs : List Ptr)
    → IsMap st xs
    → IsSorted st.entries xs
    → length xs < fuel
    → ((p : Ptr) → p ∈ xs → Covers (st.entries p) addr → mmap_get_entry fuel addr st ≡ some p)
      × (((p : Ptr) → p ∈ xs → ¬ Covers (st.entries p) addr)
          → mmap_get_entry fuel addr st ≡ some null)
unfolding mmap_get_entry
mmap_get_entry-Covers fuel addr st xs is s enough = (
  (λ p m c.
      ap (λ a. get_from fuel a addr st) is.first
      ∙ get_from-hit fuel null addr p st xs is.links s m c enough),
  (λ miss.
      ap (λ a. get_from fuel a addr st) is.first
      ∙ get_from-miss fuel null addr st xs is.links s miss enough),
)

pub Covers-cases : (e : MemoryEntry) (addr : ℕ) → Covers e addr ⊎ (¬ Covers e addr)
Covers-cases e addr = elim (Bool-cases (leb e.vaddr addr && ltb addr (e.vaddr + e.size))) [
  | inl h ↦ inl (ground arith, ground arith)
  | inr h ↦ inr (λ c. absurd (ground (arith, c.0, c.1)))
]

-- Some entry has `addr`, or none.
pub covered_or_not :
    (es : Ptr → MemoryEntry) (xs : List Ptr) (addr : ℕ)
    → ((p : Ptr) × (p ∈ xs) × Covers (es p) addr) ⊎ ((p : Ptr) → p ∈ xs → ¬ Covers (es p) addr)
covered_or_not es [] addr = inr (λ p m. absurd (ground arith))
covered_or_not es (x ∷ xs) addr = elim (Covers-cases (es x) addr) [
  | inl c ↦ inl (x, ground arith, c)
  | inr n ↦ elim (covered_or_not es xs addr) [
    | inl h ↦ inl (h.0, ground (arith, h.1), h.2)
    | inr k ↦ inr (λ p m. elim (Bool-cases (p == x)) [
      | inl e ↦ (let same : p ≡ x = ground arith in rw same n)
      | inr ne ↦ k p (ground arith)
    ])
  ]
]
