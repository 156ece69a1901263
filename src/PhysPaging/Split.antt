-- ===== src/PhysPaging/Split.antt =====
-- `splitLargePage` turns one large page into its small pages.
use mirai_os.Prelude.{
  ℕ, zero, suc, ◌+◌, ◌*◌, ◌%◌, ◌^◌, ◌<◌, ◌≤◌, ℤ, pos, negsuc, ◌≡◌, ◌≢◌, refl, ◌==◌, List, [], ◌∷◌,
  arith, ◌∉◌, ◌⊎◌, inl, inr, All, ◌-◌, ltb, lt→ltb, Bool-cases, false,
}
use mirai_os.PhysPaging.{
  PhysMem, PageStackInfo, page_stack_length, page_size, largepage_size, push_page, push_rest,
  rest_rounds, split_large_page, pop_page, push_entry, push_space, push_sp,
}
use mirai_os.PhysPaging.Chain.{
  IsFrame, Chain, Holds, empty, entries, Chain-write_other, page_frame_of_frame,
}
use mirai_os.PhysPaging.Push.{push_page-Holds}

-- The pages `page`, `page + 4096`, ..., `n` of them, put on top of `xs` one after the other.
abbrev pub stacked : ℕ → ℕ → List ℕ → List ℕ
stacked zero page xs = xs
stacked (suc n) page xs = stacked n (page + page_size) (page ∷ xs)

not-mem_of_lt : (p : ℕ) (xs : List ℕ) → All (λ x. x < p) xs → p ∉ xs
not-mem_of_lt p [] h = refl
not-mem_of_lt p (x ∷ xs) h = ground (arith, not-mem_of_lt p xs h.1)

All-lt_mono : (p q : ℕ) (xs : List ℕ) → p ≤ q → All (λ x. x < p) xs → All (λ x. x < q) xs
All-lt_mono p q [] le h = tt
All-lt_mono p q (x ∷ xs) le h = (omega arith, All-lt_mono p q xs le h.1)

pub push_rest-Holds :
    (n page : ℕ) {mem : PhysMem} {s : PageStackInfo} {xs : List ℕ}
    → Holds mem s xs
    → page % 4096 ≡ 0
    → page ≢ 0
    → page + page_size * n ≤ 2 ^ 48
    → All (λ x. x < page) xs
    → let (mem', s') = push_rest n page mem s in Holds mem' s' (stacked n page xs)
unfolding push_rest
push_rest-Holds zero page h al ne fits old = h
push_rest-Holds (suc n) page {xs} h al ne fits old =
    let frame : IsFrame page = record { aligned = al; small = omega arith; ne_zero = ne } in
    push_rest-Holds n (page + page_size)
      (push_page-Holds page h frame (not-mem_of_lt page xs old)).0 (omega arith) (omega arith)
      (omega arith) (omega arith, All-lt_mono page (page + page_size) xs (omega arith) old)

-- A push on one stack leaves the chain of another one, if neither the page that is pushed nor the
-- stack page that is written belongs to it.
module _ (mem : PhysMem) {frame k : ℕ} {ys : List ℕ} (other : Chain mem frame k ys) where
  abbrev Spares : PhysMem × PageStackInfo → Type 0
  Spares r = Chain r.0 frame k ys × (r.1.mapped ∉ ys)

  push_entry-other :
      (i : ℕ) (s : PageStackInfo) (p : ℕ) → s.mapped ∉ ys → Spares (push_entry i mem s p)
  unfolding push_entry
  push_entry-other i s p apart = (Chain-write_other s.mapped _ other apart, apart)

  push_space-other :
      (old : ℕ) (s : PageStackInfo) (p : ℕ) → IsFrame p → p ∉ ys → Spares (push_space old mem s p)
  unfolding push_space
  push_space-other old s p f out =
      rw (page_frame_of_frame p f) (Chain-write_other p _ other out, out)

  push_sp-other :
      (z : ℤ) (s : PageStackInfo) (p : ℕ)
      → IsFrame p
      → p ∉ ys
      → (z ≡ negsuc 1) ⊎ (s.mapped ∉ ys)
      → Spares (push_sp z mem s p)
  unfolding push_sp
  push_sp-other (pos n) s p f out apart = elim (Bool-cases (ltb n 510)) [
    | inl room ↦ rw room (push_entry-other (n + 1) s p (ground arith))
    | inr full ↦ rw full (push_space-other s.mapped s p f out)
  ]
  push_sp-other (negsuc zero) s p f out apart = push_entry-other 0 s p (ground arith)
  push_sp-other (negsuc (suc zero)) s p f out apart = push_space-other 0 s p f out
  push_sp-other (negsuc (suc (suc n))) s p f out apart = push_space-other s.mapped s p f out

  push_page-other :
      (s : PageStackInfo) (p : ℕ)
      → IsFrame p
      → p ∉ ys
      → (s.sp ≡ negsuc 1) ⊎ (s.mapped ∉ ys)
      → Spares (push_page mem s p)
  unfolding push_page
  push_page-other s p f out apart = push_sp-other s.sp s p f out apart

-- The addresses of the pages that are pushed from `page` on do not belong to the other chain.
abbrev Apart : (n page : ℕ) → List ℕ → Type 0
Apart zero page ys = Unit
Apart (suc n) page ys = (page ∉ ys) × Apart n (page + page_size) ys

push_rest-other :
    (n page : ℕ) (mem : PhysMem) (s : PageStackInfo) {frame k : ℕ} {ys : List ℕ}
    → Chain mem frame k ys
    → page % 4096 ≡ 0
    → page ≢ 0
    → page + page_size * n ≤ 2 ^ 48
    → Apart n page ys
    → (s.sp ≡ negsuc 1) ⊎ (s.mapped ∉ ys)
    → Chain (push_rest n page mem s).0 frame k ys
unfolding push_rest
push_rest-other zero page mem s c al ne fits apart room = c
push_rest-other (suc n) page mem s c al ne fits apart room =
    let frame : IsFrame page = record { aligned = al; small = omega arith; ne_zero = ne } in
    let step = push_page-other mem c s page frame apart.0 room in
    push_rest-other n (page + page_size) (push_page mem s page).0 (push_page mem s page).1 step.0
      (omega arith) (omega arith) (omega arith) apart.1 (inr step.1)

-- Pages that lie outside a large page are apart from the small pages behind its first.
abbrev pub Outside : ℕ → List ℕ → Type 0
Outside page ys = All (λ y. (y < page) ⊎ (page + largepage_size ≤ y)) ys

Outside-not_mem :
    (page q : ℕ) (ys : List ℕ) → page ≤ q → q < page + largepage_size → Outside page ys → q ∉ ys
Outside-not_mem page q [] lo hi out = refl
Outside-not_mem page q (y ∷ ys) lo hi out = ground (arith, Outside-not_mem page q ys lo hi out.1)

Outside-Apart :
    (n page q : ℕ) (ys : List ℕ)
    → page ≤ q
    → q + page_size * n ≤ page + largepage_size
    → Outside page ys
    → Apart n q ys
Outside-Apart zero page q ys lo hi out = tt
Outside-Apart (suc n) page q ys lo hi out = (
  Outside-not_mem page q ys lo (omega arith) out,
  Outside-Apart n page (q + page_size) ys (omega arith) (omega arith) out,
)

-- `splitLargePage` on a stack of large pages whose top is an entry `page` in a stack page that is
-- not full, and an empty stack of small pages: it returns `page`, leaves the other large pages
-- `ys`, which lie outside `page`, on their stack, and leaves on the other stack the 511 small
-- pages of `page` behind its first, the last one on top.
pub split_large_page-Holds :
    {mem : PhysMem} (large small : PageStackInfo) (page k : ℕ) {ys : List ℕ}
    → large.sp ≡ pos (suc k)
    → suc k < page_stack_length - 1
    → (mem large.mapped).pages (suc k) ≡ page
    → Chain mem large.mapped (suc k) ys
    → small.sp ≡ negsuc 1
    → page % largepage_size ≡ 0
    → page ≢ 0
    → page + largepage_size ≤ 2 ^ 48
    → Outside page ys
    → let (p, mem', large', small') = split_large_page mem large small in
      (p ≡ page)
      × Holds mem' large' ys
      × Holds mem' small' (stacked rest_rounds (page + page_size) [])
unfolding split_large_page pop_page
split_large_page-Holds {mem} large small page k {ys} top lt found rest none al ne fits out =
    let some_page : (page == 0) ≡ false = ground arith in
    let apart =
      Outside-Apart rest_rounds page (page + page_size) ys (omega arith) (omega arith) out in
    rw (top, lt→ltb (suc k) 510 lt, found, some_page)
      (
        refl,
        entries refl (omega arith) (
            push_rest-other rest_rounds (page + page_size) mem small rest (omega arith)
              (omega arith) (omega arith) apart (inl none)),
        push_rest-Holds rest_rounds (page + page_size) (empty none refl) (omega arith) (omega arith)
            (omega arith) tt,
      )
