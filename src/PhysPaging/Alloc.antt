-- ===== src/PhysPaging/Alloc.antt =====
-- `allocPhysPage` and `deallocPhysPage`.
use mirai_os.Prelude.{
  ℕ, ◌-◌, pos, negsuc, ◌≡◌, ◌≢◌, refl, List, [], ◌∷◌, arith, ◌∉◌, ◌⊎◌, sym, ◌∙◌, ap, length,
}
use mathlib.Core.Path.{subst}
use mirai_os.PhysPaging.{
  PhysMem, PageStackInfo, PhysPaging, page_stack_length, or_one, pop_page, push_page, push_sp,
  push_entry, push_space, split_large_page, alloc_phys_page, dealloc_phys_page,
}
use mirai_os.PhysPaging.Chain.{IsFrame, Holds, empty, bare, entries, Chain-le_length}
use mirai_os.PhysPaging.Push.{push_page-Holds}
use mirai_os.PhysPaging.Pop.{Popped, nothing, taken, pop_page-Popped}

-- A page other than 0 that comes off the stack of small pages is what `allocPhysPage` returns.
alloc_phys_page-small :
    (st : PhysPaging)
    → (pop_page st.mem st.small_pages).0 ≢ 0
    → let (page, small) = pop_page st.mem st.small_pages in
      alloc_phys_page st ≡ (page, record st { small_pages = small })
unfolding alloc_phys_page
alloc_phys_page-small st h = ground arith

-- `page` as it is handed out: as it is, or with bit 0 set.
abbrev pub IsPage : ℕ → ℕ → Type 0
IsPage q page = (q ≡ page) ⊎ (q ≡ or_one page)

-- What `allocPhysPage` does where small pages are free.
pub record TookSmall (st : PhysPaging) (page : ℕ) (xs : List ℕ) (r : ℕ × PhysPaging) : Type 0 where
  pub found : IsPage r.0 page
  pub rest : Holds r.1.mem r.1.small_pages xs
  pub others : r.1 ≡ record st { small_pages = r.1.small_pages }

IsPage-ne_zero : (q page : ℕ) → page ≢ 0 → IsPage q page → q ≢ 0
IsPage-ne_zero q page ne is = ground arith

took :
    {st : PhysPaging} {page : ℕ} {rest xs : List ℕ}
    → xs ≡ page ∷ rest
    → page ≢ 0
    → Popped st.mem xs (pop_page st.mem st.small_pages)
    → TookSmall st page rest (alloc_phys_page st)
took e ne (nothing e' z h) = cc
took {st} {page} {rest} e ne (taken {p} {ys} e' is h) =
    let cell : p ∷ ys ≡ page ∷ rest = sym e' ∙ e in
    let same : p ≡ page = cc in
    let tail : ys ≡ rest = cc in
    let is' : IsPage (pop_page st.mem st.small_pages).0 page =
      subst (IsPage (pop_page st.mem st.small_pages).0) same is in
    rw (alloc_phys_page-small st (IsPage-ne_zero _ page ne is')) (record {
      found = is';
      rest = subst (Holds st.mem (pop_page st.mem st.small_pages).1) tail h;
      others = refl;
    })

-- Where the stack of small pages holds `page`, which is not 0, on top of `rest`, and its top stack
-- page is not full, `allocPhysPage` returns `page` (possibly with bit 0 set), leaves `rest` on that
-- stack, and touches neither the other stacks nor memory.
pub alloc_phys_page-TookSmall :
    (st : PhysPaging) (page : ℕ) {rest : List ℕ}
    → Holds st.mem st.small_pages (page ∷ rest)
    → page ≢ 0
    → st.small_pages.sp ≢ pos (page_stack_length - 1)
    → TookSmall st page rest (alloc_phys_page st)
alloc_phys_page-TookSmall st page h ne room = took refl ne (pop_page-Popped h room)

-- An empty stack has `sp == -2`: a chain holds a page.
Holds-nil :
    {mem : PhysMem} {s : PageStackInfo} {xs : List ℕ} → Holds mem s xs → xs ≡ [] → s.sp ≡ negsuc 1
Holds-nil (empty e n) z = e
Holds-nil (bare e c) z = absurd (omega (arith, ap length z, Chain-le_length c))
Holds-nil (entries e lt c) z = absurd (omega (arith, ap length z, Chain-le_length c))

-- With all four stacks empty `allocPhysPage` returns 0 and changes nothing.
pub alloc_phys_page-exhausted :
    (st : PhysPaging)
    → Holds st.mem st.small_pages []
    → Holds st.mem st.small_clean_pages []
    → Holds st.mem st.large_pages []
    → Holds st.mem st.large_clean_pages []
    → alloc_phys_page st ≡ (0, st)
unfolding alloc_phys_page split_large_page pop_page
alloc_phys_page-exhausted st h1 h2 h3 h4 =
    ground (arith, Holds-nil h1 refl, Holds-nil h2 refl, Holds-nil h3 refl, Holds-nil h4 refl)

-- After a push that does not fill the top stack page, its stack pointer is not 510.
push_page-room :
    (mem : PhysMem) (s : PageStackInfo) (p : ℕ)
    → s.sp ≢ pos (page_stack_length - 2)
    → (push_page mem s p).1.sp ≢ pos (page_stack_length - 1)
unfolding push_page push_sp push_entry push_space
push_page-room mem s p h = ground arith

-- A page frame that `deallocPhysPage` gives back, on stacks that do not hold it and whose top
-- stack page has more than one free entry, is the next that `allocPhysPage` returns (possibly with
-- bit 0 set), and the small pages that were free before are free afterwards.
pub alloc-dealloc :
    (st : PhysPaging) (page : ℕ) {xs : List ℕ}
    → Holds st.mem st.small_pages xs
    → IsFrame page
    → page ∉ xs
    → st.small_pages.sp ≢ pos (page_stack_length - 2)
    → let r = alloc_phys_page (dealloc_phys_page st page) in
      IsPage r.0 page × Holds r.1.mem r.1.small_pages xs
unfolding dealloc_phys_page
alloc-dealloc st page h frame out room =
    let (mem', small') = push_page st.mem st.small_pages page in
    let st' = record st { mem = mem'; small_pages = small' } in
    let took =
      alloc_phys_page-TookSmall st' page (push_page-Holds page h frame out).0 frame.ne_zero
        (push_page-room st.mem st.small_pages page room) in
    (took.found, took.rest)
