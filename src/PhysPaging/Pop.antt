-- ===== src/PhysPaging/Pop.antt =====
-- `popPage` takes the page on top, unless the top stack page is full.
use mirai_os.Prelude.{
  ℕ, zero, suc, ◌-◌, ◌<◌, ℤ, pos, ◌≡◌, ◌≢◌, refl, ◌==◌, List, [], ◌∷◌, arith, ◌≤◌, ◌⊎◌, inl, inr,
  ltb, false, true, ap, ◌∙◌, length, lt→ltb,
}
use mirai_os.PhysPaging.{
  PhysMem, PageStackInfo, page_stack_length, or_one, decr64, decr_sp, pop_space, pop_page,
}
use mirai_os.PhysPaging.Chain.{
  IsFrame, Chain, last, below, entry, Holds, empty, bare, entries, Chain-IsFrame, Chain-le_length,
  page_frame_of_frame, Chain-count,
}

-- What a pop gives: 0 from an empty stack, else the page on top, with bit 0 set where the page was
-- stack space.
pub data Popped (mem : PhysMem) (xs : List ℕ) (r : ℕ × PageStackInfo) : Type 0 where
  nothing : xs ≡ [] → r.0 ≡ 0 → Holds mem r.1 [] → Popped mem xs r
  taken :
      {p : ℕ} {ys : List ℕ}
      → xs ≡ p ∷ ys
      → (r.0 ≡ p) ⊎ (r.0 ≡ or_one p)
      → Holds mem r.1 ys
      → Popped mem xs r

pop_space-Popped :
    (mem : PhysMem) (s : PageStackInfo) {frame k : ℕ} {xs : List ℕ}
    → s.mapped ≡ frame
    → k ≡ 0
    → Chain mem frame k xs
    → Popped mem xs (pop_space mem s)
unfolding pop_space
pop_space-Popped mem s h z (last z' f e) =
    let top : (mem s.mapped).prev_stack ≡ 0 = cc (e, ap mem h) in
    rw top (taken refl (inr (ap or_one h)) (empty refl refl))
pop_space-Popped mem s h z (below {prev} z' f e o c) =
    let top : (mem s.mapped).prev_stack ≡ prev = cc (e, ap mem h) in
    let full : IsFrame prev = Chain-IsFrame c in
    let more : (prev == 0) ≡ false = ground arith in
    rw (top, more, page_frame_of_frame prev full)
      (taken refl (inr (ap or_one h)) (entries refl (omega arith) (Chain-count refl c)))
pop_space-Popped mem s h z (entry z' e c) = absurd (omega arith)

-- The rest of a stack page behind its last entry.
decr_sp-Holds :
    {mem : PhysMem} (s : PageStackInfo) (k : ℕ) {xs : List ℕ}
    → k < page_stack_length
    → Chain mem s.mapped k xs
    → Holds mem (record s { sp = decr_sp k; nrof_pages = decr64 s.nrof_pages }) xs
decr_sp-Holds s zero lt c = bare refl c
decr_sp-Holds s (suc k) lt c = entries refl (omega arith) c

pop_entry-Popped :
    (mem : PhysMem) (s : PageStackInfo) {frame n : ℕ} {xs : List ℕ} (k : ℕ)
    → s.mapped ≡ frame
    → n ≡ suc k
    → k < page_stack_length
    → Chain mem frame n xs
    → Popped mem xs
        ((mem s.mapped).pages k, record s { sp = decr_sp k; nrof_pages = decr64 s.nrof_pages })
pop_entry-Popped mem s k h z lt (last z' f e) = absurd (omega arith)
pop_entry-Popped mem s k h z lt (below z' f e o c) = absurd (omega arith)
pop_entry-Popped mem s {frame} k h z lt (entry {k = k'} {xs} z' e c) =
    let same : k' ≡ k = omega arith in
    let value : (mem s.mapped).pages k ≡ (mem frame).pages k' = cc in
    let rest : Chain mem s.mapped k' xs = rw h c in
    taken refl (inl (value ∙ e)) (decr_sp-Holds s k lt (Chain-count same rest))

below_top :
    {z : ℤ} {k : ℕ} → z ≡ pos k → k < page_stack_length → z ≢ pos (page_stack_length - 1) → k < 510
below_top e lt ne = ground arith

-- On a stack that holds `xs` and whose top stack page is not full (`sp` is not 510), `popPage`
-- gives 0 if `xs` is empty, else the first page of `xs`, possibly with bit 0 set, and leaves the
-- rest of `xs`.
pub pop_page-Popped :
    {mem : PhysMem} {s : PageStackInfo} {xs : List ℕ}
    → Holds mem s xs
    → s.sp ≢ pos (page_stack_length - 1)
    → Popped mem xs (pop_page mem s)
unfolding pop_page
pop_page-Popped (empty e nil) ne = rw e (nothing nil refl (empty refl refl))
pop_page-Popped {mem} {s} (bare e c) ne = rw e (pop_space-Popped mem s refl refl c)
pop_page-Popped {mem} {s} (entries {k} e lt c) ne =
    let room : ltb k 510 ≡ true = lt→ltb k 510 (below_top e lt ne) in
    rw (e, room) (pop_entry-Popped mem s k refl refl lt c)

-- Where the top stack page is full (`sp` is 510), `popPage` reports that there is no page, and
-- forgets all that the stack holds, which is at least 512 pages.
pub pop_page-full :
    {mem : PhysMem} {s : PageStackInfo} {xs : List ℕ}
    → Holds mem s xs
    → s.sp ≡ pos (page_stack_length - 1)
    → let (page, s') = pop_page mem s in (page ≡ 0) × Holds mem s' [] × (512 ≤ length xs)
unfolding pop_page
pop_page-full (empty e nil) full = cc
pop_page-full (bare e c) full = cc
pop_page-full (entries {k} e lt c) full =
    let top : k ≡ 510 = ground arith in
    rw full (refl, empty refl refl, omega (arith, Chain-le_length c))
