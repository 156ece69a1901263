-- ===== src/PhysPaging/Chain.antt =====
-- What a page stack stands for: the list of the free pages in it, the next one to go out first.
use mirai_os.Prelude.{
  ℕ, suc, ◌+◌, ◌%◌, ◌^◌, ◌<◌, pos, negsuc, ◌≡◌, ◌≢◌, List, [], ◌∷◌, arith, ◌∈◌, ◌∉◌, ◌≤◌, length,
}
use mathlib.Core.Path.{subst}
use mirai_os.PhysPaging.{
  PhysMem, PageStack, PageStackInfo, page_stack_length, page_frame, write_mem, set_page,
}

-- A physical address that a page table entry holds unchanged, and that is not the null page.
pub record IsFrame (p : ℕ) : Type 0 where
  pub aligned : p % 4096 ≡ 0
  pub small : p < 2 ^ 48
  pub ne_zero : p ≢ 0

pub page_frame_of_frame : (p : ℕ) → IsFrame p → page_frame p ≡ p
page_frame_of_frame p f = omega arith

-- The stack page at `frame` holds `k` entries, and the pages below it in the chain are full.
-- The pages are those of the entries, the stack page itself, then those of the rest of the chain.
pub data Chain (mem : PhysMem) : (frame k : ℕ) → List ℕ → Type 0 where
  last :
      {frame k : ℕ}
      → k ≡ 0
      → IsFrame frame
      → (mem frame).prev_stack ≡ 0
      → Chain mem frame k (frame ∷ [])
  below :
      {frame k prev : ℕ} {xs : List ℕ}
      → k ≡ 0
      → IsFrame frame
      → (mem frame).prev_stack ≡ prev
      → frame ∉ xs
      → Chain mem prev page_stack_length xs
      → Chain mem frame k (frame ∷ xs)
  entry :
      {frame k n p : ℕ} {xs : List ℕ}
      → n ≡ suc k
      → (mem frame).pages k ≡ p
      → Chain mem frame k xs
      → Chain mem frame n (p ∷ xs)

pub Chain-IsFrame :
    {mem : PhysMem} {frame k : ℕ} {xs : List ℕ} → Chain mem frame k xs → IsFrame frame
Chain-IsFrame (last z f e) = f
Chain-IsFrame (below z f e o c) = f
Chain-IsFrame (entry z e c) = Chain-IsFrame c

-- A stack holds the pages `xs`: none at `sp == -2`, else those of the chain at the mapped page,
-- which has `sp + 1` entries.
pub data Holds (mem : PhysMem) (s : PageStackInfo) (xs : List ℕ) : Type 0 where
  empty : s.sp ≡ negsuc 1 → xs ≡ [] → Holds mem s xs
  bare : s.sp ≡ negsuc 0 → Chain mem s.mapped 0 xs → Holds mem s xs
  entries :
      {k : ℕ}
      → s.sp ≡ pos k
      → k < page_stack_length
      → Chain mem s.mapped (suc k) xs
      → Holds mem s xs

-- The stack page is one of the pages of its chain.
pub Chain-mem_frame :
    {mem : PhysMem} {frame k : ℕ} {xs : List ℕ} → Chain mem frame k xs → frame ∈ xs
Chain-mem_frame (last z f e) = ground arith
Chain-mem_frame (below z f e o c) = ground arith
Chain-mem_frame (entry z e c) = ground (arith, Chain-mem_frame c)

pub ne_of_mem : (a b : ℕ) (xs : List ℕ) → a ∈ xs → b ∉ xs → a ≢ b
ne_of_mem a b xs h k e = cc

-- A chain is not touched by a change of a page that is not in it.
pub Chain-write_other :
    {mem : PhysMem} {frame k : ℕ} {xs : List ℕ} (p : ℕ) (c : PageStack)
    → Chain mem frame k xs
    → p ∉ xs
    → Chain (write_mem mem p c) frame k xs
Chain-write_other p c (last z f e) out = last z f (ground arith)
Chain-write_other p c (below z f e o ch) out =
    below z f (ground arith) o (Chain-write_other p c ch (ground arith))
Chain-write_other p c (entry {frame} {xs} z e ch) out =
    let rest : p ∉ xs = ground arith in
    entry z (ground (arith, ne_of_mem frame p xs (Chain-mem_frame ch) rest))
      (Chain-write_other p c ch rest)

-- Nor by a write to the entries of its top page behind those in use.
pub Chain-set_page :
    {mem : PhysMem} {frame k : ℕ} {xs : List ℕ} (i v : ℕ)
    → Chain mem frame k xs
    → k ≤ i
    → Chain (write_mem mem frame (set_page (mem frame) i v)) frame k xs
Chain-set_page i v (last z f e) le = last z f (ground arith)
Chain-set_page i v (below z f e o ch) le = below z f (ground arith) o (Chain-write_other _ _ ch o)
Chain-set_page i v (entry {k} z e ch) le =
    entry z (ground arith) (Chain-set_page i v ch (omega arith))

-- A full stack page and what is below it are at least 512 pages.
pub Chain-le_length :
    {mem : PhysMem} {frame k : ℕ} {xs : List ℕ} → Chain mem frame k xs → k + 1 ≤ length xs
Chain-le_length (last z f e) = omega arith
Chain-le_length (below z f e o c) = omega arith
Chain-le_length (entry z e c) = omega (arith, Chain-le_length c)

pub Chain-count :
    {mem : PhysMem} {frame k n : ℕ} {xs : List ℕ}
    → k ≡ n
    → Chain mem frame k xs
    → Chain mem frame n xs
Chain-count {mem} {frame} {xs} e c = subst (λ m. Chain mem frame m xs) e c
