-- ===== src/PhysPaging/Tests.antt =====
-- Runs of the page allocator, and instances of its theorems.
use mirai_os.Prelude.{ℕ, zero, suc, ◌+◌, ◌*◌, ℤ, pos, negsuc, ◌≡◌, refl, List, [], ◌∷◌, arith, true}
use mirai_os.PhysPaging.{
  PhysMem, PageStackInfo, PhysPaging, page_size, rest_rounds, pop_page, push_page, split_large_page,
  alloc_phys_page, alloc_clean_phys_page, dealloc_phys_page, get_nrof_pages,
}
use mirai_os.PhysPaging.Chain.{Chain, last, entry, Holds, entries}
use mirai_os.PhysPaging.Push.{push_page-Holds}
use mirai_os.PhysPaging.Split.{stacked, split_large_page-Holds}
use mirai_os.PhysPaging.Alloc.{IsPage, alloc-dealloc}

-- One stack page at 0x1000, with entries from `first`.
abbrev mem_at : ℕ → PhysMem
mem_at first a = record { prev_stack = 0; pages = λ j. first + j * page_size }

abbrev stack_at : ℤ → PageStackInfo
stack_at sp = record { mapped = 0x1000; sp = sp; nrof_pages = 2 }

abbrev no_stack : PageStackInfo
no_stack = record { mapped = 0; sp = negsuc 1; nrof_pages = 0 }

abbrev entries_at : ℕ → ℕ → List ℕ
entries_at first zero = 0x1000 ∷ []
entries_at first (suc k) = (first + k * page_size) ∷ entries_at first k

Chain-entries_at : (first k : ℕ) → Chain (mem_at first) 0x1000 k (entries_at first k)
Chain-entries_at first zero = last refl (omega arith) refl
Chain-entries_at first (suc k) = entry refl refl (Chain-entries_at first k)

abbrev state : PhysPaging
state = record {
  mem = mem_at 0x5000;
  small_pages = stack_at (pos 1);
  large_pages = no_stack;
  small_clean_pages = no_stack;
  large_clean_pages = no_stack;
}

abbrev exhausted : PhysPaging
exhausted = record state { small_pages = no_stack }

state-Holds : Holds (mem_at 0x5000) (stack_at (pos 1)) (entries_at 0x5000 2)
state-Holds = entries refl (omega arith) (Chain-entries_at 0x5000 2)

alloc_runs : (alloc_phys_page state).0 ≡ 0x6000
unfolding alloc_phys_page pop_page
alloc_runs = refl

alloc_clean_runs :
    let (page, cleaned, st) = alloc_clean_phys_page state in (page ≡ 0x6000) × (cleaned ≡ true)
unfolding alloc_clean_phys_page pop_page
alloc_clean_runs = (refl, refl)

count_runs : get_nrof_pages (dealloc_phys_page state 0x9000) ≡ 3
unfolding get_nrof_pages dealloc_phys_page push_page
count_runs = refl

push_page-Holds_example :
    let (mem, s) = push_page (mem_at 0x5000) (stack_at (pos 1)) 0x9000 in
    Holds mem s (0x9000 ∷ entries_at 0x5000 2) × (s.nrof_pages ≡ 3)
push_page-Holds_example = push_page-Holds 0x9000 state-Holds (omega arith) refl

split_large_page-Holds_example :
    let (page, mem, large, small) =
      split_large_page (mem_at 0x1ff000) (stack_at (pos 1)) no_stack in
    (page ≡ 0x200000)
    × Holds mem large (entries_at 0x1ff000 1)
    × Holds mem small (stacked rest_rounds 0x201000 [])
split_large_page-Holds_example =
    split_large_page-Holds (stack_at (pos 1)) no_stack 0x200000 0 refl (omega arith) refl
      (Chain-entries_at 0x1ff000 1) refl (omega arith) (omega arith) (omega arith) (omega arith)

alloc-dealloc_example :
    let r = alloc_phys_page (dealloc_phys_page state 0x9000) in
    IsPage r.0 0x9000 × Holds r.1.mem r.1.small_pages (entries_at 0x5000 2)
alloc-dealloc_example =
    alloc-dealloc state 0x9000 state-Holds (omega arith) refl (λ e. ground arith)
