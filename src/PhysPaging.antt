-- ===== src/PhysPaging.antt =====
-- The physical page allocator of kernel/mm/physpaging.c: stacks of free pages that are kept in the
-- free pages themselves. Each `struct PageStackInfo` has a virtual page of its own (`stack`), under
-- which the top page of its chain is mapped; the model keeps the physical page that is mapped there
-- (`mapped`), which is what `mmGetPageEntry(stack)` reads and `mmMapPage(stack, p, ...)` writes
-- (kernel/arch/x86_64/mm/map.c; the tables for these addresses are set up by `mmInitPaging`, so
-- `allocTables` allocates none). The locks are held round each body, and TLB flushes leave no trace.
pub mod Chain
pub mod Push
pub mod Pop
pub mod Split
pub mod Alloc
mod Tests
use mirai_os.Prelude.{
  ℕ, zero, suc, ◌+◌, ◌-◌, ◌*◌, ◌/◌, ◌%◌, ◌^◌, ℤ, pos, negsuc, neg, Bool, true, false, ltb, ◌==◌,
  if◌then◌else◌,
}

abbrev pub page_size : ℕ
page_size = 4096

abbrev pub largepage_size : ℕ
largepage_size = page_size * 512

-- `PAGE_STACK_LENGTH`, the entries of one stack page.
abbrev pub page_stack_length : ℕ
page_stack_length = page_size / 8 - 1

-- The contents of a page that serves as stack space. Entries are addressed below
-- `page_stack_length` only (`Push.push_index`).
pub record PageStack : Type 0 where
  pub prev_stack : ℕ
  pub pages : ℕ → ℕ

-- Physical memory, as far as it serves as stack space, by physical address.
abbrev pub PhysMem : Type 0
PhysMem = ℕ → PageStack

pub record PageStackInfo : Type 0 where
  pub mapped : ℕ
  pub sp : ℤ
  pub nrof_pages : ℕ

-- `entry & PAGE_MASK`: the page frame of a page table entry.
abbrev pub page_frame : ℕ → ℕ
page_frame p = p % 2 ^ 48 - p % 4096

-- `page | 1`
abbrev pub or_one : ℕ → ℕ
or_one p = if p % 2 == 0 then p + 1 else p

-- `page & ~1`
abbrev pub clear_one : ℕ → ℕ
clear_one p = p - p % 2

-- `x++` and `x--` on a `uint64_t`.
abbrev pub incr64 : ℕ → ℕ
incr64 n = (n + 1) % 2 ^ 64

abbrev pub decr64 : ℕ → ℕ
decr64 n = (n + 2 ^ 64 - 1) % 2 ^ 64

-- `if (page)`
abbrev pub not_zero : ℕ → Bool
not_zero p = if p == 0 then false else true

abbrev pub write_mem : PhysMem → ℕ → PageStack → PhysMem
write_mem mem p s a = if a == p then s else mem a

abbrev pub set_page : PageStack → ℕ → ℕ → PageStack
set_page s i v = record s { pages = λ j. if j == i then v else s.pages j }

-- `sp--` on a value that is not negative.
abbrev pub decr_sp : ℕ → ℤ
decr_sp zero = negsuc 0
decr_sp (suc n) = pos n

-- The branch of `popPage` for `sp == -1`: the page that is the stack space itself.
pop_space : PhysMem → PageStackInfo → ℕ × PageStackInfo
pop_space mem s =
    let prev = (mem s.mapped).prev_stack in
    if prev == 0
    then (or_one s.mapped, record s { nrof_pages = decr64 s.nrof_pages; sp = negsuc 1 })
    else (
      or_one s.mapped,
      record {
        mapped = page_frame prev;
        sp = pos (page_stack_length - 1);
        nrof_pages = decr64 s.nrof_pages;
      },
    )

-- The branches by the stack pointer; -1 is `negsuc 0` and -2 is `negsuc 1`.
pop_sp : ℤ → PhysMem → PageStackInfo → ℕ × PageStackInfo
unfolding pop_space
pop_sp (pos n) mem s =
    if ltb n (page_stack_length - 1)
    then ((mem s.mapped).pages n, record s { sp = decr_sp n; nrof_pages = decr64 s.nrof_pages })
    else (0, record s { sp = negsuc 1 })
pop_sp (negsuc zero) mem s = pop_space mem s
pop_sp (negsuc (suc n)) mem s = (0, record s { sp = negsuc 1 })

-- `popPage`: 0 where it finds no page.
pub pop_page : PhysMem → PageStackInfo → ℕ × PageStackInfo
unfolding pop_sp
pop_page mem s = pop_sp s.sp mem s

-- `pages->stack->pages[sp] = newPage`
push_entry : ℕ → PhysMem → PageStackInfo → ℕ → PhysMem × PageStackInfo
push_entry i mem s new_page = (
  write_mem mem s.mapped (set_page (mem s.mapped) i new_page),
  record s { sp = pos i; nrof_pages = incr64 s.nrof_pages },
)

-- "new page becomes more stack space"
push_space : ℕ → PhysMem → PageStackInfo → ℕ → PhysMem × PageStackInfo
push_space old_stack mem s new_page =
    let frame = page_frame new_page in
    (
      write_mem mem frame (record (mem frame) { prev_stack = old_stack }),
      record { mapped = frame; sp = negsuc 0; nrof_pages = incr64 s.nrof_pages },
    )

push_sp : ℤ → PhysMem → PageStackInfo → ℕ → PhysMem × PageStackInfo
unfolding push_entry push_space
push_sp (pos n) mem s new_page =
    if ltb n (page_stack_length - 1)
    then push_entry (n + 1) mem s new_page
    else push_space s.mapped mem s new_page
push_sp (negsuc zero) mem s new_page = push_entry 0 mem s new_page
push_sp (negsuc (suc zero)) mem s new_page = push_space 0 mem s new_page
push_sp (negsuc (suc (suc n))) mem s new_page = push_space s.mapped mem s new_page

-- `pushPage`
pub push_page : PhysMem → PageStackInfo → ℕ → PhysMem × PageStackInfo
unfolding push_sp
push_page mem s new_page = push_sp s.sp mem s new_page

-- The four stacks of free pages, with the memory in which they are kept.
pub record PhysPaging : Type 0 where
  pub mem : PhysMem
  pub small_pages : PageStackInfo
  pub large_pages : PageStackInfo
  pub small_clean_pages : PageStackInfo
  pub large_clean_pages : PageStackInfo

-- The loop of `splitLargePage`, with the rounds that are left: i takes the values
-- PAGE_SIZE, 2 * PAGE_SIZE, ... below LARGEPAGE_SIZE.
pub push_rest : ℕ → ℕ → PhysMem → PageStackInfo → PhysMem × PageStackInfo
push_rest zero page mem s = (mem, s)
push_rest (suc n) page mem s =
    let (mem', s') = push_page mem s page in push_rest n (page + page_size) mem' s'

abbrev pub rest_rounds : ℕ
rest_rounds = largepage_size / page_size - 1

-- `splitLargePage`: the page found (0 if none), the memory, the large and the small stack.
pub split_large_page :
    PhysMem → PageStackInfo → PageStackInfo → ℕ × PhysMem × PageStackInfo × PageStackInfo
split_large_page mem large small =
    let (large_page, large') = pop_page mem large in
    if large_page == 0
    then (0, mem, large', small)
    else (let (mem', small') = push_rest rest_rounds (large_page + page_size) mem small in
        (large_page, mem', large', small'))

-- `allocPhysPage`
pub alloc_phys_page : PhysPaging → ℕ × PhysPaging
alloc_phys_page st =
    let (p1, small1) = pop_page st.mem st.small_pages in
    let st1 = record st { small_pages = small1 } in
    if not_zero p1
    then (p1, st1)
    else (let (p2, clean2) = pop_page st.mem st.small_clean_pages in
        let st2 = record st1 { small_clean_pages = clean2 } in
        if not_zero p2
        then (p2, st2)
        else (let (p3, mem3, large3, small3) = split_large_page st.mem st.large_pages small1 in
            let st3 = record st2 { mem = mem3; large_pages = large3; small_pages = small3 } in
            if not_zero p3
            then (p3, st3)
            else (let (p4, mem4, large4, clean4) =
                  split_large_page mem3 st.large_clean_pages clean2 in
                (
                  p4,
                  record st3 { mem = mem4; large_clean_pages = large4; small_clean_pages = clean4 },
                ))))

-- `allocCleanPhysPage`, with the pages that `cleanSmallPage` fills with zeros on the way: the page
-- that is returned, if it was not taken from a stack of clean pages.
pub alloc_clean_phys_page : PhysPaging → ℕ × Bool × PhysPaging
alloc_clean_phys_page st =
    let (p1, clean1) = pop_page st.mem st.small_clean_pages in
    let st1 = record st { small_clean_pages = clean1 } in
    if not_zero p1
    then (if p1 % 2 == 1 then (clear_one p1, true, st1) else (p1, false, st1))
    else (let (p2, small2) = pop_page st.mem st.small_pages in
        let st2 = record st1 { small_pages = small2 } in
        if not_zero p2
        then (p2, true, st2)
        else (let (p3, mem3, large3, clean3) =
              split_large_page st.mem st.large_clean_pages clean1 in
            let st3 = record st2 {
              mem = mem3;
              large_clean_pages = large3;
              small_clean_pages = clean3;
            } in
            if not_zero p3
            then (p3, false, st3)
            else (let (p4, mem4, large4, small4) = split_large_page mem3 st.large_pages small2 in
                let st4 = record st3 { mem = mem4; large_pages = large4; small_pages = small4 } in
                (p4, not_zero p4, st4))))

-- `allocLargePhysPage`
pub alloc_large_phys_page : PhysPaging → ℕ × PhysPaging
alloc_large_phys_page st =
    let (p1, large1) = pop_page st.mem st.large_pages in
    let st1 = record st { large_pages = large1 } in
    if not_zero p1
    then (p1, st1)
    else (let (p2, clean2) = pop_page st.mem st.large_clean_pages in
        (p2, record st1 { large_clean_pages = clean2 }))

-- `deallocPhysPage`
pub dealloc_phys_page : PhysPaging → ℕ → PhysPaging
dealloc_phys_page st page =
    let (mem', small') = push_page st.mem st.small_pages page in
    record st { mem = mem'; small_pages = small' }

-- `deallocLargePhysPage`
pub dealloc_large_phys_page : PhysPaging → ℕ → PhysPaging
dealloc_large_phys_page st page =
    let (mem', large') = push_page st.mem st.large_pages page in
    record st { mem = mem'; large_pages = large' }

-- `getNrofPages`
pub get_nrof_pages : PhysPaging → ℕ
get_nrof_pages st =
    (st.small_pages.nrof_pages
      + st.small_clean_pages.nrof_pages
      + st.large_pages.nrof_pages * (largepage_size / page_size))
    % 2 ^ 64
