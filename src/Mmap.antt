-- ===== src/Mmap.antt =====
-- The memory map of a process, kernel/mm/mmap.c: a doubly linked list of `struct MemoryEntry` on an
-- explicit store. A pointer is a number and 0 is NULL; addresses and sizes are 64 bits. What `kmalloc`
-- will return is a list, which ends in NULLs; what is freed, and the calls that change pages, are
-- recorded. Loops have fuel, and `none` means that it ran out.
pub mod Create
pub mod Unmap
pub mod Lists
pub mod Lookup
pub mod Destroy
mod Tests
use mirai_os.Prelude.{
  ℕ, zero, suc, ◌+◌, ◌-◌, ◌*◌, ◌/◌, ◌%◌, ◌^◌, ◌==◌, ltb, leb, Bool, true, false, ◌&&◌,
  if◌then◌else◌, Option, none, some, ◌>>=◌, List, [], ◌∷◌,
}
use mirai_os.Thread.{Ptr, null, update, add32, sub32}

abbrev pub add64 : ℕ → ℕ → ℕ
add64 a b = (a + b) % 2 ^ 64

abbrev pub sub64 : ℕ → ℕ → ℕ
sub64 a b = (a + 2 ^ 64 - b) % 2 ^ 64

-- A 64-bit difference as an `ssize_t` is above 0.
abbrev pub is_positive : ℕ → Bool
is_positive n = ltb 0 n && ltb n (2 ^ 63)

-- The bits of `flags`, kernel/include/uapi/mmap.h and kernel/include/sched/process.h.
abbrev pub mmap_exec : ℕ
mmap_exec = 1

abbrev pub mmap_write : ℕ
mmap_write = 2

abbrev pub mmap_shared : ℕ
mmap_shared = 4

abbrev pub mmap_fixed : ℕ
mmap_fixed = 8

abbrev pub mmap_anon : ℕ
mmap_anon = 16

abbrev pub mmap_cow : ℕ
mmap_cow = 32

abbrev pub has_flag : (flags flag : ℕ) → Bool
has_flag flags flag = (flags / flag) % 2 == 1

-- `struct MemoryEntry`
pub record MemoryEntry : Type 0 where
  pub vaddr : ℕ
  pub size : ℕ
  pub flags : ℕ
  pub next : Ptr
  pub prev : Ptr
  pub shared : Ptr
  pub shared_offset : ℕ

-- `struct SharedMemory`: `phys` are the first `nrofPages` pages of the array.
pub record SharedMemory : Type 0 where
  pub ref_count : ℕ
  pub phys : List ℕ

-- The calls that change pages.
pub data PageCall : Type 0 where
  phys_page_freed : (page : ℕ) → PageCall
  dealloc_pages : (addr size : ℕ) → PageCall
  alloc_page_at : (addr size : ℕ) (write exec : Bool) → PageCall
  unmap_userspace : PageCall

-- The objects of the map, `firstMemEntry` and `lastMemEntry` of the process, and the heap.
pub record Store : Type 0 where
  pub entries : Ptr → MemoryEntry
  pub shares : Ptr → SharedMemory
  pub first_mem_entry : Ptr
  pub last_mem_entry : Ptr
  pub heap : List Ptr
  pub freed : List Ptr
  pub calls : List PageCall

abbrev pub put_entry : Ptr → MemoryEntry → Store → Store
put_entry p e st = record st { entries = update st.entries p e }

abbrev pub put_share : Ptr → SharedMemory → Store → Store
put_share p s st = record st { shares = update st.shares p s }

abbrev pub set_next : Ptr → Ptr → Store → Store
set_next p v st = put_entry p (record (st.entries p) { next = v }) st

abbrev pub set_prev : Ptr → Ptr → Store → Store
set_prev p v st = put_entry p (record (st.entries p) { prev = v }) st

abbrev pub set_size : Ptr → ℕ → Store → Store
set_size p v st = put_entry p (record (st.entries p) { size = v }) st

abbrev pub kfree_object : Ptr → Store → Store
kfree_object p st = record st { freed = p ∷ st.freed }

-- `kmalloc`, which fails where the list has ended.
pub kmalloc_entry_from : List Ptr → Store → Ptr × Store
kmalloc_entry_from [] st = (null, st)
kmalloc_entry_from (p ∷ ps) st = (p, record st { heap = ps })

abbrev pub kmalloc_entry : Store → Ptr × Store
kmalloc_entry st = kmalloc_entry_from st.heap st

abbrev pub page_call : PageCall → Store → Store
page_call c st = record st { calls = c ∷ st.calls }

-- Where an entry ends.
abbrev pub end_of : MemoryEntry → ℕ
end_of e = add64 e.vaddr e.size

-- The end of the last entry of the map.
abbrev pub last_end : Store → ℕ
last_end st = end_of (st.entries st.last_mem_entry)

-- `mmapSame`
abbrev pub mmap_same : MemoryEntry → MemoryEntry → Bool
mmap_same a b = a.flags == b.flags

-- The loop of `findLowerHigher`: the two entries that it finds.
pub find_from : ℕ → (cur lower : Ptr) (new_start : ℕ) → Store → Option (Ptr × Ptr)
find_from zero cur lower new_start st = none
find_from (suc fuel) cur lower new_start st =
    let rest = find_from fuel (st.entries cur).next cur new_start st in
    if cur == null
    then some (lower, null)
    else if ltb new_start (st.entries cur).vaddr
    then some (lower, cur)
    else rest

-- `findLowerHigher`
pub find_lower_higher : ℕ → (new_start : ℕ) → Store → Option (Ptr × Ptr)
find_lower_higher fuel new_start st = find_from fuel st.first_mem_entry null new_start st

-- The test of the hint in `getVaddr`.
abbrev pub hint_fits : (lower higher : Ptr) → MemoryEntry → Store → Bool
hint_fits lower higher e st =
    let low_end = if lower == null then e.vaddr else end_of (st.entries lower) in
    let high_start = if higher == null then end_of e else (st.entries higher).vaddr in
    leb low_end e.vaddr && leb (end_of e) high_start

-- `getVaddr`
pub get_vaddr : (lower higher entry : Ptr) → Store → Store
get_vaddr lower higher entry st =
    let e = st.entries entry in
    if has_flag e.flags mmap_fixed
    then put_entry entry (record e { flags = e.flags - mmap_fixed }) st
    else if hint_fits lower higher e st
    then st
    else put_entry entry (record e { vaddr = last_end st }) st

-- The loop of `deleteEntry` over the pages of shared memory.
pub dealloc_all : List ℕ → Store → Store
dealloc_all [] st = st
dealloc_all (page ∷ pages) st = dealloc_all pages (page_call (phys_page_freed page) st)

-- `deleteEntry` where MMAP_FLAG_SHARED is set: one reference less, and the last one frees.
pub drop_reference : MemoryEntry → Store → Store
drop_reference e st =
    let sh = st.shares e.shared in
    let refs = sub32 sh.ref_count 1 in
    let st1 = put_share e.shared (record sh { ref_count = refs }) st in
    let st2 = if has_flag e.flags mmap_anon then dealloc_all sh.phys st1 else st1 in
    if refs == 0 then kfree_object e.shared st2 else st1

-- `deleteEntry`: the next entry.
pub delete_entry : Ptr → Store → Ptr × Store
delete_entry p st =
    let e = st.entries p in
    let st1 = if has_flag e.flags mmap_shared then drop_reference e st else st in
    (e.next, kfree_object p st1)

-- The loop of `mmapGetEntry`
pub get_from : ℕ → (cur : Ptr) (addr : ℕ) → Store → Option Ptr
get_from zero cur addr st = none
get_from (suc fuel) cur addr st =
    let e = st.entries cur in
    let rest = get_from fuel e.next addr st in
    if cur == null
    then some null
    else if leb e.vaddr addr && ltb addr (end_of e)
    then some cur
    else rest

-- `mmapGetEntry`
pub mmap_get_entry : ℕ → (addr : ℕ) → Store → Option Ptr
mmap_get_entry fuel addr st = get_from fuel st.first_mem_entry addr st

-- The loop of `mmapDestroy`
pub delete_from : ℕ → Ptr → Store → Option Store
delete_from zero p st = none
delete_from (suc fuel) p st =
    let d = delete_entry p st in
    let rest = delete_from fuel d.0 d.1 in if p == null then some st else rest

abbrev pub clear_map : Store → Store
clear_map st =
    page_call unmap_userspace (record st { first_mem_entry = null; last_mem_entry = null })

-- `mmapDestroy`
pub mmap_destroy : ℕ → Store → Option Store
mmap_destroy fuel st = do st1 ← delete_from fuel st.first_mem_entry st; some (clear_map st1)
