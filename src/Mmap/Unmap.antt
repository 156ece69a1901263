-- ===== src/Mmap/Unmap.antt =====
-- `sysMunmap`, kernel/mm/mmap.c
pub mod Cut
pub mod Removed
use mirai_os.Prelude.{
  ℕ, zero, suc, ◌+◌, ◌-◌, ◌%◌, ◌^◌, ◌==◌, ltb, leb, Bool, true, false, not, ◌&&◌, ◌||◌,
  if◌then◌else◌, Option, none, some, List, [], ◌∷◌, ℤ, pos, neg, truth,
}
use mirai_os.Thread.{Ptr, null}
use mirai_os.Mmap.{
  MemoryEntry, Store, put_entry, set_next, set_size, kmalloc_entry, page_call, dealloc_pages, add64,
  sub64, is_positive, end_of, delete_entry,
}
use mirai_os.Mmap.Create.{add_reference, enomem, einval, validate_user_pointer, page_size}

-- The part of `cur` from `end` on becomes the entry `h`. Nothing writes the flags of `h`.
pub split_high : (cur h : Ptr) (addr end : ℕ) → Store → Store
split_high cur h addr end st =
    let e = st.entries cur in
    let high = record (st.entries h) {
      vaddr = end;
      size = sub64 (end_of e) end;
      shared = e.shared;
      shared_offset = sub64 (add64 e.shared_offset end) e.vaddr;
      next = e.next;
      prev = cur;
    } in
    let st1 = add_reference e.shared (put_entry h high st) in
    let st2 = if e.next == null then record st1 { last_mem_entry = h } else st1 in
    set_size cur (sub64 addr e.vaddr) (set_next cur h st2)

-- `cur` leaves the list.
pub unlink_whole : (cur : Ptr) → Store → Store
unlink_whole cur st =
    let e = st.entries cur in
    let st1 =
      if e.prev == null
      then record st { first_mem_entry = e.next }
      else (let st1 = set_next e.prev e.next st in
          if e.next == null then st1 else record st1 { last_mem_entry = e.prev }) in
    (delete_entry cur st1).1

-- From `if (lSize > 0)` on.
pub unmap_low : (cur : Ptr) (low_size : ℕ) → Store → Store
unmap_low cur low_size st =
    if is_positive low_size then set_size cur low_size st else unlink_whole cur st

-- One entry that overlaps the range from `addr` to `end`; the test is whether `kmalloc` failed.
pub unmap_entry : (cur : Ptr) (addr end : ℕ) → Store → Bool × Store
unmap_entry cur addr end st =
    let e = st.entries cur in
    let low_size = sub64 addr e.vaddr in
    let m = kmalloc_entry st in
    if is_positive (sub64 (end_of e) end)
    then (if m.0 == null
        then (true, m.1)
        else (false, unmap_low cur low_size (split_high cur m.0 addr end m.1)))
    else (false, unmap_low cur low_size st)

-- The loop of `sysMunmap`, and `deallocPages` behind it.
pub unmap_from : ℕ → (cur : Ptr) (addr end size : ℕ) → Store → Option (ℤ × Store)
unmap_from zero cur addr end size st = none
unmap_from (suc fuel) cur addr end size st =
    let e = st.entries cur in
    let u = unmap_entry cur addr end st in
    let skip = unmap_from fuel e.next addr end size st in
    let rest = unmap_from fuel e.next addr end size u.1 in
    if cur == null
    then some (pos 0, page_call (dealloc_pages addr size) st)
    else if leb end e.vaddr || leb (end_of e) addr
    then skip
    else if u.0
    then some (neg enomem, u.1)
    else rest

-- `sysMunmap`
pub sys_munmap : ℕ → (addr size : ℕ) → Store → Option (ℤ × Store)
sys_munmap fuel addr size st =
    let error = validate_user_pointer addr size in
    let rest = unmap_from fuel st.first_mem_entry addr (add64 addr size) size st in
    if truth error
    then some (error, st)
    else if not (addr % page_size == 0) || not (size % page_size == 0)
    then some (neg einval, st)
    else rest
