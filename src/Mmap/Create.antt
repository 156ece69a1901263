-- ===== src/Mmap/Create.antt =====
-- `mmapCreateEntry` and `sysMmap`, kernel/mm/mmap.c
pub mod Splice
pub mod Fits
pub mod Insert
pub mod Found
pub mod Checks
use mirai_os.Prelude.{
  ℕ, zero, suc, ◌+◌, ◌-◌, ◌%◌, ◌^◌, ◌==◌, ltb, leb, Bool, true, false, not, ◌&&◌, ◌||◌,
  if◌then◌else◌, Option, none, some, ◌>>=◌, List, [], ◌∷◌, ℤ, pos, neg, truth, ◌==ℤ◌,
}
use mirai_os.Thread.{Ptr, null, add32}
use mirai_os.Mmap.{
  MemoryEntry, SharedMemory, Store, put_entry, put_share, set_next, set_prev, set_size,
  kfree_object, kmalloc_entry, page_call, dealloc_pages, alloc_page_at, add64, sub64, is_positive,
  end_of, last_end, mmap_same, find_lower_higher, get_vaddr, delete_entry, has_flag, mmap_exec,
  mmap_write, mmap_shared, mmap_anon, mmap_cow,
}

abbrev pub enomem : ℕ
enomem = 14

abbrev pub einval : ℕ
einval = 2

abbrev pub enosys : ℕ
enosys = 7

-- The variables `new` and `newEnd` behind `if (lower)`; `failed` is `goto release`.
pub record Place : Type 0 where
  pub new : Ptr
  pub new_end : ℕ
  pub failed : Bool
  pub store : Store

-- `new` becomes part of `lower`.
pub merge_lower_entry : (lower new : Ptr) (new_end : ℕ) → Store → Place
merge_lower_entry lower new new_end st =
    let low = st.entries lower in
    let far = if ltb (end_of low) new_end then new_end else end_of low in
    let size = sub64 far low.vaddr in
    record {
      new = lower;
      new_end = add64 low.vaddr size;
      failed = false;
      store = kfree_object new (set_size lower size st);
    }

-- `new` takes the place of `lower`, of which nothing is left below `new`.
pub replace_lower : (lower new : Ptr) → Store → Store
replace_lower lower new st =
    let prev = (st.entries lower).prev in
    let st1 = set_prev new prev (delete_entry lower st).1 in
    if prev == null then record st1 { first_mem_entry = new } else set_next prev new st1

-- `shared->refCount++`
abbrev pub add_reference : Ptr → Store → Store
add_reference shared st =
    if shared == null
    then st
    else put_share shared
        (record (st.shares shared) { ref_count = add32 (st.shares shared).ref_count 1 }) st

-- The part of `lower` above `new` becomes the entry `lh`.
pub split_lower : (lower higher new lh : Ptr) (new_end low_start low_end : ℕ) → Store → Store
split_lower lower higher new lh new_end low_start low_end st =
    let low = st.entries lower in
    let e : MemoryEntry = record {
      vaddr = new_end;
      size = sub64 low_end new_end;
      flags = low.flags;
      next = higher;
      prev = new;
      shared = low.shared;
      shared_offset = add64 low.shared_offset (sub64 new_end low_start);
    } in
    let st1 = set_next new lh (add_reference low.shared (put_entry lh e st)) in
    if higher == null then record st1 { last_mem_entry = lh } else set_prev higher lh st1

-- `new` overlaps `lower`, and their flags differ.
pub overlap_lower :
    (lower higher new : Ptr) (new_start new_end low_start low_end : ℕ) → Store → Place
overlap_lower lower higher new new_start new_end low_start low_end st =
    let st1 = set_next lower new st in
    let ll = sub64 new_start low_start in
    let st2 = if ll == 0 then replace_lower lower new st1 else set_size lower ll st1 in
    let overlap = sub64 (if ltb low_end new_end then low_end else new_end) new_start in
    let done = page_call (dealloc_pages new_start overlap) in
    let m = kmalloc_entry st2 in
    if is_positive (sub64 low_end new_end)
    then (if m.0 == null
        then record { new = new; new_end = new_end; failed = true; store = m.1 }
        else record {
          new = m.0;
          new_end = new_end;
          failed = false;
          store = done (split_lower lower higher new m.0 new_end low_start low_end m.1);
        })
    else record { new = new; new_end = new_end; failed = false; store = done st2 }

-- The branches under `if (lower)`.
pub place_above : (lower higher new : Ptr) (new_start new_end : ℕ) → Store → Place
place_above lower higher new new_start new_end st =
    let low = st.entries lower in
    let same = mmap_same low (st.entries new) in
    if ltb (end_of low) new_start || ((new_start == end_of low) && not same)
    then record { new = new; new_end = new_end; failed = false; store = set_next lower new st }
    else if same
    then merge_lower_entry lower new new_end st
    else overlap_lower lower higher new new_start new_end low.vaddr (end_of low) st

-- From `new->prev = lower` to the loop.
pub place_entry : (lower higher new : Ptr) (new_start new_end : ℕ) → Store → Place
place_entry lower higher new new_start new_end st =
    let st1 = set_prev new lower st in
    if lower == null
    then record {
      new = new;
      new_end = new_end;
      failed = false;
      store = record st1 { first_mem_entry = new };
    }
    else place_above lower higher new new_start new_end st1

-- The loop: entries from `higher` on that `new` covers are deleted, and the first that it covers in
-- part begins later.
pub trim_higher : ℕ → (new : Ptr) (new_end : ℕ) (higher : Ptr) → Store → Option Store
trim_higher zero new new_end higher st = none
trim_higher (suc fuel) new new_end higher st =
    let st1 = set_next new higher st in
    let st2 = set_prev higher new st1 in
    let high = st2.entries higher in
    let overlap = sub64 new_end high.vaddr in
    let shifted = record high {
      vaddr = add64 high.vaddr overlap;
      size = sub64 high.size overlap;
      shared_offset = add64 high.shared_offset overlap;
    } in
    let d = delete_entry higher st2 in
    let rest = trim_higher fuel new new_end d.0 d.1 in
    if higher == null
    then some (record st1 { last_mem_entry = new })
    else if leb new_end high.vaddr
    then some st2
    else if ltb overlap high.size
    then some (put_entry higher shifted st2)
    else rest

-- What `mmapCreateEntry` returns, what it writes to `*out`, and the store.
pub record Created : Type 0 where
  pub error : ℤ
  pub out : Option ℕ
  pub store : Store

-- The address of an entry that has none: the end of the last entry.
abbrev pub default_vaddr : Ptr → Store → Store
default_vaddr new st =
    let e = st.entries new in
    if e.vaddr == 0 then put_entry new (record e { vaddr = last_end st }) st else st

-- `mmapCreateEntry` behind `findLowerHigher`, `size` being that of `newEntry`.
pub create_between : ℕ → (new lower higher : Ptr) (size : ℕ) → Store → Option Created
create_between fuel new lower higher size st =
    let new_start = (st.entries new).vaddr in
    let st1 = get_vaddr lower higher new st in
    let out = some (st1.entries new).vaddr in
    let p = place_entry lower higher new new_start (add64 new_start size) st1 in
    if p.failed then some (record { error = neg enomem; out = out; store = p.store }) else do
      st2 ← trim_higher fuel p.new p.new_end higher p.store
      some (record { error = pos 0; out = out; store = st2 })

-- `mmapCreateEntry` behind `memcpy(new, newEntry, ..)`
pub create_at : ℕ → (new : Ptr) (size : ℕ) → Store → Option Created
create_at fuel new size st = do
  let st1 = default_vaddr new st
  (lower, higher) ← find_lower_higher fuel (st1.entries new).vaddr st1
  create_between fuel new lower higher size st1

-- `mmapCreateEntry`
pub mmap_create_entry : ℕ → MemoryEntry → Store → Option Created
mmap_create_entry fuel e st =
    let m = kmalloc_entry st in
    let rest = create_at fuel m.0 e.size (put_entry m.0 e m.1) in
    if m.0 == null then some (record { error = neg enomem; out = none; store = m.1 }) else rest

-- `validateUserPointer`, kernel/include/userspace.h: the mask is 2^64 - 2^47.
pub validate_user_pointer : (ptr size : ℕ) → ℤ
validate_user_pointer ptr size =
    if leb (2 ^ 47) ptr || ltb (sub64 (2 ^ 64 - 2 ^ 47) ptr) size then neg einval else pos 0

abbrev pub page_size : ℕ
page_size = 4096

-- The tests of `sysMmap`.
pub check_mmap : (addr size flags : ℕ) → ℤ
check_mmap addr size flags =
    if not (addr == 0) && not (validate_user_pointer addr size ==ℤ pos 0)
    then validate_user_pointer addr size
    else if not (addr == 0)
        && (not (addr % page_size == 0) || not (size % page_size == 0) || (size == 0))
    then neg einval
    else if not (has_flag flags mmap_anon)
    then neg enosys
    else pos 0

-- The flags of the new entry.
pub entry_flags : ℕ → ℕ
entry_flags flags =
    if has_flag flags mmap_shared
    then flags - mmap_shared
    else if has_flag flags mmap_cow
    then flags
    else flags + mmap_cow

-- `ret`, which is `garbage` where `mmapCreateEntry` has not written it.
abbrev written : Option ℕ → (garbage : ℕ) → ℕ
written none garbage = garbage
written (some a) garbage = a

-- `sysMmap` behind its tests.
pub mmap_checked : ℕ → (addr size flags garbage : ℕ) → Store → Option (ℤ × Store)
mmap_checked fuel addr size flags garbage st = do
  let e : MemoryEntry = record {
    vaddr = addr;
    size = size;
    flags = entry_flags flags;
    next = null;
    prev = null;
    shared = null;
    shared_offset = 0;
  }
  c ← mmap_create_entry fuel e st
  let ret = written c.out garbage
  let call = alloc_page_at ret size (has_flag flags mmap_write) (has_flag flags mmap_exec)
  some (pos ret, page_call call c.store)

-- `sysMmap`: the pointer or the error number, as one value.
pub sys_mmap : ℕ → (addr size flags garbage : ℕ) → Store → Option (ℤ × Store)
sys_mmap fuel addr size flags garbage st =
    let error = check_mmap addr size flags in
    let rest = mmap_checked fuel addr size flags garbage st in
    if truth error then some (error, st) else rest
