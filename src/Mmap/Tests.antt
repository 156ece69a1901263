-- ===== src/Mmap/Tests.antt =====
-- Instances of the theorems on memory maps, and runs of `sysMunmap`, kernel/mm/mmap.c
use mirai_os.Prelude.{
  ℕ, ◌≡◌, refl, inl, inr, Bool-cases, ◌==◌, if◌then◌else◌, some, [], ◌∷◌, arith, ◌∈◌, pos, negsuc,
}
use mirai_os.Thread.{Ptr}
use mirai_os.Mmap.{MemoryEntry, Store, mmap_destroy}
use mirai_os.Mmap.Create.{mmap_create_entry, sys_mmap}
use mirai_os.Mmap.Create.Fits.{HasRoom, Inserted}
use mirai_os.Mmap.Create.Insert.{mmap_create_entry-Inserted}
use mirai_os.Mmap.Create.Found.{Adds, mmap_get_entry-mmap_create_entry}
use mirai_os.Mmap.Create.Checks.{sys_mmap-refuses}
use mirai_os.Mmap.Unmap.{sys_munmap}
use mirai_os.Mmap.Unmap.Removed.{Removed, sys_munmap-Removed}
use mirai_os.Mmap.Lists.{IsMap, IsSorted}
use mirai_os.Mmap.Destroy.{Dropped, references, mmap_destroy-Dropped}

-- Two entries of two pages each, at 65536 and at 131072; the second is of the shared memory 7. The heap
-- has the entry 12.
abbrev store : Store
store = record {
  entries = λ p. record {
    vaddr = if p == 10 then 65536 else 131072;
    size = 8192;
    flags = if p == 10 then 48 else 20;
    next = if p == 10 then 11 else 0;
    prev = if p == 10 then 0 else 10;
    shared = if p == 10 then 0 else 7;
    shared_offset = 0;
  };
  shares = λ s. record { ref_count = 1; phys = 3 ∷ 4 ∷ [] };
  first_mem_entry = 10;
  last_mem_entry = 11;
  heap = 12 ∷ [];
  freed = [];
  calls = [];
}

abbrev new_entry : MemoryEntry
new_entry = record {
  vaddr = 81920;
  size = 4096;
  flags = 56;
  next = 0;
  prev = 0;
  shared = 0;
  shared_offset = 0;
}

store-IsMap : IsMap store (10 ∷ 11 ∷ [])
store-IsMap = record {
  first = refl;
  last = refl;
  links = (ground arith, refl, refl, refl, (ground arith, refl, refl, refl, tt));
}

store-IsSorted : IsSorted store.entries (10 ∷ 11 ∷ [])
store-IsSorted = (omega arith, λ p m. ground arith, (omega arith, λ p m. ground arith, tt))

store-HasRoom : HasRoom store new_entry (10 ∷ []) (11 ∷ [])
store-HasRoom = record {
  is_map = store-IsMap;
  sorted = store-IsSorted;
  address = omega arith;
  not_empty = omega arith;
  small = omega arith;
  below = λ p m. ground arith;
  above = λ p m. ground arith;
  no_merge = λ p m. inl (ground arith);
}

mmap_create_entry-Inserted_example :
    (st' : Store) × (mmap_create_entry 9 new_entry store
      ≡ some (record { error = pos 0; out = some 81920; store = st' }))
    × Inserted store new_entry 12 (10 ∷ []) (11 ∷ []) st'
mmap_create_entry-Inserted_example =
    mmap_create_entry-Inserted 9 store new_entry 12 [] (10 ∷ []) (11 ∷ []) store-HasRoom refl
      (omega arith) refl (omega arith)

mmap_get_entry-mmap_create_entry_example :
    (st' : Store) × (mmap_create_entry 9 new_entry store
      ≡ some (record { error = pos 0; out = some 81920; store = st' }))
    × Adds 9 store new_entry 12 st'
mmap_get_entry-mmap_create_entry_example =
    mmap_get_entry-mmap_create_entry 9 store new_entry 12 [] (10 ∷ []) (11 ∷ []) store-HasRoom refl
      (omega arith) refl (omega arith)

mmap_destroy-Dropped_example :
    (st' : Store) × (mmap_destroy 3 store ≡ some st')
    × IsMap st' []
    × ((p : Ptr) → p ∈ (10 ∷ 11 ∷ []) → p ∈ st'.freed)
    × Dropped store st' (λ s. references s store.entries (10 ∷ 11 ∷ []))
mmap_destroy-Dropped_example = mmap_destroy-Dropped 3 store (10 ∷ 11 ∷ []) store-IsMap (omega arith)

-- The second page of the first entry.
sys_munmap-Removed_example :
    (st' : Store) × (sys_munmap 3 69632 4096 store ≡ some (pos 0, st'))
    × Removed 3 store st' 69632 73728 (10 ∷ 11 ∷ [])
sys_munmap-Removed_example =
    sys_munmap-Removed 3 69632 4096 store (10 ∷ 11 ∷ []) store-IsMap store-IsSorted
      (λ p m. elim (Bool-cases (p == 10)) [
        | inl e ↦ inr (ground arith, ground arith)
        | inr e ↦ inl (inl (ground arith))
      ])
      refl refl (omega arith) (omega arith) (omega arith)

sys_mmap-refuses_example : (n : ℕ) × (sys_mmap 3 4097 4096 16 0 store ≡ some (negsuc n, store))
sys_mmap-refuses_example =
    sys_mmap-refuses 3 4097 4096 16 0 store
      (λ good. elim good.1 [ inl e ↦ omega arith | inr h ↦ omega (arith, h.2) ])
