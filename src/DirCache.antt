-- ===== src/DirCache.antt =====
-- The entries of a directory in memory, kernel/fs/dircache.c, with `memcmp` and `strlen` of
-- kernel/include/mm/memset.h. A directory is the part of `struct Inode` that these functions use, with
-- the array at `cachedData`; a pointer to one of its entries is the index. Names of more than 31 bytes
-- are in a memory of bytes, which `memcpy` of an entry does not copy. Parameters: whether a `krealloc`
-- that makes the array larger and `kmalloc` succeed. A `krealloc` to fewer bytes returns the same
-- array, and to 0 bytes NULL (kernel/mm/heap.c).
pub mod Each
pub mod Names
pub mod Lookup
pub mod Change
mod Tests
use mirai_os.Prelude.{
  ℕ, zero, suc, ◌+◌, ◌-◌, ◌*◌, ◌%◌, ◌^◌, ◌==◌, ltb, leb, Bool, true, false, not, ◌&&◌,
  if◌then◌else◌, Option, none, some, ◌>>=◌, List, [], ◌∷◌, ◌++◌, ℤ, pos, neg, truth,
}

abbrev pub Ptr : Type 0
Ptr = ℕ

-- Bytes by address.
abbrev pub Mem : Type 0
Mem = Ptr → ℕ

-- `struct DirEntry`. Of the union, `name` is used for more than 31 bytes and `inline_name` otherwise.
pub record DirEntry : Type 0 where
  pub inode : Ptr
  pub parent : Ptr
  pub index : ℕ
  pub name_len : ℕ
  pub name : Ptr
  pub inline_name : ℕ → ℕ

-- A directory: the address of its `struct Inode`, and `entries` for the array at `cachedData`, which is
-- NULL where `cached_data` is false.
pub record Dir : Type 0 where
  pub self : Ptr
  pub file_size : ℕ
  pub cached_data : Bool
  pub cached_data_size : ℕ
  pub cache_dirty : Bool
  pub entries : ℕ → DirEntry

abbrev enomem : ℕ
enomem = 14

abbrev enosys : ℕ
enosys = 7

-- `sizeof(struct DirEntry)`
abbrev pub entry_size : ℕ
entry_size = 64

abbrev pub put_entry : ℕ → DirEntry → (ℕ → DirEntry) → ℕ → DirEntry
put_entry i e es j = if j == i then e else es j

-- `dirCacheAdd`: the result, the index of the entry, and the directory.
pub dir_cache_add : (krealloc : Bool) → DirEntry → Dir → ℤ × ℕ × Dir
dir_cache_add krealloc e dir =
    if not dir.cached_data
    then (neg enosys, 0, dir)
    else if not krealloc
    then (neg enomem, 0, dir)
    else (
      pos 0,
      dir.file_size,
      record dir {
        cached_data_size = dir.cached_data_size + entry_size;
        cache_dirty = true;
        entries =
            put_entry dir.file_size (record e { index = dir.file_size % 2 ^ 32; parent = dir.self })
              dir.entries;
        file_size = dir.file_size + 1;
      },
    )

-- `memcpy(entry, entry + 1, ..)` of `n` entries, from the lowest on.
pub move_entries : (n i : ℕ) → (ℕ → DirEntry) → ℕ → DirEntry
move_entries zero i es = es
move_entries (suc n) i es = move_entries n (i + 1) (put_entry i (es (i + 1)) es)

-- The size that `dirCacheRemove` gives to `memcpy`, `(dir->fileSize - entry->index - 1) * 64` on 64 bits,
-- in entries.
abbrev pub entries_behind : (file_size index : ℕ) → ℕ
entries_behind file_size index = (file_size + 2 ^ 58 - (index + 1)) % 2 ^ 58

-- `dirCacheRemove` of the entry at `i`: an array of one entry becomes NULL.
pub dir_cache_remove : (i : ℕ) → Dir → Dir
dir_cache_remove i dir =
    let behind = entries_behind dir.file_size (dir.entries i).index in
    record dir {
      entries = move_entries behind i dir.entries;
      file_size = dir.file_size - 1;
      cached_data_size = dir.cached_data_size - entry_size;
      cached_data = not (dir.cached_data_size - entry_size == 0);
      cache_dirty = true;
    }

-- The loop of `memcmp` on the bytes from `i` on, with `n` left: whether they are the same.
pub same_bytes : (n i : ℕ) → (a b : ℕ → ℕ) → Bool
same_bytes zero i a b = true
same_bytes (suc n) i a b = let rest = same_bytes n (i + 1) a b in if a i == b i then rest else false

-- The loop of `strlen`
pub length_from : (fuel : ℕ) (str : Ptr) (result : ℕ) → Mem → Option ℕ
length_from zero str result mem = none
length_from (suc fuel) str result mem =
    let rest = length_from fuel (str + 1) (result + 1) mem in
    if mem str == 0 then some result else rest

-- The bytes of the name of an entry.
abbrev pub name_byte : Mem → DirEntry → ℕ → ℕ
name_byte mem e i = if ltb 31 e.name_len then mem (e.name + i) else e.inline_name i

-- The body of the loop of `dirCacheLookup`: whether the entry has the name.
abbrev pub has_name : (name : Ptr) (name_len : ℕ) → Mem → DirEntry → Bool
has_name name name_len mem e =
    if e.name_len == name_len
    then same_bytes name_len 0 (name_byte mem e) (λ i. mem (name + i))
    else false

-- The loop of `dirCacheLookup` from `i` on, with `n` entries left; `none` is NULL. The index has 32 bits
-- in the source, which is enough for an array in memory.
pub lookup_from : (n i : ℕ) (name : Ptr) (name_len : ℕ) → Mem → (ℕ → DirEntry) → Option ℕ
lookup_from zero i name name_len mem es = none
lookup_from (suc n) i name name_len mem es =
    let rest = lookup_from n (i + 1) name name_len mem es in
    if has_name name name_len mem (es i) then some i else rest

-- `dirCacheLookup`; the outer `none` is that `strlen` ran out of fuel.
pub dir_cache_lookup : (fuel : ℕ) (name : Ptr) → Mem → Dir → Option (Option ℕ)
dir_cache_lookup fuel name mem dir = if not dir.cached_data then some none else do
  name_len ← length_from fuel name 0 mem
  some (lookup_from dir.file_size 0 name name_len mem dir.entries)

-- The loop of `dirCacheDelete`: the names that it frees.
pub freed_names : (n i : ℕ) → (ℕ → DirEntry) → List Ptr
freed_names zero i es = []
freed_names (suc n) i es =
    let rest = freed_names n (i + 1) es in
    if ltb 31 (es i).name_len then (es i).name ∷ rest else rest

-- `dirCacheDelete`: the names that are freed, before the array.
pub dir_cache_delete : Dir → List Ptr
dir_cache_delete dir = freed_names dir.file_size 0 dir.entries

-- The bytes of `f` from `i` on, `n` of them.
unfoldable pub bytes_of : (n i : ℕ) → (ℕ → ℕ) → List ℕ
bytes_of zero i f = []
bytes_of (suc n) i f = f i ∷ bytes_of n (i + 1) f

-- `dirCacheGet`: the length, and where there is an entry its inode and the bytes of the string that is
-- written to `buf->name`.
pub dir_cache_get : (index : ℕ) → Mem → Dir → ℕ × Option (Ptr × List ℕ)
dir_cache_get index mem dir =
    let e = dir.entries index in
    if leb dir.file_size index
    then (0, none)
    else (e.name_len, some (e.inode, bytes_of e.name_len 0 (name_byte mem e) ++ 0 ∷ []))

-- The entries "." and "..", of which the rest is what `kmalloc` left, `old`.
pub dot_entry : (self : Ptr) → DirEntry → DirEntry
dot_entry self old = record old {
  inode = self;
  parent = self;
  index = 0;
  name_len = 1;
  inline_name = λ i. if i == 0 then 46 else if i == 1 then 0 else old.inline_name i;
}

pub dot_dot_entry : (self parent : Ptr) → DirEntry → DirEntry
dot_dot_entry self parent old = record old {
  inode = parent;
  parent = self;
  index = 0;
  name_len = 2;
  inline_name =
      λ i. if i == 0 then 46 else if i == 1 then 46 else if i == 2 then 0 else old.inline_name i;
}

-- `dirCacheInit`
pub dir_cache_init : (kmalloc : Bool) (parent : Ptr) (old : ℕ → DirEntry) → Dir → ℤ × Dir
dir_cache_init kmalloc parent old dir = if not kmalloc then (neg enomem, dir) else (
  pos 0,
  record dir {
    cached_data = true;
    cached_data_size = 2 * entry_size;
    file_size = 2;
    entries =
        put_entry 1 (dot_dot_entry dir.self parent (old 1))
          (put_entry 0 (dot_entry dir.self (old 0)) old);
  },
)
