-- ===== src/DirCache/Tests.antt =====
-- Instances of the theorems on directories in memory, kernel/fs/dircache.c
use mirai_os.Prelude.{
  ◌-◌, ◌^◌, ◌≡◌, ◌==◌, refl, true, false, if◌then◌else◌, none, some, [], ◌∷◌, arith,
}
use mirai_os.DirCache.{
  Mem, DirEntry, Dir, dir_cache_lookup, dir_cache_add, dir_cache_remove, entries_behind, dot_entry,
  dot_dot_entry, bytes_of,
}
use mirai_os.DirCache.Names.{IsName, names, entry_name, position, same_list}
use mirai_os.DirCache.Lookup.{dir_cache_lookup-position, dir_cache_lookup-dir_cache_add, or_else}
use mirai_os.DirCache.Change.{dir_cache_remove-overruns}

-- The string "a" at 100.
abbrev memory : Mem
memory a = if a == 100 then 97 else 0

abbrev file_a : DirEntry
file_a = record {
  inode = 70;
  parent = 0;
  index = 2;
  name_len = 1;
  name = 0;
  inline_name = λ i. if i == 0 then 97 else 0;
}

-- ".", ".." and a file "a".
abbrev dir : Dir
dir = record {
  self = 60;
  file_size = 3;
  cached_data = true;
  cached_data_size = 192;
  cache_dirty = false;
  entries = λ i.
      if i == 0 then dot_entry 60 file_a else if i == 1 then dot_dot_entry 60 61 file_a else file_a;
}

IsName-a : IsName memory 100 (97 ∷ [])
IsName-a = (refl, refl, refl)

dir_cache_lookup-position_example :
    dir_cache_lookup 2 100 memory dir ≡ some (position (97 ∷ []) 0 (names memory dir))
dir_cache_lookup-position_example =
    dir_cache_lookup-position 2 100 (97 ∷ []) memory dir refl IsName-a (omega arith)

dir_cache_lookup-dir_cache_add_example :
    dir_cache_lookup 2 100 memory (dir_cache_add true file_a dir).2
    ≡ some (
        or_else
          (position (97 ∷ []) 0 (names memory dir))
          (if same_list (entry_name memory file_a) (97 ∷ []) then some 3 else none))
dir_cache_lookup-dir_cache_add_example =
    dir_cache_lookup-dir_cache_add 2 100 (97 ∷ []) memory file_a dir refl IsName-a (omega arith)

-- "." and then "a".
dir_cache_remove-overruns_example :
    let dir1 = dir_cache_remove 0 dir in
    entries_behind dir1.file_size (dir1.entries (dir1.file_size - 1)).index ≡ 2 ^ 58 - 1
unfolding dot_entry
dir_cache_remove-overruns_example =
    dir_cache_remove-overruns 0 dir (omega arith) (omega arith) refl refl

-- The entry found is the third.
found_a : position (97 ∷ []) 0 (names memory dir) ≡ some 2
unfolding bytes_of dot_entry dot_dot_entry
found_a = refl
