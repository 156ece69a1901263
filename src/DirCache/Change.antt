-- ===== src/DirCache/Change.antt =====
-- `dirCacheRemove` on the names of a directory, and the size of its array.
use mirai_os.Prelude.{ℕ, ◌+◌, ◌-◌, ◌^◌, ◌<◌, ◌≡◌, ap, ◌∙◌, true, arith}
use mirai_os.DirCache.{DirEntry, Dir, entry_size, move_entries, entries_behind, dir_cache_remove}
use mirai_os.DirCache.Each.{move_entries-at}

-- Where the entry at `i` and the last one, behind it, have their places in the field `index`, after
-- `dirCacheRemove` of the entry at `i` `dirCacheRemove` of the last entry gives `memcpy`
-- the size of 2^58 - 1 entries, since that entry still has its old place in the field.
pub dir_cache_remove-overruns :
    (i : ℕ) (dir : Dir)
    → i + 1 < dir.file_size
    → dir.file_size < 2 ^ 32
    → (dir.entries i).index ≡ i
    → (dir.entries (dir.file_size - 1)).index ≡ dir.file_size - 1
    → let dir1 = dir_cache_remove i dir in
      entries_behind dir1.file_size (dir1.entries (dir1.file_size - 1)).index ≡ 2 ^ 58 - 1
unfolding dir_cache_remove
dir_cache_remove-overruns i dir lt small own own_last =
    let last = dir.file_size - 1 - 1 in
    let behind = entries_behind dir.file_size (dir.entries i).index in
    let count : behind ≡ dir.file_size - 1 - i = ground (arith, own) in
    let moved : move_entries behind i dir.entries last ≡ dir.entries (last + 1) =
      move_entries-at behind i last dir.entries ∙ ground arith in
    let stale : (move_entries behind i dir.entries last).index ≡ dir.file_size - 1 =
      let at : last + 1 ≡ dir.file_size - 1 = omega arith in
      ap DirEntry.index moved ∙ ap (λ j. (dir.entries j).index) at ∙ own_last in
    rw stale (omega arith)

-- An array of more than one entry stays.
pub dir_cache_remove-cached_data :
    (i : ℕ) (dir : Dir)
    → entry_size < dir.cached_data_size
    → (dir_cache_remove i dir).cached_data ≡ true
unfolding dir_cache_remove
dir_cache_remove-cached_data i dir lt = ground arith
