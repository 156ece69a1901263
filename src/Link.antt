-- ===== src/Link.antt =====
-- Links to inodes, kernel/fs/link.c, on one directory and the inodes that it names. The directory is
-- not one of them. Parameters: whether `kmalloc` and a `krealloc` to more bytes succeed, and the results of
-- `dirCacheDelete` and of `fsTruncate` on an inode. A device's `ops->del` is recorded.
pub mod Counts
pub mod Unlink
mod Tests
use mirai_os.Prelude.{
  ℕ, zero, suc, ◌+◌, ◌-◌, ◌*◌, ◌%◌, ◌^◌, ◌/◌, ◌==◌, ltb, leb, Bool, true, false, not, ◌&&◌, ◌||◌,
  if◌then◌else◌, Option, none, some, ◌>>=◌, List, [], ◌∷◌, ◌++◌, ℤ, pos, neg, truth,
}
use mirai_os.DirCache.{
  Ptr, Mem, DirEntry, Dir, dir_cache_add, dir_cache_remove, dir_cache_lookup, length_from,
  name_byte,
}

abbrev pub eisdir : ℕ
eisdir = 6

abbrev pub enoent : ℕ
enoent = 5

abbrev pub enosys : ℕ
enosys = 7

abbrev pub enomem : ℕ
enomem = 14

abbrev pub enotempty : ℕ
enotempty = 19

-- The part of `struct Inode` that these functions use of a link's inode.
pub record Inode : Type 0 where
  pub type_bits : ℕ
  pub nrof_links : ℕ
  pub ramfs : ℕ
  pub file_size : ℕ
  pub has_cache : Bool
  pub has_del : Bool

-- The directory, the inodes, the bytes of names, what `kmalloc` returns next, the inodes that are freed
-- and the devices that are deleted.
pub record LinkState : Type 0 where
  pub dir : Dir
  pub inodes : Ptr → Inode
  pub mem : Mem
  pub heap : Ptr
  pub freed : List Ptr
  pub deleted : List Ptr

abbrev pub itype : Inode → ℕ
itype i = i.type_bits % 8

abbrev pub is_dir : Inode → Bool
is_dir i = itype i == 1

abbrev pub put_inode : Ptr → Inode → (Ptr → Inode) → Ptr → Inode
put_inode p v inodes q = if q == p then v else inodes q

-- The bytes at `p` are those of the string at `name`, with a 0 behind.
abbrev pub copy_name : (p name len : ℕ) → Mem → Mem
copy_name p name len mem a =
    if leb p a && ltb a (p + len) then mem (name + (a - p)) else if a == p + len then 0 else mem a

-- The entry that `fsLink` makes, with the memory; `none` where `kmalloc` fails. What else the entry on
-- the stack has is `old`.
pub make_entry : (inode name len heap : ℕ) (old : DirEntry) → Mem → Option (DirEntry × Mem)
make_entry inode name len heap old mem =
    if ltb len 32
    then some (
      record old {
        inode = inode;
        name_len = len;
        inline_name =
            λ i. if ltb i len then mem (name + i) else if i == len then 0 else old.inline_name i;
      },
      mem,
    )
    else if heap == 0
    then none
    else some
        (record old { inode = inode; name_len = len; name = heap }, copy_name heap name len mem)

-- `fsLink` behind the entry; the result of `dirCacheAdd` is not tested.
pub link_entry : (krealloc : Bool) (inode : Ptr) → DirEntry × Mem → LinkState → ℤ × LinkState
link_entry krealloc inode (e, mem) w =
    let i = w.inodes inode in
    (
      pos 0,
      record w {
        mem = mem;
        inodes = put_inode inode (record i { nrof_links = (i.nrof_links + 1) % 2 ^ 32 }) w.inodes;
        dir = (dir_cache_add krealloc e w.dir).2;
      },
    )

abbrev link_made :
    (krealloc : Bool) (inode : Ptr) → Option (DirEntry × Mem) → LinkState → ℤ × LinkState
link_made krealloc inode none w = (neg enomem, w)
link_made krealloc inode (some made) w = link_entry krealloc inode made w

-- `fsLink`
pub fs_link :
    (fuel : ℕ) (krealloc : Bool) (old : DirEntry) (inode name : Ptr)
    → LinkState
    → Option (ℤ × LinkState)
fs_link fuel krealloc old inode name w =
    let i = w.inodes inode in
    if not (i.nrof_links == 0) && is_dir i then some (neg eisdir, w) else do
      len ← length_from fuel name 0 w.mem
      some (link_made krealloc inode (make_entry inode name len w.heap old w.mem) w)

-- `deleteInode`; `cache_deleted` is the result of `dirCacheDelete` or of `fsTruncate`.
pub delete_inode : (cache_deleted : Ptr → ℤ) → Ptr → LinkState → ℤ × LinkState
delete_inode cache_deleted p w =
    let i = w.inodes p in
    let error =
      if i.has_cache && (is_dir i || (i.ramfs / 2 % 2 == 0)) then cache_deleted p else pos 0 in
    if i.ramfs == 0 then (pos 0, w) else (error, record w { freed = p ∷ w.freed })

-- `unlinkInode` where a link is taken.
pub drop_link : (cache_deleted : Ptr → ℤ) → Ptr → LinkState → ℤ × LinkState
drop_link cache_deleted p w =
    let i = w.inodes p in
    let links = (i.nrof_links + 2 ^ 32 - 1) % 2 ^ 32 in
    let w1 = record w { inodes = put_inode p (record i { nrof_links = links }) w.inodes } in
    if not (links == 0)
    then (pos 0, w1)
    else if itype i == 3
    then (pos 0, if i.has_del then record w1 { deleted = p ∷ w1.deleted } else w1)
    else delete_inode cache_deleted p w1

-- `unlinkInode`
pub unlink_inode : (cache_deleted : Ptr → ℤ) → Ptr → LinkState → ℤ × LinkState
unlink_inode cache_deleted p w =
    let i = w.inodes p in
    if i.ramfs == 0
    then (neg enosys, w)
    else if (i.nrof_links == 1) && is_dir i && ltb 2 i.file_size
    then (neg enotempty, w)
    else drop_link cache_deleted p w

-- `fsUnlink` of what the lookup has found.
pub unlink_found : (cache_deleted : Ptr → ℤ) → Option ℕ → LinkState → ℤ × LinkState
unlink_found cache_deleted none w = (neg enoent, w)
unlink_found cache_deleted (some i) w =
    let u = unlink_inode cache_deleted (w.dir.entries i).inode w in
    if truth u.0 then u else (u.0, record u.1 { dir = dir_cache_remove i u.1.dir })

-- `fsUnlink`
pub fs_unlink :
    (fuel : ℕ) (cache_deleted : Ptr → ℤ) (name : Ptr) → LinkState → Option (ℤ × LinkState)
fs_unlink fuel cache_deleted name w = do
  found ← dir_cache_lookup fuel name w.mem w.dir
  some (unlink_found cache_deleted found w)
