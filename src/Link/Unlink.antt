-- ===== src/Link/Unlink.antt =====
-- `fsUnlink` keeps the counts of links.
use mathlib.Core.Path.{subst}
use mirai_os.Prelude.{
  ℕ, ◌+◌, ◌-◌, ◌%◌, ◌^◌, ◌<◌, ◌≡◌, ◌⊎◌, ◌==◌, ◌/◌, ◌||◌, refl, sym, ap, ◌∙◌, inl, inr, Bool-cases,
  true, false, not, ltb, ◌&&◌, Option, none, some, ◌>>=◌, List, arith, length, get_elem?, ℤ, pos,
  truth,
}
use mirai_os.DirCache.{Ptr, DirEntry, Dir, entry_size, dir_cache_remove}
use mirai_os.DirCache.Each.{each, without, length-each, each-dir_cache_remove, get_elem?-each}
use mirai_os.DirCache.Names.{IsName, names, entry_name, position}
use mirai_os.DirCache.Lookup.{dir_cache_lookup-position}
use mirai_os.DirCache.Change.{dir_cache_remove-cached_data}
use mirai_os.Link.{
  Inode, LinkState, is_dir, itype, put_inode, delete_inode, drop_link, unlink_inode, unlink_found,
  fs_unlink,
}
use mirai_os.Link.Counts.{count, links_to, IsCounted, count-without, position-lt}

delete_inode-keeps :
    (cache_deleted : Ptr → ℤ) (p : Ptr) (w : LinkState)
    → cache_deleted p ≡ pos 0
    → let u = delete_inode cache_deleted p w in
      (truth u.0 ≡ false) × (u.1.dir ≡ w.dir) × (u.1.inodes ≡ w.inodes)
unfolding delete_inode
delete_inode-keeps cache_deleted p w ok =
    let i = w.inodes p in
    elim (Bool-cases (i.ramfs == 0)) [
      | inl e ↦ rw e (refl, refl, refl)
      | inr e ↦ elim (Bool-cases (i.has_cache && (is_dir i || (i.ramfs / 2 % 2 == 0)))) [
        | inl cache ↦ rw (e, cache, ok) (refl, refl, refl)
        | inr plain ↦ rw (e, plain) (refl, refl, refl)
      ]
    ]

-- The inodes after one link to `p` is taken.
abbrev one_less : Ptr → LinkState → Ptr → Inode
one_less p w =
    put_inode p
      (record (w.inodes p) { nrof_links = ((w.inodes p).nrof_links + 2 ^ 32 - 1) % 2 ^ 32 })
      w.inodes

drop_link-keeps :
    (cache_deleted : Ptr → ℤ) (p : Ptr) (w : LinkState)
    → cache_deleted p ≡ pos 0
    → let u = drop_link cache_deleted p w in
      (truth u.0 ≡ false) × (u.1.dir ≡ w.dir) × (u.1.inodes ≡ one_less p w)
unfolding drop_link
drop_link-keeps cache_deleted p w ok =
    let i = w.inodes p in
    let w1 = record w { inodes = one_less p w } in
    elim (Bool-cases (not (((i.nrof_links + 2 ^ 32 - 1) % 2 ^ 32) == 0))) [
      | inl left ↦ rw left (refl, refl, refl)
      | inr last ↦ elim (Bool-cases (itype i == 3)) [
        | inl device ↦ elim (Bool-cases i.has_del) [
          | inl del ↦ rw (last, device, del) (refl, refl, refl)
          | inr plain ↦ rw (last, device, plain) (refl, refl, refl)
        ]
        | inr file ↦ rw (last, file) (delete_inode-keeps cache_deleted p w1 ok)
      ]
    ]

-- `unlinkInode` refuses and changes nothing, or takes one link.
unlink_inode-cases :
    (cache_deleted : Ptr → ℤ) (p : Ptr) (w : LinkState)
    → cache_deleted p ≡ pos 0
    → let u = unlink_inode cache_deleted p w in
      ((truth u.0 ≡ true) × (u.1 ≡ w))
      ⊎ ((truth u.0 ≡ false) × (u.1.dir ≡ w.dir) × (u.1.inodes ≡ one_less p w))
unfolding unlink_inode
unlink_inode-cases cache_deleted p w ok =
    let i = w.inodes p in
    elim (Bool-cases (i.ramfs == 0)) [
      | inl e ↦ inl (rw e (refl, refl))
      | inr e ↦ elim (Bool-cases ((i.nrof_links == 1) && is_dir i && ltb 2 i.file_size)) [
        | inl full ↦ inl (rw (e, full) (refl, refl))
        | inr empty ↦ inr (rw (e, empty) (drop_link-keeps cache_deleted p w ok))
      ]
    ]

module _ (outer : Ptr → ℕ) (i : ℕ) (w : LinkState) (c : IsCounted w outer) where
  -- The counts after the entry at `i` and a link to its inode are gone.
  removed-IsCounted :
      (w1 : LinkState)
      → i < w.dir.file_size
      → w.dir.file_size < 2 ^ 32
      → entry_size < w.dir.cached_data_size
      → (w.dir.entries i).index ≡ i
      → w1.inodes ≡ one_less (w.dir.entries i).inode w
      → w1.dir ≡ dir_cache_remove i w.dir
      → IsCounted w1 outer
  removed-IsCounted w1 lt small more at e d =
      let p = (w.dir.entries i).inode in
      let l = each DirEntry.inode w.dir.file_size 0 w.dir.entries in
      let first : 0 + i ≡ i = omega arith in
      let removed = each-dir_cache_remove DirEntry.inode i w.dir lt small at in
      let here : get_elem? l i ≡ some p =
        get_elem?-each DirEntry.inode w.dir.file_size 0 i w.dir.entries lt
        ∙ ap (λ j. some (w.dir.entries j).inode) first in
      let now : (x : Ptr) → links_to x w1.dir ≡ count x (without i l) =
        λ x. ap (links_to x) d ∙ ap (count x) removed in
      let own : (x : Ptr) → w1.inodes x ≡ one_less p w x = λ x. ap (λ f. f x) e in
      record {
        cached = ap Dir.cached_data d ∙ dir_cache_remove-cached_data i w.dir more;
        counts = λ x. elim (Bool-cases (x == p)) [
          | inl same ↦
              ground (arith, own x, now x, count-without x p i l here, c.counts x, c.small x)
          | inr other ↦
              ground (arith, own x, now x, count-without x p i l here, c.counts x, c.small x)
        ];
        small = λ x. ground (arith, own x, c.small x);
      }

unlink_found-IsCounted :
    (cache_deleted : Ptr → ℤ) (outer : Ptr → ℕ) (w : LinkState) (key : List ℕ) (found : Option ℕ)
    → position key 0 (names w.mem w.dir) ≡ found
    → IsCounted w outer
    → ((p : Ptr) → cache_deleted p ≡ pos 0)
    → w.dir.file_size < 2 ^ 32
    → entry_size < w.dir.cached_data_size
    → ((i : ℕ) → position key 0 (names w.mem w.dir) ≡ some i → (w.dir.entries i).index ≡ i)
    → IsCounted (unlink_found cache_deleted found w).1 outer
unfolding unlink_found
unlink_found-IsCounted cache_deleted outer w key none e c ok small more at = c
unlink_found-IsCounted cache_deleted outer w key (some i) e c ok small more at =
    let p = (w.dir.entries i).inode in
    let len = length-each (entry_name w.mem) w.dir.file_size 0 w.dir.entries in
    let lt : i < w.dir.file_size = omega (arith, position-lt key 0 i (names w.mem w.dir) e, len) in
    elim (unlink_inode-cases cache_deleted p w (ok p)) [
      | inl h ↦ rw h.0 (subst (λ w1. IsCounted w1 outer) (sym h.1) c)
      | inr h ↦
          rw h.0 (
            removed-IsCounted outer i w c _ lt small more (at i e) h.2
              (ap (dir_cache_remove i) h.1))
    ]

-- Where each inode counts the entries of the directory and `outer` others, and the entry with the name
-- `key`, if there is one, has its place in the field `index`, it does so after `fsUnlink` of `key`,
-- whether that succeeds or not, if deleting an inode reports no error and the array has more than one
-- entry, so that `krealloc` does not make it NULL. Fuel above the length of the name is enough.
pub fs_unlink-IsCounted :
    (fuel : ℕ) (cache_deleted : Ptr → ℤ) (name : Ptr) (key : List ℕ) (w : LinkState)
    (outer : Ptr → ℕ)
    → IsCounted w outer
    → IsName w.mem name key
    → length key < fuel
    → ((p : Ptr) → cache_deleted p ≡ pos 0)
    → w.dir.file_size < 2 ^ 32
    → entry_size < w.dir.cached_data_size
    → ((i : ℕ) → position key 0 (names w.mem w.dir) ≡ some i → (w.dir.entries i).index ≡ i)
    → (r : ℤ × LinkState) × (fs_unlink fuel cache_deleted name w ≡ some r) × IsCounted r.1 outer
unfolding fs_unlink
fs_unlink-IsCounted fuel cache_deleted name key w outer c is enough ok small more at =
    let found = position key 0 (names w.mem w.dir) in
    (
      unlink_found cache_deleted found w,
      ap (λ o. o >>= λ f. some (unlink_found cache_deleted f w))
          (dir_cache_lookup-position fuel name key w.mem w.dir c.cached is enough),
      unlink_found-IsCounted cache_deleted outer w key found refl c ok small more at,
    )
