-- ===== src/Link/Counts.antt =====
-- The field `nrofLinks` of the inodes counts the entries that lead to them.
use mirai_os.Prelude.{
  ℕ, zero, suc, ◌+◌, ◌^◌, ◌<◌, ◌≡◌, ◌==◌, refl, ap, ◌∙◌, inl, inr, Bool-cases, true, not, ltb, ◌&&◌,
  if◌then◌else◌, some, ◌>>=◌, List, [], ◌∷◌, ◌++◌, arith, length, get_elem?, ℤ, neg,
}
use mirai_os.DirCache.{Ptr, Mem, DirEntry, Dir}
use mirai_os.DirCache.Each.{each, without, each-dir_cache_add}
use mirai_os.DirCache.Names.{IsName, position, same_list, length_from-IsName}
use mirai_os.DirCache.Lookup.{still_cached}
use mirai_os.Link.{LinkState, is_dir, make_entry, link_entry, link_made, fs_link, eisdir}

-- How often `x` is in the list.
abbrev pub count : (x : ℕ) → List ℕ → ℕ
count x [] = 0
count x (y ∷ ys) = (if y == x then 1 else 0) + count x ys

-- The entries of the directory that lead to the inode `x`.
abbrev pub links_to : (x : Ptr) → Dir → ℕ
links_to x dir = count x (each DirEntry.inode dir.file_size 0 dir.entries)

-- Each inode counts the entries of the directory, and `outer` others, that lead to it.
pub record IsCounted (w : LinkState) (outer : Ptr → ℕ) : Type 0 where
  pub cached : w.dir.cached_data ≡ true
  pub counts : (x : Ptr) → (w.inodes x).nrof_links ≡ links_to x w.dir + outer x
  pub small : (x : Ptr) → (w.inodes x).nrof_links < 2 ^ 32

count-snoc : (x y : ℕ) (l : List ℕ) → count x (l ++ y ∷ []) ≡ count x l + (if y == x then 1 else 0)
count-snoc x y [] = omega arith
count-snoc x y (z ∷ l) = omega (arith, count-snoc x y l)

pub count-without :
    (x y i : ℕ) (l : List ℕ)
    → get_elem? l i ≡ some y
    → count x l ≡ count x (without i l) + (if y == x then 1 else 0)
count-without x y i [] h = absurd (ground arith)
count-without x y zero (z ∷ l) h = ground arith
count-without x y (suc i) (z ∷ l) h = omega (arith, count-without x y i l h)

pub position-lt :
    (key : List ℕ) (i j : ℕ) (l : List (List ℕ)) → position key i l ≡ some j → j < i + length l
position-lt key i j [] h = absurd (ground arith)
position-lt key i j (x ∷ l) h = elim (Bool-cases (same_list x key)) [
  | inl e ↦ ground arith
  | inr e ↦ (let rest = position-lt key (i + 1) j l (ground arith) in omega arith)
]

module _ (outer : Ptr → ℕ) where
  link_entry-IsCounted :
      (inode : Ptr) (e : DirEntry) (mem : Mem) (w : LinkState)
      → IsCounted w outer
      → e.inode ≡ inode
      → (w.inodes inode).nrof_links + 1 < 2 ^ 32
      → IsCounted (link_entry true inode (e, mem) w).1 outer
  unfolding link_entry
  link_entry-IsCounted inode e mem w c to small =
      let added = each-dir_cache_add DirEntry.inode e w.dir (λ k p. refl) c.cached in
      record {
        cached = still_cached e w.dir c.cached;
        counts = λ x. ground (
          arith,
          ap (count x) added,
          count-snoc x e.inode (each DirEntry.inode w.dir.file_size 0 w.dir.entries),
          c.counts x,
          c.small x,
        );
        small = λ x. ground (arith, c.small x);
      }

  link_made-IsCounted :
      (inode name len heap : ℕ) (old : DirEntry) (w : LinkState)
      → IsCounted w outer
      → (w.inodes inode).nrof_links + 1 < 2 ^ 32
      → IsCounted (link_made true inode (make_entry inode name len heap old w.mem) w).1 outer
  unfolding make_entry
  link_made-IsCounted inode name len heap old w c small = elim (Bool-cases (ltb len 32)) [
    | inl e ↦ rw e (link_entry-IsCounted inode _ w.mem w c refl small)
    | inr e ↦ elim (Bool-cases (heap == 0)) [
      | inl none_left ↦ rw (e, none_left) c
      | inr got ↦ rw (e, got) (link_entry-IsCounted inode _ _ w c refl small)
    ]
  ]

  -- Where each inode counts the entries of the directory and `outer` others, it does so after `fsLink`
  -- of an inode with fewer than 2^32 - 1 links under the name `key`, whether that succeeds or not, if
  -- the array can grow. Fuel above the length of the name is enough.
  pub fs_link-IsCounted :
      (fuel : ℕ) (old : DirEntry) (inode name : Ptr) (key : List ℕ) (w : LinkState)
      → IsCounted w outer
      → IsName w.mem name key
      → length key < fuel
      → (w.inodes inode).nrof_links + 1 < 2 ^ 32
      → (r : ℤ × LinkState) × (fs_link fuel true old inode name w ≡ some r) × IsCounted r.1 outer
  unfolding fs_link
  fs_link-IsCounted fuel old inode name key w c is enough small =
      let i = w.inodes inode in
      let made = make_entry inode name (length key) w.heap old w.mem in
      elim (Bool-cases (not (i.nrof_links == 0) && is_dir i)) [
        | inl refused ↦ ((neg eisdir, w), rw refused refl, c)
        | inr ok ↦ (
          link_made true inode made w,
          rw ok (
              ap
                (λ o. o >>= λ len.
                  some (link_made true inode (make_entry inode name len w.heap old w.mem) w))
                (length_from-IsName fuel name 0 w.mem key is enough ∙ ap some (omega arith))),
          link_made-IsCounted inode name (length key) w.heap old w c small,
        )
      ]
