-- ===== src/Link/Tests.antt =====
-- Instances of the theorems on links, kernel/fs/link.c
use mathlib.Core.Path.{subst}
use mirai_os.Prelude.{
  ℕ, ◌≡◌, ◌==◌, ◌||◌, ltb, refl, true, false, if◌then◌else◌, some, [], ◌∷◌, arith, ℤ, pos,
}
use mirai_os.DirCache.{Ptr, DirEntry, bytes_of}
use mirai_os.DirCache.Names.{IsName, names, position}
use mirai_os.Link.{LinkState, fs_link, fs_unlink}
use mirai_os.Link.Counts.{IsCounted, fs_link-IsCounted}
use mirai_os.Link.Unlink.{fs_unlink-IsCounted}

-- The directory 60, in 61, with ".", ".." and "a", of the inode 70. The string "a" is at 100.
abbrev file_a : DirEntry
file_a = record {
  inode = 70;
  parent = 60;
  index = 2;
  name_len = 1;
  name = 0;
  inline_name = λ i. if i == 0 then 97 else 0;
}

-- One or two bytes ".".
abbrev dots : (inode len : ℕ) → DirEntry
dots inode len = record file_a {
  inode = inode;
  index = 0;
  name_len = len;
  inline_name = λ i. if ltb i len then 46 else 0;
}

abbrev state : LinkState
state = record {
  dir = record {
    self = 60;
    file_size = 3;
    cached_data = true;
    cached_data_size = 192;
    cache_dirty = false;
    entries = λ i. if i == 0 then dots 60 1 else if i == 1 then dots 61 2 else file_a;
  };
  inodes = λ p. record {
    type_bits = 2;
    nrof_links = if (p == 70) || (p == 60) || (p == 61) then 1 else 0;
    ramfs = 1;
    file_size = 0;
    has_cache = false;
    has_del = false;
  };
  mem = λ a. if a == 100 then 97 else 0;
  heap = 0;
  freed = [];
  deleted = [];
}

abbrev no_others : Ptr → ℕ
no_others x = 0

state-IsCounted : IsCounted state no_others
state-IsCounted = record { cached = refl; counts = λ x. ground arith; small = λ x. ground arith }

key-IsName : IsName state.mem 100 (97 ∷ [])
key-IsName = (refl, refl, refl)

fs_link-IsCounted_example :
    (r : ℤ × LinkState) × (fs_link 2 true file_a 70 100 state ≡ some r) × IsCounted r.1 no_others
fs_link-IsCounted_example =
    fs_link-IsCounted no_others 2 file_a 70 100 (97 ∷ []) state state-IsCounted key-IsName
      (omega arith) (omega arith)

-- The entry "a" is the third.
found_a : position (97 ∷ []) 0 (names state.mem state.dir) ≡ some 2
unfolding bytes_of
found_a = refl

fs_unlink-IsCounted_example :
    (r : ℤ × LinkState) × (fs_unlink 2 (λ p. pos 0) 100 state ≡ some r) × IsCounted r.1 no_others
fs_unlink-IsCounted_example =
    fs_unlink-IsCounted 2 (λ p. pos 0) 100 (97 ∷ []) state no_others state-IsCounted key-IsName
      (omega arith) (λ p. refl) (omega arith) (omega arith)
      (λ i e.
        let at : 2 ≡ i = ground (arith, found_a, e) in
        subst (λ j. (state.dir.entries j).index ≡ j) at refl)
