-- ===== src/DirCache/Lookup.antt =====
-- `dirCacheLookup` and `dirCacheAdd` on the names of a directory.
use mirai_os.Prelude.{
  ℕ, zero, suc, ◌+◌, ◌<◌, ◌≡◌, refl, ap, ◌∙◌, inl, inr, Bool-cases, true, not, if◌then◌else◌,
  Option, none, some, ◌>>=◌, List, [], ◌∷◌, ◌++◌, arith, length,
}
use mirai_os.DirCache.{
  Ptr, Mem, DirEntry, Dir, dir_cache_add, dir_cache_lookup, lookup_from, length_from,
}
use mirai_os.DirCache.Each.{length-each, each-dir_cache_add}
use mirai_os.DirCache.Names.{
  entry_name, names, names_from, position, same_list, IsName, has_name-same_list,
  length_from-IsName,
}

lookup_from-position :
    (n i : ℕ) (name : Ptr) (key : List ℕ) (mem : Mem) (es : ℕ → DirEntry)
    → IsName mem name key
    → lookup_from n i name (length key) mem es ≡ position key i (names_from n i mem es)
unfolding lookup_from
lookup_from-position zero i name key mem es h = refl
lookup_from-position (suc n) i name key mem es h =
    ap (λ b. if b then some i else lookup_from n (i + 1) name (length key) mem es)
      (has_name-same_list mem name key (es i) h)
    ∙ ap (λ rest. if same_list (entry_name mem (es i)) key then some i else rest)
        (lookup_from-position n (i + 1) name key mem es h)

-- On a directory in memory, with more fuel than the name has bytes, `dirCacheLookup` is the place of
-- the first entry with this name, byte for byte, whether names are in the entries or elsewhere.
pub dir_cache_lookup-position :
    (fuel : ℕ) (name : Ptr) (key : List ℕ) (mem : Mem) (dir : Dir)
    → dir.cached_data ≡ true
    → IsName mem name key
    → length key < fuel
    → dir_cache_lookup fuel name mem dir ≡ some (position key 0 (names mem dir))
unfolding dir_cache_lookup
dir_cache_lookup-position fuel name key mem dir cached h enough =
    ap
      (λ b.
        if not b
        then some none
        else (length_from fuel name 0 mem >>= λ n.
            some (lookup_from dir.file_size 0 name n mem dir.entries)))
      cached
    ∙ ap (λ o. o >>= λ n. some (lookup_from dir.file_size 0 name n mem dir.entries))
        (length_from-IsName fuel name 0 mem key h enough ∙ ap some (omega arith))
    ∙ ap some (lookup_from-position dir.file_size 0 name key mem dir.entries h)

-- The first of two results that there is.
abbrev pub or_else : Option ℕ → Option ℕ → Option ℕ
or_else none b = b
or_else (some i) b = some i

position-snoc :
    (key new : List ℕ) (i : ℕ) (l : List (List ℕ))
    → position key i (l ++ new ∷ [])
      ≡ or_else (position key i l) (if same_list new key then some (i + length l) else none)
position-snoc key new i [] = ground arith
position-snoc key new i (x ∷ l) =
    let at : i + 1 + length l ≡ i + suc (length l) = omega arith in
    let step =
      position-snoc key new (i + 1) l
      ∙ ap (λ j. or_else (position key (i + 1) l) (if same_list new key then some j else none))
          at in
    elim (Bool-cases (same_list x key)) [ inl e ↦ rw e refl | inr e ↦ rw e step ]

pub still_cached :
    (e : DirEntry) (dir : Dir)
    → dir.cached_data ≡ true
    → ((dir_cache_add true e dir).2).cached_data ≡ true
unfolding dir_cache_add
still_cached e dir c = rw c refl

-- After `dirCacheAdd` has succeeded, a lookup of a name finds what it found before; where it found
-- nothing, it finds the new entry under its name, and nothing under another.
pub dir_cache_lookup-dir_cache_add :
    (fuel : ℕ) (name : Ptr) (key : List ℕ) (mem : Mem) (e : DirEntry) (dir : Dir)
    → dir.cached_data ≡ true
    → IsName mem name key
    → length key < fuel
    → dir_cache_lookup fuel name mem (dir_cache_add true e dir).2
      ≡ some (
          or_else
            (position key 0 (names mem dir))
            (if same_list (entry_name mem e) key then some dir.file_size else none))
dir_cache_lookup-dir_cache_add fuel name key mem e dir cached h enough =
    let added = (dir_cache_add true e dir).2 in
    let last = λ (n : ℕ).
      or_else (position key 0 (names mem dir))
        (if same_list (entry_name mem e) key then some n else none) in
    let len : 0 + length (names mem dir) ≡ dir.file_size =
      omega (arith, length-each (entry_name mem) dir.file_size 0 dir.entries) in
    dir_cache_lookup-position fuel name key mem added (still_cached e dir cached) h enough
    ∙ ap (λ l. some (position key 0 l))
        (each-dir_cache_add (entry_name mem) e dir (λ k p. refl) cached)
    ∙ ap some (position-snoc key (entry_name mem e) 0 (names mem dir))
    ∙ ap (λ n. some (last n)) len
