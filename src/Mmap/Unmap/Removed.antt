-- ===== src/Mmap/Unmap/Removed.antt =====
-- What `mmapGetEntry` finds after `sysMunmap` of a range that takes the ends of entries.
use mirai_os.Prelude.{
  ℕ, ◌+◌, ◌%◌, ◌^◌, ◌≤◌, ◌<◌, ◌≡◌, ◌⊎◌, ◌↔◌, sym, ap, ◌∙◌, inl, inr, ◌==◌, false, not, ◌||◌, some,
  List, [], ◌∷◌, arith, ◌∈◌, length, pos, truth,
}
use mirai_os.Thread.{Ptr, null}
use mirai_os.Mmap.{MemoryEntry, Store, add64, mmap_get_entry}
use mirai_os.Mmap.Lists.{IsMap, IsSorted, Chain-same_links, IsSorted-shorter}
use mirai_os.Mmap.Lookup.{Covers, covered_or_not, mmap_get_entry-Covers}
use mirai_os.Mmap.Create.{validate_user_pointer, page_size}
use mirai_os.Mmap.Create.Checks.{validate_user_pointer-low}
use mirai_os.Mmap.Unmap.{unmap_from, sys_munmap}
use mirai_os.Mmap.Unmap.Cut.{IsCut, CutEntries, unmap_from-CutEntries, cut-shorter, cut-Covers}

IsSorted-small :
    (es : Ptr → MemoryEntry) (xs : List Ptr)
    → IsSorted es xs
    → (p : Ptr) → p ∈ xs
    → (es p).vaddr + (es p).size < 2 ^ 64
IsSorted-small es [] s p m = absurd (ground arith)
IsSorted-small es (x ∷ xs) s p m = ground (arith, s.0, IsSorted-small es xs s.2 p)

-- The map behind the call: lookups find nothing in the range, and elsewhere what they found before.
pub record Removed (fuel : ℕ) (st st' : Store) (addr end : ℕ) (xs : List Ptr) : Type 0 where
  pub is_map : IsMap st' xs
  pub sorted : IsSorted st'.entries xs
  pub inside : (a : ℕ) → addr ≤ a → a < end → mmap_get_entry fuel a st' ≡ some null
  pub outside :
      (a : ℕ) → (a < addr) ⊎ (end ≤ a) → mmap_get_entry fuel a st' ≡ mmap_get_entry fuel a st

module _ (fuel : ℕ) (st st' : Store) (addr end : ℕ) (xs : List Ptr) (is : IsMap st xs)
    (s : IsSorted st.entries xs) (le : addr ≤ end)
    (c : (p : Ptr) → p ∈ xs → IsCut addr end (st.entries p)) (done : CutEntries st st' addr end xs)
    (enough : length xs < fuel) where
  now_Covers :
      (p a : ℕ)
      → p ∈ xs
      → Covers (st'.entries p) a ↔ (Covers (st.entries p) a × ((a < addr) ⊎ (end ≤ a)))
  now_Covers p a m =
      rw (done.inside p m)
        (cut-Covers addr end a (st.entries p) le (IsSorted-small st.entries xs s p m) (c p m))

  CutEntries-IsMap : IsMap st' xs
  CutEntries-IsMap = record {
    first = done.first ∙ is.first;
    last = done.last ∙ is.last;
    links =
        Chain-same_links st.entries st'.entries null null xs
          (λ p m.
            let k =
              cut-shorter addr end (st.entries p) le (IsSorted-small st.entries xs s p m) (c p m) in
            rw (done.inside p m) (k.2, k.3))
          is.links;
  }

  CutEntries-IsSorted : IsSorted st'.entries xs
  CutEntries-IsSorted =
      IsSorted-shorter st.entries st'.entries xs
        (λ p m.
          let k =
            cut-shorter addr end (st.entries p) le (IsSorted-small st.entries xs s p m) (c p m) in
          rw (done.inside p m) (k.0, k.1))
        s

  CutEntries-Removed : Removed fuel st st' addr end xs
  CutEntries-Removed =
      let found = λ (a : ℕ).
        mmap_get_entry-Covers fuel a st' xs CutEntries-IsMap CutEntries-IsSorted enough in
      let found_before = λ (a : ℕ). mmap_get_entry-Covers fuel a st xs is s enough in
      record {
        is_map = CutEntries-IsMap;
        sorted = CutEntries-IsSorted;
        inside = λ a low high. (found a).1 (λ p m h. elim ((now_Covers p a m).0 h).1 [
          | inl lt ↦ omega arith
          | inr gt ↦ omega arith
        ]);
        outside = λ a out. elim (covered_or_not st.entries xs a) [
          | inl h ↦
              (found a).0 h.0 h.1 ((now_Covers h.0 a h.1).1 (h.2, out))
              ∙ sym ((found_before a).0 h.0 h.1 h.2)
          | inr k ↦
              (found a).1 (λ p m h. k p m ((now_Covers p a m).0 h).0) ∙ sym ((found_before a).1 k)
        ];
      }

-- On a sorted map of the entries `xs`, `sysMunmap` of a range of whole pages below 2^47, which misses
-- each entry or takes its end and not its beginning, returns 0 and leaves a sorted map of `xs`, in
-- which a lookup of an address of the range finds nothing, and a lookup of any other address what it
-- found before.
pub sys_munmap-Removed :
    (fuel addr size : ℕ) (st : Store) (xs : List Ptr)
    → IsMap st xs
    → IsSorted st.entries xs
    → ((p : Ptr) → p ∈ xs → IsCut addr (addr + size) (st.entries p))
    → addr % page_size ≡ 0
    → size % page_size ≡ 0
    → addr < 2 ^ 47
    → size ≤ 2 ^ 47
    → length xs < fuel
    → (st' : Store) × (sys_munmap fuel addr size st ≡ some (pos 0, st'))
      × Removed fuel st st' addr (addr + size) xs
unfolding sys_munmap
sys_munmap-Removed fuel addr size st xs is s c page pages low small enough =
    let done =
      unmap_from-CutEntries addr (addr + size) size (omega arith) (omega arith) fuel null st xs
        is.links s c enough in
    let end : add64 addr size ≡ addr + size = ground arith in
    let valid : truth (validate_user_pointer addr size) ≡ false =
      validate_user_pointer-low addr size low small in
    let whole : (not (addr % page_size == 0) || not (size % page_size == 0)) ≡ false =
      ground arith in
    (
      done.0,
      rw (valid, whole)
          (ap (λ e. unmap_from fuel st.first_mem_entry addr e size st) end
            ∙ ap (λ p. unmap_from fuel p addr (addr + size) size st) is.first
            ∙ done.1),
      CutEntries-Removed fuel st done.0 addr (addr + size) xs is s (omega arith) c done.2 enough,
    )
