-- ===== src/Mmap/Create/Found.antt =====
-- What `mmapGetEntry` finds after `mmapCreateEntry`.
use mirai_os.Prelude.{
  ℕ, ◌+◌, ◌<◌, ◌≡◌, ◌≢◌, sym, ◌∙◌, inl, inr, Bool-cases, ◌==◌, some, List, ◌∷◌, ◌++◌, arith, ◌∉◌,
  length, length-append, pos,
}
use mirai_os.Thread.{Ptr, null}
use mirai_os.ThreadQueue.Links.{has-append, ne_of_mem_sym}
use mirai_os.Mmap.{MemoryEntry, Store, mmap_get_entry}
use mirai_os.Mmap.Create.{mmap_create_entry}
use mirai_os.Mmap.Create.Fits.{HasRoom, Inserted}
use mirai_os.Mmap.Create.Insert.{mmap_create_entry-Inserted}
use mirai_os.Mmap.Lookup.{Covers, covered_or_not, mmap_get_entry-Covers}

-- A lookup finds the new entry at its addresses, and elsewhere what it found before.
pub record Adds (fuel : ℕ) (st : Store) (e : MemoryEntry) (q : Ptr) (st' : Store) : Type 0 where
  pub inside : (addr : ℕ) → Covers e addr → mmap_get_entry fuel addr st' ≡ some q
  pub outside :
      (addr : ℕ) → ¬ Covers e addr → mmap_get_entry fuel addr st' ≡ mmap_get_entry fuel addr st

module _ (fuel : ℕ) (st st' : Store) (e : MemoryEntry) (q : Ptr) (xs ys : List Ptr)
    (room : HasRoom st e xs ys) (ins : Inserted st e q xs ys st') (out : q ∉ (xs ++ ys))
    (enough : length (xs ++ ys) + 1 < fuel) where
  size_ok : length (xs ++ q ∷ ys) < fuel
  size_ok = omega (arith, length-append xs (q ∷ ys), length-append xs ys)

  kept_Covers : (p addr : ℕ) → p ≢ q → Covers (st.entries p) addr → Covers (st'.entries p) addr
  kept_Covers p addr ne c = let o = ins.others p ne in rw (o.0, o.1) c

  was_Covers : (p addr : ℕ) → p ≢ q → Covers (st'.entries p) addr → Covers (st.entries p) addr
  was_Covers p addr ne c = let o = ins.others p ne in rw (sym o.0, sym o.1) c

  Inserted-Adds : Adds fuel st e q st'
  Inserted-Adds =
      let new_lookup = λ (addr : ℕ).
        mmap_get_entry-Covers fuel addr st' (xs ++ q ∷ ys) ins.is_map ins.sorted size_ok in
      let old_lookup = λ (addr : ℕ).
        mmap_get_entry-Covers fuel addr st (xs ++ ys) room.is_map room.sorted (omega arith) in
      record {
        inside = λ addr c.
            (new_lookup addr).0 q (ground (arith, has-append q xs (q ∷ ys))) (rw ins.entry c);
        outside = λ addr n. elim (covered_or_not st.entries (xs ++ ys) addr) [
          | inl h ↦
              (let ne : h.0 ≢ q = ne_of_mem_sym h.0 q (xs ++ ys) h.1 out in
                (new_lookup addr).0 h.0
                  (ground (arith, h.1, has-append h.0 xs ys, has-append h.0 xs (q ∷ ys)))
                  (kept_Covers h.0 addr ne h.2)
                ∙ sym ((old_lookup addr).0 h.0 h.1 h.2))
          | inr k ↦
              (new_lookup addr).1 (λ p m. elim (Bool-cases (p == q)) [
                | inl same ↦ (let eq : p ≡ q = ground arith in rw (eq, ins.entry) n)
                | inr ne ↦ λ c.
                    k p (ground (arith, m, has-append p xs ys, has-append p xs (q ∷ ys)))
                      (was_Covers p addr (ground arith) c)
              ])
              ∙ sym ((old_lookup addr).1 k)
        ];
      }

-- On a map with room for the entry `e`, after `mmapCreateEntry` of `e` a lookup of each address of `e`
-- finds the new entry, and a lookup of any other address finds what it found before.
pub mmap_get_entry-mmap_create_entry :
    (fuel : ℕ) (st : Store) (e : MemoryEntry) (q : Ptr) (rest xs ys : List Ptr)
    → HasRoom st e xs ys
    → st.heap ≡ q ∷ rest
    → q ≢ null
    → q ∉ (xs ++ ys)
    → length (xs ++ ys) + 1 < fuel
    → (st' : Store) × (mmap_create_entry fuel e st
        ≡ some (record { error = pos 0; out = some e.vaddr; store = st' }))
      × Adds fuel st e q st'
mmap_get_entry-mmap_create_entry fuel st e q rest xs ys room fresh not_null out enough =
    let made =
      mmap_create_entry-Inserted fuel st e q rest xs ys room fresh not_null out (omega arith) in
    (made.0, made.1, Inserted-Adds fuel st made.0 e q xs ys room made.2 out enough)
