-- ===== src/Mmap/Unmap/Cut.antt =====
-- `sysMunmap` of a range that takes the ends of entries.
use mathlib.Core.Path.{subst}
use mirai_os.Prelude.{
  ℕ, zero, suc, ◌+◌, ◌-◌, ◌^◌, ◌≤◌, ◌<◌, ◌≡◌, ◌⊎◌, refl, sym, ap, ◌∙◌, inl, inr, Bool-cases, ◌==◌,
  leb, true, false, ◌||◌, ◌↔◌, if◌then◌else◌, some, List, [], ◌∷◌, arith, ◌∈◌, ◌∉◌, length, pos,
}
use mirai_os.Thread.{Ptr, null}
use mirai_os.ThreadQueue.Links.{head_or, ne_of_mem_sym}
use mirai_os.Mmap.{
  MemoryEntry, Store, set_size, page_call, dealloc_pages, sub64, is_positive, end_of,
}
use mirai_os.Mmap.Lists.{Chain, IsSorted, Chain-frame, IsSorted-frame}
use mirai_os.Mmap.Lookup.{Covers}
use mirai_os.Mmap.Unmap.{unmap_low, unmap_entry, unmap_from}

-- The range from `addr` to `end` misses the entry, or takes its end and not its beginning.
abbrev pub IsCut : (addr end : ℕ) → MemoryEntry → Type 0
IsCut addr end e =
    ((end ≤ e.vaddr) ⊎ (e.vaddr + e.size ≤ addr)) ⊎ ((e.vaddr < addr) × (e.vaddr + e.size ≤ end))

-- An entry behind the call.
abbrev pub cut : (addr end : ℕ) → MemoryEntry → MemoryEntry
cut addr end e =
    if leb end e.vaddr || leb (end_of e) addr then e else record e { size = addr - e.vaddr }

-- On values: the range takes the end of the entry `x`.
unmap_entry-end :
    (x addr end : ℕ) (st : Store)
    → let e = st.entries x in
      e.vaddr < addr
      → addr < 2 ^ 63
      → e.vaddr + e.size ≤ end
      → end < 2 ^ 63
      → unmap_entry x addr end st ≡ (false, set_size x (addr - e.vaddr) st)
unfolding unmap_entry unmap_low
unmap_entry-end x addr end st lt small le far =
    let e = st.entries x in
    let high : is_positive (sub64 (end_of e) end) ≡ false = ground arith in
    let low : is_positive (sub64 addr e.vaddr) ≡ true = ground arith in
    let size : sub64 addr e.vaddr ≡ addr - e.vaddr = ground arith in rw (high, low, size) refl

-- The entries `xs` are cut, and nothing else changes the map.
pub record CutEntries (st st' : Store) (addr end : ℕ) (xs : List Ptr) : Type 0 where
  pub first : st'.first_mem_entry ≡ st.first_mem_entry
  pub last : st'.last_mem_entry ≡ st.last_mem_entry
  pub inside : (p : Ptr) → p ∈ xs → st'.entries p ≡ cut addr end (st.entries p)
  pub outside : (p : Ptr) → p ∉ xs → st'.entries p ≡ st.entries p

module _ (addr end size : ℕ) (lt : addr < 2 ^ 63) (far : end < 2 ^ 63) where
  pub unmap_from-CutEntries :
      (fuel prev : ℕ) (st : Store) (xs : List Ptr)
      → Chain st.entries prev null xs
      → IsSorted st.entries xs
      → ((p : Ptr) → p ∈ xs → IsCut addr end (st.entries p))
      → length xs < fuel
      → (st' : Store) × (unmap_from fuel (head_or null xs) addr end size st ≡ some (pos 0, st'))
        × CutEntries st st' addr end xs
  unfolding unmap_from
  unmap_from-CutEntries zero prev st xs l s c enough = absurd (omega arith)
  unmap_from-CutEntries (suc fuel) prev st [] l s c enough = (
    page_call (dealloc_pages addr size) st,
    refl,
    record {
      first = refl;
      last = refl;
      inside = λ p m. absurd (ground arith);
      outside = λ p m. refl;
    },
  )
  unmap_from-CutEntries (suc fuel) prev st (x ∷ xs) l s c enough =
      elim (Bool-cases (leb end (st.entries x).vaddr || leb (end_of (st.entries x)) addr)) [
        | inl skip ↦
            (let rest =
                unmap_from-CutEntries fuel x st xs l.4 s.2 (λ p m. c p (ground arith))
                  (omega arith) in
              (
                rest.0,
                rw (some_entry, skip) (ap (λ n. unmap_from fuel n addr end size st) l.2 ∙ rest.1),
                record {
                  first = rest.2.first;
                  last = rest.2.last;
                  inside = λ p m. elim (Bool-cases (p == x)) [
                    | inl e ↦
                        (let same : p ≡ x = ground arith in rw (same, skip) (rest.2.outside x l.3))
                    | inr ne ↦ rest.2.inside p (ground arith)
                  ];
                  outside = λ p m. rest.2.outside p (ground arith);
                },
              ))
        | inr over ↦
            (let st1 = set_size x (addr - (st.entries x).vaddr) st in
              let kept : (p : Ptr) → p ∈ xs → st1.entries p ≡ st.entries p =
                λ p m. (let ne = ne_of_mem_sym p x xs m l.3 in ground arith) in
              let rest =
                unmap_from-CutEntries fuel x st1 xs
                  (Chain-frame st.entries st1.entries x null xs kept l.4)
                  (IsSorted-frame st.entries st1.entries xs
                    (λ p m. (ap MemoryEntry.vaddr (kept p m), ap MemoryEntry.size (kept p m))) s.2)
                  (λ p m. subst (IsCut addr end) (sym (kept p m)) (c p (ground arith)))
                  (omega arith) in
              let ends = end_facts (st.entries x) s.0 (c x (ground arith)) over in
              let one = unmap_entry-end x addr end st ends.0 lt ends.1 far in
              let own : st1.entries x
                  ≡ record (st.entries x) { size = addr - (st.entries x).vaddr } =
                ground arith in
              (
                rest.0,
                rw (some_entry, over, one)
                    (ap (λ n. unmap_from fuel n addr end size st1) l.2 ∙ rest.1),
                record {
                  first = rest.2.first;
                  last = rest.2.last;
                  inside = λ p m. elim (Bool-cases (p == x)) [
                    | inl e ↦
                        (let same : p ≡ x = ground arith in
                          rw (same, over) (rest.2.outside x l.3 ∙ own))
                    | inr ne ↦
                        (let m' : p ∈ xs = ground arith in
                          rest.2.inside p m' ∙ ap (cut addr end) (kept p m'))
                  ];
                  outside = λ p m. rest.2.outside p (ground arith) ∙ ground arith;
                },
              ))
      ]
    where
      some_entry : (x == null) ≡ false
      some_entry = ground (arith, l.0)

      end_facts :
          (e : MemoryEntry)
          → e.vaddr + e.size < 2 ^ 64
          → IsCut addr end e
          → (leb end e.vaddr || leb (end_of e) addr) ≡ false
          → (e.vaddr < addr) × (e.vaddr + e.size ≤ end)
      end_facts e small (inl (inl h)) over = absurd (ground arith)
      end_facts e small (inl (inr h)) over = absurd (ground arith)
      end_facts e small (inr h) over = h

-- What the two kinds of entries become.
cut-cases :
    (addr end : ℕ) (e : MemoryEntry)
    → addr ≤ end
    → e.vaddr + e.size < 2 ^ 64
    → IsCut addr end e
    → ((cut addr end e ≡ e) × ((end ≤ e.vaddr) ⊎ (e.vaddr + e.size ≤ addr)))
      ⊎ ((cut addr end e ≡ record e { size = addr - e.vaddr })
          × (e.vaddr < addr)
          × (addr < e.vaddr + e.size)
          × (e.vaddr + e.size ≤ end))
cut-cases addr end e le small (inl (inl h)) =
    let t : (leb end e.vaddr || leb (end_of e) addr) ≡ true = ground arith in inl (rw t refl, inl h)
cut-cases addr end e le small (inl (inr h)) =
    let t : (leb end e.vaddr || leb (end_of e) addr) ≡ true = ground arith in inl (rw t refl, inr h)
cut-cases addr end e le small (inr h) = elim (Bool-cases (leb end e.vaddr || leb (end_of e) addr)) [
  | inl t ↦ inl (rw t refl, inr (ground (arith, h.0)))
  | inr t ↦ inr (rw t refl, h.0, ground arith, h.1)
]

pub cut-shorter :
    (addr end : ℕ) (e : MemoryEntry)
    → addr ≤ end
    → e.vaddr + e.size < 2 ^ 64
    → IsCut addr end e
    → ((cut addr end e).vaddr ≡ e.vaddr)
      × ((cut addr end e).size ≤ e.size)
      × ((cut addr end e).prev ≡ e.prev)
      × ((cut addr end e).next ≡ e.next)
cut-shorter addr end e le small c = elim (cut-cases addr end e le small c) [
  | inl k ↦ rw k.0 (refl, omega arith, refl, refl)
  | inr k ↦ rw k.0 (refl, omega (arith, k.1, k.2), refl, refl)
]

-- An address in the range is in no cut entry; every other is in it as before.
pub cut-Covers :
    (addr end a : ℕ) (e : MemoryEntry)
    → addr ≤ end
    → e.vaddr + e.size < 2 ^ 64
    → IsCut addr end e
    → Covers (cut addr end e) a ↔ (Covers e a × ((a < addr) ⊎ (end ≤ a)))
cut-Covers addr end a e le small c = elim (cut-cases addr end e le small c) [
  | inl k ↦ rw k.0 (
    (λ h.
        (h, elim k.1 [ inl low ↦ inr (omega (arith, h.0)) | inr high ↦ inl (omega (arith, h.1)) ])),
    (λ h. h.0),
  )
  | inr k ↦ rw k.0 (
    (λ h. ((h.0, omega (arith, h.1, k.1, k.2)), inl (omega (arith, h.1, k.1)))),
    (λ h. (
      h.0.0,
      elim h.1 [ inl low ↦ omega (arith, k.1) | inr high ↦ absurd (omega (arith, h.0.1, k.3)) ],
    )),
  )
]
