-- ===== src/Mmap/Create/Insert.antt =====
-- `mmapCreateEntry` puts an entry that fits where it belongs.
use mirai_os.Prelude.{
  ℕ, zero, suc, ◌+◌, ◌≤◌, ◌<◌, ◌≡◌, ◌≢◌, ◌⊎◌, refl, ◌==◌, ltb, Bool, true, false, not, ◌&&◌, ◌||◌,
  if◌then◌else◌, Option, none, some, ◌>>=◌, List, [], ◌∷◌, ◌++◌, arith, ◌∈◌, ◌∉◌, length,
  length-append, ap, ◌∙◌, pos, neg,
}
use mirai_os.Thread.{Ptr, null}
use mirai_os.ThreadQueue.Links.{
  head_or, last_or, has-append, mem-last_or, mem-append_left, mem-append_right, ne_of_mem_sym,
}
use mirai_os.Mmap.{
  MemoryEntry, Store, put_entry, kmalloc_entry_from, add64, end_of, get_vaddr, find_lower_higher,
}
use mirai_os.Mmap.Create.{
  Created, enomem, default_vaddr, create_between, create_at, mmap_create_entry,
}
use mirai_os.Mmap.Create.Splice.{
  linked, linked_new, linked_same, linked-IsMap, head_apart, last_apart,
}
use mirai_os.Mmap.Lists.{IsSorted-frame, IsSorted-insert}
use mirai_os.Mmap.Lookup.{find_lower_higher-split}
use mirai_os.Mmap.Create.Fits.{
  HasRoom, Inserted, copied, Holds, copied-Holds, Holds-trans, Holds-HasRoom, unfixed,
  place_above-link, place_entry-link, trim_higher-link, get_vaddr-Holds, hint_fits-true,
  create_between-link,
}

-- The entries around the place of `q`.
module _ (st : Store) (e : MemoryEntry) (q : Ptr) (xs ys : List Ptr) (room : HasRoom st e xs ys)
    (out : q ∉ (xs ++ ys)) where
  low_facts :
      (xs' : List Ptr)
      → xs ≡ xs'
      → let lo = last_or null xs' in
        lo ≢ null
        → (lo ≢ q)
          × ((st.entries lo).vaddr + (st.entries lo).size ≤ e.vaddr)
          × (((st.entries lo).vaddr + (st.entries lo).size < e.vaddr)
              ⊎ ((st.entries lo).flags ≢ (unfixed e).flags))
  low_facts [] eq ne = absurd (ne refl)
  low_facts (x ∷ l) eq ne =
      let m : last_or x l ∈ xs = rw eq (mem-last_or x l) in
      (
        ne_of_mem_sym (last_or x l) q (xs ++ ys) (mem-append_left (last_or x l) xs ys m) out,
        room.below (last_or x l) m,
        room.no_merge (last_or x l) m,
      )

  high_facts :
      (ys' : List Ptr)
      → ys ≡ ys'
      → let hi = head_or null ys' in
        hi ≢ null → (hi ≢ q) × (e.vaddr + e.size ≤ (st.entries hi).vaddr)
  high_facts [] eq ne = absurd (ne refl)
  high_facts (y ∷ l) eq ne =
      let m : y ∈ ys = rw eq (ground arith) in
      (ne_of_mem_sym y q (xs ++ ys) (mem-append_right y xs ys m) out, room.above y m)

  -- The entry is linked where `q` holds what is stored for `e`.
  between-links :
      (fuel : ℕ) (st0 : Store)
      → (st0.entries q).vaddr ≡ e.vaddr
      → let lo = last_or null xs in
        let hi = head_or null ys in
        get_vaddr lo hi q st0 ≡ st
        → st.entries q ≡ unfixed e
        → create_between (suc fuel) q lo hi e.size st0
          ≡ some (record { error = pos 0; out = some e.vaddr; store = linked q lo hi st })
  between-links fuel st0 start moved own =
      let lo = last_or null xs in
      let hi = head_or null ys in
      let low = low_facts xs refl in
      let high = high_facts ys refl in
      let stop = add64 e.vaddr e.size in
      create_between-link (suc fuel) q lo hi e.size e.vaddr st0 st moved start
        (place_entry-link st q lo hi e.vaddr stop (λ n. ((low n).0, test lo (low n))))
        (trim_higher-link fuel st q lo hi stop
          (λ n. ((high n).0, ground (arith, (high n).1, room.small))))
      ∙ ap (λ a. some (record { error = pos 0; out = some a; store = linked q lo hi st }))
          (ap MemoryEntry.vaddr own)
    where
      test :
          (lo : ℕ)
          → (lo ≢ q)
            × ((st.entries lo).vaddr + (st.entries lo).size ≤ e.vaddr)
            × (((st.entries lo).vaddr + (st.entries lo).size < e.vaddr)
                ⊎ ((st.entries lo).flags ≢ (unfixed e).flags))
          → (ltb (end_of (st.entries lo)) e.vaddr
              || ((e.vaddr == end_of (st.entries lo))
                  && not ((st.entries lo).flags == (st.entries q).flags)))
            ≡ true
      test lo h =
          rw own (place_above-link (st.entries lo) (unfixed e) h.1 (omega (arith, room.small)) h.2)

-- The entry `e` stands in `q` and gets its place.
module _ (st : Store) (e : MemoryEntry) (q : Ptr) (xs ys : List Ptr) (room : HasRoom st e xs ys)
    (own : st.entries q ≡ e) (out : q ∉ (xs ++ ys)) where
  abbrev settled : Store
  settled = get_vaddr (last_or null xs) (head_or null ys) q st

  settled-Holds : Holds st (unfixed e) q settled
  settled-Holds =
      let lo = last_or null xs in
      let hi = head_or null ys in
      let low = low_facts st e q xs ys room out xs refl in
      let high = high_facts st e q xs ys room out ys refl in
      get_vaddr-Holds st e lo hi q own
        (hint_fits-true st e lo hi room.small (λ n. (low n).1) (λ n. (high n).1))

  create_at-links :
      (fuel : ℕ)
      → length xs < fuel
      → create_at fuel q e.size st
        ≡ some (record {
          error = pos 0;
          out = some e.vaddr;
          store = linked q (last_or null xs) (head_or null ys) settled;
        })
  unfolding create_at
  create_at-links zero enough = absurd (omega arith)
  create_at-links (suc fuel) enough =
      let start : (st.entries q).vaddr ≡ e.vaddr = ap MemoryEntry.vaddr own in
      let has_address : ((st.entries q).vaddr == 0) ≡ false = ground (arith, room.address, start) in
      let found =
        find_lower_higher-split (suc fuel) e.vaddr st xs ys room.is_map
          (λ p m. omega (arith, room.below p m))
          (λ p m. omega (arith, room.above p m, room.not_empty)) enough in
      let found' : find_lower_higher (suc fuel) (st.entries q).vaddr st
          ≡ some (last_or null xs, head_or null ys) =
        rw start found in
      let holds = settled-Holds in
      ap
        (λ st1. find_lower_higher (suc fuel) (st1.entries q).vaddr st1 >>= λ p.
          create_between (suc fuel) q p.0 p.1 e.size st1)
        (default_own has_address)
      ∙ ap (λ o. o >>= λ p. create_between (suc fuel) q p.0 p.1 e.size st) found'
      ∙ between-links settled e q xs ys
          (Holds-HasRoom st settled e (unfixed e) q xs ys holds room out) out fuel st start refl
          holds.own
    where
      default_own : ((st.entries q).vaddr == 0) ≡ false → default_vaddr q st ≡ st
      default_own h = rw h refl

linked-Inserted :
    (st st1 : Store) (e : MemoryEntry) (q : Ptr) (xs ys : List Ptr)
    → HasRoom st e xs ys
    → Holds st (unfixed e) q st1
    → q ≢ null
    → q ∉ (xs ++ ys)
    → Inserted st e q xs ys (linked q (last_or null xs) (head_or null ys) st1)
linked-Inserted st st1 e q xs ys room holds not_null out =
    let room1 = Holds-HasRoom st st1 e (unfixed e) q xs ys holds room out in
    let lo = last_or null xs in
    let hi = head_or null ys in
    let fs = (linked q lo hi st1).entries in
    let q_lo : q ≢ lo = last_apart q xs not_null (ground (arith, has-append q xs ys)) in
    let q_hi : q ≢ hi = head_apart q ys not_null (ground (arith, has-append q xs ys)) in
    let own : fs q ≡ record (unfixed e) { prev = lo; next = hi } =
      linked_new st1 q lo hi q_lo q_hi
      ∙ ap {B = MemoryEntry} (λ (r : MemoryEntry). record r { prev = lo; next = hi }) holds.own in
    let same = linked_same st1 q lo hi in
    let not_q : (p : Ptr) → p ∈ (xs ++ ys) → p ≢ q = λ p m. ne_of_mem_sym p q (xs ++ ys) m out in
    let low : (p : Ptr) → p ∈ xs → p ∈ (xs ++ ys) = λ p m. mem-append_left p xs ys m in
    let high : (p : Ptr) → p ∈ ys → p ∈ (xs ++ ys) = λ p m. mem-append_right p xs ys m in
    record {
      is_map = linked-IsMap st1 q xs ys room1.is_map not_null out;
      sorted =
          IsSorted-insert fs q xs ys
            (IsSorted-frame st1.entries fs (xs ++ ys)
              (λ p m. let s = same p (not_q p m) in (s.0, s.1)) room1.sorted)
            (rw own room.small)
            (λ p m. let s = same p (not_q p (low p m)) in rw (own, s.0, s.1) (room1.below p m))
            (λ p m. let s = same p (not_q p (high p m)) in rw (own, s.0) (room1.above p m));
      entry = own;
      others = λ p ne. let s = same p ne in rw⁻¹ (holds.kept p ne) s;
    }

-- On a map with room for the entry `e`, where `kmalloc` returns a new entry `q`, `mmapCreateEntry`
-- returns 0, writes the address of `e`, and puts `q` with `e`, whose MMAP_FLAG_FIXED it clears if that
-- is set, between the entries below it and those
-- above it; the map remains sorted, and what the other entries map does not change. Fuel above the
-- number of entries is enough.
pub mmap_create_entry-Inserted :
    (fuel : ℕ) (st : Store) (e : MemoryEntry) (q : Ptr) (rest xs ys : List Ptr)
    → HasRoom st e xs ys
    → st.heap ≡ q ∷ rest
    → q ≢ null
    → q ∉ (xs ++ ys)
    → length (xs ++ ys) < fuel
    → (st' : Store) × (mmap_create_entry fuel e st
        ≡ some (record { error = pos 0; out = some e.vaddr; store = st' }))
      × Inserted st e q xs ys st'
unfolding mmap_create_entry kmalloc_entry_from
mmap_create_entry-Inserted fuel st e q rest xs ys room fresh not_null out enough =
    let st1 = copied st e q rest in
    let copy = copied-Holds st e q rest in
    let room1 = Holds-HasRoom st st1 e e q xs ys copy room out in
    let links =
      create_at-links st1 e q xs ys room1 copy.own out fuel (omega (arith, length-append xs ys)) in
    let st2 = settled st1 e q xs ys room1 copy.own out in
    let holds =
      Holds-trans st st1 st2 e (unfixed e) q copy
        (settled-Holds st1 e q xs ys room1 copy.own out) in
    let some_entry : (q == null) ≡ false = ground arith in
    let failed : Store → Option Created =
      λ st2. some (record { error = neg enomem; out = none; store = st2 }) in
    let finish : Bool → Ptr × Store → Option Created =
      λ b m. if b then failed m.1 else create_at fuel m.0 e.size (put_entry m.0 e m.1) in
    (
      linked q (last_or null xs) (head_or null ys) st2,
      ap (λ h. let m = kmalloc_entry_from h st in finish (m.0 == null) m) fresh
          ∙ ap (λ b. finish b (q, record st { heap = rest })) some_entry
          ∙ links,
      linked-Inserted st st2 e q xs ys room holds not_null out,
    )
