-- ===== src/Mmap/Create/Fits.antt =====
-- `mmapCreateEntry` of an entry that fits between those of the map.
use mirai_os.Prelude.{
  ℕ, suc, ◌+◌, ◌-◌, ◌^◌, ◌≤◌, ◌<◌, ◌≡◌, ◌≢◌, ◌⊎◌, refl, ◌==◌, ltb, leb, true, false, not, ◌&&◌,
  ◌||◌, if◌then◌else◌, Option, some, ◌>>=◌, List, ◌∷◌, ◌++◌, arith, ◌∈◌, ◌∉◌, ap, ◌∙◌, pos, neg,
  inl, inr, Bool-cases,
}
use mirai_os.Thread.{Ptr, null, update}
use mirai_os.ThreadQueue.Links.{head_or, last_or, mem-append_left, mem-append_right, ne_of_mem_sym}
use mirai_os.Mmap.{
  MemoryEntry, Store, put_entry, add64, end_of, has_flag, mmap_fixed, get_vaddr, set_next, set_prev,
  hint_fits,
}
use mirai_os.Mmap.Create.{
  Place, Created, enomem, place_entry, place_above, trim_higher, create_between,
}
use mirai_os.Mmap.Create.Splice.{linked, link_low, link_high}
use mirai_os.Mmap.Lists.{IsMap, IsSorted, Chain-frame, IsSorted-frame}

-- What is stored for `e`: `getVaddr` clears MMAP_FLAG_FIXED.
abbrev pub unfixed : MemoryEntry → MemoryEntry
unfixed e = record e {
  flags = if has_flag e.flags mmap_fixed then e.flags - mmap_fixed else e.flags;
}

-- The entry `e`, at an address of its own, fits behind `xs` and before `ys`, and does not continue an
-- entry with the flags that are stored for it.
pub record HasRoom (st : Store) (e : MemoryEntry) (xs ys : List Ptr) : Type 0 where
  pub is_map : IsMap st (xs ++ ys)
  pub sorted : IsSorted st.entries (xs ++ ys)
  pub address : e.vaddr ≢ 0
  pub not_empty : 0 < e.size
  pub small : e.vaddr + e.size < 2 ^ 64
  pub below : (p : Ptr) → p ∈ xs → (st.entries p).vaddr + (st.entries p).size ≤ e.vaddr
  pub above : (p : Ptr) → p ∈ ys → e.vaddr + e.size ≤ (st.entries p).vaddr
  pub no_merge :
      (p : Ptr)
      → p ∈ xs
      → ((st.entries p).vaddr + (st.entries p).size < e.vaddr)
        ⊎ ((st.entries p).flags ≢ (unfixed e).flags)

-- The new entry `q` holds `e` without MMAP_FLAG_FIXED, between `xs` and `ys`; what the other entries map is as it was.
pub record Inserted (st : Store) (e : MemoryEntry) (q : Ptr) (xs ys : List Ptr) (st' : Store)
    : Type 0 where
  pub is_map : IsMap st' (xs ++ q ∷ ys)
  pub sorted : IsSorted st'.entries (xs ++ q ∷ ys)
  pub entry : st'.entries q ≡ record (unfixed e) { prev = last_or null xs; next = head_or null ys }
  pub others :
      (p : Ptr)
      → p ≢ q
      → ((st'.entries p).vaddr ≡ (st.entries p).vaddr)
        × ((st'.entries p).size ≡ (st.entries p).size)
        × ((st'.entries p).flags ≡ (st.entries p).flags)

-- The store behind `memcpy(new, newEntry, ..)`.
abbrev pub copied : Store → MemoryEntry → Ptr → List Ptr → Store
copied st e q rest = put_entry q e (record st { heap = rest })

-- `st1` differs from `st` in the entry `q`, which holds `e`.
pub record Holds (st : Store) (e : MemoryEntry) (q : Ptr) (st1 : Store) : Type 0 where
  pub own : st1.entries q ≡ e
  pub kept : (p : Ptr) → p ≢ q → st1.entries p ≡ st.entries p
  pub first : st1.first_mem_entry ≡ st.first_mem_entry
  pub last : st1.last_mem_entry ≡ st.last_mem_entry

pub copied-Holds :
    (st : Store) (e : MemoryEntry) (q : Ptr) (rest : List Ptr) → Holds st e q (copied st e q rest)
copied-Holds st e q rest = record {
  own = ground arith;
  kept = λ p ne. ground arith;
  first = refl;
  last = refl;
}

pub Holds-trans :
    (st st1 st2 : Store) (e e' : MemoryEntry) (q : Ptr)
    → Holds st e q st1
    → Holds st1 e' q st2
    → Holds st e' q st2
Holds-trans st st1 st2 e e' q h k = record {
  own = k.own;
  kept = λ p ne. k.kept p ne ∙ h.kept p ne;
  first = k.first ∙ h.first;
  last = k.last ∙ h.last;
}

-- Room does not depend on what `q` holds.
pub Holds-HasRoom :
    (st st1 : Store) (e e' : MemoryEntry) (q : Ptr) (xs ys : List Ptr)
    → Holds st e' q st1
    → HasRoom st e xs ys
    → q ∉ (xs ++ ys)
    → HasRoom st1 e xs ys
Holds-HasRoom st st1 e e' q xs ys h r out =
    let kept : (p : Ptr) → p ∈ (xs ++ ys) → st1.entries p ≡ st.entries p =
      λ p m. h.kept p (ne_of_mem_sym p q (xs ++ ys) m out) in
    let kept_low : (p : Ptr) → p ∈ xs → st1.entries p ≡ st.entries p =
      λ p m. kept p (mem-append_left p xs ys m) in
    let kept_high : (p : Ptr) → p ∈ ys → st1.entries p ≡ st.entries p =
      λ p m. kept p (mem-append_right p xs ys m) in
    record {
      is_map = record {
        first = h.first ∙ r.is_map.first;
        last = h.last ∙ r.is_map.last;
        links = Chain-frame st.entries st1.entries null null (xs ++ ys) kept r.is_map.links;
      };
      sorted =
          IsSorted-frame st.entries st1.entries (xs ++ ys) (λ p m. ground (arith, kept p m))
            r.sorted;
      address = r.address;
      not_empty = r.not_empty;
      small = r.small;
      below = λ p m. rw (kept_low p m) (r.below p m);
      above = λ p m. rw (kept_high p m) (r.above p m);
      no_merge = λ p m. rw (kept_low p m) (r.no_merge p m);
    }

-- On values: the test in front of `lower->next = new`.
pub place_above-link :
    (low : MemoryEntry) (new : MemoryEntry)
    → low.vaddr + low.size ≤ new.vaddr
    → new.vaddr < 2 ^ 64
    → (low.vaddr + low.size < new.vaddr) ⊎ (low.flags ≢ new.flags)
    → (ltb (end_of low) new.vaddr || ((new.vaddr == end_of low) && not (low.flags == new.flags)))
      ≡ true
place_above-link low new le small (inl lt) = ground arith
place_above-link low new le small (inr ne) = ground arith

-- `place` where the new entry is linked behind `lo`.
pub place_entry-link :
    (st : Store) (q lo hi start stop : ℕ)
    → (lo ≢ null
        → let low = st.entries lo in
          (lo ≢ q)
          × ((ltb (end_of low) start
                || ((start == end_of low) && not (low.flags == (st.entries q).flags)))
              ≡ true))
    → place_entry lo hi q start stop st
      ≡ record { new = q; new_end = stop; failed = false; store = link_low q lo st }
unfolding place_entry place_above
place_entry-link st q lo hi start stop test = elim (Bool-cases (lo == null)) [
  | inl e ↦ ground arith
  | inr e ↦
      (let t = test (ground arith) in
        let apart = t.0 in
        let kept : update st.entries q (record (st.entries q) { prev = lo }) lo ≡ st.entries lo =
          ground arith in
        let own : update st.entries q (record (st.entries q) { prev = lo }) q
            ≡ record (st.entries q) { prev = lo } =
          ground arith in
        rw (e, kept, own, t.1) refl)
]

trim_higher-stop :
    (fuel : ℕ) (st : Store) (q hi stop : ℕ)
    → hi ≢ q
    → stop ≤ (st.entries hi).vaddr
    → trim_higher (suc fuel) q stop hi st ≡ some (link_high q hi st)
unfolding trim_higher
trim_higher-stop fuel st q hi stop apart le =
    let st2 = set_prev hi q (set_next q hi st) in
    let kept : (st2.entries hi).vaddr ≡ (st.entries hi).vaddr = ground arith in
    let far : leb stop (st2.entries hi).vaddr ≡ true = ground arith in
    elim (Bool-cases (hi == null)) [ inl e ↦ rw e refl | inr e ↦ rw (e, far) refl ]

-- The loop where the new entry ends before `hi`.
pub trim_higher-link :
    (fuel : ℕ) (st : Store) (q lo hi stop : ℕ)
    → (hi ≢ null → (hi ≢ q) × (stop ≤ (st.entries hi).vaddr))
    → trim_higher (suc fuel) q stop hi (link_low q lo st) ≡ some (linked q lo hi st)
unfolding trim_higher
trim_higher-link fuel st q lo hi stop test = elim (Bool-cases (hi == null)) [
  | inl e ↦ rw e refl
  | inr e ↦
      (let t = test (ground arith) in
        trim_higher-stop fuel (link_low q lo st) q hi stop t.0 (ground (arith, t.1)))
]

-- An entry that fits stays where its hint or MMAP_FLAG_FIXED puts it.
pub get_vaddr-Holds :
    (st : Store) (e : MemoryEntry) (lo hi q : ℕ)
    → st.entries q ≡ e
    → hint_fits lo hi e st ≡ true
    → Holds st (unfixed e) q (get_vaddr lo hi q st)
unfolding get_vaddr
get_vaddr-Holds st e lo hi q own fits = elim (Bool-cases (has_flag e.flags mmap_fixed)) [
  | inl fixed ↦
      rw (own, fixed)
        (record { own = ground arith; kept = λ p ne. ground arith; first = refl; last = refl })
  | inr hint ↦
      rw (own, hint, fits) (record { own = own; kept = λ p ne. refl; first = refl; last = refl })
]

pub hint_fits-true :
    (st : Store) (e : MemoryEntry) (lo hi : ℕ)
    → e.vaddr + e.size < 2 ^ 64
    → (lo ≢ null → (st.entries lo).vaddr + (st.entries lo).size ≤ e.vaddr)
    → (hi ≢ null → e.vaddr + e.size ≤ (st.entries hi).vaddr)
    → hint_fits lo hi e st ≡ true
hint_fits-true st e lo hi small low high = ground arith

-- `create_between` from the values that its tests read.
pub create_between-link :
    (fuel : ℕ) (q lo hi size start : ℕ) (st st1 : Store)
    → get_vaddr lo hi q st ≡ st1
    → (st.entries q).vaddr ≡ start
    → place_entry lo hi q start (add64 start size) st1
      ≡ record { new = q; new_end = add64 start size; failed = false; store = link_low q lo st1 }
    → trim_higher fuel q (add64 start size) hi (link_low q lo st1) ≡ some (linked q lo hi st1)
    → create_between fuel q lo hi size st
      ≡ some
          (record { error = pos 0; out = some (st1.entries q).vaddr; store = linked q lo hi st1 })
unfolding create_between
create_between-link fuel q lo hi size start st st1 moved from placed trimmed =
    let finish : Place → Option Created = λ p.
      if p.failed
      then some (record { error = neg enomem; out = some (st1.entries q).vaddr; store = p.store })
      else (trim_higher fuel p.new p.new_end hi p.store >>= λ st2.
          some (record { error = pos 0; out = some (st1.entries q).vaddr; store = st2 })) in
    rw (moved, from)
      (ap finish placed
        ∙ ap
            (λ o. o >>= λ st2.
              some (record { error = pos 0; out = some (st1.entries q).vaddr; store = st2 }))
            trimmed)
