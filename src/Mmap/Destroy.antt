-- ===== src/Mmap/Destroy.antt =====
-- `mmapDestroy` gives every entry back, and every reference to shared memory.
use mathlib.Core.Path.{subst}
use mirai_os.Prelude.{
  ℕ, zero, suc, ◌+◌, ◌-◌, ◌^◌, ◌≤◌, ◌<◌, ◌≡◌, ◌⊎◌, refl, sym, ap, ◌∙◌, inl, inr, Bool-cases, ◌==◌,
  Bool, true, false, if◌then◌else◌, ◌&&◌, some, ◌>>=◌, List, [], ◌∷◌, arith, ◌∈◌, length,
}
use mirai_os.Thread.{Ptr, null, sub32}
use mirai_os.ThreadQueue.Links.{head_or}
use mirai_os.Mmap.{
  MemoryEntry, PageCall, Store, put_share, kfree_object, has_flag, mmap_shared, mmap_anon,
  dealloc_all, drop_reference, delete_entry, delete_from, mmap_destroy, page_call, phys_page_freed,
  clear_map,
}
use mirai_os.Mmap.Lists.{Chain, IsMap}

-- The entry has a reference to the shared memory `s`.
abbrev pub refers : (s : Ptr) → MemoryEntry → ℕ
refers s e = if has_flag e.flags mmap_shared && (e.shared == s) then 1 else 0

-- The references to `s` of the entries `xs`.
abbrev pub references : (s : Ptr) → (Ptr → MemoryEntry) → List Ptr → ℕ
references s es [] = 0
references s es (x ∷ xs) = refers s (es x) + references s es xs

dealloc_all-calls :
    (pages : List ℕ) (st : Store)
    → (c : List PageCall) × (dealloc_all pages st ≡ record st { calls = c })
unfolding dealloc_all
dealloc_all-calls [] st = (st.calls, refl)
dealloc_all-calls (page ∷ pages) st = dealloc_all-calls pages (page_call (phys_page_freed page) st)

-- What a deletion of entries does: `n s` is the number of the references to `s` that are dropped.
pub record Dropped (st st' : Store) (n : Ptr → ℕ) : Type 0 where
  pub entries : st'.entries ≡ st.entries
  pub freed : (a : Ptr) → a ∈ st.freed → a ∈ st'.freed
  pub refs :
      (s : Ptr)
      → (st.shares s).ref_count < 2 ^ 32
      → n s ≤ (st.shares s).ref_count
      → (st'.shares s).ref_count ≡ (st.shares s).ref_count - n s
  pub last :
      (s : Ptr)
      → (st.shares s).ref_count < 2 ^ 32
      → 0 < n s
      → (st.shares s).ref_count ≡ n s
      → s ∈ st'.freed

-- `drop_reference`, where deallocating the pages leaves the calls `c`.
abbrev dropped : MemoryEntry → Store → List PageCall → Store
dropped e st c =
    let sh = st.shares e.shared in
    let refs = sub32 sh.ref_count 1 in
    let st1 = put_share e.shared (record sh { ref_count = refs }) st in
    if refs == 0 then kfree_object e.shared (record st1 { calls = c }) else st1

dropped-Dropped :
    (e : MemoryEntry) (st : Store) (c : List PageCall)
    → has_flag e.flags mmap_shared ≡ true
    → Dropped st (dropped e st c) (λ s. refers s e)
dropped-Dropped e st c shared = record {
  entries = ground arith;
  freed = λ a m. ground arith;
  refs = λ s small le. ground arith;
  last = λ s small more eq. ground arith;
}

drop_reference-Dropped :
    (e : MemoryEntry) (st : Store)
    → has_flag e.flags mmap_shared ≡ true
    → Dropped st (drop_reference e st) (λ s. refers s e)
unfolding drop_reference
drop_reference-Dropped e st shared =
    let sh = st.shares e.shared in
    let st1 = put_share e.shared (record sh { ref_count = sub32 sh.ref_count 1 }) st in
    let pages = dealloc_all-calls sh.phys st1 in
    elim (Bool-cases (has_flag e.flags mmap_anon)) [
      | inl anon ↦ rw (anon, pages.1) (dropped-Dropped e st pages.0 shared)
      | inr none_of ↦ rw none_of (dropped-Dropped e st st.calls shared)
    ]

kfree_object-Dropped :
    (p : Ptr) (st st1 : Store) (n : Ptr → ℕ) → Dropped st st1 n → Dropped st (kfree_object p st1) n
kfree_object-Dropped p st st1 n d = record {
  entries = d.entries;
  freed = λ a m. ground (arith, d.freed a m);
  refs = λ s small le. d.refs s small le;
  last = λ s small more eq. ground (arith, d.last s small more eq);
}

delete_entry-Dropped :
    (p : Ptr) (st : Store)
    → Dropped st (delete_entry p st).1 (λ s. refers s (st.entries p))
      × (p ∈ (delete_entry p st).1.freed)
unfolding delete_entry
delete_entry-Dropped p st =
    let e = st.entries p in
    (
      kfree_object-Dropped p st (if has_flag e.flags mmap_shared then drop_reference e st else st)
          (λ s. refers s e) (go (has_flag e.flags mmap_shared) refl),
      ground arith,
    )
  where
    go :
        (b : Bool)
        → has_flag (st.entries p).flags mmap_shared ≡ b
        → Dropped st
            (if b then drop_reference (st.entries p) st else st)
            (λ s. refers s (st.entries p))
    go true e = drop_reference-Dropped (st.entries p) st e
    go false e = record {
      entries = refl;
      freed = λ a m. m;
      refs = λ s small le. ground arith;
      last = λ s small more eq. absurd (ground arith);
    }

-- Deletions in a row.
Dropped-trans :
    (st st1 st2 : Store) (n m : Ptr → ℕ)
    → Dropped st st1 n
    → Dropped st1 st2 m
    → Dropped st st2 (λ s. n s + m s)
Dropped-trans st st1 st2 n m a b = record {
  entries = b.entries ∙ a.entries;
  freed = λ p h. b.freed p (a.freed p h);
  refs = λ s small le. ground (arith, a.refs s small, b.refs s);
  last = λ s small more eq. elim (zero_or_more (m s)) [
    | inl z ↦ b.freed s (a.last s small (omega arith) (omega arith))
    | inr k ↦ (let r = a.refs s small (omega arith) in b.last s (omega arith) k (omega arith))
  ];
}
  where
    zero_or_more : (k : ℕ) → (k ≡ 0) ⊎ (0 < k)
    zero_or_more zero = inl refl
    zero_or_more (suc k) = inr (omega arith)

delete_from-Dropped :
    (fuel prev : ℕ) (st : Store) (xs : List Ptr)
    → Chain st.entries prev null xs
    → length xs < fuel
    → (st' : Store) × (delete_from fuel (head_or null xs) st ≡ some st')
      × Dropped st st' (λ s. references s st.entries xs)
      × ((p : Ptr) → p ∈ xs → p ∈ st'.freed)
unfolding delete_from delete_entry
delete_from-Dropped zero prev st xs l enough = absurd (omega arith)
delete_from-Dropped (suc fuel) prev st [] l enough = (
  st,
  refl,
  record {
    entries = refl;
    freed = λ a m. m;
    refs = λ s small le. omega arith;
    last = λ s small more eq. absurd (omega arith);
  },
  λ p m. absurd (ground arith),
)
delete_from-Dropped (suc fuel) prev st (x ∷ xs) l enough =
    let d = delete_entry-Dropped x st in
    let st1 = (delete_entry x st).1 in
    let links : Chain st1.entries x null xs =
      subst (λ es. Chain es x null xs) (sym d.0.entries) l.4 in
    let rest = delete_from-Dropped fuel x st1 xs links (omega arith) in
    let some_entry : (x == null) ≡ false = ground (arith, l.0) in
    let next : (delete_entry x st).0 ≡ head_or null xs = l.2 in
    (
      rest.0,
      rw some_entry (ap (λ n. delete_from fuel n st1) next ∙ rest.1),
      Dropped-trans st st1 rest.0 (λ s. refers s (st.entries x)) (λ s. references s st.entries xs)
          d.0 (subst (λ es. Dropped st1 rest.0 (λ s. references s es xs)) d.0.entries rest.2),
      λ p m. elim (Bool-cases (p == x)) [
        | inl e ↦ (let same : p ≡ x = ground arith in rw same (rest.2.freed x d.1))
        | inr ne ↦ rest.3 p (ground arith)
      ],
    )

-- On a map of the entries `xs`, `mmapDestroy` leaves an empty map and frees every entry; memory that
-- is shared loses as many references as `xs` have to it, and is freed where those are all. Fuel above
-- the number of entries is enough.
pub mmap_destroy-Dropped :
    (fuel : ℕ) (st : Store) (xs : List Ptr)
    → IsMap st xs
    → length xs < fuel
    → (st' : Store) × (mmap_destroy fuel st ≡ some st')
      × IsMap st' []
      × ((p : Ptr) → p ∈ xs → p ∈ st'.freed)
      × Dropped st st' (λ s. references s st.entries xs)
unfolding mmap_destroy
mmap_destroy-Dropped fuel st xs is enough =
    let d = delete_from-Dropped fuel null st xs is.links enough in
    (
      clear_map d.0,
      ap (λ p. delete_from fuel p st >>= λ st1. some (clear_map st1)) is.first
          ∙ ap (λ o. o >>= λ st1. some (clear_map st1)) d.1,
      record { first = refl; last = refl; links = tt },
      d.3,
      record { entries = d.2.entries; freed = d.2.freed; refs = d.2.refs; last = d.2.last },
    )
