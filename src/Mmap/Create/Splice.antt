-- ===== src/Mmap/Create/Splice.antt =====
-- The links that `mmapCreateEntry` sets put the new entry between two others.
use mirai_os.Prelude.{
  ◌≡◌, ◌≢◌, refl, sym, ◌==◌, if◌then◌else◌, List, [], ◌∷◌, ◌++◌, arith, ◌∈◌, ◌∉◌, has, Bool-cases,
  inl, inr,
}
use mirai_os.Thread.{Ptr, null}
use mirai_os.ThreadQueue.Links.{
  head_or, last_or, has-append, mem-last_or, mem-append_left, last_or-append, ne_of_mem,
  ne_of_mem_sym,
}
use mirai_os.Mmap.{MemoryEntry, Store, set_next, set_prev}
use mirai_os.Mmap.Lists.{
  Chain, IsMap, Chain-before, Chain-behind, Chain-apart, Chain-join, Chain-last_or, Chain-new_stop,
  Chain-new_prev,
}

-- The entry `q` is linked behind `lo`, or first.
abbrev pub link_low : (q lo : Ptr) → Store → Store
link_low q lo st =
    let st1 = set_prev q lo st in
    if lo == null then record st1 { first_mem_entry = q } else set_next lo q st1

-- And before `hi`, or last.
abbrev pub link_high : (q hi : Ptr) → Store → Store
link_high q hi st =
    let st1 = set_next q hi st in
    if hi == null then record st1 { last_mem_entry = q } else set_prev hi q st1

abbrev pub linked : (q lo hi : Ptr) → Store → Store
linked q lo hi st = link_high q hi (link_low q lo st)

module _ (st : Store) (q lo hi : Ptr) where
  pub linked_new :
      q ≢ lo
      → q ≢ hi
      → (linked q lo hi st).entries q ≡ record (st.entries q) { prev = lo; next = hi }
  linked_new a b = ground arith

  linked_low :
      lo ≢ null
      → lo ≢ q
      → lo ≢ hi
      → (linked q lo hi st).entries lo ≡ record (st.entries lo) { next = q }
  linked_low n a b = ground arith

  linked_high :
      hi ≢ null
      → hi ≢ q
      → hi ≢ lo
      → (linked q lo hi st).entries hi ≡ record (st.entries hi) { prev = q }
  linked_high n a b = ground arith

  linked_other : (p : Ptr) → p ≢ q → p ≢ lo → p ≢ hi → (linked q lo hi st).entries p ≡ st.entries p
  linked_other p a b c = ground arith

  pub linked_same :
      (p : Ptr)
      → p ≢ q
      → ((linked q lo hi st).entries p).vaddr ≡ (st.entries p).vaddr
        × (((linked q lo hi st).entries p).size ≡ (st.entries p).size)
        × (((linked q lo hi st).entries p).flags ≡ (st.entries p).flags)
  linked_same p a = ground arith

pub head_apart : (p : Ptr) (ys : List Ptr) → p ≢ null → p ∉ ys → p ≢ head_or null ys
head_apart p [] n m = n
head_apart p (y ∷ ys) n m = ground arith

pub last_apart : (p : Ptr) (xs : List Ptr) → p ≢ null → p ∉ xs → p ≢ last_or null xs
last_apart p [] n m = n
last_apart p (x ∷ xs) n m = ne_of_mem (last_or x xs) p (x ∷ xs) (mem-last_or x xs) m

chain_low :
    (st : Store) (q : Ptr) (xs ys : List Ptr)
    → Chain st.entries null null (xs ++ ys)
    → q ≢ null
    → q ∉ (xs ++ ys)
    → Chain (linked q (last_or null xs) (head_or null ys) st).entries null q xs
chain_low st q [] ys l n out = tt
chain_low st q (x ∷ xs) ys l n out =
    let lo = last_or x xs in
    let hi = head_or null ys in
    let low_null : lo ≢ null =
      Chain-last_or st.entries null hi x xs (Chain-before st.entries null null (x ∷ xs) ys l) in
    let apart : (p : Ptr) → p ∈ (x ∷ xs) → p ∉ ys =
      λ p m. Chain-apart st.entries null null (x ∷ xs) ys p l m in
    let high : (p : Ptr) → p ∈ (x ∷ xs) → p ≢ null → p ≢ hi =
      λ p m ne. head_apart p ys ne (apart p m) in
    let not_q : (p : Ptr) → p ∈ (x ∷ xs) → p ≢ q =
      λ p m. ne_of_mem_sym p q ((x ∷ xs) ++ ys) (mem-append_left p (x ∷ xs) ys m) out in
    let last_in = mem-last_or x xs in
    Chain-new_stop st.entries (linked q lo hi st).entries null hi q x xs
      (Chain-before st.entries null null (x ∷ xs) ys l)
      (λ p m ne.
        linked_other st q lo hi p (not_q p m) ne
          (high p m (Chain-ne_null st.entries null null (x ∷ xs) ys l p m)))
      (linked_low st q lo hi low_null (not_q lo last_in) (high lo last_in low_null))
  where
    Chain-ne_null :
        (es : Ptr → MemoryEntry) (prev stop : Ptr) (xs ys : List Ptr)
        → Chain es prev stop (xs ++ ys)
        → (p : Ptr) → p ∈ xs
        → p ≢ null
    Chain-ne_null es prev stop [] ys l p m = absurd (ground arith)
    Chain-ne_null es prev stop (x ∷ xs) ys l p m =
        ground (arith, l.0, Chain-ne_null es x stop xs ys l.4 p)

chain_high :
    (st : Store) (q : Ptr) (xs ys : List Ptr)
    → Chain st.entries null null (xs ++ ys)
    → q ≢ null
    → q ∉ (xs ++ ys)
    → Chain
        (linked q (last_or null xs) (head_or null ys) st).entries
        (last_or null xs)
        null
        (q ∷ ys)
chain_high st q xs [] l n out =
    let lo = last_or null xs in
    let q_lo : q ≢ lo = last_apart q xs n (ground (arith, has-append q xs [])) in
    let e = linked_new st q lo null q_lo n in (n, rw e refl, rw e refl, refl, tt)
chain_high st q xs (y ∷ ys) l n out =
    let lo = last_or null xs in
    let q_lo : q ≢ lo = last_apart q xs n (ground (arith, has-append q xs (y ∷ ys))) in
    let q_out : q ∉ (y ∷ ys) = ground (arith, has-append q xs (y ∷ ys)) in
    let q_y : q ≢ y = ground arith in
    let e = linked_new st q lo y q_lo q_y in
    let old = Chain-behind st.entries null null xs (y ∷ ys) l in
    let out_low : (p : Ptr) → p ∈ (y ∷ ys) → p ∉ xs = λ p m. elim (Bool-cases (has p xs)) [
      | inl h ↦ absurd (ground (arith, Chain-apart st.entries null null xs (y ∷ ys) p l h))
      | inr h ↦ h
    ] in
    let not_low : (p : Ptr) → p ≢ null → p ∈ (y ∷ ys) → p ≢ lo =
      λ p ne m. last_apart p xs ne (out_low p m) in
    let y_lo : y ≢ lo = not_low y old.0 (ground arith) in
    let y_q : y ≢ q = λ h. q_y (sym h) in
    let high = linked_high st q lo y old.0 y_q y_lo in
    (
      n,
      rw e refl,
      rw e refl,
      q_out,
      Chain-new_prev st.entries (linked q lo y st).entries lo null q y ys old high (λ p m.
          linked_other st q lo y p (ground arith)
            (not_low p (ne_null ys y p old.4 m) (ground arith)) (ground (arith, old.3))),
    )
  where
    ne_null : (xs : List Ptr) (x p : Ptr) → Chain st.entries x null xs → p ∈ xs → p ≢ null
    ne_null [] x p l m = absurd (ground arith)
    ne_null (z ∷ zs) x p l m = ground (arith, l.0, ne_null zs z p l.4)

linked_first :
    (st : Store) (q hi : Ptr) (xs ys : List Ptr)
    → st.first_mem_entry ≡ head_or null (xs ++ ys)
    → Chain st.entries null null (xs ++ ys)
    → (linked q (last_or null xs) hi st).first_mem_entry ≡ head_or null (xs ++ q ∷ ys)
linked_first st q hi [] ys e l = ground arith
linked_first st q hi (x ∷ xs) ys e l =
    let low_null =
      Chain-last_or st.entries null (head_or null ys) x xs
        (Chain-before st.entries null null (x ∷ xs) ys l) in
    ground (arith, low_null, e)

linked_last :
    (st : Store) (q lo : Ptr) (xs ys : List Ptr)
    → st.last_mem_entry ≡ last_or null (xs ++ ys)
    → Chain st.entries null null (xs ++ ys)
    → (linked q lo (head_or null ys) st).last_mem_entry ≡ last_or null (xs ++ q ∷ ys)
linked_last st q lo xs [] e l = ground (arith, last_or-append null q xs [])
linked_last st q lo xs (y ∷ ys) e l =
    let first = (Chain-behind st.entries null null xs (y ∷ ys) l).0 in
    ground (arith, first, e, last_or-append null q xs (y ∷ ys), last_or-append null y xs ys)

-- The map that the new entry `q` makes of one of the entries `xs` and then `ys`.
pub linked-IsMap :
    (st : Store) (q : Ptr) (xs ys : List Ptr)
    → IsMap st (xs ++ ys)
    → q ≢ null
    → q ∉ (xs ++ ys)
    → IsMap (linked q (last_or null xs) (head_or null ys) st) (xs ++ q ∷ ys)
linked-IsMap st q xs ys is n out = record {
  first = linked_first st q (head_or null ys) xs ys is.first is.links;
  last = linked_last st q (last_or null xs) xs ys is.last is.links;
  links =
      Chain-join (linked q (last_or null xs) (head_or null ys) st).entries null null q xs ys
        (chain_low st q xs ys is.links n out) (chain_high st q xs ys is.links n out)
        (λ p m.
          ground (arith, Chain-apart st.entries null null xs ys p is.links m, has-append q xs ys));
}
