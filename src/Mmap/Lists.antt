-- ===== src/Mmap/Lists.antt =====
-- What the memory map of a process stands for: the list of its entries, by address.
use mirai_os.Prelude.{◌+◌, ◌^◌, ◌≤◌, ◌<◌, ◌≡◌, ◌≢◌, refl, List, [], ◌∷◌, ◌++◌, arith, ◌∈◌, ◌∉◌, ◌∙◌}
use mirai_os.Thread.{Ptr, null}
use mirai_os.ThreadQueue.Links.{head_or, last_or, has-append, mem-last_or, ne_of_mem}
use mirai_os.Mmap.{MemoryEntry, Store}

-- The entries `xs` are linked both ways: `prev` stands before them, `stop` behind.
abbrev pub Chain : (Ptr → MemoryEntry) → Ptr → Ptr → List Ptr → Type 0
Chain es prev stop [] = Unit
Chain es prev stop (x ∷ xs) =
    (x ≢ null)
    × ((es x).prev ≡ prev)
    × ((es x).next ≡ head_or stop xs)
    × (x ∉ xs)
    × Chain es x stop xs

-- The map holds the entries `xs`, first to last.
pub record IsMap (st : Store) (xs : List Ptr) : Type 0 where
  pub first : st.first_mem_entry ≡ head_or null xs
  pub last : st.last_mem_entry ≡ last_or null xs
  pub links : Chain st.entries null null xs

-- No entry reaches beyond 64 bits or into one behind it.
abbrev pub IsSorted : (Ptr → MemoryEntry) → List Ptr → Type 0
IsSorted es [] = Unit
IsSorted es (x ∷ xs) =
    ((es x).vaddr + (es x).size < 2 ^ 64)
    × ((p : Ptr) → p ∈ xs → (es x).vaddr + (es x).size ≤ (es p).vaddr)
    × IsSorted es xs

-- Links read the entries of their list alone.
pub Chain-frame :
    (es fs : Ptr → MemoryEntry) (prev stop : Ptr) (xs : List Ptr)
    → ((p : Ptr) → p ∈ xs → fs p ≡ es p)
    → Chain es prev stop xs
    → Chain fs prev stop xs
Chain-frame es fs prev stop [] same l = tt
Chain-frame es fs prev stop (x ∷ xs) same l = (
  l.0,
  ground (arith, same x),
  ground (arith, same x),
  l.3,
  Chain-frame es fs x stop xs (λ p h. same p (ground arith)) l.4,
)

pub Chain-before :
    (es : Ptr → MemoryEntry) (prev stop : Ptr) (xs ys : List Ptr)
    → Chain es prev stop (xs ++ ys)
    → Chain es prev (head_or stop ys) xs
Chain-before es prev stop [] ys l = tt
Chain-before es prev stop (x ∷ []) ys l = (l.0, l.1, l.2, refl, tt)
Chain-before es prev stop (x ∷ z ∷ xs) ys l = (
  l.0,
  l.1,
  l.2,
  ground (arith, l.3, has-append x (z ∷ xs) ys),
  Chain-before es x stop (z ∷ xs) ys l.4,
)

pub Chain-behind :
    (es : Ptr → MemoryEntry) (prev stop : Ptr) (xs ys : List Ptr)
    → Chain es prev stop (xs ++ ys)
    → Chain es (last_or prev xs) stop ys
Chain-behind es prev stop [] ys l = l
Chain-behind es prev stop (x ∷ xs) ys l = Chain-behind es x stop xs ys l.4

-- An entry of the first part is none of the second.
pub Chain-apart :
    (es : Ptr → MemoryEntry) (prev stop : Ptr) (xs ys : List Ptr) (p : Ptr)
    → Chain es prev stop (xs ++ ys)
    → p ∈ xs
    → p ∉ ys
Chain-apart es prev stop [] ys p l m = absurd (ground arith)
Chain-apart es prev stop (x ∷ xs) ys p l m =
    ground (arith, has-append x xs ys, l.3, Chain-apart es x stop xs ys p l.4)

pub Chain-join :
    (es : Ptr → MemoryEntry) (prev stop y : Ptr) (xs ys : List Ptr)
    → Chain es prev y xs
    → Chain es (last_or prev xs) stop (y ∷ ys)
    → ((p : Ptr) → p ∈ xs → p ∉ (y ∷ ys))
    → Chain es prev stop (xs ++ y ∷ ys)
Chain-join es prev stop y [] ys l r apart = r
Chain-join es prev stop y (x ∷ []) ys l r apart = (l.0, l.1, l.2, apart x (ground arith), r)
Chain-join es prev stop y (x ∷ z ∷ xs) ys l r apart = (
  l.0,
  l.1,
  l.2,
  ground (arith, l.3, has-append x (z ∷ xs) (y ∷ ys), apart x),
  Chain-join es x stop y (z ∷ xs) ys l.4 r (λ p h. apart p (ground arith)),
)

pub Chain-last_or :
    (es : Ptr → MemoryEntry) (prev stop y : Ptr) (ys : List Ptr)
    → Chain es prev stop (y ∷ ys)
    → last_or y ys ≢ null
Chain-last_or es prev stop y [] l = l.0
Chain-last_or es prev stop y (z ∷ zs) l = Chain-last_or es y stop z zs l.4

-- The last entry gets another one behind it.
pub Chain-new_stop :
    (es fs : Ptr → MemoryEntry) (prev stop n x : Ptr) (xs : List Ptr)
    → Chain es prev stop (x ∷ xs)
    → ((p : Ptr) → p ∈ (x ∷ xs) → p ≢ last_or x xs → fs p ≡ es p)
    → fs (last_or x xs) ≡ record (es (last_or x xs)) { next = n }
    → Chain fs prev n (x ∷ xs)
Chain-new_stop es fs prev stop n x [] l same last = (l.0, rw last l.1, rw last, refl, tt)
Chain-new_stop es fs prev stop n x (y ∷ xs) l same last =
    let apart : x ≢ last_or y xs = ne_of_mem (last_or y xs) x (y ∷ xs) (mem-last_or y xs) l.3 in
    let kept : fs x ≡ es x = same x (ground arith) apart in
    (
      l.0,
      rw kept l.1,
      rw kept l.2,
      l.3,
      Chain-new_stop es fs x stop n y xs l.4 (λ p h k. same p (ground arith) k) last,
    )

-- The first entry gets another one before it.
pub Chain-new_prev :
    (es fs : Ptr → MemoryEntry) (prev stop n y : Ptr) (ys : List Ptr)
    → Chain es prev stop (y ∷ ys)
    → fs y ≡ record (es y) { prev = n }
    → ((p : Ptr) → p ∈ ys → fs p ≡ es p)
    → Chain fs n stop (y ∷ ys)
Chain-new_prev es fs prev stop n y ys l first same =
    (l.0, rw first, rw first l.2, l.3, Chain-frame es fs y stop ys same l.4)

-- What a change of links alone leaves of a sorted list.
pub IsSorted-frame :
    (es fs : Ptr → MemoryEntry) (xs : List Ptr)
    → ((p : Ptr) → p ∈ xs → ((fs p).vaddr ≡ (es p).vaddr) × ((fs p).size ≡ (es p).size))
    → IsSorted es xs
    → IsSorted fs xs
IsSorted-frame es fs [] same s = tt
IsSorted-frame es fs (x ∷ xs) same s =
    let here = same x (ground arith) in
    (
      rw (here.0, here.1) s.0,
      (λ p h. let there = same p (ground arith) in rw (here.0, here.1, there.0) (s.1 p h)),
      IsSorted-frame es fs xs (λ p h. same p (ground arith)) s.2,
    )

-- A new entry goes in between.
pub IsSorted-insert :
    (es : Ptr → MemoryEntry) (q : Ptr) (xs ys : List Ptr)
    → IsSorted es (xs ++ ys)
    → (es q).vaddr + (es q).size < 2 ^ 64
    → ((p : Ptr) → p ∈ xs → (es p).vaddr + (es p).size ≤ (es q).vaddr)
    → ((p : Ptr) → p ∈ ys → (es q).vaddr + (es q).size ≤ (es p).vaddr)
    → IsSorted es (xs ++ q ∷ ys)
IsSorted-insert es q [] ys s small below above = (small, above, s)
IsSorted-insert es q (x ∷ xs) ys s small below above = (
  s.0,
  (λ p h. ground (arith, s.1 p, below x, has-append p xs (q ∷ ys), has-append p xs ys)),
  IsSorted-insert es q xs ys s.2 small (λ p h. below p (ground arith)) above,
)

-- Links and order of entries that may have become shorter.
pub Chain-same_links :
    (es fs : Ptr → MemoryEntry) (prev stop : Ptr) (xs : List Ptr)
    → ((p : Ptr) → p ∈ xs → ((fs p).prev ≡ (es p).prev) × ((fs p).next ≡ (es p).next))
    → Chain es prev stop xs
    → Chain fs prev stop xs
Chain-same_links es fs prev stop [] same l = tt
Chain-same_links es fs prev stop (x ∷ xs) same l =
    let here = same x (ground arith) in
    (
      l.0,
      here.0 ∙ l.1,
      here.1 ∙ l.2,
      l.3,
      Chain-same_links es fs x stop xs (λ p h. same p (ground arith)) l.4,
    )

pub IsSorted-shorter :
    (es fs : Ptr → MemoryEntry) (xs : List Ptr)
    → ((p : Ptr) → p ∈ xs → ((fs p).vaddr ≡ (es p).vaddr) × ((fs p).size ≤ (es p).size))
    → IsSorted es xs
    → IsSorted fs xs
IsSorted-shorter es fs [] same s = tt
IsSorted-shorter es fs (x ∷ xs) same s =
    let here = same x (ground arith) in
    (
      omega (arith, s.0, here.0, here.1),
      (λ p h. omega (arith, s.1 p h, here.0, here.1, (same p (ground arith)).0)),
      IsSorted-shorter es fs xs (λ p h. same p (ground arith)) s.2,
    )
