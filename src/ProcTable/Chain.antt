-- ===== src/ProcTable/Chain.antt =====
-- The list of processes that a bucket of the table stands for.
use mirai_os.Prelude.{ℕ, ◌≡◌, ◌≢◌, List, [], ◌∷◌, sym, ◌∙◌}
use mirai_os.ProcTable.{Ptr, ProcTable}

-- The processes from `p` on are `xs`; `prev` stands before them, and `last` is the last of all.
abbrev pub IsChain : ProcTable → (prev p last : Ptr) → List Ptr → Type 0
IsChain t prev p last [] = (p ≡ 0) × (prev ≡ last)
IsChain t prev p last (x ∷ xs) =
    (p ≡ x) × (x ≢ 0) × ((t.process x).ht_prev ≡ prev) × IsChain t x (t.process x).ht_next last xs

-- The bucket `h` holds the processes `xs`.
abbrev pub IsBucket : ProcTable → ℕ → List Ptr → Type 0
IsBucket t h xs = IsChain t 0 (t.proc_ht h).first (t.proc_ht h).last xs

-- `p` is none of the processes.
abbrev pub IsApart : Ptr → List Ptr → Type 0
IsApart p [] = Unit
IsApart p (x ∷ xs) = (p ≢ x) × IsApart p xs

abbrev pub HasNoRepeat : List Ptr → Type 0
HasNoRepeat [] = Unit
HasNoRepeat (x ∷ xs) = IsApart x xs × HasNoRepeat xs

-- The last process of a chain that has one is one of them.
pub last_apart :
    (t : ProcTable) (prev p last q x : Ptr) (xs : List Ptr)
    → IsChain t prev p last (x ∷ xs)
    → IsApart q (x ∷ xs)
    → q ≢ last
last_apart t prev p last q x [] h apart = λ e. apart.0 (e ∙ sym h.3.1)
last_apart t prev p last q x (y ∷ xs) h apart =
    last_apart t x (t.process x).ht_next last q y xs h.3 apart.1

pub last_not_null :
    (t : ProcTable) (prev p last x : Ptr) (xs : List Ptr)
    → IsChain t prev p last (x ∷ xs)
    → last ≢ 0
last_not_null t prev p last x [] h = λ e. h.1 (h.3.1 ∙ e)
last_not_null t prev p last x (y ∷ xs) h = last_not_null t x (t.process x).ht_next last y xs h.3
