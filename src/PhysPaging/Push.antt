-- ===== src/PhysPaging/Push.antt =====
-- `pushPage` puts a page on top.
use mirai_os.Prelude.{ℕ, ◌+◌, ◌<◌, ◌≡◌, refl, List, [], ◌∷◌, arith, ◌∉◌, inl, inr, ltb, Bool-cases}
use mirai_os.PhysPaging.{
  PhysMem, PageStackInfo, page_stack_length, incr64, push_entry, push_space, push_page,
}
use mirai_os.PhysPaging.Chain.{
  IsFrame, Chain, last, below, entry, Holds, empty, bare, entries, Chain-write_other,
  Chain-set_page, Chain-count, page_frame_of_frame,
}

-- The state after a push.
abbrev pub Pushed : PhysMem × PageStackInfo → ℕ → List ℕ → Type 0
Pushed r p xs = Holds r.0 r.1 (p ∷ xs)

push_entry-Pushed :
    (mem : PhysMem) (s : PageStackInfo) {xs : List ℕ} (k p : ℕ)
    → k < page_stack_length
    → Chain mem s.mapped k xs
    → Pushed (push_entry k mem s p) p xs
unfolding push_entry
push_entry-Pushed mem s k p lt c =
    entries refl lt (entry refl (ground arith) (Chain-set_page k p c (omega arith)))

push_space-Pushed :
    (mem : PhysMem) (s : PageStackInfo) {xs : List ℕ} (p : ℕ)
    → IsFrame p
    → p ∉ xs
    → Chain mem s.mapped page_stack_length xs
    → Pushed (push_space s.mapped mem s p) p xs
unfolding push_space
push_space-Pushed mem s {xs} p f out c =
    rw (page_frame_of_frame p f)
      (bare refl (below refl f (ground arith) out (Chain-write_other p _ c out)))

push_space-first :
    (mem : PhysMem) (s : PageStackInfo) (p : ℕ) → IsFrame p → Pushed (push_space 0 mem s p) p []
unfolding push_space
push_space-first mem s p f = rw (page_frame_of_frame p f) (bare refl (last refl f (ground arith)))

-- On a stack that holds the pages `xs`, `pushPage` of a page frame that is not among them leaves
-- the stack holding that page on top of `xs`, whether it becomes an entry or new stack space, and
-- counts one page more (modulo 2^64).
pub push_page-Holds :
    {mem : PhysMem} {s : PageStackInfo} {xs : List ℕ} (p : ℕ)
    → Holds mem s xs
    → IsFrame p
    → p ∉ xs
    → let (mem', s') = push_page mem s p in
      Holds mem' s' (p ∷ xs) × (s'.nrof_pages ≡ incr64 s.nrof_pages)
unfolding push_page
push_page-Holds {mem} {s} p (empty e nil) f out =
    rw e (rw nil (push_space-first mem s p f), ground arith)
push_page-Holds {mem} {s} p (bare e c) f out =
    rw e (push_entry-Pushed mem s 0 p (omega arith) c, ground arith)
push_page-Holds {mem} {s} {xs} p (entries {k} e lt c) f out = rw e (elim (Bool-cases (ltb k 510)) [
  | inl room ↦
      rw room (
        push_entry-Pushed mem s (k + 1) p (ground arith) (Chain-count (omega arith) c),
        ground arith,
      )
  | inr full ↦
      rw full (push_space-Pushed mem s p f out (Chain-count (ground arith) c), ground arith)
])
