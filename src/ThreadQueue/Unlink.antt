-- ===== src/ThreadQueue/Unlink.antt =====
-- The two `if` statements of `threadQueueRemove`, and the links that they join.
use mirai_os.Prelude.{
  ◌≡◌, ◌≢◌, refl, ◌==◌, List, [], ◌∷◌, ◌++◌, arith, ◌∈◌, ap, ◌∙◌, inl, inr, if◌then◌else◌,
  Bool-cases,
}
use mirai_os.Thread.{Ptr, null, ThreadQueueEntry, Store, if_null_ne}
use mirai_os.ThreadQueue.{
  unlink_prev, unlink_next, unlink_entry, unlink_prev_of, unlink_next_of, decr_of, remove_entry,
  set_queue, decr_threads,
}
use mirai_os.ThreadQueue.Links.{
  mem-append_left, mem-append_right, mem-head_or, Links, Links-frame, head_or, last_or, has-append,
  mem-last_or, ne_of_mem, ne_of_mem_sym,
}

-- The links of `xs` and `ys`, where `fs` joins the end of `xs` to the start of `ys`, past `y`.
pub Links-join :
    (es fs : Ptr → ThreadQueueEntry) (q prev y : Ptr) (xs ys : List Ptr)
    → Links es q prev null (xs ++ y ∷ ys)
    → ((p : Ptr) → p ∈ (xs ++ ys) → p ≢ last_or y xs → p ≢ head_or y ys → fs p ≡ es p)
    → (xs ≢ [] → fs (last_or y xs) ≡ record (es (last_or y xs)) { next_thread = head_or null ys })
    → (ys ≢ [] → fs (head_or y ys) ≡ record (es (head_or y ys)) { prev_thread = last_or prev xs })
    → Links fs q prev null (xs ++ ys)
Links-join es fs q prev y [] [] l same at_last at_head = tt
Links-join es fs q prev y [] (z ∷ zs) l same at_last at_head =
    let h = at_head (λ e. cc) in
    (
      l.5.0,
      rw h,
      rw h l.5.2,
      rw h l.5.3,
      l.5.4,
      Links-frame es fs q z null zs
          (λ p m.
            same p (ground arith) (ne_of_mem_sym p y (z ∷ zs) (ground arith) l.4)
              (ne_of_mem_sym p z zs m l.5.4))
          l.5.5,
    )
Links-join es fs q prev y (x ∷ []) ys l same at_last at_head =
    let h = at_last (λ e. cc) in
    (
      l.0,
      rw h l.1,
      rw h,
      rw h l.3,
      ground arith,
      Links-join es fs q x y [] ys l.5
          (λ p m k. same p (ground arith) (ne_of_mem_sym p x ys m (ground arith)))
          (λ e. absurd (e refl)) at_head,
    )
Links-join es fs q prev y (x ∷ x' ∷ xs) ys l same at_last at_head =
    let end = last_or x' xs in
    let start = head_or y ys in
    let all = x' ∷ xs ++ y ∷ ys in
    let end_in : end ∈ all = mem-append_left end (x' ∷ xs) (y ∷ ys) (mem-last_or x' xs) in
    let start_in : start ∈ all = mem-append_right start (x' ∷ xs) (y ∷ ys) (mem-head_or y ys) in
    let h : fs x ≡ es x =
      same x (ground arith) (ne_of_mem end x all end_in l.4) (ne_of_mem start x all start_in l.4) in
    (
      l.0,
      rw h l.1,
      rw h l.2,
      rw h l.3,
      ground (arith, has-append x xs (y ∷ ys), has-append x xs ys),
      Links-join es fs q x y (x' ∷ xs) ys l.5 (λ p m. same p (ground arith))
          (λ e. at_last (λ e'. cc)) at_head,
    )

-- The store after the entry `y` has been taken out between `prev` and `next`.
abbrev pub unlinked : Store → (q prev next : Ptr) → Store
unlinked st q prev next = unlink_next q prev next (unlink_prev q prev next st)

-- The two `if` statements leave an entry alone that is neither `prev` nor `next`.
pub unlink_prev_other :
    (st : Store) (q prev next p : Ptr)
    → p ≢ prev
    → (unlink_prev q prev next st).entries p ≡ st.entries p
unfolding unlink_prev
unlink_prev_other st q prev next p h = ground arith

pub unlink_next_other :
    (st : Store) (q prev next p : Ptr)
    → p ≢ next
    → (unlink_next q prev next st).entries p ≡ st.entries p
unfolding unlink_next
unlink_next_other st q prev next p h = ground arith

pub unlink_prev_spares :
    (st : Store) (q prev next p : Ptr)
    → (prev ≢ null → p ≢ prev)
    → (unlink_prev q prev next st).entries p ≡ st.entries p
unfolding unlink_prev
unlink_prev_spares st q prev next p h = elim (Bool-cases (prev == null)) [
  | inl e ↦ rw e
  | inr e ↦ rw e (ground (arith, h (ground arith)))
]

pub unlink_next_spares :
    (st : Store) (q prev next p : Ptr)
    → (next ≢ null → p ≢ next)
    → (unlink_next q prev next st).entries p ≡ st.entries p
unfolding unlink_next
unlink_next_spares st q prev next p h = elim (Bool-cases (next == null)) [
  | inl e ↦ rw e
  | inr e ↦ rw e (ground (arith, h (ground arith)))
]

-- What `threadQueueRemove` does to the entry `y` that stands between `prev` and `next` in `q`.
module _ (st : Store) (q y prev next : Ptr) (hp : y ≢ prev) (hn : y ≢ next)
    (eq : (st.entries y).queue ≡ q) (ep : (st.entries y).prev_thread ≡ prev)
    (en : (st.entries y).next_thread ≡ next) where
  pub unlink_prev_of-eq : unlink_prev_of y st ≡ unlink_prev q prev next st
  unfolding unlink_prev_of
  unlink_prev_of-eq = cc

  pub unlink_next_of-eq : unlink_next_of y (unlink_prev q prev next st) ≡ unlinked st q prev next
  unfolding unlink_next_of
  unlink_next_of-eq = cc (unlink_prev_other st q prev next y hp)

  pub decr_of-eq : decr_of y (unlinked st q prev next) ≡ decr_threads q (unlinked st q prev next)
  unfolding decr_of
  decr_of-eq =
      ap (λ r. decr_threads r (unlinked st q prev next))
        (ap (λ e. e.queue)
            (unlink_next_other (unlink_prev q prev next st) q prev next y hn
              ∙ unlink_prev_other st q prev next y hp)
          ∙ eq)

  pub unlink_entry-eq : unlink_entry y st ≡ decr_threads q (unlinked st q prev next)
  unfolding unlink_entry
  unlink_entry-eq =
      ap (λ s. decr_of y (unlink_next_of y s)) unlink_prev_of-eq
      ∙ ap (decr_of y) unlink_next_of-eq
      ∙ decr_of-eq

  pub remove_entry-eq :
      q ≢ null → remove_entry y st ≡ set_queue y null (decr_threads q (unlinked st q prev next))
  unfolding remove_entry
  remove_entry-eq hq =
      ap (set_queue y null)
        (if_null_ne (st.entries y).queue st (unlink_entry y st) (rw eq hq) ∙ unlink_entry-eq)

-- Neither statement touches threads or processors.
pub unlink_prev_rest :
    (st : Store) (q prev next : Ptr)
    → ((unlink_prev q prev next st).threads ≡ st.threads)
      × ((unlink_prev q prev next st).cpus ≡ st.cpus)
unfolding unlink_prev
unlink_prev_rest st q prev next = elim (Bool-cases (prev == null)) [
  | inl e ↦ rw e (refl, refl)
  | inr e ↦ rw e (refl, refl)
]

pub unlink_next_rest :
    (st : Store) (q prev next : Ptr)
    → ((unlink_next q prev next st).threads ≡ st.threads)
      × ((unlink_next q prev next st).cpus ≡ st.cpus)
unfolding unlink_next
unlink_next_rest st q prev next = elim (Bool-cases (next == null)) [
  | inl e ↦ rw e (refl, refl)
  | inr e ↦ rw e (refl, refl)
]

-- What is left of the queue and of the neighbours.
module _ (st : Store) (q prev next : Ptr) where
  pub unlinked_at_prev :
      prev ≢ null
      → prev ≢ next
      → (unlinked st q prev next).entries prev ≡ record (st.entries prev) { next_thread = next }
  unfolding unlink_prev unlink_next
  unlinked_at_prev h k = ground arith

  pub unlinked_at_next :
      next ≢ null
      → prev ≢ next
      → (unlinked st q prev next).entries next ≡ record (st.entries next) { prev_thread = prev }
  unfolding unlink_prev unlink_next
  unlinked_at_next h k = ground arith

  pub unlinked_other :
      (p : Ptr) → p ≢ prev → p ≢ next → (unlinked st q prev next).entries p ≡ st.entries p
  unlinked_other p h k =
      unlink_next_other (unlink_prev q prev next st) q prev next p k
      ∙ unlink_prev_other st q prev next p h

  pub unlinked_queue : (unlinked st q prev next).queues q ≡ record (st.queues q) {
    first = if prev == null then next else (st.queues q).first;
    last = if next == null then prev else (st.queues q).last;
  }
  unfolding unlink_prev unlink_next
  unlinked_queue = ground arith

  pub unlinked_queues : (r : Ptr) → r ≢ q → (unlinked st q prev next).queues r ≡ st.queues r
  unfolding unlink_prev unlink_next
  unlinked_queues r h = ground arith
