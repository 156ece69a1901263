-- ===== src/ThreadQueue/Pop.antt =====
-- `threadQueuePop`
use mirai_os.Prelude.{◌≡◌, ◌≢◌, refl, ◌==◌, List, [], ◌∷◌, arith, false, ap, ◌∙◌}
use mirai_os.Thread.{Ptr, null, Store, sub32}
use mirai_os.ThreadQueue.{
  pop_next, pop_from, thread_queue_pop, set_queue, set_prev, set_first, decr_threads,
}
use mirai_os.ThreadQueue.Links.{IsQueue, Links-frame, Keeps}

-- On an empty queue `threadQueuePop` returns NULL and changes nothing.
pub thread_queue_pop-nil :
    (st : Store) (q : Ptr) → IsQueue st q [] → thread_queue_pop q st ≡ (null, st)
unfolding thread_queue_pop pop_from pop_next
thread_queue_pop-nil st q is = ground arith

-- What a pop of the first entry `x` gives, `xs` being the other entries.
pub record PoppedEntry (st : Store) (q x : Ptr) (xs : List Ptr) (r : Ptr × Store) : Type 0 where
  pub entry : r.0 ≡ x
  pub is_queue : IsQueue r.1 q xs
  pub left : r.1.entries x ≡ record (st.entries x) { queue = null }
  pub keeps : Keeps st r.1 q (x ∷ xs)

pop_only :
    (st : Store) (q x : Ptr) → IsQueue st q (x ∷ []) → PoppedEntry st q x [] (thread_queue_pop q st)
unfolding thread_queue_pop pop_from pop_next
pop_only st q x is = record {
  entry = ground arith;
  is_queue = record { first = ground arith; last = ground arith; count = ground arith; links = tt };
  left = ground arith;
  keeps = record {
    entries = λ p out. ground arith;
    queues = λ r ne. ground arith;
    threads = ground arith;
    cpus = ground arith;
  };
}

-- The store after a pop of `x`, with `y` behind it.
abbrev after_pop : Store → (q x y : Ptr) → Store
after_pop st q x y = set_queue x null (decr_threads q (set_prev y null (set_first q y st)))

pop_from-not_null :
    (st : Store) (q x : Ptr)
    → x ≢ null
    → pop_from q x st ≡ pop_next q x (st.entries x).next_thread st
unfolding pop_from
pop_from-not_null st q x h = ground arith

pop_next-eq-after_pop :
    (st : Store) (q x y : Ptr) → y ≢ null → pop_next q x y st ≡ (x, after_pop st q x y)
unfolding pop_next
pop_next-eq-after_pop st q x y h = let e : (y == null) ≡ false = ground arith in rw e

pop-eq-pop_from : (st : Store) (q : Ptr) → thread_queue_pop q st ≡ pop_from q (st.queues q).first st
unfolding thread_queue_pop
pop-eq-pop_from st q = refl

pop-eq-after_pop :
    (st : Store) (q x y : Ptr)
    → (st.queues q).first ≡ x
    → (st.entries x).next_thread ≡ y
    → x ≢ null
    → y ≢ null
    → thread_queue_pop q st ≡ (x, after_pop st q x y)
pop-eq-after_pop st q x y first next hx hy =
    pop-eq-pop_from st q
    ∙ ap (λ p. pop_from q p st) first
    ∙ pop_from-not_null st q x hx
    ∙ ap (λ n. pop_next q x n st) next
    ∙ pop_next-eq-after_pop st q x y hy

module _ (st : Store) (q x y : Ptr) where
  after_pop_other : (p : Ptr) → p ≢ x → p ≢ y → (after_pop st q x y).entries p ≡ st.entries p
  after_pop_other p hx hy = ground arith

  after_pop_next :
      x ≢ y → (after_pop st q x y).entries y ≡ record (st.entries y) { prev_thread = null }
  after_pop_next h = ground arith

  after_pop_queue :
      (after_pop st q x y).queues q
      ≡ record (st.queues q) { first = y; nrof_threads = sub32 (st.queues q).nrof_threads 1 }
  after_pop_queue = ground arith

pop_more :
    (st : Store) (q x y : Ptr) (xs : List Ptr)
    → IsQueue st q (x ∷ y ∷ xs)
    → PoppedEntry st q x (y ∷ xs) (x, after_pop st q x y)
pop_more st q x y xs is =
    let ne : x ≢ y = ground arith in
    record {
      entry = refl;
      is_queue = record {
        first = rw (after_pop_queue st q x y);
        last = rw (after_pop_queue st q x y) is.last;
        count = rw (after_pop_queue st q x y, is.count) (omega arith);
        links = (
          is.links.5.0,
          rw (after_pop_next st q x y ne),
          rw (after_pop_next st q x y ne) is.links.5.2,
          rw (after_pop_next st q x y ne) is.links.5.3,
          is.links.5.4,
          Links-frame st.entries (after_pop st q x y).entries q y null xs
              (λ p h. after_pop_other st q x y p (ground arith) (ground arith)) is.links.5.5,
        );
      };
      left = ground arith;
      keeps = record {
        entries = λ p out. after_pop_other st q x y p (ground arith) (ground arith);
        queues = λ r ne'. ground arith;
        threads = refl;
        cpus = refl;
      };
    }

-- On a queue that holds `x` and then `xs`, `threadQueuePop` returns `x`, leaves the queue holding
-- `xs` and `x` in no queue, and changes no other queue and no entry outside the queue.
pub thread_queue_pop-cons :
    (st : Store) (q x : Ptr) (xs : List Ptr)
    → IsQueue st q (x ∷ xs)
    → PoppedEntry st q x xs (thread_queue_pop q st)
thread_queue_pop-cons st q x [] is = pop_only st q x is
thread_queue_pop-cons st q x (y ∷ xs) is =
    rw (pop-eq-after_pop st q x y is.first is.links.2 is.links.0 is.links.5.0)
      (pop_more st q x y xs is)
