-- ===== src/ThreadQueue/Push.antt =====
-- `threadQueuePush` and `threadQueuePushFront`
use mirai_os.Prelude.{
  ℕ, ◌%◌, ◌^◌, ◌≡◌, ◌≢◌, refl, ◌==◌, List, [], ◌∷◌, ◌++◌, arith, ◌∈◌, ◌∉◌, length, false, sym,
  length-append,
}
use mathlib.Core.Path.{subst}
use mirai_os.Thread.{Ptr, null, ThreadQueueEntry, Store, add32}
use mirai_os.ThreadQueue.{
  thread_queue_push, thread_queue_push_front, push_entry_back, push_entry_front, push_behind,
  set_next, set_prev, set_queue, set_last, set_first, incr_threads, push_before,
}
use mirai_os.ThreadQueue.Links.{
  IsQueue, Links, last_or, Keeps, has-append, mem-last_or, last_or-snoc, ne_of_mem, ne_of_mem_sym,
  Links-last_or,
}

-- A new last entry `n` is linked by a change of the entry before it.
Links-snoc :
    (es fs : Ptr → ThreadQueueEntry) (q prev n x : Ptr) (xs : List Ptr)
    → n ≢ null
    → n ∉ (x ∷ xs)
    → Links es q prev null (x ∷ xs)
    → ((p : Ptr) → p ∈ (x ∷ xs) → p ≢ last_or x xs → fs p ≡ es p)
    → fs (last_or x xs) ≡ record (es (last_or x xs)) { next_thread = n }
    → (fs n).prev_thread ≡ last_or x xs
    → (fs n).next_thread ≡ null
    → (fs n).queue ≡ q
    → Links fs q prev null (x ∷ xs ++ n ∷ [])
Links-snoc es fs q prev n x [] ne out l same last pr nx qu =
    (l.0, rw last l.1, rw last, rw last l.3, ground arith, (ne, pr, nx, qu, refl, tt))
Links-snoc es fs q prev n x (y ∷ xs) ne out l same last pr nx qu =
    let apart : x ≢ last_or y xs = ne_of_mem (last_or y xs) x (y ∷ xs) (mem-last_or y xs) l.4 in
    let kept : fs x ≡ es x = same x (ground arith) apart in
    (
      l.0,
      rw kept l.1,
      rw kept l.2,
      rw kept l.3,
      ground (arith, has-append x (y ∷ xs) (n ∷ [])),
      Links-snoc es fs q x n y xs ne (ground arith) l.5 (λ p h k. same p (ground arith) k) last pr
          nx qu,
    )

-- The store when `threadQueuePush` tests `queue->last`.
abbrev before_push : Store → (q n : Ptr) → Store
before_push st q n = set_next n null (set_queue n q st)

-- The store after a push of `n` behind `x`.
abbrev after_push : Store → (q n x : Ptr) → Store
after_push st q n x =
    incr_threads q (set_last q n (set_prev n x (set_next x n (before_push st q n))))

module _ (st : Store) (q n x : Ptr) where
  after_push_other : (p : Ptr) → p ≢ n → p ≢ x → (after_push st q n x).entries p ≡ st.entries p
  after_push_other p h k = ground arith

  after_push_last :
      x ≢ n → (after_push st q n x).entries x ≡ record (st.entries x) { next_thread = n }
  after_push_last h = ground arith

  after_push_new :
      x ≢ n
      → (after_push st q n x).entries n
        ≡ record (st.entries n) { queue = q; next_thread = null; prev_thread = x }
  after_push_new h = ground arith

  after_push_queue :
      (after_push st q n x).queues q
      ≡ record (st.queues q) { last = n; nrof_threads = add32 (st.queues q).nrof_threads 1 }
  after_push_queue = ground arith

  push_behind-eq-after_push :
      x ≢ null → push_behind q n x (before_push st q n) ≡ after_push st q n x
  unfolding push_behind
  push_behind-eq-after_push h = let e : (x == null) ≡ false = ground arith in rw e

-- What a push of the entry `n` on a queue gives, `ys` being the entries afterwards.
pub record PushedEntry (st : Store) (q n : Ptr) (xs ys : List Ptr) (st' : Store) : Type 0 where
  pub is_queue : IsQueue st' q ys
  pub keeps : Keeps st st' q (n ∷ xs)

count_snoc :
    (c : ℕ) (n : Ptr) (xs : List Ptr)
    → c ≡ length xs % 2 ^ 32
    → add32 c 1 ≡ length (xs ++ n ∷ []) % 2 ^ 32
count_snoc c n xs e = omega (arith, length-append xs (n ∷ []))

push_more :
    (st : Store) (q n y : Ptr) (ys : List Ptr)
    → IsQueue st q (y ∷ ys)
    → n ≢ null
    → n ∉ (y ∷ ys)
    → PushedEntry st q n (y ∷ ys) (y ∷ ys ++ n ∷ []) (after_push st q n (last_or y ys))
push_more st q n y ys is hn out =
    let x = last_or y ys in
    let apart : x ≢ n = ne_of_mem_sym x n (y ∷ ys) (mem-last_or y ys) out in
    record {
      is_queue = record {
        first = rw (after_push_queue st q n x) is.first;
        last = rw (after_push_queue st q n x) (sym (last_or-snoc y n ys));
        count = rw (after_push_queue st q n x) (count_snoc _ n (y ∷ ys) is.count);
        links =
            Links-snoc st.entries (after_push st q n x).entries q null n y ys hn out is.links
              (λ p h k. after_push_other st q n x p (ne_of_mem_sym p n (y ∷ ys) h out) k)
              (after_push_last st q n x apart) (rw (after_push_new st q n x apart))
              (rw (after_push_new st q n x apart)) (rw (after_push_new st q n x apart));
      };
      keeps = record {
        entries = λ p h.
            after_push_other st q n x p (ground arith)
              (ne_of_mem x p (y ∷ ys) (mem-last_or y ys) (ground arith));
        queues = λ r ne. ground arith;
        threads = refl;
        cpus = refl;
      };
    }

push_only :
    (st : Store) (q n : Ptr)
    → IsQueue st q []
    → n ≢ null
    → PushedEntry st q n [] (n ∷ []) (push_behind q n null (before_push st q n))
unfolding push_behind
push_only st q n is hn = record {
  is_queue = record {
    first = ground arith;
    last = ground arith;
    count = ground arith;
    links = (hn, ground arith, ground arith, ground arith, refl, tt);
  };
  keeps = record {
    entries = λ p h. ground arith;
    queues = λ r ne. ground arith;
    threads = refl;
    cpus = refl;
  };
}

push_entry_back-PushedEntry :
    (st : Store) (q n : Ptr) (xs : List Ptr)
    → IsQueue st q xs
    → n ≢ null
    → n ∉ xs
    → PushedEntry st q n xs (xs ++ n ∷ []) (push_entry_back q n st)
unfolding push_entry_back
push_entry_back-PushedEntry st q n [] is hn out =
    subst (λ l. PushedEntry st q n [] (n ∷ []) (push_behind q n l (before_push st q n)))
      (sym is.last) (push_only st q n is hn)
push_entry_back-PushedEntry st q n (y ∷ ys) is hn out =
    let some_last = Links-last_or st.entries q null null y ys is.links in
    subst
      (λ l. PushedEntry st q n (y ∷ ys) (y ∷ ys ++ n ∷ []) (push_behind q n l (before_push st q n)))
      (sym is.last)
      (rw (push_behind-eq-after_push st q n (last_or y ys) some_last)
        (push_more st q n y ys is hn out))

pub thread_queue_push-cpus :
    (q thread : Ptr) (st : Store) → (thread_queue_push q thread st).cpus ≡ st.cpus
unfolding thread_queue_push push_entry_back push_behind
thread_queue_push-cpus q thread st = ground arith

-- On a queue that holds `xs`, `threadQueuePush` of a thread whose entry is not NULL and not in
-- `xs` puts this entry behind `xs`, and changes no other queue and no other entry outside `xs`.
pub thread_queue_push-snoc :
    (st : Store) (q thread : Ptr) (xs : List Ptr)
    → IsQueue st q xs
    → let n = (st.threads thread).queue_entry in
      n ≢ null → n ∉ xs → PushedEntry st q n xs (xs ++ n ∷ []) (thread_queue_push q thread st)
unfolding thread_queue_push push_entry_back
thread_queue_push-snoc st q thread xs is hn out =
    push_entry_back-PushedEntry st q (st.threads thread).queue_entry xs is hn out

-- The store when `threadQueuePushFront` tests `queue->last`.
abbrev before_push_front : Store → (q n : Ptr) → Store
before_push_front st q n =
    set_first q n (set_next n (st.queues q).first (set_prev n null (set_queue n q st)))

push_front_only :
    (st : Store) (q n : Ptr)
    → IsQueue st q []
    → n ≢ null
    → PushedEntry st q n [] (n ∷ []) (push_before q n null (before_push_front st q n))
unfolding push_before
push_front_only st q n is hn = record {
  is_queue = record {
    first = ground arith;
    last = ground arith;
    count = ground arith;
    links = (hn, ground arith, ground arith, ground arith, refl, tt);
  };
  keeps = record {
    entries = λ p h. ground arith;
    queues = λ r ne. ground arith;
    threads = refl;
    cpus = refl;
  };
}

-- `threadQueuePushFront` on an empty queue makes the thread's entry the only one.
pub thread_queue_push_front-nil :
    (st : Store) (q thread : Ptr)
    → IsQueue st q []
    → let n = (st.threads thread).queue_entry in
      n ≢ null → PushedEntry st q n [] (n ∷ []) (thread_queue_push_front q thread st)
unfolding thread_queue_push_front push_entry_front
thread_queue_push_front-nil st q thread is hn =
    let n = (st.threads thread).queue_entry in
    subst (λ l. PushedEntry st q n [] (n ∷ []) (push_before q n l (before_push_front st q n)))
      (sym is.last) (push_front_only st q n is hn)
