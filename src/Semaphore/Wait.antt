-- ===== src/Semaphore/Wait.antt =====
-- What a semaphore stands for: a count, and the threads that wait for it to be above 0.
use mirai_os.Prelude.{
  ℕ, zero, suc, ◌==◌, ◌≡◌, ◌≢◌, refl, pos, Bool, List, [], ◌∷◌, ◌++◌, arith, ◌∉◌,
}
use mirai_os.Thread.{Ptr, null, ThreadState, Store}
use mirai_os.ThreadQueue.{thread_queue_push}
use mirai_os.ThreadQueue.Links.{IsQueue}
use mirai_os.ThreadQueue.Push.{thread_queue_push-snoc}
use mirai_os.ReadyQueue.Ready.{IsQueue-same}
use mirai_os.Semaphore.{Semaphore, block, sem_wait}

-- The semaphore has the count `n`, and the entries `xs` wait in its queue: none where `n` is above
-- 0.
pub record IsSemaphore (sem : Semaphore) (st : Store) (n : ℕ) (xs : List Ptr) : Type 0 where
  pub value : sem.value ≡ pos n
  pub waiting : IsQueue st sem.queue xs
  pub nobody : n ≢ 0 → xs ≡ []

-- What `semWait` does to the count and to the waiting entries.
abbrev pub waited : (entry n : ℕ) → List Ptr → ℕ × List Ptr
waited entry zero xs = (zero, xs ++ entry ∷ [])
waited entry (suc n) xs = (n, xs)

-- The thread stops exactly where the count was 0, and waits for the lock then.
pub record Waited (thread : Ptr) (n : ℕ) (xs : List Ptr) (st : Store) (r : Bool × Semaphore × Store)
    : Type 0 where
  pub stops : r.0 ≡ (n == 0)
  pub semaphore :
      let after = waited (st.threads thread).queue_entry n xs in IsSemaphore r.1 r.2 after.0 after.1
  pub lockwait : n ≡ 0 → (r.2.threads thread).state ≡ ThreadState.lockwait
  pub kept : n ≢ 0 → r.2 ≡ st

block-IsQueue :
    (st : Store) (q thread : Ptr) (xs : List Ptr)
    → IsQueue st q xs
    → let n = (st.threads thread).queue_entry in
      n ≢ null → n ∉ xs → IsQueue (block q thread st) q (xs ++ n ∷ [])
unfolding block
block-IsQueue st q thread xs is hn out =
    let pushed = thread_queue_push-snoc st q thread xs is hn out in
    IsQueue-same (thread_queue_push q thread st) (block q thread st) q
      (xs ++ (st.threads thread).queue_entry ∷ []) refl refl pushed.is_queue

block-lockwait :
    (st : Store) (q thread : Ptr)
    → ((block q thread st).threads thread).state ≡ ThreadState.lockwait
unfolding block
block-lockwait st q thread = ground arith

-- On a semaphore with the count `n` and the waiting entries `xs`, `semWait` of a thread whose entry
-- is not NULL and not in `xs` takes one from the count where this is above 0, and leaves all else;
-- where it is 0, the thread waits behind `xs` and stops.
pub sem_wait-Waited :
    (thread : Ptr) (sem : Semaphore) (st : Store) (n : ℕ) (xs : List Ptr)
    → IsSemaphore sem st n xs
    → (st.threads thread).queue_entry ≢ null
    → (st.threads thread).queue_entry ∉ xs
    → Waited thread n xs st (sem_wait thread sem st)
unfolding sem_wait
sem_wait-Waited thread sem st zero xs is hn out = rw is.value (record {
  stops = refl;
  semaphore = record {
    value = refl;
    waiting = block-IsQueue st sem.queue thread xs is.waiting hn out;
    nobody = λ ne. absurd (ne refl);
  };
  lockwait = λ e. block-lockwait st sem.queue thread;
  kept = λ ne. absurd (ne refl);
})
sem_wait-Waited thread sem st (suc n) xs is hn out = rw is.value (record {
  stops = ground arith;
  semaphore = record { value = refl; waiting = is.waiting; nobody = λ ne. is.nobody (omega arith) };
  lockwait = λ e. absurd (omega arith);
  kept = λ ne. refl;
})
