-- ===== src/ThreadQueue/PushFront.antt =====
-- `threadQueuePushFront` on a queue that is not empty.
use mirai_os.Prelude.{◌≡◌, ◌≢◌, List, ◌∷◌, arith, ◌∉◌, ap, ◌∙◌}
use mirai_os.Thread.{Ptr, null, Store}
use mirai_os.ThreadQueue.{thread_queue_push_front, push_entry_front, push_before, remove_entry}
use mirai_os.ThreadQueue.Links.{IsQueue}
use mirai_os.ThreadQueue.Unlink.{remove_entry-eq, unlinked_queue}

-- The entry that was first keeps its links.
push_front-first :
    (st : Store) (q n x : Ptr) → x ≢ n → (push_entry_front q n st).entries x ≡ st.entries x
unfolding push_entry_front push_before
push_front-first st q n x h = ground arith

-- A thread's entry `n` that `threadQueuePushFront` puts before the first entry `x` of a queue is
-- linked in one direction alone: once `x` is removed the queue starts behind `x`, and `n` is not
-- reached from it.
pub push_front-remove_first :
    (st : Store) (q thread x y : Ptr) (xs : List Ptr)
    → let n = (st.threads thread).queue_entry in
      IsQueue st q (x ∷ y ∷ xs)
      → q ≢ null
      → n ≢ null
      → n ∉ (x ∷ y ∷ xs)
      → let st' = remove_entry x (thread_queue_push_front q thread st) in
        ((st'.queues q).first ≡ y) × (n ≢ y)
unfolding thread_queue_push_front
push_front-remove_first st q thread x y xs is hq hn out =
    let n = (st.threads thread).queue_entry in
    let st1 = push_entry_front q n st in
    let kept : st1.entries x ≡ st.entries x = push_front-first st q n x (ground arith) in
    let l = is.links in
    (
      rw
          (remove_entry-eq st1 q x null y l.0 (ground arith) (ap (λ e. e.queue) kept ∙ l.3)
            (ap (λ e. e.prev_thread) kept ∙ l.1) (ap (λ e. e.next_thread) kept ∙ l.2) hq)
          (ground (arith, unlinked_queue st1 q null y)),
      ground arith,
    )
