-- ===== src/ThreadQueue.antt =====
-- The thread queues of kernel/sched/queue.c: doubly linked lists of `ThreadQueueEntry`, as
-- functions of the store. Each assignment of the source is one update, in its order.
pub mod Links
pub mod Pop
pub mod Push
pub mod PushFront
pub mod Remove
pub mod Unlink
pub mod Unlinked
mod Tests
use mirai_os.Prelude.{ℕ, zero, suc, ◌-◌, ◌%◌, ◌^◌, ◌==◌, if◌then◌else◌, Option, none, some}
use mirai_os.Thread.{
  Ptr, null, ThreadQueueEntry, ThreadInfoQueue, ThreadInfo, Store, update, put_entry, put_queue,
  add32, sub32,
}

-- Assignments to one field: `p->nextThread = v` and so on.
abbrev pub set_next : Ptr → Ptr → Store → Store
set_next p v st = put_entry st p (record (st.entries p) { next_thread = v })

abbrev pub set_prev : Ptr → Ptr → Store → Store
set_prev p v st = put_entry st p (record (st.entries p) { prev_thread = v })

abbrev pub set_queue : Ptr → Ptr → Store → Store
set_queue p v st = put_entry st p (record (st.entries p) { queue = v })

abbrev pub set_first : Ptr → Ptr → Store → Store
set_first q v st = put_queue st q (record (st.queues q) { first = v })

abbrev pub set_last : Ptr → Ptr → Store → Store
set_last q v st = put_queue st q (record (st.queues q) { last = v })

abbrev pub incr_threads : Ptr → Store → Store
incr_threads q st =
    put_queue st q (record (st.queues q) { nrof_threads = add32 (st.queues q).nrof_threads 1 })

abbrev pub decr_threads : Ptr → Store → Store
decr_threads q st =
    put_queue st q (record (st.queues q) { nrof_threads = sub32 (st.queues q).nrof_threads 1 })

-- `threadQueuePop` behind `queue->first = qe->nextThread`, where the value is `next`.
pub pop_next : Ptr → Ptr → Ptr → Store → Ptr × Store
pop_next q qe next st =
    let st1 = set_first q next st in
    let st2 = if next == null then set_last q null st1 else set_prev next null st1 in
    (qe, set_queue qe null (decr_threads q st2))

-- `threadQueuePop` where the first entry is `qe`.
pub pop_from : Ptr → Ptr → Store → Ptr × Store
pop_from q qe st = if qe == null then (null, st) else pop_next q qe (st.entries qe).next_thread st

-- `threadQueuePop`: the first entry, or NULL.
pub thread_queue_pop : Ptr → Store → Ptr × Store
thread_queue_pop q st = pop_from q (st.queues q).first st

-- `threadQueuePush` from the test of `queue->last` on, whose value is `last`.
pub push_behind : Ptr → Ptr → Ptr → Store → Store
push_behind q qe last st =
    let st1 =
      if last == null
      then set_prev qe null (set_first q qe st)
      else set_prev qe last (set_next last qe st) in
    incr_threads q (set_last q qe st1)

-- `threadQueuePush` on the entry `thread->queueEntry`.
pub push_entry_back : Ptr → Ptr → Store → Store
push_entry_back q qe st = push_behind q qe (st.queues q).last (set_next qe null (set_queue qe q st))

-- `threadQueuePush`
pub thread_queue_push : Ptr → Ptr → Store → Store
thread_queue_push q thread st = push_entry_back q (st.threads thread).queue_entry st

-- `threadQueuePushFront` from the test of `queue->last` on, whose value is `last`.
pub push_before : Ptr → Ptr → Ptr → Store → Store
push_before q qe last st = incr_threads q (if last == null then set_last q qe st else st)

-- `threadQueuePushFront` on the entry `thread->queueEntry`.
pub push_entry_front : Ptr → Ptr → Store → Store
push_entry_front q qe st =
    let st1 = set_prev qe null (set_queue qe q st) in
    push_before q qe (st.queues q).last (set_first q qe (set_next qe (st.queues q).first st1))

-- `threadQueuePushFront`
pub thread_queue_push_front : Ptr → Ptr → Store → Store
thread_queue_push_front q thread st = push_entry_front q (st.threads thread).queue_entry st

-- The two `if` statements of `threadQueueRemove`, on the values that their tests read.
pub unlink_prev : (q prev next : Ptr) → Store → Store
unlink_prev q prev next st = if prev == null then set_first q next st else set_next prev next st

pub unlink_next : (q prev next : Ptr) → Store → Store
unlink_next q prev next st = if next == null then set_last q prev st else set_prev next prev st

-- The three statements of `threadQueueRemove` on an entry that is in a queue.
pub unlink_prev_of : Ptr → Store → Store
unlink_prev_of qe st = let e = st.entries qe in unlink_prev e.queue e.prev_thread e.next_thread st

pub unlink_next_of : Ptr → Store → Store
unlink_next_of qe st = let e = st.entries qe in unlink_next e.queue e.prev_thread e.next_thread st

pub decr_of : Ptr → Store → Store
decr_of qe st = decr_threads (st.entries qe).queue st

pub unlink_entry : Ptr → Store → Store
unlink_entry qe st = decr_of qe (unlink_next_of qe (unlink_prev_of qe st))

-- The body of the loop of `threadQueueRemove`: the entry leaves its queue, if it is in one.
pub remove_entry : Ptr → Store → Store
remove_entry qe st =
    set_queue qe null (if (st.entries qe).queue == null then st else unlink_entry qe st)

-- The loop of `threadQueueRemove` along `prevQueueEntry`, with fuel.
pub remove_loop : ℕ → Ptr → Store → Option Store
remove_loop zero qe st = none
remove_loop (suc fuel) qe st =
    let st' = remove_entry qe st in
    let rest = remove_loop fuel (st'.entries qe).prev_queue_entry st' in
    if qe == null then some st else rest

-- `threadQueueRemove`
pub thread_queue_remove : ℕ → Ptr → Store → Option Store
thread_queue_remove fuel thread st = remove_loop fuel (st.threads thread).queue_entry st
