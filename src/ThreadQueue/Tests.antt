-- ===== src/ThreadQueue/Tests.antt =====
-- Runs of the thread queues, and instances of their theorems.
use mirai_os.Prelude.{◌≡◌, refl, ◌==◌, pos, false, if◌then◌else◌, List, [], ◌∷◌, arith, some, ◌+◌}
use mirai_os.Thread.{Ptr, null, ThreadQueueEntry, ThreadState, Store}
use mirai_os.ThreadQueue.{
  thread_queue_pop, thread_queue_push, thread_queue_remove, pop_from, pop_next, push_entry_back,
  push_behind,
}
use mirai_os.ThreadQueue.Links.{IsQueue}
use mirai_os.ThreadQueue.Pop.{thread_queue_pop-cons, PoppedEntry}
use mirai_os.ThreadQueue.Push.{PushedEntry, thread_queue_push-snoc}
use mirai_os.ThreadQueue.Remove.{RemovedEntry, thread_queue_remove-RemovedEntry}

abbrev entry_at : (next prev queue : Ptr) → ThreadQueueEntry
entry_at next prev queue = record {
  thread = 0;
  sig_cont = false;
  sig_depth = pos 0;
  next_thread = next;
  prev_thread = prev;
  queue = queue;
  prev_queue_entry = null;
  wait_data = null;
}

-- Queue 1 holds the entries 10, 11 and 12, and queue 2 is empty; thread t has the entry t + 10.
abbrev store : Store
store = record {
  entries = λ p.
      if p == 10
      then entry_at 11 0 1
      else if p == 11
      then entry_at 12 10 1
      else if p == 12
      then entry_at 0 11 1
      else entry_at 0 0 0;
  queues = λ q.
      if q == 1
      then record { first = 10; last = 12; nrof_threads = 3 }
      else record { first = 0; last = 0; nrof_threads = 0 };
  threads = λ t. record {
    state = ThreadState.running;
    cpu_affinity = 0;
    sig_depth = pos 0;
    queue_entry = t + 10;
    priority = 1;
    fixed_priority = false;
    jiffies_remaining = pos 0;
  };
  cpus = λ c. record {
    apic_id = c;
    active = false;
    ready_list = λ i. i;
    thread_load = 0;
    nrof_ready_threads = 0;
  };
}

abbrev three : List Ptr
three = 10 ∷ 11 ∷ 12 ∷ []

store-IsQueue : IsQueue store 1 three
store-IsQueue = record { first = refl; last = refl; count = refl; links = ground arith }

empty-IsQueue : IsQueue store 2 []
empty-IsQueue = record { first = refl; last = refl; count = refl; links = tt }

pop_runs : (thread_queue_pop 1 store).0 ≡ 10
unfolding thread_queue_pop pop_from pop_next
pop_runs = refl

push_runs : ((thread_queue_push 1 5 store).queues 1).last ≡ 15
unfolding thread_queue_push push_entry_back push_behind
push_runs = refl

thread_queue_pop-cons_example : PoppedEntry store 1 10 (11 ∷ 12 ∷ []) (thread_queue_pop 1 store)
thread_queue_pop-cons_example = thread_queue_pop-cons store 1 10 (11 ∷ 12 ∷ []) store-IsQueue

thread_queue_push-snoc_example :
    PushedEntry store 1 15 three (10 ∷ 11 ∷ 12 ∷ 15 ∷ []) (thread_queue_push 1 5 store)
thread_queue_push-snoc_example =
    thread_queue_push-snoc store 1 5 three store-IsQueue (omega arith) refl

thread_queue_remove-RemovedEntry_example :
    (st : Store) × (thread_queue_remove 2 1 store ≡ some st)
    × RemovedEntry store 1 11 (10 ∷ []) (12 ∷ []) st
thread_queue_remove-RemovedEntry_example =
    thread_queue_remove-RemovedEntry store 1 1 (10 ∷ []) (12 ∷ []) 0 store-IsQueue (omega arith)
      refl
