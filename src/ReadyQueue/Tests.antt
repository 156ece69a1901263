-- ===== src/ReadyQueue/Tests.antt =====
-- Runs of the ready queues, and instances of their theorems.
use mathlib.Core.Path.{subst}
use mirai_os.Prelude.{
  sym, ℕ, ◌+◌, ◌*◌, ◌==◌, ◌≡◌, refl, pos, true, false, if◌then◌else◌, none, some, List, [], ◌∷◌,
  arith, inl, inr, Bool-cases,
}
use mirai_os.Thread.{Ptr, ThreadState, Store, put_entry}
use mirai_os.ThreadQueue.Links.{IsQueue}
use mirai_os.ReadyQueue.{
  ready_queue_pop, busier, ready_queue_push, choose_cpu, find_idle, busiest_loop, calc_new_priority,
}
use mirai_os.ReadyQueue.Priority.{FeedbackRule, calc_new_priority-FeedbackRule}
use mirai_os.ReadyQueue.Ready.{IsReady}
use mirai_os.ReadyQueue.Get.{GotThread}
use mirai_os.ReadyQueue.Pop.{ready_queue_pop-GotThread}
use mirai_os.ReadyQueue.Push.{PushedThread, ready_queue_push-PushedThread, ready_queue_push-deeper}

-- Thread 40 waits for processor 0 at priority 1 with its entry 50; the thread 41 of processor 0 has
-- the entry 51, which is in no queue.
abbrev store : Store
store = record {
  entries = λ p. record {
    thread = if p == 50 then 40 else 41;
    sig_cont = false;
    sig_depth = pos 0;
    next_thread = 0;
    prev_thread = 0;
    queue = if p == 50 then 2 else 0;
    prev_queue_entry = 0;
    wait_data = 0;
  };
  queues = λ q.
      if q == 2
      then record { first = 50; last = 50; nrof_threads = 1 }
      else record { first = 0; last = 0; nrof_threads = 0 };
  threads = λ t. record {
    state = ThreadState.running;
    cpu_affinity = 0;
    sig_depth = pos 0;
    queue_entry = t + 10;
    priority = 1;
    fixed_priority = false;
    jiffies_remaining = pos 0;
  };
  cpus = λ c. record {
    apic_id = c;
    active = true;
    ready_list = λ i. 10 * c + i + 1;
    thread_load = if c == 0 then 7 else 0;
    nrof_ready_threads = if c == 0 then 1 else 0;
  };
}

-- The same, with thread 41 in a signal handler.
abbrev busy : Store
busy = record store {
  threads = λ t. record (store.threads t) { sig_depth = if t == 41 then pos 1 else pos 0 };
}

abbrev waiting : ℕ → List Ptr
waiting i = if i == 1 then 50 ∷ [] else []

abbrev nobody : ℕ → List Ptr
nobody i = []

store-IsQueue : (i : ℕ) → IsQueue store (10 * 0 + i + 1) (waiting i)
store-IsQueue i = elim (Bool-cases (i == 1)) [
  | inl e ↦
      let same : i ≡ 1 = ground arith in
      rw same (record { first = refl; last = refl; count = refl; links = ground arith })
  | inr e ↦ record {
    first = ground arith;
    last = ground arith;
    count = ground arith;
    links = ground arith;
  }
]

store-IsReady : IsReady store (store.cpus 0).ready_list waiting
store-IsReady = record {
  queues = λ i lt. store-IsQueue i;
  apart = λ i j hi hj ne e. ne (omega arith);
  disjoint = λ i j p hi hj ne m. ground arith;
}

idle-IsReady : IsReady store (store.cpus 1).ready_list nobody
idle-IsReady = record {
  queues = λ i lt. record {
    first = ground arith;
    last = ground arith;
    count = ground arith;
    links = tt;
  };
  apart = λ i j hi hj ne e. ne (omega arith);
  disjoint = λ i j p hi hj ne m. refl;
}

calc_new_priority-FeedbackRule_example :
    let t = store.threads 40 in
    FeedbackRule t.fixed_priority t.jiffies_remaining t.priority (calc_new_priority t).priority
calc_new_priority-FeedbackRule_example =
    calc_new_priority-FeedbackRule (store.threads 40) (omega arith)

ready_queue_pop-GotThread_example : GotThread store 0 1 50 [] waiting (ready_queue_pop 2 2 0 store)
ready_queue_pop-GotThread_example =
    ready_queue_pop-GotThread 2 2 0 1 store 50 [] waiting store-IsReady (omega arith)
      (λ k lt. ground arith) refl (omega arith)

zero_busiest : (busiest_loop 2 0 1 store.cpus (none, 0)).0 ≡ some 0
unfolding busiest_loop busier
zero_busiest = refl

idle_chosen : choose_cpu 2 0 store.cpus ≡ 1
unfolding choose_cpu find_idle
idle_chosen = refl

ready_queue_push-PushedThread_example :
    PushedThread 0 (choose_cpu 2 0 store.cpus) 41 store nobody (ready_queue_push 2 0 51 store)
ready_queue_push-PushedThread_example =
    ready_queue_push-PushedThread 2 0 51 store nobody refl (omega arith)
      (subst (λ c. IsReady store (store.cpus c).ready_list nobody) (sym idle_chosen) idle-IsReady)
      (omega arith) (λ j hj. refl)

ready_queue_push-deeper_example :
    ready_queue_push 2 0 51 busy
    ≡ (put_entry busy 51 (record (busy.entries 51) { sig_cont = true }), none)
ready_queue_push-deeper_example = ready_queue_push-deeper 2 0 51 busy refl
