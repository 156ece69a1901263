-- ===== src/Semaphore/Tests.antt =====
-- Instances of the theorems on semaphores.
use mirai_os.Prelude.{ℕ, ◌+◌, ◌==◌, refl, pos, true, false, if◌then◌else◌, List, [], ◌∷◌, arith}
use mirai_os.Thread.{Ptr, ThreadState, Store}
use mirai_os.ReadyQueue.{choose_cpu}
use mirai_os.ReadyQueue.Ready.{IsReady}
use mirai_os.Semaphore.{Semaphore, sem_wait, sem_signal}
use mirai_os.Semaphore.Wait.{IsSemaphore, Waited, sem_wait-Waited}
use mirai_os.Semaphore.Signal.{IsApart, Signalled, sem_signal-Signalled}

-- Thread 40 waits in the queue 3 with its entry 50. Thread t has the entry t + 10, and the one
-- processor has the empty queues 10, .., 17.
abbrev store : Store
store = record {
  entries = λ p. record {
    thread = if p == 50 then 40 else 41;
    sig_cont = false;
    sig_depth = pos 0;
    next_thread = 0;
    prev_thread = 0;
    queue = if p == 50 then 3 else 0;
    prev_queue_entry = 0;
    wait_data = 0;
  };
  queues = λ q.
      if q == 3
      then record { first = 50; last = 50; nrof_threads = 1 }
      else record { first = 0; last = 0; nrof_threads = 0 };
  threads = λ t. record {
    state = ThreadState.lockwait;
    cpu_affinity = 0;
    sig_depth = pos 0;
    queue_entry = t + 10;
    priority = 1;
    fixed_priority = false;
    jiffies_remaining = pos 5;
  };
  cpus = λ c. record {
    apic_id = c;
    active = true;
    ready_list = λ i. 10 + i;
    thread_load = 0;
    nrof_ready_threads = 0;
  };
}

abbrev locked : Semaphore
locked = record { value = pos 0; queue = 3 }

abbrev free : Semaphore
free = record { value = pos 2; queue = 4 }

abbrev nobody : ℕ → List Ptr
nobody i = []

locked-IsSemaphore : IsSemaphore locked store 0 (50 ∷ [])
locked-IsSemaphore = record {
  value = refl;
  waiting = record { first = refl; last = refl; count = refl; links = ground arith };
  nobody = λ ne. absurd (ne refl);
}

free-IsSemaphore : IsSemaphore free store 2 []
free-IsSemaphore = record {
  value = refl;
  waiting = record { first = refl; last = refl; count = refl; links = tt };
  nobody = λ ne. refl;
}

store-IsReady : (c : ℕ) → IsReady store (store.cpus c).ready_list nobody
store-IsReady c = record {
  queues = λ i lt. record {
    first = ground arith;
    last = ground arith;
    count = ground arith;
    links = tt;
  };
  apart = λ i j hi hj ne e. ne (omega arith);
  disjoint = λ i j p hi hj ne m. refl;
}

store-IsApart : (c : ℕ) → IsApart (store.cpus c).ready_list nobody 3 (50 ∷ [])
store-IsApart c = record {
  queue = λ i lt e. omega arith;
  entries = λ i p lt m. absurd (ground arith);
}

sem_wait-Waited_example : Waited 41 0 (50 ∷ []) store (sem_wait 41 locked store)
sem_wait-Waited_example =
    sem_wait-Waited 41 locked store 0 (50 ∷ []) locked-IsSemaphore (omega arith) refl

sem_signal-Signalled_example : Signalled 1 0 locked store 50 [] nobody (sem_signal 1 0 locked store)
sem_signal-Signalled_example =
    sem_signal-Signalled 1 0 locked store 50 [] nobody locked-IsSemaphore refl (omega arith) refl
      (store-IsReady (choose_cpu 1 0 store.cpus)) (store-IsApart (choose_cpu 1 0 store.cpus))
