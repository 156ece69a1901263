-- ===== src/Semaphore.antt =====
-- Semaphores (kernel/sched/lock.c), whose waiting threads stand in a thread queue. Each function is
-- one step under the locks that it takes. A semaphore is a record beside the store, and its queue
-- is at an address of the store.
pub mod Wait
pub mod Signal
mod Tests
use mirai_os.Prelude.{
  ℕ, zero, suc, ◌+◌, ◌-◌, ◌==◌, ltb, ℤ, pos, negsuc, Bool, true, false, if◌then◌else◌, Option, none,
  some,
}
use mirai_os.Thread.{Ptr, null, ThreadState, Store, put_thread}
use mirai_os.ThreadQueue.{thread_queue_pop, thread_queue_push}
use mirai_os.ReadyQueue.{ready_queue_push}

pub record Semaphore : Type 0 where
  pub value : ℤ
  pub queue : Ptr

-- z > 0, z + 1 and z - 1
abbrev pub is_pos : ℤ → Bool
is_pos (pos zero) = false
is_pos (pos (suc n)) = true
is_pos (negsuc n) = false

abbrev pub incr : ℤ → ℤ
incr (pos n) = pos (n + 1)
incr (negsuc zero) = pos 0
incr (negsuc (suc n)) = negsuc n

abbrev pub decr : ℤ → ℤ
decr (pos zero) = negsuc 0
decr (pos (suc n)) = pos n
decr (negsuc n) = negsuc (n + 1)

-- `semInit`
pub sem_init : ℤ → Semaphore → Semaphore
sem_init value sem = record sem { value = value }

-- The thread `thread` waits in the queue of `semWait`, up to `kthreadStop`.
pub block : (queue thread : Ptr) → Store → Store
block queue thread st =
    let st1 = thread_queue_push queue thread st in
    put_thread st1 thread (record (st1.threads thread) { state = ThreadState.lockwait })

-- `semWait` of the current thread `thread`: does it stop, and what is left.
pub sem_wait : (thread : Ptr) → Semaphore → Store → Bool × Semaphore × Store
sem_wait thread sem st =
    if is_pos sem.value
    then (false, record sem { value = decr sem.value }, st)
    else (true, sem, block sem.queue thread st)

-- `semSignal` where `threadQueuePop` gave `freed`. The last part is the processor that
-- `readyQueuePush` interrupts.
pub release : (nrof_cpus this freed : ℕ) → Semaphore → Store → Semaphore × Store × Option ℕ
release nrof_cpus this freed sem st =
    if freed == null
    then (record sem { value = incr sem.value }, st, none)
    else (let pushed = ready_queue_push nrof_cpus this freed st in (sem, pushed.0, pushed.1))

-- `semSignal`
pub sem_signal : (nrof_cpus this : ℕ) → Semaphore → Store → Semaphore × Store × Option ℕ
sem_signal nrof_cpus this sem st =
    let popped = thread_queue_pop sem.queue st in
    if is_pos sem.value
    then (record sem { value = incr sem.value }, st, none)
    else release nrof_cpus this popped.0 sem popped.1
