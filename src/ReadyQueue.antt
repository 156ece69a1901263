-- ===== src/ReadyQueue.antt =====
-- The scheduler's ready queues (kernel/sched/readyqueue.c): eight queues for each processor. The
-- functions run under the locks that the source takes, so that each is one step on the store. The
-- processor that runs them is `this`; `cpuInfosIndex` of the processor at index c is c.
pub mod Priority
pub mod Ready
pub mod Get
pub mod Busiest
pub mod Choose
pub mod Pop
pub mod Push
pub mod Exchange
mod Tests
use mirai_os.Prelude.{
  ℕ, zero, suc, ◌+◌, ◌-◌, ◌*◌, ◌/◌, ◌^◌, ◌==◌, ltb, ℤ, pos, negsuc, Bool, true, false, not, ◌&&◌,
  ◌||◌, if◌then◌else◌, Option, none, some,
}
use mirai_os.Thread.{
  Ptr, null, ThreadState, ThreadInfo, CpuInfo, Store, put_entry, put_thread, put_cpu, add32, sub32,
}
use mirai_os.ThreadQueue.{thread_queue_pop, thread_queue_push, thread_queue_push_front}

abbrev pub nrof_queue_priorities : ℕ
nrof_queue_priorities = 8

-- JIFFY_HZ / 10
abbrev pub timeslice_base : ℕ
timeslice_base = 100

-- z < n
abbrev pub below : ℤ → ℕ → Bool
below (pos a) n = ltb a n
below (negsuc a) n = true

-- x < y
abbrev pub ltℤ : ℤ → ℤ → Bool
ltℤ (pos a) (pos b) = ltb a b
ltℤ (pos a) (negsuc b) = false
ltℤ (negsuc a) (pos b) = true
ltℤ (negsuc a) (negsuc b) = ltb b a

-- `NROF_QUEUE_PRIORITIES - priority`, added to 32 bits.
abbrev pub weight : ℕ → ℕ
weight priority = sub32 nrof_queue_priorities priority

-- The priority that `calcNewPriority` sets.
pub new_priority : (fixed : Bool) (remaining : ℤ) (priority : ℕ) → ℕ
new_priority fixed remaining priority =
    let half = timeslice_base * 2 ^ priority / 2 in
    if fixed || (not (below remaining 1) && below remaining half)
    then priority
    else if below remaining 1
    then (if ltb priority (nrof_queue_priorities - 1) then priority + 1 else priority)
    else if not (below remaining half) && ltb 1 priority
    then priority - 1
    else priority

-- `calcNewPriority`
pub calc_new_priority : ThreadInfo → ThreadInfo
calc_new_priority t = record t {
  priority = new_priority t.fixed_priority t.jiffies_remaining t.priority;
}

-- `getThreadFromCPU` where the queue of priority `i` gave `qe`.
pub take_entry : (i cpu qe : ℕ) → Store → Ptr × Store
take_entry i cpu qe st =
    let thread = (st.entries qe).thread in
    let info = st.cpus cpu in
    let less = record info { nrof_ready_threads = sub32 info.nrof_ready_threads 1 } in
    let started = record (st.threads thread) { jiffies_remaining = pos (timeslice_base * 2 ^ i) } in
    (thread, put_thread (put_cpu st cpu less) thread started)

-- The loop of `getThreadFromCPU` from priority `i` on, with `n` rounds left.
pub get_loop : (n i cpu : ℕ) → Store → Ptr × Store
get_loop zero i cpu st = (null, st)
get_loop (suc n) i cpu st =
    let popped = thread_queue_pop ((st.cpus cpu).ready_list i) st in
    let rest = get_loop n (i + 1) cpu popped.1 in
    if popped.0 == null then rest else take_entry i cpu popped.0 popped.1

-- `getThreadFromCPU`
pub get_thread_from_cpu : ℕ → Store → Ptr × Store
get_thread_from_cpu cpu st = get_loop nrof_queue_priorities 0 cpu st

-- One round of the search for the busiest processor: `busiestCPU` and `load`.
pub busier : (this i : ℕ) → CpuInfo → Option ℕ × ℕ → Option ℕ × ℕ
busier this i info acc =
    if i == this
    then acc
    else if ltb 0 info.nrof_ready_threads && ltb acc.1 info.thread_load
    then (some i, info.thread_load)
    else acc

pub busiest_loop : (n i this : ℕ) → (ℕ → CpuInfo) → Option ℕ × ℕ → Option ℕ × ℕ
busiest_loop zero i this cpus acc = acc
busiest_loop (suc n) i this cpus acc = busiest_loop n (i + 1) this cpus (busier this i (cpus i) acc)

-- `readyQueuePop` behind `getThreadFromCPU(busiestCPU)`, whose result is `thread`.
pub move_thread : (this busiest thread : ℕ) → Store → Ptr × Store
move_thread this busiest thread st =
    let t = st.threads thread in
    let st1 = put_thread st thread (record t { cpu_affinity = this }) in
    let old = st1.cpus busiest in
    let st2 =
      put_cpu st1 busiest
        (record old { thread_load = sub32 old.thread_load (weight t.priority) }) in
    let own = st2.cpus this in
    (
      thread,
      put_cpu st2 this (record own { thread_load = add32 own.thread_load (weight t.priority) }),
    )

pub steal_from : (this busiest : ℕ) → Store → Ptr × Store
steal_from this busiest st =
    let got = get_thread_from_cpu busiest st in
    if got.0 == null then got else move_thread this busiest got.0 got.1

pub steal : (nrof_cpus this : ℕ) → Store → Ptr × Store
steal nrof_cpus this st = elim ((busiest_loop nrof_cpus 0 this st.cpus (none, 0)).0) [
  | none ↦ (null, st)
  | some busiest ↦ steal_from this busiest st
]

-- `readyQueuePop`: the thread, or NULL.
pub ready_queue_pop : (nrof_cpus nrof_active_cpus this : ℕ) → Store → Ptr × Store
ready_queue_pop nrof_cpus nrof_active_cpus this st =
    let got = get_thread_from_cpu this st in
    if not (got.0 == null) || ltb nrof_active_cpus 2 then got else steal nrof_cpus this got.1

-- The loop of `readyQueuePush` that looks for an active processor without load.
pub find_idle : (n i : ℕ) → (ℕ → CpuInfo) → Option ℕ
find_idle zero i cpus = none
find_idle (suc n) i cpus =
    let rest = find_idle n (i + 1) cpus in
    if (cpus i).active && ((cpus i).thread_load == 0) then some i else rest

-- `cpuIndex` of `readyQueuePush`
pub choose_cpu : (nrof_cpus affinity : ℕ) → (ℕ → CpuInfo) → ℕ
choose_cpu nrof_cpus affinity cpus =
    if (cpus affinity).thread_load == 0
    then affinity
    else elim (find_idle nrof_cpus 0 cpus) [ none ↦ affinity | some i ↦ i ]

-- The part of `readyQueuePush` under `readyListLock`.
pub push_on : (cpu priority thread : ℕ) → Store → Store
push_on cpu priority thread st =
    let info = st.cpus cpu in
    let more = record info {
      thread_load = add32 info.thread_load (weight priority);
      nrof_ready_threads = add32 info.nrof_ready_threads 1;
    } in
    thread_queue_push (info.ready_list priority) thread (put_cpu st cpu more)

-- `readyQueuePush` of a thread that is not in a signal handler started since: the store, and the
-- APIC id of the processor that is sent an interrupt.
pub push_thread : (nrof_cpus this thread : ℕ) → Store → Store × Option ℕ
push_thread nrof_cpus this thread st =
    let t = calc_new_priority (record (st.threads thread) { state = ThreadState.schedwait }) in
    let cpu = choose_cpu nrof_cpus t.cpu_affinity st.cpus in
    let st1 = put_thread st thread (record t { cpu_affinity = cpu }) in
    (push_on cpu t.priority thread st1, if this == cpu then none else some (st.cpus cpu).apic_id)

-- `readyQueuePush`
pub ready_queue_push : (nrof_cpus this qe : ℕ) → Store → Store × Option ℕ
ready_queue_push nrof_cpus this qe st =
    let e = st.entries qe in
    if ltℤ e.sig_depth (st.threads e.thread).sig_depth
    then (put_entry st qe (record e { sig_cont = true }), none)
    else push_thread nrof_cpus this e.thread st

-- `readyQueueExchange` with `front` false, up to `nrofReadyThreads++`.
pub exchange_back : (this thread : ℕ) → Store → Store
exchange_back this thread st =
    let old = st.threads thread in
    let t = calc_new_priority old in
    let st1 = put_thread st thread t in
    let info = st1.cpus this in
    let load = add32 info.thread_load (sub32 t.priority old.priority) in
    thread_queue_push (info.ready_list t.priority) thread
      (put_cpu st1 this (record info { thread_load = load }))

pub exchange_front : (this thread : ℕ) → Store → Store
exchange_front this thread st =
    thread_queue_push_front ((st.cpus this).ready_list (st.threads thread).priority) thread st

-- `readyQueueExchange`
pub ready_queue_exchange : (this thread : ℕ) (front : Bool) → Store → Ptr × Store
ready_queue_exchange this thread front st =
    let st1 = if front then exchange_front this thread st else exchange_back this thread st in
    let info = st1.cpus this in
    let more = record info { nrof_ready_threads = add32 info.nrof_ready_threads 1 } in
    get_thread_from_cpu this (put_cpu st1 this more)
