-- ===== src/Thread.antt =====
-- The scheduler's objects (kernel/include/sched/thread.h, kernel/include/sched/queue.h and the
-- scheduling part of kernel/arch/x86_64/include/arch/cpu.h) on an explicit store. A pointer is a
-- number, 0 is NULL, and each kind of object has its own addresses.
use mirai_os.Prelude.{ℕ, ◌+◌, ◌-◌, ◌%◌, ◌^◌, ◌==◌, ◌≡◌, ◌≢◌, arith, ℤ, Bool, if◌then◌else◌}

abbrev pub Ptr : Type 0
Ptr = ℕ

abbrev pub null : Ptr
null = 0

-- `struct ThreadQueueEntry`
pub record ThreadQueueEntry : Type 0 where
  pub thread : Ptr
  pub sig_cont : Bool
  pub sig_depth : ℤ
  pub next_thread : Ptr
  pub prev_thread : Ptr
  pub queue : Ptr
  pub prev_queue_entry : Ptr
  pub wait_data : Ptr

-- `struct ThreadInfoQueue`. The count is an `int`, kept as its 32 bits.
pub record ThreadInfoQueue : Type 0 where
  pub first : Ptr
  pub last : Ptr
  pub nrof_threads : ℕ

-- `enum threadState`
pub data ThreadState : Type 0 where
  finished running schedwait lockwait sleep pidwait : ThreadState

-- The fields of `struct ThreadInfo` that the scheduler's queues read and write.
pub record ThreadInfo : Type 0 where
  pub state : ThreadState
  pub cpu_affinity : ℕ
  pub sig_depth : ℤ
  pub queue_entry : Ptr
  pub priority : ℕ
  pub fixed_priority : Bool
  pub jiffies_remaining : ℤ

-- The scheduling part of `struct CpuInfo`. `ready_list i` is the address of `readyList[i]`; the
-- counters are 32 bits wide.
pub record CpuInfo : Type 0 where
  pub apic_id : ℕ
  pub active : Bool
  pub ready_list : ℕ → Ptr
  pub thread_load : ℕ
  pub nrof_ready_threads : ℕ

pub record Store : Type 0 where
  pub entries : Ptr → ThreadQueueEntry
  pub queues : Ptr → ThreadInfoQueue
  pub threads : Ptr → ThreadInfo
  pub cpus : ℕ → CpuInfo

-- A function changed at one address.
abbrev pub update {ℓ} : {A : Type ℓ} → (ℕ → A) → ℕ → A → ℕ → A
update f p v a = if a == p then v else f a

abbrev pub put_entry : Store → Ptr → ThreadQueueEntry → Store
put_entry st p e = record st { entries = update st.entries p e }

abbrev pub put_queue : Store → Ptr → ThreadInfoQueue → Store
put_queue st q v = record st { queues = update st.queues q v }

abbrev pub put_thread : Store → Ptr → ThreadInfo → Store
put_thread st t v = record st { threads = update st.threads t v }

abbrev pub put_cpu : Store → ℕ → CpuInfo → Store
put_cpu st c v = record st { cpus = update st.cpus c v }

-- `x += n` and `x -= n` on 32 bits.
abbrev pub add32 : ℕ → ℕ → ℕ
add32 a b = (a + b) % 2 ^ 32

abbrev pub sub32 : ℕ → ℕ → ℕ
sub32 a b = (a + 2 ^ 32 - b) % 2 ^ 32

pub if_null_ne {ℓ} : {A : Type ℓ} (p : Ptr) (a b : A) → p ≢ null → (if p == null then a else b) ≡ b
if_null_ne p a b h = ground arith
