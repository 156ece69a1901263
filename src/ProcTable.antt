-- ===== src/ProcTable.antt =====
-- The hash table of processes, kernel/main/fork.c: `procHash`, `getProcFromPid`, `procHTAdd` and
-- `procHTDel`, on a store of processes. A pointer is a number and NULL is 0; a pid is not negative.
-- The lock makes each call one step.
pub mod Chain
pub mod Lookup
pub mod Add
mod Tests
use mirai_os.Prelude.{ℕ, zero, suc, ◌%◌, ◌==◌, Bool, true, false, if◌then◌else◌, Option, none, some}

abbrev pub Ptr : Type 0
Ptr = ℕ

-- What `struct Process` has for the table.
pub record Process : Type 0 where
  pub pid : ℕ
  pub ht_next : Ptr
  pub ht_prev : Ptr

pub record ProcList : Type 0 where
  pub first : Ptr
  pub last : Ptr

-- `procHT` and the processes.
pub record ProcTable : Type 0 where
  pub proc_ht : ℕ → ProcList
  pub process : Ptr → Process

-- `pid % PROC_HT_SIZE`
abbrev pub proc_hash : ℕ → ℕ
proc_hash pid = pid % 64

abbrev pub set_process : Ptr → Process → ProcTable → ProcTable
set_process p v t = record t { process = λ q. if q == p then v else t.process q }

abbrev pub set_list : ℕ → ProcList → ProcTable → ProcTable
set_list h v t = record t { proc_ht = λ i. if i == h then v else t.proc_ht i }

abbrev pub set_next : Ptr → Ptr → ProcTable → ProcTable
set_next p v t = set_process p (record (t.process p) { ht_next = v }) t

abbrev pub set_prev : Ptr → Ptr → ProcTable → ProcTable
set_prev p v t = set_process p (record (t.process p) { ht_prev = v }) t

abbrev pub set_first : ℕ → Ptr → ProcTable → ProcTable
set_first h v t = set_list h (record (t.proc_ht h) { first = v }) t

abbrev pub set_last : ℕ → Ptr → ProcTable → ProcTable
set_last h v t = set_list h (record (t.proc_ht h) { last = v }) t

-- The loop of `getProcFromPid`.
pub find_proc : (fuel : ℕ) (proc : Ptr) (pid : ℕ) → ProcTable → Option Ptr
find_proc zero proc pid t = none
find_proc (suc fuel) proc pid t =
    let rest = find_proc fuel (t.process proc).ht_next pid t in
    if proc == 0 then some 0 else if (t.process proc).pid == pid then some proc else rest

pub get_proc_from_pid : (fuel pid : ℕ) → ProcTable → Option Ptr
get_proc_from_pid fuel pid t = find_proc fuel (t.proc_ht (proc_hash pid)).first pid t

pub proc_ht_add : (proc : Ptr) → ProcTable → ProcTable
proc_ht_add proc t =
    let t1 = set_next proc 0 t in
    let h = proc_hash (t1.process proc).pid in
    let last = (t1.proc_ht h).last in
    let t2 =
      if last == 0
      then set_prev proc 0 (set_first h proc t1)
      else set_prev proc last (set_next last proc t1) in
    set_last h proc t2

pub proc_ht_del : (proc : Ptr) → ProcTable → ProcTable
proc_ht_del proc t =
    let h = proc_hash (t.process proc).pid in
    let prev = (t.process proc).ht_prev in
    let next = (t.process proc).ht_next in
    let t1 = if prev == 0 then set_first h next t else set_next prev next t in
    let next1 = (t1.process proc).ht_next in
    let prev1 = (t1.process proc).ht_prev in
    if next1 == 0 then set_last h prev1 t1 else set_prev next1 prev1 t1
