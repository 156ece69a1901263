-- ===== src/ProcTable/Tests.antt =====
-- Runs and witnesses for the table of processes.
use mirai_os.Prelude.{ℕ, ◌==◌, ◌≡◌, ◌≢◌, refl, if◌then◌else◌, some, [], ◌∷◌, arith}
use mirai_os.ProcTable.{
  Ptr, Process, ProcList, ProcTable, proc_hash, get_proc_from_pid, proc_ht_add, proc_ht_del,
}
use mirai_os.ProcTable.Chain.{IsBucket, IsApart}
use mirai_os.ProcTable.Lookup.{first_with, get_proc_from_pid-first_with}
use mirai_os.ProcTable.Add.{proc_ht_add-IsBucket}

abbrev a_process : ℕ → ℕ → ℕ → Process
a_process pid next prev = record { pid = pid; ht_next = next; ht_prev = prev }

-- The processes 1 and 2, with the pids 5 and 69, and 3 with the pid 133, which is not in the table.
abbrev table : ProcTable
table = record {
  proc_ht = λ i. if i == 5 then record { first = 1; last = 2 } else record { first = 0; last = 0 };
  process = λ p.
      if p == 1 then a_process 5 2 0 else if p == 2 then a_process 69 0 1 else a_process 133 0 0;
}

get_proc_from_pid-first_with_example :
    get_proc_from_pid 3 69 table ≡ some (first_with (λ x. (table.process x).pid) 69 (1 ∷ 2 ∷ []))
get_proc_from_pid-first_with_example =
    get_proc_from_pid-first_with 3 69 table (1 ∷ 2 ∷ []) (omega arith)
      (refl, omega arith, refl, (refl, omega arith, refl, (refl, refl)))

proc_ht_add-IsBucket_example :
    IsBucket (proc_ht_add 3 table) (proc_hash 133) (1 ∷ 2 ∷ 3 ∷ [])
    × ((i : ℕ) → i ≢ proc_hash 133 → (proc_ht_add 3 table).proc_ht i ≡ table.proc_ht i)
    × ((q : Ptr)
        → q ≢ 3
        → IsApart q (1 ∷ 2 ∷ [])
        → (proc_ht_add 3 table).process q ≡ table.process q)
proc_ht_add-IsBucket_example =
    proc_ht_add-IsBucket table 3 (1 ∷ 2 ∷ [])
      (refl, omega arith, refl, (refl, omega arith, refl, (refl, refl)))
      ((omega arith, tt), (tt, tt)) (omega arith, (omega arith, tt)) (omega arith)

-- `procHTDel` takes a process out again.
taken_out : get_proc_from_pid 3 5 (proc_ht_del 1 table) ≡ some 0
unfolding get_proc_from_pid proc_ht_del mirai_os.ProcTable.find_proc
taken_out = refl
