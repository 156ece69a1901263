-- ===== src/ProcTable/Lookup.antt =====
-- `getProcFromPid` is the search of the list.
use mirai_os.Prelude.{
  ℕ, zero, suc, ◌<◌, ◌==◌, ◌≡◌, refl, true, false, if◌then◌else◌, some, List, [], ◌∷◌, length,
  arith, inl, inr, Bool-cases,
}
use mirai_os.ProcTable.{Ptr, ProcTable, proc_hash, find_proc, get_proc_from_pid}
use mirai_os.ProcTable.Chain.{IsChain, IsBucket}

-- The first process with the pid, or NULL.
abbrev pub first_with : (pids : Ptr → ℕ) (pid : ℕ) → List Ptr → Ptr
first_with pids pid [] = 0
first_with pids pid (x ∷ xs) = if pids x == pid then x else first_with pids pid xs

pub find_proc-first_with :
    (fuel pid : ℕ) (t : ProcTable) (prev p last : Ptr) (xs : List Ptr)
    → length xs < fuel
    → IsChain t prev p last xs
    → find_proc fuel p pid t ≡ some (first_with (λ x. (t.process x).pid) pid xs)
unfolding find_proc
find_proc-first_with zero pid t prev p last xs lt h = absurd (omega arith)
find_proc-first_with (suc fuel) pid t prev p last [] lt h =
    let test : (p == 0) ≡ true = ground (arith, h.0) in rw test refl
find_proc-first_with (suc fuel) pid t prev p last (x ∷ xs) lt h =
    let test : (x == 0) ≡ false = ground (arith, h.1) in
    let rest = find_proc-first_with fuel pid t x (t.process x).ht_next last xs (omega arith) h.3 in
    elim (Bool-cases ((t.process x).pid == pid)) [
      | inl e ↦ rw (h.0, test, e) refl
      | inr e ↦ rw (h.0, test, e) rest
    ]

pub get_proc_from_pid-first_with :
    (fuel pid : ℕ) (t : ProcTable) (xs : List Ptr)
    → length xs < fuel
    → IsBucket t (proc_hash pid) xs
    → get_proc_from_pid fuel pid t ≡ some (first_with (λ x. (t.process x).pid) pid xs)
unfolding get_proc_from_pid
get_proc_from_pid-first_with fuel pid t xs lt h =
    find_proc-first_with fuel pid t 0 (t.proc_ht (proc_hash pid)).first
      (t.proc_ht (proc_hash pid)).last xs lt h
