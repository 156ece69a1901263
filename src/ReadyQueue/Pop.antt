-- ===== src/ReadyQueue/Pop.antt =====
-- `readyQueuePop`: the processor's own threads first, then those of the busiest other one.
use mirai_os.Prelude.{
  ℕ, ◌≤◌, ◌<◌, ◌==◌, ltb, ◌≡◌, ◌≢◌, refl, false, none, some, List, [], ◌∷◌, arith, ap, sym,
}
use mirai_os.Thread.{Ptr, null, Store, update, add32, sub32}
use mirai_os.ReadyQueue.{
  weight, get_thread_from_cpu, busiest_loop, move_thread, steal_from, steal, ready_queue_pop,
}
use mirai_os.ReadyQueue.Ready.{IsReady, IsReady-same}
use mirai_os.ReadyQueue.Get.{GotThread, get_thread_from_cpu-GotThread, get_thread_from_cpu-none}

-- Where `x` is the first entry of the first queue of the processor itself that has one,
-- `readyQueuePop` returns its thread, and does what `getThreadFromCPU` does.
pub ready_queue_pop-GotThread :
    (nrof_cpus nrof_active_cpus this i : ℕ) (st : Store) (x : Ptr) (xs : List Ptr)
    (qs : ℕ → List Ptr)
    → IsReady st (st.cpus this).ready_list qs
    → i < 8
    → ((k : ℕ) → k < i → qs k ≡ [])
    → qs i ≡ x ∷ xs
    → (st.entries x).thread ≢ null
    → GotThread st this i x xs qs (ready_queue_pop nrof_cpus nrof_active_cpus this st)
unfolding ready_queue_pop
ready_queue_pop-GotThread nrof_cpus nrof_active_cpus this i st x xs qs is lt empty here ne =
    let got = get_thread_from_cpu-GotThread st this i x xs qs is lt empty here in
    let some_thread : ((get_thread_from_cpu this st).0 == null) ≡ false =
      ground (arith, got.thread) in
    rw some_thread got

-- The thread `t` of processor `from` is one of processor `to` from now on.
pub record MovedThread (st : Store) (from to t : ℕ) (r : Ptr × Store) : Type 0 where
  pub thread : r.0 ≡ t
  pub affinity : (r.1.threads t).cpu_affinity ≡ to
  pub taken :
      (r.1.cpus from).thread_load
      ≡ sub32 (st.cpus from).thread_load (weight (r.1.threads t).priority)
  pub added :
      (r.1.cpus to).thread_load ≡ add32 (st.cpus to).thread_load (weight (r.1.threads t).priority)

move_thread-MovedThread :
    (st st' : Store) (from to t : ℕ)
    → from ≢ to
    → (st'.cpus from).thread_load ≡ (st.cpus from).thread_load
    → (st'.cpus to).thread_load ≡ (st.cpus to).thread_load
    → MovedThread st from to t (move_thread to from t st')
unfolding move_thread
move_thread-MovedThread st st' from to t ne e e' = record {
  thread = refl;
  affinity = ground arith;
  taken = ground arith;
  added = ground arith;
}

move_thread-IsReady :
    (st : Store) (this from t : ℕ) (rl : ℕ → Ptr) (qs : ℕ → List Ptr)
    → IsReady st rl qs
    → IsReady (move_thread this from t st).1 rl qs
unfolding move_thread
move_thread-IsReady st this from t rl qs is =
    IsReady-same st (move_thread this from t st).1 rl qs refl refl is

steal_from-MovedThread :
    (this from i : ℕ) (st : Store) (x : Ptr) (xs : List Ptr) (qs : ℕ → List Ptr)
    → from ≢ this
    → IsReady st (st.cpus from).ready_list qs
    → i < 8
    → ((k : ℕ) → k < i → qs k ≡ [])
    → qs i ≡ x ∷ xs
    → (st.entries x).thread ≢ null
    → let r = steal_from this from st in
      MovedThread st from this (st.entries x).thread r
      × IsReady r.1 (st.cpus from).ready_list (update qs i xs)
unfolding steal_from
steal_from-MovedThread this from i st x xs qs away is lt empty here ne =
    let got = get_thread_from_cpu-GotThread st from i x xs qs is lt empty here in
    let r = get_thread_from_cpu from st in
    let some_thread : (r.0 == null) ≡ false = ground (arith, got.thread) in
    rw (some_thread, got.thread)
      (
        move_thread-MovedThread st r.1 from this (st.entries x).thread away got.load
            (ap (λ c. c.thread_load) (got.others this (λ e. away (sym e)))),
        move_thread-IsReady r.1 this from (st.entries x).thread (st.cpus from).ready_list
            (update qs i xs) got.ready,
      )

steal-some :
    (nrof_cpus this from : ℕ) (st : Store)
    → (busiest_loop nrof_cpus 0 this st.cpus (none, 0)).0 ≡ some from
    → steal nrof_cpus this st ≡ steal_from this from st
unfolding steal
steal-some nrof_cpus this from st best = rw (best, steal)

-- Where the queues of `this` are empty, at least two processors are active, and `x` is the first
-- entry of the first queue with one of the processor `from` that the search finds, `readyQueuePop`
-- returns the thread of `x`, makes `this` its processor, takes its weight from the load of `from`
-- and adds it to that of `this`, and leaves the other entries in the queues of `from`.
pub ready_queue_pop-MovedThread :
    (nrof_cpus nrof_active_cpus this from i : ℕ) (st : Store) (x : Ptr) (xs : List Ptr)
    (own qs : ℕ → List Ptr)
    → IsReady st (st.cpus this).ready_list own
    → ((k : ℕ) → k < 8 → own k ≡ [])
    → 2 ≤ nrof_active_cpus
    → (busiest_loop nrof_cpus 0 this st.cpus (none, 0)).0 ≡ some from
    → from ≢ this
    → IsReady st (st.cpus from).ready_list qs
    → i < 8
    → ((k : ℕ) → k < i → qs k ≡ [])
    → qs i ≡ x ∷ xs
    → (st.entries x).thread ≢ null
    → let r = ready_queue_pop nrof_cpus nrof_active_cpus this st in
      MovedThread st from this (st.entries x).thread r
      × IsReady r.1 (st.cpus from).ready_list (update qs i xs)
unfolding ready_queue_pop
ready_queue_pop-MovedThread nrof_cpus nrof_active_cpus this from i st x xs own qs is none_own two
      best away is' lt empty here ne =
    let test : ltb nrof_active_cpus 2 ≡ false = ground arith in
    rw
      (
        get_thread_from_cpu-none st this own is none_own,
        test,
        steal-some nrof_cpus this from st best,
      )
      (steal_from-MovedThread this from i st x xs qs away is' lt empty here ne)
