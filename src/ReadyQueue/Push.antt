-- ===== src/ReadyQueue/Push.antt =====
-- What `readyQueuePush` leaves.
use mathlib.Core.Path.{subst}
use mirai_os.Prelude.{
  ℕ, ◌<◌, ◌==◌, ◌≡◌, ◌≢◌, refl, true, false, if◌then◌else◌, Option, none, some, List, [], ◌∷◌, ◌++◌,
  arith, ap, ◌∙◌, ◌∈◌, ◌∉◌,
}
use mirai_os.Thread.{
  Ptr, null, ThreadState, ThreadInfo, Store, update, put_thread, put_cpu, put_entry, add32,
}
use mirai_os.ThreadQueue.{thread_queue_push}
use mirai_os.ThreadQueue.Links.{has-append}
use mirai_os.ThreadQueue.Push.{thread_queue_push-snoc}
use mirai_os.ReadyQueue.{
  weight, ltℤ, calc_new_priority, choose_cpu, push_on, push_thread, ready_queue_push,
}
use mirai_os.ReadyQueue.Priority.{calc_new_priority-FeedbackRule}
use mirai_os.ReadyQueue.Ready.{IsReady, IsReady-same, IsReady-step}

-- The entry `n` stands behind the list of priority `p` of `cpu`, and is counted there.
pub record OnQueue (st st' : Store) (cpu p : ℕ) (n : Ptr) (qs : ℕ → List Ptr) : Type 0 where
  pub ready : IsReady st' (st.cpus cpu).ready_list (update qs p (qs p ++ n ∷ []))
  pub entries : (a : Ptr) → a ∉ (n ∷ qs p) → st'.entries a ≡ st.entries a
  pub queues : (r : Ptr) → r ≢ (st.cpus cpu).ready_list p → st'.queues r ≡ st.queues r
  pub count : (st'.cpus cpu).nrof_ready_threads ≡ add32 (st.cpus cpu).nrof_ready_threads 1
  pub load : (st'.cpus cpu).thread_load ≡ add32 (st.cpus cpu).thread_load (weight p)

snoc_sub : (p n : Ptr) (xs : List Ptr) → p ∈ (xs ++ n ∷ []) → p ∈ (n ∷ xs)
snoc_sub p n xs m = ground (arith, has-append p xs (n ∷ []))

push_on-OnQueue :
    (st : Store) (cpu p thread : ℕ) (qs : ℕ → List Ptr)
    → IsReady st (st.cpus cpu).ready_list qs
    → p < 8
    → let n = (st.threads thread).queue_entry in
      n ≢ null
      → ((j : ℕ) → j < 8 → n ∉ qs j)
      → OnQueue st (push_on cpu p thread st) cpu p n qs
        × ((push_on cpu p thread st).threads ≡ st.threads)
unfolding push_on
push_on-OnQueue st cpu p thread qs is lt hn out =
    let n = (st.threads thread).queue_entry in
    let info = st.cpus cpu in
    let st1 = put_cpu st cpu (record info {
      thread_load = add32 info.thread_load (weight p);
      nrof_ready_threads = add32 info.nrof_ready_threads 1;
    }) in
    let is1 = IsReady-same st st1 info.ready_list qs refl refl is in
    let pushed =
      thread_queue_push-snoc st1 (info.ready_list p) thread (qs p) (is1.queues p lt) hn
        (out p lt) in
    let st2 = thread_queue_push (info.ready_list p) thread st1 in
    let cpus : st2.cpus cpu ≡ st1.cpus cpu = ap (λ f. f cpu) pushed.keeps.cpus in
    (
      record {
        ready =
            IsReady-step st1 st2 info.ready_list qs p (qs p ++ n ∷ []) (n ∷ qs p) is1 lt
              pushed.is_queue pushed.keeps
              (λ j r hj ne m. ground (arith, is.disjoint j p r hj lt ne m, out j hj))
              (λ r m. snoc_sub r n (qs p) m);
        entries = pushed.keeps.entries;
        queues = pushed.keeps.queues;
        count = ground arith;
        load = ground arith;
      },
      pushed.keeps.threads,
    )

-- The thread waits for the processor `cpu`, behind the threads of its new priority.
pub record PushedThread (this cpu thread : ℕ) (st : Store) (qs : ℕ → List Ptr)
    (r : Store × Option ℕ) : Type 0 where
  pub waits : r.0.threads thread ≡ record (calc_new_priority (st.threads thread)) {
    state = ThreadState.schedwait;
    cpu_affinity = cpu;
  }
  pub queued :
      OnQueue st r.0 cpu
        (calc_new_priority (st.threads thread)).priority
        (st.threads thread).queue_entry
        qs
  pub interrupt : r.1 ≡ (if this == cpu then none else some (st.cpus cpu).apic_id)

push_on-PushedThread :
    (this cpu thread : ℕ) (st : Store) (qs : ℕ → List Ptr) (t : ThreadInfo)
    → t ≡ record (calc_new_priority (st.threads thread)) {
      state = ThreadState.schedwait;
      cpu_affinity = cpu;
    }
    → IsReady st (st.cpus cpu).ready_list qs
    → t.priority < 8
    → t.queue_entry ≢ null
    → ((j : ℕ) → j < 8 → t.queue_entry ∉ qs j)
    → t.queue_entry ≡ (st.threads thread).queue_entry
    → PushedThread this cpu thread st qs (
      push_on cpu t.priority thread (put_thread st thread t),
      if this == cpu then none else some (st.cpus cpu).apic_id,
    )
push_on-PushedThread this cpu thread st qs t e is lt hn out same =
    let st1 = put_thread st thread t in
    let at : st1.threads thread ≡ t = ground arith in
    let on =
      push_on-OnQueue st1 cpu t.priority thread qs
        (IsReady-same st st1 (st.cpus cpu).ready_list qs refl refl is) lt (rw at hn)
        (λ j hj. rw at (out j hj)) in
    let entry : (st1.threads thread).queue_entry ≡ (st.threads thread).queue_entry =
      ap (λ v. v.queue_entry) at ∙ same in
    let priority : t.priority ≡ (calc_new_priority (st.threads thread)).priority =
      ap (λ v. v.priority) e in
    let st2 = push_on cpu t.priority thread st1 in
    let n = (st.threads thread).queue_entry in
    let queued : OnQueue st st2 cpu t.priority (st1.threads thread).queue_entry qs = record {
      ready = on.0.ready;
      entries = on.0.entries;
      queues = on.0.queues;
      count = on.0.count;
      load = on.0.load;
    } in
    record {
      waits = ap (λ f. f thread) on.1 ∙ at ∙ e;
      queued =
          subst (λ p. OnQueue st st2 cpu p n qs) priority
            (subst (λ m. OnQueue st st2 cpu t.priority m qs) entry queued);
      interrupt = refl;
    }

push_thread-PushedThread :
    (nrof_cpus this thread : ℕ) (st : Store) (qs : ℕ → List Ptr)
    → let t = st.threads thread in
      let cpu = choose_cpu nrof_cpus t.cpu_affinity st.cpus in
      t.priority < 8
      → IsReady st (st.cpus cpu).ready_list qs
      → t.queue_entry ≢ null
      → ((j : ℕ) → j < 8 → t.queue_entry ∉ qs j)
      → PushedThread this cpu thread st qs (push_thread nrof_cpus this thread st)
unfolding push_thread calc_new_priority
push_thread-PushedThread nrof_cpus this thread st qs lt is hn out =
    let old = st.threads thread in
    let cpu = choose_cpu nrof_cpus old.cpu_affinity st.cpus in
    let t = record (calc_new_priority (record old { state = ThreadState.schedwait })) {
      cpu_affinity = cpu;
    } in
    push_on-PushedThread this cpu thread st qs t refl is
      (calc_new_priority-FeedbackRule old lt).in_range hn out refl

-- `readyQueuePush` of an entry whose thread has a priority below 8 and stands in none of the queues
-- of the processor that is chosen, and runs no signal handler above that entry: the thread gets its
-- new priority, waits for that processor behind the threads of this priority, is counted there and
-- adds its weight to the load, and that processor is interrupted where it is another one.
pub ready_queue_push-PushedThread :
    (nrof_cpus this qe : ℕ) (st : Store) (qs : ℕ → List Ptr)
    → let thread = (st.entries qe).thread in
      let t = st.threads thread in
      let cpu = choose_cpu nrof_cpus t.cpu_affinity st.cpus in
      ltℤ (st.entries qe).sig_depth t.sig_depth ≡ false
      → t.priority < 8
      → IsReady st (st.cpus cpu).ready_list qs
      → t.queue_entry ≢ null
      → ((j : ℕ) → j < 8 → t.queue_entry ∉ qs j)
      → PushedThread this cpu thread st qs (ready_queue_push nrof_cpus this qe st)
unfolding ready_queue_push
ready_queue_push-PushedThread nrof_cpus this qe st qs depth lt is hn out =
    rw depth (push_thread-PushedThread nrof_cpus this (st.entries qe).thread st qs lt is hn out)

-- `readyQueuePush` of an entry whose thread runs a signal handler that was started since changes
-- nothing but the entry's `sigCont`, which says that the wait is over.
pub ready_queue_push-deeper :
    (nrof_cpus this qe : ℕ) (st : Store)
    → ltℤ (st.entries qe).sig_depth (st.threads (st.entries qe).thread).sig_depth ≡ true
    → ready_queue_push nrof_cpus this qe st
      ≡ (put_entry st qe (record (st.entries qe) { sig_cont = true }), none)
unfolding ready_queue_push
ready_queue_push-deeper nrof_cpus this qe st depth = rw depth
