-- ===== src/Semaphore/Signal.antt =====
-- `semSignal`: the count, or the first thread that waits.
use mathlib.Core.Path.{subst}
use mirai_os.Prelude.{
  ℕ, zero, suc, ◌+◌, ◌<◌, ◌==◌, ◌≡◌, ◌≢◌, refl, pos, false, Option, none, List, [], ◌∷◌, arith, ap,
  sym, ◌∙◌, ◌∈◌, ◌∉◌, has, Bool-cases, inl, inr,
}
use mirai_os.Thread.{Ptr, null, Store}
use mirai_os.ThreadQueue.{thread_queue_pop}
use mirai_os.ThreadQueue.Links.{IsQueue, Keeps, Keeps-IsQueue, Links-frame}
use mirai_os.ThreadQueue.Pop.{PoppedEntry, thread_queue_pop-nil, thread_queue_pop-cons}
use mirai_os.ReadyQueue.{ltℤ, choose_cpu, ready_queue_push, calc_new_priority}
use mirai_os.ReadyQueue.Priority.{calc_new_priority-FeedbackRule}
use mirai_os.ReadyQueue.Ready.{IsReady}
use mirai_os.ReadyQueue.Push.{PushedThread, ready_queue_push-PushedThread}
use mirai_os.Semaphore.{Semaphore, is_pos, release, sem_signal}
use mirai_os.Semaphore.Wait.{IsSemaphore}

-- With nobody waiting, `semSignal` adds one to the count and changes nothing else.
pub sem_signal-nobody :
    (nrof_cpus this : ℕ) (sem : Semaphore) (st : Store) (n : ℕ)
    → IsSemaphore sem st n []
    → sem_signal nrof_cpus this sem st ≡ (record sem { value = pos (n + 1) }, st, none)
unfolding sem_signal release
sem_signal-nobody nrof_cpus this sem st zero is =
    rw (thread_queue_pop-nil st sem.queue is.waiting, is.value)
sem_signal-nobody nrof_cpus this sem st (suc n) is = rw is.value

-- The queues of a processor are apart from the queue `q` that holds `xs`.
pub record IsApart (rl : ℕ → Ptr) (qs : ℕ → List Ptr) (q : Ptr) (xs : List Ptr) : Type 0 where
  pub queue : (i : ℕ) → i < 8 → rl i ≢ q
  pub entries : (i : ℕ) (p : Ptr) → i < 8 → p ∈ qs i → p ∉ xs

pop_other-IsReady :
    (st st' : Store) (rl : ℕ → Ptr) (qs : ℕ → List Ptr) (q : Ptr) (xs : List Ptr)
    → IsReady st rl qs
    → IsApart rl qs q xs
    → Keeps st st' q xs
    → IsReady st' rl qs
pop_other-IsReady st st' rl qs q xs is away keeps = record {
  queues = λ i lt.
      Keeps-IsQueue (rl i) (qs i) keeps (away.queue i lt) (λ p m. away.entries i p lt m)
        (is.queues i lt);
  apart = is.apart;
  disjoint = is.disjoint;
}

-- With an entry first in the queue whose thread does not run a signal handler above it,
-- `semSignal` is `readyQueuePush` of this entry on the store without it.
sem_signal-first :
    (nrof_cpus this : ℕ) (sem : Semaphore) (st : Store) (x : Ptr) (xs : List Ptr)
    → IsSemaphore sem st 0 (x ∷ xs)
    → let popped = (thread_queue_pop sem.queue st).1 in
      let pushed = ready_queue_push nrof_cpus this x popped in
      sem_signal nrof_cpus this sem st ≡ (sem, pushed.0, pushed.1)
unfolding sem_signal release
sem_signal-first nrof_cpus this sem st x xs is =
    let pop = thread_queue_pop-cons st sem.queue x xs is.waiting in
    let there : (x == null) ≡ false = let ne = is.waiting.links.0 in ground arith in
    let count : is_pos sem.value ≡ false = ap is_pos is.value in rw (count, pop.entry, there)

-- The first waiting thread is ready, and the others still wait.
pub record Signalled (nrof_cpus this : ℕ) (sem : Semaphore) (st : Store) (x : Ptr) (xs : List Ptr)
    (qs : ℕ → List Ptr) (r : Semaphore × Store × Option ℕ) : Type 0 where
  pub semaphore : IsSemaphore r.0 r.1 0 xs
  pub ready :
      let thread = (st.entries x).thread in
      let cpu = choose_cpu nrof_cpus (st.threads thread).cpu_affinity st.cpus in
      PushedThread this cpu thread (thread_queue_pop sem.queue st).1 qs (r.1, r.2)

IsQueue-frame :
    (st st' : Store) (q : Ptr) (xs : List Ptr)
    → ((a : Ptr) → a ∈ xs → st'.entries a ≡ st.entries a)
    → st'.queues q ≡ st.queues q
    → IsQueue st q xs
    → IsQueue st' q xs
IsQueue-frame st st' q xs same e is = record {
  first = ap (λ v. v.first) e ∙ is.first;
  last = ap (λ v. v.last) e ∙ is.last;
  count = ap (λ v. v.nrof_threads) e ∙ is.count;
  links = Links-frame st.entries st'.entries q null null xs same is.links;
}

-- An entry of `xs` is neither `x` nor in the queue that `x` joins.
behind_apart :
    (a x : Ptr) (xs ys : List Ptr) → x ∉ xs → a ∈ xs → (a ∈ ys → a ∉ (x ∷ xs)) → a ∉ (x ∷ ys)
behind_apart a x xs ys new m away = elim (Bool-cases (has a ys)) [
  | inl e ↦ ground (arith, away e)
  | inr e ↦ ground arith
]

push-Signalled :
    (nrof_cpus this : ℕ) (sem : Semaphore) (st st1 : Store) (x : Ptr) (xs : List Ptr)
    (qs : ℕ → List Ptr)
    → let e = st1.entries x in
      let t = st1.threads e.thread in
      let cpu = choose_cpu nrof_cpus t.cpu_affinity st1.cpus in
      let pushed = ready_queue_push nrof_cpus this x st1 in
      IsQueue st1 sem.queue xs
      → x ∉ xs
      → ltℤ e.sig_depth t.sig_depth ≡ false
      → t.priority < 8
      → IsReady st1 (st1.cpus cpu).ready_list qs
      → IsApart (st1.cpus cpu).ready_list qs sem.queue (x ∷ xs)
      → t.queue_entry ≡ x
      → x ≢ null
      → ((j : ℕ) → j < 8 → x ∉ qs j)
      → IsQueue pushed.0 sem.queue xs × PushedThread this cpu e.thread st1 qs pushed
push-Signalled nrof_cpus this sem st st1 x xs qs is new depth lt ready away same ne out =
    let t = st1.threads (st1.entries x).thread in
    let pushed =
      ready_queue_push-PushedThread nrof_cpus this x st1 qs depth lt ready (λ z. ne (sym same ∙ z))
        (λ j hj. rw same (out j hj)) in
    let p = (calc_new_priority t).priority in
    let below = (calc_new_priority-FeedbackRule t lt).in_range in
    (
      IsQueue-frame st1 (ready_queue_push nrof_cpus this x st1).0 sem.queue xs
          (λ a m. pushed.queued.entries a (
            subst (λ e. a ∉ (e ∷ qs p)) (sym same)
              (behind_apart a x xs (qs p) new m (λ n. away.entries p a below n))))
          (pushed.queued.queues sem.queue (λ z. away.queue p below (sym z))) is,
      pushed,
    )

not_mem_of_apart : (x : Ptr) (xs ys : List Ptr) → (x ∈ ys → x ∉ (x ∷ xs)) → x ∉ ys
not_mem_of_apart x xs ys away = elim (Bool-cases (has x ys)) [
  | inl e ↦ let out = away e in ground arith
  | inr e ↦ e
]

-- What the thread and the processor of a popped entry are in the store that is left.
record PopEquations (nrof_cpus : ℕ) (st : Store) (x : Ptr) (st1 : Store) : Type 0 where
  thread : (st1.entries x).thread ≡ (st.entries x).thread
  info : st1.threads (st1.entries x).thread ≡ st.threads (st.entries x).thread
  cpu :
      choose_cpu nrof_cpus (st1.threads (st1.entries x).thread).cpu_affinity st1.cpus
      ≡ choose_cpu nrof_cpus (st.threads (st.entries x).thread).cpu_affinity st.cpus
  cpus : st1.cpus ≡ st.cpus

pop-equations :
    (nrof_cpus : ℕ) (st : Store) (q x : Ptr) (xs : List Ptr) (r : Ptr × Store)
    → PoppedEntry st q x xs r
    → PopEquations nrof_cpus st x r.1
pop-equations nrof_cpus st q x xs r pop =
    let st1 = r.1 in
    let thread : (st1.entries x).thread ≡ (st.entries x).thread = ap (λ v. v.thread) pop.left in
    let info : st1.threads (st1.entries x).thread ≡ st.threads (st.entries x).thread =
      ap st1.threads thread ∙ ap (λ f. f (st.entries x).thread) pop.keeps.threads in
    record {
      thread = thread;
      info = info;
      cpu =
          ap (λ t. choose_cpu nrof_cpus t.cpu_affinity st1.cpus) info
          ∙ ap (λ f. choose_cpu nrof_cpus (st.threads (st.entries x).thread).cpu_affinity f)
              pop.keeps.cpus;
      cpus = pop.keeps.cpus;
    }

-- On a semaphore that the entries `x` and then `xs` wait for, where `x` is the entry of a thread
-- with a priority below 8 that runs no signal handler above it, and the queues of the processor
-- that `readyQueuePush` chooses hold `qs` and are apart from that of the semaphore: `semSignal`
-- makes that thread ready as `readyQueuePush` does, `xs` still wait, and the count stays 0.
pub sem_signal-Signalled :
    (nrof_cpus this : ℕ) (sem : Semaphore) (st : Store) (x : Ptr) (xs : List Ptr)
    (qs : ℕ → List Ptr)
    → let e = st.entries x in
      let t = st.threads e.thread in
      let cpu = choose_cpu nrof_cpus t.cpu_affinity st.cpus in
      IsSemaphore sem st 0 (x ∷ xs)
      → ltℤ e.sig_depth t.sig_depth ≡ false
      → t.priority < 8
      → t.queue_entry ≡ x
      → IsReady st (st.cpus cpu).ready_list qs
      → IsApart (st.cpus cpu).ready_list qs sem.queue (x ∷ xs)
      → Signalled nrof_cpus this sem st x xs qs (sem_signal nrof_cpus this sem st)
sem_signal-Signalled nrof_cpus this sem st x xs qs is depth lt same ready away =
    let pop = thread_queue_pop-cons st sem.queue x xs is.waiting in
    let st1 = (thread_queue_pop sem.queue st).1 in
    let eq = pop-equations nrof_cpus st sem.queue x xs (thread_queue_pop sem.queue st) pop in
    let cpu = choose_cpu nrof_cpus (st.threads (st.entries x).thread).cpu_affinity st.cpus in
    let lists = ap (λ c. (st1.cpus c).ready_list) eq.cpu ∙ ap (λ f. (f cpu).ready_list) eq.cpus in
    let pushed =
      push-Signalled nrof_cpus this sem st st1 x xs qs pop.is_queue is.waiting.links.4
        (ap (λ v. ltℤ v.sig_depth (st1.threads (st1.entries x).thread).sig_depth) pop.left
          ∙ ap (λ t. ltℤ (st.entries x).sig_depth t.sig_depth) eq.info
          ∙ depth)
        (subst (λ t. t.priority < 8) (sym eq.info) lt)
        (subst (λ rl. IsReady st1 rl qs) (sym lists)
          (pop_other-IsReady st st1 (st.cpus cpu).ready_list qs sem.queue (x ∷ xs) ready away
            pop.keeps))
        (subst (λ rl. IsApart rl qs sem.queue (x ∷ xs)) (sym lists) away)
        (ap (λ t. t.queue_entry) eq.info ∙ same) is.waiting.links.0
        (λ j hj. not_mem_of_apart x xs (qs j) (away.entries j x hj)) in
    rw (sem_signal-first nrof_cpus this sem st x xs is) (record {
      semaphore = record { value = is.value; waiting = pushed.0; nobody = λ ne. absurd (ne refl) };
      ready =
          subst
            (λ c.
              PushedThread this c (st.entries x).thread st1 qs
                (ready_queue_push nrof_cpus this x st1))
            eq.cpu
            (subst
              (λ t.
                PushedThread this
                  (choose_cpu nrof_cpus (st1.threads (st1.entries x).thread).cpu_affinity st1.cpus)
                  t st1 qs (ready_queue_push nrof_cpus this x st1))
              eq.thread pushed.1);
    })
