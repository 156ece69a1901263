-- ===== src/ReadyQueue/Get.antt =====
-- `getThreadFromCPU`: the first thread of the first queue that has one.
use mirai_os.Prelude.{
  ℕ, zero, suc, ◌+◌, ◌*◌, ◌^◌, ◌<◌, ◌==◌, ◌≡◌, ◌≢◌, refl, pos, List, [], ◌∷◌, arith, ap, sym, ◌∙◌,
  has, inl, inr, Bool-cases,
}
use mirai_os.Thread.{Ptr, null, Store, update, sub32, if_null_ne}
use mirai_os.ThreadQueue.{thread_queue_pop}
use mirai_os.ThreadQueue.Links.{IsQueue, Keeps}
use mirai_os.ThreadQueue.Pop.{PoppedEntry, thread_queue_pop-nil, thread_queue_pop-cons}
use mirai_os.ReadyQueue.{take_entry, get_loop, get_thread_from_cpu, timeslice_base}
use mirai_os.ReadyQueue.Ready.{IsReady, IsReady-same, IsReady-step}

-- The thread of the entry `x`, which stood before `xs` at priority `i` of `cpu`.
pub record GotThread (st : Store) (cpu i : ℕ) (x : Ptr) (xs : List Ptr) (qs : ℕ → List Ptr)
    (r : Ptr × Store) : Type 0 where
  pub thread : r.0 ≡ (st.entries x).thread
  pub ready : IsReady r.1 (st.cpus cpu).ready_list (update qs i xs)
  pub count : (r.1.cpus cpu).nrof_ready_threads ≡ sub32 (st.cpus cpu).nrof_ready_threads 1
  pub load : (r.1.cpus cpu).thread_load ≡ (st.cpus cpu).thread_load
  pub others : (c : ℕ) → c ≢ cpu → r.1.cpus c ≡ st.cpus c
  pub time : (r.1.threads r.0).jiffies_remaining ≡ pos (timeslice_base * 2 ^ i)

pop-IsReady :
    (st st' : Store) (rl : ℕ → Ptr) (qs : ℕ → List Ptr) (i : ℕ) (x : Ptr) (xs : List Ptr)
    → IsReady st rl qs
    → i < 8
    → qs i ≡ x ∷ xs
    → IsQueue st' (rl i) xs
    → Keeps st st' (rl i) (x ∷ xs)
    → IsReady st' rl (update qs i xs)
pop-IsReady st st' rl qs i x xs is lt e new keeps =
    IsReady-step st st' rl qs i xs (x ∷ xs) is lt new keeps
      (λ j p hj ne m. ap (has p) (sym e) ∙ is.disjoint j i p hj lt ne m) (λ p m. ground arith)

take_entry-GotThread :
    (st : Store) (cpu i : ℕ) (x : Ptr) (xs : List Ptr) (qs : ℕ → List Ptr) (r : Ptr × Store)
    → IsReady st (st.cpus cpu).ready_list qs
    → i < 8
    → qs i ≡ x ∷ xs
    → PoppedEntry st ((st.cpus cpu).ready_list i) x xs r
    → GotThread st cpu i x xs qs (take_entry i cpu r.0 r.1)
unfolding take_entry
take_entry-GotThread st cpu i x xs qs r is lt e pop =
    let at : r.1.entries r.0 ≡ record (st.entries x) { queue = null } =
      ap r.1.entries pop.entry ∙ pop.left in
    let same : (r.1.entries r.0).thread ≡ (st.entries x).thread = ap (λ v. v.thread) at in
    let cpus : r.1.cpus cpu ≡ st.cpus cpu = ap (λ f. f cpu) pop.keeps.cpus in
    record {
      thread = same;
      ready =
          IsReady-same r.1 (take_entry i cpu r.0 r.1).1 (st.cpus cpu).ready_list (update qs i xs)
            refl refl
            (pop-IsReady st r.1 (st.cpus cpu).ready_list qs i x xs is lt e pop.is_queue pop.keeps);
      count = ground arith;
      load = ground arith;
      others = λ c ne. let kept = ap (λ f. f c) pop.keeps.cpus in ground arith;
      time = ground arith;
    }

get_loop-here :
    (n i : ℕ) (st : Store) (cpu : ℕ) (x : Ptr) (xs : List Ptr) (qs : ℕ → List Ptr)
    → IsReady st (st.cpus cpu).ready_list qs
    → i < 8
    → qs i ≡ x ∷ xs
    → GotThread st cpu i x xs qs (get_loop (suc n) i cpu st)
unfolding get_loop
get_loop-here n i st cpu x xs qs is lt e =
    let rl = (st.cpus cpu).ready_list in
    let queue : IsQueue st (rl i) (x ∷ xs) = rw (← e) (is.queues i lt) in
    let pop = thread_queue_pop-cons st (rl i) x xs queue in
    let r = thread_queue_pop (rl i) st in
    let ne : r.0 ≢ null = λ z. queue.links.0 (sym pop.entry ∙ z) in
    rw (if_null_ne r.0 (get_loop n (i + 1) cpu r.1) (take_entry i cpu r.0 r.1) ne)
      (take_entry-GotThread st cpu i x xs qs r is lt e pop)

get_loop-skip :
    (n j : ℕ) (st : Store) (cpu : ℕ) (qs : ℕ → List Ptr)
    → IsReady st (st.cpus cpu).ready_list qs
    → j < 8
    → qs j ≡ []
    → get_loop (suc n) j cpu st ≡ get_loop n (j + 1) cpu st
unfolding get_loop
get_loop-skip n j st cpu qs is lt e =
    let rl = (st.cpus cpu).ready_list in
    let queue : IsQueue st (rl j) [] = rw (← e) (is.queues j lt) in
    rw (thread_queue_pop-nil st (rl j) queue)

get_loop-GotThread :
    (n j i : ℕ) (st : Store) (cpu : ℕ) (x : Ptr) (xs : List Ptr) (qs : ℕ → List Ptr)
    → IsReady st (st.cpus cpu).ready_list qs
    → j + n ≡ 8
    → j < i + 1
    → i < 8
    → ((k : ℕ) → k < i → qs k ≡ [])
    → qs i ≡ x ∷ xs
    → GotThread st cpu i x xs qs (get_loop n j cpu st)
get_loop-GotThread zero j i st cpu x xs qs is e le lt empty here = absurd (omega arith)
get_loop-GotThread (suc n) j i st cpu x xs qs is e le lt empty here = elim (Bool-cases (j == i)) [
  | inl eq ↦
      let same : j ≡ i = ground arith in rw same (get_loop-here n i st cpu x xs qs is lt here)
  | inr ne ↦
      let before : j < i = ground arith in
      rw (get_loop-skip n j st cpu qs is (omega arith) (empty j before))
        (get_loop-GotThread n (j + 1) i st cpu x xs qs is (omega arith) (omega arith) lt empty here)
]

-- Where `i` is the first priority whose queue on `cpu` has an entry, and its queue holds `x` and
-- then `xs`, `getThreadFromCPU` returns the thread of `x`, leaves `xs` in that queue and every
-- other queue of the processor as it was, counts one ready thread less there, changes no other
-- processor, and gives the thread the time slice of the priority `i`.
pub get_thread_from_cpu-GotThread :
    (st : Store) (cpu i : ℕ) (x : Ptr) (xs : List Ptr) (qs : ℕ → List Ptr)
    → IsReady st (st.cpus cpu).ready_list qs
    → i < 8
    → ((k : ℕ) → k < i → qs k ≡ [])
    → qs i ≡ x ∷ xs
    → GotThread st cpu i x xs qs (get_thread_from_cpu cpu st)
unfolding get_thread_from_cpu
get_thread_from_cpu-GotThread st cpu i x xs qs is lt empty here =
    get_loop-GotThread 8 0 i st cpu x xs qs is refl (omega arith) lt empty here

get_loop-none :
    (n j : ℕ) (st : Store) (cpu : ℕ) (qs : ℕ → List Ptr)
    → IsReady st (st.cpus cpu).ready_list qs
    → j + n ≡ 8
    → ((k : ℕ) → k < 8 → qs k ≡ [])
    → get_loop n j cpu st ≡ (null, st)
unfolding get_loop
get_loop-none zero j st cpu qs is e empty = refl
get_loop-none (suc n) j st cpu qs is e empty =
    get_loop-skip n j st cpu qs is (omega arith) (empty j (omega arith))
    ∙ get_loop-none n (j + 1) st cpu qs is (omega arith) empty

-- Where the eight queues of `cpu` are empty, `getThreadFromCPU` returns NULL and changes nothing.
pub get_thread_from_cpu-none :
    (st : Store) (cpu : ℕ) (qs : ℕ → List Ptr)
    → IsReady st (st.cpus cpu).ready_list qs
    → ((k : ℕ) → k < 8 → qs k ≡ [])
    → get_thread_from_cpu cpu st ≡ (null, st)
unfolding get_thread_from_cpu
get_thread_from_cpu-none st cpu qs is empty = get_loop-none 8 0 st cpu qs is refl empty
