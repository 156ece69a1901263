-- ===== src/ReadyQueue/Exchange.antt =====
-- What `readyQueueExchange` does to the load of the processor.
use mirai_os.Prelude.{ℕ, ◌+◌, ◌<◌, ◌≡◌, true, false, arith, ap, ◌∙◌}
use mirai_os.Thread.{Store, put_thread, put_cpu, add32, sub32}
use mirai_os.ThreadQueue.Push.{thread_queue_push-cpus}
use mirai_os.ReadyQueue.{weight, below, new_priority, calc_new_priority, exchange_back}

-- A thread that has used up its time slice, and whose priority is not fixed, is put back by
-- `readyQueueExchange` with a weight that is one less, but the load of the processor is one more.
pub exchange_back-load :
    (this thread : ℕ) (st : Store)
    → let t = st.threads thread in
      let st' = exchange_back this thread st in
      t.fixed_priority ≡ false
      → below t.jiffies_remaining 1 ≡ true
      → t.priority < 7
      → (st.cpus this).thread_load + 1 < 4294967296
      → ((st'.cpus this).thread_load ≡ (st.cpus this).thread_load + 1)
        × (weight (calc_new_priority t).priority + 1 ≡ weight t.priority)
unfolding exchange_back calc_new_priority new_priority
exchange_back-load this thread st free used lt fits =
    let old = st.threads thread in
    let lower : (calc_new_priority old).priority ≡ old.priority + 1 = ground arith in
    let st1 = put_thread st thread (calc_new_priority old) in
    let info = st.cpus this in
    let load = add32 info.thread_load (sub32 (calc_new_priority old).priority old.priority) in
    let st2 = put_cpu st1 this (record info { thread_load = load }) in
    let cpus =
      thread_queue_push-cpus (info.ready_list (calc_new_priority old).priority) thread st2 in
    let grown : load ≡ info.thread_load + 1 = rw lower (omega arith) in
    (ap (λ f. (f this).thread_load) cpus ∙ ground arith, rw lower (omega arith))
