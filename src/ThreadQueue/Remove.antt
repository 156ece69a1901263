-- ===== src/ThreadQueue/Remove.antt =====
-- `threadQueueRemove`
use mathlib.Core.List.{append-nil}
use mirai_os.Prelude.{
  ℕ, suc, ◌%◌, ◌^◌, ◌≡◌, ◌≢◌, refl, ◌==◌, List, [], ◌∷◌, ◌++◌, arith, length, false, sym, ap, ◌∙◌,
  length-append, some, if◌then◌else◌,
}
use mirai_os.Thread.{Ptr, null, Store, sub32, if_null_ne}
use mirai_os.ThreadQueue.{remove_entry, remove_loop, thread_queue_remove}
use mirai_os.ThreadQueue.Unlink.{remove_entry-eq}
use mirai_os.ThreadQueue.Unlinked.{
  between, y-ne-prev, y-ne-next, null-of-prev, null-of-next, final-Links, final-queue, final-at_y,
  final-Keeps,
}
use mirai_os.ThreadQueue.Links.{IsQueue, head_or, last_or, Keeps, last_or-append}

-- What `threadQueueRemove` of the entry `y` of a queue gives, between `xs` and `ys`.
pub record RemovedEntry (st : Store) (q y : Ptr) (xs ys : List Ptr) (st' : Store) : Type 0 where
  pub is_queue : IsQueue st' q (xs ++ ys)
  pub left : st'.entries y ≡ record (st.entries y) { queue = null }
  pub keeps : Keeps st st' q (xs ++ y ∷ ys)

join_first :
    (f y : Ptr) (xs ys : List Ptr)
    → (xs ≢ [] → last_or null xs ≢ null)
    → f ≡ head_or null (xs ++ y ∷ ys)
    → (if last_or null xs == null then head_or null ys else f) ≡ head_or null (xs ++ ys)
join_first f y [] ys ne e = refl
join_first f y (x ∷ xs) ys ne e = if_null_ne (last_or x xs) (head_or null ys) f (ne (λ z. cc)) ∙ e

join_last :
    (l y : Ptr) (xs ys : List Ptr)
    → (ys ≢ [] → head_or null ys ≢ null)
    → l ≡ last_or null (xs ++ y ∷ ys)
    → (if head_or null ys == null then last_or null xs else l) ≡ last_or null (xs ++ ys)
join_last l y xs [] ne e = rw append-nil
join_last l y xs (z ∷ zs) ne e =
    if_null_ne z (last_or null xs) l (ne (λ a. cc))
    ∙ e
    ∙ last_or-append null y xs (z ∷ zs)
    ∙ sym (last_or-append null z xs zs)

join_count :
    (c y : ℕ) (xs ys : List Ptr)
    → c ≡ length (xs ++ y ∷ ys) % 2 ^ 32
    → sub32 c 1 ≡ length (xs ++ ys) % 2 ^ 32
join_count c y xs ys e = omega (arith, length-append xs (y ∷ ys), length-append xs ys)

remove_entry-RemovedEntry :
    (st : Store) (q y : Ptr) (xs ys : List Ptr)
    → IsQueue st q (xs ++ y ∷ ys)
    → q ≢ null
    → RemovedEntry st q y xs ys (remove_entry y st)
remove_entry-RemovedEntry st q y xs ys is hq =
    let b = between st q y xs ys is hq in
    let queue = final-queue st q y xs ys is hq in
    rw
      (remove_entry-eq st q y (last_or null xs) (head_or null ys) (y-ne-prev st q y xs ys is hq)
        (y-ne-next st q y xs ys is hq) b.queue b.prev_thread b.next_thread hq)
      (record {
        is_queue = record {
          first =
              rw queue
                (join_first (st.queues q).first y xs ys (null-of-prev st q y xs ys is hq) is.first);
          last =
              rw queue
                (join_last (st.queues q).last y xs ys (null-of-next st q y xs ys is hq) is.last);
          count = rw queue (join_count (st.queues q).nrof_threads y xs ys is.count);
          links = final-Links st q y xs ys is hq;
        };
        left = final-at_y st q y xs ys is hq;
        keeps = final-Keeps st q y xs ys is hq;
      })

-- `threadQueueRemove` of a thread whose entry `y` stands between `xs` and `ys` in `q`, and has no
-- entry of an interrupted wait below it, ends (two rounds of the loop are enough) with `xs ++ ys`
-- in `q`, `y` in no queue and unchanged otherwise, and no other queue or entry outside `q` changed.
pub thread_queue_remove-RemovedEntry :
    (st : Store) (q thread : Ptr) (xs ys : List Ptr) (fuel : ℕ)
    → let y = (st.threads thread).queue_entry in
      IsQueue st q (xs ++ y ∷ ys)
      → q ≢ null
      → (st.entries y).prev_queue_entry ≡ null
      → (st' : Store) × (thread_queue_remove (suc (suc fuel)) thread st ≡ some st')
        × RemovedEntry st q y xs ys st'
unfolding thread_queue_remove remove_loop
thread_queue_remove-RemovedEntry st q thread xs ys fuel is hq low =
    let y = (st.threads thread).queue_entry in
    let removed = remove_entry-RemovedEntry st q y xs ys is hq in
    let b = between st q y xs ys is hq in
    let some_entry : (y == null) ≡ false = ground (arith, b.ne_null) in
    let end : ((remove_entry y st).entries y).prev_queue_entry ≡ null =
      ap (λ e. e.prev_queue_entry) removed.left ∙ low in
    (remove_entry y st, rw (some_entry, end), removed)
