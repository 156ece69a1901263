-- ===== src/ReadyQueue/Ready.antt =====
-- What the eight ready queues of a processor stand for: a list of entries for each priority.
use mirai_os.Prelude.{ℕ, ◌<◌, ◌==◌, ◌≡◌, ◌≢◌, List, arith, ap, ◌∙◌, inl, inr, Bool-cases, ◌∈◌, ◌∉◌}
use mirai_os.Thread.{Ptr, Store, update}
use mirai_os.ThreadQueue.Links.{IsQueue, Keeps, Keeps-IsQueue}

-- The queues at `rl 0`, .., `rl 7` hold the lists of `qs`, and share neither a queue nor an entry.
pub record IsReady (st : Store) (rl : ℕ → Ptr) (qs : ℕ → List Ptr) : Type 0 where
  pub queues : (i : ℕ) → i < 8 → IsQueue st (rl i) (qs i)
  pub apart : (i j : ℕ) → i < 8 → j < 8 → i ≢ j → rl i ≢ rl j
  pub disjoint : (i j : ℕ) (p : Ptr) → i < 8 → j < 8 → i ≢ j → p ∈ qs i → p ∉ qs j

-- The queues read the entries and the queues of the store alone.
pub IsQueue-same :
    (st st' : Store) (q : Ptr) (xs : List Ptr)
    → st'.entries ≡ st.entries
    → st'.queues ≡ st.queues
    → IsQueue st q xs
    → IsQueue st' q xs
IsQueue-same st st' q xs e f is = record {
  first = ap (λ g. (g q).first) f ∙ is.first;
  last = ap (λ g. (g q).last) f ∙ is.last;
  count = ap (λ g. (g q).nrof_threads) f ∙ is.count;
  links = rw e is.links;
}

pub IsReady-same :
    (st st' : Store) (rl : ℕ → Ptr) (qs : ℕ → List Ptr)
    → st'.entries ≡ st.entries
    → st'.queues ≡ st.queues
    → IsReady st rl qs
    → IsReady st' rl qs
IsReady-same st st' rl qs e f is = record {
  queues = λ i lt. IsQueue-same st st' (rl i) (qs i) e f (is.queues i lt);
  apart = is.apart;
  disjoint = is.disjoint;
}

update_self : (qs : ℕ → List Ptr) (i : ℕ) (ys : List Ptr) → update qs i ys i ≡ ys
update_self qs i ys = ground arith

update_ne : (qs : ℕ → List Ptr) (i j : ℕ) (ys : List Ptr) → j ≢ i → update qs i ys j ≡ qs j
update_ne qs i j ys ne = ground arith

not_mem : (p : Ptr) (ys zs : List Ptr) → (p ∈ ys → p ∈ zs) → p ∉ zs → p ∉ ys
not_mem p ys zs sub out = ground arith

update_disjoint :
    (qs : ℕ → List Ptr) (i j k : ℕ) (ys : List Ptr) (p : Ptr)
    → ((a b : ℕ) (r : Ptr) → a < 8 → b < 8 → a ≢ b → r ∈ qs a → r ∉ qs b)
    → ((a : ℕ) (r : Ptr) → a < 8 → a ≢ i → r ∈ qs a → r ∉ ys)
    → j < 8
    → k < 8
    → j ≢ k
    → p ∈ update qs i ys j
    → p ∉ update qs i ys k
update_disjoint qs i j k ys p dis out hj hk ne m = elim (Bool-cases (j == i)) [
  | inl e ↦ ground (arith, out k p hk)
  | inr e ↦ ground (arith, out j p hj, dis j k p hj hk ne)
]

-- An operation on the queue of priority `i` that leaves `ys` in it, and has touched only entries
-- that are in no other queue.
pub IsReady-step :
    (st st' : Store) (rl : ℕ → Ptr) (qs : ℕ → List Ptr) (i : ℕ) (ys touched : List Ptr)
    → IsReady st rl qs
    → i < 8
    → IsQueue st' (rl i) ys
    → Keeps st st' (rl i) touched
    → ((j : ℕ) (p : Ptr) → j < 8 → j ≢ i → p ∈ qs j → p ∉ touched)
    → ((p : Ptr) → p ∈ ys → p ∈ touched)
    → IsReady st' rl (update qs i ys)
IsReady-step st st' rl qs i ys touched is lt new keeps out sub = record {
  queues = λ j lt'. elim (Bool-cases (j == i)) [
    | inl e ↦ let same : j ≡ i = ground arith in rw (same, update_self qs i ys) new
    | inr e ↦
        let ne : j ≢ i = ground arith in
        rw (update_ne qs i j ys ne) (
          Keeps-IsQueue (rl j) (qs j) keeps (is.apart j i lt' lt ne) (λ p m. out j p lt' ne m)
            (is.queues j lt'))
  ];
  apart = is.apart;
  disjoint = λ j k p hj hk ne m.
      update_disjoint qs i j k ys p is.disjoint
        (λ a r ha na ma. not_mem r ys touched (sub r) (out a r ha na ma)) hj hk ne m;
}
