-- ===== src/ProcTable/Add.antt =====
-- `procHTAdd` puts a process behind the others of its bucket.
use mathlib.Core.Path.{subst}
use mirai_os.Prelude.{
  ℕ, ◌==◌, ◌≡◌, ◌≢◌, refl, true, false, if◌then◌else◌, List, [], ◌∷◌, ◌++◌, arith, ap, sym, ◌∙◌,
  inl, inr, Bool-cases,
}
use mirai_os.ProcTable.{Ptr, ProcTable, proc_hash, proc_ht_add}
use mirai_os.ProcTable.Chain.{IsChain, IsBucket, IsApart, HasNoRepeat, last_apart, last_not_null}

-- The writes of `procHTAdd`, where `last` is the last process of the bucket `h`, or NULL.
record Written (t : ProcTable) (h : ℕ) (new last : Ptr) (t' : ProcTable) : Type 0 where
  at_new : t'.process new ≡ record (t.process new) { ht_next = 0; ht_prev = last }
  at_last : last ≢ 0 → t'.process last ≡ record (t.process last) { ht_next = new }
  others : (q : Ptr) → q ≢ new → (last ≢ 0 → q ≢ last) → t'.process q ≡ t.process q
  list :
      t'.proc_ht h ≡ record { first = if last == 0 then new else (t.proc_ht h).first; last = new }
  lists : (i : ℕ) → i ≢ h → t'.proc_ht i ≡ t.proc_ht i

add-Written :
    (t : ProcTable) (new last : Ptr)
    → let h = proc_hash (t.process new).pid in
      (t.proc_ht h).last ≡ last → new ≢ last → Written t h new last (proc_ht_add new t)
unfolding proc_ht_add
add-Written t new last e apart =
    let h = proc_hash (t.process new).pid in
    let n_n : (new == new) ≡ true = ground arith in
    let h_h : (h == h) ≡ true = ground arith in
    elim (Bool-cases (last == 0)) [
      | inl null ↦
          let is_null : last ≡ 0 = ground arith in
          record {
            at_new =
                rw (n_n, e, null, n_n)
                  (ap (λ l. record (t.process new) { ht_next = 0; ht_prev = l }) (sym is_null));
            at_last = λ some_last. absurd (some_last is_null);
            others = λ q not_new not_last.
                let q_n : (q == new) ≡ false = ground (arith, not_new) in
                rw (n_n, e, null, q_n) refl;
            list = rw (n_n, e, null, h_h) refl;
            lists = λ i not_h.
                let i_h : (i == h) ≡ false = ground (arith, not_h) in rw (n_n, e, null, i_h) refl;
          }
      | inr full ↦
          let l_l : (last == last) ≡ true = ground arith in
          let n_l : (new == last) ≡ false = ground (arith, apart) in
          let l_n : (last == new) ≡ false = ground (arith, apart) in
          record {
            at_new = rw (n_n, e, full, n_l, n_n) refl;
            at_last = λ some_last. rw (n_n, e, full, l_n, l_l) refl;
            others = λ q not_new not_last.
                let q_n : (q == new) ≡ false = ground (arith, not_new) in
                let q_l : (q == last) ≡ false =
                  let other = not_last (ground arith) in ground (arith, other) in
                rw (n_n, e, full, q_n, q_l) refl;
            list = rw (n_n, e, full, h_h) refl;
            lists = λ i not_h.
                let i_h : (i == h) ≡ false = ground (arith, not_h) in rw (n_n, e, full, i_h) refl;
          }
    ]

-- Behind the last process of a chain.
module _ (t t' : ProcTable) (h : ℕ) (new last : Ptr) (k : Written t h new last t')
    (some_new : new ≢ 0) where
  IsChain-new : last ≢ 0 → IsChain t' last new new (new ∷ [])
  IsChain-new some_last =
      (refl, some_new, ap (λ p. p.ht_prev) k.at_new, (ap (λ p. p.ht_next) k.at_new, refl))

  IsChain-append :
      (prev p x : Ptr) (xs : List Ptr)
      → IsChain t prev p last (x ∷ xs)
      → HasNoRepeat (x ∷ xs)
      → IsApart new (x ∷ xs)
      → IsChain t' prev p new ((x ∷ xs) ++ new ∷ [])
  IsChain-append prev p x [] c norep apart =
      let some_last = last_not_null t prev p last x [] c in
      let here : t'.process x ≡ record (t.process x) { ht_next = new } =
        subst (λ q. t'.process q ≡ record (t.process q) { ht_next = new }) (sym c.3.1)
          (k.at_last some_last) in
      (
        c.0,
        c.1,
        ap (λ p. p.ht_prev) here ∙ c.2,
        subst (λ q. IsChain t' x q new (new ∷ [])) (sym (ap (λ p. p.ht_next) here))
            (subst (λ q. IsChain t' q new new (new ∷ [])) (sym c.3.1) (IsChain-new some_last)),
      )
  IsChain-append prev p x (y ∷ xs) c norep apart =
      let here : t'.process x ≡ t.process x =
        k.others x (λ e. apart.0 (sym e))
          (λ some_last. last_apart t x (t.process x).ht_next last x y xs c.3 norep.0) in
      (
        c.0,
        c.1,
        ap (λ p. p.ht_prev) here ∙ c.2,
        subst (λ q. IsChain t' x q new ((y ∷ xs) ++ new ∷ [])) (sym (ap (λ p. p.ht_next) here))
            (IsChain-append x (t.process x).ht_next y xs c.3 norep.1 apart.1),
      )

  IsBucket-append :
      (xs : List Ptr)
      → IsChain t 0 (t.proc_ht h).first last xs
      → HasNoRepeat xs
      → IsApart new xs
      → IsBucket t' h (xs ++ new ∷ [])
  IsBucket-append [] c norep apart =
      let null : (last == 0) ≡ true = ground (arith, c.1) in
      subst (λ l. IsChain t' 0 l.first l.last (new ∷ [])) (sym k.list)
        (rw null (
          refl,
          some_new,
          ap (λ p. p.ht_prev) k.at_new ∙ sym c.1,
          (ap (λ p. p.ht_next) k.at_new, refl),
        ))
  IsBucket-append (x ∷ xs) c norep apart =
      let full : (last == 0) ≡ false =
        let some_last = last_not_null t 0 (t.proc_ht h).first last x xs c in
        ground (arith, some_last) in
      subst (λ l. IsChain t' 0 l.first l.last ((x ∷ xs) ++ new ∷ [])) (sym k.list)
        (rw full (IsChain-append 0 (t.proc_ht h).first x xs c norep apart))

-- A chain has no process that stands apart from it as its last one.
new_apart :
    (t : ProcTable) (p last new : Ptr) (xs : List Ptr)
    → IsChain t 0 p last xs
    → IsApart new xs
    → new ≢ 0
    → new ≢ last
new_apart t p last new [] c apart some_new = λ e. some_new (e ∙ sym c.1)
new_apart t p last new (x ∷ xs) c apart some_new = last_apart t 0 p last new x xs c apart

apart_last :
    (t : ProcTable) (p last q : Ptr) (xs : List Ptr)
    → IsChain t 0 p last xs
    → IsApart q xs
    → last ≢ 0
    → q ≢ last
apart_last t p last q [] c apart some_last = λ e. some_last (sym c.1)
apart_last t p last q (x ∷ xs) c apart some_last = last_apart t 0 p last q x xs c apart

-- Where the bucket of the pid of `new`, which is not NULL, holds `xs`, all different and none of
-- them `new`: after `procHTAdd` it holds `xs` and `new` behind them, the other buckets have the same
-- ends, and the processes that are neither `new` nor in `xs` are as they were.
pub proc_ht_add-IsBucket :
    (t : ProcTable) (new : Ptr) (xs : List Ptr)
    → let h = proc_hash (t.process new).pid in
      IsBucket t h xs
      → HasNoRepeat xs
      → IsApart new xs
      → new ≢ 0
      → IsBucket (proc_ht_add new t) h (xs ++ new ∷ [])
        × ((i : ℕ) → i ≢ h → (proc_ht_add new t).proc_ht i ≡ t.proc_ht i)
        × ((q : Ptr) → q ≢ new → IsApart q xs → (proc_ht_add new t).process q ≡ t.process q)
proc_ht_add-IsBucket t new xs c norep apart some_new =
    let h = proc_hash (t.process new).pid in
    let last = (t.proc_ht h).last in
    let k =
      add-Written t new last refl (new_apart t (t.proc_ht h).first last new xs c apart some_new) in
    (
      IsBucket-append t (proc_ht_add new t) h new last k some_new xs c norep apart,
      k.lists,
      λ q not_new out. k.others q not_new (apart_last t (t.proc_ht h).first last q xs c out),
    )
