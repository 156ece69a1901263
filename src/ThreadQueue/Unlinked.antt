-- ===== src/ThreadQueue/Unlinked.antt =====
-- The store after `threadQueueRemove` has taken an entry out of its queue.
use mathlib.Core.Path.{subst}
use mirai_os.Prelude.{
  ◌≡◌, ◌≢◌, refl, ◌==◌, List, [], ◌∷◌, ◌++◌, arith, ◌∈◌, ◌∉◌, has, false, sym, ap, ◌∙◌,
  if◌then◌else◌,
}
use mirai_os.Thread.{Ptr, null, Store, sub32}
use mirai_os.ThreadQueue.{unlink_prev, set_queue, decr_threads}
use mirai_os.ThreadQueue.Unlink.{
  Links-join, unlinked, unlink_prev_spares, unlink_next_spares, unlinked_at_prev, unlinked_at_next,
  unlinked_other, unlinked_queue, unlinked_queues, unlink_prev_rest, unlink_next_rest,
}
use mirai_os.ThreadQueue.Links.{
  mem-append_left, mem-append_right, IsQueue, Links, head_or, last_or, Keeps, has-append,
  mem-last_or, ne_of_mem, Between, Links-Between, Links-apart, Links-ne_null,
}

-- The store after `y` has left `q`.
abbrev pub after_remove : Store → (q y prev next : Ptr) → Store
after_remove st q y prev next = set_queue y null (decr_threads q (unlinked st q prev next))

pub last_or-ne : (d e : Ptr) (xs : List Ptr) → xs ≢ [] → last_or d xs ≡ last_or e xs
last_or-ne d e [] h = absurd (h refl)
last_or-ne d e (x ∷ xs) h = refl

pub head_or-ne : (d e : Ptr) (xs : List Ptr) → xs ≢ [] → head_or d xs ≡ head_or e xs
head_or-ne d e [] h = absurd (h refl)
head_or-ne d e (x ∷ xs) h = refl

-- The queue holds `xs`, `y` and `ys`, and `y` is removed.
module _ (st : Store) (q y : Ptr) (xs ys : List Ptr) (is : IsQueue st q (xs ++ y ∷ ys))
    (hq : q ≢ null) where
  abbrev pub prev : Ptr
  prev = last_or null xs

  abbrev pub next : Ptr
  next = head_or null ys

  abbrev pub final : Store
  final = after_remove st q y prev next

  pub between : Between st.entries q null y xs ys
  between = Links-Between st.entries q null y xs ys is.links

  pub y-ne-prev : y ≢ prev
  y-ne-prev = y-ne-last xs between.not_before
    where
      y-ne-last : (zs : List Ptr) → y ∉ zs → y ≢ last_or null zs
      y-ne-last [] h = between.ne_null
      y-ne-last (z ∷ zs) h = ne_of_mem (last_or z zs) y (z ∷ zs) (mem-last_or z zs) h

  pub y-ne-next : y ≢ next
  y-ne-next = y-ne-head ys between.not_behind
    where
      y-ne-head : (zs : List Ptr) → y ∉ zs → y ≢ head_or null zs
      y-ne-head [] h = between.ne_null
      y-ne-head (z ∷ zs) h = ground arith

  pub final-other :
      (p : Ptr)
      → p ≢ y
      → (prev ≢ null → p ≢ prev)
      → (next ≢ null → p ≢ next)
      → final.entries p ≡ st.entries p
  final-other p hy hp hn =
      let kept : final.entries p ≡ (unlinked st q prev next).entries p = ground arith in
      kept
      ∙ unlink_next_spares (unlink_prev q prev next st) q prev next p hn
      ∙ unlink_prev_spares st q prev next p hp

  pub prev-ne-next : prev ≢ null → prev ≢ next
  prev-ne-next = go xs ys (λ p. Links-apart st.entries q null y p xs ys is.links)
    where
      go :
          (us vs : List Ptr)
          → ((p : Ptr) → p ∈ us → p ∉ vs)
          → last_or null us ≢ null
          → last_or null us ≢ head_or null vs
      go [] vs apart h = absurd (h refl)
      go (u ∷ us) [] apart h = h
      go (u ∷ us) (v ∷ vs) apart h = ground (arith, apart (last_or u us) (mem-last_or u us))

  pub null-of-prev : xs ≢ [] → prev ≢ null
  null-of-prev = go xs (λ p m.
      Links-ne_null st.entries q null null p (xs ++ y ∷ ys) is.links
        (mem-append_left p xs (y ∷ ys) m))
    where
      go : (us : List Ptr) → ((p : Ptr) → p ∈ us → p ≢ null) → us ≢ [] → last_or null us ≢ null
      go [] h ne = absurd (ne refl)
      go (u ∷ us) h ne = h (last_or u us) (mem-last_or u us)

  pub null-of-next : ys ≢ [] → next ≢ null
  null-of-next = go ys (λ p m.
      Links-ne_null st.entries q null null p (xs ++ y ∷ ys) is.links
        (mem-append_right p xs (y ∷ ys) (ground arith)))
    where
      go : (us : List Ptr) → ((p : Ptr) → p ∈ us → p ≢ null) → us ≢ [] → head_or null us ≢ null
      go [] h ne = absurd (ne refl)
      go (u ∷ us) h ne = h u (ground arith)

  pub xs-of-prev : prev ≢ null → xs ≢ []
  xs-of-prev h e = h (ap (last_or null) e)

  pub ys-of-next : next ≢ null → ys ≢ []
  ys-of-next h e = h (ap (head_or null) e)

  pub final-at_prev : xs ≢ [] → final.entries prev ≡ record (st.entries prev) { next_thread = next }
  final-at_prev h =
      let kept : final.entries prev ≡ (unlinked st q prev next).entries prev =
        ground (arith, y-ne-prev) in
      let ne = null-of-prev h in kept ∙ unlinked_at_prev st q prev next ne (prev-ne-next ne)

  pub final-at_next : ys ≢ [] → final.entries next ≡ record (st.entries next) { prev_thread = prev }
  final-at_next h =
      let kept : final.entries next ≡ (unlinked st q prev next).entries next =
        ground (arith, y-ne-next) in
      let ne = null-of-next h in
      let apart : prev ≢ next = λ e. prev-ne-next (λ z. ne (sym e ∙ z)) e in
      kept ∙ unlinked_at_next st q prev next ne apart

  pub final-Links : Links final.entries q null null (xs ++ ys)
  final-Links =
      Links-join st.entries final.entries q null y xs ys is.links
        (λ p m hl hh.
          final-other p (λ e. cc (ap (λ a. has a (xs ++ ys)) e, m, y-out))
            (λ ne e. hl (e ∙ last_or-ne null y xs (xs-of-prev ne)))
            (λ ne e. hh (e ∙ head_or-ne null y ys (ys-of-next ne))))
        (λ ne.
          subst (λ a. final.entries a ≡ record (st.entries a) { next_thread = next })
            (last_or-ne null y xs ne) (final-at_prev ne))
        (λ ne.
          subst (λ a. final.entries a ≡ record (st.entries a) { prev_thread = prev })
            (head_or-ne null y ys ne) (final-at_next ne))
    where
      y-out : has y (xs ++ ys) ≡ false
      y-out = ground (arith, has-append y xs ys, between.not_before, between.not_behind)

  pub final-queue : final.queues q ≡ record {
    first = if prev == null then next else (st.queues q).first;
    last = if next == null then prev else (st.queues q).last;
    nrof_threads = sub32 (st.queues q).nrof_threads 1;
  }
  final-queue = ground (arith, unlinked_queue st q prev next)

  pub final-at_y : final.entries y ≡ record (st.entries y) { queue = null }
  final-at_y =
      let kept : (unlinked st q prev next).entries y ≡ st.entries y =
        unlinked_other st q prev next y y-ne-prev y-ne-next in
      ground arith

  prev-mem : prev ≢ null → prev ∈ (xs ++ y ∷ ys)
  prev-mem h = mem-append_left prev xs (y ∷ ys) (go xs h)
    where
      go : (us : List Ptr) → last_or null us ≢ null → last_or null us ∈ us
      go [] ne = absurd (ne refl)
      go (u ∷ us) ne = mem-last_or u us

  next-mem : next ≢ null → next ∈ (xs ++ y ∷ ys)
  next-mem h = mem-append_right next xs (y ∷ ys) (go ys h)
    where
      go : (us : List Ptr) → head_or null us ≢ null → head_or null us ∈ (y ∷ us)
      go [] ne = absurd (ne refl)
      go (u ∷ us) ne = ground arith

  pub final-Keeps : Keeps st final q (xs ++ y ∷ ys)
  final-Keeps =
      let one = unlink_prev_rest st q prev next in
      let two = unlink_next_rest (unlink_prev q prev next st) q prev next in
      record {
        entries = λ p out.
            final-other p
              (ne_of_mem y p (xs ++ y ∷ ys) (mem-append_right y xs (y ∷ ys) (ground arith)) out)
              (λ ne. ne_of_mem prev p (xs ++ y ∷ ys) (prev-mem ne) out)
              (λ ne. ne_of_mem next p (xs ++ y ∷ ys) (next-mem ne) out);
        queues = λ r ne. ground (arith, unlinked_queues st q prev next r ne);
        threads = two.0 ∙ one.0;
        cpus = two.1 ∙ one.1;
      }
