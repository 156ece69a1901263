-- ===== src/Heap/Higher.antt =====
-- The first half of `heapFree` joins the area with a free one behind it.
use mathlib.Core.Path.{subst}
use mirai_os.Prelude.{
  ℕ, ◌+◌, ◌-◌, ◌*◌, ◌%◌, ◌^◌, ◌≤◌, ◌<◌, ◌==◌, ltb, ◌≡◌, refl, true, false, if◌then◌else◌, List, [],
  ◌∷◌, arith, ap, sym, ◌∙◌, Bool-cases, inl, inr,
}
use mirai_os.Heap.{Ptr, Mem, put, add64, merge_higher}
use mirai_os.Heap.Areas.{Area, area, tag, IsAreas, IsAreas-le, IsAreas-frame}

-- The free area of `s` bytes before `ys`, joined with the first of them if that is free.
abbrev pub higher : ℕ → List Area → Area × List Area
higher s [] = (area s false, [])
higher s (y ∷ ys) = if y.used then (area s false, y ∷ ys) else (area (s + y.size) false, ys)

-- The areas from `p` to `stop` are `x` and `ys`, and the memory before and behind has not changed.
pub record Merged (p stop : ℕ) (x : Area) (ys : List Area) (mem mem' : Mem) : Type 0 where
  pub areas : IsAreas mem' p stop (x ∷ ys)
  pub below : (a : ℕ) → a < p → mem' a ≡ mem a
  pub above : (a : ℕ) → stop ≤ a → mem' a ≡ mem a

module _ (p s heap heap_size : ℕ) (mem : Mem) (header : mem p ≡ s + 1)
    (footer : mem (p + s - 8) ≡ s + 1) (whole : s % 16 ≡ 0) (big : 16 ≤ s)
    (below : p + s < heap + 8 * heap_size) (small : heap + 8 * heap_size < 2 ^ 64) where
  bound : ltb (p + s) (add64 heap (8 * heap_size)) ≡ true
  bound =
      let wrap : (heap + 8 * heap_size) % 2 ^ 64 ≡ heap + 8 * heap_size = omega arith in
      rw wrap (ground arith)

  higher_used :
      (n : ℕ)
      → mem (p + s) ≡ n + 1
      → n % 16 ≡ 0
      → merge_higher p heap heap_size mem ≡ (p + s - 8, put (p + s - 8) s (put p s mem))
  unfolding merge_higher
  higher_used n next whole_n =
      let clear : s + 1 - (s + 1) % 2 ≡ s = omega arith in
      let at_p : (p == p) ≡ true = ground arith in
      let size_s : s - s % 16 ≡ s = omega arith in
      let at_next : (p + s == p) ≡ false = ground arith in
      let end : p + s - 8 + 8 ≡ p + s = omega arith in
      let set : ((n + 1) % 2 == 1) ≡ true = ground arith in
      let at_end : (p + s - 8 == p) ≡ false = ground arith in
      rw (header, clear, at_p, size_s, end, at_next, next, set, bound, at_end, footer, clear) refl

  higher_free :
      (n : ℕ)
      → mem (p + s) ≡ n
      → n % 16 ≡ 0
      → s + n < 2 ^ 64
      → let footer = p + s + n - 8 in
        merge_higher p heap heap_size mem
        ≡ (footer, put footer (s + n) (put footer (s + n) (put p (s + n) (put p s mem))))
  unfolding merge_higher
  higher_free n next whole_n fit =
      let clear : s + 1 - (s + 1) % 2 ≡ s = omega arith in
      let at_p : (p == p) ≡ true = ground arith in
      let size_s : s - s % 16 ≡ s = omega arith in
      let at_next : (p + s == p) ≡ false = ground arith in
      let end : p + s - 8 + 8 ≡ p + s = omega arith in
      let set : (n % 2 == 1) ≡ false = ground arith in
      let size_n : n - n % 16 ≡ n = omega arith in
      let sum : (s + n) % 2 ^ 64 ≡ s + n = omega arith in
      let clear_sum : s + n - (s + n) % 2 ≡ s + n = omega arith in
      let at_end : (p + s + n - 8 == p + s + n - 8) ≡ true = ground arith in
      rw
        (
          header, clear, at_p, size_s, end, at_next, next, set, bound, size_n, sum, at_end,
          clear_sum,
        )
        refl

  Merged-used :
      (stop n : ℕ) (ys : List Area)
      → mem (p + s) ≡ n + 1
      → n % 16 ≡ 0
      → p + s ≤ stop
      → IsAreas mem (p + s) stop ys
      → let r = merge_higher p heap heap_size mem in
        (r.0 ≡ p + s - 8) × Merged p stop (area s false) ys mem r.1
  Merged-used stop n ys next whole_n le h = rw (higher_used n next whole_n) (
    refl,
    record {
      areas = (
        ground arith,
        ground arith,
        whole,
        big,
        IsAreas-frame mem (put (p + s - 8) s (put p s mem)) (p + s) stop ys
            (λ a from to. ground arith) h,
      );
      below = λ a lt. ground arith;
      above = λ a from. ground arith;
    },
  )

  Merged-free :
      (stop n : ℕ) (ys : List Area)
      → mem (p + s) ≡ n
      → n % 16 ≡ 0
      → s + n < 2 ^ 64
      → p + s + n ≤ stop
      → IsAreas mem (p + s + n) stop ys
      → let r = merge_higher p heap heap_size mem in
        (r.0 ≡ p + (s + n) - 8) × Merged p stop (area (s + n) false) ys mem r.1
  Merged-free stop n ys next whole_n fit le h =
      let mem' =
        put (p + s + n - 8) (s + n) (put (p + s + n - 8) (s + n) (put p (s + n) (put p s mem))) in
      rw (higher_free n next whole_n fit) (
        omega arith,
        record {
          areas = (
            ground arith,
            ground arith,
            omega arith,
            omega arith,
            subst (λ q. IsAreas mem' q stop ys) (omega arith)
                (IsAreas-frame mem mem' (p + s + n) stop ys (λ a from to. ground arith) h),
          );
          below = λ a lt. ground arith;
          above = λ a from. ground arith;
        },
      )

-- `merge_higher` has joined the area at `p` to what `h` says.
abbrev pub Higher : (p stop : ℕ) → Mem → Ptr × Mem → Area × List Area → Type 0
Higher p stop mem r h = (r.0 ≡ p + h.0.size - 8) × Merged p stop h.0 h.1 mem r.1

higher-Bool :
    (s : ℕ) (y : Area) (ys : List Area)
    → (y.used ≡ true → higher s (y ∷ ys) ≡ (area s false, y ∷ ys))
      × (y.used ≡ false → higher s (y ∷ ys) ≡ (area (s + y.size) false, ys))
higher-Bool s y ys = (
  λ e. ap (λ u. if u then (area s false, y ∷ ys) else (area (s + y.size) false, ys)) e,
  λ e. ap (λ u. if u then (area s false, y ∷ ys) else (area (s + y.size) false, ys)) e,
)

pub merge_higher-Higher :
    (p s stop heap heap_size : ℕ) (mem : Mem) (ys : List Area)
    → IsAreas mem p stop (area s true ∷ ys)
    → mem stop ≡ 0
    → stop < heap + 8 * heap_size
    → heap + 8 * heap_size < 2 ^ 64
    → Higher p stop mem (merge_higher p heap heap_size mem) (higher s ys)
merge_higher-Higher p s stop heap heap_size mem [] h null below small =
    let ends : p + s ≡ stop = h.4 in
    subst (λ n. Higher p stop mem (merge_higher p heap heap_size mem) (area n false, []))
      (omega arith)
      (Merged-free p s heap heap_size mem h.0 h.1 h.2 h.3 (omega arith) small stop 0 []
        (ap mem ends ∙ null) refl (omega arith) (omega arith) (omega arith))
merge_higher-Higher p s stop heap heap_size mem (y ∷ ys) h null below small =
    let end = IsAreas-le mem (p + s) stop (y ∷ ys) h.4 in
    let tail = h.4 in
    elim (Bool-cases y.used) [
      | inl used ↦
          subst (Higher p stop mem (merge_higher p heap heap_size mem))
            (sym ((higher-Bool s y ys).0 used))
            (Merged-used p s heap heap_size mem h.0 h.1 h.2 h.3 (omega arith) small stop y.size
              (y ∷ ys) (tail.0 ∙ ap (tag y.size) used) tail.2 (omega arith) tail)
      | inr free ↦
          subst (Higher p stop mem (merge_higher p heap heap_size mem))
            (sym ((higher-Bool s y ys).1 free))
            (Merged-free p s heap heap_size mem h.0 h.1 h.2 h.3 (omega arith) small stop y.size ys
              (tail.0 ∙ ap (tag y.size) free) tail.2 (omega arith) (omega arith) tail.4)
    ]
