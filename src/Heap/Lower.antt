-- ===== src/Heap/Lower.antt =====
-- The second half of `heapFree` joins the area with a free one before it.
use mathlib.Core.Path.{subst}
use mirai_os.Prelude.{
  ℕ, ◌+◌, ◌-◌, ◌%◌, ◌^◌, ◌≤◌, ◌<◌, ◌==◌, ◌≡◌, refl, true, false, if◌then◌else◌, List, [], ◌∷◌, ◌++◌,
  arith, ap, sym, ◌∙◌, Bool-cases, inl, inr, ◌⊎◌,
}
use mirai_os.Heap.{Ptr, Mem, put, merge_lower}
use mirai_os.Heap.Areas.{Area, area, tag, IsAreas, IsAreas-le, IsAreas-frame, sizes, Changed}

-- The area `x`, joined with the free area of `s` bytes behind it if it is free itself.
abbrev pub join : Area → ℕ → List Area
join x s = if x.used then x ∷ area s false ∷ [] else area (x.size + s) false ∷ []

-- The areas `xs` and a free one of `s` bytes behind them, joined with the last if that is free.
pub lower : List Area → ℕ → List Area
lower [] s = area s false ∷ []
lower (x ∷ []) s = join x s
lower (x ∷ y ∷ xs) s = x ∷ lower (y ∷ xs) s

pub lower-nil : (s : ℕ) → lower [] s ≡ area s false ∷ []
unfolding lower
lower-nil s = refl

pub lower-one : (s : ℕ) (x : Area) → lower (x ∷ []) s ≡ join x s
unfolding lower
lower-one s x = refl

pub lower-more : (s : ℕ) (x y : Area) (xs : List Area) → lower (x ∷ y ∷ xs) s ≡ x ∷ lower (y ∷ xs) s
unfolding lower
lower-more s x y xs = refl

module _ (p s : ℕ) (mem : Mem) (header : mem p ≡ s) where
  lower_first : (f : Ptr) → mem (p - 8) ≡ 0 → merge_lower p f mem ≡ mem
  unfolding merge_lower
  lower_first f e = let test : (mem (p - 8) == 0) ≡ true = ground arith in rw test refl

  lower_used : (f n : ℕ) → mem (p - 8) ≡ n + 1 → n % 16 ≡ 0 → merge_lower p f mem ≡ mem
  unfolding merge_lower
  lower_used f n e whole =
      let set : ((n + 1) % 2 == 1) ≡ true = ground arith in
      let test : (n + 1 == 0) ≡ false = ground arith in rw (e, test, set) refl

  lower_free :
      (f q n : ℕ)
      → mem (p - 8) ≡ n
      → mem q ≡ n
      → q + n ≡ p
      → n % 16 ≡ 0
      → 16 ≤ n
      → n + s < 2 ^ 64
      → merge_lower p f mem ≡ put f (n + s) (put q (n + s) mem)
  unfolding merge_lower
  lower_free f q n e at_q place whole big fit =
      let set : (n % 2 == 1) ≡ false = ground arith in
      let test : (n == 0) ≡ false = ground arith in
      let size_n : n - n % 16 ≡ n = omega arith in
      let prev : p - 8 + 8 - n ≡ q = omega arith in
      let sum : (n + s) % 2 ^ 64 ≡ n + s = omega arith in
      let at : (q == q) ≡ true = ground arith in
      rw (e, test, set, size_n, prev, at_q, header, sum, at) refl

joined :
    (q stop s : ℕ) (x : Area) (ys : List Area) (mem mem' : Mem)
    → (zs : List Area) → join x s ≡ zs
    → IsAreas mem' q stop (zs ++ ys)
    → ((a : ℕ) → (a < q) ⊎ (stop ≤ a) → mem' a ≡ mem a)
    → Changed q stop (join x s ++ ys) mem mem'
joined q stop s x ys mem mem' zs e h same =
    (subst (λ l. IsAreas mem' q stop (l ++ ys)) (sym e) h, same)

lower_two :
    (q stop s : ℕ) (x : Area) (ys : List Area) (mem : Mem)
    → IsAreas mem q stop (x ∷ area s false ∷ ys)
    → stop < 2 ^ 64
    → Changed q stop (join x s ++ ys) mem (merge_lower (q + x.size) (q + x.size + s - 8) mem)
lower_two q stop s x ys mem h small =
    let p = q + x.size in
    let next = h.4 in
    let end = IsAreas-le mem (p + s) stop ys next.4 in
    elim (Bool-cases x.used) [
      | inl used ↦
          let e : join x s ≡ x ∷ area s false ∷ [] =
            ap (λ u. if u then x ∷ area s false ∷ [] else area (x.size + s) false ∷ []) used in
          rw (lower_used p s mem next.0 (p + s - 8) x.size (h.1 ∙ ap (tag x.size) used) h.2)
            (joined q stop s x ys mem mem (x ∷ area s false ∷ []) e h (λ a out. refl))
      | inr free ↦
          let e : join x s ≡ area (x.size + s) false ∷ [] =
            ap (λ u. if u then x ∷ area s false ∷ [] else area (x.size + s) false ∷ []) free in
          let n = x.size in
          let whole = h.2 in
          let big = h.3 in
          let whole' = next.2 in
          let big' = next.3 in
          let mem' = put (p + s - 8) (n + s) (put q (n + s) mem) in
          rw
            (lower_free p s mem next.0 (p + s - 8) q n (h.1 ∙ ap (tag n) free)
              (h.0 ∙ ap (tag n) free) refl whole big (omega (arith, end)))
            (joined q stop s x ys mem mem' (area (n + s) false ∷ []) e
              (
                ground arith,
                ground arith,
                omega arith,
                omega arith,
                subst (λ r. IsAreas mem' r stop ys) (omega arith)
                    (IsAreas-frame mem mem' (p + s) stop ys (λ a from to. ground arith) next.4),
              )
              (λ a out. elim out [ inl lt ↦ ground (arith, end) | inr le ↦ ground (arith, end) ]))
    ]

lower_last :
    (q stop s : ℕ) (x : Area) (xs ys : List Area) (mem : Mem)
    → IsAreas mem q stop (x ∷ (xs ++ area s false ∷ ys))
    → stop < 2 ^ 64
    → let p = q + (x.size + sizes xs) in
      Changed q stop (lower (x ∷ xs) s ++ ys) mem (merge_lower p (p + s - 8) mem)
unfolding lower
lower_last q stop s x [] ys mem h small =
    subst (λ p. Changed q stop (lower (x ∷ []) s ++ ys) mem (merge_lower p (p + s - 8) mem))
      (omega arith) (lower_two q stop s x ys mem h small)
lower_last q stop s x (y ∷ xs) ys mem h small =
    let p = q + (x.size + (y.size + sizes xs)) in
    let q' = q + x.size in
    let mem' = merge_lower p (p + s - 8) mem in
    let rest : Changed q' stop (lower (y ∷ xs) s ++ ys) mem mem' =
      subst (λ p. Changed q' stop (lower (y ∷ xs) s ++ ys) mem (merge_lower p (p + s - 8) mem))
        (omega arith) (lower_last q' stop s y xs ys mem h.4 small) in
    let big = h.3 in
    (
      (
        rest.1 q (inl (omega arith)) ∙ h.0,
        rest.1 (q' - 8) (inl (omega arith)) ∙ h.1,
        h.2,
        h.3,
        rest.0,
      ),
      λ a out. elim out [ inl lt ↦ rest.1 a (inl (omega arith)) | inr le ↦ rest.1 a (inr le) ],
    )

pub lower-Changed :
    (q stop s : ℕ) (xs ys : List Area) (mem : Mem)
    → IsAreas mem q stop (xs ++ area s false ∷ ys)
    → mem (q - 8) ≡ 0
    → stop < 2 ^ 64
    → let p = q + sizes xs in Changed q stop (lower xs s ++ ys) mem (merge_lower p (p + s - 8) mem)
unfolding lower
lower-Changed q stop s [] ys mem h null small =
    subst (λ p. Changed q stop (area s false ∷ ys) mem (merge_lower p (p + s - 8) mem)) {x = q}
      (omega arith)
      (subst (Changed q stop (area s false ∷ ys) mem)
        (sym (lower_first q s mem h.0 (q + s - 8) null)) (h, λ a out. refl))
lower-Changed q stop s (x ∷ xs) ys mem h null small = lower_last q stop s x xs ys mem h small
