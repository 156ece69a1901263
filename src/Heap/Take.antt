-- ===== src/Heap/Take.antt =====
-- What `heapAlloc` makes of the free area that it has found.
use mirai_os.Prelude.{
  ℕ, ◌+◌, ◌-◌, ◌%◌, ◌≤◌, ◌<◌, ◌==◌, ltb, ◌≡◌, refl, true, false, if◌then◌else◌, List, [], ◌∷◌,
  arith, Bool-cases, inl, inr,
}
use mirai_os.Heap.{Mem, put, split_area, take_area}
use mirai_os.Heap.Areas.{Area, area, IsAreas}

-- An area of `s` bytes that gives `t`: the rest is an area of its own if it is above 16 bytes.
abbrev pub parts : (s t : ℕ) → List Area
parts s t = if ltb 16 (s - t) then area t true ∷ area (s - t) false ∷ [] else area s true ∷ []

-- The area is taken, and only words in it have changed.
pub record TookArea (p s t : ℕ) (mem mem' : Mem) : Type 0 where
  pub areas : IsAreas mem' p (p + s) (parts s t)
  pub below : (a : ℕ) → a < p → mem' a ≡ mem a
  pub above : (a : ℕ) → p + s ≤ a → mem' a ≡ mem a

module _ (p s t : ℕ) (mem : Mem) (free : mem p ≡ s) (whole_s : s % 16 ≡ 0) (whole_t : t % 16 ≡ 0)
    (big : 16 ≤ t) (fits : t ≤ s) where
  split_more :
      16 < s - t
      → split_area p (mem p) t mem
        ≡ (p + t - 8, put (p + t) (s - t) (put (p + s - 8) (s - t) (put p t mem)))
  unfolding split_area
  split_more more =
      let size_s : s - s % 16 ≡ s = omega arith in
      let size_t : t - t % 16 ≡ t = omega arith in
      let rest : s - t - (s - t) % 16 ≡ s - t = omega arith in
      let test : ltb 16 (s - t) ≡ true = ground arith in
      let at_p : (p == p) ≡ true = ground arith in
      let at_end : (p + s - 8 == p + s - 8) ≡ true = ground arith in
      let header : p + s - 8 + 8 - (s - t) ≡ p + t = omega arith in
      rw (free, size_s, test, at_p, size_t, at_end, rest, header)

  split_none : s - t ≤ 16 → split_area p (mem p) t mem ≡ (p + s - 8, put p s (put p t mem))
  unfolding split_area
  split_none less =
      let size_s : s - s % 16 ≡ s = omega arith in
      let test : ltb 16 (s - t) ≡ false = ground arith in
      let at_p : (p == p) ≡ true = ground arith in rw (free, test, at_p, size_s)

  take_more : 16 < s - t → TookArea p s t mem (take_area p t mem)
  unfolding take_area
  take_more more =
      let test : ltb 16 (s - t) ≡ true = ground arith in
      let base = put (p + t) (s - t) (put (p + s - 8) (s - t) (put p t mem)) in
      let old : base p ≡ t = ground arith in
      let at_p : (p == p) ≡ true = ground arith in
      let set : t - t % 2 + 1 ≡ t + 1 = omega arith in
      rw (split_more more, old, at_p, set)
        (record {
          areas = rw test (
            ground arith,
            ground arith,
            whole_t,
            big,
            (ground arith, ground arith, omega arith, omega arith, omega arith),
          );
          below = λ a lt. ground arith;
          above = λ a le. ground arith;
        })

  take_none : s - t ≤ 16 → TookArea p s t mem (take_area p t mem)
  unfolding take_area
  take_none less =
      let test : ltb 16 (s - t) ≡ false = ground arith in
      let base = put p s (put p t mem) in
      let old : base p ≡ s = ground arith in
      let at_p : (p == p) ≡ true = ground arith in
      let set : s - s % 2 + 1 ≡ s + 1 = omega arith in
      rw (split_none less, old, at_p, set)
        (record {
          areas = rw test (ground arith, ground arith, whole_s, omega arith, refl);
          below = λ a lt. ground arith;
          above = λ a le. ground arith;
        })

  pub take_area-TookArea : TookArea p s t mem (take_area p t mem)
  take_area-TookArea = elim (Bool-cases (ltb 16 (s - t))) [
    | inl e ↦ take_more (ground arith)
    | inr e ↦ take_none (ground arith)
  ]
