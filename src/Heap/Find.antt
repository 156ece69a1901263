-- ===== src/Heap/Find.antt =====
-- The search of `heapAlloc` is first fit on the list of areas.
use mirai_os.Prelude.{
  ℕ, zero, suc, ◌+◌, ◌%◌, ◌^◌, ◌≤◌, ◌<◌, ◌==◌, ltb, leb, ◌≡◌, refl, Bool, true, false, not, ◌&&◌,
  if◌then◌else◌, Option, none, some, List, [], ◌∷◌, ◌++◌, length, arith, ap, ◌∙◌, Bool-cases, inl,
  inr,
}
use mirai_os.Heap.{Mem, area_size, in_use, add64, find_area}
use mirai_os.Heap.Areas.{Area, area, tag, IsAreas, IsAreas-le, sizes}

-- A free area of at least `t` bytes.
abbrev pub is_fit : ℕ → Area → Bool
is_fit t x = not x.used && leb t x.size

-- The areas before the first that fits, that one's size, and the areas behind it.
pub record Fit : Type 0 where
  pub before : List Area
  pub size : ℕ
  pub behind : List Area

abbrev skip : Area → Option Fit → Option Fit
skip x none = none
skip x (some f) = some (record f { before = x ∷ f.before })

pub first_fit : ℕ → List Area → Option Fit
first_fit t [] = none
first_fit t (x ∷ xs) =
    if is_fit t x
    then some (record { before = []; size = x.size; behind = xs })
    else skip x (first_fit t xs)

-- `first_fit` has divided the list, at an area that fits.
abbrev pub Divides : ℕ → List Area → Option Fit → Type 0
Divides t xs none = Unit
Divides t xs (some f) = (xs ≡ f.before ++ area f.size false ∷ f.behind) × (t ≤ f.size)

-- The address of the area that was found at or behind `p`, or NULL.
abbrev pub address : ℕ → Option Fit → ℕ
address p none = 0
address p (some f) = p + sizes f.before

pub tag_parts :
    (v s : ℕ) (u : Bool)
    → s % 16 ≡ 0
    → v ≡ tag s u
    → (area_size v ≡ s) × (in_use v ≡ u) × ((leb 16 s ≡ true) → (v == 0) ≡ false)
tag_parts v s true h e = ground arith
tag_parts v s false h e = ground arith

address-skip : (p : ℕ) (x : Area) (o : Option Fit) → address (p + x.size) o ≡ address p (skip x o)
address-skip p x none = refl
address-skip p x (some f) = omega arith

fit_tag :
    (v t : ℕ) (x : Area)
    → x.size % 16 ≡ 0
    → v ≡ tag x.size x.used
    → (not (in_use v) && leb t v) ≡ is_fit t x
fit_tag v t x h e = elim (Bool-cases x.used) [
  | inl used ↦ rw used (ground arith)
  | inr free ↦ rw free (ground arith)
]

pub find_area-first_fit :
    (fuel p stop t : ℕ) (mem : Mem) (xs : List Area)
    → length xs < fuel
    → 0 < t
    → stop < 2 ^ 64
    → IsAreas mem p stop xs
    → find_area fuel p stop t mem ≡ some (address p (first_fit t xs))
unfolding find_area first_fit
find_area-first_fit zero p stop t mem xs lt pos small h = absurd (omega arith)
find_area-first_fit (suc fuel) p stop t mem [] lt pos small h = ground arith
find_area-first_fit (suc fuel) p stop t mem (x ∷ xs) lt pos small h =
    let here = tag_parts (mem p) x.size x.used h.2 h.0 in
    let below : ltb p stop ≡ true =
      let end = IsAreas-le mem (p + x.size) stop xs h.4 in let big = h.3 in ground arith in
    let next : add64 p x.size ≡ p + x.size =
      let end = IsAreas-le mem (p + x.size) stop xs h.4 in omega (arith, end) in
    let fit = fit_tag (mem p) t x h.2 h.0 in
    let rest =
      find_area-first_fit fuel (p + x.size) stop t mem xs (omega arith) pos small h.4
      ∙ ap some (address-skip p x (first_fit t xs)) in
    let nonzero = here.2 (let big = h.3 in ground arith) in
    elim (Bool-cases (is_fit t x)) [
      | inl e ↦ rw (below, fit, e) (ap some (omega arith))
      | inr e ↦ rw (below, fit, e, nonzero, here.0, next) rest
    ]

skip-Divides :
    (t : ℕ) (x : Area) (xs : List Area) (o : Option Fit)
    → Divides t xs o
    → Divides t (x ∷ xs) (skip x o)
skip-Divides t x xs none h = tt
skip-Divides t x xs (some f) h = (ap (λ l. x ∷ l) h.0, h.1)

fit-Divides :
    (t : ℕ) (x : Area) (xs : List Area)
    → is_fit t x ≡ true
    → Divides t (x ∷ xs) (some (record { before = []; size = x.size; behind = xs }))
fit-Divides t x xs e =
    let free : x.used ≡ false = ground arith in (ap (λ u. area x.size u ∷ xs) free, ground arith)

pub first_fit-Divides : (t : ℕ) (xs : List Area) → Divides t xs (first_fit t xs)
unfolding first_fit
first_fit-Divides t [] = tt
first_fit-Divides t (x ∷ xs) = elim (Bool-cases (is_fit t x)) [
  | inl e ↦ rw e (fit-Divides t x xs e)
  | inr e ↦ rw e (skip-Divides t x xs (first_fit t xs) (first_fit-Divides t xs))
]

-- Where an area fits, the search finds one.
pub first_fit-finds :
    (t : ℕ) (xs : List Area) (x : Area) (ys : List Area)
    → is_fit t x ≡ true
    → (f : Fit) × (first_fit t (xs ++ x ∷ ys) ≡ some f)
unfolding first_fit
first_fit-finds t [] x ys fits = (record { before = []; size = x.size; behind = ys }, rw fits refl)
first_fit-finds t (z ∷ xs) x ys fits =
    let rest = first_fit-finds t xs x ys fits in
    elim (Bool-cases (is_fit t z)) [
      | inl e ↦ (record { before = []; size = z.size; behind = xs ++ x ∷ ys }, rw e refl)
      | inr e ↦ (record rest.0 { before = z ∷ rest.0.before }, rw (e, rest.1) refl)
    ]
