-- ===== src/Heap/Areas.antt =====
-- What the heap stands for: the list of its areas.
use mathlib.Core.Path.{subst}
use mirai_os.Prelude.{
  ℕ, ◌+◌, ◌-◌, ◌%◌, ◌≤◌, ◌<◌, ◌≡◌, Bool, true, false, List, [], ◌∷◌, ◌++◌, arith, ◌∙◌, ◌⊎◌,
}
use mirai_os.Heap.{Mem}

-- The size of an area with both its words, and whether it is in use.
pub record Area : Type 0 where
  pub size : ℕ
  pub used : Bool

abbrev pub area : ℕ → Bool → Area
area s u = record { size = s; used = u }

-- The word before and behind an area.
abbrev pub tag : ℕ → Bool → ℕ
tag s true = s + 1
tag s false = s

-- The areas `xs` lie one behind the other from `p` to `stop`.
abbrev pub IsAreas : Mem → (p stop : ℕ) → List Area → Type 0
IsAreas mem p stop [] = p ≡ stop
IsAreas mem p stop (x ∷ xs) =
    (mem p ≡ tag x.size x.used)
    × (mem (p + x.size - 8) ≡ tag x.size x.used)
    × (x.size % 16 ≡ 0)
    × (16 ≤ x.size)
    × IsAreas mem (p + x.size) stop xs

abbrev pub sizes : List Area → ℕ
sizes [] = 0
sizes (x ∷ xs) = x.size + sizes xs

pub IsAreas-le :
    (mem : Mem) (p stop : ℕ) (xs : List Area) → IsAreas mem p stop xs → p + sizes xs ≡ stop
IsAreas-le mem p stop [] h = omega arith
IsAreas-le mem p stop (x ∷ xs) h = omega (arith, IsAreas-le mem (p + x.size) stop xs h.4)

-- Areas read the memory between their ends alone.
pub IsAreas-frame :
    (mem mem' : Mem) (p stop : ℕ) (xs : List Area)
    → ((a : ℕ) → p ≤ a → a < stop → mem' a ≡ mem a)
    → IsAreas mem p stop xs
    → IsAreas mem' p stop xs
IsAreas-frame mem mem' p stop [] same h = h
IsAreas-frame mem mem' p stop (x ∷ xs) same h =
    let end = IsAreas-le mem (p + x.size) stop xs h.4 in
    (
      same p (omega arith) (omega (arith, end)) ∙ h.0,
      same (p + x.size - 8) (omega arith) (omega (arith, end)) ∙ h.1,
      h.2,
      h.3,
      IsAreas-frame mem mem' (p + x.size) stop xs (λ a le lt. same a (omega arith) lt) h.4,
    )

pub IsAreas-split :
    (mem : Mem) (p stop : ℕ) (xs ys : List Area)
    → IsAreas mem p stop (xs ++ ys)
    → IsAreas mem p (p + sizes xs) xs × IsAreas mem (p + sizes xs) stop ys
IsAreas-split mem p stop [] ys h = (omega arith, subst (λ q. IsAreas mem q stop ys) (omega arith) h)
IsAreas-split mem p stop (x ∷ xs) ys h =
    let rest = IsAreas-split mem (p + x.size) stop xs ys h.4 in
    let end : p + x.size + sizes xs ≡ p + (x.size + sizes xs) = omega arith in
    (
      (h.0, h.1, h.2, h.3, subst (λ q. IsAreas mem (p + x.size) q xs) end rest.0),
      subst (λ q. IsAreas mem q stop ys) end rest.1,
    )

pub IsAreas-append :
    (mem : Mem) (p mid stop : ℕ) (xs ys : List Area)
    → IsAreas mem p mid xs
    → IsAreas mem mid stop ys
    → IsAreas mem p stop (xs ++ ys)
IsAreas-append mem p mid stop [] ys h k = rw h k
IsAreas-append mem p mid stop (x ∷ xs) ys h k =
    (h.0, h.1, h.2, h.3, IsAreas-append mem (p + x.size) mid stop xs ys h.4 k)

-- The areas are `xs`, and the memory outside of them has not changed.
abbrev pub Changed : (heap stop : ℕ) → List Area → (mem mem' : Mem) → Type 0
Changed heap stop xs mem mem' =
    IsAreas mem' heap stop xs × ((a : ℕ) → (a < heap) ⊎ (stop ≤ a) → mem' a ≡ mem a)
