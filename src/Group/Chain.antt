-- ===== src/Group/Chain.antt =====
-- What a process group stands for: the list of its processes.
use mirai_os.Prelude.{
  ◌≡◌, ◌≢◌, refl, ◌==◌, true, false, List, [], ◌∷◌, ◌++◌, arith, ◌∈◌, ◌∉◌, inl, inr, Bool-cases,
}
use mirai_os.ThreadQueue.Links.{head_or, last_or, has-append, mem-last_or, ne_of_mem}
use mirai_os.RbTree.{Ptr, null}
use mirai_os.Group.{Member, Groups}

-- The processes `xs` of the group `g` are linked both ways; `prev` stands before them.
abbrev pub Chain : (Ptr → Member) → (g prev : Ptr) → List Ptr → Type 0
Chain ms g prev [] = Unit
Chain ms g prev (x ∷ xs) =
    (x ≢ null)
    × ((ms x).grp_prev ≡ prev)
    × ((ms x).grp_next ≡ head_or null xs)
    × ((ms x).group ≡ g)
    × (x ∉ xs)
    × Chain ms g x xs

-- The group `g` has the processes `xs`, first to last.
pub record IsGroup (w : Groups) (g : Ptr) (xs : List Ptr) : Type 0 where
  pub first : (w.groups g).first ≡ head_or null xs
  pub last : (w.groups g).last ≡ last_or null xs
  pub links : Chain w.members g null xs

pub Chain-frame :
    (ms fs : Ptr → Member) (g prev : Ptr) (xs : List Ptr)
    → ((p : Ptr) → p ∈ xs → fs p ≡ ms p)
    → Chain ms g prev xs
    → Chain fs g prev xs
Chain-frame ms fs g prev [] same l = tt
Chain-frame ms fs g prev (x ∷ xs) same l = (
  l.0,
  ground (arith, same x),
  ground (arith, same x),
  ground (arith, same x),
  l.4,
  Chain-frame ms fs g x xs (λ p h. same p (ground arith)) l.5,
)

-- The links of the process `p` in the middle.
pub Chain-at :
    (ms : Ptr → Member) (g prev p : Ptr) (xs ys : List Ptr)
    → Chain ms g prev (xs ++ p ∷ ys)
    → (p ≢ null)
      × ((ms p).grp_prev ≡ last_or prev xs)
      × ((ms p).grp_next ≡ head_or null ys)
      × ((ms p).group ≡ g)
      × (p ∉ xs)
      × (p ∉ ys)
Chain-at ms g prev p [] ys l = (l.0, l.1, l.2, l.3, refl, l.4)
Chain-at ms g prev p (x ∷ xs) ys l =
    let b = Chain-at ms g x p xs ys l.5 in
    (b.0, b.1, b.2, b.3, ground (arith, b.4, has-append x xs (p ∷ ys), l.4), b.5)

-- What is behind `p` gets what was before it.
pub Chain-up :
    (ms fs : Ptr → Member) (g old prev : Ptr) (ys : List Ptr)
    → Chain ms g old ys
    → ((y : Ptr)
        → y ∈ ys
        → ((y == head_or null ys) ≡ true → fs y ≡ record (ms y) { grp_prev = prev })
          × ((y == head_or null ys) ≡ false → fs y ≡ ms y))
    → Chain fs g prev ys
Chain-up ms fs g old prev [] l same = tt
Chain-up ms fs g old prev (y ∷ ys) l same =
    let own : fs y ≡ record (ms y) { grp_prev = prev } = (same y (ground arith)).0 (ground arith) in
    (
      l.0,
      rw own refl,
      rw own l.2,
      rw own l.3,
      l.4,
      Chain-frame ms fs g y ys
          (λ p h. let ne : (p == y) ≡ false = ground (arith, l.4) in (same p (ground arith)).1 ne)
          l.5,
    )

-- The chain without `p`, where the neighbours are linked to each other.
pub Chain-without :
    (ms fs : Ptr → Member) (g prev p : Ptr) (xs ys : List Ptr)
    → Chain ms g prev (xs ++ p ∷ ys)
    → ((y : Ptr)
        → y ∈ ys
        → ((y == head_or null ys) ≡ true → fs y ≡ record (ms y) { grp_prev = last_or prev xs })
          × ((y == head_or null ys) ≡ false → fs y ≡ ms y))
    → ((x : Ptr)
        → x ∈ xs
        → ((x == last_or null xs) ≡ true → fs x ≡ record (ms x) { grp_next = head_or null ys })
          × ((x == last_or null xs) ≡ false → fs x ≡ ms x))
    → Chain fs g prev (xs ++ ys)
Chain-without ms fs g prev p [] ys l high low = Chain-up ms fs g p prev ys l.5 high
Chain-without ms fs g prev p (x ∷ []) ys l high low =
    let own : fs x ≡ record (ms x) { grp_next = head_or null ys } =
      (low x (ground arith)).0 (ground arith) in
    (
      l.0,
      rw own l.1,
      rw own refl,
      rw own l.3,
      ground (arith, l.4),
      Chain-up ms fs g p x ys l.5.5 high,
    )
Chain-without ms fs g prev p (x ∷ z ∷ xs) ys l high low =
    let ne : (x == last_or z xs) ≡ false = ground (
      arith,
      ne_of_mem (last_or z xs) x (z ∷ xs) (mem-last_or z xs)
          (ground (arith, l.4, has-append x (z ∷ xs) (p ∷ ys))),
    ) in
    let own : fs x ≡ ms x = (low x (ground arith)).1 ne in
    (
      l.0,
      rw own l.1,
      rw own l.2,
      rw own l.3,
      ground (arith, l.4, has-append x (z ∷ xs) (p ∷ ys), has-append x (z ∷ xs) ys),
      Chain-without ms fs g x p (z ∷ xs) ys l.5 high (λ y m. low y (ground arith)),
    )

pub head_or-ne : (p : Ptr) (ys : List Ptr) → p ≢ null → p ∉ ys → p ≢ head_or null ys
head_or-ne p [] n m = n
head_or-ne p (y ∷ ys) n m = ground arith

pub last_or-ne : (p : Ptr) (xs : List Ptr) → p ≢ null → p ∉ xs → p ≢ last_or null xs
last_or-ne p [] n m = n
last_or-ne p (x ∷ xs) n m = ne_of_mem (last_or x xs) p (x ∷ xs) (mem-last_or x xs) m

-- No process is on both sides of another, and none is NULL.
pub Chain-apart :
    (ms : Ptr → Member) (g prev p a : Ptr) (xs ys : List Ptr)
    → Chain ms g prev (xs ++ p ∷ ys)
    → a ∈ xs
    → (a ∉ ys) × (a ≢ null) × (a ≢ p)
Chain-apart ms g prev p a [] ys l m = absurd (ground arith)
Chain-apart ms g prev p a (x ∷ xs) ys l m = elim (Bool-cases (a == x)) [
  | inl e ↦ (
    ground (arith, l.4, has-append x xs (p ∷ ys)),
    ground (arith, l.0),
    ground (arith, l.4, has-append x xs (p ∷ ys)),
  )
  | inr ne ↦ Chain-apart ms g x p a xs ys l.5 (ground arith)
]

pub Chain-behind :
    (ms : Ptr → Member) (g prev p a : Ptr) (xs ys : List Ptr)
    → Chain ms g prev (xs ++ p ∷ ys)
    → a ∈ ys
    → (a ≢ null) × (a ≢ p) × (a ∉ xs)
Chain-behind ms g prev p a [] ys l m = (ne_null ys p l.5 m, ground (arith, l.4), refl)
  where
    ne_null : (zs : List Ptr) (b : Ptr) → Chain ms g b zs → a ∈ zs → a ≢ null
    ne_null [] b l m = absurd (ground arith)
    ne_null (z ∷ zs) b l m = ground (arith, l.0, ne_null zs z l.5)
Chain-behind ms g prev p a (x ∷ xs) ys l m =
    let rest = Chain-behind ms g x p a xs ys l.5 m in
    (rest.0, rest.1, ground (arith, rest.2, l.4, has-append x xs (p ∷ ys)))
