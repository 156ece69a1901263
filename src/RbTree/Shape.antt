-- ===== src/RbTree/Shape.antt =====
-- What a tree of nodes stands for: a shape with the values, and the list of its nodes in order.
use mathlib.Core.Path.{subst}
use mirai_os.Prelude.{
  ℕ, ◌+◌, ◌<◌, ◌≡◌, ◌≢◌, refl, Bool, List, [], ◌∷◌, ◌++◌, ap, sym, ◌∙◌, ◌⊎◌, inl, inr,
}
use mirai_os.RbTree.{Ptr, null, RbNode, RbTree}

pub data Shape : Type 0 where
  leaf : Shape
  fork : (left : Shape) (at : Ptr) (value : ℕ) (red : Bool) (right : Shape) → Shape

-- The nodes at and below `p`, whose parent is `parent`, have the shape `s`.
abbrev pub IsShape : RbTree → (parent p : Ptr) → Shape → Type 0
IsShape t parent p leaf = p ≡ null
IsShape t parent p (fork l a x c r) =
    (p ≡ a)
    × (a ≢ null)
    × ((t.node a).parent ≡ parent)
    × ((t.node a).value ≡ x)
    × ((t.node a).is_red ≡ c)
    × IsShape t a (t.node a).left_child l
    × IsShape t a (t.node a).right_child r

-- `q` is none of the nodes.
abbrev pub Outside : Shape → Ptr → Type 0
Outside leaf q = Unit
Outside (fork l a x c r) q = (q ≢ a) × Outside l q × Outside r q

-- No node stands twice.
abbrev pub IsSeparate : Shape → Type 0
IsSeparate leaf = Unit
IsSeparate (fork l a x c r) =
    Outside l a
    × Outside r a
    × ((q : Ptr) → Outside l q ⊎ Outside r q)
    × IsSeparate l
    × IsSeparate r

abbrev pub Above : ℕ → Shape → Type 0
Above v leaf = Unit
Above v (fork l a x c r) = (v < x) × Above v l × Above v r

abbrev pub Below : ℕ → Shape → Type 0
Below v leaf = Unit
Below v (fork l a x c r) = (x < v) × Below v l × Below v r

-- A search tree.
abbrev pub IsOrdered : Shape → Type 0
IsOrdered leaf = Unit
IsOrdered (fork l a x c r) = Below x l × Above x r × IsOrdered l × IsOrdered r

abbrev pub in_order : Shape → List (Ptr × ℕ)
in_order leaf = []
in_order (fork l a x c r) = in_order l ++ (a, x) ∷ in_order r

abbrev pub height : Shape → ℕ
height leaf = 0
height (fork l a x c r) = height l + height r + 1

-- A node with what stands below it.
pub IsShape-fork :
    (t : RbTree) (parent p : Ptr) (l : Shape) (a x : ℕ) (c : Bool) (r : Shape) (n : RbNode)
    → t.node a ≡ n
    → p ≡ a
    → a ≢ null
    → n.parent ≡ parent
    → n.value ≡ x
    → n.is_red ≡ c
    → IsShape t a n.left_child l
    → IsShape t a n.right_child r
    → IsShape t parent p (fork l a x c r)
IsShape-fork t parent p l a x c r n e at not_null up value red left right = (
  at,
  not_null,
  ap (λ n. n.parent) e ∙ up,
  ap (λ n. n.value) e ∙ value,
  ap (λ n. n.is_red) e ∙ red,
  subst (λ n. IsShape t a n.left_child l) (sym e) left,
  subst (λ n. IsShape t a n.right_child r) (sym e) right,
)

-- A shape is as it was where its nodes are.
pub IsShape-frame :
    (t t' : RbTree) (parent p : Ptr) (s : Shape)
    → ((q : Ptr) → Outside s q ⊎ (t'.node q ≡ t.node q))
    → IsShape t parent p s
    → IsShape t' parent p s
IsShape-frame t t' parent p leaf same h = h
IsShape-frame t t' parent p (fork l a x c r) same h =
    let here : t'.node a ≡ t.node a = elim (same a) [ inl out ↦ absurd (out.0 refl) | inr e ↦ e ] in
    let left =
      IsShape-frame t t' a (t.node a).left_child l
        (λ q. elim (same q) [ inl out ↦ inl out.1 | inr e ↦ inr e ]) h.5 in
    let right =
      IsShape-frame t t' a (t.node a).right_child r
        (λ q. elim (same q) [ inl out ↦ inl out.2 | inr e ↦ inr e ]) h.6 in
    IsShape-fork t' parent p l a x c r (t.node a) here h.0 h.1 h.2 h.3 h.4 left right
