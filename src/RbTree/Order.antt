-- ===== src/RbTree/Order.antt =====
-- What `bstInsert` does to the values: `rbSearch` finds the new one, and the others as before.
use mathlib.Core.Path.{subst}
use mirai_os.Prelude.{
  ℕ, ◌+◌, ◌<◌, ◌==◌, ltb, ◌≡◌, ◌≢◌, refl, Bool, if◌then◌else◌, some, arith, ap, sym, ◌∙◌, inl, inr,
  Bool-cases,
}
use mirai_os.RbTree.{Ptr, RbTree, bst_insert, rb_search}
use mirai_os.RbTree.Shape.{
  Shape, leaf, fork, IsShape, IsSeparate, Above, Below, IsOrdered, in_order, height,
}
use mirai_os.RbTree.Search.{lookup, lookup-fork, rb_search-lookup}
use mirai_os.RbTree.Insert.{
  insert_shape, insert_leaf, insert_left, insert_right, IsNew, bst_insert-Inserted,
}

-- The value is not in the tree.
abbrev pub HasNot : ℕ → Shape → Type 0
HasNot v leaf = Unit
HasNot v (fork l a x c r) = (v ≢ x) × HasNot v l × HasNot v r

insert-Above : (y new v : ℕ) (s : Shape) → y < v → Above y s → Above y (insert_shape new v s)
insert-Above y new v leaf lt h = subst (Above y) (sym (insert_leaf new v)) (lt, tt, tt)
insert-Above y new v (fork l a x c r) lt h = elim (Bool-cases (ltb v x)) [
  | inl less ↦
      subst (Above y) (sym (insert_left new v a x l r c less))
        (h.0, insert-Above y new v l lt h.1, h.2)
  | inr more ↦
      subst (Above y) (sym (insert_right new v a x l r c more))
        (h.0, h.1, insert-Above y new v r lt h.2)
]

insert-Below : (y new v : ℕ) (s : Shape) → v < y → Below y s → Below y (insert_shape new v s)
insert-Below y new v leaf lt h = subst (Below y) (sym (insert_leaf new v)) (lt, tt, tt)
insert-Below y new v (fork l a x c r) lt h = elim (Bool-cases (ltb v x)) [
  | inl less ↦
      subst (Below y) (sym (insert_left new v a x l r c less))
        (h.0, insert-Below y new v l lt h.1, h.2)
  | inr more ↦
      subst (Below y) (sym (insert_right new v a x l r c more))
        (h.0, h.1, insert-Below y new v r lt h.2)
]

pub insert-IsOrdered :
    (new v : ℕ) (s : Shape) → HasNot v s → IsOrdered s → IsOrdered (insert_shape new v s)
insert-IsOrdered new v leaf hasnt h = subst IsOrdered (sym (insert_leaf new v)) (tt, tt, tt, tt)
insert-IsOrdered new v (fork l a x c r) hasnt h = elim (Bool-cases (ltb v x)) [
  | inl less ↦
      subst IsOrdered (sym (insert_left new v a x l r c less))
        (insert-Below x new v l (ground arith) h.0, h.1, insert-IsOrdered new v l hasnt.1 h.2, h.3)
  | inr more ↦
      let lt : x < v = ground (arith, hasnt.0) in
      subst IsOrdered (sym (insert_right new v a x l r c more))
        (h.0, insert-Above x new v r lt h.1, h.2, insert-IsOrdered new v r hasnt.2 h.3)
]

height-insert : (new v : ℕ) (s : Shape) → height (insert_shape new v s) ≡ height s + 1
height-insert new v leaf = ap height (insert_leaf new v) ∙ refl
height-insert new v (fork l a x c r) = elim (Bool-cases (ltb v x)) [
  | inl less ↦ ap height (insert_left new v a x l r c less) ∙ omega (arith, height-insert new v l)
  | inr more ↦ ap height (insert_right new v a x l r c more) ∙ omega (arith, height-insert new v r)
]

-- Lookup after an insertion.
pub lookup-insert :
    (w new v : ℕ) (s : Shape)
    → HasNot v s
    → IsOrdered s
    → lookup w (in_order (insert_shape new v s)) ≡ (if w == v then new else lookup w (in_order s))
lookup-insert w new v leaf hasnt h = ap (λ s. lookup w (in_order s)) (insert_leaf new v)
lookup-insert w new v (fork l a x c r) hasnt h =
    let before = lookup-fork w l a x c r h in
    elim (Bool-cases (ltb v x)) [
      | inl less ↦
          let e = insert_left new v a x l r c less in
          let now =
            lookup-fork w (insert_shape new v l) a x c r
              (subst IsOrdered e (insert-IsOrdered new v (fork l a x c r) hasnt h)) in
          ap (λ s. lookup w (in_order s)) e
          ∙ now
          ∙ rw (lookup-insert w new v l hasnt.1 h.2, before) (ground arith)
      | inr more ↦
          let e = insert_right new v a x l r c more in
          let now =
            lookup-fork w l a x c (insert_shape new v r)
              (subst IsOrdered e (insert-IsOrdered new v (fork l a x c r) hasnt h)) in
          let lt : x < v = ground (arith, hasnt.0) in
          ap (λ s. lookup w (in_order s)) e
          ∙ now
          ∙ rw (lookup-insert w new v r hasnt.2 h.3, before) (ground arith)
    ]

-- After `bstInsert` of a new node below the root of a search tree that has not its value, `rbSearch`
-- with enough fuel finds the new node under its value, and under each other value the node, or
-- NULL, that the list of the nodes in order had before.
pub rb_search-bst_insert :
    (fuel : ℕ) (t : RbTree) (parent p new : Ptr) (v w : ℕ) (l : Shape) (a x : ℕ) (c : Bool)
    (r : Shape)
    → let s = fork l a x c r in
      height s + 1 < fuel
      → IsShape t parent p s
      → IsSeparate s
      → IsOrdered s
      → IsNew t new v s
      → HasNot v s
      → (t' : RbTree) × (bst_insert fuel p new t ≡ some t')
        × (rb_search fuel p w t' ≡ some (if w == v then new else lookup w (in_order s)))
rb_search-bst_insert fuel t parent p new v w l a x c r lt h sep o n hasnt =
    let s = fork l a x c r in
    let k = bst_insert-Inserted fuel t parent p new v l a x c r (omega arith) h sep n in
    (
      k.0,
      k.1,
      rb_search-lookup fuel parent p w k.0 (insert_shape new v s)
            (omega (arith, height-insert new v s)) k.2.shape (insert-IsOrdered new v s hasnt o)
          ∙ ap some (lookup-insert w new v s hasnt o),
    )
