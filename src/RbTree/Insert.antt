-- ===== src/RbTree/Insert.antt =====
-- `bstInsert` puts the new node at its place in the order.
use mathlib.Core.Path.{subst}
use mirai_os.Prelude.{
  ℕ, zero, suc, ◌≤◌, ◌==◌, ltb, ◌≡◌, ◌≢◌, refl, Bool, true, false, if◌then◌else◌, some, arith, sym,
  inl, inr, Bool-cases,
}
use mirai_os.RbTree.{
  Ptr, null, RbNode, RbTree, set_node, set_left, set_right, set_parent, bst_insert,
}
use mirai_os.RbTree.Shape.{
  Shape, leaf, fork, IsShape, IsShape-fork, IsShape-frame, Outside, IsSeparate, height,
}

pub insert_shape : Ptr → ℕ → Shape → Shape
insert_shape new v leaf = fork leaf new v true leaf
insert_shape new v (fork l a x c r) =
    if ltb v x then fork (insert_shape new v l) a x c r else fork l a x c (insert_shape new v r)

-- A red node without children that stands nowhere in the tree yet.
abbrev pub IsNew : RbTree → Ptr → ℕ → Shape → Type 0
IsNew t new v s =
    (new ≢ null)
    × Outside s new
    × ((t.node new).value ≡ v)
    × ((t.node new).is_red ≡ true)
    × ((t.node new).left_child ≡ null)
    × ((t.node new).right_child ≡ null)

-- The tree has the shape with the new node, and the nodes outside have not changed.
pub record Inserted (t : RbTree) (parent p new : Ptr) (v : ℕ) (s : Shape) (t' : RbTree)
    : Type 0 where
  pub shape : IsShape t' parent p (insert_shape new v s)
  pub outside : (q : Ptr) → Outside s q → q ≢ new → t'.node q ≡ t.node q
  pub root : t'.root ≡ t.root

pub insert_leaf : (new v : ℕ) → insert_shape new v leaf ≡ fork leaf new v true leaf
unfolding insert_shape
insert_leaf new v = refl

pub insert_left :
    (new v a x : ℕ) (l r : Shape) (c : Bool)
    → ltb v x ≡ true
    → insert_shape new v (fork l a x c r) ≡ fork (insert_shape new v l) a x c r
unfolding insert_shape
insert_left new v a x l r c e = rw e refl

pub insert_right :
    (new v a x : ℕ) (l r : Shape) (c : Bool)
    → ltb v x ≡ false
    → insert_shape new v (fork l a x c r) ≡ fork l a x c (insert_shape new v r)
unfolding insert_shape
insert_right new v a x l r c e = rw e refl

-- `new` is the child of `a` in `t'`, whose node is `m`.
record Linked (t : RbTree) (a new : Ptr) (m : RbNode) (t' : RbTree) : Type 0 where
  at : t'.node a ≡ m
  at_new : t'.node new ≡ record (t.node new) { parent = a }
  others : (q : Ptr) → q ≢ a → q ≢ new → t'.node q ≡ t.node q
  root : t'.root ≡ t.root

link-Linked :
    (t : RbTree) (a new : Ptr) (m : RbNode)
    → new ≢ a
    → Linked t a new m (set_parent new a (set_node a m t))
link-Linked t a new m apart =
    let other : (a == new) ≡ false = ground (arith, apart) in
    let other' : (new == a) ≡ false = ground (arith, apart) in
    let same : (new == new) ≡ true = ground arith in
    let here : (a == a) ≡ true = ground arith in
    record {
      at = rw (other, here) refl;
      at_new = rw (same, other') refl;
      others = λ q not_a not_new.
          let e : (q == a) ≡ false = ground (arith, not_a) in
          let e' : (q == new) ≡ false = ground (arith, not_new) in rw (e, e') refl;
      root = refl;
    }

-- A shape that holds neither node is as it was.
Linked-frame :
    (t t' : RbTree) (a new parent p : Ptr) (m : RbNode) (s : Shape)
    → Linked t a new m t'
    → Outside s a
    → Outside s new
    → IsShape t parent p s
    → IsShape t' parent p s
Linked-frame t t' a new parent p m s k out out_new = IsShape-frame t t' parent p s (λ q.
    elim (Bool-cases (q == a)) [
      | inl e ↦ inl (subst (Outside s) (ground arith) out)
      | inr e ↦ elim (Bool-cases (q == new)) [
        | inl e' ↦ inl (subst (Outside s) (ground arith) out_new)
        | inr e' ↦ inr (k.others q (ground arith) (ground arith))
      ]
    ])

Linked-new :
    (t t' : RbTree) (a new : Ptr) (v : ℕ) (m : RbNode) (s : Shape)
    → Linked t a new m t'
    → IsNew t new v s
    → IsShape t' a new (insert_shape new v leaf)
unfolding insert_shape
Linked-new t t' a new v m s k n =
    IsShape-fork t' a new leaf new v true leaf (record (t.node new) { parent = a }) k.at_new refl
      n.0 refl n.2 n.3 n.4 n.5

module _ (t t' : RbTree) (parent p new : Ptr) (v : ℕ) (a x : ℕ) (c : Bool) where
  link_left :
      (r : Shape)
      → IsShape t parent p (fork leaf a x c r)
      → IsSeparate (fork leaf a x c r)
      → IsNew t new v (fork leaf a x c r)
      → Linked t a new (record (t.node a) { left_child = new }) t'
      → ltb v x ≡ true
      → Inserted t parent p new v (fork leaf a x c r) t'
  link_left r h sep n k less =
      let m = record (t.node a) { left_child = new } in
      record {
        shape = subst (IsShape t' parent p) (sym (insert_left new v a x leaf r c less)) (
            IsShape-fork t' parent p (insert_shape new v leaf) a x c r m k.at h.0 h.1 h.2 h.3 h.4
              (Linked-new t t' a new v m (fork leaf a x c r) k n)
              (Linked-frame t t' a new a (t.node a).right_child m r k sep.1 n.1.2 h.6));
        outside = λ q out new_q. k.others q out.0 new_q;
        root = k.root;
      }

  link_right :
      (l : Shape)
      → IsShape t parent p (fork l a x c leaf)
      → IsSeparate (fork l a x c leaf)
      → IsNew t new v (fork l a x c leaf)
      → Linked t a new (record (t.node a) { right_child = new }) t'
      → ltb v x ≡ false
      → Inserted t parent p new v (fork l a x c leaf) t'
  link_right l h sep n k more =
      let m = record (t.node a) { right_child = new } in
      record {
        shape = subst (IsShape t' parent p) (sym (insert_right new v a x l leaf c more)) (
            IsShape-fork t' parent p l a x c (insert_shape new v leaf) m k.at h.0 h.1 h.2 h.3 h.4
              (Linked-frame t t' a new a (t.node a).left_child m l k sep.0 n.1.1 h.5)
              (Linked-new t t' a new v m (fork l a x c leaf) k n));
        outside = λ q out new_q. k.others q out.0 new_q;
        root = k.root;
      }

-- The insertion below a node.
module _ (t t' : RbTree) (parent p new : Ptr) (v : ℕ) (l : Shape) (a x : ℕ) (c : Bool) (r : Shape)
    (h : IsShape t parent p (fork l a x c r)) (sep : IsSeparate (fork l a x c r))
    (n : IsNew t new v (fork l a x c r)) where
  go_left :
      ltb v x ≡ true
      → Inserted t a (t.node a).left_child new v l t'
      → Inserted t parent p new v (fork l a x c r) t'
  go_left less k =
      let here : t'.node a ≡ t.node a = k.outside a sep.0 (λ e. n.1.0 (sym e)) in
      record {
        shape = subst (IsShape t' parent p) (sym (insert_left new v a x l r c less)) (
            IsShape-fork t' parent p (insert_shape new v l) a x c r (t.node a) here h.0 h.1 h.2 h.3
              h.4 k.shape
              (IsShape-frame t t' a (t.node a).right_child r
                (λ q. elim (sep.2 q) [
                  | inl out ↦ elim (Bool-cases (q == new)) [
                    | inl e ↦ inl (subst (Outside r) (ground arith) n.1.2)
                    | inr e ↦ inr (k.outside q out (ground arith))
                  ]
                  | inr out ↦ inl out
                ])
                h.6));
        outside = λ q out new_q. k.outside q out.1 new_q;
        root = k.root;
      }

  go_right :
      ltb v x ≡ false
      → Inserted t a (t.node a).right_child new v r t'
      → Inserted t parent p new v (fork l a x c r) t'
  go_right more k =
      let here : t'.node a ≡ t.node a = k.outside a sep.1 (λ e. n.1.0 (sym e)) in
      record {
        shape = subst (IsShape t' parent p) (sym (insert_right new v a x l r c more)) (
            IsShape-fork t' parent p l a x c (insert_shape new v r) (t.node a) here h.0 h.1 h.2 h.3
              h.4
              (IsShape-frame t t' a (t.node a).left_child l
                (λ q. elim (sep.2 q) [
                  | inr out ↦ elim (Bool-cases (q == new)) [
                    | inl e ↦ inl (subst (Outside l) (ground arith) n.1.1)
                    | inr e ↦ inr (k.outside q out (ground arith))
                  ]
                  | inl out ↦ inl out
                ])
                h.5)
              k.shape);
        outside = λ q out new_q. k.outside q out.2 new_q;
        root = k.root;
      }

abbrev Inserts : (fuel : ℕ) → RbTree → (parent p new : Ptr) → ℕ → Shape → Type 0
Inserts fuel t parent p new v s =
    (t' : RbTree) × (bst_insert fuel p new t ≡ some t') × Inserted t parent p new v s t'

-- `bstInsert` with this fuel is right on every tree that has a root.
abbrev InsertsBelow : (fuel : ℕ) → RbTree → (new : Ptr) → ℕ → Type 0
InsertsBelow fuel t new v =
    (parent p : Ptr) (l : Shape) (a x : ℕ) (c : Bool) (r : Shape)
    → height (fork l a x c r) ≤ fuel
    → IsShape t parent p (fork l a x c r)
    → IsSeparate (fork l a x c r)
    → IsNew t new v (fork l a x c r)
    → Inserts fuel t parent p new v (fork l a x c r)

left_case :
    (fuel : ℕ) (t : RbTree) (parent p new : Ptr) (v : ℕ) (l : Shape) (a x : ℕ) (c : Bool)
    (r : Shape)
    → InsertsBelow fuel t new v
    → height (fork l a x c r) ≤ suc fuel
    → IsShape t parent p (fork l a x c r)
    → IsSeparate (fork l a x c r)
    → IsNew t new v (fork l a x c r)
    → ltb v x ≡ true
    → Inserts (suc fuel) t parent p new v (fork l a x c r)
unfolding bst_insert
left_case fuel t parent p new v leaf a x c r below le h sep n less =
    let t' = set_parent new a (set_left a new t) in
    let nothing : ((t.node a).left_child == null) ≡ true = ground (arith, h.5) in
    (
      t',
      rw (h.0, n.2, h.3, less, nothing) refl,
      link_left t t' parent p new v a x c r h sep n
          (link-Linked t a new (record (t.node a) { left_child = new }) n.1.0) less,
    )
left_case fuel t parent p new v (fork l' a' x' c' r') a x c r below le h sep n less =
    let something : ((t.node a).left_child == null) ≡ false = ground (arith, h.5.0, h.5.1) in
    let k =
      below a (t.node a).left_child l' a' x' c' r' (omega arith) h.5 sep.3
        (n.0, n.1.1, n.2, n.3, n.4, n.5) in
    (
      k.0,
      rw (h.0, n.2, h.3, less, something) k.1,
      go_left t k.0 parent p new v (fork l' a' x' c' r') a x c r h sep n less k.2,
    )

right_case :
    (fuel : ℕ) (t : RbTree) (parent p new : Ptr) (v : ℕ) (l : Shape) (a x : ℕ) (c : Bool)
    (r : Shape)
    → InsertsBelow fuel t new v
    → height (fork l a x c r) ≤ suc fuel
    → IsShape t parent p (fork l a x c r)
    → IsSeparate (fork l a x c r)
    → IsNew t new v (fork l a x c r)
    → ltb v x ≡ false
    → Inserts (suc fuel) t parent p new v (fork l a x c r)
unfolding bst_insert
right_case fuel t parent p new v l a x c leaf below le h sep n more =
    let t' = set_parent new a (set_right a new t) in
    let nothing : ((t.node a).right_child == null) ≡ true = ground (arith, h.6) in
    (
      t',
      rw (h.0, n.2, h.3, more, nothing) refl,
      link_right t t' parent p new v a x c l h sep n
          (link-Linked t a new (record (t.node a) { right_child = new }) n.1.0) more,
    )
right_case fuel t parent p new v l a x c (fork l' a' x' c' r') below le h sep n more =
    let something : ((t.node a).right_child == null) ≡ false = ground (arith, h.6.0, h.6.1) in
    let k =
      below a (t.node a).right_child l' a' x' c' r' (omega arith) h.6 sep.4
        (n.0, n.1.2, n.2, n.3, n.4, n.5) in
    (
      k.0,
      rw (h.0, n.2, h.3, more, something) k.1,
      go_right t k.0 parent p new v l a x c (fork l' a' x' c' r') h sep n more k.2,
    )

inserts_below : (fuel : ℕ) (t : RbTree) (new : Ptr) (v : ℕ) → InsertsBelow fuel t new v
inserts_below zero t new v parent p l a x c r le h sep n = absurd (omega arith)
inserts_below (suc fuel) t new v parent p l a x c r le h sep n = elim (Bool-cases (ltb v x)) [
  | inl less ↦
      left_case fuel t parent p new v l a x c r (inserts_below fuel t new v) le h sep n less
  | inr more ↦
      right_case fuel t parent p new v l a x c r (inserts_below fuel t new v) le h sep n more
]

-- With at least as much fuel as there are nodes, `bstInsert` below the root of a tree that has one
-- ends with the shape in which the new node stands as a leaf at the place of its value, behind all
-- equal values, and leaves all nodes outside of the tree as they were.
pub bst_insert-Inserted :
    (fuel : ℕ) (t : RbTree) (parent p new : Ptr) (v : ℕ) (l : Shape) (a x : ℕ) (c : Bool)
    (r : Shape)
    → height (fork l a x c r) ≤ fuel
    → IsShape t parent p (fork l a x c r)
    → IsSeparate (fork l a x c r)
    → IsNew t new v (fork l a x c r)
    → (t' : RbTree) × (bst_insert fuel p new t ≡ some t')
      × Inserted t parent p new v (fork l a x c r) t'
bst_insert-Inserted fuel t parent p new v l a x c r = inserts_below fuel t new v parent p l a x c r
