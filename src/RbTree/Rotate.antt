-- ===== src/RbTree/Rotate.antt =====
-- `rbLeftRotate` turns a node and its right child.
pub mod Left
use mathlib.Core.Path.{subst}
use mirai_os.Prelude.{
  ℕ, zero, suc, ◌+◌, ◌<◌, ◌≤◌, ◌==◌, ltb, ◌≡◌, ◌≢◌, refl, Bool, true, false, not, if◌then◌else◌,
  Option, none, some, List, [], ◌∷◌, ◌++◌, arith, ap, sym, ◌∙◌, ◌⊎◌, inl, inr, Bool-cases,
}
use mirai_os.RbTree.{
  Ptr, null, is_null, RbNode, RbTree, set_node, set_left, set_right, set_parent, set_root, value_lt,
  replace_child, rb_left_rotate,
}
use mirai_os.RbTree.Shape.{
  Shape, leaf, fork, IsShape, IsShape-fork, IsShape-frame, Outside, IsSeparate, in_order,
}

-- The tree `b` gets another parent.
IsShape-moved :
    (t t' : RbTree) (old new p : Ptr) (b : Shape)
    → IsShape t old p b
    → IsSeparate b
    → (p ≢ null → t'.node p ≡ record (t.node p) { parent = new })
    → ((q : Ptr) → q ≢ p → Outside b q ⊎ (t'.node q ≡ t.node q))
    → IsShape t' new p b
IsShape-moved t t' old new p leaf h sep at same = h
IsShape-moved t t' old new p (fork l a x c r) h sep at same =
    let node_at : t'.node a ≡ record (t.node a) { parent = new } =
      subst (λ q. t'.node q ≡ record (t.node q) { parent = new }) h.0
        (at (λ e. h.1 (sym h.0 ∙ e))) in
    IsShape-fork t' new p l a x c r (record (t.node a) { parent = new }) node_at h.0 h.1 refl h.3
      h.4
      (IsShape-frame t t' a (t.node a).left_child l
        (λ q. elim (Bool-cases (q == a)) [
          | inl e ↦ inl (subst (Outside l) (ground arith) sep.0)
          | inr e ↦ elim (same q (let at = h.0 in ground arith)) [
            | inl out ↦ inl out.1
            | inr e ↦ inr e
          ]
        ])
        h.5)
      (IsShape-frame t t' a (t.node a).right_child r
        (λ q. elim (Bool-cases (q == a)) [
          | inl e ↦ inl (subst (Outside r) (ground arith) sep.1)
          | inr e ↦ elim (same q (let at = h.0 in ground arith)) [
            | inl out ↦ inl out.2
            | inr e ↦ inr e
          ]
        ])
        h.6)

-- The nodes after the links between `x`, `y` and the tree between them are turned.
pub record Turned (t : RbTree) (x y inner : Ptr) (t' : RbTree) : Type 0 where
  pub at_x : t'.node x ≡ record (t.node x) { right_child = inner; parent = y }
  pub at_y : t'.node y ≡ record (t.node y) { left_child = x; parent = (t.node x).parent }
  pub at_inner : inner ≢ null → t'.node inner ≡ record (t.node inner) { parent = x }
  pub others : (q : Ptr) → q ≢ x → q ≢ y → (inner ≢ null → q ≢ inner) → t'.node q ≡ t.node q
  pub root : t'.root ≡ t.root

-- `rbLeftRotate` before it writes the link from the parent.
abbrev pub turn_left : (x y inner : Ptr) → RbTree → RbTree
turn_left x y inner t =
    let t1 = set_right x inner t in
    let t2 = if is_null inner then t1 else set_parent inner x t1 in
    let t3 = set_left y x t2 in let t4 = set_parent y (t3.node x).parent t3 in set_parent x y t4

pub rotate_parts :
    (x : Ptr) (t : RbTree)
    → let y = (t.node x).right_child in
      rb_left_rotate x t
      ≡ replace_child (t.node x).parent x y (turn_left x y (t.node y).left_child t)
unfolding rb_left_rotate
rotate_parts x t = refl

pub turn_left-Turned :
    (x y inner : Ptr) (t : RbTree)
    → x ≢ y
    → (inner ≢ null → (inner ≢ x) × (inner ≢ y))
    → Turned t x y inner (turn_left x y inner t)
turn_left-Turned x y inner t apart free =
    let x_x : (x == x) ≡ true = ground arith in
    let y_y : (y == y) ≡ true = ground arith in
    let x_y : (x == y) ≡ false = ground (arith, apart) in
    let y_x : (y == x) ≡ false = ground (arith, apart) in
    elim (Bool-cases (inner == null)) [
      | inl e ↦ record {
        at_x = rw (e, x_x, x_y) refl;
        at_y = rw (e, y_x, y_y, x_y, x_x) refl;
        at_inner = λ some_inner. absurd (some_inner (ground arith));
        others = λ q not_x not_y not_inner.
            let q_x : (q == x) ≡ false = ground (arith, not_x) in
            let q_y : (q == y) ≡ false = ground (arith, not_y) in rw (e, q_x, q_y) refl;
        root = rw e refl;
      }
      | inr e ↦
          let not_null : inner ≢ null = ground arith in
          let fresh = free not_null in
          let x_i : (x == inner) ≡ false = ground (arith, fresh.0) in
          let y_i : (y == inner) ≡ false = ground (arith, fresh.1) in
          let i_x : (inner == x) ≡ false = ground (arith, fresh.0) in
          let i_y : (inner == y) ≡ false = ground (arith, fresh.1) in
          let i_i : (inner == inner) ≡ true = ground arith in
          record {
            at_x = rw (e, x_x, x_y, x_i) refl;
            at_y = rw (e, y_x, y_y, y_i, x_y, x_x, x_i) refl;
            at_inner = λ some_inner. rw (e, i_x, i_y, i_i) refl;
            others = λ q not_x not_y not_inner.
                let q_x : (q == x) ≡ false = ground (arith, not_x) in
                let q_y : (q == y) ≡ false = ground (arith, not_y) in
                let q_i : (q == inner) ≡ false =
                  let other = not_inner not_null in ground (arith, other) in
                rw (e, q_x, q_y, q_i) refl;
            root = rw e refl;
          }
    ]

-- The root of a tree stands in it.
pub root_apart :
    (t : RbTree) (parent p q : Ptr) (s : Shape)
    → IsShape t parent p s
    → Outside s q
    → p ≢ null
    → p ≢ q
root_apart t parent p q leaf h out some_p = absurd (some_p h)
root_apart t parent p q (fork l a x c r) h out some_p = λ e. out.0 (sym e ∙ h.0)

Turned-frame :
    (t t' : RbTree) (x y inner parent p : Ptr) (s : Shape)
    → Turned t x y inner t'
    → Outside s x
    → Outside s y
    → (inner ≢ null → Outside s inner)
    → IsShape t parent p s
    → IsShape t' parent p s
Turned-frame t t' x y inner parent p s k out_x out_y out_inner = IsShape-frame t t' parent p s (λ q.
    elim (Bool-cases (q == x)) [
      | inl e ↦ inl (subst (Outside s) (ground arith) out_x)
      | inr not_x ↦ elim (Bool-cases (q == y)) [
        | inl e ↦ inl (subst (Outside s) (ground arith) out_y)
        | inr not_y ↦ elim (Bool-cases (inner == null)) [
          | inl e ↦ inr (
              k.others q (ground arith) (ground arith)
                (λ some_inner. absurd (some_inner (ground arith))))
          | inr e ↦ elim (Bool-cases (q == inner)) [
            | inl at ↦ inl (subst (Outside s) (ground arith) (out_inner (ground arith)))
            | inr other ↦
                inr (k.others q (ground arith) (ground arith) (λ some_inner. ground arith))
          ]
        ]
      ]
    ])

-- `replace_child` changes the parent alone.
pub replace-frame :
    (t : RbTree) (parent old new up p : Ptr) (s : Shape)
    → Outside s parent
    → IsShape t up p s
    → IsShape (replace_child parent old new t) up p s
replace-frame t parent old new up p s out h = elim (Bool-cases (parent == null)) [
  | inl e ↦ rw e (IsShape-frame t (set_root new t) up p s (λ q. inr refl) h)
  | inr e ↦ elim (Bool-cases (value_lt old parent t)) [
    | inl less ↦
        rw (e, less)
          (IsShape-frame t (set_left parent new t) up p s
            (λ q. elim (Bool-cases (q == parent)) [
              | inl at ↦ inl (subst (Outside s) (ground arith) out)
              | inr other ↦ inr (rw other refl)
            ])
            h)
    | inr more ↦
        rw (e, more)
          (IsShape-frame t (set_right parent new t) up p s
            (λ q. elim (Bool-cases (q == parent)) [
              | inl at ↦ inl (subst (Outside s) (ground arith) out)
              | inr other ↦ inr (rw other refl)
            ])
            h)
  ]
]

module _ (t t' : RbTree) (parent x vx : ℕ) (cx : Bool) (y vy : ℕ) (cy : Bool) (a b c : Shape)
    (h : IsShape t parent x (fork a x vx cx (fork b y vy cy c)))
    (sep : IsSeparate (fork a x vx cx (fork b y vy cy c)))
    (k : Turned t x y (t.node y).left_child t') where
  pub Turned-shape : IsShape t' parent y (fork (fork a x vx cx b) y vy cy c)
  Turned-shape =
      let inner = (t.node y).left_child in
      let right = h.6 in
      let in_b = right.5 in
      let out_a_y : Outside a y = elim (sep.2 y) [
        | inl out ↦ out
        | inr out ↦ absurd (out.0 refl)
      ] in
      let out_a : inner ≢ null → Outside a inner = λ some_inner. elim (sep.2 inner) [
        | inl out ↦ out
        | inr out ↦ absurd (root_apart t y inner inner b in_b out.1 some_inner refl)
      ] in
      let out_c : inner ≢ null → Outside c inner = λ some_inner. elim (sep.4.2 inner) [
        | inl out ↦ absurd (root_apart t y inner inner b in_b out some_inner refl)
        | inr out ↦ out
      ] in
      let new_b = IsShape-moved t t' y x inner b in_b sep.4.3 k.at_inner (λ q not_inner.
        elim (Bool-cases (q == x)) [
          | inl e ↦ inl (subst (Outside b) (ground arith) sep.1.1)
          | inr not_x ↦ elim (Bool-cases (q == y)) [
            | inl e ↦ inl (subst (Outside b) (ground arith) sep.4.0)
            | inr not_y ↦ inr (k.others q (ground arith) (ground arith) (λ some_inner. not_inner))
          ]
        ]) in
      let new_a = Turned-frame t t' x y inner x (t.node x).left_child a k sep.0 out_a_y out_a h.5 in
      let new_c =
        Turned-frame t t' x y inner y (t.node y).right_child c k sep.1.2 sep.4.1 out_c right.6 in
      let new_x =
        IsShape-fork t' y x a x vx cx b (record (t.node x) { right_child = inner; parent = y })
          k.at_x refl h.1 refl h.3 h.4 new_a new_b in
      IsShape-fork t' parent y (fork a x vx cx b) y vy cy c
        (record (t.node y) { left_child = x; parent = (t.node x).parent }) k.at_y refl right.1 h.2
        right.3 right.4 new_x new_c
