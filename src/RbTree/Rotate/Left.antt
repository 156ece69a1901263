-- ===== src/RbTree/Rotate/Left.antt =====
-- What `rbLeftRotate` makes of a tree whose root has a right child.
use mathlib.Core.Path.{subst}
use mirai_os.Prelude.{
  ℕ, ◌<◌, ◌≤◌, ◌==◌, ltb, ◌≡◌, ◌≢◌, refl, Bool, true, false, ◌∷◌, append_assoc, arith, ap, sym, ◌∙◌,
  inl, inr, Bool-cases,
}
use mirai_os.RbTree.{Ptr, null, RbNode, RbTree, value_lt, replace_child, rb_left_rotate}
use mirai_os.RbTree.Shape.{Shape, fork, IsShape, Outside, IsSeparate, in_order}
use mirai_os.RbTree.Rotate.{
  Turned, Turned-shape, turn_left, rotate_parts, turn_left-Turned, replace-frame, root_apart,
}

-- The link to the tree `s`, whose root had the value `v`, leads to `new`; all else is as it was.
pub record Relinked (t : RbTree) (parent : Ptr) (v : ℕ) (new : Ptr) (s : Shape) (t' : RbTree)
    : Type 0 where
  pub top : parent ≡ null → t'.root ≡ new
  pub below : parent ≢ null → t'.root ≡ t.root
  pub left :
      parent ≢ null
      → v < (t.node parent).value
      → t'.node parent ≡ record (t.node parent) { left_child = new }
  pub right :
      parent ≢ null
      → (t.node parent).value ≤ v
      → t'.node parent ≡ record (t.node parent) { right_child = new }
  pub outside : (q : Ptr) → Outside s q → q ≢ parent → t'.node q ≡ t.node q

replace-Relinked :
    (t t1 : RbTree) (parent old v new : Ptr) (s : Shape)
    → ((q : Ptr) → Outside s q → t1.node q ≡ t.node q)
    → t1.root ≡ t.root
    → (t1.node old).value ≡ v
    → Outside s parent
    → Relinked t parent v new s (replace_child parent old new t1)
replace-Relinked t t1 parent old v new s same root value out =
    let here = same parent out in
    let at : (parent == parent) ≡ true = ground arith in
    record {
      top = λ e. let test : (parent == null) ≡ true = ground arith in rw test refl;
      below = λ some_parent.
          let test : (parent == null) ≡ false = ground arith in
          elim (Bool-cases (value_lt old parent t1)) [
            | inl e ↦ rw (test, e) root
            | inr e ↦ rw (test, e) root
          ];
      left = λ some_parent lt.
          let test : (parent == null) ≡ false = ground arith in
          let less : ltb (t1.node old).value (t1.node parent).value ≡ true =
            rw (value, here) (ground arith) in
          rw (test, less, at)
            (ap {A = RbNode} {B = RbNode} (λ n. record n { left_child = new }) here);
      right = λ some_parent le.
          let test : (parent == null) ≡ false = ground arith in
          let more : ltb (t1.node old).value (t1.node parent).value ≡ false =
            rw (value, here) (ground arith) in
          rw (test, more, at)
            (ap {A = RbNode} {B = RbNode} (λ n. record n { right_child = new }) here);
      outside = λ q out_q not_parent.
          let other : (q == parent) ≡ false = ground arith in
          elim (Bool-cases (parent == null)) [
            | inl test ↦ rw test (same q out_q)
            | inr test ↦ elim (Bool-cases (value_lt old parent t1)) [
              | inl e ↦ rw (test, e, other) (same q out_q)
              | inr e ↦ rw (test, e, other) (same q out_q)
            ]
          ];
    }

-- `rbLeftRotate` of the root `x` of a tree with the right child `y`, below `parent` or NULL: `y` is
-- the root, `x` its left child with the tree that was between them, all colours and values and the
-- order of the nodes are as they were, and the link from the parent, or the root, leads to `y`;
-- nothing else has changed.
pub rb_left_rotate-shape :
    (t : RbTree) (parent x vx : ℕ) (cx : Bool) (y vy : ℕ) (cy : Bool) (a b c : Shape)
    → let old = fork a x vx cx (fork b y vy cy c) in
      let new = fork (fork a x vx cx b) y vy cy c in
      IsShape t parent x old
      → IsSeparate old
      → Outside old parent
      → IsShape (rb_left_rotate x t) parent y new
        × (in_order new ≡ in_order old)
        × Relinked t parent vx y old (rb_left_rotate x t)
rb_left_rotate-shape t parent x vx cx y vy cy a b c h sep out =
    let old = fork a x vx cx (fork b y vy cy c) in
    let new = fork (fork a x vx cx b) y vy cy c in
    let inner = (t.node y).left_child in
    let in_b = h.6.5 in
    let t1 = turn_left x y inner t in
    let e : rb_left_rotate x t ≡ replace_child parent x y t1 =
      rotate_parts x t
      ∙ ap (λ q. replace_child (t.node x).parent x q (turn_left x q (t.node q).left_child t)) h.6.0
      ∙ ap (λ u. replace_child u x y t1) h.2 in
    let k : Turned t x y inner t1 = turn_left-Turned x y inner t sep.1.0 (λ some_inner. (
      root_apart t y inner x b in_b sep.1.1 some_inner,
      root_apart t y inner y b in_b sep.4.0 some_inner,
    )) in
    let same : (q : Ptr) → Outside old q → t1.node q ≡ t.node q = λ q out_q.
      k.others q out_q.0 out_q.2.0
        (λ some_inner at. root_apart t y inner q b in_b out_q.2.1 some_inner (sym at)) in
    (
      subst (λ t'. IsShape t' parent y new) (sym e)
          (replace-frame t1 parent x y parent y new (out.2.0, (out.0, out.1, out.2.1), out.2.2)
            (Turned-shape t t1 parent x vx cx y vy cy a b c h sep k)),
      append_assoc (in_order a) ((x, vx) ∷ in_order b) ((y, vy) ∷ in_order c),
      subst (Relinked t parent vx y old) (sym e) (
          replace-Relinked t t1 parent x vx y old same k.root (ap (λ n. n.value) k.at_x ∙ h.3) out),
    )
