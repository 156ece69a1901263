-- ===== src/RbTree/Delete/Ends.antt =====
-- `rbDelete` of a value that is not in the tree, and of the last node.
use mirai_os.Prelude.{
  ℕ, suc, ◌<◌, ◌==◌, ◌≡◌, refl, true, false, if◌then◌else◌, some, arith, ap, ◌∙◌,
}
use mirai_os.RbTree.{Ptr, null, set_root, RbTree, rb_search}
use mirai_os.RbTree.Shape.{Shape, leaf, fork, IsShape, IsOrdered, in_order, height}
use mirai_os.RbTree.Search.{lookup, rb_search-lookup}
use mirai_os.RbTree.Delete.{
  done, fault, bst_delete, delete_node, unlink_leaf, rebalance, delete_loop, new_root, end_delete,
  rb_delete,
}

-- On a search tree that has no node with the value, and with more fuel than nodes, `rbDelete`
-- returns NULL and changes nothing.
pub rb_delete-absent :
    (fuel v : ℕ) (t : RbTree) (s : Shape)
    → height s < fuel
    → IsShape t null t.root s
    → IsOrdered s
    → lookup v (in_order s) ≡ null
    → rb_delete fuel v t ≡ done (null, t)
unfolding rb_delete bst_delete
rb_delete-absent fuel v t s lt h o absent =
    let found : rb_search fuel t.root v t ≡ some null =
      rb_search-lookup fuel null t.root v t s lt h o ∙ ap some absent in
    let nothing : bst_delete fuel v t
        ≡ some (record { del = null; successor = null; child = null; tree = t }) =
      rw (found, bst_delete) refl in
    rw (nothing, rb_delete) refl

-- `bstDelete` of the last node,
bst_delete-last :
    (fuel v : ℕ) (t : RbTree)
    → IsShape t null t.root (fork leaf t.root v false leaf)
    → bst_delete (suc (suc fuel)) v t
      ≡ some (record { del = t.root; successor = null; child = null; tree = set_root null t })
unfolding bst_delete delete_node unlink_leaf
bst_delete-last fuel v t h =
    let shape = fork leaf t.root v false leaf in
    let at : (v == v) ≡ true = ground arith in
    let found : rb_search (suc (suc fuel)) t.root v t ≡ some t.root =
      rb_search-lookup (suc (suc fuel)) null t.root v t shape (omega arith) h (tt, tt, tt, tt)
      ∙ ap (λ b. some (if b then t.root else null)) at in
    let some_root : (t.root == null) ≡ false = ground (arith, h.1) in
    let left : ((t.node t.root).left_child == null) ≡ true = ground (arith, h.5) in
    let right : ((t.node t.root).right_child == null) ≡ true = ground (arith, h.6) in
    let up : ((t.node t.root).parent == null) ≡ true = ground (arith, h.2) in
    rw (found, bst_delete, some_root, left, right, up) refl

-- and the loop of `rbDelete` behind it.
rebalance-last :
    (fuel : ℕ) (p : Ptr) (t : RbTree)
    → (t.node p).is_red ≡ false
    → (t.node p).parent ≡ null
    → rebalance (suc fuel) p null t ≡ fault
unfolding rebalance delete_loop new_root
rebalance-last fuel p t black up =
    let top : ((t.node p).parent == null) ≡ true = ground (arith, up) in rw (black, top) refl

-- Where the root is a node with no children, and is black as `rbInsert` leaves it, `rbDelete` of its
-- value, with fuel of at least 2, reads or writes a field of NULL.
pub rb_delete-last :
    (fuel v : ℕ) (t : RbTree)
    → IsShape t null t.root (fork leaf t.root v false leaf)
    → rb_delete (suc (suc fuel)) v t ≡ fault
unfolding rb_delete end_delete
rb_delete-last fuel v t h =
    let some_root : (t.root == null) ≡ false = ground (arith, h.1) in
    rw
      (
        bst_delete-last fuel v t h,
        rb_delete,
        some_root,
        rebalance-last (suc fuel) t.root (set_root null t) h.4 h.2,
      )
      refl
