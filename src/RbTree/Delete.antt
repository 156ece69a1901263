-- ===== src/RbTree/Delete.antt =====
-- `bstDelete` and `rbDelete`.
pub mod Ends
use mirai_os.Prelude.{
  ℕ, zero, suc, ◌==◌, ltb, leb, Bool, true, false, not, ◌&&◌, ◌||◌, if◌then◌else◌, Option, none,
  some,
}
use mirai_os.RbTree.{
  Ptr, null, RbNode, RbTree, is_null, set_parent, set_left, set_right, set_red, set_root,
  is_red_node, value_lt, replace_child, rb_left_rotate, rb_right_rotate, rb_search,
}

-- A result; or the code reads or writes a field of NULL; or the fuel is used up.
pub data Run {ℓ} (A : Type ℓ) : Type ℓ where
  done : A → Run A
  fault : Run A
  no_fuel : Run A

-- The outputs of `bstDelete`, and the tree.
pub record Deleted : Type 0 where
  pub del : Ptr
  pub successor : Ptr
  pub child : Ptr
  pub tree : RbTree

-- `while (s->leftChild) s = s->leftChild`
pub leftmost : (fuel : ℕ) → Ptr → RbTree → Option Ptr
leftmost zero s t = none
leftmost (suc fuel) s t =
    let rest = leftmost fuel (t.node s).left_child t in
    if is_null (t.node s).left_child then some s else rest

-- `bstDelete` of a node with two children, of which `s` is the successor,
unlink_successor : (del s : Ptr) → RbTree → Deleted
unlink_successor del s t = record {
  del = del;
  successor = s;
  child = (t.node s).right_child;
  tree =
      if value_lt s (t.node s).parent t
      then set_left (t.node s).parent null t
      else set_right (t.node s).parent null t;
}

-- of a node with the one child `child2`,
splice : (del child2 : Ptr) → RbTree → Deleted
splice del child2 t =
    let t1 = set_parent child2 (t.node del).parent t in
    record {
      del = del;
      successor = null;
      child = child2;
      tree = replace_child (t.node del).parent child2 child2 t1;
    }

-- and of a leaf.
unlink_leaf : (del : Ptr) → RbTree → Deleted
unlink_leaf del t = record {
  del = del;
  successor = null;
  child = null;
  tree = replace_child (t.node del).parent del null t;
}

delete_node : (fuel : ℕ) (del : Ptr) → RbTree → Option Deleted
delete_node fuel del t =
    let left = (t.node del).left_child in
    let right = (t.node del).right_child in
    if not (is_null left) && not (is_null right)
    then elim (leftmost fuel right t) [ none ↦ none | some s ↦ some (unlink_successor del s t) ]
    else if not (is_null left) || not (is_null right)
    then some (splice del (if is_null left then right else left) t)
    else some (unlink_leaf del t)

-- A node that is not found is a `del` of NULL.
pub bst_delete : (fuel value : ℕ) → RbTree → Option Deleted
bst_delete fuel value t = elim (rb_search fuel t.root value t) [
  | none ↦ none
  | some del ↦
      if is_null del
      then some (record { del = null; successor = null; child = null; tree = t })
      else delete_node fuel del t
]

-- The sibling in a round of the loop of `rbDelete`, and `childRight`.
choose_sibling : (child parent : Ptr) → RbTree → Ptr × Bool
choose_sibling child parent t =
    let left = (t.node parent).left_child in
    let right = (t.node parent).right_child in
    if is_null child
    then (if is_null left then (right, false) else (left, true))
    else if value_lt child parent t
    then (right, true)
    else (left, false)

-- The rotation where the sibling is red: the new sibling, and the tree.
red_sibling : (sibling parent : Ptr) (child_right : Bool) → RbTree → Ptr × RbTree
red_sibling sibling parent true t =
    let t1 = set_red sibling false (set_red parent true (rb_right_rotate parent t)) in
    ((t1.node parent).left_child, t1)
red_sibling sibling parent false t =
    let t1 = set_red sibling false (set_red parent true (rb_left_rotate parent t)) in
    ((t1.node parent).right_child, t1)

-- The rotations where a child of the sibling is red: the tree, where there are any.
red_nephew : (sibling parent : Ptr) (child_right : Bool) → RbTree → Option RbTree
red_nephew sibling parent true t =
    let outer = rb_right_rotate parent t in
    let inner = rb_left_rotate sibling t in
    if is_red_node (t.node sibling).left_child t
    then some (set_red (outer.node sibling).left_child false outer)
    else if is_red_node (t.node sibling).right_child t
    then some (rb_right_rotate parent (set_red (inner.node sibling).parent false inner))
    else none
red_nephew sibling parent false t =
    let outer = rb_left_rotate parent t in
    let inner = rb_right_rotate sibling t in
    if is_red_node (t.node sibling).right_child t
    then some (set_red (outer.node sibling).right_child false outer)
    else if is_red_node (t.node sibling).left_child t
    then some (rb_left_rotate parent (set_red (inner.node sibling).parent false inner))
    else none

-- `*root = child; child->parent = NULL`
new_root : Ptr → RbTree → Run RbTree
new_root child t = if is_null child then fault else done (set_parent child null (set_root child t))

-- The loop of `rbDelete`.
pub delete_loop : (fuel : ℕ) (child parent : Ptr) → RbTree → Run RbTree
delete_loop zero child parent t = no_fuel
delete_loop (suc fuel) child parent t =
    let first = choose_sibling child parent t in
    let second =
      if (t.node first.0).is_red then red_sibling first.0 parent first.1 t else (first.0, t) in
    let t2 = set_red second.0 true second.1 in
    let rest = delete_loop fuel parent (t2.node parent).parent t2 in
    let step : Run RbTree = elim (red_nephew second.0 parent first.1 second.1) [
      | none ↦ if (t2.node parent).is_red then done (set_red parent false t2) else rest
      | some t3 ↦ done t3
    ] in
    if is_null parent
    then new_root child t
    else if is_null first.0 || is_null second.0
    then fault
    else step

-- The last part of `rbDelete`: the successor takes the place of `del2`.
place_successor : (successor del2 : Ptr) → RbTree → RbTree
place_successor successor del2 t =
    let old = t.node del2 in
    let t1 = set_parent successor old.parent t in
    let t2 = set_left successor (t1.node del2).left_child t1 in
    let t3 = set_right successor (t2.node del2).right_child t2 in
    let t4 = set_red successor (t3.node del2).is_red t3 in
    if is_null successor then t else replace_child (t4.node del2).parent del2 successor t4

-- The middle part of `rbDelete`: `del` is the node that has left its place.
rebalance : (fuel : ℕ) (del child : Ptr) → RbTree → Run RbTree
rebalance fuel del child t =
    if (t.node del).is_red || is_red_node child t
    then done (if is_null child then t else set_red child false t)
    else delete_loop fuel child (t.node del).parent t

end_delete : (d : Deleted) → Run RbTree → Run (Ptr × RbTree)
end_delete d (done t) = done (d.del, place_successor d.successor d.del t)
end_delete d fault = fault
end_delete d no_fuel = no_fuel

-- The node that was removed, or NULL, and the tree.
pub rb_delete : (fuel value : ℕ) → RbTree → Run (Ptr × RbTree)
rb_delete fuel value t = elim (bst_delete fuel value t) [
  | none ↦ no_fuel
  | some d ↦
      if is_null d.del
      then done (null, t)
      else end_delete d
          (rebalance fuel (if is_null d.successor then d.del else d.successor) d.child d.tree)
]
