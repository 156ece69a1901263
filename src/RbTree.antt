-- ===== src/RbTree.antt =====
-- The red-black tree of kernel/lib/rbtree.c, on a store of nodes. A pointer is a number and NULL is
-- 0; the node at NULL has no meaning. Fuel bounds the loops.
pub mod Shape
pub mod Search
pub mod Insert
pub mod Order
pub mod Rotate
pub mod Delete
mod Tests
use mirai_os.Prelude.{
  ℕ, zero, suc, ◌==◌, ltb, leb, Bool, true, false, not, ◌&&◌, ◌||◌, if◌then◌else◌, Option, none,
  some,
}

abbrev pub Ptr : Type 0
Ptr = ℕ

abbrev pub null : Ptr
null = 0

pub record RbNode : Type 0 where
  pub parent : Ptr
  pub left_child : Ptr
  pub right_child : Ptr
  pub value : ℕ
  pub is_red : Bool

-- The variable of the root, and the nodes.
pub record RbTree : Type 0 where
  pub root : Ptr
  pub node : Ptr → RbNode

abbrev pub is_null : Ptr → Bool
is_null p = p == null

abbrev pub set_node : Ptr → RbNode → RbTree → RbTree
set_node p n t = record t { node = λ q. if q == p then n else t.node q }

abbrev pub set_parent : Ptr → Ptr → RbTree → RbTree
set_parent p v t = set_node p (record (t.node p) { parent = v }) t

abbrev pub set_left : Ptr → Ptr → RbTree → RbTree
set_left p v t = set_node p (record (t.node p) { left_child = v }) t

abbrev pub set_right : Ptr → Ptr → RbTree → RbTree
set_right p v t = set_node p (record (t.node p) { right_child = v }) t

abbrev pub set_red : Ptr → Bool → RbTree → RbTree
set_red p v t = set_node p (record (t.node p) { is_red = v }) t

abbrev pub set_root : Ptr → RbTree → RbTree
set_root p t = record t { root = p }

-- `p && p->isRed`
abbrev pub is_red_node : Ptr → RbTree → Bool
is_red_node p t = not (is_null p) && (t.node p).is_red

-- `p->value < q->value`
abbrev pub value_lt : Ptr → Ptr → RbTree → Bool
value_lt p q t = ltb (t.node p).value (t.node q).value

-- The link from `parent` to `old`, found by the value of `old`, or the root becomes `new`.
abbrev pub replace_child : (parent old new : Ptr) → RbTree → RbTree
replace_child parent old new t =
    if is_null parent
    then set_root new t
    else if value_lt old parent t
    then set_left parent new t
    else set_right parent new t

pub bst_insert : (fuel : ℕ) (root new_node : Ptr) → RbTree → Option RbTree
bst_insert zero root new_node t = none
bst_insert (suc fuel) root new_node t =
    let left = (t.node root).left_child in
    let right = (t.node root).right_child in
    let rest_left = bst_insert fuel left new_node t in
    let rest_right = bst_insert fuel right new_node t in
    if value_lt new_node root t
    then (if is_null left
        then some (set_parent new_node root (set_left root new_node t))
        else rest_left)
    else if is_null right
    then some (set_parent new_node root (set_right root new_node t))
    else rest_right

pub rb_left_rotate : (node : Ptr) → RbTree → RbTree
rb_left_rotate node t =
    let r_child = (t.node node).right_child in
    let parent = (t.node node).parent in
    let inner = (t.node r_child).left_child in
    let t1 = set_right node inner t in
    let t2 = if is_null inner then t1 else set_parent inner node t1 in
    let t3 = set_left r_child node t2 in
    let t4 = set_parent r_child (t3.node node).parent t3 in
    replace_child parent node r_child (set_parent node r_child t4)

pub rb_right_rotate : (node : Ptr) → RbTree → RbTree
rb_right_rotate node t =
    let l_child = (t.node node).left_child in
    let parent = (t.node node).parent in
    let inner = (t.node l_child).right_child in
    let t1 = set_left node inner t in
    let t2 = if is_null inner then t1 else set_parent inner node t1 in
    let t3 = set_right l_child node t2 in
    let t4 = set_parent l_child (t3.node node).parent t3 in
    replace_child parent node l_child (set_parent node l_child t4)

-- The body of the loop of `rbInsert` where the uncle is not red: up to two rotations,
rotate_up : (new_node parent grand_parent : Ptr) → RbTree → RbTree
rotate_up new_node parent grand_parent t =
    if value_lt parent grand_parent t
    then rb_right_rotate grand_parent
        (if value_lt new_node parent t then t else rb_left_rotate parent t)
    else rb_left_rotate grand_parent
        (if value_lt new_node parent t then rb_right_rotate parent t else t)

-- and the exchange of the colours.
swap_colours : (grand_parent : Ptr) → RbTree → RbTree
swap_colours grand_parent t =
    let top = (t.node grand_parent).parent in
    let t1 = set_red grand_parent (t.node top).is_red t in
    set_red top (t.node grand_parent).is_red t1

recolour : (parent uncle grand_parent : Ptr) → RbTree → RbTree
recolour parent uncle grand_parent t =
    set_red grand_parent true (set_red uncle false (set_red parent false t))

-- The end of the loop of `rbInsert`.
end_insert : (new_node parent : Ptr) → RbTree → RbTree
end_insert new_node parent t =
    if is_null parent then set_root new_node (set_red new_node false t) else t

pub insert_loop : (fuel : ℕ) (new_node parent : Ptr) → RbTree → Option RbTree
insert_loop zero new_node parent t = none
insert_loop (suc fuel) new_node parent t =
    let grand_parent = (t.node parent).parent in
    let uncle =
      if value_lt parent grand_parent t
      then (t.node grand_parent).right_child
      else (t.node grand_parent).left_child in
    let t1 = recolour parent uncle grand_parent t in
    let t2 = swap_colours grand_parent (rotate_up new_node parent grand_parent t) in
    let top = (t2.node grand_parent).parent in
    let recoloured = insert_loop fuel grand_parent (t1.node grand_parent).parent t1 in
    let rotated = insert_loop fuel top (t2.node top).parent t2 in
    if not (is_red_node parent t)
    then some (end_insert new_node parent t)
    else if is_red_node uncle t
    then recoloured
    else rotated

pub rb_insert : (fuel : ℕ) (new_node : Ptr) → RbTree → Option RbTree
rb_insert fuel new_node t =
    let t1 = set_right new_node null (set_left new_node null t) in
    let first = set_red new_node false (set_parent new_node null (set_root new_node t1)) in
    if is_null t.root
    then some first
    else elim (bst_insert fuel t.root new_node (set_red new_node true t1)) [
      | none ↦ none
      | some t2 ↦ insert_loop fuel new_node (t2.node new_node).parent t2
    ]

pub rb_search : (fuel : ℕ) (cur_node : Ptr) (value : ℕ) → RbTree → Option Ptr
rb_search zero cur_node value t = none
rb_search (suc fuel) cur_node value t =
    let left = rb_search fuel (t.node cur_node).left_child value t in
    let right = rb_search fuel (t.node cur_node).right_child value t in
    if is_null cur_node
    then some null
    else if value == (t.node cur_node).value
    then some cur_node
    else if ltb value (t.node cur_node).value
    then left
    else right
