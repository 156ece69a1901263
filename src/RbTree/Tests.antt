-- ===== src/RbTree/Tests.antt =====
-- Runs and witnesses for the red-black tree.
use mirai_os.Prelude.{
  ℕ, zero, suc, ◌+◌, ◌==◌, ◌≡◌, inl, inr, refl, Bool, true, false, if◌then◌else◌, Option, none,
  some, List, [], ◌∷◌, arith, Bool-cases,
}
use mirai_os.RbTree.{
  Ptr, null, RbNode, RbTree, set_node, bst_insert, rb_insert, rb_search, rb_left_rotate,
  insert_loop,
}
use mirai_os.RbTree.Shape.{Shape, leaf, fork, IsShape, IsSeparate, IsOrdered, in_order}
use mirai_os.RbTree.Search.{lookup, rb_search-lookup}
use mirai_os.RbTree.Insert.{IsNew, Inserted, bst_insert-Inserted}
use mirai_os.RbTree.Rotate.Left.{Relinked, rb_left_rotate-shape}

abbrev rb_node : (parent left right value : ℕ) → Bool → RbNode
rb_node p l r v c = record { parent = p; left_child = l; right_child = r; value = v; is_red = c }

-- The node 2 with the children 1 and 3, and a new node 4.
abbrev nodes : Ptr → RbNode
nodes p =
    if p == 1
    then rb_node 2 0 0 10 true
    else if p == 2
    then rb_node 0 1 3 20 false
    else if p == 3
    then rb_node 2 0 0 30 true
    else rb_node 0 0 0 25 true

abbrev tree : RbTree
tree = record { root = 2; node = nodes }

abbrev one : Shape
one = fork leaf 1 10 true leaf

abbrev three : Shape
three = fork leaf 3 30 true leaf

abbrev shape : Shape
shape = fork one 2 20 false three

tree-IsShape : IsShape tree 0 2 shape
tree-IsShape = (
  refl,
  omega arith,
  refl,
  refl,
  refl,
  (refl, omega arith, refl, refl, refl, refl, refl),
  (refl, omega arith, refl, refl, refl, refl, refl),
)

tree-IsSeparate : IsSeparate shape
tree-IsSeparate = (
  (omega arith, tt, tt),
  (omega arith, tt, tt),
  λ q. elim (Bool-cases (q == 1)) [
    | inl e ↦ inr (ground arith, tt, tt)
    | inr e ↦ inl (ground arith, tt, tt)
  ],
  (tt, tt, (λ q. inl tt), tt, tt),
  (tt, tt, (λ q. inl tt), tt, tt),
)

tree-IsOrdered : IsOrdered shape
tree-IsOrdered = ((omega arith, tt, tt), (omega arith, tt, tt), (tt, tt, tt, tt), (tt, tt, tt, tt))

tree-IsNew : IsNew tree 4 25 shape
tree-IsNew = (
  omega arith,
  (omega arith, (omega arith, tt, tt), (omega arith, tt, tt)),
  refl,
  refl,
  refl,
  refl,
)

rb_search-lookup_example : rb_search 4 2 30 tree ≡ some (lookup 30 (in_order shape))
rb_search-lookup_example =
    rb_search-lookup 4 0 2 30 tree shape (omega arith) tree-IsShape tree-IsOrdered

bst_insert-Inserted_example :
    (t' : RbTree) × (bst_insert 3 2 4 tree ≡ some t') × Inserted tree 0 2 4 25 shape t'
bst_insert-Inserted_example =
    bst_insert-Inserted 3 tree 0 2 4 25 one 2 20 false three (omega arith) tree-IsShape
      tree-IsSeparate tree-IsNew

rb_left_rotate-shape_example :
    let old = shape in
    let new = fork (fork one 2 20 false leaf) 3 30 true leaf in
    IsShape (rb_left_rotate 2 tree) 0 3 new
    × (in_order new ≡ in_order old)
    × Relinked tree 0 20 3 old (rb_left_rotate 2 tree)
rb_left_rotate-shape_example =
    rb_left_rotate-shape tree 0 2 20 false 3 30 true one leaf leaf tree-IsShape tree-IsSeparate
      (omega arith, (omega arith, tt, tt), (omega arith, tt, tt))

abbrev single : RbTree
single = record { root = 5; node = λ p. rb_node 0 0 0 7 false }

-- `rbInsert` of the values 7, 3, 6, 2, 1, 4, 5 leaves a tree whose paths do not have equally many
-- black nodes.
insert_all : (values : List ℕ) (p : Ptr) → Option RbTree → Option RbTree
insert_all [] p t = t
insert_all (v ∷ vs) p none = none
insert_all (v ∷ vs) p (some t) =
    insert_all vs (p + 1) (rb_insert 5 p (set_node p (rb_node 0 0 0 v true) t))

-- The black nodes of each path; 99 or above where they differ.
black_height : (fuel : ℕ) (p : Ptr) → RbTree → ℕ
black_height zero p t = 99
black_height (suc fuel) p t =
    let left = black_height fuel (t.node p).left_child t in
    let right = black_height fuel (t.node p).right_child t in
    if p == 0
    then 1
    else if left == right
    then (if (t.node p).is_red then left else left + 1)
    else 99

height_of : Option RbTree → ℕ
height_of none = 98
height_of (some t) = black_height 6 t.root t

abbrev empty : Option RbTree
empty = some (record { root = 0; node = λ p. rb_node 0 0 0 0 false })

six_balanced : height_of (insert_all (7 ∷ 3 ∷ 6 ∷ 2 ∷ 1 ∷ 4 ∷ []) 1 empty) ≡ 3
unfolding height_of insert_all black_height rb_insert bst_insert insert_loop
    mirai_os.RbTree.end_insert mirai_os.RbTree.swap_colours mirai_os.RbTree.rotate_up
    mirai_os.RbTree.rb_right_rotate rb_left_rotate mirai_os.RbTree.recolour
six_balanced = refl

seven_unbalanced : height_of (insert_all (7 ∷ 3 ∷ 6 ∷ 2 ∷ 1 ∷ 4 ∷ 5 ∷ []) 1 empty) ≡ 100
unfolding height_of insert_all black_height rb_insert bst_insert insert_loop
    mirai_os.RbTree.end_insert mirai_os.RbTree.swap_colours mirai_os.RbTree.rotate_up
    mirai_os.RbTree.rb_right_rotate rb_left_rotate mirai_os.RbTree.recolour
seven_unbalanced = refl
