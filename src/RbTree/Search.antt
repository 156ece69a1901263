-- ===== src/RbTree/Search.antt =====
-- `rbSearch` is lookup in the list of the nodes in order.
use mirai_os.Prelude.{
  ℕ, zero, suc, ◌<◌, ◌≤◌, ◌==◌, ltb, ◌≡◌, ◌≢◌, refl, Bool, true, false, if◌then◌else◌, some, List,
  [], ◌∷◌, ◌++◌, arith, ap, sym, ◌∙◌, inl, inr, Bool-cases,
}
use mirai_os.RbTree.{Ptr, null, RbTree, rb_search}
use mirai_os.RbTree.Shape.{Shape, leaf, fork, IsShape, Above, Below, IsOrdered, in_order, height}

-- The first node of the list with the value, or NULL.
abbrev pub lookup : ℕ → List (Ptr × ℕ) → Ptr
lookup v [] = null
lookup v (n ∷ ns) = if v == n.1 then n.0 else lookup v ns

abbrev pub Lacks : ℕ → List (Ptr × ℕ) → Type 0
Lacks v [] = Unit
Lacks v (n ∷ ns) = (v ≢ n.1) × Lacks v ns

pub lookup-Lacks : (v : ℕ) (xs ys : List (Ptr × ℕ)) → Lacks v xs → lookup v (xs ++ ys) ≡ lookup v ys
lookup-Lacks v [] ys h = refl
lookup-Lacks v (n ∷ xs) ys h =
    let test : (v == n.1) ≡ false = ground (arith, h.0) in
    ap (λ b. if b then n.0 else lookup v (xs ++ ys)) test ∙ lookup-Lacks v xs ys h.1

pub lookup-null :
    (v : ℕ) (xs ys : List (Ptr × ℕ)) → lookup v ys ≡ null → lookup v (xs ++ ys) ≡ lookup v xs
lookup-null v [] ys e = e
lookup-null v (n ∷ xs) ys e = ap (λ p. if v == n.1 then n.0 else p) (lookup-null v xs ys e)

Lacks-append : (v : ℕ) (xs ys : List (Ptr × ℕ)) → Lacks v xs → Lacks v ys → Lacks v (xs ++ ys)
Lacks-append v [] ys h k = k
Lacks-append v (n ∷ xs) ys h k = (h.0, Lacks-append v xs ys h.1 k)

pub Above-Lacks : (v x : ℕ) (s : Shape) → v ≤ x → Above x s → Lacks v (in_order s)
Above-Lacks v x leaf le h = tt
Above-Lacks v x (fork l a y c r) le h =
    Lacks-append v (in_order l) ((a, y) ∷ in_order r) (Above-Lacks v x l le h.1)
      (omega (arith, h.0), Above-Lacks v x r le h.2)

pub Below-Lacks : (v x : ℕ) (s : Shape) → x ≤ v → Below x s → Lacks v (in_order s)
Below-Lacks v x leaf le h = tt
Below-Lacks v x (fork l a y c r) le h =
    Lacks-append v (in_order l) ((a, y) ∷ in_order r) (Below-Lacks v x l le h.1)
      (omega (arith, h.0), Below-Lacks v x r le h.2)

Lacks-null : (v : ℕ) (xs : List (Ptr × ℕ)) → Lacks v xs → lookup v xs ≡ null
Lacks-null v [] h = refl
Lacks-null v (n ∷ xs) h =
    let test : (v == n.1) ≡ false = ground (arith, h.0) in
    ap (λ b. if b then n.0 else lookup v xs) test ∙ Lacks-null v xs h.1

-- `lookup` in a search tree goes left, stops, or goes right.
pub lookup-fork :
    (v : ℕ) (l : Shape) (a x : ℕ) (c : Bool) (r : Shape)
    → IsOrdered (fork l a x c r)
    → lookup v (in_order (fork l a x c r))
      ≡ (if v == x then a else if ltb v x then lookup v (in_order l) else lookup v (in_order r))
lookup-fork v l a x c r h = elim (Bool-cases (v == x)) [
  | inl e ↦
      let le : x ≤ v = ground arith in
      lookup-Lacks v (in_order l) ((a, x) ∷ in_order r) (Below-Lacks v x l le h.0) ∙ rw e refl
  | inr e ↦ elim (Bool-cases (ltb v x)) [
    | inl less ↦
        let le : v ≤ x = ground arith in
        lookup-null v (in_order l) ((a, x) ∷ in_order r) (
          ap (λ b. if b then a else lookup v (in_order r)) e
          ∙ Lacks-null v (in_order r) (Above-Lacks v x r le h.1))
        ∙ rw (e, less) refl
    | inr more ↦
        let le : x ≤ v = ground arith in
        lookup-Lacks v (in_order l) ((a, x) ∷ in_order r) (Below-Lacks v x l le h.0)
        ∙ rw (e, more) refl
  ]
]

some-if :
    (b d : Bool) (p q r : Ptr)
    → (if b then some p else if d then some q else some r)
      ≡ some (if b then p else if d then q else r)
some-if true d p q r = refl
some-if false true p q r = refl
some-if false false p q r = refl

-- On a search tree, with more fuel than it has nodes, `rbSearch` ends, and gives the node of the
-- value in the list of the nodes in order, or NULL where there is none.
pub rb_search-lookup :
    (fuel : ℕ) (parent p : Ptr) (v : ℕ) (t : RbTree) (s : Shape)
    → height s < fuel
    → IsShape t parent p s
    → IsOrdered s
    → rb_search fuel p v t ≡ some (lookup v (in_order s))
unfolding rb_search
rb_search-lookup zero parent p v t s lt h o = absurd (omega arith)
rb_search-lookup (suc fuel) parent p v t leaf lt h o =
    let test : (p == null) ≡ true = ground arith in rw test refl
rb_search-lookup (suc fuel) parent p v t (fork l a x c r) lt h o =
    let left = rb_search-lookup fuel a (t.node a).left_child v t l (omega arith) h.5 o.2 in
    let right = rb_search-lookup fuel a (t.node a).right_child v t r (omega arith) h.6 o.3 in
    let test : (a == null) ≡ false = ground (arith, h.1) in
    let all = lookup-fork v l a x c r o in
    rw (h.0, test, h.3, left, right)
      (some-if (v == x) (ltb v x) a (lookup v (in_order l)) (lookup v (in_order r))
        ∙ ap some (sym all))
