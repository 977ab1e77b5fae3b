-- ===== src/Avl/Insert.antt =====
-- avl_insert_node keeps the AVL condition.
use Prim.Native.Nat.{Ordering}
use Prim.Native.Nat.Ordering.{lt, eq, gt}
use rediskrazy.Base.{
  Ends, ends, Ends-bind, Ends-map, ℕ, ◌+◌, ◌≤◌, ◌≡◌, refl, ◌⊎◌, inl, inr, Bool, arith, dec_le, some,
}
use rediskrazy.Base.Int.{sign}
use rediskrazy.Sds.{Sds}
use rediskrazy.Double.{Double}
use rediskrazy.Avl.{
  AvlNode, null, node, compare_nodes, compare_with, get_height, update_height, insert_fix,
  rotate_left, rotate_right, rotate_left_right, rotate_right_left, avl_insert_node,
}
use rediskrazy.Avl.Balance.{
  IsBalanced, heights, rotate_left_right-IsBalanced, rotate_right_left-IsBalanced,
  rotate_right-IsBalanced, rotate_left-IsBalanced,
}

-- The subtree that the new node went to is the higher one, or the new node is all there is.
abbrev Leans : Sds → Double → AvlNode → Type 0
Leans key score null = ⊥
Leans key score (node k s h l r) =
    (h ≡ 1)
    ⊎ (sign (compare_nodes key score k s) ≡ lt) × (get_height l ≡ get_height r + 1)
    ⊎ (sign (compare_nodes key score k s) ≡ gt) × (get_height r ≡ get_height l + 1)

-- `t'` is a balanced tree that an insertion makes of `t`.
abbrev Grown : Sds → Double → AvlNode → AvlNode → Type 0
Grown key score t t' =
    IsBalanced t'
    × ((get_height t' ≡ get_height t) ⊎ (get_height t' ≡ get_height t + 1) × Leans key score t')

module _ (key : Sds) (score : Double) (k : Sds) (s : Double) where
  -- No rotation where the subtrees differ by at most one.
  insert_fix_calm :
      (h : ℕ) (l r : AvlNode)
      → get_height l ≤ get_height r + 1
      → get_height r ≤ get_height l + 1
      → insert_fix key score (node k s h l r) ≡ some (node k s h l r)
  unfolding insert_fix
  insert_fix_calm h l r p q = ground arith

  -- The left subtree has become two higher by the insertion.
  insert_fix_left_high :
      (h : ℕ) (k' : Sds) (s' : Double) (h' : ℕ) (ll lr r : AvlNode)
      → IsBalanced (node k' s' h' ll lr)
      → IsBalanced r
      → h' ≡ get_height r + 2
      → Leans key score (node k' s' h' ll lr)
      → Ends
          (λ t. IsBalanced t × (get_height t ≡ get_height r + 2))
          (insert_fix key score (node k s h (node k' s' h' ll lr) r))
  unfolding insert_fix compare_with
  insert_fix_left_high h k' s' h' ll lr r b c p (inl q) = absurd (omega arith)
  insert_fix_left_high h k' s' h' ll lr r b c p (inr (inl (q, e))) =
      let turn : insert_fix key score (node k s h (node k' s' h' ll lr) r)
          ≡ rotate_right (node k s h (node k' s' h' ll lr) r) =
        ground arith in
      rw turn (
        Ends-map (rotate_right-IsBalanced k s h k' s' h' ll lr r b c p (omega arith))
          λ t (d, f). (d, omega heights))
  insert_fix_left_high h k' s' h' ll lr r b c p (inr (inr (q, e))) =
      let turn : insert_fix key score (node k s h (node k' s' h' ll lr) r)
          ≡ rotate_left_right (node k s h (node k' s' h' ll lr) r) =
        ground arith in
      rw turn (rotate_left_right-IsBalanced k s h k' s' h' ll lr r b c p e)

  insert_fix_right_left :
      (h : ℕ) (k' : Sds) (s' : Double) (h' : ℕ) (l rl rr : AvlNode)
      → h' ≡ get_height l + 2
      → sign (compare_nodes key score k' s') ≡ lt
      → insert_fix key score (node k s h l (node k' s' h' rl rr))
        ≡ rotate_right_left (node k s h l (node k' s' h' rl rr))
  unfolding insert_fix compare_with
  insert_fix_right_left h k' s' h' l rl rr p q = ground arith

  insert_fix_right_right :
      (h : ℕ) (k' : Sds) (s' : Double) (h' : ℕ) (l rl rr : AvlNode)
      → h' ≡ get_height l + 2
      → sign (compare_nodes key score k' s') ≡ gt
      → insert_fix key score (node k s h l (node k' s' h' rl rr))
        ≡ rotate_left (node k s h l (node k' s' h' rl rr))
  unfolding insert_fix compare_with
  insert_fix_right_right h k' s' h' l rl rr p q = ground arith

  insert_fix_right_high :
      (h : ℕ) (k' : Sds) (s' : Double) (h' : ℕ) (l rl rr : AvlNode)
      → IsBalanced (node k' s' h' rl rr)
      → IsBalanced l
      → h' ≡ get_height l + 2
      → Leans key score (node k' s' h' rl rr)
      → Ends
          (λ t. IsBalanced t × (get_height t ≡ get_height l + 2))
          (insert_fix key score (node k s h l (node k' s' h' rl rr)))
  unfolding insert_fix compare_with
  insert_fix_right_high h k' s' h' l rl rr b c p (inl q) = absurd (omega arith)
  insert_fix_right_high h k' s' h' l rl rr b c p (inr (inl (q, e))) =
      rw (insert_fix_right_left h k' s' h' l rl rr p q)
        (rotate_right_left-IsBalanced k s h k' s' h' l rl rr b c p e)
  insert_fix_right_high h k' s' h' l rl rr b c p (inr (inr (q, e))) =
      rw (insert_fix_right_right h k' s' h' l rl rr p q) (
        Ends-map (rotate_left-IsBalanced k s h k' s' h' l rl rr b c p (omega arith))
          λ t (d, f). (d, omega heights))

  -- avl_insert_node went to the left, and `insert_fix` completes the step.
  insert_fix_left :
      (h : ℕ) (l l' r : AvlNode)
      → IsBalanced (node k s h l r)
      → sign (compare_nodes key score k s) ≡ lt
      → Grown key score l l'
      → Ends
          (Grown key score (node k s h l r))
          (insert_fix key score (update_height (node k s h l' r)))
  insert_fix_left h l l' r (b, b₁, b₂, b₃, b₄) c (d, inl e) =
      rw (insert_fix_calm _ l' r (omega arith) (omega arith))
        (ends ((omega heights, omega arith, omega arith, d, b₄), inl (omega heights)))
  insert_fix_left h l null r (b, b₁, b₂, b₃, b₄) c (d, inr (e, g)) = absurd g
  insert_fix_left h l (node k' s' h' ll lr) r (b, b₁, b₂, b₃, b₄) c (d, inr (e, g)) =
      elim (dec_le h' (get_height r + 1)) [
        | yes low ↦ rw (insert_fix_calm _ (node k' s' h' ll lr) r (omega arith) (omega arith)) (
            ends (
              (omega heights, omega arith, omega arith, d, b₄),
              elim (dec_le h' (get_height r)) [
                | yes p ↦ inl (omega heights)
                | no p ↦ inr (omega heights, inr (inl (c, omega arith)))
              ],
            ))
        | no high ↦
            Ends-map (insert_fix_left_high _ k' s' h' ll lr r d b₄ (omega arith) g)
              λ t (f, f'). (f, inl (omega arith))
      ]

  -- The same on the right.
  insert_fix_right :
      (h : ℕ) (l r r' : AvlNode)
      → IsBalanced (node k s h l r)
      → sign (compare_nodes key score k s) ≡ gt
      → Grown key score r r'
      → Ends
          (Grown key score (node k s h l r))
          (insert_fix key score (update_height (node k s h l r')))
  insert_fix_right h l r r' (b, b₁, b₂, b₃, b₄) c (d, inl e) =
      rw (insert_fix_calm _ l r' (omega arith) (omega arith))
        (ends ((omega heights, omega arith, omega arith, b₃, d), inl (omega heights)))
  insert_fix_right h l r null (b, b₁, b₂, b₃, b₄) c (d, inr (e, g)) = absurd g
  insert_fix_right h l r (node k' s' h' rl rr) (b, b₁, b₂, b₃, b₄) c (d, inr (e, g)) =
      elim (dec_le h' (get_height l + 1)) [
        | yes low ↦ rw (insert_fix_calm _ l (node k' s' h' rl rr) (omega arith) (omega arith)) (
            ends (
              (omega heights, omega arith, omega arith, b₃, d),
              elim (dec_le h' (get_height l)) [
                | yes p ↦ inl (omega heights)
                | no p ↦ inr (omega heights, inr (inr (c, omega arith)))
              ],
            ))
        | no high ↦
            Ends-map (insert_fix_right_high _ k' s' h' l rl rr d b₃ (omega arith) g)
              λ t (f, f'). (f, inl (omega arith))
      ]

-- What avl_insert_node returns on a balanced subtree.
avl_insert_node-Grown :
    (t : AvlNode) (key : Sds) (score : Double)
    → IsBalanced t
    → Ends {A = AvlNode × Bool} (λ r. Grown key score t r.0) (avl_insert_node t key score)
unfolding avl_insert_node
avl_insert_node-Grown null key score b =
    ends ((refl, omega arith, omega arith, tt, tt), inr (refl, inl refl))
avl_insert_node-Grown (node k s h l r) key score b =
    go (sign (compare_nodes key score k s)) refl (avl_insert_node-Grown l key score b.3)
      (avl_insert_node-Grown r key score b.4)
  where
    go :
        (o : Ordering)
        → sign (compare_nodes key score k s) ≡ o
        → Ends {A = AvlNode × Bool} (λ r. Grown key score l r.0) (avl_insert_node l key score)
        → Ends {A = AvlNode × Bool} (λ t. Grown key score r t.0) (avl_insert_node r key score)
        → Ends {A = AvlNode × Bool}
            (λ t. Grown key score (node k s h l r) t.0)
            (avl_insert_node (node k s h l r) key score)
    go lt e ihl ihr =
        rw (e, avl_insert_node)
          (Ends-bind ihl
            λ (l', i) g. Ends-bind (insert_fix_left key score k s h l l' r b e g) λ n g'. ends g')
    go gt e ihl ihr =
        rw (e, avl_insert_node)
          (Ends-bind ihr
            λ (r', i) g. Ends-bind (insert_fix_right key score k s h l r r' b e g) λ n g'. ends g')
    go eq e ihl ihr = rw (e, avl_insert_node) (ends (b, inl refl))

-- avl_insert_node on a balanced subtree returns a balanced one, at most one higher.
pub avl_insert_node-IsBalanced :
    (t : AvlNode) (key : Sds) (score : Double)
    → IsBalanced t
    → Ends {A = AvlNode × Bool}
        (λ r.
          IsBalanced r.0 × (get_height t ≤ get_height r.0) × (get_height r.0 ≤ get_height t + 1))
        (avl_insert_node t key score)
avl_insert_node-IsBalanced t key score b =
    Ends-map (avl_insert_node-Grown t key score b) λ r (d, g). (d, omega arith, omega arith)
