-- ===== src/Avl/Delete.antt =====
-- avl_delete_node keeps the AVL condition.
use Prim.Native.Nat.{Ordering}
use Prim.Native.Nat.Ordering.{lt, eq, gt}
use rediskrazy.Base.{
  ◌>>=◌, Ends, ends, Ends-bind, Ends-map, ℕ, ◌+◌, ◌<◌, ◌≤◌, ◌≡◌, refl, ◌⊎◌, inl, inr, Bool, true,
  false, max, arith, dec_le, some, Option,
}
use rediskrazy.Base.Int.{pos, negsuc, sub_ℕ, ltb_ℤ, sign}
use rediskrazy.Sds.{Sds}
use rediskrazy.Double.{Double}
use rediskrazy.Avl.{
  AvlNode, null, node, compare_nodes, get_height, update_height, delete_fix, max_int, rotate_left,
  rotate_right, rotate_left_right, rotate_right_left, avl_delete_node, min_value_node, delete_root,
}
use rediskrazy.Avl.Balance.{
  IsBalanced, heights, rotate_left_right-IsBalanced, rotate_right_left-IsBalanced,
  rotate_right-IsBalanced, rotate_left-IsBalanced,
}

-- `t'` is balanced and of height `n`, or one lower.
abbrev Shrunk : ℕ → AvlNode → Type 0
Shrunk n t' = IsBalanced t' × (n ≤ get_height t' + 1) × (get_height t' ≤ n)

module _ (k : Sds) (s : Double) (h : ℕ) where
  delete_fix_calm :
      (l r : AvlNode)
      → get_height l ≤ get_height r + 1
      → get_height r ≤ get_height l + 1
      → delete_fix (node k s h l r) ≡ some (node k s h l r)
  unfolding delete_fix
  delete_fix_calm l r p q =
      let level : ltb_ℤ (pos 1) (sub_ℕ (get_height l) (get_height r)) ≡ false = ground arith in
      let level' : ltb_ℤ (sub_ℕ (get_height l) (get_height r)) (negsuc 0) ≡ false = ground arith in
      rw (level, level')

  delete_fix_left_left :
      (k' : Sds) (s' : Double) (h' : ℕ) (ll lr r : AvlNode)
      → h' ≡ get_height r + 2
      → get_height lr ≤ get_height ll
      → delete_fix (node k s h (node k' s' h' ll lr) r)
        ≡ rotate_right (node k s h (node k' s' h' ll lr) r)
  unfolding delete_fix
  delete_fix_left_left k' s' h' ll lr r p q = ground arith

  delete_fix_left_right :
      (k' : Sds) (s' : Double) (h' : ℕ) (ll lr r : AvlNode)
      → h' ≡ get_height r + 2
      → get_height ll < get_height lr
      → delete_fix (node k s h (node k' s' h' ll lr) r)
        ≡ rotate_left_right (node k s h (node k' s' h' ll lr) r)
  unfolding delete_fix
  delete_fix_left_right k' s' h' ll lr r p q = ground arith

  delete_fix_right_right :
      (k' : Sds) (s' : Double) (h' : ℕ) (l rl rr : AvlNode)
      → h' ≡ get_height l + 2
      → get_height rl ≤ get_height rr
      → delete_fix (node k s h l (node k' s' h' rl rr))
        ≡ rotate_left (node k s h l (node k' s' h' rl rr))
  unfolding delete_fix
  delete_fix_right_right k' s' h' l rl rr p q = ground arith

  delete_fix_right_left :
      (k' : Sds) (s' : Double) (h' : ℕ) (l rl rr : AvlNode)
      → h' ≡ get_height l + 2
      → get_height rr < get_height rl
      → delete_fix (node k s h l (node k' s' h' rl rr))
        ≡ rotate_right_left (node k s h l (node k' s' h' rl rr))
  unfolding delete_fix
  delete_fix_right_left k' s' h' l rl rr p q = ground arith

  -- The right subtree has lost one level: the left one may be two higher.
  delete_fix_left_high :
      (l r : AvlNode)
      → IsBalanced l
      → IsBalanced r
      → get_height l ≡ get_height r + 2
      → Ends (Shrunk (get_height l + 1)) (delete_fix (node k s h l r))
  delete_fix_left_high null r b c p = absurd (omega arith)
  delete_fix_left_high (node k' s' h' ll lr) r b c p =
      elim (dec_le (get_height lr) (get_height ll)) [
        | yes q ↦ rw (delete_fix_left_left k' s' h' ll lr r p q) (
            Ends-map (rotate_right-IsBalanced k s h k' s' h' ll lr r b c p q)
              λ t (d, e). (d, omega arith, omega arith))
        | no q ↦ rw (delete_fix_left_right k' s' h' ll lr r p (omega arith)) (
            Ends-map (rotate_left_right-IsBalanced k s h k' s' h' ll lr r b c p (omega arith))
              λ t (d, e). (d, omega arith, omega arith))
      ]

  delete_fix_right_high :
      (l r : AvlNode)
      → IsBalanced l
      → IsBalanced r
      → get_height r ≡ get_height l + 2
      → Ends (Shrunk (get_height r + 1)) (delete_fix (node k s h l r))
  delete_fix_right_high l null b c p = absurd (omega arith)
  delete_fix_right_high l (node k' s' h' rl rr) b c p =
      elim (dec_le (get_height rl) (get_height rr)) [
        | yes q ↦ rw (delete_fix_right_right k' s' h' l rl rr p q) (
            Ends-map (rotate_left-IsBalanced k s h k' s' h' l rl rr c b p q)
              λ t (d, e). (d, omega arith, omega arith))
        | no q ↦ rw (delete_fix_right_left k' s' h' l rl rr p (omega arith)) (
            Ends-map (rotate_right_left-IsBalanced k s h k' s' h' l rl rr c b p (omega arith))
              λ t (d, e). (d, omega arith, omega arith))
      ]

-- `delete_fix` on two balanced subtrees that differ by at most two loses a level at most, and none
-- where they differ by one at most.
abbrev Fixed : AvlNode → AvlNode → AvlNode → Type 0
Fixed l r t =
    Shrunk (1 + max (get_height l) (get_height r)) t
    × (get_height l ≤ get_height r + 1
        → get_height r ≤ get_height l + 1
        → get_height t ≡ 1 + max (get_height l) (get_height r))

delete_fix-Fixed :
    (k : Sds) (s : Double) (h : ℕ) (l r : AvlNode)
    → IsBalanced l
    → IsBalanced r
    → get_height l ≤ get_height r + 2
    → get_height r ≤ get_height l + 2
    → Ends (Fixed l r) (delete_fix (update_height (node k s h l r)))
delete_fix-Fixed k s h l r b c p q =
    let h' = 1 + max_int (get_height l) (get_height r) in
    elim (dec_le (get_height l) (get_height r + 1)) [
      | yes p' ↦ elim (dec_le (get_height r) (get_height l + 1)) [
        | yes q' ↦ rw (delete_fix_calm k s h' l r p' q') (
            ends
              (((omega heights, p', q', b, c), omega heights, omega heights), λ _ _. omega heights))
        | no q' ↦
            Ends-map (delete_fix_right_high k s h' l r b c (omega arith))
              λ t (d, e, e'). ((d, omega arith, omega arith), λ _ x. absurd (q' x))
      ]
      | no p' ↦
          Ends-map (delete_fix_left_high k s h' l r b c (omega arith))
            λ t (d, e, e'). ((d, omega arith, omega arith), λ x _. absurd (p' x))
    ]

-- A tree that is not empty has a least node.
pub min_value_node-Ends :
    (k : Sds) (s : Double) (h : ℕ) (l r : AvlNode)
    → Ends {A = Sds × Double} (λ _. Unit {0}) (min_value_node (node k s h l r))
unfolding min_value_node
min_value_node-Ends k s h null r = ends tt
min_value_node-Ends k s h (node k' s' h' l' r') r = min_value_node-Ends k' s' h' l' r'

abbrev DeletedFrom : ℕ → AvlNode × Bool → Type 0
DeletedFrom n r = Shrunk n r.0

-- The step that completes a deletion below a node of height `h`.
delete_step :
    (k : Sds) (s : Double) (h : ℕ) (l r : AvlNode) (d : Bool)
    → IsBalanced l
    → IsBalanced r
    → get_height l ≤ get_height r + 2
    → get_height r ≤ get_height l + 2
    → (h ≡ 1 + max (get_height l) (get_height r))
      ⊎ (h ≡ 2 + max (get_height l) (get_height r))
        × (get_height l ≤ get_height r + 1)
        × (get_height r ≤ get_height l + 1)
    → Ends (DeletedFrom h) (delete_fix (update_height (node k s h l r)) >>= λ n. some (n, d))
delete_step k s h l r d b c p q v =
    Ends-bind (delete_fix-Fixed k s h l r b c p q)
      λ t ((f, f₁, f₂), g). let w = bounds v t f₁ f₂ g in ends (f, w.0, w.1)
  where
    bounds :
        (h ≡ 1 + max (get_height l) (get_height r))
          ⊎ (h ≡ 2 + max (get_height l) (get_height r))
            × (get_height l ≤ get_height r + 1)
            × (get_height r ≤ get_height l + 1)
        → (t : AvlNode) → 1 + max (get_height l) (get_height r) ≤ get_height t + 1
        → get_height t ≤ 1 + max (get_height l) (get_height r)
        → (get_height l ≤ get_height r + 1
            → get_height r ≤ get_height l + 1
            → get_height t ≡ 1 + max (get_height l) (get_height r))
        → (h ≤ get_height t + 1) × (get_height t ≤ h)
    bounds (inl e) t x y g = (omega arith, omega arith)
    bounds (inr (e, z, z')) t x y g = let g' = g z z' in (omega arith, omega arith)

-- A subtree of a balanced node that loses a level at most leaves the node as `delete_step` wants it.
lower :
    (h a b a' : ℕ)
    → h ≡ 1 + max a b
    → a ≤ b + 1
    → b ≤ a + 1
    → a ≤ a' + 1
    → a' ≤ a
    → (h ≡ 1 + max a' b) ⊎ (h ≡ 2 + max a' b) × (a' ≤ b + 1) × (b ≤ a' + 1)
lower h a b a' e p q x y = elim (dec_le a' b) [
  | yes u ↦ elim (dec_le a b) [
    | yes v ↦ inl (omega arith)
    | no v ↦ inr (omega arith, omega arith, omega arith)
  ]
  | no u ↦ elim (dec_le a a') [
    | yes v ↦ inl (omega arith)
    | no v ↦ inr (omega arith, omega arith, omega arith)
  ]
]

lower_right :
    (h a b b' : ℕ)
    → h ≡ 1 + max a b
    → a ≤ b + 1
    → b ≤ a + 1
    → b ≤ b' + 1
    → b' ≤ b
    → (h ≡ 1 + max a b') ⊎ (h ≡ 2 + max a b') × (a ≤ b' + 1) × (b' ≤ a + 1)
lower_right h a b b' e p q x y = elim (lower h b a b' (omega arith) q p x y) [
  | inl u ↦ inl (omega arith)
  | inr (u, v, w) ↦ inr (omega arith, w, v)
]

delete_root-Shrunk :
    (h : ℕ) (l r : AvlNode) (delete_from_right : Sds → Double → Option (AvlNode × Bool))
    → h ≡ 1 + max (get_height l) (get_height r)
    → get_height l ≤ get_height r + 1
    → get_height r ≤ get_height l + 1
    → IsBalanced l
    → IsBalanced r
    → ((k : Sds) (s : Double) → Ends (DeletedFrom (get_height r)) (delete_from_right k s))
    → Ends (DeletedFrom h) (delete_root h l r delete_from_right)
unfolding delete_root
delete_root-Shrunk h null null del e p q b c d = ends (tt, omega arith, omega arith)
delete_root-Shrunk h (node k s h' l r) null del e p q (b, b₁, b₂, b₃, b₄) c d =
    delete_step k s h l r true b₃ b₄ (omega arith) (omega arith) (inr (omega arith, b₁, b₂))
delete_root-Shrunk h null (node k s h' l r) del e p q b (c, c₁, c₂, c₃, c₄) d =
    delete_step k s h l r true c₃ c₄ (omega arith) (omega arith) (inr (omega arith, c₁, c₂))
delete_root-Shrunk h (node k₁ s₁ h₁ l₁ r₁) (node k₂ s₂ h₂ l₂ r₂) del e p q b c d =
    Ends-bind (min_value_node-Ends k₂ s₂ h₂ l₂ r₂) λ (k, s) _.
      Ends-bind (d k s) λ (r', _) (f, f₁, f₂).
        delete_step k s h (node k₁ s₁ h₁ l₁ r₁) r' true b f (omega arith) (omega arith)
          (lower_right h h₁ h₂ (get_height r') e p q f₁ f₂)

-- avl_delete_node on a balanced subtree returns a balanced one, at most one lower.
pub avl_delete_node-IsBalanced :
    (t : AvlNode) (key : Sds) (score : Double)
    → IsBalanced t
    → Ends (DeletedFrom (get_height t)) (avl_delete_node t key score)
unfolding avl_delete_node
avl_delete_node-IsBalanced null key score b = ends (tt, omega arith, omega arith)
avl_delete_node-IsBalanced (node k s h l r) key score (b, b₁, b₂, b₃, b₄) =
    go (sign (compare_nodes key score k s)) refl (avl_delete_node-IsBalanced l key score b₃)
      (λ k' s'. avl_delete_node-IsBalanced r k' s' b₄)
  where
    go :
        (o : Ordering)
        → sign (compare_nodes key score k s) ≡ o
        → Ends (DeletedFrom (get_height l)) (avl_delete_node l key score)
        → ((k' : Sds) (s' : Double) → Ends (DeletedFrom (get_height r)) (avl_delete_node r k' s'))
        → Ends (DeletedFrom h) (avl_delete_node (node k s h l r) key score)
    go lt e ihl ihr =
        rw (e, avl_delete_node)
          (Ends-bind ihl λ (l', d) (f, g, g').
            delete_step k s h l' r d f b₄ (omega arith) (omega arith)
              (lower h (get_height l) (get_height r) (get_height l') b b₁ b₂ g g'))
    go gt e ihl ihr =
        rw (e, avl_delete_node)
          (Ends-bind (ihr key score) λ (r', d) (f, g, g').
            delete_step k s h l r' d b₃ f (omega arith) (omega arith)
              (lower_right h (get_height l) (get_height r) (get_height r') b b₁ b₂ g g'))
    go eq e ihl ihr = rw (e, avl_delete_node) (delete_root-Shrunk h l r _ b b₁ b₂ b₃ b₄ ihr)
