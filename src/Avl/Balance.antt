-- ===== src/Avl/Balance.antt =====
-- The AVL condition: every cached height is right, and the subtrees of a node differ in height by at
-- most one. Under it no rotation reads through NULL.
use rediskrazy.Base.{
  ◌>>=◌, Ends, ends, ℕ, zero, suc, ◌+◌, ◌-◌, ◌^◌, ◌<◌, ◌≤◌, ◌≡◌, refl, ◌≢◌, ◌⊎◌, inl, inr, ◌∙◌,
  Bool, true, false, List, [], ◌∷◌, ◌++◌, ltb, ◌==◌, if◌then◌else◌, length, leb, Bool-cases, max,
  arith, some, none, Option,
}
use rediskrazy.Sds.{Sds}
use rediskrazy.Double.{Double}
use rediskrazy.Avl.{
  AvlNode, null, node, get_height, max_int, rotate_left, rotate_right, rotate_left_right,
  rotate_right_left,
}

abbrev pub IsBalanced : AvlNode → Type 0
IsBalanced null = Unit
IsBalanced (node k s h l r) =
    (h ≡ 1 + max (get_height l) (get_height r))
    × (get_height l ≤ get_height r + 1)
    × (get_height r ≤ get_height l + 1)
    × IsBalanced l
    × IsBalanced r

pub max_int-max : (a b : ℕ) → max_int a b ≡ max a b
unfolding max_int
max_int-max a b = ground arith

pub ruleset heights = (arith, max_int-max)

-- A double rotation of a node whose left subtree is two higher, its right child the higher one.
pub rotate_left_right-IsBalanced :
    (k : Sds) (s : Double) (h : ℕ) (k' : Sds) (s' : Double) (h' : ℕ) (ll lr r : AvlNode)
    → IsBalanced (node k' s' h' ll lr)
    → IsBalanced r
    → h' ≡ get_height r + 2
    → get_height lr ≡ get_height ll + 1
    → Ends
        (λ t. IsBalanced t × (get_height t ≡ get_height r + 2))
        (rotate_left_right (node k s h (node k' s' h' ll lr) r))
unfolding rotate_left_right rotate_left rotate_right
rotate_left_right-IsBalanced k s h k' s' h' ll null r b c p q = absurd (omega heights)
rotate_left_right-IsBalanced k s h k' s' h' ll (node k₂ s₂ h₂ a t) r
      (e, b₁, b₂, b₃, (e', d₁, d₂, d₃, d₄)) c p q =
    ends (
      (
        omega heights,
        omega heights,
        omega heights,
        (omega heights, omega heights, omega heights, b₃, d₃),
        (omega heights, omega heights, omega heights, d₄, c),
      ),
      omega heights,
    )

-- The mirror image.
pub rotate_right_left-IsBalanced :
    (k : Sds) (s : Double) (h : ℕ) (k' : Sds) (s' : Double) (h' : ℕ) (l rl rr : AvlNode)
    → IsBalanced (node k' s' h' rl rr)
    → IsBalanced l
    → h' ≡ get_height l + 2
    → get_height rl ≡ get_height rr + 1
    → Ends
        (λ t. IsBalanced t × (get_height t ≡ get_height l + 2))
        (rotate_right_left (node k s h l (node k' s' h' rl rr)))
unfolding rotate_right_left rotate_left rotate_right
rotate_right_left-IsBalanced k s h k' s' h' l null rr b c p q = absurd (omega heights)
rotate_right_left-IsBalanced k s h k' s' h' l (node k₂ s₂ h₂ a t) rr
      (e, b₁, b₂, (e', d₁, d₂, d₃, d₄), b₄) c p q =
    ends (
      (
        omega heights,
        omega heights,
        omega heights,
        (omega heights, omega heights, omega heights, c, d₃),
        (omega heights, omega heights, omega heights, d₄, b₄),
      ),
      omega heights,
    )

-- A single rotation to the right, where the left subtree is two higher and does not lean right. The
-- height falls by one unless that subtree was level.
pub rotate_right-IsBalanced :
    (k : Sds) (s : Double) (h : ℕ) (k' : Sds) (s' : Double) (h' : ℕ) (ll lr r : AvlNode)
    → IsBalanced (node k' s' h' ll lr)
    → IsBalanced r
    → h' ≡ get_height r + 2
    → get_height lr ≤ get_height ll
    → Ends
        (λ t. IsBalanced t × (get_height t ≡ 2 + get_height lr))
        (rotate_right (node k s h (node k' s' h' ll lr) r))
unfolding rotate_right
rotate_right-IsBalanced k s h k' s' h' ll lr r (e, b₁, b₂, b₃, b₄) c p q = ends (
  (
    omega heights,
    omega heights,
    omega heights,
    b₃,
    (omega heights, omega heights, omega heights, b₄, c),
  ),
  omega heights,
)

pub rotate_left-IsBalanced :
    (k : Sds) (s : Double) (h : ℕ) (k' : Sds) (s' : Double) (h' : ℕ) (l rl rr : AvlNode)
    → IsBalanced (node k' s' h' rl rr)
    → IsBalanced l
    → h' ≡ get_height l + 2
    → get_height rl ≤ get_height rr
    → Ends
        (λ t. IsBalanced t × (get_height t ≡ 2 + get_height rl))
        (rotate_left (node k s h l (node k' s' h' rl rr)))
unfolding rotate_left
rotate_left-IsBalanced k s h k' s' h' l rl rr (e, b₁, b₂, b₃, b₄) c p q = ends (
  (
    omega heights,
    omega heights,
    omega heights,
    (omega heights, omega heights, omega heights, c, b₃),
    b₄,
  ),
  omega heights,
)
