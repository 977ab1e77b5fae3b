-- ===== src/Avl.antt =====
-- backend/avl.h and backend/avl.c: the AVL tree of (score, member) nodes.
-- A pointer to a node is the node's value, NULL is `null`; a node is owned by its parent, so an
-- update through a pointer is a new value. `none` is a read through a NULL pointer.
pub mod Entries
pub mod Balance
pub mod Insert
pub mod Delete
pub mod Lists
pub mod Contents
pub mod Remove
pub mod Tree
pub mod Rank
pub mod Runs
mod Tests
use rediskrazy.Base.{
  ◌>>=◌, ℕ, suc, ◌+◌, ◌-◌, ◌%◌, ◌^◌, Bool, true, false, Option, none, some, ◌∷◌, [], List, ◌++◌,
  ltb, leb, ◌==◌, ◌&&◌, if◌then◌else◌,
}
use rediskrazy.Base.Int.{ℤ, pos, negsuc, sub_ℕ, ltb_ℤ, sign}
use Prim.Native.Nat.{Ordering}
use rediskrazy.Sds.{Sds, sdscmp}
use rediskrazy.Double.{Double, double_lt}

-- `height` is an int that is never negative.
pub data AvlNode : Type 0 where
  null : AvlNode
  node : Sds → Double → ℕ → AvlNode → AvlNode → AvlNode

pub record AvlTree : Type 0 where
  pub root : AvlNode
  pub count : ℕ

abbrev pub is_null : AvlNode → Bool
is_null null = true
is_null (node _ _ _ _ _) = false

unfoldable pub max_int : ℕ → ℕ → ℕ
max_int a b = if ltb b a then a else b

abbrev pub get_height : AvlNode → ℕ
get_height null = 0
get_height (node _ _ h _ _) = h

abbrev pub update_height : AvlNode → AvlNode
update_height null = null
update_height (node k s h l r) = node k s (1 + max_int (get_height l) (get_height r)) l r

abbrev pub get_balance : AvlNode → ℤ
get_balance null = pos 0
get_balance (node _ _ _ l r) = sub_ℕ (get_height l) (get_height r)

unfoldable pub rotate_right : AvlNode → Option AvlNode
rotate_right (node k s h (node kx sx hx a t2) r) =
    some (update_height (node kx sx hx a (update_height (node k s h t2 r))))
rotate_right (node k s h null r) = none
rotate_right null = none

unfoldable pub rotate_left : AvlNode → Option AvlNode
rotate_left (node k s h l (node ky sy hy t2 c)) =
    some (update_height (node ky sy hy (update_height (node k s h l t2)) c))
rotate_left (node k s h l null) = none
rotate_left null = none

unfoldable pub compare_nodes : Sds → Double → Sds → Double → ℤ
compare_nodes key_a score_a key_b score_b =
    if double_lt score_a score_b
    then negsuc 0
    else if double_lt score_b score_a
    then pos 1
    else sdscmp key_a key_b

-- compare_nodes(key, score, n->key, n->score), by its sign.
unfoldable pub compare_with : Sds → Double → AvlNode → Option Ordering
compare_with key score null = none
compare_with key score (node k s h l r) = some (sign (compare_nodes key score k s))

-- node->left = rotate_left(node->left); return rotate_right(node);
unfoldable pub rotate_left_right : AvlNode → Option AvlNode
unfolding rotate_left rotate_right
rotate_left_right null = none
rotate_left_right (node k s h l r) = rotate_left l >>= λ l'. rotate_right (node k s h l' r)

-- node->right = rotate_right(node->right); return rotate_left(node);
unfoldable pub rotate_right_left : AvlNode → Option AvlNode
unfolding rotate_left rotate_right
rotate_right_left null = none
rotate_right_left (node k s h l r) = rotate_right r >>= λ r'. rotate_left (node k s h l r')

abbrev pub left_of : AvlNode → AvlNode
left_of null = null
left_of (node k s h l r) = l

abbrev pub right_of : AvlNode → AvlNode
right_of null = null
right_of (node k s h l r) = r

-- The end of avl_insert_node. `left->key` is read only if balance > 1, `right->key` only if
-- balance < -1; the two outer tests exclude each other, so the four `if`s group in pairs.
unfoldable pub insert_fix : Sds → Double → AvlNode → Option AvlNode
unfolding compare_with
insert_fix key score n =
    let balance = get_balance n in
    if ltb_ℤ (pos 1) balance
    then (compare_with key score (left_of n) >>= λ cmp. elim cmp [
      | Ordering.lt ↦ rotate_right n
      | Ordering.gt ↦ rotate_left_right n
      | Ordering.eq ↦ some n
    ])
    else if ltb_ℤ balance (negsuc 0)
    then (compare_with key score (right_of n) >>= λ cmp. elim cmp [
      | Ordering.gt ↦ rotate_left n
      | Ordering.lt ↦ rotate_right_left n
      | Ordering.eq ↦ some n
    ])
    else some n

-- The new node and `*inserted`.
unfoldable pub avl_insert_node : AvlNode → Sds → Double → Option (AvlNode × Bool)
unfolding compare_nodes
avl_insert_node null key score = some (node key score 1 null null, true)
avl_insert_node (node k s h l r) key score = elim (sign (compare_nodes key score k s)) [
  | Ordering.lt ↦ avl_insert_node l key score >>= λ (l', inserted).
      insert_fix key score (update_height (node k s h l' r)) >>= λ n. some (n, inserted)
  | Ordering.gt ↦ avl_insert_node r key score >>= λ (r', inserted).
      insert_fix key score (update_height (node k s h l r')) >>= λ n. some (n, inserted)
  | Ordering.eq ↦ some (node k s h l r, false)
]

-- The key and score that `min_value_node` finds.
unfoldable pub min_value_node : AvlNode → Option (Sds × Double)
min_value_node null = none
min_value_node (node k s h null r) = some (k, s)
min_value_node (node k s h (node k' s' h' l' r') r) = min_value_node (node k' s' h' l' r')

-- The end of avl_delete_node, for a root that is not NULL.
unfoldable pub delete_fix : AvlNode → Option AvlNode
delete_fix n =
    let balance = get_balance n in
    if ltb_ℤ (pos 1) balance
    then if ltb_ℤ (get_balance (left_of n)) (pos 0) then rotate_left_right n else rotate_right n
    else if ltb_ℤ balance (negsuc 0)
    then if ltb_ℤ (pos 0) (get_balance (right_of n)) then rotate_right_left n else rotate_left n
    else some n

-- The node to delete is found: its place is taken by its only child, or it takes the key and score
-- of the least node on its right, which `delete_from_right` deletes there.
unfoldable pub delete_root :
    ℕ → AvlNode → AvlNode → (Sds → Double → Option (AvlNode × Bool)) → Option (AvlNode × Bool)
delete_root h null null delete_from_right = some (null, true)
delete_root h (node k s h' l r) null delete_from_right =
    delete_fix (update_height (node k s h' l r)) >>= λ n. some (n, true)
delete_root h null (node k s h' l r) delete_from_right =
    delete_fix (update_height (node k s h' l r)) >>= λ n. some (n, true)
delete_root h (node k₁ s₁ h₁ l₁ r₁) (node k₂ s₂ h₂ l₂ r₂) delete_from_right =
    min_value_node (node k₂ s₂ h₂ l₂ r₂) >>= λ (k, s). delete_from_right k s >>= λ (r', _).
    delete_fix (update_height (node k s h (node k₁ s₁ h₁ l₁ r₁) r')) >>= λ n. some (n, true)

-- The new subtree and whether `*deleted` was set.
unfoldable pub avl_delete_node : AvlNode → Sds → Double → Option (AvlNode × Bool)
unfolding compare_nodes delete_root
avl_delete_node null key score = some (null, false)
avl_delete_node (node k s h l r) key score = elim (sign (compare_nodes key score k s)) [
  | Ordering.lt ↦ avl_delete_node l key score >>= λ (l', deleted).
      delete_fix (update_height (node k s h l' r)) >>= λ n. some (n, deleted)
  | Ordering.gt ↦ avl_delete_node r key score >>= λ (r', deleted).
      delete_fix (update_height (node k s h l r')) >>= λ n. some (n, deleted)
  | Ordering.eq ↦ delete_root h l r (λ k' s'. avl_delete_node r k' s')
]

pub avl_create : AvlTree
avl_create = record { root = null; count = 0 }

unfoldable pub avl_insert : AvlTree → Sds → Double → Option (AvlTree × Bool)
unfolding avl_insert_node
avl_insert tree key score = avl_insert_node tree.root key score >>= λ (root, inserted). some (
  record { root = root; count = if inserted then (tree.count + 1) % 2 ^ 64 else tree.count },
  inserted,
)

-- `count` is a size_t.
unfoldable pub avl_delete : AvlTree → Sds → Double → Option (AvlTree × Bool)
unfolding avl_delete_node
avl_delete tree key score = avl_delete_node tree.root key score >>= λ (root, deleted). some (
  record {
    root = root;
    count = if deleted then (tree.count + 2 ^ 64 - 1) % 2 ^ 64 else tree.count;
  },
  deleted,
)

-- traverse_in_order with a callback that updates `*arg`, here the accumulator `a`.
unfoldable pub traverse_in_order {ℓ} : {A : Type ℓ} → AvlNode → (Sds → Double → A → A) → A → A
traverse_in_order null cb a = a
traverse_in_order (node k s h l r) cb a = traverse_in_order r cb (cb k s (traverse_in_order l cb a))

unfoldable pub avl_traverse {ℓ} : {A : Type ℓ} → AvlTree → (Sds → Double → A → A) → A → A
unfolding traverse_in_order
avl_traverse tree cb a = traverse_in_order tree.root cb a

-- The node found, and `*curr` afterwards.
unfoldable pub get_rank_rec : AvlNode → ℕ → ℕ → AvlNode × ℕ
get_rank_rec null rank curr = (null, curr)
get_rank_rec (node k s h l r) rank curr =
    let (res, curr') = get_rank_rec l rank curr in
    let rest = get_rank_rec r rank (curr' + 1) in
    if is_null res then if curr' == rank then (node k s h l r, curr') else rest else (res, curr')

unfoldable pub avl_get_by_rank : AvlTree → ℕ → AvlNode
unfolding get_rank_rec
avl_get_by_rank tree rank = if leb tree.count rank then null else (get_rank_rec tree.root rank 0).0
