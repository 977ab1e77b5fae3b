-- ===== src/Avl/Rank.antt =====
-- avl_traverse visits the entries in order, avl_get_by_rank finds the entry at an index, and the height
-- of a balanced tree is logarithmic.
use rediskrazy.Base.{
  ℕ, zero, suc, ◌+◌, ◌-◌, ◌/◌, ◌^◌, ◌<◌, ◌≤◌, ◌≡◌, refl, ◌∙◌, true, false, List, [], ◌∷◌, ◌++◌,
  length, get_elem?, arith, ap, sym, Option, some, none, length-append, get_elem?-append_left,
  get_elem?-append_right, dec_lt, dec_le, ℕ_discrete, le→leb, leb, ◌==◌,
}
use native.Mathlib.Nat.{pow-suc, pow-le-pow_right}
use rediskrazy.Sds.{Sds}
use rediskrazy.Double.{Double}
use rediskrazy.Avl.{
  AvlNode, AvlTree, null, node, is_null, get_height, avl_traverse, traverse_in_order, get_rank_rec,
  avl_get_by_rank,
}
use rediskrazy.Avl.Entries.{Entry}
use rediskrazy.Avl.Balance.{IsBalanced}
use rediskrazy.Avl.Contents.{entry, entries}
use rediskrazy.Avl.Tree.{IsValid}

-- The callback over a list of entries, first to last.
abbrev pub call_each {ℓ} : {A : Type ℓ} → (Sds → Double → A → A) → List Entry → A → A
call_each cb [] a = a
call_each cb (x ∷ xs) a = call_each cb xs (cb x.key x.score a)

call_each-append {ℓ} :
    {A : Type ℓ} (cb : Sds → Double → A → A) (xs ys : List Entry) (a : A)
    → call_each cb (xs ++ ys) a ≡ call_each cb ys (call_each cb xs a)
call_each-append cb [] ys a = refl
call_each-append cb (x ∷ xs) ys a = call_each-append cb xs ys (cb x.key x.score a)

traverse_in_order-entries {ℓ} :
    {A : Type ℓ} (t : AvlNode) (cb : Sds → Double → A → A) (a : A)
    → traverse_in_order t cb a ≡ call_each cb (entries t) a
unfolding traverse_in_order entries
traverse_in_order-entries null cb a = refl
traverse_in_order-entries (node k s h l r) cb a =
    traverse_in_order-entries r cb _
    ∙ ap (λ x. call_each cb (entries r) (cb k s x)) (traverse_in_order-entries l cb a)
    ∙ sym (call_each-append cb (entries l) (entry k s ∷ entries r) a)

-- avl_traverse calls the callback on the entries of the tree in order, each once.
pub avl_traverse-entries {ℓ} :
    {A : Type ℓ} (t : AvlTree) (cb : Sds → Double → A → A) (a : A)
    → avl_traverse t cb a ≡ call_each cb (entries t.root) a
unfolding avl_traverse
avl_traverse-entries t cb a = traverse_in_order-entries t.root cb a

abbrev pub entry_of : AvlNode → Option Entry
entry_of null = none
entry_of (node k s h l r) = some (entry k s)

-- With `*curr` at `curr`, the search for `curr + i` finds the entry at `i`, or counts all the entries.
abbrev Ranked : List Entry → ℕ → ℕ → AvlNode × ℕ → Type 0
Ranked l curr i r =
    (i < length l → (is_null r.0 ≡ false) × (entry_of r.0 ≡ get_elem? l i))
    × (length l ≤ i → (r.0 ≡ null) × (r.1 ≡ curr + length l))

get_rank_rec-Ranked :
    (t : AvlNode) (rank curr i : ℕ)
    → rank ≡ curr + i
    → Ranked (entries t) curr i (get_rank_rec t rank curr)
unfolding get_rank_rec entries
get_rank_rec-Ranked null rank curr i e = (λ p. absurd (omega arith), λ p. (refl, omega arith))
get_rank_rec-Ranked (node k s h l r) rank curr i e = elim (dec_lt i (length (entries l))) [
  | yes p ↦
      let (f, g) = (get_rank_rec-Ranked l rank curr i e).0 p in
      rw f (
        λ _. (f, g ∙ sym (get_elem?-append_left (entries l) (entry k s ∷ entries r) i p)),
        λ q. absurd (omega (arith, size)),
      )
  | no p ↦
      let (f, g) = (get_rank_rec-Ranked l rank curr i e).1 (omega arith) in
      elim (ℕ_discrete i (length (entries l))) [
        | yes q ↦
            let here : ((get_rank_rec l rank curr).1 == rank) ≡ true = ground arith in
            rw (ap is_null f, here)
              (
                λ _. (
                  refl,
                  sym (
                      get_elem?-append_right (entries l) (entry k s ∷ entries r) i 0 (omega arith)),
                ),
                λ u. absurd (omega (arith, size)),
              )
        | no q ↦
            let there : ((get_rank_rec l rank curr).1 == rank) ≡ false = ground arith in
            let j = i - (length (entries l) + 1) in
            let (found, past) =
              get_rank_rec-Ranked r rank ((get_rank_rec l rank curr).1 + 1) j (omega arith) in
            rw (ap is_null f, there)
              (
                λ u.
                    let (a, b) = found (omega (arith, size)) in
                    (
                      a,
                      b
                          ∙ sym (
                              get_elem?-append_right (entries l) (entry k s ∷ entries r) i (suc j)
                                (omega arith)),
                    ),
                λ u. let (a, b) = past (omega (arith, size)) in (a, omega (arith, size)),
              )
      ]
]
  where
    size :
        length (entries l ++ entry k s ∷ entries r) ≡ length (entries l) + (1 + length (entries r))
    size = omega (arith, length-append (entries l) (entry k s ∷ entries r))

get_elem?-past {ℓ} : {A : Type ℓ} (l : List A) (i : ℕ) → length l ≤ i → get_elem? l i ≡ none
get_elem?-past [] i h = refl
get_elem?-past (x ∷ l) zero h = absurd (omega arith)
get_elem?-past (x ∷ l) (suc i) h = get_elem?-past l i (omega arith)

-- In a valid tree avl_get_by_rank finds the entry at the index `rank` of the sorted list, and NULL from
-- its length on.
pub avl_get_by_rank-entries :
    (t : AvlTree) (rank : ℕ)
    → IsValid t
    → entry_of (avl_get_by_rank t rank) ≡ get_elem? (entries t.root) rank
unfolding avl_get_by_rank
avl_get_by_rank-entries t rank v = elim (dec_le t.count rank) [
  | yes p ↦
      rw (le→leb _ _ p) (sym (get_elem?-past (entries t.root) rank (omega (arith, v.counted))))
  | no p ↦
      let inside : leb t.count rank ≡ false = ground arith in
      rw inside
        (((get_rank_rec-Ranked t.root rank 0 rank (omega arith)).0 (omega (arith, v.counted))).1)
]

height_bound_step :
    (k a b n m : ℕ)
    → 2 ^ (a / 2) ≤ n + 1
    → 2 ^ (b / 2) ≤ m + 1
    → k ≤ a / 2 + 1
    → k ≤ b / 2 + 1
    → 2 ^ k ≤ n + suc m + 1
height_bound_step zero a b n m p q x y = omega arith
height_bound_step (suc j) a b n m p q x y =
    let u : 2 ^ j ≤ 2 ^ (a / 2) = pow-le-pow_right {n = 2} (omega arith) (omega arith) in
    let v : 2 ^ j ≤ 2 ^ (b / 2) = pow-le-pow_right {n = 2} (omega arith) (omega arith) in
    omega (arith, pow-suc 2 j)

height_bound : (t : AvlNode) → IsBalanced t → 2 ^ (get_height t / 2) ≤ length (entries t) + 1
unfolding entries
height_bound null b = omega arith
height_bound (node k s h l r) (b, b₁, b₂, b₃, b₄) =
    rw (length-append (entries l) (entry k s ∷ entries r)) (
      height_bound_step (h / 2) (get_height l) (get_height r) _ _ (height_bound l b₃)
        (height_bound r b₄) (omega arith) (omega arith))

-- The height h of a valid tree of n nodes satisfies 2 ^ (h / 2) ≤ n + 1.
pub height-le-count : (t : AvlTree) → IsValid t → 2 ^ (get_height t.root / 2) ≤ t.count + 1
height-le-count t v = rw v.counted (height_bound t.root v.balanced)
