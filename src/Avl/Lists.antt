-- ===== src/Avl/Lists.antt =====
-- How insertion, deletion and search in a sorted list of entries act on the two sides of an entry.
use Prim.Native.Nat.Ordering.{lt, eq, gt}
use rediskrazy.Base.{
  ◌+◌, ◌≡◌, refl, ◌≢◌, true, List, [], ◌∷◌, ◌++◌, if◌then◌else◌, length, All, All-append, arith,
}
use rediskrazy.Avl.Entries.{
  Entry, IsStorable, order, order_swap_gt, order_trans, order_above, IsSorted, insert_sorted,
  remove_sorted, holds,
}

module _ (e : Entry) where
  abbrev pub AllAfter : List Entry → Type 0
  AllAfter = All (λ y. order e y ≡ lt)

  abbrev pub AllBefore : List Entry → Type 0
  AllBefore = All (λ y. order e y ≡ gt)

  pub insert_sorted-left :
      (l : List Entry) (x : Entry) (r : List Entry)
      → order e x ≡ lt
      → insert_sorted e (l ++ x ∷ r) ≡ insert_sorted e l ++ x ∷ r
  unfolding insert_sorted
  insert_sorted-left [] x r h = ground arith
  insert_sorted-left (y ∷ l) x r h = ground (arith, insert_sorted-left l x r)

  pub insert_sorted-past :
      (l : List Entry) (x : Entry) (r : List Entry)
      → AllBefore l
      → order e x ≡ gt
      → insert_sorted e (l ++ x ∷ r) ≡ l ++ x ∷ insert_sorted e r
  unfolding insert_sorted
  insert_sorted-past [] x r h k = ground arith
  insert_sorted-past (y ∷ l) x r h k = ground (arith, insert_sorted-past l x r)

  pub insert_sorted-found :
      (l : List Entry) (x : Entry) (r : List Entry)
      → AllBefore l
      → order e x ≡ eq
      → insert_sorted e (l ++ x ∷ r) ≡ l ++ x ∷ r
  unfolding insert_sorted
  insert_sorted-found [] x r h k = ground arith
  insert_sorted-found (y ∷ l) x r h k = ground (arith, insert_sorted-found l x r)

  pub remove_sorted-left :
      (l : List Entry) (x : Entry) (r : List Entry)
      → order e x ≡ lt
      → remove_sorted e (l ++ x ∷ r) ≡ remove_sorted e l ++ x ∷ r
  unfolding remove_sorted
  remove_sorted-left [] x r h = ground arith
  remove_sorted-left (y ∷ l) x r h = ground (arith, remove_sorted-left l x r)

  pub remove_sorted-past :
      (l : List Entry) (x : Entry) (r : List Entry)
      → AllBefore l
      → order e x ≡ gt
      → remove_sorted e (l ++ x ∷ r) ≡ l ++ x ∷ remove_sorted e r
  unfolding remove_sorted
  remove_sorted-past [] x r h k = ground arith
  remove_sorted-past (y ∷ l) x r h k = ground (arith, remove_sorted-past l x r)

  pub remove_sorted-found :
      (l : List Entry) (x : Entry) (r : List Entry)
      → AllBefore l
      → order e x ≡ eq
      → remove_sorted e (l ++ x ∷ r) ≡ l ++ r
  unfolding remove_sorted
  remove_sorted-found [] x r h k = ground arith
  remove_sorted-found (y ∷ l) x r h k = ground (arith, remove_sorted-found l x r)

  pub holds-past :
      (l : List Entry) (x : Entry) (r : List Entry)
      → AllBefore l
      → order e x ≡ gt
      → holds e (l ++ x ∷ r) ≡ holds e r
  unfolding holds
  holds-past [] x r h k = ground arith
  holds-past (y ∷ l) x r h k = ground (arith, holds-past l x r)

  pub holds-found :
      (l : List Entry) (x : Entry) (r : List Entry)
      → AllBefore l
      → order e x ≡ eq
      → holds e (l ++ x ∷ r) ≡ true
  unfolding holds
  holds-found [] x r h k = ground arith
  holds-found (y ∷ l) x r h k = ground (arith, holds-found l x r)

  pub holds-after : (l r : List Entry) → AllAfter r → holds e (l ++ r) ≡ holds e l
  unfolding holds
  holds-after [] [] h = refl
  holds-after [] (x ∷ r) h = ground (arith, holds-after [] r)
  holds-after (y ∷ l) r h = ground (arith, holds-after l r)

  pub All-insert_sorted {ℓ} :
      (P : Entry → Type ℓ) (l : List Entry) → P e → All P l → All P (insert_sorted e l)
  unfolding insert_sorted
  All-insert_sorted P [] p h = (p, tt)
  All-insert_sorted P (x ∷ l) p h = ground (arith, All-insert_sorted P l)

  pub All-remove_sorted {ℓ} :
      (P : Entry → Type ℓ) (l : List Entry) → All P l → All P (remove_sorted e l)
  unfolding remove_sorted
  All-remove_sorted P [] h = tt
  All-remove_sorted P (x ∷ l) h = ground (arith, All-remove_sorted P l)

-- Facts that need the order to be one.
module _ (e : Entry) (he : IsStorable e) where
  -- What stands behind an entry that comes after `e` comes after `e`.
  pub after-AllAfter :
      (x : Entry) (r : List Entry)
      → IsStorable x
      → All IsStorable r
      → All (λ y. order x y ≡ lt) r
      → order e x ≡ lt
      → AllAfter e r
  after-AllAfter x [] hx hr s h = tt
  after-AllAfter x (y ∷ r) hx hr s h =
      (order_trans e x y he hx hr.0 h s.0, after-AllAfter x r hx hr.1 s.1 h)

  -- What stands before an entry that does not come after `e` comes before `e`.
  pub before-AllBefore :
      (l : List Entry) (x : Entry) (r : List Entry)
      → All IsStorable l
      → IsStorable x
      → IsSorted (l ++ x ∷ r)
      → order e x ≢ lt
      → AllBefore e l
  before-AllBefore [] x r hl hx s h = tt
  before-AllBefore (y ∷ l) x r hl hx s h = (
    order_above y x e hl.0 hx he ((All-append _ l (x ∷ r)).0 s.0).1.0 h,
    before-AllBefore l x r hl.1 hx s.1 h,
  )

  pub insert_sorted-IsSorted :
      (l : List Entry) → All IsStorable l → IsSorted l → IsSorted (insert_sorted e l)
  unfolding insert_sorted
  insert_sorted-IsSorted [] hl s = (tt, tt)
  insert_sorted-IsSorted (x ∷ l) hl s = ground (
    arith,
    after-AllAfter x l hl.0 hl.1 s.0,
    All-insert_sorted e (λ y. order x y ≡ lt) l,
    order_swap_gt e x he hl.0,
    insert_sorted-IsSorted l hl.1 s.1,
  )

  pub length-insert_sorted :
      (l : List Entry)
      → All IsStorable l
      → IsSorted l
      → length (insert_sorted e l) ≡ length l + (if holds e l then 0 else 1)
  unfolding insert_sorted holds
  length-insert_sorted [] hl s = omega arith
  length-insert_sorted (x ∷ l) hl s =
      ground (
        arith,
        after-AllAfter x l hl.0 hl.1 s.0,
        holds-after e [] l,
        length-insert_sorted l hl.1 s.1,
      )

  pub length-remove_sorted :
      (l : List Entry)
      → All IsStorable l
      → IsSorted l
      → length l ≡ length (remove_sorted e l) + (if holds e l then 1 else 0)
  unfolding remove_sorted holds
  length-remove_sorted [] hl s = omega arith
  length-remove_sorted (x ∷ l) hl s =
      ground (
        arith,
        after-AllAfter x l hl.0 hl.1 s.0,
        holds-after e [] l,
        length-remove_sorted l hl.1 s.1,
      )

pub remove_sorted-IsSorted :
    (e : Entry) (l : List Entry) → IsSorted l → IsSorted (remove_sorted e l)
unfolding remove_sorted
remove_sorted-IsSorted e [] s = tt
remove_sorted-IsSorted e (x ∷ l) s =
    ground (arith, All-remove_sorted e (λ y. order x y ≡ lt) l, remove_sorted-IsSorted e l)
