-- ===== src/Avl/Entries.antt =====
-- The order that compare_nodes puts on the nodes, and sorted lists of entries under it.
use Prim.Native.Nat.{Ordering}
use Prim.Native.Nat.Ordering.{lt, eq, gt}
use rediskrazy.Base.{
  ◌^◌, ◌<◌, ◌≡◌, refl, ◌≢◌, ◌∙◌, Bool, true, false, List, [], ◌∷◌, ltb, if◌then◌else◌, length, All,
  arith, sym,
}
use rediskrazy.Base.Int.{sign}
use rediskrazy.Sds.{Sds}
use rediskrazy.Sds.Order.{lex, sdscmp-lex, lex_refl, lex_swap, lex_trans, eq_of_lex}
use rediskrazy.Double.{Double, is_nan, place, double_lt}
use rediskrazy.Avl.{compare_nodes}

-- What a node holds.
pub record Entry : Type 0 where
  pub key : Sds
  pub score : Double

-- A key that fits an sds header, and a score that is not NaN.
pub record IsStorable (e : Entry) : Type 0 where
  pub short : length e.key < 2 ^ 31
  pub number : is_nan e.score ≡ false

-- The sign of compare_nodes(a, b).
unfoldable pub order : Entry → Entry → Ordering
order a b = sign (compare_nodes a.key a.score b.key b.score)

pub order-entry :
    (key : Sds) (score : Double) (k : Sds) (s : Double)
    → order (record { key = key; score = score }) (record { key = k; score = s })
      ≡ sign (compare_nodes key score k s)
unfolding order
order-entry key score k s = refl

-- By score, then by key.
by_score : Entry → Entry → Ordering
by_score a b =
    if ltb (place a.score) (place b.score)
    then lt
    else if ltb (place b.score) (place a.score)
    then gt
    else lex a.key b.key

order-by_score : (a b : Entry) → IsStorable a → IsStorable b → order a b ≡ by_score a b
unfolding order by_score compare_nodes double_lt
order-by_score a b ha hb = ground (arith, sdscmp-lex a.key b.key)

by_score_swap :
    (a b : Entry)
    → (by_score a b ≡ lt → by_score b a ≡ gt) × (by_score a b ≡ gt → by_score b a ≡ lt)
unfolding by_score
by_score_swap a b = ground (arith, lex_swap a.key b.key)

by_score_trans : (a b c : Entry) → by_score a b ≡ lt → by_score b c ≡ lt → by_score a c ≡ lt
unfolding by_score
by_score_trans a b c h k = ground (arith, lex_trans a.key b.key c.key)

by_score_above : (y x e : Entry) → by_score y x ≡ lt → by_score e x ≢ lt → by_score e y ≡ gt
unfolding by_score
by_score_above y x e h k = ground (
  arith,
  lex_swap y.key x.key,
  lex_swap e.key x.key,
  lex_swap y.key e.key,
  eq_of_lex e.key x.key,
  lex_trans y.key x.key e.key,
)

pub order_refl : (a : Entry) → IsStorable a → order a a ≡ eq
unfolding by_score
order_refl a h = order-by_score a a h h ∙ ground (arith, lex_refl a.key)

pub order_swap_gt : (a b : Entry) → IsStorable a → IsStorable b → order a b ≡ gt → order b a ≡ lt
order_swap_gt a b ha hb h =
    order-by_score b a hb ha ∙ (by_score_swap a b).1 (sym (order-by_score a b ha hb) ∙ h)

pub order_swap_lt : (a b : Entry) → IsStorable a → IsStorable b → order a b ≡ lt → order b a ≡ gt
order_swap_lt a b ha hb h =
    order-by_score b a hb ha ∙ (by_score_swap a b).0 (sym (order-by_score a b ha hb) ∙ h)

pub order_trans :
    (a b c : Entry)
    → IsStorable a
    → IsStorable b
    → IsStorable c
    → order a b ≡ lt
    → order b c ≡ lt
    → order a c ≡ lt
order_trans a b c ha hb hc h k =
    order-by_score a c ha hc
    ∙ by_score_trans a b c (sym (order-by_score a b ha hb) ∙ h) (sym (order-by_score b c hb hc) ∙ k)

pub order_above :
    (y x e : Entry)
    → IsStorable y
    → IsStorable x
    → IsStorable e
    → order y x ≡ lt
    → order e x ≢ lt
    → order e y ≡ gt
order_above y x e hy hx he h k =
    order-by_score e y he hy
    ∙ by_score_above y x e (sym (order-by_score y x hy hx) ∙ h)
        (λ p. k (order-by_score e x he hx ∙ p))

-- Strictly ascending under `order`.
abbrev pub IsSorted : List Entry → Type 0
IsSorted [] = Unit
IsSorted (x ∷ xs) = All (λ y. order x y ≡ lt) xs × IsSorted xs

-- What an insertion does to the sorted list: an entry that compares equal stays.
unfoldable pub insert_sorted : Entry → List Entry → List Entry
insert_sorted e [] = e ∷ []
insert_sorted e (x ∷ xs) = elim (order e x) [
  | lt ↦ e ∷ x ∷ xs
  | eq ↦ x ∷ xs
  | gt ↦ x ∷ insert_sorted e xs
]

-- What a deletion does: the entry that compares equal goes.
unfoldable pub remove_sorted : Entry → List Entry → List Entry
remove_sorted e [] = []
remove_sorted e (x ∷ xs) = elim (order e x) [ lt ↦ x ∷ xs | eq ↦ xs | gt ↦ x ∷ remove_sorted e xs ]

-- Whether some entry compares equal.
unfoldable pub holds : Entry → List Entry → Bool
holds e [] = false
holds e (x ∷ xs) = elim (order e x) [ eq ↦ true | _ ↦ holds e xs ]
