-- ===== src/Avl/Contents.antt =====
-- What avl_insert_node and avl_delete_node do to the in-order list of a tree's entries.
use Prim.Native.Nat.{Ordering}
use Prim.Native.Nat.Ordering.{lt, eq, gt}
use rediskrazy.Base.{
  IfEnds, fails, ends_in, IfEnds-bind, IfEnds-map, IfEnds-if, anything, ◌≡◌, refl, ◌≢◌, ◌∙◌, Bool,
  not, List, [], ◌∷◌, ◌++◌, All, All-append, ap, sym, Option, some, append_assoc,
}
use rediskrazy.Base.Int.{sign, ltb_ℤ, pos, negsuc}
use rediskrazy.Sds.{Sds}
use rediskrazy.Double.{Double}
use rediskrazy.Avl.{
  AvlNode, null, node, compare_nodes, compare_with, update_height, get_balance, left_of, right_of,
  rotate_left, rotate_right, rotate_left_right, rotate_right_left, insert_fix, avl_insert_node,
  delete_fix,
}
use rediskrazy.Avl.Entries.{Entry, IsStorable, order, order-entry, IsSorted, insert_sorted, holds}
use rediskrazy.Avl.Lists.{
  AllAfter, AllBefore, insert_sorted-left, insert_sorted-past, insert_sorted-found, holds-past,
  holds-found, holds-after, after-AllAfter, before-AllBefore,
}

abbrev pub entry : Sds → Double → Entry
entry k s = record { key = k; score = s }

-- The entries in order.
unfoldable pub entries : AvlNode → List Entry
entries null = []
entries (node k s h l r) = entries l ++ entry k s ∷ entries r

abbrev pub Keeps : AvlNode → Option AvlNode → Type 0
Keeps t = IfEnds (λ t'. entries t' ≡ entries t)

entries-rotate_right : (t : AvlNode) → Keeps t (rotate_right t)
unfolding rotate_right entries
entries-rotate_right null = fails
entries-rotate_right (node k s h null r) = fails
entries-rotate_right (node k s h (node k' s' h' a b) r) = ends_in (simp append_assoc)

entries-rotate_left : (t : AvlNode) → Keeps t (rotate_left t)
unfolding rotate_left entries
entries-rotate_left null = fails
entries-rotate_left (node k s h l null) = fails
entries-rotate_left (node k s h l (node k' s' h' a b)) = ends_in (simp append_assoc)

entries-rotate_left_right : (t : AvlNode) → Keeps t (rotate_left_right t)
unfolding rotate_left_right
entries-rotate_left_right null = fails
entries-rotate_left_right (node k s h l r) = IfEnds-bind (entries-rotate_left l) λ l' e.
    IfEnds-map (entries-rotate_right (node k s h l' r))
      λ n f. f ∙ unfold entries in ap (λ x. x ++ entry k s ∷ entries r) e

entries-rotate_right_left : (t : AvlNode) → Keeps t (rotate_right_left t)
unfolding rotate_right_left
entries-rotate_right_left null = fails
entries-rotate_right_left (node k s h l r) = IfEnds-bind (entries-rotate_right r) λ r' e.
    IfEnds-map (entries-rotate_left (node k s h l r'))
      λ n f. f ∙ unfold entries in ap (λ x. entries l ++ entry k s ∷ x) e

Keeps-insert_fix : (key : Sds) (score : Double) (t : AvlNode) → Keeps t (insert_fix key score t)
unfolding insert_fix
Keeps-insert_fix key score t =
    IfEnds-if _ (IfEnds-bind (anything (compare_with key score (left_of t))) λ o _. by_left o) (
      IfEnds-if _ (IfEnds-bind (anything (compare_with key score (right_of t))) λ o _. by_right o)
        (ends_in refl))
  where
    by_left :
        (o : Ordering)
        → Keeps t (elim o [ lt ↦ rotate_right t | gt ↦ rotate_left_right t | eq ↦ some t ])
    by_left lt = entries-rotate_right t
    by_left gt = entries-rotate_left_right t
    by_left eq = ends_in refl

    by_right :
        (o : Ordering)
        → Keeps t (elim o [ gt ↦ rotate_left t | lt ↦ rotate_right_left t | eq ↦ some t ])
    by_right gt = entries-rotate_left t
    by_right lt = entries-rotate_right_left t
    by_right eq = ends_in refl

pub Keeps-delete_fix : (t : AvlNode) → Keeps t (delete_fix t)
unfolding delete_fix
Keeps-delete_fix t =
    IfEnds-if (ltb_ℤ (pos 1) (get_balance t))
      (IfEnds-if (ltb_ℤ (get_balance (left_of t)) (pos 0)) (entries-rotate_left_right t)
        (entries-rotate_right t))
      (IfEnds-if (ltb_ℤ (get_balance t) (negsuc 0))
        (IfEnds-if (ltb_ℤ (pos 0) (get_balance (right_of t))) (entries-rotate_right_left t)
          (entries-rotate_left t))
        (ends_in refl))

-- The facts about the two sides of a node in a sorted tree.
pub record Sides (e : Entry) (l : List Entry) (x : Entry) (r : List Entry) : Type 0 where
  pub sorted_left : IsSorted l
  pub sorted_right : IsSorted r
  pub stored_left : All IsStorable l
  pub stored : IsStorable x
  pub stored_right : All IsStorable r
  pub before : order e x ≢ lt → AllBefore e l
  pub after : order e x ≡ lt → AllAfter e r

IsSorted-append :
    (l : List Entry) (x : Entry) (r : List Entry)
    → IsSorted (l ++ x ∷ r)
    → IsSorted l × IsSorted r × All (λ y. order x y ≡ lt) r
IsSorted-append [] x r s = (tt, s.1, s.0)
IsSorted-append (y ∷ l) x r s =
    let (a, b, c) = IsSorted-append l x r s.1 in ((((All-append _ l (x ∷ r)).0 s.0).0, a), b, c)

pub sides :
    (e : Entry) (l : List Entry) (x : Entry) (r : List Entry)
    → IsStorable e
    → All IsStorable (l ++ x ∷ r)
    → IsSorted (l ++ x ∷ r)
    → Sides e l x r
sides e l x r he h s =
    let (hl, hxr) = (All-append IsStorable l (x ∷ r)).0 h in
    let (hx, hr) = hxr in
    let (sl, sr, ax) = IsSorted-append l x r s in
    record {
      sorted_left = sl;
      sorted_right = sr;
      stored_left = hl;
      stored = hx;
      stored_right = hr;
      before = before-AllBefore e he l x r hl hx s;
      after = after-AllAfter e he x r hx hr ax;
    }

-- The result of an insertion of `e` into a tree with the entries `l`.
abbrev pub InsertedInto : Entry → List Entry → AvlNode × Bool → Type 0
InsertedInto e l r = (entries r.0 ≡ insert_sorted e l) × (r.1 ≡ not (holds e l))

pub entries-avl_insert_node :
    (t : AvlNode) (key : Sds) (score : Double)
    → IsStorable (entry key score)
    → All IsStorable (entries t)
    → IsSorted (entries t)
    → IfEnds (InsertedInto (entry key score) (entries t)) (avl_insert_node t key score)
unfolding avl_insert_node entries
entries-avl_insert_node null key score he h s = unfold insert_sorted holds in ends_in (refl, refl)
entries-avl_insert_node (node k s h l r) key score he hs ss =
    let d = sides (entry key score) (entries l) (entry k s) (entries r) he hs ss in
    go (sign (compare_nodes key score k s)) refl d
      (entries-avl_insert_node l key score he d.stored_left d.sorted_left)
      (entries-avl_insert_node r key score he d.stored_right d.sorted_right)
  where
    new : Entry
    new = entry key score

    go :
        (o : Ordering)
        → sign (compare_nodes key score k s) ≡ o
        → Sides new (entries l) (entry k s) (entries r)
        → IfEnds (InsertedInto new (entries l)) (avl_insert_node l key score)
        → IfEnds (InsertedInto new (entries r)) (avl_insert_node r key score)
        → IfEnds
            (InsertedInto new (entries l ++ entry k s ∷ entries r))
            (avl_insert_node (node k s h l r) key score)
    go lt e d ihl ihr =
        let o = order-entry key score k s ∙ e in
        rw (e, avl_insert_node)
          (IfEnds-bind ihl λ (l', i) (p, q).
            IfEnds-bind (Keeps-insert_fix key score (update_height (node k s h l' r))) λ n f.
              ends_in (
                f
                    ∙ ap (λ y. y ++ entry k s ∷ entries r) p
                    ∙ sym (insert_sorted-left new (entries l) (entry k s) (entries r) o),
                q
                    ∙ ap not
                        (sym (holds-after new (entries l) (entry k s ∷ entries r) (o, d.after o))),
              ))
    go gt e d ihl ihr =
        let o = order-entry key score k s ∙ e in
        let b = d.before (λ w. cc) in
        rw (e, avl_insert_node)
          (IfEnds-bind ihr λ (r', i) (p, q).
            IfEnds-bind (Keeps-insert_fix key score (update_height (node k s h l r'))) λ n f.
              ends_in (
                f
                    ∙ ap (λ y. entries l ++ entry k s ∷ y) p
                    ∙ sym (insert_sorted-past new (entries l) (entry k s) (entries r) b o),
                q ∙ ap not (sym (holds-past new (entries l) (entry k s) (entries r) b o)),
              ))
    go eq e d ihl ihr =
        let o = order-entry key score k s ∙ e in
        let b = d.before (λ w. cc) in
        rw (e, avl_insert_node)
          (ends_in (
            sym (insert_sorted-found new (entries l) (entry k s) (entries r) b o),
            ap not (sym (holds-found new (entries l) (entry k s) (entries r) b o)),
          ))
