-- ===== src/Avl/Remove.antt =====
-- What avl_delete_node does to the in-order list of a tree's entries.
use Prim.Native.Nat.{Ordering}
use Prim.Native.Nat.Ordering.{lt, eq, gt}
use rediskrazy.Base.{
  IfEnds, fails, ends_in, IfEnds-bind, IfEnds-map, ℕ, ◌≡◌, refl, ◌∙◌, Bool, true, List, ◌∷◌, ◌++◌,
  All, arith, ap, sym, subst, Option, append-nil,
}
use rediskrazy.Base.Int.{sign}
use rediskrazy.Sds.{Sds}
use rediskrazy.Double.{Double}
use rediskrazy.Avl.{
  AvlNode, null, node, compare_nodes, update_height, delete_root, avl_delete_node, min_value_node,
}
use rediskrazy.Avl.Entries.{
  Entry, IsStorable, order-entry, order_refl, IsSorted, remove_sorted, holds,
}
use rediskrazy.Avl.Lists.{
  remove_sorted-left, remove_sorted-past, remove_sorted-found, holds-past, holds-found, holds-after,
}
use rediskrazy.Avl.Contents.{entry, entries, Keeps-delete_fix, Sides, sides}

-- min_value_node finds the first entry.
pub entries-min_value_node :
    (t : AvlNode)
    → IfEnds {A = Sds × Double}
        (λ m. (rest : List Entry) × (entries t ≡ entry m.0 m.1 ∷ rest))
        (min_value_node t)
unfolding min_value_node entries
entries-min_value_node null = fails
entries-min_value_node (node k s h null r) = ends_in (entries r, refl)
entries-min_value_node (node k s h (node k' s' h' l' r') r) =
    IfEnds-map (entries-min_value_node (node k' s' h' l' r'))
      λ m (rest, e). (rest ++ entry k s ∷ entries r, ap (λ x. x ++ entry k s ∷ entries r) e)

-- The result of a deletion of `e` from a tree with the entries `l`.
abbrev pub RemovedFrom : Entry → List Entry → AvlNode × Bool → Type 0
RemovedFrom e l r = (entries r.0 ≡ remove_sorted e l) × (r.1 ≡ holds e l)

entries-node :
    (k : Sds) (s : Double) (h : ℕ) (l r : AvlNode)
    → entries (node k s h l r) ≡ entries l ++ entry k s ∷ entries r
unfolding entries
entries-node k s h l r = refl

remove_sorted-first : (x : Entry) (l : List Entry) → IsStorable x → remove_sorted x (x ∷ l) ≡ l
unfolding remove_sorted
remove_sorted-first x l h = ground (arith, order_refl x h)

-- delete_root joins the entries of the two sides.
entries-delete_root :
    (h : ℕ) (l r : AvlNode) (delete_from_right : Sds → Double → Option (AvlNode × Bool))
    → All IsStorable (entries r)
    → ((k : Sds) (s : Double)
        → IsStorable (entry k s)
        → IfEnds (RemovedFrom (entry k s) (entries r)) (delete_from_right k s))
    → IfEnds {A = AvlNode × Bool}
        (λ t. (entries t.0 ≡ entries l ++ entries r) × (t.1 ≡ true))
        (delete_root h l r delete_from_right)
unfolding delete_root
entries-delete_root h null null del hr d = unfold entries in ends_in (refl, refl)
entries-delete_root h (node k s h' l r) null del hr d =
    IfEnds-bind (Keeps-delete_fix (update_height (node k s h' l r)))
      λ n f. ends_in (f ∙ unfold entries in sym (append-nil _), refl)
entries-delete_root h null (node k s h' l r) del hr d =
    IfEnds-bind (Keeps-delete_fix (update_height (node k s h' l r)))
      λ n f. ends_in (f ∙ unfold entries in refl, refl)
entries-delete_root h (node k₁ s₁ h₁ l₁ r₁) (node k₂ s₂ h₂ l₂ r₂) del hr d =
    IfEnds-bind (entries-min_value_node (node k₂ s₂ h₂ l₂ r₂)) λ (k, s) (rest, e).
      let hs : All IsStorable (entry k s ∷ rest) = subst (All IsStorable) e hr in
      IfEnds-bind (d k s hs.0) λ (r', _) (p, q).
        IfEnds-bind (Keeps-delete_fix (update_height (node k s h (node k₁ s₁ h₁ l₁ r₁) r'))) λ n f.
          let first =
            p ∙ ap (remove_sorted (entry k s)) e ∙ remove_sorted-first (entry k s) rest hs.0 in
          ends_in (
            f
                ∙ entries-node k s _ (node k₁ s₁ h₁ l₁ r₁) r'
                ∙ ap (λ y. entries (node k₁ s₁ h₁ l₁ r₁) ++ y) (ap (◌∷◌ (entry k s)) first ∙ sym e),
            refl,
          )

pub entries-avl_delete_node :
    (t : AvlNode) (key : Sds) (score : Double)
    → IsStorable (entry key score)
    → All IsStorable (entries t)
    → IsSorted (entries t)
    → IfEnds (RemovedFrom (entry key score) (entries t)) (avl_delete_node t key score)
unfolding avl_delete_node entries
entries-avl_delete_node null key score he h s = unfold remove_sorted holds in ends_in (refl, refl)
entries-avl_delete_node (node k s h l r) key score he hs ss =
    let d = sides (entry key score) (entries l) (entry k s) (entries r) he hs ss in
    go (sign (compare_nodes key score k s)) refl d
      (entries-avl_delete_node l key score he d.stored_left d.sorted_left)
      (λ k' s' h'. entries-avl_delete_node r k' s' h' d.stored_right d.sorted_right)
  where
    old : Entry
    old = entry key score

    go :
        (o : Ordering)
        → sign (compare_nodes key score k s) ≡ o
        → Sides old (entries l) (entry k s) (entries r)
        → IfEnds (RemovedFrom old (entries l)) (avl_delete_node l key score)
        → ((k' : Sds) (s' : Double)
            → IsStorable (entry k' s')
            → IfEnds (RemovedFrom (entry k' s') (entries r)) (avl_delete_node r k' s'))
        → IfEnds
            (RemovedFrom old (entries l ++ entry k s ∷ entries r))
            (avl_delete_node (node k s h l r) key score)
    go lt e d ihl ihr =
        let o = order-entry key score k s ∙ e in
        rw (e, avl_delete_node)
          (IfEnds-bind ihl λ (l', i) (p, q).
            IfEnds-bind (Keeps-delete_fix (update_height (node k s h l' r))) λ n f. ends_in (
              f
                  ∙ ap (λ y. y ++ entry k s ∷ entries r) p
                  ∙ sym (remove_sorted-left old (entries l) (entry k s) (entries r) o),
              q ∙ sym (holds-after old (entries l) (entry k s ∷ entries r) (o, d.after o)),
            ))
    go gt e d ihl ihr =
        let o = order-entry key score k s ∙ e in
        let b = d.before (λ w. cc) in
        rw (e, avl_delete_node)
          (IfEnds-bind (ihr key score he) λ (r', i) (p, q).
            IfEnds-bind (Keeps-delete_fix (update_height (node k s h l r'))) λ n f. ends_in (
              f
                  ∙ ap (λ y. entries l ++ entry k s ∷ y) p
                  ∙ sym (remove_sorted-past old (entries l) (entry k s) (entries r) b o),
              q ∙ sym (holds-past old (entries l) (entry k s) (entries r) b o),
            ))
    go eq e d ihl ihr =
        let o = order-entry key score k s ∙ e in
        let b = d.before (λ w. cc) in
        rw (e, avl_delete_node)
          (IfEnds-map (entries-delete_root h l r _ d.stored_right ihr) λ n (p, q). (
            p ∙ sym (remove_sorted-found old (entries l) (entry k s) (entries r) b o),
            q ∙ sym (holds-found old (entries l) (entry k s) (entries r) b o),
          ))
