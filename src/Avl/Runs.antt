-- ===== src/Avl/Runs.antt =====
-- Any insertions and deletions, from avl_create on.
use rediskrazy.Base.{
  ◌>>=◌, ◌+◌, ◌/◌, ◌^◌, ◌<◌, ◌≤◌, ◌≡◌, refl, ◌∙◌, Option, some, List, [], ◌∷◌, length, arith, ap,
  All, Ends, ends, Ends-bind, Ends-map,
}
use rediskrazy.Avl.{AvlTree, avl_create, avl_insert, avl_delete, get_height}
use rediskrazy.Avl.Entries.{Entry, IsStorable, insert_sorted, remove_sorted}
use rediskrazy.Avl.Lists.{length-insert_sorted, length-remove_sorted}
use rediskrazy.Avl.Contents.{entries}
use rediskrazy.Avl.Tree.{IsValid, avl_insert_correct, avl_delete_correct}
use rediskrazy.Avl.Rank.{height-le-count}

-- A call of avl_insert or avl_delete.
pub data Change : Type 0 where
  insert delete : Entry → Change

abbrev pub entry_in : Change → Entry
entry_in (insert e) = e
entry_in (delete e) = e

abbrev pub change_all : AvlTree → List Change → Option AvlTree
change_all t [] = some t
change_all t (insert e ∷ l) = avl_insert t e.key e.score >>= λ (t, _). change_all t l
change_all t (delete e ∷ l) = avl_delete t e.key e.score >>= λ (t, _). change_all t l

-- The same of a sorted list.
abbrev pub changed : List Entry → List Change → List Entry
changed m [] = m
changed m (insert e ∷ l) = changed (insert_sorted e m) l
changed m (delete e ∷ l) = changed (remove_sorted e m) l

avl_create-IsValid : IsValid avl_create
unfolding entries avl_create
avl_create-IsValid = record {
  balanced = tt;
  stored = tt;
  sorted = tt;
  counted = refl;
  small = omega arith;
}

change_all-IsValid :
    (t : AvlTree) (l : List Change)
    → IsValid t
    → All (λ c. IsStorable (entry_in c)) l
    → t.count + length l < 2 ^ 64
    → Ends (λ t'. IsValid t' × (entries t'.root ≡ changed (entries t.root) l)) (change_all t l)
change_all-IsValid t [] v a s = ends (v, refl)
change_all-IsValid t (insert e ∷ l) v (h, a) s =
    Ends-bind (avl_insert_correct t e.key e.score v h (omega arith)) λ (t', _) (v', order, _).
      let grown = length-insert_sorted e h (entries t.root) v.stored v.sorted in
      let room : t'.count ≤ t.count + 1 =
        ground (arith, v.counted, v'.counted, ap length order, grown) in
      Ends-map (change_all-IsValid t' l v' a (omega (arith, room)))
        λ t'' (w, e'). (w, e' ∙ ap (λ m. changed m l) order)
change_all-IsValid t (delete e ∷ l) v (h, a) s =
    Ends-bind (avl_delete_correct t e.key e.score v h) λ (t', _) (v', order, _).
      let shrunk = length-remove_sorted e h (entries t.root) v.stored v.sorted in
      let room : t'.count ≤ t.count =
        ground (arith, v.counted, v'.counted, ap length order, shrunk) in
      Ends-map (change_all-IsValid t' l v' a (omega (arith, room)))
        λ t'' (w, e'). (w, e' ∙ ap (λ m. changed m l) order)

-- Any insertions and deletions of entries that can be stored, fewer than 2 ^ 64, from an empty tree on, read no NULL: the tree has the entries that
-- the same changes of a sorted list give, their number n is its count, and its height h satisfies 2 ^ (h / 2) ≤ n + 1.
pub change_all_correct :
    (l : List Change)
    → All (λ c. IsStorable (entry_in c)) l
    → length l < 2 ^ 64
    → Ends
        (λ t.
          (entries t.root ≡ changed [] l)
          × (t.count ≡ length (changed [] l))
          × (2 ^ (get_height t.root / 2) ≤ length (changed [] l) + 1))
        (change_all avl_create l)
unfolding entries avl_create
change_all_correct l a s =
    Ends-map (change_all-IsValid avl_create l avl_create-IsValid a (omega arith)) λ t (v, order).
      let number = v.counted ∙ ap length order in
      (order, number, omega (arith, height-le-count t v, number))
