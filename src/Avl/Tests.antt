-- ===== src/Avl/Tests.antt =====
-- Runs of the AVL tree, and its theorems at concrete trees.
use rediskrazy.Base.{
  ◌>>=◌, Ends, ◌+◌, ◌/◌, ◌^◌, ◌≤◌, ◌≡◌, refl, true, not, some, get_elem?, arith, codes,
}
use rediskrazy.Sds.{Sds, memcmp, sdscmp}
use rediskrazy.Double.{Double, is_nan, double_lt}
use rediskrazy.Avl.{
  AvlNode, AvlTree, null, node, get_height, avl_insert, avl_delete, avl_get_by_rank, avl_create,
  compare_nodes, avl_insert_node, avl_delete_node, insert_fix, delete_fix, rotate_left, max_int,
  delete_root, min_value_node,
}
use rediskrazy.Avl.Entries.{Entry, IsStorable, order, insert_sorted, remove_sorted, holds}
use rediskrazy.Avl.Contents.{entry, entries}
use rediskrazy.Avl.Tree.{IsValid, Becomes, avl_insert_correct, avl_delete_correct}
use rediskrazy.Avl.Rank.{entry_of, avl_get_by_rank-entries}
use rediskrazy.Avl.Runs.{Change, insert, delete, changed, change_all, change_all_correct}
use rediskrazy.Base.{List, [], ◌∷◌, length}

-- 1.0, 2.0 and 3.0
abbrev one : Double
one = 4607182418800017408

abbrev two : Double
two = 4611686018427387904

abbrev three : Double
three = 4613937818241073152

abbrev leaf : Sds → Double → AvlNode
leaf k s = node k s 1 null null

abbrev sample : AvlTree
sample = record {
  root = node (codes "b") two 2 (leaf (codes "a") one) (leaf (codes "c") three);
  count = 3;
}

-- Three insertions in ascending order rotate to the left.
insert_ascending :
    ((avl_insert avl_create (codes "a") one >>= λ (t, _). avl_insert t (codes "b") two)
      >>= λ (t, _). avl_insert t (codes "c") three)
    ≡ some (sample, true)
unfolding avl_insert avl_create avl_insert_node insert_fix rotate_left max_int double_lt sdscmp
insert_ascending = refl

-- The root goes, and its successor takes its place.
delete_root_node :
    avl_delete sample (codes "b") two
    ≡ some (record { root = node (codes "c") three 2 (leaf (codes "a") one) null; count = 2 }, true)
unfolding avl_delete avl_delete_node delete_root delete_fix min_value_node max_int double_lt sdscmp
delete_root_node = refl

sample-IsValid : IsValid sample
unfolding entries order compare_nodes double_lt is_nan
sample-IsValid = record {
  balanced = (
    omega arith,
    omega arith,
    omega arith,
    (refl, omega arith, omega arith, tt, tt),
    (refl, omega arith, omega arith, tt, tt),
  );
  stored = (
    record { short = omega arith; number = refl },
    (
      record { short = omega arith; number = refl },
      (record { short = omega arith; number = refl }, tt),
    ),
  );
  sorted = ((refl, (refl, tt)), ((refl, tt), (tt, tt)));
  counted = refl;
  small = omega arith;
}

abbrev d : Entry
d = entry (codes "d") two

d-IsStorable : IsStorable d
unfolding is_nan
d-IsStorable = record { short = omega arith; number = refl }

abbrev e : Entry
e = entry (codes "e") one

e-IsStorable : IsStorable e
unfolding is_nan
e-IsStorable = record { short = omega arith; number = refl }

avl_insert_correct_example :
    Ends
      (Becomes (insert_sorted d (entries sample.root)) (not (holds d (entries sample.root))))
      (avl_insert sample (codes "d") two)
avl_insert_correct_example =
    avl_insert_correct sample (codes "d") two sample-IsValid d-IsStorable (omega arith)

avl_delete_correct_example :
    Ends
      (Becomes (remove_sorted d (entries sample.root)) (holds d (entries sample.root)))
      (avl_delete sample (codes "d") two)
avl_delete_correct_example = avl_delete_correct sample (codes "d") two sample-IsValid d-IsStorable

avl_get_by_rank-entries_example :
    entry_of (avl_get_by_rank sample 1) ≡ get_elem? (entries sample.root) 1
avl_get_by_rank-entries_example = avl_get_by_rank-entries sample 1 sample-IsValid

-- One entry is put in twice, another one once, and the first is taken out.
abbrev some_changes : List Change
some_changes = insert d ∷ insert d ∷ insert e ∷ delete d ∷ []

change_all_correct_example :
    Ends
      (λ t.
        (entries t.root ≡ changed [] some_changes)
        × (t.count ≡ length (changed [] some_changes))
        × (2 ^ (get_height t.root / 2) ≤ length (changed [] some_changes) + 1))
      (change_all avl_create some_changes)
change_all_correct_example =
    change_all_correct some_changes
      (d-IsStorable, (d-IsStorable, (e-IsStorable, (d-IsStorable, tt)))) (omega arith)

one_left : changed [] some_changes ≡ e ∷ []
unfolding insert_sorted remove_sorted order compare_nodes double_lt is_nan sdscmp memcmp
one_left = refl
