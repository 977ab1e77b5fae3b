-- ===== src/Avl/Tree.antt =====
-- avl_insert, avl_delete, avl_traverse and avl_get_by_rank against the sorted list of entries.
use rediskrazy.Base.{
  Ends-and, Ends, ends, Ends-bind, ℕ, ◌+◌, ◌-◌, ◌%◌, ◌^◌, ◌<◌, ◌≡◌, ◌∙◌, Bool, not, List,
  if◌then◌else◌, length, All, arith, ap, sym, subst,
}
use rediskrazy.Sds.{Sds}
use rediskrazy.Double.{Double}
use rediskrazy.Avl.{AvlTree, avl_insert, avl_delete}
use rediskrazy.Avl.Entries.{Entry, IsStorable, IsSorted, insert_sorted, remove_sorted, holds}
use rediskrazy.Avl.Balance.{IsBalanced}
use rediskrazy.Avl.Insert.{avl_insert_node-IsBalanced}
use rediskrazy.Avl.Delete.{avl_delete_node-IsBalanced}
use rediskrazy.Avl.Lists.{
  insert_sorted-IsSorted, remove_sorted-IsSorted, length-insert_sorted, length-remove_sorted,
  All-insert_sorted, All-remove_sorted,
}
use rediskrazy.Avl.Contents.{entry, entries, entries-avl_insert_node}
use rediskrazy.Avl.Remove.{entries-avl_delete_node}

-- The tree is a balanced search tree of storable entries, and `count` is their number.
pub record IsValid (t : AvlTree) : Type 0 where
  pub balanced : IsBalanced t.root
  pub stored : All IsStorable (entries t.root)
  pub sorted : IsSorted (entries t.root)
  pub counted : t.count ≡ length (entries t.root)
  pub small : t.count < 2 ^ 64

-- `r` is a valid tree with the entries `l`, and the flag `b`.
abbrev pub Becomes : List Entry → Bool → AvlTree × Bool → Type 0
Becomes l b r = IsValid r.0 × (entries r.0.root ≡ l) × (r.1 ≡ b)

count_inserted :
    (c n n' : ℕ) (h b : Bool)
    → c ≡ n
    → n' ≡ n + (if h then 0 else 1)
    → b ≡ not h
    → c + 1 < 2 ^ 64
    → ((if b then (c + 1) % 2 ^ 64 else c) ≡ n') × ((if b then (c + 1) % 2 ^ 64 else c) < 2 ^ 64)
count_inserted c n n' h b p q r s = ground arith

count_deleted :
    (c n n' : ℕ) (h b : Bool)
    → c ≡ n
    → n ≡ n' + (if h then 1 else 0)
    → b ≡ h
    → c < 2 ^ 64
    → ((if b then (c + 2 ^ 64 - 1) % 2 ^ 64 else c) ≡ n')
      × ((if b then (c + 2 ^ 64 - 1) % 2 ^ 64 else c) < 2 ^ 64)
count_deleted c n n' h b p q r s = ground arith

-- In a valid tree whose count is below 2 ^ 64 - 1, avl_insert of a storable entry reads no NULL and
-- returns a valid tree; its entries are those of the insertion into the sorted list, and the result
-- is 1 exactly if no entry compared equal.
pub avl_insert_correct :
    (t : AvlTree) (key : Sds) (score : Double)
    → IsValid t
    → IsStorable (entry key score)
    → t.count + 1 < 2 ^ 64
    → Ends
        (Becomes
          (insert_sorted (entry key score) (entries t.root))
          (not (holds (entry key score) (entries t.root))))
        (avl_insert t key score)
unfolding avl_insert
avl_insert_correct t key score v he room =
    let new = entry key score in
    let old = entries t.root in
    Ends-bind
      (Ends-and (avl_insert_node-IsBalanced t.root key score v.balanced)
        (entries-avl_insert_node t.root key score he v.stored v.sorted))
      λ (root, inserted) (b, (e, f)).
        let grown = ap length e ∙ length-insert_sorted new he old v.stored v.sorted in
        let c = count_inserted t.count _ _ (holds new old) inserted v.counted grown f room in
        ends (
          record {
            balanced = b.0;
            stored =
                subst (All IsStorable) (sym e) (All-insert_sorted new IsStorable old he v.stored);
            sorted = subst IsSorted (sym e) (insert_sorted-IsSorted new he old v.stored v.sorted);
            counted = c.0;
            small = c.1;
          },
          e,
          f,
        )

-- In a valid tree, avl_delete of a storable entry reads no NULL and returns a valid tree; its entries
-- are those of the removal from the sorted list, and the result is 1 exactly if an entry compared
-- equal.
pub avl_delete_correct :
    (t : AvlTree) (key : Sds) (score : Double)
    → IsValid t
    → IsStorable (entry key score)
    → Ends
        (Becomes
          (remove_sorted (entry key score) (entries t.root))
          (holds (entry key score) (entries t.root)))
        (avl_delete t key score)
unfolding avl_delete
avl_delete_correct t key score v he =
    let gone = entry key score in
    let old = entries t.root in
    Ends-bind
      (Ends-and (avl_delete_node-IsBalanced t.root key score v.balanced)
        (entries-avl_delete_node t.root key score he v.stored v.sorted))
      λ (root, deleted) (b, (e, f)).
        let shrunk =
          length-remove_sorted gone he old v.stored v.sorted
          ∙ ap (λ n. n + (if holds gone old then 1 else 0)) (sym (ap length e)) in
        let c = count_deleted t.count _ _ (holds gone old) deleted v.counted shrunk f v.small in
        ends (
          record {
            balanced = b.0;
            stored =
                subst (All IsStorable) (sym e) (All-remove_sorted gone IsStorable old v.stored);
            sorted = subst IsSorted (sym e) (remove_sorted-IsSorted gone old v.sorted);
            counted = c.0;
            small = c.1;
          },
          e,
          f,
        )
