-- ===== src/Dict/Insert.antt =====
-- The insertion of a new node in front of its chain, in the table that takes new entries.
use mathlib.Core.List.{Perm, perm_middle}
use mathlib.Core.List.Perm
use rediskrazy.Base.{
  ℕ, ◌+◌, ◌<◌, ◌^◌, ◌≡◌, refl, sym, ◌∙◌, none, some, List, [], ◌∷◌, ◌++◌, length, set, arith,
  length-append, Ends, ends, Ends-bind, Ends-map, ◌>>=◌,
}
use rediskrazy.Base.Perm.{length-perm}
use rediskrazy.Dict.{DictEntry, Chain, Dictht, Dict, bucket_of, size_inc}
use rediskrazy.Dict.Table.{all_entries, IsTable, BelongsTo, bucket-of_key}
use rediskrazy.Dict.Rehash.{Holds, steady, moving}
use rediskrazy.Dict.{DictEntry}
use rediskrazy.Dict.{push_node, insert_node}
use rediskrazy.Base.{set}
use rediskrazy.Dict.Table.{set-perm, get-perm, chain-BelongsTo, bucket_of-lt, set_bucket-IsTable}

push_node-IsTable :
    (ht : Dictht) (t : List Chain) (n : DictEntry)
    → IsTable ht t
    → length (all_entries t) + 1 < 2 ^ 64
    → Ends
        (λ ht'. (t'' : List Chain) × IsTable ht' t'' × Perm (all_entries t'') (n ∷ all_entries t))
        (push_node ht n)
unfolding push_node
push_node-IsTable ht t n v s =
    let (b, read, at, _) = bucket-of_key ht t v n.key in
    let i = bucket_of ht n.key in
    let i<t = bucket_of-lt ht t v n.key in
    let home : BelongsTo ht.sizemask i (n ∷ b) =
      (unfold bucket_of in refl, chain-BelongsTo ht t v i b at) in
    let room : size_inc ht.used ≡ length ((n ∷ b) ++ all_entries (set t i [])) =
      omega (arith, v.counted, length-perm (get-perm t i b at)) in
    rw read (
      Ends-map (set_bucket-IsTable ht t v i (n ∷ b) (size_inc ht.used) i<t home room)
        λ ht' (v', _, _). (
          set t i (n ∷ b),
          v',
          Perm.trans (set-perm t i (n ∷ b) i<t) (Perm.cons n (Perm.symm (get-perm t i b at))),
        ))

insert_node-none :
    (d : Dict) (n : DictEntry)
    → d.rehashidx ≡ none
    → insert_node d n ≡ (push_node d.ht0 n >>= λ ht0. some (record d { ht0 = ht0 }))
unfolding insert_node
insert_node-none d n h = ground arith

insert_node-some :
    (d : Dict) (n : DictEntry) (i : ℕ)
    → d.rehashidx ≡ some i
    → insert_node d n ≡ (push_node d.ht1 n >>= λ ht1. some (record d { ht1 = ht1 }))
unfolding insert_node
insert_node-some d n i h = ground arith

pub insert_node-Holds :
    (d : Dict) (n : DictEntry) (l : Chain)
    → Holds d l
    → length l + 1 < 2 ^ 64
    → Ends (λ d'. Holds d' (n ∷ l)) (insert_node d n)
insert_node-Holds d n l (steady t v u r p) s = rw (insert_node-none d n r) (
    Ends-bind (push_node-IsTable d.ht0 t n v (omega (arith, length-perm p)))
      λ ht0 (t'', w, p'). ends (steady t'' w u r (Perm.trans p' (Perm.cons n p))))
insert_node-Holds d n l (moving t t' i v v' r h m p) s =
    let total = sym (length-append (all_entries t) (all_entries t')) ∙ length-perm p in
    rw (insert_node-some d n i r) (
      Ends-bind (push_node-IsTable d.ht1 t' n v' (omega arith)) λ ht1 (t'', w, p'). ends (
        moving t t'' i v w r h m (
          Perm.trans (Perm.append_left (all_entries t) p')
            (Perm.trans (perm_middle (all_entries t) (all_entries t')) (Perm.cons n p)))))
