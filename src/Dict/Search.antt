-- ===== src/Dict/Search.antt =====
-- The search for a key over both tables, and the writes through the node that it finds.
use mathlib.Core.List.{Perm}
use mathlib.Core.List.Perm
use rediskrazy.Base.{ℕ, ◌≡◌, sym, ap, ◌∙◌, Option, none, some, ◌++◌, arith, ◌>>=◌}
use rediskrazy.Sds.{Sds}
use rediskrazy.Dict.{
  DictEntry, Chain, Dict, bucket_of, bucket, set_bucket, size_dec, find, search_tables, write_node,
  delete_node, update_chain, remove_chain,
}
use rediskrazy.Dict.Entries.{UniqueKeys, find-append, SameSearch-perm}
use rediskrazy.Dict.Table.{all_entries, bucket-of_key}
use rediskrazy.Dict.Rehash.{Holds, steady, moving}

-- The entries in the tables, searched instead of the list they stand for.
pub find-tables :
    (k : Sds) (T T' l : Chain)
    → Perm (T ++ T') l
    → UniqueKeys l
    → find k l ≡ elim (find k T) [ some e ↦ some e | none ↦ find k T' ]
find-tables k T T' l p u = sym ((SameSearch-perm (Perm.symm p) u).1 k) ∙ find-append k T T'

search_tables-steady :
    (d : Dict) (k : Sds) (c : Chain)
    → bucket d.ht0 (bucket_of d.ht0 k) ≡ some c
    → d.rehashidx ≡ none
    → search_tables d k ≡ some (find k c)
unfolding search_tables
search_tables-steady d k c h r = rw h (ground arith)

search_tables-moving :
    (d : Dict) (k : Sds) (c c' : Chain) (i : ℕ)
    → bucket d.ht0 (bucket_of d.ht0 k) ≡ some c
    → bucket d.ht1 (bucket_of d.ht1 k) ≡ some c'
    → d.rehashidx ≡ some i
    → search_tables d k ≡ some (elim (find k c) [ some e ↦ some e | none ↦ find k c' ])
unfolding search_tables
search_tables-moving d k c c' i h h' r = ground arith

cong_two :
    {x y x' y' : Option DictEntry}
    → x ≡ y
    → x' ≡ y'
    → elim x [ some e ↦ some e | none ↦ x' ] ≡ elim y [ some e ↦ some e | none ↦ y' ]
cong_two p q = cc

-- The search of the tables finds the entry with the key.
pub search_tables-find :
    (d : Dict) (k : Sds) (l : Chain)
    → Holds d l
    → UniqueKeys l
    → search_tables d k ≡ some (find k l)
search_tables-find d k l (steady t v u r p) q =
    let (c, read, at, same) = bucket-of_key d.ht0 t v k in
    search_tables-steady d k c read r ∙ ap some (sym same ∙ (SameSearch-perm (Perm.symm p) q).1 k)
search_tables-find d k l (moving t t' i v v' r h m p) q =
    let (c, read, at, same) = bucket-of_key d.ht0 t v k in
    let (c', read', at', same') = bucket-of_key d.ht1 t' v' k in
    search_tables-moving d k c c' i read read' r
    ∙ ap some (sym (find-tables k (all_entries t) (all_entries t') l p q ∙ cong_two same same'))

-- A call that edits the chain with the key in one of the tables.
pub write_node-first :
    (d : Dict) (k : Sds) (f : DictEntry → DictEntry) (c : Chain) (e : DictEntry)
    → bucket d.ht0 (bucket_of d.ht0 k) ≡ some c
    → find k c ≡ some e
    → write_node d k f ≡ (
        set_bucket d.ht0 (bucket_of d.ht0 k) (update_chain k f c) d.ht0.used >>= λ ht0.
        some (record d { ht0 = ht0 }))
unfolding write_node
write_node-first d k f c e h g = ground arith

pub write_node-second :
    (d : Dict) (k : Sds) (f : DictEntry → DictEntry) (c c' : Chain)
    → bucket d.ht0 (bucket_of d.ht0 k) ≡ some c
    → find k c ≡ none
    → bucket d.ht1 (bucket_of d.ht1 k) ≡ some c'
    → write_node d k f ≡ (
        set_bucket d.ht1 (bucket_of d.ht1 k) (update_chain k f c') d.ht1.used >>= λ ht1.
        some (record d { ht1 = ht1 }))
unfolding write_node
write_node-second d k f c c' h g h' = ground arith

pub delete_node-first :
    (d : Dict) (k : Sds) (c : Chain) (e : DictEntry)
    → bucket d.ht0 (bucket_of d.ht0 k) ≡ some c
    → find k c ≡ some e
    → delete_node d k ≡ (
        set_bucket d.ht0 (bucket_of d.ht0 k) (remove_chain k c) (size_dec d.ht0.used) >>= λ ht0.
        some (record d { ht0 = ht0 }))
unfolding delete_node
delete_node-first d k c e h g = ground arith

pub delete_node-second :
    (d : Dict) (k : Sds) (c c' : Chain) (e : DictEntry) (i : ℕ)
    → bucket d.ht0 (bucket_of d.ht0 k) ≡ some c
    → find k c ≡ none
    → d.rehashidx ≡ some i
    → bucket d.ht1 (bucket_of d.ht1 k) ≡ some c'
    → find k c' ≡ some e
    → delete_node d k ≡ (
        set_bucket d.ht1 (bucket_of d.ht1 k) (remove_chain k c') (size_dec d.ht1.used) >>= λ ht1.
        some (record d { ht1 = ht1 }))
unfolding delete_node
delete_node-second d k c c' e i h g r h' g' = ground arith

pub delete_node-missing :
    (d : Dict) (k : Sds) (l : Chain) → search_tables d k ≡ some none → delete_node d k ≡ some d
unfolding delete_node search_tables
delete_node-missing d k l h = ground arith
