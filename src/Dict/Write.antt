-- ===== src/Dict/Write.antt =====
-- Writes through the node that the search finds, and its removal, keep a dictionary well-formed.
use mathlib.Core.Path.{subst}
use mathlib.Core.List.{Perm}
use mathlib.Core.List.Perm
use rediskrazy.Base.{
  ℕ, suc, ◌<◌, ◌^◌, ◌≡◌, refl, sym, ◌∙◌, Option, none, some, List, [], ◌∷◌, ◌++◌, length, get_elem?,
  arith, length-append, append_assoc, Ends, ends, Ends-bind, ◌>>=◌,
}
use rediskrazy.Base.Perm.{length-perm}
use rediskrazy.Sds.{Sds}
use rediskrazy.Dict.{dict_reset}
use rediskrazy.Dict.{
  DictEntry, Chain, Dict, bucket_of, set_bucket, size_dec, find, write_node, delete_node,
  update_chain, remove_chain,
}
use rediskrazy.Dict.Entries.{
  UniqueKeys, UniqueKeys-left, UniqueKeys-right, SameSearch-perm, remove_chain-append_left,
  remove_chain-append_right, remove_chain-respects, remove_chain-perm, update_chain-perm,
}
use rediskrazy.Dict.Table.{all_entries, IsTable, BelongsTo, bucket-of_key, front-perm}
use rediskrazy.Dict.Rehash.{Holds, steady, moving, IsMoved}
use rediskrazy.Dict.Edit.{edit-IsTable, update_chain-BelongsTo, remove_chain-BelongsTo}
use rediskrazy.Dict.Search.{
  write_node-first, write_node-second, delete_node-first, delete_node-second, find-tables,
}

-- `edit` replaces the entry with the key `k` by the entries `put e`, in the chain that has it.
module _ (k : Sds) (edit : Chain → Chain) (put : DictEntry → Chain)
    (replaces : (c : Chain) (e : DictEntry)
      → find k c ≡ some e
      → Perm (put e ++ remove_chain k c) (edit c))
    (keeps : (m j : ℕ) (c : Chain) → BelongsTo m j c → BelongsTo m j (edit c)) (d : Dict)
    (l : Chain) (q : UniqueKeys l) (e : DictEntry) where
  edit-steady :
      (t : List Chain) (c : Chain) (n : ℕ)
      → IsTable d.ht0 t
      → d.ht1 ≡ dict_reset
      → d.rehashidx ≡ none
      → Perm (all_entries t) l
      → get_elem? t (bucket_of d.ht0 k) ≡ some c
      → find k c ≡ some e
      → n ≡ length (put e ++ remove_chain k (all_entries t))
      → Ends
          (λ d'. Holds d' (put e ++ remove_chain k l))
          (set_bucket d.ht0 (bucket_of d.ht0 k) (edit c) n >>= λ ht0. some (record d { ht0 = ht0 }))
  edit-steady t c n v u r p g f s =
      let q' = (SameSearch-perm (Perm.symm p) q).0 in
      Ends-bind (edit-IsTable k edit put replaces keeps d.ht0 t c e n v g f s q')
        λ ht0 (t'', w, _, _, p'). ends (
          steady t'' w u r (
            Perm.trans p'
              (Perm.append_left (put e) (remove_chain-respects k (all_entries t) l p q'))))

  module _ (t t' : List Chain) (i : ℕ) (v : IsTable d.ht0 t) (v' : IsTable d.ht1 t')
      (r : d.rehashidx ≡ some i) (h : i < length t) (m : IsMoved i t)
      (p : Perm (all_entries t ++ all_entries t') l) where
    edit-first :
        (c : Chain) (n : ℕ)
        → get_elem? t (bucket_of d.ht0 k) ≡ some c
        → find k c ≡ some e
        → find k (all_entries t) ≡ some e
        → n ≡ length (put e ++ remove_chain k (all_entries t))
        → Ends
            (λ d'. Holds d' (put e ++ remove_chain k l))
            (set_bucket d.ht0 (bucket_of d.ht0 k) (edit c) n >>= λ ht0.
              some (record d { ht0 = ht0 }))
    edit-first c n g f f' s =
        let q' = (SameSearch-perm (Perm.symm p) q).0 in
        let front = remove_chain-append_left k (all_entries t) (all_entries t') f' in
        Ends-bind
          (edit-IsTable k edit put replaces keeps d.ht0 t c e n v g f s
            (UniqueKeys-left (all_entries t) (all_entries t') q'))
          λ ht0 (t'', w, z, m', p'). ends (
            moving t'' t' i w v' r (subst (λ x. i < x) (sym z) h) (m' i m) (
              Perm.trans (Perm.append_right (all_entries t') p') (
                rw
                  (
                    append_assoc (put e) (remove_chain k (all_entries t)) (all_entries t'),
                    sym front,
                  )
                  (Perm.append_left (put e)
                    (remove_chain-respects k (all_entries t ++ all_entries t') l p q')))))

    edit-second :
        (c : Chain) (n : ℕ)
        → get_elem? t' (bucket_of d.ht1 k) ≡ some c
        → find k c ≡ some e
        → find k (all_entries t) ≡ none
        → n ≡ length (put e ++ remove_chain k (all_entries t'))
        → Ends
            (λ d'. Holds d' (put e ++ remove_chain k l))
            (set_bucket d.ht1 (bucket_of d.ht1 k) (edit c) n >>= λ ht1.
              some (record d { ht1 = ht1 }))
    edit-second c n g f f' s =
        let q' = (SameSearch-perm (Perm.symm p) q).0 in
        let front = remove_chain-append_right k (all_entries t) (all_entries t') f' in
        Ends-bind
          (edit-IsTable k edit put replaces keeps d.ht1 t' c e n v' g f s
            (UniqueKeys-right (all_entries t) (all_entries t') q'))
          λ ht1 (t'', w, z, m', p'). ends (
            moving t t'' i v w r h m (
              Perm.trans (Perm.append_left (all_entries t) p') (
                Perm.trans (front-perm (all_entries t) (put e) (remove_chain k (all_entries t'))) (
                  Perm.append_left (put e) (
                    subst (λ x. Perm x (remove_chain k l)) front
                      (remove_chain-respects k (all_entries t ++ all_entries t') l p q'))))))

removed-length :
    (k : Sds) (l : Chain) (e : DictEntry)
    → find k l ≡ some e
    → length l ≡ suc (length (remove_chain k l))
removed-length k l e h = sym (length-perm (remove_chain-perm k l e h))

-- A write through the node found, which keeps its key.
pub write_node-Holds :
    (d : Dict) (k : Sds) (f : DictEntry → DictEntry) (l : Chain) (e : DictEntry)
    → Holds d l
    → UniqueKeys l
    → find k l ≡ some e
    → ((e : DictEntry) → (f e).key ≡ e.key)
    → Ends (λ d'. Holds d' (f e ∷ remove_chain k l)) (write_node d k f)
write_node-Holds d k f l e (steady t v u r p) q g same =
    let (c, read, at, here) = bucket-of_key d.ht0 t v k in
    let found : find k (all_entries t) ≡ some e = (SameSearch-perm (Perm.symm p) q).1 k ∙ g in
    rw (write_node-first d k f c e read (sym here ∙ found)) (
      edit-steady k (update_chain k f) (λ e. f e ∷ []) (update_chain-perm k f)
        (λ m j c b. update_chain-BelongsTo k f m j c same b) d l q e t c d.ht0.used v u r p at
        (sym here ∙ found) (v.counted ∙ removed-length k (all_entries t) e found))
write_node-Holds d k f l e (moving t t' i v v' r h m p) q g same = go (find k (all_entries t)) refl
  where
    go :
        (o : Option DictEntry)
        → find k (all_entries t) ≡ o
        → Ends (λ d'. Holds d' (f e ∷ remove_chain k l)) (write_node d k f)
    go (some e') w =
        let (c, read, at, here) = bucket-of_key d.ht0 t v k in
        let found : find k (all_entries t) ≡ some e =
          grind (arith, find-tables k (all_entries t) (all_entries t') l p q) in
        rw (write_node-first d k f c e read (sym here ∙ found)) (
          edit-first k (update_chain k f) (λ e. f e ∷ []) (update_chain-perm k f)
            (λ m j c b. update_chain-BelongsTo k f m j c same b) d l q e t t' i v v' r h m p c
            d.ht0.used at (sym here ∙ found) found
            (v.counted ∙ removed-length k (all_entries t) e found))
    go none w =
        let (c, read, at, here) = bucket-of_key d.ht0 t v k in
        let (c', read', at', here') = bucket-of_key d.ht1 t' v' k in
        let found : find k (all_entries t') ≡ some e =
          grind (arith, find-tables k (all_entries t) (all_entries t') l p q) in
        rw (write_node-second d k f c c' read (sym here ∙ w) read') (
          edit-second k (update_chain k f) (λ e. f e ∷ []) (update_chain-perm k f)
            (λ m j c b. update_chain-BelongsTo k f m j c same b) d l q e t t' i v v' r h m p c'
            d.ht1.used at' (sym here' ∙ found) w
            (v'.counted ∙ removed-length k (all_entries t') e found))

-- The removal of the node found.
pub delete_node-Holds :
    (d : Dict) (k : Sds) (l : Chain) (e : DictEntry)
    → Holds d l
    → UniqueKeys l
    → length l < 2 ^ 64
    → find k l ≡ some e
    → Ends (λ d'. Holds d' (remove_chain k l)) (delete_node d k)
delete_node-Holds d k l e (steady t v u r p) q s g =
    let (c, read, at, here) = bucket-of_key d.ht0 t v k in
    let found : find k (all_entries t) ≡ some e = (SameSearch-perm (Perm.symm p) q).1 k ∙ g in
    rw (delete_node-first d k c e read (sym here ∙ found)) (
      edit-steady k (remove_chain k) (λ e. []) (λ c e w. Perm.refl _) (remove_chain-BelongsTo k) d l
        q e t c (size_dec d.ht0.used) v u r p at (sym here ∙ found)
        (omega (arith, v.counted, removed-length k (all_entries t) e found, length-perm p)))
delete_node-Holds d k l e (moving t t' i v v' r h m p) q s g = go (find k (all_entries t)) refl
  where
    go :
        (o : Option DictEntry)
        → find k (all_entries t) ≡ o
        → Ends (λ d'. Holds d' (remove_chain k l)) (delete_node d k)
    go (some e') w =
        let (c, read, at, here) = bucket-of_key d.ht0 t v k in
        let found : find k (all_entries t) ≡ some e =
          grind (arith, find-tables k (all_entries t) (all_entries t') l p q) in
        let total = sym (length-append (all_entries t) (all_entries t')) ∙ length-perm p in
        rw (delete_node-first d k c e read (sym here ∙ found)) (
          edit-first k (remove_chain k) (λ e. []) (λ c e w. Perm.refl _) (remove_chain-BelongsTo k)
            d l q e t t' i v v' r h m p c (size_dec d.ht0.used) at (sym here ∙ found) found
            (omega (arith, v.counted, removed-length k (all_entries t) e found)))
    go none w =
        let (c, read, at, here) = bucket-of_key d.ht0 t v k in
        let (c', read', at', here') = bucket-of_key d.ht1 t' v' k in
        let found : find k (all_entries t') ≡ some e =
          grind (arith, find-tables k (all_entries t) (all_entries t') l p q) in
        let total = sym (length-append (all_entries t) (all_entries t')) ∙ length-perm p in
        rw (delete_node-second d k c c' e i read (sym here ∙ w) r read' (sym here' ∙ found)) (
          edit-second k (remove_chain k) (λ e. []) (λ c e w. Perm.refl _) (remove_chain-BelongsTo k)
            d l q e t t' i v v' r h m p c' (size_dec d.ht1.used) at' (sym here' ∙ found) w
            (omega (arith, v'.counted, removed-length k (all_entries t') e found)))
