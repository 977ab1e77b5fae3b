-- ===== src/Dict/Contents.antt =====
-- What the operations of the dictionary do, as operations on the entries that it stands for.
use mathlib.Core.Path.{subst}
use rediskrazy.Base.{
  ℕ, ◌+◌, ◌<◌, ◌≤◌, ◌^◌, ◌%◌, ◌≡◌, refl, sym, ap, ◌∙◌, ◌≢◌, Option, none, some, [], ◌∷◌,
  if◌then◌else◌, length, arith, bytes_eq, Ends, ends, Ends-bind, Ends-map, ◌>>=◌,
}
use rediskrazy.Sds.{Sds}
use rediskrazy.Dict.{DictEntry, Chain, Dict, find, write_node, delete_node, remove_chain}
use rediskrazy.Dict.Entries.{UniqueKeys, remove_chain-missing, key_of_find}
use rediskrazy.Dict.Rehash.{Holds}
use rediskrazy.Dict.{DictEntry}
use rediskrazy.Dict.{rehash_step}
use rediskrazy.Dict.Rehash.{rehash_step-Holds}
use rediskrazy.Dict.Search.{delete_node-missing, search_tables-find}
use rediskrazy.Dict.Growth.{Represents, fresh, holds}
use rediskrazy.Base.{ℕ_discrete, bytes_eq_iff}
use rediskrazy.Base.Int.{ℤ}
use rediskrazy.Dict.{insert_node, dict_put, dict_delete, expiry_of, is_expired}
use rediskrazy.Dict.Growth.{make_room-Holds}
use rediskrazy.Dict.Insert.{insert_node-Holds}
use rediskrazy.Dict.Entries.{find-remove_chain, remove_chain-UniqueKeys}
use rediskrazy.Dict.Write.{write_node-Holds, delete_node-Holds}
use rediskrazy.Dict.Lookup.{used-length, find-nil, dict_lookup_node-Holds}

-- The dictionary stands for the entries `l`, one for a key, in some order.
pub record IsDict (d : Dict) (l : Chain) : Type 0 where
  pub contents : Represents d l
  pub unique : UniqueKeys l

pub removed-le : (k : Sds) (l : Chain) → length (remove_chain k l) ≤ length l
unfolding remove_chain
removed-le k [] = omega arith
removed-le k (e ∷ l) = ground (arith, removed-le k l)

-- Entries with the entry of one key replaced, or added.
abbrev pub put_entry : DictEntry → Chain → Chain
put_entry e l = e ∷ remove_chain e.key l

pub put_entry-UniqueKeys : (e : DictEntry) (l : Chain) → UniqueKeys l → UniqueKeys (put_entry e l)
put_entry-UniqueKeys e l u = (
  find-remove_chain e.key e.key l u ∙ ground (arith, bytes_eq_iff e.key e.key),
  remove_chain-UniqueKeys e.key l u,
)

pub find-put_entry :
    (e : DictEntry) (key : Sds) (l : Chain)
    → UniqueKeys l
    → find key (put_entry e l) ≡ (if bytes_eq e.key key then some e else find key l)
unfolding find
find-put_entry e key l u = ground (arith, find-remove_chain e.key key l u)

-- The end of dict_put: the node found is written, or one is inserted.
place :
    (d : Dict) (l : Chain) (key val : Sds) (expiry : ℕ)
    → UniqueKeys l
    → length l < 2 ^ 61
    → (d' : Dict) → Holds d' l
    → (o : Option DictEntry) → o ≡ find key l
    → Ends
        (λ d''. Holds d'' (put_entry (record { key = key; val = val; expire = expiry }) l))
        (elim o [
          | some _ ↦ write_node d' key (λ e. record e { val = val; expire = expiry })
          | none ↦ insert_node d' (record { key = key; val = val; expire = expiry })
        ])
place d l key val expiry u s d' h none f =
    rw (remove_chain-missing key l (sym f))
      (insert_node-Holds d' (record { key = key; val = val; expire = expiry }) l h (omega arith))
place d l key val expiry u s d' h (some e) f =
    Ends-map
      (write_node-Holds d' key (λ e. record e { val = val; expire = expiry }) l e h u (sym f)
        (λ e. refl))
      λ d'' h'.
        subst (λ x. Holds d'' (record { key = x; val = val; expire = expiry } ∷ remove_chain key l))
          (key_of_find key l e (sym f)) h'

-- dict_put succeeds, and replaces the entry of the key by one with the value and the expiry, or adds it.
pub dict_put_correct :
    (d : Dict) (l : Chain) (key val : Sds) (ttl : ℤ) (now : ℕ)
    → IsDict d l
    → length l < 2 ^ 61
    → Ends
        (λ d'.
          IsDict d' (put_entry (record { key = key; val = val; expire = expiry_of ttl now }) l))
        (dict_put d key val ttl now)
unfolding dict_put
dict_put_correct d l key val ttl now v s =
    let entry : DictEntry = record { key = key; val = val; expire = expiry_of ttl now } in
    let u' : UniqueKeys (put_entry entry l) = put_entry-UniqueKeys entry l v.unique in
    Ends-bind (make_room-Holds d l v.contents s) λ d1 h1.
      Ends-bind (rehash_step-Holds d1 l h1 (omega arith)) λ d2 h2.
        Ends-bind (dict_lookup_node-Holds d2 key l h2 v.unique (omega arith)) λ r (h3, f).
          Ends-map (place d l key val (expiry_of ttl now) v.unique s r.0 h3 r.1 f)
            λ d' h4. record { contents = holds h4; unique = u' }

-- The loop over the tables removes the entry of the key, found or not.
delete_node-entries :
    (d : Dict) (k : Sds) (l : Chain)
    → Holds d l
    → UniqueKeys l
    → length l < 2 ^ 64
    → Ends (λ d'. Holds d' (remove_chain k l)) (delete_node d k)
delete_node-entries d k l h u s = go (find k l) refl
  where
    go :
        (o : Option DictEntry)
        → find k l ≡ o
        → Ends (λ d'. Holds d' (remove_chain k l)) (delete_node d k)
    go none f =
        rw
          (
            delete_node-missing d k l (search_tables-find d k l h u ∙ ap some f),
            remove_chain-missing k l f,
          )
          (ends h)
    go (some e) f = delete_node-Holds d k l e h u s f

remove_chain-IsDict :
    (d d' : Dict) (l : Chain) (key : Sds)
    → IsDict d l
    → Represents d' (remove_chain key l)
    → IsDict d' (remove_chain key l)
remove_chain-IsDict d d' l key v c = record {
  contents = c;
  unique = remove_chain-UniqueKeys key l v.unique;
}

removed_empty : (key : Sds) (l : Chain) → length l ≡ 0 → remove_chain key l ≡ l
removed_empty key l h = remove_chain-missing key l (find-nil key l h)

delete_empty :
    (d : Dict) (key : Sds) → (d.ht0.used + d.ht1.used) % 2 ^ 64 ≡ 0 → dict_delete d key ≡ some d
unfolding dict_delete
delete_empty d key h = ground arith

delete_used :
    (d : Dict) (key : Sds)
    → (d.ht0.used + d.ht1.used) % 2 ^ 64 ≢ 0
    → dict_delete d key ≡ (rehash_step d >>= λ d'. delete_node d' key)
unfolding dict_delete
delete_used d key h = ground arith

-- dict_delete succeeds, and removes the entry of the key, if there is one.
pub dict_delete_correct :
    (d : Dict) (l : Chain) (key : Sds)
    → IsDict d l
    → length l < 2 ^ 61
    → Ends (λ d'. IsDict d' (remove_chain key l)) (dict_delete d key)
dict_delete_correct d l key v s = go v.contents
  where
    go : Represents d l → Ends (λ d'. IsDict d' (remove_chain key l)) (dict_delete d key)
    go (fresh a b b' c r e) =
        rw (delete_empty d key (ground arith), removed_empty key l (ap length e)) (ends v)
    go (holds h) = elim (ℕ_discrete ((d.ht0.used + d.ht1.used) % 2 ^ 64) 0) [
      | yes z ↦
          rw (delete_empty d key z, removed_empty key l (omega (arith, used-length d l h))) (ends v)
      | no n ↦ rw (delete_used d key n) (
          Ends-bind (rehash_step-Holds d l h (omega arith)) λ d' h'.
            Ends-map (delete_node-entries d' key l h' v.unique (omega arith))
              λ d'' h''. remove_chain-IsDict d d'' l key v (holds h''))
    ]

-- What a reader at the time `now` sees: the entry of the key, unless it has expired.
abbrev pub unless_expired : ℕ → Option DictEntry → Option DictEntry
unless_expired now none = none
unless_expired now (some e) = if is_expired now e then none else some e

abbrev pub live_entry : ℕ → Sds → Chain → Option DictEntry
live_entry now key l = unless_expired now (find key l)

-- Lookups remove the entry that they find expired.
abbrev pub expire_entry : ℕ → Sds → Chain → Chain
expire_entry now key l = elim (find key l) [
  | none ↦ l
  | some e ↦ if is_expired now e then remove_chain key l else l
]
