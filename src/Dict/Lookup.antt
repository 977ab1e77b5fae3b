-- ===== src/Dict/Lookup.antt =====
-- The lookup of a node: a step of rehashing, and then the search.
use rediskrazy.Base.{
  ◌+◌, ◌<◌, ◌^◌, ◌%◌, ◌≡◌, refl, sym, ap, Option, none, some, [], ◌∷◌, length, arith, length-append,
  ◌==◌, Ends, ends, Ends-bind, Ends-map, Ends-if,
}
use rediskrazy.Base.Perm.{length-perm}
use rediskrazy.Sds.{Sds}
use rediskrazy.Dict.{DictEntry, Chain, Dict, find}
use rediskrazy.Dict.Entries.{UniqueKeys}
use rediskrazy.Dict.Table.{all_entries}
use rediskrazy.Dict.Rehash.{Holds, steady, moving}
use rediskrazy.Dict.{DictEntry}
use rediskrazy.Dict.{dict_lookup_node}
use rediskrazy.Dict.Rehash.{rehash_step-Holds}
use rediskrazy.Dict.Search.{search_tables-find}
use rediskrazy.Dict.Growth.{Represents, fresh, holds}

-- The two tables count the entries.
pub used-length : (d : Dict) (l : Chain) → Holds d l → d.ht0.used + d.ht1.used ≡ length l
used-length d l (steady t v u r p) = omega (arith, v.counted, length-perm p, ap (λ x. x.used) u)
used-length d l (moving t t' i v v' r h m p) =
    omega
      (arith, v.counted, v'.counted, length-perm p, length-append (all_entries t) (all_entries t'))

pub find-nil : (k : Sds) (l : Chain) → length l ≡ 0 → find k l ≡ none
unfolding find
find-nil k [] h = refl
find-nil k (e ∷ l) h = absurd (omega arith)

pub dict_lookup_node-Holds :
    (d : Dict) (k : Sds) (l : Chain)
    → Holds d l
    → UniqueKeys l
    → length l < 2 ^ 64
    → Ends {A = Dict × Option DictEntry}
        (λ r. Holds r.0 l × (r.1 ≡ find k l))
        (dict_lookup_node d k)
unfolding dict_lookup_node
dict_lookup_node-Holds d k l h u s =
    Ends-if ((d.ht0.used + d.ht1.used) % 2 ^ 64 == 0)
      (λ z. ends (h, sym (find-nil k l (ground (arith, used-length d l h)))))
      (λ z.
        Ends-bind (rehash_step-Holds d l h s)
          λ d' h'. rw (search_tables-find d' k l h' u) (ends (h', refl)))

lookup-empty :
    (d : Dict) (k : Sds)
    → (d.ht0.used + d.ht1.used) % 2 ^ 64 ≡ 0
    → dict_lookup_node d k ≡ some (d, none)
unfolding dict_lookup_node
lookup-empty d k h = ground arith

pub dict_lookup_node-Represents :
    (d : Dict) (k : Sds) (l : Chain)
    → Represents d l
    → UniqueKeys l
    → length l < 2 ^ 64
    → Ends {A = Dict × Option DictEntry}
        (λ r. Represents r.0 l × (r.1 ≡ find k l))
        (dict_lookup_node d k)
dict_lookup_node-Represents d k l (fresh a b b' c r e) u s =
    rw (lookup-empty d k (ground arith))
      (ends (fresh a b b' c r e, sym (find-nil k l (ap length e))))
dict_lookup_node-Represents d k l (holds h) u s =
    Ends-map (dict_lookup_node-Holds d k l h u s) λ r (h', e). (holds h', e)

-- Where a key is found there is a table.
pub Represents-found :
    (d : Dict) (k : Sds) (l : Chain) (e : DictEntry)
    → Represents d l
    → find k l ≡ some e
    → Holds d l
Represents-found d k l e (fresh a b b' c r z) f =
    absurd (differ (find k l) (find-nil k l (ap length z)) f)
  where
    differ : (o : Option DictEntry) → o ≡ none → o ≡ some e → ⊥
    differ o p q = cc
Represents-found d k l e (holds h) f = h
