-- ===== src/Dict/Expiry.antt =====
-- The operations of the dictionary that look at the expiry of an entry, and dict_clear.
use rediskrazy.Base.{
  ℕ, ◌+◌, ◌<◌, ◌^◌, ◌≡◌, refl, sym, ap, ◌∙◌, inl, inr, Bool, true, false, Option, none, some, List,
  [], ◌∷◌, if◌then◌else◌, length, Bool-cases, arith, bytes_eq, Ends, ends, Ends-bind, Ends-map,
  ◌>>=◌,
}
use rediskrazy.Sds.{Sds}
use rediskrazy.Dict.{DictEntry, Chain, Dictht, Dict, find, write_node, remove_chain}
use rediskrazy.Dict.Entries.{UniqueKeys, key_of_find}
use rediskrazy.Dict.Rehash.{steady, moving}
use rediskrazy.Dict.{DictEntry, dict_reset}
use rediskrazy.Dict.Growth.{Represents, fresh, holds}
use rediskrazy.Base.{bytes_eq_iff}
use rediskrazy.Base.Int.{ℤ}
use rediskrazy.Dict.{dict_put, dict_delete, expiry_of, is_expired}
use rediskrazy.Dict.Entries.{find-remove_chain, remove_chain-UniqueKeys}
use rediskrazy.Dict.Write.{write_node-Holds}
use rediskrazy.Dict.Lookup.{dict_lookup_node-Represents, Represents-found}
use rediskrazy.Dict.Contents.{
  unless_expired, find-put_entry, IsDict, removed-le, put_entry, live_entry, expire_entry,
  dict_put_correct, dict_delete_correct,
}
use rediskrazy.Dict.{
  dict_reset, dict_get, dict_get_expiry, dict_set_expiry, dict_clear, clear_table,
}

-- The value and the expiry that a lookup returns.
abbrev pub value_of : Option DictEntry → Option Sds
value_of none = none
value_of (some e) = some e.val

abbrev pub expiry_at : Option DictEntry → ℕ
expiry_at none = 0
expiry_at (some e) = e.expire

-- dict_get succeeds, returns the value of the key unless that has expired, and removes it if it has.
pub dict_get_correct :
    (d : Dict) (l : Chain) (key : Sds) (now : ℕ)
    → IsDict d l
    → length l < 2 ^ 61
    → Ends {A = Dict × Option Sds}
        (λ r. IsDict r.0 (expire_entry now key l) × (r.1 ≡ value_of (live_entry now key l)))
        (dict_get d key now)
unfolding dict_get
dict_get_correct d l key now v s =
    Ends-bind (dict_lookup_node-Represents d key l v.contents v.unique (omega arith))
      λ (d', o) (h, f). go d' (record { contents = h; unique = v.unique }) o f
  where
    go :
        (d' : Dict)
        → IsDict d' l
        → (o : Option DictEntry) → o ≡ find key l
        → Ends {A = Dict × Option Sds}
            (λ r. IsDict r.0 (expire_entry now key l) × (r.1 ≡ value_of (live_entry now key l)))
            (elim o [
              | none ↦ some (d', none)
              | some e ↦
                  if is_expired now e
                  then (dict_delete d' key >>= λ d. some (d, none))
                  else some (d', some e.val)
            ])
    go d' v' none f = rw (expire_entry, sym f) (ends (v', refl))
    go d' v' (some e) f = elim (Bool-cases (is_expired now e)) [
      | inl y ↦
          rw (expire_entry, sym f, y)
            (Ends-bind (dict_delete_correct d' l key v' s) λ d'' w. ends (w, refl))
      | inr n ↦ rw (expire_entry, sym f, n) (ends (v', refl))
    ]

-- dict_get_expiry succeeds, and returns the expiry of the key, 0 if there is none, removing the key if it has expired.
pub dict_get_expiry_correct :
    (d : Dict) (l : Chain) (key : Sds) (now : ℕ)
    → IsDict d l
    → length l < 2 ^ 61
    → Ends {A = Dict × ℕ}
        (λ r. IsDict r.0 (expire_entry now key l) × (r.1 ≡ expiry_at (live_entry now key l)))
        (dict_get_expiry d key now)
unfolding dict_get_expiry
dict_get_expiry_correct d l key now v s =
    Ends-bind (dict_lookup_node-Represents d key l v.contents v.unique (omega arith))
      λ (d', o) (h, f). go d' (record { contents = h; unique = v.unique }) o f
  where
    go :
        (d' : Dict)
        → IsDict d' l
        → (o : Option DictEntry) → o ≡ find key l
        → Ends {A = Dict × ℕ}
            (λ r. IsDict r.0 (expire_entry now key l) × (r.1 ≡ expiry_at (live_entry now key l)))
            (elim o [
              | none ↦ some (d', 0)
              | some e ↦
                  if is_expired now e
                  then (dict_delete d' key >>= λ d. some (d, 0))
                  else some (d', e.expire)
            ])
    go d' v' none f = rw (expire_entry, sym f) (ends (v', refl))
    go d' v' (some e) f = elim (Bool-cases (is_expired now e)) [
      | inl y ↦
          rw (expire_entry, sym f, y)
            (Ends-bind (dict_delete_correct d' l key v' s) λ d'' w. ends (w, refl))
      | inr n ↦ rw (expire_entry, sym f, n) (ends (v', refl))
    ]

-- The entries after an expiry is set.
abbrev pub retime : Sds → ℕ → Chain → Chain
retime key expiry l = elim (find key l) [
  | none ↦ l
  | some e ↦ record e { expire = expiry } ∷ remove_chain key l
]

abbrev pub is_some : Option DictEntry → Bool
is_some none = false
is_some (some e) = true

removed_key :
    (key : Sds) (e : DictEntry) (l : Chain)
    → UniqueKeys l
    → find key l ≡ some e
    → find e.key (remove_chain key l) ≡ none
removed_key key e l u f =
    ground (arith, find-remove_chain key e.key l u, bytes_eq_iff key e.key, key_of_find key l e f)

-- dict_set_expiry succeeds, sets the expiry of the key and nothing else, and says whether the key is there.
pub dict_set_expiry_correct :
    (d : Dict) (l : Chain) (key : Sds) (ttl : ℤ) (now : ℕ)
    → IsDict d l
    → length l < 2 ^ 61
    → Ends {A = Dict × Bool}
        (λ r. IsDict r.0 (retime key (expiry_of ttl now) l) × (r.1 ≡ is_some (find key l)))
        (dict_set_expiry d key ttl now)
unfolding dict_set_expiry
dict_set_expiry_correct d l key ttl now v s =
    Ends-bind (dict_lookup_node-Represents d key l v.contents v.unique (omega arith))
      λ (d', o) (h, f). go d' h o f
  where
    go :
        (d' : Dict)
        → Represents d' l
        → (o : Option DictEntry) → o ≡ find key l
        → Ends {A = Dict × Bool}
            (λ r. IsDict r.0 (retime key (expiry_of ttl now) l) × (r.1 ≡ is_some (find key l)))
            (elim o [
              | none ↦ some (d', false)
              | some _ ↦ write_node d' key (λ e. record e { expire = expiry_of ttl now }) >>= λ d.
                  some (d, true)
            ])
    go d' h none f = rw (retime, sym f) (ends (record { contents = h; unique = v.unique }, refl))
    go d' h (some e) f =
        rw (retime, sym f)
          (Ends-bind
            (write_node-Holds d' key (λ e. record e { expire = expiry_of ttl now }) l e
              (Represents-found d' key l e h (sym f)) v.unique (sym f) (λ e. refl))
            λ d'' h'. ends (
              record {
                contents = holds h';
                unique =
                    (removed_key key e l v.unique (sym f), remove_chain-UniqueKeys key l v.unique);
              },
              refl,
            ))

-- A put and a lookup: the value that was put is found until it expires, and other keys are as before.
pub get-after-put :
    (d : Dict) (l : Chain) (key val other : Sds) (ttl : ℤ) (now later : ℕ)
    → IsDict d l
    → length l + 1 < 2 ^ 61
    → Ends
        (λ r.
          r.1
          ≡ value_of (
              unless_expired later (
                if bytes_eq key other
                then some (record { key = key; val = val; expire = expiry_of ttl now })
                else find other l)))
        (dict_put d key val ttl now >>= λ d'. dict_get d' other later)
get-after-put d l key val other ttl now later v s =
    let e : DictEntry = record { key = key; val = val; expire = expiry_of ttl now } in
    Ends-bind (dict_put_correct d l key val ttl now v (omega arith)) λ d' v'.
      Ends-map
        (dict_get_correct d' (put_entry e l) other later v' (omega (arith, removed-le key l)))
        λ r (w, p).
          p ∙ ap (λ o. value_of (unless_expired later o)) (find-put_entry e other l v.unique)

clear_none : (ht : Dictht) → ht.table ≡ none → clear_table ht ≡ ht
clear_none ht h = ground arith

clear_reset : (ht : Dictht) → ht ≡ dict_reset → clear_table ht ≡ dict_reset
clear_reset ht h = clear_none ht (ap (λ x. x.table) h) ∙ h

clear_some : (ht : Dictht) (t : List Chain) → ht.table ≡ some t → clear_table ht ≡ dict_reset
clear_some ht t h = ground arith

-- dict_clear leaves a dictionary without entries, whatever it held.
pub dict_clear-empty : (d : Dict) (l : Chain) → IsDict d l → IsDict (dict_clear d) []
unfolding dict_clear
dict_clear-empty d l v = record { contents = go v.contents; unique = tt }
  where
    go : Represents d l → Represents (dict_clear d) []
    go (fresh a b b' c r e) =
        let same = clear_none d.ht0 a in
        fresh (ap (λ x. x.table) same ∙ a) (ap (λ x. x.used) same ∙ b) (ap (λ x. x.size) same ∙ b')
          (clear_reset d.ht1 c) refl refl
    go (holds (steady t w u r p)) =
        let same = clear_some d.ht0 t w.buckets in
        fresh (ap (λ x. x.table) same) (ap (λ x. x.used) same) (ap (λ x. x.size) same)
          (clear_reset d.ht1 u) refl refl
    go (holds (moving t t' i w w' r h m p)) =
        let same = clear_some d.ht0 t w.buckets in
        fresh (ap (λ x. x.table) same) (ap (λ x. x.used) same) (ap (λ x. x.size) same)
          (clear_some d.ht1 t' w'.buckets) refl refl
