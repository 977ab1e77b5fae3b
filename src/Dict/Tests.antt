-- ===== src/Dict/Tests.antt =====
-- Runs of the dictionary, and its theorems at concrete inputs.
use mathlib.Core.List.Perm
use rediskrazy.Base.{
  ◌≡◌, refl, Option, none, some, [], ◌∷◌, Ends, ◌>>=◌, bytes_eq, if◌then◌else◌, arith,
}
use rediskrazy.Base.Int.{pos}
use rediskrazy.Sds.{Sds}
use rediskrazy.Dict.{
  DictEntry, Chain, Dictht, Dict, dict_reset, hash_fn, hash_loop, find, remove_chain, dict_put,
  dict_get, dict_delete, expiry_of,
}
use rediskrazy.Dict.Rehash.{steady}
use rediskrazy.Dict.Growth.{holds}
use rediskrazy.Dict.Contents.{
  IsDict, put_entry, expire_entry, live_entry, unless_expired, dict_put_correct,
  dict_delete_correct,
}
use rediskrazy.Dict.Expiry.{value_of, dict_get_correct, get-after-put}

abbrev entry_a : DictEntry
entry_a = record { key = (97 ∷ []); val = (49 ∷ []); expire = 10 }

abbrev entries_a : Chain
entries_a = entry_a ∷ []

abbrev table_a : Dictht
table_a = record { table = some ([] ∷ [] ∷ entries_a ∷ [] ∷ []); size = 4; sizemask = 3; used = 1 }

-- The entry a = 1, which expires at the time 10.
abbrev dict_a : Dict
dict_a = record { ht0 = table_a; ht1 = dict_reset; rehashidx = none }

dict_a-IsDict : IsDict dict_a entries_a
unfolding find hash_fn hash_loop
dict_a-IsDict = record {
  contents = holds (
      steady ([] ∷ [] ∷ entries_a ∷ [] ∷ [])
        (record {
          buckets = refl;
          sized = refl;
          masked = refl;
          placed = (tt, (tt, ((refl, tt), (tt, tt))));
          counted = refl;
        })
        refl refl (Perm.refl _));
  unique = (refl, tt);
}

dict_put_correct_example :
    Ends
      (λ d'. IsDict d' (
        put_entry
          (record { key = (98 ∷ []); val = (50 ∷ []); expire = expiry_of (pos 5) 7 })
          entries_a))
      (dict_put dict_a (98 ∷ []) (50 ∷ []) (pos 5) 7)
dict_put_correct_example =
    dict_put_correct dict_a entries_a (98 ∷ []) (50 ∷ []) (pos 5) 7 dict_a-IsDict (omega arith)

dict_delete_correct_example :
    Ends (λ d'. IsDict d' (remove_chain (97 ∷ []) entries_a)) (dict_delete dict_a (97 ∷ []))
dict_delete_correct_example =
    dict_delete_correct dict_a entries_a (97 ∷ []) dict_a-IsDict (omega arith)

dict_get_correct_example :
    Ends {A = Dict × Option Sds}
      (λ r.
        IsDict r.0 (expire_entry 11 (97 ∷ []) entries_a)
        × (r.1 ≡ value_of (live_entry 11 (97 ∷ []) entries_a)))
      (dict_get dict_a (97 ∷ []) 11)
dict_get_correct_example =
    dict_get_correct dict_a entries_a (97 ∷ []) 11 dict_a-IsDict (omega arith)

get-after-put_example :
    Ends
      (λ r.
        r.1
        ≡ value_of (
            unless_expired 9 (
              if bytes_eq (97 ∷ []) (97 ∷ [])
              then some (record { key = (97 ∷ []); val = (51 ∷ []); expire = expiry_of (pos 3) 8 })
              else find (97 ∷ []) entries_a)))
      (dict_put dict_a (97 ∷ []) (51 ∷ []) (pos 3) 8 >>= λ d'. dict_get d' (97 ∷ []) 9)
get-after-put_example =
    get-after-put dict_a entries_a (97 ∷ []) (51 ∷ []) (97 ∷ []) (pos 3) 8 9 dict_a-IsDict
      (omega arith)
