-- ===== src/Zset/Tests.antt =====
-- The theorems on sorted sets at concrete inputs.
use mathlib.Core.List.Perm
use rediskrazy.Base.{bytes_eq, ◌≡◌, refl, Bool, true, none, some, [], ◌∷◌, Ends, arith}
use rediskrazy.Double.{Double, double_lt, is_nan}
use rediskrazy.Dict.{DictEntry, Dict, dict_reset, hash_fn, hash_loop, find}
use rediskrazy.Dict.Contents.{IsDict, put_entry, expire_entry}
use rediskrazy.Dict.Rehash.{steady}
use rediskrazy.Dict.Growth.{holds}
use rediskrazy.Avl.{null, node, compare_nodes}
use rediskrazy.Avl.Entries.{order, IsStorable, insert_sorted}
use rediskrazy.Avl.Contents.{entry, entries}
use rediskrazy.Avl.Tree.{IsValid}
use rediskrazy.Zset.{Zset, zset_add, score_sds}
use rediskrazy.Base.{drop, take}
use rediskrazy.Base.Int.{pos, negsuc}
use rediskrazy.Avl.Contents.{entries}
use rediskrazy.Zset.{zset_range}
use rediskrazy.Zset.Range.{pairs, lower, upper, zset_range-slice}
use rediskrazy.Zset.Add.{zset_add_correct}

-- The scores 1.0 and 2.0.
abbrev one : Double
one = 4607182418800017408

abbrev two : Double
two = 4611686018427387904

abbrev entry_a : DictEntry
entry_a = record { key = 97 ∷ []; val = 0 ∷ 0 ∷ 0 ∷ 0 ∷ 0 ∷ 0 ∷ 240 ∷ 63 ∷ []; expire = 0 }

abbrev dict_a : Dict
dict_a = record {
  ht0 = record {
    table = some ([] ∷ [] ∷ (entry_a ∷ []) ∷ [] ∷ []);
    size = 4;
    sizemask = 3;
    used = 1;
  };
  ht1 = dict_reset;
  rehashidx = none;
}

-- The member a with the score 1.0.
abbrev zset_a : Zset
zset_a = record {
  dict = dict_a;
  tree = record { root = node (97 ∷ []) one 1 null null; count = 1 };
}

dict_a-IsDict : IsDict dict_a (entry_a ∷ [])
unfolding find hash_fn hash_loop
dict_a-IsDict = record {
  contents = holds (
      steady ([] ∷ [] ∷ (entry_a ∷ []) ∷ [] ∷ [])
        (record {
          buckets = refl;
          sized = refl;
          masked = refl;
          placed = (tt, (tt, ((refl, tt), (tt, tt))));
          counted = refl;
        })
        refl refl (Perm.refl _));
  unique = (refl, tt);
}

tree_a-IsValid : IsValid (zset_a.tree)
unfolding entries order compare_nodes double_lt is_nan
tree_a-IsValid = record {
  balanced = (refl, omega arith, omega arith, tt, tt);
  stored = (record { short = omega arith; number = refl }, tt);
  sorted = (tt, tt);
  counted = refl;
  small = omega arith;
}

b-IsStorable : IsStorable (entry (98 ∷ []) two)
unfolding is_nan
b-IsStorable = record { short = omega arith; number = refl }

zset_add_correct_example :
    Ends {A = Zset × Bool}
      (λ r.
        IsDict r.0.dict (
          put_entry
            (record { key = 98 ∷ []; val = score_sds two; expire = 0 })
            (expire_entry 5 (98 ∷ []) (entry_a ∷ [])))
        × IsValid r.0.tree
        × (entries r.0.tree.root ≡ insert_sorted (entry (98 ∷ []) two) (entries zset_a.tree.root))
        × (r.1 ≡ true))
      (zset_add zset_a (98 ∷ []) two 5)
zset_add_correct_example =
    zset_add_correct zset_a (entry_a ∷ []) (98 ∷ []) two 5 dict_a-IsDict (omega arith)
      tree_a-IsValid b-IsStorable (omega arith) (unfold find bytes_eq in refl)

zset_range-slice_example :
    zset_range zset_a (negsuc 0) (pos 5)
    ≡ pairs (drop (lower 1 (negsuc 0)) (take (upper 1 (pos 5)) (entries zset_a.tree.root)))
zset_range-slice_example = zset_range-slice zset_a (negsuc 0) (pos 5) tree_a-IsValid (omega arith)
