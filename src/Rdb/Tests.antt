-- ===== src/Rdb/Tests.antt =====
-- The round trip of a snapshot at a concrete input.
use mathlib.Core.List.Perm
use rediskrazy.Base.{◌>>=◌, ◌≡◌, refl, true, none, some, [], ◌∷◌, Ends, arith}
use rediskrazy.Dict.{DictEntry, Dict, dict_init, dict_reset, find, hash_fn, hash_loop}
use rediskrazy.Dict.Growth.{fresh, holds}
use rediskrazy.Dict.Rehash.{steady}
use rediskrazy.Dict.Contents.{IsDict}
use rediskrazy.Expheap.{expheap_init}
use rediskrazy.Mempool.{mempool_init}
use rediskrazy.Server.{Server}
use rediskrazy.Server.Strings.{Holds}
use rediskrazy.Rdb.{rdb_save, rdb_load}
use rediskrazy.Rdb.Strings.{rdb_load-rdb_save}

abbrev entry_b : DictEntry
entry_b = record { key = (98 ∷ []); val = (50 ∷ []); expire = 0 }

-- The string b = 2, in a table with one bucket.
abbrev dict_b : Dict
dict_b = record {
  ht0 = record { table = some ((entry_b ∷ []) ∷ []); size = 1; sizemask = 0; used = 1 };
  ht1 = dict_reset;
  rehashidx = none;
}

abbrev server_with : Dict → Server
server_with d = record {
  g_data = d;
  g_zsets = dict_init;
  g_hashes = dict_init;
  zset_objects = [];
  hash_objects = [];
  g_exp_heap = expheap_init 256;
  aof = none;
  client = true;
  sent = [];
  loop_stop = true;
  g_entry_pool = mempool_init 32 256 (record { chunk_given = true; array_given = true });
  dump = none;
  submitted = [];
}

dict_b-IsDict : IsDict dict_b (entry_b ∷ [])
unfolding find hash_fn hash_loop
dict_b-IsDict = record {
  contents = holds (
      steady ((entry_b ∷ []) ∷ [])
        (record {
          buckets = refl;
          sized = refl;
          masked = refl;
          placed = ((refl, tt), tt);
          counted = refl;
        })
        refl refl (Perm.refl _));
  unique = (refl, tt);
}

empty-IsDict : IsDict dict_init []
unfolding dict_init
empty-IsDict = record { contents = fresh refl refl refl refl refl refl; unique = tt }

server_b-Holds : Holds (server_with dict_b) (entry_b ∷ []) [] []
server_b-Holds = record {
  strings = dict_b-IsDict;
  zsets = empty-IsDict;
  hashes = empty-IsDict;
  small_zsets = omega arith;
  small_hashes = omega arith;
}

empty-Holds : Holds (server_with dict_init) [] [] []
empty-Holds = record {
  strings = empty-IsDict;
  zsets = empty-IsDict;
  hashes = empty-IsDict;
  small_zsets = omega arith;
  small_hashes = omega arith;
}

rdb_load-rdb_save_example :
    Ends
      (λ x. Holds x.0 (entry_b ∷ []) [] [] × (x.1 ≡ true))
      (rdb_save (server_with dict_b) 7 >>= λ file. rdb_load (server_with dict_init) file 9)
unfolding dict_init
rdb_load-rdb_save_example =
    rdb_load-rdb_save (server_with dict_b) (server_with dict_init) (entry_b ∷ []) 7 9 server_b-Holds
      (refl, tt) ((omega arith, omega arith), tt) (omega arith) empty-Holds
