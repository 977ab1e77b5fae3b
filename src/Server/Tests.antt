-- ===== src/Server/Tests.antt =====
-- The theorems on the server at concrete inputs.
use rediskrazy.Base.{
  ◌*◌, ◌>>=◌, ℕ, ◌≡◌, refl, true, false, none, some, List, [], ◌∷◌, ◌++◌, Ends, arith, codes,
  bytes_eq, if◌then◌else◌,
}
use mathlib.Core.List.Perm
use rediskrazy.Dict.{DictEntry, Dict, dict_init, dict_reset, find, hash_fn, hash_loop}
use rediskrazy.Dict.Growth.{fresh, holds}
use rediskrazy.Dict.Rehash.{steady}
use rediskrazy.Dict.Contents.{IsDict, live_entry}
use rediskrazy.Dict.Expiry.{value_of}
use rediskrazy.Expheap.{expheap_init}
use rediskrazy.Mempool.{mempool_init}
use rediskrazy.Server.{Server}
use rediskrazy.Server.Commands.{ok, handle_flushdb, flush_record}
use rediskrazy.Server.Dispatch.{Others, handle_command, load_aof}
use rediskrazy.Server.Strings.{Holds}
use rediskrazy.Server.Handlers.{get_reply, set-get}
use rediskrazy.Server.Replay.{Op, set_op, del_op}
use rediskrazy.Server.WrongType.{zadd, Refused, ZsetCommand-Refused}
use rediskrazy.Server.Rewrite.{rewrite_aof}
use rediskrazy.Server.Rewritten.{rewrite_aof-replayed}
use rediskrazy.Expheap.Order.{IsHeap}
use rediskrazy.Server.Cron.{Draws, server_cron}
use rediskrazy.Server.Expiring.{Expired}
use rediskrazy.Server.CronRun.{server_cron-Expired}
use rediskrazy.Server.Flush.{flush_record-stops}

-- A server after the start, with an open log and a connected client.
abbrev pub server_a : Server
server_a = record {
  g_data = dict_init;
  g_zsets = dict_init;
  g_hashes = dict_init;
  zset_objects = [];
  hash_objects = [];
  g_exp_heap = expheap_init 256;
  aof = some [];
  client = true;
  sent = [];
  loop_stop = false;
  g_entry_pool = mempool_init 32 256 (record { chunk_given = true; array_given = true });
  dump = none;
  submitted = [];
}

-- A server that reads its log: without a client, and the log is not open.
abbrev server_b : Server
server_b = record server_a { aof = none; client = false }

-- No double is read or printed here, and the other commands do nothing.
abbrev pub no_others : Others
no_others = record { atof = λ a. 0; print_score = λ d. []; api_name = codes "epoll" }

dict_init-IsDict : IsDict dict_init []
unfolding dict_init
dict_init-IsDict = record { contents = fresh refl refl refl refl refl refl; unique = tt }

server_a-Holds : Holds server_a [] [] []
server_a-Holds = record {
  strings = dict_init-IsDict;
  zsets = dict_init-IsDict;
  hashes = dict_init-IsDict;
  small_zsets = omega arith;
  small_hashes = omega arith;
}

server_b-Holds : Holds server_b [] [] []
server_b-Holds = record {
  strings = dict_init-IsDict;
  zsets = dict_init-IsDict;
  hashes = dict_init-IsDict;
  small_zsets = omega arith;
  small_hashes = omega arith;
}

abbrev ops_a : List Op
ops_a =
    set_op (97 ∷ []) (49 ∷ [])
    ∷ set_op (98 ∷ []) (50 ∷ [])
    ∷ set_op (97 ∷ []) (51 ∷ [])
    ∷ del_op (98 ∷ [])
    ∷ []

set-get_example :
    Ends
      (λ s'.
        s'.sent
        ≡ (server_a.sent ++ ok)
          ++ get_reply (
              if bytes_eq (97 ∷ []) (97 ∷ [])
              then some (49 ∷ [])
              else value_of (live_entry 8 (97 ∷ []) [])))
      (handle_command no_others server_a (codes "SET" ∷ (97 ∷ []) ∷ (49 ∷ []) ∷ []) 7 >>= λ s.
        handle_command no_others s (codes "GET" ∷ (97 ∷ []) ∷ []) 8)
set-get_example =
    set-get no_others server_a (97 ∷ []) (49 ∷ []) (97 ∷ []) [] [] [] 7 8 server_a-Holds
      (omega arith) (unfold find in refl) (unfold find in refl) (unfold find in refl) refl

flush_record-stops_example :
    load_aof no_others server_b (flush_record ++ (42 ∷ [])) 9 ≡ handle_flushdb server_b
flush_record-stops_example = flush_record-stops no_others server_b (42 ∷ []) 9 (omega arith)

abbrev pub entry_a : DictEntry
entry_a = record { key = (97 ∷ []); val = (49 ∷ []); expire = 0 }

-- The string a = 1, in a table with one bucket.
abbrev pub dict_a : Dict
dict_a = record {
  ht0 = record { table = some ((entry_a ∷ []) ∷ []); size = 1; sizemask = 0; used = 1 };
  ht1 = dict_reset;
  rehashidx = none;
}

dict_a-IsDict : IsDict dict_a (entry_a ∷ [])
unfolding find hash_fn hash_loop
dict_a-IsDict = record {
  contents = holds (
      steady ((entry_a ∷ []) ∷ [])
        (record {
          buckets = refl;
          sized = refl;
          masked = refl;
          placed = ((refl, tt), tt);
          counted = refl;
        })
        refl refl (Perm.refl _));
  unique = (refl, tt);
}

abbrev pub server_c : Server
server_c = record server_a { g_data = dict_a }

pub server_c-Holds : Holds server_c (entry_a ∷ []) [] []
server_c-Holds = record {
  strings = dict_a-IsDict;
  zsets = dict_init-IsDict;
  hashes = dict_init-IsDict;
  small_zsets = omega arith;
  small_hashes = omega arith;
}

ZsetCommand-Refused_example :
    Ends
      (Refused server_c (entry_a ∷ []) [] [])
      (handle_command no_others server_c (codes "ZADD" ∷ (97 ∷ []) ∷ (50 ∷ []) ∷ (98 ∷ []) ∷ []) 7)
ZsetCommand-Refused_example =
    ZsetCommand-Refused no_others server_c (97 ∷ []) (49 ∷ [])
      (codes "ZADD" ∷ (97 ∷ []) ∷ (50 ∷ []) ∷ (98 ∷ []) ∷ []) (entry_a ∷ []) [] [] 7
      (zadd (50 ∷ []) (98 ∷ []) []) server_c-Holds (omega arith) (unfold find bytes_eq in refl)

rewrite_aof-replayed_example :
    Ends
      (λ s'.
        (w : List ℕ) × (s'.aof ≡ some w)
        × Ends (λ r'. Holds r' (entry_a ∷ []) [] []) (load_aof no_others server_b w 9))
      (rewrite_aof no_others.print_score server_c 7)
unfolding dict_init
rewrite_aof-replayed_example =
    rewrite_aof-replayed no_others server_c server_b (entry_a ∷ []) 7 9 server_c-Holds (refl, tt)
      (omega arith) server_b-Holds

-- The heap has an entry for the key, which is due.
abbrev server_d : Server
server_d = record server_c {
  g_exp_heap = record { entries = record { key = 97 ∷ []; expire = 5 } ∷ []; capacity = 256 };
}

server_d-Holds : Holds server_d (entry_a ∷ []) [] []
server_d-Holds = record {
  strings = dict_a-IsDict;
  zsets = dict_init-IsDict;
  hashes = dict_init-IsDict;
  small_zsets = omega arith;
  small_hashes = omega arith;
}

one-IsHeap : IsHeap server_d.g_exp_heap.entries
one-IsHeap i z s = absurd (omega arith)

abbrev some_draws : Draws
some_draws = record { coin = 1; rand = λ i. i * 3 }

server_cron-Expired_example :
    Ends (Expired server_d (entry_a ∷ []) [] [] 7 0) (server_cron server_d some_draws some_draws 7)
server_cron-Expired_example =
    server_cron-Expired server_d some_draws some_draws (entry_a ∷ []) [] [] 7 server_d-Holds
      (omega arith) one-IsHeap
