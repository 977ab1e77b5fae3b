-- ===== src/QueryServer/ReplyTests.antt =====
-- The replies of the store to the query server, at concrete inputs.
use rediskrazy.Base.{ℕ, ◌≡◌, refl, false, none, some, [], ◌∷◌, arith, codes, bytes_eq}
use rediskrazy.Base.{ap, List, length}
use rediskrazy.Sds.{sdssplitargs, skip_isspace, until, split_arg, split_rounds}
use rediskrazy.QueryServer.{decimal, print_digits}
use rediskrazy.QueryServer.Answer.{Chunk, connected, execute_redis_cmd}
use rediskrazy.QueryServer.Whole.{delivered}
use rediskrazy.Lexer.{equal_ignoring_case}
use rediskrazy.Translator.{SqlResult}
use mathlib.Core.List.Perm
use rediskrazy.Base.{All, map, Ends, true}
use rediskrazy.Dict.{DictEntry, Dict, dict_init, dict_reset, find, hash_fn, hash_loop}
use rediskrazy.Dict.Growth.{holds}
use rediskrazy.Dict.Rehash.{steady}
use rediskrazy.Dict.Contents.{IsDict}
use rediskrazy.Expheap.{expheap_init}
use rediskrazy.Zset.{bytes_of, number_of}
use rediskrazy.Mempool.{mempool_init}
use rediskrazy.Server.{Server, pointer_to, deref}
use rediskrazy.Server.Hashes.{entries_of}
use rediskrazy.Server.Dispatch.{Others, read_query}
use rediskrazy.QueryServer.Reply.{unfilled}
use rediskrazy.QueryServer.Rows.{IsPrintable, last_value}
use rediskrazy.QueryServer.Store.{hgetall_reply, hgetall-read}

abbrev entry_id : DictEntry
entry_id = record { key = codes "id"; val = codes "7"; expire = 0 }

abbrev entry_name : DictEntry
entry_name = record { key = codes "name"; val = codes "Ann Lee"; expire = 0 }

-- The hash with the fields id and name.
abbrev person : Dict
person = record {
  ht0 = record {
    table = some ((entry_id ∷ entry_name ∷ []) ∷ []);
    size = 1;
    sizemask = 0;
    used = 2;
  };
  ht1 = dict_reset;
  rehashidx = none;
}

abbrev pointer_entry : DictEntry
pointer_entry = record { key = codes "k"; val = pointer_to 0; expire = 0 }

abbrev hashes_a : Dict
hashes_a = record {
  ht0 = record { table = some ((pointer_entry ∷ []) ∷ []); size = 1; sizemask = 0; used = 1 };
  ht1 = dict_reset;
  rehashidx = none;
}

hashes_a-IsDict : IsDict hashes_a (pointer_entry ∷ [])
unfolding find hash_fn hash_loop
hashes_a-IsDict = record {
  contents = holds (
      steady ((pointer_entry ∷ []) ∷ [])
        (record {
          buckets = refl;
          sized = refl;
          masked = refl;
          placed = ((refl, tt), tt);
          counted = refl;
        })
        refl refl (Perm.refl _));
  unique = (refl, tt);
}

-- The store with the hash k.
abbrev store_a : Server
store_a = record {
  g_data = dict_init;
  g_zsets = dict_init;
  g_hashes = hashes_a;
  zset_objects = [];
  hash_objects = some person ∷ [];
  g_exp_heap = expheap_init 256;
  aof = none;
  client = true;
  sent = [];
  loop_stop = false;
  g_entry_pool = mempool_init 32 256 (record { chunk_given = true; array_given = true });
  dump = none;
  submitted = [];
}

abbrev no_others : Others
no_others = record { atof = λ a. 0; print_score = λ d. []; api_name = codes "epoll" }

-- The result of a SELECT before the reply.
abbrev selected : SqlResult
selected = record {
  headers = codes "ID" ∷ codes "name" ∷ codes "age" ∷ [];
  rows = (codes "PENDING" ∷ codes "PENDING" ∷ codes "PENDING" ∷ []) ∷ [];
  error = none;
  redis_cmd = some (codes "HGETALL k");
}

person-IsPrintable : All IsPrintable (entries_of person)
person-IsPrintable = (
  (omega arith, omega arith, (refl, (refl, tt)), (refl, tt)),
  (
    (
      omega arith,
      omega arith,
      (refl, (refl, (refl, (refl, tt)))),
      (refl, (refl, (refl, (refl, (refl, (refl, (refl, tt))))))),
    ),
    tt,
  ),
)

filled_row :
    map (λ c. last_value c none (entries_of person)) selected.headers
    ≡ some (codes "7") ∷ some (codes "Ann Lee") ∷ none ∷ []
unfolding equal_ignoring_case bytes_eq
filled_row = refl

-- The reply in two pieces.
abbrev pieces : List Chunk
pieces =
    record { bytes = codes "*4\r\n$2\r\nid\r\n$1\r\n7\r\n"; more = true }
    ∷ record { bytes = codes "$4\r\nname\r\n$7\r\nAnn Lee\r\n"; more = false }
    ∷ []

pieces_reply : delivered pieces ≡ hgetall_reply person
unfolding hgetall_reply decimal print_digits
pieces_reply = refl

hgetall-read_example :
    (resp : List ℕ) × Ends
      (λ s'.
        (s'.sent ≡ delivered pieces)
        × (execute_redis_cmd selected (connected pieces)
            ≡ some (
              resp,
              record (unfilled selected) {
                rows = map (λ c. last_value c none (entries_of person)) selected.headers ∷ [];
              },
            )))
      (read_query no_others store_a resp 5)
hgetall-read_example =
    hgetall-read no_others store_a selected (codes "HGETALL k") pieces (codes "k") (pointer_to 0)
      (pointer_entry ∷ []) 0 person 5 hashes_a-IsDict (omega arith) (unfold find bytes_eq in refl)
      (unfold deref bytes_of number_of in refl) refl refl refl
      (unfold sdssplitargs split_rounds skip_isspace split_arg until in refl) (omega arith)
      (unfold bytes_eq in refl) refl
      (unfold equal_ignoring_case bytes_eq in ((refl, (refl, tt)), ((refl, tt), (tt, tt))))
      person-IsPrintable (omega arith) (omega arith, refl, omega arith) pieces_reply
      (omega (arith, ap length pieces_reply))
