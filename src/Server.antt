-- ===== src/Server.antt =====
-- backend/server.c: the keys of the server, its log, and the commands on strings and hashes.
-- `sent` is what the client of the command was sent; `aof` is what the log holds, if it is open; `dump` is the file
-- dump.rdb, if there is one; `submitted` are the tasks given to the thread pool, by their durations. An object
-- behind a pointer is its place among those allocated, and a freed one is `none`; the pointer that a dictionary
-- stores as a value is its 8 bytes. `none` as a result is an access outside of an object, an overflow, or a
-- loop that does not end. All readings of the clock in one command give `now`, and a send takes all its bytes.
pub mod Commands
pub mod Hashes
pub mod Zsets
pub mod Rewrite
pub mod Cron
pub mod Gone
pub mod Due
pub mod Expiring
pub mod CronRun
pub mod Admin
pub mod Dispatch
pub mod Main
pub mod Log
pub mod Strings
pub mod Handlers
pub mod Replay
pub mod Logs
pub mod Durable
pub mod Requests
pub mod StartUp
pub mod Restart
pub mod Forgets
pub mod Rewritten
pub mod Flush
pub mod WrongType
pub mod Tests
pub mod RestartTests
use rediskrazy.Base.{
  ◌>>=◌, ℕ, zero, suc, ◌+◌, ◌-◌, Bool, true, false, ◌&&◌, not, Option, none, some, List, [], ◌∷◌,
  ◌++◌, ltb, leb, ◌==◌, if◌then◌else◌, length, get_elem?, set, take, codes,
}
use rediskrazy.Base.Int.{ℤ, pos, negsuc}
use rediskrazy.Sds.{Sds}
use rediskrazy.Dict.{Dict, dict_init, dict_get, dict_put, dict_delete, dict_clear}
use rediskrazy.Zset.{Zset, bytes_of, number_of}
use rediskrazy.Expheap.{ExpHeap, expheap_push}
use rediskrazy.Mempool.{MemPool}
use rediskrazy.QueryServer.{decimal, eol}

pub record Server : Type 0 where
  pub g_data : Dict
  pub g_zsets : Dict
  pub g_hashes : Dict
  pub zset_objects : List (Option Zset)
  pub hash_objects : List (Option Dict)
  pub g_exp_heap : ExpHeap
  pub aof : Option (List ℕ)
  pub client : Bool
  pub sent : List ℕ
  pub loop_stop : Bool
  pub g_entry_pool : MemPool
  pub dump : Option (List ℕ)
  pub submitted : List ℤ

-- send_all of `len` bytes of a string literal, with the 0 at its end. Without a client nothing is read.
unfoldable pub send_literal : Server → List ℕ → ℕ → Option Server
send_literal s str len =
    if s.client
    then (if leb len (length str + 1)
        then some (record s { sent = s.sent ++ take len (str ++ (0 ∷ [])) })
        else none)
    else some s

-- send_all of a buffer.
unfoldable pub send_all : Server → List ℕ → Server
send_all s buf = if s.client then record s { sent = s.sent ++ buf } else s

-- fprintf and fwrite to the log, if it is open.
unfoldable pub write_log : Server → List ℕ → Server
write_log s record_bytes = elim (s.aof) [
  | none ↦ s
  | some written ↦ record s { aof = some (written ++ record_bytes) }
]

-- "$%zu\r\n", the bytes, "\r\n"
abbrev pub bulk : Sds → List ℕ
bulk a = 36 ∷ (decimal (length a) ++ (eol ++ (a ++ eol)))

abbrev pub line : List ℕ → List ℕ
line text = text ++ eol

-- What is logged for SET.
abbrev pub set_record : Sds → Sds → List ℕ
set_record key val =
    line (codes "*3") ++ (line (codes "$3") ++ (line (codes "SET") ++ (bulk key ++ bulk val)))

-- What is logged for DEL.
abbrev pub del_record : Sds → List ℕ
del_record key = line (codes "*2") ++ (line (codes "$3") ++ (line (codes "DEL") ++ bulk key))

-- ttl_seconds > 0
abbrev pub is_positive : ℤ → Bool
is_positive (pos n) = ltb 0 n
is_positive (negsuc n) = false

abbrev pub magnitude : ℤ → ℕ
magnitude (pos n) = n
magnitude (negsuc n) = 0

unfoldable pub set_kv : Server → Sds → Sds → ℤ → ℕ → Option Server
set_kv s key val ttl_seconds now = dict_put s.g_data key val ttl_seconds now >>= λ d.
    (if is_positive ttl_seconds
      then expheap_push s.g_exp_heap key (now + magnitude ttl_seconds)
      else some s.g_exp_heap)
    >>= λ heap. some (write_log (record s { g_data = d; g_exp_heap = heap }) (set_record key val))

unfoldable pub get_kv : Server → Sds → ℕ → Option (Server × Option Sds)
get_kv s key now = dict_get s.g_data key now >>= λ (d, v). some (record s { g_data = d }, v)

-- The pointer with this place, and the place of a pointer.
abbrev pub pointer_to : ℕ → Sds
pointer_to i = bytes_of 8 i

-- *(T**)v: the place, and the object.
unfoldable pub deref : {A : Type 0} → List (Option A) → Sds → Option (ℕ × A)
deref objects v = number_of 8 v >>= λ i. get_elem? objects i >>= λ o. o >>= λ a. some (i, a)

-- The part of delete_key for the hashes.
unfoldable pub delete_hash : Server → Sds → ℕ → Option (Server × Bool)
delete_hash s key now = dict_get s.g_hashes key now >>= λ (d, v). elim v [
  | none ↦ some (record s { g_hashes = d }, false)
  | some v ↦ deref s.hash_objects v >>= λ (i, h). dict_delete d key >>= λ d. some (
    write_log (record s { g_hashes = d; hash_objects = set s.hash_objects i none })
        (del_record key),
    true,
  )
]

-- The part of delete_key for the sorted sets and the hashes.
unfoldable pub delete_zset : Server → Sds → ℕ → Option (Server × Bool)
delete_zset s key now = dict_get s.g_zsets key now >>= λ (d, v). elim v [
  | none ↦ delete_hash (record s { g_zsets = d }) key now
  | some v ↦ deref s.zset_objects v >>= λ (i, z). dict_delete d key >>= λ d. some (
    write_log (record s { g_zsets = d; zset_objects = set s.zset_objects i none }) (del_record key),
    true,
  )
]

-- The second component is the result, 1 or 0.
unfoldable pub delete_key : Server → Sds → ℕ → Option (Server × Bool)
delete_key s key now = dict_get s.g_data key now >>= λ (d, v). elim v [
  | none ↦ delete_zset (record s { g_data = d }) key now
  | some _ ↦
      dict_delete d key >>= λ d. some (write_log (record s { g_data = d }) (del_record key), true)
]

abbrev pub is_there : Option Sds → Bool
is_there none = false
is_there (some v) = true

-- dict_get of a string, a sorted set and a hash, as a test.
unfoldable pub has_string : Server → Sds → ℕ → Option (Server × Bool)
has_string s key now =
    dict_get s.g_data key now >>= λ (d, v). some (record s { g_data = d }, is_there v)

unfoldable pub has_zset : Server → Sds → ℕ → Option (Server × Bool)
has_zset s key now =
    dict_get s.g_zsets key now >>= λ (d, v). some (record s { g_zsets = d }, is_there v)

unfoldable pub has_hash : Server → Sds → ℕ → Option (Server × Bool)
has_hash s key now =
    dict_get s.g_hashes key now >>= λ (d, v). some (record s { g_hashes = d }, is_there v)

unfoldable pub exists_key : Server → Sds → ℕ → Option (Server × Bool)
exists_key s key now = has_string s key now >>= λ (s, b). elim b [
  | true ↦ some (s, true)
  | false ↦
      has_zset s key now >>= λ (s, b). elim b [ true ↦ some (s, true) | false ↦ has_hash s key now ]
]
