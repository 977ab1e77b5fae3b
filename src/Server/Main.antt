-- ===== src/Server/Main.antt =====
-- backend/server.c: main, from its files to its files. The event loop calls the handlers; which requests it reads, and in
-- which order, is an argument, and one time stands for a whole run. The timer that main registers for serverCron is left out
-- (serverCron itself is in Server/Cron). Sockets and the threads of the pool are left out, and memory is always given.
use rediskrazy.Base.{◌>>=◌, ℕ, true, false, Option, none, some, List, [], ◌∷◌}
use rediskrazy.Dict.{dict_init}
use rediskrazy.Expheap.{expheap_init}
use rediskrazy.Mempool.{mempool_init}
use rediskrazy.Rdb.{rdb_save, rdb_load}
use rediskrazy.Server.{Server}
use rediskrazy.Server.Dispatch.{Others, read_query, load_aof}

-- appendonly.aof and dump.rdb, if they are there.
pub record Files : Type 0 where
  pub appendonly : Option (List ℕ)
  pub dump : Option (List ℕ)

-- Before a file is read. A DictEntry has 32 bytes.
unfoldable pub new_server : Option (List ℕ) → Server
new_server dump = record {
  g_data = dict_init;
  g_zsets = dict_init;
  g_hashes = dict_init;
  zset_objects = [];
  hash_objects = [];
  g_exp_heap = expheap_init 256;
  aof = none;
  client = false;
  sent = [];
  loop_stop = false;
  g_entry_pool = mempool_init 32 256 (record { chunk_given = true; array_given = true });
  dump = dump;
  submitted = [];
}

-- Without a log the snapshot is read, if there is one; what was read of it before an error stays.
unfoldable pub load_dump : Server → ℕ → Option Server
load_dump s now = elim (s.dump) [
  | none ↦ some s
  | some file ↦ rdb_load s file now >>= λ (s, _). some s
]

unfoldable pub load_files : Others → Files → ℕ → Option Server
load_files others files now = elim (files.appendonly) [
  | none ↦ load_dump (new_server files.dump) now
  | some content ↦ load_aof others (new_server files.dump) content now
]

abbrev pub log_before : Option (List ℕ) → List ℕ
log_before none = []
log_before (some file) = file

-- main, up to its call of aeMain: fopen(AOF_FILE, "ab+") makes an empty log where there is none.
unfoldable pub start_up : Others → Files → ℕ → Option Server
start_up others files now = load_files others files now >>= λ s.
    some (record s { aof = some (log_before files.appendonly); client = true })

-- The requests, in the order in which aeMain reads them.
unfoldable pub serve : Others → Server → List (List ℕ) → ℕ → Option Server
serve others s [] now = some s
serve others s (buf ∷ bufs) now = read_query others s buf now >>= λ s. serve others s bufs now

-- main, behind its call of aeMain.
unfoldable pub shut_down : Server → ℕ → Option Files
shut_down s now = rdb_save s now >>= λ file. some (record { appendonly = s.aof; dump = some file })

unfoldable pub main : Others → Files → List (List ℕ) → ℕ → Option Files
main others files bufs now =
    start_up others files now >>= λ s. serve others s bufs now >>= λ s. shut_down s now
