-- ===== src/Server/Dispatch.antt =====
-- backend/server.c: handle_command, readQueryFromClient and load_aof.
use rediskrazy.Base.{
  ◌>>=◌, ℕ, zero, suc, ◌+◌, true, false, ◌&&◌, ◌||◌, Option, none, some, List, [], ◌∷◌, ◌++◌, ltb,
  leb, if◌then◌else◌, length, drop, codes, ◌^◌,
}
use rediskrazy.Double.{Double}
use rediskrazy.Sds.{Sds}
use rediskrazy.Resp.{incomplete, invalid, request, resp_parse_array}
use rediskrazy.QueryServer.{eol}
use rediskrazy.Server.{Server, send_literal, send_all}
use rediskrazy.Server.Commands.{
  is_text, toupper, ok, handle_set, handle_get, handle_del, handle_exists, handle_incr, handle_ttl,
  handle_expire, handle_flushdb, handle_append, handle_setnx,
}
use rediskrazy.Server.Admin.{handle_save, handle_bg_task, handle_debug}
use rediskrazy.Server.Hashes.{handle_hset, handle_hgetall, handle_hscanall, handle_keys}
use rediskrazy.Server.Rewrite.{rewrite_aof}
use rediskrazy.Server.Zsets.{
  handle_zadd, handle_zscore, handle_zrange, handle_zrem, handle_zcard, handle_zrank,
}

unfoldable pub tolower : Sds → Sds
tolower [] = []
tolower (c ∷ s) = (if leb 65 c && leb c 90 then c + 32 else c) ∷ tolower s

-- CONFIG. g_use_aof_buffer is 0 in all of the program, so the policy of the buffer is never set.
unfoldable pub handle_config : Server → List Sds → Option Server
handle_config s (sub ∷ option ∷ value ∷ _) =
    if is_text sub (codes "SET")
    then (if is_text (tolower option) (codes "appendfsync")
        then (if is_text (tolower value) (codes "always")
              || (is_text (tolower value) (codes "everysec")
                  || is_text (tolower value) (codes "no"))
            then send_literal s ok 5
            else send_literal s (codes "-ERR invalid value for appendfsync" ++ eol) 36)
        else send_literal s (codes "-ERR unknown config option" ++ eol) 28)
    else send_literal s (codes "-ERR CONFIG requires SET subcommand" ++ eol) 37
handle_config s _ = send_literal s (codes "-ERR CONFIG requires SET subcommand" ++ eol) 37

-- How a double is read and printed by "%.17g", and the name that the event library gives itself.
pub record Others : Type 0 where
  pub atof : Sds → Double
  pub print_score : Double → List ℕ
  pub api_name : List ℕ

-- The chain of tests for the name of the command, from ZREM on.
unfoldable pub dispatch_more : Others → Server → Sds → List Sds → ℕ → Option Server
dispatch_more others s name args now =
    if is_text name (codes "ZREM")
    then handle_zrem s args now
    else if is_text name (codes "ZCARD")
    then handle_zcard s args now
    else if is_text name (codes "ZRANK")
    then handle_zrank s args now
    else if is_text name (codes "CONFIG")
    then handle_config s args
    else if is_text name (codes "DEBUG")
    then handle_debug others.api_name s args
    else if is_text name (codes "HSET")
    then handle_hset s args now
    else if is_text name (codes "HGETALL")
    then handle_hgetall s args now
    else if is_text name (codes "HSCANALL")
    then handle_hscanall s args
    else if is_text name (codes "KEYS")
    then handle_keys s args
    else some (send_all s (codes "-ERR unknown command" ++ eol))

-- The chain of tests for the name of the command.
unfoldable pub dispatch : Others → Server → Sds → List Sds → ℕ → Option Server
dispatch others s name args now =
    if is_text name (codes "PING")
    then send_literal s (codes "+PONG" ++ eol) 7
    else if is_text name (codes "SET")
    then handle_set s args now
    else if is_text name (codes "GET")
    then handle_get s args now
    else if is_text name (codes "DEL")
    then handle_del s args now
    else if is_text name (codes "EXISTS")
    then handle_exists s args now
    else if is_text name (codes "INCR")
    then handle_incr true s args now
    else if is_text name (codes "DECR")
    then handle_incr false s args now
    else if is_text name (codes "TTL")
    then handle_ttl s args now
    else if is_text name (codes "EXPIRE")
    then handle_expire s args now
    else if is_text name (codes "FLUSHDB")
    then handle_flushdb s
    else if is_text name (codes "ZADD")
    then handle_zadd others.atof s args now
    else if is_text name (codes "ZSCORE")
    then handle_zscore others.print_score s args now
    else if is_text name (codes "ZRANGE")
    then handle_zrange s args now
    else if is_text name (codes "SAVE")
    then handle_save s now
    else if is_text name (codes "BGREWRITEAOF")
    then (rewrite_aof others.print_score s now >>= λ s. send_literal s ok 5)
    else if is_text name (codes "BG_TASK")
    then handle_bg_task s args
    else if is_text name (codes "SHUTDOWN")
    then (send_literal s ok 5 >>= λ s. some (record s { loop_stop = true }))
    else if is_text name (codes "APPEND")
    then handle_append s args now
    else if is_text name (codes "SETNX")
    then handle_setnx s args now
    else dispatch_more others s name args now

unfoldable pub handle_command : Others → Server → List Sds → ℕ → Option Server
handle_command others s [] now = some s
handle_command others s (name ∷ args) now = dispatch others s (toupper name) args now

-- readQueryFromClient, for the bytes that recv returns.
unfoldable pub read_query : Others → Server → List ℕ → ℕ → Option Server
read_query others s buf now = resp_parse_array buf >>= λ p. elim p [
  | incomplete ↦ some s
  | invalid ↦ send_literal s (codes "-ERR parse error" ++ eol) 17
  | request argv n ↦ handle_command others s argv now
]

-- The loop of load_aof over what is left of the file.
unfoldable pub load_rounds : Others → ℕ → Server → List ℕ → ℕ → Option Server
load_rounds others zero s content now = none
load_rounds others (suc rounds) s [] now = some s
load_rounds others (suc rounds) s (c ∷ rest) now = resp_parse_array (c ∷ rest) >>= λ p. elim p [
  | incomplete ↦ some s
  | invalid ↦ some s
  | request argv n ↦
      handle_command others s argv now >>= λ s. load_rounds others rounds s (drop n (c ∷ rest)) now
]

-- load_aof, of a file that is read in full; the server has no client, and its log is not open. The length that is left
-- is passed as an int, which a file of 2 ^ 31 bytes does not fit.
unfoldable pub load_aof : Others → Server → List ℕ → ℕ → Option Server
load_aof others s content now =
    if ltb (length content) (2 ^ 31)
    then load_rounds others (suc (length content)) s content now
    else none
