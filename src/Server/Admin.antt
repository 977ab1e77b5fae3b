-- ===== src/Server/Admin.antt =====
-- backend/server.c: the commands SAVE, BG_TASK and DEBUG. What a task of BG_TASK does is to sleep and to print.
use rediskrazy.Base.{◌>>=◌, ℕ, Option, some, List, [], ◌∷◌, ◌++◌, if◌then◌else◌, length, codes}
use rediskrazy.Base.Int.{ℤ}
use rediskrazy.Sds.{Sds}
use rediskrazy.Resp.{atoi}
use rediskrazy.QueryServer.{decimal, eol}
use rediskrazy.Rdb.{rdb_save}
use rediskrazy.Server.{Server, send_literal, send_all}
use rediskrazy.Server.Commands.{is_text, ok}

unfoldable pub handle_save : Server → ℕ → Option Server
handle_save s now = rdb_save s now >>= λ file. send_literal (record s { dump = some file }) ok 5

-- tpool_add_work of a task of this duration.
abbrev pub submit_task : Server → ℤ → Server
submit_task s duration = record s { submitted = s.submitted ++ (duration ∷ []) }

unfoldable pub handle_bg_task : Server → List Sds → Option Server
handle_bg_task s (ms ∷ []) = atoi ms >>= λ duration.
    send_literal (submit_task s duration) (codes "+OK Background task submitted" ++ eol) 31
handle_bg_task s _ = send_literal s (codes "-ERR usage: BG_TASK <ms>" ++ eol) 26

-- What DEBUG says of the memory pool.
abbrev pub mempool_line : Server → List ℕ
mempool_line s =
    codes "+in_use:"
    ++ (decimal s.g_entry_pool.in_use
        ++ (codes " allocated:" ++ (decimal s.g_entry_pool.allocated ++ eol)))

-- `api_name` is what aeGetApiName returns.
unfoldable pub handle_debug : List ℕ → Server → List Sds → Option Server
handle_debug api_name s [] = send_literal s (codes "-ERR unknown DEBUG subcommand" ++ eol) 31
handle_debug api_name s (sub ∷ _) =
    if is_text sub (codes "MEMPOOL")
    then some (send_all s (mempool_line s))
    else if is_text sub (codes "EXPHEAP")
    then some (send_all s (codes "+size:" ++ (decimal (length s.g_exp_heap.entries) ++ eol)))
    else if is_text sub (codes "BARRIER")
    then send_literal s (codes "+OK AE_BARRIER event priority toggled" ++ eol) 39
    else if is_text sub (codes "IOBACKEND")
    then some (send_all s (43 ∷ (api_name ++ eol)))
    else send_literal s (codes "-ERR unknown DEBUG subcommand" ++ eol) 31
