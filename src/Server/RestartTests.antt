-- ===== src/Server/RestartTests.antt =====
-- The theorems on the runs of main at concrete inputs.
use rediskrazy.Base.{◌>>=◌, ℕ, ◌≡◌, refl, none, some, List, [], ◌∷◌, Ends, arith, codes}
use rediskrazy.Rdb.{rdb_save}
use rediskrazy.Mempool.{mempool_init, mempool_grow, round_size}
use rediskrazy.Resp.{atoi, digits}
use rediskrazy.Base.Int.{pos}
use rediskrazy.Base.{◌++◌, bytes_eq}
use rediskrazy.Server.{send_literal, send_all}
use rediskrazy.Server.Commands.{c_string}
use rediskrazy.QueryServer.{eol, decimal, print_digits}
use rediskrazy.Server.Admin.{handle_bg_task, handle_debug}
use rediskrazy.Server.Main.{main, start_up}
use rediskrazy.Server.Strings.{Holds}
use rediskrazy.Server.Replay.{Op, set_op, del_op, apply_all}
use rediskrazy.Server.Restart.{mains, no_files, ops_of, start_up-mains}
use rediskrazy.Server.Forgets.{start_up-forgets}
use rediskrazy.Server.Tests.{no_others, server_c, server_c-Holds, entry_a}

-- What the client of DEBUG and BG_TASK is sent.
debug_mempool :
    (handle_debug [] server_c (codes "MEMPOOL" ∷ []) >>= λ s. some s.sent)
    ≡ some (codes "+in_use:0 allocated:256" ++ eol)
unfolding handle_debug c_string bytes_eq decimal print_digits send_all mempool_init mempool_grow
    round_size
debug_mempool = refl

bg_task_usage :
    (handle_bg_task server_c [] >>= λ s. some s.sent)
    ≡ some (codes "-ERR usage: BG_TASK <ms>" ++ eol)
unfolding handle_bg_task send_literal
bg_task_usage = refl

bg_task_submits :
    (handle_bg_task server_c ((53 ∷ 48 ∷ []) ∷ []) >>= λ s. some s.submitted) ≡ some (pos 50 ∷ [])
unfolding handle_bg_task send_literal atoi digits
bg_task_submits = refl

-- Two runs with requests, and one without.
abbrev three_runs : List (List Op × ℕ)
three_runs =
    (set_op (97 ∷ []) (49 ∷ []) ∷ set_op (98 ∷ []) (50 ∷ []) ∷ [], 7)
    ∷ ([], 8)
    ∷ (set_op (97 ∷ []) (51 ∷ []) ∷ del_op (98 ∷ []) ∷ [], 9)
    ∷ []

start_up-mains_example :
    Ends
      (λ s. Holds s (apply_all [] (ops_of three_runs)) [] [])
      (mains no_others no_files three_runs >>= λ files. start_up no_others files 10)
unfolding decimal print_digits
start_up-mains_example =
    start_up-mains no_others three_runs 10
      (omega arith, (omega arith, (omega arith, (omega arith, tt)))) (omega arith)

start_up-forgets_example :
    Ends
      (λ file.
        Ends
          (λ r. Holds r (entry_a ∷ []) [] [])
          (start_up no_others (record { appendonly = none; dump = some file }) 9)
        × Ends
            (λ r. Holds r [] [] [])
            (main no_others (record { appendonly = none; dump = some file }) [] 9 >>= λ files.
              start_up no_others files 9))
      (rdb_save server_c 7)
start_up-forgets_example =
    start_up-forgets no_others server_c (entry_a ∷ []) 7 9 server_c-Holds (refl, tt)
      ((omega arith, omega arith), tt) (omega arith)
