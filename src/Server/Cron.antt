-- ===== src/Server/Cron.antt =====
-- backend/server.c: serverCron, which removes keys that have expired. The entry that it pops from the heap, and what
-- rand() gives in dict_active_expire, are as in Expheap and Dict/Sample. The buffer of the log is not in use.
use rediskrazy.Base.{
  ◌>>=◌, ℕ, zero, suc, ◌+◌, Bool, true, false, ◌&&◌, Option, none, some, ltb, leb, if◌then◌else◌,
  length,
}
use rediskrazy.Sds.{Sds}
use rediskrazy.Dict.{Dict, dict_get, dict_get_expiry, dict_delete}
use rediskrazy.Dict.Sample.{dict_active_expire}
use rediskrazy.Expheap.{expheap_peek, expheap_pop}
use rediskrazy.Server.{Server}

-- dict_get_expiry, and the deletion if the expiry has come; the second component says whether it has.
unfoldable pub delete_due : Dict → Sds → ℕ → Option (Dict × Bool)
delete_due d key now = dict_get_expiry d key now >>= λ (d, exp).
    if ltb 0 exp && leb exp now
    then (dict_delete d key >>= λ d. some (d, true))
    else some (d, false)

-- What is done with the key of an entry of the heap.
unfoldable pub expire_key : Server → Sds → ℕ → Option (Server × Bool)
expire_key s key now = dict_get s.g_data key now >>= λ (d, v). elim v [
  | some _ ↦ delete_due d key now >>= λ (d, b). some (record s { g_data = d }, b)
  | none ↦ dict_get s.g_zsets key now >>= λ (d', v'). elim v' [
    | some _ ↦ delete_due d' key now >>= λ (d', b). some (record s { g_data = d; g_zsets = d' }, b)
    | none ↦ some (record s { g_data = d; g_zsets = d' }, false)
  ]
]

-- The loop over the heap; `count` keys are removed so far.
unfoldable pub expire_loop : ℕ → Server → ℕ → ℕ → Option Server
expire_loop zero s now count = none
expire_loop (suc rounds) s now count = elim (expheap_peek s.g_exp_heap) [
  | none ↦ some s
  | some top ↦
      if ltb count 20 && leb top.expire now
      then (expheap_pop s.g_exp_heap >>= λ (heap, popped). popped >>= λ e.
          expire_key (record s { g_exp_heap = heap }) e.key now >>= λ (s, b).
          expire_loop rounds s now (if b then count + 1 else count))
      else some s
]

-- What rand() gives in one call of dict_active_expire.
pub record Draws : Type 0 where
  pub coin : ℕ
  pub rand : ℕ → ℕ

unfoldable pub server_cron : Server → Draws → Draws → ℕ → Option Server
server_cron s first second now = expire_loop (suc (length s.g_exp_heap.entries)) s now 0 >>= λ s.
    dict_active_expire s.g_data 10 first.coin first.rand now >>= λ (d, _).
    dict_active_expire s.g_zsets 10 second.coin second.rand now >>= λ (d', _).
    some (record s { g_data = d; g_zsets = d' })
