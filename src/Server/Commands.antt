-- ===== src/Server/Commands.antt =====
-- backend/server.c: handle_command, for the commands on strings and hashes, and readQueryFromClient.
use rediskrazy.Base.{
  ◌>>=◌, ℕ, suc, ◌+◌, ◌-◌, Bool, true, false, ◌&&◌, Option, none, some, List, [], ◌∷◌, ◌++◌, ltb,
  leb, ◌==◌, if◌then◌else◌, length, codes, bytes_eq, ◌^◌, min,
}
use rediskrazy.Base.Int.{ℤ, pos, negsuc, sub_ℕ}
use rediskrazy.Sds.{Sds, isspace}
use rediskrazy.Dict.{dict_get_expiry, dict_set_expiry, dict_clear}
use rediskrazy.Expheap.{expheap_push}
use rediskrazy.Resp.{atoi, digits}
use rediskrazy.QueryServer.{decimal, eol}
use rediskrazy.Server.{
  Server, send_literal, send_all, write_log, bulk, line, set_kv, get_kv, delete_key, has_string,
  has_zset, exists_key,
}

-- The bytes up to a 0, as strcmp and %s read them.
unfoldable pub c_string : Sds → List ℕ
c_string [] = []
c_string (c ∷ s) = let rest = c_string s in if c == 0 then [] else c ∷ rest

-- strcmp(a, text) == 0
abbrev pub is_text : Sds → List ℕ → Bool
is_text a text = bytes_eq (c_string a) text

unfoldable pub toupper : Sds → Sds
toupper [] = []
toupper (c ∷ s) = (if leb 97 c && leb c 122 then c - 32 else c) ∷ toupper s

abbrev pub wrong_type : List ℕ
wrong_type = codes "-WRONGTYPE Operation against a key holding the wrong kind of value" ++ eol

-- The error for a command without its arguments; `len` is the length that the code passes.
abbrev pub wrong_number : Server → List ℕ → ℕ → Option Server
wrong_number s name len =
    send_literal s (codes "-ERR wrong number of arguments for '" ++ (name ++ (39 ∷ eol))) len

abbrev pub ok : List ℕ
ok = codes "+OK" ++ eol

abbrev pub nil : List ℕ
nil = codes "$-1" ++ eol

-- ":%d\r\n"
abbrev pub integer : ℕ → List ℕ
integer n = 58 ∷ (decimal n ++ eol)

-- The time to live that SET takes from its arguments.
unfoldable pub set_ttl : List Sds → Option ℤ
set_ttl argv = elim argv [
  | [] ↦ some (pos 0)
  | ex ∷ rest ↦ elim rest [
    | [] ↦ some (pos 0)
    | seconds ∷ _ ↦ if is_text (toupper ex) (codes "EX") then atoi seconds else some (pos 0)
  ]
]

-- The handlers take the arguments behind the name of the command.
unfoldable pub handle_set : Server → List Sds → ℕ → Option Server
handle_set s (key ∷ val ∷ more) now = delete_key s key now >>= λ (s, _).
    set_ttl more >>= λ ttl. set_kv s key val ttl now >>= λ s. send_literal s ok 5
handle_set s _ now = wrong_number s (codes "SET") 45

unfoldable pub handle_get : Server → List Sds → ℕ → Option Server
handle_get s (key ∷ _) now = has_zset s key now >>= λ (s, b). elim b [
  | true ↦ send_literal s wrong_type 68
  | false ↦ get_kv s key now >>= λ (s, v). elim v [
    | none ↦ send_literal s nil 5
    | some v ↦ some (send_all s (bulk v))
  ]
]
handle_get s [] now = wrong_number s (codes "GET") 45

-- The loop of DEL; `n` keys are deleted so far.
unfoldable pub delete_keys : Server → List Sds → ℕ → ℕ → Option (Server × ℕ)
delete_keys s [] now n = some (s, n)
delete_keys s (key ∷ keys) now n =
    delete_key s key now >>= λ (s, b). delete_keys s keys now (if b then n + 1 else n)

unfoldable pub handle_del : Server → List Sds → ℕ → Option Server
handle_del s (key ∷ keys) now =
    delete_keys s (key ∷ keys) now 0 >>= λ (s, deleted). some (send_all s (integer deleted))
handle_del s [] now = wrong_number s (codes "DEL") 45

-- The loop of EXISTS.
unfoldable pub count_keys : Server → List Sds → ℕ → ℕ → Option (Server × ℕ)
count_keys s [] now n = some (s, n)
count_keys s (key ∷ keys) now n =
    exists_key s key now >>= λ (s, b). count_keys s keys now (if b then n + 1 else n)

unfoldable pub handle_exists : Server → List Sds → ℕ → Option Server
handle_exists s (key ∷ keys) now =
    count_keys s (key ∷ keys) now 0 >>= λ (s, count). some (send_all s (integer count))
handle_exists s [] now = wrong_number s (codes "EXISTS") 48

-- The seconds until an expiry, or -1 if there is none.
abbrev pub ttl_reply : ℕ → ℕ → List ℕ
ttl_reply expire now = if expire == 0 then codes ":-1" ++ eol else integer (expire - now)

unfoldable pub handle_ttl : Server → List Sds → ℕ → Option Server
handle_ttl s [] now = none
handle_ttl s (key ∷ _) now = has_string s key now >>= λ (s, b). elim b [
  | true ↦ dict_get_expiry s.g_data key now >>= λ (d, expire).
      some (send_all (record s { g_data = d }) (ttl_reply expire now))
  | false ↦ has_zset s key now >>= λ (s, b). elim b [
    | true ↦ dict_get_expiry s.g_zsets key now >>= λ (d, expire).
        some (send_all (record s { g_zsets = d }) (ttl_reply expire now))
    | false ↦ send_literal s (codes ":-2" ++ eol) 5
  ]
]

-- What is logged for EXPIRE.
abbrev pub expire_record : Sds → Sds → List ℕ
expire_record key seconds =
    line (codes "*3")
    ++ (line (codes "$6")
        ++ (line (codes "EXPIRE")
            ++ (36
                ∷ (decimal (length key)
                    ++ (eol
                        ++ (c_string key
                            ++ (eol
                                ++ (36
                                    ∷ (decimal (length seconds)
                                        ++ (eol ++ (c_string seconds ++ eol)))))))))))

-- time(NULL) + ttl, which is at least 0.
abbrev pub expire_at : ℕ → ℤ → Option ℕ
expire_at now (pos n) = some (now + n)
expire_at now (negsuc n) = if ltb n now then some (now - suc n) else none

-- dict_set_expiry for a string, or else for a sorted set.
unfoldable pub set_key_expiry : Server → Sds → ℤ → ℕ → Option (Server × Bool)
set_key_expiry s key ttl now = dict_set_expiry s.g_data key ttl now >>= λ (d, res). elim res [
  | true ↦ some (record s { g_data = d }, true)
  | false ↦ dict_set_expiry s.g_zsets key ttl now >>= λ (d', res).
      some (record s { g_data = d; g_zsets = d' }, res)
]

unfoldable pub handle_expire : Server → List Sds → ℕ → Option Server
handle_expire s (key ∷ seconds ∷ _) now = atoi seconds >>= λ ttl.
    set_key_expiry s key ttl now >>= λ (s, res). elim res [
      | false ↦ send_literal s (codes ":0" ++ eol) 4
      | true ↦ expire_at now ttl >>= λ at. expheap_push s.g_exp_heap key at >>= λ heap.
          send_literal (record s { g_exp_heap = heap }) (codes ":1" ++ eol) 4 >>= λ s.
          some (write_log s (expire_record key seconds))
    ]
handle_expire s _ now = wrong_number s (codes "EXPIRE") 48

-- What is logged for FLUSHDB.
abbrev pub flush_record : List ℕ
flush_record = line (codes "*1") ++ (line (codes "$7") ++ (line (codes "FLUSHDB") ++ eol))

unfoldable pub handle_flushdb : Server → Option Server
handle_flushdb s =
    send_literal
      (write_log (record s { g_data = dict_clear s.g_data; g_zsets = dict_clear s.g_zsets })
        flush_record)
      ok 5

-- expire > now ? expire - now : 0, as a time to live.
abbrev pub time_left : ℕ → ℕ → ℤ
time_left expire now = if ltb now expire then pos (expire - now) else pos 0

unfoldable pub handle_append : Server → List Sds → ℕ → Option Server
handle_append s (key ∷ more ∷ _) now = has_zset s key now >>= λ (s, b). elim b [
  | true ↦ send_literal s wrong_type 68
  | false ↦ get_kv s key now >>= λ (s, cur).
      let newval : Sds = elim cur [ none ↦ more | some v ↦ v ++ more ] in
      dict_get_expiry s.g_data key now >>= λ (d, expire).
      set_kv (record s { g_data = d }) key newval (time_left expire now) now >>= λ s.
      some (send_all s (integer (length newval)))
]
handle_append s _ now = wrong_number s (codes "APPEND") 48

unfoldable pub handle_setnx : Server → List Sds → ℕ → Option Server
handle_setnx s (key ∷ val ∷ _) now = exists_key s key now >>= λ (s, b). elim b [
  | true ↦ send_literal s (codes ":0" ++ eol) 4
  | false ↦ set_kv s key val (pos 0) now >>= λ s. send_literal s (codes ":1" ++ eol) 4
]
handle_setnx s _ now = wrong_number s (codes "SETNX") 47

-- strtoll, in base 10: out of its range the result is the nearest end of it.
unfoldable pub strtoll : List ℕ → ℤ
strtoll [] = pos 0
strtoll (c ∷ s) =
    let rest = strtoll s in
    if isspace c
    then rest
    else if c == 45
    then sub_ℕ 0 (min (2 ^ 63) (digits 0 s))
    else if c == 43
    then pos (min (2 ^ 63 - 1) (digits 0 s))
    else pos (min (2 ^ 63 - 1) (digits 0 (c ∷ s)))

-- %lld
abbrev pub print_ℤ : ℤ → List ℕ
print_ℤ (pos n) = decimal n
print_ℤ (negsuc n) = 45 ∷ decimal (suc n)

-- val++ or val--, which may not leave the range of long long.
unfoldable pub count_up : Bool → ℤ → Option ℤ
count_up true (pos n) = if ltb (n + 1) (2 ^ 63) then some (pos (n + 1)) else none
count_up true (negsuc n) = some (sub_ℕ 0 n)
count_up false (pos n) = some (sub_ℕ n 1)
count_up false (negsuc n) = if ltb (suc n) (2 ^ 63) then some (negsuc (suc n)) else none

abbrev pub number_in : Option Sds → ℤ
number_in none = pos 0
number_in (some curr) = strtoll (c_string curr)

-- INCR, if `up`, and DECR.
unfoldable pub handle_incr : Bool → Server → List Sds → ℕ → Option Server
handle_incr up s [] now = none
handle_incr up s (key ∷ _) now = has_zset s key now >>= λ (s, b). elim b [
  | true ↦ send_literal s wrong_type 68
  | false ↦ get_kv s key now >>= λ (s, curr). count_up up (number_in curr) >>= λ val.
      dict_get_expiry s.g_data key now >>= λ (d, expire).
      set_kv (record s { g_data = d }) key (print_ℤ val) (time_left expire now) now >>= λ s.
      some (send_all s (58 ∷ (print_ℤ val ++ eol)))
]
