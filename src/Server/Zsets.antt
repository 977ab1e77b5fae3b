-- ===== src/Server/Zsets.antt =====
-- backend/server.c: the commands on sorted sets.
use rediskrazy.Base.{
  ◌>>=◌, ℕ, suc, ◌+◌, Bool, true, false, Option, none, some, List, [], ◌∷◌, ◌++◌, ltb,
  if◌then◌else◌, length, set, codes,
}
use rediskrazy.Base.Int.{ℤ, pos, negsuc, sub_ℕ}
use rediskrazy.Sds.{Sds}
use rediskrazy.Dict.{dict_get, dict_put}
use rediskrazy.Resp.{atoi}
use rediskrazy.QueryServer.{decimal, eol}
use rediskrazy.Server.{
  Server, send_literal, send_all, write_log, bulk, line, pointer_to, deref, has_string,
}
use rediskrazy.Server.Commands.{c_string, wrong_number, integer}
use rediskrazy.Double.{Double}
use rediskrazy.Base.Int.{◌+ℤ◌, ltb_ℤ, int32}
use rediskrazy.Zset.{
  Zset, zset_create, zset_add, zset_rem, zset_score, zset_card, zset_range, zset_rank,
}
use rediskrazy.Server.Commands.{wrong_type, nil, print_ℤ}

-- "$%zu\r\n%s\r\n"
abbrev pub print_arg : Sds → List ℕ
print_arg a = 36 ∷ (decimal (length a) ++ (eol ++ (c_string a ++ eol)))

-- What is logged for ZADD.
abbrev pub zadd_record : Sds → Sds → Sds → List ℕ
zadd_record key score member =
    line (codes "*4")
    ++ (line (codes "$4")
        ++ (line (codes "ZADD") ++ (print_arg key ++ (print_arg score ++ print_arg member))))

-- A command on a sorted set, which is not done if the key is a string.
unfoldable pub unless_string : Server → Sds → ℕ → (Server → Option Server) → Option Server
unless_string s key now command = has_string s key now >>= λ (s, b). elim b [
  | true ↦ send_literal s wrong_type 68
  | false ↦ command s
]

-- The sorted set of a key, if there is one: its place, and itself.
unfoldable pub zset_at : Server → Sds → ℕ → Option (Server × Option (ℕ × Zset))
zset_at s key now = dict_get s.g_zsets key now >>= λ (d, v). elim v [
  | none ↦ some (record s { g_zsets = d }, none)
  | some v ↦ deref s.zset_objects v >>= λ o. some (record s { g_zsets = d }, some o)
]

-- A command that sends `missing`, of `len` bytes, if the key is no sorted set.
unfoldable pub with_zset :
    Server → Sds → ℕ → List ℕ → ℕ → (Server → ℕ → Zset → Option Server) → Option Server
with_zset s key now missing len command = zset_at s key now >>= λ (s, o). elim o [
  | none ↦ send_literal s missing len
  | some o ↦ command s o.0 o.1
]

abbrev pub put_zset : Server → ℕ → Zset → Server
put_zset s i z = record s { zset_objects = set s.zset_objects i (some z) }

-- The sorted set of a key, which is created if there is none.
unfoldable pub zset_for : Server → Sds → ℕ → Option (Server × (ℕ × Zset))
zset_for s key now = zset_at s key now >>= λ (s, o). elim o [
  | some o ↦ some (s, o)
  | none ↦
      let i : ℕ = length s.zset_objects in
      dict_put s.g_zsets key (pointer_to i) (pos 0) now >>= λ d. some (
        record s { g_zsets = d; zset_objects = s.zset_objects ++ (some zset_create ∷ []) },
        (i, zset_create),
      )
]

abbrev pub bit : Bool → ℕ
bit b = if b then 1 else 0

-- `atof` reads a double.
unfoldable pub handle_zadd : (Sds → Double) → Server → List Sds → ℕ → Option Server
handle_zadd atof s (key ∷ score ∷ member ∷ _) now = unless_string s key now λ s.
    zset_for s key now >>= λ (s, (i, z)). zset_add z member (atof score) now >>= λ (z, added).
    some
      (send_all (write_log (put_zset s i z) (zadd_record key score member)) (integer (bit added)))
handle_zadd atof s _ now = wrong_number s (codes "ZADD") 46

-- `print_score` prints a double by "%.17g".
unfoldable pub handle_zscore : (Double → List ℕ) → Server → List Sds → ℕ → Option Server
handle_zscore print_score s (key ∷ member ∷ _) now = unless_string s key now λ s.
    with_zset s key now nil 5 λ s i z. zset_score z member now >>= λ (z, found). elim found [
      | none ↦ send_literal (put_zset s i z) nil 5
      | some score ↦ some (send_all (put_zset s i z) (bulk (print_score score)))
    ]
handle_zscore print_score s _ now = wrong_number s (codes "ZSCORE") 48

-- if (i < 0) i += len
abbrev pub add_length : ℤ → ℤ → ℤ
add_length len i = if ltb_ℤ i (pos 0) then i +ℤ len else i

-- The count that ZRANGE announces, of a set with `len` members.
unfoldable pub range_count : ℤ → ℤ → ℤ → ℤ
range_count len start end =
    let start' : ℤ = if ltb_ℤ (add_length len start) (pos 0) then pos 0 else add_length len start in
    let end' : ℤ = if ltb_ℤ (add_length len end) len then add_length len end else len +ℤ negsuc 0 in
    if ltb_ℤ end' start' then pos 0 else end' +ℤ (pos 1 +ℤ negate start')
  where
    negate : ℤ → ℤ
    negate (pos n) = sub_ℕ 0 n
    negate (negsuc n) = pos (suc n)

-- The calls of zrange_sender.
unfoldable pub members_reply : List (Sds × Double) → List ℕ
members_reply [] = []
members_reply ((member, score) ∷ l) = bulk member ++ members_reply l

unfoldable pub handle_zrange : Server → List Sds → ℕ → Option Server
handle_zrange s (key ∷ first ∷ last ∷ _) now = unless_string s key now λ s.
    with_zset s key now (codes "*0" ++ eol) 4 λ s i z. atoi first >>= λ start. atoi last >>= λ end.
    let count : ℤ = range_count (int32 (zset_card z)) start end in
    let head : List ℕ = 42 ∷ (print_ℤ count ++ eol) in
    some (
      send_all s
        (head ++ (if ltb_ℤ (pos 0) count then members_reply (zset_range z start end) else [])))
handle_zrange s _ now = wrong_number s (codes "ZRANGE") 48

-- The loop of ZREM; `n` members are removed so far.
unfoldable pub remove_members : Zset → List Sds → ℕ → ℕ → Option (Zset × ℕ)
remove_members z [] now n = some (z, n)
remove_members z (member ∷ members) now n =
    zset_rem z member now >>= λ (z, b). remove_members z members now (n + bit b)

-- What is logged for ZREM: a record for each member.
unfoldable pub zrem_records : Sds → List Sds → List ℕ
zrem_records key [] = []
zrem_records key (member ∷ members) =
    line (codes "*3")
    ++ (line (codes "$4")
        ++ (line (codes "ZREM")
            ++ (print_arg key ++ (print_arg member ++ zrem_records key members))))

unfoldable pub handle_zrem : Server → List Sds → ℕ → Option Server
handle_zrem s (key ∷ member ∷ members) now = unless_string s key now λ s.
    with_zset s key now (codes ":0" ++ eol) 4 λ s i z.
      remove_members z (member ∷ members) now 0 >>= λ (z, removed).
      let records : List ℕ = if ltb 0 removed then zrem_records key (member ∷ members) else [] in
      some (send_all (write_log (put_zset s i z) records) (integer removed))
handle_zrem s _ now = wrong_number s (codes "ZREM") 46

unfoldable pub handle_zcard : Server → List Sds → ℕ → Option Server
handle_zcard s (key ∷ _) now = unless_string s key now λ s.
    with_zset s key now (codes ":0" ++ eol) 4 λ s i z. some (send_all s (integer (zset_card z)))
handle_zcard s [] now = wrong_number s (codes "ZCARD") 47

unfoldable pub handle_zrank : Server → List Sds → ℕ → Option Server
handle_zrank s (key ∷ member ∷ _) now = unless_string s key now λ s.
    with_zset s key now nil 5 λ s i z. zset_rank z member now >>= λ (z, rank).
    if ltb_ℤ rank (pos 0)
    then send_literal (put_zset s i z) nil 5
    else some (send_all (put_zset s i z) (58 ∷ (print_ℤ rank ++ eol)))
handle_zrank s _ now = wrong_number s (codes "ZRANK") 47
