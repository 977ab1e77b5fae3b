-- ===== src/Server/Hashes.antt =====
-- backend/server.c: HSET, HGETALL, HSCANALL and KEYS.
use rediskrazy.Base.{
  ◌>>=◌, ℕ, ◌+◌, ◌-◌, ◌*◌, ◌%◌, Bool, false, ◌&&◌, ◌||◌, Option, none, some, List, [], ◌∷◌, ◌++◌,
  ltb, leb, ◌==◌, if◌then◌else◌, length, set, take, get_elem?, codes, bytes_eq,
}
use rediskrazy.Base.Int.{pos}
use rediskrazy.Sds.{Sds}
use rediskrazy.Dict.{Chain, Dictht, Dict, dict_init, dict_get, dict_put}
use rediskrazy.Dict.Table.{all_entries}
use rediskrazy.QueryServer.{decimal, eol}
use rediskrazy.Server.{
  Server, send_literal, send_all, write_log, bulk, line, pointer_to, deref, is_there,
}
use rediskrazy.Server.Commands.{c_string, wrong_number, integer}

-- The entries of a dictionary, in the order of its tables and chains.
abbrev pub entries_of : Dict → Chain
entries_of d = table_entries d.ht0 ++ table_entries d.ht1
  where
    table_entries : Dictht → Chain
    table_entries ht = elim (ht.table) [ none ↦ [] | some t ↦ all_entries t ]

abbrev pub fields_reply : Chain → List ℕ
fields_reply [] = []
fields_reply (e ∷ l) = bulk e.key ++ (bulk e.val ++ fields_reply l)

unfoldable pub handle_hgetall : Server → List Sds → ℕ → Option Server
handle_hgetall s [] now = wrong_number s (codes "HGETALL") 48
handle_hgetall s (key ∷ _) now = dict_get s.g_hashes key now >>= λ (d, v). elim v [
  | none ↦ send_literal (record s { g_hashes = d }) (codes "*0" ++ eol) 4
  | some v ↦ deref s.hash_objects v >>= λ (i, h).
      let head : List ℕ = 42 ∷ (decimal (length (entries_of h) * 2) ++ eol) in
      some (send_all (record s { g_hashes = d }) (head ++ fields_reply (entries_of h)))
]

-- The loop of HSET over the fields and values; `n` fields are new so far.
unfoldable pub set_fields : Dict → List Sds → ℕ → ℕ → Option (Dict × ℕ)
set_fields h (field ∷ val ∷ more) now n = dict_get h field now >>= λ (h, v).
    dict_put h field val (pos 0) now >>= λ h.
    set_fields h more now (if is_there v then n else n + 1)
set_fields h _ now n = some (h, n)

-- The hash of a key, which is created if there is none: its place, and itself.
unfoldable pub hash_for : Server → Sds → ℕ → Option (Server × (ℕ × Dict))
hash_for s key now = dict_get s.g_hashes key now >>= λ (d, v). elim v [
  | some v ↦ deref s.hash_objects v >>= λ o. some (record s { g_hashes = d }, o)
  | none ↦
      let i : ℕ = length s.hash_objects in
      dict_put d key (pointer_to i) (pos 0) now >>= λ d. some (
        record s { g_hashes = d; hash_objects = s.hash_objects ++ (some dict_init ∷ []) },
        (i, dict_init),
      )
]

-- What is logged for HSET, of its arguments.
abbrev pub hset_args : List Sds → List ℕ
hset_args [] = []
hset_args (a ∷ argv) = eol ++ (36 ∷ (decimal (length a) ++ (eol ++ (a ++ hset_args argv))))

abbrev pub hset_record : List Sds → List ℕ
hset_record argv =
    42
    ∷ (decimal (length argv + 1)
        ++ (eol ++ (line (codes "$4") ++ (codes "HSET" ++ (hset_args argv ++ eol)))))

unfoldable pub handle_hset : Server → List Sds → ℕ → Option Server
handle_hset s [] now = wrong_number s (codes "HSET") 45
handle_hset s (key ∷ fields) now =
    if ltb (length fields) 2 || (length fields % 2 == 1)
    then wrong_number s (codes "HSET") 45
    else hash_for s key now >>= λ (s, (i, h)). set_fields h fields now 0 >>= λ (h, added). some (
        write_log
          (send_all (record s { hash_objects = set s.hash_objects i (some h) }) (integer added))
          (hset_record (key ∷ fields)))

-- A last `*` in the pattern is a wildcard.
unfoldable pub has_wildcard : Sds → Bool
has_wildcard pattern = elim (get_elem? pattern (length pattern - 1)) [
  | none ↦ false
  | some c ↦ c == 42
]

-- Whether a key has the prefix before the wildcard, by strncmp, or is the pattern, by strcmp.
unfoldable pub is_match : Sds → Sds → Bool
is_match pattern key =
    let search_len : ℕ = length pattern - 1 in
    if has_wildcard pattern
    then leb search_len (length key)
      && bytes_eq (c_string (take search_len key)) (c_string (take search_len pattern))
    else bytes_eq (c_string key) (c_string pattern)

-- The loops over the keys of a dictionary.
unfoldable pub matches : Sds → Chain → Chain
matches pattern [] = []
matches pattern (e ∷ l) =
    let rest = matches pattern l in if is_match pattern e.key then e ∷ rest else rest

-- The rows of HSCANALL: the fields of each hash.
unfoldable pub rows_reply : List (Option Dict) → Chain → Option (List ℕ)
rows_reply objects [] = some []
rows_reply objects (e ∷ l) = deref objects e.val >>= λ (i, h). rows_reply objects l >>= λ rest.
    some
      ((42 ∷ (decimal (length (entries_of h) * 2) ++ eol)) ++ (fields_reply (entries_of h) ++ rest))

unfoldable pub handle_hscanall : Server → List Sds → Option Server
handle_hscanall s [] = wrong_number s (codes "HSCANALL") 48
handle_hscanall s (pattern ∷ _) =
    let found : Chain = matches pattern (entries_of s.g_hashes) in
    rows_reply s.hash_objects found >>= λ rows.
    some (send_all s ((42 ∷ (decimal (length found) ++ eol)) ++ rows))

unfoldable pub keys_reply : Chain → List ℕ
keys_reply [] = []
keys_reply (e ∷ l) = bulk e.key ++ keys_reply l

unfoldable pub handle_keys : Server → List Sds → Option Server
handle_keys s [] = wrong_number s (codes "KEYS") 45
handle_keys s (pattern ∷ _) =
    let found : Chain =
      matches pattern (entries_of s.g_data ++ (entries_of s.g_zsets ++ entries_of s.g_hashes)) in
    some (send_all s ((42 ∷ (decimal (length found) ++ eol)) ++ keys_reply found))
