-- ===== src/Rdb.antt =====
-- backend/rdb.h and rdb.c: the snapshot of all keys in a file, for the dictionaries and objects of a server. Reading a
-- variable that was not written, or a NULL key, is `none`; a file that can be opened is a list of bytes.
pub mod Strings
pub mod Tests
use rediskrazy.Base.{
  ◌>>=◌, ℕ, zero, suc, ◌+◌, ◌*◌, ◌/◌, ◌%◌, ◌^◌, Bool, true, false, ◌||◌, Option, none, some, List,
  [], ◌∷◌, ◌++◌, ltb, ◌==◌, if◌then◌else◌, length, set, take, drop, codes, bytes_eq,
}
use rediskrazy.Base.Int.{ℤ, pos, negsuc}
use rediskrazy.Double.{Double}
use rediskrazy.Sds.{Sds}
use rediskrazy.Dict.{DictEntry, Chain, Dict, dict_init, dict_put}
use rediskrazy.Zset.{Zset, zset_create, zset_add, zset_card, zset_range, bytes_of, number_of}
use rediskrazy.Server.{Server, pointer_to, deref}
use rediskrazy.Server.Hashes.{entries_of}
use rediskrazy.Server.Rewrite.{is_kept}

abbrev pub rdb_magic : List ℕ
rdb_magic = codes "REDIS0001"

-- A uint32_t in the order of the machine, which is the least byte first.
abbrev pub write_u32 : ℕ → List ℕ
write_u32 v = bytes_of 4 v

unfoldable pub write_string : Sds → List ℕ
write_string s = write_u32 (length s % 2 ^ 32) ++ s

-- htonl, written.
abbrev pub write_big : ℕ → List ℕ
write_big v = v / 2 ^ 24 % 256 ∷ v / 2 ^ 16 % 256 ∷ v / 2 ^ 8 % 256 ∷ v % 256 ∷ []

unfoldable pub save_strings : ℕ → Chain → List ℕ
save_strings now [] = []
save_strings now (e ∷ l) =
    let rest : List ℕ = save_strings now l in
    if is_kept now e then 0 ∷ (write_string e.key ++ (write_string e.val ++ rest)) else rest

-- The calls of rdb_zset_cb.
unfoldable pub save_members : List (Sds × Double) → List ℕ
save_members [] = []
save_members ((member, score) ∷ l) = bytes_of 8 score ++ (write_string member ++ save_members l)

unfoldable pub save_zsets : List (Option Zset) → ℕ → Chain → Option (List ℕ)
save_zsets objects now [] = some []
save_zsets objects now (e ∷ l) =
    let rest : Option (List ℕ) = save_zsets objects now l in
    if is_kept now e
    then (deref objects e.val >>= λ (i, z). rest >>= λ r. some (
        1
        ∷ (write_string e.key
            ++ (write_big (zset_card z % 2 ^ 32)
                ++ (save_members (zset_range z (pos 0) (negsuc 0)) ++ r)))))
    else rest

unfoldable pub save_fields : Chain → List ℕ
save_fields [] = []
save_fields (e ∷ l) = write_string e.key ++ (write_string e.val ++ save_fields l)

unfoldable pub save_hashes : List (Option Dict) → Chain → Option (List ℕ)
save_hashes objects [] = some []
save_hashes objects (e ∷ l) = deref objects e.val >>= λ (i, h). save_hashes objects l >>= λ r.
    some (
      2
      ∷ (write_string e.key
          ++ (write_u32 (length (entries_of h) % 2 ^ 32) ++ (save_fields (entries_of h) ++ r))))

unfoldable pub rdb_save : Server → ℕ → Option (List ℕ)
rdb_save s now = save_zsets s.zset_objects now (entries_of s.g_zsets) >>= λ zsets.
    save_hashes s.hash_objects (entries_of s.g_hashes) >>= λ hashes.
    some
      (rdb_magic ++ (save_strings now (entries_of s.g_data) ++ (zsets ++ (hashes ++ (255 ∷ [])))))

-- The string and what is left of the file; a short read takes all that is left.
unfoldable pub read_string : List ℕ → Option Sds × List ℕ
read_string file = elim (number_of 4 file) [
  | none ↦ (none, [])
  | some len ↦
      if ltb (length (drop 4 file)) len
      then (none, [])
      else (some (take len (drop 4 file)), drop len (drop 4 file))
]

unfoldable pub read_value : ℕ → List ℕ → Option (ℕ × List ℕ)
read_value n file = number_of n file >>= λ v. some (v, drop n file)

-- ntohl
abbrev pub swap_u32 : ℕ → ℕ
swap_u32 v = v % 256 * 2 ^ 24 + v / 256 % 256 * 2 ^ 16 + v / 2 ^ 16 % 256 * 2 ^ 8 + v / 2 ^ 24 % 256

unfoldable pub load_members : ℕ → Zset → List ℕ → ℕ → Option (Zset × List ℕ)
load_members zero z file now = some (z, file)
load_members (suc count) z file now = read_value 8 file >>= λ (score, file).
    let read : Option Sds × List ℕ = read_string file in
    (elim (read.0) [
      | none ↦ some z
      | some member ↦ zset_add z member score now >>= λ (z, _). some z
    ])
    >>= λ z. load_members count z read.1 now

unfoldable pub load_fields : ℕ → Dict → List ℕ → ℕ → Option (Dict × List ℕ)
load_fields zero h file now = some (h, file)
load_fields (suc count) h file now =
    let f : Option Sds × List ℕ = read_string file in
    let v : Option Sds × List ℕ = read_string f.1 in
    (elim (f.0) [
      | none ↦ some h
      | some field ↦ elim (v.0) [ none ↦ some h | some val ↦ dict_put h field val (pos 0) now ]
    ])
    >>= λ h. load_fields count h v.1 now

-- if (key && val) dict_put(strings, key, val, 0)
abbrev pub put_read : Server → Option Sds → Option Sds → List ℕ → ℕ → Option (Server × List ℕ)
put_read s none val file now = some (s, file)
put_read s (some key) none file now = some (s, file)
put_read s (some key) (some val) file now =
    dict_put s.g_data key val (pos 0) now >>= λ d. some (record s { g_data = d }, file)

-- The three kinds of records, behind the byte for the kind.
unfoldable pub load_string : Server → List ℕ → ℕ → Option (Server × List ℕ)
load_string s file now =
    let k : Option Sds × List ℕ = read_string file in
    let v : Option Sds × List ℕ = read_string k.1 in put_read s k.0 v.0 v.1 now

unfoldable pub load_zset : Server → List ℕ → ℕ → Option (Server × List ℕ)
load_zset s file now =
    let k : Option Sds × List ℕ = read_string file in
    k.0 >>= λ key. read_value 4 k.1 >>= λ (count, file).
    dict_put s.g_zsets key (pointer_to (length s.zset_objects)) (pos 0) now >>= λ d.
    load_members (swap_u32 count) zset_create file now >>= λ (z, file).
    some (record s { g_zsets = d; zset_objects = s.zset_objects ++ (some z ∷ []) }, file)

unfoldable pub load_hash : Server → List ℕ → ℕ → Option (Server × List ℕ)
load_hash s file now =
    let k : Option Sds × List ℕ = read_string file in
    k.0 >>= λ key. read_value 4 k.1 >>= λ (count, file).
    dict_put s.g_hashes key (pointer_to (length s.hash_objects)) (pos 0) now >>= λ d.
    load_fields count dict_init file now >>= λ (h, file).
    some (record s { g_hashes = d; hash_objects = s.hash_objects ++ (some h ∷ []) }, file)

-- The loop of rdb_load.
unfoldable pub load_records : ℕ → Server → List ℕ → ℕ → Option Server
load_records zero s file now = none
load_records (suc rounds) s [] now = some s
load_records (suc rounds) s (type ∷ file) now =
    let loaded : Option (Server × List ℕ) =
      if type == 0
      then load_string s file now
      else if type == 1
      then load_zset s file now
      else load_hash s file now in
    let next : Option Server = loaded >>= λ (s, file). load_records rounds s file now in
    if ltb 2 type then some s else next

-- The second component says whether the result is 0, and not -1.
unfoldable pub rdb_load : Server → List ℕ → ℕ → Option (Server × Bool)
rdb_load s file now =
    if bytes_eq (take 9 file) rdb_magic
    then (load_records (suc (length file)) s (drop 9 file) now >>= λ s. some (s, true))
    else some (s, false)
