-- ===== src/Server/Rewrite.antt =====
-- backend/server.c: rewrite_aof, where every file operation succeeds. `print_score` prints a double by "%.17g".
use rediskrazy.Base.{
  ◌>>=◌, ℕ, ◌+◌, ◌-◌, ◌*◌, Bool, ◌||◌, Option, some, List, [], ◌∷◌, ◌++◌, ltb, ◌==◌, if◌then◌else◌,
  length, codes,
}
use rediskrazy.Base.Int.{pos, negsuc}
use rediskrazy.Double.{Double}
use rediskrazy.Sds.{Sds}
use rediskrazy.Dict.{DictEntry, Chain, Dict}
use rediskrazy.Zset.{Zset, zset_card, zset_range}
use rediskrazy.QueryServer.{decimal, eol}
use rediskrazy.Server.{Server, bulk, line, set_record, deref}
use rediskrazy.Server.Commands.{c_string}
use rediskrazy.Server.Hashes.{entries_of, fields_reply}

-- e->expire == 0 || e->expire > time(NULL)
abbrev pub is_kept : ℕ → DictEntry → Bool
is_kept now e = e.expire == 0 || ltb now e.expire

-- What is written for the expiry of a key, if it has one.
abbrev pub expiry_record : ℕ → DictEntry → List ℕ
expiry_record now e =
    if ltb 0 e.expire
    then line (codes "*3")
      ++ (line (codes "$6")
          ++ (line (codes "EXPIRE") ++ (bulk e.key ++ (36 ∷ (decimal (e.expire - now) ++ eol)))))
    else []

unfoldable pub rewrite_strings : ℕ → Chain → List ℕ
rewrite_strings now [] = []
rewrite_strings now (e ∷ l) =
    let rest : List ℕ = rewrite_strings now l in
    if is_kept now e then set_record e.key e.val ++ (expiry_record now e ++ rest) else rest

-- The calls of rewrite_zset_cb.
unfoldable pub rewrite_members : (Double → List ℕ) → List (Sds × Double) → List ℕ
rewrite_members print_score [] = []
rewrite_members print_score ((member, score) ∷ l) =
    36
    ∷ (decimal (length member)
        ++ (eol
            ++ (c_string member
                ++ (eol ++ (print_score score ++ (eol ++ rewrite_members print_score l))))))

-- The head of a command with `card` pairs behind the key.
abbrev pub pairs_head : ℕ → List ℕ → Sds → List ℕ
pairs_head card name key =
    42 ∷ (decimal (2 + card * 2) ++ (eol ++ (line (codes "$4") ++ (line name ++ bulk key))))

unfoldable pub rewrite_zset : (Double → List ℕ) → ℕ → DictEntry → Zset → List ℕ
rewrite_zset print_score now e z =
    if ltb 0 (zset_card z)
    then pairs_head (zset_card z) (codes "ZADD") e.key
      ++ (rewrite_members print_score (zset_range z (pos 0) (negsuc 0)) ++ expiry_record now e)
    else []

unfoldable pub rewrite_zsets : (Double → List ℕ) → List (Option Zset) → ℕ → Chain → Option (List ℕ)
rewrite_zsets print_score objects now [] = some []
rewrite_zsets print_score objects now (e ∷ l) =
    let rest : Option (List ℕ) = rewrite_zsets print_score objects now l in
    if is_kept now e
    then (deref objects e.val >>= λ (i, z).
        rest >>= λ r. some (rewrite_zset print_score now e z ++ r))
    else rest

unfoldable pub rewrite_hash : DictEntry → Dict → List ℕ
rewrite_hash e h =
    if ltb 0 (length (entries_of h))
    then pairs_head (length (entries_of h)) (codes "HSET") e.key ++ fields_reply (entries_of h)
    else []

unfoldable pub rewrite_hashes : List (Option Dict) → ℕ → Chain → Option (List ℕ)
rewrite_hashes objects now [] = some []
rewrite_hashes objects now (e ∷ l) =
    let rest : Option (List ℕ) = rewrite_hashes objects now l in
    if is_kept now e
    then (deref objects e.val >>= λ (i, h). rest >>= λ r. some (rewrite_hash e h ++ r))
    else rest

-- The log is the new file afterwards, open for more.
unfoldable pub rewrite_aof : (Double → List ℕ) → Server → ℕ → Option Server
rewrite_aof print_score s now =
    rewrite_zsets print_score s.zset_objects now (entries_of s.g_zsets) >>= λ zsets.
    rewrite_hashes s.hash_objects now (entries_of s.g_hashes) >>= λ hashes.
    some (record s { aof = some (rewrite_strings now (entries_of s.g_data) ++ (zsets ++ hashes)) })
