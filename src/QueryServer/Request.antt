-- ===== src/QueryServer/Request.antt =====
-- A command reaches the store's server as the arguments that it is split into.
use rediskrazy.Base.{
  ℕ, zero, suc, ◌+◌, ◌^◌, ◌<◌, ◌≤◌, ◌≡◌, refl, sym, ap, ◌∙◌, false, Option, some, List, [], ◌∷◌,
  ◌++◌, ◌==◌, arith, codes, length, length-append, take, All, Ends-inv, append-nil,
}
use rediskrazy.Sds.{Sds, sdssplitargs}
use rediskrazy.Sds.Split.{IsWord, sdssplitargs-Ends, sdssplitargs-line_of}
use rediskrazy.Resp.{request, resp_parse_array}
use rediskrazy.Resp.Encoding.{
  EncodesArguments, array, no_arguments, argument, encoded_length, resp_parse_array-Encodes,
}
use rediskrazy.Schema.{Database, SchemaContext, Table}
use rediskrazy.Parser.Select.{IsName, select_text}
use rediskrazy.Translator.{
  SqlResult, current_database, process_sql, row_key, table_of, name_or_default, in_buf,
}
use rediskrazy.Translator.Process.{process_sql-select, select_result}
use rediskrazy.QueryServer.{decimal, eol, request_args, command_request}
use rediskrazy.QueryServer.Decimal.{decimal-Writes}

request_args-Encodes :
    (argv : List Sds)
    → length (request_args argv) < 2 ^ 31
    → EncodesArguments argv (request_args argv)
unfolding request_args
request_args-Encodes [] h = no_arguments
request_args-Encodes (a ∷ argv) h =
    let size = encoded_length (decimal (length a)) a (request_args argv) in
    argument (decimal-Writes (length a) (omega arith)) (request_args-Encodes argv (omega arith))

length-request_args : (argv : List Sds) → length argv ≤ length (request_args argv)
unfolding request_args
length-request_args [] = omega arith
length-request_args (a ∷ argv) =
    omega
      (arith, encoded_length (decimal (length a)) a (request_args argv), length-request_args argv)

pub command_request-split :
    (redis_cmd : List ℕ) (argv : List Sds)
    → sdssplitargs redis_cmd ≡ some argv
    → command_request redis_cmd ≡ some (42 ∷ (decimal (length argv) ++ (eol ++ request_args argv)))
unfolding command_request
command_request-split redis_cmd argv h = rw h refl

array_length : (d s : List ℕ) → length {A = ℕ} (42 ∷ (d ++ (eol ++ s))) ≡ length d + length s + 3
array_length d s = omega (arith, length-append d (eol ++ s))

pub request_args-read :
    (argv : List Sds)
    → length (42 ∷ (decimal (length argv) ++ (eol ++ request_args argv))) < 2 ^ 31
    → (rest : List ℕ)
    → resp_parse_array ((42 ∷ (decimal (length argv) ++ (eol ++ request_args argv))) ++ rest)
      ≡ some (request argv (length (42 ∷ (decimal (length argv) ++ (eol ++ request_args argv)))))
request_args-read argv h rest =
    let size = array_length (decimal (length argv)) (request_args argv) in
    resp_parse_array-Encodes rest
      (array (decimal-Writes (length argv) (omega (arith, length-request_args argv)))
        (request_args-Encodes argv (omega arith)))
      h

-- For every command there is a request, and when it is shorter than 2 ^ 31 bytes the store's server reads it back, whatever
-- follows it, as the arguments that the command is split into.
pub command_request-read :
    (redis_cmd : List ℕ)
    → (argv : List Sds) × (sdssplitargs redis_cmd ≡ some argv)
      × (s : List ℕ) × (command_request redis_cmd ≡ some s)
      × (length s < 2 ^ 31
          → (rest : List ℕ) → resp_parse_array (s ++ rest) ≡ some (request argv (length s)))
command_request-read redis_cmd =
    let (argv, split, _) = Ends-inv (sdssplitargs-Ends redis_cmd) in
    let s = 42 ∷ (decimal (length argv) ++ (eol ++ request_args argv)) in
    (
      argv,
      split,
      s,
      command_request-split redis_cmd argv split,
      λ h rest. request_args-read argv h rest,
    )

take-all : (n : ℕ) (s : List ℕ) → length s ≤ n → take n s ≡ s
take-all zero [] h = refl
take-all zero (c ∷ s) h = absurd (omega arith)
take-all (suc n) [] h = refl
take-all (suc n) (c ∷ s) h = ap (◌∷◌ c) (take-all n s (omega arith))

-- The command of a SELECT, when its key is one word of at most 1015 bytes, is split into HGETALL and the key.
select-split :
    (key : Sds)
    → IsWord key
    → length key ≤ 1015
    → sdssplitargs (in_buf (codes "HGETALL " ++ key)) ≡ some (codes "HGETALL" ∷ key ∷ [])
unfolding in_buf
select-split key w h =
    ap sdssplitargs (take-all 1023 (codes "HGETALL " ++ key) (omega arith))
    ∙ ap (λ l. sdssplitargs (codes "HGETALL " ++ l)) (sym (append-nil key))
    ∙ sdssplitargs-line_of (codes "HGETALL" ∷ key ∷ []) (hgetall, (w, tt))
  where
    hgetall : IsWord (codes "HGETALL")
    hgetall = (
      λ e. ground arith,
      λ e. ground arith,
      (refl, (refl, (refl, (refl, (refl, (refl, (refl, tt))))))),
    )

-- The request of a command with these arguments is short if they are.
pub hgetall_length :
    (key : Sds)
    → length key ≤ 1015
    → length (42 ∷ (decimal 2 ++ (eol ++ request_args (codes "HGETALL" ∷ key ∷ [])))) < 2 ^ 31
unfolding request_args
hgetall_length key h =
    let name = decimal-Writes 7 (omega arith) in
    let size = decimal-Writes (length key) (omega arith) in
    let count = decimal-Writes 2 (omega arith) in
    omega (
      arith,
      name.short,
      size.short,
      count.short,
      array_length (decimal 2) (request_args (codes "HGETALL" ∷ key ∷ [])),
      encoded_length (decimal 7) (codes "HGETALL") (request_args (key ∷ [])),
      encoded_length (decimal (length key)) key [],
    )

select_result-table :
    (db : Option Database) (name key : List ℕ) (t : Table)
    → table_of db name ≡ some t
    → (select_result db name key).redis_cmd
      ≡ some (in_buf (codes "HGETALL " ++ row_key (name_or_default db) name key))
select_result-table db name key t h = ground (arith, h)

-- From the text SELECT * FROM t WHERE key = 'k' to the store: when the current database has the table t, and the
-- name of the row is one word of at most 1015 bytes, the text is processed to a command whose request the store's server reads as HGETALL
-- with that name.
pub select-read :
    (context : SchemaContext) (db : Database) (c : ℕ) (t k : List ℕ) (table : Table)
    → IsName c t
    → All (λ c. (c == 39) ≡ false) k
    → current_database context ≡ some (some db)
    → table_of (some db) (c ∷ t) ≡ some table
    → IsWord (row_key db.name (c ∷ t) k)
    → length (row_key db.name (c ∷ t) k) ≤ 1015
    → (res : SqlResult) × (cmd : List ℕ) × (s : List ℕ) × (process_sql context
          (select_text (c ∷ t) k)
        ≡ some (context, res))
      × (res.redis_cmd ≡ some cmd)
      × (command_request cmd ≡ some s)
      × ((rest : List ℕ)
          → resp_parse_array (s ++ rest)
            ≡ some (request (codes "HGETALL" ∷ row_key db.name (c ∷ t) k ∷ []) (length s)))
select-read context db c t k table v a h g w short =
    let key = row_key db.name (c ∷ t) k in
    let argv = codes "HGETALL" ∷ key ∷ [] in
    let cmd = in_buf (codes "HGETALL " ++ key) in
    let s = 42 ∷ (decimal 2 ++ (eol ++ request_args argv)) in
    let small = hgetall_length key short in
    (
      select_result (some db) (c ∷ t) k,
      cmd,
      s,
      process_sql-select context (some db) c t k v a h,
      select_result-table (some db) (c ∷ t) k table g,
      command_request-split cmd argv (select-split key w short),
      λ rest. request_args-read argv small rest,
    )
