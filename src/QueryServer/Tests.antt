-- ===== src/QueryServer/Tests.antt =====
-- Runs of the query server, and its theorems at concrete inputs.
use rediskrazy.Base.{
  ℕ, ◌≡◌, refl, false, none, some, List, [], ◌∷◌, ◌++◌, arith, codes, bytes_eq, length,
}
use rediskrazy.Base.Int.{pos}
use rediskrazy.Sds.{sdssplitargs, skip_isspace, until, split_arg, split_rounds}
use rediskrazy.Resp.{request, resp_parse_array}
use rediskrazy.Schema.{
  Table, Database, SchemaContext, find_named, get_table, type_string, get_active_database,
}
use rediskrazy.Lexer.{is_ident, keyword_in, equal_ignoring_case}
use rediskrazy.Parser.Select.{IsName, select_text}
use rediskrazy.Translator.{SqlResult, current_database, process_sql, row_key}
use rediskrazy.QueryServer.{
  command_request, format_result_to_json, json_rows, json_cells, escape, escaped,
}
use rediskrazy.QueryServer.Request.{select-read}
use rediskrazy.QueryServer.Json.{read_string, escape-read}

-- A value with a space in it is split: the store is sent one argument more than the columns have.
spaces_split :
    sdssplitargs (codes "HSET s:t1:7 name Ann Lee")
    ≡ some (codes "HSET" ∷ codes "s:t1:7" ∷ codes "name" ∷ codes "Ann" ∷ codes "Lee" ∷ [])
unfolding sdssplitargs split_rounds skip_isspace split_arg until
spaces_split = refl

json_row :
    format_result_to_json (codes "k" ∷ codes "v" ∷ []) ((some (codes "a\"") ∷ none ∷ []) ∷ [])
    ≡ codes "[{\"k\": \"a\\\"\", \"v\": null}]"
unfolding format_result_to_json json_rows json_cells escape escaped
json_row = refl

abbrev people : Table
people = record {
  name = codes "t1";
  columns =
      record { name = codes "id"; type = type_string; not_null = pos 0; is_primary = pos 1 } ∷ [];
}

abbrev shop : Database
shop = record { name = codes "s"; tables = people ∷ [] }

-- The database s, which is active, with the table t1.
abbrev one_database : SchemaContext
one_database = record { databases = shop ∷ []; current_db_idx = some 0 }

-- The name t1.
t1_IsName : IsName 116 (49 ∷ [])
unfolding is_ident keyword_in equal_ignoring_case bytes_eq
t1_IsName = record {
  first = refl;
  no_star = λ e. ground arith;
  others = (refl, tt);
  no_not = refl;
  no_keyword = refl;
}

shop_current : current_database one_database ≡ some (some shop)
unfolding current_database get_active_database
shop_current = refl

t1_found : get_table shop (codes "t1") ≡ some people
unfolding get_table find_named bytes_eq
t1_found = refl

select-read_example :
    (res : SqlResult) × (cmd : List ℕ) × (s : List ℕ) × (process_sql one_database
        (select_text (codes "t1") (codes "7"))
      ≡ some (one_database, res))
    × (res.redis_cmd ≡ some cmd)
    × (command_request cmd ≡ some s)
    × ((rest : List ℕ)
        → resp_parse_array (s ++ rest)
          ≡ some (
              request
                (codes "HGETALL" ∷ row_key (codes "s") (codes "t1") (codes "7") ∷ [])
                (length s)))
select-read_example =
    select-read one_database shop 116 (49 ∷ []) (codes "7") people t1_IsName (refl, tt) shop_current
      t1_found
      (λ e. ground arith, λ e. ground arith, (refl, (refl, (refl, (refl, (refl, (refl, tt)))))))
      (omega arith)

escape-read_example :
    read_string false (escape (codes "a\"\n") ++ (34 ∷ codes "}")) ≡ some (codes "a\"\n", codes "}")
escape-read_example = escape-read (codes "a\"\n") (codes "}") (refl, (refl, (refl, tt)))

-- The byte 1 is left as it is, and the string is refused.
control_refused : read_string false (escape (1 ∷ []) ++ (34 ∷ [])) ≡ none
unfolding read_string escape escaped
control_refused = refl
