-- ===== src/Translator.antt =====
-- query_processor/sql_translator.h, sql_translator.c, and process_sql of sql_parser.c: the command that a
-- query is translated to, and what it does to the schema.
-- A char * is the list of its bytes; num_cols and num_rows are the lengths of the lists, and an absent
-- array is the empty list. `none` is a read through NULL or outside of an array. A `db` is the database
-- that the pointer leads to when the code reads it.
pub mod Current
pub mod Safe
pub mod Stored
pub mod CreateTable
pub mod Process
pub mod Insert
pub mod Tests
use rediskrazy.Base.{
  ◌>>=◌, ℕ, zero, suc, ◌+◌, Bool, true, false, ◌&&◌, Option, none, some, List, [], ◌∷◌, ◌++◌, ltb,
  ◌==◌, if◌then◌else◌, length, get_elem?, take, replicate, map, codes, bytes_eq,
}
use rediskrazy.Base.Int.{ℤ, pos, negsuc}
use rediskrazy.Schema.{
  Name, DataType, type_int, type_string, Column, Table, Database, SchemaContext,
  get_active_database, get_database, get_table, create_database, create_table, set_active_database,
  drop_database, drop_table, list_databases, list_tables,
}
use rediskrazy.Parser.{SqlQuery, Parser, parser_init, parse_query}

pub record SqlResult : Type 0 where
  pub headers : List (List ℕ)
  pub rows : List (List (List ℕ))
  pub error : Option (List ℕ)
  pub redis_cmd : Option (List ℕ)

abbrev pub make_error : List ℕ → SqlResult
make_error msg = record { headers = []; rows = []; error = some msg; redis_cmd = none }

-- The results of all commands but SELECT and LIST: one column, one row.
abbrev pub one_cell : List ℕ → List ℕ → Option (List ℕ) → SqlResult
one_cell header cell cmd = record {
  headers = header ∷ [];
  rows = (cell ∷ []) ∷ [];
  error = none;
  redis_cmd = cmd;
}

abbrev pub status : List ℕ → List ℕ → SqlResult
status msg cmd = one_cell (codes "Status") msg (some cmd)

-- snprintf into `char buf[1024]` keeps 1023 bytes.
unfoldable pub in_buf : List ℕ → List ℕ
in_buf s = take 1023 s

-- "%s:%s:%s"
abbrev pub row_key : Name → Name → List ℕ → List ℕ
row_key db_name table key = db_name ++ (58 ∷ (table ++ (58 ∷ key)))

abbrev pub column_names : List Column → List Name
column_names [] = []
column_names (c ∷ cols) = c.name ∷ column_names cols

abbrev pub is_zero : ℤ → Bool
is_zero (pos n) = n == 0
is_zero (negsuc n) = false

abbrev pub no_table : List ℕ
no_table = codes "Table does not exist"

-- get_active_database(), or the database "default".
unfoldable pub current_database : SchemaContext → Option (Option Database)
current_database context = get_active_database context >>= λ o. elim o [
  | some db ↦ some (some db)
  | none ↦ some (get_database context (codes "default"))
]

abbrev pub name_or_default : Option Database → Name
name_or_default (some db) = db.name
name_or_default none = codes "default"

-- db ? get_table(db, name) : NULL
abbrev pub table_of : Option Database → Name → Option Table
table_of (some db) name = get_table db name
table_of none name = none

abbrev pub scan_headers : Option Table → List Name
scan_headers (some t) = column_names t.columns
scan_headers none = codes "Key" ∷ []

abbrev pub pending : List ℕ
pending = codes "PENDING"

-- case 0, SELECT.
unfoldable pub translate_select : Option Database → SqlQuery → SqlResult
translate_select db q = elim (q.key) [
  | none ↦ elim (q.table) [
    | none ↦ make_error (codes "SELECT requires a table or a WHERE key = '...' clause")
    | some table ↦ record {
      headers = scan_headers (table_of db table);
      rows = [];
      error = none;
      redis_cmd =
          some (in_buf (codes "HSCANALL " ++ row_key (name_or_default db) table (codes "*")));
    }
  ]
  | some key ↦ elim (q.table) [
    | none ↦ record {
      headers = codes "Key" ∷ codes "Value" ∷ [];
      rows = (key ∷ pending ∷ []) ∷ [];
      error = none;
      redis_cmd = some (in_buf (codes "GET " ++ key));
    }
    | some table ↦ elim (table_of db table) [
      | none ↦ make_error no_table
      | some t ↦ record {
        headers = column_names t.columns;
        rows = replicate (length t.columns) pending ∷ [];
        error = none;
        redis_cmd = some (in_buf (codes "HGETALL " ++ row_key (name_or_default db) table key));
      }
    ]
  ]
]

-- The loop that finds the index of the primary key from index `i` on; pk_idx is `none` for -1.
unfoldable pub find_primary : ℕ → Option ℕ → List Column → Option ℕ
find_primary i pk_idx [] = pk_idx
find_primary i pk_idx (c ∷ cols) =
    find_primary (suc i) (if is_zero c.is_primary then pk_idx else some i) cols

abbrev pub or_first : Option ℕ → ℕ
or_first (some i) = i
or_first none = 0

-- The loop over the columns of an INSERT. The rounds are the columns that are left.
unfoldable pub append_fields : ℕ → ℕ → List Column → List (List ℕ) → ℕ → List ℕ → Option (List ℕ)
append_fields zero i cols vals val_offset cmd = some cmd
append_fields (suc rounds) i cols vals val_offset cmd = elim (ltb (i + val_offset) (length vals)) [
  | false ↦ some cmd
  | true ↦ get_elem? cols i >>= λ c. get_elem? vals (i + val_offset) >>= λ v.
      append_fields rounds (suc i) cols vals val_offset (cmd ++ (32 ∷ (c.name ++ (32 ∷ v))))
]

-- The key of the row and the offset of the first value, or an error.
unfoldable pub insert_key : Table → List (List ℕ) → Option (Option (List ℕ × ℕ))
insert_key t vals =
    if ltb (length t.columns) (length vals)
    then (get_elem? vals 0 >>= λ v. some (some (v, 1)))
    else (let pk_idx : ℕ = or_first (find_primary 0 none t.columns) in
        if ltb (length vals) (pk_idx + 1)
        then some none
        else get_elem? vals pk_idx >>= λ v. some (some (v, 0)))

-- An INSERT into the table.
unfoldable pub insert_row : Name → Name → Table → List (List ℕ) → Option SqlResult
insert_row db_name table t vals = insert_key t vals >>= λ o. elim o [
  | none ↦ some (make_error (codes "Primary key value missing"))
  | some k ↦
      append_fields (length t.columns) 0 t.columns vals k.1
        (codes "HSET " ++ row_key db_name table k.0)
      >>= λ cmd. some (status (codes "OK") cmd)
]

-- case 1, INSERT.
unfoldable pub translate_insert : Option Database → SqlQuery → Option SqlResult
translate_insert db q =
    if length q.vals == 0
    then some (make_error (codes "INSERT requires values"))
    else elim (q.table) [
      | some table ↦ elim (table_of db table) [
        | some t ↦ insert_row (name_or_default db) table t q.vals
        | none ↦ some (make_error no_table)
      ]
      | none ↦ elim (q.key) [
        | none ↦ some (make_error (codes "INSERT requires key and value"))
        | some key ↦ elim (q.val) [
          | none ↦ some (make_error (codes "INSERT requires key and value"))
          | some val ↦ some (status (codes "OK") (in_buf (codes "SET " ++ (key ++ (32 ∷ val)))))
        ]
      ]
    ]

-- The name that DELETE and UPDATE give the key: of a row of the table, or as it is.
abbrev pub named_key : Option Database → Option Name → List ℕ → Option (List ℕ)
named_key db none key = some key
named_key db (some table) key = elim (table_of db table) [
  | none ↦ none
  | some t ↦ some (row_key (name_or_default db) table key)
]

-- case 2, DELETE.
unfoldable pub translate_delete : Option Database → SqlQuery → SqlResult
translate_delete db q = elim (q.key) [
  | none ↦ make_error (codes "DELETE requires a WHERE key = '...' clause")
  | some key ↦ elim (named_key db q.table key) [
    | none ↦ make_error no_table
    | some k ↦ status (codes "OK") (in_buf (codes "DEL " ++ k))
  ]
]

abbrev pub update_usage : List ℕ
update_usage = codes "UPDATE requires SET val = '...' and WHERE key = '...'"

-- case 3, UPDATE.
unfoldable pub translate_update : Option Database → SqlQuery → SqlResult
translate_update db q = elim (q.key) [
  | none ↦ make_error update_usage
  | some key ↦ elim (q.val) [
    | none ↦ make_error update_usage
    | some val ↦ elim (named_key db q.table key) [
      | none ↦ make_error no_table
      | some k ↦ status (codes "OK") (in_buf (codes "SET " ++ (k ++ (32 ∷ val))))
    ]
  ]
]

abbrev pub Reply : Type 0
Reply = SchemaContext × SqlResult

-- The result of a call on the schema: an error if it is not 0.
abbrev pub checked : SchemaContext × ℤ → List ℕ → SqlResult → Reply
checked r msg res = if is_zero r.1 then (r.0, res) else (r.0, make_error msg)

-- case 4, CREATE DATABASE.
unfoldable pub translate_create_db : SchemaContext → SqlQuery → Reply
translate_create_db context q = elim (q.key) [
  | none ↦ (context, make_error (codes "CREATE DATABASE requires a name"))
  | some key ↦ checked (create_database context key) (codes "Database already exists") (
      status (codes "Database Created")
        (in_buf (codes "HSET _sys:db:" ++ (key ++ codes " created 1"))))
]

abbrev pub type_name : DataType → List ℕ
type_name type_int = codes "INT"
type_name type_string = codes "STRING"

-- One column of a stored table.
abbrev pub column_text : Column → List ℕ
column_text c =
    c.name ++ (58 ∷ (type_name c.type ++ (if is_zero c.is_primary then [] else codes ":PK")))

-- The loop over the columns of a stored table, from index `i` on.
unfoldable pub append_columns : ℕ → List Column → List ℕ → List ℕ
append_columns i [] cmd = cmd
append_columns i (c ∷ cols) cmd =
    append_columns (suc i) cols ((if ltb 0 i then cmd ++ (44 ∷ []) else cmd) ++ column_text c)

-- The label table_ok.
unfoldable pub table_ok : SchemaContext → Option Database → Name → Option Reply
table_ok context db table =
    let db_then : Option (Option Database) = elim db [
      | some _ ↦ current_database context
      | none ↦ some (get_database context (codes "default"))
    ] in
    db_then >>= λ o. table_of o table >>= λ new_t. some (
      context,
      status (codes "Table Created") (
          append_columns 0 new_t.columns (
            codes "HSET _sys:schema:" ++ (name_or_default db ++ (58 ∷ (table ++ codes " cols \""))))
          ++ (34 ∷ [])),
    )

abbrev pub table_failed : List ℕ
table_failed = codes "Failed to create table (maybe it exists or DB missing)"

-- CREATE TABLE where there is no database: a database "default" is added.
unfoldable pub create_in_default : SchemaContext → Name → List Column → Option Reply
create_in_default context table cols =
    let context' : SchemaContext = (create_database context (codes "default")).0 in
    let r : SchemaContext × ℤ = create_table context' (codes "default") table cols in
    if is_zero r.1 then table_ok r.0 none table else some (r.0, make_error table_failed)

-- case 5, CREATE TABLE.
unfoldable pub translate_create_table : SchemaContext → Option Database → SqlQuery → Option Reply
translate_create_table context db q = elim (q.table) [
  | none ↦ some (context, make_error (codes "CREATE TABLE requires a name"))
  | some table ↦
      let r : SchemaContext × ℤ = create_table context (name_or_default db) table q.cols in
      if is_zero r.1 then table_ok r.0 db table else elim db [
        | none ↦ create_in_default r.0 table q.cols
        | some _ ↦ some (r.0, make_error table_failed)
      ]
]

-- case 6, USE.
unfoldable pub translate_use : SchemaContext → SqlQuery → Reply
translate_use context q = elim (q.key) [
  | none ↦ (context, make_error (codes "USE requires a database name"))
  | some key ↦
      checked (set_active_database context key) (codes "Database does not exist")
        (status (codes "Database changed") (codes "PING"))
]

abbrev pub one_column : List Name → List (List Name)
one_column [] = []
one_column (n ∷ l) = (n ∷ []) ∷ one_column l

-- The result of LIST.
abbrev pub listing : List ℕ → List Name → SqlResult
listing header l = record {
  headers = header ∷ [];
  rows = one_column l;
  error = none;
  redis_cmd = some (codes "PING");
}

-- case 7, LIST.
unfoldable pub translate_list : SchemaContext → SqlQuery → Option SqlResult
translate_list context q = q.key >>= λ key.
    if bytes_eq key (codes "DATABASES")
    then some (listing (codes "Database") (list_databases context))
    else get_active_database context >>= λ o. elim o [
      | none ↦ some (make_error (codes "No active database. Use 'USE <db>'"))
      | some db ↦ some (listing (codes "Table") (list_tables context db.name))
    ]

-- drop_database(q.key), where a NULL is compared with the name of the first database.
abbrev pub drop_named : SchemaContext → Option Name → Option (SchemaContext × ℤ)
drop_named context (some key) = some (drop_database context key)
drop_named context none = elim (context.databases) [ [] ↦ some (context, negsuc 0) | db ∷ l ↦ none ]

-- case 9, DROP.
unfoldable pub translate_drop : SchemaContext → Option Database → SqlQuery → Option Reply
translate_drop context db q = elim (q.val) [
  | none ↦ some (context, make_error (codes "Internal error: DROP type missing"))
  | some val ↦
      if bytes_eq val (codes "DATABASE")
      then (drop_named context q.key >>= λ r. some (
          checked r (codes "Database does not exist")
            (status (codes "Database Dropped") (codes "PING"))))
      else elim (q.table) [
        | none ↦ some (context, make_error (codes "DROP TABLE requires a name"))
        | some table ↦ some (
            checked (drop_table context (name_or_default db) table) no_table
              (status (codes "Table Dropped") (codes "PING")))
      ]
]

-- case 10, HELP.
abbrev pub help : SqlResult
help = record {
  headers = codes "Command" ∷ codes "Description" ∷ [];
  rows =
      (codes "CREATE DATABASE <db>" ∷ codes "Create a new database" ∷ [])
      ∷ (codes "DROP DATABASE <db>" ∷ codes "Remove a database" ∷ [])
      ∷ (codes "CREATE TABLE <tbl> (...)" ∷ codes "Create a new table" ∷ [])
      ∷ (codes "DROP TABLE <tbl>" ∷ codes "Remove a table" ∷ [])
      ∷ (codes "USE <db>" ∷ codes "Switch active database" ∷ [])
      ∷ (codes "LIST DATABASES" ∷ codes "Show all databases" ∷ [])
      ∷ (codes "LIST TABLES" ∷ codes "Show tables in active DB" ∷ [])
      ∷ (codes "SELECT * FROM <tbl>" ∷ codes "Query data from a table" ∷ [])
      ∷ (codes "INSERT INTO <tbl> VALUES (...)" ∷ codes "Insert data into a table" ∷ [])
      ∷ (codes "CLEAR / CLS" ∷ codes "Clear terminal screen" ∷ [])
      ∷ (codes "HELP" ∷ codes "Show this help message" ∷ [])
      ∷ [];
  error = none;
  redis_cmd = none;
}

-- The switch on the type of the query, where it is not negative.
unfoldable pub translate_case : ℕ → SchemaContext → Option Database → SqlQuery → Option Reply
translate_case n context db q =
    if n == 0
    then some (context, translate_select db q)
    else if n == 1
    then (translate_insert db q >>= λ res. some (context, res))
    else if n == 2
    then some (context, translate_delete db q)
    else if n == 3
    then some (context, translate_update db q)
    else if n == 4
    then some (translate_create_db context q)
    else if n == 5
    then translate_create_table context db q
    else if n == 6
    then some (translate_use context q)
    else if n == 7
    then (translate_list context q >>= λ res. some (context, res))
    else if n == 8
    then some (context, one_cell (codes "Action") (codes "CLEAR_SCREEN") none)
    else if n == 9
    then translate_drop context db q
    else if n == 10
    then some (context, help)
    else some (context, make_error (codes "Unsupported query type"))

-- The switch on the type of the query.
unfoldable pub translate_type : ℤ → SchemaContext → Option Database → SqlQuery → Option Reply
translate_type (pos n) context db q = translate_case n context db q
translate_type (negsuc n) context db q = some (context, make_error (codes "Unsupported query type"))

unfoldable pub translate_query : SchemaContext → SqlQuery → Option (List ℕ) → Option Reply
translate_query context q parser_error = elim parser_error [
  | some msg ↦ some (context, make_error msg)
  | none ↦ current_database context >>= λ db. translate_type q.type context db q
]

-- process_sql, without the freeing of the query.
unfoldable pub process_sql : SchemaContext → List ℕ → Option Reply
process_sql context sql =
    parse_query (parser_init sql) >>= λ r. translate_query context r.0 r.1.error
