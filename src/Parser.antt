-- ===== src/Parser.antt =====
-- query_processor/sql_parser.h, sql_parser_internal.h and sql_parser_internal.c: the parser of a command.
-- A string field is `none` for NULL; the counts num_cols and num_vals are the lengths of the lists. The
-- loops run on fuel, `none` is a loop that needs more, and Parser/Ends proves that none does.
pub mod Measure
pub mod Ends
pub mod Complete
pub mod Select
use rediskrazy.Base.{
  ◌>>=◌, ℕ, zero, suc, ◌+◌, Bool, true, false, ◌&&◌, ◌||◌, not, Option, none, some, List, [], ◌∷◌,
  ◌++◌, ◌==◌, if◌then◌else◌, length, codes,
}
use rediskrazy.Base.Int.{ℤ, pos, negsuc}
use rediskrazy.Sds.{Sds}
use rediskrazy.Schema.{Column, DataType, type_string, type_int}
use rediskrazy.Lexer.{
  TokenType, Token, Lexer, lexer_next, equal_ignoring_case, keyword_select, keyword_insert,
  keyword_update, keyword_delete, keyword_from, keyword_where, keyword_into, keyword_values,
  keyword_set, identifier, string, equals, comma, lparen, rparen, keyword_create, keyword_database,
  keyword_table, keyword_use, keyword_list, keyword_databases, keyword_tables, keyword_not_null,
  keyword_null, keyword_int, keyword_varchar, keyword_string, keyword_primary, keyword_key,
  keyword_val, keyword_clear, keyword_cls, keyword_help, keyword_drop, asterisk, eof, error,
}

-- The place of a type in its enumeration.
abbrev pub token_number : TokenType → ℕ
token_number keyword_select = 0
token_number keyword_insert = 1
token_number keyword_update = 2
token_number keyword_delete = 3
token_number keyword_from = 4
token_number keyword_where = 5
token_number keyword_into = 6
token_number keyword_values = 7
token_number keyword_set = 8
token_number identifier = 9
token_number string = 10
token_number equals = 11
token_number comma = 12
token_number lparen = 13
token_number rparen = 14
token_number keyword_create = 15
token_number keyword_database = 16
token_number keyword_table = 17
token_number keyword_use = 18
token_number keyword_list = 19
token_number keyword_databases = 20
token_number keyword_tables = 21
token_number keyword_not_null = 22
token_number keyword_null = 23
token_number keyword_int = 24
token_number keyword_varchar = 25
token_number keyword_string = 26
token_number keyword_primary = 27
token_number keyword_key = 28
token_number keyword_val = 29
token_number keyword_clear = 30
token_number keyword_cls = 31
token_number keyword_help = 32
token_number keyword_drop = 33
token_number asterisk = 34
token_number eof = 35
token_number error = 36

pub record Parser : Type 0 where
  pub lexer : Lexer
  pub current : Token
  pub error : Option (List ℕ)

pub record SqlQuery : Type 0 where
  pub type : ℤ
  pub key : Option Sds
  pub val : Option Sds
  pub table : Option Sds
  pub cols : List Column
  pub vals : List Sds

abbrev pub Result : Type 0
Result = SqlQuery × Parser

pub parser_init : List ℕ → Parser
parser_init sql = record { lexer = (lexer_next sql).1; current = (lexer_next sql).0; error = none }

unfoldable pub advance : Parser → Parser
advance p = record p { lexer = (lexer_next p.lexer).1; current = (lexer_next p.lexer).0 }

-- p->current.type == type
unfoldable pub at_type : Parser → TokenType → Bool
at_type p type = token_number p.current.type == token_number type

-- if (match(p, type)) with its two branches.
unfoldable pub on_match : {A : Type 0} → Parser → TokenType → (Parser → A) → A → A
on_match p type y n = if at_type p type then y (advance p) else n

-- match(p, type), where its result is not used.
unfoldable pub skip : Parser → TokenType → Parser
skip p type = if at_type p type then advance p else p

abbrev pub set_error : Parser → List ℕ → Parser
set_error p msg = elim (p.error) [ some _ ↦ p | none ↦ record p { error = some msg } ]

abbrev pub at_value : Parser → Bool
at_value p = at_type p string || at_type p identifier

-- The name `word`, as an identifier or as its keyword.
abbrev pub at_word : Parser → TokenType → List ℕ → Bool
at_word p keyword word =
    (at_type p identifier || at_type p keyword) && equal_ignoring_case p.current.text word

-- The WHERE clause of SELECT.
unfoldable pub select_where : SqlQuery → Parser → Result
select_where q p =
    if at_word p keyword_key (codes "key")
    then on_match (advance p) equals
        (λ p.
          if at_value p
          then (record q { key = some p.current.text }, advance p)
          else (q, set_error p (codes "Expected key value")))
        (q, set_error (advance p) (codes "Expected = after key"))
    else (q, set_error p (codes "Expected 'key' in WHERE clause"))

unfoldable pub parse_select : SqlQuery → Parser → Result
parse_select q p =
    on_match p asterisk
      (λ p.
        on_match p keyword_from
          (λ p.
            if at_type p identifier
            then (let q' : SqlQuery = record q { table = some p.current.text } in
                on_match (advance p) keyword_where (select_where q') (q', advance p))
            else (q, set_error p (codes "Expected table name")))
          (q, set_error p (codes "Expected FROM after SELECT *")))
      (q, set_error p (codes "Expected * after SELECT"))

-- The WHERE clause of UPDATE and DELETE.
unfoldable pub where_key : SqlQuery → Parser → Result
where_key q p =
    on_match p keyword_where
      (λ p.
        if at_word p keyword_key (codes "key")
        then on_match (advance p) equals
            (λ p.
              if at_value p then (record q { key = some p.current.text }, advance p) else (q, p))
            (q, advance p)
        else (q, p))
      (q, p)

-- The SET clause of UPDATE.
unfoldable pub set_val : SqlQuery → Parser → Result
set_val q p =
    on_match p keyword_set
      (λ p.
        if at_word p keyword_val (codes "val")
        then on_match (advance p) equals
            (λ p.
              if at_value p then (record q { val = some p.current.text }, advance p) else (q, p))
            (q, advance p)
        else (q, p))
      (q, p)

-- An optional table name.
unfoldable pub table_name : SqlQuery → Parser → Result
table_name q p =
    if at_type p identifier then (record q { table = some p.current.text }, advance p) else (q, p)

unfoldable pub parse_update : SqlQuery → Parser → Result
parse_update q p = let (q, p) = table_name q p in let (q, p) = set_val q p in where_key q p

unfoldable pub parse_delete : SqlQuery → Parser → Result
parse_delete q p = let (q, p) = on_match p keyword_from (table_name q) (q, p) in where_key q p

-- The loop over a column list, up to its end.
unfoldable pub skip_columns : ℕ → Parser → Option Parser
skip_columns zero p = none
skip_columns (suc rounds) p = elim (not (at_type p rparen) && not (at_type p eof)) [
  | true ↦ skip_columns rounds (advance p)
  | false ↦ some p
]

-- The fuel of a loop: more than the tokens left.
abbrev pub rounds_for : Parser → ℕ
rounds_for p = suc (suc (length p.lexer))

abbrev pub add_value : SqlQuery → Sds → SqlQuery
add_value q v = record q {
  key = if length q.vals == 0 then some v else q.key;
  val = if length q.vals == 1 then some v else q.val;
  vals = q.vals ++ (v ∷ []);
}

-- The loop over the values.
unfoldable pub parse_values : ℕ → SqlQuery → Parser → Option Result
parse_values zero q p = none
parse_values (suc rounds) q p = elim (at_value p) [
  | false ↦ some (q, p)
  | true ↦ elim (at_type (advance p) comma) [
    | false ↦ some (add_value q p.current.text, advance p)
    | true ↦ parse_values rounds (add_value q p.current.text) (advance (advance p))
  ]
]

unfoldable pub insert_values : SqlQuery → Parser → Option Result
insert_values q p =
    on_match p keyword_values
      (λ p.
        on_match p lparen
          (λ p. parse_values (rounds_for p) (record q { vals = [] }) p >>= λ r.
            some (r.0, skip r.1 rparen))
          (some (q, p)))
      (some (q, set_error p (codes "Expected VALUES")))

unfoldable pub parse_insert : SqlQuery → Parser → Option Result
parse_insert q p =
    on_match p keyword_into
      (λ p.
        let (q, p) = table_name q p in
        on_match p lparen
          (λ p. skip_columns (rounds_for p) p >>= λ p. insert_values q (skip p rparen))
          (insert_values q p))
      (some (q, set_error p (codes "Expected INTO after INSERT")))

-- A parenthesis with the size of a type, not looked at.
unfoldable pub skip_size : Parser → Parser
skip_size p = on_match p lparen (λ p. skip (advance p) rparen) p

-- VARCHAR or STRING.
abbrev pub at_text_type : Parser → Bool
at_text_type p = at_type p keyword_varchar || at_type p keyword_string

-- The loop over the constraints at the end of a column.
unfoldable pub constraints : ℕ → Column → Parser → Option (Column × Parser)
constraints zero c p = none
constraints (suc rounds) c p = elim (at_type p keyword_primary) [
  | true ↦ constraints rounds (record c { is_primary = pos 1 }) (skip (advance p) keyword_key)
  | false ↦ elim (at_type p keyword_not_null) [
    | true ↦ constraints rounds (record c { not_null = pos 1 }) (advance p)
    | false ↦ elim (at_type p keyword_int) [
      | true ↦ constraints rounds (record c { type = type_int }) (advance p)
      | false ↦ elim (at_text_type p) [
        | true ↦ constraints rounds (record c { type = type_string }) (skip_size (advance p))
        | false ↦ some (c, p)
      ]
    ]
  ]
]

-- The rest of a column behind its first token, whose type and text are given.
unfoldable pub column_name : Token → Column → Parser → Column × Parser
column_name first c p =
    let first_number : ℕ = token_number first.type in
    if (first_number == token_number keyword_int)
      || (first_number == token_number keyword_varchar)
      || (first_number == token_number keyword_string)
    then (let c' : Column = record c {
      type = if first_number == token_number keyword_int then type_int else type_string;
    } in
        if at_type p identifier
        then (record c' { name = p.current.text }, advance p)
        else (record c' { name = first.text }, p))
    else (let c' : Column = record c { name = first.text } in
        if at_type p keyword_int
        then (record c' { type = type_int }, advance p)
        else if at_text_type p
        then (record c' { type = type_string }, skip_size (advance p))
        else (c', p))

-- PRIMARY, and KEY, directly behind the first token.
unfoldable pub early_primary : Column → Parser → Column × Parser
early_primary c p =
    on_match p keyword_primary (λ p. (record c { is_primary = pos 1 }, skip p keyword_key)) (c, p)

unfoldable pub parse_column : Parser → Option (Column × Parser)
parse_column p =
    let c : Column = record {
      name = [];
      type = type_string;
      not_null = pos 0;
      is_primary = pos 0;
    } in
    let early = early_primary c (advance p) in
    let named = column_name p.current early.0 early.1 in
    constraints (rounds_for named.1) named.0 named.1

abbrev pub at_column : Parser → Bool
at_column p = at_type p identifier || at_type p keyword_int || at_text_type p

-- The loop over the columns.
unfoldable pub parse_columns : ℕ → SqlQuery → Parser → Option Result
parse_columns zero q p = none
parse_columns (suc rounds) q p = elim (at_column p) [
  | false ↦ some (q, p)
  | true ↦ parse_column p >>= λ r. elim (at_type r.1 comma) [
    | false ↦ some (record q { cols = q.cols ++ (r.0 ∷ []) }, r.1)
    | true ↦ parse_columns rounds (record q { cols = q.cols ++ (r.0 ∷ []) }) (advance r.1)
  ]
]

-- A name that is needed: the key of the query, or an error.
unfoldable pub key_or_error : SqlQuery → Parser → List ℕ → Result
key_or_error q p msg =
    if at_type p identifier
    then (record q { key = some p.current.text }, advance p)
    else (q, set_error p msg)

unfoldable pub table_or_error : SqlQuery → Parser → List ℕ → Result
table_or_error q p msg =
    if at_type p identifier
    then (record q { table = some p.current.text }, advance p)
    else (q, set_error p msg)

unfoldable pub parse_create : SqlQuery → Parser → Option Result
parse_create q p =
    on_match p keyword_database
      (λ p. some (key_or_error (record q { type = pos 4 }) p (codes "Expected database name")))
      (on_match p keyword_table
        (λ p.
          let (q, p) = table_or_error (record q { type = pos 5 }) p (codes "Expected table name") in
          on_match p lparen
            (λ p. parse_columns (rounds_for p) (record q { cols = [] }) p >>= λ r.
              some (r.0, skip r.1 rparen))
            (some (q, p)))
        (some (q, set_error p (codes "Expected DATABASE or TABLE after CREATE"))))

unfoldable pub parse_list : SqlQuery → Parser → Result
parse_list q p =
    on_match p keyword_databases (λ p. (record q { key = some (codes "DATABASES") }, p))
      (on_match p keyword_tables (λ p. (record q { key = some (codes "TABLES") }, p))
        (q, set_error p (codes "Expected DATABASES or TABLES after LIST")))

unfoldable pub parse_drop : SqlQuery → Parser → Result
parse_drop q p =
    on_match p keyword_database
      (λ p.
        key_or_error (record q { type = pos 9; val = some (codes "DATABASE") }) p
          (codes "Expected database name after DROP DATABASE"))
      (on_match p keyword_table
        (λ p.
          table_or_error (record q { type = pos 9; val = some (codes "TABLE") }) p
            (codes "Expected table name after DROP TABLE"))
        (q, set_error p (codes "Expected DATABASE or TABLE after DROP")))

abbrev pub empty_query : SqlQuery
empty_query = record { type = negsuc 0; key = none; val = none; table = none; cols = []; vals = [] }

abbrev pub with_type : ℕ → SqlQuery
with_type n = record (empty_query) { type = pos n }

unfoldable pub parse_query : Parser → Option Result
parse_query p =
    on_match p keyword_select (λ p. some (parse_select (with_type 0) p))
      (on_match p keyword_insert (λ p. parse_insert (with_type 1) p)
        (on_match p keyword_update (λ p. some (parse_update (with_type 3) p))
          (on_match p keyword_delete (λ p. some (parse_delete (with_type 2) p))
            (on_match p keyword_create (λ p. parse_create empty_query p)
              (on_match p keyword_use
                (λ p.
                  some (key_or_error (with_type 6) p (codes "Expected database name after USE")))
                (on_match p keyword_list (λ p. some (parse_list (with_type 7) p))
                  (on_match p keyword_clear (λ p. some (with_type 8, p))
                    (on_match p keyword_cls (λ p. some (with_type 8, p))
                      (on_match p keyword_drop (λ p. some (parse_drop empty_query p))
                        (on_match p keyword_help (λ p. some (with_type 10, p))
                          (some (
                            empty_query,
                            set_error p (codes "Unknown or unsupported SQL command"),
                          ))))))))))))
