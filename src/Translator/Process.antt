-- ===== src/Translator/Process.antt =====
-- Every text is processed without a wrong access, and a query that fails changes nothing.
use rediskrazy.Base.{
  ◌>>=◌, ℕ, ◌<◌, ◌≡◌, refl, sym, ap, ◌∙◌, false, Option, none, some, List, ◌==◌, arith, codes, Ends,
  ends, Ends-bind, Ends-map, Ends-if, Ends-and, ◌++◌, ◌∷◌, All, length, replicate, subst, Ends-inv,
  [],
}
use rediskrazy.Base.Int.{ℤ, pos, negsuc}
use rediskrazy.Schema.{Name, Database, SchemaContext}
use rediskrazy.Schema.OneDatabase.{IsValid}
use rediskrazy.Parser.{SqlQuery, parser_init, with_type}
use rediskrazy.Parser.Ends.{parse_query-Ends}
use rediskrazy.Parser.Complete.{IsComplete, parse_query-Good}
use rediskrazy.Parser.Select.{IsName, select_text, parse_query-select}
use rediskrazy.Translator.{
  SqlResult, make_error, current_database, translate_case, translate_type, translate_query,
  process_sql, row_key, column_names, pending, in_buf, no_table, table_of, name_or_default,
  translate_select,
}
use rediskrazy.Translator.Current.{current-Ends}
use rediskrazy.Translator.Safe.{
  Kept, IsResult, same_schema, translate_select-IsResult, translate_insert-Ends,
  translate_delete-IsResult, translate_update-IsResult, translate_create_db-Kept,
  translate_use-Kept, translate_list-Ends, translate_drop-Ends,
}
use rediskrazy.Translator.CreateTable.{translate_create_table-Creates}

translate_case-Ends :
    (n : ℕ) (context : SchemaContext) (db : Option Database) (q : SqlQuery)
    → IsValid context
    → current_database context ≡ some db
    → q.type ≡ pos n
    → IsComplete q
    → Ends (Kept context) (translate_case n context db q)
unfolding translate_case
translate_case-Ends n context db q v e t c =
    Ends-if (n == 0) (λ y. plain (translate_select-IsResult db q))
      (λ n0.
        Ends-if (n == 1) (λ y. Ends-bind (translate_insert-Ends db q) λ res z. plain z)
          (λ n1.
            Ends-if (n == 2) (λ y. plain (translate_delete-IsResult db q))
              (λ n2.
                Ends-if (n == 3) (λ y. plain (translate_update-IsResult db q))
                  (λ n3.
                    Ends-if (n == 4) (λ y. ends (translate_create_db-Kept context q v))
                      (λ n4.
                        Ends-if (n == 5)
                          (λ y.
                            Ends-map (translate_create_table-Creates context db q v e) λ r z. z.0)
                          (λ n5.
                            Ends-if (n == 6) (λ y. ends (translate_use-Kept context q v))
                              (λ n6.
                                Ends-if (n == 7)
                                  (λ y.
                                    Ends-bind
                                      (translate_list-Ends context q v
                                        (c.list_key (t ∙ ap pos (ground arith))))
                                      λ res z. plain z)
                                  (λ n7.
                                    Ends-if (n == 8) (λ y. plain (λ h. refl))
                                      (λ n8.
                                        Ends-if (n == 9)
                                          (λ y.
                                            translate_drop-Ends context db q v
                                              (c.drop_key (t ∙ ap pos (ground arith))))
                                          (λ n9.
                                            Ends-if (n == 10) (λ y. plain (λ h. refl))
                                              (λ n10. plain (λ h. refl))))))))))))
  where
    plain : {res : SqlResult} → IsResult res → Ends (Kept context) (some (context, res))
    plain {res} f = ends (same_schema context res v f)

translate_type-Ends :
    (z : ℤ) (context : SchemaContext) (db : Option Database) (q : SqlQuery)
    → IsValid context
    → current_database context ≡ some db
    → q.type ≡ z
    → IsComplete q
    → Ends (Kept context) (translate_type z context db q)
unfolding translate_type
translate_type-Ends (pos n) context db q v e t c = translate_case-Ends n context db q v e t c
translate_type-Ends (negsuc n) context db q v e t c = ends (same_schema context _ v (λ h. refl))

translate_query-Ends :
    (context : SchemaContext) (q : SqlQuery) (parser_error : Option (List ℕ))
    → IsValid context
    → (parser_error ≡ none → IsComplete q)
    → Ends (Kept context) (translate_query context q parser_error)
unfolding translate_query
translate_query-Ends context q (some msg) v c = ends (same_schema context _ v (λ h. refl))
translate_query-Ends context q none v c =
    let (db, e, _) = Ends-inv (current-Ends context v) in
    subst (λ o. Ends (Kept context) (o >>= λ db. translate_type q.type context db q)) (sym e)
      (translate_type-Ends q.type context db q v e refl (c refl))

-- Every text of bytes below 128 is processed to the end in a valid schema, without a read through NULL or outside of an array. (Of
-- other bytes isspace and isalnum of the lexer, which get a negative char, are undefined.) The schema stays valid; and with an error it is
-- the one from before and no command is sent.
pub process_sql-Kept :
    (context : SchemaContext) (sql : List ℕ)
    → IsValid context
    → All (λ c. c < 128) sql
    → Ends (Kept context) (process_sql context sql)
unfolding process_sql
process_sql-Kept context sql v ascii =
    Ends-bind (Ends-and (parse_query-Ends (parser_init sql)) (parse_query-Good (parser_init sql)))
      λ r z. translate_query-Ends context r.0 r.1.error v z.1

-- What SELECT * FROM t WHERE key = 'k' returns.
abbrev pub select_result : Option Database → Name → List ℕ → SqlResult
select_result db name key = elim (table_of db name) [
  | none ↦ make_error no_table
  | some t ↦ record {
    headers = column_names t.columns;
    rows = replicate (length t.columns) pending ∷ [];
    error = none;
    redis_cmd = some (in_buf (codes "HGETALL " ++ row_key (name_or_default db) name key));
  }
]

translate_query-select :
    (context : SchemaContext) (db : Option Database) (name key : List ℕ)
    → current_database context ≡ some db
    → translate_query context (record (with_type 0) { table = some name; key = some key }) none
      ≡ some (context, select_result db name key)
unfolding translate_query translate_type translate_case translate_select
translate_query-select context db name key h = rw h refl

-- The text SELECT * FROM t WHERE key = 'k', for a name t that is no keyword and a k without a quote, is processed
-- to the command HGETALL on the row k of the table t in the current database, with the table's columns as headers, or to an error if
-- there is no such table. The schema stays as it is.
pub process_sql-select :
    (context : SchemaContext) (db : Option Database) (c : ℕ) (t k : List ℕ)
    → IsName c t
    → All (λ c. (c == 39) ≡ false) k
    → current_database context ≡ some db
    → process_sql context (select_text (c ∷ t) k) ≡ some (context, select_result db (c ∷ t) k)
unfolding process_sql
process_sql-select context db c t k v a h =
    ap (λ o. o >>= λ r. translate_query context r.0 r.1.error) (parse_query-select c t k v a)
    ∙ translate_query-select context db (c ∷ t) k h
