-- ===== src/Translator/Tests.antt =====
-- Runs of the translator, and its theorems at concrete inputs.
use rediskrazy.Base.{◌≡◌, refl, some, List, [], ◌∷◌, arith, codes, bytes_eq, Ends}
use rediskrazy.Base.Int.{pos}
use rediskrazy.Schema.{
  Column, Table, Database, SchemaContext, find_named, type_int, type_string, get_active_database,
}
use rediskrazy.Schema.OneDatabase.{IsValid}
use rediskrazy.Lexer.{is_ident, keyword_in, equal_ignoring_case}
use rediskrazy.Parser.{with_type, SqlQuery}
use rediskrazy.Parser.Select.{IsName, select_text}
use rediskrazy.Translator.{
  current_database, name_or_default, translate_create_table, process_sql, insert_row,
}
use rediskrazy.Translator.Safe.{Kept}
use rediskrazy.Translator.CreateTable.{Creates, translate_create_table-Creates}
use rediskrazy.Translator.Process.{process_sql-Kept, process_sql-select, select_result}
use rediskrazy.Translator.Insert.{insert_reference, insert_row-reference}

-- The columns id, the primary key, and name.
abbrev two_columns : List Column
two_columns =
    record { name = codes "name"; type = type_string; not_null = pos 0; is_primary = pos 0 }
    ∷ record { name = codes "id"; type = type_int; not_null = pos 1; is_primary = pos 1 }
    ∷ []

abbrev people : Table
people = record { name = codes "t1"; columns = two_columns }

abbrev shop : Database
shop = record { name = codes "s"; tables = people ∷ [] }

-- The database s, which is active, with the table t1.
abbrev one_database : SchemaContext
one_database = record { databases = shop ∷ []; current_db_idx = some 0 }

one_database-IsValid : IsValid one_database
unfolding find_named
one_database-IsValid = record {
  databases_unique = (refl, tt);
  tables_unique = ((refl, tt), tt);
  active = omega arith;
}

shop_current : current_database one_database ≡ some (some shop)
unfolding current_database get_active_database
shop_current = refl

process_sql-Kept_example :
    Ends (Kept one_database) (process_sql one_database (codes "DROP DATABASE s"))
process_sql-Kept_example =
    process_sql-Kept one_database (codes "DROP DATABASE s") one_database-IsValid (
      omega arith,
      (
        omega arith,
        (
          omega arith,
          (
            omega arith,
            (
              omega arith,
              (
                omega arith,
                (
                  omega arith,
                  (
                    omega arith,
                    (
                      omega arith,
                      (
                        omega arith,
                        (
                          omega arith,
                          (omega arith, (omega arith, (omega arith, (omega arith, tt)))),
                        ),
                      ),
                    ),
                  ),
                ),
              ),
            ),
          ),
        ),
      ),
    )

abbrev create_t2 : SqlQuery
create_t2 = record (with_type 5) { table = some (codes "t2"); cols = two_columns }

translate_create_table-Creates_example :
    Ends
      (Creates one_database (name_or_default (some shop)) create_t2)
      (translate_create_table one_database (some shop) create_t2)
translate_create_table-Creates_example =
    translate_create_table-Creates one_database (some shop) create_t2 one_database-IsValid
      shop_current

-- The name t1.
t1_IsName : IsName 116 (49 ∷ [])
unfolding is_ident keyword_in equal_ignoring_case bytes_eq
t1_IsName = record {
  first = refl;
  no_star = λ e. ground arith;
  others = (refl, tt);
  no_not = refl;
  no_keyword = refl;
}

process_sql-select_example :
    process_sql one_database (select_text (codes "t1") (codes "a b"))
    ≡ some (one_database, select_result (some shop) (codes "t1") (codes "a b"))
process_sql-select_example =
    process_sql-select one_database (some shop) 116 (49 ∷ []) (codes "a b") t1_IsName
      (refl, (refl, (refl, tt))) shop_current

insert_row-reference_example :
    insert_row (codes "s") (codes "t1") people (codes "Ann" ∷ codes "7" ∷ [])
    ≡ some (insert_reference (codes "s") (codes "t1") people (codes "Ann" ∷ codes "7" ∷ []))
insert_row-reference_example =
    insert_row-reference (codes "s") (codes "t1") people (codes "Ann" ∷ codes "7" ∷ [])
