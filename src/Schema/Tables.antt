-- ===== src/Schema/Tables.antt =====
-- What create_table and drop_table do to the tables that a caller can find.
use rediskrazy.Base.{
  ◌≡◌, refl, ap, ◌∙◌, Bool, true, false, Option, none, some, List, ◌&&◌, if◌then◌else◌, bytes_eq,
  bytes_eq_iff, arith,
}
use rediskrazy.Schema.{
  Name, Column, Database, SchemaContext, get_database, add_table, create_table, remove_table,
  drop_table,
}
use rediskrazy.Schema.Laws.{is_some}
use rediskrazy.Schema.OneDatabase.{
  All-found, IsValid, add_table-name, get_database-on_database, get_table-add_table,
  get_table-remove_table, lookup_table, map_database, remove_table-name, table_in,
}

-- create_table adds a table to an existing database and changes no other table, nor one of the same name there.
pub create_table_correct :
    (context : SchemaContext) (db_name name other_db other : Name) (cols : List Column)
    → lookup_table (create_table context db_name name cols).0 other_db other
      ≡ elim (lookup_table context other_db other) [
        | some t ↦ some t
        | none ↦
            if is_some (get_database context db_name)
              && bytes_eq db_name other_db
              && bytes_eq name other
            then some (record { name = name; columns = cols })
            else none
      ]
unfolding create_table
create_table_correct context db_name name other_db other cols =
    let on =
      get_database-on_database context db_name (λ db. add_table db name cols)
        (λ db. add_table-name db name cols) other_db in
    ap (table_in other) on
    ∙ go (get_database context other_db) refl (bytes_eq db_name other_db) refl
  where
    go :
        (o : Option Database)
        → get_database context other_db ≡ o
        → (b : Bool) → bytes_eq db_name other_db ≡ b
        → table_in other (if b then map_database (λ db. add_table db name cols) o else o)
          ≡ elim (table_in other o) [
            | some t ↦ some t
            | none ↦
                if is_some (get_database context db_name) && b && bytes_eq name other
                then some (record { name = name; columns = cols })
                else none
          ]
    go none g true e =
        let same : get_database context db_name ≡ none =
          ap (get_database context) ((bytes_eq_iff db_name other_db).0 e) ∙ g in
        ground (arith, same)
    go none g false e = ground arith
    go (some db) g true e =
        let same : get_database context db_name ≡ some db =
          ap (get_database context) ((bytes_eq_iff db_name other_db).0 e) ∙ g in
        ground (arith, get_table-add_table db name other cols, same)
    go (some db) g false e = ground arith

-- drop_table removes the table of that name from that database, and no other.
pub drop_table_correct :
    (context : SchemaContext) (db_name name other_db other : Name)
    → IsValid context
    → lookup_table (drop_table context db_name name).0 other_db other ≡ (
        if bytes_eq db_name other_db && bytes_eq name other
        then none
        else lookup_table context other_db other)
unfolding drop_table
drop_table_correct context db_name name other_db other v =
    let on =
      get_database-on_database context db_name (λ db. remove_table db name)
        (λ db. remove_table-name db name) other_db in
    ap (table_in other) on ∙ go (get_database context other_db) refl (bytes_eq db_name other_db)
  where
    go :
        (o : Option Database)
        → get_database context other_db ≡ o
        → (b : Bool)
        → table_in other (if b then map_database (λ db. remove_table db name) o else o)
          ≡ (if b && bytes_eq name other then none else table_in other o)
    go none g true = ground arith
    go none g false = ground arith
    go (some db) g true =
        get_table-remove_table db name other
          (All-found other_db context.databases db v.tables_unique (unfold get_database in g))
    go (some db) g false = ground arith
