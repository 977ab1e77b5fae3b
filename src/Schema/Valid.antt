-- ===== src/Schema/Valid.antt =====
-- The calls that change databases and tables keep the schema valid. schema_free is not among them: it leaves the index of the
-- active database as it is.
use rediskrazy.Base.{ℕ, ◌≡◌, refl, Option, none, some, List, [], ◌∷◌, ◌++◌, length, arith}
use rediskrazy.Base.Int.{ℤ}
use rediskrazy.Schema.{
  Name, Column, Database, SchemaContext, find_index, database_name, table_name, set_active_database,
  create_database, add_table, create_table, drop_database, remove_table, drop_table,
}
use rediskrazy.Schema.Named.{
  UniqueNames, find_index-some, find_index-none, snoc-UniqueNames, remove_at-UniqueNames,
}
use rediskrazy.Base.{length-append, All-append}
use rediskrazy.Schema.OneDatabase.{
  All-remove_at, IsIndex, IsValid, add_table-UniqueNames, add_table-name, inside,
  on_database-IsValid, remove_table-UniqueNames, remove_table-name, shorter,
}

-- A call that changes the databases, the tables or which database is active.
pub data Command : Type 0 where
  create_db drop_db set_active : Name → Command
  create_tbl : Name → Name → List Column → Command
  drop_tbl : Name → Name → Command

abbrev pub run : SchemaContext → Command → SchemaContext × ℤ
run context (create_db n) = create_database context n
run context (drop_db n) = drop_database context n
run context (set_active n) = set_active_database context n
run context (create_tbl d n cols) = create_table context d n cols
run context (drop_tbl d n) = drop_table context d n

longer :
    (l : List Database) (db : Database) (c : Option ℕ)
    → IsIndex c (length l)
    → IsIndex c (length (l ++ (db ∷ [])))
longer l db none h = tt
longer l db (some c) h = omega (arith, length-append l (db ∷ []))

create_database-IsValid :
    (context : SchemaContext) (n : Name) → IsValid context → IsValid (create_database context n).0
unfolding create_database
create_database-IsValid context n v = go (find_index database_name n context.databases) refl
  where
    go :
        (o : Option ℕ)
        → find_index database_name n context.databases ≡ o
        → IsValid (create_database context n).0
    go (some i) h = rw (create_database, h) v
    go none h =
        rw (create_database, h)
          (record {
            databases_unique =
                snoc-UniqueNames database_name context.databases _ v.databases_unique
                  (find_index-none database_name n context.databases h);
            tables_unique =
                (All-append (λ db. UniqueNames table_name db.tables) context.databases _).1
                  (v.tables_unique, (tt, tt));
            active = longer context.databases _ context.current_db_idx v.active;
          })

drop_database-IsValid :
    (context : SchemaContext) (n : Name) → IsValid context → IsValid (drop_database context n).0
unfolding drop_database
drop_database-IsValid context n v = go (find_index database_name n context.databases) refl
  where
    go :
        (o : Option ℕ)
        → find_index database_name n context.databases ≡ o
        → IsValid (drop_database context n).0
    go none h = rw (drop_database, h) v
    go (some i) h =
        let (db, at, named, found) = find_index-some database_name n context.databases i h in
        rw (drop_database, h)
          (record {
            databases_unique =
                remove_at-UniqueNames database_name n context.databases i v.databases_unique h;
            tables_unique =
                All-remove_at (λ db. UniqueNames table_name db.tables) context.databases i
                  v.tables_unique;
            active =
                shorter context.databases i (inside context.databases i at) context.current_db_idx
                  v.active;
          })

set_active-IsValid :
    (context : SchemaContext) (n : Name)
    → IsValid context
    → IsValid (set_active_database context n).0
unfolding set_active_database
set_active-IsValid context n v = go (find_index database_name n context.databases) refl
  where
    go :
        (o : Option ℕ)
        → find_index database_name n context.databases ≡ o
        → IsValid (set_active_database context n).0
    go none h = rw (set_active_database, h) v
    go (some i) h =
        let (db, at, named, found) = find_index-some database_name n context.databases i h in
        rw (set_active_database, h)
          (record {
            databases_unique = v.databases_unique;
            tables_unique = v.tables_unique;
            active = inside context.databases i at;
          })

-- create_database, drop_database, set_active_database, create_table and drop_table keep the names unique and the active database
-- an existing one.
pub run-IsValid :
    (context : SchemaContext) (c : Command) → IsValid context → IsValid (run context c).0
unfolding create_table drop_table
run-IsValid context (create_db n) v = create_database-IsValid context n v
run-IsValid context (drop_db n) v = drop_database-IsValid context n v
run-IsValid context (set_active n) v = set_active-IsValid context n v
run-IsValid context (create_tbl d n cols) v =
    on_database-IsValid context d (λ db. add_table db n cols) (λ db. add_table-name db n cols)
      (λ db u. add_table-UniqueNames db n cols u) v
run-IsValid context (drop_tbl d n) v =
    on_database-IsValid context d (λ db. remove_table db n) (λ db. remove_table-name db n)
      (λ db u. remove_table-UniqueNames db n u) v
