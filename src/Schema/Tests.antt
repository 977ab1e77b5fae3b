-- ===== src/Schema/Tests.antt =====
-- Runs of the schema manager, and its theorems at concrete inputs.
use rediskrazy.Base.{◌≡◌, refl, none, some, [], ◌∷◌, bytes_eq, arith}
use rediskrazy.Schema.{
  Name, SchemaContext, find_named, get_active_database, schema_free, drop_database,
}
use rediskrazy.Schema.Laws.{unless_named, drop_database-active}
use rediskrazy.Schema.OneDatabase.{IsValid}
use rediskrazy.Schema.Valid.{drop_db, run, run-IsValid}

abbrev shop : Name
shop = 115 ∷ []

abbrev log : Name
log = 108 ∷ []

abbrev items : Name
items = 105 ∷ []

-- The databases s, with a table i, and l, which is active.
abbrev two_databases : SchemaContext
two_databases = record {
  databases =
      record { name = shop; tables = record { name = items; columns = [] } ∷ [] }
      ∷ record { name = log; tables = [] }
      ∷ [];
  current_db_idx = some 1;
}

two_databases-IsValid : IsValid two_databases
unfolding find_named bytes_eq
two_databases-IsValid = record {
  databases_unique = (refl, (refl, tt));
  tables_unique = ((refl, tt), (tt, tt));
  active = omega arith;
}

-- After schema_free the active index still stands, and get_active_database reads the databases through it.
freed : get_active_database (schema_free two_databases) ≡ none
unfolding schema_free get_active_database
freed = refl

run-IsValid_example : IsValid (run two_databases (drop_db shop)).0
run-IsValid_example = run-IsValid two_databases (drop_db shop) two_databases-IsValid

drop_database-active_example :
    get_active_database (drop_database two_databases shop).0
    ≡ unless_named shop (get_active_database two_databases)
drop_database-active_example =
    drop_database-active two_databases shop (two_databases-IsValid.databases_unique)
