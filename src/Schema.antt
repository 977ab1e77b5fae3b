-- ===== src/Schema.antt =====
-- query_processor/schema_manager.h and schema_manager.c: the databases, their tables, the active one.
-- A char * is the list of its bytes, without the 0 at its end; the counts num_databases, num_tables and
-- num_columns are the lengths of the lists. A Database * or Table * is the value that it points to.
-- realloc, malloc and strdup are taken to succeed.
pub mod Named
pub mod Laws
pub mod OneDatabase
pub mod Tables
pub mod Valid
pub mod Tests
use rediskrazy.Base.{
  ℕ, zero, suc, ◌+◌, ◌-◌, Bool, true, false, Option, none, some, List, [], ◌∷◌, ◌++◌, ltb, ◌==◌,
  if◌then◌else◌, get_elem?, set, bytes_eq,
}
use rediskrazy.Base.Int.{ℤ, pos, negsuc}

abbrev pub Name : Type 0
Name = List ℕ

pub data DataType : Type 0 where
  type_string type_int : DataType

pub record Column : Type 0 where
  pub name : Name
  pub type : DataType
  pub not_null : ℤ
  pub is_primary : ℤ

pub record Table : Type 0 where
  pub name : Name
  pub columns : List Column

pub record Database : Type 0 where
  pub name : Name
  pub tables : List Table

-- `current_db_idx` is `none` for -1.
pub record SchemaContext : Type 0 where
  pub databases : List Database
  pub current_db_idx : Option ℕ

module _ {A : Type 0} (name_of : A → Name) where
  -- The index of the first element with the name.
  unfoldable pub find_index : Name → List A → Option ℕ
  find_index name [] = none
  find_index name (x ∷ l) =
      if bytes_eq (name_of x) name
      then some 0
      else elim (find_index name l) [ none ↦ none | some i ↦ some (suc i) ]

  -- The first element with the name.
  unfoldable pub find_named : Name → List A → Option A
  find_named name [] = none
  find_named name (x ∷ l) = if bytes_eq (name_of x) name then some x else find_named name l

-- The elements behind the index moved one place to the front, and the count one less.
unfoldable pub remove_at : {A : Type 0} → ℕ → List A → List A
remove_at i [] = []
remove_at zero (x ∷ l) = l
remove_at (suc i) (x ∷ l) = x ∷ remove_at i l

pub schema_init : SchemaContext
schema_init = record { databases = []; current_db_idx = none }

abbrev pub database_name : Database → Name
database_name db = db.name

abbrev pub table_name : Table → Name
table_name t = t.name

unfoldable pub set_active_database : SchemaContext → Name → SchemaContext × ℤ
set_active_database context name = elim (find_index database_name name context.databases) [
  | some i ↦ (record context { current_db_idx = some i }, pos 0)
  | none ↦ (context, negsuc 0)
]

-- `none` is a read outside of the databases.
unfoldable pub get_active_database : SchemaContext → Option (Option Database)
get_active_database context = elim (context.current_db_idx) [
  | none ↦ some none
  | some i ↦ elim (get_elem? context.databases i) [ none ↦ none | some db ↦ some (some db) ]
]

unfoldable pub get_database : SchemaContext → Name → Option Database
get_database context name = find_named database_name name context.databases

unfoldable pub create_database : SchemaContext → Name → SchemaContext × ℤ
create_database context name = elim (find_index database_name name context.databases) [
  | some _ ↦ (context, negsuc 0)
  | none ↦ (
    record context { databases = context.databases ++ (record { name = name; tables = [] } ∷ []) },
    pos 0,
  )
]

unfoldable pub add_table : Database → Name → List Column → Database × ℤ
add_table db name cols = elim (find_index table_name name db.tables) [
  | some _ ↦ (db, negsuc 0)
  | none ↦
      (record db { tables = db.tables ++ (record { name = name; columns = cols } ∷ []) }, pos 0)
]

-- A call on the database with the name, or -1.
unfoldable pub on_database : SchemaContext → Name → (Database → Database × ℤ) → SchemaContext × ℤ
on_database context db_name f = elim (find_index database_name db_name context.databases) [
  | none ↦ (context, negsuc 0)
  | some i ↦ elim (get_elem? context.databases i) [
    | none ↦ (context, negsuc 0)
    | some db ↦ (record context { databases = set context.databases i (f db).0 }, (f db).1)
  ]
]

unfoldable pub create_table : SchemaContext → Name → Name → List Column → SchemaContext × ℤ
create_table context db_name name cols = on_database context db_name (λ db. add_table db name cols)

unfoldable pub drop_database : SchemaContext → Name → SchemaContext × ℤ
drop_database context name = elim (find_index database_name name context.databases) [
  | none ↦ (context, negsuc 0)
  | some i ↦ (
    record {
      databases = remove_at i context.databases;
      current_db_idx = elim (context.current_db_idx) [
        | none ↦ none
        | some c ↦ if c == i then none else if ltb i c then some (c - 1) else some c
      ];
    },
    pos 0,
  )
]

unfoldable pub remove_table : Database → Name → Database × ℤ
remove_table db name = elim (find_index table_name name db.tables) [
  | none ↦ (db, negsuc 0)
  | some i ↦ (record db { tables = remove_at i db.tables }, pos 0)
]

unfoldable pub drop_table : SchemaContext → Name → Name → SchemaContext × ℤ
drop_table context db_name name = on_database context db_name (λ db. remove_table db name)

unfoldable pub get_table : Database → Name → Option Table
get_table db name = find_named table_name name db.tables

abbrev pub names : {A : Type 0} → (A → Name) → List A → List Name
names f [] = []
names f (x ∷ l) = f x ∷ names f l

unfoldable pub list_databases : SchemaContext → List Name
list_databases context = names database_name context.databases

unfoldable pub list_tables : SchemaContext → Name → List Name
list_tables context db_name = elim (get_database context db_name) [
  | none ↦ []
  | some db ↦ names table_name db.tables
]

unfoldable pub schema_free : SchemaContext → SchemaContext
schema_free context = record context { databases = [] }
