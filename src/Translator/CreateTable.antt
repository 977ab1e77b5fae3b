-- ===== src/Translator/CreateTable.antt =====
-- CREATE TABLE: the current database, or a new one named default, has the table afterwards.
use rediskrazy.Base.{
  ℕ, ◌≡◌, refl, sym, ap, ◌∙◌, Bool, true, false, Option, none, some, List, [], arith, codes, Ends,
  ends, Ends-if, Ends-option, bytes_eq_iff, length, subst,
}
use rediskrazy.Base.Int.{ℤ, negsuc}
use rediskrazy.Schema.{
  Name, Column, Table, Database, SchemaContext, find_index, find_named, create_database,
  create_table, on_database, add_table, get_table, get_database, database_name, table_name,
}
use rediskrazy.Schema.Named.{find_index-some, find_index-none}
use rediskrazy.Schema.Laws.{create_database_correct}
use rediskrazy.Schema.OneDatabase.{
  IsValid, IsIndex, add_table-name, get_table-add_table, on_database-none,
}
use rediskrazy.Schema.Valid.{run-IsValid, create_db, create_tbl}
use rediskrazy.Parser.{SqlQuery}
use rediskrazy.Parser.Complete.{is_set}
use rediskrazy.Translator.{
  make_error, current_database, name_or_default, Reply, is_zero, table_ok, create_in_default,
  translate_create_table, status, table_failed,
}
use rediskrazy.Translator.Stored.{stored_table, append_columns-stored}
use rediskrazy.Translator.Current.{
  current-default, current-active, current-on_database, on_database-named, on_database-idx,
  at_index,
}
use rediskrazy.Translator.Safe.{Kept, same_schema, add_table-failed, on_database-failed}

-- The table is in the current database, and the command stores it.
pub record Created (db_name table : Name) (cols : List Column) (r : Reply) : Type 0 where
  pub db : Database
  pub current : current_database r.0 ≡ some (some db)
  pub has_table : get_table db table ≡ some (record { name = table; columns = cols })
  pub stored : r.1 ≡ status (codes "Table Created") (stored_table db_name table cols)

table_ok-some :
    (context : SchemaContext) (db db' : Database) (table : Name) (t : Table)
    → current_database context ≡ some (some db')
    → get_table db' table ≡ some t
    → table_ok context (some db) table
      ≡ some (context, status (codes "Table Created") (stored_table db.name table t.columns))
unfolding table_ok
table_ok-some context db db' table t e g =
    rw (table_ok, e, g)
      (ap (λ c. some (context, status (codes "Table Created") c))
        (append_columns-stored db.name table t.columns))

table_ok-none :
    (context : SchemaContext) (db' : Database) (table : Name) (t : Table)
    → get_database context (codes "default") ≡ some db'
    → get_table db' table ≡ some t
    → table_ok context none table
      ≡ some
          (context, status (codes "Table Created") (stored_table (codes "default") table t.columns))
unfolding table_ok
table_ok-none context db' table t e g =
    rw (table_ok, e, g)
      (ap (λ c. some (context, status (codes "Table Created") c))
        (append_columns-stored (codes "default") table t.columns))

add_table-done :
    (db : Database) (table : Name) (cols : List Column)
    → is_zero (add_table db table cols).1 ≡ true
    → get_table (add_table db table cols).0 table ≡ some (record { name = table; columns = cols })
unfolding add_table get_table
add_table-done db table cols h = go (find_index table_name table db.tables) refl
  where
    go :
        (o : Option ℕ)
        → find_index table_name table db.tables ≡ o
        → get_table (add_table db table cols).0 table
          ≡ some (record { name = table; columns = cols })
    go none e =
        get_table-add_table db table table cols
        ∙ ground (arith, find_index-none table_name table db.tables e, bytes_eq_iff table table)
    go (some i) e = absurd (differ (add_table db table cols).1 (ground (arith, e)) h)
      where
        differ : (z : ℤ) → z ≡ negsuc 0 → is_zero z ≡ true → ⊥
        differ z p q = ground arith

-- What CREATE TABLE promises: an error and the schema from before, or the table of the query.
abbrev pub Creates : SchemaContext → Name → SqlQuery → Reply → Type 0
Creates context db_name q r =
    Kept context r
    × (is_set r.1.error ≡ false
        → (table : Name) × (q.table ≡ some table) × Created db_name table q.cols r)

created :
    (context context' : SchemaContext) (q : SqlQuery) (db_name table : Name) (db : Database)
    → IsValid context'
    → q.table ≡ some table
    → current_database context' ≡ some (some db)
    → get_table db table ≡ some (record { name = table; columns = q.cols })
    → Creates context db_name q
        (context', status (codes "Table Created") (stored_table db_name table q.cols))
created context context' q db_name table db v e c g = (
  record { valid = v; failed = λ h. cc },
  λ h. (table, e, record { db = db; current = c; has_table = g; stored = refl }),
)

refused :
    (context : SchemaContext) (q : SqlQuery) (db_name : Name) (msg : List ℕ)
    → IsValid context
    → Creates context db_name q (context, make_error msg)
refused context q db_name msg v = (same_schema context _ v (λ h. refl), λ h. cc)

-- CREATE TABLE in a database that there is.
create_in_current :
    (context : SchemaContext) (db : Database) (q : SqlQuery)
    → IsValid context
    → current_database context ≡ some (some db)
    → Ends (Creates context db.name q) (translate_create_table context (some db) q)
unfolding translate_create_table create_table
create_in_current context db q v h =
    Ends-option q.table (λ e. ends (refused context q db.name _ v))
      (λ table e.
        let f : Database → Database × ℤ = λ db. add_table db table q.cols in
        let (code, current) =
          current-on_database context f db (λ db. add_table-name db table q.cols) v h in
        let valid = run-IsValid context (create_tbl db.name table q.cols) v in
        Ends-if (is_zero (on_database context db.name f).1)
          (λ y.
            let done = add_table-done db table q.cols (ap is_zero (sym code) ∙ y) in
            subst (Ends (Creates context db.name q))
              (sym
                (table_ok-some (on_database context db.name f).0 db (f db).0 table _ current done))
              (ends (
                created context (on_database context db.name f).0 q db.name table (f db).0
                  (unfold create_table in valid) e current done)))
          (λ n.
            let same = on_database-failed context db.name f (add_table-failed table q.cols) n in
            subst (λ c. Ends (Creates context db.name q) (some (c, make_error table_failed)))
              (sym same) (ends (refused context q db.name _ v))))

abbrev default_name : Name
default_name = codes "default"

-- No current database: none is active, and none is named default.
no_current :
    (context : SchemaContext)
    → IsValid context
    → current_database context ≡ some none
    → (context.current_db_idx ≡ none) × (get_database context default_name ≡ none)
no_current context v h = go context.current_db_idx refl
  where
    inner : {a b : Option Database} → some a ≡ some b → a ≡ b
    inner e = cc

    differ : (o : Option (Option Database)) {db : Database} → o ≡ some none → o ≡ some (some db) → ⊥
    differ o p q = cc

    go :
        (o : Option ℕ)
        → context.current_db_idx ≡ o
        → (context.current_db_idx ≡ none) × (get_database context default_name ≡ none)
    go none e = (e, inner (sym (current-default context e) ∙ h))
    go (some c) e =
        let (db, g) =
          at_index context.databases c
            (subst (λ o. IsIndex o (length context.databases)) e v.active) in
        absurd (differ (current_database context) h (current-active context c db e g))

missing_index :
    (context : SchemaContext) (n : Name)
    → get_database context n ≡ none
    → find_index database_name n context.databases ≡ none
unfolding get_database
missing_index context n h = go (find_index database_name n context.databases) refl
  where
    go :
        (o : Option ℕ)
        → find_index database_name n context.databases ≡ o
        → find_index database_name n context.databases ≡ none
    go none e = e
    go (some i) e =
        let (db, at, named, found) = find_index-some database_name n context.databases i e in
        absurd (differ (find_named database_name n context.databases) h found)
      where
        differ : (o : Option Database) {db : Database} → o ≡ none → o ≡ some db → ⊥
        differ o p q = cc

create_database-idx :
    (context : SchemaContext) (n : Name)
    → (create_database context n).0.current_db_idx ≡ context.current_db_idx
unfolding create_database
create_database-idx context n = ground arith

new_table :
    (table : Name) (cols : List Column)
    → is_zero (add_table (record { name = default_name; tables = [] }) table cols).1 ≡ true
unfolding add_table find_index
new_table table cols = refl

create_in_default-Ends :
    (context : SchemaContext) (q : SqlQuery) (table : Name)
    → IsValid context
    → context.current_db_idx ≡ none
    → get_database context default_name ≡ none
    → q.table ≡ some table
    → Ends (Creates context default_name q) (create_in_default context table q.cols)
unfolding create_in_default create_table
create_in_default-Ends context q table v idx missing e =
    let context' = (create_database context default_name).0 in
    let db : Database = record { name = default_name; tables = [] } in
    let f : Database → Database × ℤ = λ db. add_table db table q.cols in
    let found : get_database context' default_name ≡ some db =
      (create_database_correct context default_name default_name).0
      ∙ ground (arith, missing, bytes_eq_iff default_name default_name) in
    let (code, after) =
      on_database-named context' default_name f db (λ db. add_table-name db table q.cols) found in
    let done = add_table-done db table q.cols (new_table table q.cols) in
    let valid =
      run-IsValid context' (create_tbl default_name table q.cols)
        (run-IsValid context (create_db default_name) v) in
    let current =
      current-default (on_database context' default_name f).0
        (on_database-idx context' default_name f ∙ create_database-idx context default_name ∙ idx)
      ∙ ap some after in
    Ends-if (is_zero (on_database context' default_name f).1)
      (λ y.
        subst (Ends (Creates context default_name q))
          (sym (table_ok-none (on_database context' default_name f).0 (f db).0 table _ after done))
          (ends (
            created context (on_database context' default_name f).0 q default_name table (f db).0
              (unfold create_table in valid) e current done)))
      (λ n. absurd (
        differ (is_zero (on_database context' default_name f).1) n
          (ap is_zero code ∙ new_table table q.cols)))
  where
    differ : (b : Bool) → b ≡ false → b ≡ true → ⊥
    differ b p q = cc

-- CREATE TABLE where there is no database.
create_in_new :
    (context : SchemaContext) (q : SqlQuery)
    → IsValid context
    → current_database context ≡ some none
    → Ends (Creates context default_name q) (translate_create_table context none q)
unfolding translate_create_table create_table
create_in_new context q v h =
    let (idx, missing) = no_current context v h in
    Ends-option q.table (λ e. ends (refused context q default_name _ v))
      (λ table e.
        let f : Database → Database × ℤ = λ db. add_table db table q.cols in
        let same =
          on_database-none context default_name f (missing_index context default_name missing) in
        Ends-if (is_zero (on_database context default_name f).1)
          (λ y. absurd (
            differ (is_zero (on_database context default_name f).1) y (ap (λ r. is_zero r.1) same)))
          (λ n.
            subst (λ c. Ends (Creates context default_name q) (create_in_default c table q.cols))
              (sym (ap (λ r. r.0) same)) (create_in_default-Ends context q table v idx missing e)))
  where
    differ : (b : Bool) → b ≡ true → b ≡ false → ⊥
    differ b p q = cc

-- CREATE TABLE in a valid schema returns: with an error it changes nothing; otherwise the current database has
-- the table with the columns of the query, and the command is the HSET of the text of these columns, each with its name, its
-- type and the mark of the primary key, with commas between them, under the names of the database and the table.
pub translate_create_table-Creates :
    (context : SchemaContext) (db : Option Database) (q : SqlQuery)
    → IsValid context
    → current_database context ≡ some db
    → Ends (Creates context (name_or_default db) q) (translate_create_table context db q)
translate_create_table-Creates context none q v h = create_in_new context q v h
translate_create_table-Creates context (some db) q v h = create_in_current context db q v h
