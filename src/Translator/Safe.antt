-- ===== src/Translator/Safe.antt =====
-- Every text is translated without a wrong access, and a query that fails changes nothing.
use rediskrazy.Base.{
  Ends-elim_false, ◌>>=◌, ℕ, zero, suc, ◌+◌, ◌<◌, ◌≡◌, refl, ap, ◌∙◌, true, false, Option, none,
  some, List, [], ◌∷◌, arith, codes, Ends, ends, Ends-bind, Ends-if, Ends-option, Ends-some_first,
  length, ltb, get_elem?, set, Bool-cases, inl, inr, ◌==◌, bytes_eq,
}
use rediskrazy.Base.Int.{ℤ}
use rediskrazy.Schema.{
  Name, Column, Table, Database, SchemaContext, find_index, create_database, set_active_database,
  drop_database, drop_table, remove_table, on_database, add_table, database_name,
}
use rediskrazy.Schema.Named.{find_index-some}
use rediskrazy.Schema.OneDatabase.{IsValid, on_database-none, on_database-some}
use rediskrazy.Schema.Valid.{run-IsValid, create_db, drop_db, set_active, drop_tbl}
use rediskrazy.Parser.{SqlQuery}
use rediskrazy.Parser.Complete.{is_set, is_database}
use rediskrazy.Translator.{
  SqlResult, name_or_default, table_of, translate_select, find_primary, or_first, append_fields,
  insert_key, insert_row, translate_insert, translate_delete, translate_update, Reply, checked,
  is_zero, translate_create_db, translate_use, translate_list, drop_named, translate_drop, status,
}
use rediskrazy.Translator.Current.{active-Ends}

-- A result with an error has no command.
abbrev pub IsResult : SqlResult → Type 0
IsResult res = is_set res.error ≡ true → res.redis_cmd ≡ none

-- The schema stays valid; with an error it is the one from before, and there is no command.
pub record Kept (context : SchemaContext) (r : Reply) : Type 0 where
  pub valid : IsValid r.0
  pub failed : is_set r.1.error ≡ true → (r.0 ≡ context) × (r.1.redis_cmd ≡ none)

pub translate_select-IsResult :
    (db : Option Database) (q : SqlQuery) → IsResult (translate_select db q)
unfolding translate_select
translate_select-IsResult db q = ground arith

pub translate_delete-IsResult :
    (db : Option Database) (q : SqlQuery) → IsResult (translate_delete db q)
unfolding translate_delete
translate_delete-IsResult db q = ground arith

pub translate_update-IsResult :
    (db : Option Database) (q : SqlQuery) → IsResult (translate_update db q)
unfolding translate_update
translate_update-IsResult db q = ground arith

get-Ends : {A : Type 0} (l : List A) (i : ℕ) → i < length l → Ends (λ _. Unit {0}) (get_elem? l i)
get-Ends [] i h = absurd (omega arith)
get-Ends (x ∷ l) zero h = ends tt
get-Ends (x ∷ l) (suc i) h = get-Ends l i (omega arith)

-- The loop of INSERT reads columns and values that there are.
append_fields-Ends :
    (rounds i : ℕ) (cols : List Column) (vals : List (List ℕ)) (val_offset : ℕ) (cmd : List ℕ)
    → rounds + i ≡ length cols
    → Ends (λ _. Unit {0}) (append_fields rounds i cols vals val_offset cmd)
unfolding append_fields
append_fields-Ends zero i cols vals val_offset cmd h = ends tt
append_fields-Ends (suc rounds) i cols vals val_offset cmd h =
    Ends-elim_false (ltb (i + val_offset) (length vals))
      (λ y. Ends-bind (get-Ends cols i (omega arith)) λ c z.
        Ends-bind (get-Ends vals (i + val_offset) (ground arith))
          λ v z'. append_fields-Ends rounds (suc i) cols vals val_offset _ (omega arith))
      (λ n. ends tt)

insert_key-Ends : (t : Table) (vals : List (List ℕ)) → Ends (λ _. Unit {0}) (insert_key t vals)
unfolding insert_key
insert_key-Ends t vals =
    Ends-if (ltb (length t.columns) (length vals))
      (λ y. Ends-bind (get-Ends vals 0 (ground arith)) λ v z. ends tt)
      (λ n.
        Ends-if (ltb (length vals) (or_first (find_primary 0 none t.columns) + 1)) (λ y. ends tt)
          (λ n'. Ends-bind (get-Ends vals _ (ground arith)) λ v z. ends tt))

insert_row-Ends :
    (db_name table : Name) (t : Table) (vals : List (List ℕ))
    → Ends IsResult (insert_row db_name table t vals)
unfolding insert_row
insert_row-Ends db_name table t vals = Ends-bind (insert_key-Ends t vals) λ o z.
    Ends-option o (λ e. ends (λ h. refl))
      (λ k e.
        Ends-bind (append_fields-Ends (length t.columns) 0 t.columns vals k.1 _ (omega arith))
          λ cmd z. ends (λ h. cc))

pub translate_insert-Ends :
    (db : Option Database) (q : SqlQuery) → Ends IsResult (translate_insert db q)
unfolding translate_insert
translate_insert-Ends db q =
    Ends-if (length q.vals == 0) (λ y. ends (λ h. refl))
      (λ n.
        Ends-some_first q.table
          (λ e.
            Ends-option q.key (λ e. ends (λ h. refl))
              (λ key e. Ends-option q.val (λ e. ends (λ h. refl)) (λ val e. ends (λ h. cc))))
          (λ table e.
            Ends-some_first (table_of db table) (λ e. ends (λ h. refl))
              (λ t e. insert_row-Ends (name_or_default db) table t q.vals)))

set-Ends : (o : Option (List ℕ)) → is_set o ≡ true → Ends (λ _. Unit {0}) o
set-Ends none h = cc
set-Ends (some a) h = ends tt

-- The result of LIST.
pub translate_list-Ends :
    (context : SchemaContext) (q : SqlQuery)
    → IsValid context
    → is_set q.key ≡ true
    → Ends IsResult (translate_list context q)
unfolding translate_list
translate_list-Ends context q v h = Ends-bind (set-Ends q.key h) λ key z.
    Ends-if (bytes_eq key (codes "DATABASES")) (λ y. ends (λ h. cc))
      (λ n.
        Ends-bind (active-Ends context v)
          λ o z. Ends-option o (λ e. ends (λ h. refl)) (λ db e. ends (λ h. cc)))

-- The results that leave the schema alone.
pub same_schema :
    (context : SchemaContext) (res : SqlResult)
    → IsValid context
    → IsResult res
    → Kept context (context, res)
same_schema context res v f = record { valid = v; failed = λ h. (refl, f h) }

-- A call on the schema that changes nothing when its code is not 0.
checked-Kept :
    (context : SchemaContext) (r : SchemaContext × ℤ) (msg : List ℕ) (res : SqlResult)
    → IsValid r.0
    → (is_zero r.1 ≡ false → r.0 ≡ context)
    → res.error ≡ none
    → Kept context (checked r msg res)
checked-Kept context r msg res v f e = elim (Bool-cases (is_zero r.1)) [
  | inl y ↦ rw y (record { valid = v; failed = λ h. absurd (unset res.error e h) })
  | inr n ↦ rw n (record { valid = v; failed = λ h. (f n, refl) })
]
  where
    unset : (o : Option (List ℕ)) → o ≡ none → is_set o ≡ true → ⊥
    unset o e h = ground arith

create_database-failed :
    (context : SchemaContext) (n : Name)
    → is_zero (create_database context n).1 ≡ false
    → (create_database context n).0 ≡ context
unfolding create_database
create_database-failed context n h = ground arith

set_active-failed :
    (context : SchemaContext) (n : Name)
    → is_zero (set_active_database context n).1 ≡ false
    → (set_active_database context n).0 ≡ context
unfolding set_active_database
set_active-failed context n h = ground arith

drop_database-failed :
    (context : SchemaContext) (n : Name)
    → is_zero (drop_database context n).1 ≡ false
    → (drop_database context n).0 ≡ context
unfolding drop_database
drop_database-failed context n h = ground arith

set-same : (l : List Database) (i : ℕ) (db : Database) → get_elem? l i ≡ some db → set l i db ≡ l
set-same [] i db g = refl
set-same (x ∷ l) zero db g = ground arith
set-same (x ∷ l) (suc i) db g = ap (◌∷◌ x) (set-same l i db g)

pub on_database-failed :
    (context : SchemaContext) (n : Name) (f : Database → Database × ℤ)
    → ((db : Database) → is_zero (f db).1 ≡ false → (f db).0 ≡ db)
    → is_zero (on_database context n f).1 ≡ false
    → (on_database context n f).0 ≡ context
on_database-failed context n f k = go (find_index database_name n context.databases) refl
  where
    go :
        (o : Option ℕ)
        → find_index database_name n context.databases ≡ o
        → is_zero (on_database context n f).1 ≡ false
        → (on_database context n f).0 ≡ context
    go none e = rw (on_database-none context n f e) (λ h. refl)
    go (some i) e =
        let (db, at, named, found) = find_index-some database_name n context.databases i e in
        rw (on_database-some context n f i db e at) (λ h.
          ap (λ l. record context { databases = l })
            (ap (set context.databases i) (k db h) ∙ set-same context.databases i db at))

pub add_table-failed :
    (n : Name) (cols : List Column) (db : Database)
    → is_zero (add_table db n cols).1 ≡ false
    → (add_table db n cols).0 ≡ db
unfolding add_table
add_table-failed n cols db h = ground arith

remove_table-failed :
    (n : Name) (db : Database) → is_zero (remove_table db n).1 ≡ false → (remove_table db n).0 ≡ db
unfolding remove_table
remove_table-failed n db h = ground arith

pub translate_create_db-Kept :
    (context : SchemaContext) (q : SqlQuery)
    → IsValid context
    → Kept context (translate_create_db context q)
unfolding translate_create_db
translate_create_db-Kept context q v = on_key q.key
  where
    on_key :
        (key : Option Name) → Kept context (translate_create_db context (record q { key = key }))
    on_key none = same_schema context _ v (λ h. refl)
    on_key (some key) =
        checked-Kept context (create_database context key) _ _
          (run-IsValid context (create_db key) v) (create_database-failed context key) refl

pub translate_use-Kept :
    (context : SchemaContext) (q : SqlQuery)
    → IsValid context
    → Kept context (translate_use context q)
unfolding translate_use
translate_use-Kept context q v = on_key q.key
  where
    on_key : (key : Option Name) → Kept context (translate_use context (record q { key = key }))
    on_key none = same_schema context _ v (λ h. refl)
    on_key (some key) =
        checked-Kept context (set_active_database context key) _ _
          (run-IsValid context (set_active key) v) (set_active-failed context key) refl

pub translate_drop-Ends :
    (context : SchemaContext) (db : Option Database) (q : SqlQuery)
    → IsValid context
    → (is_database q.val ≡ true → is_set q.key ≡ true)
    → Ends (Kept context) (translate_drop context db q)
unfolding translate_drop
translate_drop-Ends context db q v k =
    Ends-option q.val (λ e. ends (same_schema context _ v (λ h. refl)))
      (λ val e.
        Ends-if (bytes_eq val (codes "DATABASE")) (λ y. named q.key (k (ap is_database e ∙ y)))
          (λ n.
            Ends-option q.table (λ e. ends (same_schema context _ v (λ h. refl)))
              (λ table e. ends (
                checked-Kept context (drop_table context (name_or_default db) table) _ _
                  (run-IsValid context (drop_tbl (name_or_default db) table) v)
                  (unfold drop_table in
                    on_database-failed context (name_or_default db) _ (remove_table-failed table))
                  refl))))
  where
    named :
        (key : Option Name)
        → is_set key ≡ true
        → Ends (Kept context) (
            drop_named context key >>= λ r. some (
              checked r
                (codes "Database does not exist")
                (status (codes "Database Dropped") (codes "PING"))))
    named none h = cc
    named (some key) h = ends (
        checked-Kept context (drop_database context key) _ _ (run-IsValid context (drop_db key) v)
          (drop_database-failed context key) refl)
