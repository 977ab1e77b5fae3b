-- ===== src/Schema/OneDatabase.antt =====
-- Calls on one database, and what keeps the schema valid.
use rediskrazy.Base.{
  ℕ, zero, suc, ◌-◌, ◌<◌, ◌≡◌, refl, sym, ◌∙◌, Option, none, some, List, [], ◌∷◌, ltb, ◌==◌,
  if◌then◌else◌, length, get_elem?, set, bytes_eq, bytes_eq_iff, arith, Bool-cases, All, inl, inr,
}
use rediskrazy.Base.Int.{ℤ, negsuc}
use rediskrazy.Schema.{
  Name, Column, Table, Database, SchemaContext, find_index, find_named, remove_at, database_name,
  table_name, get_database, add_table, on_database, remove_table, get_table,
}
use rediskrazy.Schema.Named.{
  UniqueNames, find_index-some, find_index-none, find_named-snoc, snoc-UniqueNames,
  find_named-remove_at, remove_at-UniqueNames, find_named-set, set-UniqueNames, length-remove_at,
}
use rediskrazy.Base.{dec_lt}
use rediskrazy.Base.{length-set, subst}

abbrev pub table_in : Name → Option Database → Option Table
table_in name none = none
table_in name (some db) = get_table db name

-- The table of this name in the database of that name.
abbrev pub lookup_table : SchemaContext → Name → Name → Option Table
lookup_table context db_name name = table_in name (get_database context db_name)

abbrev pub IsIndex : Option ℕ → ℕ → Type 0
IsIndex none n = Unit
IsIndex (some i) n = i < n

-- Names are unique, and the active database exists.
pub record IsValid (context : SchemaContext) : Type 0 where
  pub databases_unique : UniqueNames database_name context.databases
  pub tables_unique : All (λ db. UniqueNames table_name db.tables) context.databases
  pub active : IsIndex context.current_db_idx (length context.databases)

pub on_database-none :
    (context : SchemaContext) (n : Name) (f : Database → Database × ℤ)
    → find_index database_name n context.databases ≡ none
    → on_database context n f ≡ (context, negsuc 0)
unfolding on_database
on_database-none context n f h = rw (on_database, h) refl

pub on_database-some :
    (context : SchemaContext) (n : Name) (f : Database → Database × ℤ) (i : ℕ) (db : Database)
    → find_index database_name n context.databases ≡ some i
    → get_elem? context.databases i ≡ some db
    → on_database context n f
      ≡ (record context { databases = set context.databases i (f db).0 }, (f db).1)
unfolding on_database
on_database-some context n f i db h g = rw (on_database, h) (ground (arith, g))

abbrev pub map_database : (Database → Database × ℤ) → Option Database → Option Database
map_database f none = none
map_database f (some db) = some (f db).0

pub All-set :
    (P : Database → Type 0) (l : List Database) (i : ℕ) (x y : Database)
    → All P l
    → get_elem? l i ≡ some x
    → (P x → P y)
    → All P (set l i y)
All-set P [] i x y a g h = tt
All-set P (z ∷ l) zero x y a g h = let same : z ≡ x = ground arith in (h (subst P same a.0), a.1)
All-set P (z ∷ l) (suc i) x y a g h = (a.0, All-set P l i x y a.1 g h)

pub All-remove_at :
    (P : Database → Type 0) (l : List Database) (i : ℕ) → All P l → All P (remove_at i l)
unfolding remove_at
All-remove_at P [] i a = tt
All-remove_at P (z ∷ l) zero a = a.1
All-remove_at P (z ∷ l) (suc i) a = (a.0, All-remove_at P l i a.1)

module _ (context : SchemaContext) (n : Name) (f : Database → Database × ℤ)
    (same : (db : Database) → (f db).0.name ≡ db.name) where
  pub get_database-on_database :
      (m : Name)
      → get_database (on_database context n f).0 m
        ≡ (if bytes_eq n m then map_database f (get_database context m) else get_database context m)
  unfolding get_database
  get_database-on_database m = go (find_index database_name n context.databases) refl
    where
      go :
          (o : Option ℕ)
          → find_index database_name n context.databases ≡ o
          → get_database (on_database context n f).0 m ≡ (
              if bytes_eq n m
              then map_database f (get_database context m)
              else get_database context m)
      go none h =
          let missing = find_index-none database_name n context.databases h in
          rw (on_database-none context n f h) (ground (arith, missing, bytes_eq_iff n m))
      go (some i) h =
          let (db, at, named, found) = find_index-some database_name n context.databases i h in
          rw (on_database-some context n f i db h at) (
            find_named-set database_name n m context.databases i (f db).0 h (same db ∙ named)
            ∙ ground (arith, found, bytes_eq_iff n m))

  pub on_database-IsValid :
      ((db : Database) → UniqueNames table_name db.tables → UniqueNames table_name (f db).0.tables)
      → IsValid context
      → IsValid (on_database context n f).0
  on_database-IsValid keep v = go (find_index database_name n context.databases) refl
    where
      go :
          (o : Option ℕ)
          → find_index database_name n context.databases ≡ o
          → IsValid (on_database context n f).0
      go none h = rw (on_database-none context n f h) v
      go (some i) h =
          let (db, at, named, found) = find_index-some database_name n context.databases i h in
          rw (on_database-some context n f i db h at) (record {
            databases_unique =
                set-UniqueNames database_name n context.databases i (f db).0 v.databases_unique h
                  (same db ∙ named);
            tables_unique =
                All-set (λ db. UniqueNames table_name db.tables) context.databases i db (f db).0
                  v.tables_unique at (keep db);
            active =
                subst (IsIndex context.current_db_idx)
                  (sym (length-set context.databases i (f db).0)) v.active;
          })

pub All-found :
    (n : Name) (l : List Database) (db : Database)
    → All (λ db. UniqueNames table_name db.tables) l
    → find_named database_name n l ≡ some db
    → UniqueNames table_name db.tables
unfolding find_named
All-found n [] db a h = cc
All-found n (x ∷ l) db a h = elim (Bool-cases (bytes_eq x.name n)) [
  | inl y ↦
      let same : x ≡ db = ground arith in subst (λ z. UniqueNames table_name z.tables) same a.0
  | inr z ↦ All-found n l db a.1 (ground arith)
]

pub inside {ℓ} : {A : Type ℓ} (l : List A) (i : ℕ) {x : A} → get_elem? l i ≡ some x → i < length l
inside [] i h = cc
inside (x ∷ l) zero h = omega arith
inside (x ∷ l) (suc i) h = omega (arith, inside l i h)

pub shorter :
    (l : List Database) (i : ℕ)
    → i < length l
    → (c : Option ℕ) → IsIndex c (length l)
    → IsIndex
        (elim c [
          | none ↦ none
          | some c ↦ if c == i then none else if ltb i c then some (c - 1) else some c
        ])
        (length (remove_at i l))
shorter l i h none a = tt
shorter l i h (some c) a = go (dec_lt c i) (dec_lt i c)
  where
    go :
        Dec (c < i)
        → Dec (i < c)
        → IsIndex
            (if c == i then none else if ltb i c then some (c - 1) else some c)
            (length (remove_at i l))
    go (yes p) q =
        let index : (if c == i then none else if ltb i c then some (c - 1) else some c) ≡ some c =
          ground arith in
        rw index (omega (arith, length-remove_at l i h))
    go (no p) (yes q) =
        let index : (if c == i then none else if ltb i c then some (c - 1) else some c)
            ≡ some (c - 1) =
          ground arith in
        rw index (omega (arith, length-remove_at l i h))
    go (no p) (no q) =
        let index : (if c == i then none else if ltb i c then some (c - 1) else some c) ≡ none =
          ground arith in
        rw index tt

pub add_table-name :
    (db : Database) (n : Name) (cols : List Column) → (add_table db n cols).0.name ≡ db.name
unfolding add_table
add_table-name db n cols = ground arith

pub remove_table-name : (db : Database) (n : Name) → (remove_table db n).0.name ≡ db.name
unfolding remove_table
remove_table-name db n = ground arith

pub get_table-add_table :
    (db : Database) (n m : Name) (cols : List Column)
    → get_table (add_table db n cols).0 m ≡ elim (get_table db m) [
      | some t ↦ some t
      | none ↦ if bytes_eq n m then some (record { name = n; columns = cols }) else none
    ]
unfolding get_table add_table
get_table-add_table db n m cols = go (find_index table_name n db.tables) refl
  where
    go :
        (o : Option ℕ)
        → find_index table_name n db.tables ≡ o
        → get_table (add_table db n cols).0 m ≡ elim (get_table db m) [
          | some t ↦ some t
          | none ↦ if bytes_eq n m then some (record { name = n; columns = cols }) else none
        ]
    go none h =
        let missing = find_index-none table_name n db.tables h in
        rw (add_table, h)
          (ground (
            arith,
            find_named-snoc table_name m db.tables (record { name = n; columns = cols }) missing,
            missing,
            bytes_eq_iff n m,
          ))
    go (some i) h =
        let (t, at, named, found) = find_index-some table_name n db.tables i h in
        rw (add_table, h) (ground (arith, found, bytes_eq_iff n m))

pub get_table-remove_table :
    (db : Database) (n m : Name)
    → UniqueNames table_name db.tables
    → get_table (remove_table db n).0 m ≡ (if bytes_eq n m then none else get_table db m)
unfolding get_table remove_table
get_table-remove_table db n m u = go (find_index table_name n db.tables) refl
  where
    go :
        (o : Option ℕ)
        → find_index table_name n db.tables ≡ o
        → get_table (remove_table db n).0 m ≡ (if bytes_eq n m then none else get_table db m)
    go none h =
        let missing = find_index-none table_name n db.tables h in
        rw (remove_table, h) (ground (arith, missing, bytes_eq_iff n m))
    go (some i) h = rw (remove_table, h) (find_named-remove_at table_name n m db.tables i u h)

pub add_table-UniqueNames :
    (db : Database) (n : Name) (cols : List Column)
    → UniqueNames table_name db.tables
    → UniqueNames table_name (add_table db n cols).0.tables
unfolding add_table
add_table-UniqueNames db n cols u = go (find_index table_name n db.tables) refl
  where
    go :
        (o : Option ℕ)
        → find_index table_name n db.tables ≡ o
        → UniqueNames table_name (add_table db n cols).0.tables
    go none h =
        rw (add_table, h)
          (snoc-UniqueNames table_name db.tables (record { name = n; columns = cols }) u
            (find_index-none table_name n db.tables h))
    go (some i) h = rw (add_table, h) u

pub remove_table-UniqueNames :
    (db : Database) (n : Name)
    → UniqueNames table_name db.tables
    → UniqueNames table_name (remove_table db n).0.tables
unfolding remove_table
remove_table-UniqueNames db n u = go (find_index table_name n db.tables) refl
  where
    go :
        (o : Option ℕ)
        → find_index table_name n db.tables ≡ o
        → UniqueNames table_name (remove_table db n).0.tables
    go none h = rw (remove_table, h) u
    go (some i) h = rw (remove_table, h) (remove_at-UniqueNames table_name n db.tables i u h)
