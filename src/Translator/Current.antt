-- ===== src/Translator/Current.antt =====
-- The database that a query is about, and calls on it.
use rediskrazy.Base.{
  ℕ, zero, suc, ◌≡◌, refl, sym, ap, ◌∙◌, Option, none, some, List, [], ◌∷◌, get_elem?, set,
  bytes_eq_iff, arith, codes, Ends, ends, Ends-option, length, ◌<◌, subst,
}
use rediskrazy.Base.Int.{ℤ}
use rediskrazy.Schema.{
  Name, Database, SchemaContext, find_index, find_named, database_name, get_active_database,
  get_database, on_database,
}
use rediskrazy.Schema.Named.{
  UniqueNames, find_index-some, find_index-none, find_named-get, find_named-name,
}
use rediskrazy.Schema.OneDatabase.{IsValid, IsIndex, on_database-some, get_database-on_database}
use rediskrazy.Translator.{current_database}

find_index-at :
    (l : List Database) (c : ℕ) (db : Database)
    → UniqueNames database_name l
    → get_elem? l c ≡ some db
    → find_index database_name db.name l ≡ some c
unfolding find_index
find_index-at [] c db u g = cc
find_index-at (x ∷ l) zero db u g =
    let same : x.name ≡ db.name = ground arith in ground (arith, same, bytes_eq_iff x.name db.name)
find_index-at (x ∷ l) (suc c) db u g = ground (
  arith,
  find_index-at l c db u.1 g,
  find_named-get database_name x.name l c db g u.0,
  bytes_eq_iff db.name x.name,
  bytes_eq_iff x.name db.name,
)

get_elem?-set :
    (l : List Database) (i : ℕ) (x y : Database)
    → get_elem? l i ≡ some x
    → get_elem? (set l i y) i ≡ some y
get_elem?-set [] i x y g = cc
get_elem?-set (z ∷ l) zero x y g = refl
get_elem?-set (z ∷ l) (suc i) x y g = get_elem?-set l i x y g

-- A call on the database of a name, where there is one.
pub on_database-named :
    (context : SchemaContext) (n : Name) (f : Database → Database × ℤ) (db : Database)
    → ((db : Database) → (f db).0.name ≡ db.name)
    → get_database context n ≡ some db
    → ((on_database context n f).1 ≡ (f db).1)
      × (get_database (on_database context n f).0 n ≡ some (f db).0)
unfolding get_database
on_database-named context n f db same h = (
  go (find_index database_name n context.databases) refl,
  get_database-on_database context n f same n ∙ ground (arith, h, bytes_eq_iff n n),
)
  where
    go :
        (o : Option ℕ)
        → find_index database_name n context.databases ≡ o
        → (on_database context n f).1 ≡ (f db).1
    go none e =
        let missing = find_index-none database_name n context.databases e in
        absurd (differ (find_named database_name n context.databases) missing h)
      where
        differ : (o : Option Database) → o ≡ none → o ≡ some db → ⊥
        differ o p q = cc
    go (some i) e =
        let (x, at, named, found) = find_index-some database_name n context.databases i e in
        let here : x ≡ db = ground (arith, found, h) in
        rw (on_database-some context n f i x e at) (ap (λ y. (f y).1) here)

pub current-default :
    (context : SchemaContext)
    → context.current_db_idx ≡ none
    → current_database context ≡ some (get_database context (codes "default"))
unfolding current_database get_active_database get_database
current-default context h = rw (current_database, get_active_database, h) refl

pub current-active :
    (context : SchemaContext) (c : ℕ) (db : Database)
    → context.current_db_idx ≡ some c
    → get_elem? context.databases c ≡ some db
    → current_database context ≡ some (some db)
unfolding current_database get_active_database get_database
current-active context c db h g = rw (current_database, get_active_database, h, g) refl

-- The element that an index leads to.
pub at_index :
    (l : List Database) (i : ℕ) → i < length l → (db : Database) × (get_elem? l i ≡ some db)
at_index [] i h = absurd (omega arith)
at_index (x ∷ l) zero h = (x, refl)
at_index (x ∷ l) (suc i) h = at_index l i (omega arith)

-- Where the schema is valid, the current database is one, or is absent.
pub current-Ends :
    (context : SchemaContext) → IsValid context → Ends (λ _. Unit {0}) (current_database context)
current-Ends context v = go context.current_db_idx refl
  where
    go :
        (o : Option ℕ)
        → context.current_db_idx ≡ o
        → Ends (λ _. Unit {0}) (current_database context)
    go none h = rw (current-default context h) (ends tt)
    go (some c) h =
        let (db, g) =
          at_index context.databases c
            (subst (λ o. IsIndex o (length context.databases)) h v.active) in
        rw (current-active context c db h g) (ends tt)

-- Where the schema is valid, the active database is one, or is absent.
pub active-Ends :
    (context : SchemaContext) → IsValid context → Ends (λ _. Unit {0}) (get_active_database context)
unfolding get_active_database
active-Ends context v =
    Ends-option context.current_db_idx (λ e. ends tt)
      (λ c e.
        let (db, g) =
          at_index context.databases c
            (subst (λ o. IsIndex o (length context.databases)) e v.active) in
        Ends-option (get_elem? context.databases c)
          (λ n. absurd (differ (get_elem? context.databases c) n g)) (λ db e. ends tt))
  where
    differ : (o : Option Database) {db : Database} → o ≡ none → o ≡ some db → ⊥
    differ o p q = cc

pub on_database-idx :
    (context : SchemaContext) (n : Name) (f : Database → Database × ℤ)
    → (on_database context n f).0.current_db_idx ≡ context.current_db_idx
unfolding on_database
on_database-idx context n f = ground arith

-- A call on the current database changes it, and it stays the current one.
pub current-on_database :
    (context : SchemaContext) (f : Database → Database × ℤ) (db : Database)
    → ((db : Database) → (f db).0.name ≡ db.name)
    → IsValid context
    → current_database context ≡ some (some db)
    → ((on_database context db.name f).1 ≡ (f db).1)
      × (current_database (on_database context db.name f).0 ≡ some (some (f db).0))
current-on_database context f db same v h = go context.current_db_idx refl
  where
    go :
        (o : Option ℕ)
        → context.current_db_idx ≡ o
        → ((on_database context db.name f).1 ≡ (f db).1)
          × (current_database (on_database context db.name f).0 ≡ some (some (f db).0))
    go none e =
        let found : get_database context (codes "default") ≡ some db =
          inner (sym (current-default context e) ∙ h) in
        let named : db.name ≡ codes "default" =
          find_named-name database_name (codes "default") context.databases db
            (unfold get_database in found) in
        let (code, after) =
          on_database-named context db.name f db same (ap (get_database context) named ∙ found) in
        (
          code,
          current-default (on_database context db.name f).0 (on_database-idx context db.name f ∙ e)
              ∙ ap some (ap (get_database (on_database context db.name f).0) (sym named) ∙ after),
        )
      where
        inner : {a b : Option Database} → some a ≡ some b → a ≡ b
        inner e = cc
    go (some c) e =
        let (x, g) =
          at_index context.databases c
            (subst (λ o. IsIndex o (length context.databases)) e v.active) in
        let here : x ≡ db = inner2 (sym (current-active context c x e g) ∙ h) in
        let at : get_elem? context.databases c ≡ some db = g ∙ ap some here in
        let found = find_index-at context.databases c db v.databases_unique at in
        rw (on_database-some context db.name f c db found at) (
          refl,
          current-active (record context { databases = set context.databases c (f db).0 }) c
              (f db).0 e (get_elem?-set context.databases c db (f db).0 at),
        )
      where
        inner2 : {a b : Database} → some (some a) ≡ some (some b) → a ≡ b
        inner2 e = cc
