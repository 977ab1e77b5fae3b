-- ===== src/Schema/Laws.antt =====
-- What the calls of the schema manager do to the databases and tables that a caller can find.
use rediskrazy.Base.{
  ℕ, ◌-◌, ◌<◌, ◌≡◌, refl, sym, ap, ◌∙◌, Bool, true, false, Option, none, some, List, [], ltb, ◌==◌,
  if◌then◌else◌, get_elem?, bytes_eq, bytes_eq_iff, arith,
}
use rediskrazy.Base.Int.{pos, negsuc}
use rediskrazy.Schema.{
  Name, Database, SchemaContext, find_index, find_named, remove_at, database_name,
  get_active_database, get_database, create_database, drop_database,
}
use rediskrazy.Schema.Named.{
  UniqueNames, find_index-some, find_index-none, find_named-snoc, find_named-remove_at,
  get_elem?-remove_before, get_elem?-remove_behind, find_named-get, find_index_unique,
}
use rediskrazy.Base.{dec_lt}

abbrev pub is_some : {A : Type 0} → Option A → Bool
is_some none = false
is_some (some a) = true

-- create_database adds an empty database, unless there is one of the name: then it returns -1 and changes nothing.
pub create_database_correct :
    (context : SchemaContext) (name other : Name)
    → (get_database (create_database context name).0 other ≡ elim (get_database context other) [
      | some db ↦ some db
      | none ↦ if bytes_eq name other then some (record { name = name; tables = [] }) else none
    ])
      × ((create_database context name).1
          ≡ (if is_some (get_database context name) then negsuc 0 else pos 0))
unfolding get_database create_database
create_database_correct context name other =
    go (find_index database_name name context.databases) refl
  where
    go :
        (o : Option ℕ)
        → find_index database_name name context.databases ≡ o
        → (get_database (create_database context name).0 other ≡ elim (get_database context other) [
          | some db ↦ some db
          | none ↦ if bytes_eq name other then some (record { name = name; tables = [] }) else none
        ])
          × ((create_database context name).1
              ≡ (if is_some (get_database context name) then negsuc 0 else pos 0))
    go none h =
        let missing = find_index-none database_name name context.databases h in
        let added =
          find_named-snoc database_name other context.databases
            (record { name = name; tables = [] }) missing in
        rw (create_database, h)
          (ground (arith, added, bytes_eq_iff name other, missing), ground (arith, missing))
    go (some i) h =
        let (db, at, named, found) = find_index-some database_name name context.databases i h in
        rw (create_database, h)
          (ground (arith, found, bytes_eq_iff name other), ground (arith, found))

-- drop_database removes the database of the name, and returns -1 if there is none.
pub drop_database_correct :
    (context : SchemaContext) (name other : Name)
    → UniqueNames database_name context.databases
    → (get_database (drop_database context name).0 other
        ≡ (if bytes_eq name other then none else get_database context other))
      × ((drop_database context name).1
          ≡ (if is_some (get_database context name) then pos 0 else negsuc 0))
unfolding get_database drop_database
drop_database_correct context name other u =
    go (find_index database_name name context.databases) refl
  where
    go :
        (o : Option ℕ)
        → find_index database_name name context.databases ≡ o
        → (get_database (drop_database context name).0 other
            ≡ (if bytes_eq name other then none else get_database context other))
          × ((drop_database context name).1
              ≡ (if is_some (get_database context name) then pos 0 else negsuc 0))
    go none h =
        let missing = find_index-none database_name name context.databases h in
        rw (drop_database, h)
          (ground (arith, missing, bytes_eq_iff name other), ground (arith, missing))
    go (some i) h =
        let (db, at, named, found) = find_index-some database_name name context.databases i h in
        rw (drop_database, h)
          (
            find_named-remove_at database_name name other context.databases i u h,
            ground (arith, found),
          )

abbrev seen : Option Database → Option (Option Database)
seen none = none
seen (some db) = some (some db)

abbrev active_in : List Database → Option ℕ → Option (Option Database)
active_in l none = some none
active_in l (some c) = seen (get_elem? l c)

abbrev pub unless_named : Name → Option (Option Database) → Option (Option Database)
unless_named name none = none
unless_named name (some none) = some none
unless_named name (some (some db)) = if bytes_eq db.name name then some none else some (some db)

active-get :
    (context : SchemaContext)
    → get_active_database context ≡ active_in context.databases context.current_db_idx
unfolding get_active_database
active-get context = ground arith

abbrev moved_idx : ℕ → Option ℕ → Option ℕ
moved_idx i none = none
moved_idx i (some c) = if c == i then none else if ltb i c then some (c - 1) else some c

moved_idx-lt : (i c : ℕ) → c < i → moved_idx i (some c) ≡ some c
moved_idx-lt i c h = ground arith

moved_idx-gt : (i c : ℕ) → i < c → moved_idx i (some c) ≡ some (c - 1)
moved_idx-gt i c h = ground arith

moved_idx-eq : (i c : ℕ) → c ≡ i → moved_idx i (some c) ≡ none
moved_idx-eq i c h = ground arith

removed_behind :
    (l : List Database) (i c : ℕ) → i < c → get_elem? (remove_at i l) (c - 1) ≡ get_elem? l c
removed_behind l i c h =
    get_elem?-remove_behind l i (c - 1) (omega arith) ∙ ap (get_elem? l) (omega arith)

kept :
    (name : Name) (db : Database)
    → bytes_eq db.name name ≡ false
    → unless_named name (some (some db)) ≡ some (some db)
kept name db h = ground arith

lost :
    (name : Name) (db : Database)
    → bytes_eq db.name name ≡ true
    → unless_named name (some (some db)) ≡ some none
lost name db h = ground arith

active-moved :
    (l : List Database) (name : Name) (i : ℕ) (c : Option ℕ)
    → UniqueNames database_name l
    → find_index database_name name l ≡ some i
    → active_in (remove_at i l) (moved_idx i c) ≡ unless_named name (active_in l c)
active-moved l name i none u h = refl
active-moved l name i (some c) u h = go (get_elem? l c) refl
  where
    go :
        (o : Option Database)
        → get_elem? l c ≡ o
        → active_in (remove_at i l) (moved_idx i (some c))
          ≡ unless_named name (active_in l (some c))
    go none g = elim (dec_lt c i) [
      | yes p ↦
          ap (active_in (remove_at i l)) (moved_idx-lt i c p)
          ∙ ap seen (get_elem?-remove_before l i c p ∙ g)
          ∙ sym (ap (λ o. unless_named name (seen o)) g)
      | no p ↦ elim (dec_lt i c) [
        | yes q ↦
            ap (active_in (remove_at i l)) (moved_idx-gt i c q)
            ∙ ap seen (removed_behind l i c q ∙ g)
            ∙ sym (ap (λ o. unless_named name (seen o)) g)
        | no q ↦
            let same : c ≡ i = omega arith in
            absurd (
              differ (get_elem? l c) g
                (ap (get_elem? l) same ∙ (find_index-some database_name name l i h).1))
      ]
    ]
      where
        differ : (o : Option Database) {x : Database} → o ≡ none → o ≡ some x → ⊥
        differ o p q = cc
    go (some db) g =
        let only = find_index_unique database_name name l i c db u h g in
        elim (dec_lt c i) [
          | yes p ↦
              let other : bytes_eq db.name name ≡ false = only ∙ ground arith in
              ap (active_in (remove_at i l)) (moved_idx-lt i c p)
              ∙ ap seen (get_elem?-remove_before l i c p ∙ g)
              ∙ sym (kept name db other)
              ∙ sym (ap (λ o. unless_named name (seen o)) g)
          | no p ↦ elim (dec_lt i c) [
            | yes q ↦
                let other : bytes_eq db.name name ≡ false = only ∙ ground arith in
                ap (active_in (remove_at i l)) (moved_idx-gt i c q)
                ∙ ap seen (removed_behind l i c q ∙ g)
                ∙ sym (kept name db other)
                ∙ sym (ap (λ o. unless_named name (seen o)) g)
            | no q ↦
                let same : c ≡ i = omega arith in
                let here : bytes_eq db.name name ≡ true = only ∙ ground arith in
                ap (active_in (remove_at i l)) (moved_idx-eq i c same)
                ∙ sym (lost name db here)
                ∙ sym (ap (λ o. unless_named name (seen o)) g)
          ]
        ]

active-missing :
    (l : List Database) (name : Name) (c : Option ℕ)
    → find_named database_name name l ≡ none
    → unless_named name (active_in l c) ≡ active_in l c
active-missing l name none h = refl
active-missing l name (some c) h = go (get_elem? l c) refl
  where
    go :
        (o : Option Database)
        → get_elem? l c ≡ o
        → unless_named name (active_in l (some c)) ≡ active_in l (some c)
    go none g = ap (λ o. unless_named name (seen o)) g ∙ sym (ap seen g)
    go (some db) g =
        ap (λ o. unless_named name (seen o)) g
        ∙ kept name db (find_named-get database_name name l c db g h)
        ∙ sym (ap seen g)

dropped-none :
    (context : SchemaContext) (name : Name)
    → find_index database_name name context.databases ≡ none
    → drop_database context name ≡ (context, negsuc 0)
unfolding drop_database
dropped-none context name h = rw (drop_database, h) refl

dropped-some :
    (context : SchemaContext) (name : Name) (i : ℕ)
    → find_index database_name name context.databases ≡ some i
    → drop_database context name ≡ (
      record {
        databases = remove_at i context.databases;
        current_db_idx = moved_idx i context.current_db_idx;
      },
      pos 0,
    )
unfolding drop_database
dropped-some context name i h = rw (drop_database, h) (ground arith)

-- Where the names of the databases differ, drop_database leaves the database active that was active before, and none where that is
-- the one of the name.
pub drop_database-active :
    (context : SchemaContext) (name : Name)
    → UniqueNames database_name context.databases
    → get_active_database (drop_database context name).0
      ≡ unless_named name (get_active_database context)
drop_database-active context name u =
    active-get (drop_database context name).0
    ∙ go (find_index database_name name context.databases) refl
    ∙ ap (unless_named name) (sym (active-get context))
  where
    go :
        (o : Option ℕ)
        → find_index database_name name context.databases ≡ o
        → active_in
            (drop_database context name).0.databases
            (drop_database context name).0.current_db_idx
          ≡ unless_named name (active_in context.databases context.current_db_idx)
    go none h = rw (dropped-none context name h) (
        sym (
          active-missing context.databases name context.current_db_idx
            (find_index-none database_name name context.databases h)))
    go (some i) h =
        rw (dropped-some context name i h)
          (active-moved context.databases name i context.current_db_idx u h)
