-- ===== src/Translator/Insert.antt =====
-- INSERT: the loops over the columns against a definition by recursion on the two lists.
use rediskrazy.Base.{
  ◌>>=◌, ℕ, zero, suc, ◌+◌, ◌<◌, ◌≤◌, ◌≡◌, refl, sym, ap, ◌∙◌, true, Option, none, some, List, [],
  ◌∷◌, ◌++◌, arith, if◌then◌else◌, codes, length, get_elem?, drop, ltb, append_assoc, append-nil,
  dec_lt, dec_le,
}
use rediskrazy.Schema.{Name, Column, Table}
use rediskrazy.Translator.{
  SqlResult, make_error, status, row_key, is_zero, append_fields, find_primary, or_first,
  insert_key, insert_row,
}

-- " name value" for each column that has a value.
abbrev pub fields : List Column → List (List ℕ) → List ℕ
fields [] vals = []
fields (c ∷ cols) [] = []
fields (c ∷ cols) (v ∷ vals) = 32 ∷ (c.name ++ (32 ∷ (v ++ fields cols vals)))

drop-get :
    {A : Type 0} (l : List A) (i : ℕ)
    → i < length l
    → (x : A) × (get_elem? l i ≡ some x) × (drop i l ≡ x ∷ drop (suc i) l)
drop-get [] i h = absurd (omega arith)
drop-get (x ∷ l) zero h = (x, refl, refl)
drop-get (x ∷ l) (suc i) h = drop-get l i (omega arith)

drop-end : {A : Type 0} (l : List A) (i : ℕ) → length l ≤ i → drop i l ≡ []
drop-end [] zero h = refl
drop-end [] (suc i) h = refl
drop-end (x ∷ l) zero h = absurd (omega arith)
drop-end (x ∷ l) (suc i) h = drop-end l i (omega arith)

fields-end : (cols : List Column) → fields cols [] ≡ []
fields-end [] = refl
fields-end (c ∷ cols) = refl

append_fields-stop :
    (rounds i : ℕ) (cols : List Column) (vals : List (List ℕ)) (val_offset : ℕ) (cmd : List ℕ)
    → length vals ≤ i + val_offset
    → append_fields (suc rounds) i cols vals val_offset cmd ≡ some cmd
unfolding append_fields
append_fields-stop rounds i cols vals val_offset cmd h = ground arith

append_fields-step :
    (rounds i : ℕ) (cols : List Column) (vals : List (List ℕ)) (val_offset : ℕ) (cmd : List ℕ)
    (c : Column) (v : List ℕ)
    → i + val_offset < length vals
    → get_elem? cols i ≡ some c
    → get_elem? vals (i + val_offset) ≡ some v
    → append_fields (suc rounds) i cols vals val_offset cmd
      ≡ append_fields rounds (suc i) cols vals val_offset (cmd ++ (32 ∷ (c.name ++ (32 ∷ v))))
unfolding append_fields
append_fields-step rounds i cols vals val_offset cmd c v h g g' =
    let test : ltb (i + val_offset) (length vals) ≡ true = ground arith in
    rw (append_fields, test, g, g') refl

-- The loop over the columns appends the fields from its index on.
append_fields-fields :
    (rounds i : ℕ) (cols : List Column) (vals : List (List ℕ)) (val_offset : ℕ) (cmd : List ℕ)
    → rounds + i ≡ length cols
    → append_fields rounds i cols vals val_offset cmd
      ≡ some (cmd ++ fields (drop i cols) (drop (i + val_offset) vals))
append_fields-fields zero i cols vals val_offset cmd h =
    unfold append_fields in
    ap some (
      sym (append-nil cmd)
      ∙ ap (λ l. cmd ++ fields l (drop (i + val_offset) vals))
          (sym (drop-end cols i (omega arith))))
append_fields-fields (suc rounds) i cols vals val_offset cmd h =
    elim (dec_lt (i + val_offset) (length vals)) [
      | yes y ↦
          let (c, gc, dc) = drop-get cols i (omega arith) in
          let (v, gv, dv) = drop-get vals (i + val_offset) y in
          append_fields-step rounds i cols vals val_offset cmd c v y gc gv
          ∙ append_fields-fields rounds (suc i) cols vals val_offset _ (omega arith)
          ∙ ap
              (λ n.
                some (
                  (cmd ++ (32 ∷ (c.name ++ (32 ∷ v)))) ++ fields (drop (suc i) cols) (drop n vals)))
              {y = suc (i + val_offset)} (omega arith)
          ∙ ap some (
              append_assoc cmd (32 ∷ (c.name ++ (32 ∷ v))) _
              ∙ ap (λ l. cmd ++ (32 ∷ l)) (append_assoc c.name (32 ∷ v) _)
              ∙ ap (λ l. cmd ++ fields l (v ∷ drop (suc (i + val_offset)) vals)) (sym dc)
              ∙ ap (λ l. cmd ++ fields (drop i cols) l) (sym dv))
      | no n ↦
          append_fields-stop rounds i cols vals val_offset cmd (omega arith)
          ∙ ap some (
              sym (append-nil cmd)
              ∙ ap (λ l. cmd ++ l) (sym (fields-end (drop i cols)))
              ∙ ap (λ l. cmd ++ fields (drop i cols) l)
                  (sym (drop-end vals (i + val_offset) (omega arith))))
    ]

-- The index of the last primary key of a list of columns.
abbrev pub last_primary : List Column → Option ℕ
last_primary [] = none
last_primary (c ∷ cols) = elim (last_primary cols) [
  | some i ↦ some (suc i)
  | none ↦ if is_zero c.is_primary then none else some 0
]

abbrev later : ℕ → Option ℕ → Option ℕ → Option ℕ
later i pk_idx none = pk_idx
later i pk_idx (some k) = some (i + k)

find_primary-last :
    (i : ℕ) (pk_idx : Option ℕ) (cols : List Column)
    → find_primary i pk_idx cols ≡ later i pk_idx (last_primary cols)
unfolding find_primary
find_primary-last i pk_idx [] = refl
find_primary-last i pk_idx (c ∷ cols) =
    find_primary-last (suc i) (if is_zero c.is_primary then pk_idx else some i) cols
    ∙ go (last_primary cols)
  where
    go :
        (o : Option ℕ)
        → later (suc i) (if is_zero c.is_primary then pk_idx else some i) o
          ≡ later i pk_idx (elim o [
            | some i ↦ some (suc i)
            | none ↦ if is_zero c.is_primary then none else some 0
          ])
    go none = ground arith
    go (some k) = ground arith

-- An INSERT, by recursion on the lists: with more values than columns the first is the key and the rest are
-- the columns' values; else the key is the value of the last primary key, or of the first column.
abbrev pub insert_reference : Name → Name → Table → List (List ℕ) → SqlResult
insert_reference db_name table t vals =
    if ltb (length t.columns) (length vals)
    then status (codes "OK")
        (codes "HSET " ++ (row_key db_name table (head vals) ++ fields t.columns (drop 1 vals)))
    else elim (get_elem? vals (or_first (last_primary t.columns))) [
      | none ↦ make_error (codes "Primary key value missing")
      | some v ↦
          status (codes "OK") (codes "HSET " ++ (row_key db_name table v ++ fields t.columns vals))
    ]
  where
    head : List (List ℕ) → List ℕ
    head [] = []
    head (v ∷ l) = v

get-end : {A : Type 0} (l : List A) (i : ℕ) → length l ≤ i → get_elem? l i ≡ none
get-end [] i h = refl
get-end (x ∷ l) zero h = absurd (omega arith)
get-end (x ∷ l) (suc i) h = get-end l i (omega arith)

primary_index : (cols : List Column) → find_primary 0 none cols ≡ last_primary cols
primary_index cols = find_primary-last 0 none cols ∙ go (last_primary cols)
  where
    go : (o : Option ℕ) → later 0 none o ≡ o
    go none = refl
    go (some k) = ap some (omega arith)

insert_row-key :
    (db_name table : Name) (t : Table) (vals : List (List ℕ)) (v : List ℕ) (val_offset : ℕ)
    → insert_key t vals ≡ some (some (v, val_offset))
    → insert_row db_name table t vals
      ≡ some (
          status
            (codes "OK")
            (codes "HSET " ++ (row_key db_name table v ++ fields t.columns (drop val_offset vals))))
unfolding insert_row
insert_row-key db_name table t vals v val_offset h =
    rw (insert_row, h)
      (ap (λ o. o >>= λ cmd. some (status (codes "OK") cmd))
          (append_fields-fields (length t.columns) 0 t.columns vals val_offset
            (codes "HSET " ++ row_key db_name table v) (omega arith))
        ∙ ap
            (λ n. some (
              status (codes "OK")
                ((codes "HSET " ++ row_key db_name table v) ++ fields t.columns (drop n vals))))
            {y = val_offset} (omega arith)
        ∙ ap (λ l. some (status (codes "OK") l))
            (append_assoc (codes "HSET ") (row_key db_name table v) _))

insert_key-first :
    (t : Table) (v : List ℕ) (vals : List (List ℕ))
    → length t.columns ≤ length vals
    → insert_key t (v ∷ vals) ≡ some (some (v, 1))
unfolding insert_key
insert_key-first t v vals h = ground arith

insert_key-none :
    (t : Table) (vals : List (List ℕ))
    → length vals ≤ length t.columns
    → length vals ≤ or_first (last_primary t.columns)
    → insert_key t vals ≡ some none
unfolding insert_key
insert_key-none t vals h g = ground (arith, primary_index t.columns)

insert_key-primary :
    (t : Table) (vals : List (List ℕ)) (v : List ℕ)
    → length vals ≤ length t.columns
    → get_elem? vals (or_first (last_primary t.columns)) ≡ some v
    → or_first (last_primary t.columns) < length vals
    → insert_key t vals ≡ some (some (v, 0))
unfolding insert_key
insert_key-primary t vals v h g i = ground (arith, primary_index t.columns)

insert_row-none :
    (db_name table : Name) (t : Table) (vals : List (List ℕ))
    → insert_key t vals ≡ some none
    → insert_row db_name table t vals ≡ some (make_error (codes "Primary key value missing"))
unfolding insert_row
insert_row-none db_name table t vals h = rw (insert_row, h) refl

reference-first :
    (db_name table : Name) (t : Table) (v : List ℕ) (vals : List (List ℕ))
    → length t.columns ≤ length vals
    → insert_reference db_name table t (v ∷ vals)
      ≡ status (codes "OK") (codes "HSET " ++ (row_key db_name table v ++ fields t.columns vals))
reference-first db_name table t v vals h = ground arith

reference-columns :
    (db_name table : Name) (t : Table) (vals : List (List ℕ)) (o : Option (List ℕ))
    → length vals ≤ length t.columns
    → get_elem? vals (or_first (last_primary t.columns)) ≡ o
    → insert_reference db_name table t vals ≡ elim o [
      | none ↦ make_error (codes "Primary key value missing")
      | some v ↦
          status (codes "OK") (codes "HSET " ++ (row_key db_name table v ++ fields t.columns vals))
    ]
reference-columns db_name table t vals o h g = ground (arith, g)

-- INSERT into a table, with its two loops over indices, is the INSERT by recursion on the lists; no access is
-- outside of the values or the columns.
pub insert_row-reference :
    (db_name table : Name) (t : Table) (vals : List (List ℕ))
    → insert_row db_name table t vals ≡ some (insert_reference db_name table t vals)
insert_row-reference db_name table t vals = elim (dec_le (length vals) (length t.columns)) [
  | yes y ↦ elim (dec_lt (or_first (last_primary t.columns)) (length vals)) [
    | yes z ↦
        let (v, g, _) = drop-get vals (or_first (last_primary t.columns)) z in
        insert_row-key db_name table t vals v 0 (insert_key-primary t vals v y g z)
        ∙ ap some (sym (reference-columns db_name table t vals (some v) y g))
    | no z ↦
        insert_row-none db_name table t vals (insert_key-none t vals y (omega arith))
        ∙ ap some (
            sym (
              reference-columns db_name table t vals none y
                (get-end vals (or_first (last_primary t.columns)) (omega arith))))
  ]
  | no n ↦ more vals n
]
  where
    more :
        (vals : List (List ℕ))
        → ¬ (length vals ≤ length t.columns)
        → insert_row db_name table t vals ≡ some (insert_reference db_name table t vals)
    more [] n = absurd (omega arith)
    more (v ∷ vals) n =
        insert_row-key db_name table t (v ∷ vals) v 1 (insert_key-first t v vals (omega arith))
        ∙ ap some (sym (reference-first db_name table t v vals (omega arith)))
