-- ===== src/Translator/Stored.antt =====
-- The text under which CREATE TABLE stores the columns of a table.
use rediskrazy.Base.{
  ℕ, zero, suc, ◌≡◌, refl, sym, ap, ◌∙◌, true, false, List, [], ◌∷◌, ◌++◌, ltb, ◌==◌, if◌then◌else◌,
  append-nil, append_assoc, arith, codes,
}
use rediskrazy.Base.Int.{ℤ, pos, negsuc}
use rediskrazy.Schema.{Name, DataType, type_string, type_int, Column}
use rediskrazy.Translator.{is_zero, column_text, type_name, append_columns}

abbrev pub stored_type : DataType → List ℕ
stored_type type_int = codes ":INT"
stored_type type_string = codes ":STRING"

abbrev pub stored_mark : ℤ → List ℕ
stored_mark (pos zero) = []
stored_mark (pos (suc n)) = codes ":PK"
stored_mark (negsuc n) = codes ":PK"

-- The name, the type, and the mark of the primary key.
abbrev pub stored_column : Column → List ℕ
stored_column c = c.name ++ (stored_type c.type ++ stored_mark c.is_primary)

-- The columns with commas between them.
abbrev pub stored_columns : List Column → List ℕ
stored_columns [] = []
stored_columns (c ∷ []) = stored_column c
stored_columns (c ∷ c' ∷ cols) = stored_column c ++ (44 ∷ stored_columns (c' ∷ cols))

-- The command that stores a table.
abbrev pub stored_table : Name → Name → List Column → List ℕ
stored_table db_name table cols =
    (codes "HSET _sys:schema:" ++ (db_name ++ (58 ∷ (table ++ codes " cols \""))))
    ++ (stored_columns cols ++ (34 ∷ []))

column_text-stored : (c : Column) → column_text c ≡ stored_column c
column_text-stored c = ap (λ x. c.name ++ x) (of_type c.type)
  where
    mark : (z : ℤ) → (if is_zero z then [] else codes ":PK") ≡ stored_mark z
    mark (pos zero) = refl
    mark (pos (suc n)) = let no : (suc n == 0) ≡ false = ground arith in rw no refl
    mark (negsuc n) = refl

    of_type :
        (t : DataType)
        → 58 ∷ (type_name t ++ (if is_zero c.is_primary then [] else codes ":PK"))
          ≡ stored_type t ++ stored_mark c.is_primary
    of_type type_int = ap (λ x. codes ":INT" ++ x) (mark c.is_primary)
    of_type type_string = ap (λ x. codes ":STRING" ++ x) (mark c.is_primary)

-- The columns behind the first.
behind : List Column → List ℕ
behind [] = []
behind (c ∷ cols) = 44 ∷ stored_columns (c ∷ cols)

stored_columns-cons :
    (c : Column) (cols : List Column) → stored_columns (c ∷ cols) ≡ stored_column c ++ behind cols
unfolding behind
stored_columns-cons c [] = sym (append-nil (stored_column c))
stored_columns-cons c (c' ∷ cols) = refl

append_columns-behind :
    (i : ℕ) (cols : List Column) (cmd : List ℕ)
    → append_columns (suc i) cols cmd ≡ cmd ++ behind cols
unfolding append_columns behind
append_columns-behind i [] cmd = sym (append-nil cmd)
append_columns-behind i (c ∷ cols) cmd =
    let later : ltb 0 (suc i) ≡ true = ground arith in
    ap
      (λ b.
        append_columns (suc (suc i)) cols ((if b then cmd ++ (44 ∷ []) else cmd) ++ column_text c))
      later
    ∙ append_columns-behind (suc i) cols ((cmd ++ (44 ∷ [])) ++ column_text c)
    ∙ append_assoc (cmd ++ (44 ∷ [])) (column_text c) (behind cols)
    ∙ append_assoc cmd (44 ∷ []) (column_text c ++ behind cols)
    ∙ ap (λ x. cmd ++ (44 ∷ (x ++ behind cols))) (column_text-stored c)
    ∙ ap (λ x. cmd ++ (44 ∷ x)) (sym (stored_columns-cons c cols))

first_columns :
    (cols : List Column) (cmd : List ℕ) → append_columns 0 cols cmd ≡ cmd ++ stored_columns cols
unfolding append_columns
first_columns [] cmd = sym (append-nil cmd)
first_columns (c ∷ cols) cmd =
    append_columns-behind 0 cols (cmd ++ column_text c)
    ∙ append_assoc cmd (column_text c) (behind cols)
    ∙ ap (λ x. cmd ++ (x ++ behind cols)) (column_text-stored c)
    ∙ ap (λ x. cmd ++ x) (sym (stored_columns-cons c cols))

-- The loop of the code writes this text.
pub append_columns-stored :
    (db_name table : Name) (cols : List Column)
    → append_columns 0 cols
          (codes "HSET _sys:schema:" ++ (db_name ++ (58 ∷ (table ++ codes " cols \""))))
        ++ (34 ∷ [])
      ≡ stored_table db_name table cols
append_columns-stored db_name table cols =
    let cmd = codes "HSET _sys:schema:" ++ (db_name ++ (58 ∷ (table ++ codes " cols \""))) in
    ap (λ x. x ++ (34 ∷ [])) (first_columns cols cmd)
    ∙ append_assoc cmd (stored_columns cols) (34 ∷ [])
