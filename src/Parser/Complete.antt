-- ===== src/Parser/Complete.antt =====
-- What the parser promises of a query that it returns without an error.
use rediskrazy.Base.{
  ℕ, zero, suc, ◌≡◌, refl, Bool, true, false, Option, none, some, List, [], ◌∷◌, ◌++◌, arith,
  IfEnds, fails, ends_in, IfEnds-bind, IfEnds-map, IfEnds-if, anything, codes, bytes_eq, sym, ap,
  ◌∙◌, if◌then◌else◌, ◌≢◌, IfEnds-elim_false,
}
use rediskrazy.Base.Int.{ℤ, pos, negsuc}
use rediskrazy.Lexer.{
  asterisk, keyword_from, keyword_where, TokenType, identifier, comma, lparen, rparen,
  keyword_values, keyword_into, keyword_database, keyword_table, keyword_select, keyword_insert,
  keyword_update, keyword_delete, keyword_create, keyword_use, keyword_list, keyword_clear,
  keyword_cls, keyword_drop, keyword_help, keyword_databases, keyword_tables,
}
use rediskrazy.Parser.{
  Parser, SqlQuery, Result, advance, at_type, on_match, skip, at_value, at_column, rounds_for,
  skip_columns, parse_values, insert_values, parse_insert, parse_column, parse_columns,
  parse_create, parse_query, table_name, add_value, with_type, empty_query, select_where,
  parse_select, where_key, set_val, parse_update, parse_delete, key_or_error, table_or_error,
  parse_list, parse_drop, set_error,
}

abbrev pub is_set : {A : Type 0} → Option A → Bool
is_set none = false
is_set (some a) = true

abbrev pub is_database : Option (List ℕ) → Bool
is_database none = false
is_database (some val) = bytes_eq val (codes "DATABASE")

-- A LIST and a DROP DATABASE have a key.
pub record IsComplete (q : SqlQuery) : Type 0 where
  pub list_key : q.type ≡ pos 7 → is_set q.key ≡ true
  pub drop_key : q.type ≡ pos 9 → is_database q.val ≡ true → is_set q.key ≡ true

-- A query of any other type is complete.
other_type : (q : SqlQuery) (t : ℤ) → q.type ≡ t → (t ≢ pos 7) → (t ≢ pos 9) → IsComplete q
other_type q t e n n' = record {
  list_key = λ h. absurd (n (sym e ∙ h));
  drop_key = λ h d. absurd (n' (sym e ∙ h));
}

abbrev HasType : ℤ → Result → Type 0
HasType t r = r.0.type ≡ t

if_at : {A : Type 0} (P : A → Type 0) (b : Bool) {x y : A} → P x → P y → P (if b then x else y)
if_at P true f g = f
if_at P false f g = g

on_match-at :
    {A : Type 0} (P : A → Type 0) (p : Parser) (t : TokenType) {y : Parser → A} {n : A}
    → ((p : Parser) → P (y p))
    → P n
    → P (on_match p t y n)
unfolding on_match
on_match-at P p t f g = if_at P (at_type p t) (f (advance p)) g

select_where-type : (q : SqlQuery) (p : Parser) → (select_where q p).0.type ≡ q.type
unfolding select_where on_match
select_where-type q p = ground arith

parse_select-type : (q : SqlQuery) (p : Parser) → HasType q.type (parse_select q p)
unfolding parse_select
parse_select-type q p =
    let P : Result → Type 0 = HasType q.type in
    on_match-at P p asterisk
      (λ p.
        on_match-at P p keyword_from
          (λ p.
            if_at P (at_type p identifier)
              (on_match-at P (advance p) keyword_where
                (select_where-type (record q { table = some p.current.text })) refl)
              refl)
          refl)
      refl

where_key-type : (q : SqlQuery) (p : Parser) → (where_key q p).0.type ≡ q.type
unfolding where_key on_match
where_key-type q p = ground arith

set_val-type : (q : SqlQuery) (p : Parser) → (set_val q p).0.type ≡ q.type
unfolding set_val on_match
set_val-type q p = ground arith

table_name-type : (q : SqlQuery) (p : Parser) → (table_name q p).0.type ≡ q.type
unfolding table_name
table_name-type q p = ground arith

parse_values-type :
    (rounds : ℕ) (q : SqlQuery) (p : Parser) → IfEnds (HasType q.type) (parse_values rounds q p)
unfolding parse_values
parse_values-type zero q p = fails
parse_values-type (suc rounds) q p =
    IfEnds-elim_false (at_value p)
      (IfEnds-elim_false (at_type (advance p) comma)
        (parse_values-type rounds (add_value q p.current.text) (advance (advance p)))
        (ends_in refl))
      (ends_in refl)

parse_columns-type :
    (rounds : ℕ) (q : SqlQuery) (p : Parser) → IfEnds (HasType q.type) (parse_columns rounds q p)
unfolding parse_columns
parse_columns-type zero q p = fails
parse_columns-type (suc rounds) q p =
    IfEnds-elim_false (at_column p)
      (IfEnds-bind (anything (parse_column p)) λ r z.
        IfEnds-elim_false (at_type r.1 comma)
          (parse_columns-type rounds (record q { cols = q.cols ++ (r.0 ∷ []) }) (advance r.1))
          (ends_in refl))
      (ends_in refl)

IfEnds-on_match :
    {A : Type 0} {P : A → Type 0} (p : Parser) (t : TokenType) {y : Parser → Option A}
    {n : Option A}
    → ((p : Parser) → IfEnds P (y p))
    → IfEnds P n
    → IfEnds P (on_match p t y n)
unfolding on_match
IfEnds-on_match p t f g = IfEnds-if (at_type p t) (f (advance p)) g

insert_values-type : (q : SqlQuery) (p : Parser) → IfEnds (HasType q.type) (insert_values q p)
unfolding insert_values
insert_values-type q p =
    IfEnds-on_match p keyword_values
      (λ p.
        IfEnds-on_match p lparen
          (λ p.
            IfEnds-bind (parse_values-type (rounds_for p) (record q { vals = [] }) p)
              λ r z. ends_in z)
          (ends_in refl))
      (ends_in refl)

parse_insert-type : (q : SqlQuery) (p : Parser) → IfEnds (HasType q.type) (parse_insert q p)
unfolding parse_insert
parse_insert-type q p =
    IfEnds-on_match p keyword_into
      (λ p.
        IfEnds-map
          (IfEnds-on_match (table_name q p).1 lparen
            (λ p'.
              IfEnds-bind (anything (skip_columns (rounds_for p') p'))
                λ p'' z. insert_values-type (table_name q p).0 (skip p'' rparen))
            (insert_values-type (table_name q p).0 (table_name q p).1))
          λ r z. z ∙ table_name-type q p)
      (ends_in refl)

set_error-error : (p : Parser) (msg : List ℕ) → (set_error p msg).error ≢ none
set_error-error p msg h = ground arith

-- An error, or a key.
abbrev HasKey : Result → Type 0
HasKey r = r.1.error ≡ none → is_set r.0.key ≡ true

key_or_error-key : (q : SqlQuery) (p : Parser) (msg : List ℕ) → HasKey (key_or_error q p msg)
unfolding key_or_error
key_or_error-key q p msg =
    if_at HasKey (at_type p identifier) (λ h. refl) (λ h. absurd (set_error-error p msg h))

key_or_error-type :
    (q : SqlQuery) (p : Parser) (msg : List ℕ) → HasType q.type (key_or_error q p msg)
unfolding key_or_error
key_or_error-type q p msg = ground arith

table_or_error-type :
    (q : SqlQuery) (p : Parser) (msg : List ℕ) → HasType q.type (table_or_error q p msg)
unfolding table_or_error
table_or_error-type q p msg = ground arith

table_or_error-val :
    (q : SqlQuery) (p : Parser) (msg : List ℕ) → (table_or_error q p msg).0.val ≡ q.val
unfolding table_or_error
table_or_error-val q p msg = ground arith

parse_update-type : (q : SqlQuery) (p : Parser) → HasType q.type (parse_update q p)
unfolding parse_update
parse_update-type q p = where_key-type _ _ ∙ set_val-type _ _ ∙ table_name-type q p

parse_delete-type : (q : SqlQuery) (p : Parser) → HasType q.type (parse_delete q p)
unfolding parse_delete
parse_delete-type q p =
    where_key-type _ _ ∙ on_match-at (HasType q.type) p keyword_from (table_name-type q) refl

parse_create-type :
    (q : SqlQuery) (p : Parser)
    → q.type ≡ negsuc 0
    → IfEnds (λ r. IsComplete r.0) (parse_create q p)
unfolding parse_create
parse_create-type q p e =
    IfEnds-on_match p keyword_database
      (λ p. ends_in (
        other_type _ (pos 4) (key_or_error-type (record q { type = pos 4 }) p _) (λ h. cc)
          (λ h. cc)))
      (IfEnds-on_match p keyword_table
        (λ p.
          let same =
            table_or_error-type (record q { type = pos 5 }) p (codes "Expected table name") in
          IfEnds-on_match _ lparen
            (λ p.
              IfEnds-bind (parse_columns-type (rounds_for p) _ p)
                λ r z. ends_in (other_type _ (pos 5) (z ∙ same) (λ h. cc) (λ h. cc)))
            (ends_in (other_type _ (pos 5) same (λ h. cc) (λ h. cc))))
        (ends_in (other_type q (negsuc 0) e (λ h. cc) (λ h. cc))))

-- An error, or a complete query.
abbrev pub Good : Result → Type 0
Good r = r.1.error ≡ none → IsComplete r.0

parse_list-Good : (q : SqlQuery) (p : Parser) → q.type ≡ pos 7 → Good (parse_list q p)
unfolding parse_list
parse_list-Good q p e =
    on_match-at Good p keyword_databases
      (λ p h. record { list_key = λ _. refl; drop_key = λ t _. cc })
      (on_match-at Good p keyword_tables
        (λ p h. record { list_key = λ _. refl; drop_key = λ t _. cc })
        (λ h. absurd (set_error-error p _ h)))

parse_drop-Good : (q : SqlQuery) (p : Parser) → Good (parse_drop q p)
unfolding parse_drop
parse_drop-Good q p =
    on_match-at Good p keyword_database
      (λ p h.
        let q' : SqlQuery = record q { type = pos 9; val = some (codes "DATABASE") } in
        let msg = codes "Expected database name after DROP DATABASE" in
        record {
          list_key = λ t. absurd (seven_nine (sym t ∙ key_or_error-type q' p msg));
          drop_key = λ t d. key_or_error-key q' p msg h;
        })
      (on_match-at Good p keyword_table
        (λ p h.
          let q' : SqlQuery = record q { type = pos 9; val = some (codes "TABLE") } in
          let msg = codes "Expected table name after DROP TABLE" in
          record {
            list_key = λ t. absurd (seven_nine (sym t ∙ table_or_error-type q' p msg));
            drop_key = λ t d.
                absurd (no_database (ap is_database (sym (table_or_error-val q' p msg)) ∙ d));
          })
        (λ h. absurd (set_error-error p _ h)))
  where
    seven_nine : pos 7 ≢ pos 9
    seven_nine e = cc

    no_database : is_database (some (codes "TABLE")) ≢ true
    no_database e = unfold bytes_eq in ground arith

whatever :
    (t : ℤ) (m : Option Result) → t ≢ pos 7 → t ≢ pos 9 → IfEnds (HasType t) m → IfEnds Good m
whatever t m n n' e = IfEnds-map e λ r z h. other_type r.0 t z n n'

-- Every query that the parser returns without an error is complete.
pub parse_query-Good : (p : Parser) → IfEnds Good (parse_query p)
unfolding parse_query
parse_query-Good p =
    IfEnds-on_match p keyword_select
      (λ p. whatever (pos 0) _ (λ h. cc) (λ h. cc) (ends_in (parse_select-type (with_type 0) p)))
      (IfEnds-on_match p keyword_insert
        (λ p. whatever (pos 1) _ (λ h. cc) (λ h. cc) (parse_insert-type (with_type 1) p))
        (IfEnds-on_match p keyword_update
          (λ p.
            whatever (pos 3) _ (λ h. cc) (λ h. cc) (ends_in (parse_update-type (with_type 3) p)))
          (IfEnds-on_match p keyword_delete
            (λ p.
              whatever (pos 2) _ (λ h. cc) (λ h. cc) (ends_in (parse_delete-type (with_type 2) p)))
            (IfEnds-on_match p keyword_create
              (λ p. IfEnds-map (parse_create-type empty_query p refl) λ r z h. z)
              (IfEnds-on_match p keyword_use
                (λ p.
                  whatever (pos 6) _ (λ h. cc) (λ h. cc)
                    (ends_in (key_or_error-type (with_type 6) p _)))
                (IfEnds-on_match p keyword_list
                  (λ p. ends_in (parse_list-Good (with_type 7) p refl))
                  (IfEnds-on_match p keyword_clear
                    (λ p. whatever (pos 8) _ (λ h. cc) (λ h. cc) (ends_in refl))
                    (IfEnds-on_match p keyword_cls
                      (λ p. whatever (pos 8) _ (λ h. cc) (λ h. cc) (ends_in refl))
                      (IfEnds-on_match p keyword_drop (λ p. ends_in (parse_drop-Good empty_query p))
                        (IfEnds-on_match p keyword_help
                          (λ p. whatever (pos 10) _ (λ h. cc) (λ h. cc) (ends_in refl))
                          (ends_in (λ h. absurd (set_error-error p _ h)))))))))))))
