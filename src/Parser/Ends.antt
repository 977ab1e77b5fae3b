-- ===== src/Parser/Ends.antt =====
-- The fuel of every loop of the parser is enough.
use rediskrazy.Base.{
  Ends-elim, Ends-elim_false, ℕ, zero, suc, ◌+◌, ◌<◌, ◌≤◌, ◌≡◌, refl, Bool, true, false, ◌&&◌, ◌||◌,
  not, Option, some, [], ◌∷◌, ◌++◌, length, arith, Ends, ends, Ends-bind, Ends-map, Ends-if,
}
use rediskrazy.Base.Int.{pos}
use rediskrazy.Schema.{Column, type_int, type_string}
use rediskrazy.Lexer.{
  TokenType, Token, eof, identifier, string, comma, lparen, rparen, keyword_primary, keyword_key,
  keyword_not_null, keyword_int, keyword_values, keyword_into, keyword_database, keyword_table,
  keyword_select, keyword_insert, keyword_update, keyword_delete, keyword_create, keyword_use,
  keyword_list, keyword_clear, keyword_cls, keyword_drop, keyword_help,
}
use rediskrazy.Parser.{
  Parser, SqlQuery, advance, at_type, on_match, skip, skip_size, at_value, at_text_type, at_column,
  rounds_for, skip_columns, parse_values, insert_values, parse_insert, constraints, column_name,
  early_primary, parse_column, parse_columns, parse_create, parse_query, table_name, add_value,
  with_type, empty_query,
}
use rediskrazy.Parser.Measure.{
  measure-advance, measure-at, measure-le, lexer-le, measure-skip, measure-skip_size, measure-text,
  measure,
}

-- The loop over the constraints of a column ends.
constraints-Ends :
    (rounds : ℕ) (c : Column) (p : Parser)
    → measure p < rounds
    → Ends (λ r. measure r.1 ≤ measure p) (constraints rounds c p)
unfolding constraints
constraints-Ends zero c p h = absurd (omega arith)
constraints-Ends (suc rounds) c p h =
    Ends-elim (at_type p keyword_primary)
      (λ y.
        let less = measure-at p keyword_primary y (λ e. ground arith) in
        Ends-map
          (constraints-Ends rounds (record c { is_primary = pos 1 }) (skip (advance p) keyword_key)
            (omega (arith, measure-skip (advance p) keyword_key, measure-advance p)))
          λ r z. omega (arith, measure-skip (advance p) keyword_key, measure-advance p))
      (λ n.
        Ends-elim (at_type p keyword_not_null)
          (λ y.
            let less = measure-at p keyword_not_null y (λ e. ground arith) in
            Ends-map
              (constraints-Ends rounds (record c { not_null = pos 1 }) (advance p)
                (omega (arith, measure-advance p)))
              λ r z. omega (arith, measure-advance p))
          (λ n.
            Ends-elim (at_type p keyword_int)
              (λ y.
                let less = measure-at p keyword_int y (λ e. ground arith) in
                Ends-map
                  (constraints-Ends rounds (record c { type = type_int }) (advance p)
                    (omega (arith, measure-advance p)))
                  λ r z. omega (arith, measure-advance p))
              (λ n.
                Ends-elim (at_text_type p)
                  (λ y.
                    let less = measure-text p y in
                    Ends-map
                      (constraints-Ends rounds (record c { type = type_string })
                        (skip_size (advance p))
                        (omega (arith, measure-skip_size (advance p), measure-advance p)))
                      λ r z. omega (arith, measure-skip_size (advance p), measure-advance p))
                  (λ n. ends (omega arith)))))

column_name-le :
    (first : Token) (c : Column) (p : Parser) → measure (column_name first c p).1 ≤ measure p
unfolding column_name
column_name-le first c p =
    ground (arith, measure-advance p, lexer-le p, measure-skip_size (advance p))

early_primary-le : (c : Column) (p : Parser) → measure (early_primary c p).1 ≤ measure p
unfolding early_primary on_match
early_primary-le c p =
    ground (arith, measure-advance p, lexer-le p, measure-skip (advance p) keyword_key)

parse_column-Ends : (p : Parser) → Ends (λ r. measure r.1 ≤ length p.lexer) (parse_column p)
unfolding parse_column
parse_column-Ends p =
    let early =
      early_primary (record { name = []; type = type_string; not_null = pos 0; is_primary = pos 0 })
        (advance p) in
    let named = column_name p.current early.0 early.1 in
    let a =
      early_primary-le
        (record { name = []; type = type_string; not_null = pos 0; is_primary = pos 0 })
        (advance p) in
    let b = column_name-le p.current early.0 early.1 in
    Ends-map
      (constraints-Ends (rounds_for named.1) named.0 named.1 (omega (arith, measure-le named.1)))
      λ r z. omega (arith, measure-advance p)

measure-column : (p : Parser) → at_column p ≡ true → measure p ≡ length p.lexer + 1
measure-column p h = go (at_type p identifier) (at_type p keyword_int) refl refl h
  where
    go :
        (b b' : Bool)
        → at_type p identifier ≡ b
        → at_type p keyword_int ≡ b'
        → (b || b' || at_text_type p) ≡ true
        → measure p ≡ length p.lexer + 1
    go true b' e e' f = measure-at p identifier e (λ e. ground arith)
    go false true e e' f = measure-at p keyword_int e' (λ e. ground arith)
    go false false e e' f = measure-text p f

measure-value : (p : Parser) → at_value p ≡ true → measure p ≡ length p.lexer + 1
measure-value p h = go (at_type p string) refl h
  where
    go :
        (b : Bool)
        → at_type p string ≡ b
        → (b || at_type p identifier) ≡ true
        → measure p ≡ length p.lexer + 1
    go true e f = measure-at p string e (λ e. ground arith)
    go false e f = measure-at p identifier f (λ e. ground arith)

-- The loop over the columns of a table ends.
parse_columns-Ends :
    (rounds : ℕ) (q : SqlQuery) (p : Parser)
    → measure p < rounds
    → Ends (λ r. measure r.1 ≤ measure p) (parse_columns rounds q p)
unfolding parse_columns
parse_columns-Ends zero q p h = absurd (omega arith)
parse_columns-Ends (suc rounds) q p h =
    Ends-elim_false (at_column p)
      (λ y.
        let less = measure-column p y in
        Ends-bind (parse_column-Ends p) λ r z.
          Ends-elim_false (at_type r.1 comma)
            (λ y'.
              Ends-map
                (parse_columns-Ends rounds (record q { cols = q.cols ++ (r.0 ∷ []) }) (advance r.1)
                  (omega (arith, measure-advance r.1, lexer-le r.1)))
                λ r' z'. omega (arith, measure-advance r.1, lexer-le r.1))
            (λ n'. ends (omega arith)))
      (λ n. ends (omega arith))

-- The loop over the values of an INSERT ends.
parse_values-Ends :
    (rounds : ℕ) (q : SqlQuery) (p : Parser)
    → measure p < rounds
    → Ends (λ r. measure r.1 ≤ measure p) (parse_values rounds q p)
unfolding parse_values
parse_values-Ends zero q p h = absurd (omega arith)
parse_values-Ends (suc rounds) q p h =
    Ends-elim_false (at_value p)
      (λ y.
        let less = measure-value p y in
        Ends-elim_false (at_type (advance p) comma)
          (λ y'.
            Ends-map
              (parse_values-Ends rounds (add_value q p.current.text) (advance (advance p)) (
                omega
                  (arith, measure-advance p, measure-advance (advance p), lexer-le (advance p))))
              λ r z.
                omega (arith, measure-advance p, measure-advance (advance p), lexer-le (advance p)))
          (λ n'. ends (omega (arith, measure-advance p))))
      (λ n. ends (omega arith))

-- The loop that skips a column list ends.
skip_columns-Ends :
    (rounds : ℕ) (p : Parser)
    → measure p < rounds
    → Ends (λ p'. measure p' ≤ measure p) (skip_columns rounds p)
unfolding skip_columns
skip_columns-Ends zero p h = absurd (omega arith)
skip_columns-Ends (suc rounds) p h =
    Ends-elim (not (at_type p rparen) && not (at_type p eof))
      (λ y.
        let less = measure-more p y in
        Ends-map (skip_columns-Ends rounds (advance p) (omega (arith, measure-advance p)))
          λ r z. omega (arith, measure-advance p))
      (λ n. ends (omega arith))
  where
    measure-more :
        (p : Parser)
        → (not (at_type p rparen) && not (at_type p eof)) ≡ true
        → measure p ≡ length p.lexer + 1
    measure-more p h = unfold measure in ground arith

anyway : {A : Type 0} {P : A → Type 0} {m : Option A} → Ends P m → Ends (λ _. Unit {0}) m
anyway e = Ends-map e λ a p. tt

on_match-Ends :
    {A : Type 0} {P : A → Type 0} (p : Parser) (t : TokenType) {y : Parser → Option A}
    {n : Option A}
    → ((p : Parser) → Ends P (y p))
    → Ends P n
    → Ends P (on_match p t y n)
unfolding on_match
on_match-Ends p t f g = Ends-if (at_type p t) (λ e. f (advance p)) (λ e. g)

always_ends : {A : Type 0} (a : A) → Ends (λ _. Unit {0}) (some a)
always_ends a = ends tt

insert_values-Ends : (q : SqlQuery) (p : Parser) → Ends (λ _. Unit {0}) (insert_values q p)
unfolding insert_values
insert_values-Ends q p =
    on_match-Ends p keyword_values
      (λ p.
        on_match-Ends p lparen
          (λ p.
            Ends-bind
              (parse_values-Ends (rounds_for p) (record q { vals = [] }) p
                (omega (arith, measure-le p)))
              λ r z. ends tt)
          (ends tt))
      (ends tt)

parse_insert-Ends : (q : SqlQuery) (p : Parser) → Ends (λ _. Unit {0}) (parse_insert q p)
unfolding parse_insert
parse_insert-Ends q p =
    on_match-Ends p keyword_into
      (λ p.
        on_match-Ends (table_name q p).1 lparen
          (λ p'.
            Ends-bind (skip_columns-Ends (rounds_for p') p' (omega (arith, measure-le p')))
              λ p'' z. insert_values-Ends (table_name q p).0 (skip p'' rparen))
          (insert_values-Ends (table_name q p).0 (table_name q p).1))
      (ends tt)

parse_create-Ends : (q : SqlQuery) (p : Parser) → Ends (λ _. Unit {0}) (parse_create q p)
unfolding parse_create
parse_create-Ends q p =
    on_match-Ends p keyword_database (λ p. ends tt)
      (on_match-Ends p keyword_table
        (λ p.
          on_match-Ends _ lparen
            (λ p'.
              Ends-bind (parse_columns-Ends (rounds_for p') _ p' (omega (arith, measure-le p')))
                λ r z. ends tt)
            (ends tt))
        (ends tt))

-- The parser returns on every text: the fuel given to each loop is enough.
pub parse_query-Ends : (p : Parser) → Ends (λ _. Unit {0}) (parse_query p)
unfolding parse_query
parse_query-Ends p =
    on_match-Ends p keyword_select (λ p. ends tt)
      (on_match-Ends p keyword_insert (λ p. parse_insert-Ends (with_type 1) p)
        (on_match-Ends p keyword_update (λ p. ends tt)
          (on_match-Ends p keyword_delete (λ p. ends tt)
            (on_match-Ends p keyword_create (λ p. parse_create-Ends empty_query p)
              (on_match-Ends p keyword_use (λ p. ends tt)
                (on_match-Ends p keyword_list (λ p. ends tt)
                  (on_match-Ends p keyword_clear (λ p. ends tt)
                    (on_match-Ends p keyword_cls (λ p. ends tt)
                      (on_match-Ends p keyword_drop (λ p. ends tt)
                        (on_match-Ends p keyword_help (λ p. ends tt) (ends tt)))))))))))
