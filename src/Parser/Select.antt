-- ===== src/Parser/Select.antt =====
-- A SELECT with a key, written out, is read back.
use rediskrazy.Base.{
  ℕ, ◌≡◌, ◌≢◌, refl, ap, ◌∙◌, true, false, none, some, List, [], ◌∷◌, ◌++◌, ◌==◌, codes, arith, All,
  bytes_eq,
}
use rediskrazy.Lexer.{
  TokenType, Token, Lexer, lexer_next, token_from, token_at, word_token, is_space, skip_space,
  ident_front, quoted_front, is_ident, keyword_in, keywords, equal_ignoring_case, identifier,
  string, eof, asterisk, equals, keyword_select, keyword_from, keyword_where, keyword_key,
}
use rediskrazy.Parser.{
  Parser, SqlQuery, parser_init, parse_query, parse_select, select_where, on_match, at_type,
  advance, with_type,
}

-- A name that is one identifier: no keyword, and not begun by `*`.
pub record IsName (c : ℕ) (t : List ℕ) : Type 0 where
  pub first : is_ident c ≡ true
  pub no_star : c ≢ 42
  pub others : All (λ c. is_ident c ≡ true) t
  pub no_not : equal_ignoring_case (c ∷ t) (codes "NOT") ≡ false
  pub no_keyword : keyword_in keywords (c ∷ t) ≡ identifier

ident_front-All :
    (t rest : List ℕ) (d : ℕ)
    → All (λ c. is_ident c ≡ true) t
    → is_ident d ≡ false
    → ident_front (t ++ (d ∷ rest)) ≡ (t, d ∷ rest)
unfolding ident_front
ident_front-All [] rest d a h = ground arith
ident_front-All (c ∷ t) rest d a h = ground (arith, ident_front-All t rest d a.1 h, a.0)

quoted_front-All :
    (k rest : List ℕ) (q : ℕ)
    → All (λ c. (c == q) ≡ false) k
    → quoted_front q (k ++ (q ∷ rest)) ≡ (k, q ∷ rest)
unfolding quoted_front
quoted_front-All [] rest q a = ground arith
quoted_front-All (c ∷ k) rest q a = ground (arith, quoted_front-All k rest q a.1, a.0)

word_token-name :
    (c : ℕ) (t rest : List ℕ)
    → IsName c t
    → word_token (c ∷ t) rest ≡ (record { type = identifier; text = c ∷ t }, rest)
unfolding word_token
word_token-name c t rest v = rw (word_token, v.no_not, v.no_keyword) refl

token_at-name :
    (c : ℕ) (s : List ℕ)
    → is_ident c ≡ true
    → c ≢ 42
    → token_at c s ≡ word_token (ident_front (c ∷ s)).0 (ident_front (c ∷ s)).1
unfolding token_at is_ident
token_at-name c s h n = ground arith

skip_one_space : (c : ℕ) (s : List ℕ) → is_space c ≡ false → skip_space (32 ∷ c ∷ s) ≡ c ∷ s
unfolding skip_space
skip_one_space c s h = ground arith

ident_space : (c : ℕ) → is_ident c ≡ true → is_space c ≡ false
unfolding is_ident
ident_space c h = ground arith

at_front : (c : ℕ) (s : List ℕ) → token_from (c ∷ s) ≡ token_at c s
unfolding token_from
at_front c s = refl

lexer_next-name :
    (c : ℕ) (t rest : List ℕ)
    → IsName c t
    → lexer_next (32 ∷ c ∷ (t ++ (32 ∷ rest)))
      ≡ (record { type = identifier; text = c ∷ t }, 32 ∷ rest)
unfolding lexer_next
lexer_next-name c t rest v =
    ap token_from (skip_one_space c (t ++ (32 ∷ rest)) (ident_space c v.first))
    ∙ at_front c (t ++ (32 ∷ rest))
    ∙ token_at-name c (t ++ (32 ∷ rest)) v.first v.no_star
    ∙ ap (λ p. word_token p.0 p.1)
        (ident_front-All (c ∷ t) rest 32 (v.first, v.others) (unfold is_ident in refl))
    ∙ word_token-name c t (32 ∷ rest) v

-- A quoted string.
lexer_next-quoted :
    (k rest : List ℕ)
    → All (λ c. (c == 39) ≡ false) k
    → lexer_next (32 ∷ 39 ∷ (k ++ (39 ∷ rest))) ≡ (record { type = string; text = k }, rest)
unfolding lexer_next skip_space token_from token_at
lexer_next-quoted k rest a = rw (quoted_front-All k rest 39 a) refl

abbrev pub select_text : List ℕ → List ℕ → List ℕ
select_text t k = codes "SELECT * FROM " ++ (t ++ (codes " WHERE key = '" ++ (k ++ codes "'")))

lexer_next-select :
    (s : List ℕ)
    → lexer_next (codes "SELECT * FROM" ++ s)
      ≡ (record { type = keyword_select; text = codes "SELECT" }, codes " * FROM" ++ s)
unfolding lexer_next skip_space token_from token_at word_token ident_front is_ident keyword_in
    equal_ignoring_case bytes_eq
lexer_next-select s = refl

lexer_next-from :
    (s : List ℕ)
    → lexer_next (codes " FROM" ++ (32 ∷ s))
      ≡ (record { type = keyword_from; text = codes "FROM" }, 32 ∷ s)
unfolding lexer_next skip_space token_from token_at word_token ident_front is_ident keyword_in
    equal_ignoring_case bytes_eq
lexer_next-from s = refl

parser_of : Token × Lexer → Parser
parser_of x = record { lexer = x.1; current = x.0; error = none }

advance-parser_of :
    (t : Token) (l : Lexer) (x : Token × Lexer)
    → lexer_next l ≡ x
    → advance (parser_of (t, l)) ≡ parser_of x
unfolding advance parser_of
advance-parser_of t l x e = ap (λ y. record { lexer = y.1; current = y.0; error = none }) e

on_match-yes :
    {A : Type 0} (p p' : Parser) (type : TokenType) (y : Parser → A) (n : A)
    → at_type p type ≡ true
    → advance p ≡ p'
    → on_match p type y n ≡ y p'
unfolding on_match
on_match-yes p p' type y n h e = rw (on_match, h) (ap y e)

abbrev token : TokenType → List ℕ → Token
token type text = record { type = type; text = text }

select_where-key :
    (q : SqlQuery) (l1 l2 l3 l4 : Lexer) (last : Token) (k : List ℕ)
    → lexer_next l1 ≡ (token equals (61 ∷ []), l2)
    → lexer_next l2 ≡ (token string k, l3)
    → lexer_next l3 ≡ (last, l4)
    → select_where q (parser_of (token keyword_key (codes "key"), l1))
      ≡ (record q { key = some k }, parser_of (last, l4))
unfolding select_where equal_ignoring_case bytes_eq at_type parser_of
select_where-key q l1 l2 l3 l4 last k e e' e'' =
    rw (advance-parser_of (token keyword_key (codes "key")) l1 (token equals (61 ∷ []), l2) e) (
      on_match-yes (parser_of (token equals (61 ∷ []), l2)) (parser_of (token string k, l3)) equals
        _ _ refl (advance-parser_of (token equals (61 ∷ [])) l2 (token string k, l3) e')
      ∙ ap (λ p. (record q { key = some k }, p))
          (advance-parser_of (token string k) l3 (last, l4) e''))

parse_select-table :
    (q : SqlQuery) (l l1 l2 l3 l4 : Lexer) (name : List ℕ)
    → lexer_next l ≡ (token keyword_from (codes "FROM"), l1)
    → lexer_next l1 ≡ (token identifier name, l2)
    → lexer_next l2 ≡ (token keyword_where (codes "WHERE"), l3)
    → lexer_next l3 ≡ (token keyword_key (codes "key"), l4)
    → parse_select q (parser_of (token asterisk (42 ∷ []), l))
      ≡ select_where
          (record q { table = some name })
          (parser_of (token keyword_key (codes "key"), l4))
unfolding parse_select at_type parser_of
parse_select-table q l l1 l2 l3 l4 name e e1 e2 e3 =
    on_match-yes (parser_of (token asterisk (42 ∷ []), l))
      (parser_of (token keyword_from (codes "FROM"), l1)) asterisk _ _ refl
      (advance-parser_of (token asterisk (42 ∷ [])) l (token keyword_from (codes "FROM"), l1) e)
    ∙ on_match-yes (parser_of (token keyword_from (codes "FROM"), l1))
        (parser_of (token identifier name, l2)) keyword_from _ _ refl
        (advance-parser_of (token keyword_from (codes "FROM")) l1 (token identifier name, l2) e1)
    ∙ ap
        (λ p.
          on_match p keyword_where (select_where (record q { table = some name }))
            (record q { table = some name }, p))
        (advance-parser_of (token identifier name) l2 (token keyword_where (codes "WHERE"), l3) e2)
    ∙ on_match-yes (parser_of (token keyword_where (codes "WHERE"), l3))
        (parser_of (token keyword_key (codes "key"), l4)) keyword_where _ _ refl
        (advance-parser_of (token keyword_where (codes "WHERE")) l3
          (token keyword_key (codes "key"), l4) e3)

lexer_next-star : (s : List ℕ) → lexer_next (32 ∷ 42 ∷ s) ≡ (token asterisk (42 ∷ []), s)
unfolding lexer_next skip_space token_from token_at
lexer_next-star s = refl

lexer_next-where :
    (s : List ℕ)
    → lexer_next (codes " WHERE" ++ (32 ∷ s)) ≡ (token keyword_where (codes "WHERE"), 32 ∷ s)
unfolding lexer_next skip_space token_from token_at word_token ident_front is_ident keyword_in
    equal_ignoring_case bytes_eq
lexer_next-where s = refl

lexer_next-key :
    (s : List ℕ) → lexer_next (codes " key" ++ (32 ∷ s)) ≡ (token keyword_key (codes "key"), 32 ∷ s)
unfolding lexer_next skip_space token_from token_at word_token ident_front is_ident keyword_in
    equal_ignoring_case bytes_eq
lexer_next-key s = refl

lexer_next-equals : (s : List ℕ) → lexer_next (32 ∷ 61 ∷ s) ≡ (token equals (61 ∷ []), s)
unfolding lexer_next skip_space token_from token_at
lexer_next-equals s = refl

lexer_next-end : lexer_next [] ≡ (token eof [], [])
unfolding lexer_next skip_space token_from
lexer_next-end = refl

-- SELECT * FROM t WHERE key = 'k' is the query of type 0 with this table and key, for every name t that is no
-- keyword and every k without a quote, and the parser is then at the end of the text, without an error.
pub parse_query-select :
    (c : ℕ) (t k : List ℕ)
    → IsName c t
    → All (λ c. (c == 39) ≡ false) k
    → parse_query (parser_init (select_text (c ∷ t) k))
      ≡ some (
        record (with_type 0) { table = some (c ∷ t); key = some k },
        record { lexer = []; current = record { type = eof; text = [] }; error = none },
      )
unfolding parse_query parser_init parser_of
parse_query-select c t k v a =
    let l5 = codes " = '" ++ (k ++ (39 ∷ [])) in
    let l3 = codes " key" ++ l5 in
    let l2 = codes " WHERE" ++ l3 in
    let l1 = 32 ∷ c ∷ (t ++ l2) in
    let l0 = codes " FROM" ++ l1 in
    ap (λ x. parse_query (parser_of x)) (lexer_next-select l1)
    ∙ on_match-yes (parser_of (token keyword_select (codes "SELECT"), 32 ∷ 42 ∷ l0))
        (parser_of (token asterisk (42 ∷ []), l0)) keyword_select _ _ (unfold at_type in refl)
        (advance-parser_of (token keyword_select (codes "SELECT")) (32 ∷ 42 ∷ l0)
          (token asterisk (42 ∷ []), l0) (lexer_next-star l0))
    ∙ ap some (
        parse_select-table (with_type 0) l0 l1 l2 l3 l5 (c ∷ t) (lexer_next-from (c ∷ (t ++ l2)))
          (lexer_next-name c t (codes "WHERE" ++ l3) v) (lexer_next-where (codes "key" ++ l5))
          (lexer_next-key (codes "= '" ++ (k ++ (39 ∷ []))))
        ∙ select_where-key (record (with_type 0) { table = some (c ∷ t) }) l5
            (codes " '" ++ (k ++ (39 ∷ []))) [] [] (token eof []) k
            (lexer_next-equals (codes " '" ++ (k ++ (39 ∷ [])))) (lexer_next-quoted k [] a)
            lexer_next-end)
