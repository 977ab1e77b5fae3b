-- ===== src/Lexer.antt =====
-- query_processor/sql_lexer.h and sql_lexer.c: the tokens of an SQL text.
-- A char * is the list of its bytes up to the 0 at its end; a Lexer is the text from its `pos` on. isspace
-- and isalnum are those of the C locale. They are undefined for a byte from 128 on, which is a negative char; here such a byte is
-- neither, and a theorem that depends on it asks for bytes below 128.
pub mod Case
pub mod Progress
pub mod Tests
use rediskrazy.Base.{
  ℕ, zero, suc, ◌+◌, ◌-◌, Bool, true, false, ◌&&◌, ◌||◌, not, Option, none, some, List, [], ◌∷◌,
  ◌++◌, ltb, leb, ◌==◌, if◌then◌else◌, length, take, drop, bytes_eq, codes,
}

pub data TokenType : Type 0 where
  keyword_select keyword_insert keyword_update keyword_delete keyword_from keyword_where : TokenType
  keyword_into keyword_values keyword_set identifier string equals comma lparen rparen : TokenType
  keyword_create keyword_database keyword_table keyword_use keyword_list keyword_databases :
      TokenType
  keyword_tables keyword_not_null keyword_null keyword_int keyword_varchar keyword_string :
      TokenType
  keyword_primary keyword_key keyword_val keyword_clear keyword_cls keyword_help : TokenType
  keyword_drop asterisk eof error : TokenType

pub record Token : Type 0 where
  pub type : TokenType
  pub text : List ℕ

abbrev pub Lexer : Type 0
Lexer = List ℕ

abbrev pub is_space : ℕ → Bool
is_space c = (c == 32) || (leb 9 c && leb c 13)

abbrev is_alnum : ℕ → Bool
is_alnum c = (leb 48 c && leb c 57) || (leb 65 c && leb c 90) || (leb 97 c && leb c 122)

-- isalnum(c) || c == '_' || c == '*'
unfoldable pub is_ident : ℕ → Bool
is_ident c = is_alnum c || (c == 95) || (c == 42)

abbrev lower : ℕ → ℕ
lower c = if leb 65 c && leb c 90 then c + 32 else c

abbrev lower_all : List ℕ → List ℕ
lower_all [] = []
lower_all (c ∷ s) = lower c ∷ lower_all s

-- strcasecmp(s, t) == 0
unfoldable pub equal_ignoring_case : List ℕ → List ℕ → Bool
equal_ignoring_case s t = bytes_eq (lower_all s) (lower_all t)

unfoldable pub skip_space : List ℕ → List ℕ
skip_space [] = []
skip_space (c ∷ s) = if is_space c then skip_space s else c ∷ s

-- The bytes at the front of an identifier, and the others.
unfoldable pub ident_front : List ℕ → List ℕ × List ℕ
unfolding is_ident
ident_front [] = ([], [])
ident_front (c ∷ s) =
    let (word, rest) = ident_front s in if is_ident c then (c ∷ word, rest) else ([], c ∷ s)

-- The bytes up to a quote, and what comes from it on.
unfoldable pub quoted_front : ℕ → List ℕ → List ℕ × List ℕ
quoted_front quote [] = ([], [])
quoted_front quote (c ∷ s) =
    let (word, rest) = quoted_front quote s in if c == quote then ([], c ∷ s) else (c ∷ word, rest)

-- The end quote, if it is there, is skipped.
abbrev skip_one : List ℕ → List ℕ
skip_one [] = []
skip_one (c ∷ s) = s

-- The keywords, in the order of their tests; NOT is tested between STRING and NULL.
abbrev pub keywords : List (List ℕ × TokenType)
keywords =
    (codes "SELECT", keyword_select)
    ∷ (codes "INSERT", keyword_insert)
    ∷ (codes "UPDATE", keyword_update)
    ∷ (codes "DELETE", keyword_delete)
    ∷ (codes "FROM", keyword_from)
    ∷ (codes "WHERE", keyword_where)
    ∷ (codes "INTO", keyword_into)
    ∷ (codes "VALUES", keyword_values)
    ∷ (codes "SET", keyword_set)
    ∷ (codes "CREATE", keyword_create)
    ∷ (codes "DATABASE", keyword_database)
    ∷ (codes "TABLE", keyword_table)
    ∷ (codes "USE", keyword_use)
    ∷ (codes "LIST", keyword_list)
    ∷ (codes "DATABASES", keyword_databases)
    ∷ (codes "TABLES", keyword_tables)
    ∷ (codes "PRIMARY", keyword_primary)
    ∷ (codes "KEY", keyword_key)
    ∷ (codes "VAL", keyword_val)
    ∷ (codes "CLEAR", keyword_clear)
    ∷ (codes "CLS", keyword_cls)
    ∷ (codes "HELP", keyword_help)
    ∷ (codes "DROP", keyword_drop)
    ∷ (codes "INT", keyword_int)
    ∷ (codes "VARCHAR", keyword_varchar)
    ∷ (codes "STRING", keyword_string)
    ∷ (codes "NULL", keyword_null)
    ∷ []

unfoldable pub keyword_in : List (List ℕ × TokenType) → List ℕ → TokenType
keyword_in [] text = identifier
keyword_in ((word, type) ∷ more) text =
    if equal_ignoring_case text word then type else keyword_in more text

-- Behind NOT: whether NULL follows, and no byte of an identifier behind it.
unfoldable pub null_follows : List ℕ → Bool
null_follows s =
    equal_ignoring_case (take 4 s) (codes "NULL")
    && (elim (drop 4 s) [ [] ↦ true | c ∷ _ ↦ not (is_ident c) ])

-- The token of a word, and the text behind it.
unfoldable pub word_token : List ℕ → List ℕ → Token × Lexer
word_token text rest =
    if equal_ignoring_case text (codes "NOT")
    then (if null_follows (skip_space rest)
        then (record { type = keyword_not_null; text = text }, drop 4 (skip_space rest))
        else (record { type = identifier; text = text }, rest))
    else (record { type = keyword_in keywords text; text = text }, rest)

unfoldable pub token_at : ℕ → List ℕ → Token × Lexer
token_at c s =
    if c == 61
    then (record { type = equals; text = c ∷ [] }, s)
    else if c == 44
    then (record { type = comma; text = c ∷ [] }, s)
    else if c == 40
    then (record { type = lparen; text = c ∷ [] }, s)
    else if c == 41
    then (record { type = rparen; text = c ∷ [] }, s)
    else if c == 42
    then (record { type = asterisk; text = c ∷ [] }, s)
    else if (c == 39) || (c == 34)
    then (record { type = string; text = (quoted_front c s).0 }, skip_one (quoted_front c s).1)
    else if is_ident c
    then word_token (ident_front (c ∷ s)).0 (ident_front (c ∷ s)).1
    else (record { type = error; text = codes "I" }, s)

-- The token at the front of a text that starts with no space.
unfoldable pub token_from : List ℕ → Token × Lexer
token_from [] = (record { type = eof; text = [] }, [])
token_from (c ∷ s) = token_at c s

unfoldable pub lexer_next : Lexer → Token × Lexer
lexer_next src = token_from (skip_space src)
