-- ===== src/Parser/Measure.antt =====
-- Reading a token shortens what is left of the text.
use rediskrazy.Base.{
  ℕ, ◌+◌, ◌<◌, ◌≤◌, ◌≡◌, ◌≢◌, refl, ap, Bool, true, false, ◌||◌, List, ◌==◌, if◌then◌else◌, length,
  arith, Bool-cases, inl, inr,
}
use rediskrazy.Lexer.{TokenType, lexer_next, eof, lparen, rparen, keyword_varchar, keyword_string}
use rediskrazy.Lexer.Progress.{lexer_next-shorter}
use rediskrazy.Parser.{
  token_number, Parser, advance, at_type, on_match, skip, skip_size, at_text_type,
}

-- The bytes left, and one more for a token that is not the last.
unfoldable pub measure : Parser → ℕ
measure p = length p.lexer + (if at_type p eof then 0 else 1)

pub counted :
    (t : TokenType) (rest src : List ℕ)
    → length rest ≤ length src
    → (t ≢ eof → length rest < length src)
    → length rest + (if token_number t == 35 then 0 else 1) ≤ length src
counted t rest src a b = elim (Bool-cases (token_number t == 35)) [
  | inl y ↦ ground (arith, a)
  | inr n ↦ let h = b (λ e. differ (token_number t) (ap token_number e) n) in ground (arith, h)
]
  where
    differ : (n : ℕ) → n ≡ 35 → (n == 35) ≡ false → ⊥
    differ n e f = ground arith

pub measure-advance : (p : Parser) → measure (advance p) ≤ length p.lexer
unfolding measure advance at_type
measure-advance p =
    let (a, b) = lexer_next-shorter p.lexer in
    counted (lexer_next p.lexer).0.type (lexer_next p.lexer).1 p.lexer a b

pub measure-at :
    (p : Parser) (t : TokenType)
    → at_type p t ≡ true
    → token_number t ≢ 35
    → measure p ≡ length p.lexer + 1
unfolding measure at_type
measure-at p t h n = ground arith

pub measure-le : (p : Parser) → measure p ≤ length p.lexer + 1
unfolding measure
measure-le p = ground arith

pub lexer-le : (p : Parser) → length p.lexer ≤ measure p
unfolding measure
lexer-le p = omega arith

pub measure-skip : (p : Parser) (t : TokenType) → measure (skip p t) ≤ measure p
unfolding skip
measure-skip p t = elim (Bool-cases (at_type p t)) [
  | inl y ↦ rw y (omega (arith, measure-advance p, lexer-le p))
  | inr n ↦ rw n (omega arith)
]

pub measure-skip_size : (p : Parser) → measure (skip_size p) ≤ measure p
unfolding skip_size on_match
measure-skip_size p = elim (Bool-cases (at_type p lparen)) [
  | inl y ↦ rw y (
      omega (
        arith,
        measure-skip (advance (advance p)) rparen,
        measure-advance (advance p),
        lexer-le (advance p),
        measure-advance p,
        lexer-le p,
      ))
  | inr n ↦ rw n (omega arith)
]

pub measure-text : (p : Parser) → at_text_type p ≡ true → measure p ≡ length p.lexer + 1
measure-text p h = go (at_type p keyword_varchar) refl h
  where
    go :
        (b : Bool)
        → at_type p keyword_varchar ≡ b
        → (b || at_type p keyword_string) ≡ true
        → measure p ≡ length p.lexer + 1
    go true e f = measure-at p keyword_varchar e (λ e. ground arith)
    go false e f = measure-at p keyword_string f (λ e. ground arith)
