-- ===== src/Lexer/Progress.antt =====
-- Every token but the last takes at least one byte of the text, so that reading tokens ends.
use rediskrazy.Base.{
  ℕ, zero, suc, ◌<◌, ◌≤◌, ◌≡◌, ◌≢◌, refl, true, List, [], ◌∷◌, length, drop, arith,
}
use rediskrazy.Lexer.{
  eof, Lexer, is_ident, skip_space, ident_front, quoted_front, skip_one, word_token, token_at,
  token_from, lexer_next,
}

skip_space-le : (s : List ℕ) → length (skip_space s) ≤ length s
unfolding skip_space
skip_space-le [] = omega arith
skip_space-le (c ∷ s) = ground (arith, skip_space-le s)

ident_front-le : (s : List ℕ) → length (ident_front s).1 ≤ length s
unfolding ident_front
ident_front-le [] = omega arith
ident_front-le (c ∷ s) = ground (arith, ident_front-le s)

quoted_front-le : (q : ℕ) (s : List ℕ) → length (quoted_front q s).1 ≤ length s
unfolding quoted_front
quoted_front-le q [] = omega arith
quoted_front-le q (c ∷ s) = ground (arith, quoted_front-le q s)

skip_one-le : (s : List ℕ) → length (skip_one s) ≤ length s
skip_one-le [] = omega arith
skip_one-le (c ∷ s) = omega arith

drop-le {ℓ} : {A : Type ℓ} (n : ℕ) (s : List A) → length (drop n s) ≤ length s
drop-le zero s = omega arith
drop-le (suc n) [] = omega arith
drop-le (suc n) (c ∷ s) = omega (arith, drop-le n s)

word_token-le : (text rest : List ℕ) → length (word_token text rest).1 ≤ length rest
unfolding word_token
word_token-le text rest = ground (arith, skip_space-le rest, drop-le 4 (skip_space rest))

ident_front-take :
    (c : ℕ) (s : List ℕ) → is_ident c ≡ true → length (ident_front (c ∷ s)).1 ≤ length s
unfolding ident_front
ident_front-take c s h = rw h (ident_front-le s)

token_at-le : (c : ℕ) (s : List ℕ) → length (token_at c s).1 ≤ length s
unfolding token_at
token_at-le c s = ground (
  arith,
  skip_one-le (quoted_front c s).1,
  quoted_front-le c s,
  word_token-le (ident_front (c ∷ s)).0 (ident_front (c ∷ s)).1,
  ident_front-take c s,
)

token_from-shorter :
    (t : List ℕ)
    → (length (token_from t).1 ≤ length t)
      × ((token_from t).0.type ≢ eof → length (token_from t).1 < length t)
unfolding token_from
token_from-shorter [] = (omega arith, λ n. absurd (n refl))
token_from-shorter (c ∷ s) = (omega (arith, token_at-le c s), λ n. omega (arith, token_at-le c s))

-- lexer_next never goes back, and every token but eof takes at least one byte of the text.
pub lexer_next-shorter :
    (src : Lexer)
    → (length (lexer_next src).1 ≤ length src)
      × ((lexer_next src).0.type ≢ eof → length (lexer_next src).1 < length src)
unfolding lexer_next
lexer_next-shorter src =
    let (a, b) = token_from-shorter (skip_space src) in
    (omega (arith, skip_space-le src), λ n. let h = b n in omega (arith, skip_space-le src))
