-- ===== src/QueryServer/Lines.antt =====
-- Numbers, bulk strings and names of fields in a reply, as the query server reads them.
use rediskrazy.Base.{
  ℕ, zero, suc, ◌+◌, ◌-◌, ◌*◌, ◌<◌, ◌≤◌, ◌^◌, ◌≡◌, refl, ap, ◌∙◌, true, false, some, List, [], ◌∷◌,
  ◌++◌, ◌==◌, min, length, length-append, take, drop, take-append, arith, All,
}
use rediskrazy.Base.Int.{pos}
use rediskrazy.Sds.{Sds}
use rediskrazy.Resp.{atoi, digits, is_digit}
use rediskrazy.QueryServer.{decimal}
use rediskrazy.QueryServer.Decimal.{decimal-digits, decimal-first}
use rediskrazy.QueryServer.Reply.{find_eol, line_at, copy, field_at, value_at}
use rediskrazy.Server.{bulk}
use rediskrazy.Server.Commands.{c_string}
use rediskrazy.Server.Log.{bulk-append}

digits-stop :
    (s : List ℕ) (k c : ℕ) (rest : List ℕ)
    → is_digit c ≡ false
    → All (λ d. is_digit d ≡ true) s
    → digits k (s ++ (c ∷ rest)) ≡ digits k s
unfolding digits
digits-stop [] k c rest h a = ground (arith, h)
digits-stop (d ∷ s) k c rest h (p, a) = rw p (digits-stop s (k * 10 + (d - 48)) c rest h a)

atoi-front :
    (d : ℕ) (s rest : List ℕ)
    → All (λ d. is_digit d ≡ true) (d ∷ s)
    → digits 0 (d ∷ s) < 2 ^ 31
    → atoi (d ∷ (s ++ (13 ∷ rest))) ≡ some (pos (digits 0 (d ∷ s)))
unfolding atoi
atoi-front d s rest a h =
    let same : digits 0 (d ∷ (s ++ (13 ∷ rest))) ≡ digits 0 (d ∷ s) =
      digits-stop (d ∷ s) 0 13 rest refl a in
    ground (arith, a.0, same)

find_eol-digits :
    (s rest : List ℕ)
    → All (λ d. is_digit d ≡ true) s
    → find_eol (s ++ (13 ∷ 10 ∷ rest)) ≡ some rest
unfolding find_eol
find_eol-digits [] rest a = refl
find_eol-digits (d ∷ s) rest (p, a) =
    let no_nul : (d == 0) ≡ false = ground (arith, p) in
    let no_return : (d == 13) ≡ false = ground (arith, p) in
    rw (no_nul, no_return) (find_eol-digits s rest a)

find_eol-skip :
    (c : ℕ) (s : List ℕ) → (c == 0) ≡ false → (c == 13) ≡ false → find_eol (c ∷ s) ≡ find_eol s
unfolding find_eol
find_eol-skip c s z r = rw (z, r) refl

line_at-digits :
    (c : ℕ) (s rest : List ℕ)
    → (c == 0) ≡ false
    → (c == 13) ≡ false
    → 0 < length s
    → All (λ d. is_digit d ≡ true) s
    → digits 0 s < 2 ^ 31
    → line_at (c ∷ (s ++ (13 ∷ 10 ∷ rest))) ≡ some (some (pos (digits 0 s), rest))
unfolding line_at
line_at-digits c [] rest z r f a h = absurd (omega arith)
line_at-digits c (d ∷ s) rest z r f a h =
    let next : find_eol (c ∷ d ∷ (s ++ (13 ∷ 10 ∷ rest))) ≡ some rest =
      find_eol-skip c (d ∷ (s ++ (13 ∷ 10 ∷ rest))) z r ∙ find_eol-digits (d ∷ s) rest a in
    rw (atoi-front d s (10 ∷ rest) a h, next) refl

-- A line with a number in front.
pub line_at-decimal :
    (c n : ℕ) (rest : List ℕ)
    → (c == 0) ≡ false
    → (c == 13) ≡ false
    → n < 2 ^ 31
    → line_at (c ∷ (decimal n ++ (13 ∷ 10 ∷ rest))) ≡ some (some (pos n, rest))
line_at-decimal c n rest z r h =
    let (a, v) = decimal-digits n h in
    line_at-digits c (decimal n) rest z r (decimal-first n) a (omega (arith, v))
    ∙ ap (λ k. some (some (pos k, rest))) v

-- No byte is 0.
abbrev pub IsCString : List ℕ → Type 0
IsCString s = All (λ c. (c == 0) ≡ false) s

c_string-whole : (s : List ℕ) → IsCString s → c_string s ≡ s
unfolding c_string
c_string-whole [] a = refl
c_string-whole (c ∷ s) (h, a) = rw h (ap (◌∷◌ c) (c_string-whole s a))

take-IsCString : (n : ℕ) (s : List ℕ) → IsCString s → IsCString (take n s)
take-IsCString zero s a = tt
take-IsCString (suc n) [] a = tt
take-IsCString (suc n) (c ∷ s) (h, a) = (h, take-IsCString n s a)

take-min : (s rest : List ℕ) (n : ℕ) → take (min (length s) n) (s ++ rest) ≡ take n s
take-min [] rest zero = refl
take-min [] rest (suc n) = ap (λ k. take k rest) {y = 0} (omega arith)
take-min (c ∷ s) rest zero = ap (λ k. take k (c ∷ (s ++ rest))) {y = 0} (omega arith)
take-min (c ∷ s) rest (suc n) =
    ap (λ k. take k (c ∷ (s ++ rest))) {y = suc (min (length s) n)} (omega arith)
    ∙ ap (◌∷◌ c) (take-min s rest n)

drop-plus_two : (s rest : List ℕ) → drop (length s + 2) (s ++ (13 ∷ 10 ∷ rest)) ≡ rest
drop-plus_two [] rest = refl
drop-plus_two (c ∷ s) rest =
    ap (λ k. drop k (c ∷ (s ++ (13 ∷ 10 ∷ rest)))) {y = suc (length s + 2)} (omega arith)
    ∙ drop-plus_two s rest

copy-enough : (n : ℕ) (s : List ℕ) → n ≤ length s → copy (pos n) s ≡ some (take n s)
unfolding copy
copy-enough n s h = ground arith

-- A value that was sent as a bulk string.
pub value_at-bulk :
    (v : Sds) (rest : List ℕ)
    → length v < 2 ^ 31
    → IsCString v
    → value_at (bulk v ++ rest) ≡ some (some (v, rest))
unfolding value_at
value_at-bulk v rest h a =
    let body : List ℕ = v ++ (13 ∷ 10 ∷ rest) in
    let line = ap line_at (bulk-append v rest) ∙ line_at-decimal 36 (length v) body refl refl h in
    let read = copy-enough (length v) body (omega (arith, length-append v (13 ∷ 10 ∷ rest))) in
    rw (line, read, take-append v (13 ∷ 10 ∷ rest), c_string-whole v a, drop-plus_two v rest) refl

-- The name of a field: its first 127 bytes.
pub field_at-bulk :
    (v : Sds) (rest : List ℕ)
    → length v < 2 ^ 31
    → IsCString v
    → field_at (bulk v ++ rest) ≡ some (some (take 127 v, rest))
unfolding field_at
field_at-bulk v rest h a =
    let body : List ℕ = v ++ (13 ∷ 10 ∷ rest) in
    let line = ap line_at (bulk-append v rest) ∙ line_at-decimal 36 (length v) body refl refl h in
    let read =
      copy-enough (min (length v) 127) body (omega (arith, length-append v (13 ∷ 10 ∷ rest))) in
    rw
      (
        line,
        read,
        take-min v (13 ∷ 10 ∷ rest) 127,
        c_string-whole (take 127 v) (take-IsCString 127 v a),
        drop-plus_two v rest,
      )
      refl
