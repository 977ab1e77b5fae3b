-- ===== src/QueryServer/Decimal.antt =====
-- Numbers as the source prints them, read back.
use rediskrazy.Base.{
  ℕ, zero, suc, ◌+◌, ◌-◌, ◌*◌, ◌/◌, ◌%◌, ◌^◌, ◌<◌, ◌≤◌, ◌≡◌, ◌≢◌, refl, ap, ◌∙◌, true, false, some,
  List, [], ◌∷◌, ◌++◌, arith, length, length-append, All, All-append, ltb, dec_lt, All-imp,
}
use native.Mathlib.Omega.{pow_step}
use rediskrazy.Base.Int.{pos}
use rediskrazy.Resp.{digits, is_digit, atoi}
use rediskrazy.Resp.Encoding.{Writes}
use rediskrazy.QueryServer.{print_digits, decimal}

-- The digits read after the value `k` of those in front.
digits-append :
    (s : List ℕ) (k c : ℕ)
    → All (λ d. is_digit d ≡ true) s
    → is_digit c ≡ true
    → digits k (s ++ (c ∷ [])) ≡ digits k s * 10 + (c - 48)
unfolding digits
digits-append [] k c a h = ground arith
digits-append (d ∷ s) k c a h = ground (arith, digits-append s (k * 10 + (d - 48)) c a.1 h, a.0)

print_digits-All : (rounds n : ℕ) → All (λ d. is_digit d ≡ true) (print_digits rounds n)
unfolding print_digits
print_digits-All zero n = (ground arith, tt)
print_digits-All (suc rounds) n = elim (dec_lt n 10) [
  | yes y ↦ let h : ltb n 10 ≡ true = ground arith in rw h (ground arith, tt)
  | no z ↦
      let h : ltb n 10 ≡ false = ground arith in
      rw h (
        (All-append (λ d. is_digit d ≡ true) (print_digits rounds (n / 10)) _).1
          (print_digits-All rounds (n / 10), (ground arith, tt)))
]

one_digit : (n : ℕ) → n < 10 → digits 0 ((48 + n) ∷ []) ≡ n
unfolding digits
one_digit n h = ground arith

digits-print : (rounds n : ℕ) → n < 10 ^ suc rounds → digits 0 (print_digits rounds n) ≡ n
unfolding print_digits
digits-print zero n h = one_digit (n % 10) (omega arith) ∙ omega arith
digits-print (suc rounds) n h = elim (dec_lt n 10) [
  | yes y ↦ let test : ltb n 10 ≡ true = ground arith in rw test (one_digit n y)
  | no z ↦
      let test : ltb n 10 ≡ false = ground arith in
      let digit : is_digit (48 + n % 10) ≡ true = ground arith in
      let higher = digits-print rounds (n / 10) (omega (arith, pow_step 10 (suc rounds))) in
      rw test (
        digits-append (print_digits rounds (n / 10)) 0 (48 + n % 10)
          (print_digits-All rounds (n / 10)) digit
        ∙ omega (arith, higher))
]

length-print : (rounds n : ℕ) → length (print_digits rounds n) ≤ suc rounds
unfolding print_digits
length-print zero n = omega arith
length-print (suc rounds) n = elim (dec_lt n 10) [
  | yes y ↦ let test : ltb n 10 ≡ true = ground arith in rw test (omega arith)
  | no z ↦
      let test : ltb n 10 ≡ false = ground arith in
      rw test (
        omega (arith, length-append (print_digits rounds (n / 10)) _, length-print rounds (n / 10)))
]

atoi-digits :
    (s : List ℕ)
    → All (λ d. is_digit d ≡ true) s
    → digits 0 s < 2 ^ 31
    → atoi s ≡ some (pos (digits 0 s))
unfolding atoi digits
atoi-digits [] a h = refl
atoi-digits (c ∷ s) a h = ground (arith, a.0)

-- A number in the range of int is printed on a short line that atoi reads back.
pub decimal-Writes : (n : ℕ) → n < 2 ^ 31 → Writes (decimal n) n
unfolding decimal
decimal-Writes n h =
    let all = print_digits-All 20 n in
    let value = digits-print 20 n (omega arith) in
    record {
      value =
          atoi-digits (print_digits 20 n) all (omega (arith, value)) ∙ ap (λ k. some (pos k)) value;
      one_line = All-imp no_return (print_digits 20 n) all;
      short = omega (arith, length-print 20 n);
    }
  where
    no_return : (d : ℕ) → is_digit d ≡ true → d ≢ 13
    no_return d h e = ground arith

-- The digits, and their value.
pub decimal-digits :
    (n : ℕ) → n < 2 ^ 31 → All (λ d. is_digit d ≡ true) (decimal n) × (digits 0 (decimal n) ≡ n)
unfolding decimal
decimal-digits n h = (print_digits-All 20 n, digits-print 20 n (omega arith))

print_digits-first : (rounds n : ℕ) → 0 < length (print_digits rounds n)
unfolding print_digits
print_digits-first zero n = omega arith
print_digits-first (suc rounds) n = elim (dec_lt n 10) [
  | yes y ↦ let test : ltb n 10 ≡ true = ground arith in rw test (omega arith)
  | no z ↦
      let test : ltb n 10 ≡ false = ground arith in
      rw test (omega (arith, length-append (print_digits rounds (n / 10)) ((48 + n % 10) ∷ [])))
]

pub decimal-first : (n : ℕ) → 0 < length (decimal n)
unfolding decimal
decimal-first n = print_digits-first 20 n
