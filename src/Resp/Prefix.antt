-- ===== src/Resp/Prefix.antt =====
-- A request that has not arrived in full: the parser waits, and never takes more than it was given.
use rediskrazy.Base.{
  ◌>>=◌, ℕ, zero, suc, ◌+◌, ◌-◌, ◌^◌, ◌<◌, ◌≤◌, ◌≡◌, refl, ap, ◌∙◌, ◌≢◌, Option, none, some, List,
  [], ◌∷◌, ◌++◌, length, take, arith, length-append, All,
}
use rediskrazy.Base.Int.{ℤ}
use rediskrazy.Sds.{Sds}
use rediskrazy.Resp.{
  Parsed, incomplete, take_line, after_crlf, line_number, read_number, cons_argument, read_bulk,
  read_arguments, resp_parse_array,
}
use rediskrazy.Base.{dec_lt}
use rediskrazy.Resp.Encoding.{
  crlf, Writes, EncodesArguments, no_arguments, argument, Encodes, array, read_number-Writes,
  read_bulk-whole, encoded_length, argument_step,
}

-- A line that is cut before its end.
take_line-cut :
    (room m : ℕ) (d s : List ℕ)
    → All (λ c. c ≢ 13) d
    → length d ≤ room
    → m < length d + 2
    → after_crlf (take_line room (take m (d ++ (crlf ++ s)))).1 ≡ none
unfolding take_line after_crlf
take_line-cut zero zero [] s a h r = refl
take_line-cut zero (suc zero) [] s a h r = refl
take_line-cut zero (suc (suc m)) [] s a h r = absurd (omega arith)
take_line-cut zero m (c ∷ d) s a h r = absurd (omega arith)
take_line-cut (suc room) zero d s a h r = refl
take_line-cut (suc room) (suc zero) [] s a h r = ground arith
take_line-cut (suc room) (suc (suc m)) [] s a h r = absurd (omega arith)
take_line-cut (suc room) (suc m) (c ∷ d) s a h r =
    ground (arith, take_line-cut room m d s a.1 (omega arith) (omega arith), a.0)

line_number-cut :
    (i : ℕ) (p : List ℕ × List ℕ) (k : ℤ → ℕ → List ℕ → Option Parsed)
    → after_crlf p.1 ≡ none
    → line_number i p k ≡ some incomplete
unfolding line_number
line_number-cut i (line, rest) k h = ground arith

read_number-cut :
    (i m : ℕ) (d s : List ℕ) (k : ℤ → ℕ → List ℕ → Option Parsed) {n : ℕ}
    → Writes d n
    → m < length d + 2
    → read_number i (take m (d ++ (crlf ++ s))) k ≡ some incomplete
unfolding read_number
read_number-cut i m d s k w h =
    line_number-cut i (take_line 63 (take m (d ++ (crlf ++ s)))) k
      (take_line-cut 63 m d s w.one_line w.short h)

-- A cut behind a line.
take-line :
    (m : ℕ) (d s : List ℕ) → take (length d + 2 + m) (d ++ (crlf ++ s)) ≡ d ++ (crlf ++ take m s)
take-line m [] s = ap (λ n. take n (crlf ++ s)) {x = 0 + 2 + m} {y = suc (suc m)} (omega arith)
take-line m (c ∷ d) s =
    ap (λ n. take n (c ∷ (d ++ (crlf ++ s)))) {x = suc (length d) + 2 + m}
      {y = suc (length d + 2 + m)} (omega arith)
    ∙ ap (◌∷◌ c) (take-line m d s)

read_bulk-short :
    (len i : ℕ) (s : List ℕ) (k : ℕ → List ℕ → Option Parsed)
    → i + len + 2 < 2 ^ 31
    → length s < len + 2
    → read_bulk len i s k ≡ some incomplete
unfolding read_bulk
read_bulk-short len i s k h r = ground arith

length-take-le {ℓ} : {A : Type ℓ} (m : ℕ) (l : List A) → length (take m l) ≤ m
length-take-le zero l = omega arith
length-take-le (suc m) [] = omega arith
length-take-le (suc m) (x ∷ l) = omega (arith, length-take-le m l)

-- Arguments cut short, in the length of the first one, in its bytes, or behind them.
read_bulk-cut :
    (i m : ℕ) (a s : List ℕ) (k : ℕ → List ℕ → Option Parsed)
    → i + length a + 2 < 2 ^ 31
    → ((m' : ℕ) → m ≡ length a + 2 + m' → k (i + length a + 2) (take m' s) ≡ some incomplete)
    → read_bulk (length a) i (take m (a ++ (crlf ++ s))) k ≡ some incomplete
read_bulk-cut i m a s k h rest = elim (dec_lt m (length a + 2)) [
  | yes q ↦
      read_bulk-short (length a) i (take m (a ++ (crlf ++ s))) k h
        (omega (arith, length-take-le m (a ++ (crlf ++ s))))
  | no q ↦
      let m' = m - (length a + 2) in
      let split : m ≡ length a + 2 + m' = omega arith in
      ap (λ n. read_bulk (length a) i (take n (a ++ (crlf ++ s))) k) split
      ∙ ap (λ l. read_bulk (length a) i l k) (take-line m' a s)
      ∙ read_bulk-whole i a (take m' s) k h
      ∙ ap (λ o. o >>= λ p. some (cons_argument a p)) (rest m' split)
]

read_arguments-cut :
    {argv : List Sds} {s : List ℕ} (i m : ℕ)
    → EncodesArguments argv s
    → i + length s < 2 ^ 31
    → m < length s
    → read_arguments (length argv) i (take m s) ≡ some incomplete
read_arguments-cut i m no_arguments h r = absurd (omega arith)
read_arguments-cut i zero (argument w e) h r = unfold read_arguments in refl
read_arguments-cut i (suc m) (argument {a} {argv} {d} {s} w e) h r =
    elim (dec_lt m (length d + 2)) [
      | yes q ↦ unfold read_arguments in read_number-cut (i + 1) m d (a ++ (crlf ++ s)) _ w q
      | no q ↦
          let size = encoded_length d a s in
          let m' = m - (length d + 2) in
          let split : m ≡ length d + 2 + m' = omega arith in
          ap
            (λ n.
              read_arguments (length {A = Sds} (a ∷ argv)) i
                (36 ∷ take n (d ++ (crlf ++ (a ++ (crlf ++ s))))))
            split
          ∙ ap (λ l. read_arguments (length {A = Sds} (a ∷ argv)) i (36 ∷ l))
              (take-line m' d (a ++ (crlf ++ s)))
          ∙ argument_step (length argv) i (length a) d (take m' (a ++ (crlf ++ s))) w
          ∙ read_bulk-cut (i + 1 + length d + 2) m' a s (read_arguments (length argv)) (omega arith)
              (λ m'' z.
                read_arguments-cut (i + 1 + length d + 2 + length a + 2) m'' e (omega arith)
                  (omega arith))
    ]

-- A request that is cut short anywhere is never taken for another or refused: the parser asks for more.
pub resp_parse_array-cut :
    {argv : List Sds} {s : List ℕ} (m : ℕ)
    → Encodes argv s
    → length s < 2 ^ 31
    → m < length s
    → resp_parse_array (take m s) ≡ some incomplete
unfolding resp_parse_array
resp_parse_array-cut zero (array w e) h r = refl
resp_parse_array-cut (suc m) (array {argv} {d} {s} w e) h r = go (dec_lt m (length d + 2))
  where
    go :
        Dec (m < length d + 2) → resp_parse_array (42 ∷ take m (d ++ (crlf ++ s))) ≡ some incomplete
    go (yes q) = read_number-cut 1 m d s _ w q
    go (no q) =
        let size = length-append d (crlf ++ s) in
        let m' = m - (length d + 2) in
        ap (λ n. resp_parse_array (42 ∷ take n (d ++ (crlf ++ s)))) {y = length d + 2 + m'}
          (omega arith)
        ∙ ap (λ l. resp_parse_array (42 ∷ l)) (take-line m' d s)
        ∙ read_number-Writes 1 (length argv) d (take m' s) _ w
        ∙ read_arguments-cut (1 + length d + 2) m' e (omega arith) (omega arith)
