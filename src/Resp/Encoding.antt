-- ===== src/Resp/Encoding.antt =====
-- Requests as clients write them, and what the parser makes of them, whole or cut short.
use rediskrazy.Base.{
  ◌>>=◌, ℕ, zero, suc, ◌+◌, ◌^◌, ◌<◌, ◌≤◌, ◌≡◌, refl, ap, ◌∙◌, ◌≢◌, Option, some, List, [], ◌∷◌,
  ◌++◌, length, take, drop, arith, append_assoc, length-append, take-append, drop-append, All,
}
use rediskrazy.Base.Int.{ℤ, pos}
use rediskrazy.Sds.{Sds}
use rediskrazy.Resp.{
  Parsed, request, atoi, take_line, after_crlf, line_number, read_number, cons_argument, read_bulk,
  read_arguments, resp_parse_array,
}

abbrev pub crlf : List ℕ
crlf = 13 ∷ 10 ∷ []

-- `d` writes the number `n` on a line of at most 63 bytes.
pub record Writes (d : List ℕ) (n : ℕ) : Type 0 where
  pub value : atoi d ≡ some (pos n)
  pub one_line : All (λ c. c ≢ 13) d
  pub short : length d ≤ 63

-- `s` encodes the arguments `argv`, each with its length before it.
pub data EncodesArguments : List Sds → List ℕ → Type 0 where
  no_arguments : EncodesArguments [] []
  argument :
      {a : Sds} {argv : List Sds} {d s : List ℕ}
      → Writes d (length a)
      → EncodesArguments argv s
      → EncodesArguments (a ∷ argv) (36 ∷ (d ++ (crlf ++ (a ++ (crlf ++ s)))))

-- `s` encodes the request with the arguments `argv`.
pub data Encodes : List Sds → List ℕ → Type 0 where
  array :
      {argv : List Sds} {d s : List ℕ}
      → Writes d (length argv)
      → EncodesArguments argv s
      → Encodes argv (42 ∷ (d ++ (crlf ++ s)))

pub take_line-line :
    (room : ℕ) (d s : List ℕ)
    → All (λ c. c ≢ 13) d
    → length d ≤ room
    → take_line room (d ++ (13 ∷ s)) ≡ (d, 13 ∷ s)
unfolding take_line
take_line-line zero [] s a h = refl
take_line-line zero (c ∷ d) s a h = absurd (omega arith)
take_line-line (suc room) [] s a h = ground arith
take_line-line (suc room) (c ∷ d) s a h =
    ground (arith, take_line-line room d s a.1 (omega arith), a.0)

pub line_number-value :
    (i : ℕ) (n : ℤ) (d s : List ℕ) (k : ℤ → ℕ → List ℕ → Option Parsed)
    → atoi d ≡ some n
    → line_number i (d, crlf ++ s) k ≡ k n (i + length d + 2) s
unfolding line_number after_crlf
line_number-value i n d s k h = rw h refl

pub read_number-Writes :
    (i n : ℕ) (d s : List ℕ) (k : ℤ → ℕ → List ℕ → Option Parsed)
    → Writes d n
    → read_number i (d ++ (crlf ++ s)) k ≡ k (pos n) (i + length d + 2) s
unfolding read_number
read_number-Writes i n d s k w =
    ap (λ p. line_number i p k) (take_line-line 63 d (10 ∷ s) w.one_line w.short)
    ∙ line_number-value i (pos n) d s k w.value

pub read_bulk-fits :
    (len i : ℕ) (s s' : List ℕ) (k : ℕ → List ℕ → Option Parsed)
    → i + len + 2 < 2 ^ 31
    → len + 2 ≤ length s
    → after_crlf (drop len s) ≡ some s'
    → read_bulk len i s k ≡ (k (i + len + 2) s' >>= λ p. some (cons_argument (take len s) p))
unfolding read_bulk
read_bulk-fits len i s s' k h r e = ground arith

pub read_bulk-whole :
    (i : ℕ) (a s : List ℕ) (k : ℕ → List ℕ → Option Parsed)
    → i + length a + 2 < 2 ^ 31
    → read_bulk (length a) i (a ++ (crlf ++ s)) k
      ≡ (k (i + length a + 2) s >>= λ p. some (cons_argument a p))
unfolding after_crlf
read_bulk-whole i a s k h =
    read_bulk-fits (length a) i (a ++ (crlf ++ s)) s k h
      (omega (arith, length-append a (crlf ++ s))) (ap after_crlf (drop-append a (crlf ++ s)))
    ∙ ap (λ t. k (i + length a + 2) s >>= λ p. some (cons_argument t p)) (take-append a (crlf ++ s))

pub encoded_length :
    (d a s : List ℕ)
    → length {A = ℕ} (36 ∷ (d ++ (crlf ++ (a ++ (crlf ++ s))))) ≡ length d + length a + length s + 5
encoded_length d a s =
    omega (arith, length-append d (crlf ++ (a ++ (crlf ++ s))), length-append a (crlf ++ s))

encoded_append :
    (d a s rest : List ℕ)
    → (d ++ (crlf ++ (a ++ (crlf ++ s)))) ++ rest ≡ d ++ (crlf ++ (a ++ (crlf ++ (s ++ rest))))
encoded_append d a s rest =
    append_assoc d (crlf ++ (a ++ (crlf ++ s))) rest
    ∙ ap (λ l. d ++ (crlf ++ l)) (append_assoc a (crlf ++ s) rest)

pub argument_step :
    (n i len : ℕ) (d s : List ℕ)
    → Writes d len
    → read_arguments (suc n) i (36 ∷ (d ++ (crlf ++ s)))
      ≡ read_bulk len (i + 1 + length d + 2) s (read_arguments n)
unfolding read_arguments
argument_step n i len d s w = read_number-Writes (i + 1) len d s _ w

-- The arguments are read back, with what follows them left alone.
read_arguments-whole :
    {argv : List Sds} {s : List ℕ} (i : ℕ) (rest : List ℕ)
    → EncodesArguments argv s
    → i + length s < 2 ^ 31
    → read_arguments (length argv) i (s ++ rest) ≡ some (request argv (i + length s))
read_arguments-whole i rest no_arguments h =
    unfold read_arguments in ap (λ n. some (request [] n)) (omega arith)
read_arguments-whole i rest (argument {a} {argv} {d} {s} w e) h =
    let size = encoded_length d a s in
    ap (λ l. read_arguments (length {A = Sds} (a ∷ argv)) i (36 ∷ l)) (encoded_append d a s rest)
    ∙ argument_step (length argv) i (length a) d (a ++ (crlf ++ (s ++ rest))) w
    ∙ read_bulk-whole (i + 1 + length d + 2) a (s ++ rest) (read_arguments (length argv))
        (omega arith)
    ∙ ap (λ o. o >>= λ p. some (cons_argument a p))
        (read_arguments-whole (i + 1 + length d + 2 + length a + 2) rest e (omega arith))
    ∙ ap (λ n. some (request (a ∷ argv) n)) (omega arith)

-- A request that is encoded is read back, whatever follows it, and exactly its bytes are taken.
pub resp_parse_array-Encodes :
    {argv : List Sds} {s : List ℕ} (rest : List ℕ)
    → Encodes argv s
    → length s < 2 ^ 31
    → resp_parse_array (s ++ rest) ≡ some (request argv (length s))
unfolding resp_parse_array
resp_parse_array-Encodes rest (array {argv} {d} {s} w e) h =
    let size : length {A = ℕ} (42 ∷ (d ++ (crlf ++ s))) ≡ length d + length s + 3 =
      omega (arith, length-append d (crlf ++ s)) in
    ap (λ l. resp_parse_array (42 ∷ l)) (append_assoc d (crlf ++ s) rest)
    ∙ read_number-Writes 1 (length argv) d (s ++ rest) _ w
    ∙ read_arguments-whole (1 + length d + 2) rest e (omega arith)
    ∙ ap (λ n. some (request argv n)) (omega arith)
