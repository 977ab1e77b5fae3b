-- ===== src/Resp.antt =====
-- backend/resp.h and resp.c: the parser of a request, an array of bulk strings.
-- A place in the input is its index `pos` and the bytes from there on, `in + pos`. `none` is a number out
-- of the range of int, in atoi or in `pos + len + 2`. malloc and sdsnewlen are taken to succeed.
pub mod Encoding
pub mod Prefix
pub mod Tests
use rediskrazy.Base.{
  ◌>>=◌, ℕ, zero, suc, ◌+◌, ◌-◌, ◌*◌, ◌^◌, Bool, true, false, ◌&&◌, ◌||◌, Option, none, some, List,
  [], ◌∷◌, ◌++◌, ltb, leb, ◌==◌, if◌then◌else◌, length, take, drop,
}
use rediskrazy.Base.Int.{ℤ, pos, negsuc, sub_ℕ}
use rediskrazy.Sds.{Sds}

-- The result 0, the result -1, or the arguments and the number of bytes read.
pub data Parsed : Type 0 where
  incomplete invalid : Parsed
  request : List Sds → ℕ → Parsed

abbrev pub is_digit : ℕ → Bool
is_digit c = leb 48 c && leb c 57

abbrev is_space : ℕ → Bool
is_space c = (c == 32) || (leb 9 c && leb c 13)

-- The digits at the front, after those with the value `n`.
unfoldable pub digits : ℕ → List ℕ → ℕ
digits n [] = n
digits n (c ∷ s) = if is_digit c then digits (n * 10 + (c - 48)) s else n

-- atoi, defined for results in the range of int.
unfoldable pub atoi : List ℕ → Option ℤ
unfolding digits
atoi [] = some (pos 0)
atoi (c ∷ s) =
    if is_space c
    then atoi s
    else (if c == 45
        then (if leb (digits 0 s) (2 ^ 31) then some (sub_ℕ 0 (digits 0 s)) else none)
        else (let n : ℕ = if c == 43 then digits 0 s else digits 0 (c ∷ s) in
            if ltb n (2 ^ 31) then some (pos n) else none))

-- At most `room` bytes up to a carriage return, and what comes after them.
unfoldable pub take_line : ℕ → List ℕ → List ℕ × List ℕ
take_line zero s = ([], s)
take_line (suc room) [] = ([], [])
take_line (suc room) (c ∷ s) =
    let (line, rest) = take_line room s in if c == 13 then ([], c ∷ s) else (c ∷ line, rest)

-- What follows the two bytes that end a line.
unfoldable pub after_crlf : List ℕ → Option (List ℕ)
after_crlf [] = none
after_crlf (c ∷ []) = none
after_crlf (c ∷ c' ∷ s) = if (c == 13) && (c' == 10) then some s else none

-- A line, what comes after it, and what `k` makes of its value, the index and the bytes behind its end.
unfoldable pub line_number : ℕ → List ℕ × List ℕ → (ℤ → ℕ → List ℕ → Option Parsed) → Option Parsed
line_number i (line, rest) k = elim (after_crlf rest) [
  | none ↦ some incomplete
  | some s' ↦ atoi line >>= λ n. k n (i + length line + 2) s'
]

-- The number on the line from `i` on, of at most 63 bytes before its end.
unfoldable pub read_number : ℕ → List ℕ → (ℤ → ℕ → List ℕ → Option Parsed) → Option Parsed
read_number i s k = line_number i (take_line 63 s) k

abbrev pub cons_argument : Sds → Parsed → Parsed
cons_argument a incomplete = incomplete
cons_argument a invalid = invalid
cons_argument a (request argv n) = request (a ∷ argv) n

-- The bulk string of `len` bytes from `i` on, and what `k` makes of the bytes behind it.
unfoldable pub read_bulk : ℕ → ℕ → List ℕ → (ℕ → List ℕ → Option Parsed) → Option Parsed
read_bulk len i s k =
    if ltb (i + len + 2) (2 ^ 31)
    then (if ltb (length s) (len + 2) then some incomplete else elim (after_crlf (drop len s)) [
      | none ↦ some incomplete
      | some s' ↦ k (i + len + 2) s' >>= λ p. some (cons_argument (take len s) p)
    ])
    else none

-- The loop over the `n` arguments.
unfoldable pub read_arguments : ℕ → ℕ → List ℕ → Option Parsed
read_arguments zero i s = some (request [] i)
read_arguments (suc n) i [] = some incomplete
read_arguments (suc n) i (c ∷ s) =
    if c == 36
    then read_number (i + 1) s (λ len i s. elim len [
      | negsuc _ ↦ some invalid
      | pos len ↦ read_bulk len i s (read_arguments n)
    ])
    else some invalid

unfoldable pub resp_parse_array : List ℕ → Option Parsed
resp_parse_array [] = some incomplete
resp_parse_array (c ∷ s) =
    if c == 42
    then read_number 1 s
        (λ n i s. elim n [ negsuc _ ↦ some (request [] i) | pos n ↦ read_arguments n i s ])
    else some invalid
