-- ===== src/QueryServer/Reply.antt =====
-- query_processor/qp_server.c: what execute_redis_cmd makes of the reply of the store.
-- `text` is what `receive` of Answer returns, at most 65535 bytes, with the 0 behind it, and a pointer into it is the text from there on; a read behind
-- that 0 is `none`. A cell that is NULL is `none`, and a row that is NULL is the empty list.
use rediskrazy.Base.{
  ◌>>=◌, ℕ, zero, suc, ◌+◌, ◌-◌, ◌/◌, Bool, true, false, ◌&&◌, ◌||◌, Option, none, some, List, [],
  ◌∷◌, ◌++◌, ltb, leb, ◌==◌, if◌then◌else◌, length, get_elem?, take, drop, map, min, codes,
  bytes_eq,
}
use rediskrazy.Base.Int.{ℤ, pos, negsuc}
use rediskrazy.Sds.{until}
use rediskrazy.Lexer.{equal_ignoring_case}
use rediskrazy.Resp.{atoi}
use rediskrazy.Translator.{SqlResult}
use rediskrazy.Server.Commands.{c_string}

abbrev pub Row : Type 0
Row = List (Option (List ℕ))

-- The headers, rows and error of a result.
pub record Filled : Type 0 where
  pub headers : List (List ℕ)
  pub rows : List Row
  pub error : Option (List ℕ)

abbrev pub cells : List (List ℕ) → Row
cells row = map some row

-- The result before the reply.
abbrev pub unfilled : SqlResult → Filled
unfilled res = record { headers = res.headers; rows = map cells res.rows; error = res.error }

-- strstr(current, "\r\n") + 2
unfoldable pub find_eol : List ℕ → Option (List ℕ)
find_eol [] = none
find_eol (c ∷ s) =
    let later = find_eol s in
    if c == 0
    then none
    else if c == 13
    then elim s [ [] ↦ later | d ∷ t ↦ if d == 10 then some t else later ]
    else later

-- The number behind the first byte, and the next line, if there is one.
unfoldable pub line_at : List ℕ → Option (Option (ℤ × List ℕ))
line_at [] = none
line_at (c ∷ []) = none
line_at (c ∷ d ∷ s) = atoi (d ∷ s) >>= λ n. some (find_eol (c ∷ d ∷ s) >>= λ t. some (n, t))

-- memcpy of `n` bytes; a negative length is a read of nearly all addresses.
unfoldable pub copy : ℤ → List ℕ → Option (List ℕ)
copy (pos n) s = if leb n (length s) then some (take n s) else none
copy (negsuc n) s = none

-- current += n + 2, once `n` is known not to be negative.
abbrev pub behind : ℤ → List ℕ → List ℕ
behind (pos n) s = drop (n + 2) s
behind (negsuc n) s = []

-- (n < 127) ? n : 127
abbrev pub at_most_127 : ℤ → ℤ
at_most_127 (pos n) = pos (min n 127)
at_most_127 (negsuc n) = negsuc n

-- The name of a field, in a buffer of 128 bytes, and what follows it; the inner `none` is a missing line end.
unfoldable pub field_at : List ℕ → Option (Option (List ℕ × List ℕ))
field_at current = line_at current >>= λ o. elim o [
  | none ↦ some none
  | some line ↦
      copy (at_most_127 line.0) line.1 >>= λ b. some (some (c_string b, behind line.0 line.1))
]

-- A value and what follows it.
unfoldable pub value_at : List ℕ → Option (Option (List ℕ × List ℕ))
value_at current = line_at current >>= λ o. elim o [
  | none ↦ some none
  | some line ↦ copy line.0 line.1 >>= λ b. some (some (c_string b, behind line.0 line.1))
]

-- The value goes into the first column with the name of the field.
unfoldable pub put_cell : List (List ℕ) → List ℕ → List ℕ → Row → Row
put_cell [] name val row = row
put_cell (h ∷ headers) name val [] = []
put_cell (h ∷ headers) name val (x ∷ row) =
    let rest = put_cell headers name val row in
    if equal_ignoring_case h name then some val ∷ row else x ∷ rest

-- The loop over the fields of one row, `n` rounds.
unfoldable pub single_row : ℕ → List (List ℕ) → Row → List ℕ → Option Row
single_row zero headers row current = some row
single_row (suc n) headers row current = field_at current >>= λ o. elim o [
  | none ↦ some row
  | some f ↦ value_at f.1 >>= λ o. elim o [
    | none ↦ some row
    | some v ↦ single_row n headers (put_cell headers f.0 v.0 row) v.1
  ]
]

-- current[0] == c
abbrev pub is_at : ℕ → List ℕ → Option Bool
is_at c [] = none
is_at c (d ∷ s) = some (d == c)

-- A string behind a `$`: what `read` makes of it. The inner `none` leaves the loop, with `current` where it is or NULL.
abbrev pub dollar :
    (List ℕ → Option (Option (List ℕ × List ℕ)))
    → List ℕ
    → Option (Option (List ℕ × List ℕ) × Option (List ℕ))
dollar read current = is_at 36 current >>= λ b.
    if b then (read current >>= λ o. some (o, none)) else some (none, some current)

-- The loop over the fields of a row of HSCANALL: the row, and `current` after it, which may be NULL.
unfoldable pub scan_fields : ℕ → List (List ℕ) → Row → List ℕ → Option (Row × Option (List ℕ))
scan_fields zero headers row current = some (row, some current)
scan_fields (suc n) headers row current = dollar field_at current >>= λ r. elim (r.0) [
  | none ↦ some (row, r.1)
  | some f ↦ dollar value_at f.1 >>= λ r. elim (r.0) [
    | none ↦ some (row, r.1)
    | some v ↦ scan_fields n headers (put_cell headers f.0 v.0 row) v.1
  ]
]

-- n / 2, as rounds of a loop.
abbrev pub half : ℤ → ℕ
half (pos n) = n / 2
half (negsuc n) = 0

abbrev pub null_row : List (List ℕ) → Row
null_row headers = map (λ h. none) headers

-- The loop over the rows of HSCANALL.
unfoldable pub scan_rows : ℕ → List (List ℕ) → Option (List ℕ) → Option (List Row)
scan_rows zero headers current = some []
scan_rows (suc n) headers none = some []
scan_rows (suc n) headers (some current) = is_at 42 current >>= λ b. elim b [
  | false ↦ some []
  | true ↦ line_at current >>= λ o. elim o [
    | none ↦ some []
    | some line ↦ scan_fields (half line.0) headers (null_row headers) line.1 >>= λ r.
        scan_rows n headers r.1 >>= λ rows. some (r.0 ∷ rows)
  ]
]

-- The loop over the elements of a reply for one column, as that of KEYS.
unfoldable pub list_rows : ℕ → List ℕ → Option (List Row)
list_rows zero current = some []
list_rows (suc n) [] = none
list_rows (suc n) (c ∷ s) =
    if c == 36
    then (value_at (c ∷ s) >>= λ o. elim o [
      | none ↦ some []
      | some v ↦ list_rows n v.1 >>= λ rows. some ((some v.0 ∷ []) ∷ rows)
    ])
    else if c == 58
    then elim (find_eol (c ∷ s)) [
      | none ↦ some []
      | some t ↦ list_rows n t >>= λ rows. some ([] ∷ rows)
    ]
    else list_rows n (c ∷ s)

-- The rounds of `i < n`.
abbrev pub rounds : ℤ → ℕ
rounds (pos n) = n
rounds (negsuc n) = 0

-- strncmp(redis_cmd, "HSCANALL", 8) == 0
abbrev pub is_scan : Option (List ℕ) → Bool
is_scan none = false
is_scan (some cmd) = bytes_eq (take 8 cmd) (codes "HSCANALL")

-- An array.
unfoldable pub read_array : SqlResult → List ℕ → Option Filled
read_array res text = line_at text >>= λ o. elim o [
  | none ↦ some (unfilled res)
  | some line ↦
      let filled : Filled = unfilled res in
      if is_scan res.redis_cmd
      then (scan_rows (rounds line.0) res.headers (some line.1) >>= λ rows.
          some (record filled { rows = rows }))
      else if length res.headers == 1
      then (if ltb 0 (rounds line.0)
          then (list_rows (rounds line.0) line.1 >>= λ rows. some (record filled { rows = rows }))
          else some filled)
      else single_row ((rounds line.0 + 1) / 2) res.headers (null_row res.headers) line.1 >>= λ row.
          some (record filled { rows = row ∷ [] })
]

-- The first cell of the first row.
abbrev pub put_first_cell : List ℕ → List Row → List Row
put_first_cell val ((x ∷ row) ∷ rows) = (some val ∷ row) ∷ rows
put_first_cell val rows = rows

-- The second cell of the first row.
abbrev pub put_second_cell : List ℕ → List Row → List Row
put_second_cell val ((x ∷ y ∷ row) ∷ rows) = (x ∷ some val ∷ row) ∷ rows
put_second_cell val rows = rows

abbrev pub ends_line : ℕ → Bool
ends_line c = (c == 13) || ((c == 10) || (c == 0))

-- The string up to the next "\r\n".
unfoldable pub before_eol : List ℕ → List ℕ
before_eol [] = []
before_eol (c ∷ s) =
    let rest = before_eol s in
    if c == 0
    then []
    else if (c == 13) && (elim s [ [] ↦ false | d ∷ _ ↦ d == 10 ])
    then []
    else c ∷ rest

-- The carriage return before the last byte is cut off, with that byte.
abbrev pub without_eol : List ℕ → List ℕ
without_eol error = elim (get_elem? error (length error - 2)) [
  | none ↦ error
  | some c ↦ if leb 2 (length error) && (c == 13) then take (length error - 2) error else error
]

-- The part of execute_redis_cmd behind the receiving.
unfoldable pub read_reply : SqlResult → List ℕ → Option Filled
read_reply res [] = some (unfilled res)
read_reply res (c ∷ s) =
    let filled : Filled = unfilled res in
    let text : List ℕ = c ∷ (s ++ (0 ∷ [])) in
    if c == 43
    then some (record filled { rows = put_first_cell (until ends_line s).0 filled.rows })
    else if c == 36
    then some (elim (find_eol text) [
      | none ↦ filled
      | some p ↦ record filled { rows = put_second_cell (before_eol p) filled.rows }
    ])
    else if c == 42
    then read_array res text
    else if c == 45
    then some (record filled { error = some (without_eol (c_string s)) })
    else some filled
