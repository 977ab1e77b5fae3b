-- ===== src/QueryServer.antt =====
-- query_processor/qp_server.c: the request that is sent for a command, what is made of the reply, the line of a client,
-- and the answer to the client.
-- The bytes that a socket delivers are a list.
pub mod Decimal
pub mod Reply
pub mod Answer
pub mod Lines
pub mod Rows
pub mod Whole
pub mod Store
pub mod ReplyTests
pub mod Request
pub mod Json
pub mod Tests
use rediskrazy.Base.{
  ◌>>=◌, ℕ, zero, suc, ◌+◌, ◌-◌, ◌*◌, ◌/◌, ◌%◌, Bool, true, false, Option, none, some, List, [],
  ◌∷◌, ◌++◌, ltb, ◌==◌, if◌then◌else◌, length, take, codes,
}
use rediskrazy.Sds.{Sds, sdssplitargs}
use rediskrazy.Schema.{SchemaContext}
use rediskrazy.Translator.{SqlResult, process_sql}

-- The digits of a number, as %d and %zu print them. The rounds are at least the number of digits.
unfoldable pub print_digits : ℕ → ℕ → List ℕ
print_digits zero n = (48 + n % 10) ∷ []
print_digits (suc rounds) n =
    let higher = print_digits rounds (n / 10) in
    if ltb n 10 then (48 + n) ∷ [] else higher ++ ((48 + n % 10) ∷ [])

unfoldable pub decimal : ℕ → List ℕ
decimal n = print_digits 20 n

abbrev pub eol : List ℕ
eol = 13 ∷ 10 ∷ []

-- The loop that writes the arguments.
unfoldable pub request_args : List Sds → List ℕ
request_args [] = []
request_args (a ∷ argv) = 36 ∷ (decimal (length a) ++ (eol ++ (a ++ (eol ++ request_args argv))))

-- The request of execute_redis_cmd.
unfoldable pub command_request : List ℕ → Option (List ℕ)
command_request redis_cmd = sdssplitargs redis_cmd >>= λ argv.
    some (42 ∷ (decimal (length argv) ++ (eol ++ request_args argv)))

-- One byte of a value in the answer.
unfoldable pub escaped : ℕ → List ℕ
escaped c =
    if c == 34
    then 92 ∷ 34 ∷ []
    else if c == 92
    then 92 ∷ 92 ∷ []
    else if c == 10
    then 92 ∷ 110 ∷ []
    else if c == 13
    then 92 ∷ 114 ∷ []
    else if c == 9
    then 92 ∷ 116 ∷ []
    else c ∷ []

-- The loop over the bytes of a value.
unfoldable pub escape : List ℕ → List ℕ
escape [] = []
escape (c ∷ v) = escaped c ++ escape v

-- snprintf into temp_col[256].
abbrev pub temp_col : List ℕ → List ℕ
temp_col header = take 255 (34 ∷ (header ++ (34 ∷ 58 ∷ 32 ∷ [])))

-- The loop over the columns of a row, from index `c` on; an absent cell is null.
unfoldable pub json_cells : ℕ → List (List ℕ) → List (Option (List ℕ)) → List ℕ
json_cells c [] row = []
json_cells c (h ∷ headers) row =
    (if ltb 0 c then codes ", " else [])
    ++ (temp_col h
        ++ (elim row [
          | [] ↦ codes "null"
          | v ∷ _ ↦ elim v [ none ↦ codes "null" | some v ↦ 34 ∷ (escape v ++ (34 ∷ [])) ]
        ]
            ++ json_cells (suc c) headers (elim row [ [] ↦ [] | _ ∷ l ↦ l ])))

-- The loop over the rows, from index `r` on.
unfoldable pub json_rows : ℕ → List (List ℕ) → List (List (Option (List ℕ))) → List ℕ
json_rows r headers [] = []
json_rows r headers (row ∷ rows) =
    (if ltb 0 r then codes ", " else [])
    ++ (123 ∷ (json_cells 0 headers row ++ (125 ∷ json_rows (suc r) headers rows)))

-- format_result_to_json, of the headers and rows of a result.
unfoldable pub format_result_to_json : List (List ℕ) → List (List (Option (List ℕ))) → List ℕ
format_result_to_json headers rows = 91 ∷ (json_rows 0 headers rows ++ (93 ∷ []))

-- The loop that reads the line of a query: up to a newline, without carriage returns, `room` bytes at most.
unfoldable pub read_line : ℕ → List ℕ → List ℕ
read_line room [] = []
read_line zero (c ∷ s) = []
read_line (suc room) (c ∷ s) =
    let rest = read_line room s in
    let same = read_line (suc room) s in if c == 10 then [] else if c == 13 then same else c ∷ rest

-- What the client is sent for an error.
unfoldable pub error_reply : List ℕ → List ℕ
error_reply error = take 511 (codes "-ERR " ++ (error ++ eol))

-- What the client is sent for a result.
unfoldable pub json_reply : List ℕ → List ℕ
json_reply json = 36 ∷ (decimal (length json) ++ (eol ++ (json ++ eol)))
