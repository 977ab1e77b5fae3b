-- ===== src/QueryServer/Answer.antt =====
-- query_processor/qp_server.c: execute_redis_cmd, and the answer that main sends for the line of a client.
use rediskrazy.Base.{
  ◌>>=◌, ℕ, ◌-◌, Bool, true, false, ◌&&◌, ◌||◌, Option, none, some, List, [], ◌∷◌, ◌++◌, leb, ◌==◌,
  if◌then◌else◌, length, get_elem?, take, codes,
}
use rediskrazy.Schema.{SchemaContext}
use rediskrazy.Translator.{SqlResult, process_sql}
use rediskrazy.QueryServer.{
  command_request, format_result_to_json, error_reply, json_reply, read_line,
}
use rediskrazy.Server.Commands.{c_string}
use rediskrazy.QueryServer.Reply.{Filled, unfilled, read_reply}

-- What one recv delivers, and whether select then finds more within its time.
pub record Chunk : Type 0 where
  pub bytes : List ℕ
  pub more : Bool

-- What becomes of the connection to the store.
pub data Connection : Type 0 where
  no_socket refused : Connection
  connected : List Chunk → Connection

abbrev pub ends_with_eol : List ℕ → Bool
ends_with_eol buf = elim (get_elem? buf (length buf - 2)) [
  | none ↦ false
  | some c ↦ elim (get_elem? buf (length buf - 1)) [
    | none ↦ false
    | some d ↦ (c == 13) && (d == 10)
  ]
]

abbrev pub is_long : List ℕ → Bool
is_long [] = false
is_long (c ∷ s) = (c == 42) || (c == 36)

-- Whether the loop receives more after `buf`.
unfoldable pub goes_on : List ℕ → Bool → Bool
goes_on buf more =
    if leb 4 (length buf) && ends_with_eol buf then (if is_long buf then more else false) else true

-- The loop that receives the reply into a buffer of 65536 bytes; no chunk, or one that is empty, is the end.
unfoldable pub receive : List ℕ → List Chunk → List ℕ
receive buf [] = buf
receive buf (chunk ∷ chunks) =
    let got : List ℕ = take (65535 - length buf) chunk.bytes in
    let rest = receive (buf ++ got) chunks in
    if length got == 0 then buf else if goes_on (buf ++ got) chunk.more then rest else buf ++ got

-- The bytes that are sent to the store, and the result.
unfoldable pub execute_redis_cmd : SqlResult → Connection → Option (List ℕ × Filled)
execute_redis_cmd res connection = elim (res.redis_cmd) [
  | none ↦ some ([], unfilled res)
  | some cmd ↦ elim connection [
    | no_socket ↦
        some ([], record (unfilled res) { error = some (codes "Could not create socket") })
    | refused ↦ some (
      [],
      record (unfilled res) {
        error = some (codes "Could not connect to Redis server on 127.0.0.1:6379");
      },
    )
    | connected chunks ↦ command_request cmd >>= λ resp.
        read_reply res (receive [] chunks) >>= λ filled. some (resp, filled)
  ]
]

-- The error, or the rows in JSON.
unfoldable pub filled_reply : Filled → List ℕ
filled_reply filled = elim (filled.error) [
  | some error ↦ error_reply error
  | none ↦ json_reply (format_result_to_json filled.headers filled.rows)
]

-- One round of the loop of main: what a client sends, what the store is sent, and what the client is sent.
unfoldable pub answer_query :
    SchemaContext → List ℕ → Connection → Option (SchemaContext × (List ℕ × List ℕ))
answer_query context received connection = elim (read_line 4095 received) [
  | [] ↦ some (context, ([], []))
  | c ∷ s ↦ process_sql context (c_string (c ∷ s)) >>= λ (context, res). elim (res.error) [
    | some error ↦ some (context, ([], error_reply error))
    | none ↦ execute_redis_cmd res connection >>= λ (resp, filled).
        some (context, (resp, filled_reply filled))
  ]
]
