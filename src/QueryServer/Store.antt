-- ===== src/QueryServer/Store.antt =====
-- A command that reaches the store, and what the query server makes of its reply.
use rediskrazy.Base.{
  ◌>>=◌, ℕ, ◌*◌, ◌<◌, ◌≤◌, ◌^◌, ◌≡◌, refl, sym, ap, subst, ◌∙◌, true, false, none, some, List, [],
  ◌∷◌, ◌++◌, ◌==◌, length, map, codes, bytes_eq, All, Ends, ends, Ends-bind, Ends-map, Ends-option,
}
use rediskrazy.Base.{append-nil}
use rediskrazy.Sds.{Sds, sdssplitargs}
use rediskrazy.Resp.{request, resp_parse_array}
use rediskrazy.QueryServer.Request.{command_request-split, request_args-read, hgetall_length}
use rediskrazy.Dict.{Chain, Dict}
use rediskrazy.Dict.Contents.{IsDict, live_entry}
use rediskrazy.Dict.Expiry.{value_of, dict_get_correct}
use rediskrazy.Translator.{SqlResult}
use rediskrazy.QueryServer.{decimal, eol, command_request, request_args}
use rediskrazy.QueryServer.Answer.{Chunk, connected, receive, execute_redis_cmd}
use rediskrazy.QueryServer.Whole.{delivered, IsTimely, receive-delivered}
use rediskrazy.QueryServer.Reply.{Filled, unfilled, is_scan, read_reply}
use rediskrazy.QueryServer.Rows.{IsPrintable, IsDistinct, last_value, read_reply-fields}
use rediskrazy.Server.{Server, deref}
use rediskrazy.Server.Commands.{c_string, toupper}
use rediskrazy.Server.Hashes.{entries_of, fields_reply, handle_hgetall}
use rediskrazy.Server.Dispatch.{Others, dispatch, dispatch_more, handle_command, read_query}
use rediskrazy.Server.Handlers.{to_client, send_all-Sent}

handle_command-hgetall :
    (others : Others) (s : Server) (key : Sds) (now : ℕ)
    → handle_command others s (codes "HGETALL" ∷ key ∷ []) now ≡ handle_hgetall s (key ∷ []) now
unfolding handle_command dispatch dispatch_more toupper c_string bytes_eq
handle_command-hgetall others s key now = refl

-- The reply to HGETALL of a hash.
unfoldable pub hgetall_reply : Dict → List ℕ
hgetall_reply h = (42 ∷ (decimal (length (entries_of h) * 2) ++ eol)) ++ fields_reply (entries_of h)

-- HGETALL of a hash sends its fields.
handle_hgetall-sent :
    (s : Server) (key v : Sds) (l : Chain) (i : ℕ) (h : Dict) (now : ℕ)
    → IsDict s.g_hashes l
    → length l < 2 ^ 61
    → value_of (live_entry now key l) ≡ some v
    → deref s.hash_objects v ≡ some (i, h)
    → Ends
        (λ s'. s'.sent ≡ s.sent ++ to_client s.client (hgetall_reply h))
        (handle_hgetall s (key ∷ []) now)
unfolding handle_hgetall hgetall_reply
handle_hgetall-sent s key v l i h now w small live there =
    Ends-bind (dict_get_correct s.g_hashes l key now w small) λ (d, o) (w', p).
      Ends-option o (λ e. absurd (differ (sym e ∙ (p ∙ live))))
        (λ x e.
          let found : deref s.hash_objects x ≡ some (i, h) =
            ap (λ o. o >>= λ x. deref s.hash_objects x) (sym e ∙ (p ∙ live)) ∙ there in
          rw found (ends (send_all-Sent (record s { g_hashes = d }) _).sent))
  where
    differ : none ≡ some v → ⊥
    differ e = cc

read_query-request :
    (others : Others) (s : Server) (buf : List ℕ) (argv : List Sds) (n now : ℕ)
    → resp_parse_array (buf ++ []) ≡ some (request argv n)
    → read_query others s buf now ≡ handle_command others s argv now
unfolding read_query
read_query-request others s buf argv n now e =
    ap (λ b. read_query others s b now) (sym (append-nil buf)) ∙ rw (read_query, e) refl

executed :
    (res : SqlResult) (cmd resp : List ℕ) (chunks : List Chunk) (filled : Filled)
    → res.redis_cmd ≡ some cmd
    → command_request cmd ≡ some resp
    → read_reply res (receive [] chunks) ≡ some filled
    → execute_redis_cmd res (connected chunks) ≡ some (resp, filled)
unfolding execute_redis_cmd
executed res cmd resp chunks filled c q r = rw (execute_redis_cmd, c, q, r) refl

-- A command that is split into HGETALL and a key of at most 1015 bytes, which has a hash, on a new connection to the store: the store reads the
-- request of execute_redis_cmd and sends its reply, and when that has at most 65535 bytes and is what arrives, in chunks of which none is
-- empty and each is in time after the one before, execute_redis_cmd makes one row of it, in which each column has the last value in the hash
-- under the first 127 bytes of a name that is the column's, ignoring case, or is NULL. The columns are not one, and their names differ, the
-- command does not begin with HSCANALL, and the fields and values are free of the byte 0.
pub hgetall-read :
    (others : Others) (s : Server) (res : SqlResult) (cmd : List ℕ) (chunks : List Chunk)
    (key v : Sds) (l : Chain) (i : ℕ) (h : Dict) (now : ℕ)
    → IsDict s.g_hashes l
    → length l < 2 ^ 61
    → value_of (live_entry now key l) ≡ some v
    → deref s.hash_objects v ≡ some (i, h)
    → s.client ≡ true
    → s.sent ≡ []
    → res.redis_cmd ≡ some cmd
    → sdssplitargs cmd ≡ some (codes "HGETALL" ∷ key ∷ [])
    → length key ≤ 1015
    → is_scan (some cmd) ≡ false
    → (length res.headers == 1) ≡ false
    → IsDistinct res.headers
    → All IsPrintable (entries_of h)
    → length (entries_of h) < 2 ^ 30
    → IsTimely chunks
    → delivered chunks ≡ hgetall_reply h
    → length (hgetall_reply h) ≤ 65535
    → (resp : List ℕ) × Ends
        (λ s'.
          (s'.sent ≡ delivered chunks)
          × (execute_redis_cmd res (connected chunks)
              ≡ some (
                resp,
                record (unfilled res) {
                  rows = map (λ c. last_value c none (entries_of h)) res.headers ∷ [];
                },
              )))
        (read_query others s resp now)
unfolding hgetall_reply
hgetall-read others s res cmd chunks key v l i h now w small live there client new command split
      fits scan one distinct printable few timely whole short =
    let argv : List Sds = codes "HGETALL" ∷ key ∷ [] in
    let resp : List ℕ = 42 ∷ (decimal 2 ++ (eol ++ request_args argv)) in
    let asked =
      read_query-request others s resp argv (length resp) now
        (request_args-read argv (hgetall_length key fits) []) in
    let received : receive [] chunks ≡ hgetall_reply h =
      receive-delivered [] chunks
        ((decimal (length (entries_of h) * 2) ++ eol) ++ fields_reply (entries_of h)) timely whole
        short in
    let read =
      read_reply-fields res (entries_of h) (ap is_scan command ∙ scan) one distinct printable few in
    (
      resp,
      subst (Ends _) (sym (asked ∙ handle_command-hgetall others s key now)) (
          Ends-map (handle_hgetall-sent s key v l i h now w small live there) λ s' e. (
            e
                ∙ ap (λ c. s.sent ++ to_client c (hgetall_reply h)) client
                ∙ ap (λ x. x ++ hgetall_reply h) new
                ∙ sym whole,
            executed res cmd resp chunks _ command (command_request-split cmd argv split)
                (ap (read_reply res) received ∙ read),
          )),
    )
