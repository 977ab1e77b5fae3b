-- ===== src/Server/Requests.antt =====
-- Requests as bytes, and the commands that they stand for.
use rediskrazy.Base.{
  ◌>>=◌, ℕ, ◌<◌, ◌≤◌, ◌^◌, ◌≡◌, refl, sym, ap, ◌∙◌, Option, none, some, List, [], ◌∷◌, ◌++◌, codes,
  length, map, arith, append-nil, All,
}
use rediskrazy.Resp.{incomplete, invalid, request}
use rediskrazy.QueryServer.{eol}
use rediskrazy.Sds.{Sds}
use rediskrazy.Resp.Encoding.{Encodes, resp_parse_array-Encodes}
use rediskrazy.Server.{Server, send_literal}
use rediskrazy.Server.Dispatch.{Others, handle_command, read_query}
use rediskrazy.Server.Main.{serve}
use rediskrazy.Server.Log.{set_record-Encodes, del_record-Encodes}
use rediskrazy.Server.Replay.{Op, set_op, del_op, args_of, record_of, IsSmall, run}

read_query-Encodes :
    (others : Others) (s : Server) (argv : List Sds) (buf : List ℕ) (now : ℕ)
    → Encodes argv buf
    → length buf < 2 ^ 31
    → read_query others s buf now ≡ handle_command others s argv now
unfolding read_query
read_query-Encodes others s argv buf now e h =
    ap (λ b. read_query others s b now) (sym (append-nil buf))
    ∙ ap
        (λ o. o >>= λ p. elim p [
          | incomplete ↦ some s
          | invalid ↦ send_literal s (codes "-ERR parse error" ++ eol) 17
          | request argv n ↦ handle_command others s argv now
        ])
        (resp_parse_array-Encodes [] e h)

-- A request that recv returns at once.
abbrev pub Fits : Op → Type 0
Fits op = length (record_of op) ≤ 4096

read_query-op :
    (others : Others) (s : Server) (op : Op) (now : ℕ)
    → Fits op
    → IsSmall op
    → read_query others s (record_of op) now ≡ handle_command others s (args_of op) now
read_query-op others s (set_op key val) now f (h, h') =
    read_query-Encodes others s _ _ now (set_record-Encodes key val (omega arith) (omega arith))
      (omega arith)
read_query-op others s (del_op key) now f h =
    read_query-Encodes others s _ _ now (del_record-Encodes key (omega arith)) (omega arith)

bind_same :
    {A B : Type 0}
    → (o : Option A) (f g : A → Option B) → ((a : A) → f a ≡ g a)
    → (o >>= f) ≡ (o >>= g)
bind_same none f g h = refl
bind_same (some a) f g h = h a

pub serve-run :
    (others : Others) (s : Server) (ops : List Op) (now : ℕ)
    → All Fits ops
    → All IsSmall ops
    → serve others s (map record_of ops) now ≡ run others s ops now
unfolding serve
serve-run others s [] now f a = refl
serve-run others s (op ∷ ops) now (f, fs) (a, small) =
    ap (λ o. o >>= λ s. serve others s (map record_of ops) now) (read_query-op others s op now f a)
    ∙ bind_same (handle_command others s (args_of op) now)
        (λ s. serve others s (map record_of ops) now) (λ s. run others s ops now)
        (λ s. serve-run others s ops now fs small)
