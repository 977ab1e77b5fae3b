-- ===== src/Server/Log.antt =====
-- The records of the log, as load_aof reads them back.
use rediskrazy.Base.{
  ◌>>=◌, ℕ, suc, ◌+◌, ◌<◌, ◌≤◌, ◌^◌, ◌≡◌, ◌≢◌, refl, sym, ap, subst, ◌∙◌, some, List, [], ◌∷◌, ◌++◌,
  length, drop, drop-append, length-append, arith, codes, append-nil, append_assoc,
}
use rediskrazy.Base.Int.{pos}
use rediskrazy.Sds.{Sds}
use rediskrazy.Resp.{incomplete, invalid, request, atoi, digits}
use rediskrazy.Resp.Encoding.{
  crlf, Writes, Encodes, EncodesArguments, array, no_arguments, argument, resp_parse_array-Encodes,
}
use rediskrazy.QueryServer.{decimal, eol}
use rediskrazy.QueryServer.Decimal.{decimal-Writes}
use rediskrazy.Server.{Server, bulk, set_record, del_record}
use rediskrazy.Server.Dispatch.{Others, handle_command, load_rounds}

pub one_digit_Writes : (c n : ℕ) → atoi (c ∷ []) ≡ some (pos n) → c ≢ 13 → Writes (c ∷ []) n
one_digit_Writes c n h m = record { value = h; one_line = (m, tt); short = omega arith }

two-Writes : Writes (codes "2") 2
unfolding atoi digits
two-Writes = one_digit_Writes 50 2 refl (λ e. ground arith)

three-Writes : Writes (codes "3") 3
unfolding atoi digits
three-Writes = one_digit_Writes 51 3 refl (λ e. ground arith)

-- A bulk string in front of more.
pub bulk-append :
    (a : Sds) (s : List ℕ) → bulk a ++ s ≡ 36 ∷ (decimal (length a) ++ (crlf ++ (a ++ (crlf ++ s))))
bulk-append a s = ap (◌∷◌ 36) (
    append_assoc (decimal (length a)) (crlf ++ (a ++ crlf)) s
    ∙ ap (λ l. decimal (length a) ++ (crlf ++ l)) (append_assoc a crlf s))

bulk-Encodes :
    (a : Sds) {argv : List Sds} {s : List ℕ}
    → length a < 2 ^ 31
    → EncodesArguments argv s
    → EncodesArguments (a ∷ argv) (bulk a ++ s)
bulk-Encodes a {argv} {s} h e =
    subst (EncodesArguments (a ∷ argv)) (sym (bulk-append a s))
      (argument (decimal-Writes (length a) h) e)

last-Encodes : (a : Sds) → length a < 2 ^ 31 → EncodesArguments (a ∷ []) (bulk a)
last-Encodes a h =
    subst (EncodesArguments (a ∷ [])) (append-nil (bulk a)) (bulk-Encodes a h no_arguments)

-- What is logged for SET and DEL encodes the command.
pub set_record-Encodes :
    (key val : Sds)
    → length key < 2 ^ 31
    → length val < 2 ^ 31
    → Encodes (codes "SET" ∷ key ∷ val ∷ []) (set_record key val)
set_record-Encodes key val h h' =
    array three-Writes (argument three-Writes (bulk-Encodes key h (last-Encodes val h')))

pub del_record-Encodes :
    (key : Sds) → length key < 2 ^ 31 → Encodes (codes "DEL" ∷ key ∷ []) (del_record key)
del_record-Encodes key h = array two-Writes (argument three-Writes (last-Encodes key h))

length-bulk : (a : Sds) → length a < 2 ^ 31 → length (bulk a) ≤ length a + 68
length-bulk a h =
    let short = (decimal-Writes (length a) h).short in
    omega
      (arith, length-append (decimal (length a)) (eol ++ (a ++ eol)), length-append a eol, short)

-- The records are hardly longer than what they hold.
pub set_record-short :
    (key val : Sds)
    → length key < 2 ^ 29
    → length val < 2 ^ 29
    → length (set_record key val) ≤ length key + length val + 150
set_record-short key val h h' = omega (
  arith,
  length-append (bulk key) (bulk val),
  length-bulk key (omega arith),
  length-bulk val (omega arith),
)

pub del_record-short :
    (key : Sds) → length key < 2 ^ 29 → length (del_record key) ≤ length key + 150
del_record-short key h = omega (arith, length-bulk key (omega arith))

-- One command at the front of the log is executed, and the rest of the log is read behind it.
pub load_rounds-record :
    (others : Others) (rounds : ℕ) (s : Server) (argv : List Sds) (r rest : List ℕ) (now : ℕ)
    → Encodes argv (42 ∷ r)
    → length {A = ℕ} (42 ∷ r) < 2 ^ 31
    → load_rounds others (suc rounds) s ((42 ∷ r) ++ rest) now
      ≡ (handle_command others s argv now >>= λ s. load_rounds others rounds s rest now)
unfolding load_rounds
load_rounds-record others rounds s argv r rest now e h =
    ap
      (λ o. o >>= λ p. elim p [
        | incomplete ↦ some s
        | invalid ↦ some s
        | request argv n ↦ handle_command others s argv now >>= λ s.
            load_rounds others rounds s (drop n (42 ∷ (r ++ rest))) now
      ])
      (resp_parse_array-Encodes rest e h)
    ∙ ap (λ l. handle_command others s argv now >>= λ s. load_rounds others rounds s l now)
        (drop-append (42 ∷ r) rest)
