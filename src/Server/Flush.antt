-- ===== src/Server/Flush.antt =====
-- What the record of FLUSHDB does when the log is read back.
use rediskrazy.Base.{
  ◌>>=◌, ℕ, suc, ◌<◌, ◌^◌, ◌≡◌, refl, ◌∙◌, Option, none, some, List, [], ◌∷◌, ◌++◌, length, arith,
  codes, bytes_eq,
}
use rediskrazy.Resp.{invalid, resp_parse_array, atoi, digits}
use rediskrazy.Resp.Encoding.{Writes, Encodes, array, no_arguments, argument}
use rediskrazy.QueryServer.{eol}
use rediskrazy.Server.{Server, line}
use rediskrazy.Server.Commands.{flush_record, handle_flushdb, toupper, c_string}
use rediskrazy.Server.Dispatch.{Others, handle_command, dispatch, load_rounds, load_aof}
use rediskrazy.Server.Log.{load_rounds-record, one_digit_Writes}
use rediskrazy.Server.Durable.{load_aof-rounds}

one-Writes : Writes (codes "1") 1
unfolding atoi digits
one-Writes = one_digit_Writes 49 1 refl (λ e. ground arith)

seven-Writes : Writes (codes "7") 7
unfolding atoi digits
seven-Writes = one_digit_Writes 55 7 refl (λ e. ground arith)

-- The record, without the two bytes at its end.
abbrev flush_command : List ℕ
flush_command = line (codes "*1") ++ (line (codes "$7") ++ line (codes "FLUSHDB"))

flush_command-Encodes : Encodes (codes "FLUSHDB" ∷ []) flush_command
flush_command-Encodes = array one-Writes (argument seven-Writes no_arguments)

eol_invalid : (rest : List ℕ) → resp_parse_array (13 ∷ rest) ≡ some invalid
unfolding resp_parse_array
eol_invalid rest = refl

load_rounds-invalid :
    (others : Others) (rounds : ℕ) (s : Server) (rest : List ℕ) (now : ℕ)
    → load_rounds others (suc rounds) s (13 ∷ rest) now ≡ some s
unfolding load_rounds
load_rounds-invalid others rounds s rest now = rw (eol_invalid rest) refl

bind_same :
    {A : Type 0} (o : Option A) (f : A → Option A) → ((a : A) → f a ≡ some a) → (o >>= f) ≡ o
bind_same none f h = refl
bind_same (some a) f h = h a

handle_command-flushdb :
    (others : Others) (s : Server) (now : ℕ)
    → handle_command others s (codes "FLUSHDB" ∷ []) now ≡ handle_flushdb s
unfolding handle_command dispatch toupper c_string bytes_eq
handle_command-flushdb others s now = refl

-- load_aof executes what FLUSHDB logs, and then stops: what the log holds behind it, of any later command, is not read.
pub flush_record-stops :
    (others : Others) (s : Server) (rest : List ℕ) (now : ℕ)
    → length (flush_record ++ rest) < 2 ^ 31
    → load_aof others s (flush_record ++ rest) now ≡ handle_flushdb s
flush_record-stops others s rest now h =
    load_aof-rounds others s (flush_record ++ rest) now h
    ∙ load_rounds-record others (length (flush_record ++ rest)) s (codes "FLUSHDB" ∷ []) _
        (eol ++ rest) now flush_command-Encodes (omega arith)
    ∙ bind_same (handle_command others s (codes "FLUSHDB" ∷ []) now)
        (λ s'. load_rounds others (length (flush_record ++ rest)) s' (eol ++ rest) now)
        (λ s'. load_rounds-invalid others _ s' (10 ∷ rest) now)
    ∙ handle_command-flushdb others s now
