-- ===== src/Lexer/Tests.antt =====
-- The lexer at a concrete text.
use rediskrazy.Base.{◌<◌, ◌≤◌, ◌≢◌, length, codes}
use rediskrazy.Lexer.{eof, lexer_next}
use rediskrazy.Lexer.Progress.{lexer_next-shorter}

lexer_next-shorter_example :
    (length (lexer_next (codes " SELECT *")).1 ≤ length (codes " SELECT *"))
    × ((lexer_next (codes " SELECT *")).0.type ≢ eof
        → length (lexer_next (codes " SELECT *")).1 < length (codes " SELECT *"))
lexer_next-shorter_example = lexer_next-shorter (codes " SELECT *")
