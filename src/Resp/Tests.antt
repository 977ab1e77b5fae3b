-- ===== src/Resp/Tests.antt =====
-- Runs of the parser, and its theorems at concrete inputs.
use rediskrazy.Base.{ℕ, ◌≡◌, refl, some, List, [], ◌∷◌, ◌++◌, length, take, arith}
use rediskrazy.Resp.{
  request, incomplete, invalid, atoi, digits, resp_parse_array, read_number, read_arguments,
  line_number, take_line, after_crlf,
}
use rediskrazy.Resp.Encoding.{
  crlf, Writes, Encodes, array, no_arguments, argument, resp_parse_array-Encodes,
}
use rediskrazy.Resp.Prefix.{resp_parse_array-cut}

-- An array whose first element is not a bulk string.
refused : resp_parse_array (42 ∷ 49 ∷ 13 ∷ 10 ∷ 58 ∷ []) ≡ some invalid
unfolding resp_parse_array read_number read_arguments line_number take_line after_crlf atoi digits
refused = refl

-- The digits 1 and 2.
one_Writes : Writes (49 ∷ []) 1
unfolding atoi digits
one_Writes = record { value = refl; one_line = ((λ e. ground arith), tt); short = omega arith }

two_Writes : Writes (50 ∷ []) 2
unfolding atoi digits
two_Writes = record { value = refl; one_line = ((λ e. ground arith), tt); short = omega arith }

-- The request with the arguments "G" and "xy".
abbrev request_G : List ℕ
request_G =
    42
    ∷ ((50 ∷ [])
        ++ (crlf
            ++ (36
                ∷ ((49 ∷ [])
                    ++ (crlf
                        ++ ((71 ∷ [])
                            ++ (crlf
                                ++ (36
                                    ∷ ((50 ∷ [])
                                        ++ (crlf ++ ((120 ∷ 121 ∷ []) ++ (crlf ++ []))))))))))))

request_G-Encodes : Encodes ((71 ∷ []) ∷ (120 ∷ 121 ∷ []) ∷ []) request_G
request_G-Encodes = array two_Writes (argument one_Writes (argument two_Writes no_arguments))

resp_parse_array-Encodes_example :
    resp_parse_array (request_G ++ (42 ∷ []))
    ≡ some (request ((71 ∷ []) ∷ (120 ∷ 121 ∷ []) ∷ []) (length request_G))
resp_parse_array-Encodes_example =
    resp_parse_array-Encodes (42 ∷ []) request_G-Encodes (omega arith)

resp_parse_array-cut_example : resp_parse_array (take 13 request_G) ≡ some incomplete
resp_parse_array-cut_example = resp_parse_array-cut 13 request_G-Encodes (omega arith) (omega arith)
