-- ===== src/QueryServer/Rows.antt =====
-- The rows that are made of what the store's server sends.
use rediskrazy.Base.{
  ℕ, suc, ◌+◌, ◌*◌, ◌<◌, ◌^◌, ◌/◌, ◌≡◌, refl, ap, ◌∙◌, true, false, Option, none, some, List, [],
  ◌∷◌, ◌++◌, ◌==◌, if◌then◌else◌, length, take, map, arith, append_assoc, All, Bool-cases, inl, inr,
}
use rediskrazy.Base.Int.{pos}
use rediskrazy.Dict.{DictEntry, Chain}
use rediskrazy.Lexer.{equal_ignoring_case}
use rediskrazy.Lexer.Case.{other_word}
use rediskrazy.Translator.{SqlResult}
use rediskrazy.QueryServer.{decimal, eol}
use rediskrazy.QueryServer.Reply.{
  Row, unfilled, line_at, field_at, value_at, put_cell, single_row, null_row, is_scan, read_array,
  read_reply,
}
use rediskrazy.Server.{bulk}
use rediskrazy.Server.Hashes.{fields_reply}
use rediskrazy.QueryServer.Lines.{IsCString, line_at-decimal, value_at-bulk, field_at-bulk}

-- Keys and values that C reads in full.
abbrev pub IsPrintable : DictEntry → Type 0
IsPrintable e =
    (length e.key < 2 ^ 31) × (length e.val < 2 ^ 31) × IsCString e.key × IsCString e.val

-- The last of the values for a name, ignoring case and all behind 127 bytes, or else `old`.
abbrev pub last_value : List ℕ → Option (List ℕ) → Chain → Option (List ℕ)
last_value h old [] = old
last_value h old (e ∷ l) =
    last_value h (if equal_ignoring_case h (take 127 e.key) then some e.val else old) l

-- No two headers are the same, ignoring case.
abbrev pub IsDistinct : List (List ℕ) → Type 0
IsDistinct [] = Unit
IsDistinct (h ∷ headers) = All (λ h'. equal_ignoring_case h h' ≡ false) headers × IsDistinct headers

put_cell-map :
    (headers : List (List ℕ)) (name val : List ℕ) (f : List ℕ → Option (List ℕ))
    → IsDistinct headers
    → put_cell headers name val (map f headers)
      ≡ map (λ h. if equal_ignoring_case h name then some val else f h) headers
unfolding put_cell
put_cell-map [] name val f d = refl
put_cell-map (h ∷ headers) name val f (a, d) = elim (Bool-cases (equal_ignoring_case h name)) [
  | inl y ↦ rw y (ap (◌∷◌ (some val)) (others_stay headers a y))
  | inr n ↦ rw n (ap (◌∷◌ (f h)) (put_cell-map headers name val f d))
]
  where
    others_stay :
        (headers' : List (List ℕ))
        → All (λ h'. equal_ignoring_case h h' ≡ false) headers'
        → equal_ignoring_case h name ≡ true
        → map f headers'
          ≡ map (λ h'. if equal_ignoring_case h' name then some val else f h') headers'
    others_stay [] a y = refl
    others_stay (h' ∷ headers') (p, a) y =
        let no : equal_ignoring_case h' name ≡ false = other_word h name h' y p in
        rw no (ap (◌∷◌ (f h')) (others_stay headers' a y))

single_row-step :
    (n : ℕ) (headers : List (List ℕ)) (row : Row) (current name after val more : List ℕ)
    → field_at current ≡ some (some (name, after))
    → value_at after ≡ some (some (val, more))
    → single_row (suc n) headers row current
      ≡ single_row n headers (put_cell headers name val row) more
unfolding single_row
single_row-step n headers row current name after val more f v = rw (f, v) refl

-- The loop over the fields of a reply to HGETALL fills the row.
single_row-fields :
    (headers : List (List ℕ)) (f : List ℕ → Option (List ℕ)) (l : Chain) (rest : List ℕ)
    → IsDistinct headers
    → All IsPrintable l
    → single_row (length l) headers (map f headers) (fields_reply l ++ rest)
      ≡ some (map (λ h. last_value h (f h) l) headers)
unfolding single_row
single_row-fields headers f [] rest d a = refl
single_row-fields headers f (e ∷ l) rest d ((k, v, ck, cv), a) =
    let apart : fields_reply (e ∷ l) ++ rest
        ≡ bulk e.key ++ (bulk e.val ++ (fields_reply l ++ rest)) =
      append_assoc (bulk e.key) (bulk e.val ++ fields_reply l) rest
      ∙ ap (◌++◌ (bulk e.key)) (append_assoc (bulk e.val) (fields_reply l) rest) in
    ap (single_row (suc (length l)) headers (map f headers)) apart
    ∙ single_row-step (length l) headers (map f headers)
        (bulk e.key ++ (bulk e.val ++ (fields_reply l ++ rest))) (take 127 e.key)
        (bulk e.val ++ (fields_reply l ++ rest)) e.val (fields_reply l ++ rest)
        (field_at-bulk e.key (bulk e.val ++ (fields_reply l ++ rest)) k ck)
        (value_at-bulk e.val (fields_reply l ++ rest) v cv)
    ∙ ap (λ row. single_row (length l) headers row (fields_reply l ++ rest))
        (put_cell-map headers (take 127 e.key) e.val f d)
    ∙ single_row-fields headers
        (λ h. if equal_ignoring_case h (take 127 e.key) then some e.val else f h) l rest d a

-- The head of an array.
array_text :
    (n : ℕ) (body rest : List ℕ)
    → 42 ∷ (((decimal n ++ eol) ++ body) ++ rest) ≡ 42 ∷ (decimal n ++ (13 ∷ 10 ∷ (body ++ rest)))
array_text n body rest =
    ap (◌∷◌ 42)
      (append_assoc (decimal n ++ eol) body rest ∙ append_assoc (decimal n) eol (body ++ rest))

read_reply-array :
    (res : SqlResult) (n : ℕ) (body : List ℕ)
    → read_reply res ((42 ∷ (decimal n ++ eol)) ++ body)
      ≡ read_array res (42 ∷ (decimal n ++ (13 ∷ 10 ∷ (body ++ (0 ∷ [])))))
unfolding read_reply
read_reply-array res n body = ap (read_array res) (array_text n body (0 ∷ []))

read_array-row :
    (res : SqlResult) (n : ℕ) (text rest : List ℕ) (row : Row)
    → line_at text ≡ some (some (pos (n * 2), rest))
    → is_scan res.redis_cmd ≡ false
    → (length res.headers == 1) ≡ false
    → single_row n res.headers (null_row res.headers) rest ≡ some row
    → read_array res text ≡ some (record (unfilled res) { rows = row ∷ [] })
unfolding read_array
read_array-row res n text rest row h scan one r =
    let same : (n * 2 + 1) / 2 ≡ n = omega arith in rw (h, scan, one, same, r) refl

-- The reply of HGETALL fills one row: each column has the last value for its name.
pub read_reply-fields :
    (res : SqlResult) (l : Chain)
    → is_scan res.redis_cmd ≡ false
    → (length res.headers == 1) ≡ false
    → IsDistinct res.headers
    → All IsPrintable l
    → length l < 2 ^ 30
    → read_reply res ((42 ∷ (decimal (length l * 2) ++ eol)) ++ fields_reply l)
      ≡ some (record (unfilled res) { rows = map (λ h. last_value h none l) res.headers ∷ [] })
read_reply-fields res l scan one d a small =
    let body : List ℕ = fields_reply l ++ (0 ∷ []) in
    read_reply-array res (length l * 2) (fields_reply l)
    ∙ read_array-row res (length l) (42 ∷ (decimal (length l * 2) ++ (13 ∷ 10 ∷ body))) body
        (map (λ h. last_value h none l) res.headers)
        (line_at-decimal 42 (length l * 2) body refl refl (omega arith)) scan one
        (single_row-fields res.headers (λ h. none) l (0 ∷ []) d a)
