-- ===== src/QueryServer/Json.antt =====
-- A value in the answer, as a reader of JSON strings takes it.
use rediskrazy.Base.{
  ◌>>=◌, ◌||◌, ltb, leb, All, ℕ, ◌≡◌, refl, ap, ◌∙◌, Bool, true, false, Option, none, some, List,
  [], ◌∷◌, ◌++◌, ◌==◌, arith, if◌then◌else◌, append_assoc, ℕ_discrete,
}
use rediskrazy.QueryServer.{escaped, escape}

-- The byte that the letter behind a backslash stands for. The form with u and four digits is left out: no value is written with it.
abbrev pub unescaped : ℕ → Option ℕ
unescaped c =
    if (c == 34) || ((c == 92) || (c == 47))
    then some c
    else if c == 98
    then some 8
    else if c == 102
    then some 12
    else if c == 110
    then some 10
    else if c == 114
    then some 13
    else if c == 116
    then some 9
    else none

abbrev pub put_first : ℕ → Option (List ℕ × List ℕ) → Option (List ℕ × List ℕ)
put_first c none = none
put_first c (some x) = some (c ∷ x.0, x.1)

-- The string up to its closing quote, and what is behind it; `after` tells that a backslash is in front. A control byte, or another
-- letter behind a backslash, is an error.
unfoldable pub read_string : Bool → List ℕ → Option (List ℕ × List ℕ)
read_string after [] = none
read_string after (c ∷ s) =
    let rest = read_string false s in
    let next = read_string true s in
    if after
    then (unescaped c >>= λ b. put_first b rest)
    else if c == 34
    then some ([], s)
    else if c == 92
    then next
    else if ltb c 32
    then none
    else put_first c rest

-- A byte that is no control byte, or a tab, newline or carriage return.
abbrev pub is_written : ℕ → Bool
is_written c = leb 32 c || ((c == 9) || ((c == 10) || (c == 13)))

-- One byte of a value, and what follows.
escaped-read :
    (c : ℕ) (s : List ℕ)
    → is_written c ≡ true
    → read_string false (escaped c ++ s) ≡ put_first c (read_string false s)
unfolding escaped read_string
escaped-read c s w = elim (ℕ_discrete c 34) [
  | yes e ↦ rw e refl
  | no n ↦ elim (ℕ_discrete c 92) [
    | yes e ↦ rw e refl
    | no n1 ↦ elim (ℕ_discrete c 10) [
      | yes e ↦ rw e refl
      | no n2 ↦ elim (ℕ_discrete c 13) [
        | yes e ↦ rw e refl
        | no n3 ↦ elim (ℕ_discrete c 9) [
          | yes e ↦ rw e refl
          | no n4 ↦
              let as_it_is : escaped c ≡ c ∷ [] = ground arith in
              ap (λ l. read_string false (l ++ s)) as_it_is ∙ ground arith
        ]
      ]
    ]
  ]
]

-- Every value in the answer, of bytes that are no control bytes but tabs, newlines and carriage returns, is read back as it was from its
-- quoted form by a reader that refuses raw control bytes and unknown escapes, and never ends the string early.
pub escape-read :
    (v rest : List ℕ)
    → All (λ c. is_written c ≡ true) v
    → read_string false (escape v ++ (34 ∷ rest)) ≡ some (v, rest)
unfolding escape
escape-read [] rest a = unfold read_string in refl
escape-read (c ∷ v) rest (w, a) =
    ap (read_string false) (append_assoc (escaped c) (escape v) (34 ∷ rest))
    ∙ escaped-read c (escape v ++ (34 ∷ rest)) w
    ∙ ap (put_first c) (escape-read v rest a)
