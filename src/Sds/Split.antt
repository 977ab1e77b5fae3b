-- ===== src/Sds/Split.antt =====
-- Lines split into arguments.
use rediskrazy.Base.{
  ℕ, zero, suc, ◌<◌, ◌≤◌, ◌≡◌, ◌≢◌, refl, ap, Bool, false, Option, some, List, [], ◌∷◌, ◌++◌, ◌==◌,
  ◌||◌, arith, length, drop, Ends, ends, Ends-bind, Bool-cases, inl, inr, All, length-append,
}
use rediskrazy.Sds.{Sds, isspace, skip_isspace, until, split_arg, split_rounds, sdssplitargs}

skip_isspace-le : (s : List ℕ) → length (skip_isspace s) ≤ length s
unfolding skip_isspace
skip_isspace-le [] = omega arith
skip_isspace-le (c ∷ s) = ground (arith, skip_isspace-le s)

until-le : (stop : ℕ → Bool) (s : List ℕ) → length (until stop s).1 ≤ length s
unfolding until
until-le stop [] = omega arith
until-le stop (c ∷ s) = ground (arith, until-le stop s)

drop-le : (s : List ℕ) → length (drop 1 s) ≤ length s
drop-le [] = omega arith
drop-le (c ∷ s) = omega arith

until_word :
    (c : ℕ) (s : List ℕ) → isspace c ≡ false → (until isspace (c ∷ s)).1 ≡ (until isspace s).1
unfolding until
until_word c s h = ground arith

split_arg-le : (c : ℕ) (s : List ℕ) → isspace c ≡ false → length (split_arg c s).1 ≤ length s
unfolding split_arg
split_arg-le c s h = elim (Bool-cases ((c == 34) || (c == 39))) [
  | inl y ↦ rw y (omega (arith, drop-le (until (λ d. d == c) s).1, until-le (λ d. d == c) s))
  | inr n ↦ rw (n, until_word c s h) (until-le isspace s)
]

-- What is left behind the spaces begins with none.
skip_isspace-front : (s : List ℕ) (c : ℕ) (t : List ℕ) → skip_isspace s ≡ c ∷ t → isspace c ≡ false
unfolding skip_isspace
skip_isspace-front [] c t h = cc
skip_isspace-front (d ∷ s) c t h = ground (arith, skip_isspace-front s c t)

list_cases :
    {A : Type 0} {P : A → Type 0} {n : Option A} {f : ℕ → List ℕ → Option A} (l : List ℕ)
    → (l ≡ [] → Ends P n)
    → ((c : ℕ) (t : List ℕ) → l ≡ c ∷ t → Ends P (f c t))
    → Ends P (elim l [ [] ↦ n | c ∷ t ↦ f c t ])
list_cases [] p q = p refl
list_cases (c ∷ t) p q = q c t refl

split_rounds-Ends :
    (rounds : ℕ) (s : List ℕ)
    → length s < rounds
    → Ends (λ argv. length argv ≤ length s) (split_rounds rounds s)
unfolding split_rounds
split_rounds-Ends zero s h = absurd (omega arith)
split_rounds-Ends (suc rounds) s h =
    list_cases (skip_isspace s) (λ e. ends (omega arith))
      (λ c t e.
        let shorter = split_arg-le c t (skip_isspace-front s c t e) in
        let front : length t < length s = omega (arith, skip_isspace-le s, ap (length {A = ℕ}) e) in
        Ends-bind (split_rounds-Ends rounds (split_arg c t).1 (omega arith))
          λ argv z. ends (omega arith))

-- sdssplitargs returns on every line, with at most as many arguments as the line has bytes.
pub sdssplitargs-Ends :
    (line : List ℕ) → Ends (λ argv. length argv ≤ length line) (sdssplitargs line)
unfolding sdssplitargs
sdssplitargs-Ends line = split_rounds-Ends (suc (length line)) line (omega arith)

-- A word that stands for itself on a line: not empty, without spaces, not begun by a quote.
abbrev pub IsWord : Sds → Type 0
IsWord [] = ⊥
IsWord (c ∷ w) = (c ≢ 34) × (c ≢ 39) × All (λ d. isspace d ≡ false) (c ∷ w)

-- The words, each after a space.
abbrev pub spaced : List Sds → List ℕ
spaced [] = []
spaced (w ∷ argv) = 32 ∷ (w ++ spaced argv)

-- The words with single spaces between them.
abbrev pub line_of : List Sds → List ℕ
line_of [] = []
line_of (w ∷ argv) = w ++ spaced argv

until-word :
    (w rest : List ℕ)
    → All (λ d. isspace d ≡ false) w
    → until isspace (w ++ (32 ∷ rest)) ≡ (w, 32 ∷ rest)
unfolding until
until-word [] rest a = ground arith
until-word (c ∷ w) rest a = ground (arith, until-word w rest a.1, a.0)

until-last : (w : List ℕ) → All (λ d. isspace d ≡ false) w → until isspace (w ++ []) ≡ (w, [])
unfolding until
until-last [] a = refl
until-last (c ∷ w) a = ground (arith, until-last w a.1, a.0)

until-spaced :
    (w : List ℕ) (argv : List Sds)
    → All (λ d. isspace d ≡ false) w
    → until isspace (w ++ spaced argv) ≡ (w, spaced argv)
until-spaced w [] a = until-last w a
until-spaced w (v ∷ argv) a = until-word w (v ++ spaced argv) a

skip_one : (c : ℕ) (s : List ℕ) → isspace c ≡ false → skip_isspace (c ∷ s) ≡ c ∷ s
unfolding skip_isspace
skip_one c s h = ground arith

split_arg-word :
    (c : ℕ) (w : List ℕ) (argv : List Sds)
    → IsWord (c ∷ w)
    → split_arg c (w ++ spaced argv) ≡ (c ∷ w, spaced argv)
unfolding split_arg
split_arg-word c w argv a = let (x, y, z) = a in ground (arith, until-spaced (c ∷ w) argv z)

split_rounds-step :
    (rounds c : ℕ) (s t : List ℕ) (argv : List Sds) (w : Sds) (rest : List ℕ)
    → skip_isspace s ≡ c ∷ t
    → split_arg c t ≡ (w, rest)
    → split_rounds rounds rest ≡ some argv
    → split_rounds (suc rounds) s ≡ some (w ∷ argv)
unfolding split_rounds
split_rounds-step rounds c s t argv w rest e f g = rw (split_rounds, e, f, g) refl

no_words : (rounds : ℕ) → split_rounds (suc rounds) [] ≡ some []
unfolding split_rounds skip_isspace
no_words rounds = refl

after_space : (c : ℕ) (s : List ℕ) → isspace c ≡ false → skip_isspace (32 ∷ c ∷ s) ≡ c ∷ s
unfolding skip_isspace
after_space c s h = ground arith

split_rounds-spaced :
    (rounds : ℕ) (argv : List Sds)
    → All IsWord argv
    → length (spaced argv) < rounds
    → split_rounds rounds (spaced argv) ≡ some argv
split_rounds-spaced zero argv a h = absurd (omega arith)
split_rounds-spaced (suc rounds) [] a h = no_words rounds
split_rounds-spaced (suc rounds) ([] ∷ argv) a h = absurd a.0
split_rounds-spaced (suc rounds) ((c ∷ w) ∷ argv) a h =
    split_rounds-step rounds c (spaced ((c ∷ w) ∷ argv)) (w ++ spaced argv) argv (c ∷ w)
      (spaced argv) (after_space c (w ++ spaced argv) a.0.2.0) (split_arg-word c w argv a.0)
      (split_rounds-spaced rounds argv a.1 (omega (arith, length-append w (spaced argv))))

-- Words with single spaces between them are split into these words.
pub sdssplitargs-line_of :
    (argv : List Sds) → All IsWord argv → sdssplitargs (line_of argv) ≡ some argv
unfolding sdssplitargs
sdssplitargs-line_of [] a = no_words 0
sdssplitargs-line_of ([] ∷ argv) a = absurd a.0
sdssplitargs-line_of ((c ∷ w) ∷ argv) a =
    split_rounds-step (length (line_of ((c ∷ w) ∷ argv))) c (line_of ((c ∷ w) ∷ argv))
      (w ++ spaced argv) argv (c ∷ w) (spaced argv) (skip_one c (w ++ spaced argv) a.0.2.0)
      (split_arg-word c w argv a.0)
      (split_rounds-spaced _ argv a.1 (omega (arith, length-append w (spaced argv))))
