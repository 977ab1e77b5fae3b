-- ===== src/Sds.antt =====
-- backend/sds.h and sds.c: sds strings by their content, sdscmp and sdssplitargs.
pub mod Order
pub mod Split
pub mod Header
pub mod Buffer
pub mod Growth
pub mod Updates
pub mod Tests
use Prim.Native.Nat.{Ordering}
use rediskrazy.Base.{
  ◌>>=◌, ℕ, zero, suc, ◌+◌, ◌-◌, ◌%◌, ◌^◌, Bool, ◌&&◌, ◌||◌, Option, none, some, List, [], ◌∷◌, ltb,
  leb, ◌==◌, if◌then◌else◌, length, drop,
}
use rediskrazy.Base.Int.{ℤ, pos, negsuc, int32, sign}

-- The `len` bytes of an sds.
abbrev pub Sds : Type 0
Sds = List ℕ

-- C's memcmp over `n` bytes, as unsigned chars. Only the sign of its result is specified.
unfoldable pub memcmp : Sds → Sds → ℕ → ℤ
memcmp s t zero = pos 0
memcmp (x ∷ s) (y ∷ t) (suc n) =
    if x == y then memcmp s t n else if ltb x y then negsuc 0 else pos 1
memcmp _ _ (suc n) = pos 0

-- The difference of the two size_t lengths wraps at 2 ^ 64 and is then cut down to an int.
unfoldable pub sdscmp : Sds → Sds → ℤ
unfolding memcmp
sdscmp s1 s2 =
    let l1 = length s1 in
    let l2 = length s2 in
    let minlen = if ltb l1 l2 then l1 else l2 in
    let cmp = memcmp s1 s2 minlen in
    elim (sign cmp) [ Ordering.eq ↦ int32 ((l1 + 2 ^ 64 - l2) % 2 ^ 64) | _ ↦ cmp ]

-- isspace, in the C locale.
abbrev pub isspace : ℕ → Bool
isspace c = (c == 32) || (leb 9 c && leb c 13)

-- while(*p && isspace(*p)) p++;
unfoldable pub skip_isspace : List ℕ → List ℕ
skip_isspace [] = []
skip_isspace (c ∷ s) = if isspace c then skip_isspace s else c ∷ s

-- The bytes up to the first that passes the test, and what is left from there on.
unfoldable pub until : (ℕ → Bool) → List ℕ → List ℕ × List ℕ
until stop [] = ([], [])
until stop (c ∷ s) =
    let (word, rest) = until stop s in if stop c then ([], c ∷ s) else (c ∷ word, rest)

-- One argument, which begins with `c`: in quotes, or up to a space.
unfoldable pub split_arg : ℕ → List ℕ → Sds × List ℕ
split_arg c s =
    if (c == 34) || (c == 39)
    then ((until (λ d. d == c) s).0, drop 1 (until (λ d. d == c) s).1)
    else until isspace (c ∷ s)

-- The loop of sdssplitargs; `none` is a loop that needs more rounds.
unfoldable pub split_rounds : ℕ → List ℕ → Option (List Sds)
split_rounds zero s = none
split_rounds (suc rounds) s = elim (skip_isspace s) [
  | [] ↦ some []
  | c ∷ t ↦ split_rounds rounds (split_arg c t).1 >>= λ argv. some ((split_arg c t).0 ∷ argv)
]

-- The arguments on a line; argc is the length of the result.
unfoldable pub sdssplitargs : List ℕ → Option (List Sds)
sdssplitargs line = split_rounds (suc (length line)) line
