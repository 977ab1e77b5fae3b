-- ===== src/Sds/Order.antt =====
-- sdscmp compares two strings byte by byte, a proper prefix first.
use Prim.Native.Nat.{compare, Ordering}
use Prim.Native.Nat.Ordering.{lt, eq, gt}
use rediskrazy.Base.{
  ℕ, zero, suc, ◌+◌, ◌-◌, ◌%◌, ◌^◌, ◌<◌, ◌≤◌, ◌≡◌, refl, ◌⊎◌, [], ◌∷◌, ltb, ◌==◌, if◌then◌else◌,
  length, arith,
}
use rediskrazy.Base.Int.{int32, sign}
use rediskrazy.Sds.{Sds, memcmp, sdscmp}

-- The lexicographic order of byte strings.
unfoldable pub lex : Sds → Sds → Ordering
lex [] [] = eq
lex [] (y ∷ t) = lt
lex (x ∷ s) [] = gt
lex (x ∷ s) (y ∷ t) = if x == y then lex s t else if ltb x y then lt else gt

abbrev or_by_length : Ordering → Sds → Sds → Ordering
or_by_length eq s t = compare (length s) (length t)
or_by_length o s t = o

-- memcmp over the shorter length decides, unless it finds no difference.
lex-memcmp :
    (s t : Sds) (n : ℕ)
    → (n ≡ length s) × (n ≤ length t) ⊎ (n ≡ length t) × (n ≤ length s)
    → or_by_length (sign (memcmp s t n)) s t ≡ lex s t
unfolding lex memcmp
lex-memcmp [] [] n h = ground arith
lex-memcmp [] (y ∷ t) zero h = ground arith
lex-memcmp [] (y ∷ t) (suc n) h = absurd (ground arith)
lex-memcmp (x ∷ s) [] zero h = ground arith
lex-memcmp (x ∷ s) [] (suc n) h = absurd (ground arith)
lex-memcmp (x ∷ s) (y ∷ t) zero h = absurd (ground arith)
lex-memcmp (x ∷ s) (y ∷ t) (suc n) h = ground (arith, lex-memcmp s t n)

sign-int32 :
    (a b : ℕ) → a < 2 ^ 31 → b < 2 ^ 31 → sign (int32 ((a + 2 ^ 64 - b) % 2 ^ 64)) ≡ compare a b
sign-int32 a b ha hb = ground arith

-- On strings shorter than 2 ^ 31 bytes the sign of sdscmp is the lexicographic order.
pub sdscmp-lex : (s t : Sds) → length s < 2 ^ 31 → length t < 2 ^ 31 → sign (sdscmp s t) ≡ lex s t
unfolding sdscmp
sdscmp-lex s t hs ht = ground (
  arith,
  lex-memcmp s t (if ltb (length s) (length t) then length s else length t),
  sign-int32 (length s) (length t),
)

pub lex_refl : (s : Sds) → lex s s ≡ eq
unfolding lex
lex_refl [] = refl
lex_refl (x ∷ s) = ground (arith, lex_refl s)

pub lex_swap : (s t : Sds) → (lex s t ≡ lt → lex t s ≡ gt) × (lex s t ≡ gt → lex t s ≡ lt)
unfolding lex
lex_swap [] [] = ground arith
lex_swap [] (y ∷ t) = ground arith
lex_swap (x ∷ s) [] = ground arith
lex_swap (x ∷ s) (y ∷ t) = ground (arith, lex_swap s t)

pub eq_of_lex : (s t : Sds) → lex s t ≡ eq → s ≡ t
unfolding lex
eq_of_lex [] [] h = refl
eq_of_lex [] (y ∷ t) h = ground arith
eq_of_lex (x ∷ s) [] h = ground arith
eq_of_lex (x ∷ s) (y ∷ t) h = ground (arith, eq_of_lex s t)

pub lex_trans : (s t u : Sds) → lex s t ≡ lt → lex t u ≡ lt → lex s u ≡ lt
unfolding lex
lex_trans [] [] u h k = ground arith
lex_trans [] (y ∷ t) [] h k = ground arith
lex_trans [] (y ∷ t) (z ∷ u) h k = refl
lex_trans (x ∷ s) [] u h k = ground arith
lex_trans (x ∷ s) (y ∷ t) [] h k = ground arith
lex_trans (x ∷ s) (y ∷ t) (z ∷ u) h k = ground (arith, lex_trans s t u)
