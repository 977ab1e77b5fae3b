-- ===== src/QueryServer/Whole.antt =====
-- A reply that fits the buffer of execute_redis_cmd is received whole.
use rediskrazy.Base.{
  ℕ, zero, suc, ◌+◌, ◌-◌, ◌<◌, ◌≤◌, ◌≡◌, refl, sym, ap, ◌∙◌, true, false, List, [], ◌∷◌, ◌++◌, ◌==◌,
  if◌then◌else◌, length, take, arith, append-nil, append_assoc, length-append, Bool-cases, inl, inr,
}
use rediskrazy.QueryServer.Answer.{Chunk, is_long, goes_on, receive}

-- The bytes of all chunks.
abbrev pub delivered : List Chunk → List ℕ
delivered [] = []
delivered (chunk ∷ chunks) = chunk.bytes ++ delivered chunks

-- No chunk is empty, and before the last one select finds more in time.
abbrev pub IsTimely : List Chunk → Type 0
IsTimely [] = Unit
IsTimely (chunk ∷ []) = 0 < length chunk.bytes
IsTimely (chunk ∷ next ∷ chunks) =
    (0 < length chunk.bytes) × (chunk.more ≡ true) × IsTimely (next ∷ chunks)

take_whole : (n : ℕ) (l : List ℕ) → length l ≤ n → take n l ≡ l
take_whole zero [] h = refl
take_whole (suc n) [] h = refl
take_whole zero (x ∷ l) h = absurd (omega arith)
take_whole (suc n) (x ∷ l) h = ap (λ m. x ∷ m) (take_whole n l (omega arith))

-- What is received of an array goes on as long as there is more.
goes_on_more : (buf : List ℕ) → is_long buf ≡ true → goes_on buf true ≡ true
unfolding goes_on
goes_on_more buf h = ground arith

receive-some :
    (buf : List ℕ) (chunk : Chunk) (chunks : List Chunk)
    → 0 < length chunk.bytes
    → length buf + length chunk.bytes ≤ 65535
    → receive buf (chunk ∷ chunks) ≡ (
        if goes_on (buf ++ chunk.bytes) chunk.more
        then receive (buf ++ chunk.bytes) chunks
        else buf ++ chunk.bytes)
unfolding receive
receive-some buf chunk chunks z s =
    let whole = take_whole (65535 - length buf) chunk.bytes (omega arith) in
    let some_bytes : (length chunk.bytes == 0) ≡ false = ground arith in
    rw (receive, whole, some_bytes) refl

abbrev head_or : ℕ → List ℕ → ℕ
head_or d [] = d
head_or d (c ∷ l) = c

long_prefix :
    (buf bytes rest t : List ℕ)
    → 0 < length bytes
    → buf ++ (bytes ++ rest) ≡ 42 ∷ t
    → is_long (buf ++ bytes) ≡ true
long_prefix [] [] rest t z e = absurd (omega arith)
long_prefix [] (b ∷ bytes) rest t z e = let first : b ≡ 42 = ap (head_or 0) e in rw first refl
long_prefix (c ∷ buf) bytes rest t z e = let first : c ≡ 42 = ap (head_or 0) e in rw first refl

-- An array of at most 65535 bytes that arrives in time is received as it was sent.
pub receive-delivered :
    (buf : List ℕ) (chunks : List Chunk) (t : List ℕ)
    → IsTimely chunks
    → buf ++ delivered chunks ≡ 42 ∷ t
    → length (42 ∷ t) ≤ 65535
    → receive buf chunks ≡ 42 ∷ t
receive-delivered buf [] t w e s = unfold receive in (sym (append-nil buf) ∙ e)
receive-delivered buf (chunk ∷ []) t w e s =
    let size = length-append buf chunk.bytes in
    let all : buf ++ chunk.bytes ≡ 42 ∷ t = ap (λ l. buf ++ l) (sym (append-nil chunk.bytes)) ∙ e in
    receive-some buf chunk [] w (omega (arith, size, ap length all))
    ∙ elim (Bool-cases (goes_on (buf ++ chunk.bytes) chunk.more)) [
      | inl y ↦ rw y (unfold receive in all)
      | inr n ↦ rw n all
    ]
receive-delivered buf (chunk ∷ next ∷ chunks) t (z, more, w) e s =
    let rest : List ℕ = delivered (next ∷ chunks) in
    let size = length-append buf (chunk.bytes ++ rest) in
    let size' = length-append chunk.bytes rest in
    let long = long_prefix buf chunk.bytes rest t z e in
    let on : goes_on (buf ++ chunk.bytes) chunk.more ≡ true =
      ap (goes_on (buf ++ chunk.bytes)) more ∙ goes_on_more (buf ++ chunk.bytes) long in
    receive-some buf chunk (next ∷ chunks) z (omega (arith, size, size', ap length e))
    ∙ rw on (
        receive-delivered (buf ++ chunk.bytes) (next ∷ chunks) t w
          (append_assoc buf chunk.bytes rest ∙ e) s)
