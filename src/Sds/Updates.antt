-- ===== src/Sds/Updates.antt =====
-- A string under any sequence of updates.
use rediskrazy.Base.{
  Ends-some, ◌>>=◌, ℕ, ◌<◌, ◌^◌, ◌≡◌, refl, sym, subst, Option, some, List, [], ◌∷◌, ◌++◌,
  Bool-cases, inl, inr, ◌==◌, if◌then◌else◌, length, length-append, take, arith, Ends, ends,
  Ends-bind,
}
use rediskrazy.Sds.Header.{Sdshdr, sdsnewlen, sdscatlen, sdscpylen, sdsdup, sdscat, sdscpy, strlen}
use rediskrazy.Sds.Growth.{IsSds, sdscatlen-IsSds, sdscpylen-IsSds, sdsnewlen-IsSds, content-IsSds}

-- What is done to a string after it is made.
pub data Update : Type 0 where
  cat : List ℕ → Update
  cpy : List ℕ → Update
  cat_str : List ℕ → Update
  cpy_str : List ℕ → Update

unfoldable pub update : Sdshdr → Update → Option Sdshdr
update s (cat t) = sdscatlen s t
update s (cpy t) = sdscpylen s t
update s (cat_str t) = sdscat s (t ++ (0 ∷ []))
update s (cpy_str t) = sdscpy s (t ++ (0 ∷ []))

unfoldable pub updates : Sdshdr → List Update → Option Sdshdr
updates s [] = some s
updates s (u ∷ us) = update s u >>= λ s. updates s us

-- The bytes in front of the first 0.
unfoldable pub before_zero : List ℕ → List ℕ
before_zero [] = []
before_zero (c ∷ s) = if c == 0 then [] else c ∷ before_zero s

-- The same on the bytes alone.
unfoldable pub plain : List ℕ → Update → List ℕ
plain a (cat t) = a ++ t
plain a (cpy t) = t
plain a (cat_str t) = a ++ before_zero t
plain a (cpy_str t) = before_zero t

unfoldable pub plain_all : List ℕ → List Update → List ℕ
plain_all a [] = a
plain_all a (u ∷ us) = plain_all (plain a u) us

-- No string on the way has 2 ^ 29 bytes or more.
unfoldable pub StayShort : List ℕ → List Update → Type 0
StayShort a [] = length a < 2 ^ 29
StayShort a (u ∷ us) = (length a < 2 ^ 29) × StayShort (plain a u) us

StayShort-now : (a : List ℕ) (us : List Update) → StayShort a us → length a < 2 ^ 29
unfolding StayShort
StayShort-now a [] h = h
StayShort-now a (u ∷ us) h = h.0

StayShort-all : (a : List ℕ) (us : List Update) → StayShort a us → length (plain_all a us) < 2 ^ 29
unfolding StayShort plain_all
StayShort-all a [] h = h
StayShort-all a (u ∷ us) h = StayShort-all (plain a u) us h.1

strlen-before : (t : List ℕ) → strlen (t ++ (0 ∷ [])) ≡ some (length (before_zero t))
unfolding strlen before_zero
strlen-before [] = refl
strlen-before (c ∷ t) = elim (Bool-cases (c == 0)) [
  | inl e ↦ rw e refl
  | inr e ↦ rw (e, strlen-before t) refl
]

take-before : (t : List ℕ) → take (length (before_zero t)) (t ++ (0 ∷ [])) ≡ before_zero t
unfolding before_zero
take-before [] = refl
take-before (c ∷ t) = elim (Bool-cases (c == 0)) [
  | inl e ↦ rw e refl
  | inr e ↦ rw (e, take-before t) refl
]

update-IsSds :
    (s : Sdshdr) (a : List ℕ) (u : Update)
    → IsSds s a
    → length a < 2 ^ 29
    → length (plain a u) < 2 ^ 29
    → Ends (λ s'. IsSds s' (plain a u)) (update s u)
unfolding update plain sdscat sdscpy
update-IsSds s a (cat t) w h small =
    sdscatlen-IsSds s a t w (omega (arith, small, length-append a t))
update-IsSds s a (cpy t) w h small = sdscpylen-IsSds s a t w h small
update-IsSds s a (cat_str t) w h small = Ends-some _ (strlen-before t) (
    subst (λ x. Ends (λ s'. IsSds s' (a ++ before_zero t)) (sdscatlen s x)) (sym (take-before t))
      (sdscatlen-IsSds s a (before_zero t) w
        (omega (arith, small, length-append a (before_zero t)))))
update-IsSds s a (cpy_str t) w h small = Ends-some _ (strlen-before t) (
    subst (λ x. Ends (λ s'. IsSds s' (before_zero t)) (sdscpylen s x)) (sym (take-before t))
      (sdscpylen-IsSds s a (before_zero t) w h small))

updates-IsSds :
    (s : Sdshdr) (a : List ℕ) (us : List Update)
    → IsSds s a
    → StayShort a us
    → Ends (λ s'. IsSds s' (plain_all a us)) (updates s us)
unfolding updates plain_all StayShort
updates-IsSds s a [] w h = ends w
updates-IsSds s a (u ∷ us) w (h, hs) =
    Ends-bind (update-IsSds s a u w h (StayShort-now (plain a u) us hs))
      λ s' w'. updates-IsSds s' (plain a u) us w' hs

-- A string that is made of given bytes and then appended to and overwritten, in any order, moving to larger buffers as it
-- must, never leaves its buffer, and a copy that sdsdup makes of it holds the bytes that the updates give, and a 0 behind
-- them, as long as none of the strings on the way has 2 ^ 29 bytes.
pub sdsdup-updates :
    (a : List ℕ) (us : List Update)
    → StayShort a us
    → Ends
        (λ s. IsSds s (plain_all a us))
        (sdsnewlen (some a) (length a) >>= λ s. updates s us >>= sdsdup)
unfolding sdsdup
sdsdup-updates a us h = Ends-bind (sdsnewlen-IsSds a (StayShort-now a us h)) λ s w.
    Ends-bind (updates-IsSds s a us w h) λ s' w'.
      let b = plain_all a us in
      Ends-some _ (content-IsSds s' b w') (
        subst (λ n. Ends (λ s. IsSds s b) (sdsnewlen (some b) n)) (sym w'.counted)
          (sdsnewlen-IsSds b (StayShort-all a us h)))
