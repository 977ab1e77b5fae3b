-- ===== src/Sds/Buffer.antt =====
-- Writing bytes and a 0 behind them into a buffer: the memcpy and the assignment that end the operations of sds.c.
use rediskrazy.Base.{
  ℕ, zero, suc, ◌+◌, ◌<◌, ◌≤◌, ◌≡◌, refl, sym, ap, subst, ◌∙◌, true, Option, some, List, [], ◌∷◌,
  ◌++◌, leb, length, length-append, take, take-append, drop, map, arith, append_assoc, append-nil,
}
use rediskrazy.Sds.Header.{memcpy}

pub length-map : {A B : Type 0} → (f : A → B) (l : List A) → length (map f l) ≡ length l
length-map f [] = refl
length-map f (x ∷ l) = ap suc (length-map f l)

pub map-append : {A B : Type 0} → (f : A → B) (l m : List A) → map f (l ++ m) ≡ map f l ++ map f m
map-append f [] m = refl
map-append f (x ∷ l) m = ap (◌∷◌ (f x)) (map-append f l m)

drop-plus : {A : Type 0} → (l m : List A) (n : ℕ) → drop (length l + n) (l ++ m) ≡ drop n m
drop-plus [] m n = ap (λ k. drop k m) {y = n} (omega arith)
drop-plus (x ∷ l) m n =
    ap (λ k. drop k (x ∷ (l ++ m))) {y = suc (length l + n)} (omega arith) ∙ drop-plus l m n

drop_inside :
    {A : Type 0}
    → (l : List A) (n : ℕ) → n < length l
    → (x : A) × (m : List A) × (drop n l ≡ x ∷ m) × (length m + n + 1 ≡ length l)
drop_inside [] n h = absurd (omega arith)
drop_inside (x ∷ l) zero h = (x, l, refl, omega arith)
drop_inside (x ∷ l) (suc n) h =
    let (y, m, e, c) = drop_inside l n (omega arith) in (y, m, e, omega (arith, c))

pub take_everything : {A : Type 0} → (l : List A) (n : ℕ) → n ≡ length l → take n l ≡ l
take_everything l n h =
    ap (λ k. take k l) h ∙ (ap (take (length l)) (sym (append-nil l)) ∙ take-append l [])

memcpy-at :
    (a x : List (Option ℕ)) (t : List ℕ) (i : ℕ)
    → i ≡ length a
    → length t ≤ length x
    → memcpy (a ++ x) i t ≡ some (a ++ (map some t ++ drop (length t) x))
unfolding memcpy
memcpy-at a x t i e h =
    let fits : leb (length a + length t) (length (a ++ x)) ≡ true =
      ground (arith, length-append a x) in
    rw (e, fits, take-append a x, drop-plus a x (length t)) refl

-- Bytes, and a 0 behind them.
pub record Written (a x : List (Option ℕ)) (t : List ℕ) (i : ℕ) : Type 0 where
  pub post : List (Option ℕ)
  pub bytes : memcpy (a ++ x) i t ≡ some (a ++ (map some t ++ drop (length t) x))
  pub end :
      memcpy (a ++ (map some t ++ drop (length t) x)) (i + length t) (0 ∷ [])
      ≡ some (a ++ (map some t ++ (some 0 ∷ post)))
  pub left : length post + length t + 1 ≡ length x

pub memcpy-Written :
    (a x : List (Option ℕ)) (t : List ℕ) (i : ℕ)
    → i ≡ length a
    → length t < length x
    → Written a x t i
memcpy-Written a x t i e h =
    let (y, post, d, c) = drop_inside x (length t) h in
    let second =
      memcpy-at (a ++ map some t) (drop (length t) x) (0 ∷ []) (i + length t)
        (omega (arith, e, length-append a (map some t), length-map some t))
        (subst (λ l. 1 ≤ length l) (sym d) (omega arith)) in
    record {
      post = post;
      bytes = memcpy-at a x t i e (omega arith);
      end =
          ap (λ l. memcpy l (i + length t) (0 ∷ []))
            (sym (append_assoc a (map some t) (drop (length t) x)))
          ∙ second
          ∙ ap some (
              append_assoc a (map some t) (some 0 ∷ drop 1 (drop (length t) x))
              ∙ ap (λ l. a ++ (map some t ++ (some 0 ∷ drop 1 l))) d);
      left = c;
    }
