-- ===== src/Sds/Growth.antt =====
-- The operations of sds.c that make a string and change it keep its header and its buffer in step.
use rediskrazy.Base.{
  Ends-some, ℕ, suc, ◌+◌, ◌-◌, ◌*◌, ◌<◌, ◌≤◌, ◌^◌, ◌≡◌, refl, sym, ap, ◌∙◌, true, Option, none,
  some, List, [], ◌∷◌, ◌++◌, Bool-cases, inl, inr, leb, ltb, if◌then◌else◌, length, length-append,
  length-replicate, take, drop, replicate, map, arith, append_assoc, Ends, ends, Ends-bind, Ends-if,
  Ends-map,
}
use rediskrazy.Sds.Header.{
  Sdshdr, to_int, memcpy, sdsnewlen, sdslen, grown, realloc, sds_make_room_for, sdscatlen,
  sdscpylen, content,
}
use rediskrazy.Sds.Buffer.{length-map, map-append, take_everything, memcpy-Written}

-- The header and the buffer stand for the bytes `a`: they are at the front, with a 0 behind them, and the room is counted.
pub record IsSds (s : Sdshdr) (a : List ℕ) : Type 0 where
  pub rest : List (Option ℕ)
  pub front : s.buf ≡ map some a ++ (some 0 ∷ rest)
  pub counted : s.len ≡ length a
  pub room : s.free ≡ length rest
  pub small : s.len + s.free < 2 ^ 31

to_int-fits : (n : ℕ) → n < 2 ^ 31 → to_int n ≡ some n
to_int-fits n h = ground arith

grown_bounds : (n : ℕ) → n < 2 ^ 29 → (n ≤ grown n) × (grown n ≤ 2 ^ 30)
grown_bounds n h = elim (Bool-cases (ltb n (1024 * 1024))) [
  | inl e ↦ ground arith
  | inr e ↦ ground arith
]

realloc-keeps :
    (buf : List (Option ℕ)) (size : ℕ)
    → length buf ≤ size
    → realloc buf size ≡ buf ++ replicate (size - length buf) none
realloc-keeps buf size h =
    let more : List (Option ℕ) = replicate (size - length buf) none in
    take_everything (buf ++ more) size (
      omega (
        arith,
        h,
        length-append buf more,
        length-replicate {A = Option ℕ} (size - length buf) none,
      ))

-- Where the room is too small, the string moves to a larger buffer.
moved-IsSds :
    (s : Sdshdr) (a : List ℕ) (size : ℕ)
    → IsSds s a
    → s.len + s.free ≤ size
    → size < 2 ^ 31
    → IsSds (record s { free = size - s.len; buf = realloc s.buf (size + 1) }) a
moved-IsSds s a size w h small =
    let more : List (Option ℕ) = replicate (size + 1 - length s.buf) none in
    let len_more = length-replicate {A = Option ℕ} (size + 1 - length s.buf) none in
    let len_buf : length s.buf ≡ length a + suc (length w.rest) =
      ap length w.front
      ∙ (length-append (map some a) (some 0 ∷ w.rest)
          ∙ ap (λ k. k + suc (length w.rest)) (length-map some a)) in
    record {
      rest = w.rest ++ more;
      front =
          realloc-keeps s.buf (size + 1) (omega (arith, len_buf, w.counted, w.room, h))
          ∙ (ap (λ l. l ++ more) w.front ∙ append_assoc (map some a) (some 0 ∷ w.rest) more);
      counted = w.counted;
      room =
          sym (length-append w.rest more ∙ omega (arith, len_more, len_buf, w.counted, w.room, h));
      small = omega (arith, h, small, w.counted);
    }

sds_make_room_for-IsSds :
    (s : Sdshdr) (a : List ℕ) (n : ℕ)
    → IsSds s a
    → length a + n < 2 ^ 29
    → Ends (λ s'. IsSds s' a × (n ≤ s'.free)) (sds_make_room_for s n)
unfolding sds_make_room_for
sds_make_room_for-IsSds s a n w h =
    Ends-if (leb n s.free) (λ e. ends (w, ground (arith, e)))
      (λ e.
        let counted = w.counted in
        let full : s.free < n = ground (arith, e) in
        let (le, ge) = grown_bounds (s.len + n) (omega (arith, counted, h)) in
        let size = grown (s.len + n) in
        Ends-some _ (to_int-fits (size - s.len) (omega (arith, ge))) (
          ends (
            moved-IsSds s a size w (omega (arith, le, full)) (omega (arith, ge)),
            omega (arith, le, counted),
          )))

pub sdscatlen-IsSds :
    (s : Sdshdr) (a t : List ℕ)
    → IsSds s a
    → length a + length t < 2 ^ 29
    → Ends (λ s'. IsSds s' (a ++ t)) (sdscatlen s t)
unfolding sdscatlen
sdscatlen-IsSds s a t w h = Ends-bind (sds_make_room_for-IsSds s a (length t) w h) λ s' (w', fits).
    let at = w.counted ∙ sym (length-map some a) in
    let r =
      memcpy-Written (map some a) (some 0 ∷ w'.rest) t s.len at (omega (arith, fits, w'.room)) in
    Ends-some _ (ap (λ l. memcpy l s.len t) w'.front ∙ r.bytes) (
      Ends-some _ (to_int-fits (s.len + length t) (omega (arith, w.counted, h))) (
        Ends-some _ r.end (
          ends (record {
            rest = r.post;
            front =
                sym (append_assoc (map some a) (map some t) (some 0 ∷ r.post))
                ∙ ap (λ l. l ++ (some 0 ∷ r.post)) (sym (map-append some a t));
            counted = ap (λ k. k + length t) w.counted ∙ sym (length-append a t);
            room = omega (arith, r.left, w'.room);
            small = omega (arith, fits, w'.small, w.counted, w'.counted);
          }))))

pub sdscpylen-IsSds :
    (s : Sdshdr) (a t : List ℕ)
    → IsSds s a
    → length a < 2 ^ 29
    → length t < 2 ^ 29
    → Ends (λ s'. IsSds s' t) (sdscpylen s t)
unfolding sdscpylen
sdscpylen-IsSds s a t w small h =
    Ends-bind
      (Ends-if {P = λ s'. IsSds s' a × (length t ≤ s'.free + s'.len)}
        (ltb (s.free + s.len) (length t))
        (λ e.
          let short : s.free + s.len < length t = ground (arith, e) in
          Ends-map
            (sds_make_room_for-IsSds s a (length t - s.len) w (omega (arith, w.counted, h, short)))
            λ s' (w', fits). (w', omega (arith, fits, w'.counted, w.counted)))
        (λ e. ends (w, ground (arith, e))))
      λ s' (w', fits).
        let x = map some a ++ (some 0 ∷ w'.rest) in
        let len_x = length-append (map some a) (some 0 ∷ w'.rest) in
        let len_a = length-map some a in
        let r =
          memcpy-Written [] x t 0 refl (omega (arith, len_x, len_a, fits, w'.room, w'.counted)) in
        let zero_plus : 0 + length t ≡ length t = omega arith in
        let left : s'.free + s'.len - length t ≡ length r.post =
          omega (arith, r.left, len_x, len_a, fits, w'.room, w'.counted) in
        let sum : length t + (s'.free + s'.len - length t) < 2 ^ 31 =
          omega (arith, w'.small, fits) in
        Ends-some _ (ap (λ l. memcpy l 0 t) w'.front ∙ r.bytes) (
          Ends-some _
            (ap (λ k. memcpy (map some t ++ drop (length t) x) k (0 ∷ [])) (sym zero_plus) ∙ r.end)
            (Ends-some _ (to_int-fits (length t) (omega (arith, h))) (
              Ends-some _ (to_int-fits (s'.free + s'.len - length t) (omega (arith, w'.small))) (
                ends (record {
                  rest = r.post;
                  front = refl;
                  counted = refl;
                  room = left;
                  small = sum;
                })))))

pub sdsnewlen-IsSds :
    (a : List ℕ) → length a < 2 ^ 29 → Ends (λ s. IsSds s a) (sdsnewlen (some a) (length a))
unfolding sdsnewlen
sdsnewlen-IsSds a h =
    let room : List (Option ℕ) = replicate (length a + 1) none in
    let len_room = length-replicate {A = Option ℕ} (length a + 1) none in
    let whole : leb (length a) (length a) ≡ true = ground arith in
    let zero_plus : 0 + length a ≡ length a = omega arith in
    let r = memcpy-Written [] room a 0 refl (omega (arith, len_room)) in
    let no_rest : length r.post ≡ 0 = omega (arith, r.left, len_room) in
    Ends-some _ (to_int-fits (length a) (omega (arith, h))) (
      Ends-some _
        (ap (λ b. if b then memcpy room 0 (take (length a) a) else none) whole
          ∙ (ap (memcpy room 0) (take_everything a (length a) refl) ∙ r.bytes))
        (Ends-some _
          (ap (λ k. memcpy (map some a ++ drop (length a) room) k (0 ∷ [])) (sym zero_plus) ∙ r.end)
          (ends (record {
            rest = r.post;
            front = refl;
            counted = refl;
            room = sym no_rest;
            small = omega (arith, h);
          }))))

content-front : (a : List ℕ) (x : List (Option ℕ)) → content (map some a ++ x) (length a) ≡ some a
unfolding content
content-front [] x = refl
content-front (c ∷ a) x = rw (content-front a x) refl

pub content-IsSds : (s : Sdshdr) (a : List ℕ) → IsSds s a → content s.buf (sdslen s) ≡ some a
content-IsSds s a w =
    ap (content s.buf) w.counted
    ∙ (ap (λ l. content l (length a)) w.front ∙ content-front a (some 0 ∷ w.rest))
