-- ===== src/Zset/Range.antt =====
-- zset_range as a slice of the sorted entries.
use rediskrazy.Base.{
  ℕ, zero, suc, ◌+◌, ◌-◌, ◌^◌, ◌<◌, ◌≤◌, ◌≡◌, refl, sym, ap, ◌∙◌, Bool, true, false, List, [], ◌∷◌,
  ◌++◌, ltb, leb, if◌then◌else◌, length, length-take, take, drop, append_assoc, append-nil, arith,
  Bool-cases, inl, inr,
}
use rediskrazy.Base.Int.{ℤ, pos, negsuc, ◌+ℤ◌, ltb_ℤ, int32}
use rediskrazy.Double.{Double}
use rediskrazy.Sds.{Sds}
use rediskrazy.Avl.{avl_traverse}
use rediskrazy.Avl.Entries.{Entry}
use rediskrazy.Avl.Contents.{entries}
use rediskrazy.Avl.Tree.{IsValid}
use rediskrazy.Avl.Rank.{call_each, avl_traverse-entries}
use rediskrazy.Zset.{Zset, range_cb, from_end, zset_range}

abbrev pub pairs : List Entry → List (Sds × Double)
pairs [] = []
pairs (x ∷ l) = (x.key, x.score) ∷ pairs l

-- What is from the index `a` on, up to the index `b`, where the first entry has the index `i`.
abbrev cut : ℕ → ℕ → ℕ → List Entry → List Entry
cut a b i l = drop (a - i) (take (b + 1 - i) l)

drop-nil : (n : ℕ) → drop {A = Entry} n [] ≡ []
drop-nil zero = refl
drop-nil (suc n) = refl

cut-behind : (a b i : ℕ) (l : List Entry) → b < i → cut a b i l ≡ []
cut-behind a b i l h = ap (λ n. drop (a - i) (take n l)) {y = 0} (omega arith) ∙ drop-nil (a - i)

cut-before :
    (a b i : ℕ) (x : Entry) (l : List Entry) → i < a → cut a b i (x ∷ l) ≡ cut a b (i + 1) l
cut-before a b i x l h = elim (Bool-cases (ltb b i)) [
  | inl y ↦
      let less : b < i = ground (arith, y) in
      cut-behind a b i (x ∷ l) less ∙ sym (cut-behind a b (i + 1) l (omega arith))
  | inr n ↦
      let more : i ≤ b = ground (arith, n) in
      ap (λ n. drop n (take (b + 1 - i) (x ∷ l))) {y = suc (a - (i + 1))} (omega arith)
      ∙ ap (λ n. drop (suc (a - (i + 1))) (take n (x ∷ l))) {y = suc (b + 1 - (i + 1))}
          (omega arith)
]

cut-inside :
    (a b i : ℕ) (x : Entry) (l : List Entry)
    → a ≤ i
    → i ≤ b
    → cut a b i (x ∷ l) ≡ x ∷ cut a b (i + 1) l
cut-inside a b i x l h h' =
    ap (λ n. drop n (take (b + 1 - i) (x ∷ l))) {y = 0} (omega arith)
    ∙ ap (λ n. take n (x ∷ l)) {y = suc (b + 1 - (i + 1))} (omega arith)
    ∙ ap (λ n. x ∷ drop n (take (b + 1 - (i + 1)) l)) {x = 0} (omega arith)

next_index : (i : ℕ) → pos i +ℤ pos 1 ≡ pos (i + 1)
unfolding ◌+ℤ◌
next_index i = ground arith

ltb_pos : (m n : ℕ) → ltb_ℤ (pos m) (pos n) ≡ ltb m n
ltb_pos m n = ap (λ k. ltb k (n + 0)) {y = m} (omega arith) ∙ ap (ltb m) {x = n + 0} (omega arith)

range_cb-pos :
    (a b i : ℕ) (k : Sds) (s : Double) (calls : List (Sds × Double))
    → range_cb (pos a) (pos b) k s (record { cur_idx = pos i; calls = calls }) ≡ record {
      cur_idx = pos (i + 1);
      calls = if ltb i a then calls else if ltb b i then calls else calls ++ ((k, s) ∷ []);
    }
unfolding range_cb
range_cb-pos a b i k s calls = rw (next_index i, ltb_pos i a, ltb_pos b i) refl

-- The calls of the callback.
calls-cut :
    (a b i : ℕ) (l : List Entry) (calls : List (Sds × Double))
    → (call_each (range_cb (pos a) (pos b)) l (record { cur_idx = pos i; calls = calls })).calls
      ≡ calls ++ pairs (cut a b i l)
calls-cut a b i [] calls =
    sym (append-nil calls)
    ∙ ap (λ l. calls ++ pairs l) (sym (ap (drop (a - i)) (take-nil (b + 1 - i)) ∙ drop-nil (a - i)))
  where
    take-nil : (n : ℕ) → take {A = Entry} n [] ≡ []
    take-nil zero = refl
    take-nil (suc n) = refl
calls-cut a b i (x ∷ l) calls =
    ap (λ c. (call_each (range_cb (pos a) (pos b)) l c).calls)
      (range_cb-pos a b i x.key x.score calls)
    ∙ elim (Bool-cases (ltb i a)) [
      | inl y ↦ rw y (
          calls-cut a b (i + 1) l calls
          ∙ ap (λ c. calls ++ pairs c) (sym (cut-before a b i x l (ground (arith, y)))))
      | inr n ↦ elim (Bool-cases (ltb b i)) [
        | inl y ↦
            rw (n, y)
              (calls-cut a b (i + 1) l calls
                ∙ ap (λ c. calls ++ pairs c)
                    (cut-behind a b (i + 1) l (ground (arith, y))
                      ∙ sym (cut-behind a b i (x ∷ l) (ground (arith, y)))))
        | inr n' ↦
            rw (n, n')
              (calls-cut a b (i + 1) l (calls ++ ((x.key, x.score) ∷ []))
                ∙ append_assoc calls ((x.key, x.score) ∷ []) (pairs (cut a b (i + 1) l))
                ∙ ap (λ c. calls ++ pairs c)
                    (sym (cut-inside a b i x l (ground (arith, n)) (ground (arith, n')))))
      ]
    ]

-- The index of the first entry, and the one behind the last, among `len` entries; negative indices count from the end.
abbrev pub lower : ℕ → ℤ → ℕ
lower len (pos n) = n
lower len (negsuc n) = len - suc n

abbrev pub upper : ℕ → ℤ → ℕ
upper len (pos n) = n + 1
upper len (negsuc n) = len - n

first_index :
    (len : ℕ) (start : ℤ)
    → (if ltb_ℤ (from_end (pos len) start) (pos 0) then pos 0 else from_end (pos len) start)
      ≡ pos (lower len start)
unfolding ◌+ℤ◌
first_index len (pos n) = ground arith
first_index len (negsuc n) = elim (Bool-cases (leb (suc n) len)) [
  | inl y ↦ ground (arith, y)
  | inr m ↦ ground (arith, m)
]

-- The end of the range: an index, or in front of all entries.
data RangeEnd (len : ℕ) (end : ℤ) : Type 0 where
  at : (e : ℕ) → from_end (pos len) end ≡ pos e → upper len end ≡ e + 1 → RangeEnd len end
  in_front : (n : ℕ) → from_end (pos len) end ≡ negsuc n → upper len end ≡ 0 → RangeEnd len end

from_end_cases : (len : ℕ) (end : ℤ) → RangeEnd len end
unfolding ◌+ℤ◌
from_end_cases len (pos n) = at n (ground arith) refl
from_end_cases len (negsuc n) = elim (Bool-cases (leb (suc n) len)) [
  | inl y ↦ at (len - suc n) (ground (arith, y)) (ground (arith, y))
  | inr m ↦ in_front (suc n - len - 1) (ground (arith, m)) (ground (arith, m))
]

drop-all : (n : ℕ) (l : List Entry) → length l ≤ n → drop n l ≡ []
drop-all n [] h = drop-nil n
drop-all zero (x ∷ l) h = absurd (omega arith)
drop-all (suc n) (x ∷ l) h = drop-all n l (omega arith)

-- The body of zset_range, for the length and the two indices that it computes.
abbrev between : Zset → ℤ → ℤ → ℤ → List (Sds × Double)
between z len start end =
    if ltb_ℤ start len
    then (if ltb_ℤ end start
        then []
        else (avl_traverse z.tree (range_cb start end)
            (record { cur_idx = pos 0; calls = [] })).calls)
    else []

zset_range-between :
    (z : Zset) (start end : ℤ)
    → z.tree.count < 2 ^ 31
    → zset_range z start end
      ≡ between z
          (pos z.tree.count)
          (pos (lower z.tree.count start))
          (from_end (pos z.tree.count) end)
unfolding zset_range
zset_range-between z start end small =
    let size : int32 z.tree.count ≡ pos z.tree.count = ground (arith, small) in
    ap
      (λ n.
        between z n (if ltb_ℤ (from_end n start) (pos 0) then pos 0 else from_end n start)
          (from_end n end))
      size
    ∙ ap (λ s. between z (pos z.tree.count) s (from_end (pos z.tree.count) end))
        (first_index z.tree.count start)

taken_nothing : (lo n : ℕ) (l : List Entry) → n ≤ lo → drop lo (take n l) ≡ []
taken_nothing lo n l h = drop-all lo (take n l) (omega (arith, length-take n l))

nothing :
    {A : Type 0} (l : List A) (b c : Bool)
    → c ≡ true
    → (if b then (if c then [] else l) else []) ≡ []
nothing l true c h = rw h refl
nothing l false c h = refl

between-slice :
    (z : Zset) (lo : ℕ) (end : ℤ)
    → z.tree.count ≡ length (entries z.tree.root)
    → RangeEnd z.tree.count end
    → between z (pos z.tree.count) (pos lo) (from_end (pos z.tree.count) end)
      ≡ pairs (drop lo (take (upper z.tree.count end) (entries z.tree.root)))
between-slice z lo end counted (in_front n e u) =
    let behind : ltb_ℤ (negsuc n) (pos lo) ≡ true = ground arith in
    ap (between z (pos z.tree.count) (pos lo)) e
    ∙ nothing _ (ltb_ℤ (pos lo) (pos z.tree.count)) (ltb_ℤ (negsuc n) (pos lo)) behind
    ∙ ap pairs
        (sym (taken_nothing lo (upper z.tree.count end) (entries z.tree.root) (omega (arith, u))))
between-slice z lo end counted (at e q u) =
    let len = z.tree.count in
    let l = entries z.tree.root in
    let slice = drop lo (take (upper len end) l) in
    ap (between z (pos len) (pos lo)) q ∙ elim (Bool-cases (ltb_ℤ (pos lo) (pos len))) [
      | inr n ↦
          let behind : len ≤ lo = ground (arith, n) in
          rw n (
            ap pairs (
              sym (
                drop-all lo (take (upper len end) l)
                  (omega (arith, length-take (upper len end) l, counted, behind)))))
      | inl y ↦ elim (Bool-cases (ltb_ℤ (pos e) (pos lo))) [
        | inl y' ↦
            rw (y, y') (ap pairs (sym (taken_nothing lo (upper len end) l (ground (arith, u, y')))))
        | inr n' ↦
            rw (y, n')
              (ap (λ c. c.calls)
                  (avl_traverse-entries z.tree (range_cb (pos lo) (pos e))
                    (record { cur_idx = pos 0; calls = [] }))
                ∙ calls-cut lo e 0 l []
                ∙ ap (λ n. pairs (drop n (take (e + 1 - 0) l))) {y = lo} (omega arith)
                ∙ ap (λ n. pairs (drop lo (take n l))) {y = upper len end} (omega (arith, u)))
      ]
    ]

-- zset_range, of a sorted set with a valid tree of fewer than 2 ^ 31 members, calls the callback on the slice of the sorted entries
-- from the index `start` up to and with the index `end`, in order, where a negative index counts from the end.
pub zset_range-slice :
    (z : Zset) (start end : ℤ)
    → IsValid z.tree
    → z.tree.count < 2 ^ 31
    → zset_range z start end
      ≡ pairs
          (drop (lower z.tree.count start) (take (upper z.tree.count end) (entries z.tree.root)))
zset_range-slice z start end v small =
    zset_range-between z start end small
    ∙ between-slice z (lower z.tree.count start) end v.counted (from_end_cases z.tree.count end)
