-- ===== src/Expheap/Replace.antt =====
-- The last entry takes the place of another one.
use rediskrazy.Base.{
  ℕ, zero, suc, ◌+◌, ◌-◌, ◌<◌, ◌≤◌, ◌≡◌, ◌≢◌, refl, sym, ap, ◌∙◌, subst, some, List, [], ◌∷◌, ◌++◌,
  length, get_elem?, set, take, arith, length-set, length-take, Ends, ends, Ends-bind,
}
use mathlib.Core.List.Perm
use mathlib.Core.List.{Perm}
use native.Mathlib.Decide.{ℕ_discrete}
use rediskrazy.Expheap.{ExpEntry, replace_by_last}
use rediskrazy.Expheap.Swap.{expire_at, read-Ends, expire_at-set_other, set-perm, get-set_other}
use rediskrazy.Expheap.Order.{parent, IsHeap, IsHeapBut}

expire_at-take :
    (n : ℕ) (l : List ExpEntry) (i : ℕ) → i < n → expire_at (take n l) i ≡ expire_at l i
expire_at-take zero l i h = absurd (omega arith)
expire_at-take (suc n) [] i h = refl
expire_at-take (suc n) (x ∷ l) zero h = refl
expire_at-take (suc n) (x ∷ l) (suc i) h = expire_at-take n l i (omega arith)

pub perm_last : (l : List ExpEntry) (e : ExpEntry) → Perm (l ++ (e ∷ [])) (e ∷ l)
perm_last [] e = Perm.refl _
perm_last (x ∷ l) e = Perm.trans (Perm.cons x (perm_last l e)) (Perm.swap _ _ _)

take-last :
    (n : ℕ) (l : List ExpEntry) (e : ExpEntry)
    → length l ≡ suc n
    → get_elem? l n ≡ some e
    → take n l ++ (e ∷ []) ≡ l
take-last n [] e h g = absurd (omega (arith, h))
take-last zero (x ∷ []) e h g = let same : x ≡ e = cc in ap (λ c. c ∷ []) (sym same)
take-last zero (x ∷ y ∷ l) e h g = absurd (omega (arith, h))
take-last (suc n) (x ∷ l) e h g = ap (◌∷◌ x) (take-last n l e (omega (arith, h)) g)

get-set_same :
    (l : List ExpEntry) (i : ℕ) (e : ExpEntry) → i < length l → get_elem? (set l i e) i ≡ some e
get-set_same [] i e h = absurd (omega arith)
get-set_same (x ∷ l) zero e h = refl
get-set_same (x ∷ l) (suc i) e h = get-set_same l i e (omega arith)

-- `l'` is `l` without the entry `e` at `i`.
pub record Replaced (l : List ExpEntry) (i : ℕ) (e : ExpEntry) (l' : List ExpEntry) : Type 0 where
  pub size : length l' + 1 ≡ length l
  pub others : (k : ℕ) → k ≢ i → k < length l' → expire_at l' k ≡ expire_at l k
  pub perm : Perm (e ∷ l') l

pub replace_by_last-Replaced :
    (l : List ExpEntry) (i : ℕ) (e : ExpEntry)
    → i < length l
    → get_elem? l i ≡ some e
    → Ends (Replaced l i e) (replace_by_last l i)
unfolding replace_by_last
replace_by_last-Replaced l i e s g =
    Ends-bind (read-Ends l (length l - 1) (omega arith)) λ last (q, _).
      let n = length l - 1 in
      let m = set l i last in
      let len_m = length-set l i last in
      let len = length-take n m in
      let end : get_elem? m n ≡ some last = elim (ℕ_discrete n i) [
        | yes y ↦ ap (get_elem? m) y ∙ get-set_same l i last s
        | no y ↦ get-set_other l i n last y ∙ q
      ] in
      ends (record {
        size = omega (arith, len, len_m);
        others = λ k ki ks.
            expire_at-take n m k (omega (arith, len, len_m, ks))
            ∙ expire_at-set_other l i k last ki;
        perm = Perm.cons_inv (
            Perm.trans (Perm.swap _ _ _) (
              Perm.trans (Perm.cons e (Perm.symm (perm_last (take n m) last))) (
                subst (λ x. Perm (e ∷ x) (last ∷ l))
                  (sym (take-last n m last (omega (arith, len_m)) end)) (set-perm l i last e g))));
      })

-- The heap keeps its order, but for the place that was filled, or in all of it where the last entry was removed.
pub Replaced-IsHeap :
    (l l' : List ExpEntry) (i : ℕ) (e : ExpEntry)
    → Replaced l i e l'
    → IsHeap l
    → length l' ≤ i
    → IsHeap l'
Replaced-IsHeap l l' i e w h s k z sk = omega (
  arith,
  w.others k (λ q. omega (arith, q)) sk,
  w.others (parent k) (λ q. omega (arith, q)) (omega arith),
  h k z (omega (arith, w.size)),
)

pub Replaced-IsHeapBut :
    (l l' : List ExpEntry) (i : ℕ) (e : ExpEntry)
    → Replaced l i e l'
    → IsHeap l
    → i < length l'
    → IsHeapBut l' i
Replaced-IsHeapBut l l' i e w h s = record {
  order = λ k z sk n n'.
      omega (
        arith,
        w.others k n sk,
        w.others (parent k) n' (omega arith),
        h k z (omega (arith, w.size)),
      );
  over = λ k z sk q zi. omega (
    arith,
    w.others k (λ r. omega (arith, r, q)) sk,
    w.others (parent i) (λ r. omega (arith, r)) (omega arith),
    ap (expire_at l) q,
    h k z (omega (arith, w.size)),
    h i zi (omega (arith, w.size)),
  );
}
