-- ===== src/Expheap/Swap.antt =====
-- The entries of the heap by their index, and what swap does to them.
use mathlib.Core.List.Perm
use mathlib.Core.List.{Perm}
use rediskrazy.Base.{
  ℕ, zero, suc, ◌<◌, ◌≡◌, ◌≢◌, refl, sym, ap, ◌∙◌, subst, some, List, [], ◌∷◌, ltb, length,
  get_elem?, set, length-set, arith, Ends, ends, Ends-bind,
}
use rediskrazy.Expheap.{ExpEntry, swap, before}

-- The expiry at an index, 0 outside of the array.
abbrev pub expire_at : List ExpEntry → ℕ → ℕ
expire_at [] i = 0
expire_at (e ∷ l) zero = e.expire
expire_at (e ∷ l) (suc i) = expire_at l i

pub read-Ends :
    (l : List ExpEntry) (i : ℕ)
    → i < length l
    → Ends (λ e. (get_elem? l i ≡ some e) × (expire_at l i ≡ e.expire)) (get_elem? l i)
read-Ends [] i h = absurd (omega arith)
read-Ends (x ∷ l) zero h = ends (refl, refl)
read-Ends (x ∷ l) (suc i) h = read-Ends l i (omega arith)

pub expire_at-set_same :
    (l : List ExpEntry) (i : ℕ) (e : ExpEntry) → i < length l → expire_at (set l i e) i ≡ e.expire
expire_at-set_same [] i e h = absurd (omega arith)
expire_at-set_same (x ∷ l) zero e h = refl
expire_at-set_same (x ∷ l) (suc i) e h = expire_at-set_same l i e (omega arith)

pub expire_at-set_other :
    (l : List ExpEntry) (i k : ℕ) (e : ExpEntry) → k ≢ i → expire_at (set l i e) k ≡ expire_at l k
expire_at-set_other [] i k e h = refl
expire_at-set_other (x ∷ l) zero zero e h = absurd (h refl)
expire_at-set_other (x ∷ l) zero (suc k) e h = refl
expire_at-set_other (x ∷ l) (suc i) zero e h = refl
expire_at-set_other (x ∷ l) (suc i) (suc k) e h = expire_at-set_other l i k e (λ q. h (ap suc q))

-- The entry that is overwritten is left over.
pub set-perm :
    (l : List ExpEntry) (i : ℕ) (a b : ExpEntry)
    → get_elem? l i ≡ some b
    → Perm (b ∷ set l i a) (a ∷ l)
set-perm [] i a b h = cc
set-perm (x ∷ l) zero a b h =
    let same : x ≡ b = cc in subst (λ c. Perm (b ∷ a ∷ l) (a ∷ c ∷ l)) (sym same) (Perm.swap _ _ _)
set-perm (x ∷ l) (suc i) a b h =
    Perm.trans (Perm.swap _ _ _) (Perm.trans (Perm.cons _ (set-perm l i a b h)) (Perm.swap _ _ _))

-- `l'` is `l` with the entries at `i` and `j` exchanged.
pub record Swapped (l : List ExpEntry) (i j : ℕ) (l' : List ExpEntry) : Type 0 where
  pub size : length l' ≡ length l
  pub first : expire_at l' i ≡ expire_at l j
  pub second : expire_at l' j ≡ expire_at l i
  pub others : (k : ℕ) → k ≢ i → k ≢ j → expire_at l' k ≡ expire_at l k
  pub perm : Perm l' l

pub get-set_other :
    (l : List ExpEntry) (i k : ℕ) (e : ExpEntry) → k ≢ i → get_elem? (set l i e) k ≡ get_elem? l k
get-set_other [] i k e h = refl
get-set_other (x ∷ l) zero zero e h = absurd (h refl)
get-set_other (x ∷ l) zero (suc k) e h = refl
get-set_other (x ∷ l) (suc i) zero e h = refl
get-set_other (x ∷ l) (suc i) (suc k) e h = get-set_other l i k e (λ q. h (ap suc q))

pub swap-Swapped :
    (l : List ExpEntry) (i j : ℕ)
    → i < length l
    → j < length l
    → i ≢ j
    → Ends (Swapped l i j) (swap l i j)
unfolding swap
swap-Swapped l i j h h' n = Ends-bind (read-Ends l i h) λ a (p, pa).
    Ends-bind (read-Ends l j h') λ b (q, qb).
      let m = set l i b in
      let size = length-set l i b in
      let j_in : j < length m = omega (arith, size) in
      ends (record {
        size = length-set m j a ∙ size;
        first = expire_at-set_other m j i a n ∙ expire_at-set_same l i b h ∙ sym qb;
        second = expire_at-set_same m j a j_in ∙ sym pa;
        others = λ k ki kj. expire_at-set_other m j k a kj ∙ expire_at-set_other l i k b ki;
        perm = Perm.cons_inv (
            Perm.trans (set-perm m j a b (get-set_other l i j b (λ e. n (sym e)) ∙ q))
              (set-perm l i b a p));
      })

pub before-Ends :
    (l : List ExpEntry) (i j : ℕ)
    → i < length l
    → j < length l
    → Ends (λ b. b ≡ ltb (expire_at l i) (expire_at l j)) (before l i j)
unfolding before
before-Ends l i j h h' =
    Ends-bind (read-Ends l i h)
      λ a (p, pa). Ends-bind (read-Ends l j h') λ b (q, qb). ends (rw (pa, qb) refl)
