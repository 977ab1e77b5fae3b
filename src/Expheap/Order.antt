-- ===== src/Expheap/Order.antt =====
-- The order of the heap: no entry expires before its parent. Sifting an entry up or down restores it.
use rediskrazy.Base.{
  ℕ, zero, suc, ◌+◌, ◌-◌, ◌*◌, ◌/◌, ◌<◌, ◌≤◌, ◌≡◌, ◌≢◌, refl, sym, ap, ◌∙◌, subst, List, ltb, ◌==◌,
  length, arith, Ends, ends, Ends-bind, Ends-map, Ends-if, Ends-elim_false, Ends-elim, Bool-cases,
  inl, inr, ◌⊎◌,
}
use mathlib.Core.List.Perm
use mathlib.Core.List.{Perm}
use native.Mathlib.Decide.{ℕ_discrete}
use rediskrazy.Expheap.{ExpEntry, sift_up, sift_down, smaller}
use rediskrazy.Expheap.Swap.{expire_at, Swapped, swap-Swapped, before-Ends}

abbrev pub parent : ℕ → ℕ
parent i = (i - 1) / 2

abbrev pub IsHeap : List ExpEntry → Type 0
IsHeap l = (i : ℕ) → 0 < i → i < length l → expire_at l (parent i) ≤ expire_at l i

-- The order holds but for the entry at `k`, which may expire before its parent or after its children.
pub record IsHeapBut (l : List ExpEntry) (k : ℕ) : Type 0 where
  pub order :
      (i : ℕ) → 0 < i → i < length l → i ≢ k → parent i ≢ k → expire_at l (parent i) ≤ expire_at l i
  pub over :
      (i : ℕ) → 0 < i → i < length l → parent i ≡ k → 0 < k → expire_at l (parent k) ≤ expire_at l i

-- Not before the parent, and not after the children.
abbrev pub NotUp : List ExpEntry → ℕ → Type 0
NotUp l k = 0 < k → expire_at l (parent k) ≤ expire_at l k

abbrev pub NotDown : List ExpEntry → ℕ → Type 0
NotDown l k = (i : ℕ) → 0 < i → i < length l → parent i ≡ k → expire_at l k ≤ expire_at l i

both-IsHeap : (l : List ExpEntry) (k : ℕ) → IsHeapBut l k → NotUp l k → NotDown l k → IsHeap l
both-IsHeap l k h up down i z s = elim (ℕ_discrete i k) [
  | yes e ↦ subst (λ n. expire_at l (parent n) ≤ expire_at l n) (sym e) (up (omega (arith, e)))
  | no n ↦ elim (ℕ_discrete (parent i) k) [
    | yes e ↦ subst (λ n. expire_at l n ≤ expire_at l i) (sym e) (down i z s e)
    | no n' ↦ h.order i z s n n'
  ]
]

-- The entry at `k` expires before its parent, and they are exchanged.
up-IsHeapBut :
    (l l' : List ExpEntry) (k : ℕ)
    → 0 < k
    → k < length l
    → IsHeapBut l k
    → NotDown l k
    → expire_at l k < expire_at l (parent k)
    → Swapped l k (parent k) l'
    → IsHeapBut l' (parent k) × NotDown l' (parent k)
up-IsHeapBut l l' k z s h down less w = (
  record {
    order = λ i zi si n n'.
        let si' : i < length l = omega (arith, w.size) in
        let ik : i ≢ k = λ e. n' (ap parent e) in
        let there = w.others i ik n in
        elim (ℕ_discrete (parent i) k) [
          | yes e ↦ omega (arith, there, ap (expire_at l') e, w.first, h.over i zi si' e z)
          | no m ↦ omega (arith, there, w.others (parent i) m n', h.order i zi si' ik m)
        ];
    over = λ i zi si e zp.
        let si' : i < length l = omega (arith, w.size) in
        let high = w.others (parent (parent k)) (λ q. omega (arith, q)) (λ q. omega (arith, q)) in
        let grand =
          h.order (parent k) zp (omega arith) (λ q. omega (arith, q)) (λ q. omega (arith, q)) in
        elim (ℕ_discrete i k) [
          | yes q ↦ omega (arith, high, grand, ap (expire_at l') q, w.first)
          | no q ↦ omega (
            arith,
            high,
            grand,
            w.others i q (λ r. omega (arith, r, e)),
            ap (expire_at l) e,
            h.order i zi si' q (λ r. omega (arith, r, e)),
          )
        ];
  },
  λ i zi si e.
      let si' : i < length l = omega (arith, w.size) in
      elim (ℕ_discrete i k) [
        | yes q ↦ omega (arith, w.second, ap (expire_at l') q, w.first, less)
        | no q ↦ omega (
          arith,
          w.second,
          less,
          w.others i q (λ r. omega (arith, r, e)),
          ap (expire_at l) e,
          h.order i zi si' q (λ r. omega (arith, r, e)),
        )
      ],
)

-- The entry at `k` expires after its child at `c`, which no other child expires before, and they are exchanged.
down-IsHeapBut :
    (l l' : List ExpEntry) (k c : ℕ)
    → 0 < c
    → c < length l
    → parent c ≡ k
    → IsHeapBut l k
    → expire_at l c ≤ expire_at l k
    → ((i : ℕ) → 0 < i → i < length l → parent i ≡ k → expire_at l c ≤ expire_at l i)
    → Swapped l k c l'
    → IsHeapBut l' c × NotUp l' c
down-IsHeapBut l l' k c z s p h less least w =
    let child : expire_at l' (parent c) ≡ expire_at l c = ap (expire_at l') p ∙ w.first in
    (
      record {
        order = λ i zi si n n'.
            let si' : i < length l = omega (arith, w.size) in
            elim (ℕ_discrete i k) [
              | yes e ↦ omega (
                arith,
                w.others (parent i) (λ q. omega (arith, q, e)) n',
                ap (expire_at l') e,
                w.first,
                ap (λ x. expire_at l (parent x)) e,
                h.over c z s p (omega (arith, e)),
              )
              | no m ↦ elim (ℕ_discrete (parent i) k) [
                | yes e ↦
                    omega (arith, ap (expire_at l') e, w.first, w.others i m n, least i zi si' e)
                | no m' ↦
                    omega (arith, w.others (parent i) m' n', w.others i m n, h.order i zi si' m m')
              ]
            ];
        over = λ i zi si e zp.
            let si' : i < length l = omega (arith, w.size) in
            let ik : i ≢ k = λ q. omega (arith, q, e, p) in
            let ic : i ≢ c = λ q. omega (arith, q, e) in
            let pk : parent i ≢ k = λ q. omega (arith, q, e, p) in
            omega (arith, child, w.others i ik ic, ap (expire_at l) e, h.order i zi si' ik pk);
      },
      λ zc. omega (arith, child, w.second, less),
    )

-- What sifting gives.
pub record Sifted (l l' : List ExpEntry) : Type 0 where
  pub heap : IsHeap l'
  pub perm : Perm l' l
  pub size : length l' ≡ length l

Sifted-trans : (l m n : List ExpEntry) → Perm m l → length m ≡ length l → Sifted m n → Sifted l n
Sifted-trans l m n p e w = record { heap = w.heap; perm = Perm.trans w.perm p; size = w.size ∙ e }

pub sift_up-Sifted :
    (rounds : ℕ) (l : List ExpEntry) (idx : ℕ)
    → idx < rounds
    → idx < length l
    → IsHeapBut l idx
    → NotDown l idx
    → Ends (Sifted l) (sift_up rounds l idx)
unfolding sift_up
sift_up-Sifted zero l idx f s h down = absurd (omega arith)
sift_up-Sifted (suc rounds) l idx f s h down =
    Ends-elim_false (ltb 0 idx)
      (λ y.
        let z : 0 < idx = ground (arith, y) in
        Ends-bind (before-Ends l idx (parent idx) s (omega arith)) λ less t.
          Ends-elim_false less
            (λ y'.
              Ends-bind (swap-Swapped l idx (parent idx) s (omega arith) (λ e. omega (arith, e)))
                λ l' w.
                  let (h', down') = up-IsHeapBut l l' idx z s h down (ground (arith, t, y')) w in
                  Ends-map
                    (sift_up-Sifted rounds l' (parent idx) (omega arith) (omega (arith, w.size)) h'
                      down')
                    λ l'' r. Sifted-trans l l' l'' w.perm w.size r)
            (λ n'. ends (record {
              heap = both-IsHeap l idx h (λ _. ground (arith, t, n')) down;
              perm = Perm.refl l;
              size = refl;
            })))
      (λ n. ends (record {
        heap = both-IsHeap l idx h (λ z. ground (arith, n, z)) down;
        perm = Perm.refl l;
        size = refl;
      }))

-- The index that `smaller` chooses.
record Least (l : List ExpEntry) (child smallest r : ℕ) : Type 0 where
  inside : r < length l
  choice : (r ≡ smallest) ⊎ (r ≡ child)
  le_smallest : expire_at l r ≤ expire_at l smallest
  le_child : child < length l → expire_at l r ≤ expire_at l child

smaller-Least :
    (l : List ExpEntry) (child smallest : ℕ)
    → smallest < length l
    → Ends (Least l child smallest) (smaller l child smallest)
unfolding smaller
smaller-Least l child smallest s =
    Ends-if (ltb child (length l))
      (λ y.
        let there : child < length l = ground (arith, y) in
        Ends-bind (before-Ends l child smallest there s) λ less t. elim (Bool-cases less) [
          | inl e ↦ rw e (
              ends (record {
                inside = there;
                choice = inr refl;
                le_smallest = ground (arith, e, t);
                le_child = λ _. omega arith;
              }))
          | inr e ↦ rw e (
              ends (record {
                inside = s;
                choice = inl refl;
                le_smallest = omega arith;
                le_child = λ _. ground (arith, e, t);
              }))
        ])
      (λ n. ends (record {
        inside = s;
        choice = inl refl;
        le_smallest = omega arith;
        le_child = λ h. absurd (ground (arith, n, h));
      }))

-- A child is one of the two.
two_children : (i k : ℕ) → 0 < i → parent i ≡ k → (i ≡ 2 * k + 1) ⊎ (i ≡ 2 * k + 2)
two_children i k z e = elim (ℕ_discrete i (2 * k + 1)) [
  | yes q ↦ inl q
  | no q ↦ inr (omega (arith, q, e))
]

-- No child of `k` expires before the entry at `c`.
abbrev NotLess : List ExpEntry → ℕ → ℕ → Type 0
NotLess l k c = (i : ℕ) → 0 < i → i < length l → parent i ≡ k → expire_at l c ≤ expire_at l i

-- The chosen index is that of a child, unless it is `k`.
chosen :
    {l : List ExpEntry} {k a c : ℕ}
    → Least l (2 * k + 1) k a
    → Least l (2 * k + 2) a c
    → c ≢ k
    → (k < c) × (parent c ≡ k)
chosen {k = k} {a = a} {c = c} left right n = elim (right.choice) [
  | inr q ↦ (omega (arith, q), omega (arith, q))
  | inl q ↦ elim (left.choice) [
    | inr q' ↦ (omega (arith, q, q'), omega (arith, q, q'))
    | inl q' ↦ absurd (n (q ∙ q'))
  ]
]

pub sift_down-Sifted :
    (rounds : ℕ) (l : List ExpEntry) (idx : ℕ)
    → length l < rounds + idx + 1
    → idx < length l
    → IsHeapBut l idx
    → NotUp l idx
    → Ends (Sifted l) (sift_down rounds l idx)
unfolding sift_down
sift_down-Sifted zero l idx f s h up = absurd (omega arith)
sift_down-Sifted (suc rounds) l idx f s h up =
    Ends-bind (smaller-Least l (2 * idx + 1) idx s) λ a left.
      Ends-bind (smaller-Least l (2 * idx + 2) a left.inside) λ c right.
        let least : NotLess l idx c = λ i z si e. elim (two_children i idx z e) [
          | inl q ↦
              omega (arith, right.le_smallest, ap (expire_at l) q, left.le_child (omega (arith, q)))
          | inr q ↦ omega (arith, ap (expire_at l) q, right.le_child (omega (arith, q)))
        ] in
        Ends-elim (c == idx)
          (λ y.
            let same : c ≡ idx = ground (arith, y) in
            ends (record {
              heap = both-IsHeap l idx h up (subst (NotLess l idx) same least);
              perm = Perm.refl l;
              size = refl;
            }))
          (λ n.
            let is_child = chosen left right (ground (arith, n)) in
            Ends-bind (swap-Swapped l idx c s right.inside (λ e. omega (arith, e, is_child)))
              λ l' w.
                let (h', up') =
                  down-IsHeapBut l l' idx c (omega (arith, is_child)) right.inside is_child.1 h
                    (omega (arith, left.le_smallest, right.le_smallest)) least w in
                Ends-map
                  (sift_down-Sifted rounds l' c (omega (arith, w.size, is_child))
                    (omega (arith, w.size, right.inside)) h' up')
                  λ l'' r. Sifted-trans l l' l'' w.perm w.size r)
