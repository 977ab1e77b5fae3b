-- ===== src/Expheap/Queue.antt =====
-- The operations of the heap as those of a priority queue: a collection of entries, of which pop takes a least one.
use rediskrazy.Base.{
  ◌>>=◌, ℕ, zero, suc, ◌*◌, ◌%◌, ◌^◌, ◌<◌, ◌≤◌, ◌≡◌, refl, sym, subst, Option, none, some, List, [],
  ◌∷◌, ◌++◌, ltb, leb, length, arith, if◌then◌else◌, length-append, All, Ends, ends, Ends-bind,
  Ends-if,
}
use mathlib.Core.List.Perm
use mathlib.Core.List.{Perm}
use rediskrazy.Sds.{Sds}
use rediskrazy.Expheap.{
  ExpEntry, ExpHeap, places, sift_down, replace_by_last, expheap_push, expheap_pop,
}
use rediskrazy.Expheap.Swap.{expire_at}
use rediskrazy.Expheap.Replace.{perm_last, replace_by_last-Replaced, Replaced-IsHeapBut}
use rediskrazy.Expheap.Order.{parent, IsHeap, IsHeapBut, NotDown, sift_up-Sifted, sift_down-Sifted}

expire_at-append :
    (l m : List ExpEntry) (i : ℕ) → i < length l → expire_at (l ++ m) i ≡ expire_at l i
expire_at-append [] m i h = absurd (omega arith)
expire_at-append (x ∷ l) m zero h = refl
expire_at-append (x ∷ l) m (suc i) h = expire_at-append l m i (omega arith)

appended-IsHeapBut :
    (l : List ExpEntry) (e : ExpEntry)
    → IsHeap l
    → IsHeapBut (l ++ (e ∷ [])) (length l) × NotDown (l ++ (e ∷ [])) (length l)
appended-IsHeapBut l e h =
    let size = length-append l (e ∷ []) in
    (
      record {
        order = λ i z s n n'.
            let si : i < length l = omega (arith, size, n) in
            omega (
              arith,
              expire_at-append l (e ∷ []) i si,
              expire_at-append l (e ∷ []) (parent i) (omega arith),
              h i z si,
            );
        over = λ i z s q zk. absurd (omega (arith, size, q));
      },
      λ i z s q. absurd (omega (arith, size, q)),
    )

-- expheap_push, of a heap with the order and a capacity below 2 ^ 59, writes inside the array, and its loop ends: the new entry
-- is added to the collection, the order holds again, and the capacity is twice what it was where the array was full, else as it was.
pub expheap_push_correct :
    (heap : ExpHeap) (key : Sds) (expire : ℕ)
    → IsHeap heap.entries
    → length heap.entries ≤ heap.capacity
    → 0 < heap.capacity
    → heap.capacity < 2 ^ 59
    → Ends
        (λ h.
          IsHeap h.entries
          × Perm h.entries (record { key = key; expire = expire } ∷ heap.entries)
          × (length h.entries ≤ h.capacity)
          × (h.capacity ≡ (
              if leb heap.capacity (length heap.entries)
              then 2 * heap.capacity
              else heap.capacity)))
        (expheap_push heap key expire)
unfolding expheap_push
expheap_push_correct heap key expire o h z s =
    let new : ExpEntry = record { key = key; expire = expire } in
    let size = length-append heap.entries (new ∷ []) in
    let (but, down) = appended-IsHeapBut heap.entries new o in
    Ends-if
      (ltb (length heap.entries) (
        places (
          if leb heap.capacity (length heap.entries)
          then heap.capacity * 2 % 2 ^ 64
          else heap.capacity)))
      (λ y.
        Ends-bind
          (sift_up-Sifted (suc (length heap.entries)) (heap.entries ++ (new ∷ []))
            (length heap.entries) (omega arith) (omega arith) but down)
          λ l w. ends (
            w.heap,
            Perm.trans w.perm (perm_last heap.entries new),
            ground (arith, w.size, size),
            ground arith,
          ))
      (λ n. absurd (ground arith))

-- No entry expires before the first.
IsHeap-root :
    (rounds : ℕ) (l : List ExpEntry) (i : ℕ)
    → i < rounds
    → IsHeap l
    → i < length l
    → expire_at l 0 ≤ expire_at l i
IsHeap-root zero l i f h s = absurd (omega arith)
IsHeap-root (suc rounds) l zero f h s = omega arith
IsHeap-root (suc rounds) l (suc i) f h s = omega (
  arith,
  IsHeap-root rounds l (parent (suc i)) (omega arith) h (omega arith),
  h (suc i) (omega arith) s,
)

All-at :
    (m : ℕ) (l : List ExpEntry)
    → ((i : ℕ) → i < length l → m ≤ expire_at l i)
    → All (λ e. m ≤ e.expire) l
All-at m [] h = tt
All-at m (e ∷ l) h = (h 0 (omega arith), All-at m l (λ i s. h (suc i) (omega arith)))

-- What is taken from the collection `l`, and what `l'` is then: nothing from an empty one, and else an entry that none expires before.
abbrev pub Taken : List ExpEntry → List ExpEntry → Option ExpEntry → Type 0
Taken l l' none = (l ≡ []) × (l' ≡ [])
Taken l l' (some e) = Perm (e ∷ l') l × All (λ x. e.expire ≤ x.expire) l

pub first_least :
    (e : ExpEntry) (rest : List ExpEntry)
    → IsHeap (e ∷ rest)
    → All (λ x. e.expire ≤ x.expire) (e ∷ rest)
first_least e rest h =
    All-at e.expire (e ∷ rest) (λ i s. IsHeap-root (suc i) (e ∷ rest) i (omega arith) h s)

empty-IsHeap : IsHeap []
empty-IsHeap i z s = absurd (omega arith)

-- expheap_pop, of a heap with the order, reads and writes inside the array, and its loop ends: it takes an entry that no other one expires
-- before, or nothing where there is none, the other entries stay, and the order holds again.
pub expheap_pop_correct :
    (heap : ExpHeap)
    → IsHeap heap.entries
    → Ends {A = ExpHeap × Option ExpEntry}
        (λ r.
          IsHeap r.0.entries × Taken heap.entries r.0.entries r.1 × (r.0.capacity ≡ heap.capacity))
        (expheap_pop heap)
unfolding expheap_pop
expheap_pop_correct heap o = go heap.entries refl o
  where
    go :
        (l : List ExpEntry)
        → heap.entries ≡ l
        → IsHeap l
        → Ends {A = ExpHeap × Option ExpEntry}
            (λ r. IsHeap r.0.entries × Taken l r.0.entries r.1 × (r.0.capacity ≡ heap.capacity))
            (elim l [
              | [] ↦ some (heap, none)
              | result ∷ rest ↦
                  if ltb 0 (length rest)
                  then (replace_by_last (result ∷ rest) 0 >>= λ l.
                      sift_down (suc (length l)) l 0 >>= λ l.
                      some (record heap { entries = l }, some result))
                  else some (record heap { entries = [] }, some result)
            ])
    go [] e h = ends (subst IsHeap (sym e) h, (refl, e), refl)
    go (x ∷ rest) e h =
        Ends-if (ltb 0 (length rest))
          (λ y. Ends-bind (replace_by_last-Replaced (x ∷ rest) 0 x (omega arith) refl) λ l' w.
            let s : 0 < length l' = ground (arith, y, w.size) in
            Ends-bind
              (sift_down-Sifted (suc (length l')) l' 0 (omega arith) s
                (Replaced-IsHeapBut (x ∷ rest) l' 0 x w h s) (λ z. absurd (omega arith)))
              λ l'' r.
                ends (r.heap, (Perm.trans (Perm.cons x r.perm) w.perm, first_least x rest h), refl))
          (λ n.
            let none_left : rest ≡ [] = no_more rest (ground (arith, n)) in
            ends (
              empty-IsHeap,
              (
                subst (λ m. Perm (x ∷ []) (x ∷ m)) (sym none_left) (Perm.refl _),
                first_least x rest h,
              ),
              refl,
            ))
      where
        no_more : (m : List ExpEntry) → length m ≡ 0 → m ≡ []
        no_more [] e = refl
        no_more (y ∷ m) e = absurd (omega (arith, e))
