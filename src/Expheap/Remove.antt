-- ===== src/Expheap/Remove.antt =====
-- expheap_remove takes out the first entry with a key.
use rediskrazy.Base.{
  ◌>>=◌, ℕ, suc, ◌-◌, ◌/◌, ◌<◌, ◌≡◌, ◌≢◌, refl, ap, subst, true, false, Option, none, some, List,
  [], ◌∷◌, ◌&&◌, ltb, length, get_elem?, arith, if◌then◌else◌, All, Ends, ends, Ends-bind, Ends-map,
  Ends-if, Ends-option, Bool-cases, inl, inr, ◌⊎◌,
}
use mathlib.Core.List.Perm
use mathlib.Core.List.{Perm}
use rediskrazy.Base.Int.{ℤ, pos, negsuc}
use rediskrazy.Sds.{Sds, sdscmp}
use rediskrazy.Expheap.{
  ExpEntry, ExpHeap, is_zero, find_key, before, sift_up, sift_down, expheap_remove,
}
use rediskrazy.Expheap.Swap.{expire_at, before-Ends}
use rediskrazy.Expheap.Replace.{replace_by_last-Replaced, Replaced-IsHeap, Replaced-IsHeapBut}
use rediskrazy.Expheap.Order.{parent, IsHeap, IsHeapBut, Sifted, sift_up-Sifted, sift_down-Sifted}

-- Taken out of `l` is an entry with the key, or there is none.
abbrev pub Removed : Sds → List ExpEntry → List ExpEntry → Type 0
Removed key l l' =
    (All (λ x. sdscmp x.key key ≢ pos 0) l × (l' ≡ l))
    ⊎ (e : ExpEntry) × (sdscmp e.key key ≡ pos 0) × Perm (e ∷ l') l

is_zero_iff : (z : ℤ) → (is_zero z ≡ true → z ≡ pos 0) × (is_zero z ≡ false → z ≢ pos 0)
is_zero_iff (pos n) =
    (λ h. ap pos (ground (arith, h)), λ h e. let same : n ≡ 0 = cc in ground (arith, h, same))
is_zero_iff (negsuc n) = (λ h. cc, λ h e. cc)

-- The entry that find_key finds.
record Found (key : Sds) (l : List ExpEntry) (i : ℕ) : Type 0 where
  entry : ExpEntry
  there : get_elem? l i ≡ some entry
  inside : i < length l
  has_key : sdscmp entry.key key ≡ pos 0

-- What a result of find_key says.
abbrev Search : Sds → List ExpEntry → Option ℕ → Type 0
Search key l none = All (λ x. sdscmp x.key key ≢ pos 0) l
Search key l (some i) = Found key l i

next_Search :
    (key : Sds) (e : ExpEntry) (l : List ExpEntry) (o : Option ℕ)
    → sdscmp e.key key ≢ pos 0
    → Search key l o
    → Search key (e ∷ l) (elim o [ none ↦ none | some i ↦ some (suc i) ])
next_Search key e l none n h = (n, h)
next_Search key e l (some i) n h = record {
  entry = h.entry;
  there = h.there;
  inside = omega (arith, h.inside);
  has_key = h.has_key;
}

find_key-Search : (key : Sds) (l : List ExpEntry) → Search key l (find_key key l)
unfolding find_key
find_key-Search key [] = tt
find_key-Search key (e ∷ l) = elim (Bool-cases (is_zero (sdscmp e.key key))) [
  | inl y ↦ rw y (record {
    entry = e;
    there = refl;
    inside = omega arith;
    has_key = (is_zero_iff (sdscmp e.key key)).0 y;
  })
  | inr n ↦ rw n (
      next_Search key e l (find_key key l) ((is_zero_iff (sdscmp e.key key)).1 n)
        (find_key-Search key l))
]

-- Where the last entry was put in a place of the array, it is sifted up or down from there.
placed-Sifted :
    {Q : ExpHeap → Type 0} (l : List ExpEntry) (i : ℕ) (k : List ExpEntry → Option ExpHeap)
    → i < length l
    → IsHeapBut l i
    → ((l' : List ExpEntry) → Sifted l l' → Ends Q (k l'))
    → Ends Q (
        (if ltb 0 i then before l i ((i - 1) / 2) else some false) >>= λ up.
        (if up then sift_up (suc i) l i else sift_down (suc (length l)) l i) >>= k)
placed-Sifted l i k s h next =
    Ends-bind
      (Ends-if {P = λ up. up ≡ ltb 0 i && ltb (expire_at l i) (expire_at l (parent i))} (ltb 0 i)
        (λ y. Ends-map (before-Ends l i (parent i) s (omega arith)) λ up t. rw (t, y) refl)
        (λ n. ends (rw n refl)))
      λ up t.
        Ends-bind
          (Ends-if up
            (λ y.
              let less : expire_at l i < expire_at l (parent i) = ground (arith, t, y) in
              sift_up-Sifted (suc i) l i (omega arith) s h
                (λ j z sj e. omega (arith, h.over j z sj e (ground (arith, t, y)), less)))
            (λ n.
              sift_down-Sifted (suc (length l)) l i (omega arith) s h (λ z. ground (arith, t, n))))
          next

-- expheap_remove, of a heap with the order, reads and writes inside the array, and its loops end: where an entry has the key, as
-- sdscmp tells, one such entry is taken out, and otherwise nothing changes; the order holds again.
pub expheap_remove_correct :
    (heap : ExpHeap) (key : Sds)
    → IsHeap heap.entries
    → Ends
        (λ h. IsHeap h.entries × Removed key heap.entries h.entries × (h.capacity ≡ heap.capacity))
        (expheap_remove heap key)
unfolding expheap_remove
expheap_remove_correct heap key o =
    Ends-option (find_key key heap.entries)
      (λ n.
        ends (
          o,
          inl (subst (Search key heap.entries) n (find_key-Search key heap.entries), refl),
          refl,
        ))
      (λ i q.
        let f : Found key heap.entries i =
          subst (Search key heap.entries) q (find_key-Search key heap.entries) in
        Ends-bind (replace_by_last-Replaced heap.entries i f.entry f.inside f.there) λ l w.
          Ends-if (ltb i (length l))
            (λ y.
              let s : i < length l = ground (arith, y) in
              placed-Sifted l i _ s (Replaced-IsHeapBut heap.entries l i f.entry w o s) λ l' r.
                ends (
                  r.heap,
                  inr (f.entry, f.has_key, Perm.trans (Perm.cons f.entry r.perm) w.perm),
                  refl,
                ))
            (λ n. ends (
              Replaced-IsHeap heap.entries l i f.entry w o (ground (arith, n)),
              inr (f.entry, f.has_key, w.perm),
              refl,
            )))
