-- ===== src/Expheap/Tests.antt =====
-- A push on a full heap.
use rediskrazy.Base.{refl, ◌≡◌, ◌≤◌, [], ◌∷◌, ◌>>=◌, Option, some, subst, sym, length, arith, Ends}
use mathlib.Core.List.{Perm}
use rediskrazy.Sds.{memcmp, sdscmp}
use rediskrazy.Expheap.{
  ExpEntry, ExpHeap, expheap_push, expheap_pop, expheap_remove, find_key, replace_by_last,
  sift_down, smaller,
}
use rediskrazy.Expheap.Swap.{expire_at}
use rediskrazy.Expheap.Order.{parent, IsHeap}
use rediskrazy.Expheap.Remove.{Removed, expheap_remove_correct}
use rediskrazy.Expheap.Queue.{Taken, expheap_push_correct, expheap_pop_correct}

-- Two entries, and room for no more.
abbrev full_heap : ExpHeap
full_heap = record {
  entries = record { key = 97 ∷ []; expire = 4 } ∷ record { key = 98 ∷ []; expire = 9 } ∷ [];
  capacity = 2;
}

two_entries-IsHeap : IsHeap full_heap.entries
two_entries-IsHeap i z s =
    let only : i ≡ 1 = omega arith in
    subst (λ k. expire_at full_heap.entries (parent k) ≤ expire_at full_heap.entries k) (sym only)
      (omega arith)

expheap_push_correct_example :
    Ends
      (λ h.
        IsHeap h.entries
        × Perm h.entries (record { key = 99 ∷ []; expire = 1 } ∷ full_heap.entries)
        × (length h.entries ≤ h.capacity)
        × (h.capacity ≡ 4))
      (expheap_push full_heap (99 ∷ []) 1)
expheap_push_correct_example =
    expheap_push_correct full_heap (99 ∷ []) 1 two_entries-IsHeap (omega arith) (omega arith)
      (omega arith)

expheap_pop_correct_example :
    Ends {A = ExpHeap × Option ExpEntry}
      (λ r.
        IsHeap r.0.entries
        × Taken full_heap.entries r.0.entries r.1
        × (r.0.capacity ≡ full_heap.capacity))
      (expheap_pop full_heap)
expheap_pop_correct_example = expheap_pop_correct full_heap two_entries-IsHeap

expheap_remove_correct_example :
    Ends
      (λ h.
        IsHeap h.entries
        × Removed (97 ∷ []) full_heap.entries h.entries
        × (h.capacity ≡ full_heap.capacity))
      (expheap_remove full_heap (97 ∷ []))
expheap_remove_correct_example = expheap_remove_correct full_heap (97 ∷ []) two_entries-IsHeap

-- The first entry is removed, and the last one takes its place.
key_removed :
    (expheap_remove full_heap (97 ∷ []) >>= λ h. some h.entries)
    ≡ some (record { key = 98 ∷ []; expire = 9 } ∷ [])
unfolding expheap_remove find_key sdscmp memcmp replace_by_last sift_down smaller
key_removed = refl
