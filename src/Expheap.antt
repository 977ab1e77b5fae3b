-- ===== src/Expheap.antt =====
-- backend/expheap.h and expheap.c: the heap of keys by their expiry.
-- `entries` is the part of the array below `size`, and `size` its length. `none` is a read or write
-- outside of that part or of the array, or a loop that needs more rounds than it is given.
pub mod Swap
pub mod Order
pub mod Replace
pub mod Queue
pub mod Remove
pub mod Tests
use rediskrazy.Base.{
  ◌>>=◌, ℕ, zero, suc, ◌+◌, ◌-◌, ◌*◌, ◌/◌, ◌%◌, ◌^◌, Bool, true, false, ◌&&◌, Option, none, some,
  List, [], ◌∷◌, ◌++◌, ltb, leb, ◌==◌, if◌then◌else◌, length, get_elem?, set, take,
}
use rediskrazy.Base.Int.{ℤ, pos, negsuc}
use rediskrazy.Sds.{Sds, sdscmp}

pub record ExpEntry : Type 0 where
  pub key : Sds
  pub expire : ℕ

pub record ExpHeap : Type 0 where
  pub entries : List ExpEntry
  pub capacity : ℕ

unfoldable pub swap : List ExpEntry → ℕ → ℕ → Option (List ExpEntry)
swap l i j = get_elem? l i >>= λ a. get_elem? l j >>= λ b. some (set (set l i b) j a)

-- The entry at `i` expires before the one at `j`.
unfoldable pub before : List ExpEntry → ℕ → ℕ → Option Bool
before l i j = get_elem? l i >>= λ a. get_elem? l j >>= λ b. some (ltb a.expire b.expire)

unfoldable pub sift_up : ℕ → List ExpEntry → ℕ → Option (List ExpEntry)
sift_up zero l idx = none
sift_up (suc rounds) l idx = elim (ltb 0 idx) [
  | false ↦ some l
  | true ↦ before l idx ((idx - 1) / 2) >>= λ less. elim less [
    | false ↦ some l
    | true ↦ swap l idx ((idx - 1) / 2) >>= λ l'. sift_up rounds l' ((idx - 1) / 2)
  ]
]

-- The child at `child` if there is one that expires before the entry at `smallest`, else `smallest`.
unfoldable pub smaller : List ExpEntry → ℕ → ℕ → Option ℕ
smaller l child smallest =
    if ltb child (length l)
    then (before l child smallest >>= λ less. some (if less then child else smallest))
    else some smallest

unfoldable pub sift_down : ℕ → List ExpEntry → ℕ → Option (List ExpEntry)
sift_down zero l idx = none
sift_down (suc rounds) l idx = smaller l (2 * idx + 1) idx >>= λ s.
    smaller l (2 * idx + 2) s >>= λ smallest. elim (smallest == idx) [
      | true ↦ some l
      | false ↦ swap l idx smallest >>= λ l'. sift_down rounds l' smallest
    ]

pub expheap_init : ℕ → ExpHeap
expheap_init initial_cap = record {
  entries = [];
  capacity = if ltb 0 initial_cap then initial_cap else 16;
}

-- The array is of capacity * sizeof(ExpEntry) bytes, a product that wraps, with 16 bytes for an entry.
abbrev pub places : ℕ → ℕ
places capacity = capacity * 16 % 2 ^ 64 / 16

unfoldable pub expheap_push : ExpHeap → Sds → ℕ → Option ExpHeap
expheap_push heap key expire =
    let capacity : ℕ =
      if leb heap.capacity (length heap.entries)
      then heap.capacity * 2 % 2 ^ 64
      else heap.capacity in
    if ltb (length heap.entries) (places capacity)
    then (sift_up (suc (length heap.entries))
          (heap.entries ++ (record { key = key; expire = expire } ∷ [])) (length heap.entries)
        >>= λ l. some (record { entries = l; capacity = capacity }))
    else none

unfoldable pub expheap_peek : ExpHeap → Option ExpEntry
expheap_peek heap = get_elem? heap.entries 0

-- The last entry takes the place `i`, and the size goes down.
unfoldable pub replace_by_last : List ExpEntry → ℕ → Option (List ExpEntry)
replace_by_last l i =
    get_elem? l (length l - 1) >>= λ last. some (take (length l - 1) (set l i last))

-- The second component is `none` for the result { NULL, 0 }.
unfoldable pub expheap_pop : ExpHeap → Option (ExpHeap × Option ExpEntry)
expheap_pop heap = elim (heap.entries) [
  | [] ↦ some (heap, none)
  | result ∷ rest ↦
      if ltb 0 (length rest)
      then (replace_by_last (result ∷ rest) 0 >>= λ l.
          sift_down (suc (length l)) l 0 >>= λ l. some (record heap { entries = l }, some result))
      else some (record heap { entries = [] }, some result)
]

abbrev is_zero : ℤ → Bool
is_zero (pos n) = n == 0
is_zero (negsuc n) = false

-- The index of the first entry with the key.
unfoldable pub find_key : Sds → List ExpEntry → Option ℕ
find_key key [] = none
find_key key (e ∷ l) =
    if is_zero (sdscmp e.key key)
    then some 0
    else elim (find_key key l) [ none ↦ none | some i ↦ some (suc i) ]

unfoldable pub expheap_remove : ExpHeap → Sds → Option ExpHeap
expheap_remove heap key = elim (find_key key heap.entries) [
  | none ↦ some heap
  | some i ↦ replace_by_last heap.entries i >>= λ l.
      if ltb i (length l)
      then ((if ltb 0 i then before l i ((i - 1) / 2) else some false) >>= λ up.
          (if up then sift_up (suc i) l i else sift_down (suc (length l)) l i) >>= λ l.
          some (record heap { entries = l }))
      else some (record heap { entries = l })
]
