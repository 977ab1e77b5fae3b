-- ===== src/Dict/Growth.antt =====
-- The growth of the dictionary: a power of two that is large enough, and a second, empty table.
use mathlib.Core.List.{Perm}
use mathlib.Core.List.Perm
use rediskrazy.Base.{
  ℕ, zero, suc, ◌-◌, ◌<◌, ◌≤◌, ◌^◌, ◌%◌, ◌≡◌, refl, sym, ap, ◌∙◌, ◌⊎◌, inl, inr, true, false, none,
  some, List, [], if◌then◌else◌, length, Bool-cases, arith, append-nil, ltb, leb, Ends, ends,
  Ends-map, Ends-inv, Ends-if,
}
use rediskrazy.Base.Perm.{length-perm}
use rediskrazy.Dict.{Chain, Dictht, Dict, dict_reset}
use rediskrazy.Dict.Table.{all_entries, IsTable}
use rediskrazy.Dict.Rehash.{Holds, steady, moving}
use rediskrazy.Base.{replicate, length-replicate, ◌*◌}
use rediskrazy.Dict.{grow_size, dict_expand, make_room}
use rediskrazy.Dict.Table.{IsPlaced}

-- A dictionary without a table yet, or one with a table.
pub data Represents (d : Dict) (l : Chain) : Type 0 where
  fresh :
      d.ht0.table ≡ none
      → d.ht0.used ≡ 0
      → d.ht0.size ≡ 0
      → d.ht1 ≡ dict_reset
      → d.rehashidx ≡ none
      → l ≡ []
      → Represents d l
  holds : Holds d l → Represents d l

pow_step : (r n : ℕ) → r * 2 ^ suc n ≡ r * 2 * 2 ^ n
pow_step r n = grind arith

grow_size-more :
    (n r size : ℕ)
    → ltb r size ≡ true
    → grow_size (suc n) r size ≡ grow_size n (r * 2 % 2 ^ 64) size
unfolding grow_size
grow_size-more n r size h = rw (grow_size, h) refl

grow_size-done : (n r size : ℕ) → ltb r size ≡ false → grow_size (suc n) r size ≡ some r
unfolding grow_size
grow_size-done n r size h = rw (grow_size, h) refl

-- The size found is at least the size asked for, and at most twice that.
pub grow_size-le :
    (rounds r size : ℕ)
    → 0 < r
    → size < 2 ^ 62
    → r < 2 ^ 63
    → size ≤ r * 2 ^ rounds
    → Ends (λ s. (size ≤ s) × (0 < s) × ((s ≡ r) ⊎ (s < 2 * size))) (grow_size (suc rounds) r size)
grow_size-le zero r size h a b f = elim (Bool-cases (ltb r size)) [
  | inl y ↦ absurd (ground arith)
  | inr n ↦ rw (grow_size-done zero r size n) (ends (ground arith, h, inl refl))
]
grow_size-le (suc rounds) r size h a b f = elim (Bool-cases (ltb r size)) [
  | inl y ↦
      let small : r < size = ground arith in
      let same : r * 2 % 2 ^ 64 ≡ r * 2 = omega arith in
      rw (grow_size-more (suc rounds) r size y, same)
        (Ends-map
          (grow_size-le rounds (r * 2) size (omega arith) a (omega arith)
            (omega (arith, pow_step r rounds)))
          λ s (x, y, z). (x, y, inr (elim z [ inl e ↦ omega arith | inr w ↦ w ])))
  | inr n ↦ rw (grow_size-done (suc rounds) r size n) (ends (ground arith, h, inl refl))
]

all_entries-replicate : (n : ℕ) → all_entries (replicate n []) ≡ []
all_entries-replicate zero = refl
all_entries-replicate (suc n) = all_entries-replicate n

IsPlaced-replicate : (m j n : ℕ) → IsPlaced m j (replicate n [])
IsPlaced-replicate m j zero = tt
IsPlaced-replicate m j (suc n) = (tt, IsPlaced-replicate m (suc j) n)

empty_table : ℕ → Dictht
empty_table n = record { table = some (replicate n []); size = n; sizemask = n - 1; used = 0 }

empty_table-IsTable : (n : ℕ) → 0 < n → IsTable (empty_table n) (replicate n [])
unfolding empty_table
empty_table-IsTable n h = record {
  buckets = refl;
  sized = sym (length-replicate n []);
  masked = omega arith;
  placed = IsPlaced-replicate (n - 1) 0 n;
  counted = ap length (sym (all_entries-replicate n));
}

dict_expand-fresh :
    (d : Dict) (size s : ℕ)
    → d.rehashidx ≡ none
    → d.ht0.table ≡ none
    → grow_size 64 4 size ≡ some s
    → dict_expand d size ≡ some (record d { ht0 = empty_table s })
unfolding dict_expand empty_table
dict_expand-fresh d size s r h g = ground arith

dict_expand-steady :
    (d : Dict) (size s : ℕ) (t : List Chain)
    → d.rehashidx ≡ none
    → d.ht0.table ≡ some t
    → grow_size 64 4 size ≡ some s
    → dict_expand d size ≡ some (record d { ht1 = empty_table s; rehashidx = some 0 })
unfolding dict_expand empty_table
dict_expand-steady d size s t r h g = ground arith

-- A table that is full is grown to at least twice its entries.
dict_expand-Holds :
    (d : Dict) (t : List Chain) (l : Chain) (size : ℕ)
    → IsTable d.ht0 t
    → d.rehashidx ≡ none
    → Perm (all_entries t) l
    → size < 2 ^ 62
    → Ends (λ d'. Holds d' l) (dict_expand d size)
dict_expand-Holds d t l size v r p s =
    let (n, e, (_, pos_n, _)) =
      Ends-inv (grow_size-le 63 4 size (omega arith) s (omega arith) (omega arith)) in
    rw (dict_expand-steady d size n t r v.buckets e) (
      ends (
        moving t (replicate n []) 0 v (empty_table-IsTable n pos_n) refl
          (omega (arith, v.sized, v.masked)) tt
          (rw (all_entries-replicate n, append-nil (all_entries t)) p)))

grow_full :
    (d : Dict) (l : Chain)
    → Holds d l
    → length l < 2 ^ 61
    → Ends
        (λ d'. Holds d' l)
        (elim (d.rehashidx) [
          | some _ ↦ some d
          | none ↦
              if leb d.ht0.size d.ht0.used then dict_expand d (d.ht0.used * 2 % 2 ^ 64) else some d
        ])
grow_full d l (steady t v u r p) s =
    let count : d.ht0.used ≡ length l = v.counted ∙ length-perm p in
    rw r (
      Ends-if (leb d.ht0.size d.ht0.used)
        (λ y. dict_expand-Holds d t l (d.ht0.used * 2 % 2 ^ 64) v r p (omega arith))
        (λ n. ends (steady t v u r p)))
grow_full d l (moving t t' i v v' r h m p) s = rw r (ends (moving t t' i v v' r h m p))

make_room-table :
    (d : Dict) (t : List Chain)
    → d.ht0.table ≡ some t
    → make_room d ≡ elim (d.rehashidx) [
      | some _ ↦ some d
      | none ↦ if leb d.ht0.size d.ht0.used then dict_expand d (d.ht0.used * 2 % 2 ^ 64) else some d
    ]
unfolding make_room
make_room-table d t h = rw h refl

make_room-fresh :
    (d d' : Dict)
    → d.ht0.table ≡ none
    → dict_expand d 4 ≡ some d'
    → make_room d ≡ elim (d'.rehashidx) [
      | some _ ↦ some d'
      | none ↦
          if leb d'.ht0.size d'.ht0.used then dict_expand d' (d'.ht0.used * 2 % 2 ^ 64) else some d'
    ]
unfolding make_room
make_room-fresh d d' h g = rw (h, g) refl

-- After the tests for growth there is a table, with the same entries.
pub make_room-Holds :
    (d : Dict) (l : Chain)
    → Represents d l
    → length l < 2 ^ 61
    → Ends (λ d'. Holds d' l) (make_room d)
make_room-Holds d l (fresh a b b' c r e) s =
    let (n, g, (_, pos_n, _)) =
      Ends-inv (grow_size-le 63 4 4 (omega arith) (omega arith) (omega arith) (omega arith)) in
    let d' = record d { ht0 = empty_table n } in
    rw (make_room-fresh d d' a (dict_expand-fresh d 4 n r a g)) (
      grow_full d' l
        (steady (replicate n []) (empty_table-IsTable n pos_n) c r
          (rw (all_entries-replicate n, e) (Perm.refl [])))
        s)
make_room-Holds d l (holds (steady t v u r p)) s =
    rw (make_room-table d t v.buckets) (grow_full d l (steady t v u r p) s)
make_room-Holds d l (holds (moving t t' i v v' r h m p)) s =
    rw (make_room-table d t v.buckets) (grow_full d l (moving t t' i v v' r h m p) s)
