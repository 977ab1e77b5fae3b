-- ===== src/Dict.antt =====
-- backend/dict.h and backend/dict.c: the hash table with incremental rehashing.
-- A chain of DictEntry nodes is the list of its entries, from its head; a pointer to a node that a
-- caller writes through is found again by its key (`write_node`). `none` is a read or write through a
-- NULL table or outside of it, or a loop that does not end; calloc and malloc are taken to succeed.
-- Each call reads the clock at most once, and takes its value, `now`.
pub mod Sample
pub mod Active
pub mod Sampled
pub mod Entries
pub mod Table
pub mod Rehash
pub mod Edit
pub mod Search
pub mod Write
pub mod Growth
pub mod Insert
pub mod Lookup
pub mod Contents
pub mod Expiry
pub mod Tests
use Prim.Native.Nat.{bit_and}
use rediskrazy.Base.{
  ◌>>=◌, ℕ, zero, suc, ◌+◌, ◌-◌, ◌*◌, ◌%◌, ◌^◌, Bool, true, false, ◌&&◌, Option, none, some, List,
  [], ◌∷◌, ◌++◌, ltb, leb, ◌==◌, if◌then◌else◌, length, get_elem?, set, replicate, bytes_eq,
}
use rediskrazy.Base.Int.{ℤ, pos, negsuc}
use rediskrazy.Sds.{Sds}

pub record DictEntry : Type 0 where
  pub key : Sds
  pub val : Sds
  pub expire : ℕ

abbrev pub Chain : Type 0
Chain = List DictEntry

-- `table` is `none` for NULL.
pub record Dictht : Type 0 where
  pub table : Option (List Chain)
  pub size : ℕ
  pub sizemask : ℕ
  pub used : ℕ

-- `rehashidx` is `none` for -1.
pub record Dict : Type 0 where
  pub ht0 : Dictht
  pub ht1 : Dictht
  pub rehashidx : Option ℕ

-- `h` is an unsigned long of 64 bits, and the result its low 32 bits.
unfoldable pub hash_loop : ℕ → Sds → ℕ
hash_loop h [] = h
hash_loop h (c ∷ s) = hash_loop (((h * 2 ^ 5) % 2 ^ 64 + h + c) % 2 ^ 64) s

unfoldable pub hash_fn : Sds → ℕ
unfolding hash_loop
hash_fn key = hash_loop 5381 key % 2 ^ 32

-- hash_fn(key) & sizemask
unfoldable pub bucket_of : Dictht → Sds → ℕ
bucket_of ht key = bit_and (hash_fn key) ht.sizemask

abbrev pub dict_reset : Dictht
dict_reset = record { table = none; size = 0; sizemask = 0; used = 0 }

unfoldable pub dict_init : Dict
dict_init = record { ht0 = dict_reset; ht1 = dict_reset; rehashidx = none }

-- ht->table[idx]
unfoldable pub bucket : Dictht → ℕ → Option Chain
bucket ht idx = ht.table >>= λ t. get_elem? t idx

-- ht->table[idx] = chain, and `used` becomes `n`.
unfoldable pub set_bucket : Dictht → ℕ → Chain → ℕ → Option Dictht
set_bucket ht idx chain n = ht.table >>= λ t.
    if ltb idx (length t)
    then some (record ht { table = some (set t idx chain); used = n })
    else none

abbrev pub size_inc : ℕ → ℕ
size_inc n = (n + 1) % 2 ^ 64

abbrev pub size_dec : ℕ → ℕ
size_dec n = (n + 2 ^ 64 - 1) % 2 ^ 64

-- The inner `while (de)` of dict_rehash: `n` is ht[0].used.
unfoldable pub move_chain : Chain → ℕ → Dictht → Option (ℕ × Dictht)
move_chain [] n ht1 = some (n, ht1)
move_chain (de ∷ nextde) n ht1 = bucket ht1 (bucket_of ht1 de.key) >>= λ chain.
    set_bucket ht1 (bucket_of ht1 de.key) (de ∷ chain) (size_inc ht1.used) >>= λ ht1'.
    move_chain nextde (size_dec n) ht1'

-- The search for a bucket that is not empty, at most `rounds` steps; `ht.size` says that there is none.
unfoldable pub skip_empty : ℕ → Dictht → ℕ → Option ℕ
skip_empty zero ht i = none
skip_empty (suc rounds) ht i = bucket ht i >>= λ chain. elim chain [
  | [] ↦ if leb ht.size (i + 1) then some (i + 1) else skip_empty rounds ht (i + 1)
  | _ ↦ some i
]

-- From `end_rehash` on.
unfoldable pub end_rehash : Dict → Dict
end_rehash d =
    if d.ht0.used == 0 then record { ht0 = d.ht1; ht1 = dict_reset; rehashidx = none } else d

-- The outer loop of dict_rehash, `n` rounds, with rehashidx at `i`.
unfoldable pub rehash_loop : ℕ → Dict → ℕ → Option Dict
rehash_loop zero d i = some (end_rehash (record d { rehashidx = some i }))
rehash_loop (suc n) d i =
    let round : Option Dict = skip_empty d.ht0.size d.ht0 i >>= λ j.
    if leb d.ht0.size j
    then some (end_rehash (record d { ht0 = record (d.ht0) { used = 0 }; rehashidx = some j }))
    else (bucket d.ht0 j >>= λ chain. move_chain chain d.ht0.used d.ht1 >>= λ (used, ht1).
        set_bucket d.ht0 j [] used >>= λ ht0.
        rehash_loop n (record { ht0 = ht0; ht1 = ht1; rehashidx = some j }) (j + 1)) in
    if d.ht0.used == 0 then some (end_rehash (record d { rehashidx = some i })) else round

-- The dictionary after dict_rehash; it returns 1 exactly if rehashing is still in progress.
unfoldable pub dict_rehash : Dict → ℕ → Option Dict
dict_rehash d n = elim (d.rehashidx) [ none ↦ some d | some i ↦ rehash_loop n d i ]

unfoldable pub rehash_step : Dict → Option Dict
rehash_step d = elim (d.rehashidx) [ none ↦ some d | some i ↦ dict_rehash d 1 ]

-- while (realsize < size) realsize *= 2, at most `rounds` steps.
unfoldable pub grow_size : ℕ → ℕ → ℕ → Option ℕ
grow_size zero realsize size = none
grow_size (suc rounds) realsize size = elim (ltb realsize size) [
  | true ↦ grow_size rounds (realsize * 2 % 2 ^ 64) size
  | false ↦ some realsize
]

unfoldable pub dict_expand : Dict → ℕ → Option Dict
dict_expand d size = elim (d.rehashidx) [
  | some i ↦ some d
  | none ↦ grow_size 64 4 size >>= λ realsize.
      let n : Dictht = record {
        table = some (replicate realsize []);
        size = realsize;
        sizemask = realsize - 1;
        used = 0;
      } in
      elim (d.ht0.table) [
        | none ↦ some (record d { ht0 = n })
        | some _ ↦ some (record d { ht1 = n; rehashidx = some 0 })
      ]
]

-- The first entry of the chain with this key.
unfoldable pub find : Sds → Chain → Option DictEntry
find key [] = none
find key (he ∷ next) = if bytes_eq he.key key then some he else find key next

-- The loop over the tables, after a rehash step.
unfoldable pub search_tables : Dict → Sds → Option (Option DictEntry)
search_tables d key = bucket d.ht0 (bucket_of d.ht0 key) >>= λ chain. elim (find key chain) [
  | some he ↦ some (some he)
  | none ↦ elim (d.rehashidx) [
    | none ↦ some none
    | some _ ↦ bucket d.ht1 (bucket_of d.ht1 key) >>= λ chain'. some (find key chain')
  ]
]

-- The dictionary after the rehash step, and the node found.
unfoldable pub dict_lookup_node : Dict → Sds → Option (Dict × Option DictEntry)
dict_lookup_node d key =
    if (d.ht0.used + d.ht1.used) % 2 ^ 64 == 0
    then some (d, none)
    else rehash_step d >>= λ d'. search_tables d' key >>= λ e. some (d', e)

-- ttl_seconds > 0 ? time(NULL) + ttl_seconds : 0
abbrev pub expiry_of : ℤ → ℕ → ℕ
expiry_of (pos n) now = if n == 0 then 0 else now + n
expiry_of (negsuc n) now = 0

-- e->expire > 0 && time(NULL) > e->expire
abbrev pub is_expired : ℕ → DictEntry → Bool
is_expired now e = ltb 0 e.expire && ltb e.expire now

-- Writes through the pointer that the search for `key` returned.
unfoldable pub update_chain : Sds → (DictEntry → DictEntry) → Chain → Chain
update_chain key f [] = []
update_chain key f (he ∷ next) =
    if bytes_eq he.key key then f he ∷ next else he ∷ update_chain key f next

unfoldable pub write_node : Dict → Sds → (DictEntry → DictEntry) → Option Dict
write_node d key f = bucket d.ht0 (bucket_of d.ht0 key) >>= λ chain. elim (find key chain) [
  | some _ ↦ set_bucket d.ht0 (bucket_of d.ht0 key) (update_chain key f chain) d.ht0.used >>= λ ht0.
      some (record d { ht0 = ht0 })
  | none ↦ bucket d.ht1 (bucket_of d.ht1 key) >>= λ chain'.
      set_bucket d.ht1 (bucket_of d.ht1 key) (update_chain key f chain') d.ht1.used >>= λ ht1.
      some (record d { ht1 = ht1 })
]

-- n->next = ht->table[idx]; ht->table[idx] = n; ht->used++
unfoldable pub push_node : Dictht → DictEntry → Option Dictht
push_node ht n = bucket ht (bucket_of ht n.key) >>= λ chain.
    set_bucket ht (bucket_of ht n.key) (n ∷ chain) (size_inc ht.used)

-- The two tests for growth at the start of dict_put.
unfoldable pub make_room : Dict → Option Dict
make_room d = (elim (d.ht0.table) [ none ↦ dict_expand d 4 | some _ ↦ some d ]) >>= λ d.
    elim (d.rehashidx) [
      | some _ ↦ some d
      | none ↦ if leb d.ht0.size d.ht0.used then dict_expand d (d.ht0.used * 2 % 2 ^ 64) else some d
    ]

-- The end of dict_put, where the key is not there.
unfoldable pub insert_node : Dict → DictEntry → Option Dict
insert_node d n = elim (d.rehashidx) [
  | none ↦ push_node d.ht0 n >>= λ ht0. some (record d { ht0 = ht0 })
  | some _ ↦ push_node d.ht1 n >>= λ ht1. some (record d { ht1 = ht1 })
]

unfoldable pub dict_put : Dict → Sds → Sds → ℤ → ℕ → Option Dict
dict_put d key val ttl_seconds now = make_room d >>= λ d. rehash_step d >>= λ d.
    dict_lookup_node d key >>= λ (d, e). elim e [
      | some _ ↦ write_node d key (λ e. record e { val = val; expire = expiry_of ttl_seconds now })
      | none ↦ insert_node d (record { key = key; val = val; expire = expiry_of ttl_seconds now })
    ]

unfoldable pub remove_chain : Sds → Chain → Chain
remove_chain key [] = []
remove_chain key (cur ∷ next) = if bytes_eq cur.key key then next else cur ∷ remove_chain key next

-- The loop over the tables in dict_delete.
unfoldable pub delete_node : Dict → Sds → Option Dict
delete_node d key = bucket d.ht0 (bucket_of d.ht0 key) >>= λ chain. elim (find key chain) [
  | some _ ↦
      set_bucket d.ht0 (bucket_of d.ht0 key) (remove_chain key chain) (size_dec d.ht0.used)
      >>= λ ht0. some (record d { ht0 = ht0 })
  | none ↦ elim (d.rehashidx) [
    | none ↦ some d
    | some _ ↦ bucket d.ht1 (bucket_of d.ht1 key) >>= λ chain'. elim (find key chain') [
      | none ↦ some d
      | some _ ↦
          set_bucket d.ht1 (bucket_of d.ht1 key) (remove_chain key chain') (size_dec d.ht1.used)
          >>= λ ht1. some (record d { ht1 = ht1 })
    ]
  ]
]

unfoldable pub dict_delete : Dict → Sds → Option Dict
dict_delete d key =
    if (d.ht0.used + d.ht1.used) % 2 ^ 64 == 0
    then some d
    else rehash_step d >>= λ d'. delete_node d' key

unfoldable pub dict_get : Dict → Sds → ℕ → Option (Dict × Option Sds)
dict_get d key now = dict_lookup_node d key >>= λ (d, e). elim e [
  | none ↦ some (d, none)
  | some e ↦
      if is_expired now e then (dict_delete d key >>= λ d. some (d, none)) else some (d, some e.val)
]

unfoldable pub dict_get_expiry : Dict → Sds → ℕ → Option (Dict × ℕ)
dict_get_expiry d key now = dict_lookup_node d key >>= λ (d, e). elim e [
  | none ↦ some (d, 0)
  | some e ↦
      if is_expired now e then (dict_delete d key >>= λ d. some (d, 0)) else some (d, e.expire)
]

-- The second component is the result, 1 or 0.
unfoldable pub dict_set_expiry : Dict → Sds → ℤ → ℕ → Option (Dict × Bool)
dict_set_expiry d key ttl_seconds now = dict_lookup_node d key >>= λ (d, e). elim e [
  | none ↦ some (d, false)
  | some _ ↦ write_node d key (λ e. record e { expire = expiry_of ttl_seconds now }) >>= λ d.
      some (d, true)
]

abbrev pub clear_table : Dictht → Dictht
clear_table ht = elim (ht.table) [ none ↦ ht | some _ ↦ dict_reset ]

pub dict_clear : Dict → Dict
dict_clear d = record { ht0 = clear_table d.ht0; ht1 = clear_table d.ht1; rehashidx = none }
