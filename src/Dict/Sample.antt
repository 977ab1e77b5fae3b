-- ===== src/Dict/Sample.antt =====
-- backend/dict.c: dict_active_expire, which looks into random buckets. The results of rand() are arguments: the first
-- one chooses the table, and `rand i` the bucket of the round with `i` rounds left.
use rediskrazy.Base.{
  ◌>>=◌, ℕ, zero, suc, ◌+◌, ◌%◌, Bool, true, false, not, Option, none, some, [], ◌∷◌, ◌==◌,
  if◌then◌else◌,
}
use Prim.Native.Nat.{bit_and}
use rediskrazy.Dict.{Chain, Dictht, Dict, bucket, set_bucket, size_dec, rehash_step, is_expired}

-- The loop over a chain: what stays, and how many entries are freed.
unfoldable pub expire_chain : ℕ → Chain → Chain × ℕ
expire_chain now [] = ([], 0)
expire_chain now (cur ∷ next) =
    let rest : Chain × ℕ = expire_chain now next in
    if is_expired now cur then (rest.0, rest.1 + 1) else (cur ∷ rest.0, rest.1)

unfoldable pub size_dec_by : ℕ → ℕ → ℕ
size_dec_by used zero = used
size_dec_by used (suc n) = size_dec_by (size_dec used) n

-- The loop over `n` buckets; `count` entries are freed so far.
unfoldable pub expire_buckets : ℕ → (ℕ → ℕ) → Dictht → ℕ → ℕ → Option (Dictht × ℕ)
expire_buckets zero rand ht now count = some (ht, count)
expire_buckets (suc n) rand ht now count =
    let idx : ℕ = bit_and (rand n) ht.sizemask in
    bucket ht idx >>= λ chain.
    let kept : Chain × ℕ = expire_chain now chain in
    set_bucket ht idx kept.0 (size_dec_by ht.used kept.1) >>= λ ht.
    expire_buckets n rand ht now (count + kept.1)

abbrev pub is_null : Dictht → Bool
is_null ht = elim (ht.table) [ none ↦ true | some _ ↦ false ]

-- Whether the second table is chosen.
abbrev pub second_chosen : Dict → ℕ → Bool
second_chosen d coin = elim (d.rehashidx) [
  | none ↦ is_null d.ht0
  | some _ ↦ if coin % 2 == 1 then not (is_null d.ht1) else is_null d.ht0
]

unfoldable pub dict_active_expire : Dict → ℕ → ℕ → (ℕ → ℕ) → ℕ → Option (Dict × ℕ)
dict_active_expire d n_buckets coin rand now =
    if is_null d.ht0
    then some (d, 0)
    else rehash_step d >>= λ d.
        if second_chosen d coin
        then (if is_null d.ht1
            then some (d, 0)
            else expire_buckets n_buckets rand d.ht1 now 0 >>= λ (ht, n).
                some (record d { ht1 = ht }, n))
        else expire_buckets n_buckets rand d.ht0 now 0 >>= λ (ht, n).
            some (record d { ht0 = ht }, n)
