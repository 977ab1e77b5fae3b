-- ===== src/Dict/Table.antt =====
-- One table of the dictionary: its buckets, which entries they hold, and writes to a bucket.
use Prim.Native.Nat.{bit_and}
use mathlib.Core.Path.{subst}
use mathlib.Core.List.{Perm, perm_append_comm}
use mathlib.Core.List.Perm
use rediskrazy.Base.{
  ℕ, zero, suc, ◌+◌, ◌<◌, ◌≡◌, refl, sym, ap, ◌∙◌, ◌≢◌, inl, inr, none, some, List, [], ◌∷◌, ◌++◌,
  length, get_elem?, set, All, bytes_eq, bytes_eq_iff, Bool-cases, arith, length-set, append_assoc,
  lt→ltb, Ends, ends, ◌>>=◌,
}
use rediskrazy.Base.Perm.{length-perm}
use rediskrazy.Base.Bits.{bit_and-le}
use rediskrazy.Sds.{Sds}
use rediskrazy.Dict.{Chain, Dictht, find, hash_fn, bucket_of, bucket, set_bucket}
use rediskrazy.Dict.Entries.{find-append}

abbrev pub all_entries : List Chain → Chain
all_entries [] = []
all_entries (c ∷ t) = c ++ all_entries t

-- Every entry of the chain belongs into the bucket `j` under the mask `m`.
abbrev pub BelongsTo : ℕ → ℕ → Chain → Type 0
BelongsTo m j = All (λ e. bit_and (hash_fn e.key) m ≡ j)

abbrev pub IsPlaced : ℕ → ℕ → List Chain → Type 0
IsPlaced m j [] = Unit
IsPlaced m j (c ∷ t) = BelongsTo m j c × IsPlaced m (suc j) t

-- The header `ht` describes the buckets `t`.
pub record IsTable (ht : Dictht) (t : List Chain) : Type 0 where
  pub buckets : ht.table ≡ some t
  pub sized : ht.size ≡ length t
  pub masked : ht.size ≡ suc ht.sizemask
  pub placed : IsPlaced ht.sizemask 0 t
  pub counted : ht.used ≡ length (all_entries t)

pub get_elem?-some {ℓ} :
    {A : Type ℓ} (l : List A) (i : ℕ) → i < length l → (a : A) × (get_elem? l i ≡ some a)
get_elem?-some [] i h = absurd (omega arith)
get_elem?-some (x ∷ l) zero h = (x, refl)
get_elem?-some (x ∷ l) (suc i) h = get_elem?-some l i (omega arith)

pub front-perm {ℓ} : {A : Type ℓ} (x c r : List A) → Perm (x ++ (c ++ r)) (c ++ (x ++ r))
front-perm x c r =
    rw (sym (append_assoc x c r), sym (append_assoc c x r))
      (Perm.append_right r (perm_append_comm x c))

-- The entries with a chain written to bucket `i`: that chain, and those of the other buckets.
pub set-perm :
    (t : List Chain) (i : ℕ) (c : Chain)
    → i < length t
    → Perm (all_entries (set t i c)) (c ++ all_entries (set t i []))
set-perm [] i c h = absurd (omega arith)
set-perm (x ∷ t) zero c h = Perm.refl _
set-perm (x ∷ t) (suc i) c h =
    Perm.trans (Perm.append_left x (set-perm t i c (omega arith))) (front-perm x c _)

set-get_elem? {ℓ} :
    {A : Type ℓ} (l : List A) (i : ℕ) (a : A) → get_elem? l i ≡ some a → set l i a ≡ l
set-get_elem? [] i a h = refl
set-get_elem? (x ∷ l) zero a h = ground arith
set-get_elem? (x ∷ l) (suc i) a h = ap (◌∷◌ x) (set-get_elem? l i a h)

pub get_elem?-lt {ℓ} :
    {A : Type ℓ} (l : List A) (i : ℕ) (a : A) → get_elem? l i ≡ some a → i < length l
get_elem?-lt [] i a h = cc
get_elem?-lt (x ∷ l) zero a h = omega arith
get_elem?-lt (x ∷ l) (suc i) a h = omega (arith, get_elem?-lt l i a h)

-- The entries by the chain in bucket `i` and the others.
pub get-perm :
    (t : List Chain) (i : ℕ) (c : Chain)
    → get_elem? t i ≡ some c
    → Perm (all_entries t) (c ++ all_entries (set t i []))
get-perm t i c h =
    subst (λ x. Perm (all_entries x) (c ++ all_entries (set t i []))) (set-get_elem? t i c h)
      (set-perm t i c (get_elem?-lt t i c h))

pub IsPlaced-set :
    (m j : ℕ) (t : List Chain) (i : ℕ) (c : Chain)
    → IsPlaced m j t
    → BelongsTo m (j + i) c
    → IsPlaced m j (set t i c)
IsPlaced-set m j [] i c p q = tt
IsPlaced-set m j (x ∷ t) zero c p q = (subst (λ n. BelongsTo m n c) (omega arith) q, p.1)
IsPlaced-set m j (x ∷ t) (suc i) c p q =
    (p.0, IsPlaced-set m (suc j) t i c p.1 (subst (λ n. BelongsTo m n c) (omega arith) q))

pub IsPlaced-get_elem? :
    (m j : ℕ) (t : List Chain) (i : ℕ) (c : Chain)
    → IsPlaced m j t
    → get_elem? t i ≡ some c
    → BelongsTo m (j + i) c
IsPlaced-get_elem? m j [] i c p h = cc
IsPlaced-get_elem? m j (x ∷ t) zero c p h =
    let e : x ≡ c = ground arith in
    subst (λ n. BelongsTo m n c) (omega arith) (subst (BelongsTo m j) e p.0)
IsPlaced-get_elem? m j (x ∷ t) (suc i) c p h =
    subst (λ n. BelongsTo m n c) (omega arith) (IsPlaced-get_elem? m (suc j) t i c p.1 h)

-- A key is not found in a bucket that it does not belong to.
find-elsewhere :
    (m j : ℕ) (k : Sds) (c : Chain) → BelongsTo m j c → bit_and (hash_fn k) m ≢ j → find k c ≡ none
unfolding find
find-elsewhere m j k [] b h = refl
find-elsewhere m j k (e ∷ c) b h = elim (Bool-cases (bytes_eq e.key k)) [
  | inl y ↦ absurd (h (ap (λ x. bit_and (hash_fn x) m) (sym ((bytes_eq_iff e.key k).0 y)) ∙ b.0))
  | inr n ↦ rw n (find-elsewhere m j k c b.1 h)
]

find-before :
    (m j : ℕ) (k : Sds) (t : List Chain)
    → IsPlaced m j t
    → bit_and (hash_fn k) m < j
    → find k (all_entries t) ≡ none
find-before m j k [] p h = unfold find in refl
find-before m j k (c ∷ t) p h =
    find-append k c (all_entries t)
    ∙ rw (find-elsewhere m j k c p.0 (omega arith)) (find-before m (suc j) k t p.1 (omega arith))

-- The bucket of a key decides the search for it.
find-placed :
    (m j i : ℕ) (k : Sds) (t : List Chain) (c : Chain)
    → IsPlaced m j t
    → bit_and (hash_fn k) m ≡ j + i
    → get_elem? t i ≡ some c
    → find k (all_entries t) ≡ find k c
find-placed m j i k [] c p e h = cc
find-placed m j zero k (x ∷ t) c p e h =
    let y : x ≡ c = ground arith in
    ground (
      arith,
      find-append k x (all_entries t),
      find-before m (suc j) k t p.1 (omega arith),
      ap (find k) y,
    )
find-placed m j (suc i) k (x ∷ t) c p e h =
    find-append k x (all_entries t)
    ∙ rw (find-elsewhere m j k x p.0 (omega arith))
        (find-placed m (suc j) i k t c p.1 (omega arith) h)

module _ (ht : Dictht) (t : List Chain) (v : IsTable ht t) where
  pub bucket-IsTable : (i : ℕ) (c : Chain) → get_elem? t i ≡ some c → bucket ht i ≡ some c
  unfolding bucket
  bucket-IsTable i c e = ap (λ o. o >>= λ t. get_elem? t i) v.buckets ∙ e

  pub bucket_of-lt : (k : Sds) → bucket_of ht k < length t
  unfolding bucket_of
  bucket_of-lt k = omega (arith, bit_and-le (hash_fn k) ht.sizemask, v.masked, v.sized)

  -- Reading the bucket of a key.
  pub bucket-of_key :
      (k : Sds)
      → (c : Chain) × (bucket ht (bucket_of ht k) ≡ some c)
        × (get_elem? t (bucket_of ht k) ≡ some c)
        × (find k (all_entries t) ≡ find k c)
  bucket-of_key k =
      let (c, e) = get_elem?-some t (bucket_of ht k) (bucket_of-lt k) in
      (
        c,
        bucket-IsTable (bucket_of ht k) c e,
        e,
        find-placed ht.sizemask 0 (bucket_of ht k) k t c v.placed (unfold bucket_of in omega arith)
            e,
      )

  pub chain-BelongsTo : (i : ℕ) (c : Chain) → get_elem? t i ≡ some c → BelongsTo ht.sizemask i c
  chain-BelongsTo i c e =
      subst (λ n. BelongsTo ht.sizemask n c) {x = 0 + i} (omega arith)
        (IsPlaced-get_elem? ht.sizemask 0 t i c v.placed e)

  -- Writing a chain of entries that belong there to a bucket.
  pub set_bucket-IsTable :
      (i : ℕ) (c : Chain) (n : ℕ)
      → i < length t
      → BelongsTo ht.sizemask i c
      → n ≡ length (c ++ all_entries (set t i []))
      → Ends
          (λ ht'. IsTable ht' (set t i c) × (ht'.size ≡ ht.size) × (ht'.used ≡ n))
          (set_bucket ht i c n)
  unfolding set_bucket
  set_bucket-IsTable i c n h b e =
      rw (v.buckets, lt→ltb _ _ h)
        (ends (
          record {
            buckets = refl;
            sized = v.sized ∙ sym (length-set t i c);
            masked = v.masked;
            placed =
                IsPlaced-set ht.sizemask 0 t i c v.placed
                  (subst (λ n. BelongsTo ht.sizemask n c) (omega arith) b);
            counted = e ∙ sym (length-perm (set-perm t i c h));
          },
          refl,
          refl,
        ))
