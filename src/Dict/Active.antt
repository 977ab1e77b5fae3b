-- ===== src/Dict/Active.antt =====
-- dict_active_expire takes out entries that have expired, and no others.
use Prim.Native.Nat.{bit_and}
use mathlib.Core.List.{Perm}
use mathlib.Core.List.Perm
use rediskrazy.Base.{
  ℕ, zero, suc, ◌+◌, ◌-◌, ◌<◌, ◌≤◌, ◌^◌, ◌≡◌, refl, sym, ap, subst, ◌∙◌, true, inl, inr, some, List,
  [], ◌∷◌, ◌++◌, length, get_elem?, set, Bool-cases, arith, length-append, length-set, append_assoc,
  Ends, ends, Ends-some, Ends-bind, Ends-map, All, All-append,
}
use rediskrazy.Base.Perm.{length-perm}
use rediskrazy.Base.Bits.{bit_and-le}
use rediskrazy.Dict.{Chain, Dictht, size_dec, is_expired}
use rediskrazy.Dict.Sample.{expire_chain, size_dec_by, expire_buckets}
use rediskrazy.Dict.Table.{
  all_entries, IsTable, BelongsTo, set-perm, get-perm, get_elem?-some, get_elem?-lt,
  chain-BelongsTo, bucket-IsTable, front-perm, set_bucket-IsTable,
}
use rediskrazy.Dict.Rehash.{IsMoved}

-- `l'` is `l` without some entries that have expired.
pub record Without (now : ℕ) (l l' : Chain) : Type 0 where
  pub gone : Chain
  pub expired : All (λ e. is_expired now e ≡ true) gone
  pub perm : Perm (gone ++ l') l

-- What expire_chain leaves, and how many it counts.
record Cleaned (now m j : ℕ) (c : Chain) (r : Chain × ℕ) : Type 0 where
  pub without : Without now c r.0
  count : length r.0 + r.1 ≡ length c
  belongs : BelongsTo m j c → BelongsTo m j r.0

expire_chain-Cleaned : (now m j : ℕ) (c : Chain) → Cleaned now m j c (expire_chain now c)
unfolding expire_chain
expire_chain-Cleaned now m j [] = record {
  without = record { gone = []; expired = tt; perm = Perm.refl _ };
  count = omega arith;
  belongs = λ b. tt;
}
expire_chain-Cleaned now m j (e ∷ c) =
    let r = expire_chain-Cleaned now m j c in
    let w = r.without in
    elim (Bool-cases (is_expired now e)) [
      | inl y ↦ rw y (record {
        without = record { gone = e ∷ w.gone; expired = (y, w.expired); perm = Perm.cons e w.perm };
        count = omega (arith, r.count);
        belongs = λ b. r.belongs b.1;
      })
      | inr n ↦ rw n (record {
        without = record {
          gone = w.gone;
          expired = w.expired;
          perm =
              Perm.trans (front-perm w.gone (e ∷ []) (expire_chain now c).0) (Perm.cons e w.perm);
        };
        count = omega (arith, r.count);
        belongs = λ b. (b.0, r.belongs b.1);
      })
    ]

size_dec_by-le : (used n : ℕ) → n ≤ used → used < 2 ^ 64 → size_dec_by used n ≡ used - n
unfolding size_dec_by
size_dec_by-le used zero h s = omega arith
size_dec_by-le used (suc n) h s =
    let less : size_dec used ≡ used - 1 = omega arith in
    rw less (size_dec_by-le (used - 1) n (omega arith) (omega arith) ∙ omega arith)

IsMoved-set_smaller :
    (i j : ℕ) (t : List Chain) (c c' : Chain)
    → IsMoved i t
    → get_elem? t j ≡ some c
    → (c ≡ [] → c' ≡ [])
    → IsMoved i (set t j c')
IsMoved-set_smaller zero j t c c' m h f = tt
IsMoved-set_smaller (suc i) j [] c c' m h f = tt
IsMoved-set_smaller (suc i) zero (x ∷ t) c c' m h f = let same : c ≡ x = cc in (f (same ∙ m.0), m.1)
IsMoved-set_smaller (suc i) (suc j) (x ∷ t) c c' m h f =
    (m.0, IsMoved-set_smaller i j t c c' m.1 h f)

pub Without-trans : (now : ℕ) (l m n : Chain) → Without now l m → Without now m n → Without now l n
Without-trans now l m n a b = record {
  gone = a.gone ++ b.gone;
  expired = (All-append _ a.gone b.gone).1 (a.expired, b.expired);
  perm =
      subst (λ x. Perm x l) (sym (append_assoc a.gone b.gone n))
        (Perm.trans (Perm.append_left a.gone b.perm) a.perm);
}

-- A table after some of its buckets are cleaned.
pub record Swept (now : ℕ) (t : List Chain) (ht' : Dictht) : Type 0 where
  pub after : List Chain
  pub table : IsTable ht' after
  pub size : length after ≡ length t
  pub moved : (i : ℕ) → IsMoved i t → IsMoved i after
  pub without : Without now (all_entries t) (all_entries after)

pub cleaned_bucket :
    (now : ℕ) (t : List Chain) (i : ℕ) (c c' : Chain)
    → get_elem? t i ≡ some c
    → Without now c c'
    → Without now (all_entries t) (all_entries (set t i c'))
cleaned_bucket now t i c c' e w = record {
  gone = w.gone;
  expired = w.expired;
  perm =
      let rest = all_entries (set t i []) in
      Perm.trans (Perm.append_left w.gone (set-perm t i c' (get_elem?-lt t i c e))) (
        subst (λ x. Perm x (all_entries t)) (append_assoc w.gone c' rest)
          (Perm.trans (Perm.append_right rest w.perm) (Perm.symm (get-perm t i c e))));
}

pub expire_buckets-Swept :
    (n : ℕ) (rand : ℕ → ℕ) (ht : Dictht) (t : List Chain) (now count : ℕ)
    → IsTable ht t
    → ht.used < 2 ^ 64
    → Ends {A = Dictht × ℕ} (λ r. Swept now t r.0) (expire_buckets n rand ht now count)
unfolding expire_buckets expire_chain
expire_buckets-Swept zero rand ht t now count v s = ends (record {
  after = t;
  table = v;
  size = refl;
  moved = λ i m. m;
  without = record { gone = []; expired = tt; perm = Perm.refl _ };
})
expire_buckets-Swept (suc n) rand ht t now count v s =
    let idx = bit_and (rand n) ht.sizemask in
    let (c, e) =
      get_elem?-some t idx (omega (arith, bit_and-le (rand n) ht.sizemask, v.masked, v.sized)) in
    let r = expire_chain-Cleaned now ht.sizemask idx c in
    let kept = expire_chain now c in
    let rest = all_entries (set t idx []) in
    let total = v.counted ∙ length-perm (get-perm t idx c e) ∙ length-append c rest in
    let left = size_dec_by-le ht.used kept.1 (omega (arith, total, r.count)) s in
    Ends-some _ (bucket-IsTable ht t v idx c e) (
      Ends-bind
        (set_bucket-IsTable ht t v idx kept.0 (size_dec_by ht.used kept.1) (get_elem?-lt t idx c e)
          (r.belongs (chain-BelongsTo ht t v idx c e))
          (omega (arith, left, total, r.count, length-append kept.0 rest)))
        λ ht' (v', _, used).
          Ends-map
            (expire_buckets-Swept n rand ht' (set t idx kept.0) now (count + kept.1) v'
              (omega (arith, used, left)))
            λ _ w. record {
              after = w.after;
              table = w.table;
              size = w.size ∙ length-set t idx kept.0;
              moved = λ i m. w.moved i (
                  IsMoved-set_smaller i idx t c kept.0 m e
                    (λ q. ap (λ x. (expire_chain now x).0) q));
              without =
                  Without-trans now (all_entries t) (all_entries (set t idx kept.0))
                    (all_entries w.after) (cleaned_bucket now t idx c kept.0 e r.without) w.without;
            })
