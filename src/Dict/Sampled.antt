-- ===== src/Dict/Sampled.antt =====
-- dict_active_expire, on the entries that a dictionary stands for.
use mathlib.Core.List.{Perm}
use mathlib.Core.List.Perm
use rediskrazy.Base.{
  ◌>>=◌, ℕ, ◌%◌, ◌<◌, ◌^◌, ◌≡◌, sym, ap, subst, ◌∙◌, Bool, true, false, none, some, List, [], ◌++◌,
  ◌==◌, if◌then◌else◌, length, arith, length-append, append_assoc, Ends, ends, Ends-bind, Ends-if,
  not,
}
use rediskrazy.Base.Perm.{length-perm}
use rediskrazy.Dict.{Chain, Dictht, Dict}
use rediskrazy.Dict.Sample.{dict_active_expire, expire_buckets, second_chosen, is_null}
use rediskrazy.Dict.Active.{Without, expire_buckets-Swept}
use rediskrazy.Dict.Entries.{UniqueKeys, UniqueKeys-right, SameSearch-perm}
use rediskrazy.Dict.Table.{all_entries, front-perm}
use rediskrazy.Dict.Rehash.{Holds, steady, moving, rehash_step-Holds}
use rediskrazy.Dict.Growth.{Represents, fresh, holds}
use rediskrazy.Dict.Contents.{IsDict}

pub Without-UniqueKeys : (now : ℕ) (l l' : Chain) → Without now l l' → UniqueKeys l → UniqueKeys l'
Without-UniqueKeys now l l' w u =
    UniqueKeys-right w.gone l' (SameSearch-perm (Perm.symm w.perm) u).0

Without-perm : (now : ℕ) (k l m : Chain) → Perm k l → Without now k m → Without now l m
Without-perm now k l m p w = record {
  gone = w.gone;
  expired = w.expired;
  perm = Perm.trans w.perm p;
}

Without-left : (now : ℕ) (k l m : Chain) → Without now k m → Without now (k ++ l) (m ++ l)
Without-left now k l m w = record {
  gone = w.gone;
  expired = w.expired;
  perm = subst (λ x. Perm x (k ++ l)) (append_assoc w.gone m l) (Perm.append_right l w.perm);
}

Without-right : (now : ℕ) (k l m : Chain) → Without now l m → Without now (k ++ l) (k ++ m)
Without-right now k l m w = record {
  gone = w.gone;
  expired = w.expired;
  perm = Perm.trans (front-perm w.gone k m) (Perm.append_left k w.perm);
}

-- The dictionary, without some of the entries that have expired.
abbrev pub Fewer : ℕ → Chain → Dict → Type 0
Fewer now l d = (l' : Chain) × IsDict d l' × Without now l l'

left_over :
    (now : ℕ) (l l' : Chain) (d : Dict)
    → UniqueKeys l
    → Holds d l'
    → Without now l l'
    → Fewer now l d
left_over now l l' d u h w =
    (l', record { contents = holds h; unique = Without-UniqueKeys now l l' w u }, w)

clash : (b : Bool) → b ≡ true → b ≡ false → ⊥
clash b e f = cc

not_null : (ht : Dictht) (t : List Chain) → ht.table ≡ some t → is_null ht ≡ false
not_null ht t e = ap (λ o. elim o [ none ↦ true | some _ ↦ false ]) e

first_chosen :
    (d : Dict) (t : List Chain) (coin : ℕ)
    → d.rehashidx ≡ none
    → d.ht0.table ≡ some t
    → second_chosen d coin ≡ false
first_chosen d t coin r e =
    ap
      (λ o. elim o [
        | none ↦ is_null d.ht0
        | some _ ↦ if coin % 2 == 1 then not (is_null d.ht1) else is_null d.ht0
      ])
      r
    ∙ not_null d.ht0 t e

buckets-Fewer :
    (d : Dict) (l : Chain) (n coin : ℕ) (rand : ℕ → ℕ) (now : ℕ)
    → Holds d l
    → UniqueKeys l
    → length l < 2 ^ 64
    → Ends {A = Dict × ℕ}
        (λ r. Fewer now l r.0)
        (if second_chosen d coin
          then (if is_null d.ht1
              then some (d, 0)
              else expire_buckets n rand d.ht1 now 0 >>= λ (ht, k). some (record d { ht1 = ht }, k))
          else expire_buckets n rand d.ht0 now 0 >>= λ (ht, k). some (record d { ht0 = ht }, k))
buckets-Fewer d l n coin rand now (steady t v u r p) q s =
    Ends-if (second_chosen d coin)
      (λ y.
        let first = first_chosen d t coin r v.buckets in
        absurd (clash (second_chosen d coin) y first))
      (λ _.
        Ends-bind
          (expire_buckets-Swept n rand d.ht0 t now 0 v (omega (arith, v.counted, length-perm p)))
          λ (ht, k) w. ends (
            left_over now l (all_entries w.after) (record d { ht0 = ht }) q
              (steady w.after w.table u r (Perm.refl _))
              (Without-perm now (all_entries t) l (all_entries w.after) p w.without)))
buckets-Fewer d l n coin rand now (moving t t' i v v' r h m p) q s =
    let size = sym (length-append (all_entries t) (all_entries t')) ∙ length-perm p in
    Ends-if (second_chosen d coin)
      (λ _.
        Ends-if (is_null d.ht1)
          (λ z. absurd (clash (is_null d.ht1) z (not_null d.ht1 t' v'.buckets)))
          (λ _.
            Ends-bind
              (expire_buckets-Swept n rand d.ht1 t' now 0 v' (omega (arith, v'.counted, size)))
              λ (ht, k) w. ends (
                left_over now l (all_entries t ++ all_entries w.after) (record d { ht1 = ht }) q
                  (moving t w.after i v w.table r h m (Perm.refl _))
                  (Without-perm now (all_entries t ++ all_entries t') l
                    (all_entries t ++ all_entries w.after) p
                    (Without-right now (all_entries t) (all_entries t') (all_entries w.after)
                      w.without)))))
      (λ _.
        Ends-bind (expire_buckets-Swept n rand d.ht0 t now 0 v (omega (arith, v.counted, size)))
          λ (ht, k) w. ends (
            left_over now l (all_entries w.after ++ all_entries t') (record d { ht0 = ht }) q
              (moving w.after t' i w.table v' r (subst (λ x. i < x) (sym w.size) h) (w.moved i m)
                (Perm.refl _))
              (Without-perm now (all_entries t ++ all_entries t') l
                (all_entries w.after ++ all_entries t') p
                (Without-left now (all_entries t) (all_entries t') (all_entries w.after)
                  w.without))))

-- dict_active_expire, whatever rand() gives: it ends, the dictionary is well-formed, and what is taken out of it are entries
-- that have expired.
pub dict_active_expire-Fewer :
    (d : Dict) (l : Chain) (n coin : ℕ) (rand : ℕ → ℕ) (now : ℕ)
    → IsDict d l
    → length l < 2 ^ 61
    → Ends {A = Dict × ℕ} (λ r. Fewer now l r.0) (dict_active_expire d n coin rand now)
unfolding dict_active_expire
dict_active_expire-Fewer d l n coin rand now h s = go h.contents
  where
    go :
        Represents d l
        → Ends {A = Dict × ℕ} (λ r. Fewer now l r.0) (dict_active_expire d n coin rand now)
    go (fresh a b c e f g) =
        Ends-if (is_null d.ht0)
          (λ _. ends (l, h, record { gone = []; expired = tt; perm = Perm.refl _ }))
          (λ n.
            absurd (clash (is_null d.ht0) (ap (λ o. elim o [ none ↦ true | some _ ↦ false ]) a) n))
    go (holds k) =
        let (t, e) = table_there k in
        Ends-if (is_null d.ht0) (λ y. absurd (clash (is_null d.ht0) y (not_null d.ht0 t e)))
          (λ _.
            Ends-bind (rehash_step-Holds d l k (omega arith))
              λ d' k'. buckets-Fewer d' l n coin rand now k' h.unique (omega arith))
      where
        table_there : Holds d l → (t : List Chain) × (d.ht0.table ≡ some t)
        table_there (steady t v _ _ _) = (t, v.buckets)
        table_there (moving t _ _ v _ _ _ _ _) = (t, v.buckets)
