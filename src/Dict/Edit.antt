-- ===== src/Dict/Edit.antt =====
-- Edits of one chain, through a node that the search found: update and removal.
use Prim.Native.Nat.{bit_and}
use mathlib.Core.Path.{subst}
use mathlib.Core.List.{Perm}
use mathlib.Core.List.Perm
use rediskrazy.Base.{
  ℕ, zero, suc, ◌≡◌, sym, ap, ◌∙◌, inl, inr, some, List, [], ◌∷◌, ◌++◌, length, get_elem?, set,
  Bool-cases, arith, length-set, append_assoc, bytes_eq, Ends, Ends-map,
}
use rediskrazy.Base.Perm.{length-perm}
use rediskrazy.Sds.{Sds}
use rediskrazy.Dict.{
  DictEntry, Chain, Dictht, hash_fn, bucket_of, set_bucket, find, update_chain, remove_chain,
}
use rediskrazy.Dict.Entries.{UniqueKeys, remove_chain-append_left, remove_chain-respects}
use rediskrazy.Dict.Table.{
  all_entries, IsTable, BelongsTo, set-perm, get-perm, chain-BelongsTo, bucket_of-lt,
  set_bucket-IsTable,
}
use rediskrazy.Dict.Rehash.{IsMoved}

pub update_chain-BelongsTo :
    (k : Sds) (f : DictEntry → DictEntry) (m j : ℕ) (c : Chain)
    → ((e : DictEntry) → (f e).key ≡ e.key)
    → BelongsTo m j c
    → BelongsTo m j (update_chain k f c)
unfolding update_chain
update_chain-BelongsTo k f m j [] h b = tt
update_chain-BelongsTo k f m j (e ∷ c) h b = elim (Bool-cases (bytes_eq e.key k)) [
  | inl y ↦ rw y ((ap (λ x. bit_and (hash_fn x) m) (h e) ∙ b.0, b.1))
  | inr n ↦ rw n ((b.0, update_chain-BelongsTo k f m j c h b.1))
]

pub remove_chain-BelongsTo :
    (k : Sds) (m j : ℕ) (c : Chain) → BelongsTo m j c → BelongsTo m j (remove_chain k c)
unfolding remove_chain
remove_chain-BelongsTo k m j [] b = tt
remove_chain-BelongsTo k m j (e ∷ c) b = elim (Bool-cases (bytes_eq e.key k)) [
  | inl y ↦ rw y b.1
  | inr n ↦ rw n ((b.0, remove_chain-BelongsTo k m j c b.1))
]

not_found : (k : Sds) (e : DictEntry) → find k [] ≡ some e → ⊥
unfolding find
not_found k e q = cc

-- Only buckets that are not moved yet hold a key.
IsMoved-set_found :
    (i j : ℕ) (t : List Chain) (k : Sds) (c c' : Chain) (e : DictEntry)
    → IsMoved i t
    → get_elem? t j ≡ some c
    → find k c ≡ some e
    → IsMoved i (set t j c')
IsMoved-set_found zero j t k c c' e m h f = tt
IsMoved-set_found (suc i) j [] k c c' e m h f = tt
IsMoved-set_found (suc i) zero (x ∷ t) k c c' e m h f =
    let same : c ≡ x = ground arith in
    absurd (not_found k e (subst (λ y. find k y ≡ some e) (same ∙ m.0) f))
IsMoved-set_found (suc i) (suc j) (x ∷ t) k c c' e m h f =
    (m.0, IsMoved-set_found i j t k c c' e m.1 h f)

-- `edit` replaces the entry `e` with the key by the entries `put e`.
module _ (k : Sds) (edit : Chain → Chain) (put : DictEntry → Chain)
    (replaces : (c : Chain) (e : DictEntry)
      → find k c ≡ some e
      → Perm (put e ++ remove_chain k c) (edit c))
    (keeps : (m j : ℕ) (c : Chain) → BelongsTo m j c → BelongsTo m j (edit c)) where
  -- The edit of the bucket of the key, where it is found.
  pub edit-IsTable :
      (ht : Dictht) (t : List Chain) (c : Chain) (e : DictEntry) (n : ℕ)
      → IsTable ht t
      → get_elem? t (bucket_of ht k) ≡ some c
      → find k c ≡ some e
      → n ≡ length (put e ++ remove_chain k (all_entries t))
      → UniqueKeys (all_entries t)
      → Ends
          (λ ht'.
            (t'' : List Chain) × IsTable ht' t''
            × (length t'' ≡ length t)
            × ((i : ℕ) → IsMoved i t → IsMoved i t'')
            × Perm (all_entries t'') (put e ++ remove_chain k (all_entries t)))
          (set_bucket ht (bucket_of ht k) (edit c) n)
  edit-IsTable ht t c e n v g f s u =
      let i = bucket_of ht k in
      let rest = all_entries (set t i []) in
      let p : Perm (edit c ++ rest) (put e ++ remove_chain k (all_entries t)) =
        Perm.trans (Perm.append_right rest (Perm.symm (replaces c e f))) (
          rw (append_assoc (put e) (remove_chain k c) rest) (
            Perm.append_left (put e) (
              subst (λ x. Perm x (remove_chain k (all_entries t)))
                (remove_chain-append_left k c rest f)
                (Perm.symm
                  (remove_chain-respects k (all_entries t) (c ++ rest) (get-perm t i c g) u))))) in
      Ends-map
        (set_bucket-IsTable ht t v i (edit c) n (bucket_of-lt ht t v k)
          (keeps ht.sizemask i c (chain-BelongsTo ht t v i c g)) (s ∙ sym (length-perm p)))
        λ ht' (w, _, _). (
          set t i (edit c),
          w,
          length-set t i (edit c),
          (λ j m. IsMoved-set_found j i t k c (edit c) e m g f),
          Perm.trans (set-perm t i (edit c) (bucket_of-lt ht t v k)) p,
        )
