-- ===== src/Dict/Rehash.antt =====
-- A dictionary stands for its entries, in any order; incremental rehashing keeps them.
use mathlib.Core.Path.{subst}
use mathlib.Core.List.{Perm, perm_middle}
use mathlib.Core.List.Perm
use rediskrazy.Base.{
  ℕ, zero, suc, ◌+◌, ◌<◌, ◌≤◌, ◌^◌, ◌≡◌, refl, sym, ap, ◌∙◌, inl, inr, false, none, some, List, [],
  ◌∷◌, ◌++◌, if◌then◌else◌, length, get_elem?, set, Bool-cases, arith, length-append, length-set,
  append_assoc, leb, ◌==◌, Ends, ends, Ends-bind, Ends-map, Ends-if, ◌>>=◌, dec_lt,
}
use rediskrazy.Base.Perm.{length-perm}
use rediskrazy.Dict.{
  Chain, Dictht, Dict, dict_reset, bucket_of, bucket, set_bucket, size_inc, size_dec, move_chain,
  skip_empty, end_rehash, rehash_loop, dict_rehash, rehash_step,
}
use rediskrazy.Dict.Table.{
  all_entries, IsTable, BelongsTo, set-perm, get-perm, get_elem?-some, chain-BelongsTo,
  bucket_of-lt, bucket-IsTable, front-perm, bucket-of_key, set_bucket-IsTable,
}

-- The buckets below `i` are empty.
abbrev pub IsMoved : ℕ → List Chain → Type 0
IsMoved zero t = Unit
IsMoved (suc i) [] = Unit
IsMoved (suc i) (c ∷ t) = (c ≡ []) × IsMoved i t

-- The dictionary has a table and holds the entries `l`, in some order: it is at rest, or being rehashed.
pub data Holds (d : Dict) (l : Chain) : Type 0 where
  steady :
      (t : List Chain)
      → IsTable d.ht0 t
      → d.ht1 ≡ dict_reset
      → d.rehashidx ≡ none
      → Perm (all_entries t) l
      → Holds d l
  moving :
      (t t' : List Chain) (i : ℕ)
      → IsTable d.ht0 t
      → IsTable d.ht1 t'
      → d.rehashidx ≡ some i
      → i < length t
      → IsMoved i t
      → Perm (all_entries t ++ all_entries t') l
      → Holds d l

IsMoved-next : (i : ℕ) (t : List Chain) → IsMoved i t → get_elem? t i ≡ some [] → IsMoved (suc i) t
IsMoved-next zero [] m h = tt
IsMoved-next zero (c ∷ t) m h = (ground arith, tt)
IsMoved-next (suc i) [] m h = tt
IsMoved-next (suc i) (c ∷ t) m h = (m.0, IsMoved-next i t m.1 h)

IsMoved-set : (i : ℕ) (t : List Chain) → IsMoved i t → IsMoved (suc i) (set t i [])
IsMoved-set zero [] m = tt
IsMoved-set zero (c ∷ t) m = (refl, tt)
IsMoved-set (suc i) [] m = tt
IsMoved-set (suc i) (c ∷ t) m = (m.0, IsMoved-set i t m.1)

IsMoved-all : (i : ℕ) (t : List Chain) → IsMoved i t → length t ≤ i → all_entries t ≡ []
IsMoved-all i [] m h = refl
IsMoved-all zero (c ∷ t) m h = absurd (omega arith)
IsMoved-all (suc i) (c ∷ t) m h = rw m.0 (IsMoved-all i t m.1 (omega arith))

-- The search stops at the end or at a bucket, with only empty ones before it.
skip_empty-IsMoved :
    (rounds : ℕ) (ht : Dictht) (t : List Chain) (i : ℕ)
    → IsTable ht t
    → i < length t
    → length t ≤ rounds + i
    → IsMoved i t
    → Ends (λ j. (j ≤ length t) × IsMoved j t) (skip_empty rounds ht i)
unfolding skip_empty
skip_empty-IsMoved zero ht t i v h f m = absurd (omega arith)
skip_empty-IsMoved (suc rounds) ht t i v h f m =
    let (c, e) = get_elem?-some t i h in
    rw (bucket-IsTable ht t v i c e)
      (go c e λ h' m'. skip_empty-IsMoved rounds ht t (i + 1) v h' (omega arith) m')
  where
    go :
        (c : Chain)
        → get_elem? t i ≡ some c
        → (i + 1 < length t
            → IsMoved (i + 1) t
            → Ends (λ j. (j ≤ length t) × IsMoved j t) (skip_empty rounds ht (i + 1)))
        → Ends
            (λ j. (j ≤ length t) × IsMoved j t)
            (elim c [
              | [] ↦ if leb ht.size (i + 1) then some (i + 1) else skip_empty rounds ht (i + 1)
              | _ ↦ some i
            ])
    go [] e rest =
        let m' : IsMoved (i + 1) t =
          subst (λ n. IsMoved n t) {x = suc i} (omega arith) (IsMoved-next i t m e) in
        Ends-if (leb ht.size (i + 1)) (λ q. ends (omega arith, m'))
          (λ q. rest (grind (arith, v.sized)) m')
    go (x ∷ c) e rest = ends (omega arith, m)

-- Moving a chain adds its entries to the second table.
move_chain-IsTable :
    (c : Chain) (n : ℕ) (ht : Dictht) (t : List Chain)
    → IsTable ht t
    → length c ≤ n
    → n < 2 ^ 64
    → ht.used + length c < 2 ^ 64
    → Ends {A = ℕ × Dictht}
        (λ r.
          (r.0 + length c ≡ n)
          × ((t' : List Chain) × IsTable r.1 t' × Perm (all_entries t') (c ++ all_entries t)))
        (move_chain c n ht)
unfolding move_chain
move_chain-IsTable [] n ht t v h w u = ends (omega arith, (t, v, Perm.refl _))
move_chain-IsTable (e ∷ c) n ht t v h w u =
    let (b, read, at, _) = bucket-of_key ht t v e.key in
    let i = bucket_of ht e.key in
    let i<t = bucket_of-lt ht t v e.key in
    let home : BelongsTo ht.sizemask i (e ∷ b) =
      (unfold bucket_of in refl, chain-BelongsTo ht t v i b at) in
    let room : size_inc ht.used ≡ length ((e ∷ b) ++ all_entries (set t i [])) =
      omega (arith, v.counted, length-perm (get-perm t i b at)) in
    rw read (
      Ends-bind (set_bucket-IsTable ht t v i (e ∷ b) (size_inc ht.used) i<t home room)
        λ ht' (v', s, u').
          Ends-map
            (move_chain-IsTable c (size_dec n) ht' (set t i (e ∷ b)) v' (omega arith) (omega arith)
              (omega arith))
            λ r (p, (t', v'', q)). (
              omega arith,
              (
                t',
                v'',
                Perm.trans q (
                    Perm.trans
                      (Perm.append_left c (
                        Perm.trans (set-perm t i (e ∷ b) i<t)
                          (Perm.cons e (Perm.symm (get-perm t i b at)))))
                      (perm_middle c (all_entries t))),
              ),
            ))

nil_of_length {ℓ} : {A : Type ℓ} (l : List A) → length l ≡ 0 → l ≡ []
nil_of_length [] h = refl
nil_of_length (x ∷ l) h = absurd (omega arith)

-- The end of dict_rehash over two tables, the first moved up to `i`.
end_rehash-Holds :
    (d : Dict) (t t' : List Chain) (i : ℕ) (l : Chain)
    → IsTable d.ht0 t
    → IsTable d.ht1 t'
    → d.rehashidx ≡ some i
    → i ≤ length t
    → IsMoved i t
    → Perm (all_entries t ++ all_entries t') l
    → Holds (end_rehash d) l
unfolding end_rehash
end_rehash-Holds d t t' i l v v' r h m p = elim (Bool-cases (d.ht0.used == 0)) [
  | inl z ↦
      let empty : all_entries t ≡ [] = nil_of_length (all_entries t) (grind (arith, v.counted)) in
      rw z (steady t' v' refl refl (subst (λ x. Perm (x ++ all_entries t') l) empty p))
  | inr n ↦
      let inside : i < length t = within (dec_lt i (length t)) n in
      rw n (moving t t' i v v' r inside m p)
]
  where
    within : Dec (i < length t) → (d.ht0.used == 0) ≡ false → i < length t
    within (yes q) n = q
    within (no q) n =
        absurd (ground (arith, v.counted, ap length (IsMoved-all i t m (omega arith))))

pub rehash_step-none : (d : Dict) → d.rehashidx ≡ none → rehash_step d ≡ some d
unfolding rehash_step
rehash_step-none d h = ground arith

rehash_step-some : (d : Dict) (i : ℕ) → d.rehashidx ≡ some i → rehash_step d ≡ rehash_loop 1 d i
unfolding rehash_step dict_rehash
rehash_step-some d i h = ground arith

-- One bucket is moved.
move_bucket-Holds :
    (d : Dict) (t t' : List Chain) (j : ℕ) (l : Chain)
    → IsTable d.ht0 t
    → IsTable d.ht1 t'
    → j < length t
    → IsMoved j t
    → Perm (all_entries t ++ all_entries t') l
    → length l < 2 ^ 64
    → Ends
        (λ d'. Holds d' l)
        (bucket d.ht0 j >>= λ chain. move_chain chain d.ht0.used d.ht1 >>= λ (used, ht1).
          set_bucket d.ht0 j [] used >>= λ ht0.
          rehash_loop 0 (record { ht0 = ht0; ht1 = ht1; rehashidx = some j }) (j + 1))
unfolding rehash_loop
move_bucket-Holds d t t' j l v v' h m p s =
    let (c, e) = get_elem?-some t j h in
    let sum = length-perm (get-perm t j c e) ∙ length-append c (all_entries (set t j [])) in
    let total = sym (length-append (all_entries t) (all_entries t')) ∙ length-perm p in
    rw (bucket-IsTable d.ht0 t v j c e) (
      Ends-bind
        (move_chain-IsTable c d.ht0.used d.ht1 t' v' (omega (arith, v.counted))
          (omega (arith, v.counted)) (omega (arith, v.counted, v'.counted)))
        λ (used, ht1) (q, (t'', v'', p')).
          Ends-bind (set_bucket-IsTable d.ht0 t v j [] used h tt (omega (arith, v.counted)))
            λ ht0 (w, x, y). ends (
              end_rehash-Holds (record { ht0 = ht0; ht1 = ht1; rehashidx = some (j + 1) })
                (set t j []) t'' (j + 1) l w v'' refl (omega (arith, length-set t j []))
                (subst (λ n. IsMoved n (set t j [])) {x = suc j} (omega arith) (IsMoved-set j t m))
                (Perm.trans (Perm.append_left (all_entries (set t j [])) p') (
                  Perm.trans (front-perm (all_entries (set t j [])) c (all_entries t')) (
                    Perm.trans
                      (rw (sym (append_assoc c (all_entries (set t j [])) (all_entries t')))
                        (Perm.append_right (all_entries t') (Perm.symm (get-perm t j c e))))
                      p)))))

-- A dictionary that holds `l`, with fewer than 2 ^ 64 entries, still does after a step of rehashing.
pub rehash_step-Holds :
    (d : Dict) (l : Chain) → Holds d l → length l < 2 ^ 64 → Ends (λ d'. Holds d' l) (rehash_step d)
rehash_step-Holds d l (steady t v u r p) s = rw (rehash_step-none d r) (ends (steady t v u r p))
rehash_step-Holds d l (moving t t' i v v' r h m p) s =
    rw (rehash_step-some d i r)
      unfold rehash_loop in
        Ends-if (d.ht0.used == 0)
          (λ z. ends (
            end_rehash-Holds (record d { rehashidx = some i }) t t' i l v v' refl (omega arith) m
              p))
          (λ n.
            Ends-bind (skip_empty-IsMoved d.ht0.size d.ht0 t i v h (omega (arith, v.sized)) m)
              λ j (q, w).
                Ends-if (leb d.ht0.size j)
                  (λ z. ends (
                    end_rehash-Holds
                      (record d { ht0 = record (d.ht0) { used = 0 }; rehashidx = some j }) t t' j l
                      (record {
                        buckets = v.buckets;
                        sized = v.sized;
                        masked = v.masked;
                        placed = v.placed;
                        counted = ap length (sym (IsMoved-all j t w (grind (arith, v.sized))));
                      })
                      v' refl q w p))
                  (λ z. move_bucket-Holds d t t' j l v v' (grind (arith, v.sized)) w p s))
