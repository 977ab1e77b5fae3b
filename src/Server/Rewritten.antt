-- ===== src/Server/Rewritten.antt =====
-- What rewrite_aof writes for strings, as load_aof reads it.
use mathlib.Core.List.Perm
use mathlib.Core.Logic.{∥∥₁_elim}
use mathlib.Core.HLevel.{×_prop}
use mathlib.Core.List.{Perm, Permᴰ}
use native.Mathlib.Nat.{ℕ_set}
use rediskrazy.Base.{
  ℕ, suc, ◌<◌, ◌^◌, ◌≡◌, refl, sym, ap, subst, ◌∙◌, none, some, List, [], ◌∷◌, ◌++◌, length, arith,
  Ends, ends, Ends-map, append-nil,
}
use rediskrazy.Sds.{Sds}
use rediskrazy.Dict.{DictEntry, Chain, Dict, find}
use rediskrazy.Dict.Table.{all_entries, front-perm}
use rediskrazy.Dict.Entries.{UniqueKeys, SameSearch-perm, remove_chain-missing, find-append}
use rediskrazy.Dict.Rehash.{steady, moving}
use rediskrazy.Dict.Contents.{put_entry, put_entry-UniqueKeys}
use rediskrazy.Dict.Growth.{Represents, fresh, holds}
use rediskrazy.Server.{Server, set_record}
use rediskrazy.Server.Hashes.{entries_of}
use rediskrazy.Server.Rewrite.{
  is_kept, expiry_record, rewrite_strings, rewrite_zsets, rewrite_hashes, rewrite_aof,
}
use rediskrazy.Server.Dispatch.{Others, load_aof}
use rediskrazy.Server.Strings.{Holds, plain_entry}
use rediskrazy.Server.Replay.{Op, set_op, apply_all, records, load_rounds-records, IsPlain}
use rediskrazy.Server.Logs.{log_size, removed_twice}
use rediskrazy.Server.Durable.{
  load_aof-rounds, log_size-IsSmall, few_by_size, records-length, records_by_size,
}

-- The tables hold the entries, in some order.
pub entries_of-perm : (d : Dict) (l : Chain) → Represents d l → Perm (entries_of d) l
entries_of-perm d l (fresh a b b' c r e) = rw (a, c, e) (Perm.refl _)
entries_of-perm d l (holds (steady t w u r p)) =
    rw (w.buckets, u) (subst (λ x. Perm x l) (sym (append-nil (all_entries t))) p)
entries_of-perm d l (holds (moving t t' i w w' r b m p)) = rw (w.buckets, w'.buckets) p

pub Represents-perm : (d : Dict) (l m : Chain) → Represents d l → Perm l m → Represents d m
Represents-perm d l m (fresh a b b' c r e) p =
    fresh a b b' c r (sym (Perm.nil-eq (subst (λ x. Perm x m) e p)))
Represents-perm d l m (holds (steady t w u r q)) p = holds (steady t w u r (Perm.trans q p))
Represents-perm d l m (holds (moving t t' i w w' r b k q)) p =
    holds (moving t t' i w w' r b k (Perm.trans q p))

IsPlain-prop : (l : Chain) → IsProp (IsPlain l)
IsPlain-prop [] = hlevel
IsPlain-prop (e ∷ l) = ×_prop (ℕ_set _ _) (IsPlain-prop l)

IsPlain-permᴰ : {l m : Chain} → Permᴰ l m → IsPlain l → IsPlain m
IsPlain-permᴰ Permᴰ.nil a = tt
IsPlain-permᴰ (Permᴰ.cons e p) (a, b) = (ap (λ x. x.expire) (sym e) ∙ a, IsPlain-permᴰ p b)
IsPlain-permᴰ (Permᴰ.swap e e') (a, (b, c)) =
    (ap (λ x. x.expire) (sym e') ∙ b, (ap (λ x. x.expire) (sym e) ∙ a, c))
IsPlain-permᴰ (Permᴰ.trans p q) a = IsPlain-permᴰ q (IsPlain-permᴰ p a)

pub IsPlain-perm : {l m : Chain} → Perm l m → IsPlain l → IsPlain m
IsPlain-perm {l} {m} p a = ∥∥₁_elim p (IsPlain-prop m) (λ q. IsPlain-permᴰ q a)

-- The commands that make the entries.
abbrev pub sets_of : Chain → List Op
sets_of [] = []
sets_of (e ∷ l) = set_op e.key e.val ∷ sets_of l

rewrite_strings-records :
    (now : ℕ) (l : Chain) → IsPlain l → rewrite_strings now l ≡ records (sets_of l)
unfolding rewrite_strings
rewrite_strings-records now [] a = refl
rewrite_strings-records now (e ∷ l) (h, a) =
    rw (is_kept, expiry_record, h)
      (ap (◌++◌ (set_record e.key e.val)) (rewrite_strings-records now l a))

find-right : (k : Sds) (l m : Chain) → find k (l ++ m) ≡ none → find k m ≡ none
find-right k l m h = ground (arith, find-append k l m)

-- The entries put one after the other, without their expiry.
abbrev pub put_all : Chain → Chain → Chain
put_all m [] = m
put_all m (e ∷ l) = put_all (put_entry (plain_entry e.key e.val) m) l

-- Entries with new keys are put one before the other.
pub put_all-perm : (l m : Chain) → IsPlain l → UniqueKeys (l ++ m) → Perm (put_all m l) (l ++ m)
put_all-perm [] m a u = Perm.refl m
put_all-perm (e ∷ l) m (h, a) (f, u) =
    let new = remove_chain-missing e.key m (find-right e.key l m f) in
    let same : plain_entry e.key e.val ≡ e =
      ap (λ n. record { key = e.key; val = e.val; expire = n }) (sym h) in
    let applied : put_entry (plain_entry e.key e.val) m ≡ e ∷ m =
      ap (λ x. plain_entry e.key e.val ∷ x) new ∙ ap (λ x. x ∷ m) same in
    subst (λ x. Perm (put_all x l) (e ∷ (l ++ m))) (sym applied)
      (Perm.trans
        (put_all-perm l (e ∷ m) a (SameSearch-perm (Perm.symm (front-perm l (e ∷ []) m)) (f, u)).0)
        (front-perm l (e ∷ []) m))

-- SET deletes the old entry first, which makes no difference.
apply_all-put_all : (m l : Chain) → UniqueKeys m → apply_all m (sets_of l) ≡ put_all m l
apply_all-put_all m [] u = refl
apply_all-put_all m (e ∷ l) u =
    let entry : DictEntry = plain_entry e.key e.val in
    ap (λ x. apply_all (entry ∷ x) (sets_of l)) (removed_twice e.key m u)
    ∙ apply_all-put_all (put_entry entry m) l (put_entry-UniqueKeys entry m u)

-- What is left of the log is what the strings write.
rewrite_aof-records :
    (others : Others) (s : Server) (l : Chain) (now : ℕ)
    → Holds s l [] []
    → IsPlain (entries_of s.g_data)
    → Ends
        (λ s'. s'.aof ≡ some (records (sets_of (entries_of s.g_data))))
        (rewrite_aof others.print_score s now)
unfolding rewrite_aof rewrite_zsets rewrite_hashes
rewrite_aof-records others s l now h a =
    let none_left = Perm.eq-nil (entries_of-perm s.g_zsets [] h.zsets.contents) in
    let none_left' = Perm.eq-nil (entries_of-perm s.g_hashes [] h.hashes.contents) in
    rw (none_left, none_left')
      (ends (
        ap some (
          append-nil (rewrite_strings now (entries_of s.g_data))
          ∙ rewrite_strings-records now (entries_of s.g_data) a)))

pub Holds-perm :
    (s : Server) (l m : Chain) → Holds s l [] [] → Perm l m → UniqueKeys m → Holds s m [] []
Holds-perm s l m h p u = record {
  strings = record { contents = Represents-perm s.g_data l m h.strings.contents p; unique = u };
  zsets = h.zsets;
  hashes = h.hashes;
  small_zsets = h.small_zsets;
  small_hashes = h.small_hashes;
}

-- rewrite_aof, of a server that has only strings, none of them with an expiry, with a log_size below 2 ^ 29: it ends, and
-- load_aof reads the log that it leaves into a server without keys, which then has the same strings.
pub rewrite_aof-replayed :
    (others : Others) (s r : Server) (l : Chain) (now later : ℕ)
    → Holds s l [] []
    → IsPlain l
    → log_size (sets_of (entries_of s.g_data)) < 2 ^ 29
    → Holds r [] [] []
    → Ends
        (λ s'.
          (w : List ℕ) × (s'.aof ≡ some w)
          × Ends (λ r'. Holds r' l [] []) (load_aof others r w later))
        (rewrite_aof others.print_score s now)
rewrite_aof-replayed others s r l now later h plain size hr =
    let p : Perm (entries_of s.g_data) l = entries_of-perm s.g_data l h.strings.contents in
    let plain' : IsPlain (entries_of s.g_data) = IsPlain-perm (Perm.symm p) plain in
    let ops : List Op = sets_of (entries_of s.g_data) in
    Ends-map (rewrite_aof-records others s l now h plain')
      λ s' e. (records ops, e, read_back (entries_of s.g_data) p plain' size)
  where
    read_back :
        (m : Chain)
        → Perm m l
        → IsPlain m
        → log_size (sets_of m) < 2 ^ 29
        → Ends (λ r'. Holds r' l [] []) (load_aof others r (records (sets_of m)) later)
    read_back m p a size =
        let ops : List Op = sets_of m in
        let small = log_size-IsSmall ops size in
        let u : UniqueKeys m = (SameSearch-perm (Perm.symm p) h.strings.unique).0 in
        let made : Perm (apply_all [] ops) l =
          Perm.trans
            (subst (λ x. Perm x (m ++ [])) (sym (apply_all-put_all [] m tt))
              (put_all-perm m [] a (subst UniqueKeys (sym (append-nil m)) u)))
            (subst (λ x. Perm x l) (sym (append-nil m)) p) in
        subst (Ends _)
          (sym (
            load_aof-rounds others r (records ops) later
              (omega (arith, records_by_size ops small))))
          (Ends-map
            (load_rounds-records others (suc (length (records ops))) r ops [] later hr small
              (omega (arith, few_by_size ops)) (omega (arith, records-length ops)))
            λ r' x. Holds-perm r' (apply_all [] ops) l x made h.strings.unique)
