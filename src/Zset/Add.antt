-- ===== src/Zset/Add.antt =====
-- What zset_add and zset_score do to a sorted set.
use rediskrazy.Base.{
  ◌>>=◌, ℕ, zero, suc, ◌+◌, ◌*◌, ◌/◌, ◌^◌, ◌<◌, ◌≤◌, ◌≡◌, refl, sym, ap, ◌∙◌, Bool, true, Option,
  List, ◌++◌, drop, drop-append, none, some, length, if◌then◌else◌, arith, Ends, ends, Ends-bind,
  Ends-inv,
}
use rediskrazy.Base.Int.{pos}
use rediskrazy.Double.{Double}
use rediskrazy.Sds.{Sds}
use rediskrazy.Dict.{Dict, DictEntry, Chain, dict_get, find, is_expired, remove_chain}
use rediskrazy.Dict.Contents.{
  IsDict, put_entry, live_entry, expire_entry, removed-le, dict_put_correct,
}
use rediskrazy.Dict.Expiry.{value_of, dict_get_correct}
use rediskrazy.Avl.{AvlTree}
use rediskrazy.Avl.Entries.{IsStorable, insert_sorted}
use rediskrazy.Avl.Contents.{entry, entries}
use rediskrazy.Avl.Tree.{IsValid, avl_insert_correct}
use rediskrazy.Zset.{Zset, bytes_of, number_of, score_sds, score_of, add_member, zset_add}

pow_256 : (n : ℕ) → 256 ^ suc n ≡ 256 * 256 ^ n
pow_256 n = grind arith

number_of-bytes_of : (n d : ℕ) → d < 256 ^ n → number_of n (bytes_of n d) ≡ some d
unfolding number_of bytes_of
number_of-bytes_of zero d h = ap some (omega arith)
number_of-bytes_of (suc n) d h =
    let smaller : d / 256 < 256 ^ n = omega (arith, pow_256 n) in
    rw (number_of-bytes_of n (d / 256) smaller) (ap some (omega arith))

length-bytes_of : (n d : ℕ) → length (bytes_of n d) ≡ n
unfolding bytes_of
length-bytes_of zero d = refl
length-bytes_of (suc n) d = ap suc (length-bytes_of n (d / 256))

pub drop-bytes_of : (n d : ℕ) (rest : List ℕ) → drop n (bytes_of n d ++ rest) ≡ rest
drop-bytes_of n d rest =
    ap (λ k. drop k (bytes_of n d ++ rest)) (sym (length-bytes_of n d))
    ∙ drop-append (bytes_of n d) rest

-- A number is read back from the bytes at the front.
pub number_of-front :
    (n d : ℕ) (rest : List ℕ) → d < 256 ^ n → number_of n (bytes_of n d ++ rest) ≡ some d
unfolding number_of bytes_of
number_of-front zero d rest h = ap some (omega arith)
number_of-front (suc n) d rest h =
    let smaller : d / 256 < 256 ^ n = omega (arith, pow_256 n) in
    rw (number_of-front n (d / 256) rest smaller) (ap some (omega arith))

-- A score is read back from the bytes that stand for it.
pub score_of-score_sds : (score : Double) → score < 2 ^ 64 → score_of (score_sds score) ≡ some score
score_of-score_sds score h = number_of-bytes_of 8 score (omega arith)

zset_add-new :
    (z : Zset) (member : Sds) (score : Double) (d : Dict) (now : ℕ)
    → dict_get z.dict member now ≡ some (d, none)
    → zset_add z member score now ≡ (add_member d z.tree member score now >>= λ z. some (z, true))
unfolding zset_add
zset_add-new z member score d now e = rw (zset_add, e) refl

add_member_correct :
    (d : Dict) (l : Chain) (t : AvlTree) (member : Sds) (score : Double) (now : ℕ)
    → IsDict d l
    → length l < 2 ^ 61
    → IsValid t
    → IsStorable (entry member score)
    → t.count + 1 < 2 ^ 64
    → Ends
        (λ z.
          IsDict z.dict (put_entry (record { key = member; val = score_sds score; expire = 0 }) l)
          × IsValid z.tree
          × (entries z.tree.root ≡ insert_sorted (entry member score) (entries t.root)))
        (add_member d t member score now)
unfolding add_member
add_member_correct d l t member score now v s w st c =
    Ends-bind (avl_insert_correct t member score w st c) λ (t', _) (w', order, _).
      Ends-bind (dict_put_correct d l member (score_sds score) (pos 0) now v s)
        λ d' v'. ends (v', w', order)

expire_entry-le : (now : ℕ) (key : Sds) (l : Chain) → length (expire_entry now key l) ≤ length l
expire_entry-le now key l = go (find key l)
  where
    go :
        (o : Option DictEntry)
        → length {A = DictEntry}
            (elim o [ none ↦ l | some e ↦ if is_expired now e then remove_chain key l else l ])
          ≤ length l
    go none = omega arith
    go (some e) = ground (arith, removed-le key l)

-- Adding a member that is not there, or has expired, succeeds and returns 1: the dictionary gets the score under the
-- member, without an expiry, and the tree the score and the member in their place.
pub zset_add_correct :
    (z : Zset) (l : Chain) (member : Sds) (score : Double) (now : ℕ)
    → IsDict z.dict l
    → length l < 2 ^ 61
    → IsValid z.tree
    → IsStorable (entry member score)
    → z.tree.count + 1 < 2 ^ 64
    → live_entry now member l ≡ none
    → Ends {A = Zset × Bool}
        (λ r.
          IsDict r.0.dict (
            put_entry
              (record { key = member; val = score_sds score; expire = 0 })
              (expire_entry now member l))
          × IsValid r.0.tree
          × (entries r.0.tree.root ≡ insert_sorted (entry member score) (entries z.tree.root))
          × (r.1 ≡ true))
        (zset_add z member score now)
zset_add_correct z l member score now v s t st c live =
    let (r, got, (v', value)) = Ends-inv (dict_get_correct z.dict l member now v s) in
    let same : r.1 ≡ none = value ∙ ap value_of live in
    rw (zset_add-new z member score r.0 now (got ∙ ap (λ x. some (r.0, x)) same)) (
      Ends-bind
        (add_member_correct r.0 (expire_entry now member l) z.tree member score now v'
          (omega (arith, expire_entry-le now member l)) t st c)
        λ z' (a, b, o). ends (a, b, o, refl))
