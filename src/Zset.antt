-- ===== src/Zset.antt =====
-- backend/zset.h and zset.c: a sorted set is a dictionary of scores and a tree of scores and members.
-- `none` is a read through NULL or outside of a string, or a loop that does not end, as in Dict and Avl.
-- The callbacks of zset_range are the list of their calls.
pub mod Add
pub mod Range
pub mod Tests
use Prim.Native.Nat.{Ordering}
use rediskrazy.Base.{
  ◌>>=◌, ℕ, zero, suc, ◌+◌, ◌-◌, ◌*◌, ◌/◌, ◌%◌, ◌^◌, Bool, true, false, ◌&&◌, Option, none, some,
  List, [], ◌∷◌, ◌++◌, ltb, leb, ◌==◌, if◌then◌else◌, length,
}
use rediskrazy.Base.Int.{ℤ, pos, negsuc, ◌+ℤ◌, ltb_ℤ, sign, int32}
use rediskrazy.Double.{Double, double_ne}
use rediskrazy.Sds.{Sds, sdscmp}
use rediskrazy.Dict.{Dict, dict_init, dict_get, dict_put, dict_delete}
use rediskrazy.Avl.{AvlTree, avl_create, avl_insert, avl_delete, avl_traverse}

pub record Zset : Type 0 where
  pub dict : Dict
  pub tree : AvlTree

pub zset_create : Zset
zset_create = record { dict = dict_init; tree = avl_create }

-- The `n` bytes of a number, the least first.
unfoldable pub bytes_of : ℕ → ℕ → Sds
bytes_of zero d = []
bytes_of (suc n) d = d % 256 ∷ bytes_of n (d / 256)

-- sdsnewlen(&score, sizeof(double))
abbrev pub score_sds : Double → Sds
score_sds score = bytes_of 8 score

-- The number of the first `n` bytes.
unfoldable pub number_of : ℕ → Sds → Option ℕ
number_of zero s = some 0
number_of (suc n) [] = none
number_of (suc n) (b ∷ s) = number_of n s >>= λ d. some (b + 256 * d)

-- memcpy(&score, v, sizeof(double))
abbrev pub score_of : Sds → Option Double
score_of v = number_of 8 v

-- What a pointer that is used as an sds points to.
pub data Pointee : Type 0 where
  string : Sds → Pointee
  double : Double → Pointee

-- The bytes of the sds at a pointer: its length is read from the header in front of it, which a double has not.
abbrev string_at : Pointee → Option Sds
string_at (string s) = some s
string_at (double d) = none

-- dict_put(z->dict, member, pointer, 0), which copies the string at the pointer.
unfoldable pub put_pointer : Dict → Sds → Pointee → ℕ → Option Dict
put_pointer dict member pointer now =
    string_at pointer >>= λ val. dict_put dict member val (pos 0) now

-- The update of a member with another score.
unfoldable pub update_score : Dict → AvlTree → Sds → Double → Double → ℕ → Option Zset
update_score dict tree member old_score score now =
    avl_delete tree member old_score >>= λ (tree, _). avl_insert tree member score >>= λ (tree, _).
    put_pointer dict member (double score) now >>= λ dict.
    put_pointer dict member (string (score_sds score)) now >>= λ dict.
    some (record { dict = dict; tree = tree })

-- The addition of a member that is not there.
unfoldable pub add_member : Dict → AvlTree → Sds → Double → ℕ → Option Zset
add_member dict tree member score now = avl_insert tree member score >>= λ (tree, _).
    dict_put dict member (score_sds score) (pos 0) now >>= λ dict.
    some (record { dict = dict; tree = tree })

-- The second component is `is_new`.
unfoldable pub zset_add : Zset → Sds → Double → ℕ → Option (Zset × Bool)
zset_add z member score now = dict_get z.dict member now >>= λ (dict, v). elim v [
  | some v ↦ score_of v >>= λ old_score.
      if double_ne old_score score
      then (update_score dict z.tree member old_score score now >>= λ z. some (z, false))
      else some (record z { dict = dict }, false)
  | none ↦ add_member dict z.tree member score now >>= λ z. some (z, true)
]

unfoldable pub zset_rem : Zset → Sds → ℕ → Option (Zset × Bool)
zset_rem z member now = dict_get z.dict member now >>= λ (dict, v). elim v [
  | none ↦ some (record z { dict = dict }, false)
  | some v ↦ score_of v >>= λ score. avl_delete z.tree member score >>= λ (tree, _).
      dict_delete dict member >>= λ dict. some (record { dict = dict; tree = tree }, true)
]

unfoldable pub zset_score : Zset → Sds → ℕ → Option (Zset × Option Double)
zset_score z member now = dict_get z.dict member now >>= λ (dict, v). elim v [
  | none ↦ some (record z { dict = dict }, none)
  | some v ↦ score_of v >>= λ score. some (record z { dict = dict }, some score)
]

abbrev pub zset_card : Zset → ℕ
zset_card z = z.tree.count

-- The calls made so far, and the index of the next entry.
pub record RangeCtx : Type 0 where
  pub cur_idx : ℤ
  pub calls : List (Sds × Double)

unfoldable pub range_cb : ℤ → ℤ → Sds → Double → RangeCtx → RangeCtx
range_cb start end key score ctx = record {
  cur_idx = ctx.cur_idx +ℤ pos 1;
  calls =
      if ltb_ℤ ctx.cur_idx start
      then ctx.calls
      else if ltb_ℤ end ctx.cur_idx
      then ctx.calls
      else ctx.calls ++ ((key, score) ∷ []);
}

abbrev pub from_end : ℤ → ℤ → ℤ
from_end len i = if ltb_ℤ i (pos 0) then len +ℤ i else i

unfoldable pub zset_range : Zset → ℤ → ℤ → List (Sds × Double)
zset_range z start end =
    let len : ℤ = int32 z.tree.count in
    let end' : ℤ = from_end len end in
    let start' : ℤ = if ltb_ℤ (from_end len start) (pos 0) then pos 0 else from_end len start in
    if ltb_ℤ start' len
    then (if ltb_ℤ end' start'
        then []
        else (let ctx : RangeCtx =
              avl_traverse z.tree (range_cb start' end') (record { cur_idx = pos 0; calls = [] }) in
            ctx.calls))
    else []

pub record RankCtx : Type 0 where
  pub cur_idx : ℤ
  pub found_rank : ℤ

unfoldable pub rank_cb : Sds → Sds → Double → RankCtx → RankCtx
rank_cb target key score ctx =
    if ltb_ℤ ctx.found_rank (pos 0)
    then record {
      cur_idx = ctx.cur_idx +ℤ pos 1;
      found_rank = elim (sign (sdscmp key target)) [
        | Ordering.eq ↦ ctx.cur_idx
        | Ordering.lt ↦ ctx.found_rank
        | Ordering.gt ↦ ctx.found_rank
      ];
    }
    else ctx

unfoldable pub zset_rank : Zset → Sds → ℕ → Option (Zset × ℤ)
zset_rank z member now = dict_get z.dict member now >>= λ (dict, v). elim v [
  | none ↦ some (record z { dict = dict }, negsuc 0)
  | some _ ↦
      let ctx : RankCtx =
        avl_traverse z.tree (rank_cb member) (record { cur_idx = pos 0; found_rank = negsuc 0 }) in
      some (record z { dict = dict }, ctx.found_rank)
]
