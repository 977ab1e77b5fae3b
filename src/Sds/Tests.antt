-- ===== src/Sds/Tests.antt =====
-- Strings that grow and are overwritten, and the theorem on them at one of these runs.
use rediskrazy.Base.{◌>>=◌, ◌≡◌, refl, List, [], ◌∷◌, ◌++◌, none, some, map, arith, Ends}
use rediskrazy.Sds.Header.{
  memcpy, strlen, sds_make_room_for, sdsnew, sdsempty, sdsnewlen, sdscatlen, sdscpylen, sdsdup,
}
use rediskrazy.Sds.Growth.{IsSds}
use rediskrazy.Sds.Updates.{
  Update, cat, cpy, cat_str, cpy_str, updates, plain, before_zero, plain_all, StayShort,
  sdsdup-updates,
}

abbrev some_updates : List Update
some_updates =
    cat (5 ∷ 0 ∷ [])
    ∷ cpy (6 ∷ [])
    ∷ cat_str (7 ∷ 8 ∷ 0 ∷ 9 ∷ [])
    ∷ cpy_str (10 ∷ 11 ∷ 12 ∷ 13 ∷ 14 ∷ 15 ∷ 16 ∷ [])
    ∷ []

room_doubles :
    sdsempty >>= (λ s. sdscatlen s (1 ∷ 2 ∷ []))
    ≡ some (record { len = 2; free = 2; buf = map some (1 ∷ 2 ∷ 0 ∷ []) ++ (none ∷ none ∷ []) })
unfolding sdsnewlen memcpy sds_make_room_for sdscatlen
room_doubles = refl

overwritten :
    (sdsnew (some (1 ∷ 2 ∷ 3 ∷ 0 ∷ [])) >>= λ s. sdscpylen s (4 ∷ []))
    ≡ some (record { len = 1; free = 2; buf = map some (4 ∷ 0 ∷ 3 ∷ 0 ∷ []) })
unfolding sdsnew strlen sdsnewlen memcpy sdscpylen
overwritten = refl

short_enough : StayShort (1 ∷ 2 ∷ []) some_updates
unfolding StayShort plain before_zero
short_enough = (omega arith, (omega arith, (omega arith, (omega arith, omega arith))))

sdsdup-updates_example :
    Ends
      (λ s. IsSds s (plain_all (1 ∷ 2 ∷ []) some_updates))
      (sdsnewlen (some (1 ∷ 2 ∷ [])) 2 >>= λ s. updates s some_updates >>= sdsdup)
sdsdup-updates_example = sdsdup-updates (1 ∷ 2 ∷ []) some_updates short_enough
