-- ===== src/Sds/Header.antt =====
-- backend/sds.h and sds.c: the header in front of a string, and how a string grows. A byte of the buffer that was never
-- written is `none`; the length of `buf` is what is allocated for it. `none` as a result is an access outside of the
-- buffer, or a number that does not fit the int of the header.
use rediskrazy.Base.{
  ◌>>=◌, ℕ, zero, suc, ◌+◌, ◌-◌, ◌*◌, ◌^◌, Option, none, some, List, [], ◌∷◌, ◌++◌, ltb, leb, ◌==◌,
  if◌then◌else◌, length, take, drop, replicate, map,
}

pub record Sdshdr : Type 0 where
  pub len : ℕ
  pub free : ℕ
  pub buf : List (Option ℕ)

-- The conversion of a size_t to int.
abbrev pub to_int : ℕ → Option ℕ
to_int n = if ltb n (2 ^ 31) then some n else none

-- memcpy to the buffer, from the index `i` on; with one byte also an assignment to buf[i].
unfoldable pub memcpy : List (Option ℕ) → ℕ → List ℕ → Option (List (Option ℕ))
memcpy buf i bytes =
    if leb (i + length bytes) (length buf)
    then some (take i buf ++ (map some bytes ++ drop (i + length bytes) buf))
    else none

-- `init` is NULL, or the bytes at the pointer.
unfoldable pub sdsnewlen : Option (List ℕ) → ℕ → Option Sdshdr
sdsnewlen init initlen = to_int initlen >>= λ len.
    (elim init [
      | none ↦ some (replicate (initlen + 1) (some 0))
      | some bytes ↦
          if leb initlen (length bytes)
          then memcpy (replicate (initlen + 1) none) 0 (take initlen bytes)
          else none
    ])
    >>= λ buf.
        memcpy buf initlen (0 ∷ []) >>= λ buf. some (record { len = len; free = 0; buf = buf })

-- strlen; `none` where no 0 ends the bytes.
unfoldable pub strlen : List ℕ → Option ℕ
strlen [] = none
strlen (c ∷ s) = if c == 0 then some 0 else elim (strlen s) [ none ↦ none | some n ↦ some (suc n) ]

unfoldable pub sdsnew : Option (List ℕ) → Option Sdshdr
sdsnew none = sdsnewlen none 0
sdsnew (some init) = strlen init >>= λ initlen. sdsnewlen (some init) initlen

abbrev pub sdsempty : Option Sdshdr
sdsempty = sdsnewlen (some (0 ∷ [])) 0

abbrev pub sdslen : Sdshdr → ℕ
sdslen s = s.len

abbrev pub sdsavail : Sdshdr → ℕ
sdsavail s = s.free

-- newlen *= 2, or newlen += 1024*1024
abbrev pub grown : ℕ → ℕ
grown newlen = if ltb newlen (1024 * 1024) then newlen * 2 else newlen + 1024 * 1024

-- realloc to a larger size keeps the bytes.
abbrev pub realloc : List (Option ℕ) → ℕ → List (Option ℕ)
realloc buf size = take size (buf ++ replicate (size - length buf) none)

unfoldable pub sds_make_room_for : Sdshdr → ℕ → Option Sdshdr
sds_make_room_for s addlen =
    if leb addlen (sdsavail s)
    then some s
    else to_int (grown (sdslen s + addlen) - sdslen s) >>= λ free.
        some (record s { free = free; buf = realloc s.buf (grown (sdslen s + addlen) + 1) })

-- `t` are the `len` bytes that are appended.
unfoldable pub sdscatlen : Sdshdr → List ℕ → Option Sdshdr
sdscatlen s t =
    let curlen = sdslen s in
    sds_make_room_for s (length t) >>= λ s. memcpy s.buf curlen t >>= λ buf.
    to_int (curlen + length t) >>= λ len. memcpy buf (curlen + length t) (0 ∷ []) >>= λ buf.
    some (record { len = len; free = s.free - length t; buf = buf })

unfoldable pub sdscat : Sdshdr → List ℕ → Option Sdshdr
sdscat s t = strlen t >>= λ len. sdscatlen s (take len t)

-- `t` are the `len` bytes that replace the string.
unfoldable pub sdscpylen : Sdshdr → List ℕ → Option Sdshdr
sdscpylen s t =
    (if ltb (s.free + s.len) (length t) then sds_make_room_for s (length t - s.len) else some s)
    >>= λ s. memcpy s.buf 0 t >>= λ buf. memcpy buf (length t) (0 ∷ []) >>= λ buf.
        to_int (length t) >>= λ len. to_int (s.free + s.len - length t) >>= λ free.
        some (record { len = len; free = free; buf = buf })

unfoldable pub sdscpy : Sdshdr → List ℕ → Option Sdshdr
sdscpy s t = strlen t >>= λ len. sdscpylen s (take len t)

-- The bytes of the string.
unfoldable pub content : List (Option ℕ) → ℕ → Option (List ℕ)
content buf zero = some []
content [] (suc n) = none
content (b ∷ buf) (suc n) = b >>= λ c. content buf n >>= λ s. some (c ∷ s)

unfoldable pub sdsdup : Sdshdr → Option Sdshdr
sdsdup s = content s.buf (sdslen s) >>= λ bytes. sdsnewlen (some bytes) (sdslen s)

unfoldable pub sdssetlen : Sdshdr → ℕ → Option Sdshdr
sdssetlen s newlen = to_int newlen >>= λ len. some (record s { len = len })
