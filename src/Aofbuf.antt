-- ===== src/Aofbuf.antt =====
-- backend/aofbuf.h and aofbuf.c: the buffered writer of the append-only file.
-- `fp` is `none` for NULL, else the file: the bytes that fwrite gave to it, and how many of them fsync
-- has made durable; fwrite and fsync are taken to succeed. `buffer` is the used part of the buffer, and
-- `buf_used` its length. `none` is a write behind the buffer's end or a read behind the end of `tmp`.
pub mod Laws
pub mod Runs
pub mod Tests
use rediskrazy.Base.{
  ◌>>=◌, ℕ, zero, suc, ◌+◌, ◌-◌, ◌%◌, ◌^◌, Bool, true, false, ◌&&◌, Option, none, some, List, [],
  ◌∷◌, ◌++◌, ltb, leb, ◌==◌, if◌then◌else◌, length, take,
}

pub data AofFsyncPolicy : Type 0 where
  always everysec no_fsync : AofFsyncPolicy

pub record File : Type 0 where
  pub written : List ℕ
  pub synced : ℕ

pub record AofBuffer : Type 0 where
  pub fp : Option File
  pub buffer : List ℕ
  pub buf_size : ℕ
  pub policy : AofFsyncPolicy
  pub last_fsync : ℕ

abbrev pub is_always : AofFsyncPolicy → Bool
is_always always = true
is_always everysec = false
is_always no_fsync = false

abbrev pub is_everysec : AofFsyncPolicy → Bool
is_everysec always = false
is_everysec everysec = true
is_everysec no_fsync = false

pub aofbuf_init : Option File → ℕ → AofFsyncPolicy → ℕ → AofBuffer
aofbuf_init fp buf_size policy now = record {
  fp = fp;
  buffer = [];
  buf_size = if ltb 0 buf_size then buf_size else 4096;
  policy = policy;
  last_fsync = now;
}

abbrev pub fwrite : List ℕ → File → File
fwrite bytes file = record file { written = file.written ++ bytes }

abbrev pub fsync : File → File
fsync file = record file { synced = length file.written }

abbrev pub on_file : (File → File) → Option File → Option File
on_file f none = none
on_file f (some file) = some (f file)

abbrev pub has_file : Option File → Bool
has_file none = false
has_file (some file) = true

unfoldable pub do_fsync : AofBuffer → ℕ → AofBuffer
do_fsync ab now = record ab { fp = on_file fsync ab.fp; last_fsync = now }

unfoldable pub aofbuf_flush : AofBuffer → ℕ → AofBuffer
aofbuf_flush ab now =
    if ltb 0 (length ab.buffer) && has_file ab.fp
    then (let ab' : AofBuffer = record ab { fp = on_file (fwrite ab.buffer) ab.fp; buffer = [] } in
        if is_always ab.policy then do_fsync ab' now else ab')
    else ab

-- memcpy(ab->buffer + ab->buf_used, bytes, len); ab->buf_used += len
unfoldable pub append_data : AofBuffer → List ℕ → Option AofBuffer
append_data ab bytes =
    if leb (length ab.buffer + length bytes) ab.buf_size
    then some (record ab { buffer = ab.buffer ++ bytes })
    else none

-- `bytes` are the `len` bytes to write.
unfoldable pub aofbuf_write : AofBuffer → List ℕ → ℕ → Option AofBuffer
aofbuf_write ab bytes now =
    if has_file ab.fp
    then (if leb ab.buf_size (length bytes)
        then (let flushed : AofBuffer = aofbuf_flush ab now in
            let ab' : AofBuffer = record flushed { fp = on_file (fwrite bytes) flushed.fp } in
            some (if is_always ab'.policy then do_fsync ab' now else ab'))
        else (if ltb ab.buf_size ((length ab.buffer + length bytes) % 2 ^ 64)
            then append_data (aofbuf_flush ab now) bytes
            else append_data ab bytes))
    else some ab

-- `text` is the formatted text: vsnprintf stores at most 4095 bytes of it and a 0 in `tmp`, and returns
-- the full length.
unfoldable pub aofbuf_printf : AofBuffer → List ℕ → ℕ → Option AofBuffer
aofbuf_printf ab text now =
    if ltb 0 (length text)
    then (if leb (length text) 4095
        then aofbuf_write ab text now
        else (if length text == 4096
            then aofbuf_write ab (take 4095 text ++ (0 ∷ [])) now
            else none))
    else some ab

-- The difference of the times is signed: a clock that went back gives none of 1 or more.
unfoldable pub aofbuf_periodic_fsync : AofBuffer → ℕ → AofBuffer
aofbuf_periodic_fsync ab now =
    if is_everysec ab.policy && ltb ab.last_fsync now
    then do_fsync (aofbuf_flush ab now) now
    else ab

unfoldable pub aofbuf_destroy : AofBuffer → ℕ → AofBuffer
aofbuf_destroy ab now = record (aofbuf_flush ab now) { buffer = []; buf_size = 0 }

unfoldable pub aofbuf_set_policy : AofBuffer → AofFsyncPolicy → AofBuffer
aofbuf_set_policy ab policy = record ab { policy = policy }
