-- ===== src/Aofbuf/Laws.antt =====
-- One write: order, bounds of the buffer, and what a flush leaves.
use rediskrazy.Base.{
  ℕ, ◌+◌, ◌%◌, ◌^◌, ◌<◌, ◌≤◌, ◌≡◌, refl, sym, ap, ◌∙◌, true, false, Option, some, List, [], ◌∷◌,
  ◌++◌, ltb, leb, if◌then◌else◌, length, arith, append-nil, append_assoc, length-append, Ends, ends,
  Ends-if, Bool-cases, inl, inr,
}
use rediskrazy.Aofbuf.{
  File, AofBuffer, is_always, fwrite, fsync, on_file, has_file, do_fsync, aofbuf_flush, append_data,
  aofbuf_write,
}

abbrev pub IsSynced : File → Type 0
IsSynced file = file.synced ≡ length file.written

-- A flush empties the buffer into the file, and under `always` syncs the file.
record IsFlushed (ab ab' : AofBuffer) (file : File) : Type 0 where
  new_file : File
  at_file : ab'.fp ≡ some new_file
  all_written : new_file.written ≡ file.written ++ ab.buffer
  emptied : ab'.buffer ≡ []
  same_size : ab'.buf_size ≡ ab.buf_size
  same_policy : ab'.policy ≡ ab.policy
  kept_synced : is_always ab.policy ≡ true → IsSynced file → IsSynced new_file

pub nil_buffer : (l : List ℕ) → ltb 0 (length l) ≡ false → l ≡ []
nil_buffer [] h = refl
nil_buffer (x ∷ l) h = absurd (ground arith)

flush_idle :
    (ab : AofBuffer) (now : ℕ) → ltb 0 (length ab.buffer) ≡ false → aofbuf_flush ab now ≡ ab
unfolding aofbuf_flush
flush_idle ab now h = rw (aofbuf_flush, h) refl

flush_always :
    (ab : AofBuffer) (file : File) (now : ℕ)
    → ltb 0 (length ab.buffer) ≡ true
    → ab.fp ≡ some file
    → is_always ab.policy ≡ true
    → aofbuf_flush ab now ≡ record ab {
      fp = some (record {
        written = file.written ++ ab.buffer;
        synced = length (file.written ++ ab.buffer);
      });
      buffer = [];
      last_fsync = now;
    }
unfolding aofbuf_flush do_fsync
flush_always ab file now h e a = ground arith

flush_later :
    (ab : AofBuffer) (file : File) (now : ℕ)
    → ltb 0 (length ab.buffer) ≡ true
    → ab.fp ≡ some file
    → is_always ab.policy ≡ false
    → aofbuf_flush ab now
      ≡ record ab { fp = some (record file { written = file.written ++ ab.buffer }); buffer = [] }
unfolding aofbuf_flush do_fsync
flush_later ab file now h e a = ground arith

flush-IsFlushed :
    (ab : AofBuffer) (file : File) (now : ℕ)
    → ab.fp ≡ some file
    → IsFlushed ab (aofbuf_flush ab now) file
flush-IsFlushed ab file now e = elim (Bool-cases (ltb 0 (length ab.buffer))) [
  | inr n ↦
      let nothing = nil_buffer ab.buffer n in
      rw (flush_idle ab now n) (record {
        new_file = file;
        at_file = e;
        all_written = sym (ap (λ b. file.written ++ b) nothing ∙ append-nil file.written);
        emptied = nothing;
        same_size = refl;
        same_policy = refl;
        kept_synced = λ a s. s;
      })
  | inl y ↦ elim (Bool-cases (is_always ab.policy)) [
    | inl a ↦ rw (flush_always ab file now y e a) (record {
      new_file = record {
        written = file.written ++ ab.buffer;
        synced = length (file.written ++ ab.buffer);
      };
      at_file = refl;
      all_written = refl;
      emptied = refl;
      same_size = refl;
      same_policy = refl;
      kept_synced = λ a s. refl;
    })
    | inr a ↦ rw (flush_later ab file now y e a) (record {
      new_file = record file { written = file.written ++ ab.buffer };
      at_file = refl;
      all_written = refl;
      emptied = refl;
      same_size = refl;
      same_policy = refl;
      kept_synced = λ b s. absurd (ground arith);
    })
  ]
]

flush-size :
    (ab : AofBuffer) (file : File) (now : ℕ)
    → ab.fp ≡ some file
    → (aofbuf_flush ab now).buf_size ≡ ab.buf_size
flush-size ab file now e = (flush-IsFlushed ab file now e).same_size

-- A writer with a file whose bytes so far are `all`: the invariant of every operation.
pub record IsWriter (ab : AofBuffer) (all : List ℕ) : Type 0 where
  pub file : File
  pub at_file : ab.fp ≡ some file
  pub in_order : file.written ++ ab.buffer ≡ all
  pub bounded : length ab.buffer ≤ ab.buf_size
  pub sized : ab.buf_size < 2 ^ 63
  pub synced : is_always ab.policy ≡ true → IsSynced file

write_large :
    (ab fl : AofBuffer) (bytes : List ℕ) (now : ℕ)
    → aofbuf_flush ab now ≡ fl
    → has_file ab.fp ≡ true
    → leb ab.buf_size (length bytes) ≡ true
    → aofbuf_write ab bytes now
      ≡ some (
          if is_always fl.policy
          then do_fsync (record fl { fp = on_file (fwrite bytes) fl.fp }) now
          else record fl { fp = on_file (fwrite bytes) fl.fp })
unfolding aofbuf_write
write_large ab fl bytes now h e a = rw (aofbuf_write, e, a, h) refl

write_small :
    (ab : AofBuffer) (bytes : List ℕ) (now : ℕ)
    → has_file ab.fp ≡ true
    → leb ab.buf_size (length bytes) ≡ false
    → aofbuf_write ab bytes now ≡ (
        if ltb ab.buf_size ((length ab.buffer + length bytes) % 2 ^ 64)
        then append_data (aofbuf_flush ab now) bytes
        else append_data ab bytes)
unfolding aofbuf_write
write_small ab bytes now e a = rw (aofbuf_write, e, a) refl

has_some : (o : Option File) (f : File) → o ≡ some f → has_file o ≡ true
has_some o f e = ground arith

append_data-IsWriter :
    (ab : AofBuffer) (all bytes : List ℕ)
    → IsWriter ab all
    → length ab.buffer + length bytes ≤ ab.buf_size
    → Ends (λ ab'. IsWriter ab' (all ++ bytes)) (append_data ab bytes)
unfolding append_data
append_data-IsWriter ab all bytes v h =
    Ends-if (leb (length ab.buffer + length bytes) ab.buf_size)
      (λ y. ends (record {
        file = v.file;
        at_file = v.at_file;
        in_order =
            sym (append_assoc v.file.written ab.buffer bytes) ∙ ap (λ l. l ++ bytes) v.in_order;
        bounded = omega (arith, length-append ab.buffer bytes);
        sized = v.sized;
        synced = v.synced;
      }))
      (λ n. absurd (ground arith))

pub flushed-IsWriter :
    (ab : AofBuffer) (all : List ℕ) (now : ℕ)
    → IsWriter ab all
    → IsWriter (aofbuf_flush ab now) all × ((aofbuf_flush ab now).buffer ≡ [])
flushed-IsWriter ab all now v =
    let w = flush-IsFlushed ab v.file now v.at_file in
    (
      record {
        file = w.new_file;
        at_file = w.at_file;
        in_order =
            ap (λ b. w.new_file.written ++ b) w.emptied
            ∙ append-nil w.new_file.written
            ∙ w.all_written
            ∙ v.in_order;
        bounded = omega (arith, ap length w.emptied);
        sized = omega (arith, w.same_size, v.sized);
        synced = λ a.
            w.kept_synced (sym (ap is_always w.same_policy) ∙ a)
              (v.synced (sym (ap is_always w.same_policy) ∙ a));
      },
      w.emptied,
    )

pub fsync-fp :
    (ab : AofBuffer) (f : File) (now : ℕ) → ab.fp ≡ some f → (do_fsync ab now).fp ≡ some (fsync f)
unfolding do_fsync
fsync-fp ab f now h = ground arith

pub do_fsync-IsWriter :
    (ab : AofBuffer) (all : List ℕ) (now : ℕ)
    → (file : File) → ab.fp ≡ some file
    → file.written ++ ab.buffer ≡ all
    → length ab.buffer ≤ ab.buf_size
    → ab.buf_size < 2 ^ 63
    → IsWriter (do_fsync ab now) all
unfolding do_fsync
do_fsync-IsWriter ab all now file e o b s = record {
  file = fsync file;
  at_file = fsync-fp ab file now e;
  in_order = o;
  bounded = b;
  sized = s;
  synced = λ a. refl;
}

direct-IsWriter :
    (fl : AofBuffer) (all bytes : List ℕ) (now : ℕ)
    → IsWriter fl all
    → fl.buffer ≡ []
    → IsWriter
        (if is_always fl.policy
          then do_fsync (record fl { fp = on_file (fwrite bytes) fl.fp }) now
          else record fl { fp = on_file (fwrite bytes) fl.fp })
        (all ++ bytes)
direct-IsWriter fl all bytes now v h =
    let at_end : on_file (fwrite bytes) fl.fp ≡ some (fwrite bytes v.file) =
      ap (on_file (fwrite bytes)) v.at_file in
    let order : (v.file.written ++ bytes) ++ fl.buffer ≡ all ++ bytes =
      ap (λ b. (v.file.written ++ bytes) ++ b) h
      ∙ append-nil (v.file.written ++ bytes)
      ∙ ap (λ l. l ++ bytes)
          (sym (append-nil v.file.written) ∙ ap (λ b. v.file.written ++ b) (sym h) ∙ v.in_order) in
    elim (Bool-cases (is_always fl.policy)) [
      | inl a ↦ rw a (
          do_fsync-IsWriter (record fl { fp = on_file (fwrite bytes) fl.fp }) (all ++ bytes) now
            (fwrite bytes v.file) at_end order v.bounded v.sized)
      | inr a ↦ rw a (record {
        file = fwrite bytes v.file;
        at_file = at_end;
        in_order = order;
        bounded = v.bounded;
        sized = v.sized;
        synced = λ b. absurd (ground arith);
      })
    ]

-- aofbuf_write stays inside the buffer, and adds its bytes at the end of what was given to the writer.
pub aofbuf_write_correct :
    (ab : AofBuffer) (all bytes : List ℕ) (now : ℕ)
    → IsWriter ab all
    → Ends (λ ab'. IsWriter ab' (all ++ bytes)) (aofbuf_write ab bytes now)
aofbuf_write_correct ab all bytes now v =
    let (v', empty) = flushed-IsWriter ab all now v in
    let there = has_some ab.fp v.file v.at_file in
    elim (Bool-cases (leb ab.buf_size (length bytes))) [
      | inl y ↦
          rw (write_large ab (aofbuf_flush ab now) bytes now refl there y)
            (ends (direct-IsWriter (aofbuf_flush ab now) all bytes now v' empty))
      | inr n ↦
          let size = flush-size ab v.file now v.at_file in
          rw (write_small ab bytes now there n) (
            Ends-if (ltb ab.buf_size ((length ab.buffer + length bytes) % 2 ^ 64))
              (λ over.
                append_data-IsWriter (aofbuf_flush ab now) all bytes v'
                  (fits (aofbuf_flush ab now) ab.buf_size (length bytes) n (ap length empty) size))
              (λ room.
                append_data-IsWriter ab all bytes v
                  (no_wrap (length ab.buffer) (length bytes) ab.buf_size v.bounded v.sized n room)))
    ]
  where
    fits :
        (fl : AofBuffer) (size len : ℕ)
        → leb size len ≡ false
        → length fl.buffer ≡ 0
        → fl.buf_size ≡ size
        → length fl.buffer + len ≤ fl.buf_size
    fits fl size len n e z = ground arith

    no_wrap :
        (used len size : ℕ)
        → used ≤ size
        → size < 2 ^ 63
        → leb size len ≡ false
        → ltb size ((used + len) % 2 ^ 64) ≡ false
        → used + len ≤ size
    no_wrap used len size b s n r =
        let small : len < size = ground arith in
        let same : (used + len) % 2 ^ 64 ≡ used + len = omega arith in ground arith
