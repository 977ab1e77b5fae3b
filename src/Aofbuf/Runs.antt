-- ===== src/Aofbuf/Runs.antt =====
-- Runs of the writer, and its periodic sync.
use rediskrazy.Base.{
  ◌>>=◌, ℕ, ◌<◌, ◌≤◌, ◌≡◌, refl, sym, ap, ◌∙◌, true, false, ◌&&◌, Option, some, List, [], ◌∷◌, ◌++◌,
  ltb, if◌then◌else◌, length, arith, append-nil, append_assoc, Ends, ends, Ends-bind, Ends-if,
  Bool-cases, inl, inr,
}
use rediskrazy.Aofbuf.{
  File, AofBuffer, is_everysec, fsync, do_fsync, aofbuf_flush, aofbuf_write, aofbuf_printf,
  aofbuf_periodic_fsync, aofbuf_set_policy, AofFsyncPolicy, is_always,
}
use rediskrazy.Aofbuf.Laws.{
  IsSynced, IsWriter, nil_buffer, flushed-IsWriter, do_fsync-IsWriter, fsync-fp,
  aofbuf_write_correct,
}

periodic_idle :
    (ab : AofBuffer) (now : ℕ)
    → (is_everysec ab.policy && ltb ab.last_fsync now) ≡ false
    → aofbuf_periodic_fsync ab now ≡ ab
unfolding aofbuf_periodic_fsync
periodic_idle ab now h = rw (aofbuf_periodic_fsync, h) refl

periodic_due :
    (ab : AofBuffer) (now : ℕ)
    → (is_everysec ab.policy && ltb ab.last_fsync now) ≡ true
    → aofbuf_periodic_fsync ab now ≡ do_fsync (aofbuf_flush ab now) now
unfolding aofbuf_periodic_fsync
periodic_due ab now h = rw (aofbuf_periodic_fsync, h) refl

periodic-IsWriter :
    (ab : AofBuffer) (all : List ℕ) (now : ℕ)
    → IsWriter ab all
    → IsWriter (aofbuf_periodic_fsync ab now) all
periodic-IsWriter ab all now v =
    elim (Bool-cases (is_everysec ab.policy && ltb ab.last_fsync now)) [
      | inl y ↦
          let (w, empty) = flushed-IsWriter ab all now v in
          rw (periodic_due ab now y) (
            do_fsync-IsWriter (aofbuf_flush ab now) all now w.file w.at_file w.in_order w.bounded
              w.sized)
      | inr n ↦ rw (periodic_idle ab now n) v
    ]

-- Under `everysec`, a second or more after the last sync, aofbuf_periodic_fsync leaves everything given to the
-- writer in the file, and the file synced.
pub periodic_fsync-IsSynced :
    (ab : AofBuffer) (all : List ℕ) (now : ℕ)
    → IsWriter ab all
    → is_everysec ab.policy ≡ true
    → ab.last_fsync < now
    → (file : File) × ((aofbuf_periodic_fsync ab now).fp ≡ some file)
      × (file.written ≡ all)
      × IsSynced file
periodic_fsync-IsSynced ab all now v e h =
    let (w, empty) = flushed-IsWriter ab all now v in
    let due : (is_everysec ab.policy && ltb ab.last_fsync now) ≡ true = ground arith in
    (
      fsync w.file,
      ap (λ a. a.fp) (periodic_due ab now due)
          ∙ fsync-fp (aofbuf_flush ab now) w.file now w.at_file,
      sym (append-nil w.file.written) ∙ sym (ap (λ b. w.file.written ++ b) empty) ∙ w.in_order,
      refl,
    )

-- An operation of a client: text that is printed has at most 4095 bytes, and a policy that is set is not `always`.
pub data Operation : Type 0 where
  write : List ℕ → Operation
  printf : (text : List ℕ) → length text ≤ 4095 → Operation
  flush periodic : Operation
  set_policy : (policy : AofFsyncPolicy) → is_always policy ≡ false → Operation

abbrev pub perform : AofBuffer → Operation → ℕ → Option AofBuffer
perform ab (write bytes) now = aofbuf_write ab bytes now
perform ab (printf text h) now = aofbuf_printf ab text now
perform ab flush now = some (aofbuf_flush ab now)
perform ab periodic now = some (aofbuf_periodic_fsync ab now)
perform ab (set_policy policy h) now = some (aofbuf_set_policy ab policy)

abbrev pub bytes_of : Operation → List ℕ
bytes_of (write bytes) = bytes
bytes_of (printf text h) = text
bytes_of flush = []
bytes_of periodic = []
bytes_of (set_policy policy h) = []

abbrev pub perform_all : AofBuffer → List (Operation × ℕ) → Option AofBuffer
perform_all ab [] = some ab
perform_all ab ((o, now) ∷ ops) = perform ab o now >>= λ ab'. perform_all ab' ops

abbrev pub all_bytes : List (Operation × ℕ) → List ℕ
all_bytes [] = []
all_bytes ((o, now) ∷ ops) = bytes_of o ++ all_bytes ops

printf_short :
    (ab : AofBuffer) (text : List ℕ) (now : ℕ)
    → length text ≤ 4095
    → aofbuf_printf ab text now
      ≡ (if ltb 0 (length text) then aofbuf_write ab text now else some ab)
unfolding aofbuf_printf
printf_short ab text now h = ground arith

set_policy-IsWriter :
    (ab : AofBuffer) (all : List ℕ) (policy : AofFsyncPolicy)
    → is_always policy ≡ false
    → IsWriter ab all
    → IsWriter (aofbuf_set_policy ab policy) all
unfolding aofbuf_set_policy
set_policy-IsWriter ab all policy h v = record {
  file = v.file;
  at_file = v.at_file;
  in_order = v.in_order;
  bounded = v.bounded;
  sized = v.sized;
  synced = λ a. absurd (ground arith);
}

perform-IsWriter :
    (ab : AofBuffer) (all : List ℕ) (o : Operation) (now : ℕ)
    → IsWriter ab all
    → Ends (λ ab'. IsWriter ab' (all ++ bytes_of o)) (perform ab o now)
perform-IsWriter ab all (write bytes) now v = aofbuf_write_correct ab all bytes now v
perform-IsWriter ab all (printf text h) now v = rw (printf_short ab text now h) (
    Ends-if (ltb 0 (length text)) (λ y. aofbuf_write_correct ab all text now v)
      (λ n. rw (nil_buffer text n, append-nil all) (ends v)))
perform-IsWriter ab all flush now v = rw (append-nil all) (ends ((flushed-IsWriter ab all now v).0))
perform-IsWriter ab all periodic now v = rw (append-nil all) (ends (periodic-IsWriter ab all now v))
perform-IsWriter ab all (set_policy policy h) now v =
    rw (append-nil all) (ends (set_policy-IsWriter ab all policy h v))

-- With a file and a buffer of less than 2 ^ 63 bytes, after writes, prints of at most 4095 bytes, flushes, periodic syncs and
-- changes to a policy other than `always`, at any times: what is in the file and then in the buffer is what was written and printed,
-- in order; the buffer never overflows; and under the policy `always` all that is in the file, though not what is still in the buffer, is synced.
pub perform_all_correct :
    (ab : AofBuffer) (all : List ℕ) (ops : List (Operation × ℕ))
    → IsWriter ab all
    → Ends (λ ab'. IsWriter ab' (all ++ all_bytes ops)) (perform_all ab ops)
perform_all_correct ab all [] v = rw (append-nil all) (ends v)
perform_all_correct ab all ((o, now) ∷ ops) v =
    Ends-bind (perform-IsWriter ab all o now v) λ ab' v'.
      rw (sym (append_assoc all (bytes_of o) (all_bytes ops)))
        (perform_all_correct ab' (all ++ bytes_of o) ops v')
