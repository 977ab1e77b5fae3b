-- ===== src/Aofbuf/Tests.antt =====
-- A run of the writer, and its theorems at concrete inputs.
use rediskrazy.Base.{ℕ, List, ◌≡◌, refl, some, [], ◌∷◌, ◌++◌, Ends, arith}
use rediskrazy.Aofbuf.{AofFsyncPolicy, everysec, no_fsync, File, AofBuffer, aofbuf_periodic_fsync}
use rediskrazy.Aofbuf.Laws.{IsSynced, IsWriter}
use rediskrazy.Aofbuf.Runs.{
  Operation, write, flush, set_policy, perform_all, all_bytes, perform_all_correct,
  periodic_fsync-IsSynced,
}

abbrev file_1 : File
file_1 = record { written = 1 ∷ []; synced = 1 }

abbrev writer : AofFsyncPolicy → AofBuffer
writer p = record { fp = some file_1; buffer = 2 ∷ []; buf_size = 2; policy = p; last_fsync = 5 }

writer-IsWriter : (p : AofFsyncPolicy) → IsWriter (writer p) (1 ∷ 2 ∷ [])
writer-IsWriter p = record {
  file = file_1;
  at_file = refl;
  in_order = refl;
  bounded = omega arith;
  sized = omega arith;
  synced = λ a. refl;
}

-- A write, a change of the policy, and a flush.
abbrev some_operations : List (Operation × ℕ)
some_operations = (write (3 ∷ []), 6) ∷ (set_policy no_fsync refl, 6) ∷ (flush, 7) ∷ []

perform_all_correct_example :
    Ends
      (λ ab'. IsWriter ab' ((1 ∷ 2 ∷ []) ++ all_bytes some_operations))
      (perform_all (writer everysec) some_operations)
perform_all_correct_example =
    perform_all_correct (writer everysec) (1 ∷ 2 ∷ []) some_operations (writer-IsWriter everysec)

periodic_fsync-IsSynced_example :
    (file : File) × ((aofbuf_periodic_fsync (writer everysec) 6).fp ≡ some file)
    × (file.written ≡ (1 ∷ 2 ∷ []))
    × IsSynced file
periodic_fsync-IsSynced_example =
    periodic_fsync-IsSynced (writer everysec) (1 ∷ 2 ∷ []) 6 (writer-IsWriter everysec) refl
      (omega arith)
