-- ===== src/Server/Forgets.antt =====
-- A start with a snapshot and without a log, and the start behind it.
use rediskrazy.Base.{
  ◌>>=◌, ℕ, ◌<◌, ◌^◌, ◌≡◌, refl, sym, subst, true, none, some, List, [], length, Ends, ends,
  Ends-bind, Ends-inv, Ends-map, Bool, All,
}
use rediskrazy.Dict.{Chain}
use rediskrazy.Rdb.{rdb_save, rdb_load}
use rediskrazy.Rdb.Strings.{rdb_save-strings, IsShort, rdb_load-rdb_save}
use rediskrazy.Server.{Server}
use rediskrazy.Server.Dispatch.{Others, load_aof, load_rounds}
use rediskrazy.Server.StartUp.{new_server-Holds, opened-Holds}
use rediskrazy.Server.Restart.{shut_down-Kept}
use rediskrazy.Server.Hashes.{entries_of}
use rediskrazy.Server.Main.{Files, new_server, load_dump, load_files, start_up, serve, main}
use rediskrazy.Server.Strings.{Holds}
use rediskrazy.Server.Replay.{IsPlain}

load_aof-empty : (others : Others) (s : Server) (now : ℕ) → load_aof others s [] now ≡ some s
unfolding load_aof load_rounds
load_aof-empty others s now = refl

start_up-empty_log :
    (others : Others) (files : Files) (now : ℕ)
    → files.appendonly ≡ some []
    → Ends (λ s. Holds s [] [] []) (start_up others files now)
unfolding start_up load_files
start_up-empty_log others files now e =
    rw (e, load_aof-empty others (new_server files.dump) now)
      (ends (opened-Holds (new_server files.dump) [] [] (new_server-Holds files.dump)))

start_up-dump :
    (others : Others) (file : List ℕ) (l : Chain) (now : ℕ)
    → Ends {A = Server × Bool}
        (λ x. Holds x.0 l [] [] × (x.1 ≡ true))
        (rdb_load (new_server (some file)) file now)
    → Ends
        (λ s. Holds s l [] [] × (s.aof ≡ some []))
        (start_up others (record { appendonly = none; dump = some file }) now)
unfolding start_up load_files load_dump new_server
start_up-dump others file l now h =
    Ends-bind (Ends-bind {Q = λ s. Holds s l [] []} h λ x y. ends y.0)
      λ s h. ends (opened-Holds s l [] h, refl)

-- Without a request, what main leaves of a start with a snapshot is an empty log.
main-dump :
    (others : Others) (file : List ℕ) (l : Chain) (now : ℕ)
    → Ends {A = Server × Bool}
        (λ x. Holds x.0 l [] [] × (x.1 ≡ true))
        (rdb_load (new_server (some file)) file now)
    → Ends
        (λ files. files.appendonly ≡ some [])
        (main others (record { appendonly = none; dump = some file }) [] now)
unfolding main serve
main-dump others file l now h =
    Ends-bind (start_up-dump others file l now h) λ r (h', e). shut_down-Kept r l [] now h' e

-- A server that has only strings, none of them with an expiry, with keys and values below 2 ^ 32 bytes, is saved by
-- rdb_save, and main is started with this snapshot and without a log, stopped before it reads a request, and started again: the
-- first start has the strings of the snapshot, and the second has no keys, since it reads the empty log that the first made.
pub start_up-forgets :
    (others : Others) (s : Server) (l : Chain) (now later : ℕ)
    → Holds s l [] []
    → IsPlain l
    → All IsShort (entries_of s.g_data)
    → length l < 2 ^ 60
    → Ends
        (λ file.
          Ends
            (λ r. Holds r l [] [])
            (start_up others (record { appendonly = none; dump = some file }) later)
          × Ends
              (λ r. Holds r [] [] [])
              (main others (record { appendonly = none; dump = some file }) [] later >>= λ files.
                start_up others files later))
        (rdb_save s now)
start_up-forgets others s l now later h plain short size =
    let (file, e, _) = Ends-inv (rdb_save-strings s l now h) in
    let r = new_server (some file) in
    let loaded =
      subst
        (λ o.
          Ends {A = Server × Bool} (λ x. Holds x.0 l [] [] × (x.1 ≡ true))
            (o >>= λ f. rdb_load r f later))
        e (rdb_load-rdb_save s r l now later h plain short size (new_server-Holds (some file))) in
    subst (Ends _) (sym e) (
      ends (
        Ends-map (start_up-dump others file l later loaded) λ s x. x.0,
        Ends-bind (main-dump others file l later loaded)
            λ files e'. start_up-empty_log others files later e',
      ))
