-- ===== src/Server/Restart.antt =====
-- Runs of the server one after the other, over the files that they leave.
use rediskrazy.Base.{
  ◌>>=◌, ℕ, ◌<◌, ◌^◌, ◌≡◌, refl, sym, ap, subst, ◌∙◌, inl, inr, Option, none, some, List, [], ◌∷◌,
  ◌++◌, length, length-append, map, arith, Ends, ends, Ends-bind, Ends-map, append-nil,
  append_assoc, All, All-append,
}
use rediskrazy.Dict.{Chain}
use rediskrazy.Rdb.Strings.{rdb_save-strings}
use rediskrazy.Server.{Server}
use rediskrazy.Server.Dispatch.{Others}
use rediskrazy.Server.Requests.{Fits, serve-run}
use rediskrazy.Server.Main.{Files, start_up, shut_down, main}
use rediskrazy.Server.Strings.{Holds, logged}
use rediskrazy.Server.Replay.{Op, record_of, IsSmall, apply_all, records}
use rediskrazy.Server.Logs.{Logs, log_size}
use rediskrazy.Server.Durable.{
  run-Logs, records-append, apply_all-append, log_size-IsSmall, few_by_size,
}
use rediskrazy.Server.StartUp.{
  log_size-append, apply_all-IsPlain, length-apply_all, Kept, start_up-Kept,
}

pub shut_down-Kept :
    (s : Server) (l : Chain) (log : List ℕ) (now : ℕ)
    → Holds s l [] []
    → s.aof ≡ some log
    → Ends (λ files. files.appendonly ≡ some log) (shut_down s now)
unfolding shut_down
shut_down-Kept s l log now h e = Ends-bind (rdb_save-strings s l now h) λ file _. ends e

joined-Kept :
    (s s' : Server) (files files' : Files) (ops more : List Op) (k : Kept files ops)
    → s.aof ≡ some (records k.recs)
    → Logs s (apply_all [] ops) more s'
    → files'.appendonly ≡ s'.aof
    → Kept files' (ops ++ more)
joined-Kept s s' files files' ops more k e a kept = record {
  recs = k.recs ++ a.recs;
  log = inl (
      kept
      ∙ a.log
      ∙ ap (λ o. logged o (records a.recs)) e
      ∙ ap some (sym (records-append k.recs a.recs)));
  effect =
      apply_all-append [] k.recs a.recs
      ∙ ap (λ l. apply_all l a.recs) k.effect
      ∙ a.effect
      ∙ sym (apply_all-append [] ops more);
  small = (All-append IsSmall k.recs a.recs).1 (k.small, a.small);
  few = omega (arith, length-append k.recs a.recs, length-append ops more, k.few, a.few);
  short = omega (
    arith,
    ap length (records-append k.recs a.recs),
    length-append (records k.recs) (records a.recs),
    log_size-append ops more,
    k.short,
    a.short,
  );
}

main-Kept :
    (others : Others) (files : Files) (ops more : List Op) (now : ℕ)
    → Kept files ops
    → All Fits more
    → log_size (ops ++ more) < 2 ^ 29
    → Ends (λ files'. Kept files' (ops ++ more)) (main others files (map record_of more) now)
unfolding main
main-Kept others files ops more now k fits size =
    let sum = log_size-append ops more in
    let small : All IsSmall more = log_size-IsSmall more (omega (arith, sum)) in
    let l = apply_all [] ops in
    Ends-bind (start_up-Kept others files ops now k (omega (arith, sum))) λ s (h, e).
      subst (λ o. Ends (λ files'. Kept files' (ops ++ more)) (o >>= λ s. shut_down s now))
        (sym (serve-run others s more now fits small))
        (Ends-bind
          (run-Logs others s more l now h (apply_all-IsPlain [] ops tt) small
            (omega (arith, length-apply_all [] ops, few_by_size ops, few_by_size more, sum)))
          λ s' a.
            Ends-map
              (shut_down-Kept s' (apply_all l more) _ now a.holds
                (a.log ∙ ap (λ o. logged o (records a.recs)) e))
              λ files' e'.
                joined-Kept s s' files files' ops more k e a
                  (e' ∙ sym (a.log ∙ ap (λ o. logged o (records a.recs)) e)))

-- Runs of the server, each with its requests and the time at which it runs.
abbrev pub mains : Others → Files → List (List Op × ℕ) → Option Files
mains others files [] = some files
mains others files ((ops, now) ∷ runs) =
    main others files (map record_of ops) now >>= λ files. mains others files runs

abbrev pub ops_of : List (List Op × ℕ) → List Op
ops_of [] = []
ops_of ((ops, now) ∷ runs) = ops ++ ops_of runs

mains-Kept :
    (others : Others) (files : Files) (ops : List Op) (runs : List (List Op × ℕ))
    → Kept files ops
    → All Fits (ops_of runs)
    → log_size (ops ++ ops_of runs) < 2 ^ 29
    → Ends (λ files'. Kept files' (ops ++ ops_of runs)) (mains others files runs)
mains-Kept others files ops [] k fits size = ends (subst (Kept files) (sym (append-nil ops)) k)
mains-Kept others files ops ((more, now) ∷ runs) k fits size =
    let (f, fs) = (All-append Fits more (ops_of runs)).0 fits in
    let both = append_assoc ops more (ops_of runs) in
    let size' : log_size ((ops ++ more) ++ ops_of runs) < 2 ^ 29 =
      subst (λ o. log_size o < 2 ^ 29) (sym both) size in
    Ends-bind
      (main-Kept others files ops more now k f
        (omega (arith, size', log_size-append (ops ++ more) (ops_of runs))))
      λ files' k'.
        subst (λ o. Ends (λ f. Kept f o) (mains others files' runs)) both
          (mains-Kept others files' (ops ++ more) runs k' fs size')

abbrev pub no_files : Files
no_files = record { appendonly = none; dump = none }

no_files-Kept : Kept no_files []
no_files-Kept = record {
  recs = [];
  log = inr (refl, refl, refl);
  effect = refl;
  small = tt;
  few = omega arith;
  short = omega arith;
}

-- Runs of main one after the other, the first without files and each over the files that the one before left, each at any time and
-- with any requests SET (without a time to live) and DEL that have at most 4096 bytes, all together with a log_size below 2 ^ 29: they all end well, and
-- the next start, at any time, has the strings that all of the requests give in their order.
pub start_up-mains :
    (others : Others) (runs : List (List Op × ℕ)) (later : ℕ)
    → All Fits (ops_of runs)
    → log_size (ops_of runs) < 2 ^ 29
    → Ends
        (λ s. Holds s (apply_all [] (ops_of runs)) [] [])
        (mains others no_files runs >>= λ files. start_up others files later)
start_up-mains others runs later fits size =
    Ends-bind (mains-Kept others no_files [] runs no_files-Kept fits size)
      λ files k. Ends-map (start_up-Kept others files (ops_of runs) later k size) λ s x. x.0
