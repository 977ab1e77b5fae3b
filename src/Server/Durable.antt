-- ===== src/Server/Durable.antt =====
-- Commands SET and DEL, and a start of the server with the log that they leave.
use rediskrazy.Base.{
  ℕ, suc, ◌+◌, ◌<◌, ◌≤◌, ◌^◌, ◌≡◌, refl, sym, ap, subst, ◌∙◌, Option, none, some, List, [], ◌∷◌,
  ◌++◌, length, length-append, arith, Ends, ends, Ends-bind, Ends-map, append-nil, append_assoc,
  All, All-append,
}
use rediskrazy.Dict.{Chain, find}
use rediskrazy.Server.{Server, set_record, del_record}
use rediskrazy.Server.Dispatch.{Others, handle_command, load_rounds, load_aof}
use rediskrazy.Server.Strings.{Holds, logged}
use rediskrazy.Server.Handlers.{handle_set-SetDone, handle_command-set}
use rediskrazy.Server.Log.{set_record-short, del_record-short}
use rediskrazy.Server.Replay.{
  Op, set_op, del_op, args_of, record_of, IsSmall, apply, apply_all, records, run, length-apply,
  handle_command-del, handle_del-DelDone, load_rounds-records, IsPlain, apply-IsPlain,
}
use rediskrazy.Server.Logs.{Logs, logged-append, set-Logs, del-Logs, log_size-cons, log_size}

command-Logs :
    (others : Others) (s : Server) (op : Op) (l : Chain) (now : ℕ)
    → Holds s l [] []
    → IsPlain l
    → IsSmall op
    → length l < 2 ^ 60
    → Ends (Logs s l (op ∷ [])) (handle_command others s (args_of op) now)
command-Logs others s (set_op key val) l now h plain small size =
    subst (Ends _) (sym (handle_command-set others s key val now)) (
      Ends-map
        (handle_set-SetDone s key val l [] [] now h size (unfold find in refl)
          (unfold find in refl))
        λ s' d. set-Logs s s' key val l h.strings.unique small d)
command-Logs others s (del_op key) l now h plain small size =
    subst (Ends _) (sym (handle_command-del others s key now)) (
      Ends-map (handle_del-DelDone s key l now h size)
        λ s' d. del-Logs s s' key l now plain small d)

pub records-append : (a b : List Op) → records (a ++ b) ≡ records a ++ records b
records-append [] b = refl
records-append (op ∷ a) b =
    ap (◌++◌ (record_of op)) (records-append a b)
    ∙ sym (append_assoc (record_of op) (records a) (records b))

pub apply_all-append :
    (l : Chain) (a b : List Op) → apply_all l (a ++ b) ≡ apply_all (apply_all l a) b
apply_all-append l [] b = refl
apply_all-append l (op ∷ a) b = apply_all-append (apply l op) a b

logged_nothing : (o : Option (List ℕ)) → o ≡ logged o []
logged_nothing none = refl
logged_nothing (some w) = ap some (sym (append-nil w))

both-Logs :
    (s s1 s2 : Server) (l : Chain) (op : Op) (ops : List Op)
    → Logs s l (op ∷ []) s1
    → Logs s1 (apply l op) ops s2
    → Logs s l (op ∷ ops) s2
both-Logs s s1 s2 l op ops a b = record {
  holds = b.holds;
  recs = a.recs ++ b.recs;
  log =
      b.log
      ∙ ap (λ o. logged o (records b.recs)) a.log
      ∙ logged-append s.aof (records a.recs) (records b.recs)
      ∙ ap (logged s.aof) (sym (records-append a.recs b.recs));
  effect = apply_all-append l a.recs b.recs ∙ ap (λ x. apply_all x b.recs) a.effect ∙ b.effect;
  small = (All-append IsSmall a.recs b.recs).1 (a.small, b.small);
  few = omega (arith, length-append a.recs b.recs, a.few, b.few);
  short = omega (
    arith,
    ap length (records-append a.recs b.recs),
    length-append (records a.recs) (records b.recs),
    log_size-cons op ops,
    a.short,
    b.short,
  );
}

pub run-Logs :
    (others : Others) (s : Server) (ops : List Op) (l : Chain) (now : ℕ)
    → Holds s l [] []
    → IsPlain l
    → All IsSmall ops
    → length l + length ops < 2 ^ 60
    → Ends (Logs s l ops) (run others s ops now)
run-Logs others s [] l now h plain small size = ends (record {
  holds = h;
  recs = [];
  log = logged_nothing s.aof;
  effect = refl;
  small = tt;
  few = omega arith;
  short = omega arith;
})
run-Logs others s (op ∷ ops) l now h plain small size =
    Ends-bind (command-Logs others s op l now h plain small.0 (omega arith)) λ s1 a.
      Ends-map
        (run-Logs others s1 ops (apply l op) now a.holds (apply-IsPlain l op plain) small.1
          (omega (arith, length-apply l op)))
        λ s2 b. both-Logs s s1 s2 l op ops a b

pub records-length : (ops : List Op) → length ops ≤ length (records ops)
records-length [] = omega arith
records-length (set_op key val ∷ ops) =
    omega (arith, length-append (set_record key val) (records ops), records-length ops)
records-length (del_op key ∷ ops) =
    omega (arith, length-append (del_record key) (records ops), records-length ops)

pub log_size-IsSmall : (ops : List Op) → log_size ops < 2 ^ 29 → All IsSmall ops
log_size-IsSmall [] h = tt
log_size-IsSmall (set_op key val ∷ ops) h =
    ((omega arith, omega arith), log_size-IsSmall ops (omega arith))
log_size-IsSmall (del_op key ∷ ops) h = (omega arith, log_size-IsSmall ops (omega arith))

pub few_by_size : (ops : List Op) → length ops ≤ log_size ops
few_by_size [] = omega arith
few_by_size (set_op key val ∷ ops) = omega (arith, few_by_size ops)
few_by_size (del_op key ∷ ops) = omega (arith, few_by_size ops)

-- Records are no longer than the bound.
pub records_by_size : (ops : List Op) → All IsSmall ops → length (records ops) ≤ log_size ops
records_by_size [] a = omega arith
records_by_size (set_op key val ∷ ops) ((h, h'), a) = omega (
  arith,
  length-append (set_record key val) (records ops),
  set_record-short key val h h',
  records_by_size ops a,
)
records_by_size (del_op key ∷ ops) (h, a) = omega (
  arith,
  length-append (del_record key) (records ops),
  del_record-short key h,
  records_by_size ops a,
)

pub load_aof-rounds :
    (others : Others) (s : Server) (content : List ℕ) (now : ℕ)
    → length content < 2 ^ 31
    → load_aof others s content now ≡ load_rounds others (suc (length content)) s content now
unfolding load_aof
load_aof-rounds others s content now h = ground arith

-- Commands SET (without a time to live) and DEL, with a log_size below 2 ^ 29, to a server without keys and with an empty log
-- leave a log that load_aof reads to its end into a server without keys, whenever that is: the second server then has the same strings as the first.
pub run-replayed :
    (others : Others) (s r : Server) (ops : List Op) (now later : ℕ)
    → Holds s [] [] []
    → Holds r [] [] []
    → s.aof ≡ some []
    → log_size ops < 2 ^ 29
    → Ends
        (λ s'.
          Holds s' (apply_all [] ops) [] []
          × (w : List ℕ) × (s'.aof ≡ some w)
          × Ends (λ r'. Holds r' (apply_all [] ops) [] []) (load_aof others r w later))
        (run others s ops now)
run-replayed others s r ops now later h hr empty size =
    Ends-map
      (run-Logs others s ops [] now h tt (log_size-IsSmall ops size)
        (omega (arith, few_by_size ops)))
      λ s' a. (
        a.holds,
        records a.recs,
        a.log ∙ ap (λ o. logged o (records a.recs)) empty,
        subst (Ends _)
            (sym (load_aof-rounds others r (records a.recs) later (omega (arith, a.short))))
            (Ends-map
              (load_rounds-records others (suc (length (records a.recs))) r a.recs [] later hr
                a.small (omega (arith, a.few, few_by_size ops))
                (omega (arith, records-length a.recs)))
              λ r' x. subst (λ c. Holds r' c [] []) a.effect x),
      )
