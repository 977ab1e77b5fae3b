-- ===== src/Server/Logs.antt =====
-- What SET and DEL log has the effect of the commands.
use rediskrazy.Base.{
  ℕ, ◌+◌, ◌*◌, ◌<◌, ◌≤◌, ◌^◌, ◌≡◌, refl, sym, ap, ◌∙◌, Bool, true, false, Option, none, some, List,
  [], ◌∷◌, ◌++◌, if◌then◌else◌, length, length-append, arith, bytes_eq_iff, append-nil,
  append_assoc, All,
}
use rediskrazy.Sds.{Sds}
use rediskrazy.Dict.{Chain, remove_chain}
use rediskrazy.Dict.Entries.{UniqueKeys, find-remove_chain, remove_chain-missing}
use rediskrazy.Dict.Contents.{put_entry, live_entry}
use rediskrazy.Dict.Expiry.{value_of}
use rediskrazy.Server.{Server, set_record, del_record, is_there}
use rediskrazy.Server.Strings.{Holds, logged, plain_entry}
use rediskrazy.Server.Handlers.{SetDone}
use rediskrazy.Server.Log.{set_record-short, del_record-short}
use rediskrazy.Server.Replay.{
  Op, set_op, del_op, IsSmall, apply_all, records, DelDone, IsPlain, plain-missing,
}

pub logged-append : (o : Option (List ℕ)) (a b : List ℕ) → logged (logged o a) b ≡ logged o (a ++ b)
logged-append none a b = refl
logged-append (some w) a b = ap some (append_assoc w a b)

pub removed_twice :
    (key : Sds) (l : Chain)
    → UniqueKeys l
    → remove_chain key (remove_chain key l) ≡ remove_chain key l
removed_twice key l u =
    remove_chain-missing key (remove_chain key l)
      (find-remove_chain key key l u ∙ ground (arith, bytes_eq_iff key key))

-- A bound of what is logged.
abbrev pub log_size : List Op → ℕ
log_size [] = 0
log_size (set_op key val ∷ ops) = 2 * length key + length val + 300 + log_size ops
log_size (del_op key ∷ ops) = length key + 300 + log_size ops

-- The records that are logged have the effect of the commands.
pub record Logs (s : Server) (l : Chain) (ops : List Op) (s' : Server) : Type 0 where
  pub holds : Holds s' (apply_all l ops) [] []
  pub recs : List Op
  pub log : s'.aof ≡ logged s.aof (records recs)
  pub effect : apply_all l recs ≡ apply_all l ops
  pub small : All IsSmall recs
  pub few : length recs ≤ 2 * length ops
  pub short : length (records recs) ≤ log_size ops

short_del_set :
    (key val : Sds)
    → (length key < 2 ^ 29) × (length val < 2 ^ 29)
    → length (records (del_op key ∷ set_op key val ∷ [])) ≤ log_size (set_op key val ∷ [])
short_del_set key val (h, h') = omega (
  arith,
  length-append (del_record key) (set_record key val ++ []),
  length-append (set_record key val) [],
  del_record-short key h,
  set_record-short key val h h',
)

pub log_size-cons :
    (op : Op) (ops : List Op) → log_size (op ∷ ops) ≡ log_size (op ∷ []) + log_size ops
log_size-cons (set_op key val) ops = omega arith
log_size-cons (del_op key) ops = omega arith

pub set-Logs :
    (s s' : Server) (key val : Sds) (l : Chain)
    → UniqueKeys l
    → IsSmall (set_op key val)
    → SetDone s key val l [] [] s'
    → Logs s l (set_op key val ∷ []) s'
set-Logs s s' key val l u small d = go d.was_there d.log
  where
    go :
        (b : Bool)
        → s'.aof ≡ logged (logged s.aof (if b then del_record key else [])) (set_record key val)
        → Logs s l (set_op key val ∷ []) s'
    go true e = record {
      holds = d.holds;
      recs = del_op key ∷ set_op key val ∷ [];
      log =
          e
          ∙ logged-append s.aof (del_record key) (set_record key val)
          ∙ ap (λ x. logged s.aof (del_record key ++ x)) (sym (append-nil (set_record key val)));
      effect = ap (put_entry (plain_entry key val)) (removed_twice key l u);
      small = (small.0, (small, tt));
      few = omega arith;
      short = short_del_set key val small;
    }
    go false e = record {
      holds = d.holds;
      recs = set_op key val ∷ [];
      log =
          e
          ∙ logged-append s.aof [] (set_record key val)
          ∙ ap (logged s.aof) (sym (append-nil (set_record key val)));
      effect = refl;
      small = (small, tt);
      few = omega arith;
      short =
          omega (
            arith,
            length-append (set_record key val) [],
            set_record-short key val small.0 small.1,
          );
    }

pub del-Logs :
    (s s' : Server) (key : Sds) (l : Chain) (now : ℕ)
    → IsPlain l
    → IsSmall (del_op key)
    → DelDone s key l now s'
    → Logs s l (del_op key ∷ []) s'
del-Logs s s' key l now plain small d = go d.was_there d.log d.found
  where
    go :
        (b : Bool)
        → s'.aof ≡ logged s.aof (if b then del_record key else [])
        → b ≡ is_there (value_of (live_entry now key l))
        → Logs s l (del_op key ∷ []) s'
    go true e f = record {
      holds = d.holds;
      recs = del_op key ∷ [];
      log = e ∙ ap (logged s.aof) (sym (append-nil (del_record key)));
      effect = refl;
      small = (small, tt);
      few = omega arith;
      short = omega (arith, length-append (del_record key) [], del_record-short key small);
    }
    go false e f = record {
      holds = d.holds;
      recs = [];
      log = e;
      effect = sym (remove_chain-missing key l (plain-missing key l now plain (sym f)));
      small = tt;
      few = omega arith;
      short = omega arith;
    }
