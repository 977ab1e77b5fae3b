-- ===== src/Server/Replay.antt =====
-- SET and DEL, logged and read back by load_aof.
use rediskrazy.Base.{
  ◌>>=◌, ℕ, zero, suc, ◌+◌, ◌<◌, ◌≤◌, ◌^◌, ◌≡◌, refl, sym, ap, subst, ◌∙◌, Bool, true, false,
  Option, none, some, List, [], ◌∷◌, ◌++◌, if◌then◌else◌, length, arith, codes, bytes_eq, Ends,
  ends, Ends-bind, Ends-map, All, Bool-cases, inl, inr,
}
use rediskrazy.Sds.{Sds}
use rediskrazy.Dict.{DictEntry, Chain, find, remove_chain, is_expired}
use rediskrazy.Dict.Contents.{put_entry, removed-le, unless_expired, live_entry}
use rediskrazy.Dict.Expiry.{value_of}
use rediskrazy.Server.{Server, set_record, del_record, delete_key, is_there}
use rediskrazy.Server.Commands.{handle_del, delete_keys, toupper, c_string, integer}
use rediskrazy.Server.Dispatch.{Others, handle_command, load_rounds, dispatch}
use rediskrazy.Server.Strings.{Holds, logged, Deleted, delete_key-Deleted, plain_entry}
use rediskrazy.Server.Handlers.{send_all-Sent, handle_set-SetDone, handle_command-set}
use rediskrazy.Server.Log.{
  set_record-Encodes, del_record-Encodes, load_rounds-record, set_record-short, del_record-short,
}

-- A SET without a time to live, or a DEL of one key.
pub data Op : Type 0 where
  set_op : Sds → Sds → Op
  del_op : Sds → Op

abbrev pub args_of : Op → List Sds
args_of (set_op key val) = codes "SET" ∷ key ∷ val ∷ []
args_of (del_op key) = codes "DEL" ∷ key ∷ []

abbrev pub record_of : Op → List ℕ
record_of (set_op key val) = set_record key val
record_of (del_op key) = del_record key

abbrev pub IsSmall : Op → Type 0
IsSmall (set_op key val) = (length key < 2 ^ 29) × (length val < 2 ^ 29)
IsSmall (del_op key) = length key < 2 ^ 29

-- What it does to the strings.
abbrev pub apply : Chain → Op → Chain
apply l (set_op key val) = put_entry (plain_entry key val) (remove_chain key l)
apply l (del_op key) = remove_chain key l

abbrev pub apply_all : Chain → List Op → Chain
apply_all l [] = l
apply_all l (op ∷ ops) = apply_all (apply l op) ops

abbrev pub records : List Op → List ℕ
records [] = []
records (op ∷ ops) = record_of op ++ records ops

-- The commands one after the other, at the time `now`.
abbrev pub run : Others → Server → List Op → ℕ → Option Server
run others s [] now = some s
run others s (op ∷ ops) now = handle_command others s (args_of op) now >>= λ s. run others s ops now

pub length-apply : (l : Chain) (op : Op) → length (apply l op) ≤ length l + 1
length-apply l (set_op key val) =
    omega (arith, removed-le key l, removed-le key (remove_chain key l))
length-apply l (del_op key) = omega (arith, removed-le key l)

pub handle_command-del :
    (others : Others) (s : Server) (key : Sds) (now : ℕ)
    → handle_command others s (codes "DEL" ∷ key ∷ []) now ≡ handle_del s (key ∷ []) now
unfolding handle_command dispatch toupper c_string bytes_eq
handle_command-del others s key now = refl

-- What DEL of one key does.
pub record DelDone (s : Server) (key : Sds) (l : Chain) (now : ℕ) (s' : Server) : Type 0 where
  pub holds : Holds s' (remove_chain key l) [] []
  pub was_there : Bool
  pub log : s'.aof ≡ logged s.aof (if was_there then del_record key else [])
  pub found : was_there ≡ is_there (value_of (live_entry now key l))

pub handle_del-DelDone :
    (s : Server) (key : Sds) (l : Chain) (now : ℕ)
    → Holds s l [] []
    → length l < 2 ^ 60
    → Ends (DelDone s key l now) (handle_del s (key ∷ []) now)
unfolding handle_del delete_keys
handle_del-DelDone s key l now h small =
    Ends-bind
      (one_key (delete_key s key now)
        (delete_key-Deleted s key l [] [] now h small (unfold find in refl) (unfold find in refl)))
      λ (s1, n) (b, d).
        let sent = send_all-Sent s1 (integer n) in
        ends (record {
          holds = sent.holds _ [] [] d.holds;
          was_there = b;
          log = sent.log ∙ d.log;
          found = d.found;
        })
  where
    one_key :
        (m : Option (Server × Bool))
        → Ends (λ r. Deleted s key l [] [] now r.1 r.0) m
        → Ends {A = Server × ℕ}
            (λ r. (b : Bool) × Deleted s key l [] [] now b r.0)
            (m >>= λ r. some (r.0, if r.1 then 0 + 1 else 0))
    one_key m e = Ends-bind e λ r d. ends (r.1, d)

-- One command, executed without a log.
command-Holds :
    (others : Others) (s : Server) (op : Op) (l : Chain) (now : ℕ)
    → Holds s l [] []
    → length l < 2 ^ 60
    → Ends (λ s'. Holds s' (apply l op) [] []) (handle_command others s (args_of op) now)
command-Holds others s (set_op key val) l now h small =
    subst (Ends _) (sym (handle_command-set others s key val now)) (
      Ends-map
        (handle_set-SetDone s key val l [] [] now h small (unfold find in refl)
          (unfold find in refl))
        λ s' d. d.holds)
command-Holds others s (del_op key) l now h small =
    subst (Ends _) (sym (handle_command-del others s key now))
      (Ends-map (handle_del-DelDone s key l now h small) λ s' d. d.holds)

-- One record at the front of the log.
load_rounds-op :
    (others : Others) (rounds : ℕ) (s : Server) (op : Op) (rest : List ℕ) (now : ℕ)
    → IsSmall op
    → load_rounds others (suc rounds) s (record_of op ++ rest) now
      ≡ (handle_command others s (args_of op) now >>= λ s. load_rounds others rounds s rest now)
load_rounds-op others rounds s (set_op key val) rest now (h, h') =
    load_rounds-record others rounds s (codes "SET" ∷ key ∷ val ∷ []) _ rest now
      (set_record-Encodes key val (omega arith) (omega arith))
      (omega (arith, set_record-short key val h h'))
load_rounds-op others rounds s (del_op key) rest now h =
    load_rounds-record others rounds s (codes "DEL" ∷ key ∷ []) _ rest now
      (del_record-Encodes key (omega arith)) (omega (arith, del_record-short key h))

load_rounds-end :
    (others : Others) (rounds : ℕ) (s : Server) (now : ℕ)
    → load_rounds others (suc rounds) s [] now ≡ some s
unfolding load_rounds
load_rounds-end others rounds s now = refl

-- A log of SET and DEL is read to its end, and has the effect of the commands.
pub load_rounds-records :
    (others : Others) (rounds : ℕ) (s : Server) (ops : List Op) (l : Chain) (now : ℕ)
    → Holds s l [] []
    → All IsSmall ops
    → length l + length ops < 2 ^ 60
    → length ops < rounds
    → Ends (λ s'. Holds s' (apply_all l ops) [] []) (load_rounds others rounds s (records ops) now)
load_rounds-records others zero s ops l now h a small r = absurd (omega arith)
load_rounds-records others (suc rounds) s [] l now h a small r =
    subst (Ends _) (sym (load_rounds-end others rounds s now)) (ends h)
load_rounds-records others (suc rounds) s (op ∷ ops) l now h a small r =
    subst (Ends _) (sym (load_rounds-op others rounds s op (records ops) now a.0)) (
      Ends-bind (command-Holds others s op l now h (omega arith)) λ s' h'.
        load_rounds-records others rounds s' ops (apply l op) now h' a.1
          (omega (arith, length-apply l op)) (omega arith))

-- No entry expires.
abbrev pub IsPlain : Chain → Type 0
IsPlain l = All (λ e. e.expire ≡ 0) l

remove_chain-IsPlain : (key : Sds) (l : Chain) → IsPlain l → IsPlain (remove_chain key l)
unfolding remove_chain
remove_chain-IsPlain key [] a = tt
remove_chain-IsPlain key (e ∷ l) a = elim (Bool-cases (bytes_eq e.key key)) [
  | inl y ↦ rw y a.1
  | inr n ↦ rw n (a.0, remove_chain-IsPlain key l a.1)
]

pub apply-IsPlain : (l : Chain) (op : Op) → IsPlain l → IsPlain (apply l op)
apply-IsPlain l (set_op key val) a =
    (refl, remove_chain-IsPlain key (remove_chain key l) (remove_chain-IsPlain key l a))
apply-IsPlain l (del_op key) a = remove_chain-IsPlain key l a

find-IsPlain :
    (key : Sds) (l : Chain) (e : DictEntry) → IsPlain l → find key l ≡ some e → e.expire ≡ 0
unfolding find
find-IsPlain key [] e a h = cc
find-IsPlain key (x ∷ l) e a h = elim (Bool-cases (bytes_eq x.key key)) [
  | inl y ↦ let same : x ≡ e = ground arith in ap (λ z. z.expire) (sym same) ∙ a.0
  | inr n ↦ find-IsPlain key l e a.1 (ground arith)
]

-- A key without a live entry is not there, where no entry expires.
pub plain-missing :
    (key : Sds) (l : Chain) (now : ℕ)
    → IsPlain l
    → is_there (value_of (live_entry now key l)) ≡ false
    → find key l ≡ none
plain-missing key l now a h = go (find key l) refl
  where
    go : (o : Option DictEntry) → find key l ≡ o → find key l ≡ none
    go none e = e
    go (some x) e =
        let never = find-IsPlain key l x a e in
        let stays : is_expired now x ≡ false = ground (arith, never) in
        absurd
          (differ (sym h ∙ ap (λ o. is_there (value_of (unless_expired now o))) e ∙ rw stays refl))
      where
        differ : false ≡ true → ⊥
        differ e = cc
