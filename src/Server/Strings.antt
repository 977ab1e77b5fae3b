-- ===== src/Server/Strings.antt =====
-- What the commands on strings do to the keys, the log and the client.
use rediskrazy.Base.{
  ◌>>=◌, ℕ, ◌<◌, ◌^◌, ◌≡◌, refl, sym, ap, subst, ◌∙◌, Bool, true, false, Option, none, some, List,
  [], ◌++◌, if◌then◌else◌, length, arith, Ends, ends, Ends-bind, Ends-map, Bool-cases, inl, inr,
  append-nil, Ends-option,
}
use rediskrazy.Base.Int.{pos}
use rediskrazy.Sds.{Sds}
use rediskrazy.Dict.{DictEntry, Chain, Dict, find, remove_chain, dict_get, dict_delete, is_expired}
use rediskrazy.Dict.Entries.{remove_chain-missing}
use rediskrazy.Dict.Contents.{
  IsDict, put_entry, unless_expired, live_entry, expire_entry, dict_put_correct,
  dict_delete_correct,
}
use rediskrazy.Dict.Expiry.{value_of, dict_get_correct}
use rediskrazy.Server.{
  Server, write_log, set_record, del_record, set_kv, delete_key, delete_zset, delete_hash, is_there,
}

-- The three dictionaries stand for these entries.
pub record Holds (s : Server) (l lz lh : Chain) : Type 0 where
  pub strings : IsDict s.g_data l
  pub zsets : IsDict s.g_zsets lz
  pub hashes : IsDict s.g_hashes lh
  pub small_zsets : length lz < 2 ^ 60
  pub small_hashes : length lh < 2 ^ 60

-- The log after more is written, if it is open.
abbrev pub logged : Option (List ℕ) → List ℕ → Option (List ℕ)
logged none more = none
logged (some written) more = some (written ++ more)

-- The client and what it was sent are as before.
pub record SameClient (s s' : Server) : Type 0 where
  pub client : s'.client ≡ s.client
  pub sent : s'.sent ≡ s.sent

write_log-aof : (s : Server) (more : List ℕ) → (write_log s more).aof ≡ logged s.aof more
unfolding write_log
write_log-aof s more = ground arith

write_log-SameClient : (s : Server) (more : List ℕ) → SameClient s (write_log s more)
unfolding write_log
write_log-SameClient s more = record { client = ground arith; sent = ground arith }

write_log-Holds :
    (s : Server) (more : List ℕ) (l lz lh : Chain)
    → Holds s l lz lh
    → Holds (write_log s more) l lz lh
unfolding write_log
write_log-Holds s more l lz lh h =
    let d : (write_log s more).g_data ≡ s.g_data = ground arith in
    let z : (write_log s more).g_zsets ≡ s.g_zsets = ground arith in
    let g : (write_log s more).g_hashes ≡ s.g_hashes = ground arith in
    record {
      strings = subst (λ x. IsDict x l) (sym d) h.strings;
      zsets = subst (λ x. IsDict x lz) (sym z) h.zsets;
      hashes = subst (λ x. IsDict x lh) (sym g) h.hashes;
      small_zsets = h.small_zsets;
      small_hashes = h.small_hashes;
    }

write_log-heap : (s : Server) (more : List ℕ) → (write_log s more).g_exp_heap ≡ s.g_exp_heap
unfolding write_log
write_log-heap s more = ground arith

-- A lookup of a key that is not there changes nothing in the entries.
pub get-missing :
    (d : Dict) (l : Chain) (key : Sds) (now : ℕ)
    → IsDict d l
    → length l < 2 ^ 60
    → find key l ≡ none
    → Ends (λ r. IsDict r.0 l × (r.1 ≡ none)) (dict_get d key now)
get-missing d l key now v s f = Ends-map (dict_get_correct d l key now v (omega arith)) λ r (w, p).
    (
      subst (IsDict r.0) (rw (expire_entry, f) refl) w,
      p ∙ ap (λ o. value_of (unless_expired now o)) f,
    )

-- The entries behind a lookup of a key that has no live entry: none for the key.
expired-remove :
    (now : ℕ) (key : Sds) (l : Chain)
    → value_of (live_entry now key l) ≡ none
    → expire_entry now key l ≡ remove_chain key l
expired-remove now key l h = go (find key l) refl
  where
    go : (o : Option DictEntry) → find key l ≡ o → expire_entry now key l ≡ remove_chain key l
    go none e = rw (expire_entry, e) (sym (remove_chain-missing key l e))
    go (some x) e = elim (Bool-cases (is_expired now x)) [
      | inl y ↦ rw (expire_entry, e, y) refl
      | inr n ↦
          absurd
            (differ {v = x.val} (sym h ∙ ap (λ o. value_of (unless_expired now o)) e ∙ rw n refl))
    ]
      where
        differ : {v : Sds} → none ≡ some v → ⊥
        differ e = cc

live_stays :
    (now : ℕ) (key : Sds) (l : Chain) (v : Sds)
    → value_of (live_entry now key l) ≡ some v
    → expire_entry now key l ≡ l
live_stays now key l v h = go (find key l) refl
  where
    go : (o : Option DictEntry) → find key l ≡ o → expire_entry now key l ≡ l
    go none e = rw (expire_entry, e) refl
    go (some x) e = elim (Bool-cases (is_expired now x)) [
      | inl y ↦ absurd (differ (sym h ∙ ap (λ o. value_of (unless_expired now o)) e ∙ rw y refl))
      | inr n ↦ rw (expire_entry, e, n) refl
    ]
      where
        differ : some v ≡ none → ⊥
        differ e = cc

-- What delete_key does with a key that is a string or is not there.
pub record Deleted (s : Server) (key : Sds) (l lz lh : Chain) (now : ℕ) (b : Bool) (s' : Server)
    : Type 0 where
  pub holds : Holds s' (remove_chain key l) lz lh
  pub same : SameClient s s'
  pub log : s'.aof ≡ logged s.aof (if b then del_record key else [])
  pub found : b ≡ is_there (value_of (live_entry now key l))

logged_nothing : (o : Option (List ℕ)) → o ≡ logged o []
logged_nothing none = refl
logged_nothing (some w) = ap some (sym (append-nil w))

delete_key-missing :
    (s : Server) (key : Sds) (l lz lh : Chain) (now : ℕ)
    → Holds s l lz lh
    → find key lz ≡ none
    → find key lh ≡ none
    → Ends
        (λ r. Holds r.0 l lz lh × SameClient s r.0 × (r.0.aof ≡ s.aof) × (r.1 ≡ false))
        (delete_zset s key now)
unfolding delete_zset delete_hash
delete_key-missing s key l lz lh now h fz fh =
    Ends-bind (get-missing s.g_zsets lz key now h.zsets h.small_zsets fz) λ r (w, p).
      Ends-option r.1
        (λ _.
          Ends-bind (get-missing s.g_hashes lh key now h.hashes h.small_hashes fh) λ r' (w', p').
            Ends-option r'.1
              (λ _. ends (
                record {
                  strings = h.strings;
                  zsets = w;
                  hashes = w';
                  small_zsets = h.small_zsets;
                  small_hashes = h.small_hashes;
                },
                record { client = refl; sent = refl },
                refl,
                refl,
              ))
              (λ v e. absurd (differ r'.1 p' e)))
        (λ v e. absurd (differ r.1 p e))
  where
    differ : (o : Option Sds) {v : Sds} → o ≡ none → o ≡ some v → ⊥
    differ o p q = cc

-- A key that is a string, or is not there, is removed; a removal is logged.
pub delete_key-Deleted :
    (s : Server) (key : Sds) (l lz lh : Chain) (now : ℕ)
    → Holds s l lz lh
    → length l < 2 ^ 60
    → find key lz ≡ none
    → find key lh ≡ none
    → Ends (λ r. Deleted s key l lz lh now r.1 r.0) (delete_key s key now)
unfolding delete_key
delete_key-Deleted s key l lz lh now h small fz fh =
    Ends-bind (dict_get_correct s.g_data l key now h.strings (omega arith))
      λ (d, v) (w, p). go d v w (sym p)
  where
    go :
        (d : Dict) (v : Option Sds)
        → IsDict d (expire_entry now key l)
        → value_of (live_entry now key l) ≡ v
        → Ends
            (λ r. Deleted s key l lz lh now r.1 r.0)
            (elim v [
              | none ↦ delete_zset (record s { g_data = d }) key now
              | some _ ↦ dict_delete d key >>= λ d.
                  some (write_log (record s { g_data = d }) (del_record key), true)
            ])
    go d none w p =
        Ends-map
          (delete_key-missing (record s { g_data = d }) key (remove_chain key l) lz lh now
            (record {
              strings = subst (IsDict d) (expired-remove now key l p) w;
              zsets = h.zsets;
              hashes = h.hashes;
              small_zsets = h.small_zsets;
              small_hashes = h.small_hashes;
            })
            fz fh)
          λ r z. record {
            holds = z.0;
            same = record { client = z.1.client; sent = z.1.sent };
            log =
                z.2
                ∙ logged_nothing s.aof
                ∙ ap (λ b. logged s.aof (if b then del_record key else [])) (sym z.3);
            found = z.3 ∙ sym (ap is_there p);
          }
    go d (some v) w p =
        Ends-bind
          (dict_delete_correct d l key (subst (IsDict d) (live_stays now key l v p) w)
            (omega arith))
          λ d' w'. ends (record {
            holds =
                write_log-Holds (record s { g_data = d' }) (del_record key) (remove_chain key l) lz
                  lh
                  (record {
                    strings = w';
                    zsets = h.zsets;
                    hashes = h.hashes;
                    small_zsets = h.small_zsets;
                    small_hashes = h.small_hashes;
                  });
            same = record {
              client = (write_log-SameClient (record s { g_data = d' }) (del_record key)).client;
              sent = (write_log-SameClient (record s { g_data = d' }) (del_record key)).sent;
            };
            log = write_log-aof (record s { g_data = d' }) (del_record key);
            found = sym (ap is_there p);
          })

-- A string stored without a time to live.
abbrev pub plain_entry : Sds → Sds → DictEntry
plain_entry key val = record { key = key; val = val; expire = 0 }

pub record Stored (s : Server) (key val : Sds) (l lz lh : Chain) (s' : Server) : Type 0 where
  pub holds : Holds s' (put_entry (plain_entry key val) l) lz lh
  pub same : SameClient s s'
  pub log : s'.aof ≡ logged s.aof (set_record key val)

-- set_kv without a time to live stores the string and logs it.
pub set_kv-Stored :
    (s : Server) (key val : Sds) (l lz lh : Chain) (now : ℕ)
    → Holds s l lz lh
    → length l < 2 ^ 60
    → Ends (Stored s key val l lz lh) (set_kv s key val (pos 0) now)
unfolding set_kv
set_kv-Stored s key val l lz lh now h small =
    Ends-bind (dict_put_correct s.g_data l key val (pos 0) now h.strings (omega arith)) λ d w.
      ends (record {
        holds =
            write_log-Holds (record s { g_data = d }) (set_record key val) _ lz lh
              (record {
                strings = w;
                zsets = h.zsets;
                hashes = h.hashes;
                small_zsets = h.small_zsets;
                small_hashes = h.small_hashes;
              });
        same = record {
          client = (write_log-SameClient (record s { g_data = d }) (set_record key val)).client;
          sent = (write_log-SameClient (record s { g_data = d }) (set_record key val)).sent;
        };
        log = write_log-aof (record s { g_data = d }) (set_record key val);
      })
