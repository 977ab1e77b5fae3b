-- ===== src/Server/Handlers.antt =====
-- SET, GET and DEL as commands: what they do to the keys, the log and the client.
use rediskrazy.Base.{
  Ends-elim, ◌>>=◌, ℕ, ◌+◌, ◌<◌, ◌^◌, ◌≡◌, refl, sym, ap, subst, ◌∙◌, Bool, true, false, Option,
  none, some, List, [], ◌∷◌, ◌++◌, if◌then◌else◌, length, take, take-append, arith, codes, bytes_eq,
  Ends, ends, Ends-bind, Ends-map, Ends-option, append-nil,
}
use rediskrazy.Sds.{Sds}
use rediskrazy.Dict.{Chain, find, remove_chain}
use rediskrazy.Dict.Entries.{UniqueKeys, find-remove_chain, remove_chain-UniqueKeys}
use rediskrazy.Dict.Contents.{
  IsDict, put_entry, find-put_entry, removed-le, unless_expired, live_entry,
}
use rediskrazy.Dict.Expiry.{value_of, dict_get_correct}
use rediskrazy.Server.{
  Server, send_literal, send_all, bulk, set_record, del_record, get_kv, has_zset, is_there,
}
use rediskrazy.Server.Commands.{ok, nil, handle_set, handle_get, set_ttl, toupper, c_string}
use rediskrazy.Server.Dispatch.{handle_command, dispatch, Others}
use rediskrazy.Server.Strings.{
  Holds, SameClient, logged, get-missing, delete_key-Deleted, set_kv-Stored, plain_entry,
}

-- What a client is sent, if there is one.
abbrev pub to_client : Bool → List ℕ → List ℕ
to_client client more = if client then more else []

-- The server after something is sent.
pub record Sent (s : Server) (more : List ℕ) (s' : Server) : Type 0 where
  pub holds : (l lz lh : Chain) → Holds s l lz lh → Holds s' l lz lh
  pub client : s'.client ≡ s.client
  pub sent : s'.sent ≡ s.sent ++ to_client s.client more
  pub log : s'.aof ≡ s.aof

pub send_all-Sent : (s : Server) (more : List ℕ) → Sent s more (send_all s more)
unfolding send_all
send_all-Sent s more =
    let d : (send_all s more).g_data ≡ s.g_data = ground arith in
    let z : (send_all s more).g_zsets ≡ s.g_zsets = ground arith in
    let g : (send_all s more).g_hashes ≡ s.g_hashes = ground arith in
    record {
      holds = λ l lz lh h. record {
        strings = subst (λ x. IsDict x l) (sym d) h.strings;
        zsets = subst (λ x. IsDict x lz) (sym z) h.zsets;
        hashes = subst (λ x. IsDict x lh) (sym g) h.hashes;
        small_zsets = h.small_zsets;
        small_hashes = h.small_hashes;
      };
      client = ground arith;
      sent = ground (arith, append-nil s.sent);
      log = ground arith;
    }

pub send_literal-whole :
    (s : Server) (str : List ℕ) (len : ℕ)
    → len ≡ length str
    → send_literal s str len ≡ some (send_all s str)
unfolding send_literal send_all
send_literal-whole s str len e =
    let whole : take len (str ++ (0 ∷ [])) ≡ str =
      ap (λ n. take n (str ++ (0 ∷ []))) e ∙ take-append str (0 ∷ []) in
    ground (arith, whole)

-- What SET does: a key with an old string is deleted first.
pub record SetDone (s : Server) (key val : Sds) (l lz lh : Chain) (s' : Server) : Type 0 where
  pub holds : Holds s' (put_entry (plain_entry key val) (remove_chain key l)) lz lh
  pub client : s'.client ≡ s.client
  pub sent : s'.sent ≡ s.sent ++ to_client s.client ok
  pub was_there : Bool
  pub log :
      s'.aof ≡ logged (logged s.aof (if was_there then del_record key else [])) (set_record key val)

pub handle_set-SetDone :
    (s : Server) (key val : Sds) (l lz lh : Chain) (now : ℕ)
    → Holds s l lz lh
    → length l < 2 ^ 60
    → find key lz ≡ none
    → find key lh ≡ none
    → Ends (SetDone s key val l lz lh) (handle_set s (key ∷ val ∷ []) now)
unfolding handle_set set_ttl
handle_set-SetDone s key val l lz lh now h small fz fh =
    Ends-bind (delete_key-Deleted s key l lz lh now h small fz fh) λ (s1, b) d.
      Ends-bind
        (set_kv-Stored s1 key val (remove_chain key l) lz lh now d.holds
          (omega (arith, removed-le key l)))
        λ s2 w.
          let sent = send_all-Sent s2 ok in
          subst (Ends (SetDone s key val l lz lh)) (sym (send_literal-whole s2 ok 5 refl)) (
            ends (record {
              holds = sent.holds _ lz lh w.holds;
              client = sent.client ∙ w.same.client ∙ d.same.client;
              sent =
                  sent.sent
                  ∙ ap (λ x. x ++ to_client s2.client ok) (w.same.sent ∙ d.same.sent)
                  ∙ ap (λ c. s.sent ++ to_client c ok) (w.same.client ∙ d.same.client);
              was_there = b;
              log = sent.log ∙ w.log ∙ ap (λ o. logged o (set_record key val)) d.log;
            }))

-- The reply to GET.
abbrev pub get_reply : Option Sds → List ℕ
get_reply none = nil
get_reply (some v) = bulk v

has_zset-missing :
    (s : Server) (key : Sds) (l lz lh : Chain) (now : ℕ)
    → Holds s l lz lh
    → find key lz ≡ none
    → Ends (λ r. (r.1 ≡ false) × IsDict r.0.g_data l × SameClient s r.0) (has_zset s key now)
unfolding has_zset
has_zset-missing s key l lz lh now h fz =
    Ends-bind (get-missing s.g_zsets lz key now h.zsets h.small_zsets fz)
      λ (d, v) (w, p). ends (ap is_there p, h.strings, record { client = refl; sent = refl })

get_kv-value :
    (s : Server) (key : Sds) (l : Chain) (now : ℕ)
    → IsDict s.g_data l
    → length l < 2 ^ 61
    → Ends (λ r. (r.1 ≡ value_of (live_entry now key l)) × SameClient s r.0) (get_kv s key now)
unfolding get_kv
get_kv-value s key l now w small =
    Ends-bind (dict_get_correct s.g_data l key now w small)
      λ (d, v) (w', p). ends (p, record { client = refl; sent = refl })

-- What GET sends of the value that it found.
answer :
    (s s1 s2 s3 : Server) (v o : Option Sds)
    → SameClient s s1
    → SameClient s1 s2
    → o ≡ v
    → Sent s2 (get_reply o) s3
    → s3.sent ≡ s.sent ++ to_client s.client (get_reply v)
answer s s1 s2 s3 v o a b e sent =
    sent.sent
    ∙ ap (λ x. x ++ to_client s2.client (get_reply o)) (b.sent ∙ a.sent)
    ∙ ap (λ c. s.sent ++ to_client c (get_reply o)) (b.client ∙ a.client)
    ∙ ap (λ y. s.sent ++ to_client s.client (get_reply y)) e

-- GET sends the live string of the key, or the nil reply.
pub handle_get-Sent :
    (s : Server) (key : Sds) (l lz lh : Chain) (now : ℕ)
    → Holds s l lz lh
    → length l < 2 ^ 61
    → find key lz ≡ none
    → Ends
        (λ s'. s'.sent ≡ s.sent ++ to_client s.client (get_reply (value_of (live_entry now key l))))
        (handle_get s (key ∷ []) now)
unfolding handle_get
handle_get-Sent s key l lz lh now h small fz =
    Ends-bind (has_zset-missing s key l lz lh now h fz) λ (s1, b) (f, w, a).
      Ends-elim b (λ y. absurd (differ b y f))
        (λ n. Ends-bind (get_kv-value s1 key l now w small) λ (s2, v) (p, c).
          Ends-option v
            (λ o.
              subst
                (Ends (λ s'.
                  s'.sent
                  ≡ s.sent ++ to_client s.client (get_reply (value_of (live_entry now key l)))))
                (sym (send_literal-whole s2 nil 5 refl))
                (ends
                  (answer s s1 s2 (send_all s2 nil) _ none a c (sym o ∙ p) (send_all-Sent s2 nil))))
            (λ x o. ends (
              answer s s1 s2 (send_all s2 (bulk x)) _ (some x) a c (sym o ∙ p)
                (send_all-Sent s2 (bulk x)))))
  where
    differ : (b : Bool) → b ≡ true → b ≡ false → ⊥
    differ b p q = cc

pub handle_command-set :
    (others : Others) (s : Server) (key val : Sds) (now : ℕ)
    → handle_command others s (codes "SET" ∷ key ∷ val ∷ []) now ≡ handle_set s (key ∷ val ∷ []) now
unfolding handle_command dispatch toupper c_string bytes_eq
handle_command-set others s key val now = refl

pub handle_command-get :
    (others : Others) (s : Server) (key : Sds) (now : ℕ)
    → handle_command others s (codes "GET" ∷ key ∷ []) now ≡ handle_get s (key ∷ []) now
unfolding handle_command dispatch toupper c_string bytes_eq
handle_command-get others s key now = refl

-- The value of a key after SET.
set_value :
    (key val other : Sds) (l : Chain)
    → UniqueKeys l
    → find other (put_entry (plain_entry key val) (remove_chain key l))
      ≡ (if bytes_eq key other then some (plain_entry key val) else find other l)
set_value key val other l u =
    find-put_entry (plain_entry key val) other (remove_chain key l)
      (remove_chain-UniqueKeys key l u)
    ∙ ground (arith, find-remove_chain key other l u)

-- The commands SET key val and then GET other, of a connected client, where neither key is a sorted set and the first is
-- no hash: the client is sent OK, and then val if the keys are the same, whenever it asks, else what GET finds for other in the strings from before.
pub set-get :
    (others : Others) (s : Server) (key val other : Sds) (l lz lh : Chain) (now later : ℕ)
    → Holds s l lz lh
    → length l + 1 < 2 ^ 60
    → find key lz ≡ none
    → find key lh ≡ none
    → find other lz ≡ none
    → s.client ≡ true
    → Ends
        (λ s'.
          s'.sent
          ≡ (s.sent ++ ok)
            ++ get_reply
                (if bytes_eq key other then some val else value_of (live_entry later other l)))
        (handle_command others s (codes "SET" ∷ key ∷ val ∷ []) now >>= λ s.
          handle_command others s (codes "GET" ∷ other ∷ []) later)
set-get others s key val other l lz lh now later h small fz fh fo c =
    let P : Server → Type 0 = λ s'.
      s'.sent
      ≡ (s.sent ++ ok)
        ++ get_reply
            (if bytes_eq key other then some val else value_of (live_entry later other l)) in
    subst (λ o. Ends P (o >>= λ s. handle_command others s (codes "GET" ∷ other ∷ []) later))
      (sym (handle_command-set others s key val now))
      (Ends-bind (handle_set-SetDone s key val l lz lh now h (omega arith) fz fh) λ s1 d.
        subst (Ends P) (sym (handle_command-get others s1 other later)) (
          Ends-map
            (handle_get-Sent s1 other (put_entry (plain_entry key val) (remove_chain key l)) lz lh
              later d.holds (omega (arith, removed-le key l, removed-le key (remove_chain key l)))
              fo)
            λ s2 e.
              both (s.sent ++ ok) s1 s2 _ _ (d.client ∙ c)
                (d.sent ∙ ap (λ x. s.sent ++ to_client x ok) c) e (value h.strings.unique)))
  where
    both :
        (before : List ℕ) (s1 s2 : Server) (v w : Option Sds)
        → s1.client ≡ true
        → s1.sent ≡ before
        → s2.sent ≡ s1.sent ++ to_client s1.client (get_reply v)
        → v ≡ w
        → s2.sent ≡ before ++ get_reply w
    both before s1 s2 v w c b e f =
        e
        ∙ ap (λ x. s1.sent ++ to_client x (get_reply v)) c
        ∙ ap (λ x. x ++ get_reply v) b
        ∙ ap (λ o. before ++ get_reply o) f

    value :
        UniqueKeys l
        → value_of (live_entry later other (put_entry (plain_entry key val) (remove_chain key l)))
          ≡ (if bytes_eq key other then some val else value_of (live_entry later other l))
    value u =
        ap (λ o. value_of (unless_expired later o)) (set_value key val other l u) ∙ ground arith
