-- ===== src/Server/WrongType.antt =====
-- The commands on sorted sets, of a key that is a string.
use rediskrazy.Base.{
  Ends-elim, ℕ, ◌<◌, ◌^◌, ◌≡◌, refl, sym, ap, subst, ◌∙◌, Bool, true, false, Option, none, some,
  List, ◌∷◌, ◌++◌, length, arith, codes, bytes_eq, Ends, ends, Ends-bind, Bool-cases, inl, inr,
}
use rediskrazy.Sds.{Sds}
use rediskrazy.Dict.{DictEntry, Chain, Dict, find, is_expired}
use rediskrazy.Dict.Contents.{IsDict, expire_entry, live_entry}
use rediskrazy.Dict.Expiry.{value_of, dict_get_correct}
use rediskrazy.Server.{Server, send_all, has_string, is_there}
use rediskrazy.Server.Commands.{c_string, toupper, wrong_type}
use rediskrazy.Server.Zsets.{
  unless_string, handle_zadd, handle_zscore, handle_zrange, handle_zrem, handle_zcard, handle_zrank,
}
use rediskrazy.Server.Dispatch.{Others, dispatch, dispatch_more, handle_command}
use rediskrazy.Server.Strings.{Holds}
use rediskrazy.Server.Handlers.{to_client, send_all-Sent, send_literal-whole}

-- A command on the sorted set of the key, with enough arguments.
pub data ZsetCommand (key : Sds) : List Sds → Type 0 where
  zadd :
      (score member : Sds) (more : List Sds)
      → ZsetCommand key (codes "ZADD" ∷ key ∷ score ∷ member ∷ more)
  zscore : (member : Sds) (more : List Sds) → ZsetCommand key (codes "ZSCORE" ∷ key ∷ member ∷ more)
  zrange :
      (first last : Sds) (more : List Sds)
      → ZsetCommand key (codes "ZRANGE" ∷ key ∷ first ∷ last ∷ more)
  zrem : (member : Sds) (more : List Sds) → ZsetCommand key (codes "ZREM" ∷ key ∷ member ∷ more)
  zcard : (more : List Sds) → ZsetCommand key (codes "ZCARD" ∷ key ∷ more)
  zrank : (member : Sds) (more : List Sds) → ZsetCommand key (codes "ZRANK" ∷ key ∷ member ∷ more)

-- Each of them is guarded by the test for a string.
command-unless_string :
    (others : Others) (s : Server) (key : Sds) (argv : List Sds) (now : ℕ)
    → ZsetCommand key argv
    → (command : Server → Option Server) × (handle_command others s argv now
        ≡ unless_string s key now command)
unfolding handle_command dispatch dispatch_more toupper c_string bytes_eq handle_zadd handle_zscore
    handle_zrange handle_zrem handle_zcard handle_zrank
command-unless_string others s key argv now (zadd score member more) = (_, refl)
command-unless_string others s key argv now (zscore member more) = (_, refl)
command-unless_string others s key argv now (zrange first last more) = (_, refl)
command-unless_string others s key argv now (zrem member more) = (_, refl)
command-unless_string others s key argv now (zcard more) = (_, refl)
command-unless_string others s key argv now (zrank member more) = (_, refl)

-- A live entry stays.
live_stays :
    (now : ℕ) (key v : Sds) (l : Chain)
    → value_of (live_entry now key l) ≡ some v
    → expire_entry now key l ≡ l
live_stays now key v l h = go (find key l) refl
  where
    go : (o : Option DictEntry) → find key l ≡ o → expire_entry now key l ≡ l
    go none e = rw (expire_entry, e) refl
    go (some x) e = elim (Bool-cases (is_expired now x)) [
      | inl y ↦ absurd (differ (sym (gone x e y) ∙ h))
      | inr n ↦ rw (expire_entry, e, n) refl
    ]
      where
        differ : none ≡ some v → ⊥
        differ e = cc

        gone :
            (x : DictEntry)
            → find key l ≡ some x
            → is_expired now x ≡ true
            → value_of (live_entry now key l) ≡ none
        gone x e y = rw (live_entry, e, y) refl

-- What a refused command does.
pub record Refused (s : Server) (l lz lh : Chain) (s' : Server) : Type 0 where
  pub holds : Holds s' l lz lh
  pub sent : s'.sent ≡ s.sent ++ to_client s.client wrong_type
  pub log : s'.aof ≡ s.aof
  pub sets : s'.zset_objects ≡ s.zset_objects

send_all-objects : (s : Server) (more : List ℕ) → (send_all s more).zset_objects ≡ s.zset_objects
unfolding send_all
send_all-objects s more = ground arith

has_string-live :
    (s : Server) (key v : Sds) (l : Chain) (now : ℕ)
    → IsDict s.g_data l
    → length l < 2 ^ 61
    → value_of (live_entry now key l) ≡ some v
    → Ends
        (λ r. (r.1 ≡ true) × (d : Dict) × (r.0 ≡ record s { g_data = d }) × IsDict d l)
        (has_string s key now)
unfolding has_string
has_string-live s key v l now h small live =
    Ends-bind (dict_get_correct s.g_data l key now h small) λ (d, o) (w, p).
      ends (ap is_there (p ∙ live), d, refl, subst (IsDict d) (live_stays now key v l live) w)

refused :
    (s : Server) (l lz lh : Chain) (d : Dict)
    → Holds s l lz lh
    → IsDict d l
    → Refused s l lz lh (send_all (record s { g_data = d }) wrong_type)
refused s l lz lh d h w =
    let s1 : Server = record s { g_data = d } in
    let sent = send_all-Sent s1 wrong_type in
    record {
      holds = sent.holds l lz lh (record {
        strings = w;
        zsets = h.zsets;
        hashes = h.hashes;
        small_zsets = h.small_zsets;
        small_hashes = h.small_hashes;
      });
      sent = sent.sent;
      log = sent.log;
      sets = send_all-objects s1 wrong_type;
    }

unless_string-Refused :
    (s : Server) (key v : Sds) (command : Server → Option Server) (l lz lh : Chain) (now : ℕ)
    → Holds s l lz lh
    → length l < 2 ^ 61
    → value_of (live_entry now key l) ≡ some v
    → Ends (Refused s l lz lh) (unless_string s key now command)
unfolding unless_string
unless_string-Refused s key v command l lz lh now h small live =
    Ends-bind (has_string-live s key v l now h.strings small live) λ (s1, b) (t, d, e, w).
      Ends-elim b
        (λ _. subst (Ends (Refused s l lz lh)) (sym (send_literal-whole s1 wrong_type 68 refl)) (
          subst (λ x. Ends (Refused s l lz lh) (some (send_all x wrong_type))) (sym e)
            (ends (refused s l lz lh d h w))))
        (λ f. absurd (differ b t f))
  where
    differ : (b : Bool) → b ≡ true → b ≡ false → ⊥
    differ b p q = cc

-- ZADD, ZSCORE, ZRANGE, ZREM, ZCARD and ZRANK, with enough arguments, of a key with a live string: the client is sent
-- the error for a wrong type, and the keys, the log and the members of every sorted set stay as they are.
pub ZsetCommand-Refused :
    (others : Others) (s : Server) (key v : Sds) (argv : List Sds) (l lz lh : Chain) (now : ℕ)
    → ZsetCommand key argv
    → Holds s l lz lh
    → length l < 2 ^ 61
    → value_of (live_entry now key l) ≡ some v
    → Ends (Refused s l lz lh) (handle_command others s argv now)
ZsetCommand-Refused others s key v argv l lz lh now c h small live =
    let guarded = command-unless_string others s key argv now c in
    subst (Ends (Refused s l lz lh)) (sym guarded.1)
      (unless_string-Refused s key v guarded.0 l lz lh now h small live)
