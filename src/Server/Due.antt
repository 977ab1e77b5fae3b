-- ===== src/Server/Due.antt =====
-- What serverCron does with the key that it takes from the heap.
use rediskrazy.Base.{
  ℕ, ◌<◌, ◌≤◌, ◌^◌, ◌≡◌, refl, sym, ap, ◌∙◌, Bool, true, ◌&&◌, Option, none, some, ltb, leb, length,
  arith, bytes_eq, bytes_eq_iff, Ends, ends, Ends-bind, Ends-some_first, Ends-if, Bool-cases, inl,
  inr,
}
use rediskrazy.Sds.{Sds}
use rediskrazy.Dict.{DictEntry, Chain, Dict, find, remove_chain, is_expired}
use rediskrazy.Dict.Entries.{UniqueKeys, find-remove_chain}
use rediskrazy.Dict.Contents.{
  IsDict, expire_entry, live_entry, unless_expired, removed-le, dict_delete_correct,
}
use rediskrazy.Dict.Expiry.{value_of, expiry_at, dict_get_correct, dict_get_expiry_correct}
use rediskrazy.Server.{Server}
use rediskrazy.Server.Cron.{delete_due, expire_key}
use rediskrazy.Server.Strings.{Holds}
use rediskrazy.Server.Gone.{
  pending, NoNew, NotDue, NoNew-trans, NoNew-same, remove_chain-NoNew, removed-NotDue,
  expire_entry-NoNew, lookup-NotDue, expiry-NotDue,
}

-- Every entry whose expiry has not come is found as before, and no other one is new.
abbrev pub Keeps : ℕ → Chain → Chain → Type 0
Keeps now l l' = (k : Sds) → pending now (find k l') ≡ pending now (find k l)

remove_chain-Keeps :
    (now : ℕ) (key : Sds) (l : Chain)
    → UniqueKeys l
    → pending now (find key l) ≡ none
    → Keeps now l (remove_chain key l)
remove_chain-Keeps now key l u h k = elim (Bool-cases (bytes_eq key k)) [
  | inl y ↦
      let same : key ≡ k = (bytes_eq_iff key k).0 y in
      let gone : find k (remove_chain key l) ≡ none =
        find-remove_chain key k l u ∙ ground (arith, y) in
      ap (pending now) gone ∙ sym h ∙ ap (λ x. pending now (find x l)) same
  | inr n ↦ ap (pending now) {y = find k l} (find-remove_chain key k l u ∙ ground (arith, n))
]

pub expired_due : (now : ℕ) (e : DictEntry) → is_expired now e ≡ true → pending now (some e) ≡ none
expired_due now e h = ground (arith, h)

expire_entry-Keeps :
    (now : ℕ) (key : Sds) (l : Chain) → UniqueKeys l → Keeps now l (expire_entry now key l)
expire_entry-Keeps now key l u = go (find key l) refl
  where
    go : (o : Option DictEntry) → find key l ≡ o → Keeps now l (expire_entry now key l)
    go none e = rw (expire_entry, e) (λ k. refl)
    go (some x) e = elim (Bool-cases (is_expired now x)) [
      | inl y ↦
          rw (expire_entry, e, y)
            (remove_chain-Keeps now key l u (ap (pending now) e ∙ expired_due now x y))
      | inr n ↦ rw (expire_entry, e, n) (λ k. refl)
    ]

-- An entry with an expiry that has come is not pending.
found_due :
    (now exp : ℕ) (key : Sds) (l : Chain)
    → exp ≡ expiry_at (live_entry now key l)
    → ltb 0 exp && leb exp now ≡ true
    → pending now (find key (expire_entry now key l)) ≡ none
found_due now exp key l h d = go (find key l) refl
  where
    go :
        (o : Option DictEntry)
        → find key l ≡ o
        → pending now (find key (expire_entry now key l)) ≡ none
    go none e = rw (expire_entry, e) (ap (pending now) e)
    go (some x) e = elim (Bool-cases (is_expired now x)) [
      | inl y ↦
          let zero_exp : exp ≡ 0 = h ∙ ap (λ o. expiry_at (unless_expired now o)) e ∙ rw y refl in
          absurd (ground (arith, d, zero_exp))
      | inr n ↦
          let same : exp ≡ x.expire =
            h ∙ ap (λ o. expiry_at (unless_expired now o)) e ∙ rw n refl in
          rw (expire_entry, e, n) (ap (pending now) e ∙ ground (arith, d, same))
    ]

expired-le : (now : ℕ) (key : Sds) (l : Chain) → length (expire_entry now key l) ≤ length l
expired-le now key l = go (find key l) refl
  where
    go : (o : Option DictEntry) → find key l ≡ o → length (expire_entry now key l) ≤ length l
    go none e = rw (expire_entry, e) (omega arith)
    go (some x) e = elim (Bool-cases (is_expired now x)) [
      | inl y ↦ rw (expire_entry, e, y) (removed-le key l)
      | inr n ↦ rw (expire_entry, e, n) (omega arith)
    ]

delete_due-Keeps :
    (d : Dict) (key : Sds) (l : Chain) (now : ℕ)
    → IsDict d l
    → length l < 2 ^ 60
    → Ends {A = Dict × Bool}
        (λ r.
          (l' : Chain) × IsDict r.0 l'
          × Keeps now l l'
          × (length l' ≤ length l)
          × NoNew l l'
          × NotDue now l' key)
        (delete_due d key now)
unfolding delete_due
delete_due-Keeps d key l now h small =
    Ends-bind (dict_get_expiry_correct d l key now h (omega arith)) λ (d1, exp) (w, p).
      let u : UniqueKeys (expire_entry now key l) = w.unique in
      Ends-if (ltb 0 exp && leb exp now)
        (λ y.
          Ends-bind
            (dict_delete_correct d1 (expire_entry now key l) key w
              (omega (arith, expired-le now key l)))
            λ d2 w2. ends (
              remove_chain key (expire_entry now key l),
              w2,
              λ k.
                  remove_chain-Keeps now key (expire_entry now key l) u
                    (found_due now exp key l p y) k
                  ∙ expire_entry-Keeps now key l h.unique k,
              omega (arith, removed-le key (expire_entry now key l), expired-le now key l),
              NoNew-trans l (expire_entry now key l) (remove_chain key (expire_entry now key l))
                  (expire_entry-NoNew now key l h.unique)
                  (remove_chain-NoNew key (expire_entry now key l) u),
              removed-NotDue now key (expire_entry now key l) u,
            ))
        (λ n. ends (
          expire_entry now key l,
          w,
          expire_entry-Keeps now key l h.unique,
          expired-le now key l,
          expire_entry-NoNew now key l h.unique,
          expiry-NotDue now exp key l h.unique p n,
        ))

-- What a call does to the strings and the sorted sets.
pub record KeptKeys (s : Server) (l lz lh : Chain) (now : ℕ) (s' : Server) : Type 0 where
  pub strings : Chain
  pub zsets : Chain
  pub holds : Holds s' strings zsets lh
  pub kept_strings : Keeps now l strings
  pub kept_zsets : Keeps now lz zsets
  pub no_new_strings : NoNew l strings
  pub no_new_zsets : NoNew lz zsets
  pub fewer_strings : length strings ≤ length l
  pub fewer_zsets : length zsets ≤ length lz
  pub log : s'.aof ≡ s.aof

-- The string with the key is not due, and where there was no live one, neither is the sorted set.
abbrev pub KeyDone : ℕ → Chain → Chain → Chain → Sds → Type 0
KeyDone now l strings zsets key =
    NotDue now strings key × (value_of (live_entry now key l) ≡ none → NotDue now zsets key)

-- serverCron, with the key of an entry that it takes from the heap: it ends, every string and sorted set without an expiry, or with an expiry
-- that has not come, stays, with its value and expiry, no key is new, and the hashes, the
-- log and the heap are as before. The string with the key, and where there was no live one also the sorted set, is not due afterwards.
pub expire_key-KeptKeys :
    (s : Server) (key : Sds) (l lz lh : Chain) (now : ℕ)
    → Holds s l lz lh
    → length l < 2 ^ 60
    → Ends {A = Server × Bool}
        (λ r.
          (k : KeptKeys s l lz lh now r.0) × (r.0.g_exp_heap ≡ s.g_exp_heap)
          × KeyDone now l k.strings k.zsets key)
        (expire_key s key now)
unfolding expire_key
expire_key-KeptKeys s key l lz lh now h small =
    Ends-bind (dict_get_correct s.g_data l key now h.strings (omega arith)) λ (d, v) (w, p).
      Ends-some_first v
        (λ e0.
          Ends-bind (dict_get_correct s.g_zsets lz key now h.zsets (omega (arith, h.small_zsets)))
            λ (d', v') (w', p').
              Ends-some_first v'
                (λ e1. ends (
                  record {
                    strings = expire_entry now key l;
                    zsets = expire_entry now key lz;
                    holds = record {
                      strings = w;
                      zsets = w';
                      hashes = h.hashes;
                      small_zsets = omega (arith, expired-le now key lz, h.small_zsets);
                      small_hashes = h.small_hashes;
                    };
                    kept_strings = expire_entry-Keeps now key l h.strings.unique;
                    kept_zsets = expire_entry-Keeps now key lz h.zsets.unique;
                    no_new_strings = expire_entry-NoNew now key l h.strings.unique;
                    no_new_zsets = expire_entry-NoNew now key lz h.zsets.unique;
                    fewer_strings = expired-le now key l;
                    fewer_zsets = expired-le now key lz;
                    log = refl;
                  },
                  refl,
                  (
                    lookup-NotDue now key l h.strings.unique (sym p ∙ e0),
                    λ _. lookup-NotDue now key lz h.zsets.unique (sym p' ∙ e1),
                  ),
                ))
                (λ x _.
                  Ends-bind
                    (delete_due-Keeps d' key (expire_entry now key lz) now w'
                      (omega (arith, expired-le now key lz, h.small_zsets)))
                    λ (d2, b) (l2, w2, k2, f2, n2, g2). ends (
                      record {
                        strings = expire_entry now key l;
                        zsets = l2;
                        holds = record {
                          strings = w;
                          zsets = w2;
                          hashes = h.hashes;
                          small_zsets = omega (arith, f2, expired-le now key lz, h.small_zsets);
                          small_hashes = h.small_hashes;
                        };
                        kept_strings = expire_entry-Keeps now key l h.strings.unique;
                        kept_zsets = λ k. k2 k ∙ expire_entry-Keeps now key lz h.zsets.unique k;
                        no_new_strings = expire_entry-NoNew now key l h.strings.unique;
                        no_new_zsets =
                            NoNew-trans lz (expire_entry now key lz) l2
                              (expire_entry-NoNew now key lz h.zsets.unique) n2;
                        fewer_strings = expired-le now key l;
                        fewer_zsets = omega (arith, f2, expired-le now key lz);
                        log = refl;
                      },
                      refl,
                      (lookup-NotDue now key l h.strings.unique (sym p ∙ e0), λ _. g2),
                    )))
        (λ x e.
          Ends-bind
            (delete_due-Keeps d key (expire_entry now key l) now w
              (omega (arith, expired-le now key l)))
            λ (d2, b) (l2, w2, k2, f2, n2, g2). ends (
              record {
                strings = l2;
                zsets = lz;
                holds = record {
                  strings = w2;
                  zsets = h.zsets;
                  hashes = h.hashes;
                  small_zsets = omega (arith, h.small_zsets);
                  small_hashes = h.small_hashes;
                };
                kept_strings = λ k. k2 k ∙ expire_entry-Keeps now key l h.strings.unique k;
                kept_zsets = λ k. refl;
                no_new_strings =
                    NoNew-trans l (expire_entry now key l) l2
                      (expire_entry-NoNew now key l h.strings.unique) n2;
                no_new_zsets = NoNew-same lz;
                fewer_strings = omega (arith, f2, expired-le now key l);
                fewer_zsets = omega arith;
                log = refl;
              },
              refl,
              (g2, λ q. absurd (live_value x (sym e ∙ p ∙ q))),
            ))
  where
    live_value : (x : Sds) → some x ≡ none → ⊥
    live_value x e = cc
