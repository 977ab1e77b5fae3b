-- ===== src/Server/CronRun.antt =====
-- serverCron as a whole: the loop over the heap, and then the random samples.
use mathlib.Core.List.Perm
use rediskrazy.Base.{
  ℕ, suc, ◌^◌, ◌<◌, ◌≤◌, ◌≡◌, refl, sym, ap, ◌∙◌, subst, true, none, some, [], ◌∷◌, ◌++◌, length,
  length-append, arith, All, All-imp, Ends, ends, Ends-bind, Bool-cases, inl, inr, bytes_eq,
  bytes_eq_iff,
}
use rediskrazy.Base.Perm.{length-perm}
use rediskrazy.Dict.{Chain, Dict, find, is_expired}
use rediskrazy.Dict.Entries.{UniqueKeys, find-cons, SameSearch-perm}
use rediskrazy.Dict.Active.{Without}
use rediskrazy.Dict.Sampled.{Fewer, dict_active_expire-Fewer}
use rediskrazy.Expheap.Order.{IsHeap}
use rediskrazy.Server.{Server}
use rediskrazy.Server.Cron.{Draws, server_cron}
use rediskrazy.Server.Strings.{Holds}
use rediskrazy.Server.Gone.{NoNew, pending}
use rediskrazy.Server.Due.{KeptKeys, Keeps, expired_due}
use rediskrazy.Server.Expiring.{KeyDone-later, Expired, then_kept, expire_loop-Expired}

-- Entries that have expired are not pending.
gone-Keeps :
    (now : ℕ) (gone l : Chain)
    → UniqueKeys (gone ++ l)
    → All (λ e. is_expired now e ≡ true) gone
    → Keeps now (gone ++ l) l
gone-Keeps now [] l u h k = refl
gone-Keeps now (e ∷ gone) l (new, u) (x, h) k = elim (Bool-cases (bytes_eq e.key k)) [
  | inl y ↦
      let same : e.key ≡ k = (bytes_eq_iff e.key k).0 y in
      let missing : find k (gone ++ l) ≡ none = subst (λ n. find n (gone ++ l) ≡ none) same new in
      let head : find k (e ∷ (gone ++ l)) ≡ some e = ground (arith, find-cons k e (gone ++ l), y) in
      gone-Keeps now gone l u h k
      ∙ ap (pending now) missing
      ∙ sym (expired_due now e x)
      ∙ ap (pending now) (sym head)
  | inr n ↦
      let tail : find k (e ∷ (gone ++ l)) ≡ find k (gone ++ l) =
        ground (arith, find-cons k e (gone ++ l), n) in
      gone-Keeps now gone l u h k ∙ ap (pending now) (sym tail)
]

Without-Keeps : (now : ℕ) (l l' : Chain) → UniqueKeys l → Without now l l' → Keeps now l l'
Without-Keeps now l l' u w k =
    let (u', f) = SameSearch-perm (Perm.symm w.perm) u in
    gone-Keeps now w.gone l' u' w.expired k ∙ ap (pending now) (f k)

-- An entry that is left is found as before.
gone-NoNew : (gone l : Chain) → UniqueKeys (gone ++ l) → NoNew (gone ++ l) l
gone-NoNew [] l u k = inl refl
gone-NoNew (e ∷ gone) l (new, u) k = elim (Bool-cases (bytes_eq e.key k)) [
  | inl y ↦
      let same : e.key ≡ k = (bytes_eq_iff e.key k).0 y in
      let missing : find k (gone ++ l) ≡ none = subst (λ n. find n (gone ++ l) ≡ none) same new in
      elim (gone-NoNew gone l u k) [ inl a ↦ inr (a ∙ missing) | inr a ↦ inr a ]
  | inr n ↦
      let tail : find k (e ∷ (gone ++ l)) ≡ find k (gone ++ l) =
        ground (arith, find-cons k e (gone ++ l), n) in
      elim (gone-NoNew gone l u k) [ inl a ↦ inl (a ∙ sym tail) | inr a ↦ inr a ]
]

Without-NoNew : (now : ℕ) (l l' : Chain) → UniqueKeys l → Without now l l' → NoNew l l'
Without-NoNew now l l' u w k =
    let (u', f) = SameSearch-perm (Perm.symm w.perm) u in
    elim (gone-NoNew w.gone l' u' k) [ inl a ↦ inl (a ∙ f k) | inr a ↦ inr a ]

length-Without : (now : ℕ) (l l' : Chain) → Without now l l' → length l' ≤ length l
length-Without now l l' w = omega (arith, length-append w.gone l', length-perm w.perm)

abbrev sampled_kept :
    (s : Server) (d d' : Dict) (l lz lh : Chain) (now : ℕ)
    → Holds s l lz lh
    → Fewer now l d
    → Fewer now lz d'
    → KeptKeys s l lz lh now (record s { g_data = d; g_zsets = d' })
sampled_kept s d d' l lz lh now h (l1, w1, q1) (l2, w2, q2) = record {
  strings = l1;
  zsets = l2;
  holds = record {
    strings = w1;
    zsets = w2;
    hashes = h.hashes;
    small_zsets = omega (arith, length-Without now lz l2 q2, h.small_zsets);
    small_hashes = h.small_hashes;
  };
  kept_strings = Without-Keeps now l l1 h.strings.unique q1;
  kept_zsets = Without-Keeps now lz l2 h.zsets.unique q2;
  no_new_strings = Without-NoNew now l l1 h.strings.unique q1;
  no_new_zsets = Without-NoNew now lz l2 h.zsets.unique q2;
  fewer_strings = length-Without now l l1 q1;
  fewer_zsets = length-Without now lz l2 q2;
  log = refl;
}

-- serverCron, for fewer than 2 ^ 60 strings, with a heap that has its order, and whatever rand() gives: it ends. It takes
-- entries that are due from the heap, until none is due, or at least 20 of them; every string and sorted set without an expiry, or with an expiry
-- that has not come, stays, with its value and expiry, no key is new or has another value or expiry, and the hashes and the log are as before. Of a key that is taken from the heap no string is left that is due, and where there was no live string
-- no sorted set.
pub server_cron-Expired :
    (s : Server) (first second : Draws) (l lz lh : Chain) (now : ℕ)
    → Holds s l lz lh
    → length l < 2 ^ 60
    → IsHeap s.g_exp_heap.entries
    → Ends (Expired s l lz lh now 0) (server_cron s first second now)
unfolding server_cron
server_cron-Expired s first second l lz lh now h small o =
    Ends-bind
      (expire_loop-Expired (suc (length s.g_exp_heap.entries)) s l lz lh now 0 h small o
        (omega arith))
      λ s1 w.
        let k = w.kept in
        Ends-bind
          (dict_active_expire-Fewer s1.g_data k.strings 10 first.coin first.rand now k.holds.strings
            (omega (arith, k.fewer_strings)))
          λ (d, n) a.
            Ends-bind
              (dict_active_expire-Fewer s1.g_zsets k.zsets 10 second.coin second.rand now
                k.holds.zsets (omega (arith, k.holds.small_zsets)))
              λ (d', n') b.
                let s2 : Server = record s1 { g_data = d; g_zsets = d' } in
                let c = sampled_kept s1 d d' k.strings k.zsets lh now k.holds a b in
                ends (record {
                  kept = then_kept s s1 s2 l lz lh now k c;
                  heap = w.heap;
                  taken = w.taken;
                  due = w.due;
                  done =
                      All-imp
                        (λ x q.
                          KeyDone-later now l k.strings k.zsets c.strings c.zsets x.key
                            c.no_new_strings c.no_new_zsets q)
                        w.taken w.done;
                  perm = w.perm;
                  stop = w.stop;
                })
