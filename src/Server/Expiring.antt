-- ===== src/Server/Expiring.antt =====
-- The loop of serverCron over the heap.
use rediskrazy.Base.{
  ℕ, zero, suc, ◌+◌, ◌^◌, ◌<◌, ◌≤◌, ◌≡◌, refl, sym, ap, ◌∙◌, subst, Bool, true, false, ◌&&◌, Option,
  none, some, List, [], ◌∷◌, ◌++◌, ltb, leb, length, get_elem?, arith, if◌then◌else◌, All, All-imp,
  Ends, ends, Ends-bind, Ends-map, Ends-if, Ends-option, Bool-cases, inl, inr, ◌⊎◌,
}
use mathlib.Core.List.Perm
use mathlib.Core.List.{Perm}
use rediskrazy.Base.Perm.{length-perm}
use rediskrazy.Dict.{Chain}
use rediskrazy.Expheap.{ExpEntry, ExpHeap, expheap_peek}
use rediskrazy.Expheap.Order.{IsHeap}
use rediskrazy.Expheap.Queue.{Taken, first_least, expheap_pop_correct}
use rediskrazy.Server.{Server}
use rediskrazy.Server.Cron.{expire_loop}
use rediskrazy.Server.Strings.{Holds}
use rediskrazy.Sds.{Sds}
use rediskrazy.Server.Gone.{NoNew, NoNew-trans, NoNew-same, NoNew-NotDue, NoNew-live}
use rediskrazy.Server.Due.{KeyDone, KeptKeys, expire_key-KeptKeys}

-- What the loop does, with `count` keys removed before: it takes entries that are due from the heap, up to the last one,
-- or at least so many that 20 keys may have been removed.
pub record Expired (s : Server) (l lz lh : Chain) (now count : ℕ) (s' : Server) : Type 0 where
  pub kept : KeptKeys s l lz lh now s'
  pub heap : IsHeap s'.g_exp_heap.entries
  pub taken : List ExpEntry
  pub due : All (λ e. e.expire ≤ now) taken
  pub done : All (λ e. KeyDone now l kept.strings kept.zsets e.key) taken
  pub perm : Perm (taken ++ s'.g_exp_heap.entries) s.g_exp_heap.entries
  pub stop : All (λ e. now < e.expire) s'.g_exp_heap.entries ⊎ (20 ≤ length taken + count)

abbrev pub then_kept :
    (s s1 s2 : Server) (l lz lh : Chain) (now : ℕ) (a : KeptKeys s l lz lh now s1)
    → KeptKeys s1 a.strings a.zsets lh now s2
    → KeptKeys s l lz lh now s2
then_kept s s1 s2 l lz lh now a b = record {
  strings = b.strings;
  zsets = b.zsets;
  holds = b.holds;
  kept_strings = λ k. b.kept_strings k ∙ a.kept_strings k;
  kept_zsets = λ k. b.kept_zsets k ∙ a.kept_zsets k;
  no_new_strings = NoNew-trans l a.strings b.strings a.no_new_strings b.no_new_strings;
  no_new_zsets = NoNew-trans lz a.zsets b.zsets a.no_new_zsets b.no_new_zsets;
  fewer_strings = omega (arith, a.fewer_strings, b.fewer_strings);
  fewer_zsets = omega (arith, a.fewer_zsets, b.fewer_zsets);
  log = b.log ∙ a.log;
}

stopped-Expired :
    (s : Server) (l lz lh : Chain) (now count : ℕ)
    → Holds s l lz lh
    → IsHeap s.g_exp_heap.entries
    → All (λ e. now < e.expire) s.g_exp_heap.entries ⊎ (20 ≤ count)
    → Expired s l lz lh now count s
stopped-Expired s l lz lh now count h o stop = record {
  kept = record {
    strings = l;
    zsets = lz;
    holds = h;
    kept_strings = λ k. refl;
    kept_zsets = λ k. refl;
    no_new_strings = NoNew-same l;
    no_new_zsets = NoNew-same lz;
    fewer_strings = omega arith;
    fewer_zsets = omega arith;
    log = refl;
  };
  heap = o;
  taken = [];
  due = tt;
  done = tt;
  perm = Perm.refl _;
  stop = elim stop [ inl a ↦ inl a | inr n ↦ inr (omega (arith, n)) ];
}

first-cons :
    (l : List ExpEntry) (top : ExpEntry)
    → get_elem? l 0 ≡ some top
    → (rest : List ExpEntry) × (l ≡ top ∷ rest)
first-cons [] top e = cc
first-cons (x ∷ l) top e = let same : x ≡ top = cc in (l, ap (λ c. c ∷ l) same)

-- What is done with a key stays done.
pub KeyDone-later :
    (now : ℕ) (l strings zsets strings' zsets' : Chain) (key : Sds)
    → NoNew strings strings'
    → NoNew zsets zsets'
    → KeyDone now l strings zsets key
    → KeyDone now l strings' zsets' key
KeyDone-later now l strings zsets strings' zsets' key a b (d, f) =
    (NoNew-NotDue now strings strings' key a d, λ e. NoNew-NotDue now zsets zsets' key b (f e))

KeyDone-earlier :
    (now : ℕ) (l l' strings zsets : Chain) (key : Sds)
    → NoNew l l'
    → KeyDone now l' strings zsets key
    → KeyDone now l strings zsets key
KeyDone-earlier now l l' strings zsets key a (d, f) = (d, λ e. f (NoNew-live now l l' key a e))

-- One entry is taken, and then the loop goes on.
next-Expired :
    (s s1 s2 : Server) (e : ExpEntry) (heap : ExpHeap) (l lz lh : Chain) (now count : ℕ) (b : Bool)
    → Perm (e ∷ heap.entries) s.g_exp_heap.entries
    → e.expire ≤ now
    → (k : KeptKeys (record s { g_exp_heap = heap }) l lz lh now s1) → s1.g_exp_heap ≡ heap
    → KeyDone now l k.strings k.zsets e.key
    → Expired s1 k.strings k.zsets lh now (if b then count + 1 else count) s2
    → Expired s l lz lh now count s2
next-Expired s s1 s2 e heap l lz lh now count b p d k same g w = record {
  kept =
      then_kept s s1 s2 l lz lh now
        (record {
          strings = k.strings;
          zsets = k.zsets;
          holds = k.holds;
          kept_strings = k.kept_strings;
          kept_zsets = k.kept_zsets;
          no_new_strings = k.no_new_strings;
          no_new_zsets = k.no_new_zsets;
          fewer_strings = k.fewer_strings;
          fewer_zsets = k.fewer_zsets;
          log = k.log;
        })
        w.kept;
  heap = w.heap;
  taken = e ∷ w.taken;
  due = (d, w.due);
  done = (
    KeyDone-later now l k.strings k.zsets w.kept.strings w.kept.zsets e.key w.kept.no_new_strings
        w.kept.no_new_zsets g,
    All-imp
        (λ x q.
          KeyDone-earlier now l k.strings w.kept.strings w.kept.zsets x.key k.no_new_strings q)
        w.taken w.done,
  );
  perm =
      Perm.trans
        (Perm.cons e (subst (λ h. Perm (w.taken ++ s2.g_exp_heap.entries) h.entries) same w.perm))
        p;
  stop = elim (w.stop) [ inl a ↦ inl a | inr n ↦ inr (at_most b n) ];
}
  where
    at_most :
        (b : Bool)
        → 20 ≤ length w.taken + (if b then count + 1 else count)
        → 20 ≤ suc (length w.taken) + count
    at_most true n = omega (arith, n)
    at_most false n = omega (arith, n)

none_there : (P : ExpEntry → Type 0) (l : List ExpEntry) → get_elem? l 0 ≡ none → All P l
none_there P [] e = tt
none_there P (x ∷ l) e = cc

-- An entry that is popped is due, where the first is.
popped_due :
    {l : List ExpEntry} {now : ℕ}
    → (popped : Option ExpEntry) (l' : List ExpEntry) (top : ExpEntry) (rest : List ExpEntry)
    → l ≡ top ∷ rest
    → Taken l l' popped
    → top.expire ≤ now
    → Ends (λ e. Perm (e ∷ l') l × (e.expire ≤ now)) popped
popped_due none l' top rest e (q, _) h = absurd (differ (sym q ∙ e))
  where
    differ : [] ≡ top ∷ rest → ⊥
    differ e = cc
popped_due (some x) l' top rest e (p, least) h =
    ends (p, omega (arith, (subst (All (λ y. x.expire ≤ y.expire)) e least).0, h))

moved-Holds :
    (s : Server) (heap : ExpHeap) (l lz lh : Chain)
    → Holds s l lz lh
    → Holds (record s { g_exp_heap = heap }) l lz lh
moved-Holds s heap l lz lh h = record {
  strings = h.strings;
  zsets = h.zsets;
  hashes = h.hashes;
  small_zsets = h.small_zsets;
  small_hashes = h.small_hashes;
}

-- The loop of serverCron over a heap with the order, for fewer than 2 ^ 60 strings: it ends within one round more than the heap has entries. It takes
-- entries that are due from the heap, at least 20 of them less the keys removed before, or until none is due; every string and sorted set without an expiry, or with an expiry
-- that has not come, stays, with its value and expiry, no key is new, and the hashes and the log are as before. Of a key that is taken from the heap no string is left that is due, and where there was no live string
-- no sorted set.
pub expire_loop-Expired :
    (rounds : ℕ) (s : Server) (l lz lh : Chain) (now count : ℕ)
    → Holds s l lz lh
    → length l < 2 ^ 60
    → IsHeap s.g_exp_heap.entries
    → length s.g_exp_heap.entries < rounds
    → Ends (Expired s l lz lh now count) (expire_loop rounds s now count)
unfolding expire_loop expheap_peek
expire_loop-Expired zero s l lz lh now count h small o f = absurd (omega arith)
expire_loop-Expired (suc rounds) s l lz lh now count h small o f =
    Ends-option (get_elem? s.g_exp_heap.entries 0)
      (λ n.
        ends (stopped-Expired s l lz lh now count h o (inl (none_there _ s.g_exp_heap.entries n))))
      (λ top q.
        let (rest, cut) = first-cons s.g_exp_heap.entries top q in
        let least =
          subst (All (λ x. top.expire ≤ x.expire)) (sym cut)
            (first_least top rest (subst IsHeap cut o)) in
        Ends-if (ltb count 20 && leb top.expire now)
          (λ y. Ends-bind (expheap_pop_correct s.g_exp_heap o) λ (heap, popped) (o', t, _).
            Ends-bind (popped_due popped heap.entries top rest cut t (ground (arith, y)))
              λ e (p, d).
                Ends-bind
                  (expire_key-KeptKeys (record s { g_exp_heap = heap }) e.key l lz lh now
                    (moved-Holds s heap l lz lh h) small)
                  λ (s1, b) (k, same, g).
                    Ends-map
                      (expire_loop-Expired rounds s1 k.strings k.zsets lh now
                        (if b then count + 1 else count) k.holds (omega (arith, k.fewer_strings))
                        (subst (λ x. IsHeap x.entries) (sym same) o')
                        (omega (arith, ap (λ x. length x.entries) same, length-perm p)))
                      λ s2 w. next-Expired s s1 s2 e heap l lz lh now count b p d k same g w)
          (λ n. ends (
            stopped-Expired s l lz lh now count h o (elim (Bool-cases (ltb count 20)) [
              | inl c ↦
                  let later : now < top.expire = ground (arith, n, c) in
                  inl (All-imp (λ x le. omega (arith, later, le)) s.g_exp_heap.entries least)
              | inr c ↦ inr (ground (arith, c))
            ]))))
