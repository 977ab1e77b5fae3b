-- ===== src/Tpool/Steps.antt =====
-- Every step of the pool keeps its invariant, and no access of a step goes wrong.
use rediskrazy.Base.{
  ℕ, zero, suc, ◌+◌, ◌<◌, ◌≤◌, ◌≡◌, ◌≢◌, refl, sym, ap, subst, ◌∙◌, Bool, true, false, Option, some,
  List, [], ◌∷◌, ◌++◌, arith, length, get_elem?, take, length-append, Ends, Ends-inv, ◌⊎◌, inl, inr,
}
use rediskrazy.Tpool.{
  Work, Task, Pool, Worker, System, at_lock, waiting, executing, exited, load, tpool_add_work,
  Signals, wakes, nobody,
}
use rediskrazy.Tpool.Count.{
  count, count-set, count-nobody, is_at_lock, is_waiting, is_exited, executes, one_if,
}
use rediskrazy.Tpool.Invariant.{IsList, tpool_add_work-IsList}

-- A task that was taken is executed by one worker and not freed, or by none.
abbrev pub IsOwned : List (Option Task) → List Worker → ℕ → Type 0
IsOwned tasks ws t =
    ((count (executes t) ws ≡ 1) × (task : Task) × (load tasks t ≡ some task))
    ⊎ (count (executes t) ws ≡ 0)

pub record IsSystem (s : System) : Type 0 where
  pub list : IsList s.pool s.submitted (length s.started)
  pub in_order : s.started ≡ take (length s.started) s.submitted
  pub owned : (t : ℕ) → t < length s.started → IsOwned s.pool.tasks s.workers t
  pub unowned : (t : ℕ) → length s.started ≤ t → count (executes t) s.workers ≡ 0
  -- No signal is lost: a task in the list has a worker on its way to it, or no worker waits.
  pub awake :
      (length s.submitted ≤ length s.started + count is_at_lock s.workers)
      ⊎ (count is_waiting s.workers ≡ 0)
  pub stopped : s.pool.stop ≡ true → count is_waiting s.workers ≡ 0
  pub running : s.pool.stop ≡ false → count is_exited s.workers ≡ 0

pub Ends-at : {A : Type 0} {P : A → Type 0} {m : Option A} {a : A} → Ends P m → m ≡ some a → P a
Ends-at {P = P} e h = let (b, f, p) = Ends-inv e in subst P (inner (sym f ∙ h)) p
  where
    inner : {A : Type 0} {a b : A} → some a ≡ some b → a ≡ b
    inner e = cc

take_before : (l : List Work) (k : ℕ) (w : Work) → k ≤ length l → take k (l ++ (w ∷ [])) ≡ take k l
take_before l zero w h = refl
take_before [] (suc k) w h = absurd (omega arith)
take_before (x ∷ l) (suc k) w h = ap (◌∷◌ x) (take_before l k w (omega arith))

pub take_next :
    (l : List Work) (k : ℕ) (w : Work)
    → get_elem? l k ≡ some w
    → take (k + 1) l ≡ take k l ++ (w ∷ [])
take_next [] k w h = cc
take_next (x ∷ l) zero w h = ap (λ y. y ∷ []) (inner h)
  where
    inner : {A : Type 0} {a b : A} → some a ≡ some b → a ≡ b
    inner e = cc
take_next (x ∷ l) (suc k) w h =
    ap (λ n. take n (x ∷ l)) {y = suc (k + 1)} (omega arith) ∙ ap (◌∷◌ x) (take_next l k w h)

-- What a signal does to the counts.
signal_others :
    (P : Worker → Bool) (ws ws' : List Worker)
    → Signals ws ws'
    → P waiting ≡ P at_lock
    → count P ws' ≡ count P ws
signal_others P ws ws' (wakes j g) h =
    omega (arith, count-set P ws j waiting at_lock g, ap one_if h)
signal_others P ws ws' (nobody n) h = refl

signal_awake :
    (ws ws' : List Worker)
    → Signals ws ws'
    → ((count is_at_lock ws' ≡ count is_at_lock ws + 1)
        × (count is_waiting ws' + 1 ≡ count is_waiting ws))
      ⊎ ((count is_waiting ws' ≡ 0) × (count is_waiting ws ≡ 0))
signal_awake ws ws' (wakes j g) = inl (
  omega (arith, count-set is_at_lock ws j waiting at_lock g),
  omega (arith, count-set is_waiting ws j waiting at_lock g),
)
signal_awake ws ws' (nobody n) =
    let none_waits =
      count-nobody is_waiting ws (λ j w g. not_waiting w (λ e. n j (g ∙ ap some e))) in
    inr (none_waits, none_waits)
  where
    not_waiting : (w : Worker) → w ≢ waiting → is_waiting w ≡ false
    not_waiting waiting n = absurd (n refl)
    not_waiting at_lock n = refl
    not_waiting (executing t) n = refl
    not_waiting exited n = refl

pub submit-IsSystem :
    (s : System) (p : Pool) (ws : List Worker) (w : Work)
    → IsSystem s
    → tpool_add_work s.pool w ≡ some p
    → Signals s.workers ws
    → IsSystem (record s { pool = p; workers = ws; submitted = s.submitted ++ (w ∷ []) })
submit-IsSystem s p ws w v e g =
    let (list, same, loads) =
      Ends-at (tpool_add_work-IsList s.pool s.submitted (length s.started) v.list w) e in
    let others : (t : ℕ) → count (executes t) ws ≡ count (executes t) s.workers =
      λ t. signal_others (executes t) s.workers ws g refl in
    record {
      list = list;
      in_order = v.in_order ∙ sym (take_before s.submitted (length s.started) w v.list.some_left);
      owned = λ t h. own t h (others t) (loads t h) (v.owned t h);
      unowned = λ t h. others t ∙ v.unowned t h;
      awake = wake (signal_awake s.workers ws g) v.awake;
      stopped = λ h. less (signal_awake s.workers ws g) (v.stopped (sym same ∙ h));
      running = λ h. signal_others is_exited s.workers ws g refl ∙ v.running (sym same ∙ h);
    }
  where
    own :
        (t : ℕ)
        → t < length s.started
        → count (executes t) ws ≡ count (executes t) s.workers
        → load p.tasks t ≡ load s.pool.tasks t
        → IsOwned s.pool.tasks s.workers t
        → IsOwned p.tasks ws t
    own t h a b (inl (c, task, f)) = inl (a ∙ c, task, b ∙ f)
    own t h a b (inr c) = inr (a ∙ c)

    wake :
        ((count is_at_lock ws ≡ count is_at_lock s.workers + 1)
            × (count is_waiting ws + 1 ≡ count is_waiting s.workers))
          ⊎ ((count is_waiting ws ≡ 0) × (count is_waiting s.workers ≡ 0))
        → (length s.submitted ≤ length s.started + count is_at_lock s.workers)
          ⊎ (count is_waiting s.workers ≡ 0)
        → (length (s.submitted ++ (w ∷ [])) ≤ length s.started + count is_at_lock ws)
          ⊎ (count is_waiting ws ≡ 0)
    wake (inl (a, b)) (inl c) = inl (omega (arith, length-append s.submitted (w ∷ [])))
    wake (inl (a, b)) (inr c) = absurd (omega arith)
    wake (inr (a, b)) c = inr a

    less :
        ((count is_at_lock ws ≡ count is_at_lock s.workers + 1)
            × (count is_waiting ws + 1 ≡ count is_waiting s.workers))
          ⊎ ((count is_waiting ws ≡ 0) × (count is_waiting s.workers ≡ 0))
        → count is_waiting s.workers ≡ 0
        → count is_waiting ws ≡ 0
    less (inl (a, b)) c = absurd (omega arith)
    less (inr (a, b)) c = a
