-- ===== src/Tpool/Region.antt =====
-- The steps of a worker: at the lock, and behind its task.
use rediskrazy.Base.{
  ◌>>=◌, ℕ, suc, ◌+◌, ◌<◌, ◌≤◌, ◌≡◌, ◌≢◌, refl, sym, ap, subst, ◌∙◌, Bool, true, false, none, some,
  [], ◌∷◌, ◌++◌, ◌==◌, arith, length, get_elem?, set, take, length-append, Ends, ends, Ends-bind,
  Ends-map, dec_lt, ℕ_discrete, ◌⊎◌, inl, inr, append-nil,
}
use rediskrazy.Tpool.{
  Work, Task, Pool, Worker, System, at_lock, waiting, executing, exited, load, take_task, free_task,
  worker_region, taken,
}
use rediskrazy.Tpool.Count.{
  count, count-set, count-some, is_at_lock, is_waiting, is_exited, executes, one_if,
}
use rediskrazy.Tpool.Invariant.{IsList, head-some, head-none, free_task-IsList, take_task-IsList}
use rediskrazy.Tpool.Steps.{IsOwned, IsSystem, take_next}

-- The system behind a region of the worker j.
abbrev pub after_region : System → ℕ → Pool × Worker → System
after_region s j r = record s {
  pool = r.0;
  workers = set s.workers j r.1;
  started = s.started ++ taken s.pool r.1;
}

empty_region :
    (p : Pool) (b : Bool)
    → p.head ≡ none
    → p.stop ≡ b
    → worker_region p ≡ some (p, elim b [ false ↦ waiting | true ↦ exited ])
unfolding worker_region
empty_region p false h e = simp (worker_region, h, e) refl
empty_region p true h e = simp (worker_region, h, e) refl

full_region :
    (p : Pool) (t : ℕ)
    → p.head ≡ some t
    → worker_region p ≡ (take_task p t >>= λ p'. some (p', executing t))
unfolding worker_region
full_region p t h = simp (worker_region, h) refl

pub differ : (b : Bool) → b ≡ true → b ≡ false → ⊥
differ b p q = cc

nothing_taken : (s : System) → s.started ≡ s.started ++ []
nothing_taken s = sym (append-nil s.started)

module _ (s : System) (j : ℕ) (v : IsSystem s) where
  -- A worker that does not take a task.
  idle-IsSystem :
      (w w' : Worker)
      → get_elem? s.workers j ≡ some w
      → ((t : ℕ) → executes t w ≡ executes t w')
      → ((length s.submitted ≤ length s.started + count is_at_lock (set s.workers j w'))
          ⊎ (count is_waiting (set s.workers j w') ≡ 0))
      → (s.pool.stop ≡ true → count is_waiting (set s.workers j w') ≡ 0)
      → (s.pool.stop ≡ false → count is_exited (set s.workers j w') ≡ 0)
      → IsSystem (record s { workers = set s.workers j w' })
  idle-IsSystem w w' g same awake stopped running =
      let others : (t : ℕ)
          → count (executes t) (set s.workers j w') ≡ count (executes t) s.workers =
        λ t. omega (arith, count-set (executes t) s.workers j w w' g, ap one_if (same t)) in
      record {
        list = v.list;
        in_order = v.in_order;
        owned = λ t h. own t (others t) (v.owned t h);
        unowned = λ t h. others t ∙ v.unowned t h;
        awake = awake;
        stopped = stopped;
        running = running;
      }
    where
      own :
          (t : ℕ)
          → count (executes t) (set s.workers j w') ≡ count (executes t) s.workers
          → IsOwned s.pool.tasks s.workers t
          → IsOwned s.pool.tasks (set s.workers j w') t
      own t a (inl (c, task, f)) = inl (a ∙ c, task, f)
      own t a (inr c) = inr (a ∙ c)

  took :
      (p' : Pool) (w : Work) (task : Task)
      → get_elem? s.workers j ≡ some at_lock
      → get_elem? s.submitted (length s.started) ≡ some w
      → load s.pool.tasks (length s.started) ≡ some task
      → IsList p' s.submitted (suc (length s.started))
      → p'.stop ≡ s.pool.stop
      → p'.tasks ≡ s.pool.tasks
      → IsSystem (record s {
        pool = p';
        workers = set s.workers j (executing (length s.started));
        started = s.started ++ (w ∷ []);
      })
  took p' w task g x y list same tasks =
      let k = length s.started in
      let size : length (s.started ++ (w ∷ [])) ≡ suc k =
        omega (arith, length-append s.started (w ∷ [])) in
      let ws = set s.workers j (executing k) in
      record {
        list = subst (IsList p' s.submitted) (sym size) list;
        in_order =
            ap (λ l. l ++ (w ∷ [])) v.in_order
            ∙ sym (take_next s.submitted k w x)
            ∙ ap (λ n. take n s.submitted) (omega (arith, size));
        owned = λ t h.
            own t (count-set (executes t) s.workers j at_lock (executing k) g)
              (omega (arith, size));
        unowned = λ t h.
            let other : executes t (executing k) ≡ false = ground (arith, size) in
            omega (
              arith,
              count-set (executes t) s.workers j at_lock (executing k) g,
              ap one_if other,
              v.unowned t (omega (arith, size)),
            );
        awake =
            wake v.awake (count-set is_at_lock s.workers j at_lock (executing k) g)
              (count-set is_waiting s.workers j at_lock (executing k) g) size;
        stopped = λ h. omega (
          arith,
          count-set is_waiting s.workers j at_lock (executing k) g,
          v.stopped (sym same ∙ h),
        );
        running = λ h. omega (
          arith,
          count-set is_exited s.workers j at_lock (executing k) g,
          v.running (sym same ∙ h),
        );
      }
    where
      own :
          (t : ℕ)
          → count (executes t) (set s.workers j (executing (length s.started))) + 0
            ≡ count (executes t) s.workers + one_if (length s.started == t)
          → t < suc (length s.started)
          → IsOwned p'.tasks (set s.workers j (executing (length s.started))) t
      own t c h = elim (ℕ_discrete t (length s.started)) [
        | yes e ↦
            let here : (length s.started == t) ≡ true = ground (arith, e) in
            inl (
              omega (arith, ap one_if here, v.unowned t (omega arith)),
              task,
              ap (λ l. load l t) tasks ∙ ap (load s.pool.tasks) e ∙ y,
            )
        | no n ↦
            let other : (length s.started == t) ≡ false = ground arith in
            before t (omega (arith, ap one_if other)) (v.owned t (omega arith))
      ]
        where
          before :
              (t : ℕ)
              → count (executes t) (set s.workers j (executing (length s.started)))
                ≡ count (executes t) s.workers
              → IsOwned s.pool.tasks s.workers t
              → IsOwned p'.tasks (set s.workers j (executing (length s.started))) t
          before t a (inl (c, task, f)) = inl (a ∙ c, task, ap (λ l. load l t) tasks ∙ f)
          before t a (inr c) = inr (a ∙ c)

      wake :
          (length s.submitted ≤ length s.started + count is_at_lock s.workers)
            ⊎ (count is_waiting s.workers ≡ 0)
          → count is_at_lock (set s.workers j (executing (length s.started))) + 1
            ≡ count is_at_lock s.workers + 0
          → count is_waiting (set s.workers j (executing (length s.started))) + 0
            ≡ count is_waiting s.workers + 0
          → length (s.started ++ (w ∷ [])) ≡ suc (length s.started)
          → (length s.submitted
              ≤ length (s.started ++ (w ∷ []))
                + count is_at_lock (set s.workers j (executing (length s.started))))
            ⊎ (count is_waiting (set s.workers j (executing (length s.started))) ≡ 0)
      wake (inl a) b c d = inl (omega arith)
      wake (inr a) b c d = inr (omega arith)

  -- A worker that takes the first task.
  take-IsSystem :
      get_elem? s.workers j ≡ some at_lock
      → length s.started < length s.submitted
      → Ends (λ r. IsSystem (after_region s j r)) (worker_region s.pool)
  take-IsSystem g h =
      let k = length s.started in
      let (w, x, y, e) = take_task-IsList s.pool s.submitted k v.list h in
      let new : taken s.pool (executing k) ≡ w ∷ [] = rw (taken, y) refl in
      rw (full_region s.pool k (head-some s.pool s.submitted k v.list h)) (
        Ends-bind e λ p' z. ends (
          subst
            (λ l. IsSystem (record s {
              pool = p';
              workers = set s.workers j (executing k);
              started = s.started ++ l;
            }))
            (sym new) (took p' w _ g x y z.0 z.1 z.2)))

  -- A worker that finds no task.
  empty-IsSystem :
      (b : Bool)
      → s.pool.stop ≡ b
      → get_elem? s.workers j ≡ some at_lock
      → length s.submitted ≤ length s.started
      → Ends (λ r. IsSystem (after_region s j r)) (worker_region s.pool)
  empty-IsSystem false e g h =
      rw (empty_region s.pool false (head-none s.pool s.submitted (length s.started) v.list h) e) (
        ends (
          subst (λ l. IsSystem (record s { workers = set s.workers j waiting; started = l }))
            (nothing_taken s)
            (idle-IsSystem at_lock waiting g (λ t. refl) (inl (omega arith))
              (λ h. absurd (differ s.pool.stop h e))
              (λ h.
                omega (arith, count-set is_exited s.workers j at_lock waiting g, v.running h)))))
  empty-IsSystem true e g h =
      rw (empty_region s.pool true (head-none s.pool s.submitted (length s.started) v.list h) e) (
        ends (
          subst (λ l. IsSystem (record s { workers = set s.workers j exited; started = l }))
            (nothing_taken s)
            (idle-IsSystem at_lock exited g (λ t. refl) (inl (omega arith))
              (λ h. omega (arith, count-set is_waiting s.workers j at_lock exited g, v.stopped h))
              (λ h. absurd (differ s.pool.stop e h)))))

  -- The region of a worker ends without a wrong access, and keeps the invariant.
  pub region-IsSystem :
      get_elem? s.workers j ≡ some at_lock
      → Ends (λ r. IsSystem (after_region s j r)) (worker_region s.pool)
  region-IsSystem g = elim (dec_lt (length s.started) (length s.submitted)) [
    | yes y ↦ take-IsSystem g y
    | no n ↦ empty-IsSystem s.pool.stop refl g (omega arith)
  ]

  -- A wait that ends without a signal.
  pub spurious-IsSystem :
      get_elem? s.workers j ≡ some waiting
      → IsSystem (record s { workers = set s.workers j at_lock })
  spurious-IsSystem g =
      let one_waits = count-some is_waiting s.workers j waiting g refl in
      let fewer = count-set is_waiting s.workers j waiting at_lock g in
      idle-IsSystem waiting at_lock g (λ t. refl)
        (wake v.awake (count-set is_at_lock s.workers j waiting at_lock g) one_waits)
        (λ h. absurd (omega (arith, v.stopped h)))
        (λ h. omega (arith, count-set is_exited s.workers j waiting at_lock g, v.running h))
    where
      wake :
          (length s.submitted ≤ length s.started + count is_at_lock s.workers)
            ⊎ (count is_waiting s.workers ≡ 0)
          → count is_at_lock (set s.workers j at_lock) + 0 ≡ count is_at_lock s.workers + 1
          → 1 ≤ count is_waiting s.workers
          → (length s.submitted ≤ length s.started + count is_at_lock (set s.workers j at_lock))
            ⊎ (count is_waiting (set s.workers j at_lock) ≡ 0)
      wake (inl a) b c = inl (omega arith)
      wake (inr a) b c = absurd (omega arith)

  -- A worker frees the task that it has executed: no other worker has it, and it is not in the list.
  pub finish-IsSystem :
      (t : ℕ)
      → get_elem? s.workers j ≡ some (executing t)
      → Ends
          (λ p. IsSystem (record s { pool = p; workers = set s.workers j at_lock }))
          (free_task s.pool t)
  finish-IsSystem t g =
      let self : executes t (executing t) ≡ true = ground arith in
      let one = count-some (executes t) s.workers j (executing t) g self in
      elim (dec_lt t (length s.started)) [
        | no n ↦ absurd (omega (arith, v.unowned t (omega arith)))
        | yes y ↦ go self y (v.owned t y) one
      ]
    where
      change :
          (P : Worker → Bool)
          → count P (set s.workers j at_lock) + one_if (P (executing t))
            ≡ count P s.workers + one_if (P at_lock)
      change P = count-set P s.workers j (executing t) at_lock g

      other :
          (u : ℕ)
          → u ≢ t
          → count (executes u) (set s.workers j at_lock) ≡ count (executes u) s.workers
      other u n =
          let not_it : executes u (executing t) ≡ false = ground arith in
          omega (arith, change (executes u), ap one_if not_it)

      wake :
          (length s.submitted ≤ length s.started + count is_at_lock s.workers)
            ⊎ (count is_waiting s.workers ≡ 0)
          → (length s.submitted ≤ length s.started + count is_at_lock (set s.workers j at_lock))
            ⊎ (count is_waiting (set s.workers j at_lock) ≡ 0)
      wake (inl a) = inl (omega (arith, change is_at_lock))
      wake (inr a) = inr (omega (arith, change is_waiting))

      own :
          (u : ℕ) (p : Pool)
          → load p.tasks u ≡ load s.pool.tasks u
          → count (executes u) (set s.workers j at_lock) ≡ count (executes u) s.workers
          → IsOwned s.pool.tasks s.workers u
          → IsOwned p.tasks (set s.workers j at_lock) u
      own u p a b (inl (c, task, f)) = inl (b ∙ c, task, a ∙ f)
      own u p a b (inr c) = inr (b ∙ c)

      go :
          executes t (executing t) ≡ true
          → t < length s.started
          → IsOwned s.pool.tasks s.workers t
          → 1 ≤ count (executes t) s.workers
          → Ends
              (λ p. IsSystem (record s { pool = p; workers = set s.workers j at_lock }))
              (free_task s.pool t)
      go self y (inr c) one = absurd (omega arith)
      go self y (inl (c, task, f)) one =
          Ends-map (free_task-IsList s.pool s.submitted (length s.started) v.list t task y f) λ p z.
            record {
              list = z.0;
              in_order = v.in_order;
              owned = λ u h. elim (ℕ_discrete u t) [
                | yes e ↦ inr (
                    ap (λ n. count (executes n) (set s.workers j at_lock)) e
                    ∙ omega (arith, change (executes t), ap one_if self))
                | no n ↦ own u p (z.3 u n) (other u n) (v.owned u h)
              ];
              unowned = λ u h. other u (λ e. omega arith) ∙ v.unowned u h;
              awake = wake v.awake;
              stopped = λ h. omega (arith, change is_waiting, v.stopped (sym z.1 ∙ h));
              running = λ h. omega (arith, change is_exited, v.running (sym z.1 ∙ h));
            }
