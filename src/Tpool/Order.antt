-- ===== src/Tpool/Order.antt =====
-- What holds in every system that the pool gets to: the order of the tasks, the accesses, the wake-ups.
use rediskrazy.Base.{
  ℕ, zero, suc, ◌+◌, ◌<◌, ◌≤◌, ◌≡◌, ◌≢◌, refl, ap, ◌∙◌, true, false, some, List, [], ◌∷◌, arith,
  length, get_elem?, take, Ends, Ends-map, ◌⊎◌, inl, inr, map, length-replicate, length-set, dec_lt,
}
use rediskrazy.Tpool.{
  Work, Worker, System, at_lock, waiting, executing, exited, tpool_add_work, free_task,
  worker_region, woken, tpool_init, Signals, wakes, nobody, Step, submit, region, finish, spurious,
  stop, Reach, start, later,
}
use rediskrazy.Tpool.Count.{
  count, count-some, count-nobody, count-replicate, count-woken, nobody-waiting, is_at_lock,
  is_waiting, is_exited, executes, sum_of_counts,
}
use rediskrazy.Tpool.Invariant.{tpool_add_work-IsList}
use rediskrazy.Tpool.Steps.{IsOwned, IsSystem, Ends-at, submit-IsSystem}
use rediskrazy.Tpool.Region.{region-IsSystem, spurious-IsSystem, finish-IsSystem, differ}

init-IsSystem : (n : ℕ) → IsSystem (tpool_init n)
unfolding tpool_init
init-IsSystem n = record {
  list = record {
    size = refl;
    some_left = omega arith;
    head = refl;
    tail = refl;
    listed = λ i a b. absurd (omega arith);
  };
  in_order = refl;
  owned = λ t h. absurd (omega arith);
  unowned = λ t h. count-replicate (executes t) n at_lock refl;
  awake = inl (omega arith);
  stopped = λ h. count-replicate is_waiting n at_lock refl;
  running = λ h. count-replicate is_exited n at_lock refl;
}

stop-IsSystem :
    (s : System)
    → IsSystem s
    → IsSystem (record s { pool = record (s.pool) { stop = true }; workers = map woken s.workers })
stop-IsSystem s v = record {
  list = record {
    size = v.list.size;
    some_left = v.list.some_left;
    head = v.list.head;
    tail = v.list.tail;
    listed = v.list.listed;
  };
  in_order = v.in_order;
  owned = λ t h. own t (v.owned t h);
  unowned = λ t h. count-woken (executes t) s.workers refl ∙ v.unowned t h;
  awake = inr (nobody-waiting s.workers);
  stopped = λ h. nobody-waiting s.workers;
  running = λ h. absurd (differ true refl h);
}
  where
    own : (t : ℕ) → IsOwned s.pool.tasks s.workers t → IsOwned s.pool.tasks (map woken s.workers) t
    own t (inl (c, task, f)) = inl (count-woken (executes t) s.workers refl ∙ c, task, f)
    own t (inr c) = inr (count-woken (executes t) s.workers refl ∙ c)

Step-IsSystem : {s s' : System} → IsSystem s → Step s s' → IsSystem s'
Step-IsSystem {s} v (submit {p} {ws} w e g) = submit-IsSystem s p ws w v e g
Step-IsSystem {s} v (region {p} {w} j g e) = Ends-at (region-IsSystem s j v g) e
Step-IsSystem {s} v (finish {p} j {t} g e) = Ends-at (finish-IsSystem s j v t g) e
Step-IsSystem {s} v (spurious j g) = spurious-IsSystem s j v g
Step-IsSystem {s} v stop = stop-IsSystem s v

Reach-IsSystem : {n : ℕ} {s : System} → Reach n s → IsSystem s
Reach-IsSystem {n} start = init-IsSystem n
Reach-IsSystem (later r t) = Step-IsSystem (Reach-IsSystem r) t

-- In every system that a pool gets to, in any order of its threads, no access goes wrong: a task can be added, a worker at the
-- lock can go on, and a worker behind its task can free it, which no other worker executes.
pub Reach-safe :
    (n : ℕ) (s : System)
    → Reach n s
    → ((w : Work) → Ends (λ _. Unit {0}) (tpool_add_work s.pool w))
      × ((j : ℕ)
          → get_elem? s.workers j ≡ some at_lock
          → Ends (λ _. Unit {0}) (worker_region s.pool))
      × ((j t : ℕ)
          → get_elem? s.workers j ≡ some (executing t)
          → Ends (λ _. Unit {0}) (free_task s.pool t) × (count (executes t) s.workers ≡ 1))
Reach-safe n s r =
    let v = Reach-IsSystem r in
    (
      λ w.
          Ends-map (tpool_add_work-IsList s.pool s.submitted (length s.started) v.list w) λ a z. tt,
      λ j g. Ends-map (region-IsSystem s j v g) λ a z. tt,
      λ j t g. (Ends-map (finish-IsSystem s j v t g) λ a z. tt, only j t g v),
    )
  where
    only :
        (j t : ℕ)
        → get_elem? s.workers j ≡ some (executing t)
        → IsSystem s
        → count (executes t) s.workers ≡ 1
    only j t g v =
        let one = count-some (executes t) s.workers j (executing t) g (ground arith) in
        elim (dec_lt t (length s.started)) [
          | no m ↦ absurd (omega (arith, v.unowned t (omega arith)))
          | yes y ↦ go (v.owned t y) one
        ]
      where
        go :
            IsOwned s.pool.tasks s.workers t
            → 1 ≤ count (executes t) s.workers
            → count (executes t) s.workers ≡ 1
        go (inl (c, task, f)) one = c
        go (inr c) one = absurd (omega arith)

-- Workers take the tasks in the order in which they were added, each once: what was taken is the beginning of what was added.
pub Reach-order : (n : ℕ) (s : System) → Reach n s → s.started ≡ take (length s.started) s.submitted
Reach-order n s r = (Reach-IsSystem r).in_order

take-all : (l : List Work) (k : ℕ) → length l ≤ k → take k l ≡ l
take-all [] zero h = refl
take-all [] (suc k) h = refl
take-all (x ∷ l) zero h = absurd (omega arith)
take-all (x ∷ l) (suc k) h = ap (◌∷◌ x) (take-all l k (omega arith))

length-woken : (ws : List Worker) → length (map woken ws) ≡ length ws
length-woken [] = refl
length-woken (w ∷ ws) = ap suc (length-woken ws)

signal-length : (ws ws' : List Worker) → Signals ws ws' → length ws' ≡ length ws
signal-length ws ws' (wakes j g) = length-set ws j at_lock
signal-length ws ws' (nobody n) = refl

Reach-length : {n : ℕ} {s : System} → Reach n s → length s.workers ≡ n
Reach-length {n} start = unfold tpool_init in length-replicate n at_lock
Reach-length (later {s} r (submit {p} {ws} w e g)) = signal-length s.workers ws g ∙ Reach-length r
Reach-length (later {s} r (region {p} {w} j g e)) = length-set s.workers j w ∙ Reach-length r
Reach-length (later {s} r (finish j g e)) = length-set s.workers j at_lock ∙ Reach-length r
Reach-length (later {s} r (spurious j g)) = length-set s.workers j at_lock ∙ Reach-length r
Reach-length (later {s} r stop) = length-woken s.workers ∙ Reach-length r

-- No wake-up is lost: before tpool_shutdown, in a pool with a worker, when no worker is at the lock and none executes a
-- task, every task that was added has been taken.
pub Reach-awake :
    (n : ℕ) (s : System)
    → Reach n s
    → 0 < n
    → s.pool.stop ≡ false
    → ((j : ℕ) → get_elem? s.workers j ≢ some at_lock)
    → ((j t : ℕ) → get_elem? s.workers j ≢ some (executing t))
    → s.started ≡ s.submitted
Reach-awake n s r h e a b =
    let v = Reach-IsSystem r in
    let none_at_lock =
      count-nobody is_at_lock s.workers (λ j w g. elsewhere w (λ f. a j (g ∙ ap some f))) in
    let all = sum_of_counts s.workers b in
    v.in_order
    ∙ take-all s.submitted (length s.started)
        (go v.awake none_at_lock (omega (arith, all, v.running e, none_at_lock, Reach-length r)))
  where
    elsewhere : (w : Worker) → w ≢ at_lock → is_at_lock w ≡ false
    elsewhere at_lock n = absurd (n refl)
    elsewhere waiting n = refl
    elsewhere (executing t) n = refl
    elsewhere exited n = refl

    go :
        (length s.submitted ≤ length s.started + count is_at_lock s.workers)
          ⊎ (count is_waiting s.workers ≡ 0)
        → count is_at_lock s.workers ≡ 0
        → 1 ≤ count is_waiting s.workers
        → length s.submitted ≤ length s.started
    go (inl x) y z = omega arith
    go (inr x) y z = absurd (omega arith)
