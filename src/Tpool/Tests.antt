-- ===== src/Tpool/Tests.antt =====
-- A run of a pool with one worker, and the theorems about it.
use rediskrazy.Base.{
  ℕ, ◌≡◌, refl, false, none, some, [], ◌∷◌, arith, length, get_elem?, take, Ends, zero, suc,
}
use rediskrazy.Tpool.{
  Work, System, at_lock, waiting, executing, load, tpool_add_work, take_task, worker_region,
  free_task, tpool_init, nobody, submit, region, finish, Reach, start, later,
}
use rediskrazy.Tpool.Count.{count, executes}
use rediskrazy.Tpool.Order.{Reach-safe, Reach-order, Reach-awake}

abbrev work : Work
work = (1, 2)

-- The worker executes the task that was added.
abbrev busy : System
busy = record {
  pool = record {
    tasks = some (record { work = work; next = none }) ∷ [];
    head = none;
    tail = none;
    stop = false;
  };
  workers = executing 0 ∷ [];
  submitted = work ∷ [];
  started = work ∷ [];
}

-- It waits, behind its task.
abbrev idle : System
idle = record {
  pool = record { tasks = none ∷ []; head = none; tail = none; stop = false };
  workers = waiting ∷ [];
  submitted = work ∷ [];
  started = work ∷ [];
}

busy-Reach : Reach 1 busy
unfolding tpool_init tpool_add_work worker_region take_task load
busy-Reach =
    later (later start (submit work refl (nobody (λ j e. unused j e)))) (region 0 refl refl)
  where
    unused : (j : ℕ) → get_elem? (at_lock ∷ []) j ≡ some waiting → ⊥
    unused zero e = cc
    unused (suc j) e = cc

idle-Reach : Reach 1 idle
unfolding free_task worker_region load
idle-Reach = later (later busy-Reach (finish 0 refl refl)) (region 0 refl refl)

Reach-safe_example :
    ((w : Work) → Ends (λ _. Unit {0}) (tpool_add_work busy.pool w))
    × ((j : ℕ)
        → get_elem? busy.workers j ≡ some at_lock
        → Ends (λ _. Unit {0}) (worker_region busy.pool))
    × ((j t : ℕ)
        → get_elem? busy.workers j ≡ some (executing t)
        → Ends (λ _. Unit {0}) (free_task busy.pool t) × (count (executes t) busy.workers ≡ 1))
Reach-safe_example = Reach-safe 1 busy busy-Reach

Reach-order_example : busy.started ≡ take (length busy.started) busy.submitted
Reach-order_example = Reach-order 1 busy busy-Reach

Reach-awake_example : idle.started ≡ idle.submitted
Reach-awake_example = Reach-awake 1 idle idle-Reach (omega arith) refl not_at_lock not_executing
  where
    not_at_lock : (j : ℕ) → get_elem? (waiting ∷ []) j ≡ some at_lock → ⊥
    not_at_lock zero e = cc
    not_at_lock (suc j) e = cc

    not_executing : (j t : ℕ) → get_elem? (waiting ∷ []) j ≡ some (executing t) → ⊥
    not_executing zero t e = cc
    not_executing (suc j) t e = cc
