-- ===== src/Tpool.antt =====
-- backend/tpool.h and tpool.c: the thread pool, as steps of its threads in any order.
-- A region under the lock is one step, and so is the wait on the condition, which gives the lock up. A
-- function pointer and an argument are addresses. `tasks` is what malloc returned, in order: a task_t * is its
-- index, and a freed one is `none`. `none` as a result is an access to a task that is freed, or to none.
pub mod Count
pub mod Invariant
pub mod Steps
pub mod Region
pub mod Order
pub mod Tests
use rediskrazy.Base.{
  ◌>>=◌, ℕ, zero, suc, ◌≡◌, Bool, true, false, ◌&&◌, not, Option, none, some, List, [], ◌∷◌, ◌++◌,
  length, get_elem?, set, replicate, map, if◌then◌else◌,
}

-- A function and its argument.
abbrev pub Work : Type 0
Work = ℕ × ℕ

pub record Task : Type 0 where
  pub work : Work
  pub next : Option ℕ

-- The list of waiting tasks and the flag of the pool.
pub record Pool : Type 0 where
  pub tasks : List (Option Task)
  pub head : Option ℕ
  pub tail : Option ℕ
  pub stop : Bool

-- A read through the pointer.
unfoldable pub load : List (Option Task) → ℕ → Option Task
load tasks t = elim (get_elem? tasks t) [ none ↦ none | some o ↦ o ]

-- The region of tpool_add_work.
unfoldable pub tpool_add_work : Pool → Work → Option Pool
tpool_add_work p w =
    let t : ℕ = length p.tasks in
    let tasks : List (Option Task) = p.tasks ++ (some (record { work = w; next = none }) ∷ []) in
    elim (p.tail) [
      | none ↦ some (record p { tasks = tasks; head = some t; tail = some t })
      | some l ↦ load tasks l >>= λ last.
          some
            (record p { tasks = set tasks l (some (record last { next = some t })); tail = some t })
    ]

-- A worker is about to take the lock, waits on the condition, executes a task, or has left its loop.
pub data Worker : Type 0 where
  at_lock waiting : Worker
  executing : ℕ → Worker
  exited : Worker

abbrev pub is_none : {A : Type 0} → Option A → Bool
is_none none = true
is_none (some a) = false

-- The first task is taken off the list.
unfoldable pub take_task : Pool → ℕ → Option Pool
take_task p t = load p.tasks t >>= λ task.
    some (record p { head = task.next; tail = if is_none task.next then none else p.tail })

-- The region of a worker that holds the lock: it waits, leaves, or takes the first task.
unfoldable pub worker_region : Pool → Option (Pool × Worker)
worker_region p = elim (p.head) [
  | none ↦ elim (p.stop) [ false ↦ some (p, waiting) | true ↦ some (p, exited) ]
  | some t ↦ take_task p t >>= λ p'. some (p', executing t)
]

-- free(t), behind the call of its function.
unfoldable pub free_task : Pool → ℕ → Option Pool
free_task p t = load p.tasks t >>= λ task. some (record p { tasks = set p.tasks t none })

-- pthread_cond_broadcast
abbrev pub woken : Worker → Worker
woken waiting = at_lock
woken w = w

-- `submitted` and `started` record what was given to tpool_add_work, and what workers took, in order.
pub record System : Type 0 where
  pub pool : Pool
  pub workers : List Worker
  pub submitted : List Work
  pub started : List Work

-- tpool_init
unfoldable pub tpool_init : ℕ → System
tpool_init num_threads = record {
  pool = record { tasks = []; head = none; tail = none; stop = false };
  workers = replicate num_threads at_lock;
  submitted = [];
  started = [];
}

-- pthread_cond_signal wakes a worker that waits, if there is one.
pub data Signals (ws : List Worker) : List Worker → Type 0 where
  wakes : (j : ℕ) → get_elem? ws j ≡ some waiting → Signals ws (set ws j at_lock)
  nobody : ((j : ℕ) → get_elem? ws j ≡ some waiting → ⊥) → Signals ws ws

-- What the task that a worker takes adds to the record of what was taken.
abbrev pub taken : Pool → Worker → List Work
taken p (executing t) = elim (load p.tasks t) [ none ↦ [] | some task ↦ task.work ∷ [] ]
taken p w = []

pub data Step (s : System) : System → Type 0 where
  submit :
      {p : Pool} {ws : List Worker} (w : Work)
      → tpool_add_work s.pool w ≡ some p
      → Signals s.workers ws
      → Step s (record s { pool = p; workers = ws; submitted = s.submitted ++ (w ∷ []) })
  region :
      {p : Pool} {w : Worker} (j : ℕ)
      → get_elem? s.workers j ≡ some at_lock
      → worker_region s.pool ≡ some (p, w)
      → Step s (record s {
        pool = p;
        workers = set s.workers j w;
        started = s.started ++ taken s.pool w;
      })
  finish :
      {p : Pool} (j : ℕ) {t : ℕ}
      → get_elem? s.workers j ≡ some (executing t)
      → free_task s.pool t ≡ some p
      → Step s (record s { pool = p; workers = set s.workers j at_lock })
  -- A wait may end without a signal.
  spurious :
      (j : ℕ)
      → get_elem? s.workers j ≡ some waiting
      → Step s (record s { workers = set s.workers j at_lock })
  -- The region of tpool_shutdown.
  stop : Step s (record s { pool = record (s.pool) { stop = true }; workers = map woken s.workers })

-- The systems that the pool can get to.
pub data Reach (num_threads : ℕ) : System → Type 0 where
  start : Reach num_threads (tpool_init num_threads)
  later : {s s' : System} → Reach num_threads s → Step s s' → Reach num_threads s'
