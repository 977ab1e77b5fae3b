-- ===== src/Tpool/Count.antt =====
-- Workers counted, and tasks read after a change.
use rediskrazy.Base.{
  ℕ, zero, suc, ◌+◌, ◌<◌, ◌≤◌, ◌≡◌, ◌≢◌, refl, ap, Bool, true, false, Option, none, some, List, [],
  ◌∷◌, ◌++◌, ◌==◌, arith, length, get_elem?, set, replicate, map,
}
use rediskrazy.Tpool.{Task, Worker, at_lock, waiting, executing, exited, load, woken}

abbrev pub one_if : Bool → ℕ
one_if true = 1
one_if false = 0

abbrev pub count : (Worker → Bool) → List Worker → ℕ
count P [] = 0
count P (w ∷ ws) = one_if (P w) + count P ws

abbrev pub is_at_lock : Worker → Bool
is_at_lock at_lock = true
is_at_lock w = false

abbrev pub is_waiting : Worker → Bool
is_waiting waiting = true
is_waiting w = false

abbrev pub is_exited : Worker → Bool
is_exited exited = true
is_exited w = false

-- The worker executes the task t.
abbrev pub executes : ℕ → Worker → Bool
executes t (executing u) = u == t
executes t w = false

-- One worker changes.
pub count-set :
    (P : Worker → Bool) (ws : List Worker) (j : ℕ) (v w : Worker)
    → get_elem? ws j ≡ some v
    → count P (set ws j w) + one_if (P v) ≡ count P ws + one_if (P w)
count-set P [] j v w h = cc
count-set P (x ∷ ws) zero v w h =
    let same : x ≡ v = inner h in omega (arith, ap (λ y. one_if (P y)) same)
  where
    inner : {a b : Worker} → some a ≡ some b → a ≡ b
    inner e = cc
count-set P (x ∷ ws) (suc j) v w h = omega (arith, count-set P ws j v w h)

pub count-replicate :
    (P : Worker → Bool) (n : ℕ) (w : Worker) → P w ≡ false → count P (replicate n w) ≡ 0
count-replicate P zero w h = refl
count-replicate P (suc n) w h = omega (arith, ap one_if h, count-replicate P n w h)

-- A broadcast: nobody waits, and a worker that executes a task goes on.
pub count-woken :
    (P : Worker → Bool) (ws : List Worker)
    → P waiting ≡ P at_lock
    → count P (map woken ws) ≡ count P ws
count-woken P [] h = refl
count-woken P (at_lock ∷ ws) h = omega (arith, count-woken P ws h)
count-woken P (waiting ∷ ws) h = omega (arith, count-woken P ws h, ap one_if h)
count-woken P (executing t ∷ ws) h = omega (arith, count-woken P ws h)
count-woken P (exited ∷ ws) h = omega (arith, count-woken P ws h)

pub nobody-waiting : (ws : List Worker) → count is_waiting (map woken ws) ≡ 0
nobody-waiting [] = refl
nobody-waiting (at_lock ∷ ws) = omega (arith, nobody-waiting ws)
nobody-waiting (waiting ∷ ws) = omega (arith, nobody-waiting ws)
nobody-waiting (executing t ∷ ws) = omega (arith, nobody-waiting ws)
nobody-waiting (exited ∷ ws) = omega (arith, nobody-waiting ws)

-- Where no worker passes the test, none is counted; and one that does is.
pub count-nobody :
    (P : Worker → Bool) (ws : List Worker)
    → ((j : ℕ) (w : Worker) → get_elem? ws j ≡ some w → P w ≡ false)
    → count P ws ≡ 0
count-nobody P [] h = refl
count-nobody P (w ∷ ws) h =
    omega (arith, ap one_if (h 0 w refl), count-nobody P ws (λ j v g. h (suc j) v g))

pub count-some :
    (P : Worker → Bool) (ws : List Worker) (j : ℕ) (w : Worker)
    → get_elem? ws j ≡ some w
    → P w ≡ true
    → 1 ≤ count P ws
count-some P [] j w g h = cc
count-some P (x ∷ ws) zero w g h =
    let same : x ≡ w = inner g in omega (arith, ap (λ y. one_if (P y)) same, ap one_if h)
  where
    inner : {a b : Worker} → some a ≡ some b → a ≡ b
    inner e = cc
count-some P (x ∷ ws) (suc j) w g h = omega (arith, count-some P ws j w g h)

-- Every worker is in one of the four states; with none at the lock and none executing, all wait or have left.
pub sum_of_counts :
    (ws : List Worker)
    → ((j t : ℕ) → get_elem? ws j ≢ some (executing t))
    → count is_at_lock ws + count is_waiting ws + count is_exited ws ≡ length ws
sum_of_counts [] h = refl
sum_of_counts (at_lock ∷ ws) h = omega (arith, sum_of_counts ws (λ j t. h (suc j) t))
sum_of_counts (waiting ∷ ws) h = omega (arith, sum_of_counts ws (λ j t. h (suc j) t))
sum_of_counts (executing t ∷ ws) h = absurd (h 0 t refl)
sum_of_counts (exited ∷ ws) h = omega (arith, sum_of_counts ws (λ j t. h (suc j) t))

pub load-append :
    (tasks more : List (Option Task)) (i : ℕ)
    → i < length tasks
    → load (tasks ++ more) i ≡ load tasks i
unfolding load
load-append [] more i h = absurd (omega arith)
load-append (o ∷ tasks) more zero h = refl
load-append (o ∷ tasks) more (suc i) h = load-append tasks more i (omega arith)

pub load-last :
    (tasks : List (Option Task)) (i : ℕ) (task : Task)
    → i ≡ length tasks
    → load (tasks ++ (some task ∷ [])) i ≡ some task
unfolding load
load-last [] zero task h = refl
load-last [] (suc i) task h = absurd (omega arith)
load-last (o ∷ tasks) zero task h = absurd (omega arith)
load-last (o ∷ tasks) (suc i) task h = load-last tasks i task (omega arith)

pub load-set :
    (tasks : List (Option Task)) (i : ℕ) (o : Option Task)
    → i < length tasks
    → load (set tasks i o) i ≡ o
unfolding load
load-set [] i o h = absurd (omega arith)
load-set (x ∷ tasks) zero o h = go o
  where
    go : (o : Option Task) → load (o ∷ tasks) 0 ≡ o
    go none = refl
    go (some t) = refl
load-set (x ∷ tasks) (suc i) o h = load-set tasks i o (omega arith)

pub load-other :
    (tasks : List (Option Task)) (i j : ℕ) (o : Option Task)
    → i ≢ j
    → load (set tasks j o) i ≡ load tasks i
unfolding load
load-other [] i j o h = refl
load-other (x ∷ tasks) zero zero o h = absurd (h refl)
load-other (x ∷ tasks) zero (suc j) o h = refl
load-other (x ∷ tasks) (suc i) zero o h = refl
load-other (x ∷ tasks) (suc i) (suc j) o h = load-other tasks i j o (λ e. h (omega arith))
