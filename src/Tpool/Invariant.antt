-- ===== src/Tpool/Invariant.antt =====
-- The list of waiting tasks: what its operations do to it.
use rediskrazy.Base.{
  ℕ, suc, ◌+◌, ◌-◌, ◌<◌, ◌≤◌, ◌≡◌, ◌≢◌, refl, sym, ap, ◌∙◌, Option, none, some, List, [], ◌∷◌, ◌++◌,
  ltb, arith, if◌then◌else◌, length, get_elem?, set, length-append, length-set, Ends, ends, dec_lt,
  get_elem?-append_left, get_elem?-append_right,
}
use rediskrazy.Tpool.{Work, Task, Pool, load, tpool_add_work, take_task, free_task}
use rediskrazy.Tpool.Count.{load-append, load-last, load-set, load-other}

-- The successor of the task i in a list that ends before n.
abbrev pub next_of : ℕ → ℕ → Option ℕ
next_of n i = if ltb (i + 1) n then some (i + 1) else none

-- The list holds the tasks from k on, in the order in which they were given.
pub record IsList (p : Pool) (submitted : List Work) (k : ℕ) : Type 0 where
  pub size : length p.tasks ≡ length submitted
  pub some_left : k ≤ length submitted
  pub head : p.head ≡ (if ltb k (length submitted) then some k else none)
  pub tail : p.tail ≡ (if ltb k (length submitted) then some (length submitted - 1) else none)
  pub listed :
      (i : ℕ)
      → k ≤ i
      → i < length submitted
      → (w : Work) × (get_elem? submitted i ≡ some w)
        × (load p.tasks i ≡ some (record { work = w; next = next_of (length submitted) i }))

module _ (p : Pool) (submitted : List Work) (k : ℕ) (l : IsList p submitted k) where
  pub head-some : k < length submitted → p.head ≡ some k
  head-some h = l.head ∙ ground arith

  pub head-none : length submitted ≤ k → p.head ≡ none
  head-none h = l.head ∙ ground arith

  -- A task is freed that was taken before.
  pub free_task-IsList :
      (t : ℕ) (task : Task)
      → t < k
      → load p.tasks t ≡ some task
      → Ends
          (λ p'.
            IsList p' submitted k
            × (p'.stop ≡ p.stop)
            × (load p'.tasks t ≡ none)
            × ((i : ℕ) → i ≢ t → load p'.tasks i ≡ load p.tasks i))
          (free_task p t)
  unfolding free_task
  free_task-IsList t task h e = rw e (
      ends (
        record {
          size = length-set p.tasks t none ∙ l.size;
          some_left = l.some_left;
          head = l.head;
          tail = l.tail;
          listed = λ i a b.
              let (w, x, y) = l.listed i a b in
              (w, x, load-other p.tasks i t none (λ e. omega arith) ∙ y);
        },
        refl,
        load-set p.tasks t none (omega (arith, l.size, l.some_left)),
        λ i n. load-other p.tasks i t none n,
      ))

  -- The first task is taken.
  pub take_task-IsList :
      k < length submitted
      → (w : Work) × (get_elem? submitted k ≡ some w)
        × (load p.tasks k ≡ some (record { work = w; next = next_of (length submitted) k }))
        × Ends
            (λ p'. IsList p' submitted (suc k) × (p'.stop ≡ p.stop) × (p'.tasks ≡ p.tasks))
            (take_task p k)
  unfolding take_task
  take_task-IsList h =
      let (w, x, y) = l.listed k (omega arith) h in
      (
        w,
        x,
        y,
        rw y (
            ends (
              record {
                size = l.size;
                some_left = omega arith;
                head = ground arith;
                tail = ground (arith, l.tail);
                listed = λ i a b. l.listed i (omega arith) b;
              },
              refl,
              refl,
            )),
      )

  -- What tpool_add_work does where the list is empty.
  add_first :
      (w : Work)
      → length submitted ≤ k
      → tpool_add_work p w
        ≡ some (record p {
          tasks = p.tasks ++ (some (record { work = w; next = none }) ∷ []);
          head = some (length p.tasks);
          tail = some (length p.tasks);
        })
  unfolding tpool_add_work
  add_first w h =
      let empty : p.tail ≡ none = l.tail ∙ ground arith in rw (tpool_add_work, empty) refl

  -- What it does where the list ends with the task `last`.
  add_behind :
      (w v : Work)
      → k < length submitted
      → load p.tasks (length submitted - 1) ≡ some (record { work = v; next = none })
      → tpool_add_work p w
        ≡ some (record p {
          tasks =
              set
                (p.tasks ++ (some (record { work = w; next = none }) ∷ []))
                (length submitted - 1)
                (some (record { work = v; next = some (length p.tasks) }));
          tail = some (length p.tasks);
        })
  unfolding tpool_add_work
  add_behind w v h e =
      let full : p.tail ≡ some (length submitted - 1) = l.tail ∙ ground arith in
      let found =
        load-append p.tasks (some (record { work = w; next = none }) ∷ []) (length submitted - 1)
          (omega (arith, l.size))
        ∙ e in
      rw (tpool_add_work, full, found) refl

  abbrev pub Added : Work → Pool → Type 0
  Added w p' =
      IsList p' (submitted ++ (w ∷ [])) k
      × (p'.stop ≡ p.stop)
      × ((i : ℕ) → i < k → load p'.tasks i ≡ load p.tasks i)

  more : (w : Work) → length (submitted ++ (w ∷ [])) ≡ length submitted + 1
  more w = omega (arith, length-append submitted (w ∷ []))

  new_work : (w : Work) → get_elem? (submitted ++ (w ∷ [])) (length submitted) ≡ some w
  new_work w = get_elem?-append_right submitted (w ∷ []) (length submitted) 0 (omega arith)

  old_work :
      (w v : Work) (i : ℕ)
      → i < length submitted
      → get_elem? submitted i ≡ some v
      → get_elem? (submitted ++ (w ∷ [])) i ≡ some v
  old_work w v i h e = get_elem?-append_left submitted (w ∷ []) i h ∙ e

  last_of : (n i : ℕ) → n ≤ i + 1 → none ≡ next_of n i
  last_of n i h = ground arith

  before_last : (n i : ℕ) → i + 1 < n → some (i + 1) ≡ next_of n i
  before_last n i h = ground arith

  abbrev Listed : Work → List (Option Task) → ℕ → Type 0
  Listed w tasks i =
      (v : Work) × (get_elem? (submitted ++ (w ∷ [])) i ≡ some v)
      × (load tasks i
          ≡ some (record { work = v; next = next_of (length (submitted ++ (w ∷ []))) i }))

  -- The new task, behind the others.
  Listed-new :
      (w : Work) (tasks : List (Option Task)) (i : ℕ)
      → i ≡ length submitted
      → load tasks i ≡ some (record { work = w; next = none })
      → Listed w tasks i
  Listed-new w tasks i e f = (
    w,
    ap (get_elem? (submitted ++ (w ∷ []))) e ∙ new_work w,
    f
        ∙ ap (λ o. some (record { work = w; next = o }))
            (last_of (length (submitted ++ (w ∷ []))) i (omega (arith, more w))),
  )

  -- The tasks, when the new one is behind the last, whose work is `v`.
  abbrev linked : Work → Work → List (Option Task)
  linked w v =
      set (p.tasks ++ (some (record { work = w; next = none }) ∷ [])) (length submitted - 1)
        (some (record { work = v; next = some (length p.tasks) }))

  Listed-linked :
      (w v : Work) (i : ℕ)
      → k < length submitted
      → get_elem? submitted (length submitted - 1) ≡ some v
      → k ≤ i
      → i < length submitted + 1
      → Listed w (linked w v) i
  Listed-linked w v i y g a b = elim (dec_lt (i + 1) (length submitted)) [
    | yes before ↦
        let (u, x, z) = l.listed i a (omega arith) in
        (
          u,
          old_work w u i (omega arith) x,
          load-other _ i (length submitted - 1) _ (λ e. omega arith)
              ∙ load-append p.tasks _ i (omega (arith, l.size))
              ∙ z
              ∙ ap (λ o. some (record { work = u; next = o }))
                  (sym (before_last (length submitted) i before)
                    ∙ before_last (length (submitted ++ (w ∷ []))) i (omega (arith, more w))),
        )
    | no n ↦ elim (dec_lt i (length submitted)) [
      | yes last ↦
          let here : i ≡ length submitted - 1 = omega arith in
          (
            v,
            old_work w v i last (ap (get_elem? submitted) here ∙ g),
            ap (load _) here
                ∙ load-set _ (length submitted - 1) _ (
                    omega (
                      arith,
                      length-append p.tasks (some (record { work = w; next = none }) ∷ []),
                      l.size,
                    ))
                ∙ ap (λ o. some (record { work = v; next = o }))
                    (ap some {y = i + 1} (omega (arith, l.size))
                      ∙ before_last (length (submitted ++ (w ∷ []))) i (omega (arith, more w))),
          )
      | no m ↦ Listed-new w _ i (omega arith) (
          load-other _ i (length submitted - 1) _ (λ e. omega arith)
          ∙ load-last p.tasks i (record { work = w; next = none }) (omega (arith, l.size)))
    ]
  ]

  -- A task is added at the end.
  pub tpool_add_work-IsList : (w : Work) → Ends (Added w) (tpool_add_work p w)
  tpool_add_work-IsList w = elim (dec_lt k (length submitted)) [
    | no n ↦ rw (add_first w (omega arith)) (
        ends (
          record {
            size = omega (
              arith,
              length-append p.tasks (some (record { work = w; next = none }) ∷ []),
              l.size,
              more w,
            );
            some_left = omega (arith, more w, l.some_left);
            head = ground (arith, more w, l.size, l.some_left);
            tail = ground (arith, more w, l.size, l.some_left);
            listed = λ i a b. Listed-new w _ i (omega (arith, more w)) (
                load-last p.tasks i (record { work = w; next = none })
                  (omega (arith, l.size, more w)));
          },
          refl,
          λ i h. load-append p.tasks _ i (omega (arith, l.size, l.some_left)),
        ))
    | yes y ↦
        let (v, g, e) = l.listed (length submitted - 1) (omega arith) (omega arith) in
        let last =
          e
          ∙ ap (λ o. some (record { work = v; next = o }))
              (sym (last_of (length submitted) (length submitted - 1) (omega arith))) in
        rw (add_behind w v y last) (
          ends (
            record {
              size =
                  length-set _ (length submitted - 1) _
                  ∙ omega (
                    arith,
                    length-append p.tasks (some (record { work = w; next = none }) ∷ []),
                    l.size,
                    more w,
                  );
              some_left = omega (arith, more w, l.some_left);
              head = l.head ∙ ground (arith, more w);
              tail = ground (arith, more w, l.size);
              listed = λ i a b. Listed-linked w v i y g a (omega (arith, more w));
            },
            refl,
            λ i h.
                load-other _ i (length submitted - 1) _ (λ e. omega arith)
                ∙ load-append p.tasks _ i (omega (arith, l.size)),
          ))
  ]
