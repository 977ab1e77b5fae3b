-- ===== src/Schema/Named.antt =====
-- Lists of named things with different names: searches in them, changed at one index.
use rediskrazy.Base.{
  ℕ, zero, suc, ◌+◌, ◌<◌, ◌≤◌, ◌≡◌, refl, sym, ap, ◌∙◌, Bool, true, false, Option, none, some, List,
  [], ◌∷◌, ◌++◌, ◌==◌, if◌then◌else◌, length, get_elem?, set, bytes_eq, bytes_eq_iff, arith,
  Bool-cases, inl, inr,
}
use rediskrazy.Schema.{Name, find_index, find_named, remove_at}

module _ {A : Type 0} (f : A → Name) where
  -- No two elements have the same name.
  abbrev pub UniqueNames : List A → Type 0
  UniqueNames [] = Unit
  UniqueNames (x ∷ l) = (find_named f (f x) l ≡ none) × UniqueNames l

  pub find_index-get :
      (n : Name) (l : List A)
      → elim (find_index f n l) [ none ↦ none | some i ↦ get_elem? l i ] ≡ find_named f n l
  unfolding find_index find_named
  find_index-get n [] = refl
  find_index-get n (x ∷ l) = ground (arith, find_index-get n l)

  later_index :
      (o : Option ℕ) (b : Bool) (i : ℕ)
      → (if b then some 0 else elim o [ none ↦ none | some i ↦ some (suc i) ]) ≡ some (suc i)
      → (b ≡ false) × (o ≡ some i)
  later_index none true i q = ground arith
  later_index none false i q = cc
  later_index (some j) true i q = ground arith
  later_index (some j) false i q = (refl, ground arith)

  pub find_index-some :
      (n : Name) (l : List A) (i : ℕ)
      → find_index f n l ≡ some i
      → (x : A) × (get_elem? l i ≡ some x) × (f x ≡ n) × (find_named f n l ≡ some x)
  unfolding find_index find_named
  find_index-some n [] i h = cc
  find_index-some n (x ∷ l) zero h = elim (Bool-cases (bytes_eq (f x) n)) [
    | inl y ↦ (x, refl, (bytes_eq_iff (f x) n).0 y, rw y refl)
    | inr z ↦ absurd (elsewhere z (find_index f n l) (ground arith))
  ]
    where
      elsewhere :
          bytes_eq (f x) n ≡ false
          → (o : Option ℕ) → elim o [ none ↦ none | some i ↦ some (suc i) ] ≡ some 0
          → ⊥
      elsewhere z none q = cc
      elsewhere z (some i) q = ground arith
  find_index-some n (x ∷ l) (suc i) h =
      let (differ, deeper) = later_index (find_index f n l) (bytes_eq (f x) n) i h in
      let (y, at, named, found) = find_index-some n l i deeper in (y, at, named, rw differ found)

  pub find_index-none : (n : Name) (l : List A) → find_index f n l ≡ none → find_named f n l ≡ none
  unfolding find_index find_named
  find_index-none n [] h = refl
  find_index-none n (x ∷ l) h = ground (arith, find_index-none n l)

  pub find_named-name : (n : Name) (l : List A) (x : A) → find_named f n l ≡ some x → f x ≡ n
  unfolding find_named
  find_named-name n [] x h = cc
  find_named-name n (y ∷ l) x h = ground (arith, find_named-name n l x, bytes_eq_iff (f y) n)

  -- A new element at the end.
  pub find_named-snoc :
      (n : Name) (l : List A) (x : A)
      → find_named f (f x) l ≡ none
      → find_named f n (l ++ (x ∷ [])) ≡ (if bytes_eq (f x) n then some x else find_named f n l)
  unfolding find_named
  find_named-snoc n [] x h = refl
  find_named-snoc n (y ∷ l) x h = ground (
    arith,
    find_named-snoc n l x,
    bytes_eq_iff (f x) n,
    bytes_eq_iff (f y) n,
    bytes_eq_iff (f y) (f x),
  )

  pub snoc-UniqueNames :
      (l : List A) (x : A)
      → UniqueNames l
      → find_named f (f x) l ≡ none
      → UniqueNames (l ++ (x ∷ []))
  unfolding find_named
  snoc-UniqueNames [] x u h = (refl, tt)
  snoc-UniqueNames (y ∷ l) x (p, u) h = (
    ground (arith, find_named-snoc (f y) l x, bytes_eq_iff (f y) (f x), bytes_eq_iff (f x) (f y)),
    snoc-UniqueNames l x u (ground arith),
  )

  -- The element with a name removed.
  pub find_named-remove_at :
      (n m : Name) (l : List A) (i : ℕ)
      → UniqueNames l
      → find_index f n l ≡ some i
      → find_named f m (remove_at i l) ≡ (if bytes_eq n m then none else find_named f m l)
  unfolding find_index find_named remove_at
  find_named-remove_at n m [] i u h = cc
  find_named-remove_at n m (x ∷ l) zero u h =
      ground (arith, bytes_eq_iff (f x) n, bytes_eq_iff (f x) m, bytes_eq_iff n m)
  find_named-remove_at n m (x ∷ l) (suc i) u h = ground (
    arith,
    find_named-remove_at n m l i u.1,
    bytes_eq_iff (f x) n,
    bytes_eq_iff (f x) m,
    bytes_eq_iff n m,
  )

  pub remove_at-UniqueNames :
      (n : Name) (l : List A) (i : ℕ)
      → UniqueNames l
      → find_index f n l ≡ some i
      → UniqueNames (remove_at i l)
  unfolding find_index remove_at
  remove_at-UniqueNames n [] i u h = cc
  remove_at-UniqueNames n (x ∷ l) zero u h = u.1
  remove_at-UniqueNames n (x ∷ l) (suc i) u h =
      let deeper : find_index f n l ≡ some i = ground arith in
      (
        find_named-remove_at n (f x) l i u.1 deeper ∙ ground (arith, u.0),
        remove_at-UniqueNames n l i u.1 deeper,
      )

  -- The element with a name replaced by one of the same name.
  pub find_named-set :
      (n m : Name) (l : List A) (i : ℕ) (y : A)
      → find_index f n l ≡ some i
      → f y ≡ n
      → find_named f m (set l i y) ≡ (if bytes_eq n m then some y else find_named f m l)
  unfolding find_index find_named
  find_named-set n m [] i y h e = cc
  find_named-set n m (x ∷ l) zero y h e =
      ground
        (arith, bytes_eq_iff (f x) n, bytes_eq_iff (f x) m, bytes_eq_iff n m, bytes_eq_iff (f y) m)
  find_named-set n m (x ∷ l) (suc i) y h e = ground (
    arith,
    find_named-set n m l i y,
    bytes_eq_iff (f x) n,
    bytes_eq_iff (f x) m,
    bytes_eq_iff n m,
  )

  pub set-UniqueNames :
      (n : Name) (l : List A) (i : ℕ) (y : A)
      → UniqueNames l
      → find_index f n l ≡ some i
      → f y ≡ n
      → UniqueNames (set l i y)
  unfolding find_index find_named
  set-UniqueNames n [] i y u h e = cc
  set-UniqueNames n (x ∷ l) zero y u h e = (ground (arith, bytes_eq_iff (f x) n, u.0), u.1)
  set-UniqueNames n (x ∷ l) (suc i) y u h e =
      let deeper : find_index f n l ≡ some i = ground arith in
      (
        find_named-set n (f x) l i y deeper e
            ∙ ground (arith, u.0, bytes_eq_iff (f x) n, bytes_eq_iff n (f x)),
        set-UniqueNames n l i y u.1 deeper e,
      )

  -- One index for a name.
  pub find_named-get :
      (m : Name) (l : List A) (c : ℕ) (x : A)
      → get_elem? l c ≡ some x
      → find_named f m l ≡ none
      → bytes_eq (f x) m ≡ false
  unfolding find_named
  find_named-get m [] c x g h = cc
  find_named-get m (y ∷ l) zero x g h =
      let same : f y ≡ f x = ap (named (f x)) g in ground (arith, same)
    where
      named : Name → Option A → Name
      named d none = d
      named d (some a) = f a
  find_named-get m (y ∷ l) (suc c) x g h = ground (arith, find_named-get m l c x g)

  head_index :
      (o : Option ℕ) (b : Bool)
      → (if b then some 0 else elim o [ none ↦ none | some i ↦ some (suc i) ]) ≡ some 0
      → b ≡ true
  head_index o true q = refl
  head_index none false q = cc
  head_index (some j) false q = ground arith

  pub find_index_unique :
      (n : Name) (l : List A) (i c : ℕ) (x : A)
      → UniqueNames l
      → find_index f n l ≡ some i
      → get_elem? l c ≡ some x
      → bytes_eq (f x) n ≡ (c == i)
  unfolding find_index
  find_index_unique n [] i c x u h g = cc
  find_index_unique n (y ∷ l) zero zero x u h g =
      let same : y ≡ x = ground arith in
      let named : bytes_eq (f y) n ≡ true = head_index (find_index f n l) (bytes_eq (f y) n) h in
      ap (λ z. bytes_eq (f z) n) (sym same) ∙ named
  find_index_unique n (y ∷ l) zero (suc c) x u h g =
      let named : bytes_eq (f y) n ≡ true = head_index (find_index f n l) (bytes_eq (f y) n) h in
      let other = find_named-get (f y) l c x g u.0 in
      ap (bytes_eq (f x)) (sym ((bytes_eq_iff (f y) n).0 named)) ∙ other ∙ ground arith
  find_index_unique n (y ∷ l) (suc i) zero x u h g =
      let same : y ≡ x = ground arith in
      ap (λ z. bytes_eq (f z) n) (sym same)
      ∙ (later_index (find_index f n l) (bytes_eq (f y) n) i h).0
      ∙ ground arith
  find_index_unique n (y ∷ l) (suc i) (suc c) x u h g =
      find_index_unique n l i c x u.1 (later_index (find_index f n l) (bytes_eq (f y) n) i h).1 g
      ∙ ground arith

module _ {A : Type 0} where
  pub get_elem?-remove_before :
      (l : List A) (i c : ℕ) → c < i → get_elem? (remove_at i l) c ≡ get_elem? l c
  unfolding remove_at
  get_elem?-remove_before [] i c h = refl
  get_elem?-remove_before (x ∷ l) zero c h = absurd (omega arith)
  get_elem?-remove_before (x ∷ l) (suc i) zero h = refl
  get_elem?-remove_before (x ∷ l) (suc i) (suc c) h = get_elem?-remove_before l i c (omega arith)

  pub get_elem?-remove_behind :
      (l : List A) (i c : ℕ) → i ≤ c → get_elem? (remove_at i l) c ≡ get_elem? l (suc c)
  unfolding remove_at
  get_elem?-remove_behind [] i c h = refl
  get_elem?-remove_behind (x ∷ l) zero c h = refl
  get_elem?-remove_behind (x ∷ l) (suc i) zero h = absurd (omega arith)
  get_elem?-remove_behind (x ∷ l) (suc i) (suc c) h = get_elem?-remove_behind l i c (omega arith)

  pub length-remove_at : (l : List A) (i : ℕ) → i < length l → length (remove_at i l) + 1 ≡ length l
  unfolding remove_at
  length-remove_at [] i h = absurd (omega arith)
  length-remove_at (x ∷ l) zero h = omega arith
  length-remove_at (x ∷ l) (suc i) h = omega (arith, length-remove_at l i (omega arith))
