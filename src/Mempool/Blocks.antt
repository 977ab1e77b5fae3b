-- ===== src/Mempool/Blocks.antt =====
-- The pool gives out no block twice, and its counts are those of its blocks.
use rediskrazy.Base.{
  ℕ, zero, suc, ◌+◌, ◌*◌, ◌%◌, ◌^◌, ◌<◌, ◌≡◌, ◌≢◌, ◌↔◌, refl, sym, ap, ◌∙◌, Bool, true, false, not,
  Option, none, some, List, [], ◌∷◌, ◌++◌, leb, ◌==◌, if◌then◌else◌, length, All, All-append,
  append_assoc, arith, ◌⊎◌, inl, inr, subst,
}
use rediskrazy.Mempool.{
  MemBlock, MemPool, Memory, add_blocks, with_chunk, mempool_grow, take_block, mempool_alloc,
  mempool_free,
}

-- No block stands twice.
abbrev pub Distinct : List MemBlock → Type 0
Distinct [] = Unit
Distinct (b ∷ l) = All (λ c. c ≢ b) l × Distinct l

abbrev OfChunks : ℕ → MemBlock → Type 0
OfChunks n b = b.chunk < n

-- The free blocks of the pool and those that its clients hold.
pub record IsPool (pool : MemPool) (held : List MemBlock) : Type 0 where
  pub distinct : Distinct (pool.free_list ++ held)
  pub of_chunks : All (OfChunks pool.num_chunks) (pool.free_list ++ held)
  pub used : pool.in_use ≡ length held
  pub counted : pool.allocated ≡ length (pool.free_list ++ held)

All-out :
    (P : MemBlock → Type 0) (l m : List MemBlock) (b : MemBlock)
    → All P (l ++ (b ∷ m)) ↔ (P b × All P (l ++ m))
All-out P [] m b = (λ h. h, λ h. h)
All-out P (c ∷ l) m b = (
  λ h. let (p, q) = (All-out P l m b).0 h.1 in (p, (h.0, q)),
  λ h. (h.1.0, (All-out P l m b).1 (h.0, h.1.1)),
)

-- A block moved from the middle to the front, and back.
Distinct-out :
    (l m : List MemBlock) (b : MemBlock) → Distinct (l ++ (b ∷ m)) ↔ Distinct (b ∷ (l ++ m))
Distinct-out [] m b = (λ h. h, λ h. h)
Distinct-out (c ∷ l) m b = (
  λ h.
      let (p, q) = (All-out (λ x. x ≢ c) l m b).0 h.0 in
      let (r, s) = (Distinct-out l m b).0 h.1 in (((λ e. p (sym e)), r), (q, s)),
  λ h. (
    (All-out (λ x. x ≢ c) l m b).1 ((λ e. h.0.0 (sym e)), h.1.0),
    (Distinct-out l m b).1 (h.0.1, h.1.1),
  ),
)

length-out : (l m : List MemBlock) (b : MemBlock) → length (l ++ (b ∷ m)) ≡ suc (length (l ++ m))
length-out [] m b = refl
length-out (c ∷ l) m b = ap suc (length-out l m b)

-- The blocks of earlier chunks, or of this one before the place `i`.
abbrev Before : ℕ → ℕ → MemBlock → Type 0
Before n i b = (b.chunk < n) ⊎ ((b.chunk ≡ n) × (b.place < i))

All-weaken :
    (P Q : MemBlock → Type 0) (l : List MemBlock) → ((b : MemBlock) → P b → Q b) → All P l → All Q l
All-weaken P Q [] f a = tt
All-weaken P Q (b ∷ l) f a = (f b a.0, All-weaken P Q l f a.1)

new_block : (n i : ℕ) (b : MemBlock) → Before n i b → b ≢ record { chunk = n; place = i }
new_block n i b (inl h) e = let c = ap (λ x. x.chunk) e in omega arith
new_block n i b (inr h) e = let c = ap (λ x. x.place) e in let d = h.1 in omega arith

add_blocks-Distinct :
    (k i n : ℕ) (l held : List MemBlock)
    → Distinct (l ++ held)
    → All (Before n i) (l ++ held)
    → Distinct (add_blocks k i n l ++ held)
      × All (OfChunks (n + 1)) (add_blocks k i n l ++ held)
      × (length (add_blocks k i n l ++ held) ≡ k + length (l ++ held))
unfolding add_blocks
add_blocks-Distinct zero i n l held d a = (
  d,
  All-weaken (Before n i) (OfChunks (n + 1)) (l ++ held)
      (λ b h. elim h [ inl p ↦ omega arith | inr p ↦ let q = p.0 in omega arith ]) a,
  omega arith,
)
add_blocks-Distinct (suc k) i n l held d a =
    let fresh =
      All-weaken (Before n i) (λ b. b ≢ record { chunk = n; place = i }) (l ++ held) (new_block n i)
        a in
    let older =
      All-weaken (Before n i) (Before n (i + 1)) (l ++ held)
        (λ b h. elim h [ inl p ↦ inl p | inr p ↦ let q = p.1 in inr (p.0, omega arith) ]) a in
    let (x, y, z) =
      add_blocks-Distinct k (i + 1) n (record { chunk = n; place = i } ∷ l) held (fresh, d)
        (inr (refl, omega arith), older) in
    (x, y, omega arith)

with_chunk-IsPool :
    (pool : MemPool) (held : List MemBlock)
    → IsPool pool held
    → pool.allocated + pool.chunk_size < 2 ^ 64
    → pool.num_chunks + 1 < 2 ^ 64
    → IsPool (with_chunk pool) held
with_chunk-IsPool pool held v h h' =
    let older =
      All-weaken (OfChunks pool.num_chunks) (Before pool.num_chunks 0) (pool.free_list ++ held)
        (λ b p. inl p) v.of_chunks in
    let (d, c, n) =
      add_blocks-Distinct pool.chunk_size 0 pool.num_chunks pool.free_list held v.distinct older in
    record {
      distinct = d;
      of_chunks =
          subst
            (λ n.
              All (OfChunks n)
                (add_blocks pool.chunk_size 0 pool.num_chunks pool.free_list ++ held))
            {x = pool.num_chunks + 1} (omega arith) c;
      used = v.used;
      counted = omega (arith, v.counted);
    }

-- A growth adds new blocks to the free ones, or changes nothing where memory is refused.
pub mempool_grow-IsPool :
    (pool : MemPool) (held : List MemBlock) (memory : Memory)
    → IsPool pool held
    → pool.allocated + pool.chunk_size < 2 ^ 64
    → pool.num_chunks + 1 < 2 ^ 64
    → IsPool (mempool_grow pool memory) held
unfolding mempool_grow
mempool_grow-IsPool pool held memory v h h' = either (not memory.chunk_given) v (
    either (leb pool.capacity pool.num_chunks)
      (either memory.array_given
        (with_chunk-IsPool
          (record pool { capacity = if pool.capacity == 0 then 4 else pool.capacity * 2 % 2 ^ 64 })
          held
          (record {
            distinct = v.distinct;
            of_chunks = v.of_chunks;
            used = v.used;
            counted = v.counted;
          })
          h h')
        v)
      (with_chunk-IsPool pool held v h h'))
  where
    either :
        (b : Bool) {p q : MemPool}
        → IsPool p held
        → IsPool q held
        → IsPool (if b then p else q) held
    either true x y = x
    either false x y = y

-- The pool after a call, with the block that a client got, if it got one.
abbrev pub Gives : List MemBlock → MemPool × Option MemBlock → Type 0
Gives held (pool, none) = IsPool pool held
Gives held (pool, some b) = IsPool pool (b ∷ held) × All (λ c. c ≢ b) held

taken_none : (pool : MemPool) → pool.free_list ≡ [] → take_block pool ≡ (pool, none)
taken_none pool e = ground arith

taken_some :
    (pool : MemPool) (b : MemBlock) (l : List MemBlock)
    → pool.free_list ≡ b ∷ l
    → take_block pool ≡ (record pool { free_list = l; in_use = (pool.in_use + 1) % 2 ^ 64 }, some b)
taken_some pool b l e = ground arith

take_block-Gives :
    (pool : MemPool) (l held : List MemBlock)
    → pool.free_list ≡ l
    → IsPool pool held
    → length held + 1 < 2 ^ 64
    → Gives held (take_block pool)
take_block-Gives pool [] held e v h = subst (Gives held) (sym (taken_none pool e)) v
take_block-Gives pool (b ∷ l) held e v h =
    let d : Distinct (b ∷ (l ++ held)) = subst (λ x. Distinct (x ++ held)) e v.distinct in
    let c : All (OfChunks pool.num_chunks) (b ∷ (l ++ held)) =
      subst (λ x. All (OfChunks pool.num_chunks) (x ++ held)) e v.of_chunks in
    subst (Gives held) (sym (taken_some pool b l e)) (
      record {
        distinct = (Distinct-out l held b).1 d;
        of_chunks = (All-out (OfChunks pool.num_chunks) l held b).1 c;
        used = omega (arith, v.used);
        counted = v.counted ∙ ap (λ x. length (x ++ held)) e ∙ sym (length-out l held b);
      },
      ((All-append (λ c. c ≢ b) l held).0 d.0).1,
    )

-- mempool_alloc gives a block that no client holds, or none; the pool stays well-formed, and its counts right.
pub mempool_alloc_correct :
    (pool : MemPool) (held : List MemBlock) (memory : Memory)
    → IsPool pool held
    → pool.allocated + pool.chunk_size < 2 ^ 64
    → pool.num_chunks + 1 < 2 ^ 64
    → length held + 1 < 2 ^ 64
    → Gives held (mempool_alloc pool memory)
unfolding mempool_alloc
mempool_alloc_correct pool held memory v h h' s = go pool.free_list refl
  where
    go :
        (l : List MemBlock)
        → pool.free_list ≡ l
        → Gives held
            (elim l [ [] ↦ take_block (mempool_grow pool memory) | _ ∷ _ ↦ take_block pool ])
    go [] e =
        take_block-Gives (mempool_grow pool memory) (mempool_grow pool memory).free_list held refl
          (mempool_grow-IsPool pool held memory v h h') s
    go (b ∷ l) e = take_block-Gives pool (b ∷ l) held e v s

-- mempool_free of a block that a client holds gives it back, and the pool stays well-formed.
pub mempool_free_correct :
    (pool : MemPool) (before after : List MemBlock) (b : MemBlock)
    → IsPool pool (before ++ (b ∷ after))
    → length (before ++ (b ∷ after)) < 2 ^ 64
    → IsPool (mempool_free pool (some b)) (before ++ after)
unfolding mempool_free
mempool_free_correct pool before after b v s =
    let flat = sym (append_assoc pool.free_list before (b ∷ after)) in
    let flat' = append_assoc pool.free_list before after in
    let d : Distinct (b ∷ ((pool.free_list ++ before) ++ after)) =
      (Distinct-out (pool.free_list ++ before) after b).0 (subst Distinct flat v.distinct) in
    let c : All (OfChunks pool.num_chunks) (b ∷ ((pool.free_list ++ before) ++ after)) =
      (All-out (OfChunks pool.num_chunks) (pool.free_list ++ before) after b).0
        (subst (All (OfChunks pool.num_chunks)) flat v.of_chunks) in
    record {
      distinct = subst (λ l. Distinct (b ∷ l)) flat' d;
      of_chunks = subst (λ l. All (OfChunks pool.num_chunks) (b ∷ l)) flat' c;
      used = omega (arith, v.used, length-out before after b);
      counted =
          v.counted
          ∙ ap length flat
          ∙ length-out (pool.free_list ++ before) after b
          ∙ ap (λ l. suc (length l)) flat';
    }
