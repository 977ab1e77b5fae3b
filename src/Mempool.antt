-- ===== src/Mempool.antt =====
-- backend/mempool.h and mempool.c: the pool of blocks of one size.
-- A block is its chunk and its place in it: malloc gives each chunk memory of its own. The free list is
-- the list of its blocks, and `capacity` the room of the array of chunks. Whether the malloc and the
-- realloc of a growth succeed is an argument; block_size * chunk_size is taken to be below 2 ^ 64.
pub mod Blocks
pub mod Tests
use rediskrazy.Base.{
  ℕ, zero, suc, ◌+◌, ◌-◌, ◌*◌, ◌/◌, ◌%◌, ◌^◌, Bool, true, false, ◌&&◌, not, Option, none, some,
  List, [], ◌∷◌, ltb, leb, ◌==◌, if◌then◌else◌,
}

pub record MemBlock : Type 0 where
  pub chunk : ℕ
  pub place : ℕ

pub record MemPool : Type 0 where
  pub block_size : ℕ
  pub chunk_size : ℕ
  pub free_list : List MemBlock
  pub num_chunks : ℕ
  pub capacity : ℕ
  pub allocated : ℕ
  pub in_use : ℕ

-- What the two allocations of a growth return.
pub record Memory : Type 0 where
  pub chunk_given : Bool
  pub array_given : Bool

-- The loop over the blocks of a chunk, `n` of them from the place `i` on.
unfoldable pub add_blocks : ℕ → ℕ → ℕ → List MemBlock → List MemBlock
add_blocks zero i chunk free_list = free_list
add_blocks (suc n) i chunk free_list =
    add_blocks n (i + 1) chunk (record { chunk = chunk; place = i } ∷ free_list)

abbrev pub with_chunk : MemPool → MemPool
with_chunk pool = record pool {
  num_chunks = (pool.num_chunks + 1) % 2 ^ 64;
  allocated = (pool.allocated + pool.chunk_size) % 2 ^ 64;
  free_list = add_blocks pool.chunk_size 0 pool.num_chunks pool.free_list;
}

unfoldable pub mempool_grow : MemPool → Memory → MemPool
mempool_grow pool memory =
    if not memory.chunk_given
    then pool
    else (if leb pool.capacity pool.num_chunks
        then (if memory.array_given
            then with_chunk (record pool {
              capacity = if pool.capacity == 0 then 4 else pool.capacity * 2 % 2 ^ 64;
            })
            else pool)
        else with_chunk pool)

-- (size + 7) & ~7
unfoldable pub round_size : ℕ → ℕ
round_size size = (size + 7) % 2 ^ 64 - (size + 7) % 2 ^ 64 % 8

unfoldable pub mempool_init : ℕ → ℕ → Memory → MemPool
mempool_init block_size initial_blocks memory =
    let pool : MemPool = record {
      block_size = round_size (if ltb block_size 8 then 8 else block_size);
      chunk_size = if ltb 0 initial_blocks then initial_blocks else 64;
      free_list = [];
      num_chunks = 0;
      capacity = 0;
      allocated = 0;
      in_use = 0;
    } in
    if ltb 0 initial_blocks then mempool_grow pool memory else pool

abbrev pub take_block : MemPool → MemPool × Option MemBlock
take_block pool = elim (pool.free_list) [
  | [] ↦ (pool, none)
  | block ∷ next ↦
      (record pool { free_list = next; in_use = (pool.in_use + 1) % 2 ^ 64 }, some block)
]

unfoldable pub mempool_alloc : MemPool → Memory → MemPool × Option MemBlock
mempool_alloc pool memory = elim (pool.free_list) [
  | [] ↦ take_block (mempool_grow pool memory)
  | _ ∷ _ ↦ take_block pool
]

-- The block is `none` for NULL.
unfoldable pub mempool_free : MemPool → Option MemBlock → MemPool
mempool_free pool none = pool
mempool_free pool (some block) = record pool {
  free_list = block ∷ pool.free_list;
  in_use = (pool.in_use + 2 ^ 64 - 1) % 2 ^ 64;
}

unfoldable pub mempool_destroy : MemPool → MemPool
mempool_destroy pool = record pool {
  free_list = [];
  num_chunks = 0;
  capacity = 0;
  allocated = 0;
  in_use = 0;
}
