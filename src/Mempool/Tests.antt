-- ===== src/Mempool/Tests.antt =====
-- The theorems on the pool at concrete inputs.
use rediskrazy.Base.{◌≢◌, refl, ap, true, some, [], ◌∷◌, ◌++◌, arith}
use rediskrazy.Mempool.{MemBlock, MemPool, Memory, mempool_alloc, mempool_free}
use rediskrazy.Mempool.Blocks.{IsPool, Gives, mempool_alloc_correct, mempool_free_correct}

abbrev block_0 : MemBlock
block_0 = record { chunk = 0; place = 0 }

abbrev block_1 : MemBlock
block_1 = record { chunk = 0; place = 1 }

abbrev given : Memory
given = record { chunk_given = true; array_given = true }

-- Of two blocks the second is free.
abbrev pool_2 : MemPool
pool_2 = record {
  block_size = 8;
  chunk_size = 2;
  free_list = block_1 ∷ [];
  num_chunks = 1;
  capacity = 4;
  allocated = 2;
  in_use = 1;
}

place_differs : block_0 ≢ block_1
place_differs e = let h = ap (λ b. b.place) e in omega arith

pool_2-IsPool : IsPool pool_2 (block_0 ∷ [])
pool_2-IsPool = record {
  distinct = ((place_differs, tt), (tt, tt));
  of_chunks = (omega arith, (omega arith, tt));
  used = refl;
  counted = refl;
}

mempool_alloc_correct_example : Gives (block_0 ∷ []) (mempool_alloc pool_2 given)
mempool_alloc_correct_example =
    mempool_alloc_correct pool_2 (block_0 ∷ []) given pool_2-IsPool (omega arith) (omega arith)
      (omega arith)

mempool_free_correct_example : IsPool (mempool_free pool_2 (some block_0)) ([] ++ [])
mempool_free_correct_example = mempool_free_correct pool_2 [] [] block_0 pool_2-IsPool (omega arith)
