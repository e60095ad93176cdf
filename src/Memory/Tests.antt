-- ===== src/Memory/Tests.antt =====
-- Runs of the allocator of src/Allocator.cpp.
use cbuf.Base.{◌≡◌, refl, none, some, [], ◌∷◌, ◌++◌, arith}
use cbuf.Memory.Pool.{new_pool, new_block_size, pool_alloc, pool_allocs}
use cbuf.Memory.Overlap.{sum, addresses, pool_allocs-overlap}

-- A pool of one megabyte: the third allocation is put where the first one is.
pool_allocs-overlap_example :
    (pool_allocs ((500000 ∷ 400000 ∷ []) ++ (300000 ∷ [])) 9000000 (new_pool 1 4096)).0
    ≡ addresses 4096 (500000 ∷ 400000 ∷ []) ++ (some 4096 ∷ [])
unfolding new_block_size sum
pool_allocs-overlap_example =
    pool_allocs-overlap 1 4096 9000000 (500000 ∷ 400000 ∷ []) 300000 (omega arith) (omega arith)
      (omega arith)

three_addresses :
    (pool_allocs (500000 ∷ 400000 ∷ 300000 ∷ []) 9000000 (new_pool 1 4096)).0
    ≡ some 4096 ∷ some 504096 ∷ some 4096 ∷ []
unfolding pool_allocs new_pool
three_addresses = refl

too_large : (pool_alloc 2000000 9000000 (new_pool 1 4096)).0 ≡ none
unfolding pool_alloc new_pool
too_large = refl
