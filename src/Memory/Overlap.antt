-- ===== src/Memory/Overlap.antt =====
-- Where `PoolAllocator::alloc` of src/Allocator.cpp puts things, up to the first new block.
use cbuf.Base.{
  ℕ, ◌+◌, ◌-◌, ◌≤◌, ◌<◌, ◌≡◌, sym, ap, ap₂, ◌∙◌, Bool, true, false, leb, ltb-eq-false, Option, none,
  some, List, [], ◌∷◌, ◌++◌, arith, if◌then◌else◌,
}
use cbuf.Memory.Pool.{
  Block, PoolAllocator, allocate_block, new_block_size, new_pool, allocate_from_block, first_fit,
  from_new_block, pool_alloc, pool_allocs,
}

leb-eq-true : (a b : ℕ) → a ≤ b → leb a b ≡ true
leb-eq-true a b h = ground arith

leb-eq-false : (a b : ℕ) → b < a → leb a b ≡ false
leb-eq-false a b h = ground arith

unfoldable pub sum : List ℕ → ℕ
sum [] = 0
sum (n ∷ sizes) = n + sum sizes

-- Addresses one behind the other
unfoldable pub addresses : ℕ → List ℕ → List (Option ℕ)
addresses a [] = []
addresses a (n ∷ sizes) = some a ∷ addresses (a + n) sizes

module _ (size_of_block start second : ℕ) where
  -- A pool with one block, of which `k` bytes are used
  abbrev used : ℕ → PoolAllocator
  used k = record {
    root_block = record {
      free_size = size_of_block - k;
      start_address = start;
      free_address = start + k;
    };
    blocks = [];
    total_size = size_of_block;
    block_size = size_of_block;
  }

  alloc_fits :
      (k size : ℕ)
      → k + size ≤ size_of_block
      → pool_alloc size second (used k) ≡ (some (start + k), used (k + size))
  unfolding pool_alloc allocate_from_block
  alloc_fits k size h =
      ap₂
        (λ (big : Bool) (fits : Bool).
          if big
          then (none, used k)
          else elim (if◌then◌else◌ {A = Option (ℕ × Block)} fits
                (some (
                  start + k,
                  record {
                    free_size = size_of_block - k - size;
                    start_address = start;
                    free_address = start + k + size;
                  },
                ))
                none)
              as (λ _. Option ℕ × PoolAllocator) [
                | some (p, b) ↦ (some p, record (used k) { root_block = b })
                | none ↦ elim (first_fit size []) as (λ _. Option ℕ × PoolAllocator) [
                  | some (p, blocks) ↦ (some p, record (used k) { blocks = blocks })
                  | none ↦ from_new_block size second (used k)
                ]
              ])
        (ltb-eq-false size_of_block size (omega arith))
        (leb-eq-true size (size_of_block - k) (omega arith))
      ∙ ap₂
          (λ (a : ℕ) (free : ℕ). (
            some (start + k),
            record (used k) {
              root_block = record { free_size = free; start_address = start; free_address = a };
            },
          ))
          (omega arith) (omega arith)

  alloc_starts_again :
      (k size : ℕ)
      → k ≤ size_of_block
      → size ≤ size_of_block
      → size_of_block < k + size
      → (pool_alloc size second (used k)).0 ≡ some start
  unfolding pool_alloc allocate_from_block first_fit from_new_block
  alloc_starts_again k size j h l = ground arith

  allocs_fit :
      (k : ℕ) (sizes : List ℕ) (size : ℕ)
      → k + sum sizes ≤ size_of_block
      → size ≤ size_of_block
      → size_of_block < k + sum sizes + size
      → (pool_allocs (sizes ++ (size ∷ [])) second (used k)).0
        ≡ addresses (start + k) sizes ++ (some start ∷ [])
  unfolding pool_allocs sum addresses
  allocs_fit k [] size h l m =
      ap (λ p. p ∷ []) (alloc_starts_again k size (omega arith) l (omega arith))
  allocs_fit k (n ∷ sizes) size h l m =
      ap (λ (r : Option ℕ × PoolAllocator). r.0 ∷ (pool_allocs (sizes ++ (size ∷ [])) second r.1).0)
        (alloc_fits k n (omega arith))
      ∙ ap (λ ps. some (start + k) ∷ ps)
          (allocs_fit (k + n) sizes size (omega arith) l (omega arith)
            ∙ ap (λ a. addresses a sizes ++ (some start ∷ [])) (add_assoc start k n))
    where
      add_assoc : (a b c : ℕ) → a + (b + c) ≡ a + b + c
      add_assoc a b c = omega arith

add_zero : (n : ℕ) → n + 0 ≡ n
add_zero n = omega arith

unused :
    (size_of_block start second : ℕ)
    → record {
      root_block = allocate_block size_of_block start start;
      blocks = [];
      total_size = size_of_block;
      block_size = size_of_block;
    }
      ≡ used size_of_block start second 0
unused size_of_block start second =
    ap₂
      (λ (free : ℕ) (a : ℕ). record {
        root_block = record { free_size = free; start_address = start; free_address = a };
        blocks = [];
        total_size = size_of_block;
        block_size = size_of_block;
      })
      (omega arith) (sym (add_zero start))

-- A pool whose block is at `start` puts what it allocates one behind the other, as long as all of it fits
-- into the block. The first allocation that does not fit any more, though not larger than a block, is put
-- at `start` again, where the first one is, and not into the new block `second`.
pub pool_allocs-overlap :
    (start_size start second : ℕ) (sizes : List ℕ) (size : ℕ)
    → sum sizes ≤ new_block_size start_size
    → size ≤ new_block_size start_size
    → new_block_size start_size < sum sizes + size
    → (pool_allocs (sizes ++ (size ∷ [])) second (new_pool start_size start)).0
      ≡ addresses start sizes ++ (some start ∷ [])
unfolding new_pool
pool_allocs-overlap start_size start second sizes size h l m =
    ap (λ pool. (pool_allocs (sizes ++ (size ∷ [])) second pool).0)
      (unused (new_block_size start_size) start second)
    ∙ allocs_fit (new_block_size start_size) start second 0 sizes size (omega arith) l (omega arith)
    ∙ ap (λ a. addresses a sizes ++ (some start ∷ [])) (add_zero start)
