-- ===== src/Memory/Pool.antt =====
-- `PoolAllocator` of src/Allocator.cpp. An address is a number; where `malloc` puts a new block is an
-- argument.
use cbuf.Base.{
  ℕ, ◌+◌, ◌-◌, ◌*◌, ◌/◌, ltb, leb, ◌==◌, Option, none, some, List, [], ◌∷◌, if◌then◌else◌,
}

pub record Block : Type 0 where
  pub free_size : ℕ
  pub start_address : ℕ
  pub free_address : ℕ

-- `root_block`, and the blocks behind it
pub record PoolAllocator : Type 0 where
  pub root_block : Block
  pub blocks : List Block
  pub total_size : ℕ
  pub block_size : ℕ

abbrev pub megabyte : ℕ
megabyte = 1024 * 1024

-- `allocateBlock`, where `malloc` has returned `start`; its free memory starts at the root's.
abbrev pub allocate_block : ℕ → ℕ → ℕ → Block
allocate_block block_size start root_start = record {
  free_size = block_size;
  start_address = start;
  free_address = root_start;
}

-- The constructor
unfoldable pub new_block_size : ℕ → ℕ
new_block_size start_size =
    if start_size == 0
    then 64 * megabyte
    else if ltb megabyte (start_size / 1024 * 1024)
    then start_size / 1024 * 1024
    else megabyte

unfoldable pub new_pool : ℕ → ℕ → PoolAllocator
unfolding new_block_size
new_pool start_size start = record {
  root_block = allocate_block (new_block_size start_size) start start;
  blocks = [];
  total_size = new_block_size start_size;
  block_size = new_block_size start_size;
}

-- `allocateFromBlock`
unfoldable pub allocate_from_block : ℕ → Block → Option (ℕ × Block)
allocate_from_block size b =
    if leb size b.free_size
    then some (
      b.free_address,
      record b { free_address = b.free_address + size; free_size = b.free_size - size },
    )
    else none

-- The loop over the blocks: the first with enough space
unfoldable pub first_fit : ℕ → List Block → Option (ℕ × List Block)
unfolding allocate_from_block
first_fit size [] = none
first_fit size (b ∷ blocks) =
    let rest = first_fit size blocks in
    elim (allocate_from_block size b) as (λ _. Option (ℕ × List Block)) [
      | some (p, b') ↦ some (p, b' ∷ blocks)
      | none ↦ elim rest as (λ _. Option (ℕ × List Block)) [
        | none ↦ none
        | some (p, blocks') ↦ some (p, b ∷ blocks')
      ]
    ]

-- A new block behind the root, and the memory from it
unfoldable pub from_new_block : ℕ → ℕ → PoolAllocator → Option ℕ × PoolAllocator
unfolding allocate_from_block
from_new_block size start pool =
    let b = allocate_block pool.block_size start pool.root_block.start_address in
    elim (allocate_from_block size b) as (λ _. Option ℕ × PoolAllocator) [
      | some (p, b') ↦ (
        some p,
        record pool { blocks = b' ∷ pool.blocks; total_size = pool.total_size + pool.block_size },
      )
      | none ↦ (
        none,
        record pool { blocks = b ∷ pool.blocks; total_size = pool.total_size + pool.block_size },
      )
    ]

-- `alloc`
unfoldable pub pool_alloc : ℕ → ℕ → PoolAllocator → Option ℕ × PoolAllocator
unfolding allocate_from_block first_fit from_new_block
pool_alloc size start pool =
    if ltb pool.block_size size
    then (none, pool)
    else elim (allocate_from_block size pool.root_block) as (λ _. Option ℕ × PoolAllocator) [
      | some (p, b) ↦ (some p, record pool { root_block = b })
      | none ↦ elim (first_fit size pool.blocks) as (λ _. Option ℕ × PoolAllocator) [
        | some (p, blocks) ↦ (some p, record pool { blocks = blocks })
        | none ↦ from_new_block size start pool
      ]
    ]

-- One allocation behind the other
unfoldable pub pool_allocs : List ℕ → ℕ → PoolAllocator → List (Option ℕ) × PoolAllocator
unfolding pool_alloc
pool_allocs [] start pool = ([], pool)
pool_allocs (size ∷ sizes) start pool =
    let (p, pool') = pool_alloc size start pool in
    let (ps, pool'') = pool_allocs sizes start pool' in (p ∷ ps, pool'')
