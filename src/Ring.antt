-- ===== src/Ring.antt =====
-- `RingBuffer<Size>` of ulog/include/ringbuffer.h: a byte buffer that producers allocate from and
-- one consumer empties in the order of allocation.
-- A method is a function to an `Outcome`. The methods that hold `lk` are one step each; `populate`
-- holds no lock while it copies, so its copy and its mark are separate steps.
pub mod Blocks
pub mod Apart
pub mod Valid
pub mod Bytes
pub mod Queue
pub mod Fifo
pub mod Produce
pub mod Alloc
pub mod Consume
pub mod Steps
pub mod Leak
mod Tests
use cbuf.Base.{
  ℕ, zero, suc, ◌+◌, ◌-◌, ◌%◌, ◌^◌, Bool, true, false, Option, none, some, List, [], ◌∷◌, ◌++◌, ltb,
  leb, ◌==◌, not, if◌then◌else◌, take, drop, length, ◌&&◌, ◌||◌,
}
use cbuf.Base.Map.{lookup, insert, erase}

pub data AllocationType : Type 0 where
  empty dummy populated : AllocationType

-- Pointers are addresses, and 0 is nullptr.
pub record Allocation : Type 0 where
  pub size : ℕ
  pub begin : ℕ
  pub kind : AllocationType
  pub id : ℕ
  pub metadata : ℕ
  pub type_name : ℕ
  pub topic_name_hash : ℕ

pub record RingBuffer : Type 0 where
  pub buf : List ℕ
  pub write : ℕ
  pub size_allocated : ℕ
  pub allocations : List (ℕ × Allocation)
  pub allocation_id : ℕ
  pub last_unfreed_id : ℕ

unfoldable pub zeros : ℕ → List ℕ
zeros zero = []
zeros (suc n) = 0 ∷ zeros n

-- `RingBuffer()`: the buffer is zeroed.
unfoldable pub new_ring : ℕ → RingBuffer
new_ring size = record {
  buf = zeros size;
  write = 0;
  size_allocated = 0;
  allocations = [];
  allocation_id = 0;
  last_unfreed_id = 0;
}

-- How a call ends. `waits`: the predicate of its condition variable is false, so the call sleeps
-- and changes nothing. `faults`: an assert fails, or `operator[]` of the map makes an entry of
-- indeterminate fields for a key that is not there.
pub data Outcome (A : Type 0) : Type 0 where
  waits faults : Outcome A
  returns : A → RingBuffer → Outcome A

-- uint32_t and uint64_t
abbrev pub u32_add : ℕ → ℕ → ℕ
u32_add a b = (a + b) % 2 ^ 32

abbrev pub u32_sub : ℕ → ℕ → ℕ
u32_sub a b = (a + 2 ^ 32 - b) % 2 ^ 32

abbrev pub next_id : ℕ → ℕ
next_id i = (i + 1) % 2 ^ 64

-- The map's keys are uint32_t, the ids that index it are uint64_t.
abbrev pub key : ℕ → ℕ
key id = id % 2 ^ 32

-- `std::copy` to and from the buffer
abbrev pub slice : List ℕ → ℕ → ℕ → List ℕ
slice buf begin size = take size (drop begin buf)

unfoldable pub write_at : List ℕ → ℕ → List ℕ → List ℕ
write_at [] begin bytes = []
write_at (x ∷ buf) zero [] = x ∷ buf
write_at (x ∷ buf) zero (b ∷ bytes) = b ∷ write_at buf zero bytes
write_at (x ∷ buf) (suc begin) bytes = x ∷ write_at buf begin bytes

-- A caller's block and what is to be known of it.
pub record Request : Type 0 where
  pub size : ℕ
  pub metadata : ℕ
  pub type_name : ℕ
  pub topic_name_hash : ℕ

-- A new block goes into the map; `count` is added to `m_sizeAllocated`, and `w` is the new write mark.
unfoldable pub place : Allocation → ℕ → ℕ → RingBuffer → RingBuffer
place a count w s = record s {
  allocations = insert (key s.allocation_id) a s.allocations;
  allocation_id = next_id s.allocation_id;
  size_allocated = u32_add s.size_allocated count;
  write = w;
}

-- How `alloc` ends: it gives a handle, or it sleeps in the state that its earlier attempts have left,
-- or an attempt faults.
pub data Allocating : Type 0 where
  given : ℕ → RingBuffer → Allocating
  asleep : RingBuffer → Allocating
  broken : Allocating

-- What the loop of `alloc` does with the outcome of an attempt that starts in `s`.
abbrev pub retry :
    (RingBuffer → Option Allocating) → RingBuffer → Outcome (Option Allocation) → Option Allocating
retry again s waits = some (asleep s)
retry again s faults = some broken
retry again s (returns none t) = again t
retry again s (returns (some a) t) = some (given a.id t)

module _ (capacity : ℕ) where
  abbrev pub data_block : RingBuffer → Request → Allocation
  data_block s r = record {
    size = r.size;
    begin = s.write;
    kind = empty;
    id = s.allocation_id;
    metadata = r.metadata;
    type_name = r.type_name;
    topic_name_hash = r.topic_name_hash;
  }

  abbrev pub dummy_block : RingBuffer → Allocation
  dummy_block s = record {
    size = u32_sub capacity s.write;
    begin = s.write;
    kind = dummy;
    id = s.allocation_id;
    metadata = 0;
    type_name = 0;
    topic_name_hash = 0;
  }

  -- `alloc_inner`: a block at the write mark, or a dummy that fills the rest of the buffer.
  -- `int` arithmetic: `Size - int(m_sizeAllocated) > size` is a test between sums of naturals.
  unfoldable pub alloc_inner : Request → RingBuffer → Outcome (Option Allocation)
  unfolding place
  alloc_inner r s =
      if not (ltb (r.size + s.size_allocated) capacity)
      then waits
      else if not (r.size == 0) && leb (u32_add s.write r.size) capacity
      then returns (some (data_block s r))
          (place (data_block s r) r.size (u32_add s.write r.size) s)
      else returns none (
          place (dummy_block s)
            (if u32_sub capacity s.write == 0 then 1 else u32_sub capacity s.write) 0 s)

  -- `alloc`: attempts until one gives a block; `none` means that the attempts ran out.
  unfoldable pub alloc : ℕ → Request → RingBuffer → Option Allocating
  alloc zero r s = none
  alloc (suc attempts) r s = retry (alloc attempts r) s (alloc_inner r s)

-- The copy of `populate`, where a source is given. It reads `a.size_` bytes of the source.
unfoldable pub populate_copy : ℕ → List ℕ → RingBuffer → Outcome (Unit {0})
populate_copy dst src s = elim (lookup (key dst) s.allocations) [
  | none ↦ faults
  | some a ↦ elim a.kind [
    | empty ↦ returns tt (record s { buf = write_at s.buf a.begin (take a.size src) })
    | _ ↦ faults
  ]
]

-- The second lock of `populate`: the block is marked for the consumer.
unfoldable pub populate_mark : ℕ → RingBuffer → Outcome Bool
populate_mark dst s = elim (lookup (key dst) s.allocations) [
  | none ↦ faults
  | some a ↦
      returns true
        (record s { allocations = insert (key dst) (record a { kind = populated }) s.allocations })
]

-- `populate` with nothing running in between; `none` is a null source.
unfoldable pub populate : ℕ → Option (List ℕ) → RingBuffer → Outcome Bool
populate dst src s = elim (lookup (key dst) s.allocations) [
  | none ↦ faults
  | some a ↦ elim a.kind [
    | empty ↦ elim src [
      | none ↦ populate_mark dst s
      | some bytes ↦ elim (populate_copy dst bytes s) [
        | returns _ s' ↦ populate_mark dst s'
        | _ ↦ faults
      ]
    ]
    | _ ↦ faults
  ]
]

-- `handleToAddress`: an index into the buffer.
unfoldable pub handle_to_address : ℕ → RingBuffer → Outcome ℕ
handle_to_address handle s = elim (lookup (key handle) s.allocations) [
  | none ↦ faults
  | some a ↦ returns a.begin s
]

-- What a consumer is given of a block; a dummy shows as size 0. `consume` has no output for the hash
-- of the topic's name, `lastUnread` reports it.
pub record Packet : Type 0 where
  pub bytes : List ℕ
  pub metadata : ℕ
  pub type_name : ℕ
  pub topic_name_hash : Option ℕ

abbrev pub packet : List ℕ → Option ℕ → Allocation → Option Packet
packet buf hash a = elim a.kind [
  | populated ↦ some (record {
    bytes = slice buf a.begin a.size;
    metadata = a.metadata;
    type_name = a.type_name;
    topic_name_hash = hash;
  })
  | _ ↦ none
]

-- What `lastUnread` and `consume` report: nothing is ready, a dummy, or a populated block.
pub data Report : Type 0 where
  not_ready : Report
  ready : Option Packet → Report

abbrev pub if_ready : AllocationType → RingBuffer → Outcome Report → Outcome Report
if_ready empty s o = returns not_ready s
if_ready dummy s o = o
if_ready populated s o = o

-- The part that `lastUnread`, `dequeue` and `consume` share: what to do with the oldest block.
unfoldable pub oldest_of :
    List (ℕ × Allocation) → ℕ → RingBuffer → (Allocation → Outcome Report) → Outcome Report
oldest_of [] id s use_block = returns not_ready s
oldest_of (e ∷ m) id s use_block = elim (lookup (key id) (e ∷ m)) [
  | none ↦ faults
  | some a ↦ if_ready a.kind s (use_block a)
]

unfoldable pub with_oldest : (Allocation → Outcome Report) → RingBuffer → Outcome Report
with_oldest use_block s =
    if ltb 0 s.size_allocated then oldest_of s.allocations s.last_unfreed_id s use_block else waits

-- `lastUnread`; the packet's bytes are those at the address it returns.
unfoldable pub last_unread : RingBuffer → Outcome Report
last_unread s = with_oldest (λ a. returns (ready (packet s.buf (some a.topic_name_hash) a)) s) s

-- `allocations.erase(a.id_); lastUnfreedId++; m_sizeAllocated -= a.size_`
abbrev pub free_oldest : Allocation → RingBuffer → RingBuffer
free_oldest a s = record s {
  allocations = erase (key a.id) s.allocations;
  last_unfreed_id = next_id s.last_unfreed_id;
  size_allocated = u32_sub s.size_allocated a.size;
}

-- `consume`: the bytes are those that it copies to `dst`.
unfoldable pub consume : RingBuffer → Outcome Report
consume s = with_oldest (λ a. returns (ready (packet s.buf none a)) (free_oldest a s)) s

-- `dequeue`: the same step with nothing copied out; it tells whether a block was freed.
abbrev pub was_ready : Report → Bool
was_ready not_ready = false
was_ready (ready p) = true

abbrev pub freed : Outcome Report → Outcome Bool
freed waits = waits
freed faults = faults
freed (returns r s) = returns (was_ready r) s

unfoldable pub dequeue : RingBuffer → Outcome Bool
dequeue s = freed (with_oldest (λ a. returns (ready none) (free_oldest a s)) s)
