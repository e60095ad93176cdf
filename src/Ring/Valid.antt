-- ===== src/Ring/Valid.antt =====
-- The invariant of `RingBuffer`, and that every method keeps it and faults on none of its states.
use cbuf.Base.{
  ℕ, ◌+◌, ◌*◌, ◌^◌, ◌≤◌, ◌<◌, ◌≡◌, refl, Option, none, some, [], ◌∷◌, ◌++◌, length, leb, ◌==◌, not,
  if◌then◌else◌, ◌&&◌, All, ◌⊎◌, arith, dec_lt, subst₂, ltb-eq-false, lt→ltb, Bool-cases, inl, inr,
}
use cbuf.Base.Map.{lookup, insert, lookup-insert}
use cbuf.Ring.{
  Allocation, RingBuffer, Outcome, waits, faults, returns, key, u32_add, u32_sub, place, Request,
  alloc_inner, data_block, dummy_block,
}
use cbuf.Ring.Blocks.{
  Blocks, next_begin, cost, occupied, Linked, IsPlaced, insert-Linked, Linked-append,
  occupied-append,
}
use cbuf.Ring.Apart.{
  total-le-occupied, Separate, Apart, room_clear, Apart-append, clear-Separate, dummy-Separate,
}

pub record IsValid (capacity : ℕ) (s : RingBuffer) : Type 0 where
  pub small : capacity < 2 ^ 31
  pub buffer : length s.buf ≡ capacity
  pub write_in : s.write ≤ capacity
  pub linked : Linked capacity s.last_unfreed_id s.allocations s.write s.allocation_id
  pub apart : Apart s.allocations
  pub counted : occupied s.allocations ≤ s.size_allocated
  pub bounded : s.size_allocated ≤ 2 * capacity

-- The call does not fault; where it waits, `W` holds, and where it returns, `P` holds of its result
-- and the new state.
abbrev pub Ensures : {A : Type 0} → Type 0 → (A → RingBuffer → Type 0) → Outcome A → Type 0
Ensures W P waits = W
Ensures W P faults = ⊥
Ensures W P (returns a s) = P a s

-- A block that continues the chain keeps the invariant.
place-IsValid :
    (capacity : ℕ) (a : Allocation) (s : RingBuffer)
    → IsValid capacity s
    → a.begin ≡ s.write
    → a.id ≡ s.allocation_id
    → IsPlaced capacity a
    → s.size_allocated + cost a ≤ 2 * capacity
    → next_begin a ≤ capacity
    → All (λ e. Separate e.1 a) s.allocations
    → IsValid capacity (place a (cost a) (next_begin a) s)
unfolding place
place-IsValid capacity a s v b d p c w sep = record {
  small = v.small;
  buffer = v.buffer;
  write_in = w;
  linked = rw new (Linked-append capacity s.last_unfreed_id m s.write n a v.linked b d p);
  apart = rw new (Apart-append m (key n) a v.apart sep);
  counted = rw new (omega (arith, occupied-append m (key n) a, v.counted, v.bounded, v.small));
  bounded = omega (arith, v.small);
}
  where
    m : Blocks
    m = s.allocations

    n : ℕ
    n = s.allocation_id

    new : insert (key n) a m ≡ m ++ ((key n, a) ∷ [])
    new =
        insert-Linked capacity s.last_unfreed_id m s.write n a v.linked
          (omega (arith, v.counted, v.bounded, v.small))

module _ (capacity : ℕ) (r : Request) (s : RingBuffer) (v : IsValid capacity s) where
  -- What an attempt that returns has done: the block it added, and that the bytes are untouched.
  abbrev pub Extended : Option Allocation → RingBuffer → Type 0
  Extended none s' =
      (s'.allocations ≡ s.allocations ++ ((key s.allocation_id, dummy_block capacity s) ∷ []))
      × (s'.write ≡ 0)
      × (s'.buf ≡ s.buf)
      × (s'.size_allocated ≡ s.size_allocated + cost (dummy_block capacity s))
  Extended (some a) s' =
      (s'.allocations ≡ s.allocations ++ ((key s.allocation_id, a) ∷ []))
      × (a ≡ data_block capacity s r)
      × (lookup (key a.id) s'.allocations ≡ some a)
      × (a.begin + a.size ≤ capacity)
      × All (λ e. (e.1.begin + e.1.size ≤ a.begin) ⊎ (a.begin + a.size ≤ e.1.begin)) s.allocations
      × (s'.buf ≡ s.buf)
      × (s'.size_allocated ≡ s.size_allocated + cost a)

  appends :
      (a : Allocation)
      → insert (key s.allocation_id) a s.allocations
        ≡ s.allocations ++ ((key s.allocation_id, a) ∷ [])
  appends a =
      insert-Linked capacity s.last_unfreed_id s.allocations s.write s.allocation_id a v.linked
        (omega (arith, v.counted, v.bounded, v.small))

  module _ (room : r.size + s.size_allocated < capacity) where
    abbrev block : Allocation
    block = data_block capacity s r

    clear :
        s.write + r.size ≤ capacity
        → All (λ e. (e.1.begin + e.1.size ≤ s.write) ⊎ (s.write + r.size ≤ e.1.begin)) s.allocations
    clear h =
        room_clear capacity s.last_unfreed_id s.allocations s.write s.allocation_id r.size v.linked
          (omega (arith, total-le-occupied s.allocations, v.counted)) h

    place_data :
        0 < r.size
        → u32_add s.write r.size ≤ capacity
        → IsValid capacity (place block r.size (u32_add s.write r.size) s)
          × Extended (some block) (place block r.size (u32_add s.write r.size) s)
    unfolding place
    place_data pos h =
        let fits : s.write + r.size ≤ capacity = omega (arith, v.small, v.write_in) in
        let placed : IsPlaced capacity block = record {
          fits = fits;
          at_end = λ d. cc;
          has_data = λ _. pos;
        } in
        let count : cost block ≡ r.size = ground arith in
        let mark : next_begin block ≡ u32_add s.write r.size = omega (arith, v.small, v.write_in) in
        let found : lookup (key s.allocation_id) (insert (key s.allocation_id) block s.allocations)
            ≡ some block =
          ground (
            arith,
            lookup-insert (key s.allocation_id) (key s.allocation_id) block s.allocations,
          ) in
        let kept =
          place-IsValid capacity block s v refl refl placed (ground (arith, v.small)) fits
            (clear-Separate s.allocations block (clear fits)) in
        (
          subst₂ (λ c w. IsValid capacity (place block c w s)) count mark kept,
          (appends block, refl, found, fits, clear fits, refl, ground (arith, v.small)),
        )

    place_dummy :
        let count = if u32_sub capacity s.write == 0 then 1 else u32_sub capacity s.write in
        let s' = place (dummy_block capacity s) count 0 s in IsValid capacity s' × Extended none s'
    unfolding place
    place_dummy =
        let d = dummy_block capacity s in
        let placed : IsPlaced capacity d = record {
          fits = omega (arith, v.small, v.write_in);
          at_end = λ _. omega (arith, v.small, v.write_in);
          has_data = λ e. cc;
        } in
        let kept =
          place-IsValid capacity d s v refl refl placed (ground (arith, v.small, v.write_in))
            (omega arith) (dummy-Separate s.allocations d refl) in
        (kept, (appends d, refl, refl, ground (arith, v.small, v.write_in)))

  -- Every attempt to allocate keeps the invariant and faults nowhere; it waits only where the block
  -- does not fit beside what is allocated. A block with data lies in the
  -- buffer and overlaps no live block; a dummy goes behind the last block, and sends the write mark
  -- to the start. Neither touches a byte.
  pub alloc_inner-Ensures :
      Ensures
        (capacity ≤ r.size + s.size_allocated)
        (λ got s'. IsValid capacity s' × Extended got s')
        (alloc_inner capacity r s)
  unfolding alloc_inner
  alloc_inner-Ensures = elim (dec_lt (r.size + s.size_allocated) capacity) [
    | no full ↦ rw (ltb-eq-false _ _ full) (omega arith)
    | yes room ↦
        rw (lt→ltb _ _ room)
          (elim (Bool-cases (not (r.size == 0) && leb (u32_add s.write r.size) capacity)) [
            | inl fits ↦ rw fits (place_data room (ground arith) (ground arith))
            | inr skip ↦ rw skip (place_dummy room)
          ])
  ]
