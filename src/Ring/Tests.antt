-- ===== src/Ring/Tests.antt =====
-- Runs of a ring of eight bytes, and the theorems about the ring at concrete states.
use cbuf.Base.{ℕ, ◌+◌, ◌≤◌, ◌≡◌, ◌≢◌, refl, true, none, some, [], ◌∷◌, arith}
use cbuf.Base.Map.{lookup, insert, erase}
use cbuf.Ring.{
  empty, dummy, populated, Allocation, RingBuffer, waits, returns, given, write_at, Request, zeros,
  new_ring, alloc_inner, alloc, populate, populate_copy, populate_mark, key, not_ready, ready,
  last_unread, consume, dequeue, place, with_oldest, oldest_of,
}
use cbuf.Ring.Apart.{total}
use cbuf.Ring.Blocks.{occupied}
use cbuf.Ring.Queue
use cbuf.Ring.Valid.{IsValid, Ensures, Extended, alloc_inner-Ensures}
use cbuf.Ring.Produce.{contents, populate_refines}
use cbuf.Ring.Alloc.{Settled, alloc_settles, alloc_zero}
use cbuf.Ring.Consume.{Idle, Pops, Peeks, Drops, consume_refines, last_unread-Peeks, dequeue-Drops}
use cbuf.Ring.Steps.{Reach, here, next, attempt, QueueStep, Reach-new_ring, allocated}
use cbuf.Ring.Leak.{unaccounted, LosesByte, starved, end_mark_leaks}

abbrev ask : ℕ → Request
ask n = record { size = n; metadata = 7; type_name = 8; topic_name_hash = 9 }

-- Three bytes are allocated at the end of the buffer, and not yet handed over.
abbrev three : Allocation
three = record {
  size = 3;
  begin = 5;
  kind = empty;
  id = 0;
  metadata = 7;
  type_name = 8;
  topic_name_hash = 9;
}

abbrev held : RingBuffer
held = record {
  buf = 0 ∷ 0 ∷ 0 ∷ 0 ∷ 0 ∷ 0 ∷ 0 ∷ 0 ∷ [];
  write = 8;
  size_allocated = 3;
  allocations = (0, three) ∷ [];
  allocation_id = 1;
  last_unfreed_id = 0;
}

abbrev filled : RingBuffer
filled = record held {
  buf = 0 ∷ 0 ∷ 0 ∷ 0 ∷ 0 ∷ 1 ∷ 2 ∷ 3 ∷ [];
  allocations = (0, record three { kind = populated }) ∷ [];
}

held-IsValid : IsValid 8 held
unfolding occupied
held-IsValid = record {
  small = omega arith;
  buffer = refl;
  write_in = omega arith;
  linked = (
    refl,
    refl,
    record { fits = omega arith; at_end = λ e. cc; has_data = λ _. omega arith },
    refl,
    refl,
  );
  apart = (tt, tt);
  counted = omega arith;
  bounded = omega arith;
}

filled-IsValid : IsValid 8 filled
unfolding occupied
filled-IsValid = record {
  small = omega arith;
  buffer = refl;
  write_in = omega arith;
  linked = (
    refl,
    refl,
    record { fits = omega arith; at_end = λ e. cc; has_data = λ _. omega arith },
    refl,
    refl,
  );
  apart = (tt, tt);
  counted = omega arith;
  bounded = omega arith;
}

populate_run : populate 0 (some (1 ∷ 2 ∷ 3 ∷ [])) held ≡ returns true filled
unfolding populate populate_copy populate_mark write_at insert lookup
populate_run = refl

consume_run :
    consume filled
    ≡ returns
        (ready (
          some (record {
            bytes = 1 ∷ 2 ∷ 3 ∷ [];
            metadata = 7;
            type_name = 8;
            topic_name_hash = none;
          })))
        (record filled { size_allocated = 0; allocations = []; last_unfreed_id = 1 })
unfolding consume with_oldest oldest_of erase lookup
consume_run = refl

-- What is not handed over cannot be taken.
consume_early : consume held ≡ returns not_ready held
unfolding consume with_oldest oldest_of lookup
consume_early = refl

-- A request for four bytes at the end of the buffer makes a dummy of size 0 that counts for one.
alloc_run :
    alloc_inner 8 (ask 4) filled
    ≡ returns none (
        place
          (record three {
            size = 0;
            begin = 8;
            kind = dummy;
            id = 1;
            metadata = 0;
            type_name = 0;
            topic_name_hash = 0;
          })
          1
          0
          filled)
unfolding alloc_inner
alloc_run = refl

held-found : lookup (key 0) held.allocations ≡ some three
unfolding lookup
held-found = refl

alloc_inner-Ensures_example :
    Ensures
      (8 ≤ 4 + 3)
      (λ got s'. IsValid 8 s' × Extended 8 (ask 4) held held-IsValid got s')
      (alloc_inner 8 (ask 4) held)
alloc_inner-Ensures_example = alloc_inner-Ensures 8 (ask 4) held held-IsValid

alloc_settles_example : Settled 8 (ask 4) held (alloc 8 2 (ask 4) held)
alloc_settles_example = alloc_settles 8 (ask 4) 2 held (omega arith) held-IsValid (omega arith)

alloc_zero_example : alloc 8 5 (ask 0) held ≢ some (given 1 held)
alloc_zero_example = alloc_zero 8 (ask 0) 5 held held 1 refl

populate_refines_example :
    (s' : RingBuffer) × (populate 0 (some (1 ∷ 2 ∷ 3 ∷ [])) held ≡ returns true s')
    × IsValid 8 s'
    × (contents s' ≡ Queue.mark (key 0) (Queue.fill (key 0) (1 ∷ 2 ∷ 3 ∷ []) (contents held)))
populate_refines_example =
    populate_refines 8 0 three held (some (1 ∷ 2 ∷ 3 ∷ [])) held-IsValid held-found refl refl

consume_refines_example : Ensures (Idle filled) (Pops 8 filled filled-IsValid) (consume filled)
consume_refines_example = consume_refines 8 filled filled-IsValid

last_unread-Peeks_example :
    Ensures (Idle filled) (Peeks 8 filled filled-IsValid) (last_unread filled)
last_unread-Peeks_example = last_unread-Peeks 8 filled filled-IsValid

dequeue-Drops_example : Ensures (Idle filled) (Drops 8 filled filled-IsValid) (dequeue filled)
dequeue-Drops_example = dequeue-Drops 8 filled filled-IsValid

-- A fresh ring of eight bytes gives three to a producer.
fresh_attempt :
    alloc_inner 8 (ask 3) (new_ring 8)
    ≡ returns
        (some (record three { begin = 0 }))
        (record held { write = 3; allocations = (0, record three { begin = 0 }) ∷ [] })
unfolding alloc_inner new_ring zeros insert
fresh_attempt = refl

abbrev started : RingBuffer
started = record held { write = 3; allocations = (0, record three { begin = 0 }) ∷ [] }

Reach-new_ring_example :
    IsValid 8 started × Reach QueueStep [] (allocated (ask 3) (some 0) ∷ []) (contents started)
Reach-new_ring_example =
    Reach-new_ring 8 (omega arith) (next here (attempt (ask 3) _ started fresh_attempt))

end_mark_leaks_example : LosesByte 8 held (alloc_inner 8 (ask 4) held)
end_mark_leaks_example = end_mark_leaks 8 (ask 4) held held-IsValid refl (omega arith) (omega arith)

-- Three bytes are unaccounted, and no block is left.
abbrev leaky : RingBuffer
leaky = record held { write = 0; allocations = []; last_unfreed_id = 1 }

leaky-IsValid : IsValid 8 leaky
unfolding occupied
leaky-IsValid = record {
  small = omega arith;
  buffer = refl;
  write_in = omega arith;
  linked = refl;
  apart = tt;
  counted = omega arith;
  bounded = omega arith;
}

starved_example : alloc_inner 8 (ask 5) leaky ≡ waits
unfolding unaccounted total
starved_example = starved 8 (ask 5) {s = leaky} leaky-IsValid (omega arith) here
