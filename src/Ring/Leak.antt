-- ===== src/Ring/Leak.antt =====
-- What `m_sizeAllocated` counts beyond the live blocks, and what follows from it.
use cbuf.Base.{
  ℕ, ◌+◌, ◌-◌, ◌≤◌, ◌<◌, ◌≡◌, refl, ap, true, Option, none, some, List, [], ◌∷◌, ◌++◌, arith, ◌∙◌,
  ltb-eq-false,
}
use cbuf.Base.Map.{lookup, insert}
use cbuf.Ring.{
  dummy, populated, Allocation, RingBuffer, Outcome, returns, waits, faults, key, u32_sub, Request,
  alloc_inner, dummy_block, consume, dequeue, Report, ready, packet, free_oldest, populate_copy,
  populate_mark, freed,
}
use cbuf.Ring.Blocks.{Blocks, cost}
use cbuf.Ring.Apart.{total, total-le-occupied}
use cbuf.Ring.Valid.{IsValid, Ensures, Extended, alloc_inner-Ensures}
use cbuf.Ring.Consume.{Idle, Cases, with_oldest_rule, free_IsValid}
use cbuf.Ring.Steps.{
  Step, attempt, copy, hand_over, take, drop, Event, Reach, here, next, Ensures-returns,
  Reach-Simulated,
}

-- The bytes that count as allocated and that no live block has.
unfoldable pub unaccounted : RingBuffer → ℕ
unaccounted s = s.size_allocated - total s.allocations

total-append : (m : Blocks) (k : ℕ) (a : Allocation) → total (m ++ ((k, a) ∷ [])) ≡ total m + a.size
unfolding total
total-append [] k a = omega arith
total-append ((j, b) ∷ m) k a = omega (arith, total-append m k a)

total-insert :
    (m : Blocks) (k : ℕ) (a b : Allocation)
    → lookup k m ≡ some a
    → a.size ≡ b.size
    → total (insert k b m) ≡ total m
unfolding total lookup insert
total-insert [] k a b e h = cc
total-insert ((j, c) ∷ m) k a b e h = ground (arith, total-insert m k a b)

total-allocated :
    (capacity : ℕ) (s : RingBuffer) → IsValid capacity s → total s.allocations ≤ s.size_allocated
total-allocated capacity s v = omega (arith, total-le-occupied s.allocations, v.counted)

module _ (capacity : ℕ) where
  -- An attempt adds what the block costs beyond its size.
  attempt-unaccounted :
      (r : Request) (s s' : RingBuffer) (v : IsValid capacity s) (got : Option Allocation)
      → Extended capacity r s v got s'
      → unaccounted s ≤ unaccounted s'
  unfolding unaccounted
  attempt-unaccounted r s s' v none (added, start, bytes, count) =
      let d = dummy_block capacity s in
      let t = ap total added ∙ total-append s.allocations (key s.allocation_id) d in
      ground (arith, t, count, total-allocated capacity s v)
  attempt-unaccounted r s s' v (some a) (added, same, found, fits, clear, bytes, count) =
      let t = ap total added ∙ total-append s.allocations (key s.allocation_id) a in
      ground (arith, t, count, total-allocated capacity s v)

  Kept : RingBuffer → RingBuffer → Type 0
  Kept s s' = unaccounted s ≡ unaccounted s'

  free-Kept :
      (s : RingBuffer) (j : ℕ) (a : Allocation) (r : Blocks)
      → IsValid capacity s
      → s.allocations ≡ (j, a) ∷ r
      → Kept s (free_oldest a s)
  unfolding Kept unaccounted total
  free-Kept s j a r v e =
      let (valid, rest) = free_IsValid capacity s j a r v e in
      let before : total s.allocations ≡ a.size + total r = ap total e in
      let after = ap total rest in
      omega (arith, before, after, total-allocated capacity s v, v.bounded, v.small)

  Kept-Cases :
      (s : RingBuffer) (v : IsValid capacity s) (report : Allocation → Report) (m : Blocks)
      → s.allocations ≡ m
      → Cases (λ _. Kept s) s v (λ a. returns (report a) (free_oldest a s)) m
  unfolding Kept
  Kept-Cases s v report [] e = refl
  Kept-Cases s v report ((j, a) ∷ r) e = (λ _. refl, λ _. free-Kept s j a r v e)

  freed-Kept :
      (s : RingBuffer) (o : Outcome Report)
      → Ensures (Idle s) (λ _. Kept s) o
      → Ensures (Idle s) (λ _. Kept s) (freed o)
  freed-Kept s waits h = h
  freed-Kept s faults h = h
  freed-Kept s (returns r s') h = h

  copy-Kept :
      (dst : ℕ) (src : List ℕ) (s s' : RingBuffer)
      → populate_copy dst src s ≡ returns tt s'
      → Kept s s'
  unfolding populate_copy Kept unaccounted
  copy-Kept dst src s s' h = ground arith

  mark-Kept :
      (dst : ℕ) (a : Allocation) (s s' : RingBuffer)
      → lookup (key dst) s.allocations ≡ some a
      → populate_mark dst s ≡ returns true s'
      → Kept s s'
  unfolding populate_mark Kept unaccounted
  mark-Kept dst a s s' e h =
      let m = s.allocations in
      ground (arith, total-insert m (key dst) a (record a { kind = populated }) e refl)

  -- No step of any thread gives back a byte that is counted and that no live block has.
  pub Step-unaccounted :
      {s s' : RingBuffer} {e : Event}
      → IsValid capacity s
      → Step capacity s e s'
      → unaccounted s ≤ unaccounted s'
  unfolding consume dequeue Kept
  Step-unaccounted {s} v (attempt r got s' h) =
      let (_, x) = Ensures-returns _ _ _ got s' (alloc_inner-Ensures capacity r s v) h in
      attempt-unaccounted r s s' v got x
  Step-unaccounted {s} v (copy dst src a s' e k l h) = omega (arith, copy-Kept dst src s s' h)
  Step-unaccounted {s} v (hand_over dst a s' e k h) = omega (arith, mark-Kept dst a s s' e h)
  Step-unaccounted {s} v (take report s' h) =
      let rule =
        with_oldest_rule (λ _. Kept s) s v
          (λ a. returns (ready (packet s.buf none a)) (free_oldest a s))
          (Kept-Cases s v (λ a. ready (packet s.buf none a)) s.allocations refl) in
      omega (arith, Ensures-returns (Idle s) (λ _. Kept s) _ report s' rule h)
  Step-unaccounted {s} v (drop done s' h) =
      let rule =
        with_oldest_rule (λ _. Kept s) s v (λ a. returns (ready none) (free_oldest a s))
          (Kept-Cases s v (λ a. ready none) s.allocations refl) in
      omega (arith, Ensures-returns (Idle s) (λ _. Kept s) _ done s' (freed-Kept s _ rule) h)

  Reach-unaccounted :
      {s s' : RingBuffer} {trace : List Event}
      → IsValid capacity s
      → Reach (Step capacity) s trace s'
      → unaccounted s ≤ unaccounted s'
  Reach-unaccounted v here = omega arith
  Reach-unaccounted v (next r st) =
      omega (arith, Reach-unaccounted v r, Step-unaccounted (Reach-Simulated capacity v r).0 st)

  -- Once a block does not fit beside the unaccounted bytes, no step of any thread makes room for it:
  -- an attempt to allocate it sleeps in every state that follows, an empty ring included.
  pub starved :
      (r : Request) {s s' : RingBuffer} {trace : List Event}
      → IsValid capacity s
      → capacity ≤ r.size + unaccounted s
      → Reach (Step capacity) s trace s'
      → alloc_inner capacity r s' ≡ waits
  unfolding alloc_inner unaccounted
  starved r {s} {s'} v full run =
      let kept : unaccounted s ≤ unaccounted s' = Reach-unaccounted v run in
      let full' : ¬ (r.size + s'.size_allocated < capacity) = omega arith in
      rw (ltb-eq-false (r.size + s'.size_allocated) capacity full')

  -- The outcome is a dummy of size 0 at the end of the buffer, behind the other blocks, and one byte
  -- more that is counted and that no live block has.
  abbrev pub LosesByte : RingBuffer → Outcome (Option Allocation) → Type 0
  LosesByte s o =
      (s' : RingBuffer) × (d : Allocation) × (o ≡ returns none s')
      × (s'.allocations ≡ s.allocations ++ ((key s.allocation_id, d) ∷ []))
      × (d.kind ≡ dummy)
      × (d.size ≡ 0)
      × (d.begin ≡ capacity)
      × (s'.write ≡ 0)
      × (unaccounted s' ≡ unaccounted s + 1)

  end_mark_attempt :
      (r : Request) (s : RingBuffer) (v : IsValid capacity s)
      → s.write ≡ capacity
      → 0 < r.size
      → r.size + s.size_allocated < capacity
      → (o : Outcome (Option Allocation))
      → Ensures
          (capacity ≤ r.size + s.size_allocated)
          (λ got s'. IsValid capacity s' × Extended capacity r s v got s')
          o
      → LosesByte s o
  unfolding unaccounted
  end_mark_attempt r s v w pos room waits h = absurd (omega arith)
  end_mark_attempt r s v w pos room faults h = absurd h
  end_mark_attempt r s v w pos room (returns (some a) s')
        (_, (added, same, found, fits, clear, bytes, count)) =
      let begin = ap (λ b. b.begin) same in
      let size = ap (λ b. b.size) same in absurd (omega (arith, begin, size, fits))
  end_mark_attempt r s v w pos room (returns none s') (_, (added, start, bytes, count)) =
      let d = dummy_block capacity s in
      let t = ap total added ∙ total-append s.allocations (key s.allocation_id) d in
      let gone : u32_sub capacity s.write ≡ 0 = omega (arith, v.small) in
      let one : cost d ≡ 1 = rw gone in
      (
        s',
        d,
        refl,
        added,
        refl,
        gone,
        w,
        start,
        omega (arith, t, count, gone, one, total-allocated capacity s v),
      )

  -- An attempt with the write mark at the very end of the buffer, for a block that would fit, makes a
  -- dummy of size 0 behind the other blocks and gives no block, and one byte more is counted as
  -- allocated that no live block has.
  pub end_mark_leaks :
      (r : Request) (s : RingBuffer)
      → IsValid capacity s
      → s.write ≡ capacity
      → 0 < r.size
      → r.size + s.size_allocated < capacity
      → LosesByte s (alloc_inner capacity r s)
  end_mark_leaks r s v w pos room =
      end_mark_attempt r s v w pos room (alloc_inner capacity r s)
        (alloc_inner-Ensures capacity r s v)
