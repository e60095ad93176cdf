-- ===== src/Ring/Alloc.antt =====
-- The loop of `alloc`: attempts until one gives a block or sleeps.
use cbuf.Base.{
  ℕ, suc, zero, ◌+◌, ◌≤◌, ◌<◌, ◌≡◌, ◌≢◌, refl, sym, ap, Option, none, some, [], ◌∷◌, ◌++◌, length,
  arith, All, ◌∙◌, subst₂,
}
use cbuf.Base.Map.{lookup}
use mathlib.Core.List.{append-nil}
use cbuf.Ring.{
  empty, dummy, Allocation, RingBuffer, Outcome, waits, faults, returns, given, asleep, broken,
  Allocating, key, Request, alloc_inner, alloc, retry, dummy_block,
}
use cbuf.Ring.Queue.{Queue}
use cbuf.Ring.Valid.{IsValid, Ensures, Extended, alloc_inner-Ensures}
use cbuf.Ring.Fifo.{item}
use cbuf.Ring.Produce.{contents, contents-append}

-- The items that an attempt adds at the end of the queue.
abbrev pub Pads : Queue → Type 0
Pads q = All (λ x. x.kind ≡ dummy) q

module _ (capacity : ℕ) (r : Request) where
  -- What `alloc` has done when it gives a handle: at most one dummy and then the block stand at the
  -- end of the queue, and the handle finds the block, which is empty and as long as asked.
  pub record Allocated (s : RingBuffer) (handle : ℕ) (s' : RingBuffer) : Type 0 where
    pub valid : IsValid capacity s'
    pub pad : Queue
    pub pad_dummy : Pads pad
    pub pad_short : length pad ≤ 1
    pub block : Allocation
    pub found : lookup (key handle) s'.allocations ≡ some block
    pub empty_block : block.kind ≡ empty
    pub block_size : block.size ≡ r.size
    pub block_fits : block.begin + block.size ≤ capacity
    pub queued : contents s' ≡ (contents s ++ pad) ++ (item s'.buf (key handle, block) ∷ [])

  -- An attempt at the start of the buffer makes no dummy.
  no_second_dummy :
      (s s' : RingBuffer)
      → IsValid capacity s
      → s.write ≡ 0
      → 0 < r.size
      → alloc_inner capacity r s ≢ returns none s'
  unfolding alloc_inner
  no_second_dummy s s' v w pos = ground (arith, v.small)

  gives :
      (s₀ s s' : RingBuffer) (v : IsValid capacity s) (pad : Queue) (a : Allocation)
      → contents s ≡ contents s₀ ++ pad
      → Pads pad
      → length pad ≤ 1
      → IsValid capacity s' × Extended capacity r s v (some a) s'
      → Allocated s₀ a.id s'
  gives s₀ s s' v pad a q p one h =
      let (valid, (added, same, found, fits, clear, bytes, _)) = h in
      record {
        valid = valid;
        pad = pad;
        pad_dummy = p;
        pad_short = one;
        block = a;
        found = found;
        empty_block = ap (λ b. b.kind) same;
        block_size = ap (λ b. b.size) same;
        block_fits = fits;
        queued =
            subst₂ (λ k buf. contents s' ≡ (contents s₀ ++ pad) ++ (item buf (key k, a) ∷ []))
              (sym (ap (λ b. b.id) same)) (sym bytes)
              (contents-append s s' (key s.allocation_id) a added bytes
                ∙ ap (λ c. c ++ (item s.buf (key s.allocation_id, a) ∷ [])) q);
      }

  -- What `alloc` has done when it sleeps: at most one dummy stands at the end of the queue, the
  -- block does not fit beside what is allocated then, and the attempt that comes next does sleep.
  pub record Slept (s s' : RingBuffer) : Type 0 where
    pub valid : IsValid capacity s'
    pub pad : Queue
    pub pad_dummy : Pads pad
    pub pad_short : length pad ≤ 1
    pub queued : contents s' ≡ contents s ++ pad
    pub no_room : capacity ≤ r.size + s'.size_allocated
    pub sleeps : alloc_inner capacity r s' ≡ waits

  abbrev pub Ending : RingBuffer → Allocating → Type 0
  Ending s (given handle s') = Allocated s handle s'
  Ending s (asleep s') = Slept s s'
  Ending s broken = ⊥

  abbrev pub Settled : RingBuffer → Option Allocating → Type 0
  Settled s result = (o : Allocating) × (result ≡ some o) × Ending s o

  slept :
      (s₀ s : RingBuffer) (v : IsValid capacity s) (pad : Queue)
      → contents s ≡ contents s₀ ++ pad
      → Pads pad
      → length pad ≤ 1
      → alloc_inner capacity r s ≡ waits
      → capacity ≤ r.size + s.size_allocated
      → Slept s₀ s
  slept s₀ s v pad q p one e full = record {
    valid = v;
    pad = pad;
    pad_dummy = p;
    pad_short = one;
    queued = q;
    no_room = full;
    sleeps = e;
  }

  second_attempt :
      (n : ℕ) (s₀ s : RingBuffer) (v : IsValid capacity s) (pad : Queue)
      → 0 < r.size
      → s.write ≡ 0
      → contents s ≡ contents s₀ ++ pad
      → Pads pad
      → length pad ≤ 1
      → (o : Outcome (Option Allocation)) → alloc_inner capacity r s ≡ o
      → Ensures
          (capacity ≤ r.size + s.size_allocated)
          (λ got s'. IsValid capacity s' × Extended capacity r s v got s')
          o
      → Settled s₀ (retry (alloc capacity n r) s o)
  second_attempt n s₀ s v pad pos w q p one waits e h =
      (asleep s, refl, slept s₀ s v pad q p one e h)
  second_attempt n s₀ s v pad pos w q p one faults e h = absurd h
  second_attempt n s₀ s v pad pos w q p one (returns none s') e h =
      absurd (no_second_dummy s s' v w pos e)
  second_attempt n s₀ s v pad pos w q p one (returns (some a) s') e h =
      (given a.id s', refl, gives s₀ s s' v pad a q p one h)

  first_attempt :
      (n : ℕ) (s : RingBuffer) (v : IsValid capacity s)
      → 0 < r.size
      → (o : Outcome (Option Allocation)) → alloc_inner capacity r s ≡ o
      → Ensures
          (capacity ≤ r.size + s.size_allocated)
          (λ got s'. IsValid capacity s' × Extended capacity r s v got s')
          o
      → Settled s (retry (alloc capacity (suc n) r) s o)
  unfolding alloc
  first_attempt n s v pos waits e h =
      (asleep s, refl, slept s s v [] (sym (append-nil (contents s))) tt (omega arith) e h)
  first_attempt n s v pos faults e h = absurd h
  first_attempt n s v pos (returns none s') e h =
      let (valid, (added, mark, bytes, _)) = h in
      second_attempt n s s' valid (item s.buf (key s.allocation_id, dummy_block capacity s) ∷ [])
        pos mark (contents-append s s' (key s.allocation_id) (dummy_block capacity s) added bytes)
        (refl, tt) (omega arith) (alloc_inner capacity r s') refl
        (alloc_inner-Ensures capacity r s' valid)
  first_attempt n s v pos (returns (some a) s') e h =
      (given a.id s', refl, gives s s s' v [] a (sym (append-nil (contents s))) tt (omega arith) h)

  -- From a valid ring, `alloc` of a block that is not empty needs two attempts at most: with them it
  -- gives a handle or sleeps, and has put one dummy at most behind the queue. The handle finds an
  -- empty block of the size asked inside the buffer, at the end of the queue. It sleeps only in a
  -- valid state where the block does not fit beside what is allocated, and no attempt faults.
  pub alloc_settles :
      (attempts : ℕ) (s : RingBuffer)
      → 2 ≤ attempts
      → IsValid capacity s
      → 0 < r.size
      → Settled s (alloc capacity attempts r s)
  unfolding alloc
  alloc_settles zero s two v pos = absurd (omega arith)
  alloc_settles (suc zero) s two v pos = absurd (omega arith)
  alloc_settles (suc (suc n)) s two v pos =
      first_attempt n s v pos (alloc_inner capacity r s) refl (alloc_inner-Ensures capacity r s v)

  zero_attempt :
      (s s' : RingBuffer) (a : Allocation)
      → r.size ≡ 0
      → alloc_inner capacity r s ≢ returns (some a) s'
  unfolding alloc_inner
  zero_attempt s s' a z = ground arith

  no_zero_block :
      (again : RingBuffer → Option Allocating) (s s' : RingBuffer) (handle : ℕ)
      → r.size ≡ 0
      → ((t : RingBuffer) → again t ≢ some (given handle s'))
      → (o : Outcome (Option Allocation)) → alloc_inner capacity r s ≡ o
      → retry again s o ≢ some (given handle s')
  no_zero_block again s s' handle z ih waits e h = cc
  no_zero_block again s s' handle z ih faults e h = cc
  no_zero_block again s s' handle z ih (returns none t) e h = ih t h
  no_zero_block again s s' handle z ih (returns (some a) t) e h = zero_attempt s t a z e

  -- A block of size 0 is never given, however many attempts are made.
  pub alloc_zero :
      (attempts : ℕ) (s s' : RingBuffer) (handle : ℕ)
      → r.size ≡ 0
      → alloc capacity attempts r s ≢ some (given handle s')
  unfolding alloc
  alloc_zero zero s s' handle z e = cc
  alloc_zero (suc n) s s' handle z e =
      no_zero_block (alloc capacity n r) s s' handle z (λ t. alloc_zero n t s' handle z)
        (alloc_inner capacity r s) refl e
