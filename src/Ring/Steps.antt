-- ===== src/Ring/Steps.antt =====
-- Producers and the consumer interleaved: any sequence of steps of a ring buffer is one of the queue.
use cbuf.Base.{
  ℕ, zero, suc, ◌<◌, ◌^◌, ◌≡◌, refl, sym, ap, Bool, true, false, Option, none, some, List, [], ◌∷◌,
  ◌++◌, length, arith, subst, subst₂, ◌+◌, ◌≤◌, ◌∙◌,
}
use cbuf.Base.Map.{lookup}
use cbuf.Ring.{
  empty, dummy, Allocation, RingBuffer, Outcome, returns, key, Request, alloc_inner, data_block,
  dummy_block, slice, populate_copy, populate_mark, Report, consume, dequeue, was_ready, new_ring,
  zeros,
}
use cbuf.Ring.Blocks.{is_dummy, occupied}
use cbuf.Ring.Bytes.{length-slice}
use cbuf.Ring.Fifo.{item}
use cbuf.Ring.Queue
use cbuf.Ring.Queue.{Item, Queue}
use cbuf.Ring.Valid.{IsValid, Ensures, Extended, alloc_inner-Ensures}
use cbuf.Ring.Produce.{contents, contents-append, populate_copy_refines, populate_mark_refines}
use cbuf.Ring.Consume.{consume_refines, dequeue-Drops, Idle, Pops, Drops}

-- What a step shows: a request and the handle that it got, or that it got none; what was written to
-- which block; the block that was handed over; and what the consumer got.
pub data Event : Type 0 where
  allocated : Request → Option ℕ → Event
  written : ℕ → List ℕ → Event
  handed_over : ℕ → Event
  consumed : Report → Event
  dequeued : Bool → Event

abbrev pub handle_of : Option Allocation → Option ℕ
handle_of none = none
handle_of (some a) = some a.id

-- The steps of the threads. A producer writes only the block that it was given, as long as the block
-- is not handed over, and all of it at once; `populate` asserts that the block is empty before it
-- marks it.
pub data Step (capacity : ℕ) (s : RingBuffer) : Event → RingBuffer → Type 0 where
  attempt :
      (r : Request) (got : Option Allocation) (s' : RingBuffer)
      → alloc_inner capacity r s ≡ returns got s'
      → Step capacity s (allocated r (handle_of got)) s'
  copy :
      (dst : ℕ) (src : List ℕ) (a : Allocation) (s' : RingBuffer)
      → lookup (key dst) s.allocations ≡ some a
      → a.kind ≡ empty
      → length src ≡ a.size
      → populate_copy dst src s ≡ returns tt s'
      → Step capacity s (written (key dst) src) s'
  hand_over :
      (dst : ℕ) (a : Allocation) (s' : RingBuffer)
      → lookup (key dst) s.allocations ≡ some a
      → a.kind ≡ empty
      → populate_mark dst s ≡ returns true s'
      → Step capacity s (handed_over (key dst)) s'
  take :
      (report : Report) (s' : RingBuffer)
      → consume s ≡ returns report s'
      → Step capacity s (consumed report) s'
  drop :
      (done : Bool) (s' : RingBuffer)
      → dequeue s ≡ returns done s'
      → Step capacity s (dequeued done) s'

-- The item of a request: empty, under the handle, with as many bytes as asked and the request's
-- labels.
pub record IsItemOf (r : Request) (handle : ℕ) (x : Item) : Type 0 where
  pub handle_eq : x.handle ≡ key handle
  pub kind_eq : x.kind ≡ empty
  pub size_eq : length x.bytes ≡ r.size
  pub metadata_eq : x.metadata ≡ r.metadata
  pub type_name_eq : x.type_name ≡ r.type_name
  pub hash_eq : x.topic_name_hash ≡ r.topic_name_hash

-- The queue's own steps. An attempt that gives no block may put a dummy behind the others.
pub data QueueStep (q : Queue) : Event → Queue → Type 0 where
  push :
      (r : Request) (handle : ℕ) (x : Item)
      → IsItemOf r handle x
      → QueueStep q (allocated r (some handle)) (q ++ (x ∷ []))
  pad :
      (r : Request) (x : Item)
      → x.kind ≡ dummy
      → x.bytes ≡ []
      → QueueStep q (allocated r none) (q ++ (x ∷ []))
  fill : (k : ℕ) (bytes : List ℕ) → QueueStep q (written k bytes) (Queue.fill k bytes q)
  mark : (k : ℕ) → QueueStep q (handed_over k) (Queue.mark k q)
  pop : QueueStep q (consumed (Queue.pop q).0) (Queue.pop q).1
  discard : QueueStep q (dequeued (was_ready (Queue.pop q).0)) (Queue.pop q).1

pub data Reach {S : Type 0} (R : S → Event → S → Type 0) (s : S) : List Event → S → Type 0 where
  here : Reach R s [] s
  next :
      {t u : S} {trace : List Event} {e : Event}
      → Reach R s trace t
      → R t e u
      → Reach R s (e ∷ trace) u

pub Ensures-returns :
    {A : Type 0} (W : Type 0) (P : A → RingBuffer → Type 0) (o : Outcome A) (a : A) (s : RingBuffer)
    → Ensures W P o
    → o ≡ returns a s
    → P a s
Ensures-returns W P o a s h e = subst (Ensures W P) e h

-- The sole result of a call.
returned :
    {A : Type 0} {o : Outcome A} {a b : A} {s t : RingBuffer}
    → o ≡ returns a s
    → o ≡ returns b t
    → (a ≡ b) × (s ≡ t)
returned p q = (cc, cc)

module _ (capacity : ℕ) where
  abbrev Simulated : RingBuffer → Event → RingBuffer → Type 0
  Simulated s e s' = IsValid capacity s' × QueueStep (contents s) e (contents s')

  -- The block that an attempt gives shows in the queue as the item of the request.
  asked :
      (r : Request) (s : RingBuffer) (v : IsValid capacity s) (a : Allocation)
      → a ≡ data_block capacity s r
      → a.begin + a.size ≤ capacity
      → IsItemOf r a.id (item s.buf (key s.allocation_id, a))
  asked r s v a same fits =
      let kind : a.kind ≡ empty = ap (λ b. b.kind) same in
      let live : is_dummy a ≡ false = rw kind in
      let bytes : (item s.buf (key s.allocation_id, a)).bytes ≡ slice s.buf a.begin a.size =
        rw live in
      record {
        handle_eq = ap (λ b. key b.id) (sym same);
        kind_eq = kind;
        size_eq =
            ap length bytes
            ∙ length-slice s.buf a.begin a.size (omega (arith, fits, v.buffer))
            ∙ ap (λ b. b.size) same;
        metadata_eq = ap (λ b. b.metadata) same;
        type_name_eq = ap (λ b. b.type_name) same;
        hash_eq = ap (λ b. b.topic_name_hash) same;
      }

  attempt-Simulated :
      (r : Request) (s s' : RingBuffer) (v : IsValid capacity s) (got : Option Allocation)
      → IsValid capacity s' × Extended capacity r s v got s'
      → Simulated s (allocated r (handle_of got)) s'
  attempt-Simulated r s s' v none (valid, (added, start, bytes, _)) = (
    valid,
    subst (QueueStep (contents s) (allocated r none))
        (sym (contents-append s s' (key s.allocation_id) (dummy_block capacity s) added bytes))
        (pad r _ refl refl),
  )
  attempt-Simulated r s s' v (some a) (valid, (added, same, found, fits, clear, bytes, _)) = (
    valid,
    subst (QueueStep (contents s) (allocated r (some a.id)))
        (sym (contents-append s s' (key s.allocation_id) a added bytes))
        (push r a.id (item s.buf (key s.allocation_id, a)) (asked r s v a same fits)),
  )

  -- A step from a valid ring ends in a valid ring, and is a step of the queue with the same event.
  pub Step-Simulated :
      {s s' : RingBuffer} {e : Event} → IsValid capacity s → Step capacity s e s' → Simulated s e s'
  Step-Simulated {s} v (attempt r got s' h) =
      attempt-Simulated r s s' v got
        (Ensures-returns _ _ _ got s' (alloc_inner-Ensures capacity r s v) h)
  Step-Simulated {s} v (copy dst src a s' e k l h) =
      let (s₁, run, valid, _, q) = populate_copy_refines capacity dst src a s v e k l in
      let step =
        subst (QueueStep (contents s) (written (key dst) src)) (sym q) (fill (key dst) src) in
      let reached : s₁ ≡ s' = (returned run h).1 in
      subst (Simulated s (written (key dst) src)) reached (valid, step)
  Step-Simulated {s} v (hand_over dst a s' e k h) =
      let (s₁, run, valid, q) = populate_mark_refines capacity dst a s v e k in
      let step = subst (QueueStep (contents s) (handed_over (key dst))) (sym q) (mark (key dst)) in
      let reached : s₁ ≡ s' = (returned run h).1 in
      subst (Simulated s (handed_over (key dst))) reached (valid, step)
  Step-Simulated {s} v (take report s' h) =
      let (valid, q) =
        Ensures-returns (Idle s) (Pops capacity s v) _ report s' (consume_refines capacity s v) h in
      (
        valid,
        subst {A = Report × Queue} (λ p. QueueStep (contents s) (consumed p.0) p.1) (sym q) pop,
      )
  Step-Simulated {s} v (drop done s' h) =
      let (valid, d, q) =
        Ensures-returns (Idle s) (Drops capacity s v) _ done s' (dequeue-Drops capacity s v) h in
      (valid, subst₂ (λ b c. QueueStep (contents s) (dequeued b) c) (sym d) (sym q) discard)

  -- Every interleaving from a valid ring is a run of the queue with the same events, and ends in a
  -- valid ring.
  pub Reach-Simulated :
      {s s' : RingBuffer} {trace : List Event}
      → IsValid capacity s
      → Reach (Step capacity) s trace s'
      → IsValid capacity s' × Reach QueueStep (contents s) trace (contents s')
  Reach-Simulated v here = (v, here)
  Reach-Simulated v (next r st) =
      let (v₁, r₁) = Reach-Simulated v r in
      let (v₂, st₁) = Step-Simulated v₁ st in (v₂, next r₁ st₁)

length-zeros : (n : ℕ) → length (zeros n) ≡ n
unfolding zeros
length-zeros zero = refl
length-zeros (suc n) = ap suc (length-zeros n)

-- A fresh ring is valid and holds nothing.
pub new_ring-IsValid :
    (capacity : ℕ)
    → capacity < 2 ^ 31
    → IsValid capacity (new_ring capacity) × (contents (new_ring capacity) ≡ [])
unfolding new_ring occupied
new_ring-IsValid capacity h = (
  record {
    small = h;
    buffer = length-zeros capacity;
    write_in = omega arith;
    linked = refl;
    apart = tt;
    counted = omega arith;
    bounded = omega arith;
  },
  refl,
)

-- Whatever sequence of steps the threads take on a fresh ring of a capacity below 2 ^ 31, the state is
-- valid, and the same events are a run of the queue, from the empty queue to the blocks of the ring:
-- each handle has the item of its request at the end of the queue, with the request's size and labels,
-- an attempt that gives no handle adds a dummy, and the bytes written, the hand-overs and the reports
-- to the consumer are the queue's.
pub Reach-new_ring :
    (capacity : ℕ) {s : RingBuffer} {trace : List Event}
    → capacity < 2 ^ 31
    → Reach (Step capacity) (new_ring capacity) trace s
    → IsValid capacity s × Reach QueueStep [] trace (contents s)
Reach-new_ring capacity {s} {trace} h r =
    let (valid, fresh) = new_ring-IsValid capacity h in
    let (valid', run) = Reach-Simulated capacity valid r in
    (valid', subst (λ q. Reach QueueStep q trace (contents s)) fresh run)
