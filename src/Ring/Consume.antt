-- ===== src/Ring/Consume.antt =====
-- The consumer's methods: `lastUnread`, `consume` and `dequeue`.
use cbuf.Base.{
  ℕ, ◌+◌, ◌≤◌, ◌≡◌, ◌≢◌, refl, sym, ap, Bool, some, none, List, [], ◌∷◌, ==_iff, arith, ◌∙◌, subst,
  dec_lt, lt→ltb, ltb-eq-false,
}
use cbuf.Base.Map.{lookup, erase}
use cbuf.Ring.{
  AllocationType, empty, dummy, populated, Allocation, RingBuffer, Outcome, waits, faults, returns,
  key, next_id, u32_sub, packet, Report, not_ready, ready, if_ready, was_ready, freed, oldest_of,
  with_oldest, last_unread, free_oldest, consume, dequeue,
}
use cbuf.Ring.Blocks.{Blocks, cost, occupied, Linked}
use cbuf.Ring.Apart.{Apart}
use cbuf.Ring.Queue
use cbuf.Ring.Queue.{Item, Queue}
use cbuf.Ring.Valid.{IsValid, Ensures}
use cbuf.Ring.Fifo.{item, items}
use cbuf.Ring.Produce.{contents}

-- The consumer sleeps only on a ring that holds nothing.
abbrev pub Idle : RingBuffer → Type 0
Idle s = (s.size_allocated ≡ 0) × (s.allocations ≡ [])

empty_of_zero : (m : Blocks) → occupied m ≤ 0 → m ≡ []
unfolding occupied
empty_of_zero [] h = refl
empty_of_zero ((k, a) ∷ m) h = absurd (ground arith)

if_ready_rule :
    (W : Type 0) (P : Report → RingBuffer → Type 0) (s : RingBuffer) (o : Outcome Report)
    (t : AllocationType)
    → (t ≡ empty → P not_ready s)
    → (t ≢ empty → Ensures W P o)
    → Ensures W P (if_ready t s o)
if_ready_rule W P s o empty f g = f refl
if_ready_rule W P s o dummy f g = g (cc)
if_ready_rule W P s o populated f g = g (cc)

oldest_found :
    (j : ℕ) (a : Allocation) (r : Blocks) (id : ℕ) (s : RingBuffer)
    (use_block : Allocation → Outcome Report)
    → j ≡ key id
    → oldest_of ((j, a) ∷ r) id s use_block ≡ if_ready a.kind s (use_block a)
unfolding oldest_of lookup
oldest_found j a r id s use_block h = rw ((==_iff j (key id)).1 h, oldest_of)

-- A rule for the three methods: the ring is idle, or holds no block, or its oldest block is not
-- handed over, or is used.
module _ {capacity : ℕ} (P : Report → RingBuffer → Type 0) (s : RingBuffer) (v : IsValid capacity s)
    (use_block : Allocation → Outcome Report) where
  abbrev pub Cases : Blocks → Type 0
  Cases [] = P not_ready s
  Cases ((j, a) ∷ r) =
      (a.kind ≡ empty → P not_ready s) × (a.kind ≢ empty → Ensures (Idle s) P (use_block a))

  oldest_rule :
      (m : Blocks)
      → Linked capacity s.last_unfreed_id m s.write s.allocation_id
      → Cases m
      → Ensures (Idle s) P (oldest_of m s.last_unfreed_id s use_block)
  unfolding oldest_of
  oldest_rule [] h c = c
  oldest_rule ((j, a) ∷ r) h c =
      subst (Ensures (Idle s) P) (sym (oldest_found j a r s.last_unfreed_id s use_block h.0))
        (if_ready_rule (Idle s) P s (use_block a) a.kind c.0 c.1)

  pub with_oldest_rule : Cases s.allocations → Ensures (Idle s) P (with_oldest use_block s)
  unfolding with_oldest
  with_oldest_rule c = elim (dec_lt 0 s.size_allocated) [
    | yes held ↦ rw (lt→ltb _ _ held) (oldest_rule s.allocations v.linked c)
    | no none_held ↦
        rw (ltb-eq-false _ _ none_held)
          (omega arith, empty_of_zero s.allocations (omega (arith, v.counted)))
  ]

erase_head : (k j : ℕ) (a : Allocation) (r : Blocks) → j ≡ k → erase k ((j, a) ∷ r) ≡ r
unfolding erase
erase_head k j a r h = rw ((==_iff j k).1 h)

-- Freeing the oldest block keeps the invariant and leaves the others as they are.
pub free_IsValid :
    (capacity : ℕ) (s : RingBuffer) (j : ℕ) (a : Allocation) (r : Blocks)
    → IsValid capacity s
    → s.allocations ≡ (j, a) ∷ r
    → IsValid capacity (free_oldest a s) × ((free_oldest a s).allocations ≡ r)
unfolding erase occupied
free_IsValid capacity s j a r v e =
    let linked : Linked capacity s.last_unfreed_id ((j, a) ∷ r) s.write s.allocation_id =
      subst (λ m. Linked capacity s.last_unfreed_id m s.write s.allocation_id) e v.linked in
    let apart : Apart ((j, a) ∷ r) = subst Apart e v.apart in
    let count : cost a + occupied r ≤ s.size_allocated =
      subst (λ m. occupied m ≤ s.size_allocated) e v.counted in
    let key_eq : j ≡ key a.id = linked.0 ∙ ap key (sym linked.1) in
    let rest : erase (key a.id) s.allocations ≡ r =
      ap (erase (key a.id)) e ∙ erase_head (key a.id) j a r key_eq in
    let spent : a.size ≤ cost a = ground arith in
    (
      record {
        small = v.small;
        buffer = v.buffer;
        write_in = v.write_in;
        linked =
            subst (λ m. Linked capacity (next_id s.last_unfreed_id) m s.write s.allocation_id)
              (sym rest) linked.4;
        apart = subst Apart (sym rest) apart.1;
        counted =
            subst (λ m. occupied m ≤ u32_sub s.size_allocated a.size) (sym rest)
              (omega (arith, spent, count, v.bounded, v.small));
        bounded = omega (arith, spent, count, v.bounded, v.small);
      },
      rest,
    )

pop-item :
    (buf : List ℕ) (j : ℕ) (a : Allocation) (q : Queue)
    → a.kind ≢ empty
    → Queue.pop (item buf (j, a) ∷ q) ≡ (ready (packet buf none a), q)
unfolding Queue.pop
pop-item buf j a q h = ground arith

pop-item_empty :
    (buf : List ℕ) (j : ℕ) (a : Allocation) (q : Queue)
    → a.kind ≡ empty
    → Queue.pop (item buf (j, a) ∷ q) ≡ (not_ready, item buf (j, a) ∷ q)
unfolding Queue.pop
pop-item_empty buf j a q h = rw h

peek-item :
    (buf : List ℕ) (j : ℕ) (a : Allocation) (q : Queue)
    → a.kind ≢ empty
    → Queue.peek (item buf (j, a) ∷ q) ≡ ready (packet buf (some a.topic_name_hash) a)
unfolding Queue.peek
peek-item buf j a q h = ground arith

peek-item_empty :
    (buf : List ℕ) (j : ℕ) (a : Allocation) (q : Queue)
    → a.kind ≡ empty
    → Queue.peek (item buf (j, a) ∷ q) ≡ not_ready
unfolding Queue.peek
peek-item_empty buf j a q h = rw h

module _ (capacity : ℕ) (s : RingBuffer) (v : IsValid capacity s) where
  -- `report` and the queue that is left are what the queue's `pop` gives.
  abbrev pub Pops : Report → RingBuffer → Type 0
  Pops report s' = IsValid capacity s' × ((report, contents s') ≡ Queue.pop (contents s))

  -- `report` is what the queue's `peek` shows, and nothing changes.
  abbrev pub Peeks : Report → RingBuffer → Type 0
  Peeks report s' = (s' ≡ s) × (report ≡ Queue.peek (contents s))

  consume-Cases :
      (m : Blocks)
      → s.allocations ≡ m
      → Cases Pops s v (λ a. returns (ready (packet s.buf none a)) (free_oldest a s)) m
  unfolding Queue.pop
  consume-Cases [] e = let c : contents s ≡ [] = ap (items s.buf) e in (v, rw c)
  consume-Cases ((j, a) ∷ r) e =
      let c : contents s ≡ item s.buf (j, a) ∷ items s.buf r = ap (items s.buf) e in
      let (valid, rest) = free_IsValid capacity s j a r v e in
      let shown = ap {B = Report × Queue} (λ q. (not_ready, q)) c in
      let left : contents (free_oldest a s) ≡ items s.buf r = ap (items s.buf) rest in
      let taken = ap {B = Report × Queue} (λ q. (ready (packet s.buf none a), q)) left in
      (
        λ k. (v, shown ∙ sym (pop-item_empty s.buf j a (items s.buf r) k) ∙ ap Queue.pop (sym c)),
        λ k. (valid, taken ∙ sym (pop-item s.buf j a (items s.buf r) k) ∙ ap Queue.pop (sym c)),
      )

  -- `consume` on a valid ring is the queue's `pop`: it reports the oldest block with the very bytes
  -- that its item has, or a dummy, and frees it, or reports that nothing is handed over. It never
  -- faults, and it sleeps only on a ring that holds nothing.
  pub consume_refines : Ensures (Idle s) Pops (consume s)
  unfolding consume
  consume_refines = with_oldest_rule Pops s v _ (consume-Cases s.allocations refl)

  peek-Cases :
      (m : Blocks)
      → s.allocations ≡ m
      → Cases Peeks s v (λ a. returns (ready (packet s.buf (some a.topic_name_hash) a)) s) m
  unfolding Queue.peek
  peek-Cases [] e = let c : contents s ≡ [] = ap (items s.buf) e in (refl, rw c)
  peek-Cases ((j, a) ∷ r) e =
      let q = items s.buf r in
      let c : contents s ≡ item s.buf (j, a) ∷ q = ap (items s.buf) e in
      (
        λ k. (refl, sym (peek-item_empty s.buf j a q k) ∙ ap Queue.peek (sym c)),
        λ k. (refl, sym (peek-item s.buf j a q k) ∙ ap Queue.peek (sym c)),
      )

  -- `lastUnread` of a valid ring shows the oldest block of the queue as `consume` would hand it over,
  -- and the hash of its topic's name, and changes nothing. It never faults, and it sleeps only on a
  -- ring that holds nothing.
  pub last_unread-Peeks : Ensures (Idle s) Peeks (last_unread s)
  unfolding last_unread
  last_unread-Peeks = with_oldest_rule Peeks s v _ (peek-Cases s.allocations refl)

  -- `done` tells whether a block was freed, and the queue has lost what `pop` takes.
  abbrev pub Drops : Bool → RingBuffer → Type 0
  Drops done s' =
      IsValid capacity s'
      × (done ≡ was_ready (Queue.pop (contents s)).0)
      × (contents s' ≡ (Queue.pop (contents s)).1)

  drop-Cases :
      (m : Blocks)
      → s.allocations ≡ m
      → Cases
          (λ report. Drops (was_ready report))
          s
          v
          (λ a. returns (ready none) (free_oldest a s))
          m
  unfolding Queue.pop
  drop-Cases [] e = let c : contents s ≡ [] = ap (items s.buf) e in (v, rw c, rw c)
  drop-Cases ((j, a) ∷ r) e =
      let q = items s.buf r in
      let c : contents s ≡ item s.buf (j, a) ∷ q = ap (items s.buf) e in
      let (valid, rest) = free_IsValid capacity s j a r v e in
      (
        λ k.
            let p = sym (pop-item_empty s.buf j a q k) ∙ ap Queue.pop (sym c) in
            (v, ap (λ p. was_ready p.0) p, c ∙ ap (λ p. p.1) p),
        λ k.
            let p = sym (pop-item s.buf j a q k) ∙ ap Queue.pop (sym c) in
            (valid, ap (λ p. was_ready p.0) p, ap (items s.buf) rest ∙ ap (λ p. p.1) p),
      )

  freed_rule :
      (o : Outcome Report)
      → Ensures (Idle s) (λ report. Drops (was_ready report)) o
      → Ensures (Idle s) Drops (freed o)
  freed_rule waits h = h
  freed_rule faults h = h
  freed_rule (returns r s') h = h

  -- `dequeue` frees what `consume` would, and tells whether it freed a block.
  pub dequeue-Drops : Ensures (Idle s) Drops (dequeue s)
  unfolding dequeue
  dequeue-Drops = freed_rule _ (with_oldest_rule _ s v _ (drop-Cases s.allocations refl))
