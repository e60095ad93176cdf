-- ===== src/Ring/Produce.antt =====
-- The producers' `populate`: its copy and its mark.
use cbuf.Base.{
  ℕ, ◌≡◌, refl, ap, true, false, Option, none, some, List, [], ◌∷◌, ◌++◌, length, take, take_all,
  arith, Bool-cases, inl, inr, ◌==◌, ◌∙◌, subst,
}
use cbuf.Base.Map.{lookup, insert}
use mathlib.Core.List.{map-append}
use cbuf.Ring.{
  empty, populated, Allocation, RingBuffer, returns, key, next_id, write_at, populate_copy,
  populate_mark, populate,
}
use cbuf.Ring.Blocks.{insert_same, is_dummy, SameBlock, IsPlaced, Linked, Blocks}
use cbuf.Ring.Apart.{insert-Apart}
use cbuf.Ring.Bytes.{length-write_at}
use cbuf.Ring.Queue
use cbuf.Ring.Queue.{Queue}
use cbuf.Ring.Valid.{IsValid}
use cbuf.Ring.Fifo.{item, items, items-write_at, items-mark}

abbrev pub contents : RingBuffer → Queue
contents s = items s.buf s.allocations

-- A block that the map holds lies in the buffer.
lookup-IsPlaced :
    (capacity i : ℕ) (m : Blocks) (w n k : ℕ) (a : Allocation)
    → Linked capacity i m w n
    → lookup k m ≡ some a
    → IsPlaced capacity a
unfolding lookup
lookup-IsPlaced capacity i [] w n k a h e = cc
lookup-IsPlaced capacity i ((j, c) ∷ m) w n k a h e = elim (Bool-cases (j == k)) [
  | inl same ↦ subst (IsPlaced capacity) (cc (rw same at e)) h.2
  | inr other ↦ lookup-IsPlaced capacity (next_id i) m w n k a h.4 (rw other at e)
]

module _ (capacity dst : ℕ) (src : List ℕ) (a : Allocation) (s : RingBuffer) where
  -- The copy into a block that is not yet handed over keeps the invariant, and changes the bytes of
  -- that block alone.
  pub populate_copy_refines :
      IsValid capacity s
      → lookup (key dst) s.allocations ≡ some a
      → a.kind ≡ empty
      → length src ≡ a.size
      → (s' : RingBuffer) × (populate_copy dst src s ≡ returns tt s')
        × IsValid capacity s'
        × (s'.allocations ≡ s.allocations)
        × (contents s' ≡ Queue.fill (key dst) src (contents s))
  unfolding populate_copy
  populate_copy_refines v e k l =
      let p =
        lookup-IsPlaced capacity s.last_unfreed_id s.allocations s.write s.allocation_id (key dst) a
          v.linked e in
      let whole : take a.size src ≡ src = subst (λ n. take n src ≡ src) l (take_all src) in
      let live : is_dummy a ≡ false = rw k in
      (
        record s { buf = write_at s.buf a.begin src },
        ground arith,
        record {
          small = v.small;
          buffer = length-write_at s.buf a.begin src ∙ v.buffer;
          write_in = v.write_in;
          linked = v.linked;
          apart = v.apart;
          counted = v.counted;
          bounded = v.bounded;
        },
        refl,
        items-write_at s.buf src s.allocations (key dst) a e v.apart live
            (omega (arith, p.fits, v.buffer)) l,
      )

module _ (capacity dst : ℕ) (a : Allocation) (s : RingBuffer) where
  -- The mark keeps the invariant, and hands the block over as it is.
  pub populate_mark_refines :
      IsValid capacity s
      → lookup (key dst) s.allocations ≡ some a
      → a.kind ≡ empty
      → (s' : RingBuffer) × (populate_mark dst s ≡ returns true s')
        × IsValid capacity s'
        × (contents s' ≡ Queue.mark (key dst) (contents s))
  unfolding populate_mark
  populate_mark_refines v e k =
      let same : SameBlock a (record a { kind = populated }) = record {
        size = refl;
        begin = refl;
        id = refl;
        sort = rw k;
      } in
      let (linked, _, count) =
        insert_same capacity s.last_unfreed_id s.allocations s.write s.allocation_id (key dst) a _ e
          same v.linked in
      (
        record s { allocations = insert (key dst) (record a { kind = populated }) s.allocations },
        ground arith,
        record {
          small = v.small;
          buffer = v.buffer;
          write_in = v.write_in;
          linked = linked;
          apart = insert-Apart s.allocations (key dst) a _ e same v.apart;
          counted = omega (arith, count, v.counted);
          bounded = v.bounded;
        },
        items-mark s.buf s.allocations (key dst) a e k,
      )

-- The source, where there is one, has as many bytes as the block.
abbrev pub Fits : Option (List ℕ) → Allocation → Type 0
Fits none a = Unit
Fits (some bytes) a = length bytes ≡ a.size

module _ (capacity dst : ℕ) (a : Allocation) (s : RingBuffer) where
  -- `populate` of a valid ring's block that is still empty returns true, keeps the invariant, and
  -- hands the block over: with the source's bytes, if it is given as many as the block has, or with
  -- the bytes that lie there. No other block changes.
  pub populate_refines :
      (src : Option (List ℕ))
      → IsValid capacity s
      → lookup (key dst) s.allocations ≡ some a
      → a.kind ≡ empty
      → Fits src a
      → (s' : RingBuffer) × (populate dst src s ≡ returns true s')
        × IsValid capacity s'
        × (contents s'
            ≡ Queue.mark (key dst) (elim src [
              | none ↦ contents s
              | some bytes ↦ Queue.fill (key dst) bytes (contents s)
            ]))
  unfolding populate
  populate_refines none v e k l =
      let (s', run, valid, done) = populate_mark_refines capacity dst a s v e k in
      (s', ground arith, valid, done)
  populate_refines (some bytes) v e k l =
      let (s₁, run₁, valid₁, same, filled) = populate_copy_refines capacity dst bytes a s v e k l in
      let (s', run, valid, done) = populate_mark_refines capacity dst a s₁ valid₁ (rw same e) k in
      (s', ground arith, valid, done ∙ ap (Queue.mark (key dst)) filled)

pub contents-append :
    (s s' : RingBuffer) (k : ℕ) (a : Allocation)
    → s'.allocations ≡ s.allocations ++ ((k, a) ∷ [])
    → s'.buf ≡ s.buf
    → contents s' ≡ contents s ++ (item s.buf (k, a) ∷ [])
contents-append s s' k a e f = rw (e, f, map-append)
