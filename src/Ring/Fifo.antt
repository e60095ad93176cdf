-- ===== src/Ring/Fifo.antt =====
-- A valid ring buffer is the queue of its blocks: each method is the queue's operation.
use cbuf.Base.{
  ℕ, ◌+◌, ◌≤◌, ◌≡◌, refl, sym, ap, ap₂, false, some, List, [], ◌∷◌, map, length, ◌==◌, ==_iff,
  if◌then◌else◌, All, arith, Bool-cases, inl, inr, subst,
}
use cbuf.Base.Map.{lookup, insert}
use cbuf.Ring.{empty, populated, Allocation, slice, write_at}
use cbuf.Ring.Blocks.{Blocks, is_dummy}
use cbuf.Ring.Apart.{Separate, Apart}
use cbuf.Ring.Bytes.{slice-write_at, slice-write_at_apart}
use cbuf.Ring.Queue
use cbuf.Ring.Queue.{Item, Queue}

abbrev pub item : List ℕ → ℕ × Allocation → Item
item buf (k, a) = record {
  handle = k;
  kind = a.kind;
  bytes = if is_dummy a then [] else slice buf a.begin a.size;
  metadata = a.metadata;
  type_name = a.type_name;
  topic_name_hash = a.topic_name_hash;
}

abbrev pub items : List ℕ → Blocks → Queue
items buf m = map (item buf) m

-- A copy into one block leaves the bytes of another.
item_apart :
    (buf bytes : List ℕ) (j : ℕ) (a c : Allocation)
    → Separate c a
    → is_dummy a ≡ false
    → length bytes ≡ a.size
    → item (write_at buf a.begin bytes) (j, c) ≡ item buf (j, c)
item_apart buf bytes j a c s d l =
    ground (arith, slice-write_at_apart buf a.begin bytes c.begin c.size)

items_apart :
    (buf bytes : List ℕ) (m : Blocks) (a : Allocation)
    → All (λ e. Separate a e.1) m
    → is_dummy a ≡ false
    → length bytes ≡ a.size
    → items (write_at buf a.begin bytes) m ≡ items buf m
items_apart buf bytes [] a s d l = refl
items_apart buf bytes ((j, c) ∷ m) a s d l =
    ap₂ ◌∷◌ (item_apart buf bytes j a c (ground arith) d l) (items_apart buf bytes m a s.1 d l)

All-lookup :
    (P : Allocation → Type 0) (m : Blocks) (k : ℕ) (a : Allocation)
    → lookup k m ≡ some a
    → All (λ e. P e.1) m
    → P a
unfolding lookup
All-lookup P [] k a e h = cc
All-lookup P ((j, c) ∷ m) k a e h = elim (Bool-cases (j == k)) [
  | inl same ↦ subst P (cc (rw same at e)) h.0
  | inr other ↦ All-lookup P m k a (rw other at e) h.1
]

item_filled :
    (buf bytes : List ℕ) (j : ℕ) (a : Allocation)
    → is_dummy a ≡ false
    → a.begin + a.size ≤ length buf
    → length bytes ≡ a.size
    → item (write_at buf a.begin bytes) (j, a) ≡ record (item buf (j, a)) { bytes = bytes }
item_filled buf bytes j a d u l =
    let read : slice (write_at buf a.begin bytes) a.begin a.size ≡ bytes =
      subst (λ n. slice (write_at buf a.begin bytes) a.begin n ≡ bytes) l
        (slice-write_at buf a.begin bytes (omega arith)) in
    rw (d, read)

item_marked :
    (buf : List ℕ) (j : ℕ) (a : Allocation)
    → a.kind ≡ empty
    → item buf (j, record a { kind = populated }) ≡ record (item buf (j, a)) { kind = populated }
item_marked buf j a h = ground arith

-- A copy into the block under `k` fills its item, and no other.
pub items-write_at :
    (buf bytes : List ℕ) (m : Blocks) (k : ℕ) (a : Allocation)
    → lookup k m ≡ some a
    → Apart m
    → is_dummy a ≡ false
    → a.begin + a.size ≤ length buf
    → length bytes ≡ a.size
    → items (write_at buf a.begin bytes) m ≡ Queue.fill k bytes (items buf m)
unfolding lookup Queue.fill
items-write_at buf bytes [] k a e h d u l = cc
items-write_at buf bytes ((j, c) ∷ m) k a e h d u l = elim (Bool-cases (j == k)) [
  | inl same ↦
      let t : a ≡ c = cc (rw same at e) in
      rw same (
        subst
          (λ z.
            item (write_at buf a.begin bytes) (j, z) ∷ items (write_at buf a.begin bytes) m
            ≡ record (item buf (j, z)) { bytes = bytes } ∷ items buf m)
          t
          (ap₂ ◌∷◌ (item_filled buf bytes j a d u l)
            (items_apart buf bytes m a (subst (λ z. All (λ e. Separate z e.1) m) (sym t) h.0) d l)))
  | inr other ↦ rw other (
      ap₂ ◌∷◌ (item_apart buf bytes j a c (All-lookup (Separate c) m k a (rw other at e) h.0) d l)
        (items-write_at buf bytes m k a (rw other at e) h.1 d u l))
]

pub items-mark :
    (buf : List ℕ) (m : Blocks) (k : ℕ) (a : Allocation)
    → lookup k m ≡ some a
    → a.kind ≡ empty
    → items buf (insert k (record a { kind = populated }) m) ≡ Queue.mark k (items buf m)
unfolding lookup insert Queue.mark
items-mark buf [] k a e h = cc
items-mark buf ((j, c) ∷ m) k a e h = elim (Bool-cases (j == k)) [
  | inl same ↦
      let t : a ≡ c = cc (rw same at e) in
      rw same (
        rw (← (==_iff j k).0 same) (
          subst
            (λ z.
              item buf (j, record a { kind = populated }) ∷ items buf m
              ≡ record (item buf (j, z)) { kind = populated } ∷ items buf m)
            t (ap (λ x. x ∷ items buf m) (item_marked buf j a h))))
  | inr other ↦ rw other (ap (λ r. item buf (j, c) ∷ r) (items-mark buf m k a (rw other at e) h))
]
