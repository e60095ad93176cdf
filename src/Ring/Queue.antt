-- ===== src/Ring/Queue.antt =====
-- What a ring buffer promises: a queue of the blocks in the order of allocation, with no buffer.
use cbuf.Base.{ℕ, Option, none, some, List, [], ◌∷◌, ◌==◌, if◌then◌else◌}
use cbuf.Ring.{AllocationType, empty, dummy, populated, Packet, Report, not_ready, ready}

pub record Item : Type 0 where
  pub handle : ℕ
  pub kind : AllocationType
  pub bytes : List ℕ
  pub metadata : ℕ
  pub type_name : ℕ
  pub topic_name_hash : ℕ

abbrev pub Queue : Type 0
Queue = List Item

-- A producer writes the bytes of its block, and hands it over.
unfoldable pub fill : ℕ → List ℕ → Queue → Queue
fill k bytes [] = []
fill k bytes (x ∷ q) = if x.handle == k then record x { bytes = bytes } ∷ q else x ∷ fill k bytes q

unfoldable pub mark : ℕ → Queue → Queue
mark k [] = []
mark k (x ∷ q) = if x.handle == k then record x { kind = populated } ∷ q else x ∷ mark k q

abbrev pub item_packet : Option ℕ → Item → Packet
item_packet hash x = record {
  bytes = x.bytes;
  metadata = x.metadata;
  type_name = x.type_name;
  topic_name_hash = hash;
}

-- The consumer takes the oldest block, once it is handed over; it sees no bytes of a dummy.
unfoldable pub pop : Queue → Report × Queue
pop [] = (not_ready, [])
pop (x ∷ q) = elim x.kind [
  | empty ↦ (not_ready, x ∷ q)
  | dummy ↦ (ready none, q)
  | populated ↦ (ready (some (item_packet none x)), q)
]

-- A look at the oldest block, which stays; it shows the hash of the topic's name too.
unfoldable pub peek : Queue → Report
peek [] = not_ready
peek (x ∷ q) = elim x.kind [
  | empty ↦ not_ready
  | dummy ↦ ready none
  | populated ↦ ready (some (item_packet (some x.topic_name_hash) x))
]
