-- ===== src/Ring/Apart.antt =====
-- No two live blocks with data overlap, and a new block overlaps none of them.
use cbuf.Base.{
  ℕ, ◌+◌, ◌≤◌, ◌<◌, ◌≡◌, true, some, [], ◌∷◌, ◌++◌, ◌⊎◌, inl, inr, All, All-append, arith,
  Bool-cases, subst, ◌==◌,
}
use cbuf.Base.Map.{lookup, insert}
use cbuf.Ring.{Allocation, next_id}
use cbuf.Ring.Blocks.{Blocks, is_dummy, first_begin, occupied, Linked, SameBlock}

unfoldable pub total : Blocks → ℕ
total [] = 0
total ((k, a) ∷ m) = a.size + total m

pub total-le-occupied : (m : Blocks) → total m ≤ occupied m
unfolding total occupied
total-le-occupied [] = omega arith
total-le-occupied ((k, a) ∷ m) = ground (arith, total-le-occupied m)

-- From the first block to the write mark there are as many bytes as the blocks have, round the
-- end of the buffer at most once.
round_once :
    (capacity i : ℕ) (m : Blocks) (w n : ℕ)
    → Linked capacity i m w n
    → total m < capacity
    → (first_begin m w + total m ≡ w) ⊎ (first_begin m w + total m ≡ w + capacity)
unfolding total
round_once capacity i [] w n h u = inl (omega arith)
round_once capacity i ((k, a) ∷ m) w n h u =
    let ih = round_once capacity (next_id i) m w n h.4 (omega arith) in
    let p = h.2 in let q = h.3 in ground (arith, p.at_end)

-- Two blocks with data do not overlap.
abbrev pub Separate : Allocation → Allocation → Type 0
Separate a b =
    (is_dummy a ≡ true)
    ⊎ (is_dummy b ≡ true)
    ⊎ (a.begin + a.size ≤ b.begin)
    ⊎ (b.begin + b.size ≤ a.begin)

abbrev pub Apart : Blocks → Type 0
Apart [] = Unit
Apart ((k, a) ∷ m) = All (λ e. Separate a e.1) m × Apart m

-- The room that is left lies outside every live block.
pub room_clear :
    (capacity i : ℕ) (m : Blocks) (w n size : ℕ)
    → Linked capacity i m w n
    → total m + size < capacity
    → w + size ≤ capacity
    → All (λ e. (e.1.begin + e.1.size ≤ w) ⊎ (w + size ≤ e.1.begin)) m
unfolding total
room_clear capacity i [] w n size h u v = tt
room_clear capacity i ((k, a) ∷ m) w n size h u v = (
  ground (arith, round_once capacity i ((k, a) ∷ m) w n h),
  room_clear capacity (next_id i) m w n size h.4 (omega arith) v,
)

-- A block behind the others keeps them apart, if the room that it takes is clear of them.
pub Apart-append :
    (m : Blocks) (k : ℕ) (a : Allocation)
    → Apart m
    → All (λ e. Separate e.1 a) m
    → Apart (m ++ ((k, a) ∷ []))
Apart-append [] k a h c = (tt, tt)
Apart-append ((j, b) ∷ m) k a h c =
    (All-append (λ e. Separate b e.1) m ((k, a) ∷ []) h.0 (c.0, tt), Apart-append m k a h.1 c.1)

pub clear-Separate :
    (m : Blocks) (a : Allocation)
    → All (λ e. (e.1.begin + e.1.size ≤ a.begin) ⊎ (a.begin + a.size ≤ e.1.begin)) m
    → All (λ e. Separate e.1 a) m
clear-Separate [] a h = tt
clear-Separate ((k, b) ∷ m) a h = (inr (inr h.0), clear-Separate m a h.1)

pub dummy-Separate : (m : Blocks) (a : Allocation) → is_dummy a ≡ true → All (λ e. Separate e.1 a) m
dummy-Separate [] a h = tt
dummy-Separate ((k, b) ∷ m) a h = (inr (inl h), dummy-Separate m a h)

-- A rewrite in place keeps the blocks apart.
Separate-same_left : (a b c : Allocation) → SameBlock a b → Separate a c → Separate b c
Separate-same_left a b c s h = ground arith

Separate-same_right : (a b c : Allocation) → SameBlock a b → Separate c a → Separate c b
Separate-same_right a b c s h = ground arith

All-insert :
    (m : Blocks) (k : ℕ) (a b c : Allocation)
    → lookup k m ≡ some a
    → SameBlock a b
    → All (λ e. Separate c e.1) m
    → All (λ e. Separate c e.1) (insert k b m)
unfolding lookup insert
All-insert [] k a b c e s h = cc
All-insert ((j, d) ∷ m) k a b c e s h = elim (Bool-cases (j == k)) [
  | inl same ↦
      let t : SameBlock d b = subst (λ z. SameBlock z b) (cc (rw same at e)) s in
      rw same (Separate-same_right d b c t h.0, h.1)
  | inr other ↦ rw other (h.0, All-insert m k a b c (rw other at e) s h.1)
]

All-same :
    (m : Blocks) (a b : Allocation)
    → SameBlock a b
    → All (λ e. Separate a e.1) m
    → All (λ e. Separate b e.1) m
All-same [] a b s h = tt
All-same ((k, c) ∷ m) a b s h = (Separate-same_left a b c s h.0, All-same m a b s h.1)

pub insert-Apart :
    (m : Blocks) (k : ℕ) (a b : Allocation)
    → lookup k m ≡ some a
    → SameBlock a b
    → Apart m
    → Apart (insert k b m)
unfolding lookup insert
insert-Apart [] k a b e s h = cc
insert-Apart ((j, c) ∷ m) k a b e s h = elim (Bool-cases (j == k)) [
  | inl same ↦
      let t : SameBlock c b = subst (λ z. SameBlock z b) (cc (rw same at e)) s in
      rw same (All-same m c b t h.0, h.1)
  | inr other ↦
      rw other
        (All-insert m k a b c (rw other at e) s h.0, insert-Apart m k a b (rw other at e) s h.1)
]
