-- ===== src/Ring/Blocks.antt =====
-- The live blocks of a `RingBuffer`: they follow one another round the buffer, under consecutive
-- ids, up to the write mark.
use cbuf.Base.{
  ℕ, zero, suc, ◌+◌, ◌%◌, ◌^◌, ◌≤◌, ◌<◌, ◌≡◌, refl, ap, sym, Bool, true, false, none, some, List,
  [], ◌∷◌, ◌++◌, length, ◌==◌, if◌then◌else◌, arith, ◌∙◌, Bool-cases, inl, inr, ==_iff, subst,
}
use cbuf.Base.Map.{lookup, insert, insert_new}
use cbuf.Ring.{dummy, Allocation, key, next_id}

abbrev pub Blocks : Type 0
Blocks = List (ℕ × Allocation)

abbrev pub is_dummy : Allocation → Bool
is_dummy a = elim a.kind [ dummy ↦ true | _ ↦ false ]

-- where the next block begins: a dummy ends the buffer
abbrev pub next_begin : Allocation → ℕ
next_begin a = if is_dummy a then 0 else a.begin + a.size

abbrev pub first_begin : Blocks → ℕ → ℕ
first_begin [] w = w
first_begin ((k, a) ∷ m) w = a.begin

-- what a block counts for in `m_sizeAllocated` when it is allocated
abbrev pub cost : Allocation → ℕ
cost a = if a.size == 0 then 1 else a.size

unfoldable pub occupied : Blocks → ℕ
occupied [] = 0
occupied ((k, a) ∷ m) = cost a + occupied m

pub record IsPlaced (capacity : ℕ) (a : Allocation) : Type 0 where
  pub fits : a.begin + a.size ≤ capacity
  pub at_end : is_dummy a ≡ true → a.begin + a.size ≡ capacity
  pub has_data : is_dummy a ≡ false → 0 < a.size

-- The blocks have the ids from `i` up to `n`, and lie one behind the other up to `w`.
abbrev pub Linked : ℕ → ℕ → Blocks → ℕ → ℕ → Type 0
Linked capacity i [] w n = i ≡ n
Linked capacity i ((k, a) ∷ m) w n =
    (k ≡ key i)
    × (a.id ≡ i)
    × IsPlaced capacity a
    × (next_begin a ≡ first_begin m w)
    × Linked capacity (next_id i) m w n

pub length-le-occupied : (m : Blocks) → length m ≤ occupied m
unfolding occupied
length-le-occupied [] = omega arith
length-le-occupied ((k, a) ∷ m) = ground (arith, length-le-occupied m)

-- The next id's key is that many steps on.
key-Linked :
    (capacity i : ℕ) (m : Blocks) (w n : ℕ)
    → Linked capacity i m w n
    → key n ≡ (key i + length m) % 2 ^ 32
key-Linked capacity i [] w n h = omega (arith, ap key h)
key-Linked capacity i ((k, a) ∷ m) w n h = omega (arith, key-Linked capacity (next_id i) m w n h.4)

-- A key at least as many steps on as there are blocks is not in the map.
lookup_beyond :
    (capacity i : ℕ) (m : Blocks) (w n d j : ℕ)
    → Linked capacity i m w n
    → j ≡ (key i + d) % 2 ^ 32
    → length m ≤ d
    → d < 2 ^ 32
    → lookup j m ≡ none
unfolding lookup
lookup_beyond capacity i [] w n d j h e l u = refl
lookup_beyond capacity i ((k, a) ∷ m) w n zero j h e l u = absurd (omega arith)
lookup_beyond capacity i ((k, a) ∷ m) w n (suc d) j h e l u =
    ground (arith, h.0, lookup_beyond capacity (next_id i) m w n d j h.4 (omega arith))

pub insert-Linked :
    (capacity i : ℕ) (m : Blocks) (w n : ℕ) (a : Allocation)
    → Linked capacity i m w n
    → occupied m < 2 ^ 32
    → insert (key n) a m ≡ m ++ ((key n, a) ∷ [])
insert-Linked capacity i m w n a h u = insert_new (key n) a m (
    lookup_beyond capacity i m w n (length m) (key n) h (key-Linked capacity i m w n h)
      (omega arith) (omega (arith, length-le-occupied m)))

first_begin-append :
    (m : Blocks) (k : ℕ) (a : Allocation) (w' : ℕ)
    → first_begin (m ++ ((k, a) ∷ [])) w' ≡ first_begin m a.begin
first_begin-append [] k a w' = refl
first_begin-append ((j, b) ∷ m) k a w' = refl

pub Linked-append :
    (capacity i : ℕ) (m : Blocks) (w n : ℕ) (a : Allocation)
    → Linked capacity i m w n
    → a.begin ≡ w
    → a.id ≡ n
    → IsPlaced capacity a
    → Linked capacity i (m ++ ((key n, a) ∷ [])) (next_begin a) (next_id n)
Linked-append capacity i [] w n a h b d p = (ap key (sym h), d ∙ sym h, p, refl, ap next_id h)
Linked-append capacity i ((k, c) ∷ m) w n a h b d p = (
  h.0,
  h.1,
  h.2,
  h.3 ∙ ap (first_begin m) (sym b) ∙ sym (first_begin-append m (key n) a (next_begin a)),
  Linked-append capacity (next_id i) m w n a h.4 b d p,
)

pub occupied-append :
    (m : Blocks) (k : ℕ) (a : Allocation) → occupied (m ++ ((k, a) ∷ [])) ≡ occupied m + cost a
unfolding occupied
occupied-append [] k a = omega arith
occupied-append ((j, b) ∷ m) k a = omega (arith, occupied-append m k a)

-- A block rewritten in place, with its region, its id and its sort kept.
pub record SameBlock (a b : Allocation) : Type 0 where
  pub size : a.size ≡ b.size
  pub begin : a.begin ≡ b.begin
  pub id : a.id ≡ b.id
  pub sort : is_dummy a ≡ is_dummy b

same-IsPlaced :
    (capacity : ℕ) (a b : Allocation) → SameBlock a b → IsPlaced capacity a → IsPlaced capacity b
same-IsPlaced capacity a b s p = ground (arith, p.at_end, p.has_data)

same-begin : (a b : Allocation) → SameBlock a b → (next_begin b ≡ next_begin a) × (cost b ≡ cost a)
same-begin a b s = ground arith

-- What a rewrite in place leaves as it was.
pub insert_same :
    (capacity i : ℕ) (m : Blocks) (w n k : ℕ) (a b : Allocation)
    → lookup k m ≡ some a
    → SameBlock a b
    → Linked capacity i m w n
    → Linked capacity i (insert k b m) w n
      × (first_begin (insert k b m) w ≡ first_begin m w)
      × (occupied (insert k b m) ≡ occupied m)
unfolding lookup insert occupied
insert_same capacity i [] w n k a b e s h = cc
insert_same capacity i ((j, c) ∷ m) w n k a b e s h = elim (Bool-cases (j == k)) [
  | inl same ↦
      let t : SameBlock c b = subst (λ z. SameBlock z b) (cc (rw same at e)) s in
      let (next, count) = same-begin c b t in
      rw same (
        (
          sym ((==_iff j k).0 same) ∙ h.0,
          sym t.id ∙ h.1,
          same-IsPlaced capacity c b t h.2,
          next ∙ h.3,
          h.4,
        ),
        sym t.begin,
        ap (λ x. x + occupied m) count,
      )
  | inr other ↦
      let ih = insert_same capacity (next_id i) m w n k a b (rw other at e) s h.4 in
      rw other ((h.0, h.1, h.2, h.3 ∙ sym ih.1, ih.0), refl, ap (λ x. cost c + x) ih.2)
]
