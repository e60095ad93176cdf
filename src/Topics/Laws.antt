-- ===== src/Topics/Laws.antt =====
-- The numbers of a message type's topics are stable and distinct; what of them a packet can carry.
use cbuf.Base.{
  ℕ, ◌+◌, ◌%◌, ◌^◌, ◌≤◌, ◌<◌, ◌≡◌, ◌≢◌, ◌↔◌, ◌⊎◌, ==-refl, subst, refl, sym, ap, none, some, List,
  [], ◌∷◌, ◌++◌, ◌==◌, ==_iff, if◌then◌else◌, length, length-append, get_elem?, arith, Bool-cases,
  Option-cases, inl, inr, ◌∙◌,
}
use cbuf.Base.Map.{lookup, lookup-insert}
use cbuf.Preamble.{Preamble, variant, set_variant}
use cbuf.Preamble.Laws.{IsWord, set_variant_lem}
use cbuf.Topics.{VariantDictionary, index_of, get_or_make_topic_variant}

-- The topics that are known for a message hash.
abbrev pub topics : ℕ → VariantDictionary → List ℕ
topics message_hash d = elim (lookup message_hash d) [ none ↦ [] | some ts ↦ ts ]

abbrev pub IsKnown : ℕ → ℕ → VariantDictionary → Type 0
IsKnown message_hash topic d =
    index_of topic (topics message_hash d) < length (topics message_hash d)

index_of-le : (t : ℕ) (ts : List ℕ) → index_of t ts ≤ length ts
unfolding index_of
index_of-le t [] = omega arith
index_of-le t (u ∷ ts) = ground (arith, index_of-le t ts)

index_of-append_known :
    (t : ℕ) (ts us : List ℕ) → index_of t ts < length ts → index_of t (ts ++ us) ≡ index_of t ts
unfolding index_of
index_of-append_known t [] us h = absurd (omega arith)
index_of-append_known t (u ∷ ts) us h = ground (arith, index_of-append_known t ts us)

index_of-append_new :
    (t : ℕ) (ts : List ℕ) → index_of t ts ≡ length ts → index_of t (ts ++ (t ∷ [])) ≡ length ts
unfolding index_of
index_of-append_new t [] h = ground arith
index_of-append_new t (u ∷ ts) h = ground (arith, index_of-append_new t ts)

get_elem?-index_of :
    (t : ℕ) (ts : List ℕ) → index_of t ts < length ts → get_elem? ts (index_of t ts) ≡ some t
unfolding index_of
get_elem?-index_of t [] h = absurd (omega arith)
get_elem?-index_of t (u ∷ ts) h = ground (arith, get_elem?-index_of t ts)

-- A call returns the topic's place among the known ones, counted from 1; a new topic's place is
-- behind them.
number-eq :
    (h t : ℕ) (d : VariantDictionary)
    → (get_or_make_topic_variant h t d).0 ≡ index_of t (topics h d) + 1
unfolding get_or_make_topic_variant index_of
number-eq h t d = ground arith

-- A new topic goes behind the message's topics; nothing else changes.
topics-after :
    (h t j : ℕ) (d : VariantDictionary)
    → topics j (get_or_make_topic_variant h t d).1 ≡ (
        if h == j
        then if index_of t (topics h d) == length (topics h d)
          then topics h d ++ (t ∷ [])
          else topics h d
        else topics j d)
unfolding get_or_make_topic_variant index_of
topics-after h t j d = elim (Option-cases (lookup h d)) [
  | inl new ↦ ground (arith, lookup-insert h j (t ∷ []) d)
  | inr (ts, old) ↦ ground (arith, lookup-insert h j (ts ++ (t ∷ [])) d)
]

-- Two known topics of a message have different numbers.
pub numbers_differ :
    (h t u : ℕ) (d : VariantDictionary)
    → IsKnown h t d
    → IsKnown h u d
    → t ≢ u
    → (get_or_make_topic_variant h t d).0 ≢ (get_or_make_topic_variant h u d).0
numbers_differ h t u d k l ne e =
    let ts = topics h d in
    let same : index_of t ts ≡ index_of u ts = omega (arith, number-eq h t d, number-eq h u d) in
    let found : some t ≡ some u =
      sym (get_elem?-index_of t ts k) ∙ ap (get_elem? ts) same ∙ get_elem?-index_of u ts l in
    ne (cc found)

topics-grow :
    (h t j : ℕ) (d : VariantDictionary)
    → let ts = topics j (get_or_make_topic_variant h t d).1 in
      (ts ≡ topics j d) ⊎ (ts ≡ topics j d ++ (t ∷ []))
topics-grow h t j d = elim (Bool-cases (h == j)) [
  | inl same ↦
      let e : h ≡ j = (==_iff h j).0 same in
      subst
        (λ k.
          let ts = topics k (get_or_make_topic_variant h t d).1 in
          (ts ≡ topics k d) ⊎ (ts ≡ topics k d ++ (t ∷ [])))
        e (ground (arith, topics-after h t h d))
  | inr other ↦ inl (topics-after h t j d ∙ rw other)
]

known-grown :
    (t : ℕ) (ts us : List ℕ) (u : ℕ)
    → (us ≡ ts) ⊎ (us ≡ ts ++ (u ∷ []))
    → index_of t ts < length ts
    → (index_of t us ≡ index_of t ts) × (index_of t us < length us)
known-grown t ts us u (inl e) k = rw e (refl, k)
known-grown t ts us u (inr e) k = rw e (
  index_of-append_known t ts (u ∷ []) k,
  omega (arith, index_of-append_known t ts (u ∷ []) k, length-append ts (u ∷ [])),
)

-- A known topic keeps its number, and stays known, whatever is logged after it.
pub numbers_stable :
    (h t j u : ℕ) (d : VariantDictionary)
    → IsKnown h t d
    → let d' = (get_or_make_topic_variant j u d).1 in
      ((get_or_make_topic_variant h t d').0 ≡ (get_or_make_topic_variant h t d).0) × IsKnown h t d'
numbers_stable h t j u d k =
    let d' = (get_or_make_topic_variant j u d).1 in
    let (same, more) = known-grown t (topics h d) (topics h d') u (topics-grow j u h d) k in
    (omega (arith, number-eq h t d', number-eq h t d, same), more)

-- A topic is known once it was logged.
pub logged-IsKnown :
    (h t : ℕ) (d : VariantDictionary) → IsKnown h t (get_or_make_topic_variant h t d).1
logged-IsKnown h t d = elim (Bool-cases (index_of t (topics h d) == length (topics h d))) [
  | inl new ↦
      let e = (==_iff _ _).0 new in
      let after : topics h (get_or_make_topic_variant h t d).1 ≡ topics h d ++ (t ∷ []) =
        topics-after h t h d ∙ rw (==-refl h, new) in
      rw after
        (omega (arith, index_of-append_new t (topics h d) e, length-append (topics h d) (t ∷ [])))
  | inr old ↦
      let after : topics h (get_or_make_topic_variant h t d).1 ≡ topics h d =
        topics-after h t h d ∙ rw (==-refl h, old) in
      rw after (ground (arith, index_of-le t (topics h d)))
]

-- `pre->setVariant(getOrMakeTopicVariant(...))`: the number is cut to a byte and then to four bits.
-- The packet carries the topic's number exactly if the message has fewer than 16 topics up to it;
-- a later topic shows the number modulo 16.
pub packet_variant :
    (h t : ℕ) (d : VariantDictionary) (p q : Preamble)
    → IsWord p
    → set_variant ((get_or_make_topic_variant h t d).0 % 2 ^ 8) p ≡ some q
    → (variant q ≡ (get_or_make_topic_variant h t d).0 % 16)
      × ((variant q ≡ (get_or_make_topic_variant h t d).0) ↔ (index_of t (topics h d) < 15))
packet_variant h t d p q w e =
    let v = (set_variant_lem ((get_or_make_topic_variant h t d).0 % 2 ^ 8) p q w e).0 in
    let n = number-eq h t d in
    (omega (arith, v), (λ same. omega (arith, v, n), λ few. omega (arith, v, n)))
