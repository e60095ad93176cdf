-- ===== src/Preamble/Laws.antt =====
-- Size and variant are two fields of the preamble: each setter sets its own and keeps the other.
use cbuf.Base.{ℕ, ◌%◌, ◌^◌, ◌<◌, ◌≡◌, some, arith}
use cbuf.Preamble.{Preamble, has_variant, size, set_size, variant, set_variant}

-- The word is a uint32_t.
abbrev pub IsWord : Preamble → Type 0
IsWord p = p.size_word < 2 ^ 32

-- What a setter may change: the size word.
abbrev pub OnlyWord : Preamble → Preamble → Type 0
OnlyWord p q = (q.magic ≡ p.magic) × (q.hash ≡ p.hash) × (q.packet_timest ≡ p.packet_timest)

-- A size that `setSize` accepts is read back, and the variant and the other fields stay as they were.
pub set_size_lem :
    (sz : ℕ) (p q : Preamble)
    → IsWord p
    → set_size sz p ≡ some q
    → (size q ≡ sz) × (variant q ≡ variant p) × OnlyWord p q × IsWord q
unfolding set_size size variant has_variant
set_size_lem sz p q w h = ground arith

-- `setVariant` writes the low four bits of its argument, and keeps the size and the other fields.
pub set_variant_lem :
    (v : ℕ) (p q : Preamble)
    → IsWord p
    → set_variant v p ≡ some q
    → (variant q ≡ v % 16) × (size q ≡ size p) × OnlyWord p q × IsWord q
unfolding set_variant size variant has_variant
set_variant_lem v p q w h = ground arith
