-- ===== src/Preamble.antt =====
-- `cbuf_preamble` of include/cbuf_preamble.h: a packet's size and variant packed in one word.
-- A mask is written by `/` and `%`, and an `|` of words without common bits as a sum.
pub mod Laws
mod Tests
use cbuf.Base.{ℕ, ◌+◌, ◌-◌, ◌*◌, ◌/◌, ◌%◌, ◌^◌, Bool, Option, none, some, ltb, ◌==◌, if◌then◌else◌}

-- `packet_timest` is a double, and only moved: its bit pattern.
pub record Preamble : Type 0 where
  pub magic : ℕ
  pub size_word : ℕ
  pub hash : ℕ
  pub packet_timest : ℕ

-- ('V' << 24) | ('D' << 16) | ('N' << 8) | 'T'
abbrev pub cbuf_magic : ℕ
cbuf_magic = b'V' * 2 ^ 24 + b'D' * 2 ^ 16 + b'N' * 2 ^ 8 + b'T'

-- `operator==` reads no timestamp.
unfoldable pub same_preamble : Preamble → Preamble → Bool
same_preamble p q =
    if p.magic == q.magic
    then (if p.size_word == q.size_word then p.hash == q.hash else Bool.false)
    else Bool.false

-- `_hasVariant`: bit 31
unfoldable pub has_variant : Preamble → Bool
has_variant p = p.size_word / 2 ^ 31 % 2 == 1

unfoldable pub size : Preamble → ℕ
unfolding has_variant
size p = if has_variant p then p.size_word % 2 ^ 27 else p.size_word % 2 ^ 31

-- `setSize`; `none` is a failed assert.
unfoldable pub set_size : ℕ → Preamble → Option Preamble
unfolding has_variant
set_size sz p =
    if has_variant p
    then if ltb sz 0x07ffffff
      then some (record p { size_word = p.size_word / 2 ^ 27 * 2 ^ 27 + sz % 2 ^ 27 })
      else none
    else if ltb sz 0x7fffffff
    then some (record p { size_word = sz % 2 ^ 31 })
    else none

unfoldable pub variant : Preamble → ℕ
unfolding has_variant
variant p = if has_variant p then p.size_word / 2 ^ 27 % 16 else 0

-- `setVariant`; `none` is a failed assert.
unfoldable pub set_variant : ℕ → Preamble → Option Preamble
unfolding has_variant size
set_variant v p =
    if v == 0
    then if has_variant p then some (record p { size_word = p.size_word % 2 ^ 27 }) else some p
    else if has_variant p
    then some (record p { size_word = 2 ^ 31 + v % 16 * 2 ^ 27 + size p })
    else if ltb (p.size_word % 2 ^ 31) 0x07ffffff
    then some (record p { size_word = 2 ^ 31 + v % 16 * 2 ^ 27 + p.size_word % 2 ^ 27 })
    else none
