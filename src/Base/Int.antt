-- ===== src/Base/Int.antt =====
-- Signed integers as a sign with a native number, and the 64-bit machine integers among them.
use Prim.Native.Nat.{ℕ, suc, ◌+◌, ◌-◌, ◌*◌, ◌/◌, ◌%◌, ◌^◌}
use mathlib.Core.Bool.{Bool, true, false}
use mathlib.Core.Option.{Option, none, some}
use cbuf.Base.Tests.{leb, ltb, if◌then◌else◌}

-- `negsuc n` stands for the integer -(n + 1).
pub data ℤ : Type 0 where
  pos : ℕ → ℤ
  negsuc : ℕ → ℤ

abbrev pub pos_part : ℤ → ℕ
pos_part (pos n) = n
pos_part (negsuc n) = 0

abbrev pub neg_part : ℤ → ℕ
neg_part (pos n) = 0
neg_part (negsuc n) = suc n

-- The difference of two numbers.
abbrev pub sub_ℕ : ℕ → ℕ → ℤ
sub_ℕ a b = if leb b a then pos (a - b) else negsuc (b - a - 1)

infixl 65 ◌+ℤ◌ ◌-ℤ◌
infixl 70 ◌*ℤ◌
unfoldable pub ◌+ℤ◌ : ℤ → ℤ → ℤ
a +ℤ b = sub_ℕ (pos_part a + pos_part b) (neg_part a + neg_part b)

unfoldable pub ◌-ℤ◌ : ℤ → ℤ → ℤ
a -ℤ b = sub_ℕ (pos_part a + neg_part b) (neg_part a + pos_part b)

unfoldable pub ◌*ℤ◌ : ℤ → ℤ → ℤ
a *ℤ b =
    sub_ℕ (pos_part a * pos_part b + neg_part a * neg_part b)
      (pos_part a * neg_part b + neg_part a * pos_part b)

-- The size of an integer, whatever its sign.
abbrev pub magnitude : ℤ → ℕ
magnitude a = pos_part a + neg_part a

abbrev pub is_negative : ℤ → Bool
is_negative (pos n) = false
is_negative (negsuc n) = true

-- Division that rounds towards zero, and its remainder, which has the dividend's sign.
unfoldable pub div_ℤ : ℤ → ℤ → ℤ
div_ℤ a b =
    let q = magnitude a / magnitude b in
    if is_negative a
    then if is_negative b then pos q else sub_ℕ 0 q
    else if is_negative b
    then sub_ℕ 0 q
    else pos q

unfoldable pub mod_ℤ : ℤ → ℤ → ℤ
mod_ℤ a b = let r = magnitude a % magnitude b in if is_negative a then sub_ℕ 0 r else pos r

-- The int64_t with the bits of a uint64_t.
unfoldable pub s64_of_u64 : ℕ → ℤ
s64_of_u64 w = if ltb w (2 ^ 63) then pos w else negsuc (2 ^ 64 - w - 1)

-- The result of an int64_t operation: `none` where it overflows, which C++ leaves undefined.
unfoldable pub s64 : ℤ → Option ℤ
s64 (pos n) = if ltb n (2 ^ 63) then some (pos n) else none
s64 (negsuc n) = if ltb n (2 ^ 63) then some (negsuc n) else none
