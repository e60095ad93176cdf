-- ===== src/Ring/Bytes.antt =====
-- What a copy into the buffer changes: the bytes of its own region and no other.
use cbuf.Base.{ℕ, zero, suc, ◌+◌, ◌≤◌, ◌≡◌, refl, ap, List, [], ◌∷◌, ◌⊎◌, length, take, arith}
use cbuf.Ring.{slice, write_at}

pub length-write_at :
    (buf : List ℕ) (begin : ℕ) (bytes : List ℕ) → length (write_at buf begin bytes) ≡ length buf
unfolding write_at
length-write_at [] begin bytes = refl
length-write_at (x ∷ buf) zero [] = refl
length-write_at (x ∷ buf) zero (b ∷ bytes) = ap suc (length-write_at buf zero bytes)
length-write_at (x ∷ buf) (suc begin) bytes = ap suc (length-write_at buf begin bytes)

pub slice-write_at :
    (buf : List ℕ) (begin : ℕ) (bytes : List ℕ)
    → begin + length bytes ≤ length buf
    → slice (write_at buf begin bytes) begin (length bytes) ≡ bytes
unfolding write_at
slice-write_at [] zero [] h = refl
slice-write_at [] zero (b ∷ bytes) h = absurd (omega arith)
slice-write_at [] (suc begin) bytes h = absurd (omega arith)
slice-write_at (x ∷ buf) zero [] h = refl
slice-write_at (x ∷ buf) zero (b ∷ bytes) h =
    ap (λ r. b ∷ r) (slice-write_at buf zero bytes (omega arith))
slice-write_at (x ∷ buf) (suc begin) bytes h = slice-write_at buf begin bytes (omega arith)

pub slice-write_at_apart :
    (buf : List ℕ) (begin : ℕ) (bytes : List ℕ) (c n : ℕ)
    → (begin + length bytes ≤ c) ⊎ (c + n ≤ begin)
    → slice (write_at buf begin bytes) c n ≡ slice buf c n
unfolding write_at
slice-write_at_apart [] begin bytes c n h = refl
slice-write_at_apart (x ∷ buf) zero [] c n h = refl
slice-write_at_apart (x ∷ buf) zero (b ∷ bytes) zero zero h = refl
slice-write_at_apart (x ∷ buf) zero (b ∷ bytes) zero (suc n) h = absurd (omega arith)
slice-write_at_apart (x ∷ buf) zero (b ∷ bytes) (suc c) zero h = refl
slice-write_at_apart (x ∷ buf) zero (b ∷ bytes) (suc c) (suc n) h =
    slice-write_at_apart buf zero bytes c (suc n) (omega arith)
slice-write_at_apart (x ∷ buf) (suc begin) bytes zero zero h = refl
slice-write_at_apart (x ∷ buf) (suc begin) bytes zero (suc n) h =
    ap (λ r. x ∷ r) (slice-write_at_apart buf begin bytes zero n (omega arith))
slice-write_at_apart (x ∷ buf) (suc begin) bytes (suc c) n h =
    slice-write_at_apart buf begin bytes c n (omega arith)

length-take_in : (bytes : List ℕ) (n : ℕ) → n ≤ length bytes → length (take n bytes) ≡ n
length-take_in bytes zero h = refl
length-take_in [] (suc n) h = absurd (omega arith)
length-take_in (x ∷ bytes) (suc n) h = ap suc (length-take_in bytes n (omega arith))

pub length-slice :
    (buf : List ℕ) (begin n : ℕ) → begin + n ≤ length buf → length (slice buf begin n) ≡ n
length-slice buf zero n h = length-take_in buf n (omega (arith, h))
length-slice [] (suc begin) n h = absurd (omega arith)
length-slice (x ∷ buf) (suc begin) n h = length-slice buf begin n (omega arith)
