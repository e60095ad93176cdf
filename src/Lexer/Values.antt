-- ===== src/Lexer/Values.antt =====
-- The value of an integer that `Lexer::parseNumber` of src/Lexer.cpp reads, decimal or hexadecimal.
use native.Mathlib.Nat.{pow-zero, pow-suc, add-mul-mod_self_left, div-add-mod}
use mathlib.Core.List.{append-nil, append_assoc}
use cbuf.Base.{
  ℕ, suc, ◌+◌, ◌-◌, ◌*◌, ◌/◌, ◌%◌, ◌^◌, ◌≤◌, ◌<◌, ◌≡◌, refl, sym, ap, ap₂, lt→ltb, length-append,
  ◌∙◌, Bool, true, false, ◌==◌, ltb, leb, if◌then◌else◌, List, [], ◌∷◌, ◌++◌, length, All, arith,
}
use cbuf.Token.{TokenType, Token}
use cbuf.Ast.Declarations.{Text}
use cbuf.Evaluate.{FloatOps}
use cbuf.Lexer.{Scanned, scanned, exits, overruns, then_scan, is_number, is_alpha, is_hex}
use cbuf.Lexer.Numbers.{
  Number, NumberStep, number_step, number_loop, add_digit, add_period, push_char, number_from,
  first_digit, number_token, parse_number, snum_room, digit_value,
}

-- What a digit counts for: the ten digits, and behind them the six letters of either case
unfoldable pub digit_worth : ℕ → ℕ
digit_worth c =
    if leb b'a' c then 10 + (c - b'a') else if leb b'A' c then 10 + (c - b'A') else c - b'0'

digit_worth-number : (c : ℕ) → is_number c ≡ true → digit_value c ≡ digit_worth c
unfolding is_number digit_value digit_worth
digit_worth-number c h = ground arith

digit_worth-hex : (c : ℕ) → is_hex c ≡ true → digit_value c ≡ digit_worth c
unfolding is_number is_hex digit_value digit_worth
digit_worth-hex c h = ground arith

-- The value of digits by their places
unfoldable pub place_value : ℕ → Text → ℕ
place_value base [] = 0
place_value base (c ∷ s) = digit_worth c * base ^ length s + place_value base s

-- What stands behind a number: the end of the file, or neither a period nor a letter nor a digit.
abbrev pub Stops : List ℕ → Type 0
Stops [] = Unit
Stops (c ∷ rest) = ((c == b'.') ≡ false) × (is_alpha c ≡ false) × (is_number c ≡ false)

spread : (q r p v m : ℕ) → r * p + v + m * (q * p) ≡ (m * q + r) * p + v
spread q r p v m = grind arith

mod-mul_add : (a p v m : ℕ) → (a % m * p + v) % m ≡ (a * p + v) % m
mod-mul_add a p v m =
    sym (add-mul-mod_self_left (a % m * p + v) m (a / m * p))
    ∙ ap (λ x. x % m) (spread (a / m) (a % m) p v m ∙ ap (λ x. x * p + v) (div-add-mod a m))

add_mul : (x d p v : ℕ) → (x + d) * p + v ≡ x * p + (d * p + v)
add_mul x d p v = grind arith

wrap : (x d p v m : ℕ) → ((x % m + d) % m * p + v) % m ≡ ((x + d) * p + v) % m
wrap x d p v m =
    mod-mul_add (x % m + d) p v m
    ∙ ap (λ y. y % m) (add_mul (x % m) d p v)
    ∙ mod-mul_add x p (d * p + v) m
    ∙ ap (λ y. y % m) (sym (add_mul x d p v))

from_zero : (p v : ℕ) → 0 * p + v ≡ v
from_zero p v = grind arith

no_digits : (t b : ℕ) → t < 2 ^ 64 → t ≡ (t * b ^ 0 + 0) % 2 ^ 64
no_digits t b h = grind (arith, pow-zero b)

more_digits :
    (t b d n v : ℕ)
    → ((t * b % 2 ^ 64 + d) % 2 ^ 64 * b ^ n + v) % 2 ^ 64
      ≡ (t * b ^ suc n + (d * b ^ n + v)) % 2 ^ 64
more_digits t b d n v =
    wrap (t * b) d (b ^ n) v (2 ^ 64)
    ∙ ap (λ x. x % 2 ^ 64)
        (shift t b d (b ^ n) v ∙ ap (λ p. t * p + (d * b ^ n + v)) (sym (pow-suc b n)))
  where
    shift : (t b d p v : ℕ) → (t * b + d) * p + v ≡ t * (p * b) + (d * p + v)
    shift t b d p v = grind arith

-- An integer in the middle of its digits
abbrev counting : ℕ → ℕ → Text → Number
counting base total s = record {
  total = total;
  dtotal = 0;
  base = base;
  decimal = Bool.false;
  dec_index = 0;
  snum = s;
}

module _ (ops : FloatOps) where
  decimal_step :
      (total : ℕ) (s : Text) (c : ℕ)
      → is_number c ≡ true
      → number_step ops (counting 10 total s) c
        ≡ NumberStep.goes
            (counting 10 ((total * 10 % 2 ^ 64 + digit_worth c) % 2 ^ 64) (s ++ (c ∷ [])))
  unfolding number_step is_number is_alpha is_hex add_digit push_char add_period
  decimal_step total s c h = rw (← digit_worth-number c h) (ground arith)

  hex_step :
      (total : ℕ) (s : Text) (c : ℕ)
      → is_hex c ≡ true
      → number_step ops (counting 16 total s) c
        ≡ NumberStep.goes
            (counting 16 ((total * 16 % 2 ^ 64 + digit_worth c) % 2 ^ 64) (s ++ (c ∷ [])))
  unfolding number_step is_number is_alpha is_hex add_digit push_char add_period
  hex_step total s c h = rw (← digit_worth-hex c h) (ground arith)

  number_loop-Stops :
      (n : Number) (rest : List ℕ) → Stops rest → number_loop ops n rest ≡ scanned n rest
  unfolding number_loop number_step is_number is_alpha is_hex
  number_loop-Stops n [] h = refl
  number_loop-Stops n (c ∷ rest) h = ground arith

-- The loop takes such a character into the number.
abbrev Counts : FloatOps → ℕ → (ℕ → Bool) → Type 0
Counts ops base fits =
    (total : ℕ) (s : Text) (c : ℕ)
    → fits c ≡ true
    → number_step ops (counting base total s) c
      ≡ NumberStep.goes
          (counting base ((total * base % 2 ^ 64 + digit_worth c) % 2 ^ 64) (s ++ (c ∷ [])))

module _ (ops : FloatOps) (base : ℕ) (fits : ℕ → Bool) (step : Counts ops base fits) where
  number_loop-digits :
      (total : ℕ) (s ds : Text) (rest : List ℕ)
      → total < 2 ^ 64
      → All (λ c. fits c ≡ true) ds
      → length s + length ds ≤ snum_room
      → Stops rest
      → number_loop ops (counting base total s) (ds ++ rest)
        ≡ scanned
            (counting base ((total * base ^ length ds + place_value base ds) % 2 ^ 64) (s ++ ds))
            rest
  unfolding number_loop place_value
  number_loop-digits total s [] rest l h r p =
      number_loop-Stops ops (counting base total s) rest p
      ∙ ap₂ (λ t s'. scanned (counting base t s') rest) (no_digits total base l)
          (sym (append-nil s))
  number_loop-digits total s (c ∷ ds) rest l h r p =
      ap
        (λ o. elim o as (λ _. Scanned Number) [
          | NumberStep.ends ↦ scanned (counting base total s) (c ∷ ds ++ rest)
          | NumberStep.fails ↦ exits
          | NumberStep.goes n' ↦ elim (ltb (length s) snum_room) as (λ _. Scanned Number) [
            | true ↦ number_loop ops n' (ds ++ rest)
            | false ↦ overruns
          ]
        ])
        (step total s c h.0)
      ∙ ap
          (λ b. elim b as (λ _. Scanned Number) [
            | true ↦
                number_loop ops
                  (counting base ((total * base % 2 ^ 64 + digit_worth c) % 2 ^ 64) (s ++ (c ∷ [])))
                  (ds ++ rest)
            | false ↦ overruns
          ])
          (lt→ltb (length s) snum_room (omega arith))
      ∙ number_loop-digits ((total * base % 2 ^ 64 + digit_worth c) % 2 ^ 64) (s ++ (c ∷ [])) ds
          rest (omega arith) h.1 (omega (arith, length-append s (c ∷ []))) p
      ∙ ap₂ (λ t s'. scanned (counting base t s') rest)
          (more_digits total base (digit_worth c) (length ds) (place_value base ds))
          (append_assoc s (c ∷ []) ds)

module _ (ops : FloatOps) where
  number_from-decimal :
      (c : ℕ) (ds : Text) (rest : List ℕ)
      → All (λ d. is_number d ≡ true) ds
      → Stops rest
      → number_from ops c (ds ++ rest) ≡ number_loop ops (first_digit ops c) (ds ++ rest)
  unfolding number_from is_alpha is_number
  number_from-decimal c [] [] h p = refl
  number_from-decimal c [] (x ∷ rest) h p = ground arith
  number_from-decimal c (d ∷ ds) rest h p = ground arith

  first_value : (c : ℕ) → is_number c ≡ true → (digit_worth c ≡ c - b'0') × (c - b'0' < 2 ^ 64)
  unfolding is_number digit_worth
  first_value c h = (ground arith, ground arith)

  -- A decimal integer of at most 63 digits with no period, letter or digit behind it is a number token
  -- with the value of its digits by their places, modulo 2 ^ 64, and with the digits as its text.
  pub parse_number-decimal :
      (tok : Token) (c : ℕ) (ds : Text) (rest : List ℕ)
      → is_number c ≡ true
      → All (λ d. is_number d ≡ true) ds
      → length ds < snum_room
      → Stops rest
      → parse_number ops tok c (ds ++ rest)
        ≡ scanned
            (record tok {
              u64 = place_value 10 (c ∷ ds) % 2 ^ 64;
              type = TokenType.number;
              is_hex = false;
              string = c ∷ ds;
            })
            rest
  unfolding parse_number number_token place_value
  parse_number-decimal tok c ds rest h all l p =
      ap (λ o. then_scan o λ n rest'. scanned (number_token ops tok n) rest')
        (number_from-decimal c ds rest all p
          ∙ number_loop-digits ops 10 is_number (decimal_step ops) (c - b'0') (c ∷ []) ds rest
              (first_value c h).1 all (omega arith) p
          ∙ ap
              (λ t.
                scanned (counting 10 ((t * 10 ^ length ds + place_value 10 ds) % 2 ^ 64) (c ∷ ds))
                  rest)
              (sym (first_value c h).0))

  -- `0x` and at most 61 hexadecimal digits with no period, letter or digit behind them are a
  -- hexadecimal number token with the value of the digits by their places, modulo 2 ^ 64, and with all
  -- these characters as its text.
  pub parse_number-hexadecimal :
      (tok : Token) (ds : Text) (rest : List ℕ)
      → All (λ d. is_hex d ≡ true) ds
      → 2 + length ds ≤ snum_room
      → Stops rest
      → parse_number ops tok b'0' (b'x' ∷ ds ++ rest)
        ≡ scanned
            (record tok {
              u64 = place_value 16 ds % 2 ^ 64;
              type = TokenType.number;
              is_hex = true;
              string = b'0' ∷ b'x' ∷ ds;
            })
            rest
  unfolding parse_number number_from number_token push_char place_value
  parse_number-hexadecimal tok ds rest all l p =
      ap (λ o. then_scan o λ n rest'. scanned (number_token ops tok n) rest')
        (number_loop-digits ops 16 is_hex (hex_step ops) 0 (b'0' ∷ b'x' ∷ []) ds rest (omega arith)
            all (omega arith) p
          ∙ ap (λ t. scanned (counting 16 (t % 2 ^ 64) (b'0' ∷ b'x' ∷ ds)) rest)
              (from_zero (16 ^ length ds) (place_value 16 ds)))
