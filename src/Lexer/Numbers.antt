-- ===== src/Lexer/Numbers.antt =====
-- `Lexer::parseNumber` of src/Lexer.cpp.
use cbuf.Base.{
  ℕ, suc, ◌+◌, ◌-◌, ◌*◌, ◌/◌, ◌%◌, ◌^◌, Bool, true, false, not, ◌&&◌, ◌==◌, ltb, List, [], ◌∷◌,
  ◌++◌, length, if◌then◌else◌,
}
use cbuf.Base.Int.{pos}
use cbuf.Token.{TokenType, Token}
use cbuf.Ast.Declarations.{Text}
use cbuf.Evaluate.{FloatOps}
use cbuf.Lexer.{Scanned, scanned, exits, overruns, then_scan, is_number, is_alpha, is_hex}

-- The local variables; `snum` is what stands in the buffer in front of `s`.
pub record Number : Type 0 where
  pub total : ℕ
  pub dtotal : ℕ
  pub base : ℕ
  pub decimal : Bool
  pub dec_index : ℕ
  pub snum : Text

-- `char snum[64]`, of which the last byte has to stay 0
abbrev pub snum_room : ℕ
snum_room = 63

-- What a character does to the number: it ends it, is an error, or belongs to it.
pub data NumberStep : Type 0 where
  ends fails : NumberStep
  goes : Number → NumberStep

-- The value of a digit; `c &= 0xDF` clears one bit.
unfoldable pub digit_value : ℕ → ℕ
unfolding is_number
digit_value c = if is_number c then c - b'0' else 10 + (c - c / 32 % 2 * 32) - b'A'

unfoldable pub push_char : Number → ℕ → Number
push_char n c = record n { snum = n.snum ++ (c ∷ []) }

module _ (ops : FloatOps) where
  unfoldable pub add_digit : Number → ℕ → Number
  unfolding digit_value push_char
  add_digit n c =
      if n.decimal
      then push_char
          (record n {
            dec_index = suc n.dec_index;
            dtotal =
                ops.add n.dtotal
                  (ops.div (ops.of_int (pos (c - b'0'))) (ops.pow_10 (suc n.dec_index)));
          })
          c
      else push_char (record n { total = (n.total * n.base % 2 ^ 64 + digit_value c) % 2 ^ 64 }) c

  -- A period: what stands behind it makes a fraction.
  unfoldable pub add_period : Number → NumberStep
  unfolding push_char
  add_period n =
      if n.base == 16
      then NumberStep.fails
      else NumberStep.goes
          (push_char (record n { decimal = true; dtotal = ops.of_int (pos n.total) }) b'.')

  -- One turn of the loop
  unfoldable pub number_step : Number → ℕ → NumberStep
  unfolding add_period add_digit is_number is_alpha is_hex
  number_step n c =
      if c == b'.'
      then add_period n
      else if n.base == 10 && not (is_number c) && is_alpha c
      then NumberStep.fails
      else if n.base == 16 && not (is_hex c) && is_alpha c
      then NumberStep.fails
      else if not (is_alpha c) && not (is_number c)
      then NumberStep.ends
      else NumberStep.goes (add_digit n c)

  -- The loop; a character that leaves no room for a zero behind it makes the text end behind the buffer.
  unfoldable pub number_loop : Number → List ℕ → Scanned Number
  unfolding number_step
  number_loop n [] = scanned n []
  number_loop n (c ∷ rest) = elim (number_step n c) as (λ _. Scanned Number) [
    | NumberStep.ends ↦ scanned n (c ∷ rest)
    | NumberStep.fails ↦ exits
    | NumberStep.goes n' ↦ elim (ltb (length n.snum) snum_room) as (λ _. Scanned Number) [
      | true ↦ number_loop n' rest
      | false ↦ overruns
    ]
  ]

  abbrev pub first_digit : ℕ → Number
  first_digit c = record {
    total = c - b'0';
    dtotal = 0;
    base = 10;
    decimal = Bool.false;
    dec_index = 0;
    snum = c ∷ [];
  }

  -- The digits behind the first one, and the prefix `0x`
  unfoldable pub number_from : ℕ → List ℕ → Scanned Number
  unfolding number_loop push_char
  number_from c [] = number_loop (first_digit c) []
  number_from c (x ∷ rest) =
      if x == b'x'
      then if c - b'0' == 0
        then number_loop (push_char (record (first_digit c) { base = 16 }) x) rest
        else exits
      else number_loop (first_digit c) (x ∷ rest)

  -- The token; the fields of the other kind of number keep what the last token left.
  unfoldable pub number_token : Token → Number → Token
  number_token tok n =
      if n.decimal
      then record tok {
        f64 = n.dtotal;
        type = TokenType.fnumber;
        is_hex = Bool.false;
        string = n.snum;
      }
      else record tok {
        u64 = n.total;
        type = TokenType.number;
        is_hex = n.base == 16;
        string = n.snum;
      }

  unfoldable pub parse_number : Token → ℕ → List ℕ → Scanned Token
  unfolding number_from number_token
  parse_number tok c rest =
      then_scan (number_from c rest) λ n rest'. scanned (number_token tok n) rest'
