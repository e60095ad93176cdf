-- ===== src/Parser.antt =====
-- The state of `Parser` of src/Parser.cpp, and how its methods end. The messages are not modelled,
-- only that `Error` was called, which clears `success`.
pub mod Types
pub mod Expressions
pub mod Products
pub mod Turns
pub mod Precedence
pub mod Streams
pub mod Literals
pub mod Operators
pub mod Ends
pub mod Elements
pub mod Halting
pub mod Shapes
pub mod Suffixes
pub mod Initializers
pub mod Structs
pub mod Declares
pub mod Enums
pub mod ItemValues
pub mod Numbered
pub mod Constants
pub mod ConstKinds
pub mod ConstEnds
pub mod Namespaces
pub mod Files
pub mod Trees
pub mod Spaces
pub mod Finishing
pub mod Whole
pub mod Cycles
pub mod GlobalEnums
mod Tests
mod FileTests
use cbuf.Base.{ℕ, Bool, true, false, Option, none, some, List, [], ◌∷◌, if◌then◌else◌}
use cbuf.Token.{TokenType, Token, is, end_token}

-- The tokens from `token_index` on, and `success`.
pub record State : Type 0 where
  pub rest : List Token
  pub success : Bool

-- `overrun`: `tokens[i]` with `i` past the end, which the assert of `Array` stops. `assertion`: another
-- assert fails. `undefined`: C++ gives the step no meaning. `null_pointer`: a null pointer to a
-- declaration is followed. `null_expression`: `computeExpressionValue` follows a null pointer to an
-- expression. `exits`: the lexer calls `exit`. `out_of_fuel` has no counterpart in the program.
pub data Outcome {ℓ} (A : Type ℓ) : Type ℓ where
  done : A → State → Outcome A
  overrun assertion undefined null_pointer null_expression exits out_of_fuel : Outcome A

abbrev pub Parses {ℓ} : Type ℓ → Type ℓ
Parses A = State → Outcome A

module _ {ℓ κ} {A : Type ℓ} {B : Type κ} where
  abbrev pub bind : Outcome A → (A → Parses B) → Outcome B
  bind (done a s) f = f a s
  bind overrun f = overrun
  bind assertion f = assertion
  bind undefined f = undefined
  bind null_pointer f = null_pointer
  bind null_expression f = null_expression
  bind exits f = exits
  bind out_of_fuel f = out_of_fuel

  infixl 5 ◌>>=◌ ◌>>◌
  abbrev pub ◌>>=◌ : Parses A → (A → Parses B) → Parses B
  p >>= f = λ s. bind (p s) f

  abbrev pub ◌>>◌ : Parses A → Parses B → Parses B
  p >> q = p >>= λ _. q

abbrev pub pure {ℓ} : {A : Type ℓ} → A → Parses A
pure a s = done a s

abbrev pub run {ℓ} : {A : Type ℓ} → State → Parses A → Outcome A
run s p = p s

-- `Error` reads the location of the current token.
unfoldable pub error : Parses (Unit {0})
error s = elim s.rest [ [] ↦ overrun | t ∷ ts ↦ done tt (record s { success = false }) ]

unfoldable pub succeeded : Parses Bool
succeeded s = done s.success s

-- `getNextToken`: past the end it makes a last token, and stays.
unfoldable pub get_next_token : Parses Token
get_next_token s = elim s.rest [ [] ↦ done end_token s | t ∷ ts ↦ done t (record s { rest = ts }) ]

-- `lookaheadToken`
unfoldable pub lookahead_token : Parses Token
lookahead_token s = elim s.rest [ [] ↦ done end_token s | t ∷ ts ↦ done t s ]

-- `getTokenType`
unfoldable pub get_token_type : Parses TokenType
get_token_type s = elim s.rest [ [] ↦ overrun | t ∷ ts ↦ done t.type s ]

-- `checkToken`
unfoldable pub check_token : TokenType → Parses Bool
check_token type s = elim s.rest [ [] ↦ overrun | t ∷ ts ↦ done (is t.type type) s ]

-- `checkAheadToken(type, 1)`
unfoldable pub check_ahead_token : TokenType → Parses Bool
check_ahead_token type s = elim s.rest [
  | [] ↦ overrun
  | t ∷ ts ↦ elim ts [ [] ↦ overrun | u ∷ us ↦ done (is u.type type) s ]
]

-- `consumeToken`: the index goes on also past the end, where every later read overruns.
unfoldable pub consume_token : Parses (Unit {0})
consume_token s = elim s.rest [ [] ↦ done tt s | t ∷ ts ↦ done tt (record s { rest = ts }) ]
