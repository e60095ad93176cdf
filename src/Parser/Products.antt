-- ===== src/Parser/Products.antt =====
-- Chains of binary operators between numbers, and how `getPrecedence` of src/Parser.cpp groups them.
use cbuf.Base.{ℕ, ◌≤◌, ◌≡◌, refl, Bool, true, false, List, [], ◌∷◌, if◌then◌else◌, length, arith}
use cbuf.Base.Int.{s64_of_u64}
use cbuf.Token.{TokenType, Token}
use cbuf.Ast.{Value, Expression, literal, binary}

pub data Operator : Type 0 where
  star div modulo plus minus : Operator

abbrev pub operator_type : Operator → TokenType
operator_type Operator.star = TokenType.star
operator_type Operator.div = TokenType.div
operator_type Operator.modulo = TokenType.modulo
operator_type Operator.plus = TokenType.plus
operator_type Operator.minus = TokenType.minus

abbrev pub is_sum : Operator → Bool
is_sum Operator.plus = true
is_sum Operator.minus = true
is_sum _ = false

abbrev pub token : TokenType → ℕ → Token
token type n = record { type = type; string = []; u64 = n; f64 = 0; is_hex = Bool.false }

-- The tokens of operators, each with the number behind it.
abbrev pub chain_tokens : List (Operator × ℕ) → List Token → List Token
chain_tokens [] after = after
chain_tokens ((op, n) ∷ chain) after =
    token (operator_type op) 0 ∷ token TokenType.number n ∷ chain_tokens chain after

abbrev pub number_expression : ℕ → Expression
number_expression n = literal (Value.integer (s64_of_u64 n))

-- A product of sums: `outer` takes the sum that has been read up to here.
unfoldable pub product_of_sums :
    (outer : Expression → Expression) → Expression → List (Operator × ℕ) → Expression
product_of_sums outer sum [] = outer sum
product_of_sums outer sum ((op, n) ∷ chain) =
    if is_sum op
    then product_of_sums outer (binary (operator_type op) sum (number_expression n)) chain
    else product_of_sums (binary (operator_type op) (outer sum)) (number_expression n) chain

-- The sum at the front of a chain, and what follows it.
abbrev pub sum_of : Expression → List (Operator × ℕ) → Expression × List (Operator × ℕ)
sum_of sum [] = (sum, [])
sum_of sum ((op, n) ∷ chain) =
    if is_sum op
    then sum_of (binary (operator_type op) sum (number_expression n)) chain
    else (sum, (op, n) ∷ chain)

pub sum_of-product :
    (outer : Expression → Expression) (sum : Expression) (chain : List (Operator × ℕ))
    → product_of_sums outer sum chain
      ≡ product_of_sums (λ e. e) (outer (sum_of sum chain).0) (sum_of sum chain).1
unfolding product_of_sums
sum_of-product outer sum [] = refl
sum_of-product outer sum ((Operator.star, n) ∷ chain) = refl
sum_of-product outer sum ((Operator.div, n) ∷ chain) = refl
sum_of-product outer sum ((Operator.modulo, n) ∷ chain) = refl
sum_of-product outer sum ((Operator.plus, n) ∷ chain) =
    sum_of-product outer (binary TokenType.plus sum (number_expression n)) chain
sum_of-product outer sum ((Operator.minus, n) ∷ chain) =
    sum_of-product outer (binary TokenType.minus sum (number_expression n)) chain

pub sum_of-length :
    (sum : Expression) (chain : List (Operator × ℕ)) → length (sum_of sum chain).1 ≤ length chain
sum_of-length sum [] = omega arith
sum_of-length sum ((Operator.star, n) ∷ chain) = omega arith
sum_of-length sum ((Operator.div, n) ∷ chain) = omega arith
sum_of-length sum ((Operator.modulo, n) ∷ chain) = omega arith
sum_of-length sum ((Operator.plus, n) ∷ chain) =
    omega (arith, sum_of-length (binary TokenType.plus sum (number_expression n)) chain)
sum_of-length sum ((Operator.minus, n) ∷ chain) =
    omega (arith, sum_of-length (binary TokenType.minus sum (number_expression n)) chain)
