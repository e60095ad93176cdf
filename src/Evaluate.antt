-- ===== src/Evaluate.antt =====
-- `Parser::computeExpressionValue` of src/Parser.cpp, with its helpers.
mod Typing
mod Tests
use cbuf.Base.{ℕ, ◌==◌, Bool, true, false, Option, none, some, if◌then◌else◌, ◌||◌}
use cbuf.Base.Int.{ℤ, pos, ◌+ℤ◌, ◌-ℤ◌, ◌*ℤ◌, div_ℤ, mod_ℤ, magnitude, s64}
use cbuf.Token.{TokenType, is, ordinal}
use cbuf.Ast.{
  Value, Values, Expression, Expressions, ValueType, value_type, null, literal, unary, binary,
}

-- The arithmetic of doubles, on their bit patterns; `pow_10 k` is `pow(10, k)`.
pub record FloatOps : Type 0 where
  pub add : ℕ → ℕ → ℕ
  pub sub : ℕ → ℕ → ℕ
  pub mul : ℕ → ℕ → ℕ
  pub div : ℕ → ℕ → ℕ
  pub neg : ℕ → ℕ
  pub of_int : ℤ → ℕ
  pub pow_10 : ℕ → ℕ

-- `failed`: `Error` was called and the result is nullptr. `undefined`: C++ gives the operation no
-- meaning (an int64_t overflow, a division by 0). `null_expression`: a null pointer to an expression is
-- followed.
pub data Evaluated {ℓ} (A : Type ℓ) : Type ℓ where
  value : A → Evaluated A
  failed undefined null_expression : Evaluated A

infixl 5 ◌>>=◌
abbrev pub ◌>>=◌ {ℓ κ} : {A : Type ℓ} {B : Type κ} → Evaluated A → (A → Evaluated B) → Evaluated B
value a >>= f = f a
failed >>= f = failed
undefined >>= f = undefined
null_expression >>= f = null_expression

-- `isValTypeOperable`
unfoldable pub is_operable : ValueType → Bool
is_operable ValueType.integer = true
is_operable ValueType.float = true
is_operable _ = false

abbrev pub checked : Option ℤ → Evaluated Value
checked none = undefined
checked (some n) = value (Value.integer n)

-- The quotient by 0, and the one that does not fit, are undefined; so is their remainder.
abbrev pub if_divides : ℤ → ℤ → ℤ → Evaluated Value
if_divides a b result =
    if magnitude b == 0
    then undefined
    else elim (s64 (div_ℤ a b)) [ none ↦ undefined | some _ ↦ value (Value.integer result) ]

-- The `switch` over the operator for two integers.
unfoldable pub integer_op : TokenType → ℤ → ℤ → Evaluated Value
integer_op TokenType.plus a b = checked (s64 (a +ℤ b))
integer_op TokenType.minus a b = checked (s64 (a -ℤ b))
integer_op TokenType.div a b = if_divides a b (div_ℤ a b)
integer_op TokenType.star a b = checked (s64 (a *ℤ b))
integer_op TokenType.modulo a b = if_divides a b (mod_ℤ a b)
integer_op _ a b = failed

module _ (ops : FloatOps) where
  -- The `switch` for two values of which one is a float.
  unfoldable pub float_op : TokenType → ℕ → ℕ → Evaluated Value
  float_op TokenType.plus x y = value (Value.float (ops.add x y))
  float_op TokenType.minus x y = value (Value.float (ops.sub x y))
  float_op TokenType.div x y = value (Value.float (ops.div x y))
  float_op TokenType.star x y = value (Value.float (ops.mul x y))
  float_op _ x y = failed

  -- `getDoubleVal`
  unfoldable pub double_val : Value → ℕ
  double_val (Value.integer n) = ops.of_int n
  double_val (Value.float x) = x
  double_val _ = 0

  unfoldable pub binary_op : TokenType → Value → Value → Evaluated Value
  unfolding is_operable value_type integer_op float_op double_val
  binary_op op (Value.integer a) (Value.integer b) = integer_op op a b
  binary_op op l r =
      if is_operable (value_type l)
      then if is_operable (value_type r) then float_op op (double_val l) (double_val r) else failed
      else failed

  unfoldable pub negated : Value → Evaluated Value
  negated (Value.integer n) = checked (s64 (pos 0 -ℤ n))
  negated (Value.float x) = value (Value.float (ops.neg x))
  negated _ = failed

  unfoldable pub unary_op : TokenType → Value → Evaluated Value
  unfolding is_operable value_type negated
  unary_op op v =
      if is_operable (value_type v)
      then if is op TokenType.plus
        then value v
        else if is op TokenType.minus
        then negated v
        else failed
      else failed

  unfoldable mutual
    unfolding binary_op unary_op

    pub compute_expression_value : Expression → Evaluated Value
    compute_expression_value null = null_expression
    compute_expression_value (literal v) = value v
    compute_expression_value (Expression.array es) = do
      vs ← compute_values es
      value (Value.array vs)
    compute_expression_value (unary op e) = do v ← compute_expression_value e; unary_op op v
    compute_expression_value (binary op l r) = do
      a ← compute_expression_value l
      b ← compute_expression_value r
      binary_op op a b

    pub compute_values : Expressions → Evaluated Values
    compute_values Expressions.end = value Values.end
    compute_values (Expressions.item e es) = do
      v ← compute_expression_value e
      vs ← compute_values es
      value (Values.item v vs)
