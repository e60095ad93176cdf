-- ===== src/Parser/Expressions.antt =====
-- The expression grammar of src/Parser.cpp, with a unit of fuel for each call.
use cbuf.Base.{
  ℕ, zero, suc, ◌+◌, true, false, Option, none, some, List, [], ◌∷◌, ltb, not, ◌&&◌, ◌||◌,
  if◌then◌else◌,
}
use cbuf.Base.Int.{ℤ, pos, sub_ℕ, s64_of_u64}
use cbuf.Token.{TokenType, Token, is}
use cbuf.Ast.{Value, Expression, Expressions, null, literal, unary, binary}
use cbuf.Evaluate.{FloatOps}
use cbuf.Parser.{
  done, assertion, out_of_fuel, Parses, bind, ◌>>=◌, ◌>>◌, pure, error, succeeded, get_next_token,
  get_token_type, lookahead_token, check_token, check_ahead_token, consume_token,
}
use cbuf.Parser.Types.{is_unary_prefix_operator, is_bin_operator, get_precedence, is_hex_number}

abbrev fail {ℓ} : {A : Type ℓ} → A → Parses A
fail a = do error; pure a

module _ (ops : FloatOps) where
  -- `*s - '0'`
  unfoldable digit : ℕ → ℤ
  digit c = sub_ℕ c b'0'

  -- The loop of `computeDecimal` over the text, whatever its bytes are.
  unfoldable pub decimal_from : List ℕ → ℕ → ℕ → ℕ
  unfolding digit
  decimal_from [] divisor total = total
  decimal_from (c ∷ cs) divisor total =
      decimal_from cs (ops.mul divisor (ops.of_int (pos 10)))
        (ops.add total (ops.div (ops.of_int (digit c)) divisor))

  unfoldable pub compute_decimal : Token → Parses ℕ
  unfolding decimal_from is_hex_number
  compute_decimal t s =
      if is t.type TokenType.number && not (is_hex_number t)
      then done (decimal_from t.string (ops.of_int (pos 10)) (ops.of_int (pos 0))) s
      else assertion

  -- The literal that a token stands for, if it is one.
  unfoldable pub literal_of : Token → Option Value
  literal_of t =
      if is t.type TokenType.number
      then some (Value.integer (s64_of_u64 t.u64))
      else if is t.type TokenType.fnumber
      then some (Value.float t.f64)
      else if is t.type TokenType.string_literal
      then some (Value.string t.string)
      else if is t.type TokenType.kw_true
      then some (Value.bool true)
      else if is t.type TokenType.kw_false
      then some (Value.bool false)
      else none

  -- The branch of `parseSimpleLiteral` for a period.
  unfoldable pub parse_period : Parses Expression
  unfolding check_ahead_token get_next_token is_hex_number compute_decimal error
  parse_period = do
    ahead ← check_ahead_token TokenType.number
    if not ahead then fail null else do
      t ← get_next_token
      if is_hex_number t
          then fail null
          else do x ← compute_decimal t; pure (literal (Value.float x))

  -- The branch for an opening parenthesis.
  unfoldable pub parse_parens : Parses Expression → Parses Expression
  unfolding error succeeded get_next_token
  parse_parens expression = do
    e ← expression
    ok ← succeeded
    if not ok then pure null else do
      close ← get_next_token
      if is close.type TokenType.close_paren then pure e else fail null

  -- `parseSimpleLiteral`; this and the next five take what they call as arguments.
  unfoldable pub simple_literal : Parses Expression → Parses Expression
  unfolding error get_next_token literal_of parse_parens parse_period
  simple_literal expression = do
    t ← get_next_token
    if is t.type TokenType.identifier then fail null else elim (literal_of t) [
      | some v ↦ if t.is_hex then fail null else pure (literal v)
      | none ↦
          if is t.type TokenType.open_paren
          then parse_parens expression
          else if is t.type TokenType.period
          then parse_period
          else fail null
    ]

  abbrev pub with_item : Expression → Option Expressions → Option Expressions
  with_item e none = none
  with_item e (some es) = some (Expressions.item e es)

  -- The loop of `parseArrayExpression`, behind an item.
  unfoldable pub array_separator :
      Expression → Parses (Option Expressions) → Parses (Option Expressions)
  unfolding error check_token consume_token
  array_separator e items = do
    comma ← check_token TokenType.comma
    close ← check_token TokenType.close_bracket
    if comma
        then consume_token >> items >>= (λ es. pure (with_item e es))
        else if close
        then pure (some (Expressions.item e Expressions.end))
        else fail none

  -- The loop, from behind the opening brace or a comma to the closing brace.
  unfoldable pub array_items :
      Parses Expression → Parses (Option Expressions) → Parses (Option Expressions)
  unfolding succeeded array_separator
  array_items expression items = do
    e ← expression
    ok ← succeeded
    if not ok then pure none else array_separator e items

  unfoldable pub set_success : Parses (Unit {0})
  set_success s = done tt (record s { success = true })

  -- `parseArrayExpression` behind its loop; at its end it sets `success`.
  unfoldable pub array_end : Option Expressions → Parses Expression
  unfolding consume_token set_success
  array_end none = pure null
  array_end (some es) = do consume_token; set_success; pure (Expression.array es)

  -- `parseArrayExpression`
  unfoldable pub array_expression : Parses (Option Expressions) → Parses Expression
  unfolding error check_token consume_token array_end
  array_expression items = do
    start ← check_token TokenType.open_bracket
    if not start then fail null else do consume_token; es ← items; array_end es

  -- `parseLiteral`
  unfoldable pub literal_expression : (array simple : Parses Expression) → Parses Expression
  unfolding lookahead_token
  literal_expression array simple = do
    t ← lookahead_token
    if is t.type TokenType.open_bracket then array else simple

  -- `parseUnaryExpression`
  unfoldable pub unary_expression : (operand otherwise : Parses Expression) → Parses Expression
  unfolding lookahead_token consume_token succeeded is_unary_prefix_operator
  unary_expression operand otherwise = do
    t ← lookahead_token
    if not (is_unary_prefix_operator t.type) then otherwise else do
      consume_token
      e ← operand
      ok ← succeeded
      pure (if ok then unary t.type e else null)

  -- The operand behind an operator, with the operators that `getPrecedence` puts above it.
  unfoldable pub right_operand :
      (operand : Parses Expression)
      → (higher : ℕ → Expression → Parses Expression) → TokenType
      → Parses Expression
  unfolding get_token_type is_bin_operator get_precedence
  right_operand operand higher op = do
    rhs ← operand
    next ← get_token_type
    if is_bin_operator next && ltb (get_precedence op) (get_precedence next)
        then higher (get_precedence op + 1) rhs
        else pure rhs

  -- `parseBinOpExpressionRecursive`, one turn of its loop
  unfoldable pub operator_turn :
      (operand : Parses Expression)
      → (again : ℕ → Expression → Parses Expression) → ℕ
      → Expression
      → Parses Expression
  unfolding get_token_type consume_token is_bin_operator get_precedence right_operand
  operator_turn operand again oldprec lhs = do
    op ← get_token_type
    if not (is_bin_operator op) || ltb (get_precedence op) oldprec then pure lhs else do
      consume_token
      rhs ← right_operand operand again op
      again oldprec (binary op lhs rhs)

  unfoldable mutual
    unfolding simple_literal array_items array_expression literal_expression unary_expression
        operator_turn

    pub parse_simple_literal : ℕ → Parses Expression
    parse_simple_literal zero s = out_of_fuel
    parse_simple_literal (suc f) s = simple_literal (parse_expression f) s

    pub parse_array_items : ℕ → Parses (Option Expressions)
    parse_array_items zero s = out_of_fuel
    parse_array_items (suc f) s = array_items (parse_expression f) (parse_array_items f) s

    pub parse_array_expression : ℕ → Parses Expression
    parse_array_expression zero s = out_of_fuel
    parse_array_expression (suc f) s = array_expression (parse_array_items f) s

    pub parse_literal : ℕ → Parses Expression
    parse_literal zero s = out_of_fuel
    parse_literal (suc f) s =
        literal_expression (parse_array_expression f) (parse_simple_literal f) s

    pub parse_unary_expression : ℕ → Parses Expression
    parse_unary_expression zero s = out_of_fuel
    parse_unary_expression (suc f) s =
        unary_expression (parse_unary_expression f) (parse_literal f) s

    pub parse_bin_op_recursive : ℕ → ℕ → Expression → Parses Expression
    parse_bin_op_recursive zero oldprec lhs s = out_of_fuel
    parse_bin_op_recursive (suc f) oldprec lhs s =
        operator_turn (parse_unary_expression f) (parse_bin_op_recursive f) oldprec lhs s

    -- `parseBinOpExpression`, which is `parseExpression`
    pub parse_expression : ℕ → Parses Expression
    parse_expression zero s = out_of_fuel
    parse_expression (suc f) s = bind (parse_unary_expression f s) (parse_bin_op_recursive f 0)
