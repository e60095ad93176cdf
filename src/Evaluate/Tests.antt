-- ===== src/Evaluate/Tests.antt =====
-- A run of `computeExpressionValue` of src/Parser.cpp.
use cbuf.Base.Int.{pos}
use cbuf.Token.{TokenType}
use cbuf.Ast.{Value, Expression, literal, binary}
use cbuf.Evaluate.{FloatOps, compute_expression_value}
use cbuf.Evaluate.Typing.{Agrees, HasType, expression_type, compute_expression_value-Agrees}

abbrev ops : FloatOps
ops = record {
  add = λ x y. 7;
  sub = λ x y. 0;
  mul = λ x y. 0;
  div = λ x y. 0;
  neg = λ x. 0;
  of_int = λ n. 0;
  pow_10 = λ k. 0;
}

-- An integer and a float
abbrev mixed_sum : Expression
mixed_sum = binary TokenType.plus (literal (Value.integer (pos 2))) (literal (Value.float 5))

compute_expression_value-Agrees_example :
    Agrees HasType (expression_type mixed_sum) (compute_expression_value ops mixed_sum)
compute_expression_value-Agrees_example = compute_expression_value-Agrees ops mixed_sum
