-- ===== src/Parser/Ends.antt =====
-- The recursion of the expression grammar of src/Parser.cpp, from one token to the next.
use cbuf.Base.{ℕ, zero, suc, ◌+◌, ◌*◌, ◌<◌, ◌≤◌, Bool, List, length, arith}
use cbuf.Token.{TokenType, Token, is}
use cbuf.Ast.{Expression}
use cbuf.Evaluate.{FloatOps}
use cbuf.Parser.{State, Parses, lookahead_token}
use cbuf.Parser.Streams.{
  Stream, Ready, Front, Stream-Taken, Ready-Front, Before, After, Items, Stays, Settles,
  bind-Settles, if-Settles, weaken,
}
use cbuf.Parser.Literals.{simple-Settles}
use cbuf.Parser.Operators.{items_step, array_step, unary_step, operator_step}
use cbuf.Parser.Expressions.{
  parse_simple_literal, parse_array_items, parse_array_expression, parse_literal,
  parse_unary_expression, parse_bin_op_recursive, parse_expression, literal_expression,
}

module _ (ops : FloatOps) where
  literal_step :
      (array simple : Parses Expression) (n : ℕ)
      → ((s : State) → Before n s → Settles (Stays n) (array s))
      → ((s : State) → Before n s → Settles (Stays n) (simple s))
      → (ts : List Token) (ok : Bool) → Stream ts
      → Front ts
      → length ts < n
      → Settles (Stays n) (literal_expression ops array simple (record { rest = ts; success = ok }))
  unfolding literal_expression lookahead_token
  literal_step array simple n h k _ ok s (Front.front t ts f) len =
      if-Settles (Stays n) (is t.type TokenType.open_bracket) _ _ _ (λ _. h _ (s, len))
        λ _. k _ (s, len)

  mutual
    unfolding parse_expression

    simple-Ends :
        (f n : ℕ)
        → 6 * n + 1 ≤ f
        → (s : State) → Before n s
        → Settles (Stays n) (parse_simple_literal ops f s)
    simple-Ends zero n h s b = absurd (omega arith)
    simple-Ends (suc f) zero h s b = absurd (omega (arith, b.1))
    simple-Ends (suc f) (suc n) h s b = weaken n _ (
        simple-Settles ops n (parse_expression ops f) (expression-Ends f n (omega arith)) s.rest
          s.success (Stream-Taken s.rest b.0) b.1)

    array_loop-Ends :
        (f n : ℕ)
        → 6 * n + 6 ≤ f
        → (s : State) → Before n s
        → Settles (Items n) (parse_array_items ops f s)
    array_loop-Ends zero n h s b = absurd (omega arith)
    array_loop-Ends (suc f) zero h s b = absurd (omega (arith, b.1))
    array_loop-Ends (suc f) (suc n) h s b =
        items_step ops n (parse_array_items ops f) (array_loop-Ends f n (omega arith))
          (parse_expression ops f) (expression-Ends f (suc n) (omega arith)) s b

    array-Ends :
        (f n : ℕ)
        → 6 * n + 1 ≤ f
        → (s : State) → Before n s
        → Settles (Stays n) (parse_array_expression ops f s)
    array-Ends zero n h s b = absurd (omega arith)
    array-Ends (suc f) zero h s b = absurd (omega (arith, b.1))
    array-Ends (suc f) (suc n) h s b =
        array_step ops n (parse_array_items ops f) (array_loop-Ends f n (omega arith)) s.rest
          s.success b.0 (Stream-Taken s.rest b.0) b.1

    literal-Ends :
        (f n : ℕ)
        → 6 * n + 2 ≤ f
        → (s : State) → Before n s
        → Settles (Stays n) (parse_literal ops f s)
    literal-Ends zero n h s b = absurd (omega arith)
    literal-Ends (suc f) n h s b =
        literal_step (parse_array_expression ops f) (parse_simple_literal ops f) n
          (array-Ends f n (omega arith)) (simple-Ends f n (omega arith)) s.rest s.success b.0
          (Ready-Front s.rest s.success (Ready.reading s.rest s.success b.0)) b.1

    unary-Ends :
        (f n : ℕ)
        → 6 * n + 3 ≤ f
        → (s : State) → Before n s
        → Settles (Stays n) (parse_unary_expression ops f s)
    unary-Ends zero n h s b = absurd (omega arith)
    unary-Ends (suc f) zero h s b = absurd (omega (arith, b.1))
    unary-Ends (suc f) (suc n) h s b =
        unary_step ops n (parse_unary_expression ops f) (unary-Ends f n (omega arith))
          (parse_literal ops f) (literal-Ends f (suc n) (omega arith)) s.rest s.success b.0
          (Stream-Taken s.rest b.0) b.1

    operators-Ends :
        (f n : ℕ)
        → 6 * n + 4 ≤ f
        → (oldprec : ℕ) (lhs : Expression) (s : State) → After n s
        → Settles (Stays n) (parse_bin_op_recursive ops f oldprec lhs s)
    operators-Ends zero n h oldprec lhs s a = absurd (omega arith)
    operators-Ends (suc f) zero h oldprec lhs s a = absurd (omega (arith, a.1))
    operators-Ends (suc f) (suc n) h oldprec lhs s a =
        operator_step ops n (parse_unary_expression ops f) (unary-Ends f n (omega arith))
          (parse_bin_op_recursive ops f) (operators-Ends f n (omega arith)) oldprec lhs s.rest
          s.success a.0 (Ready-Front s.rest s.success a.0) a.1

    pub expression-Ends :
        (f n : ℕ)
        → 6 * n + 5 ≤ f
        → (s : State) → Before n s
        → Settles (Stays n) (parse_expression ops f s)
    expression-Ends zero n h s b = absurd (omega arith)
    expression-Ends (suc f) n h s b =
        bind-Settles (Stays n) (Stays n) (parse_unary_expression ops f s) _
          (unary-Ends f n (omega arith) s b) λ lhs t a. operators-Ends f n (omega arith) 0 lhs t a

  -- On the tokens that `parseFile` leaves (the last of which comes four times), and with 6 units of
  -- fuel for each token and 11 more, `parseExpression` ends, and no step reads past the tokens. Either
  -- the assert of `computeDecimal` stops it, or it leaves a stream that ends in the same way, or an
  -- error and three last tokens.
  pub parse_expression-Settles :
      (s : State) (f : ℕ)
      → Stream s.rest
      → 6 * length s.rest + 11 ≤ f
      → Settles (Stays (suc (length s.rest))) (parse_expression ops f s)
  parse_expression-Settles s f st h =
      expression-Ends f (suc (length s.rest)) (omega arith) s (st, omega arith)
