-- ===== src/Parser/Turns.antt =====
-- One turn of the loop of `parseBinOpExpressionRecursive` of src/Parser.cpp.
use cbuf.Base.{
  ℕ, suc, ◌≡◌, refl, sym, ap, Bool, true, false, not, ◌&&◌, ◌||◌, List, ◌∷◌, ltb, if◌then◌else◌,
  arith, clash,
}
use cbuf.Token.{TokenType, Token, ordinal}
use cbuf.Ast.{Expression, binary}
use cbuf.Evaluate.{FloatOps}
use cbuf.Parser.{State, done, Parses, bind, pure}
use cbuf.Parser.Types.{is_bin_operator, get_precedence}
use cbuf.Parser.Expressions.{parse_bin_op_recursive}
use cbuf.Parser.Products.{Operator, operator_type, is_sum, token, number_expression}

-- No operator is above a sum.
precedence_top : (t : TokenType) → ltb 2 (get_precedence t) ≡ false
unfolding get_precedence
precedence_top TokenType.star = refl
precedence_top TokenType.div = refl
precedence_top TokenType.modulo = refl
precedence_top TokenType.plus = refl
precedence_top TokenType.minus = refl
precedence_top _ = refl

module _ (ops : FloatOps) (ok : Bool) where
  abbrev pub at : List Token → State
  at ts = record { rest = ts; success = ok }

  abbrev higher : TokenType → ℕ → Bool
  higher t precedence = is_bin_operator t && ltb precedence (get_precedence t)

  no_higher : (t : TokenType) → higher t 2 ≡ false
  no_higher t = ground (arith, precedence_top t)

  skip_higher :
      (c : Bool) (again : Parses Expression) (rhs : Expression) (s : State)
      (k : Expression → Parses Expression)
      → c ≡ false
      → bind ((if c then again else pure rhs) s) k ≡ k rhs s
  skip_higher true again rhs s k h = clash true refl h
  skip_higher false again rhs s k h = refl

  -- An operator of a sum takes the number behind it.
  pub sum_turn :
      (f n : ℕ) (level : Bool) (op : Operator)
      → is_sum op ≡ true
      → (sum : Expression) (u : Token) (us : List Token)
      → parse_bin_op_recursive ops
          (suc (suc (suc (suc (suc f)))))
          (if level then 2 else 0)
          sum
          (at (token (operator_type op) 0 ∷ token TokenType.number n ∷ u ∷ us))
        ≡ parse_bin_op_recursive ops
            (suc (suc (suc (suc f))))
            (if level then 2 else 0)
            (binary (operator_type op) sum (number_expression n))
            (at (u ∷ us))
  unfolding parse_bin_op_recursive ordinal get_precedence is_bin_operator
  sum_turn f n true Operator.plus h sum u us = skip_higher _ _ _ _ _ (no_higher u.type)
  sum_turn f n true Operator.minus h sum u us = skip_higher _ _ _ _ _ (no_higher u.type)
  sum_turn f n false Operator.plus h sum u us = skip_higher _ _ _ _ _ (no_higher u.type)
  sum_turn f n false Operator.minus h sum u us = skip_higher _ _ _ _ _ (no_higher u.type)
  sum_turn f n level Operator.star h sum u us = clash true refl (sym h)
  sum_turn f n level Operator.div h sum u us = clash true refl (sym h)
  sum_turn f n level Operator.modulo h sum u us = clash true refl (sym h)

  pub if-true :
      (c : Bool) (p q : Parses Expression) (s : State) → c ≡ true → (if c then p else q) s ≡ p s
  if-true true p q s h = refl
  if-true false p q s h = clash false h refl

  -- A sum ends in front of what is no operator of a sum.
  pub sum_stop :
      (f : ℕ) (sum : Expression) (u : Token) (us : List Token)
      → higher u.type 1 ≡ false
      → parse_bin_op_recursive ops (suc f) 2 sum (at (u ∷ us)) ≡ done sum (at (u ∷ us))
  unfolding parse_bin_op_recursive
  sum_stop f sum u us h =
      if-true (not (is_bin_operator u.type) || ltb (get_precedence u.type) 2) (pure sum) _ _
        (ground arith)

  choose_higher :
      (c : Bool) (again : Parses Expression) (rhs : Expression) (s : State)
      (k : Expression → Parses Expression)
      → (c ≡ false → again s ≡ done rhs s)
      → bind ((if c then again else pure rhs) s) k ≡ bind (again s) k
  choose_higher true again rhs s k h = refl
  choose_higher false again rhs s k h = ap (λ o. bind o k) (sym (h refl))

  -- An operator of a product takes the sum behind it.
  pub product_turn :
      (f n : ℕ) (op : Operator)
      → is_sum op ≡ false
      → (product : Expression) (u : Token) (us : List Token)
      → parse_bin_op_recursive ops
          (suc (suc (suc (suc (suc f)))))
          0
          product
          (at (token (operator_type op) 0 ∷ token TokenType.number n ∷ u ∷ us))
        ≡ bind
            (parse_bin_op_recursive ops
              (suc (suc (suc (suc f))))
              2
              (number_expression n)
              (at (u ∷ us)))
            (λ rhs.
              parse_bin_op_recursive ops
                (suc (suc (suc (suc f))))
                0
                (binary (operator_type op) product rhs))
  unfolding parse_bin_op_recursive ordinal get_precedence is_bin_operator
  product_turn f n Operator.plus h product u us = clash true refl h
  product_turn f n Operator.minus h product u us = clash true refl h
  product_turn f n Operator.star h product u us =
      choose_higher _ _ _ _ _ (sum_stop (suc (suc (suc f))) (number_expression n) u us)
  product_turn f n Operator.div h product u us =
      choose_higher _ _ _ _ _ (sum_stop (suc (suc (suc f))) (number_expression n) u us)
  product_turn f n Operator.modulo h product u us =
      choose_higher _ _ _ _ _ (sum_stop (suc (suc (suc f))) (number_expression n) u us)
