-- ===== src/Parser/Operators.antt =====
-- The array, unary and binary expressions of src/Parser.cpp stay within the tokens, if their parts do.
use cbuf.Base.{
  ℕ, suc, ◌+◌, ◌<◌, ◌≡◌, refl, Bool, true, false, not, ◌&&◌, ◌||◌, Option, none, List, ltb,
  if◌then◌else◌, length, arith, clash,
}
use cbuf.Token.{TokenType, Token, is, ordinal}
use cbuf.Ast.{Expression, Expressions, null, binary}
use cbuf.Evaluate.{FloatOps}
use cbuf.Parser.{
  State, done, Parses, pure, ◌>>=◌, succeeded, check_token, consume_token, get_token_type,
  lookahead_token,
}
use cbuf.Parser.Types.{is_unary_prefix_operator, is_bin_operator, get_precedence}
use cbuf.Parser.Streams.{
  Stream, Ready, Front, Taken, Stream-Taken, Ready-Front, Ready-Stream, Before, After, Items, Stays,
  Settles, settled, bind-Settles, if-Settles, error-Settles, weaken,
}
use cbuf.Parser.Expressions.{
  with_item, set_success, array_separator, array_items, array_end, array_expression,
  unary_expression, right_operand, operator_turn,
}

unary_operator-other :
    (t : TokenType) → is_unary_prefix_operator t ≡ true → is t TokenType.last_token ≡ false
unfolding is_unary_prefix_operator ordinal
unary_operator-other TokenType.last_token h = clash false h refl
unary_operator-other _ h = refl

bin_operator-other : (t : TokenType) → is_bin_operator t ≡ true → is t TokenType.last_token ≡ false
unfolding is_bin_operator ordinal
bin_operator-other TokenType.last_token h = clash false h refl
bin_operator-other _ h = refl

module _ (ops : FloatOps) (n : ℕ) where
  with_item-Items :
      (e : Expression) (es : Option Expressions) (s : State)
      → Items n es s
      → Settles (Items (suc n)) (done (with_item ops e es) s)
  with_item-Items e _ s (Items.gave_up _ a) =
      settled _ s (Items.gave_up s (a.0, omega (arith, a.1)))
  with_item-Items e _ _ (Items.closes es t ts ok st l) =
      settled _ _ (Items.closes _ t ts ok st (omega arith))

  array_end-Settles :
      (es : Option Expressions) (s : State) → Items n es s → Settles (Stays n) (array_end ops es s)
  unfolding array_end consume_token set_success
  array_end-Settles _ s (Items.gave_up _ a) = settled _ s a
  array_end-Settles _ _ (Items.closes es t ts ok st l) = settled _ _ (Ready.reading ts true st, l)

  module _ (items : Parses (Option Expressions))
      (items-Settles : (s : State) → Before n s → Settles (Items n) (items s)) where
    separator-Settles :
        (e : Expression) (ts : List Token) (ok : Bool)
        → Stream ts
        → Taken ts
        → length ts < suc n
        → Settles (Items (suc n)) (array_separator ops e items (record { rest = ts; success = ok }))
    unfolding array_separator check_token consume_token ordinal
    separator-Settles e _ ok s (Taken.taken t ts st rd) len =
        if-Settles (Items (suc n)) (is t.type TokenType.comma) _ _ _
          (λ h.
            bind-Settles (Items n) (Items (suc n)) (items _) _
              (items-Settles _ (st (ground arith), omega arith)) λ es s i. with_item-Items e es s i)
          λ _.
            if-Settles (Items (suc n)) (is t.type TokenType.close_bracket) _ _ _
              (λ h. settled _ _ (Items.closes _ t ts ok (st (ground arith)) (omega arith)))
              λ _.
                error-Settles (Items (suc n)) (suc n) none _ ok (Ready.reading _ false s) len
                  λ s a. Items.gave_up s a

    pub items_step :
        (expression : Parses Expression)
        → ((s : State) → Before (suc n) s → Settles (Stays (suc n)) (expression s))
        → (s : State) → Before (suc n) s
        → Settles (Items (suc n)) (array_items ops expression items s)
    unfolding array_items succeeded
    items_step expression h s b =
        bind-Settles (Stays (suc n)) (Items (suc n)) (expression s) _ (h s b) λ e t a.
          if-Settles (Items (suc n)) (not t.success) _ _ _ (λ _. settled _ t (Items.gave_up t a))
            λ k.
              let st = Ready-Stream t.rest t.success a.0 k in
              separator-Settles e t.rest t.success st (Stream-Taken _ st) a.1

    pub array_step :
        (ts : List Token) (ok : Bool)
        → Stream ts
        → Taken ts
        → length ts < suc n
        → Settles (Stays (suc n)) (array_expression ops items (record { rest = ts; success = ok }))
    unfolding array_expression check_token consume_token ordinal
    array_step _ ok s (Taken.taken t ts st rd) len =
        if-Settles (Stays (suc n)) (not (is t.type TokenType.open_bracket)) _ _ _
          (λ _.
            error-Settles (Stays (suc n)) (suc n) null _ ok (Ready.reading _ false s) len λ s a. a)
          λ h. weaken n _ (
            bind-Settles (Items n) (Stays n) (items _) _
              (items-Settles _ (st (ground arith), omega arith)) array_end-Settles)

  module _ (operand : Parses Expression)
      (operand-Settles : (s : State) → Before n s → Settles (Stays n) (operand s)) where
    pub unary_step :
        (otherwise : Parses Expression)
        → ((s : State) → Before (suc n) s → Settles (Stays (suc n)) (otherwise s))
        → (ts : List Token) (ok : Bool) → Stream ts
        → Taken ts
        → length ts < suc n
        → Settles
            (Stays (suc n))
            (unary_expression ops operand otherwise (record { rest = ts; success = ok }))
    unfolding unary_expression lookahead_token consume_token succeeded
    unary_step otherwise k _ ok s (Taken.taken t ts st rd) len =
        if-Settles (Stays (suc n)) (not (is_unary_prefix_operator t.type)) _ _ _ (λ _. k _ (s, len))
          λ h. weaken n _ (
            bind-Settles (Stays n) (Stays n) (operand _) _
              (operand-Settles _ (st (unary_operator-other t.type (ground arith)), omega arith))
              λ e s a. settled _ s a)

    module _ (again : ℕ → Expression → Parses Expression)
        (again-Settles : (oldprec : ℕ) (lhs : Expression) (s : State)
          → After n s
          → Settles (Stays n) (again oldprec lhs s)) where
      higher-Settles :
          (op : TokenType) (rhs : Expression) (ts : List Token) (ok : Bool)
          → Ready ts ok
          → Front ts
          → length ts < n
          → Settles (Stays n) (
              (get_token_type >>= λ next.
              if is_bin_operator next && ltb (get_precedence op) (get_precedence next)
              then again (get_precedence op + 1) rhs
              else pure rhs)
                (record { rest = ts; success = ok }))
      unfolding get_token_type
      higher-Settles op rhs _ ok rd (Front.front t ts f) len =
          if-Settles (Stays n)
            (is_bin_operator t.type && ltb (get_precedence op) (get_precedence t.type)) _ _ _
            (λ _. again-Settles _ rhs _ (rd, len)) λ _. settled rhs _ (rd, len)

      right-Settles :
          (op : TokenType) (s : State)
          → Before n s
          → Settles (Stays n) (right_operand ops operand again op s)
      unfolding right_operand
      right-Settles op s b =
          bind-Settles (Stays n) (Stays n) (operand s) _ (operand-Settles s b)
            λ rhs t a. higher-Settles op rhs t.rest t.success a.0 (Ready-Front _ _ a.0) a.1

      pub operator_step :
          (oldprec : ℕ) (lhs : Expression) (ts : List Token) (ok : Bool)
          → Ready ts ok
          → Front ts
          → length ts < suc n
          → Settles
              (Stays (suc n))
              (operator_turn ops operand again oldprec lhs (record { rest = ts; success = ok }))
      unfolding operator_turn get_token_type consume_token
      operator_step oldprec lhs _ ok rd (Front.front t ts st) len =
          if-Settles (Stays (suc n))
            (not (is_bin_operator t.type) || ltb (get_precedence t.type) oldprec) _ _ _
            (λ _. settled lhs _ (rd, len))
            λ h. weaken n _ (
              bind-Settles (Stays n) (Stays n) (right_operand ops operand again t.type _) _
                (right-Settles t.type _
                  (st (bin_operator-other t.type (ground arith)), omega arith))
                λ rhs s a. again-Settles oldprec (binary t.type lhs rhs) s a)
