-- ===== src/Parser/Literals.antt =====
-- `parseSimpleLiteral` of src/Parser.cpp stays within the tokens, if `parseExpression` does.
use cbuf.Base.{
  ℕ, suc, ◌+◌, ◌<◌, ◌≡◌, Bool, false, not, ◌&&◌, some, List, ◌∷◌, if◌then◌else◌, length, arith,
  if-cases,
}
use cbuf.Token.{TokenType, Token, is, ordinal}
use cbuf.Ast.{Value, Expression, null}
use cbuf.Evaluate.{FloatOps}
use cbuf.Parser.{
  State, Parses, bind, pure, ◌>>◌, succeeded, error, get_next_token, check_ahead_token,
}
use cbuf.Parser.Types.{is_hex_number}
use cbuf.Parser.Streams.{
  Stream, Ready, Front, Taken, Stream-Taken, Ready-Front, Ready-Stream, is_last, Before, After,
  Stays, Settles, settled, asserted, bind-Settles, if-Settles, Option-Settles, error-Settles,
}
use cbuf.Parser.Expressions.{
  literal_of, compute_decimal, parse_period, parse_parens, simple_literal,
}

module _ (ops : FloatOps) where
  literal_of-other : (t : Token) (v : Value) → literal_of ops t ≡ some v → is_last t ≡ false
  unfolding literal_of ordinal
  literal_of-other t v h = ground arith

  module _ (n : ℕ) where
    decimal-Settles :
        (t : Token) (ts : List Token) (ok : Bool)
        → (is_last t ≡ false → Stream ts)
        → length ts < n
        → Settles (λ x s. After n s) (compute_decimal ops t (record { rest = ts; success = ok }))
    unfolding compute_decimal ordinal
    decimal-Settles t ts ok st len =
        if-cases (Settles (λ x s. After n s)) (is t.type TokenType.number && not (is_hex_number t))
          (λ h. settled _ _ (Ready.reading ts ok (st (ground arith)), len)) (λ h. asserted)

    after_period :
        (t : Token) (ts : List Token) (ok : Bool)
        → Stream (t ∷ ts)
        → (is_last t ≡ false → Stream ts)
        → Ready ts false
        → Front ts
        → length ts + 1 < n
        → Settles (Stays n) (parse_period ops (record { rest = t ∷ ts; success = ok }))
    unfolding parse_period check_ahead_token get_next_token
    after_period t _ ok s st rd (Front.front u us f) len =
        if-Settles (Stays n) (not (is u.type TokenType.number)) _ _ _
          (λ _.
            error-Settles (Stays n) n null _ ok (Ready.reading _ false s) (omega arith) λ s a. a)
          (λ _.
            if-Settles (Stays n) (is_hex_number t) _ _ _
              (λ _. error-Settles (Stays n) n null _ ok rd (omega arith) λ s a. a)
              (λ _.
                bind-Settles (λ x s. After n s) (Stays n) (compute_decimal ops t _) _
                  (decimal-Settles t _ ok st (omega arith)) λ x s a. settled _ s a))

    period-Settles :
        (ts : List Token) (ok : Bool)
        → Stream ts
        → Taken ts
        → length ts < n
        → Settles (Stays n) (parse_period ops (record { rest = ts; success = ok }))
    period-Settles _ ok s (Taken.taken t ts st rd) len =
        after_period t ts ok s st rd (Ready-Front ts false rd) (omega arith)

    close_parens :
        (e : Expression) (ts : List Token) (ok : Bool)
        → Taken ts
        → length ts < n
        → Settles (Stays n) (
            bind
              (get_next_token (record { rest = ts; success = ok }))
              λ t. if is t.type TokenType.close_paren then pure e else error >> pure null)
    unfolding get_next_token ordinal
    close_parens e _ ok (Taken.taken t ts st rd) len =
        if-Settles (Stays n) (is t.type TokenType.close_paren) _ _ _
          (λ h. settled _ _ (Ready.reading ts ok (st (ground arith)), omega arith))
          (λ _. error-Settles (Stays n) n null ts ok rd (omega arith) λ s a. a)

  module _ (n : ℕ) (expression : Parses Expression)
      (expression-Settles : (s : State) → Before n s → Settles (Stays n) (expression s)) where
    parens-Settles : (s : State) → Before n s → Settles (Stays n) (parse_parens ops expression s)
    unfolding parse_parens succeeded
    parens-Settles s b =
        bind-Settles (Stays n) (Stays n) (expression s) _ (expression-Settles s b) λ e t a.
          if-Settles (Stays n) (not t.success) _ _ _ (λ _. settled _ _ a)
            λ h.
              close_parens n e t.rest t.success
                (Stream-Taken _ (Ready-Stream t.rest t.success a.0 h)) a.1

    pub simple-Settles :
        (ts : List Token) (ok : Bool)
        → Taken ts
        → length ts < suc n
        → Settles (Stays n) (simple_literal ops expression (record { rest = ts; success = ok }))
    unfolding simple_literal get_next_token ordinal
    simple-Settles _ ok (Taken.taken t ts st rd) len =
        if-Settles (Stays n) (is t.type TokenType.identifier) _ _ _ (λ _. fails)
          λ _.
            Option-Settles (Stays n) (literal_of ops t) _ _ _
              (λ v h.
                if-Settles (Stays n) t.is_hex _ _ _ (λ _. fails)
                  λ _. settled _ _ (Ready.reading ts ok (st (literal_of-other t v h)), omega arith))
              λ _.
                if-Settles (Stays n) (is t.type TokenType.open_paren) _ _ _
                  (λ h. parens-Settles _ (st (ground arith), omega arith))
                  λ _.
                    if-Settles (Stays n) (is t.type TokenType.period) _ _ _
                      (λ h.
                        period-Settles n ts ok (st (ground arith))
                          (Stream-Taken ts (st (ground arith))) (omega arith))
                      λ _. fails
      where
        fails : Settles (Stays n) ((error >> pure null) (record { rest = ts; success = ok }))
        fails = error-Settles (Stays n) n null ts ok rd (omega arith) λ s a. a
