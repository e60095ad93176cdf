-- ===== src/Parser/Initializers.antt =====
-- `parseElementDeclaration` of src/Parser.cpp: the initializer, the loop over the suffixes, and the whole.
use cbuf.Base.{
  ℕ, zero, suc, ◌+◌, ◌*◌, ◌<◌, ◌≤◌, refl, Bool, false, Option, List, ◌∷◌, length, arith,
}
use cbuf.Token.{TokenType, Token, is, ordinal}
use cbuf.Ast.{Value}
use cbuf.Ast.Declarations.{Element}
use cbuf.Evaluate.{FloatOps, Evaluated, value, failed, compute_expression_value}
use cbuf.Parser.{
  State, Parses, get_next_token, lookahead_token, check_token, consume_token, succeeded,
}
use cbuf.Parser.Streams.{Stream, Ready, Taken, Stream-Taken, Ready-Stream, Stays}
use cbuf.Parser.Ends.{expression-Ends}
use cbuf.Parser.Expressions.{parse_expression}
use cbuf.Parser.Halting.{
  Halts, Parsed, bind-Halts, bind-Settles-Halts, if-Halts, refuse-Halts, Parsed-suc,
}
use cbuf.Parser.Shapes.{IsValid, element_type-Halts}
use cbuf.Parser.Suffixes.{array_suffix-Halts}
use cbuf.Parser.Elements.{
  error_with_loc, evaluated_value, parse_init_value, accepts_init, initialized, parse_initializer,
  and_then, parse_array_suffix, parse_suffixes, parse_element_name, parse_element_type,
  parse_element_declaration,
}

abbrev AnyValue : Value → Type 0
AnyValue v = Unit

module _ (ops : FloatOps) where
  module _ (n : ℕ) where
    pub evaluated-Halts :
        (r : Evaluated Value) (ts : List Token) (ok : Bool)
        → Stream ts
        → length ts < n
        → Halts (Parsed AnyValue n) (evaluated_value ops r (record { rest = ts; success = ok }))
    unfolding evaluated_value
    evaluated-Halts (value v) ts ok s len = Halts.halted _ _ (Parsed.parsed v _ tt s len)
    evaluated-Halts failed ts ok s len =
        refuse-Halts AnyValue n ts ok (Ready.reading ts false s) len
    evaluated-Halts Evaluated.undefined ts ok s len = Halts.meaningless
    evaluated-Halts Evaluated.null_expression ts ok s len = Halts.followed_null

    init_value-Halts :
        (f : ℕ)
        → 6 * n + 5 ≤ f
        → (ts : List Token) (ok : Bool) → Stream ts
        → Taken ts
        → length ts < n
        → Halts (Parsed AnyValue n) (parse_init_value ops f (record { rest = ts; success = ok }))
    unfolding parse_init_value lookahead_token consume_token succeeded ordinal
    init_value-Halts f h _ ok s (Taken.taken t ts st rd) len =
        if-Halts (Parsed AnyValue n) (is t.type TokenType.identifier) _ _ _
          (λ k. Halts.halted _ _ (Parsed.parsed _ _ tt (st (ground arith)) (omega arith)))
          λ k.
            bind-Settles-Halts (Stays n) (Parsed AnyValue n) (parse_expression ops f _) _
              (expression-Ends ops f n h _ (s, len))
              λ e u a.
                if-Halts (Parsed AnyValue n) u.success _ _ _
                  (λ c.
                    evaluated-Halts (compute_expression_value ops e) u.rest u.success
                      (Ready-Stream u.rest u.success a.0 (ground arith)) a.1)
                  λ c. Halts.halted _ _ (Parsed.given_up u c a)

    initialized-Halts :
        (elem : Element)
        → IsValid elem
        → (o : Option Value) (s : State) → Parsed AnyValue n o s
        → Halts (Parsed IsValid n) (initialized ops elem o s)
    unfolding initialized
    initialized-Halts elem v _ s (Parsed.given_up _ f a) = Halts.halted _ _ (Parsed.given_up s f a)
    initialized-Halts elem v _ s (Parsed.parsed x _ w st len) =
        if-Halts (Parsed IsValid n) (accepts_init elem x) _ _ _
          (λ k. Halts.halted _ _ (Parsed.parsed _ s v st len))
          λ k. refuse-Halts IsValid n s.rest s.success (Ready.reading s.rest false st) len

    initializer-Halts :
        (f : ℕ)
        → 6 * n + 5 ≤ f
        → (elem : Element) → IsValid elem
        → (t : Token) (ts : List Token) (ok : Bool) → Stream ts
        → length ts < n
        → Halts
            (Parsed IsValid n)
            (parse_initializer ops f elem (record { rest = t ∷ ts; success = ok }))
    unfolding parse_initializer consume_token
    initializer-Halts f h elem v t ts ok s len =
        bind-Halts (Parsed AnyValue n) (Parsed IsValid n)
          (parse_init_value ops f (record { rest = ts; success = ok })) _
          (init_value-Halts f h ts ok s (Stream-Taken ts s) len) (initialized-Halts elem v)

    and_then-Halts :
        (again : Element → Parses (Option Element))
        → ((elem : Element)
            → IsValid elem
            → (ts : List Token) (ok : Bool) → Stream ts
            → Taken ts
            → length ts < n
            → Halts (Parsed IsValid n) (again elem (record { rest = ts; success = ok })))
        → (o : Option Element) (s : State) → Parsed IsValid n o s
        → Halts (Parsed IsValid n) (and_then ops again o s)
    and_then-Halts again h _ s (Parsed.given_up _ f a) = Halts.halted _ _ (Parsed.given_up s f a)
    and_then-Halts again h _ s (Parsed.parsed elem _ v st len) =
        h elem v s.rest s.success st (Stream-Taken s.rest st) len

  suffixes-Halts :
      (f n : ℕ)
      → 6 * n + 6 ≤ f
      → (elem : Element) → IsValid elem
      → (ts : List Token) (ok : Bool) → Stream ts
      → Taken ts
      → length ts < n
      → Halts (Parsed IsValid n) (parse_suffixes ops f elem (record { rest = ts; success = ok }))
  unfolding parse_suffixes check_token consume_token error_with_loc ordinal
  suffixes-Halts zero n h elem v ts ok s tk len = absurd (omega arith)
  suffixes-Halts (suc f) zero h elem v ts ok s tk len = absurd (omega arith)
  suffixes-Halts (suc f) (suc n) h elem v _ ok s (Taken.taken t ts st rd) len =
      if-Halts (Parsed IsValid (suc n)) (is t.type TokenType.semicolon) _ _ _
        (λ k. Halts.halted _ _ (Parsed.parsed elem _ v (st (ground arith)) (omega arith)))
        λ k.
          if-Halts (Parsed IsValid (suc n)) (is t.type TokenType.open_sqbracket) _ _ _
            (λ b. Parsed-suc IsValid n _ (
              bind-Halts (Parsed IsValid n) (Parsed IsValid n)
                (parse_array_suffix f elem (record { rest = t ∷ ts; success = ok })) _
                (array_suffix-Halts n f (omega arith) elem v t ts ok (st (ground arith))
                  (omega arith))
                (and_then-Halts n (parse_suffixes ops f) (suffixes-Halts f n (omega arith)))))
            λ b.
              if-Halts (Parsed IsValid (suc n)) (is t.type TokenType.assign) _ _ _
                (λ a. Parsed-suc IsValid n _ (
                  bind-Halts (Parsed IsValid n) (Parsed IsValid n)
                    (parse_initializer ops f elem (record { rest = t ∷ ts; success = ok })) _
                    (initializer-Halts n f (omega arith) elem v t ts ok (st (ground arith))
                      (omega arith))
                    (and_then-Halts n (parse_suffixes ops f) (suffixes-Halts f n (omega arith)))))
                λ a. Halts.halted _ _ (Parsed.given_up _ refl (Ready.reading _ false s, len))

  element_name-Halts :
      (f n : ℕ)
      → 6 * n + 6 ≤ f
      → (elem : Element) → IsValid elem
      → (ts : List Token) (ok : Bool) → Stream ts
      → Taken ts
      → length ts < n
      → Halts
          (Parsed IsValid n)
          (parse_element_name ops f elem (record { rest = ts; success = ok }))
  unfolding parse_element_name get_next_token ordinal
  element_name-Halts f n h elem v _ ok s (Taken.taken t ts st rd) len =
      if-Halts (Parsed IsValid n) (is t.type TokenType.identifier) _ _ _
        (λ k.
          let s' = st (ground arith) in
          suffixes-Halts f n h (record elem { name = t.string }) v ts ok s' (Stream-Taken ts s')
            (omega arith))
        λ k. refuse-Halts IsValid n ts ok rd (omega arith)

  pub element_declaration-Halts :
      (f n : ℕ)
      → 6 * n + 6 ≤ f
      → (s : State) → Stream s.rest
      → length s.rest < suc n
      → Halts (Parsed IsValid n) (parse_element_declaration ops f s)
  unfolding parse_element_declaration
  element_declaration-Halts f n h s st len =
      bind-Halts (Parsed IsValid n) (Parsed IsValid n) (parse_element_type s) _
        (element_type-Halts n s.rest s.success (Stream-Taken s.rest st) len)
        (and_then-Halts n (parse_element_name ops f) (element_name-Halts f n h))

  -- On the tokens that `parseFile` leaves (the last of which comes four times), and with 6 units of
  -- fuel for each token and 6 more, `parseElementDeclaration` ends, and no step reads past the tokens.
  -- It may stop at the assert of `computeDecimal` or at a step without a meaning in C++, as the division
  -- by 0 in an initializer. Else it returns either a null pointer, and then `success` is cleared, or an
  -- element that is valid: its array is dynamic if and only if the size is 0, and only an array of a
  -- size above 0 whose items are no strings is compact; and the tokens left are fewer and end as before.
  pub parse_element_declaration-Halts :
      (s : State) (f : ℕ)
      → Stream s.rest
      → 6 * length s.rest + 6 ≤ f
      → Halts (Parsed IsValid (length s.rest)) (parse_element_declaration ops f s)
  parse_element_declaration-Halts s f st h =
      element_declaration-Halts f (length s.rest) h s st (omega arith)
