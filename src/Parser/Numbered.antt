-- ===== src/Parser/Numbered.antt =====
-- `Parser::parseEnum` of src/Parser.cpp ends, and numbers its items as C++ does.
use cbuf.Base.{
  ℕ, zero, suc, ◌+◌, ◌*◌, ◌<◌, ◌≤◌, ◌≡◌, Bool, true, false, not, Option, none, some, List, [], ◌∷◌,
  if◌then◌else◌, length, arith,
}
use cbuf.Base.Int.{ℤ}
use cbuf.Token.{TokenType, Token, is, ordinal}
use cbuf.Ast.Declarations.{Text, EnumItem, EnumDecl}
use cbuf.Evaluate.{FloatOps, compute_expression_value}
use cbuf.Parser.{
  State, Parses, bind, ◌>>=◌, pure, error, succeeded, get_next_token, check_token, consume_token,
  lookahead_token,
}
use cbuf.Parser.Streams.{Stream, Ready, Taken, Stream-Taken, Ready-Stream, is_last, Stays}
use cbuf.Parser.Initializers.{evaluated-Halts}
use cbuf.Parser.Structs.{must_match_token}
use cbuf.Parser.Declares.{Matched, brace-Halts}
use cbuf.Parser.Ends.{expression-Ends}
use cbuf.Parser.Expressions.{parse_expression}
use cbuf.Parser.Halting.{
  Halts, Parsed, bind-Halts, bind-Settles-Halts, if-Halts, located-Halts, refuse-Halts, Parsed-suc,
}
use cbuf.Parser.Elements.{evaluated_value}
use cbuf.Parser.Enums.{
  has_item, check_duplicate, last_value, parse_assigned_value, parse_item_value, push_item,
  parse_enum_items, parse_enum_body, parse_enum_name, parse_enum,
}
use cbuf.Parser.ItemValues.{
  follows, Numbered, last_of, last_value-last_of, Numbered-append, EnumValid, AnyNumber, AnyValue,
  ItemRead, next-Halts, integer-Halts, assigned-ItemRead,
}

module _ (ops : FloatOps) where
  assigned-Halts :
      (f n : ℕ)
      → 6 * n + 5 ≤ f
      → (t : Token) (ts : List Token) (ok : Bool) → Stream ts
      → length ts < n
      → Halts
          (Parsed AnyNumber n)
          (parse_assigned_value ops f (record { rest = t ∷ ts; success = ok }))
  unfolding parse_assigned_value consume_token succeeded
  assigned-Halts f n h t ts ok s len =
      bind-Settles-Halts (Stays n) (Parsed AnyNumber n)
        (parse_expression ops f (record { rest = ts; success = ok })) _
        (expression-Ends ops f n h _ (s, len))
        λ e u a.
          if-Halts (Parsed AnyNumber n) u.success _ _ _
            (λ c.
              bind-Halts (Parsed AnyValue n) (Parsed AnyNumber n)
                (evaluated_value ops (compute_expression_value ops e) u) _
                (evaluated-Halts ops n (compute_expression_value ops e) u.rest u.success
                  (Ready-Stream u.rest u.success a.0 (ground arith)) a.1)
                (integer-Halts n []))
            λ c. Halts.halted _ _ (Parsed.given_up u c a)

  item_value-Halts :
      (f n : ℕ)
      → 6 * n + 5 ≤ f
      → (items : List EnumItem) (ts : List Token) (ok : Bool) → Stream ts
      → Taken ts
      → length ts < n
      → Halts (ItemRead n items) (parse_item_value ops f items (record { rest = ts; success = ok }))
  unfolding parse_item_value lookahead_token ordinal
  item_value-Halts f n h items _ ok s (Taken.taken t ts st rd) len =
      if-Halts (ItemRead n items) (is t.type TokenType.assign) _ _ _
        (λ k.
          bind-Halts (Parsed AnyNumber n) (ItemRead n items)
            (parse_assigned_value ops f (record { rest = t ∷ ts; success = ok })) _
            (assigned-Halts f n h t ts ok (st (ground arith)) (omega arith))
            (assigned-ItemRead n items))
        λ k. next-Halts n items (last_value items) (last_value-last_of items) _ s len

  module _ (n : ℕ) (again : EnumDecl → Parses (Option EnumDecl))
      (again-Halts : (en : EnumDecl)
        → EnumValid en
        → (ts : List Token) (ok : Bool) → Stream ts
        → Taken ts
        → length ts < n
        → Halts (Parsed EnumValid n) (again en (record { rest = ts; success = ok }))) where
    pushed :
        (en : EnumDecl)
        → EnumValid en
        → (name : Text) (v : ℤ) (assigned : Bool) (ts : List Token) (ok : Bool) → Stream ts
        → Taken ts
        → length ts < n
        → (assigned ≡ false → v ≡ follows (last_of none en.elements))
        → Halts
            (Parsed EnumValid n)
            (push_item ops again en name (some v, assigned) (record { rest = ts; success = ok }))
    unfolding push_item lookahead_token consume_token ordinal
    pushed en w name v assigned _ ok s (Taken.taken t ts st rd) len h =
        if-Halts (Parsed EnumValid n) (is t.type TokenType.comma) _ _ _
          (λ k.
            let s' = st (ground arith) in
            again-Halts _ (Numbered-append none en.elements _ w h) ts ok s' (Stream-Taken ts s')
              (omega arith))
          λ k.
            if-Halts (Parsed EnumValid n) (is t.type TokenType.close_bracket) _ _ _
              (λ c.
                again-Halts _ (Numbered-append none en.elements _ w h) _ ok s (Stream-Taken _ s)
                  len)
              λ c. refuse-Halts EnumValid n _ ok (Ready.reading _ false s) len

    push_item-Halts :
        (en : EnumDecl)
        → EnumValid en
        → (name : Text) (v : Option ℤ × Bool) (s : State) → ItemRead n en.elements v s
        → Halts (Parsed EnumValid n) (push_item ops again en name v s)
    unfolding push_item
    push_item-Halts en w name _ s (ItemRead.item_read v assigned _ h st len) =
        pushed en w name v assigned s.rest s.success st (Stream-Taken s.rest st) len h
    push_item-Halts en w name _ s (ItemRead.no_item assigned _ f a) =
        Halts.halted _ _ (Parsed.given_up s f a)

  duplicate-Halts :
      (n : ℕ) (p : Parses (Option EnumDecl)) (c : Bool) (t : Token) (ts : List Token) (ok : Bool)
      → ((ok' : Bool) → Halts (Parsed EnumValid n) (p (record { rest = t ∷ ts; success = ok' })))
      → Halts
          (Parsed EnumValid n)
          (bind ((if c then error else pure tt) (record { rest = t ∷ ts; success = ok })) λ _. p)
  unfolding error
  duplicate-Halts n p true t ts ok h = h false
  duplicate-Halts n p false t ts ok h = h ok

  items-Halts :
      (f n : ℕ)
      → 6 * n + 6 ≤ f
      → (en : EnumDecl) → EnumValid en
      → (ts : List Token) (ok : Bool) → Stream ts
      → Taken ts
      → length ts < n
      → Halts (Parsed EnumValid n) (parse_enum_items ops f en (record { rest = ts; success = ok }))
  unfolding parse_enum_items check_token lookahead_token consume_token check_duplicate ordinal
  items-Halts zero n h en v ts ok s tk len = absurd (omega arith)
  items-Halts (suc f) zero h en v ts ok s tk len = absurd (omega arith)
  items-Halts (suc f) (suc n) h en v _ ok s (Taken.taken t ts st rd) len =
      if-Halts (Parsed EnumValid (suc n)) (is t.type TokenType.close_bracket) _ _ _
        (λ k. Halts.halted _ _ (Parsed.parsed en _ v (st (ground arith)) (omega arith)))
        λ k.
          if-Halts (Parsed EnumValid (suc n)) (not (is t.type TokenType.identifier)) _ _ _
            (λ i. refuse-Halts EnumValid (suc n) _ ok (Ready.reading _ false s) len)
            λ i.
              let s' = st (ground arith) in
              Parsed-suc EnumValid n _ (
                duplicate-Halts n _ (has_item t.string en.elements) t ts ok λ ok'.
                  bind-Halts (ItemRead n en.elements) (Parsed EnumValid n)
                    (parse_item_value ops f en.elements (record { rest = ts; success = ok' })) _
                    (item_value-Halts f n (omega arith) en.elements ts ok' s' (Stream-Taken ts s')
                      (omega arith))
                    (push_item-Halts n (parse_enum_items ops f) (items-Halts f n (omega arith)) en v
                      t.string))

  braced-Halts :
      (f n : ℕ)
      → 6 * n + 6 ≤ f
      → (en : EnumDecl) → EnumValid en
      → (b : Bool) (s : State) → Matched n b s
      → Halts (Parsed EnumValid n) ((if b then parse_enum_items ops f en else pure none) s)
  braced-Halts f n h en v _ s (Matched.matched _ st len) =
      items-Halts f n h en v s.rest s.success st (Stream-Taken s.rest st) len
  braced-Halts f n h en v _ s (Matched.missed _ k a) = Halts.halted _ _ (Parsed.given_up s k a)

  enum_name-Halts :
      (f n : ℕ)
      → 6 * n + 6 ≤ f
      → (is_class : Bool) (t : Token) (ts : List Token) (ok : Bool)
      → (is_last t ≡ false → Stream ts)
      → Ready ts false
      → length ts < n
      → Halts
          (Parsed EnumValid n)
          (parse_enum_name ops f is_class t (record { rest = ts; success = ok }))
  unfolding parse_enum_name parse_enum_body Numbered ordinal
  enum_name-Halts f n h is_class t ts ok st rd len =
      if-Halts (Parsed EnumValid n) (is t.type TokenType.identifier) _ _ _
        (λ k.
          let s = st (ground arith) in
          located-Halts (Parsed EnumValid n) _ ts ok (Stream-Taken ts s) (
            bind-Halts (Matched n) (Parsed EnumValid n)
              (must_match_token TokenType.open_bracket (record { rest = ts; success = ok })) _
              (brace-Halts ops n ts ok s (Stream-Taken ts s) len)
              (braced-Halts f n h (record { name = t.string; is_class = is_class; elements = [] })
                tt)))
        λ k. refuse-Halts EnumValid n ts ok rd len

  class-Halts :
      (f n : ℕ)
      → 6 * n + 6 ≤ f
      → (ts : List Token) (ok : Bool) → Taken ts
      → length ts < n
      → Halts
          (Parsed EnumValid n)
          ((get_next_token >>= parse_enum_name ops f true) (record { rest = ts; success = ok }))
  unfolding get_next_token
  class-Halts f n h _ ok (Taken.taken t ts st rd) len =
      enum_name-Halts f n h true t ts ok st rd (omega arith)

  after_keyword :
      (f n : ℕ)
      → 6 * n + 6 ≤ f
      → (ts : List Token) (ok : Bool) → Taken ts
      → length ts < n
      → Halts (Parsed EnumValid n) (
          bind (get_next_token (record { rest = ts; success = ok })) λ u.
            if is u.type TokenType.class
            then (get_next_token >>= parse_enum_name ops f true)
            else parse_enum_name ops f false u)
  unfolding get_next_token ordinal
  after_keyword f n h _ ok (Taken.taken t ts st rd) len =
      if-Halts (Parsed EnumValid n) (is t.type TokenType.class) _ _ _
        (λ k. class-Halts f n h ts ok (Stream-Taken ts (st (ground arith))) (omega arith))
        λ k. enum_name-Halts f n h false t ts ok st rd (omega arith)

  pub enum-Halts :
      (f n : ℕ)
      → 6 * n + 6 ≤ f
      → (ts : List Token) (ok : Bool) → Taken ts
      → length ts < suc n
      → Halts (Parsed EnumValid n) (parse_enum ops f (record { rest = ts; success = ok }))
  unfolding parse_enum get_next_token ordinal
  enum-Halts f n h _ ok (Taken.taken t ts st rd) len =
      if-Halts (Parsed EnumValid n) (not (is t.type TokenType.enum)) _ _ _
        (λ k. refuse-Halts EnumValid n ts ok rd (omega arith))
        λ k. after_keyword f n h ts ok (Stream-Taken ts (st (ground arith))) (omega arith)
