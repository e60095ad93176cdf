-- ===== src/Parser/ConstEnds.antt =====
-- `Parser::parseConst` of src/Parser.cpp ends, with a constant of the type that its value fits.
use cbuf.Base.{
  ℕ, suc, ◌+◌, ◌<◌, ◌≡◌, refl, Bool, true, false, Option, none, some, List, ◌∷◌, if◌then◌else◌,
  length, arith,
}
use cbuf.Token.{TokenType, Token, is, ordinal}
use cbuf.Ast.{ElementType}
use cbuf.Ast.Declarations.{Text, ConstDecl}
use cbuf.Parser.{State, done, ◌>>◌, pure, error, get_next_token, check_token, consume_token}
use cbuf.Parser.Types.{is_built_in_type}
use cbuf.Parser.Streams.{Stream, Ready, Taken, Stream-Taken, is-other}
use cbuf.Parser.Halting.{Halts, Parsed, bind-Halts, if-Halts, located-Halts, refuse-Halts}
use cbuf.Parser.Declares.{Matched}
use cbuf.Parser.Elements.{error_with_loc}
use cbuf.Parser.Structs.{must_match_token}
use cbuf.Parser.Constants.{
  const_type, new_const, const_value, finish_const, parse_const_value, assigned_const,
  parse_const_name, typed_const, parse_const_type, parse_const,
}
use cbuf.Parser.ConstKinds.{
  IsConstType, ConstValid, OnSome, const_type-OnSome, const_value-OnSome, const_value-other,
  built_in-other,
}

module _ (n : ℕ) where
  missing :
      (c : Bool) (t : Token) (ts : List Token) (ok : Bool)
      → Stream (t ∷ ts)
      → length ts + 1 < n
      → Halts (Matched n) (
          ((if c then error_with_loc else error) >> pure false)
            (record { rest = t ∷ ts; success = ok }))
  unfolding error error_with_loc
  missing true t ts ok s len =
      Halts.halted _ _ (Matched.missed _ refl (Ready.reading _ false s, omega arith))
  missing false t ts ok s len =
      Halts.halted _ _ (Matched.missed _ refl (Ready.reading _ false s, omega arith))

  must_match-Halts :
      (type : TokenType)
      → is type TokenType.last_token ≡ false
      → (ts : List Token) (ok : Bool) → Stream ts
      → Taken ts
      → length ts < n
      → Halts (Matched n) (must_match_token type (record { rest = ts; success = ok }))
  unfolding must_match_token check_token consume_token
  must_match-Halts type other _ ok s (Taken.taken t ts st rd) len =
      if-Halts (Matched n) (is t.type type) _ _ _
        (λ k.
          Halts.halted _ _ (Matched.matched _ (st (is-other t.type type k other)) (omega arith)))
        λ k. missing (is type TokenType.semicolon) t ts ok s (omega arith)

  ended-Halts :
      (cst : ConstDecl)
      → ConstValid cst
      → (b : Bool) (s : State) → Matched n b s
      → Halts (Parsed ConstValid n) (done (if b then some cst else none) s)
  ended-Halts cst v _ s (Matched.matched _ st len) = Halts.halted _ _ (Parsed.parsed cst s v st len)
  ended-Halts cst v _ s (Matched.missed _ k a) = Halts.halted _ _ (Parsed.given_up s k a)

  finish-Halts :
      (o : Option ConstDecl)
      → OnSome ConstValid o
      → (ts : List Token) (ok : Bool) → ((cst : ConstDecl) → o ≡ some cst → Stream ts)
      → Ready ts false
      → length ts < n
      → Halts (Parsed ConstValid n) (finish_const o (record { rest = ts; success = ok }))
  unfolding finish_const ordinal
  finish-Halts none v ts ok st rd len = refuse-Halts ConstValid n ts ok rd len
  finish-Halts (some cst) v ts ok st rd len =
      let s = st cst refl in
      bind-Halts (Matched n) (Parsed ConstValid n)
        (must_match_token TokenType.semicolon (record { rest = ts; success = ok })) _
        (must_match-Halts TokenType.semicolon refl ts ok s (Stream-Taken ts s) len)
        (ended-Halts cst v)

  const_value-Halts :
      (type : ElementType)
      → IsConstType type
      → (name : Text) (ts : List Token) (ok : Bool) → Taken ts
      → length ts < n
      → Halts
          (Parsed ConstValid n)
          (parse_const_value type name (record { rest = ts; success = ok }))
  unfolding parse_const_value get_next_token
  const_value-Halts type c name _ ok (Taken.taken t ts st rd) len =
      finish-Halts (const_value type t (record (new_const name type) { str_val = t.string }))
        (const_value-OnSome type c t name t.string) ts ok
        (λ cst h. st (const_value-other type t _ cst h)) rd (omega arith)

  assigned_const-Halts :
      (type : ElementType)
      → IsConstType type
      → (name : Text) (b : Bool) (s : State) → Matched n b s
      → Halts (Parsed ConstValid n) (assigned_const type name b s)
  unfolding assigned_const
  assigned_const-Halts type c name _ s (Matched.matched _ st len) =
      const_value-Halts type c name s.rest s.success (Stream-Taken s.rest st) len
  assigned_const-Halts type c name _ s (Matched.missed _ k a) =
      Halts.halted _ _ (Parsed.given_up s k a)

  const_name-Halts :
      (type : ElementType)
      → IsConstType type
      → (ts : List Token) (ok : Bool) → Taken ts
      → length ts < n
      → Halts (Parsed ConstValid n) (parse_const_name type (record { rest = ts; success = ok }))
  unfolding parse_const_name get_next_token ordinal
  const_name-Halts type c _ ok (Taken.taken t ts st rd) len =
      if-Halts (Parsed ConstValid n) (is t.type TokenType.identifier) _ _ _
        (λ k.
          let s = st (ground arith) in
          bind-Halts (Matched n) (Parsed ConstValid n)
            (must_match_token TokenType.assign (record { rest = ts; success = ok })) _
            (must_match-Halts TokenType.assign refl ts ok s (Stream-Taken ts s) (omega arith))
            (assigned_const-Halts type c t.string))
        λ k. refuse-Halts ConstValid n ts ok rd (omega arith)

  typed_const-Halts :
      (o : Option ElementType)
      → OnSome IsConstType o
      → (ts : List Token) (ok : Bool) → Stream ts
      → length ts < n
      → Halts (Parsed ConstValid n) (typed_const o (record { rest = ts; success = ok }))
  unfolding typed_const
  typed_const-Halts none c ts ok s len =
      refuse-Halts ConstValid n ts ok (Ready.reading ts false s) len
  typed_const-Halts (some type) c ts ok s len =
      located-Halts (Parsed ConstValid n) (parse_const_name type) ts ok (Stream-Taken ts s)
        (const_name-Halts type c ts ok (Stream-Taken ts s) len)

  const_type-Halts :
      (ts : List Token) (ok : Bool)
      → Taken ts
      → length ts < n
      → Halts (Parsed ConstValid n) (parse_const_type (record { rest = ts; success = ok }))
  unfolding parse_const_type get_next_token
  const_type-Halts _ ok (Taken.taken t ts st rd) len =
      if-Halts (Parsed ConstValid n) (is_built_in_type t.type) _ _ _
        (λ k.
          typed_const-Halts (const_type t.type) (const_type-OnSome t.type) ts ok
            (st (built_in-other t.type k)) (omega arith))
        λ k. refuse-Halts ConstValid n ts ok rd (omega arith)

  pub const-Halts :
      (ts : List Token) (ok : Bool)
      → Taken ts
      → length ts < suc n
      → Halts (Parsed ConstValid n) (parse_const (record { rest = ts; success = ok }))
  unfolding parse_const get_next_token ordinal
  const-Halts _ ok (Taken.taken t ts st rd) len =
      if-Halts (Parsed ConstValid n) (is t.type TokenType.const) _ _ _
        (λ k. const_type-Halts ts ok (Stream-Taken ts (st (ground arith))) (omega arith))
        λ k. refuse-Halts ConstValid n ts ok rd (omega arith)

-- On the tokens that `parseFile` leaves (the last of which comes four times), `parseConst` reads none
-- past them, and does not run out of fuel. Where it returns, it gives either a null pointer, and then
-- `success` is cleared, or a constant of a built in type other than a short string, with no number if it
-- is a string, no integer if it is a float, and no float in the other cases; or it stops at a failed
-- assert, at a step that C++ gives no meaning, or at a null expression.
pub parse_const-Halts :
    (s : State) → Stream s.rest → Halts (Parsed ConstValid (length s.rest)) (parse_const s)
parse_const-Halts s st =
    const-Halts (length s.rest) s.rest s.success (Stream-Taken s.rest st) (omega arith)
