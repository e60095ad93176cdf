-- ===== src/Parser/Declares.antt =====
-- `Parser::parseStruct` of src/Parser.cpp ends, and never follows the null pointer of an element.
use cbuf.Base.{
  ℕ, zero, suc, ◌+◌, ◌*◌, ◌<◌, ◌≤◌, ◌≡◌, refl, Bool, true, false, not, Option, none, List, [], ◌∷◌,
  All, All-append, if◌then◌else◌, length, arith, clash, sym, ap, ◌∙◌,
}
use cbuf.Token.{TokenType, Token, is, ordinal}
use cbuf.Ast.Declarations.{Element, StructDecl}
use cbuf.Evaluate.{FloatOps}
use cbuf.Parser.{
  State, Parses, bind, ◌>>=◌, ◌>>◌, pure, error, succeeded, get_next_token, check_token,
  consume_token,
}
use cbuf.Parser.Streams.{Stream, Ready, Taken, Stream-Taken, After}
use cbuf.Parser.Halting.{
  Halts, Parsed, bind-Halts, if-Halts, located-Halts, refuse-Halts, Parsed-suc,
}
use cbuf.Parser.Shapes.{IsValid}
use cbuf.Parser.Initializers.{element_declaration-Halts}
use cbuf.Parser.Elements.{refuse, get_location, parse_element_declaration}
use cbuf.Parser.Structs.{
  must_match_token, set_naked, push_element, parse_struct_elements, parse_struct_body, parse_struct,
}

abbrev pub StructValid : StructDecl → Type 0
StructValid st = All IsValid st.elements

-- After `MustMatchToken`, and after the name of a struct
pub data Matched (n : ℕ) : Bool → State → Type 0 where
  matched : (s : State) → Stream s.rest → length s.rest < n → Matched n true s
  missed : (s : State) → s.success ≡ false → After n s → Matched n false s

abbrev Named : ℕ → StructDecl → State → Type 0
Named n st s = StructValid st × Stream s.rest × (length s.rest < n)

module _ (ops : FloatOps) where
  push-Halts :
      (n : ℕ) (again : StructDecl → Parses (Option StructDecl))
      → ((st : StructDecl)
          → StructValid st
          → (ts : List Token) (ok : Bool) → Stream ts
          → Taken ts
          → length ts < n
          → Halts (Parsed StructValid n) (again st (record { rest = ts; success = ok })))
      → (st : StructDecl) → StructValid st
      → (o : Option Element) (s : State) → Parsed IsValid n o s
      → Halts
          (Parsed StructValid n)
          ((succeeded >>= λ ok. if not ok then pure none else push_element ops again st o) s)
  unfolding succeeded push_element
  push-Halts n again h st v _ s (Parsed.given_up _ f a) =
      if-Halts (Parsed StructValid n) (not s.success) _ _ _
        (λ k. Halts.halted _ _ (Parsed.given_up s f a))
        λ k. clash true refl (ap (λ b. not b) (sym f) ∙ k)
  push-Halts n again h st v _ s (Parsed.parsed elem _ w str len) =
      if-Halts (Parsed StructValid n) (not s.success) _ _ _
        (λ k.
          Halts.halted _ _
            (Parsed.given_up s (ground arith) (Ready.reading s.rest s.success str, len)))
        λ k.
          h _ (All-append IsValid st.elements (elem ∷ []) v (w, tt)) s.rest s.success str
            (Stream-Taken s.rest str) len

  elements-Halts :
      (f n : ℕ)
      → 6 * n + 7 ≤ f
      → (st : StructDecl) → StructValid st
      → (ts : List Token) (ok : Bool) → Stream ts
      → Taken ts
      → length ts < n
      → Halts
          (Parsed StructValid n)
          (parse_struct_elements ops f st (record { rest = ts; success = ok }))
  unfolding parse_struct_elements check_token consume_token ordinal
  elements-Halts zero n h st v ts ok s tk len = absurd (omega arith)
  elements-Halts (suc f) zero h st v ts ok s tk len = absurd (omega arith)
  elements-Halts (suc f) (suc n) h st v _ ok s (Taken.taken t ts str rd) len =
      if-Halts (Parsed StructValid (suc n)) (is t.type TokenType.close_bracket) _ _ _
        (λ k. Halts.halted _ _ (Parsed.parsed st _ v (str (ground arith)) (omega arith)))
        λ k. Parsed-suc StructValid n _ (
          bind-Halts (Parsed IsValid n) (Parsed StructValid n)
            (parse_element_declaration ops f (record { rest = t ∷ ts; success = ok })) _
            (element_declaration-Halts ops f n (omega arith)
              (record { rest = t ∷ ts; success = ok }) s len)
            (push-Halts n (parse_struct_elements ops f) (elements-Halts f n (omega arith)) st v))

  pub brace-Halts :
      (n : ℕ) (ts : List Token) (ok : Bool)
      → Stream ts
      → Taken ts
      → length ts < n
      → Halts
          (Matched n)
          (must_match_token TokenType.open_bracket (record { rest = ts; success = ok }))
  unfolding must_match_token check_token consume_token error ordinal
  brace-Halts n _ ok s (Taken.taken t ts str rd) len =
      if-Halts (Matched n) (is t.type TokenType.open_bracket) _ _ _
        (λ k. Halts.halted _ _ (Matched.matched _ (str (ground arith)) (omega arith)))
        λ k. Halts.halted _ _ (Matched.missed _ refl (Ready.reading _ false s, len))

  found_brace-Halts :
      (f n : ℕ)
      → 6 * n + 7 ≤ f
      → (st : StructDecl) → StructValid st
      → (b : Bool) (s : State) → Matched n b s
      → Halts (Parsed StructValid n) ((if b then parse_struct_elements ops f st else pure none) s)
  found_brace-Halts f n h st v _ s (Matched.matched _ str len) =
      elements-Halts f n h st v s.rest s.success str (Stream-Taken s.rest str) len
  found_brace-Halts f n h st v _ s (Matched.missed _ k a) = Halts.halted _ _ (Parsed.given_up s k a)

  body-Halts :
      (f n : ℕ)
      → 6 * n + 7 ≤ f
      → (st : StructDecl) (s : State) → Named n st s
      → Halts (Parsed StructValid n) (parse_struct_body ops f st s)
  unfolding parse_struct_body
  body-Halts f n h st s (v, str, len) =
      bind-Halts (Matched n) (Parsed StructValid n) (must_match_token TokenType.open_bracket s) _
        (brace-Halts n s.rest s.success str (Stream-Taken s.rest str) len)
        (found_brace-Halts f n h st v)

  naked-Halts :
      (n : ℕ) (st : StructDecl)
      → StructValid st
      → (ts : List Token) (ok : Bool) → Stream ts
      → Taken ts
      → length ts < n
      → Halts (Named n) (set_naked st (record { rest = ts; success = ok }))
  unfolding set_naked check_token consume_token ordinal
  naked-Halts n st v _ ok s (Taken.taken t ts str rd) len =
      if-Halts (Named n) (is t.type TokenType.naked) _ _ _
        (λ k. Halts.halted _ _ (v, str (ground arith), omega arith))
        λ k. Halts.halted _ _ (v, s, len)

  name-Halts :
      (f n : ℕ)
      → 6 * n + 7 ≤ f
      → (ts : List Token) (ok : Bool) → Taken ts
      → length ts < n
      → Halts (Parsed StructValid n) (
          bind (get_next_token (record { rest = ts; success = ok })) λ u.
            if not (is u.type TokenType.identifier)
            then refuse
            else (get_location
                >> (set_naked (record { name = u.string; naked = Bool.false; elements = [] })
                    >>= parse_struct_body ops f)))
  unfolding get_next_token ordinal
  name-Halts f n h _ ok (Taken.taken u us str rd) len =
      if-Halts (Parsed StructValid n) (not (is u.type TokenType.identifier)) _ _ _
        (λ k. refuse-Halts StructValid n us ok rd (omega arith))
        λ k.
          let s = str (ground arith) in
          located-Halts (Parsed StructValid n) _ us ok (Stream-Taken us s) (
            bind-Halts (Named n) (Parsed StructValid n) _ (parse_struct_body ops f)
              (naked-Halts n (record { name = u.string; naked = Bool.false; elements = [] }) tt us
                ok s (Stream-Taken us s) (omega arith))
              (body-Halts f n h))

  pub struct-Halts :
      (f n : ℕ)
      → 6 * n + 7 ≤ f
      → (ts : List Token) (ok : Bool) → Taken ts
      → length ts < suc n
      → Halts (Parsed StructValid n) (parse_struct ops f (record { rest = ts; success = ok }))
  unfolding parse_struct get_next_token ordinal
  struct-Halts f n h _ ok (Taken.taken t ts str rd) len =
      if-Halts (Parsed StructValid n) (not (is t.type TokenType.struct)) _ _ _
        (λ k. refuse-Halts StructValid n ts ok rd (omega arith))
        λ k. name-Halts f n h ts ok (Stream-Taken ts (str (ground arith))) (omega arith)
