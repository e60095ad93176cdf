-- ===== src/Parser/Shapes.antt =====
-- The shapes of elements that src/Parser.cpp accepts, and the size of an array in its brackets.
use cbuf.Base.{
  ℕ, zero, suc, ◌*◌, ◌%◌, ◌^◌, ◌<◌, ◌≤◌, ◌≡◌, refl, Bool, true, false, not, ◌&&◌, Option, none,
  some, List, ◌==◌, if◌then◌else◌, length, arith, clash,
}
use cbuf.Token.{TokenType, Token, is, ordinal}
use cbuf.Ast.{ElementType}
use cbuf.Ast.Declarations.{Element, Text}
use cbuf.Parser.{bind, get_next_token, check_token, consume_token}
use cbuf.Parser.Types.{is_built_in_type}
use cbuf.Parser.Streams.{Stream, Ready, Taken, Stream-Taken}
use cbuf.Parser.Halting.{Halts, Parsed, if-Halts, located-Halts, refuse-Halts, Parsed-suc}
use cbuf.Parser.Elements.{
  refuse, built_in_element_type, parse_scoped_name, parse_custom_type, built_in_element,
  parse_element_type, parse_size_factors,
}

unfoldable pub is_string : ElementType → Bool
is_string ElementType.string = true
is_string _ = false

-- An array is dynamic if and only if its size is 0; a compact one has a size, and is not of strings.
unfoldable pub ShapeValid : Option ℕ → (is_dynamic is_compact : Bool) → ElementType → Type 0
ShapeValid none is_dynamic is_compact type = (is_dynamic ≡ false) × (is_compact ≡ false)
ShapeValid (some n) is_dynamic is_compact type =
    (is_dynamic ≡ (n == 0)) × (is_compact ≡ true → ((n == 0) ≡ false) × (is_string type ≡ false))

abbrev pub IsValid : Element → Type 0
IsValid e = ShapeValid e.array_suffix e.is_dynamic_array e.is_compact_array e.type

type-other :
    (t : TokenType)
    → not (is_built_in_type t) && not (is t TokenType.identifier) ≡ false
    → is t TokenType.last_token ≡ false
unfolding is_built_in_type ordinal
type-other TokenType.last_token h = clash true refl h
type-other _ h = refl

module _ (n : ℕ) where
  scoped_name-Halts :
      (name : Text) (ts : List Token) (ok : Bool)
      → Taken ts
      → length ts < n
      → Halts (Parsed IsValid n) (parse_scoped_name name (record { rest = ts; success = ok }))
  unfolding parse_scoped_name get_next_token ordinal ShapeValid
  scoped_name-Halts name _ ok (Taken.taken u us st rd) len =
      if-Halts (Parsed IsValid n) (is u.type TokenType.identifier) _ _ _
        (λ h. Halts.halted _ _ (Parsed.parsed _ _ (refl, refl) (st (ground arith)) (omega arith)))
        λ h. refuse-Halts IsValid n us ok rd (omega arith)

  custom_type-Halts :
      (name : Text) (ts : List Token) (ok : Bool)
      → Stream ts
      → Taken ts
      → length ts < n
      → Halts (Parsed IsValid n) (parse_custom_type name (record { rest = ts; success = ok }))
  unfolding parse_custom_type check_token consume_token ordinal ShapeValid
  custom_type-Halts name _ ok s (Taken.taken u us st rd) len =
      if-Halts (Parsed IsValid n) (is u.type TokenType.double_colon) _ _ _
        (λ h. scoped_name-Halts name us ok (Stream-Taken us (st (ground arith))) (omega arith))
        λ h. Halts.halted _ _ (Parsed.parsed _ _ (refl, refl) s len)

  built_in_element-Halts :
      (o : Option ElementType) (ts : List Token) (ok : Bool)
      → Stream ts
      → length ts < n
      → Halts (Parsed IsValid n) (built_in_element o (record { rest = ts; success = ok }))
  unfolding built_in_element ShapeValid
  built_in_element-Halts none ts ok s len =
      refuse-Halts IsValid n ts ok (Ready.reading ts false s) len
  built_in_element-Halts (some type) ts ok s len =
      Halts.halted _ _ (Parsed.parsed _ _ (refl, refl) s len)

  pub element_type-Halts :
      (ts : List Token) (ok : Bool)
      → Taken ts
      → length ts < suc n
      → Halts (Parsed IsValid n) (parse_element_type (record { rest = ts; success = ok }))
  unfolding parse_element_type get_next_token
  element_type-Halts _ ok (Taken.taken t ts st rd) len =
      if-Halts (Parsed IsValid n)
        (not (is_built_in_type t.type) && not (is t.type TokenType.identifier)) _ _ _
        (λ h. refuse-Halts IsValid n ts ok rd (omega arith))
        λ h.
          let s = st (type-other t.type h) in
          located-Halts (Parsed IsValid n) _ ts ok (Stream-Taken ts s) (
            if-Halts (Parsed IsValid n) (is t.type TokenType.identifier) _ _ _
              (λ k. custom_type-Halts t.string ts ok s (Stream-Taken ts s) (omega arith))
              λ k. built_in_element-Halts (built_in_element_type t.type) ts ok s (omega arith))

abbrev pub AnySize : ℕ → Type 0
AnySize size = Unit

size_factor-Halts :
    (f n size : ℕ) (ok : Bool)
    → ((product : ℕ) (ts : List Token) (ok : Bool)
        → Stream ts
        → Taken ts
        → length ts < n
        → Halts
            (Parsed AnySize n)
            (parse_size_factors f product (record { rest = ts; success = ok })))
    → (us : List Token) → Taken us
    → length us < n
    → Halts (Parsed AnySize (suc n)) (
        bind (get_next_token (record { rest = us; success = ok })) λ u.
          if is u.type TokenType.number
          then parse_size_factors f (size * u.u64 % 2 ^ 64)
          else refuse)
unfolding get_next_token ordinal
size_factor-Halts f n size ok again _ (Taken.taken u us st rd) len =
    if-Halts (Parsed AnySize (suc n)) (is u.type TokenType.number) _ _ _
      (λ k.
        let s = st (ground arith) in
        Parsed-suc AnySize n _ (again _ us ok s (Stream-Taken us s) (omega arith)))
      λ k. refuse-Halts AnySize (suc n) us ok rd (omega arith)

pub size_factors-Halts :
    (f n : ℕ)
    → n ≤ f
    → (size : ℕ) (ts : List Token) (ok : Bool) → Stream ts
    → Taken ts
    → length ts < n
    → Halts (Parsed AnySize n) (parse_size_factors f size (record { rest = ts; success = ok }))
unfolding parse_size_factors check_token consume_token get_next_token ordinal
size_factors-Halts zero n h size ts ok s tk len = absurd (omega arith)
size_factors-Halts (suc f) zero h size ts ok s tk len = absurd (omega arith)
size_factors-Halts (suc f) (suc n) h size _ ok s (Taken.taken t ts st rd) len =
    if-Halts (Parsed AnySize (suc n)) (is t.type TokenType.close_sqbracket) _ _ _
      (λ c. Halts.halted _ _ (Parsed.parsed size _ tt s len))
      λ c.
        if-Halts (Parsed AnySize (suc n)) (not (is t.type TokenType.star)) _ _ _
          (λ k. refuse-Halts AnySize (suc n) _ ok (Ready.reading _ false s) len)
          λ k.
            size_factor-Halts f n size ok (size_factors-Halts f n (omega arith)) ts
              (Stream-Taken ts (st (ground arith))) (omega arith)
