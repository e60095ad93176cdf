-- ===== src/Parser/Suffixes.antt =====
-- `parseElementDeclaration` of src/Parser.cpp: the type of an element and its array suffixes.
use cbuf.Base.{
  ℕ, ◌<◌, ◌≤◌, ◌≡◌, refl, Bool, true, false, not, ◌||◌, Option, none, some, List, ◌∷◌, ◌==◌, length,
  arith, clash, subst, ap,
}
use cbuf.Token.{TokenType, Token, is, ordinal}
use cbuf.Ast.{ElementType}
use cbuf.Ast.Declarations.{Element}
use cbuf.Parser.{State, get_next_token, check_token, consume_token}
use cbuf.Parser.Streams.{Stream, Ready, Taken, Stream-Taken}
use cbuf.Parser.Halting.{Halts, Parsed, bind-Halts, if-Halts, refuse-Halts}
use cbuf.Parser.Elements.{
  with_array, parse_array_close, compact_element, parse_array_size, parse_compact,
  parse_array_suffix,
}
use cbuf.Parser.Shapes.{is_string, ShapeValid, IsValid, AnySize, size_factors-Halts}

module _ (n : ℕ) where
  array_size-Halts :
      (f : ℕ)
      → n ≤ f
      → (ts : List Token) (ok : Bool) → Stream ts
      → Taken ts
      → length ts < n
      → Halts (Parsed AnySize n) (parse_array_size f (record { rest = ts; success = ok }))
  unfolding parse_array_size check_token get_next_token ordinal
  array_size-Halts f h _ ok s (Taken.taken t ts st rd) len =
      if-Halts (Parsed AnySize n) (not (is t.type TokenType.number)) _ _ _
        (λ k. Halts.halted _ _ (Parsed.parsed 0 _ tt s len))
        λ k.
          let s' = st (ground arith) in
          size_factors-Halts f n h t.u64 ts ok s' (Stream-Taken ts s') (omega arith)

  compact_element-Halts :
      (type : ElementType) (elem : Element)
      → (is_string type ≡ false → IsValid (record elem { is_compact_array = true }))
      → (ts : List Token) (ok : Bool) → Ready ts false
      → Stream ts
      → length ts < n
      → Halts (Parsed IsValid n) (compact_element type elem (record { rest = ts; success = ok }))
  unfolding compact_element is_string
  compact_element-Halts ElementType.string elem v ts ok rd s len =
      refuse-Halts IsValid n ts ok rd len
  compact_element-Halts _ elem v ts ok rd s len =
      Halts.halted _ _ (Parsed.parsed _ _ (v refl) s len)

  compact-Halts :
      (size : ℕ) (elem : Element)
      → IsValid elem
      → ((size == 0) ≡ false
          → is_string elem.type ≡ false
          → IsValid (record elem { is_compact_array = true }))
      → (ts : List Token) (ok : Bool) → Stream ts
      → Taken ts
      → length ts < n
      → Halts (Parsed IsValid n) (parse_compact size elem (record { rest = ts; success = ok }))
  unfolding parse_compact check_token consume_token ordinal
  compact-Halts size elem v w _ ok s (Taken.taken t ts st rd) len =
      if-Halts (Parsed IsValid n) (not (is t.type TokenType.compact_array)) _ _ _
        (λ k. Halts.halted _ _ (Parsed.parsed elem _ v s len))
        λ k.
          if-Halts (Parsed IsValid n) (size == 0) _ _ _
            (λ z. refuse-Halts IsValid n ts ok rd (omega arith))
            λ z.
              compact_element-Halts elem.type elem (w z) ts ok rd (st (ground arith)) (omega arith)

  with_array-Halts :
      (size : ℕ) (elem : Element) (o : Option ℕ)
      → elem.array_suffix ≡ o
      → IsValid elem
      → (ts : List Token) (ok : Bool) → Stream ts
      → length ts < n
      → Halts (Parsed IsValid n) (with_array size elem o (record { rest = ts; success = ok }))
  unfolding with_array ShapeValid
  with_array-Halts size elem (some m) h v ts ok s len =
      refuse-Halts IsValid n ts ok (Ready.reading ts false s) len
  with_array-Halts size elem none h v ts ok s len =
      compact-Halts size
        (record elem {
          array_suffix = some size;
          is_dynamic_array = elem.is_dynamic_array || size == 0;
        })
        (dynamic, λ c. clash elem.is_compact_array c unshaped.1) (λ z k. (dynamic, λ c. (z, k))) ts
        ok s (Stream-Taken ts s) len
    where
      unshaped : ShapeValid none elem.is_dynamic_array elem.is_compact_array elem.type
      unshaped = subst (λ x. ShapeValid x elem.is_dynamic_array elem.is_compact_array elem.type) h v

      dynamic : (elem.is_dynamic_array || (size == 0)) ≡ (size == 0)
      dynamic = ap (λ d. d || (size == 0)) unshaped.0

  array_close-Halts :
      (elem : Element)
      → IsValid elem
      → (o : Option ℕ) (s : State) → Parsed AnySize n o s
      → Halts (Parsed IsValid n) (parse_array_close elem o s)
  unfolding parse_array_close check_token consume_token ordinal
  array_close-Halts elem v _ s (Parsed.given_up _ f a) = Halts.halted _ _ (Parsed.given_up s f a)
  array_close-Halts elem v _ s (Parsed.parsed size _ w st len) =
      close s.rest s.success st (Stream-Taken s.rest st) len
    where
      close :
          (ts : List Token) (ok : Bool)
          → Stream ts
          → Taken ts
          → length ts < n
          → Halts
              (Parsed IsValid n)
              (parse_array_close elem (some size) (record { rest = ts; success = ok }))
      close _ ok st (Taken.taken t ts f rd) len =
          if-Halts (Parsed IsValid n) (is t.type TokenType.close_sqbracket) _ _ _
            (λ k.
              with_array-Halts size elem elem.array_suffix refl v ts ok (f (ground arith))
                (omega arith))
            λ k. refuse-Halts IsValid n _ ok (Ready.reading _ false st) len

  pub array_suffix-Halts :
      (f : ℕ)
      → n ≤ f
      → (elem : Element) → IsValid elem
      → (t : Token) (ts : List Token) (ok : Bool) → Stream ts
      → length ts < n
      → Halts
          (Parsed IsValid n)
          (parse_array_suffix f elem (record { rest = t ∷ ts; success = ok }))
  unfolding parse_array_suffix consume_token
  array_suffix-Halts f h elem v t ts ok s len =
      bind-Halts (Parsed AnySize n) (Parsed IsValid n)
        (parse_array_size f (record { rest = ts; success = ok })) _
        (array_size-Halts f h ts ok s (Stream-Taken ts s) len) (array_close-Halts elem v)
