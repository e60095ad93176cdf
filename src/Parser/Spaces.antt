-- ===== src/Parser/Spaces.antt =====
-- `Parser::parseNamespace` of src/Parser.cpp ends, and keeps the tree valid.
use cbuf.Base.{
  ℕ, zero, suc, ◌+◌, ◌*◌, ◌<◌, ◌≤◌, refl, sym, ap, ◌∙◌, Bool, true, false, not, Option, none, List,
  ◌∷◌, if◌then◌else◌, length, arith, clash,
}
use cbuf.Token.{TokenType, Token, is, ordinal}
use cbuf.Ast.Declarations.{Text, Global}
use cbuf.Evaluate.{FloatOps}
use cbuf.Parser.{
  State, Parses, bind, pure, succeeded, get_next_token, lookahead_token, check_token, consume_token,
}
use cbuf.Parser.Streams.{Stream, Ready, Taken, Stream-Taken}
use cbuf.Parser.Halting.{Halts, Parsed, bind-Halts, if-Halts, refuse-Halts, Parsed-suc}
use cbuf.Parser.Elements.{refuse}
use cbuf.Parser.Structs.{must_match_token, parse_struct}
use cbuf.Parser.Enums.{parse_enum}
use cbuf.Parser.Constants.{parse_const}
use cbuf.Parser.Declares.{StructValid, Matched, brace-Halts, struct-Halts}
use cbuf.Parser.ItemValues.{EnumValid}
use cbuf.Parser.Numbered.{enum-Halts}
use cbuf.Parser.ConstKinds.{ConstValid}
use cbuf.Parser.ConstEnds.{const-Halts}
use cbuf.Parser.Namespaces.{
  add_struct, add_enum, add_const, open_space, declared, space_item, space_items, space_body,
  parse_namespace,
}
use cbuf.Parser.Trees.{
  GlobalValid, change_global-GlobalValid, open_space-GlobalValid, add_struct-SpaceValid,
  add_enum-SpaceValid, add_const-SpaceValid,
}

-- A run that goes on from a valid tree and less than `n` tokens
abbrev pub Goes : ℕ → (Global → Parses (Option Global)) → Type 0
Goes n again =
    (top : Global)
    → GlobalValid top
    → (ts : List Token) (ok : Bool) → Stream ts
    → Taken ts
    → length ts < n
    → Halts (Parsed GlobalValid n) (again top (record { rest = ts; success = ok }))

pub declared-Halts :
    {A : Type 0} (W : A → Type 0) (n : ℕ) (again : Global → Parses (Option Global))
    → Goes n again
    → (f : A → Global) → ((a : A) → W a → GlobalValid (f a))
    → (o : Option A) (s : State) → Parsed W n o s
    → Halts (Parsed GlobalValid n) (declared (λ a. again (f a)) o s)
unfolding declared succeeded
declared-Halts W n again h f v _ s (Parsed.given_up _ k a) =
    if-Halts (Parsed GlobalValid n) (not s.success) _ _ _
      (λ _. Halts.halted _ _ (Parsed.given_up s k a))
      λ g. clash true refl (ap (λ b. not b) (sym k) ∙ g)
declared-Halts W n again h f v _ s (Parsed.parsed a _ w st len) =
    if-Halts (Parsed GlobalValid n) (not s.success) _ _ _
      (λ g.
        Halts.halted _ _
          (Parsed.given_up s (ground arith) (Ready.reading s.rest s.success st, len)))
      λ g. h (f a) (v a w) s.rest s.success st (Stream-Taken s.rest st) len

module _ (ops : FloatOps) where
  space_item-Halts :
      (f n : ℕ)
      → 6 * n + 7 ≤ f
      → (again : Global → Parses (Option Global)) → Goes n again
      → (name : Text) (top : Global) → GlobalValid top
      → (type : TokenType) (ts : List Token) (ok : Bool) → Stream ts
      → length ts < suc n
      → Halts
          (Parsed GlobalValid (suc n))
          (space_item ops f again name top type (record { rest = ts; success = ok }))
  unfolding space_item add_struct add_enum add_const
  space_item-Halts f n l again h name top v TokenType.struct ts ok st len =
      Parsed-suc GlobalValid n _ (
        bind-Halts (Parsed StructValid n) (Parsed GlobalValid n)
          (parse_struct ops f (record { rest = ts; success = ok })) _
          (struct-Halts ops f n l ts ok (Stream-Taken ts st) len)
          (declared-Halts StructValid n again h _ λ a w.
            change_global-GlobalValid (add_struct a) name (λ sp. refl) (add_struct-SpaceValid a w)
              top v))
  space_item-Halts f n l again h name top v TokenType.enum ts ok st len =
      Parsed-suc GlobalValid n _ (
        bind-Halts (Parsed EnumValid n) (Parsed GlobalValid n)
          (parse_enum ops f (record { rest = ts; success = ok })) _
          (enum-Halts ops f n (omega arith) ts ok (Stream-Taken ts st) len)
          (declared-Halts EnumValid n again h _ λ a w.
            change_global-GlobalValid (add_enum a) name (λ sp. refl) (add_enum-SpaceValid a w) top
              v))
  space_item-Halts f n l again h name top v TokenType.const ts ok st len =
      Parsed-suc GlobalValid n _ (
        bind-Halts (Parsed ConstValid n) (Parsed GlobalValid n)
          (parse_const (record { rest = ts; success = ok })) _
          (const-Halts n ts ok (Stream-Taken ts st) len)
          (declared-Halts ConstValid n again h _ λ a w.
            change_global-GlobalValid (add_const a) name (λ sp. refl) (add_const-SpaceValid a w) top
              v))
  space_item-Halts f n l again h name top v _ ts ok st len =
      refuse-Halts GlobalValid (suc n) ts ok (Ready.reading ts false st) len

  space_items-Goes : (f n : ℕ) → 6 * n + 7 ≤ f → (name : Text) → Goes n (space_items ops f name)
  unfolding space_items check_token consume_token lookahead_token ordinal
  space_items-Goes zero n l name top v ts ok st tk len = absurd (omega arith)
  space_items-Goes (suc f) zero l name top v ts ok st tk len = absurd (omega arith)
  space_items-Goes (suc f) (suc n) l name top v _ ok st (Taken.taken t ts k rd) len =
      if-Halts (Parsed GlobalValid (suc n)) (is t.type TokenType.close_bracket) _ _ _
        (λ c. Halts.halted _ _ (Parsed.parsed top _ v (k (ground arith)) (omega arith)))
        λ c.
          space_item-Halts f n (omega arith) (space_items ops f name)
            (space_items-Goes f n (omega arith) name) name top v t.type (t ∷ ts) ok st len

  space_body-Halts :
      (f n : ℕ)
      → 6 * n + 7 ≤ f
      → (name : Text) (top : Global) → GlobalValid top
      → (ts : List Token) (ok : Bool) → Stream ts
      → length ts < n
      → Halts
          (Parsed GlobalValid n)
          (space_body ops f name top (record { rest = ts; success = ok }))
  unfolding space_body
  space_body-Halts f n l name top v ts ok st len =
      bind-Halts (Matched n) (Parsed GlobalValid n)
        (must_match_token TokenType.open_bracket (record { rest = ts; success = ok })) _
        (brace-Halts ops n ts ok st (Stream-Taken ts st) len) found
    where
      found :
          (b : Bool) (s : State)
          → Matched n b s
          → Halts (Parsed GlobalValid n) ((if b then space_items ops f name top else pure none) s)
      found _ s (Matched.matched _ st len) =
          space_items-Goes f n l name top v s.rest s.success st (Stream-Taken s.rest st) len
      found _ s (Matched.missed _ k a) = Halts.halted _ _ (Parsed.given_up s k a)

  named-Halts :
      (f n : ℕ)
      → 6 * n + 7 ≤ f
      → (top : Global) → GlobalValid top
      → (ts : List Token) (ok : Bool) → Taken ts
      → length ts < n
      → Halts (Parsed GlobalValid n) (
          bind (get_next_token (record { rest = ts; success = ok })) λ u.
            if is u.type TokenType.identifier
            then space_body ops f u.string (open_space u.string top)
            else refuse)
  unfolding get_next_token ordinal
  named-Halts f n l top v _ ok (Taken.taken u us k rd) len =
      if-Halts (Parsed GlobalValid n) (is u.type TokenType.identifier) _ _ _
        (λ c.
          space_body-Halts f n l u.string (open_space u.string top)
            (open_space-GlobalValid u.string top v) us ok (k (ground arith)) (omega arith))
        λ c. refuse-Halts GlobalValid n us ok rd (omega arith)

  pub namespace-Halts :
      (f n : ℕ)
      → 6 * n + 7 ≤ f
      → (top : Global) → GlobalValid top
      → (ts : List Token) (ok : Bool) → Taken ts
      → length ts < suc n
      → Halts
          (Parsed GlobalValid n)
          (parse_namespace ops f top (record { rest = ts; success = ok }))
  unfolding parse_namespace get_next_token ordinal
  namespace-Halts f n l top v _ ok (Taken.taken t ts k rd) len =
      if-Halts (Parsed GlobalValid n) (not (is t.type TokenType.namespace)) _ _ _
        (λ c. refuse-Halts GlobalValid n ts ok rd (omega arith))
        λ c. named-Halts f n l top v ts ok (Stream-Taken ts (k (ground arith))) (omega arith)
