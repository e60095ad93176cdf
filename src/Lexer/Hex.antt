-- ===== src/Lexer/Hex.antt =====
-- What `Token::clear` of src/Token.h leaves in a token, and `Lexer::getNextTokenInternal` of
-- src/Lexer.cpp with it: the mark of hexadecimal numbers.
use cbuf.Base.{
  ℕ, zero, suc, ◌≡◌, refl, Bool, true, false, ◌||◌, Option, none, some, List, [], ◌∷◌, take,
  if-cases, clash,
}
use cbuf.Token.{TokenType, Token, is, ordinal}
use cbuf.Ast.Declarations.{Text}
use cbuf.Evaluate.{FloatOps}
use cbuf.Lexer.{Scanned, scanned, exits, overruns, out_of_fuel, then_scan}
use cbuf.Lexer.Tables.{
  Table, convert, reserved_keywords, compiler_directives, compiler_tags, string_token,
}
use cbuf.Lexer.Numbers.{Number, number_from, number_token, parse_number}
use cbuf.Lexer.Texts.{
  consume_white_space, Comment, string_loop, quoted_char, name_chars, is_name_start, is_name_part,
}
use cbuf.Lexer.Tokens.{
  Kind, kind_of, cleared, last_token, name_token, scan_name, scan_string, scan_char, scan_directive,
  Begins, begins_with, parse_string_token, scan_other, scan_kind, scan_from,
  get_next_token_internal,
}

abbrev pub is_numeric : Token → Bool
is_numeric t = is t.type TokenType.number || is t.type TokenType.fnumber

-- A token that is no number has this mark.
pub data KeepsHex (h : Bool) : Scanned Token → Type 0 where
  keeps :
      (t : Token) (rest : List ℕ)
      → (is_numeric t ≡ false → t.is_hex ≡ h)
      → KeepsHex h (scanned t rest)
  exited : KeepsHex h exits
  overran : KeepsHex h overruns
  ran_out : KeepsHex h out_of_fuel

then-KeepsHex {ℓ} :
    {A : Type ℓ} (h : Bool) (o : Scanned A) (f : A → List ℕ → Scanned Token)
    → ((a : A) (rest : List ℕ) → KeepsHex h (f a rest))
    → KeepsHex h (then_scan o f)
then-KeepsHex h (scanned a rest) f k = k a rest
then-KeepsHex h exits f k = KeepsHex.exited
then-KeepsHex h overruns f k = KeepsHex.overran
then-KeepsHex h out_of_fuel f k = KeepsHex.ran_out

name_token-hex : (tok : Token) (name : Text) → (name_token tok name).is_hex ≡ tok.is_hex
unfolding name_token cleared
name_token-hex tok name =
    if-cases (λ (t : Token). t.is_hex ≡ tok.is_hex)
      (is (convert reserved_keywords name TokenType.identifier) TokenType.identifier) (λ _. refl)
      λ _. refl

scan_directive-KeepsHex :
    (table : Table) (tok : Token) (rest : List ℕ)
    → KeepsHex tok.is_hex (scan_directive table tok rest)
unfolding scan_directive cleared
scan_directive-KeepsHex table tok rest =
    if-cases (KeepsHex tok.is_hex)
      (is (convert table (name_chars is_name_start 255 rest).0 TokenType.invalid) TokenType.invalid)
      (λ _. KeepsHex.exited) λ _. KeepsHex.keeps _ _ λ _. refl

abbrev BeginsHex : Bool → Begins → Type 0
BeginsHex h (Begins.token t rest) = t.is_hex ≡ h
BeginsHex h _ = Unit

begins_with-BeginsHex :
    (tok : Token) (rest : List ℕ) (str : Text) (type : TokenType)
    → BeginsHex tok.is_hex (begins_with tok rest (str, type))
unfolding begins_with cleared
begins_with-BeginsHex tok rest str TokenType.line_comment = tt
begins_with-BeginsHex tok rest str TokenType.open_block_comment = tt
begins_with-BeginsHex tok rest str _ = refl

string_token-BeginsHex :
    (tok : Token) (rest : List ℕ) (o : Option (Text × TokenType))
    → BeginsHex tok.is_hex (elim o as (λ _. Begins) [
      | none ↦ Begins.nothing
      | some entry ↦ begins_with tok rest entry
    ])
string_token-BeginsHex tok rest none = tt
string_token-BeginsHex tok rest (some (str, type)) = begins_with-BeginsHex tok rest str type

scan_other-KeepsHex :
    (tok : Token) (again : List ℕ → Scanned Token)
    → ((rest : List ℕ) → KeepsHex tok.is_hex (again rest))
    → (b : Begins) → BeginsHex tok.is_hex b
    → KeepsHex tok.is_hex (scan_other tok again b)
unfolding scan_other last_token cleared
scan_other-KeepsHex tok again h (Begins.token t rest) k = KeepsHex.keeps t rest λ _. k
scan_other-KeepsHex tok again h (Begins.comment (Comment.closed rest)) k = h rest
scan_other-KeepsHex tok again h (Begins.comment Comment.unfinished) k = KeepsHex.keeps _ _ λ _. refl
scan_other-KeepsHex tok again h (Begins.comment Comment.too_deep) k = KeepsHex.exited
scan_other-KeepsHex tok again h Begins.nothing k = KeepsHex.exited

module _ (ops : FloatOps) where
  number_token-numeric : (tok : Token) (n : Number) → is_numeric (number_token ops tok n) ≡ true
  unfolding number_token ordinal
  number_token-numeric tok n = if-cases (λ t. is_numeric t ≡ true) n.decimal (λ _. refl) λ _. refl

  scan_kind-KeepsHex :
      (kind : Kind) (tok : Token) (again : List ℕ → Scanned Token) (c : ℕ) (rest : List ℕ)
      → ((rest' : List ℕ) → KeepsHex tok.is_hex (again rest'))
      → KeepsHex tok.is_hex (scan_kind ops kind tok again c rest)
  unfolding scan_kind parse_number scan_name scan_string scan_char parse_string_token cleared
  scan_kind-KeepsHex Kind.digit tok again c rest h =
      then-KeepsHex tok.is_hex (number_from ops c rest) _
        λ n rest'. KeepsHex.keeps _ rest' λ k. clash _ (number_token-numeric (cleared tok) n) k
  scan_kind-KeepsHex Kind.letter tok again c rest h =
      KeepsHex.keeps _ _ λ _. name_token-hex tok (c ∷ (name_chars is_name_part 254 rest).0)
  scan_kind-KeepsHex Kind.quote tok again c rest h =
      then-KeepsHex tok.is_hex (string_loop false [] rest) _
        λ s rest'. KeepsHex.keeps _ rest' λ _. refl
  scan_kind-KeepsHex Kind.tick tok again c rest h =
      then-KeepsHex tok.is_hex (quoted_char rest) _ λ x rest'. KeepsHex.keeps _ rest' λ _. refl
  scan_kind-KeepsHex Kind.hash tok again c rest h =
      scan_directive-KeepsHex compiler_directives tok rest
  scan_kind-KeepsHex Kind.at_sign tok again c rest h =
      scan_directive-KeepsHex compiler_tags tok rest
  scan_kind-KeepsHex Kind.other tok again c rest h =
      scan_other-KeepsHex tok again h _
        (string_token-BeginsHex tok rest (string_token (c ∷ take 2 rest)))

  scan_from-KeepsHex :
      (tok : Token) (again : List ℕ → Scanned Token) (rest : List ℕ)
      → ((rest' : List ℕ) → KeepsHex tok.is_hex (again rest'))
      → KeepsHex tok.is_hex (scan_from ops tok again rest)
  unfolding scan_from last_token cleared
  scan_from-KeepsHex tok again [] h = KeepsHex.keeps _ _ λ _. refl
  scan_from-KeepsHex tok again (c ∷ rest) h = scan_kind-KeepsHex (kind_of c) tok again c rest h

  -- A token that is no number has the mark of hexadecimal numbers that the token before it has, on
  -- every input.
  pub next_token-KeepsHex :
      (f : ℕ) (tok : Token) (rest : List ℕ)
      → KeepsHex tok.is_hex (get_next_token_internal ops f tok rest)
  unfolding get_next_token_internal
  next_token-KeepsHex zero tok rest = KeepsHex.ran_out
  next_token-KeepsHex (suc f) tok rest =
      scan_from-KeepsHex tok _ (consume_white_space rest) λ rest'. next_token-KeepsHex f tok rest'
