-- ===== src/Lexer/LastTokens.antt =====
-- The last token in src/Lexer.cpp: `getNextTokenInternal` gives it only at the end of the input.
use cbuf.Base.{
  ℕ, zero, suc, ◌≡◌, refl, Bool, true, false, not, ◌&&◌, Option, none, some, List, [], ◌∷◌, take,
  get_elem?, clash, if-cases, subst, arith,
}
use cbuf.Token.{TokenType, Token, is, ordinal}
use cbuf.Ast.Declarations.{Text}
use cbuf.Evaluate.{FloatOps}
use cbuf.Parser.Streams.{is_last}
use cbuf.Lexer.{Scanned, scanned, exits, overruns, out_of_fuel, then_scan}
use cbuf.Lexer.Tables.{
  Table, convert, reserved_keywords, compiler_directives, compiler_tags, str_tok,
}
use cbuf.Lexer.Operators.{Longest, string_token-Longest}
use cbuf.Lexer.Numbers.{Number, number_token, number_from, parse_number}
use cbuf.Lexer.Texts.{
  consume_white_space, name_chars, is_name_start, is_name_part, string_loop, quoted_char, Comment,
}
use cbuf.Lexer.Tokens.{
  Kind, kind_of, cleared, name_token, scan_name, scan_string, scan_char, scan_directive, Begins,
  begins_with, parse_string_token, scan_other, scan_kind, scan_from, get_next_token_internal,
}

abbrev is_last_type : TokenType → Bool
is_last_type type = is type TokenType.last_token

-- A last token leaves nothing unread.
abbrev pub EndsFile : Scanned Token → Type 0
EndsFile (scanned t rest) = is_last t ≡ true → rest ≡ []
EndsFile _ = Unit

then-EndsFile :
    {A : Type 0} (o : Scanned A) (f : A → Token)
    → ((a : A) → is_last (f a) ≡ false)
    → EndsFile (then_scan o λ a rest. scanned (f a) rest)
then-EndsFile (scanned a rest) f h = λ e. clash _ e (h a)
then-EndsFile exits f h = tt
then-EndsFile overruns f h = tt
then-EndsFile out_of_fuel f h = tt

-- No entry of a table is the last token.
no_last : Table → Bool
no_last [] = true
no_last ((s, type) ∷ table) = not (is_last_type type) && no_last table

convert-no_last :
    (table : Table) (word : Text) (type : TokenType)
    → no_last table ≡ true
    → is_last_type type ≡ false
    → is_last_type (convert table word type) ≡ false
unfolding no_last convert
convert-no_last [] word type h k = k
convert-no_last ((s, type') ∷ table) word type h k = ground (arith, convert-no_last table word type)

get_elem-no_last :
    (table : Table) (i : ℕ) (entry : Text × TokenType)
    → no_last table ≡ true
    → get_elem? table i ≡ some entry
    → is_last_type entry.1 ≡ false
unfolding no_last
get_elem-no_last [] i entry h e = absurd (cc)
get_elem-no_last ((s, type) ∷ table) zero entry h e =
    let first : is_last_type type ≡ false = ground arith in
    let same : (s, type) ≡ entry = cc in subst (λ x. is_last_type x.1 ≡ false) same first
get_elem-no_last ((s, type) ∷ table) (suc i) entry h e =
    let more : no_last table ≡ true = ground arith in get_elem-no_last table i entry more e

keywords-no_last : no_last reserved_keywords ≡ true
unfolding no_last reserved_keywords ordinal
keywords-no_last = refl

directives-no_last : no_last compiler_directives ≡ true
unfolding no_last compiler_directives ordinal
directives-no_last = refl

tags-no_last : no_last compiler_tags ≡ true
unfolding no_last compiler_tags ordinal
tags-no_last = refl

operators-no_last : no_last str_tok ≡ true
unfolding no_last str_tok ordinal
operators-no_last = refl

name_token-no_last : (tok : Token) (name : Text) → is_last (name_token tok name) ≡ false
unfolding name_token ordinal
name_token-no_last tok name =
    let type = convert reserved_keywords name TokenType.identifier in
    if-cases (λ t. is_last t ≡ false) (is type TokenType.identifier) (λ _. known) λ _. known
  where
    known : is_last_type (convert reserved_keywords name TokenType.identifier) ≡ false
    known = convert-no_last reserved_keywords name TokenType.identifier keywords-no_last refl

name-EndsFile : (tok : Token) (c : ℕ) (rest : List ℕ) → EndsFile (scan_name tok c rest)
unfolding scan_name
name-EndsFile tok c rest =
    λ e. clash _ e (name_token-no_last tok (c ∷ (name_chars is_name_part 254 rest).0))

directive-EndsFile :
    (table : Table) (tok : Token) (rest : List ℕ)
    → no_last table ≡ true
    → EndsFile (scan_directive table tok rest)
unfolding scan_directive ordinal
directive-EndsFile table tok rest h =
    let word = (name_chars is_name_start 255 rest).0 in
    if-cases EndsFile (is (convert table word TokenType.invalid) TokenType.invalid) (λ _. tt)
      λ _ e. clash _ e (convert-no_last table word TokenType.invalid h refl)

-- What an operator begins is no last token.
abbrev NoLast : Begins → Type 0
NoLast (Begins.token t rest) = is_last t ≡ false
NoLast _ = Unit

begins_with-NoLast :
    (tok : Token) (rest : List ℕ) (str : Text) (type : TokenType)
    → is_last_type type ≡ false
    → NoLast (begins_with tok rest (str, type))
unfolding begins_with
begins_with-NoLast tok rest str TokenType.line_comment h = tt
begins_with-NoLast tok rest str TokenType.open_block_comment h = tt
begins_with-NoLast tok rest str _ h = h

parse_string_token-NoLast :
    (tok : Token) (rest : List ℕ) (input : Text) (o : Option (Text × TokenType))
    → Longest input str_tok o
    → NoLast (elim o as (λ _. Begins) [
      | none ↦ Begins.nothing
      | some entry ↦ begins_with tok rest entry
    ])
parse_string_token-NoLast tok rest input _ (Longest.longest i entry e p all) =
    begins_with-NoLast tok rest entry.0 entry.1
      (get_elem-no_last str_tok i entry operators-no_last e)
parse_string_token-NoLast tok rest input _ (Longest.unmatched all) = tt

other-EndsFile :
    (tok : Token) (again : List ℕ → Scanned Token)
    → ((rest : List ℕ) → EndsFile (again rest))
    → (b : Begins) → NoLast b
    → EndsFile (scan_other tok again b)
unfolding scan_other
other-EndsFile tok again h (Begins.token t rest) k = λ e. clash _ e k
other-EndsFile tok again h (Begins.comment (Comment.closed rest)) k = h rest
other-EndsFile tok again h (Begins.comment Comment.unfinished) k = λ _. refl
other-EndsFile tok again h (Begins.comment Comment.too_deep) k = tt
other-EndsFile tok again h Begins.nothing k = tt

module _ (ops : FloatOps) where
  number-no_last : (tok : Token) (n : Number) → is_last (number_token ops tok n) ≡ false
  unfolding number_token ordinal
  number-no_last tok n = ground arith

  kind-EndsFile :
      (kind : Kind) (tok : Token) (again : List ℕ → Scanned Token) (c : ℕ) (rest : List ℕ)
      → ((rest' : List ℕ) → EndsFile (again rest'))
      → EndsFile (scan_kind ops kind tok again c rest)
  unfolding scan_kind parse_number scan_string scan_char parse_string_token ordinal
  kind-EndsFile Kind.digit tok again c rest h =
      then-EndsFile (number_from ops c rest) (number_token ops (cleared tok))
        (number-no_last (cleared tok))
  kind-EndsFile Kind.letter tok again c rest h = name-EndsFile tok c rest
  kind-EndsFile Kind.quote tok again c rest h =
      then-EndsFile (string_loop false [] rest) _ λ s. refl
  kind-EndsFile Kind.tick tok again c rest h = then-EndsFile (quoted_char rest) _ λ d. refl
  kind-EndsFile Kind.hash tok again c rest h =
      directive-EndsFile compiler_directives tok rest directives-no_last
  kind-EndsFile Kind.at_sign tok again c rest h =
      directive-EndsFile compiler_tags tok rest tags-no_last
  kind-EndsFile Kind.other tok again c rest h = other-EndsFile tok again h _ (
      parse_string_token-NoLast tok rest (c ∷ take 2 rest) _
        (string_token-Longest (c ∷ take 2 rest)))

  pub next_token-EndsFile :
      (f : ℕ) (tok : Token) (rest : List ℕ) → EndsFile (get_next_token_internal ops f tok rest)
  unfolding get_next_token_internal scan_from
  next_token-EndsFile zero tok rest = tt
  next_token-EndsFile (suc f) tok rest = from (consume_white_space rest) (next_token-EndsFile f tok)
    where
      from :
          (bytes : List ℕ)
          → ((rest' : List ℕ) → EndsFile (get_next_token_internal ops f tok rest'))
          → EndsFile (scan_from ops tok (get_next_token_internal ops f tok) bytes)
      from [] k = λ _. refl
      from (c ∷ bytes) k = kind-EndsFile (kind_of c) tok _ c bytes k
