-- ===== src/Lexer/Tokens.antt =====
-- `Lexer::getNextTokenInternal` of src/Lexer.cpp, one branch after the other.
use cbuf.Base.{
  ℕ, zero, suc, ◌-◌, false, ◌==◌, none, some, List, [], ◌∷◌, take, drop, length, if◌then◌else◌,
}
use cbuf.Token.{TokenType, Token, is, ordinal}
use cbuf.Ast.Declarations.{Text}
use cbuf.Evaluate.{FloatOps}
use cbuf.Lexer.{Scanned, scanned, exits, out_of_fuel, then_scan, is_number}
use cbuf.Lexer.Tables.{
  convert, Table, compiler_directives, compiler_tags, reserved_keywords, string_token,
}
use cbuf.Lexer.Numbers.{parse_number}
use cbuf.Lexer.Texts.{
  consume_white_space, is_name_start, is_name_part, name_chars, string_loop, until_zero,
  quoted_char, skip_line, Comment, block_comment,
}

-- The branch that the first character of a token chooses
pub data Kind : Type 0 where
  digit letter quote tick hash at_sign other : Kind

unfoldable pub kind_of : ℕ → Kind
unfolding is_number is_name_start
kind_of c =
    if is_number c
    then Kind.digit
    else if is_name_start c
    then Kind.letter
    else if c == 34
    then Kind.quote
    else if c == 39
    then Kind.tick
    else if c == b'#'
    then Kind.hash
    else if c == b'@'
    then Kind.at_sign
    else Kind.other

-- `Token::clear`, which keeps the numbers and `_is_hex`
unfoldable pub cleared : Token → Token
cleared tok = record tok { type = TokenType.invalid; string = [] }

unfoldable pub last_token : Token → Token
unfolding cleared
last_token tok = record (cleared tok) { type = TokenType.last_token }

-- A name, or a keyword, which gets no text
unfoldable pub name_token : Token → Text → Token
unfolding cleared convert reserved_keywords ordinal
name_token tok name =
    let type = convert reserved_keywords name TokenType.identifier in
    if is type TokenType.identifier
    then record (cleared tok) { type = type; string = name }
    else record (cleared tok) { type = type }

unfoldable pub scan_name : Token → ℕ → List ℕ → Scanned Token
unfolding name_chars is_name_part name_token
scan_name tok c rest =
    let more = name_chars is_name_part 254 rest in scanned (name_token tok (c ∷ more.0)) more.1

unfoldable pub scan_string : Token → List ℕ → Scanned Token
unfolding cleared string_loop until_zero
scan_string tok rest = then_scan (string_loop false [] rest) λ s rest'.
    scanned (record (cleared tok) { type = TokenType.string_literal; string = until_zero s }) rest'

unfoldable pub scan_char : Token → List ℕ → Scanned Token
unfolding cleared quoted_char
scan_char tok rest =
    then_scan (quoted_char rest)
      λ c rest'. scanned (record (cleared tok) { type = TokenType.char; u64 = c }) rest'

-- A directive behind `#`, or a tag behind `@`, which has to be in the table
unfoldable pub scan_directive : Table → Token → List ℕ → Scanned Token
unfolding cleared name_chars is_name_start convert ordinal
scan_directive table tok rest =
    let more = name_chars is_name_start 255 rest in
    let type = convert table more.0 TokenType.invalid in
    if is type TokenType.invalid
    then exits
    else scanned (record (cleared tok) { type = type }) more.1

-- What an operator begins: a token, or a comment to step over
pub data Begins : Type 0 where
  token : Token → List ℕ → Begins
  comment : Comment → Begins
  nothing : Begins

unfoldable pub begins_with : Token → List ℕ → Text × TokenType → Begins
unfolding cleared skip_line block_comment
begins_with tok rest (str, TokenType.line_comment) =
    Begins.comment (Comment.closed (skip_line (drop (length str - 1) rest)))
begins_with tok rest (str, TokenType.open_block_comment) =
    Begins.comment (block_comment (drop (length str - 1) rest))
begins_with tok rest (str, type) =
    Begins.token (record (cleared tok) { type = type }) (drop (length str - 1) rest)

-- `parseStringToken` on the character and the two behind it
unfoldable pub parse_string_token : Token → ℕ → List ℕ → Begins
unfolding string_token begins_with
parse_string_token tok c rest = elim (string_token (c ∷ take 2 rest)) as (λ _. Begins) [
  | none ↦ Begins.nothing
  | some entry ↦ begins_with tok rest entry
]

-- How the search for a token goes on from `again`, which starts behind a comment
unfoldable pub scan_other : Token → (List ℕ → Scanned Token) → Begins → Scanned Token
unfolding last_token
scan_other tok again (Begins.token t rest) = scanned t rest
scan_other tok again (Begins.comment (Comment.closed rest)) = again rest
scan_other tok again (Begins.comment Comment.unfinished) = scanned (last_token tok) []
scan_other tok again (Begins.comment Comment.too_deep) = exits
scan_other tok again Begins.nothing = exits

module _ (ops : FloatOps) where
  -- The branches of the loop's body, for a first character of this kind
  unfoldable pub scan_kind : Kind → Token → (List ℕ → Scanned Token) → ℕ → List ℕ → Scanned Token
  unfolding cleared parse_number scan_name scan_string scan_char scan_directive compiler_directives
      compiler_tags parse_string_token scan_other
  scan_kind Kind.digit tok again c rest = parse_number ops (cleared tok) c rest
  scan_kind Kind.letter tok again c rest = scan_name tok c rest
  scan_kind Kind.quote tok again c rest = scan_string tok rest
  scan_kind Kind.tick tok again c rest = scan_char tok rest
  scan_kind Kind.hash tok again c rest = scan_directive compiler_directives tok rest
  scan_kind Kind.at_sign tok again c rest = scan_directive compiler_tags tok rest
  scan_kind Kind.other tok again c rest = scan_other tok again (parse_string_token tok c rest)

  unfoldable pub scan_from : Token → (List ℕ → Scanned Token) → List ℕ → Scanned Token
  unfolding last_token kind_of scan_kind
  scan_from tok again [] = scanned (last_token tok) []
  scan_from tok again (c ∷ rest) = scan_kind (kind_of c) tok again c rest

  -- `getNextTokenInternal` on the last token; a unit of fuel for each turn of its loop
  unfoldable pub get_next_token_internal : ℕ → Token → List ℕ → Scanned Token
  unfolding consume_white_space scan_from
  get_next_token_internal zero tok rest = out_of_fuel
  get_next_token_internal (suc f) tok rest =
      scan_from tok (get_next_token_internal f tok) (consume_white_space rest)
