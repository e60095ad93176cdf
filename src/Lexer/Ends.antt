-- ===== src/Lexer/Ends.antt =====
-- `Lexer::parseFile` of src/Lexer.cpp ends, and leaves a stream for the parser.
use cbuf.Base.{
  ℕ, zero, suc, ◌+◌, ◌≤◌, ◌<◌, ◌≡◌, true, false, Option, none, some, List, [], ◌∷◌, length, drop,
  ◌-◌, take, arith, elim-cases, clash, refl, sym, subst,
}
use cbuf.Token.{TokenType, Token, is, ordinal}
use cbuf.Ast.Declarations.{Text}
use cbuf.Evaluate.{FloatOps}
use cbuf.Parser.Streams.{Stream, is_last}
use cbuf.Lexer.{Scanned, scanned, exits, overruns, then_scan}
use cbuf.Lexer.Tables.{string_token, compiler_directives, compiler_tags}
use cbuf.Lexer.Texts.{consume_white_space, Comment, block_comment}
use cbuf.Lexer.Tokens.{
  Kind, kind_of, cleared, last_token, Begins, begins_with, parse_string_token, scan_other,
  scan_kind, scan_from, get_next_token_internal,
}
use cbuf.Lexer.Files.{parse_tokens, parse_file, new_token}
use cbuf.Lexer.LastTokens.{EndsFile, next_token-EndsFile}
use cbuf.Lexer.Keeps.{
  Keeps, LeavesAtMost, LeavesAtMost-mono, length-consume_white_space, length-drop, length-skip_line,
  block_comment-LeavesAtMost, parse_number-Keeps, scan_name-Keeps, scan_string-Keeps,
  scan_char-Keeps, scan_directive-Keeps,
}

-- A token with less than `n` bytes left, or the last token, or the end of the program
data Advances (n : ℕ) : Scanned Token → Type 0 where
  advanced :
      (t : Token) (rest : List ℕ)
      → (is_last t ≡ false → length rest < n)
      → Advances n (scanned t rest)
  exited : Advances n exits
  overran : Advances n overruns

Keeps-Advances : (n : ℕ) (o : Scanned Token) → Keeps n o → Advances (suc n) o
Keeps-Advances n _ (Keeps.kept t rest h) = Advances.advanced t rest λ _. omega arith
Keeps-Advances n _ Keeps.exited = Advances.exited
Keeps-Advances n _ Keeps.overran = Advances.overran

Advances-mono : (m n : ℕ) (o : Scanned Token) → m ≤ n → Advances m o → Advances n o
Advances-mono m n _ l (Advances.advanced t rest h) =
    Advances.advanced t rest λ k. omega (arith, h k)
Advances-mono m n _ l Advances.exited = Advances.exited
Advances-mono m n _ l Advances.overran = Advances.overran

last_token-Advances : (n : ℕ) (tok : Token) → Advances n (scanned (last_token tok) [])
unfolding last_token ordinal
last_token-Advances n tok = Advances.advanced _ _ (clash true refl)

abbrev BeginsAtMost : ℕ → Begins → Type 0
BeginsAtMost n (Begins.token t rest) = length rest ≤ n
BeginsAtMost n (Begins.comment o) = LeavesAtMost n o
BeginsAtMost n Begins.nothing = Unit

begins_with-BeginsAtMost :
    (tok : Token) (rest : List ℕ) (str : Text) (type : TokenType)
    → BeginsAtMost (length rest) (begins_with tok rest (str, type))
unfolding begins_with
begins_with-BeginsAtMost tok rest str TokenType.line_comment =
    omega (arith, length-skip_line (drop (length str - 1) rest), length-drop (length str - 1) rest)
begins_with-BeginsAtMost tok rest str TokenType.open_block_comment =
    LeavesAtMost-mono _ _ (block_comment (drop (length str - 1) rest))
      (length-drop (length str - 1) rest) (block_comment-LeavesAtMost (drop (length str - 1) rest))
begins_with-BeginsAtMost tok rest str _ = length-drop (length str - 1) rest

string_token-BeginsAtMost :
    (tok : Token) (rest : List ℕ) (o : Option (Text × TokenType))
    → BeginsAtMost (length rest) (elim o as (λ _. Begins) [
      | none ↦ Begins.nothing
      | some entry ↦ begins_with tok rest entry
    ])
string_token-BeginsAtMost tok rest none = tt
string_token-BeginsAtMost tok rest (some (str, type)) = begins_with-BeginsAtMost tok rest str type

scan_other-Advances :
    (n : ℕ) (tok : Token) (again : List ℕ → Scanned Token)
    → ((rest : List ℕ) → length rest ≤ n → Advances (length rest) (again rest))
    → (b : Begins) → BeginsAtMost n b
    → Advances (suc n) (scan_other tok again b)
unfolding scan_other
scan_other-Advances n tok again h (Begins.token t rest) k =
    Advances.advanced t rest λ _. omega arith
scan_other-Advances n tok again h (Begins.comment (Comment.closed rest)) k =
    Advances-mono (length rest) (suc n) _ (omega arith) (h rest k)
scan_other-Advances n tok again h (Begins.comment Comment.unfinished) k =
    last_token-Advances (suc n) tok
scan_other-Advances n tok again h (Begins.comment Comment.too_deep) k = Advances.exited
scan_other-Advances n tok again h Begins.nothing k = Advances.exited

module _ (ops : FloatOps) where
  scan_kind-Advances :
      (kind : Kind) (tok : Token) (again : List ℕ → Scanned Token) (c : ℕ) (rest : List ℕ)
      → ((rest' : List ℕ) → length rest' ≤ length rest → Advances (length rest') (again rest'))
      → Advances (suc (length rest)) (scan_kind ops kind tok again c rest)
  unfolding scan_kind parse_string_token
  scan_kind-Advances Kind.digit tok again c rest h =
      Keeps-Advances (length rest) _ (parse_number-Keeps ops (cleared tok) c rest)
  scan_kind-Advances Kind.letter tok again c rest h =
      Keeps-Advances (length rest) _ (scan_name-Keeps tok c rest)
  scan_kind-Advances Kind.quote tok again c rest h =
      Keeps-Advances (length rest) _ (scan_string-Keeps tok rest)
  scan_kind-Advances Kind.tick tok again c rest h =
      Keeps-Advances (length rest) _ (scan_char-Keeps tok rest)
  scan_kind-Advances Kind.hash tok again c rest h =
      Keeps-Advances (length rest) _ (scan_directive-Keeps compiler_directives tok rest)
  scan_kind-Advances Kind.at_sign tok again c rest h =
      Keeps-Advances (length rest) _ (scan_directive-Keeps compiler_tags tok rest)
  scan_kind-Advances Kind.other tok again c rest h =
      scan_other-Advances (length rest) tok again h _
        (string_token-BeginsAtMost tok rest (string_token (c ∷ take 2 rest)))

  next_token-Advances :
      (f : ℕ) (tok : Token) (rest : List ℕ)
      → length rest < f
      → Advances (length rest) (get_next_token_internal ops f tok rest)
  unfolding get_next_token_internal
  next_token-Advances zero tok rest h = absurd (omega arith)
  next_token-Advances (suc f) tok rest h =
      Advances-mono (length (consume_white_space rest)) _ _ (length-consume_white_space rest) (
        from (consume_white_space rest) (omega (arith, length-consume_white_space rest))
          λ rest' l. next_token-Advances f tok rest' l)
    where
      from :
          (bytes : List ℕ)
          → length bytes < suc f
          → ((rest' : List ℕ)
              → length rest' < f
              → Advances (length rest') (get_next_token_internal ops f tok rest'))
          → Advances (length bytes) (scan_from ops tok (get_next_token_internal ops f tok) bytes)
      from [] l k = last_token-Advances 0 tok
      from (c ∷ bytes) l k =
          scan_kind-Advances (kind_of c) tok _ c bytes λ rest' l'. k rest' (omega arith)

-- The tokens of `n` bytes, as the parser needs them, with no byte left unread, or the end of the program
pub data Lexed (n : ℕ) : Scanned (List Token) → Type 0 where
  lexed : (ts : List Token) → Stream ts → length ts ≤ n + 4 → Lexed n (scanned ts [])
  exited : Lexed n exits
  overran : Lexed n overruns

Lexed-next :
    (n m : ℕ) (t : Token) (o : Scanned (List Token))
    → is_last t ≡ false
    → m < n
    → Lexed m o
    → Lexed n (then_scan o λ ts rest. scanned (t ∷ ts) rest)
Lexed-next n m t _ h l (Lexed.lexed ts s k) =
    Lexed.lexed (t ∷ ts) (Stream.next t ts h s) (omega arith)
Lexed-next n m t _ h l Lexed.exited = Lexed.exited
Lexed-next n m t _ h l Lexed.overran = Lexed.overran

module _ (ops : FloatOps) where
  parse_tokens-Lexed :
      (f : ℕ) (tok : Token) (rest : List ℕ)
      → suc (length rest) < f
      → Lexed (length rest) (parse_tokens ops f tok rest)
  unfolding parse_tokens
  parse_tokens-Lexed zero tok rest h = absurd (omega arith)
  parse_tokens-Lexed (suc f) tok rest h =
      push (get_next_token_internal ops f tok rest)
        (next_token-Advances ops f tok rest (omega arith)) (next_token-EndsFile ops f tok rest)
        λ t rest' l. parse_tokens-Lexed f t rest' (omega arith)
    where
      push :
          (o : Scanned Token)
          → Advances (length rest) o
          → EndsFile o
          → ((t : Token) (rest' : List ℕ)
              → length rest' < length rest
              → Lexed (length rest') (parse_tokens ops f t rest'))
          → Lexed (length rest) (
              then_scan o λ t rest'.
                elim (is t.type TokenType.last_token) as (λ _. Scanned (List Token)) [
                  | true ↦ scanned (t ∷ t ∷ t ∷ t ∷ []) rest'
                  | false ↦
                      then_scan (parse_tokens ops f t rest') λ ts rest''. scanned (t ∷ ts) rest''
                ])
      push _ (Advances.advanced t rest' a) done k =
          elim-cases (Lexed (length rest)) (is_last t)
            (λ l.
              subst (λ bytes. Lexed (length rest) (scanned (t ∷ t ∷ t ∷ t ∷ []) bytes))
                (sym (done l)) (Lexed.lexed _ (Stream.ended t l) (omega arith)))
            λ n. Lexed-next (length rest) (length rest') t _ n (a n) (k t rest' (a n))
      push _ Advances.exited done k = Lexed.exited
      push _ Advances.overran done k = Lexed.overran

  -- A file is read to its end: with two units of fuel more than it has bytes, the lexer leaves no byte
  -- unread and gives at most one token for each byte and four last tokens, in the shape that the parser
  -- needs (the last tokens stand at the end, and no other token is one), or it exits or runs over a
  -- buffer; it never runs out of fuel.
  pub parse_file-Lexed :
      (data_bytes : List ℕ)
      → Lexed (length data_bytes) (parse_file ops (2 + length data_bytes) data_bytes)
  unfolding parse_file
  parse_file-Lexed data_bytes =
      parse_tokens-Lexed (2 + length data_bytes) new_token data_bytes (omega arith)
