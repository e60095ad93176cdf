-- ===== src/Lexer/Files.antt =====
-- `Lexer::parseFile` of src/Lexer.cpp.
use cbuf.Base.{ℕ, zero, suc, Bool, true, false, List, [], ◌∷◌}
use cbuf.Token.{TokenType, Token, is, ordinal}
use cbuf.Evaluate.{FloatOps}
use cbuf.Lexer.{Scanned, scanned, out_of_fuel, then_scan}
use cbuf.Lexer.Tokens.{get_next_token_internal}

-- A fresh token
abbrev pub new_token : Token
new_token = record { type = TokenType.invalid; string = []; u64 = 0; f64 = 0; is_hex = Bool.false }

module _ (ops : FloatOps) where
  -- The loop: the tokens that are pushed from here on, the last token and three more of it at the end.
  unfoldable pub parse_tokens : ℕ → Token → List ℕ → Scanned (List Token)
  unfolding get_next_token_internal ordinal
  parse_tokens zero tok rest = out_of_fuel
  parse_tokens (suc f) tok rest = then_scan (get_next_token_internal ops f tok rest) λ t rest'.
      elim (is t.type TokenType.last_token) as (λ _. Scanned (List Token)) [
        | true ↦ scanned (t ∷ t ∷ t ∷ t ∷ []) rest'
        | false ↦ then_scan (parse_tokens f t rest') λ ts rest''. scanned (t ∷ ts) rest''
      ]

  -- `parseFile`
  unfoldable pub parse_file : ℕ → List ℕ → Scanned (List Token)
  unfolding parse_tokens
  parse_file f data_bytes = parse_tokens f new_token data_bytes
