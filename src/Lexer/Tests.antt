-- ===== src/Lexer/Tests.antt =====
-- Runs of the lexer of src/Lexer.cpp.
use cbuf.Base.{◌≡◌, refl, Bool, true, List, [], ◌∷◌, map, ℕ, arith}
use cbuf.Base.Texts.{bytes}
use cbuf.Token.{TokenType, Token}
use cbuf.Evaluate.{FloatOps}
use cbuf.Lexer.{Scanned, scanned, is_alpha, is_number, is_hex}
use cbuf.Lexer.Tables.{string_token, str_tok}
use cbuf.Lexer.Numbers.{parse_number}
use cbuf.Lexer.Tokens.{get_next_token_internal}
use cbuf.Lexer.Files.{parse_file, new_token}
use cbuf.Lexer.Ends.{Lexed, parse_file-Lexed}
use cbuf.Lexer.Operators.{Longest, string_token-Longest}
use cbuf.Lexer.Values.{place_value, digit_worth, parse_number-decimal, parse_number-hexadecimal}
use cbuf.Lexer.Hex.{KeepsHex, next_token-KeepsHex}

abbrev ops : FloatOps
ops = record {
  add = λ x y. 0;
  sub = λ x y. 0;
  mul = λ x y. 0;
  div = λ x y. 0;
  neg = λ x. 0;
  of_int = λ n. 0;
  pow_10 = λ k. 0;
}

abbrev types : Scanned (List Token) → List TokenType
types (scanned ts rest) = map (λ t. t.type) ts
types _ = []

struct_types :
    types (parse_file ops 100 (bytes "struct /* a */ x { u8 y[0x1F] @compact; }"))
    ≡ TokenType.struct ∷ TokenType.identifier ∷ TokenType.open_bracket ∷ TokenType.u8
      ∷ TokenType.identifier ∷ TokenType.open_sqbracket ∷ TokenType.number
      ∷ TokenType.close_sqbracket ∷ TokenType.compact_array ∷ TokenType.semicolon
      ∷ TokenType.close_bracket ∷ TokenType.last_token ∷ TokenType.last_token ∷ TokenType.last_token
      ∷ TokenType.last_token ∷ []
unfolding parse_file
struct_types = refl

-- The comment `/**/` does not end there.
unclosed_types :
    types (parse_file ops 100 (bytes "/**/ u8 */ u16"))
    ≡ TokenType.u16 ∷ TokenType.last_token ∷ TokenType.last_token ∷ TokenType.last_token
      ∷ TokenType.last_token ∷ []
unfolding parse_file
unclosed_types = refl

-- A string behind a hexadecimal number
abbrev hex_then_string : List ℕ
hex_then_string = bytes "0x10;\"a\""

parse_file-Lexed_example : Lexed 8 (parse_file ops 10 hex_then_string)
parse_file-Lexed_example = parse_file-Lexed ops hex_then_string

abbrev hex_marks : Scanned (List Token) → List Bool
hex_marks (scanned ts rest) = map (λ t. t.is_hex) ts
hex_marks _ = []

hex_then_string_marks :
    hex_marks (parse_file ops 10 hex_then_string)
    ≡ true ∷ true ∷ true ∷ true ∷ true ∷ true ∷ true ∷ []
unfolding parse_file
hex_then_string_marks = refl

abbrev hex_token : Token
hex_token = record {
  type = TokenType.number;
  string = bytes "0x10";
  u64 = 16;
  f64 = 0;
  is_hex = Bool.true;
}

next_token-KeepsHex_example :
    KeepsHex true (get_next_token_internal ops 5 hex_token (bytes "\"a\""))
next_token-KeepsHex_example = next_token-KeepsHex ops 5 hex_token (bytes "\"a\"")

string_token-Longest_example : Longest (bytes "-->") str_tok (string_token (bytes "-->"))
string_token-Longest_example = string_token-Longest (bytes "-->")

parse_number-decimal_example :
    parse_number ops new_token b'1' (bytes "23;")
    ≡ scanned
        (record {
          type = TokenType.number;
          string = bytes "123";
          u64 = 123;
          f64 = 0;
          is_hex = Bool.false;
        })
        (bytes ";")
unfolding place_value digit_worth is_number is_alpha
parse_number-decimal_example =
    parse_number-decimal ops new_token b'1' (bytes "23") (bytes ";") refl (refl, (refl, tt))
      (omega arith) (refl, refl, refl)

parse_number-hexadecimal_example :
    parse_number ops new_token b'0' (bytes "x1fF]")
    ≡ scanned
        (record {
          type = TokenType.number;
          string = bytes "0x1fF";
          u64 = 511;
          f64 = 0;
          is_hex = Bool.true;
        })
        (bytes "]")
unfolding place_value digit_worth is_number is_hex is_alpha
parse_number-hexadecimal_example =
    parse_number-hexadecimal ops new_token (bytes "1fF") (bytes "]") (refl, (refl, (refl, tt)))
      (omega arith) (refl, refl, refl)
