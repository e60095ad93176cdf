-- ===== src/Parser/Tests.antt =====
-- Runs of the parser and of the evaluator of src/Parser.cpp.
use cbuf.Base.{◌≡◌, refl, arith, Bool, none, some, List, [], ◌∷◌}
use cbuf.Base.Int.{pos}
use cbuf.Token.{TokenType, Token, end_token}
use cbuf.Ast.{ElementType, Value, Expression}
use cbuf.Evaluate.{FloatOps, Evaluated, compute_expression_value}
use cbuf.Parser.{State, Outcome, done}
use cbuf.Parser.Streams.{Stream, Settles, Stays}
use cbuf.Parser.Products.{token}
use cbuf.Parser.Expressions.{parse_expression}
use cbuf.Parser.Ends.{parse_expression-Settles}
use cbuf.Parser.Halting.{Halts, Parsed}
use cbuf.Parser.Shapes.{IsValid}
use cbuf.Parser.Elements.{new_element, parse_element_declaration}
use cbuf.Parser.Initializers.{parse_element_declaration-Halts}
use cbuf.Parser.Constants.{parse_const}
use cbuf.Parser.ConstKinds.{ConstValid}
use cbuf.Parser.ConstEnds.{parse_const-Halts}
use cbuf.Parser.Enums.{parse_enum}

abbrev ops : FloatOps
ops = record {
  add = λ x y. 0;
  sub = λ x y. 0;
  mul = λ x y. 0;
  div = λ x y. 0;
  neg = λ x. 0;
  of_int = λ n. 0;
  pow_10 = λ k. 0;
}

abbrev last_tokens : List Token
last_tokens = end_token ∷ end_token ∷ end_token ∷ end_token ∷ []

abbrev starting : List Token → State
starting tokens = record { rest = tokens; success = Bool.true }

-- `2 * 3 + 4`
abbrev product_and_sum : List Token
product_and_sum =
    token TokenType.number 2
    ∷ token TokenType.star 0
    ∷ token TokenType.number 3
    ∷ token TokenType.plus 0
    ∷ token TokenType.number 4
    ∷ last_tokens

abbrev result : Outcome Expression → Evaluated Value
result (Outcome.done e s) = compute_expression_value ops e
result _ = Evaluated.failed

-- `2 * 3 + 4` is 14.
product_and_sum_value :
    result (parse_expression ops 100 (starting product_and_sum))
    ≡ Evaluated.value (Value.integer (pos 14))
unfolding parse_expression compute_expression_value cbuf.Token.ordinal cbuf.Base.Int.s64
    cbuf.Base.Int.◌+ℤ◌ cbuf.Base.Int.s64_of_u64 cbuf.Base.Int.◌*ℤ◌
product_and_sum_value = refl

-- `3*4*(12*23) + 70/2`, the initializer of `iexpinit` in test/samples/image.cbuf, is 2076.
abbrev sample_tokens : List Token
sample_tokens =
    token TokenType.number 3
    ∷ token TokenType.star 0
    ∷ token TokenType.number 4
    ∷ token TokenType.star 0
    ∷ token TokenType.open_paren 0
    ∷ token TokenType.number 12
    ∷ token TokenType.star 0
    ∷ token TokenType.number 23
    ∷ token TokenType.close_paren 0
    ∷ token TokenType.plus 0
    ∷ token TokenType.number 70
    ∷ token TokenType.div 0
    ∷ token TokenType.number 2
    ∷ token TokenType.semicolon 0
    ∷ last_tokens

sample_value :
    result (parse_expression ops 200 (starting sample_tokens))
    ≡ Evaluated.value (Value.integer (pos 2076))
unfolding parse_expression compute_expression_value cbuf.Token.ordinal cbuf.Base.Int.s64
    cbuf.Base.Int.◌+ℤ◌ cbuf.Base.Int.s64_of_u64 cbuf.Base.Int.◌*ℤ◌ cbuf.Base.Int.div_ℤ
sample_value = refl

product_and_sum-Stream : Stream product_and_sum
unfolding cbuf.Token.ordinal
product_and_sum-Stream = Stream.next _ _ refl (
    Stream.next _ _ refl (
      Stream.next _ _ refl
        (Stream.next _ _ refl (Stream.next _ _ refl (Stream.ended end_token refl)))))

parse_expression-Settles_example :
    Settles (Stays 10) (parse_expression ops 65 (starting product_and_sum))
parse_expression-Settles_example =
    parse_expression-Settles ops (starting product_and_sum) 65 product_and_sum-Stream (omega arith)

-- `u8 x[2*2] @compact;`
abbrev compact_array : List Token
compact_array =
    token TokenType.u8 0
    ∷ record {
      type = TokenType.identifier;
      string = b'x' ∷ [];
      u64 = 0;
      f64 = 0;
      is_hex = Bool.false;
    }
    ∷ token TokenType.open_sqbracket 0
    ∷ token TokenType.number 2
    ∷ token TokenType.star 0
    ∷ token TokenType.number 2
    ∷ token TokenType.close_sqbracket 0
    ∷ token TokenType.compact_array 0
    ∷ token TokenType.semicolon 0
    ∷ last_tokens

compact_array-Stream : Stream compact_array
unfolding cbuf.Token.ordinal
compact_array-Stream = Stream.next _ _ refl (
    Stream.next _ _ refl (
      Stream.next _ _ refl (
        Stream.next _ _ refl (
          Stream.next _ _ refl (
            Stream.next _ _ refl (
              Stream.next _ _ refl
                (Stream.next _ _ refl (Stream.next _ _ refl (Stream.ended end_token refl)))))))))

parse_element_declaration-Halts_example :
    Halts (Parsed IsValid 13) (parse_element_declaration ops 100 (starting compact_array))
parse_element_declaration-Halts_example =
    parse_element_declaration-Halts ops (starting compact_array) 100 compact_array-Stream
      (omega arith)

-- `struct x { }`
abbrev empty_struct : List Token
empty_struct =
    token TokenType.struct 0
    ∷ record {
      type = TokenType.identifier;
      string = b'x' ∷ [];
      u64 = 0;
      f64 = 0;
      is_hex = Bool.false;
    }
    ∷ token TokenType.open_bracket 0
    ∷ token TokenType.close_bracket 0
    ∷ last_tokens

-- The size of `x` is 4.
compact_array_value :
    parse_element_declaration ops 100 (starting compact_array)
    ≡ done
        (some (record (new_element ElementType.u8 none none) {
          name = b'x' ∷ [];
          array_suffix = some 4;
          is_compact_array = Bool.true;
        }))
        (starting last_tokens)
unfolding parse_element_declaration cbuf.Token.ordinal
compact_array_value = refl

-- `enum x { x = 7, x }`, in which the second `x` is an error and still gets a value.
abbrev name_token : Token
name_token = record {
  type = TokenType.identifier;
  string = b'x' ∷ [];
  u64 = 0;
  f64 = 0;
  is_hex = Bool.false;
}

abbrev small_enum : List Token
small_enum =
    token TokenType.enum 0
    ∷ name_token
    ∷ token TokenType.open_bracket 0
    ∷ name_token
    ∷ token TokenType.assign 0
    ∷ token TokenType.number 7
    ∷ token TokenType.comma 0
    ∷ name_token
    ∷ token TokenType.close_bracket 0
    ∷ last_tokens

small_enum_value :
    parse_enum ops 84 (starting small_enum)
    ≡ done
        (some (record {
          name = b'x' ∷ [];
          is_class = Bool.false;
          elements =
              record { item_name = b'x' ∷ []; item_value = pos 7; item_assigned = Bool.true }
              ∷ record { item_name = b'x' ∷ []; item_value = pos 8; item_assigned = Bool.false }
              ∷ [];
        }))
        (record { rest = last_tokens; success = Bool.false })
unfolding parse_enum cbuf.Token.ordinal cbuf.Base.Int.s64_of_u64 cbuf.Base.Int.◌+ℤ◌
    cbuf.Base.Int.s64
small_enum_value = refl

-- `const u8 x = 7;`
abbrev small_const : List Token
small_const =
    token TokenType.const 0
    ∷ token TokenType.u8 0
    ∷ name_token
    ∷ token TokenType.assign 0
    ∷ token TokenType.number 7
    ∷ token TokenType.semicolon 0
    ∷ last_tokens

small_const-Stream : Stream small_const
unfolding cbuf.Token.ordinal
small_const-Stream = Stream.next _ _ refl (
    Stream.next _ _ refl (
      Stream.next _ _ refl (
        Stream.next _ _ refl
          (Stream.next _ _ refl (Stream.next _ _ refl (Stream.ended end_token refl))))))

parse_const-Halts_example : Halts (Parsed ConstValid 10) (parse_const (starting small_const))
parse_const-Halts_example = parse_const-Halts (starting small_const) small_const-Stream
