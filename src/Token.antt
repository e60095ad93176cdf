-- ===== src/Token.antt =====
-- The tokens of src/TokenType.h and src/Token.h. `TK_STRING` is `string_literal`, and the keywords
-- that the language of this library has too are spelled `kw_if`, `kw_else`, `kw_true`, `kw_false`.
use cbuf.Base.{ℕ, Bool, List, [], ◌==◌}

pub data TokenType : Type 0 where
  invalid last_token number fnumber identifier eq leq geq neq lt gt lshift assign : TokenType
  implicit_assign mul_assign div_assign mod_assign add_assign sub_assign and_assign xor_assign :
      TokenType
  or_assign open_paren close_paren open_bracket close_bracket open_sqbracket close_sqbracket :
      TokenType
  return_arrow semicolon colon double_colon period double_period hash star div modulo hat pipe :
      TokenType
  double_pipe amp double_amp plus double_plus minus double_minus triple_minus comma bang : TokenType
  string_literal char enum kw_if kw_else for while break continue return namespace kw_true :
      TokenType
  kw_false new delete const null void bool string_keyword short_string_keyword u8 u16 u32 u64 :
      TokenType
  s8 s16 s32 s64 int f32 f64 float struct class import naked compact_array open_block_comment :
      TokenType
  close_block_comment line_comment : TokenType

-- The enumerator's value.
unfoldable pub ordinal : TokenType → ℕ
ordinal TokenType.invalid = 0
ordinal TokenType.last_token = 1
ordinal TokenType.number = 2
ordinal TokenType.fnumber = 3
ordinal TokenType.identifier = 4
ordinal TokenType.eq = 5
ordinal TokenType.leq = 6
ordinal TokenType.geq = 7
ordinal TokenType.neq = 8
ordinal TokenType.lt = 9
ordinal TokenType.gt = 10
ordinal TokenType.lshift = 11
ordinal TokenType.assign = 12
ordinal TokenType.implicit_assign = 13
ordinal TokenType.mul_assign = 14
ordinal TokenType.div_assign = 15
ordinal TokenType.mod_assign = 16
ordinal TokenType.add_assign = 17
ordinal TokenType.sub_assign = 18
ordinal TokenType.and_assign = 19
ordinal TokenType.xor_assign = 20
ordinal TokenType.or_assign = 21
ordinal TokenType.open_paren = 22
ordinal TokenType.close_paren = 23
ordinal TokenType.open_bracket = 24
ordinal TokenType.close_bracket = 25
ordinal TokenType.open_sqbracket = 26
ordinal TokenType.close_sqbracket = 27
ordinal TokenType.return_arrow = 28
ordinal TokenType.semicolon = 29
ordinal TokenType.colon = 30
ordinal TokenType.double_colon = 31
ordinal TokenType.period = 32
ordinal TokenType.double_period = 33
ordinal TokenType.hash = 34
ordinal TokenType.star = 35
ordinal TokenType.div = 36
ordinal TokenType.modulo = 37
ordinal TokenType.hat = 38
ordinal TokenType.pipe = 39
ordinal TokenType.double_pipe = 40
ordinal TokenType.amp = 41
ordinal TokenType.double_amp = 42
ordinal TokenType.plus = 43
ordinal TokenType.double_plus = 44
ordinal TokenType.minus = 45
ordinal TokenType.double_minus = 46
ordinal TokenType.triple_minus = 47
ordinal TokenType.comma = 48
ordinal TokenType.bang = 49
ordinal TokenType.string_literal = 50
ordinal TokenType.char = 51
ordinal TokenType.enum = 52
ordinal TokenType.kw_if = 53
ordinal TokenType.kw_else = 54
ordinal TokenType.for = 55
ordinal TokenType.while = 56
ordinal TokenType.break = 57
ordinal TokenType.continue = 58
ordinal TokenType.return = 59
ordinal TokenType.namespace = 60
ordinal TokenType.kw_true = 61
ordinal TokenType.kw_false = 62
ordinal TokenType.new = 63
ordinal TokenType.delete = 64
ordinal TokenType.const = 65
ordinal TokenType.null = 66
ordinal TokenType.void = 67
ordinal TokenType.bool = 68
ordinal TokenType.string_keyword = 69
ordinal TokenType.short_string_keyword = 70
ordinal TokenType.u8 = 71
ordinal TokenType.u16 = 72
ordinal TokenType.u32 = 73
ordinal TokenType.u64 = 74
ordinal TokenType.s8 = 75
ordinal TokenType.s16 = 76
ordinal TokenType.s32 = 77
ordinal TokenType.s64 = 78
ordinal TokenType.int = 79
ordinal TokenType.f32 = 80
ordinal TokenType.f64 = 81
ordinal TokenType.float = 82
ordinal TokenType.struct = 83
ordinal TokenType.class = 84
ordinal TokenType.import = 85
ordinal TokenType.naked = 86
ordinal TokenType.compact_array = 87
ordinal TokenType.open_block_comment = 88
ordinal TokenType.close_block_comment = 89
ordinal TokenType.line_comment = 90

abbrev pub is : TokenType → TokenType → Bool
is a b = ordinal a == ordinal b

-- Text is its bytes, with no zero at the end; a null `string` is the empty text. The location is
-- only printed in messages, and left out. `_f64` is the bit pattern of a double.
pub record Token : Type 0 where
  pub type : TokenType
  pub string : List ℕ
  pub u64 : ℕ
  pub f64 : ℕ
  pub is_hex : Bool

-- `Token::clear` on a fresh token, with the type of the end of the input
abbrev pub end_token : Token
end_token = record {
  type = TokenType.last_token;
  string = [];
  u64 = 0;
  f64 = 0;
  is_hex = Bool.false;
}
