-- ===== src/Parser/Types.antt =====
-- The tests on token types and value types of src/Parser.cpp.
use cbuf.Base.{ℕ, Bool, true, false, ◌&&◌, ◌==◌, List, [], ◌∷◌}
use cbuf.Token.{TokenType, Token, is}
use cbuf.Ast.{ElementType, ValueType, Value, Values, value_type}

-- `isBuiltInType`
unfoldable pub is_built_in_type : TokenType → Bool
is_built_in_type TokenType.bool = true
is_built_in_type TokenType.int = true
is_built_in_type TokenType.u8 = true
is_built_in_type TokenType.u16 = true
is_built_in_type TokenType.u32 = true
is_built_in_type TokenType.u64 = true
is_built_in_type TokenType.s8 = true
is_built_in_type TokenType.s16 = true
is_built_in_type TokenType.s32 = true
is_built_in_type TokenType.s64 = true
is_built_in_type TokenType.float = true
is_built_in_type TokenType.f32 = true
is_built_in_type TokenType.f64 = true
is_built_in_type TokenType.string_keyword = true
is_built_in_type TokenType.short_string_keyword = true
is_built_in_type TokenType.void = true
is_built_in_type _ = false

-- `isUnaryPrefixOperator`
unfoldable pub is_unary_prefix_operator : TokenType → Bool
is_unary_prefix_operator TokenType.plus = true
is_unary_prefix_operator TokenType.minus = true
is_unary_prefix_operator _ = false

-- `isBinOperator`
unfoldable pub is_bin_operator : TokenType → Bool
is_bin_operator TokenType.star = true
is_bin_operator TokenType.div = true
is_bin_operator TokenType.modulo = true
is_bin_operator TokenType.plus = true
is_bin_operator TokenType.minus = true
is_bin_operator _ = false

-- `getPrecedence`
unfoldable pub get_precedence : TokenType → ℕ
get_precedence TokenType.star = 1
get_precedence TokenType.div = 1
get_precedence TokenType.modulo = 1
get_precedence TokenType.minus = 2
get_precedence TokenType.plus = 2
get_precedence _ = 0

unfoldable is_0x : List ℕ → Bool
is_0x (a ∷ b ∷ []) = a == b'0' && b == b'x'
is_0x _ = false

-- `isHexNumber`: the text is compared with "0x" as a whole.
unfoldable pub is_hex_number : Token → Bool
unfolding is_0x
is_hex_number t = is t.type TokenType.number && is_0x t.string

-- `ElemTypeToValType`
unfoldable pub elem_type_to_val_type : ElementType → ValueType
elem_type_to_val_type ElementType.u8 = ValueType.integer
elem_type_to_val_type ElementType.u16 = ValueType.integer
elem_type_to_val_type ElementType.u32 = ValueType.integer
elem_type_to_val_type ElementType.u64 = ValueType.integer
elem_type_to_val_type ElementType.s8 = ValueType.integer
elem_type_to_val_type ElementType.s16 = ValueType.integer
elem_type_to_val_type ElementType.s32 = ValueType.integer
elem_type_to_val_type ElementType.s64 = ValueType.integer
elem_type_to_val_type ElementType.f32 = ValueType.float
elem_type_to_val_type ElementType.f64 = ValueType.float
elem_type_to_val_type ElementType.bool = ValueType.bool
elem_type_to_val_type ElementType.string = ValueType.string
elem_type_to_val_type ElementType.short_string = ValueType.string
elem_type_to_val_type ElementType.custom = ValueType.invalid

-- `checkTypes`, for an element type whose value type is known: a float takes an integer too, and an
-- array is checked item by item.
unfoldable mutual
  unfolding value_type

  pub check_val_type : ValueType → Value → Bool
  check_val_type vt (Value.array vs) = check_val_types vt vs
  check_val_type vt (Value.integer n) = elim vt [
    | ValueType.integer ↦ true
    | ValueType.float ↦ true
    | _ ↦ false
  ]
  check_val_type vt (Value.float x) = elim vt [ ValueType.float ↦ true | _ ↦ false ]
  check_val_type vt (Value.string s) = elim vt [ ValueType.string ↦ true | _ ↦ false ]
  check_val_type vt (Value.bool b) = elim vt [ ValueType.bool ↦ true | _ ↦ false ]
  check_val_type vt (Value.identifier s) = elim vt [ ValueType.identifier ↦ true | _ ↦ false ]

  pub check_val_types : ValueType → Values → Bool
  check_val_types vt Values.end = true
  check_val_types vt (Values.item v vs) = check_val_type vt v && check_val_types vt vs

unfoldable pub check_types : ElementType → Value → Bool
unfolding elem_type_to_val_type check_val_type
check_types t v = elim (elem_type_to_val_type t) [
  | ValueType.invalid ↦ false
  | vt ↦ check_val_type vt v
]
