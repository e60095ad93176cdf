-- ===== src/Ast.antt =====
-- The syntax tree of src/ast.h: values, expressions and declarations. Locations, the file and the
-- fields that the back ends fill in are left out. A null pointer to a tree is `none`.
pub mod Declarations
pub mod Texts
use cbuf.Base.{ℕ, suc, Bool, List}
use cbuf.Base.Int.{ℤ}
use cbuf.Token.{TokenType}

pub data ElementType : Type 0 where
  u8 u16 u32 u64 s8 s16 s32 s64 f32 f64 string short_string bool custom : ElementType

pub data ValueType : Type 0 where
  invalid integer float string bool identifier array : ValueType

-- `ast_value` and `ast_array_value`: the tag with the one field that it makes valid. A float is the
-- bit pattern of a double.
mutual
  pub data Value : Type 0 where
    integer : ℤ → Value
    float : ℕ → Value
    string : List ℕ → Value
    bool : Bool → Value
    identifier : List ℕ → Value
    array : Values → Value

  pub data Values : Type 0 where
    end : Values
    item : Value → Values → Values

-- `valtype`
unfoldable pub value_type : Value → ValueType
value_type (Value.integer n) = ValueType.integer
value_type (Value.float x) = ValueType.float
value_type (Value.string s) = ValueType.string
value_type (Value.bool b) = ValueType.bool
value_type (Value.identifier s) = ValueType.identifier
value_type (Value.array vs) = ValueType.array

unfoldable pub count_values : Values → ℕ
count_values Values.end = 0
count_values (Values.item v vs) = suc (count_values vs)

-- `ast_expression` and its subclasses. `null` is the null pointer that a failed operand leaves in a
-- tree that is then thrown away.
mutual
  pub data Expression : Type 0 where
    null : Expression
    literal : Value → Expression
    unary : TokenType → Expression → Expression
    binary : TokenType → Expression → Expression → Expression
    array : Expressions → Expression

  pub data Expressions : Type 0 where
    end : Expressions
    item : Expression → Expressions → Expressions
