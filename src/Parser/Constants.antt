-- ===== src/Parser/Constants.antt =====
-- `Parser::parseConst` of src/Parser.cpp.
use cbuf.Base.{Bool, Option, none, some, [], if◌then◌else◌}
use cbuf.Base.Int.{pos, s64_of_u64}
use cbuf.Token.{TokenType, Token, is, ordinal}
use cbuf.Ast.{ElementType}
use cbuf.Ast.Declarations.{Text, ConstDecl}
use cbuf.Parser.{Parses, ◌>>=◌, ◌>>◌, pure, error, get_next_token}
use cbuf.Parser.Types.{is_built_in_type}
use cbuf.Parser.Elements.{refuse, get_location, built_in_element_type}
use cbuf.Parser.Structs.{must_match_token}

-- The `switch` from a token to the type of a constant: a short string is a string.
unfoldable pub const_type : TokenType → Option ElementType
unfolding built_in_element_type
const_type TokenType.short_string_keyword = some ElementType.string
const_type t = built_in_element_type t

abbrev pub new_const : Text → ElementType → ConstDecl
new_const name type = record {
  name = name;
  type = type;
  str_val = [];
  float_val = 0;
  int_val = pos 0;
  is_hex = Bool.false;
}

-- The value, which has to be one token of the kind that the type asks for
unfoldable pub const_value : ElementType → Token → ConstDecl → Option ConstDecl
unfolding ordinal
const_value ElementType.string t cst = if is t.type TokenType.string_literal then some cst else none
const_value ElementType.f32 t cst =
    if is t.type TokenType.fnumber then some (record cst { float_val = t.f64 }) else none
const_value ElementType.f64 t cst =
    if is t.type TokenType.fnumber then some (record cst { float_val = t.f64 }) else none
const_value _ t cst =
    if is t.type TokenType.number
    then some (record cst { int_val = s64_of_u64 t.u64; is_hex = t.is_hex })
    else none

unfoldable pub finish_const : Option ConstDecl → Parses (Option ConstDecl)
unfolding must_match_token error
finish_const none = refuse
finish_const (some cst) = do
  found ← must_match_token TokenType.semicolon
  pure (if found then some cst else none)

-- The value behind `=`, and the semicolon
unfoldable pub parse_const_value : ElementType → Text → Parses (Option ConstDecl)
unfolding get_next_token const_value finish_const
parse_const_value type name = do
  t ← get_next_token
  finish_const (const_value type t (record (new_const name type) { str_val = t.string }))

unfoldable pub assigned_const : ElementType → Text → Bool → Parses (Option ConstDecl)
unfolding parse_const_value
assigned_const type name found = if found then parse_const_value type name else pure none

-- The name, and what follows it
unfoldable pub parse_const_name : ElementType → Parses (Option ConstDecl)
unfolding get_next_token error must_match_token assigned_const
parse_const_name type = do
  t ← get_next_token
  if is t.type TokenType.identifier
      then must_match_token TokenType.assign >>= assigned_const type t.string
      else refuse

unfoldable pub typed_const : Option ElementType → Parses (Option ConstDecl)
unfolding error get_location parse_const_name
typed_const none = refuse
typed_const (some type) = get_location >> parse_const_name type

unfoldable pub parse_const_type : Parses (Option ConstDecl)
unfolding get_next_token error is_built_in_type const_type typed_const
parse_const_type = do
  t ← get_next_token
  if is_built_in_type t.type then typed_const (const_type t.type) else refuse

-- `parseConst`
unfoldable pub parse_const : Parses (Option ConstDecl)
unfolding get_next_token error parse_const_type
parse_const = do t ← get_next_token; if is t.type TokenType.const then parse_const_type else refuse
