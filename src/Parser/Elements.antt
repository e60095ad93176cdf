-- ===== src/Parser/Elements.antt =====
-- `Parser::parseElementDeclaration` of src/Parser.cpp: one element of a struct, with its array suffix
-- and its initializer.
use cbuf.Base.{
  ℕ, zero, suc, ◌*◌, ◌%◌, ◌^◌, Bool, true, false, not, ◌&&◌, ◌||◌, Option, none, some, [], ◌∷◌,
  ◌==◌, if◌then◌else◌,
}
use cbuf.Base.Int.{pos}
use cbuf.Token.{TokenType, is}
use cbuf.Ast.{ElementType, Value, count_values}
use cbuf.Ast.Declarations.{Element, Text}
use cbuf.Evaluate.{FloatOps, Evaluated, value, failed, compute_expression_value}
use cbuf.Parser.{
  done, overrun, undefined, null_expression, out_of_fuel, Parses, ◌>>=◌, ◌>>◌, pure, error,
  succeeded, get_next_token, lookahead_token, check_token, consume_token,
}
use cbuf.Parser.Types.{is_built_in_type, check_types}
use cbuf.Parser.Expressions.{parse_expression}

-- `ErrorWithLoc` with a location that is at hand.
unfoldable pub error_with_loc : Parses (Unit {0})
error_with_loc s = done tt (record s { success = false })

-- `getLocation`
unfoldable pub get_location : Parses (Unit {0})
get_location s = elim s.rest [ [] ↦ overrun | t ∷ ts ↦ done tt s ]

abbrev pub refuse {ℓ} : {A : Type ℓ} → Parses (Option A)
refuse = do error; pure none

-- The `switch` from a token to the type of an element; `int`, `float` and `void` have no case.
unfoldable pub built_in_element_type : TokenType → Option ElementType
built_in_element_type TokenType.u8 = some ElementType.u8
built_in_element_type TokenType.u16 = some ElementType.u16
built_in_element_type TokenType.u32 = some ElementType.u32
built_in_element_type TokenType.u64 = some ElementType.u64
built_in_element_type TokenType.s8 = some ElementType.s8
built_in_element_type TokenType.s16 = some ElementType.s16
built_in_element_type TokenType.s32 = some ElementType.s32
built_in_element_type TokenType.s64 = some ElementType.s64
built_in_element_type TokenType.f32 = some ElementType.f32
built_in_element_type TokenType.f64 = some ElementType.f64
built_in_element_type TokenType.string_keyword = some ElementType.string
built_in_element_type TokenType.bool = some ElementType.bool
built_in_element_type TokenType.short_string_keyword = some ElementType.short_string
built_in_element_type _ = none

-- A fresh `ast_element` with its type
abbrev pub new_element : ElementType → (custom_name namespace_name : Option Text) → Element
new_element type custom namespace = record {
  name = [];
  type = type;
  custom_name = custom;
  namespace_name = namespace;
  init_value = none;
  is_dynamic_array = Bool.false;
  is_compact_array = Bool.false;
  array_suffix = none;
}

-- The name behind a namespace
unfoldable pub parse_scoped_name : Text → Parses (Option Element)
unfolding get_next_token error
parse_scoped_name namespace = do
  u ← get_next_token
  if is u.type TokenType.identifier
      then pure (some (new_element ElementType.custom (some u.string) (some namespace)))
      else refuse

-- What follows the name of a type
unfoldable pub parse_custom_type : Text → Parses (Option Element)
unfolding check_token consume_token parse_scoped_name
parse_custom_type name = do
  colons ← check_token TokenType.double_colon
  if colons
      then consume_token >> parse_scoped_name name
      else pure (some (new_element ElementType.custom (some name) none))

unfoldable pub built_in_element : Option ElementType → Parses (Option Element)
unfolding error
built_in_element none = refuse
built_in_element (some type) = pure (some (new_element type none none))

-- The type of an element: a built in one, or a name with perhaps a namespace in front.
unfoldable pub parse_element_type : Parses (Option Element)
unfolding get_next_token error get_location is_built_in_type built_in_element_type parse_custom_type
    built_in_element
parse_element_type = do
  t ← get_next_token
  if not (is_built_in_type t.type) && not (is t.type TokenType.identifier) then refuse else do
    get_location
    if is t.type TokenType.identifier
        then parse_custom_type t.string
        else built_in_element (built_in_element_type t.type)

-- The factors behind the first number of an array size, up to the closing bracket. The product is a u64.
unfoldable pub parse_size_factors : ℕ → ℕ → Parses (Option ℕ)
unfolding check_token consume_token get_next_token error
parse_size_factors zero size s = out_of_fuel
parse_size_factors (suc f) size s =
    (do
      close ← check_token TokenType.close_sqbracket
      star ← check_token TokenType.star
      if close then pure (some size) else if not star then refuse else do
        consume_token
        t ← get_next_token
        if is t.type TokenType.number then parse_size_factors f (size * t.u64 % 2 ^ 64) else refuse)
      s

-- The size between the brackets, 0 if there is no number.
unfoldable pub parse_array_size : ℕ → Parses (Option ℕ)
unfolding check_token get_next_token parse_size_factors
parse_array_size f = do
  number ← check_token TokenType.number
  if not number then pure (some 0) else do t ← get_next_token; parse_size_factors f t.u64

unfoldable pub compact_element : ElementType → Element → Parses (Option Element)
unfolding error
compact_element ElementType.string elem = refuse
compact_element _ elem = pure (some (record elem { is_compact_array = true }))

-- `@compact` behind an array of this size
unfoldable pub parse_compact : ℕ → Element → Parses (Option Element)
unfolding check_token consume_token error compact_element
parse_compact size elem = do
  compact ← check_token TokenType.compact_array
  if not compact
      then pure (some elem)
      else do consume_token; if size == 0 then refuse else compact_element elem.type elem

-- A second array is refused.
unfoldable pub with_array : ℕ → Element → Option ℕ → Parses (Option Element)
unfolding error parse_compact
with_array size elem (some m) = refuse
with_array size elem none = parse_compact size (record elem {
  array_suffix = some size;
  is_dynamic_array = elem.is_dynamic_array || size == 0;
})

unfoldable pub parse_array_close : Element → Option ℕ → Parses (Option Element)
unfolding check_token consume_token error with_array
parse_array_close elem none = pure none
parse_array_close elem (some size) = do
  close ← check_token TokenType.close_sqbracket
  if close then consume_token >> with_array size elem elem.array_suffix else refuse

-- An array suffix, from its opening bracket on
unfoldable pub parse_array_suffix : ℕ → Element → Parses (Option Element)
unfolding consume_token parse_array_size parse_array_close
parse_array_suffix f elem = consume_token >> parse_array_size f >>= parse_array_close elem

-- The two initializers that are taken against `checkTypes`: 0 or 1 for a bool, a name for a custom type.
unfoldable pub is_special_case : ElementType → Value → Bool
is_special_case ElementType.bool (Value.integer (pos n)) = n == 0 || n == 1
is_special_case ElementType.custom (Value.identifier s) = true
is_special_case _ _ = false

-- An array takes an array of its size, of any size if it is dynamic, and nothing else does.
unfoldable pub shapes_agree : Option ℕ → Value → Bool
unfolding count_values
shapes_agree none (Value.array vs) = false
shapes_agree none _ = true
shapes_agree (some n) (Value.array vs) = n == 0 || count_values vs == n
shapes_agree (some n) _ = false

unfoldable pub accepts_init : Element → Value → Bool
unfolding check_types is_special_case shapes_agree
accepts_init elem v =
    (check_types elem.type v || is_special_case elem.type v) && shapes_agree elem.array_suffix v

module _ (ops : FloatOps) where
  unfoldable pub evaluated_value : Evaluated Value → Parses (Option Value)
  unfolding error
  evaluated_value (value v) = pure (some v)
  evaluated_value failed = refuse
  evaluated_value Evaluated.undefined = λ s. undefined
  evaluated_value Evaluated.null_expression = λ s. null_expression

  -- The value behind `=`: a name, or an expression that is computed at once.
  unfoldable pub parse_init_value : ℕ → Parses (Option Value)
  unfolding lookahead_token consume_token succeeded parse_expression compute_expression_value
      evaluated_value
  parse_init_value f = do
    t ← lookahead_token
    if is t.type TokenType.identifier
        then (do consume_token; pure (some (Value.identifier t.string)))
        else do
          e ← parse_expression ops f
          ok ← succeeded
          if ok then evaluated_value (compute_expression_value ops e) else pure none

  unfoldable pub initialized : Element → Option Value → Parses (Option Element)
  unfolding error accepts_init
  initialized elem none = pure none
  initialized elem (some v) =
      if accepts_init elem v then pure (some (record elem { init_value = some v })) else refuse

  unfoldable pub parse_initializer : ℕ → Element → Parses (Option Element)
  unfolding consume_token parse_init_value initialized
  parse_initializer f elem = consume_token >> parse_init_value f >>= initialized elem

  abbrev pub and_then :
      (Element → Parses (Option Element)) → Option Element → Parses (Option Element)
  and_then again none = pure none
  and_then again (some elem) = again elem

  -- The loop over array suffixes and initializers, up to the semicolon, which it consumes. Each suffix
  -- has the fuel that is left.
  unfoldable pub parse_suffixes : ℕ → Element → Parses (Option Element)
  unfolding check_token consume_token error_with_loc parse_array_suffix parse_initializer
  parse_suffixes zero elem s = out_of_fuel
  parse_suffixes (suc f) elem s =
      (do
        semicolon ← check_token TokenType.semicolon
        if semicolon then (do consume_token; pure (some elem)) else do
          bracket ← check_token TokenType.open_sqbracket
          assign ← check_token TokenType.assign
          if bracket
              then parse_array_suffix f elem >>= and_then (parse_suffixes f)
              else if assign
              then parse_initializer f elem >>= and_then (parse_suffixes f)
              else error_with_loc >> pure none)
        s

  -- The name of an element, and what follows it
  unfoldable pub parse_element_name : ℕ → Element → Parses (Option Element)
  unfolding get_next_token error parse_suffixes
  parse_element_name f elem = do
    t ← get_next_token
    if is t.type TokenType.identifier
        then parse_suffixes f (record elem { name = t.string })
        else refuse

  -- `parseElementDeclaration`
  unfoldable pub parse_element_declaration : ℕ → Parses (Option Element)
  unfolding parse_element_type parse_element_name
  parse_element_declaration f = parse_element_type >>= and_then (parse_element_name f)
