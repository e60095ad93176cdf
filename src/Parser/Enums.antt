-- ===== src/Parser/Enums.antt =====
-- `Parser::parseEnum` of src/Parser.cpp.
use cbuf.Base.{
  ℕ, zero, suc, Bool, true, false, not, ◌||◌, Option, none, some, List, [], ◌∷◌, ◌++◌,
  if◌then◌else◌,
}
use cbuf.Base.Int.{ℤ, pos, ◌+ℤ◌, s64}
use cbuf.Token.{TokenType, Token, is}
use cbuf.Ast.{Value}
use cbuf.Ast.Declarations.{same_text, Text, EnumItem, EnumDecl}
use cbuf.Evaluate.{FloatOps, compute_expression_value}
use cbuf.Parser.{
  undefined, out_of_fuel, Parses, ◌>>=◌, ◌>>◌, pure, error, succeeded, get_next_token,
  lookahead_token, check_token, consume_token,
}
use cbuf.Parser.Elements.{refuse, get_location, evaluated_value}
use cbuf.Parser.Expressions.{parse_expression}
use cbuf.Parser.Structs.{must_match_token}

unfoldable pub has_item : Text → List EnumItem → Bool
unfolding same_text
has_item name [] = false
has_item name (item ∷ items) = same_text item.item_name name || has_item name items

-- An identifier that is there already is an error, behind which the parsing goes on.
unfoldable pub check_duplicate : Text → List EnumItem → Parses (Unit {0})
unfolding has_item error
check_duplicate name items = if has_item name items then error else pure tt

unfoldable pub integer_value : Option Value → Parses (Option ℤ)
unfolding error
integer_value none = pure none
integer_value (some (Value.integer n)) = pure (some n)
integer_value (some _) = refuse

unfoldable pub last_value : List EnumItem → Option ℤ
last_value [] = none
last_value (item ∷ []) = some item.item_value
last_value (item ∷ next ∷ items) = last_value (next ∷ items)

-- The value of an item without one: 0, or one more than that of the item before, an int64_t.
unfoldable pub next_value : Option ℤ → Parses (Option ℤ)
next_value none = pure (some (pos 0))
next_value (some n) = elim (s64 (n +ℤ pos 1)) as (λ _. Parses (Option ℤ)) [
  | none ↦ λ s. undefined
  | some m ↦ pure (some m)
]

module _ (ops : FloatOps) where
  -- The value behind `=`
  unfoldable pub parse_assigned_value : ℕ → Parses (Option ℤ)
  unfolding consume_token succeeded parse_expression compute_expression_value evaluated_value
      integer_value
  parse_assigned_value f = do
    consume_token
    e ← parse_expression ops f
    ok ← succeeded
    if ok then evaluated_value ops (compute_expression_value ops e) >>= integer_value else pure none

  -- The value of an item, and whether it is assigned
  unfoldable pub parse_item_value : ℕ → List EnumItem → Parses (Option ℤ × Bool)
  unfolding lookahead_token parse_assigned_value last_value next_value
  parse_item_value f items = do
    t ← lookahead_token
    if is t.type TokenType.assign
        then parse_assigned_value f >>= (λ v. pure (v, true))
        else next_value (last_value items) >>= (λ v. pure (v, false))

  unfoldable pub push_item :
      (EnumDecl → Parses (Option EnumDecl))
      → EnumDecl
      → Text
      → Option ℤ × Bool
      → Parses (Option EnumDecl)
  unfolding lookahead_token consume_token error
  push_item again en name (none, assigned) = pure none
  push_item again en name (some n, assigned) =
      let en' = record en {
        elements =
            en.elements
            ++ (record { item_name = name; item_value = n; item_assigned = assigned } ∷ []);
      } in
      lookahead_token >>= λ t.
      if is t.type TokenType.comma
      then consume_token >> again en'
      else if is t.type TokenType.close_bracket
      then again en'
      else refuse

  -- The loop over the items, up to the closing brace, which it consumes
  unfoldable pub parse_enum_items : ℕ → EnumDecl → Parses (Option EnumDecl)
  unfolding check_token lookahead_token consume_token error check_duplicate parse_item_value
      push_item
  parse_enum_items zero en s = out_of_fuel
  parse_enum_items (suc f) en s =
      (do
        close ← check_token TokenType.close_bracket
        if close then consume_token >> pure (some en) else do
          t ← lookahead_token
          if not (is t.type TokenType.identifier) then refuse else do
            check_duplicate t.string en.elements
            consume_token
            v ← parse_item_value f en.elements
            push_item (parse_enum_items f) en t.string v)
        s

  unfoldable pub parse_enum_body : ℕ → EnumDecl → Parses (Option EnumDecl)
  unfolding must_match_token parse_enum_items
  parse_enum_body f en = do
    found ← must_match_token TokenType.open_bracket
    if found then parse_enum_items f en else pure none

  -- The name, from the token given, and what follows it
  unfoldable pub parse_enum_name : ℕ → Bool → Token → Parses (Option EnumDecl)
  unfolding error get_location parse_enum_body
  parse_enum_name f is_class t =
      if is t.type TokenType.identifier
      then get_location
        >> parse_enum_body f (record { name = t.string; is_class = is_class; elements = [] })
      else refuse

  -- `parseEnum`
  unfoldable pub parse_enum : ℕ → Parses (Option EnumDecl)
  unfolding get_next_token error parse_enum_name
  parse_enum f = do
    t ← get_next_token
    if not (is t.type TokenType.enum) then refuse else do
      u ← get_next_token
      if is u.type TokenType.class
          then get_next_token >>= parse_enum_name f true
          else parse_enum_name f false u
